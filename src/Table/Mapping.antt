-- ===== src/Table/Mapping.antt =====
-- `map` and `unmap` change the map that a table stands for at one page.
use os_agent.Base.{
  ℕ, ◌+◌, ◌*◌, ◌/◌, ◌%◌, ◌^◌, ◌<◌, ◌≤◌, ◌≡◌, ◌≢◌, refl, ap, ◌∙◌, true, Bool-cases, Option-cases,
  inl, inr, Option, none, some, ◌⊎◌, arith, ◌==◌, if◌then◌else◌,
}
use os_agent.Addr.{PhysPageNum, VirtPageNum, indexes, indexes_from}
use os_agent.Table.{
  Words, Ram, Building, PageTable, pte_ppn, is_valid, new_pte, flag_v, with_flag, find_from,
  find_pte, find_create_from, find_pte_create, set_word, empty_pte, map_page, unmap_page,
}
use os_agent.Table.Tree.{IsTree, IsRooted, entry_of, find_pte-place}
use os_agent.Table.Grown.{IsGrown, holds, ensure-IsGrown}

IsGrown-trans :
    (ram : Ram) (root : PhysPageNum) (place : ℕ → ℕ) (ram1 : Ram) (place1 : ℕ → ℕ) (ram2 : Ram)
    (place2 : ℕ → ℕ)
    → IsGrown ram root place ram1 place1
    → IsGrown ram1 root place1 ram2 place2
    → IsGrown ram root place ram2 place2
IsGrown-trans ram root place ram1 place1 ram2 place2 g h = record {
  rooted = h.rooted;
  entry_eq = λ vpn. h.entry_eq vpn ∙ g.entry_eq vpn;
  place_eq = λ q a. h.place_eq q (omega (arith, g.place_eq q a, a)) ∙ g.place_eq q a;
  kept = λ q i a b c.
      let same = g.kept q i a b c in
      h.kept q i (omega (arith, g.place_eq q a, a)) b (rw same c) ∙ same;
  held_mono = λ q a. h.held_mono q (g.held_mono q a);
  place_held = λ q a. h.place_held q (g.held_mono q a) ∙ g.place_held q a;
  others =
      λ b a z. h.others b (g.held_mono (b / 512) a) (g.place_held (b / 512) a ∙ z) ∙ g.others b a z;
}

-- What `find_pte_create` gives: the table grew by what was missing, and the page is found at `slot`.
record IsFound (ram : Ram) (root : PhysPageNum) (place : ℕ → ℕ) (vpn slot : ℕ) (ram' : Ram)
    (place' : ℕ → ℕ) : Type 0 where
  pub grown : IsGrown ram root place ram' place'
  pub found : find_pte ram'.words root vpn ≡ some slot
  pub end_eq : ram'.allocator.end ≡ ram.allocator.end
  pub counted : ram'.allocator.current ≤ ram.allocator.current + 2

find_pte_create_lem :
    (b : Building) (root : PhysPageNum) (place : ℕ → ℕ) (vpn : VirtPageNum)
    → IsRooted b.ram root place
    → ((slot : ℕ) × (b' : Building) × (place' : ℕ → ℕ) × (find_pte_create b root vpn
          ≡ some (slot, b'))
        × IsFound b.ram root place vpn slot b'.ram place')
      ⊎ ((find_pte_create b root vpn ≡ none) × (b.ram.allocator.end < b.ram.allocator.current + 2))
unfolding find_create_from find_from indexes indexes_from
find_pte_create_lem b root place vpn r =
    let i0 = vpn / 2 ^ 9 / 2 ^ 9 % 512 in
    let i1 = vpn / 2 ^ 9 % 512 in
    let i2 = vpn % 512 in
    let first = r.tree.root_first in
    elim (ensure-IsGrown b root place root i0 r (omega (arith, first)) (omega (arith, first))
      (omega arith)) [
        | inr (e, full) ↦ inr (rw (e, find_create_from) refl, omega (arith, full))
        | inl (b1, place1, e1, g1, v1, end1, counted1) ↦
            let p1 = pte_ppn (b1.ram.words (root * 512 + i0)) in
            let first1 = g1.rooted.tree.root_first in
            let at1 : place1 p1 ≡ 512 + i0 = omega (
              arith,
              first1,
              g1.rooted.tree.below root i0 (omega (arith, first1)) (omega (arith, first1))
                  (omega arith) v1,
            ) in
            elim (ensure-IsGrown b1 root place1 p1 i1 g1.rooted (omega (arith, at1))
              (omega (arith, at1)) (omega arith)) [
                | inr (e, full) ↦
                    inr (rw (e1, find_create_from, e) refl, omega (arith, full, end1, counted1))
                | inl (b2, place2, e2, g2, v2, end2, counted2) ↦
                    let p2 = pte_ppn (b2.ram.words (p1 * 512 + i1)) in
                    let same = g2.kept root i0 (omega (arith, first1)) (omega arith) v1 in
                    inl (
                      p2 * 512 + i2,
                      b2,
                      place2,
                      ground (arith, e1, e2),
                      record {
                        grown = IsGrown-trans b.ram root place b1.ram place1 b2.ram place2 g1 g2;
                        found = ground (arith, same, v1, v2);
                        end_eq = omega (arith, end1, end2);
                        counted = omega (arith, counted1, counted2);
                      },
                    )
              ]
      ]

-- A change of an entry in a table of the last level.
module _ (words : Words) (root : PhysPageNum) (place : ℕ → ℕ) (vpn slot bits : ℕ)
    (t : IsTree words root place) (bound : vpn < 2 ^ 27)
    (found : find_pte words root vpn ≡ some slot) where
  last-place :
      (q i : ℕ)
      → place q < 2 ^ 18
      → i < 512
      → set_word words slot bits (q * 512 + i) ≡ words (q * 512 + i)
  last-place q i a b =
      let (p, at, eq) = find_pte-place words root place vpn slot t found bound in
      let apart : q ≢ p = λ e. omega (arith, a, at, ap place e) in ground (arith, eq, apart, b)

  others-set_word : (b : ℕ) → place (b / 512) ≡ 0 → set_word words slot bits b ≡ words b
  others-set_word b z =
      let (p, at, eq) = find_pte-place words root place vpn slot t found bound in
      let apart : b ≢ slot = λ e.
        let in_page : b / 512 ≡ p = omega (arith, eq, e) in
        omega (arith, z, at, ap place in_page) in
      ground (arith, apart)

  IsTree-set_word : IsTree (set_word words slot bits) root place
  IsTree-set_word = record {
    root_first = t.root_first;
    below =
        λ q i a b c d. rw (last-place q i b c) (t.below q i a b c (rw (last-place q i b c) at d));
  }

  pub find_pte-set_word :
      (q : VirtPageNum) → find_pte (set_word words slot bits) root q ≡ find_pte words root q
  unfolding find_from indexes indexes_from
  find_pte-set_word q =
      let i0 = q / 2 ^ 9 / 2 ^ 9 % 512 in
      let i1 = q / 2 ^ 9 % 512 in
      let e0 = words (root * 512 + i0) in
      let s0 = last-place root i0 (omega (arith, t.root_first)) (omega arith) in
      elim (Bool-cases (is_valid e0)) [
        | inr bad ↦ ground (arith, s0, bad)
        | inl good ↦
            let at0 =
              t.below root i0 (omega (arith, t.root_first)) (omega (arith, t.root_first))
                (omega arith) good in
            let s1 = last-place (pte_ppn e0) i1 (omega (arith, at0, t.root_first)) (omega arith) in
            ground (arith, s0, good, s1)
      ]

  entry_of-set_word :
      (q : VirtPageNum)
      → q < 2 ^ 27
      → entry_of (set_word words slot bits) root q
        ≡ (if q == vpn then (if is_valid bits then some bits else none) else entry_of words root q)
  unfolding entry_of
  entry_of-set_word q h =
      let same = find_pte-set_word q in
      elim (Option-cases (find_pte words root q)) [
        | inl e ↦
            let apart : q ≢ vpn = λ x. ground (arith, ap (find_pte words root) x, e, found) in
            ground (arith, same, e, apart)
        | inr (s, e) ↦
            let (p, at, eq) = find_pte-place words root place vpn slot t found bound in
            let (p', at', eq') = find_pte-place words root place q s t e h in
            elim (Bool-cases (q == vpn)) [
              | inl here ↦
                  let eq_vpn : q ≡ vpn = ground (arith, here) in
                  let eq_slot : s ≡ slot =
                    ground (arith, ap (find_pte words root) eq_vpn, e, found) in
                  ground (arith, same, e, eq_slot, here)
              | inr there ↦
                  let other : s ≢ slot = λ x.
                    let eq_p : p' ≡ p = omega (arith, eq, eq', x) in
                    let eq_q : q ≡ vpn =
                      omega (arith, eq, eq', x, at, at', ap place eq_p, h, bound) in
                    ground (arith, eq_q, there) in
                  ground (arith, same, e, other, there)
            ]
      ]

IsRooted-set_word :
    (ram : Ram) (root : PhysPageNum) (place : ℕ → ℕ) (vpn slot bits : ℕ)
    → IsRooted ram root place
    → vpn < 2 ^ 27
    → find_pte ram.words root vpn ≡ some slot
    → IsRooted (record ram { words = set_word ram.words slot bits }) root place
IsRooted-set_word ram root place vpn slot bits r h found = record {
  tree = IsTree-set_word ram.words root place vpn slot bits r.tree h found;
  held = r.held;
  frames_valid = r.frames_valid;
  in_range = r.in_range;
  frames_small = r.frames_small;
}

entry_of_found :
    (words : Words) (root : PhysPageNum) (vpn slot : ℕ)
    → find_pte words root vpn ≡ some slot
    → entry_of words root vpn ≡ (if is_valid (words slot) then some (words slot) else none)
unfolding entry_of
entry_of_found words root vpn slot e = rw (e, entry_of) refl

pub new_pte-is_valid :
    (ppn : PhysPageNum) (flags : ℕ)
    → flags < 2 ^ 8
    → is_valid (new_pte ppn (with_flag flags flag_v)) ≡ true
unfolding with_flag
new_pte-is_valid ppn flags h = ground (arith, h)

-- A table after a change of its map: `entry` at one page, and elsewhere the map as it was. Frames
-- that were held still are, and those that are no tables of this tree keep their words.
pub record IsChanged (ram : Ram) (root : PhysPageNum) (place : ℕ → ℕ) (ram' : Ram)
    (vpn : VirtPageNum) (entry : Option ℕ) : Type 0 where
  pub place' : ℕ → ℕ
  pub rooted : IsRooted ram' root place'
  pub entry_eq :
      (q : VirtPageNum)
      → q < 2 ^ 27
      → entry_of ram'.words root q ≡ (if q == vpn then entry else entry_of ram.words root q)
  pub held_mono : (q : ℕ) → holds ram q ≡ true → holds ram' q ≡ true
  pub place_held : (q : ℕ) → holds ram q ≡ true → place' q ≡ place q
  pub others :
      (b : ℕ) → holds ram (b / 512) ≡ true → place (b / 512) ≡ 0 → ram'.words b ≡ ram.words b
  pub end_eq : ram'.allocator.end ≡ ram.allocator.end
  pub counted : ram'.allocator.current ≤ ram.allocator.current + 2

-- `unmap` panics exactly if the page is not in the table's map. Otherwise the page leaves the map,
-- all others stay, the tables are a tree as before, and a frame that is no table keeps its words.
pub unmap_page_lem :
    (ram : Ram) (table : PageTable) (place : ℕ → ℕ) (vpn : VirtPageNum)
    → IsRooted ram table.root_ppn place
    → vpn < 2 ^ 27
    → ((unmap_page ram table vpn ≡ none) × (entry_of ram.words table.root_ppn vpn ≡ none))
      ⊎ ((ram' : Ram) × (e : ℕ) × (unmap_page ram table vpn ≡ some ram')
          × (entry_of ram.words table.root_ppn vpn ≡ some e)
          × IsChanged ram table.root_ppn place ram' vpn none)
unfolding unmap_page entry_of
unmap_page_lem ram table place vpn r h =
    let root = table.root_ppn in
    elim (Option-cases (find_pte ram.words root vpn)) [
      | inl e ↦ inl (rw (e, unmap_page) refl, rw (e, entry_of) refl)
      | inr (slot, e) ↦ elim (Bool-cases (is_valid (ram.words slot))) [
        | inr bad ↦ inl (rw (e, unmap_page, bad) refl, rw (e, entry_of, bad) refl)
        | inl good ↦ inr (
          record ram { words = set_word ram.words slot empty_pte },
          ram.words slot,
          rw (e, unmap_page, good) refl,
          rw (e, entry_of, good) refl,
          record {
            place' = place;
            rooted = IsRooted-set_word ram root place vpn slot empty_pte r h e;
            entry_eq = entry_of-set_word ram.words root place vpn slot empty_pte r.tree h e;
            held_mono = λ q a. a;
            place_held = λ q a. refl;
            others =
                λ b a z. others-set_word ram.words root place vpn slot empty_pte r.tree h e b z;
            end_eq = refl;
            counted = omega arith;
          },
        )
      ]
    ]

-- `map` panics only if the page is in the map already or fewer than two frames were never handed out.
-- Otherwise the page was not in the map and now has a valid entry with this frame and these flags, all
-- other pages keep theirs, and the tables are a tree as before. A frame that was held stays held, and
-- keeps its words if it is no table of this tree.
pub map_page_lem :
    (ram : Ram) (table : PageTable) (place : ℕ → ℕ) (vpn : VirtPageNum) (ppn : PhysPageNum)
    (flags : ℕ)
    → IsRooted ram table.root_ppn place
    → vpn < 2 ^ 27
    → flags < 2 ^ 8
    → ((map_page ram table vpn ppn flags ≡ none)
        × ((entry_of ram.words table.root_ppn vpn ≢ none)
            ⊎ (ram.allocator.end < ram.allocator.current + 2)))
      ⊎ ((table' : PageTable) × (ram' : Ram) × (map_page ram table vpn ppn flags
            ≡ some (table', ram'))
          × (table'.root_ppn ≡ table.root_ppn)
          × (entry_of ram.words table.root_ppn vpn ≡ none)
          × IsChanged ram table.root_ppn place ram' vpn
              (some (new_pte ppn (with_flag flags flag_v))))
unfolding map_page
map_page_lem ram table place vpn ppn flags r h f =
    let root = table.root_ppn in
    let bits = new_pte ppn (with_flag flags flag_v) in
    elim (find_pte_create_lem (record { ram = ram; tables = table.frames }) root place vpn r) [
      | inr (e, few) ↦ inl (rw (e, map_page) refl, inr few)
      | inl (slot, b, place', e, x) ↦ elim (Bool-cases (is_valid (b.ram.words slot))) [
        | inl taken ↦ inl (
          rw (e, map_page, taken) refl,
          inl (λ free. ground (
            arith,
            entry_of_found b.ram.words root vpn slot x.found,
            taken,
            x.grown.entry_eq vpn,
            free,
          )),
        )
        | inr good ↦
            let g = x.grown in
            inr (
              record table { frames = b.tables },
              record b.ram { words = set_word b.ram.words slot bits },
              rw (e, map_page, good) refl,
              refl,
              ground
                  (arith, entry_of_found b.ram.words root vpn slot x.found, good, g.entry_eq vpn),
              record {
                place' = place';
                rooted = IsRooted-set_word b.ram root place' vpn slot bits g.rooted h x.found;
                entry_eq = λ q c.
                    let changed =
                      entry_of-set_word b.ram.words root place' vpn slot bits g.rooted.tree h
                        x.found q c in
                    let valid = new_pte-is_valid ppn flags f in
                    rw (g.entry_eq q) at rw valid at changed;
                held_mono = g.held_mono;
                place_held = g.place_held;
                others = λ c a z.
                    others-set_word b.ram.words root place' vpn slot bits g.rooted.tree h x.found c
                      (g.place_held (c / 512) a ∙ z)
                    ∙ g.others c a z;
                end_eq = x.end_eq;
                counted = x.counted;
              },
            )
      ]
    ]
