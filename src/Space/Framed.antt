-- ===== src/Space/Framed.antt =====
-- A framed area: each page of its range is mapped to a frame of its own.
use os_agent.Base.{
  ℕ, ◌+◌, ◌*◌, ◌/◌, ◌%◌, ◌^◌, ◌<◌, ◌≤◌, ◌≡◌, ◌≢◌, refl, sym, ◌∙◌, true, false, Bool-cases, inl, inr,
  none, some, ◌⊎◌, arith, ◌==◌, if◌then◌else◌,
}
use os_agent.BTree.{Map, get, insert, beq}
use os_agent.BTree.Laws.{get-insert}
use os_agent.Addr.{PhysPageNum, VirtPageNum}
use os_agent.Table.{Words, Ram, pte_ppn, is_valid, new_pte, with_flag, flag_v}
use os_agent.Table.Tree.{IsTree, IsRooted, entry_of}
use os_agent.Table.Level.{entry_of_lem}
use os_agent.Table.Grown.{IsFresh, alloc_frame_lem, holds}
use os_agent.Table.Mapping.{map_page_lem}
use os_agent.Space.{page_ord, framed, Mapping, frame_for, map_one}

-- The map reads only the tables.
entry_of-agree :
    (words words' : Words) (root : PhysPageNum) (place : ℕ → ℕ)
    → IsTree words root place
    → ((q i : ℕ) → 0 < place q → i < 512 → words' (q * 512 + i) ≡ words (q * 512 + i))
    → (vpn : VirtPageNum) → entry_of words' root vpn ≡ entry_of words root vpn
entry_of-agree words words' root place t same vpn =
    let i0 = vpn / 2 ^ 9 / 2 ^ 9 % 512 in
    let i1 = vpn / 2 ^ 9 % 512 in
    let e0 = words (root * 512 + i0) in
    let e1 = words (pte_ppn e0 * 512 + i1) in
    let new = entry_of_lem words' root vpn in
    let old = entry_of_lem words root vpn in
    let s0 = same root i0 (omega (arith, t.root_first)) (omega arith) in
    elim (Bool-cases (is_valid e0)) [
      | inr bad ↦ ground (arith, new, old, s0, bad)
      | inl good0 ↦
          let at0 =
            t.below root i0 (omega (arith, t.root_first)) (omega (arith, t.root_first))
              (omega arith) good0 in
          let s1 = same (pte_ppn e0) i1 (omega (arith, at0, t.root_first)) (omega arith) in
          elim (Bool-cases (is_valid e1)) [
            | inr bad ↦ ground (arith, new, old, s0, good0, s1, bad)
            | inl good1 ↦
                let at1 =
                  t.below (pte_ppn e0) i1 (omega (arith, at0, t.root_first))
                    (omega (arith, at0, t.root_first)) (omega arith) good1 in
                let s2 =
                  same (pte_ppn e1) (vpn % 512) (omega (arith, at0, at1, t.root_first))
                    (omega arith) in
                ground (arith, new, old, s0, good0, s1, good1, s2)
          ]
    ]

-- A frame that is handed out is no table: the tree and its map stay.
record IsKept (ram : Ram) (root : PhysPageNum) (place : ℕ → ℕ) (ram1 : Ram) : Type 0 where
  pub rooted : IsRooted ram1 root place
  pub entry_eq : (vpn : VirtPageNum) → entry_of ram1.words root vpn ≡ entry_of ram.words root vpn

IsFresh-IsKept :
    (ram : Ram) (root : PhysPageNum) (place : ℕ → ℕ) (f : PhysPageNum) (ram1 : Ram)
    → IsRooted ram root place
    → IsFresh ram f ram1
    → IsKept ram root place ram1
IsFresh-IsKept ram root place f ram1 r x =
    let same : (q i : ℕ)
        → 0 < place q
        → i < 512
        → ram1.words (q * 512 + i) ≡ ram.words (q * 512 + i) =
      λ q i a b. ground (arith, x.words_eq (q * 512 + i), r.held q a, x.was_free, b) in
    record {
      rooted = record {
        tree = record {
          root_first = r.tree.root_first;
          below =
              λ q i a b c d. rw (same q i a c) (r.tree.below q i a b c (rw (same q i a c) at d));
        };
        held = λ q a. ground (arith, x.held_eq q, r.held q a);
        frames_valid = x.valid;
        in_range = x.in_range;
        frames_small = omega (arith, x.end_eq, r.frames_small);
      };
      entry_eq = entry_of-agree ram.words ram1.words root place r.tree same;
    }

-- What `map_one` does in a framed area: `vpn` gets frame `f`, which nobody held.
pub record IsPaged (m : Mapping) (place : ℕ → ℕ) (vpn : VirtPageNum) (f : PhysPageNum)
    (m' : Mapping) : Type 0 where
  pub place' : ℕ → ℕ
  pub root_eq : m'.table.root_ppn ≡ m.table.root_ppn
  pub rooted : IsRooted m'.ram m.table.root_ppn place'
  pub entry_eq :
      (q : VirtPageNum)
      → q < 2 ^ 27
      → entry_of m'.ram.words m.table.root_ppn q ≡ (
          if q == vpn
          then some (new_pte f (with_flag m.area.map_perm flag_v))
          else entry_of m.ram.words m.table.root_ppn q)
  pub was_none : entry_of m.ram.words m.table.root_ppn vpn ≡ none
  pub small : f < 2 ^ 44
  pub was_free : holds m.ram f ≡ false
  pub taken : holds m'.ram f ≡ true
  pub held_mono : (q : ℕ) → holds m.ram q ≡ true → holds m'.ram q ≡ true
  pub place_held : (q : ℕ) → holds m.ram q ≡ true → place' q ≡ place q
  pub others :
      (b : ℕ) → holds m.ram (b / 512) ≡ true → place (b / 512) ≡ 0 → m'.ram.words b ≡ m.ram.words b
  pub type_eq : m'.area.map_type ≡ m.area.map_type
  pub perm_eq : m'.area.map_perm ≡ m.area.map_perm
  pub frames_eq :
      (q : VirtPageNum)
      → get q m'.area.data_frames ≡ (if vpn == q then some f else get q m.area.data_frames)
  pub end_eq : m'.ram.allocator.end ≡ m.ram.allocator.end
  pub counted : m'.ram.allocator.current ≤ m.ram.allocator.current + 3

get-page :
    (k j : VirtPageNum) (v : PhysPageNum) (frames : Map VirtPageNum PhysPageNum)
    → get j (insert k v frames) ≡ (if k == j then some v else get j frames)
unfolding beq
get-page k j v frames = ground (arith, get-insert k j v frames)

pub map_one-IsPaged :
    (m : Mapping) (place : ℕ → ℕ) (vpn : VirtPageNum)
    → m.area.map_type ≡ framed
    → m.area.map_perm < 2 ^ 8
    → get vpn m.area.data_frames ≡ none
    → IsRooted m.ram m.table.root_ppn place
    → vpn < 2 ^ 27
    → ((f : PhysPageNum) × (m' : Mapping) × (map_one m vpn ≡ some m') × IsPaged m place vpn f m')
      ⊎ ((map_one m vpn ≡ none)
          × ((entry_of m.ram.words m.table.root_ppn vpn ≢ none)
              ⊎ (m.ram.allocator.end < m.ram.allocator.current + 3)))
unfolding map_one frame_for
map_one-IsPaged m place vpn kind perm new r h =
    let root = m.table.root_ppn in
    elim (alloc_frame_lem m.ram r.frames_valid r.in_range r.frames_small) [
      | inr (gone, full, _) ↦
          inr (rw (kind, map_one, frame_for, gone) refl, inr (omega (arith, full)))
      | inl (f, ram1, gives, x) ↦
          let kept = IsFresh-IsKept m.ram root place f ram1 r x in
          elim (map_page_lem ram1 m.table place vpn f m.area.map_perm kept.rooted h perm) [
            | inl (fails, inl mapped) ↦ inr (
              rw (kind, map_one, frame_for, gives, new, fails) refl,
              inl (λ free. mapped (kept.entry_eq vpn ∙ free)),
            )
            | inl (fails, inr few) ↦ inr (
              rw (kind, map_one, frame_for, gives, new, fails) refl,
              inr (omega (arith, few, x.counted, x.end_eq)),
            )
            | inr (table', ram2, maps, same_root, was_none, c) ↦ inl (
              f,
              record {
                area = record m.area {
                  data_frames = insert vpn f m.area.data_frames;
                  map_type = framed;
                };
                table = table';
                ram = ram2;
              },
              rw (kind, map_one, frame_for, gives, new, maps, kind) refl,
              record {
                place' = c.place';
                root_eq = same_root;
                rooted = c.rooted;
                entry_eq = λ q a. let changed = c.entry_eq q a in rw (kept.entry_eq q) at changed;
                was_none = sym (kept.entry_eq vpn) ∙ was_none;
                small = x.small;
                was_free = x.was_free;
                taken = c.held_mono f (ground (arith, x.held_eq f));
                held_mono = λ q a. c.held_mono q (ground (arith, x.held_eq q, a));
                place_held = λ q a. c.place_held q (ground (arith, x.held_eq q, a));
                others = λ b a z.
                    c.others b (ground (arith, x.held_eq (b / 512), a)) z
                    ∙ ground (arith, x.words_eq b, x.was_free, a);
                type_eq = sym kind;
                perm_eq = refl;
                frames_eq = λ q. get-page vpn q f m.area.data_frames;
                end_eq = omega (arith, c.end_eq, x.end_eq);
                counted = omega (arith, c.counted, x.counted);
              },
            )
          ]
    ]
