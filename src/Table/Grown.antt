-- ===== src/Table/Grown.antt =====
-- What `find_pte_create` does to the table: it adds the tables that are missing on the way.
use os_agent.Base.{
  ℕ, ◌+◌, ◌*◌, ◌/◌, ◌^◌, ◌<◌, ◌≤◌, ◌≡◌, ◌≢◌, refl, ap, Bool, true, false, Bool-cases, Option-cases,
  inl, inr, none, some, [], ◌∷◌, ◌++◌, ◌⊎◌, arith, ltb, ◌==◌, if◌then◌else◌,
}
use os_agent.Alloc.{pop, StackFrameAllocator, frame_alloc}
use os_agent.Alloc.Live.{is_held, IsValid, frame_alloc_lem}
use os_agent.Addr.{PhysPageNum, VirtPageNum, into_phys_page_num}
use os_agent.Table.{
  Ram, Building, is_valid, new_pte, flag_v, ensure, alloc_frame, set_word, clear_page,
}
use os_agent.Table.Tree.{IsRooted, entry_of}
use os_agent.Table.Level.{IsExtended, put, IsTree-extended, entry_of-extended}

abbrev pub holds : Ram → ℕ → Bool
holds ram p = is_held ram.allocator.current ram.allocator.recycled p

-- A frame that `alloc_frame` gives: nobody held it, it is clear, and the rest is as it was.
pub record IsFresh (ram : Ram) (f : PhysPageNum) (ram' : Ram) : Type 0 where
  pub was_free : is_held ram.allocator.current ram.allocator.recycled f ≡ false
  pub small : f < 2 ^ 44
  pub words_eq : (b : ℕ) → ram'.words b ≡ (if b / 512 == f then 0 else ram.words b)
  pub held_eq :
      (q : ℕ)
      → is_held ram'.allocator.current ram'.allocator.recycled q
        ≡ (if f == q then true else is_held ram.allocator.current ram.allocator.recycled q)
  pub valid : IsValid ram'.allocator.current ram'.allocator.recycled
  pub in_range : ram'.allocator.current ≤ ram'.allocator.end
  pub end_eq : ram'.allocator.end ≡ ram.allocator.end
  pub counted : ram'.allocator.current ≤ ram.allocator.current + 1

frame_alloc-within :
    (a : StackFrameAllocator) (f : ℕ) (a' : StackFrameAllocator)
    → a.current ≤ a.end
    → frame_alloc a ≡ some (f, a')
    → (a'.current ≤ a'.end) × (a'.current ≤ a.current + 1)
unfolding frame_alloc
frame_alloc-within a f a' c h = elim (Option-cases (pop a.recycled)) [
  | inr ((x, rest), e) ↦ ground (arith, c, h, e)
  | inl e ↦ ground (arith, c, h, e)
]

pub alloc_frame_lem :
    (ram : Ram)
    → IsValid ram.allocator.current ram.allocator.recycled
    → ram.allocator.current ≤ ram.allocator.end
    → ram.allocator.end ≤ 2 ^ 44
    → ((f : PhysPageNum) × (ram' : Ram) × (alloc_frame ram ≡ some (f, ram')) × IsFresh ram f ram')
      ⊎ ((alloc_frame ram ≡ none)
          × (ram.allocator.current ≡ ram.allocator.end)
          × (ram.allocator.recycled ≡ []))
unfolding alloc_frame
alloc_frame_lem ram v c e = elim (frame_alloc_lem ram.allocator v) [
  | inr (none_left, full, empty) ↦ inr (rw (none_left, alloc_frame) refl, full, empty)
  | inl (f, a', gives, end_eq, taken) ↦
      let held : is_held a'.current a'.recycled f ≡ true = ground (arith, taken.held_eq f) in
      let counted : f < a'.current = ground (arith, held) in
      let (within, by_one) = frame_alloc-within ram.allocator f a' c gives in
      let id : into_phys_page_num f ≡ f = omega (arith, counted, within, end_eq, e) in
      inl (
        f,
        record { words = clear_page ram.words f; allocator = a' },
        rw (gives, alloc_frame, id) refl,
        record {
          was_free = taken.was_free;
          small = omega (arith, counted, within, end_eq, e);
          words_eq = λ b. refl;
          held_eq = taken.held_eq;
          valid = taken.valid;
          in_range = within;
          end_eq = end_eq;
          counted = by_one;
        },
      )
]

-- The table after tables were added: its map is the same, and every table is still one.
pub record IsGrown (ram : Ram) (root : PhysPageNum) (place : ℕ → ℕ) (ram' : Ram) (place' : ℕ → ℕ)
    : Type 0 where
  pub rooted : IsRooted ram' root place'
  pub entry_eq : (vpn : VirtPageNum) → entry_of ram'.words root vpn ≡ entry_of ram.words root vpn
  pub place_eq : (q : ℕ) → 0 < place q → place' q ≡ place q
  pub kept :
      (q i : ℕ)
      → 0 < place q
      → i < 512
      → is_valid (ram.words (q * 512 + i)) ≡ true
      → ram'.words (q * 512 + i) ≡ ram.words (q * 512 + i)
  pub held_mono : (q : ℕ) → holds ram q ≡ true → holds ram' q ≡ true
  pub place_held : (q : ℕ) → holds ram q ≡ true → place' q ≡ place q
  pub others :
      (b : ℕ) → holds ram (b / 512) ≡ true → place (b / 512) ≡ 0 → ram'.words b ≡ ram.words b

IsExtended-fresh :
    (ram : Ram) (root : PhysPageNum) (place : ℕ → ℕ) (p idx f : ℕ) (ram1 : Ram)
    → IsRooted ram root place
    → 0 < place p
    → idx < 512
    → is_valid (ram.words (p * 512 + idx)) ≡ false
    → IsFresh ram f ram1
    → IsExtended ram.words
        (set_word ram1.words (p * 512 + idx) (new_pte f flag_v))
        place
        (p * 512 + idx)
        f
IsExtended-fresh ram root place p idx f ram1 r h i bad x =
    let fresh : place f ≡ 0 = elim (Bool-cases (ltb 0 (place f))) [
      | inl some_place ↦ ground (arith, r.held f (ground (arith, some_place)), x.was_free)
      | inr none_place ↦ ground (arith, none_place)
    ] in
    let apart : p ≢ f = λ e. omega (arith, h, fresh, ap place e) in
    record {
      not_valid = bad;
      fresh = fresh;
      small = x.small;
      read = λ q j a b.
          let apart' : q ≢ f = λ e. omega (arith, a, fresh, ap place e) in
          ground (arith, x.words_eq (q * 512 + j), apart', b);
      cleared = λ j b. ground (arith, x.words_eq (f * 512 + j), apart, b, i);
    }

page-slot : (p idx c : ℕ) → idx < 512 → c ≡ p * 512 + idx → c / 512 ≡ p
page-slot p idx c i e = omega (arith, i, e)

pub ensure-IsGrown :
    (b : Building) (root : PhysPageNum) (place : ℕ → ℕ) (p idx : ℕ)
    → IsRooted b.ram root place
    → 0 < place p
    → place p < 2 ^ 18
    → idx < 512
    → ((b' : Building) × (place' : ℕ → ℕ) × (ensure b (p * 512 + idx) ≡ some b')
        × IsGrown b.ram root place b'.ram place'
        × (is_valid (b'.ram.words (p * 512 + idx)) ≡ true)
        × (b'.ram.allocator.end ≡ b.ram.allocator.end)
        × (b'.ram.allocator.current ≤ b.ram.allocator.current + 1))
      ⊎ ((ensure b (p * 512 + idx) ≡ none) × (b.ram.allocator.current ≡ b.ram.allocator.end))
unfolding ensure
ensure-IsGrown b root place p idx r h small i =
    let slot = p * 512 + idx in
    elim (Bool-cases (is_valid (b.ram.words slot))) [
      | inl good ↦ inl (
        b,
        place,
        rw (good, ensure) refl,
        record {
          rooted = r;
          entry_eq = λ vpn. refl;
          place_eq = λ q e. refl;
          kept = λ q j a c d. refl;
          held_mono = λ q a. a;
          place_held = λ q a. refl;
          others = λ c a e. refl;
        },
        good,
        refl,
        omega arith,
      )
      | inr bad ↦ elim (alloc_frame_lem b.ram r.frames_valid r.in_range r.frames_small) [
        | inr (e, full, _) ↦ inr (rw (bad, e, ensure) refl, full)
        | inl (f, ram1, e, x) ↦
            let ext = IsExtended-fresh b.ram root place p idx f ram1 r h i bad x in
            inl (
              record {
                ram = record ram1 { words = set_word ram1.words slot (new_pte f flag_v) };
                tables = b.tables ++ (f ∷ []);
              },
              put place f (place p * 512 + idx),
              rw (bad, e, ensure) refl,
              record {
                rooted = record {
                  tree =
                      IsTree-extended b.ram.words (set_word ram1.words slot (new_pte f flag_v)) root
                        place p idx f r.tree h i ext;
                  held = λ q a. elim (Bool-cases (q == f)) [
                    | inl same ↦ ground (arith, x.held_eq q, same)
                    | inr other ↦
                        ground (arith, x.held_eq q, other, a, r.held q (ground (arith, a, other)))
                  ];
                  frames_valid = x.valid;
                  in_range = x.in_range;
                  frames_small = omega (arith, x.end_eq, r.frames_small);
                };
                entry_eq =
                    entry_of-extended b.ram.words (set_word ram1.words slot (new_pte f flag_v)) root
                      place p idx f r.tree h small i ext;
                place_eq = λ q a. ground (arith, ext.fresh, a);
                kept = λ q j a c d. ground (arith, ext.read q j a c, bad, d);
                held_mono = λ q a. ground (arith, x.held_eq q, a);
                place_held = λ q a. ground (arith, x.was_free, a);
                others = λ c a e.
                    let apart : c ≢ slot =
                      λ eq. omega (arith, h, e, ap place (page-slot p idx c i eq)) in
                    ground (arith, x.words_eq c, x.was_free, a, apart);
              },
              ground (arith, x.small),
              x.end_eq,
              x.counted,
            )
      ]
    ]
