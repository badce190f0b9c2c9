-- ===== src/Space/Range.antt =====
-- Mapping a framed area maps the pages of its range and no others.
use os_agent.Base.{
  ℕ, zero, suc, ◌+◌, ◌*◌, ◌/◌, ◌-◌, ◌^◌, ◌<◌, ◌≤◌, ◌≡◌, ◌≢◌, refl, sym, ◌∙◌, Bool, true, false,
  Bool-cases, inl, inr, none, some, ◌⊎◌, arith, ltb, leb, ◌==◌, ◌&&◌,
}
use os_agent.BTree.{get}
use os_agent.Addr.{PhysPageNum, VirtPageNum, next, step, pages_from}
use os_agent.Table.{new_pte, with_flag, flag_v}
use os_agent.Table.Tree.{IsRooted, entry_of}
use os_agent.Table.Grown.{holds}
use os_agent.Space.{page_ord, framed, Mapping, map_all}
use os_agent.Space.Framed.{IsPaged, map_one-IsPaged}

abbrev pub in_range : ℕ → ℕ → VirtPageNum → Bool
in_range l r q = leb l q && ltb q r

-- A page with an entry of this permission, whose frame nobody held before and is held now.
pub record IsOwned (m m' : Mapping) (q : VirtPageNum) : Type 0 where
  pub frame : PhysPageNum
  pub entry_eq :
      entry_of m'.ram.words m.table.root_ppn q
      ≡ some (new_pte frame (with_flag m.area.map_perm flag_v))
  pub small : frame < 2 ^ 44
  pub was_free : holds m.ram frame ≡ false
  pub taken : holds m'.ram frame ≡ true

-- The pages from `l` to before `r` were mapped.
pub record IsSpread (m : Mapping) (place : ℕ → ℕ) (l r : ℕ) (m' : Mapping) : Type 0 where
  pub place' : ℕ → ℕ
  pub root_eq : m'.table.root_ppn ≡ m.table.root_ppn
  pub rooted : IsRooted m'.ram m.table.root_ppn place'
  pub owned : (q : VirtPageNum) → in_range l r q ≡ true → IsOwned m m' q
  pub apart :
      (p q : VirtPageNum)
      → in_range l r p ≡ true
      → in_range l r q ≡ true
      → p ≢ q
      → entry_of m'.ram.words m.table.root_ppn p ≢ entry_of m'.ram.words m.table.root_ppn q
  pub outside :
      (q : VirtPageNum)
      → q < 2 ^ 27
      → in_range l r q ≡ false
      → entry_of m'.ram.words m.table.root_ppn q ≡ entry_of m.ram.words m.table.root_ppn q
  pub held_mono : (q : ℕ) → holds m.ram q ≡ true → holds m'.ram q ≡ true
  pub place_held : (q : ℕ) → holds m.ram q ≡ true → place' q ≡ place q
  pub others :
      (b : ℕ) → holds m.ram (b / 512) ≡ true → place (b / 512) ≡ 0 → m'.ram.words b ≡ m.ram.words b

-- Why the pages could not be mapped: one of them is mapped, or the frames may run out.
abbrev pub IsHindered : Mapping → ℕ → ℕ → Type 0
IsHindered m l r =
    ((q : VirtPageNum) × (in_range l r q ≡ true) × (entry_of m.ram.words m.table.root_ppn q ≢ none))
    ⊎ (m.ram.allocator.end < m.ram.allocator.current + 3 * (r - l))

still_free :
    (m m' : Mapping) (f : ℕ)
    → ((q : ℕ) → holds m.ram q ≡ true → holds m'.ram q ≡ true)
    → holds m'.ram f ≡ false
    → holds m.ram f ≡ false
still_free m m' f mono h = elim (Bool-cases (holds m.ram f)) [
  | inl held ↦ ground (arith, mono f held, h)
  | inr free ↦ free
]

new_pte-apart : (f g w : ℕ) → f < 2 ^ 44 → g < 2 ^ 44 → f ≢ g → new_pte f w ≢ new_pte g w
new_pte-apart f g w a b apart e = apart (omega (arith, a, b, e))

-- The first page and the rest of the range.
module _ (m : Mapping) (place : ℕ → ℕ) (l r : ℕ) (f : PhysPageNum) (m1 : Mapping) (m' : Mapping)
    (r_small : r ≤ 2 ^ 27) (more : l < r) (one : IsPaged m place l f m1)
    (rest : IsSpread m1 one.place' (l + 1) r m') where
  here :
      entry_of m'.ram.words m.table.root_ppn l ≡ some (new_pte f (with_flag m.area.map_perm flag_v))
  here =
      let after = rest.outside l (omega (arith, r_small, more)) (ground arith) in
      let paged = one.entry_eq l (omega (arith, r_small, more)) in
      ground (arith, after, paged, one.root_eq)

  IsOwned-all : (q : VirtPageNum) → in_range l r q ≡ true → IsOwned m m' q
  IsOwned-all q a = elim (Bool-cases (q == l)) [
    | inl first ↦
        let same : q ≡ l = ground (arith, first) in
        rw same (record {
          frame = f;
          entry_eq = here;
          small = one.small;
          was_free = one.was_free;
          taken = rest.held_mono f one.taken;
        })
    | inr later ↦
        let o = rest.owned q (ground (arith, a, later)) in
        record {
          frame = o.frame;
          entry_eq = rw (one.root_eq, one.perm_eq) at o.entry_eq;
          small = o.small;
          was_free = still_free m m1 o.frame one.held_mono o.was_free;
          taken = o.taken;
        }
  ]

  here_apart :
      (q : VirtPageNum)
      → in_range (l + 1) r q ≡ true
      → entry_of m'.ram.words m.table.root_ppn l ≢ entry_of m'.ram.words m.table.root_ppn q
  here_apart q a e =
      let o = rest.owned q a in
      let other : f ≢ o.frame = λ same. ground (arith, one.taken, o.was_free, same) in
      let at : entry_of m'.ram.words m.table.root_ppn q
          ≡ some (new_pte o.frame (with_flag m.area.map_perm flag_v)) =
        rw (one.root_eq, one.perm_eq) at o.entry_eq in
      let equal : some (new_pte f (with_flag m.area.map_perm flag_v))
          ≡ some (new_pte o.frame (with_flag m.area.map_perm flag_v)) =
        sym here ∙ e ∙ at in
      new_pte-apart f o.frame (with_flag m.area.map_perm flag_v) one.small o.small other
        (ground (arith, equal))

  apart_all :
      (p q : VirtPageNum)
      → in_range l r p ≡ true
      → in_range l r q ≡ true
      → p ≢ q
      → entry_of m'.ram.words m.table.root_ppn p ≢ entry_of m'.ram.words m.table.root_ppn q
  apart_all p q a b c = elim (Bool-cases (p == l)) [
    | inl first ↦
        let same : p ≡ l = ground (arith, first) in
        rw same (here_apart q (ground (arith, b, c, same)))
    | inr later ↦ elim (Bool-cases (q == l)) [
      | inl first ↦
          let same : q ≡ l = ground (arith, first) in
          rw same (λ e. here_apart p (ground (arith, a, later)) (sym e))
      | inr later' ↦
          rw one.root_eq at rest.apart p q (ground (arith, a, later)) (ground (arith, b, later')) c
    ]
  ]

  IsSpread-cons : IsSpread m place l r m'
  IsSpread-cons = record {
    place' = rest.place';
    root_eq = rest.root_eq ∙ one.root_eq;
    rooted = rw one.root_eq at rest.rooted;
    owned = IsOwned-all;
    apart = apart_all;
    outside = λ q a b.
        let apart : (q == l) ≡ false = ground (arith, b, more) in
        let paged = one.entry_eq q a in
        let after = rest.outside q a (ground (arith, b, more)) in
        ground (arith, apart, paged, after, one.root_eq);
    held_mono = λ q a. rest.held_mono q (one.held_mono q a);
    place_held = λ q a. rest.place_held q (one.held_mono q a) ∙ one.place_held q a;
    others = λ b a z.
        rest.others b (one.held_mono (b / 512) a) (one.place_held (b / 512) a ∙ z)
        ∙ one.others b a z;
  }

IsSpread-nil :
    (m : Mapping) (place : ℕ → ℕ) (l : ℕ)
    → IsRooted m.ram m.table.root_ppn place
    → IsSpread m place l l m
IsSpread-nil m place l r = record {
  place' = place;
  root_eq = refl;
  rooted = r;
  owned = λ q a. ground (arith, a);
  apart = λ p q a. ground (arith, a);
  outside = λ q a b. refl;
  held_mono = λ q a. a;
  place_held = λ q a. refl;
  others = λ b a z. refl;
}

pub map_all-IsSpread :
    (n : ℕ) (m : Mapping) (place : ℕ → ℕ) (l r : ℕ)
    → l + n ≡ r
    → r ≤ 2 ^ 27
    → m.area.map_type ≡ framed
    → m.area.map_perm < 2 ^ 8
    → ((q : VirtPageNum) → l ≤ q → get q m.area.data_frames ≡ none)
    → IsRooted m.ram m.table.root_ppn place
    → ((m' : Mapping) × (map_all m (pages_from n (record { l = l; r = r })) ≡ some m')
        × IsSpread m place l r m')
      ⊎ ((map_all m (pages_from n (record { l = l; r = r })) ≡ none) × IsHindered m l r)
unfolding map_all pages_from next
map_all-IsSpread zero m place l r eq small kind perm new rooted =
    let same : l ≡ r = omega (arith, eq) in
    inl (m, refl, rw (sym same) (IsSpread-nil m place l rooted))
map_all-IsSpread (suc n) m place l r eq small kind perm new rooted =
    let more : (l == r) ≡ false = ground (arith, eq) in
    let next_page : step l ≡ l + 1 = omega (arith, eq, small) in
    elim (map_one-IsPaged m place l kind perm (new l (omega arith)) rooted
      (omega (arith, eq, small))) [
        | inr (fails, inl mapped) ↦
            inr (rw (more, map_all, fails) refl, inl (l, ground (arith, eq), mapped))
        | inr (fails, inr few) ↦ inr (rw (more, map_all, fails) refl, inr (omega (arith, few, eq)))
        | inl (f, m1, maps, one) ↦
            let later : (q : VirtPageNum) → l + 1 ≤ q → get q m1.area.data_frames ≡ none =
              λ q a. ground (arith, one.frames_eq q, new q (omega (arith, a)), a) in
            elim (map_all-IsSpread n m1 one.place' (l + 1) r (omega (arith, eq)) small
              (one.type_eq ∙ kind) (omega (arith, one.perm_eq, perm)) later
              (rw (sym one.root_eq) at one.rooted)) [
                | inl (m', goes, rest) ↦ inl (
                  m',
                  rw (more, map_all, maps, next_page, goes) refl,
                  IsSpread-cons m place l r f m1 m' small (omega (arith, eq)) one rest,
                )
                | inr (fails, inl (q, a, mapped)) ↦ inr (
                  rw (more, map_all, maps, next_page, fails) refl,
                  inl (
                    q,
                    ground (arith, a),
                    λ free.
                        let paged = one.entry_eq q (ground (arith, a, small)) in
                        mapped (ground (arith, paged, free, a, one.root_eq)),
                  ),
                )
                | inr (fails, inr few) ↦ inr (
                  rw (more, map_all, maps, next_page, fails) refl,
                  inr (omega (arith, few, eq, one.end_eq, one.counted)),
                )
              ]
      ]
