-- ===== src/Cache/Evict.antt =====
-- What the queue holds after a handle is taken, after an eviction and after a change.
use os_agent.Base.{
  ℕ, ◌+◌, ◌≡◌, ◌∙◌, refl, ap, Bool, true, false, Bool-cases, inl, inr, ◌⊎◌, Option, none, some,
  List, [], ◌∷◌, length, arith, ◌==◌, if◌then◌else◌, not, ◌&&◌,
}
use os_agent.Cache.Device.{Block, BlockDevice, IsLawful}
use os_agent.Cache.{BlockCache, Entry, id_of, share, evict, release, change}

abbrev pub cells : List Entry → List BlockCache
cells [] = []
cells (e ∷ es) = e.cell ∷ cells es

-- The block that the queue holds for a number.
unfoldable pub cached : List BlockCache → ℕ → Option Block
cached [] j = none
cached (c ∷ cs) j = let rest = cached cs j in if c.block_id == j then some c.cache else rest

-- No two elements have the same number.
abbrev pub IsDistinct : List BlockCache → Type 0
IsDistinct [] = Unit {0}
IsDistinct (c ∷ cs) = (cached cs c.block_id ≡ none) × IsDistinct cs

-- What is not modified is what the device has.
module _ (D : BlockDevice) where
  abbrev pub IsClean : D.State → List BlockCache → Type 0
  IsClean disk [] = Unit {0}
  IsClean disk (c ∷ cs) =
      (c.modified ≡ false → D.read_block disk c.block_id ≡ c.cache) × IsClean disk cs

pub share_lem :
    (q : List Entry) (id : ℕ)
    → ((share q id ≡ none) × (cached (cells q) id ≡ none))
      ⊎ ((q' : List Entry) × (b : Block) × (share q id ≡ some q')
          × (cells q' ≡ cells q)
          × (cached (cells q) id ≡ some b))
unfolding share cached
share_lem [] id = inl (refl, refl)
share_lem (e ∷ es) id = elim (Bool-cases (id_of e == id)) [
  | inl here ↦ inr (
    record e { strong_count = e.strong_count + 1 } ∷ es,
    e.cell.cache,
    rw here refl,
    refl,
    rw here refl,
  )
  | inr other ↦ elim (share_lem es id) [
    | inl (a, b) ↦ inl (rw (other, share, a) refl, rw (other, b) refl)
    | inr (q', b, a, same, c) ↦
        inr (e ∷ q', b, rw (other, share, a) refl, ap (λ cs. e.cell ∷ cs) same, rw (other, c) refl)
  ]
]

pub cells-release : (q : List Entry) (id : ℕ) → cells (release q id) ≡ cells q
unfolding release
cells-release [] id = refl
cells-release (e ∷ es) id = elim (Bool-cases (id_of e == id)) [
  | inl here ↦ rw here refl
  | inr other ↦ rw other (ap (λ cs. e.cell ∷ cs) (cells-release es id))
]

-- A change touches the block of its number only.
pub cached-change :
    (q : List Entry) (id : ℕ) (f : Block → Block) (b : Block) (j : ℕ)
    → cached (cells q) id ≡ some b
    → cached (cells (change q id f)) j ≡ (if j == id then some (f b) else cached (cells q) j)
unfolding cached change
cached-change [] id f b j h = ground (arith, h)
cached-change (e ∷ es) id f b j h = elim (Bool-cases (id_of e == id)) [
  | inl here ↦
      let same : ◌≡◌ {A = Option Block} (some e.cell.cache) (some b) = rw here at h in
      let changed : f e.cell.cache ≡ f b = cc same in rw here ground (arith, here, changed)
  | inr other ↦
      let rest : cached (cells es) id ≡ some b = rw other at h in
      rw other ground (arith, other, cached-change es id f b j rest)
]

cached-change-none :
    (q : List Entry) (id : ℕ) (f : Block → Block) (j : ℕ)
    → cached (cells q) j ≡ none
    → cached (cells (change q id f)) j ≡ none
unfolding cached change
cached-change-none [] id f j h = refl
cached-change-none (e ∷ es) id f j h = ground (arith, h, cached-change-none es id f j)

pub IsDistinct-change :
    (q : List Entry) (id : ℕ) (f : Block → Block)
    → IsDistinct (cells q)
    → IsDistinct (cells (change q id f))
unfolding change
IsDistinct-change [] id f h = tt
IsDistinct-change (e ∷ es) id f (fresh, h) = elim (Bool-cases (id_of e == id)) [
  | inl here ↦ rw here (fresh, h)
  | inr other ↦ rw other (cached-change-none es id f (id_of e) fresh, IsDistinct-change es id f h)
]

-- An eviction takes one block out, of which the queue keeps no second copy.
pub record IsEvicted (D : BlockDevice) (q : List Entry) (victim : Entry) (rest : List Entry)
    : Type 0 where
  pub was :
      (j : ℕ)
      → cached (cells q) j
        ≡ (if j == id_of victim then some victim.cell.cache else cached (cells rest) j)
  pub gone : cached (cells rest) (id_of victim) ≡ none
  pub distinct : IsDistinct (cells rest)
  pub shorter : length rest + 1 ≡ length q
  pub clean :
      (disk : D.State)
      → IsClean D disk (cells q)
      → (victim.cell.modified ≡ false → D.read_block disk (id_of victim) ≡ victim.cell.cache)
        × IsClean D disk (cells rest)

-- Every block of the queue has an owner beside the queue.
abbrev pub in_use : List Entry → Bool
in_use [] = true
in_use (e ∷ es) = not (e.strong_count == 1) && in_use es

pub evict_lem :
    (D : BlockDevice) (q : List Entry)
    → IsDistinct (cells q)
    → ((evict q ≡ none) × (in_use q ≡ true))
      ⊎ ((victim : Entry) × (rest : List Entry) × (evict q ≡ some (victim, rest))
          × (in_use q ≡ false)
          × IsEvicted D q victim rest)
unfolding evict cached
evict_lem D [] h = inl (refl, refl)
evict_lem D (e ∷ es) (fresh, h) = elim (Bool-cases (e.strong_count == 1)) [
  | inl here ↦ inr (
    e,
    es,
    rw here refl,
    rw here refl,
    record {
      was = λ j. ground arith;
      gone = fresh;
      distinct = h;
      shorter = omega arith;
      clean = λ disk c. c;
    },
  )
  | inr other ↦ elim (evict_lem D es h) [
    | inl (none_left, used) ↦ inl (rw (other, evict, none_left) refl, rw other used)
    | inr (victim, rest, found, used, is) ↦
        let apart = is.was (id_of e) in
        let differ : (id_of e == id_of victim) ≡ false = ground (arith, apart, fresh) in
        inr (
          victim,
          e ∷ rest,
          rw (other, evict, found) refl,
          rw other used,
          record {
            was = λ j. ground (arith, is.was j, differ);
            gone = ground (arith, is.gone, differ);
            distinct = (ground (arith, apart, fresh, differ), is.distinct);
            shorter = omega (arith, is.shorter);
            clean = λ disk c. let (first, others) = is.clean disk c.1 in (first, (c.0, others));
          },
        )
  ]
]

module _ (D : BlockDevice) where
  pub IsClean-change :
      (disk : D.State) (q : List Entry) (id : ℕ) (f : Block → Block)
      → IsClean D disk (cells q)
      → IsClean D disk (cells (change q id f))
  unfolding change
  IsClean-change disk [] id f h = tt
  IsClean-change disk (e ∷ es) id f (clean, h) = elim (Bool-cases (id_of e == id)) [
    | inl here ↦ rw here ((λ e. cc e), h)
    | inr other ↦ rw other (clean, IsClean-change disk es id f h)
  ]

  pub IsClean-write :
      (disk : D.State) (cs : List BlockCache) (id : ℕ) (b : Block)
      → IsLawful D
      → cached cs id ≡ none
      → IsClean D disk cs
      → IsClean D (D.write_block disk id b) cs
  unfolding cached
  IsClean-write disk [] id b law fresh h = tt
  IsClean-write disk (c ∷ cs) id b law fresh (clean, h) = elim (Bool-cases (c.block_id == id)) [
    | inl here ↦
        let taken : ◌≡◌ {A = Option Block} (some c.cache) none = rw here at fresh in
        ground (arith, taken)
    | inr other ↦
        let rest : cached cs id ≡ none = rw other at fresh in
        (
          (λ e. law.read-write disk id b c.block_id ∙ rw other (clean e)),
          IsClean-write disk cs id b law rest h,
        )
  ]
