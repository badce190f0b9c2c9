-- ===== src/Cache/View.antt =====
-- The device as the cache shows it: what a block was last changed to, wherever it stands now.
use os_agent.Base.{
  ℕ, ◌≤◌, ◌<◌, ◌≡◌, not, ◌||◌, ◌∙◌, refl, ap, true, false, Bool-cases, inl, inr, ◌⊎◌, Option, none,
  some, List, [], ◌∷◌, ◌++◌, length, arith, ◌==◌, if◌then◌else◌,
}
use os_agent.Cache.Device.{Block, BlockDevice, IsLawful}
use os_agent.Cache.{BlockCache, Entry, id_of, sync, Manager, make_room}
use os_agent.Cache.Evict.{
  cells, cached, IsDistinct, IsClean, IsEvicted, in_use, evict_lem, IsClean-write,
}

abbrev pub or_block : Option Block → Block → Block
or_block none b = b
or_block (some c) b = c

pub cached-append :
    (q : List Entry) (e : Entry) (j : ℕ)
    → cached (cells (q ++ (e ∷ []))) j ≡ (
        if j == id_of e
        then some (or_block (cached (cells q) j) e.cell.cache)
        else cached (cells q) j)
unfolding cached
cached-append [] e j = ground arith
cached-append (x ∷ q) e j = elim (Bool-cases (id_of x == j)) [
  | inl here ↦ ground (arith, here)
  | inr other ↦ ground (arith, other, cached-append q e j)
]

pub IsDistinct-append :
    (q : List Entry) (e : Entry)
    → cached (cells q) (id_of e) ≡ none
    → IsDistinct (cells q)
    → IsDistinct (cells (q ++ (e ∷ [])))
unfolding cached
IsDistinct-append [] e h d = (refl, tt)
IsDistinct-append (x ∷ q) e h (fresh, d) =
    let differ : (id_of x == id_of e) ≡ false = ground (arith, h) in
    (
      ground (arith, cached-append q e (id_of x), fresh, differ),
      IsDistinct-append q e (rw differ at h) d,
    )

module _ (D : BlockDevice) where
  -- What the block `j` reads as, through the cache.
  unfoldable pub view : Manager D → ℕ → Block
  view m j = or_block (cached (cells m.queue) j) (D.read_block m.disk j)

  pub record IsValid (m : Manager D) : Type 0 where
    pub distinct : IsDistinct (cells m.queue)
    pub clean : IsClean D m.disk (cells m.queue)
    pub bound : length m.queue ≤ 16

  pub IsClean-append :
      (disk : D.State) (q : List Entry) (e : Entry)
      → IsClean D disk (cells q)
      → D.read_block disk (id_of e) ≡ e.cell.cache
      → IsClean D disk (cells (q ++ (e ∷ [])))
  IsClean-append disk [] e c h = ((λ x. h), tt)
  IsClean-append disk (x ∷ q) e (first, c) h = (first, IsClean-append disk q e c h)

  -- After an eviction the device has what the victim had.
  pub sync-disk :
      (disk : D.State) (c : BlockCache) (j : ℕ)
      → IsLawful D
      → (c.modified ≡ false → D.read_block disk c.block_id ≡ c.cache)
      → D.read_block (sync D disk c).0 j
        ≡ (if j == c.block_id then c.cache else D.read_block disk j)
  unfolding sync
  sync-disk disk c j law clean = elim (Bool-cases c.modified) [
    | inl dirty ↦ rw dirty (law.read-write disk c.block_id c.cache j)
    | inr same ↦ elim (Bool-cases (j == c.block_id)) [
      | inl here ↦
          let e : j ≡ c.block_id = ground (arith, here) in
          rw (same, here) (ap (D.read_block disk) e ∙ clean same)
      | inr other ↦ rw (same, other) refl
    ]
  ]

  pub IsClean-sync :
      (disk : D.State) (cs : List BlockCache) (c : BlockCache)
      → IsLawful D
      → cached cs c.block_id ≡ none
      → IsClean D disk cs
      → IsClean D (sync D disk c).0 cs
  unfolding sync
  IsClean-sync disk cs c law gone clean = elim (Bool-cases c.modified) [
    | inl dirty ↦ rw dirty (IsClean-write D disk cs c.block_id c.cache law gone clean)
    | inr same ↦ rw same clean
  ]

  abbrev evicted : Manager D → Entry → List Entry → Manager D
  evicted m victim rest = record { queue = rest; disk = (sync D m.disk victim.cell).0 }

  view-evicted :
      (m : Manager D) (victim : Entry) (rest : List Entry)
      → IsLawful D
      → IsEvicted D m.queue victim rest
      → (victim.cell.modified ≡ false → D.read_block m.disk (id_of victim) ≡ victim.cell.cache)
      → (j : ℕ) → view (evicted m victim rest) j ≡ view m j
  unfolding view
  view-evicted m victim rest law out clean j = elim (Bool-cases (j == id_of victim)) [
    | inl here ↦
        let e : j ≡ id_of victim = ground (arith, here) in
        let gone : cached (cells rest) j ≡ none = ap (cached (cells rest)) e ∙ out.gone in
        rw (gone, out.was j, sync-disk m.disk victim.cell j law clean, here) refl
    | inr other ↦ rw (out.was j, sync-disk m.disk victim.cell j law clean, other) refl
  ]

  pub make_room_lem :
      (m : Manager D)
      → IsLawful D
      → IsValid m
      → ((make_room D m ≡ none) × (length m.queue ≡ 16) × (in_use m.queue ≡ true))
        ⊎ ((m' : Manager D) × (make_room D m ≡ some m')
            × IsValid m'
            × (length m'.queue < 16)
            × ((not (length m.queue == 16) || not (in_use m.queue)) ≡ true)
            × ((j : ℕ) → view m' j ≡ view m j)
            × ((j : ℕ) → cached (cells m.queue) j ≡ none → cached (cells m'.queue) j ≡ none))
  unfolding make_room view
  make_room_lem m law is = elim (Bool-cases (length m.queue == 16)) [
    | inr room ↦
        inr
          (m, rw room refl, is, ground (arith, room, is.bound), rw room refl, (λ j. refl), λ j h. h)
    | inl full ↦ elim (evict_lem D m.queue is.distinct) [
      | inl (none_left, used) ↦
          inl (rw (full, make_room, none_left) refl, ground (arith, full), used)
      | inr (victim, rest, found, used, out) ↦
          let (first, others) = out.clean m.disk is.clean in
          inr (
            evicted m victim rest,
            rw (full, make_room, found) refl,
            record {
              distinct = out.distinct;
              clean = IsClean-sync m.disk (cells rest) victim.cell law out.gone others;
              bound = omega (arith, out.shorter, is.bound);
            },
            omega (arith, out.shorter, is.bound),
            rw (full, used) refl,
            view-evicted m victim rest law out first,
            λ j h. ground (arith, out.was j, h),
          )
    ]
  ]
