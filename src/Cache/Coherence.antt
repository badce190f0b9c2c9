-- ===== src/Cache/Coherence.antt =====
-- Taking a block, changing it and writing all back, by the device that the cache shows.
use os_agent.Base.{
  ℕ, suc, ◌+◌, ◌≤◌, ◌≡◌, ◌∙◌, sym, refl, ap, Bool, not, ◌||◌, ◌≢◌, true, false, Bool-cases, inl,
  inr, ◌⊎◌, Option, none, some, List, [], ◌∷◌, length, length-append, arith, leb, ◌==◌,
  if◌then◌else◌,
}
use os_agent.Cache.Device.{Block, BlockDevice, IsLawful}
use os_agent.Cache.{
  BlockCache, Entry, id_of, load, sync, Manager, push_back, get_block_cache, release, change,
  modify, sync_queue, block_cache_sync_all,
}
use os_agent.Cache.Evict.{
  cells, cached, IsDistinct, IsClean, share_lem, cells-release, cached-change, IsDistinct-change,
  in_use, IsClean-change,
}
use os_agent.Cache.Pinned.{pinned, changed-pinned, get_block_cache-pinned}
use os_agent.Cache.View.{
  or_block, view, IsValid, cached-append, IsDistinct-append, IsClean-append, sync-disk,
  IsClean-sync, make_room_lem,
}

length-cells : (q q' : List Entry) → cells q ≡ cells q' → length (cells q) ≡ length (cells q')
length-cells q q' e = ap length e

length-of-cells : (q : List Entry) → length (cells q) ≡ length q
length-of-cells [] = refl
length-of-cells (e ∷ es) = ap suc (length-of-cells es)

abbrev pub is_cached : Option Block → Bool
is_cached none = false
is_cached (some b) = true

module _ (D : BlockDevice) (law : IsLawful D) where
  abbrev fresh : Manager D → ℕ → Entry
  fresh m id = record { cell = load D m.disk id; strong_count = 2 }

  there :
      (m : Manager D) (id : ℕ)
      → cached (cells m.queue) id ≡ none
      → cached (cells (push_back D m id).queue) id ≡ some (view D m id)
  unfolding view
  there m id h =
      let same : (id == id) ≡ true = ground arith in
      rw (cached-append m.queue (fresh m id) id, same, h) refl

  pushed :
      (m : Manager D) (id j : ℕ)
      → cached (cells m.queue) id ≡ none
      → view D (push_back D m id) j ≡ view D m j
  unfolding view
  pushed m id j h = elim (Bool-cases (j == id)) [
    | inl here ↦
        let e : j ≡ id = ground (arith, here) in
        let gone : cached (cells m.queue) j ≡ none = ap (cached (cells m.queue)) e ∙ h in
        rw (cached-append m.queue (fresh m id) j, here, gone) (ap (D.read_block m.disk) (sym e))
    | inr other ↦ rw (cached-append m.queue (fresh m id) j, other) refl
  ]

  -- There is room for the block: it is in the queue, or the queue is not full, or a block has no owner
  -- beside the queue.
  abbrev pub HasRoom : Manager D → ℕ → Type 0
  HasRoom m id =
      (is_cached (cached (cells m.queue) id)
        || (not (length m.queue == 16) || not (in_use m.queue)))
      ≡ true

  -- `get_block_cache` panics exactly if the block is not there and the queue is full of blocks in use;
  -- else the block is in the queue afterwards, and every block reads as before.
  pub get_block_cache-IsLoaded :
      (m : Manager D) (id : ℕ)
      → IsValid D m
      → ((get_block_cache D m id ≡ none)
          × (cached (cells m.queue) id ≡ none)
          × (length m.queue ≡ 16)
          × (in_use m.queue ≡ true))
        ⊎ ((m' : Manager D) × (get_block_cache D m id ≡ some m')
            × IsValid D m'
            × HasRoom m id
            × (cached (cells m'.queue) id ≡ some (view D m id))
            × ((j : ℕ) → view D m' j ≡ view D m j))
  unfolding get_block_cache view
  get_block_cache-IsLoaded m id is = elim (share_lem m.queue id) [
    | inr (q', b, shared, same, here) ↦ inr (
      record m { queue = q' },
      rw (shared, get_block_cache) refl,
      record {
        distinct = rw same is.distinct;
        clean = rw same is.clean;
        bound = omega (
          arith,
          is.bound,
          length-of-cells q',
          length-of-cells m.queue,
          length-cells q' m.queue same,
        );
      },
      rw here refl,
      rw (same, here) refl,
      λ j. rw same refl,
    )
    | inl (absent, gone) ↦ elim (make_room_lem D m law is) [
      | inl (no_room, full, used) ↦
          inl (rw (absent, get_block_cache, no_room) refl, gone, full, used)
      | inr (m', room, is', less, roomy, same, still) ↦
          let absent' = still id gone in
          let view_there : cached (cells (push_back D m' id).queue) id ≡ some (view D m' id) =
            there m' id absent' in
          inr (
            push_back D m' id,
            rw (absent, get_block_cache, room) refl,
            record {
              distinct = IsDistinct-append m'.queue (fresh m' id) absent' is'.distinct;
              clean = IsClean-append D m'.disk m'.queue (fresh m' id) is'.clean refl;
              bound = omega (arith, less, length-append m'.queue (fresh m' id ∷ []));
            },
            rw (gone, roomy) refl,
            view_there ∙ ap some (same id),
            λ j. pushed m' id j absent' ∙ same j,
          )
    ]
  ]

  sync-block_id : (disk : D.State) (c : BlockCache) → (sync D disk c).1.block_id ≡ c.block_id
  unfolding sync
  sync-block_id disk c = elim (Bool-cases c.modified) [
    | inl dirty ↦ rw dirty refl
    | inr same ↦ rw same refl
  ]

  sync-cache : (disk : D.State) (c : BlockCache) → (sync D disk c).1.cache ≡ c.cache
  unfolding sync
  sync-cache disk c = elim (Bool-cases c.modified) [
    | inl dirty ↦ rw dirty refl
    | inr same ↦ rw same refl
  ]

  cached-cons :
      (c c' : BlockCache) (cs cs' : List BlockCache) (j : ℕ)
      → c'.block_id ≡ c.block_id
      → c'.cache ≡ c.cache
      → cached cs' j ≡ cached cs j
      → cached (c' ∷ cs') j ≡ cached (c ∷ cs) j
  unfolding cached
  cached-cons c c' cs cs' j a b e = rw (a, b, e) refl

  cons-read :
      (c : BlockCache) (cs : List BlockCache) (disk1 disk : D.State) (j : ℕ)
      → D.read_block disk1 j ≡ (if j == c.block_id then c.cache else D.read_block disk j)
      → cached cs c.block_id ≡ none
      → or_block (cached cs j) (D.read_block disk1 j)
        ≡ or_block (cached (c ∷ cs) j) (D.read_block disk j)
  unfolding cached
  cons-read c cs disk1 disk j e gone = elim (Bool-cases (j == c.block_id)) [
    | inl here ↦
        let same : j ≡ c.block_id = ground (arith, here) in
        let gone' : cached cs j ≡ none = ap (cached cs) same ∙ gone in
        let found : (c.block_id == j) ≡ true = ground (arith, here) in
        rw (gone', e, here, found) refl
    | inr other ↦
        let not_found : (c.block_id == j) ≡ false = ground (arith, other) in
        rw (e, other, not_found) refl
  ]

  own :
      (c : BlockCache) (cs : List BlockCache) (disk : D.State)
      → or_block (cached (c ∷ cs) c.block_id) (D.read_block disk c.block_id) ≡ c.cache
  unfolding cached
  own c cs disk = let same : (c.block_id == c.block_id) ≡ true = ground arith in rw same refl

  -- The queue after the loop holds the same blocks, none of which the device lacks.
  pub record IsSynced (disk : D.State) (q : List Entry) (disk' : D.State) (q' : List Entry)
      : Type 0 where
    pub written :
        (j : ℕ) → D.read_block disk' j ≡ or_block (cached (cells q) j) (D.read_block disk j)
    pub held : (j : ℕ) → cached (cells q') j ≡ cached (cells q) j
    pub distinct : IsDistinct (cells q')
    pub clean : IsClean D disk' (cells q')
    pub as_long : length q' ≡ length q

  sync_queue_lem :
      (disk : D.State) (q : List Entry)
      → IsDistinct (cells q)
      → IsClean D disk (cells q)
      → IsSynced disk q (sync_queue D disk q).0 (sync_queue D disk q).1
  unfolding sync_queue cached
  sync_queue_lem disk [] d c = record {
    written = λ j. refl;
    held = λ j. refl;
    distinct = tt;
    clean = tt;
    as_long = refl;
  }
  sync_queue_lem disk (e ∷ es) (gone, d) (first, c) =
      let disk1 = (sync D disk e.cell).0 in
      let c1 = (sync D disk e.cell).1 in
      let rest = sync_queue_lem disk1 es d (IsClean-sync D disk (cells es) e.cell law gone c) in
      let es' = (sync_queue D disk1 es).1 in
      let disk' = (sync_queue D disk1 es).0 in
      let id = sync-block_id disk e.cell in
      let written = λ (j : ℕ).
        rest.written j
        ∙ cons-read e.cell (cells es) disk1 disk j (sync-disk D disk e.cell j law first) gone in
      record {
        written = written;
        held = λ j.
            cached-cons e.cell c1 (cells es) (cells es') j id (sync-cache disk e.cell)
              (rest.held j);
        distinct = (ap (cached (cells es')) id ∙ rest.held (id_of e) ∙ gone, rest.distinct);
        clean = (
          (λ x.
              ap (D.read_block disk') id
              ∙ written (id_of e)
              ∙ own e.cell (cells es) disk
              ∙ sym (sync-cache disk e.cell)),
          rest.clean,
        );
        as_long = ap suc rest.as_long;
      }

  -- After `block_cache_sync_all` the device itself has every block as it reads, and all read as before.
  pub block_cache_sync_all-IsDurable :
      (m : Manager D)
      → IsValid D m
      → IsValid D (block_cache_sync_all D m)
        × ((j : ℕ) → D.read_block (block_cache_sync_all D m).disk j ≡ view D m j)
        × ((j : ℕ) → view D (block_cache_sync_all D m) j ≡ view D m j)
  unfolding block_cache_sync_all view
  block_cache_sync_all-IsDurable m is =
      let done = sync_queue_lem m.disk m.queue is.distinct is.clean in
      (
        record {
          distinct = done.distinct;
          clean = done.clean;
          bound = omega (arith, done.as_long, is.bound);
        },
        done.written,
        λ j.
            rw (done.held j, done.written j)
              (twice (cached (cells m.queue) j) (D.read_block m.disk j)),
      )
    where
      twice : (o : Option Block) (b : Block) → or_block o (or_block o b) ≡ or_block o b
      twice none b = refl
      twice (some c) b = refl

  length-change : (q : List Entry) (id : ℕ) (f : Block → Block) → length (change q id f) ≡ length q
  unfolding change
  length-change [] id f = refl
  length-change (e ∷ es) id f = ground (arith, length-change es id f)

  length-release : (q : List Entry) (id : ℕ) → length (release q id) ≡ length q
  length-release q id =
      sym (length-of-cells (release q id))
      ∙ length-cells (release q id) q (cells-release q id)
      ∙ length-of-cells q

  abbrev changed : Manager D → ℕ → (Block → Block) → Manager D
  changed m id f = record m { queue = release (change m.queue id f) id }

  changed-IsValid :
      (m : Manager D) (id : ℕ) (f : Block → Block) → IsValid D m → IsValid D (changed m id f)
  changed-IsValid m id f is =
      let same = cells-release (change m.queue id f) id in
      record {
        distinct = rw same (IsDistinct-change m.queue id f is.distinct);
        clean = rw same (IsClean-change D m.disk m.queue id f is.clean);
        bound =
            omega (
              arith,
              is.bound,
              length-release (change m.queue id f) id,
              length-change m.queue id f,
            );
      }

  view-changed :
      (m : Manager D) (id : ℕ) (f : Block → Block) (b : Block) (j : ℕ)
      → cached (cells m.queue) id ≡ some b
      → view D (changed m id f) j ≡ (if j == id then f b else view D m j)
  unfolding view
  view-changed m id f b j h =
      let same = cells-release (change m.queue id f) id in
      elim (Bool-cases (j == id)) [
        | inl here ↦ rw (same, cached-change m.queue id f b j h, here) refl
        | inr other ↦ rw (same, cached-change m.queue id f b j h, other) refl
      ]

  -- A change of a value within the block changes that block as it reads and no other. It panics exactly if
  -- the block is not in the queue, and the queue is full of blocks that have another owner; every other
  -- block that has another owner keeps its place in the queue.
  pub modify-IsUpdated :
      (m : Manager D) (id offset size : ℕ) (f : Block → Block)
      → IsValid D m
      → offset + size ≤ 512
      → ((modify D m id offset size f ≡ none)
          × (cached (cells m.queue) id ≡ none)
          × (length m.queue ≡ 16)
          × (in_use m.queue ≡ true))
        ⊎ ((m' : Manager D) × (modify D m id offset size f ≡ some m')
            × IsValid D m'
            × HasRoom m id
            × ((j : ℕ) → view D m' j ≡ (if j == id then f (view D m id) else view D m j))
            × ((j : ℕ) → j ≢ id → pinned m'.queue j ≡ pinned m.queue j))
  unfolding modify
  modify-IsUpdated m id offset size f is fits =
      let within : leb (offset + size) 512 ≡ true = ground (arith, fits) in
      elim (get_block_cache-IsLoaded m id is) [
        | inl (panic, gone, full, used) ↦ inl (rw (panic, modify) refl, gone, full, used)
        | inr (m', got, is', room, here, same) ↦ inr (
          changed m' id f,
          rw (got, modify, within) refl,
          changed-IsValid m' id f is',
          room,
          λ j.
              view-changed m' id f (view D m id) j here
              ∙ ap (λ (b : Block). if j == id then f (view D m id) else b) (same j),
          λ j other.
              changed-pinned m'.queue id j f other ∙ get_block_cache-pinned D m m' id j other got,
        )
      ]
