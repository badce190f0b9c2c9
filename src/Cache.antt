-- ===== src/Cache.antt =====
-- easy-fs/src/block_cache.rs: the cache of blocks. A handle is an `Arc` of a cached block that some code
-- holds; the queue itself is one of the `strong_count`.
pub mod Device
pub mod Evict
pub mod View
pub mod Pinned
pub mod Coherence
mod Tests
use os_agent.Base.{
  ℕ, zero, suc, ◌+◌, ◌-◌, Bool, true, false, Option, none, some, List, [], ◌∷◌, ◌++◌, length, leb,
  ◌==◌, if◌then◌else◌,
}
use os_agent.Cache.Device.{Block, BlockDevice}

pub record BlockCache : Type 0 where
  pub cache : Block
  pub block_id : ℕ
  pub modified : Bool

-- An element of the queue, with the number of its owners.
pub record Entry : Type 0 where
  pub cell : BlockCache
  pub strong_count : ℕ

abbrev pub block_cache_size : ℕ
block_cache_size = 16

abbrev pub id_of : Entry → ℕ
id_of e = e.cell.block_id

module _ (D : BlockDevice) where
  -- `BlockCache::new`
  abbrev pub load : D.State → ℕ → BlockCache
  load disk block_id = record {
    cache = D.read_block disk block_id;
    block_id = block_id;
    modified = false;
  }

  -- `BlockCache::sync`, which also runs when a cached block is dropped.
  unfoldable pub sync : D.State → BlockCache → D.State × BlockCache
  sync disk c =
      if c.modified
      then (D.write_block disk c.block_id c.cache, record c { modified = false })
      else (disk, c)

  -- `BLOCK_CACHE_MANAGER` and the device.
  pub record Manager : Type 0 where
    pub queue : List Entry
    pub disk : D.State

-- The handle that `find` gives is one owner more.
unfoldable pub share : List Entry → ℕ → Option (List Entry)
share [] block_id = none
share (e ∷ es) block_id =
    let rest = share es block_id in
    if id_of e == block_id
    then some (record e { strong_count = e.strong_count + 1 } ∷ es)
    else elim rest [ none ↦ none | some es' ↦ some (e ∷ es') ]

-- The first block that only the queue owns, and the queue without it.
unfoldable pub evict : List Entry → Option (Entry × List Entry)
evict [] = none
evict (e ∷ es) =
    let rest = evict es in
    if e.strong_count == 1
    then some (e, es)
    else elim rest [ none ↦ none | some (victim, es') ↦ some (victim, e ∷ es') ]

module _ (D : BlockDevice) where
  -- `none` is the panic "Run out of BlockCache!".
  unfoldable pub make_room : Manager D → Option (Manager D)
  make_room m =
      if length m.queue == block_cache_size
      then elim (evict m.queue) [
        | none ↦ none
        | some (victim, rest) ↦ some (record { queue = rest; disk = (sync D m.disk victim.cell).0 })
      ]
      else some m

  abbrev pub push_back : Manager D → ℕ → Manager D
  push_back m block_id = record m {
    queue = m.queue ++ (record { cell = load D m.disk block_id; strong_count = 2 } ∷ []);
  }

  unfoldable pub get_block_cache : Manager D → ℕ → Option (Manager D)
  get_block_cache m block_id = elim (share m.queue block_id) [
    | some queue ↦ some (record m { queue = queue })
    | none ↦ elim (make_room m) [ none ↦ none | some m' ↦ some (push_back m' block_id) ]
  ]

-- The owner of a handle lets it go.
unfoldable pub release : List Entry → ℕ → List Entry
release [] block_id = []
release (e ∷ es) block_id =
    let rest = release es block_id in
    if id_of e == block_id then record e { strong_count = e.strong_count - 1 } ∷ es else e ∷ rest

-- What a closure does to the block, through the handle; `get_mut` marks it.
unfoldable pub change : List Entry → ℕ → (Block → Block) → List Entry
change [] block_id f = []
change (e ∷ es) block_id f =
    let rest = change es block_id f in
    if id_of e == block_id
    then record e { cell = record e.cell { cache = f e.cell.cache; modified = true } } ∷ es
    else e ∷ rest

module _ (D : BlockDevice) where
  -- `get_block_cache(id, device).lock().modify(offset, f)` with a `T` of `size` bytes, as every caller
  -- writes it: the handle is let go at the end of the statement. A place beyond the block is a panic.
  unfoldable pub modify : Manager D → ℕ → ℕ → ℕ → (Block → Block) → Option (Manager D)
  modify m block_id offset size f = elim (get_block_cache D m block_id) [
    | none ↦ none
    | some m' ↦
        if leb (offset + size) 512
        then some (record m' { queue = release (change m'.queue block_id f) block_id })
        else none
  ]

  -- The loop of `block_cache_sync_all`.
  unfoldable pub sync_queue : D.State → List Entry → D.State × List Entry
  sync_queue disk [] = (disk, [])
  sync_queue disk (e ∷ es) =
      let (disk', c) = sync D disk e.cell in
      let (disk'', es') = sync_queue disk' es in (disk'', record e { cell = c } ∷ es')

  unfoldable pub block_cache_sync_all : Manager D → Manager D
  block_cache_sync_all m =
      let (disk, queue) = sync_queue m.disk m.queue in record { queue = queue; disk = disk }
