-- ===== src/Cache/Tests.antt =====
-- The cache on a device in memory.
use os_agent.Base.{
  ℕ, ◌≡◌, ◌≢◌, ◌⊎◌, refl, true, Option, none, some, [], length, arith, ◌==◌, if◌then◌else◌,
}
use os_agent.Cache.Device.{Block, BlockDevice, IsLawful}
use os_agent.Cache.{
  Manager, get_block_cache, share, make_room, sync, sync_queue, change, release, modify,
  block_cache_sync_all,
}
use os_agent.Cache.Evict.{cells, cached, in_use}
use os_agent.Cache.View.{view, IsValid}
use os_agent.Cache.Pinned.{pinned}
use os_agent.Cache.Coherence.{HasRoom, modify-IsUpdated, block_cache_sync_all-IsDurable}

abbrev memory : BlockDevice
memory = record {
  State = ℕ → Block;
  read_block = λ s j. s j;
  write_block = λ s i b j. if j == i then b else s j;
}

memory-IsLawful : IsLawful memory
memory-IsLawful = record { read-write = λ s i b j. refl }

abbrev start : Manager memory
start = record { queue = []; disk = λ j p. 0 }

start-IsValid : IsValid memory start
start-IsValid = record { distinct = tt; clean = tt; bound = omega arith }

abbrev sevens : Block → Block
sevens b p = 7

modify-IsUpdated_example :
    ((modify memory start 3 0 8 sevens ≡ none)
      × (cached (cells start.queue) 3 ≡ none)
      × (length start.queue ≡ 16)
      × (in_use start.queue ≡ true))
    ⊎ ((m' : Manager memory) × (modify memory start 3 0 8 sevens ≡ some m')
        × IsValid memory m'
        × HasRoom memory memory-IsLawful start 3
        × ((j : ℕ)
            → view memory m' j
              ≡ (if j == 3 then sevens (view memory start 3) else view memory start j))
        × ((j : ℕ) → j ≢ 3 → pinned m'.queue j ≡ pinned start.queue j))
modify-IsUpdated_example =
    modify-IsUpdated memory memory-IsLawful start 3 0 8 sevens start-IsValid (omega arith)

abbrev byte_after : Option (Manager memory) → ℕ → ℕ
byte_after none j = 0
byte_after (some m) j = (block_cache_sync_all memory m).disk j 5

-- The changed block reaches the device when all is written back, and no other does.
sync_test :
    (byte_after (modify memory start 3 0 8 sevens) 3 ≡ 7)
    × (byte_after (modify memory start 3 0 8 sevens) 4 ≡ 0)
unfolding modify get_block_cache share make_room change release block_cache_sync_all sync_queue sync
sync_test = (refl, refl)

block_cache_sync_all-IsDurable_example :
    IsValid memory (block_cache_sync_all memory start)
    × ((j : ℕ) → memory.read_block (block_cache_sync_all memory start).disk j ≡ view memory start j)
    × ((j : ℕ) → view memory (block_cache_sync_all memory start) j ≡ view memory start j)
block_cache_sync_all-IsDurable_example =
    block_cache_sync_all-IsDurable memory memory-IsLawful start start-IsValid
