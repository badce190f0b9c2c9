-- ===== src/Cache/Device.antt =====
-- easy-fs/src/block_dev.rs: the interface of a block device, and what the cache relies on: a block reads as
-- it was last written.
use os_agent.Base.{ℕ, ◌≡◌, ◌==◌, if◌then◌else◌}

-- The bytes of a block by their offset.
abbrev pub Block : Type 0
Block = ℕ → ℕ

pub record BlockDevice : Type 1 where
  pub State : Type 0
  pub read_block : State → ℕ → Block
  pub write_block : State → ℕ → Block → State

pub record IsLawful (D : BlockDevice) : Type 0 where
  pub read-write :
      (s : D.State) (i : ℕ) (b : Block) (j : ℕ)
      → D.read_block (D.write_block s i b) j ≡ (if j == i then b else D.read_block s j)
