-- ===== src/Disk.antt =====
-- easy-fs/src/layout.rs: the super block, and which blocks an inode has and how it grows and shrinks. The `u32` words of the index
-- blocks are a function of the block's id and of the word's index: the block cache is in Cache.
pub mod Counts
pub mod Size
pub mod Freed
pub mod Grown
pub mod Data
pub mod Dir
mod Tests
use Prim.Native.Nat.{◌/◌, ◌%◌, ◌-◌}
use os_agent.Base.{
  ℕ, ◌+◌, ◌*◌, Bool, true, false, Option, none, some, List, [], ◌∷◌, get_or, replicate, ltb, leb,
  ◌==◌, if◌then◌else◌, u32_mod, add32, sub32,
}

abbrev pub block_sz : ℕ
block_sz = 512

abbrev pub efs_magic : ℕ
efs_magic = 0x3b80_0001

abbrev pub inode_direct_count : ℕ
inode_direct_count = 28

abbrev pub inode_indirect1_count : ℕ
inode_indirect1_count = 128

abbrev pub indirect1_bound : ℕ
indirect1_bound = inode_direct_count + inode_indirect1_count

pub record SuperBlock : Type 0 where
  pub magic : ℕ
  pub all_blocks : ℕ
  pub inode_bitmap_blocks : ℕ
  pub inode_area_blocks : ℕ
  pub data_bitmap_blocks : ℕ
  pub data_area_blocks : ℕ

-- `SuperBlock::initialize`
abbrev pub super_block : ℕ → ℕ → ℕ → ℕ → ℕ → SuperBlock
super_block all_blocks inode_bitmap inode_area data_bitmap data_area = record {
  magic = efs_magic;
  all_blocks = all_blocks;
  inode_bitmap_blocks = inode_bitmap;
  inode_area_blocks = inode_area;
  data_bitmap_blocks = data_bitmap;
  data_area_blocks = data_area;
}

abbrev pub is_valid : SuperBlock → Bool
is_valid b = b.magic == efs_magic

pub data DiskInodeType : Type 0 where
  file directory : DiskInodeType

pub record DiskInode : Type 0 where
  pub size : ℕ
  pub direct : List ℕ
  pub indirect1 : ℕ
  pub indirect2 : ℕ
  pub kind : DiskInodeType

-- `DiskInode::initialize`
abbrev pub new_inode : DiskInodeType → DiskInode
new_inode kind = record {
  size = 0;
  direct = replicate 28 0;
  indirect1 = 0;
  indirect2 = 0;
  kind = kind;
}

-- `_data_blocks`
unfoldable pub data_blocks_of : ℕ → ℕ
data_blocks_of size = sub32 (add32 size block_sz) 1 / block_sz

unfoldable pub total_blocks : ℕ → ℕ
total_blocks size =
    let data_blocks = data_blocks_of size in
    let index1 = if ltb inode_direct_count data_blocks then 1 else 0 in
    let index2 =
      if ltb indirect1_bound data_blocks
      then 1 + (data_blocks - indirect1_bound + inode_indirect1_count - 1) / inode_indirect1_count
      else 0 in
    (data_blocks + index1 + index2) % u32_mod

-- `none` stands for the panic of the assertion.
unfoldable pub blocks_num_needed : DiskInode → ℕ → Option ℕ
blocks_num_needed inode new_size =
    if leb inode.size new_size
    then some (sub32 (total_blocks new_size) (total_blocks inode.size))
    else none

unfoldable pub get_block_id : (ℕ → ℕ → ℕ) → DiskInode → ℕ → ℕ
get_block_id word inode inner_id =
    let last = inner_id - indirect1_bound in
    if ltb inner_id inode_direct_count
    then get_or inode.direct inner_id 0
    else if ltb inner_id indirect1_bound
    then word inode.indirect1 (inner_id - inode_direct_count)
    else word (word inode.indirect2 (last / inode_indirect1_count)) (last % inode_indirect1_count)
