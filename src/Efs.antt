-- ===== src/Efs.antt =====
-- easy-fs/src/efs.rs: the areas of a device, and the allocation of inodes and data blocks. The device is
-- its 64-bit little-endian words; the block cache (Cache) gives back what was last written.
pub mod Areas
pub mod Opened
mod Tests
use Prim.Native.Nat.{◌/◌, ◌%◌, ◌^◌}
use os_agent.Base.{
  ℕ, zero, suc, ◌+◌, ◌*◌, Bool, true, false, ◌&&◌, Option, none, some, leb, ltb, ◌==◌,
  if◌then◌else◌, u32_mod, add32, sub32,
}
use os_agent.Disk.{SuperBlock, super_block, is_valid, block_sz, DiskInodeType, file, directory}
use os_agent.Bitmap.{Bitmap, Device, set_bits64, alloc, dealloc, maximum}

pub record EasyFileSystem : Type 0 where
  pub inode_bitmap : Bitmap
  pub data_bitmap : Bitmap
  pub inode_area_start_block : ℕ
  pub data_area_start_block : ℕ

-- `size_of::<DiskInode>()`
abbrev pub inode_size : ℕ
inode_size = 128

-- What `create` computes of the number of all blocks and of the inode bitmap's blocks.
pub record Layout : Type 0 where
  pub inode_area_blocks : ℕ
  pub inode_blocks : ℕ
  pub data_bitmap_blocks : ℕ
  pub data_area_blocks : ℕ

unfoldable pub layout_of : ℕ → ℕ → Layout
layout_of all_blocks inode_bitmap_blocks =
    let inode_num = inode_bitmap_blocks * (block_sz * 8) in
    let inode_area = (inode_num * inode_size + 511) / block_sz % u32_mod in
    let inode_all = add32 inode_bitmap_blocks inode_area in
    let data_all = sub32 (sub32 all_blocks 1) inode_all in
    let data_bitmap = add32 data_all 4096 / 4097 in
    record {
      inode_area_blocks = inode_area;
      inode_blocks = inode_all;
      data_bitmap_blocks = data_bitmap;
      data_area_blocks = sub32 data_all data_bitmap;
    }

-- The file system with the given areas.
abbrev pub with_areas : ℕ → ℕ → ℕ → EasyFileSystem
with_areas inode_bitmap inode_all data_bitmap = record {
  inode_bitmap = record { start_block_id = 1; blocks = inode_bitmap };
  data_bitmap = record { start_block_id = add32 1 inode_all; blocks = data_bitmap };
  inode_area_start_block = add32 1 inode_bitmap;
  data_area_start_block = add32 (add32 1 inode_all) data_bitmap;
}

abbrev pub clear_block : Device → ℕ → Device
clear_block bits block = λ b p. if (b == block) && ltb p 64 then 0 else bits b p

-- Blocks 0 to `n - 1` in order.
unfoldable pub clear_blocks : Device → ℕ → Device
clear_blocks bits zero = bits
clear_blocks bits (suc n) = clear_block (clear_blocks bits n) n

abbrev pub two32 : ℕ → ℕ → ℕ
two32 low high = low + high * u32_mod

-- The six `u32` of the super block are the first three words of block 0.
unfoldable pub write_super_block : Device → SuperBlock → Device
write_super_block bits b =
    set_bits64
      (set_bits64 (set_bits64 bits 0 0 (two32 b.magic b.all_blocks)) 0 1
        (two32 b.inode_bitmap_blocks b.inode_area_blocks))
      0 2 (two32 b.data_bitmap_blocks b.data_area_blocks)

unfoldable pub read_super_block : Device → SuperBlock
read_super_block bits = record {
  magic = bits 0 0 % u32_mod;
  all_blocks = bits 0 0 / u32_mod % u32_mod;
  inode_bitmap_blocks = bits 0 1 % u32_mod;
  inode_area_blocks = bits 0 1 / u32_mod % u32_mod;
  data_bitmap_blocks = bits 0 2 % u32_mod;
  data_area_blocks = bits 0 2 / u32_mod % u32_mod;
}

unfoldable pub get_disk_inode_pos : EasyFileSystem → ℕ → ℕ × ℕ
get_disk_inode_pos efs inode_id =
    let inodes_per_block = block_sz / inode_size in
    (
      add32 efs.inode_area_start_block (inode_id / inodes_per_block),
      inode_id % inodes_per_block * inode_size,
    )

abbrev pub get_data_block_id : EasyFileSystem → ℕ → ℕ
get_data_block_id efs data_block_id = add32 efs.data_area_start_block data_block_id

abbrev pub type_code : DiskInodeType → ℕ
type_code file = 0
type_code directory = 1

-- `DiskInode::initialize` at a byte offset that is a multiple of 8: all words but the last are cleared;
-- the type is the byte 124, and the three bytes that pad it stay.
unfoldable pub initialize_inode : Device → ℕ → ℕ → DiskInodeType → Device
initialize_inode bits block offset kind = λ b p.
    let first = offset / 8 in
    if (b == block) && (leb first p && ltb p (first + 16))
    then (if p == first + 15 then bits b p / 2 ^ 40 * 2 ^ 40 + type_code kind * u32_mod else 0)
    else bits b p

-- `none` is the `unwrap` of no inode.
unfoldable pub alloc_inode : EasyFileSystem → Device → Option (ℕ × Device)
alloc_inode efs bits = elim (alloc bits efs.inode_bitmap) [
  | none ↦ none
  | some (i, bits') ↦ some (i % u32_mod, bits')
]

unfoldable pub alloc_data : EasyFileSystem → Device → Option (ℕ × Device)
alloc_data efs bits = elim (alloc bits efs.data_bitmap) [
  | none ↦ none
  | some (i, bits') ↦ some (add32 (i % u32_mod) efs.data_area_start_block, bits')
]

unfoldable pub dealloc_data : EasyFileSystem → Device → ℕ → Option Device
dealloc_data efs bits block_id =
    dealloc (clear_block bits block_id) efs.data_bitmap (sub32 block_id efs.data_area_start_block)

-- The end of `create`: the root directory must be inode 0.
unfoldable pub make_root : EasyFileSystem → Device → Option (EasyFileSystem × Device)
make_root efs bits = elim (alloc_inode efs bits) [
  | none ↦ none
  | some (suc i, bits') ↦ none
  | some (zero, bits') ↦
      let (block_id, offset) = get_disk_inode_pos efs 0 in
      some (efs, initialize_inode bits' block_id offset directory)
]

unfoldable pub create : Device → ℕ → ℕ → Option (EasyFileSystem × Device)
create bits all_blocks inode_bitmap_blocks =
    let l = layout_of all_blocks inode_bitmap_blocks in
    make_root (with_areas inode_bitmap_blocks l.inode_blocks l.data_bitmap_blocks) (
      write_super_block (clear_blocks bits all_blocks) (
        super_block all_blocks inode_bitmap_blocks l.inode_area_blocks l.data_bitmap_blocks
          l.data_area_blocks))

-- `open`: `none` is the failed assertion.
unfoldable pub open_efs : Device → Option EasyFileSystem
open_efs bits =
    let b = read_super_block bits in
    if is_valid b
    then some (
        with_areas b.inode_bitmap_blocks (add32 b.inode_bitmap_blocks b.inode_area_blocks)
          b.data_bitmap_blocks)
    else none
