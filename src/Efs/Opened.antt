-- ===== src/Efs/Opened.antt =====
-- What `open` finds on a device that `create` made.
use os_agent.Base.{
  ℕ, zero, suc, ◌+◌, ◌*◌, ◌/◌, ◌%◌, ◌<◌, ◌≤◌, ◌≡◌, ◌≢◌, ◌∙◌, inl, inr, refl, true, Bool-cases, some,
  arith, ◌==◌, u32_mod, add32,
}
use os_agent.Disk.{SuperBlock, super_block, is_valid, directory}
use os_agent.Bitmap.{
  Device, set_bits64, alloc, alloc_from, alloc_in, find_word, trailing_ones, or_bit,
}
use os_agent.Efs.{
  EasyFileSystem, two32, layout_of, with_areas, clear_blocks, write_super_block, read_super_block,
  get_disk_inode_pos, initialize_inode, alloc_inode, make_root, create, open_efs,
}
use os_agent.Efs.Areas.{made, layout_of_lem}

clear_blocks_lem : (bits : Device) (n b p : ℕ) → b < n → p < 64 → clear_blocks bits n b p ≡ 0
unfolding clear_blocks
clear_blocks_lem bits zero b p h low = absurd (omega (arith, h))
clear_blocks_lem bits (suc n) b p h low = elim (Bool-cases (b == n)) [
  | inl here ↦ ground (arith, here, low)
  | inr there ↦ rw there (clear_blocks_lem bits n b p (ground (arith, h, there)) low)
]

write_super_block_lem :
    (bits : Device) (s : SuperBlock) (b p : ℕ) → 0 < b → write_super_block bits s b p ≡ bits b p
unfolding write_super_block
write_super_block_lem bits s b p h = ground (arith, h)

find_word_first :
    (words : ℕ → ℕ) (n pos : ℕ) → words pos ≡ 0 → find_word words (suc n) pos ≡ some pos
unfolding find_word
find_word_first words n pos empty = rw (empty, find_word) refl

trailing_ones_zero : (w : ℕ) → w ≡ 0 → trailing_ones 64 w ≡ 0
unfolding trailing_ones
trailing_ones_zero w empty = rw empty refl

or_bit_first : (w : ℕ) → w ≡ 0 → or_bit 0 w ≡ 1
unfolding or_bit
or_bit_first w empty = rw empty refl

alloc_in_first :
    (bits : Device) → bits 1 0 ≡ 0 → alloc_in bits 1 0 ≡ some (0, set_bits64 bits 1 0 1)
unfolding alloc_in
alloc_in_first bits empty =
    rw
      (
        find_word_first (bits 1) 63 0 empty,
        alloc_in,
        trailing_ones_zero (bits 1 0) empty,
        or_bit_first (bits 1 0) empty,
      )
      refl

-- The first inode of an empty bitmap is number 0; its bit is set.
alloc_inode_first :
    (bits : Device) (k inode_all data_bitmap : ℕ)
    → bits 1 0 ≡ 0
    → alloc_inode (with_areas (suc k) inode_all data_bitmap) bits ≡ some (0, set_bits64 bits 1 0 1)
unfolding alloc_inode alloc alloc_from
alloc_inode_first bits k inode_all data_bitmap empty =
    rw (alloc_in_first bits empty, alloc_inode, alloc, alloc_from) refl

make_root_lem :
    (efs : EasyFileSystem) (bits bits' : Device)
    → alloc_inode efs bits ≡ some (0, bits')
    → make_root efs bits
      ≡ some (efs, initialize_inode bits' (add32 efs.inode_area_start_block 0) 0 directory)
unfolding make_root get_disk_inode_pos
make_root_lem efs bits bits' e = rw (e, make_root) refl

initialize_inode_lem :
    (bits : Device) (block offset b p : ℕ)
    → b ≢ block
    → initialize_inode bits block offset directory b p ≡ bits b p
unfolding initialize_inode
initialize_inode_lem bits block offset b p other = ground (arith, other)

two32-low : (a b : ℕ) → a < u32_mod → two32 a b % u32_mod ≡ a
two32-low a b h = omega (arith, h)

two32-high : (a b : ℕ) → a < u32_mod → b < u32_mod → two32 a b / u32_mod % u32_mod ≡ b
two32-high a b h k = omega (arith, h, k)

read_super_block_lem :
    (bits : Device) (s : SuperBlock)
    → s.magic < u32_mod
    → s.all_blocks < u32_mod
    → s.inode_bitmap_blocks < u32_mod
    → s.inode_area_blocks < u32_mod
    → s.data_bitmap_blocks < u32_mod
    → s.data_area_blocks < u32_mod
    → (bits' : Device) → ((p : ℕ) → bits' 0 p ≡ write_super_block bits s 0 p)
    → read_super_block bits' ≡ s
unfolding read_super_block write_super_block
read_super_block_lem bits s a b c d e f bits' same =
    let w0 : bits' 0 0 ≡ two32 s.magic s.all_blocks = same 0 in
    let w1 : bits' 0 1 ≡ two32 s.inode_bitmap_blocks s.inode_area_blocks = same 1 in
    let w2 : bits' 0 2 ≡ two32 s.data_bitmap_blocks s.data_area_blocks = same 2 in
    rw
      (
        w0,
        w1,
        w2,
        two32-low s.magic s.all_blocks a,
        two32-high s.magic s.all_blocks a b,
        two32-low s.inode_bitmap_blocks s.inode_area_blocks c,
        two32-high s.inode_bitmap_blocks s.inode_area_blocks c d,
        two32-low s.data_bitmap_blocks s.data_area_blocks e,
        two32-high s.data_bitmap_blocks s.data_area_blocks e f,
      )
      refl

open_efs_lem :
    (bits : Device) (s : SuperBlock)
    → read_super_block bits ≡ s
    → is_valid s ≡ true
    → open_efs bits
      ≡ some (
          with_areas s.inode_bitmap_blocks
            (add32 s.inode_bitmap_blocks s.inode_area_blocks)
            s.data_bitmap_blocks)
unfolding open_efs
open_efs_lem bits s e valid = rw (e, open_efs, valid) refl

-- The super block that `create` writes.
abbrev super_of : ℕ → ℕ → SuperBlock
super_of n k =
    let l = layout_of n k in
    super_block n k l.inode_area_blocks l.data_bitmap_blocks l.data_area_blocks

abbrev formatted : Device → ℕ → ℕ → Device
formatted bits n k = write_super_block (clear_blocks bits n) (super_of n k)

abbrev device_of : Device → ℕ → ℕ → Device
device_of bits n k =
    initialize_inode (set_bits64 (formatted bits n k) 1 0 1) (add32 (add32 1 k) 0) 0 directory

create_lem :
    (bits : Device) (n k : ℕ)
    → 1 < n
    → create bits n (suc k) ≡ some (made n (suc k), device_of bits n (suc k))
unfolding create
create_lem bits n k h =
    let empty =
      write_super_block_lem (clear_blocks bits n) (super_of n (suc k)) 1 0 (omega arith)
      ∙ clear_blocks_lem bits n 1 0 h (omega arith) in
    make_root_lem (made n (suc k)) (formatted bits n (suc k))
      (set_bits64 (formatted bits n (suc k)) 1 0 1)
      (alloc_inode_first (formatted bits n (suc k)) k (layout_of n (suc k)).inode_blocks
        (layout_of n (suc k)).data_bitmap_blocks empty)

-- A device with room for its inodes and for one block of inode bitmap at least is created, and `open`
-- finds on it the file system that `create` made.
pub open_efs-create :
    (bits : Device) (n k : ℕ)
    → n + 4096 < u32_mod
    → 2 + k + suc k * 1024 ≤ n
    → (efs : EasyFileSystem) × (bits' : Device) × (create bits n (suc k) ≡ some (efs, bits'))
      × (open_efs bits' ≡ some efs)
unfolding layout_of
open_efs-create bits n k small room =
    let d = device_of bits n (suc k) in
    let (all, area, inodes, fits) = layout_of_lem n (suc k) small (omega (arith, room)) in
    let same : (p : ℕ) → d 0 p ≡ formatted bits n (suc k) 0 p = λ p.
      initialize_inode_lem (set_bits64 (formatted bits n (suc k)) 1 0 1) (add32 (add32 1 (suc k)) 0)
        0 0 p (ground (arith, small, room)) in
    let there =
      read_super_block_lem (clear_blocks bits n) (super_of n (suc k)) (omega arith)
        (omega (arith, small)) (omega (arith, small, room)) (omega (arith, all, small))
        (omega (arith, all, small)) (omega (arith, all, small)) d same in
    (
      made n (suc k),
      d,
      create_lem bits n k (omega (arith, room)),
      open_efs_lem d (super_of n (suc k)) there refl,
    )
