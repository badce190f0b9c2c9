-- ===== src/Efs/Areas.antt =====
-- The areas that `create` lays out, and what is in them.
use os_agent.Base.{
  ℕ, ◌+◌, ◌*◌, ◌/◌, ◌%◌, ◌<◌, ◌≤◌, ◌≡◌, inl, inr, refl, ap, true, false, Bool-cases, some, arith,
  ltb, u32_mod, add32,
}
use os_agent.Bitmap.{Device}
use os_agent.Bitmap.Search.{IsWords, bit_of, alloc-IsAllocated}
use os_agent.Efs.{EasyFileSystem, inode_size, layout_of, with_areas, get_disk_inode_pos, alloc_data}

-- The file system that `create` makes on `n` blocks with `k` blocks of inode bitmap.
abbrev pub made : ℕ → ℕ → EasyFileSystem
made n k = let l = layout_of n k in with_areas k l.inode_blocks l.data_bitmap_blocks

-- With room for the super block and the inodes the areas are all of the device, and the bitmap of the
-- data blocks has a bit for each.
pub layout_of_lem :
    (n k : ℕ)
    → n + 4096 < u32_mod
    → 1 + k + k * 1024 ≤ n
    → (1
          + k
          + (layout_of n k).inode_area_blocks
          + (layout_of n k).data_bitmap_blocks
          + (layout_of n k).data_area_blocks
        ≡ n)
      × ((layout_of n k).inode_area_blocks ≡ k * 1024)
      × ((layout_of n k).inode_blocks ≡ k * 1025)
      × ((layout_of n k).data_area_blocks ≤ (layout_of n k).data_bitmap_blocks * 4096)
unfolding layout_of
layout_of_lem n k small room = omega (arith, small, room)

-- The inodes that the bitmap counts stand in the inode area, none across the end of a block, and two
-- different ones never at the same place.
pub get_disk_inode_pos-bounds :
    (n k i j : ℕ)
    → n + 4096 < u32_mod
    → 1 + k + k * 1024 ≤ n
    → i < k * 4096
    → j < k * 4096
    → let (block, offset) = get_disk_inode_pos (made n k) i in
      (1 + k ≤ block)
      × (block < 1 + k + k * 1024)
      × (offset + 128 ≤ 512)
      × (get_disk_inode_pos (made n k) i ≡ get_disk_inode_pos (made n k) j → i ≡ j)
unfolding get_disk_inode_pos
get_disk_inode_pos-bounds n k i j small room a b = (
  omega (arith, a, room, small),
  omega (arith, a, room, small),
  omega arith,
  λ e.
      let blocks : add32 (add32 1 k) (i / 4) ≡ add32 (add32 1 k) (j / 4) = ap (λ p. p.0) e in
      let offsets : i % 4 * inode_size ≡ j % 4 * inode_size = ap (λ p. p.1) e in
      omega (arith, a, b, room, small, blocks, offsets),
)

-- The block of a bit beyond the data area is none of the device's.
bit_beyond :
    (n k i : ℕ)
    → n + 4096 < u32_mod
    → 1 + k + k * 1024 ≤ n
    → (layout_of n k).data_area_blocks ≤ i
    → i < (layout_of n k).data_bitmap_blocks * 4096
    → n ≤ add32 (i % u32_mod) (made n k).data_area_start_block
unfolding layout_of
bit_beyond n k i small room beyond within = omega (arith, small, room, beyond, within)

-- A device on which every data block is taken but the data bitmap has bits to spare gives out a block
-- beyond its end.
pub alloc_data-IsBeyond :
    (n k : ℕ) (bits : Device)
    → n + 4096 < u32_mod
    → 1 + k + k * 1024 ≤ n
    → IsWords bits
    → ((i : ℕ)
        → i < (layout_of n k).data_area_blocks
        → bit_of bits (made n k).data_bitmap.start_block_id i ≡ true)
    → (j : ℕ) → j < (layout_of n k).data_bitmap_blocks * 4096
    → bit_of bits (made n k).data_bitmap.start_block_id j ≡ false
    → (block : ℕ) × (bits' : Device) × (alloc_data (made n k) bits ≡ some (block, bits'))
      × (n ≤ block)
unfolding alloc_data
alloc_data-IsBeyond n k bits small room words taken j within clear =
    elim (alloc-IsAllocated bits (made n k).data_bitmap words) [
      | inr (e, full) ↦ absurd (cc (full j (omega arith) within, clear))
      | inl (i, bits', e, is) ↦
          let beyond : (layout_of n k).data_area_blocks ≤ i =
            elim (Bool-cases (ltb i (layout_of n k).data_area_blocks)) [
              | inl within' ↦ absurd (cc (taken i (ground (arith, within')), is.was_clear))
              | inr beyond ↦ ground (arith, beyond)
            ] in
          (
            add32 (i % u32_mod) (made n k).data_area_start_block,
            bits',
            rw (e, alloc_data) refl,
            bit_beyond n k i small room beyond is.high_end,
          )
    ]
