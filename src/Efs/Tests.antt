-- ===== src/Efs/Tests.antt =====
-- A device of 1091 blocks, 64 of them in the data area, with a data bitmap of one block that starts at
-- block 1026.
use os_agent.Base.{
  ℕ, ◌%◌, ◌/◌, ◌-◌, ◌<◌, ◌≤◌, ◌≡◌, refl, true, some, arith, ◌==◌, ◌&&◌, if◌then◌else◌, u64_mod,
}
use os_agent.Bitmap.{Device, test_bit}
use os_agent.Bitmap.Search.{IsWords, bit_of}
use os_agent.Bitmap.Bits.{test_bit-max}
use os_agent.Efs.{EasyFileSystem, layout_of, alloc_data, create, open_efs}
use os_agent.Efs.Areas.{made, alloc_data-IsBeyond}
use os_agent.Efs.Opened.{open_efs-create}

abbrev blank : Device
blank b p = 0

areas_test : (layout_of 1091 1).data_area_blocks ≡ 64
unfolding layout_of
areas_test = refl

open_efs-create_example :
    (efs : EasyFileSystem) × (bits' : Device) × (create blank 1091 1 ≡ some (efs, bits'))
    × (open_efs bits' ≡ some efs)
open_efs-create_example = open_efs-create blank 1091 0 (omega arith) (omega arith)

-- All of the 64 data blocks are taken.
abbrev taken : Device
taken b p = if (b == 1026) && (p == 0) then u64_mod - 1 else 0

taken-IsWords : IsWords taken
unfolding IsWords
taken-IsWords = λ b p. ground arith

taken_all : (i : ℕ) → i < 64 → bit_of taken 1026 i ≡ true
taken_all i h =
    let a : i % 4096 % 64 ≡ i = omega (arith, h) in
    let b : i / 4096 ≡ 0 = omega (arith, h) in
    let c : i % 4096 / 64 ≡ 0 = omega (arith, h) in
    rw (a, b, c) (test_bit-max 64 i (u64_mod - 1) h refl)

alloc_data-IsBeyond_example :
    (block : ℕ) × (bits' : Device) × (alloc_data (made 1091 1) taken ≡ some (block, bits'))
    × (1091 ≤ block)
unfolding layout_of test_bit
alloc_data-IsBeyond_example =
    alloc_data-IsBeyond 1091 1 taken (omega arith) (omega arith) taken-IsWords taken_all 64
      (omega arith) refl
