-- ===== src/Bitmap.antt =====
-- easy-fs/src/bitmap.rs: the bitmap of blocks and inodes. A block of it is seen as the 64 words of
-- `u64` that the closures take it for: `bits b p` is word `p` of block `b` of the device.
pub mod Bits
pub mod Search
mod Tests
use Prim.Native.Nat.{◌/◌, ◌%◌, ◌-◌, ◌^◌}
use os_agent.Base.{
  ℕ, zero, suc, ◌+◌, ◌*◌, Bool, true, false, ◌&&◌, Option, none, some, ltb, ◌==◌, if◌then◌else◌,
  u64_mod,
}
use os_agent.Disk.{block_sz}

abbrev pub block_bits : ℕ
block_bits = block_sz * 8

pub record Bitmap : Type 0 where
  pub start_block_id : ℕ
  pub blocks : ℕ

-- Block, word of the block, bit of the word.
unfoldable pub decomposition : ℕ → ℕ × ℕ × ℕ
decomposition bit = (bit / block_bits, bit % block_bits / 64, bit % block_bits % 64)

abbrev pub Device : Type 0
Device = ℕ → ℕ → ℕ

abbrev pub set_bits64 : Device → ℕ → ℕ → ℕ → Device
set_bits64 bits block pos w = λ b p. if (b == block) && (p == pos) then w else bits b p

-- Whether bit `i` of a word is set.
unfoldable pub test_bit : ℕ → ℕ → Bool
test_bit zero w = w % 2 == 1
test_bit (suc i) w = test_bit i (w / 2)

-- `w | 1 << i`
unfoldable pub or_bit : ℕ → ℕ → ℕ
or_bit zero w = w / 2 * 2 + 1
or_bit (suc i) w = or_bit i (w / 2) * 2 + w % 2

-- `trailing_ones`: how many of the lowest bits, `n` at most, are set.
unfoldable pub trailing_ones : ℕ → ℕ → ℕ
trailing_ones zero w = 0
trailing_ones (suc n) w = let rest = trailing_ones n (w / 2) in if w % 2 == 1 then suc rest else 0

-- The first of `n` words from `pos` on that is not full.
unfoldable pub find_word : (ℕ → ℕ) → ℕ → ℕ → Option ℕ
find_word words zero pos = none
find_word words (suc n) pos =
    let rest = find_word words n (pos + 1) in if words pos == u64_mod - 1 then rest else some pos

-- The closure of `alloc` on a block: the number of the bit, and the device with it set.
unfoldable pub alloc_in : Device → ℕ → ℕ → Option (ℕ × Device)
alloc_in bits start block_id =
    let block = block_id + start in
    elim (find_word (bits block) 64 0) [
      | none ↦ none
      | some bits64_pos ↦
          let inner_pos = trailing_ones 64 (bits block bits64_pos) in
          some (
            block_id * block_bits + bits64_pos * 64 + inner_pos,
            set_bits64 bits block bits64_pos (or_bit inner_pos (bits block bits64_pos)),
          )
    ]

-- The loop of `alloc` over `n` blocks from `block_id` on.
unfoldable pub alloc_from : Device → ℕ → ℕ → ℕ → Option (ℕ × Device)
alloc_from bits start zero block_id = none
alloc_from bits start (suc n) block_id = elim (alloc_in bits start block_id) [
  | none ↦ alloc_from bits start n (block_id + 1)
  | some found ↦ some found
]

unfoldable pub alloc : Device → Bitmap → Option (ℕ × Device)
alloc bits m = alloc_from bits m.start_block_id m.blocks 0

-- `none` is the failed assertion.
unfoldable pub dealloc : Device → Bitmap → ℕ → Option Device
dealloc bits m bit =
    let (block_pos, bits64_pos, inner_pos) = decomposition bit in
    let block = block_pos + m.start_block_id in
    let w = bits block bits64_pos in
    if test_bit inner_pos w
    then some (set_bits64 bits block bits64_pos (w - 2 ^ inner_pos))
    else none

abbrev pub maximum : Bitmap → ℕ
maximum m = m.blocks * block_bits
