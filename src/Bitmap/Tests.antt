-- ===== src/Bitmap/Tests.antt =====
-- A bitmap of one block: its first word is full, the next has its two lowest bits set.
use os_agent.Base.{ℕ, ◌-◌, ◌≡◌, ◌⊎◌, refl, Option, none, some, arith, ◌==◌, if◌then◌else◌, u64_mod}
use os_agent.Bitmap.{Bitmap, Device, alloc, alloc_from, alloc_in, find_word, trailing_ones}
use os_agent.Bitmap.Search.{IsWords, IsAllocated, IsFull, alloc-IsAllocated}

abbrev bits : Device
bits b p = if b == 1 then (if p == 0 then u64_mod - 1 else if p == 1 then 3 else 0) else 0

abbrev bitmap : Bitmap
bitmap = record { start_block_id = 1; blocks = 1 }

abbrev number : Option (ℕ × Device) → Option ℕ
number none = none
number (some (i, bits')) = some i

alloc_test : number (alloc bits bitmap) ≡ some 66
unfolding alloc alloc_from alloc_in find_word trailing_ones
alloc_test = refl

bits-IsWords : IsWords bits
unfolding IsWords
bits-IsWords = λ b p. ground arith

alloc-IsAllocated_example :
    ((i : ℕ) × (bits' : Device) × (alloc bits bitmap ≡ some (i, bits'))
      × IsAllocated bits 1 0 1 i bits')
    ⊎ ((alloc bits bitmap ≡ none) × IsFull bits 1 0 1)
alloc-IsAllocated_example = alloc-IsAllocated bits bitmap bits-IsWords
