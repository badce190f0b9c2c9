-- ===== src/Bitmap/Search.antt =====
-- `alloc` takes a bit that is clear, if there is one, and `dealloc` gives back one that is set.
use os_agent.Base.{
  ℕ, zero, suc, ◌+◌, ◌*◌, ◌/◌, ◌%◌, ◌-◌, ◌^◌, ◌<◌, ◌≤◌, ◌≡◌, ◌≢◌, refl, ap, ◌∙◌, Bool, true, false,
  ◌&&◌, Bool-cases, inl, inr, ◌⊎◌, none, some, arith, ltb, ◌==◌, if◌then◌else◌, u64_mod,
}
use os_agent.Bitmap.{
  Bitmap, Device, set_bits64, test_bit, or_bit, trailing_ones, find_word, alloc_in, alloc_from,
  alloc, dealloc, decomposition,
}
use os_agent.Bitmap.Bits.{
  test_bit-or_bit, test_bit-trailing_ones, test_bit-max, test_bit-minus, or_bit-lt,
}

-- Bit `i` of the bitmap whose first block is `start`.
abbrev pub bit_of : Device → ℕ → ℕ → Bool
bit_of bits start i = test_bit (i % 4096 % 64) (bits (i / 4096 + start) (i % 4096 / 64))

-- Every word fits in a `u64`.
unfoldable pub IsWords : Device → Type 0
IsWords bits = (b p : ℕ) → bits b p < u64_mod

find_word_lem :
    (words : ℕ → ℕ) (n pos : ℕ)
    → ((at : ℕ) × (find_word words n pos ≡ some at)
        × (pos ≤ at)
        × (at < pos + n)
        × (words at ≢ u64_mod - 1))
      ⊎ ((find_word words n pos ≡ none)
          × ((at : ℕ) → pos ≤ at → at < pos + n → words at ≡ u64_mod - 1))
unfolding find_word
find_word_lem words zero pos = inr (refl, λ at a b. absurd (omega (arith, a, b)))
find_word_lem words (suc n) pos = elim (Bool-cases (words pos == u64_mod - 1)) [
  | inr free ↦
      inl (pos, rw (free, find_word) refl, omega arith, omega arith, λ e. ground (arith, free, e))
  | inl full ↦
      let is_full : words pos ≡ u64_mod - 1 = ground (arith, full) in
      elim (find_word_lem words n (pos + 1)) [
        | inl (at, e, a, b, c) ↦
            inl (at, rw (full, find_word) e, omega (arith, a), omega (arith, b), c)
        | inr (e, all) ↦ inr (
          rw (full, find_word) e,
          λ at a b. elim (Bool-cases (at == pos)) [
            | inl here ↦ let same : at ≡ pos = ground (arith, here) in ap words same ∙ is_full
            | inr there ↦ all at (ground (arith, a, there)) (omega (arith, b))
          ],
        )
      ]
]

-- The device after bit `i` was set to `value`.
pub record IsFlipped (bits : Device) (start i : ℕ) (value : Bool) (bits' : Device) : Type 0 where
  pub bit_eq : (j : ℕ) → bit_of bits' start j ≡ (if j == i then value else bit_of bits start j)
  pub words : IsWords bits'

-- The word of bit `i` gets value `w'`, in which only that bit differs.
IsFlipped-set :
    (bits : Device) (start b p k w' : ℕ) (value : Bool)
    → p < 64
    → k < 64
    → w' < u64_mod
    → IsWords bits
    → ((j : ℕ) → test_bit j w' ≡ (if j == k then value else test_bit j (bits (b + start) p)))
    → IsFlipped bits start (b * 4096 + p * 64 + k) value (set_bits64 bits (b + start) p w')
unfolding IsWords
IsFlipped-set bits start b p k w' value hp hk small words flips = record {
  bit_eq = λ j. elim (Bool-cases ((j / 4096 + start == b + start) && (j % 4096 / 64 == p))) [
    | inr other ↦ ground (arith, other, hp, hk)
    | inl same ↦
        let same_block : j / 4096 + start ≡ b + start = ground (arith, same) in
        let same_word : j % 4096 / 64 ≡ p = ground (arith, same) in
        let flip = flips (j % 4096 % 64) in
        let bit : (j % 4096 % 64 == k) ≡ (j == b * 4096 + p * 64 + k) =
          ground (arith, same_block, same_word, hk, hp) in
        rw (same_block, same_word) (ground (arith, flip, bit))
  ];
  words = λ c q. ground (arith, small, words c q);
}

bit_of_lem :
    (bits : Device) (start b p k : ℕ)
    → p < 64
    → k < 64
    → bit_of bits start (b * 4096 + p * 64 + k) ≡ test_bit k (bits (b + start) p)
bit_of_lem bits start b p k hp hk =
    let i = b * 4096 + p * 64 + k in
    let block : i / 4096 ≡ b = omega (arith, hp, hk) in
    let word : i % 4096 / 64 ≡ p = omega (arith, hp, hk) in
    let bit : i % 4096 % 64 ≡ k = omega (arith, hp, hk) in rw (block, word, bit) refl

-- A bit that was clear, and is set now.
pub record IsAllocated (bits : Device) (start low high i : ℕ) (bits' : Device) : Type 0 where
  pub low_end : low * 4096 ≤ i
  pub high_end : i < high * 4096
  pub was_clear : bit_of bits start i ≡ false
  pub flipped : IsFlipped bits start i true bits'

abbrev pub IsFull : Device → ℕ → ℕ → ℕ → Type 0
IsFull bits start low high = (i : ℕ) → low * 4096 ≤ i → i < high * 4096 → bit_of bits start i ≡ true

alloc_in_lem :
    (bits : Device) (start b : ℕ)
    → IsWords bits
    → ((i : ℕ) × (bits' : Device) × (alloc_in bits start b ≡ some (i, bits'))
        × IsAllocated bits start b (b + 1) i bits')
      ⊎ ((alloc_in bits start b ≡ none) × IsFull bits start b (b + 1))
unfolding alloc_in IsWords
alloc_in_lem bits start b words = elim (find_word_lem (bits (b + start)) 64 0) [
  | inr (e, all) ↦ inr (
    rw (e, alloc_in) refl,
    λ i low high.
        let block : i / 4096 ≡ b = omega (arith, low, high) in
        let full = all (i % 4096 / 64) (omega arith) (omega arith) in
        rw block (
          test_bit-max 64 (i % 4096 % 64) (bits (b + start) (i % 4096 / 64)) (omega arith)
            (omega (arith, full))),
  )
  | inl (p, e, _, below, free) ↦
      let w = bits (b + start) p in
      let (inner, clear) = test_bit-trailing_ones 64 w (omega (arith, free, words (b + start) p)) in
      let k = trailing_ones 64 w in
      inl (
        b * 4096 + p * 64 + k,
        set_bits64 bits (b + start) p (or_bit k w),
        rw (e, alloc_in) refl,
        record {
          low_end = omega arith;
          high_end = omega (arith, below, inner);
          was_clear = bit_of_lem bits start b p k (omega (arith, below)) inner ∙ clear;
          flipped =
              IsFlipped-set bits start b p k (or_bit k w) true (omega (arith, below)) inner
                (or_bit-lt 64 k w inner (words (b + start) p)) words (λ j. test_bit-or_bit k j w);
        },
      )
]

alloc_from_lem :
    (bits : Device) (start n b : ℕ)
    → IsWords bits
    → ((i : ℕ) × (bits' : Device) × (alloc_from bits start n b ≡ some (i, bits'))
        × IsAllocated bits start b (b + n) i bits')
      ⊎ ((alloc_from bits start n b ≡ none) × IsFull bits start b (b + n))
unfolding alloc_from
alloc_from_lem bits start zero b words = inr (refl, λ i low high. absurd (omega (arith, low, high)))
alloc_from_lem bits start (suc n) b words = elim (alloc_in_lem bits start b words) [
  | inl (i, bits', e, x) ↦ inl (
    i,
    bits',
    rw (e, alloc_from) refl,
    record {
      low_end = x.low_end;
      high_end = omega (arith, x.high_end);
      was_clear = x.was_clear;
      flipped = x.flipped;
    },
  )
  | inr (e, full) ↦ elim (alloc_from_lem bits start n (b + 1) words) [
    | inl (i, bits', e', x) ↦ inl (
      i,
      bits',
      rw (e, alloc_from) e',
      record {
        low_end = omega (arith, x.low_end);
        high_end = omega (arith, x.high_end);
        was_clear = x.was_clear;
        flipped = x.flipped;
      },
    )
    | inr (e', rest) ↦ inr (
      rw (e, alloc_from) e',
      λ i low high. elim (Bool-cases (ltb i ((b + 1) * 4096))) [
        | inl here ↦ full i low (ground (arith, here))
        | inr there ↦ rest i (ground (arith, there)) (omega (arith, high))
      ],
    )
  ]
]

-- `alloc` gives a bit of the bitmap that was clear, sets it and leaves every other bit; it gives none
-- exactly if all bits are set.
pub alloc-IsAllocated :
    (bits : Device) (m : Bitmap)
    → IsWords bits
    → ((i : ℕ) × (bits' : Device) × (alloc bits m ≡ some (i, bits'))
        × IsAllocated bits m.start_block_id 0 m.blocks i bits')
      ⊎ ((alloc bits m ≡ none) × IsFull bits m.start_block_id 0 m.blocks)
unfolding alloc
alloc-IsAllocated bits m words =
    let found = alloc_from_lem bits m.start_block_id m.blocks 0 words in
    let all : 0 + m.blocks ≡ m.blocks = omega arith in rw all at found

-- `dealloc` clears a bit that is set and leaves every other bit; it panics exactly if the bit is clear.
pub dealloc-IsFlipped :
    (bits : Device) (m : Bitmap) (i : ℕ)
    → IsWords bits
    → ((bits' : Device) × (dealloc bits m i ≡ some bits')
        × (bit_of bits m.start_block_id i ≡ true)
        × IsFlipped bits m.start_block_id i false bits')
      ⊎ ((dealloc bits m i ≡ none) × (bit_of bits m.start_block_id i ≡ false))
unfolding dealloc decomposition IsWords
dealloc-IsFlipped bits m i words =
    let start = m.start_block_id in
    let b = i / 4096 in
    let p = i % 4096 / 64 in
    let k = i % 4096 % 64 in
    let w = bits (b + start) p in
    let whole : b * 4096 + p * 64 + k ≡ i = omega arith in
    elim (Bool-cases (test_bit k w)) [
      | inr clear ↦ inr (rw (clear, dealloc, decomposition) refl, clear)
      | inl set ↦
          let flips =
            IsFlipped-set bits start b p k (w - 2 ^ k) false (omega arith) (omega arith)
              (omega (arith, words (b + start) p)) words (λ j. test_bit-minus k j w set) in
          inl (
            set_bits64 bits (b + start) p (w - 2 ^ k),
            rw (set, dealloc, decomposition) refl,
            set,
            rw whole at flips,
          )
    ]
