-- ===== src/Bitmap/Bits.antt =====
-- The bits of a word after one of them is set or taken away.
use native.Mathlib.Nat.{pow-suc}
use os_agent.Base.{
  ℕ, zero, suc, ◌+◌, ◌*◌, ◌/◌, ◌%◌, ◌-◌, ◌^◌, ◌<◌, ◌≤◌, ◌≡◌, refl, true, false, Bool-cases, inl,
  inr, arith, ◌==◌, if◌then◌else◌,
}
use os_agent.Bitmap.{test_bit, or_bit, trailing_ones}

pub test_bit-or_bit :
    (i j w : ℕ) → test_bit j (or_bit i w) ≡ (if j == i then true else test_bit j w)
unfolding test_bit or_bit
test_bit-or_bit zero zero w = ground arith
test_bit-or_bit zero (suc j) w =
    let half : (w / 2 * 2 + 1) / 2 ≡ w / 2 = omega arith in rw half (ground arith)
test_bit-or_bit (suc i) zero w = ground arith
test_bit-or_bit (suc i) (suc j) w =
    let half : (or_bit i (w / 2) * 2 + w % 2) / 2 ≡ or_bit i (w / 2) = omega arith in
    rw half (ground (arith, test_bit-or_bit i j (w / 2)))

-- A word that is not full has a bit that is not set, and `trailing_ones` is the first.
pub test_bit-trailing_ones :
    (n w : ℕ) → w + 1 < 2 ^ n → (trailing_ones n w < n) × (test_bit (trailing_ones n w) w ≡ false)
unfolding test_bit trailing_ones
test_bit-trailing_ones zero w h = absurd (omega (arith, h))
test_bit-trailing_ones (suc n) w h = elim (Bool-cases (w % 2 == 1)) [
  | inr even ↦ rw (even, trailing_ones) (omega arith, ground (arith, even))
  | inl odd ↦
      let one : w % 2 ≡ 1 = ground (arith, odd) in
      let (below, clear) = test_bit-trailing_ones n (w / 2) (omega (arith, h, one, pow-suc 2 n)) in
      rw (odd, trailing_ones) (omega (arith, below), clear)
]

pub test_bit-max : (n i w : ℕ) → i < n → w + 1 ≡ 2 ^ n → test_bit i w ≡ true
unfolding test_bit
test_bit-max zero i w h e = absurd (omega (arith, h))
test_bit-max (suc n) zero w h e = let odd : w % 2 ≡ 1 = omega (arith, e, pow-suc 2 n) in rw odd refl
test_bit-max (suc n) (suc i) w h e =
    test_bit-max n i (w / 2) (omega (arith, h)) (omega (arith, e, pow-suc 2 n))

pub test_bit-le : (i w : ℕ) → test_bit i w ≡ true → 2 ^ i ≤ w
unfolding test_bit
test_bit-le zero w h = ground (arith, h)
test_bit-le (suc i) w h = omega (arith, test_bit-le i (w / 2) h, pow-suc 2 i)

-- Taking away a bit that is set leaves the others.
pub test_bit-minus :
    (i j w : ℕ)
    → test_bit i w ≡ true
    → test_bit j (w - 2 ^ i) ≡ (if j == i then false else test_bit j w)
unfolding test_bit
test_bit-minus zero zero w h = ground (arith, h)
test_bit-minus zero (suc j) w h =
    let odd : w % 2 ≡ 1 = ground (arith, h) in
    let half : (w - 1) / 2 ≡ w / 2 = omega (arith, odd) in rw half (ground arith)
test_bit-minus (suc i) zero w h =
    let le = test_bit-le i (w / 2) h in
    let same : (w - 2 ^ suc i) % 2 ≡ w % 2 = omega (arith, le, pow-suc 2 i) in
    rw same (ground arith)
test_bit-minus (suc i) (suc j) w h =
    let le = test_bit-le i (w / 2) h in
    let half : (w - 2 ^ suc i) / 2 ≡ w / 2 - 2 ^ i = omega (arith, le, pow-suc 2 i) in
    rw half (ground (arith, test_bit-minus i j (w / 2) h))

pub or_bit-lt : (n i w : ℕ) → i < n → w < 2 ^ n → or_bit i w < 2 ^ n
unfolding or_bit
or_bit-lt zero i w h a = absurd (omega (arith, h))
or_bit-lt (suc n) zero w h a = omega (arith, a, pow-suc 2 n)
or_bit-lt (suc n) (suc i) w h a =
    let half = or_bit-lt n i (w / 2) (omega (arith, h)) (omega (arith, a, pow-suc 2 n)) in
    omega (arith, half, pow-suc 2 n)
