-- ===== src/Base/Bytes.antt =====
-- A user address space as the bytes at its virtual addresses, with the copies in and out that
-- os/src/agent/context_area.rs makes (`read_user_bytes`, `write_user_bytes`), and the
-- little-endian form of a word (`to_le_bytes`, `from_le_bytes`).
use Prim.Native.Nat.{ℕ, zero, suc, ◌+◌, ◌-◌, ◌*◌, ◌/◌, ◌%◌, ◌^◌, ◌≤◌, ◌<◌}
use mathlib.Core.Path.{◌≡◌, refl, ◌∙◌, ap, ap₂}
use mathlib.Core.Bool.{◌&&◌}
use mathlib.Core.List.{List, [], ◌∷◌, ◌++◌}
use native.Mathlib.Nat.{pow-suc}
use native.Mathlib.Omega.{arith}
use os_agent.Base.Tests.{ltb, leb, if◌then◌else◌}
use os_agent.Base.Lists.{length, get_or}

abbrev pub UserMemory : Type 0
UserMemory = ℕ → ℕ

-- The `n` bytes from address `a` on.
unfoldable pub read_user_bytes : UserMemory → ℕ → ℕ → List ℕ
read_user_bytes mem a zero = []
read_user_bytes mem a (suc n) = mem a ∷ read_user_bytes mem (a + 1) n

-- `bytes` at the addresses from `a` on, and every other byte as it was.
unfoldable pub write_user_bytes : UserMemory → ℕ → List ℕ → UserMemory
write_user_bytes mem a bytes x =
    if leb a x && ltb x (a + length bytes) then get_or bytes (x - a) 0 else mem x

-- `to_le_bytes` of a word of `w` bytes.
unfoldable pub to_le_bytes : ℕ → ℕ → List ℕ
to_le_bytes zero x = []
to_le_bytes (suc w) x = x % 256 ∷ to_le_bytes w (x / 256)

unfoldable pub from_le_bytes : List ℕ → ℕ
from_le_bytes [] = 0
from_le_bytes (b ∷ bs) = b + 256 * from_le_bytes bs

pub length-read_user_bytes : (mem : UserMemory) (a n : ℕ) → length (read_user_bytes mem a n) ≡ n
unfolding read_user_bytes
length-read_user_bytes mem a zero = refl
length-read_user_bytes mem a (suc n) = ap suc (length-read_user_bytes mem (a + 1) n)

pub length-to_le_bytes : (w x : ℕ) → length (to_le_bytes w x) ≡ w
unfolding to_le_bytes
length-to_le_bytes zero x = refl
length-to_le_bytes (suc w) x = ap suc (length-to_le_bytes w (x / 256))

pub get_or-read_user_bytes :
    (mem : UserMemory) (a n i : ℕ) → i < n → get_or (read_user_bytes mem a n) i 0 ≡ mem (a + i)
unfolding read_user_bytes
get_or-read_user_bytes mem a zero i h = elim h [ ]
get_or-read_user_bytes mem a (suc n) zero h = ap mem (omega arith)
get_or-read_user_bytes mem a (suc n) (suc i) h =
    get_or-read_user_bytes mem (a + 1) n i (omega arith) ∙ ap mem (omega arith)

-- Equal bytes read equal.
pub read_user_bytes_ext :
    (m m' : UserMemory) (a b n : ℕ)
    → ((i : ℕ) → i < n → m (a + i) ≡ m' (b + i))
    → read_user_bytes m a n ≡ read_user_bytes m' b n
unfolding read_user_bytes
read_user_bytes_ext m m' a b zero h = refl
read_user_bytes_ext m m' a b (suc n) h = ap₂ ◌∷◌ (cc (h 0 (omega arith), a0, b0)) (
    read_user_bytes_ext m m' (a + 1) (b + 1) n
      (λ i p. cc (h (suc i) (omega arith), move a i, move b i)))
  where
    a0 : a + 0 ≡ a
    a0 = omega arith

    b0 : b + 0 ≡ b
    b0 = omega arith

    move : (c i : ℕ) → c + 1 + i ≡ c + suc i
    move c i = omega arith

-- A list is its bytes.
list_ext :
    (xs ys : List ℕ)
    → length xs ≡ length ys
    → ((i : ℕ) → i < length xs → get_or xs i 0 ≡ get_or ys i 0)
    → xs ≡ ys
list_ext [] [] e h = refl
list_ext [] (y ∷ ys) e h = absurd (omega arith)
list_ext (x ∷ xs) [] e h = absurd (omega arith)
list_ext (x ∷ xs) (y ∷ ys) e h =
    ap₂ ◌∷◌ (h 0 (omega arith)) (list_ext xs ys (omega arith) (λ i p. h (suc i) (omega arith)))

module _ (mem : UserMemory) (a : ℕ) (bytes : List ℕ) where
  pub write_inside :
      (i : ℕ) → i < length bytes → write_user_bytes mem a bytes (a + i) ≡ get_or bytes i 0
  unfolding write_user_bytes
  write_inside i h = let e : a + i - a ≡ i = omega arith in ground arith

  pub write_below : (x : ℕ) → x < a → write_user_bytes mem a bytes x ≡ mem x
  unfolding write_user_bytes
  write_below x h = ground arith

  pub write_above : (x : ℕ) → a + length bytes ≤ x → write_user_bytes mem a bytes x ≡ mem x
  unfolding write_user_bytes
  write_above x h = ground arith

  -- What is written reads back.
  pub read-write_self : read_user_bytes (write_user_bytes mem a bytes) a (length bytes) ≡ bytes
  read-write_self = list_ext _ bytes (length-read_user_bytes _ a (length bytes)) (λ i h.
      back i
        (omega (arith, length-read_user_bytes (write_user_bytes mem a bytes) a (length bytes))))
    where
      back :
          (i : ℕ)
          → i < length bytes
          → get_or (read_user_bytes (write_user_bytes mem a bytes) a (length bytes)) i 0
            ≡ get_or bytes i 0
      back i h = get_or-read_user_bytes _ a (length bytes) i h ∙ write_inside i h

  -- A read below or above the write is not touched by it.
  pub read-write_below :
      (b n : ℕ)
      → b + n ≤ a
      → read_user_bytes (write_user_bytes mem a bytes) b n ≡ read_user_bytes mem b n
  read-write_below b n h =
      read_user_bytes_ext _ mem b b n (λ i p. write_below (b + i) (omega arith))

  pub read-write_above :
      (b n : ℕ)
      → a + length bytes ≤ b
      → read_user_bytes (write_user_bytes mem a bytes) b n ≡ read_user_bytes mem b n
  read-write_above b n h =
      read_user_bytes_ext _ mem b b n (λ i p. write_above (b + i) (omega arith))

-- A read of two pieces.
pub read-append :
    (mem : UserMemory) (a n k : ℕ)
    → read_user_bytes mem a (n + k) ≡ read_user_bytes mem a n ++ read_user_bytes mem (a + n) k
unfolding read_user_bytes
read-append mem a zero k = ap₂ (read_user_bytes mem) (omega arith) (omega arith)
read-append mem a (suc n) k =
    ap (λ j. read_user_bytes mem a j) shift
    ∙ ap (◌∷◌ (mem a)) (
        read-append mem (a + 1) n k
        ∙ ap (λ b. read_user_bytes mem (a + 1) n ++ read_user_bytes mem b k) (omega arith))
  where
    shift : suc n + k ≡ suc (n + k)
    shift = omega arith

-- The little-endian form reads back, for a word of any width that holds the value.
pub from_le-to_le : (w x : ℕ) → x < 256 ^ w → from_le_bytes (to_le_bytes w x) ≡ x
unfolding to_le_bytes from_le_bytes
from_le-to_le zero x h = omega arith
from_le-to_le (suc w) x h = omega (arith, from_le-to_le w (x / 256) (below h))
  where
    below : x < 256 ^ suc w → x / 256 < 256 ^ w
    below p = omega (arith, pow-suc 256 w)
