-- ===== src/BTree/Str.antt =====
-- Rust's strings as their UTF-8 bytes, compared byte by byte (`Ord` of `str`), and pairs of them.
use Prim.Native.Nat.{Ordering, compare}
use os_agent.Base.{ℕ, ◌≡◌, ◌↔◌, refl, List, [], ◌∷◌, arith}
use os_agent.BTree.{Ord}

abbrev pub Str : Type 0
Str = List ℕ

unfoldable pub cmp_str : Str → Str → Ordering
cmp_str [] [] = Ordering.eq
cmp_str [] (y ∷ ys) = Ordering.lt
cmp_str (x ∷ xs) [] = Ordering.gt
cmp_str (x ∷ xs) (y ∷ ys) = elim (compare x y) [
  | Ordering.lt ↦ Ordering.lt
  | Ordering.eq ↦ cmp_str xs ys
  | Ordering.gt ↦ Ordering.gt
]

pub cmp_str_eq : (a b : Str) → (cmp_str a b ≡ Ordering.eq) ↔ (a ≡ b)
unfolding cmp_str
cmp_str_eq [] [] = ground arith
cmp_str_eq [] (y ∷ ys) = ground arith
cmp_str_eq (x ∷ xs) [] = ground arith
cmp_str_eq (x ∷ xs) (y ∷ ys) = ground (arith, cmp_str_eq xs ys)

pub cmp_str_gt : (a b : Str) → cmp_str a b ≡ Ordering.gt → cmp_str b a ≡ Ordering.lt
unfolding cmp_str
cmp_str_gt [] [] h = ground arith
cmp_str_gt [] (y ∷ ys) h = ground arith
cmp_str_gt (x ∷ xs) [] h = ground arith
cmp_str_gt (x ∷ xs) (y ∷ ys) h = ground (arith, cmp_str_gt xs ys)

pub cmp_str_trans :
    (a b c : Str)
    → cmp_str a b ≡ Ordering.lt
    → cmp_str b c ≡ Ordering.lt
    → cmp_str a c ≡ Ordering.lt
unfolding cmp_str
cmp_str_trans [] [] c h k = ground arith
cmp_str_trans [] (y ∷ ys) [] h k = ground arith
cmp_str_trans [] (y ∷ ys) (z ∷ zs) h k = refl
cmp_str_trans (x ∷ xs) [] c h k = ground arith
cmp_str_trans (x ∷ xs) (y ∷ ys) [] h k = ground arith
cmp_str_trans (x ∷ xs) (y ∷ ys) (z ∷ zs) h k = ground (arith, cmp_str_trans xs ys zs)

instance abbrev pub str_ord : Ord Str
str_ord = record {
  cmp = cmp_str;
  cmp_eq = cmp_str_eq;
  cmp_gt = cmp_str_gt;
  cmp_trans = cmp_str_trans;
}

-- A pair is compared by its first part, then by its second.
unfoldable pub cmp_pair : Str × Str → Str × Str → Ordering
cmp_pair (a, b) (c, d) = elim (cmp_str a c) [
  | Ordering.lt ↦ Ordering.lt
  | Ordering.eq ↦ cmp_str b d
  | Ordering.gt ↦ Ordering.gt
]

pub cmp_pair_eq : (a b : Str × Str) → (cmp_pair a b ≡ Ordering.eq) ↔ (a ≡ b)
unfolding cmp_pair
cmp_pair_eq (a, b) (c, d) = ground (arith, cmp_str_eq a c, cmp_str_eq b d)

pub cmp_pair_gt : (a b : Str × Str) → cmp_pair a b ≡ Ordering.gt → cmp_pair b a ≡ Ordering.lt
unfolding cmp_pair
cmp_pair_gt (a, b) (c, d) h =
    ground (arith, cmp_str_eq a c, cmp_str_eq c a, cmp_str_gt a c, cmp_str_gt b d)

pub cmp_pair_trans :
    (a b c : Str × Str)
    → cmp_pair a b ≡ Ordering.lt
    → cmp_pair b c ≡ Ordering.lt
    → cmp_pair a c ≡ Ordering.lt
unfolding cmp_pair
cmp_pair_trans (a, b) (c, d) (e, f) h k = ground (
  arith,
  cmp_str_eq a c,
  cmp_str_eq c e,
  cmp_str_eq a e,
  cmp_str_trans a c e,
  cmp_str_trans b d f,
)

instance abbrev pub pair_ord : Ord (Str × Str)
pair_ord = record {
  cmp = cmp_pair;
  cmp_eq = cmp_pair_eq;
  cmp_gt = cmp_pair_gt;
  cmp_trans = cmp_pair_trans;
}
