-- ===== src/Attr/Query/Bytes.antt =====
-- `memmem` of os/src/agent/file_attr.rs decides whether the bytes of the keyword stand in the digest.
use os_agent.Base.{
  ℕ, zero, suc, ◌<◌, ◌≡◌, ◌↔◌, refl, ap, sym, ◌∙◌, inl, inr, true, Bool-cases, List, [], ◌∷◌, ◌++◌,
  arith, length, take, drop, length-append,
}
use os_agent.BTree.{beq}
use os_agent.BTree.Laws.{beq_iff}
use os_agent.BTree.Str.{str_ord}
use os_agent.Attr.Index.{contains, is_empty}
use os_agent.Attr.Query.{windows, memmem}

-- The needle stands somewhere in the hay.
abbrev pub IsInside : List ℕ → List ℕ → Type 0
IsInside needle hay = (pre : List ℕ) × (post : List ℕ) × (hay ≡ pre ++ (needle ++ post))

take-append-drop : (n : ℕ) (xs : List ℕ) → take n xs ++ drop n xs ≡ xs
take-append-drop zero xs = refl
take-append-drop (suc n) [] = refl
take-append-drop (suc n) (x ∷ xs) = ap (◌∷◌ x) (take-append-drop n xs)

take-length-append : (xs ys : List ℕ) → take (length xs) (xs ++ ys) ≡ xs
take-length-append [] ys = refl
take-length-append (x ∷ xs) ys = ap (◌∷◌ x) (take-length-append xs ys)

IsInside-of_window :
    (needle hay : List ℕ)
    → contains (windows (length needle) hay) needle ≡ true
    → IsInside needle hay
unfolding windows contains
IsInside-of_window needle [] h = cc
IsInside-of_window needle (x ∷ xs) h =
    elim (Bool-cases (beq (take (length needle) (x ∷ xs)) needle)) [
      | inl here ↦ (
        [],
        drop (length needle) (x ∷ xs),
        sym (take-append-drop (length needle) (x ∷ xs))
            ∙ ap (λ w. w ++ drop (length needle) (x ∷ xs)) ((beq_iff _ needle).0 here),
      )
      | inr later ↦
          let (pre, post, e) = IsInside-of_window needle xs (ground arith) in
          (x ∷ pre, post, ap (◌∷◌ x) e)
    ]

window_of_inside :
    (needle pre post : List ℕ)
    → 0 < length needle
    → contains (windows (length needle) (pre ++ (needle ++ post))) needle ≡ true
unfolding windows contains
window_of_inside [] pre post h = absurd (omega arith)
window_of_inside (y ∷ ys) [] post h =
    ground
      (arith, take-length-append ys post, length-append ys post, (beq_iff (y ∷ ys) (y ∷ ys)).1 refl)
window_of_inside (y ∷ ys) (x ∷ pre) post h = ground (
  arith,
  length-append pre (y ∷ (ys ++ post)),
  length-append ys post,
  window_of_inside (y ∷ ys) pre post h,
)

-- `memmem` says yes exactly when the needle stands in the hay.
pub memmem_iff : (hay needle : List ℕ) → (memmem hay needle ≡ true) ↔ IsInside needle hay
unfolding memmem is_empty
memmem_iff hay [] = ((λ h. ([], hay, refl)), λ h. refl)
memmem_iff hay (y ∷ ys) = (
  (λ h. IsInside-of_window (y ∷ ys) hay (ground arith)),
  λ (pre, post, e). rw e (
      ground (
        arith,
        length-append pre (y ∷ (ys ++ post)),
        length-append ys post,
        window_of_inside (y ∷ ys) pre post (omega arith),
      )),
)
