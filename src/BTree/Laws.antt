-- ===== src/BTree/Laws.antt =====
-- The laws of the map.
use Prim.Native.Nat.{Ordering}
use os_agent.Base.{
  ◌≡◌, ◌↔◌, inl, inr, refl, true, false, Bool-cases, none, some, [], ◌∷◌, if◌then◌else◌, arith,
}
use os_agent.BTree.{Ord, Map, beq, get, insert, remove, AllAbove, IsSorted}

module _ {ℓ} {K : Type ℓ} ⦃o : Ord K⦄ where
  pub beq_iff : (a b : K) → (beq a b ≡ true) ↔ (a ≡ b)
  unfolding beq
  beq_iff a b = (
    (λ h. (o.cmp_eq a b).0 (ground arith)),
    (λ e. let p : o.cmp a b ≡ Ordering.eq = (o.cmp_eq a b).1 e in ground arith),
  )

  beq_refl : (a : K) → beq a a ≡ true
  beq_refl a = (beq_iff a a).1 refl

module _ {ℓ} {K V : Type ℓ} ⦃o : Ord K⦄ where
  pub get-insert :
      (k j : K) (v : V) (m : Map K V) → get j (insert k v m) ≡ (if beq k j then some v else get j m)
  unfolding get insert
  get-insert k j v [] = refl
  get-insert k j v ((i, w) ∷ m) =
      ground (arith, o.cmp_eq k i, beq_iff k j, beq_iff i j, get-insert k j v m)

  pub get-remove :
      (k j : K) (m : Map K V) → get j (remove k m) ≡ (if beq k j then none else get j m)
  unfolding get remove
  get-remove k j [] = ground arith
  get-remove k j ((i, w) ∷ m) =
      ground (arith, beq_iff k j, beq_iff i j, beq_iff i k, get-remove k j m)

  AllAbove-trans : (a b : K) (m : Map K V) → o.cmp a b ≡ Ordering.lt → AllAbove b m → AllAbove a m
  AllAbove-trans a b [] h p = tt
  AllAbove-trans a b ((j, w) ∷ m) h p = (o.cmp_trans a b j h p.0, AllAbove-trans a b m h p.1)

  AllAbove-insert :
      (a k : K) (v : V) (m : Map K V)
      → o.cmp a k ≡ Ordering.lt
      → AllAbove a m
      → AllAbove a (insert k v m)
  unfolding insert
  AllAbove-insert a k v [] h p = (h, tt)
  AllAbove-insert a k v ((j, w) ∷ m) h p = ground (arith, AllAbove-insert a k v m)

  pub insert-IsSorted : (k : K) (v : V) (m : Map K V) → IsSorted m → IsSorted (insert k v m)
  unfolding insert
  insert-IsSorted k v [] s = (tt, tt)
  insert-IsSorted k v ((j, w) ∷ m) s =
      elim (o.cmp k j)
          as (λ c.
            o.cmp k j ≡ c
            → IsSorted (elim c [
              | Ordering.lt ↦ (k, v) ∷ (j, w) ∷ m
              | Ordering.eq ↦ (j, v) ∷ m
              | Ordering.gt ↦ (j, w) ∷ insert k v m
            ])) [
              | Ordering.lt ↦ λ e. ((e, AllAbove-trans k j m e s.0), s)
              | Ordering.eq ↦ λ e. s
              | Ordering.gt ↦
                  λ e. (AllAbove-insert j k v m (o.cmp_gt k j e) s.0, insert-IsSorted k v m s.1)
            ]
        refl

  AllAbove-remove : (a k : K) (m : Map K V) → AllAbove a m → AllAbove a (remove k m)
  unfolding remove
  AllAbove-remove a k [] p = tt
  AllAbove-remove a k ((j, w) ∷ m) p = elim (Bool-cases (beq j k)) [
    | inl e ↦ rw e (AllAbove-remove a k m p.1)
    | inr e ↦ rw e (p.0, AllAbove-remove a k m p.1)
  ]

  pub remove-IsSorted : (k : K) (m : Map K V) → IsSorted m → IsSorted (remove k m)
  unfolding remove
  remove-IsSorted k [] s = tt
  remove-IsSorted k ((j, w) ∷ m) s = elim (Bool-cases (beq j k)) [
    | inl e ↦ rw e (remove-IsSorted k m s.1)
    | inr e ↦ rw e (AllAbove-remove j k m s.0, remove-IsSorted k m s.1)
  ]

  -- A key below every key of the map is not in it.
  get_below : (k : K) (m : Map K V) → AllAbove k m → get k m ≡ none
  unfolding get beq
  get_below k [] p = refl
  get_below k ((j, w) ∷ m) p = ground (arith, o.cmp_eq j k, o.cmp_eq k j, get_below k m p.1)

-- A key that lies above another is not it.
pub above_ne {ℓ} :
    {K : Type ℓ} ⦃o : Ord K⦄ (k j n : K)
    → o.cmp k j ≡ Ordering.lt
    → beq k n ≡ true
    → beq j n ≡ false
unfolding beq
above_ne ⦃o⦄ k j n h e = ground (arith, o.cmp_eq k n, o.cmp_eq j n, o.cmp_eq k j)
