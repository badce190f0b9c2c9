-- ===== src/Attr/Index.antt =====
-- The lists of file names and of tags in os/src/agent/file_attr.rs, and the updates of one entry of
-- an inverted index (`index_kv`, `index_tag`).
use os_agent.Base.{
  ◌≡◌, refl, inl, inr, Bool, true, false, Option-cases, ◌&&◌, ◌||◌, Option, none, some, List, [],
  ◌∷◌, ◌++◌, if◌then◌else◌, arith,
}
use os_agent.BTree.{Ord, Map, beq, get, insert, remove}
use os_agent.BTree.Laws.{beq_iff, get-insert, get-remove}
use os_agent.BTree.Str.{Str, str_ord}

-- `iter().any(|n| n == name)`, and `contains`.
unfoldable pub contains : List Str → Str → Bool
contains [] name = false
contains (x ∷ xs) name = beq x name || contains xs name

-- `retain(|f| f != name)`
unfoldable pub retain_ne : List Str → Str → List Str
retain_ne [] name = []
retain_ne (x ∷ xs) name = let rest = retain_ne xs name in if beq x name then rest else x ∷ rest

-- A push of what is not there yet.
unfoldable pub push_new : List Str → Str → List Str
push_new xs name = if contains xs name then xs else xs ++ (name ∷ [])

unfoldable pub is_empty {ℓ} : {A : Type ℓ} → List A → Bool
is_empty [] = true
is_empty (x ∷ xs) = false

unfoldable pub names_or_default : Option (List Str) → List Str
names_or_default none = []
names_or_default (some v) = v

-- The updates of one entry of an index, whatever its keys.
module _ {K : Type 0} ⦃o : Ord K⦄ where
  -- `if let Some(v) = index.get_mut(key) { v.retain(…) }`
  unfoldable pub retain_at : K → Str → Map K (List Str) → Map K (List Str)
  retain_at key name index = elim (get key index) [
    | none ↦ index
    | some v ↦ insert key (retain_ne v name) index
  ]

  -- The same, where an entry that has become empty is removed.
  unfoldable pub drop_at : K → Str → Map K (List Str) → Map K (List Str)
  drop_at key name index = elim (get key index) [
    | none ↦ index
    | some v ↦
        let v' = retain_ne v name in if is_empty v' then remove key index else insert key v' index
  ]

  -- `let entry = index.entry(key).or_default(); if !… { entry.push(name) }`
  unfoldable pub add_at : K → Str → Map K (List Str) → Map K (List Str)
  add_at key name index = insert key (push_new (names_or_default (get key index)) name) index

pub contains_nil : (n : Str) → contains [] n ≡ false
unfolding contains
contains_nil n = refl

contains-append :
    (xs ys : List Str) (n : Str) → contains (xs ++ ys) n ≡ (contains xs n || contains ys n)
unfolding contains
contains-append [] ys n = refl
contains-append (x ∷ xs) ys n = ground (arith, contains-append xs ys n)

pub contains-retain_ne :
    (xs : List Str) (name n : Str)
    → contains (retain_ne xs name) n ≡ (if beq name n then false else contains xs n)
unfolding contains retain_ne
contains-retain_ne [] name n = ground arith
contains-retain_ne (x ∷ xs) name n =
    ground (arith, beq_iff x name, beq_iff name n, beq_iff x n, contains-retain_ne xs name n)

pub contains-push_new :
    (xs : List Str) (name n : Str)
    → contains (push_new xs name) n ≡ (if beq name n then true else contains xs n)
unfolding push_new
contains-push_new xs name n =
    ground (arith, beq_iff name n, contains-append xs (name ∷ []) n, single)
  where
    single : contains (name ∷ []) n ≡ beq name n
    single = unfold contains in ground arith

contains_empty : (xs : List Str) (n : Str) → is_empty xs ≡ true → contains xs n ≡ false
unfolding is_empty contains
contains_empty [] n h = refl
contains_empty (x ∷ xs) n h = ground arith

module _ {K : Type 0} ⦃o : Ord K⦄ where
  -- The index lists the file under the key.
  unfoldable pub lists : Map K (List Str) → K → Str → Bool
  lists index key name = contains (names_or_default (get key index)) name

  pub lists-retain_at :
      (key : K) (name : Str) (index : Map K (List Str)) (k : K) (n : Str)
      → lists (retain_at key name index) k n
        ≡ (if beq key k && beq name n then false else lists index k n)
  unfolding lists retain_at names_or_default
  lists-retain_at key name index k n = elim (Option-cases (get key index)) [
    | inl e ↦ rw (e, retain_at) (ground (arith, beq_iff key k, contains_nil n))
    | inr (v, e) ↦
        rw (e, retain_at)
          (ground (
            arith,
            beq_iff key k,
            get-insert key k (retain_ne v name) index,
            contains-retain_ne v name n,
          ))
  ]

  pub lists-drop_at :
      (key : K) (name : Str) (index : Map K (List Str)) (k : K) (n : Str)
      → lists (drop_at key name index) k n
        ≡ (if beq key k && beq name n then false else lists index k n)
  unfolding lists drop_at names_or_default
  lists-drop_at key name index k n = elim (Option-cases (get key index)) [
    | inl e ↦ rw (e, drop_at) (ground (arith, beq_iff key k, contains_nil n))
    | inr (v, e) ↦
        rw (e, drop_at)
          (ground (
            arith,
            beq_iff key k,
            get-insert key k (retain_ne v name) index,
            get-remove key k index,
            contains_nil n,
            contains_empty (retain_ne v name) n,
            contains-retain_ne v name n,
          ))
  ]

  pub lists-add_at :
      (key : K) (name : Str) (index : Map K (List Str)) (k : K) (n : Str)
      → lists (add_at key name index) k n
        ≡ (if beq key k && beq name n then true else lists index k n)
  unfolding lists add_at names_or_default
  lists-add_at key name index k n = ground (
    arith,
    beq_iff key k,
    get-insert key k (push_new (names_or_default (get key index)) name) index,
    contains-push_new (names_or_default (get key index)) name n,
  )
