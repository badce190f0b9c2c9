-- ===== src/Attr/Removal.antt =====
-- The removals from the attribute store: what they take away, what they report, and that the
-- indices stay in step.
pub mod File
use os_agent.Base.{
  ℕ, suc, ◌+◌, ◌≤◌, ◌≡◌, ◌≢◌, refl, ap, ap₂, sym, ◌∙◌, inl, inr, Bool, true, false, Bool-cases,
  Option-cases, not, ◌&&◌, ◌||◌, Option, none, some, List, [], ◌∷◌, ◌++◌, if◌then◌else◌, arith,
  length, ◌==◌,
}
use os_agent.BTree.{Map, beq, get, insert, remove, IsSorted}
use os_agent.BTree.Laws.{beq_iff, get-insert, get-remove, insert-IsSorted, remove-IsSorted}
use os_agent.BTree.Str.{Str, str_ord, pair_ord}
use os_agent.Attr.{
  FileAttrs, FileAttrStore, remove_tag, without_tag, remove_kv, finish_remove_kv, remove_file,
  drop_all_kv, drop_all_tags,
}
use os_agent.Attr.Index.{
  contains, contains_nil, retain_ne, contains-retain_ne, lists, lists-drop_at, drop_at,
}
use os_agent.Attr.Update.{IsConsistent, tagged, valued, is_value, has_key, no_value, beq-pair}

length-retain_ne-le : (xs : List Str) (t : Str) → length (retain_ne xs t) ≤ length xs
unfolding retain_ne
length-retain_ne-le [] t = omega arith
length-retain_ne-le (x ∷ xs) t = ground (arith, length-retain_ne-le xs t)

-- The length changes exactly when there was something to take.
shorter_iff_contains :
    (xs : List Str) (t : Str) → not (length (retain_ne xs t) == length xs) ≡ contains xs t
unfolding retain_ne contains
shorter_iff_contains [] t = ground arith
shorter_iff_contains (x ∷ xs) t =
    ground (arith, length-retain_ne-le xs t, shorter_iff_contains xs t)

tagged-remove_tag :
    (s : FileAttrStore) (name tag n t : Str)
    → tagged (get n (remove_tag s name tag).1.by_name) t
      ≡ (if beq name n && beq tag t then false else tagged (get n s.by_name) t)
unfolding tagged without_tag remove_tag
tagged-remove_tag s name tag n t = elim (Option-cases (get name s.by_name)) [
  | inl e ↦ rw (e, remove_tag) (ground (arith, beq_iff name n))
  | inr (a, e) ↦
      rw (e, remove_tag, get-insert)
        (ground (arith, beq_iff name n, contains-retain_ne a.tags tag t))
]

valued-remove_tag :
    (s : FileAttrStore) (name tag n k v : Str)
    → valued (get n (remove_tag s name tag).1.by_name) k v ≡ valued (get n s.by_name) k v
unfolding valued without_tag remove_tag
valued-remove_tag s name tag n k v = elim (Option-cases (get name s.by_name)) [
  | inl e ↦ rw (e, remove_tag)
  | inr (a, e) ↦ rw (e, remove_tag, get-insert) (ground (arith, beq_iff name n))
]

index_tag-remove_tag :
    (s : FileAttrStore) (name tag : Str)
    → (remove_tag s name tag).1.index_tag ≡ drop_at tag name s.index_tag
unfolding remove_tag
index_tag-remove_tag s name tag = ground arith

index_kv-remove_tag :
    (s : FileAttrStore) (name tag : Str) → (remove_tag s name tag).1.index_kv ≡ s.index_kv
unfolding remove_tag
index_kv-remove_tag s name tag = ground arith

remove_tag-IsSorted :
    (s : FileAttrStore) (name tag : Str)
    → IsSorted s.by_name
    → IsSorted (remove_tag s name tag).1.by_name
unfolding remove_tag
remove_tag-IsSorted s name tag h = elim (Option-cases (get name s.by_name)) [
  | inl e ↦ rw (e, remove_tag) h
  | inr (a, e) ↦ rw (e, remove_tag) (insert-IsSorted name _ s.by_name h)
]

pub remove_tag-IsConsistent :
    (s : FileAttrStore) (name tag : Str) → IsConsistent s → IsConsistent (remove_tag s name tag).1
remove_tag-IsConsistent s name tag h = record {
  tags = λ t n.
      ap (λ index. lists index t n) (index_tag-remove_tag s name tag)
      ∙ lists-drop_at tag name s.index_tag t n
      ∙ ground (arith, h.tags t n)
      ∙ sym (tagged-remove_tag s name tag n t);
  values = λ k v n.
      ap (λ index. lists index (k, v) n) (index_kv-remove_tag s name tag)
      ∙ h.values k v n
      ∙ sym (valued-remove_tag s name tag n k v);
  sorted = remove_tag-IsSorted s name tag h.sorted;
}

remove_tag_reports :
    (s : FileAttrStore) (name tag : Str)
    → (remove_tag s name tag).0 ≡ tagged (get name s.by_name) tag
unfolding remove_tag tagged
remove_tag_reports s name tag = elim (Option-cases (get name s.by_name)) [
  | inl e ↦ rw (e, remove_tag)
  | inr (a, e) ↦ rw (e, remove_tag) (shorter_iff_contains a.tags tag)
]

-- `remove_tag` reports whether the file had the tag; afterwards the file is without it, and
-- every other file and tag is as it was.
pub remove_tag_effect :
    (s : FileAttrStore) (name tag : Str)
    → ((remove_tag s name tag).0 ≡ tagged (get name s.by_name) tag)
      × ((n t : Str)
          → tagged (get n (remove_tag s name tag).1.by_name) t
            ≡ (if beq name n && beq tag t then false else tagged (get n s.by_name) t))
      × ((n k v : Str)
          → valued (get n (remove_tag s name tag).1.by_name) k v ≡ valued (get n s.by_name) k v)
remove_tag_effect s name tag =
    (remove_tag_reports s name tag, tagged-remove_tag s name tag, valued-remove_tag s name tag)

-- What `remove_kv` leaves, by the file that was there.
remove_kv-none :
    (s : FileAttrStore) (name key : Str)
    → get name s.by_name ≡ none
    → remove_kv s name key ≡ (false, s)
unfolding remove_kv
remove_kv-none s name key e = rw (e, remove_kv)

by_name-finish_remove_kv :
    (s : FileAttrStore) (name key : Str) (old : Option Str)
    → (finish_remove_kv s name key old).1.by_name ≡ s.by_name
unfolding finish_remove_kv
by_name-finish_remove_kv s name key none = refl
by_name-finish_remove_kv s name key (some v) = refl

index_tag-finish_remove_kv :
    (s : FileAttrStore) (name key : Str) (old : Option Str)
    → (finish_remove_kv s name key old).1.index_tag ≡ s.index_tag
unfolding finish_remove_kv
index_tag-finish_remove_kv s name key none = refl
index_tag-finish_remove_kv s name key (some v) = refl

lists-finish_remove_kv :
    (s : FileAttrStore) (name key : Str) (old : Option Str) (k v n : Str)
    → lists (finish_remove_kv s name key old).1.index_kv (k, v) n
      ≡ (if beq name n && (beq key k && is_value old v) then false else lists s.index_kv (k, v) n)
unfolding finish_remove_kv is_value
lists-finish_remove_kv s name key none k v n = ground arith
lists-finish_remove_kv s name key (some old) k v n =
    lists-drop_at (key, old) name s.index_kv (k, v) n ∙ ground (arith, beq-pair key old k v)

-- The store with the attribute taken out of the file, before the index is mended.
abbrev taken : FileAttrStore → Str → Str → FileAttrs → FileAttrStore
taken s name key a = record s {
  by_name = insert name (record a { kv = remove key a.kv }) s.by_name;
}

remove_kv-some :
    (s : FileAttrStore) (name key : Str) {a : FileAttrs}
    → get name s.by_name ≡ some a
    → remove_kv s name key ≡ finish_remove_kv (taken s name key a) name key (get key a.kv)
unfolding remove_kv
remove_kv-some s name key e = rw (e, remove_kv)

tagged-remove_kv :
    (s : FileAttrStore) (name key n t : Str)
    → tagged (get n (remove_kv s name key).1.by_name) t ≡ tagged (get n s.by_name) t
unfolding tagged
tagged-remove_kv s name key n t = elim (Option-cases (get name s.by_name)) [
  | inl e ↦ rw (remove_kv-none s name key e)
  | inr (a, e) ↦
      rw (remove_kv-some s name key e, by_name-finish_remove_kv, get-insert)
        (ground (arith, beq_iff name n))
]

valued-remove_kv :
    (s : FileAttrStore) (name key n k v : Str)
    → valued (get n (remove_kv s name key).1.by_name) k v
      ≡ (if beq name n && beq key k then false else valued (get n s.by_name) k v)
unfolding valued is_value
valued-remove_kv s name key n k v = elim (Option-cases (get name s.by_name)) [
  | inl e ↦ rw (remove_kv-none s name key e) (ground (arith, beq_iff name n))
  | inr (a, e) ↦
      rw (remove_kv-some s name key e, by_name-finish_remove_kv, get-insert)
        (ground (arith, beq_iff name n, get-remove key k a.kv))
]

pub remove_kv-IsConsistent :
    (s : FileAttrStore) (name key : Str) → IsConsistent s → IsConsistent (remove_kv s name key).1
remove_kv-IsConsistent s name key h = elim (Option-cases (get name s.by_name)) [
  | inl e ↦ rw (remove_kv-none s name key e) h
  | inr (a, e) ↦ record {
    tags = λ t n.
        ap (λ (r : Bool × FileAttrStore). lists r.1.index_tag t n) (remove_kv-some s name key e)
        ∙ ap (λ index. lists index t n)
            (index_tag-finish_remove_kv (taken s name key a) name key (get key a.kv))
        ∙ h.tags t n
        ∙ sym (tagged-remove_kv s name key n t);
    values = λ k v n.
        ap (λ (r : Bool × FileAttrStore). lists r.1.index_kv (k, v) n) (remove_kv-some s name key e)
        ∙ lists-finish_remove_kv (taken s name key a) name key (get key a.kv) k v n
        ∙ ground (arith, h.values k v n, value_there a e k v, beq_iff name n, beq_iff key k)
        ∙ sym (valued-remove_kv s name key n k v);
    sorted =
        rw (remove_kv-some s name key e, by_name-finish_remove_kv)
          (insert-IsSorted name _ s.by_name h.sorted);
  }
]
  where
    value_there :
        (a : FileAttrs)
        → get name s.by_name ≡ some a
        → (k v : Str) → valued (get name s.by_name) k v ≡ is_value (get k a.kv) v
    value_there a e k v = unfold valued in rw e

remove_kv_reports :
    (s : FileAttrStore) (name key : Str)
    → (remove_kv s name key).0 ≡ has_key (get name s.by_name) key
unfolding remove_kv finish_remove_kv has_key
remove_kv_reports s name key = ground arith

-- `remove_kv` reports whether the file had a value under the key; afterwards the file is without
-- it, and every other attribute and every tag is as it was.
pub remove_kv_effect :
    (s : FileAttrStore) (name key : Str)
    → ((remove_kv s name key).0 ≡ has_key (get name s.by_name) key)
      × ((n k v : Str)
          → valued (get n (remove_kv s name key).1.by_name) k v
            ≡ (if beq name n && beq key k then false else valued (get n s.by_name) k v))
      × ((n t : Str)
          → tagged (get n (remove_kv s name key).1.by_name) t ≡ tagged (get n s.by_name) t)
remove_kv_effect s name key =
    (remove_kv_reports s name key, valued-remove_kv s name key, tagged-remove_kv s name key)
