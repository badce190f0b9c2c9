-- ===== src/Attr/Update.antt =====
-- The updates of the attribute store keep the indices in step with the files' own attributes.
use os_agent.Base.{
  ℕ, ◌≡◌, refl, sym, ◌∙◌, Bool, true, false, ◌&&◌, Option, none, some, List, [], if◌then◌else◌,
  arith,
}
use os_agent.BTree.{Map, beq, get, insert, IsSorted}
use os_agent.BTree.Laws.{beq_iff, get-insert, insert-IsSorted}
use os_agent.BTree.Str.{Str, str_ord, pair_ord, cmp_pair}
use os_agent.Attr.{
  FileAttrs, FileAttrStore, attrs_or_default, attrs_of, forget_old, set_kv, add_tag, set_digest,
}
use os_agent.Attr.Index.{
  contains, contains_nil, contains-push_new, lists, lists-retain_at, lists-add_at,
}

-- The file has the tag, by its own attributes.
unfoldable pub tagged : Option FileAttrs → Str → Bool
tagged none tag = false
tagged (some a) tag = contains a.tags tag

unfoldable pub is_value : Option Str → Str → Bool
is_value none value = false
is_value (some w) value = beq w value

pub no_value : (key value : Str) → is_value (get key []) value ≡ false
unfolding get is_value
no_value key value = refl

-- The file has the value under the key, by its own attributes.
unfoldable pub valued : Option FileAttrs → Str → Str → Bool
valued none key value = false
valued (some a) key value = is_value (get key a.kv) value

unfoldable pub is_some {ℓ} : {A : Type ℓ} → Option A → Bool
is_some none = false
is_some (some a) = true

-- The file has some value under the key.
unfoldable pub has_key : Option FileAttrs → Str → Bool
unfolding is_some
has_key none key = false
has_key (some a) key = is_some (get key a.kv)

-- The indices list exactly what the files' attributes say, and every file once.
pub record IsConsistent (s : FileAttrStore) : Type 0 where
  pub tags : (tag name : Str) → lists s.index_tag tag name ≡ tagged (get name s.by_name) tag
  pub values :
      (key value name : Str)
      → lists s.index_kv (key, value) name ≡ valued (get name s.by_name) key value
  pub sorted : IsSorted s.by_name

pub beq-pair : (a b c d : Str) → beq {K = Str × Str} (a, b) (c, d) ≡ (beq a c && beq b d)
unfolding beq cmp_pair
beq-pair a b c d = ground arith

-- What `add_tag` does to what the files have.
tagged-add_tag :
    (s : FileAttrStore) (name tag n t : Str)
    → tagged (get n (add_tag s name tag).by_name) t
      ≡ (if beq name n && beq tag t then true else tagged (get n s.by_name) t)
unfolding add_tag attrs_of attrs_or_default tagged
tagged-add_tag s name tag n t =
    rw get-insert (
      ground
        (arith, beq_iff name n, contains-push_new (attrs_of s name).tags tag t, contains_nil t))

valued-add_tag :
    (s : FileAttrStore) (name tag n k v : Str)
    → valued (get n (add_tag s name tag).by_name) k v ≡ valued (get n s.by_name) k v
unfolding add_tag attrs_of attrs_or_default valued
valued-add_tag s name tag n k v = rw get-insert (ground (arith, beq_iff name n, no_value k v))

tagged-set_kv :
    (s : FileAttrStore) (name key value n t : Str)
    → tagged (get n (set_kv s name key value).by_name) t ≡ tagged (get n s.by_name) t
unfolding set_kv attrs_of attrs_or_default tagged
tagged-set_kv s name key value n t = rw get-insert (ground (arith, beq_iff name n, contains_nil t))

valued-set_kv :
    (s : FileAttrStore) (name key value n k v : Str)
    → valued (get n (set_kv s name key value).by_name) k v
      ≡ (if beq name n && beq key k then beq value v else valued (get n s.by_name) k v)
unfolding set_kv attrs_of attrs_or_default valued is_value
valued-set_kv s name key value n k v =
    rw get-insert
      (ground (arith, beq_iff name n, no_value k v, get-insert key k value (attrs_of s name).kv))

pub add_tag-IsConsistent :
    (s : FileAttrStore) (name tag : Str) → IsConsistent s → IsConsistent (add_tag s name tag)
unfolding add_tag
add_tag-IsConsistent s name tag h = record {
  tags = λ t n.
      lists-add_at tag name s.index_tag t n
      ∙ ground (arith, h.tags t n)
      ∙ sym (tagged-add_tag s name tag n t);
  values = λ k v n. h.values k v n ∙ sym (valued-add_tag s name tag n k v);
  sorted = insert-IsSorted name _ s.by_name h.sorted;
}

lists-forget_old :
    (name key : Str) (old : Option Str) (index : Map (Str × Str) (List Str)) (k v n : Str)
    → lists (forget_old name key old index) (k, v) n
      ≡ (if beq name n && (beq key k && is_value old v) then false else lists index (k, v) n)
unfolding forget_old is_value
lists-forget_old name key none index k v n = ground arith
lists-forget_old name key (some old) index k v n =
    lists-retain_at (key, old) name index (k, v) n ∙ ground (arith, beq-pair key old k v)

valued-attrs_of :
    (s : FileAttrStore) (name key v : Str)
    → valued (get name s.by_name) key v ≡ is_value (get key (attrs_of s name).kv) v
unfolding valued attrs_of attrs_or_default
valued-attrs_of s name key v = ground (arith, no_value key v)

pub set_kv-IsConsistent :
    (s : FileAttrStore) (name key value : Str)
    → IsConsistent s
    → IsConsistent (set_kv s name key value)
unfolding set_kv
set_kv-IsConsistent s name key value h = record {
  tags = λ t n. h.tags t n ∙ sym (tagged-set_kv s name key value n t);
  values = λ k v n.
      let old = get key (attrs_of s name).kv in
      lists-add_at (key, value) name (forget_old name key old s.index_kv) (k, v) n
      ∙ ground (
        arith,
        beq-pair key value k v,
        lists-forget_old name key old s.index_kv k v n,
        h.values k v n,
        valued-attrs_of s name key v,
        beq_iff name n,
        beq_iff key k,
      )
      ∙ sym (valued-set_kv s name key value n k v);
  sorted = insert-IsSorted name _ s.by_name h.sorted;
}

pub set_digest-IsConsistent :
    (s : FileAttrStore) (name : Str) (digest : List ℕ)
    → IsConsistent s
    → IsConsistent (set_digest s name digest)
unfolding set_digest
set_digest-IsConsistent s name digest h = record {
  tags = λ t n. h.tags t n ∙ sym (same_tags t n);
  values = λ k v n. h.values k v n ∙ sym (same_values k v n);
  sorted = insert-IsSorted name _ s.by_name h.sorted;
}
  where
    new_attrs : FileAttrs
    new_attrs = record (attrs_of s name) { digest = digest }

    same_tags :
        (t n : Str)
        → tagged (get n (insert name new_attrs s.by_name)) t ≡ tagged (get n s.by_name) t
    same_tags t n =
        unfold attrs_of attrs_or_default tagged in
        rw get-insert (ground (arith, beq_iff name n, contains_nil t))

    same_values :
        (k v n : Str)
        → valued (get n (insert name new_attrs s.by_name)) k v ≡ valued (get n s.by_name) k v
    same_values k v n =
        unfold attrs_of attrs_or_default valued in
        rw get-insert (ground (arith, beq_iff name n, no_value k v))
