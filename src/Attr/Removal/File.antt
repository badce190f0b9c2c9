-- ===== src/Attr/Removal/File.antt =====
-- `remove_file` of os/src/agent/file_attr.rs.
use os_agent.Base.{
  ◌≡◌, ◌∙◌, inl, inr, Bool, true, false, Option-cases, ◌&&◌, ◌||◌, none, some, List, [], ◌∷◌,
  if◌then◌else◌, arith,
}
use os_agent.BTree.{Map, beq, get, remove}
use os_agent.BTree.Laws.{beq_iff, get-remove, remove-IsSorted}
use os_agent.BTree.Str.{Str, str_ord, pair_ord}
use os_agent.Attr.{FileAttrs, FileAttrStore, remove_file, drop_all_kv, drop_all_tags}
use os_agent.Attr.Index.{contains, lists, lists-drop_at, drop_at}
use os_agent.Attr.Update.{IsConsistent, tagged, valued, is_value, is_some, beq-pair}

-- The attributes hold the entry.
has_entry : Map Str Str → Str → Str → Bool
has_entry [] k v = false
has_entry ((key, value) ∷ kv) k v = beq key k && beq value v || has_entry kv k v

entry_of_value :
    (kv : Map Str Str) (k v : Str) → is_value (get k kv) v ≡ true → has_entry kv k v ≡ true
unfolding has_entry get is_value
entry_of_value [] k v h = h
entry_of_value ((key, value) ∷ kv) k v h = ground (arith, entry_of_value kv k v)

lists-drop_all_kv :
    (kv : Map Str Str) (name : Str) (index : Map (Str × Str) (List Str)) (k v n : Str)
    → lists (drop_all_kv kv name index) (k, v) n
      ≡ (if beq name n && has_entry kv k v then false else lists index (k, v) n)
unfolding drop_all_kv has_entry
lists-drop_all_kv [] name index k v n = ground arith
lists-drop_all_kv ((key, value) ∷ kv) name index k v n =
    lists-drop_all_kv kv name (drop_at (key, value) name index) k v n
    ∙ ground (arith, lists-drop_at (key, value) name index (k, v) n, beq-pair key value k v)

lists-drop_all_tags :
    (tags : List Str) (name : Str) (index : Map Str (List Str)) (t n : Str)
    → lists (drop_all_tags tags name index) t n
      ≡ (if beq name n && contains tags t then false else lists index t n)
unfolding drop_all_tags contains
lists-drop_all_tags [] name index t n = ground arith
lists-drop_all_tags (tag ∷ tags) name index t n =
    lists-drop_all_tags tags name (drop_at tag name index) t n
    ∙ ground (arith, lists-drop_at tag name index t n)

remove_file-none :
    (s : FileAttrStore) (name : Str) → get name s.by_name ≡ none → remove_file s name ≡ (false, s)
unfolding remove_file
remove_file-none s name e = rw (e, remove_file)

-- The store that `remove_file` leaves where the file is there.
abbrev gone : FileAttrStore → Str → FileAttrs → FileAttrStore
gone s name a = record {
  by_name = remove name s.by_name;
  index_kv = drop_all_kv a.kv name s.index_kv;
  index_tag = drop_all_tags a.tags name s.index_tag;
}

remove_file-some :
    (s : FileAttrStore) (name : Str) {a : FileAttrs}
    → get name s.by_name ≡ some a
    → remove_file s name ≡ (true, gone s name a)
unfolding remove_file
remove_file-some s name e = rw (e, remove_file)

module _ (s : FileAttrStore) (name : Str) (a : FileAttrs) (h : IsConsistent s)
    (e : get name s.by_name ≡ some a) where
  tag_there : (t : Str) → tagged (get name s.by_name) t ≡ contains a.tags t
  unfolding tagged
  tag_there t = rw e

  value_there : (k v : Str) → valued (get name s.by_name) k v ≡ is_value (get k a.kv) v
  unfolding valued
  value_there k v = rw e

  gone-IsConsistent : IsConsistent (gone s name a)
  unfolding tagged valued
  gone-IsConsistent = record {
    tags = λ t n.
        lists-drop_all_tags a.tags name s.index_tag t n
        ∙ ground (arith, h.tags t n, tag_there t, get-remove name n s.by_name, beq_iff name n);
    values = λ k v n.
        lists-drop_all_kv a.kv name s.index_kv k v n
        ∙ ground (
          arith,
          h.values k v n,
          value_there k v,
          entry_of_value a.kv k v,
          get-remove name n s.by_name,
          beq_iff name n,
        );
    sorted = remove-IsSorted name s.by_name h.sorted;
  }

pub remove_file-IsConsistent :
    (s : FileAttrStore) (name : Str) → IsConsistent s → IsConsistent (remove_file s name).1
remove_file-IsConsistent s name h = elim (Option-cases (get name s.by_name)) [
  | inl e ↦ rw (remove_file-none s name e) h
  | inr (a, e) ↦ rw (remove_file-some s name e) (gone-IsConsistent s name a h e)
]

remove_file_reports :
    (s : FileAttrStore) (name : Str) → (remove_file s name).0 ≡ is_some (get name s.by_name)
unfolding remove_file is_some
remove_file_reports s name = ground arith

by_name-remove_file :
    (s : FileAttrStore) (name n : Str)
    → get n (remove_file s name).1.by_name ≡ (if beq name n then none else get n s.by_name)
by_name-remove_file s name n = elim (Option-cases (get name s.by_name)) [
  | inl e ↦ rw (remove_file-none s name e) (ground (arith, beq_iff name n))
  | inr (a, e) ↦ rw (remove_file-some s name e) (get-remove name n s.by_name)
]

-- `remove_file` takes the file's entry away, keeps every other file as it was, and reports whether
-- the file was there.
pub remove_file_effect :
    (s : FileAttrStore) (name : Str)
    → ((remove_file s name).0 ≡ is_some (get name s.by_name))
      × ((n : Str)
          → get n (remove_file s name).1.by_name ≡ (if beq name n then none else get n s.by_name))
remove_file_effect s name = (remove_file_reports s name, by_name-remove_file s name)
