-- ===== src/Attr/Store.antt =====
-- The attribute store over its whole life: any sequence of updates from the empty store.
use os_agent.Base.{ℕ, ◌≡◌, refl, ◌∙◌, true, ◌||◌, Option, none, List, [], ◌∷◌, arith}
use os_agent.BTree.{get}
use os_agent.BTree.Str.{Str, str_ord, pair_ord}
use os_agent.Attr.{
  FileAttrStore, owner_key, new, set_kv, add_tag, set_owner, set_digest, remove_tag, remove_kv,
  remove_file,
}
use os_agent.Attr.Index.{contains, lists, names_or_default}
use os_agent.Attr.Update.{
  IsConsistent, tagged, valued, is_some, add_tag-IsConsistent, set_kv-IsConsistent,
  set_digest-IsConsistent,
}
use os_agent.Attr.Removal.{remove_tag-IsConsistent, remove_kv-IsConsistent}
use os_agent.Attr.Removal.File.{remove_file-IsConsistent}
use os_agent.Attr.Query.{
  query_indexed, query_full_scan, filter_keyword, filter_owner, filter_tag, has_tag_asked,
  has_owner_asked, has_keyword_asked,
}
use os_agent.Attr.Query.Equal.{is_given, found, passes, contains-scan, query_indexed-eq-full_scan}

-- A call of one of the store's updates.
pub data Update : Type 0 where
  kv : Str → Str → Str → Update
  tag : Str → Str → Update
  owner : Str → Str → Update
  digest : Str → List ℕ → Update
  untag : Str → Str → Update
  unkv : Str → Str → Update
  unfile : Str → Update

pub apply : FileAttrStore → Update → FileAttrStore
apply s (kv name key value) = set_kv s name key value
apply s (tag name t) = add_tag s name t
apply s (owner name o) = set_owner s name o
apply s (digest name d) = set_digest s name d
apply s (untag name t) = (remove_tag s name t).1
apply s (unkv name key) = (remove_kv s name key).1
apply s (unfile name) = (remove_file s name).1

pub run : FileAttrStore → List Update → FileAttrStore
run s [] = s
run s (u ∷ us) = run (apply s u) us

pub new-IsConsistent : IsConsistent new
unfolding lists names_or_default contains tagged valued get
new-IsConsistent = record { tags = λ t n. refl; values = λ k v n. refl; sorted = tt }

apply-IsConsistent : (s : FileAttrStore) (u : Update) → IsConsistent s → IsConsistent (apply s u)
unfolding apply set_owner
apply-IsConsistent s (kv name key value) h = set_kv-IsConsistent s name key value h
apply-IsConsistent s (tag name t) h = add_tag-IsConsistent s name t h
apply-IsConsistent s (owner name o) h = set_kv-IsConsistent s name owner_key o h
apply-IsConsistent s (digest name d) h = set_digest-IsConsistent s name d h
apply-IsConsistent s (untag name t) h = remove_tag-IsConsistent s name t h
apply-IsConsistent s (unkv name key) h = remove_kv-IsConsistent s name key h
apply-IsConsistent s (unfile name) h = remove_file-IsConsistent s name h

-- Whatever updates are made, one after the other, the inverted indices list a file under a tag or
-- an attribute exactly when the file's own attributes have it, and every file is kept once.
pub run-IsConsistent :
    (s : FileAttrStore) (us : List Update) → IsConsistent s → IsConsistent (run s us)
unfolding run
run-IsConsistent s [] h = h
run-IsConsistent s (u ∷ us) h = run-IsConsistent (apply s u) us (apply-IsConsistent s u h)

-- After any updates of an empty store, a query with a filter finds the same files through the
-- indices as by the scan of all files.
pub queries_agree :
    (us : List Update) (t o k : Option Str) (n : Str)
    → (is_given t || (is_given o || is_given k)) ≡ true
    → contains (query_indexed (run new us) t o k) n
      ≡ contains (query_full_scan (run new us) t o k) n
queries_agree us t o k n g =
    query_indexed-eq-full_scan (run new us) t o k n (run-IsConsistent new us new-IsConsistent) g

-- A query with no filter finds nothing through the indices, and every file by the scan.
pub queries_without_filter :
    (us : List Update) (n : Str)
    → (query_indexed (run new us) none none none ≡ [])
      × (contains (query_full_scan (run new us) none none none) n
          ≡ is_some (get n (run new us).by_name))
queries_without_filter us n = (nothing (run new us), everything)
  where
    nothing : (s : FileAttrStore) → query_indexed s none none none ≡ []
    nothing s = unfold query_indexed filter_keyword filter_owner filter_tag names_or_default in refl

    everything :
        contains (query_full_scan (run new us) none none none) n
        ≡ is_some (get n (run new us).by_name)
    everything =
        unfold query_full_scan found passes has_tag_asked has_owner_asked has_keyword_asked
          is_some in
        contains-scan (run new us).by_name none none none n
          (run-IsConsistent new us new-IsConsistent).sorted
        ∙ ground arith
