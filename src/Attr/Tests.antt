-- ===== src/Attr/Tests.antt =====
-- Tests of os/src/agent/file_attr.rs on a small store, and the theorems at concrete inputs.
use os_agent.Base.{◌≡◌, refl, none, some, List, [], ◌∷◌}
use os_agent.BTree.Str.{Str, str_ord, pair_ord}
use os_agent.Attr.{FileAttrStore, new}
use os_agent.Attr.Index.{contains}
use os_agent.Attr.Update.{IsConsistent}
use os_agent.Attr.Query.{query_indexed, query_full_scan}
use os_agent.Attr.Store.{
  Update, kv, tag, untag, run, new-IsConsistent, run-IsConsistent, queries_agree,
}

-- Two files, "a" and "b".
abbrev a_name : Str
a_name = 97 ∷ []

abbrev b_name : Str
b_name = 98 ∷ []

abbrev x_tag : Str
x_tag = 120 ∷ []

abbrev size_key : Str
size_key = 115 ∷ []

abbrev four_updates : List Update
four_updates =
    tag a_name x_tag ∷ tag b_name x_tag ∷ kv a_name size_key (49 ∷ []) ∷ untag b_name x_tag ∷ []

abbrev small_store : FileAttrStore
small_store = run new four_updates

run-IsConsistent_example : IsConsistent small_store
run-IsConsistent_example = run-IsConsistent new four_updates new-IsConsistent

queries_agree_example :
    contains (query_indexed small_store (some x_tag) none none) a_name
    ≡ contains (query_full_scan small_store (some x_tag) none none) a_name
queries_agree_example = queries_agree four_updates (some x_tag) none none a_name refl
