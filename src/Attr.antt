-- ===== src/Attr.antt =====
-- os/src/agent/file_attr.rs: the attributes of files, kept by file name, with an inverted index of
-- the `kv` attributes and one of the tags.
pub mod Index
pub mod Update
pub mod Removal
pub mod Store
pub mod Query
mod Tests
use os_agent.Base.{
  ℕ, ◌≡◌, Bool, true, false, not, ◌&&◌, ◌||◌, Option, none, some, List, [], ◌∷◌, ◌++◌, ltb, leb,
  ◌==◌, if◌then◌else◌, length, take,
}
use os_agent.BTree.{Map, beq, get, insert, remove, keys}
use os_agent.Attr.Index.{
  contains, retain_ne, push_new, is_empty, names_or_default, retain_at, drop_at, add_at,
}
use os_agent.BTree.Str.{Str, str_ord, pair_ord}

pub record FileAttrs : Type 0 where
  pub kv : Map Str Str
  pub tags : List Str
  pub digest : List ℕ

-- `FileAttrs::default()`
abbrev pub default : FileAttrs
default = record { kv = []; tags = []; digest = [] }

pub record FileAttrStore : Type 0 where
  pub by_name : Map Str FileAttrs
  pub index_kv : Map (Str × Str) (List Str)
  pub index_tag : Map Str (List Str)

-- `FileAttrStore::new`
abbrev pub new : FileAttrStore
new = record { by_name = []; index_kv = []; index_tag = [] }

-- `entry(key).or_default()`, read.
unfoldable pub attrs_or_default : Option FileAttrs → FileAttrs
attrs_or_default none = default
attrs_or_default (some a) = a

unfoldable pub attrs_of : FileAttrStore → Str → FileAttrs
attrs_of s name = attrs_or_default (get name s.by_name)

-- The index without the entry of the value that is overwritten.
unfoldable pub forget_old :
    Str → Str → Option Str → Map (Str × Str) (List Str) → Map (Str × Str) (List Str)
forget_old name key none index = index
forget_old name key (some old) index = retain_at (key, old) name index

unfoldable pub set_kv : FileAttrStore → Str → Str → Str → FileAttrStore
set_kv s name key value =
    let attrs = attrs_of s name in
    let without_old = forget_old name key (get key attrs.kv) s.index_kv in
    record s {
      by_name = insert name (record attrs { kv = insert key value attrs.kv }) s.by_name;
      index_kv = add_at (key, value) name without_old;
    }

unfoldable pub add_tag : FileAttrStore → Str → Str → FileAttrStore
add_tag s name tag =
    let attrs = attrs_of s name in
    record s {
      by_name = insert name (record attrs { tags = push_new attrs.tags tag }) s.by_name;
      index_tag = add_at tag name s.index_tag;
    }

-- "owner"
abbrev pub owner_key : Str
owner_key = b'o' ∷ b'w' ∷ b'n' ∷ b'e' ∷ b'r' ∷ []

unfoldable pub set_owner : FileAttrStore → Str → Str → FileAttrStore
set_owner s name owner = set_kv s name owner_key owner

unfoldable pub set_digest : FileAttrStore → Str → List ℕ → FileAttrStore
set_digest s name digest = record s {
  by_name = insert name (record (attrs_of s name) { digest = digest }) s.by_name;
}

-- `attrs.tags.len() != before` after the `retain`.
unfoldable pub without_tag : FileAttrs → Str → FileAttrs
without_tag a tag = record a { tags = retain_ne a.tags tag }

unfoldable pub remove_tag : FileAttrStore → Str → Str → Bool × FileAttrStore
remove_tag s name tag =
    let index = drop_at tag name s.index_tag in
    elim (get name s.by_name) [
      | none ↦ (false, record s { index_tag = index })
      | some a ↦ (
        not (length (retain_ne a.tags tag) == length a.tags),
        record s { by_name = insert name (without_tag a tag) s.by_name; index_tag = index },
      )
    ]

-- The value that the removal took out of the file's attributes decides what follows.
unfoldable pub finish_remove_kv : FileAttrStore → Str → Str → Option Str → Bool × FileAttrStore
finish_remove_kv s name key none = (false, s)
finish_remove_kv s name key (some old) =
    (true, record s { index_kv = drop_at (key, old) name s.index_kv })

unfoldable pub remove_kv : FileAttrStore → Str → Str → Bool × FileAttrStore
remove_kv s name key = elim (get name s.by_name) [
  | none ↦ (false, s)
  | some a ↦
      finish_remove_kv
        (record s { by_name = insert name (record a { kv = remove key a.kv }) s.by_name }) name key
        (get key a.kv)
]

-- The two loops of `remove_file`.
unfoldable pub drop_all_kv :
    Map Str Str → Str → Map (Str × Str) (List Str) → Map (Str × Str) (List Str)
drop_all_kv [] name index = index
drop_all_kv ((key, value) ∷ kv) name index = drop_all_kv kv name (drop_at (key, value) name index)

unfoldable pub drop_all_tags : List Str → Str → Map Str (List Str) → Map Str (List Str)
drop_all_tags [] name index = index
drop_all_tags (tag ∷ tags) name index = drop_all_tags tags name (drop_at tag name index)

unfoldable pub remove_file : FileAttrStore → Str → Bool × FileAttrStore
remove_file s name = elim (get name s.by_name) [
  | none ↦ (false, s)
  | some a ↦ (
    true,
    record {
      by_name = remove name s.by_name;
      index_kv = drop_all_kv a.kv name s.index_kv;
      index_tag = drop_all_tags a.tags name s.index_tag;
    },
  )
]
