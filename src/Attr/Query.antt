-- ===== src/Attr/Query.antt =====
-- The queries of os/src/agent/file_attr.rs: by the inverted indices, and by a scan of all files.
pub mod Bytes
pub mod Equal
use os_agent.Base.{
  ℕ, Bool, true, false, not, ◌&&◌, ◌||◌, Option, none, some, List, [], ◌∷◌, ◌++◌, ltb, leb,
  if◌then◌else◌, length, take,
}
use os_agent.BTree.{Map, beq, get, keys}
use os_agent.BTree.Str.{Str, str_ord, pair_ord}
use os_agent.Attr.{FileAttrs, FileAttrStore, owner_key}
use os_agent.Attr.Index.{contains, is_empty, names_or_default}

-- `hay.windows(n)`: the stretches of `n` bytes.
unfoldable pub windows : ℕ → List ℕ → List (List ℕ)
windows n [] = []
windows n (x ∷ xs) =
    let rest = windows n xs in if leb n (length (x ∷ xs)) then take n (x ∷ xs) ∷ rest else []

unfoldable pub memmem : List ℕ → List ℕ → Bool
memmem hay needle =
    if is_empty needle
    then true
    else if ltb (length hay) (length needle)
    then false
    else contains (windows (length needle) hay) needle

unfoldable pub intersect : Option (List Str) → List Str → List Str
intersect none b = b
intersect (some []) b = []
intersect (some (x ∷ prev)) b =
    let rest = intersect (some prev) b in if contains b x then x ∷ rest else rest

-- The names whose file's digest holds the keyword.
unfoldable pub digest_hits : FileAttrStore → Str → List Str → List Str
digest_hits s k [] = []
digest_hits s k (n ∷ names) =
    let rest = digest_hits s k names in
    elim (get n s.by_name) [ none ↦ rest | some a ↦ if memmem a.digest k then n ∷ rest else rest ]

-- The three filters of `query_indexed`, each on the candidates so far.
unfoldable pub filter_tag : FileAttrStore → Option Str → Option (List Str) → Option (List Str)
filter_tag s none candidates = candidates
filter_tag s (some t) candidates =
    some (intersect candidates (names_or_default (get t s.index_tag)))

unfoldable pub filter_owner : FileAttrStore → Option Str → Option (List Str) → Option (List Str)
filter_owner s none candidates = candidates
filter_owner s (some o) candidates =
    some (intersect candidates (names_or_default (get (owner_key, o) s.index_kv)))

unfoldable pub filter_keyword : FileAttrStore → Option Str → Option (List Str) → Option (List Str)
filter_keyword s none candidates = candidates
filter_keyword s (some k) none = some (digest_hits s k (keys s.by_name))
filter_keyword s (some k) (some names) = some (digest_hits s k names)

unfoldable pub query_indexed : FileAttrStore → Option Str → Option Str → Option Str → List Str
query_indexed s tag owner keyword =
    names_or_default (filter_keyword s keyword (filter_owner s owner (filter_tag s tag none)))

-- The three `continue`s of `query_full_scan`.
unfoldable pub has_tag_asked : FileAttrs → Option Str → Bool
has_tag_asked a none = true
has_tag_asked a (some t) = contains a.tags t

unfoldable pub equals : Option Str → Str → Bool
equals none o = false
equals (some w) o = beq w o

unfoldable pub has_owner_asked : FileAttrs → Option Str → Bool
has_owner_asked a none = true
has_owner_asked a (some o) = equals (get owner_key a.kv) o

unfoldable pub has_keyword_asked : FileAttrs → Option Str → Bool
has_keyword_asked a none = true
has_keyword_asked a (some k) = memmem a.digest k

unfoldable pub scan : Map Str FileAttrs → Option Str → Option Str → Option Str → List Str
scan [] tag owner keyword = []
scan ((name, a) ∷ m) tag owner keyword =
    let rest = scan m tag owner keyword in
    if not (has_tag_asked a tag)
    then rest
    else if not (has_owner_asked a owner)
    then rest
    else if not (has_keyword_asked a keyword)
    then rest
    else name ∷ rest

unfoldable pub query_full_scan : FileAttrStore → Option Str → Option Str → Option Str → List Str
query_full_scan s = scan s.by_name
