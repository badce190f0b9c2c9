-- ===== src/Attr/Query/Equal.antt =====
-- The indexed query and the full scan find the same files.
use os_agent.Base.{
  ◌≡◌, refl, sym, ◌∙◌, inl, inr, Bool, true, false, Option-cases, ◌&&◌, ◌||◌, Option, none, some,
  List, [], ◌∷◌, arith,
}
use os_agent.BTree.{Map, beq, get, keys, AllAbove, IsSorted}
use os_agent.BTree.Laws.{beq_iff, above_ne}
use os_agent.BTree.Str.{Str, str_ord, pair_ord}
use os_agent.Attr.{FileAttrs, FileAttrStore, owner_key}
use os_agent.Attr.Index.{contains, lists, names_or_default}
use os_agent.Attr.Update.{IsConsistent, tagged, valued, is_value}
use os_agent.Attr.Query.{
  memmem, intersect, digest_hits, filter_tag, filter_owner, filter_keyword, query_indexed,
  has_tag_asked, equals, has_owner_asked, has_keyword_asked, scan, query_full_scan,
}

-- The file passes the three filters, by its own attributes.
unfoldable pub passes : FileAttrs → Option Str → Option Str → Option Str → Bool
passes a tag owner keyword =
    has_tag_asked a tag && (has_owner_asked a owner && has_keyword_asked a keyword)

unfoldable pub found : Option FileAttrs → (FileAttrs → Bool) → Bool
found none p = false
found (some a) p = p a

-- The scan lists exactly the files that pass.
contains-scan_absent :
    (m : Map Str FileAttrs) (tag owner keyword : Option Str) (k n : Str)
    → AllAbove k m
    → beq k n ≡ true
    → contains (scan m tag owner keyword) n ≡ false
unfolding scan contains
contains-scan_absent [] tag owner keyword k n h e = refl
contains-scan_absent ((name, a) ∷ m) tag owner keyword k n h e =
    ground (arith, above_ne k name n h.0 e, contains-scan_absent m tag owner keyword k n h.1 e)

pub contains-scan :
    (m : Map Str FileAttrs) (tag owner keyword : Option Str) (n : Str)
    → IsSorted m
    → contains (scan m tag owner keyword) n ≡ found (get n m) (λ a. passes a tag owner keyword)
unfolding scan found passes contains get
contains-scan [] tag owner keyword n h = refl
contains-scan ((name, a) ∷ m) tag owner keyword n h =
    ground
      (arith, contains-scan m tag owner keyword n, contains-scan_absent m tag owner keyword name n)

contains-intersect :
    (prev b : List Str) (n : Str)
    → contains (intersect (some prev) b) n ≡ (contains prev n && contains b n)
unfolding intersect contains
contains-intersect [] b n = refl
contains-intersect (x ∷ prev) b n = ground (arith, beq_iff x n, contains-intersect prev b n)

-- The digest of the file holds the keyword.
unfoldable pub digest_holds : FileAttrStore → Str → Str → Bool
unfolding found
digest_holds s k n = found (get n s.by_name) (λ a. memmem a.digest k)

contains-digest_hits :
    (s : FileAttrStore) (k : Str) (names : List Str) (n : Str)
    → contains (digest_hits s k names) n ≡ (contains names n && digest_holds s k n)
unfolding digest_hits contains digest_holds
contains-digest_hits s k [] n = refl
contains-digest_hits s k (x ∷ names) n =
    ground (arith, beq_iff x n, contains-digest_hits s k names n)

contains-keys :
    (m : Map Str FileAttrs) (n : Str) → contains (keys m) n ≡ found (get n m) (λ a. true)
unfolding keys contains get found
contains-keys [] n = refl
contains-keys ((name, a) ∷ m) n = ground (arith, contains-keys m n)

-- What the indices say of a file, where a filter asks.
tag_listed : FileAttrStore → Option Str → Str → Bool
tag_listed s none n = true
tag_listed s (some t) n = lists s.index_tag t n

owner_listed : FileAttrStore → Option Str → Str → Bool
owner_listed s none n = true
owner_listed s (some o) n = lists s.index_kv (owner_key, o) n

keyword_held : FileAttrStore → Option Str → Str → Bool
keyword_held s none n = true
keyword_held s (some k) n = digest_holds s k n

-- The file is a candidate: before the first filter, every file is.
is_candidate : Option (List Str) → Str → Bool
is_candidate none n = true
is_candidate (some l) n = contains l n

candidate-filter_tag :
    (s : FileAttrStore) (tag : Option Str) (c : Option (List Str)) (n : Str)
    → is_candidate (filter_tag s tag c) n ≡ (is_candidate c n && tag_listed s tag n)
unfolding filter_tag is_candidate tag_listed lists
candidate-filter_tag s none none n = refl
candidate-filter_tag s none (some l) n = ground arith
candidate-filter_tag s (some t) none n = unfold intersect in refl
candidate-filter_tag s (some t) (some l) n = contains-intersect l _ n

candidate-filter_owner :
    (s : FileAttrStore) (owner : Option Str) (c : Option (List Str)) (n : Str)
    → is_candidate (filter_owner s owner c) n ≡ (is_candidate c n && owner_listed s owner n)
unfolding filter_owner is_candidate owner_listed lists
candidate-filter_owner s none none n = refl
candidate-filter_owner s none (some l) n = ground arith
candidate-filter_owner s (some o) none n = unfold intersect in refl
candidate-filter_owner s (some o) (some l) n = contains-intersect l _ n

candidate-filter_keyword :
    (s : FileAttrStore) (keyword : Option Str) (c : Option (List Str)) (n : Str)
    → is_candidate (filter_keyword s keyword c) n ≡ (is_candidate c n && keyword_held s keyword n)
unfolding filter_keyword is_candidate keyword_held
candidate-filter_keyword s none none n = refl
candidate-filter_keyword s none (some l) n = ground arith
candidate-filter_keyword s (some k) none n = contains-digest_hits s k (keys s.by_name) n ∙ known
  where
    known : (contains (keys s.by_name) n && digest_holds s k n) ≡ digest_holds s k n
    known = unfold digest_holds found in ground (arith, contains-keys s.by_name n)
candidate-filter_keyword s (some k) (some l) n = contains-digest_hits s k l n

-- Some filter is given.
abbrev pub is_given : Option Str → Bool
is_given none = false
is_given (some x) = true

names-candidates :
    (s : FileAttrStore) (tag owner keyword : Option Str) (n : Str)
    → (is_given tag || (is_given owner || is_given keyword)) ≡ true
    → contains (query_indexed s tag owner keyword) n
      ≡ is_candidate (filter_keyword s keyword (filter_owner s owner (filter_tag s tag none))) n
unfolding query_indexed filter_keyword filter_owner filter_tag names_or_default is_candidate
names-candidates s (some t) (some o) (some k) n h = refl
names-candidates s (some t) (some o) none n h = refl
names-candidates s (some t) none (some k) n h = refl
names-candidates s (some t) none none n h = refl
names-candidates s none (some o) (some k) n h = refl
names-candidates s none (some o) none n h = refl
names-candidates s none none (some k) n h = refl
names-candidates s none none none n h = cc

module _ (s : FileAttrStore) (n : Str) (h : IsConsistent s) where
  -- The indices agree with the attributes of a file that is there.
  module _ (a : FileAttrs) (e : get n s.by_name ≡ some a) where
    tag_listed_there : (tag : Option Str) → tag_listed s tag n ≡ has_tag_asked a tag
    unfolding tag_listed has_tag_asked tagged
    tag_listed_there none = refl
    tag_listed_there (some t) = h.tags t n ∙ rw e

    owner_listed_there : (owner : Option Str) → owner_listed s owner n ≡ has_owner_asked a owner
    unfolding owner_listed has_owner_asked equals valued is_value
    owner_listed_there none = refl
    owner_listed_there (some o) = h.values owner_key o n ∙ rw e (ground arith)

    keyword_held_there :
        (keyword : Option Str) → keyword_held s keyword n ≡ has_keyword_asked a keyword
    unfolding keyword_held has_keyword_asked digest_holds
    keyword_held_there none = refl
    keyword_held_there (some k) = rw e

  -- A file that is not there is listed nowhere.
  listed_nowhere :
      (tag owner keyword : Option Str)
      → get n s.by_name ≡ none
      → (is_given tag || (is_given owner || is_given keyword)) ≡ true
      → (tag_listed s tag n && (owner_listed s owner n && keyword_held s keyword n)) ≡ false
  unfolding tag_listed owner_listed keyword_held digest_holds tagged valued found
  listed_nowhere (some t) owner keyword e g = rw (h.tags t n, e)
  listed_nowhere none (some o) keyword e g = rw (h.values owner_key o n, e)
  listed_nowhere none none (some k) e g = rw e
  listed_nowhere none none none e g = cc

  listed-eq-passes :
      (tag owner keyword : Option Str)
      → (is_given tag || (is_given owner || is_given keyword)) ≡ true
      → (tag_listed s tag n && (owner_listed s owner n && keyword_held s keyword n))
        ≡ found (get n s.by_name) (λ a. passes a tag owner keyword)
  unfolding found passes
  listed-eq-passes tag owner keyword g = elim (Option-cases (get n s.by_name)) [
    | inl e ↦ rw e (listed_nowhere tag owner keyword e g)
    | inr (a, e) ↦ rw (e, tag_listed_there a e, owner_listed_there a e, keyword_held_there a e)
  ]

-- On a store whose indices are in step, with a filter given, the indexed query finds a file
-- exactly when the full scan finds it.
pub query_indexed-eq-full_scan :
    (s : FileAttrStore) (tag owner keyword : Option Str) (n : Str)
    → IsConsistent s
    → (is_given tag || (is_given owner || is_given keyword)) ≡ true
    → contains (query_indexed s tag owner keyword) n
      ≡ contains (query_full_scan s tag owner keyword) n
unfolding query_full_scan
query_indexed-eq-full_scan s tag owner keyword n h g =
    names-candidates s tag owner keyword n g
    ∙ ground (
      arith,
      candidate-filter_keyword s keyword (filter_owner s owner (filter_tag s tag none)) n,
      candidate-filter_owner s owner (filter_tag s tag none) n,
      candidate-filter_tag s tag none n,
      start,
    )
    ∙ listed-eq-passes s n h tag owner keyword g
    ∙ sym (contains-scan s.by_name tag owner keyword n h.sorted)
  where
    start : is_candidate none n ≡ true
    start = unfold is_candidate in refl
