-- ===== src/Vfs.antt =====
-- easy-fs/src/vfs.rs: the look-up of a file in a directory, and the list of its files. Both read only; the
-- device is the bytes of its blocks, and `none` is a panic.
mod Tests
use os_agent.Base.{
  ℕ, zero, suc, ◌+◌, ◌*◌, ◌/◌, ◌≡◌, ◌∙◌, refl, ap, Bool, true, false, ◌||◌, Bool-cases,
  Option-cases, inl, inr, Option, none, some, List, [], ◌∷◌, length, arith, ◌==◌, if◌then◌else◌,
}
use os_agent.BTree.{beq}
use os_agent.BTree.Str.{Str, str_ord}
use os_agent.Attr.Index.{contains}
use os_agent.Disk.{DiskInode, DiskInodeType, file, directory}
use os_agent.Disk.Data.{Bytes, read_at}
use os_agent.Disk.Dir.{DirEntry, dirent_sz, entry_of, name_of}

abbrev pub is_dir : DiskInode → Bool
is_dir inode = elim inode.kind [ file ↦ false | directory ↦ true ]

-- Entry `i`, which must be read whole, and its name.
unfoldable pub dirent_at : Bytes → DiskInode → ℕ → Option (Str × ℕ)
dirent_at bytes inode i = elim (read_at bytes inode (dirent_sz * i) dirent_sz) [
  | none ↦ none
  | some buf ↦
      if length buf == dirent_sz
      then elim (name_of (entry_of buf)) [
        | none ↦ none
        | some name ↦ some (name, (entry_of buf).inode_number)
      ]
      else none
]

-- The loop of `find_inode_id` over `n` entries from `i` on.
unfoldable pub find_from : Bytes → DiskInode → Str → ℕ → ℕ → Option (Option ℕ)
find_from bytes inode name zero i = some none
find_from bytes inode name (suc n) i =
    let rest = find_from bytes inode name n (i + 1) in
    elim (dirent_at bytes inode i) [
      | none ↦ none
      | some (found, inode_id) ↦ if beq found name then some (some inode_id) else rest
    ]

unfoldable pub find_inode_id : Bytes → DiskInode → Str → Option (Option ℕ)
find_inode_id bytes inode name =
    if is_dir inode then find_from bytes inode name (inode.size / dirent_sz) 0 else none

-- The loop of `ls`.
unfoldable pub ls_from : Bytes → DiskInode → ℕ → ℕ → Option (List Str)
ls_from bytes inode zero i = some []
ls_from bytes inode (suc n) i =
    let rest = ls_from bytes inode n (i + 1) in
    elim (dirent_at bytes inode i) [
      | none ↦ none
      | some (name, inode_id) ↦ elim rest [ none ↦ none | some names ↦ some (name ∷ names) ]
    ]

unfoldable pub ls : Bytes → DiskInode → Option (List Str)
ls bytes inode = ls_from bytes inode (inode.size / dirent_sz) 0

unfoldable pub is_found : Option ℕ → Bool
is_found none = false
is_found (some i) = true

ls_from-next :
    (bytes : Bytes) (inode : DiskInode) (n i : ℕ) (names : List Str)
    → ls_from bytes inode (suc n) i ≡ some names
    → (x : Str) × (id : ℕ) × (rest : List Str) × (dirent_at bytes inode i ≡ some (x, id))
      × (ls_from bytes inode n (i + 1) ≡ some rest)
      × (names ≡ x ∷ rest)
unfolding ls_from
ls_from-next bytes inode n i names e = elim (Option-cases (dirent_at bytes inode i)) [
  | inl panic ↦ let e' = rw (panic, ls_from) at e in ground (arith, e')
  | inr (entry, there) ↦ elim (Option-cases (ls_from bytes inode n (i + 1))) [
    | inl panic ↦ let e' = rw (there, ls_from, panic) at e in ground (arith, e')
    | inr (rest, more) ↦
        let e' : ◌≡◌ {A = Option (List Str)} (some (entry.0 ∷ rest)) (some names) =
          rw (there, ls_from, more) at e in
        (entry.0, entry.1, rest, there, more, cc e')
  ]
]

find_from-next :
    (bytes : Bytes) (inode : DiskInode) (name x : Str) (n i id : ℕ)
    → dirent_at bytes inode i ≡ some (x, id)
    → find_from bytes inode name (suc n) i
      ≡ (if beq x name then some (some id) else find_from bytes inode name n (i + 1))
unfolding find_from
find_from-next bytes inode name x n i id e = rw (e, find_from) refl

find_from-ls_from :
    (bytes : Bytes) (inode : DiskInode) (name : Str) (n i : ℕ) (names : List Str)
    → ls_from bytes inode n i ≡ some names
    → (found : Option ℕ) × (find_from bytes inode name n i ≡ some found)
      × (is_found found ≡ contains names name)
unfolding ls_from find_from contains is_found
find_from-ls_from bytes inode name zero i [] e = (none, refl, refl)
find_from-ls_from bytes inode name zero i (x ∷ xs) e = ground (arith, e)
find_from-ls_from bytes inode name (suc n) i names e =
    let (x, id, rest, there, more, all) = ls_from-next bytes inode n i names e in
    let next = find_from-next bytes inode name x n i id there in
    elim (Bool-cases (beq x name)) [
      | inl same ↦ (some id, next ∙ rw same refl, rw (all, contains, same) refl)
      | inr other ↦
          let (found, ran, agree) = find_from-ls_from bytes inode name n (i + 1) rest more in
          (found, next ∙ rw other ran, rw (all, contains, other) agree)
    ]

-- In a directory that `ls` lists without a panic, `find_inode_id` ends without one, and finds a name
-- exactly if it is listed.
pub find_inode_id-ls :
    (bytes : Bytes) (inode : DiskInode) (name : Str) (names : List Str)
    → is_dir inode ≡ true
    → ls bytes inode ≡ some names
    → (found : Option ℕ) × (find_inode_id bytes inode name ≡ some found)
      × (is_found found ≡ contains names name)
unfolding ls find_inode_id
find_inode_id-ls bytes inode name names dir e =
    rw (dir, find_inode_id) (find_from-ls_from bytes inode name (inode.size / dirent_sz) 0 names e)
