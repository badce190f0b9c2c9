-- ===== src/Vfs/Tests.antt =====
-- A directory with the files `a` and `b` in the block 5.
use os_agent.Base.{ℕ, ◌≡◌, refl, Option, some, List, [], ◌∷◌, ◌==◌, if◌then◌else◌}
use os_agent.BTree.Str.{Str}
use os_agent.Attr.Index.{contains}
use os_agent.Base.Bytes.{from_le_bytes}
use os_agent.Calls.Utf8.{is_utf8, utf8_run, utf8_step, is_done, lead}
use os_agent.Disk.{DiskInode, new_inode, directory, get_block_id}
use os_agent.Disk.Data.{Bytes, read_at, read_loop, slice_of}
use os_agent.Disk.Dir.{entry_of, name_of, until_zero}
use os_agent.Vfs.{find_inode_id, ls, ls_from, dirent_at, is_found, find_inode_id-ls}

abbrev bytes : Bytes
bytes b p =
    if b == 5
    then (if p == 0
        then 97
        else if p == 28
        then 1
        else if p == 32
        then 98
        else if p == 60
        then 2
        else 0)
    else 0

abbrev inode : DiskInode
inode = record (new_inode directory) { size = 64; direct = 5 ∷ [] }

abbrev names : List Str
names = (97 ∷ []) ∷ (98 ∷ []) ∷ []

ls_test : ls bytes inode ≡ some names
unfolding ls ls_from dirent_at read_at read_loop slice_of get_block_id entry_of name_of until_zero
    from_le_bytes is_utf8 utf8_run utf8_step is_done lead
ls_test = refl

find_inode_id-ls_example :
    (found : Option ℕ) × (find_inode_id bytes inode (98 ∷ []) ≡ some found)
    × (is_found found ≡ contains names (98 ∷ []))
find_inode_id-ls_example = find_inode_id-ls bytes inode (98 ∷ []) names refl ls_test
