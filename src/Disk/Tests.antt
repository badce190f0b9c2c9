-- ===== src/Disk/Tests.antt =====
-- Block counts and entries at concrete inputs.
use os_agent.Base.{
  ℕ, ◌+◌, ◌*◌, ◌<◌, ◌≡◌, ◌⊎◌, refl, none, some, List, [], length, replicate, ltb, if◌then◌else◌,
  arith,
}
use os_agent.Disk.{DiskInode, new_inode, file, data_blocks_of, total_blocks, blocks_num_needed}
use os_agent.Disk.Size.{Growth, increase_size}
use os_agent.Disk.Dir.{
  DirEntry, new_entry, name_of, entry_of, as_bytes, zero_free, new_entry-name_of,
}
use os_agent.Calls.Utf8.{is_utf8, utf8_run, utf8_step, is_done, lead}
use os_agent.Disk.Grown.{increase_size_lem}

-- 29 blocks of data take an index block too.
one_index_block : total_blocks (28 * 512 + 1) ≡ 30
unfolding total_blocks data_blocks_of
one_index_block = refl

abbrev words : ℕ → ℕ → ℕ
words block i = block + i

-- The same within an index block, and 0 beyond it.
abbrev cut_words : ℕ → ℕ → ℕ
cut_words block i = if ltb i 128 then block + i else 0

cut_words_agree : (block i : ℕ) → i < 128 → words block i ≡ cut_words block i
cut_words_agree block i h = ground (arith, h)

-- 29 blocks of data on an empty inode take 30 new blocks.
abbrev inode : DiskInode
inode = new_inode file

abbrev new_blocks : List ℕ
new_blocks = replicate 30 7

increase_size_lem_example :
    (g : Growth) × (increase_size words inode (29 * 512) new_blocks ≡ some g) × (g.new_blocks ≡ [])
unfolding blocks_num_needed total_blocks data_blocks_of
increase_size_lem_example =
    increase_size_lem words inode (29 * 512) new_blocks (omega arith) (omega arith) refl

abbrev full_inode : DiskInode
full_inode = record inode { size = 29 * 512 }

-- 28 letters fill the array of the name.
abbrev long_name : List ℕ
long_name = replicate 28 97

new_entry-name_of_example :
    (28 < length long_name × (new_entry long_name 3 ≡ none))
    ⊎ ((e : DirEntry) × (new_entry long_name 3 ≡ some e)
        × (entry_of (as_bytes e) ≡ e)
        × (e.inode_number ≡ 3)
        × (name_of e ≡ (if ltb (length long_name) 28 then some long_name else none)))
unfolding zero_free is_utf8 utf8_run utf8_step is_done lead
new_entry-name_of_example = new_entry-name_of long_name 3 refl refl (omega arith)
