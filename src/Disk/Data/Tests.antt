-- ===== src/Disk/Data/Tests.antt =====
-- A file of 600 bytes in the blocks 5 and 9 of an empty device.
use os_agent.Base.{
  ℕ, zero, suc, ◌/◌, ◌<◌, ◌≡◌, ◌∙◌, sym, refl, Bool, Option, none, some, List, [], ◌∷◌, arith, ◌==◌,
  if◌then◌else◌,
}
use os_agent.Disk.{DiskInode, new_inode, file, get_block_id}
use os_agent.Disk.Data.{
  Bytes, word32, slice_of, copy_into, read_at, read_loop, write_at, write_loop,
}
use os_agent.Disk.Data.Reads.{file_byte}
use os_agent.Disk.Data.Writes.{IsApart, written, write_at-written}

abbrev blank : Bytes
blank b p = 0

abbrev inode : DiskInode
inode = record (new_inode file) { size = 600; direct = 5 ∷ 9 ∷ [] }

abbrev index_block : ℕ → Bool
index_block b = b == 0

block_of : ℕ → ℕ
block_of i = if i == 0 then 5 else 9

get_block_id-inode : (i : ℕ) → i < 2 → get_block_id (word32 blank) inode i ≡ block_of i
unfolding get_block_id block_of
get_block_id-inode zero h = refl
get_block_id-inode (suc zero) h = refl
get_block_id-inode (suc (suc i)) h = absurd (omega (arith, h))

inode-IsApart : IsApart blank inode 600 index_block
unfolding word32 block_of
inode-IsApart = record {
  first = refl;
  second = refl;
  below = λ i h. refl;
  held = λ k h. rw (get_block_id-inode (k / 512) (omega (arith, h))) ground arith;
  apart = λ k k' h h' e.
      let same : block_of (k / 512) ≡ block_of (k' / 512) =
        sym (get_block_id-inode (k / 512) (omega (arith, h)))
        ∙ e
        ∙ get_block_id-inode (k' / 512) (omega (arith, h')) in
      ground (arith, h, h', same);
}

-- Four bytes across the end of the first block.
abbrev buf : List ℕ
buf = 1 ∷ 2 ∷ 3 ∷ 4 ∷ []

write_at-written_example :
    (bytes' : Bytes) × (write_at blank inode 510 buf ≡ some (4, bytes'))
    × ((k : ℕ) → k < 600 → file_byte bytes' inode k ≡ written (file_byte blank inode) 510 4 buf k)
    × IsApart bytes' inode 600 index_block
write_at-written_example =
    write_at-written blank inode 510 buf index_block inode-IsApart (omega arith) (omega arith)
      (omega arith)

abbrev read_back : Option (ℕ × Bytes) → Option (List ℕ)
read_back none = none
read_back (some (n, bytes)) = read_at bytes inode 509 6

write_read_test : read_back (write_at blank inode 510 buf) ≡ some (0 ∷ 1 ∷ 2 ∷ 3 ∷ 4 ∷ 0 ∷ [])
unfolding read_at read_loop write_at write_loop slice_of copy_into get_block_id word32
write_read_test = refl
