-- ===== src/Files/Tests.antt =====
-- A file of 600 bytes that is open twice, and a table with a gap.
use os_agent.Base.{ℕ, ◌≡◌, refl, true, false, none, some, [], ◌∷◌, arith}
use os_agent.Base.Results.{pos}
use os_agent.Disk.{new_inode, file}
use os_agent.Disk.Data.{Bytes}
use os_agent.Disk.Data.Reads.{file_bytes}
use os_agent.Files.{
  OsInode, new_os_inode, stdin, stdout, os_inode, FdTable, file_at, open_fd, sys_close, read_all,
  Files, sys_read, from_bits, read_write, has_flag,
}
use os_agent.Files.Descriptors.{IsOpened, open_fd-sys_close}
use os_agent.Files.Reading.{
  advanced, IsPositive, read_through, read_all-file_bytes, sys_read-file_bytes,
}

abbrev blank : Bytes
blank b p = 0

abbrev small_file : OsInode
small_file = new_os_inode true false (record (new_inode file) { size = 600; direct = 5 ∷ 9 ∷ [] })

abbrev files : Files
files = record { opened = λ i. small_file; bytes = blank; input = [] }

abbrev gap : FdTable
gap = some stdin ∷ some stdout ∷ none ∷ some (os_inode 1) ∷ []

open_fd-sys_close_example :
    (fd : ℕ) × (fds' : FdTable) × (open_fd gap (os_inode 0) ≡ (pos fd, fds'))
    × IsOpened gap fds' (os_inode 0) fd
    × ((sys_close fds' fd).0 ≡ pos 0)
    × ((g : ℕ) → file_at (sys_close fds' fd).1 g ≡ file_at gap g)
open_fd-sys_close_example = open_fd-sys_close gap (os_inode 0)

read_all-file_bytes_example :
    read_all 3 blank small_file
    ≡ some (file_bytes blank small_file.inode 0 600, advanced small_file 600)
read_all-file_bytes_example = read_all-file_bytes 3 blank small_file (omega arith) (omega arith)

two_slices-IsPositive : IsPositive (90 ∷ 10 ∷ [])
unfolding IsPositive
two_slices-IsPositive = (omega arith, (omega arith, tt))

is_open : file_at gap 3 ≡ some (os_inode 1)
unfolding file_at
is_open = refl

sys_read-file_bytes_example : sys_read files gap 3 (90 ∷ 10 ∷ []) ≡ some (read_through files 1 100)
sys_read-file_bytes_example =
    sys_read-file_bytes files gap 3 1 (90 ∷ 10 ∷ []) is_open refl (omega arith)
      two_slices-IsPositive

-- A flag that there is not, and the flags that open a file.
some_flags :
    (from_bits 4 ≡ none)
    × (from_bits 1539 ≡ some 1539)
    × (read_write 512 ≡ (true, true))
    × (read_write 513 ≡ (false, true))
unfolding from_bits read_write has_flag
some_flags = (refl, refl, refl, refl)
