-- ===== src/Files.antt =====
-- os/src/fs (inode.rs, stdio.rs), os/src/syscall/fs.rs and the descriptors of os/src/task/task.rs: what an
-- open file is, and how a program reads it. A file that is open is its place in `opened`, since forked
-- tasks share it. `none` is a panic, or that the loop has not come to its end.
pub mod Descriptors
pub mod Reading
mod Tests
use Prim.Native.Nat.{◌+◌, ◌*◌, ◌/◌, ◌%◌}
use os_agent.Base.{
  ℕ, zero, suc, Bool, true, false, Option, none, some, List, [], ◌∷◌, ◌++◌, length, leb, ◌==◌, not,
  ◌&&◌, ◌||◌, if◌then◌else◌,
}
use os_agent.Base.Results.{ISize, pos, negsuc}
use os_agent.Disk.{DiskInode}
use os_agent.Disk.Data.{Bytes, read_at}
use os_agent.Calls.Utf8.{is_utf8}

abbrev pub wronly : ℕ
wronly = 1

-- `contains` for a flag of one bit.
unfoldable pub has_flag : ℕ → ℕ → Bool
has_flag flags flag = flags / flag % 2 == 1

-- `OpenFlags::from_bits`: `none` unless all bits are those of flags.
unfoldable pub from_bits : ℕ → Option ℕ
from_bits flags = if (flags / 4 % 128 == 0) && (flags / 2048 == 0) then some flags else none

unfoldable pub read_write : ℕ → Bool × Bool
read_write flags =
    if flags == 0
    then (true, false)
    else if has_flag flags wronly
    then (false, true)
    else (true, true)

-- The disk inode is what the inode finds in its block.
pub record OsInode : Type 0 where
  pub readable : Bool
  pub writable : Bool
  pub offset : ℕ
  pub inode : DiskInode

abbrev pub new_os_inode : Bool → Bool → DiskInode → OsInode
new_os_inode readable writable inode = record {
  readable = readable;
  writable = writable;
  offset = 0;
  inode = inode;
}

pub data File : Type 0 where
  stdin stdout : File
  os_inode : ℕ → File

abbrev pub FdTable : Type 0
FdTable = List (Option File)

-- The first three descriptors of a new task.
abbrev pub new_fds : FdTable
new_fds = some stdin ∷ some stdout ∷ some stdout ∷ []

-- The copy of the table that `fork` makes.
unfoldable pub copy_fds : FdTable → FdTable
copy_fds [] = []
copy_fds (none ∷ fds) = none ∷ copy_fds fds
copy_fds (some file ∷ fds) = some file ∷ copy_fds fds

-- The least free descriptor, and the table with a place for it.
unfoldable pub alloc_fd : FdTable → ℕ × FdTable
alloc_fd [] = (0, none ∷ [])
alloc_fd (none ∷ fds) = (0, none ∷ fds)
alloc_fd (some file ∷ fds) = let (fd, fds') = alloc_fd fds in (suc fd, some file ∷ fds')

unfoldable pub set_fd : FdTable → ℕ → Option File → FdTable
set_fd [] fd file = []
set_fd (old ∷ fds) zero file = file ∷ fds
set_fd (old ∷ fds) (suc fd) file = old ∷ set_fd fds fd file

-- What `fd_table[fd]` holds, or nothing past the end.
unfoldable pub file_at : FdTable → ℕ → Option File
file_at [] fd = none
file_at (file ∷ fds) zero = file
file_at (file ∷ fds) (suc fd) = file_at fds fd

-- The end of `sys_open`, on the file that `open_file` found.
unfoldable pub open_fd : FdTable → File → ISize × FdTable
open_fd fds file = let (fd, fds') = alloc_fd fds in (pos fd, set_fd fds' fd (some file))

unfoldable pub sys_close : FdTable → ℕ → ISize × FdTable
sys_close fds fd =
    if leb (length fds) fd
    then (negsuc 0, fds)
    else elim (file_at fds fd) [ none ↦ (negsuc 0, fds) | some file ↦ (pos 0, set_fd fds fd none) ]

-- `Stdout::write`: each slice must be a text of its own.
unfoldable pub print_slices : List (List ℕ) → Option (List ℕ)
print_slices [] = some []
print_slices (slice ∷ slices) =
    let rest = print_slices slices in
    if is_utf8 slice then elim rest [ none ↦ none | some more ↦ some (slice ++ more) ] else none

-- The loop of `read_all`; `none` is out of fuel.
unfoldable pub read_all : ℕ → Bytes → OsInode → Option (List ℕ × OsInode)
read_all zero bytes f = none
read_all (suc fuel) bytes f = elim (read_at bytes f.inode f.offset 512) [
  | none ↦ none
  | some [] ↦ some ([], f)
  | some (b ∷ bs) ↦ elim (read_all fuel bytes (record f { offset = f.offset + length (b ∷ bs) })) [
    | none ↦ none
    | some (more, f') ↦ some ((b ∷ bs) ++ more, f')
  ]
]

-- `OSInode::read`, on the lengths of the slices: the bytes of each slice in their order.
unfoldable pub read_slices : Bytes → OsInode → List ℕ → Option (List ℕ × OsInode)
read_slices bytes f [] = some ([], f)
read_slices bytes f (len ∷ lens) = elim (read_at bytes f.inode f.offset len) [
  | none ↦ none
  | some [] ↦ some ([], f)
  | some (b ∷ bs) ↦
      elim (read_slices bytes (record f { offset = f.offset + length (b ∷ bs) }) lens) [
        | none ↦ none
        | some (more, f') ↦ some ((b ∷ bs) ++ more, f')
      ]
]

-- The first character that `console_getchar` gives; 0 is none yet, and the task waits.
unfoldable pub first_char : List ℕ → Option (ℕ × List ℕ)
first_char [] = none
first_char (c ∷ input) = if c == 0 then first_char input else some (c % 256, input)

abbrev pub sum : List ℕ → ℕ
sum [] = 0
sum (n ∷ ns) = n + sum ns

-- The open files, the device, and what the console will give.
pub record Files : Type 0 where
  pub opened : ℕ → OsInode
  pub bytes : Bytes
  pub input : List ℕ

abbrev pub is_readable : Files → File → Bool
is_readable s stdin = true
is_readable s stdout = false
is_readable s (os_inode i) = (s.opened i).readable

-- `File::read`: the bytes that go to the buffer.
unfoldable pub read_file : Files → File → List ℕ → Option (List ℕ × Files)
read_file s stdin lens =
    if sum lens == 1
    then elim (first_char s.input) [
      | none ↦ none
      | some (c, input) ↦ some (c ∷ [], record s { input = input })
    ]
    else none
read_file s stdout lens = none
read_file s (os_inode i) lens = elim (read_slices s.bytes (s.opened i) lens) [
  | none ↦ none
  | some (read, f) ↦ some (read, record s { opened = λ j. if j == i then f else s.opened j })
]

-- `lens` are the lengths of the slices of the user's buffer.
unfoldable pub sys_read : Files → FdTable → ℕ → List ℕ → Option (ISize × (List ℕ × Files))
sys_read s fds fd lens =
    if leb (length fds) fd then some (negsuc 0, ([], s)) else elim (file_at fds fd) [
      | none ↦ some (negsuc 0, ([], s))
      | some file ↦
          if not (is_readable s file)
          then some (negsuc 0, ([], s))
          else elim (read_file s file lens) [
            | none ↦ none
            | some (read, s') ↦ some (pos (length read), (read, s'))
          ]
    ]
