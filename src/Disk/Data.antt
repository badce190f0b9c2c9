-- ===== src/Disk/Data.antt =====
-- easy-fs/src/layout.rs: `read_at` and `write_at`, over the bytes of each block. The words of an index
-- block are its bytes in little-endian order.
pub mod Reads
pub mod Writes
mod Tests
use Prim.Native.Nat.{◌/◌, ◌%◌, ◌-◌, min}
use os_agent.Base.{
  ℕ, zero, suc, ◌+◌, ◌*◌, Bool, true, false, ◌&&◌, Option, none, some, List, [], ◌∷◌, ◌++◌, length,
  take, drop, get_or, ltb, leb, ◌==◌, if◌then◌else◌, u32_mod,
}
use os_agent.Disk.{block_sz, DiskInode, get_block_id}

abbrev pub Bytes : Type 0
Bytes = ℕ → ℕ → ℕ

unfoldable pub word32 : Bytes → ℕ → ℕ → ℕ
word32 bytes block i =
    bytes block (4 * i)
    + 256
      * (bytes block (4 * i + 1) + 256 * (bytes block (4 * i + 2) + 256 * bytes block (4 * i + 3)))

-- `&data_block[from..from + n]`
unfoldable pub slice_of : Bytes → ℕ → ℕ → ℕ → List ℕ
slice_of bytes block from zero = []
slice_of bytes block from (suc n) = bytes block from ∷ slice_of bytes block (from + 1) n

unfoldable pub copy_into : Bytes → ℕ → ℕ → List ℕ → Bytes
copy_into bytes block from src = λ b p.
    if (b == block) && (leb from p && ltb p (from + length src))
    then get_or src (p - from) 0
    else bytes b p

abbrev pub end_of_block : ℕ → ℕ → ℕ
end_of_block start end = min ((start / block_sz + 1) * block_sz) end

abbrev pub block_at : Bytes → DiskInode → ℕ → ℕ
block_at bytes inode start_block = get_block_id (word32 bytes) inode (start_block % u32_mod)

-- The loop of `read_at`: the bytes that go to the buffer. `none` is out of fuel.
unfoldable pub read_loop : ℕ → Bytes → DiskInode → ℕ → ℕ → ℕ → Option (List ℕ)
read_loop zero bytes inode end start_block start = none
read_loop (suc fuel) bytes inode end start_block start =
    let end_current = end_of_block start end in
    let rest = read_loop fuel bytes inode end (start_block + 1) end_current in
    let src =
      slice_of bytes (block_at bytes inode start_block) (start % block_sz) (end_current - start) in
    if end_current == end
    then some src
    else elim rest [ none ↦ none | some more ↦ some (src ++ more) ]

-- One turn for each block up to that of `end`. The result is the front of the buffer; `read_at` returns
-- its length.
unfoldable pub read_at : Bytes → DiskInode → ℕ → ℕ → Option (List ℕ)
read_at bytes inode offset len =
    let end = min (offset + len) inode.size in
    if leb end offset
    then some []
    else read_loop (end / block_sz + 1) bytes inode end (offset / block_sz) offset

-- The loop of `write_at`, on what is left of the buffer.
unfoldable pub write_loop : ℕ → Bytes → DiskInode → ℕ → ℕ → ℕ → List ℕ → Option Bytes
write_loop zero bytes inode end start_block start buf = none
write_loop (suc fuel) bytes inode end start_block start buf =
    let end_current = end_of_block start end in
    let n = end_current - start in
    let bytes' =
      copy_into bytes (block_at bytes inode start_block) (start % block_sz) (take n buf) in
    let rest = write_loop fuel bytes' inode end (start_block + 1) end_current (drop n buf) in
    if end_current == end then some bytes' else rest

-- How many bytes are written, and the device; `none` is the failed assertion, or out of fuel.
unfoldable pub write_at : Bytes → DiskInode → ℕ → List ℕ → Option (ℕ × Bytes)
write_at bytes inode offset buf =
    let end = min (offset + length buf) inode.size in
    if leb offset end
    then elim (write_loop (end / block_sz + 1) bytes inode end (offset / block_sz) offset buf) [
      | none ↦ none
      | some bytes' ↦ some (end - offset, bytes')
    ]
    else none
