-- ===== src/Disk/Data/Reads.antt =====
-- `read_at` reads the bytes of the file.
use Prim.Native.Nat.{min}
use os_agent.Base.{
  ℕ, zero, suc, ◌+◌, ◌/◌, ◌%◌, ◌-◌, ◌<◌, ◌≤◌, ◌≡◌, refl, ap, Bool-cases, inl, inr, some, List, [],
  ◌∷◌, ◌++◌, arith, leb, ◌==◌, u32_mod,
}
use os_agent.Disk.{DiskInode, get_block_id}
use os_agent.Disk.Data.{Bytes, word32, slice_of, end_of_block, block_at, read_loop, read_at}

-- Byte `k` of the file.
unfoldable pub file_byte : Bytes → DiskInode → ℕ → ℕ
file_byte bytes inode k = bytes (get_block_id (word32 bytes) inode (k / 512)) (k % 512)

unfoldable pub file_bytes : Bytes → DiskInode → ℕ → ℕ → List ℕ
file_bytes bytes inode k zero = []
file_bytes bytes inode k (suc n) = file_byte bytes inode k ∷ file_bytes bytes inode (k + 1) n

-- The part of a block is that of the file.
slice_of_lem :
    (bytes : Bytes) (inode : DiskInode) (n k block at from : ℕ)
    → k / 512 ≡ block
    → from ≡ k % 512
    → from + n ≤ 512
    → at ≡ get_block_id (word32 bytes) inode block
    → slice_of bytes at from n ≡ file_bytes bytes inode k n
unfolding slice_of file_bytes file_byte
slice_of_lem bytes inode zero k block at from e f h g = refl
slice_of_lem bytes inode (suc zero) k block at from e f h g = rw (g, f, e) refl
slice_of_lem bytes inode (suc (suc n)) k block at from e f h g =
    let rest =
      slice_of_lem bytes inode (suc n) (k + 1) block at (from + 1) (omega (arith, e, f, h))
        (omega (arith, f, h)) (omega (arith, h)) g in
    let first : bytes at from ≡ bytes (get_block_id (word32 bytes) inode (k / 512)) (k % 512) =
      rw (g, f, e) refl in
    cc (rest, first)

pub file_bytes_append :
    (bytes : Bytes) (inode : DiskInode) (m n k k' total : ℕ)
    → k' ≡ k + m
    → total ≡ m + n
    → file_bytes bytes inode k m ++ file_bytes bytes inode k' n ≡ file_bytes bytes inode k total
unfolding file_bytes
file_bytes_append bytes inode zero n k k' total e t =
    let same : k' ≡ k = omega (arith, e) in
    let all : total ≡ n = omega (arith, t) in rw (same, all) refl
file_bytes_append bytes inode (suc m) n k k' zero e t = absurd (omega (arith, t))
file_bytes_append bytes inode (suc m) n k k' (suc total) e t =
    ap (λ xs. file_byte bytes inode k ∷ xs)
      (file_bytes_append bytes inode m n (k + 1) k' total (omega (arith, e)) (omega (arith, t)))

read_loop_lem :
    (fuel : ℕ) (bytes : Bytes) (inode : DiskInode) (end block start : ℕ)
    → start < end
    → end < u32_mod
    → block ≡ start / 512
    → end / 512 < start / 512 + fuel
    → read_loop fuel bytes inode end block start ≡ some (file_bytes bytes inode start (end - start))
unfolding read_loop
read_loop_lem zero bytes inode end block start a b c d = absurd (omega (arith, a, d))
read_loop_lem (suc fuel) bytes inode end block start a b c d =
    let stop = end_of_block start end in
    let id = block_at bytes inode block in
    let inner : block % u32_mod ≡ block = omega (arith, a, b, c) in
    let src =
      slice_of_lem bytes inode (stop - start) start block id (start % 512) (omega (arith, c)) refl
        (omega arith) (rw inner refl) in
    elim (Bool-cases (stop == end)) [
      | inl last ↦
          let same : stop ≡ end = ground (arith, last) in rw (last, read_loop, src, same) refl
      | inr more ↦
          let below : stop < end = ground (arith, more) in
          let rest =
            read_loop_lem fuel bytes inode end (block + 1) stop below b (omega (arith, c, below))
              (omega (arith, d, below)) in
          let joined =
            file_bytes_append bytes inode (stop - start) (end - stop) start stop (end - start)
              (omega (arith, a)) (omega (arith, a, below)) in
          rw (more, read_loop, rest, src, joined) refl
    ]

-- `read_at` gives the bytes of the file from `offset` on, as many as the buffer takes and the file has.
pub read_at-file_bytes :
    (bytes : Bytes) (inode : DiskInode) (offset len : ℕ)
    → inode.size < u32_mod
    → read_at bytes inode offset len
      ≡ some (file_bytes bytes inode offset (min (offset + len) inode.size - offset))
unfolding read_at file_bytes
read_at-file_bytes bytes inode offset len small =
    let end = min (offset + len) inode.size in
    elim (Bool-cases (leb end offset)) [
      | inl past ↦
          let nothing : end - offset ≡ 0 = ground (arith, past) in rw (past, read_at, nothing) refl
      | inr within ↦
          rw (within, read_at)
            (read_loop_lem (end / 512 + 1) bytes inode end (offset / 512) offset
              (ground (arith, within)) (omega (arith, small)) refl (omega arith))
    ]
