-- ===== src/Files/Reading.antt =====
-- What a program reads of a file: `read_all` the whole, `sys_read` in the slices of its buffer what one read
-- of the length of them all gives.
use Prim.Native.Nat.{min}
use os_agent.Base.{
  ℕ, zero, suc, ◌+◌, ◌-◌, ◌/◌, ◌<◌, ◌≡◌, refl, ap, true, ◌⊎◌, inl, inr, some, List, [], ◌∷◌, ◌++◌,
  arith, length, leb, ◌==◌, false, if◌then◌else◌, u32_mod,
}
use os_agent.Base.Results.{ISize, pos}
use os_agent.Disk.{DiskInode}
use os_agent.Disk.Data.{Bytes, read_at}
use os_agent.Disk.Data.Reads.{file_bytes, file_bytes_append, read_at-file_bytes}
use os_agent.Files.{
  OsInode, File, os_inode, FdTable, file_at, read_all, read_slices, sum, Files, read_file, sys_read,
}

length-file_bytes :
    (bytes : Bytes) (inode : DiskInode) (k n : ℕ) → length (file_bytes bytes inode k n) ≡ n
unfolding file_bytes
length-file_bytes bytes inode k zero = refl
length-file_bytes bytes inode k (suc n) = ap suc (length-file_bytes bytes inode (k + 1) n)

-- The file after `n` bytes more of it are read.
abbrev pub advanced : OsInode → ℕ → OsInode
advanced f n = record f { offset = f.offset + n }

advanced_twice :
    (f : OsInode) (m n total : ℕ) → total ≡ m + n → advanced (advanced f m) n ≡ advanced f total
advanced_twice f m n total e = ap (λ k. record f { offset = k }) (omega (arith, e))

advanced_none : (f : OsInode) → advanced f 0 ≡ f
advanced_none f = ap (λ k. record f { offset = k }) (omega arith)

-- One turn of either loop: a read that finds nothing ends it, and else the turns after it go on behind what
-- was read.
module _ (bytes : Bytes) (f : OsInode) (small : f.inode.size < u32_mod) where
  -- How many bytes a read of `len` finds.
  abbrev found : ℕ → ℕ
  found len = min (f.offset + len) f.inode.size - f.offset

  some_read :
      (len n : ℕ)
      → found len ≡ n
      → read_at bytes f.inode f.offset len ≡ some (file_bytes bytes f.inode f.offset n)
  some_read len n e = rw (read_at-file_bytes bytes f.inode f.offset len small, e) refl

  read_all_here : (fuel : ℕ) → found 512 ≡ 0 → read_all (suc fuel) bytes f ≡ some ([], f)
  unfolding read_all file_bytes
  read_all_here fuel e = rw (some_read 512 0 e, read_all) refl

  read_slices_here :
      (len : ℕ) (lens : List ℕ) → found len ≡ 0 → read_slices bytes f (len ∷ lens) ≡ some ([], f)
  unfolding read_slices file_bytes
  read_slices_here len lens e = rw (some_read len 0 e, read_slices) refl

  module _ (n m total : ℕ) (g : OsInode) (whole : total ≡ suc n + m) where
    abbrev rest : List ℕ
    rest = file_bytes bytes f.inode (f.offset + suc n) m

    joined :
        file_bytes bytes f.inode f.offset (suc n) ++ rest ≡ file_bytes bytes f.inode f.offset total
    joined = file_bytes_append bytes f.inode (suc n) m f.offset (f.offset + suc n) total refl whole

    read_all_more :
        (fuel : ℕ)
        → found 512 ≡ suc n
        → read_all fuel bytes (advanced f (suc n)) ≡ some (rest, g)
        → read_all (suc fuel) bytes f ≡ some (file_bytes bytes f.inode f.offset total, g)
    unfolding read_all file_bytes
    read_all_more fuel e more =
        rw
          (
            some_read 512 (suc n) e,
            read_all,
            length-file_bytes bytes f.inode (f.offset + 1) n,
            more,
            joined,
          )
          refl

    read_slices_more :
        (len : ℕ) (lens : List ℕ)
        → found len ≡ suc n
        → read_slices bytes (advanced f (suc n)) lens ≡ some (rest, g)
        → read_slices bytes f (len ∷ lens) ≡ some (file_bytes bytes f.inode f.offset total, g)
    unfolding read_slices file_bytes
    read_slices_more len lens e more =
        rw
          (
            some_read len (suc n) e,
            read_slices,
            length-file_bytes bytes f.inode (f.offset + 1) n,
            more,
            joined,
          )
          refl

zero_or_suc : (n : ℕ) → (n ≡ 0) ⊎ ((k : ℕ) × (n ≡ suc k))
zero_or_suc zero = inl refl
zero_or_suc (suc n) = inr (n, refl)

-- With a turn for each 512 bytes from the offset on and one more, `read_all` ends. It gives all bytes of the
-- file from the offset on, which is then at the end of the file, or where it was if that is further on.
pub read_all-file_bytes :
    (fuel : ℕ) (bytes : Bytes) (f : OsInode)
    → f.inode.size < u32_mod
    → (f.inode.size - f.offset + 511) / 512 < fuel
    → read_all fuel bytes f
      ≡ some (
        file_bytes bytes f.inode f.offset (f.inode.size - f.offset),
        advanced f (f.inode.size - f.offset),
      )
unfolding file_bytes
read_all-file_bytes zero bytes f small enough = absurd (omega (arith, enough))
read_all-file_bytes (suc fuel) bytes f small enough = elim (zero_or_suc (found bytes f small 512)) [
  | inl e ↦
      let nothing : f.inode.size - f.offset ≡ 0 = omega (arith, e) in
      rw (read_all_here bytes f small fuel e, nothing, advanced_none f) refl
  | inr (n, e) ↦
      let m = f.inode.size - (f.offset + suc n) in
      let whole : f.inode.size - f.offset ≡ suc n + m = omega (arith, e) in
      let rest =
        read_all-file_bytes fuel bytes (advanced f (suc n)) small (omega (arith, e, enough)) in
      let ended = rw (advanced_twice f (suc n) m (f.inode.size - f.offset) whole) at rest in
      read_all_more bytes f small n m (f.inode.size - f.offset) _ whole fuel e ended
]

-- No slice is empty.
unfoldable pub IsPositive : List ℕ → Type 0
IsPositive [] = Unit
IsPositive (len ∷ lens) = (0 < len) × IsPositive lens

-- Slices of any lengths but 0 read together what one read of the length of them all does.
pub read_slices-file_bytes :
    (lens : List ℕ) (bytes : Bytes) (f : OsInode)
    → f.inode.size < u32_mod
    → IsPositive lens
    → read_slices bytes f lens
      ≡ some (
        file_bytes bytes f.inode f.offset (min (f.offset + sum lens) f.inode.size - f.offset),
        advanced f (min (f.offset + sum lens) f.inode.size - f.offset),
      )
unfolding read_slices file_bytes IsPositive
read_slices-file_bytes [] bytes f small p =
    let nothing : min (f.offset + 0) f.inode.size - f.offset ≡ 0 = omega arith in
    rw (nothing, advanced_none f) refl
read_slices-file_bytes (len ∷ lens) bytes f small p = elim (zero_or_suc (found bytes f small len)) [
  | inl e ↦
      let nothing : found bytes f small (len + sum lens) ≡ 0 = omega (arith, e, p.0) in
      rw (read_slices_here bytes f small len lens e, nothing, advanced_none f) refl
  | inr (n, e) ↦
      let all = found bytes f small (len + sum lens) in
      let m = min (f.offset + suc n + sum lens) f.inode.size - (f.offset + suc n) in
      let whole : all ≡ suc n + m = omega (arith, e) in
      let rest = read_slices-file_bytes lens bytes (advanced f (suc n)) small p.1 in
      let ended = rw (advanced_twice f (suc n) m all whole) at rest in
      read_slices_more bytes f small n m all _ whole len lens e ended
]

file_at-within :
    (fds : FdTable) (fd : ℕ) (file : File)
    → file_at fds fd ≡ some file
    → leb (length fds) fd ≡ false
unfolding file_at
file_at-within [] fd file e = absurd (ground (arith, e))
file_at-within (old ∷ fds) zero file e = ground arith
file_at-within (old ∷ fds) (suc fd) file e =
    let within = file_at-within fds fd file e in ground (arith, within)

-- The file is read from its offset on, as far as the buffer and the file go, and its offset advances by as
-- much; the call returns how much that is.
abbrev pub read_through : Files → ℕ → ℕ → ISize × (List ℕ × Files)
read_through s i n =
    let f = s.opened i in
    (
      pos n,
      (
        file_bytes s.bytes f.inode f.offset n,
        record s { opened = λ j. if j == i then advanced f n else s.opened j },
      ),
    )

read_file-read_through :
    (s : Files) (i n : ℕ) (lens : List ℕ)
    → (s.opened i).inode.size < u32_mod
    → IsPositive lens
    → n ≡ min ((s.opened i).offset + sum lens) (s.opened i).inode.size - (s.opened i).offset
    → read_file s (os_inode i) lens ≡ some (read_through s i n).1
unfolding read_file
read_file-read_through s i n lens small p e =
    rw (e, read_file, read_slices-file_bytes lens s.bytes (s.opened i) small p) refl

-- The call on a descriptor of a file that is open for reading, with a buffer in slices of any lengths but 0,
-- gives what one read with the length of them all does: the bytes of the file from its offset on, as many as
-- the buffer takes and the file has. It returns their number and advances the offset by it, and no other
-- file's.
pub sys_read-file_bytes :
    (s : Files) (fds : FdTable) (fd i : ℕ) (lens : List ℕ)
    → file_at fds fd ≡ some (os_inode i)
    → (s.opened i).readable ≡ true
    → (s.opened i).inode.size < u32_mod
    → IsPositive lens
    → sys_read s fds fd lens
      ≡ some (
          read_through s i
            (min ((s.opened i).offset + sum lens) (s.opened i).inode.size - (s.opened i).offset))
unfolding sys_read
sys_read-file_bytes s fds fd i lens here readable small p =
    let f = s.opened i in
    let n = min (f.offset + sum lens) f.inode.size - f.offset in
    let got = read_file-read_through s i n lens small p refl in
    let count = length-file_bytes s.bytes f.inode f.offset n in
    rw (file_at-within fds fd (os_inode i) here, sys_read, here, got, readable, count) refl
