-- ===== src/Disk/Data/Writes.antt =====
-- `write_at` writes the bytes of the file and no others.
use Prim.Native.Nat.{min}
use os_agent.Base.{
  ℕ, zero, suc, ◌+◌, ◌*◌, ◌/◌, ◌%◌, ◌-◌, ◌<◌, ◌≤◌, ◌≡◌, ◌∙◌, refl, ap, sym, Bool, true, false, ◌&&◌,
  Bool-cases, inl, inr, some, List, [], ◌∷◌, length, take, drop, get_or, length-take,
  take-drop-length, arith, ltb, leb, ◌==◌, if◌then◌else◌, u32_mod,
}
use os_agent.Disk.{DiskInode, get_block_id}
use os_agent.Disk.Freed.{max_size}
use os_agent.Disk.Data.{Bytes, word32, copy_into, end_of_block, write_loop, write_at}
use os_agent.Disk.Data.Reads.{file_byte}

-- The blocks of a file of `size` bytes are apart from each other, and from the blocks `is_index` that hold its
-- index.
pub record IsApart (bytes : Bytes) (inode : DiskInode) (size : ℕ) (is_index : ℕ → Bool)
    : Type 0 where
  pub first : is_index inode.indirect1 ≡ true
  pub second : is_index inode.indirect2 ≡ true
  pub below : (i : ℕ) → i < 128 → is_index (word32 bytes inode.indirect2 i) ≡ true
  pub held : (k : ℕ) → k < size → is_index (get_block_id (word32 bytes) inode (k / 512)) ≡ false
  pub apart :
      (k k' : ℕ)
      → k < size
      → k' < size
      → get_block_id (word32 bytes) inode (k / 512) ≡ get_block_id (word32 bytes) inode (k' / 512)
      → k / 512 ≡ k' / 512

IsKept : (ℕ → Bool) → Bytes → Bytes → Type 0
IsKept is_index bytes bytes' = (b p : ℕ) → is_index b ≡ true → bytes' b p ≡ bytes b p

word32-kept :
    (is_index : ℕ → Bool) (bytes bytes' : Bytes) (b i : ℕ)
    → IsKept is_index bytes bytes'
    → is_index b ≡ true
    → word32 bytes' b i ≡ word32 bytes b i
unfolding word32 IsKept
word32-kept is_index bytes bytes' b i kept h =
    rw (kept b (4 * i) h, kept b (4 * i + 1) h, kept b (4 * i + 2) h, kept b (4 * i + 3) h) refl

get_block_id-kept :
    (is_index : ℕ → Bool) (bytes bytes' : Bytes) (inode : DiskInode) (size inner : ℕ)
    → IsApart bytes inode size is_index
    → IsKept is_index bytes bytes'
    → inner < 16540
    → get_block_id (word32 bytes') inode inner ≡ get_block_id (word32 bytes) inode inner
unfolding get_block_id
get_block_id-kept is_index bytes bytes' inode size inner is kept small =
    let a = word32-kept is_index bytes bytes' inode.indirect1 (inner - 28) kept is.first in
    let low : (inner - 156) / 128 < 128 = omega (arith, small) in
    let b =
      word32-kept is_index bytes bytes' inode.indirect2 ((inner - 156) / 128) kept is.second in
    let c =
      word32-kept is_index bytes bytes' (word32 bytes inode.indirect2 ((inner - 156) / 128))
        ((inner - 156) % 128) kept (is.below ((inner - 156) / 128) low) in
    rw (a, b, c) refl

-- Byte `k` of the file after `buf` was written at `start`.
abbrev pub written : (ℕ → ℕ) → ℕ → ℕ → List ℕ → ℕ → ℕ
written old start n buf k =
    if leb start k && ltb k (start + n) then get_or buf (k - start) 0 else old k

get_or-take : (n i : ℕ) (xs : List ℕ) → i < n → get_or (take n xs) i 0 ≡ get_or xs i 0
get_or-take zero i xs h = absurd (omega (arith, h))
get_or-take (suc n) i [] h = refl
get_or-take (suc n) zero (x ∷ xs) h = refl
get_or-take (suc n) (suc i) (x ∷ xs) h = get_or-take n i xs (omega (arith, h))

get_or-drop : (n i j : ℕ) (xs : List ℕ) → j ≡ n + i → get_or (drop n xs) i 0 ≡ get_or xs j 0
get_or-drop zero i j xs e = let same : j ≡ i = omega (arith, e) in rw same refl
get_or-drop (suc n) i j [] e = refl
get_or-drop (suc n) i zero (x ∷ xs) e = absurd (omega (arith, e))
get_or-drop (suc n) i (suc j) (x ∷ xs) e = get_or-drop n i j xs (omega (arith, e))

-- A byte of the block `a` after the copy to the block `d`.
copied-written :
    (bytes : Bytes) (a d start n k : ℕ) (buf : List ℕ)
    → (a ≡ d → k / 512 ≡ start / 512)
    → (k / 512 ≡ start / 512 → a ≡ d)
    → start % 512 + n ≤ 512
    → n ≤ length buf
    → copy_into bytes d (start % 512) (take n buf) a (k % 512)
      ≡ (if leb start k && ltb k (start + n) then get_or buf (k - start) 0 else bytes a (k % 512))
unfolding copy_into
copied-written bytes a d start n k buf there here within enough =
    let len : length (take n buf) ≡ n = omega (arith, length-take n buf, enough) in
    elim (Bool-cases (leb start k && ltb k (start + n))) [
      | inl inside ↦
          let block : k / 512 ≡ start / 512 = ground (arith, inside, within) in
          let same : (a == d) ≡ true = ground (arith, here block) in
          let low : leb (start % 512) (k % 512) ≡ true = ground (arith, inside, within) in
          let high : ltb (k % 512) (start % 512 + n) ≡ true = ground (arith, inside, within) in
          let i : k % 512 - start % 512 ≡ k - start = ground (arith, inside, within) in
          rw (inside, same, len, low, high, i)
            (get_or-take n (k - start) buf (ground (arith, inside)))
      | inr outside ↦ elim (Bool-cases (a == d)) [
        | inr other ↦ rw (outside, other) refl
        | inl same ↦
            let block = there (ground (arith, same)) in
            let range : (leb (start % 512) (k % 512) && ltb (k % 512) (start % 512 + n)) ≡ false =
              ground (arith, outside, block) in
            rw (outside, same, len, range) refl
      ]
    ]

-- A turn of the loop: `n` bytes at `start`, within one block.
module _ (bytes : Bytes) (inode : DiskInode) (size start n : ℕ) (buf : List ℕ) (is_index : ℕ → Bool)
    (is : IsApart bytes inode size is_index) (small : size ≤ max_size) (here : start < size)
    (within : start % 512 + n ≤ 512) (enough : n ≤ length buf) where
  abbrev after : Bytes
  after =
      copy_into bytes (get_block_id (word32 bytes) inode (start / 512)) (start % 512) (take n buf)

  after-IsKept : IsKept is_index bytes after
  unfolding IsKept copy_into
  after-IsKept = λ b p h. elim (Bool-cases (b == get_block_id (word32 bytes) inode (start / 512))) [
    | inl same ↦
        let e : b ≡ get_block_id (word32 bytes) inode (start / 512) = ground (arith, same) in
        absurd (cc (h, e, is.held start here))
    | inr other ↦ rw other refl
  ]

  after-block :
      (k : ℕ)
      → k < size
      → get_block_id (word32 after) inode (k / 512) ≡ get_block_id (word32 bytes) inode (k / 512)
  after-block k h =
      get_block_id-kept is_index bytes after inode size (k / 512) is after-IsKept
        (omega (arith, small, h))

  after-byte :
      (k : ℕ) → k < size → file_byte after inode k ≡ written (file_byte bytes inode) start n buf k
  unfolding file_byte
  after-byte k h =
      let id = λ (i : ℕ). get_block_id (word32 bytes) inode i in
      ap (λ b. after b (k % 512)) (after-block k h)
      ∙ copied-written bytes (id (k / 512)) (id (start / 512)) start n k buf
          (is.apart k start h here) (λ e. ap id e) within enough

  after-IsApart : IsApart after inode size is_index
  after-IsApart = record {
    first = is.first;
    second = is.second;
    below = λ i low.
        ap is_index (word32-kept is_index bytes after inode.indirect2 i after-IsKept is.second)
        ∙ is.below i low;
    held = λ k h. ap is_index (after-block k h) ∙ is.held k h;
    apart = λ k k' h h' e. is.apart k k' h h' (sym (after-block k h) ∙ e ∙ after-block k' h');
  }

written-count :
    (old : ℕ → ℕ) (start n m : ℕ) (buf : List ℕ) (k : ℕ)
    → n ≡ m
    → written old start n buf k ≡ written old start m buf k
written-count old start n m buf k e = ap (λ (i : ℕ). written old start i buf k) e

write_turn :
    (fuel : ℕ) (bytes : Bytes) (inode : DiskInode) (end block start : ℕ) (buf : List ℕ)
    → block % u32_mod ≡ start / 512
    → let stop = end_of_block start end in
      let bytes1 =
        copy_into bytes
          (get_block_id (word32 bytes) inode (start / 512))
          (start % 512)
          (take (stop - start) buf) in
      write_loop (suc fuel) bytes inode end block start buf ≡ (
        if stop == end
        then some bytes1
        else write_loop fuel bytes1 inode end (block + 1) stop (drop (stop - start) buf))
unfolding write_loop
write_turn fuel bytes inode end block start buf e = rw e refl

-- Two writes, the second right behind the first, are one.
written-written :
    (v start stop end k : ℕ) (buf : List ℕ)
    → start ≤ stop
    → stop ≤ end
    → (if leb stop k && ltb k (stop + (end - stop))
        then get_or (drop (stop - start) buf) (k - stop) 0
        else if leb start k && ltb k (start + (stop - start))
        then get_or buf (k - start) 0
        else v)
      ≡ (if leb start k && ltb k (start + (end - start)) then get_or buf (k - start) 0 else v)
written-written v start stop end k buf a b =
    elim (Bool-cases (leb stop k && ltb k (stop + (end - stop)))) [
      | inl second ↦
          let i : k - start ≡ stop - start + (k - stop) = ground (arith, a, b, second) in
          let all : (leb start k && ltb k (start + (end - start))) ≡ true =
            ground (arith, a, b, second) in
          rw (second, all) (get_or-drop (stop - start) (k - stop) (k - start) buf i)
      | inr before ↦ elim (Bool-cases (leb start k && ltb k (start + (stop - start)))) [
        | inl first ↦
            let all : (leb start k && ltb k (start + (end - start))) ≡ true =
              ground (arith, a, b, first) in
            rw (before, first, all) refl
        | inr neither ↦
            let all : (leb start k && ltb k (start + (end - start))) ≡ false =
              ground (arith, a, b, before, neither) in
            rw (before, neither, all) refl
      ]
    ]

write_loop_lem :
    (fuel : ℕ) (bytes : Bytes) (inode : DiskInode) (size end block start : ℕ) (buf : List ℕ)
    (is_index : ℕ → Bool)
    → IsApart bytes inode size is_index
    → size ≤ max_size
    → start < end
    → end ≤ size
    → end - start ≤ length buf
    → block ≡ start / 512
    → end / 512 < start / 512 + fuel
    → (bytes' : Bytes) × (write_loop fuel bytes inode end block start buf ≡ some bytes')
      × ((k : ℕ)
          → k < size
          → file_byte bytes' inode k ≡ written (file_byte bytes inode) start (end - start) buf k)
      × IsApart bytes' inode size is_index
write_loop_lem zero bytes inode size end block start buf is_index is small a b c e d =
    absurd (omega (arith, a, d))
write_loop_lem (suc fuel) bytes inode size end block start buf is_index is small a b c e d =
    let stop = end_of_block start end in
    let n = stop - start in
    let inner : block % u32_mod ≡ start / 512 = omega (arith, a, b, e, small) in
    let here : start < size = omega (arith, a, b) in
    let within : start % 512 + n ≤ 512 = omega arith in
    let enough : n ≤ length buf = omega (arith, c) in
    let bytes1 = after bytes inode size start n buf is_index is small here within enough in
    let byte1 = after-byte bytes inode size start n buf is_index is small here within enough in
    let is1 = after-IsApart bytes inode size start n buf is_index is small here within enough in
    elim (Bool-cases (stop == end)) [
      | inl last ↦
          let same : stop ≡ end = ground (arith, last) in
          (
            bytes1,
            write_turn fuel bytes inode end block start buf inner ∙ rw last refl,
            λ k h.
                byte1 k h
                ∙ written-count (file_byte bytes inode) start n (end - start) buf k
                    (omega (arith, same)),
            is1,
          )
      | inr more ↦
          let below : stop < end = ground (arith, more) in
          let rest : end - stop ≤ length (drop n buf) =
            omega (arith, take-drop-length n buf enough, c) in
          let (bytes', ran, byte', is') =
            write_loop_lem fuel bytes1 inode size end (block + 1) stop (drop n buf) is_index is1
              small below b rest (omega (arith, e, below)) (omega (arith, d, below)) in
          (
            bytes',
            write_turn fuel bytes inode end block start buf inner ∙ rw more ran,
            λ k h.
                byte' k h
                ∙ ap
                    (λ v.
                      if leb stop k && ltb k (stop + (end - stop))
                      then get_or (drop n buf) (k - stop) 0
                      else v)
                    (byte1 k h)
                ∙ written-written (file_byte bytes inode k) start stop end k buf (omega (arith, a))
                    (omega (arith, below)),
            is',
          )
    ]

write_at_ran :
    (bytes bytes' : Bytes) (inode : DiskInode) (offset : ℕ) (buf : List ℕ)
    → let end = min (offset + length buf) inode.size in
      leb offset end ≡ true
      → write_loop
          (min (offset + length buf) inode.size / 512 + 1)
          bytes
          inode
          (min (offset + length buf) inode.size)
          (offset / 512)
          offset
          buf
        ≡ some bytes'
      → min (offset + length buf) inode.size - offset ≡ length buf
      → write_at bytes inode offset buf ≡ some (length buf, bytes')
unfolding write_at
write_at_ran bytes bytes' inode offset buf there ran n = rw (there, write_at, ran, n) refl

-- `write_at` of a buffer within the file succeeds on a device on which the file's blocks are apart: the file
-- then has the buffer's bytes at the offset and its old bytes elsewhere, and its blocks are still apart.
pub write_at-written :
    (bytes : Bytes) (inode : DiskInode) (offset : ℕ) (buf : List ℕ) (is_index : ℕ → Bool)
    → IsApart bytes inode inode.size is_index
    → inode.size ≤ max_size
    → 0 < length buf
    → offset + length buf ≤ inode.size
    → (bytes' : Bytes) × (write_at bytes inode offset buf ≡ some (length buf, bytes'))
      × ((k : ℕ)
          → k < inode.size
          → file_byte bytes' inode k ≡ written (file_byte bytes inode) offset (length buf) buf k)
      × IsApart bytes' inode inode.size is_index
write_at-written bytes inode offset buf is_index is small some_bytes fits =
    let end = min (offset + length buf) inode.size in
    let n : end - offset ≡ length buf = omega (arith, fits) in
    let there : leb offset end ≡ true = ground (arith, fits) in
    let (bytes', ran, byte', is') =
      write_loop_lem (end / 512 + 1) bytes inode inode.size end (offset / 512) offset buf is_index
        is small (omega (arith, some_bytes, fits)) (omega arith) (omega (arith, n)) refl
        (omega arith) in
    (
      bytes',
      write_at_ran bytes bytes' inode offset buf there ran n,
      λ k h.
          byte' k h
          ∙ written-count (file_byte bytes inode) offset (end - offset) (length buf) buf k n,
      is',
    )
