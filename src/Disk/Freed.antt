-- ===== src/Disk/Freed.antt =====
-- `increase_size` takes exactly the blocks that `blocks_num_needed` asks for, and `clear_size` gives back
-- exactly `total_blocks`.
use Prim.Native.Nat.{min}
use os_agent.Base.{
  ℕ, zero, suc, ◌+◌, ◌*◌, ◌/◌, ◌%◌, ◌-◌, ◌≤◌, ◌≡◌, refl, ap, true, Bool-cases, inl, inr, some, List,
  ◌∷◌, ◌++◌, length, take, drop, replicate, length-append, length-take, arith, ltb, leb,
  if◌then◌else◌,
}
use os_agent.Disk.{DiskInode, data_blocks_of, total_blocks}
use os_agent.Disk.Size.{Blocks, entries, full_blocks, last_block, clear_size}

length-entries : (words : Blocks) (block i n : ℕ) → length (entries words block i n) ≡ n
unfolding entries
length-entries words block i zero = refl
length-entries words block i (suc n) = ap suc (length-entries words block (i + 1) n)

length-full_blocks :
    (words : Blocks) (block i n : ℕ) → length (full_blocks words block i n) ≡ n * 129
unfolding full_blocks
length-full_blocks words block i zero = refl
length-full_blocks words block i (suc n) = omega (
  arith,
  length-append (entries words (words block i) 0 128) (full_blocks words block (i + 1) n),
  length-entries words (words block i) 0 128,
  length-full_blocks words block (i + 1) n,
)

length-last_block :
    (words : Blocks) (block a b : ℕ)
    → length (last_block words block a b) ≡ (if ltb 0 b then b + 1 else 0)
unfolding last_block
length-last_block words block a b = ground (arith, length-entries words (words block a) 0 b)

-- The largest size that the index of an inode can reach.
abbrev pub max_size : ℕ
max_size = (28 + 128 + 128 * 128) * 512

pub data_blocks_of-max : (size : ℕ) → size ≤ max_size → data_blocks_of size ≤ 16540
unfolding data_blocks_of
data_blocks_of-max size h = omega (arith, h)

-- `clear_size` of an inode within the limits of its index succeeds, gives back as many blocks as
-- `total_blocks` counts for its size, and leaves an inode of size 0.
pub clear_size_lem :
    (words : Blocks) (inode : DiskInode)
    → inode.size ≤ max_size
    → length inode.direct ≡ 28
    → (v : List ℕ) × (inode' : DiskInode) × (clear_size words inode ≡ some (v, inode'))
      × (length v ≡ total_blocks inode.size)
      × (inode'.size ≡ 0)
unfolding clear_size total_blocks
clear_size_lem words inode small full =
    let d = data_blocks_of inode.size in
    let bound = data_blocks_of-max inode.size small in
    let n = min d 28 in
    let v = take n inode.direct in
    let direct = replicate n 0 ++ drop n inode.direct in
    let e1 = entries words inode.indirect1 0 (min (d - 28) 128) in
    let a1 = (d - 28 - 128) / 128 in
    let b1 = (d - 28 - 128) % 128 in
    let fb = full_blocks words inode.indirect2 0 a1 in
    let lb = last_block words inode.indirect2 a1 b1 in
    let lv = length-take n inode.direct in
    let l1 = length-entries words inode.indirect1 0 (min (d - 28) 128) in
    let l12 = length-append v (inode.indirect1 ∷ e1) in
    elim (Bool-cases (leb d 28)) [
      | inl few ↦ (
        v,
        record inode { size = 0; direct = direct },
        rw (few, clear_size) refl,
        ground (arith, few, lv, full, bound),
        refl,
      )
      | inr more ↦ elim (Bool-cases (leb (d - 28) 128)) [
        | inl few ↦ (
          v ++ (inode.indirect1 ∷ e1),
          record inode { size = 0; direct = direct; indirect1 = 0 },
          rw (more, clear_size, few) refl,
          ground (arith, more, few, l12, lv, l1, full, bound),
          refl,
        )
        | inr more2 ↦
            let within : leb (d - 28 - 128) (128 * 128) ≡ true = ground (arith, bound) in
            let lf = length-full_blocks words inode.indirect2 0 a1 in
            let ll = length-last_block words inode.indirect2 a1 b1 in
            let lfl = length-append fb lb in
            let all = length-append (v ++ (inode.indirect1 ∷ e1)) (inode.indirect2 ∷ (fb ++ lb)) in
            (
              (v ++ (inode.indirect1 ∷ e1)) ++ (inode.indirect2 ∷ (fb ++ lb)),
              record inode { size = 0; direct = direct; indirect1 = 0; indirect2 = 0 },
              rw (more, clear_size, more2, within) refl,
              ground (arith, more, more2, all, lfl, lf, ll, l12, lv, l1, full, bound),
              refl,
            )
      ]
    ]
