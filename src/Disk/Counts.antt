-- ===== src/Disk/Counts.antt =====
-- How many blocks a size takes: enough, not one too many, and never fewer for a larger size.
use os_agent.Base.{
  ℕ, ◌+◌, ◌*◌, ◌≤◌, ◌<◌, ◌≡◌, refl, ap, true, some, ltb, leb, if◌then◌else◌, u32_mod, sub32, arith,
  Bool-cases, inl, inr, ◌∙◌, ltb→lt,
}
use Prim.Native.Nat.{◌/◌, ◌%◌, ◌-◌}
use os_agent.Disk.{
  block_sz, inode_direct_count, inode_indirect1_count, indirect1_bound, DiskInode, data_blocks_of,
  total_blocks, blocks_num_needed, get_block_id,
}

data_blocks_of_lem :
    (size : ℕ) → size + block_sz < u32_mod → data_blocks_of size ≡ (size + 511) / 512
unfolding data_blocks_of
data_blocks_of_lem size small = omega (arith, small)

-- The data blocks of a size hold it, and one block less would not; the addition in `u32` does not wrap
-- below the last block of 4 GiB.
pub data_blocks_of-bounds :
    (size : ℕ)
    → size + block_sz < u32_mod
    → (size ≤ data_blocks_of size * block_sz) × (data_blocks_of size * block_sz < size + block_sz)
unfolding data_blocks_of
data_blocks_of-bounds size small = omega (arith, data_blocks_of_lem size small)

-- The index blocks that go with a number of data blocks.
index_blocks : ℕ → ℕ
index_blocks n =
    (if ltb inode_direct_count n then 1 else 0)
    + (if ltb indirect1_bound n
        then 1 + (n - indirect1_bound + inode_indirect1_count - 1) / inode_indirect1_count
        else 0)

index_blocks_mono : (m n : ℕ) → m ≤ n → index_blocks m ≤ index_blocks n
unfolding index_blocks
index_blocks_mono m n h = ground (arith, h)

index_blocks_le : (n : ℕ) → index_blocks n ≤ n + 2
unfolding index_blocks
index_blocks_le n = ground arith

total_blocks_lem :
    (size : ℕ)
    → size + block_sz < u32_mod
    → total_blocks size ≡ data_blocks_of size + index_blocks (data_blocks_of size)
unfolding total_blocks index_blocks
total_blocks_lem size small =
    let bound : data_blocks_of size + index_blocks (data_blocks_of size) < u32_mod =
      omega (arith, small, data_blocks_of_lem size small, index_blocks_le (data_blocks_of size)) in
    omega (arith, bound)

-- Growing an inode never asks for too few blocks: for a larger size the call gives the number of
-- blocks by which the total grows, and at least as many as the data blocks grow by.
pub blocks_num_needed_lem :
    (inode : DiskInode) (new_size : ℕ)
    → inode.size ≤ new_size
    → new_size + block_sz < u32_mod
    → (n : ℕ) × (blocks_num_needed inode new_size ≡ some n)
      × (total_blocks inode.size + n ≡ total_blocks new_size)
      × (data_blocks_of new_size ≤ data_blocks_of inode.size + n)
unfolding blocks_num_needed
blocks_num_needed_lem inode new_size larger small =
    let small' : inode.size + block_sz < u32_mod = omega (arith, larger, small) in
    let d = data_blocks_of inode.size in
    let d' = data_blocks_of new_size in
    let more : d ≤ d' =
      omega
        (arith, larger, data_blocks_of_lem inode.size small', data_blocks_of_lem new_size small) in
    let index_more = index_blocks_mono d d' more in
    let old = total_blocks_lem inode.size small' in
    let new = total_blocks_lem new_size small in
    let bound : total_blocks new_size < u32_mod =
      omega (arith, new, small, index_blocks_le d', data_blocks_of_lem new_size small) in
    let fits : leb inode.size new_size ≡ true = ground (arith, larger) in
    (
      sub32 (total_blocks new_size) (total_blocks inode.size),
      rw fits refl,
      omega (arith, old, new, more, index_more, bound),
      omega (arith, old, new, more, index_more, bound),
    )

-- The look-up of a block below the bound of the double index reads words of the index blocks within
-- their 128 words only: words that agree there give the same block.
pub get_block_id_ext :
    (word word' : ℕ → ℕ → ℕ) (inode : DiskInode) (inner_id : ℕ)
    → ((block i : ℕ) → i < inode_indirect1_count → word block i ≡ word' block i)
    → inner_id < indirect1_bound + inode_indirect1_count * inode_indirect1_count
    → get_block_id word inode inner_id ≡ get_block_id word' inode inner_id
unfolding get_block_id
get_block_id_ext word word' inode inner_id agree within =
    let last = inner_id - indirect1_bound in
    elim (Bool-cases (ltb inner_id inode_direct_count)) [
      | inl first ↦ rw first refl
      | inr beyond ↦ elim (Bool-cases (ltb inner_id indirect1_bound)) [
        | inl second ↦
            rw (beyond, second)
              (agree inode.indirect1 (inner_id - inode_direct_count)
                (omega (arith, ltb→lt inner_id indirect1_bound second)))
        | inr third ↦
            rw (beyond, third)
              (agree (word inode.indirect2 (last / inode_indirect1_count))
                  (last % inode_indirect1_count) (omega arith)
                ∙ ap (λ b. word' b (last % inode_indirect1_count))
                    (agree inode.indirect2 (last / inode_indirect1_count) (omega (arith, within))))
      ]
    ]
