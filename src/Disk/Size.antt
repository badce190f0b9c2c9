-- ===== src/Disk/Size.antt =====
-- easy-fs/src/layout.rs: `increase_size` and `clear_size`. The words of an index block are `u32`; a loop
-- that takes the next of the new blocks in each turn runs as often as it has blocks to place.
use Prim.Native.Nat.{◌/◌, ◌%◌, ◌-◌, min}
use os_agent.Base.{
  ℕ, zero, suc, ◌+◌, ◌*◌, ◌&&◌, Option, none, some, List, [], ◌∷◌, ◌++◌, take, drop, replicate, ltb,
  leb, ◌==◌, if◌then◌else◌,
}
use os_agent.Disk.{DiskInode, data_blocks_of, inode_direct_count, inode_indirect1_count}

abbrev pub inode_indirect2_count : ℕ
inode_indirect2_count = inode_indirect1_count * inode_indirect1_count

abbrev pub Blocks : Type 0
Blocks = ℕ → ℕ → ℕ

abbrev pub set_entry : Blocks → ℕ → ℕ → ℕ → Blocks
set_entry words block i v = λ b j. if (b == block) && (j == i) then v else words b j

unfoldable pub set_direct : List ℕ → ℕ → ℕ → List ℕ
set_direct [] i v = []
set_direct (x ∷ xs) zero v = v ∷ xs
set_direct (x ∷ xs) (suc i) v = x ∷ set_direct xs i v

-- `n` turns of the loop that fills `direct`; `none` is the `unwrap` of no block.
unfoldable pub fill_direct : ℕ → List ℕ → ℕ → List ℕ → Option (List ℕ × List ℕ)
fill_direct zero direct current new_blocks = some (direct, new_blocks)
fill_direct (suc n) direct current [] = none
fill_direct (suc n) direct current (b ∷ new_blocks) =
    fill_direct n (set_direct direct current b) (current + 1) new_blocks

-- `n` turns of the loop that fills the first index block.
unfoldable pub fill_indirect1 : ℕ → Blocks → ℕ → ℕ → List ℕ → Option (Blocks × List ℕ)
fill_indirect1 zero words block current new_blocks = some (words, new_blocks)
fill_indirect1 (suc n) words block current [] = none
fill_indirect1 (suc n) words block current (b ∷ new_blocks) =
    fill_indirect1 n (set_entry words block current b) block (current + 1) new_blocks

-- A turn at `b0 == 0` first takes an index block for the entry `a0`.
unfoldable pub next_index : Blocks → ℕ → ℕ → ℕ → List ℕ → Option (Blocks × List ℕ)
next_index words indirect2 a0 zero [] = none
next_index words indirect2 a0 zero (b ∷ new_blocks) =
    some (set_entry words indirect2 a0 b, new_blocks)
next_index words indirect2 a0 (suc b0) new_blocks = some (words, new_blocks)

-- `n` turns of the loop that fills the blocks below the second index block; an entry beyond its 128 is
-- a panic.
unfoldable pub fill_indirect2 : ℕ → Blocks → ℕ → ℕ → ℕ → List ℕ → Option (Blocks × List ℕ)
fill_indirect2 zero words indirect2 a0 b0 new_blocks = some (words, new_blocks)
fill_indirect2 (suc n) words indirect2 a0 b0 new_blocks =
    if leb inode_indirect1_count a0
    then none
    else elim (next_index words indirect2 a0 b0 new_blocks) [
      | none ↦ none
      | some (words', []) ↦ none
      | some (words', b ∷ rest) ↦
          let last = b0 + 1 == inode_indirect1_count in
          fill_indirect2 n (set_entry words' (words' indirect2 a0) b0 b) indirect2
            (if last then a0 + 1 else a0) (if last then 0 else b0 + 1) rest
    ]

-- The inode, the blocks of the device and the new blocks that are left.
pub record Growth : Type 0 where
  pub inode : DiskInode
  pub words : Blocks
  pub new_blocks : List ℕ

-- The part below the second index block, where the counts are without the blocks before it.
unfoldable pub grow_indirect2 : Growth → ℕ → ℕ → Option Growth
grow_indirect2 g current total =
    elim (fill_indirect2 (total - current) g.words g.inode.indirect2
      (current / inode_indirect1_count) (current % inode_indirect1_count) g.new_blocks) [
        | none ↦ none
        | some (words, rest) ↦ some (record g { words = words; new_blocks = rest })
      ]

-- A new index block is taken where the count stands at the end of what came before it.
unfoldable pub alloc_indirect2 : Growth → ℕ → Option Growth
alloc_indirect2 g current =
    if current == inode_indirect1_count
    then elim g.new_blocks [
      | [] ↦ none
      | b ∷ rest ↦ some (record g { inode = record g.inode { indirect2 = b }; new_blocks = rest })
    ]
    else some g

unfoldable pub alloc_indirect1 : Growth → ℕ → Option Growth
alloc_indirect1 g current =
    if current == inode_direct_count
    then elim g.new_blocks [
      | [] ↦ none
      | b ∷ rest ↦ some (record g { inode = record g.inode { indirect1 = b }; new_blocks = rest })
    ]
    else some g

-- From the filling of the first index block on.
unfoldable pub grow_indirect1 : Growth → ℕ → ℕ → Option Growth
grow_indirect1 g current total =
    let n = min total inode_indirect1_count - current in
    elim (fill_indirect1 n g.words g.inode.indirect1 current g.new_blocks) [
      | none ↦ none
      | some (words, rest) ↦
          let g' : Growth = record g { words = words; new_blocks = rest } in
          if ltb inode_indirect1_count total
          then elim (alloc_indirect2 g' (current + n)) [
            | none ↦ none
            | some g2 ↦
                grow_indirect2 g2 (current + n - inode_indirect1_count)
                  (total - inode_indirect1_count)
          ]
          else some g'
    ]

unfoldable pub increase_size : Blocks → DiskInode → ℕ → List ℕ → Option Growth
increase_size words inode new_size new_blocks =
    let current = data_blocks_of inode.size in
    let total = data_blocks_of new_size in
    let n = min total inode_direct_count - current in
    elim (fill_direct n inode.direct current new_blocks) [
      | none ↦ none
      | some (direct, rest) ↦
          let g : Growth = record {
            inode = record inode { size = new_size; direct = direct };
            words = words;
            new_blocks = rest;
          } in
          if ltb inode_direct_count total
          then elim (alloc_indirect1 g (current + n)) [
            | none ↦ none
            | some g1 ↦
                grow_indirect1 g1 (current + n - inode_direct_count) (total - inode_direct_count)
          ]
          else some g
    ]

-- The first `n` words of an index block from word `i` on.
unfoldable pub entries : Blocks → ℕ → ℕ → ℕ → List ℕ
entries words block i zero = []
entries words block i (suc n) = words block i ∷ entries words block (i + 1) n

-- The full index blocks below the second: each with all that it lists.
unfoldable pub full_blocks : Blocks → ℕ → ℕ → ℕ → List ℕ
full_blocks words indirect2 i zero = []
full_blocks words indirect2 i (suc n) =
    words indirect2 i
    ∷ (entries words (words indirect2 i) 0 inode_indirect1_count
        ++ full_blocks words indirect2 (i + 1) n)

unfoldable pub last_block : Blocks → ℕ → ℕ → ℕ → List ℕ
last_block words indirect2 a1 b1 =
    if ltb 0 b1 then words indirect2 a1 ∷ entries words (words indirect2 a1) 0 b1 else []

-- The blocks that are to be freed, and the inode; `none` is the failed assertion.
unfoldable pub clear_size : Blocks → DiskInode → Option (List ℕ × DiskInode)
clear_size words inode =
    let data_blocks = data_blocks_of inode.size in
    let n = min data_blocks inode_direct_count in
    let v = take n inode.direct in
    let cleared : DiskInode = record inode {
      size = 0;
      direct = replicate n 0 ++ drop n inode.direct;
    } in
    let more = data_blocks - inode_direct_count in
    let v1 =
      v ++ (inode.indirect1 ∷ entries words inode.indirect1 0 (min more inode_indirect1_count)) in
    let last = more - inode_indirect1_count in
    let v2 =
      v1
      ++ (inode.indirect2
          ∷ (full_blocks words inode.indirect2 0 (last / inode_indirect1_count)
              ++ last_block words inode.indirect2 (last / inode_indirect1_count)
                  (last % inode_indirect1_count))) in
    if leb data_blocks inode_direct_count
    then some (v, cleared)
    else if leb more inode_indirect1_count
    then some (v1, record cleared { indirect1 = 0 })
    else if leb last inode_indirect2_count
    then some (v2, record cleared { indirect1 = 0; indirect2 = 0 })
    else none
