-- ===== src/Disk/Grown.antt =====
-- `increase_size` takes exactly the blocks that `blocks_num_needed` asks for.
use Prim.Native.Nat.{min}
use os_agent.Base.{
  ℕ, zero, suc, ◌+◌, ◌*◌, ◌/◌, ◌%◌, ◌-◌, ◌<◌, ◌≤◌, ◌≡◌, refl, true, false, Bool-cases, inl, inr,
  ◌⊎◌, some, List, [], ◌∷◌, length, arith, ltb, leb, ◌==◌, if◌then◌else◌, u32_mod, sub32,
}
use os_agent.Disk.{DiskInode, data_blocks_of, total_blocks, blocks_num_needed}
use os_agent.Disk.Size.{
  Blocks, Growth, fill_direct, fill_indirect1, next_index, fill_indirect2, grow_indirect2,
  alloc_indirect2, alloc_indirect1, grow_indirect1, increase_size, set_direct, set_entry,
}
use os_agent.Disk.Freed.{max_size, data_blocks_of-max}

fill_direct_lem :
    (n : ℕ) (direct : List ℕ) (current : ℕ) (bs : List ℕ)
    → n ≤ length bs
    → (direct' : List ℕ) × (rest : List ℕ) × (fill_direct n direct current bs
        ≡ some (direct', rest))
      × (length rest + n ≡ length bs)
unfolding fill_direct
fill_direct_lem zero direct current bs h = (direct, bs, refl, omega arith)
fill_direct_lem (suc n) direct current [] h = absurd (omega (arith, h))
fill_direct_lem (suc n) direct current (b ∷ bs) h =
    let (direct', rest, e, len) =
      fill_direct_lem n (set_direct direct current b) (current + 1) bs (omega (arith, h)) in
    (direct', rest, e, omega (arith, len))

fill_indirect1_lem :
    (n : ℕ) (words : Blocks) (block current : ℕ) (bs : List ℕ)
    → n ≤ length bs
    → (words' : Blocks) × (rest : List ℕ) × (fill_indirect1 n words block current bs
        ≡ some (words', rest))
      × (length rest + n ≡ length bs)
unfolding fill_indirect1
fill_indirect1_lem zero words block current bs h = (words, bs, refl, omega arith)
fill_indirect1_lem (suc n) words block current [] h = absurd (omega (arith, h))
fill_indirect1_lem (suc n) words block current (b ∷ bs) h =
    let (words', rest, e, len) =
      fill_indirect1_lem n (set_entry words block current b) block (current + 1) bs
        (omega (arith, h)) in
    (words', rest, e, omega (arith, len))

-- How many index blocks `n` turns from `b0` on take.
abbrev index_blocks : ℕ → ℕ → ℕ
index_blocks b0 n = (b0 + n + 127) / 128 - (b0 + 127) / 128

next_index_lem :
    (words : Blocks) (block a0 b0 : ℕ) (bs : List ℕ)
    → (if b0 == 0 then 1 else 0) ≤ length bs
    → (words' : Blocks) × (rest : List ℕ) × (next_index words block a0 b0 bs ≡ some (words', rest))
      × (length rest + (if b0 == 0 then 1 else 0) ≡ length bs)
unfolding next_index
next_index_lem words block a0 zero [] h = absurd (omega (arith, h))
next_index_lem words block a0 zero (b ∷ bs) h = (set_entry words block a0 b, bs, refl, omega arith)
next_index_lem words block a0 (suc b0) bs h = (words, bs, refl, ground arith)

fill_indirect2_lem :
    (n : ℕ) (words : Blocks) (block a0 b0 : ℕ) (bs : List ℕ)
    → b0 < 128
    → a0 * 128 + b0 + n ≤ 128 * 128
    → n + index_blocks b0 n ≤ length bs
    → (words' : Blocks) × (rest : List ℕ) × (fill_indirect2 n words block a0 b0 bs
        ≡ some (words', rest))
      × (length rest + (n + index_blocks b0 n) ≡ length bs)
unfolding fill_indirect2
fill_indirect2_lem zero words block a0 b0 bs low fits h = (words, bs, refl, omega (arith, low))
fill_indirect2_lem (suc n) words block a0 b0 bs low fits h =
    let there : leb 128 a0 ≡ false = ground (arith, fits) in
    let (words1, bs1, e1, len1) = next_index_lem words block a0 b0 bs (ground (arith, h, low)) in
    go (λ w a c cs. fill_indirect2_lem n w block a c cs) there words1 bs1 e1 len1
      (ground (arith, len1, h, low))
  where
    go :
        ((w : Blocks) (a c : ℕ) (cs : List ℕ)
          → c < 128
          → a * 128 + c + n ≤ 128 * 128
          → n + index_blocks c n ≤ length cs
          → (words' : Blocks) × (rest : List ℕ) × (fill_indirect2 n w block a c cs
              ≡ some (words', rest))
            × (length rest + (n + index_blocks c n) ≡ length cs))
        → leb 128 a0 ≡ false
        → (words1 : Blocks) (bs1 : List ℕ) → next_index words block a0 b0 bs ≡ some (words1, bs1)
        → length bs1 + (if b0 == 0 then 1 else 0) ≡ length bs
        → 0 < length bs1
        → (words' : Blocks) × (rest : List ℕ) × (fill_indirect2 (suc n) words block a0 b0 bs
            ≡ some (words', rest))
          × (length rest + (suc n + index_blocks b0 (suc n)) ≡ length bs)
    go ih there words1 [] e1 len1 some_left = absurd (omega (arith, some_left))
    go ih there words1 (b ∷ bs2) e1 len1 some_left =
        let last = b0 + 1 == 128 in
        let a = if last then a0 + 1 else a0 in
        let c = if last then 0 else b0 + 1 in
        let c_low : c < 128 = ground (arith, low) in
        let a_fits : a * 128 + c + n ≤ 128 * 128 = ground (arith, low, fits) in
        let enough : n + index_blocks c n ≤ length bs2 = ground (arith, low, len1, h) in
        let (words', rest, e, len) =
          ih (set_entry words1 (words1 block a0) b0 b) a c bs2 c_low a_fits enough in
        (words', rest, rw (there, fill_indirect2, e1) e, ground (arith, low, len1, len))

List-cases : (xs : List ℕ) → (xs ≡ []) ⊎ ((x : ℕ) × (rest : List ℕ) × (xs ≡ x ∷ rest))
List-cases [] = inl refl
List-cases (x ∷ xs) = inr (x, xs, refl)

alloc_indirect1_lem :
    (g : Growth) (current : ℕ)
    → (if current == 28 then 1 else 0) ≤ length g.new_blocks
    → (g' : Growth) × (alloc_indirect1 g current ≡ some g')
      × (length g'.new_blocks + (if current == 28 then 1 else 0) ≡ length g.new_blocks)
unfolding alloc_indirect1
alloc_indirect1_lem g current h = elim (Bool-cases (current == 28)) [
  | inr other ↦ (g, rw (other, alloc_indirect1) refl, ground (arith, other))
  | inl here ↦ elim (List-cases g.new_blocks) [
    | inl empty ↦ absurd (ground (arith, here, h, empty))
    | inr (b, rest, e) ↦ (
      record g { inode = record g.inode { indirect1 = b }; new_blocks = rest },
      rw (here, alloc_indirect1, e) refl,
      ground (arith, here, e),
    )
  ]
]

alloc_indirect2_lem :
    (g : Growth) (current : ℕ)
    → (if current == 128 then 1 else 0) ≤ length g.new_blocks
    → (g' : Growth) × (alloc_indirect2 g current ≡ some g')
      × (length g'.new_blocks + (if current == 128 then 1 else 0) ≡ length g.new_blocks)
unfolding alloc_indirect2
alloc_indirect2_lem g current h = elim (Bool-cases (current == 128)) [
  | inr other ↦ (g, rw (other, alloc_indirect2) refl, ground (arith, other))
  | inl here ↦ elim (List-cases g.new_blocks) [
    | inl empty ↦ absurd (ground (arith, here, h, empty))
    | inr (b, rest, e) ↦ (
      record g { inode = record g.inode { indirect2 = b }; new_blocks = rest },
      rw (here, alloc_indirect2, e) refl,
      ground (arith, here, e),
    )
  ]
]

-- What the part below the second index block takes.
abbrev need2 : ℕ → ℕ → ℕ
need2 current total = total - current + index_blocks (current % 128) (total - current)

grow_indirect2_lem :
    (g : Growth) (current total : ℕ)
    → current ≤ total
    → total ≤ 128 * 128
    → need2 current total ≤ length g.new_blocks
    → (g' : Growth) × (grow_indirect2 g current total ≡ some g')
      × (length g'.new_blocks + need2 current total ≡ length g.new_blocks)
unfolding grow_indirect2
grow_indirect2_lem g current total a b h =
    let (words, rest, e, len) =
      fill_indirect2_lem (total - current) g.words g.inode.indirect2 (current / 128) (current % 128)
        g.new_blocks (omega arith) (omega (arith, a, b)) h in
    (record g { words = words; new_blocks = rest }, rw (e, grow_indirect2) refl, len)

-- What the parts below both index blocks take.
abbrev after1 : ℕ → ℕ → ℕ
after1 current total = current + (min total 128 - current)

abbrev need1 : ℕ → ℕ → ℕ
need1 current total =
    let c = after1 current total in
    min total 128
    - current
    + (if ltb 128 total then (if c == 128 then 1 else 0) + need2 (c - 128) (total - 128) else 0)

-- The two ways of each step, from what its calls give.
module _ (g : Growth) (current total : ℕ) (words : Blocks) (rest : List ℕ)
    (e : fill_indirect1 (min total 128 - current) g.words g.inode.indirect1 current g.new_blocks
      ≡ some (words, rest)) where
  grow_indirect1_few :
      ltb 128 total ≡ false
      → grow_indirect1 g current total ≡ some (record g { words = words; new_blocks = rest })
  unfolding grow_indirect1
  grow_indirect1_few few = rw (e, grow_indirect1, few) refl

  grow_indirect1_more :
      ltb 128 total ≡ true
      → (g2 g3 : Growth)
      → alloc_indirect2 (record g { words = words; new_blocks = rest }) (after1 current total)
        ≡ some g2
      → grow_indirect2 g2 (after1 current total - 128) (total - 128) ≡ some g3
      → grow_indirect1 g current total ≡ some g3
  unfolding grow_indirect1
  grow_indirect1_more more g2 g3 e2 e3 = rw (e, grow_indirect1, more, e2, e3) refl

grow_indirect1_lem :
    (g : Growth) (current total : ℕ)
    → current ≤ total
    → total ≤ 128 + 128 * 128
    → need1 current total ≤ length g.new_blocks
    → (g' : Growth) × (grow_indirect1 g current total ≡ some g')
      × (length g'.new_blocks + need1 current total ≡ length g.new_blocks)
grow_indirect1_lem g current total a b h =
    let n = min total 128 - current in
    let (words, rest, e, len) =
      fill_indirect1_lem n g.words g.inode.indirect1 current g.new_blocks (omega (arith, h)) in
    let g1 : Growth = record g { words = words; new_blocks = rest } in
    elim (Bool-cases (ltb 128 total)) [
      | inr few ↦
          (g1, grow_indirect1_few g current total words rest e few, ground (arith, few, len))
      | inl more ↦
          let c = after1 current total in
          let (g2, e2, len2) = alloc_indirect2_lem g1 c (ground (arith, more, len, h)) in
          let (g3, e3, len3) =
            grow_indirect2_lem g2 (c - 128) (total - 128) (ground (arith, more, a))
              (omega (arith, b)) (ground (arith, more, len, len2, h)) in
          (
            g3,
            grow_indirect1_more g current total words rest e more g2 g3 e2 e3,
            ground (arith, more, len, len2, len3),
          )
    ]

-- What the whole of `increase_size` takes, by the numbers of data blocks.
abbrev need : ℕ → ℕ → ℕ
need current total =
    let c = current + (min total 28 - current) in
    min total 28
    - current
    + (if ltb 28 total then (if c == 28 then 1 else 0) + need1 (c - 28) (total - 28) else 0)

abbrev grown : DiskInode → ℕ → List ℕ → Blocks → List ℕ → Growth
grown inode new_size direct words rest = record {
  inode = record inode { size = new_size; direct = direct };
  words = words;
  new_blocks = rest;
}

module _ (words : Blocks) (inode : DiskInode) (new_size : ℕ) (bs direct rest : List ℕ)
    (e : fill_direct
        (min (data_blocks_of new_size) 28 - data_blocks_of inode.size)
        inode.direct
        (data_blocks_of inode.size)
        bs
      ≡ some (direct, rest)) where
  increase_size_few :
      ltb 28 (data_blocks_of new_size) ≡ false
      → increase_size words inode new_size bs ≡ some (grown inode new_size direct words rest)
  unfolding increase_size
  increase_size_few few = rw (e, increase_size, few) refl

  increase_size_more :
      ltb 28 (data_blocks_of new_size) ≡ true
      → (g1 g2 : Growth)
      → let c =
          data_blocks_of inode.size
          + (min (data_blocks_of new_size) 28 - data_blocks_of inode.size) in
        alloc_indirect1 (grown inode new_size direct words rest) c ≡ some g1
        → grow_indirect1 g1
            (data_blocks_of inode.size
              + (min (data_blocks_of new_size) 28 - data_blocks_of inode.size)
              - 28)
            (data_blocks_of new_size - 28)
          ≡ some g2
        → increase_size words inode new_size bs ≡ some g2
  unfolding increase_size
  increase_size_more more g1 g2 e1 e2 = rw (e, increase_size, more, e1, e2) refl

increase_size-need :
    (words : Blocks) (inode : DiskInode) (new_size : ℕ) (bs : List ℕ)
    → data_blocks_of inode.size ≤ data_blocks_of new_size
    → data_blocks_of new_size ≤ 16540
    → need (data_blocks_of inode.size) (data_blocks_of new_size) ≤ length bs
    → (g : Growth) × (increase_size words inode new_size bs ≡ some g)
      × (length g.new_blocks + need (data_blocks_of inode.size) (data_blocks_of new_size)
          ≡ length bs)
increase_size-need words inode new_size bs a b h =
    let current = data_blocks_of inode.size in
    let total = data_blocks_of new_size in
    let n = min total 28 - current in
    let (direct, rest, e, len) = fill_direct_lem n inode.direct current bs (omega (arith, h)) in
    let g = grown inode new_size direct words rest in
    elim (Bool-cases (ltb 28 total)) [
      | inr few ↦
          (g, increase_size_few words inode new_size bs direct rest e few, ground (arith, few, len))
      | inl more ↦
          let (g1, e1, len1) = alloc_indirect1_lem g (current + n) (ground (arith, more, len, h)) in
          let (g2, e2, len2) =
            grow_indirect1_lem g1 (current + n - 28) (total - 28) (ground (arith, more, a))
              (omega (arith, b)) (ground (arith, more, len, len1, h)) in
          (
            g2,
            increase_size_more words inode new_size bs direct rest e more g1 g2 e1 e2,
            ground (arith, more, len, len1, len2),
          )
    ]

-- `total_blocks` by the number of data blocks.
abbrev count : ℕ → ℕ
count d = d + (if ltb 28 d then 1 else 0) + (if ltb 156 d then 1 + (d - 156 + 128 - 1) / 128 else 0)

need_lem : (o n : ℕ) → o ≤ n → n ≤ 16540 → count o + need o n ≡ count n
need_lem o n a b = ground (arith, a, b)

data_blocks_of_mono : (a b : ℕ) → a ≤ b → b ≤ max_size → data_blocks_of a ≤ data_blocks_of b
unfolding data_blocks_of
data_blocks_of_mono a b h k = omega (arith, h, k)

total_blocks-count : (size : ℕ) → size ≤ max_size → total_blocks size ≡ count (data_blocks_of size)
unfolding total_blocks
total_blocks-count size h = ground (arith, data_blocks_of-max size h)

-- Growing an inode to a size within the limits of its index with as many new blocks as
-- `blocks_num_needed` asks for never lacks a block, and none is left over.
pub increase_size_lem :
    (words : Blocks) (inode : DiskInode) (new_size : ℕ) (bs : List ℕ)
    → inode.size ≤ new_size
    → new_size ≤ max_size
    → blocks_num_needed inode new_size ≡ some (length bs)
    → (g : Growth) × (increase_size words inode new_size bs ≡ some g) × (g.new_blocks ≡ [])
unfolding blocks_num_needed
increase_size_lem words inode new_size bs a b asked =
    let mono = data_blocks_of_mono inode.size new_size a b in
    let bound = data_blocks_of-max new_size b in
    let takes = need_lem (data_blocks_of inode.size) (data_blocks_of new_size) mono bound in
    let old = total_blocks-count inode.size (omega (arith, a, b)) in
    let new = total_blocks-count new_size b in
    let small : count (data_blocks_of new_size) < u32_mod = ground (arith, bound) in
    let given : sub32 (total_blocks new_size) (total_blocks inode.size) ≡ length bs =
      ground (arith, asked, a) in
    let exact : need (data_blocks_of inode.size) (data_blocks_of new_size) ≡ length bs =
      omega (arith, given, takes, old, new, small) in
    let (g, e, len) =
      increase_size-need words inode new_size bs mono bound (omega (arith, exact)) in
    let none_left : length g.new_blocks ≡ 0 = omega (arith, exact, len) in
    (
      g,
      e,
      elim (List-cases g.new_blocks) [
        | inl empty ↦ empty
        | inr (x, rest, some_left) ↦ absurd (ground (arith, none_left, some_left))
      ],
    )
