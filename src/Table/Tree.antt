-- ===== src/Table/Tree.antt =====
-- The tree that a page table is, and the map from pages to entries that it stands for.
use os_agent.Base.{
  ℕ, ◌+◌, ◌*◌, ◌/◌, ◌%◌, ◌^◌, ◌<◌, ◌≤◌, ◌≡◌, true, Bool-cases, inl, inr, Option, none, some, arith,
  if◌then◌else◌,
}
use os_agent.Alloc.Live.{is_held, IsValid}
use os_agent.Addr.{PhysPageNum, VirtPageNum, indexes, indexes_from}
use os_agent.Table.{Words, Ram, pte_ppn, is_valid, find_from, find_pte}

-- The map that a table stands for: the valid entries.
unfoldable pub entry_of : Words → PhysPageNum → VirtPageNum → Option ℕ
entry_of words root vpn = elim (find_pte words root vpn) [
  | none ↦ none
  | some slot ↦ if is_valid (words slot) then some (words slot) else none
]

-- The root has place 1, the table that entry `idx` of the table in place `n` points to has place
-- `n * 512 + idx`, and a page that is no table has place 0: one place for each page, so the tables
-- form a tree. All tables are frames that the allocator has handed out.
module _ (words : Words) (root : PhysPageNum) (place : ℕ → ℕ) where
  pub record IsTree : Type 0 where
    pub root_first : place root ≡ 1
    pub below :
        (p idx : ℕ)
        → 0 < place p
        → place p < 2 ^ 18
        → idx < 512
        → is_valid (words (p * 512 + idx)) ≡ true
        → place (pte_ppn (words (p * 512 + idx))) ≡ place p * 512 + idx

pub record IsRooted (ram : Ram) (root : PhysPageNum) (place : ℕ → ℕ) : Type 0 where
  pub tree : IsTree ram.words root place
  pub held : (p : ℕ) → 0 < place p → is_held ram.allocator.current ram.allocator.recycled p ≡ true
  pub frames_valid : IsValid ram.allocator.current ram.allocator.recycled
  pub in_range : ram.allocator.current ≤ ram.allocator.end
  pub frames_small : ram.allocator.end ≤ 2 ^ 44

-- An entry that is found is in the table of the last level whose place and index spell the page.
pub find_pte-place :
    (words : Words) (root : PhysPageNum) (place : ℕ → ℕ) (vpn slot : ℕ)
    → IsTree words root place
    → find_pte words root vpn ≡ some slot
    → vpn < 2 ^ 27
    → (p : ℕ) × (place p ≡ 2 ^ 18 + vpn / 512) × (slot ≡ p * 512 + vpn % 512)
unfolding find_from indexes indexes_from
find_pte-place words root place vpn slot t h bound =
    let i0 = vpn / 2 ^ 9 / 2 ^ 9 % 512 in
    let i1 = vpn / 2 ^ 9 % 512 in
    let e0 = words (root * 512 + i0) in
    let e1 = words (pte_ppn e0 * 512 + i1) in
    elim (Bool-cases (is_valid e0)) [
      | inr bad ↦ ground (arith, h, bad)
      | inl yes0 ↦ elim (Bool-cases (is_valid e1)) [
        | inr bad ↦ ground (arith, h, bad, yes0)
        | inl yes1 ↦
            let at0 =
              t.below root i0 (omega (arith, t.root_first)) (omega (arith, t.root_first))
                (omega arith) yes0 in
            let place0 : place (pte_ppn e0) ≡ 512 + i0 = omega (arith, at0, t.root_first) in
            let at1 =
              t.below (pte_ppn e0) i1 (omega (arith, place0)) (omega (arith, place0)) (omega arith)
                yes1 in
            (pte_ppn e1, omega (arith, at1, place0, bound), ground (arith, h, yes0, yes1))
      ]
    ]
