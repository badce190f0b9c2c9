-- ===== src/Table/Level.antt =====
-- A new table under an entry that was not valid: the tree grows by one place, and the map stays.
use os_agent.Base.{
  ℕ, ◌+◌, ◌*◌, ◌/◌, ◌%◌, ◌^◌, ◌<◌, ◌≡◌, ◌≢◌, ap, false, Bool-cases, inl, inr, none, some, arith,
  ◌==◌, if◌then◌else◌,
}
use os_agent.Addr.{PhysPageNum, indexes, indexes_from}
use os_agent.Table.{Words, pte_ppn, is_valid, new_pte, flag_v, find_from}
use os_agent.Table.Tree.{IsTree, entry_of}

-- The words after page `f`, which was no table, was cleared and put under the entry at `slot`.
pub record IsExtended (words words' : Words) (place : ℕ → ℕ) (slot f : ℕ) : Type 0 where
  pub not_valid : is_valid (words slot) ≡ false
  pub fresh : place f ≡ 0
  pub small : f < 2 ^ 44
  pub read :
      (q i : ℕ)
      → 0 < place q
      → i < 512
      → words' (q * 512 + i)
        ≡ (if q * 512 + i == slot then new_pte f flag_v else words (q * 512 + i))
  pub cleared : (i : ℕ) → i < 512 → words' (f * 512 + i) ≡ 0

abbrev pub put : (ℕ → ℕ) → ℕ → ℕ → ℕ → ℕ
put place f n q = if q == f then n else place q

pub IsTree-extended :
    (words words' : Words) (root : PhysPageNum) (place : ℕ → ℕ) (p idx f : ℕ)
    → IsTree words root place
    → 0 < place p
    → idx < 512
    → IsExtended words words' place (p * 512 + idx) f
    → IsTree words' root (put place f (place p * 512 + idx))
IsTree-extended words words' root place p idx f t h i x = record {
  root_first = ground (arith, t.root_first, x.fresh);
  below = λ q j a b c d. elim (Bool-cases (q == f)) [
    | inl e ↦ ground (arith, x.cleared j c, d, e)
    | inr e ↦
        let a' : 0 < place q = ground (arith, a, e) in
        let b' : place q < 2 ^ 18 = ground (arith, b, e) in
        elim (Bool-cases (q * 512 + j == p * 512 + idx)) [
          | inl at ↦ ground (arith, x.read q j a' c, x.small, at, e)
          | inr at ↦
              let same : words' (q * 512 + j) ≡ words (q * 512 + j) =
                ground (arith, x.read q j a' c, at) in
              let next = t.below q j a' b' c (ground (arith, d, same)) in
              rw same (ground (arith, next, x.fresh, e, a'))
        ]
  ];
}

-- The three words on the way to a page, as `entry_of` reads them.
pub entry_of_lem :
    (words : Words) (root vpn : ℕ)
    → let e0 = words (root * 512 + vpn / 2 ^ 9 / 2 ^ 9 % 512) in
      let e1 = words (pte_ppn e0 * 512 + vpn / 2 ^ 9 % 512) in
      let e2 = words (pte_ppn e1 * 512 + vpn % 512) in
      entry_of words root vpn ≡ (
        if is_valid e0
        then (if is_valid e1 then (if is_valid e2 then some e2 else none) else none)
        else none)
unfolding entry_of find_from indexes indexes_from
entry_of_lem words root vpn = ground arith

pub entry_of-extended :
    (words words' : Words) (root : PhysPageNum) (place : ℕ → ℕ) (p idx f : ℕ)
    → IsTree words root place
    → 0 < place p
    → place p < 2 ^ 18
    → idx < 512
    → IsExtended words words' place (p * 512 + idx) f
    → (vpn : ℕ) → entry_of words' root vpn ≡ entry_of words root vpn
entry_of-extended words words' root place p idx f t h small i x vpn =
    let slot = p * 512 + idx in
    let i0 = vpn / 2 ^ 9 / 2 ^ 9 % 512 in
    let i1 = vpn / 2 ^ 9 % 512 in
    let i2 = vpn % 512 in
    let e0 = words (root * 512 + i0) in
    let e1 = words (pte_ppn e0 * 512 + i1) in
    let r0 = x.read root i0 (omega (arith, t.root_first)) (omega arith) in
    let new = entry_of_lem words' root vpn in
    let old = entry_of_lem words root vpn in
    elim (Bool-cases (root * 512 + i0 == slot)) [
      | inl at ↦ ground (arith, new, old, r0, at, x.not_valid, x.small, x.cleared i1 (omega arith))
      | inr away0 ↦
          let same0 : words' (root * 512 + i0) ≡ e0 = ground (arith, r0, away0) in
          elim (Bool-cases (is_valid e0)) [
            | inr bad ↦ ground (arith, new, old, same0, bad)
            | inl good0 ↦
                let at0 =
                  t.below root i0 (omega (arith, t.root_first)) (omega (arith, t.root_first))
                    (omega arith) good0 in
                let place0 : place (pte_ppn e0) ≡ 512 + i0 = omega (arith, at0, t.root_first) in
                let r1 = x.read (pte_ppn e0) i1 (omega (arith, place0)) (omega arith) in
                elim (Bool-cases (pte_ppn e0 * 512 + i1 == slot)) [
                  | inl at ↦ ground (
                    arith,
                    new,
                    old,
                    same0,
                    good0,
                    r1,
                    at,
                    x.not_valid,
                    x.small,
                    x.cleared i2 (omega arith),
                  )
                  | inr away1 ↦
                      let same1 : words' (pte_ppn e0 * 512 + i1) ≡ e1 = ground (arith, r1, away1) in
                      elim (Bool-cases (is_valid e1)) [
                        | inr bad ↦ ground (arith, new, old, same0, good0, same1, bad)
                        | inl good1 ↦
                            let at1 =
                              t.below (pte_ppn e0) i1 (omega (arith, place0))
                                (omega (arith, place0)) (omega arith) good1 in
                            let apart : pte_ppn e1 ≢ p =
                              λ e. omega (arith, at1, place0, small, ap place e) in
                            let r2 =
                              x.read (pte_ppn e1) i2 (omega (arith, at1, place0)) (omega arith) in
                            let same2 : words' (pte_ppn e1 * 512 + i2)
                                ≡ words (pte_ppn e1 * 512 + i2) =
                              ground (arith, r2, apart) in
                            ground (arith, new, old, same0, good0, same1, good1, same2)
                      ]
                ]
          ]
    ]
