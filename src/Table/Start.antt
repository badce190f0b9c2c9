-- ===== src/Table/Start.antt =====
-- A new table, and what `translate` sees of a page that left the map.
use os_agent.Base.{
  ℕ, ◌+◌, ◌*◌, ◌/◌, ◌%◌, ◌^◌, ◌<◌, ◌≤◌, ◌≡◌, refl, true, false, Bool-cases, Option-cases, inl, inr,
  none, some, [], ◌∷◌, ◌⊎◌, arith, ◌==◌, if◌then◌else◌,
}
use os_agent.Alloc.Live.{IsValid}
use os_agent.Addr.{PhysPageNum, VirtPageNum, VirtAddr, floor, page_offset}
use os_agent.Table.{
  Ram, PageTable, new_table, unmap_page, translate, translate_va, find_pte, is_valid, empty_pte,
}
use os_agent.Table.Tree.{IsRooted, entry_of}
use os_agent.Table.Level.{entry_of_lem}
use os_agent.Table.Grown.{alloc_frame_lem, holds}
use os_agent.Table.Mapping.{find_pte-set_word}

abbrev pub only : PhysPageNum → ℕ → ℕ
only root q = if q == root then 1 else 0

-- A new table is a tree of one table, its map is empty, its root was held by nobody, and the frames
-- that were held keep their words; it panics only if no frame is left.
pub new_table-IsRooted :
    (ram : Ram)
    → IsValid ram.allocator.current ram.allocator.recycled
    → ram.allocator.current ≤ ram.allocator.end
    → ram.allocator.end ≤ 2 ^ 44
    → ((table : PageTable) × (ram' : Ram) × (new_table ram ≡ some (table, ram'))
        × IsRooted ram' table.root_ppn (only table.root_ppn)
        × ((vpn : VirtPageNum) → entry_of ram'.words table.root_ppn vpn ≡ none)
        × (holds ram table.root_ppn ≡ false)
        × ((b : ℕ) → holds ram (b / 512) ≡ true → ram'.words b ≡ ram.words b))
      ⊎ ((new_table ram ≡ none) × (ram.allocator.current ≡ ram.allocator.end))
unfolding new_table
new_table-IsRooted ram v c e = elim (alloc_frame_lem ram v c e) [
  | inr (gone, full, _) ↦ inr (rw (gone, new_table) refl, full)
  | inl (f, ram', gives, x) ↦ inl (
    record { root_ppn = f; frames = f ∷ [] },
    ram',
    rw (gives, new_table) refl,
    record {
      tree = record {
        root_first = ground arith;
        below = λ q i a b d g.
            let root : q ≡ f = ground (arith, a) in
            ground (arith, x.words_eq (q * 512 + i), root, d, g);
      };
      held = λ q a. ground (arith, x.held_eq q, a);
      frames_valid = x.valid;
      in_range = x.in_range;
      frames_small = omega (arith, x.end_eq, e);
    },
    λ vpn.
        let i0 = vpn / 2 ^ 9 / 2 ^ 9 % 512 in
        ground (arith, entry_of_lem ram'.words f vpn, x.words_eq (f * 512 + i0)),
    x.was_free,
    λ b a. ground (arith, x.words_eq b, x.was_free, a),
  )
]

-- `translate` does not look at the valid bit of the last entry: after `unmap`, the addresses of the
-- page lead to the physical addresses below 4096.
pub translate_va-unmapped :
    (ram : Ram) (table : PageTable) (place : ℕ → ℕ) (va : VirtAddr) (ram' : Ram)
    → IsRooted ram table.root_ppn place
    → va < 2 ^ 39
    → unmap_page ram table (floor va) ≡ some ram'
    → translate_va ram'.words table va ≡ some (page_offset va)
unfolding unmap_page translate translate_va
translate_va-unmapped ram table place va ram' r h e =
    let root = table.root_ppn in
    let vpn = floor va in
    elim (Option-cases (find_pte ram.words root vpn)) [
      | inl missing ↦ ground (arith, missing, e)
      | inr (slot, found) ↦
          let same =
            find_pte-set_word ram.words root place vpn slot empty_pte r.tree (omega (arith, h))
              found vpn in
          elim (Bool-cases (is_valid (ram.words slot))) [
            | inr bad ↦ ground (arith, found, bad, e)
            | inl good ↦ ground (arith, found, good, e, same)
          ]
    ]
