-- ===== src/Space/Insert.antt =====
-- `insert_framed_area` adds the pages of an area to the map of a memory set.
use os_agent.Base.{
  ℕ, ◌-◌, ◌^◌, ◌<◌, ◌≤◌, ◌≡◌, refl, true, inl, inr, none, some, [], ◌⊎◌, arith, leb,
}
use os_agent.BTree.{get}
use os_agent.Addr.{VirtAddr, floor, ceil, new_range, pages}
use os_agent.Table.Tree.{IsRooted}
use os_agent.Space.{framed, MapPermission, new_area, Mapping}
use os_agent.Space.Build.{Space, settle, push, push_new, insert_framed_area}
use os_agent.Space.Range.{IsSpread, IsHindered, map_all-IsSpread}

-- The area that `insert_framed_area` starts from, with the table and the memory.
abbrev pub fresh_area : Space → ℕ → ℕ → MapPermission → Mapping
fresh_area s l r perm = record {
  area = record {
    vpn_range = record { l = l; r = r };
    data_frames = [];
    map_type = framed;
    map_perm = perm;
  };
  table = s.set.page_table;
  ram = s.ram;
}

-- Where the bounds are in order, `insert_framed_area` either maps every page from the floor of the
-- start to the ceiling of the end to a frame of its own, which nobody held, with the permission asked
-- for, leaves the other pages and the frames of others as they were, and adds the area; or it panics,
-- and then a page of the range was mapped or fewer than three frames a page were never handed out.
pub insert_framed_area-IsSpread :
    (s : Space) (place : ℕ → ℕ) (start_va end_va : VirtAddr) (perm : MapPermission)
    → floor start_va ≤ ceil end_va
    → ceil end_va ≤ 2 ^ 27
    → perm < 2 ^ 8
    → IsRooted s.ram s.set.page_table.root_ppn place
    → let m = fresh_area s (floor start_va) (ceil end_va) perm in
      ((m' : Mapping) × (insert_framed_area s start_va end_va perm ≡ some (settle s m'))
        × IsSpread m place (floor start_va) (ceil end_va) m')
      ⊎ ((insert_framed_area s start_va end_va perm ≡ none)
          × IsHindered m (floor start_va) (ceil end_va))
unfolding push_new push new_area new_range pages get
insert_framed_area-IsSpread s place start_va end_va perm order small bits rooted =
    let m = fresh_area s (floor start_va) (ceil end_va) perm in
    let ordered : leb (floor start_va) (ceil end_va) ≡ true = ground (arith, order) in
    let steps =
      map_all-IsSpread (ceil end_va - floor start_va) m place (floor start_va) (ceil end_va)
        (omega (arith, order)) small refl bits (λ q a. refl) rooted in
    elim steps [
      | inl (m', goes, spread) ↦
          inl (m', rw (ordered, push_new, new_area, new_range, push, goes) refl, spread)
      | inr (fails, hindered) ↦
          inr (rw (ordered, push_new, new_area, new_range, push, fails) refl, hindered)
    ]
