-- ===== src/Space.antt =====
-- os/src/mm/memory_set.rs: map areas and memory sets. `none` is a panic: of an assertion, of an
-- `unwrap`, of a frame that the allocator does not have, or of one that it refuses to take back.
pub mod Build
pub mod Images
pub mod Framed
pub mod Range
pub mod Insert
mod Tests
use Prim.Native.Nat.{◌-◌, ◌/◌, ◌%◌, min, compare, Ordering}
use os_agent.Base.{
  ℕ, zero, suc, ◌+◌, ◌*◌, ◌^◌, Bool, true, false, Option, none, some, List, [], ◌∷◌, ◌++◌, ltb, leb,
  ◌==◌, if◌then◌else◌, length, get_elem?, take, drop, ◌≡◌, ◌↔◌, arith,
}
use os_agent.BTree.{Ord, Map, insert, remove, get}
use os_agent.Alloc.{page_size, trampoline, frame_dealloc}
use os_agent.Addr.{
  PhysAddr, VirtAddr, PhysPageNum, VirtPageNum, into_virt_addr, into_phys_addr, floor, ceil,
  addr_of_page, page_of_addr, step, SimpleRange, new_range, pages,
}
use os_agent.Table.{
  Words, Ram, PageTable, pte_ppn, flag_r, flag_w, flag_x, flag_u, alloc_frame, new_table, map_page,
  unmap_page, translate, set_word,
}

pub cmp_page_eq : (a b : ℕ) → (compare a b ≡ Ordering.eq) ↔ (a ≡ b)
cmp_page_eq a b = ground arith

pub cmp_page_gt : (a b : ℕ) → compare a b ≡ Ordering.gt → compare b a ≡ Ordering.lt
cmp_page_gt a b = ground arith

pub cmp_page_trans :
    (a b c : ℕ) → compare a b ≡ Ordering.lt → compare b c ≡ Ordering.lt → compare a c ≡ Ordering.lt
cmp_page_trans a b c = ground arith

instance abbrev pub page_ord : Ord VirtPageNum
page_ord = record {
  cmp = compare;
  cmp_eq = cmp_page_eq;
  cmp_gt = cmp_page_gt;
  cmp_trans = cmp_page_trans;
}

pub data MapType : Type 0 where
  identical framed : MapType

-- `MapPermission` has the bits of the page table entry's flags.
abbrev pub MapPermission : Type 0
MapPermission = ℕ

pub record MapArea : Type 0 where
  pub vpn_range : SimpleRange
  pub data_frames : Map VirtPageNum PhysPageNum
  pub map_type : MapType
  pub map_perm : MapPermission

unfoldable pub new_area : VirtAddr → VirtAddr → MapType → MapPermission → Option MapArea
new_area start_va end_va map_type map_perm = elim (new_range (floor start_va) (ceil end_va)) [
  | none ↦ none
  | some range ↦
      some
        (record { vpn_range = range; data_frames = []; map_type = map_type; map_perm = map_perm })
]

unfoldable pub from_another : MapArea → Option MapArea
from_another another = elim (new_range another.vpn_range.l another.vpn_range.r) [
  | none ↦ none
  | some range ↦ some (record another { vpn_range = range; data_frames = [] })
]

-- The drop of a `FrameTracker`.
unfoldable pub drop_frame : Ram → PhysPageNum → Option Ram
drop_frame ram ppn = elim (frame_dealloc ram.allocator ppn) [
  | none ↦ none
  | some allocator ↦ some (record ram { allocator = allocator })
]

-- The drop of a map of them, in the order of the keys.
unfoldable pub drop_frames : Ram → Map VirtPageNum PhysPageNum → Option Ram
drop_frames ram [] = some ram
drop_frames ram ((vpn, ppn) ∷ frames) = elim (drop_frame ram ppn) [
  | none ↦ none
  | some ram' ↦ drop_frames ram' frames
]

-- A map area at work: the area, the table it is mapped into, and the memory.
pub record Mapping : Type 0 where
  pub area : MapArea
  pub table : PageTable
  pub ram : Ram

-- The frame of a page; a new frame under a key that is there already drops the old one.
unfoldable pub frame_for : Mapping → VirtPageNum → Option (PhysPageNum × Mapping)
frame_for m vpn = elim m.area.map_type [
  | identical ↦ some (vpn, m)
  | framed ↦ elim (alloc_frame m.ram) [
    | none ↦ none
    | some (ppn, ram) ↦
        let frames = insert vpn ppn m.area.data_frames in
        let m' : Mapping = record m { area = record m.area { data_frames = frames }; ram = ram } in
        elim (get vpn m.area.data_frames) [
          | none ↦ some (ppn, m')
          | some old ↦ elim (drop_frame ram old) [
            | none ↦ none
            | some ram' ↦ some (ppn, record m' { ram = ram' })
          ]
        ]
  ]
]

unfoldable pub map_one : Mapping → VirtPageNum → Option Mapping
map_one m vpn = elim (frame_for m vpn) [
  | none ↦ none
  | some (ppn, m') ↦ elim (map_page m'.ram m'.table vpn ppn m'.area.map_perm) [
    | none ↦ none
    | some (table, ram) ↦ some (record m' { table = table; ram = ram })
  ]
]

unfoldable pub forget_frame : Mapping → VirtPageNum → Option Mapping
forget_frame m vpn = elim m.area.map_type [
  | identical ↦ some m
  | framed ↦
      let m' : Mapping = record m {
        area = record m.area { data_frames = remove vpn m.area.data_frames };
      } in
      elim (get vpn m.area.data_frames) [
        | none ↦ some m'
        | some old ↦ elim (drop_frame m.ram old) [
          | none ↦ none
          | some ram ↦ some (record m' { ram = ram })
        ]
      ]
]

unfoldable pub unmap_one : Mapping → VirtPageNum → Option Mapping
unmap_one m vpn = elim (forget_frame m vpn) [
  | none ↦ none
  | some m' ↦ elim (unmap_page m'.ram m'.table vpn) [
    | none ↦ none
    | some ram ↦ some (record m' { ram = ram })
  ]
]

unfoldable pub map_all : Mapping → List VirtPageNum → Option Mapping
map_all m [] = some m
map_all m (vpn ∷ vpns) = elim (map_one m vpn) [ none ↦ none | some m' ↦ map_all m' vpns ]

unfoldable pub unmap_all : Mapping → List VirtPageNum → Option Mapping
unmap_all m [] = some m
unmap_all m (vpn ∷ vpns) = elim (unmap_one m vpn) [ none ↦ none | some m' ↦ unmap_all m' vpns ]

-- `MapArea::map` and `MapArea::unmap`
abbrev pub map_area : Mapping → Option Mapping
map_area m = map_all m (pages m.area.vpn_range)

abbrev pub unmap_area : Mapping → Option Mapping
unmap_area m = unmap_all m (pages m.area.vpn_range)

pub record MemorySet : Type 0 where
  pub page_table : PageTable
  pub areas : List MapArea

-- `new_bare`
unfoldable pub new_bare : Ram → Option (MemorySet × Ram)
new_bare ram = elim (new_table ram) [
  | none ↦ none
  | some (table, ram') ↦ some (record { page_table = table; areas = [] }, ram')
]
