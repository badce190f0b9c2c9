-- ===== src/Space/Build.antt =====
-- os/src/mm/memory_set.rs: the operations of a memory set. The addresses of the linker and the program
-- headers that `xmas_elf` reads are arguments.
use Prim.Native.Nat.{◌-◌, ◌/◌, ◌%◌}
use os_agent.Base.{
  ℕ, zero, suc, ◌+◌, ◌*◌, ◌^◌, Option, none, some, List, [], ◌∷◌, ◌++◌, leb, ◌==◌, if◌then◌else◌,
  length, take, drop,
}
use os_agent.Alloc.{page_size, trampoline}
use os_agent.Addr.{
  PhysAddr, VirtAddr, VirtPageNum, into_virt_addr, into_phys_addr, addr_of_page, page_of_addr, step,
}
use os_agent.Table.{Words, Ram, PageTable, pte_ppn, flag_r, flag_x, map_page, translate, set_word}
use os_agent.Space.{
  MapType, identical, framed, MapPermission, MapArea, new_area, drop_frames, Mapping, map_area,
  unmap_area, MemorySet, new_bare,
}

abbrev pub user_stack_size : ℕ
user_stack_size = 4096 * 2

abbrev pub trap_context : ℕ
trap_context = trampoline - page_size

abbrev pub memory_end : ℕ
memory_end = 0x8800_0000

abbrev pub mmio : List (ℕ × ℕ)
mmio = (0x0010_0000, 0x00_2000) ∷ (0x1000_1000, 0x00_1000) ∷ []

-- A byte of the memory is one of the eight of its word, the lowest first.
unfoldable pub set_byte : Words → PhysAddr → ℕ → Words
set_byte words pa v =
    let w = words (pa / 8) in
    let unit = 256 ^ (pa % 8) in
    set_word words (pa / 8) (w % unit + v * unit + w / (unit * 256) * (unit * 256))

unfoldable pub write_bytes : Words → PhysAddr → List ℕ → Words
write_bytes words pa [] = words
write_bytes words pa (v ∷ vs) = write_bytes (set_byte words pa v) (pa + 1) vs

-- The loop of `copy_data`, on the data from `start` on; each turn but the last copies a page.
unfoldable pub copy_from : ℕ → Words → PageTable → VirtPageNum → List ℕ → Option Words
copy_from zero words table vpn bytes = none
copy_from (suc fuel) words table vpn bytes = elim (translate words table vpn) [
  | none ↦ none
  | some pte ↦
      let words' = write_bytes words (addr_of_page (pte_ppn pte)) (take page_size bytes) in
      let rest = copy_from fuel words' table (step vpn) (drop page_size bytes) in
      if leb (length bytes) page_size then some words' else rest
]

unfoldable pub copy_data : Mapping → List ℕ → Option Mapping
copy_data m bytes = elim m.area.map_type [
  | identical ↦ none
  | framed ↦
      elim (copy_from (length bytes / page_size + 1) m.ram.words m.table m.area.vpn_range.l bytes) [
        | none ↦ none
        | some words ↦ some (record m { ram = record m.ram { words = words } })
      ]
]

-- A memory set in the memory.
pub record Space : Type 0 where
  pub set : MemorySet
  pub ram : Ram

abbrev pub settle : Space → Mapping → Space
settle s m = record {
  set = record { page_table = m.table; areas = s.set.areas ++ (m.area ∷ []) };
  ram = m.ram;
}

unfoldable pub push : Space → MapArea → Option (List ℕ) → Option Space
push s area contents =
    elim (map_area (record { area = area; table = s.set.page_table; ram = s.ram })) [
      | none ↦ none
      | some m ↦ elim contents [
        | none ↦ some (settle s m)
        | some bytes ↦ elim (copy_data m bytes) [ none ↦ none | some m' ↦ some (settle s m') ]
      ]
    ]

unfoldable pub push_new : Space → VirtAddr → VirtAddr → MapType → MapPermission → Option Space
push_new s start_va end_va map_type perm = elim (new_area start_va end_va map_type perm) [
  | none ↦ none
  | some area ↦ push s area none
]

abbrev pub insert_framed_area : Space → VirtAddr → VirtAddr → MapPermission → Option Space
insert_framed_area s start_va end_va perm = push_new s start_va end_va framed perm

-- The areas before the first that starts at a page, that area, and those after it.
unfoldable pub find_area :
    List MapArea → VirtPageNum → Option (List MapArea × (MapArea × List MapArea))
find_area [] start_vpn = none
find_area (area ∷ areas) start_vpn =
    let rest = find_area areas start_vpn in
    if area.vpn_range.l == start_vpn
    then some ([], (area, areas))
    else elim rest [ none ↦ none | some (before, found) ↦ some (area ∷ before, found) ]

-- The area is unmapped and taken out, and its drop gives back the frames that it has left.
unfoldable pub remove_area_with_start_vpn : Space → VirtPageNum → Option Space
remove_area_with_start_vpn s start_vpn = elim (find_area s.set.areas start_vpn) [
  | none ↦ some s
  | some (before, (area, after)) ↦
      elim (unmap_area (record { area = area; table = s.set.page_table; ram = s.ram })) [
        | none ↦ none
        | some m ↦ elim (drop_frames m.ram m.area.data_frames) [
          | none ↦ none
          | some ram ↦
              some (record {
                set = record { page_table = m.table; areas = before ++ after };
                ram = ram;
              })
        ]
      ]
]

unfoldable pub drop_areas : Ram → List MapArea → Option Ram
drop_areas ram [] = some ram
drop_areas ram (area ∷ areas) = elim (drop_frames ram area.data_frames) [
  | none ↦ none
  | some ram' ↦ drop_areas ram' areas
]

-- `recycle_data_pages`: the table keeps its entries.
unfoldable pub recycle_data_pages : Space → Option Space
recycle_data_pages s = elim (drop_areas s.ram s.set.areas) [
  | none ↦ none
  | some ram ↦ some (record { set = record s.set { areas = [] }; ram = ram })
]

unfoldable pub map_trampoline : Space → ℕ → Option Space
map_trampoline s strampoline = elim (page_of_addr (into_virt_addr trampoline)) [
  | none ↦ none
  | some vpn ↦ elim (page_of_addr (into_phys_addr strampoline)) [
    | none ↦ none
    | some ppn ↦ elim (map_page s.ram s.set.page_table vpn ppn (flag_r + flag_x)) [
      | none ↦ none
      | some (table, ram) ↦ some (record { set = record s.set { page_table = table }; ram = ram })
    ]
  ]
]

-- `new_bare` with the trampoline, as the three constructors begin.
unfoldable pub begin : Ram → ℕ → Option Space
begin ram strampoline = elim (new_bare ram) [
  | none ↦ none
  | some (set, ram') ↦ map_trampoline (record { set = set; ram = ram' }) strampoline
]
