-- ===== src/Space/Images.antt =====
-- os/src/mm/memory_set.rs: the memory sets of the kernel, of a program and of a fork.
use Prim.Native.Nat.{◌-◌, ◌/◌, ◌%◌}
use os_agent.Base.{
  ℕ, ◌+◌, ◌*◌, Bool, false, Option, none, some, List, [], ◌∷◌, leb, ◌==◌, ◌&&◌, not, if◌then◌else◌,
  length, take, drop, add64,
}
use os_agent.Alloc.{page_size, trampoline}
use os_agent.Addr.{
  PhysPageNum, VirtPageNum, into_virt_addr, virt_addr_into_usize, floor, addr_of_page, pages,
}
use os_agent.Table.{
  Words, Ram, pte_ppn, flag_r, flag_w, flag_x, flag_u, translate, writable, executable,
}
use os_agent.Space.{identical, framed, MapPermission, MapArea, new_area, from_another, MemorySet}
use os_agent.Space.Build.{
  Space, push, push_new, begin, user_stack_size, trap_context, memory_end, mmio,
}

-- The addresses that the linker gives.
pub record Symbols : Type 0 where
  pub stext : ℕ
  pub etext : ℕ
  pub srodata : ℕ
  pub erodata : ℕ
  pub sdata : ℕ
  pub edata : ℕ
  pub sbss_with_stack : ℕ
  pub ebss : ℕ
  pub ekernel : ℕ
  pub strampoline : ℕ

-- A section that is mapped to itself: its bounds and its permission.
pub record Section : Type 0 where
  pub start : ℕ
  pub end : ℕ
  pub perm : MapPermission

abbrev pub mmio_sections : List (ℕ × ℕ) → List Section
mmio_sections [] = []
mmio_sections ((start, size) ∷ pairs) =
    record { start = start; end = add64 start size; perm = flag_r + flag_w } ∷ mmio_sections pairs

abbrev pub kernel_sections : Symbols → List Section
kernel_sections y =
    record { start = y.stext; end = y.etext; perm = flag_r + flag_x }
    ∷ record { start = y.srodata; end = y.erodata; perm = flag_r }
    ∷ record { start = y.sdata; end = y.edata; perm = flag_r + flag_w }
    ∷ record { start = y.sbss_with_stack; end = y.ebss; perm = flag_r + flag_w }
    ∷ record { start = y.ekernel; end = memory_end; perm = flag_r + flag_w }
    ∷ mmio_sections mmio

unfoldable pub push_sections : Space → List Section → Option Space
push_sections s [] = some s
push_sections s (n ∷ sections) =
    elim (push_new s (into_virt_addr n.start) (into_virt_addr n.end) identical n.perm) [
      | none ↦ none
      | some s' ↦ push_sections s' sections
    ]

unfoldable pub new_kernel : Ram → Symbols → Option Space
new_kernel ram y = elim (begin ram y.strampoline) [
  | none ↦ none
  | some s ↦ push_sections s (kernel_sections y)
]

-- A program header as `xmas_elf` gives it.
pub record ProgramHeader : Type 0 where
  pub is_load : Bool
  pub virtual_addr : ℕ
  pub mem_size : ℕ
  pub offset : ℕ
  pub file_size : ℕ
  pub is_read : Bool
  pub is_write : Bool
  pub is_execute : Bool

pub record Elf : Type 0 where
  pub magic_ok : Bool
  pub headers : List ProgramHeader
  pub entry_point : ℕ

abbrev pub map_perm_of : ProgramHeader → MapPermission
map_perm_of ph =
    flag_u
    + (if ph.is_read then flag_r else 0)
    + (if ph.is_write then flag_w else 0)
    + (if ph.is_execute then flag_x else 0)

-- `&elf.input[from..to]`; `none` is the panic.
unfoldable pub input_of : List ℕ → ℕ → ℕ → Option (List ℕ)
input_of elf_data from to =
    if leb from to && leb to (length elf_data)
    then some (take (to - from) (drop from elf_data))
    else none

unfoldable pub load_header : Space → List ℕ → ProgramHeader → Option (Space × VirtPageNum)
load_header s elf_data ph =
    elim (new_area (into_virt_addr ph.virtual_addr)
      (into_virt_addr (add64 ph.virtual_addr ph.mem_size)) framed (map_perm_of ph)) [
        | none ↦ none
        | some area ↦ elim (input_of elf_data ph.offset (add64 ph.offset ph.file_size)) [
          | none ↦ none
          | some bytes ↦ elim (push s area (some bytes)) [
            | none ↦ none
            | some s' ↦ some (s', area.vpn_range.r)
          ]
        ]
      ]

-- The loop over the headers, with `max_end_vpn`.
unfoldable pub load_headers :
    Space → List ℕ → VirtPageNum → List ProgramHeader → Option (Space × VirtPageNum)
load_headers s elf_data max_end_vpn [] = some (s, max_end_vpn)
load_headers s elf_data max_end_vpn (ph ∷ headers) =
    let skip = load_headers s elf_data max_end_vpn headers in
    if ph.is_load
    then elim (load_header s elf_data ph) [
      | none ↦ none
      | some (s', end_vpn) ↦ load_headers s' elf_data end_vpn headers
    ]
    else skip

-- A program in memory: its space, the top of its stack and its entry point.
pub record Image : Type 0 where
  pub space : Space
  pub user_sp : ℕ
  pub entry_point : ℕ

-- The user stack above a guard page, then the page of the trap context.
unfoldable pub add_stack : Space → VirtPageNum → ℕ → Option Image
add_stack s max_end_vpn entry_point =
    let user_stack_bottom = add64 (virt_addr_into_usize (addr_of_page max_end_vpn)) page_size in
    let user_stack_top = add64 user_stack_bottom user_stack_size in
    elim (push_new s (into_virt_addr user_stack_bottom) (into_virt_addr user_stack_top) framed
      (flag_r + flag_w + flag_u)) [
        | none ↦ none
        | some s1 ↦
            elim (push_new s1 (into_virt_addr trap_context) (into_virt_addr trampoline) framed
              (flag_r + flag_w)) [
                | none ↦ none
                | some s2 ↦
                    some
                      (record { space = s2; user_sp = user_stack_top; entry_point = entry_point })
              ]
      ]

unfoldable pub from_elf : (List ℕ → Option Elf) → Ram → ℕ → List ℕ → Option Image
from_elf parse ram strampoline elf_data = elim (begin ram strampoline) [
  | none ↦ none
  | some s ↦ elim (parse elf_data) [
    | none ↦ none
    | some elf ↦ if not elf.magic_ok then none else elim (load_headers s elf_data 0 elf.headers) [
      | none ↦ none
      | some (s', max_end_vpn) ↦ add_stack s' max_end_vpn elf.entry_point
    ]
  ]
]

abbrev pub copy_page : Words → PhysPageNum → PhysPageNum → Words
copy_page words src dst = λ b. if b / 512 == dst then words (src * 512 + b % 512) else words b

-- The pages of an area are copied from the one table to the other.
unfoldable pub copy_pages : MemorySet → Space → List VirtPageNum → Option Space
copy_pages user s [] = some s
copy_pages user s (vpn ∷ vpns) = elim (translate s.ram.words user.page_table vpn) [
  | none ↦ none
  | some src ↦ elim (translate s.ram.words s.set.page_table vpn) [
    | none ↦ none
    | some dst ↦
        let words = copy_page s.ram.words (pte_ppn src) (pte_ppn dst) in
        copy_pages user (record s { ram = record s.ram { words = words } }) vpns
  ]
]

unfoldable pub copy_areas : MemorySet → Space → List MapArea → Option Space
copy_areas user s [] = some s
copy_areas user s (area ∷ areas) = elim (from_another area) [
  | none ↦ none
  | some new ↦ elim (push s new none) [
    | none ↦ none
    | some s1 ↦ elim (copy_pages user s1 (pages area.vpn_range)) [
      | none ↦ none
      | some s2 ↦ copy_areas user s2 areas
    ]
  ]
]

unfoldable pub from_existed_user : Ram → ℕ → MemorySet → Option Space
from_existed_user ram strampoline user = elim (begin ram strampoline) [
  | none ↦ none
  | some s ↦ copy_areas user s user.areas
]

-- The entry in the middle of a section.
unfoldable pub middle_of : Space → ℕ → ℕ → Option ℕ
middle_of s start end =
    translate s.ram.words s.set.page_table (floor (into_virt_addr (add64 start end / 2)))

abbrev pub fails : (ℕ → Bool) → Option ℕ → Bool
fails test none = false
fails test (some pte) = not (test pte)

-- `remap_test`: whether no assertion and no `unwrap` panics.
unfoldable pub remap_test : Space → Symbols → Bool
remap_test s y =
    fails writable (middle_of s y.stext y.etext)
    && fails writable (middle_of s y.srodata y.erodata)
    && fails executable (middle_of s y.sdata y.edata)
