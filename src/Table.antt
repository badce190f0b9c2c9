-- ===== src/Table.antt =====
-- os/src/mm/page_table.rs: page table entries and the three-level table, and `FrameTracker` of
-- os/src/mm/frame_allocator.rs. The physical memory is a function from the number of a 64-bit word
-- to the word; entry `idx` of the array of a page is word `ppn * 512 + idx`.
pub mod Tree
pub mod Level
pub mod Grown
pub mod Mapping
pub mod Start
pub mod Buffer
mod Tests
use Prim.Native.Nat.{◌/◌, ◌%◌, ◌-◌}
use os_agent.Base.{
  ℕ, zero, suc, ◌+◌, ◌*◌, ◌^◌, Bool, true, false, Option, none, some, List, [], ◌∷◌, ◌++◌, ltb, leb,
  ◌==◌, if◌then◌else◌, u64_mod, add64,
}
use os_agent.Alloc.{page_size, StackFrameAllocator, frame_alloc}
use os_agent.Addr.{
  PhysAddr, VirtAddr, PhysPageNum, VirtPageNum, into_phys_addr, into_phys_page_num, floor,
  page_offset, addr_of_page, indexes,
}

-- `PTEFlags`: the value of each flag.
abbrev pub flag_v : ℕ
flag_v = 1

abbrev pub flag_r : ℕ
flag_r = 2

abbrev pub flag_w : ℕ
flag_w = 4

abbrev pub flag_x : ℕ
flag_x = 8

abbrev pub flag_u : ℕ
flag_u = 16

-- `flags & flag != empty`, for one flag.
abbrev pub has_flag : ℕ → ℕ → Bool
has_flag flags flag = flags / flag % 2 == 1

-- `flags | flag`, for one flag.
unfoldable pub with_flag : ℕ → ℕ → ℕ
with_flag flags flag = if has_flag flags flag then flags else flags + flag

-- An entry is its `bits`. The flags are below bit 10, so `|` is a sum.
abbrev pub new_pte : PhysPageNum → ℕ → ℕ
new_pte ppn flags = (ppn * 2 ^ 10) % u64_mod + flags

abbrev pub empty_pte : ℕ
empty_pte = 0

abbrev pub pte_ppn : ℕ → PhysPageNum
pte_ppn bits = into_phys_page_num (bits / 2 ^ 10 % 2 ^ 44)

-- Each of the 8 bits is a flag, so `from_bits` does not fail.
abbrev pub pte_flags : ℕ → ℕ
pte_flags bits = bits % 2 ^ 8

abbrev pub is_valid : ℕ → Bool
is_valid bits = has_flag (pte_flags bits) flag_v

abbrev pub readable : ℕ → Bool
readable bits = has_flag (pte_flags bits) flag_r

abbrev pub writable : ℕ → Bool
writable bits = has_flag (pte_flags bits) flag_w

abbrev pub executable : ℕ → Bool
executable bits = has_flag (pte_flags bits) flag_x

abbrev pub Words : Type 0
Words = ℕ → ℕ

abbrev pub set_word : Words → ℕ → ℕ → Words
set_word words at bits = λ b. if b == at then bits else words b

abbrev pub clear_page : Words → PhysPageNum → Words
clear_page words ppn = λ b. if b / 512 == ppn then 0 else words b

-- The physical memory and the allocator of its frames.
pub record Ram : Type 0 where
  pub words : Words
  pub allocator : StackFrameAllocator

-- `frame_alloc`: `FrameTracker::new` clears the page.
unfoldable pub alloc_frame : Ram → Option (PhysPageNum × Ram)
alloc_frame ram = elim (frame_alloc ram.allocator) [
  | none ↦ none
  | some (v, allocator) ↦
      let ppn = into_phys_page_num v in
      some (ppn, record { words = clear_page ram.words ppn; allocator = allocator })
]

pub record PageTable : Type 0 where
  pub root_ppn : PhysPageNum
  pub frames : List PhysPageNum

-- `none` stands for the panic of the `unwrap`.
unfoldable pub new_table : Ram → Option (PageTable × Ram)
new_table ram = elim (alloc_frame ram) [
  | none ↦ none
  | some (ppn, ram') ↦ some (record { root_ppn = ppn; frames = ppn ∷ [] }, ram')
]

abbrev pub from_token : ℕ → PageTable
from_token satp = record { root_ppn = into_phys_page_num (satp % 2 ^ 44); frames = [] }

-- `8 << 60 | root_ppn`
abbrev pub token : PageTable → ℕ
token table = 2 ^ 63 + table.root_ppn

-- Where `find_pte_create` stands: the memory, and the frames of the table.
pub record Building : Type 0 where
  pub ram : Ram
  pub tables : List PhysPageNum

-- The entry at a word is made to point to a table if it is not valid yet.
unfoldable pub ensure : Building → ℕ → Option Building
ensure b slot = if is_valid (b.ram.words slot) then some b else elim (alloc_frame b.ram) [
  | none ↦ none
  | some (ppn, ram) ↦ some (record {
    ram = record ram { words = set_word ram.words slot (new_pte ppn flag_v) };
    tables = b.tables ++ (ppn ∷ []);
  })
]

-- The loops over the indexes. The result is the word at which the entry is; where the frames run
-- out, `none` stands for the panic.
unfoldable pub find_create_from : Building → ℕ → PhysPageNum → List ℕ → Option (ℕ × Building)
find_create_from b i ppn [] = none
find_create_from b i ppn (idx ∷ idxs) =
    let slot = ppn * 512 + idx in
    if i == 2 then some (slot, b) else elim (ensure b slot) [
      | none ↦ none
      | some b' ↦ find_create_from b' (i + 1) (pte_ppn (b'.ram.words slot)) idxs
    ]

unfoldable pub find_from : Words → ℕ → PhysPageNum → List ℕ → Option ℕ
find_from words i ppn [] = none
find_from words i ppn (idx ∷ idxs) =
    let slot = ppn * 512 + idx in
    let rest = find_from words (i + 1) (pte_ppn (words slot)) idxs in
    if i == 2 then some slot else if is_valid (words slot) then rest else none

abbrev pub find_pte_create : Building → PhysPageNum → VirtPageNum → Option (ℕ × Building)
find_pte_create b root vpn = find_create_from b 0 root (indexes vpn)

abbrev pub find_pte : Words → PhysPageNum → VirtPageNum → Option ℕ
find_pte words root vpn = find_from words 0 root (indexes vpn)

-- `PageTable::map`; `none` stands for a panic, of the assertion or of a missing frame.
unfoldable pub map_page : Ram → PageTable → VirtPageNum → PhysPageNum → ℕ → Option (PageTable × Ram)
map_page ram table vpn ppn flags =
    elim (find_pte_create (record { ram = ram; tables = table.frames }) table.root_ppn vpn) [
      | none ↦ none
      | some (slot, b) ↦
          if is_valid (b.ram.words slot)
          then none
          else some (
            record table { frames = b.tables },
            record b.ram {
              words = set_word b.ram.words slot (new_pte ppn (with_flag flags flag_v));
            },
          )
    ]

unfoldable pub unmap_page : Ram → PageTable → VirtPageNum → Option Ram
unmap_page ram table vpn = elim (find_pte ram.words table.root_ppn vpn) [
  | none ↦ none
  | some slot ↦
      if is_valid (ram.words slot)
      then some (record ram { words = set_word ram.words slot empty_pte })
      else none
]

unfoldable pub translate : Words → PageTable → VirtPageNum → Option ℕ
translate words table vpn = elim (find_pte words table.root_ppn vpn) [
  | none ↦ none
  | some slot ↦ some (words slot)
]

unfoldable pub translate_va : Words → PageTable → VirtAddr → Option PhysAddr
translate_va words table va = elim (translate words table (floor va)) [
  | none ↦ none
  | some pte ↦ some (into_phys_addr (add64 (addr_of_page (pte_ppn pte)) (page_offset va)))
]
