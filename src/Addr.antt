-- ===== src/Addr.antt =====
-- os/src/mm/address.rs: physical and virtual addresses and page numbers of Sv39. Each of the four
-- structs holds one `usize`, so a value of one is a number here. A slice that `get_bytes_array` or
-- `get_pte_array` gives is the physical address at which it starts.
pub mod Pages
mod Tests
use Prim.Native.Nat.{◌/◌, ◌%◌, ◌-◌}
use os_agent.Base.{
  ℕ, zero, suc, ◌+◌, ◌*◌, ◌^◌, Bool, true, false, Option, none, some, List, [], ◌∷◌, leb, ltb, ◌==◌,
  if◌then◌else◌, u64_mod, add64,
}
use os_agent.Alloc.{page_size}

abbrev pub page_size_bits : ℕ
page_size_bits = 0xc

abbrev pub pa_width_sv39 : ℕ
pa_width_sv39 = 56

abbrev pub va_width_sv39 : ℕ
va_width_sv39 = 39

abbrev pub ppn_width_sv39 : ℕ
ppn_width_sv39 = pa_width_sv39 - page_size_bits

abbrev pub vpn_width_sv39 : ℕ
vpn_width_sv39 = va_width_sv39 - page_size_bits

abbrev pub PhysAddr : Type 0
PhysAddr = ℕ

abbrev pub VirtAddr : Type 0
VirtAddr = ℕ

abbrev pub PhysPageNum : Type 0
PhysPageNum = ℕ

abbrev pub VirtPageNum : Type 0
VirtPageNum = ℕ

-- `&` with a mask of the low bits is a remainder.
abbrev pub into_phys_addr : ℕ → PhysAddr
into_phys_addr v = v % 2 ^ pa_width_sv39

abbrev pub into_phys_page_num : ℕ → PhysPageNum
into_phys_page_num v = v % 2 ^ ppn_width_sv39

abbrev pub into_virt_addr : ℕ → VirtAddr
into_virt_addr v = v % 2 ^ va_width_sv39

abbrev pub into_virt_page_num : ℕ → VirtPageNum
into_virt_page_num v = v % 2 ^ vpn_width_sv39

-- `usize::from(VirtAddr)`: the sign bit is copied to the bits above it. `|` with bits above the
-- lowest 39 keeps those 39 and sets the others.
unfoldable pub virt_addr_into_usize : VirtAddr → ℕ
virt_addr_into_usize v =
    if leb (2 ^ (va_width_sv39 - 1)) v
    then v % 2 ^ va_width_sv39 + (u64_mod - 2 ^ va_width_sv39)
    else v

-- `VirtAddr` and `PhysAddr` have the same four methods.
abbrev pub floor : ℕ → ℕ
floor a = a / page_size

unfoldable pub ceil : ℕ → ℕ
ceil a = if a == 0 then 0 else add64 (a - 1) page_size / page_size

abbrev pub page_offset : ℕ → ℕ
page_offset a = a % page_size

abbrev pub aligned : ℕ → Bool
aligned a = page_offset a == 0

-- `VirtPageNum::from(VirtAddr)` and `PhysPageNum::from(PhysAddr)`; `none` is the failed assertion.
abbrev pub page_of_addr : ℕ → Option ℕ
page_of_addr a = if page_offset a == 0 then some (floor a) else none

-- `VirtAddr::from(VirtPageNum)` and `PhysAddr::from(PhysPageNum)`
abbrev pub addr_of_page : ℕ → ℕ
addr_of_page n = (n * 2 ^ page_size_bits) % u64_mod

-- The loop fills `idx` from its last element.
unfoldable pub indexes_from : ℕ → VirtPageNum → List ℕ → List ℕ
indexes_from zero vpn idx = idx
indexes_from (suc i) vpn idx = indexes_from i (vpn / 2 ^ 9) (vpn % 512 ∷ idx)

unfoldable pub indexes : VirtPageNum → List ℕ
indexes vpn = indexes_from 3 vpn []

abbrev pub step : ℕ → ℕ
step n = add64 n 1

pub record SimpleRange : Type 0 where
  pub l : ℕ
  pub r : ℕ

-- `none` is the failed assertion.
unfoldable pub new_range : ℕ → ℕ → Option SimpleRange
new_range start end = if leb start end then some (record { l = start; r = end }) else none

-- `SimpleRangeIterator`: the element, and the iterator after it.
unfoldable pub next : SimpleRange → Option (ℕ × SimpleRange)
next it = if it.l == it.r then none else some (it.l, record { l = step it.l; r = it.r })

-- What a `for` loop over the range sees, in order.
unfoldable pub pages_from : ℕ → SimpleRange → List ℕ
pages_from zero it = []
pages_from (suc fuel) it = elim (next it) [
  | none ↦ []
  | some (page, it') ↦ page ∷ pages_from fuel it'
]

unfoldable pub pages : SimpleRange → List ℕ
pages it = pages_from (it.r - it.l) it
