-- ===== src/Table/Buffer.antt =====
-- os/src/mm/page_table.rs: user memory seen from the kernel. A slice of physical memory is the address
-- at which it starts and its length.
pub mod Covers
pub mod Endless
use Prim.Native.Nat.{◌-◌, ◌/◌, ◌%◌, min}
use os_agent.Base.{
  ℕ, zero, suc, ◌+◌, ◌*◌, ◌^◌, Bool, true, false, Option, none, some, List, [], ◌∷◌, ltb, leb, ◌==◌,
  if◌then◌else◌, length, get_elem?, u64_mod, add64,
}
use os_agent.Alloc.{page_size}
use os_agent.Addr.{
  PhysAddr, VirtAddr, into_virt_addr, virt_addr_into_usize, floor, page_offset, addr_of_page, step,
}
use os_agent.Table.{Words, PageTable, pte_ppn, from_token, translate, translate_va}

pub record Slice : Type 0 where
  pub start : PhysAddr
  pub len : ℕ

-- A loop that returns, panics, or does not end within the fuel.
pub data Outcome {ℓ} (A : Type ℓ) : Type ℓ where
  done : A → Outcome A
  panics out_of_fuel : Outcome A

-- `&array[from..to]`; `none` is the panic.
unfoldable pub sub_slice : PhysAddr → ℕ → ℕ → Option Slice
sub_slice array from to =
    if leb from to then some (record { start = array + from; len = to - from }) else none

-- The part of the entry's page from `start_va` up to `end_va`, an offset of 0 standing for the page's
-- end, and the address after it.
unfoldable pub cut : ℕ → VirtAddr → VirtAddr → Option (Slice × ℕ)
cut pte start_va end_va =
    let to = if page_offset end_va == 0 then page_size else page_offset end_va in
    elim (sub_slice (addr_of_page (pte_ppn pte)) (page_offset start_va) to) [
      | none ↦ none
      | some slice ↦ some (slice, virt_addr_into_usize end_va)
    ]

-- One turn of `translated_byte_buffer`: the slice, and where the next starts.
unfoldable pub next_slice : Words → PageTable → ℕ → ℕ → Option (Slice × ℕ)
next_slice words table start end =
    let start_va = into_virt_addr start in
    let vpn = floor start_va in
    elim (translate words table vpn) [
      | none ↦ none
      | some pte ↦ cut pte start_va (min (addr_of_page (step vpn)) (into_virt_addr end))
    ]

abbrev pub push_front {ℓ} : {A : Type ℓ} → A → Outcome (List A) → Outcome (List A)
push_front a (done v) = done (a ∷ v)
push_front a panics = panics
push_front a out_of_fuel = out_of_fuel

unfoldable pub byte_buffer : Words → PageTable → ℕ → ℕ → ℕ → Outcome (List Slice)
byte_buffer words table zero start end = if ltb start end then out_of_fuel else done []
byte_buffer words table (suc fuel) start end =
    if ltb start end
    then elim (next_slice words table start end) [
      | none ↦ panics
      | some (slice, start') ↦ push_front slice (byte_buffer words table fuel start' end)
    ]
    else done []

-- Each turn but the last ends a page, and the first may start within one.
unfoldable pub translated_byte_buffer : Words → ℕ → ℕ → ℕ → ℕ → Outcome (List Slice)
translated_byte_buffer words fuel token ptr len =
    byte_buffer words (from_token token) fuel ptr (add64 ptr len)

unfoldable pub byte_at : Words → PhysAddr → ℕ
byte_at words pa = words (pa / 8) / 256 ^ (pa % 8) % 256

-- `translated_str`: the bytes up to a zero.
unfoldable pub str_from : Words → PageTable → ℕ → ℕ → Outcome (List ℕ)
str_from words table zero va = out_of_fuel
str_from words table (suc fuel) va = elim (translate_va words table (into_virt_addr va)) [
  | none ↦ panics
  | some pa ↦
      let ch = byte_at words pa in
      let rest = str_from words table fuel (add64 va 1) in
      if ch == 0 then done [] else push_front ch rest
]

abbrev pub translated_str : Words → ℕ → ℕ → ℕ → Outcome (List ℕ)
translated_str words fuel token ptr = str_from words (from_token token) fuel ptr

-- `UserBuffer::len`
unfoldable pub buffer_len : List Slice → ℕ
buffer_len [] = 0
buffer_len (b ∷ buffers) = b.len + buffer_len buffers

pub record UserBufferIterator : Type 0 where
  pub buffers : List Slice
  pub current_buffer : ℕ
  pub current_idx : ℕ

abbrev pub into_iter : List Slice → UserBufferIterator
into_iter buffers = record { buffers = buffers; current_buffer = 0; current_idx = 0 }

-- `UserBufferIterator::next`: the outer `none` is the panic of an index out of range, the inner is the
-- end.
unfoldable pub next : UserBufferIterator → Option (Option (PhysAddr × UserBufferIterator))
next it = elim (get_elem? it.buffers it.current_buffer) [
  | none ↦ some none
  | some b ↦
      if ltb it.current_idx b.len
      then some (
          some (
            b.start + it.current_idx,
            (if it.current_idx + 1 == b.len
                then record it { current_buffer = it.current_buffer + 1; current_idx = 0 }
                else record it { current_idx = it.current_idx + 1 }),
          ))
      else none
]
