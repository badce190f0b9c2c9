-- ===== src/Table/Buffer/Endless.antt =====
-- Where `translated_byte_buffer` does not end: the loop counts in `usize` but masks to 39 bits.
use Prim.Native.Nat.{min}
use os_agent.Base.{
  ℕ, zero, suc, ◌+◌, ◌*◌, ◌/◌, ◌%◌, ◌-◌, ◌^◌, ◌<◌, ◌≤◌, ◌≡◌, ◌≢◌, refl, ap, ◌∙◌, some, arith,
  lt→ltb, add64, u64_mod,
}
use os_agent.Addr.{floor, into_virt_addr, addr_of_page, step, virt_addr_into_usize}
use os_agent.Table.{Words, PageTable, from_token, translate, pte_ppn}
use os_agent.Table.Buffer.{
  Slice, out_of_fuel, cut, next_slice, byte_buffer, translated_byte_buffer, sub_slice,
}

module _ (words : Words) (table : PageTable) where
  cut_within :
      (pte start next : ℕ)
      → start ≤ next
      → start / 4096 ≡ next / 4096
      → next % 4096 ≢ 0
      → next < 2 ^ 38
      → (s : Slice) × (cut pte start next ≡ some (s, next))
  unfolding cut sub_slice virt_addr_into_usize
  cut_within pte start next a b c d = (
    record { start = pte_ppn pte * 4096 + start % 4096; len = next - start },
    ground (arith, a, b, c, d),
  )

  -- A turn whose end, masked, lies in the page of its masked start goes on at that end.
  next_slice_within :
      (x next start end pte : ℕ)
      → into_virt_addr start ≡ x
      → into_virt_addr end ≡ next
      → x ≤ next
      → x / 4096 ≡ next / 4096
      → next % 4096 ≢ 0
      → next < 2 ^ 38
      → translate words table (floor x) ≡ some pte
      → (s : Slice) × (next_slice words table start end ≡ some (s, next))
  unfolding next_slice
  next_slice_within x next start end pte is at a b c d e =
      let (s, cuts) = cut_within pte x next a b c d in
      let first : min (addr_of_page (step (floor x))) next ≡ next = omega (arith, a, b, d) in
      (s, rw (is, next_slice, e, is, at, first) cuts)

  stays :
      (fuel x end pte : ℕ)
      → into_virt_addr end ≡ x
      → x < end
      → x % 4096 ≢ 0
      → x < 2 ^ 38
      → translate words table (floor x) ≡ some pte
      → byte_buffer words table fuel x end ≡ out_of_fuel
  unfolding byte_buffer
  stays zero x end pte at more c d e = rw (lt→ltb x end more, byte_buffer) refl
  stays (suc fuel) x end pte at more c d e =
      let (s, turn) =
        next_slice_within x x x end pte (omega (arith, d)) at (omega arith) refl c d e in
      rw (lt→ltb x end more, byte_buffer, turn, stays fuel x end pte at more c d e) refl

-- A pointer from 2 ^ 39 on is masked to a page that has an entry: if the range ends within that page,
-- the loop goes on at the masked end, which stays below the end that it is compared with. However
-- many turns it is given, it takes one more.
pub translated_byte_buffer_endless :
    (words : Words) (satp k p size fuel pte : ℕ)
    → 0 < k
    → k * 2 ^ 39 + p + size < u64_mod
    → 0 < size
    → p / 4096 ≡ (p + size) / 4096
    → (p + size) % 4096 ≢ 0
    → p + size < 2 ^ 38
    → translate words (from_token satp) (floor p) ≡ some pte
    → translated_byte_buffer words fuel satp (k * 2 ^ 39 + p) size ≡ out_of_fuel
unfolding translated_byte_buffer byte_buffer
translated_byte_buffer_endless words satp k p size zero pte pos fits some_bytes b c d e =
    ground (arith, fits, some_bytes)
translated_byte_buffer_endless words satp k p size (suc fuel) pte pos fits some_bytes b c d e =
    let start = k * 2 ^ 39 + p in
    let exact : add64 start size ≡ start + size = omega (arith, fits) in
    let table = from_token satp in
    let at : into_virt_addr (start + size) ≡ p + size = omega (arith, d) in
    let (s, turn) =
      next_slice_within words table p (p + size) start (start + size) pte (omega (arith, d)) at
        (omega arith) b c d e in
    let same : floor (p + size) ≡ floor p = omega (arith, b) in
    let rest =
      stays words table fuel (p + size) (start + size) pte at (omega (arith, pos)) c d
        (ap (translate words table) same ∙ e) in
    rw
      (
        exact,
        translated_byte_buffer,
        lt→ltb start (start + size) (omega (arith, some_bytes)),
        byte_buffer,
        turn,
        exact,
        rest,
      )
      refl
