-- ===== src/Table/Buffer/Covers.antt =====
-- The slices that `translated_byte_buffer` gives are the user's bytes, in order.
use Prim.Native.Nat.{min}
use os_agent.Base.{
  ℕ, zero, suc, ◌+◌, ◌*◌, ◌/◌, ◌%◌, ◌-◌, ◌^◌, ◌<◌, ◌≤◌, ◌≡◌, ◌≢◌, refl, ap, ◌∙◌, Bool-cases,
  Option-cases, inl, inr, Option, none, some, List, [], ◌∷◌, arith, ltb, ltb→lt, if◌then◌else◌,
  add64,
}
use os_agent.Addr.{floor, PhysAddr, into_virt_addr, addr_of_page, step, virt_addr_into_usize}
use os_agent.Table.{Words, PageTable, from_token, translate, translate_va, pte_ppn}
use os_agent.Table.Buffer.{
  Slice, done, cut, next_slice, byte_buffer, translated_byte_buffer, buffer_len, sub_slice,
}

-- The address of byte `i` of the slices.
unfoldable pub nth_byte : List Slice → ℕ → Option PhysAddr
nth_byte [] i = none
nth_byte (s ∷ ss) i =
    let rest = nth_byte ss (i - s.len) in if ltb i s.len then some (s.start + i) else rest

module _ (words : Words) (table : PageTable) where
  cut_lem :
      (pte start next : ℕ)
      → start < next
      → next ≤ start / 4096 * 4096 + 4096
      → next < 2 ^ 38
      → cut pte start next
        ≡ some (record { start = pte_ppn pte * 4096 + start % 4096; len = next - start }, next)
  unfolding cut sub_slice virt_addr_into_usize
  cut_lem pte start next a b c = ground (arith, a, b, c)

  -- A turn that starts before the end of the range ends at the end of its page or of the range.
  next_slice_lem :
      (start end pte : ℕ)
      → start < end
      → end < 2 ^ 38
      → translate words table (floor start) ≡ some pte
      → (s : Slice) × (start' : ℕ) × (next_slice words table start end ≡ some (s, start'))
        × (start < start')
        × (start' ≤ end)
        × (s.len + start ≡ start')
        × ((i : ℕ) → i < s.len → translate_va words table (start + i) ≡ some (s.start + i))
  unfolding next_slice translate_va
  next_slice_lem start end pte a b e =
      let page_end = start / 4096 * 4096 + 4096 in
      let next = min page_end end in
      let pa = pte_ppn pte * 4096 + start % 4096 in
      let id : into_virt_addr start ≡ start = omega (arith, a, b) in
      let id_end : into_virt_addr end ≡ end = omega (arith, b) in
      let after : addr_of_page (step (floor start)) ≡ page_end = omega (arith, a, b) in
      (
        record { start = pa; len = next - start },
        next,
        rw (id, next_slice, e, id, id_end, after)
            (cut_lem pte start next (omega (arith, a)) (omega arith) (omega (arith, b))),
        omega (arith, a),
        omega arith,
        omega (arith, a),
        λ i h.
            let same : floor (start + i) ≡ floor start = omega (arith, h, a) in
            rw (same, translate_va, e) (ap some (omega (arith, h, a))),
      )

  -- The slices have as many bytes as asked for, and byte `i` is where address `start + i` leads.
  pub record IsCover (start end : ℕ) (v : List Slice) : Type 0 where
    pub len_eq : buffer_len v + start ≡ end
    pub byte_eq : (i : ℕ) → start + i < end → nth_byte v i ≡ translate_va words table (start + i)

  abbrev pub IsReadable : ℕ → ℕ → Type 0
  IsReadable start end = (va : ℕ) → start ≤ va → va < end → translate words table (floor va) ≢ none

  nth_byte-cons :
      (s : Slice) (v : List Slice) (start start' end : ℕ)
      → s.len + start ≡ start'
      → start' ≤ end
      → ((i : ℕ) → i < s.len → translate_va words table (start + i) ≡ some (s.start + i))
      → IsCover start' end v
      → (i : ℕ) → start + i < end
      → nth_byte (s ∷ v) i ≡ translate_va words table (start + i)
  unfolding nth_byte
  nth_byte-cons s v start start' end slen within sbytes cover i h =
      elim (Bool-cases (ltb i s.len)) [
        | inl in_first ↦ ground (arith, in_first, sbytes i (ltb→lt i s.len in_first))
        | inr beyond ↦
            let past : s.len ≤ i = ground (arith, beyond) in
            let at : start' + (i - s.len) ≡ start + i = omega (arith, slen, past) in
            let byte = cover.byte_eq (i - s.len) (omega (arith, at, h)) in
            rw (beyond, nth_byte) (byte ∙ ap (translate_va words table) at)
      ]

  byte_buffer_lem :
      (fuel start end : ℕ)
      → start ≤ end
      → end < 2 ^ 38
      → end ≤ start + fuel
      → IsReadable start end
      → (v : List Slice) × (byte_buffer words table fuel start end ≡ done v) × IsCover start end v
  unfolding byte_buffer buffer_len
  byte_buffer_lem zero start end a b c r = (
    [],
    ground (arith, a, c),
    record { len_eq = omega (arith, a, c); byte_eq = λ i h. absurd (omega (arith, a, c, h)) },
  )
  byte_buffer_lem (suc fuel) start end a b c r = elim (Bool-cases (ltb start end)) [
    | inr full ↦
        let over : end ≤ start = ground (arith, full) in
        (
          [],
          rw (full, byte_buffer) refl,
          record {
            len_eq = omega (arith, a, over);
            byte_eq = λ i h. absurd (omega (arith, over, h));
          },
        )
    | inl more ↦
        let lt = ltb→lt start end more in
        elim (Option-cases (translate words table (floor start))) [
          | inl bad ↦ absurd (r start (omega arith) lt bad)
          | inr (pte, e) ↦
              let (s, start', e1, up, within, slen, sbytes) = next_slice_lem start end pte lt b e in
              let (v, e2, cover) =
                byte_buffer_lem fuel start' end within b (omega (arith, c, up))
                  (λ va x y. r va (omega (arith, x, up)) y) in
              (
                s ∷ v,
                rw (more, byte_buffer, e1, e2) refl,
                record {
                  len_eq = omega (arith, cover.len_eq, slen);
                  byte_eq = λ i h. nth_byte-cons s v start start' end slen within sbytes cover i h;
                },
              )
        ]
  ]

-- Where each page of the user's range has an entry and the range lies in the lower half,
-- `translated_byte_buffer` returns, within as many turns as there are bytes: the slices have as many
-- bytes as asked for, and byte `i` of them is the one at which `translate_va` puts address `ptr + i`.
pub translated_byte_buffer-IsCover :
    (words : Words) (satp ptr size fuel : ℕ)
    → ptr + size < 2 ^ 38
    → size ≤ fuel
    → IsReadable words (from_token satp) ptr (ptr + size)
    → (v : List Slice) × (translated_byte_buffer words fuel satp ptr size ≡ done v)
      × IsCover words (from_token satp) ptr (ptr + size) v
unfolding translated_byte_buffer
translated_byte_buffer-IsCover words satp ptr size fuel b c r =
    let exact : add64 ptr size ≡ ptr + size = omega (arith, b) in
    rw (exact, translated_byte_buffer)
      (byte_buffer_lem words (from_token satp) fuel ptr (ptr + size) (omega arith) b
        (omega (arith, c)) r)
