-- ===== src/Area/Ring.antt =====
-- `write_tool_result`: where the data goes, and which field of the header it changes.
use os_agent.Base.{
  ℕ, zero, suc, ◌∷◌, ◌%◌, ◌+◌, ◌≤◌, ◌≡◌, refl, ap, ap₂, sym, ◌∙◌, false, some, List, length, take,
  drop, ltb, leb, if◌then◌else◌, u32_mod, arith,
}
use os_agent.Base.Bytes.{
  UserMemory, read_user_bytes, write_user_bytes, to_le_bytes, from_le_bytes, read-write_self,
  read-write_below, read-write_above, from_le-to_le, length-to_le_bytes,
}
use os_agent.Ext.{tool_result_off, tool_result_len}
use os_agent.Area.{ring_start, write_tool_result, tool_result_len_at, tool_result_write_pos_at}

-- The word of four bytes in the header at the offset.
abbrev pub header_word : UserMemory → ℕ → ℕ → ℕ
header_word mem base at = from_le_bytes (read_user_bytes mem (base + at) 4)

take-read :
    (mem : UserMemory) (a n m : ℕ)
    → n ≤ m
    → take n (read_user_bytes mem a m) ≡ read_user_bytes mem a n
unfolding read_user_bytes
take-read mem a zero m h = refl
take-read mem a (suc n) zero h = absurd (omega (arith, h))
take-read mem a (suc n) (suc m) h = ap (◌∷◌ (mem a)) (take-read mem (a + 1) n m (omega (arith, h)))

-- A slice of a buffer that was read is a read of its own.
slice-read :
    (mem : UserMemory) (a k n m : ℕ)
    → k + n ≤ m
    → take n (drop k (read_user_bytes mem a m)) ≡ read_user_bytes mem (a + k) n
unfolding read_user_bytes
slice-read mem a zero n m h =
    take-read mem a n m (omega (arith, h)) ∙ ap (λ b. read_user_bytes mem b n) (omega arith)
slice-read mem a (suc k) n zero h = absurd (omega (arith, h))
slice-read mem a (suc k) n (suc m) h =
    slice-read mem (a + 1) k n m (omega (arith, h))
    ∙ ap (λ b. read_user_bytes mem b n) (omega arith)

-- The data goes behind the last, or to the front where it would pass the end.
abbrev pub place_of : ℕ → ℕ → ℕ
place_of pos len = if leb (pos + len) tool_result_len then pos else 0

ring_start_lem : (pos len : ℕ) → ring_start pos len ≡ place_of pos len
unfolding ring_start
ring_start_lem pos len = ground arith

ring_start_fits : (pos len : ℕ) → len ≤ tool_result_len → ring_start pos len + len ≤ tool_result_len
unfolding ring_start
ring_start_fits pos len h = ground (arith, h)

-- The effect of a write of `bytes` at the place `start` of the ring.
pub record IsWritten (mem : UserMemory) (base start : ℕ) (bytes : List ℕ) (mem' : UserMemory)
    : Type 0 where
  pub fits : start + length bytes ≤ tool_result_len
  pub bytes_back : read_user_bytes mem' (base + tool_result_off + start) (length bytes) ≡ bytes
  pub length_field : header_word mem' base tool_result_len_at ≡ start + length bytes
  pub position_field :
      header_word mem' base tool_result_write_pos_at ≡ header_word mem base tool_result_write_pos_at

-- The three writes of `write_tool_result`.
three_writes :
    (mem : UserMemory) (base start seq : ℕ) (bytes : List ℕ)
    → start + length bytes ≤ tool_result_len
    → IsWritten mem base start bytes (
        write_user_bytes
          (write_user_bytes
            (write_user_bytes mem (base + tool_result_off + start) bytes)
            (base + 8)
            (to_le_bytes 8 seq))
          (base + 20)
          (to_le_bytes 4 ((start + length bytes) % u32_mod)))
three_writes mem base start seq bytes h =
    let written = write_user_bytes mem (base + tool_result_off + start) bytes in
    let seq_bytes = to_le_bytes 8 seq in
    let with_seq = write_user_bytes written (base + 8) seq_bytes in
    let new_pos = (start + length bytes) % u32_mod in
    let pos_bytes = to_le_bytes 4 new_pos in
    let eight : length seq_bytes ≡ 8 = length-to_le_bytes 8 seq in
    let four : length pos_bytes ≡ 4 = length-to_le_bytes 4 new_pos in
    record {
      fits = h;
      bytes_back =
          read-write_above with_seq (base + 20) pos_bytes _ (length bytes) (omega (arith, four))
          ∙ read-write_above written (base + 8) seq_bytes _ (length bytes) (omega (arith, eight))
          ∙ read-write_self mem (base + tool_result_off + start) bytes;
      length_field =
          ap from_le_bytes (
            ap (read_user_bytes (write_user_bytes with_seq (base + 20) pos_bytes) (base + 20))
              (sym four)
            ∙ read-write_self with_seq (base + 20) pos_bytes)
          ∙ from_le-to_le 4 new_pos (omega arith)
          ∙ omega (arith, h);
      position_field = ap from_le_bytes (
          read-write_above with_seq (base + 20) pos_bytes (base + 24) 4 (omega (arith, four))
          ∙ read-write_above written (base + 8) seq_bytes (base + 24) 4 (omega (arith, eight))
          ∙ read-write_below mem (base + tool_result_off + start) bytes (base + 24) 4
              (omega arith));
    }

write_tool_result_lem :
    (mem : UserMemory) (base : ℕ) (bytes : List ℕ)
    → length bytes ≤ tool_result_len
    → let start = ring_start (header_word mem base tool_result_len_at) (length bytes) in
      ((write_tool_result mem base bytes).1 ≡ some (tool_result_off + start, length bytes))
      × IsWritten mem base start bytes (write_tool_result mem base bytes).0
unfolding write_tool_result
write_tool_result_lem mem base bytes h =
    let start = ring_start (header_word mem base tool_result_len_at) (length bytes) in
    let small : ltb tool_result_len (length bytes) ≡ false = ground (arith, h) in
    let within = ring_start_fits (header_word mem base tool_result_len_at) (length bytes) h in
    let place : (tool_result_off + start) % u32_mod ≡ tool_result_off + start =
      omega (arith, within) in
    let len_fits : length bytes % u32_mod ≡ length bytes = omega (arith, h) in
    rw (small, slice-read mem base 20 4 256 (omega arith))
      (ap₂ (λ (a b : ℕ). some (a, b)) place len_fits, three_writes mem base start _ bytes within)

-- A tool result that fits in the ring is written within the ring and reads back from the place that
-- the call returns. The place is the word at offset 20 of the header, the field `tool_result_len`, or
-- 0 where the data would pass the end; that field is overwritten with the end of the data, and the
-- field `tool_result_write_pos` keeps its value.
pub write_tool_result-IsWritten :
    (mem : UserMemory) (base : ℕ) (bytes : List ℕ)
    → length bytes ≤ tool_result_len
    → let start = place_of (header_word mem base tool_result_len_at) (length bytes) in
      ((write_tool_result mem base bytes).1 ≡ some (tool_result_off + start, length bytes))
      × IsWritten mem base start bytes (write_tool_result mem base bytes).0
write_tool_result-IsWritten mem base bytes h =
    let there = ring_start_lem (header_word mem base tool_result_len_at) (length bytes) in
    let done = write_tool_result_lem mem base bytes h in rw there at done
