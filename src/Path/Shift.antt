-- ===== src/Path/Shift.antt =====
-- `shift_path_buffer_left`: the loop over chunks is one move of the whole range.
use os_agent.Base.{
  ℕ, zero, suc, ◌+◌, ◌-◌, ◌≤◌, ◌<◌, ◌≡◌, ap, ap₂, ◌||◌, ◌==◌, ◌∙◌, ◌&&◌, inl, inr, Bool-cases,
  add32, sub32, u32_mod, ltb, leb, ltb→lt, if◌then◌else◌, arith,
}
use os_agent.Base.Bytes.{
  UserMemory, read_user_bytes, write_user_bytes, length-read_user_bytes, get_or-read_user_bytes,
}
use os_agent.Path.{chunk_size, shift_loop, shift_path_buffer_left}

-- The bytes of [from, from + len) of the buffer, `shift` lower; every other byte as it was.
abbrev pub moved : UserMemory → ℕ → ℕ → ℕ → UserMemory
moved mem low len shift x = if leb low x && ltb x (low + len) then mem (x + shift) else mem x

-- A block that is read at `s` and written at `d`.
copy_block :
    (mem : UserMemory) (d s n shift x : ℕ)
    → d + shift ≡ s
    → write_user_bytes mem d (read_user_bytes mem s n) x ≡ moved mem d n shift x
unfolding write_user_bytes
copy_block mem d s n shift x e = elim (Bool-cases (leb d x && ltb x (d + n))) [
  | inl inside ↦
      rw (length-read_user_bytes mem s n, inside)
        (get_or-read_user_bytes mem s n (x - d) (ground arith) ∙ ap mem (ground arith))
  | inr outside ↦ rw (length-read_user_bytes mem s n, outside)
]

module _ (va from len shift : ℕ) (pos : 0 < shift) (room : shift ≤ from)
    (fits : from + len < u32_mod) where
  -- After a round the rest of the move is the move of the rest.
  moved_twice :
      (mem mem' : UserMemory) (low n k x : ℕ)
      → ((y : ℕ) → mem' y ≡ moved mem low n shift y)
      → moved mem' (low + n) k shift x ≡ moved mem low (n + k) shift x
  moved_twice mem mem' low n k x e = ground (arith, e x, e (x + shift))

  -- A round copies at least a byte, and no more than is left.
  chunk_size_bounds :
      (copied : ℕ)
      → copied < len
      → (0 < chunk_size len copied) × (copied + chunk_size len copied ≤ len)
  unfolding chunk_size
  chunk_size_bounds copied h = ground arith

  loop-eq-moved :
      (fuel copied : ℕ) (mem : UserMemory) (x : ℕ)
      → copied ≤ len
      → len - copied ≤ fuel
      → shift_loop fuel mem va from len shift copied x
        ≡ moved mem (va + from - shift + copied) (len - copied) shift x
  unfolding shift_loop
  loop-eq-moved zero copied mem x h enough = ground arith
  loop-eq-moved (suc fuel) copied mem x h enough = elim (Bool-cases (ltb copied len)) [
    | inl more ↦ rw more (
        let b = chunk_size_bounds copied (ltb→lt copied len more) in
        ap (λ c. shift_loop fuel written va from len shift c x) (omega (arith, b))
        ∙ loop-eq-moved fuel (copied + n) written x (omega (arith, b)) (omega (arith, b))
        ∙ ap (λ low. moved written low (len - (copied + n)) shift x) (omega (arith, b))
        ∙ moved_twice mem written (va + from - shift + copied) n (len - (copied + n)) x
            (λ y. copied_block y b)
        ∙ ap (λ k. moved mem (va + from - shift + copied) k shift x) (omega (arith, b)))
    | inr stop ↦ rw stop (ground arith)
  ]
    where
      n : ℕ
      n = chunk_size len copied

      written : UserMemory
      written =
          write_user_bytes mem (va + sub32 (add32 from copied) shift)
            (read_user_bytes mem (va + add32 from copied) n)

      copied_block :
          (y : ℕ)
          → (0 < n) × (copied + n ≤ len)
          → written y ≡ moved mem (va + from - shift + copied) n shift y
      copied_block y b =
          copy_block mem _ (va + add32 from copied) n shift y (omega (arith, b))
          ∙ ap (λ low. moved mem low n shift y) (omega (arith, b))

-- The chunked copy moves the bytes [from, from + len) of the buffer down by `shift`, and changes
-- no byte outside the range that they move to, if the range does not pass the end of a `u32`.
pub shift-eq-moved :
    (mem : UserMemory) (va from len shift x : ℕ)
    → shift ≤ from
    → from + len < u32_mod
    → shift_path_buffer_left mem va from len shift x ≡ moved mem (va + from - shift) len shift x
unfolding shift_path_buffer_left
shift-eq-moved mem va from len shift x room fits = elim (Bool-cases (len == 0 || shift == 0)) [
  | inl nothing ↦ rw nothing (ground arith)
  | inr some ↦ rw some (
      loop-eq-moved va from len shift (ground arith) room fits len 0 mem x (omega arith)
        (omega arith)
      ∙ ap₂ (λ low k. moved mem low k shift x) (omega arith) (omega arith))
]
