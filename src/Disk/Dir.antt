-- ===== src/Disk/Dir.antt =====
-- easy-fs/src/layout.rs: DirEntry. `none` is a panic.
use Prim.Native.Nat.{◌-◌, ◌^◌}
use os_agent.Base.{
  ℕ, zero, suc, ◌<◌, ◌≤◌, ◌≡◌, ap, refl, Bool, true, false, Bool-cases, inl, inr, ◌⊎◌, Option, none,
  some, List, [], ◌∷◌, ◌++◌, length, length-append, take, drop, take-exact, drop-exact, replicate,
  arith, ltb, leb, if◌then◌else◌,
}
use os_agent.Base.Bytes.{to_le_bytes, from_le_bytes, from_le-to_le}
use os_agent.Calls.Utf8.{is_utf8}

-- `NAME_LENGTH_LIMIT + 1`
abbrev pub name_bytes : ℕ
name_bytes = 28

abbrev pub dirent_sz : ℕ
dirent_sz = 32

pub record DirEntry : Type 0 where
  pub name : List ℕ
  pub inode_number : ℕ

-- `DirEntry::empty`
abbrev pub empty_entry : DirEntry
empty_entry = record { name = replicate name_bytes 0; inode_number = 0 }

-- `DirEntry::new`: the copy of a name that is too long panics.
unfoldable pub new_entry : List ℕ → ℕ → Option DirEntry
new_entry name inode_number =
    if leb (length name) name_bytes
    then some (record {
      name = name ++ replicate (name_bytes - length name) 0;
      inode_number = inode_number;
    })
    else none

unfoldable pub as_bytes : DirEntry → List ℕ
as_bytes e = e.name ++ to_le_bytes 4 e.inode_number

-- The entry whose bytes were written through `as_bytes_mut`.
unfoldable pub entry_of : List ℕ → DirEntry
entry_of bytes = record {
  name = take name_bytes bytes;
  inode_number = from_le_bytes (drop name_bytes bytes);
}

-- The bytes before the first zero; without one the index runs out of the array.
unfoldable pub until_zero : List ℕ → Option (List ℕ)
until_zero [] = none
until_zero (zero ∷ bs) = some []
until_zero (suc b ∷ bs) = elim (until_zero bs) [ none ↦ none | some name ↦ some (suc b ∷ name) ]

unfoldable pub name_of : DirEntry → Option (List ℕ)
name_of e = elim (until_zero e.name) [
  | none ↦ none
  | some name ↦ if is_utf8 name then some name else none
]

-- Whether a string is without the character 0.
unfoldable pub zero_free : List ℕ → Bool
zero_free [] = true
zero_free (zero ∷ bs) = false
zero_free (suc b ∷ bs) = zero_free bs

until_zero-padded :
    (bs : List ℕ) (n : ℕ) → zero_free bs ≡ true → until_zero (bs ++ replicate (suc n) 0) ≡ some bs
unfolding until_zero zero_free
until_zero-padded [] n h = refl
until_zero-padded (zero ∷ bs) n h = ground (arith, h)
until_zero-padded (suc b ∷ bs) n h = rw (until_zero-padded bs n h) refl

until_zero-full : (bs : List ℕ) → zero_free bs ≡ true → until_zero (bs ++ []) ≡ none
unfolding until_zero zero_free
until_zero-full [] h = refl
until_zero-full (zero ∷ bs) h = ground (arith, h)
until_zero-full (suc b ∷ bs) h = rw (until_zero-full bs h) refl

-- An entry with a number of 32 bits is what its bytes are read as.
entry_of-as_bytes :
    (e : DirEntry) → length e.name ≡ 28 → e.inode_number < 256 ^ 4 → entry_of (as_bytes e) ≡ e
unfolding entry_of as_bytes
entry_of-as_bytes e len small =
    rw
      (
        take-exact 28 e.name (to_le_bytes 4 e.inode_number) len,
        drop-exact 28 e.name (to_le_bytes 4 e.inode_number) len,
        from_le-to_le 4 e.inode_number small,
      )
      refl

abbrev padded : List ℕ → ℕ → DirEntry
padded name i = record { name = name ++ replicate (28 - length name) 0; inode_number = i }

length-replicate : (n : ℕ) → length (replicate {A = ℕ} n 0) ≡ n
length-replicate zero = refl
length-replicate (suc n) = ap suc (length-replicate n)

name_of-padded :
    (name : List ℕ) (i n : ℕ)
    → 28 - length name ≡ suc n
    → zero_free name ≡ true
    → is_utf8 name ≡ true
    → name_of (padded name i) ≡ some name
unfolding name_of
name_of-padded name i n e free utf8 = rw (e, name_of, until_zero-padded name n free, utf8) refl

name_of-full :
    (name : List ℕ) (i : ℕ)
    → length name ≡ 28
    → zero_free name ≡ true
    → name_of (padded name i) ≡ none
unfolding name_of
name_of-full name i e free =
    let no_padding : 28 - length name ≡ 0 = omega (arith, e) in
    rw (no_padding, name_of, until_zero-full name free) refl

-- An entry that is made of a name without the character 0 and read back from its bytes has the same
-- number; for up to 27 bytes it has the same name, for 28 bytes `name` panics, and for more `new` does.
pub new_entry-name_of :
    (name : List ℕ) (i : ℕ)
    → zero_free name ≡ true
    → is_utf8 name ≡ true
    → i < 256 ^ 4
    → (28 < length name × (new_entry name i ≡ none))
      ⊎ ((e : DirEntry) × (new_entry name i ≡ some e)
          × (entry_of (as_bytes e) ≡ e)
          × (e.inode_number ≡ i)
          × (name_of e ≡ (if ltb (length name) 28 then some name else none)))
unfolding new_entry
new_entry-name_of name i free utf8 small = elim (Bool-cases (leb (length name) 28)) [
  | inr long ↦ inl (ground (arith, long), rw (long, new_entry) refl)
  | inl fits ↦
      let short : length name ≤ 28 = ground (arith, fits) in
      let len : length (name ++ replicate (28 - length name) 0) ≡ 28 = omega (
        arith,
        length-append name (replicate (28 - length name) 0),
        length-replicate (28 - length name),
        short,
      ) in
      inr (
        padded name i,
        rw (fits, new_entry) refl,
        entry_of-as_bytes (padded name i) len small,
        refl,
        elim (Bool-cases (ltb (length name) 28)) [
          | inl room ↦
              rw room (name_of-padded name i (27 - length name) (ground (arith, room)) free utf8)
          | inr full ↦ rw full (name_of-full name i (ground (arith, fits, full)) free)
        ],
      )
]
