-- ===== src/Cache/Pinned.antt =====
-- The blocks of the queue of block_cache.rs that somebody holds a handle of stay there.
use os_agent.Base.{
  ℕ, ◌≡◌, ◌≢◌, ◌∙◌, sym, refl, ap, Bool, false, not, ◌&&◌, ◌||◌, Bool-cases, Option-cases, inl, inr,
  some, List, [], ◌∷◌, ◌++◌, length, arith, ◌==◌,
}
use os_agent.Cache.Device.{Block, BlockDevice}
use os_agent.Cache.{
  Entry, id_of, share, evict, load, Manager, make_room, push_back, get_block_cache, release, change,
}

-- Block `j` is in the queue and has an owner beside it.
abbrev pub pinned : List Entry → ℕ → Bool
pinned [] j = false
pinned (e ∷ es) j = ((id_of e == j) && not (e.strong_count == 1)) || pinned es j

share-pinned :
    (q : List Entry) (id j : ℕ) (q' : List Entry)
    → j ≢ id
    → share q id ≡ some q'
    → pinned q' j ≡ pinned q j
unfolding share
share-pinned [] id j q' other e = ground (arith, e)
share-pinned (x ∷ xs) id j q' other e = elim (Bool-cases (id_of x == id)) [
  | inl here ↦ let e' = rw here at e in ground (arith, here, other, e')
  | inr there ↦ elim (Option-cases (share xs id)) [
    | inl panic ↦ let e' = rw (there, panic) at e in ground (arith, e')
    | inr (xs', found) ↦
        let e' : x ∷ xs' ≡ q' = let e0 = rw (there, found) at e in ground (arith, e0) in
        rw (sym e', share-pinned xs id j xs' other found) refl
  ]
]

evict-pinned :
    (q : List Entry) (j : ℕ) (victim : Entry) (rest : List Entry)
    → evict q ≡ some (victim, rest)
    → pinned rest j ≡ pinned q j
unfolding evict
evict-pinned [] j victim rest e = ground (arith, e)
evict-pinned (x ∷ xs) j victim rest e = elim (Bool-cases (x.strong_count == 1)) [
  | inl here ↦
      let e' : xs ≡ rest = let e0 = rw here at e in ground (arith, e0) in
      rw (sym e', here) ground arith
  | inr there ↦ elim (Option-cases (evict xs)) [
    | inl panic ↦ let e' = rw (there, panic) at e in ground (arith, e')
    | inr ((victim', xs'), found) ↦
        let e' : x ∷ xs' ≡ rest = let e0 = rw (there, found) at e in ground (arith, e0) in
        rw (sym e', evict-pinned xs j victim' xs' found) refl
  ]
]

append-pinned :
    (q : List Entry) (e : Entry) (j : ℕ)
    → (id_of e == j) ≡ false
    → pinned (q ++ (e ∷ [])) j ≡ pinned q j
append-pinned [] e j h = rw h refl
append-pinned (x ∷ xs) e j h = rw (append-pinned xs e j h) refl

release-pinned : (q : List Entry) (id j : ℕ) → j ≢ id → pinned (release q id) j ≡ pinned q j
unfolding release
release-pinned [] id j other = refl
release-pinned (x ∷ xs) id j other = ground (arith, other, release-pinned xs id j other)

change-pinned :
    (q : List Entry) (id j : ℕ) (f : Block → Block) → pinned (change q id f) j ≡ pinned q j
unfolding change
change-pinned [] id j f = refl
change-pinned (x ∷ xs) id j f = ground (arith, change-pinned xs id j f)

pub changed-pinned :
    (q : List Entry) (id j : ℕ) (f : Block → Block)
    → j ≢ id
    → pinned (release (change q id f) id) j ≡ pinned q j
changed-pinned q id j f other = release-pinned (change q id f) id j other ∙ change-pinned q id j f

module _ (D : BlockDevice) where
  make_room-pinned :
      (m m' : Manager D) (j : ℕ) → make_room D m ≡ some m' → pinned m'.queue j ≡ pinned m.queue j
  unfolding make_room
  make_room-pinned m m' j e = elim (Bool-cases (length m.queue == 16)) [
    | inr room ↦
        let e' : m ≡ m' = let e0 = rw room at e in ground (arith, e0) in
        ap (λ (m : Manager D). pinned m.queue j) (sym e')
    | inl full ↦ elim (Option-cases (evict m.queue)) [
      | inl panic ↦ let e' = rw (full, make_room, panic) at e in ground (arith, e')
      | inr ((victim, rest), found) ↦
          let e0 = rw (full, make_room, found) at e in
          let e' : rest ≡ m'.queue = ground (arith, e0) in
          ap (λ q. pinned q j) (sym e') ∙ evict-pinned m.queue j victim rest found
    ]
  ]

  pub get_block_cache-pinned :
      (m m' : Manager D) (id j : ℕ)
      → j ≢ id
      → get_block_cache D m id ≡ some m'
      → pinned m'.queue j ≡ pinned m.queue j
  unfolding get_block_cache
  get_block_cache-pinned m m' id j other e = elim (Option-cases (share m.queue id)) [
    | inr (q, shared) ↦
        let e0 = rw (shared, get_block_cache) at e in
        let e' : q ≡ m'.queue = ground (arith, e0) in
        ap (λ q. pinned q j) (sym e') ∙ share-pinned m.queue id j q other shared
    | inl absent ↦ elim (Option-cases (make_room D m)) [
      | inl panic ↦ let e' = rw (absent, get_block_cache, panic) at e in ground (arith, e')
      | inr (m1, room) ↦
          let e0 = rw (absent, get_block_cache, room) at e in
          let e' : (push_back D m1 id).queue ≡ m'.queue = ground (arith, e0) in
          let apart : (id == j) ≡ false = ground (arith, other) in
          ap (λ q. pinned q j) (sym e')
          ∙ append-pinned m1.queue (record { cell = load D m1.disk id; strong_count = 2 }) j apart
          ∙ make_room-pinned m m1 j room
    ]
  ]
