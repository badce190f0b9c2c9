-- ===== src/Path/Layout.antt =====
-- The layout that the context path keeps in its buffer: the nodes stand one behind the other from
-- offset 0, up to the count of bytes in use.
use os_agent.Base.{
  ℕ, zero, suc, ◌+◌, ◌-◌, ◌≤◌, ◌<◌, ◌≡◌, refl, ap, ap₂, ◌∙◌, some, List, [], ◌∷◌, ◌++◌, map,
  get_elem?, erase_idx, u32_mod, arith,
}
use mathlib.Core.Option.{some-injective}
use mathlib.Core.Path.{subst}
use os_agent.Base.Bytes.{UserMemory, read_user_bytes, read_user_bytes_ext}
use os_agent.Ext.{PathNodeMeta}
use os_agent.Path.{node_header_size, move_down}
use os_agent.Path.Shift.{moved}

-- The nodes fill [o, u) of the buffer.
abbrev pub IsLaid : ℕ → List PathNodeMeta → ℕ → Type 0
IsLaid o [] u = o ≡ u
IsLaid o (m ∷ ms) u =
    (m.offset_in_buffer ≡ o) × (node_header_size ≤ m.len) × IsLaid (o + m.len) ms u

-- The bytes of each node, as user space reads them.
abbrev pub contents : UserMemory → ℕ → List PathNodeMeta → List (List ℕ)
contents mem va = map (λ m. read_user_bytes mem (va + m.offset_in_buffer) m.len)

pub IsLaid-le : (o : ℕ) (ms : List PathNodeMeta) (u : ℕ) → IsLaid o ms u → o ≤ u
IsLaid-le o [] u h = omega arith
IsLaid-le o (m ∷ ms) u h = omega (arith, IsLaid-le (o + m.len) ms u h.2)

-- A node stands inside the range, behind its start.
pub IsLaid-get_elem? :
    (o : ℕ) (ms : List PathNodeMeta) (u k : ℕ) {v : PathNodeMeta}
    → IsLaid o ms u
    → get_elem? ms k ≡ some v
    → (o ≤ v.offset_in_buffer) × (node_header_size ≤ v.len) × (v.offset_in_buffer + v.len ≤ u)
IsLaid-get_elem? o [] u k h e = cc
IsLaid-get_elem? o (m ∷ ms) u zero h e = ground (arith, IsLaid-le (o + m.len) ms u h.2)
IsLaid-get_elem? o (m ∷ ms) u (suc k) h e = omega (arith, IsLaid-get_elem? (o + m.len) ms u k h.2 e)

pub IsLaid-append :
    (o : ℕ) (ms : List PathNodeMeta) (u : ℕ) (m : PathNodeMeta)
    → IsLaid o ms u
    → m.offset_in_buffer ≡ u
    → node_header_size ≤ m.len
    → IsLaid o (ms ++ (m ∷ [])) (u + m.len)
IsLaid-append o [] u m h e l = omega arith
IsLaid-append o (n ∷ ms) u m h e l = (h.0, h.1, IsLaid-append (o + n.len) ms u m h.2 e l)

-- A node below `mf` stays, one behind it goes down.
move_down_below : (mf len : ℕ) (m : PathNodeMeta) → m.offset_in_buffer < mf → move_down mf len m ≡ m
unfolding move_down
move_down_below mf len m h = ground arith

offset-move_down :
    (mf len : ℕ) (m : PathNodeMeta)
    → mf ≤ m.offset_in_buffer
    → len ≤ m.offset_in_buffer
    → m.offset_in_buffer < u32_mod
    → (move_down mf len m).offset_in_buffer ≡ m.offset_in_buffer - len
unfolding move_down
offset-move_down mf len m h l b = ground arith

len-move_down : (mf len : ℕ) (m : PathNodeMeta) → (move_down mf len m).len ≡ m.len
unfolding move_down
len-move_down mf len m = ground arith

module _ (u : ℕ) (small : u < u32_mod) where
  -- The nodes behind an evicted one close the gap.
  close_gap :
      (o d mf : ℕ) (ms : List PathNodeMeta)
      → mf ≤ o + d
      → IsLaid (o + d) ms u
      → IsLaid o (map (move_down mf d) ms) (u - d)
  close_gap o d mf [] h l = omega arith
  close_gap o d mf (m ∷ ms) h l = (
    omega (arith, offset-move_down mf d m, IsLaid-le (o + d + m.len) ms u l.2),
    omega (arith, len-move_down mf d m),
    rw len-move_down (close_gap (o + m.len) d mf ms (omega arith) (rw shuffle l.2)),
  )
    where
      shuffle : o + m.len + d ≡ o + d + m.len
      shuffle = omega arith

  -- Whichever node is evicted, those that stay are laid out from the start again.
  pub IsLaid-evict :
      (o : ℕ) (ms : List PathNodeMeta) (k : ℕ) (v : PathNodeMeta)
      → IsLaid o ms u
      → get_elem? ms k ≡ some v
      → IsLaid o (map (move_down (v.offset_in_buffer + v.len) v.len) (erase_idx ms k)) (u - v.len)
  IsLaid-evict o [] k v l e = cc
  IsLaid-evict o (m ∷ ms) zero v l e =
      subst
        (λ (w : PathNodeMeta).
          IsLaid o (map (move_down (w.offset_in_buffer + w.len) w.len) ms) (u - w.len))
        (some-injective m v e)
        (close_gap o m.len (m.offset_in_buffer + m.len) ms (omega (arith, l)) l.2)
  IsLaid-evict o (m ∷ ms) (suc k) v l e =
      let b = IsLaid-get_elem? (o + m.len) ms u k l.2 e in
      rw (move_down_below (v.offset_in_buffer + v.len) v.len m (omega (arith, b)))
        (l.0, l.1, IsLaid-evict (o + m.len) ms k v l.2 e)

  module _ (mem : UserMemory) (va : ℕ) where
    -- What is behind the victim is read where it moved to.
    contents_behind :
        (low o d mf : ℕ) (ms : List PathNodeMeta)
        → low + d ≡ mf
        → mf ≤ o + d
        → IsLaid (o + d) ms u
        → contents (moved mem (va + low) (u - mf) d) va (map (move_down mf d) ms)
          ≡ contents mem va ms
    contents_behind low o d mf [] e h l = refl
    contents_behind low o d mf (m ∷ ms) e h l =
        ap₂ ◌∷◌
          (ap (read_user_bytes _ _) (len-move_down mf d m)
            ∙ read_user_bytes_ext _ mem _ _ m.len (λ i p. byte i p (IsLaid-le _ ms u l.2) down))
          (contents_behind low (o + m.len) d mf ms e (omega arith) (rw shuffle l.2))
      where
        shuffle : o + m.len + d ≡ o + d + m.len
        shuffle = omega arith

        down : (move_down mf d m).offset_in_buffer ≡ m.offset_in_buffer - d
        down =
            offset-move_down mf d m (omega arith) (omega arith)
              (omega (arith, IsLaid-le (o + d + m.len) ms u l.2))

        byte :
            (i : ℕ)
            → i < m.len
            → o + d + m.len ≤ u
            → (move_down mf d m).offset_in_buffer ≡ m.offset_in_buffer - d
            → moved mem (va + low) (u - mf) d (va + (move_down mf d m).offset_in_buffer + i)
              ≡ mem (va + m.offset_in_buffer + i)
        byte i p q w =
            let back : va + (move_down mf d m).offset_in_buffer + i + d
                ≡ va + m.offset_in_buffer + i =
              omega arith in
            ground arith

    -- What is below the victim is not touched.
    content_below :
        (low k d : ℕ) (m : PathNodeMeta)
        → m.offset_in_buffer + m.len ≤ low
        → read_user_bytes (moved mem (va + low) k d) (va + m.offset_in_buffer) m.len
          ≡ read_user_bytes mem (va + m.offset_in_buffer) m.len
    content_below low k d m h = read_user_bytes_ext _ mem _ _ m.len (λ i p. ground arith)

    -- The bytes of the nodes that stay are those that they had.
    pub contents-evict :
        (o : ℕ) (ms : List PathNodeMeta) (k : ℕ) (v : PathNodeMeta)
        → IsLaid o ms u
        → get_elem? ms k ≡ some v
        → let mf = v.offset_in_buffer + v.len in
          contents
            (moved mem (va + v.offset_in_buffer) (u - mf) v.len)
            va
            (map (move_down mf v.len) (erase_idx ms k))
          ≡ erase_idx (contents mem va ms) k
    contents-evict o [] k v l e = cc
    contents-evict o (m ∷ ms) zero v l e =
        subst
          (λ (w : PathNodeMeta).
            contents (moved mem (va + w.offset_in_buffer) (u - (w.offset_in_buffer + w.len)) w.len)
              va (map (move_down (w.offset_in_buffer + w.len) w.len) ms)
            ≡ contents mem va ms)
          (some-injective m v e)
          (contents_behind m.offset_in_buffer o m.len (m.offset_in_buffer + m.len) ms refl
            (omega (arith, l)) l.2)
    contents-evict o (m ∷ ms) (suc k) v l e =
        let b = IsLaid-get_elem? (o + m.len) ms u k l.2 e in
        rw (move_down_below (v.offset_in_buffer + v.len) v.len m (omega (arith, b))) (
          ap₂ ◌∷◌ (content_below v.offset_in_buffer _ v.len m (omega (arith, b)))
            (contents-evict (o + m.len) ms k v l.2 e))
