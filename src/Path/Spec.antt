-- ===== src/Path/Spec.antt =====
-- The abstract context path: the list of its nodes' bytes, oldest first, within a quota.
use os_agent.Base.{ℕ, ◌+◌, Bool, ◌||◌, List, [], ◌∷◌, ◌++◌, length, ltb, leb, if◌then◌else◌}

abbrev pub AbstractPath : Type 0
AbstractPath = List (List ℕ)

abbrev pub total : AbstractPath → ℕ
total [] = 0
total (b ∷ bs) = length b + total bs

module _ (max_bytes max_nodes : ℕ) where
  -- A node of `size` bytes does not fit behind these.
  abbrev pub is_full : ℕ → AbstractPath → Bool
  is_full size path = ltb max_bytes (total path + size) || leb max_nodes (length path)

  -- The oldest nodes go, until a node of `size` bytes fits.
  abbrev pub trim : ℕ → AbstractPath → AbstractPath
  trim size [] = []
  trim size (b ∷ bs) = if is_full size (b ∷ bs) then trim size bs else b ∷ bs

  -- A new node is the last one.
  abbrev pub push : List ℕ → AbstractPath → AbstractPath
  push node path = trim (length node) path ++ (node ∷ [])
