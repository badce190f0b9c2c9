-- ===== src/Tool/Lossy.antt =====
-- `String::from_utf8_lossy`, which os/src/agent/tool/handlers.rs uses: each part that is no UTF-8 becomes
-- the replacement character.
use os_agent.Base.{ℕ, zero, suc, none, some, List, [], ◌∷◌, ◌++◌}
use os_agent.Calls.Utf8.{utf8_step}

abbrev pub replacement : List ℕ
replacement = 0xef ∷ 0xbf ∷ 0xbd ∷ []

-- The bytes of a character that has begun stand in `part`; they are replaced by one character where
-- the next byte does not fit, and that byte is read again as a first one.
unfoldable pub lossy_from : ℕ × ℕ × ℕ → List ℕ → List ℕ → List ℕ
lossy_from st [] [] = []
lossy_from st (p ∷ part) [] = replacement
lossy_from st part (b ∷ bs) = elim (utf8_step st b) [
  | some (zero, low, high) ↦ part ++ (b ∷ lossy_from (zero, low, high) [] bs)
  | some (suc n, low, high) ↦ lossy_from (suc n, low, high) (part ++ (b ∷ [])) bs
  | none ↦ elim part [
    | [] ↦ replacement ++ lossy_from (0, 0x80, 0xbf) [] bs
    | p ∷ ps ↦ elim (utf8_step (0, 0x80, 0xbf) b) [
      | some (zero, low, high) ↦ replacement ++ (b ∷ lossy_from (zero, low, high) [] bs)
      | some (suc n, low, high) ↦ replacement ++ lossy_from (suc n, low, high) (b ∷ []) bs
      | none ↦ replacement ++ (replacement ++ lossy_from (0, 0x80, 0xbf) [] bs)
    ]
  ]
]

unfoldable pub from_utf8_lossy : List ℕ → List ℕ
from_utf8_lossy bs = lossy_from (0, 0x80, 0xbf) [] bs
