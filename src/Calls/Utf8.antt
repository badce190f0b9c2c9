-- ===== src/Calls/Utf8.antt =====
-- `core::str::from_utf8`: which bytes are the UTF-8 form of a string (Unicode, table 3-7).
use os_agent.Base.{
  ℕ, zero, suc, Bool, true, false, ◌&&◌, Option, none, some, List, [], ◌∷◌, leb, ltb, if◌then◌else◌,
}

-- How many bytes follow a first byte, and the bounds of the next one.
unfoldable pub lead : ℕ → Option (ℕ × ℕ × ℕ)
lead b =
    if ltb b 0x80
    then some (0, 0x80, 0xbf)
    else if ltb b 0xc2
    then none
    else if ltb b 0xe0
    then some (1, 0x80, 0xbf)
    else if leb b 0xe0
    then some (2, 0xa0, 0xbf)
    else if leb b 0xec
    then some (2, 0x80, 0xbf)
    else if leb b 0xed
    then some (2, 0x80, 0x9f)
    else if leb b 0xef
    then some (2, 0x80, 0xbf)
    else if leb b 0xf0
    then some (3, 0x90, 0xbf)
    else if leb b 0xf3
    then some (3, 0x80, 0xbf)
    else if leb b 0xf4
    then some (3, 0x80, 0x8f)
    else none

-- What the next byte leaves to come, if it fits.
unfoldable pub utf8_step : ℕ × ℕ × ℕ → ℕ → Option (ℕ × ℕ × ℕ)
utf8_step (zero, low, high) b = lead b
utf8_step (suc n, low, high) b = if leb low b && leb b high then some (n, 0x80, 0xbf) else none

unfoldable pub is_done : Option (ℕ × ℕ × ℕ) → Bool
is_done none = false
is_done (some (zero, low, high)) = true
is_done (some (suc n, low, high)) = false

unfoldable pub utf8_run : Option (ℕ × ℕ × ℕ) → List ℕ → Option (ℕ × ℕ × ℕ)
utf8_run none bs = none
utf8_run (some st) [] = some st
utf8_run (some st) (b ∷ bs) = utf8_run (utf8_step st b) bs

unfoldable pub is_utf8 : List ℕ → Bool
is_utf8 bs = is_done (utf8_run (some (0, 0x80, 0xbf)) bs)
