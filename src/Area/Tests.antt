-- ===== src/Area/Tests.antt =====
-- The context area at concrete inputs.
use os_agent.Base.{◌+◌, ◌≡◌, refl, some, [], ◌∷◌, arith}
use os_agent.Base.Bytes.{UserMemory}
use os_agent.Ext.{tool_result_off}
use os_agent.Area.{aligned, init_header, write_tool_result, tool_result_len_at}
use os_agent.Area.Ring.{header_word, place_of, IsWritten, write_tool_result-IsWritten}

abbrev blank : UserMemory
blank x = 0

abbrev fresh : UserMemory
fresh = init_header blank 0x8000_0000

aligned_up : aligned 65537 ≡ 69632
aligned_up = refl

-- The area after two bytes were written, whose place is taken.
abbrev once : UserMemory
once = (write_tool_result fresh 0x8000_0000 (9 ∷ 8 ∷ [])).0

write_tool_result-IsWritten_example :
    ((write_tool_result once 0x8000_0000 (1 ∷ 2 ∷ [])).1
      ≡ some (tool_result_off + place_of (header_word once 0x8000_0000 tool_result_len_at) 2, 2))
    × IsWritten once 0x8000_0000
        (place_of (header_word once 0x8000_0000 tool_result_len_at) 2)
        (1 ∷ 2 ∷ [])
        (write_tool_result once 0x8000_0000 (1 ∷ 2 ∷ [])).0
write_tool_result-IsWritten_example =
    write_tool_result-IsWritten once 0x8000_0000 (1 ∷ 2 ∷ []) (omega arith)
