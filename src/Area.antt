-- ===== src/Area.antt =====
-- os/src/agent/context_area.rs: the context area of an agent, its header and its ring of tool results.
pub mod Ring
mod Tests
use Prim.Native.Nat.{◌/◌, ◌%◌, ◌-◌, ◌≤◌, max}
use os_agent.Base.{
  ℕ, ◌+◌, ◌*◌, ◌&&◌, Option, none, some, List, [], ◌∷◌, ◌++◌, length, take, drop, replicate, ltb,
  leb, if◌then◌else◌, u32_mod, u64_mod, add64,
}
use os_agent.Base.Bytes.{UserMemory, read_user_bytes, write_user_bytes, to_le_bytes, from_le_bytes}
use os_agent.Ext.{
  tool_result_off, tool_result_len, path_buffer_off, path_buffer_len, history_off, history_len,
  context_area_base_va,
}

abbrev pub header_magic : ℕ
header_magic = 0xa9e4_5ec0

abbrev pub header_version : ℕ
header_version = 1

-- The offsets that `repr(C)` gives the fields of `AreaHeader` behind `seq_number`.
abbrev pub tool_result_len_at : ℕ
tool_result_len_at = 20

abbrev pub tool_result_write_pos_at : ℕ
tool_result_write_pos_at = 24

-- The bytes of the `AreaHeader` that `init_header` writes; the last four are its padding, as zeros.
unfoldable pub header_bytes : List ℕ
header_bytes =
    to_le_bytes 4 header_magic
    ++ to_le_bytes 4 header_version
    ++ to_le_bytes 8 0
    ++ to_le_bytes 4 tool_result_off
    ++ to_le_bytes 4 tool_result_len
    ++ to_le_bytes 4 0
    ++ to_le_bytes 4 path_buffer_off
    ++ to_le_bytes 4 path_buffer_len
    ++ to_le_bytes 4 0
    ++ to_le_bytes 4 0
    ++ to_le_bytes 4 history_off
    ++ to_le_bytes 4 history_len
    ++ replicate 192 0
    ++ replicate 4 0

unfoldable pub init_header : UserMemory → ℕ → UserMemory
unfolding header_bytes
init_header mem base = write_user_bytes mem base header_bytes

-- `((size + 0xFFF) & !0xFFF).max(0x1000)`
abbrev pub aligned : ℕ → ℕ
aligned size = max ((size + 0xfff) % u64_mod / 0x1000 * 0x1000) 0x1000

-- `allocate` maps new frames, which are zero, at the addresses of the area.
unfoldable pub allocate : UserMemory → ℕ → UserMemory
allocate mem size x =
    if leb context_area_base_va x && ltb x (context_area_base_va + size) then 0 else mem x

-- Where `write_tool_result` puts the data, by the position that it read.
unfoldable pub ring_start : ℕ → ℕ → ℕ
ring_start cur_pos len = if ltb tool_result_len (cur_pos + len) then 0 else cur_pos

unfoldable pub write_tool_result : UserMemory → ℕ → List ℕ → UserMemory × Option (ℕ × ℕ)
write_tool_result mem base bytes =
    let header_buf = read_user_bytes mem base 256 in
    let cur_pos = from_le_bytes (take 4 (drop 20 header_buf)) in
    let start = ring_start cur_pos (length bytes) in
    let written = write_user_bytes mem (base + tool_result_off + start) bytes in
    let new_pos = (start + length bytes) % u32_mod in
    let seq = add64 (from_le_bytes (take 8 (drop 8 header_buf))) 2 in
    let with_seq = write_user_bytes written (base + 8) (to_le_bytes 8 seq) in
    let with_pos = write_user_bytes with_seq (base + 20) (to_le_bytes 4 new_pos) in
    if ltb tool_result_len (length bytes)
    then (mem, none)
    else (with_pos, some ((tool_result_off + start) % u32_mod, length bytes % u32_mod))
