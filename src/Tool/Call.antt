-- ===== src/Tool/Call.antt =====
-- os/src/syscall/agent.rs: the system calls on tools, and `sys_context_query` with `serialize_meta` of
-- os/src/agent/context_path.rs.
use Prim.Native.Nat.{◌%◌}
use os_agent.Base.{
  ℕ, ◌+◌, ◌*◌, Bool, true, false, ◌||◌, ◌&&◌, not, Option, none, some, List, [], ◌∷◌, map, length,
  ltb, ◌==◌, if◌then◌else◌, u32_mod,
}
use os_agent.Base.Bytes.{read_user_bytes, write_user_bytes, to_le_bytes}
use os_agent.Base.Results.{AgentResult, ok, err, ISize, pos, negsuc, into_isize}
use os_agent.Base.Results
use os_agent.Ext.{AgentExt, PathNodeMeta, calling, observing, tool_result_off, tool_result_len}
use os_agent.Proto.{
  ToolName, system_status, query_process, read_context, send_message, query_file, all_tools,
  ToolRequest, ToolStatus, tool_ok, tool_not_found, bad_params, permission_denied, quota_exceeded,
  internal_error, not_implemented, ToolResponse, QueryResult, ToolDescriptor, Decoded, decoded,
  frame, postcard, decode_frame,
}
use os_agent.Calls.{System, set_memory, with_ext, ext_of, on_agent}
use os_agent.Tool.{Postcard, DispatchResult, codes, dispatch}

-- `ToolName::as_str`
abbrev pub as_str : ToolName → List ℕ
as_str system_status = codes "system_status"
as_str query_process = codes "query_process"
as_str read_context = codes "read_context"
as_str send_message = codes "send_message"
as_str query_file = codes "query_file"

abbrev pub tool_doc : ToolName → List ℕ
tool_doc system_status = codes "Returns overall system status (proc count, memory, uptime)."
tool_doc query_process = codes "Filter processes by status / agent type."
tool_doc read_context = codes "Read structured info about a process / file / agent by id."
tool_doc send_message = codes "Send an opaque byte payload to another process (task-5)."
tool_doc query_file = codes "Query files by tag / owner / keyword (task-4)."

abbrev pub describe : ToolName → ToolDescriptor
describe t = record { name = as_str t; doc = tool_doc t }

-- `unwrap_or_default`
abbrev pub or_empty : Option (List ℕ) → List ℕ
or_empty none = []
or_empty (some bytes) = bytes

-- `ToolDispatcher::list`
abbrev pub list : Postcard → List ℕ
list pc = or_empty (pc.tool_list (record { items = map describe all_tools }))

abbrev pub write_memory : System → ℕ → ℕ → List ℕ → System
write_memory s me at bytes = record s {
  memories = set_memory s.memories me (write_user_bytes (s.memories me) at bytes);
}

unfoldable pub sys_tool_list : Postcard → System → ℕ → ℕ → ℕ → ISize × System
sys_tool_list pc s me buf_ptr buf_len =
    let body = list pc in
    if buf_ptr == 0
    then (negsuc 0, s)
    else if ltb buf_len (length body)
    then (negsuc 1, s)
    else (pos (length body), write_memory s me buf_ptr body)

-- An out pointer that is null is left alone.
unfoldable pub write_out : System → ℕ → ℕ → ℕ → System
write_out s me ptr value = if ptr == 0 then s else write_memory s me ptr (to_le_bytes 4 value)

abbrev pub status_code : ToolStatus → ℕ
status_code tool_ok = 0
status_code tool_not_found = 100
status_code bad_params = 101
status_code permission_denied = 102
status_code quota_exceeded = 103
status_code internal_error = 104
status_code not_implemented = 105

abbrev pub is_ok : ToolStatus → Bool
is_ok tool_ok = true
is_ok s = false

abbrev pub is_empty : List ℕ → Bool
is_empty [] = true
is_empty (b ∷ bs) = false

-- The last step of a call: the agent, if the task still is one, observes.
unfoldable pub observe : System → ℕ → System
observe s me = elim (ext_of s me) [
  | none ↦ s
  | some ext ↦ with_ext s me (record ext { loop_state = observing })
]

unfoldable pub respond : System → ℕ → ToolResponse → ℕ → ℕ → ISize × System
respond s me resp out_offset_ptr out_len_ptr =
    let s1 = write_out s me out_offset_ptr resp.result_offset in
    let s2 = write_out s1 me out_len_ptr resp.result_len in
    (pos (status_code resp.status), observe s2 me)

-- The result goes to the start of the tool result ring.
unfoldable pub answer : System → ℕ → ℕ → ℕ → DispatchResult → ℕ → ℕ → ISize × System
answer s me area_base req_id dr out_offset_ptr out_len_ptr =
    let there : ToolResponse = record {
      req_id = req_id;
      status = dr.status;
      result_offset = tool_result_off;
      result_len = length dr.body % u32_mod;
    } in
    let nowhere : ToolResponse = record there { result_offset = 0; result_len = 0 } in
    if is_ok dr.status && not (is_empty dr.body)
    then (if ltb tool_result_len (length dr.body)
        then (negsuc 4, s)
        else respond (write_memory s me (area_base + tool_result_off) dr.body) me there
            out_offset_ptr out_len_ptr)
    else respond s me nowhere out_offset_ptr out_len_ptr

unfoldable pub dispatched : ℕ → ℕ → ℕ → ℕ → ℕ → AgentResult DispatchResult × System → ISize × System
dispatched me area_base req_id out_offset_ptr out_len_ptr (err e, s) = (into_isize e, s)
dispatched me area_base req_id out_offset_ptr out_len_ptr (ok dr, s) =
    answer s me area_base req_id dr out_offset_ptr out_len_ptr

unfoldable pub received :
    Postcard → System → ℕ → List ℕ → ℕ → ℕ → ℕ → ℕ → Decoded ToolRequest → ISize × System
received pc s me all now area_base out_offset_ptr out_len_ptr (frame e) = (negsuc 2, s)
received pc s me all now area_base out_offset_ptr out_len_ptr postcard = (negsuc 2, s)
received pc s me all now area_base out_offset_ptr out_len_ptr (decoded req) =
    dispatched me area_base req.req_id out_offset_ptr out_len_ptr (dispatch pc s all now req)

-- `all` is what `snapshot_all_processes` returns, and `now` what `get_time()` does.
unfoldable pub sys_tool_call : Postcard → System → ℕ → List ℕ → ℕ → ℕ → ℕ → ℕ → ℕ → ISize × System
sys_tool_call pc s me all now req_ptr req_len out_offset_ptr out_len_ptr =
    if (req_ptr == 0) || ((req_len == 0) || ltb (64 * 1024) req_len)
    then (negsuc 0, s)
    else on_agent s me (λ ext.
      let s1 = with_ext s me (record ext { loop_state = calling }) in
      received pc s1 me all now ext.context_area_base out_offset_ptr out_len_ptr
        (decode_frame pc.requests (read_user_bytes (s1.memories me) req_ptr req_len)))

pub record MetaSerde : Type 0 where
  pub offset : ℕ
  pub len : ℕ
  pub seq : ℕ
  pub write_time : ℕ

abbrev pub meta_of : PathNodeMeta → MetaSerde
meta_of m = record {
  offset = m.offset_in_buffer;
  len = m.len;
  seq = m.seq;
  write_time = m.write_time;
}

-- `to_allocvec` of a list of `MetaSerde` is the first argument.
unfoldable pub serialize_meta :
    (QueryResult MetaSerde → Option (List ℕ)) → AgentExt → AgentResult (List ℕ)
serialize_meta to_allocvec ext = elim (to_allocvec (record { items = map meta_of ext.path_meta })) [
  | none ↦ err Results.internal_error
  | some body ↦ ok body
]

unfoldable pub sys_context_query :
    (QueryResult MetaSerde → Option (List ℕ)) → System → ℕ → ℕ → ℕ → ISize × System
sys_context_query to_allocvec s me out_offset_ptr out_len_ptr = on_agent s me (λ ext.
    elim (serialize_meta to_allocvec ext) [
      | err e ↦ (into_isize e, s)
      | ok body ↦
          if ltb tool_result_len (length body)
          then (negsuc 4, s)
          else let s1 = write_memory s me (ext.context_area_base + tool_result_off) body in
            let s2 = write_out s1 me out_offset_ptr tool_result_off in
            (pos 0, write_out s2 me out_len_ptr (length body % u32_mod))
    ])
