-- ===== src/Tool/Tests.antt =====
-- The tools at concrete inputs: an agent asks for the status of a system of two tasks.
use os_agent.Base.{◌≡◌, refl, none, some, [], ◌∷◌, inl, arith, ◌==◌, if◌then◌else◌}
use os_agent.Base.Bytes.{UserMemory, read_user_bytes, from_le_bytes}
use os_agent.Base.Results.{pos, ok}
use os_agent.Ext.{AgentExt, normal, calling, tool_result_off}
use os_agent.Ext
use os_agent.Task.Machine.{no_task}
use os_agent.Attr.{new}
use os_agent.Proto.{
  ToolRequest, system_status, system_status_params, tool_ok, decoded, decode_frame,
  check_frame_header, decode_body,
}
use os_agent.Calls.{System, with_ext}
use os_agent.Calls.Utf8.{utf8_step, lead}
use os_agent.Tool.{
  Postcard, dispatch, collect_processes, process_of, proc_name, digits, status_info_of, with_body,
  count, codes,
}
use os_agent.Tool.Lossy.{from_utf8_lossy, lossy_from}
use os_agent.Tool.Call.{sys_tool_call}
use os_agent.Tool.Result.{IsServed, sys_tool_call-IsServed}

proc_name_test : proc_name 4096 ≡ codes "proc-4096"
unfolding proc_name digits
proc_name_test = refl

-- A byte that begins no character, and a character that is cut off.
lossy_test :
    from_utf8_lossy (0x61 ∷ 0xff ∷ 0xe2 ∷ 0x82 ∷ [])
    ≡ 0x61 ∷ 0xef ∷ 0xbf ∷ 0xbd ∷ 0xef ∷ 0xbf ∷ 0xbd ∷ []
unfolding from_utf8_lossy lossy_from utf8_step lead
lossy_test = refl

abbrev an_agent : AgentExt
an_agent = Ext.new normal 0x8000_0000 65536 128 16384

abbrev ask : ToolRequest
ask = record { req_id = 7; tool = system_status; params = system_status_params }

-- An encoding of the numbers of processes and agents, and a codec of one request.
abbrev small : Postcard
small = record {
  status_info = λ i. some (i.total_procs ∷ i.agent_procs ∷ []);
  process_list = λ r. none;
  process_info = λ p. none;
  file_list = λ r. none;
  tool_list = λ r. none;
  requests = record { encode = λ r. []; decode = λ b. some ask };
}

abbrev memory : UserMemory
memory x =
    if x == 0x1000
    then 0x00
    else if x == 0x1001
    then 0x7f
    else if x == 0x1002
    then 0xe4
    else if x == 0x1003
    then 0xa9
    else if x == 0x1004
    then 1
    else 0

abbrev system : System
system = record {
  kernel = record {
    tasks = λ p. if p == 1 then record no_task { agent_ext = some an_agent } else no_task;
    ready_queue = [];
    blocked_agents = [];
    current = some 1;
  };
  memories = λ p. memory;
  store = new;
}

decodes : decode_frame small.requests (read_user_bytes memory 0x1000 6) ≡ decoded ask
unfolding decode_frame read_user_bytes check_frame_header from_le_bytes decode_body
decodes = refl

runs :
    dispatch small (with_ext system 1 (record an_agent { loop_state = calling })) (0 ∷ 1 ∷ []) 5 ask
    ≡ (
      ok (record { status = tool_ok; body = 2 ∷ 1 ∷ [] }),
      with_ext system 1 (record an_agent { loop_state = calling }),
    )
unfolding dispatch collect_processes process_of status_info_of with_body count
runs = refl

sys_tool_call-IsServed_example :
    ((sys_tool_call small system 1 (0 ∷ 1 ∷ []) 5 0x1000 6 0x2000 0x2004).0 ≡ pos 0)
    × IsServed
        ((sys_tool_call small system 1 (0 ∷ 1 ∷ []) 5 0x1000 6 0x2000 0x2004).1.memories 1)
        0x8000_0000
        0x2000
        0x2004
        (2 ∷ 1 ∷ [])
unfolding Ext.new
sys_tool_call-IsServed_example =
    sys_tool_call-IsServed small system 1 (0 ∷ 1 ∷ []) 5 0x1000 6 0x2000 0x2004 an_agent ask
      (record { status = tool_ok; body = 2 ∷ 1 ∷ [] })
      (with_ext system 1 (record an_agent { loop_state = calling })) refl (omega arith)
      (omega arith) (omega arith) decodes runs refl refl (omega arith) (omega arith) (omega arith)
      (inl (omega arith)) (inl (omega arith)) (inl (omega arith))
