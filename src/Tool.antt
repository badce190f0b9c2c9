-- ===== src/Tool.antt =====
-- os/src/agent/tool (registry.rs, handlers.rs): the tools of the kernel and their dispatcher. The
-- postcard crate is a parameter: an encoding of each type, which may fail, and the codec of requests.
pub mod Lossy
pub mod Call
pub mod Serve
pub mod Result
mod Tests
use Prim.Native.Char.{code}
use Prim.Native.String.{String}
use Prim.Native.Nat.{◌/◌, ◌%◌, min}
use os_agent.Base.{
  ℕ, zero, suc, ◌+◌, Bool, true, false, not, ◌&&◌, ◌||◌, Option, none, some, List, [], ◌∷◌, ◌++◌,
  map, length, take, ltb, ◌==◌, if◌then◌else◌, u32_mod,
}
use os_agent.Base.Results.{AgentResult, ok, err, internal_error}
use os_agent.BTree.{get}
use os_agent.BTree.Str.{Str, str_ord}
use os_agent.Task.{Task, TaskStatus, ready, running, zombie, blocked}
use os_agent.Attr.{FileAttrs, FileAttrStore, owner_key}
use os_agent.Attr.Query.{query_indexed, query_full_scan}
use os_agent.Events.{deliver_message}
use os_agent.Proto.{
  ToolName, system_status, query_process, read_context, send_message, query_file, all_tools,
  ProcStatus, AgentTypeFilter, any, normal, agent, ContextTargetType, process, file, agent_target,
  ToolParams, system_status_params, query_process_params, read_context_params, send_message_params,
  query_file_params, ToolRequest, ToolStatus, tool_ok, tool_not_found, bad_params,
  permission_denied, not_implemented, ProcessInfo, FileInfo, SystemStatusInfo, QueryResult,
  ToolDescriptor, Codec,
}
use os_agent.Proto
use os_agent.Calls.{System}
use os_agent.Tool.Lossy.{from_utf8_lossy}

-- The bytes of a text in ASCII. `String` has its own `[]` and `∷`.
abbrev pub codes : String → List ℕ
codes String.[] = []
codes (String.◌∷◌ c s) = code c ∷ codes s

-- What the code uses of postcard: `to_allocvec` at each type, and the codec of requests.
pub record Postcard : Type 0 where
  pub status_info : SystemStatusInfo → Option (List ℕ)
  pub process_list : QueryResult ProcessInfo → Option (List ℕ)
  pub process_info : ProcessInfo → Option (List ℕ)
  pub file_list : QueryResult FileInfo → Option (List ℕ)
  pub tool_list : QueryResult ToolDescriptor → Option (List ℕ)
  pub requests : Codec ToolRequest

pub record DispatchResult : Type 0 where
  pub status : ToolStatus
  pub body : List ℕ

abbrev pub map_status : TaskStatus → ProcStatus
map_status ready = Proto.ready
map_status running = Proto.running
map_status zombie = Proto.zombie
map_status blocked = Proto.blocked

-- The decimal digits of a number with at most as many digits as there is fuel: ten for a `u32`.
unfoldable pub digits : ℕ → ℕ → Str → Str
digits zero n acc = acc
digits (suc fuel) n acc =
    let acc' = (48 + n % 10) ∷ acc in
    let rest = digits fuel (n / 10) acc' in if ltb n 10 then acc' else rest

-- `format!("proc-{}", pid)`
unfoldable pub proc_name : ℕ → Str
proc_name pid = b'p' ∷ b'r' ∷ b'o' ∷ b'c' ∷ b'-' ∷ digits 10 pid []

abbrev pub is_some {ℓ} : {A : Type ℓ} → Option A → Bool
is_some none = false
is_some (some a) = true

unfoldable pub process_of : (ℕ → Task) → ℕ → ProcessInfo
process_of tasks p =
    let pid = p % u32_mod in
    record {
      pid = pid;
      name = proc_name pid;
      status = map_status (tasks p).task_status;
      is_agent = is_some (tasks p).agent_ext;
    }

-- `all` is what `snapshot_all_processes` returns.
unfoldable pub collect_processes : (ℕ → Task) → List ℕ → List ProcessInfo
collect_processes tasks [] = []
collect_processes tasks (p ∷ all) = process_of tasks p ∷ collect_processes tasks all

-- A result with a body, or an error where postcard fails.
unfoldable pub with_body : Option (List ℕ) → AgentResult DispatchResult
with_body none = err internal_error
with_body (some body) = ok (record { status = tool_ok; body = body })

abbrev pub no_body : ToolStatus → AgentResult DispatchResult
no_body status = ok (record { status = status; body = [] })

unfoldable pub same_status : ProcStatus → ProcStatus → Bool
same_status Proto.running Proto.running = true
same_status Proto.ready Proto.ready = true
same_status Proto.zombie Proto.zombie = true
same_status Proto.blocked Proto.blocked = true
same_status a b = false

-- `iter().filter(test).count()`
unfoldable pub count : (ProcessInfo → Bool) → List ProcessInfo → ℕ
count test [] = 0
count test (p ∷ ps) = (if test p then 1 else 0) + count test ps

-- `Vec::retain`
unfoldable pub retain : (ProcessInfo → Bool) → List ProcessInfo → List ProcessInfo
retain test [] = []
retain test (p ∷ ps) = let rest = retain test ps in if test p then p ∷ rest else rest

-- `into_iter().find(test)`
unfoldable pub find : (ProcessInfo → Bool) → List ProcessInfo → Option ProcessInfo
find test [] = none
find test (p ∷ ps) = let rest = find test ps in if test p then some p else rest

-- `now` is what `get_time()` returns.
unfoldable pub status_info_of : List ProcessInfo → ℕ → SystemStatusInfo
status_info_of procs now = record {
  total_procs = length procs % u32_mod;
  agent_procs = count (λ p. p.is_agent) procs % u32_mod;
  running_procs = count (λ p. same_status p.status Proto.running) procs % u32_mod;
  memory_used_bytes = 0;
  uptime_ticks = now;
}

unfoldable pub status_matches : Option ProcStatus → ProcStatus → Bool
status_matches none s = true
status_matches (some wanted) s = same_status s wanted

unfoldable pub type_matches : AgentTypeFilter → Bool → Bool
type_matches any is_agent = true
type_matches agent is_agent = is_agent
type_matches normal is_agent = not is_agent

unfoldable pub process_matches : Option ProcStatus → AgentTypeFilter → ProcessInfo → Bool
process_matches status ty p = status_matches status p.status && type_matches ty p.is_agent

unfoldable pub handle_query_process :
    Postcard → List ProcessInfo → ToolParams → AgentResult DispatchResult
handle_query_process pc procs (query_process_params status ty) =
    with_body (pc.process_list (record { items = retain (process_matches status ty) procs }))
handle_query_process pc procs params = no_body bad_params

-- The process or agent that is asked for; an agent must be one.
unfoldable pub read_process : Postcard → Bool → Option ProcessInfo → AgentResult DispatchResult
read_process pc wants_agent none = no_body tool_not_found
read_process pc wants_agent (some p) =
    if wants_agent && not p.is_agent
    then no_body permission_denied
    else with_body (pc.process_info p)

unfoldable pub handle_read_context :
    Postcard → List ProcessInfo → ToolParams → AgentResult DispatchResult
handle_read_context pc procs (read_context_params process target_id) =
    read_process pc false (find (λ p. p.pid == target_id) procs)
handle_read_context pc procs (read_context_params agent_target target_id) =
    read_process pc true (find (λ p. p.pid == target_id) procs)
handle_read_context pc procs (read_context_params file target_id) = no_body not_implemented
handle_read_context pc procs params = no_body bad_params

unfoldable pub handle_send_message :
    System → List ℕ → ToolParams → AgentResult DispatchResult × System
handle_send_message s all (send_message_params target_pid payload) =
    let (kernel, sent) = deliver_message s.kernel all target_pid payload in
    (no_body (if sent then tool_ok else permission_denied), record s { kernel = kernel })
handle_send_message s all params = (no_body bad_params, s)

abbrev pub preview_len : ℕ
preview_len = 48

unfoldable pub file_info_of : Str → Option FileAttrs → FileInfo
file_info_of name none = record {
  inode_id = 0;
  name = name;
  size = 0;
  tags = [];
  owner = none;
  digest_preview = [];
}
file_info_of name (some a) = record {
  inode_id = 0;
  name = name;
  size = 0;
  tags = a.tags;
  owner = get owner_key a.kv;
  digest_preview = from_utf8_lossy (take preview_len a.digest);
}

unfoldable pub file_infos : FileAttrStore → List Str → List FileInfo
file_infos store [] = []
file_infos store (n ∷ names) = file_info_of n (get n store.by_name) ∷ file_infos store names

unfoldable pub handle_query_file :
    Postcard → FileAttrStore → ToolParams → AgentResult DispatchResult
handle_query_file pc store (query_file_params tag owner keyword use_index) =
    let names =
      if use_index
      then query_indexed store tag owner keyword
      else query_full_scan store tag owner keyword in
    with_body (pc.file_list (record { items = file_infos store names }))
handle_query_file pc store params = no_body bad_params

unfoldable pub dispatch :
    Postcard → System → List ℕ → ℕ → ToolRequest → AgentResult DispatchResult × System
dispatch pc s all now req =
    let procs = collect_processes s.kernel.tasks all in
    elim req.tool [
      | system_status ↦ (with_body (pc.status_info (status_info_of procs now)), s)
      | query_process ↦ (handle_query_process pc procs req.params, s)
      | read_context ↦ (handle_read_context pc procs req.params, s)
      | send_message ↦ handle_send_message s all req.params
      | query_file ↦ (handle_query_file pc s.store req.params, s)
    ]
