-- ===== src/Calls.antt =====
-- os/src/syscall/agent.rs: the system calls on the agent of the current task. `me` is the pid of the
-- task that `current_task().unwrap()` gives: a system call is made by the task that runs.
pub mod Utf8
pub mod Files
pub mod Waiting
pub mod Agents
pub mod Paths
mod Tests
use Prim.Native.Nat.{◌%◌, ◌-◌, min, bit_and, bit_or, bit_xor}
use os_agent.Base.{
  ℕ, ◌+◌, ◌*◌, Bool, true, false, ◌&&◌, Option, none, some, List, [], ◌∷◌, ◌++◌, length, take,
  replicate, ltb, leb, ◌==◌, if◌then◌else◌, u32_mod, u64_mod,
}
use os_agent.Base.Bytes.{UserMemory, read_user_bytes, write_user_bytes, to_le_bytes}
use os_agent.Base.Results.{
  AgentResult, ok, err, ISize, pos, negsuc, into_isize, not_an_agent, bad_user_pointer,
  buffer_too_small, not_found,
}
use os_agent.Ext.{
  AgentType, normal, system, LoopState, idle, thinking, calling, observing, done, AgentExt,
  context_area_base_va, context_area_default_size,
}
use os_agent.Ext
use os_agent.Area.{aligned, allocate, init_header}
use os_agent.Task.{Task, Kernel, update_task}
use os_agent.Attr.{FileAttrStore}
use os_agent.Events.{set_ext}
use os_agent.Path.{push_node, rollback, clear}

-- The kernel, the user memory of each task, and `FILE_ATTR_STORE`.
pub record System : Type 0 where
  pub kernel : Kernel
  pub memories : ℕ → UserMemory
  pub store : FileAttrStore

abbrev pub set_memory : (ℕ → UserMemory) → ℕ → UserMemory → ℕ → UserMemory
set_memory memories p mem q = if q == p then mem else memories q

abbrev pub with_ext : System → ℕ → AgentExt → System
with_ext s me ext = record s { kernel = record s.kernel { tasks = set_ext s.kernel.tasks me ext } }

abbrev pub ext_of : System → ℕ → Option AgentExt
ext_of s me = (s.kernel.tasks me).agent_ext

-- The start of most calls: a task that is no agent is refused.
abbrev pub on_agent : System → ℕ → (AgentExt → ISize × System) → ISize × System
on_agent s me f = elim (ext_of s me) [ none ↦ (into_isize not_an_agent, s) | some ext ↦ f ext ]

-- The header is written before the agent's state is.
unfoldable pub sys_agent_create : System → ℕ → ISize × System
sys_agent_create s me = elim (ext_of s me) [
  | some ext ↦ (pos 0, s)
  | none ↦
      let size = aligned context_area_default_size in
      let mem = init_header (allocate (s.memories me) size) context_area_base_va in
      (
        pos 0,
        record (with_ext s me (Ext.new normal context_area_base_va size 128 (16 * 1024))) {
          memories = set_memory s.memories me mem;
        },
      )
]

abbrev pub ty_code : AgentType → ℕ
ty_code normal = 1
ty_code system = 2

abbrev pub loop_code : LoopState → ℕ
loop_code idle = 0
loop_code thinking = 1
loop_code calling = 2
loop_code observing = 3
loop_code done = 4

unfoldable pub info_bytes : AgentExt → List ℕ
info_bytes ext =
    to_le_bytes 4 (ty_code ext.agent_type)
    ++ to_le_bytes 4 (ext.context_area_size % u32_mod)
    ++ to_le_bytes 4 (length ext.path_meta % u32_mod)
    ++ to_le_bytes 4 (loop_code ext.loop_state)

-- The copy of the buffer to the user stops at the shorter of the two lengths.
unfoldable pub sys_agent_info : System → ℕ → ℕ → ℕ → ISize × System
sys_agent_info s me info_ptr info_len = on_agent s me (λ ext.
    let buf = take info_len (info_bytes ext) in
    (
      pos (length buf),
      record s {
        memories = set_memory s.memories me (write_user_bytes (s.memories me) info_ptr buf);
      },
    ))

-- The copy from the user of `sys_context_push`: a null pointer leaves the zeros of the buffer.
unfoldable pub copy_or_zero : UserMemory → ℕ → ℕ → List ℕ
copy_or_zero mem ptr len =
    if ltb 0 len && ltb 0 ptr then read_user_bytes mem ptr len else replicate len 0

unfoldable pub pushed_to : System → ℕ → AgentResult (ℕ × AgentExt × UserMemory) → ISize × System
pushed_to s me (err e) = (into_isize e, s)
pushed_to s me (ok (idx, ext, mem)) =
    (pos idx, record (with_ext s me ext) { memories = set_memory s.memories me mem })

-- `now` is what `get_time()` returns.
unfoldable pub sys_context_push : System → ℕ → ℕ → ℕ → ℕ → ℕ → ℕ → ISize × System
sys_context_push s me now req_ptr req_len resp_ptr resp_len =
    let mem = s.memories me in
    if ltb 4096 req_len
    then (into_isize buffer_too_small, s)
    else if ltb 4096 resp_len
    then (into_isize buffer_too_small, s)
    else on_agent s me (λ ext. pushed_to s me (
        push_node ext mem now (copy_or_zero mem req_ptr req_len)
          (copy_or_zero mem resp_ptr resp_len)))

unfoldable pub rolled_to : System → ℕ → AgentResult (AgentExt × UserMemory) → ISize × System
rolled_to s me (err e) = (into_isize e, s)
rolled_to s me (ok (ext, mem)) =
    (pos 0, record (with_ext s me ext) { memories = set_memory s.memories me mem })

unfoldable pub sys_context_rollback : System → ℕ → ℕ → ISize × System
sys_context_rollback s me node_count =
    on_agent s me (λ ext. rolled_to s me (rollback ext (s.memories me) node_count))

unfoldable pub sys_context_clear : System → ℕ → ISize × System
sys_context_clear s me = on_agent s me (λ ext. rolled_to s me (ok (clear ext (s.memories me))))

abbrev pub loop_state_of : ℕ → Option LoopState
loop_state_of code =
    if code == 0
    then some idle
    else if code == 1
    then some thinking
    else if code == 2
    then some calling
    else if code == 3
    then some observing
    else if code == 4
    then some done
    else none

unfoldable pub sys_agent_set_loop_state : System → ℕ → ℕ → ISize × System
sys_agent_set_loop_state s me state_code = elim (loop_state_of state_code) [
  | none ↦ (negsuc 0, s)
  | some new_state ↦
      on_agent s me (λ ext. (pos 0, with_ext s me (record ext { loop_state = new_state })))
]

-- `MAX_PRIORITY` and `DEFAULT_PRIORITY` of os/src/task/task.rs.
abbrev pub max_priority : ℕ
max_priority = 255

abbrev pub default_priority : ℕ
default_priority = 16

unfoldable pub sys_agent_set_priority : System → ℕ → ℕ → ISize × System
sys_agent_set_priority s me priority =
    let p = min priority max_priority in
    let tasks = s.kernel.tasks in
    (
      pos p,
      record s {
        kernel = record s.kernel {
          tasks = update_task tasks me (record (tasks me) { priority = p });
        };
      },
    )

-- `now_ms` is what `get_time_ms()` returns.
unfoldable pub sys_agent_heartbeat_set : System → ℕ → ℕ → ℕ → ISize × System
sys_agent_heartbeat_set s me now_ms interval_ms = on_agent s me (λ ext. (
  pos 0,
  with_ext s me (record ext {
    heartbeat_interval_ms = interval_ms;
    heartbeat_last_ms = now_ms;
    heartbeat_pending = false;
  }),
))

unfoldable pub sys_agent_heartbeat_stop : System → ℕ → ISize × System
sys_agent_heartbeat_stop s me = on_agent s me (λ ext.
    (pos 0, with_ext s me (record ext { heartbeat_interval_ms = 0; heartbeat_pending = false })))

unfoldable pub sys_agent_watch : System → ℕ → ℕ → ISize × System
sys_agent_watch s me event_mask = on_agent s me (λ ext.
    (pos 0, with_ext s me (record ext { watched_events = bit_or ext.watched_events event_mask })))

-- `watched & !mask`: the bits of `watched` less those that it shares with the mask.
unfoldable pub sys_agent_unwatch : System → ℕ → ℕ → ISize × System
sys_agent_unwatch s me event_mask = on_agent s me (λ ext.
    let watched = ext.watched_events in
    (
      pos 0,
      with_ext s me (record ext {
        watched_events = bit_xor watched (bit_and watched (event_mask % u32_mod));
      }),
    ))

unfoldable pub take_message : List (List ℕ) → Option (List ℕ × List (List ℕ))
take_message [] = none
take_message (msg ∷ rest) = some (msg, rest)

unfoldable pub sys_mailbox_recv : System → ℕ → ℕ → ℕ → ISize × System
sys_mailbox_recv s me buf_ptr buf_len =
    if buf_ptr == 0
    then (negsuc 0, s)
    else on_agent s me (λ ext. elim (take_message ext.mailbox) [
      | none ↦ (into_isize not_found, s)
      | some (msg, rest) ↦
          let n = min buf_len (length msg) in
          (
            pos n,
            record (with_ext s me (record ext { mailbox = rest })) {
              memories =
                  set_memory s.memories me (write_user_bytes (s.memories me) buf_ptr (take n msg));
            },
          )
    ])
