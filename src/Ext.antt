-- ===== src/Ext.antt =====
-- os/src/agent/pcb_ext.rs: what the kernel keeps of an agent beside its task control block, and
-- the layout of the context area (os/src/agent/context_area.rs).
use os_agent.Base.{ℕ, ◌*◌, Bool, false, List, []}

pub data AgentType : Type 0 where
  normal system : AgentType

pub data LoopState : Type 0 where
  idle thinking calling observing done : LoopState

pub data EvictPolicy : Type 0 where
  fifo lru : EvictPolicy

-- `offset_in_buffer` and `len` are `u32`, `write_time` and `seq` are `u64`.
pub record PathNodeMeta : Type 0 where
  pub offset_in_buffer : ℕ
  pub len : ℕ
  pub write_time : ℕ
  pub seq : ℕ

pub record PathQuota : Type 0 where
  pub max_nodes : ℕ
  pub max_bytes : ℕ
  pub policy : EvictPolicy

pub record AgentExt : Type 0 where
  pub agent_type : AgentType
  pub heartbeat_interval_ms : ℕ
  pub loop_state : LoopState
  pub context_area_base : ℕ
  pub context_area_size : ℕ
  pub path_meta : List PathNodeMeta
  pub path_quota : PathQuota
  pub path_used_bytes : ℕ
  pub next_seq : ℕ
  pub heartbeat_last_ms : ℕ
  pub heartbeat_pending : Bool
  pub file_event_pending : Bool
  pub watched_events : ℕ
  pub mailbox : List (List ℕ)
  pub mailbox_capacity : ℕ

-- `AgentExt::new`
unfoldable pub new : AgentType → ℕ → ℕ → ℕ → ℕ → AgentExt
new agent_type context_area_base context_area_size max_nodes max_bytes = record {
  agent_type = agent_type;
  heartbeat_interval_ms = 0;
  loop_state = idle;
  context_area_base = context_area_base;
  context_area_size = context_area_size;
  path_meta = [];
  path_quota = record { max_nodes = max_nodes; max_bytes = max_bytes; policy = lru };
  path_used_bytes = 0;
  next_seq = 0;
  heartbeat_last_ms = 0;
  heartbeat_pending = false;
  file_event_pending = false;
  watched_events = 0;
  mailbox = [];
  mailbox_capacity = 32;
}

-- `context_area::layout`
abbrev pub tool_result_off : ℕ
tool_result_off = 0x100

abbrev pub tool_result_len : ℕ
tool_result_len = 0x4000

abbrev pub path_buffer_off : ℕ
path_buffer_off = 0x4100

abbrev pub path_buffer_len : ℕ
path_buffer_len = 0x8000

abbrev pub history_off : ℕ
history_off = 0xc100

abbrev pub history_len : ℕ
history_len = 0x2000

abbrev pub context_area_base_va : ℕ
context_area_base_va = 0x8000_0000

abbrev pub context_area_default_size : ℕ
context_area_default_size = 64 * 1024
