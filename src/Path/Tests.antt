-- ===== src/Path/Tests.antt =====
-- Tests of os/src/agent/context_path.rs on a small path, and the theorems at concrete inputs.
use mathlib.Core.Bool.{Bool}
use os_agent.Base.{ℕ, ◌+◌, ◌≡◌, refl, List, [], ◌∷◌, length, ◌-◌, replicate, arith}
use os_agent.Base.Bytes.{UserMemory, read_user_bytes, write_user_bytes}
use os_agent.Base.Results.{ok}
use os_agent.Ext.{AgentExt, PathNodeMeta, PathQuota, normal, lru, fifo, idle}
use os_agent.Ext
use os_agent.Path.{
  node_total_size, push_node, rollback, shift_path_buffer_left, shift_loop, chunk_size,
}
use os_agent.Path.Shift.{moved, shift-eq-moved}
use os_agent.Path.Evict.{IsValid}
use os_agent.Path.Push.{IsPushed, push_node-refines}
use os_agent.Path.Rollback.{IsRolledBack, rollback-refines}

abbrev blank : UserMemory
blank x = 0

-- An agent with two nodes and a quota of two.
abbrev first : PathNodeMeta
first = record { offset_in_buffer = 0; len = 26; write_time = 5; seq = 0 }

abbrev second : PathNodeMeta
second = record { offset_in_buffer = 26; len = 25; write_time = 7; seq = 1 }

abbrev two_nodes : AgentExt
two_nodes = record {
  agent_type = normal;
  heartbeat_interval_ms = 0;
  loop_state = idle;
  context_area_base = 0x8000_0000;
  context_area_size = 65536;
  path_meta = first ∷ second ∷ [];
  path_quota = record { max_nodes = 2; max_bytes = 1024; policy = lru };
  path_used_bytes = 51;
  next_seq = 2;
  heartbeat_last_ms = 0;
  heartbeat_pending = Bool.false;
  file_event_pending = Bool.false;
  watched_events = 0;
  mailbox = [];
  mailbox_capacity = 32;
}

two_nodes-IsValid : IsValid 7 two_nodes
two_nodes-IsValid = omega arith

-- One byte differs from 0, at the start of the second node.
abbrev marked : UserMemory
marked x = elim (Prim.Native.Nat.compare x 0x8000_411a) [ Prim.Native.Nat.Ordering.eq ↦ 9 | _ ↦ 0 ]

new-IsValid : IsValid 0 (Ext.new normal 0x8000_0000 65536 128 16384)
unfolding Ext.new
new-IsValid = omega arith

-- The second node has moved to the start of the buffer, with its byte.
shift_moves : shift_path_buffer_left marked 0x8000_4100 26 25 26 0x8000_4100 ≡ 9
unfolding shift_path_buffer_left shift_loop chunk_size read_user_bytes write_user_bytes
shift_moves = refl

shift-eq-moved_example :
    shift_path_buffer_left marked 0x8000_4100 26 25 26 0x8000_4100
    ≡ moved marked (0x8000_4100 + 26 - 26) 25 26 0x8000_4100
shift-eq-moved_example =
    shift-eq-moved marked 0x8000_4100 26 25 26 0x8000_4100 (omega arith) (omega arith)

-- The path is full: the first node goes.
push_node-refines_example :
    (ext' : AgentExt) × (mem' : UserMemory) × (push_node two_nodes marked 8 (1 ∷ []) (2 ∷ [])
      ≡ ok (length ext'.path_meta - 1, ext', mem'))
    × IsPushed 8 two_nodes marked (1 ∷ []) (2 ∷ []) ext' mem'
unfolding node_total_size
push_node-refines_example =
    push_node-refines 7 8 two_nodes marked (1 ∷ []) (2 ∷ []) two_nodes-IsValid (omega arith)
      (omega arith) (omega arith) (omega arith)

abbrev large : List ℕ
large = replicate 1001 0

rollback-refines_example :
    (ext' : AgentExt) × (mem' : UserMemory) × (rollback two_nodes marked 1 ≡ ok (ext', mem'))
    × IsRolledBack 7 two_nodes marked 1 ext' mem'
rollback-refines_example = rollback-refines 7 two_nodes marked 1 two_nodes-IsValid (omega arith)
