-- ===== src/User/Asks.antt =====
-- What the kernel is asked for is what the wrapper was called with.
use Prim.Native.Nat.{◌%◌, ◌^◌}
use os_agent.Base.{◌<◌, ◌≡◌, refl, Option, some, u32_mod, u64_mod, arith}
use os_agent.Base.Results.{ISize, pos, negsuc}
use os_agent.Trap.{
  Call, syscall, as_isize, as_i32, open_call, close_call, read_call, write_call, exit_call,
  yield_call, get_time_call, getpid_call, fork_call, exec_call, waitpid_call, agent_create,
  agent_info, tool_call, tool_list, context_push, context_query, context_rollback, context_clear,
  heartbeat_set, heartbeat_stop, agent_watch, agent_wait, agent_unwatch, mailbox_recv,
  set_loop_state, file_attr_del, file_attr_set, set_priority, file_attr_bench,
}
use os_agent.User.{
  Regs, ecall, ecall4, as_usize, sys_open, sys_close, sys_read, sys_write, sys_exit, sys_yield,
  sys_get_time, sys_getpid, sys_fork, sys_exec, sys_waitpid, sys_agent_create, sys_agent_info,
  sys_tool_call, sys_tool_list, sys_context_push, sys_context_query, sys_context_rollback,
  sys_context_clear, sys_agent_heartbeat_set, sys_agent_heartbeat_stop, sys_agent_watch,
  sys_agent_wait, sys_agent_unwatch, sys_mailbox_recv, sys_agent_set_loop_state, sys_file_attr_del,
  sys_file_attr_set, sys_agent_set_priority, sys_file_attr_bench,
}

-- The wrapper for each call. `agent_watch` has two arguments that no wrapper sets.
unfoldable pub enter : Call → Regs → Regs
enter (open_call a b) regs = sys_open regs a b
enter (close_call a) regs = sys_close regs a
enter (read_call a b c) regs = sys_read regs a b c
enter (write_call a b c) regs = sys_write regs a b c
enter (exit_call a) regs = sys_exit regs a
enter yield_call regs = sys_yield regs
enter get_time_call regs = sys_get_time regs
enter getpid_call regs = sys_getpid regs
enter fork_call regs = sys_fork regs
enter (exec_call a) regs = sys_exec regs a
enter (waitpid_call a b) regs = sys_waitpid regs a b
enter (agent_create a) regs = sys_agent_create regs a
enter (agent_info a b c) regs = sys_agent_info regs a b c
enter (tool_call a b c d) regs = sys_tool_call regs a b c d
enter (tool_list a b) regs = sys_tool_list regs a b
enter (context_push a b c d) regs = sys_context_push regs a b c d
enter (context_query a b c d) regs = sys_context_query regs a b c d
enter (context_rollback a) regs = sys_context_rollback regs a
enter context_clear regs = sys_context_clear regs
enter (heartbeat_set a) regs = sys_agent_heartbeat_set regs a
enter heartbeat_stop regs = sys_agent_heartbeat_stop regs
enter (agent_watch a b c) regs = sys_agent_watch regs a
enter (agent_wait a) regs = sys_agent_wait regs a
enter (agent_unwatch a) regs = sys_agent_unwatch regs a
enter (mailbox_recv a b) regs = sys_mailbox_recv regs a b
enter (set_loop_state a) regs = sys_agent_set_loop_state regs a
enter (file_attr_del a b c d) regs = sys_file_attr_del regs a b c d
enter (file_attr_set a b c d) regs = sys_file_attr_set regs a b c d
enter (set_priority a) regs = sys_agent_set_priority regs a
enter (file_attr_bench a b c) regs = sys_file_attr_bench regs a b c

-- The numbers that a call can have as arguments: words, and signed words.
abbrev pub IsWide : ISize → Type 0
IsWide (pos n) = n < 2 ^ 63
IsWide (negsuc n) = n < 2 ^ 63

abbrev pub IsNarrow : ISize → Type 0
IsNarrow (pos n) = n < 2 ^ 31
IsNarrow (negsuc n) = n < 2 ^ 31

abbrev pub IsCall : Call → Type 0
IsCall (open_call a b) = (b < u32_mod)
IsCall (close_call a) = Unit {0}
IsCall (read_call a b c) = Unit {0}
IsCall (write_call a b c) = Unit {0}
IsCall (exit_call a) = IsNarrow a
IsCall yield_call = Unit {0}
IsCall get_time_call = Unit {0}
IsCall getpid_call = Unit {0}
IsCall fork_call = Unit {0}
IsCall (exec_call a) = Unit {0}
IsCall (waitpid_call a b) = IsWide a
IsCall (agent_create a) = Unit {0}
IsCall (agent_info a b c) = Unit {0}
IsCall (tool_call a b c d) = Unit {0}
IsCall (tool_list a b) = Unit {0}
IsCall (context_push a b c d) = Unit {0}
IsCall (context_query a b c d) = Unit {0}
IsCall (context_rollback a) = Unit {0}
IsCall context_clear = Unit {0}
IsCall (heartbeat_set a) = Unit {0}
IsCall heartbeat_stop = Unit {0}
IsCall (agent_watch a b c) = (a < u32_mod) × (b ≡ 0) × (c ≡ 0)
IsCall (agent_wait a) = IsWide a
IsCall (agent_unwatch a) = Unit {0}
IsCall (mailbox_recv a b) = Unit {0}
IsCall (set_loop_state a) = (a < u32_mod)
IsCall (file_attr_del a b c d) = Unit {0}
IsCall (file_attr_set a b c d) = Unit {0}
IsCall (set_priority a) = Unit {0}
IsCall (file_attr_bench a b c) = Unit {0}

-- Which call the kernel finds in the registers.
unfoldable pub asked : Regs → Option Call
asked regs = syscall (regs 17) (regs 10) (regs 11) (regs 12) (regs 13)

pub as_isize-as_usize : (x : ISize) → IsWide x → as_isize (as_usize x) ≡ x
as_isize-as_usize (pos n) h = let e : n % u64_mod ≡ n = omega (arith, h) in ground (arith, h, e)
as_isize-as_usize (negsuc n) h = let e : n % u64_mod ≡ n = omega (arith, h) in ground (arith, h, e)

as_i32-as_usize : (x : ISize) → IsNarrow x → as_i32 (as_usize x) ≡ x
as_i32-as_usize (pos n) h = let e : n % u64_mod ≡ n = omega (arith, h) in ground (arith, h, e)
as_i32-as_usize (negsuc n) h = let e : n % u64_mod ≡ n = omega (arith, h) in ground (arith, h, e)

-- The kernel is asked for the call that the wrapper was called for, with the same arguments, whatever the
-- registers hold that the wrapper does not set.
pub asked-enter : (c : Call) (regs : Regs) → IsCall c → asked (enter c regs) ≡ some c
unfolding asked enter ecall ecall4 syscall
asked-enter (open_call a b) regs h = let e : b % u32_mod ≡ b = omega (arith, h) in rw e refl
asked-enter (close_call a) regs h = refl
asked-enter (read_call a b c) regs h = refl
asked-enter (write_call a b c) regs h = refl
asked-enter (exit_call a) regs h = rw (as_i32-as_usize a h) refl
asked-enter yield_call regs h = refl
asked-enter get_time_call regs h = refl
asked-enter getpid_call regs h = refl
asked-enter fork_call regs h = refl
asked-enter (exec_call a) regs h = refl
asked-enter (waitpid_call a b) regs h = rw (as_isize-as_usize a h) refl
asked-enter (agent_create a) regs h = refl
asked-enter (agent_info a b c) regs h = refl
asked-enter (tool_call a b c d) regs h = refl
asked-enter (tool_list a b) regs h = refl
asked-enter (context_push a b c d) regs h = refl
asked-enter (context_query a b c d) regs h = refl
asked-enter (context_rollback a) regs h = refl
asked-enter context_clear regs h = refl
asked-enter (heartbeat_set a) regs h = refl
asked-enter heartbeat_stop regs h = refl
asked-enter (agent_watch a b c) regs h =
    let e : a % u32_mod ≡ a = omega (arith, h.0) in rw (e, h.1, h.2) refl
asked-enter (agent_wait a) regs h = rw (as_isize-as_usize a h) refl
asked-enter (agent_unwatch a) regs h = refl
asked-enter (mailbox_recv a b) regs h = refl
asked-enter (set_loop_state a) regs h = let e : a % u32_mod ≡ a = omega (arith, h) in rw e refl
asked-enter (file_attr_del a b c d) regs h = refl
asked-enter (file_attr_set a b c d) regs h = refl
asked-enter (set_priority a) regs h = refl
asked-enter (file_attr_bench a b c) regs h = refl
