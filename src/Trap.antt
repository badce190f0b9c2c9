-- ===== src/Trap.antt =====
-- os/src/syscall/mod.rs: which system call the registers ask for. A call is a value of `Call` here, with
-- its arguments as `syscall` casts them.
pub mod Handler
use Prim.Native.Nat.{◌%◌, ◌-◌, ◌^◌}
use os_agent.Base.{
  ℕ, ◌+◌, ◌*◌, Bool, true, false, Option, none, some, ltb, ◌==◌, if◌then◌else◌, u32_mod, u64_mod,
}
use os_agent.Base.Results.{ISize, pos, negsuc}

-- The handlers of the kernel, with what they are called with.
pub data Call : Type 0 where
  open_call tool_list mailbox_recv : ℕ → ℕ → Call
  close_call exec_call agent_create context_rollback heartbeat_set agent_unwatch set_loop_state
        set_priority :
      ℕ → Call
  read_call write_call agent_info agent_watch file_attr_bench : ℕ → ℕ → ℕ → Call
  exit_call agent_wait : ISize → Call
  yield_call get_time_call getpid_call fork_call context_clear heartbeat_stop : Call
  waitpid_call : ISize → ℕ → Call
  tool_call context_push context_query file_attr_del file_attr_set : ℕ → ℕ → ℕ → ℕ → Call

-- `as isize` and `as i64` of a 64-bit word, and `as i32`.
abbrev pub as_isize : ℕ → ISize
as_isize x = if ltb x (2 ^ 63) then pos x else negsuc (u64_mod - 1 - x)

abbrev pub as_i32 : ℕ → ISize
as_i32 x = let w = x % u32_mod in if ltb w (2 ^ 31) then pos w else negsuc (u32_mod - 1 - w)

-- `none` is the panic of a number that is none of a call.
unfoldable pub syscall : ℕ → ℕ → ℕ → ℕ → ℕ → Option Call
syscall syscall_id a0 a1 a2 a3 =
    if syscall_id == 56
    then some (open_call a0 (a1 % u32_mod))
    else if syscall_id == 57
    then some (close_call a0)
    else if syscall_id == 63
    then some (read_call a0 a1 a2)
    else if syscall_id == 64
    then some (write_call a0 a1 a2)
    else if syscall_id == 93
    then some (exit_call (as_i32 a0))
    else if syscall_id == 124
    then some yield_call
    else if syscall_id == 169
    then some get_time_call
    else if syscall_id == 172
    then some getpid_call
    else if syscall_id == 220
    then some fork_call
    else if syscall_id == 221
    then some (exec_call a0)
    else if syscall_id == 260
    then some (waitpid_call (as_isize a0) a1)
    else if syscall_id == 500
    then some (agent_create a0)
    else if syscall_id == 501
    then some (agent_info a0 a1 a2)
    else if syscall_id == 510
    then some (tool_call a0 a1 a2 a3)
    else if syscall_id == 511
    then some (tool_list a0 a1)
    else if syscall_id == 520
    then some (context_push a0 a1 a2 a3)
    else if syscall_id == 521
    then some (context_query a0 a1 a2 a3)
    else if syscall_id == 522
    then some (context_rollback a0)
    else if syscall_id == 523
    then some context_clear
    else if syscall_id == 530
    then some (heartbeat_set a0)
    else if syscall_id == 531
    then some heartbeat_stop
    else if syscall_id == 532
    then some (agent_watch (a0 % u32_mod) a1 a2)
    else if syscall_id == 533
    then some (agent_wait (as_isize a0))
    else if syscall_id == 534
    then some (agent_unwatch a0)
    else if syscall_id == 535
    then some (mailbox_recv a0 a1)
    else if syscall_id == 536
    then some (set_loop_state (a0 % u32_mod))
    else if syscall_id == 537
    then some (file_attr_del a0 a1 a2 a3)
    else if syscall_id == 538
    then some (file_attr_set a0 a1 a2 a3)
    else if syscall_id == 539
    then some (set_priority a0)
    else if syscall_id == 540
    then some (file_attr_bench a0 a1 a2)
    else none
