-- ===== src/User.antt =====
-- user/src/syscall.rs: the wrappers of the system calls. The result is the registers at the `ecall`; what the
-- wrapper does not set is what it was.
pub mod Asks
pub mod Round
pub mod Api
mod Tests
use Prim.Native.Nat.{◌%◌, ◌-◌}
use os_agent.Base.{ℕ, ◌+◌, ◌*◌, Bool, true, false, ◌==◌, if◌then◌else◌, u64_mod}
use os_agent.Base.Results.{ISize, pos, negsuc}

abbrev pub Regs : Type 0
Regs = ℕ → ℕ

abbrev pub set_reg : Regs → ℕ → ℕ → Regs
set_reg regs r v = λ q. if q == r then v else regs q

-- `syscall`, with three arguments, and `syscall4`
unfoldable pub ecall : Regs → ℕ → ℕ → ℕ → ℕ → Regs
ecall regs id a b c = set_reg (set_reg (set_reg (set_reg regs 10 a) 11 b) 12 c) 17 id

unfoldable pub ecall4 : Regs → ℕ → ℕ → ℕ → ℕ → ℕ → Regs
ecall4 regs id a b c d =
    set_reg (set_reg (set_reg (set_reg (set_reg regs 10 a) 11 b) 12 c) 13 d) 17 id

-- A signed number as a 64-bit word.
abbrev pub as_usize : ISize → ℕ
as_usize (pos n) = n % u64_mod
as_usize (negsuc n) = u64_mod - 1 - n % u64_mod

abbrev pub sys_open : Regs → ℕ → ℕ → Regs
sys_open regs path flags = ecall regs 56 path flags 0

abbrev pub sys_close : Regs → ℕ → Regs
sys_close regs fd = ecall regs 57 fd 0 0

abbrev pub sys_read : Regs → ℕ → ℕ → ℕ → Regs
sys_read regs fd buffer len = ecall regs 63 fd buffer len

abbrev pub sys_write : Regs → ℕ → ℕ → ℕ → Regs
sys_write regs fd buffer len = ecall regs 64 fd buffer len

abbrev pub sys_exit : Regs → ISize → Regs
sys_exit regs exit_code = ecall regs 93 (as_usize exit_code) 0 0

abbrev pub sys_yield : Regs → Regs
sys_yield regs = ecall regs 124 0 0 0

abbrev pub sys_get_time : Regs → Regs
sys_get_time regs = ecall regs 169 0 0 0

abbrev pub sys_getpid : Regs → Regs
sys_getpid regs = ecall regs 172 0 0 0

abbrev pub sys_fork : Regs → Regs
sys_fork regs = ecall regs 220 0 0 0

abbrev pub sys_exec : Regs → ℕ → Regs
sys_exec regs path = ecall regs 221 path 0 0

abbrev pub sys_waitpid : Regs → ISize → ℕ → Regs
sys_waitpid regs pid exit_code = ecall regs 260 (as_usize pid) exit_code 0

abbrev pub sys_agent_create : Regs → ℕ → Regs
sys_agent_create regs cfg_ptr = ecall regs 500 cfg_ptr 0 0

abbrev pub sys_agent_info : Regs → ℕ → ℕ → ℕ → Regs
sys_agent_info regs pid info_ptr info_len = ecall regs 501 pid info_ptr info_len

abbrev pub sys_tool_call : Regs → ℕ → ℕ → ℕ → ℕ → Regs
sys_tool_call regs req_ptr req_len out_offset out_len =
    ecall4 regs 510 req_ptr req_len out_offset out_len

abbrev pub sys_tool_list : Regs → ℕ → ℕ → Regs
sys_tool_list regs buf_ptr buf_len = ecall regs 511 buf_ptr buf_len 0

abbrev pub sys_context_push : Regs → ℕ → ℕ → ℕ → ℕ → Regs
sys_context_push regs req_ptr req_len resp_ptr resp_len =
    ecall4 regs 520 req_ptr req_len resp_ptr resp_len

abbrev pub sys_context_query : Regs → ℕ → ℕ → ℕ → ℕ → Regs
sys_context_query regs start count out_offset out_len =
    ecall4 regs 521 start count out_offset out_len

abbrev pub sys_context_rollback : Regs → ℕ → Regs
sys_context_rollback regs node_idx = ecall regs 522 node_idx 0 0

abbrev pub sys_context_clear : Regs → Regs
sys_context_clear regs = ecall regs 523 0 0 0

abbrev pub sys_agent_heartbeat_set : Regs → ℕ → Regs
sys_agent_heartbeat_set regs interval_ms = ecall regs 530 interval_ms 0 0

abbrev pub sys_agent_heartbeat_stop : Regs → Regs
sys_agent_heartbeat_stop regs = ecall regs 531 0 0 0

abbrev pub sys_agent_watch : Regs → ℕ → Regs
sys_agent_watch regs event_mask = ecall regs 532 event_mask 0 0

abbrev pub sys_agent_wait : Regs → ISize → Regs
sys_agent_wait regs timeout_ms = ecall regs 533 (as_usize timeout_ms) 0 0

abbrev pub sys_agent_unwatch : Regs → ℕ → Regs
sys_agent_unwatch regs event_mask = ecall regs 534 event_mask 0 0

abbrev pub sys_mailbox_recv : Regs → ℕ → ℕ → Regs
sys_mailbox_recv regs buf buf_len = ecall regs 535 buf buf_len 0

abbrev pub sys_agent_set_loop_state : Regs → ℕ → Regs
sys_agent_set_loop_state regs state_code = ecall regs 536 state_code 0 0

abbrev pub sys_file_attr_del : Regs → ℕ → ℕ → ℕ → ℕ → Regs
sys_file_attr_del regs name_ptr name_len tag_ptr tag_len =
    ecall4 regs 537 name_ptr name_len tag_ptr tag_len

abbrev pub sys_file_attr_set : Regs → ℕ → ℕ → ℕ → ℕ → Regs
sys_file_attr_set regs name_ptr name_len tag_ptr tag_len =
    ecall4 regs 538 name_ptr name_len tag_ptr tag_len

abbrev pub sys_agent_set_priority : Regs → ℕ → Regs
sys_agent_set_priority regs priority = ecall regs 539 priority 0 0

abbrev pub sys_file_attr_bench : Regs → ℕ → ℕ → ℕ → Regs
sys_file_attr_bench regs n iters use_index = ecall regs 540 n iters use_index
