-- ===== src/User/Api.antt =====
-- user/src/lib.rs: what a program gets of its path, of its state as an agent and of its children. The memory
-- is that of the program; `wait` takes the answers of `sys_waitpid` from the system that it runs on.
pub mod Node
pub mod Waits
mod Tests
use Prim.Native.Nat.{◌-◌, ◌%◌}
use os_agent.Base.{
  ℕ, zero, suc, ◌+◌, Bool, true, false, Option, none, some, List, [], ◌∷◌, take, drop, ltb, ◌==◌,
  if◌then◌else◌, u32_mod,
}
use os_agent.Base.Bytes.{UserMemory, read_user_bytes, from_le_bytes}
use os_agent.Base.Results.{ISize, pos, negsuc}
use os_agent.Ext.{PathNodeMeta, context_area_base_va, path_buffer_off}
use os_agent.Path.{node_header_size}

-- The word of 4 bytes at index `i` of a slice.
abbrev pub u32_at : List ℕ → ℕ → ℕ
u32_at bytes i = from_le_bytes (take 4 (drop i bytes))

unfoldable pub read_path_node_zero_copy : UserMemory → PathNodeMeta → Option (List ℕ × List ℕ)
read_path_node_zero_copy mem meta =
    let base = context_area_base_va + path_buffer_off + meta.offset_in_buffer in
    let header = read_user_bytes mem base node_header_size in
    let req_len = u32_at header 16 in
    let resp_len = u32_at header 20 in
    if ltb meta.len node_header_size
    then none
    else some (
      read_user_bytes mem (base + node_header_size) req_len,
      read_user_bytes mem (base + node_header_size + req_len) resp_len,
    )

pub record AgentInfo : Type 0 where
  pub agent_type : ℕ
  pub context_area_size : ℕ
  pub path_node_count : ℕ
  pub loop_state : ℕ

-- The structure that the 16 bytes of `sys_agent_info` are written to.
unfoldable pub info_at : UserMemory → ℕ → AgentInfo
info_at mem info_ptr =
    let bytes = read_user_bytes mem info_ptr 16 in
    record {
      agent_type = u32_at bytes 0;
      context_area_size = u32_at bytes 4;
      path_node_count = u32_at bytes 8;
      loop_state = u32_at bytes 12;
    }

-- The loop of `wait` and of `waitpid`: it asks until the answer is not -2, and yields in between.
module _ {S : Type 0} (ask : S → ISize × S) (yield_now : S → S) where
  unfoldable pub wait : ℕ → S → Option (ISize × S)
  wait zero s = none
  wait (suc fuel) s =
      let (exit_pid, s') = ask s in
      let rest = wait fuel (yield_now s') in
      elim exit_pid [
        | pos pid ↦ some (pos pid, s')
        | negsuc zero ↦ some (negsuc 0, s')
        | negsuc (suc zero) ↦ rest
        | negsuc (suc (suc n)) ↦ some (negsuc (suc (suc n)), s')
      ]

-- `agent_wait`: an error is no event, and the answer is cut to 32 bits.
abbrev pub event_bits : ISize → ℕ
event_bits (pos r) = r % u32_mod
event_bits (negsuc r) = 0
