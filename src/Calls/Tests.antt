-- ===== src/Calls/Tests.antt =====
-- The system calls at concrete inputs.
use mathlib.Core.Bool.{Bool}
use Prim.Native.Nat.{◌-◌, ◌%◌}
use os_agent.Base.{
  ℕ, List, ◌+◌, ◌≤◌, ◌<◌, ◌≡◌, refl, true, false, none, some, [], ◌∷◌, length, arith, u64_mod,
}
use os_agent.Base.Bytes.{UserMemory, read_user_bytes}
use os_agent.Base.Results.{pos}
use os_agent.Ext.{AgentExt, normal}
use os_agent.Ext
use os_agent.Task.{Task, Kernel, fetch_from, best_of, dispatch, add_task, admit}
use os_agent.Task.Invariant.{IsValid, dispatch-IsValid}
use os_agent.Task.Machine.{boot, no_task, Reached, booted, stepped, admits, Reached-IsValid}
use os_agent.Attr.{new}
use os_agent.Attr.Store.{new-IsConsistent}
use os_agent.Events.{is_listed, deliver_message}
use os_agent.Path.{node_total_size}
use os_agent.Path.Evict
use os_agent.Path.Push.{IsPushed}
use os_agent.Calls.{System, ext_of, sys_context_push, sys_mailbox_recv}
use os_agent.Calls.Utf8.{is_utf8, utf8_run, utf8_step, lead, is_done}
use os_agent.Calls.Agents.{recv-deliver}
use os_agent.Calls.Paths.{IsText, sys_context_push-refines}
use os_agent.Calls.Files.{IsSound}
use os_agent.Calls.Waiting.{IsWaited, triggered, wait_turn, wait_turn-IsWaited}

-- "é" is valid, its first byte alone is not, and neither is an overlong form of "/".
utf8_accent : is_utf8 (0xc3 ∷ 0xa9 ∷ []) ≡ true
unfolding is_utf8 utf8_run utf8_step lead is_done
utf8_accent = refl

utf8_cut : is_utf8 (0xc3 ∷ []) ≡ false
unfolding is_utf8 utf8_run utf8_step lead is_done
utf8_cut = refl

utf8_overlong : is_utf8 (0xc0 ∷ 0xaf ∷ []) ≡ false
unfolding is_utf8 utf8_run utf8_step lead is_done
utf8_overlong = refl

-- One agent, which runs and has a message.
abbrev an_agent : AgentExt
an_agent = record (Ext.new normal 0x8000_0000 65536 128 16384) { mailbox = (5 ∷ 6 ∷ 7 ∷ []) ∷ [] }

abbrev agent_task : Task
agent_task = record no_task { agent_ext = some an_agent }

abbrev waiting_kernel : Kernel
waiting_kernel = admit boot 0 agent_task

waiting-Reached : Reached waiting_kernel
waiting-Reached = stepped boot waiting_kernel booted (admits 0 agent_task refl)

abbrev running_kernel : Kernel
running_kernel = dispatch waiting_kernel

running-IsValid : IsValid running_kernel
unfolding admit add_task
running-IsValid =
    dispatch-IsValid waiting_kernel (Reached-IsValid waiting_kernel waiting-Reached) refl

-- Each address holds its low byte.
abbrev counting : UserMemory
counting x = x % 256

abbrev system : System
system = record { kernel = running_kernel; memories = λ p. counting; store = new }

zero_runs : system.kernel.current ≡ some 0
unfolding dispatch fetch_from best_of admit add_task
zero_runs = refl

zero_is_agent : ext_of system 0 ≡ some an_agent
unfolding dispatch fetch_from best_of admit add_task
zero_is_agent = refl

one_is_none : ext_of system 1 ≡ none
unfolding dispatch fetch_from best_of admit add_task
one_is_none = refl

an_agent-IsValid : Evict.IsValid 0 an_agent
unfolding Ext.new
an_agent-IsValid = omega arith

zero_is_listed : is_listed (0 ∷ []) 0 ≡ true
unfolding is_listed
zero_is_listed = refl

has_room : length an_agent.mailbox < an_agent.mailbox_capacity
unfolding Ext.new
has_room = omega arith

-- The buffer takes two bytes of the message that was there.
recv-deliver_example :
    let (n, s') =
      sys_mailbox_recv
        (record system { kernel = (deliver_message running_kernel (0 ∷ []) 0 (8 ∷ [])).0 })
        0
        4096
        2 in
    (n ≡ pos 2)
    × (read_user_bytes (s'.memories 0) 4096 2 ≡ 5 ∷ 6 ∷ [])
    × (ext_of s' 0 ≡ some (record an_agent { mailbox = (8 ∷ []) ∷ [] }))
recv-deliver_example =
    recv-deliver system (0 ∷ []) 0 (8 ∷ []) an_agent 4096 2 (5 ∷ 6 ∷ 7 ∷ []) ((8 ∷ []) ∷ [])
      running-IsValid zero_is_listed zero_is_agent has_room refl (omega arith)

-- A heartbeat and a message are there, and no events are watched.
abbrev rung : AgentExt
rung = record an_agent { heartbeat_pending = Bool.true }

rung_cause : triggered rung ≡ 3
unfolding triggered Ext.new
rung_cause = refl

wait_turn-IsWaited_example :
    IsWaited system 0 an_agent 100 150 (some 40) (wait_turn system 0 (some 40) 100 (some 140) 150)
wait_turn-IsWaited_example =
    wait_turn-IsWaited system 0 an_agent (some 40) 100 (some 140) 150 running-IsValid zero_runs
      zero_is_agent

seq_fits : an_agent.next_seq + 1 < u64_mod
unfolding Ext.new
seq_fits = omega arith

some_node : 0 < an_agent.path_quota.max_nodes
unfolding Ext.new
some_node = omega arith

node_fits : node_total_size 3 5 ≤ an_agent.path_quota.max_bytes
unfolding node_total_size Ext.new
node_fits = omega arith

sys_context_push-refines_example :
    let (r, s') = sys_context_push system 0 9 4096 3 8192 5 in
    (ext' : AgentExt) × (r ≡ pos (length ext'.path_meta - 1))
    × (ext_of s' 0 ≡ some ext')
    × ((req : List ℕ) × (resp : List ℕ) × IsText counting 4096 3 req
        × IsText counting 8192 5 resp
        × IsPushed 9 an_agent counting req resp ext' (s'.memories 0))
sys_context_push-refines_example =
    sys_context_push-refines system 0 0 9 4096 3 8192 5 an_agent zero_is_agent an_agent-IsValid
      (omega arith) seq_fits some_node node_fits (omega arith) (omega arith)

system-IsSound : IsSound system
unfolding IsSound
system-IsSound = (new-IsConsistent, running-IsValid)
