-- ===== src/Events.antt =====
-- os/src/agent/event_bus.rs: heartbeats, messages and file events for the agents. The list `all` of
-- the functions is what `snapshot_all_processes` returns.
pub mod Visit
pub mod Beat
pub mod Mail
mod Tests
use Prim.Native.Nat.{◌/◌, ◌%◌}
use os_agent.Base.{
  ℕ, ◌-◌, Bool, true, false, not, ◌&&◌, ◌||◌, Option, none, some, List, [], ◌∷◌, ◌++◌, length, drop,
  ltb, leb, ◌==◌, if◌then◌else◌,
}
use os_agent.Ext.{AgentExt}
use os_agent.Task.{Task, Kernel, update_task, wake_agent_by_pid}

abbrev pub event_heartbeat : ℕ
event_heartbeat = 1

abbrev pub event_message : ℕ
event_message = 2

abbrev pub event_file_modified : ℕ
event_file_modified = 4

-- `mask & bit != 0` for a power of two.
abbrev pub has_event : ℕ → ℕ → Bool
has_event mask bit = (mask / bit) % 2 == 1

abbrev pub set_ext : (ℕ → Task) → ℕ → AgentExt → ℕ → Task
set_ext tasks p ext = update_task tasks p (record (tasks p) { agent_ext = some ext })

-- The loops over the processes that are to wake.
unfoldable pub wake_pids : Kernel → List ℕ → Kernel
wake_pids k [] = k
wake_pids k (p ∷ ps) = wake_pids (wake_agent_by_pid k p).0 ps

-- The loop that `tick_all_agents` and `broadcast_file_event` make over the processes: an agent that
-- passes the test is changed, and its pid is kept for the wake-up after the loop.
module _ (test : AgentExt → Bool) (change : AgentExt → AgentExt) where
  unfoldable pub visit_one : (ℕ → Task) → ℕ → (ℕ → Task) × Bool
  visit_one tasks p = elim (tasks p).agent_ext [
    | none ↦ (tasks, false)
    | some ext ↦ if test ext then (set_ext tasks p (change ext), true) else (tasks, false)
  ]

  unfoldable pub visit_each : (ℕ → Task) → List ℕ → List ℕ → (ℕ → Task) × List ℕ
  visit_each tasks [] to_wake_pids = (tasks, to_wake_pids)
  visit_each tasks (p ∷ ps) to_wake_pids =
      let (tasks', visited) = visit_one tasks p in
      visit_each tasks' ps (if visited then to_wake_pids ++ (p ∷ []) else to_wake_pids)

  unfoldable pub visit_all : Kernel → List ℕ → Kernel
  visit_all k all =
      let (tasks, to_wake_pids) = visit_each k.tasks all [] in
      wake_pids (record k { tasks = tasks }) to_wake_pids

-- The test and the update of `tick_all_agents` on one agent.
unfoldable pub beat_is_due : ℕ → AgentExt → Bool
beat_is_due now_ms ext =
    ltb 0 ext.heartbeat_interval_ms
    && leb ext.heartbeat_interval_ms (now_ms - ext.heartbeat_last_ms)

unfoldable pub beaten : ℕ → AgentExt → AgentExt
beaten now_ms ext = record ext { heartbeat_pending = true; heartbeat_last_ms = now_ms }

unfoldable pub tick_all_agents : Kernel → List ℕ → ℕ → Kernel
tick_all_agents k all now_ms = visit_all (beat_is_due now_ms) (beaten now_ms) k all

-- A full mailbox drops its oldest message. `Vec::remove(0)` panics on an empty mailbox, which a
-- capacity above 0 excludes.
unfoldable pub push_message : AgentExt → List ℕ → AgentExt
push_message ext payload =
    let kept =
      if leb ext.mailbox_capacity (length ext.mailbox) then drop 1 ext.mailbox else ext.mailbox in
    record ext { mailbox = kept ++ (payload ∷ []) }

unfoldable pub is_listed : List ℕ → ℕ → Bool
is_listed [] p = false
is_listed (q ∷ qs) p = (q == p) || is_listed qs p

unfoldable pub deliver_message : Kernel → List ℕ → ℕ → List ℕ → Kernel × Bool
deliver_message k all target_pid payload =
    if is_listed all target_pid
    then elim (k.tasks target_pid).agent_ext [
      | none ↦ (k, false)
      | some ext ↦
          let delivered = record k {
            tasks = set_ext k.tasks target_pid (push_message ext payload);
          } in
          ((wake_agent_by_pid delivered target_pid).0, true)
    ]
    else (k, false)

-- The test and the update of `broadcast_file_event` on one agent.
unfoldable pub watches_files : AgentExt → Bool
watches_files ext = has_event ext.watched_events event_file_modified

unfoldable pub notified : AgentExt → AgentExt
notified ext = record ext { file_event_pending = true }

unfoldable pub broadcast_file_event : Kernel → List ℕ → Kernel
broadcast_file_event k all = visit_all watches_files notified k all
