-- ===== src/Events/Beat.antt =====
-- `tick_all_agents` and `broadcast_file_event` reach the agents that they are for.
use mathlib.Core.Path.{subst}
use os_agent.Base.{
  ℕ, ◌-◌, ◌≡◌, refl, sym, ◌∙◌, ap, fun_ext, Bool, true, not, ◌&&◌, List, ltb, ◌==◌, arith,
}
use os_agent.Ext.{AgentExt}
use os_agent.Task.{Kernel}
use os_agent.Task.Invariant.{IsValid}
use os_agent.Events.{
  beat_is_due, beaten, visit_all, tick_all_agents, watches_files, notified, broadcast_file_event,
}
use os_agent.Events.Visit.{IsVisited, visit_all-IsVisited}

-- An agent is to be woken if it has an interval and its last heartbeat is at least that long ago.
abbrev pub must_beat : ℕ → AgentExt → Bool
must_beat now_ms e =
    not (e.heartbeat_interval_ms == 0)
    && not (ltb (now_ms - e.heartbeat_last_ms) e.heartbeat_interval_ms)

-- Its heartbeat is then pending, and the interval starts anew.
abbrev pub after_beat : ℕ → AgentExt → AgentExt
after_beat now_ms e = record e { heartbeat_pending = true; heartbeat_last_ms = now_ms }

beat_is_due_lem : (now_ms : ℕ) → beat_is_due now_ms ≡ must_beat now_ms
unfolding beat_is_due
beat_is_due_lem now_ms = fun_ext (λ e. ground arith)

beaten_lem : (now_ms : ℕ) → beaten now_ms ≡ after_beat now_ms
unfolding beaten
beaten_lem now_ms = refl

pub after_beat_settles :
    (now_ms : ℕ) (e : AgentExt)
    → must_beat now_ms e ≡ true
    → must_beat now_ms (after_beat now_ms e) ≡ true
    → after_beat now_ms (after_beat now_ms e) ≡ after_beat now_ms e
after_beat_settles now_ms e h k = refl

pub notified_settles :
    (e : AgentExt)
    → watches_files e ≡ true
    → watches_files (notified e) ≡ true
    → notified (notified e) ≡ notified e
unfolding notified
notified_settles e h k = refl

ticked :
    (k : Kernel) (all : List ℕ) (now_ms : ℕ)
    → tick_all_agents k all now_ms ≡ visit_all (must_beat now_ms) (after_beat now_ms) k all
unfolding tick_all_agents
ticked k all now_ms =
    ap (λ test. visit_all test (beaten now_ms) k all) (beat_is_due_lem now_ms)
    ∙ ap (λ change. visit_all (must_beat now_ms) change k all) (beaten_lem now_ms)

-- In a kernel where every task stands where its status says, the heartbeat tick marks every listed
-- agent whose interval is not 0 and has passed since its last heartbeat as beaten at the present time,
-- makes it ready if it slept, changes the agent and the status of no other task, and every task stands
-- where its status says again.
pub tick_all_agents-IsVisited :
    (k : Kernel) (all : List ℕ) (now_ms q : ℕ)
    → IsValid k
    → IsVisited
        (must_beat now_ms)
        (after_beat now_ms)
        (after_beat_settles now_ms)
        k
        all
        (tick_all_agents k all now_ms)
        q
tick_all_agents-IsVisited k all now_ms q v =
    subst
      (λ k'.
        IsVisited (must_beat now_ms) (after_beat now_ms) (after_beat_settles now_ms) k all k' q)
      (sym (ticked k all now_ms))
      (visit_all-IsVisited (must_beat now_ms) (after_beat now_ms) (after_beat_settles now_ms) k all
        q v)

-- In a kernel where every task stands where its status says, a file event is marked at every listed
-- agent that watches file events, makes it ready if it slept, changes the agent and the status of no
-- other task, and every task stands where its status says again.
pub broadcast_file_event-IsVisited :
    (k : Kernel) (all : List ℕ) (q : ℕ)
    → IsValid k
    → IsVisited watches_files notified notified_settles k all (broadcast_file_event k all) q
unfolding broadcast_file_event
broadcast_file_event-IsVisited k all q v =
    visit_all-IsVisited watches_files notified notified_settles k all q v
