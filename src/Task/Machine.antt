-- ===== src/Task/Machine.antt =====
-- The life of the tasks as steps of the kernel, and what holds in every state that they reach.
use mathlib.Core.Path.{subst}
use os_agent.Base.{
  ℕ, ◌≤◌, ◌<◌, ◌≡◌, refl, ap, sym, ◌∙◌, inl, inr, Bool-cases, Option, none, some, List, [], ◌∷◌,
  ◌++◌, ◌==◌, arith,
}
use os_agent.Task.{
  TaskStatus, ready, running, blocked, zombie, Task, Kernel, fetch_from, dispatch, suspend_current,
  block_current_agent, wake_agent_by_pid, tick_wake_timeouts, admit, exited, exit_current,
}
use os_agent.Task.Fetch.{All, All-append, All-map, IsBest, fetch-IsBest}
use os_agent.Task.Timeouts.{queued, queued-append}
use os_agent.Task.Invariant.{
  IsValid, one_if_ready, dispatch-IsValid, suspend_current-IsValid, block_current_agent-IsValid,
  admit-IsValid, exit_current-IsValid, Leaves, LeavesExit,
}
use os_agent.Task.Wakes.{wake_agent_by_pid-IsValid, tick-IsValid}

-- What the kernel does to its tasks: the idle flow, the system calls and the timer.
pub data Step (k : Kernel) : Kernel → Type 0 where
  dispatches : k.current ≡ none → Step k (dispatch k)
  suspends : (k' : Kernel) → suspend_current k ≡ some k' → Step k k'
  blocks :
      (deadline : Option ℕ) (k' : Kernel) → block_current_agent k deadline ≡ some k' → Step k k'
  wakes : (pid : ℕ) → Step k (wake_agent_by_pid k pid).0
  ticks : (now_ms : ℕ) → Step k (tick_wake_timeouts k now_ms)
  admits : (p : ℕ) (t : Task) → (k.tasks p).task_status ≡ zombie → Step k (admit k p t)
  exits :
      (initproc exit_code : ℕ) (k' : Kernel)
      → exit_current k initproc exit_code ≡ exited k'
      → Step k k'

-- No task is there before `add_initproc`; a free pid counts as a zombie.
abbrev pub no_task : Task
no_task = record {
  task_status = zombie;
  priority = 0;
  parent = none;
  children = [];
  exit_code = 0;
  agent_ext = none;
}

abbrev pub boot : Kernel
boot = record { tasks = λ p. no_task; ready_queue = []; blocked_agents = []; current = none }

pub data Reached : Kernel → Type 0 where
  booted : Reached boot
  stepped : (k k' : Kernel) → Reached k → Step k k' → Reached k'

Step-IsValid : (k k' : Kernel) → IsValid k → Step k k' → IsValid k'
Step-IsValid k _ v (dispatches idle) = dispatch-IsValid k v idle
Step-IsValid k _ v (suspends k' e) = subst (Leaves IsValid) e (suspend_current-IsValid k v)
Step-IsValid k _ v (blocks deadline k' e) =
    subst (Leaves IsValid) e (block_current_agent-IsValid k deadline v)
Step-IsValid k _ v (wakes pid) = wake_agent_by_pid-IsValid k pid v
Step-IsValid k _ v (ticks now_ms) = tick-IsValid k now_ms v
Step-IsValid k _ v (admits p t z) = admit-IsValid k p t v z
Step-IsValid k _ v (exits initproc exit_code k' e) =
    subst (LeavesExit IsValid) e (exit_current-IsValid k initproc exit_code v)

-- In every state that is reached, a task stands once where its status says and nowhere else: a ready
-- task in the ready queue, a blocked one among the blocked agents, a running one on the processor.
pub Reached-IsValid : (k : Kernel) → Reached k → IsValid k
unfolding IsValid
Reached-IsValid _ booted p = record { on_queue = refl; asleep = refl; on_cpu = refl }
Reached-IsValid k (stepped j _ r s) p = Step-IsValid j k (Reached-IsValid j r) s p

module _ (tasks : ℕ → Task) (b p : ℕ) where
  abbrev prio : ℕ → ℕ
  prio q = (tasks q).priority

  no_higher_than : (l : List ℕ) → All (λ q. prio q ≤ prio b) l → 0 < queued l p → prio p ≤ prio b
  no_higher_than [] a h = absurd (omega (arith, h))
  no_higher_than (q ∷ l) a h = elim (Bool-cases (q == p)) [
    | inl e ↦ same (ground (arith, e))
    | inr e ↦ no_higher_than l a.1 (ground (arith, h, e))
  ]
    where
      same : q ≡ p → prio p ≤ prio b
      same e = rw (sym e) a.0

  highest : (queue rest : List ℕ) → IsBest tasks b queue rest → 0 < queued queue p → prio p ≤ prio b
  highest queue rest best h =
      no_higher_than queue
        (subst (All (λ q. prio q ≤ prio b)) (sym best.queue_eq) (
          All-append (λ q. prio q ≤ prio b) best.before (b ∷ best.behind)
            (All-map best.before (λ q low. omega (arith, low)) best.lower)
            (omega arith, best.no_higher)))
        h

queued_ready :
    (k : Kernel) (b : ℕ) → IsValid k → 0 < queued k.ready_queue b → (k.tasks b).task_status ≡ ready
unfolding IsValid
queued_ready k b v h = go (k.tasks b).task_status (omega (arith, (v b).on_queue, h))
  where
    go : (s : TaskStatus) → 0 < one_if_ready s → s ≡ ready
    go ready h = refl
    go running h = absurd (omega (arith, h))
    go zombie h = absurd (omega (arith, h))
    go blocked h = absurd (omega (arith, h))

ready_queued :
    (k : Kernel) (p : ℕ) → IsValid k → (k.tasks p).task_status ≡ ready → 0 < queued k.ready_queue p
unfolding IsValid
ready_queued k p v e = omega (arith, (v p).on_queue, ap one_if_ready e)

-- In a state that is reached, with the processor free, a ready task makes the next round run a task
-- that is ready and whose priority is at least that of the task.
pub dispatch_serves :
    (k : Kernel) (p : ℕ)
    → Reached k
    → k.current ≡ none
    → (k.tasks p).task_status ≡ ready
    → (b : ℕ) × ((dispatch k).current ≡ some b)
      × ((k.tasks b).task_status ≡ ready)
      × ((k.tasks p).priority ≤ (k.tasks b).priority)
unfolding dispatch fetch_from
dispatch_serves k p r idle is_ready = go k.ready_queue refl (ready_queued k p v is_ready)
  where
    v : IsValid k
    v = Reached-IsValid k r

    go :
        (l : List ℕ)
        → k.ready_queue ≡ l
        → 0 < queued k.ready_queue p
        → (b : ℕ) × ((dispatch k).current ≡ some b)
          × ((k.tasks b).task_status ≡ ready)
          × ((k.tasks p).priority ≤ (k.tasks b).priority)
    go [] e h = absurd (omega (arith, ap (λ l. queued l p) e, h))
    go (q ∷ l) e h =
        let (b, got, best) = fetch-IsBest k.tasks q l in
        let queue_eq : k.ready_queue ≡ best.before ++ (b ∷ best.behind) = e ∙ best.queue_eq in
        let count_b =
          ap (λ l. queued l b) queue_eq ∙ queued-append best.before (b ∷ best.behind) b in
        (
          b,
          rw (e, dispatch, got) refl,
          queued_ready k b v (ground (arith, count_b)),
          (highest k.tasks b p (q ∷ l) (fetch_from k.tasks (q ∷ l)).1 best
              (omega (arith, ap (λ l. queued l p) e, h))),
        )
