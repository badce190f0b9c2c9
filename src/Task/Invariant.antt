-- ===== src/Task/Invariant.antt =====
-- Where a task stands: the ready queue, the blocked agents and the processor agree with its status, and
-- the scheduling calls keep that.
use os_agent.Base.{
  ℕ, ◌+◌, ◌≤◌, ◌≡◌, refl, ap, sym, ◌∙◌, inl, inr, Bool-cases, Option-cases, Option, none, some,
  List, [], ◌∷◌, ◌++◌, ◌==◌, if◌then◌else◌, arith,
}
use os_agent.Task.{
  TaskStatus, ready, running, blocked, zombie, adopt_one, Task, BlockedEntry, Kernel, update_task,
  set_status, add_task, fetch_from, dispatch, suspend_current, block_current_agent, admit, adopt,
  bury, ExitResult, panicked, halted, exited, exit_current,
}
use os_agent.Task.Fetch.{IsBest, fetch-IsBest}
use os_agent.Task.Timeouts.{queued, queued-append, sum_of, sum_of-append}

abbrev pub one_asleep : ℕ → BlockedEntry → ℕ
one_asleep p e = if e.task == p then 1 else 0

-- How often a task stands among the blocked agents, and on the processor.
abbrev pub sleeps : List BlockedEntry → ℕ → ℕ
sleeps es p = sum_of (one_asleep p) es

abbrev pub runs : Option ℕ → ℕ → ℕ
runs none p = 0
runs (some q) p = if q == p then 1 else 0

abbrev pub one_if_ready : TaskStatus → ℕ
one_if_ready ready = 1
one_if_ready running = 0
one_if_ready zombie = 0
one_if_ready blocked = 0

abbrev pub one_if_blocked : TaskStatus → ℕ
one_if_blocked ready = 0
one_if_blocked running = 0
one_if_blocked zombie = 0
one_if_blocked blocked = 1

abbrev pub one_if_running : TaskStatus → ℕ
one_if_running ready = 0
one_if_running running = 1
one_if_running zombie = 0
one_if_running blocked = 0

-- A task stands once where its status says, and nowhere else.
pub record IsPlaced (k : Kernel) (p : ℕ) : Type 0 where
  pub on_queue : queued k.ready_queue p ≡ one_if_ready (k.tasks p).task_status
  pub asleep : sleeps k.blocked_agents p ≡ one_if_blocked (k.tasks p).task_status
  pub on_cpu : runs k.current p ≡ one_if_running (k.tasks p).task_status

unfoldable pub IsValid : Kernel → Type 0
IsValid k = (p : ℕ) → IsPlaced k p

-- What holds of the state that a call leaves, where it does not panic.
abbrev pub Leaves : (Kernel → Type 0) → Option Kernel → Type 0
Leaves P none = Unit
Leaves P (some k) = P k

pub one_place : (s : TaskStatus) → one_if_running s + one_if_ready s + one_if_blocked s ≤ 1
one_place s = ground arith

-- The task that runs leaves the processor for the ready queue, for the blocked agents or for good.
module _ (k : Kernel) (p : ℕ) (c : k.current ≡ some p) (v : IsValid k) (q : ℕ) where
  runs_eq : runs k.current q ≡ (if p == q then 1 else 0)
  runs_eq = rw c refl

  was : IsPlaced k q
  unfolding IsValid
  was = v q

  place :
      one_if_running (k.tasks q).task_status
        + one_if_ready (k.tasks q).task_status
        + one_if_blocked (k.tasks q).task_status
      ≤ 1
  place = one_place (k.tasks q).task_status

  suspended : IsPlaced (add_task (record (set_status k p ready) { current = none }) p) q
  unfolding add_task
  suspended = record {
    on_queue =
        ground
          (arith, queued-append k.ready_queue (p ∷ []) q, was.on_queue, was.on_cpu, runs_eq, place);
    asleep = ground (arith, was.asleep, was.on_cpu, runs_eq, place);
    on_cpu = ground (arith, was.on_cpu, runs_eq);
  }

  slept :
      (deadline : Option ℕ)
      → IsPlaced
          (record (set_status k p blocked) {
            current = none;
            blocked_agents =
                k.blocked_agents ++ (record { task = p; wake_deadline_ms = deadline } ∷ []);
          })
          q
  slept deadline =
      let e : BlockedEntry = record { task = p; wake_deadline_ms = deadline } in
      record {
        on_queue = ground (arith, was.on_queue, was.on_cpu, runs_eq, place);
        asleep = ground (
          arith,
          sum_of-append (one_asleep q) k.blocked_agents (e ∷ []),
          was.asleep,
          was.on_cpu,
          runs_eq,
          place,
        );
        on_cpu = ground (arith, was.on_cpu, runs_eq);
      }

pub suspend_current-IsValid : (k : Kernel) → IsValid k → Leaves IsValid (suspend_current k)
unfolding suspend_current
suspend_current-IsValid k v = elim (Option-cases k.current) [
  | inl c ↦ rw (c, suspend_current) tt
  | inr (p, c) ↦ rw (c, suspend_current) (unfold IsValid in λ q. suspended k p c v q)
]

pub block_current_agent-IsValid :
    (k : Kernel) (deadline : Option ℕ) → IsValid k → Leaves IsValid (block_current_agent k deadline)
unfolding block_current_agent
block_current_agent-IsValid k deadline v = elim (Option-cases k.current) [
  | inl c ↦ rw (c, block_current_agent) tt
  | inr (p, c) ↦ rw (c, block_current_agent) (unfold IsValid in λ q. slept k p c v q deadline)
]

pub dispatched :
    (k : Kernel) (p : ℕ) (rest : List ℕ)
    → IsValid k
    → k.current ≡ none
    → IsBest k.tasks p k.ready_queue rest
    → (q : ℕ)
    → IsPlaced (record (set_status k p running) { ready_queue = rest; current = some p }) q
unfolding IsValid
dispatched k p rest v c best q =
    let w = v q in
    let idle : runs k.current q ≡ 0 = rw c refl in
    let place = one_place (k.tasks q).task_status in
    let before_eq : queued k.ready_queue q ≡ queued best.before q + queued (p ∷ best.behind) q =
      ap (λ l. queued l q) best.queue_eq ∙ queued-append best.before (p ∷ best.behind) q in
    let after_eq : queued rest q ≡ queued best.before q + queued best.behind q =
      ap (λ l. queued l q) best.rest_eq ∙ queued-append best.before best.behind q in
    record {
      on_queue = ground (arith, before_eq, after_eq, w.on_queue, place);
      asleep = ground (arith, before_eq, w.on_queue, w.asleep, place);
      on_cpu = ground (arith, before_eq, w.on_queue, w.on_cpu, idle, place);
    }

-- The idle flow runs when the processor is free.
pub dispatch-IsValid : (k : Kernel) → IsValid k → k.current ≡ none → IsValid (dispatch k)
unfolding dispatch fetch_from
dispatch-IsValid k v c = go k.ready_queue refl
  where
    go : (l : List ℕ) → k.ready_queue ≡ l → IsValid (dispatch k)
    go [] e = rw (e, dispatch, fetch_from) v
    go (p ∷ l) e =
        let (b, got, best) = fetch-IsBest k.tasks p l in
        rw (e, dispatch, got)
          (unfold IsValid in
            λ q. dispatched k b (fetch_from k.tasks k.ready_queue).1 v c (rw e best) q)

adopt_one_status :
    (tasks : ℕ → Task) (initproc c q : ℕ)
    → (adopt_one tasks initproc c q).task_status ≡ (tasks q).task_status
unfolding adopt_one
adopt_one_status tasks initproc c q = ground arith

adopt_status :
    (tasks : ℕ → Task) (initproc : ℕ) (cs : List ℕ) (q : ℕ)
    → (adopt tasks initproc cs q).task_status ≡ (tasks q).task_status
unfolding adopt
adopt_status tasks initproc [] q = refl
adopt_status tasks initproc (c ∷ cs) q =
    adopt_status (adopt_one tasks initproc c) initproc cs q ∙ adopt_one_status tasks initproc c q

pub admit-IsValid :
    (k : Kernel) (p : ℕ) (t : Task)
    → IsValid k
    → (k.tasks p).task_status ≡ zombie
    → IsValid (admit k p t)
unfolding IsValid admit add_task
admit-IsValid k p t v z q =
    let w = v q in
    let none_at : (p ≡ q) → (k.tasks q).task_status ≡ zombie = λ e. rw (sym e) z in
    record {
      on_queue = ground (arith, queued-append k.ready_queue (p ∷ []) q, w.on_queue, none_at);
      asleep = ground (arith, w.asleep, none_at);
      on_cpu = ground (arith, w.on_cpu, none_at);
    }

pub bury_status :
    (tasks : ℕ → Task) (p initproc exit_code q : ℕ)
    → (bury tasks p initproc exit_code q).task_status
      ≡ (if p == q then zombie else (tasks q).task_status)
unfolding bury
bury_status tasks p initproc exit_code q =
    let t = tasks p in
    let dead = update_task tasks p (record t { task_status = zombie; exit_code = exit_code }) in
    ground (arith, adopt_status dead initproc t.children q, adopt_status dead initproc t.children p)

exited_well :
    (k : Kernel) (p initproc exit_code : ℕ)
    → k.current ≡ some p
    → IsValid k
    → (q : ℕ) → IsPlaced (record k { tasks = bury k.tasks p initproc exit_code; current = none }) q
exited_well k p initproc exit_code c v q =
    let w = was k p c v q in
    let place = one_place (k.tasks q).task_status in
    let r = runs_eq k p c v q in
    let s = bury_status k.tasks p initproc exit_code q in
    record {
      on_queue = rw s (ground (arith, w.on_queue, w.on_cpu, r, place));
      asleep = rw s (ground (arith, w.asleep, w.on_cpu, r, place));
      on_cpu = rw s (ground (arith, w.on_cpu, r, place));
    }

abbrev pub LeavesExit : (Kernel → Type 0) → ExitResult → Type 0
LeavesExit P panicked = Unit
LeavesExit P (halted failure) = Unit
LeavesExit P (exited k) = P k

pub exit_current-IsValid :
    (k : Kernel) (initproc exit_code : ℕ)
    → IsValid k
    → LeavesExit IsValid (exit_current k initproc exit_code)
unfolding exit_current
exit_current-IsValid k initproc exit_code v = elim (Option-cases k.current) [
  | inl c ↦ rw (c, exit_current) tt
  | inr (p, c) ↦ elim (Bool-cases (p == 0)) [
    | inl b ↦ rw (c, exit_current, b) tt
    | inr b ↦
        rw (c, exit_current, b) (unfold IsValid in λ q. exited_well k p initproc exit_code c v q)
  ]
]
