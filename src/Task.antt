-- ===== src/Task.antt =====
-- os/src/task (manager.rs, processor.rs, mod.rs) and os/src/agent/blocking.rs: which task runs,
-- which wait for the processor and which sleep. A reference to a task control block is its pid;
-- the block's fields that the scheduler and the agents use stand in a table.
pub mod Fetch
pub mod Timeouts
pub mod Invariant
pub mod Wakes
pub mod Machine
pub mod Exit
mod Tests
use os_agent.Base.{
  ℕ, zero, suc, ◌+◌, ◌≡◌, Bool, true, false, Option, none, some, List, [], ◌∷◌, ◌++◌, length,
  get_elem?, erase_idx, ltb, leb, ◌==◌, if◌then◌else◌,
}
use os_agent.Ext.{AgentExt}

pub data TaskStatus : Type 0 where
  ready running zombie blocked : TaskStatus

-- The fields of `TaskControlBlockInner` that stay out are the address space, the trap context and
-- the open files.
pub record Task : Type 0 where
  pub task_status : TaskStatus
  pub priority : ℕ
  pub parent : Option ℕ
  pub children : List ℕ
  pub exit_code : ℕ
  pub agent_ext : Option AgentExt

pub record BlockedEntry : Type 0 where
  pub task : ℕ
  pub wake_deadline_ms : Option ℕ

-- `TASK_MANAGER.ready_queue`, `BLOCKED_AGENTS`, `PROCESSOR.current` and the table of tasks.
pub record Kernel : Type 0 where
  pub tasks : ℕ → Task
  pub ready_queue : List ℕ
  pub blocked_agents : List BlockedEntry
  pub current : Option ℕ

abbrev pub update_task : (ℕ → Task) → ℕ → Task → ℕ → Task
update_task tasks p t q = if q == p then t else tasks q

abbrev pub set_status : Kernel → ℕ → TaskStatus → Kernel
set_status k p s = record k {
  tasks = update_task k.tasks p (record (k.tasks p) { task_status = s });
}

-- `TaskManager::add`, `add_task`
unfoldable pub add_task : Kernel → ℕ → Kernel
add_task k p = record k { ready_queue = k.ready_queue ++ (p ∷ []) }

-- The loop of `TaskManager::fetch` over the tasks from index `i` on.
unfoldable pub best_of : (ℕ → Task) → List ℕ → ℕ → ℕ → ℕ → ℕ
best_of tasks [] i best_idx best_prio = best_idx
best_of tasks (q ∷ qs) i best_idx best_prio =
    let p = (tasks q).priority in
    let better = ltb best_prio p in
    best_of tasks qs (i + 1) (if better then i else best_idx) (if better then p else best_prio)

-- `TaskManager::fetch`, `fetch_task`
unfoldable pub fetch_from : (ℕ → Task) → List ℕ → Option ℕ × List ℕ
fetch_from tasks [] = (none, [])
fetch_from tasks (q ∷ qs) =
    let best = best_of tasks qs 1 0 (tasks q).priority in
    (get_elem? (q ∷ qs) best, erase_idx (q ∷ qs) best)

-- One round of `run_tasks`: the task that is fetched runs. `__switch` to it is not modelled.
unfoldable pub dispatch : Kernel → Kernel
dispatch k =
    let (next, rest) = fetch_from k.tasks k.ready_queue in
    elim next [
      | none ↦ k
      | some p ↦ record (set_status k p running) { ready_queue = rest; current = some p }
    ]

-- The functions below start with `take_current_task().unwrap()`: `none` is that panic.
unfoldable pub suspend_current : Kernel → Option Kernel
suspend_current k = elim k.current [
  | none ↦ none
  | some p ↦ some (add_task (record (set_status k p ready) { current = none }) p)
]

unfoldable pub block_current_agent : Kernel → Option ℕ → Option Kernel
block_current_agent k deadline = elim k.current [
  | none ↦ none
  | some p ↦
      let k' = set_status k p blocked in
      some (record k' {
        current = none;
        blocked_agents =
            k.blocked_agents ++ (record { task = p; wake_deadline_ms = deadline } ∷ []);
      })
]

unfoldable pub wake_one : Kernel → ℕ → Kernel
wake_one k p = add_task (set_status k p ready) p

-- `Vec::swap_remove`: the last element takes the place of the one that goes.
unfoldable pub to_front : {A : Type 0} → List A → List A
to_front [] = []
to_front (x ∷ []) = x ∷ []
to_front (x ∷ y ∷ xs) = elim (to_front (y ∷ xs)) [ [] ↦ x ∷ [] | z ∷ zs ↦ z ∷ x ∷ zs ]

unfoldable pub swap_remove : {A : Type 0} → List A → ℕ → List A
unfolding to_front
swap_remove [] i = []
swap_remove (x ∷ xs) zero = to_front xs
swap_remove (x ∷ xs) (suc i) = x ∷ swap_remove xs i

-- `position(|e| e.task.getpid() == pid)`
unfoldable pub position : List BlockedEntry → ℕ → Option ℕ
position [] pid = none
position (e ∷ es) pid =
    let later = position es pid in
    if e.task == pid then some 0 else elim later [ none ↦ none | some i ↦ some (suc i) ]

unfoldable pub wake_agent_by_pid : Kernel → ℕ → Kernel × Bool
wake_agent_by_pid k pid = elim (position k.blocked_agents pid) [
  | none ↦ (k, false)
  | some idx ↦ (wake_one (record k { blocked_agents = swap_remove k.blocked_agents idx }) pid, true)
]

unfoldable pub should_wake : ℕ → Option ℕ → Bool
should_wake now_ms none = false
should_wake now_ms (some d) = leb d now_ms

-- The loop of `tick_wake_timeouts`: what stays blocked, and whom to wake. Each round goes on by an
-- index or takes an entry out, so as many rounds as there are entries are enough.
unfoldable pub expire : ℕ → ℕ → List BlockedEntry → ℕ → List ℕ → List BlockedEntry × List ℕ
expire zero now_ms entries i to_wake = (entries, to_wake)
expire (suc fuel) now_ms entries i to_wake = elim (get_elem? entries i) [
  | none ↦ (entries, to_wake)
  | some e ↦
      let wake = should_wake now_ms e.wake_deadline_ms in
      expire fuel now_ms (if wake then swap_remove entries i else entries)
        (if wake then i else i + 1) (if wake then to_wake ++ (e.task ∷ []) else to_wake)
]

unfoldable pub wake_all : Kernel → List ℕ → Kernel
wake_all k [] = k
wake_all k (p ∷ ps) = wake_all (wake_one k p) ps

unfoldable pub tick_wake_timeouts : Kernel → ℕ → Kernel
tick_wake_timeouts k now_ms =
    let (entries, to_wake) = expire (length k.blocked_agents) now_ms k.blocked_agents 0 [] in
    wake_all (record k { blocked_agents = entries }) to_wake

-- A new task enters the table and the ready queue (`fork`, `spawn`, `add_initproc`).
unfoldable pub admit : Kernel → ℕ → Task → Kernel
admit k p t =
    add_task (record k { tasks = update_task k.tasks p (record t { task_status = ready }) }) p

-- The loop of `exit_current_and_run_next` over the children: `initproc` adopts them.
unfoldable pub adopt_one : (ℕ → Task) → ℕ → ℕ → ℕ → Task
adopt_one tasks initproc c =
    let moved = update_task tasks c (record (tasks c) { parent = some initproc }) in
    let init = moved initproc in
    update_task moved initproc (record init { children = init.children ++ (c ∷ []) })

unfoldable pub adopt : (ℕ → Task) → ℕ → List ℕ → ℕ → Task
adopt tasks initproc [] = tasks
adopt tasks initproc (c ∷ cs) = adopt (adopt_one tasks initproc c) initproc cs

-- `panicked` is `unwrap` of no current task, `halted` the shutdown with its failure flag.
pub data ExitResult : Type 0 where
  panicked : ExitResult
  halted : Bool → ExitResult
  exited : Kernel → ExitResult

abbrev pub idle_pid : ℕ
idle_pid = 0

-- The tasks after the exit of `p`, up to the release of the user space.
unfoldable pub bury : (ℕ → Task) → ℕ → ℕ → ℕ → ℕ → Task
bury tasks p initproc exit_code =
    let t = tasks p in
    let dead = update_task tasks p (record t { task_status = zombie; exit_code = exit_code }) in
    let adopted = adopt dead initproc t.children in
    update_task adopted p (record (adopted p) { children = [] })

-- `exit_current_and_run_next`
unfoldable pub exit_current : Kernel → ℕ → ℕ → ExitResult
exit_current k initproc exit_code = elim k.current [
  | none ↦ panicked
  | some p ↦
      if p == idle_pid
      then halted (if exit_code == 0 then false else true)
      else exited (record k { tasks = bury k.tasks p initproc exit_code; current = none })
]

-- `snapshot_all_processes`: breadth first from `initproc`, a round for each task.
unfoldable pub snapshot_from : ℕ → (ℕ → Task) → List ℕ → List ℕ → List ℕ
snapshot_from zero tasks queue out = out
snapshot_from (suc fuel) tasks [] out = out
snapshot_from (suc fuel) tasks (p ∷ queue) out =
    snapshot_from fuel tasks (queue ++ (tasks p).children) (out ++ (p ∷ []))
