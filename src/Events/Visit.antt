-- ===== src/Events/Visit.antt =====
-- The loop of `tick_all_agents` and `broadcast_file_event` over the processes, and the wake-ups after
-- it.
use os_agent.Base.{
  ℕ, ◌<◌, ◌≡◌, refl, ap, ◌∙◌, inl, inr, Bool, true, false, Bool-cases, Option-cases, ◌&&◌, ◌||◌,
  Option, none, some, List, [], ◌∷◌, ◌++◌, ◌==◌, if◌then◌else◌, arith,
}
use os_agent.Ext.{AgentExt}
use os_agent.Task.{
  Task, TaskStatus, Kernel, ready, running, blocked, zombie, wake_agent_by_pid, wake_one, add_task,
  position,
}
use os_agent.Task.Timeouts.{sum_of-swap_remove}
use os_agent.Task.Invariant.{IsValid, IsPlaced, one_asleep, one_if_blocked}
use os_agent.Task.Wakes.{wake_agent_by_pid-IsValid, position_lem, position-none}
use os_agent.Events.{wake_pids, visit_one, visit_each, visit_all, is_listed}

abbrev pub is_blocked : TaskStatus → Bool
is_blocked ready = false
is_blocked running = false
is_blocked zombie = false
is_blocked blocked = true

awake_lem : (s : TaskStatus) → one_if_blocked s ≡ 0 → is_blocked s ≡ false
awake_lem ready h = refl
awake_lem running h = refl
awake_lem zombie h = refl
awake_lem blocked h = absurd (omega (arith, h))

asleep_lem : (s : TaskStatus) → 0 < one_if_blocked s → is_blocked s ≡ true
asleep_lem ready h = absurd (omega (arith, h))
asleep_lem running h = absurd (omega (arith, h))
asleep_lem zombie h = absurd (omega (arith, h))
asleep_lem blocked h = refl

-- The wake-up of a pid makes it ready if it sleeps, and changes nothing else of the tasks.
pub wake-status :
    (k : Kernel) (pid q : ℕ)
    → IsValid k
    → ((wake_agent_by_pid k pid).0.tasks q).task_status ≡ (
        if (pid == q) && is_blocked (k.tasks q).task_status then ready else (k.tasks q).task_status)
unfolding wake_agent_by_pid IsValid wake_one add_task
wake-status k pid q v = elim (Option-cases (position k.blocked_agents pid)) [
  | inl e ↦
      let none_asleep = position-none k.blocked_agents pid e in
      let awake =
        awake_lem (k.tasks pid).task_status (omega (arith, none_asleep, (v pid).asleep)) in
      rw (e, wake_agent_by_pid) (ground (arith, awake))
  | inr (idx, e) ↦
      let (entry, at, named) = position_lem k.blocked_agents pid idx e in
      let there = sum_of-swap_remove (one_asleep pid) k.blocked_agents idx entry at in
      let one : one_asleep pid entry ≡ 1 = ground (arith, named) in
      let asleep =
        asleep_lem (k.tasks pid).task_status (omega (arith, there, one, (v pid).asleep)) in
      rw (e, wake_agent_by_pid) (ground (arith, asleep))
]

pub wake-ext :
    (k : Kernel) (pid q : ℕ)
    → ((wake_agent_by_pid k pid).0.tasks q).agent_ext ≡ (k.tasks q).agent_ext
unfolding wake_agent_by_pid wake_one add_task
wake-ext k pid q = elim (Option-cases (position k.blocked_agents pid)) [
  | inl e ↦ rw (e, wake_agent_by_pid) refl
  | inr (idx, e) ↦ rw (e, wake_agent_by_pid) (ground arith)
]

-- A run of wake-ups.
wake_pids-status :
    (k : Kernel) (ps : List ℕ) (q : ℕ)
    → IsValid k
    → ((wake_pids k ps).tasks q).task_status ≡ (
        if is_listed ps q && is_blocked (k.tasks q).task_status
        then ready
        else (k.tasks q).task_status)
unfolding wake_pids is_listed
wake_pids-status k [] q v = refl
wake_pids-status k (p ∷ ps) q v = ground (
  arith,
  wake_pids-status (wake_agent_by_pid k p).0 ps q (wake_agent_by_pid-IsValid k p v),
  wake-status k p q v,
)

wake_pids-ext :
    (k : Kernel) (ps : List ℕ) (q : ℕ)
    → ((wake_pids k ps).tasks q).agent_ext ≡ (k.tasks q).agent_ext
unfolding wake_pids
wake_pids-ext k [] q = refl
wake_pids-ext k (p ∷ ps) q = wake_pids-ext (wake_agent_by_pid k p).0 ps q ∙ wake-ext k p q

wake_pids-IsValid : (k : Kernel) (ps : List ℕ) → IsValid k → IsValid (wake_pids k ps)
unfolding wake_pids
wake_pids-IsValid k [] v = v
wake_pids-IsValid k (p ∷ ps) v =
    wake_pids-IsValid (wake_agent_by_pid k p).0 ps (wake_agent_by_pid-IsValid k p v)

is_listed-append :
    (ps qs : List ℕ) (q : ℕ) → is_listed (ps ++ qs) q ≡ (is_listed ps q || is_listed qs q)
unfolding is_listed
is_listed-append [] qs q = refl
is_listed-append (p ∷ ps) qs q = ground (arith, is_listed-append ps qs q)

-- The loop over the processes, for a change that a second visit does not repeat.
module _ (test : AgentExt → Bool) (change : AgentExt → AgentExt)
    (settled : (e : AgentExt)
      → test e ≡ true
      → test (change e) ≡ true
      → change (change e) ≡ change e) where
  abbrev pub passes_test : Option AgentExt → Bool
  passes_test none = false
  passes_test (some e) = test e

  abbrev pub changed : Option AgentExt → Option AgentExt
  changed none = none
  changed (some e) = if test e then some (change e) else some e

  changed_twice : (o : Option AgentExt) → changed (changed o) ≡ changed o
  changed_twice none = refl
  changed_twice (some e) = elim (Bool-cases (test e)) [
    | inr n ↦ rw (n, n)
    | inl y ↦ rw y (elim (Bool-cases (test (change e))) [
      | inr n ↦ rw n
      | inl z ↦ rw z (ap some (settled e y z))
    ])
  ]

  visit_one-ext :
      (tasks : ℕ → Task) (p q : ℕ)
      → ((visit_one test change tasks p).0 q).agent_ext
        ≡ (if p == q then changed (tasks q).agent_ext else (tasks q).agent_ext)
  unfolding visit_one
  visit_one-ext tasks p q = elim (Bool-cases (p == q)) [
    | inr n ↦ rw n (other n)
    | inl y ↦ rw y (same (ground (arith, y)))
  ]
    where
      same : p ≡ q → ((visit_one test change tasks p).0 q).agent_ext ≡ changed (tasks q).agent_ext
      same e = unfold visit_one in ground (arith, e)

      other :
          (p == q) ≡ false → ((visit_one test change tasks p).0 q).agent_ext ≡ (tasks q).agent_ext
      other n = unfold visit_one in ground (arith, n)

  visit_one-status :
      (tasks : ℕ → Task) (p q : ℕ)
      → ((visit_one test change tasks p).0 q).task_status ≡ (tasks q).task_status
  unfolding visit_one
  visit_one-status tasks p q = ground arith

  visit_one-passes :
      (tasks : ℕ → Task) (p : ℕ)
      → (visit_one test change tasks p).1 ≡ passes_test (tasks p).agent_ext
  unfolding visit_one
  visit_one-passes tasks p = ground arith

  visit_each-ext :
      (tasks : ℕ → Task) (ps to_wake : List ℕ) (q : ℕ)
      → ((visit_each test change tasks ps to_wake).0 q).agent_ext
        ≡ (if is_listed ps q then changed (tasks q).agent_ext else (tasks q).agent_ext)
  unfolding visit_each is_listed
  visit_each-ext tasks [] to_wake q = refl
  visit_each-ext tasks (p ∷ ps) to_wake q =
      let (tasks', visited) = visit_one test change tasks p in
      visit_each-ext tasks' ps (if visited then to_wake ++ (p ∷ []) else to_wake) q
      ∙ ground (arith, visit_one-ext tasks p q, changed_twice (tasks q).agent_ext)

  visit_each-status :
      (tasks : ℕ → Task) (ps to_wake : List ℕ) (q : ℕ)
      → ((visit_each test change tasks ps to_wake).0 q).task_status ≡ (tasks q).task_status
  unfolding visit_each
  visit_each-status tasks [] to_wake q = refl
  visit_each-status tasks (p ∷ ps) to_wake q =
      let (tasks', visited) = visit_one test change tasks p in
      visit_each-status tasks' ps (if visited then to_wake ++ (p ∷ []) else to_wake) q
      ∙ visit_one-status tasks p q

  visit_each-wakes :
      (tasks : ℕ → Task) (ps to_wake : List ℕ) (q : ℕ)
      → is_listed (visit_each test change tasks ps to_wake).1 q
        ≡ (is_listed to_wake q || (is_listed ps q && passes_test (tasks q).agent_ext))
  unfolding visit_each is_listed
  visit_each-wakes tasks [] to_wake q = ground arith
  visit_each-wakes tasks (p ∷ ps) to_wake q =
      let (tasks', visited) = visit_one test change tasks p in
      visit_each-wakes tasks' ps (if visited then to_wake ++ (p ∷ []) else to_wake) q
      ∙ ground (
        arith,
        is_listed-append to_wake (p ∷ []) q,
        visit_one-ext tasks p q,
        visit_one-passes tasks p,
      )

  visited : Kernel → List ℕ → Kernel
  visited k all = record k { tasks = (visit_each test change k.tasks all []).0 }

  visited-IsValid : (k : Kernel) (all : List ℕ) → IsValid k → IsValid (visited k all)
  unfolding IsValid visited
  visited-IsValid k all v q =
      let same = visit_each-status k.tasks all [] q in
      record {
        on_queue = rw same (v q).on_queue;
        asleep = rw same (v q).asleep;
        on_cpu = rw same (v q).on_cpu;
      }

  -- A listed agent that passes the test is changed and, if it slept, ready; no other task differs in
  -- its agent or its status.
  pub record IsVisited (k : Kernel) (all : List ℕ) (k' : Kernel) (q : ℕ) : Type 0 where
    pub ext_eq :
        (k'.tasks q).agent_ext
        ≡ (if is_listed all q then changed (k.tasks q).agent_ext else (k.tasks q).agent_ext)
    pub status_eq : (k'.tasks q).task_status ≡ (
        if (is_listed all q && passes_test (k.tasks q).agent_ext)
          && is_blocked (k.tasks q).task_status
        then ready
        else (k.tasks q).task_status)
    pub placed : IsPlaced k' q

  pub visit_all-IsVisited :
      (k : Kernel) (all : List ℕ) (q : ℕ)
      → IsValid k
      → IsVisited k all (visit_all test change k all) q
  unfolding visit_all IsValid visited is_listed
  visit_all-IsVisited k all q v =
      let to_wake = (visit_each test change k.tasks all []).1 in
      let w = visited-IsValid k all v in
      record {
        ext_eq = wake_pids-ext (visited k all) to_wake q ∙ visit_each-ext k.tasks all [] q;
        status_eq = ground (
          arith,
          wake_pids-status (visited k all) to_wake q w,
          visit_each-status k.tasks all [] q,
          visit_each-wakes k.tasks all [] q,
        );
        placed = wake_pids-IsValid (visited k all) to_wake w q;
      }
