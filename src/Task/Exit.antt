-- ===== src/Task/Exit.antt =====
-- `exit_current_and_run_next`: the task that exits is a zombie without children, and `initproc` has
-- adopted them.
use mathlib.Core.List.{append_assoc, append-nil}
use os_agent.Base.{
  ℕ, ◌≡◌, refl, ◌∙◌, false, none, some, List, [], ◌∷◌, ◌++◌, ltb, ◌==◌, if◌then◌else◌, arith,
}
use os_agent.Task.Invariant.{bury_status}
use os_agent.Task.{
  Task, zombie, Kernel, update_task, adopt_one, adopt, bury, idle_pid, exited, exit_current,
}
use os_agent.Task.Timeouts.{queued}

-- The task that exits, as the loop over the children sees it.
abbrev dead_task : (ℕ → Task) → ℕ → ℕ → ℕ → Task
dead_task tasks p exit_code =
    update_task tasks p (record (tasks p) { task_status = zombie; exit_code = exit_code })

adopt_one-parent :
    (tasks : ℕ → Task) (initproc c q : ℕ)
    → (adopt_one tasks initproc c q).parent ≡ (if c == q then some initproc else (tasks q).parent)
unfolding adopt_one
adopt_one-parent tasks initproc c q = ground arith

adopt_one-children :
    (tasks : ℕ → Task) (initproc c q : ℕ)
    → (adopt_one tasks initproc c q).children
      ≡ (if initproc == q then (tasks q).children ++ (c ∷ []) else (tasks q).children)
unfolding adopt_one
adopt_one-children tasks initproc c q = ground arith

adopt_one-exit_code :
    (tasks : ℕ → Task) (initproc c q : ℕ)
    → (adopt_one tasks initproc c q).exit_code ≡ (tasks q).exit_code
unfolding adopt_one
adopt_one-exit_code tasks initproc c q = ground arith

adopt-parent :
    (tasks : ℕ → Task) (initproc : ℕ) (cs : List ℕ) (q : ℕ)
    → (adopt tasks initproc cs q).parent
      ≡ (if ltb 0 (queued cs q) then some initproc else (tasks q).parent)
unfolding adopt
adopt-parent tasks initproc [] q = refl
adopt-parent tasks initproc (c ∷ cs) q =
    adopt-parent (adopt_one tasks initproc c) initproc cs q
    ∙ ground (arith, adopt_one-parent tasks initproc c q)

adopt-children :
    (tasks : ℕ → Task) (initproc : ℕ) (cs : List ℕ) (q : ℕ)
    → (adopt tasks initproc cs q).children
      ≡ (if initproc == q then (tasks q).children ++ cs else (tasks q).children)
unfolding adopt
adopt-children tasks initproc [] q = ground (arith, append-nil (tasks q).children)
adopt-children tasks initproc (c ∷ cs) q =
    adopt-children (adopt_one tasks initproc c) initproc cs q
    ∙ ground
        (arith, adopt_one-children tasks initproc c q, append_assoc (tasks q).children (c ∷ []) cs)

adopt-exit_code :
    (tasks : ℕ → Task) (initproc : ℕ) (cs : List ℕ) (q : ℕ)
    → (adopt tasks initproc cs q).exit_code ≡ (tasks q).exit_code
unfolding adopt
adopt-exit_code tasks initproc [] q = refl
adopt-exit_code tasks initproc (c ∷ cs) q =
    adopt-exit_code (adopt_one tasks initproc c) initproc cs q
    ∙ adopt_one-exit_code tasks initproc c q

-- The family after the exit of `p`, at the task `q`.
pub record IsOrphaned (tasks : ℕ → Task) (p initproc exit_code : ℕ) (tasks' : ℕ → Task) (q : ℕ)
    : Type 0 where
  pub dead : (tasks' p).task_status ≡ zombie
  pub code_eq : (tasks' p).exit_code ≡ exit_code
  pub no_children : (tasks' p).children ≡ []
  pub adopted_eq : (tasks' initproc).children ≡ (tasks initproc).children ++ (tasks p).children
  pub parent_eq :
      (tasks' q).parent
      ≡ (if ltb 0 (queued (tasks p).children q) then some initproc else (tasks q).parent)

bury-IsOrphaned :
    (tasks : ℕ → Task) (p initproc exit_code q : ℕ)
    → (p == initproc) ≡ false
    → IsOrphaned tasks p initproc exit_code (bury tasks p initproc exit_code) q
unfolding bury
bury-IsOrphaned tasks p initproc exit_code q other =
    let dead = dead_task tasks p exit_code in
    let cs = (tasks p).children in
    record {
      dead = bury_status tasks p initproc exit_code p ∙ ground arith;
      code_eq = ground (arith, adopt-exit_code dead initproc cs p);
      no_children = ground arith;
      adopted_eq = ground (arith, adopt-children dead initproc cs initproc, other);
      parent_eq = ground (arith, adopt-parent dead initproc cs q, adopt-parent dead initproc cs p);
    }

-- A task other than the idle process and `initproc` that exits leaves the processor free; it is a zombie, and has its
-- exit code and no children, `initproc` has its children behind its own, and the parent of every one
-- of them is `initproc`, while every other task keeps its parent.
pub exit_current-IsOrphaned :
    (k : Kernel) (p initproc exit_code q : ℕ)
    → k.current ≡ some p
    → (p == idle_pid) ≡ false
    → (p == initproc) ≡ false
    → (k' : Kernel) × (exit_current k initproc exit_code ≡ exited k')
      × (k'.current ≡ none)
      × IsOrphaned k.tasks p initproc exit_code k'.tasks q
unfolding exit_current
exit_current-IsOrphaned k p initproc exit_code q c not_idle other = (
  record k { tasks = bury k.tasks p initproc exit_code; current = none },
  rw (c, exit_current, not_idle) refl,
  refl,
  bury-IsOrphaned k.tasks p initproc exit_code q other,
)
