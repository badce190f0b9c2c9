-- ===== src/Trap/Handler/Tests.antt =====
-- A timer interrupt while a task runs.
use os_agent.Base.{ℕ, ◌≡◌, ◌⊎◌, refl, some, [], ◌∷◌}
use os_agent.Task.{
  Kernel, ready, Task, admit, dispatch, fetch_from, best_of, add_task, exited, panicked,
}
use os_agent.Task.Invariant.{IsValid, dispatch-IsValid}
use os_agent.Task.Machine.{no_task, boot, booted, stepped, admits, Reached-IsValid}
use os_agent.Trap.Handler.{
  supervisor_timer, other_trap, trap_handler, code_of, IsPreempted, IsKilled,
  trap_handler-IsHandled,
}

abbrev task : Task
task = record no_task { task_status = ready; priority = 16 }

abbrev waiting : Kernel
waiting = admit boot 5 task

abbrev kernel : Kernel
kernel = dispatch waiting

kernel-IsValid : IsValid kernel
unfolding admit add_task
kernel-IsValid =
    dispatch-IsValid waiting
      (Reached-IsValid waiting (stepped boot waiting booted (admits 5 task refl))) refl

five_runs : kernel.current ≡ some 5
unfolding admit add_task dispatch fetch_from best_of
five_runs = refl

trap_handler-IsHandled_example :
    ((k' : Kernel) × (trap_handler kernel supervisor_timer 1 (5 ∷ []) 100 100 ≡ exited k')
      × (((supervisor_timer ≡ supervisor_timer) × IsPreempted kernel (5 ∷ []) 100 100 5 k')
          ⊎ ((code : ℕ) × (code_of supervisor_timer ≡ some code) × IsKilled 5 code k')))
    ⊎ ((supervisor_timer ≡ other_trap)
        × (trap_handler kernel supervisor_timer 1 (5 ∷ []) 100 100 ≡ panicked))
trap_handler-IsHandled_example =
    trap_handler-IsHandled kernel supervisor_timer 5 1 (5 ∷ []) 100 100 kernel-IsValid five_runs
      refl refl
