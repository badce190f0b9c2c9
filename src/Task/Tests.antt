-- ===== src/Task/Tests.antt =====
-- Tests of the task model on a few tasks, and the theorems at concrete inputs.
use os_agent.Base.{ℕ, ◌≤◌, ◌≡◌, refl, none, some, [], ◌∷◌, ◌==◌, if◌then◌else◌}
use os_agent.Task.{
  ready, Task, Kernel, fetch_from, dispatch, tick_wake_timeouts, swap_remove, to_front, expire,
  should_wake, wake_all, wake_one, add_task, admit, best_of,
}
use os_agent.Task.{update_task, exited, exit_current}
use os_agent.Task.Exit.{IsOrphaned, exit_current-IsOrphaned}
use os_agent.Task.Fetch.{IsBest, fetch-IsBest}
use os_agent.Task.Timeouts.{IsTicked, tick-IsTicked}
use os_agent.Task.Invariant.{IsValid}
use os_agent.Task.Machine.{
  admits, Reached, booted, stepped, boot, no_task, Reached-IsValid, dispatch_serves,
}

abbrev of_priority : ℕ → Task
of_priority n = record no_task { priority = n }

-- Tasks 0, 1, 2, … have the priorities 5, 9, 9, 7 and then 0.
abbrev five_tasks : ℕ → Task
five_tasks q =
    of_priority
      (if q == 0 then 5 else if q == 1 then 9 else if q == 2 then 9 else if q == 3 then 7 else 0)

-- The first of the two best is taken.
fetch_takes_first_best : fetch_from five_tasks (0 ∷ 1 ∷ 2 ∷ 3 ∷ []) ≡ (some 1, 0 ∷ 2 ∷ 3 ∷ [])
unfolding fetch_from best_of
fetch_takes_first_best = refl

fetch-IsBest_example :
    (p : ℕ) × ((fetch_from five_tasks (0 ∷ 1 ∷ 2 ∷ 3 ∷ [])).0 ≡ some p)
    × IsBest five_tasks p (0 ∷ 1 ∷ 2 ∷ 3 ∷ []) (fetch_from five_tasks (0 ∷ 1 ∷ 2 ∷ 3 ∷ [])).1
fetch-IsBest_example = fetch-IsBest five_tasks 0 (1 ∷ 2 ∷ 3 ∷ [])

-- Three sleepers, of which the first is late.
abbrev three_sleep : Kernel
three_sleep = record {
  tasks = five_tasks;
  ready_queue = [];
  blocked_agents =
      record { task = 1; wake_deadline_ms = some 40 }
      ∷ record { task = 2; wake_deadline_ms = none }
      ∷ record { task = 3; wake_deadline_ms = some 90 }
      ∷ [];
  current = none;
}

tick_wakes_first : (tick_wake_timeouts three_sleep 50).ready_queue ≡ 1 ∷ []
unfolding tick_wake_timeouts expire should_wake swap_remove to_front wake_all wake_one add_task
tick_wakes_first = refl

tick-IsTicked_example : IsTicked three_sleep 50 (tick_wake_timeouts three_sleep 50) 1
tick-IsTicked_example = tick-IsTicked three_sleep 50 1

-- `initproc` and a second task have entered the ready queue.
abbrev two_ready : Kernel
two_ready = admit (admit boot 0 (of_priority 5)) 1 (of_priority 9)

two_ready-Reached : Reached two_ready
unfolding admit add_task
two_ready-Reached =
    stepped (admit boot 0 (of_priority 5)) two_ready
      (stepped boot (admit boot 0 (of_priority 5)) booted (admits 0 (of_priority 5) refl))
      (admits 1 (of_priority 9) refl)

two_ready_idle : two_ready.current ≡ none
unfolding admit add_task
two_ready_idle = refl

zero_is_ready : (two_ready.tasks 0).task_status ≡ ready
unfolding admit add_task
zero_is_ready = refl

Reached-IsValid_example : IsValid two_ready
Reached-IsValid_example = Reached-IsValid two_ready two_ready-Reached

dispatch_serves_example :
    (b : ℕ) × ((dispatch two_ready).current ≡ some b)
    × ((two_ready.tasks b).task_status ≡ ready)
    × ((two_ready.tasks 0).priority ≤ (two_ready.tasks b).priority)
dispatch_serves_example = dispatch_serves two_ready 0 two_ready-Reached two_ready_idle zero_is_ready

-- Task 3 runs, with the children 1 and 2.
abbrev parent_runs : Kernel
parent_runs = record {
  tasks = update_task five_tasks 3 (record (five_tasks 3) { children = 1 ∷ 2 ∷ [] });
  ready_queue = [];
  blocked_agents = [];
  current = some 3;
}

exit_current-IsOrphaned_example :
    (k' : Kernel) × (exit_current parent_runs 0 7 ≡ exited k')
    × (k'.current ≡ none)
    × IsOrphaned parent_runs.tasks 3 0 7 k'.tasks 2
exit_current-IsOrphaned_example = exit_current-IsOrphaned parent_runs 3 0 7 2 refl refl refl
