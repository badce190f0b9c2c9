-- ===== src/Process/Tests.antt =====
-- The task 1 has the children 2 and 3, of which the second is a zombie.
use os_agent.Base.{ℕ, ◌≡◌, refl, Option, none, some, [], ◌∷◌, ◌==◌, if◌then◌else◌}
use os_agent.Base.Results.{ISize, pos, negsuc}
use os_agent.Task.{Task, ready, zombie}
use os_agent.Attr.{new}
use os_agent.Calls.{System}
use os_agent.Process.{
  Waited, sys_waitpid, any_asked, take_zombie, is_asked, IsWaitOf, sys_waitpid-IsWaitedFor,
}

abbrev tasks : ℕ → Task
tasks p = record {
  task_status = if p == 3 then zombie else ready;
  priority = 16;
  parent = none;
  children = if p == 1 then 2 ∷ 3 ∷ [] else [];
  exit_code = 7;
  agent_ext = none;
}

abbrev system : System
system = record {
  kernel = record { tasks = tasks; ready_queue = []; blocked_agents = []; current = none };
  memories = λ p a. 0;
  store = new;
}

abbrev answer : Option Waited → ISize
answer none = negsuc 9
answer (some w) = w.result

waitpid_test : answer (sys_waitpid (λ p. 1) system 1 (negsuc 0) 64) ≡ pos 3
unfolding sys_waitpid any_asked take_zombie is_asked
waitpid_test = refl

sys_waitpid-IsWaitedFor_example :
    IsWaitOf (λ p. 1) system 1 (pos 3) 64 (sys_waitpid (λ p. 1) system 1 (pos 3) 64)
sys_waitpid-IsWaitedFor_example = sys_waitpid-IsWaitedFor (λ p. 1) system 1 (pos 3) 64
