-- ===== src/Control/Forked.antt =====
-- What `sys_fork` makes: a task with a pid of its own that returns 0 and is ready.
use os_agent.Base.{ℕ, ◌+◌, ◌*◌, ◌≡◌, ◌≢◌, none, some, [], ◌∷◌, ◌++◌}
use os_agent.Alloc.{kernel_stack_position}
use os_agent.Alloc.Live as Pids
use os_agent.Space.Build.{Space}
use os_agent.Task.{ready}
use os_agent.Task.Invariant.{IsValid}
use os_agent.Control.{Machine}

-- The machine `m'` after a fork of task `me` in `m` made task `pid`.
pub record IsForked (m : Machine) (me pid : ℕ) (m' : Machine) : Type 0 where
  pub taken : Pids.IsTaken m.pids.current m.pids.recycled pid m'.pids.current m'.pids.recycled
  pub valid : IsValid m'.kernel
  pub queue_eq : m'.kernel.ready_queue ≡ m.kernel.ready_queue ++ (pid ∷ [])
  pub child_eq : m'.kernel.tasks pid ≡ record {
    task_status = ready;
    priority = (m.kernel.tasks me).priority;
    parent = some me;
    children = [];
    exit_code = 0;
    agent_ext = none;
  }
  pub parent_eq :
      m'.kernel.tasks me
      ≡ record (m.kernel.tasks me) { children = (m.kernel.tasks me).children ++ (pid ∷ []) }
  pub fds_eq : (m'.blocks pid).fd_table ≡ (m.blocks me).fd_table
  pub result_0 : m'.ram.words ((m'.blocks pid).trap_cx_ppn * 512 + 10) ≡ 0
  pub own_stack :
      m'.ram.words ((m'.blocks pid).trap_cx_ppn * 512 + 35) ≡ (kernel_stack_position pid).1
  pub others :
      (q : ℕ)
      → q ≢ pid
      → (m'.blocks q ≡ m.blocks q) × ((q ≢ me) → m'.kernel.tasks q ≡ m.kernel.tasks q)
