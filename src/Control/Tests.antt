-- ===== src/Control/Tests.antt =====
-- A fork of the only task of a small machine.
use os_agent.Base.{ℕ, ◌==◌, Option, none, some, [], if◌then◌else◌}
use os_agent.Alloc.Live as Pids
use os_agent.Task.{Task, running, zombie}
use os_agent.Table.{clear_page}
use os_agent.Addr.{into_virt_addr, floor}
use os_agent.Table.{translate}
use os_agent.Alloc.{kernel_stack_position}
use os_agent.Space.{framed, new_bare}
use os_agent.Space.Build.{Space, begin, push_new, trap_context, insert_framed_area}
use os_agent.Space.Images.{from_existed_user}
use os_agent.Files.{new_fds}
use os_agent.Control.{Machine}

abbrev task : ℕ → Task
task p = record {
  task_status = if p == 0 then running else zombie;
  priority = 16;
  parent = none;
  children = [];
  exit_code = 0;
  agent_ext = none;
}

abbrev or_bare : Option Space → Space
or_bare (some s) = s
or_bare none = record {
  set = record { page_table = record { root_ppn = 0; frames = [] }; areas = [] };
  ram = record { words = λ b. 0; allocator = record { current = 0; end = 0; recycled = [] } };
}

-- A space with the trampoline and the page of the trap context, on an empty memory.
abbrev parent : Space
parent =
    or_bare
      (elim (begin
        (record { words = λ b. 0; allocator = record { current = 1; end = 100; recycled = [] } })
        0x8020_0000) [
          | none ↦ none
          | some s ↦
              push_new s (into_virt_addr trap_context) (into_virt_addr 0xffff_ffff_ffff_f000) framed
                6
        ])

-- The kernel's own space, which has no pages here.
abbrev kernel_space : Space
kernel_space = or_bare (elim (new_bare parent.ram) [
  | none ↦ none
  | some (set, ram) ↦ some (record { set = set; ram = ram })
])

abbrev machine : Machine
machine = record {
  kernel = record { tasks = task; ready_queue = []; blocked_agents = []; current = some 0 };
  pids = record { current = 1; recycled = [] };
  ram = kernel_space.ram;
  kernel_set = kernel_space.set;
  blocks =
      λ q. record { memory_set = parent.set; trap_cx_ppn = 5; base_size = 0; fd_table = new_fds };
}

abbrev user : Space
user = or_bare (from_existed_user machine.ram 0x8020_0000 parent.set)

abbrev stack : Space
stack = or_bare (
    insert_framed_area (record { set = machine.kernel_set; ram = user.ram })
      (into_virt_addr (kernel_stack_position 1).0) (into_virt_addr (kernel_stack_position 1).1) 6)

abbrev or_zero : Option ℕ → ℕ
or_zero none = 0
or_zero (some n) = n

abbrev pte : ℕ
pte = or_zero (translate user.ram.words user.set.page_table (floor (into_virt_addr trap_context)))
