-- ===== src/Control.antt =====
-- os/src/task/task.rs, KernelStack of os/src/task/pid.rs and the calls `sys_fork` and `sys_exec` of
-- os/src/syscall/process.rs: how a task control block is made and changed. The scheduler's fields of a task
-- stand in the Kernel of Task, the others in `blocks`. `none` is a panic.
pub mod Forked
mod Tests
use Prim.Native.Nat.{◌+◌, ◌*◌, ◌/◌, ◌%◌}
use os_agent.Base.{ℕ, Bool, Option, none, some, List, [], ◌∷◌, ◌++◌, ltb, ◌==◌, ◌&&◌, if◌then◌else◌}
use os_agent.Base.Results.{ISize, pos}
use os_agent.Alloc.{PidAllocator, pid_alloc, pid_dealloc, kernel_stack_position}
use os_agent.Addr.{PhysPageNum, into_virt_addr, floor}
use os_agent.Table.{Words, Ram, pte_ppn, flag_r, flag_w, translate, set_word}
use os_agent.Space.{drop_frame, MemorySet}
use os_agent.Space.Build.{
  Space, drop_areas, insert_framed_area, remove_area_with_start_vpn, trap_context,
}
use os_agent.Space.Images.{Elf, Image, from_elf, from_existed_user}
use os_agent.Task.{Task, ready, Kernel, update_task, add_task}
use os_agent.Files.{FdTable, new_fds, copy_fds}
use os_agent.Calls.{default_priority}
use os_agent.Trap.Handler.{TrapContext, app_init_context}

pub record Block : Type 0 where
  pub memory_set : MemorySet
  pub trap_cx_ppn : PhysPageNum
  pub base_size : ℕ
  pub fd_table : FdTable

-- The scheduler, the pids, the memory, the kernel's own space and the blocks.
pub record Machine : Type 0 where
  pub kernel : Kernel
  pub pids : PidAllocator
  pub ram : Ram
  pub kernel_set : MemorySet
  pub blocks : ℕ → Block

-- `translate(TRAP_CONTEXT).unwrap().ppn()`, beside the space.
unfoldable pub with_trap_page : Space → Option (Space × PhysPageNum)
with_trap_page s =
    elim (translate s.ram.words s.set.page_table (floor (into_virt_addr trap_context))) [
      | none ↦ none
      | some pte ↦ some (s, pte_ppn pte)
    ]

-- `KernelStack::new`, in the kernel's space.
unfoldable pub new_kernel_stack : Space → ℕ → Option Space
new_kernel_stack s pid =
    let (bottom, top) = kernel_stack_position pid in
    insert_framed_area s (into_virt_addr bottom) (into_virt_addr top) (flag_r + flag_w)

-- `KernelStack::drop`
unfoldable pub drop_kernel_stack : Space → ℕ → Option Space
drop_kernel_stack s pid =
    let (bottom, top) = kernel_stack_position pid in
    remove_area_with_start_vpn s (floor (into_virt_addr bottom))

-- The words of a trap context in its page: the registers, `sstatus` and the other four fields.
abbrev pub field_of : TrapContext → ℕ → ℕ → ℕ
field_of cx sstatus i =
    if ltb i 32
    then cx.x i
    else if i == 32
    then sstatus
    else if i == 33
    then cx.sepc
    else if i == 34
    then cx.kernel_satp
    else if i == 35
    then cx.kernel_sp
    else cx.trap_handler

abbrev pub store_context : Words → PhysPageNum → TrapContext → ℕ → Words
store_context words ppn cx sstatus =
    λ b. if (b / 512 == ppn) && ltb (b % 512) 37 then field_of cx sstatus (b % 512) else words b

abbrev pub set_field : Ram → PhysPageNum → ℕ → ℕ → Ram
set_field ram ppn i v = record ram { words = set_word ram.words (ppn * 512 + i) v }

-- `TaskControlBlock::new` on the space of an image: `token`, `sstatus` and `handler` are what the kernel's
-- page table, the register and the linker give.
unfoldable pub new_from : Machine → ℕ → ℕ → ℕ → Image → Option (ℕ × Machine)
new_from m token sstatus handler image = elim (with_trap_page image.space) [
  | none ↦ none
  | some (user, ppn) ↦
      let (pid, pids) = pid_alloc m.pids in
      let top = (kernel_stack_position pid).1 in
      let cx = app_init_context image.entry_point image.user_sp token top handler in
      let task : Task = record {
        task_status = ready;
        priority = default_priority;
        parent = none;
        children = [];
        exit_code = 0;
        agent_ext = none;
      } in
      let block : Block = record {
        memory_set = user.set;
        trap_cx_ppn = ppn;
        base_size = image.user_sp;
        fd_table = new_fds;
      } in
      elim (new_kernel_stack (record { set = m.kernel_set; ram = user.ram }) pid) [
        | none ↦ none
        | some stack ↦ some (
          pid,
          record {
            kernel = record m.kernel { tasks = update_task m.kernel.tasks pid task };
            pids = pids;
            ram = record stack.ram { words = store_context stack.ram.words ppn cx sstatus };
            kernel_set = stack.set;
            blocks = λ q. if q == pid then block else m.blocks q;
          },
        )
      ]
]

-- The child's entry in the scheduler's table, and its parent's with one child more.
unfoldable pub forked : Kernel → ℕ → ℕ → Kernel
forked k me pid =
    let parent = k.tasks me in
    let child : Task = record {
      task_status = ready;
      priority = parent.priority;
      parent = some me;
      children = [];
      exit_code = 0;
      agent_ext = none;
    } in
    record k {
      tasks =
          update_task (update_task k.tasks pid child) me
            (record parent { children = parent.children ++ (pid ∷ []) });
    }

-- The copy of the parent's space, then the kernel stack of the new pid.
unfoldable pub fork_spaces : Machine → ℕ → ℕ → Option ((Space × PhysPageNum) × Space)
fork_spaces m strampoline me = elim (from_existed_user m.ram strampoline (m.blocks me).memory_set) [
  | none ↦ none
  | some user ↦ elim (with_trap_page user) [
    | none ↦ none
    | some (user', ppn) ↦
        elim (new_kernel_stack (record { set = m.kernel_set; ram = user'.ram })
          (pid_alloc m.pids).0) [ none ↦ none | some stack ↦ some ((user', ppn), stack) ]
  ]
]

-- The machine with the child, whose trap context has its own kernel stack.
unfoldable pub with_child : Machine → ℕ → Space → PhysPageNum → Space → Machine
with_child m me user ppn stack =
    let (pid, pids) = pid_alloc m.pids in
    let child : Block = record {
      memory_set = user.set;
      trap_cx_ppn = ppn;
      base_size = (m.blocks me).base_size;
      fd_table = copy_fds (m.blocks me).fd_table;
    } in
    record {
      kernel = forked m.kernel me pid;
      pids = pids;
      ram = set_field stack.ram ppn 35 (kernel_stack_position pid).1;
      kernel_set = stack.set;
      blocks = λ q. if q == pid then child else m.blocks q;
    }

unfoldable pub fork : Machine → ℕ → ℕ → Option (ℕ × Machine)
fork m strampoline me = elim (fork_spaces m strampoline me) [
  | none ↦ none
  | some ((user, ppn), stack) ↦ some ((pid_alloc m.pids).0, with_child m me user ppn stack)
]

-- The end of `sys_fork`: the child's result is 0, and it becomes ready.
unfoldable pub started : Machine → ℕ → Machine
started m pid = record m {
  kernel = add_task m.kernel pid;
  ram = set_field m.ram (m.blocks pid).trap_cx_ppn 10 0;
}

unfoldable pub sys_fork : Machine → ℕ → ℕ → Option (ISize × Machine)
sys_fork m strampoline me = elim (fork m strampoline me) [
  | none ↦ none
  | some (pid, m') ↦ some (pos pid, started m' pid)
]

unfoldable pub drop_table : Ram → List PhysPageNum → Option Ram
drop_table ram [] = some ram
drop_table ram (ppn ∷ ppns) = elim (drop_frame ram ppn) [
  | none ↦ none
  | some ram' ↦ drop_table ram' ppns
]

-- The drop of a memory set: its table's frames, then those of its areas.
unfoldable pub drop_set : Ram → MemorySet → Option Ram
drop_set ram set = elim (drop_table ram set.page_table.frames) [
  | none ↦ none
  | some ram' ↦ drop_areas ram' set.areas
]

-- The drop of a control block: its pid, its kernel stack and its memory set go, in this order.
unfoldable pub drop_block : Machine → ℕ → Option Machine
drop_block m pid = elim (pid_dealloc m.pids pid) [
  | none ↦ none
  | some pids ↦ elim (drop_kernel_stack (record { set = m.kernel_set; ram = m.ram }) pid) [
    | none ↦ none
    | some k ↦ elim (drop_set k.ram (m.blocks pid).memory_set) [
      | none ↦ none
      | some ram ↦ some (record m { pids = pids; ram = ram; kernel_set = k.set })
    ]
  ]
]

-- `exec` on the space of the new image: the old one is dropped, and the trap context begins anew. The
-- block's other fields stay, and the scheduler's with the state as an agent.
unfoldable pub exec_image : Machine → ℕ → ℕ → ℕ → ℕ → Image → Option Machine
exec_image m me token sstatus handler image = elim (with_trap_page image.space) [
  | none ↦ none
  | some (user, ppn) ↦ elim (drop_set user.ram (m.blocks me).memory_set) [
    | none ↦ none
    | some ram ↦
        let top = (kernel_stack_position me).1 in
        let cx = app_init_context image.entry_point image.user_sp token top handler in
        some (record m {
          ram = record ram { words = store_context ram.words ppn cx sstatus };
          blocks = λ q.
              if q == me
              then record (m.blocks me) { memory_set = user.set; trap_cx_ppn = ppn }
              else m.blocks q;
        })
  ]
]

unfoldable pub exec : (List ℕ → Option Elf) → Machine → ℕ → ℕ → ℕ → ℕ → ℕ → List ℕ → Option Machine
exec parse m strampoline me token sstatus handler elf_data =
    elim (from_elf parse m.ram strampoline elf_data) [
      | none ↦ none
      | some image ↦ exec_image m me token sstatus handler image
    ]
