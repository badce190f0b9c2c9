-- ===== src/Alloc.antt =====
-- os/src/task/pid.rs and os/src/mm/frame_allocator.rs: the allocators of pids and of physical frames.
-- Both count up and keep what is given back on a stack; a `Vec` has its top at the end.
pub mod Live
mod Tests
use os_agent.Base.{
  ℕ, ◌+◌, ◌-◌, ◌*◌, Bool, true, false, ◌||◌, Option, none, some, List, [], ◌∷◌, ◌++◌, leb, ltb,
  ◌==◌, if◌then◌else◌,
}

-- `Vec::pop`
unfoldable pub pop : List ℕ → Option (ℕ × List ℕ)
pop [] = none
pop (x ∷ xs) = elim (pop xs) [ none ↦ some (x, []) | some (y, ys) ↦ some (y, x ∷ ys) ]

-- `recycled.iter().any(|v| v == p)`
unfoldable pub recycles : List ℕ → ℕ → Bool
recycles [] p = false
recycles (q ∷ qs) p = (q == p) || recycles qs p

pub record PidAllocator : Type 0 where
  pub current : ℕ
  pub recycled : List ℕ

abbrev pub new_pids : PidAllocator
new_pids = record { current = 0; recycled = [] }

unfoldable pub pid_alloc : PidAllocator → ℕ × PidAllocator
pid_alloc a = elim (pop a.recycled) [
  | some (pid, rest) ↦ (pid, record a { recycled = rest })
  | none ↦ (a.current, record a { current = a.current + 1 })
]

-- `none` stands for the panic of the two assertions.
unfoldable pub pid_dealloc : PidAllocator → ℕ → Option PidAllocator
pid_dealloc a pid =
    if leb a.current pid
    then none
    else if recycles a.recycled pid
    then none
    else some (record a { recycled = a.recycled ++ (pid ∷ []) })

abbrev pub trampoline : ℕ
trampoline = 0xffff_ffff_ffff_f000

abbrev pub page_size : ℕ
page_size = 0x1000

abbrev pub kernel_stack_size : ℕ
kernel_stack_size = 4096 * 2

-- The bottom and the top of the kernel stack of a pid.
abbrev pub kernel_stack_position : ℕ → ℕ × ℕ
kernel_stack_position app_id =
    let top = trampoline - app_id * (kernel_stack_size + page_size) in
    (top - kernel_stack_size, top)

pub record StackFrameAllocator : Type 0 where
  pub current : ℕ
  pub end : ℕ
  pub recycled : List ℕ

-- `init`
abbrev pub init_frames : ℕ → ℕ → StackFrameAllocator
init_frames l r = record { current = l; end = r; recycled = [] }

unfoldable pub frame_alloc : StackFrameAllocator → Option (ℕ × StackFrameAllocator)
frame_alloc a = elim (pop a.recycled) [
  | some (ppn, rest) ↦ some (ppn, record a { recycled = rest })
  | none ↦
      if a.current == a.end then none else some (a.current, record a { current = a.current + 1 })
]

unfoldable pub frame_dealloc : StackFrameAllocator → ℕ → Option StackFrameAllocator
frame_dealloc a ppn =
    if leb a.current ppn || recycles a.recycled ppn
    then none
    else some (record a { recycled = a.recycled ++ (ppn ∷ []) })
