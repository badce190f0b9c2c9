-- ===== src/Process.antt =====
-- os/src/syscall/process.rs: sys_waitpid and sys_getpid, on the System of Calls. `me` is the pid of the
-- task that makes the call.
mod Tests
use Prim.Native.Nat.{◌+◌}
use os_agent.Base.{
  ℕ, zero, suc, ◌≡◌, ◌≢◌, ◌∙◌, sym, refl, ap, Bool, true, false, Bool-cases, inl, inr, ◌⊎◌, ◌&&◌,
  ◌||◌, Option, none, some, List, [], ◌∷◌, ◌++◌, arith, ◌==◌, if◌then◌else◌,
}
use os_agent.Base.Bytes.{read_user_bytes, write_user_bytes, to_le_bytes, read-write_self}
use os_agent.Base.Results.{ISize, pos, negsuc}
use os_agent.Task.{Task, TaskStatus, ready, running, zombie, blocked, Kernel, update_task}
use os_agent.Calls.{System, set_memory}

abbrev pub sys_getpid : System → ℕ → ISize × System
sys_getpid s me = (pos me, s)

abbrev pub is_zombie : Task → Bool
is_zombie t = elim t.task_status [
  | ready ↦ false
  | running ↦ false
  | zombie ↦ true
  | blocked ↦ false
]

-- `pid == -1 || pid as usize == p.getpid()`; another negative pid is none of a task.
unfoldable pub is_asked : ISize → ℕ → Bool
is_asked (pos pid) p = pid == p
is_asked (negsuc zero) p = true
is_asked (negsuc (suc n)) p = false

unfoldable pub any_asked : ISize → List ℕ → Bool
any_asked pid [] = false
any_asked pid (p ∷ ps) = is_asked pid p || any_asked pid ps

-- `find` and `remove`: the child that was found, and the others.
unfoldable pub take_zombie : (ℕ → Task) → ISize → List ℕ → Option (ℕ × List ℕ)
take_zombie tasks pid [] = none
take_zombie tasks pid (p ∷ ps) =
    let rest = take_zombie tasks pid ps in
    if is_zombie (tasks p) && is_asked pid p
    then some (p, ps)
    else elim rest [ none ↦ none | some (q, qs) ↦ some (q, p ∷ qs) ]

-- The child is out of the list, and its exit code stands at the pointer.
abbrev pub reaped : System → ℕ → ℕ → ℕ → List ℕ → System
reaped s me exit_code_ptr child children =
    let tasks = s.kernel.tasks in
    record s {
      kernel = record s.kernel {
        tasks = update_task tasks me (record (tasks me) { children = children });
      };
      memories =
          set_memory s.memories me (
            write_user_bytes (s.memories me) exit_code_ptr (to_le_bytes 4 (tasks child).exit_code));
    }

-- What a wait comes to: the result with the system, and the child whose control block is dropped when the
-- call ends, which is `drop_block` of Control.
pub record Waited : Type 0 where
  pub result : ISize
  pub system : System
  pub dropped : Option ℕ

-- `strong_count` is how many owners a control block has when it is out of the list; `none` is the failed
-- assertion that this is one.
unfoldable pub sys_waitpid : (ℕ → ℕ) → System → ℕ → ISize → ℕ → Option Waited
sys_waitpid strong_count s me pid exit_code_ptr =
    let tasks = s.kernel.tasks in
    let task = tasks me in
    if any_asked pid task.children
    then elim (take_zombie tasks pid task.children) [
      | none ↦ some (record { result = negsuc 1; system = s; dropped = none })
      | some (child, children) ↦
          if strong_count child == 1
          then some (record {
            result = pos child;
            system = reaped s me exit_code_ptr child children;
            dropped = some child;
          })
          else none
    ]
    else some (record { result = negsuc 0; system = s; dropped = none })

-- A wait for -1 means every child, for a pid the task of it.
abbrev pub is_meant : ISize → ℕ → Bool
is_meant (pos n) p = p == n
is_meant (negsuc n) p = n == 0

abbrev pub any_meant : ISize → List ℕ → Bool
any_meant pid [] = false
any_meant pid (p ∷ ps) = is_meant pid p || any_meant pid ps

abbrev pub has_exited : TaskStatus → Bool
has_exited zombie = true
has_exited ready = false
has_exited running = false
has_exited blocked = false

-- Whether a task of the list is meant and has exited.
abbrev pub any_dead : (ℕ → Task) → ISize → List ℕ → Bool
any_dead tasks pid [] = false
any_dead tasks pid (p ∷ ps) =
    (has_exited (tasks p).task_status && is_meant pid p) || any_dead tasks pid ps

is_asked_lem : (pid : ISize) (p : ℕ) → is_asked pid p ≡ is_meant pid p
unfolding is_asked
is_asked_lem (pos n) p = ground arith
is_asked_lem (negsuc zero) p = refl
is_asked_lem (negsuc (suc n)) p = ground arith

any_asked_lem : (pid : ISize) (ps : List ℕ) → any_asked pid ps ≡ any_meant pid ps
unfolding any_asked
any_asked_lem pid [] = refl
any_asked_lem pid (p ∷ ps) = rw (is_asked_lem pid p, any_asked_lem pid ps) refl

is_zombie_lem : (t : Task) → is_zombie t ≡ has_exited t.task_status
is_zombie_lem t = go t.task_status
  where
    go :
        (s : TaskStatus)
        → elim s [ ready ↦ false | running ↦ false | zombie ↦ true | blocked ↦ false ]
          ≡ has_exited s
    go ready = refl
    go running = refl
    go zombie = refl
    go blocked = refl

fits_lem :
    (tasks : ℕ → Task) (pid : ISize) (p : ℕ)
    → (is_zombie (tasks p) && is_asked pid p) ≡ (has_exited (tasks p).task_status && is_meant pid p)
fits_lem tasks pid p = rw (is_zombie_lem (tasks p), is_asked_lem pid p) refl

-- The children are `before`, the child and `behind`; it is the first that is meant and has exited.
pub record IsReaped (tasks : ℕ → Task) (pid : ISize) (ps : List ℕ) (child : ℕ) (children : List ℕ)
    : Type 0 where
  pub before : List ℕ
  pub behind : List ℕ
  pub was : ps ≡ before ++ (child ∷ behind)
  pub are : children ≡ before ++ behind
  pub dead : (has_exited (tasks child).task_status && is_meant pid child) ≡ true
  pub first : any_dead tasks pid before ≡ false

take_zombie_lem :
    (tasks : ℕ → Task) (pid : ISize) (ps : List ℕ)
    → ((child : ℕ) × (children : List ℕ) × (take_zombie tasks pid ps ≡ some (child, children))
        × IsReaped tasks pid ps child children
        × (any_dead tasks pid ps ≡ true))
      ⊎ ((take_zombie tasks pid ps ≡ none) × (any_dead tasks pid ps ≡ false))
unfolding take_zombie
take_zombie_lem tasks pid [] = inr (refl, refl)
take_zombie_lem tasks pid (p ∷ ps) = elim (Bool-cases (is_zombie (tasks p) && is_asked pid p)) [
  | inl here ↦
      let fits = sym (fits_lem tasks pid p) ∙ here in
      inl (
        p,
        ps,
        rw (here, take_zombie) refl,
        record { before = []; behind = ps; was = refl; are = refl; dead = fits; first = refl },
        rw fits refl,
      )
  | inr other ↦
      let differs = sym (fits_lem tasks pid p) ∙ other in
      elim (take_zombie_lem tasks pid ps) [
        | inr (e, no_dead) ↦ inr (rw (other, take_zombie, e) refl, rw (differs, no_dead) refl)
        | inl (child, children, e, is, some_dead) ↦ inl (
          child,
          p ∷ children,
          rw (other, take_zombie, e) refl,
          record {
            before = p ∷ is.before;
            behind = is.behind;
            was = ap (λ xs. p ∷ xs) is.was;
            are = ap (λ xs. p ∷ xs) is.are;
            dead = is.dead;
            first = rw (differs, is.first) refl;
          },
          rw (differs, some_dead) refl,
        )
      ]
]

-- What a wait that reaps `child` leaves: its parent without it, the exit code at the pointer, and all other
-- tasks and queues as they were.
pub record IsWaitedFor (s : System) (me : ℕ) (pid : ISize) (ptr child : ℕ) (s' : System)
    : Type 0 where
  pub reaped :
      IsReaped s.kernel.tasks pid (s.kernel.tasks me).children child (s'.kernel.tasks me).children
  pub code : read_user_bytes (s'.memories me) ptr 4 ≡ to_le_bytes 4 (s.kernel.tasks child).exit_code
  pub others :
      (q : ℕ) → q ≢ me → (s'.kernel.tasks q ≡ s.kernel.tasks q) × (s'.memories q ≡ s.memories q)
  pub queue : s'.kernel.ready_queue ≡ s.kernel.ready_queue

-- What a wait may come to: no child is meant; none that is meant has exited; or the first that has is
-- reaped, where a second owner of its control block is a panic.
abbrev pub IsWaitOf : (ℕ → ℕ) → System → ℕ → ISize → ℕ → Option Waited → Type 0
IsWaitOf strong_count s me pid ptr w =
    let tasks = s.kernel.tasks in
    let ps = (tasks me).children in
    ((any_meant pid ps ≡ false)
      × (w ≡ some (record { result = negsuc 0; system = s; dropped = none })))
    ⊎ ((any_meant pid ps ≡ true)
        × (any_dead tasks pid ps ≡ false)
        × (w ≡ some (record { result = negsuc 1; system = s; dropped = none })))
    ⊎ ((child : ℕ) × (s' : System) × (any_dead tasks pid ps ≡ true)
        × IsWaitedFor s me pid ptr child s'
        × (w ≡ (
            if strong_count child == 1
            then some (record { result = pos child; system = s'; dropped = some child })
            else none)))

reaped-IsWaitedFor :
    (s : System) (me : ℕ) (pid : ISize) (ptr child : ℕ) (children : List ℕ)
    → IsReaped s.kernel.tasks pid (s.kernel.tasks me).children child children
    → IsWaitedFor s me pid ptr child (reaped s me ptr child children)
unfolding to_le_bytes
reaped-IsWaitedFor s me pid ptr child children is =
    let same : (me == me) ≡ true = ground arith in
    record {
      reaped = rw same is;
      code =
          rw same
            (read-write_self (s.memories me) ptr (to_le_bytes 4 (s.kernel.tasks child).exit_code));
      others =
          λ q other. let apart : (q == me) ≡ false = ground (arith, other) in rw apart (refl, refl);
      queue = refl;
    }

-- `sys_waitpid` answers -1 exactly if the caller has no child that is meant, -2 if it has but none of them
-- has exited, and else takes the first that has out of the children, stores its exit code and drops it. It
-- panics exactly if that child's control block has a second owner.
pub sys_waitpid-IsWaitedFor :
    (strong_count : ℕ → ℕ) (s : System) (me : ℕ) (pid : ISize) (ptr : ℕ)
    → IsWaitOf strong_count s me pid ptr (sys_waitpid strong_count s me pid ptr)
unfolding sys_waitpid
sys_waitpid-IsWaitedFor strong_count s me pid ptr =
    let ps = (s.kernel.tasks me).children in
    let meant = any_asked_lem pid ps in
    elim (Bool-cases (any_asked pid ps)) [
      | inr lonely ↦ inl (sym meant ∙ lonely, rw (lonely, sys_waitpid) refl)
      | inl asked ↦ elim (take_zombie_lem s.kernel.tasks pid ps) [
        | inr (e, no_dead) ↦ inr (inl (sym meant ∙ asked, no_dead, rw (asked, sys_waitpid, e) refl))
        | inl (child, children, e, is, some_dead) ↦ inr (
            inr (
              child,
              reaped s me ptr child children,
              some_dead,
              reaped-IsWaitedFor s me pid ptr child children is,
              rw (asked, sys_waitpid, e) refl,
            ))
      ]
    ]
