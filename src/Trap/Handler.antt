-- ===== src/Trap/Handler.antt =====
-- os/src/trap/mod.rs and context.rs: `trap_handler` on the kernel, and the trap context at a system call. The
-- system call itself is `Call`, and the processes that `snapshot_all_processes` returns are an argument.
mod Tests
use Prim.Native.Nat.{◌%◌, ◌-◌}
use mathlib.Core.Path.{subst}
use os_agent.Base.{
  ℕ, zero, suc, ◌+◌, ◌≡◌, ◌∙◌, sym, refl, ap, Bool, true, false, Bool-cases, Option-cases, inl, inr,
  ◌⊎◌, ◌&&◌, Option, none, some, List, [], ◌∷◌, ◌==◌, if◌then◌else◌, arith, u32_mod, u64_mod,
}
use os_agent.Base.Results.{ISize, pos, negsuc}
use os_agent.Task.{
  Task, TaskStatus, ready, running, zombie, blocked, Kernel, suspend_current, add_task,
  tick_wake_timeouts, exit_current, ExitResult, exited, panicked, halted, idle_pid, bury,
  update_task,
}
use os_agent.Task.Invariant.{
  IsValid, IsPlaced, runs, one_if_running, Leaves, suspend_current-IsValid, LeavesExit,
  exit_current-IsValid,
}
use os_agent.Task.Timeouts.{due, tick-IsTicked}
use os_agent.Task.Exit.{exit_current-IsOrphaned}
use os_agent.Task.Wakes.{tick-IsValid}
use os_agent.Events.{is_listed, tick_all_agents}
use os_agent.Events.Visit.{changed, passes_test, is_blocked}
use os_agent.Events.Beat.{must_beat, after_beat, after_beat_settles, tick_all_agents-IsVisited}
use os_agent.Trap.{Call, syscall}
use os_agent.User.{Regs, set_reg, as_usize}

pub record TrapContext : Type 0 where
  pub x : Regs
  pub sepc : ℕ
  pub kernel_satp : ℕ
  pub kernel_sp : ℕ
  pub trap_handler : ℕ

unfoldable pub app_init_context : ℕ → ℕ → ℕ → ℕ → ℕ → TrapContext
app_init_context entry sp kernel_satp kernel_sp trap_handler = record {
  x = set_reg (λ r. 0) 2 sp;
  sepc = entry;
  kernel_satp = kernel_satp;
  kernel_sp = kernel_sp;
  trap_handler = trap_handler;
}

-- A system call: the next instruction, and what the registers ask for.
unfoldable pub user_env_call : TrapContext → Option (Call × TrapContext)
user_env_call cx = elim (syscall (cx.x 17) (cx.x 10) (cx.x 11) (cx.x 12) (cx.x 13)) [
  | none ↦ none
  | some c ↦ some (c, record cx { sepc = (cx.sepc + 4) % u64_mod })
]

-- Its result, in the context that is current then.
unfoldable pub return_from : TrapContext → ISize → TrapContext
return_from cx result = record cx { x = set_reg cx.x 10 (as_usize result) }

-- The arm of a system call. `run` is the call: its result, and the context that is current when it is over,
-- which `exec` has made anew; nothing for `exit`, which does not come back, and for a panic.
unfoldable pub user_env_trap :
    (Call → TrapContext → Option (ISize × TrapContext)) → TrapContext → Option TrapContext
user_env_trap run cx = elim (user_env_call cx) [
  | none ↦ none
  | some (c, cx') ↦ elim (run c cx') [
    | none ↦ none
    | some (result, current) ↦ some (return_from current result)
  ]
]

-- The causes but the system call; `other_trap` stands for all that the kernel does not support.
pub data Cause : Type 0 where
  store_fault store_page_fault instruction_fault instruction_page_fault load_fault load_page_fault :
      Cause
  illegal_instruction supervisor_timer other_trap : Cause

-- The two times are those that the heartbeat and the timeouts read.
unfoldable pub on_timer : Kernel → List ℕ → ℕ → ℕ → Option Kernel
on_timer k all beat_ms now_ms =
    suspend_current (tick_wake_timeouts (tick_all_agents k all beat_ms) now_ms)

abbrev pub preempted : Option Kernel → ExitResult
preempted none = panicked
preempted (some k) = exited k

-- The exit codes -2 and -3 as `i32`.
abbrev pub fault_code : ℕ
fault_code = u32_mod - 2

abbrev pub illegal_code : ℕ
illegal_code = u32_mod - 3

unfoldable pub trap_handler : Kernel → Cause → ℕ → List ℕ → ℕ → ℕ → ExitResult
trap_handler k store_fault initproc all beat_ms now_ms = exit_current k initproc fault_code
trap_handler k store_page_fault initproc all beat_ms now_ms = exit_current k initproc fault_code
trap_handler k instruction_fault initproc all beat_ms now_ms = exit_current k initproc fault_code
trap_handler k instruction_page_fault initproc all beat_ms now_ms =
    exit_current k initproc fault_code
trap_handler k load_fault initproc all beat_ms now_ms = exit_current k initproc fault_code
trap_handler k load_page_fault initproc all beat_ms now_ms = exit_current k initproc fault_code
trap_handler k illegal_instruction initproc all beat_ms now_ms =
    exit_current k initproc illegal_code
trap_handler k supervisor_timer initproc all beat_ms now_ms =
    preempted (on_timer k all beat_ms now_ms)
trap_handler k other_trap initproc all beat_ms now_ms = panicked

running_only : (s : TaskStatus) → one_if_running s ≡ 1 → s ≡ running
running_only running h = refl
running_only ready h = absurd (omega (arith, h))
running_only zombie h = absurd (omega (arith, h))
running_only blocked h = absurd (omega (arith, h))

runs_self :
    (k : Kernel) (p : ℕ) → IsValid k → k.current ≡ some p → (k.tasks p).task_status ≡ running
unfolding IsValid
runs_self k p v c =
    let same : (p == p) ≡ true = ground arith in
    let one : runs k.current p ≡ 1 = rw (c, same) refl in
    running_only (k.tasks p).task_status (sym (v p).on_cpu ∙ one)

self_runs :
    (k : Kernel) (p : ℕ) → IsValid k → (k.tasks p).task_status ≡ running → k.current ≡ some p
unfolding IsValid
self_runs k p v s =
    let one : runs k.current p ≡ 1 = (v p).on_cpu ∙ rw s refl in runs_one k.current one
  where
    runs_one : (c : Option ℕ) → runs c p ≡ 1 → c ≡ some p
    runs_one none h = absurd (omega (arith, h))
    runs_one (some q) h = let e : q ≡ p = ground (arith, h) in ap some e

-- The task `p` that runs when the timer interrupts goes back to the ready queue, and the processor is free.
-- Every listed agent whose heartbeat is due has it, and does not sleep; no sleeper's deadline has passed.
pub record IsPreempted (k : Kernel) (all : List ℕ) (beat_ms now_ms p : ℕ) (k' : Kernel)
    : Type 0 where
  pub valid : IsValid k'
  pub free : k'.current ≡ none
  pub waits : (k'.tasks p).task_status ≡ ready
  pub beats :
      (q : ℕ)
      → (k'.tasks q).agent_ext ≡ (
          if is_listed all q
          then changed
              (must_beat beat_ms)
              (after_beat beat_ms)
              (after_beat_settles beat_ms)
              (k.tasks q).agent_ext
          else (k.tasks q).agent_ext)
  pub awake :
      (q : ℕ)
      → (is_listed all q
          && passes_test
              (must_beat beat_ms)
              (after_beat beat_ms)
              (after_beat_settles beat_ms)
              (k.tasks q).agent_ext
          && is_blocked (k'.tasks q).task_status)
        ≡ false
  pub no_due : (q : ℕ) → due now_ms q k'.blocked_agents ≡ 0

-- The suspension alone.
record IsSuspended (k : Kernel) (p : ℕ) (k' : Kernel) : Type 0 where
  valid : IsValid k'
  free : k'.current ≡ none
  waits : (k'.tasks p).task_status ≡ ready
  ext_eq : (q : ℕ) → (k'.tasks q).agent_ext ≡ (k.tasks q).agent_ext
  status_eq :
      (q : ℕ) → (k'.tasks q).task_status ≡ (if q == p then ready else (k.tasks q).task_status)
  blocked_eq : k'.blocked_agents ≡ k.blocked_agents

suspended :
    (k : Kernel) (p : ℕ)
    → IsValid k
    → k.current ≡ some p
    → (k' : Kernel) × (suspend_current k ≡ some k') × IsSuspended k p k'
unfolding suspend_current add_task
suspended k p v c =
    let same : (p == p) ≡ true = ground arith in
    let k' : Kernel =
      add_task
        (record k {
          tasks = update_task k.tasks p (record (k.tasks p) { task_status = ready });
          current = none;
        })
        p in
    let e : suspend_current k ≡ some k' = rw (c, suspend_current) refl in
    (
      k',
      e,
      record {
        valid = subst (Leaves IsValid) e (suspend_current-IsValid k v);
        free = refl;
        waits = rw same refl;
        ext_eq = λ q. ground arith;
        status_eq = λ q. ground arith;
        blocked_eq = refl;
      },
    )

woken_lem :
    (a : Bool) (s s' : TaskStatus)
    → s' ≡ (if a && is_blocked s then ready else s)
    → a ≡ true
    → is_blocked s' ≡ false
woken_lem true s s' e h = ap is_blocked e ∙ go s
  where
    go : (s : TaskStatus) → is_blocked (if true && is_blocked s then ready else s) ≡ false
    go ready = refl
    go running = refl
    go zombie = refl
    go blocked = refl
woken_lem false s s' e h = cc

-- The heartbeats, then the deadlines.
module _ (k : Kernel) (all : List ℕ) (beat_ms now_ms p : ℕ) (v : IsValid k) where
  abbrev beaten_kernel : Kernel
  beaten_kernel = tick_all_agents k all beat_ms

  abbrev ticked_kernel : Kernel
  ticked_kernel = tick_wake_timeouts beaten_kernel now_ms

  abbrev beats_now : ℕ → Bool
  beats_now q =
      is_listed all q
      && passes_test (must_beat beat_ms) (after_beat beat_ms) (after_beat_settles beat_ms)
          (k.tasks q).agent_ext

  beaten_status :
      (q : ℕ)
      → (beaten_kernel.tasks q).task_status ≡ (
          if beats_now q && is_blocked (k.tasks q).task_status
          then ready
          else (k.tasks q).task_status)
  beaten_status q = (tick_all_agents-IsVisited k all beat_ms q v).status_eq

  beaten_valid : IsValid beaten_kernel
  unfolding IsValid
  beaten_valid q = (tick_all_agents-IsVisited k all beat_ms q v).placed

  ticked_valid : IsValid ticked_kernel
  ticked_valid = tick-IsValid beaten_kernel now_ms beaten_valid

  still_runs : k.current ≡ some p → ticked_kernel.current ≡ some p
  still_runs c =
      let was = runs_self k p v c in
      let still : (beaten_kernel.tasks p).task_status ≡ running =
        (tick_all_agents-IsVisited k all beat_ms p v).status_eq ∙ rw was ground arith in
      (tick-IsTicked beaten_kernel now_ms p).current_eq
      ∙ self_runs beaten_kernel p beaten_valid still

  ticked_ext : (q : ℕ) → (ticked_kernel.tasks q).agent_ext ≡ (beaten_kernel.tasks q).agent_ext
  ticked_ext q = ap (λ t. t.agent_ext) (tick-IsTicked beaten_kernel now_ms q).task_eq ∙ ground arith

  -- The timeouts make no task sleep.
  ticked_status :
      (q : ℕ)
      → is_blocked (beaten_kernel.tasks q).task_status ≡ false
      → is_blocked (ticked_kernel.tasks q).task_status ≡ false
  ticked_status q h =
      ap (λ t. is_blocked t.task_status) (tick-IsTicked beaten_kernel now_ms q).task_eq
      ∙ ground (arith, h)

  pub on_timer-IsPreempted :
      k.current ≡ some p
      → (k' : Kernel) × (on_timer k all beat_ms now_ms ≡ some k')
        × IsPreempted k all beat_ms now_ms p k'
  unfolding on_timer
  on_timer-IsPreempted c =
      let (k', e, s) = suspended ticked_kernel p ticked_valid (still_runs c) in
      (
        k',
        e,
        record {
          valid = s.valid;
          free = s.free;
          waits = s.waits;
          beats =
              λ q. s.ext_eq q ∙ ticked_ext q ∙ (tick_all_agents-IsVisited k all beat_ms q v).ext_eq;
          awake = λ q. elim (Bool-cases (beats_now q)) [
            | inr not_now ↦ rw not_now refl
            | inl now ↦
                let up = ticked_status q (woken_lem (beats_now q) _ _ (beaten_status q) now) in
                let up' : is_blocked (k'.tasks q).task_status ≡ false =
                  ap is_blocked (s.status_eq q) ∙ ground (arith, up) in
                rw (now, up') refl
          ];
          no_due =
              λ q. ap (due now_ms q) s.blocked_eq ∙ (tick-IsTicked beaten_kernel now_ms q).no_due;
        },
      )

-- What the task `p` that was trapped is left as.
pub record IsKilled (p exit_code : ℕ) (k' : Kernel) : Type 0 where
  pub valid : IsValid k'
  pub free : k'.current ≡ none
  pub dead : (k'.tasks p).task_status ≡ zombie
  pub code : (k'.tasks p).exit_code ≡ exit_code

killed :
    (k : Kernel) (p initproc exit_code : ℕ)
    → IsValid k
    → k.current ≡ some p
    → (p == idle_pid) ≡ false
    → (p == initproc) ≡ false
    → (k' : Kernel) × (exit_current k initproc exit_code ≡ exited k') × IsKilled p exit_code k'
killed k p initproc exit_code v c not_idle other =
    let (k', e, free, orphaned) =
      exit_current-IsOrphaned k p initproc exit_code p c not_idle other in
    (
      k',
      e,
      record {
        valid = subst (LeavesExit IsValid) e (exit_current-IsValid k initproc exit_code v);
        free = free;
        dead = orphaned.dead;
        code = orphaned.code_eq;
      },
    )

abbrev pub code_of : Cause → Option ℕ
code_of store_fault = some fault_code
code_of store_page_fault = some fault_code
code_of instruction_fault = some fault_code
code_of instruction_page_fault = some fault_code
code_of load_fault = some fault_code
code_of load_page_fault = some fault_code
code_of illegal_instruction = some illegal_code
code_of supervisor_timer = none
code_of other_trap = none

-- In a valid kernel in which a task runs, neither the idle task nor `initproc`: the timer gives every listed
-- agent its heartbeat that is due, and wakes it, leaves no sleeper whose deadline has passed, and sends the task
-- back to the ready queue. A fault or an illegal instruction makes the task a zombie with the exit code -2 or
-- -3. Both leave a valid kernel with a free processor. Any other trap is a panic.
pub trap_handler-IsHandled :
    (k : Kernel) (cause : Cause) (p initproc : ℕ) (all : List ℕ) (beat_ms now_ms : ℕ)
    → IsValid k
    → k.current ≡ some p
    → (p == idle_pid) ≡ false
    → (p == initproc) ≡ false
    → ((k' : Kernel) × (trap_handler k cause initproc all beat_ms now_ms ≡ exited k')
        × (((cause ≡ supervisor_timer) × IsPreempted k all beat_ms now_ms p k')
            ⊎ ((code : ℕ) × (code_of cause ≡ some code) × IsKilled p code k')))
      ⊎ ((cause ≡ other_trap) × (trap_handler k cause initproc all beat_ms now_ms ≡ panicked))
unfolding trap_handler
trap_handler-IsHandled k store_fault p initproc all beat_ms now_ms v c not_idle other =
    let (k', e, is) = killed k p initproc fault_code v c not_idle other in
    inl (k', e, inr (fault_code, refl, is))
trap_handler-IsHandled k store_page_fault p initproc all beat_ms now_ms v c not_idle other =
    let (k', e, is) = killed k p initproc fault_code v c not_idle other in
    inl (k', e, inr (fault_code, refl, is))
trap_handler-IsHandled k instruction_fault p initproc all beat_ms now_ms v c not_idle other =
    let (k', e, is) = killed k p initproc fault_code v c not_idle other in
    inl (k', e, inr (fault_code, refl, is))
trap_handler-IsHandled k instruction_page_fault p initproc all beat_ms now_ms v c not_idle other =
    let (k', e, is) = killed k p initproc fault_code v c not_idle other in
    inl (k', e, inr (fault_code, refl, is))
trap_handler-IsHandled k load_fault p initproc all beat_ms now_ms v c not_idle other =
    let (k', e, is) = killed k p initproc fault_code v c not_idle other in
    inl (k', e, inr (fault_code, refl, is))
trap_handler-IsHandled k load_page_fault p initproc all beat_ms now_ms v c not_idle other =
    let (k', e, is) = killed k p initproc fault_code v c not_idle other in
    inl (k', e, inr (fault_code, refl, is))
trap_handler-IsHandled k illegal_instruction p initproc all beat_ms now_ms v c not_idle other =
    let (k', e, is) = killed k p initproc illegal_code v c not_idle other in
    inl (k', e, inr (illegal_code, refl, is))
trap_handler-IsHandled k supervisor_timer p initproc all beat_ms now_ms v c not_idle other =
    let (k', e, is) = on_timer-IsPreempted k all beat_ms now_ms p v c in
    inl (k', ap preempted e, inl (refl, is))
trap_handler-IsHandled k other_trap p initproc all beat_ms now_ms v c not_idle other =
    inr (refl, refl)
