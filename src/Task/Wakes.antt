-- ===== src/Task/Wakes.antt =====
-- The wake-ups keep every task where its status says.
use os_agent.Base.{
  ℕ, suc, ◌+◌, ◌≡◌, refl, ap, ◌∙◌, inl, inr, Bool-cases, Option-cases, none, some, List, [], ◌∷◌,
  get_elem?, ◌==◌, ltb, if◌then◌else◌, arith,
}
use os_agent.Task.{
  BlockedEntry, Kernel, ready, add_task, wake_one, swap_remove, position, wake_agent_by_pid,
  tick_wake_timeouts,
}
use os_agent.Task.Timeouts.{queued, queued-append, sum_of-swap_remove, due, later, tick-IsTicked}
use os_agent.Task.Invariant.{one_asleep, sleeps, runs, IsPlaced, IsValid, one_place}

-- A sleeper that is found by its pid.
pub position_lem :
    (es : List BlockedEntry) (pid idx : ℕ)
    → position es pid ≡ some idx
    → (e : BlockedEntry) × (get_elem? es idx ≡ some e) × (e.task ≡ pid)
unfolding position
position_lem [] pid idx h = ground (arith, h)
position_lem (e ∷ es) pid idx h = elim (Bool-cases (e.task == pid)) [
  | inl b ↦ first (ground (arith, h, b))
  | inr b ↦ elim (Option-cases (position es pid)) [
    | inl o ↦ ground (arith, h, b, o)
    | inr (i, o) ↦ second i (position_lem es pid i o) (ground (arith, h, b, o))
  ]
]
  where
    first :
        (idx ≡ 0) × (e.task ≡ pid)
        → (d : BlockedEntry) × (get_elem? (e ∷ es) idx ≡ some d) × (d.task ≡ pid)
    first (z, t) = (e, rw z refl, t)

    second :
        (i : ℕ)
        → (d : BlockedEntry) × (get_elem? es i ≡ some d) × (d.task ≡ pid)
        → idx ≡ suc i
        → (d : BlockedEntry) × (get_elem? (e ∷ es) idx ≡ some d) × (d.task ≡ pid)
    second i o z = rw z o

pub position-none : (es : List BlockedEntry) (pid : ℕ) → position es pid ≡ none → sleeps es pid ≡ 0
unfolding position
position-none [] pid h = refl
position-none (e ∷ es) pid h = elim (Option-cases (position es pid)) [
  | inl o ↦ ground (arith, h, o, position-none es pid o)
  | inr (i, o) ↦ ground (arith, h, o)
]

pub woken :
    (k : Kernel) (pid idx : ℕ)
    → IsValid k
    → position k.blocked_agents pid ≡ some idx
    → (q : ℕ)
    → IsPlaced (wake_one (record k { blocked_agents = swap_remove k.blocked_agents idx }) pid) q
unfolding IsValid wake_one add_task
woken k pid idx v h q =
    let w = v q in
    let (e, at, named) = position_lem k.blocked_agents pid idx h in
    let place = one_place (k.tasks q).task_status in
    let gone = sum_of-swap_remove (one_asleep q) k.blocked_agents idx e at in
    record {
      on_queue = ground (
        arith,
        queued-append k.ready_queue (pid ∷ []) q,
        gone,
        named,
        w.on_queue,
        w.asleep,
        place,
      );
      asleep = ground (arith, gone, named, w.asleep, place);
      on_cpu = ground (arith, gone, named, w.asleep, w.on_cpu, place);
    }

pub wake_agent_by_pid-IsValid :
    (k : Kernel) (pid : ℕ) → IsValid k → IsValid (wake_agent_by_pid k pid).0
unfolding wake_agent_by_pid
wake_agent_by_pid-IsValid k pid v = elim (Option-cases (position k.blocked_agents pid)) [
  | inl e ↦ rw (e, wake_agent_by_pid) v
  | inr (idx, e) ↦ rw (e, wake_agent_by_pid) (unfold IsValid in λ q. woken k pid idx v e q)
]

sleeps_split :
    (now_ms p : ℕ) (es : List BlockedEntry)
    → sleeps es p ≡ due now_ms p es + later now_ms p (one_asleep p) es
sleeps_split now_ms p [] = refl
sleeps_split now_ms p (e ∷ es) = ground (arith, sleeps_split now_ms p es)

pub tick-IsValid : (k : Kernel) (now_ms : ℕ) → IsValid k → IsValid (tick_wake_timeouts k now_ms)
unfolding IsValid
tick-IsValid k now_ms v q =
    let w = v q in
    let t = tick-IsTicked k now_ms q in
    let due_now = due now_ms q k.blocked_agents in
    let k' = tick_wake_timeouts k now_ms in
    let status : (k'.tasks q).task_status
        ≡ (if ltb 0 due_now then ready else (k.tasks q).task_status) =
      ap (λ t. t.task_status) t.task_eq ∙ ground arith in
    let (woken, queue, count) = t.queue_eq in
    let queue' : queued k'.ready_queue q ≡ queued k.ready_queue q + due_now =
      ap (λ ps. queued ps q) queue ∙ omega (arith, queued-append k.ready_queue woken q, count) in
    let place = one_place (k.tasks q).task_status in
    let stay = t.later_eq (one_asleep q) in
    let old = sleeps_split now_ms q k.blocked_agents in
    let new = sleeps_split now_ms q k'.blocked_agents in
    let cpu : runs k'.current q ≡ runs k.current q = ap (λ c. runs c q) t.current_eq in
    record {
      on_queue = rw status (ground (arith, queue', old, w.on_queue, w.asleep, place));
      asleep = rw status (ground (arith, t.no_due, stay, new, old, w.asleep, place));
      on_cpu = rw status (ground (arith, cpu, old, w.on_cpu, w.asleep, place));
    }
