-- ===== src/Task/Timeouts.antt =====
-- `tick_wake_timeouts` wakes the agents whose deadline has passed, and no other.
use mathlib.Core.List.{append-nil, append_assoc}
use os_agent.Base.{
  ℕ, zero, suc, ◌+◌, ◌≤◌, ◌<◌, ◌≡◌, refl, ap, sym, ◌∙◌, inl, inr, Bool, true, false, not,
  Bool-cases, Option-cases, Option, none, some, List, [], ◌∷◌, ◌++◌, length, get_elem?, take, ltb,
  ◌==◌, if◌then◌else◌, arith,
}
use os_agent.Task.{
  Task, ready, BlockedEntry, Kernel, add_task, to_front, swap_remove, wake_one, should_wake, expire,
  wake_all, tick_wake_timeouts,
}

-- How often a task stands in the ready queue.
abbrev pub queued : List ℕ → ℕ → ℕ
queued [] p = 0
queued (q ∷ qs) p = (if q == p then 1 else 0) + queued qs p

pub queued-append : (qs rs : List ℕ) (p : ℕ) → queued (qs ++ rs) p ≡ queued qs p + queued rs p
queued-append [] rs p = omega arith
queued-append (q ∷ qs) rs p = omega (arith, queued-append qs rs p)

-- A sum over the entries.
module _ (f : BlockedEntry → ℕ) where
  abbrev pub sum_of : List BlockedEntry → ℕ
  sum_of [] = 0
  sum_of (e ∷ es) = f e + sum_of es

  sum_of-to_front : (es : List BlockedEntry) → sum_of (to_front es) ≡ sum_of es
  unfolding to_front
  sum_of-to_front [] = refl
  sum_of-to_front (e ∷ []) = refl
  sum_of-to_front (e ∷ d ∷ es) = go (to_front (d ∷ es)) (sum_of-to_front (d ∷ es))
    where
      go :
          (fs : List BlockedEntry)
          → sum_of fs ≡ sum_of (d ∷ es)
          → sum_of (elim fs [ [] ↦ e ∷ [] | z ∷ zs ↦ z ∷ e ∷ zs ]) ≡ sum_of (e ∷ d ∷ es)
      go [] h = omega (arith, h)
      go (z ∷ zs) h = omega (arith, h)

  pub sum_of-append : (es ds : List BlockedEntry) → sum_of (es ++ ds) ≡ sum_of es + sum_of ds
  sum_of-append [] ds = omega arith
  sum_of-append (e ∷ es) ds = omega (arith, sum_of-append es ds)

  pub sum_of-swap_remove :
      (es : List BlockedEntry) (i : ℕ) (e : BlockedEntry)
      → get_elem? es i ≡ some e
      → sum_of (swap_remove es i) + f e ≡ sum_of es
  unfolding swap_remove
  sum_of-swap_remove [] i e h = ground (arith, h)
  sum_of-swap_remove (x ∷ xs) zero e h = go (some-injective x e h)
    where
      some-injective : (a b : BlockedEntry) → some a ≡ some b → a ≡ b
      some-injective a b q = ground (arith, q)

      go : x ≡ e → sum_of (to_front xs) + f e ≡ f x + sum_of xs
      go q = rw (sym q) (omega (arith, sum_of-to_front xs))
  sum_of-swap_remove (x ∷ xs) (suc i) e h = omega (arith, sum_of-swap_remove xs i e h)

  sum_of-take : (es : List BlockedEntry) (i : ℕ) → length es ≤ i → sum_of (take i es) ≡ sum_of es
  sum_of-take [] zero h = refl
  sum_of-take [] (suc i) h = refl
  sum_of-take (x ∷ xs) zero h = absurd (omega (arith, h))
  sum_of-take (x ∷ xs) (suc i) h = omega (arith, sum_of-take xs i (omega (arith, h)))

  sum_of-take-suc :
      (es : List BlockedEntry) (i : ℕ) (e : BlockedEntry)
      → get_elem? es i ≡ some e
      → sum_of (take (suc i) es) ≡ sum_of (take i es) + f e
  sum_of-take-suc [] i e h = ground (arith, h)
  sum_of-take-suc (x ∷ xs) zero e h = go (some-injective x e h)
    where
      some-injective : (a b : BlockedEntry) → some a ≡ some b → a ≡ b
      some-injective a b q = ground (arith, q)

      go : x ≡ e → f x + 0 ≡ 0 + f e
      go q = rw q (omega arith)
  sum_of-take-suc (x ∷ xs) (suc i) e h = omega (arith, sum_of-take-suc xs i e h)

  sum_of-take-swap_remove :
      (es : List BlockedEntry) (i : ℕ) → sum_of (take i (swap_remove es i)) ≡ sum_of (take i es)
  unfolding swap_remove
  sum_of-take-swap_remove [] i = refl
  sum_of-take-swap_remove (x ∷ xs) zero = refl
  sum_of-take-swap_remove (x ∷ xs) (suc i) = omega (arith, sum_of-take-swap_remove xs i)

length-to_front : (es : List BlockedEntry) → length (to_front es) ≡ length es
unfolding to_front
length-to_front [] = refl
length-to_front (e ∷ []) = refl
length-to_front (e ∷ d ∷ es) = go (to_front (d ∷ es)) (length-to_front (d ∷ es))
  where
    go :
        (fs : List BlockedEntry)
        → length fs ≡ length (d ∷ es)
        → length (elim fs [ [] ↦ e ∷ [] | z ∷ zs ↦ z ∷ e ∷ zs ]) ≡ length (e ∷ d ∷ es)
    go [] h = absurd (omega (arith, h))
    go (z ∷ zs) h = omega (arith, h)

length-swap_remove :
    (es : List BlockedEntry) (i : ℕ) (e : BlockedEntry)
    → get_elem? es i ≡ some e
    → length (swap_remove es i) + 1 ≡ length es
unfolding swap_remove
length-swap_remove [] i e h = ground (arith, h)
length-swap_remove (x ∷ xs) zero e h = omega (arith, length-to_front xs)
length-swap_remove (x ∷ xs) (suc i) e h = omega (arith, length-swap_remove xs i e h)

index_in :
    (es : List BlockedEntry) (i : ℕ) (e : BlockedEntry) → get_elem? es i ≡ some e → i < length es
index_in [] i e h = ground (arith, h)
index_in (x ∷ xs) zero e h = omega arith
index_in (x ∷ xs) (suc i) e h = omega (arith, index_in xs i e h)

index_out : (es : List BlockedEntry) (i : ℕ) → get_elem? es i ≡ none → length es ≤ i
index_out [] i h = omega arith
index_out (x ∷ xs) zero h = ground (arith, h)
index_out (x ∷ xs) (suc i) h = omega (arith, index_out xs i h)

-- A deadline has passed if there is one that is not ahead of the time.
abbrev pub has_passed : ℕ → Option ℕ → Bool
has_passed now_ms none = false
has_passed now_ms (some d) = not (ltb now_ms d)

should_wake_lem : (now_ms : ℕ) (d : Option ℕ) → should_wake now_ms d ≡ has_passed now_ms d
unfolding should_wake
should_wake_lem now_ms none = refl
should_wake_lem now_ms (some d) = ground arith

-- How often a task sleeps with a deadline that has passed, and the sum of `f` over the other sleepers.
module _ (now_ms p : ℕ) where
  abbrev due_one : BlockedEntry → ℕ
  due_one e = if e.task == p then if has_passed now_ms e.wake_deadline_ms then 1 else 0 else 0

  abbrev pub due : List BlockedEntry → ℕ
  due = sum_of due_one

  abbrev later_one : (BlockedEntry → ℕ) → BlockedEntry → ℕ
  later_one f e = if has_passed now_ms e.wake_deadline_ms then 0 else f e

  abbrev pub later : (BlockedEntry → ℕ) → List BlockedEntry → ℕ
  later f = sum_of (later_one f)

  -- What the loop has passed stays asleep; the rest of it is split by the deadlines.
  expire_lem :
      (f : BlockedEntry → ℕ) (fuel : ℕ) (es : List BlockedEntry) (i : ℕ) (to_wake : List ℕ)
      → length es ≤ i + fuel
      → due (take i es) ≡ 0
      → (due (expire fuel now_ms es i to_wake).0 ≡ 0)
        × (later f (expire fuel now_ms es i to_wake).0 ≡ later f es)
        × (queued (expire fuel now_ms es i to_wake).1 p ≡ queued to_wake p + due es)
  unfolding expire
  expire_lem f zero es i to_wake enough passed = (over, refl, omega (arith, over))
    where
      over : due es ≡ 0
      over = omega (arith, sum_of-take due_one es i (omega (arith, enough)), passed)
  expire_lem f (suc fuel) es i to_wake enough passed = elim (Option-cases (get_elem? es i)) [
    | inl e ↦
        let over : due es ≡ 0 =
          omega (arith, sum_of-take due_one es i (index_out es i e), passed) in
        rw (e, expire) (over, refl, omega (arith, over))
    | inr (b, e) ↦ elim (Bool-cases (should_wake now_ms b.wake_deadline_ms)) [
      | inl w ↦
          let passed_b = sym (should_wake_lem now_ms b.wake_deadline_ms) ∙ w in
          let (one, two, three) =
            expire_lem f fuel (swap_remove es i) i (to_wake ++ (b.task ∷ []))
              (omega (arith, length-swap_remove es i b e, enough))
              (omega (arith, sum_of-take-swap_remove due_one es i, passed)) in
          let later_b : later_one f b ≡ 0 = ground (arith, passed_b) in
          let due_b : due_one b ≡ queued (b.task ∷ []) p = ground (arith, passed_b) in
          rw (e, w, expire)
            (
              one,
              omega (arith, two, sum_of-swap_remove (later_one f) es i b e, later_b),
              omega (
                arith,
                three,
                queued-append to_wake (b.task ∷ []) p,
                sum_of-swap_remove due_one es i b e,
                due_b,
              ),
            )
      | inr w ↦
          let passed_b = sym (should_wake_lem now_ms b.wake_deadline_ms) ∙ w in
          let due_b : due_one b ≡ 0 = ground (arith, passed_b) in
          let next : i + 1 ≡ suc i = omega arith in
          let (one, two, three) =
            expire_lem f fuel es (i + 1) to_wake (omega (arith, enough))
              (rw next (omega (arith, sum_of-take-suc due_one es i b e, passed, due_b))) in
          rw (e, w, expire) (one, two, three)
    ]
  ]

  -- Of a task that is woken only the status changes.
  wake_one_task :
      (k : Kernel) (q : ℕ)
      → (wake_one k q).tasks p
        ≡ (if q == p then record (k.tasks p) { task_status = ready } else k.tasks p)
  unfolding wake_one add_task
  wake_one_task k q = elim (Bool-cases (p == q)) [
    | inl here ↦
        let e : q ≡ p = ground (arith, here) in
        let same : p == p ≡ true = ground arith in rw (e, same) refl
    | inr other ↦ let other' : q == p ≡ false = ground (arith, other) in rw (other, other') refl
  ]

  if_both : (b : Bool) (t : Task) → (if b then t else t) ≡ t
  if_both true t = refl
  if_both false t = refl

  wake_all_task :
      (k : Kernel) (ps : List ℕ)
      → (wake_all k ps).tasks p
        ≡ (if ltb 0 (queued ps p) then record (k.tasks p) { task_status = ready } else k.tasks p)
  unfolding wake_all
  wake_all_task k [] = refl
  wake_all_task k (q ∷ ps) =
      let rest = wake_all_task (wake_one k q) ps in
      let one = wake_one_task k q in
      elim (Bool-cases (q == p)) [
        | inl here ↦
            let one' : (wake_one k q).tasks p ≡ record (k.tasks p) { task_status = ready } =
              one ∙ rw here refl in
            let rest' = rw one' at rest in
            let some_due : ltb 0 (queued (q ∷ ps) p) ≡ true = ground (arith, here) in
            rest'
            ∙ if_both (ltb 0 (queued ps p)) _
            ∙ ap (λ b. if b then record (k.tasks p) { task_status = ready } else k.tasks p)
                (sym some_due)
        | inr other ↦
            let one' : (wake_one k q).tasks p ≡ k.tasks p = one ∙ rw other refl in
            let rest' = rw one' at rest in
            let same : ltb 0 (queued ps p) ≡ ltb 0 (queued (q ∷ ps) p) = ground (arith, other) in
            rest'
            ∙ ap (λ b. if b then record (k.tasks p) { task_status = ready } else k.tasks p) same
      ]

  -- The woken go behind the tasks that are ready, in the order of the list.
  wake_all_order : (k : Kernel) (ps : List ℕ) → (wake_all k ps).ready_queue ≡ k.ready_queue ++ ps
  unfolding wake_all wake_one add_task
  wake_all_order k [] = sym (append-nil k.ready_queue)
  wake_all_order k (q ∷ ps) =
      wake_all_order (wake_one k q) ps ∙ append_assoc k.ready_queue (q ∷ []) ps

  wake_all_blocked : (k : Kernel) (ps : List ℕ) → (wake_all k ps).blocked_agents ≡ k.blocked_agents
  unfolding wake_all wake_one add_task
  wake_all_blocked k [] = refl
  wake_all_blocked k (q ∷ ps) = wake_all_blocked (wake_one k q) ps

  wake_all_current : (k : Kernel) (ps : List ℕ) → (wake_all k ps).current ≡ k.current
  unfolding wake_all wake_one add_task
  wake_all_current k [] = refl
  wake_all_current k (q ∷ ps) = wake_all_current (wake_one k q) ps

-- The state after a tick, at the task `p`. The sums over the sleepers that stay are the same for every
-- function of their entries, so they are the same entries.
pub record IsTicked (k : Kernel) (now_ms : ℕ) (k' : Kernel) (p : ℕ) : Type 0 where
  pub no_due : due now_ms p k'.blocked_agents ≡ 0
  pub later_eq :
      (f : BlockedEntry → ℕ)
      → later now_ms p f k'.blocked_agents ≡ later now_ms p f k.blocked_agents
  pub queue_eq :
      (woken : List ℕ) × (k'.ready_queue ≡ k.ready_queue ++ woken)
      × (queued woken p ≡ due now_ms p k.blocked_agents)
  pub task_eq : k'.tasks p ≡ (
      if ltb 0 (due now_ms p k.blocked_agents)
      then record (k.tasks p) { task_status = ready }
      else k.tasks p)
  pub current_eq : k'.current ≡ k.current

-- A tick wakes the sleepers that have a deadline and whose deadline is not after the present time: they
-- go to the end of the ready queue as often as they slept, they are ready, and none of them is left. The
-- other sleepers stay, with their deadlines, and so do the other tasks, the other fields of those that
-- are woken, the order of the ready queue and the processor.
pub tick-IsTicked : (k : Kernel) (now_ms p : ℕ) → IsTicked k now_ms (tick_wake_timeouts k now_ms) p
unfolding tick_wake_timeouts
tick-IsTicked k now_ms p =
    let n = length k.blocked_agents in
    let lem =
      λ (f : BlockedEntry → ℕ). expire_lem now_ms p f n k.blocked_agents 0 [] (omega arith) refl in
    let (rest, woken) = expire n now_ms k.blocked_agents 0 [] in
    let left : Kernel = record k { blocked_agents = rest } in
    let same : (wake_all left woken).blocked_agents ≡ rest = wake_all_blocked now_ms p left woken in
    let all_due : queued woken p ≡ due now_ms p k.blocked_agents =
      omega (arith, (lem (λ e. 0)).2) in
    record {
      no_due = ap (due now_ms p) same ∙ (lem (λ e. 0)).0;
      later_eq = λ f. ap (later now_ms p f) same ∙ (lem f).1;
      queue_eq = (woken, wake_all_order now_ms p left woken, all_due);
      task_eq = rw (sym all_due) (wake_all_task now_ms p left woken);
      current_eq = wake_all_current now_ms p left woken;
    }
