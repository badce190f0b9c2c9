-- ===== src/Task/Fetch.antt =====
-- `TaskManager::fetch` takes the task of the highest priority, the first of them in the queue.
use os_agent.Base.{
  ℕ, suc, ◌+◌, ◌≤◌, ◌<◌, ◌≡◌, refl, ap, sym, ◌∙◌, inl, inr, Bool-cases, some, List, [], ◌∷◌, ◌++◌,
  length, get_elem?, erase_idx, ltb, ltb→lt, arith, length-append,
}
use mathlib.Core.List.{append-nil, append_assoc}
use os_agent.Task.{Task, best_of, fetch_from}

abbrev pub All {ℓ} : {A : Type ℓ} → (A → Type 0) → List A → Type 0
All P [] = Unit
All P (x ∷ xs) = P x × All P xs

pub All-append {ℓ} :
    {A : Type ℓ} (P : A → Type 0) (xs ys : List A) → All P xs → All P ys → All P (xs ++ ys)
All-append P [] ys hx hy = hy
All-append P (x ∷ xs) ys hx hy = (hx.0, All-append P xs ys hx.1 hy)

pub All-map {ℓ} :
    {A : Type ℓ} {P Q : A → Type 0} (l : List A) → ((x : A) → P x → Q x) → All P l → All Q l
All-map [] f a = tt
All-map (x ∷ l) f a = (f x a.0, All-map l f a.1)

module _ (tasks : ℕ → Task) where
  abbrev prio : ℕ → ℕ
  prio q = (tasks q).priority

  -- `p` stands between tasks of lower priority and tasks of no higher one.
  pub record IsBest (p : ℕ) (queue rest : List ℕ) : Type 0 where
    pub before : List ℕ
    pub behind : List ℕ
    pub queue_eq : queue ≡ before ++ (p ∷ behind)
    pub rest_eq : rest ≡ before ++ behind
    pub lower : All (λ q. prio q < prio p) before
    pub no_higher : All (λ q. prio q ≤ prio p) behind

  get_elem?-middle :
      (before : List ℕ) (b : ℕ) (behind : List ℕ)
      → get_elem? (before ++ (b ∷ behind)) (length before) ≡ some b
  get_elem?-middle [] b behind = refl
  get_elem?-middle (x ∷ before) b behind = get_elem?-middle before b behind

  erase_idx-middle :
      (before : List ℕ) (b : ℕ) (behind : List ℕ)
      → erase_idx (before ++ (b ∷ behind)) (length before) ≡ before ++ behind
  erase_idx-middle [] b behind = refl
  erase_idx-middle (x ∷ before) b behind = ap (◌∷◌ x) (erase_idx-middle before b behind)

  -- The loop keeps the best task of those that it has passed.
  best_of_lem :
      (before : List ℕ) (b : ℕ) (behind qs l : List ℕ) (i : ℕ)
      → l ≡ before ++ (b ∷ (behind ++ qs))
      → i ≡ length before + suc (length behind)
      → All (λ q. prio q < prio b) before
      → All (λ q. prio q ≤ prio b) behind
      → (p : ℕ) × (get_elem? l (best_of tasks qs i (length before) (prio b)) ≡ some p)
        × IsBest p l (erase_idx l (best_of tasks qs i (length before) (prio b)))
  unfolding best_of
  best_of_lem before b behind [] l i e ei low high = (
    b,
    rw e (get_elem?-middle before b (behind ++ [])),
    record {
      before = before;
      behind = behind;
      queue_eq = e ∙ ap (λ r. before ++ (b ∷ r)) (append-nil behind);
      rest_eq =
          rw e
            (erase_idx-middle before b (behind ++ []) ∙ ap (λ r. before ++ r) (append-nil behind));
      lower = low;
      no_higher = high;
    },
  )
  best_of_lem before b behind (q ∷ qs) l i e ei low high =
      elim (Bool-cases (ltb (prio b) (prio q))) [
        | inl better ↦
            let up = ltb→lt (prio b) (prio q) better in
            rw better (
              rw (ei ∙ sym (length-append before (b ∷ behind))) (
                best_of_lem (before ++ (b ∷ behind)) q [] qs l (length (before ++ (b ∷ behind)) + 1)
                  (e ∙ sym (append_assoc before (b ∷ behind) (q ∷ qs))) refl
                  (All-append (λ q'. prio q' < prio q) before (b ∷ behind)
                    (All-map before (λ q' h. omega (arith, h, up)) low)
                    (up, All-map behind (λ q' h. omega (arith, h, up)) high))
                  tt))
        | inr worse ↦ rw worse (
            best_of_lem before b (behind ++ (q ∷ [])) qs l (i + 1)
              (e ∙ ap (λ r. before ++ (b ∷ r)) (sym (append_assoc behind (q ∷ []) qs)))
              (omega (arith, ei, length-append behind (q ∷ []))) low
              (All-append (λ q'. prio q' ≤ prio b) behind (q ∷ []) high (ground arith, tt)))
      ]

  -- A queue that is not empty gives up a task: those before it in the queue have a lower priority,
  -- those behind it no higher one, and they stay in their order.
  pub fetch-IsBest :
      (q : ℕ) (qs : List ℕ)
      → (p : ℕ) × ((fetch_from tasks (q ∷ qs)).0 ≡ some p)
        × IsBest p (q ∷ qs) (fetch_from tasks (q ∷ qs)).1
  unfolding fetch_from
  fetch-IsBest q qs = best_of_lem [] q [] qs (q ∷ qs) 1 refl (omega arith) tt tt
