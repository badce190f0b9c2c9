-- ===== src/Alloc/Live.antt =====
-- No pid and no frame is handed out twice.
use os_agent.Base.{
  ℕ, ◌*◌, ◌+◌, ◌≤◌, ◌<◌, ◌≡◌, refl, sym, inl, inr, Bool, true, false, Bool-cases, Option-cases,
  ◌&&◌, none, some, List, [], ◌∷◌, ◌++◌, ltb, ◌==◌, if◌then◌else◌, arith, ◌⊎◌,
}
use os_agent.Task.Timeouts.{queued, queued-append}
use os_agent.Alloc.{
  pop, recycles, PidAllocator, pid_alloc, pid_dealloc, StackFrameAllocator, frame_alloc,
  kernel_stack_position, kernel_stack_size, page_size, trampoline,
}

pop-none : (xs : List ℕ) (p : ℕ) → pop xs ≡ none → queued xs p ≡ 0
unfolding pop
pop-none [] p h = refl
pop-none (z ∷ zs) p h = elim (Option-cases (pop zs)) [
  | inl e ↦ ground (arith, h, e)
  | inr ((y, rest), e) ↦ ground (arith, h, e)
]

pop_lem :
    (xs : List ℕ) (x : ℕ) (ys : List ℕ) (p : ℕ)
    → pop xs ≡ some (x, ys)
    → queued xs p ≡ queued ys p + (if x == p then 1 else 0)
unfolding pop
pop_lem [] x ys p h = ground (arith, h)
pop_lem (z ∷ zs) x ys p h = elim (Option-cases (pop zs)) [
  | inl e ↦
      let same : z ≡ x = ground (arith, h, e) in
      let all : [] ≡ ys = ground (arith, h, e) in
      rw (sym same, sym all) (omega (arith, pop-none zs p e))
  | inr ((y, rest), e) ↦
      let same : y ≡ x = ground (arith, h, e) in
      let all : z ∷ rest ≡ ys = ground (arith, h, e) in
      rw (sym same, sym all) (omega (arith, pop_lem zs y rest p e))
]

pop-none_empty : (xs : List ℕ) → pop xs ≡ none → xs ≡ []
unfolding pop
pop-none_empty [] h = refl
pop-none_empty (z ∷ zs) h = elim (Option-cases (pop zs)) [
  | inl e ↦ ground (arith, h, e)
  | inr ((y, rest), e) ↦ ground (arith, h, e)
]

recycles_iff : (xs : List ℕ) (p : ℕ) → recycles xs p ≡ ltb 0 (queued xs p)
unfolding recycles
recycles_iff [] p = refl
recycles_iff (x ∷ xs) p = ground (arith, recycles_iff xs p)

-- A pid is held if it has been counted and is not among those given back.
module _ (current : ℕ) (recycled : List ℕ) where
  abbrev pub is_held : ℕ → Bool
  is_held p = ltb p current && (queued recycled p == 0)

  -- What was given back was counted, and stands once.
  unfoldable pub IsValid : Type 0
  IsValid = (p : ℕ) → queued recycled p ≤ (if ltb p current then 1 else 0)

-- The state after `p` was handed out: it was not held and now is, the others are as they were.
pub record IsTaken (current : ℕ) (recycled : List ℕ) (p : ℕ) (current' : ℕ) (recycled' : List ℕ)
    : Type 0 where
  pub was_free : is_held current recycled p ≡ false
  pub held_eq :
      (q : ℕ) → is_held current' recycled' q ≡ (if p == q then true else is_held current recycled q)
  pub valid : IsValid current' recycled'

-- The state after `p` was given back.
pub record IsReturned (current : ℕ) (recycled : List ℕ) (p : ℕ) (recycled' : List ℕ) : Type 0 where
  pub held_eq :
      (q : ℕ) → is_held current recycled' q ≡ (if p == q then false else is_held current recycled q)
  pub valid : IsValid current recycled'

popped :
    (current : ℕ) (recycled : List ℕ) (x : ℕ) (rest : List ℕ)
    → pop recycled ≡ some (x, rest)
    → IsValid current recycled
    → IsTaken current recycled x current rest
unfolding IsValid
popped current recycled x rest e v = record {
  was_free = ground (arith, pop_lem recycled x rest x e);
  held_eq = λ q. ground (arith, pop_lem recycled x rest q e, v q);
  valid = λ q. ground (arith, pop_lem recycled x rest q e, v q);
}

counted :
    (current : ℕ) (recycled : List ℕ)
    → IsValid current recycled
    → IsTaken current recycled current (current + 1) recycled
unfolding IsValid
counted current recycled v = record {
  was_free = ground arith;
  held_eq = λ q. ground (arith, v q);
  valid = λ q. ground (arith, v q);
}

returned :
    (current : ℕ) (recycled : List ℕ) (p : ℕ)
    → IsValid current recycled
    → is_held current recycled p ≡ true
    → IsReturned current recycled p (recycled ++ (p ∷ []))
unfolding IsValid
returned current recycled p v h = record {
  held_eq = λ q. ground (arith, queued-append recycled (p ∷ []) q);
  valid = λ q. ground (arith, queued-append recycled (p ∷ []) q, v q, h);
}

-- A pid that is handed out was held by nobody before and is held now; the other pids are as they
-- were, and what was given back stays counted and without repetition.
pub pid_alloc-IsTaken :
    (a : PidAllocator)
    → IsValid a.current a.recycled
    → let (p, a') = pid_alloc a in IsTaken a.current a.recycled p a'.current a'.recycled
unfolding pid_alloc
pid_alloc-IsTaken a v = elim (Option-cases (pop a.recycled)) [
  | inl e ↦ rw (e, pid_alloc) (counted a.current a.recycled v)
  | inr ((x, rest), e) ↦ rw (e, pid_alloc) (popped a.current a.recycled x rest e v)
]

-- A pid is taken back exactly if it is held; then it is free, and the other pids are as they were.
-- Otherwise the call panics.
pub pid_dealloc_lem :
    (a : PidAllocator) (p : ℕ)
    → IsValid a.current a.recycled
    → ((is_held a.current a.recycled p ≡ true)
        × ((a' : PidAllocator) × (pid_dealloc a p ≡ some a')
            × (a'.current ≡ a.current)
            × IsReturned a.current a.recycled p a'.recycled))
      ⊎ ((is_held a.current a.recycled p ≡ false) × (pid_dealloc a p ≡ none))
unfolding pid_dealloc
pid_dealloc_lem a p v = elim (Bool-cases (is_held a.current a.recycled p)) [
  | inl h ↦ inl (
    h,
    (
      record a { recycled = a.recycled ++ (p ∷ []) },
      ground (arith, h, recycles_iff a.recycled p),
      refl,
      returned a.current a.recycled p v h,
    ),
  )
  | inr h ↦ inr (h, ground (arith, h, recycles_iff a.recycled p))
]

-- A frame that is handed out was held by nobody before and is held now, and the other frames are as
-- they were; there is none left exactly if all up to the end are held.
pub frame_alloc_lem :
    (a : StackFrameAllocator)
    → IsValid a.current a.recycled
    → ((p : ℕ) × (a' : StackFrameAllocator) × (frame_alloc a ≡ some (p, a'))
        × (a'.end ≡ a.end)
        × IsTaken a.current a.recycled p a'.current a'.recycled)
      ⊎ ((frame_alloc a ≡ none) × (a.current ≡ a.end) × (a.recycled ≡ []))
unfolding frame_alloc
frame_alloc_lem a v = elim (Option-cases (pop a.recycled)) [
  | inr ((x, rest), e) ↦ inl (
    x,
    record a { recycled = rest },
    rw (e, frame_alloc) refl,
    refl,
    popped a.current a.recycled x rest e v,
  )
  | inl e ↦ elim (Bool-cases (a.current == a.end)) [
    | inr more ↦ inl (
      a.current,
      record a { current = a.current + 1 },
      rw (e, frame_alloc, more) refl,
      refl,
      counted a.current a.recycled v,
    )
    | inl full ↦
        inr (rw (e, frame_alloc, full) refl, ground (arith, full), pop-none_empty a.recycled e)
  ]
]

-- The kernel stacks of two pids do not overlap: a page lies between the top of the one and the bottom
-- of the other, as long as the stack of the greater pid fits below the trampoline.
pub kernel_stacks_apart :
    (p q : ℕ)
    → p < q
    → q * (kernel_stack_size + page_size) + kernel_stack_size ≤ trampoline
    → ((kernel_stack_position q).1 + page_size ≤ (kernel_stack_position p).0)
      × ((kernel_stack_position q).0 + kernel_stack_size ≡ (kernel_stack_position q).1)
kernel_stacks_apart p q h fits = omega (arith, h, fits)
