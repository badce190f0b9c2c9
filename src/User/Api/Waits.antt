-- ===== src/User/Api/Waits.antt =====
-- `wait` gives the first answer that is not -2.
use os_agent.Base.{ℕ, zero, suc, ◌<◌, ◌≡◌, ◌≢◌, ◌∙◌, refl, some, arith}
use os_agent.Base.Results.{ISize, pos, negsuc}
use os_agent.User.Api.{wait}

module _ {S : Type 0} (ask : S → ISize × S) (yield_now : S → S) where
  -- The state in which `wait` asks for the `n`-th time.
  abbrev pub turn : ℕ → S → S
  turn zero s = s
  turn (suc n) s = turn n (yield_now (ask s).1)

  wait_here :
      (fuel : ℕ) (s : S) → (ask s).0 ≢ negsuc 1 → wait ask yield_now (suc fuel) s ≡ some (ask s)
  unfolding wait
  wait_here fuel s other = go (ask s).0 refl other
    where
      go :
          (r : ISize)
          → (ask s).0 ≡ r
          → r ≢ negsuc 1
          → wait ask yield_now (suc fuel) s ≡ some (ask s)
      go (pos pid) e h = rw (e, wait) refl
      go (negsuc zero) e h = rw (e, wait) refl
      go (negsuc (suc zero)) e h = absurd (h refl)
      go (negsuc (suc (suc n))) e h = rw (e, wait) refl

  wait_more :
      (fuel : ℕ) (s : S)
      → (ask s).0 ≡ negsuc 1
      → wait ask yield_now (suc fuel) s ≡ wait ask yield_now fuel (yield_now (ask s).1)
  unfolding wait
  wait_more fuel s busy = rw (busy, wait) refl

  -- If the first `n` answers are -2 and the next is another, `wait` ends with that one, after `n` yields.
  pub wait-turn :
      (n fuel : ℕ) (s : S)
      → ((i : ℕ) → i < n → (ask (turn i s)).0 ≡ negsuc 1)
      → (ask (turn n s)).0 ≢ negsuc 1
      → n < fuel
      → wait ask yield_now fuel s ≡ some (ask (turn n s))
  wait-turn n zero s busy other enough = absurd (omega (arith, enough))
  wait-turn zero (suc fuel) s busy other enough = wait_here fuel s other
  wait-turn (suc n) (suc fuel) s busy other enough =
      wait_more fuel s (busy 0 (omega arith))
      ∙ wait-turn n fuel (yield_now (ask s).1) (λ i h. busy (suc i) (omega (arith, h))) other
          (omega (arith, enough))
