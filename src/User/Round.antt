-- ===== src/User/Round.antt =====
-- A system call from the wrapper to the kernel and back.
use Prim.Native.Nat.{◌%◌}
use os_agent.Base.{ℕ, ◌+◌, ◌≡◌, ◌≢◌, refl, false, some, Option, ◌==◌, u64_mod, arith}
use os_agent.Base.Results.{ISize}
use os_agent.Trap.{Call, as_isize}
use os_agent.Trap.Handler.{TrapContext, user_env_call, return_from, user_env_trap}
use os_agent.User.{Regs}
use os_agent.User.Asks.{IsCall, IsWide, enter, asked, asked-enter, as_isize-as_usize}

entered :
    (cx : TrapContext) (c : Call)
    → asked cx.x ≡ some c
    → user_env_call cx ≡ some (c, record cx { sepc = (cx.sepc + 4) % u64_mod })
unfolding user_env_call asked
entered cx c e = rw (e, user_env_call) refl

-- A trap with the registers that a wrapper sets runs the call that the wrapper was called for, with the
-- context moved on to the next instruction. When the call comes back, its result is what the wrapper in the
-- context that is current then reads from its result register, and that context is else as the call left it.
pub user_env_trap-enter :
    (run : Call → TrapContext → Option (ISize × TrapContext)) (c : Call) (regs : Regs)
    (cx : TrapContext) (result : ISize) (current : TrapContext)
    → cx.x ≡ enter c regs
    → IsCall c
    → IsWide result
    → run c (record cx { sepc = (cx.sepc + 4) % u64_mod }) ≡ some (result, current)
    → (cx' : TrapContext) × (user_env_trap run cx ≡ some cx')
      × (as_isize (cx'.x 10) ≡ result)
      × ((r : ℕ) → r ≢ 10 → cx'.x r ≡ current.x r)
      × (cx' ≡ record current { x = cx'.x })
unfolding user_env_trap return_from
user_env_trap-enter run c regs cx result current e is wide ran =
    let found : asked cx.x ≡ some c = rw e (asked-enter c regs is) in
    (
      return_from current result,
      rw (entered cx c found, user_env_trap, ran) refl,
      as_isize-as_usize result wide,
      (λ r other. let apart : (r == 10) ≡ false = ground (arith, other) in rw apart refl),
      refl,
    )
