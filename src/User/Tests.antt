-- ===== src/User/Tests.antt =====
-- Calls with concrete arguments, from registers that hold 99.
use os_agent.Base.{ℕ, ◌≡◌, ◌≢◌, refl, Option, some, arith}
use os_agent.Base.Results.{ISize, negsuc}
use os_agent.Trap.{Call, waitpid_call, getpid_call, syscall, as_isize}
use os_agent.Trap.Handler.{TrapContext, user_env_trap}
use os_agent.User.{Regs, sys_getpid, ecall}
use os_agent.User.Asks.{asked, enter}
use os_agent.User.Round.{user_env_trap-enter}

abbrev regs : Regs
regs q = 99

asked_test : asked (sys_getpid regs) ≡ some getpid_call
unfolding asked ecall syscall
asked_test = refl

abbrev cx : TrapContext
cx = record {
  x = enter (waitpid_call (negsuc 0) 64) regs;
  sepc = 4096;
  kernel_satp = 0;
  kernel_sp = 0;
  trap_handler = 0;
}

-- The call has no child to wait for, and leaves the context as it is.
abbrev run : Call → TrapContext → Option (ISize × TrapContext)
run c now = some (negsuc 1, now)

abbrev next : TrapContext
next = record cx { sepc = 4100 }

user_env_trap-enter_example :
    (cx' : TrapContext) × (user_env_trap run cx ≡ some cx')
    × (as_isize (cx'.x 10) ≡ negsuc 1)
    × ((r : ℕ) → r ≢ 10 → cx'.x r ≡ next.x r)
    × (cx' ≡ record next { x = cx'.x })
user_env_trap-enter_example =
    user_env_trap-enter run (waitpid_call (negsuc 0) 64) regs cx (negsuc 1) next refl (omega arith)
      (omega arith) refl
