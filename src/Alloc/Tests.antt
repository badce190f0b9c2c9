-- ===== src/Alloc/Tests.antt =====
-- The allocator of pids at a concrete input.
use os_agent.Base.{◌≡◌, refl, [], ◌∷◌}
use os_agent.Alloc.{PidAllocator, pid_alloc, pop}

-- The pids 0 to 3, of which 2 and then 1 were given back.
abbrev four_pids : PidAllocator
four_pids = record { current = 4; recycled = 2 ∷ 1 ∷ [] }

last_back_first_out : (pid_alloc four_pids).0 ≡ 1
unfolding pid_alloc pop
last_back_first_out = refl
