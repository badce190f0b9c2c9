-- ===== src/Addr/Tests.antt =====
-- Addresses and pages: the theorems at concrete values.
use os_agent.Base.{
  ◌+◌, ◌<◌, ◌≤◌, ◌≡◌, ◌↔◌, ◌⊎◌, refl, some, arith, [], ◌∷◌, ◌^◌, get_elem?, u64_mod,
}
use os_agent.Addr.{pages, indexes, indexes_from, virt_addr_into_usize, into_virt_addr}
use os_agent.Addr.Pages.{pages_lem, canonical_lem}

indexes_test : indexes 0x4_0201 ≡ 1 ∷ 1 ∷ 1 ∷ []
unfolding indexes indexes_from
indexes_test = refl

pages_lem_example : get_elem? (pages (record { l = 4; r = 7 })) 2 ≡ some 6
pages_lem_example = pages_lem (record { l = 4; r = 7 }) 2 (omega arith) (omega arith)

canonical_lem_example :
    (virt_addr_into_usize (into_virt_addr 0xffff_ffff_ffff_f000) ≡ 0xffff_ffff_ffff_f000)
    ↔ ((0xffff_ffff_ffff_f000 < 2 ^ 38) ⊎ (u64_mod ≤ 0xffff_ffff_ffff_f000 + 2 ^ 38))
canonical_lem_example = canonical_lem 0xffff_ffff_ffff_f000 (omega arith)
