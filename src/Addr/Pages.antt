-- ===== src/Addr/Pages.antt =====
-- What the conversions between addresses and pages do, and that a range is walked to its end.
use os_agent.Base.{
  ℕ, zero, suc, ◌+◌, ◌*◌, ◌/◌, ◌%◌, ◌-◌, ◌^◌, ◌<◌, ◌≤◌, ◌≡◌, refl, none, some, [], ◌∷◌, ◌↔◌, ◌⊎◌,
  get_elem?, arith, ltb, if◌then◌else◌, u64_mod,
}
use os_agent.Alloc.{page_size}
use os_agent.Addr.{
  into_virt_addr, virt_addr_into_usize, floor, ceil, page_offset, addr_of_page, page_of_addr,
  indexes_from, indexes, SimpleRange, next, pages_from, pages, va_width_sv39,
}

-- An address is the start of its page and the offset in it; the page is the last that starts no
-- later, `ceil` is the first that starts no earlier, and a page's start is given back its number.
pub floor-ceil :
    (a : ℕ)
    → a < 2 ^ va_width_sv39
    → (addr_of_page (floor a) + page_offset a ≡ a)
      × (page_offset a < page_size)
      × (a ≤ ceil a * page_size)
      × (ceil a * page_size < a + page_size)
      × (page_of_addr (addr_of_page (floor a)) ≡ some (floor a))
unfolding ceil
floor-ceil a h = ground (arith, h)

pub indexes_lem :
    (vpn : ℕ) → indexes vpn ≡ (vpn / 2 ^ 9 / 2 ^ 9 % 512) ∷ (vpn / 2 ^ 9 % 512) ∷ (vpn % 512) ∷ []
unfolding indexes indexes_from
indexes_lem vpn = refl

-- The kernel's user half and the half above it survive the way to a `VirtAddr` and back.
pub canonical_lem :
    (a : ℕ)
    → a < u64_mod
    → (virt_addr_into_usize (into_virt_addr a) ≡ a) ↔ ((a < 2 ^ 38) ⊎ (u64_mod ≤ a + 2 ^ 38))
unfolding virt_addr_into_usize
canonical_lem a h = ground (arith, h)

pages_from_lem :
    (n l r i : ℕ)
    → l + n ≡ r
    → r < u64_mod
    → get_elem? (pages_from n (record { l = l; r = r })) i
      ≡ (if ltb i n then some (l + i) else none)
unfolding pages_from next
pages_from_lem zero l r i h b = ground arith
pages_from_lem (suc n) l r zero h b = ground (arith, h, b)
pages_from_lem (suc n) l r (suc i) h b =
    let rest = pages_from_lem n (l + 1) r i (omega (arith, h)) b in ground (arith, h, b, rest)

-- A loop over a range sees the pages from its start to just before its end, each once, in order.
pub pages_lem :
    (it : SimpleRange) (i : ℕ)
    → it.l ≤ it.r
    → it.r < u64_mod
    → get_elem? (pages it) i ≡ (if ltb i (it.r - it.l) then some (it.l + i) else none)
unfolding pages
pages_lem it i h b = pages_from_lem (it.r - it.l) it.l it.r i (omega (arith, h)) b
