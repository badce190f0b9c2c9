-- ===== src/Space/Tests.antt =====
-- Memory sets on a small memory.
use os_agent.Base.{◌≡◌, refl, none, some, [], ◌∷◌, ◌⊎◌, arith}
use os_agent.Alloc.Live.{IsValid}
use os_agent.Addr.{ceil}
use os_agent.Table.{clear_page}
use os_agent.Table.Tree.{IsRooted}
use os_agent.Table.Start.{only}
use os_agent.Space.{Mapping}
use os_agent.Space.Build.{Space, settle, insert_framed_area}
use os_agent.Space.Range.{IsSpread, IsHindered}
use os_agent.Space.Insert.{fresh_area, insert_framed_area-IsSpread}

-- An empty memory set whose root is frame 1.
abbrev bare : Space
bare = record {
  set = record { page_table = record { root_ppn = 1; frames = 1 ∷ [] }; areas = [] };
  ram = record {
    words = clear_page (λ b. 1) 1;
    allocator = record { current = 2; end = 100; recycled = [] };
  };
}

bare-IsRooted : IsRooted bare.ram 1 (only 1)
unfolding IsValid
bare-IsRooted = record {
  tree = record { root_first = refl; below = λ q i a b c d. ground (arith, a, c, d) };
  held = λ q a. ground (arith, a);
  frames_valid = λ p. ground arith;
  in_range = omega arith;
  frames_small = omega arith;
}

insert_framed_area-IsSpread_example :
    ((m' : Mapping) × (insert_framed_area bare 0x10000 0x12345 22 ≡ some (settle bare m'))
      × IsSpread (fresh_area bare 16 19 22) (only 1) 16 19 m')
    ⊎ ((insert_framed_area bare 0x10000 0x12345 22 ≡ none)
        × IsHindered (fresh_area bare 16 19 22) 16 19)
unfolding ceil
insert_framed_area-IsSpread_example =
    insert_framed_area-IsSpread bare (only 1) 0x10000 0x12345 22 (omega arith) (omega arith)
      (omega arith) bare-IsRooted
