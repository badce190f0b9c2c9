-- ===== src/Table/Tests.antt =====
-- The page table on small memories: tests, and the theorems at concrete tables.
use os_agent.Base.{
  ℕ, ◌+◌, ◌*◌, ◌/◌, ◌^◌, ◌<◌, ◌≡◌, ◌≢◌, refl, Option, none, some, List, [], ◌∷◌, ◌⊎◌, arith, ltb,
  ◌==◌, if◌then◌else◌,
}
use os_agent.Alloc.{init_frames, pop, frame_alloc}
use os_agent.Alloc.Live.{IsValid}
use os_agent.Addr.{floor, indexes, indexes_from}
use os_agent.Table.{
  Ram, PageTable, clear_page, set_word, new_pte, with_flag, flag_v, find_from, map_page, unmap_page,
  translate, translate_va, new_table, find_create_from, ensure, alloc_frame, from_token,
}
use os_agent.Table.Tree.{IsRooted, entry_of}
use os_agent.Table.Mapping.{IsChanged, map_page_lem, unmap_page_lem}
use os_agent.Table.Start.{only, translate_va-unmapped}
use os_agent.Table.Buffer.{Slice, done, out_of_fuel, translated_byte_buffer}
use os_agent.Table.Buffer.Covers.{IsCover, IsReadable, translated_byte_buffer-IsCover}
use os_agent.Table.Buffer.Endless.{translated_byte_buffer_endless}

-- A memory full of ones, of which no frame is handed out.
abbrev dirty : Ram
dirty = record { words = λ b. 1; allocator = init_frames 1 100 }

abbrev ram1 : Ram
ram1 = record {
  words = clear_page (λ b. 1) 1;
  allocator = record { current = 2; end = 100; recycled = [] };
}

abbrev table1 : PageTable
table1 = record { root_ppn = 1; frames = 1 ∷ [] }

new_table_test : new_table dirty ≡ some (table1, ram1)
unfolding new_table alloc_frame frame_alloc pop
new_table_test = refl

ram1-IsRooted : IsRooted ram1 1 (only 1)
unfolding IsValid
ram1-IsRooted = record {
  tree = record { root_first = refl; below = λ q i a b c d. ground (arith, a, c, d) };
  held = λ q a. ground (arith, a);
  frames_valid = λ p. ground arith;
  in_range = omega arith;
  frames_small = omega arith;
}

dirty-IsValid : IsValid 1 []
unfolding IsValid
dirty-IsValid = λ p. ground arith

-- Page 5 is put on frame 7: two tables are added, in frames 2 and 3.
abbrev ram2 : Ram
ram2 = record {
  words = λ b.
      if b == 1536 + 5
      then 7 * 1024 + 7
      else if b == 1024
      then 3 * 1024 + 1
      else if b == 512
      then 2 * 1024 + 1
      else if ltb (b / 512) 4
      then (if ltb 0 (b / 512) then 0 else 1)
      else 1;
  allocator = record { current = 4; end = 100; recycled = [] };
}

abbrev words_at : Option (PageTable × Ram) → ℕ → Option ℕ
words_at none b = none
words_at (some (table, ram)) b = some (ram.words b)

map_page_test :
    (words_at (map_page ram1 table1 5 7 6) 512 ≡ some (2 * 1024 + 1))
    × (words_at (map_page ram1 table1 5 7 6) 1024 ≡ some (3 * 1024 + 1))
    × (words_at (map_page ram1 table1 5 7 6) 1541 ≡ some (7 * 1024 + 7))
unfolding map_page find_create_from ensure alloc_frame frame_alloc pop indexes indexes_from
    with_flag
map_page_test = (refl, refl, refl)

map_page_lem_example :
    ((map_page ram1 table1 5 7 6 ≡ none) × ((entry_of ram1.words 1 5 ≢ none) ⊎ (100 < 2 + 2)))
    ⊎ ((table' : PageTable) × (ram' : Ram) × (map_page ram1 table1 5 7 6 ≡ some (table', ram'))
        × (table'.root_ppn ≡ 1)
        × (entry_of ram1.words 1 5 ≡ none)
        × IsChanged ram1 1 (only 1) ram' 5 (some (new_pte 7 (with_flag 6 flag_v))))
map_page_lem_example =
    map_page_lem ram1 table1 (only 1) 5 7 6 ram1-IsRooted (omega arith) (omega arith)

abbrev place2 : ℕ → ℕ
place2 q = if q == 1 then 1 else if q == 2 then 512 else if q == 3 then 2 ^ 18 else 0

ram2-IsRooted : IsRooted ram2 1 place2
unfolding IsValid
ram2-IsRooted = record {
  tree = record { root_first = refl; below = λ q i a b c d. ground (arith, a, b, c, d) };
  held = λ q a. ground (arith, a);
  frames_valid = λ p. ground arith;
  in_range = omega arith;
  frames_small = omega arith;
}

unmap_page_lem_example :
    ((unmap_page ram2 table1 5 ≡ none) × (entry_of ram2.words 1 5 ≡ none))
    ⊎ ((ram' : Ram) × (e : ℕ) × (unmap_page ram2 table1 5 ≡ some ram')
        × (entry_of ram2.words 1 5 ≡ some e)
        × IsChanged ram2 1 place2 ram' 5 none)
unmap_page_lem_example = unmap_page_lem ram2 table1 place2 5 ram2-IsRooted (omega arith)

abbrev ram3 : Ram
ram3 = record ram2 { words = set_word ram2.words 1541 0 }

unmap_page_test : unmap_page ram2 table1 (floor 0x5123) ≡ some ram3
unfolding unmap_page find_from indexes indexes_from
unmap_page_test = refl

translate_va-unmapped_example : translate_va ram3.words table1 0x5123 ≡ some 0x123
translate_va-unmapped_example =
    translate_va-unmapped ram2 table1 place2 0x5123 ram3 ram2-IsRooted (omega arith) unmap_page_test

page_5-IsReadable : IsReadable ram2.words (from_token 1) 0x5123 (0x5123 + 16)
unfolding translate find_from indexes indexes_from
page_5-IsReadable = λ va a b.
    let in_page : floor va ≡ 5 = omega (arith, a, b) in rw in_page (λ e. ground (arith, e))

translated_byte_buffer-IsCover_example :
    (v : List Slice) × (translated_byte_buffer ram2.words 16 1 0x5123 16 ≡ done v)
    × IsCover ram2.words (from_token 1) 0x5123 (0x5123 + 16) v
translated_byte_buffer-IsCover_example =
    translated_byte_buffer-IsCover ram2.words 1 0x5123 16 16 (omega arith) (omega arith)
      page_5-IsReadable

page_5 : translate ram2.words (from_token 1) (floor 0x5123) ≡ some (7 * 1024 + 7)
unfolding translate find_from indexes indexes_from
page_5 = refl

translated_byte_buffer_endless_example :
    translated_byte_buffer ram2.words 1000 1 (1 * 2 ^ 39 + 0x5123) 16 ≡ out_of_fuel
translated_byte_buffer_endless_example =
    translated_byte_buffer_endless ram2.words 1 1 0x5123 16 1000 (7 * 1024 + 7) (omega arith)
      (omega arith) (omega arith) refl (λ e. ground (arith, e)) (omega arith) page_5
