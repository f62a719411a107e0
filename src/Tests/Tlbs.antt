-- ===== src/Tests/Tlbs.antt =====
-- The TLB hierarchy at concrete inputs.
use kaby_lake_cache_c.Base.{
  ◌≤◌, ◌<◌, ℕ, ◌%◌, ◌≡◌, ◌⊎◌, refl, arith, true, none, some, ltb, if◌then◌else◌, update,
}
use kaby_lake_cache_c.Outcome.{err_none, err_bad_parameter, returned, refused}
use kaby_lake_cache_c.Addr.{page_number, init_phy_addr}
use kaby_lake_cache_c.Memory.{Memory, load32}
use kaby_lake_cache_c.PageWalk.{page_walk}
use kaby_lake_cache_c.TlbHrchy.{
  instruction, access_data, TlbKind, l1_itlb, l1_dtlb, l2_tlb, TlbEntry, Tlb, zero_entry,
  tlb_entry_init, tlb_flush, tlb_insert, tlb_hit, tlb_search_invalid,
}
use kaby_lake_cache_c.TlbHrchy.Lookup.{
  lookup, lookup_after, tlb_flush-lookup, tlb_insert-lookup, tlb_hit-lookup,
}
use kaby_lake_cache_c.TlbHrchy.Invalid.{
  IsTlb, Invalidated, occupant, tlb_search_invalid-Invalidated,
}
use kaby_lake_cache_c.TlbHrchy.Search.{Hrchy, Malloc}
use kaby_lake_cache_c.TlbHrchy.Cases.{in_frame}
use kaby_lake_cache_c.TlbHrchy.Coherence.{IsCoherent}
use kaby_lake_cache_c.TlbHrchy.Transparent.{
  call, Translated, NeverNull, tlb_search-Translated, tlb_search-refused,
}
use kaby_lake_cache_c.TlbHrchy.Refill.{tlb_search_data_l2_hit, tlb_search-miss_then_hit}
use kaby_lake_cache_c.TlbMng
use kaby_lake_cache_c.TlbMng.{FullEntry, FullTlb, empty_entry}
use kaby_lake_cache_c.TlbMng.Single.{entry_for, only, tlb_insert_cases}
use kaby_lake_cache_c.Tests.Data.{
  memory, memory-IsMemory, bad_memory, bad_memory-IsMemory, here, there, here-IsVirtAddr, nowhere,
  second_page, second_page-IsPhyAddr, walk_here,
}

abbrev flushed : Tlb
flushed i = zero_entry

abbrev start : Hrchy
start = record { paddr = nowhere; itlb = flushed; dtlb = flushed; l2 = flushed; hit_or_miss = 0 }

abbrev ample : Malloc
ample i = true

ample-NeverNull : NeverNull ample
ample-NeverNull i = refl

start-IsCoherent : (mem : Memory) → IsCoherent mem start
unfolding lookup
start-IsCoherent mem = record {
  itlb = λ n frame e. cc;
  dtlb = λ n frame e. cc;
  l2 = λ n frame e. cc;
}

tlb_flush-lookup_run :
    (t' : Tlb) × (tlb_flush (some flushed) l2_tlb ≡ returned err_none t')
    × ((i : ℕ) → t' i ≡ (if ltb i 64 then zero_entry else zero_entry))
    × ((n : ℕ) → lookup l2_tlb t' n ≡ none)
tlb_flush-lookup_run = tlb_flush-lookup l2_tlb flushed

tlb_insert-lookup_example :
    (e : TlbEntry) × (t' : Tlb) × (tlb_entry_init
        (some here)
        (some (second_page 16))
        (some zero_entry)
        l1_itlb
      ≡ returned err_none e)
    × (tlb_insert (page_number here % 16) (some e) (some flushed) l1_itlb ≡ returned err_none t')
    × ((n : ℕ) → lookup l1_itlb t' n ≡ lookup_after l1_itlb flushed (page_number here) 1 n)
tlb_insert-lookup_example =
    tlb_insert-lookup l1_itlb here (second_page 16) zero_entry flushed here-IsVirtAddr
      second_page-IsPhyAddr

tlb_hit-lookup_run :
    ((lookup l1_dtlb flushed (page_number here) ≡ none)
      × (tlb_hit (some here) (some nowhere) (some flushed) l1_dtlb ≡ (0, some nowhere)))
    ⊎ ((frame : ℕ) × (lookup l1_dtlb flushed (page_number here) ≡ some frame)
        × (tlb_hit (some here) (some nowhere) (some flushed) l1_dtlb
            ≡ (1, some (record { phy_page_num = frame; page_offset = 16 }))))
tlb_hit-lookup_run = tlb_hit-lookup l1_dtlb here nowhere flushed

-- Page 1 in the data TLB, and in its line of the level-2 TLB.
abbrev held : Tlb
held = update flushed 1 (record { tag = 0; phy_page_num = 7; v = 1 })

held-IsTlb : (k : TlbKind) → IsTlb k held
held-IsTlb l1_itlb i = ground arith
held-IsTlb l1_dtlb i = ground arith
held-IsTlb l2_tlb i = ground arith

tlb_search_invalid-Invalidated_example :
    (i d : Tlb) × (tlb_search_invalid (some flushed) (some held) 65 instruction (some held)
      ≡ returned err_none (i, d))
    × Invalidated instruction flushed held (i, d) (occupant held 65)
tlb_search_invalid-Invalidated_example =
    tlb_search_invalid-Invalidated flushed held held 65 instruction (λ i. ground arith)
      (held-IsTlb l1_dtlb) (held-IsTlb l2_tlb)

tlb_search-Translated_example :
    Translated memory (second_page 16) (call memory here instruction ample start)
tlb_search-Translated_example =
    tlb_search-Translated memory memory-IsMemory here here-IsVirtAddr ample ample-NeverNull
      instruction start (start-IsCoherent memory) (second_page 16) walk_here

bad_walk : page_walk (some bad_memory) (some here) (some nowhere) ≡ refused err_bad_parameter
unfolding page_walk load32 init_phy_addr
bad_walk = refl

tlb_search-refused_example :
    call bad_memory here access_data ample start
    ≡ returned err_bad_parameter (record start { hit_or_miss = 0 })
tlb_search-refused_example =
    tlb_search-refused bad_memory bad_memory-IsMemory here here-IsVirtAddr ample ample-NeverNull
      access_data start (start-IsCoherent bad_memory) err_bad_parameter bad_walk

-- The page stands in the level-2 TLB alone.
abbrev only_l2 : Hrchy
only_l2 = record start { l2 = held }

tlb_search_data_l2_hit_example :
    (s' : Hrchy) × (call memory here access_data ample only_l2 ≡ returned err_none s')
    × (s'.paddr ≡ in_frame 7 here)
    × (s'.dtlb ≡ flushed)
    × (s'.l2 ≡ held)
    × ((n : ℕ) → lookup l1_itlb s'.itlb n ≡ lookup_after l1_itlb flushed (page_number here) 7 n)
tlb_search_data_l2_hit_example =
    tlb_search_data_l2_hit memory here here-IsVirtAddr ample ample-NeverNull only_l2 7 (omega arith)
      (unfold lookup page_number in refl) (unfold lookup page_number in refl)

tlb_search-miss_then_hit_example :
    (s' : Hrchy) × (call memory here access_data ample start ≡ returned err_none s')
    × (call memory there access_data ample s'
        ≡ returned err_none (record s' { paddr = in_frame 1 there; hit_or_miss = 1 }))
tlb_search-miss_then_hit_example =
    tlb_search-miss_then_hit memory here here-IsVirtAddr ample ample-NeverNull memory-IsMemory
      access_data start (second_page 16) (unfold lookup in refl) (unfold lookup in refl) walk_here
      there (unfold page_number in refl)

tlb_insert_cases_run :
    (e : FullEntry) × (t0 : FullTlb) × (TlbMng.tlb_entry_init
        (some here)
        (some (second_page 16))
        (some empty_entry)
      ≡ returned err_none e)
    × (TlbMng.tlb_flush (some (λ i. entry_for 5 6)) ≡ returned err_none t0)
    × (((127 < 128)
          × ((t1 : FullTlb) × (TlbMng.tlb_insert 127 (some e) (some t0) ≡ returned err_none t1)
              × ((i : ℕ)
                  → t1 i ≡ only 127 (entry_for (page_number here) 1) (λ j. entry_for 5 6) i)))
        ⊎ ((128 ≤ 127) × (TlbMng.tlb_insert 127 (some e) (some t0) ≡ refused err_bad_parameter)))
tlb_insert_cases_run =
    tlb_insert_cases here (second_page 16) empty_entry (λ i. entry_for 5 6) 127 here-IsVirtAddr
      second_page-IsPhyAddr
