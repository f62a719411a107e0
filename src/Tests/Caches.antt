-- ===== src/Tests/Caches.antt =====
-- The caches at concrete inputs.
use kaby_lake_cache_c.Base.{
  ℕ, ◌/◌, ◌%◌, ◌<◌, ◌≤◌, ◌≡◌, ◌≢◌, ◌⊎◌, sym, inr, refl, arith, true, none, some, ◌>>>◌,
  if◌then◌else◌, ◌==◌,
}
use mathlib.Core.List.{[], ◌∷◌}
use kaby_lake_cache_c.Outcome.{err_none, returned, fault}
use kaby_lake_cache_c.Addr.{phy_addr_to_uint32}
use kaby_lake_cache_c.Memory.{load32}
use kaby_lake_cache_c.TlbHrchy.{instruction, access_data}
use kaby_lake_cache_c.Cache.{
  CacheKind, l1_icache, l1_dcache, Line, word_at, zero_line, CacheEntry, Cache, slot, load_line,
  cache_flush,
}
use kaby_lake_cache_c.Cache.Lru.{apply_lru, lru_age_update, lru_age_increase}
use kaby_lake_cache_c.Cache.Hit.{Hit, hit_from, cache_hit}
use kaby_lake_cache_c.Cache.Ranking.{IsRanked, lru_age_increase-IsRanked}
use kaby_lake_cache_c.Cache.Victim.{has, used, victim_least_recent}
use kaby_lake_cache_c.Cache.Contents.{Holds}
use kaby_lake_cache_c.Cache.Correct.{found_way}
use kaby_lake_cache_c.Cache.Filled.{IsFilled, Stands, HitAt, Missed, cache_hit-Stands}
use kaby_lake_cache_c.Cache.Read.{Caches, Machine}
use kaby_lake_cache_c.Cache.Transparent.{IsEmpty, ReadsWord, read_call, cache_read-ReadsWord}
use kaby_lake_cache_c.Cache.Bytes.{CachesByte, cache_read_byte, cache_read_byte-ReadsByte}
use kaby_lake_cache_c.Cache.Write.{WriteMachine}
use kaby_lake_cache_c.Cache.Write.Lands.{Lands}
use kaby_lake_cache_c.Cache.Again.{cache_read-again}
use kaby_lake_cache_c.Cache.Misses.{cache_read-fresh, cache_read-miss_ages}
use kaby_lake_cache_c.Cache.Flush.{cache_flush_cases}
use kaby_lake_cache_c.Tests.Data.{memory, memory-IsMemory, second_page, second_page-IsPhyAddr}

abbrev blank : CacheEntry
blank = record { v = 0; age = 0; tag = 0; line = zero_line }

abbrev cold : Caches
cold = record { l1 = λ j. blank; l2 = λ j. blank; word = 0 }

abbrev garbage : CacheEntry
garbage = record { v = 1; age = 3; tag = 9; line = record { w0 = 1; w1 = 2; w2 = 3; w3 = 4 } }

abbrev machine : Machine
machine = record { malloc = true; fresh = garbage; as_l2 = λ e. e }

cold-Holds : (k : CacheKind) → Holds memory k cold.l1
cold-Holds k li w hli hw valid = absurd (valid refl)

cold-IsEmpty : IsEmpty cold.l2
cold-IsEmpty j = refl

cold-IsFilled : (k : CacheKind) (li : ℕ) → IsFilled k cold.l1 li
cold-IsFilled k li = record { bit = λ i hi. omega arith; prefix = λ i j lt hj valid. valid }

-- The line at address 0x1010.
abbrev line_here : Line
line_here = record { w0 = 0x1312_1110; w1 = 0x1716_1514; w2 = 0x1b1a_1918; w3 = 0x1f1e_1d1c }

load_here : load_line memory (phy_addr_to_uint32 (some (second_page 16))) ≡ some line_here
unfolding load_line load32 phy_addr_to_uint32
load_here = refl

begin_here : phy_addr_to_uint32 (some (second_page 16)) % 16 ≡ 0
unfolding phy_addr_to_uint32
begin_here = refl

miss_here : found_way l1_icache cold.l1 (phy_addr_to_uint32 (some (second_page 16))) ≡ none
unfolding hit_from
miss_here = refl

cache_read-ReadsWord_example :
    ReadsWord memory l1_icache
      (phy_addr_to_uint32 (some (second_page 16)))
      (read_call memory (second_page 16) instruction machine cold)
cache_read-ReadsWord_example =
    cache_read-ReadsWord memory instruction machine refl cold (second_page 16) second_page-IsPhyAddr
      (cold-Holds l1_icache) cold-IsEmpty (inr (begin_here, (line_here, load_here)))

cache_read-again_example :
    (s' : Caches) × (read_call memory (second_page 16) instruction machine cold
      ≡ returned err_none s')
    × IsFilled l1_icache s'.l1 (phy_addr_to_uint32 (some (second_page 16)) / 16 % 64)
    × ReadsWord memory l1_icache
        (phy_addr_to_uint32 (some (second_page 24)))
        (read_call memory (second_page 24) instruction machine s')
cache_read-again_example =
    cache_read-again memory instruction machine refl cold (second_page 16) second_page-IsPhyAddr
      (cold-Holds l1_icache) cold-IsEmpty line_here (second_page 24) begin_here load_here miss_here
      (cold-IsFilled l1_icache (phy_addr_to_uint32 (some (second_page 16)) / 16 % 64))
      (record { page = omega arith; offset = omega arith }) (unfold phy_addr_to_uint32 in refl)

inside_here : phy_addr_to_uint32 (some (second_page 20)) % 16 ≢ 0
unfolding phy_addr_to_uint32
inside_here e = cc

miss_inside : found_way l1_dcache cold.l1 (phy_addr_to_uint32 (some (second_page 20))) ≡ none
unfolding hit_from
miss_inside = refl

cache_read-fresh_example :
    (s' : Caches) × (read_call memory (second_page 20) access_data machine cold
      ≡ returned err_none s')
    × (s'.word ≡ word_at garbage.line (phy_addr_to_uint32 (some (second_page 20)) % 16 / 4))
cache_read-fresh_example =
    cache_read-fresh memory access_data machine refl cold (second_page 20) cold-IsEmpty inside_here
      miss_inside

cache_read-miss_ages_example :
    (s' : Caches) × (w : ℕ) × (read_call memory (second_page 16) instruction machine cold
      ≡ returned err_none s')
    × (w < 4)
    × (let place = slot l1_icache (phy_addr_to_uint32 (some (second_page 16)) / 16 % 64) w in
        ((s'.l1 place).age ≡ 0) × ((j : ℕ) → s'.l1 j ≡ (if j == place then s'.l1 place else blank)))
cache_read-miss_ages_example =
    cache_read-miss_ages memory instruction machine refl cold (second_page 16) cold-IsEmpty
      line_here begin_here load_here miss_here

-- Four valid ways of ages 0 to 3 in each line.
abbrev ranked : Cache
ranked j = record { v = 1; age = j % 4; tag = j; line = zero_line }

ranked-IsRanked : IsRanked l1_dcache 4 ranked 2
ranked-IsRanked = record { bound = λ i hi. omega arith; distinct = λ i j hi hj ne. omega arith }

-- Way 1 after ways 3, 0 and 2 in any order: the victim is the way used first.
victim_runs : apply_lru (used l1_dcache 2 (1 ∷ 3 ∷ 0 ∷ 2 ∷ []) ranked) l1_dcache 2 ≡ 2
unfolding apply_lru used lru_age_update
victim_runs = refl

victim_least_recent_example : has 3 (1 ∷ 3 ∷ 0 ∷ []) ≡ true
victim_least_recent_example =
    victim_least_recent l1_dcache 2 ranked ranked-IsRanked (1 ∷ 3 ∷ 0 ∷ []) [] 2 3 (omega arith)
      (sym victim_runs) (omega arith) (omega arith)

lru_age_increase-IsRanked_run : IsRanked l1_dcache 1 (lru_age_increase l1_dcache 0 5 cold.l1) 5
lru_age_increase-IsRanked_run =
    lru_age_increase-IsRanked l1_dcache 0 cold.l1 5 (omega arith) (record {
      bound = λ i hi. absurd (omega arith);
      distinct = λ i j hi hj ne. absurd (omega arith);
    })

-- Every way is valid, with the tag of the address 0x1010.
abbrev held_cache : Cache
held_cache j = record { v = 1; age = j % 4; tag = 4; line = zero_line }

held_cache-IsFilled : (k : CacheKind) (li : ℕ) → IsFilled k held_cache li
held_cache-IsFilled k li = record { bit = λ i h. omega arith; prefix = λ i j lt hj valid. valid }

cache_hit-Stands_example :
    let addr = phy_addr_to_uint32 (some (second_page 16)) in
    let li = addr / 16 % 64 in
    let tag = addr >>> 10 in
    (h : Hit) × (cache_hit
        (some memory)
        (some held_cache)
        (some (second_page 16))
        (some zero_line)
        (some 0)
        (some 0)
        l1_icache
      ≡ returned err_none h)
    × (((w : ℕ) × Stands l1_icache held_cache li tag w × HitAt l1_icache held_cache li w h)
        ⊎ (((w : ℕ) → ¬ (Stands l1_icache held_cache li tag w)) × Missed held_cache zero_line h))
cache_hit-Stands_example =
    cache_hit-Stands memory l1_icache held_cache (second_page 16) zero_line 0 0
      (held_cache-IsFilled l1_icache (phy_addr_to_uint32 (some (second_page 16)) / 16 % 64))

cache_flush_cases_example :
    ((256 < 256)
      × ((t' : Cache) × (cache_flush (some ranked) 256 l1_icache ≡ returned err_none t')
          × ((t' 7).v ≡ 0)
          × ((t' 7).age ≡ 3)))
    ⊎ ((256 ≤ 256) × (cache_flush (some ranked) 256 l1_icache ≡ fault))
cache_flush_cases_example = cache_flush_cases l1_icache ranked 256 7 (omega arith)

cache_read_byte-ReadsByte_example :
    (s' : CachesByte) × (cache_read_byte
        (some memory)
        (some (second_page 16))
        instruction
        (some cold.l1)
        (some cold.l2)
        (some 0)
        (some 7)
        machine
      ≡ returned err_none s')
    × (memory (phy_addr_to_uint32 (some (second_page 16))) ≡ some s'.byte)
    × Holds memory l1_icache s'.l1
    × IsEmpty s'.l2
cache_read_byte-ReadsByte_example =
    cache_read_byte-ReadsByte memory memory-IsMemory instruction machine refl cold (second_page 16)
      second_page-IsPhyAddr (cold-Holds l1_icache) cold-IsEmpty 7 0
      (inr (begin_here, (line_here, load_here)))

abbrev write_machine : WriteMachine
write_machine = record { malloc = λ i. true; fresh = garbage; as_l1 = λ e. e; as_l2 = λ e. e }
