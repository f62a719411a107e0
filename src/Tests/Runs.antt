-- ===== src/Tests/Runs.antt =====
-- Accesses that keep the caches sound, the runs of the drivers and the dump of a page, at concrete
-- inputs.
use kaby_lake_cache_c.Base.{
  ℕ, zero, suc, ◌+◌, ◌*◌, ◌%◌, ◌<◌, ◌≤◌, ◌≡◌, refl, arith, true, some, none, ltb, if◌then◌else◌,
  ◌==◌, get_elem?,
}
use kaby_lake_cache_c.Outcome.{
  err_none, err_policy, err_size, err_last, message_of, not_found, returned,
}
use mathlib.Core.List.{List, [], ◌∷◌, ◌++◌}
use kaby_lake_cache_c.Addr.{phy_addr_to_uint32}
use kaby_lake_cache_c.Memory.{Memory, load32}
use kaby_lake_cache_c.Memory.Print.{
  offset, colon, byte, line_end, fmt_offset, zero_paddr, vmem_page_dump_with_options,
  mem_dump_with_options,
}
use kaby_lake_cache_c.Memory.Shown.{read_bytes}
use kaby_lake_cache_c.Memory.Shows.{Dumped, vmem_page_dump-Dumped}
use kaby_lake_cache_c.TlbHrchy.{access_data, Tlb}
use kaby_lake_cache_c.Cache.Print.{
  RowText, title, row, values, print_cache_line, cache_dump, cache_dump-row,
}
use kaby_lake_cache_c.Cache.{l1_dcache, l2_cache, zero_line, Line, Cache, load_line}
use kaby_lake_cache_c.Cache.Read.{Machine}
use kaby_lake_cache_c.Cache.Sound.{IsSound}
use kaby_lake_cache_c.Cache.Sound.Allocate.{SoundWrite}
use kaby_lake_cache_c.Cache.Sound.Writes.{write_call, cache_write-SoundWrite}
use kaby_lake_cache_c.Cache.Sound.Bytes.{cache_write_byte-SoundWrite}
use kaby_lake_cache_c.Cache.Transparent.{IsEmpty}
use kaby_lake_cache_c.Cache.Write.{WriteMachine}
use kaby_lake_cache_c.Cache.WriteByte.{cache_write_byte}
use kaby_lake_cache_c.Commands.{Command, order_read, order_write}
use kaby_lake_cache_c.Runs.CacheRun.{System, Surroundings, run_lines}
use kaby_lake_cache_c.Runs.Flat.{
  Fits, AllFit, IsGenerous, IsSoundSystem, Ran, flat_lines, run_lines-Ran,
}
use kaby_lake_cache_c.Runs.TlbRun.{simulate}
use kaby_lake_cache_c.Runs.Walks.{Reports, walk_lines, simulate-Reports}
use kaby_lake_cache_c.Tests.Data.{
  memory, memory-IsMemory, here, here-IsVirtAddr, second_page, second_page-IsPhyAddr, walk_here,
}

abbrev cold_cache : Cache
cold_cache j = record { v = 0; age = 0; tag = 0; line = zero_line }

cold_cache-IsSound : (mem : Memory) → IsSound mem l1_dcache cold_cache
cold_cache-IsSound mem = record {
  holds = λ li w hli hw valid. absurd (valid refl);
  filled = λ li. record { bit = λ i hi. omega arith; prefix = λ i j lt hj valid. valid };
  unique = λ li i j hi hj vi. absurd (vi refl);
}

cold_cache-IsEmpty : IsEmpty cold_cache
cold_cache-IsEmpty j = refl

abbrev reads : Machine
reads = record { malloc = true; fresh = cold_cache 0; as_l2 = λ e. e }

abbrev writes : WriteMachine
writes = record { malloc = λ i. true; fresh = cold_cache 0; as_l1 = λ e. e; as_l2 = λ e. e }

-- The line at address 0x1010.
abbrev line_1010 : Line
line_1010 = record { w0 = 0x1312_1110; w1 = 0x1716_1514; w2 = 0x1b1a_1918; w3 = 0x1f1e_1d1c }

load_1010 : load_line memory (phy_addr_to_uint32 (some (second_page 16))) ≡ some line_1010
unfolding load_line load32 phy_addr_to_uint32
load_1010 = refl

word_1010 : load32 memory (phy_addr_to_uint32 (some (second_page 16))) ≡ some 0x1312_1110
unfolding load32 phy_addr_to_uint32
word_1010 = refl

begin_1010 : phy_addr_to_uint32 (some (second_page 16)) % 16 ≡ 0
unfolding phy_addr_to_uint32
begin_1010 = refl

cache_write-SoundWrite_example :
    SoundWrite memory
      (phy_addr_to_uint32 (some (second_page 16)))
      0xdead_beef
      (write_call memory (second_page 16) 0xdead_beef writes cold_cache cold_cache)
cache_write-SoundWrite_example =
    cache_write-SoundWrite memory memory-IsMemory (second_page 16) second_page-IsPhyAddr writes
      (λ i. refl) (λ e. refl) (λ e. refl) cold_cache cold_cache line_1010 0xdead_beef
      (cold_cache-IsSound memory) cold_cache-IsEmpty (omega arith) begin_1010 load_1010

-- A byte 0x01 over the byte 0x10 leaves 0x11.
cache_write_byte-SoundWrite_example :
    SoundWrite memory (phy_addr_to_uint32 (some (second_page 16))) 0x1312_1111 (
      cache_write_byte
        (some memory)
        (some (second_page 16))
        (some cold_cache)
        (some cold_cache)
        (some 1)
        (some 7)
        reads
        writes)
cache_write_byte-SoundWrite_example =
    cache_write_byte-SoundWrite memory memory-IsMemory (second_page 16) second_page-IsPhyAddr reads
      refl writes (λ i. refl) (λ e. refl) (λ e. refl) cold_cache cold_cache line_1010 0x1312_1110 1
      7 (cold_cache-IsSound memory) cold_cache-IsEmpty (omega arith) begin_1010 load_1010 word_1010

-- Line 0 is a read of a word at `here`, every other line a write there.
abbrev listing : ℕ → Command
listing i = record {
  order = if i == 0 then order_read else order_write;
  type = access_data;
  data_size = 4;
  write_data = if i == 0 then 0 else 0xdead_beef;
  vaddr = here;
}

abbrev around_each : ℕ → Surroundings
around_each i = record {
  reads = reads;
  writes = writes;
  cell = some 5;
  paddr = zero_paddr;
  word = 3;
  byte = 3;
}

around_each-IsGenerous : (i : ℕ) → IsGenerous (around_each i)
around_each-IsGenerous i = record {
  reads = refl;
  writes = λ j. refl;
  as_l1 = λ e. refl;
  as_l2 = λ e. refl;
  cell = 5;
  cell_given = refl;
}

abbrev cold_system : System
cold_system = record {
  mem = memory;
  icache = cold_cache;
  dcache = cold_cache;
  l2 = cold_cache;
  out = [];
}

cold_system-IsSound : IsSoundSystem cold_system
cold_system-IsSound = record {
  bytes = memory-IsMemory;
  dcache = cold_cache-IsSound memory;
  l2 = cold_cache-IsEmpty;
}

listing-Fits : (i : ℕ) → i < 2 → Fits memory (listing i)
listing-Fits i h = record {
  vaddr = here-IsVirtAddr;
  value = ground arith;
  size = λ e. refl;
  paddr = second_page 16;
  found = walk_here;
  begin = begin_1010;
  line = line_1010;
  there = load_1010;
}

listing-AllFit : AllFit listing 2 0 memory
listing-AllFit = (listing-Fits 0 (omega arith), (rw walk_here (listing-Fits 1 (omega arith)), tt))

run_lines-Ran_example :
    Ran (flat_lines listing 2 0 memory) (run_lines listing around_each 2 0 cold_system)
run_lines-Ran_example =
    run_lines-Ran listing around_each around_each-IsGenerous 2 0 cold_system cold_system-IsSound
      listing-AllFit

abbrev garbage_tlb : Tlb
garbage_tlb i = record { tag = i; phy_page_num = 77; v = 1 }

simulate-Reports_example :
    Reports
      (walk_lines listing memory 2 0 (record { phy_page_num = 0; page_offset = 0 }))
      (simulate listing 2 (λ i j. true) memory garbage_tlb garbage_tlb garbage_tlb)
simulate-Reports_example =
    simulate-Reports listing (λ i j. true) memory memory-IsMemory (λ i j. refl)
      (λ i. here-IsVirtAddr) 2 garbage_tlb garbage_tlb garbage_tlb

-- Bytes 7 to 11.
abbrev five_bytes : Memory
five_bytes a = if ltb a 5 then some (a + 7) else none

-- The remainders by 256 of `left` numbers from `a`.
abbrev remainders : (a left : ℕ) → List ℕ
remainders a zero = []
remainders a (suc left) = a % 256 ∷ remainders (a + 1) left

read_remainders :
    (a left : ℕ) → 4096 ≤ a → a + left ≤ 8192 → read_bytes memory a left ≡ some (remainders a left)
read_remainders a zero from to = refl
read_remainders a (suc left) from to =
    let there : memory a ≡ some (a % 256) = ground arith in
    rw (there, read_remainders (a + 1) left (omega arith) (omega arith)) refl

vmem_page_dump-Dumped_example :
    Dumped
      (remainders 4096 4096)
      (vmem_page_dump_with_options (some memory) (some here) fmt_offset 16)
vmem_page_dump-Dumped_example =
    vmem_page_dump-Dumped memory here (second_page 16) fmt_offset 16 (remainders 4096 4096)
      memory-IsMemory here-IsVirtAddr walk_here (omega arith) (omega arith)
      (read_remainders 4096 4096 (omega arith) (omega arith))

-- Two lines of two bytes, the second one short.
dump_runs :
    mem_dump_with_options five_bytes 0 2 5 fmt_offset 2
    ≡ some (
        offset 2 ∷ colon ∷ byte 9 ∷ byte 10 ∷ line_end ∷ offset 4 ∷ colon ∷ byte 11 ∷ line_end ∷ [])
unfolding mem_dump_with_options
dump_runs = refl

-- Every way holds a tag of 17 bits.
abbrev tall_cache : Cache
tall_cache j = record { v = 1; age = 3; tag = 0x1_01ab; line = zero_line }

cache_dump-row_run :
    (rows : List RowText) × (cache_dump (some []) (some tall_cache) l2_cache
      ≡ returned err_none ([] ++ (title ∷ rows)))
    × (get_elem? rows (2 * 8 + 5) ≡ some (row 5 2 (values 1 3 0x1ab zero_line)))
unfolding print_cache_line
cache_dump-row_run = cache_dump-row [] tall_cache l2_cache 2 5 (omega arith) (omega arith)

-- Two codes have one message, and the last but one text stands at ERR_LAST.
messages_run :
    (message_of err_policy ≡ message_of err_size) × (message_of err_last ≡ some not_found)
unfolding message_of
messages_run = (refl, refl)
