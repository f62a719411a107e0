-- ===== src/Runs/CacheRun.antt =====
-- test-cache.c: `execute_command`, and the loop of `main` over the lines of a program. `assert` is on, as in a build without NDEBUG.
use kaby_lake_cache_c.Base.{ℕ, zero, suc, ◌+◌, Option, none, some, ◌==◌, if◌then◌else◌, u8}
use kaby_lake_cache_c.Outcome.{err_none, Outcome, returned, refused, fault}
use mathlib.Core.List.{List, [], ◌∷◌, ◌++◌, map}
use kaby_lake_cache_c.Addr.{PhyAddr}
use kaby_lake_cache_c.Memory.{Memory}
use kaby_lake_cache_c.PageWalk.{page_walk}
use kaby_lake_cache_c.TlbHrchy.{MemAccess, instruction, access_data}
use kaby_lake_cache_c.Cache.{CacheKind, l1_icache, l1_dcache, l2_cache, Cache}
use kaby_lake_cache_c.Cache.Print.{RowText, cache_dump}
use kaby_lake_cache_c.Cache.Bytes.{CachesByte, cache_read_byte}
use kaby_lake_cache_c.Cache.Read.{Caches, Machine, cache_read}
use kaby_lake_cache_c.Cache.Write.{Store, WriteMachine, cache_write}
use kaby_lake_cache_c.Cache.WriteByte.{cache_write_byte}
use kaby_lake_cache_c.Commands.{Command, order_read, order_write}

-- The texts that the loop writes: the title of a cache, what `cache_dump` writes, and a rule.
pub data LoopText : Type 0 where
  cache_title : CacheKind → LoopText
  cache_text : RowText → LoopText
  rule : LoopText

-- `mem_space`, the three caches, and what stands in the output.
pub record System : Type 0 where
  pub mem : Memory
  pub icache : Cache
  pub dcache : Cache
  pub l2 : Cache
  pub out : List LoopText

-- What the machine gives one call of `execute_command`: the allocations of the operation, and what
-- stands in the local variables, which have no initial value.
pub record Surroundings : Type 0 where
  pub reads : Machine
  pub writes : WriteMachine
  pub cell : Option ℕ
  pub paddr : PhyAddr
  pub word : ℕ
  pub byte : ℕ

-- The program goes on, a failed `assert` ends it, or it does what C leaves undefined.
pub data Executed : Type 0 where
  done : System → Executed
  aborted : Executed
  undefined : Executed

-- The level-1 cache of a read.
abbrev pub l1_of : MemAccess → System → Cache
l1_of instruction s = s.icache
l1_of access_data s = s.dcache

abbrev pub with_l1 : MemAccess → Cache → Cache → System → System
with_l1 instruction l1 l2 s = record s { icache = l1; l2 = l2 }
with_l1 access_data l1 l2 s = record s { dcache = l1; l2 = l2 }

-- The codes that the operations return are not looked at.
abbrev pub after_cache_read : Outcome Caches → MemAccess → System → Executed
after_cache_read (returned _ c) type s = done (with_l1 type c.l1 c.l2 s)
after_cache_read (refused _) type s = done s
after_cache_read fault type s = undefined

abbrev pub after_cache_read_byte : Outcome CachesByte → MemAccess → System → Executed
after_cache_read_byte (returned _ c) type s = done (with_l1 type c.l1 c.l2 s)
after_cache_read_byte (refused _) type s = done s
after_cache_read_byte fault type s = undefined

abbrev pub after_cache_write : Outcome Store → System → Executed
after_cache_write (returned _ w) s = done (record s { mem = w.mem; dcache = w.l1; l2 = w.l2 })
after_cache_write (refused _) s = done s
after_cache_write fault s = undefined

-- `cache_write_byte` with a pointer that is not NULL and leads nowhere: it is followed once the word
-- is read.
abbrev pub after_lost_pointer : Outcome Caches → System → Executed
after_lost_pointer (returned err_none c) s = undefined
after_lost_pointer (returned _ c) s = done (record s { dcache = c.l1; l2 = c.l2 })
after_lost_pointer (refused _) s = done s
after_lost_pointer fault s = undefined

abbrev pub lost_pointer : Surroundings → PhyAddr → System → Executed
lost_pointer around p s = elim around.cell [
  | none ↦ done s
  | some cell ↦
      after_lost_pointer
        (cache_read (some s.mem) (some p) access_data (some s.dcache) (some s.l2) (some cell)
          around.reads)
        s
]

-- A read of a word or a byte.
unfoldable pub execute_read : Command → Surroundings → PhyAddr → System → Executed
execute_read command around p s =
    let l1_cache = l1_of command.type s in
    if command.data_size == 4
    then after_cache_read
        (cache_read (some s.mem) (some p) command.type (some l1_cache) (some s.l2)
          (some around.word) around.reads)
        command.type s
    else after_cache_read_byte
        (cache_read_byte (some s.mem) (some p) command.type (some l1_cache) (some s.l2)
          (some around.byte) around.cell around.reads)
        command.type s

-- A write of a word or a byte. The byte itself is passed as the pointer to the byte: it is NULL if
-- the byte is zero.
unfoldable pub execute_write : Command → Surroundings → PhyAddr → System → Executed
execute_write command around p s =
    if command.data_size == 4
    then after_cache_write
        (cache_write (some s.mem) (some p) (some s.dcache) (some s.l2) (some command.write_data)
          around.writes)
        s
    else if u8 command.write_data == 0
    then after_cache_write
        (cache_write_byte (some s.mem) (some p) (some s.dcache) (some s.l2) none around.cell
          around.reads around.writes)
        s
    else lost_pointer around p s

-- What `execute_command` does with the outcome of `page_walk`.
abbrev pub with_paddr : Outcome PhyAddr → Command → Surroundings → System → Executed
with_paddr (returned err_none p) command around s = elim command.order [
  | order_read ↦ execute_read command around p s
  | order_write ↦ execute_write command around p s
]
with_paddr (returned _ p) command around s = aborted
with_paddr (refused _) command around s = aborted
with_paddr fault command around s = undefined

unfoldable pub execute_command : Command → Surroundings → System → Executed
unfolding execute_read execute_write
execute_command command around s =
    with_paddr (page_walk (some s.mem) (some command.vaddr) (some around.paddr)) command around s

abbrev pub dumped : Outcome (List RowText) → List RowText
dumped (returned _ texts) = texts
dumped (refused _) = []
dumped fault = []

-- A title and the dump of a cache.
unfoldable pub show_cache : CacheKind → Cache → List LoopText
show_cache k t = cache_title k ∷ map cache_text (dumped (cache_dump (some []) (some t) k))

-- What the loop writes after a command.
unfoldable pub show_caches : System → System
unfolding show_cache
show_caches s = record s {
  out =
      s.out
      ++ (show_cache l1_icache s.icache
          ++ (show_cache l1_dcache s.dcache ++ (show_cache l2_cache s.l2 ++ rule ∷ [])));
}

abbrev pub and_then : Executed → (System → Executed) → Executed
and_then (done s) next = next s
and_then aborted next = aborted
and_then undefined next = undefined

-- `for_all_lines`: `left` lines from line `i`.
unfoldable pub run_lines :
    (listing : ℕ → Command) → (around : ℕ → Surroundings) → (left i : ℕ) → System → Executed
unfolding execute_command show_caches
run_lines listing around zero i s = done s
run_lines listing around (suc left) i s =
    and_then (execute_command (listing i) (around i) s)
      λ s'. run_lines listing around left (i + 1) (show_caches s')
