-- ===== src/Cache.antt =====
-- cache.h, lru.h and cache_mng.c: the set-associative caches and the operations on one cache. The
-- three entry types of the source have the same fields and differ in the widths of `age` and `tag`:
-- they are one record, and the widths are applied where a field is stored. A cache is an array of
-- entries, read as a function of the flat index `line * ways + way`.
pub mod Lru
pub mod Hit
pub mod Read
pub mod Ages
pub mod Ranking
pub mod Victim
pub mod Contents
pub mod Correct
pub mod Transparent
pub mod Refetch
pub mod Misses
pub mod Filled
pub mod Entered
pub mod Refill
pub mod Again
pub mod Flush
pub mod Bytes
pub mod Write
pub mod WriteByte
pub mod Sound
pub mod Print
use kaby_lake_cache_c.Base.{
  ℕ, zero, suc, ◌+◌, ◌-◌, ◌*◌, ◌/◌, ◌%◌, ◌^◌, bit_and, Bool, true, false, ◌&&◌, ◌||◌, Option, none,
  some, ltb, leb, ◌==◌, if◌then◌else◌, update, ◌>>>◌,
}
use kaby_lake_cache_c.Outcome.{
  ErrorCode, err_none, err_bad_parameter, Outcome, returned, refused, fault, require, ◌>>=◌, ◌>>◌,
}
use kaby_lake_cache_c.Addr.{PhyAddr, bits, phy_addr_to_uint32}
use kaby_lake_cache_c.Memory.{Memory, load32}

-- `cache_t`
pub data CacheKind : Type 0 where
  l1_icache l1_dcache l2_cache : CacheKind

abbrev pub ways : CacheKind → ℕ
ways l1_icache = 4
ways l1_dcache = 4
ways l2_cache = 8

abbrev pub lines : CacheKind → ℕ
lines l1_icache = 64
lines l1_dcache = 64
lines l2_cache = 512

abbrev pub tag_remaining_bits : CacheKind → ℕ
tag_remaining_bits l1_icache = 10
tag_remaining_bits l1_dcache = 10
tag_remaining_bits l2_cache = 13

abbrev pub tag_bits : CacheKind → ℕ
tag_bits l1_icache = 22
tag_bits l1_dcache = 22
tag_bits l2_cache = 19

abbrev pub age_bits : CacheKind → ℕ
age_bits l1_icache = 2
age_bits l1_dcache = 2
age_bits l2_cache = 3

-- The four words of a line.
pub record Line : Type 0 where
  pub w0 : ℕ
  pub w1 : ℕ
  pub w2 : ℕ
  pub w3 : ℕ

abbrev pub word_at : Line → ℕ → ℕ
word_at l i = if i == 0 then l.w0 else if i == 1 then l.w1 else if i == 2 then l.w2 else l.w3

abbrev pub zero_line : Line
zero_line = record { w0 = 0; w1 = 0; w2 = 0; w3 = 0 }

pub record CacheEntry : Type 0 where
  pub v : ℕ
  pub age : ℕ
  pub tag : ℕ
  pub line : Line

abbrev pub Cache : Type 0
Cache = ℕ → CacheEntry

-- The macro `cache_entry`: the flat index of a way of a line.
abbrev pub slot : CacheKind → (line_index way : ℕ) → ℕ
slot k line_index way = line_index * ways k + way

-- HIT_WAY_MISS and HIT_INDEX_MISS
abbrev pub hit_way_miss : ℕ
hit_way_miss = 0xff

abbrev pub hit_index_miss : ℕ
hit_index_miss = 0xffff

unfoldable pub join_words : Option ℕ → Option ℕ → Option ℕ → Option ℕ → Option Line
join_words (some w0) (some w1) (some w2) (some w3) =
    some (record { w0 = w0; w1 = w1; w2 = w2; w3 = w3 })
join_words _ _ _ _ = none

-- The four words from byte `a`; `none` for a read outside the memory.
unfoldable pub load_line : Memory → ℕ → Option Line
unfolding join_words
load_line mem a =
    join_words (load32 mem a) (load32 mem (a + 4)) (load32 mem (a + 8)) (load32 mem (a + 12))

abbrev pub entry_with : (addr : ℕ) → CacheKind → Option Line → Option CacheEntry
entry_with addr k none = none
entry_with addr k (some l) =
    some
      (record { v = 1; age = 0; tag = bits (tag_bits k) (addr >>> tag_remaining_bits k); line = l })

-- The macro `cache_init`; `none` for a read outside the memory.
unfoldable pub entry_at : Memory → (addr : ℕ) → CacheKind → Option CacheEntry
entry_at mem addr k = entry_with addr k (load_line mem addr)

abbrev pub or_fault : {S : Type 0} → Option S → Outcome S
or_fault none = fault
or_fault (some s) = returned err_none s

unfoldable pub cache_entry_init :
    Option Memory → Option PhyAddr → Option CacheEntry → CacheKind → Outcome CacheEntry
unfolding entry_at
cache_entry_init mem_space paddr cache_entry cache_type = do
  mem ← mem_space
  p ← paddr
  e ← cache_entry
  require (phy_addr_to_uint32 (some p) % 16 == 0) err_bad_parameter
  or_fault (entry_at mem (phy_addr_to_uint32 (some p)) cache_type)

-- `left` rounds of the loop of the macro `flush`, from entry `i`. Only its first statement stands in
-- the loop.
unfoldable pub invalidate_from : (left i : ℕ) → Cache → Cache
invalidate_from zero i t = t
invalidate_from (suc left) i t = invalidate_from left (i + 1) (update t i (record (t i) { v = 0 }))

-- What follows the loop: `tag` and `age` of the entry past the last, and the first entry's line.
unfoldable pub flush_rest : (size : ℕ) → Cache → Cache
flush_rest size t =
    let t1 = update t size (record (t size) { tag = 0; age = 0 }) in
    update t1 0 (record (t1 0) { line = zero_line })

-- `room` is the number of entries that the array has.
unfoldable pub cache_flush : Option Cache → (room : ℕ) → CacheKind → Outcome Cache
unfolding invalidate_from flush_rest
cache_flush cache room cache_type = do
  t ← cache
  let size = lines cache_type * ways cache_type
  if ltb size room then returned err_none (flush_rest size (invalidate_from size 0 t)) else fault

-- The macro `insert`. Out of range, nothing is written, and the code is ERR_NONE too.
unfoldable pub put : (line_index way : ℕ) → CacheEntry → Cache → CacheKind → Cache
put line_index way e t k =
    if leb (lines k) line_index || leb (ways k) way
    then t
    else update t (slot k line_index way) (record {
      v = bits 1 e.v;
      age = bits (age_bits k) e.age;
      tag = bits (tag_bits k) e.tag;
      line = e.line;
    })

unfoldable pub cache_insert :
    (cache_line_index cache_way : ℕ) → Option CacheEntry → Option Cache → CacheKind → Outcome Cache
unfolding put
cache_insert cache_line_index cache_way cache_line_in cache cache_type = do
  e ← cache_line_in
  t ← cache
  returned err_none (put cache_line_index cache_way e t cache_type)
