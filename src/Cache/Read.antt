-- ===== src/Cache/Read.antt =====
-- `cache_read` of cache_mng.c, with the macros `hit_L2` and `not_hit_L1_or_L2` of cache.h and
-- `index_from_l2_to_l1`.
use kaby_lake_cache_c.Base.{
  ℕ, ◌+◌, ◌*◌, ◌%◌, bit_and, Bool, ◌&&◌, Option, none, some, ltb, ◌==◌, if◌then◌else◌, update,
  ◌>>>◌,
}
use kaby_lake_cache_c.Outcome.{err_none, err_bad_parameter, Outcome, returned, fault, ◌>>=◌}
use kaby_lake_cache_c.Addr.{PhyAddr, bits, phy_addr_to_uint32}
use kaby_lake_cache_c.Memory.{Memory}
use kaby_lake_cache_c.TlbHrchy.{MemAccess, instruction, access_data}
use kaby_lake_cache_c.Cache.{
  CacheKind, l1_icache, l1_dcache, l2_cache, ways, lines, word_at, zero_line, CacheEntry, Cache,
  slot, hit_way_miss, entry_at, put,
}
use kaby_lake_cache_c.Cache.Lru.{lru_age_update, lru_age_increase, apply_lru, find_place}
use kaby_lake_cache_c.Cache.Hit.{find_line}

-- The objects that `cache_read` writes through its pointers.
pub record Caches : Type 0 where
  pub l1 : Cache
  pub l2 : Cache
  pub word : ℕ

-- What the code takes from the machine: whether the call of `malloc` for the new entry succeeds, what
-- that memory holds, and how the bytes of a level-1 entry read as a level-2 entry.
pub record Machine : Type 0 where
  pub malloc : Bool
  pub fresh : CacheEntry
  pub as_l2 : CacheEntry → CacheEntry

-- The entries of a cache that its array has.
abbrev pub size : CacheKind → ℕ
size k = lines k * ways k

abbrev pub kind_of : MemAccess → CacheKind
kind_of instruction = l1_icache
kind_of access_data = l1_dcache

-- The way that a new entry goes to.
abbrev pub place_or_victim : Cache → CacheKind → (line_index : ℕ) → ℕ
place_or_victim t k line_index =
    let nway = find_place t k line_index in
    if nway == hit_way_miss then apply_lru t k line_index else nway

-- The entry that not_hit_L1_or_L2 inserts. The code of `cache_entry_init` is not looked at: where it
-- refuses an address that is not at the begin of a line, the entry stays as `malloc` gave it.
unfoldable pub new_entry : Memory → (addr : ℕ) → CacheKind → Machine → Option CacheEntry
new_entry mem addr k m = if addr % 16 == 0 then entry_at mem addr k else some m.fresh

-- Its insertion, and the word that is read back from the cache.
unfoldable pub insert_new : CacheKind → (line_1 word_select : ℕ) → CacheEntry → Caches → Caches
insert_new k line_1 word_select e s =
    let nway = place_or_victim s.l1 k line_1 in
    let l1' = lru_age_update k nway line_1 (put line_1 nway e s.l1 k) in
    record s { l1 = l1'; word = word_at (l1' (slot k line_1 nway)).line word_select }

abbrev pub insert_or_fault :
    Option CacheEntry → CacheKind → (line_1 word_select : ℕ) → Caches → Outcome Caches
insert_or_fault none k line_1 word_select s = fault
insert_or_fault (some e) k line_1 word_select s =
    returned err_none (insert_new k line_1 word_select e s)

-- The macro not_hit_L1_or_L2.
unfoldable pub not_hit :
    Memory → (addr word_select : ℕ) → CacheKind → Machine → Caches → Outcome Caches
unfolding new_entry insert_new
not_hit mem addr word_select k m s =
    let line_1 = bit_and (bit_and addr 0b11_1111_0000 >>> 4) 0b11_1111 in
    if m.malloc
    then insert_or_fault (new_entry mem addr k m) k line_1 word_select s
    else returned err_bad_parameter s

-- The level-2 insertion at the end of hit_L2.
unfoldable pub evict_to_l2 : (indexl2 : ℕ) → CacheEntry → Machine → Cache → Cache
evict_to_l2 indexl2 old m l2 =
    let l2way = find_place l2 l2_cache indexl2 in
    if l2way == hit_way_miss
    then (let waydel = apply_lru l2 l2_cache indexl2 in
        lru_age_update l2_cache waydel indexl2 (put indexl2 waydel (m.as_l2 old) l2 l2_cache))
    else lru_age_increase l2_cache l2way indexl2 (put indexl2 l2way (m.as_l2 old) l2 l2_cache)

-- hit_L2 once the new entry is made. `old_entry` is read with the number of lines in place of the
-- number of ways.
unfoldable pub move_up :
    CacheKind → (line_1 indexl2 word_select : ℕ) → CacheEntry → Machine → Caches → Outcome Caches
unfolding evict_to_l2
move_up k line_1 indexl2 word_select e m s =
    let nway = find_place s.l1 k line_1 in
    if nway == hit_way_miss
    then (let waydel = apply_lru s.l1 k line_1 in
        let at_old = line_1 * lines k + waydel in
        let l1' = lru_age_update k waydel line_1 (put line_1 waydel e s.l1 k) in
        if ltb at_old (size k)
        then returned err_none (record {
          l1 = l1';
          l2 = evict_to_l2 indexl2 (s.l1 at_old) m s.l2;
          word = word_at (l1' (slot k line_1 waydel)).line word_select;
        })
        else fault)
    else returned err_none
        (record s { l1 = lru_age_increase k nway line_1 (put line_1 nway e s.l1 k) })

-- The macro hit_L2. The level-2 entry is read with the number of lines in place of the number of ways,
-- and the one that is marked INVALID is reached from `cache`, which is still the level-1 cache.
unfoldable pub hit_l2 :
    (addr word_select : ℕ) → CacheKind → (indexl2 hit_way : ℕ) → Machine → Caches → Outcome Caches
unfolding move_up
hit_l2 addr word_select k indexl2 hit_way m s =
    let line_1 = bit_and addr 0b11_1111_0000 >>> 4 in
    let wrong = indexl2 * lines l2_cache + hit_way in
    let e = record (m.fresh) { v = 1; tag = bits 22 (addr >>> 10); line = (s.l2 wrong).line } in
    if m.malloc
    then (if ltb wrong (size l2_cache) && ltb wrong (size k)
        then move_up k line_1 indexl2 word_select e m
            (record s { l1 = update s.l1 wrong (record (s.l1 wrong) { v = 0 }) })
        else fault)
    else returned err_bad_parameter s

-- After a level-1 miss. The body of `cache_read` from its second `cache_hit`.
unfoldable pub read_l2 :
    Memory → (addr word_select : ℕ) → CacheKind → Machine → Caches → Outcome Caches
unfolding find_line hit_l2 not_hit
read_l2 mem addr word_select k m s =
    let h = find_line addr s.l2 zero_line l2_cache in
    if h.hit_way == hit_way_miss
    then not_hit mem addr word_select k m (record s { l2 = h.cache })
    else hit_l2 addr word_select k h.hit_index h.hit_way m (record s { l2 = h.cache })

-- `cache_read` at a 32-bit address, past its NULL checks. The `calloc` of `p_line` gives memory.
unfoldable pub read : Memory → (addr : ℕ) → CacheKind → Machine → Caches → Outcome Caches
unfolding find_line read_l2
read mem addr k m s =
    let word_select = bit_and addr 0b1111 >>> 2 in
    let h = find_line addr s.l1 zero_line k in
    if h.hit_way == hit_way_miss
    then read_l2 mem addr word_select k m (record s { l1 = h.cache })
    else returned err_none (record s {
      l1 = h.cache;
      word = word_at (h.cache (slot k h.hit_index h.hit_way)).line word_select;
    })

unfoldable pub cache_read :
    Option Memory
    → Option PhyAddr
    → MemAccess
    → Option Cache
    → Option Cache
    → Option ℕ
    → Machine
    → Outcome Caches
unfolding read
cache_read mem_space paddr access l1_cache l2 word m = do
  mem ← mem_space
  p ← paddr
  t1 ← l1_cache
  t2 ← l2
  w ← word
  read mem (phy_addr_to_uint32 (some p)) (kind_of access) m (record { l1 = t1; l2 = t2; word = w })
