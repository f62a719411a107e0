-- ===== src/Cache/Write.antt =====
-- `cache_write` of cache_mng.c: write-through, with allocation in the level-1 data cache.
pub mod Stored
pub mod Lands
use kaby_lake_cache_c.Base.{
  ℕ, ◌+◌, ◌-◌, ◌*◌, ◌/◌, ◌%◌, ◌^◌, bit_and, Bool, ◌&&◌, Option, none, some, ltb, leb, ◌==◌,
  if◌then◌else◌, update, ◌>>>◌,
}
use kaby_lake_cache_c.Outcome.{
  ErrorCode, err_none, err_bad_parameter, Outcome, returned, refused, fault, require, ◌>>=◌, ◌>>◌,
}
use kaby_lake_cache_c.Addr.{PhyAddr, bits, phy_addr_to_uint32}
use kaby_lake_cache_c.Memory.{Memory}
use kaby_lake_cache_c.Cache.{
  l1_dcache, l2_cache, lines, Line, word_at, zero_line, CacheEntry, Cache, slot, hit_way_miss,
  load_line, put,
}
use kaby_lake_cache_c.Cache.Lru.{lru_age_update, lru_age_increase, apply_lru, find_place}
use kaby_lake_cache_c.Cache.Hit.{find_line}
use kaby_lake_cache_c.Cache.Read.{Machine, size, new_entry}

-- The objects that `cache_write` writes through its pointers.
pub record Store : Type 0 where
  pub mem : Memory
  pub l1 : Cache
  pub l2 : Cache

-- What the code takes from the machine: which allocations succeed (0 and 1 the two lines at the begin,
-- 2 the new line, 3 the new entry, 4 the old entry), what the memory of a new entry holds, and how a
-- level-2 entry reads as a level-1 entry and back.
pub record WriteMachine : Type 0 where
  pub malloc : ℕ → Bool
  pub fresh : CacheEntry
  pub as_l1 : CacheEntry → CacheEntry
  pub as_l2 : CacheEntry → CacheEntry

-- `line[i] = word`
abbrev pub set_word : Line → ℕ → ℕ → Line
set_word l i word =
    if i == 0
    then record l { w0 = word }
    else if i == 1
    then record l { w1 = word }
    else if i == 2
    then record l { w2 = word }
    else record l { w3 = word }

-- Byte `i` of the 16 bytes of a line.
abbrev pub byte_at : Line → ℕ → ℕ
byte_at l i = word_at l (i / 4) / 2 ^ (i % 4 * 8) % 256

abbrev pub overwrite : Option Line → Memory → ℕ → Line → Option Memory
overwrite none mem a l = none
overwrite (some before) mem a l =
    some (λ j. if leb a j && ltb j (a + 16) then some (byte_at l (j - a)) else mem j)

-- `memcpy(mem_space + a, line, 4 * sizeof(word_t))`; `none` outside the memory.
unfoldable pub store_line : Memory → ℕ → Line → Option Memory
store_line mem a l = overwrite (load_line mem a) mem a l

abbrev pub stored : Option Memory → (Memory → Outcome Store) → Outcome Store
stored none k = fault
stored (some mem) k = k mem

abbrev pub with_line : Option Line → (Line → Outcome Store) → Outcome Store
with_line none k = fault
with_line (some l) k = k l

-- An entry goes to a way that is not valid, or to the oldest.
abbrev pub insert_l2 : (index : ℕ) → CacheEntry → Cache → Cache
insert_l2 index old l2 =
    let way = find_place l2 l2_cache index in
    if way == hit_way_miss
    then (let way2 = apply_lru l2 l2_cache index in
        lru_age_update l2_cache way2 index (put index way2 old l2 l2_cache))
    else lru_age_increase l2_cache way index (put index way old l2 l2_cache)

abbrev pub with_entry : Option CacheEntry → (CacheEntry → Outcome Store) → Outcome Store
with_entry none k = fault
with_entry (some e) k = k e

-- A hit in the level-1 cache; `s.l1` is the cache after `cache_hit`.
unfoldable pub write_l1_hit :
    (addr word_index word : ℕ) (hit_index hit_way : ℕ) → Line → WriteMachine → Store → Outcome Store
unfolding store_line
write_l1_hit addr word_index word hit_index hit_way p_line m s =
    let new_line = set_word p_line word_index word in
    let place = slot l1_dcache hit_index hit_way in
    let t = update s.l1 place (record (s.l1 place) { line = new_line }) in
    if m.malloc 2
    then (stored (store_line s.mem addr new_line) λ mem'.
        returned err_none
          (record { mem = mem'; l1 = lru_age_update l1_dcache hit_way hit_index t; l2 = s.l2 }))
    else returned err_bad_parameter s

-- The level-1 insertion after a hit in the level-2 cache. The line of the entry that goes to level 2
-- is read at the way that `find_place` gave, HIT_WAY_MISS.
unfoldable pub promote : (addr hit_index : ℕ) → CacheEntry → WriteMachine → Store → Outcome Store
promote addr hit_index newentry m s =
    let index_l1 = bit_and hit_index 0b11_1111 in
    let way_l1 = find_place s.l1 l1_dcache hit_index in
    let waydel = apply_lru s.l1 l1_dcache index_l1 in
    let at_old = slot l1_dcache index_l1 way_l1 in
    let old_entry : CacheEntry = record {
      v = 1;
      age = 0;
      tag = bits 19 (addr >>> 13);
      line = (s.l1 at_old).line;
    } in
    if way_l1 == hit_way_miss
    then (if m.malloc 4 && ltb at_old (size l1_dcache)
        then returned err_none (record s {
          l1 =
              lru_age_update l1_dcache waydel index_l1
                (put index_l1 waydel newentry s.l1 l1_dcache);
          l2 = insert_l2 hit_index old_entry s.l2;
        })
        else fault)
    else returned err_none (record s {
      l1 = lru_age_increase l1_dcache way_l1 index_l1 (put index_l1 way_l1 newentry s.l1 l1_dcache);
    })

-- A hit in the level-2 cache; `s.l2` is the cache after `cache_hit`. The new entry's line is read with
-- the number of lines in place of the number of ways.
unfoldable pub write_l2_hit :
    (addr word_index word : ℕ) (hit_index hit_way : ℕ) → Line → WriteMachine → Store → Outcome Store
unfolding store_line promote
write_l2_hit addr word_index word hit_index hit_way p_line m s =
    let new_line = set_word p_line word_index word in
    let place = slot l2_cache hit_index hit_way in
    let t = update s.l2 place (record (s.l2 place) { line = new_line }) in
    let l2' = lru_age_update l2_cache hit_way hit_index t in
    let wrong = hit_index * lines l2_cache + hit_way in
    let newentry = record (m.fresh) { v = 1; line = (l2' wrong).line } in
    if m.malloc 2
    then (if m.malloc 3
        then (if ltb wrong (size l2_cache)
            then (stored (store_line s.mem addr new_line)
                λ mem'. promote addr hit_index newentry m (record s { mem = mem'; l2 = l2' }))
            else fault)
        else returned err_bad_parameter (record s { l2 = l2' }))
    else returned err_bad_parameter s

-- The level-1 insertion after a miss in both caches. `insertion` is `cache_insert` of the new entry at
-- a way.
unfoldable pub allocate :
    (addr : ℕ) → (insertion : ℕ → Cache → Cache) → WriteMachine → Store → Outcome Store
allocate addr insertion m s =
    let newindex = bit_and (addr >>> 4) 0b11_1111 in
    let wayld = find_place s.l1 l1_dcache newindex in
    let waydel2 = apply_lru s.l1 l1_dcache newindex in
    let out = s.l1 (slot l1_dcache newindex waydel2) in
    let old_entry : CacheEntry = record {
      v = 0;
      age = 0;
      tag = bits 19 (out.tag >>> 3);
      line = out.line;
    } in
    if wayld == hit_way_miss
    then (if m.malloc 4
        then returned err_none (record s {
          l1 = lru_age_update l1_dcache waydel2 newindex (insertion waydel2 s.l1);
          l2 = insert_l2 (bit_and (addr >>> 4) 0b1_1111_1111) old_entry s.l2;
        })
        else fault)
    else returned err_none
        (record s { l1 = lru_age_increase l1_dcache wayld newindex (insertion wayld s.l1) })

-- The new entry. Without memory for it `cache_insert` gets NULL and refuses, which is not looked at.
unfoldable pub allocate_new : (addr : ℕ) → WriteMachine → Store → Outcome Store
unfolding allocate
allocate_new addr m s =
    let machine : Machine = record { malloc = m.malloc 3; fresh = m.fresh; as_l2 = m.as_l2 } in
    if m.malloc 3
    then (with_entry (new_entry s.mem addr l1_dcache machine) λ newd.
        allocate addr (λ way t. put (bit_and (addr >>> 4) 0b11_1111) way newd t l1_dcache) m s)
    else allocate addr (λ way t. t) m s

-- A miss in both caches: the word goes into the four words of memory from the address on.
unfoldable pub write_miss : (addr word_index word : ℕ) → WriteMachine → Store → Outcome Store
unfolding store_line allocate_new
write_miss addr word_index word m s =
    if m.malloc 2
    then (with_line (load_line s.mem addr) λ mem_line.
        stored (store_line s.mem addr (set_word mem_line word_index word))
          λ mem'. allocate_new addr m (record s { mem = mem' }))
    else fault

-- After a miss in the level-1 cache. The level-2 cache is searched as if it were a level-1 cache.
unfoldable pub write_l2 : (addr word_index word : ℕ) → WriteMachine → Store → Outcome Store
unfolding find_line write_l2_hit write_miss
write_l2 addr word_index word m s =
    let h = find_line addr (λ j. m.as_l1 (s.l2 j)) zero_line l1_dcache in
    let s' = record s { l2 = λ j. m.as_l2 (h.cache j) } in
    if h.hit_way == hit_way_miss
    then write_miss addr word_index word m s'
    else write_l2_hit addr word_index word h.hit_index h.hit_way h.p_line m s'

-- `cache_write` past its checks.
unfoldable pub write : (addr word : ℕ) → WriteMachine → Store → Outcome Store
unfolding find_line write_l1_hit write_l2
write addr word m s =
    let word_index = bit_and addr 0b1111 >>> 2 in
    let h = find_line addr s.l1 zero_line l1_dcache in
    let s' = record s { l1 = h.cache } in
    if h.hit_way == hit_way_miss
    then write_l2 addr word_index word m s'
    else write_l1_hit addr word_index word h.hit_index h.hit_way h.p_line m s'

unfoldable pub cache_write :
    Option Memory
    → Option PhyAddr
    → Option Cache
    → Option Cache
    → Option ℕ
    → WriteMachine
    → Outcome Store
unfolding write
cache_write mem_space paddr l1_cache l2 word m = do
  mem ← mem_space
  p ← paddr
  t1 ← l1_cache
  t2 ← l2
  w ← word
  require (m.malloc 0) err_bad_parameter
  require (m.malloc 1) err_bad_parameter
  write (phy_addr_to_uint32 (some p)) w m (record { mem = mem; l1 = t1; l2 = t2 })
