-- ===== src/Cache/Hit.antt =====
-- `cache_hit` of cache_mng.c with the macro `hit` of cache.h.
use kaby_lake_cache_c.Base.{
  ℕ, zero, suc, ◌+◌, ◌/◌, ◌%◌, ◌&&◌, Option, none, some, ◌==◌, if◌then◌else◌, ◌>>>◌,
}
use kaby_lake_cache_c.Cache.{
  CacheKind, ways, lines, tag_remaining_bits, Line, Cache, slot, hit_way_miss, hit_index_miss,
}
use kaby_lake_cache_c.Outcome.{err_none, Outcome, returned, ◌>>=◌}
use kaby_lake_cache_c.Addr.{PhyAddr, phy_addr_to_uint32}
use kaby_lake_cache_c.Memory.{Memory}
use kaby_lake_cache_c.Cache.Lru.{lru_age_update}

-- The loop of the macro `hit`: the way of a hit. The first entry that is not valid ends it.
unfoldable pub hit_from : CacheKind → Cache → (line_index tag : ℕ) → (left i : ℕ) → Option ℕ
hit_from k t line_index tag zero i = none
hit_from k t line_index tag (suc left) i =
    let e = t (slot k line_index i) in
    let rest = hit_from k t line_index tag left (i + 1) in
    if e.v == 0 then none else if e.v == 1 && tag == e.tag then some i else rest

-- What `cache_hit` writes through its pointers. `p_line` is the line that the pointer leads to.
pub record Hit : Type 0 where
  pub cache : Cache
  pub p_line : Line
  pub hit_way : ℕ
  pub hit_index : ℕ

abbrev pub hit_result : CacheKind → Cache → Line → (line_index : ℕ) → Option ℕ → Hit
hit_result k t p_line line_index none = record {
  cache = t;
  p_line = p_line;
  hit_way = hit_way_miss;
  hit_index = hit_index_miss;
}
hit_result k t p_line line_index (some way) = record {
  cache = lru_age_update k way line_index t;
  p_line = (t (slot k line_index way)).line;
  hit_way = way;
  hit_index = line_index;
}

-- The macro `hit`.
unfoldable pub find_line : (addr : ℕ) → Cache → Line → CacheKind → Hit
unfolding hit_from
find_line addr t p_line k =
    let line_index = addr / 16 % lines k in
    hit_result k t p_line line_index
      (hit_from k t line_index (addr >>> tag_remaining_bits k) (ways k) 0)

unfoldable pub cache_hit :
    Option Memory
    → Option Cache
    → Option PhyAddr
    → Option Line
    → Option ℕ
    → Option ℕ
    → CacheKind
    → Outcome Hit
unfolding find_line
cache_hit mem_space cache paddr p_line hit_way hit_index cache_type = do
  mem ← mem_space
  t ← cache
  p ← paddr
  l ← p_line
  w ← hit_way
  i ← hit_index
  returned err_none (find_line (phy_addr_to_uint32 (some p)) t l cache_type)
