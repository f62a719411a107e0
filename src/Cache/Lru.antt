-- ===== src/Cache/Lru.antt =====
-- lru.h, and the choice of a way: the macros `lru` and `find_place_` of cache.h with their functions.
use kaby_lake_cache_c.Base.{ℕ, zero, suc, ◌+◌, ◌-◌, ltb, leb, ◌==◌, if◌then◌else◌, update}
use kaby_lake_cache_c.Cache.{CacheKind, ways, age_bits, Cache, slot, hit_way_miss}
use kaby_lake_cache_c.Addr.{bits}

-- The loop of LRU_age_update: `left` rounds, from way `i`.
unfoldable pub age_younger : CacheKind → (line_index max : ℕ) → (left i : ℕ) → Cache → Cache
age_younger k line_index max zero i t = t
age_younger k line_index max (suc left) i t =
    let e = t (slot k line_index i) in
    age_younger k line_index max left (i + 1) (
      if ltb e.age max
      then update t (slot k line_index i) (record e { age = bits (age_bits k) (e.age + 1) })
      else t)

-- The entry becomes the youngest.
abbrev pub make_youngest : Cache → ℕ → Cache
make_youngest t s = update t s (record (t s) { age = 0 })

-- LRU_age_update
unfoldable pub lru_age_update : CacheKind → (way line_index : ℕ) → Cache → Cache
unfolding age_younger
lru_age_update k way line_index t =
    make_youngest (age_younger k line_index (t (slot k line_index way)).age (ways k) 0 t)
      (slot k line_index way)

-- LRU_age_increase: its loop is that of LRU_age_update with `WAYS - 1` for `max`.
unfoldable pub lru_age_increase : CacheKind → (way line_index : ℕ) → Cache → Cache
unfolding age_younger
lru_age_increase k way line_index t =
    make_youngest (age_younger k line_index (ways k - 1) (ways k) 0 t) (slot k line_index way)

-- The macro `lru`: the way and its age, after `left` more rounds from way `i`.
unfoldable pub oldest_from : CacheKind → Cache → (line_index : ℕ) → (left i max_age way : ℕ) → ℕ
oldest_from k t line_index zero i max_age way = way
oldest_from k t line_index (suc left) i max_age way =
    let age = (t (slot k line_index i)).age in
    let older = leb max_age age in
    oldest_from k t line_index left (i + 1) (if older then age else max_age)
      (if older then i else way)

unfoldable pub apply_lru : Cache → CacheKind → (line_index : ℕ) → ℕ
unfolding oldest_from
apply_lru cache type line_index = oldest_from type cache line_index (ways type) 0 0 0

-- The macro `find_place_`: the first way whose entry is not valid.
unfoldable pub place_from : CacheKind → Cache → (line_index : ℕ) → (left i : ℕ) → ℕ
place_from k t line_index zero i = hit_way_miss
place_from k t line_index (suc left) i =
    let rest = place_from k t line_index left (i + 1) in
    if (t (slot k line_index i)).v == 0 then i else rest

unfoldable pub find_place : Cache → CacheKind → (line_index : ℕ) → ℕ
unfolding place_from
find_place cache type line_index = place_from type cache line_index (ways type) 0
