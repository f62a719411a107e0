-- ===== src/Cache/Refetch.antt =====
-- After a miss: what stands in the line, and what its ages are.
use kaby_lake_cache_c.Base.{ℕ, ◌<◌, ◌≡◌, ◌≢◌, refl, ◌∙◌, arith, some}
use kaby_lake_cache_c.Memory.{Memory}
use kaby_lake_cache_c.Cache.{
  CacheKind, ways, lines, Line, CacheEntry, Cache, slot, put, entry_at, load_line, l1_icache,
  l1_dcache, l2_cache,
}
use kaby_lake_cache_c.Cache.Lru.{lru_age_update}
use kaby_lake_cache_c.Cache.Ages.{age, lru_age_update-nothing}
use kaby_lake_cache_c.Cache.Correct.{place_or_victim-lt}
use kaby_lake_cache_c.Cache.Read.{Caches, place_or_victim, insert_new}

-- The entry is stored with age 0, so the update that follows finds no younger way.
put-age :
    (k : CacheKind) (li w : ℕ) (e : CacheEntry) (t : Cache)
    → li < lines k
    → w < ways k
    → e.age ≡ 0
    → age k (put li w e t k) li w ≡ 0
unfolding put
put-age l1_icache li w e t hli hw young = ground arith
put-age l1_dcache li w e t hli hw young = ground arith
put-age l2_cache li w e t hli hw young = ground arith

pub insert_new-others :
    (k : CacheKind) (li sel : ℕ) (e : CacheEntry) (s : Caches) (j : ℕ)
    → li < lines k
    → e.age ≡ 0
    → j ≢ slot k li (place_or_victim s.l1 k li)
    → (insert_new k li sel e s).l1 j ≡ s.l1 j
unfolding insert_new
insert_new-others k li sel e s j hli young ne =
    let w = place_or_victim s.l1 k li in
    let hw = place_or_victim-lt k s.l1 li in
    lru_age_update-nothing k w li (put li w e s.l1 k) (put-age k li w e s.l1 hli hw young) j ne
    ∙ unfold put in ground arith

pub insert_new-youngest :
    (k : CacheKind) (li sel : ℕ) (e : CacheEntry) (s : Caches)
    → ((insert_new k li sel e s).l1 (slot k li (place_or_victim s.l1 k li))).age ≡ 0
unfolding insert_new lru_age_update
insert_new-youngest k li sel e s = ground arith

pub entry_at-young :
    (mem : Memory) (k : CacheKind) (addr : ℕ) (l : Line)
    → load_line mem addr ≡ some l
    → (e : CacheEntry) × (entry_at mem addr k ≡ some e) × (e.age ≡ 0)
unfolding entry_at
entry_at-young mem k addr l there = rw there (_, refl, refl)
