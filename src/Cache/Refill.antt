-- ===== src/Cache/Refill.antt =====
-- A miss of `cache_read` keeps every line filled from way 0 on, and a second read of the same line is
-- a hit.
use kaby_lake_cache_c.Base.{ℕ, ◌<◌, ◌≡◌, ◌≢◌, ◌∙◌, none}
use kaby_lake_cache_c.Addr.{bits}
use kaby_lake_cache_c.Cache.{CacheKind, ways, lines, tag_bits, CacheEntry, put}
use kaby_lake_cache_c.Cache.Hit.{hit_from}
use kaby_lake_cache_c.Cache.Ages.{lru_age_update-SameButAge}
use kaby_lake_cache_c.Cache.Correct.{put-elem, place_or_victim-lt}
use kaby_lake_cache_c.Cache.Entered.{Entered, Entered-IsFilled, Entered-found}
use kaby_lake_cache_c.Cache.Filled.{IsFilled}
use kaby_lake_cache_c.Cache.Read.{Caches, place_or_victim, insert_new}

module _ (k : CacheKind) (li sel : ℕ) (e : CacheEntry) (s : Caches) (hli : li < lines k) where
  pub insert_new-Entered :
      Entered k li (place_or_victim s.l1 k li) e s.l1 (insert_new k li sel e s).l1
  unfolding insert_new
  insert_new-Entered j =
      let w = place_or_victim s.l1 k li in
      let aged = lru_age_update-SameButAge k w li (put li w e s.l1 k) j in
      let there = put-elem k li w e s.l1 j hli (place_or_victim-lt k s.l1 li) in
      (aged.0 ∙ there.0, aged.1 ∙ there.1, aged.2 ∙ there.2)

  pub insert_new-IsFilled :
      e.v ≡ 1 → IsFilled k s.l1 li → IsFilled k (insert_new k li sel e s).l1 li
  insert_new-IsFilled =
      Entered-IsFilled k li e s.l1 (insert_new k li sel e s).l1 hli insert_new-Entered

  -- The entry that was inserted is found again.
  pub insert_new-found :
      (tag : ℕ)
      → e.v ≡ 1
      → bits (tag_bits k) e.tag ≡ tag
      → IsFilled k s.l1 li
      → hit_from k (insert_new k li sel e s).l1 li tag (ways k) 0 ≢ none
  insert_new-found = Entered-found k li e s.l1 (insert_new k li sel e s).l1 hli insert_new-Entered
