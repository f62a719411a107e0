-- ===== src/Cache/Ranking.antt =====
-- The ages rank the ways of a set by recency, and the victim is the least recently used way.
use kaby_lake_cache_c.Base.{
  ℕ, zero, suc, ◌+◌, ◌<◌, ◌≤◌, ◌≡◌, ◌≢◌, ◌⊎◌, inl, inr, Bool-cases, refl, true, ltb, leb, ◌==◌,
  if◌then◌else◌, arith,
}
use kaby_lake_cache_c.Addr.{bits}
use kaby_lake_cache_c.Cache.{age_bits, CacheKind, l1_icache, l1_dcache, l2_cache, ways, Cache}
use kaby_lake_cache_c.Cache.Lru.{lru_age_update, lru_age_increase, apply_lru, oldest_from}
use kaby_lake_cache_c.Cache.Ages.{age, lru_age_update-age, lru_age_increase-age}

-- The ages of the first `n` ways of a line are the numbers below `n`, each once.
pub record IsRanked (k : CacheKind) (n : ℕ) (t : Cache) (li : ℕ) : Type 0 where
  pub bound : (i : ℕ) → i < n → age k t li i < n
  pub distinct : (i j : ℕ) → i < n → j < n → i ≢ j → age k t li i ≢ age k t li j

-- The age does not wrap in its field.
no_wrap : (k : CacheKind) (a : ℕ) → a + 1 < ways k → bits (age_bits k) (a + 1) ≡ a + 1
no_wrap l1_icache a h = omega arith
no_wrap l1_dcache a h = omega arith
no_wrap l2_cache a h = omega arith

-- The ages after an update, without the wrap.
abbrev bumped : (max way : ℕ) → (i a : ℕ) → ℕ
bumped max way i a = if i == way then 0 else if ltb a max then a + 1 else a

module _ (k : CacheKind) (n : ℕ) (fits : n ≤ ways k) (t : Cache) (li : ℕ)
    (r : IsRanked k n t li) where
  update-bumped :
      (way i : ℕ)
      → way < n
      → i < n
      → age k (lru_age_update k way li t) li i ≡ bumped (age k t li way) way i (age k t li i)
  update-bumped way i hw hi =
      ground
        (arith, lru_age_update-age k way li t i, no_wrap k (age k t li i), r.bound way, r.bound i)

  pub lru_age_update-IsRanked : (way : ℕ) → way < n → IsRanked k n (lru_age_update k way li t) li
  lru_age_update-IsRanked way hw = record {
    bound = λ i hi. ground (arith, update-bumped way i, r.bound way, r.bound i);
    distinct = λ i j hi hj ne. ground (
      arith,
      update-bumped way i,
      update-bumped way j,
      r.bound way,
      r.bound i,
      r.bound j,
      r.distinct i j,
      r.distinct i way,
      r.distinct j way,
    );
  }

  -- Among the other ways the order by age is kept, and the way that was used is the youngest.
  pub lru_age_update-order :
      (way i j : ℕ)
      → way < n
      → i < n
      → j < n
      → i ≢ j
      → j ≢ way
      → (i ≡ way) ⊎ (age k t li i < age k t li j)
      → age k (lru_age_update k way li t) li i < age k (lru_age_update k way li t) li j
  lru_age_update-order way i j hw hi hj ne other h =
      ground (arith, update-bumped way i, update-bumped way j, r.distinct j way)

-- If the ages of the first `n` ways of a line rank them, and there are more ways than that, then
-- LRU_age_increase at way `n`, as after a cold start, makes the ages rank the first `n + 1` ways.
pub lru_age_increase-IsRanked :
    (k : CacheKind) (n : ℕ) (t : Cache) (li : ℕ)
    → n < ways k
    → IsRanked k n t li
    → IsRanked k (n + 1) (lru_age_increase k n li t) li
lru_age_increase-IsRanked k n t li fits r = record {
  bound = λ i hi. ground (arith, raised i, r.bound i);
  distinct = λ i j hi hj ne. ground (arith, raised i, raised j, r.distinct i j);
}
  where
    raised :
        (i : ℕ)
        → i < n + 1
        → age k (lru_age_increase k n li t) li i ≡ (if i == n then 0 else age k t li i + 1)
    raised i h =
        ground (arith, lru_age_increase-age k n li t i, no_wrap k (age k t li i), r.bound i)

-- `way` is below `n`, and none of the ways below `n` is older.
abbrev pub IsOldest : CacheKind → Cache → (li n way : ℕ) → Type 0
IsOldest k t li n way = (way < n) × ((j : ℕ) → j < n → age k t li j ≤ age k t li way)

oldest_from-IsOldest :
    (k : CacheKind) (t : Cache) (li left i w n : ℕ)
    → i + left ≡ n
    → IsOldest k t li i w
    → IsOldest k t li n (oldest_from k t li left i (age k t li w) w)
unfolding oldest_from
oldest_from-IsOldest k t li zero i w n e old = let same : i ≡ n = omega arith in rw (← same) old
oldest_from-IsOldest k t li (suc left) i w n e old =
    elim (Bool-cases (leb (age k t li w) (age k t li i))) [
      | inl up ↦ rw up (
          oldest_from-IsOldest k t li left (i + 1) i n (omega arith)
            (omega arith, λ j h. ground (arith, old.1 j)))
      | inr down ↦ rw down (
          oldest_from-IsOldest k t li left (i + 1) w n (omega arith)
            (omega (arith, old.0), λ j h. ground (arith, old.1 j)))
    ]

oldest_from-first :
    (k : CacheKind) (t : Cache) (li left n : ℕ)
    → 1 + left ≡ n
    → IsOldest k t li n (oldest_from k t li (suc left) 0 0 0)
unfolding oldest_from
oldest_from-first k t li left n e =
    let low : leb 0 (age k t li 0) ≡ true = ground arith in
    rw low (
      oldest_from-IsOldest k t li left 1 0 n e
        (omega arith, λ j h. let zeroth : j ≡ 0 = omega arith in rw zeroth (omega arith)))

-- `apply_lru` gives a way of the line that no other way of the line exceeds in age.
pub apply_lru-IsOldest :
    (k : CacheKind) (t : Cache) (li : ℕ) → IsOldest k t li (ways k) (apply_lru t k li)
unfolding apply_lru
apply_lru-IsOldest l1_icache t li = oldest_from-first l1_icache t li 3 4 refl
apply_lru-IsOldest l1_dcache t li = oldest_from-first l1_dcache t li 3 4 refl
apply_lru-IsOldest l2_cache t li = oldest_from-first l2_cache t li 7 8 refl
