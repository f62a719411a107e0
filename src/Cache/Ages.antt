-- ===== src/Cache/Ages.antt =====
-- LRU_age_update and LRU_age_increase, entry by entry, and the ranking of the ways by age.
use kaby_lake_cache_c.Base.{
  ℕ, zero, suc, ◌+◌, ◌-◌, ◌<◌, ◌≡◌, ◌≢◌, Bool, false, ◌&&◌, ltb, leb, ◌==◌, if◌then◌else◌, update,
  arith,
}
use kaby_lake_cache_c.Addr.{bits}
use kaby_lake_cache_c.Cache.{CacheKind, ways, age_bits, CacheEntry, Cache, slot}
use kaby_lake_cache_c.Cache.Lru.{age_younger, make_youngest, lru_age_update, lru_age_increase}

abbrev pub age : CacheKind → Cache → (line_index way : ℕ) → ℕ
age k t li i = (t (slot k li i)).age

abbrev pub older : CacheKind → CacheEntry → CacheEntry
older k e = record e { age = bits (age_bits k) (e.age + 1) }

-- Flat index `j` stands in the set, `left` ways from way `i`.
abbrev in_ways : (k : CacheKind) → (li left i j : ℕ) → Bool
in_ways k li left i j = leb (slot k li i) j && ltb j (slot k li i + left)

-- One round of the loop.
abbrev aged : CacheKind → (max s : ℕ) → Cache → Cache
aged k max s t = if ltb (t s).age max then update t s (older k (t s)) else t

age_younger-elem :
    (k : CacheKind) (li max left i : ℕ) (t : Cache) (j : ℕ)
    → age_younger k li max left i t j
      ≡ (if in_ways k li left i j && ltb (t j).age max then older k (t j) else t j)
unfolding age_younger
age_younger-elem k li max zero i t j = ground arith
age_younger-elem k li max (suc left) i t j =
    rw (age_younger-elem k li max left (i + 1) (aged k max (slot k li i) t) j) (ground arith)

abbrev pub SameButAge : CacheEntry → CacheEntry → Type 0
SameButAge e e' = (e.v ≡ e'.v) × (e.tag ≡ e'.tag) × (e.line ≡ e'.line)

age_younger-zero :
    (k : CacheKind) (li left : ℕ) (t : Cache) (j : ℕ) → age_younger k li 0 left 0 t j ≡ t j
age_younger-zero k li left t j = rw (age_younger-elem k li 0 left 0 t j) (ground arith)

-- What a loop up to the age `max` and the reset of `way` make of the ages of the set.
abbrev pub aged_to : CacheKind → Cache → (li max way i : ℕ) → ℕ
aged_to k t li max way i =
    if i == way
    then 0
    else if ltb (age k t li i) max
    then bits (age_bits k) (age k t li i + 1)
    else age k t li i

module _ (k : CacheKind) (li max way : ℕ) (t : Cache) where
  rounds-age :
      (i : ℕ)
      → i < ways k
      → age k (make_youngest (age_younger k li max (ways k) 0 t) (slot k li way)) li i
        ≡ aged_to k t li max way i
  rounds-age i h = ground (arith, age_younger-elem k li max (ways k) 0 t (slot k li i))

  rounds-outside :
      (j : ℕ)
      → way < ways k
      → in_ways k li (ways k) 0 j ≡ false
      → make_youngest (age_younger k li max (ways k) 0 t) (slot k li way) j ≡ t j
  rounds-outside j h out = ground (arith, age_younger-elem k li max (ways k) 0 t j)

  rounds-SameButAge :
      (j : ℕ)
      → SameButAge (make_youngest (age_younger k li max (ways k) 0 t) (slot k li way) j) (t j)
  rounds-SameButAge j = (
    ground (
      arith,
      age_younger-elem k li max (ways k) 0 t j,
      age_younger-elem k li max (ways k) 0 t (slot k li way),
    ),
    ground (
      arith,
      age_younger-elem k li max (ways k) 0 t j,
      age_younger-elem k li max (ways k) 0 t (slot k li way),
    ),
    ground (
      arith,
      age_younger-elem k li max (ways k) 0 t j,
      age_younger-elem k li max (ways k) 0 t (slot k li way),
    ),
  )

module _ (k : CacheKind) (way li : ℕ) (t : Cache) where
  pub lru_age_update-age :
      (i : ℕ)
      → i < ways k
      → age k (lru_age_update k way li t) li i ≡ aged_to k t li (age k t li way) way i
  unfolding lru_age_update
  lru_age_update-age = rounds-age k li (age k t li way) way t

  pub lru_age_update-outside :
      (j : ℕ) → way < ways k → in_ways k li (ways k) 0 j ≡ false → lru_age_update k way li t j ≡ t j
  unfolding lru_age_update
  lru_age_update-outside = rounds-outside k li (age k t li way) way t

  pub lru_age_update-SameButAge : (j : ℕ) → SameButAge (lru_age_update k way li t j) (t j)
  unfolding lru_age_update
  lru_age_update-SameButAge = rounds-SameButAge k li (age k t li way) way t

  pub lru_age_increase-age :
      (i : ℕ)
      → i < ways k
      → age k (lru_age_increase k way li t) li i ≡ aged_to k t li (ways k - 1) way i
  unfolding lru_age_increase
  lru_age_increase-age = rounds-age k li (ways k - 1) way t

  pub lru_age_increase-outside :
      (j : ℕ)
      → way < ways k
      → in_ways k li (ways k) 0 j ≡ false
      → lru_age_increase k way li t j ≡ t j
  unfolding lru_age_increase
  lru_age_increase-outside = rounds-outside k li (ways k - 1) way t

  pub lru_age_increase-SameButAge : (j : ℕ) → SameButAge (lru_age_increase k way li t j) (t j)
  unfolding lru_age_increase
  lru_age_increase-SameButAge = rounds-SameButAge k li (ways k - 1) way t

  -- The update of a way of age 0 changes no other entry.
  pub lru_age_update-nothing :
      age k t li way ≡ 0 → (j : ℕ) → j ≢ slot k li way → lru_age_update k way li t j ≡ t j
  unfolding lru_age_update
  lru_age_update-nothing young j ne =
      let skipped : (j == slot k li way) ≡ false = ground arith in
      rw (young, skipped) (age_younger-zero k li (ways k) t j)
