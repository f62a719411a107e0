-- ===== src/Cache/Filled.antt =====
-- A line is filled from way 0 on: no valid way stands behind one that is not valid. Then the search of
-- `cache_hit`, which gives up at the first way that is not valid, finds every line that is there.
use kaby_lake_cache_c.Base.{
  ℕ, zero, suc, ◌+◌, ◌/◌, ◌%◌, ◌<◌, ◌≤◌, ◌≡◌, ◌≢◌, ◌⊎◌, inl, inr, ap, refl, ◌∙◌, ◌^◌, arith, none,
  some, Option-cases, ◌>>>◌,
}
use kaby_lake_cache_c.Outcome.{err_none, returned}
use kaby_lake_cache_c.Addr.{PhyAddr, phy_addr_to_uint32}
use kaby_lake_cache_c.Memory.{Memory}
use kaby_lake_cache_c.Cache.{
  CacheKind, age_bits, ways, lines, tag_remaining_bits, Line, Cache, slot,
}
use kaby_lake_cache_c.Cache.Hit.{Hit, hit_from, cache_hit, hit_result}
use kaby_lake_cache_c.Cache.Ages.{
  age, SameButAge, lru_age_update-age, lru_age_update-SameButAge, lru_age_update-outside,
}
use kaby_lake_cache_c.Cache.Contents.{hit_from_sound}
use kaby_lake_cache_c.Cache.Correct.{found_way, find_line-result}

pub record IsFilled (k : CacheKind) (t : Cache) (li : ℕ) : Type 0 where
  pub bit : (i : ℕ) → i < ways k → (t (slot k li i)).v < 2
  pub prefix : (i j : ℕ) → i < j → j < ways k → (t (slot k li j)).v ≢ 0 → (t (slot k li i)).v ≢ 0

-- A way that holds the tag.
abbrev pub Stands : CacheKind → Cache → (li tag w : ℕ) → Type 0
Stands k t li tag w = (w < ways k) × ((t (slot k li w)).v ≡ 1) × ((t (slot k li w)).tag ≡ tag)

pub hit_from_complete :
    (k : CacheKind) (t : Cache) (li tag left i w : ℕ)
    → i + left ≡ ways k
    → IsFilled k t li
    → i ≤ w
    → Stands k t li tag w
    → hit_from k t li tag left i ≢ none
unfolding hit_from
hit_from_complete k t li tag zero i w e f le (hw, v, same) = absurd (omega arith)
hit_from_complete k t li tag (suc left) i w e f le (hw, v, same) =
    ground (arith, f.bit i, f.prefix i w, hit_from_complete k t li tag left (i + 1) w)

-- What a hit of way `w` reports and what it makes of the cache: the line of the way, and the age of
-- the way is 0, each younger way of its line is a unit older, and nothing else changes.
pub record HitAt (k : CacheKind) (t : Cache) (li w : ℕ) (h : Hit) : Type 0 where
  pub way : h.hit_way ≡ w
  pub index : h.hit_index ≡ li
  pub line : h.p_line ≡ (t (slot k li w)).line
  pub youngest : (h.cache (slot k li w)).age ≡ 0
  pub younger :
      (i : ℕ)
      → i < ways k
      → i ≢ w
      → age k t li i < age k t li w
      → age k h.cache li i ≡ (age k t li i + 1) % 2 ^ age_bits k
  pub older :
      (i : ℕ) → i < ways k → i ≢ w → age k t li w ≤ age k t li i → age k h.cache li i ≡ age k t li i
  pub contents : (j : ℕ) → SameButAge (h.cache j) (t j)
  pub outside : (j : ℕ) → (j < slot k li 0) ⊎ (slot k li (ways k) ≤ j) → h.cache j ≡ t j

-- A miss leaves the cache and the line.
pub record Missed (t : Cache) (l : Line) (h : Hit) : Type 0 where
  pub way : h.hit_way ≡ 0xff
  pub index : h.hit_index ≡ 0xffff
  pub line : h.p_line ≡ l
  pub cache : h.cache ≡ t

hit_result-HitAt :
    (k : CacheKind) (t : Cache) (l : Line) (li w : ℕ)
    → w < ways k
    → HitAt k t li w (hit_result k t l li (some w))
hit_result-HitAt k t l li w hw = record {
  way = refl;
  index = refl;
  line = refl;
  youngest = lru_age_update-age k w li t w hw ∙ ground arith;
  younger = λ i hi ne lt. lru_age_update-age k w li t i hi ∙ ground arith;
  older = λ i hi ne le. lru_age_update-age k w li t i hi ∙ ground arith;
  contents = lru_age_update-SameButAge k w li t;
  outside = λ j out. lru_age_update-outside k w li t j hw (ground arith);
}

-- `cache_hit` on a line that is filled from way 0 on succeeds. Either a way of the line is valid and
-- has the address's tag: then it reports such a way and the index of the line, gives the line that the
-- way holds, resets its age to 0, makes each younger way of the line a unit older in the bits of an
-- age, and changes nothing else. Or no valid way has the tag: then it reports a miss and changes
-- neither the cache nor the line.
pub cache_hit-Stands :
    (mem : Memory) (k : CacheKind) (t : Cache) (p : PhyAddr) (l : Line) (way index : ℕ)
    → IsFilled k t (phy_addr_to_uint32 (some p) / 16 % lines k)
    → let addr = phy_addr_to_uint32 (some p) in
      let li = addr / 16 % lines k in
      let tag = addr >>> tag_remaining_bits k in
      (h : Hit) × (cache_hit (some mem) (some t) (some p) (some l) (some way) (some index) k
        ≡ returned err_none h)
      × (((w : ℕ) × Stands k t li tag w × HitAt k t li w h)
          ⊎ (((w : ℕ) → ¬ (Stands k t li tag w)) × Missed t l h))
unfolding cache_hit
cache_hit-Stands mem k t p l way index f =
    let addr = phy_addr_to_uint32 (some p) in
    let li = addr / 16 % lines k in
    let tag = addr >>> tag_remaining_bits k in
    elim (Option-cases (found_way k t addr)) [
      | inr (w, e) ↦
          let stands = hit_from_sound k t li tag (ways k) 0 (ways k) w (omega arith) e in
          (
            hit_result k t l li (some w),
            ap (returned err_none) (find_line-result k t l addr (some w) e),
            inl (w, stands, hit_result-HitAt k t l li w stands.0),
          )
      | inl e ↦ (
        hit_result k t l li none,
        ap (returned err_none) (find_line-result k t l addr none e),
        inr (
          λ w stands.
              hit_from_complete k t li tag (ways k) 0 w (omega arith) f (omega arith) stands e,
          record { way = refl; index = refl; line = refl; cache = refl },
        ),
      )
    ]
