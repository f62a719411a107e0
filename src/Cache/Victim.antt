-- ===== src/Cache/Victim.antt =====
-- A history of uses: the victim of `apply_lru` is the way whose last use lies furthest back.
use kaby_lake_cache_c.Base.{
  ℕ, ◌<◌, ◌≡◌, ap, ◌≢◌, inl, inr, refl, Bool, true, false, ◌||◌, ◌==◌, Bool-cases, arith,
}
use mathlib.Core.List.{List, [], ◌∷◌, ◌++◌}
use kaby_lake_cache_c.Cache.{CacheKind, ways, Cache}
use kaby_lake_cache_c.Cache.Lru.{lru_age_update, apply_lru}
use kaby_lake_cache_c.Cache.Ages.{age}
use kaby_lake_cache_c.Cache.Ranking.{
  IsRanked, lru_age_update-IsRanked, lru_age_update-order, apply_lru-IsOldest,
}

-- The cache after uses of ways of one line, the latest first.
unfoldable pub used : CacheKind → (li : ℕ) → List ℕ → Cache → Cache
used k li [] t = t
used k li (w ∷ ws) t = lru_age_update k w li (used k li ws t)

abbrev pub has : ℕ → List ℕ → Bool
has i [] = false
has i (w ∷ ws) = (i == w) || has i ws

abbrev pub AllBelow : ℕ → List ℕ → Type 0
AllBelow n [] = Unit {0}
AllBelow n (w ∷ ws) = (w < n) × AllBelow n ws

module _ (k : CacheKind) (li : ℕ) (t : Cache) (r : IsRanked k (ways k) t li) where
  pub used-IsRanked : (ws : List ℕ) → AllBelow (ways k) ws → IsRanked k (ways k) (used k li ws t) li
  unfolding used
  used-IsRanked [] h = r
  used-IsRanked (w ∷ ws) h =
      lru_age_update-IsRanked k (ways k) (omega arith) (used k li ws t) li (used-IsRanked ws h.1) w
        h.0

  -- A way that was not used since the last use of `v` is older than `v`.
  pub used-older :
      (recent before : List ℕ) (v u : ℕ)
      → AllBelow (ways k) (recent ++ v ∷ before)
      → v < ways k
      → u < ways k
      → u ≢ v
      → has u recent ≡ false
      → age k (used k li (recent ++ v ∷ before) t) li v
        < age k (used k li (recent ++ v ∷ before) t) li u
  unfolding used
  used-older [] before v u h hv hu ne out =
      lru_age_update-order k (ways k) (omega arith) (used k li before t) li
        (used-IsRanked before h.1) v v u hv hv hu (λ e. ne (ground arith)) ne (inl refl)
  used-older (w ∷ ws) before v u h hv hu ne out =
      lru_age_update-order k (ways k) (omega arith) (used k li (ws ++ v ∷ before) t) li
        (used-IsRanked (ws ++ v ∷ before) h.1) w v u h.0 hv hu (λ e. ne (ground arith))
        (ground arith) (inr (used-older ws before v u h.1 hv hu ne (ground arith)))

  -- From ranked ages, after any uses of ways of the line by LRU_age_update, `apply_lru` gives the
  -- least recently used way: every other way was used again after the victim's last use.
  pub victim_least_recent :
      (recent before : List ℕ) (v u : ℕ)
      → AllBelow (ways k) (recent ++ v ∷ before)
      → v ≡ apply_lru (used k li (recent ++ v ∷ before) t) k li
      → u < ways k
      → u ≢ v
      → has u recent ≡ true
  victim_least_recent recent before v u h e hu ne = elim (Bool-cases (has u recent)) [
    | inl again ↦ again
    | inr never ↦ absurd (
        let end = used k li (recent ++ v ∷ before) t in
        let (inside, oldest) = apply_lru-IsOldest k end li in
        omega (
          arith,
          used-older recent before v u h (rw e inside) hu ne never,
          oldest u hu,
          ap (λ (x : ℕ). age k end li x) e,
        ))
  ]
