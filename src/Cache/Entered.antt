-- ===== src/Cache/Entered.antt =====
-- What a line is after an entry went to the way that the code chooses: the first way that is not
-- valid, or the oldest. The ages do not count here.
use kaby_lake_cache_c.Base.{
  ℕ, zero, suc, ◌+◌, ◌<◌, ◌≤◌, ◌≡◌, ◌≢◌, inl, inr, refl, ◌∙◌, arith, false, none, Bool-cases,
  ℕ_discrete, ◌==◌, eq→==, ==→eq, if◌then◌else◌, sym, ap,
}
use kaby_lake_cache_c.Addr.{bits}
use kaby_lake_cache_c.Memory.{Memory}
use kaby_lake_cache_c.Cache.{
  CacheKind, l1_icache, l1_dcache, l2_cache, ways, lines, tag_bits, CacheEntry, Cache, slot,
}
use kaby_lake_cache_c.Cache.Ages.{SameButAge}
use kaby_lake_cache_c.Cache.Contents.{slot_injective, EntryHolds, Holds}
use kaby_lake_cache_c.Cache.Correct.{stored, place_or_victim-lt, EntryHolds-same}
use kaby_lake_cache_c.Cache.Filled.{IsFilled, hit_from_complete}
use kaby_lake_cache_c.Cache.Hit.{hit_from}
use kaby_lake_cache_c.Cache.Lru.{place_from, find_place}
use kaby_lake_cache_c.Cache.Read.{place_or_victim}

-- Before the place that is found, every way is valid.
place_from-prefix :
    (k : CacheKind) (t : Cache) (li left i j : ℕ)
    → i ≤ j
    → j < place_from k t li left i
    → j < i + left
    → (t (slot k li j)).v ≢ 0
unfolding place_from
place_from-prefix k t li zero i j le lt in_range = absurd (omega arith)
place_from-prefix k t li (suc left) i j le lt in_range =
    ground (arith, place_from-prefix k t li left (i + 1) j)

ways_few : (k : CacheKind) → ways k ≤ 8
ways_few l1_icache = omega arith
ways_few l1_dcache = omega arith
ways_few l2_cache = omega arith

-- Before the way that an entry goes to, every way is valid.
place_or_victim-prefix :
    (k : CacheKind) (t : Cache) (li j : ℕ) → j < place_or_victim t k li → (t (slot k li j)).v ≢ 0
unfolding find_place
place_or_victim-prefix k t li j lt =
    let inside : j < ways k = omega (arith, place_or_victim-lt k t li) in
    let before : j < place_from k t li (ways k) 0 = ground (arith, ways_few k) in
    place_from-prefix k t li (ways k) 0 j (omega arith) before (omega arith)

-- `t'` is `t` with the entry at a way of a line, but for ages.
abbrev pub Entered : CacheKind → (li w : ℕ) → CacheEntry → Cache → Cache → Type 0
Entered k li w e t t' = (j : ℕ) → SameButAge (t' j) (if j == slot k li w then stored k e else t j)

-- No two valid ways of a line have the same tag.
abbrev pub IsUnique : CacheKind → Cache → (li : ℕ) → Type 0
IsUnique k t li =
    (i j : ℕ)
    → i < ways k
    → j < ways k
    → (t (slot k li i)).v ≢ 0
    → (t (slot k li j)).v ≢ 0
    → (t (slot k li i)).tag ≡ (t (slot k li j)).tag
    → i ≡ j

module _ (k : CacheKind) (li : ℕ) (e : CacheEntry) (t t' : Cache) (hli : li < lines k)
    (entered : Entered k li (place_or_victim t k li) e t t') where
  abbrev chosen : ℕ
  chosen = place_or_victim t k li

  here_same : SameButAge (t' (slot k li chosen)) (stored k e)
  here_same =
      let (v, tag, line) = entered (slot k li chosen) in
      let same = eq→== (slot k li chosen) (slot k li chosen) refl in
      (v ∙ rw same refl, tag ∙ rw same refl, line ∙ rw same refl)

  other_same :
      (li' i : ℕ)
      → i < ways k
      → ¬ ((li' ≡ li) × (i ≡ chosen))
      → SameButAge (t' (slot k li' i)) (t (slot k li' i))
  other_same li' i hi other = elim (Bool-cases (slot k li' i == slot k li chosen)) [
    | inl same ↦
        absurd
          (other (slot_injective k li' i li chosen hi (place_or_victim-lt k t li) (==→eq _ _ same)))
    | inr apart ↦
        let (v, tag, line) = entered (slot k li' i) in
        (v ∙ rw apart refl, tag ∙ rw apart refl, line ∙ rw apart refl)
  ]

  v_of :
      (i : ℕ)
      → i < ways k
      → (t' (slot k li i)).v ≡ (if i == chosen then bits 1 e.v else (t (slot k li i)).v)
  v_of i hi = elim (ℕ_discrete i chosen) [
    | yes here ↦ rw (here, eq→== chosen chosen refl) (here_same.0)
    | no other ↦
        let apart : (i == chosen) ≡ false = ground arith in
        rw apart ((other_same li i hi (λ h. other h.1)).0)
  ]

  pub Entered-IsFilled : e.v ≡ 1 → IsFilled k t li → IsFilled k t' li
  Entered-IsFilled one f = record {
    bit = λ i hi. ground (arith, v_of i, f.bit i);
    prefix =
        λ i j lt hj. ground (arith, v_of i, v_of j, f.prefix i j, place_or_victim-prefix k t li i);
  }

  pub Entered-IsFilled_other : (li' : ℕ) → li' ≢ li → IsFilled k t li' → IsFilled k t' li'
  Entered-IsFilled_other li' ne f = record {
    bit = λ i hi. rw ((other_same li' i hi (λ h. ne h.0)).0) (f.bit i hi);
    prefix = λ i j lt hj valid.
        rw ((other_same li' i (omega arith) (λ h. ne h.0)).0)
          (f.prefix i j lt hj (λ z. valid ((other_same li' j hj (λ h. ne h.0)).0 ∙ z)));
  }

  -- The entry that was inserted is found again.
  pub Entered-found :
      (tag : ℕ)
      → e.v ≡ 1
      → bits (tag_bits k) e.tag ≡ tag
      → IsFilled k t li
      → hit_from k t' li tag (ways k) 0 ≢ none
  Entered-found tag one same f =
      hit_from_complete k t' li tag (ways k) 0 chosen (omega arith) (Entered-IsFilled one f)
        (omega arith) (place_or_victim-lt k t li, here_same.0 ∙ rw one refl, here_same.1 ∙ same)

  pub Entered-Holds :
      (mem : Memory) → EntryHolds mem k li (stored k e) → Holds mem k t → Holds mem k t'
  Entered-Holds mem held h li' i hli' hi =
      let kept = EntryHolds-same mem k li' (t' (slot k li' i)) (t (slot k li' i)) in
      elim (ℕ_discrete li' li) [
        | yes same ↦ elim (ℕ_discrete i chosen) [
          | yes here ↦
              rw (same, here)
                (EntryHolds-same mem k li (t' (slot k li chosen)) (stored k e) here_same held)
          | no other ↦ kept (other_same li' i hi (λ q. other q.1)) (h li' i hli' hi)
        ]
        | no ne ↦ kept (other_same li' i hi (λ q. ne q.0)) (h li' i hli' hi)
      ]

  -- A new tag keeps the tags of a line apart.
  pub Entered-IsUnique :
      (tag : ℕ)
      → bits (tag_bits k) e.tag ≡ tag
      → ((i : ℕ) → i < ways k → (t (slot k li i)).v ≢ 0 → (t (slot k li i)).tag ≢ tag)
      → IsUnique k t li
      → IsUnique k t' li
  Entered-IsUnique tag same new u i j hi hj vi vj eq =
      let at : (x : ℕ) → x < ways k → x ≢ chosen → SameButAge (t' (slot k li x)) (t (slot k li x)) =
        λ x hx ne. other_same li x hx (λ q. ne q.1) in
      elim (ℕ_discrete i chosen) [
        | yes a ↦ elim (ℕ_discrete j chosen) [
          | yes b ↦ a ∙ sym b
          | no b ↦ absurd (
              new j hj (λ z. vj ((at j hj b).0 ∙ z))
                (sym ((at j hj b).1)
                  ∙ sym eq
                  ∙ ap (λ x. (t' (slot k li x)).tag) a
                  ∙ here_same.1
                  ∙ same))
        ]
        | no a ↦ elim (ℕ_discrete j chosen) [
          | yes b ↦ absurd (
              new i hi (λ z. vi ((at i hi a).0 ∙ z))
                (sym ((at i hi a).1)
                  ∙ eq
                  ∙ ap (λ x. (t' (slot k li x)).tag) b
                  ∙ here_same.1
                  ∙ same))
          | no b ↦
              u i j hi hj (λ z. vi ((at i hi a).0 ∙ z)) (λ z. vj ((at j hj b).0 ∙ z))
                (sym ((at i hi a).1) ∙ eq ∙ (at j hj b).1)
        ]
      ]

  pub Entered-IsUnique_other : (li' : ℕ) → li' ≢ li → IsUnique k t li' → IsUnique k t' li'
  Entered-IsUnique_other li' ne u i j hi hj vi vj eq =
      let at : (x : ℕ) → x < ways k → SameButAge (t' (slot k li' x)) (t (slot k li' x)) =
        λ x hx. other_same li' x hx (λ q. ne q.0) in
      u i j hi hj (λ z. vi ((at i hi).0 ∙ z)) (λ z. vj ((at j hj).0 ∙ z))
        (sym ((at i hi).1) ∙ eq ∙ (at j hj).1)
