-- ===== src/TlbMng/Orders.antt =====
-- Where a line stands in an order, and where it stands when another was moved to the end.
use kaby_lake_cache_c.Base.{
  ℕ, suc, ◌+◌, ◌≤◌, ◌≡◌, ◌⊎◌, inl, inr, refl, sym, ◌∙◌, ap, arith, Bool, true, false, ◌||◌, ◌==◌,
  none, some, length,
}
use mathlib.Core.List.{List, [], ◌∷◌, ◌++◌, append_assoc}
use kaby_lake_cache_c.TlbMng.{FullTlb}
use kaby_lake_cache_c.TlbMng.Latest.{has_page, last_hit, last_hit-cons}

abbrev pub any : (ℕ → Bool) → List ℕ → Bool
any f [] = false
any f (i ∷ order) = f i || any f order

pub any-append : (f : ℕ → Bool) (o r : List ℕ) → any f (o ++ r) ≡ (any f o || any f r)
any-append f [] r = refl
any-append f (i ∷ o) r = ground (arith, any-append f o r)

abbrev pub has_line : ℕ → List ℕ → Bool
has_line i order = any (λ j. i == j) order

pub length-append : (o r : List ℕ) → length (o ++ r) ≡ length o + length r
length-append [] r = omega arith
length-append (i ∷ o) r = rw (length-append o r) (omega arith)

abbrev pub DistinctLines : List ℕ → Type 0
DistinctLines [] = Unit {0}
DistinctLines (i ∷ order) = (has_line i order ≡ false) × DistinctLines order

-- A line of distinct lines stands once.
pub once :
    (o : List ℕ) (i : ℕ) (r : List ℕ)
    → DistinctLines (o ++ i ∷ r)
    → (has_line i o ≡ false) × (has_line i r ≡ false)
once [] i r (out, d) = (refl, out)
once (j ∷ o) i r (out, d) =
    let (a, b) = once o i r d in (ground (arith, any-append (λ k. j == k) o (i ∷ r)), b)

pub last_hit-none :
    (t : FullTlb) (n : ℕ) (order : List ℕ)
    → any (has_page t n) order ≡ false
    → last_hit t n order ≡ none
last_hit-none t n [] e = refl
last_hit-none t n (i ∷ order) e =
    let rest : any (has_page t n) order ≡ false = ground arith in
    let here : has_page t n i ≡ false = ground arith in rw (last_hit-none t n order rest, here) refl

pub last_hit-middle :
    (t : FullTlb) (n : ℕ) (ys : List ℕ) (i : ℕ) (zs : List ℕ)
    → has_page t n i ≡ true
    → any (has_page t n) zs ≡ false
    → last_hit t n (ys ++ i ∷ zs) ≡ some (ys ++ zs, i)
last_hit-middle t n [] i zs here later = rw (last_hit-none t n zs later, here) refl
last_hit-middle t n (j ∷ ys) i zs here later = rw (last_hit-middle t n ys i zs here later) refl

-- The line that is found, taken out of the order.
pub record TakenOut (order others : List ℕ) (i : ℕ) : Type 0 where
  pub before : List ℕ
  pub after : List ℕ
  pub parts : order ≡ before ++ i ∷ after
  pub rest : others ≡ before ++ after

pub last_hit-TakenOut :
    (t : FullTlb) (n : ℕ) (order others : List ℕ) (i : ℕ)
    → last_hit t n order ≡ some (others, i)
    → TakenOut order others i
last_hit-TakenOut t n [] others i e = absurd (cc)
last_hit-TakenOut t n (j ∷ order) others i e = elim (last_hit-cons t n j order others i e) [
  | inl (o, later, same) ↦
      let k = last_hit-TakenOut t n order o i later in
      record {
        before = j ∷ k.before;
        after = k.after;
        parts = ap (λ r. j ∷ r) k.parts;
        rest = same ∙ ap (λ r. j ∷ r) k.rest;
      }
  | inr (same, _, _, all) ↦ record {
    before = [];
    after = order;
    parts = ap (λ r. r ∷ order) (sym same);
    rest = all;
  }
]

-- A line `j` was moved to the end past `i`, or from before it: where `i` stands then.
pub record MovedPast (j i : ℕ) (ys zs order : List ℕ) : Type 0 where
  pub before : List ℕ
  pub after : List ℕ
  pub parts : order ≡ before ++ i ∷ after
  pub whole : length before + length after ≡ length ys + length zs
  pub near : length after ≤ suc (length zs)
  pub passed : (f : ℕ → Bool) → f j ≡ false → any f zs ≡ false → any f after ≡ false
  pub stayed : (f : ℕ → Bool) → any f ys ≡ false → any f before ≡ false

length-around :
    (p : List ℕ) (j : ℕ) (q : List ℕ) → length ((p ++ q) ++ j ∷ []) ≡ length (p ++ j ∷ q)
length-around p j q =
    rw (length-append (p ++ q) (j ∷ []), length-append p q, length-append p (j ∷ q)) (omega arith)

any-around :
    (f : ℕ → Bool) (p : List ℕ) (j : ℕ) (q : List ℕ)
    → any f ((p ++ q) ++ j ∷ []) ≡ any f (p ++ j ∷ q)
any-around f p j q =
    rw (any-append f (p ++ q) (j ∷ []), any-append f p q, any-append f p (j ∷ q)) (ground arith)

pub any-snoc :
    (f : ℕ → Bool) (o : List ℕ) (j : ℕ)
    → f j ≡ false
    → any f o ≡ false
    → any f (o ++ j ∷ []) ≡ false
any-snoc f o j e eo = rw (any-append f o (j ∷ []), eo, e) refl

pub moved_past :
    (ys : List ℕ) (i : ℕ) (zs p : List ℕ) (j : ℕ) (q : List ℕ)
    → ys ++ i ∷ zs ≡ p ++ j ∷ q
    → MovedPast j i ys zs ((p ++ q) ++ j ∷ []) ⊎ ((i ≡ j) × (p ++ q ≡ ys ++ zs))
moved_past [] i zs [] j q e = inr (cc, cc)
moved_past [] i zs (x ∷ p) j q e =
    let tail : zs ≡ p ++ j ∷ q = cc in
    let head : x ≡ i = cc in
    let size = ap length tail in
    inl (record {
      before = [];
      after = (p ++ q) ++ j ∷ [];
      parts = ap (λ k. k ∷ (p ++ q) ++ j ∷ []) head;
      whole = omega (arith, length-around p j q, size);
      near = omega (arith, length-around p j q, size);
      passed = λ f off all. any-around f p j q ∙ ap (any f) (sym tail) ∙ all;
      stayed = λ f all. refl;
    })
moved_past (y ∷ ys) i zs [] j q e =
    let tail : q ≡ ys ++ i ∷ zs = cc in
    let size = length-append zs (j ∷ []) in
    inl (record {
      before = ys;
      after = zs ++ j ∷ [];
      parts = ap (λ r. r ++ j ∷ []) tail ∙ append_assoc ys (i ∷ zs) (j ∷ []);
      whole = omega (arith, size);
      near = omega (arith, size);
      passed = λ f off all. any-snoc f zs j off all;
      stayed = λ f all. ground arith;
    })
moved_past (y ∷ ys) i zs (x ∷ p) j q e =
    let head : x ≡ y = cc in
    elim (moved_past ys i zs p j q (cc)) [
      | inl k ↦ inl (record {
        before = y ∷ k.before;
        after = k.after;
        parts = ap (λ r. r ∷ (p ++ q) ++ j ∷ []) head ∙ ap (λ r. y ∷ r) k.parts;
        whole = omega (arith, k.whole);
        near = k.near;
        passed = k.passed;
        stayed = λ f all. ground (arith, k.stayed f);
      })
      | inr (same, others) ↦ inr (same, ap (λ r. r ∷ p ++ q) head ∙ ap (λ r. y ∷ r) others)
    ]
