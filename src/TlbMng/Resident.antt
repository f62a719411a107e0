-- ===== src/TlbMng/Resident.antt =====
-- A page that was looked up stays in the TLB until all other lines were used after it.
use kaby_lake_cache_c.Base.{
  ℕ, suc, ◌+◌, ◌≤◌, ◌≡◌, inl, inr, refl, sym, ◌∙◌, ap, subst, arith, Bool, true, false, ◌==◌,
  Option, some, update, length,
}
use mathlib.Core.List.{List, [], ◌∷◌, ◌++◌}
use kaby_lake_cache_c.TlbMng.{FullEntry, FullTlb}
use kaby_lake_cache_c.TlbMng.Latest.{has_page, last_hit}
use kaby_lake_cache_c.TlbMng.Orders.{
  any, any-append, has_line, length-append, last_hit-middle, TakenOut, moved_past,
}

-- Page `n` is in a line that stands once in the order, no line behind it has the page, and at most
-- `used` lines stand behind it.
pub record IsResident (n frame : ℕ) (size used : ℕ) (t : FullTlb) (order : List ℕ) : Type 0 where
  pub before : List ℕ
  pub line : ℕ
  pub after : List ℕ
  pub parts : order ≡ before ++ line ∷ after
  pub here : has_page t n line ≡ true
  pub in_line : (t line).phy_page_num ≡ frame
  pub not_before : has_line line before ≡ false
  pub not_after : has_line line after ≡ false
  pub later : any (has_page t n) after ≡ false
  pub whole : suc (length before + length after) ≡ size
  pub near : length after ≤ used

pub differ : (f : ℕ → Bool) (i j : ℕ) → f i ≡ true → f j ≡ false → (i == j) ≡ false
differ f i j e o = ground (arith, ap f)

-- Line `j`, which does not have the page, was moved to the end.
pub IsResident-move :
    (n frame size used : ℕ) (t : FullTlb) (order others : List ℕ) (j : ℕ)
    → has_page t n j ≡ false
    → IsResident n frame size used t order
    → TakenOut order others j
    → IsResident n frame size (suc used) t (others ++ j ∷ [])
IsResident-move n frame size used t order others j off k out =
    elim (moved_past k.before k.line k.after out.before j out.after (sym k.parts ∙ out.parts)) [
      | inl m ↦ record {
        before = m.before;
        line = k.line;
        after = m.after;
        parts = ap (λ o. o ++ j ∷ []) out.rest ∙ m.parts;
        here = k.here;
        in_line = k.in_line;
        not_before = m.stayed (λ i. k.line == i) k.not_before;
        not_after =
            m.passed (λ i. k.line == i) (differ (has_page t n) k.line j k.here off) k.not_after;
        later = m.passed (has_page t n) off k.later;
        whole = omega (arith, m.whole, k.whole);
        near = omega (arith, m.near, k.near);
      }
      | inr (same, _) ↦ absurd (cc (k.here, off, ap (has_page t n) same))
    ]

pub found_same :
    (q : Option (List ℕ × ℕ)) (o p : List ℕ) (j i : ℕ)
    → q ≡ some (o, j)
    → q ≡ some (p, i)
    → (o ≡ p) × (j ≡ i)
found_same q o p j i e f = (cc, cc)

-- The line of the page is the last.
pub IsResident-last :
    (n frame size used : ℕ) (t : FullTlb) (o : List ℕ) (i : ℕ)
    → has_page t n i ≡ true
    → (t i).phy_page_num ≡ frame
    → has_line i o ≡ false
    → suc (length o) ≡ size
    → IsResident n frame size used t (o ++ i ∷ [])
IsResident-last n frame size used t o i here e out whole = record {
  before = o;
  line = i;
  after = [];
  parts = refl;
  here = here;
  in_line = e;
  not_before = out;
  not_after = refl;
  later = refl;
  whole = omega (arith, whole);
  near = omega arith;
}

-- The page itself was used.
pub IsResident-use :
    (n frame size used now : ℕ) (t : FullTlb) (order others : List ℕ) (j : ℕ)
    → last_hit t n order ≡ some (others, j)
    → IsResident n frame size used t order
    → IsResident n frame size now t (others ++ j ∷ [])
IsResident-use n frame size used now t order others j e k =
    let (same, last) =
      found_same (last_hit t n order) others (k.before ++ k.after) j k.line e
        (ap (last_hit t n) k.parts ∙ last_hit-middle t n k.before k.line k.after k.here k.later) in
    subst (λ o. IsResident n frame size now t (o ++ j ∷ [])) (sym same)
      (subst (λ i. IsResident n frame size now t ((k.before ++ k.after) ++ i ∷ [])) (sym last)
        (IsResident-last n frame size now t (k.before ++ k.after) k.line k.here k.in_line
          (rw (any-append (λ i. k.line == i) k.before k.after, k.not_before) k.not_after)
          (omega (arith, length-append k.before k.after, k.whole))))

any-update :
    (t : FullTlb) (n line : ℕ) (e : FullEntry) (order : List ℕ)
    → has_page (update t line e) n line ≡ false
    → any (has_page t n) order ≡ false
    → any (has_page (update t line e) n) order ≡ false
any-update t n line e [] off all = refl
any-update t n line e (i ∷ order) off all =
    ground (arith, any-update t n line e order off, ap (has_page (update t line e) n))

-- Another line got an entry of another page.
pub IsResident-update :
    (n frame size used : ℕ) (t : FullTlb) (order : List ℕ) (j : ℕ) (e : FullEntry)
    → has_page (update t j e) n j ≡ false
    → (k : IsResident n frame size used t order) → (k.line == j) ≡ false
    → IsResident n frame size used (update t j e) order
IsResident-update n frame size used t order j e off k other = record {
  before = k.before;
  line = k.line;
  after = k.after;
  parts = k.parts;
  here = rw other k.here;
  in_line = rw other k.in_line;
  not_before = k.not_before;
  not_after = k.not_after;
  later = any-update t n j e k.after off k.later;
  whole = k.whole;
  near = k.near;
}

-- As long as a line stands behind all others, the line of the page is not the first.
pub not_first :
    (before : List ℕ) (i : ℕ) (after : List ℕ) (line : ℕ) (rest : List ℕ)
    → line ∷ rest ≡ before ++ i ∷ after
    → has_line i before ≡ false
    → 1 ≤ length before
    → (i == line) ≡ false
not_first [] i after line rest e out some_before = absurd (omega arith)
not_first (y ∷ before) i after line rest e out some_before =
    let same : line ≡ y = cc in rw same (ground arith)
