-- ===== src/Runs/Setup.antt =====
-- The loop of test-tlb_simple.c that fills the list with the lines of the TLB.
use kaby_lake_cache_c.Base.{
  ℕ, zero, suc, ◌+◌, ◌≤◌, ◌≡◌, ◌≢◌, refl, ◌∙◌, ap, sym, arith, false, none, some, ◌==◌, ◌||◌,
  length,
}
use mathlib.Core.List.{List, [], ◌∷◌, ◌++◌}
use kaby_lake_cache_c.Lists.{Ptr, LinkedList, push_back}
use kaby_lake_cache_c.Lists.Chain.{Cells, has, IsList, not_has_of_none, has-append}
use kaby_lake_cache_c.Lists.Push.{push_back-IsList}
use kaby_lake_cache_c.TlbMng.Latest.{AreLines, values, values-append}
use kaby_lake_cache_c.Runs.FullRun.{fill_list, then_fill, after_push}

-- The lines from `i` on.
abbrev pub lines_from : (left i : ℕ) → List ℕ
lines_from zero i = []
lines_from (suc left) i = i ∷ lines_from left (i + 1)

pub lines_from-AreLines : (left i : ℕ) → i + left ≤ 128 → AreLines (lines_from left i)
lines_from-AreLines zero i h = tt
lines_from-AreLines (suc left) i h = (omega arith, lines_from-AreLines left (i + 1) (omega arith))

pub length-lines_from : (left i : ℕ) → length (lines_from left i) ≡ left
length-lines_from zero i = refl
length-lines_from (suc left) i = ap suc (length-lines_from left (i + 1))

append_nil : (xs : List ℕ) → xs ++ [] ≡ xs
append_nil [] = refl
append_nil (x ∷ xs) = ap (λ r. x ∷ r) (append_nil xs)

append_one : (xs : List ℕ) (i : ℕ) (ys : List ℕ) → (xs ++ i ∷ []) ++ ys ≡ xs ++ i ∷ ys
append_one [] i ys = refl
append_one (x ∷ xs) i ys = ap (λ r. x ∷ r) (append_one xs i ys)

not_eq : (a b : ℕ) → a ≢ b → (a == b || false) ≡ false
not_eq a b h = ground arith

-- `malloc` gives addresses that the heap does not use, another one each time.
pub record AreFresh (malloc : ℕ → Ptr) (l : LinkedList) : Type 0 where
  pub fresh : ℕ → ℕ
  pub given : (i : ℕ) → malloc i ≡ some (fresh i)
  pub distinct : (i j : ℕ) → fresh i ≡ fresh j → i ≡ j
  pub unused : (i : ℕ) → l.heap (fresh i) ≡ none

module _ (malloc : ℕ → Ptr) (fresh : ℕ → ℕ) (given : (i : ℕ) → malloc i ≡ some (fresh i))
    (distinct : (i j : ℕ) → fresh i ≡ fresh j → i ≡ j) where
  pub fill_list-IsList :
      (left i : ℕ) (l : LinkedList) (xs : Cells)
      → IsList l xs
      → ((j : ℕ) → i ≤ j → l.heap (fresh j) ≡ none)
      → (l' : LinkedList) × (ys : Cells) × (fill_list malloc left i l ≡ some l')
        × IsList l' ys
        × (values ys ≡ values xs ++ lines_from left i)
  unfolding fill_list
  fill_list-IsList zero i l xs is free = (l, xs, refl, is, sym (append_nil (values xs)))
  fill_list-IsList (suc left) i l xs is free =
      let (l1, done, is1, same) = push_back-IsList l xs i (fresh i) is (free i (omega arith)) in
      let unlisted : (j : ℕ) → i + 1 ≤ j → has (fresh j) (xs ++ (fresh i, i) ∷ []) ≡ false = λ j h.
        let ne : fresh j ≢ fresh i = λ q. absurd (omega (arith, distinct j i q)) in
        let out = not_has_of_none l.heap (fresh j) none xs none (free j (omega arith)) is.chain in
        has-append (fresh j) xs ((fresh i, i) ∷ []) ∙ rw out (not_eq (fresh j) (fresh i) ne) in
      let free1 : (j : ℕ) → i + 1 ≤ j → l1.heap (fresh j) ≡ none =
        λ j h. same (fresh j) (unlisted j h) ∙ free j (omega arith) in
      let (l', ys, e, is', vals) =
        fill_list-IsList left (i + 1) l1 (xs ++ (fresh i, i) ∷ []) is1 free1 in
      (
        l',
        ys,
        ap (λ m. then_fill (after_push (push_back (some l) i m) l) (fill_list malloc left (i + 1)))
              (given i)
            ∙ ap (λ r. then_fill (after_push r l) (fill_list malloc left (i + 1))) done
            ∙ e,
        is',
        vals
            ∙ ap (λ r. r ++ lines_from left (i + 1)) (values-append xs ((fresh i, i) ∷ []))
            ∙ append_one (values xs) i (lines_from left (i + 1)),
      )
