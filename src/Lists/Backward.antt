-- ===== src/Lists/Backward.antt =====
-- A list as its `previous` pointers give it, from the back.
use kaby_lake_cache_c.Base.{
  length, ℕ, ◌+◌, ◌≡◌, refl, sym, ◌∙◌, arith, true, false, none, some, eq→==,
}
use mathlib.Core.List.{[], ◌∷◌, reverse_aux, reverse}
use kaby_lake_cache_c.Lists.{Ptr, NodeHeap, LinkedList, ptr_eq}
use kaby_lake_cache_c.Lists.Chain.{Cells, has, Distinct, first, last, node, Chain, IsList}
use kaby_lake_cache_c.Lists.Push.{last-some}
use kaby_lake_cache_c.Lists.Pop.{last_in}
use kaby_lake_cache_c.Lists.Clear.{differ_of_has}

-- The nodes of `rs` in the order of the `previous` pointers.
abbrev pub Backward : NodeHeap → Cells → (next : Ptr) → Type 0
Backward h [] next = Unit {0}
Backward h ((a, v) ∷ rs) next = (h a ≡ some (node v (first rs none) next)) × Backward h rs (some a)

Backward-reverse_aux :
    (h : NodeHeap) (xs rs : Cells) (q : Ptr)
    → Chain h (first rs none) xs q
    → Backward h rs (first xs q)
    → Backward h (reverse_aux xs rs) q
Backward-reverse_aux h [] rs q c b = b
Backward-reverse_aux h ((a, v) ∷ xs) rs q (e, c) b =
    Backward-reverse_aux h xs ((a, v) ∷ rs) q c (e, b)

Distinct-reverse_aux :
    (xs rs : Cells)
    → Distinct xs
    → Distinct rs
    → ((c : ℕ) → has c xs ≡ true → has c rs ≡ false)
    → Distinct (reverse_aux xs rs)
Distinct-reverse_aux [] rs d e apart = e
Distinct-reverse_aux ((a, v) ∷ xs) rs (out, d) e apart =
    Distinct-reverse_aux xs ((a, v) ∷ rs) d (apart a (ground arith), e)
      (λ c m. rw (differ_of_has c a xs m out) (apart c (ground (arith, m))))

last-reverse_aux :
    (p : Ptr) (xs : Cells) (a v : ℕ) (rs : Cells)
    → last p (reverse_aux xs ((a, v) ∷ rs)) ≡ last (some a) rs
last-reverse_aux p [] a v rs = refl
last-reverse_aux p ((b, w) ∷ xs) a v rs = last-reverse_aux p xs b w ((a, v) ∷ rs)

first-reverse_aux : (xs rs : Cells) (q : Ptr) → first (reverse_aux xs rs) q ≡ last (first rs q) xs
first-reverse_aux [] rs q = refl
first-reverse_aux ((a, v) ∷ xs) rs q = first-reverse_aux xs ((a, v) ∷ rs) q

length-reverse_aux : (xs rs : Cells) → length (reverse_aux xs rs) ≡ length xs + length rs
length-reverse_aux [] rs = omega arith
length-reverse_aux ((a, v) ∷ xs) rs = length-reverse_aux xs ((a, v) ∷ rs) ∙ omega arith

pub length-reverse : (xs : Cells) → length (reverse xs) ≡ length xs
length-reverse xs = length-reverse_aux xs [] ∙ omega arith

last-reverse : (xs : Cells) → last none (reverse xs) ≡ first xs none
last-reverse [] = refl
last-reverse ((a, v) ∷ xs) = last-reverse_aux none xs a v []

-- A list from its back.
pub record IsBackward (l : LinkedList) (rs : Cells) : Type 0 where
  pub chain : Backward l.heap rs none
  pub back : l.back ≡ first rs none
  pub front : l.front ≡ last none rs
  pub distinct : Distinct rs

pub IsBackward-reverse : (l : LinkedList) (xs : Cells) → IsList l xs → IsBackward l (reverse xs)
IsBackward-reverse l xs is = record {
  chain = Backward-reverse_aux l.heap xs [] none is.chain tt;
  back = is.back ∙ sym (first-reverse_aux xs [] none);
  front = is.front ∙ sym (last-reverse xs);
  distinct = Distinct-reverse_aux xs [] is.distinct tt (λ c m. refl);
}

-- The end of a walk is at its last node, and at no node before.
pub end_here : (p : Ptr) (a : ℕ) → p ≡ some a → ptr_eq p (some a) ≡ true
end_here p a e = rw e (eq→== a a refl)

pub end_later :
    (p : Ptr) (a v b w : ℕ) (xs : Cells)
    → Distinct ((a, v) ∷ (b, w) ∷ xs)
    → p ≡ last (some b) xs
    → ptr_eq p (some a) ≡ false
end_later p a v b w xs (out, d) e =
    let (c, ec) = last-some b xs in rw (e, ec) (ground (arith, last_in b w xs c ec))
