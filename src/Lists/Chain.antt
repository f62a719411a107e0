-- ===== src/Lists/Chain.antt =====
-- What a list stands for: the addresses and values of its nodes, in order. From the front the `next`
-- pointers lead through these nodes, and the `previous` pointers lead back.
use kaby_lake_cache_c.Base.{
  ℕ, ◌≡◌, refl, ◌∙◌, arith, Bool, true, false, ◌||◌, Option, none, some, ◌==◌, update,
}
use mathlib.Core.List.{List, [], ◌∷◌, ◌++◌}
use kaby_lake_cache_c.Lists.{Ptr, ListNode, NodeHeap, LinkedList, modify, set_next, set_previous}

abbrev pub Cells : Type 0
Cells = List (ℕ × ℕ)

abbrev pub has : ℕ → Cells → Bool
has a [] = false
has a ((b, v) ∷ xs) = (a == b) || has a xs

abbrev pub Distinct : Cells → Type 0
Distinct [] = Unit {0}
Distinct ((a, v) ∷ xs) = (has a xs ≡ false) × Distinct xs

-- The first and the last address, or what lies beyond.
abbrev pub first : Cells → Ptr → Ptr
first [] next = next
first ((a, v) ∷ xs) next = some a

abbrev pub last : Ptr → Cells → Ptr
last previous [] = previous
last previous ((a, v) ∷ xs) = last (some a) xs

abbrev pub node : ℕ → Ptr → Ptr → ListNode
node v p q = record { value = v; previous = p; next = q }

-- The nodes of `xs` stand in the heap, between `previous` and `next`.
abbrev pub Chain : NodeHeap → (previous : Ptr) → Cells → (next : Ptr) → Type 0
Chain h previous [] next = Unit {0}
Chain h previous ((a, v) ∷ xs) next =
    (h a ≡ some (node v previous (first xs next))) × Chain h (some a) xs next

pub record IsList (l : LinkedList) (xs : Cells) : Type 0 where
  pub chain : Chain l.heap none xs none
  pub front : l.front ≡ first xs none
  pub back : l.back ≡ last none xs
  pub distinct : Distinct xs

-- The heap is the same outside these nodes.
abbrev pub SameOutside : Cells → NodeHeap → NodeHeap → Type 0
SameOutside xs h g = (a : ℕ) → has a xs ≡ false → g a ≡ h a

pub Chain-frame :
    (h g : NodeHeap) (p : Ptr) (xs : Cells) (q : Ptr)
    → ((a : ℕ) → has a xs ≡ true → g a ≡ h a)
    → Chain h p xs q
    → Chain g p xs q
Chain-frame h g p [] q same c = tt
Chain-frame h g p ((a, v) ∷ xs) q same (e, c) =
    (same a (ground arith) ∙ e, Chain-frame h g (some a) xs q (λ b m. same b (ground arith)) c)

pub Chain-update :
    (h : NodeHeap) (a : ℕ) (n : Option ListNode) (p : Ptr) (xs : Cells) (q : Ptr)
    → has a xs ≡ false
    → Chain h p xs q
    → Chain (update h a n) p xs q
Chain-update h a n p xs q out = Chain-frame h (update h a n) p xs q (λ b m. ground arith)

pub not_has_of_none :
    (h : NodeHeap) (a : ℕ) (p : Ptr) (xs : Cells) (q : Ptr)
    → h a ≡ none
    → Chain h p xs q
    → has a xs ≡ false
not_has_of_none h a p [] q e c = refl
not_has_of_none h a p ((b, v) ∷ xs) q e (d, c) =
    ground (arith, not_has_of_none h a (some b) xs q e c)

pub has-append : (a : ℕ) (xs ys : Cells) → has a (xs ++ ys) ≡ (has a xs || has a ys)
has-append a [] ys = refl
has-append a ((b, v) ∷ xs) ys = ground (arith, has-append a xs ys)

pub first-append : (xs ys : Cells) (q : Ptr) → first (xs ++ ys) q ≡ first xs (first ys q)
first-append [] ys q = refl
first-append (x ∷ xs) ys q = refl

pub last-append : (p : Ptr) (xs ys : Cells) → last p (xs ++ ys) ≡ last (last p xs) ys
last-append p [] ys = refl
last-append p ((a, v) ∷ xs) ys = last-append (some a) xs ys

pub Chain-append :
    (h : NodeHeap) (p : Ptr) (xs ys : Cells) (q : Ptr)
    → Chain h p xs (first ys q)
    → Chain h (last p xs) ys q
    → Chain h p (xs ++ ys) q
Chain-append h p [] ys q c d = d
Chain-append h p ((a, v) ∷ xs) ys q (e, c) d =
    (e ∙ rw (first-append xs ys q) refl, Chain-append h (some a) xs ys q c d)

pub Chain-split :
    (h : NodeHeap) (p : Ptr) (xs ys : Cells) (q : Ptr)
    → Chain h p (xs ++ ys) q
    → Chain h p xs (first ys q) × Chain h (last p xs) ys q
Chain-split h p [] ys q c = (tt, c)
Chain-split h p ((a, v) ∷ xs) ys q (e, c) =
    let (c1, c2) = Chain-split h (some a) xs ys q c in
    ((e ∙ rw (first-append xs ys q) refl, c1), c2)

pub Distinct-append :
    (xs ys : Cells)
    → Distinct xs
    → Distinct ys
    → ((a : ℕ) → has a xs ≡ true → has a ys ≡ false)
    → Distinct (xs ++ ys)
Distinct-append [] ys d e apart = e
Distinct-append ((a, v) ∷ xs) ys (out, d) e apart = (
  rw (has-append a xs ys, out) (apart a (ground arith)),
  Distinct-append xs ys d e (λ b m. apart b (ground arith)),
)

pub Distinct-split :
    (xs ys : Cells)
    → Distinct (xs ++ ys)
    → Distinct xs × Distinct ys × ((a : ℕ) → has a xs ≡ true → has a ys ≡ false)
Distinct-split [] ys d = (tt, d, λ a m. absurd (cc))
Distinct-split ((a, v) ∷ xs) ys (out, d) =
    let (dx, dy, apart) = Distinct-split xs ys d in
    (
      (ground (arith, has-append a xs ys), dx),
      dy,
      λ b m. ground (arith, has-append a xs ys, apart b),
    )

-- A write to the field `next` of the last node.
pub set_next-Chain :
    (h : NodeHeap) (p : Ptr) (a v : ℕ) (xs : Cells) (q r : Ptr)
    → Distinct ((a, v) ∷ xs)
    → Chain h p ((a, v) ∷ xs) q
    → (g : NodeHeap) × (set_next h (last (some a) xs) r ≡ some g)
      × Chain g p ((a, v) ∷ xs) r
      × SameOutside ((a, v) ∷ xs) h g
unfolding modify
set_next-Chain h p a v [] q r d (e, c) =
    (update h a (some (node v p r)), rw e refl, (ground arith, tt), λ b out. ground arith)
set_next-Chain h p a v ((b, w) ∷ xs) q r (out, d) (e, c) =
    let (g, done, chain, same) = set_next-Chain h (some a) b w xs q r d c in
    (g, done, (same a out ∙ e, chain), λ c o. same c (ground arith))

-- A write to the field `previous` of the first node.
pub set_previous-Chain :
    (h : NodeHeap) (p : Ptr) (a v : ℕ) (xs : Cells) (q r : Ptr)
    → Distinct ((a, v) ∷ xs)
    → Chain h p ((a, v) ∷ xs) q
    → (g : NodeHeap) × (set_previous h (some a) r ≡ some g)
      × Chain g r ((a, v) ∷ xs) q
      × SameOutside ((a, v) ∷ xs) h g
unfolding modify
set_previous-Chain h p a v xs q r (out, d) (e, c) = (
  update h a (some (node v r (first xs q))),
  rw e refl,
  (ground arith, Chain-update h a (some (node v r (first xs q))) (some a) xs q out c),
  λ b o. ground arith,
)
