-- ===== src/Lists/Move.antt =====
-- `move_back`.
use kaby_lake_cache_c.Base.{
  ℕ, Bool-cases, ◌≡◌, refl, ◌∙◌, ap, arith, true, false, Option, none, some, ◌==◌, eq→==,
}
use mathlib.Core.List.{[], ◌∷◌, ◌++◌, append-nil}
use kaby_lake_cache_c.Lists.{
  Ptr, LinkedList, ptr_eq, rotate, relink, move_node, move_back, is_empty_list, ◌>>=◌,
}
use kaby_lake_cache_c.Lists.Chain.{Cells, has, last, IsList, last-append, Distinct-split}
use kaby_lake_cache_c.Lists.Push.{last-some, is_empty-cons, push_back-IsList}
use kaby_lake_cache_c.Lists.Pop.{last_in, ends_differ, pop_front_cases}
use kaby_lake_cache_c.Lists.Relink.{Apart-head, relink-IsList}

-- The front of two nodes or more: its value goes to the new node behind the others.
rotate-IsList :
    (l : LinkedList) (a v b w : ℕ) (xs : Cells) (fresh : ℕ)
    → IsList l ((a, v) ∷ (b, w) ∷ xs)
    → l.heap fresh ≡ none
    → (l' : LinkedList) × (rotate l a (some fresh) ≡ some l')
      × IsList l' ((b, w) ∷ xs ++ (fresh, v) ∷ [])
unfolding rotate
rotate-IsList l a v b w xs fresh is unused =
    let (l1, pushed, is1, same1) = push_back-IsList l ((a, v) ∷ (b, w) ∷ xs) v fresh is unused in
    let (l2, popped, is2, same2) =
      pop_front_cases l1 ((a, v) ∷ (b, w) ∷ xs ++ (fresh, v) ∷ []) is1 in
    (l2, rw (is.chain.0, pushed, popped) refl, is2)

-- A node that is not the last is not the back.
last_differs :
    (p : Ptr) (ys : Cells) (a v d u : ℕ) (zs : Cells)
    → has a ((d, u) ∷ zs) ≡ false
    → ptr_eq (last p (ys ++ (a, v) ∷ (d, u) ∷ zs)) (some a) ≡ false
last_differs p ys a v d u zs out =
    let (c, e) = last-some d zs in
    rw (last-append p ys ((a, v) ∷ (d, u) ∷ zs), e) (ground (arith, last_in d u zs c e))

move_last :
    (l : LinkedList) (b w : ℕ) (xs : Cells) (a fresh : ℕ)
    → IsList l ((b, w) ∷ xs)
    → l.back ≡ some a
    → move_back (some l) (some a) (some fresh) ≡ some (some l)
unfolding move_back move_node
move_last l b w xs a fresh is e =
    rw (is_empty-cons l b w xs is, e, eq→== a a refl)
      (ground (arith, Bool-cases (ptr_eq l.front (some a))))

-- The two cases of `move_back` that write.
move_back-rotate :
    (l l' : LinkedList) (a : ℕ) (m : Ptr)
    → is_empty_list (some l) ≡ 0
    → ptr_eq l.front l.back ≡ false
    → ptr_eq l.back (some a) ≡ false
    → ptr_eq l.front (some a) ≡ true
    → rotate l a m ≡ some l'
    → move_back (some l) (some a) m ≡ some (some l')
unfolding move_back move_node
move_back-rotate l l' a m e ends other front done =
    rw (e, ends, other, front) (ap (λ o. o >>= λ k. some (some k)) done)

move_back-relink :
    (l l' : LinkedList) (a : ℕ) (m : Ptr)
    → is_empty_list (some l) ≡ 0
    → ptr_eq l.front l.back ≡ false
    → ptr_eq l.back (some a) ≡ false
    → ptr_eq l.front (some a) ≡ false
    → relink l a ≡ some l'
    → move_back (some l) (some a) m ≡ some (some l')
unfolding move_back move_node
move_back-relink l l' a m e ends other front done =
    rw (e, ends, other, front) (ap (λ o. o >>= λ k. some (some k)) done)

ends_apart :
    (l : LinkedList) (a v b w : ℕ) (xs : Cells)
    → IsList l ((a, v) ∷ (b, w) ∷ xs)
    → ptr_eq l.front l.back ≡ false
ends_apart l a v b w xs is = rw (is.front, is.back) (ends_differ a v b w xs is.distinct)

front_is :
    (l : LinkedList) (b w a : ℕ) (xs : Cells)
    → IsList l ((b, w) ∷ xs)
    → ptr_eq l.front (some a) ≡ (b == a)
front_is l b w a xs is = rw is.front refl

ends_of_inner :
    (l : LinkedList) (b w a v d u : ℕ) (ys zs : Cells)
    → IsList l ((b, w) ∷ ys ++ (a, v) ∷ (d, u) ∷ zs)
    → ptr_eq l.front l.back ≡ false
ends_of_inner l b w a v d u [] zs is = ends_apart l b w a v ((d, u) ∷ zs) is
ends_of_inner l b w a v d u ((c, x) ∷ ys) zs is =
    ends_apart l b w c x (ys ++ (a, v) ∷ (d, u) ∷ zs) is

-- What `move_back` of the node at `a` makes of a list: the value of that node stands last, all other
-- nodes keep address, value and order.
abbrev pub Moved : Cells → ℕ → Cells → Option (Option LinkedList) → Type 0
Moved ys v zs r =
    (l' : LinkedList) × (a' : ℕ) × (r ≡ some (some l')) × IsList l' ((ys ++ zs) ++ (a', v) ∷ [])

pub move_back-Moved :
    (l : LinkedList) (ys : Cells) (a v : ℕ) (zs : Cells) (fresh : ℕ)
    → IsList l (ys ++ (a, v) ∷ zs)
    → l.heap fresh ≡ none
    → Moved ys v zs (move_back (some l) (some a) (some fresh))
move_back-Moved l [] a v [] fresh is unused = (l, a, move_last l a v [] a fresh is is.back, is)
move_back-Moved l ((b, w) ∷ ys) a v [] fresh is unused = (
  l,
  a,
  move_last l b w (ys ++ (a, v) ∷ []) a fresh is (is.back ∙ last-append (some b) ys ((a, v) ∷ [])),
  rw (append-nil ys) is,
)
move_back-Moved l [] a v ((d, u) ∷ zs) fresh is unused =
    let (l', done, is') = rotate-IsList l a v d u zs fresh is unused in
    (
      l',
      fresh,
      move_back-rotate l l' a (some fresh) (is_empty-cons l a v ((d, u) ∷ zs) is)
          (ends_apart l a v d u zs is)
          (ap (λ p. ptr_eq p (some a)) is.back ∙ last_differs none [] a v d u zs is.distinct.0)
          (front_is l a v a ((d, u) ∷ zs) is ∙ eq→== a a refl) done,
      is',
    )
move_back-Moved l ((b, w) ∷ ys) a v ((d, u) ∷ zs) fresh is unused =
    let (l', done, is') = relink-IsList l a v b w d u ys zs is in
    let before = (b, w) ∷ ys in
    let (db, (out, da), apart) = Distinct-split before ((a, v) ∷ (d, u) ∷ zs) is.distinct in
    (
      l',
      a,
      move_back-relink l l' a (some fresh) (is_empty-cons l b w (ys ++ (a, v) ∷ (d, u) ∷ zs) is)
          (ends_of_inner l b w a v d u ys zs is)
          (ap (λ p. ptr_eq p (some a)) is.back ∙ last_differs none before a v d u zs out)
          (front_is l b w a (ys ++ (a, v) ∷ (d, u) ∷ zs) is
            ∙ ground (arith, Apart-head before a v ((d, u) ∷ zs) apart))
          done,
      is',
    )
