-- ===== src/Lists/Push.antt =====
-- `push_back` and `push_front`.
use kaby_lake_cache_c.Base.{
  ℕ, ◌≡◌, refl, sym, ◌∙◌, ap, arith, true, false, Option, none, some, ◌==◌, update,
}
use mathlib.Core.List.{[], ◌∷◌, ◌++◌}
use kaby_lake_cache_c.Lists.{
  LinkedList, is_empty_list, link_back, push_back, link_front, push_front,
}
use kaby_lake_cache_c.Lists.Chain.{
  Cells, has, last, node, IsList, SameOutside, Chain-update, not_has_of_none, has-append,
  last-append, Chain-append, Distinct-append, set_next-Chain, set_previous-Chain,
}

pub last-some : (a : ℕ) (xs : Cells) → (b : ℕ) × (last (some a) xs ≡ some b)
last-some a [] = (a, refl)
last-some a ((b, v) ∷ xs) = last-some b xs

pub is_empty-cons :
    (l : LinkedList) (a v : ℕ) (xs : Cells) → IsList l ((a, v) ∷ xs) → is_empty_list (some l) ≡ 0
unfolding is_empty_list
is_empty-cons l a v xs is = let (b, e) = last-some a xs in rw (is.front, is.back, e) refl

pub is_empty-nil : (l : LinkedList) → IsList l [] → is_empty_list (some l) ≡ 1
unfolding is_empty_list
is_empty-nil l is = rw (is.front, is.back) refl

pub apart_from :
    (b a v : ℕ) (xs : Cells) → has b xs ≡ true → has a xs ≡ false → has b ((a, v) ∷ []) ≡ false
apart_from b a v xs m out = ground (arith, ap (λ c. has c xs))

pub outside-snoc :
    (c a v : ℕ) (xs : Cells)
    → has c (xs ++ (a, v) ∷ []) ≡ false
    → (has c xs ≡ false) × ((c == a) ≡ false)
outside-snoc c a v xs o = ground (arith, has-append c xs ((a, v) ∷ []))

-- The list is now `ys`, and no node outside it was written.
abbrev pub Became : LinkedList → Cells → Option LinkedList → Type 0
Became l ys r = (l' : LinkedList) × (r ≡ some l') × IsList l' ys × SameOutside ys l.heap l'.heap

link_back-Became :
    (l : LinkedList) (xs : Cells) (value a : ℕ)
    → IsList l xs
    → l.heap a ≡ none
    → Became l (xs ++ (a, value) ∷ []) (link_back l value a)
unfolding link_back
link_back-Became l [] value a is unused = rw (is_empty-nil l is) (
  _,
  refl,
  record {
    chain = (rw is.back (ground arith), tt);
    front = refl;
    back = refl;
    distinct = (refl, tt);
  },
  λ b out. ground arith,
)
link_back-Became l ((b, v) ∷ xs) value a is unused =
    let new = node value (last (some b) xs) none in
    let h = update l.heap a (some new) in
    let out = not_has_of_none l.heap a none ((b, v) ∷ xs) none unused is.chain in
    let c = Chain-update l.heap a (some new) none ((b, v) ∷ xs) none out is.chain in
    let (g, done, chain, same) = set_next-Chain h none b v xs none (some a) is.distinct c in
    rw (is_empty-cons l b v xs is, is.back, done)
      (
        _,
        refl,
        record {
          chain =
              Chain-append g none ((b, v) ∷ xs) ((a, value) ∷ []) none chain
                (same a out ∙ ground arith, tt);
          front = is.front;
          back = sym (last-append none ((b, v) ∷ xs) ((a, value) ∷ []));
          distinct =
              Distinct-append ((b, v) ∷ xs) ((a, value) ∷ []) is.distinct (refl, tt)
                (λ c m. apart_from c a value ((b, v) ∷ xs) m out);
        },
        λ c o. let (o1, o2) = outside-snoc c a value ((b, v) ∷ xs) o in same c o1 ∙ rw o2 refl,
      )

-- `push_back` of a list, where `malloc` gives an unused address, returns that node. It stands behind
-- the others with the value, all other nodes keep address, value and order, and nothing else is
-- written.
pub push_back-IsList :
    (l : LinkedList) (xs : Cells) (value a : ℕ)
    → IsList l xs
    → l.heap a ≡ none
    → (l' : LinkedList) × (push_back (some l) value (some a) ≡ some (some a, some l'))
      × IsList l' (xs ++ (a, value) ∷ [])
      × SameOutside (xs ++ (a, value) ∷ []) l.heap l'.heap
unfolding push_back
push_back-IsList l xs value a is unused =
    let (l', done, is', same) = link_back-Became l xs value a is unused in
    (l', rw done refl, is', same)

link_front-Became :
    (l : LinkedList) (xs : Cells) (value a : ℕ)
    → IsList l xs
    → l.heap a ≡ none
    → Became l ((a, value) ∷ xs) (link_front l value a)
unfolding link_front
link_front-Became l [] value a is unused =
    rw (is_empty-nil l is, is.front)
      (
        _,
        refl,
        record { chain = (ground arith, tt); front = refl; back = refl; distinct = (refl, tt) },
        λ b out. ground arith,
      )
link_front-Became l ((b, v) ∷ xs) value a is unused =
    let new = node value none (some b) in
    let h = update l.heap a (some new) in
    let out = not_has_of_none l.heap a none ((b, v) ∷ xs) none unused is.chain in
    let c = Chain-update l.heap a (some new) none ((b, v) ∷ xs) none out is.chain in
    let (g, done, chain, same) = set_previous-Chain h none b v xs none (some a) is.distinct c in
    rw (is_empty-cons l b v xs is, is.front, done)
      (
        _,
        refl,
        record {
          chain = (same a out ∙ ground arith, chain);
          front = refl;
          back = is.back;
          distinct = (out, is.distinct);
        },
        λ c o. same c (ground arith) ∙ ground arith,
      )

-- `push_front` of a list, where `malloc` gives an unused address, returns that node. It stands before
-- the others with the value, all other nodes keep address, value and order, and nothing else is
-- written.
pub push_front-IsList :
    (l : LinkedList) (xs : Cells) (value a : ℕ)
    → IsList l xs
    → l.heap a ≡ none
    → (l' : LinkedList) × (push_front (some l) value (some a) ≡ some (some a, some l'))
      × IsList l' ((a, value) ∷ xs)
      × SameOutside ((a, value) ∷ xs) l.heap l'.heap
unfolding push_front
push_front-IsList l xs value a is unused =
    let (l', done, is', same) = link_front-Became l xs value a is unused in
    (l', rw done refl, is', same)
