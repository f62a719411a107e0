-- ===== src/Lists/Pop.antt =====
-- `pop_front` and `pop_back`.
use kaby_lake_cache_c.Base.{ℕ, ◌≡◌, refl, arith, true, false, Option, none, some, ◌==◌, eq→==}
use mathlib.Core.List.{[], ◌∷◌}
use kaby_lake_cache_c.Lists.{
  Ptr, ListNode, NodeHeap, LinkedList, ptr_eq, modify, free, unlink_front, pop_front, unlink_back,
  pop_back,
}
use kaby_lake_cache_c.Lists.Chain.{
  Cells, has, Distinct, last, node, Chain, IsList, SameOutside, set_previous-Chain,
}
use kaby_lake_cache_c.Lists.Push.{last-some, is_empty-cons, is_empty-nil}

-- The last of two or more nodes is not the first.
pub last_in :
    (a v : ℕ) (xs : Cells) (b : ℕ) → last (some a) xs ≡ some b → has b ((a, v) ∷ xs) ≡ true
last_in a v [] b e = ground arith
last_in a v ((c, w) ∷ xs) b e = ground (arith, last_in c w xs b e)

pub ends_differ :
    (a v b w : ℕ) (xs : Cells)
    → Distinct ((a, v) ∷ (b, w) ∷ xs)
    → ptr_eq (some a) (last (some b) xs) ≡ false
ends_differ a v b w xs (out, d) =
    let (c, e) = last-some b xs in rw e (ground (arith, last_in b w xs c e))

unlink_front-IsList :
    (l : LinkedList) (a v b w : ℕ) (xs : Cells)
    → IsList l ((a, v) ∷ (b, w) ∷ xs)
    → (l' : LinkedList) × (unlink_front l ≡ some l')
      × IsList l' ((b, w) ∷ xs)
      × SameOutside ((b, w) ∷ xs) l.heap l'.heap
unfolding unlink_front
unlink_front-IsList l a v b w xs is =
    let (e, c) = is.chain in
    let (g, done, chain, same) =
      set_previous-Chain l.heap (some a) b w xs none none is.distinct.1 c in
    rw (is.front, is.back, ends_differ a v b w xs is.distinct, e, done)
      (_, refl, record { chain = chain; front = refl; back = refl; distinct = is.distinct.1 }, same)

-- What `pop_front` makes of a list. An empty list stays. A single node is freed twice, and read
-- after that. Else the first node is gone from the list, and still stands in the heap.
abbrev pub FrontPopped : LinkedList → Cells → Option (Option LinkedList) → Type 0
FrontPopped l [] r = r ≡ some (some l)
FrontPopped l ((a, v) ∷ []) r = r ≡ none
FrontPopped l ((a, v) ∷ y ∷ xs) r =
    (l' : LinkedList) × (r ≡ some (some l'))
    × IsList l' (y ∷ xs)
    × SameOutside (y ∷ xs) l.heap l'.heap

-- `pop_front` leaves an empty list, does what C leaves undefined at a list of one node, and else takes
-- the first node off the list and writes no node that is not in the rest: it does not free it.
pub pop_front_cases :
    (l : LinkedList) (xs : Cells) → IsList l xs → FrontPopped l xs (pop_front (some l))
unfolding pop_front unlink_front free
pop_front_cases l [] is = rw (is_empty-nil l is) refl
pop_front_cases l ((a, v) ∷ []) is =
    rw (is_empty-cons l a v [] is, is.front, is.back, eq→== a a refl, is.chain.0, eq→== a a refl)
      refl
pop_front_cases l ((a, v) ∷ (b, w) ∷ xs) is =
    let (l', done, is', same) = unlink_front-IsList l a v b w xs is in
    rw (is_empty-cons l a v ((b, w) ∷ xs) is) (l', rw done refl, is', same)

-- The last two nodes of a list.
record LastTwo (h : NodeHeap) (back : Ptr) : Type 0 where
  at : ℕ
  value : ℕ
  before : ℕ
  node_before : ListNode
  is_back : back ≡ some at
  last_node : h at ≡ some (node value (some before) none)
  stands : h before ≡ some node_before
  differ : (at == before) ≡ false

last_two :
    (h : NodeHeap) (p : Ptr) (a v b w : ℕ) (xs : Cells)
    → Distinct ((a, v) ∷ (b, w) ∷ xs)
    → Chain h p ((a, v) ∷ (b, w) ∷ xs) none
    → LastTwo h (last (some b) xs)
last_two h p a v b w [] (out, d) (e, (f, c)) = record {
  at = b;
  value = w;
  before = a;
  node_before = node v p (some b);
  is_back = refl;
  last_node = f;
  stands = e;
  differ = ground arith;
}
last_two h p a v b w ((c, u) ∷ xs) (out, d) (e, rest) = last_two h (some a) b w c u xs d rest

unlink_back-two :
    (l : LinkedList) (a : ℕ)
    → l.front ≡ some a
    → ptr_eq (some a) l.back ≡ false
    → LastTwo l.heap l.back
    → (l' : LinkedList) × (b : ℕ) × (unlink_back l ≡ some l')
      × (l'.front ≡ some a)
      × (l'.back ≡ some b)
      × (l'.heap b ≡ none)
unfolding unlink_back modify free
unlink_back-two l a e ne t =
    let apart : (a == t.at) ≡ false = rw t.is_back at ne in
    let self : (t.at == t.at) ≡ true = eq→== t.at t.at refl in
    let other : (t.before == t.at) ≡ false = ground (arith, t.differ) in
    rw (e, t.is_back, apart, t.last_node, self, other, t.stands, t.differ, self)
      (_, t.before, refl, refl, refl, rw (other, eq→== t.before t.before refl) refl)

-- What `pop_back` makes of a list of two nodes or more: the front stays, and the back is a pointer to
-- a node that was freed.
abbrev pub BackPopped : LinkedList → Cells → Option (Option LinkedList) → Type 0
BackPopped l [] r = r ≡ some (some l)
BackPopped l ((a, v) ∷ []) r = r ≡ none
BackPopped l ((a, v) ∷ y ∷ xs) r =
    (l' : LinkedList) × (b : ℕ) × (r ≡ some (some l'))
    × (l'.front ≡ some a)
    × (l'.back ≡ some b)
    × (l'.heap b ≡ none)

-- `pop_back` leaves an empty list, does what C leaves undefined at a list of one node, and else
-- returns with the front as it was and with a back that points to a node it has freed.
pub pop_back_cases :
    (l : LinkedList) (xs : Cells) → IsList l xs → BackPopped l xs (pop_back (some l))
unfolding pop_back unlink_back modify free
pop_back_cases l [] is = rw (is_empty-nil l is) refl
pop_back_cases l ((a, v) ∷ []) is =
    rw (is_empty-cons l a v [] is, is.front, is.back, eq→== a a refl, is.chain.0, eq→== a a refl)
      refl
pop_back_cases l ((a, v) ∷ (b, w) ∷ xs) is =
    let two : LastTwo l.heap l.back =
      rw is.back (last_two l.heap none a v b w xs is.distinct is.chain) in
    let apart : ptr_eq (some a) l.back ≡ false = rw is.back (ends_differ a v b w xs is.distinct) in
    let (l', c, done, front, back, gone) = unlink_back-two l a is.front apart two in
    rw (is_empty-cons l a v ((b, w) ∷ xs) is) (l', c, rw done refl, front, back, gone)
