-- ===== src/Lists/Clear.antt =====
-- `clear_list`.
use kaby_lake_cache_c.Base.{
  length, ℕ, zero, suc, ◌≤◌, ◌≡◌, refl, ◌∙◌, ap, arith, Bool, true, false, ◌||◌, Option, none, some,
  ◌==◌, eq→==, if◌then◌else◌, update,
}
use mathlib.Core.List.{[], ◌∷◌}
use kaby_lake_cache_c.Lists.{
  Ptr, ListNode, NodeHeap, LinkedList, modify, free, ◌>>=◌, set_value, set_previous, is_empty_list,
  unless_null, unless_empty,
}
use kaby_lake_cache_c.Lists.Chain.{
  Cells, has, Distinct, first, last, node, Chain, IsList, Chain-frame,
}
use kaby_lake_cache_c.Lists.Push.{is_empty-cons, is_empty-nil}

-- The loop of `clear_list` from `node` on. `none` too if the rounds do not suffice.
unfoldable pub clear_loop : (rounds : ℕ) → NodeHeap → (node : Ptr) → Option NodeHeap
unfolding modify free
clear_loop rounds h none = some h
clear_loop zero h (some at) = none
clear_loop (suc rounds) h (some at) = do
  h1 ← set_value h (some at) 0
  n ← h1 at
  h2 ← free h1 n.previous
  h3 ← set_previous h2 (some at) none
  n3 ← h3 at
  clear_loop rounds h3 n3.next

unfoldable pub clear_nodes : (rounds : ℕ) → LinkedList → Option LinkedList
unfolding clear_loop free
clear_nodes rounds this = do
  h ← clear_loop rounds this.heap this.front
  h' ← free h this.back
  some (record { heap = h'; front = none; back = none })

unfoldable pub clear_list : (rounds : ℕ) → Option LinkedList → Option (Option LinkedList)
unfolding is_empty_list clear_nodes
clear_list rounds this = unless_null this λ l. unless_empty l (clear_nodes rounds)

abbrev is_at : Ptr → ℕ → Bool
is_at none c = false
is_at (some b) c = c == b

-- The node before `xs` still stands, and is none of them.
abbrev Behind : NodeHeap → Ptr → Cells → Type 0
Behind h none xs = Unit {0}
Behind h (some b) xs = (n : ListNode) × (h b ≡ some n) × (has b xs ≡ false)

abbrev without : NodeHeap → Bool → ℕ → Option ListNode
without h gone c = if gone then none else h c

-- One round of the loop: the node before is freed, and this one is left.
clear_round :
    (h : NodeHeap) (k : ℕ) (p : Ptr) (a v : ℕ) (xs : Cells)
    → Behind h p ((a, v) ∷ xs)
    → h a ≡ some (node v p (first xs none))
    → (g : NodeHeap) × (clear_loop (suc k) h (some a) ≡ clear_loop k g (first xs none))
      × (g a ≡ some (node 0 none (first xs none)))
      × ((c : ℕ) → (c == a) ≡ false → g c ≡ without h (is_at p c) c)
unfolding clear_loop modify free
clear_round h k none a v xs b e =
    let self = eq→== a a refl in
    rw (e, self, self, self) (_, refl, rw self refl, λ c o. ground arith)
clear_round h k (some b) a v xs (n, eb, out) e =
    let self = eq→== a a refl in
    let other : (b == a) ≡ false = ground (arith, out) in
    let other' : (a == b) ≡ false = ground (arith, out) in
    rw (e, self, other, eb, other', self, self) (_, refl, rw self refl, λ c o. ground arith)

free-Behind :
    (h : NodeHeap) (p : Ptr)
    → Behind h p []
    → (g : NodeHeap) × (free h p ≡ some g) × ((c : ℕ) → g c ≡ without h (is_at p c || false) c)
unfolding free
free-Behind h none b = (h, refl, λ c. refl)
free-Behind h (some a) (n, e, out) = (update h a none, rw e refl, λ c. ground arith)

clear_loop-none : (k : ℕ) (h : NodeHeap) → clear_loop k h none ≡ some h
unfolding clear_loop
clear_loop-none zero h = refl
clear_loop-none (suc k) h = refl

-- What a round and the rounds behind it free.
gone_together :
    (h g0 g : NodeHeap) (p : Ptr) (a v : ℕ) (xs : Cells)
    → Behind h p ((a, v) ∷ xs)
    → ((c : ℕ) → (c == a) ≡ false → g0 c ≡ without h (is_at p c) c)
    → ((c : ℕ) → g c ≡ without g0 ((c == a) || has c xs) c)
    → (c : ℕ) → g c ≡ without h (is_at p c || has c ((a, v) ∷ xs)) c
gone_together h g0 g none a v xs b round rest c = ground (arith, round c, rest c)
gone_together h g0 g (some d) a v xs b round rest c = ground (arith, round c, rest c)

pub differ_of_has : (c a : ℕ) (xs : Cells) → has c xs ≡ true → has a xs ≡ false → (c == a) ≡ false
differ_of_has c a xs m out = ground (arith, ap (λ b. has b xs))

untouched :
    (h g0 : NodeHeap) (p : Ptr) (a v : ℕ) (xs : Cells)
    → Behind h p ((a, v) ∷ xs)
    → has a xs ≡ false
    → ((c : ℕ) → (c == a) ≡ false → g0 c ≡ without h (is_at p c) c)
    → (c : ℕ) → has c xs ≡ true
    → g0 c ≡ h c
untouched h g0 none a v xs b out round c m = round c (differ_of_has c a xs m out)
untouched h g0 (some d) a v xs (n, e, far) out round c m =
    round c (differ_of_has c a xs m out) ∙ rw (differ_of_has c d xs m (ground arith)) refl

-- The loop and the `free` behind it free every node once, and the one before them.
clear_loop-frees :
    (h : NodeHeap) (k : ℕ) (p : Ptr) (xs : Cells)
    → length xs ≤ k
    → Distinct xs
    → Behind h p xs
    → Chain h p xs none
    → (g : NodeHeap) × ((clear_loop k h (first xs none) >>= λ h'. free h' (last p xs)) ≡ some g)
      × ((c : ℕ) → g c ≡ without h (is_at p c || has c xs) c)
clear_loop-frees h k p [] enough d b c =
    let (g, done, gone) = free-Behind h p b in
    (g, ap (λ o. o >>= λ h'. free h' p) (clear_loop-none k h) ∙ done, gone)
clear_loop-frees h zero p ((a, v) ∷ xs) enough d b c = absurd (ground arith)
clear_loop-frees h (suc k) p ((a, v) ∷ xs) enough (out, d) b (e, c) =
    let (g0, one, ea, round) = clear_round h k p a v xs b e in
    let same = untouched h g0 p a v xs b out round in
    let (g, done, gone) =
      clear_loop-frees g0 k (some a) xs (omega arith) d (_, ea, out)
        (Chain-frame h g0 (some a) xs none same c) in
    (
      g,
      ap (λ o. o >>= λ h'. free h' (last (some a) xs)) one ∙ done,
      gone_together h g0 g p a v xs b round gone,
    )

bind_twice :
    {A B C : Type 0} (o : Option A) (f : A → Option B) (k : B → Option C) (b : B)
    → (o >>= f) ≡ some b
    → (o >>= λ a. f a >>= k) ≡ k b
bind_twice none f k b e = absurd (cc)
bind_twice (some a) f k b e = ap (λ p. p >>= k) e

clear_nodes-done :
    (l : LinkedList) (rounds : ℕ) (p q : Ptr) (g : NodeHeap)
    → l.front ≡ p
    → l.back ≡ q
    → (clear_loop rounds l.heap p >>= λ h'. free h' q) ≡ some g
    → clear_nodes rounds l ≡ some (record { heap = g; front = none; back = none })
unfolding clear_nodes
clear_nodes-done l rounds p q g ep eq done =
    rw (ep, eq)
      (bind_twice (clear_loop rounds l.heap p) (λ h. free h q)
        (λ h. some (record { heap = h; front = none; back = none })) g done)

-- `clear_list` of a list terminates: it leaves an empty list, has freed every node of the list once
-- and no other, and has written no node outside the list. A round for each node is enough.
pub clear_list-frees :
    (l : LinkedList) (xs : Cells) (rounds : ℕ)
    → IsList l xs
    → length xs ≤ rounds
    → (l' : LinkedList) × (clear_list rounds (some l) ≡ some (some l'))
      × IsList l' []
      × ((c : ℕ) → l'.heap c ≡ (if has c xs then none else l.heap c))
unfolding clear_list
clear_list-frees l [] rounds is enough = rw (is_empty-nil l is) (l, refl, is, λ c. refl)
clear_list-frees l ((a, v) ∷ xs) rounds is enough =
    let (g, done, gone) =
      clear_loop-frees l.heap rounds none ((a, v) ∷ xs) enough is.distinct tt is.chain in
    let l' : LinkedList = record { heap = g; front = none; back = none } in
    (
      l',
      rw (is_empty-cons l a v xs is) (
          ap (λ o. o >>= λ k. some (some k))
            (clear_nodes-done l rounds (some a) (last (some a) xs) g is.front is.back done)),
      record { chain = tt; front = refl; back = refl; distinct = tt },
      gone,
    )
