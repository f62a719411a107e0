-- ===== src/Lists.antt =====
-- list.h and list.c: doubly linked lists. The nodes stand in a heap, a function of the address; an
-- address without a node was never allocated, or was freed. `list_t` is kept beside the heap. A
-- result `none` is what C leaves undefined: a read, a write or a `free` at such an address.
pub mod Chain
pub mod Push
pub mod Pop
pub mod Relink
pub mod Move
pub mod Clear
pub mod Backward
pub mod Print
use kaby_lake_cache_c.Base.{
  ℕ, zero, suc, ◌+◌, Bool, true, false, ◌||◌, Option, none, some, ◌==◌, not_zero, if◌then◌else◌,
  update,
}
use kaby_lake_cache_c.Outcome.{err_bad_parameter, code_number}
use mathlib.Core.List.{List, [], ◌∷◌}

abbrev pub Ptr : Type 0
Ptr = Option ℕ

pub record ListNode : Type 0 where
  pub value : ℕ
  pub previous : Ptr
  pub next : Ptr

abbrev pub NodeHeap : Type 0
NodeHeap = ℕ → Option ListNode

-- A `list_t` and the heap that its nodes are in.
pub record LinkedList : Type 0 where
  pub heap : NodeHeap
  pub front : Ptr
  pub back : Ptr

infixl 5 ◌>>=◌
abbrev pub ◌>>=◌ : {A B : Type 0} → Option A → (A → Option B) → Option B
none >>= k = none
some a >>= k = k a

abbrev pub ptr_eq : Ptr → Ptr → Bool
ptr_eq none none = true
ptr_eq none (some b) = false
ptr_eq (some a) none = false
ptr_eq (some a) (some b) = a == b

-- The node that a pointer leads to.
abbrev pub load : NodeHeap → Ptr → Option ListNode
load h none = none
load h (some a) = h a

abbrev pub modified : NodeHeap → ℕ → (ListNode → ListNode) → Option ListNode → Option NodeHeap
modified h a f none = none
modified h a f (some n) = some (update h a (some (f n)))

-- A write to a field of the node.
unfoldable pub modify : NodeHeap → Ptr → (ListNode → ListNode) → Option NodeHeap
modify h none f = none
modify h (some a) f = modified h a f (h a)

abbrev pub set_next : NodeHeap → Ptr → Ptr → Option NodeHeap
set_next h p q = modify h p (λ n. record n { next = q })

abbrev pub set_previous : NodeHeap → Ptr → Ptr → Option NodeHeap
set_previous h p q = modify h p (λ n. record n { previous = q })

abbrev pub set_value : NodeHeap → Ptr → ℕ → Option NodeHeap
set_value h p v = modify h p (λ n. record n { value = v })

abbrev pub freed : NodeHeap → ℕ → Option ListNode → Option NodeHeap
freed h a none = none
freed h a (some n) = some (update h a none)

-- `free` of NULL does nothing; `free` of a node that is not there is undefined.
unfoldable pub free : NodeHeap → Ptr → Option NodeHeap
free h none = some h
free h (some a) = freed h a (h a)

-- 1 if both are NULL, ERR_BAD_PARAMETER if one is, and 0 else.
abbrev pub emptiness : (front back : Ptr) → ℕ
emptiness none none = 1
emptiness none (some b) = code_number err_bad_parameter
emptiness (some a) none = code_number err_bad_parameter
emptiness (some a) (some b) = 0

unfoldable pub is_empty_list : Option LinkedList → ℕ
unfolding code_number
is_empty_list none = code_number err_bad_parameter
is_empty_list (some this) = emptiness this.front this.back

-- `if (this == NULL) return;`
abbrev pub unless_null :
    Option LinkedList → (LinkedList → Option LinkedList) → Option (Option LinkedList)
unless_null none body = some none
unless_null (some this) body = body this >>= λ l. some (some l)

unfoldable pub init_list : Option LinkedList → Option (Option LinkedList)
init_list this = unless_null this λ l. some (record l { front = none; back = none })

-- `push_back` with the node that `malloc` gave.
unfoldable pub link_back : LinkedList → ℕ → (newback : ℕ) → Option LinkedList
unfolding is_empty_list modify
link_back this value newback =
    let node : ListNode = record { value = value; previous = this.back; next = none } in
    let h = update this.heap newback (some node) in
    if not_zero (is_empty_list (some this))
    then some (record { heap = h; front = some newback; back = some newback })
    else (set_next h this.back (some newback) >>= λ h'.
        some (record { heap = h'; front = this.front; back = some newback }))

-- The pointer that `push_back` returns, and the list. `malloc` is what `malloc` gives.
unfoldable pub push_back : Option LinkedList → ℕ → (malloc : Ptr) → Option (Ptr × Option LinkedList)
unfolding link_back
push_back none value malloc = some (none, none)
push_back (some this) value none = some (none, some this)
push_back (some this) value (some newback) =
    link_back this value newback >>= λ l. some (some newback, some l)

-- `push_front` with the node that `malloc` gave.
unfoldable pub link_front : LinkedList → ℕ → (newfront : ℕ) → Option LinkedList
unfolding is_empty_list modify
link_front this value newfront =
    let node : ListNode = record { value = value; previous = none; next = this.front } in
    let h = update this.heap newfront (some node) in
    if not_zero (is_empty_list (some this))
    then some (record { heap = h; front = some newfront; back = some newfront })
    else (set_previous h this.front (some newfront) >>= λ h'.
        some (record { heap = h'; front = some newfront; back = this.back }))

unfoldable pub push_front :
    Option LinkedList → ℕ → (malloc : Ptr) → Option (Ptr × Option LinkedList)
unfolding link_front
push_front none value malloc = some (none, none)
push_front (some this) value none = some (none, some this)
push_front (some this) value (some newfront) =
    link_front this value newfront >>= λ l. some (some newfront, some l)

-- `pop_front` of a list that is not empty. A single node is freed twice.
unfoldable pub unlink_front : LinkedList → Option LinkedList
unfolding modify free
unlink_front this = do
  h ←
      if ptr_eq this.front this.back
      then (free this.heap this.back >>= λ h1. free h1 this.back)
      else some this.heap
  n ← load h this.front
  h' ← set_previous h n.next none
  some (record { heap = h'; front = n.next; back = this.back })

abbrev pub unless_empty : LinkedList → (LinkedList → Option LinkedList) → Option LinkedList
unless_empty this body = if not_zero (is_empty_list (some this)) then some this else body this

unfoldable pub pop_front : Option LinkedList → Option (Option LinkedList)
unfolding is_empty_list unlink_front
pop_front this = unless_null this λ l. unless_empty l unlink_front

-- `pop_back` of a list that is not empty. The node before the last is freed, and the last one kept.
unfoldable pub unlink_back : LinkedList → Option LinkedList
unfolding modify free
unlink_back this = do
  h ← if ptr_eq this.front this.back then free this.heap this.front else some this.heap
  b ← load h this.back
  h1 ← set_value h this.back 0
  b1 ← load h1 this.back
  h2 ← free h1 b1.previous
  h3 ← set_previous h2 this.back none
  some (record {
    heap = h3;
    front = if ptr_eq this.front this.back then none else this.front;
    back = b.previous;
  })

unfoldable pub pop_back : Option LinkedList → Option (Option LinkedList)
unfolding is_empty_list unlink_back
pop_back this = unless_null this λ l. unless_empty l unlink_back

-- `move_back` of the node at the front: its value goes to a new node, and the front is dropped.
unfoldable pub rotate : LinkedList → ℕ → (malloc : Ptr) → Option LinkedList
unfolding push_back pop_front
rotate this at malloc = do
  n ← this.heap at
  (p, pushed) ← push_back (some this) n.value malloc
  popped ← pop_front pushed
  popped

-- `move_back` of a node inside the list.
unfoldable pub relink : LinkedList → ℕ → Option LinkedList
unfolding modify
relink this at = do
  n ← this.heap at
  if ptr_eq n.next none then some this else (do
    h1 ← set_next this.heap n.previous n.next
    n1 ← h1 at
    h2 ← set_previous h1 n1.next n1.previous
    h3 ← set_next h2 this.back (some at)
    h4 ← set_previous h3 (some at) this.back
    h5 ← set_next h4 (some at) none
    some (record { heap = h5; front = this.front; back = some at }))

-- `move_back` of the node at `at` in a list that is not empty.
unfoldable pub move_node : ℕ → (malloc : Ptr) → LinkedList → Option LinkedList
unfolding rotate relink
move_node at malloc this =
    if ptr_eq this.front this.back || ptr_eq this.back (some at)
    then some this
    else if ptr_eq this.front (some at)
    then rotate this at malloc
    else relink this at

unfoldable pub move_back : Option LinkedList → (node malloc : Ptr) → Option (Option LinkedList)
unfolding is_empty_list move_node
move_back this none malloc = some this
move_back this (some at) malloc = unless_null this λ l. unless_empty l (move_node at malloc)
