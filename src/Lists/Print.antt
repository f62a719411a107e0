-- ===== src/Lists/Print.antt =====
-- `print_list` and `print_reverse_list`.
use kaby_lake_cache_c.Base.{
  length, ℕ, zero, suc, ◌+◌, ◌≤◌, ◌≡◌, sym, ◌∙◌, ap, arith, Option, none, some, if◌then◌else◌,
  subst, u32, not_zero, true,
}
use kaby_lake_cache_c.Outcome.{err_bad_parameter, code_number}
use mathlib.Core.List.{List, [], ◌∷◌, ◌++◌, reverse}
use kaby_lake_cache_c.Lists.{Ptr, LinkedList, ptr_eq, ◌>>=◌}
use kaby_lake_cache_c.Lists.Chain.{Cells, Distinct, first, last, Chain, IsList}
use kaby_lake_cache_c.Lists.Backward.{
  Backward, IsBackward-reverse, length-reverse, end_here, end_later,
}

-- What `print_list` and `print_reverse_list` write.
pub data Piece : Type 0 where
  opening comma closing : Piece
  number : ℕ → Piece

-- What `fprintf` to the stream returns, at a value of the counter.
abbrev pub Stream : Type 0
Stream = Piece → (counter : ℕ) → ℕ

abbrev pub prefixed : List Piece → Option (List Piece × ℕ) → Option (List Piece × ℕ)
prefixed ps o = do (rest, result) ← o; some (ps ++ rest, result)

-- `fprintf` of this piece, and what follows if it wrote: else the function returns 0.
abbrev pub printed :
    Stream → Piece → (counter : ℕ) → Option (List Piece × ℕ) → Option (List Piece × ℕ)
printed fprintf p counter rest =
    if not_zero (fprintf p counter) then prefixed (p ∷ []) rest else some ([], 0)

-- The loop of `print_list`: the pieces from `node` on, and what is returned.
unfoldable pub print_loop :
    Stream → (rounds : ℕ) → LinkedList → (node : Ptr) → (counter : ℕ) → Option (List Piece × ℕ)
print_loop fprintf rounds this none counter = some (closing ∷ [], counter)
print_loop fprintf zero this (some at) counter = none
print_loop fprintf (suc rounds) this (some at) counter = do
  n ← this.heap at
  let rest = print_loop fprintf rounds this n.next (u32 (counter + 1)) in
      prefixed (number n.value ∷ [])
        (if ptr_eq this.back (some at) then rest else printed fprintf comma counter rest)

unfoldable pub print_list :
    (rounds : ℕ) → (stream : Option Stream) → Option LinkedList → Option (List Piece × ℕ)
unfolding print_loop
print_list rounds (some fprintf) (some this) =
    printed fprintf opening 1 (print_loop fprintf rounds this this.front 1)
print_list rounds _ _ = some ([], code_number err_bad_parameter)

-- The loop of `print_reverse_list`.
unfoldable pub print_reverse_loop :
    Stream → (rounds : ℕ) → LinkedList → (node : Ptr) → (counter : ℕ) → Option (List Piece × ℕ)
print_reverse_loop fprintf rounds this none counter =
    printed fprintf closing counter (some ([], counter))
print_reverse_loop fprintf zero this (some at) counter = none
print_reverse_loop fprintf (suc rounds) this (some at) counter = do
  n ← this.heap at
  let rest = print_reverse_loop fprintf rounds this n.previous (u32 (counter + 1)) in
      prefixed (number n.value ∷ [])
        (if ptr_eq this.front (some at) then rest else printed fprintf comma counter rest)

unfoldable pub print_reverse_list :
    (rounds : ℕ) → (stream : Option Stream) → Option LinkedList → Option (List Piece × ℕ)
unfolding print_reverse_loop
print_reverse_list rounds (some fprintf) (some this) =
    printed fprintf opening 1 (print_reverse_loop fprintf rounds this this.back 1)
print_reverse_list rounds _ _ = some ([], code_number err_bad_parameter)

-- `fprintf` returns the number of characters it wrote, and these texts have some.
abbrev pub Writes : Stream → Type 0
Writes fprintf = (p : Piece) (counter : ℕ) → not_zero (fprintf p counter) ≡ true

-- The values in order, with a comma between two, and the closing parenthesis.
abbrev pub pieces : Cells → List Piece
pieces [] = closing ∷ []
pieces ((a, v) ∷ []) = number v ∷ closing ∷ []
pieces ((a, v) ∷ y ∷ xs) = number v ∷ comma ∷ pieces (y ∷ xs)

abbrev written : List Piece → ℕ → Option (List Piece × ℕ)
written ps n = some (ps, n)

recount : {m n : ℕ} (ps : List Piece) → m ≡ n → written ps m ≡ written ps n
recount ps e = ap (written ps) e

u32-step : (c : ℕ) → u32 (u32 c + 1) ≡ u32 (c + 1)
u32-step c = omega arith

module _ (fprintf : Stream) (writes : Writes fprintf) where
  print_loop-pieces :
      (l : LinkedList) (rounds : ℕ) (p : Ptr) (xs : Cells) (counter : ℕ)
      → Chain l.heap p xs none
      → l.back ≡ last p xs
      → Distinct xs
      → length xs ≤ rounds
      → print_loop fprintf rounds l (first xs none) (u32 counter)
        ≡ some (pieces xs, u32 (counter + length xs))
  unfolding print_loop
  print_loop-pieces l zero p [] counter c e d enough = recount _ (omega arith)
  print_loop-pieces l (suc rounds) p [] counter c e d enough = recount _ (omega arith)
  print_loop-pieces l zero p ((a, v) ∷ xs) counter c e d enough = absurd (ground arith)
  print_loop-pieces l (suc rounds) p ((a, v) ∷ []) counter (n, c) e d enough =
      rw (n, end_here l.back a e) (recount _ (omega arith))
  print_loop-pieces l (suc rounds) p ((a, v) ∷ (b, w) ∷ xs) counter (n, c) e d enough =
      let rest =
        print_loop-pieces l rounds (some a) ((b, w) ∷ xs) (counter + 1) c e d.1 (omega arith) in
      rw (n, end_later l.back a v b w xs d e, writes comma (u32 counter), u32-step counter, rest)
        (recount _ (ap u32 (omega arith)))

  print_reverse_loop-pieces :
      (l : LinkedList) (rounds : ℕ) (p q : Ptr) (xs : Cells) (counter : ℕ)
      → Backward l.heap xs q
      → l.front ≡ last p xs
      → Distinct xs
      → length xs ≤ rounds
      → print_reverse_loop fprintf rounds l (first xs none) (u32 counter)
        ≡ some (pieces xs, u32 (counter + length xs))
  unfolding print_reverse_loop
  print_reverse_loop-pieces l zero p q [] counter c e d enough =
      rw (writes closing (u32 counter)) (recount _ (omega arith))
  print_reverse_loop-pieces l (suc rounds) p q [] counter c e d enough =
      rw (writes closing (u32 counter)) (recount _ (omega arith))
  print_reverse_loop-pieces l zero p q ((a, v) ∷ xs) counter c e d enough = absurd (ground arith)
  print_reverse_loop-pieces l (suc rounds) p q ((a, v) ∷ []) counter (n, c) e d enough =
      rw (n, end_here l.front a e, writes closing (u32 (u32 counter + 1))) (recount _ (omega arith))
  print_reverse_loop-pieces l (suc rounds) p q ((a, v) ∷ (b, w) ∷ xs) counter (n, c) e d enough =
      let rest =
        print_reverse_loop-pieces l rounds (some a) (some a) ((b, w) ∷ xs) (counter + 1) c e d.1
          (omega arith) in
      rw (n, end_later l.front a v b w xs d e, writes comma (u32 counter), u32-step counter, rest)
        (recount _ (ap u32 (omega arith)))

  -- `print_list` of a list, to a stream that takes the text, writes, between the parentheses, the
  -- values in the order of the list with a comma between two, and returns the number of nodes plus
  -- one, in 32 bits. A round for each node is enough.
  pub print_list-pieces :
      (l : LinkedList) (xs : Cells) (rounds : ℕ)
      → IsList l xs
      → length xs ≤ rounds
      → print_list rounds (some fprintf) (some l) ≡ some (opening ∷ pieces xs, u32 (length xs + 1))
  unfolding print_list
  print_list-pieces l xs rounds is enough =
      ap (λ p. printed fprintf opening 1 (print_loop fprintf rounds l p 1)) is.front
      ∙ ap (printed fprintf opening 1)
          (print_loop-pieces l rounds none xs 1 is.chain is.back is.distinct enough)
      ∙ rw (writes opening 1) (recount _ (ap u32 (omega arith)))

  -- `print_reverse_list` of a list, to a stream that takes the text, writes, between the parentheses,
  -- the values from the last to the first with a comma between two, and returns the number of nodes
  -- plus one, in 32 bits. A round for each node is enough.
  pub print_reverse_list-pieces :
      (l : LinkedList) (xs : Cells) (rounds : ℕ)
      → IsList l xs
      → length xs ≤ rounds
      → print_reverse_list rounds (some fprintf) (some l)
        ≡ some (opening ∷ pieces (reverse xs), u32 (length xs + 1))
  unfolding print_reverse_list
  print_reverse_list-pieces l xs rounds is enough =
      let is' = IsBackward-reverse l xs is in
      let same = length-reverse xs in
      ap (λ p. printed fprintf opening 1 (print_reverse_loop fprintf rounds l p 1)) is'.back
      ∙ ap (printed fprintf opening 1) (
          print_reverse_loop-pieces l rounds none none (reverse xs) 1 is'.chain is'.front
            is'.distinct (subst (λ n. n ≤ rounds) (sym same) enough))
      ∙ rw (writes opening 1) (recount _ (ap u32 (omega (arith, same))))
