-- ===== src/Tests/Lists.antt =====
-- A list of three nodes, and what the operations of list.c make of it.
use kaby_lake_cache_c.Base.{u32, ℕ, ◌+◌, ◌≡◌, refl, arith, ◌==◌, none, some, if◌then◌else◌, length}
use mathlib.Core.List.{[], ◌∷◌, ◌++◌, reverse}
use kaby_lake_cache_c.Lists.{NodeHeap, LinkedList, push_back, push_front, pop_front, pop_back}
use kaby_lake_cache_c.Lists.Chain.{Cells, has, node, IsList, SameOutside}
use kaby_lake_cache_c.Lists.Push.{push_back-IsList}
use kaby_lake_cache_c.Lists.Pop.{FrontPopped, BackPopped, pop_front_cases, pop_back_cases}
use kaby_lake_cache_c.Lists.Clear.{clear_list, clear_list-frees}
use kaby_lake_cache_c.Lists.Print.{
  Stream, opening, comma, closing, number, print_reverse_list, pieces, print_reverse_list-pieces,
}

abbrev pub three_nodes : NodeHeap
three_nodes a =
    if a == 10
    then some (node 0 none (some 20))
    else if a == 20
    then some (node 1 (some 10) (some 30))
    else if a == 30
    then some (node 2 (some 20) none)
    else none

abbrev pub three : LinkedList
three = record { heap = three_nodes; front = some 10; back = some 30 }

abbrev pub cells : Cells
cells = (10, 0) ∷ (20, 1) ∷ (30, 2) ∷ []

pub three-IsList : IsList three cells
three-IsList = record {
  chain = (refl, (refl, (refl, tt)));
  front = refl;
  back = refl;
  distinct = (refl, (refl, (refl, tt)));
}

push_back-IsList_example :
    (l' : LinkedList) × (push_back (some three) 7 (some 40) ≡ some (some 40, some l'))
    × IsList l' (cells ++ (40, 7) ∷ [])
    × SameOutside (cells ++ (40, 7) ∷ []) three.heap l'.heap
push_back-IsList_example = push_back-IsList three cells 7 40 three-IsList refl

pop_front_cases_example : FrontPopped three cells (pop_front (some three))
pop_front_cases_example = pop_front_cases three cells three-IsList

pop_back_cases_example : BackPopped three cells (pop_back (some three))
pop_back_cases_example = pop_back_cases three cells three-IsList

clear_list-frees_example :
    (l' : LinkedList) × (clear_list 3 (some three) ≡ some (some l'))
    × IsList l' []
    × ((c : ℕ) → l'.heap c ≡ (if has c cells then none else three.heap c))
clear_list-frees_example = clear_list-frees three cells 3 three-IsList (omega arith)

-- `fprintf` that always writes a character.
abbrev one_character : Stream
one_character p counter = 1

print_reverse_list-pieces_example :
    print_reverse_list 3 (some one_character) (some three)
    ≡ some (opening ∷ pieces (reverse cells), u32 (length cells + 1))
print_reverse_list-pieces_example =
    print_reverse_list-pieces one_character (λ p c. refl) three cells 3 three-IsList (omega arith)

-- The pieces of this list.
print_three :
    print_reverse_list 3 (some one_character) (some three)
    ≡ some (opening ∷ number 2 ∷ comma ∷ number 1 ∷ comma ∷ number 0 ∷ closing ∷ [], 4)
unfolding print_reverse_list
print_three = refl

-- A node pushed to an empty list.
pushed_first :
    push_front (some (record { heap = λ a. none; front = none; back = none })) 5 (some 9)
    ≡ some (
      some 9,
      some (record {
        heap = λ a. if a == 9 then some (node 5 none none) else none;
        front = some 9;
        back = some 9;
      }),
    )
unfolding push_front
pushed_first = refl
