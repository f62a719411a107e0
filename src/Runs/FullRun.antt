-- ===== src/Runs/FullRun.antt =====
-- test-tlb_simple.c: `main` once the program, the memory and the output file are there. The TLB is
-- flushed, all lines enter the list, and each line of the program is searched and reported.
use kaby_lake_cache_c.Base.{ℕ, zero, suc, ◌+◌, Option, none, some, not_zero, if◌then◌else◌}
use kaby_lake_cache_c.Outcome.{
  ErrorCode, err_none, Outcome, returned, refused, fault, Message, message_of,
}
use mathlib.Core.List.{List, [], ◌∷◌, ◌++◌, map}
use kaby_lake_cache_c.Addr.Print.{Field, FieldStream, print_virtual_address, print_physical_address}
use kaby_lake_cache_c.Commands.{Command}
use kaby_lake_cache_c.Lists
use kaby_lake_cache_c.Lists.{Ptr, LinkedList, init_list, push_back, move_back}
use kaby_lake_cache_c.Lists.Print
use kaby_lake_cache_c.Memory.{Memory}
use kaby_lake_cache_c.TlbMng.{FullTlb, FullEntry, tlb_lines, tlb_flush}
use kaby_lake_cache_c.TlbMng.Search.{Managed, Allocated, tlb_search}

-- What the loop over the lines of the TLB makes of the answer of `push_back`, which is not looked at.
abbrev pub after_push : Option (Ptr × Option LinkedList) → LinkedList → Option LinkedList
after_push none before = none
after_push (some (_, none)) before = some before
after_push (some (_, some l)) before = some l

abbrev pub then_fill : Option LinkedList → (LinkedList → Option LinkedList) → Option LinkedList
then_fill none next = none
then_fill (some l) next = next l

-- The loop that fills the list: `left` lines from line `i`, with what `malloc` gives for each.
unfoldable pub fill_list : (malloc : ℕ → Ptr) → (left i : ℕ) → LinkedList → Option LinkedList
fill_list malloc zero i ll = some ll
fill_list malloc (suc left) i ll =
    then_fill (after_push (push_back (some ll) i (malloc i)) ll)
      λ l. fill_list malloc left (i + 1) l

abbrev pub flushed_full : Outcome FullTlb → FullTlb → FullTlb
flushed_full (returned _ t) before = t
flushed_full (refused _) before = before
flushed_full fault before = before

abbrev pub list_ready : Option (Option LinkedList) → Option LinkedList
list_ready none = none
list_ready (some ll) = ll

abbrev pub managed_with : FullTlb → Option LinkedList → Option Managed
managed_with tlb none = none
managed_with tlb (some ll) = some (record {
  paddr = record { phy_page_num = 0; page_offset = 0 };
  tlb = tlb;
  policy = record { ll = some ll; push_back = push_back; move_back = move_back };
  hit_or_miss = 0;
})

-- The TLB, the list and the policy before the first line; `ll` is the list object with whatever
-- stands in it, beside the heap of its nodes.
unfoldable pub start_managed : (malloc : ℕ → Ptr) → (ll : LinkedList) → FullTlb → Option Managed
unfolding fill_list
start_managed malloc ll tlb =
    managed_with (flushed_full (tlb_flush (some tlb)) tlb)
      (then_fill (list_ready (init_list (some ll))) λ l. fill_list malloc tlb_lines 0 l)

-- A line of the program that was searched: the code, and what the search left.
pub record FullSearched : Type 0 where
  pub index : ℕ
  pub line : Command
  pub err : ErrorCode
  pub after : Managed

abbrev pub answer_of : Outcome Managed → Managed → Option (ErrorCode × Managed)
answer_of (returned e s) before = some (e, s)
answer_of (refused e) before = some (e, before)
answer_of fault before = none

abbrev pub enter : FullSearched → Option (List FullSearched) → Option (List FullSearched)
enter r none = none
enter r (some rs) = some (r ∷ rs)

abbrev pub search_then :
    Option (ErrorCode × Managed)
    → (Managed → Option (List FullSearched))
    → (ErrorCode → Managed → FullSearched)
    → Option (List FullSearched)
search_then none rest r = none
search_then (some (e, s)) rest r = enter (r e s) (rest s)

-- `left` rounds of the loop from line `i`; `none` where C leaves it undefined. `given` is what
-- `malloc` gives in each line.
unfoldable pub search_full :
    (rounds : ℕ)
    → (listing : ℕ → Command) → (given : ℕ → Allocated) → Memory
    → (left i : ℕ) → Managed
    → Option (List FullSearched)
search_full rounds listing given mem zero i s = some []
search_full rounds listing given mem (suc left) i s =
    let before = record s { hit_or_miss = 0 } in
    search_then
      (answer_of
        (tlb_search rounds (some mem) (some (listing i).vaddr) (some s.paddr) (some s.tlb)
          (some s.policy) (some 0) (given i))
        before)
      (λ s'. search_full rounds listing given mem left (i + 1) s')
      (λ e s'. record { index = i; line = listing i; err = e; after = s' })

abbrev pub run_from :
    Option Managed → (Managed → Option (List FullSearched)) → Option (List FullSearched)
run_from none next = none
run_from (some s) next = next s

unfoldable pub simulate_full :
    (rounds : ℕ)
    → (listing : ℕ → Command) → (nb_lines : ℕ) → (given : ℕ → Allocated) → Memory
    → (malloc : ℕ → Ptr) → (ll : LinkedList) → FullTlb
    → Option (List FullSearched)
unfolding start_managed search_full
simulate_full rounds listing nb_lines given mem malloc ll tlb =
    run_from (start_managed malloc ll tlb) λ s. search_full rounds listing given mem nb_lines 0 s

-- The texts that are written for a line.
pub data FullPiece : Type 0 where
  rule : FullPiece
  after_line : (index : ℕ) → FullPiece
  va_title pa_title blank_line hit_text miss_text : FullPiece
  field : Field → FullPiece
  entry : FullEntry → FullPiece
  list_piece : Lists.Print.Piece → FullPiece
  error_with : Option Message → FullPiece

-- All lines of the TLB, whether they are valid or not: `left` lines from line `i`.
unfoldable pub print_full : FullTlb → (left i : ℕ) → List FullPiece
print_full tlb zero i = []
print_full tlb (suc left) i = entry (tlb i) ∷ print_full tlb left (i + 1)

-- What is written for the list; `none` where C leaves it undefined.
abbrev pub list_pieces : Option (List Lists.Print.Piece × ℕ) → Option (List FullPiece)
list_pieces none = none
list_pieces (some (ps, _)) = some (map list_piece ps)

abbrev pub between : List FullPiece → Option (List FullPiece) → Option (List FullPiece)
between start none = none
between start (some ps) = some (start ++ ps ++ rule ∷ [])

unfoldable pub report_full :
    (rounds : ℕ) → Lists.Print.Stream → FieldStream → FullSearched → Option (List FullPiece)
unfolding print_full
report_full rounds f_list f_out r =
    let s = r.after in
    let start : List FullPiece =
      rule
      ∷ after_line r.index
      ∷ va_title
      ∷ map field (print_virtual_address (some f_out) (some r.line.vaddr)).0 in
    elim r.err [
      | err_none ↦
          between
            (start
              ++ pa_title ∷ map field (print_physical_address (some f_out) (some s.paddr)).0
              ++ blank_line
                ∷ (if not_zero s.hit_or_miss then hit_text else miss_text)
                ∷ print_full s.tlb tlb_lines 0)
            (list_pieces (Lists.Print.print_list rounds (some f_list) s.policy.ll))
      | e ↦ between start (some (error_with (message_of e) ∷ []))
    ]
