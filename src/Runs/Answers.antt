-- ===== src/Runs/Answers.antt =====
-- The run of test-tlb_simple.c beside a run that walks the page tables for every line.
use kaby_lake_cache_c.Base.{
  ℕ, zero, suc, ◌+◌, ◌≤◌, ◌≡◌, inl, inr, refl, ap, sym, subst, arith, Option, none, some, length,
}
use kaby_lake_cache_c.Outcome.{ErrorCode, err_none, err_mem, Outcome, returned, refused, fault}
use mathlib.Core.List.{List, [], ◌∷◌}
use kaby_lake_cache_c.Addr.{PhyAddr}
use kaby_lake_cache_c.Addr.Fields.{IsVirtAddr}
use kaby_lake_cache_c.Commands.{Command}
use kaby_lake_cache_c.Lists.{Ptr, LinkedList}
use kaby_lake_cache_c.Memory.{Memory, IsMemory}
use kaby_lake_cache_c.Memory.Print.{zero_paddr}
use kaby_lake_cache_c.PageWalk.{page_walk}
use kaby_lake_cache_c.Runs.FullRun.{
  start_managed, FullSearched, answer_of, enter, search_then, search_full, run_from, simulate_full,
}
use kaby_lake_cache_c.Runs.Setup.{AreFresh}
use kaby_lake_cache_c.Runs.Walks.{walk_cases}
use kaby_lake_cache_c.TlbMng.{FullTlb}
use kaby_lake_cache_c.TlbMng.Replace.{CanAllocate}
use kaby_lake_cache_c.TlbMng.Search.{Allocated, Managed}
use kaby_lake_cache_c.TlbMng.Success.{call, call-Success}
use kaby_lake_cache_c.TlbMng.Transparent.{Answered, tlb_search-Answered}
use kaby_lake_cache_c.Runs.Started.{IsFull, Success-IsFull, started-IsFull}

-- Answers: the physical address, or none where the line is reported as an error.
abbrev pub Answers : Type 0
Answers = Option (List (Option PhyAddr))

abbrev answered_first : Option PhyAddr → Answers → Answers
answered_first a none = none
answered_first a (some ps) = some (a ∷ ps)

abbrev walk_and : Outcome PhyAddr → PhyAddr → (PhyAddr → Answers) → Answers
walk_and (returned _ p) old rest = answered_first (some p) (rest p)
walk_and (refused _) old rest = answered_first none (rest old)
walk_and fault old rest = none

-- The answers to `left` lines from line `i`, by the page tables alone; `none` if a walk leaves the
-- memory.
abbrev pub walk_answers :
    (listing : ℕ → Command) → Memory → (left i : ℕ) → (paddr : PhyAddr) → Answers
walk_answers listing mem zero i paddr = some []
walk_answers listing mem (suc left) i paddr =
    walk_and (page_walk (some mem) (some (listing i).vaddr) (some paddr)) paddr
      (λ p. walk_answers listing mem left (i + 1) p)

abbrev pub answer : FullSearched → Option PhyAddr
answer r = elim r.err [ err_none ↦ some r.after.paddr | _ ↦ none ]

abbrev pub answers : List FullSearched → List (Option PhyAddr)
answers [] = []
answers (r ∷ rs) = answer r ∷ answers rs

-- The run reports these answers, or is undefined where the walks are.
abbrev pub Answering : Answers → Option (List FullSearched) → Type 0
Answering none r = r ≡ none
Answering (some ps) r = (rs : List FullSearched) × (r ≡ some rs) × (answers rs ≡ ps)

enter-Answering :
    (r : FullSearched) (a : Option PhyAddr) (walked : Answers) (rest : Option (List FullSearched))
    → answer r ≡ a
    → Answering walked rest
    → Answering (answered_first a walked) (enter r rest)
enter-Answering r a none rest here later = ap (enter r) later
enter-Answering r a (some ps) rest here (rs, e, same) =
    (r ∷ rs, ap (enter r) e, rw (here, same) refl)

-- A line as the loop searches it: the flag is reset before.
abbrev pub reset : Managed → Managed
reset s = record s { hit_or_miss = 0 }

abbrev pub ServedBy : Option (ErrorCode × Managed) → (Managed → Type 0) → Type 0
ServedBy none next = Unit {0}
ServedBy (some (e, s')) next = next s'

-- In each line of the run `malloc` gives memory for an entry, and an unused address for a node.
abbrev pub Served :
    (rounds : ℕ)
    → (listing : ℕ → Command) → (given : ℕ → Allocated) → Memory
    → (left i : ℕ) → Managed
    → Type 0
Served rounds listing given mem zero i s = Unit {0}
Served rounds listing given mem (suc left) i s =
    CanAllocate (given i) s.policy
    × ServedBy (answer_of (call rounds mem (listing i).vaddr (given i) (reset s)) (reset s))
        (λ s'. Served rounds listing given mem left (i + 1) s')

module _ (rounds : ℕ) (listing : ℕ → Command) (given : ℕ → Allocated) (mem : Memory)
    (ok : IsMemory mem) (enough : 128 ≤ rounds)
    (good : (i : ℕ) → IsVirtAddr (listing i).vaddr) where
  search_full-Answering :
      (left i : ℕ) (s : Managed)
      → IsFull mem s
      → Served rounds listing given mem left i s
      → Answering
          (walk_answers listing mem left i s.paddr)
          (search_full rounds listing given mem left i s)
  unfolding search_full
  search_full-Answering zero i s full served = ([], refl, refl)
  search_full-Answering (suc left) i s full (can, later) =
      let v = (listing i).vaddr in
      let before = reset s in
      let next = search_full rounds listing given mem left (i + 1) in
      let walked = walk_answers listing mem left (i + 1) in
      let shown : ErrorCode → Managed → FullSearched =
        λ e t. record { index = i; line = listing i; err = e; after = t } in
      let small : length (full.line ∷ full.rest) ≤ rounds = omega (arith, full.size) in
      let found =
        tlb_search-Answered mem ok v (good i) before full.line full.rest rounds (given i)
          full.agrees full.order can small in
      let by = λ (r : Outcome Managed). search_then (answer_of r before) next shown in
      let served = λ (r : Outcome Managed).
        ServedBy (answer_of r before) (Served rounds listing given mem left (i + 1)) in
      elim (walk_cases mem v s.paddr ok (good i)) [
        | inl (p, e) ↦
            let (t, order, done, at, agrees, _) =
              subst (λ w. Answered mem before w (call rounds mem v (given i) before)) e found in
            let full' = Success-IsFull mem v before t full.line full.rest _ refl full.size agrees (
              call-Success mem v (given i) before t full.line full.rest rounds ok (good i)
                full.order can small done) in
            let rest = search_full-Answering left (i + 1) t full' (subst served done later) in
            subst
              (λ w. Answering (walk_and w s.paddr walked) (by (call rounds mem v (given i) before)))
              (sym e)
              (subst (λ r. Answering (answered_first (some p) (walked p)) (by r)) (sym done)
                (enter-Answering (shown err_none t) (some p) (walked p) (next t) (ap some at)
                  (subst (λ x. Answering (walked x) (next t)) at rest)))
        | inr (inl e) ↦
            let done : call rounds mem v (given i) before ≡ returned err_mem before =
              subst (λ w. Answered mem before w (call rounds mem v (given i) before)) e found in
            let full' : IsFull mem before = record {
              line = full.line;
              rest = full.rest;
              order = full.order;
              size = full.size;
              agrees = full.agrees;
            } in
            let rest = search_full-Answering left (i + 1) before full' (subst served done later) in
            subst
              (λ w. Answering (walk_and w s.paddr walked) (by (call rounds mem v (given i) before)))
              (sym e)
              (subst (λ r. Answering (answered_first none (walked s.paddr)) (by r)) (sym done)
                (enter-Answering (shown err_mem before) none (walked s.paddr) (next before) refl
                  rest))
        | inr (inr e) ↦
            let done : call rounds mem v (given i) before ≡ fault =
              subst (λ w. Answered mem before w (call rounds mem v (given i) before)) e found in
            subst
              (λ w. Answering (walk_and w s.paddr walked) (by (call rounds mem v (given i) before)))
              (sym e) (ap by done)
      ]

abbrev pub ServedFrom : Option Managed → (Managed → Type 0) → Type 0
ServedFrom none next = Unit {0}
ServedFrom (some s) next = next s

-- The run of test-tlb_simple.c, from the flush of the TLB on, from whatever stands in the TLB and in
-- the list object, on a memory of bytes, with well-formed addresses in the program, if `malloc` gives
-- unused addresses, another one each time, to the loop that fills the list, and in each line of the
-- run memory for an entry and an unused address, and if there is a round for each of the 128 nodes:
-- for each line it reports the physical address that `page_walk` finds, and an error where `page_walk`
-- refuses the address. C leaves the run undefined if a walk leaves the memory, and only then.
pub simulate_full-Answering :
    (rounds : ℕ) (listing : ℕ → Command) (given : ℕ → Allocated) (mem : Memory) (nb_lines : ℕ)
    (malloc : ℕ → Ptr) (ll : LinkedList) (tlb : FullTlb)
    → IsMemory mem
    → 128 ≤ rounds
    → ((i : ℕ) → IsVirtAddr (listing i).vaddr)
    → AreFresh malloc ll
    → ServedFrom (start_managed malloc ll tlb) (Served rounds listing given mem nb_lines 0)
    → Answering
        (walk_answers listing mem nb_lines 0 zero_paddr)
        (simulate_full rounds listing nb_lines given mem malloc ll tlb)
unfolding simulate_full
simulate_full-Answering rounds listing given mem nb_lines malloc ll tlb ok enough good f served =
    let (s, e, full, at) = started-IsFull mem malloc ll tlb f in
    let next = search_full rounds listing given mem nb_lines 0 in
    let walked = walk_answers listing mem nb_lines 0 in
    subst (λ o. Answering (walked zero_paddr) (run_from o next)) (sym e)
      (subst (λ p. Answering (walked p) (next s)) at
        (search_full-Answering rounds listing given mem ok enough good nb_lines 0 s full
          (subst (λ o. ServedFrom o (Served rounds listing given mem nb_lines 0)) e served)))
