-- ===== src/Runs/Started.antt =====
-- The state of test-tlb_simple.c after the filling of the list, and after a search that succeeded.
use kaby_lake_cache_c.Base.{
  ℕ, ◌+◌, ◌<◌, ◌≡◌, refl, ◌∙◌, ap, sym, subst, arith, true, Option, none, some, length, ltb,
  if◌then◌else◌, not_zero, ◌&&◌, ◌==◌,
}
use mathlib.Core.List.{List, [], ◌∷◌, ◌++◌}
use kaby_lake_cache_c.Addr.{VirtAddr, page_number}
use kaby_lake_cache_c.Lists.{Ptr, LinkedList, init_list}
use kaby_lake_cache_c.Lists.Chain.{IsList}
use kaby_lake_cache_c.Memory.{Memory}
use kaby_lake_cache_c.Memory.Print.{zero_paddr}
use kaby_lake_cache_c.Runs.FullRun.{managed_with, start_managed}
use kaby_lake_cache_c.Runs.Setup.{
  AreFresh, lines_from, lines_from-AreLines, length-lines_from, fill_list-IsList,
}
use kaby_lake_cache_c.TlbMng.{FullTlb, FullEntry, empty_entry, flush_lines, tlb_flush}
use kaby_lake_cache_c.TlbMng.Latest.{last_hit}
use kaby_lake_cache_c.TlbMng.Order.{IsOrder}
use kaby_lake_cache_c.TlbMng.Orders.{last_hit-TakenOut, length-append}
use kaby_lake_cache_c.TlbMng.Search.{Managed}
use kaby_lake_cache_c.TlbMng.Single.{flush_lines-below}
use kaby_lake_cache_c.TlbMng.Success.{Success}
use kaby_lake_cache_c.TlbMng.Transparent.{FullAgrees}

-- The list is an order of 128 lines, and the entries agree with the page tables.
pub record IsFull (mem : Memory) (s : Managed) : Type 0 where
  pub line : ℕ
  pub rest : List ℕ
  pub order : IsOrder s.policy (line ∷ rest)
  pub size : length (line ∷ rest) ≡ 128
  pub agrees : FullAgrees mem s.tlb

snoc_cons : (o : List ℕ) (i : ℕ) → (line : ℕ) × (rest : List ℕ) × (o ++ i ∷ [] ≡ line ∷ rest)
snoc_cons [] i = (i, [], refl)
snoc_cons (j ∷ o) i = (j, o ++ i ∷ [], refl)

snoc-IsFull :
    (mem : Memory) (s : Managed) (o : List ℕ) (i : ℕ)
    → IsOrder s.policy (o ++ i ∷ [])
    → length o + 1 ≡ 128
    → FullAgrees mem s.tlb
    → IsFull mem s
snoc-IsFull mem s o i is size agrees =
    let (line, rest, e) = snoc_cons o i in
    record {
      line = line;
      rest = rest;
      order = subst (IsOrder s.policy) e is;
      size = ap length (sym e) ∙ length-append o (i ∷ []) ∙ size;
      agrees = agrees;
    }

pub Success-IsFull :
    (mem : Memory) (v : VirtAddr) (s s1 : Managed) (line : ℕ) (rest : List ℕ)
    (last : Option (List ℕ × ℕ))
    → last_hit s.tlb (page_number v) (line ∷ rest) ≡ last
    → length (line ∷ rest) ≡ 128
    → FullAgrees mem s1.tlb
    → Success v s line rest last s1
    → IsFull mem s1
Success-IsFull mem v s s1 line rest none e size agrees (_, _, _, is) =
    snoc-IsFull mem s1 rest line is (omega (arith, size)) agrees
Success-IsFull mem v s s1 line rest (some (others, i)) e size agrees (_, _, _, is) =
    let k = last_hit-TakenOut s.tlb (page_number v) (line ∷ rest) others i e in
    let whole : length others + 1 ≡ 128 = omega (
      arith,
      size,
      ap length k.rest,
      length-append k.before k.after,
      ap length k.parts,
      length-append k.before (i ∷ k.after),
    ) in
    snoc-IsFull mem s1 others i is whole agrees

flushed_entry : (t : FullTlb) (i : ℕ) → i < 128 → flush_lines 128 0 t i ≡ empty_entry
flushed_entry t i small =
    let at_line : (if ltb i 128 then empty_entry else t i) ≡ empty_entry = ground arith in
    flush_lines-below t i ∙ at_line

flushed-FullAgrees : (mem : Memory) (t : FullTlb) → FullAgrees mem (flush_lines 128 0 t)
flushed-FullAgrees mem t i n small e =
    let off : (not_zero 0 && n == 0) ≡ true =
      subst (λ (r : FullEntry). (not_zero r.v && n == r.tag) ≡ true) (flushed_entry t i small) e in
    absurd (cc)

-- The list that `fill_list` makes is an order of all lines, and a flushed TLB agrees with any tables.
pub started-IsFull :
    (mem : Memory) (malloc : ℕ → Ptr) (ll : LinkedList) (tlb : FullTlb)
    → AreFresh malloc ll
    → (s : Managed) × (start_managed malloc ll tlb ≡ some s) × IsFull mem s × (s.paddr ≡ zero_paddr)
unfolding start_managed init_list tlb_flush
started-IsFull mem malloc ll tlb f =
    let l0 : LinkedList = record ll { front = none; back = none } in
    let is0 : IsList l0 [] = record { chain = tt; front = refl; back = refl; distinct = tt } in
    let (l, ys, e, is, vals) =
      fill_list-IsList malloc f.fresh f.given f.distinct 128 0 l0 [] is0 (λ j h. f.unused j) in
    let flushed_tlb = flush_lines 128 0 tlb in
    (
      _,
      ap (managed_with flushed_tlb) e,
      record {
        line = 0;
        rest = lines_from 127 1;
        order = record {
          list = l;
          cells = ys;
          ll = refl;
          is_list = is;
          lines = vals;
          small = lines_from-AreLines 128 0 (omega arith);
          moves = refl;
        };
        size = length-lines_from 128 0;
        agrees = flushed-FullAgrees mem tlb;
      },
      refl,
    )
