-- ===== src/TlbHrchy/Search.antt =====
-- `tlb_search` of tlb_hrchy_mng.c: the two levels, then the page walk.
use kaby_lake_cache_c.Base.{ℕ, ◌%◌, Bool, Option, some, not_zero, if◌then◌else◌, u8}
use kaby_lake_cache_c.Outcome.{
  err_none, err_bad_parameter, Outcome, returned, refused, fault, ◌>>=◌,
}
use kaby_lake_cache_c.Addr.{VirtAddr, PhyAddr, page_number}
use kaby_lake_cache_c.Memory.{Memory}
use kaby_lake_cache_c.PageWalk.{page_walk}
use kaby_lake_cache_c.TlbHrchy.{
  MemAccess, instruction, access_data, TlbKind, l1_itlb, l1_dtlb, l2_tlb, lines, Tlb, entry_of,
  insert_line, probe, search_invalid,
}

-- The objects that `tlb_search` writes through its pointers.
pub record Hrchy : Type 0 where
  pub paddr : PhyAddr
  pub itlb : Tlb
  pub dtlb : Tlb
  pub l2 : Tlb
  pub hit_or_miss : ℕ

-- Whether the n-th call of `malloc` in `tlb_search` gives memory.
abbrev pub Malloc : Type 0
Malloc = ℕ → Bool

-- After a level-2 hit. Both branches of the source fill the instruction TLB.
unfoldable pub refill : VirtAddr → MemAccess → Malloc → Hrchy → Outcome Hrchy
unfolding entry_of insert_line
refill vaddr access malloc s =
    let virt_page_num = page_number vaddr in
    let line_index : ℕ = elim access [
      | instruction ↦ virt_page_num % lines l1_itlb
      | access_data ↦ virt_page_num % lines l1_dtlb
    ] in
    if malloc 0
    then returned err_none (record s {
      itlb = (insert_line line_index (entry_of vaddr s.paddr l1_itlb) s.itlb l1_itlb).1;
    })
    else returned err_bad_parameter s

-- After the walk and the invalidation: the level-1 insertion.
unfoldable pub fill_l1 : VirtAddr → MemAccess → Malloc → Hrchy → Outcome Hrchy
unfolding entry_of insert_line
fill_l1 vaddr instruction malloc s =
    let line_index = u8 (page_number vaddr % lines l1_itlb) in
    if malloc 1
    then returned err_none (record s {
      itlb = (insert_line line_index (entry_of vaddr s.paddr l1_itlb) s.itlb l1_itlb).1;
    })
    else returned err_bad_parameter s
fill_l1 vaddr access_data malloc s =
    let line_index = u8 (page_number vaddr % lines l1_dtlb) in
    if malloc 1
    then returned err_none (record s {
      dtlb = (insert_line line_index (entry_of vaddr s.paddr l1_dtlb) s.dtlb l1_dtlb).1;
    })
    else returned err_bad_parameter s

-- The rest of a miss, once `page_walk` has set `s.paddr`.
unfoldable pub fill : VirtAddr → MemAccess → Malloc → Hrchy → Outcome Hrchy
unfolding search_invalid fill_l1
fill vaddr access malloc s =
    let virt_page_num = page_number vaddr in
    let (itlb', dtlb') = search_invalid s.itlb s.dtlb virt_page_num access s.l2 in
    let s1 = record s { itlb = itlb'; dtlb = dtlb' } in
    if malloc 0
    then fill_l1 vaddr access malloc (record s1 {
      l2 =
          (insert_line (virt_page_num % lines l2_tlb) (entry_of vaddr s1.paddr l2_tlb) s1.l2
            l2_tlb).1;
    })
    else returned err_bad_parameter s1

-- What `tlb_search` does with the outcome of `page_walk`.
abbrev pub after_walk : Outcome PhyAddr → VirtAddr → MemAccess → Malloc → Hrchy → Outcome Hrchy
after_walk (returned err_none p) vaddr access malloc s =
    fill vaddr access malloc (record s { paddr = p })
after_walk (returned _ p) vaddr access malloc s =
    returned err_bad_parameter (record s { paddr = p })
after_walk (refused _) vaddr access malloc s = returned err_bad_parameter s
after_walk fault vaddr access malloc s = fault

-- The level-1 TLB that an access asks first.
abbrev pub own_kind : MemAccess → TlbKind
own_kind instruction = l1_itlb
own_kind access_data = l1_dtlb

abbrev pub own_tlb : MemAccess → Hrchy → Tlb
own_tlb instruction s = s.itlb
own_tlb access_data s = s.dtlb

-- The body of `tlb_search`, past its NULL checks.
unfoldable pub search : Memory → VirtAddr → MemAccess → Malloc → Hrchy → Outcome Hrchy
unfolding probe refill fill
search mem vaddr access malloc s =
    let (hit1, p1) = probe vaddr s.paddr (own_tlb access s) (own_kind access) in
    let s1 = record s { paddr = p1; hit_or_miss = hit1 } in
    if not_zero hit1
    then returned err_none s1
    else let (hit2, p2) = probe vaddr s1.paddr s1.l2 l2_tlb in
      let s2 = record s1 { paddr = p2; hit_or_miss = hit2 } in
      if not_zero hit2
      then refill vaddr access malloc s2
      else after_walk (page_walk (some mem) (some vaddr) (some s2.paddr)) vaddr access malloc
          (record s2 { hit_or_miss = 0 })

unfoldable pub tlb_search :
    Option Memory
    → Option VirtAddr
    → Option PhyAddr
    → MemAccess
    → Option Tlb
    → Option Tlb
    → Option Tlb
    → Option ℕ
    → Malloc
    → Outcome Hrchy
unfolding search
tlb_search mem_space vaddr paddr access itlb dtlb l2 hit_or_miss malloc = do
  mem ← mem_space
  v ← vaddr
  p ← paddr
  i ← itlb
  d ← dtlb
  l ← l2
  h ← hit_or_miss
  search mem v access malloc (record { paddr = p; itlb = i; dtlb = d; l2 = l; hit_or_miss = h })
