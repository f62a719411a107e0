-- ===== src/Tests/FullTlb.antt =====
-- The fully associative TLB at concrete inputs: the lines 0, 1 and 2 in this order, all of them empty.
use kaby_lake_cache_c.Base.{ℕ, ◌≡◌, refl, sym, ap, ◌∙◌, arith, Option, none, some}
use mathlib.Core.List.{[], ◌∷◌}
use kaby_lake_cache_c.Outcome.{err_none, Outcome, returned}
use kaby_lake_cache_c.Addr.{VirtAddr, page_number, init_phy_addr}
use kaby_lake_cache_c.Addr.Fields.{IsVirtAddr}
use kaby_lake_cache_c.Memory.{load32}
use kaby_lake_cache_c.PageWalk.{page_walk, read_page_entry}
use kaby_lake_cache_c.Lists
use kaby_lake_cache_c.Lists.{LinkedList, ListNode}
use kaby_lake_cache_c.TlbHrchy.Cases.{in_frame}
use kaby_lake_cache_c.TlbMng.{empty_entry, tlb_entry_init, tlb_insert}
use kaby_lake_cache_c.TlbMng.Search.{
  ReplacementPolicy, Managed, Allocated, tlb_search, search, probe, find_node, on_found, fill,
  replace, use_front,
}
use kaby_lake_cache_c.TlbMng.Latest.{last_hit}
use kaby_lake_cache_c.TlbMng.Order.{IsOrder}
use kaby_lake_cache_c.TlbMng.Replace.{CanAllocate}
use kaby_lake_cache_c.TlbMng.Refines.{Searched, tlb_search-Searched}
use kaby_lake_cache_c.TlbMng.Transparent.{FullAgrees, Answered, tlb_search-Answered}
use kaby_lake_cache_c.TlbMng.Success.{call}
use kaby_lake_cache_c.TlbMng.Run.{stop, next, tlb_search-Run}
use kaby_lake_cache_c.Tests.Data.{
  memory, memory-IsMemory, here, there, here-IsVirtAddr, there-IsVirtAddr, nowhere, page_address,
}
use kaby_lake_cache_c.Tests.Lists.{three, cells, three-IsList}

abbrev policy : ReplacementPolicy
policy = record { ll = some three; push_back = Lists.push_back; move_back = Lists.move_back }

abbrev start : Managed
start = record { paddr = nowhere; tlb = λ i. empty_entry; policy = policy; hit_or_miss = 0 }

policy-IsOrder : IsOrder policy (0 ∷ 1 ∷ 2 ∷ [])
policy-IsOrder = record {
  list = three;
  cells = cells;
  ll = refl;
  is_list = three-IsList;
  lines = refl;
  small = (omega arith, (omega arith, (omega arith, tt)));
  moves = refl;
}

-- The node of a list at an address.
abbrev node_at : Option LinkedList → ℕ → Option ListNode
node_at none a = none
node_at (some l) a = l.heap a

abbrev given : (fresh : ℕ) → Allocated
given fresh = record { entry = some empty_entry; node = some fresh }

given-CanAllocate :
    (r : ReplacementPolicy) (fresh : ℕ) → node_at r.ll fresh ≡ none → CanAllocate (given fresh) r
given-CanAllocate r fresh e = record {
  old = empty_entry;
  entry = refl;
  node = record {
    fresh = fresh;
    given = refl;
    unused = λ l el. sym (ap (λ o. node_at o fresh) el) ∙ e;
  };
}

policy-CanAllocate : CanAllocate (given 40) policy
policy-CanAllocate = given-CanAllocate policy 40 refl

start-FullAgrees : FullAgrees memory (λ i. empty_entry)
start-FullAgrees i n small e = absurd (ground arith)

tlb_search-Searched_example :
    Searched here start 0
      (1 ∷ 2 ∷ [])
      (last_hit start.tlb (page_number here) (0 ∷ 1 ∷ 2 ∷ []))
      (page_walk (some memory) (some here) (some nowhere))
      (tlb_search 3
        (some memory)
        (some here)
        (some nowhere)
        (some start.tlb)
        (some policy)
        (some 0)
        (given 40))
tlb_search-Searched_example =
    tlb_search-Searched memory memory-IsMemory here here-IsVirtAddr (given 40) 0 (1 ∷ 2 ∷ []) start
      3 policy-IsOrder policy-CanAllocate (omega arith)

tlb_search-Answered_example :
    Answered memory start (page_walk (some memory) (some here) (some nowhere)) (
      tlb_search 3
        (some memory)
        (some here)
        (some nowhere)
        (some start.tlb)
        (some policy)
        (some 0)
        (given 40))
tlb_search-Answered_example =
    tlb_search-Answered memory memory-IsMemory here here-IsVirtAddr start 0 (1 ∷ 2 ∷ []) 3
      (given 40) start-FullAgrees policy-IsOrder policy-CanAllocate (omega arith)

-- The state after a call.
abbrev settled : Outcome Managed → Managed
settled (returned e s) = s
settled _ = start

-- After a search of `here`, and after one of another page.
after_here : Managed
after_here = settled (call 3 memory here (given 40) start)

elsewhere : VirtAddr
elsewhere = page_address 0 8

after_elsewhere : Managed
unfolding elsewhere
after_elsewhere = settled (call 3 memory elsewhere (given 50) after_here)

calls :
    (call 3 memory here (given 40) start ≡ returned err_none after_here)
    × (call 3 memory elsewhere (given 50) after_here ≡ returned err_none after_elsewhere)
    × (node_at after_here.policy.ll 50 ≡ none)
    × (node_at after_elsewhere.policy.ll 60 ≡ none)
unfolding elsewhere after_here after_elsewhere tlb_search search probe find_node on_found
    Lists.move_back Lists.is_empty_list Lists.move_node Lists.rotate Lists.relink fill replace
    use_front tlb_entry_init tlb_insert page_walk read_page_entry load32 init_phy_addr
    Lists.push_back Lists.link_back Lists.pop_front Lists.unlink_front Lists.modify Lists.free
    page_number
calls = (refl, refl, refl, refl)

elsewhere-IsVirtAddr : IsVirtAddr elsewhere
unfolding elsewhere
elsewhere-IsVirtAddr = omega arith

tlb_search-Run_example :
    (s3 : Managed) × (call 3 memory there (given 60) after_elsewhere ≡ returned err_none s3)
    × (s3.hit_or_miss ≡ 1)
    × (s3.paddr ≡ in_frame after_here.paddr.phy_page_num there)
unfolding page_number
tlb_search-Run_example =
    tlb_search-Run 3 memory here there (given 40) (given 60) start after_here after_elsewhere 0
      (1 ∷ 2 ∷ []) 1 memory-IsMemory here-IsVirtAddr there-IsVirtAddr refl policy-IsOrder
      (refl, (refl, (refl, tt))) (omega arith) policy-CanAllocate calls.0
      (next after_elsewhere elsewhere (given 50) elsewhere-IsVirtAddr
        (given-CanAllocate after_here.policy 50 calls.2) calls.1 stop)
      (omega arith) (given-CanAllocate after_elsewhere.policy 60 calls.3)
