-- ===== src/Tests/Full.antt =====
-- The run of test-tlb_simple.c at concrete inputs.
use kaby_lake_cache_c.Base.{ℕ, ◌+◌, ◌≡◌, refl, subst, arith, Option, none, some}
use kaby_lake_cache_c.Commands.{Command, order_read}
use kaby_lake_cache_c.Lists.{Ptr, ListNode, LinkedList, init_list, push_back, move_back, move_node}
use kaby_lake_cache_c.Memory.Print.{zero_paddr}
use kaby_lake_cache_c.Runs.FullRun.{fill_list, start_managed, simulate_full}
use kaby_lake_cache_c.Runs.Setup.{AreFresh}
use kaby_lake_cache_c.Runs.Answers.{
  Answering, Served, ServedFrom, walk_answers, simulate_full-Answering,
}
use kaby_lake_cache_c.TlbHrchy.{access_data}
use kaby_lake_cache_c.TlbMng.{FullTlb, empty_entry, tlb_flush, tlb_insert, tlb_entry_init}
use kaby_lake_cache_c.TlbMng.Search.{
  Allocated, tlb_search, probe, search, find_node, on_found, fill, use_front, replace,
}
use kaby_lake_cache_c.TlbMng.Replace.{CanAllocate}
use kaby_lake_cache_c.PageWalk.{page_walk}
use kaby_lake_cache_c.Addr.{init_phy_addr, page_number}
use kaby_lake_cache_c.Memory.{load32}
use kaby_lake_cache_c.Tests.Data.{memory, memory-IsMemory, here, here-IsVirtAddr}

-- Each line is a read at `here`: the first one misses and the second one hits.
abbrev reads_here : ℕ → Command
reads_here i = record {
  order = order_read;
  type = access_data;
  data_size = 4;
  write_data = 0;
  vaddr = here;
}

abbrev given_nodes : ℕ → Allocated
given_nodes i = record { entry = some empty_entry; node = some (1000 + i) }

abbrev numbered : ℕ → Ptr
numbered i = some i

abbrev no_list : LinkedList
no_list = record { heap = λ a. none; front = some 7; back = none }

abbrev stale_tlb : FullTlb
stale_tlb i = record { tag = 1; phy_page_num = 77; v = 1 }

numbered-AreFresh : AreFresh numbered no_list
numbered-AreFresh = record {
  fresh = λ i. i;
  given = λ i. refl;
  distinct = λ i j e. e;
  unused = λ i. refl;
}

-- What a list has at an address.
abbrev node_at : Option LinkedList → ℕ → Option ListNode
node_at none a = none
node_at (some l) a = l.heap a

given_nodes-CanAllocate :
    (ll : LinkedList) (line : ℕ)
    → ll.heap (1000 + line) ≡ none
    → CanAllocate
        (given_nodes line)
        (record { ll = some ll; push_back = push_back; move_back = move_back })
given_nodes-CanAllocate ll line unused = record {
  old = empty_entry;
  entry = refl;
  node = record {
    fresh = 1000 + line;
    given = refl;
    unused = λ l e. subst (λ o. node_at o (1000 + line) ≡ none) e unused;
  };
}

start_managed-ServedFrom :
    ServedFrom
      (start_managed numbered no_list stale_tlb)
      (Served 128 reads_here given_nodes memory 2 0)
unfolding start_managed init_list tlb_flush fill_list push_back tlb_search probe search find_node
    on_found fill tlb_insert use_front tlb_entry_init page_walk load32 init_phy_addr move_back
    move_node page_number replace
start_managed-ServedFrom =
    (given_nodes-CanAllocate _ 0 refl, (given_nodes-CanAllocate _ 1 refl, tt))

simulate_full-Answering_example :
    Answering
      (walk_answers reads_here memory 2 0 zero_paddr)
      (simulate_full 128 reads_here 2 given_nodes memory numbered no_list stale_tlb)
simulate_full-Answering_example =
    simulate_full-Answering 128 reads_here given_nodes memory 2 numbered no_list stale_tlb
      memory-IsMemory (omega arith) (λ i. here-IsVirtAddr) numbered-AreFresh
      start_managed-ServedFrom
