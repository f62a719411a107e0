-- ===== src/Tests/Addresses.antt =====
-- Addresses and the page walk at concrete inputs.
use kaby_lake_cache_c.Base.{◌/◌, ◌%◌, ◌^◌, ◌≡◌, ◌⊎◌, refl, arith, none, some}
use kaby_lake_cache_c.Outcome.{code_number, err_none, err_bad_parameter, returned, refused}
use kaby_lake_cache_c.Addr.{
  VirtAddr, PhyAddr, init_virt_addr, init_virt_addr64, init_phy_addr, page_number, split,
  virt_addr_to_virtual_page_number, virt_addr_to_uint64, phy_addr_to_uint32,
}
use kaby_lake_cache_c.Addr.Fields.{IsVirtAddr, IsPhyAddr}
use kaby_lake_cache_c.Addr.Virtual.{
  FieldsFit, pattern_of, uint64-init_virt_addr64, init_virt_addr64-uint64, init_virt_addr_cases,
}
use kaby_lake_cache_c.Addr.Physical.{Starts, init_phy_addr_cases}
use kaby_lake_cache_c.Memory.{load32}
use kaby_lake_cache_c.PageWalk.{page_walk}
use kaby_lake_cache_c.PageWalk.Leaf.{leaf}
use kaby_lake_cache_c.PageWalk.Walk.{Walked, page_walk-Walked, page_walk-same_page}
use kaby_lake_cache_c.Tests.Data.{
  memory, memory-IsMemory, bad_memory, here, there, here-IsVirtAddr, there-IsVirtAddr, nowhere,
  second_page, walk_here, page_address,
}

pattern_read : init_virt_addr64 (some here) 0xffff_0000_0000_1010 ≡ returned err_none here
unfolding init_virt_addr64 split
pattern_read = refl

field_too_big : init_virt_addr (some here) 512 0 0 0 0 ≡ refused err_bad_parameter
unfolding init_virt_addr
field_too_big = refl

null_page_number : virt_addr_to_virtual_page_number none ≡ 3
unfolding virt_addr_to_virtual_page_number code_number
null_page_number = refl

uint64-init_virt_addr64_example :
    (v : VirtAddr) × (init_virt_addr64 (some here) 0x7fff_1234_5678_9abc ≡ returned err_none v)
    × IsVirtAddr v
    × (virt_addr_to_uint64 (some v) ≡ 0x7fff_1234_5678_9abc % 2 ^ 48)
    × (virt_addr_to_virtual_page_number (some v) ≡ 0x7fff_1234_5678_9abc / 2 ^ 12 % 2 ^ 36)
uint64-init_virt_addr64_example = uint64-init_virt_addr64 here 0x7fff_1234_5678_9abc

init_virt_addr64-uint64_example :
    init_virt_addr64 (some there) (virt_addr_to_uint64 (some here)) ≡ returned err_none here
init_virt_addr64-uint64_example = init_virt_addr64-uint64 there here here-IsVirtAddr

init_virt_addr_cases_example :
    (FieldsFit 1 2 3 4 5
      × (init_virt_addr (some here) 1 2 3 4 5
          ≡ init_virt_addr64 (some here) (pattern_of 1 2 3 4 5)))
    ⊎ (¬ (FieldsFit 1 2 3 4 5) × (init_virt_addr (some here) 1 2 3 4 5 ≡ refused err_bad_parameter))
init_virt_addr_cases_example = init_virt_addr_cases here 1 2 3 4 5

init_phy_addr_cases_run :
    (Starts 0x3000 7
      × ((p : PhyAddr) × (init_phy_addr (some nowhere) 0x3000 7 ≡ returned err_none p)
          × IsPhyAddr p
          × (phy_addr_to_uint32 (some p) ≡ 0x3007)))
    ⊎ (¬ (Starts 0x3000 7) × (init_phy_addr (some nowhere) 0x3000 7 ≡ refused err_bad_parameter))
init_phy_addr_cases_run = init_phy_addr_cases nowhere 0x3000 7 (omega arith)

walk_refused :
    page_walk (some bad_memory) (some (page_address 1 0)) (some nowhere) ≡ refused err_bad_parameter
unfolding page_walk load32 init_phy_addr
walk_refused = refl

page_walk-Walked_example :
    Walked (leaf memory here) 16 (page_walk (some memory) (some here) (some nowhere))
page_walk-Walked_example = page_walk-Walked memory here nowhere memory-IsMemory here-IsVirtAddr

page_walk-same_page_run :
    page_walk (some memory) (some there) (some nowhere) ≡ returned err_none (second_page 20)
page_walk-same_page_run =
    page_walk-same_page memory here there nowhere (second_page 16) memory-IsMemory here-IsVirtAddr
      there-IsVirtAddr (unfold page_number in refl) walk_here
