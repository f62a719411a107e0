-- ===== src/Tests/Data.antt =====
-- A memory of two pages whose first page is the table of all four levels.
use kaby_lake_cache_c.Base.{ℕ, ◌%◌, ◌≡◌, refl, arith, none, some, ltb, ◌==◌, if◌then◌else◌}
use kaby_lake_cache_c.Outcome.{err_none, returned}
use kaby_lake_cache_c.Addr.{VirtAddr, PhyAddr, init_phy_addr}
use kaby_lake_cache_c.Addr.Fields.{IsVirtAddr, IsPhyAddr}
use kaby_lake_cache_c.Memory.{Memory, IsMemory, load32}
use kaby_lake_cache_c.PageWalk.{page_walk}

-- Entry 1 of the table leads to the second page, all others to the first. Byte `a` of the second page
-- is `a % 256`.
abbrev pub memory : Memory
memory a =
    if a == 5
    then some 16
    else if ltb a 4096
    then some 0
    else if ltb a 8192
    then some (a % 256)
    else none

pub memory-IsMemory : IsMemory memory
memory-IsMemory a = ground arith

abbrev pub page_address : (pte offset : ℕ) → VirtAddr
page_address pte offset = record {
  reserved = 0;
  pgd_entry = 0;
  pud_entry = 0;
  pmd_entry = 0;
  pte_entry = pte;
  page_offset = offset;
}

-- The address 0x1010 in the second page, and another one of that page.
abbrev pub here : VirtAddr
here = page_address 1 16

abbrev pub there : VirtAddr
there = page_address 1 20

pub here-IsVirtAddr : IsVirtAddr here
here-IsVirtAddr = omega arith

pub there-IsVirtAddr : IsVirtAddr there
there-IsVirtAddr = omega arith

abbrev pub nowhere : PhyAddr
nowhere = record { phy_page_num = 0; page_offset = 0 }

abbrev pub second_page : (offset : ℕ) → PhyAddr
second_page offset = record { phy_page_num = 1; page_offset = offset }

pub second_page-IsPhyAddr : IsPhyAddr (second_page 16)
second_page-IsPhyAddr = omega arith

pub walk_here :
    page_walk (some memory) (some here) (some nowhere) ≡ returned err_none (second_page 16)
unfolding page_walk load32 init_phy_addr
walk_here = refl

-- Entry 5 of the table read at byte 5: an entry that is no multiple of the page size.
abbrev pub bad_memory : Memory
bad_memory a = if a == 4 then some 1 else if ltb a 4096 then some 0 else none

pub bad_memory-IsMemory : IsMemory bad_memory
bad_memory-IsMemory a = ground arith
