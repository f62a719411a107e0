-- ===== src/PageWalk.antt =====
-- page_walk.c: the walk through the four levels of page tables.
pub mod Leaf
pub mod Walk
use kaby_lake_cache_c.Base.{ℕ, ◌+◌, ◌*◌, ◌/◌, Option, none, some}
use kaby_lake_cache_c.Outcome.{Outcome, fault, ◌>>=◌}
use kaby_lake_cache_c.Addr.{VirtAddr, PhyAddr, init_phy_addr}
use kaby_lake_cache_c.Memory.{Memory, load32}

-- `sizeof(pte_t)`
abbrev pub pte_size : ℕ
pte_size = 4

-- `start[page_start / sizeof(pte_t) + index]`; `none` for a read outside the memory.
unfoldable pub read_page_entry : Memory → (page_start index : ℕ) → Option ℕ
read_page_entry start page_start index = load32 start (pte_size * (page_start / pte_size + index))

abbrev pub reading : {S : Type 0} → Option ℕ → (ℕ → Outcome S) → Outcome S
reading none k = fault
reading (some w) k = k w

unfoldable pub page_walk : Option Memory → Option VirtAddr → Option PhyAddr → Outcome PhyAddr
unfolding read_page_entry
page_walk mem_space vaddr paddr = do
  mem ← mem_space
  v ← vaddr
  p ← paddr
  reading (read_page_entry mem 0 v.pgd_entry) λ pud_start.
      reading (read_page_entry mem pud_start v.pud_entry) λ pmd_start.
        reading (read_page_entry mem pmd_start v.pmd_entry) λ pt_start.
          reading (read_page_entry mem pt_start v.pte_entry)
            λ phys_page_number. init_phy_addr (some p) phys_page_number v.page_offset
