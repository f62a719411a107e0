-- ===== src/Addr/Fields.antt =====
-- What the fields of an address can hold, and the conversions as sums.
use kaby_lake_cache_c.Base.{
  ℕ, ◌+◌, ◌*◌, ◌/◌, ◌%◌, ◌^◌, ◌<◌, ◌≡◌, some, arith, bit_and_mask, bit_or_join, bit_or_join_low,
}
use kaby_lake_cache_c.Addr.{
  VirtAddr, PhyAddr, split, page_number, virt_addr_to_virtual_page_number, virt_addr_to_uint64,
  phy_addr_to_uint32,
}

-- Every field fits its bits, and the reserved bits are zero.
pub record IsVirtAddr (v : VirtAddr) : Type 0 where
  pub reserved : v.reserved ≡ 0
  pub pgd : v.pgd_entry < 512
  pub pud : v.pud_entry < 512
  pub pmd : v.pmd_entry < 512
  pub pte : v.pte_entry < 512
  pub offset : v.page_offset < 4096

pub record IsPhyAddr (p : PhyAddr) : Type 0 where
  pub page : p.phy_page_num < 2 ^ 20
  pub offset : p.page_offset < 4096

pub page_number-sum :
    (v : VirtAddr)
    → IsVirtAddr v
    → page_number v
      ≡ v.pte_entry + v.pmd_entry * 2 ^ 9 + v.pud_entry * 2 ^ 18 + v.pgd_entry * 2 ^ 27
unfolding page_number
page_number-sum v h = ground (
  arith,
  bit_or_join_low 9 v.pmd_entry v.pte_entry,
  bit_or_join_low 18 v.pud_entry (v.pte_entry + v.pmd_entry * 2 ^ 9),
  bit_or_join_low 27 v.pgd_entry (v.pte_entry + v.pmd_entry * 2 ^ 9 + v.pud_entry * 2 ^ 18),
)

pub page_number-lt : (v : VirtAddr) → IsVirtAddr v → page_number v < 2 ^ 36
page_number-lt v h = omega (arith, page_number-sum v h)

pub uint64-sum :
    (v : VirtAddr)
    → IsVirtAddr v
    → virt_addr_to_uint64 (some v) ≡ page_number v * 2 ^ 12 + v.page_offset
unfolding virt_addr_to_uint64 virt_addr_to_virtual_page_number
uint64-sum v h = ground (arith, page_number-lt v h, bit_or_join 12 (page_number v) v.page_offset)

pub uint32-sum :
    (p : PhyAddr)
    → IsPhyAddr p
    → phy_addr_to_uint32 (some p) ≡ p.phy_page_num * 2 ^ 12 + p.page_offset
unfolding phy_addr_to_uint32
uint32-sum p h = ground (arith, bit_or_join 12 p.phy_page_num p.page_offset)

-- The fields of a pattern by division.
pub split-fields :
    (x : ℕ)
    → ((split x).reserved ≡ 0)
      × ((split x).pgd_entry ≡ x / 2 ^ 39 % 512)
      × ((split x).pud_entry ≡ x / 2 ^ 30 % 512)
      × ((split x).pmd_entry ≡ x / 2 ^ 21 % 512)
      × ((split x).pte_entry ≡ x / 2 ^ 12 % 512)
      × ((split x).page_offset ≡ x % 4096)
unfolding split
split-fields x = ground (
  arith,
  bit_and_mask 9 (x / 2 ^ 39),
  bit_and_mask 9 (x / 2 ^ 30),
  bit_and_mask 9 (x / 2 ^ 21),
  bit_and_mask 9 (x / 2 ^ 12),
  bit_and_mask 12 x,
)
