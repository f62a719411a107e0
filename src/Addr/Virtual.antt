-- ===== src/Addr/Virtual.antt =====
-- Virtual addresses: the 64-bit pattern and the fields are two readings of one address.
use kaby_lake_cache_c.Base.{ℕ, ◌+◌, ◌*◌, ◌/◌, ◌%◌, ◌^◌, ◌<◌, ◌≡◌, ◌⊎◌, refl, some, arith}
use kaby_lake_cache_c.Outcome.{err_none, err_bad_parameter, returned, refused}
use kaby_lake_cache_c.Addr.{
  VirtAddr, split, init_virt_addr, init_virt_addr64, page_number, virt_addr_to_virtual_page_number,
  virt_addr_to_uint64,
}
use kaby_lake_cache_c.Addr.Fields.{IsVirtAddr, page_number-sum, uint64-sum, split-fields}

pub split-IsVirtAddr : (x : ℕ) → IsVirtAddr (split x)
split-IsVirtAddr x = ground (arith, split-fields x)

uint64-split : (x : ℕ) → virt_addr_to_uint64 (some (split x)) ≡ x % 2 ^ 48
uint64-split x = omega (
  arith,
  split-fields x,
  uint64-sum (split x) (split-IsVirtAddr x),
  page_number-sum (split x) (split-IsVirtAddr x),
)

split-uint64 : (v : VirtAddr) → IsVirtAddr v → split (virt_addr_to_uint64 (some v)) ≡ v
split-uint64 v h =
    ground (arith, uint64-sum v h, page_number-sum v h, split-fields (virt_addr_to_uint64 (some v)))

page_number-split : (x : ℕ) → page_number (split x) ≡ x / 2 ^ 12 % 2 ^ 36
page_number-split x = omega (arith, split-fields x, page_number-sum (split x) (split-IsVirtAddr x))

-- `init_virt_addr64` accepts every pattern, gives an address whose fields fit and whose reserved
-- bits are zero, and that address converts back to the low 48 bits of the pattern and to the 36
-- bits above the page offset.
pub uint64-init_virt_addr64 :
    (old : VirtAddr) (x : ℕ)
    → (v : VirtAddr) × (init_virt_addr64 (some old) x ≡ returned err_none v)
      × IsVirtAddr v
      × (virt_addr_to_uint64 (some v) ≡ x % 2 ^ 48)
      × (virt_addr_to_virtual_page_number (some v) ≡ x / 2 ^ 12 % 2 ^ 36)
unfolding init_virt_addr64 virt_addr_to_virtual_page_number
uint64-init_virt_addr64 old x =
    (split x, refl, split-IsVirtAddr x, uint64-split x, page_number-split x)

-- `virt_addr_t_to_uint64_t` followed by `init_virt_addr64` gives back every address whose fields fit
-- and whose reserved bits are zero.
pub init_virt_addr64-uint64 :
    (old v : VirtAddr)
    → IsVirtAddr v
    → init_virt_addr64 (some old) (virt_addr_to_uint64 (some v)) ≡ returned err_none v
unfolding init_virt_addr64
init_virt_addr64-uint64 old v h = rw (split-uint64 v h)

abbrev pub FieldsFit : (pgd pud pmd pte offset : ℕ) → Type 0
FieldsFit pgd pud pmd pte offset =
    (pgd < 512) × (pud < 512) × (pmd < 512) × (pte < 512) × (offset < 4096)

abbrev pub pattern_of : (pgd pud pmd pte offset : ℕ) → ℕ
pattern_of pgd pud pmd pte offset =
    pgd * 2 ^ 39 + pud * 2 ^ 30 + pmd * 2 ^ 21 + pte * 2 ^ 12 + offset

-- `init_virt_addr` accepts exactly the fields that fit 9 bits, and 12 for the offset; then it makes
-- the address that `init_virt_addr64` makes of the pattern with these fields. It refuses all other
-- arguments with ERR_BAD_PARAMETER.
pub init_virt_addr_cases :
    (old : VirtAddr) (pgd pud pmd pte offset : ℕ)
    → (FieldsFit pgd pud pmd pte offset
        × (init_virt_addr (some old) pgd pud pmd pte offset
            ≡ init_virt_addr64 (some old) (pattern_of pgd pud pmd pte offset)))
      ⊎ (¬ (FieldsFit pgd pud pmd pte offset)
          × (init_virt_addr (some old) pgd pud pmd pte offset ≡ refused err_bad_parameter))
unfolding init_virt_addr init_virt_addr64
init_virt_addr_cases old pgd pud pmd pte offset =
    ground (arith, split-fields (pattern_of pgd pud pmd pte offset))
