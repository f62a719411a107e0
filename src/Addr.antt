-- ===== src/Addr.antt =====
-- addr.h and addr_mng.c: virtual and physical addresses and their conversions, and
-- `phy_addr_t_to_uint32_t` of cache_mng.c.
pub mod Fields
pub mod Virtual
pub mod Print
pub mod Physical
use kaby_lake_cache_c.Base.{
  ℕ, ◌+◌, ◌*◌, ◌%◌, ◌/◌, ◌^◌, ◌<◌, ◌≡◌, bit_and, bit_or, Option, none, some, ◌==◌, ◌<<<◌, ◌>>>◌,
  u32, u64,
}
use kaby_lake_cache_c.Outcome.{
  err_none, err_bad_parameter, code_number, Outcome, returned, require, ◌>>=◌, ◌>>◌,
}

abbrev pub page_offset_bits : ℕ
page_offset_bits = 12

abbrev pub page_size : ℕ
page_size = 4096

abbrev pub shift : ℕ
shift = 9

abbrev pub mask_9bit : ℕ
mask_9bit = 0b1_1111_1111

abbrev pub mask_offset : ℕ
mask_offset = 0b1111_1111_1111

-- A store into a bit field of `w` bits.
abbrev pub bits : ℕ → ℕ → ℕ
bits w x = x % 2 ^ w

pub record VirtAddr : Type 0 where
  pub reserved : ℕ
  pub pgd_entry : ℕ
  pub pud_entry : ℕ
  pub pmd_entry : ℕ
  pub pte_entry : ℕ
  pub page_offset : ℕ

pub record PhyAddr : Type 0 where
  pub phy_page_num : ℕ
  pub page_offset : ℕ

unfoldable pub init_virt_addr :
    Option VirtAddr → (pgd_entry pud_entry pmd_entry pte_entry page_offset : ℕ) → Outcome VirtAddr
init_virt_addr vaddr pgd_entry pud_entry pmd_entry pte_entry page_offset = do
  v ← vaddr
  require (pgd_entry >>> 9 == 0) err_bad_parameter
  require (pud_entry >>> 9 == 0) err_bad_parameter
  require (pte_entry >>> 9 == 0) err_bad_parameter
  require (pmd_entry >>> 9 == 0) err_bad_parameter
  require (page_offset >>> page_offset_bits == 0) err_bad_parameter
  returned err_none (record {
    reserved = 0;
    pgd_entry = bits 9 pgd_entry;
    pud_entry = bits 9 pud_entry;
    pmd_entry = bits 9 pmd_entry;
    pte_entry = bits 9 pte_entry;
    page_offset = bits 12 page_offset;
  })

-- The fields of a 64-bit pattern.
unfoldable pub split : ℕ → VirtAddr
split vaddr64 = record {
  reserved = 0;
  pgd_entry = bits 9 (bit_and (vaddr64 >>> (page_offset_bits + 3 * shift)) mask_9bit);
  pud_entry = bits 9 (bit_and (vaddr64 >>> (page_offset_bits + 2 * shift)) mask_9bit);
  pmd_entry = bits 9 (bit_and (vaddr64 >>> (page_offset_bits + shift)) mask_9bit);
  pte_entry = bits 9 (bit_and (vaddr64 >>> page_offset_bits) mask_9bit);
  page_offset = bits 12 (bit_and vaddr64 mask_offset);
}

unfoldable pub init_virt_addr64 : Option VirtAddr → ℕ → Outcome VirtAddr
init_virt_addr64 vaddr vaddr64 = do v ← vaddr; returned err_none (split vaddr64)

unfoldable pub init_phy_addr : Option PhyAddr → (page_begin page_offset : ℕ) → Outcome PhyAddr
init_phy_addr paddr page_begin page_offset = do
  require (page_offset >>> page_offset_bits == 0) err_bad_parameter
  require (page_begin % page_size == 0) err_bad_parameter
  p ← paddr
  returned err_none (record {
    phy_page_num = bits 20 (page_begin >>> page_offset_bits);
    page_offset = bits 12 page_offset;
  })

-- The body of `virt_addr_t_to_virtual_page_number` at a pointer that is not NULL.
unfoldable pub page_number : VirtAddr → ℕ
page_number v =
    let pte = v.pte_entry in
    let pmd = u64 (v.pmd_entry <<< 9) in
    let pud = u64 (v.pud_entry <<< (9 * 2)) in
    let pgd = u64 (v.pgd_entry <<< (9 * 3)) in bit_or (bit_or (bit_or pte pmd) pud) pgd

-- A NULL pointer gives the error code, as the number that is returned.
unfoldable pub virt_addr_to_virtual_page_number : Option VirtAddr → ℕ
virt_addr_to_virtual_page_number none = code_number err_bad_parameter
virt_addr_to_virtual_page_number (some v) = page_number v

unfoldable pub virt_addr_to_uint64 : Option VirtAddr → ℕ
virt_addr_to_uint64 none = code_number err_bad_parameter
virt_addr_to_uint64 (some v) =
    let temporal = u64 (virt_addr_to_virtual_page_number (some v) <<< page_offset_bits) in
    bit_or temporal v.page_offset

-- `phy_page_num` is a field of 20 bits, which C promotes to `int`; the bits of the shift are kept.
unfoldable pub phy_addr_to_uint32 : Option PhyAddr → ℕ
phy_addr_to_uint32 none = code_number err_bad_parameter
phy_addr_to_uint32 (some p) = bit_or (u32 (p.phy_page_num <<< page_offset_bits)) p.page_offset
