-- ===== src/TlbMng.antt =====
-- tlb.h and tlb_mng.c: the entries of the fully associative TLB, which stand in any line. The tag is
-- the whole page number.
pub mod Single
pub mod Search
pub mod Latest
pub mod Order
pub mod Replace
pub mod Refines
pub mod Transparent
pub mod Orders
pub mod Success
pub mod Resident
pub mod Stays
pub mod Run
use kaby_lake_cache_c.Base.{
  ℕ, zero, suc, ◌+◌, ◌%◌, ◌^◌, ◌<◌, ◌≡◌, ◌⊎◌, inl, inr, refl, arith, Option, none, some, ltb,
  if◌then◌else◌, update, dec_lt, ◌==◌,
}
use kaby_lake_cache_c.Outcome.{
  err_none, err_bad_parameter, Outcome, returned, refused, require, ◌>>=◌, ◌>>◌,
}
use kaby_lake_cache_c.Addr.{VirtAddr, PhyAddr, bits, page_number}
use kaby_lake_cache_c.Addr.Fields.{IsVirtAddr, IsPhyAddr, page_number-lt}

-- `TLB_LINES`
abbrev pub tlb_lines : ℕ
tlb_lines = 128

-- `tlb_entry_t` of tlb.h
pub record FullEntry : Type 0 where
  pub tag : ℕ
  pub phy_page_num : ℕ
  pub v : ℕ

abbrev pub FullTlb : Type 0
FullTlb = ℕ → FullEntry

abbrev pub empty_entry : FullEntry
empty_entry = record { tag = 0; phy_page_num = 0; v = 0 }

unfoldable pub tlb_entry_init :
    Option VirtAddr → Option PhyAddr → Option FullEntry → Outcome FullEntry
tlb_entry_init vaddr paddr tlb_entry = do
  v ← vaddr
  p ← paddr
  e ← tlb_entry
  returned err_none
      (record { tag = bits 36 (page_number v); phy_page_num = bits 20 p.phy_page_num; v = 1 })

unfoldable pub tlb_insert : ℕ → Option FullEntry → Option FullTlb → Outcome FullTlb
tlb_insert line_index tlb_entry tlb = do
  require (ltb line_index tlb_lines) err_bad_parameter
  e ← tlb_entry
  t ← tlb
  returned err_none (update t line_index e)

-- `left` rounds of the loop of `tlb_flush`, from line `i`.
unfoldable pub flush_lines : (left i : ℕ) → FullTlb → FullTlb
flush_lines zero i t = t
flush_lines (suc left) i t = flush_lines left (i + 1) (update t i empty_entry)

unfoldable pub tlb_flush : Option FullTlb → Outcome FullTlb
unfolding flush_lines
tlb_flush tlb = do t ← tlb; returned err_none (flush_lines tlb_lines 0 t)
