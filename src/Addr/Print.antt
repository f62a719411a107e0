-- ===== src/Addr/Print.antt =====
-- `print_virtual_address` and `print_physical_address` of addr_mng.c.
use kaby_lake_cache_c.Base.{ℕ, Option, some}
use kaby_lake_cache_c.Outcome.{err_bad_parameter, code_number}
use mathlib.Core.List.{List, [], ◌∷◌}
use kaby_lake_cache_c.Addr.{VirtAddr, PhyAddr}

-- A field of an address with its name before it, in hexadecimal.
pub data Field : Type 0 where
  pgd pud pmd pte offset page_num : ℕ → Field

-- A stream: the number that `fprintf` returns for a text.
abbrev pub FieldStream : Type 0
FieldStream = List Field → ℕ

-- What is written, and what is returned.
unfoldable pub print_virtual_address :
    (where_to : Option FieldStream) → Option VirtAddr → List Field × ℕ
print_virtual_address (some fprintf) (some v) =
    let text =
      pgd v.pgd_entry
      ∷ pud v.pud_entry
      ∷ pmd v.pmd_entry
      ∷ pte v.pte_entry
      ∷ offset v.page_offset
      ∷ [] in
    (text, fprintf text)
print_virtual_address _ _ = ([], code_number err_bad_parameter)

unfoldable pub print_physical_address :
    (where_to : Option FieldStream) → Option PhyAddr → List Field × ℕ
print_physical_address (some fprintf) (some p) =
    let text = page_num p.phy_page_num ∷ offset p.page_offset ∷ [] in (text, fprintf text)
print_physical_address _ _ = ([], code_number err_bad_parameter)
