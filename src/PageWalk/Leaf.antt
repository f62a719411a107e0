-- ===== src/PageWalk/Leaf.antt =====
-- The entry that a walk ends at, and what the walk makes of it.
use kaby_lake_cache_c.Base.{
  if◌then◌else◌, ◌==◌, ℕ, ◌+◌, ◌%◌, ◌<◌, ◌^◌, ◌≡◌, Option, none, some, refl, arith, ◌≢◌, ◌∙◌, ◌*◌,
  ap, ◌-◌,
}
use kaby_lake_cache_c.Outcome.{err_none, err_bad_parameter, Outcome, returned, refused, fault}
use kaby_lake_cache_c.Addr.{VirtAddr, PhyAddr, init_phy_addr, page_number}
use kaby_lake_cache_c.Addr.Fields.{IsVirtAddr, page_number-sum}
use kaby_lake_cache_c.Addr.Physical.{located, init_phy_addr-located, init_phy_addr-refused}
use kaby_lake_cache_c.Memory.{Memory, IsMemory, load32, load32-lt}
use kaby_lake_cache_c.PageWalk.{read_page_entry, page_walk, reading}

-- From the physical address of a table to the entry of the next level: the word at the last multiple
-- of four up to the begin of the table, and four bytes further on for each entry.
abbrev next_level : Memory → ℕ → Option ℕ → Option ℕ
next_level mem index none = none
next_level mem index (some start) = load32 mem (start - start % 4 + 4 * index)

-- The page-table entry that belongs to a virtual address, `none` if a read leaves the memory.
unfoldable pub leaf : Memory → VirtAddr → Option ℕ
leaf mem v =
    next_level mem v.pte_entry (
      next_level mem v.pmd_entry (next_level mem v.pud_entry (next_level mem v.pgd_entry (some 0))))

-- What the walk comes to at the entry that it ends at.
abbrev pub arrive : Option ℕ → ℕ → Outcome PhyAddr
arrive none offset = fault
arrive (some w) offset =
    if w % 4096 == 0 then returned err_none (located w offset) else refused err_bad_parameter

init_phy_addr-arrive :
    (p : PhyAddr) (w offset : ℕ)
    → w < 2 ^ 32
    → offset < 4096
    → init_phy_addr (some p) w offset ≡ arrive (some w) offset
init_phy_addr-arrive p w offset small fits = ground (
  arith,
  init_phy_addr-located p w offset small,
  λ (odd : w % 4096 ≢ 0). init_phy_addr-refused p w offset (λ s. odd s.1),
)

reading-arrive :
    (o : Option ℕ) (p : PhyAddr) (offset : ℕ)
    → ((w : ℕ) → o ≡ some w → w < 2 ^ 32)
    → offset < 4096
    → reading o (λ w. init_phy_addr (some p) w offset) ≡ arrive o offset
reading-arrive none p offset small fits = refl
reading-arrive (some w) p offset small fits = init_phy_addr-arrive p w offset (small w refl) fits

module _ (mem : Memory) (ok : IsMemory mem) where
  next_level-lt : (index : ℕ) (o : Option ℕ) (w : ℕ) → next_level mem index o ≡ some w → w < 2 ^ 32
  next_level-lt index none w e = cc
  next_level-lt index (some start) w e = load32-lt mem (start - start % 4 + 4 * index) ok e

  pub leaf-lt : (v : VirtAddr) (w : ℕ) → leaf mem v ≡ some w → w < 2 ^ 32
  unfolding leaf
  leaf-lt v w e =
      next_level-lt v.pte_entry
        (next_level mem v.pmd_entry
          (next_level mem v.pud_entry (next_level mem v.pgd_entry (some 0))))
        w e

  read_page_entry-next_level :
      (start index : ℕ) → read_page_entry mem start index ≡ next_level mem index (some start)
  unfolding read_page_entry
  read_page_entry-next_level start index = ap (load32 mem) (omega arith)

  reading-next_level :
      {S : Type 0} (start index : ℕ) (k : ℕ → Outcome S)
      → reading (read_page_entry mem start index) k ≡ reading (next_level mem index (some start)) k
  reading-next_level start index k = ap (λ o. reading o k) (read_page_entry-next_level start index)

  reading-level :
      {S : Type 0} (o : Option ℕ) (index : ℕ) (k : ℕ → Outcome S)
      → reading o (λ start. reading (read_page_entry mem start index) k)
        ≡ reading (next_level mem index o) k
  reading-level none index k = refl
  reading-level (some start) index k = reading-next_level start index k

  page_walk-reading :
      (v : VirtAddr) (p : PhyAddr)
      → page_walk (some mem) (some v) (some p)
        ≡ reading (leaf mem v) (λ w. init_phy_addr (some p) w v.page_offset)
  unfolding page_walk leaf
  page_walk-reading v p =
      let arrived = λ (w : ℕ). init_phy_addr (some p) w v.page_offset in
      let from_pt = λ (start : ℕ). reading (read_page_entry mem start v.pte_entry) arrived in
      let from_pmd = λ (start : ℕ). reading (read_page_entry mem start v.pmd_entry) from_pt in
      let from_pud = λ (start : ℕ). reading (read_page_entry mem start v.pud_entry) from_pmd in
      let pud_start = next_level mem v.pgd_entry (some 0) in
      let pmd_start = next_level mem v.pud_entry pud_start in
      let pt_start = next_level mem v.pmd_entry pmd_start in
      reading-next_level 0 v.pgd_entry from_pud
      ∙ reading-level pud_start v.pud_entry from_pmd
      ∙ reading-level pmd_start v.pmd_entry from_pt
      ∙ reading-level pt_start v.pte_entry arrived

  pub page_walk-arrive :
      (v : VirtAddr) (p : PhyAddr)
      → v.page_offset < 4096
      → page_walk (some mem) (some v) (some p) ≡ arrive (leaf mem v) v.page_offset
  page_walk-arrive v p fits =
      page_walk-reading v p ∙ reading-arrive (leaf mem v) p v.page_offset (leaf-lt v) fits

-- Addresses of one page have one page-table entry.
pub leaf-same_page :
    (mem : Memory) (u v : VirtAddr)
    → IsVirtAddr u
    → IsVirtAddr v
    → page_number u ≡ page_number v
    → leaf mem u ≡ leaf mem v
unfolding leaf
leaf-same_page mem u v hu hv same =
    let pgd : u.pgd_entry ≡ v.pgd_entry =
      omega (arith, page_number-sum u hu, page_number-sum v hv) in
    let pud : u.pud_entry ≡ v.pud_entry =
      omega (arith, page_number-sum u hu, page_number-sum v hv) in
    let pmd : u.pmd_entry ≡ v.pmd_entry =
      omega (arith, page_number-sum u hu, page_number-sum v hv) in
    let pte : u.pte_entry ≡ v.pte_entry =
      omega (arith, page_number-sum u hu, page_number-sum v hv) in
    rw (pgd, pud, pmd, pte)
