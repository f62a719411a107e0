-- ===== src/TlbMng/Single.antt =====
-- A flushed fully associative TLB with one entry.
use kaby_lake_cache_c.Base.{
  ℕ, zero, suc, ◌+◌, ◌<◌, ◌≤◌, ◌≡◌, ◌⊎◌, inl, inr, refl, ◌∙◌, arith, ◌&&◌, some, ltb, leb, ◌==◌,
  if◌then◌else◌, update, dec_lt, ◌%◌, ◌^◌,
}
use kaby_lake_cache_c.Outcome.{err_none, err_bad_parameter, returned, refused}
use kaby_lake_cache_c.Addr.{VirtAddr, PhyAddr, page_number}
use kaby_lake_cache_c.Addr.Fields.{IsVirtAddr, IsPhyAddr, page_number-lt}
use kaby_lake_cache_c.TlbMng.{
  FullEntry, FullTlb, empty_entry, tlb_entry_init, tlb_insert, flush_lines, tlb_flush,
}

-- The entry of a page.
abbrev pub entry_for : (page frame : ℕ) → FullEntry
entry_for page frame = record { tag = page; phy_page_num = frame; v = 1 }

-- The lines of the TLB are empty but one.
abbrev pub only : (line : ℕ) → FullEntry → FullTlb → FullTlb
only line e t i = if i == line then e else if ltb i 128 then empty_entry else t i

flush_lines-elem :
    (left i : ℕ) (t : FullTlb) (j : ℕ)
    → flush_lines left i t j ≡ (if leb i j && ltb j (i + left) then empty_entry else t j)
unfolding flush_lines
flush_lines-elem zero i t j = ground arith
flush_lines-elem (suc left) i t j =
    ground (arith, flush_lines-elem left (i + 1) (update t i empty_entry) j)

pub flush_lines-below :
    (t : FullTlb) (i : ℕ) → flush_lines 128 0 t i ≡ (if ltb i 128 then empty_entry else t i)
flush_lines-below t i = flush_lines-elem 128 0 t i ∙ ground arith

update_flushed :
    (line : ℕ) (e : FullEntry) (t : FullTlb) (i : ℕ)
    → update (flush_lines 128 0 t) line e i ≡ only line e t i
update_flushed line e t i = rw (flush_lines-below t i) refl

pub entry_init-entry_for :
    (v : VirtAddr) (p : PhyAddr) (old : FullEntry)
    → IsVirtAddr v
    → IsPhyAddr p
    → tlb_entry_init (some v) (some p) (some old)
      ≡ returned err_none (entry_for (page_number v) p.phy_page_num)
unfolding tlb_entry_init
entry_init-entry_for v p old hv hp =
    let page : page_number v % 2 ^ 36 ≡ page_number v = omega (arith, page_number-lt v hv) in
    let frame : p.phy_page_num % 2 ^ 20 ≡ p.phy_page_num = omega (arith, hp.page) in
    rw (page, frame) refl

-- `tlb_flush`, `tlb_entry_init` for well-formed addresses and `tlb_insert`: for a line of the TLB all
-- succeed, and then that line alone is valid, with the whole page number and the frame, and nothing
-- outside the TLB is written. For any other line `tlb_insert` refuses with ERR_BAD_PARAMETER.
pub tlb_insert_cases :
    (v : VirtAddr) (p : PhyAddr) (old : FullEntry) (t : FullTlb) (line : ℕ)
    → IsVirtAddr v
    → IsPhyAddr p
    → (e : FullEntry) × (t0 : FullTlb) × (tlb_entry_init (some v) (some p) (some old)
        ≡ returned err_none e)
      × (tlb_flush (some t) ≡ returned err_none t0)
      × (((line < 128)
            × ((t1 : FullTlb) × (tlb_insert line (some e) (some t0) ≡ returned err_none t1)
                × ((i : ℕ) → t1 i ≡ only line (entry_for (page_number v) p.phy_page_num) t i)))
          ⊎ ((128 ≤ line) × (tlb_insert line (some e) (some t0) ≡ refused err_bad_parameter)))
unfolding tlb_flush tlb_insert
tlb_insert_cases v p old t line hv hp = (
  entry_for (page_number v) p.phy_page_num,
  flush_lines 128 0 t,
  entry_init-entry_for v p old hv hp,
  refl,
  elim (dec_lt line 128) [
    | yes inside ↦ inl (
      inside,
      (
        update (flush_lines 128 0 t) line (entry_for (page_number v) p.phy_page_num),
        ground arith,
        update_flushed line (entry_for (page_number v) p.phy_page_num) t,
      ),
    )
    | no outside ↦ inr (omega arith, ground arith)
  ],
)
