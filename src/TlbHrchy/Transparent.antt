-- ===== src/TlbHrchy/Transparent.antt =====
-- With TLBs that agree with the page tables, `tlb_search` answers as `page_walk` does.
use kaby_lake_cache_c.Base.{
  ℕ, ◌%◌, ◌≡◌, ◌∙◌, sym, subst, ◌≢◌, inl, inr, refl, true, some, arith, u8, Option-cases,
}
use kaby_lake_cache_c.Outcome.{
  ErrorCode, err_none, err_bad_parameter, Outcome, returned, refused, fault,
}
use kaby_lake_cache_c.Addr.{VirtAddr, PhyAddr, page_number}
use kaby_lake_cache_c.Addr.Fields.{IsVirtAddr, IsPhyAddr}
use kaby_lake_cache_c.Memory.{Memory, IsMemory}
use kaby_lake_cache_c.PageWalk.{page_walk}
use kaby_lake_cache_c.TlbHrchy.{MemAccess, instruction, access_data, l1_itlb, l1_dtlb, l2_tlb}
use kaby_lake_cache_c.TlbHrchy.Lookup.{lookup}
use kaby_lake_cache_c.TlbHrchy.Search.{
  Hrchy, Malloc, search, refill, fill, fill_l1, tlb_search, after_walk,
}
use kaby_lake_cache_c.TlbHrchy.Cases.{in_frame, own_lookup, search-hit, search-l2_hit, search-miss}
use kaby_lake_cache_c.TlbHrchy.Coherence.{
  IsPage, IsCoherent, Agrees-insert_line, Agrees-invalidate, walk-IsPage, page_walk-of_IsPage,
  own_lookup-IsPage,
}

-- `tlb_search` on a hierarchy, no pointer being NULL.
abbrev pub call : Memory → VirtAddr → MemAccess → Malloc → Hrchy → Outcome Hrchy
call mem v access malloc s =
    tlb_search (some mem) (some v) (some s.paddr) access (some s.itlb) (some s.dtlb) (some s.l2)
      (some s.hit_or_miss) malloc

-- The call returns ERR_NONE with this physical address, and TLBs that agree with the tables.
abbrev pub Translated : Memory → PhyAddr → Outcome Hrchy → Type 0
Translated mem p r = (s : Hrchy) × (r ≡ returned err_none s) × (s.paddr ≡ p) × IsCoherent mem s

abbrev pub NeverNull : Malloc → Type 0
NeverNull malloc = (i : ℕ) → malloc i ≡ true

module _ (mem : Memory) (ok : IsMemory mem) (v : VirtAddr) (hv : IsVirtAddr v) (malloc : Malloc)
    (given : NeverNull malloc) where
  refill-Translated :
      (access : MemAccess) (s : Hrchy)
      → IsPhyAddr s.paddr
      → IsPage mem (page_number v) s.paddr.phy_page_num
      → IsCoherent mem s
      → Translated mem s.paddr (refill v access malloc s)
  unfolding refill
  refill-Translated instruction s hp page c = rw (given 0) (
    _,
    refl,
    refl,
    record {
      itlb = Agrees-insert_line mem ok v hv l1_itlb s.itlb s.paddr hp page c.itlb;
      dtlb = c.dtlb;
      l2 = c.l2;
    },
  )
  refill-Translated access_data s hp page c = rw (given 0) (
    _,
    refl,
    refl,
    record {
      itlb = Agrees-insert_line mem ok v hv l1_itlb s.itlb s.paddr hp page c.itlb;
      dtlb = c.dtlb;
      l2 = c.l2;
    },
  )

  fill_l1-Translated :
      (access : MemAccess) (s : Hrchy)
      → IsPhyAddr s.paddr
      → IsPage mem (page_number v) s.paddr.phy_page_num
      → IsCoherent mem s
      → Translated mem s.paddr (fill_l1 v access malloc s)
  unfolding fill_l1
  fill_l1-Translated instruction s hp page c =
      let line : u8 (page_number v % 16) ≡ page_number v % 16 = omega arith in
      rw (given 1, line)
        (
          _,
          refl,
          refl,
          record {
            itlb = Agrees-insert_line mem ok v hv l1_itlb s.itlb s.paddr hp page c.itlb;
            dtlb = c.dtlb;
            l2 = c.l2;
          },
        )
  fill_l1-Translated access_data s hp page c =
      let line : u8 (page_number v % 16) ≡ page_number v % 16 = omega arith in
      rw (given 1, line)
        (
          _,
          refl,
          refl,
          record {
            itlb = c.itlb;
            dtlb = Agrees-insert_line mem ok v hv l1_dtlb s.dtlb s.paddr hp page c.dtlb;
            l2 = c.l2;
          },
        )

  fill-Translated :
      (access : MemAccess) (s : Hrchy)
      → IsPhyAddr s.paddr
      → IsPage mem (page_number v) s.paddr.phy_page_num
      → IsCoherent mem s
      → Translated mem s.paddr (fill v access malloc s)
  unfolding fill
  fill-Translated instruction s hp page c = rw (given 0) (
      fill_l1-Translated instruction _ hp page (record {
        itlb = c.itlb;
        dtlb = Agrees-invalidate mem l1_dtlb s.dtlb _ _ c.dtlb;
        l2 = Agrees-insert_line mem ok v hv l2_tlb s.l2 s.paddr hp page c.l2;
      }))
  fill-Translated access_data s hp page c = rw (given 0) (
      fill_l1-Translated access_data _ hp page (record {
        itlb = Agrees-invalidate mem l1_itlb s.itlb _ _ c.itlb;
        dtlb = c.dtlb;
        l2 = Agrees-insert_line mem ok v hv l2_tlb s.l2 s.paddr hp page c.l2;
      }))

  module _ (access : MemAccess) (s : Hrchy) (c : IsCoherent mem s) where
    -- A page that a TLB maps is one that the walk finds.
    hit-walk :
        (p : PhyAddr) (frame : ℕ)
        → IsPage mem (page_number v) frame
        → page_walk (some mem) (some v) (some s.paddr) ≡ returned err_none p
        → p ≡ in_frame frame v
    hit-walk p frame page e = cc (page_walk-of_IsPage mem ok v hv s.paddr frame page)

    search-Translated :
        (p : PhyAddr)
        → page_walk (some mem) (some v) (some s.paddr) ≡ returned err_none p
        → Translated mem p (search mem v access malloc s)
    search-Translated p e = elim (Option-cases (own_lookup access s v)) [
      | inr (frame, hit) ↦
          let found = hit-walk p frame (own_lookup-IsPage mem access s v frame c hit) e in
          rw (search-hit mem v access malloc s frame hit)
            (_, refl, sym found, record { itlb = c.itlb; dtlb = c.dtlb; l2 = c.l2 })
      | inl miss ↦ elim (Option-cases (lookup l2_tlb s.l2 (page_number v))) [
        | inr (frame, hit) ↦
            let page = c.l2 (page_number v) frame hit in
            let found = hit-walk p frame page e in
            let hp = (walk-IsPage mem ok v hv s.paddr p e).0 in
            rw (search-l2_hit mem v access malloc s frame miss hit, found)
              (refill-Translated access (record s { paddr = in_frame frame v; hit_or_miss = 1 })
                (subst IsPhyAddr found hp) page
                (record { itlb = c.itlb; dtlb = c.dtlb; l2 = c.l2 }))
        | inl miss2 ↦
            let (hp, page, _) = walk-IsPage mem ok v hv s.paddr p e in
            rw (search-miss mem v access malloc s miss miss2, e)
              (fill-Translated access (record s { paddr = p; hit_or_miss = 0 }) hp page
                (record { itlb = c.itlb; dtlb = c.dtlb; l2 = c.l2 }))
      ]
    ]

    -- If the walk does not succeed then no TLB maps the page.
    search-unfound :
        ((p : PhyAddr) → page_walk (some mem) (some v) (some s.paddr) ≢ returned err_none p)
        → search mem v access malloc s
          ≡ after_walk
              (page_walk (some mem) (some v) (some s.paddr))
              v
              access
              malloc
              (record s { hit_or_miss = 0 })
    search-unfound never = elim (Option-cases (own_lookup access s v)) [
      | inr (frame, hit) ↦ absurd (
          never (in_frame frame v) (
            page_walk-of_IsPage mem ok v hv s.paddr frame
              (own_lookup-IsPage mem access s v frame c hit)))
      | inl miss ↦ elim (Option-cases (lookup l2_tlb s.l2 (page_number v))) [
        | inr (frame, hit) ↦ absurd (
            never (in_frame frame v)
              (page_walk-of_IsPage mem ok v hv s.paddr frame (c.l2 (page_number v) frame hit)))
        | inl miss2 ↦ search-miss mem v access malloc s miss miss2
      ]
    ]

    -- If the TLBs agree with the page tables, memory is not exhausted and the address is well-formed,
    -- then wherever `page_walk` finds a physical address, `tlb_search` returns ERR_NONE with the same
    -- one, and the TLBs still agree with the page tables.
    pub tlb_search-Translated :
        (p : PhyAddr)
        → page_walk (some mem) (some v) (some s.paddr) ≡ returned err_none p
        → Translated mem p (call mem v access malloc s)
    unfolding tlb_search
    tlb_search-Translated p e = search-Translated p e

    -- If the TLBs agree with the page tables, memory is not exhausted and the address is well-formed,
    -- then wherever `page_walk` refuses the page-table entry, `tlb_search` returns ERR_BAD_PARAMETER,
    -- reports a miss and leaves the physical address and the TLBs as they were.
    pub tlb_search-refused :
        (code : ErrorCode)
        → page_walk (some mem) (some v) (some s.paddr) ≡ refused code
        → call mem v access malloc s ≡ returned err_bad_parameter (record s { hit_or_miss = 0 })
    unfolding tlb_search
    tlb_search-refused code e = search-unfound (λ p f. cc) ∙ rw e

    -- Where the walk reads outside the memory, so does `tlb_search`.
    pub tlb_search-fault :
        page_walk (some mem) (some v) (some s.paddr) ≡ fault → call mem v access malloc s ≡ fault
    unfolding tlb_search
    tlb_search-fault e = search-unfound (λ p f. cc) ∙ rw e
