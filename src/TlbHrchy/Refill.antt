-- ===== src/TlbHrchy/Refill.antt =====
-- What a second search of a page finds: the level-1 TLB after a miss, and after a level-2 hit.
use kaby_lake_cache_c.Base.{ℕ, ◌%◌, ◌≡◌, ◌∙◌, refl, none, some, arith, u8, ◌<◌, ◌^◌}
use kaby_lake_cache_c.Outcome.{err_none, Outcome, returned}
use kaby_lake_cache_c.Addr.{VirtAddr, PhyAddr, page_number}
use kaby_lake_cache_c.Addr.Fields.{IsVirtAddr, IsPhyAddr}
use kaby_lake_cache_c.Memory.{Memory, IsMemory}
use kaby_lake_cache_c.PageWalk.{page_walk}
use kaby_lake_cache_c.TlbHrchy.{
  MemAccess, instruction, access_data, TlbKind, l1_itlb, l1_dtlb, l2_tlb, lines, Tlb, insert_line,
  entry_of,
}
use kaby_lake_cache_c.TlbHrchy.Lookup.{lookup, lookup_after, lookup-insert_line}
use kaby_lake_cache_c.TlbHrchy.Search.{Hrchy, Malloc, refill, fill, tlb_search}
use kaby_lake_cache_c.TlbHrchy.Cases.{in_frame, own_lookup, search-hit, search-l2_hit, search-miss}
use kaby_lake_cache_c.TlbHrchy.Coherence.{walk-IsPage}
use kaby_lake_cache_c.TlbHrchy.Transparent.{call, NeverNull}

module _ (mem : Memory) (v : VirtAddr) (hv : IsVirtAddr v) (malloc : Malloc)
    (given : NeverNull malloc) (s : Hrchy) where
  -- The address is well-formed and `malloc` succeeds. Then a data access that misses its own TLB and
  -- hits the level-2 TLB gives the frame with the offset, and enters the page into the instruction
  -- TLB. The data TLB and the level-2 TLB are as before.
  pub tlb_search_data_l2_hit :
      (frame : ℕ)
      → frame < 2 ^ 20
      → lookup l1_dtlb s.dtlb (page_number v) ≡ none
      → lookup l2_tlb s.l2 (page_number v) ≡ some frame
      → (s' : Hrchy) × (call mem v access_data malloc s ≡ returned err_none s')
        × (s'.paddr ≡ in_frame frame v)
        × (s'.dtlb ≡ s.dtlb)
        × (s'.l2 ≡ s.l2)
        × ((n : ℕ) → lookup l1_itlb s'.itlb n ≡ lookup_after l1_itlb s.itlb (page_number v) frame n)
  unfolding tlb_search refill
  tlb_search_data_l2_hit frame small miss hit =
      rw (search-l2_hit mem v access_data malloc s frame miss hit, given 0)
        (
          _,
          refl,
          refl,
          refl,
          refl,
          λ n.
              lookup-insert_line l1_itlb s.itlb v (in_frame frame v) n hv
                (record { page = small; offset = hv.offset }),
        )

lookup_self :
    (k : TlbKind) (v : VirtAddr) (p : PhyAddr) (t : Tlb)
    → IsVirtAddr v
    → IsPhyAddr p
    → lookup k (insert_line (page_number v % lines k) (entry_of v p k) t k).1 (page_number v)
      ≡ some p.phy_page_num
lookup_self k v p t hv hp = ground (arith, lookup-insert_line k t v p (page_number v) hv hp)

abbrev Filled : MemAccess → VirtAddr → (frame : ℕ) → Outcome Hrchy → Type 0
Filled access v frame r =
    (s : Hrchy) × (r ≡ returned err_none s) × (own_lookup access s v ≡ some frame)

module _ (mem : Memory) (v : VirtAddr) (hv : IsVirtAddr v) (malloc : Malloc)
    (given : NeverNull malloc) where
  fill-Filled :
      (access : MemAccess) (s : Hrchy)
      → IsPhyAddr s.paddr
      → Filled access v s.paddr.phy_page_num (fill v access malloc s)
  unfolding fill
  fill-Filled instruction s hp =
      let line : u8 (page_number v % 16) ≡ page_number v % 16 = omega arith in
      rw (given 0, given 1, line) (_, refl, lookup_self l1_itlb v s.paddr s.itlb hv hp)
  fill-Filled access_data s hp =
      let line : u8 (page_number v % 16) ≡ page_number v % 16 = omega arith in
      rw (given 0, given 1, line) (_, refl, lookup_self l1_dtlb v s.paddr s.dtlb hv hp)

  -- The memory is one of bytes, the address is well-formed, and `malloc` succeeds. Then
  -- an access that misses both its level-1 TLB and the level-2 TLB and whose walk succeeds leaves the
  -- page in its level-1 TLB: a next access of the same kind to any address of that page is a hit
  -- there, which gives the address in the same frame and changes no TLB.
  pub tlb_search-miss_then_hit :
      (ok : IsMemory mem) (access : MemAccess) (s : Hrchy) (p : PhyAddr)
      → own_lookup access s v ≡ none
      → lookup l2_tlb s.l2 (page_number v) ≡ none
      → page_walk (some mem) (some v) (some s.paddr) ≡ returned err_none p
      → (u : VirtAddr) → page_number u ≡ page_number v
      → (s' : Hrchy) × (call mem v access malloc s ≡ returned err_none s')
        × (call mem u access malloc s'
            ≡ returned err_none (record s' { paddr = in_frame p.phy_page_num u; hit_or_miss = 1 }))
  unfolding tlb_search
  tlb_search-miss_then_hit ok access s p miss miss2 e u same =
      let hp = (walk-IsPage mem ok v hv s.paddr p e).0 in
      let (s', filled, held) = fill-Filled access (record s { paddr = p; hit_or_miss = 0 }) hp in
      (
        s',
        search-miss mem v access malloc s miss miss2 ∙ rw e filled,
        search-hit mem u access malloc s' p.phy_page_num (rw same held),
      )
