-- ===== src/TlbHrchy/Cases.antt =====
-- The three ways through `tlb_search`, by what the TLBs map.
use kaby_lake_cache_c.Base.{ℕ, ◌≡◌, Option, none, some}
use kaby_lake_cache_c.Outcome.{err_none, returned}
use kaby_lake_cache_c.Addr.{VirtAddr, PhyAddr, page_number}
use kaby_lake_cache_c.Memory.{Memory}
use kaby_lake_cache_c.PageWalk.{page_walk}
use kaby_lake_cache_c.TlbHrchy.{MemAccess, l2_tlb}
use kaby_lake_cache_c.TlbHrchy.Lookup.{lookup, probe-lookup}
use kaby_lake_cache_c.TlbHrchy.Search.{Hrchy, Malloc, own_kind, own_tlb, search, refill, after_walk}

-- The physical address of `v` in a frame.
abbrev pub in_frame : ℕ → VirtAddr → PhyAddr
in_frame frame v = record { phy_page_num = frame; page_offset = v.page_offset }

-- What the level-1 TLB of the access maps the address's page to.
abbrev pub own_lookup : MemAccess → Hrchy → VirtAddr → Option ℕ
own_lookup access s v = lookup (own_kind access) (own_tlb access s) (page_number v)

module _ (mem : Memory) (v : VirtAddr) (access : MemAccess) (malloc : Malloc) (s : Hrchy) where
  pub search-hit :
      (frame : ℕ)
      → own_lookup access s v ≡ some frame
      → search mem v access malloc s
        ≡ returned err_none (record s { paddr = in_frame frame v; hit_or_miss = 1 })
  unfolding search
  search-hit frame e = rw (probe-lookup (own_kind access) v s.paddr (own_tlb access s), e)

  pub search-l2_hit :
      (frame : ℕ)
      → own_lookup access s v ≡ none
      → lookup l2_tlb s.l2 (page_number v) ≡ some frame
      → search mem v access malloc s
        ≡ refill v access malloc (record s { paddr = in_frame frame v; hit_or_miss = 1 })
  unfolding search
  search-l2_hit frame e1 e2 = rw (
    probe-lookup (own_kind access) v s.paddr (own_tlb access s),
    e1,
    probe-lookup l2_tlb v s.paddr s.l2,
    e2,
  )

  pub search-miss :
      own_lookup access s v ≡ none
      → lookup l2_tlb s.l2 (page_number v) ≡ none
      → search mem v access malloc s
        ≡ after_walk
            (page_walk (some mem) (some v) (some s.paddr))
            v
            access
            malloc
            (record s { hit_or_miss = 0 })
  unfolding search
  search-miss e1 e2 = rw (
    probe-lookup (own_kind access) v s.paddr (own_tlb access s),
    e1,
    probe-lookup l2_tlb v s.paddr s.l2,
    e2,
  )
