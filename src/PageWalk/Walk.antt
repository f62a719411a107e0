-- ===== src/PageWalk/Walk.antt =====
-- What `page_walk` promises, by the page-table entry of the address.
use kaby_lake_cache_c.Base.{
  ℕ, ◌+◌, ◌%◌, ◌<◌, ◌^◌, ◌≡◌, ◌≢◌, ◌⊎◌, inl, inr, Option, none, some, refl, arith, ℕ_discrete,
}
use kaby_lake_cache_c.Outcome.{err_none, err_bad_parameter, Outcome, returned, refused, fault}
use kaby_lake_cache_c.Addr.{VirtAddr, PhyAddr, phy_addr_to_uint32, page_number}
use kaby_lake_cache_c.Addr.Fields.{IsVirtAddr, IsPhyAddr}
use kaby_lake_cache_c.Addr.Physical.{located, located-IsPhyAddr, uint32-located}
use kaby_lake_cache_c.Memory.{Memory, IsMemory}
use kaby_lake_cache_c.PageWalk.{page_walk}
use kaby_lake_cache_c.PageWalk.Leaf.{leaf, leaf-lt, leaf-same_page, arrive, page_walk-arrive}

-- A walk that found the physical address `base + offset`.
abbrev pub Found : Outcome PhyAddr → (base offset : ℕ) → Type 0
Found r base offset =
    (p : PhyAddr) × (r ≡ returned err_none p)
    × IsPhyAddr p
    × (phy_addr_to_uint32 (some p) ≡ base + offset)

abbrev pub Walked : Option ℕ → ℕ → Outcome PhyAddr → Type 0
Walked none offset r = r ≡ fault
Walked (some w) offset r =
    ((w % 4096 ≡ 0) × Found r w offset) ⊎ ((w % 4096 ≢ 0) × (r ≡ refused err_bad_parameter))

arrive-Walked :
    (o : Option ℕ) (offset : ℕ)
    → ((w : ℕ) → o ≡ some w → w < 2 ^ 32)
    → offset < 4096
    → Walked o offset (arrive o offset)
arrive-Walked none offset small fits = refl
arrive-Walked (some w) offset small fits = elim (ℕ_discrete (w % 4096) 0) [
  | yes even ↦ inl (
    even,
    (
      located w offset,
      ground arith,
      located-IsPhyAddr w offset (small w refl) (fits, even),
      uint32-located w offset (small w refl) (fits, even),
    ),
  )
  | no odd ↦ inr (odd, ground arith)
]

-- The walk of a well-formed address follows its four indices to one page-table entry: from address 0 on,
-- each level is the word of four bytes that stands four times the index behind the begin of its table,
-- which is rounded down to a multiple of four. The walk faults exactly when a read on the way leaves
-- the memory; else it finds the address entry plus offset if
-- the entry is a multiple of the page size, and refuses with ERR_BAD_PARAMETER if it is not.
pub page_walk-Walked :
    (mem : Memory) (v : VirtAddr) (p : PhyAddr)
    → IsMemory mem
    → IsVirtAddr v
    → Walked (leaf mem v) v.page_offset (page_walk (some mem) (some v) (some p))
page_walk-Walked mem v p ok h =
    rw (page_walk-arrive mem ok v p h.offset)
      (arrive-Walked (leaf mem v) v.page_offset (leaf-lt mem ok v) h.offset)

-- The walk translates page by page: if it finds a physical address for `u`, then for every `v` of
-- the same virtual page it finds an address in the same frame, at the offset of `v`.
pub page_walk-same_page :
    (mem : Memory) (u v : VirtAddr) (old p : PhyAddr)
    → IsMemory mem
    → IsVirtAddr u
    → IsVirtAddr v
    → page_number u ≡ page_number v
    → page_walk (some mem) (some u) (some old) ≡ returned err_none p
    → page_walk (some mem) (some v) (some old)
      ≡ returned err_none (record p { page_offset = v.page_offset })
page_walk-same_page mem u v old p ok hu hv same e = ground (
  arith,
  page_walk-arrive mem ok u old hu.offset,
  page_walk-arrive mem ok v old hv.offset,
  leaf-same_page mem u v hu hv same,
)
