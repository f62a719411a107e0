-- ===== src/TlbHrchy/Coherence.antt =====
-- The TLBs agree with the page tables, and `tlb_search` is a faster `page_walk`.
use kaby_lake_cache_c.Base.{ℕ, ◌*◌, ◌/◌, ◌%◌, ◌≡◌, sym, ◌∙◌, ap, refl, Option, none, some, arith}
use kaby_lake_cache_c.Outcome.{err_none, returned}
use kaby_lake_cache_c.Addr.{VirtAddr, PhyAddr, page_number}
use kaby_lake_cache_c.Addr.Fields.{IsVirtAddr, IsPhyAddr}
use kaby_lake_cache_c.Addr.Physical.{located, located-IsPhyAddr}
use kaby_lake_cache_c.Memory.{Memory, IsMemory}
use kaby_lake_cache_c.PageWalk.{page_walk}
use kaby_lake_cache_c.PageWalk.Leaf.{leaf, leaf-lt, leaf-same_page, arrive, page_walk-arrive}
use kaby_lake_cache_c.TlbHrchy.{
  MemAccess, instruction, access_data, TlbKind, l1_itlb, l1_dtlb, l2_tlb, lines, Tlb, insert_line,
  entry_of, invalidate,
}
use kaby_lake_cache_c.TlbHrchy.Lookup.{lookup, lookup-insert_line}
use kaby_lake_cache_c.TlbHrchy.Search.{Hrchy}
use kaby_lake_cache_c.TlbHrchy.Cases.{in_frame, own_lookup}

-- The page tables put page `n` into `frame`.
abbrev pub IsPage : Memory → (n frame : ℕ) → Type 0
IsPage mem n frame =
    (u : VirtAddr) → IsVirtAddr u → page_number u ≡ n → leaf mem u ≡ some (frame * 4096)

abbrev pub Agrees : Memory → TlbKind → Tlb → Type 0
Agrees mem k t = (n frame : ℕ) → lookup k t n ≡ some frame → IsPage mem n frame

pub record IsCoherent (mem : Memory) (s : Hrchy) : Type 0 where
  pub itlb : Agrees mem l1_itlb s.itlb
  pub dtlb : Agrees mem l1_dtlb s.dtlb
  pub l2 : Agrees mem l2_tlb s.l2

arrive-found :
    (o : Option ℕ) (offset : ℕ) (p : PhyAddr)
    → arrive o offset ≡ returned err_none p
    → (w : ℕ) × (o ≡ some w) × (w % 4096 ≡ 0) × (p ≡ located w offset)
arrive-found none offset p e = cc
arrive-found (some w) offset p e = (w, refl, ground arith, ground arith)

module _ (mem : Memory) (ok : IsMemory mem) (v : VirtAddr) (hv : IsVirtAddr v) where
  pub Agrees-insert_line :
      (k : TlbKind) (t : Tlb) (p : PhyAddr)
      → IsPhyAddr p
      → IsPage mem (page_number v) p.phy_page_num
      → Agrees mem k t
      → Agrees mem k (insert_line (page_number v % lines k) (entry_of v p k) t k).1
  Agrees-insert_line k t p hp page agrees n frame e u hu same = ground (
    arith,
    lookup-insert_line k t v p n hv hp,
    λ (h : page_number u ≡ page_number v). page u hu h,
    λ (h : lookup k t n ≡ some frame). agrees n frame h u hu same,
  )

  IsPage-leaf : (frame : ℕ) → leaf mem v ≡ some (frame * 4096) → IsPage mem (page_number v) frame
  IsPage-leaf frame e u hu same = leaf-same_page mem u v hu hv same ∙ e

  -- A successful walk ends in the frame of the page.
  pub walk-IsPage :
      (old p : PhyAddr)
      → page_walk (some mem) (some v) (some old) ≡ returned err_none p
      → IsPhyAddr p × IsPage mem (page_number v) p.phy_page_num × (p ≡ in_frame p.phy_page_num v)
  walk-IsPage old p e =
      let (w, at, even, found) =
        arrive-found (leaf mem v) v.page_offset p
          (sym (page_walk-arrive mem ok v old hv.offset) ∙ e) in
      let small = leaf-lt mem ok v w at in
      let whole : w ≡ w / 4096 * 4096 = omega arith in
      rw found (
        located-IsPhyAddr w v.page_offset small (hv.offset, even),
        IsPage-leaf (w / 4096) (at ∙ ap some whole),
        refl,
      )

  pub page_walk-of_IsPage :
      (old : PhyAddr) (frame : ℕ)
      → IsPage mem (page_number v) frame
      → page_walk (some mem) (some v) (some old) ≡ returned err_none (in_frame frame v)
  page_walk-of_IsPage old frame page =
      rw (page_walk-arrive mem ok v old hv.offset, page v hv refl) (ground arith)

lookup-invalidate :
    (k : TlbKind) (t : Tlb) (i page n : ℕ) {frame : ℕ}
    → lookup k (invalidate t i page) n ≡ some frame
    → lookup k t n ≡ some frame
unfolding lookup invalidate
lookup-invalidate k t i page n e = ground arith

pub Agrees-invalidate :
    (mem : Memory) (k : TlbKind) (t : Tlb) (i page : ℕ)
    → Agrees mem k t
    → Agrees mem k (invalidate t i page)
Agrees-invalidate mem k t i page agrees n frame e =
    agrees n frame (lookup-invalidate k t i page n e)

-- Every page that the level-1 TLB of an access maps stands in the tables.
pub own_lookup-IsPage :
    (mem : Memory) (access : MemAccess) (s : Hrchy) (v : VirtAddr) (frame : ℕ)
    → IsCoherent mem s
    → own_lookup access s v ≡ some frame
    → IsPage mem (page_number v) frame
own_lookup-IsPage mem instruction s v frame c e = c.itlb (page_number v) frame e
own_lookup-IsPage mem access_data s v frame c e = c.dtlb (page_number v) frame e
