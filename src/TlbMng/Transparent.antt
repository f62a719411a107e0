-- ===== src/TlbMng/Transparent.antt =====
-- With entries that agree with the page tables, `tlb_search` answers as `page_walk` does.
use kaby_lake_cache_c.Base.{
  ℕ, ◌≤◌, ◌<◌, ◌≡◌, refl, sym, subst, arith, Option, none, some, update, length, inl, inr, true,
}
use kaby_lake_cache_c.Outcome.{err_none, err_mem, Outcome, returned, refused, fault}
use mathlib.Core.List.{List, [], ◌∷◌, ◌++◌}
use kaby_lake_cache_c.Addr.{VirtAddr, PhyAddr, page_number}
use kaby_lake_cache_c.Addr.Fields.{IsVirtAddr}
use kaby_lake_cache_c.Memory.{Memory, IsMemory}
use kaby_lake_cache_c.PageWalk.{page_walk}
use kaby_lake_cache_c.TlbHrchy.Coherence.{IsPage, walk-IsPage, page_walk-of_IsPage}
use kaby_lake_cache_c.TlbMng.{FullTlb}
use kaby_lake_cache_c.TlbMng.Single.{entry_for}
use kaby_lake_cache_c.TlbMng.Search.{Allocated, Managed, tlb_search}
use kaby_lake_cache_c.TlbMng.Latest.{has_page, AreLines, last_hit, last_hit-cons}
use kaby_lake_cache_c.TlbMng.Order.{IsOrder}
use kaby_lake_cache_c.TlbMng.Replace.{CanAllocate}
use kaby_lake_cache_c.TlbMng.Refines.{Missed, Searched, tlb_search-Searched}

-- Every valid entry has the frame of its page.
abbrev pub FullAgrees : Memory → FullTlb → Type 0
FullAgrees mem t = (i n : ℕ) → i < 128 → has_page t n i ≡ true → IsPage mem n (t i).phy_page_num

-- The line that is found is one of the order, and it matches.
pub last_hit-has_page :
    (t : FullTlb) (n : ℕ) (order others : List ℕ) (i : ℕ)
    → AreLines order
    → last_hit t n order ≡ some (others, i)
    → (i < 128) × (has_page t n i ≡ true)
last_hit-has_page t n [] others i all e = absurd (cc)
last_hit-has_page t n (j ∷ order) others i (small, all) e =
    elim (last_hit-cons t n j order others i e) [
      | inl (o, later, _) ↦ last_hit-has_page t n order o i all later
      | inr (same, here, _, _) ↦ rw same (small, here)
    ]

FullAgrees-update :
    (mem : Memory) (t : FullTlb) (line n frame : ℕ)
    → IsPage mem n frame
    → FullAgrees mem t
    → FullAgrees mem (update t line (entry_for n frame))
FullAgrees-update mem t line n frame page agrees i m small e =
    ground (arith, agrees i m small, λ (h : n ≡ m). subst (λ k. IsPage mem k frame) h page)

-- What the search comes to if the entries agree with the page tables, by the outcome of the walk.
abbrev pub Answered : Memory → Managed → Outcome PhyAddr → Outcome Managed → Type 0
Answered mem s (returned err_none p) r =
    (s' : Managed) × (order : List ℕ) × (r ≡ returned err_none s')
    × (s'.paddr ≡ p)
    × FullAgrees mem s'.tlb
    × IsOrder s'.policy order
Answered mem s (returned _ p) r = r ≡ returned err_mem (record s { paddr = p; hit_or_miss = 0 })
Answered mem s (refused _) r = r ≡ returned err_mem (record s { hit_or_miss = 0 })
Answered mem s fault r = r ≡ fault

module _ (mem : Memory) (ok : IsMemory mem) (v : VirtAddr) (hv : IsVirtAddr v) where
  Missed-Answered :
      (s : Managed) (line : ℕ) (rest : List ℕ) (w : Outcome PhyAddr) (r : Outcome Managed)
      → FullAgrees mem s.tlb
      → page_walk (some mem) (some v) (some s.paddr) ≡ w
      → Missed v s line rest w r
      → Answered mem s w r
  Missed-Answered s line rest (returned err_none p) r agrees e (s', done, (_, ep, et, is)) = (
    s',
    rest ++ line ∷ [],
    done,
    ep,
    subst (FullAgrees mem) (sym et) (
        FullAgrees-update mem s.tlb line (page_number v) p.phy_page_num
          (walk-IsPage mem ok v hv s.paddr p e).1 agrees),
    is,
  )
  Missed-Answered s line rest (returned _ p) r agrees e m = m
  Missed-Answered s line rest (refused _) r agrees e m = m
  Missed-Answered s line rest fault r agrees e m = m

  Searched-Answered :
      (s : Managed) (line : ℕ) (rest : List ℕ) (last : Option (List ℕ × ℕ)) (r : Outcome Managed)
      → FullAgrees mem s.tlb
      → AreLines (line ∷ rest)
      → last_hit s.tlb (page_number v) (line ∷ rest) ≡ last
      → Searched v s line rest last (page_walk (some mem) (some v) (some s.paddr)) r
      → Answered mem s (page_walk (some mem) (some v) (some s.paddr)) r
  Searched-Answered s line rest none r agrees all e m =
      Missed-Answered s line rest (page_walk (some mem) (some v) (some s.paddr)) r agrees refl m
  Searched-Answered s line rest (some (others, i)) r agrees all e (s', done, _, ep, et, is) =
      let (small, here) = last_hit-has_page s.tlb (page_number v) (line ∷ rest) others i all e in
      let page = agrees i (page_number v) small here in
      subst (λ w. Answered mem s w r)
        (sym (page_walk-of_IsPage mem ok v hv s.paddr (s.tlb i).phy_page_num page))
        (s', others ++ i ∷ [], done, ep, subst (FullAgrees mem) (sym et) agrees, is)

  -- If every valid entry has the frame that the page tables give its page, `tlb_search` of a
  -- well-formed address in a memory of bytes, with a list that is an order of lines and the memory that
  -- it asks for, answers as `page_walk`: it returns the same physical address where the walk
  -- succeeds, ERR_MEM where the walk fails, and is undefined where the walk is. Where it succeeds
  -- the entries still agree with the tables, and the list is still an order of lines; where the
  -- walk fails, the entries and the list are as before. A round for each line is enough.
  pub tlb_search-Answered :
      (s : Managed) (line : ℕ) (rest : List ℕ) (rounds : ℕ) (given : Allocated)
      → FullAgrees mem s.tlb
      → IsOrder s.policy (line ∷ rest)
      → CanAllocate given s.policy
      → length (line ∷ rest) ≤ rounds
      → Answered mem s (page_walk (some mem) (some v) (some s.paddr)) (
          tlb_search rounds
            (some mem)
            (some v)
            (some s.paddr)
            (some s.tlb)
            (some s.policy)
            (some s.hit_or_miss)
            given)
  tlb_search-Answered s line rest rounds given agrees is can enough =
      Searched-Answered s line rest _ _ agrees is.small refl
        (tlb_search-Searched mem ok v hv given line rest s rounds is can enough)
