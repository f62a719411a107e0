-- ===== src/TlbMng/Refines.antt =====
-- `tlb_search` is a TLB whose lines stand in the order of their last use.
use kaby_lake_cache_c.Base.{ℕ, ◌≤◌, ◌≡◌, refl, sym, ap, subst, Option, none, some, length}
use kaby_lake_cache_c.Outcome.{err_none, err_mem, Outcome, returned, refused, fault}
use mathlib.Core.List.{List, [], ◌∷◌, ◌++◌}
use kaby_lake_cache_c.Addr.{VirtAddr, PhyAddr, page_number}
use kaby_lake_cache_c.Addr.Fields.{IsVirtAddr}
use kaby_lake_cache_c.Memory.{Memory, IsMemory}
use kaby_lake_cache_c.PageWalk.{page_walk}
use kaby_lake_cache_c.TlbHrchy.Cases.{in_frame}
use kaby_lake_cache_c.TlbHrchy.Coherence.{walk-IsPage}
use kaby_lake_cache_c.TlbMng.Search.{
  ReplacementPolicy, probe, Allocated, Managed, after_walk, after_probe, search, tlb_search,
}
use kaby_lake_cache_c.TlbMng.Latest.{last_hit}
use kaby_lake_cache_c.TlbMng.Order.{IsOrder, Probed, probe-Probed}
use kaby_lake_cache_c.TlbMng.Replace.{CanAllocate, Replaced, fill-Replaced}

-- A miss, by the outcome of `page_walk`.
abbrev pub Missed :
    VirtAddr → Managed → (line : ℕ) → (rest : List ℕ) → Outcome PhyAddr → Outcome Managed → Type 0
Missed v s line rest (returned err_none p) r =
    (s' : Managed) × (r ≡ returned err_none s') × Replaced v p s.tlb line rest s'
Missed v s line rest (returned _ p) r =
    r ≡ returned err_mem (record s { paddr = p; hit_or_miss = 0 })
Missed v s line rest (refused _) r = r ≡ returned err_mem (record s { hit_or_miss = 0 })
Missed v s line rest fault r = r ≡ fault

-- What `tlb_search` comes to, by the line of the page that was used last: a hit, or a miss.
abbrev pub Searched :
    VirtAddr
    → Managed
    → (line : ℕ) → (rest : List ℕ) → Option (List ℕ × ℕ)
    → Outcome PhyAddr
    → Outcome Managed
    → Type 0
Searched v s line rest none walked r = Missed v s line rest walked r
Searched v s line rest (some (others, i)) walked r =
    (s' : Managed) × (r ≡ returned err_none s')
    × (s'.hit_or_miss ≡ 1)
    × (s'.paddr ≡ in_frame (s.tlb i).phy_page_num v)
    × (s'.tlb ≡ s.tlb)
    × IsOrder s'.policy (others ++ i ∷ [])

module _ (mem : Memory) (ok : IsMemory mem) (v : VirtAddr) (hv : IsVirtAddr v) (given : Allocated)
    (line : ℕ) (rest : List ℕ) where
  after_walk-Missed :
      (s : Managed) (w : Outcome PhyAddr)
      → IsOrder s.policy (line ∷ rest)
      → CanAllocate given s.policy
      → page_walk (some mem) (some v) (some s.paddr) ≡ w
      → Missed v s line rest w (after_walk w v given (record s { hit_or_miss = 0 }))
  after_walk-Missed s (returned err_none p) is can e =
      fill-Replaced v p line rest given (record s { paddr = p; hit_or_miss = 0 }) hv
        (walk-IsPage mem ok v hv s.paddr p e).0 is can refl refl
  after_walk-Missed s (returned _ p) is can e = refl
  after_walk-Missed s (refused _) is can e = refl
  after_walk-Missed s fault is can e = refl

  after_probe-Searched :
      (s : Managed) (last : Option (List ℕ × ℕ)) (o : Option (ℕ × PhyAddr × ReplacementPolicy))
      → IsOrder s.policy (line ∷ rest)
      → CanAllocate given s.policy
      → Probed v s.paddr s.tlb s.policy last o
      → Searched v s line rest last
          (page_walk (some mem) (some v) (some s.paddr))
          (after_probe o mem v given s)
  after_probe-Searched s none o is can e =
      let w = page_walk (some mem) (some v) (some s.paddr) in
      subst (λ k. Missed v s line rest w (after_probe k mem v given s)) (sym e)
        (after_walk-Missed s w is can refl)
  after_probe-Searched s (some (others, i)) o is can (policy', e, is') = (
    record s { paddr = in_frame (s.tlb i).phy_page_num v; policy = policy'; hit_or_miss = 1 },
    ap (λ k. after_probe k mem v given s) e,
    refl,
    refl,
    refl,
    is',
  )

  -- `tlb_search` on a well-formed address and a memory of bytes, with a list that is an order of
  -- lines and the memory that it asks for, is a TLB with replacement by last use. If a line in the
  -- order is valid and has the page, the last such line in the order gives the frame, it is a hit,
  -- the line becomes the last of the order, and no entry changes. If there is none and `page_walk`
  -- succeeds, its answer is the answer, the page's entry replaces that of the first line of the
  -- order, and this line becomes the last. If `page_walk` fails, the code is ERR_MEM, and no entry
  -- and no order changes; if it does what C leaves undefined, so does the search. A round for each
  -- line is enough.
  pub tlb_search-Searched :
      (s : Managed) (rounds : ℕ)
      → IsOrder s.policy (line ∷ rest)
      → CanAllocate given s.policy
      → length (line ∷ rest) ≤ rounds
      → Searched v s line rest
          (last_hit s.tlb (page_number v) (line ∷ rest))
          (page_walk (some mem) (some v) (some s.paddr))
          (tlb_search rounds
            (some mem)
            (some v)
            (some s.paddr)
            (some s.tlb)
            (some s.policy)
            (some s.hit_or_miss)
            given)
  unfolding tlb_search search
  tlb_search-Searched s rounds is can enough =
      after_probe-Searched s _ (probe rounds v s.paddr s.tlb s.policy given.node) is can
        (probe-Probed v s.paddr s.tlb s.policy rounds given.node (line ∷ rest) is can.node enough)
