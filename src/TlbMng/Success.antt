-- ===== src/TlbMng/Success.antt =====
-- What a `tlb_search` that returned ERR_NONE has done.
use kaby_lake_cache_c.Base.{ℕ, ◌≤◌, ◌≡◌, sym, subst, Option, none, some, length}
use kaby_lake_cache_c.Outcome.{err_none, Outcome, returned, refused, fault}
use mathlib.Core.List.{List, [], ◌∷◌, ◌++◌}
use kaby_lake_cache_c.Addr.{VirtAddr, PhyAddr, page_number}
use kaby_lake_cache_c.Addr.Fields.{IsVirtAddr}
use kaby_lake_cache_c.Memory.{Memory, IsMemory}
use kaby_lake_cache_c.TlbHrchy.Cases.{in_frame}
use kaby_lake_cache_c.TlbMng.Search.{Allocated, Managed, tlb_search}
use kaby_lake_cache_c.TlbMng.Latest.{last_hit}
use kaby_lake_cache_c.TlbMng.Order.{IsOrder}
use kaby_lake_cache_c.TlbMng.Replace.{CanAllocate, Replaced}
use kaby_lake_cache_c.TlbMng.Refines.{Missed, Searched, tlb_search-Searched}

-- `tlb_search` on the objects of `s`.
abbrev pub call : (rounds : ℕ) → Memory → VirtAddr → Allocated → Managed → Outcome Managed
call rounds mem v given s =
    tlb_search rounds (some mem) (some v) (some s.paddr) (some s.tlb) (some s.policy)
      (some s.hit_or_miss) given

-- A hit of line `i`.
abbrev pub HitLine : VirtAddr → Managed → (others : List ℕ) → (i : ℕ) → Managed → Type 0
HitLine v s others i s' =
    (s'.hit_or_miss ≡ 1)
    × (s'.paddr ≡ in_frame (s.tlb i).phy_page_num v)
    × (s'.tlb ≡ s.tlb)
    × IsOrder s'.policy (others ++ i ∷ [])

abbrev pub Success :
    VirtAddr → Managed → (line : ℕ) → (rest : List ℕ) → Option (List ℕ × ℕ) → Managed → Type 0
Success v s line rest none s' = Replaced v s'.paddr s.tlb line rest s'
Success v s line rest (some (others, i)) s' = HitLine v s others i s'

Missed-Success :
    (v : VirtAddr) (s : Managed) (line : ℕ) (rest : List ℕ) (w : Outcome PhyAddr)
    (r : Outcome Managed) (s' : Managed)
    → r ≡ returned err_none s'
    → Missed v s line rest w r
    → Replaced v s'.paddr s.tlb line rest s'
Missed-Success v s line rest (returned err_none p) r s' e (s1, done, (eh, ep, et, is)) =
    let same : s1 ≡ s' = cc in
    subst (λ k. Replaced v k.paddr s.tlb line rest k) same
      (subst (λ q. Replaced v q s.tlb line rest s1) (sym ep) (eh, ep, et, is))
Missed-Success v s line rest (returned _ p) r s' e m = absurd (cc)
Missed-Success v s line rest (refused _) r s' e m = absurd (cc)
Missed-Success v s line rest fault r s' e m = absurd (cc)

Searched-Success :
    (v : VirtAddr) (s : Managed) (line : ℕ) (rest : List ℕ) (last : Option (List ℕ × ℕ))
    (w : Outcome PhyAddr) (r : Outcome Managed) (s' : Managed)
    → r ≡ returned err_none s'
    → Searched v s line rest last w r
    → Success v s line rest last s'
Searched-Success v s line rest none w r s' e m = Missed-Success v s line rest w r s' e m
Searched-Success v s line rest (some (others, i)) w r s' e (s1, done, eh, ep, et, is) =
    let same : s1 ≡ s' = cc in subst (HitLine v s others i) same (eh, ep, et, is)

pub call-Success :
    (mem : Memory) (v : VirtAddr) (given : Allocated) (s s' : Managed) (line : ℕ) (rest : List ℕ)
    (rounds : ℕ)
    → IsMemory mem
    → IsVirtAddr v
    → IsOrder s.policy (line ∷ rest)
    → CanAllocate given s.policy
    → length (line ∷ rest) ≤ rounds
    → call rounds mem v given s ≡ returned err_none s'
    → Success v s line rest (last_hit s.tlb (page_number v) (line ∷ rest)) s'
call-Success mem v given s s' line rest rounds ok hv is can enough e =
    Searched-Success v s line rest _ _ _ s' e
      (tlb_search-Searched mem ok v hv given line rest s rounds is can enough)
