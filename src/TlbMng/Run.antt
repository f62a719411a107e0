-- ===== src/TlbMng/Run.antt =====
-- Runs of `tlb_search`.
use kaby_lake_cache_c.Base.{
  ℕ, zero, suc, ◌+◌, ◌≤◌, ◌≡◌, ◌≢◌, refl, sym, ◌∙◌, ap, subst, arith, false, ◌==◌, Option, none,
  some, update, length, ℕ_discrete,
}
use kaby_lake_cache_c.Outcome.{err_none, returned}
use mathlib.Core.List.{List, [], ◌∷◌, ◌++◌}
use kaby_lake_cache_c.Addr.{VirtAddr, page_number}
use kaby_lake_cache_c.Addr.Fields.{IsVirtAddr}
use kaby_lake_cache_c.Memory.{Memory, IsMemory}
use kaby_lake_cache_c.PageWalk.{page_walk}
use kaby_lake_cache_c.TlbHrchy.Cases.{in_frame}
use kaby_lake_cache_c.TlbMng.{FullTlb}
use kaby_lake_cache_c.TlbMng.Single.{entry_for}
use kaby_lake_cache_c.TlbMng.Search.{Allocated, Managed}
use kaby_lake_cache_c.TlbMng.Latest.{last_hit}
use kaby_lake_cache_c.TlbMng.Order.{IsOrder}
use kaby_lake_cache_c.TlbMng.Replace.{CanAllocate}
use kaby_lake_cache_c.TlbMng.Transparent.{last_hit-has_page}
use kaby_lake_cache_c.TlbMng.Orders.{
  any-append, has_line, length-append, DistinctLines, once, last_hit-middle, last_hit-TakenOut,
}
use kaby_lake_cache_c.TlbMng.Success.{call, HitLine, Success, call-Success}
use kaby_lake_cache_c.TlbMng.Resident.{IsResident, IsResident-use, IsResident-last}
use kaby_lake_cache_c.TlbMng.Refines.{Searched, tlb_search-Searched}
use kaby_lake_cache_c.TlbMng.Stays.{Holds, Holds-snoc, HitLine-Holds, Replaced-Holds}

-- `k` calls of `tlb_search`, of well-formed addresses, that all return ERR_NONE.
pub data Run (rounds : ℕ) (mem : Memory) : (k : ℕ) → Managed → Managed → Type 0 where
  stop : {s : Managed} → Run rounds mem 0 s s
  next :
      {k : ℕ} {s s2 : Managed} (s1 : Managed) (v : VirtAddr) (given : Allocated)
      → IsVirtAddr v
      → CanAllocate given s.policy
      → call rounds mem v given s ≡ returned err_none s1
      → Run rounds mem k s1 s2
      → Run rounds mem (suc k) s s2

length-IsResident :
    (n frame size used : ℕ) (t : FullTlb) (order : List ℕ)
    → IsResident n frame size used t order
    → length order ≡ size
length-IsResident n frame size used t order k =
    ap length k.parts ∙ length-append k.before (k.line ∷ k.after) ∙ omega (arith, k.whole)

-- What is found of the page itself.
last_hit-IsResident :
    (n frame size used : ℕ) (t : FullTlb) (order : List ℕ)
    → (k : IsResident n frame size used t order)
    → last_hit t n order ≡ some (k.before ++ k.after, k.line)
last_hit-IsResident n frame size used t order k =
    ap (last_hit t n) k.parts ∙ last_hit-middle t n k.before k.line k.after k.here k.later

module _ (rounds : ℕ) (mem : Memory) (ok : IsMemory mem) (n frame size : ℕ)
    (enough : size ≤ rounds) where
  other-Holds :
      (used : ℕ) (v : VirtAddr) (s s1 : Managed) (line : ℕ) (rest : List ℕ)
      (last : Option (List ℕ × ℕ))
      → page_number v ≢ n
      → used + 2 ≤ size
      → IsOrder s.policy (line ∷ rest)
      → IsResident n frame size used s.tlb (line ∷ rest)
      → last_hit s.tlb (page_number v) (line ∷ rest) ≡ last
      → Success v s line rest last s1
      → Holds n frame size (suc used) s1
  other-Holds used v s s1 line rest none ne room is k e done =
      Replaced-Holds v s1.paddr n frame size used s s1 line rest ne room k done
  other-Holds used v s s1 line rest (some (others, j)) ne room is k e done =
      HitLine-Holds v n frame size used s s1 line rest others j ne is k e done

  -- The page itself.
  own-Holds :
      (used now : ℕ) (v : VirtAddr) (s s1 : Managed) (line : ℕ) (rest others : List ℕ) (i : ℕ)
      → IsResident n frame size used s.tlb (line ∷ rest)
      → last_hit s.tlb n (line ∷ rest) ≡ some (others, i)
      → HitLine v s others i s1
      → Holds n frame size now s1
  own-Holds used now v s s1 line rest others i k e (_, _, et, is') =
      Holds-snoc n frame size now s1 others i is' (
        subst (λ t. IsResident n frame size now t (others ++ i ∷ [])) (sym et)
          (IsResident-use n frame size used now s.tlb (line ∷ rest) others i e k))

  step-Holds :
      (used : ℕ) (v : VirtAddr) (given : Allocated) (s s1 : Managed)
      → IsVirtAddr v
      → CanAllocate given s.policy
      → used + 2 ≤ size
      → call rounds mem v given s ≡ returned err_none s1
      → Holds n frame size used s
      → Holds n frame size (suc used) s1
  step-Holds used v given s s1 hv can room e (line, rest, is, k) =
      let small : length (line ∷ rest) ≤ rounds =
        subst (λ m. m ≤ rounds) (sym (length-IsResident n frame size used s.tlb _ k)) enough in
      let done = call-Success mem v given s s1 line rest rounds ok hv is can small e in
      elim (ℕ_discrete (page_number v) n) [
        | yes same ↦
            let found = last_hit-IsResident n frame size used s.tlb (line ∷ rest) k in
            own-Holds used (suc used) v s s1 line rest (k.before ++ k.after) k.line k found (
              subst (λ last. Success v s line rest last s1)
                (ap (λ m. last_hit s.tlb m (line ∷ rest)) same ∙ found) done)
        | no ne ↦ other-Holds used v s s1 line rest _ ne room is k refl done
      ]

  Run-Holds :
      (m used : ℕ) (s s1 : Managed)
      → m + used + 1 ≤ size
      → Run rounds mem m s s1
      → Holds n frame size used s
      → (u : ℕ) × Holds n frame size u s1
  Run-Holds zero used s s1 room stop h = (used, h)
  Run-Holds (suc m) used s s1 room (next s' v given hv can e run) h =
      Run-Holds m (suc used) s' s1 (omega (arith, room)) run
        (step-Holds used v given s s' hv can (omega (arith, room)) e h)

  again-HitLine :
      (used : ℕ) (v : VirtAddr) (given : Allocated) (s : Managed)
      → IsVirtAddr v
      → page_number v ≡ n
      → CanAllocate given s.policy
      → Holds n frame size used s
      → (s1 : Managed) × (call rounds mem v given s ≡ returned err_none s1)
        × (s1.hit_or_miss ≡ 1)
        × (s1.paddr ≡ in_frame frame v)
  again-HitLine used v given s hv same can (line, rest, is, k) =
      let small : length (line ∷ rest) ≤ rounds =
        subst (λ m. m ≤ rounds) (sym (length-IsResident n frame size used s.tlb _ k)) enough in
      let found = last_hit-IsResident n frame size used s.tlb (line ∷ rest) k in
      let (s1, done, eh, ep, et, is') =
        subst
          (λ last.
            Searched v s line rest last (page_walk (some mem) (some v) (some s.paddr))
              (call rounds mem v given s))
          (ap (λ m. last_hit s.tlb m (line ∷ rest)) same ∙ found)
          (tlb_search-Searched mem ok v hv given line rest s rounds is can small) in
      (s1, done, eh, ep ∙ ap (λ f. in_frame f v) k.in_line)

-- The line of a successful search of distinct lines is the last of the order, and has the page.
first-Holds :
    (v : VirtAddr) (s s1 : Managed) (line : ℕ) (rest : List ℕ) (last : Option (List ℕ × ℕ))
    → IsOrder s.policy (line ∷ rest)
    → DistinctLines (line ∷ rest)
    → last_hit s.tlb (page_number v) (line ∷ rest) ≡ last
    → Success v s line rest last s1
    → Holds (page_number v) s1.paddr.phy_page_num (length (line ∷ rest)) 0 s1
first-Holds v s s1 line rest none is d e (eh, ep, et, is') =
    let n = page_number v in
    let frame = s1.paddr.phy_page_num in
    let size = length (line ∷ rest) in
    let t' = update s.tlb line (entry_for n frame) in
    Holds-snoc n frame size 0 s1 rest line is' (
      subst (λ t. IsResident n frame size 0 t (rest ++ line ∷ [])) (sym et)
        (IsResident-last n frame size 0 t' rest line (ground arith) (ground arith) d.0 refl))
first-Holds v s s1 line rest (some (others, i)) is d e (eh, ep, et, is') =
    let n = page_number v in
    let frame = s1.paddr.phy_page_num in
    let size = length (line ∷ rest) in
    let (_, here) = last_hit-has_page s.tlb n (line ∷ rest) others i is.small e in
    let k = last_hit-TakenOut s.tlb n (line ∷ rest) others i e in
    let (out, out') = once k.before i k.after (subst DistinctLines k.parts d) in
    let alone : has_line i others ≡ false =
      ap (has_line i) k.rest ∙ any-append (λ j. i == j) k.before k.after ∙ rw out out' in
    let whole : suc (length others) ≡ size = omega (
      arith,
      ap length k.rest,
      length-append k.before k.after,
      ap length k.parts,
      length-append k.before (i ∷ k.after),
    ) in
    Holds-snoc n frame size 0 s1 others i is' (
      subst (λ t. IsResident n frame size 0 t (others ++ i ∷ [])) (sym et)
        (IsResident-last n frame size 0 s.tlb others i here (ap (λ p. p.phy_page_num) (sym ep))
          alone whole))

-- A page that `tlb_search` translated stays in the TLB for as many further successful searches, of
-- any pages, as there are other lines, and a search of this page then is a hit with the same
-- frame. The list is an order of distinct lines, memory is of bytes, the addresses are
-- well-formed, and every call has the memory that it asks for; a round for each line is enough.
pub tlb_search-Run :
    (rounds : ℕ) (mem : Memory) (v u : VirtAddr) (given given' : Allocated) (s s1 s2 : Managed)
    (line : ℕ) (rest : List ℕ) (k : ℕ)
    → IsMemory mem
    → IsVirtAddr v
    → IsVirtAddr u
    → page_number u ≡ page_number v
    → IsOrder s.policy (line ∷ rest)
    → DistinctLines (line ∷ rest)
    → length (line ∷ rest) ≤ rounds
    → CanAllocate given s.policy
    → call rounds mem v given s ≡ returned err_none s1
    → Run rounds mem k s1 s2
    → k ≤ length rest
    → CanAllocate given' s2.policy
    → (s3 : Managed) × (call rounds mem u given' s2 ≡ returned err_none s3)
      × (s3.hit_or_miss ≡ 1)
      × (s3.paddr ≡ in_frame s1.paddr.phy_page_num u)
tlb_search-Run rounds mem v u given given' s s1 s2 line rest k ok hv hu same is d enough can e run
      few can' =
    let size = length (line ∷ rest) in
    let n = page_number v in
    let frame = s1.paddr.phy_page_num in
    let done = call-Success mem v given s s1 line rest rounds ok hv is can enough e in
    let (used, h) =
      Run-Holds rounds mem ok n frame size enough k 0 s1 s2 (omega (arith, few)) run
        (first-Holds v s s1 line rest _ is d refl done) in
    again-HitLine rounds mem ok n frame size enough used u given' s2 hu same can' h
