-- ===== src/TlbMng/Stays.antt =====
-- A resident page after a `tlb_search` of another one.
use kaby_lake_cache_c.Base.{
  ℕ, suc, ◌+◌, ◌≤◌, ◌≡◌, ◌≢◌, refl, sym, subst, arith, true, false, some, update,
}
use mathlib.Core.List.{List, [], ◌∷◌, ◌++◌}
use kaby_lake_cache_c.Addr.{VirtAddr, PhyAddr, page_number}
use kaby_lake_cache_c.TlbMng.{FullTlb}
use kaby_lake_cache_c.TlbMng.Single.{entry_for}
use kaby_lake_cache_c.TlbMng.Search.{Managed}
use kaby_lake_cache_c.TlbMng.Latest.{has_page, last_hit}
use kaby_lake_cache_c.TlbMng.Order.{IsOrder}
use kaby_lake_cache_c.TlbMng.Replace.{Replaced}
use kaby_lake_cache_c.TlbMng.Transparent.{last_hit-has_page}
use kaby_lake_cache_c.TlbMng.Orders.{last_hit-TakenOut}
use kaby_lake_cache_c.TlbMng.Success.{HitLine}
use kaby_lake_cache_c.TlbMng.Resident.{IsResident, IsResident-move, IsResident-update, not_first}

-- The state of a TLB in which the page is resident.
abbrev pub Holds : (n frame size used : ℕ) → Managed → Type 0
Holds n frame size used s =
    (line : ℕ) × (rest : List ℕ) × IsOrder s.policy (line ∷ rest)
    × IsResident n frame size used s.tlb (line ∷ rest)

-- The order is not empty after a line was put last.
snoc_cons : (o : List ℕ) (j : ℕ) → (i : ℕ) × (r : List ℕ) × (o ++ j ∷ [] ≡ i ∷ r)
snoc_cons [] j = (j, [], refl)
snoc_cons (i ∷ o) j = (i, o ++ j ∷ [], refl)

pub Holds-snoc :
    (n frame size used : ℕ) (s : Managed) (o : List ℕ) (j : ℕ)
    → IsOrder s.policy (o ++ j ∷ [])
    → IsResident n frame size used s.tlb (o ++ j ∷ [])
    → Holds n frame size used s
Holds-snoc n frame size used s o j is k =
    let (i, r, e) = snoc_cons o j in
    (i, r, subst (IsOrder s.policy) e is, subst (IsResident n frame size used s.tlb) e k)

-- The line of an entry of page `m` does not have page `n`.
other_page : (t : FullTlb) (m n j : ℕ) → has_page t m j ≡ true → m ≢ n → has_page t n j ≡ false
other_page t m n j here ne = ground arith

-- A hit of another page.
pub HitLine-Holds :
    (v : VirtAddr) (n frame size used : ℕ) (s s' : Managed) (line : ℕ) (rest others : List ℕ)
    (j : ℕ)
    → page_number v ≢ n
    → IsOrder s.policy (line ∷ rest)
    → IsResident n frame size used s.tlb (line ∷ rest)
    → last_hit s.tlb (page_number v) (line ∷ rest) ≡ some (others, j)
    → HitLine v s others j s'
    → Holds n frame size (suc used) s'
HitLine-Holds v n frame size used s s' line rest others j ne is k e (_, _, et, is') =
    let (_, here) = last_hit-has_page s.tlb (page_number v) (line ∷ rest) others j is.small e in
    Holds-snoc n frame size (suc used) s' others j is' (
      subst (λ t. IsResident n frame size (suc used) t (others ++ j ∷ [])) (sym et)
        (IsResident-move n frame size used s.tlb (line ∷ rest) others j
          (other_page s.tlb (page_number v) n j here ne) k
          (last_hit-TakenOut s.tlb (page_number v) (line ∷ rest) others j e)))

-- A miss of another page.
pub Replaced-Holds :
    (v : VirtAddr) (p : PhyAddr) (n frame size used : ℕ) (s s' : Managed) (line : ℕ) (rest : List ℕ)
    → page_number v ≢ n
    → used + 2 ≤ size
    → IsResident n frame size used s.tlb (line ∷ rest)
    → Replaced v p s.tlb line rest s'
    → Holds n frame size (suc used) s'
Replaced-Holds v p n frame size used s s' line rest ne room k (_, _, et, is') =
    let e = entry_for (page_number v) p.phy_page_num in
    let off : has_page (update s.tlb line e) n line ≡ false = ground arith in
    let other =
      not_first k.before k.line k.after line rest k.parts k.not_before
        (omega (arith, k.whole, k.near)) in
    Holds-snoc n frame size (suc used) s' rest line is' (
      subst (λ t. IsResident n frame size (suc used) t (rest ++ line ∷ [])) (sym et)
        (IsResident-move n frame size used (update s.tlb line e) (line ∷ rest) rest line off
          (IsResident-update n frame size used s.tlb (line ∷ rest) line e off k other)
          (record { before = []; after = rest; parts = refl; rest = refl })))
