-- ===== src/TlbMng/Replace.antt =====
-- A miss of `tlb_search` past the walk: the entry goes to the line of the front node.
use kaby_lake_cache_c.Base.{
  ℕ, ◌≡◌, refl, sym, ◌∙◌, ap, subst, arith, Option, none, some, update, ltb, true,
}
use kaby_lake_cache_c.Outcome.{err_none, err_bad_parameter, Outcome, returned, fault}
use mathlib.Core.List.{List, [], ◌∷◌, ◌++◌}
use kaby_lake_cache_c.Addr.{VirtAddr, PhyAddr, page_number}
use kaby_lake_cache_c.Addr.Fields.{IsVirtAddr, IsPhyAddr}
use kaby_lake_cache_c.Lists.{LinkedList, load, ◌>>=◌}
use kaby_lake_cache_c.Lists.Chain.{Cells, IsList}
use kaby_lake_cache_c.TlbMng.{FullEntry, FullTlb, tlb_lines, tlb_entry_init, tlb_insert}
use kaby_lake_cache_c.TlbMng.Single.{entry_for, entry_init-entry_for}
use kaby_lake_cache_c.TlbMng.Search.{
  ReplacementPolicy, Allocated, Managed, use_front, after_insert, front_line, replace, after_init,
  fill,
}
use kaby_lake_cache_c.TlbMng.Latest.{values, AreLines}
use kaby_lake_cache_c.TlbMng.Order.{IsOrder, IsUnused, move-IsOrder}

-- `malloc` gives memory for the entry, and an unused address for the node.
pub record CanAllocate (given : Allocated) (policy : ReplacementPolicy) : Type 0 where
  pub old : FullEntry
  pub entry : given.entry ≡ some old
  pub node : IsUnused policy given.node

-- After a miss: the entry of the page is in the line that was first in the order.
abbrev pub Replaced : VirtAddr → PhyAddr → FullTlb → (line : ℕ) → (rest : List ℕ) → Managed → Type 0
Replaced v p t line rest s =
    (s.hit_or_miss ≡ 0)
    × (s.paddr ≡ p)
    × (s.tlb ≡ update t line (entry_for (page_number v) p.phy_page_num))
    × IsOrder s.policy (rest ++ line ∷ [])

-- The front of the list.
front_line-first :
    (ll : Option LinkedList) (l : LinkedList) (a i : ℕ) (xs : Cells)
    → ll ≡ some l
    → IsList l ((a, i) ∷ xs)
    → front_line ll ≡ some (l, i)
front_line-first ll l a i xs e is =
    ap front_line e
    ∙ ap (λ p. load l.heap p >>= λ n. some (l, n.value)) is.front
    ∙ ap (λ o. o >>= λ n. some (l, n.value)) is.chain.0

use_front-done :
    (l l' : LinkedList) (a : ℕ) (given : Allocated) (s : Managed)
    → l.front ≡ some a
    → s.policy.move_back (some l) (some a) given.node ≡ some (some l')
    → use_front l given s
      ≡ returned err_none (record s { policy = record s.policy { ll = some l' } })
unfolding use_front
use_front-done l l' a given s e done =
    let after : Option (Option LinkedList) → Outcome Managed = λ o. elim o [
      | none ↦ fault
      | some ll' ↦ returned err_none (record s { policy = record s.policy { ll = ll' } })
    ] in
    ap (λ p. after (s.policy.move_back (some l) p given.node)) e ∙ ap after done

tlb_insert-line :
    (i : ℕ) (e : FullEntry) (t : FullTlb)
    → ltb i tlb_lines ≡ true
    → tlb_insert i (some e) (some t) ≡ returned err_none (update t i e)
unfolding tlb_insert
tlb_insert-line i e t inside = rw inside refl

replace-use_front :
    (l : LinkedList) (i : ℕ) (e : FullEntry) (given : Allocated) (s : Managed)
    → front_line s.policy.ll ≡ some (l, i)
    → ltb i tlb_lines ≡ true
    → replace e given s ≡ use_front l given (record s { tlb = update s.tlb i e })
unfolding replace
replace-use_front l i e given s front inside =
    let after : Option (LinkedList × ℕ) → Outcome Managed = λ o. elim o [
      | none ↦ fault
      | some (k, line) ↦ after_insert (tlb_insert line (some e) (some s.tlb)) k given s
    ] in
    ap after front ∙ ap (λ o. after_insert o l given s) (tlb_insert-line i e s.tlb inside)

values-cons :
    (xs : Cells) (i : ℕ) (rest : List ℕ)
    → values xs ≡ i ∷ rest
    → (a : ℕ) × (ys : Cells) × (xs ≡ (a, i) ∷ ys) × (values ys ≡ rest)
values-cons [] i rest e = absurd (cc)
values-cons ((a, j) ∷ ys) i rest e = (a, ys, cc, cc)

replace-Replaced :
    (v : VirtAddr) (p : PhyAddr) (line : ℕ) (rest : List ℕ) (given : Allocated) (s : Managed)
    → IsOrder s.policy (line ∷ rest)
    → IsUnused s.policy given.node
    → s.hit_or_miss ≡ 0
    → s.paddr ≡ p
    → (s' : Managed) × (replace (entry_for (page_number v) p.phy_page_num) given s
        ≡ returned err_none s')
      × Replaced v p s.tlb line rest s'
replace-Replaced v p line rest given s is room eh ep =
    let (a, ys, parts, others) = values-cons is.cells line rest is.lines in
    let whole = subst (IsList is.list) parts is.is_list in
    let all = subst AreLines (sym is.lines ∙ ap values parts) is.small in
    let (l', done, is') =
      move-IsOrder s.policy is.list given.node is.ll is.moves room [] a line ys whole all in
    let e = entry_for (page_number v) p.phy_page_num in
    let s1 = record s { tlb = update s.tlb line e } in
    let policy' = record s.policy { ll = some l' } in
    (
      record s1 { policy = policy' },
      replace-use_front is.list line e given s
            (front_line-first s.policy.ll is.list a line ys is.ll whole)
            (ground (arith, is.small.0))
          ∙ use_front-done is.list l' a given s1 whole.front done,
      (eh, ep, refl, subst (λ o. IsOrder policy' (o ++ line ∷ [])) others is'),
    )

pub fill-Replaced :
    (v : VirtAddr) (p : PhyAddr) (line : ℕ) (rest : List ℕ) (given : Allocated) (s : Managed)
    → IsVirtAddr v
    → IsPhyAddr p
    → IsOrder s.policy (line ∷ rest)
    → CanAllocate given s.policy
    → s.hit_or_miss ≡ 0
    → s.paddr ≡ p
    → (s' : Managed) × (fill v given s ≡ returned err_none s') × Replaced v p s.tlb line rest s'
unfolding fill
fill-Replaced v p line rest given s hv hp is can eh ep =
    let (s', done, after) = replace-Replaced v p line rest given s is can.node eh ep in
    let begin : Option FullEntry → Outcome Managed = λ o. elim o [
      | none ↦ returned err_bad_parameter s
      | some e ↦ after_init (tlb_entry_init (some v) (some s.paddr) (some e)) given s
    ] in
    (
      s',
      ap begin can.entry
          ∙ ap (λ q. after_init (tlb_entry_init (some v) (some q) (some can.old)) given s) ep
          ∙ ap (λ o. after_init o given s) (entry_init-entry_for v p can.old hv hp)
          ∙ done,
      after,
    )
