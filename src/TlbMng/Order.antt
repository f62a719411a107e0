-- ===== src/TlbMng/Order.antt =====
-- The list of the policy as an order of lines, and the calls that move a line to its end.
use kaby_lake_cache_c.Base.{
  ℕ, ◌≤◌, ◌≡◌, inl, inr, refl, sym, ◌∙◌, ap, subst, Option, none, some, length,
}
use mathlib.Core.List.{List, [], ◌∷◌, ◌++◌, reverse}
use kaby_lake_cache_c.Addr.{VirtAddr, PhyAddr, page_number}
use kaby_lake_cache_c.Lists.{Ptr, LinkedList, move_back, ◌>>=◌}
use kaby_lake_cache_c.Lists.Chain.{Cells, first, IsList}
use kaby_lake_cache_c.Lists.Move.{move_back-Moved}
use kaby_lake_cache_c.Lists.Backward.{IsBackward-reverse, length-reverse}
use kaby_lake_cache_c.TlbHrchy.Cases.{in_frame}
use kaby_lake_cache_c.TlbMng.{FullTlb}
use kaby_lake_cache_c.TlbMng.Search.{ReplacementPolicy, find_node, on_found, probe}
use kaby_lake_cache_c.TlbMng.Latest.{
  values, values-append, length-values, AreLines, AreLines-append, AreLines-split, last_hit,
  first_match, find_node-first_match, first_match-Missing, first_match-found, last_hit-Missing,
  last_hit-found, AreLines-reverse, around,
}

-- The list of the policy is a list of lines in this order, and its `move_back` is that of list.c.
pub record IsOrder (policy : ReplacementPolicy) (order : List ℕ) : Type 0 where
  pub list : LinkedList
  pub cells : Cells
  pub ll : policy.ll ≡ some list
  pub is_list : IsList list cells
  pub lines : values cells ≡ order
  pub small : AreLines order
  pub moves : policy.move_back ≡ move_back

-- `malloc` gives an address that the heap of the list does not use.
pub record IsUnused (policy : ReplacementPolicy) (malloc : Ptr) : Type 0 where
  pub fresh : ℕ
  pub given : malloc ≡ some fresh
  pub unused : (l : LinkedList) → policy.ll ≡ some l → l.heap fresh ≡ none

AreLines-moved :
    (ys : Cells) (a i : ℕ) (zs : Cells)
    → AreLines (values (ys ++ (a, i) ∷ zs))
    → AreLines (values (ys ++ zs) ++ i ∷ [])
AreLines-moved ys a i zs all =
    let (before, (small, after)) =
      AreLines-split (values ys) (i ∷ values zs)
        (subst AreLines (values-append ys ((a, i) ∷ zs)) all) in
    AreLines-append (values (ys ++ zs)) (i ∷ [])
      (rw (values-append ys zs) (AreLines-append (values ys) (values zs) before after)) (small, tt)

-- `move_back` of a node moves its line to the end of the order.
module _ (policy : ReplacementPolicy) (l : LinkedList) (malloc : Ptr) (ell : policy.ll ≡ some l)
    (moves : policy.move_back ≡ move_back) (room : IsUnused policy malloc) where
  pub move-IsOrder :
      (ys : Cells) (a i : ℕ) (zs : Cells)
      → IsList l (ys ++ (a, i) ∷ zs)
      → AreLines (values (ys ++ (a, i) ∷ zs))
      → (l' : LinkedList) × (policy.move_back (some l) (some a) malloc ≡ some (some l'))
        × IsOrder (record policy { ll = some l' }) (values (ys ++ zs) ++ i ∷ [])
  move-IsOrder ys a i zs is small =
      let (l', a', done, is') = move_back-Moved l ys a i zs room.fresh is (room.unused l ell) in
      (
        l',
        ap (λ f. f (some l) (some a) malloc) moves
            ∙ ap (λ m. move_back (some l) (some a) m) room.given
            ∙ done,
        record {
          list = l';
          cells = (ys ++ zs) ++ (a', i) ∷ [];
          ll = refl;
          is_list = is';
          lines = values-append (ys ++ zs) ((a', i) ∷ []);
          small = AreLines-moved ys a i zs small;
          moves = moves;
        },
      )

-- What `tlb_hit` comes to, by the line of the page that was used last.
abbrev pub Probed :
    VirtAddr
    → PhyAddr
    → FullTlb
    → ReplacementPolicy
    → Option (List ℕ × ℕ)
    → Option (ℕ × PhyAddr × ReplacementPolicy)
    → Type 0
Probed v p t policy none r = r ≡ some (0, p, policy)
Probed v p t policy (some (others, i)) r =
    (policy' : ReplacementPolicy) × (r ≡ some (1, in_frame (t i).phy_page_num v, policy'))
    × IsOrder policy' (others ++ i ∷ [])

module _ (v : VirtAddr) (p : PhyAddr) (t : FullTlb) (policy : ReplacementPolicy) (rounds : ℕ)
    (malloc : Ptr) where
  probe_finds :
      (l : LinkedList) (b : Ptr) (found : Option (ℕ × ℕ))
      → policy.ll ≡ some l
      → l.back ≡ b
      → find_node rounds l t (page_number v) b ≡ some found
      → probe rounds v p t policy malloc ≡ on_found v p t policy malloc found
  unfolding probe
  probe_finds l b found ell back find =
      ap
        (λ ll. ll >>= λ k.
          find_node rounds k t (page_number v) k.back >>= λ f. on_found v p t policy malloc f)
        ell
      ∙ ap (λ c. find_node rounds l t (page_number v) c >>= λ f. on_found v p t policy malloc f)
          back
      ∙ ap (λ o. o >>= λ f. on_found v p t policy malloc f) find

  on_found-some :
      (l l' : LinkedList) (a i : ℕ)
      → policy.ll ≡ some l
      → policy.move_back (some l) (some a) malloc ≡ some (some l')
      → on_found v p t policy malloc (some (a, i))
        ≡ some (1, in_frame (t i).phy_page_num v, record policy { ll = some l' })
  unfolding on_found
  on_found-some l l' a i ell done =
      let out : Option LinkedList → ℕ × PhyAddr × ReplacementPolicy =
        λ ll'. (1, in_frame (t i).phy_page_num v, record policy { ll = ll' }) in
      ap (λ ll. policy.move_back ll (some a) malloc >>= λ ll'. some (out ll')) ell
      ∙ ap (λ o. o >>= λ ll'. some (out ll')) done

  on_found-none : on_found v p t policy malloc none ≡ some (0, p, policy)
  unfolding on_found
  on_found-none = refl

  -- `tlb_hit` finds the line of the page that was used last, and makes it the last of the order.
  pub probe-Probed :
      (order : List ℕ)
      → IsOrder policy order
      → IsUnused policy malloc
      → length order ≤ rounds
      → Probed v p t policy (last_hit t (page_number v) order) (probe rounds v p t policy malloc)
  probe-Probed order is room enough =
      let n = page_number v in
      let r = probe rounds v p t policy malloc in
      let back = IsBackward-reverse is.list is.cells is.is_list in
      let same : length (reverse is.cells) ≡ length order =
        length-reverse is.cells ∙ sym (length-values is.cells) ∙ ap length is.lines in
      let all = subst AreLines (sym is.lines) is.small in
      let find = probe_finds is.list (first (reverse is.cells) none) _ is.ll back.back (
        find_node-first_match is.list t n rounds (reverse is.cells) none back.chain
          (AreLines-reverse is.cells [] all tt) (subst (λ m. m ≤ rounds) (sym same) enough)) in
      elim (around t n is.cells) [
        | inl k ↦
            let whole = subst (IsList is.list) k.parts is.is_list in
            let (l', done, is') =
              move-IsOrder policy is.list malloc is.ll is.moves room k.before k.at k.line k.after
                whole (subst (λ xs. AreLines (values xs)) k.parts all) in
            subst (λ h. Probed v p t policy h r)
              (sym (last_hit-found t n k.before k.at k.line k.after k.here k.later)
                ∙ ap (λ xs. last_hit t n (values xs)) (sym k.parts)
                ∙ ap (last_hit t n) is.lines)
              (
                record policy { ll = some l' },
                find
                    ∙ ap (λ xs. on_found v p t policy malloc (first_match t n (reverse xs))) k.parts
                    ∙ ap (on_found v p t policy malloc)
                        (first_match-found t n k.before k.at k.line k.after [] k.here k.later)
                    ∙ on_found-some is.list l' k.at k.line is.ll done,
                is',
              )
        | inr missing ↦
            subst (λ h. Probed v p t policy h r)
              (sym (last_hit-Missing t n is.cells missing) ∙ ap (last_hit t n) is.lines)
              (find
                ∙ ap (on_found v p t policy malloc) (first_match-Missing t n is.cells [] missing)
                ∙ on_found-none)
      ]
