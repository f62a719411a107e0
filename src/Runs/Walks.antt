-- ===== src/Runs/Walks.antt =====
-- The run of test-tlb_hrchy.c beside a run that walks the page tables for every line.
use kaby_lake_cache_c.Base.{
  ◌⊎◌, ℕ, zero, suc, ◌+◌, ◌≡◌, refl, ap, Option, none, some, inl, inr, subst,
}
use kaby_lake_cache_c.Outcome.{err_none, err_bad_parameter, Outcome, returned, refused, fault}
use mathlib.Core.List.{List, [], ◌∷◌}
use kaby_lake_cache_c.Addr.{VirtAddr, PhyAddr}
use kaby_lake_cache_c.Addr.Fields.{IsVirtAddr}
use kaby_lake_cache_c.Memory.{Memory, IsMemory}
use kaby_lake_cache_c.PageWalk.{page_walk}
use kaby_lake_cache_c.PageWalk.Leaf.{leaf}
use kaby_lake_cache_c.PageWalk.Walk.{Walked, page_walk-Walked}
use kaby_lake_cache_c.TlbHrchy.{TlbKind, tlb_flush, Tlb, l1_itlb, l1_dtlb, l2_tlb}
use kaby_lake_cache_c.TlbHrchy.Lookup.{lookup, tlb_flush-lookup}
use kaby_lake_cache_c.TlbHrchy.Search.{Hrchy, Malloc}
use kaby_lake_cache_c.TlbHrchy.Coherence.{IsCoherent, Agrees}
use kaby_lake_cache_c.TlbHrchy.Transparent.{
  call, NeverNull, Translated, tlb_search-Translated, tlb_search-refused, tlb_search-fault,
}
use kaby_lake_cache_c.Commands.{Command}
use kaby_lake_cache_c.Runs.TlbRun.{
  SearchedLine, put_before, search_lines, start_tlbs, simulate, after_flush,
}

abbrev prepended : PhyAddr → Option (List PhyAddr) → Option (List PhyAddr)
prepended p none = none
prepended p (some ps) = some (p ∷ ps)

-- A walk that does not find an address leaves the one that was there.
abbrev walk_then :
    Outcome PhyAddr → PhyAddr → (PhyAddr → Option (List PhyAddr)) → Option (List PhyAddr)
walk_then (returned _ p) old rest = prepended p (rest p)
walk_then (refused _) old rest = prepended old (rest old)
walk_then fault old rest = none

-- The physical addresses of `left` lines from line `i`, by the page tables alone; `none` if a walk
-- leaves the memory.
abbrev pub walk_lines :
    (listing : ℕ → Command) → Memory → (left i : ℕ) → (paddr : PhyAddr) → Option (List PhyAddr)
walk_lines listing mem zero i paddr = some []
walk_lines listing mem (suc left) i paddr =
    walk_then (page_walk (some mem) (some (listing i).vaddr) (some paddr)) paddr
      (λ p. walk_lines listing mem left (i + 1) p)

abbrev pub addresses : List SearchedLine → List PhyAddr
addresses [] = []
addresses (r ∷ rs) = r.after.paddr ∷ addresses rs

-- The run reports these addresses, or is undefined where the walks are.
abbrev pub Reports : Option (List PhyAddr) → Option (List SearchedLine) → Type 0
Reports none r = r ≡ none
Reports (some ps) r = (rs : List SearchedLine) × (r ≡ some rs) × (addresses rs ≡ ps)

-- The three outcomes of a walk.
pub walk_cases :
    (mem : Memory) (v : VirtAddr) (p : PhyAddr)
    → IsMemory mem
    → IsVirtAddr v
    → ((q : PhyAddr) × (page_walk (some mem) (some v) (some p) ≡ returned err_none q))
      ⊎ ((page_walk (some mem) (some v) (some p) ≡ refused err_bad_parameter)
          ⊎ (page_walk (some mem) (some v) (some p) ≡ fault))
walk_cases mem v p ok hv =
    by_leaf (leaf mem v) v.page_offset (page_walk (some mem) (some v) (some p))
      (page_walk-Walked mem v p ok hv)
  where
    by_leaf :
        (o : Option ℕ) (offset : ℕ) (r : Outcome PhyAddr)
        → Walked o offset r
        → ((q : PhyAddr) × (r ≡ returned err_none q))
          ⊎ ((r ≡ refused err_bad_parameter) ⊎ (r ≡ fault))
    by_leaf none offset r e = inr (inr e)
    by_leaf (some w) offset r (inl (_, (q, e, _, _))) = inl (q, e)
    by_leaf (some w) offset r (inr (_, e)) = inr (inl e)

put_before-Reports :
    (r : SearchedLine) (p : PhyAddr) (walked : Option (List PhyAddr))
    (rest : Option (List SearchedLine))
    → r.after.paddr ≡ p
    → Reports walked rest
    → Reports (prepended p walked) (put_before r rest)
put_before-Reports r p none rest here later = ap (put_before r) later
put_before-Reports r p (some ps) rest here (rs, e, same) =
    (r ∷ rs, ap (put_before r) e, rw (here, same) refl)

module _ (listing : ℕ → Command) (malloc : ℕ → Malloc) (mem : Memory) (ok : IsMemory mem)
    (given : (i : ℕ) → NeverNull (malloc i)) (good : (i : ℕ) → IsVirtAddr (listing i).vaddr) where
  search_lines-Reports :
      (left i : ℕ) (s : Hrchy)
      → IsCoherent mem s
      → Reports (walk_lines listing mem left i s.paddr) (search_lines listing malloc mem left i s)
  unfolding search_lines
  search_lines-Reports zero i s c = ([], refl, refl)
  search_lines-Reports (suc left) i s c =
      let line = listing i in
      let before : Hrchy = record s { hit_or_miss = 0 } in
      let c' : IsCoherent mem before = record { itlb = c.itlb; dtlb = c.dtlb; l2 = c.l2 } in
      let shown : Hrchy → SearchedLine = λ t. record { index = i; line = line; after = t } in
      let next = search_lines listing malloc mem left (i + 1) in
      elim (walk_cases mem line.vaddr s.paddr ok (good i)) [
        | inl (p, e) ↦
            let (t, found, at, kept) : Translated mem p
                (call mem line.vaddr line.type (malloc i) before) =
              tlb_search-Translated mem ok line.vaddr (good i) (malloc i) (given i) line.type before
                c' p e in
            rw (e, found)
              (put_before-Reports (shown t) p (walk_lines listing mem left (i + 1) p) (next t) at (
                subst (λ x. Reports (walk_lines listing mem left (i + 1) x) (next t)) at
                  (search_lines-Reports left (i + 1) t kept)))
        | inr (inl e) ↦
            rw
              (
                e,
                tlb_search-refused mem ok line.vaddr (good i) (malloc i) (given i) line.type before
                    c' err_bad_parameter e,
              )
              (put_before-Reports (shown before) s.paddr
                (walk_lines listing mem left (i + 1) s.paddr) (next before) refl
                (search_lines-Reports left (i + 1) before c'))
        | inr (inr e) ↦
            rw
              (
                e,
                tlb_search-fault mem ok line.vaddr (good i) (malloc i) (given i) line.type before c'
                    e,
              )
              refl
      ]

  after_flush-Agrees : (k : TlbKind) (t : Tlb) → Agrees mem k (after_flush (tlb_flush (some t) k) t)
  after_flush-Agrees k t n frame e =
      let (t', done, _, none_there) = tlb_flush-lookup k t in
      absurd (cc (none_there n, ap (λ r. lookup k (after_flush r t) n) done, e))

  -- Whatever stands in the three arrays, for a memory of bytes, lines with well-formed addresses and
  -- memory from every `malloc`: the run of test-tlb_hrchy.c, from the flush of the TLBs on, reports for
  -- each line of the program the physical address that `page_walk` finds for it, or, where the walk is
  -- refused, the address of the line before, zero before the first; it is undefined where a walk
  -- leaves the memory, and only there.
  pub simulate-Reports :
      (nb_lines : ℕ) (itlb dtlb l2 : Tlb)
      → Reports
          (walk_lines listing mem nb_lines 0 (record { phy_page_num = 0; page_offset = 0 }))
          (simulate listing nb_lines malloc mem itlb dtlb l2)
  unfolding simulate
  simulate-Reports nb_lines itlb dtlb l2 =
      search_lines-Reports nb_lines 0 (start_tlbs itlb dtlb l2) (
        unfold start_tlbs in
        record {
          itlb = after_flush-Agrees l1_itlb itlb;
          dtlb = after_flush-Agrees l1_dtlb dtlb;
          l2 = after_flush-Agrees l2_tlb l2;
        })
