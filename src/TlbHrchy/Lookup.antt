-- ===== src/TlbHrchy/Lookup.antt =====
-- A TLB as a partial map from virtual pages to frames: what flushing, inserting and probing do to it.
use kaby_lake_cache_c.Base.{
  ◌⊎◌, leb, Option-cases, ℕ, zero, suc, ◌+◌, ◌*◌, ◌%◌, ◌<◌, ◌≡◌, refl, ◌&&◌, Option, none, some,
  arith, ltb, ◌==◌, if◌then◌else◌, not_zero, update, inl, inr,
}
use kaby_lake_cache_c.Outcome.{err_none, returned}
use kaby_lake_cache_c.Addr.{VirtAddr, PhyAddr, page_number}
use kaby_lake_cache_c.Addr.Fields.{IsVirtAddr, IsPhyAddr, page_number-lt}
use kaby_lake_cache_c.TlbHrchy.{
  TlbKind, l1_itlb, l1_dtlb, l2_tlb, lines, TlbEntry, Tlb, entry_of, zero_entry, flush_from,
  tlb_flush, insert_line, tlb_insert, tlb_entry_init, probe, tlb_hit,
}

-- The frame that an entry at `line` gives to page `n`, if it stands for that page.
abbrev pub entry_lookup : TlbKind → (line : ℕ) → TlbEntry → ℕ → Option ℕ
entry_lookup k line e n =
    if not_zero e.v && (e.tag * lines k + line == n) then some e.phy_page_num else none

-- The frame of page `n`: only its own line can hold it.
unfoldable pub lookup : TlbKind → Tlb → ℕ → Option ℕ
lookup k t n = entry_lookup k (n % lines k) (t (n % lines k)) n

abbrev pub answer : Option ℕ → VirtAddr → PhyAddr → ℕ × PhyAddr
answer none v p = (0, p)
answer (some frame) v p = (1, record { phy_page_num = frame; page_offset = v.page_offset })

pub probe-lookup :
    (k : TlbKind) (v : VirtAddr) (p : PhyAddr) (t : Tlb)
    → probe v p t k ≡ answer (lookup k t (page_number v)) v p
unfolding probe lookup
probe-lookup l1_itlb v p t = ground arith
probe-lookup l1_dtlb v p t = ground arith
probe-lookup l2_tlb v p t = ground arith

-- An insertion at the page's own line: the page gets its frame, the page that stood there is gone,
-- all others are kept.
abbrev pub lookup_after : TlbKind → Tlb → (page frame n : ℕ) → Option ℕ
lookup_after k t page frame n =
    if n == page then some frame else if n % lines k == page % lines k then none else lookup k t n

pub lookup-insert_line :
    (k : TlbKind) (t : Tlb) (v : VirtAddr) (p : PhyAddr) (n : ℕ)
    → IsVirtAddr v
    → IsPhyAddr p
    → lookup k (insert_line (page_number v % lines k) (entry_of v p k) t k).1 n
      ≡ lookup_after k t (page_number v) p.phy_page_num n
unfolding lookup insert_line entry_of
lookup-insert_line l1_itlb t v p n hv hp = ground (arith, page_number-lt v hv, hp.page)
lookup-insert_line l1_dtlb t v p n hv hp = ground (arith, page_number-lt v hv, hp.page)
lookup-insert_line l2_tlb t v p n hv hp = ground (arith, page_number-lt v hv, hp.page)

flush_from-elem :
    (left i : ℕ) (t : Tlb) (j : ℕ)
    → flush_from left i t j ≡ (if leb i j && ltb j (i + left) then zero_entry else t j)
unfolding flush_from
flush_from-elem zero i t j = ground arith
flush_from-elem (suc left) i t j =
    ground (arith, flush_from-elem left (i + 1) (update t i zero_entry) j)

flush_from-lookup : (k : TlbKind) (t : Tlb) (n : ℕ) → lookup k (flush_from (lines k) 0 t) n ≡ none
unfolding lookup
flush_from-lookup l1_itlb t n = ground (arith, flush_from-elem 16 0 t (n % 16))
flush_from-lookup l1_dtlb t n = ground (arith, flush_from-elem 16 0 t (n % 16))
flush_from-lookup l2_tlb t n = ground (arith, flush_from-elem 64 0 t (n % 64))

-- `tlb_flush` succeeds, zeroes every line of the TLB, writes no other memory, and leaves a TLB that
-- holds no page.
pub tlb_flush-lookup :
    (k : TlbKind) (t : Tlb)
    → (t' : Tlb) × (tlb_flush (some t) k ≡ returned err_none t')
      × ((i : ℕ) → t' i ≡ (if ltb i (lines k) then zero_entry else t i))
      × ((n : ℕ) → lookup k t' n ≡ none)
unfolding tlb_flush
tlb_flush-lookup k t = (
  flush_from (lines k) 0 t,
  refl,
  λ i. ground (arith, flush_from-elem (lines k) 0 t i),
  flush_from-lookup k t,
)

line-lt : (k : TlbKind) (n : ℕ) → n % lines k < lines k
line-lt l1_itlb n = omega arith
line-lt l1_dtlb n = omega arith
line-lt l2_tlb n = omega arith

-- `tlb_entry_init` for a well-formed pair of addresses and `tlb_insert` of the entry at the page's
-- line succeed. Afterwards the TLB maps the page to the frame, has lost the page that stood in that
-- line, and maps every other page as before.
pub tlb_insert-lookup :
    (k : TlbKind) (v : VirtAddr) (p : PhyAddr) (old : TlbEntry) (t : Tlb)
    → IsVirtAddr v
    → IsPhyAddr p
    → (e : TlbEntry) × (t' : Tlb) × (tlb_entry_init (some v) (some p) (some old) k
        ≡ returned err_none e)
      × (tlb_insert (page_number v % lines k) (some e) (some t) k ≡ returned err_none t')
      × ((n : ℕ) → lookup k t' n ≡ lookup_after k t (page_number v) p.phy_page_num n)
unfolding tlb_entry_init tlb_insert
tlb_insert-lookup k v p old t hv hp = (
  entry_of v p k,
  (insert_line (page_number v % lines k) (entry_of v p k) t k).1,
  refl,
  unfold insert_line in ground (arith, line-lt k (page_number v)),
  λ n. lookup-insert_line k t v p n hv hp,
)

-- `tlb_hit` answers 1 exactly if the TLB maps the page of the address; then it sets the physical
-- address to the frame and the offset. Else it answers 0 and leaves the physical address.
pub tlb_hit-lookup :
    (k : TlbKind) (v : VirtAddr) (p : PhyAddr) (t : Tlb)
    → ((lookup k t (page_number v) ≡ none) × (tlb_hit (some v) (some p) (some t) k ≡ (0, some p)))
      ⊎ ((frame : ℕ) × (lookup k t (page_number v) ≡ some frame)
          × (tlb_hit (some v) (some p) (some t) k
              ≡ (1, some (record { phy_page_num = frame; page_offset = v.page_offset }))))
unfolding tlb_hit
tlb_hit-lookup k v p t = elim (Option-cases (lookup k t (page_number v))) [
  | inl miss ↦ inl (miss, rw (probe-lookup k v p t, miss))
  | inr (frame, hit) ↦ inr (frame, hit, rw (probe-lookup k v p t, hit))
]
