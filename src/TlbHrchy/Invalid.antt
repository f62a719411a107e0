-- ===== src/TlbHrchy/Invalid.antt =====
-- `tlb_search_invalid`: which pages leave a level-1 TLB when a line of the level-2 TLB is replaced.
use kaby_lake_cache_c.Base.{
  bit_or, u8, ℕ, ◌+◌, ◌*◌, ◌%◌, ◌^◌, ◌<◌, ◌≡◌, refl, none, some, arith, ◌==◌, if◌then◌else◌,
  bit_and_mask, bit_or_join,
}
use kaby_lake_cache_c.Outcome.{err_none, returned}
use kaby_lake_cache_c.TlbHrchy.{
  TlbKind, l1_itlb, l1_dtlb, l2_tlb, lines, tag_bits, TlbEntry, Tlb, invalidate, evicted_page,
  search_invalid, tlb_search_invalid, MemAccess, instruction, access_data,
}
use kaby_lake_cache_c.TlbHrchy.Lookup.{lookup}

-- The fields of every line fit their bits.
pub record IsLine (k : TlbKind) (e : TlbEntry) : Type 0 where
  pub tag : e.tag < 2 ^ tag_bits k
  pub v : e.v < 2

abbrev pub IsTlb : TlbKind → Tlb → Type 0
IsTlb k t = (i : ℕ) → IsLine k (t i)

-- The page that stands in the line of the level-2 TLB that page `n` maps to, valid or not.
abbrev pub occupant : Tlb → ℕ → ℕ
occupant l2 n = (l2 (n % 64)).tag * 64 + n % 64

pub evicted_page-occupant :
    (l2 : Tlb) (n : ℕ) → IsTlb l2_tlb l2 → evicted_page l2 n ≡ occupant l2 n % 2 ^ 32
unfolding evicted_page
evicted_page-occupant l2 n ok = ground (
  arith,
  bit_and_mask 6 n,
  (ok (n % 64)).tag,
  bit_or_join 6 ((l2 (n % 64)).tag % 2 ^ 26) (n % 64),
)

-- A level-1 TLB without the pages that agree with `page` in the low 32 bits.
abbrev pub Without : TlbKind → (before after : Tlb) → (page : ℕ) → Type 0
Without k before after page =
    (n : ℕ) → lookup k after n ≡ (if n % 2 ^ 32 == page % 2 ^ 32 then none else lookup k before n)

tag_join :
    (e : TlbEntry) (i : ℕ)
    → e.tag < 2 ^ 32
    → i < 16
    → bit_or (e.tag * 16 % 2 ^ 32) i ≡ (e.tag * 16 + i) % 2 ^ 32
tag_join e i tag small = ground (arith, bit_or_join 4 (e.tag % 2 ^ 28) i)

-- The level-1 TLBs have one shape.
invalidate-lookup :
    (l1 : Tlb) (page : ℕ) (n : ℕ)
    → IsTlb l1_dtlb l1
    → lookup l1_dtlb (invalidate l1 (page % 16) (page % 2 ^ 32)) n
      ≡ (if n % 2 ^ 32 == page % 2 ^ 32 then none else lookup l1_dtlb l1 n)
unfolding invalidate lookup
invalidate-lookup l1 page n ok =
    ground (arith, (ok (page % 16)).tag, (ok (page % 16)).v, tag_join (l1 (page % 16)) (page % 16))

invalidate-Without :
    (k : TlbKind) (l1 l2 : Tlb) (n : ℕ)
    → lines k ≡ 16
    → IsTlb l1_dtlb l1
    → IsTlb l2_tlb l2
    → Without k l1 (invalidate l1 (u8 (n % 16)) (evicted_page l2 n)) (occupant l2 n)
invalidate-Without l1_itlb l1 l2 n e ok ok2 m =
    let same : u8 (n % 16) ≡ occupant l2 n % 16 = omega arith in
    rw (evicted_page-occupant l2 n ok2, same)
      (unfold lookup in invalidate-lookup l1 (occupant l2 n) m ok)
invalidate-Without l1_dtlb l1 l2 n e ok ok2 m =
    let same : u8 (n % 16) ≡ occupant l2 n % 16 = omega arith in
    rw (evicted_page-occupant l2 n ok2, same) (invalidate-lookup l1 (occupant l2 n) m ok)
invalidate-Without l2_tlb l1 l2 n e ok ok2 m = absurd (omega (arith, e))

-- The level-1 TLBs after the call: that of the access is kept, the other loses the occupant's page.
abbrev pub Invalidated : MemAccess → (itlb dtlb : Tlb) → Tlb × Tlb → (page : ℕ) → Type 0
Invalidated instruction itlb dtlb (itlb', dtlb') page =
    (itlb' ≡ itlb) × Without l1_dtlb dtlb dtlb' page
Invalidated access_data itlb dtlb (itlb', dtlb') page =
    Without l1_itlb itlb itlb' page × (dtlb' ≡ dtlb)

pub search_invalid-Invalidated :
    (itlb dtlb l2 : Tlb) (n : ℕ) (access : MemAccess)
    → IsTlb l1_itlb itlb
    → IsTlb l1_dtlb dtlb
    → IsTlb l2_tlb l2
    → Invalidated access itlb dtlb (search_invalid itlb dtlb n access l2) (occupant l2 n)
unfolding search_invalid
search_invalid-Invalidated itlb dtlb l2 n instruction oki okd ok2 =
    (refl, invalidate-Without l1_dtlb dtlb l2 n refl okd ok2)
search_invalid-Invalidated itlb dtlb l2 n access_data oki okd ok2 = (
  invalidate-Without l1_itlb itlb l2 n refl (λ i. record { tag = (oki i).tag; v = (oki i).v }) ok2,
  refl,
)

-- `tlb_search_invalid` on TLBs whose fields fit succeeds. It keeps the level-1 TLB of the access. In
-- the other one exactly the pages are lost that agree in their low 32 bits with the page standing in
-- the line of the level-2 TLB: the comparison in 32 bits drops the top four bits of a page number.
pub tlb_search_invalid-Invalidated :
    (itlb dtlb l2 : Tlb) (n : ℕ) (access : MemAccess)
    → IsTlb l1_itlb itlb
    → IsTlb l1_dtlb dtlb
    → IsTlb l2_tlb l2
    → (i d : Tlb) × (tlb_search_invalid (some itlb) (some dtlb) n access (some l2)
        ≡ returned err_none (i, d))
      × Invalidated access itlb dtlb (i, d) (occupant l2 n)
unfolding tlb_search_invalid
tlb_search_invalid-Invalidated itlb dtlb l2 n access oki okd ok2 = (
  (search_invalid itlb dtlb n access l2).0,
  (search_invalid itlb dtlb n access l2).1,
  refl,
  search_invalid-Invalidated itlb dtlb l2 n access oki okd ok2,
)
