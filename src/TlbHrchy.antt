-- ===== src/TlbHrchy.antt =====
-- tlb_hrchy.h and tlb_hrchy_mng.c: two direct-mapped level-1 TLBs over a direct-mapped level-2 TLB.
-- The three entry types of the source have the same fields, and differ in the width of the tag: they
-- are one record, and the width is applied where a tag is stored. A TLB is an array, read as a
-- function of the line; only lines below `lines k` exist.
pub mod Lookup
pub mod Invalid
pub mod Search
pub mod Cases
pub mod Coherence
pub mod Transparent
pub mod Refill
use kaby_lake_cache_c.Base.{
  ℕ, zero, suc, ◌+◌, ◌*◌, ◌/◌, ◌%◌, ◌^◌, bit_and, bit_or, Bool, true, false, ◌&&◌, Option, none,
  some, ltb, ◌==◌, not_zero, if◌then◌else◌, update, u8, u32, ◌<<<◌, ◌>>>◌,
}
use kaby_lake_cache_c.Outcome.{
  ErrorCode, err_none, err_bad_parameter, code_number, Outcome, returned, refused, fault, ◌>>=◌,
}
use kaby_lake_cache_c.Addr.{VirtAddr, PhyAddr, bits, page_number}
use kaby_lake_cache_c.Memory.{Memory}
use kaby_lake_cache_c.PageWalk.{page_walk}

-- mem_access.h
pub data MemAccess : Type 0 where
  instruction access_data : MemAccess

-- `tlb_t`
pub data TlbKind : Type 0 where
  l1_itlb l1_dtlb l2_tlb : TlbKind

abbrev pub lines : TlbKind → ℕ
lines l1_itlb = 16
lines l1_dtlb = 16
lines l2_tlb = 64

abbrev pub lines_bits : TlbKind → ℕ
lines_bits l1_itlb = 4
lines_bits l1_dtlb = 4
lines_bits l2_tlb = 6

abbrev pub tag_bits : TlbKind → ℕ
tag_bits l1_itlb = 32
tag_bits l1_dtlb = 32
tag_bits l2_tlb = 30

pub record TlbEntry : Type 0 where
  pub tag : ℕ
  pub phy_page_num : ℕ
  pub v : ℕ

abbrev pub Tlb : Type 0
Tlb = ℕ → TlbEntry

-- The macro `init`: what `tlb_entry_init` stores.
unfoldable pub entry_of : VirtAddr → PhyAddr → TlbKind → TlbEntry
entry_of vaddr paddr k = record {
  tag = bits (tag_bits k) (page_number vaddr >>> lines_bits k);
  phy_page_num = bits 20 paddr.phy_page_num;
  v = 1;
}

unfoldable pub tlb_entry_init :
    Option VirtAddr → Option PhyAddr → Option TlbEntry → TlbKind → Outcome TlbEntry
tlb_entry_init vaddr paddr tlb_entry tlb_type = do
  v ← vaddr
  p ← paddr
  e ← tlb_entry
  returned err_none (entry_of v p tlb_type)

abbrev pub zero_entry : TlbEntry
zero_entry = record { tag = 0; phy_page_num = 0; v = 0 }

-- The macro `flush`: `left` rounds of its loop, from line `i`.
unfoldable pub flush_from : (left i : ℕ) → Tlb → Tlb
flush_from zero i tlb = tlb
flush_from (suc left) i tlb = flush_from left (i + 1) (update tlb i zero_entry)

unfoldable pub tlb_flush : Option Tlb → TlbKind → Outcome Tlb
unfolding flush_from
tlb_flush tlb tlb_type = do t ← tlb; returned err_none (flush_from (lines tlb_type) 0 t)

-- The macro `insert`: the code that is returned, and the TLB.
unfoldable pub insert_line : ℕ → TlbEntry → Tlb → TlbKind → ErrorCode × Tlb
insert_line line_index tlb_entry tlb k =
    if ltb line_index (lines k)
    then (err_none, update tlb line_index tlb_entry)
    else (err_bad_parameter, tlb)

unfoldable pub tlb_insert : ℕ → Option TlbEntry → Option Tlb → TlbKind → Outcome Tlb
unfolding insert_line
tlb_insert line_index tlb_entry tlb tlb_type = do
  t ← tlb
  e ← tlb_entry
  let (code, t') = insert_line line_index e t tlb_type
  returned code t'

-- The macro `hit`: 1 or 0, and the physical address.
unfoldable pub probe : VirtAddr → PhyAddr → Tlb → TlbKind → ℕ × PhyAddr
probe vaddr paddr tlb k =
    let virt_page_num = page_number vaddr in
    let line_index = virt_page_num % lines k in
    let tag = virt_page_num >>> lines_bits k in
    let e = tlb line_index in
    if not_zero e.v && tag == e.tag
    then (1, record { phy_page_num = e.phy_page_num; page_offset = vaddr.page_offset })
    else (0, paddr)

-- A NULL pointer is answered with the error code as an `int`.
unfoldable pub tlb_hit :
    Option VirtAddr → Option PhyAddr → Option Tlb → TlbKind → ℕ × Option PhyAddr
unfolding probe
tlb_hit (some vaddr) (some paddr) (some tlb) tlb_type =
    let (hit, p) = probe vaddr paddr tlb tlb_type in (hit, some p)
tlb_hit _ paddr _ _ = (code_number err_bad_parameter, paddr)

-- The macro `search_invalid` at one level-1 TLB.
unfoldable pub invalidate : Tlb → (tl1_index tl2_vaddr : ℕ) → Tlb
invalidate l1 tl1_index tl2_vaddr =
    let e = l1 tl1_index in
    let tl1_vaddr = bit_or (u32 (e.tag <<< 4)) tl1_index in
    if e.v == 1 && tl1_vaddr == tl2_vaddr then update l1 tl1_index (record e { v = 0 }) else l1

-- `tl2_vaddr`: the page that the line of the level-2 TLB holds, in 32 bits.
unfoldable pub evicted_page : Tlb → ℕ → ℕ
evicted_page l2 virt_page_number =
    let tl2_index = u8 (bit_and virt_page_number 0b111111) in
    bit_or (u32 ((l2 tl2_index).tag <<< lines_bits l2_tlb)) tl2_index

-- The two level-1 TLBs after `tlb_search_invalid`: an access for one looks into the other.
unfoldable pub search_invalid : Tlb → Tlb → ℕ → MemAccess → Tlb → Tlb × Tlb
unfolding invalidate evicted_page
search_invalid itlb dtlb virt_page_number access l2 =
    let tl1_index = u8 (virt_page_number % lines l1_itlb) in
    let tl2_vaddr = evicted_page l2 virt_page_number in
    elim access [
      | instruction ↦ (itlb, invalidate dtlb tl1_index tl2_vaddr)
      | access_data ↦ (invalidate itlb tl1_index tl2_vaddr, dtlb)
    ]

unfoldable pub tlb_search_invalid :
    Option Tlb → Option Tlb → ℕ → MemAccess → Option Tlb → Outcome (Tlb × Tlb)
unfolding search_invalid
tlb_search_invalid itlb dtlb virt_page_number access l2tlb = do
  d ← dtlb
  i ← itlb
  l2 ← l2tlb
  returned err_none (search_invalid i d virt_page_number access l2)
