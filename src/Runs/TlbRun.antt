-- ===== src/Runs/TlbRun.antt =====
-- test-tlb_hrchy.c: `main` once the program, the memory and the output file are there. The TLBs are
-- flushed, and each line of the program is searched and reported.
use kaby_lake_cache_c.Base.{ℕ, zero, suc, ◌+◌, Option, none, some, not_zero, if◌then◌else◌}
use kaby_lake_cache_c.Outcome.{Outcome, returned, refused, fault}
use mathlib.Core.List.{List, [], ◌∷◌, ◌++◌, map}
use kaby_lake_cache_c.Addr.Print.{Field, FieldStream, print_virtual_address, print_physical_address}
use kaby_lake_cache_c.Memory.{Memory}
use kaby_lake_cache_c.TlbHrchy.{MemAccess, TlbKind, l1_itlb, l1_dtlb, l2_tlb, lines, Tlb, tlb_flush}
use kaby_lake_cache_c.TlbHrchy.Search.{Hrchy, Malloc, tlb_search}
use kaby_lake_cache_c.Commands.{Command}

-- The texts that `fprintf` and `fputc` write to the output file.
pub data OutputPiece : Type 0 where
  heading : (index : ℕ) → MemAccess → OutputPiece
  rule : OutputPiece
  after_line : (index : ℕ) → OutputPiece
  va_title pa_title blank_line : OutputPiece
  field : Field → OutputPiece
  hit_text miss_text : OutputPiece
  tlb_title : TlbKind → OutputPiece
  entry : (v tag phy_page_num : ℕ) → OutputPiece
  no_entry : (v : ℕ) → OutputPiece

-- The loop of the macro print_all_tlb_entries: `left` lines from line `i`.
unfoldable pub print_entries : Tlb → (left i : ℕ) → List OutputPiece
print_entries tlb zero i = []
print_entries tlb (suc left) i =
    let e = tlb i in
    (if not_zero e.v then entry e.v e.tag e.phy_page_num else no_entry e.v)
    ∷ print_entries tlb left (i + 1)

-- The macro print_all_tlb_entries under its title.
unfoldable pub print_all_tlb_entries : Tlb → TlbKind → List OutputPiece
unfolding print_entries
print_all_tlb_entries tlb k = tlb_title k ∷ blank_line ∷ print_entries tlb (lines k) 0

-- A line of the program that was searched, with what the search left.
pub record SearchedLine : Type 0 where
  pub index : ℕ
  pub line : Command
  pub after : Hrchy

-- What the body of the loop writes.
unfoldable pub report : FieldStream → SearchedLine → List OutputPiece
unfolding print_all_tlb_entries
report f_out r =
    heading r.index r.line.type
      ∷ rule
      ∷ after_line r.index
      ∷ va_title
      ∷ map field (print_virtual_address (some f_out) (some r.line.vaddr)).0
    ++ pa_title ∷ map field (print_physical_address (some f_out) (some r.after.paddr)).0
    ++ blank_line
      ∷ (if not_zero r.after.hit_or_miss then hit_text else miss_text)
      ∷ print_all_tlb_entries r.after.itlb l1_itlb
    ++ print_all_tlb_entries r.after.dtlb l1_dtlb
    ++ print_all_tlb_entries r.after.l2 l2_tlb
    ++ rule ∷ []

-- The code that `tlb_search` returns is not looked at.
abbrev pub after_search : Outcome Hrchy → Hrchy → Option Hrchy
after_search (returned _ s) before = some s
after_search (refused _) before = some before
after_search fault before = none

abbrev pub put_before : SearchedLine → Option (List SearchedLine) → Option (List SearchedLine)
put_before r none = none
put_before r (some rs) = some (r ∷ rs)

abbrev pub reported :
    Option Hrchy
    → (Hrchy → Option (List SearchedLine))
    → (Hrchy → SearchedLine)
    → Option (List SearchedLine)
reported none rest r = none
reported (some s) rest r = put_before (r s) (rest s)

-- `left` rounds of the loop from line `i`; `none` where C leaves it undefined. `malloc` is told for
-- each line.
unfoldable pub search_lines :
    (listing : ℕ → Command)
    → (malloc : ℕ → Malloc) → Memory
    → (left i : ℕ) → Hrchy
    → Option (List SearchedLine)
search_lines listing malloc mem zero i s = some []
search_lines listing malloc mem (suc left) i s =
    let c = listing i in
    let r =
      tlb_search (some mem) (some c.vaddr) (some s.paddr) c.type (some s.itlb) (some s.dtlb)
        (some s.l2) (some 0) (malloc i) in
    reported (after_search r (record s { hit_or_miss = 0 }))
      (λ s'. search_lines listing malloc mem left (i + 1) s')
      (λ s'. record { index = i; line = c; after = s' })

-- A call of `tlb_flush` whose code is not looked at.
abbrev pub after_flush : Outcome Tlb → Tlb → Tlb
after_flush (returned _ t) before = t
after_flush (refused _) before = before
after_flush fault before = before

-- The three arrays, with whatever stands in them, flushed, and a zero physical address.
unfoldable pub start_tlbs : (itlb dtlb l2 : Tlb) → Hrchy
start_tlbs itlb dtlb l2 = record {
  paddr = record { phy_page_num = 0; page_offset = 0 };
  itlb = after_flush (tlb_flush (some itlb) l1_itlb) itlb;
  dtlb = after_flush (tlb_flush (some dtlb) l1_dtlb) dtlb;
  l2 = after_flush (tlb_flush (some l2) l2_tlb) l2;
  hit_or_miss = 0;
}

unfoldable pub simulate :
    (listing : ℕ → Command)
    → (nb_lines : ℕ) → (malloc : ℕ → Malloc) → Memory
    → (itlb dtlb l2 : Tlb) → Option (List SearchedLine)
unfolding start_tlbs search_lines
simulate listing nb_lines malloc mem itlb dtlb l2 =
    search_lines listing malloc mem nb_lines 0 (start_tlbs itlb dtlb l2)
