-- ===== src/Memory/Print.antt =====
-- memory.c: `address_print`, `mem_dump_with_options` and `vmem_page_dump_with_options`, which print a
-- page. Pointers into the memory are offsets from its begin, `mem_space`.
use kaby_lake_cache_c.Base.{
  ℕ, zero, suc, ◌+◌, ◌-◌, ◌%◌, Option, none, some, ◌==◌, if◌then◌else◌, u32, ◌<<<◌,
}
use kaby_lake_cache_c.Outcome.{err_none, Outcome, returned, refused, fault}
use mathlib.Core.List.{List, [], ◌∷◌, ◌++◌}
use kaby_lake_cache_c.Addr.{VirtAddr, PhyAddr}
use kaby_lake_cache_c.Memory.{Memory}
use kaby_lake_cache_c.PageWalk.{page_walk}

-- `addr_fmt_t`
pub data AddrFmt : Type 0 where
  fmt_none fmt_pointer fmt_offset fmt_offset_u : AddrFmt

-- The texts that `printf` and `putchar` write: an address as a pointer, as an offset in hexadecimal
-- or in decimal, a colon with the separator, a byte with the separator, two blanks with the
-- separator, and the end of a line.
pub data DumpPiece : Type 0 where
  pointer offset offset_u : (addr : ℕ) → DumpPiece
  colon : DumpPiece
  byte : ℕ → DumpPiece
  blanks line_end : DumpPiece

unfoldable pub address_print : AddrFmt → (reference addr : ℕ) → List DumpPiece
address_print fmt_none reference addr = []
address_print fmt_pointer reference addr = pointer addr ∷ colon ∷ []
address_print fmt_offset reference addr = offset (addr - reference) ∷ colon ∷ []
address_print fmt_offset_u reference addr = offset_u (addr - reference) ∷ colon ∷ []

abbrev pub followed :
    Option (List DumpPiece) → (List DumpPiece → List DumpPiece) → Option (List DumpPiece)
followed none f = none
followed (some ps) f = some (f ps)

-- The byte at an address, and what follows it; `none` for a read outside the memory.
abbrev pub with_byte :
    Option ℕ → Option (List DumpPiece) → List DumpPiece → List DumpPiece → Option (List DumpPiece)
with_byte none rest before after = none
with_byte (some b) rest before after = followed rest (λ ps. before ++ (byte b ∷ (after ++ ps)))

-- The loop of `mem_dump_with_options`: `left` bytes from `addr`, with `nb_to_print` to go on the line,
-- and the end of the last line.
unfoldable pub dump_from :
    Memory
    → (reference : ℕ) → AddrFmt
    → (line_size : ℕ) → (left addr nb_to_print : ℕ) → Option (List DumpPiece)
unfolding address_print
dump_from mem reference show_addr line_size zero addr nb_to_print =
    some (if nb_to_print == line_size then [] else line_end ∷ [])
dump_from mem reference show_addr line_size (suc left) addr nb_to_print =
    let full = nb_to_print - 1 == 0 in
    let rest =
      dump_from mem reference show_addr line_size left (addr + 1)
        (if full then line_size else nb_to_print - 1) in
    with_byte (mem addr) rest
      (if nb_to_print == line_size then address_print show_addr reference addr else [])
      (if full then line_end ∷ [] else [])

-- `none` where the call does not return: the assertion fails, or a byte is outside the memory.
unfoldable pub mem_dump_with_options :
    Memory → (reference start stop : ℕ) → AddrFmt → (line_size : ℕ) → Option (List DumpPiece)
unfolding dump_from
mem_dump_with_options mem reference start stop show_addr line_size =
    if line_size == 0
    then none
    else dump_from mem reference show_addr line_size (stop - start) start line_size

-- `left` times two blanks and the separator.
unfoldable pub indented : (left : ℕ) → List DumpPiece
indented zero = []
indented (suc left) = blanks ∷ indented left

abbrev pub all_parts :
    Option (List DumpPiece)
    → List DumpPiece
    → Option (List DumpPiece)
    → Option (List DumpPiece)
    → Option (List DumpPiece)
all_parts (some ps) middle (some qs) (some rs) = some (ps ++ (middle ++ (qs ++ rs)))
all_parts _ _ _ _ = none

abbrev pub as_outcome : Option (List DumpPiece) → Outcome (List DumpPiece)
as_outcome none = fault
as_outcome (some ps) = returned err_none ps

-- Between the two parts of the line of `start`.
unfoldable pub line_head : AddrFmt → (start indent : ℕ) → List DumpPiece
unfolding address_print indented
line_head show_addr start indent =
    (if indent == 0 then line_end ∷ [] else [])
    ++ (address_print show_addr 0 start ++ indented indent)

-- The page up to the address, the rest of the address's line, and the rest of the page.
unfoldable pub dump_lines :
    Memory → (page_start page_offset : ℕ) → AddrFmt → (line_size : ℕ) → Option (List DumpPiece)
unfolding mem_dump_with_options line_head
dump_lines mem page_start page_offset show_addr line_size =
    let start = page_start + page_offset in
    let indent = page_offset % line_size in
    let end_line = start + (line_size - indent) in
    let end = page_start + 4096 in
    all_parts (mem_dump_with_options mem 0 page_start start show_addr line_size)
      (line_head show_addr start indent)
      (mem_dump_with_options mem 0 start end_line fmt_none line_size)
      (mem_dump_with_options mem 0 end_line end show_addr line_size)

-- `vmem_page_dump_with_options` once the physical address is there. The remainder by a line size of
-- zero is undefined in C.
unfoldable pub dump_page : Memory → PhyAddr → AddrFmt → (line_size : ℕ) → Outcome (List DumpPiece)
unfolding dump_lines
dump_page mem paddr show_addr line_size =
    if line_size == 0
    then fault
    else as_outcome
        (dump_lines mem (u32 (paddr.phy_page_num <<< 12)) paddr.page_offset show_addr line_size)

-- M_EXIT_IF_ERR after `page_walk`.
abbrev pub dump_at : Outcome PhyAddr → Memory → AddrFmt → (line_size : ℕ) → Outcome (List DumpPiece)
dump_at (returned err_none p) mem show_addr line_size = dump_page mem p show_addr line_size
dump_at (returned code p) mem show_addr line_size = refused code
dump_at (refused code) mem show_addr line_size = refused code
dump_at fault mem show_addr line_size = fault

abbrev pub zero_paddr : PhyAddr
zero_paddr = record { phy_page_num = 0; page_offset = 0 }

unfoldable pub vmem_page_dump_with_options :
    Option Memory → (from : Option VirtAddr) → AddrFmt → (line_size : ℕ) → Outcome (List DumpPiece)
unfolding dump_page
vmem_page_dump_with_options none from show_addr line_size =
    dump_at (page_walk none from (some zero_paddr)) (λ a. none) show_addr line_size
vmem_page_dump_with_options (some mem) from show_addr line_size =
    dump_at (page_walk (some mem) from (some zero_paddr)) mem show_addr line_size
