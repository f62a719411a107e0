-- ===== src/Memory/Shows.antt =====
-- The bytes that the dump of a page shows.
use kaby_lake_cache_c.Base.{
  ℕ, zero, suc, ◌+◌, ◌-◌, ◌*◌, ◌%◌, ◌≤◌, ◌≡◌, ◌≢◌, refl, ◌∙◌, ap, sym, subst, arith, Option, some,
  ◌==◌, if◌then◌else◌, Bool, false, u32, ◌<<<◌,
}
use kaby_lake_cache_c.Outcome.{err_none, Outcome, returned, fault}
use mathlib.Core.List.{List, [], ◌∷◌, ◌++◌}
use kaby_lake_cache_c.Addr.{VirtAddr, PhyAddr}
use kaby_lake_cache_c.Addr.Fields.{IsVirtAddr, IsPhyAddr}
use kaby_lake_cache_c.Memory.{Memory, IsMemory}
use kaby_lake_cache_c.Memory.Print.{
  AddrFmt, fmt_none, DumpPiece, line_end, address_print, mem_dump_with_options, indented, line_head,
  dump_lines, zero_paddr, all_parts, as_outcome, dump_page, vmem_page_dump_with_options,
}
use kaby_lake_cache_c.PageWalk.{page_walk}
use kaby_lake_cache_c.TlbHrchy.Coherence.{walk-IsPage}
use kaby_lake_cache_c.Memory.Shown.{
  shown, with_first, read_bytes, shown-append, shown-address_print, shown-if_line_end,
  shown-indented, with_first-some, Shows, nonzero, mem_dump-Shows,
}

read_bytes-split :
    (mem : Memory) (m addr n : ℕ) (bs : List ℕ)
    → read_bytes mem addr (m + n) ≡ some bs
    → (xs : List ℕ) × (ys : List ℕ) × (read_bytes mem addr m ≡ some xs)
      × (read_bytes mem (addr + m) n ≡ some ys)
      × (bs ≡ xs ++ ys)
read_bytes-split mem zero addr n bs e =
    let at : addr + 0 ≡ addr = omega arith in
    let none_more : 0 + n ≡ n = omega arith in ([], bs, refl, rw at (rw none_more at e), refl)
read_bytes-split mem (suc m) addr n bs e =
    let more : suc m + n ≡ suc (m + n) = omega arith in
    let step : with_first (mem addr) (read_bytes mem (addr + 1) (m + n)) ≡ some bs =
      ap (read_bytes mem addr) (sym more) ∙ e in
    let (b, rest, here, later, same) =
      with_first-some (mem addr) (read_bytes mem (addr + 1) (m + n)) step in
    let (xs, ys, e1, e2, both) = read_bytes-split mem m (addr + 1) n rest later in
    let at : addr + suc m ≡ addr + 1 + m = omega arith in
    (
      b ∷ xs,
      ys,
      ap (with_first (mem addr)) e1 ∙ ap (λ o. with_first o (some xs)) here,
      ap (λ a. read_bytes mem a n) at ∙ e2,
      same ∙ ap (λ r. b ∷ r) both,
    )

shown-line_head : (f : AddrFmt) (start n : ℕ) → shown (line_head f start n) ≡ []
unfolding line_head
shown-line_head f start n =
    shown-append (if n == 0 then line_end ∷ [] else []) (address_print f 0 start ++ indented n)
    ∙ rw
        (
          shown-if_line_end (n == 0),
          shown-append (address_print f 0 start) (indented n),
          shown-address_print f 0 start,
          shown-indented n,
        )
        refl

all_parts-Shows :
    (o1 o2 o3 : Option (List DumpPiece)) (middle : List DumpPiece) (xs ys zs : List ℕ)
    → shown middle ≡ []
    → Shows xs o1
    → Shows ys o2
    → Shows zs o3
    → Shows (xs ++ (ys ++ zs)) (all_parts o1 middle o2 o3)
all_parts-Shows o1 o2 o3 middle xs ys zs sm (p1, e1, s1) (p2, e2, s2) (p3, e3, s3) = (
  p1 ++ (middle ++ (p2 ++ p3)),
  rw (e1, e2, e3) refl,
  shown-append p1 (middle ++ (p2 ++ p3))
      ∙ rw (s1, shown-append middle (p2 ++ p3), sm, shown-append p2 p3, s2, s3) refl,
)

-- The three parts of the dump, from the bytes that they read.
dump_lines-three :
    (mem : Memory) (base off rest : ℕ) (f : AddrFmt) (line_size : ℕ) (xs ys zs : List ℕ)
    → line_size ≢ 0
    → rest ≡ line_size - off % line_size
    → read_bytes mem base off ≡ some xs
    → read_bytes mem (base + off) rest ≡ some ys
    → read_bytes mem (base + off + rest) (4096 - (off + rest)) ≡ some zs
    → Shows (xs ++ (ys ++ zs)) (dump_lines mem base off f line_size)
unfolding dump_lines
dump_lines-three mem base off rest f line_size xs ys zs some_size is_rest e1 e2 e3 =
    let start = base + off in
    let len1 : start - base ≡ off = omega arith in
    let len2 : start + rest - start ≡ rest = omega arith in
    let len3 : base + 4096 - (start + rest) ≡ 4096 - (off + rest) = omega arith in
    let first =
      mem_dump-Shows mem 0 f line_size base start xs some_size
        (ap (read_bytes mem base) len1 ∙ e1) in
    let second =
      mem_dump-Shows mem 0 fmt_none line_size start (start + rest) ys some_size
        (ap (read_bytes mem start) len2 ∙ e2) in
    let third =
      mem_dump-Shows mem 0 f line_size (start + rest) (base + 4096) zs some_size
        (ap (read_bytes mem (start + rest)) len3 ∙ e3) in
    let at = λ (r : ℕ). mem_dump_with_options mem 0 start (start + r) fmt_none line_size in
    let last = λ (r : ℕ). mem_dump_with_options mem 0 (start + r) (base + 4096) f line_size in
    all_parts-Shows (mem_dump_with_options mem 0 base start f line_size)
      (at (line_size - off % line_size)) (last (line_size - off % line_size))
      (line_head f start (off % line_size)) xs ys zs (shown-line_head f start (off % line_size))
      first (subst (λ r. Shows ys (at r)) is_rest second)
      (subst (λ r. Shows zs (last r)) is_rest third)

dump_lines-Shows :
    (mem : Memory) (base off rest : ℕ) (f : AddrFmt) (line_size : ℕ) (bs : List ℕ)
    → line_size ≢ 0
    → rest ≡ line_size - off % line_size
    → off + rest ≤ 4096
    → read_bytes mem base 4096 ≡ some bs
    → Shows bs (dump_lines mem base off f line_size)
dump_lines-Shows mem base off rest f line_size bs some_size is_rest inside e =
    let left = 4096 - (off + rest) in
    let cut : 4096 ≡ off + (rest + left) = omega arith in
    let (xs, later, e1, e', s1) =
      read_bytes-split mem off base (rest + left) bs (ap (read_bytes mem base) (sym cut) ∙ e) in
    let (ys, zs, e2, e3, s2) = read_bytes-split mem rest (base + off) left later e' in
    subst (λ x. Shows x (dump_lines mem base off f line_size)) (sym (s1 ∙ ap (λ x. xs ++ x) s2))
      (dump_lines-three mem base off rest f line_size xs ys zs some_size is_rest e1 e2 e3)

-- The call returns ERR_NONE and shows these bytes.
abbrev pub Dumped : List ℕ → Outcome (List DumpPiece) → Type 0
Dumped bs r = (ps : List DumpPiece) × (r ≡ returned err_none ps) × (shown ps ≡ bs)

as_outcome-Dumped :
    (o : Option (List DumpPiece)) (bs : List ℕ) → Shows bs o → Dumped bs (as_outcome o)
as_outcome-Dumped o bs (ps, e, same) = (ps, ap as_outcome e, same)

if_false : {A : Type 0} (b : Bool) (x y : A) → b ≡ false → y ≡ (if b then x else y)
if_false b x y e = rw e refl

dump_page-Dumped :
    (mem : Memory) (p : PhyAddr) (f : AddrFmt) (line_size : ℕ) (bs : List ℕ)
    → IsPhyAddr p
    → line_size ≢ 0
    → p.page_offset + (line_size - p.page_offset % line_size) ≤ 4096
    → read_bytes mem (p.phy_page_num * 4096) 4096 ≡ some bs
    → Dumped bs (dump_page mem p f line_size)
unfolding dump_page
dump_page-Dumped mem p f line_size bs hp some_size inside e =
    let base = u32 (p.phy_page_num <<< 12) in
    let at : p.phy_page_num * 4096 ≡ base = omega (arith, hp.page) in
    let there = subst (λ b. read_bytes mem b 4096 ≡ some bs) at e in
    let parts = dump_lines mem base p.page_offset f line_size in
    subst (Dumped bs)
      (if_false (line_size == 0) fault (as_outcome parts) (nonzero line_size some_size))
      (as_outcome-Dumped parts bs (
        dump_lines-Shows mem base p.page_offset (line_size - p.page_offset % line_size) f line_size
          bs some_size refl inside there))

-- The lines have at least one byte, and the line of the address ends inside its page. If `page_walk`
-- finds a frame of memory for a well-formed address, `vmem_page_dump_with_options` returns ERR_NONE
-- and shows the 4096 bytes of the frame, each once and in order, whatever the offset of the address
-- and the format of addresses are.
pub vmem_page_dump-Dumped :
    (mem : Memory) (v : VirtAddr) (p : PhyAddr) (f : AddrFmt) (line_size : ℕ) (bs : List ℕ)
    → IsMemory mem
    → IsVirtAddr v
    → page_walk (some mem) (some v) (some zero_paddr) ≡ returned err_none p
    → line_size ≢ 0
    → p.page_offset + (line_size - p.page_offset % line_size) ≤ 4096
    → read_bytes mem (p.phy_page_num * 4096) 4096 ≡ some bs
    → Dumped bs (vmem_page_dump_with_options (some mem) (some v) f line_size)
unfolding vmem_page_dump_with_options
vmem_page_dump-Dumped mem v p f line_size bs ok hv walked some_size inside e =
    let hp = (walk-IsPage mem ok v hv zero_paddr p walked).0 in
    rw walked (dump_page-Dumped mem p f line_size bs hp some_size inside e)
