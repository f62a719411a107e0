-- ===== src/Memory/Shown.antt =====
-- The bytes that a part of a dump shows.
use kaby_lake_cache_c.Base.{
  ℕ, zero, suc, ◌+◌, ◌-◌, ◌≡◌, ◌≢◌, refl, ◌∙◌, ap, arith, Option, none, some, ◌==◌, if◌then◌else◌,
  Bool, true, false,
}
use mathlib.Core.List.{List, [], ◌∷◌, ◌++◌}
use kaby_lake_cache_c.Memory.{Memory}
use kaby_lake_cache_c.Memory.Print.{
  AddrFmt, fmt_none, fmt_pointer, fmt_offset, fmt_offset_u, DumpPiece, pointer, offset, offset_u,
  colon, byte, blanks, line_end, address_print, dump_from, mem_dump_with_options, indented,
  with_byte,
}

-- The bytes among the pieces.
abbrev pub shown : List DumpPiece → List ℕ
shown [] = []
shown (byte b ∷ ps) = b ∷ shown ps
shown (_ ∷ ps) = shown ps

abbrev pub with_first : Option ℕ → Option (List ℕ) → Option (List ℕ)
with_first (some b) (some bs) = some (b ∷ bs)
with_first _ _ = none

-- `left` bytes of memory from an address; `none` if one is not there.
abbrev pub read_bytes : Memory → (addr left : ℕ) → Option (List ℕ)
read_bytes mem addr zero = some []
read_bytes mem addr (suc left) = with_first (mem addr) (read_bytes mem (addr + 1) left)

pub shown-append : (ps qs : List DumpPiece) → shown (ps ++ qs) ≡ shown ps ++ shown qs
shown-append [] qs = refl
shown-append (byte b ∷ ps) qs = ap (λ x. b ∷ x) (shown-append ps qs)
shown-append (pointer a ∷ ps) qs = shown-append ps qs
shown-append (offset a ∷ ps) qs = shown-append ps qs
shown-append (offset_u a ∷ ps) qs = shown-append ps qs
shown-append (colon ∷ ps) qs = shown-append ps qs
shown-append (blanks ∷ ps) qs = shown-append ps qs
shown-append (line_end ∷ ps) qs = shown-append ps qs

pub shown-address_print :
    (f : AddrFmt) (reference addr : ℕ) → shown (address_print f reference addr) ≡ []
unfolding address_print
shown-address_print fmt_none reference addr = refl
shown-address_print fmt_pointer reference addr = refl
shown-address_print fmt_offset reference addr = refl
shown-address_print fmt_offset_u reference addr = refl

pub shown-if_line_end : (b : Bool) → shown (if b then line_end ∷ [] else []) ≡ []
shown-if_line_end true = refl
shown-if_line_end false = refl

shown-last : (b : Bool) → shown (if b then [] else line_end ∷ []) ≡ []
shown-last true = refl
shown-last false = refl

shown-if : (b : Bool) (ps : List DumpPiece) → shown ps ≡ [] → shown (if b then ps else []) ≡ []
shown-if true ps e = e
shown-if false ps e = refl

pub shown-indented : (n : ℕ) → shown (indented n) ≡ []
unfolding indented
shown-indented zero = refl
shown-indented (suc n) = shown-indented n

pub with_first-some :
    (o : Option ℕ) (r : Option (List ℕ)) {bs : List ℕ}
    → with_first o r ≡ some bs
    → (b : ℕ) × (rest : List ℕ) × (o ≡ some b) × (r ≡ some rest) × (bs ≡ b ∷ rest)
with_first-some none r e = absurd (cc)
with_first-some (some b) none e = absurd (cc)
with_first-some (some b) (some rest) e = (b, rest, refl, refl, cc)

-- A dump that shows these bytes.
abbrev pub Shows : List ℕ → Option (List DumpPiece) → Type 0
Shows bs r = (ps : List DumpPiece) × (r ≡ some ps) × (shown ps ≡ bs)

with_byte-Shows :
    (o : Option ℕ) (b : ℕ) (bs : List ℕ) (rest : Option (List DumpPiece))
    (before after : List DumpPiece)
    → o ≡ some b
    → shown before ≡ []
    → shown after ≡ []
    → Shows bs rest
    → Shows (b ∷ bs) (with_byte o rest before after)
with_byte-Shows o b bs rest before after e sb sa (ps, e2, same) = (
  before ++ (byte b ∷ (after ++ ps)),
  rw (e, e2) refl,
  shown-append before (byte b ∷ (after ++ ps)) ∙ rw (sb, shown-append after ps, sa, same) refl,
)

pub nonzero : (n : ℕ) → n ≢ 0 → (n == 0) ≡ false
nonzero n h = ground arith

module _ (mem : Memory) (reference : ℕ) (f : AddrFmt) (line_size : ℕ) where
  dump_from-Shows :
      (left addr nb : ℕ) (bs : List ℕ)
      → read_bytes mem addr left ≡ some bs
      → Shows bs (dump_from mem reference f line_size left addr nb)
  unfolding dump_from
  dump_from-Shows zero addr nb bs e = (_, refl, shown-last (nb == line_size) ∙ cc e)
  dump_from-Shows (suc left) addr nb bs e =
      let (b, rest, here, later, same) =
        with_first-some (mem addr) (read_bytes mem (addr + 1) left) e in
      let full = nb - 1 == 0 in
      rw same (
        with_byte-Shows (mem addr) b rest _ _ _ here
          (shown-if (nb == line_size) (address_print f reference addr)
            (shown-address_print f reference addr))
          (shown-if_line_end full)
          (dump_from-Shows left (addr + 1) (if full then line_size else nb - 1) rest later))

  pub mem_dump-Shows :
      (start stop : ℕ) (bs : List ℕ)
      → line_size ≢ 0
      → read_bytes mem start (stop - start) ≡ some bs
      → Shows bs (mem_dump_with_options mem reference start stop f line_size)
  unfolding mem_dump_with_options
  mem_dump-Shows start stop bs some_size e =
      rw (nonzero line_size some_size) (dump_from-Shows (stop - start) start line_size bs e)

-- A read of bytes is two reads, one after the other.
