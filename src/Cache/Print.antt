-- ===== src/Cache/Print.antt =====
-- `cache_dump` of cache_mng.c with its macros, and where the row of a way stands in its output.
use kaby_lake_cache_c.Base.{
  ℕ, zero, suc, ◌+◌, ◌*◌, ◌<◌, ◌≡◌, refl, ◌∙◌, ap, sym, arith, Option, some, if◌then◌else◌,
  not_zero, u16, length, get_elem?,
}
use kaby_lake_cache_c.Outcome.{err_none, Outcome, returned, ◌>>=◌}
use mathlib.Core.List.{List, [], ◌∷◌, ◌++◌}
use kaby_lake_cache_c.Cache.{CacheKind, ways, lines, Line, CacheEntry, Cache, slot}

-- PRINT_CACHE_LINE, whose format takes a tag of 16 bits, and PRINT_INVALID_CACHE_LINE.
pub data EntryText : Type 0 where
  values : (v age tag : ℕ) → Line → EntryText
  no_values : (v : ℕ) → EntryText

-- The texts that are written: the title, the row of a way, and the end of the line.
pub data RowText : Type 0 where
  title : RowText
  row : (way index : ℕ) → EntryText → RowText
  end_of_dump : RowText

unfoldable pub print_cache_line : CacheEntry → EntryText
print_cache_line e = if not_zero e.v then values e.v e.age (u16 e.tag) e.line else no_values e.v

-- The loop over the ways of a line: `left` ways from `way`.
unfoldable pub dump_ways : CacheKind → Cache → (index left way : ℕ) → List RowText
unfolding print_cache_line
dump_ways k t index zero way = []
dump_ways k t index (suc left) way =
    row way index (print_cache_line (t (slot k index way))) ∷ dump_ways k t index left (way + 1)

-- DUMP_CACHE_TYPE: `left` lines from line `index`.
unfoldable pub dump_cache_type : CacheKind → Cache → (left index : ℕ) → List RowText
unfolding dump_ways
dump_cache_type k t zero index = []
dump_cache_type k t (suc left) index =
    dump_ways k t index (ways k) 0 ++ dump_cache_type k t left (index + 1)

-- The stream holds what was written to it.
unfoldable pub cache_dump :
    (output : Option (List RowText)) → Option Cache → CacheKind → Outcome (List RowText)
unfolding dump_cache_type
cache_dump output cache cache_type = do
  written ← output
  t ← cache
  returned err_none
      (written ++ (title ∷ (dump_cache_type cache_type t (lines cache_type) 0 ++ end_of_dump ∷ [])))

get_elem?-append :
    (xs ys : List RowText) (i : ℕ) → get_elem? (xs ++ ys) (length xs + i) ≡ get_elem? ys i
get_elem?-append [] ys i =
    let none_before : 0 + i ≡ i = omega arith in ap (get_elem? ys) none_before
get_elem?-append (x ∷ xs) ys i =
    let one_more : suc (length xs) + i ≡ suc (length xs + i) = omega arith in
    ap (get_elem? (x ∷ (xs ++ ys))) one_more ∙ get_elem?-append xs ys i

length-dump_ways :
    (k : CacheKind) (t : Cache) (index left way : ℕ) → length (dump_ways k t index left way) ≡ left
unfolding dump_ways
length-dump_ways k t index zero way = refl
length-dump_ways k t index (suc left) way = ap suc (length-dump_ways k t index left (way + 1))

-- The row of a way as the dump has it.
abbrev pub row_of : CacheKind → Cache → (index way : ℕ) → RowText
row_of k t index way = row way index (print_cache_line (t (slot k index way)))

way_row :
    (k : CacheKind) (t : Cache) (index left way i : ℕ) (rest : List RowText)
    → i < left
    → get_elem? (dump_ways k t index left way ++ rest) i ≡ some (row_of k t index (way + i))
unfolding dump_ways
way_row k t index zero way i rest h = absurd (omega arith)
way_row k t index (suc left) way zero rest h =
    let at : way + 0 ≡ way = omega arith in ap (λ x. some (row_of k t index x)) (sym at)
way_row k t index (suc left) way (suc i) rest h =
    let at : way + 1 + i ≡ way + suc i = omega arith in
    way_row k t index left (way + 1) i rest (omega arith) ∙ ap (λ x. some (row_of k t index x)) at

get_elem?-left :
    (xs ys : List RowText) (i : ℕ) {r : RowText}
    → get_elem? xs i ≡ some r
    → get_elem? (xs ++ ys) i ≡ some r
get_elem?-left [] ys i e = absurd (cc)
get_elem?-left (x ∷ xs) ys zero e = e
get_elem?-left (x ∷ xs) ys (suc i) e = get_elem?-left xs ys i e

from_zero : (n : ℕ) → 0 + n ≡ n
from_zero n = omega arith

suc_times : (i w n : ℕ) → suc i * w + n ≡ w + (i * w + n)
suc_times i w n = omega arith

line_row :
    (k : CacheKind) (t : Cache) (left index i way : ℕ)
    → i < left
    → way < ways k
    → get_elem? (dump_cache_type k t left index) (i * ways k + way)
      ≡ some (row_of k t (index + i) way)
unfolding dump_cache_type
line_row k t zero index i way h hw = absurd (omega arith)
line_row k t (suc left) index zero way h hw =
    let first : 0 * ways k + way ≡ way = omega arith in
    let here : index ≡ index + 0 = omega arith in
    let later = dump_cache_type k t left (index + 1) in
    ap (get_elem? (dump_ways k t index (ways k) 0 ++ later)) first
    ∙ way_row k t index (ways k) 0 way later hw
    ∙ ap (λ x. some (row_of k t index x)) (from_zero way)
    ∙ ap (λ x. some (row_of k t x way)) here
line_row k t (suc left) index (suc i) way h hw =
    let w = ways k in
    let firsts = dump_ways k t index w 0 in
    let later = dump_cache_type k t left (index + 1) in
    let at : suc i * w + way ≡ w + (i * w + way) = suc_times i w way in
    let here : index + 1 + i ≡ index + suc i = omega arith in
    ap (get_elem? (firsts ++ later))
      (at ∙ ap (λ n. n + (i * w + way)) (sym (length-dump_ways k t index w 0)))
    ∙ get_elem?-append firsts later (i * w + way)
    ∙ line_row k t left (index + 1) i way (omega arith) hw
    ∙ ap (λ x. some (row_of k t x way)) here

-- `cache_dump` of a cache to a stream returns ERR_NONE and keeps what was written before. After it and
-- the title stands the row of each way of each line, way by way and line by line: the row shows the
-- line's index, the way, and, if the entry is valid, its age, the low 16 bits of its tag and its
-- words.
pub cache_dump-row :
    (written : List RowText) (t : Cache) (k : CacheKind) (index way : ℕ)
    → index < lines k
    → way < ways k
    → (rows : List RowText) × (cache_dump (some written) (some t) k
        ≡ returned err_none (written ++ (title ∷ rows)))
      × (get_elem? rows (index * ways k + way)
          ≡ some (row way index (print_cache_line (t (slot k index way)))))
unfolding cache_dump
cache_dump-row written t k index way hi hw = (
  _,
  refl,
  get_elem?-left (dump_cache_type k t (lines k) 0) (end_of_dump ∷ []) (index * ways k + way) (
      line_row k t (lines k) 0 index way hi hw
      ∙ ap (λ x. some (row_of k t x way)) (from_zero index)),
)
