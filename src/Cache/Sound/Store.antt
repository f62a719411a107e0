-- ===== src/Cache/Sound/Store.antt =====
-- The store of a line with one new word at the begin of a line of memory, as a store of this word
-- alone, and what it means for the lines that a cache holds.
use kaby_lake_cache_c.Base.{
  ◌⊎◌, ℕ, ◌+◌, ◌-◌, ◌*◌, ◌/◌, ◌%◌, ◌^◌, ◌<◌, ◌≤◌, ◌≡◌, ◌≢◌, inl, inr, refl, ◌∙◌, ap, subst, ◌==◌,
  arith, true, false, some, if◌then◌else◌, leb, ltb, ◌&&◌, fun_ext, Bool-cases,
}
use kaby_lake_cache_c.Memory.{Memory, IsMemory, load32}
use kaby_lake_cache_c.Cache.{CacheKind, Line, word_at, CacheEntry, load_line}
use kaby_lake_cache_c.Cache.Bytes.{byte_in_word}
use kaby_lake_cache_c.Cache.Contents.{line_address, EntryHolds, load_line-word}
use kaby_lake_cache_c.Cache.Write.{set_word, byte_at}
use kaby_lake_cache_c.Cache.Write.Stored.{after_store}

-- A flat memory in which one word is stored.
abbrev pub put_word : Memory → (addr word : ℕ) → Memory
put_word mem addr word j =
    if leb addr j && ltb j (addr + 4) then some (word / 2 ^ ((j - addr) * 8) % 256) else mem j

load_line-byte :
    (mem : Memory) (a i : ℕ) (l : Line)
    → IsMemory mem
    → load_line mem a ≡ some l
    → i < 16
    → mem (a + i) ≡ some (byte_at l i)
load_line-byte mem a i l ok there h =
    let at : a + i ≡ a + 4 * (i / 4) + i % 4 = omega arith in
    ap mem at
    ∙ byte_in_word mem (a + 4 * (i / 4)) (i % 4) (word_at l (i / 4)) ok
        (load_line-word mem a (i / 4) (omega arith) there) (omega arith)

stored_byte :
    (mem : Memory) (addr word i : ℕ) (l : Line)
    → IsMemory mem
    → load_line mem addr ≡ some l
    → i < 16
    → some (byte_at (set_word l 0 word) i) ≡ put_word mem addr word (addr + i)
stored_byte mem addr word i l ok there h =
    let back : addr + i - addr ≡ i = omega arith in
    let from : leb addr (addr + i) ≡ true = ground arith in
    elim (Bool-cases (ltb i 4)) [
      | inl low ↦
          let first : i / 4 ≡ 0 = ground arith in
          let byte : i % 4 ≡ i = ground arith in
          let to : ltb (addr + i) (addr + 4) ≡ true = ground arith in
          rw (first, byte, from, to, back) refl
      | inr high ↦
          let to : ltb (addr + i) (addr + 4) ≡ false = ground arith in
          let later : (i / 4 == 0) ≡ false = ground arith in
          rw (from, to, load_line-byte mem addr i l ok there h, later) refl
    ]

-- The 16 bytes that are stored change one word.
pub after_store-put_word :
    (mem : Memory) (addr word : ℕ) (l : Line)
    → IsMemory mem
    → load_line mem addr ≡ some l
    → after_store mem addr (set_word l 0 word) ≡ put_word mem addr word
after_store-put_word mem addr word l ok there = fun_ext λ j.
    elim (Bool-cases (leb addr j && ltb j (addr + 16))) [
      | inl inside ↦
          let at : addr + (j - addr) ≡ j = ground arith in
          rw inside (
            subst (λ x. some (byte_at (set_word l 0 word) (j - addr)) ≡ put_word mem addr word x) at
              (stored_byte mem addr word (j - addr) l ok there (ground arith)))
      | inr outside ↦
          let apart : (leb addr j && ltb j (addr + 4)) ≡ false = ground arith in
          rw (outside, apart) refl
    ]

pub put_word-IsMemory :
    (mem : Memory) (addr word : ℕ) → IsMemory mem → IsMemory (put_word mem addr word)
put_word-IsMemory mem addr word ok j = elim (Bool-cases (leb addr j && ltb j (addr + 4))) [
  | inl inside ↦ rw inside (omega arith)
  | inr outside ↦ rw outside (ok j)
]

put_word-outside :
    (mem : Memory) (addr word j : ℕ)
    → (j < addr) ⊎ (addr + 4 ≤ j)
    → put_word mem addr word j ≡ mem j
put_word-outside mem addr word j out =
    let apart : (leb addr j && ltb j (addr + 4)) ≡ false = ground arith in rw apart refl

pub put_word-load32 :
    (mem : Memory) (addr word a : ℕ)
    → (a + 4 ≤ addr) ⊎ (addr + 4 ≤ a)
    → load32 (put_word mem addr word) a ≡ load32 mem a
unfolding load32
put_word-load32 mem addr word a out =
    let out' : (i : ℕ) → i < 4 → (a + i < addr) ⊎ (addr + 4 ≤ a + i) = λ i h. ground arith in
    rw
      (
        put_word-outside mem addr word a (ground arith),
        put_word-outside mem addr word (a + 1) (out' 1 (omega arith)),
        put_word-outside mem addr word (a + 2) (out' 2 (omega arith)),
        put_word-outside mem addr word (a + 3) (out' 3 (omega arith)),
      )
      refl

-- A line of memory apart from the word is as before.
pub put_word-load_line :
    (mem : Memory) (addr word a : ℕ)
    → (a + 16 ≤ addr) ⊎ (addr + 4 ≤ a)
    → load_line (put_word mem addr word) a ≡ load_line mem a
unfolding load_line
put_word-load_line mem addr word a out =
    rw
      (
        put_word-load32 mem addr word a (ground arith),
        put_word-load32 mem addr word (a + 4) (ground arith),
        put_word-load32 mem addr word (a + 8) (ground arith),
        put_word-load32 mem addr word (a + 12) (ground arith),
      )
      refl

-- A valid entry of another line of memory still holds it.
pub EntryHolds-put_word :
    (mem : Memory) (addr word : ℕ) (k : CacheKind) (li : ℕ) (e : CacheEntry)
    → addr % 16 ≡ 0
    → (e.v ≢ 0 → line_address k e.tag li ≢ addr)
    → EntryHolds mem k li e
    → EntryHolds (put_word mem addr word) k li e
EntryHolds-put_word mem addr word k li e begin apart h valid =
    let other = apart valid in
    put_word-load_line mem addr word (line_address k e.tag li) (ground arith) ∙ h valid
