-- ===== src/Cache/Write/Stored.antt =====
-- Memory after a line was stored in it.
use kaby_lake_cache_c.Base.{
  ℕ, ◌+◌, ◌-◌, ◌*◌, ◌/◌, ◌%◌, ◌^◌, ◌<◌, ◌≡◌, refl, ◌∙◌, ap, sym, arith, Option, some, if◌then◌else◌,
  leb, ltb, ◌&&◌,
}
use kaby_lake_cache_c.Memory.{Memory, load32, join_bytes}
use kaby_lake_cache_c.Cache.{Line, word_at, load_line, join_words}
use kaby_lake_cache_c.Cache.Write.{set_word, byte_at}

-- Memory after a line was stored at `a`.
abbrev pub after_store : Memory → ℕ → Line → Memory
after_store mem a l j = if leb a j && ltb j (a + 16) then some (byte_at l (j - a)) else mem j

after_store-byte :
    (mem : Memory) (a i : ℕ) (l : Line) → i < 16 → after_store mem a l (a + i) ≡ some (byte_at l i)
after_store-byte mem a i l h = let back : a + i - a ≡ i = omega arith in rw back (ground (arith, h))

word_bytes :
    (w : ℕ)
    → w % 256 + w / 2 ^ 8 % 256 * 2 ^ 8 + w / 2 ^ 16 % 256 * 2 ^ 16 + w / 2 ^ 24 % 256 * 2 ^ 24
      ≡ w % 2 ^ 32
word_bytes w = omega arith

word_byte :
    (mem : Memory) (a i b : ℕ) (l : Line)
    → i < 4
    → b < 4
    → after_store mem a l (a + i * 4 + b) ≡ some (word_at l i / 2 ^ (b * 8) % 256)
word_byte mem a i b l hi hb =
    let at : a + i * 4 + b ≡ a + (i * 4 + b) = omega arith in
    let word : (i * 4 + b) / 4 ≡ i = omega arith in
    let byte : (i * 4 + b) % 4 ≡ b = omega arith in
    ap (after_store mem a l) at
    ∙ after_store-byte mem a (i * 4 + b) l (omega arith)
    ∙ rw (word, byte) refl

first_byte :
    (mem : Memory) (a i : ℕ) (l : Line)
    → i < 4
    → after_store mem a l (a + i * 4) ≡ some (word_at l i % 256)
first_byte mem a i l hi =
    let at : a + i * 4 ≡ a + i * 4 + 0 = omega arith in
    let one : word_at l i / 1 ≡ word_at l i = omega arith in
    ap (after_store mem a l) at ∙ word_byte mem a i 0 l hi (omega arith) ∙ rw one refl

joined :
    {o0 o1 o2 o3 : Option ℕ} (w : ℕ)
    → o0 ≡ some (w % 256)
    → o1 ≡ some (w / 2 ^ 8 % 256)
    → o2 ≡ some (w / 2 ^ 16 % 256)
    → o3 ≡ some (w / 2 ^ 24 % 256)
    → join_bytes o0 o1 o2 o3 ≡ some (w % 2 ^ 32)
unfolding join_bytes
joined w e0 e1 e2 e3 = rw (e0, e1, e2, e3) (ap some (word_bytes w))

-- Any word of the line reads back.
pub after_store-load32 :
    (mem : Memory) (a i : ℕ) (l : Line)
    → i < 4
    → load32 (after_store mem a l) (a + i * 4) ≡ some (word_at l i % 2 ^ 32)
unfolding load32
after_store-load32 mem a i l h =
    joined (word_at l i) (first_byte mem a i l h) (word_byte mem a i 1 l h (omega arith))
      (word_byte mem a i 2 l h (omega arith)) (word_byte mem a i 3 l h (omega arith))

-- The word of an index is the one that was set.
pub set_word-word_at : (l : Line) (i w : ℕ) → i < 4 → word_at (set_word l i w) i ≡ w
set_word-word_at l i w h = ground arith

pub joined_words :
    {o0 o1 o2 o3 : Option ℕ} {w0 w1 w2 w3 : ℕ}
    → o0 ≡ some w0
    → o1 ≡ some w1
    → o2 ≡ some w2
    → o3 ≡ some w3
    → join_words o0 o1 o2 o3 ≡ some (record { w0 = w0; w1 = w1; w2 = w2; w3 = w3 })
unfolding join_words
joined_words e0 e1 e2 e3 = rw (e0, e1, e2, e3) refl

-- After a store the line of memory is there.
pub after_store-line :
    (mem : Memory) (a : ℕ) (l : Line) → (l' : Line) × (load_line (after_store mem a l) a ≡ some l')
unfolding load_line
after_store-line mem a l =
    let at : a + 0 * 4 ≡ a = omega arith in
    let e0 =
      ap (load32 (after_store mem a l)) (sym at) ∙ after_store-load32 mem a 0 l (omega arith) in
    let l' : Line = record {
      w0 = l.w0 % 2 ^ 32;
      w1 = l.w1 % 2 ^ 32;
      w2 = l.w2 % 2 ^ 32;
      w3 = l.w3 % 2 ^ 32;
    } in
    (
      l',
      joined_words e0 (after_store-load32 mem a 1 l (omega arith))
          (after_store-load32 mem a 2 l (omega arith)) (after_store-load32 mem a 3 l (omega arith)),
    )
