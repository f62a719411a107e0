-- ===== src/Cache/Sound/Held.antt =====
-- What the level-1 data cache holds of a memory in which a word at the begin of a line was stored.
use kaby_lake_cache_c.Base.{
  ℕ, ◌+◌, ◌*◌, ◌/◌, ◌%◌, ◌^◌, ◌<◌, ◌≡◌, ◌≢◌, inl, inr, ◌∙◌, ap, sym, arith, some, none, false, ◌==◌,
  ==→eq, Bool-cases, update, ◌>>>◌,
}
use kaby_lake_cache_c.Memory.{Memory, IsMemory, load32}
use kaby_lake_cache_c.Cache.{l1_dcache, Line, Cache, slot, load_line}
use kaby_lake_cache_c.Cache.Contents.{line_address, load_line-word, slot_injective}
use kaby_lake_cache_c.Cache.Correct.{found_way}
use kaby_lake_cache_c.Cache.Filled.{IsFilled}
use kaby_lake_cache_c.Cache.Sound.{IsSound, miss-new}
use kaby_lake_cache_c.Cache.Sound.Store.{
  put_word, after_store-put_word, put_word-load32, EntryHolds-put_word,
}
use kaby_lake_cache_c.Cache.Write.{set_word}
use kaby_lake_cache_c.Cache.Write.Stored.{after_store, after_store-load32, joined_words}

-- The line of memory that has the word.
pub put_word-line :
    (mem : Memory) (addr word : ℕ) (l : Line)
    → IsMemory mem
    → word < 2 ^ 32
    → load_line mem addr ≡ some l
    → load_line (put_word mem addr word) addr ≡ some (set_word l 0 word)
unfolding load_line
put_word-line mem addr word l ok small there =
    let at : addr + 0 * 4 ≡ addr = omega arith in
    let fits : word % 2 ^ 32 ≡ word = omega arith in
    let first : load32 (put_word mem addr word) addr ≡ some word =
      ap (λ x. load32 x addr) (sym (after_store-put_word mem addr word l ok there))
      ∙ ap (load32 (after_store mem addr (set_word l 0 word))) (sym at)
      ∙ after_store-load32 mem addr 0 (set_word l 0 word) (omega arith)
      ∙ ap some fits in
    joined_words first
      (put_word-load32 mem addr word (addr + 4) (inr (omega arith))
        ∙ load_line-word mem addr 1 (omega arith) there)
      (put_word-load32 mem addr word (addr + 8) (inr (omega arith))
        ∙ load_line-word mem addr 2 (omega arith) there)
      (put_word-load32 mem addr word (addr + 12) (inr (omega arith))
        ∙ load_line-word mem addr 3 (omega arith) there)

-- The address of a line names its position and its tag.
line_named :
    (tag li addr : ℕ)
    → li < 64
    → line_address l1_dcache tag li ≡ addr
    → (li ≡ addr / 16 % 64) × (tag ≡ (addr >>> 10))
line_named tag li addr h e = (omega arith, omega arith)

-- A cache that does not have the line still holds lines of memory.
pub missed-IsSound :
    (mem : Memory) (addr word : ℕ) (t : Cache)
    → addr % 16 ≡ 0
    → found_way l1_dcache t addr ≡ none
    → IsSound mem l1_dcache t
    → IsSound (put_word mem addr word) l1_dcache t
missed-IsSound mem addr word t begin miss s = record {
  holds = λ li w hli hw.
      let e = t (slot l1_dcache li w) in
      EntryHolds-put_word mem addr word l1_dcache li e begin
        (λ valid same.
          let (place, tag) = line_named e.tag li addr hli same in
          miss-new l1_dcache t addr w (s.filled (addr / 16 % 64)) miss hw
            (λ z. valid (ap (λ x. (t (slot l1_dcache x w)).v) place ∙ z))
            (ap (λ x. (t (slot l1_dcache x w)).tag) (sym place) ∙ tag))
        (s.holds li w hli hw);
  filled = s.filled;
  unique = s.unique;
}

-- The line of a hit after the word was stored in it.
module _ (t : Cache) (place : ℕ) (l : Line) where
  abbrev pub relined : Cache
  relined = update t place (record (t place) { line = l })

  relined-v : (j : ℕ) → (relined j).v ≡ (t j).v
  relined-v j = ground arith

  relined-tag : (j : ℕ) → (relined j).tag ≡ (t j).tag
  relined-tag j = ground arith

  relined-IsFilled : (li : ℕ) → IsFilled l1_dcache t li → IsFilled l1_dcache relined li
  relined-IsFilled li f = record {
    bit = λ i hi. rw (relined-v (slot l1_dcache li i)) (f.bit i hi);
    prefix = λ i j lt hj valid.
        rw (relined-v (slot l1_dcache li i))
          (f.prefix i j lt hj (λ z. valid (relined-v (slot l1_dcache li j) ∙ z)));
  }

slot_apart :
    (li i li' w : ℕ) → li ≡ li' → i ≡ w → (slot l1_dcache li i == slot l1_dcache li' w) ≢ false
slot_apart li i li' w a b e = ground arith

pub relined-IsSound :
    (mem : Memory) (addr word w : ℕ) (t : Cache)
    → IsMemory mem
    → word < 2 ^ 32
    → addr % 16 ≡ 0
    → w < 4
    → (t (slot l1_dcache (addr / 16 % 64) w)).v ≡ 1
    → (t (slot l1_dcache (addr / 16 % 64) w)).tag ≡ (addr >>> 10)
    → IsSound mem l1_dcache t
    → IsSound (put_word mem addr word) l1_dcache (
        relined t
          (slot l1_dcache (addr / 16 % 64) w)
          (set_word (t (slot l1_dcache (addr / 16 % 64) w)).line 0 word))
relined-IsSound mem addr word w t ok small begin hw valid tag s =
    let here = addr / 16 % 64 in
    let place = slot l1_dcache here w in
    let new = set_word (t place).line 0 word in
    let at : line_address l1_dcache (t place).tag here ≡ addr = omega arith in
    let there : load_line mem addr ≡ some (t place).line =
      rw at at (s.holds here w (omega arith) hw (omega arith)) in
    record {
      holds = λ li i hli hi. elim (Bool-cases (slot l1_dcache li i == place)) [
        | inl same ↦
            let (le, _) = slot_injective l1_dcache li i here w hi hw (==→eq _ _ same) in
            rw (same, le, at) (λ z. put_word-line mem addr word (t place).line ok small there)
        | inr apart ↦ rw apart (
            EntryHolds-put_word mem addr word l1_dcache li (t (slot l1_dcache li i)) begin
              (λ v q.
                let (le, tag') = line_named (t (slot l1_dcache li i)).tag li addr hli q in
                let one : i ≡ w =
                  s.unique here i w hi hw (λ z. v (ap (λ x. (t (slot l1_dcache x i)).v) le ∙ z))
                    (λ z. absurd (omega arith))
                    (ap (λ x. (t (slot l1_dcache x i)).tag) (sym le) ∙ tag' ∙ sym tag) in
                absurd (slot_apart li i here w le one apart))
              (s.holds li i hli hi))
      ];
      filled = λ li. relined-IsFilled t place new li (s.filled li);
      unique = λ li i j hi hj vi vj eq.
          s.unique li i j hi hj (λ z. vi (relined-v t place new (slot l1_dcache li i) ∙ z))
            (λ z. vj (relined-v t place new (slot l1_dcache li j) ∙ z))
            (sym (relined-tag t place new (slot l1_dcache li i))
              ∙ eq
              ∙ relined-tag t place new (slot l1_dcache li j));
    }
