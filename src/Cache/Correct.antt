-- ===== src/Cache/Correct.antt =====
-- `cache_read` gives the word of memory, on a hit in the level-1 cache and on a miss.
use kaby_lake_cache_c.Base.{
  ℕ, ◌+◌, ◌*◌, ◌/◌, ◌%◌, ◌^◌, ◌<◌, ◌≡◌, inl, inr, refl, ◌∙◌, ap, arith, bit_and, bit_and_mask,
  bit_and_even, false, Option, some, Bool-cases, ==→eq, eq→==, ◌==◌, if◌then◌else◌, ◌>>>◌,
}
use kaby_lake_cache_c.Addr.{bits}
use kaby_lake_cache_c.Memory.{Memory, load32}
use kaby_lake_cache_c.Cache.{
  CacheKind, l1_icache, l1_dcache, l2_cache, ways, lines, tag_remaining_bits, tag_bits, Line,
  word_at, CacheEntry, Cache, slot, hit_way_miss, put, entry_at, load_line,
}
use kaby_lake_cache_c.Cache.Lru.{find_place, place_from}
use kaby_lake_cache_c.Cache.Hit.{hit_from, find_line, hit_result}
use kaby_lake_cache_c.Cache.Ages.{SameButAge, lru_age_update-SameButAge}
use kaby_lake_cache_c.Cache.Ranking.{apply_lru-IsOldest}
use kaby_lake_cache_c.Cache.Contents.{
  line_address, EntryHolds, Holds, Holds-lru_age_update, slot_injective, line_address-split,
  tag_fits, index_fits, hit_from_sound, place_from-lt, load_line-word,
}
use kaby_lake_cache_c.Cache.Read.{Caches, place_or_victim, insert_new}

-- What the loop of `hit` finds for an address.
abbrev pub found_way : CacheKind → Cache → (addr : ℕ) → Option ℕ
found_way k t addr = hit_from k t (addr / 16 % lines k) (addr >>> tag_remaining_bits k) (ways k) 0

pub find_line-result :
    (k : CacheKind) (t : Cache) (l : Line) (addr : ℕ) (o : Option ℕ)
    → found_way k t addr ≡ o
    → find_line addr t l k ≡ hit_result k t l (addr / 16 % lines k) o
unfolding find_line
find_line-result k t l addr o e = rw e

pub word_select : (addr : ℕ) → bit_and addr 0b1111 >>> 2 ≡ addr % 16 / 4
word_select addr = rw (bit_and_mask 4 addr)

pub ways-lt : (k : CacheKind) (w : ℕ) → w < ways k → (w == hit_way_miss) ≡ false
ways-lt l1_icache w h = ground arith
ways-lt l1_dcache w h = ground arith
ways-lt l2_cache w h = ground arith

-- A way that is found holds the word that memory has at the address.
pub found-word :
    (mem : Memory) (k : CacheKind) (t : Cache) (addr w : ℕ)
    → Holds mem k t
    → found_way k t addr ≡ some w
    → load32 mem (addr / 4 * 4)
      ≡ some (word_at (t (slot k (addr / 16 % lines k) w)).line (addr % 16 / 4))
found-word mem k t addr w h e =
    let li = addr / 16 % lines k in
    let (inside, valid, tag) =
      hit_from_sound k t li (addr >>> tag_remaining_bits k) (ways k) 0 (ways k) w (omega arith) e in
    let held = h li w (index_fits k addr) inside (omega arith) in
    let place : line_address k (t (slot k li w)).tag li + 4 * (addr % 16 / 4) ≡ addr / 4 * 4 =
      omega (arith, line_address-split k addr, ap (λ (x : ℕ). x * lines k) tag) in
    rw place at (
      load_line-word mem (line_address k (t (slot k li w)).tag li) (addr % 16 / 4) (omega arith)
        held)

-- Every way that an entry goes to is a way of the line.
pub place_or_victim-lt : (k : CacheKind) (t : Cache) (li : ℕ) → place_or_victim t k li < ways k
unfolding find_place
place_or_victim-lt k t li = ground (
  arith,
  place_from-lt k t li (ways k) 0 (ways k),
  (apply_lru-IsOldest k t li).0,
  ways-lt k (place_from k t li (ways k) 0),
)

-- An entry as a cache stores it, but for its age.
abbrev pub stored : CacheKind → CacheEntry → CacheEntry
stored k e = record e { v = bits 1 e.v; tag = bits (tag_bits k) e.tag }

-- The entries after an insertion in range, as far as their ages do not count.
pub put-elem :
    (k : CacheKind) (li w : ℕ) (e : CacheEntry) (t : Cache) (j : ℕ)
    → li < lines k
    → w < ways k
    → SameButAge (put li w e t k j) (if j == slot k li w then stored k e else t j)
unfolding put
put-elem k li w e t j hli hw = (ground arith, ground arith, ground arith)

pub EntryHolds-same :
    (mem : Memory) (k : CacheKind) (li : ℕ) (e e' : CacheEntry)
    → SameButAge e e'
    → EntryHolds mem k li e'
    → EntryHolds mem k li e
EntryHolds-same mem k li e e' (v, tag, line) h valid = rw (tag, line) (h (λ z. valid (v ∙ z)))

pub Holds-put :
    (mem : Memory) (k : CacheKind) (li w : ℕ) (e : CacheEntry) (t : Cache)
    → li < lines k
    → w < ways k
    → EntryHolds mem k li (stored k e)
    → Holds mem k t
    → Holds mem k (put li w e t k)
Holds-put mem k li w e t hli hw held h li' w' hli' hw' =
    EntryHolds-same mem k li' (put li w e t k (slot k li' w'))
      (if slot k li' w' == slot k li w then stored k e else t (slot k li' w'))
      (put-elem k li w e t (slot k li' w') hli hw)
      (elim (Bool-cases (slot k li' w' == slot k li w)) [
        | inl same ↦ rw (same, (slot_injective k li' w' li w hw' hw (==→eq _ _ same)).0) held
        | inr other ↦ rw other (h li' w' hli' hw')
      ])

-- What a miss inserts, if the address is at the begin of a line that memory has.
pub entry_at-holds :
    (mem : Memory) (k : CacheKind) (addr : ℕ) (l : Line)
    → addr < 2 ^ 32
    → addr % 16 ≡ 0
    → load_line mem addr ≡ some l
    → (e : CacheEntry) × (entry_at mem addr k ≡ some e)
      × (e.line ≡ l)
      × EntryHolds mem k (addr / 16 % lines k) (stored k e)
unfolding entry_at
entry_at-holds mem k addr l small begin e =
    let fits = tag_fits k addr small in
    let place : line_address k (addr >>> tag_remaining_bits k) (addr / 16 % lines k) ≡ addr =
      omega (arith, line_address-split k addr) in
    rw e (_, refl, refl, λ valid. rw (fits, fits, place) e)

-- The state after a miss.
pub insert_new-word :
    (k : CacheKind) (li sel : ℕ) (e : CacheEntry) (s : Caches)
    → li < lines k
    → (insert_new k li sel e s).word ≡ word_at e.line sel
unfolding insert_new
insert_new-word k li sel e s hli =
    let w = place_or_victim s.l1 k li in
    let aged = lru_age_update-SameButAge k w li (put li w e s.l1 k) (slot k li w) in
    let stored_there = put-elem k li w e s.l1 (slot k li w) hli (place_or_victim-lt k s.l1 li) in
    let here = eq→== (slot k li w) (slot k li w) refl in
    ap (λ (l : Line). word_at l sel) (aged.2 ∙ stored_there.2 ∙ rw here)

pub Holds-insert_new :
    (mem : Memory) (k : CacheKind) (li sel : ℕ) (e : CacheEntry) (s : Caches)
    → li < lines k
    → EntryHolds mem k li (stored k e)
    → Holds mem k s.l1
    → Holds mem k (insert_new k li sel e s).l1
unfolding insert_new
Holds-insert_new mem k li sel e s hli held h =
    let w = place_or_victim s.l1 k li in
    Holds-lru_age_update mem k w li (put li w e s.l1 k)
      (Holds-put mem k li w e s.l1 hli (place_or_victim-lt k s.l1 li) held h)

-- The line index of a level-1 cache, as `cache_read` takes it from an address.
pub line_1-index :
    (addr : ℕ) → bit_and (bit_and addr 0b11_1111_0000 >>> 4) 0b11_1111 ≡ addr / 16 % 64
line_1-index addr = omega (
  arith,
  bit_and_mask 6 (bit_and addr 1008 / 16),
  bit_and_even addr 504 1008 refl,
  bit_and_even (addr / 2) 252 504 refl,
  bit_and_even (addr / 2 / 2) 126 252 refl,
  bit_and_even (addr / 2 / 2 / 2) 63 126 refl,
  bit_and_mask 6 (addr / 2 / 2 / 2 / 2),
)
