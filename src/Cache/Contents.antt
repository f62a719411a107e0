-- ===== src/Cache/Contents.antt =====
-- What a cache holds of the memory: every valid entry is the line of memory that its tag and its
-- position name. Searching, ageing and inserting, read that way.
use kaby_lake_cache_c.Base.{
  ℕ, zero, suc, ◌+◌, ◌*◌, ◌/◌, ◌%◌, ◌^◌, ◌<◌, ◌≡◌, ◌≢◌, ◌⊎◌, inl, refl, ◌∙◌, arith, Option, some,
  ◌>>>◌,
}
use kaby_lake_cache_c.Addr.{bits}
use kaby_lake_cache_c.Memory.{Memory, load32}
use kaby_lake_cache_c.Cache.{
  CacheKind, l1_icache, l1_dcache, l2_cache, ways, lines, tag_remaining_bits, tag_bits, Line,
  word_at, CacheEntry, Cache, slot, hit_way_miss, load_line, join_words,
}
use kaby_lake_cache_c.Cache.Lru.{lru_age_update, place_from}
use kaby_lake_cache_c.Cache.Hit.{hit_from}
use kaby_lake_cache_c.Cache.Ages.{lru_age_update-SameButAge}

-- The address of the first byte of a line.
abbrev pub line_address : CacheKind → (tag li : ℕ) → ℕ
line_address k tag li = (tag * lines k + li) * 16

abbrev pub EntryHolds : Memory → CacheKind → (li : ℕ) → CacheEntry → Type 0
EntryHolds mem k li e = e.v ≢ 0 → load_line mem (line_address k e.tag li) ≡ some e.line

abbrev pub Holds : Memory → CacheKind → Cache → Type 0
Holds mem k t = (li w : ℕ) → li < lines k → w < ways k → EntryHolds mem k li (t (slot k li w))

-- Ageing does not touch what a cache holds.
pub Holds-lru_age_update :
    (mem : Memory) (k : CacheKind) (way index : ℕ) (t : Cache)
    → Holds mem k t
    → Holds mem k (lru_age_update k way index t)
Holds-lru_age_update mem k way index t h li w hli hw valid =
    let (v, tag, line) = lru_age_update-SameButAge k way index t (slot k li w) in
    rw (tag, line) (h li w hli hw (λ e. valid (v ∙ e)))

pub slot_injective :
    (k : CacheKind) (li w li' w' : ℕ)
    → w < ways k
    → w' < ways k
    → slot k li w ≡ slot k li' w'
    → (li ≡ li') × (w ≡ w')
slot_injective l1_icache li w li' w' h h' e = (omega arith, omega arith)
slot_injective l1_dcache li w li' w' h h' e = (omega arith, omega arith)
slot_injective l2_cache li w li' w' h h' e = (omega arith, omega arith)

-- The position and the tag of an address name its line.
pub line_address-split :
    (k : CacheKind) (addr : ℕ)
    → line_address k (addr >>> tag_remaining_bits k) (addr / 16 % lines k) + addr % 16 ≡ addr
line_address-split l1_icache addr = omega arith
line_address-split l1_dcache addr = omega arith
line_address-split l2_cache addr = omega arith

pub tag_fits :
    (k : CacheKind) (addr : ℕ)
    → addr < 2 ^ 32
    → bits (tag_bits k) (addr >>> tag_remaining_bits k) ≡ addr >>> tag_remaining_bits k
tag_fits l1_icache addr h = omega arith
tag_fits l1_dcache addr h = omega arith
tag_fits l2_cache addr h = omega arith

pub index_fits : (k : CacheKind) (addr : ℕ) → addr / 16 % lines k < lines k
index_fits l1_icache addr = omega arith
index_fits l1_dcache addr = omega arith
index_fits l2_cache addr = omega arith

-- A way found by the loop of `hit` holds the tag.
pub hit_from_sound :
    (k : CacheKind) (t : Cache) (li tag left i n w : ℕ)
    → i + left ≡ n
    → hit_from k t li tag left i ≡ some w
    → (w < n) × ((t (slot k li w)).v ≡ 1) × ((t (slot k li w)).tag ≡ tag)
unfolding hit_from
hit_from_sound k t li tag zero i n w e h = cc
hit_from_sound k t li tag (suc left) i n w e h =
    ground (arith, hit_from_sound k t li tag left (i + 1) n w)

-- The place that is found is one of the ways.
pub place_from-lt :
    (k : CacheKind) (t : Cache) (li left i n : ℕ)
    → i + left ≡ n
    → (place_from k t li left i ≡ hit_way_miss) ⊎ (place_from k t li left i < n)
unfolding place_from
place_from-lt k t li zero i n e = inl refl
place_from-lt k t li (suc left) i n e = ground (arith, place_from-lt k t li left (i + 1) n)

-- The words of a line that was read from memory.
join_words-some :
    (a b c d : Option ℕ) {l : Line}
    → join_words a b c d ≡ some l
    → (a ≡ some l.w0) × (b ≡ some l.w1) × (c ≡ some l.w2) × (d ≡ some l.w3)
unfolding join_words
join_words-some (some a) (some b) (some c) (some d) e = (cc, cc, cc, cc)
join_words-some _ _ _ _ e = absurd (cc)

pub load_line-word :
    (mem : Memory) (a i : ℕ) {l : Line}
    → i < 4
    → load_line mem a ≡ some l
    → load32 mem (a + 4 * i) ≡ some (word_at l i)
unfolding load_line
load_line-word mem a i h e = ground (
  arith,
  join_words-some (load32 mem a) (load32 mem (a + 4)) (load32 mem (a + 8)) (load32 mem (a + 12)) e,
)
