-- ===== src/Cache/Transparent.antt =====
-- With an empty level-2 cache, as every run from flushed caches has it, `cache_read` gives the words
-- of memory.
use kaby_lake_cache_c.Base.{
  ℕ, ◌+◌, ◌*◌, ◌/◌, ◌%◌, ◌^◌, ◌<◌, ◌≡◌, ◌≢◌, ◌⊎◌, inl, inr, refl, ◌∙◌, arith, true, none, some,
  Option-cases, eq→==, ◌>>>◌,
}
use kaby_lake_cache_c.Outcome.{err_none, Outcome, returned}
use kaby_lake_cache_c.Addr.{PhyAddr, phy_addr_to_uint32}
use kaby_lake_cache_c.Addr.Fields.{IsPhyAddr, uint32-sum}
use kaby_lake_cache_c.Memory.{Memory, load32}
use kaby_lake_cache_c.TlbHrchy.{MemAccess, instruction, access_data}
use kaby_lake_cache_c.Cache.{
  CacheKind, l2_cache, ways, lines, tag_remaining_bits, Line, word_at, zero_line, CacheEntry, Cache,
  slot, load_line,
}
use kaby_lake_cache_c.Cache.Lru.{lru_age_update}
use kaby_lake_cache_c.Cache.Hit.{hit_from}
use kaby_lake_cache_c.Cache.Ages.{lru_age_update-SameButAge}
use kaby_lake_cache_c.Cache.Contents.{
  Holds, Holds-lru_age_update, index_fits, load_line-word, hit_from_sound,
}
use kaby_lake_cache_c.Cache.Correct.{
  found_way, find_line-result, word_select, ways-lt, found-word, entry_at-holds, insert_new-word,
  Holds-insert_new, line_1-index,
}
use kaby_lake_cache_c.Cache.Read.{
  Caches, Machine, kind_of, new_entry, insert_new, not_hit, read_l2, read, cache_read,
}

abbrev pub IsEmpty : Cache → Type 0
IsEmpty t = (j : ℕ) → (t j).v ≡ 0

empty-found_way : (t : Cache) (addr : ℕ) → IsEmpty t → found_way l2_cache t addr ≡ none
unfolding hit_from
empty-found_way t addr h = ground (arith, h (slot l2_cache (addr / 16 % 512) 0))

module _ (mem : Memory) (k : CacheKind) (m : Machine) (s : Caches) (addr : ℕ) where
  -- A hit in the level-1 cache.
  pub read-hit :
      (w : ℕ)
      → w < ways k
      → found_way k s.l1 addr ≡ some w
      → read mem addr k m s
        ≡ returned err_none (record s {
          l1 = lru_age_update k w (addr / 16 % lines k) s.l1;
          word = word_at (s.l1 (slot k (addr / 16 % lines k) w)).line (addr % 16 / 4);
        })
  unfolding read
  read-hit w hw e =
      let line =
        (lru_age_update-SameButAge k w (addr / 16 % lines k) s.l1
          (slot k (addr / 16 % lines k) w)).2 in
      rw (find_line-result k s.l1 zero_line addr (some w) e, ways-lt k w hw, line, word_select addr)
        refl

  -- A miss in both caches.
  read-miss :
      found_way k s.l1 addr ≡ none
      → IsEmpty s.l2
      → read mem addr k m s ≡ not_hit mem addr (addr % 16 / 4) k m s
  unfolding read read_l2
  read-miss e empty =
      rw
        (
          find_line-result k s.l1 zero_line addr none e,
          find_line-result l2_cache s.l2 zero_line addr none (empty-found_way s.l2 addr empty),
          word_select addr,
        )
        refl

module _ (mem : Memory) (k : CacheKind) (level1 : lines k ≡ 64) (m : Machine) (s : Caches)
    (addr : ℕ) (empty : IsEmpty s.l2) where
  pub miss-insert_new :
      (e : CacheEntry)
      → m.malloc ≡ true
      → new_entry mem addr k m ≡ some e
      → found_way k s.l1 addr ≡ none
      → read mem addr k m s
        ≡ returned err_none (insert_new k (addr / 16 % lines k) (addr % 16 / 4) e s)
  miss-insert_new e given made miss =
      read-miss mem k m s addr miss empty
      ∙ unfold not_hit in rw (given, made, line_1-index addr, level1)

  pub fresh-insert_new :
      m.malloc ≡ true
      → addr % 16 ≢ 0
      → found_way k s.l1 addr ≡ none
      → read mem addr k m s
        ≡ returned err_none (insert_new k (addr / 16 % lines k) (addr % 16 / 4) m.fresh s)
  fresh-insert_new given inside miss =
      miss-insert_new m.fresh given (unfold new_entry in ground arith) miss

-- The call returns ERR_NONE with the word that memory has at the address, its last two bits dropped,
-- and with caches that hold what memory has.
abbrev pub ReadsWord : Memory → CacheKind → (addr : ℕ) → Outcome Caches → Type 0
ReadsWord mem k addr r =
    (s : Caches) × (r ≡ returned err_none s)
    × (load32 mem (addr / 4 * 4) ≡ some s.word)
    × Holds mem k s.l1
    × IsEmpty s.l2

module _ (mem : Memory) (k : CacheKind) (level1 : lines k ≡ 64) (m : Machine) (s : Caches)
    (addr : ℕ) (small : addr < 2 ^ 32) (held : Holds mem k s.l1) (empty : IsEmpty s.l2) where
  hit-ReadsWord :
      (w : ℕ) → found_way k s.l1 addr ≡ some w → ReadsWord mem k addr (read mem addr k m s)
  hit-ReadsWord w e =
      let inside =
        (hit_from_sound k s.l1 (addr / 16 % lines k) (addr >>> tag_remaining_bits k) (ways k) 0
          (ways k) w (omega arith) e).0 in
      (
        _,
        read-hit mem k m s addr w inside e,
        found-word mem k s.l1 addr w held e,
        Holds-lru_age_update mem k w (addr / 16 % lines k) s.l1 held,
        empty,
      )

  miss-ReadsWord :
      (l : Line)
      → m.malloc ≡ true
      → addr % 16 ≡ 0
      → load_line mem addr ≡ some l
      → found_way k s.l1 addr ≡ none
      → ReadsWord mem k addr (read mem addr k m s)
  miss-ReadsWord l given begin there miss =
      let place : addr + 4 * (addr % 16 / 4) ≡ addr / 4 * 4 = omega arith in
      let (e, made, line, holds) = entry_at-holds mem k addr l small begin there in
      (
        insert_new k (addr / 16 % lines k) (addr % 16 / 4) e s,
        miss-insert_new mem k level1 m s addr empty e given
            (unfold new_entry in rw (eq→== _ _ begin) made) miss,
        rw (insert_new-word k (addr / 16 % lines k) (addr % 16 / 4) e s (index_fits k addr), line)
            (rw place at (load_line-word mem addr (addr % 16 / 4) (omega arith) there)),
        Holds-insert_new mem k (addr / 16 % lines k) (addr % 16 / 4) e s (index_fits k addr) holds
            held,
        unfold insert_new in empty,
      )

pub level1_lines : (access : MemAccess) → lines (kind_of access) ≡ 64
level1_lines instruction = refl
level1_lines access_data = refl

-- `cache_read` on two caches, no pointer being NULL.
abbrev pub read_call : Memory → PhyAddr → MemAccess → Machine → Caches → Outcome Caches
read_call mem p access m s =
    cache_read (some mem) (some p) access (some s.l1) (some s.l2) (some s.word) m

module _ (mem : Memory) (access : MemAccess) (m : Machine) (given : m.malloc ≡ true) (s : Caches)
    (p : PhyAddr) (hp : IsPhyAddr p) (held : Holds mem (kind_of access) s.l1)
    (empty : IsEmpty s.l2) where
  addr_small : phy_addr_to_uint32 (some p) < 2 ^ 32
  addr_small = omega (arith, uint32-sum p hp, hp.page, hp.offset)

  -- The level-1 cache holds lines of memory, the level-2 cache is empty, and `malloc` succeeds. Then
  -- for an address that the level-1 cache has, or that is the begin of a line of memory, `cache_read`
  -- returns ERR_NONE and the word of memory at the address with its last two bits dropped, and
  -- leaves caches of the same kind.
  pub cache_read-ReadsWord :
      (found_way (kind_of access) s.l1 (phy_addr_to_uint32 (some p)) ≢ none)
        ⊎ ((phy_addr_to_uint32 (some p) % 16 ≡ 0)
            × ((l : Line) × (load_line mem (phy_addr_to_uint32 (some p)) ≡ some l)))
      → ReadsWord mem (kind_of access) (phy_addr_to_uint32 (some p)) (read_call mem p access m s)
  unfolding cache_read
  cache_read-ReadsWord h =
      let addr = phy_addr_to_uint32 (some p) in
      let k = kind_of access in
      elim (Option-cases (found_way k s.l1 addr)) [
        | inr (w, hit) ↦
            hit-ReadsWord mem k (level1_lines access) m s addr addr_small held empty w hit
        | inl miss ↦ elim h [
          | inl found ↦ absurd (found miss)
          | inr (begin, there) ↦
              miss-ReadsWord mem k (level1_lines access) m s addr addr_small held empty there.0
                given begin there.1 miss
        ]
      ]
