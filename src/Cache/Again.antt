-- ===== src/Cache/Again.antt =====
-- A read at the begin of a line, and a second read inside the line.
use kaby_lake_cache_c.Base.{ℕ, ◌/◌, ◌%◌, ◌^◌, ◌<◌, ◌≡◌, inl, arith, true, none, some, eq→==, ◌>>>◌}
use kaby_lake_cache_c.Outcome.{err_none, returned}
use kaby_lake_cache_c.Addr.{PhyAddr, bits, phy_addr_to_uint32}
use kaby_lake_cache_c.Addr.Fields.{IsPhyAddr, uint32-sum}
use kaby_lake_cache_c.Memory.{Memory}
use kaby_lake_cache_c.TlbHrchy.{MemAccess}
use kaby_lake_cache_c.Cache.{
  CacheKind, l1_icache, l1_dcache, l2_cache, lines, tag_bits, tag_remaining_bits, Line, CacheEntry,
  entry_at, load_line,
}
use kaby_lake_cache_c.Cache.Contents.{Holds, index_fits, tag_fits}
use kaby_lake_cache_c.Cache.Correct.{found_way, entry_at-holds, Holds-insert_new}
use kaby_lake_cache_c.Cache.Filled.{IsFilled}
use kaby_lake_cache_c.Cache.Refill.{insert_new-IsFilled, insert_new-found}
use kaby_lake_cache_c.Cache.Read.{Caches, Machine, kind_of, new_entry, insert_new, cache_read}
use kaby_lake_cache_c.Cache.Transparent.{
  IsEmpty, ReadsWord, read_call, miss-insert_new, level1_lines, cache_read-ReadsWord,
}

pub entry_at-fields :
    (mem : Memory) (k : CacheKind) (addr : ℕ) (e : CacheEntry)
    → entry_at mem addr k ≡ some e
    → (e.v ≡ 1) × (e.tag ≡ bits (tag_bits k) (addr >>> tag_remaining_bits k))
unfolding entry_at
entry_at-fields mem k addr e made = (ground arith, ground arith)

pub uint32-lt : (p : PhyAddr) → IsPhyAddr p → phy_addr_to_uint32 (some p) < 2 ^ 32
uint32-lt p h = omega (arith, uint32-sum p h, h.page, h.offset)

-- Addresses of one line are searched alike.
same_line :
    (k : CacheKind) (a b : ℕ)
    → a / 16 ≡ b / 16
    → (a >>> tag_remaining_bits k) ≡ (b >>> tag_remaining_bits k)
same_line l1_icache a b e = omega arith
same_line l1_dcache a b e = omega arith
same_line l2_cache a b e = omega arith

module _ (mem : Memory) (access : MemAccess) (m : Machine) (given : m.malloc ≡ true) (s : Caches)
    (p : PhyAddr) (hp : IsPhyAddr p) (held : Holds mem (kind_of access) s.l1) (empty : IsEmpty s.l2)
    (l : Line) (q : PhyAddr) where
  -- The level-1 cache holds lines of memory, the level-2 cache is empty, `malloc` succeeds, and the
  -- cache line of the address is filled from way 0 on. A `cache_read` at the begin of a line of
  -- memory that the level-1 cache does not have returns ERR_NONE and keeps that line filled from way
  -- 0 on. After it a `cache_read` at any well-formed address inside that line of memory, whatever its
  -- offset, returns the word of memory, and leaves caches of the same kind.
  pub cache_read-again :
      phy_addr_to_uint32 (some p) % 16 ≡ 0
      → load_line mem (phy_addr_to_uint32 (some p)) ≡ some l
      → found_way (kind_of access) s.l1 (phy_addr_to_uint32 (some p)) ≡ none
      → IsFilled (kind_of access) s.l1 (phy_addr_to_uint32 (some p) / 16 % lines (kind_of access))
      → IsPhyAddr q
      → phy_addr_to_uint32 (some q) / 16 ≡ phy_addr_to_uint32 (some p) / 16
      → (s' : Caches) × (read_call mem p access m s ≡ returned err_none s')
        × IsFilled
            (kind_of access)
            s'.l1
            (phy_addr_to_uint32 (some p) / 16 % lines (kind_of access))
        × ReadsWord mem (kind_of access) (phy_addr_to_uint32 (some q)) (read_call mem q access m s')
  unfolding cache_read
  cache_read-again begin there miss filled hq same =
      let addr = phy_addr_to_uint32 (some p) in
      let k = kind_of access in
      let li = addr / 16 % lines k in
      let small : addr < 2 ^ 32 = uint32-lt p hp in
      let (e, made, line, holds) = entry_at-holds mem k addr l small begin there in
      let (one, tag) = entry_at-fields mem k addr e made in
      let fits = tag_fits k addr small in
      let found =
        insert_new-found k li (addr % 16 / 4) e s (index_fits k addr)
          (addr >>> tag_remaining_bits k) one (rw (tag, fits) fits) filled in
      (
        insert_new k li (addr % 16 / 4) e s,
        miss-insert_new mem k (level1_lines access) m s addr empty e given
            (unfold new_entry in rw (eq→== _ _ begin) made) miss,
        insert_new-IsFilled k li (addr % 16 / 4) e s (index_fits k addr) one filled,
        unfold cache_read in
            cache_read-ReadsWord mem access m given (insert_new k li (addr % 16 / 4) e s) q hq
              (Holds-insert_new mem k li (addr % 16 / 4) e s (index_fits k addr) holds held)
              (unfold insert_new in empty)
              (inl (rw (same, same_line k (phy_addr_to_uint32 (some q)) addr same) found)),
      )
