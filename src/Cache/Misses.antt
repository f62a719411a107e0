-- ===== src/Cache/Misses.antt =====
-- What a miss of `cache_read` leaves: the ages, and the entry for an address inside a line.
use kaby_lake_cache_c.Base.{
  ℕ, ◌/◌, ◌%◌, ◌<◌, ◌≡◌, ◌≢◌, refl, arith, ℕ_discrete, if◌then◌else◌, ◌==◌, true, none, some, eq→==,
}
use kaby_lake_cache_c.Outcome.{err_none, returned}
use kaby_lake_cache_c.Addr.{PhyAddr, phy_addr_to_uint32}
use kaby_lake_cache_c.Memory.{Memory}
use kaby_lake_cache_c.TlbHrchy.{MemAccess}
use kaby_lake_cache_c.Cache.{ways, lines, Line, word_at, Cache, slot, load_line}
use kaby_lake_cache_c.Cache.Contents.{index_fits}
use kaby_lake_cache_c.Cache.Correct.{place_or_victim-lt, found_way, insert_new-word}
use kaby_lake_cache_c.Cache.Read.{
  place_or_victim, Caches, Machine, kind_of, new_entry, insert_new, cache_read,
}
use kaby_lake_cache_c.Cache.Refetch.{insert_new-others, insert_new-youngest, entry_at-young}
use kaby_lake_cache_c.Cache.Transparent.{
  IsEmpty, read_call, miss-insert_new, fresh-insert_new, level1_lines,
}

-- What changes at one index alone.
elsewhere : (t' t : Cache) (i j : ℕ) → (j ≢ i → t' j ≡ t j) → t' j ≡ (if j == i then t' i else t j)
elsewhere t' t i j same = elim (ℕ_discrete j i) [
  | yes e ↦ rw (e, eq→== i i refl) refl
  | no ne ↦ ground (arith, same ne)
]

module _ (mem : Memory) (access : MemAccess) (m : Machine) (given : m.malloc ≡ true) (s : Caches)
    (p : PhyAddr) (empty : IsEmpty s.l2) where
  -- The level-2 cache is empty and `malloc` succeeds. Then for an address that is not at the begin of
  -- a line and that the level-1 cache does not have, `cache_read` returns ERR_NONE with a word of the
  -- memory that `malloc` gave, whatever main memory holds.
  pub cache_read-fresh :
      phy_addr_to_uint32 (some p) % 16 ≢ 0
      → found_way (kind_of access) s.l1 (phy_addr_to_uint32 (some p)) ≡ none
      → (s' : Caches) × (read_call mem p access m s ≡ returned err_none s')
        × (s'.word ≡ word_at m.fresh.line (phy_addr_to_uint32 (some p) % 16 / 4))
  unfolding cache_read
  cache_read-fresh inside miss =
      let addr = phy_addr_to_uint32 (some p) in
      let k = kind_of access in
      (
        insert_new k (addr / 16 % lines k) (addr % 16 / 4) m.fresh s,
        fresh-insert_new mem k (level1_lines access) m s addr empty given inside miss,
        insert_new-word k (addr / 16 % lines k) (addr % 16 / 4) m.fresh s (index_fits k addr),
      )

  -- The level-2 cache is empty and `malloc` succeeds. Then for an address at the begin of a line of
  -- memory that the level-1 cache does not have, `cache_read` returns ERR_NONE and changes one way of
  -- the address's line alone, whose age becomes 0: no other way of the level-1 cache ages.
  pub cache_read-miss_ages :
      (l : Line)
      → phy_addr_to_uint32 (some p) % 16 ≡ 0
      → load_line mem (phy_addr_to_uint32 (some p)) ≡ some l
      → found_way (kind_of access) s.l1 (phy_addr_to_uint32 (some p)) ≡ none
      → (s' : Caches) × (w : ℕ) × (read_call mem p access m s ≡ returned err_none s')
        × (w < ways (kind_of access))
        × (let place =
              slot (kind_of access) (phy_addr_to_uint32 (some p) / 16 % lines (kind_of access)) w in
            ((s'.l1 place).age ≡ 0)
            × ((j : ℕ) → s'.l1 j ≡ (if j == place then s'.l1 place else s.l1 j)))
  unfolding cache_read
  cache_read-miss_ages l begin there miss =
      let addr = phy_addr_to_uint32 (some p) in
      let k = kind_of access in
      let (e, made, young) = entry_at-young mem k addr l there in
      (
        insert_new k (addr / 16 % lines k) (addr % 16 / 4) e s,
        place_or_victim s.l1 k (addr / 16 % lines k),
        miss-insert_new mem k (level1_lines access) m s addr empty e given
            (unfold new_entry in rw (eq→== _ _ begin) made) miss,
        place_or_victim-lt k s.l1 (addr / 16 % lines k),
        (
          insert_new-youngest k (addr / 16 % lines k) (addr % 16 / 4) e s,
          λ j.
              elsewhere (insert_new k (addr / 16 % lines k) (addr % 16 / 4) e s).l1 s.l1
                (slot k (addr / 16 % lines k) (place_or_victim s.l1 k (addr / 16 % lines k))) j
                (insert_new-others k (addr / 16 % lines k) (addr % 16 / 4) e s j (index_fits k addr)
                  young),
        ),
      )
