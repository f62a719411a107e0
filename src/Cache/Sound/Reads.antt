-- ===== src/Cache/Sound/Reads.antt =====
-- `cache_read` at the begin of a line of memory keeps the invariant.
use kaby_lake_cache_c.Base.{
  ℕ, ◌+◌, ◌*◌, ◌/◌, ◌%◌, ◌^◌, ◌<◌, ◌≡◌, inl, inr, arith, true, none, some, Option-cases, eq→==,
  ◌>>>◌,
}
use kaby_lake_cache_c.Outcome.{err_none, returned, Outcome}
use kaby_lake_cache_c.Addr.{PhyAddr, phy_addr_to_uint32}
use kaby_lake_cache_c.Addr.Fields.{IsPhyAddr}
use kaby_lake_cache_c.Memory.{Memory, load32}
use kaby_lake_cache_c.TlbHrchy.{MemAccess}
use kaby_lake_cache_c.Cache.{CacheKind, ways, lines, tag_remaining_bits, Line, load_line}
use kaby_lake_cache_c.Cache.Again.{entry_at-fields, uint32-lt}
use kaby_lake_cache_c.Cache.Ages.{lru_age_update-SameButAge}
use kaby_lake_cache_c.Cache.Contents.{index_fits, tag_fits, load_line-word, hit_from_sound}
use kaby_lake_cache_c.Cache.Correct.{found_way, found-word, entry_at-holds, insert_new-word}
use kaby_lake_cache_c.Cache.Lru.{lru_age_update}
use kaby_lake_cache_c.Cache.Read.{Caches, Machine, kind_of, new_entry, insert_new, read, cache_read}
use kaby_lake_cache_c.Cache.Refill.{insert_new-Entered}
use kaby_lake_cache_c.Cache.Sound.{IsSound, same-IsSound, Entered-IsSound}
use kaby_lake_cache_c.Cache.Transparent.{
  IsEmpty, read_call, read-hit, miss-insert_new, level1_lines,
}

-- The call returns ERR_NONE with the word of memory at the address, and with sound caches.
abbrev pub SoundRead : Memory → CacheKind → (addr : ℕ) → Outcome Caches → Type 0
SoundRead mem k addr r =
    (s : Caches) × (r ≡ returned err_none s)
    × (load32 mem addr ≡ some s.word)
    × IsSound mem k s.l1
    × IsEmpty s.l2

module _ (mem : Memory) (k : CacheKind) (level1 : lines k ≡ 64) (m : Machine) (s : Caches)
    (addr : ℕ) (begin : addr % 16 ≡ 0) (sound : IsSound mem k s.l1) (empty : IsEmpty s.l2) where
  hit-SoundRead :
      (w : ℕ) → found_way k s.l1 addr ≡ some w → SoundRead mem k addr (read mem addr k m s)
  hit-SoundRead w e =
      let li = addr / 16 % lines k in
      let inside =
        (hit_from_sound k s.l1 li (addr >>> tag_remaining_bits k) (ways k) 0 (ways k) w
          (omega arith) e).0 in
      let at : addr / 4 * 4 ≡ addr = omega arith in
      (
        _,
        read-hit mem k m s addr w inside e,
        rw at at (found-word mem k s.l1 addr w sound.holds e),
        same-IsSound k s.l1 (lru_age_update k w li s.l1) (lru_age_update-SameButAge k w li s.l1) mem
            sound,
        empty,
      )

  miss-SoundRead :
      (l : Line)
      → addr < 2 ^ 32
      → m.malloc ≡ true
      → load_line mem addr ≡ some l
      → found_way k s.l1 addr ≡ none
      → SoundRead mem k addr (read mem addr k m s)
  miss-SoundRead l small given there miss =
      let li = addr / 16 % lines k in
      let sel = addr % 16 / 4 in
      let (e, made, line, holds) = entry_at-holds mem k addr l small begin there in
      let (one, tag) = entry_at-fields mem k addr e made in
      let fits = tag_fits k addr small in
      let first : sel ≡ 0 = omega arith in
      let place : addr + 4 * 0 ≡ addr = omega arith in
      (
        insert_new k li sel e s,
        miss-insert_new mem k level1 m s addr empty e given
            (unfold new_entry in rw (eq→== _ _ begin) made) miss,
        rw (insert_new-word k li sel e s (index_fits k addr), line, first)
            (rw place at (load_line-word mem addr 0 (omega arith) there)),
        Entered-IsSound mem k addr e s.l1 (insert_new k li sel e s).l1 (index_fits k addr)
            (insert_new-Entered k li sel e s (index_fits k addr)) miss one (rw (tag, fits) fits)
            holds sound,
        unfold insert_new in empty,
      )

-- A sound level-1 cache, an empty level-2 cache and memory from `malloc`: `cache_read` at the begin of
-- a line of memory returns ERR_NONE and the word there, and leaves such caches.
pub cache_read-SoundRead :
    (mem : Memory) (access : MemAccess) (m : Machine) (s : Caches) (p : PhyAddr) (l : Line)
    → m.malloc ≡ true
    → IsPhyAddr p
    → IsSound mem (kind_of access) s.l1
    → IsEmpty s.l2
    → phy_addr_to_uint32 (some p) % 16 ≡ 0
    → load_line mem (phy_addr_to_uint32 (some p)) ≡ some l
    → SoundRead mem (kind_of access) (phy_addr_to_uint32 (some p)) (read_call mem p access m s)
unfolding cache_read
cache_read-SoundRead mem access m s p l given hp sound empty begin there =
    let addr = phy_addr_to_uint32 (some p) in
    let k = kind_of access in
    elim (Option-cases (found_way k s.l1 addr)) [
      | inr (w, hit) ↦ hit-SoundRead mem k (level1_lines access) m s addr begin sound empty w hit
      | inl miss ↦
          miss-SoundRead mem k (level1_lines access) m s addr begin sound empty l (uint32-lt p hp)
            given there miss
    ]

-- Whatever the level-1 cache holds, `cache_read` at the begin of a line of memory returns ERR_NONE and
-- leaves an empty level-2 cache empty.
pub cache_read-Returns :
    (mem : Memory) (access : MemAccess) (m : Machine) (s : Caches) (p : PhyAddr) (l : Line)
    → m.malloc ≡ true
    → IsPhyAddr p
    → IsEmpty s.l2
    → phy_addr_to_uint32 (some p) % 16 ≡ 0
    → load_line mem (phy_addr_to_uint32 (some p)) ≡ some l
    → (s' : Caches) × (read_call mem p access m s ≡ returned err_none s') × IsEmpty s'.l2
unfolding cache_read
cache_read-Returns mem access m s p l given hp empty begin there =
    let addr = phy_addr_to_uint32 (some p) in
    let k = kind_of access in
    elim (Option-cases (found_way k s.l1 addr)) [
      | inr (w, hit) ↦
          let inside =
            (hit_from_sound k s.l1 (addr / 16 % lines k) (addr >>> tag_remaining_bits k) (ways k) 0
              (ways k) w (omega arith) hit).0 in
          (_, read-hit mem k m s addr w inside hit, empty)
      | inl miss ↦
          let (e, made, _, _) = entry_at-holds mem k addr l (uint32-lt p hp) begin there in
          (
            insert_new k (addr / 16 % lines k) (addr % 16 / 4) e s,
            miss-insert_new mem k (level1_lines access) m s addr empty e given
                (unfold new_entry in rw (eq→== _ _ begin) made) miss,
            unfold insert_new in empty,
          )
    ]
