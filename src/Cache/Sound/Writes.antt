-- ===== src/Cache/Sound/Writes.antt =====
-- `cache_write` at the begin of a line of memory stores the word and keeps the invariant.
use kaby_lake_cache_c.Base.{
  ℕ, ◌/◌, ◌%◌, ◌^◌, ◌<◌, ◌≡◌, inl, inr, refl, ◌∙◌, arith, true, none, some, Option-cases, eq→==,
  ◌>>>◌, subst,
}
use kaby_lake_cache_c.Outcome.{Outcome}
use kaby_lake_cache_c.Addr.{PhyAddr, phy_addr_to_uint32}
use kaby_lake_cache_c.Addr.Fields.{IsPhyAddr}
use kaby_lake_cache_c.Memory.{Memory, IsMemory}
use kaby_lake_cache_c.Cache.{l1_dcache, Line, zero_line, CacheEntry, Cache, slot, load_line}
use kaby_lake_cache_c.Cache.Again.{entry_at-fields, uint32-lt}
use kaby_lake_cache_c.Cache.Ages.{lru_age_update-SameButAge}
use kaby_lake_cache_c.Cache.Contents.{tag_fits, hit_from_sound, line_address}
use kaby_lake_cache_c.Cache.Correct.{
  found_way, find_line-result, word_select, ways-lt, entry_at-holds,
}
use kaby_lake_cache_c.Cache.Lru.{lru_age_update}
use kaby_lake_cache_c.Cache.Read.{Machine, new_entry}
use kaby_lake_cache_c.Cache.Sound.{IsSound, same-IsSound}
use kaby_lake_cache_c.Cache.Sound.Held.{put_word-line, missed-IsSound, relined, relined-IsSound}
use kaby_lake_cache_c.Cache.Sound.Store.{put_word, after_store-put_word}
use kaby_lake_cache_c.Cache.Transparent.{IsEmpty}
use kaby_lake_cache_c.Cache.Write.{
  Store, WriteMachine, set_word, allocate_new, write_miss, write_l1_hit, write_l2, write,
  cache_write,
}
use kaby_lake_cache_c.Cache.Write.Lands.{empty-view}
use kaby_lake_cache_c.Cache.Write.Stored.{after_store}
use kaby_lake_cache_c.Cache.Sound.Allocate.{SoundWrite, allocate-SoundWrite}

module _ (mem : Memory) (addr word : ℕ) (m : WriteMachine) (l : Line) (ok : IsMemory mem)
    (fits : word < 2 ^ 32) (small : addr < 2 ^ 32) (begin : addr % 16 ≡ 0)
    (given : (i : ℕ) → m.malloc i ≡ true) (there : load_line mem addr ≡ some l) where
  allocate_new-SoundWrite :
      (s : Store)
      → s.mem ≡ put_word mem addr word
      → found_way l1_dcache s.l1 addr ≡ none
      → IsSound (put_word mem addr word) l1_dcache s.l1
      → IsEmpty s.l2
      → SoundWrite mem addr word (allocate_new addr m s)
  unfolding allocate_new
  allocate_new-SoundWrite s same miss sound empty =
      let machine : Machine = record { malloc = true; fresh = m.fresh; as_l2 = m.as_l2 } in
      let (e, made, line, held) =
        entry_at-holds (put_word mem addr word) l1_dcache addr (set_word l 0 word) small begin
          (put_word-line mem addr word l ok fits there) in
      let (one, tag) = entry_at-fields (put_word mem addr word) l1_dcache addr e made in
      let tag_ok = tag_fits l1_dcache addr small in
      let new : new_entry s.mem addr l1_dcache machine ≡ some e =
        unfold new_entry in rw (eq→== _ _ begin, same) made in
      rw (given 3, new)
        (allocate-SoundWrite mem addr word e m s (given 4) same miss one (rw (tag, tag_ok) tag_ok)
          held sound empty)

  write_miss-SoundWrite :
      (t l2 : Cache)
      → found_way l1_dcache t addr ≡ none
      → IsSound mem l1_dcache t
      → IsEmpty l2
      → SoundWrite mem addr word (write_miss addr 0 word m (record { mem = mem; l1 = t; l2 = l2 }))
  unfolding write_miss
  write_miss-SoundWrite t l2 miss sound empty =
      rw (given 2, there)
        (allocate_new-SoundWrite
          (record { mem = after_store mem addr (set_word l 0 word); l1 = t; l2 = l2 })
          (after_store-put_word mem addr word l ok there) miss
          (missed-IsSound mem addr word t begin miss sound) empty)

  write_l1_hit-SoundWrite :
      (w : ℕ) (t l2 : Cache)
      → w < 4
      → (t (slot l1_dcache (addr / 16 % 64) w)).v ≡ 1
      → (t (slot l1_dcache (addr / 16 % 64) w)).tag ≡ (addr >>> 10)
      → IsSound mem l1_dcache t
      → IsEmpty l2
      → SoundWrite mem addr word (
          write_l1_hit addr 0 word
            (addr / 16 % 64)
            w
            (t (slot l1_dcache (addr / 16 % 64) w)).line
            m
            (record { mem = mem; l1 = lru_age_update l1_dcache w (addr / 16 % 64) t; l2 = l2 }))
  unfolding write_l1_hit
  write_l1_hit-SoundWrite w t l2 hw valid tag sound empty =
      let li = addr / 16 % 64 in
      let place = slot l1_dcache li w in
      let t1 = lru_age_update l1_dcache w li t in
      let same = lru_age_update-SameButAge l1_dcache w li t in
      let new = set_word (t place).line 0 word in
      let t2 = relined t1 place new in
      let sound1 = same-IsSound l1_dcache t t1 same mem sound in
      let at : line_address l1_dcache (t place).tag li ≡ addr = omega arith in
      let line : load_line mem addr ≡ some (t place).line =
        rw at at (sound.holds li w (omega arith) hw (omega arith)) in
      rw (given 2, there)
        (
          _,
          refl,
          after_store-put_word mem addr word (t place).line ok line,
          same-IsSound l1_dcache t2 (lru_age_update l1_dcache w li t2)
              (lru_age_update-SameButAge l1_dcache w li t2) (put_word mem addr word)
              (subst
                (λ x.
                  IsSound (put_word mem addr word) l1_dcache (relined t1 place (set_word x 0 word)))
                (same place).2
                (relined-IsSound mem addr word w t1 ok fits begin hw ((same place).0 ∙ valid)
                  ((same place).1 ∙ tag) sound1)),
          empty,
        )

-- `cache_write` on two caches, no pointer being NULL.
abbrev pub write_call :
    Memory → PhyAddr → (word : ℕ) → WriteMachine → (l1 l2 : Cache) → Outcome Store
write_call mem p word m l1 l2 = cache_write (some mem) (some p) (some l1) (some l2) (some word) m

module _ (mem : Memory) (ok : IsMemory mem) (p : PhyAddr) (hp : IsPhyAddr p) (m : WriteMachine)
    (given : (i : ℕ) → m.malloc i ≡ true) (same_v1 : (e : CacheEntry) → (m.as_l1 e).v ≡ e.v)
    (same_v2 : (e : CacheEntry) → (m.as_l2 e).v ≡ e.v) (l1 l2 : Cache) where
  -- The level-1 data cache is sound for a memory of bytes, the level-2 cache is empty, level-2
  -- entries read as level-1 entries and back keep `v`, and `malloc` and `calloc` succeed. Then
  -- `cache_write` of a 32-bit word at the begin of a line of memory returns ERR_NONE, stores in main
  -- memory this word and no other byte, and leaves a level-1 data cache that is sound for the new
  -- memory and an empty level-2 cache.
  pub cache_write-SoundWrite :
      (l : Line) (word : ℕ)
      → IsSound mem l1_dcache l1
      → IsEmpty l2
      → word < 2 ^ 32
      → phy_addr_to_uint32 (some p) % 16 ≡ 0
      → load_line mem (phy_addr_to_uint32 (some p)) ≡ some l
      → SoundWrite mem (phy_addr_to_uint32 (some p)) word (write_call mem p word m l1 l2)
  unfolding cache_write write
  cache_write-SoundWrite l word sound empty fits begin there =
      let addr = phy_addr_to_uint32 (some p) in
      let first : addr % 16 / 4 ≡ 0 = omega arith in
      elim (Option-cases (found_way l1_dcache l1 addr)) [
        | inr (w, hit) ↦
            let (inside, valid, tag) =
              hit_from_sound l1_dcache l1 (addr / 16 % 64) (addr >>> 10) 4 0 4 w (omega arith)
                hit in
            rw
              (
                given 0,
                given 1,
                find_line-result l1_dcache l1 zero_line addr (some w) hit,
                ways-lt l1_dcache w inside,
                word_select addr,
                first,
              )
              (write_l1_hit-SoundWrite mem addr word m l ok fits (uint32-lt p hp) begin given there
                w l1 l2 inside valid tag sound empty)
        | inl miss ↦
            rw
              (
                given 0,
                given 1,
                find_line-result l1_dcache l1 zero_line addr none miss,
                word_select addr,
                first,
              )
              (unfold write_l2 in
                rw
                  (find_line-result l1_dcache (λ j. m.as_l1 (l2 j)) zero_line addr none
                    (empty-view mem p m given same_v1 l1 l2 empty addr))
                  (write_miss-SoundWrite mem addr word m l ok fits (uint32-lt p hp) begin given
                    there l1 (λ j. m.as_l2 (m.as_l1 (l2 j))) miss sound
                    (λ j. same_v2 (m.as_l1 (l2 j)) ∙ same_v1 (l2 j) ∙ empty j)))
      ]
