-- ===== src/Cache/Sound/Bytes.antt =====
-- `cache_write_byte` and `cache_read_byte` at the begin of a line of memory.
use kaby_lake_cache_c.Base.{
  ℕ, ◌*◌, ◌%◌, ◌<◌, ◌≡◌, ◌∙◌, ap, sym, arith, true, some, bit_or, bit_or-lt, bit_and, bit_and_mask,
  u32, ◌<<<◌, subst,
}
use kaby_lake_cache_c.Outcome.{Outcome}
use kaby_lake_cache_c.Addr.{PhyAddr, phy_addr_to_uint32}
use kaby_lake_cache_c.Addr.Fields.{IsPhyAddr}
use kaby_lake_cache_c.Memory.{Memory, IsMemory, load32, load32-lt}
use kaby_lake_cache_c.TlbHrchy.{access_data}
use kaby_lake_cache_c.Cache.{l1_dcache, Line, CacheEntry, Cache, load_line}
use kaby_lake_cache_c.Cache.Read.{Machine}
use kaby_lake_cache_c.Cache.Sound.{IsSound}
use kaby_lake_cache_c.Cache.Sound.Reads.{cache_read-SoundRead}
use kaby_lake_cache_c.Cache.Sound.Allocate.{SoundWrite}
use kaby_lake_cache_c.Cache.Sound.Writes.{cache_write-SoundWrite}
use kaby_lake_cache_c.Cache.Transparent.{IsEmpty}
use kaby_lake_cache_c.Cache.Write.{Store, WriteMachine}
use kaby_lake_cache_c.Cache.WriteByte.{after_write, after_word, cache_write_byte}

after_write-SoundWrite :
    (mem : Memory) (addr word : ℕ) (r : Outcome Store) (s : Store)
    → SoundWrite mem addr word r
    → SoundWrite mem addr word (after_write r s)
after_write-SoundWrite mem addr word r s (s', done, changed, sound, empty) =
    (s', ap (λ x. after_write x s) done, changed, sound, empty)

module _ (mem : Memory) (ok : IsMemory mem) (p : PhyAddr) (hp : IsPhyAddr p) (m : Machine)
    (alloc : m.malloc ≡ true) (n : WriteMachine) (given : (i : ℕ) → n.malloc i ≡ true)
    (same_v1 : (e : CacheEntry) → (n.as_l1 e).v ≡ e.v)
    (same_v2 : (e : CacheEntry) → (n.as_l2 e).v ≡ e.v) (l1 l2 : Cache) where
  -- The level-1 data cache is sound for a memory of bytes, the level-2 cache is empty, level-2
  -- entries read as level-1 entries and back keep `v`, and `malloc` and `calloc` succeed. Then
  -- `cache_write_byte` at the begin of a line of memory returns ERR_NONE and stores in main memory
  -- the word that was there joined with the byte by a bitwise or, so that bits of the old byte stay,
  -- and no other byte. It leaves a level-1 data cache that is sound for the new memory and an empty
  -- level-2 cache.
  pub cache_write_byte-SoundWrite :
      (l : Line) (word byte cell : ℕ)
      → IsSound mem l1_dcache l1
      → IsEmpty l2
      → byte < 256
      → phy_addr_to_uint32 (some p) % 16 ≡ 0
      → load_line mem (phy_addr_to_uint32 (some p)) ≡ some l
      → load32 mem (phy_addr_to_uint32 (some p)) ≡ some word
      → SoundWrite mem
          (phy_addr_to_uint32 (some p))
          (bit_or word byte)
          (cache_write_byte (some mem) (some p) (some l1) (some l2) (some byte) (some cell) m n)
  unfolding cache_write_byte
  cache_write_byte-SoundWrite l word byte cell sound empty fits begin there old =
      let addr = phy_addr_to_uint32 (some p) in
      let before : Store = record { mem = mem; l1 = l1; l2 = l2 } in
      let (s, done, read, sound', empty') =
        cache_read-SoundRead mem access_data m (record { l1 = l1; l2 = l2; word = cell }) p l alloc
          hp sound empty begin there in
      let same : s.word ≡ word = cc in
      let first : u32 (byte <<< (8 * bit_and addr 0b11)) ≡ byte =
        let low : bit_and addr 0b11 ≡ 0 = bit_and_mask 2 addr ∙ omega arith in
        rw low (omega arith) in
      let stored =
        cache_write-SoundWrite mem ok p hp n given same_v1 same_v2 s.l1 s.l2 l (bit_or word byte)
          sound' empty' (bit_or-lt 32 word byte (load32-lt mem addr ok old) (omega arith)) begin
          there in
      subst (λ r. SoundWrite mem addr (bit_or word byte) (after_word r p byte n before)) (sym done)
        (rw (same, first) (after_write-SoundWrite mem addr (bit_or word byte) _ _ stored))
