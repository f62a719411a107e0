-- ===== src/Cache/WriteByte.antt =====
-- `cache_write_byte` of cache_mng.c: a read of the word around the byte, then a write of it.
use kaby_lake_cache_c.Base.{ℕ, ◌*◌, bit_and, bit_or, u32, Option, some, ◌<<<◌}
use kaby_lake_cache_c.Outcome.{
  err_none, err_bad_parameter, Outcome, returned, refused, fault, ◌>>=◌,
}
use kaby_lake_cache_c.Addr.{PhyAddr, phy_addr_to_uint32}
use kaby_lake_cache_c.Memory.{Memory}
use kaby_lake_cache_c.TlbHrchy.{access_data}
use kaby_lake_cache_c.Cache.{Cache}
use kaby_lake_cache_c.Cache.Read.{Caches, Machine, cache_read}
use kaby_lake_cache_c.Cache.Write.{Store, WriteMachine, cache_write}

-- The outcome of `cache_write` looked at by M_REQUIRE.
abbrev pub after_write : Outcome Store → Store → Outcome Store
after_write (returned err_none s) before = returned err_none s
after_write (returned _ s) before = returned err_bad_parameter s
after_write (refused _) before = returned err_bad_parameter before
after_write fault before = fault

-- The byte is joined to the word by `|=`; the old byte is not cleared.
abbrev pub after_word : Outcome Caches → PhyAddr → (byte : ℕ) → WriteMachine → Store → Outcome Store
after_word (returned err_none s) p byte m before =
    let byte_select = bit_and (phy_addr_to_uint32 (some p)) 0b11 in
    let word = bit_or s.word (u32 (byte <<< (8 * byte_select))) in
    let s' = record before { l1 = s.l1; l2 = s.l2 } in
    after_write (cache_write (some s'.mem) (some p) (some s'.l1) (some s'.l2) (some word) m) s'
after_word (returned _ s) p byte m before =
    returned err_bad_parameter (record before { l1 = s.l1; l2 = s.l2 })
after_word (refused _) p byte m before = returned err_bad_parameter before
after_word fault p byte m before = fault

-- `cell` is the memory that `malloc` gives for the word, with what is in it.
unfoldable pub cache_write_byte :
    Option Memory
    → Option PhyAddr
    → Option Cache
    → Option Cache
    → Option ℕ
    → (cell : Option ℕ) → Machine
    → WriteMachine
    → Outcome Store
cache_write_byte mem_space paddr l1_cache l2 p_byte cell m n = do
  mem ← mem_space
  p ← paddr
  t1 ← l1_cache
  t2 ← l2
  byte ← p_byte
  word ← cell
  after_word (cache_read (some mem) (some p) access_data (some t1) (some t2) (some word) m) p byte n
      (record { mem = mem; l1 = t1; l2 = t2 })
