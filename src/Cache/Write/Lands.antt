-- ===== src/Cache/Write/Lands.antt =====
-- Where the word of a write lands in memory.
use kaby_lake_cache_c.Base.{
  Bool-cases, inl, inr, ℕ, ◌/◌, ◌%◌, ◌^◌, ◌≡◌, refl, arith, true, none, some, ◌==◌,
}
use kaby_lake_cache_c.Outcome.{err_none, Outcome, returned}
use kaby_lake_cache_c.Addr.{PhyAddr}
use kaby_lake_cache_c.Memory.{Memory, load32}
use kaby_lake_cache_c.Cache.{slot, l1_dcache, Line, CacheEntry, Cache, load_line, entry_at}
use kaby_lake_cache_c.Cache.Hit.{hit_from}
use kaby_lake_cache_c.Cache.Transparent.{IsEmpty}
use kaby_lake_cache_c.Cache.Correct.{found_way}
use kaby_lake_cache_c.Cache.Read.{Machine, new_entry}
use kaby_lake_cache_c.Cache.Write.{Store, WriteMachine}

-- The call returns ERR_NONE, and memory has the word at this address.
abbrev pub Lands : Outcome Store → (at word : ℕ) → Type 0
Lands r at word = (s : Store) × (r ≡ returned err_none s) × (load32 s.mem at ≡ some (word % 2 ^ 32))

pub new_entry-made :
    (mem : Memory) (addr : ℕ) (m : Machine) (l : Line)
    → load_line mem addr ≡ some l
    → (e : CacheEntry) × (new_entry mem addr l1_dcache m ≡ some e)
unfolding new_entry entry_at
new_entry-made mem addr m l there = elim (Bool-cases (addr % 16 == 0)) [
  | inl begin ↦ rw (begin, there) (_, refl)
  | inr inside ↦ rw inside (_, refl)
]

module _ (mem : Memory) (p : PhyAddr) (m : WriteMachine) (given : (i : ℕ) → m.malloc i ≡ true)
    (same_v : (e : CacheEntry) → (m.as_l1 e).v ≡ e.v) (l1 l2 : Cache) (empty : IsEmpty l2) where
  pub empty-view : (addr : ℕ) → found_way l1_dcache (λ j. m.as_l1 (l2 j)) addr ≡ none
  unfolding hit_from
  empty-view addr =
      let at = slot l1_dcache (addr / 16 % 64) 0 in ground (arith, empty at, same_v (l2 at))
