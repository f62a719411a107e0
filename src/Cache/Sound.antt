-- ===== src/Cache/Sound.antt =====
-- The invariant of a level-1 cache in a run: it holds lines of memory, each of its lines is filled
-- from way 0 on, and no line has two valid ways with the same tag. Ageing keeps it, and so does the
-- insertion of an entry that is not there.
pub mod Store
pub mod Reads
pub mod Held
pub mod Allocate
pub mod Writes
pub mod Bytes
use kaby_lake_cache_c.Base.{ℕ, ◌/◌, ◌%◌, ◌<◌, ◌≡◌, ◌≢◌, ◌∙◌, sym, arith, none, ℕ_discrete, ◌>>>◌}
use kaby_lake_cache_c.Addr.{bits}
use kaby_lake_cache_c.Memory.{Memory}
use kaby_lake_cache_c.Cache.{
  CacheKind, ways, lines, tag_bits, tag_remaining_bits, CacheEntry, Cache, slot,
}
use kaby_lake_cache_c.Cache.Ages.{SameButAge}
use kaby_lake_cache_c.Cache.Contents.{Holds, EntryHolds}
use kaby_lake_cache_c.Cache.Correct.{stored, found_way, EntryHolds-same}
use kaby_lake_cache_c.Cache.Entered.{
  Entered, IsUnique, Entered-Holds, Entered-IsFilled, Entered-IsFilled_other, Entered-IsUnique,
  Entered-IsUnique_other,
}
use kaby_lake_cache_c.Cache.Filled.{IsFilled, hit_from_complete}
use kaby_lake_cache_c.Cache.Read.{place_or_victim}

pub record IsSound (mem : Memory) (k : CacheKind) (t : Cache) : Type 0 where
  pub holds : Holds mem k t
  pub filled : (li : ℕ) → IsFilled k t li
  pub unique : (li : ℕ) → IsUnique k t li

-- The ages do not count.
module _ (k : CacheKind) (t t' : Cache) (same : (j : ℕ) → SameButAge (t' j) (t j)) where
  same-IsFilled : (li : ℕ) → IsFilled k t li → IsFilled k t' li
  same-IsFilled li f = record {
    bit = λ i hi. rw ((same (slot k li i)).0) (f.bit i hi);
    prefix = λ i j lt hj valid.
        rw ((same (slot k li i)).0) (f.prefix i j lt hj (λ z. valid ((same (slot k li j)).0 ∙ z)));
  }

  same-IsUnique : (li : ℕ) → IsUnique k t li → IsUnique k t' li
  same-IsUnique li u i j hi hj vi vj eq =
      let (a, b) : SameButAge (t' (slot k li i)) (t (slot k li i))
          × SameButAge (t' (slot k li j)) (t (slot k li j)) =
        (same (slot k li i), same (slot k li j)) in
      u i j hi hj (λ z. vi (a.0 ∙ z)) (λ z. vj (b.0 ∙ z)) (sym (a.1) ∙ eq ∙ b.1)

  pub same-IsSound : (mem : Memory) → IsSound mem k t → IsSound mem k t'
  same-IsSound mem s = record {
    holds = λ li w hli hw.
        EntryHolds-same mem k li (t' (slot k li w)) (t (slot k li w)) (same (slot k li w))
          (s.holds li w hli hw);
    filled = λ li. same-IsFilled li (s.filled li);
    unique = λ li. same-IsUnique li (s.unique li);
  }

-- A search that misses finds a new tag.
pub miss-new :
    (k : CacheKind) (t : Cache) (addr i : ℕ)
    → IsFilled k t (addr / 16 % lines k)
    → found_way k t addr ≡ none
    → i < ways k
    → (t (slot k (addr / 16 % lines k) i)).v ≢ 0
    → (t (slot k (addr / 16 % lines k) i)).tag ≢ (addr >>> tag_remaining_bits k)
miss-new k t addr i f miss hi valid same =
    hit_from_complete k t (addr / 16 % lines k) (addr >>> tag_remaining_bits k) (ways k) 0 i
      (omega arith) f (omega arith) (hi, omega (arith, f.bit i hi), same) miss

-- The insertion of an entry for an address that the cache does not have.
pub Entered-IsSound :
    (mem : Memory) (k : CacheKind) (addr : ℕ) (e : CacheEntry) (t t' : Cache)
    → addr / 16 % lines k < lines k
    → Entered k (addr / 16 % lines k) (place_or_victim t k (addr / 16 % lines k)) e t t'
    → found_way k t addr ≡ none
    → e.v ≡ 1
    → bits (tag_bits k) e.tag ≡ (addr >>> tag_remaining_bits k)
    → EntryHolds mem k (addr / 16 % lines k) (stored k e)
    → IsSound mem k t
    → IsSound mem k t'
Entered-IsSound mem k addr e t t' hli entered miss one tag held s =
    let li = addr / 16 % lines k in
    record {
      holds = Entered-Holds k li e t t' hli entered mem held s.holds;
      filled = λ li'. elim (ℕ_discrete li' li) [
        | yes same ↦ rw same (Entered-IsFilled k li e t t' hli entered one (s.filled li))
        | no ne ↦ Entered-IsFilled_other k li e t t' hli entered li' ne (s.filled li')
      ];
      unique = λ li'. elim (ℕ_discrete li' li) [
        | yes same ↦ rw same (
            Entered-IsUnique k li e t t' hli entered (addr >>> tag_remaining_bits k) tag
              (λ i hi valid. miss-new k t addr i (s.filled li) miss hi valid) (s.unique li))
        | no ne ↦ Entered-IsUnique_other k li e t t' hli entered li' ne (s.unique li')
      ];
    }
