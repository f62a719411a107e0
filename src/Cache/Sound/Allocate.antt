-- ===== src/Cache/Sound/Allocate.antt =====
-- A write that misses: the new entry keeps the invariant.
use kaby_lake_cache_c.Base.{
  ℕ, ◌/◌, ◌%◌, ◌<◌, ◌≡◌, inl, inr, refl, ◌∙◌, arith, true, none, ◌==◌, ◌>>>◌, bit_and, bit_and_mask,
  Bool-cases, subst,
}
use kaby_lake_cache_c.Outcome.{err_none, returned, Outcome}
use kaby_lake_cache_c.Addr.{bits}
use kaby_lake_cache_c.Memory.{Memory}
use kaby_lake_cache_c.Cache.{CacheKind, l1_dcache, l2_cache, CacheEntry, Cache, put, hit_way_miss}
use kaby_lake_cache_c.Cache.Ages.{
  SameButAge, lru_age_update-SameButAge, lru_age_increase-SameButAge,
}
use kaby_lake_cache_c.Cache.Contents.{index_fits, EntryHolds}
use kaby_lake_cache_c.Cache.Correct.{found_way, put-elem, place_or_victim-lt, stored}
use kaby_lake_cache_c.Cache.Entered.{Entered}
use kaby_lake_cache_c.Cache.Lru.{lru_age_update, lru_age_increase, find_place, apply_lru}
use kaby_lake_cache_c.Cache.Read.{place_or_victim}
use kaby_lake_cache_c.Cache.Sound.{IsSound, Entered-IsSound}
use kaby_lake_cache_c.Cache.Sound.Store.{put_word}
use kaby_lake_cache_c.Cache.Transparent.{IsEmpty}
use kaby_lake_cache_c.Cache.Write.{Store, WriteMachine, insert_l2, allocate}

-- The call returns ERR_NONE, changes the word of memory at the address and nothing else there, and
-- leaves sound caches.
abbrev pub SoundWrite : Memory → (addr word : ℕ) → Outcome Store → Type 0
SoundWrite mem addr word r =
    (s : Store) × (r ≡ returned err_none s)
    × (s.mem ≡ put_word mem addr word)
    × IsSound (put_word mem addr word) l1_dcache s.l1
    × IsEmpty s.l2

-- An entry that is not valid keeps an empty cache empty.
put-IsEmpty :
    (k : CacheKind) (li w : ℕ) (e : CacheEntry) (t : Cache)
    → e.v ≡ 0
    → IsEmpty t
    → IsEmpty (put li w e t k)
unfolding put
put-IsEmpty k li w e t invalid h j = ground (arith, h j)

insert_l2-IsEmpty :
    (index : ℕ) (old : CacheEntry) (t : Cache)
    → old.v ≡ 0
    → IsEmpty t
    → IsEmpty (insert_l2 index old t)
insert_l2-IsEmpty index old t invalid h j =
    let way = find_place t l2_cache index in
    let way2 = apply_lru t l2_cache index in
    elim (Bool-cases (way == hit_way_miss)) [
      | inl full ↦ rw full (
          (lru_age_update-SameButAge l2_cache way2 index (put index way2 old t l2_cache) j).0
          ∙ put-IsEmpty l2_cache index way2 old t invalid h j)
      | inr cold ↦ rw cold (
          (lru_age_increase-SameButAge l2_cache way index (put index way old t l2_cache) j).0
          ∙ put-IsEmpty l2_cache index way old t invalid h j)
    ]

aged_put-Entered :
    (li w : ℕ) (e : CacheEntry) (t : Cache)
    → li < 64
    → place_or_victim t l1_dcache li ≡ w
    → (t' : Cache) → ((j : ℕ) → SameButAge (t' j) (put li w e t l1_dcache j))
    → Entered l1_dcache li (place_or_victim t l1_dcache li) e t t'
aged_put-Entered li w e t hli chosen t' aged j =
    let inside : w < 4 = subst (λ x. x < 4) chosen (place_or_victim-lt l1_dcache t li) in
    let there = put-elem l1_dcache li w e t j hli inside in
    rw chosen ((aged j).0 ∙ there.0, (aged j).1 ∙ there.1, (aged j).2 ∙ there.2)

-- The insertion of a new entry that the level-1 cache does not have.
pub allocate-SoundWrite :
    (mem0 : Memory) (addr word : ℕ) (e : CacheEntry) (m : WriteMachine) (s : Store)
    → m.malloc 4 ≡ true
    → s.mem ≡ put_word mem0 addr word
    → found_way l1_dcache s.l1 addr ≡ none
    → e.v ≡ 1
    → bits 22 e.tag ≡ (addr >>> 10)
    → EntryHolds (put_word mem0 addr word) l1_dcache (addr / 16 % 64) (stored l1_dcache e)
    → IsSound (put_word mem0 addr word) l1_dcache s.l1
    → IsEmpty s.l2
    → SoundWrite mem0 addr word
        (allocate addr (λ way t. put (bit_and (addr >>> 4) 0b11_1111) way e t l1_dcache) m s)
unfolding allocate
allocate-SoundWrite mem0 addr word e m s given same miss one tag held sound empty =
    let li = addr / 16 % 64 in
    let index : bit_and (addr >>> 4) 0b11_1111 ≡ li = bit_and_mask 6 (addr / 16) in
    let wayld = find_place s.l1 l1_dcache li in
    let waydel = apply_lru s.l1 l1_dcache li in
    let after =
      λ (t' : Cache) (entered : Entered l1_dcache li (place_or_victim s.l1 l1_dcache li) e s.l1 t').
        Entered-IsSound (put_word mem0 addr word) l1_dcache addr e s.l1 t'
          (index_fits l1_dcache addr) entered miss one tag held sound in
    elim (Bool-cases (wayld == hit_way_miss)) [
      | inl full ↦
          let chosen : place_or_victim s.l1 l1_dcache li ≡ waydel = rw full refl in
          rw (index, full, given)
            (
              _,
              refl,
              same,
              after (lru_age_update l1_dcache waydel li (put li waydel e s.l1 l1_dcache)) (
                  aged_put-Entered li waydel e s.l1 (index_fits l1_dcache addr) chosen
                    (lru_age_update l1_dcache waydel li (put li waydel e s.l1 l1_dcache))
                    (lru_age_update-SameButAge l1_dcache waydel li
                      (put li waydel e s.l1 l1_dcache))),
              insert_l2-IsEmpty (bit_and (addr >>> 4) 0b1_1111_1111) _ s.l2 refl empty,
            )
      | inr cold ↦
          let chosen : place_or_victim s.l1 l1_dcache li ≡ wayld = rw cold refl in
          rw (index, cold)
            (
              _,
              refl,
              same,
              after (lru_age_increase l1_dcache wayld li (put li wayld e s.l1 l1_dcache)) (
                  aged_put-Entered li wayld e s.l1 (index_fits l1_dcache addr) chosen
                    (lru_age_increase l1_dcache wayld li (put li wayld e s.l1 l1_dcache))
                    (lru_age_increase-SameButAge l1_dcache wayld li
                      (put li wayld e s.l1 l1_dcache))),
              empty,
            )
    ]
