-- ===== src/Cache/Flush.antt =====
-- `cache_flush`: only the validity bits are reset by its loop, and it writes behind the array.
use kaby_lake_cache_c.Base.{
  ℕ, zero, suc, ◌+◌, ◌<◌, ◌≤◌, ◌≡◌, ◌⊎◌, inl, inr, ◌∙◌, arith, ◌&&◌, some, ltb, leb, if◌then◌else◌,
  update, dec_lt,
}
use kaby_lake_cache_c.Outcome.{err_none, returned, fault}
use kaby_lake_cache_c.Cache.{CacheKind, Cache, invalidate_from, flush_rest, cache_flush}
use kaby_lake_cache_c.Cache.Read.{size}

invalidate_from-elem :
    (left i : ℕ) (t : Cache) (j : ℕ)
    → invalidate_from left i t j
      ≡ (if leb i j && ltb j (i + left) then record (t j) { v = 0 } else t j)
unfolding invalidate_from
invalidate_from-elem zero i t j = ground arith
invalidate_from-elem (suc left) i t j =
    rw (invalidate_from-elem left (i + 1) (update t i (record (t i) { v = 0 })) j) (ground arith)

flush_rest-v : (n : ℕ) (t : Cache) (j : ℕ) → (flush_rest n t j).v ≡ (t j).v
unfolding flush_rest
flush_rest-v n t j = ground arith

flush_rest-age : (n : ℕ) (t : Cache) (j : ℕ) → j < n → (flush_rest n t j).age ≡ (t j).age
unfolding flush_rest
flush_rest-age n t j h = ground arith

flushed :
    (n : ℕ) (t : Cache) (j : ℕ)
    → j < n
    → ((flush_rest n (invalidate_from n 0 t) j).v ≡ 0)
      × ((flush_rest n (invalidate_from n 0 t) j).age ≡ (t j).age)
flushed n t j h = (
  flush_rest-v n (invalidate_from n 0 t) j ∙ rw (invalidate_from-elem n 0 t j) (ground arith),
  flush_rest-age n (invalidate_from n 0 t) j h ∙ rw (invalidate_from-elem n 0 t j) (ground arith),
)

-- On an array with more entries than the cache has, `cache_flush` succeeds: no entry of the cache is
-- valid afterwards, and each still has its old age. On an array with exactly the cache's entries or
-- fewer, it writes outside the array.
pub cache_flush_cases :
    (k : CacheKind) (t : Cache) (room j : ℕ)
    → j < size k
    → ((size k < room)
        × ((t' : Cache) × (cache_flush (some t) room k ≡ returned err_none t')
            × ((t' j).v ≡ 0)
            × ((t' j).age ≡ (t j).age)))
      ⊎ ((room ≤ size k) × (cache_flush (some t) room k ≡ fault))
unfolding cache_flush
cache_flush_cases k t room j h = elim (dec_lt (size k) room) [
  | yes more ↦ inl (
    more,
    (
      flush_rest (size k) (invalidate_from (size k) 0 t),
      ground arith,
      (flushed (size k) t j h).0,
      (flushed (size k) t j h).1,
    ),
  )
  | no few ↦ inr (omega arith, ground arith)
]
