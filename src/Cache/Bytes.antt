-- ===== src/Cache/Bytes.antt =====
-- `cache_read_byte` of cache_mng.c, and the byte of memory that it gives.
use kaby_lake_cache_c.Base.{
  ℕ, ◌+◌, ◌*◌, ◌/◌, ◌%◌, ◌^◌, ◌<◌, ◌≡◌, ◌≢◌, ◌⊎◌, refl, ◌∙◌, ap, ℕ_discrete, sym, arith, true,
  bit_and, bit_and_mask, Option, none, some, ◌>>>◌,
}
use kaby_lake_cache_c.Outcome.{
  err_none, err_bad_parameter, Outcome, returned, refused, fault, ◌>>=◌,
}
use kaby_lake_cache_c.Addr.{PhyAddr, phy_addr_to_uint32}
use kaby_lake_cache_c.Addr.Fields.{IsPhyAddr}
use kaby_lake_cache_c.Memory.{Memory, IsMemory, IsByte, load32, join_bytes}
use kaby_lake_cache_c.TlbHrchy.{MemAccess}
use kaby_lake_cache_c.Cache.{Line, Cache, load_line}
use kaby_lake_cache_c.Cache.Contents.{Holds}
use kaby_lake_cache_c.Cache.Correct.{found_way}
use kaby_lake_cache_c.Cache.Read.{Caches, Machine, kind_of, cache_read}
use kaby_lake_cache_c.Cache.Transparent.{IsEmpty, cache_read-ReadsWord}

-- The objects that `cache_read_byte` writes through its pointers.
pub record CachesByte : Type 0 where
  pub l1 : Cache
  pub l2 : Cache
  pub byte : ℕ

-- What `cache_read_byte` does with the outcome of `cache_read`.
abbrev pub after_read : Outcome Caches → (byte_select : ℕ) → CachesByte → Outcome CachesByte
after_read (returned err_none s) byte_select old =
    returned err_none
      (record { l1 = s.l1; l2 = s.l2; byte = bit_and (s.word >>> (byte_select * 8)) 0b1111_1111 })
after_read (returned _ s) byte_select old =
    returned err_bad_parameter (record { l1 = s.l1; l2 = s.l2; byte = old.byte })
after_read (refused _) byte_select old = returned err_bad_parameter old
after_read fault byte_select old = fault

-- `cell` is the memory that `malloc` gives for the word, with what is in it.
unfoldable pub cache_read_byte :
    Option Memory
    → Option PhyAddr
    → MemAccess
    → Option Cache
    → Option Cache
    → Option ℕ
    → (cell : Option ℕ) → Machine
    → Outcome CachesByte
cache_read_byte mem_space p_paddr access l1_cache l2 p_byte cell m = do
  mem ← mem_space
  p ← p_paddr
  t1 ← l1_cache
  t2 ← l2
  b ← p_byte
  word ← cell
  after_read (cache_read (some mem) (some p) access (some t1) (some t2) (some word) m)
      (bit_and (phy_addr_to_uint32 (some p)) 0b11) (record { l1 = t1; l2 = t2; byte = b })

byte_of_word :
    (o0 o1 o2 o3 : Option ℕ) (w : ℕ)
    → IsByte o0
    → IsByte o1
    → IsByte o2
    → IsByte o3
    → join_bytes o0 o1 o2 o3 ≡ some w
    → (o0 ≡ some (w % 256))
      × (o1 ≡ some (w / 2 ^ 8 % 256))
      × (o2 ≡ some (w / 2 ^ 16 % 256))
      × (o3 ≡ some (w / 2 ^ 24 % 256))
unfolding join_bytes
byte_of_word (some a) (some b) (some c) (some d) w ha hb hc hd e =
    (ground arith, ground arith, ground arith, ground arith)
byte_of_word _ _ _ _ w ha hb hc hd e = ground arith

pub byte_in_word :
    (mem : Memory) (q r w : ℕ)
    → IsMemory mem
    → load32 mem q ≡ some w
    → r < 4
    → mem (q + r) ≡ some (w / 2 ^ (r * 8) % 256)
unfolding load32
byte_in_word mem q r w ok e h =
    let (e0, e1, e2, e3) =
      byte_of_word (mem q) (mem (q + 1)) (mem (q + 2)) (mem (q + 3)) w (ok q) (ok (q + 1))
        (ok (q + 2)) (ok (q + 3)) e in
    elim (ℕ_discrete r 0) [
      | yes f ↦
          let at : q + 0 ≡ q = omega arith in
          let one : w / 1 ≡ w = omega arith in rw (f, at, e0, one) refl
      | no n0 ↦ elim (ℕ_discrete r 1) [
        | yes f ↦ rw (f, e1) refl
        | no n1 ↦ elim (ℕ_discrete r 2) [
          | yes f ↦ rw (f, e2) refl
          | no n2 ↦ let f : r ≡ 3 = omega arith in rw (f, e3) refl
        ]
      ]
    ]

-- The byte at any address, from the word around it.
load32-byte :
    (mem : Memory) (a w : ℕ)
    → IsMemory mem
    → load32 mem (a / 4 * 4) ≡ some w
    → mem a ≡ some (bit_and (w >>> (bit_and a 0b11 * 8)) 0b1111_1111)
load32-byte mem a w ok e =
    let at : a / 4 * 4 + a % 4 ≡ a = omega arith in
    ap mem (sym at)
    ∙ byte_in_word mem (a / 4 * 4) (a % 4) w ok e (omega arith)
    ∙ rw (bit_and_mask 2 a, bit_and_mask 8 (w / 2 ^ (a % 4 * 8))) refl

module _ (mem : Memory) (ok : IsMemory mem) (access : MemAccess) (m : Machine)
    (given : m.malloc ≡ true) (s : Caches) (p : PhyAddr) (hp : IsPhyAddr p)
    (held : Holds mem (kind_of access) s.l1) (empty : IsEmpty s.l2) (cell b : ℕ) where
  -- The level-1 cache holds lines of memory, the level-2 cache is empty, and `malloc` succeeds. Then
  -- for an address that the level-1 cache has, or that is the begin of a line of memory,
  -- `cache_read_byte` returns ERR_NONE and the byte of memory at the address, and leaves caches of
  -- the same kind.
  pub cache_read_byte-ReadsByte :
      (found_way (kind_of access) s.l1 (phy_addr_to_uint32 (some p)) ≢ none)
        ⊎ ((phy_addr_to_uint32 (some p) % 16 ≡ 0)
            × ((l : Line) × (load_line mem (phy_addr_to_uint32 (some p)) ≡ some l)))
      → (s' : CachesByte) × (cache_read_byte
            (some mem)
            (some p)
            access
            (some s.l1)
            (some s.l2)
            (some b)
            (some cell)
            m
          ≡ returned err_none s')
        × (mem (phy_addr_to_uint32 (some p)) ≡ some s'.byte)
        × Holds mem (kind_of access) s'.l1
        × IsEmpty s'.l2
  unfolding cache_read_byte
  cache_read_byte-ReadsByte either =
      let (t, done, word, held', empty') =
        cache_read-ReadsWord mem access m given (record s { word = cell }) p hp held empty either in
      (
        _,
        ap
            (λ r.
              after_read r (bit_and (phy_addr_to_uint32 (some p)) 0b11)
                (record { l1 = s.l1; l2 = s.l2; byte = b }))
            done,
        load32-byte mem (phy_addr_to_uint32 (some p)) t.word ok word,
        held',
        empty',
      )
