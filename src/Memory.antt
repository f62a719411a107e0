-- ===== src/Memory.antt =====
-- The simulated main memory, `mem_space`: a block of bytes. An access outside the block is
-- undefined in C. The machine is little-endian, as the modelled processor is.
pub mod Load
pub mod Describe
pub mod Refuses
pub mod Dump
pub mod Print
pub mod Shown
pub mod Shows
use kaby_lake_cache_c.Base.{ℕ, ◌+◌, ◌*◌, ◌<◌, ◌^◌, ◌≡◌, Option, none, some, arith}

-- The byte at an offset, `none` outside the block.
abbrev pub Memory : Type 0
Memory = ℕ → Option ℕ

abbrev pub IsByte : Option ℕ → Type 0
IsByte none = Unit {0}
IsByte (some b) = b < 256

abbrev pub IsMemory : Memory → Type 0
IsMemory mem = (a : ℕ) → IsByte (mem a)

-- The `uint32_t` of four bytes.
unfoldable pub join_bytes : Option ℕ → Option ℕ → Option ℕ → Option ℕ → Option ℕ
join_bytes (some b0) (some b1) (some b2) (some b3) =
    some (b0 + b1 * 2 ^ 8 + b2 * 2 ^ 16 + b3 * 2 ^ 24)
join_bytes _ _ _ _ = none

-- The `uint32_t` whose bytes begin at `a`.
unfoldable pub load32 : Memory → ℕ → Option ℕ
unfolding join_bytes
load32 mem a = join_bytes (mem a) (mem (a + 1)) (mem (a + 2)) (mem (a + 3))

join_bytes-lt :
    (a b c d : Option ℕ) {w : ℕ}
    → IsByte a
    → IsByte b
    → IsByte c
    → IsByte d
    → join_bytes a b c d ≡ some w
    → w < 2 ^ 32
unfolding join_bytes
join_bytes-lt (some a) (some b) (some c) (some d) ha hb hc hd e = ground arith
join_bytes-lt _ _ _ _ ha hb hc hd e = ground arith

pub load32-lt : (mem : Memory) (a : ℕ) {w : ℕ} → IsMemory mem → load32 mem a ≡ some w → w < 2 ^ 32
unfolding load32
load32-lt mem a h e =
    join_bytes-lt (mem a) (mem (a + 1)) (mem (a + 2)) (mem (a + 3)) (h a) (h (a + 1)) (h (a + 2))
      (h (a + 3)) e
