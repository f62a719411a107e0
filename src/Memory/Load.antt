-- ===== src/Memory/Load.antt =====
-- memory.c: `mem_init_from_dumpfile` and `page_file_read`, which fill the main memory from files.
use kaby_lake_cache_c.Base.{
  ℕ, zero, suc, ◌+◌, Bool, false, ◌==◌, ltb, if◌then◌else◌, update, Option, none, some, length,
}
use kaby_lake_cache_c.Outcome.{
  err_none, err_bad_parameter, err_io, Outcome, returned, fault, require, ◌>>=◌, ◌>>◌,
}
use mathlib.Core.List.{List, [], ◌∷◌}
use kaby_lake_cache_c.Memory.{Memory}

-- A file on disk: its bytes, which `fread` reads without error, and what `fseek` to its end returns,
-- `none` for a negative number.
pub record DiskFile : Type 0 where
  pub bytes : List ℕ
  pub fseek_end : Option ℕ

-- `fopen` by the name of a file.
abbrev pub Disk : Type 0
Disk = (name : List ℕ) → Option DiskFile

-- `ftell` after the `fseek` to the end, which has moved only if it gives no negative number.
abbrev pub ftell_end : DiskFile → ℕ
ftell_end file = elim file.fseek_end [ none ↦ 0 | some _ ↦ length file.bytes ]

-- `malloc(size)`, and what is in a block that it gives.
pub record MemSpace : Type 0 where
  pub given : Bool
  pub fresh : ℕ → ℕ

unfoldable pub malloc_block : MemSpace → (size : ℕ) → Option Memory
malloc_block m size =
    if m.given then some (λ a. if ltb a size then some (m.fresh a) else none) else none

abbrev pub one_more : Option (Memory × ℕ) → Option (Memory × ℕ)
one_more none = none
one_more (some (mem, n)) = some (mem, n + 1)

-- `fread(mem + address, 1, count, …)` of a file with these bytes left: the memory and the number of
-- bytes that were read; `none` where it writes outside the block.
unfoldable pub fread : Memory → (address count : ℕ) → (bytes : List ℕ) → Option (Memory × ℕ)
fread mem address zero bytes = some (mem, 0)
fread mem address (suc count) [] = some (mem, 0)
fread mem address (suc count) (b ∷ bytes) = elim (mem address) [
  | none ↦ none
  | some old ↦ one_more (fread (update mem address (some b)) (address + 1) count bytes)
]

-- `*memory`, NULL is `none`, and `*mem_capacity_in_bytes`.
pub record Loaded : Type 0 where
  pub mem_space : Option Memory
  pub capacity : ℕ

-- `M_REQUIRE(fread(…) > 0, ERR_BAD_PARAMETER)`
abbrev pub after_fread : Option (Memory × ℕ) → (capacity : ℕ) → Outcome Loaded
after_fread none capacity = fault
after_fread (some (mem, n)) capacity =
    if ltb 0 n
    then returned err_none (record { mem_space = some mem; capacity = capacity })
    else returned err_bad_parameter (record { mem_space = some mem; capacity = capacity })

-- Into what `malloc` gave. The code looks at the pointer to the pointer in place of it, so NULL goes
-- to `fread`, which leaves it alone only if there is nothing to read.
abbrev pub fread_into : Option Memory → (capacity : ℕ) → List ℕ → Outcome Loaded
fread_into none zero bytes = returned err_bad_parameter (record { mem_space = none; capacity = 0 })
fread_into none (suc _) bytes = fault
fread_into (some mem) capacity bytes = after_fread (fread mem 0 capacity bytes) capacity

-- The rest of `mem_init_from_dumpfile` for an open file, which is read from its begin again.
unfoldable pub load_dump : DiskFile → MemSpace → Outcome Loaded
unfolding malloc_block fread
load_dump file m =
    let capacity = ftell_end file in fread_into (malloc_block m capacity) capacity file.bytes

-- A file that is not there goes to `fclose` as NULL.
unfoldable pub mem_init_from_dumpfile :
    Disk
    → MemSpace
    → (filename : Option (List ℕ)) → (memory : Option (Option Memory))
    → (mem_capacity_in_bytes : Option ℕ) → Outcome Loaded
unfolding load_dump
mem_init_from_dumpfile fopen space filename memory mem_capacity_in_bytes = do
  name ← filename
  m ← memory
  c ← mem_capacity_in_bytes
  elim (fopen name) [ none ↦ fault | some file ↦ load_dump file space ]

abbrev pub positive : Option ℕ → Bool
positive none = false
positive (some n) = ltb 0 n

-- The count that `fread` gives is not looked at.
abbrev pub stored_page : Option (Memory × ℕ) → Outcome (Option Memory)
stored_page none = fault
stored_page (some (mem, n)) = returned err_none (some mem)

abbrev pub store_page : Option Memory → (address count : ℕ) → List ℕ → Outcome (Option Memory)
store_page none address count bytes = fault
store_page (some mem) address count bytes = stored_page (fread mem address count bytes)

unfoldable pub page_file_read :
    Disk
    → (filename : Option (List ℕ)) → (memory : Option (Option Memory)) → (address : ℕ)
    → Outcome (Option Memory)
unfolding fread
page_file_read fopen filename memory address = do
  name ← filename
  m ← memory
  file ← fopen name
  require (positive file.fseek_end) err_bad_parameter
  require (ftell_end file == 4096) err_io
  store_page m address (ftell_end file) file.bytes
