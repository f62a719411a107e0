-- ===== src/Memory/Describe.antt =====
-- memory.c: `mem_init_from_description`, which fills the main memory by the lines of a description.
use kaby_lake_cache_c.Base.{
  ℕ, ◌+◌, Bool, ◌==◌, ltb, if◌then◌else◌, u32, Option, none, some, bit_or, ◌<<<◌, length,
}
use kaby_lake_cache_c.Outcome.{
  err_none, err_bad_parameter, Outcome, returned, refused, fault, ◌>>=◌,
}
use mathlib.Core.List.{List, [], ◌∷◌}
use kaby_lake_cache_c.Addr.{VirtAddr, PhyAddr, page_offset_bits, init_virt_addr64}
use kaby_lake_cache_c.Memory.{Memory}
use kaby_lake_cache_c.Memory.Load.{Disk, page_file_read}
use kaby_lake_cache_c.PageWalk.{page_walk}

abbrev pub Text : Type 0
Text = List ℕ

-- What `sscanf` finds in a line, `none` for nothing: with %zu, %s and %d, and with %d %s and %x %s,
-- where the name may be missing. Numbers of pages and addresses are not negative.
pub record Sscanf : Type 0 where
  pub size : Text → Option ℕ
  pub name : Text → Option Text
  pub count : Text → Option ℕ
  pub page : Text → Option (ℕ × Option Text)
  pub virtual_page : Text → Option (ℕ × Option Text)

-- `*memory`, `n_translation_pages` and `file_name2`, and what is in `v_address` and `paddr`.
pub record Describing : Type 0 where
  pub memory : Option Memory
  pub pages : ℕ
  pub file_name : Text
  pub v_address : VirtAddr
  pub paddr : PhyAddr

-- A name that `sscanf` found goes with its end into a buffer of 128 bytes, which `calloc` gave.
abbrev pub fits_buffer : Text → Bool
fits_buffer name = ltb (length name) 128

-- `M_REQUIRE(page_file_read(…) == 0, ERR_BAD_PARAMETER)`
abbrev pub after_page : Outcome (Option Memory) → Describing → Outcome Describing
after_page (returned err_none m) s = returned err_none (record s { memory = m })
after_page (returned _ m) s = returned err_bad_parameter (record s { memory = m })
after_page (refused _) s = returned err_bad_parameter s
after_page fault s = fault

-- `calloc(size, 1)`
abbrev pub zeros : (given : Bool) → ℕ → Option Memory
zeros given size = if given then some (λ a. if ltb a size then some 0 else none) else none

abbrev pub size_line : Option ℕ → (given : Bool) → Describing → Outcome Describing
size_line none given s = returned err_bad_parameter s
size_line (some size) given s = returned err_none (record s { memory = zeros given size })

abbrev pub root_line : Option Text → Disk → Describing → Outcome Describing
root_line none fopen s = returned err_bad_parameter s
root_line (some name) fopen s =
    let read = after_page (page_file_read fopen (some name) (some s.memory) 0) s in
    if fits_buffer name then read else fault

abbrev pub count_line : Option ℕ → Describing → Outcome Describing
count_line none s = returned err_bad_parameter s
count_line (some n) s = returned err_none (record s { pages = n })

-- `file_name2` after a line, for the rest of the round.
abbrev pub named : Option Text → Describing → (Describing → Outcome Describing) → Outcome Describing
named none s more = more s
named (some name) s more = if fits_buffer name then more (record s { file_name = name }) else fault

abbrev pub page_line : Option (ℕ × Option Text) → Disk → Describing → Outcome Describing
page_line none fopen s = returned err_bad_parameter s
page_line (some (address, name)) fopen s =
    named name s
      λ s'. after_page (page_file_read fopen (some s'.file_name) (some s'.memory) address) s'

-- `M_REQUIRE(page_walk(…) == 0, ERR_BAD_PARAMETER)`, and the page at its address.
abbrev pub walked : Outcome PhyAddr → Disk → Describing → Outcome Describing
walked (returned err_none p) fopen s =
    let address = bit_or (u32 (p.phy_page_num <<< page_offset_bits)) p.page_offset in
    after_page (page_file_read fopen (some s.file_name) (some s.memory) address)
      (record s { paddr = p })
walked (returned _ p) fopen s = returned err_bad_parameter (record s { paddr = p })
walked (refused _) fopen s = returned err_bad_parameter s
walked fault fopen s = fault

abbrev pub addressed : Outcome VirtAddr → Disk → Describing → Outcome Describing
addressed (returned err_none v) fopen s =
    walked (page_walk s.memory (some v) (some s.paddr)) fopen (record s { v_address = v })
addressed (returned _ v) fopen s = returned err_bad_parameter (record s { v_address = v })
addressed (refused _) fopen s = returned err_bad_parameter s
addressed fault fopen s = fault

abbrev pub virtual_line : Option (ℕ × Option Text) → Disk → Describing → Outcome Describing
virtual_line none fopen s = returned err_bad_parameter s
virtual_line (some (tovadd, name)) fopen s =
    named name s λ s'. addressed (init_virt_addr64 (some s'.v_address) tovadd) fopen s'

-- One line, by its number.
unfoldable pub describe_line :
    Sscanf → Disk → (given : Bool) → (counter : ℕ) → Text → Describing → Outcome Describing
describe_line sscanf fopen given counter line s =
    if counter == 0
    then size_line (sscanf.size line) given s
    else if counter == 1
    then root_line (sscanf.name line) fopen s
    else if counter == 2
    then count_line (sscanf.count line) s
    else if ltb counter (s.pages + 3)
    then page_line (sscanf.page line) fopen s
    else virtual_line (sscanf.virtual_page line) fopen s

abbrev pub next_line : Outcome Describing → (Describing → Outcome Describing) → Outcome Describing
next_line (returned err_none s) more = more s
next_line (returned e s) more = returned e s
next_line (refused e) more = refused e
next_line fault more = fault

-- The loop over the lines that `getline` gives. After it `file_name` is freed, which only the second
-- line sets.
unfoldable pub describe_lines :
    Sscanf → Disk → (given : Bool) → (counter : ℕ) → List Text → Describing → Outcome Describing
unfolding describe_line
describe_lines sscanf fopen given counter [] s =
    if ltb counter 2 then fault else returned err_none s
describe_lines sscanf fopen given counter (line ∷ lines) s =
    next_line (describe_line sscanf fopen given counter line s)
      (describe_lines sscanf fopen given (counter + 1) lines)

-- `getlines` opens a text file and gives its lines. The capacity is never written.
unfoldable pub mem_init_from_description :
    Sscanf
    → Disk
    → (getlines : Text → Option (List Text)) → (given : Bool) → (master_filename : Option Text)
    → (memory : Option Describing) → (mem_capacity_in_bytes : Option ℕ) → Outcome Describing
unfolding describe_lines
mem_init_from_description sscanf fopen getlines given master_filename memory mem_capacity_in_bytes =
    do
      name ← master_filename
      s ← memory
      c ← mem_capacity_in_bytes
      elim (getlines name) [
        | none ↦ fault
        | some lines ↦ describe_lines sscanf fopen given 0 lines s
      ]
