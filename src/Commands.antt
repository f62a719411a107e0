-- ===== src/Commands.antt =====
-- commands.h and commands.c: commands and the program that holds them, a block that grows.
pub mod Checks
pub mod Listing
pub mod Shrink
pub mod Reader
pub mod ReadFile
pub mod Advance
pub mod Ends
pub mod Print
pub mod Letters
pub mod ReadBack
use kaby_lake_cache_c.Base.{
  ℕ, ◌+◌, ◌*◌, ◌/◌, ◌%◌, Bool, true, false, ◌&&◌, ◌||◌, Option, none, some, ltb, leb, ◌==◌,
  if◌then◌else◌, update, u64,
}
use kaby_lake_cache_c.Outcome.{
  err_none, err_bad_parameter, Outcome, returned, refused, fault, require, ◌>>=◌, ◌>>◌,
}
use kaby_lake_cache_c.Addr.{VirtAddr}
use kaby_lake_cache_c.TlbHrchy.{MemAccess, instruction, access_data}

-- `command_word_t`
pub data CommandWord : Type 0 where
  order_read order_write : CommandWord

pub record Command : Type 0 where
  pub order : CommandWord
  pub type : MemAccess
  pub data_size : ℕ
  pub write_data : ℕ
  pub vaddr : VirtAddr

-- `room` is the number of commands that the block at `listing` has space for.
pub record Program : Type 0 where
  pub listing : Option (ℕ → Command)
  pub nb_lines : ℕ
  pub allocated : ℕ
  pub room : ℕ

-- `firstsize`
abbrev pub first_size : ℕ
first_size = 10

-- `sizeof(command_t)` and the size of a pointer on the 64-bit machine.
abbrev pub command_size : ℕ
command_size = 32

abbrev pub pointer_size : ℕ
pointer_size = 8

-- A call of `calloc` or `realloc`: whether it gives memory, and what is in the part that is new.
pub record Allocation : Type 0 where
  pub given : Bool
  pub fresh : ℕ → Command

-- What `program_init` makes; `allocated` is `sizeof(program->listing)`, the size of a pointer.
abbrev pub new_program : (ℕ → Command) → Program
new_program l = record {
  listing = some l;
  nb_lines = 0;
  allocated = pointer_size;
  room = first_size;
}

unfoldable pub program_init : Option Program → Allocation → Outcome Program
program_init program a = do
  p ← program
  if a.given
      then returned err_none (new_program a.fresh)
      else returned err_bad_parameter (record p { listing = none })

-- `realloc(listing, bytes)`: the commands that were there stay.
abbrev pub resize : (ℕ → Command) → Program → (bytes : ℕ) → Allocation → Program
resize l p bytes a = record p {
  listing = if a.given then some (λ i. if ltb i p.room then l i else a.fresh i) else none;
  room = if a.given then bytes / command_size else 0;
}

unfoldable pub program_shrink : Option Program → Allocation → Outcome Program
program_shrink program a = do
  p ← program
  l ← p.listing
  let bytes =
      if ltb first_size p.nb_lines
      then u64 (p.nb_lines * command_size)
      else first_size * command_size
  let p' = resize l (record p { allocated = bytes }) bytes a
  returned (if a.given then err_none else err_bad_parameter) p'

abbrev pub with_command : Command → (ℕ → Command) → Program → Program
with_command c l p = record p {
  listing = some (update l p.nb_lines c);
  nb_lines = u64 (p.nb_lines + 1);
}

-- The store of the command at `nb_lines`; past the block it is undefined in C.
unfoldable pub store_command : Command → Program → Outcome Program
store_command c p = do
  l ← p.listing
  if ltb p.nb_lines p.room then returned err_none (with_command c l p) else fault

abbrev pub is_read : CommandWord → Bool
is_read order_read = true
is_read order_write = false

abbrev pub is_data : MemAccess → Bool
is_data instruction = false
is_data access_data = true

abbrev pub negate : Bool → Bool
negate b = if b then false else true

-- `if (condition) M_REQUIRE(test, …)`
abbrev pub when : Bool → Bool → Bool
when condition test = if condition then test else true

-- The block is doubled when it is full.
unfoldable pub grow : Command → (ℕ → Command) → Program → Allocation → Outcome Program
unfolding store_command
grow c l p a =
    let doubled = u64 (p.allocated * 2) in
    let p' = resize l (record p { allocated = doubled }) (u64 (doubled * command_size)) a in
    if a.given then store_command c p' else returned err_bad_parameter p'

-- The checks of `program_add_command`. Its first two, that `order` and `type` are enumerators, always
-- pass.
unfoldable pub checked :
    CommandWord
    → MemAccess
    → (data_size write_data page_offset : ℕ) → Outcome Program
    → Outcome Program
checked order type data_size write_data page_offset rest = do
  require (page_offset % 4 == 0) err_bad_parameter
  require (when (is_read order) (write_data == 0)) err_bad_parameter
  require (when (negate (is_read order) && data_size == 1) (leb write_data 0xff)) err_bad_parameter
  require (when (is_data type) (data_size == 4 || data_size == 1)) err_bad_parameter
  require (when (negate (is_read order)) (is_data type)) err_bad_parameter
  require (when (is_data type) (negate (data_size == 0))) err_bad_parameter
  rest

-- What follows the checks.
unfoldable pub add_line : Command → (ℕ → Command) → Program → Allocation → Outcome Program
unfolding store_command grow
add_line c l p a = if ltb p.nb_lines p.allocated then store_command c p else grow c l p a

unfoldable pub program_add_command : Option Program → Option Command → Allocation → Outcome Program
unfolding checked add_line
program_add_command program command a = do
  p ← program
  l ← p.listing
  c ← command
  checked c.order c.type c.data_size c.write_data c.vaddr.page_offset (add_line c l p a)

-- The block is freed: `listing` still points to it, and it has no space.
unfoldable pub program_free : Option Program → Outcome (Option Program)
program_free none = returned err_none none
program_free (some p) =
    returned err_none (some (record p { nb_lines = 0; allocated = 0; room = 0 }))
