-- ===== src/Commands/Print.antt =====
-- `program_print` of commands.c.
use kaby_lake_cache_c.Base.{ℕ, zero, suc, ◌+◌, ◌==◌, if◌then◌else◌, Option, some}
use kaby_lake_cache_c.Outcome.{err_none, Outcome, returned, ◌>>=◌}
use mathlib.Core.List.{List, [], ◌∷◌, ◌++◌}
use kaby_lake_cache_c.Addr.{virt_addr_to_uint64}
use kaby_lake_cache_c.TlbHrchy.{MemAccess, instruction, access_data}
use kaby_lake_cache_c.Commands.{order_read, order_write, Command, Program}
use kaby_lake_cache_c.Commands.Reader.{char_at, char_b, char_d, char_i, char_r, char_w}

-- What `fprintf` writes for 0x%016 with PRIX64, for 0x%08 with PRIX16 and for 0x% with PRIX8.
pub record Formats : Type 0 where
  pub address : ℕ → List ℕ
  pub word : ℕ → List ℕ
  pub byte : ℕ → List ℕ

abbrev pub space : ℕ
space = 32

abbrev pub newline : ℕ
newline = 10

abbrev pub type_letter : MemAccess → ℕ
type_letter instruction = char_i
type_letter access_data = char_d

-- 0 for instructions.
abbrev pub size_letter : MemAccess → (data_size : ℕ) → ℕ
size_letter instruction data_size = 0
size_letter access_data data_size = if data_size == 4 then char_w else char_b

-- The end of a line, from '@' on.
abbrev pub print_address : Formats → Command → List ℕ
print_address fprintf line =
    char_at ∷ fprintf.address (virt_addr_to_uint64 (some line.vaddr)) ++ newline ∷ []

abbrev pub print_read : Formats → Command → MemAccess → List ℕ
print_read fprintf line instruction = char_r ∷ space ∷ char_i ∷ space ∷ print_address fprintf line
print_read fprintf line access_data =
    char_r
    ∷ space
    ∷ char_d
    ∷ size_letter access_data line.data_size
    ∷ space
    ∷ print_address fprintf line

abbrev pub print_write : Formats → Command → List ℕ
print_write fprintf line =
    let size = size_letter line.type line.data_size in
    char_w
      ∷ space
      ∷ type_letter line.type
      ∷ size
      ∷ space
      ∷ (if size == char_w then fprintf.word line.write_data else fprintf.byte line.write_data)
    ++ space ∷ print_address fprintf line

unfoldable pub print_line : Formats → Command → List ℕ
print_line fprintf line = elim line.order [
  | order_read ↦ print_read fprintf line line.type
  | order_write ↦ print_write fprintf line
]

-- `left` lines from line `i`.
unfoldable pub print_lines : Formats → (ℕ → Command) → (left i : ℕ) → List ℕ
unfolding print_line
print_lines fprintf listing zero i = []
print_lines fprintf listing (suc left) i =
    print_line fprintf (listing i) ++ print_lines fprintf listing left (i + 1)

-- What is written to the stream.
unfoldable pub program_print : (output : Option Formats) → Option Program → Outcome (List ℕ)
unfolding print_lines
program_print output program = do
  fprintf ← output
  p ← program
  listing ← p.listing
  returned err_none (print_lines fprintf listing p.nb_lines 0)
