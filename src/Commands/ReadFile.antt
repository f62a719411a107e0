-- ===== src/Commands/ReadFile.antt =====
-- `program_read` of commands.c.
use kaby_lake_cache_c.Base.{ℕ, zero, suc, ◌+◌, ◌==◌, if◌then◌else◌, Option, none, some}
use kaby_lake_cache_c.Outcome.{
  err_none, err_bad_parameter, err_io, Outcome, returned, refused, fault,
}
use mathlib.Core.List.{List}
use kaby_lake_cache_c.Addr.{VirtAddr}
use kaby_lake_cache_c.Commands.{Command, Program, Allocation, program_init, program_add_command}
use kaby_lake_cache_c.Commands.Reader.{
  File, Stdio, Reading, char_r, char_w, next_nonspace_read, read_read, read_write,
}

-- What is in the local variables of the n-th round, and what `realloc` gives in it.
pub record Round : Type 0 where
  pub command : Command
  pub vaddr : VirtAddr
  pub memory : Allocation

-- One line of the file: the command, if there is one. The codes of `read_read` and `read_write` are
-- not looked at.
abbrev pub line_read : Reading → Option Command × File
line_read (code, command, f) = (some command, f)

-- By the first letter of the line, and the file behind it.
unfoldable pub by_first : Stdio → Round → ℕ × File → Option Command × File
unfolding read_read read_write
by_first lib round (first, f) =
    if first == char_r
    then line_read (read_read lib f round.command round.vaddr)
    else if first == char_w
    then line_read (read_write lib f round.command round.vaddr)
    else (none, f)

unfoldable pub read_line : Stdio → Round → File → Option Command × File
unfolding next_nonspace_read by_first
read_line lib round entree = by_first lib round (next_nonspace_read lib entree)

-- What `program_read` does with the outcome of `program_add_command`: the program, if it goes on.
abbrev pub going_on :
    Outcome Program → Program → (Program → Option (Outcome Program)) → Option (Outcome Program)
going_on (returned err_none p') p more = more p'
going_on (returned _ p') p more = some (returned err_bad_parameter p')
going_on (refused _) p more = some (returned err_bad_parameter p)
going_on fault p more = some fault

abbrev pub added : Option Command → Allocation → Program → Outcome Program
added none a p = returned err_none p
added (some c) a p = program_add_command (some p) (some c) a

-- The loop of `program_read`; `none` if the rounds do not suffice.
unfoldable pub read_lines :
    (rounds : ℕ) → Stdio → (ℕ → Round) → (i : ℕ) → File → Program → Option (Outcome Program)
unfolding read_line
read_lines zero lib locals i entree program = none
read_lines (suc rounds) lib locals i entree program =
    let (command, f1) = read_line lib (locals i) entree in
    let next = going_on (added command (locals i).memory program) program λ p.
      let more = read_lines rounds lib locals (i + 1) f1 p in
      if f1.at_end then some (returned err_none p) else more in
    if f1.undefined then some fault else next

abbrev pub initialised :
    Outcome Program → Program → (Program → Option (Outcome Program)) → Option (Outcome Program)
initialised (returned err_none p') p more = more p'
initialised (returned _ p') p more = some (returned err_bad_parameter p')
initialised (refused _) p more = some (returned err_bad_parameter p)
initialised fault p more = some fault

-- `program_read` past its NULL checks, with what `fopen` gave.
unfoldable pub read_file :
    (rounds : ℕ)
    → Stdio
    → (ℕ → Round)
    → Option File
    → Allocation
    → Program
    → Option (Outcome Program)
unfolding read_lines
read_file rounds lib locals none a program = some (refused err_io)
read_file rounds lib locals (some entree) a program =
    initialised (program_init (some program) a) program (read_lines rounds lib locals 0 entree)

-- `fopen` takes the name, and `calloc` gives `a` to `program_init`.
unfoldable pub program_read :
    (rounds : ℕ)
    → Stdio
    → (ℕ → Round)
    → (fopen : List ℕ → Option File) → Allocation
    → (filename : Option (List ℕ)) → Option Program
    → Option (Outcome Program)
unfolding read_file
program_read rounds lib locals fopen a (some filename) (some program) = elim program.listing [
  | none ↦ some (refused err_bad_parameter)
  | some l ↦ read_file rounds lib locals (fopen filename) a program
]
program_read rounds lib locals fopen a _ _ = some (refused err_bad_parameter)
