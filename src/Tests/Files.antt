-- ===== src/Tests/Files.antt =====
-- Reading and printing of command files at concrete inputs, with a `scan_hex` that takes a number as
-- one character.
use kaby_lake_cache_c.Base.{
  ℕ, ◌≡◌, refl, arith, Bool, true, false, ◌||◌, ◌==◌, Option, none, some, inr, length, subst, ◌<◌,
}
use mathlib.Core.List.{List, [], ◌∷◌, ◌++◌}
use kaby_lake_cache_c.Outcome.{Outcome}
use kaby_lake_cache_c.TlbHrchy.{access_data}
use kaby_lake_cache_c.Commands.{order_read, order_write, Command, Program, new_program}
use kaby_lake_cache_c.Commands.Reader.{File, Stdio}
use kaby_lake_cache_c.Commands.ReadFile.{Round, read_line, program_read}
use kaby_lake_cache_c.Commands.Print.{Formats, print_line}
use kaby_lake_cache_c.Commands.Advance.{ReadsOn, IsText, Later}
use kaby_lake_cache_c.Commands.Ends.{Sound, program_read-Ends}
use kaby_lake_cache_c.Commands.Letters.{file, IsStdio}
use kaby_lake_cache_c.Commands.ReadBack.{ReadAs, read_line-print_line}
use kaby_lake_cache_c.Tests.Data.{here, here-IsVirtAddr}

abbrev scan_one : (bytes : List ℕ) → (at_end undefined : Bool) → Option ℕ × File
scan_one [] at_end undefined = (none, record { bytes = []; at_end = true; undefined = undefined })
scan_one (c ∷ bytes) at_end undefined =
    (some c, record { bytes = bytes; at_end = at_end; undefined = undefined })

abbrev stdio : Stdio
stdio = record {
  isspace = λ c. c == 32 || c == 10;
  scan_hex = λ f. scan_one f.bytes f.at_end f.undefined;
}

abbrev formats : Formats
formats = record { address = λ n. n ∷ []; word = λ n. n ∷ []; byte = λ n. n ∷ [] }

scan_one-Later :
    (bytes : List ℕ) (at_end undefined : Bool)
    → Later
        (record { bytes = bytes; at_end = at_end; undefined = undefined })
        (scan_one bytes at_end undefined).1
scan_one-Later [] at_end undefined = (omega arith, λ e. refl, λ d. d)
scan_one-Later (c ∷ bytes) at_end undefined = (omega arith, λ e. e, λ (d, (small, text)). (d, text))

stdio-IsStdio : IsStdio stdio formats
stdio-IsStdio = record {
  is_space = refl;
  is_at = refl;
  is_b = refl;
  is_d = refl;
  is_i = refl;
  is_r = refl;
  is_w = refl;
  scans = λ n rest at_end small. refl;
}

stdio-ReadsOn : ReadsOn stdio
stdio-ReadsOn f = scan_one-Later f.bytes f.at_end f.undefined

abbrev line : Command
line = record {
  order = order_read;
  type = access_data;
  data_size = 1;
  write_data = 0;
  vaddr = here;
}

abbrev round : Round
round = record {
  command = record line { order = order_write; write_data = 77; data_size = 9 };
  vaddr = here;
  memory = record { given = true; fresh = λ i. line };
}

read_line-print_line_example :
    ReadAs order_read line round
      (82 ∷ [])
      false
      (read_line stdio round (file (print_line formats line ++ 82 ∷ []) false))
read_line-print_line_example =
    read_line-print_line stdio formats stdio-IsStdio line round (82 ∷ []) false here-IsVirtAddr
      (inr refl)

-- "R I @", the address 5, and the end of the line.
abbrev source_text : List ℕ
source_text = 82 ∷ 32 ∷ 73 ∷ 32 ∷ 64 ∷ 5 ∷ 10 ∷ []

abbrev opened : List ℕ → Option File
opened name = some (file source_text false)

source_text-IsText : IsText (file source_text false)
source_text-IsText = (
  refl,
  (
    omega arith,
    (omega arith, (omega arith, (omega arith, (omega arith, (omega arith, (omega arith, tt)))))),
  ),
)

opened-IsText : (name : List ℕ) (f : File) → opened name ≡ some f → (length f.bytes < 20) × IsText f
opened-IsText name f e =
    let same : file source_text false ≡ f = cc in
    subst (λ g. (length g.bytes < 20) × IsText g) same (omega arith, source_text-IsText)

program_read-Ends_example :
    (o : Outcome Program) × (program_read 20 stdio
        (λ i. round)
        opened
        round.memory
        (some [])
        (some (new_program (λ i. line)))
      ≡ some o)
    × Sound o
program_read-Ends_example =
    program_read-Ends stdio stdio-ReadsOn (λ i. round) (λ i. refl) 20 opened round.memory (some [])
      (some (new_program (λ i. line))) refl (omega arith) opened-IsText
