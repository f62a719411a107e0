-- ===== src/Tests/Commands.antt =====
-- Programs of commands at concrete inputs.
use kaby_lake_cache_c.Base.{ℕ, ◌≡◌, ◌⊎◌, refl, arith, true, none, some}
use kaby_lake_cache_c.Outcome.{err_none, err_bad_parameter, returned, refused}
use kaby_lake_cache_c.TlbHrchy.{instruction, access_data}
use kaby_lake_cache_c.Commands.{
  order_read, order_write, Command, Program, Allocation, program_init, program_add_command, checked,
  new_program,
}
use kaby_lake_cache_c.Commands.Checks.{IsCommand}
use kaby_lake_cache_c.Commands.Listing.{
  IsProgram, line_at, Appended, program_add_command_cases, program_init-IsProgram,
}
use kaby_lake_cache_c.Tests.Data.{here}

abbrev store_byte : Command
store_byte = record {
  order = order_write;
  type = access_data;
  data_size = 1;
  write_data = 0xab;
  vaddr = here;
}

abbrev fetch_with_data : Command
fetch_with_data = record store_byte { order = order_read; type = instruction }

abbrev allocation : Allocation
allocation = record { given = true; fresh = λ i. store_byte }

abbrev fresh_program : Program
fresh_program = new_program (λ i. store_byte)

-- Ten commands in a block of ten.
abbrev ten_commands : Program
ten_commands = record fresh_program { nb_lines = 10; allocated = 10 }

fresh-IsProgram : IsProgram fresh_program
fresh-IsProgram = record {
  block = (_, refl);
  filled = omega arith;
  within = omega arith;
  some_room = omega arith;
}

fetch_refused :
    program_add_command (some fresh_program) (some fetch_with_data) allocation
    ≡ refused err_bad_parameter
unfolding program_add_command checked
fetch_refused = refl

program_add_command_cases_example :
    (IsCommand store_byte
      × Appended fresh_program store_byte
          (program_add_command (some fresh_program) (some store_byte) allocation))
    ⊎ (¬ (IsCommand store_byte)
        × (program_add_command (some fresh_program) (some store_byte) allocation
            ≡ refused err_bad_parameter))
program_add_command_cases_example =
    program_add_command_cases fresh_program store_byte allocation fresh-IsProgram (omega arith) refl

-- `program_init` of a program that has ten commands.
ten_commands_dropped :
    (p' : Program) × (program_init (some ten_commands) allocation ≡ returned err_none p')
    × IsProgram p'
    × ((i : ℕ) → line_at p' i ≡ none)
ten_commands_dropped = program_init-IsProgram ten_commands allocation refl
