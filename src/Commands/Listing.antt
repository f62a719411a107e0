-- ===== src/Commands/Listing.antt =====
-- A program as the sequence of its commands.
use kaby_lake_cache_c.Base.{
  ℕ, ◌+◌, ◌*◌, ◌/◌, ◌^◌, ◌≤◌, ◌<◌, ◌≡◌, ◌⊎◌, inl, inr, refl, arith, ◌∙◌, sym, subst, true, Option,
  none, some, ltb, ◌==◌, if◌then◌else◌, u64, dec_lt,
}
use kaby_lake_cache_c.Outcome.{err_none, err_bad_parameter, Outcome, returned, refused}
use kaby_lake_cache_c.Commands.{
  Command, Program, Allocation, program_init, new_program, with_command, store_command, grow,
  checked, add_line, program_add_command,
}
use kaby_lake_cache_c.Commands.Checks.{IsCommand, checked-cases}

-- The command of a line.
abbrev command_of : Option (ℕ → Command) → ℕ → Option Command
command_of none i = none
command_of (some l) i = some (l i)

unfoldable pub line_at : Program → ℕ → Option Command
line_at p i = if ltb i p.nb_lines then command_of p.listing i else none

-- The lines are in the block, and `allocated` counts no more commands than it has space for.
pub record IsProgram (p : Program) : Type 0 where
  pub block : (l : ℕ → Command) × (p.listing ≡ some l)
  pub filled : p.nb_lines ≤ p.allocated
  pub within : p.allocated ≤ p.room
  pub some_room : 0 < p.allocated

-- The sizes after one more line: the block is at most doubled.
abbrev pub Sizes : Program → Program → Type 0
Sizes p p' =
    (p'.nb_lines ≤ p.nb_lines + 1)
    × ((p'.allocated ≡ p.allocated) ⊎ (p'.allocated ≤ p.nb_lines * 2))

-- The call returns ERR_NONE with a program whose lines are those of `p` and then `c`.
abbrev pub Appended : Program → Command → Outcome Program → Type 0
Appended p c r =
    (p' : Program) × (r ≡ returned err_none p')
    × IsProgram p'
    × ((i : ℕ) → line_at p' i ≡ (if i == p.nb_lines then some c else line_at p i))
    × Sizes p p'

store_command-line :
    (c : Command) (l : ℕ → Command) (p : Program) (i : ℕ)
    → p.listing ≡ some l
    → p.nb_lines + 1 < 2 ^ 64
    → line_at (with_command c l p) i ≡ (if i == p.nb_lines then some c else line_at p i)
unfolding line_at
store_command-line c l p i e small = rw e (ground arith)

store_command-Appended :
    (c : Command) (p : Program)
    → IsProgram p
    → p.nb_lines < p.allocated
    → p.allocated < 2 ^ 64
    → Appended p c (store_command c p)
unfolding store_command
store_command-Appended c p ok h small =
    let (l, e) = ok.block in
    let hr = ok.within in
    (
      with_command c l p,
      rw e (ground arith),
      record { block = (_, refl); filled = omega arith; within = hr; some_room = ok.some_room },
      λ i. store_command-line c l p i e (omega arith),
      (omega arith, inl refl),
    )

-- The block after it was doubled.
abbrev doubled : (ℕ → Command) → Program → (fresh : ℕ → Command) → Program
doubled l p fresh = record p {
  listing = some (λ i. if ltb i p.room then l i else fresh i);
  allocated = u64 (p.allocated * 2);
  room = u64 (u64 (p.allocated * 2) * 32) / 32;
}

doubled-IsProgram :
    (l : ℕ → Command) (p : Program) (fresh : ℕ → Command)
    → IsProgram p
    → p.allocated * 64 < 2 ^ 64
    → IsProgram (doubled l p fresh)
doubled-IsProgram l p fresh ok small = record {
  block = (_, refl);
  filled = omega (arith, ok.filled);
  within = omega arith;
  some_room = omega (arith, ok.some_room);
}

doubled-line :
    (l : ℕ → Command) (p : Program) (fresh : ℕ → Command) (i : ℕ)
    → IsProgram p
    → p.listing ≡ some l
    → line_at (doubled l p fresh) i ≡ line_at p i
unfolding line_at
doubled-line l p fresh i ok e = rw e (ground (arith, ok.filled, ok.within))

grow-Appended :
    (c : Command) (l : ℕ → Command) (p : Program) (a : Allocation)
    → a.given ≡ true
    → IsProgram p
    → p.listing ≡ some l
    → p.allocated * 64 < 2 ^ 64
    → p.allocated ≤ p.nb_lines
    → Appended p c (grow c l p a)
unfolding grow
grow-Appended c l p a given ok e small full =
    let (p', done, ok', lines, (more, size)) =
      store_command-Appended c (doubled l p a.fresh) (doubled-IsProgram l p a.fresh ok small)
        (omega (arith, ok.filled, ok.some_room)) (omega arith) in
    subst (λ b. Appended p c (grow c l p (record a { given = b }))) (sym given)
      (
        p',
        done,
        ok',
        λ i. lines i ∙ rw (doubled-line l p a.fresh i ok e) refl,
        (more, elim size [ inl e ↦ inr (omega (arith, e, full)) | inr e ↦ inr e ]),
      )

add_line-Appended :
    (c : Command) (l : ℕ → Command) (p : Program) (a : Allocation)
    → a.given ≡ true
    → IsProgram p
    → p.listing ≡ some l
    → p.allocated * 64 < 2 ^ 64
    → Appended p c (add_line c l p a)
unfolding add_line
add_line-Appended c l p a given ok e small = elim (dec_lt p.nb_lines p.allocated) [
  | yes less ↦
      subst (Appended p c) (ground arith) (store_command-Appended c p ok less (omega arith))
  | no full ↦
      subst (Appended p c) (ground arith) (grow-Appended c l p a given ok e small (omega arith))
]

pub program_add_command-checked :
    (c : Command) (l : ℕ → Command) (p : Program) (a : Allocation)
    → p.listing ≡ some l
    → program_add_command (some p) (some c) a
      ≡ checked c.order c.type c.data_size c.write_data c.vaddr.page_offset (add_line c l p a)
unfolding program_add_command
program_add_command-checked c l p a e = rw e refl

-- If the lines of a program are in its block, the block is far from 2^64 bytes, and `realloc` gives
-- memory, then `program_add_command` accepts exactly the commands that are allowed. Then the program
-- has the command as its last line and all other lines as before, again in its block, which has grown
-- to at most twice its lines, if at all. It refuses the others with ERR_BAD_PARAMETER.
pub program_add_command_cases :
    (p : Program) (c : Command) (a : Allocation)
    → IsProgram p
    → p.allocated * 64 < 2 ^ 64
    → a.given ≡ true
    → (IsCommand c × Appended p c (program_add_command (some p) (some c) a))
      ⊎ (¬ (IsCommand c) × (program_add_command (some p) (some c) a ≡ refused err_bad_parameter))
program_add_command_cases p c a ok small given =
    let (l, e) = ok.block in
    let r =
      checked-cases c.order c.type c.data_size c.write_data c.vaddr.page_offset
        (add_line c l p a) in
    let reach = program_add_command-checked c l p a e in
    elim r [
      | inl (aligned, good, same) ↦ inl (
        record { aligned = aligned; allowed = good },
        subst (Appended p c) (sym (reach ∙ same)) (add_line-Appended c l p a given ok e small),
      )
      | inr (bad, same) ↦ inr (λ ok. bad (ok.aligned, ok.allowed), reach ∙ same)
    ]

pub new_program-IsProgram : (l : ℕ → Command) → IsProgram (new_program l)
new_program-IsProgram l = record {
  block = (_, refl);
  filled = omega arith;
  within = omega arith;
  some_room = omega arith;
}

pub program_init-new_program :
    (p : Program) (a : Allocation)
    → a.given ≡ true
    → program_init (some p) a ≡ returned err_none (new_program a.fresh)
unfolding program_init
program_init-new_program p a given = rw given refl

-- `program_init`, where `calloc` gives memory, makes a program without lines whose lines are in its
-- block.
pub program_init-IsProgram :
    (p : Program) (a : Allocation)
    → a.given ≡ true
    → (p' : Program) × (program_init (some p) a ≡ returned err_none p')
      × IsProgram p'
      × ((i : ℕ) → line_at p' i ≡ none)
unfolding line_at
program_init-IsProgram p a given = (
  new_program a.fresh,
  program_init-new_program p a given,
  new_program-IsProgram a.fresh,
  λ i. ground arith,
)
