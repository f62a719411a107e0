-- ===== src/Commands/Ends.antt =====
-- `program_read` comes to its end, with a well-formed program or an error code.
use kaby_lake_cache_c.Base.{
  ℕ, zero, suc, ◌+◌, ◌*◌, ◌^◌, ◌≤◌, ◌<◌, ◌≡◌, ◌⊎◌, inl, inr, refl, sym, subst, arith, true, Option,
  none, some, length, Bool-cases, Option-cases,
}
use kaby_lake_cache_c.Outcome.{
  err_none, err_bad_parameter, err_io, Outcome, returned, refused, fault,
}
use mathlib.Core.List.{List}
use kaby_lake_cache_c.Commands.{new_program, Command, Program, Allocation}
use kaby_lake_cache_c.Commands.Reader.{File, Stdio}
use kaby_lake_cache_c.Commands.ReadFile.{
  Round, read_line, going_on, added, read_lines, initialised, read_file, program_read,
}
use kaby_lake_cache_c.Commands.Advance.{ReadsOn, IsText, read_line-Advanced, read_line-Later}
use kaby_lake_cache_c.Commands.Listing.{
  IsProgram, program_add_command_cases, new_program-IsProgram, program_init-new_program,
}

-- Well-formed after `i` lines of the file at most.
record Fits (i : ℕ) (p : Program) : Type 0 where
  ok : IsProgram p
  lines : p.nb_lines ≤ i
  size : p.allocated ≤ 8 + i * 2

-- With ERR_NONE the program is well-formed; and nothing undefined was done.
abbrev pub Sound : Outcome Program → Type 0
Sound (returned err_none p) = IsProgram p
Sound (returned _ p) = Unit {0}
Sound (refused _) = Unit {0}
Sound fault = ⊥

abbrev Ends : Option (Outcome Program) → Type 0
Ends r = (o : Outcome Program) × (r ≡ some o) × Sound o

-- What one line makes of the program.
abbrev Step : (i : ℕ) → Program → Outcome Program → Type 0
Step i p r =
    ((p' : Program) × (r ≡ returned err_none p') × Fits (i + 1) p')
    ⊎ (r ≡ refused err_bad_parameter)

added-Step :
    (i : ℕ) (command : Option Command) (a : Allocation) (p : Program)
    → i < 2 ^ 56
    → a.given ≡ true
    → Fits i p
    → Step i p (added command a p)
added-Step i none a p small given fits = inl (
  p,
  refl,
  record { ok = fits.ok; lines = omega (arith, fits.lines); size = omega (arith, fits.size) },
)
added-Step i (some c) a p small given fits =
    elim (program_add_command_cases p c a fits.ok (omega (arith, fits.size)) given) [
      | inl (_, (p', done, ok', lines, (more, size))) ↦ inl (
        p',
        done,
        record {
          ok = ok';
          lines = omega (arith, more, fits.lines);
          size = elim size [
            | inl e ↦ omega (arith, e, fits.size)
            | inr e ↦ omega (arith, e, fits.lines)
          ];
        },
      )
      | inr (_, refuses) ↦ inr refuses
    ]

going_on-Ends :
    (i : ℕ) (r : Outcome Program) (p : Program) (more : Program → Option (Outcome Program))
    → Step i p r
    → ((p' : Program) → Fits (i + 1) p' → Ends (more p'))
    → Ends (going_on r p more)
going_on-Ends i r p more (inl (p', done, fits)) ends =
    subst (λ r. Ends (going_on r p more)) (sym done) (ends p' fits)
going_on-Ends i r p more (inr done) ends =
    subst (λ r. Ends (going_on r p more)) (sym done) (returned err_bad_parameter p, refl, tt)

module _ (lib : Stdio) (reads : ReadsOn lib) (locals : ℕ → Round)
    (given : (i : ℕ) → (locals i).memory.given ≡ true) where
  read_lines-Ends :
      (rounds i : ℕ) (f : File) (p : Program)
      → length f.bytes < rounds
      → i + rounds ≤ 2 ^ 56
      → IsText f
      → Fits i p
      → Ends (read_lines rounds lib locals i f p)
  unfolding read_lines
  read_lines-Ends zero i f p enough small text fits = absurd (omega (arith, enough))
  read_lines-Ends (suc rounds) i f p enough small text fits =
      let (command, g) = read_line lib (locals i) f in
      let (_, _, texts) = read_line-Later lib reads (locals i) f in
      let text' = texts text in
      rw text'.0 (
        going_on-Ends i (added command (locals i).memory p) p _
          (added-Step i command (locals i).memory p (omega (arith, small)) (given i) fits)
          λ p' fits'. elim (Bool-cases g.at_end) [
            | inl e ↦ (returned err_none p', rw e refl, fits'.ok)
            | inr e ↦ elim (read_line-Advanced lib reads (locals i) f) [
              | inl e' ↦ absurd (cc)
              | inr smaller ↦ rw e (
                  read_lines-Ends rounds (i + 1) g p' (omega (arith, enough, smaller))
                    (omega (arith, small)) text' fits')
            ]
          ])

  read_file-Ends :
      (rounds : ℕ) (o : Option File) (a : Allocation) (p : Program)
      → a.given ≡ true
      → rounds ≤ 2 ^ 56
      → ((f : File) → o ≡ some f → (length f.bytes < rounds) × IsText f)
      → Ends (read_file rounds lib locals o a p)
  unfolding read_file
  read_file-Ends rounds none a p given' small enough = (refused err_io, refl, tt)
  read_file-Ends rounds (some f) a p given' small enough =
      let start = new_program a.fresh in
      let fits : Fits 0 start = record {
        ok = new_program-IsProgram a.fresh;
        lines = omega arith;
        size = omega arith;
      } in
      subst (λ r. Ends (initialised r p (read_lines rounds lib locals 0 f)))
        (sym (program_init-new_program p a given'))
        (read_lines-Ends rounds 0 f start (enough f refl).0 (omega (arith, small)) (enough f refl).1
          fits)

  -- `program_read` terminates and does nothing that C leaves undefined: it returns a code, and with
  -- ERR_NONE the lines of the program are in its block. One round more than the longest file has bytes
  -- is enough, if that is less than 2^56. The files are of ASCII characters, and
  -- no call of `isspace` was undefined when they are opened; `calloc` and `realloc` give memory; and
  -- `fscanf` neither gives back characters that were read nor clears the end flag, and leaves ASCII
  -- characters and no undefined call where there were none other before.
  pub program_read-Ends :
      (rounds : ℕ) (fopen : List ℕ → Option File) (a : Allocation) (filename : Option (List ℕ))
      (program : Option Program)
      → a.given ≡ true
      → rounds ≤ 2 ^ 56
      → ((name : List ℕ) (f : File) → fopen name ≡ some f → (length f.bytes < rounds) × IsText f)
      → (o : Outcome Program) × (program_read rounds lib locals fopen a filename program ≡ some o)
        × Sound o
  unfolding program_read
  program_read-Ends rounds fopen a none program given' small enough =
      (refused err_bad_parameter, refl, tt)
  program_read-Ends rounds fopen a (some name) none given' small enough =
      (refused err_bad_parameter, refl, tt)
  program_read-Ends rounds fopen a (some name) (some p) given' small enough =
      elim (Option-cases p.listing) [
        | inl e ↦ (refused err_bad_parameter, rw e refl, tt)
        | inr (l, e) ↦ rw e (read_file-Ends rounds (fopen name) a p given' small (enough name))
      ]
