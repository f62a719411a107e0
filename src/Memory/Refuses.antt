-- ===== src/Memory/Refuses.antt =====
-- `mem_init_from_description` accepts no description of two lines or more.
use kaby_lake_cache_c.Base.{
  ℕ, ◌≡◌, refl, ap, Bool, false, Option, none, some, inl, inr, Option-cases, arith, length, ◌<◌,
  true,
}
use kaby_lake_cache_c.Outcome.{err_bad_parameter, Outcome, returned, refused}
use mathlib.Core.List.{List, ◌∷◌}
use kaby_lake_cache_c.Memory.{Memory}
use kaby_lake_cache_c.Memory.Load.{DiskFile, Disk, positive, page_file_read}
use kaby_lake_cache_c.Memory.Describe.{
  Text, Sscanf, Describing, after_page, root_line, describe_line, next_line, fits_buffer, zeros,
  describe_lines, mem_init_from_description,
}

-- `fseek` returns 0 or a negative number.
abbrev pub SeeksAsDocumented : Disk → Type 0
SeeksAsDocumented fopen =
    (name : List ℕ) (file : DiskFile) → fopen name ≡ some file → positive file.fseek_end ≡ false

-- ERR_BAD_PARAMETER, with the objects as they then are.
abbrev pub Refused : Outcome Describing → Type 0
Refused o = (s : Describing) × (o ≡ returned err_bad_parameter s)

Refused-next_line :
    (o : Outcome Describing) (more : Describing → Outcome Describing)
    → Refused o
    → Refused (next_line o more)
Refused-next_line o more (s, e) = (s, ap (λ r. next_line r more) e)

module _ (sscanf : Sscanf) (fopen : Disk) (seeks : SeeksAsDocumented fopen) (given : Bool) where
  page_file_read-refused :
      (name : List ℕ) (m : Option Memory) (address : ℕ)
      → page_file_read fopen (some name) (some m) address ≡ refused err_bad_parameter
  unfolding page_file_read
  page_file_read-refused name m address = elim (Option-cases (fopen name)) [
    | inl e ↦ rw e refl
    | inr (file, e) ↦ rw (e, seeks name file e) refl
  ]

  root_line-Refused :
      (o : Option Text) (s : Describing)
      → ((name : Text) → o ≡ some name → length name < 128)
      → Refused (root_line o fopen s)
  root_line-Refused none s fits = (s, refl)
  root_line-Refused (some name) s fits =
      let small : fits_buffer name ≡ true = ground (arith, fits name refl) in
      (s, rw small (ap (λ o. after_page o s) (page_file_read-refused name s.memory 0)))

  describe_lines-Refused :
      (l0 l1 : Text) (lines : List Text) (s : Describing)
      → ((name : Text) → sscanf.name l1 ≡ some name → length name < 128)
      → Refused (describe_lines sscanf fopen given 0 (l0 ∷ l1 ∷ lines) s)
  unfolding describe_lines describe_line
  describe_lines-Refused l0 l1 lines s fits = elim (Option-cases (sscanf.size l0)) [
    | inl e ↦ (s, rw e refl)
    | inr (size, e) ↦ rw e (
        Refused-next_line
          (root_line (sscanf.name l1) fopen (record s { memory = zeros given size })) _
          (root_line-Refused (sscanf.name l1) (record s { memory = zeros given size }) fits))
  ]

  -- If `fseek` returns 0 or a negative number, as documented, `mem_init_from_description` accepts no
  -- description of two lines or more: whatever the first line says, whatever the files are, and
  -- whether `calloc` gives the memory or not, it returns ERR_BAD_PARAMETER, if the name that `sscanf`
  -- finds in the second line, if any, has less than 128 characters.
  pub mem_init_from_description-refuses :
      (getlines : Text → Option (List Text)) (master_filename l0 l1 : Text) (lines : List Text)
      (memory : Describing) (mem_capacity_in_bytes : ℕ)
      → getlines master_filename ≡ some (l0 ∷ l1 ∷ lines)
      → ((name : Text) → sscanf.name l1 ≡ some name → length name < 128)
      → Refused (
          mem_init_from_description sscanf fopen getlines given
            (some master_filename)
            (some memory)
            (some mem_capacity_in_bytes))
  unfolding mem_init_from_description
  mem_init_from_description-refuses getlines name l0 l1 lines s c e fits =
      rw e (describe_lines-Refused l0 l1 lines s fits)
