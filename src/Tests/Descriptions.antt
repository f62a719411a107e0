-- ===== src/Tests/Descriptions.antt =====
-- A description of a memory, and a dump of three bytes.
use kaby_lake_cache_c.Base.{
  ℕ, ◌<◌, ◌≡◌, refl, arith, length, subst, true, false, Option, none, some,
}
use mathlib.Core.List.{List, [], ◌∷◌}
use kaby_lake_cache_c.Memory.Dump.{Loads, mem_init_from_dumpfile-Loads}
use kaby_lake_cache_c.Memory.Load.{DiskFile, Disk, positive, mem_init_from_dumpfile}
use kaby_lake_cache_c.Memory.Describe.{Text, Sscanf, Describing, mem_init_from_description}
use kaby_lake_cache_c.Memory.Refuses.{SeeksAsDocumented, Refused, mem_init_from_description-refuses}
use kaby_lake_cache_c.Tests.Data.{here, nowhere}

abbrev three_bytes : DiskFile
three_bytes = record { bytes = 7 ∷ 8 ∷ 9 ∷ []; fseek_end = some 0 }

abbrev disk : Disk
disk name = some three_bytes

disk-SeeksAsDocumented : SeeksAsDocumented disk
disk-SeeksAsDocumented name file e =
    let same : three_bytes ≡ file = cc in subst (λ f. positive f.fseek_end ≡ false) same refl

abbrev sscanf : Sscanf
sscanf = record {
  size = λ line. some 4096;
  name = λ line. some line;
  count = λ line. some 0;
  page = λ line. none;
  virtual_page = λ line. none;
}

abbrev two_lines : Text → Option (List Text)
two_lines name = some ((52 ∷ []) ∷ (112 ∷ []) ∷ [])

abbrev describing : Describing
describing = record { memory = none; pages = 0; file_name = []; v_address = here; paddr = nowhere }

two_lines-fit : (name : Text) → sscanf.name (112 ∷ []) ≡ some name → length name < 128
two_lines-fit name e =
    let same : 112 ∷ [] ≡ name = cc in subst (λ n. length n < 128) same (omega arith)

mem_init_from_description-refuses_example :
    Refused
      (mem_init_from_description sscanf disk two_lines true (some []) (some describing) (some 0))
mem_init_from_description-refuses_example =
    mem_init_from_description-refuses sscanf disk disk-SeeksAsDocumented true two_lines [] (52 ∷ [])
      (112 ∷ []) [] describing 0 refl two_lines-fit

-- `malloc` gives a block of sevens.
abbrev sevens : ℕ → ℕ
sevens a = 7

mem_init_from_dumpfile-Loads_example : Loads (7 ∷ 8 ∷ 9 ∷ []) (
    mem_init_from_dumpfile disk
      (record { given = true; fresh = sevens })
      (some [])
      (some none)
      (some 0))
mem_init_from_dumpfile-Loads_example =
    mem_init_from_dumpfile-Loads disk [] three_bytes sevens none 0 refl refl
      (omega arith, (omega arith, (omega arith, tt)))
