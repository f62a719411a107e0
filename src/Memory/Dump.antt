-- ===== src/Memory/Dump.antt =====
-- The memory that `mem_init_from_dumpfile` makes.
use kaby_lake_cache_c.Base.{
  ℕ, zero, suc, ◌+◌, ◌<◌, ◌≤◌, ◌≡◌, refl, ◌∙◌, ap, sym, subst, arith, true, Option, none, some,
  length, update, ltb, if◌then◌else◌, get_elem?, dec_lt,
}
use kaby_lake_cache_c.Outcome.{Outcome, err_none, err_bad_parameter, returned}
use mathlib.Core.List.{List, [], ◌∷◌}
use kaby_lake_cache_c.Memory.{Memory, IsMemory, IsByte}
use kaby_lake_cache_c.Memory.Load.{
  DiskFile, Disk, ftell_end, malloc_block, one_more, fread, after_fread, Loaded, load_dump,
  mem_init_from_dumpfile,
}

abbrev pub AreBytes : List ℕ → Type 0
AreBytes [] = Unit {0}
AreBytes (b ∷ bytes) = (b < 256) × AreBytes bytes

-- Every byte of the list stands at its place from `address` on, and the rest is as in `old`.
pub record Copied (old m : Memory) (address : ℕ) (bytes : List ℕ) : Type 0 where
  pub inside : (i : ℕ) → i < length bytes → m (address + i) ≡ get_elem? bytes i
  pub below : (a : ℕ) → a < address → m a ≡ old a
  pub above : (a : ℕ) → address + length bytes ≤ a → m a ≡ old a

Copied-inside :
    (old m : Memory) (address b : ℕ) (bytes : List ℕ)
    → Copied (update old address (some b)) m (address + 1) bytes
    → (i : ℕ) → i < length (b ∷ bytes)
    → m (address + i) ≡ get_elem? (b ∷ bytes) i
Copied-inside old m address b bytes c zero h =
    let at_begin : address + 0 ≡ address = omega arith in
    ap m at_begin ∙ c.below address (omega arith) ∙ ground arith
Copied-inside old m address b bytes c (suc i) h =
    let later : address + suc i ≡ address + 1 + i = omega arith in
    ap m later ∙ c.inside i (omega (arith, h))

Copied-cons :
    (old m : Memory) (address b : ℕ) (bytes : List ℕ)
    → Copied (update old address (some b)) m (address + 1) bytes
    → Copied old m address (b ∷ bytes)
Copied-cons old m address b bytes c = record {
  inside = Copied-inside old m address b bytes c;
  below = λ a h. c.below a (omega (arith, h)) ∙ ground arith;
  above = λ a h. c.above a (omega (arith, h)) ∙ ground arith;
}

-- A byte stands at each address from `address` on.
abbrev HasRoom : Memory → (address size : ℕ) → Type 0
HasRoom mem address size = (a : ℕ) → address ≤ a → a < address + size → (b : ℕ) × (mem a ≡ some b)

HasRoom-later :
    (mem : Memory) (address size b : ℕ)
    → HasRoom mem address (suc size)
    → HasRoom (update mem address (some b)) (address + 1) size
HasRoom-later mem address size b room a from to =
    let (old, e) = room a (omega (arith, from)) (omega (arith, to)) in
    let kept : update mem address (some b) a ≡ mem a = ground arith in (old, kept ∙ e)

fread-Copied :
    (mem : Memory) (address : ℕ) (bytes : List ℕ)
    → HasRoom mem address (length bytes)
    → (m : Memory) × (fread mem address (length bytes) bytes ≡ some (m, length bytes))
      × Copied mem m address bytes
unfolding fread
fread-Copied mem address [] room = (
  mem,
  refl,
  record { inside = λ i h. absurd (omega (arith, h)); below = λ a h. refl; above = λ a h. refl },
)
fread-Copied mem address (b ∷ bytes) room =
    let (old, e) = room address (omega arith) (omega arith) in
    let next = update mem address (some b) in
    let (m, done, c) =
      fread-Copied next (address + 1) bytes (HasRoom-later mem address (length bytes) b room) in
    let count : length bytes + 1 ≡ suc (length bytes) = omega arith in
    (m, rw e (ap one_more done) ∙ ap (λ n. some (m, n)) count, Copied-cons mem m address b bytes c)

bytes-IsMemory : (bytes : List ℕ) → AreBytes bytes → IsMemory (λ a. get_elem? bytes a)
bytes-IsMemory [] all a = tt
bytes-IsMemory (b ∷ bytes) (small, all) zero = small
bytes-IsMemory (b ∷ bytes) (small, all) (suc a) = bytes-IsMemory bytes all a

get_elem?-past : (bytes : List ℕ) (a : ℕ) → length bytes ≤ a → get_elem? bytes a ≡ none
get_elem?-past [] a large = refl
get_elem?-past (b ∷ bytes) zero large = absurd (omega (arith, large))
get_elem?-past (b ∷ bytes) (suc a) large = get_elem?-past bytes a (omega (arith, large))

-- The memory is the bytes of the file.
abbrev pub IsImage : Memory → List ℕ → Type 0
IsImage m bytes = (a : ℕ) → m a ≡ get_elem? bytes a

at_zero : (a : ℕ) → a ≡ 0 + a
at_zero a = omega arith

-- A block of the size of the file, once the file was copied to its begin.
Copied-IsImage :
    (old m : Memory) (bytes : List ℕ)
    → ((a : ℕ) → length bytes ≤ a → old a ≡ none)
    → Copied old m 0 bytes
    → IsImage m bytes
Copied-IsImage old m bytes ends c a = elim (dec_lt a (length bytes)) [
  | yes h ↦ ap m (at_zero a) ∙ c.inside a h
  | no h ↦
      let past : length bytes ≤ a = omega arith in
      c.above a (omega (arith, past)) ∙ ends a past ∙ sym (get_elem?-past bytes a past)
]

-- What loading a file of these bytes comes to.
abbrev pub Loads : List ℕ → Outcome Loaded → Type 0
Loads [] r = (s : Loaded) × (r ≡ returned err_bad_parameter s) × (s.capacity ≡ 0)
Loads (b ∷ bytes) r =
    (m : Memory) × (r
      ≡ returned err_none (record { mem_space = some m; capacity = length (b ∷ bytes) }))
    × IsMemory m
    × IsImage m (b ∷ bytes)

abbrev allocated : (fresh : ℕ → ℕ) → (size : ℕ) → Memory
allocated fresh size a = if ltb a size then some (fresh a) else none

after_fread-Loads :
    (fresh : ℕ → ℕ) (bytes : List ℕ)
    → AreBytes bytes
    → Loads bytes
        (after_fread (fread (allocated fresh (length bytes)) 0 (length bytes) bytes) (length bytes))
unfolding fread
after_fread-Loads fresh [] all = (_, refl, refl)
after_fread-Loads fresh (b ∷ bytes) all =
    let whole = b ∷ bytes in
    let start = allocated fresh (length whole) in
    let (m, done, c) = fread-Copied start 0 whole (λ a from to. (fresh a, ground (arith, to))) in
    let image = Copied-IsImage start m whole (λ a past. ground (arith, past)) c in
    let filled : ltb 0 (length whole) ≡ true = ground arith in
    (
      m,
      ap (λ r. after_fread r (length whole)) done ∙ rw filled refl,
      λ a. subst IsByte (sym (image a)) (bytes-IsMemory whole all a),
      image,
    )

-- `mem_init_from_dumpfile` of a file of bytes, where `fseek` to its end succeeds and `malloc` gives
-- memory, whatever is in it: of a file that is not empty it returns ERR_NONE, the size of the file as
-- the capacity, and a memory that has byte `a` of the file at each address `a` below the capacity and
-- nothing from there on. For an empty file it returns ERR_BAD_PARAMETER with capacity 0.
pub mem_init_from_dumpfile-Loads :
    (fopen : Disk) (name : List ℕ) (file : DiskFile) (fresh : ℕ → ℕ) (old : Option Memory)
    (capacity : ℕ)
    → fopen name ≡ some file
    → file.fseek_end ≡ some 0
    → AreBytes file.bytes
    → Loads file.bytes (
        mem_init_from_dumpfile fopen
          (record { given = true; fresh = fresh })
          (some name)
          (some old)
          (some capacity))
unfolding mem_init_from_dumpfile load_dump malloc_block
mem_init_from_dumpfile-Loads fopen name file fresh old capacity e seeks all =
    let size : ftell_end file ≡ length file.bytes = rw seeks refl in
    rw (e, size) (after_fread-Loads fresh file.bytes all)
