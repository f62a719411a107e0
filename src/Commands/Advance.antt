-- ===== src/Commands/Advance.antt =====
-- Every line that `program_read` reads takes it on in the file.
use kaby_lake_cache_c.Base.{
  ℕ, suc, ◌≤◌, ◌≡◌, ◌⊎◌, inl, inr, refl, sym, subst, arith, Bool, true, false, ◌==◌, ◌||◌, ◌&&◌,
  if◌then◌else◌, Option, none, some, length, ◌<◌,
}
use kaby_lake_cache_c.Outcome.{err_bad_parameter}
use mathlib.Core.List.{List, [], ◌∷◌}
use kaby_lake_cache_c.Addr.{VirtAddr}
use kaby_lake_cache_c.Commands.{Command, negate}
use kaby_lake_cache_c.Commands.Reader.{
  eof, File, undefined_char, Stdio, skip, next_nonspace_read, Reading, char_at, char_b, char_i,
  char_r, char_w, addressed, read_address, with_address, data_read, with_size, by_type, read_read,
  with_value, by_write_type, read_write,
}
use kaby_lake_cache_c.Commands.ReadFile.{Round, line_read, by_first, read_line}

-- ASCII characters.
abbrev pub AreAscii : List ℕ → Type 0
AreAscii [] = Unit {0}
AreAscii (c ∷ bytes) = (c < 128) × AreAscii bytes

-- Only ASCII characters are left, and every call of `isspace` was defined.
abbrev pub IsText : File → Type 0
IsText f = (f.undefined ≡ false) × AreAscii f.bytes

-- The file was read on.
abbrev pub Later : File → File → Type 0
Later f g =
    (length g.bytes ≤ length f.bytes) × (f.at_end ≡ true → g.at_end ≡ true) × (IsText f → IsText g)

-- `fscanf` does not give characters back that were read before, does not clear the end flag, and
-- leaves ASCII characters if there are no others.
abbrev pub ReadsOn : Stdio → Type 0
ReadsOn lib = (f : File) → Later f (lib.scan_hex f).1

-- The end of the file was met, or a character was read.
abbrev pub Advanced : File → File → Type 0
Advanced f g = (g.at_end ≡ true) ⊎ (suc (length g.bytes) ≤ length f.bytes)

Later-refl : (f : File) → Later f f
Later-refl f = (omega arith, λ e. e, λ d. d)

Later-trans : (f g h : File) → Later f g → Later g h → Later f h
Later-trans f g h (a, b, text) (c, d, later) =
    (omega (arith, a, c), λ e. d (b e), λ x. later (text x))

Advanced-Later : (f g h : File) → Advanced f g → Later g h → Advanced f h
Advanced-Later f g h (inl e) (a, b, _) = inl (b e)
Advanced-Later f g h (inr s) (a, b, _) = inr (omega (arith, s, a))

-- Both branches.
if_both : {A : Type 0} (P : A → Type 0) (b : Bool) (x y : A) → P x → P y → P (if b then x else y)
if_both P true x y p q = p
if_both P false x y p q = q

-- A byte of a text is in the domain of `isspace`.
called-defined :
    (c : ℕ) (undefined : Bool)
    → c < 128
    → undefined ≡ false
    → (undefined || undefined_char c) ≡ false
called-defined c undefined small e = ground arith

abbrev opened : List ℕ → (at_end undefined : Bool) → File
opened bytes at_end undefined = record { bytes = bytes; at_end = at_end; undefined = undefined }

opened-Later :
    (c : ℕ) (bytes : List ℕ) (at_end undefined : Bool)
    → Later
        (opened (c ∷ bytes) at_end undefined)
        (opened bytes at_end (undefined || undefined_char c))
opened-Later c bytes at_end undefined =
    (omega arith, λ e. e, λ (d, (small, text)). (called-defined c undefined small d, text))

skip-Later :
    (isspace : ℕ → Bool) (bytes : List ℕ) (at_end undefined : Bool)
    → Later (opened bytes at_end undefined) (skip isspace bytes at_end undefined).1
skip-Later isspace [] at_end undefined = (omega arith, λ e. refl, λ d. d)
skip-Later isspace (c ∷ bytes) at_end undefined =
    let called = undefined || undefined_char c in
    let first = opened-Later c bytes at_end undefined in
    if_both (λ (r : ℕ × File). Later (opened (c ∷ bytes) at_end undefined) r.1)
      (isspace c && negate (c == eof)) _ _
      (Later-trans (opened (c ∷ bytes) at_end undefined) (opened bytes at_end called) _ first
        (skip-Later isspace bytes at_end called))
      first

skip-Advanced :
    (isspace : ℕ → Bool) (bytes : List ℕ) (at_end undefined : Bool)
    → Advanced (opened bytes at_end undefined) (skip isspace bytes at_end undefined).1
skip-Advanced isspace [] at_end undefined = inl refl
skip-Advanced isspace (c ∷ bytes) at_end undefined =
    if_both (λ (r : ℕ × File). Advanced (opened (c ∷ bytes) at_end undefined) r.1)
      (isspace c && negate (c == eof)) _ _
      (elim (skip-Advanced isspace bytes at_end (undefined || undefined_char c)) [
        | inl e ↦ inl e
        | inr s ↦ inr (omega (arith, s))
      ])
      (inr (omega arith))

module _ (lib : Stdio) (reads : ReadsOn lib) where
  next-Later : (f : File) → Later f (next_nonspace_read lib f).1
  unfolding next_nonspace_read
  next-Later f = skip-Later lib.isspace f.bytes f.at_end f.undefined

  next-Advanced : (f : File) → Advanced f (next_nonspace_read lib f).1
  unfolding next_nonspace_read
  next-Advanced f = skip-Advanced lib.isspace f.bytes f.at_end f.undefined

  addressed-Later :
      (f : File) (r : Option ℕ × File) (v : VirtAddr) → Later f r.1 → Later f (addressed r v).1
  addressed-Later f (none, g) v l = l
  addressed-Later f (some n, g) v l = l

  read_address-Later : (f : File) (v : VirtAddr) → Later f (read_address lib f v).1
  unfolding read_address
  read_address-Later f v =
      let (c, g) = next_nonspace_read lib f in
      if_both (λ (r : Option VirtAddr × File). Later f r.1) (c == char_at) _ _
        (addressed-Later f (lib.scan_hex g) v
          (Later-trans f g (lib.scan_hex g).1 (next-Later f) (reads g)))
        (next-Later f)

  with_address-Later :
      (f : File) (r : Option VirtAddr × File) (make : VirtAddr → Command) (target : Command)
      → Later f r.1
      → Later f (with_address r make target).2
  with_address-Later f (none, g) make target l = l
  with_address-Later f (some v, g) make target l = l

  with_size-Later :
      (f : File) (more : ℕ → File → Reading) (target : Command)
      → ((size : ℕ) (g : File) → Later g (more size g).2)
      → Later f (with_size lib f more target).2
  unfolding with_size
  with_size-Later f more target l =
      let (size, g) = next_nonspace_read lib f in
      if_both (λ (r : Reading). Later f r.2) (size == char_w || size == char_b) _ _
        (Later-trans f g (more size g).2 (next-Later f) (l size g)) (next-Later f)

  read_read-Later :
      (f : File) (target : Command) (v : VirtAddr) → Later f (read_read lib f target v).2
  unfolding read_read by_type
  read_read-Later f target v =
      let (order, g) = next_nonspace_read lib f in
      if_both (λ (r : Reading). Later f r.2) (order == eof) _ _ (next-Later f)
        (if_both (λ (r : Reading). Later f r.2) (order == char_i) _ _
          (Later-trans f g _ (next-Later f)
            (with_address-Later g (read_address lib g v) _ target (read_address-Later g v)))
          (Later-trans f g _ (next-Later f) (
            with_size-Later g
              (λ size h. with_address (read_address lib h v) (data_read size target) target) target
              (λ size h.
                with_address-Later h (read_address lib h v) (data_read size target) target
                  (read_address-Later h v)))))

  with_value-Later :
      (f : File) (r : Option ℕ × File) (size : ℕ) (target : Command) (v : VirtAddr)
      → Later f r.1
      → Later f (with_value r lib size target v).2
  unfolding with_value
  with_value-Later f (none, g) size target v l = l
  with_value-Later f (some n, g) size target v l =
      Later-trans f g _ l
        (with_address-Later g (read_address lib g v) _ target (read_address-Later g v))

  read_write-Later :
      (f : File) (target : Command) (v : VirtAddr) → Later f (read_write lib f target v).2
  unfolding read_write by_write_type
  read_write-Later f target v =
      let (order, g) = next_nonspace_read lib f in
      if_both (λ (r : Reading). Later f r.2) (order == 1 || order == 0) _
        (err_bad_parameter, target, g)
        (Later-trans f g _ (next-Later f) (
          with_size-Later g (λ size h. with_value (lib.scan_hex h) lib size target v) target
            (λ size h. with_value-Later h (lib.scan_hex h) size target v (reads h))))
        (next-Later f)

  line_read-file : (r : Reading) → (line_read r).1 ≡ r.2
  line_read-file (code, command, f) = refl

  -- What holds of each file that is read on from behind the first letter holds after the line.
  read_line-after :
      (P : File → Type 0) (round : Round) (f : File)
      → ((h : File) → Later (next_nonspace_read lib f).1 h → P h)
      → P (read_line lib round f).1
  unfolding read_line by_first
  read_line-after P round f holds =
      let (first, g) = next_nonspace_read lib f in
      let step : (r : Reading) → Later g r.2 → P (line_read r).1 =
        λ r l. subst P (sym (line_read-file r)) (holds r.2 l) in
      if_both (λ (r : Option Command × File). P r.1) (first == char_r) _ _
        (step (read_read lib g round.command round.vaddr) (read_read-Later g _ _))
        (if_both (λ (r : Option Command × File). P r.1) (first == char_w) _ _
          (step (read_write lib g round.command round.vaddr) (read_write-Later g _ _))
          (holds g (Later-refl g)))

  pub read_line-Advanced : (round : Round) (f : File) → Advanced f (read_line lib round f).1
  read_line-Advanced round f =
      read_line-after (Advanced f) round f λ h l. Advanced-Later f _ h (next-Advanced f) l

  pub read_line-Later : (round : Round) (f : File) → Later f (read_line lib round f).1
  read_line-Later round f =
      read_line-after (Later f) round f λ h l. Later-trans f _ h (next-Later f) l
