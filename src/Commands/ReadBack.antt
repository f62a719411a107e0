-- ===== src/Commands/ReadBack.antt =====
-- What `program_read` makes of a line that `program_print` wrote.
use kaby_lake_cache_c.Base.{
  ℕ, ◌≡◌, ◌⊎◌, inl, inr, refl, sym, ◌∙◌, ap, arith, Bool, true, false, ◌==◌, ◌||◌, Option, some,
}
use mathlib.Core.List.{List, ◌∷◌, ◌++◌}
use kaby_lake_cache_c.Addr.{VirtAddr}
use kaby_lake_cache_c.Addr.Fields.{IsVirtAddr}
use kaby_lake_cache_c.TlbHrchy.{MemAccess, instruction, access_data}
use kaby_lake_cache_c.Commands.{CommandWord, order_read, order_write, Command}
use kaby_lake_cache_c.Commands.Reader.{
  File, undefined_char, Stdio, Reading, char_b, char_d, char_i, char_r, char_w, read_address,
  with_address, instruction_read, data_read, size_of, with_size, by_size, by_type, by_write_type,
  read_read, read_write,
}
use kaby_lake_cache_c.Commands.ReadFile.{Round, line_read, by_first, read_line}
use kaby_lake_cache_c.Commands.Print.{
  size_letter, Formats, space, newline, print_line, print_read, print_address,
}
use kaby_lake_cache_c.Commands.Letters.{
  file, IsStdio, next_letter, next_after_space, read_address-print_address,
}

-- A read with the type, the address and, for data, the size of a line. What the line does not give
-- stays.
abbrev pub read_back : MemAccess → Command → (target : Command) → Command
read_back instruction line target = record target {
  order = order_read;
  type = instruction;
  vaddr = line.vaddr;
}
read_back access_data line target = record target {
  order = order_read;
  type = access_data;
  vaddr = line.vaddr;
  data_size = line.data_size;
}

abbrev made : CommandWord → MemAccess → (data_size write_data : ℕ) → VirtAddr → Command
made o type n w v = record { order = o; type = type; data_size = n; write_data = w; vaddr = v }

-- Data is a word or a byte.
abbrev pub HasSize : MemAccess → (data_size : ℕ) → Type 0
HasSize instruction n = Unit {0}
HasSize access_data n = (n ≡ 4) ⊎ (n ≡ 1)

-- What is read of a printed line: of a read, this read, up to the end of the line; of a write, nothing,
-- and the command is what its variable held.
abbrev pub ReadAs :
    CommandWord → Command → Round → (rest : List ℕ) → Bool → Option Command × File → Type 0
ReadAs order_read line round rest at_end r =
    r ≡ (some (read_back line.type line round.command), file (newline ∷ rest) at_end)
ReadAs order_write line round rest at_end r = r.0 ≡ some round.command

module _ (lib : Stdio) (fprintf : Formats) (ok : IsStdio lib fprintf) where
  -- A line by its letters.
  read_line-r :
      (round : Round) (c : ℕ) (rest : List ℕ) (at_end : Bool)
      → lib.isspace c ≡ false
      → undefined_char c ≡ false
      → read_line lib round (file (char_r ∷ space ∷ c ∷ rest) at_end)
        ≡ line_read (by_type lib round.command round.vaddr (c, file rest at_end))
  unfolding read_line by_first read_read
  read_line-r round c rest at_end e inside =
      ap (by_first lib round)
        (next_letter lib fprintf ok char_r (space ∷ c ∷ rest) at_end ok.is_r refl)
      ∙ ap (λ r. line_read (by_type lib round.command round.vaddr r))
          (next_after_space lib fprintf ok c rest at_end e inside)

  read_line-w :
      (round : Round) (c : ℕ) (rest : List ℕ) (at_end : Bool)
      → lib.isspace c ≡ false
      → undefined_char c ≡ false
      → read_line lib round (file (char_w ∷ space ∷ c ∷ rest) at_end)
        ≡ line_read (by_write_type lib round.command round.vaddr (c, file rest at_end))
  unfolding read_line by_first read_write
  read_line-w round c rest at_end e inside =
      ap (by_first lib round)
        (next_letter lib fprintf ok char_w (space ∷ c ∷ rest) at_end ok.is_w refl)
      ∙ ap (λ r. line_read (by_write_type lib round.command round.vaddr r))
          (next_after_space lib fprintf ok c rest at_end e inside)

  instruction-read_back :
      (line : Command) (round : Round) (rest : List ℕ) (at_end : Bool)
      → IsVirtAddr line.vaddr
      → read_line lib round (file (print_read fprintf line instruction ++ rest) at_end)
        ≡ (some (read_back instruction line round.command), file (newline ∷ rest) at_end)
  unfolding by_type
  instruction-read_back line round rest at_end hv =
      read_line-r round char_i (space ∷ print_address fprintf line ++ rest) at_end ok.is_i refl
      ∙ ap (λ r. line_read (with_address r (instruction_read round.command) round.command))
          (read_address-print_address lib fprintf ok line round.vaddr rest at_end hv)

  data-read_back :
      (line : Command) (round : Round) (size : ℕ) (rest : List ℕ) (at_end : Bool)
      → IsVirtAddr line.vaddr
      → lib.isspace size ≡ false
      → undefined_char size ≡ false
      → (size == char_w || size == char_b) ≡ true
      → read_line lib round (
          file (char_r ∷ space ∷ char_d ∷ size ∷ space ∷ print_address fprintf line ++ rest) at_end)
        ≡ (some (data_read size round.command line.vaddr), file (newline ∷ rest) at_end)
  unfolding by_type with_size
  data-read_back line round size rest at_end hv off inside letter =
      let text = space ∷ print_address fprintf line ++ rest in
      let more : ℕ → File → Reading = λ s f.
        with_address (read_address lib f round.vaddr) (data_read s round.command) round.command in
      read_line-r round char_d (size ∷ text) at_end ok.is_d refl
      ∙ ap (λ r. line_read (by_size more round.command r))
          (next_letter lib fprintf ok size text at_end off inside)
      ∙ rw letter (
          ap (λ r. line_read (with_address r (data_read size round.command) round.command))
            (read_address-print_address lib fprintf ok line round.vaddr rest at_end hv))

  write-read_back :
      (line : Command) (round : Round) (c : ℕ) (rest : List ℕ) (at_end : Bool)
      → lib.isspace c ≡ false
      → undefined_char c ≡ false
      → (c == 1 || c == 0) ≡ false
      → (read_line lib round (file (char_w ∷ space ∷ c ∷ rest) at_end)).0 ≡ some round.command
  unfolding by_write_type
  write-read_back line round c rest at_end off inside other =
      ap (λ r. r.0) (read_line-w round c rest at_end off inside) ∙ rw other refl

  read_back-letter :
      (line : Command) (round : Round) (letter : ℕ) (rest : List ℕ) (at_end : Bool)
      → IsVirtAddr line.vaddr
      → lib.isspace letter ≡ false
      → undefined_char letter ≡ false
      → (letter == char_w || letter == char_b) ≡ true
      → size_letter access_data line.data_size ≡ letter
      → size_of letter ≡ line.data_size
      → read_line lib round (file (print_read fprintf line access_data ++ rest) at_end)
        ≡ (some (read_back access_data line round.command), file (newline ∷ rest) at_end)
  read_back-letter line round letter rest at_end hv off inside good e size =
      let text = space ∷ print_address fprintf line ++ rest in
      ap (λ s. read_line lib round (file (char_r ∷ space ∷ char_d ∷ s ∷ text) at_end)) e
      ∙ data-read_back line round letter rest at_end hv off inside good
      ∙ ap
          (λ k. (
            some (record (read_back access_data line round.command) { data_size = k }),
            file (newline ∷ rest) at_end,
          ))
          size

  read_back-sized :
      (line : Command) (round : Round) (rest : List ℕ) (at_end : Bool)
      → IsVirtAddr line.vaddr
      → HasSize access_data line.data_size
      → read_line lib round (file (print_read fprintf line access_data ++ rest) at_end)
        ≡ (some (read_back access_data line round.command), file (newline ∷ rest) at_end)
  read_back-sized line round rest at_end hv (inl e) =
      read_back-letter line round char_w rest at_end hv ok.is_w refl refl (ground arith) (sym e)
  read_back-sized line round rest at_end hv (inr e) =
      read_back-letter line round char_b rest at_end hv ok.is_b refl refl (ground arith) (sym e)

  ReadAs-print_line :
      (o : CommandWord) (type : MemAccess) (n w : ℕ) (v : VirtAddr) (round : Round) (rest : List ℕ)
      (at_end : Bool)
      → IsVirtAddr v
      → HasSize type n
      → ReadAs o
          (made o type n w v)
          round
          rest
          at_end
          (read_line lib round (file (print_line fprintf (made o type n w v) ++ rest) at_end))
  unfolding print_line
  ReadAs-print_line order_read instruction n w v round rest at_end hv size =
      instruction-read_back (made order_read instruction n w v) round rest at_end hv
  ReadAs-print_line order_read access_data n w v round rest at_end hv size =
      read_back-sized (made order_read access_data n w v) round rest at_end hv size
  ReadAs-print_line order_write instruction n w v round rest at_end hv size =
      write-read_back (made order_write instruction n w v) round char_i _ at_end ok.is_i refl refl
  ReadAs-print_line order_write access_data n w v round rest at_end hv size =
      write-read_back (made order_write access_data n w v) round char_d _ at_end ok.is_d refl refl

  -- A line of `program_print` is read back by `program_read`, whatever follows it, for an address whose
  -- fields fit, and data of a word or a byte: of a read, the order, the type, the address and the size
  -- of data are those of the line, and the file is left at its end; the rest of the command stays
  -- what its variable held. Of a write nothing is read: the whole command is what its variable held.
  pub read_line-print_line :
      (line : Command) (round : Round) (rest : List ℕ) (at_end : Bool)
      → IsVirtAddr line.vaddr
      → HasSize line.type line.data_size
      → ReadAs line.order line round rest at_end
          (read_line lib round (file (print_line fprintf line ++ rest) at_end))
  read_line-print_line line round rest at_end hv size =
      ReadAs-print_line line.order line.type line.data_size line.write_data line.vaddr round rest
        at_end hv size
