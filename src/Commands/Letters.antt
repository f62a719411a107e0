-- ===== src/Commands/Letters.antt =====
-- The characters of a printed line, read back.
use kaby_lake_cache_c.Base.{
  ℕ, ◌^◌, ◌<◌, ◌≡◌, refl, ◌∙◌, ap, arith, Bool, true, false, ◌==◌, if◌then◌else◌, Option, none,
  some, u64,
}
use mathlib.Core.List.{List, [], ◌∷◌, ◌++◌, append_assoc}
use kaby_lake_cache_c.Addr.{VirtAddr, virt_addr_to_uint64, init_virt_addr64}
use kaby_lake_cache_c.Addr.Fields.{IsVirtAddr, uint64-sum, page_number-lt}
use kaby_lake_cache_c.Addr.Virtual.{init_virt_addr64-uint64}
use kaby_lake_cache_c.Commands.{Command}
use kaby_lake_cache_c.Commands.Reader.{
  File, undefined_char, Stdio, next_nonspace_read, char_at, char_b, char_d, char_i, char_r, char_w,
  address, addressed, read_address,
}
use kaby_lake_cache_c.Commands.Print.{Formats, space, newline, print_address}

abbrev pub file : List ℕ → Bool → File
file bytes at_end = record { bytes = bytes; at_end = at_end; undefined = false }

-- `isspace` holds of a space and of no character of a command, and `fscanf` of an address that
-- `fprintf` wrote gives the address and stops at the end of the line.
pub record IsStdio (lib : Stdio) (fprintf : Formats) : Type 0 where
  pub is_space : lib.isspace space ≡ true
  pub is_at : lib.isspace char_at ≡ false
  pub is_b : lib.isspace char_b ≡ false
  pub is_d : lib.isspace char_d ≡ false
  pub is_i : lib.isspace char_i ≡ false
  pub is_r : lib.isspace char_r ≡ false
  pub is_w : lib.isspace char_w ≡ false
  pub scans :
      (n : ℕ) (rest : List ℕ) (at_end : Bool)
      → n < 2 ^ 64
      → lib.scan_hex (file (fprintf.address n ++ newline ∷ rest) at_end)
        ≡ (some n, file (newline ∷ rest) at_end)

module _ (lib : Stdio) (fprintf : Formats) (ok : IsStdio lib fprintf) where
  pub next_letter :
      (c : ℕ) (rest : List ℕ) (at_end : Bool)
      → lib.isspace c ≡ false
      → undefined_char c ≡ false
      → next_nonspace_read lib (file (c ∷ rest) at_end) ≡ (c, file rest at_end)
  unfolding next_nonspace_read
  next_letter c rest at_end e inside = rw (e, inside) refl

  pub next_after_space :
      (c : ℕ) (rest : List ℕ) (at_end : Bool)
      → lib.isspace c ≡ false
      → undefined_char c ≡ false
      → next_nonspace_read lib (file (space ∷ c ∷ rest) at_end) ≡ (c, file rest at_end)
  unfolding next_nonspace_read
  next_after_space c rest at_end e inside = rw (ok.is_space, e, inside) refl

  read_address-at :
      (n : ℕ) (old : VirtAddr) (prefix rest : List ℕ) (at_end : Bool)
      → next_nonspace_read lib (file prefix at_end)
        ≡ (char_at, file ((fprintf.address n ++ newline ∷ []) ++ rest) at_end)
      → n < 2 ^ 64
      → read_address lib (file prefix at_end) old
        ≡ (some (address (init_virt_addr64 (some old) n) old), file (newline ∷ rest) at_end)
  unfolding read_address
  read_address-at n old prefix rest at_end e small =
      let after : ℕ × File → Option VirtAddr × File =
        λ r. if r.0 == char_at then addressed (lib.scan_hex r.1) old else (none, r.1) in
      let same : u64 n ≡ n = omega (arith, small) in
      ap after e
      ∙ ap (λ bytes. addressed (lib.scan_hex (file bytes at_end)) old)
          (append_assoc (fprintf.address n) (newline ∷ []) rest)
      ∙ ap (λ r. addressed r old) (ok.scans n rest at_end small)
      ∙ ap (λ m. (some (address (init_virt_addr64 (some old) m) old), file (newline ∷ rest) at_end))
          same

  pub read_address-print_address :
      (line : Command) (old : VirtAddr) (rest : List ℕ) (at_end : Bool)
      → IsVirtAddr line.vaddr
      → read_address lib (file (space ∷ print_address fprintf line ++ rest) at_end) old
        ≡ (some line.vaddr, file (newline ∷ rest) at_end)
  read_address-print_address line old rest at_end hv =
      let n = virt_addr_to_uint64 (some line.vaddr) in
      let text = (fprintf.address n ++ newline ∷ []) ++ rest in
      read_address-at n old (space ∷ char_at ∷ text) rest at_end
        (next_after_space char_at text at_end ok.is_at refl)
        (omega (arith, uint64-sum line.vaddr hv, page_number-lt line.vaddr hv))
      ∙ ap (λ o. (some (address o old), file (newline ∷ rest) at_end))
          (init_virt_addr64-uint64 old line.vaddr hv)
