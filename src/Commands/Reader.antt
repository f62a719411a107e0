-- ===== src/Commands/Reader.antt =====
-- The reading of commands of commands.c: `next_nonspace_read`, `read_read` and `read_write`. A file is
-- the list of its bytes that are left, with the flag of `feof`; reading it makes no error. A local variable that is not set holds what is in memory, an argument here.
use kaby_lake_cache_c.Base.{
  ℕ, Bool, true, ◌&&◌, ◌||◌, ◌==◌, leb, if◌then◌else◌, Option, none, some, u32, u64,
}
use kaby_lake_cache_c.Outcome.{ErrorCode, err_none, err_bad_parameter, Outcome, returned}
use mathlib.Core.List.{List, [], ◌∷◌}
use kaby_lake_cache_c.Addr.{VirtAddr, init_virt_addr64}
use kaby_lake_cache_c.TlbHrchy.{instruction, access_data}
use kaby_lake_cache_c.Commands.{order_read, order_write, Command, negate}

-- EOF as a `char`.
abbrev pub eof : ℕ
eof = 0xff

-- `undefined` is set once `isspace` was called with a number for which C does not define it.
pub record File : Type 0 where
  pub bytes : List ℕ
  pub at_end : Bool
  pub undefined : Bool

-- A `char` has a sign, so the bytes from 0x80 on go to `isspace` as negative numbers, of which it takes
-- EOF alone.
abbrev pub undefined_char : (c : ℕ) → Bool
undefined_char c = leb 128 c && negate (c == eof)

-- The functions of the C library that read: `isspace`, and `fscanf` of a number in hexadecimal, which
-- gives the number if it found one.
pub record Stdio : Type 0 where
  pub isspace : ℕ → Bool
  pub scan_hex : File → Option ℕ × File

abbrev pub skip : (isspace : ℕ → Bool) → List ℕ → (at_end undefined : Bool) → ℕ × File
skip isspace [] at_end undefined =
    (eof, record { bytes = []; at_end = true; undefined = undefined })
skip isspace (c ∷ bytes) at_end undefined =
    let called = undefined || undefined_char c in
    let rest = skip isspace bytes at_end called in
    if isspace c && negate (c == eof)
    then rest
    else (c, record { bytes = bytes; at_end = at_end; undefined = called })

unfoldable pub next_nonspace_read : Stdio → File → ℕ × File
next_nonspace_read lib entree = skip lib.isspace entree.bytes entree.at_end entree.undefined

-- A code, the object that `com` points to, and the file.
abbrev pub Reading : Type 0
Reading = ErrorCode × Command × File

-- Characters of the commands.
abbrev pub char_at : ℕ
char_at = 64

abbrev pub char_b : ℕ
char_b = 66

abbrev pub char_d : ℕ
char_d = 68

abbrev pub char_i : ℕ
char_i = 73

abbrev pub char_r : ℕ
char_r = 82

abbrev pub char_w : ℕ
char_w = 87

-- `init_virt_addr64(&vaddr, tovaddr)`, whose code is not looked at.
abbrev pub address : Outcome VirtAddr → VirtAddr → VirtAddr
address (returned _ v) vaddr = v
address _ vaddr = vaddr

-- What was scanned, as an address.
abbrev pub addressed : Option ℕ × File → (vaddr : VirtAddr) → Option VirtAddr × File
addressed (none, f) vaddr = (none, f)
addressed (some tovaddr, f) vaddr =
    (some (address (init_virt_addr64 (some vaddr) (u64 tovaddr)) vaddr), f)

-- '@' and the number of an address, if both are there.
unfoldable pub read_address : Stdio → File → (vaddr : VirtAddr) → Option VirtAddr × File
unfolding next_nonspace_read
read_address lib entree vaddr =
    let (c, f1) = next_nonspace_read lib entree in
    if c == char_at then addressed (lib.scan_hex f1) vaddr else (none, f1)

-- The object after a command was read; ERR_BAD_PARAMETER if there was no address.
abbrev pub with_address : Option VirtAddr × File → (VirtAddr → Command) → Command → Reading
with_address (none, f) make target = (err_bad_parameter, target, f)
with_address (some v, f) make target = (err_none, make v, f)

-- `sizeof(word_t)` for 'W', and 1 else.
abbrev pub size_of : ℕ → ℕ
size_of size = if size == char_w then 4 else 1

-- The command of a read: instructions, and data of a size.
abbrev pub instruction_read : Command → VirtAddr → Command
instruction_read target v = record target { order = order_read; type = instruction; vaddr = v }

abbrev pub data_read : (size : ℕ) → Command → VirtAddr → Command
data_read size target v = record target {
  order = order_read;
  type = access_data;
  vaddr = v;
  data_size = size_of size;
}

-- By the letter of the size, and the file behind it.
abbrev pub by_size : (ℕ → File → Reading) → Command → ℕ × File → Reading
by_size more target (size, f) =
    if size == char_w || size == char_b then more size f else (err_bad_parameter, target, f)

unfoldable pub with_size : Stdio → File → (ℕ → File → Reading) → Command → Reading
unfolding next_nonspace_read
with_size lib entree more target = by_size more target (next_nonspace_read lib entree)

-- By the letter of the type: 'I', or any other for data.
unfoldable pub by_type : Stdio → Command → VirtAddr → ℕ × File → Reading
unfolding with_size read_address
by_type lib target vaddr (order, f) =
    if order == eof
    then (err_bad_parameter, target, f)
    else if order == char_i
    then with_address (read_address lib f vaddr) (instruction_read target) target
    else with_size lib f
        (λ size f2. with_address (read_address lib f2 vaddr) (data_read size target) target) target

unfoldable pub read_read : Stdio → File → (target : Command) → (vaddr : VirtAddr) → Reading
unfolding next_nonspace_read by_type
read_read lib entree target vaddr = by_type lib target vaddr (next_nonspace_read lib entree)

abbrev pub data_write : (size value : ℕ) → Command → VirtAddr → Command
data_write size value target v = record target {
  order = order_write;
  type = access_data;
  write_data = u32 value;
  data_size = size_of size;
  vaddr = v;
}

-- `read_write` once the value was scanned.
unfoldable pub with_value :
    Option ℕ × File → Stdio → (size : ℕ) → (target : Command) → (vaddr : VirtAddr) → Reading
unfolding read_address
with_value (none, f) lib size target vaddr = (err_bad_parameter, target, f)
with_value (some value, f) lib size target vaddr =
    with_address (read_address lib f vaddr) (data_write size value target) target

-- By the letter of the type, which is compared with the enumerators READ and WRITE, 0 and 1.
unfoldable pub by_write_type : Stdio → Command → VirtAddr → ℕ × File → Reading
unfolding with_size with_value
by_write_type lib target vaddr (order, f) =
    if order == 1 || order == 0
    then with_size lib f (λ size f2. with_value (lib.scan_hex f2) lib size target vaddr) target
    else (err_bad_parameter, target, f)

unfoldable pub read_write : Stdio → File → (target : Command) → (vaddr : VirtAddr) → Reading
unfolding next_nonspace_read by_write_type
read_write lib entree target vaddr = by_write_type lib target vaddr (next_nonspace_read lib entree)
