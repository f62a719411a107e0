-- ===== src/Base/Bits.antt =====
-- `&` with a mask of low bits and `|` of fields that do not overlap, as arithmetic.
use Prim.Native.Nat.{
  ℕ, zero, suc, ◌+◌, ◌-◌, ◌*◌, ◌/◌, ◌%◌, ◌^◌, ◌≤◌, ◌<◌, min, max, bit_and, bit_or, digits,
  bit_and-bitwise, bit_or-bitwise,
}
use mathlib.Core.Path.{◌≡◌, refl, ap, ◌∙◌}
use native.Mathlib.Nat.{pow-suc, one-le-pow}
use native.Mathlib.Omega.{arith}

double_pow : (q k : ℕ) → q * 2 ^ suc k ≡ 2 * (q * 2 ^ k)
double_pow q k = omega (arith, ap (λ (p : ℕ). q * p) (pow-suc 2 k))

-- The digits of `q * 2 ^ k + r` under a mask of `k` ones, with `n` digits to go.
mask_digits :
    (k n a q r : ℕ)
    → a ≡ q * 2 ^ k + r
    → a ≤ n
    → r < 2 ^ k
    → digits (λ _. 0) min n a (2 ^ k - 1) ≡ r
mask_digits k zero zero q r e h fits = omega arith
mask_digits k zero (suc a) q r e h fits = absurd (omega arith)
mask_digits k (suc n) zero q r e h fits = omega arith
mask_digits zero (suc n) (suc a) q r e h fits =
    omega (
      arith,
      mask_digits zero n (suc a / 2) (suc a / 2) 0 (omega arith) (omega arith) (omega arith),
    )
mask_digits (suc k) (suc n) (suc a) q r e h fits =
    let half =
      mask_digits k n (suc a / 2) q (r / 2) (omega (arith, double_pow q k)) (omega arith)
        (omega (arith, pow-suc 2 k)) in
    let ones : (2 ^ suc k - 1) / 2 ≡ 2 ^ k - 1 = omega (arith, pow-suc 2 k) in
    let last : (2 ^ suc k - 1) % 2 ≡ 1 = omega (arith, pow-suc 2 k, one-le-pow k 2) in
    rw (ones, last) (omega (arith, half, double_pow q k))

or_digits : (k n a q r : ℕ) → a ≡ q * 2 ^ k → a ≤ n → r < 2 ^ k → digits (λ b. b) max n a r ≡ a + r
or_digits k zero zero q r e h fits = omega arith
or_digits k zero (suc a) q r e h fits = absurd (omega arith)
or_digits k (suc n) zero q r e h fits = omega arith
or_digits zero (suc n) (suc a) q r e h fits =
    let none : r ≡ 0 = omega arith in
    rw none (
      omega (
        arith,
        or_digits zero n (suc a / 2) (suc a / 2) 0 (omega arith) (omega arith) (omega arith),
      ))
or_digits (suc k) (suc n) (suc a) q r e h fits =
    let half =
      or_digits k n (suc a / 2) q (r / 2) (omega (arith, double_pow q k)) (omega arith)
        (omega (arith, pow-suc 2 k)) in
    omega (arith, half, double_pow q k)

low_digits : (k n a q : ℕ) → a < 2 ^ k → a ≤ n → digits (λ b. b) max n a (q * 2 ^ k) ≡ a + q * 2 ^ k
low_digits k zero zero q fits h = omega arith
low_digits k zero (suc a) q fits h = absurd (omega arith)
low_digits k (suc n) zero q fits h = omega arith
low_digits zero (suc n) (suc a) q fits h = absurd (omega arith)
low_digits (suc k) (suc n) (suc a) q fits h =
    let half = low_digits k n (suc a / 2) q (omega (arith, pow-suc 2 k)) (omega arith) in
    let high : q * 2 ^ suc k / 2 ≡ q * 2 ^ k = omega (arith, double_pow q k) in
    rw high (omega (arith, half, double_pow q k))

-- A mask of `k` low ones keeps the remainder by `2 ^ k`.
pub bit_and_mask : (k a : ℕ) → bit_and a (2 ^ k - 1) ≡ a % 2 ^ k
bit_and_mask k a =
    bit_and-bitwise a (2 ^ k - 1)
    ∙ mask_digits k a a (a / 2 ^ k) (a % 2 ^ k) (ground (arith, one-le-pow k 2)) (omega arith)
        (ground (arith, one-le-pow k 2))

-- A high field and a low one that fits below it join by addition.
pub bit_or_join : (k q r : ℕ) → r < 2 ^ k → bit_or (q * 2 ^ k) r ≡ q * 2 ^ k + r
bit_or_join k q r fits =
    bit_or-bitwise (q * 2 ^ k) r ∙ or_digits k (q * 2 ^ k) (q * 2 ^ k) q r refl (omega arith) fits

-- The same with the low field first.
pub bit_or_join_low : (k q r : ℕ) → r < 2 ^ k → bit_or r (q * 2 ^ k) ≡ r + q * 2 ^ k
bit_or_join_low k q r fits = bit_or-bitwise r (q * 2 ^ k) ∙ low_digits k r r q fits (omega arith)

-- More digits to go than the number has make no difference.
and_digits_enough :
    (n m a b : ℕ) → a ≤ n → a ≤ m → digits (λ _. 0) min n a b ≡ digits (λ _. 0) min m a b
and_digits_enough zero zero a b h h' = refl
and_digits_enough zero (suc m) zero b h h' = refl
and_digits_enough zero (suc m) (suc a) b h h' = absurd (omega arith)
and_digits_enough (suc n) zero zero b h h' = refl
and_digits_enough (suc n) zero (suc a) b h h' = absurd (omega arith)
and_digits_enough (suc n) (suc m) zero b h h' = refl
and_digits_enough (suc n) (suc m) (suc a) b h h' =
    omega (arith, and_digits_enough n m (suc a / 2) (b / 2) (omega arith) (omega arith))

zero-bit_and : (b : ℕ) → bit_and 0 b ≡ 0
zero-bit_and b = bit_and-bitwise 0 b

-- An even mask does not read the lowest digit.
pub bit_and_even : (a b c : ℕ) → c ≡ 2 * b → bit_and a c ≡ 2 * bit_and (a / 2) b
bit_and_even zero b c e = omega (arith, zero-bit_and c, zero-bit_and b)
bit_and_even (suc a) b c e =
    let half : c / 2 ≡ b = omega arith in
    let even : c % 2 ≡ 0 = omega arith in
    rw (bit_and-bitwise (suc a) c, bit_and-bitwise (suc a / 2) b, half, even)
      (omega (arith, and_digits_enough a (suc a / 2) (suc a / 2) b (omega arith) (omega arith)))

or_digits-lt : (k n a b : ℕ) → a < 2 ^ k → b < 2 ^ k → a ≤ n → digits (λ x. x) max n a b < 2 ^ k
or_digits-lt k zero zero b ha hb h = omega arith
or_digits-lt k zero (suc a) b ha hb h = absurd (omega arith)
or_digits-lt k (suc n) zero b ha hb h = omega arith
or_digits-lt zero (suc n) (suc a) b ha hb h = absurd (omega arith)
or_digits-lt (suc k) (suc n) (suc a) b ha hb h =
    let half =
      or_digits-lt k n (suc a / 2) (b / 2) (omega (arith, pow-suc 2 k)) (omega (arith, pow-suc 2 k))
        (omega arith) in
    omega (arith, half, pow-suc 2 k)

-- Numbers of `k` bits join to one of `k` bits.
pub bit_or-lt : (k a b : ℕ) → a < 2 ^ k → b < 2 ^ k → bit_or a b < 2 ^ k
bit_or-lt k a b ha hb = rw (bit_or-bitwise a b) (or_digits-lt k a a b ha hb (omega arith))
