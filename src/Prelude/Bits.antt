-- ===== src/Prelude/Bits.antt =====
-- `&` and `^` with the masks of the pixel code, as arithmetic.
use Prim.Native.Nat.{
  ℕ, zero, suc, ◌+◌, ◌-◌, ◌*◌, ◌/◌, ◌%◌, ◌^◌, ◌≤◌, ◌<◌, min, bit_and, bit_xor, digits, differ,
  bit_and-bitwise, bit_xor-bitwise,
}
use mathlib.Core.Path.{◌≡◌, refl, sym, ◌∙◌}
use mathlib.Core.Bool.{Bool, true, ◌&&◌}
use native.Mathlib.Omega.{arith}
use koreader_base.Prelude.Tests.{◌==◌, ==_iff}

-- A check of every value below a bound, by evaluation.
unfoldable pub all_below : ℕ → (ℕ → Bool) → Bool
all_below zero p = true
all_below (suc n) p = p n && all_below n p

pub all_below_sound : (n : ℕ) (p : ℕ → Bool) (x : ℕ) → all_below n p ≡ true → x < n → p x ≡ true
unfolding all_below
all_below_sound zero p x h below = absurd (omega arith)
all_below_sound (suc n) p x h below = ground (arith, all_below_sound n p x)

-- The fuel of the digit recursion may be any bound of the first number.
module _ (z : ℕ → ℕ) (f : ℕ → ℕ → ℕ) where
  enough_digits : (n m a b : ℕ) → a ≤ n → a ≤ m → digits z f n a b ≡ digits z f m a b
  enough_digits zero zero a b p q = refl
  enough_digits zero (suc m) zero b p q = refl
  enough_digits zero (suc m) (suc a) b p q = absurd (omega arith)
  enough_digits (suc n) zero zero b p q = refl
  enough_digits (suc n) zero (suc a) b p q = absurd (omega arith)
  enough_digits (suc n) (suc m) zero b p q = refl
  enough_digits (suc n) (suc m) (suc a) b p q =
      rw (enough_digits n m (suc a / 2) (b / 2) (omega arith) (omega arith))

-- `k` one bits, and the value of the `k` lowest bits of `a`.
abbrev ones : ℕ → ℕ
ones zero = 0
ones (suc k) = ones k * 2 + 1

abbrev low : ℕ → ℕ → ℕ
low zero a = 0
low (suc k) a = low k (a / 2) * 2 + a % 2

bit_and-ones-digits : (k n a : ℕ) → a ≤ n → digits (λ b. zero) min n a (ones k) ≡ low k a
bit_and-ones-digits zero zero a h = refl
bit_and-ones-digits zero (suc n) zero h = refl
bit_and-ones-digits zero (suc n) (suc a) h =
    omega (arith, bit_and-ones-digits zero n (suc a / 2) (omega arith))
bit_and-ones-digits (suc k) zero a h =
    let e : a ≡ 0 = omega arith in rw e (omega (arith, bit_and-ones-digits k zero 0 (omega arith)))
bit_and-ones-digits (suc k) (suc n) zero h =
    omega (arith, bit_and-ones-digits k zero 0 (omega arith))
bit_and-ones-digits (suc k) (suc n) (suc a) h =
    let e : (ones k * 2 + 1) / 2 ≡ ones k = omega arith in
    rw e (omega (arith, bit_and-ones-digits k n (suc a / 2) (omega arith)))

pub bit_and-ones : (k a : ℕ) → bit_and a (ones k) ≡ low k a
bit_and-ones k a = simp bit_and-bitwise (bit_and-ones-digits k a a (omega arith))

differ-zero : (d : ℕ) → differ d 0 ≡ d
differ-zero zero = refl
differ-zero (suc d) = refl

differ-one : (d : ℕ) → d < 2 → differ d 1 + d ≡ 1
differ-one zero h = refl
differ-one (suc zero) h = refl
differ-one (suc (suc d)) h = absurd (omega arith)

-- Flipping the `k` lowest bits takes twice their value off `a + ones k`.
bit_xor-ones-digits :
    (k n a : ℕ) → a ≤ n → digits (λ b. b) differ n a (ones k) + 2 * low k a ≡ a + ones k
bit_xor-ones-digits zero zero a h = omega arith
bit_xor-ones-digits zero (suc n) zero h = refl
bit_xor-ones-digits zero (suc n) (suc a) h =
    omega (arith, bit_xor-ones-digits zero n (suc a / 2) (omega arith), differ-zero (suc a % 2))
bit_xor-ones-digits (suc k) zero a h =
    let e : a ≡ 0 = omega arith in rw e (omega (arith, bit_xor-ones-digits k zero 0 (omega arith)))
bit_xor-ones-digits (suc k) (suc n) zero h =
    omega (arith, bit_xor-ones-digits k zero 0 (omega arith))
bit_xor-ones-digits (suc k) (suc n) (suc a) h =
    let e : (ones k * 2 + 1) / 2 ≡ ones k = omega arith in
    let r : (ones k * 2 + 1) % 2 ≡ 1 = omega arith in
    rw (e, r)
      (omega (
        arith,
        bit_xor-ones-digits k n (suc a / 2) (omega arith),
        differ-one (suc a % 2) (omega arith),
      ))

pub bit_xor-ones : (k a : ℕ) → bit_xor a (ones k) + 2 * low k a ≡ a + ones k
bit_xor-ones k a = simp bit_xor-bitwise (bit_xor-ones-digits k a a (omega arith))

-- The conjunction of the `k` lowest bits.
abbrev low_and : ℕ → ℕ → ℕ → ℕ
low_and zero a m = 0
low_and (suc k) a m = low_and k (a / 2) (m / 2) * 2 + min (a % 2) (m % 2)

zero_low_and : (k m : ℕ) → low_and k 0 m ≡ 0
zero_low_and zero m = refl
zero_low_and (suc k) m = omega (arith, zero_low_and k (m / 2))

digits-low_and : (k n a m : ℕ) → a ≤ n → m < 2 ^ k → digits (λ b. zero) min n a m ≡ low_and k a m
digits-low_and zero zero a m h small = refl
digits-low_and zero (suc n) zero m h small = refl
digits-low_and zero (suc n) (suc a) m h small =
    omega (arith, digits-low_and zero n (suc a / 2) (m / 2) (omega arith) (omega arith))
digits-low_and (suc k) zero a m h small =
    let e : a ≡ 0 = omega arith in rw e (omega (arith, zero_low_and (suc k) m))
digits-low_and (suc k) (suc n) zero m h small = omega (arith, zero_low_and (suc k) m)
digits-low_and (suc k) (suc n) (suc a) m h small =
    omega (arith, digits-low_and k n (suc a / 2) (m / 2) (omega arith) (omega arith))

-- A mask of a byte sees only the lowest byte.
pub bit_and_byte : (a m : ℕ) → m < 256 → bit_and a m ≡ bit_and (a % 256) m
bit_and_byte a m h =
    let b = a % 256 in
    let b0 : b % 2 ≡ a % 2 = omega arith in
    let b1 : b / 2 % 2 ≡ a / 2 % 2 = omega arith in
    let b2 : b / 2 / 2 % 2 ≡ a / 2 / 2 % 2 = omega arith in
    let b3 : b / 2 / 2 / 2 % 2 ≡ a / 2 / 2 / 2 % 2 = omega arith in
    let b4 : b / 2 / 2 / 2 / 2 % 2 ≡ a / 2 / 2 / 2 / 2 % 2 = omega arith in
    let b5 : b / 2 / 2 / 2 / 2 / 2 % 2 ≡ a / 2 / 2 / 2 / 2 / 2 % 2 = omega arith in
    let b6 : b / 2 / 2 / 2 / 2 / 2 / 2 % 2 ≡ a / 2 / 2 / 2 / 2 / 2 / 2 % 2 = omega arith in
    let b7 : b / 2 / 2 / 2 / 2 / 2 / 2 / 2 % 2 ≡ a / 2 / 2 / 2 / 2 / 2 / 2 / 2 % 2 = omega arith in
    let same : low_and 8 b m ≡ low_and 8 a m = rw (b0, b1, b2, b3, b4, b5, b6, b7) refl in
    simp bit_and-bitwise (
      digits-low_and 8 a a m (omega arith) h
      ∙ sym same
      ∙ sym (digits-low_and 8 b b m (omega arith) h))

-- The masks that the pixel code uses.
pub bit_and_07 : (a : ℕ) → bit_and a 0x07 ≡ a % 8
bit_and_07 a = omega (arith, bit_and-ones 3 a)

pub bit_and_1f : (a : ℕ) → bit_and a 0x1f ≡ a % 32
bit_and_1f a = omega (arith, bit_and-ones 5 a)

pub bit_and_3f : (a : ℕ) → bit_and a 0x3f ≡ a % 64
bit_and_3f a = omega (arith, bit_and-ones 6 a)

pub bit_xor_ff : (a : ℕ) → a < 256 → bit_xor a 0xff ≡ 255 - a
bit_xor_ff a h = omega (arith, bit_xor-ones 8 a)

pub bit_xor_ff_low : (a : ℕ) → bit_xor a 0xff + 2 * (a % 256) ≡ a + 255
bit_xor_ff_low a = omega (arith, bit_xor-ones 8 a)

pub bit_xor_ffff : (a : ℕ) → a < 65536 → bit_xor a 0xffff ≡ 65535 - a
bit_xor_ffff a h = omega (arith, bit_xor-ones 16 a)

pub bit_xor_ffffff : (a : ℕ) → bit_xor a 0xffffff + 2 * (a % 16777216) ≡ a + 16777215
bit_xor_ffffff a = omega (arith, bit_xor-ones 24 a)

table_f8 : all_below 256 (λ x. bit_and x 0xf8 == x / 8 * 8) ≡ true
unfolding all_below
table_f8 = refl

table_fc : all_below 256 (λ x. bit_and x 0xfc == x / 4 * 4) ≡ true
unfolding all_below
table_fc = refl

pub bit_and_f8 : (a : ℕ) → a < 256 → bit_and a 0xf8 ≡ a / 8 * 8
bit_and_f8 a h = (==_iff _ _).0 (all_below_sound 256 _ a table_f8 h)

pub bit_and_fc : (a : ℕ) → a < 256 → bit_and a 0xfc ≡ a / 4 * 4
bit_and_fc a h = (==_iff _ _).0 (all_below_sound 256 _ a table_fc h)
