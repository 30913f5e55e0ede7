-- ===== src/Text/Utf8/Bits.antt =====
-- The masks and shifts of UTF-8, as arithmetic, and by tables of the bytes they are used on.
use Prim.Native.Nat.{
  ℕ, zero, suc, ◌+◌, ◌*◌, ◌/◌, ◌%◌, ◌^◌, ◌≤◌, ◌<◌, max, bit_and, bit_or, digits, bit_or-bitwise,
}
use koreader_base.Prelude.{◌≡◌, refl, ap, ◌∙◌, true, ◌==◌, if◌then◌else◌, ◌&&◌, arith}
use koreader_base.Prelude.Bits.{all_below, all_below_sound, bit_and_byte}

or_zero-digits : (n a : ℕ) → a ≤ n → digits (λ b. b) max n a 0 ≡ a
or_zero-digits zero zero h = refl
or_zero-digits zero (suc a) h = absurd (omega arith)
or_zero-digits (suc n) zero h = refl
or_zero-digits (suc n) (suc a) h =
    omega (arith, or_zero-digits n (suc a / 2) (omega arith), max-zero (suc a % 2))
  where
    max-zero : (d : ℕ) → max d 0 ≡ d
    max-zero d = omega arith

-- The bits of `x` above those of `y`.
or_shifted-digits :
    (k n a x y : ℕ) → a ≤ n → a ≡ x * 2 ^ k → y < 2 ^ k → digits (λ b. b) max n a y ≡ a + y
or_shifted-digits zero n a x y h e small =
    let z : y ≡ 0 = omega arith in rw z (omega (arith, or_zero-digits n a h))
or_shifted-digits (suc k) zero a x y h e small = omega arith
or_shifted-digits (suc k) (suc n) zero x y h e small = omega arith
or_shifted-digits (suc k) (suc n) (suc a) x y h e small =
    let next : 2 ^ suc k ≡ 2 ^ k * 2 = omega arith in
    let twice : suc a ≡ x * 2 ^ k * 2 = e ∙ ap (λ t. x * t) next ∙ omega arith in
    let half : suc a / 2 ≡ x * 2 ^ k = omega arith in
    omega (arith, or_shifted-digits k n (suc a / 2) x (y / 2) (omega arith) half (omega arith))

pub bit_or_above : (k a x y : ℕ) → a ≡ x * 2 ^ k → y < 2 ^ k → bit_or a y ≡ a + y
bit_or_above k a x y e small =
    simp bit_or-bitwise (or_shifted-digits k a a x y (omega arith) e small)

-- Tables: a continuation byte, and the first bytes of one to four.
table_following :
    all_below 64 (λ x. (bit_and (0x80 + x) 0xC0 == 0x80) && (bit_and (0x80 + x) 0x3F == x)) ≡ true
unfolding all_below
table_following = refl

table_one : all_below 128 (λ x. (bit_and x 0x80 == 0) && (bit_and x 0x7F == x)) ≡ true
unfolding all_below
table_one = refl

table_two :
    all_below 32 (λ x.
      (bit_and (0xC0 + x) 0x80 == 0x80)
      && (bit_and (0xC0 + x) 0xE0 == 0xC0)
      && (bit_and (0xC0 + x) 0x1F == x))
    ≡ true
unfolding all_below
table_two = refl

table_three :
    all_below 16 (λ x.
      (bit_and (0xE0 + x) 0x80 == 0x80)
      && (bit_and (0xE0 + x) 0xE0 == 0xE0)
      && (bit_and (0xE0 + x) 0xF0 == 0xE0)
      && (bit_and (0xE0 + x) 0x0F == x))
    ≡ true
unfolding all_below
table_three = refl

table_four :
    all_below 8 (λ x.
      (bit_and (0xF0 + x) 0x80 == 0x80)
      && (bit_and (0xF0 + x) 0xE0 == 0xE0)
      && (bit_and (0xF0 + x) 0xF0 == 0xF0)
      && (bit_and (0xF0 + x) 0xF8 == 0xF0)
      && (bit_and (0xF0 + x) 0x07 == x))
    ≡ true
unfolding all_below
table_four = refl

pub following_bits :
    (x : ℕ) → x < 64 → (bit_and (0x80 + x) 0xC0 ≡ 0x80) × (bit_and (0x80 + x) 0x3F ≡ x)
following_bits x h = ground (arith, all_below_sound 64 _ x table_following h)

pub one_bits : (x : ℕ) → x < 128 → (bit_and x 0x80 ≡ 0) × (bit_and x 0x7F ≡ x)
one_bits x h = ground (arith, all_below_sound 128 _ x table_one h)

pub two_bits :
    (x : ℕ)
    → x < 32
    → (bit_and (0xC0 + x) 0x80 ≡ 0x80)
      × (bit_and (0xC0 + x) 0xE0 ≡ 0xC0)
      × (bit_and (0xC0 + x) 0x1F ≡ x)
two_bits x h = ground (arith, all_below_sound 32 _ x table_two h)

pub three_bits :
    (x : ℕ)
    → x < 16
    → (bit_and (0xE0 + x) 0x80 ≡ 0x80)
      × (bit_and (0xE0 + x) 0xE0 ≡ 0xE0)
      × (bit_and (0xE0 + x) 0xF0 ≡ 0xE0)
      × (bit_and (0xE0 + x) 0x0F ≡ x)
three_bits x h = ground (arith, all_below_sound 16 _ x table_three h)

pub four_bits :
    (x : ℕ)
    → x < 8
    → (bit_and (0xF0 + x) 0x80 ≡ 0x80)
      × (bit_and (0xF0 + x) 0xE0 ≡ 0xE0)
      × (bit_and (0xF0 + x) 0xF0 ≡ 0xF0)
      × (bit_and (0xF0 + x) 0xF8 ≡ 0xF0)
      × (bit_and (0xF0 + x) 0x07 ≡ x)
four_bits x h = ground (arith, all_below_sound 8 _ x table_four h)

-- The first byte of three is no first byte of one or two, whatever the number.
table_three_only :
    all_below 256 (λ b.
      if bit_and b 0xF0 == 0xE0 then (bit_and b 0x80 == 0x80) && (bit_and b 0xE0 == 0xE0) else true)
    ≡ true
unfolding all_below
table_three_only = refl

pub three_only : (b : ℕ) → bit_and b 0xF0 ≡ 0xE0 → (bit_and b 0x80 ≡ 0x80) × (bit_and b 0xE0 ≡ 0xE0)
three_only b h =
    (bit_and_byte b 0x80 (omega arith) ∙ in_byte.0, bit_and_byte b 0xE0 (omega arith) ∙ in_byte.1)
  where
    low : ℕ
    low = b % 256

    in_byte : (bit_and low 0x80 ≡ 0x80) × (bit_and low 0xE0 ≡ 0xE0)
    in_byte = ground (
      arith,
      all_below_sound 256 _ (b % 256) table_three_only (omega arith),
      bit_and_byte b 0xF0 (omega arith),
    )
