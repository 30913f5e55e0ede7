-- ===== src/Color/Laws.antt =====
-- What the colour macros compute: rounding, ranges, and the loss of RGB565.
use koreader_base.Prelude.{ℕ, ◌+◌, ◌-◌, ◌*◌, ◌/◌, ◌%◌, ◌≤◌, ◌<◌, ◌≡◌, ◌≢◌, u8, arith}
use koreader_base.Prelude.Bits.{bit_and_1f, bit_and_3f, bit_and_f8, bit_and_fc, bit_xor_ff}
use koreader_base.Color.Convert.{
  div_255, rgb_to_a, get_r, get_g, get_b, rgb16_to_a, rgb_to_rgb16, inverse, over, multiply,
}

-- `q` is `n / d` rounded to the nearest integer, for an odd `d`.
abbrev pub Nearest : ℕ → ℕ → ℕ → Type 0
Nearest d n q = (2 * n < 2 * (d * q) + d) × (2 * (d * q) < 2 * n + d)

-- DIV_255 rounds to nearest, up to the largest product of two bytes and a little beyond.
pub div_255-Nearest : (n : ℕ) → n ≤ 65535 → Nearest 255 n (div_255 n)
unfolding div_255
div_255-Nearest n h = omega arith

pub inverse_lem : (a : ℕ) → a < 256 → inverse a ≡ 255 - a
unfolding inverse
inverse_lem a h = omega (arith, bit_xor_ff a h)

-- A weighted mean of two bytes, with its weights, stays below 255 * 255.
pub mean_le : (a old new : ℕ) → a < 256 → old < 256 → new < 256 → old * (255 - a) + new * a ≤ 65025
mean_le a old new ha ho hn =
    let l : old * (255 - a) ≤ 255 * (255 - a) = grind arith in
    let r : new * a ≤ 255 * a = grind arith in omega arith

-- One channel of OVER: the nearest byte to the exact mean; the cast cuts nothing off.
pub over-Nearest :
    (alpha old new : ℕ)
    → alpha < 256
    → old < 256
    → new < 256
    → Nearest 255 (old * (255 - alpha) + new * alpha) (over alpha (inverse alpha) old new)
unfolding over
over-Nearest alpha old new ha ho hn = rw (inverse_lem alpha ha) (
    omega (
      arith,
      mean_le alpha old new ha ho hn,
      div_255-Nearest (old * (255 - alpha) + new * alpha)
          (omega (arith, mean_le alpha old new ha ho hn)),
    ))

-- For a premultiplied channel, at most alpha, the mix does not wrap, and is the byte nearest to
-- the channel plus the old one at the remaining weight.
pub premultiplied-Nearest :
    (alpha old new : ℕ)
    → alpha < 256
    → old < 256
    → new ≤ alpha
    → Nearest 255 (old * (255 - alpha) + new * 255) (over 255 (inverse alpha) old new)
unfolding over
premultiplied-Nearest alpha old new ha ho hn =
    let l : old * (255 - alpha) ≤ 255 * (255 - alpha) = grind arith in
    let bound : old * (255 - alpha) + new * 255 ≤ 65025 = omega arith in
    rw (inverse_lem alpha ha)
      (omega (arith, div_255-Nearest (old * (255 - alpha) + new * 255) (omega arith)))

pub over_byte : (alpha ainv old new : ℕ) → over alpha ainv old new < 256
unfolding over
over_byte alpha ainv old new = omega arith

pub product_le : (a b : ℕ) → a < 256 → b < 256 → a * b ≤ 65025
product_le a b ha hb = let l : a * b ≤ 255 * b = grind arith in omega arith

-- One channel of the multiply mode: the nearest byte to the exact product.
pub multiply-Nearest :
    (old factor : ℕ) → old < 256 → factor < 256 → Nearest 255 (old * factor) (multiply old factor)
unfolding multiply
multiply-Nearest old factor ho hf = omega (
  arith,
  product_le old factor ho hf,
  div_255-Nearest (old * factor) (omega (arith, product_le old factor ho hf)),
)

-- The luminance of bytes is a byte between the darkest and the brightest channel, so that of a
-- grey is its value.
pub rgb_to_a_bounds :
    (lo hi r g b : ℕ)
    → (lo ≤ r) × (lo ≤ g) × (lo ≤ b)
    → (r ≤ hi) × (g ≤ hi) × (b ≤ hi)
    → hi < 256
    → (lo ≤ rgb_to_a r g b) × (rgb_to_a r g b ≤ hi)
unfolding rgb_to_a
rgb_to_a_bounds lo hi r g b l u h = omega arith

get_as_fields :
    (v : ℕ)
    → (get_r v ≡ v / 2048 * 8 + v / 2048 / 4)
      × (get_g v ≡ v / 32 % 64 * 4 + v / 32 % 64 / 16)
      × (get_b v ≡ v % 32 * 8 + v % 32 / 4)
unfolding get_r get_g get_b
get_as_fields v =
    (omega arith, rw (bit_and_3f (v / 32)) (omega arith), rw (bit_and_1f v) (omega arith))

pub rgb_to_rgb16_lem :
    (r g b : ℕ) → r < 256 → g < 256 → rgb_to_rgb16 r g b ≡ r / 8 * 2048 + g / 4 * 32 + b / 8
unfolding rgb_to_rgb16
rgb_to_rgb16_lem r g b hr hg = omega (arith, bit_and_f8 r hr, bit_and_fc g hg)

-- For a 16-bit RGB565 pixel, the widened channels are bytes, and packing them again gives the pixel
-- back.
pub rgb565_roundtrip :
    (v : ℕ)
    → v < 65536
    → (get_r v < 256)
      × (get_g v < 256)
      × (get_b v < 256)
      × (rgb_to_rgb16 (get_r v) (get_g v) (get_b v) ≡ v)
rgb565_roundtrip v h =
    let r : get_r v < 256 = omega (arith, get_as_fields v) in
    let g : get_g v < 256 = omega (arith, get_as_fields v) in
    let b : get_b v < 256 = omega (arith, get_as_fields v) in
    (r, g, b, omega (arith, get_as_fields v, rgb_to_rgb16_lem (get_r v) (get_g v) (get_b v) r g))

-- Packing three bytes gives a 16-bit value whose widened channels are within 7 of red and blue and
-- within 3 of green.
pub rgb565_loss :
    (r g b : ℕ)
    → r < 256
    → g < 256
    → b < 256
    → let v = rgb_to_rgb16 r g b in
      (v < 65536)
      × (get_r v ≤ r + 7)
      × (r ≤ get_r v + 7)
      × (get_g v ≤ g + 3)
      × (g ≤ get_g v + 3)
      × (get_b v ≤ b + 7)
      × (b ≤ get_b v + 7)
rgb565_loss r g b hr hg hb =
    omega (arith, get_as_fields (rgb_to_rgb16 r g b), rgb_to_rgb16_lem r g b hr hg)

-- The weights of ColorRGB16_To_A are those for 5-, 6- and 5-bit fields, but it applies them to the
-- widened channels: for a pixel whose widened channels all reach 45, the result is at least four
-- times the luminance of those channels, does not fit the byte that it is cast to, and is changed
-- by the cast.
pub rgb16_to_a_overflow :
    (v : ℕ)
    → 45 ≤ get_r v
    → 45 ≤ get_g v
    → 45 ≤ get_b v
    → (4 * rgb_to_a (get_r v) (get_g v) (get_b v) ≤ rgb16_to_a v)
      × (256 ≤ rgb16_to_a v)
      × (u8 (rgb16_to_a v) ≢ rgb16_to_a v)
unfolding rgb16_to_a rgb_to_a
rgb16_to_a_overflow v r g b = (omega arith, omega arith, omega arith)
