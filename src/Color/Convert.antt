-- ===== src/Color/Convert.antt =====
-- The macros of blitbuffer.c that convert, pack and scale colours. Their intermediate values are
-- `int` or `unsigned` and do not overflow for 8- and 16-bit inputs; a cast stands where the code
-- has one.
use Prim.Native.Nat.{bit_or}
use koreader_base.Prelude.{ℕ, ◌+◌, ◌*◌, ◌%◌, ◌/◌, bit_and, bit_xor, u8, u16, ◌<<<◌, ◌>>>◌}
use koreader_base.Color.{Color8A, ColorRgb16, ColorRgb24, ColorRgb32}

-- DIV_255
unfoldable pub div_255 : ℕ → ℕ
div_255 n = let t = n + 128 in ((t >>> 8) + t) >>> 8

-- RGB_To_A: the luminance of 8-bit channels.
unfoldable pub rgb_to_a : ℕ → ℕ → ℕ → ℕ
rgb_to_a r g b = (4898 * r + 9618 * g + 1869 * b) >>> 14

-- ColorRGB16_GetR, GetG and GetB: the channels of an RGB565 pixel, widened to 8 bits.
unfoldable pub get_r : ℕ → ℕ
get_r v = ((v >>> 11) <<< 3) + ((v >>> 11) >>> 2)

unfoldable pub get_g : ℕ → ℕ
get_g v = (bit_and (v >>> 5) 0x3f <<< 2) + (bit_and (v >>> 5) 0x3f >>> 4)

unfoldable pub get_b : ℕ → ℕ
get_b v = (bit_and v 0x1f <<< 3) + (bit_and v 0x1f >>> 2)

-- ColorRGB16_To_A, before the cast that every use makes.
unfoldable pub rgb16_to_a : ℕ → ℕ
unfolding get_r get_g get_b
rgb16_to_a v = (39919 * get_r v + 39185 * get_g v + 15220 * get_b v) >>> 14

-- RGB_To_RGB16, before the cast.
unfoldable pub rgb_to_rgb16 : ℕ → ℕ → ℕ → ℕ
rgb_to_rgb16 r g b = (bit_and r 0xf8 <<< 8) + (bit_and g 0xfc <<< 3) + (b >>> 3)

-- Y8_To_Y8A and Y8_To_RGB32: a grey pixel packed by hand, with an opaque alpha byte.
unfoldable pub y8_to_y8a : ℕ → ℕ
y8_to_y8a v = bit_or (0xff <<< 8) v

unfoldable pub y8_to_rgb32 : ℕ → ℕ
y8_to_rgb32 v = bit_or (bit_or (bit_or (0xff <<< 24) (v <<< 16)) (v <<< 8)) v

-- ColorRGB32_To_Color16 and ColorRGB32_To_Color24.
unfoldable pub color32_to_color16 : ColorRgb32 → ColorRgb16
unfolding rgb_to_rgb16
color32_to_color16 c = record { v = u16 (rgb_to_rgb16 c.r c.g c.b) }

unfoldable pub color32_to_color24 : ColorRgb32 → ColorRgb24
color32_to_color24 c = record { r = c.r; g = c.g; b = c.b }

-- ColorRGB32_To_PMUL: the channels multiplied by the alpha. The struct's fields are bytes.
unfoldable pub color32_to_pmul : ColorRgb32 → ColorRgb32
unfolding div_255
color32_to_pmul c = record {
  r = u8 (div_255 (c.r * c.alpha));
  g = u8 (div_255 (c.g * c.alpha));
  b = u8 (div_255 (c.b * c.alpha));
  alpha = c.alpha;
}

-- What the two bytes of a `uint16_t`, and the four of a `uint32_t`, are as pixels.
unfoldable pub word_to_color8a : ℕ → Color8A
word_to_color8a n = record { a = n % 256; alpha = n / 256 % 256 }

unfoldable pub word_to_color32 : ℕ → ColorRgb32
word_to_color32 n = record {
  r = n % 256;
  g = n / 256 % 256;
  b = n / 65536 % 256;
  alpha = n / 16777216 % 256;
}

unfoldable pub color8a_to_word : Color8A → ℕ
color8a_to_word c = c.a + 256 * c.alpha

unfoldable pub color32_to_word : ColorRgb32 → ℕ
color32_to_word c = c.r + 256 * c.g + 65536 * c.b + 16777216 * c.alpha

-- `alpha ^ 0xFF`
unfoldable pub inverse : ℕ → ℕ
inverse alpha = u8 (bit_xor alpha 0xff)

-- `(uint8_t) DIV_255(old * ainv + new * alpha)`, one channel of the OVER operator.
unfoldable pub over : ℕ → ℕ → ℕ → ℕ → ℕ
unfolding div_255
over alpha ainv old new = u8 (div_255 (old * ainv + new * alpha))

-- `(uint8_t) DIV_255(old * factor)`, one channel of the multiply mode.
unfoldable pub multiply : ℕ → ℕ → ℕ
unfolding div_255
multiply old factor = u8 (div_255 (old * factor))
