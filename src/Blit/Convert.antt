-- ===== src/Blit/Convert.antt =====
-- The body of each case of BB_blit_to_BB8, _BB8A, _BB16, _BB24 and _BB32: what a destination pixel
-- becomes, from the source pixel and from itself.
use koreader_base.Prelude.{ℕ, ◌+◌, bit_and, u8, u16, ◌<<<◌, ◌>>>◌}
use koreader_base.Color.{
  Color8, Color8A, ColorRgb16, ColorRgb24, ColorRgb32, BbType, ColorOf, bb8, bb8a, bbrgb16, bbrgb24,
  bbrgb32,
}
use koreader_base.Color.Convert.{rgb_to_a, rgb16_to_a, get_r, get_g, get_b, rgb_to_rgb16}

-- The grey value that a pixel is read as, cast to a byte.
unfoldable pub luma : (s : BbType) → ColorOf s → ℕ
unfolding rgb_to_a rgb16_to_a
luma bb8 c = c.a
luma bb8a c = c.a
luma bbrgb16 c = u8 (rgb16_to_a c.v)
luma bbrgb24 c = u8 (rgb_to_a c.r c.g c.b)
luma bbrgb32 c = u8 (rgb_to_a c.r c.g c.b)

unfoldable pub to_bb8 : (s : BbType) → ColorOf s → Color8 → Color8
unfolding luma
to_bb8 s c d = record { a = luma s c }

-- Only a BB8A source sets the alpha of a BB8A destination.
unfoldable pub to_bb8a : (s : BbType) → ColorOf s → Color8A → Color8A
unfolding luma
to_bb8a bb8a c d = c
to_bb8a s c d = record d { a = luma s c }

-- `(v5bit << 11U) + ((v & 0xFC) << 3U) + v5bit`
unfoldable pub grey_to_16 : ℕ → ℕ
grey_to_16 v = let v5bit = v >>> 3 in (v5bit <<< 11) + (bit_and v 0xfc <<< 3) + v5bit

unfoldable pub to_bb16 : (s : BbType) → ColorOf s → ColorRgb16 → ColorRgb16
unfolding grey_to_16 rgb_to_rgb16
to_bb16 bb8 c d = record { v = u16 (grey_to_16 c.a) }
to_bb16 bb8a c d = record { v = u16 (grey_to_16 c.a) }
to_bb16 bbrgb16 c d = c
to_bb16 bbrgb24 c d = record { v = u16 (rgb_to_rgb16 c.r c.g c.b) }
to_bb16 bbrgb32 c d = record { v = u16 (rgb_to_rgb16 c.r c.g c.b) }

unfoldable pub to_bb24 : (s : BbType) → ColorOf s → ColorRgb24 → ColorRgb24
unfolding get_r get_g get_b
to_bb24 bb8 c d = record { r = c.a; g = c.a; b = c.a }
to_bb24 bb8a c d = record { r = c.a; g = c.a; b = c.a }
to_bb24 bbrgb16 c d = record { r = u8 (get_r c.v); g = u8 (get_g c.v); b = u8 (get_b c.v) }
to_bb24 bbrgb24 c d = c
to_bb24 bbrgb32 c d = record { r = c.r; g = c.g; b = c.b }

unfoldable pub to_bb32 : (s : BbType) → ColorOf s → ColorRgb32 → ColorRgb32
unfolding get_r get_g get_b
to_bb32 bb8 c d = record { r = c.a; g = c.a; b = c.a; alpha = 0xff }
to_bb32 bb8a c d = record { r = c.a; g = c.a; b = c.a; alpha = c.alpha }
to_bb32 bbrgb16 c d = record {
  r = u8 (get_r c.v);
  g = u8 (get_g c.v);
  b = u8 (get_b c.v);
  alpha = 0xff;
}
to_bb32 bbrgb24 c d = record { r = c.r; g = c.g; b = c.b; alpha = 0xff }
to_bb32 bbrgb32 c d = c

-- The five together.
abbrev pub convert : (s t : BbType) → ColorOf s → ColorOf t → ColorOf t
convert s bb8 = to_bb8 s
convert s bb8a = to_bb8a s
convert s bbrgb16 = to_bb16 s
convert s bbrgb24 = to_bb24 s
convert s bbrgb32 = to_bb32 s
