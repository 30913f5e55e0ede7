-- ===== src/Rect/Blend.antt =====
-- BB_blend_rect, BB_blend_RGB32_over_rect, BB_blend_RGB_multiply_rect and
-- BB_blend_RGB32_multiply_rect: for each, what one pixel becomes, with a clause for each case of
-- the `switch`, and the loop over the rectangle. A buffer of another type is left alone.
pub mod Laws
pub mod Rounding
pub mod Multiply
use koreader_base.Prelude.{ℕ, ◌*◌, u8, u16, none, some}
use koreader_base.Color.{Color8A, ColorRgb16, ColorRgb24, ColorRgb32, BbType, ColorOf}
use koreader_base.Color.{bb8, bb8a, bbrgb16, bbrgb24, bbrgb32}
use koreader_base.Color.Convert.{
  rgb_to_a, get_r, get_g, get_b, rgb_to_rgb16, inverse, over, multiply, div_255,
}
use koreader_base.Memory.{Bytes}
use koreader_base.Memory.Formats.{format_of}
use koreader_base.Buffer.{BlitBuffer, bb_type}
use koreader_base.Paint.{paint_rect}

-- `RGB_To_RGB16` of three channels that were just computed.
abbrev pub pack16 : ℕ → ℕ → ℕ → ColorRgb16
pack16 r g b = record { v = u16 (rgb_to_rgb16 r g b) }

unfoldable pub blend_pixel : (t : BbType) → Color8A → ColorOf t → ColorOf t
unfolding over inverse
blend_pixel bb8 color d = record { a = over color.alpha (inverse color.alpha) d.a color.a }
blend_pixel bb8a color d = record {
  a = over color.alpha (inverse color.alpha) d.a color.a;
  alpha = 0xff;
}
blend_pixel bbrgb16 color d =
    let ainv = inverse color.alpha in
    pack16 (over color.alpha ainv (get_r d.v) color.a) (over color.alpha ainv (get_g d.v) color.a)
      (over color.alpha ainv (get_b d.v) color.a)
blend_pixel bbrgb24 color d =
    let ainv = inverse color.alpha in
    record {
      r = over color.alpha ainv d.r color.a;
      g = over color.alpha ainv d.g color.a;
      b = over color.alpha ainv d.b color.a;
    }
blend_pixel bbrgb32 color d =
    let ainv = inverse color.alpha in
    record d {
      r = over color.alpha ainv d.r color.a;
      g = over color.alpha ainv d.g color.a;
      b = over color.alpha ainv d.b color.a;
    }

unfoldable pub blend_rect : BlitBuffer → ℕ → ℕ → ℕ → ℕ → Color8A → Bytes
unfolding blend_pixel
blend_rect bb x y w h color = elim (bb_type bb) [
  | none ↦ bb.bytes
  | some t ↦ paint_rect (format_of t) bb (λ i j. blend_pixel t color) x y w h
]

unfoldable pub blend_rgb32_over_pixel : (t : BbType) → ColorRgb32 → ColorOf t → ColorOf t
unfolding over inverse rgb_to_a
blend_rgb32_over_pixel bb8 color d =
    let source_y8 = u8 (rgb_to_a color.r color.g color.b) in
    record { a = over color.alpha (inverse color.alpha) d.a source_y8 }
blend_rgb32_over_pixel bb8a color d =
    let source_y8 = u8 (rgb_to_a color.r color.g color.b) in
    record d { a = over color.alpha (inverse color.alpha) d.a source_y8 }
blend_rgb32_over_pixel bbrgb16 color d =
    let ainv = inverse color.alpha in
    pack16 (over color.alpha ainv (get_r d.v) color.r) (over color.alpha ainv (get_g d.v) color.g)
      (over color.alpha ainv (get_b d.v) color.b)
blend_rgb32_over_pixel bbrgb24 color d =
    let ainv = inverse color.alpha in
    record {
      r = over color.alpha ainv d.r color.r;
      g = over color.alpha ainv d.g color.g;
      b = over color.alpha ainv d.b color.b;
    }
blend_rgb32_over_pixel bbrgb32 color d =
    let ainv = inverse color.alpha in
    record d {
      r = over color.alpha ainv d.r color.r;
      g = over color.alpha ainv d.g color.g;
      b = over color.alpha ainv d.b color.b;
    }

unfoldable pub blend_rgb32_over_rect : BlitBuffer → ℕ → ℕ → ℕ → ℕ → ColorRgb32 → Bytes
unfolding blend_rgb32_over_pixel
blend_rgb32_over_rect bb x y w h color = elim (bb_type bb) [
  | none ↦ bb.bytes
  | some t ↦ paint_rect (format_of t) bb (λ i j. blend_rgb32_over_pixel t color) x y w h
]

unfoldable pub multiply_pixel : (t : BbType) → ColorRgb24 → ColorOf t → ColorOf t
unfolding multiply rgb_to_a
multiply_pixel bb8 color d = record { a = multiply d.a (u8 (rgb_to_a color.r color.g color.b)) }
multiply_pixel bb8a color d = record d { a = multiply d.a (u8 (rgb_to_a color.r color.g color.b)) }
multiply_pixel bbrgb16 color d =
    pack16 (multiply (get_r d.v) color.r) (multiply (get_g d.v) color.g)
      (multiply (get_b d.v) color.b)
multiply_pixel bbrgb24 color d = record {
  r = multiply d.r color.r;
  g = multiply d.g color.g;
  b = multiply d.b color.b;
}
multiply_pixel bbrgb32 color d = record d {
  r = multiply d.r color.r;
  g = multiply d.g color.g;
  b = multiply d.b color.b;
}

unfoldable pub blend_rgb_multiply_rect : BlitBuffer → ℕ → ℕ → ℕ → ℕ → ColorRgb24 → Bytes
unfolding multiply_pixel
blend_rgb_multiply_rect bb x y w h color = elim (bb_type bb) [
  | none ↦ bb.bytes
  | some t ↦ paint_rect (format_of t) bb (λ i j. multiply_pixel t color) x y w h
]

-- `DIV_255(d * ainv + DIV_255(d * c) * alpha)`, cast to a byte; the inner quotient is not cast.
unfoldable pub multiply_over : ℕ → ℕ → ℕ → ℕ → ℕ
unfolding over div_255
multiply_over alpha ainv d c = over alpha ainv d (div_255 (d * c))

unfoldable pub multiply_over_pixel : (t : BbType) → ColorRgb32 → ColorOf t → ColorOf t
unfolding multiply_over rgb_to_a inverse
multiply_over_pixel bb8 color d =
    let source_y8 = u8 (rgb_to_a color.r color.g color.b) in
    record { a = multiply_over color.alpha (inverse color.alpha) d.a source_y8 }
multiply_over_pixel bb8a color d =
    let source_y8 = u8 (rgb_to_a color.r color.g color.b) in
    record d { a = multiply_over color.alpha (inverse color.alpha) d.a source_y8 }
multiply_over_pixel bbrgb16 color d =
    let ainv = inverse color.alpha in
    pack16 (multiply_over color.alpha ainv (u8 (get_r d.v)) color.r)
      (multiply_over color.alpha ainv (u8 (get_g d.v)) color.g)
      (multiply_over color.alpha ainv (u8 (get_b d.v)) color.b)
multiply_over_pixel bbrgb24 color d =
    let ainv = inverse color.alpha in
    record {
      r = multiply_over color.alpha ainv d.r color.r;
      g = multiply_over color.alpha ainv d.g color.g;
      b = multiply_over color.alpha ainv d.b color.b;
    }
multiply_over_pixel bbrgb32 color d =
    let ainv = inverse color.alpha in
    record d {
      r = multiply_over color.alpha ainv d.r color.r;
      g = multiply_over color.alpha ainv d.g color.g;
      b = multiply_over color.alpha ainv d.b color.b;
    }

unfoldable pub blend_rgb32_multiply_rect : BlitBuffer → ℕ → ℕ → ℕ → ℕ → ColorRgb32 → Bytes
unfolding multiply_over_pixel
blend_rgb32_multiply_rect bb x y w h color = elim (bb_type bb) [
  | none ↦ bb.bytes
  | some t ↦ paint_rect (format_of t) bb (λ i j. multiply_over_pixel t color) x y w h
]
