-- ===== src/Compose/Colorize/Pixels.antt =====
-- What the colouring blits make of one pixel, against `Blended`.
use koreader_base.Prelude.{ℕ, ◌≡◌, ◌<◌, refl, ◌==◌, u8, arith, Bool-cases, inl, inr}
use koreader_base.Color.{
  Color8A, ColorRgb24, ColorRgb32, BbType, ColorOf, bb8, bb8a, bbrgb16, bbrgb24, bbrgb32,
}
use koreader_base.Color.Convert.{rgb_to_a}
use koreader_base.Color.Laws.{rgb_to_a_bounds, rgb565_loss}
use koreader_base.Color.Spec.{InRange, Blended}
use koreader_base.Paint.{repainted}
use koreader_base.Rect.Blend.{pack16, blend_rgb32_over_pixel}
use koreader_base.Rect.Blend.Rounding.{
  channels, pack16_lem, luma_byte, blend_rgb32_over_pixel-Blended,
}
use koreader_base.Compose.Alpha.{by_alpha}
use koreader_base.Compose.Colorize.{tint_pixel, tint_pixel_rgb32}

-- At opacity 0 a pixel may stay as it is.
Blended-clear : (t : BbType) (y8 : ℕ) (c : ColorRgb24) (d : ColorOf t) → Blended t 0 y8 c d d
Blended-clear bb8 y8 c d = omega arith
Blended-clear bb8a y8 c d = omega arith
Blended-clear bbrgb16 y8 c d = omega arith
Blended-clear bbrgb24 y8 c d = omega arith
Blended-clear bbrgb32 y8 c d = (omega arith, omega arith, omega arith, refl)

-- The three branches on an opacity blend, if the opaque and the mixed pixel do.
pub by_alpha-Blended :
    (t : BbType) (alpha y8 : ℕ) (c : ColorRgb24) (d full mixed : ColorOf t)
    → Blended t 255 y8 c d full
    → Blended t alpha y8 c d mixed
    → Blended t alpha y8 c d (repainted (by_alpha alpha full mixed) d)
by_alpha-Blended t alpha y8 c d full mixed opaque between = elim (Bool-cases (alpha == 0)) [
  | inl e ↦ let clear : alpha ≡ 0 = ground arith in rw clear (Blended-clear t y8 c d)
  | inr e ↦ elim (Bool-cases (alpha == 0xff)) [
    | inl e' ↦ let all : alpha ≡ 255 = ground arith in rw all opaque
    | inr e' ↦ rw (e, e') between
  ]
]

-- A pixel of the colour itself; alpha bytes stay.
abbrev pub solid : (t : BbType) → ColorRgb32 → ColorOf t → ColorOf t
solid bb8 c d = record { a = u8 (rgb_to_a c.r c.g c.b) }
solid bb8a c d = record d { a = u8 (rgb_to_a c.r c.g c.b) }
solid bbrgb16 c d = pack16 c.r c.g c.b
solid bbrgb24 c d = record { r = c.r; g = c.g; b = c.b }
solid bbrgb32 c d = record d { r = c.r; g = c.g; b = c.b }

solid-Blended :
    (t : BbType) (c : ColorRgb32) (d : ColorOf t)
    → InRange bbrgb32 c
    → Blended t 255 (rgb_to_a c.r c.g c.b) (channels c) d (solid t c d)
solid-Blended bb8 c d hc = omega (arith, luma_byte c.r c.g c.b hc.0 hc.1 hc.2)
solid-Blended bb8a c d hc = omega (arith, luma_byte c.r c.g c.b hc.0 hc.1 hc.2)
solid-Blended bbrgb16 c d hc =
    rw (pack16_lem c.r c.g c.b hc.0 hc.1 hc.2).0
      (omega (arith, rgb565_loss c.r c.g c.b hc.0 hc.1 hc.2))
solid-Blended bbrgb24 c d hc = omega arith
solid-Blended bbrgb32 c d hc = (omega arith, omega arith, omega arith, refl)

-- Tinting is blending at the opacity of the source.
tint-eq-by_alpha :
    (t : BbType) (color : ColorRgb32) (alpha : ℕ) (d : ColorOf t)
    → tint_pixel_rgb32 t color alpha d
      ≡ by_alpha alpha
          (solid t color d)
          (blend_rgb32_over_pixel t (record color { alpha = alpha }) d)
unfolding tint_pixel_rgb32 blend_rgb32_over_pixel
tint-eq-by_alpha bb8 color alpha d = refl
tint-eq-by_alpha bb8a color alpha d = refl
tint-eq-by_alpha bbrgb16 color alpha d = refl
tint-eq-by_alpha bbrgb24 color alpha d = refl
tint-eq-by_alpha bbrgb32 color alpha d = refl

-- For a colour, an opacity and a pixel in range, BB_color_blit_from_RGB32 makes each channel of the
-- pixel the byte nearest to the exact mean of the old channel and the colour (its luminance on the
-- grey types), RGB565 to within the loss of its fields, on all three branches of the opacity, and
-- keeps the alpha of an RGB32 pixel.
pub tint_pixel_rgb32-Blended :
    (t : BbType) (color : ColorRgb32) (alpha : ℕ) (d : ColorOf t)
    → InRange bbrgb32 color
    → alpha < 256
    → InRange t d
    → Blended t alpha
        (rgb_to_a color.r color.g color.b)
        (channels color)
        d
        (repainted (tint_pixel_rgb32 t color alpha d) d)
tint_pixel_rgb32-Blended t color alpha d hc ha hd = rw (tint-eq-by_alpha t color alpha d) (
    by_alpha-Blended t alpha _ (channels color) d (solid t color d) _ (solid-Blended t color d hc) (
      blend_rgb32_over_pixel-Blended t (record color { alpha = alpha }) d (hc.0, hc.1, hc.2, ha)
        hd))

grey_luma : (v : ℕ) → v < 256 → u8 (rgb_to_a v v v) ≡ v
grey_luma v h = omega (arith, rgb_to_a_bounds v v v v v (omega arith) (omega arith) h)

-- For a grey in range, BB_color_blit_from makes of every pixel what BB_color_blit_from_RGB32 makes
-- of it with that grey as all three channels, whatever the types and the opacity.
pub tint_pixel-eq-tint_pixel_rgb32 :
    (t : BbType) (color : Color8A) (alpha : ℕ) (d : ColorOf t)
    → color.a < 256
    → tint_pixel t color alpha d
      ≡ tint_pixel_rgb32 t
          (record { r = color.a; g = color.a; b = color.a; alpha = color.alpha })
          alpha
          d
unfolding tint_pixel tint_pixel_rgb32
tint_pixel-eq-tint_pixel_rgb32 bb8 color alpha d h = rw (grey_luma color.a h) refl
tint_pixel-eq-tint_pixel_rgb32 bb8a color alpha d h = rw (grey_luma color.a h) refl
tint_pixel-eq-tint_pixel_rgb32 bbrgb16 color alpha d h = refl
tint_pixel-eq-tint_pixel_rgb32 bbrgb24 color alpha d h = refl
tint_pixel-eq-tint_pixel_rgb32 bbrgb32 color alpha d h = refl
