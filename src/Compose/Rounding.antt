-- ===== src/Compose/Rounding.antt =====
-- The operations that mix a colour into a pixel, next to each other.
use koreader_base.Prelude.{ℕ, ◌<◌, ◌≡◌}
use koreader_base.Color.{Color8A, ColorRgb32, BbType, ColorOf, bb8a, bbrgb32}
use koreader_base.Color.Convert.{rgb_to_a}
use koreader_base.Color.Spec.{InRange, Blended}
use koreader_base.Paint.{repainted}
use koreader_base.Rect.Blend.{blend_pixel, blend_rgb32_over_pixel}
use koreader_base.Rect.Blend.Rounding.{
  grey, channels, blend_pixel-Blended, blend_rgb32_over_pixel-Blended,
}
use koreader_base.Blit.Convert.{luma}
use koreader_base.Compose.Add.{add_pixel}
use koreader_base.Compose.Colorize.{tint_pixel, tint_pixel_rgb32}
use koreader_base.Compose.Colorize.Pixels.{tint_pixel_rgb32-Blended, tint_pixel-eq-tint_pixel_rgb32}
use koreader_base.Compose.Pixels.{channels_of, add_pixel-Blended}

-- For colours, pixels and an opacity in range, each of BB_blend_rect, BB_blend_RGB32_over_rect,
-- BB_add_blit_from and BB_color_blit_from_RGB32 makes each channel of a pixel the byte nearest to
-- the exact mean of the old channel and the channel mixed in (the luminance on the grey types) at
-- its opacity, RGB565 to within the loss of its fields, and keeps the alpha of an RGB32 pixel; and
-- BB_color_blit_from tints as BB_color_blit_from_RGB32 does with three equal channels.
pub mixing-Blended :
    (t : BbType) (a : Color8A) (color : ColorRgb32) (alpha : ℕ) (c d : ColorOf t)
    → InRange bb8a a
    → InRange bbrgb32 color
    → alpha < 256
    → InRange t c
    → InRange t d
    → Blended t a.alpha a.a (grey a) d (blend_pixel t a d)
      × Blended t color.alpha
          (rgb_to_a color.r color.g color.b)
          (channels color)
          d
          (blend_rgb32_over_pixel t color d)
      × Blended t alpha (luma t c) (channels_of t c) d (add_pixel t alpha c d)
      × Blended t alpha
          (rgb_to_a color.r color.g color.b)
          (channels color)
          d
          (repainted (tint_pixel_rgb32 t color alpha d) d)
      × (tint_pixel t a alpha d
          ≡ tint_pixel_rgb32 t (record { r = a.a; g = a.a; b = a.a; alpha = a.alpha }) alpha d)
mixing-Blended t a color alpha c d ha hcolor halpha hc hd = (
  blend_pixel-Blended t a d ha hd,
  blend_rgb32_over_pixel-Blended t color d hcolor hd,
  add_pixel-Blended t alpha c d halpha hc hd,
  tint_pixel_rgb32-Blended t color alpha d hcolor halpha hd,
  tint_pixel-eq-tint_pixel_rgb32 t a alpha d ha.0,
)
