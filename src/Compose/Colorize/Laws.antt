-- ===== src/Compose/Colorize/Laws.antt =====
-- The colouring blits on whole rectangles.
use koreader_base.Prelude.{◌≡◌, some}
use koreader_base.Color.{Color8A, ColorRgb32, BbType}
use koreader_base.Memory.Formats.{format_of}
use koreader_base.Buffer.{BlitBuffer, bb_type}
use koreader_base.Buffer.Geometry.{IsValid}
use koreader_base.Blit.{Area}
use koreader_base.Blit.Convert.{luma}
use koreader_base.Blit.Laws.{FitsBoth, Blits, blit_pixels-Blits}
use koreader_base.Outcome.{Returns}
use koreader_base.Compose.Colorize.{
  tint_pixel, tint_pixel_rgb32, color_blit_from, color_blit_from_rgb32,
}

module _ (dst src : BlitBuffer) (a : Area) (fits : FitsBoth src dst a) (s t : BbType)
    (typed_src : bb_type src ≡ some s) (typed : bb_type dst ≡ some t)
    (valid_src : IsValid (format_of s).size src) (valid : IsValid (format_of t).size dst) where
  color_blit_from-Blits :
      (color : Color8A)
      → Returns
          (Blits s t (λ _ _ c d. tint_pixel t color (luma s c) d) src dst a)
          (color_blit_from dst src a color)
  unfolding color_blit_from
  color_blit_from-Blits color =
      rw (typed, typed_src, color_blit_from)
        (blit_pixels-Blits s t src dst valid_src valid a fits
          (λ _ _ c d. tint_pixel t color (luma s c) d))

  color_blit_from_rgb32-Blits :
      (color : ColorRgb32)
      → Returns
          (Blits s t (λ _ _ c d. tint_pixel_rgb32 t color (luma s c) d) src dst a)
          (color_blit_from_rgb32 dst src a color)
  unfolding color_blit_from_rgb32
  color_blit_from_rgb32-Blits color =
      rw (typed, typed_src, color_blit_from_rgb32)
        (blit_pixels-Blits s t src dst valid_src valid a fits
          (λ _ _ c d. tint_pixel_rgb32 t color (luma s c) d))

  -- For well-formed buffers of any two types and rectangles on their screens, BB_color_blit_from and
  -- BB_color_blit_from_RGB32 return, and the destination rectangle shows the old pixels tinted with
  -- the grey, or the three channels, of the colour at the opacity that the grey value of each source
  -- pixel gives; no other pixel and nothing behind the last line changes.
  pub coloring-Blits :
      (grey : Color8A) (color : ColorRgb32)
      → Returns
          (Blits s t (λ _ _ c d. tint_pixel t grey (luma s c) d) src dst a)
          (color_blit_from dst src a grey)
        × Returns
            (Blits s t (λ _ _ c d. tint_pixel_rgb32 t color (luma s c) d) src dst a)
            (color_blit_from_rgb32 dst src a color)
  coloring-Blits grey color = (color_blit_from-Blits grey, color_blit_from_rgb32-Blits color)
