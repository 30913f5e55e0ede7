-- ===== src/Rect/Blend/Laws.antt =====
-- The blending operations on a rectangle.
use koreader_base.Prelude.{ℕ, ◌≡◌, some}
use koreader_base.Color.{Color8A, ColorRgb24, ColorRgb32, BbType, ColorOf}
use koreader_base.Memory.{Bytes}
use koreader_base.Memory.Formats.{format_of}
use koreader_base.Buffer.{BlitBuffer, bb_type}
use koreader_base.Buffer.Geometry.{IsValid}
use koreader_base.Paint.{Fits, Repaints}
use koreader_base.Paint.Laws.{paint_rect-Repaints}
use koreader_base.Rect.Blend.{
  blend_pixel, blend_rect, blend_rgb32_over_pixel, blend_rgb32_over_rect, multiply_pixel,
  blend_rgb_multiply_rect, multiply_over_pixel, blend_rgb32_multiply_rect,
}

module _ (bb : BlitBuffer) (t : BbType) (typed : bb_type bb ≡ some t)
    (valid : IsValid (format_of t).size bb) (x y w h : ℕ) (fits : Fits bb x y w h) where
  -- Every pixel of the rectangle becomes `f` of it.
  abbrev pub Repainted : (ColorOf t → ColorOf t) → Bytes → Type 0
  Repainted f m = Repaints (format_of t) bb x y w h (λ i j d. some (f d)) m

  blend_rect-Repaints :
      (color : Color8A)
      → Repaints
          (format_of t)
          bb
          x
          y
          w
          h
          (λ i j d. some (blend_pixel t color d))
          (blend_rect bb x y w h color)
  unfolding blend_rect
  blend_rect-Repaints color =
      rw (typed, blend_rect)
        (paint_rect-Repaints (format_of t) bb valid (λ i j. blend_pixel t color) x y w h fits)

  blend_rgb32_over_rect-Repaints :
      (color : ColorRgb32)
      → Repaints
          (format_of t)
          bb
          x
          y
          w
          h
          (λ i j d. some (blend_rgb32_over_pixel t color d))
          (blend_rgb32_over_rect bb x y w h color)
  unfolding blend_rgb32_over_rect
  blend_rgb32_over_rect-Repaints color =
      rw (typed, blend_rgb32_over_rect)
        (paint_rect-Repaints (format_of t) bb valid (λ i j. blend_rgb32_over_pixel t color) x y w h
          fits)

  blend_rgb_multiply_rect-Repaints :
      (color : ColorRgb24)
      → Repaints
          (format_of t)
          bb
          x
          y
          w
          h
          (λ i j d. some (multiply_pixel t color d))
          (blend_rgb_multiply_rect bb x y w h color)
  unfolding blend_rgb_multiply_rect
  blend_rgb_multiply_rect-Repaints color =
      rw (typed, blend_rgb_multiply_rect)
        (paint_rect-Repaints (format_of t) bb valid (λ i j. multiply_pixel t color) x y w h fits)

  blend_rgb32_multiply_rect-Repaints :
      (color : ColorRgb32)
      → Repaints
          (format_of t)
          bb
          x
          y
          w
          h
          (λ i j d. some (multiply_over_pixel t color d))
          (blend_rgb32_multiply_rect bb x y w h color)
  unfolding blend_rgb32_multiply_rect
  blend_rgb32_multiply_rect-Repaints color =
      rw (typed, blend_rgb32_multiply_rect)
        (paint_rect-Repaints (format_of t) bb valid (λ i j. multiply_over_pixel t color) x y w h
          fits)

  -- For a well-formed buffer of any type and a rectangle on its screen, BB_blend_rect,
  -- BB_blend_RGB32_over_rect, BB_blend_RGB_multiply_rect and BB_blend_RGB32_multiply_rect turn
  -- every pixel of the rectangle into `blend_pixel`, `blend_rgb32_over_pixel`, `multiply_pixel` and
  -- `multiply_over_pixel` of it, and change no other pixel of the screen and nothing behind the
  -- last line.
  pub blend_rects-Repaints :
      (grey : Color8A) (color : ColorRgb24) (over : ColorRgb32)
      → Repainted (blend_pixel t grey) (blend_rect bb x y w h grey)
        × Repainted (blend_rgb32_over_pixel t over) (blend_rgb32_over_rect bb x y w h over)
        × Repainted (multiply_pixel t color) (blend_rgb_multiply_rect bb x y w h color)
        × Repainted (multiply_over_pixel t over) (blend_rgb32_multiply_rect bb x y w h over)
  blend_rects-Repaints grey color over = (
    blend_rect-Repaints grey,
    blend_rgb32_over_rect-Repaints over,
    blend_rgb_multiply_rect-Repaints color,
    blend_rgb32_multiply_rect-Repaints over,
  )
