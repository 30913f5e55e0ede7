-- ===== src/Blit/Laws.antt =====
-- A blit by pixels, and what its destination rectangle shows.
use koreader_base.Prelude.{ℕ, ◌+◌, ◌-◌, ◌<◌, ◌≡◌, Option, arith}
use koreader_base.Color.{BbType, ColorOf}
use koreader_base.Memory.{Bytes}
use koreader_base.Memory.Formats.{format_of}
use koreader_base.Buffer.{BlitBuffer, pixel}
use koreader_base.Buffer.Geometry.{IsValid, screen_u32}
use koreader_base.Paint.{Fits, Repaints}
use koreader_base.Paint.Laws.{paint_some-Repaints, Repaints-congr}
use koreader_base.Blit.{Area, o_x, o_y, blit_pixels}

-- The rectangle lies on both screens.
abbrev pub FitsBoth : BlitBuffer → BlitBuffer → Area → Type 0
FitsBoth src dst a = Fits src a.offs_x a.offs_y a.w a.h × Fits dst a.dest_x a.dest_y a.w a.h

-- What a blit promises: in the destination rectangle, `f` of the source pixel at the same place
-- in the source rectangle, and of the old pixel; all else on the screen and behind the last line
-- as it was.
abbrev pub Blits :
    (s t : BbType)
    → (ℕ → ℕ → ColorOf s → ColorOf t → Option (ColorOf t))
    → BlitBuffer
    → BlitBuffer
    → Area
    → Bytes
    → Type 0
Blits s t f src dst a m =
    Repaints (format_of t) dst a.dest_x a.dest_y a.w a.h
      (λ i j d.
        f (a.offs_x + (i - a.dest_x)) (a.offs_y + (j - a.dest_y))
          (pixel (format_of s) src (a.offs_x + (i - a.dest_x)) (a.offs_y + (j - a.dest_y))) d)
      m

module _ (s t : BbType) (src dst : BlitBuffer) (valid_src : IsValid (format_of s).size src)
    (valid_dst : IsValid (format_of t).size dst) (a : Area) (fits : FitsBoth src dst a) where
  -- The source position does not wrap.
  pub o_x_lem : (i : ℕ) → i < a.dest_x + a.w → o_x a i ≡ a.offs_x + (i - a.dest_x)
  o_x_lem i h = omega (arith, screen_u32 (format_of s).size src valid_src)

  pub o_y_lem : (j : ℕ) → j < a.dest_y + a.h → o_y a j ≡ a.offs_y + (j - a.dest_y)
  o_y_lem j h = omega (arith, screen_u32 (format_of s).size src valid_src)

  -- The loops of a blit do what `Blits` says, for any pixel function.
  pub blit_pixels-Blits :
      (f : ℕ → ℕ → ColorOf s → ColorOf t → Option (ColorOf t))
      → Blits s t f src dst a (blit_pixels s t f src dst a)
  unfolding blit_pixels
  blit_pixels-Blits f =
      Repaints-congr (format_of t) dst a.dest_x a.dest_y a.w a.h _ _ _
        (λ i j c lo_x hi_x lo_y hi_y. rw (o_x_lem i hi_x, o_y_lem j hi_y))
        (paint_some-Repaints (format_of t) dst valid_dst
          (λ x y d. f (o_x a x) (o_y a y) (pixel (format_of s) src (o_x a x) (o_y a y)) d) a.dest_x
          a.dest_y a.w a.h fits.1)
