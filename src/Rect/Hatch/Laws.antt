-- ===== src/Rect/Hatch/Laws.antt =====
-- BB_hatch_rect on a whole rectangle.
use koreader_base.Prelude.{
  ℕ, zero, suc, true, ◌≤◌, ◌↔◌, ◌+◌, ◌-◌, ◌*◌, ◌^◌, ◌<◌, ◌≡◌, refl, ◌∙◌, sym, Option, none, some,
  false, ◌||◌, if◌then◌else◌, ◌==◌, u32, arith,
}
use koreader_base.Prelude.Loops.{for_range, for_range_shift}
use koreader_base.Color.{Color8, BbType, ColorOf}
use koreader_base.Memory.{Bytes, PixelFormat}
use koreader_base.Memory.Formats.{format_of}
use koreader_base.Buffer.{
  BlitBuffer, Rotation, deg0, deg90, deg180, deg270, bb_type, bb_rotation, get_width, get_height,
}
use native.Mathlib.Nat.{mul_comm}
use koreader_base.Buffer.Geometry.{IsValid, screen_u32}
use koreader_base.Paint.{pixel_in, visit, paint_some, Fits, Repaints}
use koreader_base.Paint.Laws.{paint_some_lem, paint_some-Repaints}
use koreader_base.Outcome.{Returns}
use koreader_base.Rect.Hatch.Pixels.{
  InEvenStripe, on_stripe_iff, hatch_pixel-Blended, hatch_pixel-opacity,
}
use koreader_base.Color.Spec.{InRange, opacity, Blended}
use koreader_base.Rect.Blend.Rounding.{grey}
use koreader_base.Rect.Hatch.{hatch_pixel, on_stripe, hatch_rect}

-- What the stripes make of the pixel (i, j) of a rectangle with its corner at (x, y).
abbrev pub striped : (t : BbType) → ℕ → ℕ → ℕ → Color8 → ℕ → ℕ → ℕ → ColorOf t → Option (ColorOf t)
striped t x y stripe_width color alpha i j d =
    if on_stripe stripe_width (i - x) (j - y) then some (hatch_pixel t color alpha d) else none

-- A round depends on what `f` says of its pixel.
visit_same :
    {C : Type 0} (px : PixelFormat C) (bb : BlitBuffer) (f g : ℕ → ℕ → C → Option C) (x y : ℕ)
    (m : Bytes)
    → ((c : C) → f x y c ≡ g x y c)
    → visit px bb f y x m ≡ visit px bb g y x m
unfolding visit
visit_same px bb f g x y m same = rw (same (pixel_in px bb m x y), visit) refl

below_area : (m n : ℕ) → 0 < m → 0 < n → m + n ≤ m * n + 1
below_area zero n a b = absurd (omega arith)
below_area (suc m) zero a b = absurd (omega arith)
below_area (suc m) (suc n) a b = grind arith

scaled_le : (a b n : ℕ) → a ≤ b → a * n ≤ b * n
scaled_le a b n h = grind arith

-- The pixels of a screen are no more than its bytes.
screen_area :
    (size : ℕ) (bb : BlitBuffer)
    → 0 < size
    → IsValid size bb
    → get_width bb * get_height bb < 2 ^ 32
unfolding get_width get_height
screen_area size bb some_size valid = turned (bb_rotation bb)
  where
    area : bb.w * bb.h < 2 ^ 32
    area =
        let line : 1 * bb.pixel_stride ≤ size * bb.pixel_stride =
          scaled_le 1 size bb.pixel_stride (omega arith) in
        let wide : bb.w ≤ bb.stride =
          omega (arith, valid.line, valid.whole, mul_comm size bb.pixel_stride) in
        let all : bb.w * bb.h ≤ bb.stride * bb.h = scaled_le bb.w bb.stride bb.h wide in
        omega (arith, valid.fits)

    turned :
        (r : Rotation)
        → (elim r [ deg0 ↦ bb.w | deg90 ↦ bb.h | deg180 ↦ bb.w | deg270 ↦ bb.h ])
            * (elim r [ deg0 ↦ bb.h | deg90 ↦ bb.w | deg180 ↦ bb.h | deg270 ↦ bb.w ])
          < 2 ^ 32
    turned deg0 = area
    turned deg90 = rw (mul_comm bb.h bb.w) area
    turned deg180 = area
    turned deg270 = rw (mul_comm bb.h bb.w) area

module _ (bb : BlitBuffer) (t : BbType) (typed : bb_type bb ≡ some t)
    (valid : IsValid (format_of t).size bb) (x y w h : ℕ) (fits : Fits bb x y w h)
    (stripe_width : ℕ) (color : Color8) (alpha : ℕ) where
  -- The loops that count from 0 are the loops over the screen.
  hatch_rounds :
      for_range h 0
        (λ d_y. for_range w 0 (λ d_x.
          visit
            (format_of t)
            bb
            (λ _ _ d.
              if on_stripe stripe_width d_x d_y then some (hatch_pixel t color alpha d) else none)
            (u32 (y + d_y))
            (u32 (x + d_x))))
        bb.bytes
      ≡ paint_some (format_of t) bb (striped t x y stripe_width color alpha) x y w h
  hatch_rounds =
      for_range_shift y h 0 y _ _ bb.bytes (omega arith) (λ d_y m lo hi_y.
        for_range_shift x w 0 x _ _ m (omega arith) (λ d_x m lo' hi_x.
          let column : u32 (x + d_x) ≡ x + d_x =
            omega (arith, screen_u32 (format_of t).size bb valid) in
          let line : u32 (y + d_y) ≡ y + d_y =
            omega (arith, screen_u32 (format_of t).size bb valid) in
          let across : x + d_x - x ≡ d_x = omega arith in
          let down : y + d_y - y ≡ d_y = omega arith in
          rw (column, line)
            (visit_same (format_of t) bb _ _ (x + d_x) (y + d_y) m (λ d. rw (across, down) refl))))
      ∙ sym (
          paint_some_lem (format_of t) bb valid (striped t x y stripe_width color alpha) x y w h
            fits)

  hatch_rect_stripes :
      0 < alpha
      → 0 < stripe_width
      → stripe_width < 2 ^ 31
      → Returns
          (Repaints (format_of t) bb x y w h (striped t x y stripe_width color alpha))
          (hatch_rect bb x y w h stripe_width color alpha)
  unfolding hatch_rect
  hatch_rect_stripes seen pos small =
      let shown : (alpha == 0) || (stripe_width == 0) ≡ false = ground arith in
      let whole : (u32 (stripe_width * 2) == 0) ≡ false = ground arith in
      rw (shown, typed, whole, hatch_rounds, hatch_rect)
        (paint_some-Repaints (format_of t) bb valid (striped t x y stripe_width color alpha) x y w h
          fits)

  -- A distance from the corner that lies in the rectangle does not wrap.
  distance : (p q : ℕ) → p < w → q < h → p + q < 2 ^ 32
  distance p q across down =
      let area = screen_area (format_of t).size bb (format_of t).size_pos valid in
      let sides =
        below_area (get_width bb) (get_height bb) (omega (arith, fits)) (omega (arith, fits)) in
      omega (arith, fits)

  -- For a well-formed buffer, a rectangle on its screen and a stripe width from 1 up to below
  -- 2 ^ 31, BB_hatch_rect at an alpha above 0 returns, and paints exactly the pixels of the
  -- rectangle that are on a stripe; no other pixel and nothing behind the last line changes. A pixel
  -- is on a stripe exactly when its distance from the corner, across plus down, is in an even stripe
  -- of that width. For a colour, an alpha and a pixel in range, painting makes each channel the byte
  -- nearest to the mean of the old one and the colour at that alpha (so the colour itself at 255),
  -- RGB565 to within the loss of its fields, and keeps the pixel's own alpha.
  pub hatch_rect-Repaints :
      0 < alpha
      → alpha < 256
      → color.a < 256
      → 0 < stripe_width
      → stripe_width < 2 ^ 31
      → (p q : ℕ) → p < w
      → q < h
      → (d : ColorOf t) → InRange t d
      → Returns
          (Repaints (format_of t) bb x y w h (striped t x y stripe_width color alpha))
          (hatch_rect bb x y w h stripe_width color alpha)
        × ((on_stripe stripe_width p q ≡ true) ↔ InEvenStripe stripe_width (p + q))
        × Blended t alpha color.a
            (grey (record { a = color.a; alpha = alpha }))
            d
            (hatch_pixel t color alpha d)
        × (opacity t (hatch_pixel t color alpha d) ≡ opacity t d)
  hatch_rect-Repaints seen top byte pos small p q across down d range = (
    hatch_rect_stripes seen pos small,
    on_stripe_iff stripe_width pos (p + q) p q refl (distance p q across down) small,
    hatch_pixel-Blended t color alpha d byte top range,
    hatch_pixel-opacity t color alpha d,
  )
