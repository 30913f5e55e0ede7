-- ===== src/Rect/Invert/Laws.antt =====
-- BB_invert_rect and its pixels, against the exact negative.
use koreader_base.Prelude.{ℕ, ◌+◌, ◌-◌, ◌*◌, ◌<◌, ◌≡◌, refl, ap, ◌∙◌, some, arith}
use koreader_base.Prelude.Bits.{bit_xor_ff, bit_xor_ff_low, bit_xor_ffff, bit_xor_ffffff}
use koreader_base.Color.{BbType, ColorOf, bb8, bb8a, bbrgb16, bbrgb24, bbrgb32}
use koreader_base.Color.Spec.{InRange}
use koreader_base.Memory.Formats.{format_of}
use koreader_base.Buffer.{BlitBuffer, bb_type, bb_rotation}
use koreader_base.Buffer.Geometry.{IsValid, mul_step}
use koreader_base.Paint.{Fits, Repaints}
use koreader_base.Stored.{StoredRect, rotate_rect}
use koreader_base.Stored.Lines.{InBounds}
use koreader_base.Stored.Laws.{run_lines-PaintsStored}
use koreader_base.Stored.Screen.{rotate_rect-InBounds, PaintsStored-Repaints}
use koreader_base.Rect.Invert.{invert_pixel, first_pixel, invert_rect}

-- On a buffer with lines the offset of a column does not wrap.
first_pixel_lem :
    (bb : BlitBuffer) (t : BbType)
    → IsValid (format_of t).size bb
    → (r : StoredRect) → InBounds bb r
    → 0 < bb.h
    → first_pixel t r.rx ≡ r.rx * (format_of t).size
unfolding first_pixel
first_pixel_lem bb bb8 valid r bounds h = refl
first_pixel_lem bb bb8a valid r bounds h = refl
first_pixel_lem bb bbrgb16 valid r bounds h = refl
first_pixel_lem bb bbrgb24 valid r bounds h = omega (arith, valid, mul_step 0 bb.h bb.stride h)
first_pixel_lem bb bbrgb32 valid r bounds h = refl

invert_rect-inverts :
    (bb : BlitBuffer) (t : BbType)
    → bb_type bb ≡ some t
    → IsValid (format_of t).size bb
    → (x y w h : ℕ) → Fits bb x y w h
    → Repaints (format_of t) bb x y w h (λ i j d. some (invert_pixel t d)) (invert_rect bb x y w h)
unfolding invert_rect
invert_rect-inverts bb t typed valid x y w h fits =
    rw (typed, invert_rect)
      (PaintsStored-Repaints (format_of t) (invert_pixel t) bb valid x y w h fits _ (
        run_lines-PaintsStored (format_of t) (invert_pixel t) bb valid
          (rotate_rect bb (bb_rotation bb) x y w h) _
          (rotate_rect-InBounds (format_of t) (invert_pixel t) bb valid x y w h fits)
          (first_pixel_lem bb t valid (rotate_rect bb (bb_rotation bb) x y w h)
            (rotate_rect-InBounds (format_of t) (invert_pixel t) bb valid x y w h fits))))

-- The exact negative of a pixel: every colour channel (or field of RGB565) is subtracted from its
-- maximum, and alpha stays.
abbrev pub negative : (t : BbType) → ColorOf t → ColorOf t
negative bb8 d = record { a = 255 - d.a }
negative bb8a d = record d { a = 255 - d.a }
negative bbrgb16 d = record { v = 65535 - d.v }
negative bbrgb24 d = record { r = 255 - d.r; g = 255 - d.g; b = 255 - d.b }
negative bbrgb32 d = record d { r = 255 - d.r; g = 255 - d.g; b = 255 - d.b }

-- The word-wide exclusive or makes the negative.
pub invert_pixel-eq-negative :
    (t : BbType) (d : ColorOf t) → InRange t d → invert_pixel t d ≡ negative t d
unfolding invert_pixel
invert_pixel-eq-negative bb8 d h = ground (arith, bit_xor_ff d.a)
invert_pixel-eq-negative bb8a d h = ground (arith, bit_xor_ff_low (d.a + 256 * d.alpha))
invert_pixel-eq-negative bbrgb16 d h = ground (arith, bit_xor_ffff d.v)
invert_pixel-eq-negative bbrgb24 d h =
    ground (arith, bit_xor_ff d.r, bit_xor_ff d.g, bit_xor_ff d.b)
invert_pixel-eq-negative bbrgb32 d h =
    ground (arith, bit_xor_ffffff (d.r + 256 * d.g + 65536 * d.b + 16777216 * d.alpha))

negative-InRange : (t : BbType) (d : ColorOf t) → InRange t d → InRange t (negative t d)
negative-InRange bb8 d h = omega arith
negative-InRange bb8a d h = omega arith
negative-InRange bbrgb16 d h = omega arith
negative-InRange bbrgb24 d h = omega arith
negative-InRange bbrgb32 d h = omega arith

back : (top v : ℕ) → v < top + 1 → top - (top - v) ≡ v
back top v h = omega arith

negative-negative : (t : BbType) (d : ColorOf t) → InRange t d → negative t (negative t d) ≡ d
negative-negative bb8 d h = rw (back 255 d.a h) refl
negative-negative bb8a d h = rw (back 255 d.a h.0) refl
negative-negative bbrgb16 d h = rw (back 65535 d.v h) refl
negative-negative bbrgb24 d h = rw (back 255 d.r h.0, back 255 d.g h.1, back 255 d.b h.2) refl
negative-negative bbrgb32 d h = rw (back 255 d.r h.0, back 255 d.g h.1, back 255 d.b h.2) refl

-- For a well-formed buffer and a rectangle on its screen, BB_invert_rect inverts each pixel in
-- the rectangle, by its fast path too, and changes no other pixel and nothing behind the last
-- line. Inverting a pixel whose fields are in range subtracts each of its colour channels (or the
-- packed word of RGB565) from the maximum and keeps its alpha, and inverting twice gives the pixel
-- back.
pub invert_rect-Repaints :
    (bb : BlitBuffer) (t : BbType)
    → bb_type bb ≡ some t
    → IsValid (format_of t).size bb
    → (x y w h : ℕ) → Fits bb x y w h
    → (c : ColorOf t) → InRange t c
    → Repaints (format_of t) bb x y w h (λ i j d. some (invert_pixel t d)) (invert_rect bb x y w h)
      × (invert_pixel t c ≡ negative t c)
      × (invert_pixel t (invert_pixel t c) ≡ c)
invert_rect-Repaints bb t typed valid x y w h fits c range =
    let once = invert_pixel-eq-negative t c range in
    (
      invert_rect-inverts bb t typed valid x y w h fits,
      once,
      ap (invert_pixel t) once
          ∙ invert_pixel-eq-negative t (negative t c) (negative-InRange t c range)
          ∙ negative-negative t c range,
    )
