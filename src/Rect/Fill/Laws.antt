-- ===== src/Rect/Fill/Laws.antt =====
-- The fills of a rectangle, with their fast paths.
use koreader_base.Prelude.{ℕ, ◌+◌, ◌*◌, ◌/◌, ◌<◌, ◌≡◌, refl, some, true, ◌==◌, ==_iff, arith}
use koreader_base.Prelude.Bits.{all_below, all_below_sound}
use koreader_base.Color.{ColorRgb32, BbType, ColorOf, bb8, bb8a, bbrgb16, bbrgb24, bbrgb32}
use koreader_base.Color.Convert.{
  rgb_to_a, y8_to_y8a, y8_to_rgb32, color32_to_color16, color32_to_color24,
}
use koreader_base.Color.Laws.{rgb_to_rgb16_lem}
use koreader_base.Color.Spec.{InRange}
use koreader_base.Memory.Formats.{format_of, format8, format8a, format16, format24, format32}
use koreader_base.Buffer.{BlitBuffer, bb_type, bb_rotation}
use koreader_base.Buffer.Geometry.{IsValid}
use koreader_base.Paint.{Fits, Repaints}
use koreader_base.Stored.{rotate_rect, PaintsStored}
use koreader_base.Stored.Runs.{memset8-IsRun, memset24-IsRun}
use koreader_base.Stored.Lines.{InBounds}
use koreader_base.Stored.Laws.{run_lines-PaintsStored}
use koreader_base.Stored.Screen.{rotate_rect-InBounds, PaintsStored-Repaints}
use koreader_base.Rect.Fill.{fill8a, fill16, fill32, fill_rect, fill_rect_rgb32}
use koreader_base.Rect.Fill.Runs.{memset_lines-PaintsStored, copy_pixels-PaintsStored}
use koreader_base.Rect.Blend.Rounding.{luma_byte}

-- The packed greys, checked for every byte.
table_y8a : all_below 256 (λ v. y8_to_y8a v == 65280 + v) ≡ true
unfolding all_below y8_to_y8a
table_y8a = refl

table_rgb32 : all_below 256 (λ v. y8_to_rgb32 v == 4278190080 + 65793 * v) ≡ true
unfolding all_below y8_to_rgb32
table_rgb32 = refl

-- The grey of value `v`, opaque, in each pixel type.
abbrev pub grey_of : (t : BbType) → ℕ → ColorOf t
grey_of bb8 v = record { a = v }
grey_of bb8a v = record { a = v; alpha = 255 }
grey_of bbrgb16 v = record { v = v / 8 * 2048 + v / 4 * 32 + v / 8 }
grey_of bbrgb24 v = record { r = v; g = v; b = v }
grey_of bbrgb32 v = record { r = v; g = v; b = v; alpha = 255 }

pub fill8a_lem : (v : ℕ) → v < 256 → fill8a v ≡ grey_of bb8a v
unfolding fill8a
fill8a_lem v h =
    let e : y8_to_y8a v ≡ 65280 + v = (==_iff _ _).0 (all_below_sound 256 _ v table_y8a h) in
    ground arith

pub fill16_lem : (v : ℕ) → v < 256 → fill16 v ≡ grey_of bbrgb16 v
unfolding fill16
fill16_lem v h = ground (arith, rgb_to_rgb16_lem v v v h h)

pub fill32_lem : (v : ℕ) → v < 256 → fill32 v ≡ grey_of bbrgb32 v
unfolding fill32
fill32_lem v h =
    let e : y8_to_rgb32 v ≡ 4278190080 + 65793 * v =
      (==_iff _ _).0 (all_below_sound 256 _ v table_rgb32 h) in
    ground arith

fill_rect-PaintsStored :
    (bb : BlitBuffer) (t : BbType)
    → bb_type bb ≡ some t
    → IsValid (format_of t).size bb
    → (x y w h v : ℕ) → v < 256
    → InBounds bb (rotate_rect bb (bb_rotation bb) x y w h)
    → PaintsStored
        (format_of t)
        (λ _ _ _. grey_of t v)
        bb
        (rotate_rect bb (bb_rotation bb) x y w h)
        bb.bytes
        (fill_rect bb x y w h v)
unfolding fill_rect
fill_rect-PaintsStored bb bb8 typed valid x y w h v hv bounds =
    rw (typed, fill_rect)
      (memset_lines-PaintsStored format8 (grey_of bb8 v) v (λ n p m. memset8-IsRun n p v m) bb valid
        _ bounds)
fill_rect-PaintsStored bb bb8a typed valid x y w h v hv bounds =
    rw (typed, fill_rect)
      (rw (fill8a_lem v hv)
        (run_lines-PaintsStored format8a (λ _. grey_of bb8a v) bb valid _ _ bounds (λ h. refl)))
fill_rect-PaintsStored bb bbrgb16 typed valid x y w h v hv bounds =
    rw (typed, fill_rect)
      (rw (fill16_lem v hv)
        (run_lines-PaintsStored format16 (λ _. grey_of bbrgb16 v) bb valid _ _ bounds (λ h. refl)))
fill_rect-PaintsStored bb bbrgb24 typed valid x y w h v hv bounds =
    rw (typed, fill_rect)
      (memset_lines-PaintsStored format24 (grey_of bbrgb24 v) v (λ n p m. memset24-IsRun n p v m) bb
        valid _ bounds)
fill_rect-PaintsStored bb bbrgb32 typed valid x y w h v hv bounds =
    rw (typed, fill_rect)
      (rw (fill32_lem v hv)
        (run_lines-PaintsStored format32 (λ _. grey_of bbrgb32 v) bb valid _ _ bounds (λ h. refl)))

-- For a well-formed buffer and a rectangle on its screen, BB_fill_rect shows the opaque grey `v`
-- at every pixel of the rectangle, whichever of its paths runs, and changes no other pixel of the
-- screen and nothing behind the last line.
pub fill_rect-Repaints :
    (bb : BlitBuffer) (t : BbType)
    → bb_type bb ≡ some t
    → IsValid (format_of t).size bb
    → (x y w h v : ℕ) → v < 256
    → Fits bb x y w h
    → Repaints (format_of t) bb x y w h (λ i j d. some (grey_of t v)) (fill_rect bb x y w h v)
fill_rect-Repaints bb t typed valid x y w h v hv fits =
    PaintsStored-Repaints (format_of t) (λ _. grey_of t v) bb valid x y w h fits _
      (fill_rect-PaintsStored bb t typed valid x y w h v hv
        (rotate_rect-InBounds (format_of t) (λ _. grey_of t v) bb valid x y w h fits))

-- What BB_fill_rect_RGB32 should write of a colour: its luminance, opaque, on the grey types; its
-- channels, cut to RGB565 or whole; and its own alpha on RGB32.
abbrev pub color_of : (t : BbType) → ColorRgb32 → ColorOf t
color_of bb8 c = record { a = rgb_to_a c.r c.g c.b }
color_of bb8a c = record { a = rgb_to_a c.r c.g c.b; alpha = 255 }
color_of bbrgb16 c = record { v = c.r / 8 * 2048 + c.g / 4 * 32 + c.b / 8 }
color_of bbrgb24 c = record { r = c.r; g = c.g; b = c.b }
color_of bbrgb32 c = c

color16_lem : (c : ColorRgb32) → InRange bbrgb32 c → color32_to_color16 c ≡ color_of bbrgb16 c
unfolding color32_to_color16
color16_lem c hc = ground (arith, rgb_to_rgb16_lem c.r c.g c.b hc.0 hc.1)

color24_lem : (c : ColorRgb32) → color32_to_color24 c ≡ color_of bbrgb24 c
unfolding color32_to_color24
color24_lem c = refl

fill_rect_rgb32-PaintsStored :
    (bb : BlitBuffer) (t : BbType)
    → bb_type bb ≡ some t
    → IsValid (format_of t).size bb
    → (x y w h : ℕ) (c : ColorRgb32) → InRange bbrgb32 c
    → InBounds bb (rotate_rect bb (bb_rotation bb) x y w h)
    → PaintsStored
        (format_of t)
        (λ _ _ _. color_of t c)
        bb
        (rotate_rect bb (bb_rotation bb) x y w h)
        bb.bytes
        (fill_rect_rgb32 bb x y w h c)
unfolding fill_rect_rgb32
fill_rect_rgb32-PaintsStored bb bb8 typed valid x y w h c hc bounds =
    rw (typed, fill_rect_rgb32)
      (rw (luma_byte c.r c.g c.b hc.0 hc.1 hc.2) (
        memset_lines-PaintsStored format8 (color_of bb8 c) (rgb_to_a c.r c.g c.b)
          (λ n p m. memset8-IsRun n p (rgb_to_a c.r c.g c.b) m) bb valid _ bounds))
fill_rect_rgb32-PaintsStored bb bb8a typed valid x y w h c hc bounds =
    rw (typed, fill_rect_rgb32)
      (rw (fill8a_lem (rgb_to_a c.r c.g c.b) (omega (arith, luma_byte c.r c.g c.b hc.0 hc.1 hc.2)))
        (run_lines-PaintsStored format8a (λ _. color_of bb8a c) bb valid _ _ bounds (λ h. refl)))
fill_rect_rgb32-PaintsStored bb bbrgb16 typed valid x y w h c hc bounds =
    rw (typed, fill_rect_rgb32)
      (rw (color16_lem c hc)
        (run_lines-PaintsStored format16 (λ _. color_of bbrgb16 c) bb valid _ _ bounds (λ h. refl)))
fill_rect_rgb32-PaintsStored bb bbrgb24 typed valid x y w h c hc bounds =
    rw (typed, fill_rect_rgb32)
      (rw (color24_lem c) (copy_pixels-PaintsStored bb valid _ bounds (color_of bbrgb24 c)))
fill_rect_rgb32-PaintsStored bb bbrgb32 typed valid x y w h c hc bounds =
    rw (typed, fill_rect_rgb32)
      (run_lines-PaintsStored format32 (λ _. c) bb valid _ _ bounds (λ h. refl))

-- For a well-formed buffer, a rectangle on its screen and a colour in range, BB_fill_rect_RGB32
-- shows `color_of` the colour at every pixel of the rectangle, whichever of its paths runs, and
-- changes no other pixel of the screen and nothing behind the last line.
pub fill_rect_rgb32-Repaints :
    (bb : BlitBuffer) (t : BbType)
    → bb_type bb ≡ some t
    → IsValid (format_of t).size bb
    → (x y w h : ℕ) (c : ColorRgb32) → InRange bbrgb32 c
    → Fits bb x y w h
    → Repaints
        (format_of t)
        bb
        x
        y
        w
        h
        (λ i j d. some (color_of t c))
        (fill_rect_rgb32 bb x y w h c)
fill_rect_rgb32-Repaints bb t typed valid x y w h c hc fits =
    PaintsStored-Repaints (format_of t) (λ _. color_of t c) bb valid x y w h fits _
      (fill_rect_rgb32-PaintsStored bb t typed valid x y w h c hc
        (rotate_rect-InBounds (format_of t) (λ _. color_of t c) bb valid x y w h fits))
