-- ===== src/Rect/Hatch.antt =====
-- BB_hatch_rect: diagonal stripes of one colour.
pub mod Pixels
pub mod Laws
use koreader_base.Prelude.{
  ℕ, ◌+◌, ◌-◌, ◌*◌, ◌%◌, Option, none, some, Bool, ◌&&◌, ◌||◌, if◌then◌else◌, ltb, ◌==◌, u16, u32,
}
use koreader_base.Prelude.Loops.{for_range}
use koreader_base.Color.{Color8, BbType, ColorOf, bb8, bb8a, bbrgb16, bbrgb24, bbrgb32}
use koreader_base.Color.Convert.{inverse, over, get_r, get_g, get_b}
use koreader_base.Memory.{Bytes}
use koreader_base.Memory.Formats.{format_of}
use koreader_base.Buffer.{BlitBuffer, bb_type}
use koreader_base.Paint.{visit}
use koreader_base.Outcome.{Outcome, done, divided_by_zero}
use koreader_base.Rect.Blend.{pack16}

-- The two assignments of each case, for an opaque and for a translucent colour.
unfoldable pub hatch_pixel : (t : BbType) → Color8 → ℕ → ColorOf t → ColorOf t
unfolding over inverse get_r get_g get_b
hatch_pixel bb8 color alpha d =
    if alpha == 0xff then color else record { a = over alpha (inverse alpha) d.a color.a }
hatch_pixel bb8a color alpha d =
    if alpha == 0xff
    then record d { a = color.a }
    else record d { a = over alpha (inverse alpha) d.a color.a }
hatch_pixel bbrgb16 color alpha d =
    let ainv = inverse alpha in
    if alpha == 0xff
    then pack16 color.a color.a color.a
    else pack16 (over alpha ainv (get_r d.v) color.a) (over alpha ainv (get_g d.v) color.a)
        (over alpha ainv (get_b d.v) color.a)
hatch_pixel bbrgb24 color alpha d =
    let ainv = inverse alpha in
    if alpha == 0xff then record { r = color.a; g = color.a; b = color.a } else record {
      r = over alpha ainv d.r color.a;
      g = over alpha ainv d.g color.a;
      b = over alpha ainv d.b color.a;
    }
hatch_pixel bbrgb32 color alpha d =
    let ainv = inverse alpha in
    if alpha == 0xff then record d { r = color.a; g = color.a; b = color.a } else record d {
      r = over alpha ainv d.r color.a;
      g = over alpha ainv d.g color.a;
      b = over alpha ainv d.b color.a;
    }

-- `(d_x + d_y) % sw2 < stripe_width`, with `sw2` an `int` that the division reads as unsigned.
abbrev pub on_stripe : ℕ → ℕ → ℕ → Bool
on_stripe stripe_width d_x d_y = ltb (u32 (d_x + d_y) % u32 (stripe_width * 2)) stripe_width

-- The loops count from 0 and point to (x + d_x, y + d_y). A stripe of 2 ^ 31 makes `sw2` 0.
unfoldable pub hatch_rect : BlitBuffer → ℕ → ℕ → ℕ → ℕ → ℕ → Color8 → ℕ → Outcome
unfolding hatch_pixel visit for_range
hatch_rect bb x y w h stripe_width color alpha =
    if alpha == 0 || stripe_width == 0 then done bb.bytes else elim (bb_type bb) [
      | none ↦ done bb.bytes
      | some t ↦
          if u32 (stripe_width * 2) == 0 && (ltb 0 w && ltb 0 h)
          then divided_by_zero
          else done (
              for_range h 0
                (λ d_y. for_range w 0 (λ d_x.
                  visit (format_of t) bb
                    (λ _ _ d.
                      if on_stripe stripe_width d_x d_y
                      then some (hatch_pixel t color alpha d)
                      else none)
                    (u32 (y + d_y)) (u32 (x + d_x))))
                bb.bytes)
    ]
