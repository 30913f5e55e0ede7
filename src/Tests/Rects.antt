-- ===== src/Tests/Rects.antt =====
-- The operations on one buffer, applied to small screens.
use koreader_base.Prelude.{◌≡◌, ◌↔◌, true, ◌+◌, ◌*◌, ◌≤◌, some, inl, arith}
use koreader_base.Color.{Color8, Color8A, ColorRgb24, ColorRgb32, bb8, bbrgb16, bbrgb32}
use koreader_base.Memory.{Apart}
use koreader_base.Memory.Formats.{format8, format32}
use koreader_base.Buffer.{bb_rotation, get_width, get_height, pixel_offset}
use koreader_base.Buffer.Geometry.{OnScreen, pixel_offset_safe}
use koreader_base.Paint.{Repaints}
use koreader_base.Outcome.{Returns}
use koreader_base.Rect.Fill.{fill, fill_rect}
use koreader_base.Rect.Fill.Laws.{grey_of, fill_rect-Repaints}
use koreader_base.Rect.Fill.Whole.{fill-Repaints}
use koreader_base.Rect.Invert.{invert_rect, invert_pixel}
use koreader_base.Rect.Invert.Laws.{negative, invert_rect-Repaints}
use koreader_base.Rect.Hatch.{hatch_rect, hatch_pixel, on_stripe}
use koreader_base.Rect.Hatch.Pixels.{InEvenStripe}
use koreader_base.Color.Spec.{opacity, Blended}
use koreader_base.Rect.Blend.Rounding.{grey}
use koreader_base.Rect.Hatch.Laws.{striped, hatch_rect-Repaints}
use koreader_base.Rect.Blend.{
  blend_pixel, blend_rect, blend_rgb32_over_pixel, blend_rgb32_over_rect, multiply_pixel,
  blend_rgb_multiply_rect, multiply_over_pixel, blend_rgb32_multiply_rect,
}
use koreader_base.Rect.Blend.Laws.{Repainted, blend_rects-Repaints}
use koreader_base.Tests.{
  turned, packed, coloured, turned_typed, packed_typed, coloured_typed, turned-IsValid,
  packed-IsValid, coloured-IsValid, turned-Fits, packed-Fits, coloured-Fits,
}

abbrev half_grey : Color8A
half_grey = record { a = 200; alpha = 128 }

abbrev orange : ColorRgb32
orange = record { r = 250; g = 140; b = 10; alpha = 99 }

abbrev teal : ColorRgb24
teal = record { r = 0; g = 128; b = 127 }

fill_example :
    Repaints format8 turned 0 0
      (get_width turned)
      (get_height turned)
      (λ i j d. some (grey_of bb8 77))
      (fill turned 77)
fill_example = fill-Repaints turned bb8 turned_typed turned-IsValid 77 (omega arith)

fill_rect_example :
    Repaints format8 turned 0 1 2 2 (λ i j d. some (grey_of bb8 77)) (fill_rect turned 0 1 2 2 77)
fill_rect_example =
    fill_rect-Repaints turned bb8 turned_typed turned-IsValid 0 1 2 2 77 (omega arith) turned-Fits

abbrev translucent_orange : ColorRgb32
translucent_orange = record { r = 250; g = 140; b = 10; alpha = 99 }

invert_rect_example :
    Repaints format32 coloured 1 0 2 2
      (λ i j d. some (invert_pixel bbrgb32 d))
      (invert_rect coloured 1 0 2 2)
    × (invert_pixel bbrgb32 translucent_orange ≡ negative bbrgb32 translucent_orange)
    × (invert_pixel bbrgb32 (invert_pixel bbrgb32 translucent_orange) ≡ translucent_orange)
invert_rect_example =
    invert_rect-Repaints coloured bbrgb32 coloured_typed coloured-IsValid 1 0 2 2 coloured-Fits
      translucent_orange (omega arith)

abbrev black : Color8
black = record { a = 0 }

hatch_rect_example :
    Returns
      (Repaints format8 turned 0 1 2 2 (striped bb8 0 1 1 black 255))
      (hatch_rect turned 0 1 2 2 1 black 255)
    × ((on_stripe 1 1 0 ≡ true) ↔ InEvenStripe 1 (1 + 0))
    × Blended bb8 255 0
        (grey (record { a = 0; alpha = 255 }))
        (record { a = 70 })
        (hatch_pixel bb8 black 255 (record { a = 70 }))
    × (opacity bb8 (hatch_pixel bb8 black 255 (record { a = 70 }))
        ≡ opacity bb8 (record { a = 70 }))
hatch_rect_example =
    hatch_rect-Repaints turned bb8 turned_typed turned-IsValid 0 1 2 2 turned-Fits 1 black 255
      (omega arith) (omega arith) (omega arith) (omega arith) (omega arith) 1 0 (omega arith)
      (omega arith) (record { a = 70 }) (omega arith)

on_turned : OnScreen turned 1 2
unfolding get_width get_height bb_rotation
on_turned = omega arith

blend_rects_example :
    let Now = Repainted packed bbrgb16 packed_typed packed-IsValid 0 1 2 2 packed-Fits in
    Now (blend_pixel bbrgb16 half_grey) (blend_rect packed 0 1 2 2 half_grey)
    × Now (blend_rgb32_over_pixel bbrgb16 orange) (blend_rgb32_over_rect packed 0 1 2 2 orange)
    × Now (multiply_pixel bbrgb16 teal) (blend_rgb_multiply_rect packed 0 1 2 2 teal)
    × Now (multiply_over_pixel bbrgb16 orange) (blend_rgb32_multiply_rect packed 0 1 2 2 orange)
blend_rects_example =
    blend_rects-Repaints packed bbrgb16 packed_typed packed-IsValid 0 1 2 2 packed-Fits half_grey
      teal orange

on_turned_too : OnScreen turned 0 2
unfolding get_width get_height bb_rotation
on_turned_too = omega arith

pixel_offset_safe_example :
    (pixel_offset turned (bb_rotation turned) 1 1 2 + 1 ≤ 4 * 1 * 2)
    × (pixel_offset turned (bb_rotation turned) 1 0 2 + 1 ≤ 4 * 1 * 2)
    × Apart 1
        (pixel_offset turned (bb_rotation turned) 1 1 2)
        (pixel_offset turned (bb_rotation turned) 1 0 2)
pixel_offset_safe_example =
    pixel_offset_safe 1 turned turned-IsValid 1 2 0 2 on_turned on_turned_too (inl (omega arith))
