-- ===== src/Tests/Compose.antt =====
-- The premultiplied, colouring and dithering composing blits, applied to small screens.
use koreader_base.Prelude.{ℕ, ◌≡◌, ◌≢◌, ◌↔◌, some, refl, arith, false}
use koreader_base.Color.{Color8, Color8A, ColorRgb16, ColorRgb32, bb8, bbrgb32}
use koreader_base.Color.Convert.{color32_to_pmul}
use koreader_base.Buffer.{bb_type, type_bits}
use koreader_base.Paint.{repainted}
use koreader_base.Outcome.{Returns, exited}
use koreader_base.Blit.Convert.{luma}
use koreader_base.Blit.Laws.{Blits}
use koreader_base.Compose.Add.{add_blit_from}
use koreader_base.Compose.Negate.{invert_blit_from}
use koreader_base.Compose.Alpha.{alpha_case, alpha_to_bb8, alpha_to_bb32, alpha_blit_from}
use koreader_base.Compose.Premultiplied.{pmul_case, pmul_to_bb8, pmul_to_bb32, pmulalpha_blit_from}
use koreader_base.Compose.Composed.{Composed, premultiplied_mean}
use koreader_base.Compose.Premultiplied.Laws.{Close, pmulalpha_blit_from-Blits, pmul-Close-alpha}
use koreader_base.Compose.Colorize.{
  tint_pixel, tint_pixel_rgb32, color_blit_from, color_blit_from_rgb32,
}
use koreader_base.Compose.Colorize.Laws.{coloring-Blits}
use koreader_base.Compose.Exits.{goes_with, composing-exits}
use koreader_base.Dither.Compose.{dither_alpha_blit_from}
use koreader_base.Dither.Sync.{dithered_for, dither_alpha_blit_from-Blits}
use koreader_base.Tests.{
  turned, coloured, turned_typed, coloured_typed, turned-IsValid, coloured-IsValid, window,
  window_fits,
}

abbrev half_grey : Color8A
half_grey = record { a = 200; alpha = 128 }

abbrev clear_grey : Color8A
clear_grey = record { a = 137; alpha = 0 }

abbrev dark : Color8
dark = record { a = 20 }

abbrev moss : ColorRgb16
moss = record { v = 17000 }

abbrev orange : ColorRgb32
orange = record { r = 250; g = 140; b = 10; alpha = 99 }

abbrev navy : ColorRgb32
navy = record { r = 5; g = 10; b = 120; alpha = 255 }

case_32_to_8 : alpha_case bbrgb32 bb8 ≡ some (alpha_to_bb8 bbrgb32)
unfolding alpha_case
case_32_to_8 = refl

pmul_case_32_to_8 : pmul_case bbrgb32 bb8 ≡ some (pmul_to_bb8 bbrgb32)
unfolding pmul_case
pmul_case_32_to_8 = refl

-- Its channels are below its alpha.
abbrev veil : ColorRgb32
veil = record { r = 90; g = 40; b = 10; alpha = 99 }

pmulalpha_blit_from_example :
    Returns
      (Blits bbrgb32 bb8 (λ _ _. pmul_to_bb8 bbrgb32) coloured turned window)
      (pmulalpha_blit_from turned coloured window)
    × Composed premultiplied_mean bbrgb32 bb8 veil dark (pmul_to_bb8 bbrgb32 veil dark)
pmulalpha_blit_from_example =
    pmulalpha_blit_from-Blits turned coloured window window_fits bbrgb32 bb8 coloured_typed
      turned_typed coloured-IsValid turned-IsValid (pmul_to_bb8 bbrgb32) pmul_case_32_to_8 veil dark
      (omega arith) (omega arith) (omega arith)

pmul-Close-alpha_example :
    let x = repainted (pmul_to_bb32 bbrgb32 (color32_to_pmul orange) navy) navy in
    let y = repainted (alpha_to_bb32 bbrgb32 orange navy) navy in
    Close x.r y.r × Close x.g y.g × Close x.b y.b × (x.alpha ≡ y.alpha)
pmul-Close-alpha_example = pmul-Close-alpha orange navy (omega arith) (omega arith)

abbrev ninety : ℕ
ninety = 90

dither_alpha_blit_from_example :
    Returns
      (Blits bbrgb32 bb8
        (λ o_x o_y c d. dithered_for bb8 o_x o_y (alpha_to_bb8 bbrgb32 c d))
        coloured
        turned
        window)
      (dither_alpha_blit_from turned coloured window)
dither_alpha_blit_from_example =
    dither_alpha_blit_from-Blits turned coloured window window_fits bbrgb32 coloured_typed
      coloured-IsValid bb8 turned_typed turned-IsValid (alpha_to_bb8 bbrgb32) case_32_to_8

coloring_example :
    Returns
      (Blits bbrgb32 bb8
        (λ _ _ c d. tint_pixel bb8 half_grey (luma bbrgb32 c) d)
        coloured
        turned
        window)
      (color_blit_from turned coloured window half_grey)
    × Returns
        (Blits bbrgb32 bb8
          (λ _ _ c d. tint_pixel_rgb32 bb8 orange (luma bbrgb32 c) d)
          coloured
          turned
          window)
        (color_blit_from_rgb32 turned coloured window orange)
coloring_example =
    coloring-Blits turned coloured window window_fits bbrgb32 bb8 coloured_typed turned_typed
      coloured-IsValid turned-IsValid half_grey orange

composing_exits_example :
    ((alpha_blit_from turned coloured window ≡ exited 1)
      ↔ (goes_with (bb_type coloured) (bb_type turned) ≡ false))
    × ((pmulalpha_blit_from turned coloured window ≡ exited 1)
        ↔ (goes_with (bb_type coloured) (bb_type turned) ≡ false))
    × ((add_blit_from turned coloured window ninety ≡ exited 1)
        ↔ ((ninety ≢ 0) × (ninety ≢ 255) × (type_bits turned ≢ type_bits coloured)))
    × ((invert_blit_from turned coloured window ≡ exited 1)
        ↔ (type_bits turned ≢ type_bits coloured))
composing_exits_example = composing-exits turned coloured window ninety
