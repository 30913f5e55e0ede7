-- ===== src/Tests/Blits.antt =====
-- The blits, applied to small screens.
use koreader_base.Prelude.{◌≡◌, some, refl, arith}
use koreader_base.Color.{Color8, ColorRgb32, bb8, bbrgb32}
use koreader_base.Color.Spec.{mean}
use koreader_base.Outcome.{Returns}
use koreader_base.Blit.{blit_to}
use koreader_base.Blit.Convert.{convert}
use koreader_base.Blit.Laws.{Blits}
use koreader_base.Blit.Dispatch.{blit_to-Blits}
use koreader_base.Compose.Add.{add_pixel, add_blit_from}
use koreader_base.Compose.Negate.{negate_pixel, invert_blit_from}
use koreader_base.Compose.Alpha.{by_alpha, alpha_case, alpha_to_bb8, alpha_blit_from}
use koreader_base.Compose.Composed.{Composed}
use koreader_base.Compose.Pixels.{negated}
use koreader_base.Compose.Laws.{add_blit_from-Blits, invert_blit_from-Blits, alpha_blit_from-Blits}
use koreader_base.Dither.{dither_blit_to}
use koreader_base.Dither.Blits.{dithered, dither_blit_to-Blits}
use koreader_base.Tests.{
  turned, plain, coloured, turned_typed, plain_typed, coloured_typed, turned-IsValid, plain-IsValid,
  coloured-IsValid, window, whole_line, window_fits, line_fits8, line_fits32,
}

blit_to_example :
    Blits bbrgb32 bb8
      (λ _ _ c d. some (convert bbrgb32 bb8 c d))
      coloured
      turned
      window
      (blit_to coloured turned window)
blit_to_example =
    blit_to-Blits coloured turned window window_fits bbrgb32 bb8 coloured_typed turned_typed
      coloured-IsValid turned-IsValid

add_blit_from_example :
    Returns
      (Blits bb8 bb8
        (λ _ _ c d. by_alpha 90 (convert bb8 bb8 c d) (add_pixel bb8 90 c d))
        plain
        plain
        whole_line)
      (add_blit_from plain plain whole_line 90)
add_blit_from_example =
    add_blit_from-Blits plain plain whole_line line_fits8 bb8 plain_typed plain_typed refl
      plain-IsValid plain-IsValid 90

abbrev sand : ColorRgb32
sand = record { r = 230; g = 190; b = 120; alpha = 77 }

abbrev sea : ColorRgb32
sea = record { r = 10; g = 80; b = 160; alpha = 255 }

abbrev night : Color8
night = record { a = 20 }

invert_blit_from_example :
    Returns
      (Blits bbrgb32 bbrgb32
        (λ _ _ c d. some (negate_pixel bbrgb32 c d))
        coloured
        coloured
        whole_line)
      (invert_blit_from coloured coloured whole_line)
    × (negate_pixel bbrgb32 sand sea ≡ negated bbrgb32 sand sea)
invert_blit_from_example =
    invert_blit_from-Blits coloured coloured whole_line line_fits32 bbrgb32 coloured_typed
      coloured_typed refl coloured-IsValid coloured-IsValid sand sea (omega arith)

case_32_to_8 : alpha_case bbrgb32 bb8 ≡ some (alpha_to_bb8 bbrgb32)
unfolding alpha_case
case_32_to_8 = refl

alpha_blit_from_example :
    Returns
      (Blits bbrgb32 bb8 (λ _ _. alpha_to_bb8 bbrgb32) coloured turned window)
      (alpha_blit_from turned coloured window)
    × Composed mean bbrgb32 bb8 sand night (alpha_to_bb8 bbrgb32 sand night)
alpha_blit_from_example =
    alpha_blit_from-Blits turned coloured window window_fits bbrgb32 bb8 coloured_typed turned_typed
      coloured-IsValid turned-IsValid (alpha_to_bb8 bbrgb32) case_32_to_8 sand night (omega arith)
      (omega arith)

dither_blit_to_example :
    Blits bbrgb32 bb8
      (dithered bbrgb32 bb8)
      coloured
      turned
      window
      (dither_blit_to coloured turned window)
dither_blit_to_example =
    dither_blit_to-Blits coloured turned window window_fits bbrgb32 bb8 coloured_typed turned_typed
      coloured-IsValid turned-IsValid
