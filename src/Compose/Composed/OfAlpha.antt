-- ===== src/Compose/Composed/OfAlpha.antt =====
-- The cases of BB_alpha_blit_from.
use koreader_base.Prelude.{refl, arith}
use koreader_base.Color.{
  Color8, Color8A, ColorRgb16, ColorRgb32, BbType, ColorOf, bb8, bb8a, bbrgb16, bbrgb24, bbrgb32,
}
use koreader_base.Color.Spec.{InRange, mean}
use koreader_base.Rect.Blend.Rounding.{opaque-Near}
use koreader_base.Blit.Convert.{luma}
use koreader_base.Compose.Alpha.{
  alpha_to_bb8, alpha_to_bb8a, alpha_to_bb16, alpha_to_bb32, alpha_case,
}
use koreader_base.Compose.Composed.{Composed}
use koreader_base.Compose.Composed.Mixing.{
  luma_small, grey_to_8, grey_to_8a, colors_to_8, grey_to_16, grey_to_32, colors_to_16,
  colors_to_32,
}
use koreader_base.Compose.Composed.Plain.{packed_opaque, copied_16, widened_32}
use koreader_base.Compose.Composed.Cases.{Byte, itself, mean_mix, Case}

alpha_to_bb8-Composed :
    (s : BbType) (c : ColorOf s) (d : Color8)
    → InRange s c
    → InRange bb8 d
    → InRange s c
    → Composed mean s bb8 c d (alpha_to_bb8 s c d)
unfolding alpha_to_bb8 luma
alpha_to_bb8-Composed bb8 c d hc hd ok = (omega arith, opaque-Near d.a c.a, refl)
alpha_to_bb8-Composed bb8a c d hc hd ok =
    grey_to_8 mean itself Byte opaque-Near mean_mix c d hc hd (hc.0)
alpha_to_bb8-Composed bbrgb16 c d hc hd ok = (omega arith, opaque-Near d.a (luma bbrgb16 c), refl)
alpha_to_bb8-Composed bbrgb24 c d hc hd ok = (omega arith, opaque-Near d.a (luma bbrgb24 c), refl)
alpha_to_bb8-Composed bbrgb32 c d hc hd ok =
    colors_to_8 mean itself Byte opaque-Near mean_mix c d hc hd (luma_small bbrgb32 c hc)

alpha_to_bb16-Composed :
    (s : BbType) (c : ColorOf s) (d : ColorRgb16)
    → InRange s c
    → InRange bbrgb16 d
    → InRange s c
    → Composed mean s bbrgb16 c d (alpha_to_bb16 s c d)
unfolding alpha_to_bb16 luma
alpha_to_bb16-Composed bb8 c d hc hd ok =
    (omega arith, packed_opaque mean opaque-Near c.a c.a c.a _ _ _ hc hc hc, refl)
alpha_to_bb16-Composed bb8a c d hc hd ok =
    grey_to_16 mean itself Byte opaque-Near mean_mix c d hc hd (hc.0)
alpha_to_bb16-Composed bbrgb16 c d hc hd ok = copied_16 mean opaque-Near c d
alpha_to_bb16-Composed bbrgb24 c d hc hd ok =
    (omega arith, packed_opaque mean opaque-Near c.r c.g c.b _ _ _ hc.0 hc.1 hc.2, refl)
alpha_to_bb16-Composed bbrgb32 c d hc hd ok =
    colors_to_16 mean itself Byte opaque-Near mean_mix c hc hc.0 hc.1 hc.2 d hd

alpha_to_bb32-Composed :
    (s : BbType) (c : ColorOf s) (d : ColorRgb32)
    → InRange s c
    → InRange bbrgb32 d
    → InRange s c
    → Composed mean s bbrgb32 c d (alpha_to_bb32 s c d)
unfolding alpha_to_bb32 luma
alpha_to_bb32-Composed bb8 c d hc hd ok =
    (omega arith, (opaque-Near d.r c.a, opaque-Near d.g c.a, opaque-Near d.b c.a), refl)
alpha_to_bb32-Composed bb8a c d hc hd ok =
    grey_to_32 mean itself Byte opaque-Near mean_mix c d hc hd (hc.0)
alpha_to_bb32-Composed bbrgb16 c d hc hd ok = widened_32 mean opaque-Near c d hc
alpha_to_bb32-Composed bbrgb24 c d hc hd ok =
    (omega arith, (opaque-Near d.r c.r, opaque-Near d.g c.g, opaque-Near d.b c.b), refl)
alpha_to_bb32-Composed bbrgb32 c d hc hd ok =
    colors_to_32 mean itself Byte opaque-Near mean_mix c hc hc.0 hc.1 hc.2 d hd

alpha_to_bb8a-Composed :
    (c d : Color8A)
    → InRange bb8a c
    → InRange bb8a d
    → InRange bb8a c
    → Composed mean bb8a bb8a c d (alpha_to_bb8a c d)
unfolding alpha_to_bb8a luma
alpha_to_bb8a-Composed c d hc hd ok =
    grey_to_8a mean itself Byte opaque-Near mean_mix c d hc hd (hc.0)

pub alpha_case-Case : (s t : BbType) → Case mean InRange s t (alpha_case s t)
unfolding alpha_case luma
alpha_case-Case bb8 bb8 = alpha_to_bb8-Composed bb8
alpha_case-Case bb8a bb8 = alpha_to_bb8-Composed bb8a
alpha_case-Case bbrgb16 bb8 = alpha_to_bb8-Composed bbrgb16
alpha_case-Case bbrgb24 bb8 = alpha_to_bb8-Composed bbrgb24
alpha_case-Case bbrgb32 bb8 = alpha_to_bb8-Composed bbrgb32
alpha_case-Case bb8 bb8a = omega arith
alpha_case-Case bb8a bb8a = alpha_to_bb8a-Composed
alpha_case-Case bbrgb16 bb8a = omega arith
alpha_case-Case bbrgb24 bb8a = omega arith
alpha_case-Case bbrgb32 bb8a = omega arith
alpha_case-Case bb8 bbrgb16 = alpha_to_bb16-Composed bb8
alpha_case-Case bb8a bbrgb16 = alpha_to_bb16-Composed bb8a
alpha_case-Case bbrgb16 bbrgb16 = alpha_to_bb16-Composed bbrgb16
alpha_case-Case bbrgb24 bbrgb16 = alpha_to_bb16-Composed bbrgb24
alpha_case-Case bbrgb32 bbrgb16 = alpha_to_bb16-Composed bbrgb32
alpha_case-Case bb8 bbrgb24 = omega arith
alpha_case-Case bb8a bbrgb24 = omega arith
alpha_case-Case bbrgb16 bbrgb24 = omega arith
alpha_case-Case bbrgb24 bbrgb24 = λ c d hc hd ok.
    (omega arith, (opaque-Near d.r c.r, opaque-Near d.g c.g, opaque-Near d.b c.b), refl)
alpha_case-Case bbrgb32 bbrgb24 = omega arith
alpha_case-Case bb8 bbrgb32 = alpha_to_bb32-Composed bb8
alpha_case-Case bb8a bbrgb32 = alpha_to_bb32-Composed bb8a
alpha_case-Case bbrgb16 bbrgb32 = alpha_to_bb32-Composed bbrgb16
alpha_case-Case bbrgb24 bbrgb32 = alpha_to_bb32-Composed bbrgb24
alpha_case-Case bbrgb32 bbrgb32 = alpha_to_bb32-Composed bbrgb32
