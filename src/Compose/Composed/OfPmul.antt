-- ===== src/Compose/Composed/OfPmul.antt =====
-- The cases of BB_pmulalpha_blit_from.
use koreader_base.Prelude.{refl, arith}
use koreader_base.Color.{
  Color8, Color8A, ColorRgb16, ColorRgb32, BbType, ColorOf, bb8, bb8a, bbrgb16, bbrgb24, bbrgb32,
}
use koreader_base.Color.Spec.{InRange}
use koreader_base.Blit.Convert.{luma}
use koreader_base.Compose.Premultiplied.{
  pmul_to_bb8, pmul_to_bb8a, pmul_to_bb16, pmul_to_bb32, pmul_case,
}
use koreader_base.Compose.Composed.{Composed, IsPremultiplied, premultiplied_mean}
use koreader_base.Compose.Composed.Mixing.{
  grey_to_8, grey_to_8a, colors_to_8, grey_to_16, grey_to_32, colors_to_16, colors_to_32,
}
use koreader_base.Compose.Composed.Plain.{packed_opaque, copied_16, widened_32}
use koreader_base.Compose.Composed.Cases.{
  UpTo, whole, premultiplied_mix, premultiplied_opaque, luma_up_to, Case,
}

pmul_to_bb8-Composed :
    (s : BbType) (c : ColorOf s) (d : Color8)
    → InRange s c
    → InRange bb8 d
    → IsPremultiplied s c
    → Composed premultiplied_mean s bb8 c d (pmul_to_bb8 s c d)
unfolding pmul_to_bb8 luma
pmul_to_bb8-Composed bb8 c d hc hd ok = (omega arith, premultiplied_opaque d.a c.a, refl)
pmul_to_bb8-Composed bb8a c d hc hd ok =
    grey_to_8 premultiplied_mean whole UpTo premultiplied_opaque premultiplied_mix c d hc hd (ok)
pmul_to_bb8-Composed bbrgb16 c d hc hd ok =
    (omega arith, premultiplied_opaque d.a (luma bbrgb16 c), refl)
pmul_to_bb8-Composed bbrgb24 c d hc hd ok =
    (omega arith, premultiplied_opaque d.a (luma bbrgb24 c), refl)
pmul_to_bb8-Composed bbrgb32 c d hc hd ok =
    colors_to_8 premultiplied_mean whole UpTo premultiplied_opaque premultiplied_mix c d hc hd
      (luma_up_to c hc ok)

pmul_to_bb16-Composed :
    (s : BbType) (c : ColorOf s) (d : ColorRgb16)
    → InRange s c
    → InRange bbrgb16 d
    → IsPremultiplied s c
    → Composed premultiplied_mean s bbrgb16 c d (pmul_to_bb16 s c d)
unfolding pmul_to_bb16 luma
pmul_to_bb16-Composed bb8 c d hc hd ok = (
  omega arith,
  packed_opaque premultiplied_mean premultiplied_opaque c.a c.a c.a _ _ _ hc hc hc,
  refl,
)
pmul_to_bb16-Composed bb8a c d hc hd ok =
    grey_to_16 premultiplied_mean whole UpTo premultiplied_opaque premultiplied_mix c d hc hd (ok)
pmul_to_bb16-Composed bbrgb16 c d hc hd ok = copied_16 premultiplied_mean premultiplied_opaque c d
pmul_to_bb16-Composed bbrgb24 c d hc hd ok = (
  omega arith,
  packed_opaque premultiplied_mean premultiplied_opaque c.r c.g c.b _ _ _ hc.0 hc.1 hc.2,
  refl,
)
pmul_to_bb16-Composed bbrgb32 c d hc hd ok =
    colors_to_16 premultiplied_mean whole UpTo premultiplied_opaque premultiplied_mix c hc ok.0 ok.1
      ok.2 d hd

pmul_to_bb32-Composed :
    (s : BbType) (c : ColorOf s) (d : ColorRgb32)
    → InRange s c
    → InRange bbrgb32 d
    → IsPremultiplied s c
    → Composed premultiplied_mean s bbrgb32 c d (pmul_to_bb32 s c d)
unfolding pmul_to_bb32 luma
pmul_to_bb32-Composed bb8 c d hc hd ok = (
  omega arith,
  (premultiplied_opaque d.r c.a, premultiplied_opaque d.g c.a, premultiplied_opaque d.b c.a),
  refl,
)
pmul_to_bb32-Composed bb8a c d hc hd ok =
    grey_to_32 premultiplied_mean whole UpTo premultiplied_opaque premultiplied_mix c d hc hd (ok)
pmul_to_bb32-Composed bbrgb16 c d hc hd ok =
    widened_32 premultiplied_mean premultiplied_opaque c d hc
pmul_to_bb32-Composed bbrgb24 c d hc hd ok = (
  omega arith,
  (premultiplied_opaque d.r c.r, premultiplied_opaque d.g c.g, premultiplied_opaque d.b c.b),
  refl,
)
pmul_to_bb32-Composed bbrgb32 c d hc hd ok =
    colors_to_32 premultiplied_mean whole UpTo premultiplied_opaque premultiplied_mix c hc ok.0 ok.1
      ok.2 d hd

pmul_to_bb8a-Composed :
    (c d : Color8A)
    → InRange bb8a c
    → InRange bb8a d
    → IsPremultiplied bb8a c
    → Composed premultiplied_mean bb8a bb8a c d (pmul_to_bb8a c d)
unfolding pmul_to_bb8a luma
pmul_to_bb8a-Composed c d hc hd ok =
    grey_to_8a premultiplied_mean whole UpTo premultiplied_opaque premultiplied_mix c d hc hd (ok)

pub pmul_case-Case : (s t : BbType) → Case premultiplied_mean IsPremultiplied s t (pmul_case s t)
unfolding pmul_case luma
pmul_case-Case bb8 bb8 = pmul_to_bb8-Composed bb8
pmul_case-Case bb8a bb8 = pmul_to_bb8-Composed bb8a
pmul_case-Case bbrgb16 bb8 = pmul_to_bb8-Composed bbrgb16
pmul_case-Case bbrgb24 bb8 = pmul_to_bb8-Composed bbrgb24
pmul_case-Case bbrgb32 bb8 = pmul_to_bb8-Composed bbrgb32
pmul_case-Case bb8 bb8a = omega arith
pmul_case-Case bb8a bb8a = pmul_to_bb8a-Composed
pmul_case-Case bbrgb16 bb8a = omega arith
pmul_case-Case bbrgb24 bb8a = omega arith
pmul_case-Case bbrgb32 bb8a = omega arith
pmul_case-Case bb8 bbrgb16 = pmul_to_bb16-Composed bb8
pmul_case-Case bb8a bbrgb16 = pmul_to_bb16-Composed bb8a
pmul_case-Case bbrgb16 bbrgb16 = pmul_to_bb16-Composed bbrgb16
pmul_case-Case bbrgb24 bbrgb16 = pmul_to_bb16-Composed bbrgb24
pmul_case-Case bbrgb32 bbrgb16 = pmul_to_bb16-Composed bbrgb32
pmul_case-Case bb8 bbrgb24 = omega arith
pmul_case-Case bb8a bbrgb24 = omega arith
pmul_case-Case bbrgb16 bbrgb24 = omega arith
pmul_case-Case bbrgb24 bbrgb24 = λ c d hc hd ok. (
  omega arith,
  (premultiplied_opaque d.r c.r, premultiplied_opaque d.g c.g, premultiplied_opaque d.b c.b),
  refl,
)
pmul_case-Case bbrgb32 bbrgb24 = omega arith
pmul_case-Case bb8 bbrgb32 = pmul_to_bb32-Composed bb8
pmul_case-Case bb8a bbrgb32 = pmul_to_bb32-Composed bb8a
pmul_case-Case bbrgb16 bbrgb32 = pmul_to_bb32-Composed bbrgb16
pmul_case-Case bbrgb24 bbrgb32 = pmul_to_bb32-Composed bbrgb24
pmul_case-Case bbrgb32 bbrgb32 = pmul_to_bb32-Composed bbrgb32
