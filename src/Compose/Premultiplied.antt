-- ===== src/Compose/Premultiplied.antt =====
-- BB_pmulalpha_blit_from: the source, its colours multiplied by their alpha already, over the
-- destination. A source pixel of opacity 0 leaves the destination alone.
pub mod Laws
use koreader_base.Prelude.{Option, none, some, u8}
use koreader_base.Color.{
  Color8, Color8A, ColorRgb16, ColorRgb32, BbType, ColorOf, bb8, bb8a, bbrgb16, bbrgb24, bbrgb32,
}
use koreader_base.Color.Convert.{rgb_to_a, rgb16_to_a, get_r, get_g, get_b, inverse, over}
use koreader_base.Buffer.{BlitBuffer, bb_type}
use koreader_base.Rect.Blend.{pack16}
use koreader_base.Blit.{Area, blit_pixels}
use koreader_base.Outcome.{Outcome, done, exited}
use koreader_base.Compose.Alpha.{by_alpha}

-- The destination BB8. The source channel has the weight 0xFF.
unfoldable pub pmul_to_bb8 : (s : BbType) → ColorOf s → Color8 → Option Color8
unfolding over inverse rgb_to_a rgb16_to_a
pmul_to_bb8 bb8 c d = some c
pmul_to_bb8 bb8a c d =
    by_alpha c.alpha (record { a = c.a }) (record { a = over 0xff (inverse c.alpha) d.a c.a })
pmul_to_bb8 bbrgb16 c d = some (record { a = u8 (rgb16_to_a c.v) })
pmul_to_bb8 bbrgb24 c d = some (record { a = u8 (rgb_to_a c.r c.g c.b) })
pmul_to_bb8 bbrgb32 c d =
    let srca = u8 (rgb_to_a c.r c.g c.b) in
    by_alpha c.alpha (record { a = srca }) (record { a = over 0xff (inverse c.alpha) d.a srca })

-- The destination BB8A, from a BB8A source.
unfoldable pub pmul_to_bb8a : Color8A → Color8A → Option Color8A
unfolding over inverse
pmul_to_bb8a c d = by_alpha c.alpha c (record d { a = over 0xff (inverse c.alpha) d.a c.a })

-- The destination BBRGB16.
unfoldable pub pmul_to_bb16 : (s : BbType) → ColorOf s → ColorRgb16 → Option ColorRgb16
unfolding over inverse rgb16_to_a get_r get_g get_b
pmul_to_bb16 bb8 c d = some (pack16 c.a c.a c.a)
pmul_to_bb16 bb8a c d =
    let dsta = u8 (rgb16_to_a d.v) in
    let bdsta = over 0xff (inverse c.alpha) dsta c.a in
    by_alpha c.alpha (pack16 c.a c.a c.a) (pack16 bdsta bdsta bdsta)
pmul_to_bb16 bbrgb16 c d = some c
pmul_to_bb16 bbrgb24 c d = some (pack16 c.r c.g c.b)
pmul_to_bb16 bbrgb32 c d =
    let ainv = inverse c.alpha in
    by_alpha c.alpha (pack16 c.r c.g c.b) (
      pack16 (over 0xff ainv (get_r d.v) c.r) (over 0xff ainv (get_g d.v) c.g)
        (over 0xff ainv (get_b d.v) c.b))

-- The destination BBRGB32. Its alpha changes only when an opaque RGB32 pixel is copied.
unfoldable pub pmul_to_bb32 : (s : BbType) → ColorOf s → ColorRgb32 → Option ColorRgb32
unfolding over inverse rgb_to_a get_r get_g get_b
pmul_to_bb32 bb8 c d = some (record d { r = c.a; g = c.a; b = c.a })
pmul_to_bb32 bb8a c d =
    let dsta = u8 (rgb_to_a d.r d.g d.b) in
    let bdsta = over 0xff (inverse c.alpha) dsta c.a in
    by_alpha c.alpha (record d { r = c.a; g = c.a; b = c.a })
      (record d { r = bdsta; g = bdsta; b = bdsta })
pmul_to_bb32 bbrgb16 c d =
    some (record d { r = u8 (get_r c.v); g = u8 (get_g c.v); b = u8 (get_b c.v) })
pmul_to_bb32 bbrgb24 c d = some (record d { r = c.r; g = c.g; b = c.b })
pmul_to_bb32 bbrgb32 c d =
    let ainv = inverse c.alpha in
    by_alpha c.alpha c (record d {
      r = over 0xff ainv d.r c.r;
      g = over 0xff ainv d.g c.g;
      b = over 0xff ainv d.b c.b;
    })

-- The nested `switch`: `none` is a pair of types that ends the program.
unfoldable pub pmul_case : (s t : BbType) → Option (ColorOf s → ColorOf t → Option (ColorOf t))
unfolding pmul_to_bb8 pmul_to_bb8a pmul_to_bb16 pmul_to_bb32
pmul_case s bb8 = some (pmul_to_bb8 s)
pmul_case bb8a bb8a = some pmul_to_bb8a
pmul_case s bb8a = none
pmul_case s bbrgb16 = some (pmul_to_bb16 s)
pmul_case bbrgb24 bbrgb24 = some (λ c d. some c)
pmul_case s bbrgb24 = none
pmul_case s bbrgb32 = some (pmul_to_bb32 s)

unfoldable pub pmulalpha_blit_from : BlitBuffer → BlitBuffer → Area → Outcome
unfolding pmul_case blit_pixels
pmulalpha_blit_from dst src a = elim (bb_type dst) [
  | none ↦ exited 1
  | some t ↦ elim (bb_type src) [
    | none ↦ exited 1
    | some s ↦ elim (pmul_case s t) [
      | none ↦ exited 1
      | some f ↦ done (blit_pixels s t (λ _ _. f) src dst a)
    ]
  ]
]
