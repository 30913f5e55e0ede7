-- ===== src/Compose/Alpha.antt =====
-- BB_alpha_blit_from: the source over the destination, at the opacity of each source pixel. A
-- source pixel of opacity 0 leaves the destination alone.
use koreader_base.Prelude.{ℕ, Option, none, some, if◌then◌else◌, ◌==◌, u8}
use koreader_base.Color.{
  Color8, Color8A, ColorRgb16, ColorRgb32, BbType, ColorOf, bb8, bb8a, bbrgb16, bbrgb24, bbrgb32,
}
use koreader_base.Color.Convert.{rgb_to_a, rgb16_to_a, get_r, get_g, get_b, inverse, over}
use koreader_base.Buffer.{BlitBuffer, bb_type}
use koreader_base.Rect.Blend.{pack16}
use koreader_base.Blit.{Area, blit_pixels}
use koreader_base.Outcome.{Outcome, done, exited}

-- The three-way test on the source's alpha.
abbrev pub by_alpha : {C : Type 0} → ℕ → C → C → Option C
by_alpha alpha opaque mixed =
    if alpha == 0 then none else if alpha == 0xff then some opaque else some mixed

-- The destination BB8.
unfoldable pub alpha_to_bb8 : (s : BbType) → ColorOf s → Color8 → Option Color8
unfolding over inverse rgb_to_a rgb16_to_a
alpha_to_bb8 bb8 c d = some c
alpha_to_bb8 bb8a c d =
    by_alpha c.alpha (record { a = c.a }) (record { a = over c.alpha (inverse c.alpha) d.a c.a })
alpha_to_bb8 bbrgb16 c d = some (record { a = u8 (rgb16_to_a c.v) })
alpha_to_bb8 bbrgb24 c d = some (record { a = u8 (rgb_to_a c.r c.g c.b) })
alpha_to_bb8 bbrgb32 c d =
    let srca = u8 (rgb_to_a c.r c.g c.b) in
    by_alpha c.alpha (record { a = srca }) (record { a = over c.alpha (inverse c.alpha) d.a srca })

-- The destination BB8A, from a BB8A source.
unfoldable pub alpha_to_bb8a : Color8A → Color8A → Option Color8A
unfolding over inverse
alpha_to_bb8a c d = by_alpha c.alpha c (record d { a = over c.alpha (inverse c.alpha) d.a c.a })

-- The destination BBRGB16. A translucent BB8A pixel is mixed with the luminance of the old one.
unfoldable pub alpha_to_bb16 : (s : BbType) → ColorOf s → ColorRgb16 → Option ColorRgb16
unfolding over inverse rgb16_to_a get_r get_g get_b
alpha_to_bb16 bb8 c d = some (pack16 c.a c.a c.a)
alpha_to_bb16 bb8a c d =
    let dsta = u8 (rgb16_to_a d.v) in
    let bdsta = over c.alpha (inverse c.alpha) dsta c.a in
    by_alpha c.alpha (pack16 c.a c.a c.a) (pack16 bdsta bdsta bdsta)
alpha_to_bb16 bbrgb16 c d = some c
alpha_to_bb16 bbrgb24 c d = some (pack16 c.r c.g c.b)
alpha_to_bb16 bbrgb32 c d =
    let ainv = inverse c.alpha in
    by_alpha c.alpha (pack16 c.r c.g c.b) (
      pack16 (over c.alpha ainv (get_r d.v) c.r) (over c.alpha ainv (get_g d.v) c.g)
        (over c.alpha ainv (get_b d.v) c.b))

-- The destination BBRGB32. Its alpha changes only when an opaque RGB32 pixel is copied.
unfoldable pub alpha_to_bb32 : (s : BbType) → ColorOf s → ColorRgb32 → Option ColorRgb32
unfolding over inverse rgb_to_a get_r get_g get_b
alpha_to_bb32 bb8 c d = some (record d { r = c.a; g = c.a; b = c.a })
alpha_to_bb32 bb8a c d =
    let dsta = u8 (rgb_to_a d.r d.g d.b) in
    let bdsta = over c.alpha (inverse c.alpha) dsta c.a in
    by_alpha c.alpha (record d { r = c.a; g = c.a; b = c.a })
      (record d { r = bdsta; g = bdsta; b = bdsta })
alpha_to_bb32 bbrgb16 c d =
    some (record d { r = u8 (get_r c.v); g = u8 (get_g c.v); b = u8 (get_b c.v) })
alpha_to_bb32 bbrgb24 c d = some (record d { r = c.r; g = c.g; b = c.b })
alpha_to_bb32 bbrgb32 c d =
    let ainv = inverse c.alpha in
    by_alpha c.alpha c (record d {
      r = over c.alpha ainv d.r c.r;
      g = over c.alpha ainv d.g c.g;
      b = over c.alpha ainv d.b c.b;
    })

-- The nested `switch`: `none` is a pair of types that ends the program.
unfoldable pub alpha_case : (s t : BbType) → Option (ColorOf s → ColorOf t → Option (ColorOf t))
unfolding alpha_to_bb8 alpha_to_bb8a alpha_to_bb16 alpha_to_bb32
alpha_case s bb8 = some (alpha_to_bb8 s)
alpha_case bb8a bb8a = some alpha_to_bb8a
alpha_case s bb8a = none
alpha_case s bbrgb16 = some (alpha_to_bb16 s)
alpha_case bbrgb24 bbrgb24 = some (λ c d. some c)
alpha_case s bbrgb24 = none
alpha_case s bbrgb32 = some (alpha_to_bb32 s)

unfoldable pub alpha_blit_from : BlitBuffer → BlitBuffer → Area → Outcome
unfolding alpha_case blit_pixels
alpha_blit_from dst src a = elim (bb_type dst) [
  | none ↦ exited 1
  | some t ↦ elim (bb_type src) [
    | none ↦ exited 1
    | some s ↦ elim (alpha_case s t) [
      | none ↦ exited 1
      | some f ↦ done (blit_pixels s t (λ _ _. f) src dst a)
    ]
  ]
]
