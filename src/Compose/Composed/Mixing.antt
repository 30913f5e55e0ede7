-- ===== src/Compose/Composed/Mixing.antt =====
-- The cases of the composing blits, for any two weights of the channels.
use koreader_base.Prelude.{
  ℕ, ◌<◌, ◌≡◌, ◌≢◌, refl, Option, none, some, if◌then◌else◌, ◌==◌, arith, Bool-cases, inl, inr,
}
use koreader_base.Color.{
  Color8, Color8A, ColorRgb16, ColorRgb32, BbType, ColorOf, bb8, bb8a, bbrgb16, bbrgb24, bbrgb32,
}
use koreader_base.Color.Convert.{get_r, get_g, get_b, inverse, over}
use koreader_base.Color.Laws.{over_byte, rgb565_roundtrip}
use koreader_base.Color.Spec.{InRange, Near}
use koreader_base.Rect.Blend.{pack16}
use koreader_base.Rect.Blend.Rounding.{packed_Near}
use koreader_base.Blit.Convert.{luma}
use koreader_base.Compose.Alpha.{by_alpha}
use koreader_base.Compose.Composed.{Composed}

by_alpha_cases :
    {C : Type 0} (P : Option C → Type 0) (alpha : ℕ) (x y : C)
    → (alpha ≡ 0 → P none)
    → (alpha ≡ 255 → P (some x))
    → (alpha ≢ 0 → alpha ≢ 255 → P (some y))
    → P (by_alpha alpha x y)
by_alpha_cases P alpha x y clear full mixed = elim (Bool-cases (alpha == 0)) [
  | inl e ↦ rw e (clear (ground arith))
  | inr e ↦ elim (Bool-cases (alpha == 0xff)) [
    | inl f ↦ rw (e, f) (full (ground arith))
    | inr f ↦ rw (e, f) (mixed (ground arith) (ground arith))
  ]
]

pub luma_small : (s : BbType) (c : ColorOf s) → InRange s c → luma s c < 256
unfolding luma
luma_small bb8 c h = h
luma_small bb8a c h = h.0
luma_small bbrgb16 c h = omega arith
luma_small bbrgb24 c h = omega arith
luma_small bbrgb32 c h = omega arith

full_alpha : (alpha old : ℕ) → alpha ≡ 255 → alpha ≡ (if alpha == 255 then 255 else old)
full_alpha alpha old e = ground arith

kept_alpha : (alpha old : ℕ) → alpha ≢ 255 → old ≡ (if alpha == 255 then 255 else old)
kept_alpha alpha old e = ground arith

module _ (weigh : ℕ → ℕ → ℕ → ℕ) (weight : ℕ → ℕ) (Allowed : ℕ → ℕ → Type 0)
    (opaque : (old new : ℕ) → Near 0 (weigh 255 old new) new)
    (mix : (alpha old new : ℕ)
      → alpha < 256
      → old < 256
      → new < 256
      → Allowed alpha new
      → Near 0 (weigh alpha old new) (over (weight alpha) (inverse alpha) old new)) where
  full : (alpha old new : ℕ) → alpha ≡ 255 → Near 0 (weigh alpha old new) new
  full alpha old new e = rw e (opaque old new)

  mixed : ℕ → ℕ → ℕ → ℕ
  mixed alpha old new = over (weight alpha) (inverse alpha) old new

  -- Grey on the grey types.
  pub grey_to_8 :
      (c : Color8A) (d : Color8)
      → InRange bb8a c
      → InRange bb8 d
      → Allowed c.alpha c.a
      → Composed weigh bb8a bb8 c d (
          by_alpha c.alpha
            (record { a = c.a })
            (record { a = over (weight c.alpha) (inverse c.alpha) d.a c.a }))
  unfolding luma
  grey_to_8 c d hc hd ok =
      by_alpha_cases (Composed weigh bb8a bb8 c d) c.alpha _ _ (λ e. e)
        (λ e. (omega arith, full c.alpha d.a c.a e, refl))
        (λ z o. (z, mix c.alpha d.a c.a hc.1 hd hc.0 ok, refl))

  pub grey_to_8a :
      (c d : Color8A)
      → InRange bb8a c
      → InRange bb8a d
      → Allowed c.alpha c.a
      → Composed weigh bb8a bb8a c d
          (by_alpha c.alpha c (record d { a = over (weight c.alpha) (inverse c.alpha) d.a c.a }))
  unfolding luma
  grey_to_8a c d hc hd ok =
      by_alpha_cases (Composed weigh bb8a bb8a c d) c.alpha _ _ (λ e. e)
        (λ e. (omega arith, full c.alpha d.a c.a e, full_alpha c.alpha d.alpha e))
        (λ z o. (z, mix c.alpha d.a c.a hc.1 hd.0 hc.0 ok, kept_alpha c.alpha d.alpha o))

  -- Colours on BB8.
  pub colors_to_8 :
      (c : ColorRgb32) (d : Color8)
      → InRange bbrgb32 c
      → InRange bb8 d
      → Allowed c.alpha (luma bbrgb32 c)
      → Composed weigh bbrgb32 bb8 c d (
          by_alpha c.alpha
            (record { a = luma bbrgb32 c })
            (record { a = over (weight c.alpha) (inverse c.alpha) d.a (luma bbrgb32 c) }))
  colors_to_8 c d hc hd ok =
      by_alpha_cases (Composed weigh bbrgb32 bb8 c d) c.alpha _ _ (λ e. e)
        (λ e. (omega arith, full c.alpha d.a (luma bbrgb32 c) e, refl))
        (λ z o. (z, mix c.alpha d.a (luma bbrgb32 c) hc.3 hd (luma_small bbrgb32 c hc) ok, refl))

  -- Grey on RGB565 and RGB32, over the grey value of the old pixel.
  pub grey_to_16 :
      (c : Color8A) (d : ColorRgb16)
      → InRange bb8a c
      → InRange bbrgb16 d
      → Allowed c.alpha c.a
      → let y = over (weight c.alpha) (inverse c.alpha) (luma bbrgb16 d) c.a in
        Composed weigh bb8a bbrgb16 c d (by_alpha c.alpha (pack16 c.a c.a c.a) (pack16 y y y))
  grey_to_16 c d hc hd ok =
      by_alpha_cases (Composed weigh bb8a bbrgb16 c d) c.alpha _ _ (λ e. e)
        (λ e.
          let near = full c.alpha (luma bbrgb16 d) c.a e in
          (omega arith, packed_Near _ _ _ c.a c.a c.a hc.0 hc.0 hc.0 near near near, refl))
        (λ z o.
          let near = mix c.alpha (luma bbrgb16 d) c.a hc.1 (luma_small bbrgb16 d hd) hc.0 ok in
          let y = over_byte (weight c.alpha) (inverse c.alpha) (luma bbrgb16 d) c.a in
          (z, packed_Near _ _ _ _ _ _ y y y near near near, refl))

  pub grey_to_32 :
      (c : Color8A) (d : ColorRgb32)
      → InRange bb8a c
      → InRange bbrgb32 d
      → Allowed c.alpha c.a
      → let y = over (weight c.alpha) (inverse c.alpha) (luma bbrgb32 d) c.a in
        Composed weigh bb8a bbrgb32 c d (
          by_alpha c.alpha
            (record d { r = c.a; g = c.a; b = c.a })
            (record d { r = y; g = y; b = y }))
  grey_to_32 c d hc hd ok =
      by_alpha_cases (Composed weigh bb8a bbrgb32 c d) c.alpha _ _ (λ e. e)
        (λ e.
          let near = full c.alpha (luma bbrgb32 d) c.a e in (omega arith, (near, near, near), refl))
        (λ z o.
          let near = mix c.alpha (luma bbrgb32 d) c.a hc.1 (luma_small bbrgb32 d hd) hc.0 ok in
          (z, (near, near, near), refl))

  -- Colours on RGB565 and RGB32.
  module _ (c : ColorRgb32) (hc : InRange bbrgb32 c) (ok_r : Allowed c.alpha c.r)
      (ok_g : Allowed c.alpha c.g) (ok_b : Allowed c.alpha c.b) where
    pub colors_to_16 :
        (d : ColorRgb16)
        → InRange bbrgb16 d
        → let w = weight c.alpha in
          let ainv = inverse c.alpha in
          Composed weigh bbrgb32 bbrgb16 c d (
            by_alpha c.alpha (pack16 c.r c.g c.b) (
              pack16
                (over w ainv (get_r d.v) c.r)
                (over w ainv (get_g d.v) c.g)
                (over w ainv (get_b d.v) c.b)))
    colors_to_16 d hd =
        let old = rgb565_roundtrip d.v hd in
        by_alpha_cases (Composed weigh bbrgb32 bbrgb16 c d) c.alpha _ _ (λ e. e)
          (λ e. (
            omega arith,
            packed_Near _ _ _ c.r c.g c.b hc.0 hc.1 hc.2 (full c.alpha (get_r d.v) c.r e)
                (full c.alpha (get_g d.v) c.g e) (full c.alpha (get_b d.v) c.b e),
            refl,
          ))
          (λ z o. (
            z,
            packed_Near _ _ _ _ _ _ (over_byte _ _ _ _) (over_byte _ _ _ _) (over_byte _ _ _ _)
                (mix c.alpha (get_r d.v) c.r hc.3 old.0 hc.0 ok_r)
                (mix c.alpha (get_g d.v) c.g hc.3 old.1 hc.1 ok_g)
                (mix c.alpha (get_b d.v) c.b hc.3 old.2 hc.2 ok_b),
            refl,
          ))

    pub colors_to_32 :
        (d : ColorRgb32)
        → InRange bbrgb32 d
        → let w = weight c.alpha in
          let ainv = inverse c.alpha in
          Composed weigh bbrgb32 bbrgb32 c d (
            by_alpha c.alpha c (record d {
              r = over w ainv d.r c.r;
              g = over w ainv d.g c.g;
              b = over w ainv d.b c.b;
            }))
    colors_to_32 d hd =
        by_alpha_cases (Composed weigh bbrgb32 bbrgb32 c d) c.alpha _ _ (λ e. e)
          (λ e. (
            omega arith,
            (full c.alpha d.r c.r e, full c.alpha d.g c.g e, full c.alpha d.b c.b e),
            full_alpha c.alpha d.alpha e,
          ))
          (λ z o. (
            z,
            (
              mix c.alpha d.r c.r hc.3 hd.0 hc.0 ok_r,
              mix c.alpha d.g c.g hc.3 hd.1 hc.1 ok_g,
              mix c.alpha d.b c.b hc.3 hd.2 hc.2 ok_b,
            ),
            kept_alpha c.alpha d.alpha o,
          ))
