-- ===== src/Rect/Hatch/Pixels.antt =====
-- The stripe test of BB_hatch_rect against stripes of the plane, and its pixels against the mean.
use koreader_base.Prelude.{
  ℕ, ◌+◌, ◌*◌, ◌/◌, ◌%◌, ◌^◌, ◌≤◌, ◌<◌, ◌≡◌, refl, ◌↔◌, true, false, ◌==◌, u32, arith, Bool-cases,
  inl, inr,
}
use native.Mathlib.Nat.{mod-add-div', div-eq_of_lt-le}
use koreader_base.Color.{Color8, BbType, ColorOf, bb8, bb8a, bbrgb16, bbrgb24, bbrgb32}
use koreader_base.Color.Spec.{InRange, opacity, Blended, over-Near}
use koreader_base.Rect.Blend.Rounding.{grey, packed_Near, packed_Blended, opaque-Near}
use koreader_base.Rect.Hatch.{hatch_pixel, on_stripe}

-- `n` is in a stripe with an even number, counted from 0.
abbrev pub InEvenStripe : ℕ → ℕ → Type 0
InEvenStripe stripe_width n =
    (k : ℕ) × (k * (stripe_width * 2) ≤ n) × (n < k * (stripe_width * 2) + stripe_width)

module _ (stripe_width : ℕ) (pos : 0 < stripe_width) (n : ℕ) where
  stripe_of : n % (stripe_width * 2) < stripe_width → InEvenStripe stripe_width n
  stripe_of less =
      let split = mod-add-div' n (stripe_width * 2) in
      (n / (stripe_width * 2), omega arith, omega arith)

  of_stripe : InEvenStripe stripe_width n → n % (stripe_width * 2) < stripe_width
  of_stripe (k, lo, hi) =
      let split = mod-add-div' n (stripe_width * 2) in
      let quotient : n / (stripe_width * 2) ≡ k =
        div-eq_of_lt-le (stripe_width * 2) lo (grind arith) in
      let same : n / (stripe_width * 2) * (stripe_width * 2) ≡ k * (stripe_width * 2) =
        rw quotient refl in
      omega arith

  pub on_stripe_iff :
      (p q : ℕ)
      → p + q ≡ n
      → n < 2 ^ 32
      → stripe_width < 2 ^ 31
      → (on_stripe stripe_width p q ≡ true) ↔ InEvenStripe stripe_width n
  on_stripe_iff p q e low small =
      let plain : u32 (p + q) ≡ n = omega arith in
      let period : u32 (stripe_width * 2) ≡ stripe_width * 2 = omega arith in
      rw (plain, period)
        (λ h. stripe_of (ground arith), λ s. let less = of_stripe s in ground arith)

translucent_stripe :
    (t : BbType) (color : Color8) (alpha : ℕ) (d : ColorOf t)
    → (alpha == 0xff) ≡ false
    → color.a < 256
    → alpha < 256
    → InRange t d
    → Blended t alpha color.a
        (grey (record { a = color.a; alpha = alpha }))
        d
        (hatch_pixel t color alpha d)
unfolding hatch_pixel
translucent_stripe bb8 color alpha d e h ha hd = rw e (over-Near alpha d.a color.a ha hd h)
translucent_stripe bb8a color alpha d e h ha hd = rw e (over-Near alpha d.a color.a ha hd.0 h)
translucent_stripe bbrgb16 color alpha d e h ha hd =
    rw e (packed_Blended alpha ha color.a color.a color.a h h h d.v hd)
translucent_stripe bbrgb24 color alpha d e h ha hd = rw e (
  over-Near alpha d.r color.a ha hd.0 h,
  over-Near alpha d.g color.a ha hd.1 h,
  over-Near alpha d.b color.a ha hd.2 h,
)
translucent_stripe bbrgb32 color alpha d e h ha hd = rw e (
  over-Near alpha d.r color.a ha hd.0 h,
  over-Near alpha d.g color.a ha hd.1 h,
  over-Near alpha d.b color.a ha hd.2 h,
  refl,
)

opaque_stripe :
    (t : BbType) (color : Color8) (d : ColorOf t)
    → color.a < 256
    → Blended t 255 color.a
        (grey (record { a = color.a; alpha = 255 }))
        d
        (hatch_pixel t color 255 d)
unfolding hatch_pixel
opaque_stripe bb8 color d h = opaque-Near d.a color.a
opaque_stripe bb8a color d h = opaque-Near d.a color.a
opaque_stripe bbrgb16 color d h =
    packed_Near _ _ _ color.a color.a color.a h h h (opaque-Near _ color.a) (opaque-Near _ color.a)
      (opaque-Near _ color.a)
opaque_stripe bbrgb24 color d h =
    (opaque-Near d.r color.a, opaque-Near d.g color.a, opaque-Near d.b color.a)
opaque_stripe bbrgb32 color d h =
    (opaque-Near d.r color.a, opaque-Near d.g color.a, opaque-Near d.b color.a, refl)

pub hatch_pixel-Blended :
    (t : BbType) (color : Color8) (alpha : ℕ) (d : ColorOf t)
    → color.a < 256
    → alpha < 256
    → InRange t d
    → Blended t alpha color.a
        (grey (record { a = color.a; alpha = alpha }))
        d
        (hatch_pixel t color alpha d)
hatch_pixel-Blended t color alpha d h ha hd = elim (Bool-cases (alpha == 0xff)) [
  | inl e ↦ let full : alpha ≡ 255 = ground arith in rw full (opaque_stripe t color d h)
  | inr e ↦ translucent_stripe t color alpha d e h ha hd
]

pub hatch_pixel-opacity :
    (t : BbType) (color : Color8) (alpha : ℕ) (d : ColorOf t)
    → opacity t (hatch_pixel t color alpha d) ≡ opacity t d
unfolding hatch_pixel
hatch_pixel-opacity bb8 color alpha d = refl
hatch_pixel-opacity bb8a color alpha d = ground arith
hatch_pixel-opacity bbrgb16 color alpha d = refl
hatch_pixel-opacity bbrgb24 color alpha d = refl
hatch_pixel-opacity bbrgb32 color alpha d = ground arith
