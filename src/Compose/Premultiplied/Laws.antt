-- ===== src/Compose/Premultiplied/Laws.antt =====
-- BB_pmulalpha_blit_from on whole rectangles, and next to BB_alpha_blit_from.
use mathlib.Core.Path.{subst}
use koreader_base.Prelude.{
  ℕ, ◌+◌, ◌*◌, ◌≤◌, ◌<◌, ◌≡◌, ◌⊎◌, inl, inr, refl, Option, some, u8, ◌==◌, arith, Bool-cases,
}
use koreader_base.Color.{
  Color8, Color8A, ColorRgb16, ColorRgb32, BbType, ColorOf, bb8, bb8a, bbrgb16, bbrgb24, bbrgb32,
}
use koreader_base.Color.Convert.{color32_to_pmul, div_255, inverse, over}
use koreader_base.Color.Laws.{
  Nearest, div_255-Nearest, over-Nearest, premultiplied-Nearest, product_le,
}
use koreader_base.Compose.Composed.{Composed, IsPremultiplied, premultiplied_mean}
use koreader_base.Compose.Composed.Cases.{Case}
use koreader_base.Compose.Composed.OfPmul.{pmul_case-Case}
use koreader_base.Color.Spec.{InRange}
use koreader_base.Paint.{repainted}
use koreader_base.Memory.Formats.{format_of}
use koreader_base.Buffer.{BlitBuffer, bb_type}
use koreader_base.Buffer.Geometry.{IsValid}
use koreader_base.Blit.{Area}
use koreader_base.Blit.Laws.{FitsBoth, Blits, blit_pixels-Blits}
use koreader_base.Outcome.{Returns}
use koreader_base.Color.Spec.{opacity}
use koreader_base.Compose.Alpha.{
  by_alpha, alpha_to_bb8, alpha_to_bb8a, alpha_to_bb16, alpha_to_bb32,
}
use koreader_base.Compose.Premultiplied.{
  pmul_to_bb8, pmul_to_bb8a, pmul_to_bb16, pmul_to_bb32, pmul_case, pmulalpha_blit_from,
}

-- The case, pixel by pixel.
pub pmulalpha_blit_from_case :
    (dst src : BlitBuffer) (a : Area)
    → FitsBoth src dst a
    → (s t : BbType) → bb_type src ≡ some s
    → bb_type dst ≡ some t
    → IsValid (format_of s).size src
    → IsValid (format_of t).size dst
    → (f : ColorOf s → ColorOf t → Option (ColorOf t)) → pmul_case s t ≡ some f
    → Returns (Blits s t (λ _ _. f) src dst a) (pmulalpha_blit_from dst src a)
unfolding pmulalpha_blit_from
pmulalpha_blit_from_case dst src a fits s t typed_src typed valid_src valid f case =
    rw (typed, typed_src, case, pmulalpha_blit_from)
      (blit_pixels-Blits s t src dst valid_src valid a fits (λ _ _. f))

-- For well-formed buffers of two types that have a case, and rectangles on their screens,
-- BB_pmulalpha_blit_from returns, and the destination rectangle shows what the case makes of each
-- source pixel; no other pixel and nothing behind the last line changes. For pixels in range, and a
-- source pixel with no channel above its alpha, the case leaves the old pixel alone exactly when the
-- source pixel has alpha 0. Otherwise each channel is the byte nearest to the source channel plus the
-- old one at the weight that the source's alpha leaves (their grey values on the grey types), RGB565
-- to within the loss of its fields; on pixels of colours a BB8A source is mixed with the old grey
-- value. The alpha stays, but for an opaque pixel that is copied from the same type with its alpha of
-- 255.
pub pmulalpha_blit_from-Blits :
    (dst src : BlitBuffer) (a : Area)
    → FitsBoth src dst a
    → (s t : BbType) → bb_type src ≡ some s
    → bb_type dst ≡ some t
    → IsValid (format_of s).size src
    → IsValid (format_of t).size dst
    → (f : ColorOf s → ColorOf t → Option (ColorOf t)) → pmul_case s t ≡ some f
    → (c : ColorOf s) (d : ColorOf t) → InRange s c
    → InRange t d
    → IsPremultiplied s c
    → Returns (Blits s t (λ _ _. f) src dst a) (pmulalpha_blit_from dst src a)
      × Composed premultiplied_mean s t c d (f c d)
pmulalpha_blit_from-Blits dst src a fits s t typed_src typed valid_src valid f case c d hc hd ok = (
  pmulalpha_blit_from_case dst src a fits s t typed_src typed valid_src valid f case,
  subst (Case premultiplied_mean IsPremultiplied s t) case (pmul_case-Case s t) c d hc hd ok,
)

by_alpha_ends :
    {C : Type 0} (alpha : ℕ) (full x y : C)
    → (alpha ≡ 0) ⊎ (alpha ≡ 255)
    → by_alpha alpha full x ≡ by_alpha alpha full y
by_alpha_ends alpha full x y ends = ground arith

-- Where a source pixel is opaque or transparent, BB_pmulalpha_blit_from makes of a destination
-- pixel what BB_alpha_blit_from makes of it, for every destination type that takes more than one
-- source type, and so for a BB8A source on a BB8A destination.
pub pmul-eq-alpha :
    (s : BbType) (c : ColorOf s) (c8a : Color8A) (d8 : Color8) (d8a : Color8A) (d16 : ColorRgb16)
    (d32 : ColorRgb32)
    → (opacity s c ≡ 0) ⊎ (opacity s c ≡ 255)
    → (c8a.alpha ≡ 0) ⊎ (c8a.alpha ≡ 255)
    → (pmul_to_bb8 s c d8 ≡ alpha_to_bb8 s c d8)
      × (pmul_to_bb16 s c d16 ≡ alpha_to_bb16 s c d16)
      × (pmul_to_bb32 s c d32 ≡ alpha_to_bb32 s c d32)
      × (pmul_to_bb8a c8a d8a ≡ alpha_to_bb8a c8a d8a)
unfolding pmul_to_bb8 pmul_to_bb8a pmul_to_bb16 pmul_to_bb32 alpha_to_bb8 alpha_to_bb8a
    alpha_to_bb16 alpha_to_bb32
pmul-eq-alpha bb8 c c8a d8 d8a d16 d32 h k = (refl, refl, refl, by_alpha_ends c8a.alpha _ _ _ k)
pmul-eq-alpha bb8a c c8a d8 d8a d16 d32 h k = (
  by_alpha_ends c.alpha _ _ _ h,
  by_alpha_ends c.alpha _ _ _ h,
  by_alpha_ends c.alpha _ _ _ h,
  by_alpha_ends c8a.alpha _ _ _ k,
)
pmul-eq-alpha bbrgb16 c c8a d8 d8a d16 d32 h k = (refl, refl, refl, by_alpha_ends c8a.alpha _ _ _ k)
pmul-eq-alpha bbrgb24 c c8a d8 d8a d16 d32 h k = (refl, refl, refl, by_alpha_ends c8a.alpha _ _ _ k)
pmul-eq-alpha bbrgb32 c c8a d8 d8a d16 d32 h k = (
  by_alpha_ends c.alpha _ _ _ h,
  by_alpha_ends c.alpha _ _ _ h,
  by_alpha_ends c.alpha _ _ _ h,
  by_alpha_ends c8a.alpha _ _ _ k,
)

-- A premultiplied channel is at most the alpha.
pmul_channel :
    (alpha c : ℕ)
    → alpha < 256
    → c < 256
    → Nearest 255 (c * alpha) (div_255 (c * alpha)) × (div_255 (c * alpha) ≤ alpha)
pmul_channel alpha c ha hc =
    let near = div_255-Nearest (c * alpha) (omega (arith, product_le c alpha hc ha)) in
    let top : c * alpha ≤ 255 * alpha = grind arith in (near, omega arith)

abbrev pub Close : ℕ → ℕ → Type 0
Close a b = (a ≤ b + 1) × (b ≤ a + 1)

-- A channel that is premultiplied and mixed, and one that is mixed as it is.
premultiplied-Close :
    (alpha old new : ℕ)
    → alpha < 256
    → old < 256
    → new < 256
    → Close
        (over 255 (inverse alpha) old (u8 (div_255 (new * alpha))))
        (over alpha (inverse alpha) old new)
premultiplied-Close alpha old new ha ho hn =
    let p = pmul_channel alpha new ha hn in
    let byte : u8 (div_255 (new * alpha)) ≡ div_255 (new * alpha) = omega (arith, p) in
    rw byte (
      omega (
        arith,
        premultiplied-Nearest alpha old (div_255 (new * alpha)) ha ho p.1,
        over-Nearest alpha old new ha ho hn,
      ))

-- A channel premultiplied by a full alpha.
premultiplied_full : (alpha c : ℕ) → alpha ≡ 255 → c < 256 → Close (u8 (div_255 (c * alpha))) c
premultiplied_full alpha c full hc = rw full (omega (arith, pmul_channel 255 c (omega arith) hc))

-- For an RGB32 source and destination in range, premultiplying the source by ColorRGB32_To_PMUL
-- and composing it by BB_pmulalpha_blit_from gives a pixel whose channels are each within 1 of
-- those that BB_alpha_blit_from gives for the plain source, and the same alpha, on all three
-- branches of the opacity.
pub pmul-Close-alpha :
    (c d : ColorRgb32)
    → InRange bbrgb32 c
    → InRange bbrgb32 d
    → let x = repainted (pmul_to_bb32 bbrgb32 (color32_to_pmul c) d) d in
      let y = repainted (alpha_to_bb32 bbrgb32 c d) d in
      Close x.r y.r × Close x.g y.g × Close x.b y.b × (x.alpha ≡ y.alpha)
unfolding pmul_to_bb32 alpha_to_bb32 color32_to_pmul
pmul-Close-alpha c d hc hd = elim (Bool-cases (c.alpha == 0)) [
  | inl e ↦ rw e (omega arith, omega arith, omega arith, refl)
  | inr e ↦ elim (Bool-cases (c.alpha == 0xff)) [
    | inl full ↦
        let all : c.alpha ≡ 255 = ground arith in
        rw (e, full)
          (
            premultiplied_full c.alpha c.r all hc.0,
            premultiplied_full c.alpha c.g all hc.1,
            premultiplied_full c.alpha c.b all hc.2,
            refl,
          )
    | inr full ↦
        rw (e, full)
          (
            premultiplied-Close c.alpha d.r c.r hc.3 hd.0 hc.0,
            premultiplied-Close c.alpha d.g c.g hc.3 hd.1 hc.1,
            premultiplied-Close c.alpha d.b c.b hc.3 hd.2 hc.2,
            refl,
          )
  ]
]
