-- ===== src/Compose/Laws.antt =====
-- BB_add_blit_from, BB_invert_blit_from and BB_alpha_blit_from on whole rectangles.
use mathlib.Core.Path.{subst}
use koreader_base.Prelude.{
  ℕ, ◌≡◌, refl, Option, none, some, ◌==◌, arith, Bool-cases, inl, inr, true,
}
use koreader_base.Color.{BbType, ColorOf}
use koreader_base.Color.Spec.{InRange, mean}
use koreader_base.Compose.Composed.{Composed}
use koreader_base.Compose.Composed.Cases.{Case}
use koreader_base.Compose.Composed.OfAlpha.{alpha_case-Case}
use koreader_base.Compose.Pixels.{negated, negate_pixel-eq-negated}
use koreader_base.Memory.Formats.{format_of}
use koreader_base.Buffer.{BlitBuffer, type_bits, bb_type}
use koreader_base.Buffer.Geometry.{IsValid}
use koreader_base.Blit.{Area}
use koreader_base.Blit.Convert.{convert}
use koreader_base.Blit.Laws.{FitsBoth, Blits, blit_pixels-Blits}
use koreader_base.Blit.Dispatch.{blit_to-Blits}
use koreader_base.Outcome.{Returns}
use koreader_base.Compose.Add.{add_pixel, add_blit_from}
use koreader_base.Compose.Negate.{negate_pixel, invert_blit_from}
use koreader_base.Compose.Alpha.{by_alpha, alpha_case, alpha_blit_from}

module _ (dst src : BlitBuffer) (a : Area) (fits : FitsBoth src dst a) where
  -- A call that leaves every byte shows the old pixels.
  untouched-Blits : (s t : BbType) → Blits s t (λ _ _ c d. none) src dst a dst.bytes
  untouched-Blits s t = record { pixels = λ i j on. ground arith; beyond = λ k h. refl }

  module _ (t : BbType) (typed_src : bb_type src ≡ some t) (typed : bb_type dst ≡ some t)
      (same : type_bits dst ≡ type_bits src) (valid_src : IsValid (format_of t).size src)
      (valid : IsValid (format_of t).size dst) where
    equal_types : (type_bits dst == type_bits src) ≡ true
    equal_types = ground (arith, same)

    -- For well-formed buffers of the same type and rectangles on their screens, BB_add_blit_from
    -- returns, and shows in the destination rectangle: for alpha 0 the old pixels, for 0xFF the
    -- converted source, and otherwise the mix of the source pixel and the old one; no other pixel
    -- and nothing behind the last line changes.
    pub add_blit_from-Blits :
        (alpha : ℕ)
        → Returns
            (Blits t t
              (λ _ _ c d. by_alpha alpha (convert t t c d) (add_pixel t alpha c d))
              src
              dst
              a)
            (add_blit_from dst src a alpha)
    unfolding add_blit_from
    add_blit_from-Blits alpha = elim (Bool-cases (alpha == 0)) [
      | inl e ↦ rw (e, add_blit_from) (untouched-Blits t t)
      | inr e ↦ elim (Bool-cases (alpha == 0xff)) [
        | inl full ↦
            rw (e, full, add_blit_from)
              (blit_to-Blits src dst a fits t t typed_src typed valid_src valid)
        | inr full ↦
            rw (e, full, equal_types, typed, add_blit_from)
              (blit_pixels-Blits t t src dst valid_src valid a fits
                (λ _ _ c d. some (add_pixel t alpha c d)))
      ]
    ]

    -- For well-formed buffers of the same type and rectangles on their screens, BB_invert_blit_from
    -- returns, and shows in the destination rectangle the inverted source pixels; no other pixel and
    -- nothing behind the last line changes. What it makes of a source pixel whose fields are in range
    -- is the pixel with each colour channel (or the packed word of RGB565) subtracted from the
    -- maximum, with the alpha of the source for RGB32 and that of the old pixel for BB8A.
    pub invert_blit_from-Blits :
        (c d : ColorOf t)
        → InRange t c
        → Returns
            (Blits t t (λ _ _ c d. some (negate_pixel t c d)) src dst a)
            (invert_blit_from dst src a)
          × (negate_pixel t c d ≡ negated t c d)
    unfolding invert_blit_from
    invert_blit_from-Blits c d range = (
      rw (equal_types, typed, invert_blit_from)
          (blit_pixels-Blits t t src dst valid_src valid a fits
            (λ _ _ c d. some (negate_pixel t c d))),
      negate_pixel-eq-negated t c d range,
    )

  -- The case, pixel by pixel.
  pub alpha_blit_from_case :
      (s t : BbType)
      → bb_type src ≡ some s
      → bb_type dst ≡ some t
      → IsValid (format_of s).size src
      → IsValid (format_of t).size dst
      → (f : ColorOf s → ColorOf t → Option (ColorOf t)) → alpha_case s t ≡ some f
      → Returns (Blits s t (λ _ _. f) src dst a) (alpha_blit_from dst src a)
  unfolding alpha_blit_from
  alpha_blit_from_case s t typed_src typed valid_src valid f case =
      rw (typed, typed_src, case, alpha_blit_from)
        (blit_pixels-Blits s t src dst valid_src valid a fits (λ _ _. f))

  -- For well-formed buffers of two types that have a case, and rectangles on their screens,
  -- BB_alpha_blit_from returns, and the destination rectangle shows what the case makes of each
  -- source pixel; no other pixel and nothing behind the last line changes. For pixels in range, the
  -- case leaves the old pixel alone exactly when the source pixel has alpha 0. Otherwise each channel
  -- is the byte nearest to the mean of the old and the source channel (their grey values on the grey
  -- types) at the source's alpha, RGB565 to within the loss of its fields; on pixels of colours a
  -- BB8A source is mixed with the old grey value. The alpha stays, but for an opaque pixel that is
  -- copied from the same type with its alpha of 255.
  pub alpha_blit_from-Blits :
      (s t : BbType)
      → bb_type src ≡ some s
      → bb_type dst ≡ some t
      → IsValid (format_of s).size src
      → IsValid (format_of t).size dst
      → (f : ColorOf s → ColorOf t → Option (ColorOf t)) → alpha_case s t ≡ some f
      → (c : ColorOf s) (d : ColorOf t) → InRange s c
      → InRange t d
      → Returns (Blits s t (λ _ _. f) src dst a) (alpha_blit_from dst src a)
        × Composed mean s t c d (f c d)
  alpha_blit_from-Blits s t typed_src typed valid_src valid f case c d hc hd = (
    alpha_blit_from_case s t typed_src typed valid_src valid f case,
    subst (Case mean InRange s t) case (alpha_case-Case s t) c d hc hd hc,
  )
