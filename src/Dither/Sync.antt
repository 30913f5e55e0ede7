-- ===== src/Dither/Sync.antt =====
-- "Keep in sync w/ BB_alpha_blit_from!", and the same of BB_pmulalpha_blit_from: the dithering
-- composing blits against the plain ones.
use koreader_base.Prelude.{ℕ, ◌≡◌, refl, ap, ◌∙◌, Option, some, arith}
use mathlib.Core.Option.{map, some-injective}
use koreader_base.Color.{Color8, BbType, ColorOf, bb8, bb8a, bbrgb16, bbrgb24, bbrgb32}
use koreader_base.Memory.Formats.{format_of}
use koreader_base.Buffer.{BlitBuffer, bb_type}
use koreader_base.Buffer.Geometry.{IsValid}
use koreader_base.Paint.Laws.{Repaints-congr}
use koreader_base.Blit.{Area, blit_pixels}
use koreader_base.Blit.Laws.{FitsBoth, Blits, blit_pixels-Blits}
use koreader_base.Outcome.{Returns}
use koreader_base.Compose.Alpha.{by_alpha, alpha_to_bb8, alpha_case}
use koreader_base.Compose.Laws.{alpha_blit_from_case}
use koreader_base.Compose.Premultiplied.{pmul_to_bb8, pmul_case}
use koreader_base.Compose.Premultiplied.Laws.{pmulalpha_blit_from_case}
use koreader_base.Dither.Compose.{
  dithered_at, dither_alpha_to_bb8, dither_alpha_blit_from, dither_pmul_to_bb8,
  dither_pmulalpha_blit_from,
}

-- What is written to a BB8 destination is dithered, and what is written to any other is not.
abbrev pub dithered_for : (t : BbType) → ℕ → ℕ → Option (ColorOf t) → Option (ColorOf t)
dithered_for bb8 o_x o_y c = map (λ x. dithered_at o_x o_y x.a) c
dithered_for bb8a o_x o_y c = c
dithered_for bbrgb16 o_x o_y c = c
dithered_for bbrgb24 o_x o_y c = c
dithered_for bbrgb32 o_x o_y c = c

map-by_alpha :
    {C D : Type 0} (g : C → D) (alpha : ℕ) (full mixed : C)
    → by_alpha alpha (g full) (g mixed) ≡ map g (by_alpha alpha full mixed)
map-by_alpha g alpha full mixed = ground arith

alpha-sync :
    (s : BbType) (o_x o_y : ℕ) (c : ColorOf s) (d : Color8)
    → dither_alpha_to_bb8 s o_x o_y c d ≡ dithered_for bb8 o_x o_y (alpha_to_bb8 s c d)
unfolding dither_alpha_to_bb8 alpha_to_bb8
alpha-sync bb8 o_x o_y c d = refl
alpha-sync bb8a o_x o_y c d = map-by_alpha (λ x. dithered_at o_x o_y x.a) c.alpha _ _
alpha-sync bbrgb16 o_x o_y c d = refl
alpha-sync bbrgb24 o_x o_y c d = refl
alpha-sync bbrgb32 o_x o_y c d = map-by_alpha (λ x. dithered_at o_x o_y x.a) c.alpha _ _

pmul-sync :
    (s : BbType) (o_x o_y : ℕ) (c : ColorOf s) (d : Color8)
    → dither_pmul_to_bb8 s o_x o_y c d ≡ dithered_for bb8 o_x o_y (pmul_to_bb8 s c d)
unfolding dither_pmul_to_bb8 pmul_to_bb8
pmul-sync bb8 o_x o_y c d = refl
pmul-sync bb8a o_x o_y c d = map-by_alpha (λ x. dithered_at o_x o_y x.a) c.alpha _ _
pmul-sync bbrgb16 o_x o_y c d = refl
pmul-sync bbrgb24 o_x o_y c d = refl
pmul-sync bbrgb32 o_x o_y c d = map-by_alpha (λ x. dithered_at o_x o_y x.a) c.alpha _ _

module _ (dst src : BlitBuffer) (a : Area) (fits : FitsBoth src dst a) (s : BbType)
    (typed_src : bb_type src ≡ some s) (valid_src : IsValid (format_of s).size src) where
  -- The loops of a dithering blit to BB8, for a pixel function that is in sync.
  synced-Blits :
      (f : ℕ → ℕ → ColorOf s → Color8 → Option Color8) (g : ColorOf s → Color8 → Option Color8)
      → IsValid (format_of bb8).size dst
      → ((o_x o_y : ℕ) (c : ColorOf s) (d : Color8)
          → f o_x o_y c d ≡ dithered_for bb8 o_x o_y (g c d))
      → Blits s bb8
          (λ o_x o_y c d. dithered_for bb8 o_x o_y (g c d))
          src
          dst
          a
          (blit_pixels s bb8 f src dst a)
  synced-Blits f g valid sync =
      Repaints-congr (format_of bb8) dst a.dest_x a.dest_y a.w a.h _ _ _
        (λ i j c lo_x hi_x lo_y hi_y. sync _ _ _ c)
        (blit_pixels-Blits s bb8 src dst valid_src valid a fits f)

  -- For well-formed buffers of two types for which BB_alpha_blit_from has a case, and rectangles on
  -- their screens, BB_dither_alpha_blit_from returns, and the destination rectangle shows what that
  -- case makes of each source pixel, dithered at the source position where the destination is BB8
  -- and as it is otherwise; a source pixel that the case skips leaves the old one, and no other
  -- pixel and nothing behind the last line changes.
  pub dither_alpha_blit_from-Blits :
      (t : BbType)
      → bb_type dst ≡ some t
      → IsValid (format_of t).size dst
      → (f : ColorOf s → ColorOf t → Option (ColorOf t)) → alpha_case s t ≡ some f
      → Returns
          (Blits s t (λ o_x o_y c d. dithered_for t o_x o_y (f c d)) src dst a)
          (dither_alpha_blit_from dst src a)
  unfolding dither_alpha_blit_from alpha_case
  dither_alpha_blit_from-Blits bb8 typed valid f case =
      rw (typed, typed_src, dither_alpha_blit_from)
        (synced-Blits (dither_alpha_to_bb8 s) f valid (λ x y c d.
          alpha-sync s x y c d ∙ ap (λ g. dithered_for bb8 x y (g c d)) (some-injective _ _ case)))
  dither_alpha_blit_from-Blits bb8a typed valid f case =
      rw (typed, dither_alpha_blit_from)
        (alpha_blit_from_case dst src a fits s bb8a typed_src typed valid_src valid f case)
  dither_alpha_blit_from-Blits bbrgb16 typed valid f case =
      rw (typed, dither_alpha_blit_from)
        (alpha_blit_from_case dst src a fits s bbrgb16 typed_src typed valid_src valid f case)
  dither_alpha_blit_from-Blits bbrgb24 typed valid f case =
      rw (typed, dither_alpha_blit_from)
        (alpha_blit_from_case dst src a fits s bbrgb24 typed_src typed valid_src valid f case)
  dither_alpha_blit_from-Blits bbrgb32 typed valid f case =
      rw (typed, dither_alpha_blit_from)
        (alpha_blit_from_case dst src a fits s bbrgb32 typed_src typed valid_src valid f case)

  -- For well-formed buffers of two types for which BB_pmulalpha_blit_from has a case, and
  -- rectangles on their screens, BB_dither_pmulalpha_blit_from returns, and the destination
  -- rectangle shows what that case makes of each source pixel, dithered at the source position
  -- where the destination is BB8 and as it is otherwise; a source pixel that the case skips leaves
  -- the old one, and no other pixel and nothing behind the last line changes.
  pub dither_pmulalpha_blit_from-Blits :
      (t : BbType)
      → bb_type dst ≡ some t
      → IsValid (format_of t).size dst
      → (f : ColorOf s → ColorOf t → Option (ColorOf t)) → pmul_case s t ≡ some f
      → Returns
          (Blits s t (λ o_x o_y c d. dithered_for t o_x o_y (f c d)) src dst a)
          (dither_pmulalpha_blit_from dst src a)
  unfolding dither_pmulalpha_blit_from pmul_case
  dither_pmulalpha_blit_from-Blits bb8 typed valid f case =
      rw (typed, typed_src, dither_pmulalpha_blit_from)
        (synced-Blits (dither_pmul_to_bb8 s) f valid (λ x y c d.
          pmul-sync s x y c d ∙ ap (λ g. dithered_for bb8 x y (g c d)) (some-injective _ _ case)))
  dither_pmulalpha_blit_from-Blits bb8a typed valid f case =
      rw (typed, dither_pmulalpha_blit_from)
        (pmulalpha_blit_from_case dst src a fits s bb8a typed_src typed valid_src valid f case)
  dither_pmulalpha_blit_from-Blits bbrgb16 typed valid f case =
      rw (typed, dither_pmulalpha_blit_from)
        (pmulalpha_blit_from_case dst src a fits s bbrgb16 typed_src typed valid_src valid f case)
  dither_pmulalpha_blit_from-Blits bbrgb24 typed valid f case =
      rw (typed, dither_pmulalpha_blit_from)
        (pmulalpha_blit_from_case dst src a fits s bbrgb24 typed_src typed valid_src valid f case)
  dither_pmulalpha_blit_from-Blits bbrgb32 typed valid f case =
      rw (typed, dither_pmulalpha_blit_from)
        (pmulalpha_blit_from_case dst src a fits s bbrgb32 typed_src typed valid_src valid f case)
