-- ===== src/Compose/Colorize.antt =====
-- BB_color_blit_from and BB_color_blit_from_RGB32: one colour over the destination, with the grey
-- values of the source as its opacity.
pub mod Laws
pub mod Pixels
use koreader_base.Prelude.{ℕ, ◌+◌, Option, none, some, ◌&&◌, if◌then◌else◌, ltb, u8, u32}
use koreader_base.Color.{Color8A, ColorRgb32, BbType, ColorOf, bb8, bb8a, bbrgb16, bbrgb24, bbrgb32}
use koreader_base.Color.Convert.{rgb_to_a, get_r, get_g, get_b, inverse, over}
use koreader_base.Memory.{Bytes}
use koreader_base.Buffer.{BlitBuffer, bb_type}
use koreader_base.Rect.Blend.{pack16}
use koreader_base.Blit.{Area, blit_pixels}
use koreader_base.Blit.Convert.{luma}
use koreader_base.Outcome.{Outcome, done, unset_read}
use koreader_base.Compose.Alpha.{by_alpha}

-- One pixel, at the opacity that SET_ALPHA_FROM_A reads.
unfoldable pub tint_pixel : (t : BbType) → Color8A → ℕ → ColorOf t → Option (ColorOf t)
unfolding over inverse get_r get_g get_b
tint_pixel bb8 color alpha d =
    by_alpha alpha (record { a = color.a }) (record { a = over alpha (inverse alpha) d.a color.a })
tint_pixel bb8a color alpha d =
    by_alpha alpha (record d { a = color.a })
      (record d { a = over alpha (inverse alpha) d.a color.a })
tint_pixel bbrgb16 color alpha d =
    let ainv = inverse alpha in
    by_alpha alpha (pack16 color.a color.a color.a) (
      pack16 (over alpha ainv (get_r d.v) color.a) (over alpha ainv (get_g d.v) color.a)
        (over alpha ainv (get_b d.v) color.a))
tint_pixel bbrgb24 color alpha d =
    let ainv = inverse alpha in
    by_alpha alpha (record { r = color.a; g = color.a; b = color.a })
      (record {
        r = over alpha ainv d.r color.a;
        g = over alpha ainv d.g color.a;
        b = over alpha ainv d.b color.a;
      })
tint_pixel bbrgb32 color alpha d =
    let ainv = inverse alpha in
    by_alpha alpha (record d { r = color.a; g = color.a; b = color.a })
      (record d {
        r = over alpha ainv d.r color.a;
        g = over alpha ainv d.g color.a;
        b = over alpha ainv d.b color.a;
      })

-- The same for a colour with three channels.
unfoldable pub tint_pixel_rgb32 : (t : BbType) → ColorRgb32 → ℕ → ColorOf t → Option (ColorOf t)
unfolding over inverse get_r get_g get_b rgb_to_a
tint_pixel_rgb32 bb8 color alpha d =
    let source_y8 = u8 (rgb_to_a color.r color.g color.b) in
    by_alpha alpha (record { a = source_y8 })
      (record { a = over alpha (inverse alpha) d.a source_y8 })
tint_pixel_rgb32 bb8a color alpha d =
    let source_y8 = u8 (rgb_to_a color.r color.g color.b) in
    by_alpha alpha (record d { a = source_y8 })
      (record d { a = over alpha (inverse alpha) d.a source_y8 })
tint_pixel_rgb32 bbrgb16 color alpha d =
    let ainv = inverse alpha in
    by_alpha alpha (pack16 color.r color.g color.b) (
      pack16 (over alpha ainv (get_r d.v) color.r) (over alpha ainv (get_g d.v) color.g)
        (over alpha ainv (get_b d.v) color.b))
tint_pixel_rgb32 bbrgb24 color alpha d =
    let ainv = inverse alpha in
    by_alpha alpha (record { r = color.r; g = color.g; b = color.b })
      (record {
        r = over alpha ainv d.r color.r;
        g = over alpha ainv d.g color.g;
        b = over alpha ainv d.b color.b;
      })
tint_pixel_rgb32 bbrgb32 color alpha d =
    let ainv = inverse alpha in
    by_alpha alpha (record d { r = color.r; g = color.g; b = color.b })
      (record d {
        r = over alpha ainv d.r color.r;
        g = over alpha ainv d.g color.g;
        b = over alpha ainv d.b color.b;
      })

-- A source type that SET_ALPHA_FROM_A has no case for leaves `alpha` unset: the first round reads
-- it all the same.
abbrev pub unset_alpha : BlitBuffer → Area → Outcome
unset_alpha dst a =
    if ltb a.dest_y (u32 (a.dest_y + a.h)) && ltb a.dest_x (u32 (a.dest_x + a.w))
    then unset_read
    else done dst.bytes

unfoldable pub color_blit_from : BlitBuffer → BlitBuffer → Area → Color8A → Outcome
unfolding tint_pixel luma blit_pixels
color_blit_from dst src a color = elim (bb_type dst) [
  | none ↦ done dst.bytes
  | some t ↦ elim (bb_type src) [
    | none ↦ unset_alpha dst a
    | some s ↦ done (blit_pixels s t (λ _ _ c d. tint_pixel t color (luma s c) d) src dst a)
  ]
]

unfoldable pub color_blit_from_rgb32 : BlitBuffer → BlitBuffer → Area → ColorRgb32 → Outcome
unfolding tint_pixel_rgb32 luma blit_pixels
color_blit_from_rgb32 dst src a color = elim (bb_type dst) [
  | none ↦ done dst.bytes
  | some t ↦ elim (bb_type src) [
    | none ↦ unset_alpha dst a
    | some s ↦ done (blit_pixels s t (λ _ _ c d. tint_pixel_rgb32 t color (luma s c) d) src dst a)
  ]
]
