-- ===== src/Compose/Pixels.antt =====
-- What the composing blits make of one pixel.
use koreader_base.Prelude.{ℕ, ◌-◌, ◌<◌, ◌≡◌, refl, some, u16, arith}
use koreader_base.Prelude.Bits.{bit_and_f8, bit_and_fc, bit_xor_ff}
use koreader_base.Color.{
  Color8, ColorRgb16, ColorRgb24, ColorRgb32, BbType, ColorOf, bb8, bb8a, bbrgb16, bbrgb24, bbrgb32,
}
use koreader_base.Color.Convert.{get_r, get_g, get_b, rgb_to_rgb16}
use koreader_base.Color.Laws.{rgb565_roundtrip}
use koreader_base.Color.Spec.{InRange, opacity, Blended, over-Near}
use koreader_base.Paint.{repainted}
use koreader_base.Rect.Blend.Rounding.{packed_Blended, channels}
use koreader_base.Blit.Convert.{luma, grey_to_16, to_bb8, to_bb16, to_bb32}
use koreader_base.Rect.Invert.{invert_pixel}
use koreader_base.Rect.Invert.Laws.{negative, invert_pixel-eq-negative}
use koreader_base.Compose.Add.{add_pixel}
use koreader_base.Compose.Negate.{negate_pixel}
use koreader_base.Compose.Alpha.{by_alpha, alpha_to_bb8, alpha_to_bb16, alpha_to_bb32}

-- The three channels that a pixel shows.
abbrev pub channels_of : (s : BbType) → ColorOf s → ColorRgb24
channels_of bb8 c = record { r = c.a; g = c.a; b = c.a }
channels_of bb8a c = record { r = c.a; g = c.a; b = c.a }
channels_of bbrgb16 c = record { r = get_r c.v; g = get_g c.v; b = get_b c.v }
channels_of bbrgb24 c = c
channels_of bbrgb32 c = channels c

-- For pixels and an alpha in range, BB_add_blit_from makes each channel of a pixel the byte
-- nearest to the exact mean of the old and the source channel, RGB565 to within the loss of its
-- fields, and keeps the alpha of an RGB32 pixel.
pub add_pixel-Blended :
    (t : BbType) (alpha : ℕ) (c d : ColorOf t)
    → alpha < 256
    → InRange t c
    → InRange t d
    → Blended t alpha (luma t c) (channels_of t c) d (add_pixel t alpha c d)
unfolding add_pixel luma
add_pixel-Blended bb8 alpha c d ha hc hd = over-Near alpha d.a c.a ha hd hc
add_pixel-Blended bb8a alpha c d ha hc hd = over-Near alpha d.a c.a ha hd.0 hc.0
add_pixel-Blended bbrgb16 alpha c d ha hc hd =
    let new = rgb565_roundtrip c.v hc in
    packed_Blended alpha ha (get_r c.v) (get_g c.v) (get_b c.v) new.0 new.1 new.2 d.v hd
add_pixel-Blended bbrgb24 alpha c d ha hc hd = (
  over-Near alpha d.r c.r ha hd.0 hc.0,
  over-Near alpha d.g c.g ha hd.1 hc.1,
  over-Near alpha d.b c.b ha hd.2 hc.2,
)
add_pixel-Blended bbrgb32 alpha c d ha hc hd = (
  over-Near alpha d.r c.r ha hd.0 hc.0,
  over-Near alpha d.g c.g ha hd.1 hc.1,
  over-Near alpha d.b c.b ha hd.2 hc.2,
  refl,
)

by_alpha_full : {C : Type 0} (alpha : ℕ) (x y : C) → alpha ≡ 255 → by_alpha alpha x y ≡ some x
by_alpha_full alpha x y e = ground arith

-- Two ways to pack a grey byte.
grey_packed : (a : ℕ) → a < 256 → u16 (rgb_to_rgb16 a a a) ≡ u16 (grey_to_16 a)
unfolding rgb_to_rgb16 grey_to_16
grey_packed a h = omega (arith, bit_and_f8 a h, bit_and_fc a h)

-- Where the source pixel is opaque and in range, BB_alpha_blit_from shows what BB_blit_to shows:
-- the same pixel on BB8 and RGB565 destinations, and the same colour channels on RGB32.
pub alpha_opaque :
    (s : BbType) (c : ColorOf s) (d8 : Color8) (d16 : ColorRgb16) (d32 : ColorRgb32)
    → InRange s c
    → opacity s c ≡ 255
    → (alpha_to_bb8 s c d8 ≡ some (to_bb8 s c d8))
      × (alpha_to_bb16 s c d16 ≡ some (to_bb16 s c d16))
      × (channels (repainted (alpha_to_bb32 s c d32) d32) ≡ channels (to_bb32 s c d32))
unfolding alpha_to_bb8 alpha_to_bb16 alpha_to_bb32 to_bb8 to_bb16 to_bb32 luma
alpha_opaque bb8 c d8 d16 d32 h e = (refl, rw (grey_packed c.a h) refl, refl)
alpha_opaque bb8a c d8 d16 d32 h e = (
  by_alpha_full c.alpha _ _ e,
  rw (by_alpha_full c.alpha _ _ e, grey_packed c.a h.0) refl,
  rw (e) refl,
)
alpha_opaque bbrgb16 c d8 d16 d32 h e = (refl, refl, refl)
alpha_opaque bbrgb24 c d8 d16 d32 h e = (refl, refl, refl)
alpha_opaque bbrgb32 c d8 d16 d32 h e =
    (by_alpha_full c.alpha _ _ e, by_alpha_full c.alpha _ _ e, rw (e) refl)

-- The exact negative of the source; a BB8A destination keeps its alpha.
abbrev pub negated : (t : BbType) → ColorOf t → ColorOf t → ColorOf t
negated bb8 c d = negative bb8 c
negated bb8a c d = record d { a = 255 - c.a }
negated bbrgb16 c d = negative bbrgb16 c
negated bbrgb24 c d = negative bbrgb24 c
negated bbrgb32 c d = negative bbrgb32 c

pub negate_pixel-eq-negated :
    (t : BbType) (c d : ColorOf t) → InRange t c → negate_pixel t c d ≡ negated t c d
unfolding negate_pixel invert_pixel
negate_pixel-eq-negated bb8 c d h = invert_pixel-eq-negative bb8 c h
negate_pixel-eq-negated bb8a c d h = ground (arith, bit_xor_ff c.a)
negate_pixel-eq-negated bbrgb16 c d h = invert_pixel-eq-negative bbrgb16 c h
negate_pixel-eq-negated bbrgb24 c d h = invert_pixel-eq-negative bbrgb24 c h
negate_pixel-eq-negated bbrgb32 c d h = invert_pixel-eq-negative bbrgb32 c h

-- For a pixel in range, BB_invert_blit_from makes the negative of each channel of the source pixel,
-- and takes the alpha from the source for RGB32 and from the destination for BB8A; and the word-wide
-- exclusive or of BB_invert_rect subtracts every colour channel (or field of RGB565) from its
-- maximum and keeps the alpha.
pub inverted_pixels_lem :
    (t : BbType) (c d : ColorOf t)
    → InRange t c
    → (negate_pixel t c d ≡ negated t c d) × (invert_pixel t c ≡ negative t c)
inverted_pixels_lem t c d h = (negate_pixel-eq-negated t c d h, invert_pixel-eq-negative t c h)
