-- ===== src/Rect/Blend/Rounding.antt =====
-- What BB_blend_rect and BB_blend_RGB32_over_rect make of a pixel, against `Blended`.
use koreader_base.Prelude.{ℕ, ◌+◌, ◌≤◌, ◌<◌, ◌≡◌, refl, u8, arith}
use koreader_base.Color.{
  Color8A, ColorRgb24, ColorRgb32, BbType, bb8, bb8a, bbrgb16, bbrgb24, bbrgb32, ColorOf,
}
use koreader_base.Color.Convert.{get_r, get_g, get_b, rgb_to_a, rgb_to_rgb16, inverse, over}
use koreader_base.Color.Laws.{over_byte, rgb565_loss, rgb565_roundtrip, rgb_to_a_bounds}
use koreader_base.Color.Spec.{InRange, Near, mean, Blended, over-Near}
use koreader_base.Rect.Blend.{pack16, blend_pixel, blend_rgb32_over_pixel}

-- Packing three bytes keeps each within the loss of its field.
pub pack16_lem :
    (r g b : ℕ)
    → r < 256
    → g < 256
    → b < 256
    → ((pack16 r g b).v ≡ rgb_to_rgb16 r g b) × ((pack16 r g b).v < 65536)
pack16_lem r g b hr hg hb = omega (arith, rgb565_loss r g b hr hg hb)

pub Near-loss : (loss n q q' : ℕ) → Near 0 n q → q' ≤ q + loss → q ≤ q' + loss → Near loss n q'
Near-loss loss n q q' h u l = omega arith

-- Channels that are packed into RGB565.
pub packed_Near :
    (nr ng nb r g b : ℕ)
    → r < 256
    → g < 256
    → b < 256
    → Near 0 nr r
    → Near 0 ng g
    → Near 0 nb b
    → let v = (pack16 r g b).v in Near 7 nr (get_r v) × Near 3 ng (get_g v) × Near 7 nb (get_b v)
packed_Near nr ng nb r g b hr hg hb near_r near_g near_b =
    let loss = rgb565_loss r g b hr hg hb in
    rw (pack16_lem r g b hr hg hb).0 (
      Near-loss 7 nr r _ near_r loss.1 loss.2,
      Near-loss 3 ng g _ near_g loss.3 loss.4,
      Near-loss 7 nb b _ near_b loss.5 loss.6,
    )

-- At full opacity the mean is the new channel.
pub opaque-Near : (old new : ℕ) → Near 0 (mean 255 old new) new
opaque-Near old new = omega arith

module _ (alpha : ℕ) (ha : alpha < 256) (r g b : ℕ) (hr : r < 256) (hg : g < 256)
    (hb : b < 256) where
  -- The three channels of a packed pixel, blended and packed again.
  pub packed_Blended :
      (v : ℕ)
      → v < 65536
      → let new =
          pack16
            (over alpha (inverse alpha) (get_r v) r)
            (over alpha (inverse alpha) (get_g v) g)
            (over alpha (inverse alpha) (get_b v) b) in
        Near 7 (mean alpha (get_r v) r) (get_r new.v)
        × Near 3 (mean alpha (get_g v) g) (get_g new.v)
        × Near 7 (mean alpha (get_b v) b) (get_b new.v)
  packed_Blended v hv =
      let old = rgb565_roundtrip v hv in
      let ainv = inverse alpha in
      let nr = over alpha ainv (get_r v) r in
      let ng = over alpha ainv (get_g v) g in
      let nb = over alpha ainv (get_b v) b in
      let br = over_byte alpha ainv (get_r v) r in
      let bg = over_byte alpha ainv (get_g v) g in
      let bb = over_byte alpha ainv (get_b v) b in
      let loss = rgb565_loss nr ng nb br bg bb in
      rw (pack16_lem nr ng nb br bg bb).0 (
        Near-loss 7 _ nr _ (over-Near alpha (get_r v) r ha old.0 hr) loss.1 loss.2,
        Near-loss 3 _ ng _ (over-Near alpha (get_g v) g ha old.1 hg) loss.3 loss.4,
        Near-loss 7 _ nb _ (over-Near alpha (get_b v) b ha old.2 hb) loss.5 loss.6,
      )

abbrev pub grey : Color8A → ColorRgb24
grey c = record { r = c.a; g = c.a; b = c.a }

abbrev pub channels : ColorRgb32 → ColorRgb24
channels c = record { r = c.r; g = c.g; b = c.b }

-- For a colour and a pixel in range, BB_blend_rect makes each channel of the pixel the byte
-- nearest to the exact mean of the old channel and the grey of the colour at its opacity, RGB565 to within the
-- loss of its fields, and keeps the alpha of an RGB32 pixel.
pub blend_pixel-Blended :
    (t : BbType) (color : Color8A) (old : ColorOf t)
    → InRange bb8a color
    → InRange t old
    → Blended t color.alpha color.a (grey color) old (blend_pixel t color old)
unfolding blend_pixel
blend_pixel-Blended bb8 color old hc ho = over-Near color.alpha old.a color.a hc.1 ho hc.0
blend_pixel-Blended bb8a color old hc ho = over-Near color.alpha old.a color.a hc.1 ho.0 hc.0
blend_pixel-Blended bbrgb16 color old hc ho =
    packed_Blended color.alpha hc.1 color.a color.a color.a hc.0 hc.0 hc.0 old.v ho
blend_pixel-Blended bbrgb24 color old hc ho = (
  over-Near color.alpha old.r color.a hc.1 ho.0 hc.0,
  over-Near color.alpha old.g color.a hc.1 ho.1 hc.0,
  over-Near color.alpha old.b color.a hc.1 ho.2 hc.0,
)
blend_pixel-Blended bbrgb32 color old hc ho = (
  over-Near color.alpha old.r color.a hc.1 ho.0 hc.0,
  over-Near color.alpha old.g color.a hc.1 ho.1 hc.0,
  over-Near color.alpha old.b color.a hc.1 ho.2 hc.0,
  refl,
)

-- The luminance that the code casts to a byte is a byte already.
pub luma_byte : (r g b : ℕ) → r < 256 → g < 256 → b < 256 → u8 (rgb_to_a r g b) ≡ rgb_to_a r g b
luma_byte r g b hr hg hb =
    omega (arith, rgb_to_a_bounds 0 255 r g b (omega arith) (omega arith) (omega arith))

-- For a colour and a pixel in range, BB_blend_RGB32_over_rect makes each channel of the pixel the
-- byte nearest to the exact mean of the old channel and the colour's (its luminance on the grey
-- types) at the colour's opacity, RGB565 to within the loss of its fields, and keeps the alpha of
-- an RGB32 pixel.
pub blend_rgb32_over_pixel-Blended :
    (t : BbType) (color : ColorRgb32) (old : ColorOf t)
    → InRange bbrgb32 color
    → InRange t old
    → Blended t color.alpha
        (rgb_to_a color.r color.g color.b)
        (channels color)
        old
        (blend_rgb32_over_pixel t color old)
unfolding blend_rgb32_over_pixel
blend_rgb32_over_pixel-Blended bb8 color old hc ho =
    rw (luma_byte color.r color.g color.b hc.0 hc.1 hc.2) (
      over-Near color.alpha old.a (rgb_to_a color.r color.g color.b) hc.3 ho
        (omega (arith, luma_byte color.r color.g color.b hc.0 hc.1 hc.2)))
blend_rgb32_over_pixel-Blended bb8a color old hc ho =
    rw (luma_byte color.r color.g color.b hc.0 hc.1 hc.2) (
      over-Near color.alpha old.a (rgb_to_a color.r color.g color.b) hc.3 ho.0
        (omega (arith, luma_byte color.r color.g color.b hc.0 hc.1 hc.2)))
blend_rgb32_over_pixel-Blended bbrgb16 color old hc ho =
    packed_Blended color.alpha hc.3 color.r color.g color.b hc.0 hc.1 hc.2 old.v ho
blend_rgb32_over_pixel-Blended bbrgb24 color old hc ho = (
  over-Near color.alpha old.r color.r hc.3 ho.0 hc.0,
  over-Near color.alpha old.g color.g hc.3 ho.1 hc.1,
  over-Near color.alpha old.b color.b hc.3 ho.2 hc.2,
)
blend_rgb32_over_pixel-Blended bbrgb32 color old hc ho = (
  over-Near color.alpha old.r color.r hc.3 ho.0 hc.0,
  over-Near color.alpha old.g color.g hc.3 ho.1 hc.1,
  over-Near color.alpha old.b color.b hc.3 ho.2 hc.2,
  refl,
)
