-- ===== src/Compose/Composed/Plain.antt =====
-- The cases of the composing blits for sources without alpha, which are opaque.
use koreader_base.Prelude.{ℕ, ◌<◌, ◌≡◌, refl, some, u8, arith}
use koreader_base.Color.{ColorRgb16, ColorRgb32, bbrgb16, bbrgb32}
use koreader_base.Color.Convert.{get_r, get_g, get_b}
use koreader_base.Color.Laws.{rgb565_roundtrip}
use koreader_base.Color.Spec.{InRange, Near}
use koreader_base.Rect.Blend.{pack16}
use koreader_base.Rect.Blend.Rounding.{packed_Near, Near-loss}
use koreader_base.Compose.Composed.{Composed}

module _ (weigh : ℕ → ℕ → ℕ → ℕ) (opaque : (old new : ℕ) → Near 0 (weigh 255 old new) new) where
  byte : (n : ℕ) → n < 256 → u8 n ≡ n
  byte n h = omega arith

  pub packed_opaque :
      (r g b old_r old_g old_b : ℕ)
      → r < 256
      → g < 256
      → b < 256
      → let v = (pack16 r g b).v in
        Near 7 (weigh 255 old_r r) (get_r v)
        × Near 3 (weigh 255 old_g g) (get_g v)
        × Near 7 (weigh 255 old_b b) (get_b v)
  packed_opaque r g b old_r old_g old_b hr hg hb =
      packed_Near _ _ _ r g b hr hg hb (opaque old_r r) (opaque old_g g) (opaque old_b b)

  pub copied_16 : (c d : ColorRgb16) → Composed weigh bbrgb16 bbrgb16 c d (some c)
  copied_16 c d = (
    omega arith,
    (
      Near-loss 7 _ (get_r c.v) _ (opaque (get_r d.v) (get_r c.v)) (omega arith) (omega arith),
      Near-loss 3 _ (get_g c.v) _ (opaque (get_g d.v) (get_g c.v)) (omega arith) (omega arith),
      Near-loss 7 _ (get_b c.v) _ (opaque (get_b d.v) (get_b c.v)) (omega arith) (omega arith),
    ),
    refl,
  )

  pub widened_32 :
      (c : ColorRgb16) (d : ColorRgb32)
      → InRange bbrgb16 c
      → Composed weigh bbrgb16 bbrgb32 c d
          (some (record d { r = u8 (get_r c.v); g = u8 (get_g c.v); b = u8 (get_b c.v) }))
  widened_32 c d hc =
      let new = rgb565_roundtrip c.v hc in
      rw (byte (get_r c.v) new.0, byte (get_g c.v) new.1, byte (get_b c.v) new.2)
        (
          omega arith,
          (opaque d.r (get_r c.v), opaque d.g (get_g c.v), opaque d.b (get_b c.v)),
          refl,
        )
