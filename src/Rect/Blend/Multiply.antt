-- ===== src/Rect/Blend/Multiply.antt =====
-- What the two multiplying operations make of a pixel, against exact products.
use koreader_base.Prelude.{ℕ, zero, suc, ◌+◌, ◌-◌, ◌*◌, ◌≤◌, ◌<◌, ◌≡◌, refl, u8, arith}
use koreader_base.Color.{
  ColorRgb24, ColorRgb32, BbType, bb8, bb8a, bbrgb16, bbrgb24, bbrgb32, ColorOf,
}
use koreader_base.Color.Convert.{get_r, get_g, get_b, rgb_to_a, inverse, multiply, div_255}
use koreader_base.Color.Laws.{
  over_byte, over-Nearest, multiply-Nearest, product_le, div_255-Nearest, rgb565_loss,
  rgb565_roundtrip,
}
use koreader_base.Color.Spec.{InRange, Near}
use koreader_base.Rect.Blend.{multiply_pixel, multiply_over, multiply_over_pixel}
use koreader_base.Rect.Blend.Rounding.{pack16_lem, Near-loss, channels, luma_byte}

-- `new` is `old` times the colour with grey value `y8` and channels `c`, as parts of 255.
abbrev pub Multiplied : (t : BbType) → ℕ → ColorRgb24 → ColorOf t → ColorOf t → Type 0
Multiplied bb8 y8 c old new = Near 0 (old.a * y8) new.a
Multiplied bb8a y8 c old new = Near 0 (old.a * y8) new.a × (new.alpha ≡ old.alpha)
Multiplied bbrgb16 y8 c old new =
    Near 7 (get_r old.v * c.r) (get_r new.v)
    × Near 3 (get_g old.v * c.g) (get_g new.v)
    × Near 7 (get_b old.v * c.b) (get_b new.v)
Multiplied bbrgb24 y8 c old new =
    Near 0 (old.r * c.r) new.r × Near 0 (old.g * c.g) new.g × Near 0 (old.b * c.b) new.b
Multiplied bbrgb32 y8 c old new =
    Near 0 (old.r * c.r) new.r
    × Near 0 (old.g * c.g) new.g
    × Near 0 (old.b * c.b) new.b
    × (new.alpha ≡ old.alpha)

-- `q` is less than one step, and `loss` steps more, from the mean of `old` and of its exact
-- product with `c`, at the weight `alpha` of the product.
abbrev pub NearOver : ℕ → ℕ → ℕ → ℕ → ℕ → Type 0
NearOver loss alpha old c q =
    (65025 * q ≤ 255 * (old * (255 - alpha)) + old * c * alpha + 64770 + 65025 * loss)
    × (255 * (old * (255 - alpha)) + old * c * alpha ≤ 65025 * q + 64770 + 65025 * loss)

abbrev pub MultipliedOver : (t : BbType) → ℕ → ℕ → ColorRgb24 → ColorOf t → ColorOf t → Type 0
MultipliedOver bb8 alpha y8 c old new = NearOver 0 alpha old.a y8 new.a
MultipliedOver bb8a alpha y8 c old new = NearOver 0 alpha old.a y8 new.a × (new.alpha ≡ old.alpha)
MultipliedOver bbrgb16 alpha y8 c old new =
    NearOver 7 alpha (get_r old.v) c.r (get_r new.v)
    × NearOver 3 alpha (get_g old.v) c.g (get_g new.v)
    × NearOver 7 alpha (get_b old.v) c.b (get_b new.v)
MultipliedOver bbrgb24 alpha y8 c old new =
    NearOver 0 alpha old.r c.r new.r
    × NearOver 0 alpha old.g c.g new.g
    × NearOver 0 alpha old.b c.b new.b
MultipliedOver bbrgb32 alpha y8 c old new =
    NearOver 0 alpha old.r c.r new.r
    × NearOver 0 alpha old.g c.g new.g
    × NearOver 0 alpha old.b c.b new.b
    × (new.alpha ≡ old.alpha)

multiply-Near : (old c : ℕ) → old < 256 → c < 256 → Near 0 (old * c) (multiply old c)
multiply-Near old c ho hc = omega (arith, multiply-Nearest old c ho hc)

multiply_byte : (old c : ℕ) → multiply old c < 256
unfolding multiply
multiply_byte old c = omega arith

-- The weights may multiply both sides of a bound.
weighted : (p q e alpha : ℕ) → 255 * p ≤ q + e → 255 * (p * alpha) ≤ q * alpha + e * alpha
weighted p q e zero h = omega arith
weighted p q e (suc alpha) h = omega (arith, weighted p q e alpha h)

weighted_up : (p q e alpha : ℕ) → q ≤ 255 * p + e → q * alpha ≤ 255 * (p * alpha) + e * alpha
weighted_up p q e zero h = omega arith
weighted_up p q e (suc alpha) h = omega (arith, weighted_up p q e alpha h)

multiply_over-NearOver :
    (alpha old c : ℕ)
    → alpha < 256
    → old < 256
    → c < 256
    → NearOver 0 alpha old c (multiply_over alpha (inverse alpha) old c)
unfolding multiply_over
multiply_over-NearOver alpha old c ha ho hc =
    let p = div_255 (old * c) in
    let near = div_255-Nearest (old * c) (omega (arith, product_le old c ho hc)) in
    let byte : p < 256 = omega (arith, product_le old c ho hc) in
    omega (
      arith,
      over-Nearest alpha old p ha ho byte,
      weighted p (old * c) 127 alpha (omega arith),
      weighted_up p (old * c) 127 alpha (omega arith),
    )

NearOver-loss :
    (loss alpha old c q q' : ℕ)
    → NearOver 0 alpha old c q
    → q' ≤ q + loss
    → q ≤ q' + loss
    → NearOver loss alpha old c q'
NearOver-loss loss alpha old c q q' h u l = omega arith

multiply_over_byte : (alpha ainv old c : ℕ) → multiply_over alpha ainv old c < 256
unfolding multiply_over
multiply_over_byte alpha ainv old c = over_byte alpha ainv old (div_255 (old * c))

multiply_pixel-Multiplied :
    (t : BbType) (color : ColorRgb24) (old : ColorOf t)
    → InRange bbrgb24 color
    → InRange t old
    → Multiplied t (rgb_to_a color.r color.g color.b) color old (multiply_pixel t color old)
unfolding multiply_pixel
multiply_pixel-Multiplied bb8 color old hc ho =
    let y8 = luma_byte color.r color.g color.b hc.0 hc.1 hc.2 in
    rw y8 (multiply-Near old.a _ ho (omega (arith, y8)))
multiply_pixel-Multiplied bb8a color old hc ho =
    let y8 = luma_byte color.r color.g color.b hc.0 hc.1 hc.2 in
    rw y8 (multiply-Near old.a _ ho.0 (omega (arith, y8)), refl)
multiply_pixel-Multiplied bbrgb16 color old hc ho =
    let was = rgb565_roundtrip old.v ho in
    let nr = multiply (get_r old.v) color.r in
    let ng = multiply (get_g old.v) color.g in
    let nb = multiply (get_b old.v) color.b in
    let br = multiply_byte (get_r old.v) color.r in
    let bg = multiply_byte (get_g old.v) color.g in
    let bb = multiply_byte (get_b old.v) color.b in
    let loss = rgb565_loss nr ng nb br bg bb in
    rw (pack16_lem nr ng nb br bg bb).0 (
      Near-loss 7 _ nr _ (multiply-Near (get_r old.v) color.r was.0 hc.0) loss.1 loss.2,
      Near-loss 3 _ ng _ (multiply-Near (get_g old.v) color.g was.1 hc.1) loss.3 loss.4,
      Near-loss 7 _ nb _ (multiply-Near (get_b old.v) color.b was.2 hc.2) loss.5 loss.6,
    )
multiply_pixel-Multiplied bbrgb24 color old hc ho = (
  multiply-Near old.r color.r ho.0 hc.0,
  multiply-Near old.g color.g ho.1 hc.1,
  multiply-Near old.b color.b ho.2 hc.2,
)
multiply_pixel-Multiplied bbrgb32 color old hc ho = (
  multiply-Near old.r color.r ho.0 hc.0,
  multiply-Near old.g color.g ho.1 hc.1,
  multiply-Near old.b color.b ho.2 hc.2,
  refl,
)

multiply_over_pixel-MultipliedOver :
    (t : BbType) (color : ColorRgb32) (old : ColorOf t)
    → InRange bbrgb32 color
    → InRange t old
    → MultipliedOver t color.alpha
        (rgb_to_a color.r color.g color.b)
        (channels color)
        old
        (multiply_over_pixel t color old)
unfolding multiply_over_pixel
multiply_over_pixel-MultipliedOver bb8 color old hc ho =
    let y8 = luma_byte color.r color.g color.b hc.0 hc.1 hc.2 in
    rw y8 (multiply_over-NearOver color.alpha old.a _ hc.3 ho (omega (arith, y8)))
multiply_over_pixel-MultipliedOver bb8a color old hc ho =
    let y8 = luma_byte color.r color.g color.b hc.0 hc.1 hc.2 in
    rw y8 (multiply_over-NearOver color.alpha old.a _ hc.3 ho.0 (omega (arith, y8)), refl)
multiply_over_pixel-MultipliedOver bbrgb16 color old hc ho =
    let was = rgb565_roundtrip old.v ho in
    let ainv = inverse color.alpha in
    let er : u8 (get_r old.v) ≡ get_r old.v = omega (arith, was) in
    let eg : u8 (get_g old.v) ≡ get_g old.v = omega (arith, was) in
    let eb : u8 (get_b old.v) ≡ get_b old.v = omega (arith, was) in
    let nr = multiply_over color.alpha ainv (get_r old.v) color.r in
    let ng = multiply_over color.alpha ainv (get_g old.v) color.g in
    let nb = multiply_over color.alpha ainv (get_b old.v) color.b in
    let br = multiply_over_byte color.alpha ainv (get_r old.v) color.r in
    let bg = multiply_over_byte color.alpha ainv (get_g old.v) color.g in
    let bb = multiply_over_byte color.alpha ainv (get_b old.v) color.b in
    let loss = rgb565_loss nr ng nb br bg bb in
    rw (er, eg, eb, (pack16_lem nr ng nb br bg bb).0)
      (
        NearOver-loss 7 color.alpha _ color.r nr _
            (multiply_over-NearOver color.alpha (get_r old.v) color.r hc.3 was.0 hc.0) loss.1
            loss.2,
        NearOver-loss 3 color.alpha _ color.g ng _
            (multiply_over-NearOver color.alpha (get_g old.v) color.g hc.3 was.1 hc.1) loss.3
            loss.4,
        NearOver-loss 7 color.alpha _ color.b nb _
            (multiply_over-NearOver color.alpha (get_b old.v) color.b hc.3 was.2 hc.2) loss.5
            loss.6,
      )
multiply_over_pixel-MultipliedOver bbrgb24 color old hc ho = (
  multiply_over-NearOver color.alpha old.r color.r hc.3 ho.0 hc.0,
  multiply_over-NearOver color.alpha old.g color.g hc.3 ho.1 hc.1,
  multiply_over-NearOver color.alpha old.b color.b hc.3 ho.2 hc.2,
)
multiply_over_pixel-MultipliedOver bbrgb32 color old hc ho = (
  multiply_over-NearOver color.alpha old.r color.r hc.3 ho.0 hc.0,
  multiply_over-NearOver color.alpha old.g color.g hc.3 ho.1 hc.1,
  multiply_over-NearOver color.alpha old.b color.b hc.3 ho.2 hc.2,
  refl,
)

-- For colours and a pixel in range: BB_blend_RGB_multiply_rect makes each channel of the pixel the
-- byte nearest to the exact product of the old channel and the colour's as parts of 255 (the
-- colour's luminance on the grey types), RGB565 to within the loss of its fields, and keeps alpha
-- bytes; BB_blend_RGB32_multiply_rect makes it differ by less than one from the exact mean of the
-- old channel and that product at the colour's opacity, RGB565 to within the loss of its fields
-- besides, and keeps alpha bytes.
pub multiply_pixels-Multiplied :
    (t : BbType) (color : ColorRgb24) (over_color : ColorRgb32) (old : ColorOf t)
    → InRange bbrgb24 color
    → InRange bbrgb32 over_color
    → InRange t old
    → Multiplied t (rgb_to_a color.r color.g color.b) color old (multiply_pixel t color old)
      × MultipliedOver t over_color.alpha
          (rgb_to_a over_color.r over_color.g over_color.b)
          (channels over_color)
          old
          (multiply_over_pixel t over_color old)
multiply_pixels-Multiplied t color over_color old hc hoc ho = (
  multiply_pixel-Multiplied t color old hc ho,
  multiply_over_pixel-MultipliedOver t over_color old hoc ho,
)
