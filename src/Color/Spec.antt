-- ===== src/Color/Spec.antt =====
-- What blending should make of a pixel, said without the code's arithmetic: each channel comes
-- within a rounding error of the exact weighted mean, and RGB565 adds the loss of its narrow
-- channels.
use koreader_base.Prelude.{ℕ, ◌+◌, ◌-◌, ◌*◌, ◌≤◌, ◌<◌, ◌≡◌, arith}
use koreader_base.Color.{BbType, bb8, bb8a, bbrgb16, bbrgb24, bbrgb32, ColorOf, ColorRgb24}
use koreader_base.Color.Convert.{get_r, get_g, get_b, inverse, over}
use koreader_base.Color.Laws.{over-Nearest}

-- Every field is in the range of its C type.
abbrev pub InRange : (t : BbType) → ColorOf t → Type 0
InRange bb8 c = c.a < 256
InRange bb8a c = (c.a < 256) × (c.alpha < 256)
InRange bbrgb16 c = c.v < 65536
InRange bbrgb24 c = (c.r < 256) × (c.g < 256) × (c.b < 256)
InRange bbrgb32 c = (c.r < 256) × (c.g < 256) × (c.b < 256) × (c.alpha < 256)

-- The opacity of a pixel: types without alpha are opaque.
abbrev pub opacity : (s : BbType) → ColorOf s → ℕ
opacity bb8 c = 255
opacity bb8a c = c.alpha
opacity bbrgb16 c = 255
opacity bbrgb24 c = 255
opacity bbrgb32 c = c.alpha

-- `q` is at most half a step, and `loss` steps more, from n / 255.
abbrev pub Near : ℕ → ℕ → ℕ → Type 0
Near loss n q = (255 * q ≤ n + 127 + 255 * loss) × (n ≤ 255 * q + 127 + 255 * loss)

abbrev pub mean : ℕ → ℕ → ℕ → ℕ
mean alpha old new = old * (255 - alpha) + new * alpha

-- `new` is `old` under the colour with grey value `y8` and channels `c`, at opacity `alpha`.
abbrev pub Blended : (t : BbType) → ℕ → ℕ → ColorRgb24 → ColorOf t → ColorOf t → Type 0
Blended bb8 alpha y8 c old new = Near 0 (mean alpha old.a y8) new.a
Blended bb8a alpha y8 c old new = Near 0 (mean alpha old.a y8) new.a
Blended bbrgb16 alpha y8 c old new =
    Near 7 (mean alpha (get_r old.v) c.r) (get_r new.v)
    × Near 3 (mean alpha (get_g old.v) c.g) (get_g new.v)
    × Near 7 (mean alpha (get_b old.v) c.b) (get_b new.v)
Blended bbrgb24 alpha y8 c old new =
    Near 0 (mean alpha old.r c.r) new.r
    × Near 0 (mean alpha old.g c.g) new.g
    × Near 0 (mean alpha old.b c.b) new.b
Blended bbrgb32 alpha y8 c old new =
    Near 0 (mean alpha old.r c.r) new.r
    × Near 0 (mean alpha old.g c.g) new.g
    × Near 0 (mean alpha old.b c.b) new.b
    × (new.alpha ≡ old.alpha)

pub over-Near :
    (alpha old new : ℕ)
    → alpha < 256
    → old < 256
    → new < 256
    → Near 0 (mean alpha old new) (over alpha (inverse alpha) old new)
over-Near alpha old new ha ho hn = omega (arith, over-Nearest alpha old new ha ho hn)
