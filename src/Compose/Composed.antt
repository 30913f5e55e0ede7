-- ===== src/Compose/Composed.antt =====
-- What BB_alpha_blit_from and BB_pmulalpha_blit_from should make of one pixel, said without their
-- arithmetic.
pub mod Mixing
pub mod Plain
pub mod Cases
pub mod OfAlpha
pub mod OfPmul
use koreader_base.Prelude.{
  ℕ, ◌+◌, ◌-◌, ◌*◌, ◌≤◌, ◌<◌, ◌≡◌, ◌≢◌, Option, none, some, if◌then◌else◌, ◌==◌,
}
use koreader_base.Color.{ColorRgb24, BbType, ColorOf, bb8, bb8a, bbrgb16, bbrgb24, bbrgb32}
use koreader_base.Color.Convert.{get_r, get_g, get_b}
use koreader_base.Color.Spec.{Near, opacity}
use koreader_base.Blit.Convert.{luma}
use koreader_base.Compose.Pixels.{channels_of}

-- 255 times the exact result for a channel that is multiplied by the alpha already.
abbrev pub premultiplied_mean : ℕ → ℕ → ℕ → ℕ
premultiplied_mean alpha old new = old * (255 - alpha) + new * 255

abbrev three : ℕ → ColorRgb24
three v = record { r = v; g = v; b = v }

-- The channels that the source is mixed with: the old pixel's, but its grey value where a BB8A
-- source comes to a pixel of colours.
abbrev pub backdrop : (s t : BbType) → ColorOf t → ColorRgb24
backdrop bb8a bbrgb16 d = three (luma bbrgb16 d)
backdrop bb8a bbrgb32 d = three (luma bbrgb32 d)
backdrop s t d = channels_of t d

-- The alpha of the result: an opaque pixel of the same type is copied with its alpha.
abbrev pub new_opacity : (s t : BbType) → ColorOf s → ColorOf t → ℕ
new_opacity bb8a bb8a c d = if c.alpha == 255 then 255 else d.alpha
new_opacity bbrgb32 bbrgb32 c d = if c.alpha == 255 then 255 else d.alpha
new_opacity s t c d = opacity t d

-- A pixel each channel of which is the byte nearest to 1 / 255 of the weighted sum of the old
-- channel and the new one (the grey value `y8` on the grey types), RGB565 to within the loss of its
-- fields.
abbrev pub Shows : (t : BbType) → (ℕ → ℕ → ℕ) → ColorRgb24 → ℕ → ColorRgb24 → ColorOf t → Type 0
Shows bb8 weigh old y8 c new = Near 0 (weigh old.r y8) new.a
Shows bb8a weigh old y8 c new = Near 0 (weigh old.r y8) new.a
Shows bbrgb16 weigh old y8 c new =
    Near 7 (weigh old.r c.r) (get_r new.v)
    × Near 3 (weigh old.g c.g) (get_g new.v)
    × Near 7 (weigh old.b c.b) (get_b new.v)
Shows bbrgb24 weigh old y8 c new =
    Near 0 (weigh old.r c.r) new.r × Near 0 (weigh old.g c.g) new.g × Near 0 (weigh old.b c.b) new.b
Shows bbrgb32 weigh old y8 c new =
    Near 0 (weigh old.r c.r) new.r × Near 0 (weigh old.g c.g) new.g × Near 0 (weigh old.b c.b) new.b

-- Exactly a transparent source pixel leaves the old one alone.
abbrev pub Composed :
    (ℕ → ℕ → ℕ → ℕ) → (s t : BbType) → ColorOf s → ColorOf t → Option (ColorOf t) → Type 0
Composed weigh s t c d none = opacity s c ≡ 0
Composed weigh s t c d (some x) =
    (opacity s c ≢ 0)
    × Shows t (weigh (opacity s c)) (backdrop s t d) (luma s c) (channels_of s c) x
    × (opacity t x ≡ new_opacity s t c d)

-- No channel is above the alpha.
abbrev pub IsPremultiplied : (s : BbType) → ColorOf s → Type 0
IsPremultiplied bb8 c = c.a ≤ 255
IsPremultiplied bb8a c = c.a ≤ c.alpha
IsPremultiplied bbrgb16 c = get_r c.v ≤ 255
IsPremultiplied bbrgb24 c = c.r ≤ 255
IsPremultiplied bbrgb32 c = (c.r ≤ c.alpha) × (c.g ≤ c.alpha) × (c.b ≤ c.alpha)
