-- ===== src/Compose/Composed/Cases.antt =====
-- The weights of the two composing blits, and the promise of a case.
use koreader_base.Prelude.{ℕ, ◌≤◌, ◌<◌, Option, none, some, arith}
use koreader_base.Color.{ColorRgb32, BbType, ColorOf, bbrgb32}
use koreader_base.Color.Convert.{inverse, over}
use koreader_base.Color.Laws.{premultiplied-Nearest, rgb_to_a_bounds}
use koreader_base.Color.Spec.{InRange, Near, mean, over-Near}
use koreader_base.Blit.Convert.{luma}
use koreader_base.Compose.Composed.{Composed, IsPremultiplied, premultiplied_mean}

abbrev pub Byte : ℕ → ℕ → Type 0
Byte alpha new = new < 256

abbrev pub UpTo : ℕ → ℕ → Type 0
UpTo alpha new = new ≤ alpha

abbrev pub itself : ℕ → ℕ
itself alpha = alpha

abbrev pub whole : ℕ → ℕ
whole alpha = 0xff

pub mean_mix :
    (alpha old new : ℕ)
    → alpha < 256
    → old < 256
    → new < 256
    → Byte alpha new
    → Near 0 (mean alpha old new) (over (itself alpha) (inverse alpha) old new)
mean_mix alpha old new ha ho hn ok = over-Near alpha old new ha ho hn

pub premultiplied_mix :
    (alpha old new : ℕ)
    → alpha < 256
    → old < 256
    → new < 256
    → UpTo alpha new
    → Near 0 (premultiplied_mean alpha old new) (over (whole alpha) (inverse alpha) old new)
premultiplied_mix alpha old new ha ho hn ok =
    omega (arith, premultiplied-Nearest alpha old new ha ho ok)

pub premultiplied_opaque : (old new : ℕ) → Near 0 (premultiplied_mean 255 old new) new
premultiplied_opaque old new = omega arith

pub luma_up_to :
    (c : ColorRgb32) → InRange bbrgb32 c → IsPremultiplied bbrgb32 c → luma bbrgb32 c ≤ c.alpha
unfolding luma
luma_up_to c h ok = omega (arith, rgb_to_a_bounds 0 c.alpha c.r c.g c.b (omega arith) ok h.3)

-- The promise of a case.
abbrev pub Case :
    (ℕ → ℕ → ℕ → ℕ)
    → ((s : BbType) → ColorOf s → Type 0)
    → (s t : BbType) → Option (ColorOf s → ColorOf t → Option (ColorOf t))
    → Type 0
Case weigh Source s t none = (0 ≤ 0)
Case weigh Source s t (some f) =
    (c : ColorOf s) (d : ColorOf t)
    → InRange s c
    → InRange t d
    → Source s c
    → Composed weigh s t c d (f c d)
