-- ===== src/Compose/Exits.antt =====
-- When the composing blits end the program.
use koreader_base.Prelude.{ℕ, ◌≡◌, ◌≢◌, ◌↔◌, refl, Bool, true, false, Option, none, some, arith}
use koreader_base.Color.{BbType, bb8, bb8a, bbrgb16, bbrgb24, bbrgb32}
use koreader_base.Buffer.{BlitBuffer, type_bits, bb_type}
use koreader_base.Blit.{Area}
use koreader_base.Outcome.{exited}
use koreader_base.Compose.Add.{add_blit_from}
use koreader_base.Compose.Negate.{invert_blit_from}
use koreader_base.Compose.Alpha.{alpha_case, alpha_blit_from}
use koreader_base.Compose.Premultiplied.{pmul_case, pmulalpha_blit_from}

-- Which source types an alpha blit takes for each destination type: all for BB8, RGB565 and
-- RGB32, and the same type only for BB8A and RGB24. A type that is not one of the five goes with
-- nothing.
abbrev pub goes_with : Option BbType → Option BbType → Bool
goes_with none t = false
goes_with (some s) none = false
goes_with (some s) (some bb8) = true
goes_with (some bb8a) (some bb8a) = true
goes_with (some s) (some bb8a) = false
goes_with (some s) (some bbrgb16) = true
goes_with (some bbrgb24) (some bbrgb24) = true
goes_with (some s) (some bbrgb24) = false
goes_with (some s) (some bbrgb32) = true

alpha_case-exits :
    (dst src : BlitBuffer) (a : Area) (q p : Option BbType)
    → bb_type dst ≡ q
    → bb_type src ≡ p
    → (alpha_blit_from dst src a ≡ exited 1) ↔ (goes_with (bb_type src) (bb_type dst) ≡ false)
unfolding alpha_blit_from alpha_case
alpha_case-exits dst src a (some bb8) (some bb8) e e' = rw (e, e', alpha_blit_from) (ground arith)
alpha_case-exits dst src a (some bb8a) (some bb8) e e' = rw (e, e', alpha_blit_from) (ground arith)
alpha_case-exits dst src a (some bbrgb24) (some bb8) e e' =
    rw (e, e', alpha_blit_from) (ground arith)
alpha_case-exits dst src a _ _ e e' = rw (e, e', alpha_blit_from) (ground arith)

pmul_case-exits :
    (dst src : BlitBuffer) (a : Area) (q p : Option BbType)
    → bb_type dst ≡ q
    → bb_type src ≡ p
    → (pmulalpha_blit_from dst src a ≡ exited 1) ↔ (goes_with (bb_type src) (bb_type dst) ≡ false)
unfolding pmulalpha_blit_from pmul_case
pmul_case-exits dst src a (some bb8) (some bb8) e e' =
    rw (e, e', pmulalpha_blit_from) (ground arith)
pmul_case-exits dst src a (some bb8a) (some bb8) e e' =
    rw (e, e', pmulalpha_blit_from) (ground arith)
pmul_case-exits dst src a (some bbrgb24) (some bb8) e e' =
    rw (e, e', pmulalpha_blit_from) (ground arith)
pmul_case-exits dst src a _ _ e e' = rw (e, e', pmulalpha_blit_from) (ground arith)

add_invert-exits :
    (dst src : BlitBuffer) (a : Area) (alpha : ℕ)
    → ((add_blit_from dst src a alpha ≡ exited 1)
        ↔ ((alpha ≢ 0) × (alpha ≢ 255) × (type_bits dst ≢ type_bits src)))
      × ((invert_blit_from dst src a ≡ exited 1) ↔ (type_bits dst ≢ type_bits src))
unfolding add_blit_from invert_blit_from
add_invert-exits dst src a alpha = ground arith

-- For any two buffers and any rectangle, BB_alpha_blit_from and BB_pmulalpha_blit_from end the
-- program with status 1 exactly when the types of the source and the destination do not go
-- together: all sources go with BB8, RGB565 and RGB32, and only the same type with BB8A and RGB24.
-- BB_add_blit_from does so exactly when the alpha is neither 0 nor 0xFF and the types differ, and
-- BB_invert_blit_from exactly when the types differ.
pub composing-exits :
    (dst src : BlitBuffer) (a : Area) (alpha : ℕ)
    → ((alpha_blit_from dst src a ≡ exited 1) ↔ (goes_with (bb_type src) (bb_type dst) ≡ false))
      × ((pmulalpha_blit_from dst src a ≡ exited 1)
          ↔ (goes_with (bb_type src) (bb_type dst) ≡ false))
      × ((add_blit_from dst src a alpha ≡ exited 1)
          ↔ ((alpha ≢ 0) × (alpha ≢ 255) × (type_bits dst ≢ type_bits src)))
      × ((invert_blit_from dst src a ≡ exited 1) ↔ (type_bits dst ≢ type_bits src))
composing-exits dst src a alpha =
    let (add_exits, invert_exits) = add_invert-exits dst src a alpha in
    (
      alpha_case-exits dst src a (bb_type dst) (bb_type src) refl refl,
      pmul_case-exits dst src a (bb_type dst) (bb_type src) refl refl,
      add_exits,
      invert_exits,
    )
