-- ===== src/Compose/Add.antt =====
-- BB_add_blit_from: the source over the destination at one opacity.
use koreader_base.Prelude.{ℕ, none, some, if◌then◌else◌, ◌==◌}
use koreader_base.Color.{BbType, ColorOf, bb8, bb8a, bbrgb16, bbrgb24, bbrgb32}
use koreader_base.Color.Convert.{get_r, get_g, get_b, inverse, over}
use koreader_base.Buffer.{BlitBuffer, type_bits, bb_type}
use koreader_base.Rect.Blend.{pack16}
use koreader_base.Blit.{Area, blit_pixels, blit_to}
use koreader_base.Outcome.{Outcome, done, exited}

-- One pixel, for 0 < alpha < 0xFF. The alpha of the destination stays.
unfoldable pub add_pixel : (t : BbType) → ℕ → ColorOf t → ColorOf t → ColorOf t
unfolding over inverse get_r get_g get_b
add_pixel bb8 alpha c d = record { a = over alpha (inverse alpha) d.a c.a }
add_pixel bb8a alpha c d = record d { a = over alpha (inverse alpha) d.a c.a }
add_pixel bbrgb16 alpha c d =
    let ainv = inverse alpha in
    pack16 (over alpha ainv (get_r d.v) (get_r c.v)) (over alpha ainv (get_g d.v) (get_g c.v))
      (over alpha ainv (get_b d.v) (get_b c.v))
add_pixel bbrgb24 alpha c d =
    let ainv = inverse alpha in
    record { r = over alpha ainv d.r c.r; g = over alpha ainv d.g c.g; b = over alpha ainv d.b c.b }
add_pixel bbrgb32 alpha c d =
    let ainv = inverse alpha in
    record d {
      r = over alpha ainv d.r c.r;
      g = over alpha ainv d.g c.g;
      b = over alpha ainv d.b c.b;
    }

unfoldable pub add_blit_from : BlitBuffer → BlitBuffer → Area → ℕ → Outcome
unfolding blit_to add_pixel blit_pixels
add_blit_from dst src a alpha =
    if alpha == 0
    then done dst.bytes
    else if alpha == 0xff
    then done (blit_to src dst a)
    else if type_bits dst == type_bits src
    then elim (bb_type dst) [
      | none ↦ done dst.bytes
      | some t ↦ done (blit_pixels t t (λ _ _ c d. some (add_pixel t alpha c d)) src dst a)
    ]
    else exited 1
