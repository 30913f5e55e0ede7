-- ===== src/Dither/Compose.antt =====
-- BB_dither_alpha_blit_from and BB_dither_pmulalpha_blit_from: composing blits that dither what
-- they write to a BB8 destination, at the source position, and do no more than the plain ones for
-- any other.
use koreader_base.Prelude.{ℕ, Option, none, some, u8}
use koreader_base.Color.{Color8, BbType, ColorOf, bb8, bb8a, bbrgb16, bbrgb24, bbrgb32}
use koreader_base.Color.Convert.{rgb_to_a, rgb16_to_a, inverse, over}
use koreader_base.Buffer.{BlitBuffer, bb_type}
use koreader_base.Blit.{Area, blit_pixels}
use koreader_base.Outcome.{Outcome, done, exited}
use koreader_base.Compose.Alpha.{by_alpha, alpha_blit_from}
use koreader_base.Compose.Premultiplied.{pmulalpha_blit_from}
use koreader_base.Dither.{dither_o8x8}

abbrev pub dithered_at : ℕ → ℕ → ℕ → Color8
dithered_at o_x o_y v = record { a = dither_o8x8 o_x o_y v }

unfoldable pub dither_alpha_to_bb8 : (s : BbType) → ℕ → ℕ → ColorOf s → Color8 → Option Color8
unfolding over inverse rgb_to_a rgb16_to_a dither_o8x8
dither_alpha_to_bb8 bb8 o_x o_y c d = some (dithered_at o_x o_y c.a)
dither_alpha_to_bb8 bb8a o_x o_y c d =
    by_alpha c.alpha (dithered_at o_x o_y c.a)
      (dithered_at o_x o_y (over c.alpha (inverse c.alpha) d.a c.a))
dither_alpha_to_bb8 bbrgb16 o_x o_y c d = some (dithered_at o_x o_y (u8 (rgb16_to_a c.v)))
dither_alpha_to_bb8 bbrgb24 o_x o_y c d = some (dithered_at o_x o_y (u8 (rgb_to_a c.r c.g c.b)))
dither_alpha_to_bb8 bbrgb32 o_x o_y c d =
    let srca = u8 (rgb_to_a c.r c.g c.b) in
    by_alpha c.alpha (dithered_at o_x o_y (u8 (rgb_to_a c.r c.g c.b)))
      (dithered_at o_x o_y (over c.alpha (inverse c.alpha) d.a srca))

unfoldable pub dither_alpha_blit_from : BlitBuffer → BlitBuffer → Area → Outcome
unfolding dither_alpha_to_bb8 blit_pixels alpha_blit_from
dither_alpha_blit_from dst src a = elim (bb_type dst) [
  | some bb8 ↦ elim (bb_type src) [
    | none ↦ exited 1
    | some s ↦ done (blit_pixels s bb8 (dither_alpha_to_bb8 s) src dst a)
  ]
  | _ ↦ alpha_blit_from dst src a
]

unfoldable pub dither_pmul_to_bb8 : (s : BbType) → ℕ → ℕ → ColorOf s → Color8 → Option Color8
unfolding over inverse rgb_to_a rgb16_to_a dither_o8x8
dither_pmul_to_bb8 bb8 o_x o_y c d = some (dithered_at o_x o_y c.a)
dither_pmul_to_bb8 bb8a o_x o_y c d =
    by_alpha c.alpha (dithered_at o_x o_y c.a)
      (dithered_at o_x o_y (over 0xff (inverse c.alpha) d.a c.a))
dither_pmul_to_bb8 bbrgb16 o_x o_y c d = some (dithered_at o_x o_y (u8 (rgb16_to_a c.v)))
dither_pmul_to_bb8 bbrgb24 o_x o_y c d = some (dithered_at o_x o_y (u8 (rgb_to_a c.r c.g c.b)))
dither_pmul_to_bb8 bbrgb32 o_x o_y c d =
    let srca = u8 (rgb_to_a c.r c.g c.b) in
    by_alpha c.alpha (dithered_at o_x o_y (u8 (rgb_to_a c.r c.g c.b)))
      (dithered_at o_x o_y (over 0xff (inverse c.alpha) d.a srca))

unfoldable pub dither_pmulalpha_blit_from : BlitBuffer → BlitBuffer → Area → Outcome
unfolding dither_pmul_to_bb8 blit_pixels pmulalpha_blit_from
dither_pmulalpha_blit_from dst src a = elim (bb_type dst) [
  | some bb8 ↦ elim (bb_type src) [
    | none ↦ exited 1
    | some s ↦ done (blit_pixels s bb8 (dither_pmul_to_bb8 s) src dst a)
  ]
  | _ ↦ pmulalpha_blit_from dst src a
]
