-- ===== src/Compose/Negate.antt =====
-- BB_invert_blit_from: the negative of the source.
use koreader_base.Prelude.{none, some, if◌then◌else◌, ◌==◌, bit_xor, u8, u16}
use koreader_base.Color.{BbType, ColorOf, bb8, bb8a, bbrgb16, bbrgb24, bbrgb32}
use koreader_base.Color.Convert.{color32_to_word, word_to_color32}
use koreader_base.Buffer.{BlitBuffer, type_bits, bb_type}
use koreader_base.Blit.{Area, blit_pixels}
use koreader_base.Outcome.{Outcome, done, exited}

-- One pixel. A BB8A destination keeps its alpha; an RGB32 one gets the source's.
unfoldable pub negate_pixel : (t : BbType) → ColorOf t → ColorOf t → ColorOf t
unfolding color32_to_word word_to_color32
negate_pixel bb8 c d = record { a = u8 (bit_xor c.a 0xff) }
negate_pixel bb8a c d = record d { a = u8 (bit_xor c.a 0xff) }
negate_pixel bbrgb16 c d = record { v = u16 (bit_xor c.v 0xffff) }
negate_pixel bbrgb24 c d = record {
  r = u8 (bit_xor c.r 0xff);
  g = u8 (bit_xor c.g 0xff);
  b = u8 (bit_xor c.b 0xff);
}
negate_pixel bbrgb32 c d = word_to_color32 (bit_xor (color32_to_word c) 0x00ffffff)

unfoldable pub invert_blit_from : BlitBuffer → BlitBuffer → Area → Outcome
unfolding negate_pixel blit_pixels
invert_blit_from dst src a =
    if type_bits dst == type_bits src
    then elim (bb_type dst) [
      | none ↦ done dst.bytes
      | some t ↦ done (blit_pixels t t (λ _ _ c d. some (negate_pixel t c d)) src dst a)
    ]
    else exited 1
