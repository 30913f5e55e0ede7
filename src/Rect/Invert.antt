-- ===== src/Rect/Invert.antt =====
-- BB_invert_rect: one pixel by clauses, and the runs over the rectangle.
pub mod Laws
use koreader_base.Prelude.{ℕ, ◌*◌, none, some, bit_xor, u8, u16, u32}
use koreader_base.Color.{BbType, ColorOf, bb8, bb8a, bbrgb16, bbrgb24, bbrgb32}
use koreader_base.Color.Convert.{color8a_to_word, word_to_color8a, color32_to_word, word_to_color32}
use koreader_base.Memory.{Bytes}
use koreader_base.Memory.Formats.{format_of}
use koreader_base.Buffer.{BlitBuffer, bb_type, bb_rotation}
use koreader_base.Stored.{rotate_rect, run_lines}

-- `*p++ ^= mask`, on a byte, a 16-bit or a 32-bit word, or three bytes in turn.
unfoldable pub invert_pixel : (t : BbType) → ColorOf t → ColorOf t
unfolding color8a_to_word word_to_color8a color32_to_word word_to_color32
invert_pixel bb8 d = record { a = u8 (bit_xor d.a 0xff) }
invert_pixel bb8a d = word_to_color8a (bit_xor (color8a_to_word d) 0x00ff)
invert_pixel bbrgb16 d = record { v = u16 (bit_xor d.v 0xffff) }
invert_pixel bbrgb24 d = record {
  r = u8 (bit_xor d.r 0xff);
  g = u8 (bit_xor d.g 0xff);
  b = u8 (bit_xor d.b 0xff);
}
invert_pixel bbrgb32 d = word_to_color32 (bit_xor (color32_to_word d) 0x00ffffff)

-- From the start of a line to its first pixel. Only the three bytes of RGB24 are scaled in
-- `unsigned int`; elsewhere the pointer's type does it.
unfoldable pub first_pixel : BbType → ℕ → ℕ
first_pixel bb8 rx = rx * 1
first_pixel bb8a rx = rx * 2
first_pixel bbrgb16 rx = rx * 2
first_pixel bbrgb24 rx = u32 (rx * 3)
first_pixel bbrgb32 rx = rx * 4

unfoldable pub invert_rect : BlitBuffer → ℕ → ℕ → ℕ → ℕ → Bytes
unfolding invert_pixel first_pixel run_lines rotate_rect
invert_rect bb x y w h =
    let r = rotate_rect bb (bb_rotation bb) x y w h in
    elim (bb_type bb) [
      | none ↦ bb.bytes
      | some t ↦ run_lines (format_of t) (invert_pixel t) bb r (first_pixel t r.rx)
    ]
