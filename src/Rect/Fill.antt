-- ===== src/Rect/Fill.antt =====
-- BB_fill, BB_fill_rect and BB_fill_rect_RGB32, with a clause for each case of the `switch`.
pub mod Runs
pub mod Laws
pub mod Whole
use koreader_base.Prelude.{ℕ, ◌+◌, ◌*◌, none, some, u8, u16, u32, u64, if◌then◌else◌}
use koreader_base.Prelude.Loops.{for_u32}
use koreader_base.Color.{
  Color8, Color8A, ColorRgb16, ColorRgb24, ColorRgb32, BbType, bb8, bb8a, bbrgb16, bbrgb24, bbrgb32,
}
use koreader_base.Color.Convert.{
  rgb_to_a, rgb_to_rgb16, y8_to_y8a, y8_to_rgb32, word_to_color8a, word_to_color32,
  color32_to_color16, color32_to_color24,
}
use koreader_base.Memory.{Bytes, memset}
use koreader_base.Memory.Formats.{format8a, format16, format24, format32}
use koreader_base.Buffer.{BlitBuffer, bb_type, bb_rotation}
use koreader_base.Stored.{StoredRect, rotate_rect, full_width, run_pixels, run_lines}

-- The pixels that a packed grey is written as.
unfoldable pub fill8a : ℕ → Color8A
unfolding word_to_color8a y8_to_y8a
fill8a v = word_to_color8a (u16 (y8_to_y8a v))

unfoldable pub fill16 : ℕ → ColorRgb16
unfolding rgb_to_rgb16
fill16 v = record { v = u16 (rgb_to_rgb16 v v v) }

unfoldable pub fill32 : ℕ → ColorRgb32
unfolding word_to_color32 y8_to_rgb32
fill32 v = word_to_color32 (u32 (y8_to_rgb32 v))

-- `memset` over a rectangle of pixels of `size` bytes, in one call or line by line.
unfoldable pub memset_lines : BlitBuffer → StoredRect → ℕ → ℕ → Bytes
unfolding memset for_u32
memset_lines bb r size v =
    if full_width bb r
    then memset bb.bytes (u64 (bb.stride * r.ry)) v (u64 (bb.stride * r.rh))
    else for_u32 r.ry r.rh
        (λ j m. memset m (u64 (bb.stride * j) + u32 (r.rx * size)) v (u32 (r.rw * size))) bb.bytes

-- BB_fill: the whole buffer, padding included.
unfoldable pub fill : BlitBuffer → ℕ → Bytes
unfolding memset run_pixels fill8a fill16 fill32
fill bb v = elim (bb_type bb) [
  | none ↦ bb.bytes
  | some bb8 ↦ memset bb.bytes 0 v (u64 (bb.stride * bb.h))
  | some bb8a ↦ run_pixels format8a (λ _. fill8a v) (u32 (bb.pixel_stride * bb.h)) 0 bb.bytes
  | some bbrgb16 ↦ run_pixels format16 (λ _. fill16 v) (u32 (bb.pixel_stride * bb.h)) 0 bb.bytes
  | some bbrgb24 ↦ memset bb.bytes 0 v (u64 (bb.stride * bb.h))
  | some bbrgb32 ↦ run_pixels format32 (λ _. fill32 v) (u32 (bb.pixel_stride * bb.h)) 0 bb.bytes
]

-- BB_fill_rect
unfoldable pub fill_rect : BlitBuffer → ℕ → ℕ → ℕ → ℕ → ℕ → Bytes
unfolding memset_lines run_lines rotate_rect fill8a fill16 fill32
fill_rect bb x y w h v =
    let r = rotate_rect bb (bb_rotation bb) x y w h in
    elim (bb_type bb) [
      | none ↦ bb.bytes
      | some bb8 ↦ memset_lines bb r 1 v
      | some bb8a ↦ run_lines format8a (λ _. fill8a v) bb r (r.rx * 2)
      | some bbrgb16 ↦ run_lines format16 (λ _. fill16 v) bb r (r.rx * 2)
      | some bbrgb24 ↦ memset_lines bb r 3 v
      | some bbrgb32 ↦ run_lines format32 (λ _. fill32 v) bb r (r.rx * 4)
    ]

-- The RGB24 case of BB_fill_rect_RGB32: every pixel by a `memcpy` of three bytes.
unfoldable pub copy_pixels : BlitBuffer → StoredRect → ColorRgb24 → Bytes
unfolding for_u32
copy_pixels bb r src =
    for_u32 r.ry r.rh
      (λ j. for_u32 r.rx r.rw (λ k. format24.store src (u64 (bb.stride * j) + u32 (k * 3))))
      bb.bytes

-- BB_fill_rect_RGB32
unfoldable pub fill_rect_rgb32 : BlitBuffer → ℕ → ℕ → ℕ → ℕ → ColorRgb32 → Bytes
unfolding memset_lines run_lines rotate_rect fill8a copy_pixels rgb_to_a color32_to_color16
    color32_to_color24
fill_rect_rgb32 bb x y w h color =
    let r = rotate_rect bb (bb_rotation bb) x y w h in
    let source_y8 = u8 (rgb_to_a color.r color.g color.b) in
    elim (bb_type bb) [
      | none ↦ bb.bytes
      | some bb8 ↦ memset_lines bb r 1 source_y8
      | some bb8a ↦
          run_lines format8a (λ _. fill8a (rgb_to_a color.r color.g color.b)) bb r (r.rx * 2)
      | some bbrgb16 ↦ run_lines format16 (λ _. color32_to_color16 color) bb r (r.rx * 2)
      | some bbrgb24 ↦ copy_pixels bb r (color32_to_color24 color)
      | some bbrgb32 ↦ run_lines format32 (λ _. color) bb r (r.rx * 4)
    ]
