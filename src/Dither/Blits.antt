-- ===== src/Dither/Blits.antt =====
-- BB_dither_blit_to, for every pair of pixel types.
use koreader_base.Prelude.{ℕ, ◌≡◌, Option, some}
use koreader_base.Color.{BbType, ColorOf, bb8, bb8a, bbrgb16, bbrgb24, bbrgb32}
use koreader_base.Memory.Formats.{format_of}
use koreader_base.Buffer.{BlitBuffer, bb_type}
use koreader_base.Buffer.Geometry.{IsValid}
use koreader_base.Blit.{Area, blit_to}
use koreader_base.Blit.Convert.{convert, luma}
use koreader_base.Blit.Laws.{FitsBoth, Blits, blit_pixels-Blits}
use koreader_base.Blit.Dispatch.{
  blit_to_bb8a-Blits, blit_to_bb16-Blits, blit_to_bb24-Blits, blit_to_bb32-Blits,
}
use koreader_base.Dither.{dither_o8x8, dither_blit_to_bb8, dither_blit_to}

-- A BB8 destination gets the dithered luminance, and any other the plain conversion.
abbrev pub dithered : (s t : BbType) → ℕ → ℕ → ColorOf s → ColorOf t → Option (ColorOf t)
dithered s bb8 o_x o_y c d = some (record { a = dither_o8x8 o_x o_y (luma s c) })
dithered s bb8a o_x o_y c d = some (convert s bb8a c d)
dithered s bbrgb16 o_x o_y c d = some (convert s bbrgb16 c d)
dithered s bbrgb24 o_x o_y c d = some (convert s bbrgb24 c d)
dithered s bbrgb32 o_x o_y c d = some (convert s bbrgb32 c d)

module _ (src dst : BlitBuffer) (a : Area) (fits : FitsBoth src dst a) where
  -- For well-formed buffers of any two types and rectangles on their screens, BB_dither_blit_to
  -- shows in the destination rectangle the source pixels, dithered at their source positions for
  -- a BB8 destination and converted for the others; no other pixel and nothing behind the last
  -- line changes.
  pub dither_blit_to-Blits :
      (s t : BbType)
      → bb_type src ≡ some s
      → bb_type dst ≡ some t
      → IsValid (format_of s).size src
      → IsValid (format_of t).size dst
      → Blits s t (dithered s t) src dst a (dither_blit_to src dst a)
  unfolding dither_blit_to dither_blit_to_bb8 blit_to
  dither_blit_to-Blits s bb8 typed typed_dst valid_src valid_dst =
      rw (typed_dst, typed, dither_blit_to, dither_blit_to_bb8)
        (blit_pixels-Blits s bb8 src dst valid_src valid_dst a fits (dithered s bb8))
  dither_blit_to-Blits s bb8a typed typed_dst valid_src valid_dst =
      rw (typed_dst, dither_blit_to) (blit_to_bb8a-Blits src dst a fits s typed valid_src valid_dst)
  dither_blit_to-Blits s bbrgb16 typed typed_dst valid_src valid_dst =
      rw (typed_dst, dither_blit_to) (blit_to_bb16-Blits src dst a fits s typed valid_src valid_dst)
  dither_blit_to-Blits s bbrgb24 typed typed_dst valid_src valid_dst =
      rw (typed_dst, dither_blit_to) (blit_to_bb24-Blits src dst a fits s typed valid_src valid_dst)
  dither_blit_to-Blits s bbrgb32 typed typed_dst valid_src valid_dst =
      rw (typed_dst, dither_blit_to) (blit_to_bb32-Blits src dst a fits s typed valid_src valid_dst)
