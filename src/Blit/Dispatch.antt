-- ===== src/Blit/Dispatch.antt =====
-- BB_blit_to, for every pair of pixel types.
use koreader_base.Prelude.{◌≡◌, some}
use koreader_base.Color.{BbType, bb8, bb8a, bbrgb16, bbrgb24, bbrgb32}
use koreader_base.Memory.Formats.{format_of}
use koreader_base.Buffer.{BlitBuffer, bb_type}
use koreader_base.Buffer.Geometry.{IsValid}
use koreader_base.Blit.{
  Area, blit_to_bb8, blit_to_bb8a, blit_to_bb16, blit_to_bb24, blit_to_bb32, blit_to,
}
use koreader_base.Blit.Convert.{convert}
use koreader_base.Blit.Laws.{FitsBoth, Blits, blit_pixels-Blits}
use koreader_base.Blit.Fast.{copy_bb8-Blits, copy_bb32-Blits}

module _ (src dst : BlitBuffer) (a : Area) (fits : FitsBoth src dst a) where
  blit_to_bb8-Blits :
      (s : BbType)
      → bb_type src ≡ some s
      → IsValid (format_of s).size src
      → IsValid 1 dst
      → Blits s bb8 (λ _ _ c d. some (convert s bb8 c d)) src dst a (blit_to_bb8 src dst a)
  unfolding blit_to_bb8
  blit_to_bb8-Blits bb8 typed valid_src valid_dst =
      rw (typed, blit_to_bb8) (copy_bb8-Blits src dst valid_src valid_dst a fits)
  blit_to_bb8-Blits bb8a typed valid_src valid_dst =
      rw (typed, blit_to_bb8)
        (blit_pixels-Blits bb8a bb8 src dst valid_src valid_dst a fits
          (λ _ _ c d. some (convert bb8a bb8 c d)))
  blit_to_bb8-Blits bbrgb16 typed valid_src valid_dst =
      rw (typed, blit_to_bb8)
        (blit_pixels-Blits bbrgb16 bb8 src dst valid_src valid_dst a fits
          (λ _ _ c d. some (convert bbrgb16 bb8 c d)))
  blit_to_bb8-Blits bbrgb24 typed valid_src valid_dst =
      rw (typed, blit_to_bb8)
        (blit_pixels-Blits bbrgb24 bb8 src dst valid_src valid_dst a fits
          (λ _ _ c d. some (convert bbrgb24 bb8 c d)))
  blit_to_bb8-Blits bbrgb32 typed valid_src valid_dst =
      rw (typed, blit_to_bb8)
        (blit_pixels-Blits bbrgb32 bb8 src dst valid_src valid_dst a fits
          (λ _ _ c d. some (convert bbrgb32 bb8 c d)))

  pub blit_to_bb8a-Blits :
      (s : BbType)
      → bb_type src ≡ some s
      → IsValid (format_of s).size src
      → IsValid 2 dst
      → Blits s bb8a (λ _ _ c d. some (convert s bb8a c d)) src dst a (blit_to_bb8a src dst a)
  unfolding blit_to_bb8a
  blit_to_bb8a-Blits s typed valid_src valid_dst =
      rw (typed, blit_to_bb8a)
        (blit_pixels-Blits s bb8a src dst valid_src valid_dst a fits
          (λ _ _ c d. some (convert s bb8a c d)))

  pub blit_to_bb16-Blits :
      (s : BbType)
      → bb_type src ≡ some s
      → IsValid (format_of s).size src
      → IsValid 2 dst
      → Blits s bbrgb16 (λ _ _ c d. some (convert s bbrgb16 c d)) src dst a (blit_to_bb16 src dst a)
  unfolding blit_to_bb16
  blit_to_bb16-Blits s typed valid_src valid_dst =
      rw (typed, blit_to_bb16)
        (blit_pixels-Blits s bbrgb16 src dst valid_src valid_dst a fits
          (λ _ _ c d. some (convert s bbrgb16 c d)))

  pub blit_to_bb24-Blits :
      (s : BbType)
      → bb_type src ≡ some s
      → IsValid (format_of s).size src
      → IsValid 3 dst
      → Blits s bbrgb24 (λ _ _ c d. some (convert s bbrgb24 c d)) src dst a (blit_to_bb24 src dst a)
  unfolding blit_to_bb24
  blit_to_bb24-Blits s typed valid_src valid_dst =
      rw (typed, blit_to_bb24)
        (blit_pixels-Blits s bbrgb24 src dst valid_src valid_dst a fits
          (λ _ _ c d. some (convert s bbrgb24 c d)))

  pub blit_to_bb32-Blits :
      (s : BbType)
      → bb_type src ≡ some s
      → IsValid (format_of s).size src
      → IsValid 4 dst
      → Blits s bbrgb32 (λ _ _ c d. some (convert s bbrgb32 c d)) src dst a (blit_to_bb32 src dst a)
  unfolding blit_to_bb32
  blit_to_bb32-Blits bb8 typed valid_src valid_dst =
      rw (typed, blit_to_bb32)
        (blit_pixels-Blits bb8 bbrgb32 src dst valid_src valid_dst a fits
          (λ _ _ c d. some (convert bb8 bbrgb32 c d)))
  blit_to_bb32-Blits bb8a typed valid_src valid_dst =
      rw (typed, blit_to_bb32)
        (blit_pixels-Blits bb8a bbrgb32 src dst valid_src valid_dst a fits
          (λ _ _ c d. some (convert bb8a bbrgb32 c d)))
  blit_to_bb32-Blits bbrgb16 typed valid_src valid_dst =
      rw (typed, blit_to_bb32)
        (blit_pixels-Blits bbrgb16 bbrgb32 src dst valid_src valid_dst a fits
          (λ _ _ c d. some (convert bbrgb16 bbrgb32 c d)))
  blit_to_bb32-Blits bbrgb24 typed valid_src valid_dst =
      rw (typed, blit_to_bb32)
        (blit_pixels-Blits bbrgb24 bbrgb32 src dst valid_src valid_dst a fits
          (λ _ _ c d. some (convert bbrgb24 bbrgb32 c d)))
  blit_to_bb32-Blits bbrgb32 typed valid_src valid_dst =
      rw (typed, blit_to_bb32) (copy_bb32-Blits src dst valid_src valid_dst a fits)

  -- For well-formed buffers of any two types and rectangles on their screens, BB_blit_to shows in
  -- the destination rectangle the source pixels, converted, each at its place, whichever of its
  -- paths runs; no other pixel and nothing behind the last line changes.
  pub blit_to-Blits :
      (s t : BbType)
      → bb_type src ≡ some s
      → bb_type dst ≡ some t
      → IsValid (format_of s).size src
      → IsValid (format_of t).size dst
      → Blits s t (λ _ _ c d. some (convert s t c d)) src dst a (blit_to src dst a)
  unfolding blit_to
  blit_to-Blits s bb8 typed typed_dst valid_src valid_dst =
      rw (typed_dst, blit_to) (blit_to_bb8-Blits s typed valid_src valid_dst)
  blit_to-Blits s bb8a typed typed_dst valid_src valid_dst =
      rw (typed_dst, blit_to) (blit_to_bb8a-Blits s typed valid_src valid_dst)
  blit_to-Blits s bbrgb16 typed typed_dst valid_src valid_dst =
      rw (typed_dst, blit_to) (blit_to_bb16-Blits s typed valid_src valid_dst)
  blit_to-Blits s bbrgb24 typed typed_dst valid_src valid_dst =
      rw (typed_dst, blit_to) (blit_to_bb24-Blits s typed valid_src valid_dst)
  blit_to-Blits s bbrgb32 typed typed_dst valid_src valid_dst =
      rw (typed_dst, blit_to) (blit_to_bb32-Blits s typed valid_src valid_dst)
