-- ===== src/Rect/Fill/Whole.antt =====
-- BB_fill, on the whole screen.
use mathlib.Core.Path.{subst}
use koreader_base.Prelude.{ℕ, ◌*◌, ◌^◌, ◌<◌, ◌≡◌, refl, ap, some, u32, u64, arith}
use koreader_base.Color.{BbType, bb8, bb8a, bbrgb16, bbrgb24, bbrgb32}
use koreader_base.Memory.{Bytes, PixelFormat, memset}
use koreader_base.Memory.Formats.{format_of, format8, format8a, format16, format24, format32}
use koreader_base.Buffer.{BlitBuffer, bb_type, bb_rotation, get_width, get_height}
use koreader_base.Buffer.Geometry.{IsValid}
use koreader_base.Paint.{Repaints}
use koreader_base.Stored.{StoredRect, rotate_rect, run_pixels, IsRun, PaintsStored}
use koreader_base.Stored.Runs.{run_pixels-IsRun, memset8-IsRun, memset24-IsRun}
use koreader_base.Stored.Laws.{block-PaintsStored, block_fits}
use koreader_base.Stored.Screen.{PaintsStored-Repaints}
use koreader_base.Rect.Fill.{fill}
use koreader_base.Rect.Fill.Laws.{grey_of, fill8a_lem, fill16_lem, fill32_lem}

-- The stored image as a rectangle.
abbrev image : BlitBuffer → StoredRect
image bb = record { rx = 0; ry = 0; rw = bb.w; rh = bb.h }

rotate_whole :
    (bb : BlitBuffer)
    → bb.w < 2 ^ 32
    → bb.h < 2 ^ 32
    → rotate_rect bb (bb_rotation bb) 0 0 (get_width bb) (get_height bb) ≡ image bb
unfolding rotate_rect get_width get_height
rotate_whole bb hw hh = ground arith

module _ {C : Type 0} (px : PixelFormat C) (bb : BlitBuffer) (valid : IsValid px.size bb)
    (c : C) where
  -- A run over all pixels, padding included, paints the image.
  run-PaintsStored :
      (m : Bytes)
      → IsRun px (λ _ _. c) (bb.pixel_stride * bb.h) 0 bb.bytes m
      → PaintsStored px (λ _ _ _. c) bb (image bb) bb.bytes m
  run-PaintsStored m run =
      block-PaintsStored px (λ _ _ _. c) bb valid (λ _ _. c) (image bb) m (ground arith)
        (omega arith) (λ d k a h. refl)
        (subst (λ (p : ℕ). IsRun px (λ _ _. c) (bb.pixel_stride * bb.h) p bb.bytes m) (omega arith)
          run)

  loop-PaintsStored :
      PaintsStored px
        (λ _ _ _. c)
        bb
        (image bb)
        bb.bytes
        (run_pixels px (λ _. c) (u32 (bb.pixel_stride * bb.h)) 0 bb.bytes)
  loop-PaintsStored =
      rw ((block_fits px bb valid (image bb) (omega arith)).0)
        (run-PaintsStored _ (run_pixels-IsRun px (λ _. c) (bb.pixel_stride * bb.h) 0 bb.bytes))

  memset-PaintsStored :
      (v : ℕ)
      → IsRun px
          (λ _ _. c)
          (bb.pixel_stride * bb.h)
          0
          bb.bytes
          (memset bb.bytes 0 v (bb.pixel_stride * bb.h * px.size))
      → PaintsStored px
          (λ _ _ _. c)
          bb
          (image bb)
          bb.bytes
          (memset bb.bytes 0 v (u64 (bb.stride * bb.h)))
  memset-PaintsStored v run =
      let whole : bb.stride * bb.h ≡ bb.pixel_stride * bb.h * px.size =
        omega (arith, ap (λ (t : ℕ). t * bb.h) valid.whole) in
      let all : u64 (bb.stride * bb.h) ≡ bb.pixel_stride * bb.h * px.size =
        omega (arith, valid.fits) in
      rw all (run-PaintsStored _ run)

fill-PaintsStored :
    (bb : BlitBuffer) (t : BbType)
    → bb_type bb ≡ some t
    → IsValid (format_of t).size bb
    → (v : ℕ) → v < 256
    → PaintsStored (format_of t) (λ _ _ _. grey_of t v) bb (image bb) bb.bytes (fill bb v)
unfolding fill
fill-PaintsStored bb bb8 typed valid v hv =
    rw (typed, fill)
      (memset-PaintsStored format8 bb valid (grey_of bb8 v) v (memset8-IsRun _ 0 v bb.bytes))
fill-PaintsStored bb bb8a typed valid v hv =
    rw (typed, fill, fill8a_lem v hv) (loop-PaintsStored format8a bb valid (grey_of bb8a v))
fill-PaintsStored bb bbrgb16 typed valid v hv =
    rw (typed, fill, fill16_lem v hv) (loop-PaintsStored format16 bb valid (grey_of bbrgb16 v))
fill-PaintsStored bb bbrgb24 typed valid v hv =
    rw (typed, fill)
      (memset-PaintsStored format24 bb valid (grey_of bbrgb24 v) v (memset24-IsRun _ 0 v bb.bytes))
fill-PaintsStored bb bbrgb32 typed valid v hv =
    rw (typed, fill, fill32_lem v hv) (loop-PaintsStored format32 bb valid (grey_of bbrgb32 v))

-- For a well-formed buffer and a byte `v`, BB_fill shows the opaque grey `v` at every pixel of the
-- screen and changes nothing behind the last line.
pub fill-Repaints :
    (bb : BlitBuffer) (t : BbType)
    → bb_type bb ≡ some t
    → IsValid (format_of t).size bb
    → (v : ℕ) → v < 256
    → Repaints
        (format_of t)
        bb
        0
        0
        (get_width bb)
        (get_height bb)
        (λ i j d. some (grey_of t v))
        (fill bb v)
fill-Repaints bb t typed valid v hv =
    PaintsStored-Repaints (format_of t) (λ _. grey_of t v) bb valid 0 0 (get_width bb)
      (get_height bb) (omega arith) _
      (rw (rotate_whole bb valid.w_u32 valid.h_u32) (fill-PaintsStored bb t typed valid v hv))
