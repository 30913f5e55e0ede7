-- ===== src/Blit/Copy.antt =====
-- The `memcpy` paths of BB_blit_to_BB8 and BB_blit_to_BB32, against the loops by pixel.
use koreader_base.Prelude.{ℕ, ◌+◌, ◌-◌, ◌*◌, ◌≤◌, ◌<◌, ◌≡◌, sym, ap, true, some, arith}
use koreader_base.Prelude.Loops.{for_u32}
use koreader_base.Color.{BbType, ColorOf}
use koreader_base.Memory.{Bytes, memcpy}
use koreader_base.Memory.Formats.{format_of}
use koreader_base.Buffer.{BlitBuffer, Rotation, deg0, bb_rotation, get_width, get_height}
use koreader_base.Buffer.Geometry.{IsValid, stored_at}
use koreader_base.Paint.Laws.{Repaints-congr}
use koreader_base.Stored.{StoredRect, IsRun, PaintsStored}
use koreader_base.Stored.Runs.{memcpy-IsRun, IsRun-congr}
use koreader_base.Stored.Lines.{lines-PaintsStored}
use koreader_base.Stored.Laws.{block-PaintsStored}
use koreader_base.Stored.Screen.{flat_offset, unrotated-Repaints}
use koreader_base.Blit.{Area, is_deg0}
use koreader_base.Blit.Laws.{FitsBoth, Blits}

pub is_deg0→≡ : (r : Rotation) → is_deg0 r ≡ true → r ≡ deg0
is_deg0→≡ r h = ground arith

-- Neither buffer is rotated; `t` is the type of both.
module _ (t : BbType) (src dst : BlitBuffer) (valid_src : IsValid (format_of t).size src)
    (valid_dst : IsValid (format_of t).size dst) (flat_src : bb_rotation src ≡ deg0)
    (flat_dst : bb_rotation dst ≡ deg0) (a : Area) (fits : FitsBoth src dst a) where
  -- The stored source pixel for each column and line of the destination.
  abbrev pub from_stored : ℕ → ℕ → ColorOf t → ColorOf t
  from_stored col line c = (format_of t).load src.bytes (
      stored_at src (format_of t).size (a.offs_x + (col - a.dest_x)) (a.offs_y + (line - a.dest_y)))

  abbrev pub dest_rect : StoredRect
  dest_rect = record { rx = a.dest_x; ry = a.dest_y; rw = a.w; rh = a.h }

  pub flat_fits :
      (a.offs_x + a.w ≤ src.w)
      × (a.offs_y + a.h ≤ src.h)
      × (a.dest_x + a.w ≤ dst.w)
      × (a.dest_y + a.h ≤ dst.h)
  unfolding get_width get_height
  flat_fits = ground (arith, flat_src, flat_dst)

  -- Painting from the stored source is a blit.
  pub stored-Blits :
      (m : Bytes)
      → PaintsStored (format_of t) from_stored dst dest_rect dst.bytes m
      → Blits t t (λ _ _ c d. some c) src dst a m
  stored-Blits m painted =
      Repaints-congr (format_of t) dst a.dest_x a.dest_y a.w a.h _ _ m
        (λ i j c lo_x hi_x lo_y hi_y.
          ap (λ (p : ℕ). some ((format_of t).load src.bytes p))
            (sym (
              flat_offset (format_of t) src valid_src flat_src (a.offs_x + (i - a.dest_x))
                (a.offs_y + (j - a.dest_y)) (omega (arith, fits.0)))))
        (unrotated-Repaints (format_of t) from_stored dst valid_dst flat_dst a.dest_x a.dest_y a.w
          a.h m painted)

  -- One line, copied from the line of the source beside it.
  pub line-IsRun :
      (j : ℕ) (m : Bytes)
      → IsRun
          (format_of t)
          (λ k. from_stored (a.dest_x + k) j)
          a.w
          (stored_at dst (format_of t).size a.dest_x j)
          m
          (memcpy m
            (stored_at dst (format_of t).size a.dest_x j)
            src.bytes
            (stored_at src (format_of t).size a.offs_x (a.offs_y + (j - a.dest_y)))
            (a.w * (format_of t).size))
  line-IsRun j m =
      IsRun-congr (format_of t) _ (λ k. from_stored (a.dest_x + k) j) a.w _ m _
        (λ k c h.
          ap ((format_of t).load src.bytes)
            (let step : a.dest_x + k - a.dest_x ≡ k = omega arith in rw step (omega arith)))
        (memcpy-IsRun (format_of t) a.w _ _ m src.bytes)

  -- All lines at once, where both buffers are exactly as wide as the rectangle.
  block-IsRun :
      a.offs_x ≡ 0
      → a.dest_x ≡ 0
      → src.stride ≡ dst.stride
      → (d k : ℕ) (c : ColorOf t)
      → (format_of t).load src.bytes
          (src.stride * a.offs_y + (d * dst.pixel_stride + k) * (format_of t).size)
        ≡ from_stored k (a.dest_y + d) c
  block-IsRun zero_offs zero_dest strides d k c = ap ((format_of t).load src.bytes) (
      let step : a.dest_y + d - a.dest_y ≡ d = omega arith in
      let col : a.offs_x + (k - a.dest_x) ≡ k = omega arith in
      rw (step, col)
        (omega (arith, ap (λ (n : ℕ). n * d) valid_dst.whole, ap (λ (n : ℕ). n * d) strides)))

  -- Both ways of copying are a blit, for any pixel type.
  pub lines-Blits :
      (step : ℕ → Bytes → Bytes)
      → ((j : ℕ) (m : Bytes)
          → a.dest_y ≤ j
          → j < a.dest_y + a.h
          → step j m
            ≡ memcpy m
                (stored_at dst (format_of t).size a.dest_x j)
                src.bytes
                (stored_at src (format_of t).size a.offs_x (a.offs_y + (j - a.dest_y)))
                (a.w * (format_of t).size))
      → Blits t t (λ _ _ c d. some c) src dst a (for_u32 a.dest_y a.h step dst.bytes)
  lines-Blits step step-eq = stored-Blits _ (
      lines-PaintsStored (format_of t) from_stored dst valid_dst dest_rect step
        (λ j m lo hi hj. rw (step-eq j m lo hi) (line-IsRun j m)) (flat_fits.2, flat_fits.3))

  pub full-Blits :
      a.offs_x ≡ 0
      → a.dest_x ≡ 0
      → a.w ≡ dst.w
      → src.stride ≡ dst.stride
      → Blits t t
          (λ _ _ c d. some c)
          src
          dst
          a
          (memcpy dst.bytes
            (dst.stride * a.dest_y)
            src.bytes
            (src.stride * a.offs_y)
            (dst.pixel_stride * a.h * (format_of t).size))
  full-Blits zero_offs zero_dest wide strides = stored-Blits _ (
      block-PaintsStored (format_of t) from_stored dst valid_dst _ dest_rect _ (ground arith)
        (flat_fits.2, flat_fits.3) (λ d k c h. block-IsRun zero_offs zero_dest strides d k c)
        (memcpy-IsRun (format_of t) (dst.pixel_stride * a.h) (dst.stride * a.dest_y)
          (src.stride * a.offs_y) dst.bytes src.bytes))
