-- ===== src/Stored/Laws.antt =====
-- One run over whole lines, and runs line by line.
use koreader_base.Prelude.{
  ℕ, ◌+◌, ◌-◌, ◌*◌, ◌≤◌, ◌<◌, ◌≡◌, refl, ◌∙◌, ap, ◌⊎◌, inl, inr, true, ◌&&◌, if◌then◌else◌, ltb,
  leb, u32, u64, arith, Bool-cases,
}
use koreader_base.Memory.{Bytes, PixelFormat}
use koreader_base.Buffer.{BlitBuffer}
use koreader_base.Buffer.Geometry.{IsValid, stored_at, mul_step, stored_inside}
use koreader_base.Stored.{StoredRect, full_width, run_lines, IsRun, PaintsStored}
use koreader_base.Stored.Runs.{run_pixels-IsRun}
use koreader_base.Stored.Lines.{InBounds, mul_le, lines-PaintsStored}

mul_le_left : (a b n : ℕ) → a ≤ b → n * a ≤ n * b
mul_le_left a b n h = grind arith

module _ {C : Type 0} (px : PixelFormat C) (f : ℕ → ℕ → C → C) (bb : BlitBuffer)
    (valid : IsValid px.size bb) where
  block_size : (n : ℕ) → bb.pixel_stride * n * px.size ≡ n * bb.stride
  block_size n = omega (arith, ap (λ (t : ℕ). t * n) valid.whole)

  block_at :
      (top d col : ℕ)
      → bb.stride * top + (d * bb.pixel_stride + col) * px.size ≡ stored_at bb px.size col (top + d)
  block_at top d col = omega (arith, ap (λ (t : ℕ). t * d) valid.whole)

  -- A run of `n` whole lines from line `top` on, whose steps are those of `f` in its columns.
  block_pixel :
      (g : ℕ → C → C) (top n col line : ℕ) (m m' : Bytes)
      → ((d k : ℕ) (c : C) → k < bb.w → g (d * bb.pixel_stride + k) c ≡ f k (top + d) c)
      → IsRun px g (bb.pixel_stride * n) (bb.stride * top) m m'
      → col < bb.w
      → line < bb.h
      → px.load m' (stored_at bb px.size col line) ≡ (
          if leb top line && ltb line (top + n)
          then f col line (px.load m (stored_at bb px.size col line))
          else px.load m (stored_at bb px.size col line))
  block_pixel g top n col line m m' agree run hc hl =
      elim (Bool-cases (leb top line && ltb line (top + n))) [
        | inl e ↦
            let hit : (top ≤ line) × (line < top + n) = ground arith in
            let d = line - top in
            let within : d * bb.pixel_stride + bb.pixel_stride ≤ n * bb.pixel_stride =
              mul_step d n bb.pixel_stride (omega arith) in
            let down : top + d ≡ line = omega arith in
            let same : bb.stride * top + (d * bb.pixel_stride + col) * px.size
                ≡ stored_at bb px.size col line =
              block_at top d col ∙ ap (stored_at bb px.size col) down in
            rw e (
              rw down at (
                rw same at (
                  run.hit (d * bb.pixel_stride + col) (omega (arith, valid.line))
                  ∙ agree d col _ hc)))
        | inr e ↦
            let off : (line < top) ⊎ (top + n ≤ line) = ground arith in
            let cell = (stored_inside px.size bb valid col line hc hl).0 in
            rw e (
              px.load_local m' m _ _ (λ k hk. run.outside (stored_at bb px.size col line + k) (
                ground (
                  arith,
                  block_size n,
                  mul_step line top bb.stride,
                  mul_le (top + n) line bb.stride,
                ))))
      ]

  -- Many lines at once: one run over whole lines, their padding included, paints the rectangle.
  pub block-PaintsStored :
      (g : ℕ → C → C) (r : StoredRect) (m' : Bytes)
      → full_width bb r ≡ true
      → InBounds bb r
      → ((d k : ℕ) (c : C) → k < bb.w → g (d * bb.pixel_stride + k) c ≡ f k (r.ry + d) c)
      → IsRun px g (bb.pixel_stride * r.rh) (bb.stride * r.ry) bb.bytes m'
      → PaintsStored px f bb r bb.bytes m'
  block-PaintsStored g r m' full bounds agree run = record {
    pixels = λ col line hc hl.
        ground (arith, block_pixel g r.ry r.rh col line bb.bytes m' agree run hc hl);
    beyond = λ a far.
        run.outside a
          (inr (omega (arith, block_size r.rh, mul_le (r.ry + r.rh) bb.h bb.stride bounds.1)));
  }

module _ {C : Type 0} (px : PixelFormat C) (bb : BlitBuffer) (valid : IsValid px.size bb) where
  -- Sizes and offsets of the runs do not wrap.
  pub block_fits :
      (r : StoredRect)
      → InBounds bb r
      → (u32 (bb.pixel_stride * r.rh) ≡ bb.pixel_stride * r.rh)
        × (u64 (bb.stride * r.ry) ≡ bb.stride * r.ry)
        × (u64 (bb.stride * r.rh) ≡ bb.stride * r.rh)
  block_fits r bounds =
      let wide : bb.pixel_stride * 1 ≤ bb.pixel_stride * px.size =
        mul_le_left 1 px.size bb.pixel_stride px.size_pos in
      let few : bb.pixel_stride * r.rh ≤ bb.stride * r.rh =
        mul_le bb.pixel_stride bb.stride r.rh (omega (arith, valid.whole)) in
      let above : r.ry * bb.stride ≤ bb.h * bb.stride = mul_le r.ry bb.h bb.stride (omega arith) in
      let inner : r.rh * bb.stride ≤ bb.h * bb.stride = mul_le r.rh bb.h bb.stride (omega arith) in
      (omega (arith, valid.fits), omega (arith, valid.fits), omega (arith, valid.fits))

  pub line_fits :
      (r : StoredRect) (j : ℕ)
      → j < bb.h
      → u64 (bb.stride * j) + r.rx * px.size ≡ stored_at bb px.size r.rx j
  line_fits r j h = omega (arith, valid.fits, mul_step j bb.h bb.stride h)

module _ {C : Type 0} (px : PixelFormat C) (f : C → C) (bb : BlitBuffer)
    (valid : IsValid px.size bb) where
  -- Both ways of `run_lines` paint the rectangle, the fast one over whole lines too.
  pub run_lines-PaintsStored :
      (r : StoredRect) (left : ℕ)
      → InBounds bb r
      → (0 < bb.h → left ≡ r.rx * px.size)
      → PaintsStored px (λ _ _. f) bb r bb.bytes (run_lines px f bb r left)
  unfolding run_lines
  run_lines-PaintsStored r left bounds at = elim (Bool-cases (full_width bb r)) [
    | inl e ↦
        let sizes = block_fits px bb valid r bounds in
        rw (e, run_lines)
          (rw (sizes.0, sizes.1)
            (block-PaintsStored px (λ _ _. f) bb valid (λ _. f) r _ e bounds (λ d k c h. refl)
              (run_pixels-IsRun px f (bb.pixel_stride * r.rh) (bb.stride * r.ry) bb.bytes)))
    | inr e ↦
        rw (e, run_lines)
          (lines-PaintsStored px (λ _ _. f) bb valid r _
            (λ j m lo hi h.
              rw (at (omega arith), line_fits px bb valid r j h) (run_pixels-IsRun px f r.rw _ m))
            bounds)
  ]
