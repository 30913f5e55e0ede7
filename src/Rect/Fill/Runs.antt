-- ===== src/Rect/Fill/Runs.antt =====
-- The `memset` and `memcpy` paths of the fills.
use koreader_base.Prelude.{
  ℕ, zero, suc, ◌+◌, ◌-◌, ◌^◌, ◌*◌, ◌<◌, ◌≤◌, ◌≡◌, refl, ap, inl, inr, Bool-cases, u32, u64, arith,
}
use koreader_base.Prelude.Loops.{for_range, for_u32}
use koreader_base.Color.{ColorRgb24}
use koreader_base.Memory.{Bytes, PixelFormat, memset}
use koreader_base.Memory.Formats.{format24}
use koreader_base.Buffer.{BlitBuffer}
use koreader_base.Buffer.Geometry.{IsValid, stored_at, mul_step}
use koreader_base.Stored.{StoredRect, full_width, run_pixels, IsRun, PaintsStored}
use koreader_base.Stored.Runs.{run_pixels-IsRun}
use koreader_base.Stored.Lines.{InBounds, lines-PaintsStored}
use koreader_base.Stored.Laws.{block-PaintsStored, block_fits, line_fits}
use koreader_base.Rect.Fill.{memset_lines, copy_pixels}

-- `memset` along lines, for a pixel type whose runs it writes.
module _ {C : Type 0} (px : PixelFormat C) (c : C) (v : ℕ)
    (memset-IsRun : (n p : ℕ) (m : Bytes) → IsRun px (λ _ _. c) n p m (memset m p v (n * px.size)))
    (bb : BlitBuffer) (valid : IsValid px.size bb) where
  memset_block :
      (r : StoredRect)
      → InBounds bb r
      → IsRun px
          (λ _ _. c)
          (bb.pixel_stride * r.rh)
          (bb.stride * r.ry)
          bb.bytes
          (memset bb.bytes (u64 (bb.stride * r.ry)) v (u64 (bb.stride * r.rh)))
  memset_block r bounds =
      let sizes = block_fits px bb valid r bounds in
      let whole : bb.stride * r.rh ≡ bb.pixel_stride * r.rh * px.size =
        omega (arith, ap (λ (t : ℕ). t * r.rh) valid.whole) in
      rw (sizes.1, sizes.2, whole)
        (memset-IsRun (bb.pixel_stride * r.rh) (bb.stride * r.ry) bb.bytes)

  memset_line :
      (r : StoredRect) (j : ℕ) (m : Bytes)
      → InBounds bb r
      → j < bb.h
      → IsRun px
          (λ _ _. c)
          r.rw
          (stored_at bb px.size r.rx j)
          m
          (memset m (u64 (bb.stride * j) + u32 (r.rx * px.size)) v (u32 (r.rw * px.size)))
  memset_line r j m bounds hj =
      let inner : j * bb.stride + bb.stride ≤ bb.h * bb.stride = mul_step j bb.h bb.stride hj in
      let left : r.rx * px.size ≤ bb.pixel_stride * px.size = grind (arith, valid.line) in
      let wide : r.rw * px.size ≤ bb.pixel_stride * px.size = grind (arith, valid.line) in
      let e : u32 (r.rx * px.size) ≡ r.rx * px.size = omega (arith, valid) in
      let e' : u32 (r.rw * px.size) ≡ r.rw * px.size = omega (arith, valid) in
      rw (e, e', line_fits px bb valid r j hj) (memset-IsRun r.rw (stored_at bb px.size r.rx j) m)

  pub memset_lines-PaintsStored :
      (r : StoredRect)
      → InBounds bb r
      → PaintsStored px (λ _ _ _. c) bb r bb.bytes (memset_lines bb r px.size v)
  unfolding memset_lines
  memset_lines-PaintsStored r bounds = elim (Bool-cases (full_width bb r)) [
    | inl e ↦
        rw (e, memset_lines)
          (block-PaintsStored px (λ _ _ _. c) bb valid (λ _ _. c) r _ e bounds (λ d k a h. refl)
            (memset_block r bounds))
    | inr e ↦
        rw (e, memset_lines)
          (lines-PaintsStored px (λ _ _ _. c) bb valid r _
            (λ j m lo hi hj. memset_line r j m bounds hj) bounds)
  ]

-- The RGB24 loop of BB_fill_rect_RGB32 is a run.
copy_line :
    (src : ColorRgb24) (base n x p : ℕ) (m : Bytes)
    → x * 3 + n * 3 < 2 ^ 32
    → base + x * 3 ≡ p
    → for_range n x (λ k. format24.store src (base + u32 (k * 3))) m
      ≡ run_pixels format24 (λ _. src) n p m
unfolding for_range run_pixels
copy_line src base zero x p m h e = refl
copy_line src base (suc n) x p m h e =
    let here : base + u32 (x * 3) ≡ p = omega arith in
    rw here (copy_line src base n (x + 1) (p + 3) _ (omega arith) (omega arith))

module _ (bb : BlitBuffer) (valid : IsValid 3 bb) (r : StoredRect) (bounds : InBounds bb r) where
  copy_step-IsRun :
      (src : ColorRgb24) (j : ℕ) (m : Bytes)
      → j < bb.h
      → IsRun format24
          (λ _ _. src)
          r.rw
          (stored_at bb 3 r.rx j)
          m
          (for_u32 r.rx r.rw (λ k. format24.store src (u64 (bb.stride * j) + u32 (k * 3))) m)
  unfolding for_u32
  copy_step-IsRun src j m hj =
      let inner : j * bb.stride + bb.stride ≤ bb.h * bb.stride = mul_step j bb.h bb.stride hj in
      let rounds : u32 (r.rx + r.rw) - r.rx ≡ r.rw = omega (arith, valid.w_u32) in
      rw
        (
          rounds,
          copy_line src (u64 (bb.stride * j)) r.rw r.rx (stored_at bb 3 r.rx j) m
              (omega (arith, valid)) (line_fits format24 bb valid r j hj),
        )
        (run_pixels-IsRun format24 (λ _. src) r.rw (stored_at bb 3 r.rx j) m)

  pub copy_pixels-PaintsStored :
      (src : ColorRgb24) → PaintsStored format24 (λ _ _ _. src) bb r bb.bytes (copy_pixels bb r src)
  unfolding copy_pixels
  copy_pixels-PaintsStored src =
      lines-PaintsStored format24 (λ _ _ _. src) bb valid r _
        (λ j m lo hi hj. copy_step-IsRun src j m hj) bounds
