-- ===== src/Stored/Lines.antt =====
-- A loop that runs along the lines of a rectangle of the stored image.
use native.Mathlib.Nat.{le_refl}
use koreader_base.Prelude.{
  ℕ, zero, suc, ◌+◌, ◌-◌, ◌*◌, ◌≤◌, ◌<◌, ◌≡◌, ◌≢◌, refl, ◌∙◌, ap, ◌⊎◌, inl, inr, ◌&&◌,
  if◌then◌else◌, ltb, leb, ◌==◌, u32, arith, Bool-cases,
}
use koreader_base.Prelude.Loops.{for_range, for_u32}
use koreader_base.Memory.{Bytes, PixelFormat}
use koreader_base.Buffer.{BlitBuffer}
use koreader_base.Buffer.Geometry.{IsValid, stored_at, mul_step, stored_inside}
use koreader_base.Paint.{inside}
use koreader_base.Stored.{StoredRect, IsRun, PaintsStored}

-- The rectangle lies in the stored image.
abbrev pub InBounds : BlitBuffer → StoredRect → Type 0
InBounds bb r = (r.rx + r.rw ≤ bb.w) × (r.ry + r.rh ≤ bb.h)

pub mul_le : (a b n : ℕ) → a ≤ b → a * n ≤ b * n
mul_le a b n h = grind arith

module _ {C : Type 0} (px : PixelFormat C) (f : ℕ → ℕ → C → C) (bb : BlitBuffer)
    (valid : IsValid px.size bb) where
  -- A pixel that is not in the run lies before or behind it.
  line_apart :
      (n x y col line : ℕ)
      → x + n ≤ bb.w
      → y < bb.h
      → col < bb.w
      → line < bb.h
      → (col < x) ⊎ (x + n ≤ col) ⊎ (y ≢ line)
      → (stored_at bb px.size col line + px.size ≤ stored_at bb px.size x y)
        ⊎ (stored_at bb px.size x y + n * px.size ≤ stored_at bb px.size col line)
  line_apart n x y col line hx hy hc hl off =
      let row : (x + n) * px.size ≤ bb.pixel_stride * px.size =
        mul_le (x + n) bb.pixel_stride px.size (omega (arith, valid.line)) in
      let cell = (stored_inside px.size bb valid col line hc hl).0 in
      ground (
        arith,
        valid.whole,
        row,
        cell,
        mul_step line y bb.stride,
        mul_step y line bb.stride,
        mul_step col x px.size,
        mul_le (x + n) col px.size,
      )

  -- One line: a run of `n` pixels from column `x` of line `y`.
  line_pixel :
      (n x y col line : ℕ) (m m' : Bytes)
      → IsRun px (λ k. f (x + k) y) n (stored_at bb px.size x y) m m'
      → x + n ≤ bb.w
      → y < bb.h
      → col < bb.w
      → line < bb.h
      → px.load m' (stored_at bb px.size col line) ≡ (
          if leb x col && ltb col (x + n) && (y == line)
          then f col line (px.load m (stored_at bb px.size col line))
          else px.load m (stored_at bb px.size col line))
  line_pixel n x y col line m m' run hx hy hc hl =
      elim (Bool-cases (leb x col && ltb col (x + n) && (y == line))) [
        | inl e ↦
            let hit : (x ≤ col) × (col < x + n) × (y ≡ line) = ground arith in
            let here : x + (col - x) ≡ col = omega arith in
            let same : stored_at bb px.size x y + (col - x) * px.size
                ≡ stored_at bb px.size col line =
              omega
                (arith, ap (λ (t : ℕ). t * px.size) here, ap (λ (t : ℕ). t * bb.stride) hit.2) in
            rw e (rw here at (rw hit.2 at (rw same at (run.hit (col - x) (omega arith)))))
        | inr e ↦
            let off : (col < x) ⊎ (x + n ≤ col) ⊎ (y ≢ line) = ground arith in
            rw e (
              px.load_local m' m _ _ (λ k hk.
                run.outside (stored_at bb px.size col line + k)
                  (ground (arith, line_apart n x y col line hx hy hc hl off))))
      ]

  line_beyond :
      (n x y a : ℕ) (m m' : Bytes)
      → IsRun px (λ k. f (x + k) y) n (stored_at bb px.size x y) m m'
      → x + n ≤ bb.w
      → y < bb.h
      → bb.stride * bb.h ≤ a
      → m' a ≡ m a
  line_beyond n x y a m m' run hx hy far =
      let row : (x + n) * px.size ≤ bb.pixel_stride * px.size =
        mul_le (x + n) bb.pixel_stride px.size (omega (arith, valid.line)) in
      let below : y * bb.stride + bb.stride ≤ bb.h * bb.stride = mul_step y bb.h bb.stride hy in
      run.outside a (inr (omega (arith, valid.whole)))

  -- A step that runs along one line, for each line of the rectangle.
  module _ (x w lo hi : ℕ) (hx : x + w ≤ bb.w) (step : ℕ → Bytes → Bytes)
      (step-IsRun : (j : ℕ) (m : Bytes)
        → lo ≤ j
        → j < hi
        → j < bb.h
        → IsRun px (λ k. f (x + k) j) w (stored_at bb px.size x j) m (step j m)) where
    lines_pixel :
        (n y col line : ℕ) (m : Bytes)
        → lo ≤ y
        → y + n ≤ hi
        → y + n ≤ bb.h
        → col < bb.w
        → line < bb.h
        → px.load (for_range n y step m) (stored_at bb px.size col line) ≡ (
            if inside x y w n col line
            then f col line (px.load m (stored_at bb px.size col line))
            else px.load m (stored_at bb px.size col line))
    unfolding for_range
    lines_pixel zero y col line m lo_y hu hy hc hl = ground arith
    lines_pixel (suc n) y col line m lo_y hu hy hc hl = ground (
      arith,
      lines_pixel n (y + 1) col line (step y m) (omega arith) (omega arith) (omega arith) hc hl,
      line_pixel w x y col line m (step y m) (step-IsRun y m lo_y (omega arith) (omega arith)) hx
          (omega arith) hc hl,
    )

    lines_beyond :
        (n y a : ℕ) (m : Bytes)
        → lo ≤ y
        → y + n ≤ hi
        → y + n ≤ bb.h
        → bb.stride * bb.h ≤ a
        → for_range n y step m a ≡ m a
    unfolding for_range
    lines_beyond zero y a m lo_y hu hy far = refl
    lines_beyond (suc n) y a m lo_y hu hy far =
        lines_beyond n (y + 1) a (step y m) (omega arith) (omega arith) (omega arith) far
        ∙ line_beyond w x y a m (step y m) (step-IsRun y m lo_y (omega arith) (omega arith)) hx
            (omega arith) far

  -- Line by line: the loop paints the rectangle.
  pub lines-PaintsStored :
      (r : StoredRect) (step : ℕ → Bytes → Bytes)
      → ((j : ℕ) (m : Bytes)
          → r.ry ≤ j
          → j < r.ry + r.rh
          → j < bb.h
          → IsRun px (λ k. f (r.rx + k) j) r.rw (stored_at bb px.size r.rx j) m (step j m))
      → InBounds bb r
      → PaintsStored px f bb r bb.bytes (for_u32 r.ry r.rh step bb.bytes)
  unfolding for_u32
  lines-PaintsStored r step step-IsRun bounds =
      let rounds : u32 (r.ry + r.rh) - r.ry ≡ r.rh = omega (arith, valid.h_u32) in
      rw rounds (record {
        pixels = λ col line hc hl.
            lines_pixel r.rx r.rw r.ry (r.ry + r.rh) bounds.0 step step-IsRun r.rh r.ry col line
              bb.bytes (le_refl _) (le_refl _) bounds.1 hc hl;
        beyond = λ a far.
            lines_beyond r.rx r.rw r.ry (r.ry + r.rh) bounds.0 step step-IsRun r.rh r.ry a bb.bytes
              (le_refl _) (le_refl _) bounds.1 far;
      })
