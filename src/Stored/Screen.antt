-- ===== src/Stored/Screen.antt =====
-- The rectangle of the stored image, and the rectangle of the screen.
use koreader_base.Prelude.{
  ℕ, ◌+◌, ◌-◌, ◌^◌, ◌≤◌, ◌<◌, ◌≡◌, refl, sym, Bool, ◌&&◌, if◌then◌else◌, ltb, leb, u32, sub32,
  arith, some,
}
use mathlib.Core.Path.{subst}
use koreader_base.Memory.{Bytes, PixelFormat}
use koreader_base.Buffer.{
  BlitBuffer, Rotation, deg0, deg90, deg180, deg270, bb_rotation, get_width, get_height,
  pixel_offset,
}
use koreader_base.Buffer.Geometry.{
  IsValid, OnScreen, column, scanline, column-lt, scanline-lt, pixel_offset_lem, stored_at,
}
use koreader_base.Paint.{inside, Fits, Repaints}
use koreader_base.Stored.{rotate_rect, PaintsStored}
use koreader_base.Stored.Lines.{InBounds}

-- The sides of the screen, and what lies on it, for each rotation.
abbrev FitsImage : BlitBuffer → Rotation → ℕ → ℕ → ℕ → ℕ → Type 0
FitsImage bb deg0 x y w h = (x + w ≤ bb.w) × (y + h ≤ bb.h)
FitsImage bb deg90 x y w h = (x + w ≤ bb.h) × (y + h ≤ bb.w)
FitsImage bb deg180 x y w h = (x + w ≤ bb.w) × (y + h ≤ bb.h)
FitsImage bb deg270 x y w h = (x + w ≤ bb.h) × (y + h ≤ bb.w)

Fits-FitsImage :
    (bb : BlitBuffer) (x y w h : ℕ) → Fits bb x y w h → FitsImage bb (bb_rotation bb) x y w h
unfolding get_width get_height
Fits-FitsImage bb x y w h fits = ground arith

abbrev in_span : ℕ → ℕ → ℕ → Bool
in_span a l k = leb a k && ltb k (a + l)

span_start : (n a l : ℕ) → n < 2 ^ 32 → a + l ≤ n → sub32 n (u32 (a + l)) ≡ n - (a + l)
span_start n a l hn h = omega arith

-- A span seen from the other end.
span_mirror :
    (n a l k : ℕ)
    → n < 2 ^ 32
    → a + l ≤ n
    → k + 1 ≤ n
    → in_span (sub32 n (u32 (a + l))) l (n - k - 1) ≡ in_span a l k
span_mirror n a l k hn h hk = rw (span_start n a l hn h) (ground arith)

and_comm : (a b : Bool) → (a && b) ≡ (b && a)
and_comm a b = ground arith

module _ (bb : BlitBuffer) (hw : bb.w < 2 ^ 32) (hh : bb.h < 2 ^ 32) where
  InBounds-rotation :
      (r : Rotation) (x y w h : ℕ) → FitsImage bb r x y w h → InBounds bb (rotate_rect bb r x y w h)
  unfolding rotate_rect
  InBounds-rotation deg0 x y w h fits = omega arith
  InBounds-rotation deg90 x y w h fits = omega arith
  InBounds-rotation deg180 x y w h fits = omega arith
  InBounds-rotation deg270 x y w h fits = omega arith

  inside-rotation :
      (r : Rotation) (x y w h i j : ℕ)
      → FitsImage bb r x y w h
      → FitsImage bb r i j 1 1
      → let s = rotate_rect bb r x y w h in
        inside s.rx s.ry s.rw s.rh (column bb r i j) (scanline bb r i j) ≡ inside x y w h i j
  unfolding rotate_rect
  inside-rotation deg0 x y w h i j fits on = refl
  inside-rotation deg90 x y w h i j fits on =
      rw (span_mirror bb.w y h j hw fits.1 on.1) (and_comm (in_span y h j) (in_span x w i))
  inside-rotation deg180 x y w h i j fits on =
      rw (span_mirror bb.w x w i hw fits.0 on.0, span_mirror bb.h y h j hh fits.1 on.1)
  inside-rotation deg270 x y w h i j fits on =
      rw (span_mirror bb.h x w i hh fits.0 on.0) (and_comm (in_span y h j) (in_span x w i))

module _ {C : Type 0} (px : PixelFormat C) (f : C → C) (bb : BlitBuffer)
    (valid : IsValid px.size bb) (x y w h : ℕ) (fits : Fits bb x y w h) where
  pub rotate_rect-InBounds : InBounds bb (rotate_rect bb (bb_rotation bb) x y w h)
  rotate_rect-InBounds =
      InBounds-rotation bb valid.w_u32 valid.h_u32 (bb_rotation bb) x y w h
        (Fits-FitsImage bb x y w h fits)

  OnScreen-FitsImage : (i j : ℕ) → OnScreen bb i j → FitsImage bb (bb_rotation bb) i j 1 1
  OnScreen-FitsImage i j on = Fits-FitsImage bb i j 1 1 (omega arith)

  -- Painting the rotated rectangle of the stored image repaints the rectangle of the screen.
  pub PaintsStored-Repaints :
      (m : Bytes)
      → PaintsStored px (λ _ _. f) bb (rotate_rect bb (bb_rotation bb) x y w h) bb.bytes m
      → Repaints px bb x y w h (λ i j c. some (f c)) m
  PaintsStored-Repaints m painted = record {
    pixels = λ i j on.
        subst
          (λ (p : ℕ).
            px.load m p
            ≡ (if inside x y w h i j then f (px.load bb.bytes p) else px.load bb.bytes p))
          (sym (pixel_offset_lem px.size bb valid i j on))
          (rw
            (← inside-rotation bb valid.w_u32 valid.h_u32 (bb_rotation bb) x y w h i j
              (Fits-FitsImage bb x y w h fits) (OnScreen-FitsImage i j on))
            (painted.pixels (column bb (bb_rotation bb) i j) (scanline bb (bb_rotation bb) i j)
              (column-lt bb i j on) (scanline-lt bb i j on)));
    beyond = painted.beyond;
  }

-- Without rotation, the pointer of a position is that of its column and line.
pub flat_offset :
    {C : Type 0} (px : PixelFormat C) (bb : BlitBuffer)
    → IsValid px.size bb
    → bb_rotation bb ≡ deg0
    → (i j : ℕ) → OnScreen bb i j
    → pixel_offset bb (bb_rotation bb) px.size i j ≡ stored_at bb px.size i j
flat_offset px bb valid flat i j on =
    rw flat (rw flat at (pixel_offset_lem px.size bb valid i j on))

-- Without rotation, columns and lines are the positions on the screen.
pub unrotated-Repaints :
    {C : Type 0} (px : PixelFormat C) (f : ℕ → ℕ → C → C) (bb : BlitBuffer)
    → IsValid px.size bb
    → bb_rotation bb ≡ deg0
    → (x y w h : ℕ) (m : Bytes)
    → PaintsStored px f bb (record { rx = x; ry = y; rw = w; rh = h }) bb.bytes m
    → Repaints px bb x y w h (λ i j c. some (f i j c)) m
unrotated-Repaints px f bb valid flat x y w h m painted = record {
  pixels = λ i j on.
      let col : i < bb.w = rw flat at (column-lt bb i j on) in
      let line : j < bb.h = rw flat at (scanline-lt bb i j on) in
      subst
        (λ (p : ℕ).
          px.load m p
          ≡ (if inside x y w h i j then f i j (px.load bb.bytes p) else px.load bb.bytes p))
        (sym (flat_offset px bb valid flat i j on)) (painted.pixels i j col line);
  beyond = painted.beyond;
}
