-- ===== src/Stored.antt =====
-- BB_fill_rect, BB_fill_rect_RGB32 and BB_invert_rect do not go through BB_GET_PIXEL: they turn
-- the rectangle into columns and lines of the stored image, and run along its lines, or over
-- many lines at once if it is as wide as the buffer.
pub mod Runs
pub mod Lines
pub mod Laws
pub mod Screen
use koreader_base.Prelude.{
  ℕ, zero, suc, ◌+◌, ◌*◌, ◌≤◌, ◌<◌, ◌≡◌, ◌⊎◌, Bool, ◌&&◌, ◌==◌, if◌then◌else◌, ltb, leb, u32, u64,
  sub32,
}
use koreader_base.Prelude.Loops.{for_u32}
use koreader_base.Memory.{Bytes, PixelFormat}
use koreader_base.Buffer.{BlitBuffer, Rotation, deg0, deg90, deg180, deg270, bb_rotation}
use koreader_base.Buffer.Geometry.{stored_at}
use koreader_base.Paint.{inside}

-- `rx`, `ry`, `rw` and `rh`
pub record StoredRect : Type 0 where
  pub rx : ℕ
  pub ry : ℕ
  pub rw : ℕ
  pub rh : ℕ

-- The `switch` on the rotation, in `unsigned int`.
unfoldable pub rotate_rect : BlitBuffer → Rotation → ℕ → ℕ → ℕ → ℕ → StoredRect
rotate_rect bb deg0 x y w h = record { rx = x; ry = y; rw = w; rh = h }
rotate_rect bb deg90 x y w h = record { rx = sub32 bb.w (u32 (y + h)); ry = x; rw = h; rh = w }
rotate_rect bb deg180 x y w h = record {
  rx = sub32 bb.w (u32 (x + w));
  ry = sub32 bb.h (u32 (y + h));
  rw = w;
  rh = h;
}
rotate_rect bb deg270 x y w h = record { rx = y; ry = sub32 bb.h (u32 (x + w)); rw = h; rh = w }

-- `rx == 0 && rw == bb->w`
abbrev pub full_width : BlitBuffer → StoredRect → Bool
full_width bb r = r.rx == 0 && r.rw == bb.w

module _ {C : Type 0} (px : PixelFormat C) where
  -- `while (px_count--) { *p = f(*p); p++; }`
  unfoldable pub run_pixels : (C → C) → ℕ → ℕ → Bytes → Bytes
  run_pixels f zero p m = m
  run_pixels f (suc n) p m = run_pixels f n (p + px.size) (px.store (f (px.load m p)) p m)

  -- The two ways over a rectangle: many lines in one run, or line by line, with the pointer to a
  -- line's first pixel `left` bytes from the start of the line.
  unfoldable pub run_lines : (C → C) → BlitBuffer → StoredRect → ℕ → Bytes
  unfolding run_pixels for_u32
  run_lines f bb r left =
      if full_width bb r
      then run_pixels f (u32 (bb.pixel_stride * r.rh)) (u64 (bb.stride * r.ry)) bb.bytes
      else for_u32 r.ry r.rh (λ j. run_pixels f r.rw (u64 (bb.stride * j) + left)) bb.bytes

  -- `m'` is `m` with the `k`-th of the `n` pixels from `p` on turned into `f k` of it.
  pub record IsRun (f : ℕ → C → C) (n p : ℕ) (m m' : Bytes) : Type 0 where
    pub hit : (k : ℕ) → k < n → px.load m' (p + k * px.size) ≡ f k (px.load m (p + k * px.size))
    pub outside : (a : ℕ) → (a < p) ⊎ (p + n * px.size ≤ a) → m' a ≡ m a

  -- `m'` is `m` with `f` of its column and line applied to each pixel of the rectangle.
  pub record PaintsStored (f : ℕ → ℕ → C → C) (bb : BlitBuffer) (r : StoredRect) (m m' : Bytes)
      : Type 0 where
    pub pixels :
        (col line : ℕ)
        → col < bb.w
        → line < bb.h
        → px.load m' (stored_at bb px.size col line) ≡ (
            if inside r.rx r.ry r.rw r.rh col line
            then f col line (px.load m (stored_at bb px.size col line))
            else px.load m (stored_at bb px.size col line))
    pub beyond : (a : ℕ) → bb.stride * bb.h ≤ a → m' a ≡ m a
