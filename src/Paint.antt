-- ===== src/Paint.antt =====
-- The loop that nearly all operations of blitbuffer.c share: visit the pixels of a rectangle of
-- the screen line by line, point to each by BB_GET_PIXEL, and read, compute and write it.
-- An operation changes only what `data` points to, so its model returns the new bytes.
pub mod Laws
use koreader_base.Prelude.{
  ℕ, ◌≡◌, ◌+◌, ◌*◌, ◌≤◌, Bool, ◌&&◌, Option, none, some, ltb, leb, if◌then◌else◌,
}
use koreader_base.Prelude.Loops.{for_u32}
use koreader_base.Memory.{Bytes, PixelFormat}
use koreader_base.Buffer.{BlitBuffer, bb_rotation, get_width, get_height, pixel_offset, pixel}
use koreader_base.Buffer.Geometry.{OnScreen}

-- `none` is a pixel that is left alone.
abbrev pub repainted : {C : Type 0} → Option C → C → C
repainted none old = old
repainted (some new) old = new

module _ {C : Type 0} (px : PixelFormat C) (bb : BlitBuffer) where
  -- The pixel that shows at (x, y) when `data` holds `m`.
  abbrev pub pixel_in : Bytes → ℕ → ℕ → C
  pixel_in m x y = px.load m (pixel_offset bb (bb_rotation bb) px.size x y)

  -- One round: `f` decides what to write, from the position and the old pixel.
  unfoldable pub visit : (ℕ → ℕ → C → Option C) → ℕ → ℕ → Bytes → Bytes
  visit f y x m = elim (f x y (pixel_in m x y)) [
    | none ↦ m
    | some c ↦ px.store c (pixel_offset bb (bb_rotation bb) px.size x y) m
  ]

  unfoldable pub paint_some : (ℕ → ℕ → C → Option C) → ℕ → ℕ → ℕ → ℕ → Bytes
  unfolding visit for_u32
  paint_some f x y w h = for_u32 y h (λ j. for_u32 x w (visit f j)) bb.bytes

  -- The loops that write every pixel of the rectangle.
  unfoldable pub paint_rect : (ℕ → ℕ → C → C) → ℕ → ℕ → ℕ → ℕ → Bytes
  unfolding paint_some
  paint_rect f = paint_some (λ x y c. some (f x y c))

abbrev pub inside : ℕ → ℕ → ℕ → ℕ → ℕ → ℕ → Bool
inside x y w h i j = leb x i && ltb i (x + w) && (leb y j && ltb j (y + h))

-- The rectangle lies on the screen.
abbrev pub Fits : BlitBuffer → ℕ → ℕ → ℕ → ℕ → Type 0
Fits bb x y w h = (x + w ≤ get_width bb) × (y + h ≤ get_height bb)

-- What a painting operation promises: the bytes `m` show `f` of the old pixel inside the
-- rectangle and the old pixel elsewhere on the screen, and nothing behind the last line changed.
pub record Repaints {C : Type 0} (px : PixelFormat C) (bb : BlitBuffer) (x y w h : ℕ)
    (f : ℕ → ℕ → C → Option C) (m : Bytes) : Type 0 where
  pub pixels :
      (i j : ℕ)
      → OnScreen bb i j
      → pixel_in px bb m i j ≡ (
          if inside x y w h i j
          then repainted (f i j (pixel px bb i j)) (pixel px bb i j)
          else pixel px bb i j)
  pub beyond : (a : ℕ) → bb.stride * bb.h ≤ a → m a ≡ bb.bytes a
