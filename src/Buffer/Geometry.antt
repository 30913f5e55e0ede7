-- ===== src/Buffer/Geometry.antt =====
-- Where the pixels of a well-formed buffer lie: inside it, and apart from one another.
use koreader_base.Prelude.{ℕ, ◌+◌, ◌-◌, ◌*◌, ◌^◌, ◌≤◌, ◌<◌, ◌≡◌, ◌⊎◌, ◌≢◌, sub32, ap, arith}
use koreader_base.Memory.{Apart}
use koreader_base.Buffer.{
  BlitBuffer, Rotation, deg0, deg90, deg180, deg270, bb_rotation, get_width, get_height,
  pixel_offset,
}

-- A buffer of pixels of `size` bytes whose lines hold a whole number of pixels, of less than
-- 4 GiB. The fields of the C struct have their types' ranges.
pub record IsValid (size : ℕ) (bb : BlitBuffer) : Type 0 where
  pub w_u32 : bb.w < 2 ^ 32
  pub h_u32 : bb.h < 2 ^ 32
  pub line : bb.w ≤ bb.pixel_stride
  pub whole : bb.stride ≡ bb.pixel_stride * size
  pub fits : bb.stride * bb.h < 2 ^ 32

-- The column and the line of the stored image that show the pixel (x, y) of the screen.
abbrev pub column : BlitBuffer → Rotation → ℕ → ℕ → ℕ
column bb deg0 x y = x
column bb deg90 x y = bb.w - y - 1
column bb deg180 x y = bb.w - x - 1
column bb deg270 x y = y

abbrev pub scanline : BlitBuffer → Rotation → ℕ → ℕ → ℕ
scanline bb deg0 x y = y
scanline bb deg90 x y = x
scanline bb deg180 x y = bb.h - y - 1
scanline bb deg270 x y = bb.h - x - 1

abbrev pub stored_at : BlitBuffer → ℕ → ℕ → ℕ → ℕ
stored_at bb size col line = line * bb.stride + col * size

abbrev pub OnScreen : BlitBuffer → ℕ → ℕ → Type 0
OnScreen bb x y = (x < get_width bb) × (y < get_height bb)

-- A whole step of `n` fits below a larger multiple.
pub mul_step : (a b n : ℕ) → a < b → a * n + n ≤ b * n
mul_step a b n h = grind arith

module _ (size : ℕ) (bb : BlitBuffer) (valid : IsValid size bb) where
  -- A stored pixel ends inside its line, which ends inside the buffer.
  pub stored_inside :
      (col line : ℕ)
      → col < bb.w
      → line < bb.h
      → (col * size + size ≤ bb.stride)
        × (line * bb.stride + bb.stride ≤ bb.stride * bb.h)
        × (stored_at bb size col line + size ≤ bb.stride * bb.h)
  stored_inside col line hc hl =
      let a : col * size + size ≤ bb.pixel_stride * size =
        mul_step col bb.pixel_stride size (omega (arith, valid.line)) in
      let b : line * bb.stride + bb.stride ≤ bb.h * bb.stride = mul_step line bb.h bb.stride hl in
      (omega (arith, valid.whole), omega arith, omega (arith, valid.whole))

  -- Two stored pixels are the same or do not overlap.
  pub stored-Apart :
      (col line col' line' : ℕ)
      → col < bb.w
      → col' < bb.w
      → line < bb.h
      → line' < bb.h
      → (col ≢ col') ⊎ (line ≢ line')
      → Apart size (stored_at bb size col line) (stored_at bb size col' line')
  stored-Apart col line col' line' hc hc' hl hl' ne = ground (
    arith,
    stored_inside col line,
    stored_inside col' line',
    mul_step line line' bb.stride,
    mul_step line' line bb.stride,
    mul_step col col' size,
    mul_step col' col size,
  )

pub column-lt :
    (bb : BlitBuffer) (x y : ℕ) → OnScreen bb x y → column bb (bb_rotation bb) x y < bb.w
unfolding get_width get_height
column-lt bb x y on = ground arith

pub scanline-lt :
    (bb : BlitBuffer) (x y : ℕ) → OnScreen bb x y → scanline bb (bb_rotation bb) x y < bb.h
unfolding get_width get_height
scanline-lt bb x y on = ground arith

-- The rotation shows each stored pixel once.
pub rotation_injective :
    (bb : BlitBuffer) (x y x' y' : ℕ)
    → OnScreen bb x y
    → OnScreen bb x' y'
    → (x ≢ x') ⊎ (y ≢ y')
    → (column bb (bb_rotation bb) x y ≢ column bb (bb_rotation bb) x' y')
      ⊎ (scanline bb (bb_rotation bb) x y ≢ scanline bb (bb_rotation bb) x' y')
unfolding get_width get_height
rotation_injective bb x y x' y' on on' ne = ground arith

-- `OnScreen`, for each rotation.
abbrev InImage : BlitBuffer → Rotation → ℕ → ℕ → Type 0
InImage bb deg0 x y = (x < bb.w) × (y < bb.h)
InImage bb deg90 x y = (x < bb.h) × (y < bb.w)
InImage bb deg180 x y = (x < bb.w) × (y < bb.h)
InImage bb deg270 x y = (x < bb.h) × (y < bb.w)

OnScreen-InImage : (bb : BlitBuffer) (x y : ℕ) → OnScreen bb x y → InImage bb (bb_rotation bb) x y
unfolding get_width get_height
OnScreen-InImage bb x y on = ground arith

-- Counting columns or lines from the other end.
mirror : (n k size : ℕ) → k < n → (n - k - 1) * size + (k * size + size) ≡ n * size
mirror n k size h =
    let e : n ≡ (n - k - 1) + k + 1 = omega arith in omega (arith, ap (λ (t : ℕ). t * size) e)

mirror32 : (n k : ℕ) → n < 2 ^ 32 → k < n → sub32 (sub32 n k) 1 ≡ n - k - 1
mirror32 n k hn h = omega arith

module _ (size : ℕ) (bb : BlitBuffer) (valid : IsValid size bb) where
  -- In range, nothing that BB_GET_PIXEL computes wraps.
  pixel_offset-rotation :
      (r : Rotation) (x y : ℕ)
      → InImage bb r x y
      → pixel_offset bb r size x y ≡ stored_at bb size (column bb r x y) (scanline bb r x y)
  unfolding pixel_offset
  pixel_offset-rotation deg0 x y on =
      omega (arith, valid.fits, stored_inside size bb valid x y on.0 on.1)
  pixel_offset-rotation deg90 x y on = omega (
    arith,
    valid.fits,
    mirror bb.w y size on.1,
    stored_inside size bb valid (bb.w - y - 1) x (omega arith) on.0,
  )
  pixel_offset-rotation deg180 x y on = rw (mirror32 bb.h y valid.h_u32 on.1) (
      omega (
        arith,
        valid.fits,
        mirror bb.w x size on.0,
        stored_inside size bb valid (bb.w - x - 1) (bb.h - y - 1) (omega arith) (omega arith),
      ))
  pixel_offset-rotation deg270 x y on =
      rw (mirror32 bb.h x valid.h_u32 on.0)
        (omega (arith, valid.fits, stored_inside size bb valid y (bb.h - x - 1) on.1 (omega arith)))

  pub pixel_offset_lem :
      (x y : ℕ)
      → OnScreen bb x y
      → pixel_offset bb (bb_rotation bb) size x y
        ≡ stored_at bb size (column bb (bb_rotation bb) x y) (scanline bb (bb_rotation bb) x y)
  pixel_offset_lem x y on = pixel_offset-rotation (bb_rotation bb) x y (OnScreen-InImage bb x y on)

  pub pixel_offset_inside :
      (x y : ℕ)
      → OnScreen bb x y
      → pixel_offset bb (bb_rotation bb) size x y + size ≤ bb.stride * bb.h
  pixel_offset_inside x y on =
      rw (pixel_offset_lem x y on)
        (stored_inside size bb valid (column bb (bb_rotation bb) x y)
          (scanline bb (bb_rotation bb) x y) (column-lt bb x y on) (scanline-lt bb x y on)).2

  pub pixel_offset-Apart :
      (x y x' y' : ℕ)
      → OnScreen bb x y
      → OnScreen bb x' y'
      → (x ≢ x') ⊎ (y ≢ y')
      → Apart size
          (pixel_offset bb (bb_rotation bb) size x y)
          (pixel_offset bb (bb_rotation bb) size x' y')
  pixel_offset-Apart x y x' y' on on' ne =
      rw (pixel_offset_lem x y on, pixel_offset_lem x' y' on')
        (stored-Apart size bb valid (column bb r x y) (scanline bb r x y) (column bb r x' y')
          (scanline bb r x' y') (column-lt bb x y on) (column-lt bb x' y' on')
          (scanline-lt bb x y on) (scanline-lt bb x' y' on')
          (rotation_injective bb x y x' y' on on' ne))
    where
      r : Rotation
      r = bb_rotation bb

  -- For a well-formed buffer and two different pixels on the screen, BB_GET_PIXEL points to a whole
  -- pixel inside the buffer for each, and the two do not overlap.
  pub pixel_offset_safe :
      (x y x' y' : ℕ)
      → OnScreen bb x y
      → OnScreen bb x' y'
      → (x ≢ x') ⊎ (y ≢ y')
      → (pixel_offset bb (bb_rotation bb) size x y + size ≤ bb.stride * bb.h)
        × (pixel_offset bb (bb_rotation bb) size x' y' + size ≤ bb.stride * bb.h)
        × Apart size
            (pixel_offset bb (bb_rotation bb) size x y)
            (pixel_offset bb (bb_rotation bb) size x' y')
  pixel_offset_safe x y x' y' on on' ne = (
    pixel_offset_inside x y on,
    pixel_offset_inside x' y' on',
    pixel_offset-Apart x y x' y' on on' ne,
  )

  -- The sides of the screen are `unsigned int`s.
  pub screen_u32 : (get_width bb < 2 ^ 32) × (get_height bb < 2 ^ 32)
  unfolding get_width get_height
  screen_u32 = ground (arith, valid.w_u32, valid.h_u32)
