-- ===== src/Buffer.antt =====
-- `BlitBuffer` of blitbuffer.h with the macros that read its `config`, and BB_GET_PIXEL.
pub mod Geometry
use koreader_base.Prelude.{
  ℕ, ◌+◌, ◌-◌, ◌*◌, ◌^◌, bit_and, Bool, Option, none, some, sub32, u64, ◌>>>◌, if◌then◌else◌, ◌==◌,
}
use koreader_base.Color.{BbType, bb8, bb8a, bbrgb16, bbrgb24, bbrgb32}
use koreader_base.Memory.{Bytes, PixelFormat}

-- `bytes` is what `data` points to.
pub record BlitBuffer : Type 0 where
  pub w : ℕ
  pub pixel_stride : ℕ
  pub h : ℕ
  pub stride : ℕ
  pub bytes : Bytes
  pub config : ℕ

pub data Rotation : Type 0 where
  deg0 deg90 deg180 deg270 : Rotation

abbrev pub mask_rotated : ℕ
mask_rotated = 0x0c

abbrev pub mask_type : ℕ
mask_type = 0xf0

-- `none` is a value that no `switch` has a case for.
unfoldable pub type_of : ℕ → Option BbType
type_of n =
    if n == 1
    then some bb8
    else if n == 2
    then some bb8a
    else if n == 3
    then some bbrgb16
    else if n == 4
    then some bbrgb24
    else if n == 5
    then some bbrgb32
    else none

-- The two bits of a rotation have no fifth value.
unfoldable pub rotation_of : ℕ → Rotation
rotation_of n = if n == 0 then deg0 else if n == 1 then deg90 else if n == 2 then deg180 else deg270

-- GET_BB_TYPE, as the number that the code compares and as the `case` that it selects.
abbrev pub type_bits : BlitBuffer → ℕ
type_bits bb = bit_and mask_type bb.config >>> 4

unfoldable pub bb_type : BlitBuffer → Option BbType
unfolding type_of
bb_type bb = type_of (type_bits bb)

-- GET_BB_ROTATION
unfoldable pub bb_rotation : BlitBuffer → Rotation
unfolding rotation_of
bb_rotation bb = rotation_of (bit_and mask_rotated bb.config >>> 2)

-- BB_GET_WIDTH and BB_GET_HEIGHT: an odd rotation exchanges the sides.
unfoldable pub get_width : BlitBuffer → ℕ
get_width bb = elim (bb_rotation bb) [ deg0 ↦ bb.w | deg90 ↦ bb.h | deg180 ↦ bb.w | deg270 ↦ bb.h ]

unfoldable pub get_height : BlitBuffer → ℕ
get_height bb = elim (bb_rotation bb) [ deg0 ↦ bb.h | deg90 ↦ bb.w | deg180 ↦ bb.h | deg270 ↦ bb.w ]

-- BB_GET_PIXEL: the offset from `data` of the pixel (x, y) as the rotated screen shows it, for
-- pixels of `size` bytes. `bb->h - y - 1` is `unsigned int` arithmetic; what is added to and
-- taken off the pointer wraps at 64 bits.
unfoldable pub pixel_offset : BlitBuffer → Rotation → ℕ → ℕ → ℕ → ℕ
pixel_offset bb deg0 size x y = u64 (y * bb.stride + x * size)
pixel_offset bb deg90 size x y = u64 (x * bb.stride + bb.w * size + 2 ^ 64 - (y * size + size))
pixel_offset bb deg180 size x y =
    u64 (sub32 (sub32 bb.h y) 1 * bb.stride + bb.w * size + 2 ^ 64 - (x * size + size))
pixel_offset bb deg270 size x y = u64 (sub32 (sub32 bb.h x) 1 * bb.stride + y * size)

abbrev pub pixel : {C : Type 0} → PixelFormat C → BlitBuffer → ℕ → ℕ → C
pixel px bb x y = px.load bb.bytes (pixel_offset bb (bb_rotation bb) px.size x y)
