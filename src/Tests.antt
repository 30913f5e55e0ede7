-- ===== src/Tests.antt =====
-- Small buffers, on which the theorems are applied: three by two stored pixels, with one pixel of
-- padding to a line.
pub mod Rects
pub mod Blits
pub mod Colors
pub mod Compose
pub mod Corners
pub mod Inputs
pub mod Texts
use koreader_base.Prelude.{ℕ, ◌*◌, ◌%◌, ◌≤◌, ◌≡◌, refl, some, arith}
use koreader_base.Color.{bb8, bb8a, bbrgb16, bbrgb24, bbrgb32}
use koreader_base.Memory.{Bytes}
use koreader_base.Buffer.{BlitBuffer, bb_type, bb_rotation, get_width, get_height}
use koreader_base.Buffer.Geometry.{IsValid}
use koreader_base.Paint.{Fits}
use koreader_base.Blit.{Area}
use koreader_base.Blit.Laws.{FitsBoth}

abbrev pub ramp : Bytes
ramp a = a % 256

abbrev pub screen : ℕ → ℕ → BlitBuffer
screen size config = record {
  w = 3;
  pixel_stride = 4;
  h = 2;
  stride = 4 * size;
  bytes = ramp;
  config = config;
}

pub screen-IsValid : (size config : ℕ) → size ≤ 4 → IsValid size (screen size config)
screen-IsValid size config h = record {
  w_u32 = omega arith;
  h_u32 = omega arith;
  line = omega arith;
  whole = refl;
  fits = omega arith;
}

-- BB8, turned by 90 degrees, so two wide and three high on the screen.
abbrev pub turned : BlitBuffer
turned = screen 1 0x14

-- BB8, as stored.
abbrev pub plain : BlitBuffer
plain = screen 1 0x10

-- RGB565, turned by 270 degrees.
abbrev pub packed : BlitBuffer
packed = screen 2 0x3c

-- RGB32, as stored.
abbrev pub coloured : BlitBuffer
coloured = screen 4 0x50

pub turned_typed : bb_type turned ≡ some bb8
unfolding bb_type
turned_typed = refl

pub plain_typed : bb_type plain ≡ some bb8
unfolding bb_type
plain_typed = refl

pub packed_typed : bb_type packed ≡ some bbrgb16
unfolding bb_type
packed_typed = refl

pub coloured_typed : bb_type coloured ≡ some bbrgb32
unfolding bb_type
coloured_typed = refl

pub turned-IsValid : IsValid 1 turned
turned-IsValid = screen-IsValid 1 0x14 (omega arith)

pub plain-IsValid : IsValid 1 plain
plain-IsValid = screen-IsValid 1 0x10 (omega arith)

pub packed-IsValid : IsValid 2 packed
packed-IsValid = screen-IsValid 2 0x3c (omega arith)

pub coloured-IsValid : IsValid 4 coloured
coloured-IsValid = screen-IsValid 4 0x50 (omega arith)

pub turned-Fits : Fits turned 0 1 2 2
unfolding get_width get_height bb_rotation
turned-Fits = omega arith

pub packed-Fits : Fits packed 0 1 2 2
unfolding get_width get_height bb_rotation
packed-Fits = omega arith

pub coloured-Fits : Fits coloured 1 0 2 2
unfolding get_width get_height bb_rotation
coloured-Fits = omega arith

-- A blit between a screen as stored and a turned one, and one of whole lines.
abbrev pub window : Area
window = record { dest_x = 0; dest_y = 1; offs_x = 1; offs_y = 0; w = 2; h = 2 }

abbrev pub whole_line : Area
whole_line = record { dest_x = 0; dest_y = 1; offs_x = 0; offs_y = 0; w = 3; h = 1 }

pub window_fits : FitsBoth coloured turned window
unfolding get_width get_height bb_rotation
window_fits = (omega arith, omega arith)

pub line_fits8 : FitsBoth plain plain whole_line
unfolding get_width get_height bb_rotation
line_fits8 = (omega arith, omega arith)

pub line_fits32 : FitsBoth coloured coloured whole_line
unfolding get_width get_height bb_rotation
line_fits32 = (omega arith, omega arith)
