-- ===== src/Memory/Formats.antt =====
-- The five pixel types in memory, on a little-endian machine.
use koreader_base.Prelude.{ℕ, ◌+◌, ◌*◌, ◌/◌, ◌%◌, ◌≤◌, ◌<◌, ◌≡◌, ◌⊎◌, arith}
use koreader_base.Color.{Color8, Color8A, ColorRgb16, ColorRgb24, ColorRgb32}
use koreader_base.Color.{BbType, bb8, bb8a, bbrgb16, bbrgb24, bbrgb32, ColorOf}
use koreader_base.Memory.{Bytes, write, PixelFormat}

abbrev load8 : Bytes → ℕ → Color8
load8 m p = record { a = m p }

abbrev store8 : Color8 → ℕ → Bytes → Bytes
store8 c p m = write m p c.a

pub load8_local :
    (m n : Bytes) (p q : ℕ) → ((k : ℕ) → k < 1 → m (p + k) ≡ n (q + k)) → load8 m p ≡ load8 n q
load8_local m n p q h = ground (arith, h 0)

pub store8_outside :
    (c : Color8) (p : ℕ) (m : Bytes) (a : ℕ) → (a < p) ⊎ (p + 1 ≤ a) → store8 c p m a ≡ m a
store8_outside c p m a h = ground arith

pub load8-store8 : (c : Color8) (p : ℕ) (m : Bytes) → load8 (store8 c p m) p ≡ c
load8-store8 c p m = ground arith

abbrev pub format8 : PixelFormat Color8
format8 = record {
  size = 1;
  load = load8;
  store = store8;
  size_pos = omega arith;
  size_small = omega arith;
  load-store = load8-store8;
  store_outside = store8_outside;
  load_local = load8_local;
}

abbrev load8a : Bytes → ℕ → Color8A
load8a m p = record { a = m p; alpha = m (p + 1) }

abbrev store8a : Color8A → ℕ → Bytes → Bytes
store8a c p m = write (write m p c.a) (p + 1) c.alpha

pub load8a_local :
    (m n : Bytes) (p q : ℕ) → ((k : ℕ) → k < 2 → m (p + k) ≡ n (q + k)) → load8a m p ≡ load8a n q
load8a_local m n p q h = ground (arith, h 0, h 1)

pub store8a_outside :
    (c : Color8A) (p : ℕ) (m : Bytes) (a : ℕ) → (a < p) ⊎ (p + 2 ≤ a) → store8a c p m a ≡ m a
store8a_outside c p m a h = ground arith

pub load8a-store8a : (c : Color8A) (p : ℕ) (m : Bytes) → load8a (store8a c p m) p ≡ c
load8a-store8a c p m = ground arith

abbrev pub format8a : PixelFormat Color8A
format8a = record {
  size = 2;
  load = load8a;
  store = store8a;
  size_pos = omega arith;
  size_small = omega arith;
  load-store = load8a-store8a;
  store_outside = store8a_outside;
  load_local = load8a_local;
}

-- The low byte comes first. A `uint16_t` has a high byte of `v / 256`.
abbrev load16 : Bytes → ℕ → ColorRgb16
load16 m p = record { v = m p % 256 + 256 * m (p + 1) }

abbrev store16 : ColorRgb16 → ℕ → Bytes → Bytes
store16 c p m = write (write m p (c.v % 256)) (p + 1) (c.v / 256)

pub load16_local :
    (m n : Bytes) (p q : ℕ) → ((k : ℕ) → k < 2 → m (p + k) ≡ n (q + k)) → load16 m p ≡ load16 n q
load16_local m n p q h = ground (arith, h 0, h 1)

pub store16_outside :
    (c : ColorRgb16) (p : ℕ) (m : Bytes) (a : ℕ) → (a < p) ⊎ (p + 2 ≤ a) → store16 c p m a ≡ m a
store16_outside c p m a h = ground arith

pub load16-store16 : (c : ColorRgb16) (p : ℕ) (m : Bytes) → load16 (store16 c p m) p ≡ c
load16-store16 c p m = ground arith

abbrev pub format16 : PixelFormat ColorRgb16
format16 = record {
  size = 2;
  load = load16;
  store = store16;
  size_pos = omega arith;
  size_small = omega arith;
  load-store = load16-store16;
  store_outside = store16_outside;
  load_local = load16_local;
}

abbrev load24 : Bytes → ℕ → ColorRgb24
load24 m p = record { r = m p; g = m (p + 1); b = m (p + 2) }

abbrev store24 : ColorRgb24 → ℕ → Bytes → Bytes
store24 c p m = write (write (write m p c.r) (p + 1) c.g) (p + 2) c.b

pub load24_local :
    (m n : Bytes) (p q : ℕ) → ((k : ℕ) → k < 3 → m (p + k) ≡ n (q + k)) → load24 m p ≡ load24 n q
load24_local m n p q h = ground (arith, h 0, h 1, h 2)

pub store24_outside :
    (c : ColorRgb24) (p : ℕ) (m : Bytes) (a : ℕ) → (a < p) ⊎ (p + 3 ≤ a) → store24 c p m a ≡ m a
store24_outside c p m a h = ground arith

pub load24-store24 : (c : ColorRgb24) (p : ℕ) (m : Bytes) → load24 (store24 c p m) p ≡ c
load24-store24 c p m = ground arith

abbrev pub format24 : PixelFormat ColorRgb24
format24 = record {
  size = 3;
  load = load24;
  store = store24;
  size_pos = omega arith;
  size_small = omega arith;
  load-store = load24-store24;
  store_outside = store24_outside;
  load_local = load24_local;
}

abbrev load32 : Bytes → ℕ → ColorRgb32
load32 m p = record { r = m p; g = m (p + 1); b = m (p + 2); alpha = m (p + 3) }

abbrev store32 : ColorRgb32 → ℕ → Bytes → Bytes
store32 c p m = write (write (write (write m p c.r) (p + 1) c.g) (p + 2) c.b) (p + 3) c.alpha

pub load32_local :
    (m n : Bytes) (p q : ℕ) → ((k : ℕ) → k < 4 → m (p + k) ≡ n (q + k)) → load32 m p ≡ load32 n q
load32_local m n p q h = ground (arith, h 0, h 1, h 2, h 3)

pub store32_outside :
    (c : ColorRgb32) (p : ℕ) (m : Bytes) (a : ℕ) → (a < p) ⊎ (p + 4 ≤ a) → store32 c p m a ≡ m a
store32_outside c p m a h = ground arith

pub load32-store32 : (c : ColorRgb32) (p : ℕ) (m : Bytes) → load32 (store32 c p m) p ≡ c
load32-store32 c p m = ground arith

abbrev pub format32 : PixelFormat ColorRgb32
format32 = record {
  size = 4;
  load = load32;
  store = store32;
  size_pos = omega arith;
  size_small = omega arith;
  load-store = load32-store32;
  store_outside = store32_outside;
  load_local = load32_local;
}

abbrev pub format_of : (t : BbType) → PixelFormat (ColorOf t)
format_of bb8 = format8
format_of bb8a = format8a
format_of bbrgb16 = format16
format_of bbrgb24 = format24
format_of bbrgb32 = format32
