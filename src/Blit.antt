-- ===== src/Blit.antt =====
-- The blits of blitbuffer.c: the loop over source and destination in step, and BB_blit_to_BB8,
-- _BB8A, _BB16, _BB24, _BB32, BB_blit_to, with their `memcpy` paths. The buffers do not overlap
-- (`restrict`), so the source's bytes stay as they are.
pub mod Convert
pub mod Laws
pub mod Copy
pub mod Fast
pub mod Dispatch
use koreader_base.Prelude.{
  ℕ, ◌+◌, ◌-◌, ◌*◌, Bool, true, false, ◌&&◌, ◌==◌, if◌then◌else◌, Option, none, some, u32, u64,
  ◌<<<◌,
}
use koreader_base.Prelude.Loops.{for_u32}
use koreader_base.Color.{BbType, ColorOf, bb8, bb8a, bbrgb16, bbrgb24, bbrgb32}
use koreader_base.Memory.{Bytes, memcpy}
use koreader_base.Memory.Formats.{format_of}
use koreader_base.Buffer.{
  BlitBuffer, Rotation, deg0, deg90, deg180, deg270, bb_type, bb_rotation, pixel,
}
use koreader_base.Paint.{paint_some}
use Convert.{convert, to_bb8, to_bb8a, to_bb16, to_bb24, to_bb32}

-- `dest_x`, `dest_y`, `offs_x`, `offs_y`, `w` and `h`, which every blit takes.
pub record Area : Type 0 where
  pub dest_x : ℕ
  pub dest_y : ℕ
  pub offs_x : ℕ
  pub offs_y : ℕ
  pub w : ℕ
  pub h : ℕ

-- `o_x` and `o_y` start at the offsets and are incremented with `d_x` and `d_y`.
abbrev pub o_x : Area → ℕ → ℕ
o_x a d_x = u32 (a.offs_x + (d_x - a.dest_x))

abbrev pub o_y : Area → ℕ → ℕ
o_y a d_y = u32 (a.offs_y + (d_y - a.dest_y))

-- The loops of a blit: `f` gets the source position, the source pixel and the old pixel.
unfoldable pub blit_pixels :
    (s t : BbType)
    → (ℕ → ℕ → ColorOf s → ColorOf t → Option (ColorOf t))
    → BlitBuffer
    → BlitBuffer
    → Area
    → Bytes
unfolding paint_some
blit_pixels s t f src dst a =
    paint_some (format_of t) dst
      (λ x y d. f (o_x a x) (o_y a y) (pixel (format_of s) src (o_x a x) (o_y a y)) d) a.dest_x
      a.dest_y a.w a.h

abbrev pub is_deg0 : Rotation → Bool
is_deg0 deg0 = true
is_deg0 deg90 = false
is_deg0 deg180 = false
is_deg0 deg270 = false

-- The BB8 case of BB_blit_to_BB8: one `memcpy`, one for each line, or pixel by pixel.
unfoldable pub copy_bb8 : BlitBuffer → BlitBuffer → Area → Bytes
unfolding memcpy for_u32 blit_pixels to_bb8
copy_bb8 src dst a =
    if is_deg0 (bb_rotation src) && is_deg0 (bb_rotation dst)
    then (if a.offs_x == 0
          && (a.dest_x == 0
              && (a.w == src.w
                  && (a.w == dst.w && (src.stride == dst.stride && src.stride == a.w))))
        then memcpy dst.bytes (u64 (dst.stride * a.dest_y)) src.bytes (u64 (src.stride * a.offs_y))
            (u32 (a.w * a.h))
        else for_u32 a.dest_y a.h
            (λ d_y m.
              memcpy m (u64 (dst.stride * d_y) + a.dest_x) src.bytes
                (u64 (src.stride * o_y a d_y) + a.offs_x) a.w)
            dst.bytes)
    else blit_pixels bb8 bb8 (λ _ _ c d. some (to_bb8 bb8 c d)) src dst a

-- The same for RGB32, at four bytes a pixel; the single copy takes its length from the stride.
unfoldable pub copy_bb32 : BlitBuffer → BlitBuffer → Area → Bytes
unfolding memcpy for_u32 blit_pixels to_bb32
copy_bb32 src dst a =
    if is_deg0 (bb_rotation src) && is_deg0 (bb_rotation dst)
    then (if a.offs_x == 0
          && (a.dest_x == 0
              && (a.w == src.w
                  && (a.w == dst.w && (src.stride == dst.stride && src.stride == u32 (a.w <<< 2)))))
        then memcpy dst.bytes (u64 (dst.stride * a.dest_y)) src.bytes (u64 (src.stride * a.offs_y))
            (u64 (src.stride * a.h))
        else for_u32 a.dest_y a.h
            (λ d_y m.
              memcpy m (u64 (dst.stride * d_y) + u32 (a.dest_x <<< 2)) src.bytes
                (u64 (src.stride * o_y a d_y) + u32 (a.offs_x <<< 2)) (u32 (a.w <<< 2)))
            dst.bytes)
    else blit_pixels bbrgb32 bbrgb32 (λ _ _ c d. some (to_bb32 bbrgb32 c d)) src dst a

-- BB_blit_to_BB8
unfoldable pub blit_to_bb8 : BlitBuffer → BlitBuffer → Area → Bytes
unfolding copy_bb8 blit_pixels to_bb8
blit_to_bb8 src dst a = elim (bb_type src) [
  | none ↦ dst.bytes
  | some bb8 ↦ copy_bb8 src dst a
  | some bb8a ↦ blit_pixels bb8a bb8 (λ _ _ c d. some (to_bb8 bb8a c d)) src dst a
  | some bbrgb16 ↦ blit_pixels bbrgb16 bb8 (λ _ _ c d. some (to_bb8 bbrgb16 c d)) src dst a
  | some bbrgb24 ↦ blit_pixels bbrgb24 bb8 (λ _ _ c d. some (to_bb8 bbrgb24 c d)) src dst a
  | some bbrgb32 ↦ blit_pixels bbrgb32 bb8 (λ _ _ c d. some (to_bb8 bbrgb32 c d)) src dst a
]

-- BB_blit_to_BB8A
unfoldable pub blit_to_bb8a : BlitBuffer → BlitBuffer → Area → Bytes
unfolding blit_pixels to_bb8a
blit_to_bb8a src dst a = elim (bb_type src) [
  | none ↦ dst.bytes
  | some s ↦ blit_pixels s bb8a (λ _ _ c d. some (to_bb8a s c d)) src dst a
]

-- BB_blit_to_BB16
unfoldable pub blit_to_bb16 : BlitBuffer → BlitBuffer → Area → Bytes
unfolding blit_pixels to_bb16
blit_to_bb16 src dst a = elim (bb_type src) [
  | none ↦ dst.bytes
  | some s ↦ blit_pixels s bbrgb16 (λ _ _ c d. some (to_bb16 s c d)) src dst a
]

-- BB_blit_to_BB24
unfoldable pub blit_to_bb24 : BlitBuffer → BlitBuffer → Area → Bytes
unfolding blit_pixels to_bb24
blit_to_bb24 src dst a = elim (bb_type src) [
  | none ↦ dst.bytes
  | some s ↦ blit_pixels s bbrgb24 (λ _ _ c d. some (to_bb24 s c d)) src dst a
]

-- BB_blit_to_BB32
unfoldable pub blit_to_bb32 : BlitBuffer → BlitBuffer → Area → Bytes
unfolding copy_bb32 blit_pixels to_bb32
blit_to_bb32 src dst a = elim (bb_type src) [
  | none ↦ dst.bytes
  | some bb8 ↦ blit_pixels bb8 bbrgb32 (λ _ _ c d. some (to_bb32 bb8 c d)) src dst a
  | some bb8a ↦ blit_pixels bb8a bbrgb32 (λ _ _ c d. some (to_bb32 bb8a c d)) src dst a
  | some bbrgb16 ↦ blit_pixels bbrgb16 bbrgb32 (λ _ _ c d. some (to_bb32 bbrgb16 c d)) src dst a
  | some bbrgb24 ↦ blit_pixels bbrgb24 bbrgb32 (λ _ _ c d. some (to_bb32 bbrgb24 c d)) src dst a
  | some bbrgb32 ↦ copy_bb32 src dst a
]

-- BB_blit_to
unfoldable pub blit_to : BlitBuffer → BlitBuffer → Area → Bytes
unfolding blit_to_bb8 blit_to_bb8a blit_to_bb16 blit_to_bb24 blit_to_bb32
blit_to src dst a = elim (bb_type dst) [
  | none ↦ dst.bytes
  | some bb8 ↦ blit_to_bb8 src dst a
  | some bb8a ↦ blit_to_bb8a src dst a
  | some bbrgb16 ↦ blit_to_bb16 src dst a
  | some bbrgb24 ↦ blit_to_bb24 src dst a
  | some bbrgb32 ↦ blit_to_bb32 src dst a
]
