-- ===== src/Dither.antt =====
-- Ordered dithering in blitbuffer.c: dither_o8x8, BB_dither_blit_to_BB8 and BB_dither_blit_to.
pub mod Laws
pub mod Blits
pub mod Compose
pub mod Sync
use koreader_base.Prelude.{
  ℕ, zero, suc, ◌+◌, ◌-◌, ◌*◌, none, some, if◌then◌else◌, ltb, leb, bit_and, u8, u32, ◌<<<◌, ◌>>>◌,
}
use mathlib.Core.List.{List, [], ◌∷◌}
use koreader_base.Color.{BbType, bb8, bb8a, bbrgb16, bbrgb24, bbrgb32}
use koreader_base.Color.Convert.{div_255}
use koreader_base.Memory.{Bytes}
use koreader_base.Buffer.{BlitBuffer, bb_type}
use koreader_base.Blit.{Area, blit_pixels, blit_to_bb8a, blit_to_bb16, blit_to_bb24, blit_to_bb32}
use koreader_base.Blit.Convert.{luma}

-- The threshold map, a line of eight thresholds for each `y & 7`.
abbrev pub threshold_map_o8x8 : List ℕ
threshold_map_o8x8 =
    1 ∷ 49 ∷ 13 ∷ 61 ∷ 4 ∷ 52 ∷ 16 ∷ 64 ∷ 33 ∷ 17 ∷ 45 ∷ 29 ∷ 36 ∷ 20 ∷ 48 ∷ 32 ∷ 9 ∷ 57 ∷ 5 ∷ 53
    ∷ 12 ∷ 60 ∷ 8 ∷ 56 ∷ 41 ∷ 25 ∷ 37 ∷ 21 ∷ 44 ∷ 28 ∷ 40 ∷ 24 ∷ 3 ∷ 51 ∷ 15 ∷ 63 ∷ 2 ∷ 50 ∷ 14 ∷ 62
    ∷ 35 ∷ 19 ∷ 47 ∷ 31 ∷ 34 ∷ 18 ∷ 46 ∷ 30 ∷ 11 ∷ 59 ∷ 7 ∷ 55 ∷ 10 ∷ 58 ∷ 6 ∷ 54 ∷ 43 ∷ 27 ∷ 39
    ∷ 23 ∷ 42 ∷ 26 ∷ 38 ∷ 22 ∷ []

-- `map[i]`; the index is below 64, and 0 stands for a read outside the array.
abbrev pub threshold_at : List ℕ → ℕ → ℕ
threshold_at [] i = 0
threshold_at (t ∷ ts) zero = t
threshold_at (t ∷ ts) (suc i) = threshold_at ts i

-- The level of `v` against one threshold, at the end of dither_o8x8.
unfoldable pub dither_level : ℕ → ℕ → ℕ
unfolding div_255
dither_level threshold v =
    let t = div_255 (v * ((15 <<< 6) + 1)) in
    let l = t >>> 6 in
    let rest = t - (l <<< 6) in
    let q = (l + (if leb threshold rest then 1 else 0)) * 17 in if ltb 255 q then 255 else u8 q

unfoldable pub dither_o8x8 : ℕ → ℕ → ℕ → ℕ
unfolding dither_level
dither_o8x8 x y v = dither_level (threshold_at threshold_map_o8x8 (bit_and x 7 + 8 * bit_and y 7)) v

-- The dithering is aligned to the source position.
unfoldable pub dither_blit_to_bb8 : BlitBuffer → BlitBuffer → Area → Bytes
unfolding dither_o8x8 blit_pixels luma
dither_blit_to_bb8 src dst a = elim (bb_type src) [
  | none ↦ dst.bytes
  | some s ↦
      blit_pixels s bb8 (λ o_x o_y c d. some (record { a = dither_o8x8 o_x o_y (luma s c) })) src
        dst a
]

unfoldable pub dither_blit_to : BlitBuffer → BlitBuffer → Area → Bytes
unfolding dither_blit_to_bb8 blit_to_bb8a blit_to_bb16 blit_to_bb24 blit_to_bb32
dither_blit_to src dst a = elim (bb_type dst) [
  | none ↦ dst.bytes
  | some bb8 ↦ dither_blit_to_bb8 src dst a
  | some bb8a ↦ blit_to_bb8a src dst a
  | some bbrgb16 ↦ blit_to_bb16 src dst a
  | some bbrgb24 ↦ blit_to_bb24 src dst a
  | some bbrgb32 ↦ blit_to_bb32 src dst a
]
