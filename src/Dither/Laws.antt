-- ===== src/Dither/Laws.antt =====
-- What dithering does to a grey value: one pixel, and a tile of pixels.
use koreader_base.Prelude.{
  ℕ, ◌+◌, ◌*◌, ◌/◌, ◌%◌, ◌<◌, ◌≤◌, ◌≡◌, refl, Bool, true, ◌&&◌, leb, ◌==◌, arith,
}
use koreader_base.Prelude.Bits.{all_below, all_below_sound, bit_and_07}
use koreader_base.Dither.{dither_level, threshold_map_o8x8, threshold_at, dither_o8x8}

abbrev close : ℕ → ℕ → Bool
close v d =
    (d % 17 == 0) && ((d / 17 * 17 == d) && (leb d 255 && (leb d (v + 17) && leb v (d + 17))))

abbrev close_at : ℕ → ℕ → ℕ → Bool
close_at x y v = close v (dither_level (threshold_at threshold_map_o8x8 (x + 8 * y)) v)

all_close : all_below 8 (λ x. all_below 8 (λ y. all_below 256 (close_at x y))) ≡ true
unfolding all_below dither_level
all_close = refl

dither_o8x8-Close :
    (x y v : ℕ)
    → v < 256
    → (dither_o8x8 x y v % 17 ≡ 0)
      × (dither_o8x8 x y v ≤ 255)
      × (dither_o8x8 x y v ≤ v + 17)
      × (v ≤ dither_o8x8 x y v + 17)
unfolding dither_o8x8
dither_o8x8-Close x y v h =
    let at_x = all_below_sound 8 _ (x % 8) all_close (omega arith) in
    let at_y = all_below_sound 8 _ (y % 8) at_x (omega arith) in
    let at_v = all_below_sound 256 (close_at (x % 8) (y % 8)) v at_y h in
    rw (bit_and_07 x, bit_and_07 y) (ground (arith, at_v))

abbrev tile_line : ℕ → ℕ → ℕ
tile_line y v =
    dither_o8x8 0 y v
    + dither_o8x8 1 y v
    + dither_o8x8 2 y v
    + dither_o8x8 3 y v
    + dither_o8x8 4 y v
    + dither_o8x8 5 y v
    + dither_o8x8 6 y v
    + dither_o8x8 7 y v

-- The sum of an 8 by 8 tile of the grey `v`, dithered.
abbrev pub tile_sum : ℕ → ℕ
tile_sum v =
    tile_line 0 v
    + tile_line 1 v
    + tile_line 2 v
    + tile_line 3 v
    + tile_line 4 v
    + tile_line 5 v
    + tile_line 6 v
    + tile_line 7 v

abbrev mean_kept : ℕ → Bool
mean_kept v = leb (tile_sum v) (64 * v + 32) && leb (64 * v) (tile_sum v + 32)

all_kept : all_below 256 mean_kept ≡ true
unfolding all_below dither_o8x8
all_kept = refl

tile_sum-Mean : (v : ℕ) → v < 256 → (tile_sum v ≤ 64 * v + 32) × (64 * v ≤ tile_sum v + 32)
tile_sum-Mean v h = ground (arith, all_below_sound 256 mean_kept v all_kept h)

-- Wherever it lies, a grey byte is dithered to one of the sixteen greys of the panel, the
-- multiples of 17 up to 255, and to one at most a step of 17 away from it; and an 8 by 8 tile of
-- the byte is dithered to a tile whose mean is within half a unit of it.
pub dithered-Close :
    (x y v : ℕ)
    → v < 256
    → (dither_o8x8 x y v % 17 ≡ 0)
      × (dither_o8x8 x y v ≤ 255)
      × (dither_o8x8 x y v ≤ v + 17)
      × (v ≤ dither_o8x8 x y v + 17)
      × (tile_sum v ≤ 64 * v + 32)
      × (64 * v ≤ tile_sum v + 32)
dithered-Close x y v h =
    let (on, top, up, down) = dither_o8x8-Close x y v h in
    let (above, below) = tile_sum-Mean v h in (on, top, up, down, above, below)
