-- ===== src/Corner.antt =====
-- BB_paint_rounded_corner without anti-aliasing: BB_paint_rounded_corner_noAA and the functions
-- that set one pixel if it is on the screen.
pub mod Points
pub mod Laws
use koreader_base.Prelude.{
  ℕ, zero, suc, ◌+◌, ◌==◌, ◌&&◌, true, false, Option, none, some, ltb, if◌then◌else◌, u32, sub32,
  ◌*◌,
}
use koreader_base.Prelude.Int.{ℤ, pos, pos_part, ◌+ℤ◌, ◌-ℤ◌, ltb_ℤ, leb_ℤ, as_u32, as_int}
use koreader_base.Prelude.Loops.{for_range}
use koreader_base.Color.{BbType, ColorOf, bb8, bb8a, bbrgb16, bbrgb24, bbrgb32}
use koreader_base.Rect.Blend.{pack16}
use koreader_base.Memory.{Bytes, PixelFormat}
use koreader_base.Memory.Formats.{format_of}
use koreader_base.Buffer.{BlitBuffer, bb_type, bb_rotation, get_width, get_height, pixel_offset}

-- The `color` of each branch on the type.
abbrev pub corner_color : (t : BbType) → ℕ → ColorOf t
corner_color bb8 c = record { a = c }
corner_color bb8a c = record { a = c; alpha = 0xff }
corner_color bbrgb16 c = pack16 c c c
corner_color bbrgb24 c = record { r = c; g = c; b = c }
corner_color bbrgb32 c = record { r = c; g = c; b = c; alpha = 0xff }

-- The variables of one circle: `y`, `f`, `ddF_x` and `ddF_y`, or `y2`, `f2`, `ddF2_x`, `ddF2_y`.
pub record Circle : Type 0 where
  pub y : ℤ
  pub f : ℤ
  pub ddf_x : ℤ
  pub ddf_y : ℤ

-- `if (f >= 0) { --y; ddF_y += 2; f += ddF_y; }`
unfoldable pub inward : Circle → Circle
inward o =
    if leb_ℤ (pos 0) o.f
    then record o { y = o.y -ℤ pos 1; f = o.f +ℤ (o.ddf_y +ℤ pos 2); ddf_y = o.ddf_y +ℤ pos 2 }
    else o

-- One step of a circle, for the next column.
unfoldable pub advance : Circle → Circle
unfolding inward
advance o =
    let i = inward o in
    record i { f = i.f +ℤ (i.ddf_x +ℤ pos 2 +ℤ pos 1); ddf_x = i.ddf_x +ℤ pos 2 }

-- `(w-r)+off+v-1` and `(r)+off-v`, in `unsigned int`.
unfoldable pub far_side : ℕ → ℕ → ℤ → ℤ → ℕ
unfolding as_u32
far_side off side r v = as_u32 (pos side -ℤ r +ℤ pos off +ℤ v -ℤ pos 1)

unfoldable pub near_side : ℕ → ℤ → ℤ → ℕ
unfolding as_u32
near_side off r v = as_u32 (r +ℤ pos off -ℤ v)

module _ {C : Type 0} (px : PixelFormat C) (bb : BlitBuffer) (color : C) where
  -- The _SET_PIXEL_CLAMPED functions.
  unfoldable pub set_pixel_clamped : ℕ → ℕ → Bytes → Bytes
  set_pixel_clamped x y m =
      if ltb x (get_width bb) && ltb y (get_height bb)
      then px.store color (pixel_offset bb (bb_rotation bb) px.size x y) m
      else m

  module _ (off_x off_y w h : ℕ) (r : ℤ) where
    -- The eight calls, in their order.
    unfoldable pub set_octants : ℤ → ℤ → Bytes → Bytes
    unfolding set_pixel_clamped far_side near_side
    set_octants x tmp_y m =
        let m1 = set_pixel_clamped (far_side off_x w r x) (far_side off_y h r tmp_y) m in
        let m2 = set_pixel_clamped (far_side off_x w r tmp_y) (far_side off_y h r x) m1 in
        let m3 = set_pixel_clamped (far_side off_x w r tmp_y) (near_side off_y r x) m2 in
        let m4 = set_pixel_clamped (far_side off_x w r x) (near_side off_y r tmp_y) m3 in
        let m5 = set_pixel_clamped (near_side off_x r x) (near_side off_y r tmp_y) m4 in
        let m6 = set_pixel_clamped (near_side off_x r tmp_y) (near_side off_y r x) m5 in
        let m7 = set_pixel_clamped (near_side off_x r tmp_y) (far_side off_y h r x) m6 in
        set_pixel_clamped (near_side off_x r x) (far_side off_y h r tmp_y) m7

    -- `for (int tmp_y = y; tmp_y > y2; tmp_y--)`
    unfoldable pub fill_between : ℕ → ℤ → ℤ → Bytes → Bytes
    unfolding for_range set_octants
    fill_between x y y2 = for_range (pos_part (y -ℤ y2)) 0 (λ k. set_octants (pos x) (y -ℤ pos k))

    -- `while(x < y)`; `none` is a loop that is out of fuel.
    unfoldable pub corner_loop : ℕ → ℕ → ℕ → Circle → Circle → Bytes → Option Bytes
    unfolding advance fill_between
    corner_loop r2 zero x outer inner m = if ltb_ℤ (pos x) outer.y then none else some m
    corner_loop r2 (suc fuel) x outer inner m = elim (ltb_ℤ (pos x) outer.y) [
      | false ↦ some m
      | true ↦
          let outer' = advance outer in
          let inner' = if r2 == 0 then inner else advance inner in
          corner_loop r2 fuel (x + 1) outer' inner' (fill_between (x + 1) outer'.y inner'.y m)
    ]

-- The circles that the loop starts with. The inner one is computed in `unsigned int`, the outer one
-- in `int`, where `-2 * r` overflows for a radius above 2 ^ 30: the integers here have no bounds.
abbrev pub outer_circle : ℤ → Circle
outer_circle r = record { y = r; f = pos 1 -ℤ r; ddf_x = pos 0; ddf_y = pos 0 -ℤ r -ℤ r }

abbrev pub inner_circle : ℕ → Circle
inner_circle r2 = record {
  y = as_int r2;
  f = as_int (sub32 1 r2);
  ddf_x = pos 0;
  ddf_y = as_int (sub32 0 (u32 (2 * r2)));
}

-- BB_paint_rounded_corner_noAA. The loop has fuel for `r` rounds. A buffer of another type is left
-- alone.
unfoldable pub paint_rounded_corner_noaa : BlitBuffer → ℕ → ℕ → ℕ → ℕ → ℤ → ℤ → ℕ → Option Bytes
unfolding corner_loop as_int as_u32
paint_rounded_corner_noaa bb off_x off_y w h bw r c = elim (bb_type bb) [
  | none ↦ some bb.bytes
  | some t ↦
      let r2 = as_u32 (r -ℤ bw) in
      corner_loop (format_of t) bb (corner_color t c) off_x off_y w h r r2 (pos_part r) 0
        (outer_circle r) (inner_circle r2) bb.bytes
]

-- MIN
abbrev pub min_u : ℕ → ℕ → ℕ
min_u a b = if ltb a b then a else b

-- BB_paint_rounded_corner, for an `anti_aliasing` of 0.
unfoldable pub paint_rounded_corner : BlitBuffer → ℕ → ℕ → ℕ → ℕ → ℕ → ℕ → ℕ → Option Bytes
unfolding paint_rounded_corner_noaa
paint_rounded_corner bb off_x off_y w h bw r c =
    let r' = min_u r (min_u h w) in
    let bw' = if ltb r' bw then r' else bw in
    paint_rounded_corner_noaa bb off_x off_y w h (as_int bw') (as_int r') c
