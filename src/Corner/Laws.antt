-- ===== src/Corner/Laws.antt =====
-- The loop of BB_paint_rounded_corner_noAA and what it paints.
use koreader_base.Prelude.{
  ℕ, zero, suc, ◌+◌, ◌*◌, ◌^◌, ◌≤◌, ◌<◌, ◌≡◌, refl, false, ◌==◌, inl, inr, Option, some, arith,
  Bool-cases, if◌then◌else◌, ltb,
}
use koreader_base.Prelude.Int.{
  ℤ, pos, pos_part, neg_part, ◌+ℤ◌, ◌-ℤ◌, ◌≤ℤ◌, ◌<ℤ◌, ltb_ℤ, leb_ℤ, as_u32, as_u32-pos_part, as_int,
  one_part, int_laws,
}
use koreader_base.Prelude.Loops.{for_range_keeps_within}
use koreader_base.Color.{BbType}
use koreader_base.Memory.{Bytes, PixelFormat}
use koreader_base.Memory.Formats.{format_of}
use koreader_base.Buffer.{BlitBuffer, bb_type}
use koreader_base.Buffer.Geometry.{IsValid, screen_u32}
use koreader_base.Paint.{Fits}
use koreader_base.Corner.{
  set_pixel_clamped, Circle, inward, advance, far_side, near_side, set_octants, fill_between,
  corner_loop, outer_circle, inner_circle, corner_color, paint_rounded_corner_noaa,
  paint_rounded_corner, min_u,
}
use koreader_base.Corner.Points.{
  PaintsOnly, PaintsOnly-refl, PaintsOnly-trans, set_pixel_clamped-PaintsOnly, Within, Between,
  far_side-Between, near_side-Between,
}

-- A step of a circle goes at most one line inwards.
advance_lem : (o : Circle) → ((advance o).y ≤ℤ o.y) × (o.y ≤ℤ (advance o).y +ℤ pos 1)
unfolding advance inward
advance_lem o = elim (Bool-cases (leb_ℤ (pos 0) o.f)) [
  | inl e ↦ rw e (omega int_laws)
  | inr e ↦ rw e (omega int_laws)
]

-- It returns, having painted only what `P` and `Q` allow.
abbrev pub ReturnsPainted :
    {C : Type 0}
    → PixelFormat C
    → BlitBuffer
    → C
    → (ℕ → Type 0)
    → (ℕ → Type 0)
    → Bytes
    → Option Bytes
    → Type 0
ReturnsPainted px bb color P Q m result =
    (m' : Bytes) × (result ≡ some m') × PaintsOnly px bb color P Q m m'

module _ {C : Type 0} (px : PixelFormat C) (bb : BlitBuffer) (valid : IsValid px.size bb)
    (color : C) (P Q : ℕ → Type 0) (off_x off_y w h : ℕ) (r : ℤ) (V : ℤ → Type 0)
    (far_x : (v : ℤ) → V v → P (far_side off_x w r v))
    (near_x : (v : ℤ) → V v → P (near_side off_x r v))
    (far_y : (v : ℤ) → V v → Q (far_side off_y h r v))
    (near_y : (v : ℤ) → V v → Q (near_side off_y r v)) where
  set_then :
      (x y : ℕ) (m m' : Bytes)
      → P x
      → Q y
      → PaintsOnly px bb color P Q m m'
      → PaintsOnly px bb color P Q m (set_pixel_clamped px bb color x y m')
  set_then x y m m' p q before =
      PaintsOnly-trans px bb valid color P Q m m' _ before
        (set_pixel_clamped-PaintsOnly px bb valid color P Q x y m' p q)

  set_octants-PaintsOnly :
      (x v : ℤ) (m : Bytes)
      → V x
      → V v
      → PaintsOnly px bb color P Q m (set_octants px bb color off_x off_y w h r x v m)
  unfolding set_octants
  set_octants-PaintsOnly x v m hx hv = set_then _ _ m _ (near_x x hx) (far_y v hv) (
      set_then _ _ m _ (near_x v hv) (far_y x hx) (
        set_then _ _ m _ (near_x v hv) (near_y x hx) (
          set_then _ _ m _ (near_x x hx) (near_y v hv) (
            set_then _ _ m _ (far_x x hx) (near_y v hv) (
              set_then _ _ m _ (far_x v hv) (near_y x hx) (
                set_then _ _ m _ (far_x v hv) (far_y x hx) (
                  set_then _ _ m _ (far_x x hx) (far_y v hv)
                    (PaintsOnly-refl px bb valid color P Q m))))))))

  fill_between-PaintsOnly :
      (x : ℕ) (y y2 : ℤ) (m : Bytes)
      → V (pos x)
      → ((v : ℤ) → y2 <ℤ v → v ≤ℤ y → V v)
      → PaintsOnly px bb color P Q m (fill_between px bb color off_x off_y w h r x y y2 m)
  unfolding fill_between
  fill_between-PaintsOnly x y y2 m hx hv =
      for_range_keeps_within (PaintsOnly px bb color P Q m) _ (pos_part (y -ℤ y2)) 0 m
        (λ k m' lo hi before. PaintsOnly-trans px bb valid color P Q m m' _ before (
          set_octants-PaintsOnly (pos x) (y -ℤ pos k) m' hx
            (hv (y -ℤ pos k) (omega (int_laws, one_part (y -ℤ y2))) (omega int_laws))))
        (PaintsOnly-refl px bb valid color P Q m)

  -- What `Inv` says of the column and the two lines, one step of each circle keeps, and it allows
  -- what lies between them.
  module _ (Inv : ℕ → ℤ → ℤ → Type 0)
      (step : (x : ℕ) (y y2 y' y2' : ℤ)
        → Inv x y y2
        → pos x <ℤ y
        → (y' ≤ℤ y) × (y ≤ℤ y' +ℤ pos 1)
        → (y2' ≤ℤ y2) × (y2 ≤ℤ y2' +ℤ pos 1)
        → Inv (x + 1) y' y2' × V (pos (x + 1)) × ((v : ℤ) → y2' <ℤ v → v ≤ℤ y' → V v)) where
    corner_loop-ReturnsPainted :
        (r2 fuel x : ℕ) (outer inner : Circle) (m : Bytes)
        → outer.y ≤ℤ pos (x + fuel)
        → Inv x outer.y inner.y
        → ReturnsPainted px bb color P Q m
            (corner_loop px bb color off_x off_y w h r r2 fuel x outer inner m)
    unfolding corner_loop
    corner_loop-ReturnsPainted r2 zero x outer inner m enough inv =
        let ends : ltb_ℤ (pos x) outer.y ≡ false = ground arith in
        rw ends (m, refl, PaintsOnly-refl px bb valid color P Q m)
    corner_loop-ReturnsPainted r2 (suc fuel) x outer inner m enough inv =
        elim (Bool-cases (ltb_ℤ (pos x) outer.y)) [
          | inr e ↦ rw (e, corner_loop) (m, refl, PaintsOnly-refl px bb valid color P Q m)
          | inl e ↦
              let inner' = if r2 == 0 then inner else advance inner in
              let lines : (inner'.y ≤ℤ inner.y) × (inner.y ≤ℤ inner'.y +ℤ pos 1) =
                inner_lem r2 inner in
              let below : pos x <ℤ outer.y = ground arith in
              let next =
                step x outer.y inner.y (advance outer).y inner'.y inv below (advance_lem outer)
                  lines in
              let m1 =
                fill_between px bb color off_x off_y w h r (x + 1) (advance outer).y inner'.y m in
              let rest =
                corner_loop-ReturnsPainted r2 fuel (x + 1) (advance outer) inner' m1
                  (omega (int_laws, advance_lem outer)) next.0 in
              rw (e, corner_loop)
                (
                  rest.0,
                  rest.1,
                  PaintsOnly-trans px bb valid color P Q m m1 rest.0
                      (fill_between-PaintsOnly (x + 1) _ _ m next.1 next.2) rest.2,
                )
        ]
      where
        inner_lem :
            (r2 : ℕ) (inner : Circle)
            → let i = if r2 == 0 then inner else advance inner in
              (i.y ≤ℤ inner.y) × (inner.y ≤ℤ i.y +ℤ pos 1)
        inner_lem r2 inner = elim (Bool-cases (r2 == 0)) [
          | inl e ↦ rw e (omega int_laws)
          | inr e ↦ rw e (advance_lem inner)
        ]

as_int_small : (n : ℕ) → n < 2 ^ 31 → as_int n ≡ pos n
unfolding as_int
as_int_small n h = ground arith

-- A column or a line without a condition.
abbrev pub Anywhere : ℕ → Type 0
Anywhere k = 0 ≤ k

abbrev AnyOffset : ℤ → Type 0
AnyOffset v = 0 ≤ pos_part v

-- In the range of `int`.
abbrev pub IsInt : ℤ → Type 0
IsInt v = (pos_part v < 2 ^ 31) × (neg_part v ≤ 2 ^ 31)

module _ (bb : BlitBuffer) (t : BbType) (typed : bb_type bb ≡ some t)
    (valid : IsValid (format_of t).size bb) where
  module _ (off_x off_y w h r : ℕ) (room_x : 2 * r ≤ w) (room_y : 2 * r ≤ h)
      (fits : Fits bb off_x off_y w h) where
    corner_step :
        (x : ℕ) (y y2 y' y2' : ℤ)
        → (y ≤ℤ pos r) × (pos 0 ≤ℤ y2 +ℤ pos x)
        → pos x <ℤ y
        → (y' ≤ℤ y) × (y ≤ℤ y' +ℤ pos 1)
        → (y2' ≤ℤ y2) × (y2 ≤ℤ y2' +ℤ pos 1)
        → ((y' ≤ℤ pos r) × (pos 0 ≤ℤ y2' +ℤ pos (x + 1)))
          × Within r (pos (x + 1))
          × ((v : ℤ) → y2' <ℤ v → v ≤ℤ y' → Within r v)
    corner_step x y y2 y' y2' inv more outer inner =
        (omega int_laws, omega int_laws, λ v lo hi. omega int_laws)

    noaa-within :
        (bw c : ℕ)
        → bw ≤ r
        → ReturnsPainted
            (format_of t)
            bb
            (corner_color t c)
            (Between off_x w)
            (Between off_y h)
            bb.bytes
            (paint_rounded_corner_noaa bb off_x off_y w h (pos bw) (pos r) c)
    unfolding paint_rounded_corner_noaa
    noaa-within bw c thin =
        let wide : off_x + w < 2 ^ 32 = omega (arith, screen_u32 (format_of t).size bb valid) in
        let high : off_y + h < 2 ^ 32 = omega (arith, screen_u32 (format_of t).size bb valid) in
        let d = pos r -ℤ pos bw in
        let r2 = as_u32 d in
        let up : pos 0 ≤ℤ d = omega int_laws in
        let r2_int : as_int r2 ≡ pos r2 =
          as_int_small r2 (omega (int_laws, one_part d, as_u32-pos_part d up)) in
        rw (typed, paint_rounded_corner_noaa)
          (corner_loop-ReturnsPainted (format_of t) bb valid (corner_color t c) (Between off_x w)
            (Between off_y h) off_x off_y w h (pos r) (Within r)
            (λ v. far_side-Between off_x w r v room_x wide)
            (λ v. near_side-Between off_x w r v room_x wide)
            (λ v. far_side-Between off_y h r v room_y high)
            (λ v. near_side-Between off_y h r v room_y high)
            (λ x y y2. (y ≤ℤ pos r) × (pos 0 ≤ℤ y2 +ℤ pos x)) corner_step r2 r 0
            (outer_circle (pos r)) (inner_circle r2) bb.bytes (omega arith)
            (omega arith, rw r2_int (omega int_laws)))

    -- For a well-formed buffer, a rectangle on its screen and a radius of at most half of either
    -- side, BB_paint_rounded_corner without anti-aliasing returns, and paints within the
    -- rectangle: every pixel of the screen is as it was, or it lies in the rectangle and has the
    -- colour, whatever the border width; nothing behind the last line changes.
    pub paint_rounded_corner-within :
        (bw c : ℕ)
        → ReturnsPainted
            (format_of t)
            bb
            (corner_color t c)
            (Between off_x w)
            (Between off_y h)
            bb.bytes
            (paint_rounded_corner bb off_x off_y w h bw r c)
    unfolding paint_rounded_corner
    paint_rounded_corner-within bw c =
        let bw' = if ltb r bw then r else bw in
        let thin : bw' ≤ r = ground arith in
        let cut : min_u r (min_u h w) ≡ r = ground arith in
        let screen = screen_u32 (format_of t).size bb valid in
        let r_int : as_int r ≡ pos r = as_int_small r (omega (arith, screen)) in
        let bw_int : as_int bw' ≡ pos bw' = as_int_small bw' (omega (arith, screen)) in
        rw (cut, r_int, bw_int, paint_rounded_corner) (noaa-within bw' c thin)
