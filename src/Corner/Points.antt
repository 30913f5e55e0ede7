-- ===== src/Corner/Points.antt =====
-- One pixel of a corner: what setting it changes, and where it lies.
use koreader_base.Prelude.{
  ℕ, ◌+◌, ◌*◌, ◌^◌, ◌≤◌, ◌<◌, ◌≡◌, refl, ◌∙◌, ◌≢◌, ◌⊎◌, inl, inr, ◌&&◌, ltb, ◌==◌, arith,
  Bool-cases,
}
use koreader_base.Prelude.Int.{ℤ, pos, ◌+ℤ◌, ◌-ℤ◌, ◌≤ℤ◌, as_u32-pos_part, one_part, int_laws}
use koreader_base.Memory.{Bytes, PixelFormat, load-store-Apart}
use koreader_base.Buffer.{BlitBuffer, bb_rotation, get_width, get_height, pixel_offset}
use koreader_base.Buffer.Geometry.{IsValid, OnScreen, pixel_offset_inside, pixel_offset-Apart}
use koreader_base.Paint.{pixel_in}
use koreader_base.Corner.{set_pixel_clamped, far_side, near_side}

-- From `m` to `m'`, a pixel of the screen stays or becomes `color`, the latter only in a column
-- and a line that are allowed; and nothing behind the last line changes.
pub record PaintsOnly {C : Type 0} (px : PixelFormat C) (bb : BlitBuffer) (color : C)
    (P Q : ℕ → Type 0) (m m' : Bytes) : Type 0 where
  pub pixels :
      (i j : ℕ)
      → OnScreen bb i j
      → (pixel_in px bb m' i j ≡ pixel_in px bb m i j)
        ⊎ (P i × Q j × (pixel_in px bb m' i j ≡ color))
  pub beyond : (a : ℕ) → bb.stride * bb.h ≤ a → m' a ≡ m a

module _ {C : Type 0} (px : PixelFormat C) (bb : BlitBuffer) (valid : IsValid px.size bb)
    (color : C) (P Q : ℕ → Type 0) where
  pub PaintsOnly-refl : (m : Bytes) → PaintsOnly px bb color P Q m m
  PaintsOnly-refl m = record { pixels = λ i j on. inl refl; beyond = λ a far. refl }

  pub PaintsOnly-trans :
      (m m' m'' : Bytes)
      → PaintsOnly px bb color P Q m m'
      → PaintsOnly px bb color P Q m' m''
      → PaintsOnly px bb color P Q m m''
  PaintsOnly-trans m m' m'' first second = record {
    pixels = λ i j on. elim (second.pixels i j on) [
      | inl same ↦ elim (first.pixels i j on) [
        | inl before ↦ inl (same ∙ before)
        | inr (p, q, e) ↦ inr (p, q, same ∙ e)
      ]
      | inr set ↦ inr set
    ];
    beyond = λ a far. second.beyond a far ∙ first.beyond a far;
  }

  set_pixel_on :
      (x y i j : ℕ) (m m' : Bytes)
      → OnScreen bb x y
      → OnScreen bb i j
      → P x
      → Q y
      → m' ≡ px.store color (pixel_offset bb (bb_rotation bb) px.size x y) m
      → (pixel_in px bb m' i j ≡ pixel_in px bb m i j)
        ⊎ (P i × Q j × (pixel_in px bb m' i j ≡ color))
  set_pixel_on x y i j m m' here there p q e = elim (Bool-cases (x == i && y == j)) [
    | inl hit ↦
        let same : (x ≡ i) × (y ≡ j) = ground arith in
        inr (rw (← same.0) p, rw (← same.1) q, rw (e, ← same.0, ← same.1) (px.load-store color _ m))
    | inr miss ↦
        let other : (x ≢ i) ⊎ (y ≢ j) = ground arith in
        inl (
          rw e (
            load-store-Apart px color _ _ m
              (pixel_offset-Apart px.size bb valid x y i j here there other)))
  ]

  -- Whatever the coordinates, a pixel off the screen is not set.
  pub set_pixel_clamped-PaintsOnly :
      (x y : ℕ) (m : Bytes)
      → P x
      → Q y
      → PaintsOnly px bb color P Q m (set_pixel_clamped px bb color x y m)
  unfolding set_pixel_clamped
  set_pixel_clamped-PaintsOnly x y m p q =
      elim (Bool-cases (ltb x (get_width bb) && ltb y (get_height bb))) [
        | inl e ↦
            let on : OnScreen bb x y = ground arith in
            rw (e, set_pixel_clamped)
              (record {
                pixels = λ i j there. set_pixel_on x y i j m _ on there p q refl;
                beyond = λ a far.
                    px.store_outside color _ m a
                      (inr (omega (arith, pixel_offset_inside px.size bb valid x y on)));
              })
        | inr e ↦ rw (e, set_pixel_clamped) (PaintsOnly-refl m)
      ]

-- An offset from a corner's centre at which a point stays within the rectangle.
abbrev pub Within : ℕ → ℤ → Type 0
Within r v = (v ≤ℤ pos r) × (pos 1 ≤ℤ pos r +ℤ v)

abbrev pub Between : ℕ → ℕ → ℕ → Type 0
Between off side k = (off ≤ k) × (k < off + side)

module _ (off side r : ℕ) (v : ℤ) (room : 2 * r ≤ side) (small : off + side < 2 ^ 32)
    (within : Within r v) where
  pub far_side-Between : Between off side (far_side off side (pos r) v)
  unfolding far_side
  far_side-Between =
      let z = pos side -ℤ pos r +ℤ pos off +ℤ v -ℤ pos 1 in
      let up : pos 0 ≤ℤ z = omega int_laws in omega (int_laws, one_part z, as_u32-pos_part z up)

  pub near_side-Between : Between off side (near_side off (pos r) v)
  unfolding near_side
  near_side-Between =
      let z = pos r +ℤ pos off -ℤ v in
      let up : pos 0 ≤ℤ z = omega int_laws in omega (int_laws, one_part z, as_u32-pos_part z up)
