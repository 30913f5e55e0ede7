-- ===== src/Paint/Laws.antt =====
-- The painting loops, against `Repaints`.
use koreader_base.Prelude.{
  ℕ, zero, suc, ◌+◌, ◌-◌, ◌*◌, ◌≤◌, ◌<◌, ◌≡◌, refl, ◌∙◌, ◌≢◌, ◌⊎◌, inl, inr, ◌&&◌, Option, some,
  ltb, leb, ◌==◌, if◌then◌else◌, u32, arith, Option-cases, Bool-cases,
}
use mathlib.Core.Path.{ap₂}
use koreader_base.Prelude.Loops.{for_range}
use koreader_base.Memory.{Bytes, PixelFormat, load-store-Apart}
use koreader_base.Buffer.{BlitBuffer, get_width, get_height, pixel}
use koreader_base.Buffer.Geometry.{
  IsValid, OnScreen, pixel_offset_inside, pixel_offset-Apart, screen_u32,
}
use koreader_base.Paint.{repainted, pixel_in, visit, paint_some, paint_rect, inside, Fits, Repaints}

module _ {C : Type 0} (px : PixelFormat C) (bb : BlitBuffer) (valid : IsValid px.size bb)
    (f : ℕ → ℕ → C → Option C) where
  -- One round repaints its own pixel.
  visit_self :
      (x y : ℕ) (m : Bytes)
      → pixel_in px bb (visit px bb f y x m) x y
        ≡ repainted (f x y (pixel_in px bb m x y)) (pixel_in px bb m x y)
  unfolding visit
  visit_self x y m = elim (Option-cases (f x y (pixel_in px bb m x y))) [
    | inl e ↦ rw (e, visit)
    | inr (c, e) ↦ rw (e, visit) (px.load-store c _ m)
  ]

  -- One round leaves every other pixel of the screen alone.
  visit_other :
      (x y i j : ℕ) (m : Bytes)
      → OnScreen bb x y
      → OnScreen bb i j
      → (x ≢ i) ⊎ (y ≢ j)
      → pixel_in px bb (visit px bb f y x m) i j ≡ pixel_in px bb m i j
  unfolding visit
  visit_other x y i j m here there ne = elim (Option-cases (f x y (pixel_in px bb m x y))) [
    | inl e ↦ rw (e, visit)
    | inr (c, e) ↦
        rw (e, visit)
          (load-store-Apart px c _ _ m (pixel_offset-Apart px.size bb valid x y i j here there ne))
  ]

  visit_pixel :
      (x y i j : ℕ) (m : Bytes)
      → OnScreen bb x y
      → OnScreen bb i j
      → pixel_in px bb (visit px bb f y x m) i j ≡ (
          if x == i && y == j
          then repainted (f i j (pixel_in px bb m i j)) (pixel_in px bb m i j)
          else pixel_in px bb m i j)
  visit_pixel x y i j m here there = elim (Bool-cases (x == i && y == j)) [
    | inl e ↦
        let same : (x ≡ i) × (y ≡ j) = ground arith in
        rw e (rw (← same.0, ← same.1) (visit_self x y m))
    | inr e ↦
        let other : (x ≢ i) ⊎ (y ≢ j) = ground arith in
        rw e (visit_other x y i j m here there other)
  ]

  -- A run of rounds on line `y`, and a run of such lines.
  row_pixel :
      (n x y i j : ℕ) (m : Bytes)
      → x + n ≤ get_width bb
      → y < get_height bb
      → OnScreen bb i j
      → pixel_in px bb (for_range n x (visit px bb f y) m) i j ≡ (
          if leb x i && ltb i (x + n) && (y == j)
          then repainted (f i j (pixel_in px bb m i j)) (pixel_in px bb m i j)
          else pixel_in px bb m i j)
  unfolding for_range
  row_pixel zero x y i j m hx hy there = ground arith
  row_pixel (suc n) x y i j m hx hy there = ground (
    arith,
    row_pixel n (x + 1) y i j (visit px bb f y x m) (omega arith) hy there,
    visit_pixel x y i j m (omega arith) there,
  )

  rows_pixel :
      (n x y w i j : ℕ) (m : Bytes)
      → x + w ≤ get_width bb
      → y + n ≤ get_height bb
      → OnScreen bb i j
      → pixel_in px bb (for_range n y (λ k. for_range w x (visit px bb f k)) m) i j ≡ (
          if inside x y w n i j
          then repainted (f i j (pixel_in px bb m i j)) (pixel_in px bb m i j)
          else pixel_in px bb m i j)
  unfolding for_range
  rows_pixel zero x y w i j m hx hy there = ground arith
  rows_pixel (suc n) x y w i j m hx hy there = ground (
    arith,
    rows_pixel n x (y + 1) w i j (for_range w x (visit px bb f y) m) hx (omega arith) there,
    row_pixel w x y i j m hx (omega arith) there,
  )

  -- Writing on the screen leaves the bytes behind the last line alone.
  visit_beyond :
      (x y a : ℕ) (m : Bytes) → OnScreen bb x y → bb.stride * bb.h ≤ a → visit px bb f y x m a ≡ m a
  unfolding visit
  visit_beyond x y a m here far = elim (Option-cases (f x y (pixel_in px bb m x y))) [
    | inl e ↦ rw (e, visit)
    | inr (c, e) ↦
        rw (e, visit)
          (px.store_outside c _ m a
            (inr (omega (arith, pixel_offset_inside px.size bb valid x y here))))
  ]

  row_beyond :
      (n x y a : ℕ) (m : Bytes)
      → x + n ≤ get_width bb
      → y < get_height bb
      → bb.stride * bb.h ≤ a
      → for_range n x (visit px bb f y) m a ≡ m a
  unfolding for_range
  row_beyond zero x y a m hx hy far = refl
  row_beyond (suc n) x y a m hx hy far =
      row_beyond n (x + 1) y a (visit px bb f y x m) (omega arith) hy far
      ∙ visit_beyond x y a m (omega arith) far

  rows_beyond :
      (n x y w a : ℕ) (m : Bytes)
      → x + w ≤ get_width bb
      → y + n ≤ get_height bb
      → bb.stride * bb.h ≤ a
      → for_range n y (λ k. for_range w x (visit px bb f k)) m a ≡ m a
  unfolding for_range
  rows_beyond zero x y w a m hx hy far = refl
  rows_beyond (suc n) x y w a m hx hy far =
      rows_beyond n x (y + 1) w a (for_range w x (visit px bb f y) m) hx (omega arith) far
      ∙ row_beyond w x y a m hx (omega arith) far

  -- On the screen the loops' ends do not wrap.
  pub paint_some_lem :
      (x y w h : ℕ)
      → Fits bb x y w h
      → paint_some px bb f x y w h ≡ for_range h y (λ j. for_range w x (visit px bb f j)) bb.bytes
  unfolding paint_some
  paint_some_lem x y w h fits =
      let lines : u32 (y + h) - y ≡ h = omega (arith, screen_u32 px.size bb valid) in
      let columns : u32 (x + w) - x ≡ w = omega (arith, screen_u32 px.size bb valid) in
      ap₂ (λ (a b : ℕ). for_range a y (λ j. for_range b x (visit px bb f j)) bb.bytes) lines columns

  -- On a well-formed buffer the loops repaint the rectangle: `f` of the old pixel inside, all else
  -- on the screen and behind the last line as it was.
  pub paint_some-Repaints :
      (x y w h : ℕ) → Fits bb x y w h → Repaints px bb x y w h f (paint_some px bb f x y w h)
  paint_some-Repaints x y w h fits = rw (paint_some_lem x y w h fits) (record {
    pixels = λ i j there. rows_pixel h x y w i j bb.bytes fits.0 fits.1 there;
    beyond = λ a far. rows_beyond h x y w a bb.bytes fits.0 fits.1 far;
  })

module _ {C : Type 0} (px : PixelFormat C) (bb : BlitBuffer) (valid : IsValid px.size bb)
    (f : ℕ → ℕ → C → C) where
  -- The same for the loops that write every pixel.
  pub paint_rect-Repaints :
      (x y w h : ℕ)
      → Fits bb x y w h
      → Repaints px bb x y w h (λ i j c. some (f i j c)) (paint_rect px bb f x y w h)
  unfolding paint_rect
  paint_rect-Repaints = paint_some-Repaints px bb valid (λ i j c. some (f i j c))

-- What a rectangle shows depends on `f` inside the rectangle only.
pub Repaints-congr :
    {C : Type 0} (px : PixelFormat C) (bb : BlitBuffer) (x y w h : ℕ) (f g : ℕ → ℕ → C → Option C)
    (m : Bytes)
    → ((i j : ℕ) (c : C) → x ≤ i → i < x + w → y ≤ j → j < y + h → f i j c ≡ g i j c)
    → Repaints px bb x y w h f m
    → Repaints px bb x y w h g m
Repaints-congr px bb x y w h f g m same painted = record {
  pixels = λ i j on. elim (Bool-cases (inside x y w h i j)) [
    | inl e ↦
        let here : (x ≤ i) × (i < x + w) × (y ≤ j) × (j < y + h) = ground arith in
        let eq = same i j (pixel px bb i j) here.0 here.1 here.2 here.3 in
        rw e (rw (← eq) (rw e at (painted.pixels i j on)))
    | inr e ↦ rw e (rw e at (painted.pixels i j on))
  ];
  beyond = painted.beyond;
}
