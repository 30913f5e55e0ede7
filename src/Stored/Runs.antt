-- ===== src/Stored/Runs.antt =====
-- Runs of pixels: a loop over them, and `memset`.
use koreader_base.Prelude.{
  ℕ, zero, suc, ◌+◌, ◌-◌, ◌*◌, ◌≤◌, ◌<◌, ◌≡◌, refl, ◌∙◌, ap, ◌⊎◌, inl, ◌&&◌, if◌then◌else◌, ltb,
  leb, arith,
}
use koreader_base.Memory.{Bytes, PixelFormat, memset, memcpy, load-store-Apart}
use koreader_base.Memory.Formats.{format8, format24}
use koreader_base.Stored.{run_pixels, IsRun}

module _ {C : Type 0} (px : PixelFormat C) (f : C → C) where
  run_outside :
      (n p a : ℕ) (m : Bytes) → (a < p) ⊎ (p + n * px.size ≤ a) → run_pixels px f n p m a ≡ m a
  unfolding run_pixels
  run_outside zero p a m h = refl
  run_outside (suc n) p a m h =
      run_outside n (p + px.size) a _ (grind arith) ∙ px.store_outside _ p m a (grind arith)

  run_hit :
      (n p k : ℕ) (m : Bytes)
      → k < n
      → px.load (run_pixels px f n p m) (p + k * px.size) ≡ f (px.load m (p + k * px.size))
  unfolding run_pixels
  run_hit zero p k m h = elim h [ ]
  run_hit (suc n) p zero m h =
      let here : p + 0 * px.size ≡ p = omega arith in
      let next = px.store (f (px.load m p)) p m in
      rw here (
        px.load_local _ next p p
          (λ i hi. run_outside n (p + px.size) (p + i) next (inl (omega arith)))
        ∙ px.load-store (f (px.load m p)) p m)
  run_hit (suc n) p (suc k) m h =
      let there : p + suc k * px.size ≡ p + px.size + k * px.size = omega arith in
      rw there (
        run_hit n (p + px.size) k _ (omega arith)
        ∙ ap f (load-store-Apart px (f (px.load m p)) p _ m (inl (omega arith))))

  -- The loop over the pixels is a run.
  pub run_pixels-IsRun : (n p : ℕ) (m : Bytes) → IsRun px (λ _. f) n p m (run_pixels px f n p m)
  run_pixels-IsRun n p m = record {
    hit = λ k h. run_hit n p k m h;
    outside = λ a h. run_outside n p a m h;
  }

-- `memset` writes a run of grey pixels where a pixel is one byte, or three.
pub memset8-IsRun :
    (n p v : ℕ) (m : Bytes) → IsRun format8 (λ _ _. record { a = v }) n p m (memset m p v (n * 1))
unfolding memset
memset8-IsRun n p v m = record { hit = λ k h. ground arith; outside = λ a h. ground arith }

pub memset24-IsRun :
    (n p v : ℕ) (m : Bytes)
    → IsRun format24 (λ _ _. record { r = v; g = v; b = v }) n p m (memset m p v (n * 3))
unfolding memset
memset24-IsRun n p v m = record { hit = λ k h. ground arith; outside = λ a h. ground arith }

module _ {C : Type 0} (px : PixelFormat C) where
  -- `memcpy` of `n` pixels is a run of the pixels at the source.
  pub memcpy-IsRun :
      (n p q : ℕ) (m src : Bytes)
      → IsRun px (λ k _. px.load src (q + k * px.size)) n p m (memcpy m p src q (n * px.size))
  unfolding memcpy
  memcpy-IsRun n p q m src = record {
    hit = λ k h. px.load_local _ src (p + k * px.size) (q + k * px.size) (λ i hi. copied k i h hi);
    outside = λ a h. ground arith;
  }
    where
      copied :
          (k i : ℕ)
          → k < n
          → i < px.size
          → (if leb p (p + k * px.size + i) && ltb (p + k * px.size + i) (p + n * px.size)
              then src (q + (p + k * px.size + i - p))
              else m (p + k * px.size + i))
            ≡ src (q + k * px.size + i)
      copied k i h hi =
          let room : k * px.size + px.size ≤ n * px.size = grind arith in
          let at : q + (p + k * px.size + i - p) ≡ q + k * px.size + i = omega arith in
          rw at (ground arith)

  -- A run is one for any function that agrees with it.
  pub IsRun-congr :
      (f g : ℕ → C → C) (n p : ℕ) (m m' : Bytes)
      → ((k : ℕ) (c : C) → k < n → f k c ≡ g k c)
      → IsRun px f n p m m'
      → IsRun px g n p m m'
  IsRun-congr f g n p m m' same run = record {
    hit = λ k h. run.hit k h ∙ same k _ h;
    outside = run.outside;
  }
