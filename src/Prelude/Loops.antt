-- ===== src/Prelude/Loops.antt =====
-- Counted loops over `unsigned int`.
use Prim.Native.Nat.{ℕ, zero, suc, ◌+◌, ◌-◌, ◌≤◌, ◌<◌}
use mathlib.Core.Path.{◌≡◌, refl}
use native.Mathlib.Omega.{arith}
use koreader_base.Prelude.Words.{u32}

-- `n` rounds from `i` on.
unfoldable pub for_range {ℓ} : {S : Type ℓ} → ℕ → ℕ → (ℕ → S → S) → S → S
for_range zero k round before = before
for_range (suc left) k round before = for_range left (k + 1) round (round k before)

-- `for (unsigned int k = from; k < from + span; k++)`. The end is computed once per test and
-- wraps at 32 bits; `k` stays below it, so `k++` does not wrap.
unfoldable pub for_u32 {ℓ} : {S : Type ℓ} → ℕ → ℕ → (ℕ → S → S) → S → S
unfolding for_range
for_u32 from span body s = for_range (u32 (from + span) - from) from body s

-- What every round of the loop keeps, the loop keeps.
pub for_range_keeps_within {ℓ κ} :
    {S : Type ℓ} (P : S → Type κ) (body : ℕ → S → S) (n i : ℕ) (s : S)
    → ((k : ℕ) (s : S) → i ≤ k → k < i + n → P s → P (body k s))
    → P s
    → P (for_range n i body s)
unfolding for_range
for_range_keeps_within P body zero i s keep h = h
for_range_keeps_within P body (suc n) i s keep h =
    for_range_keeps_within P body n (i + 1) (body i s)
      (λ k s lo hi. keep k s (omega arith) (omega arith)) (keep i s (omega arith) (omega arith) h)

-- A loop whose rounds are those of a loop further on is that loop.
pub for_range_shift {ℓ} :
    {S : Type ℓ} (base n i j : ℕ) (body body' : ℕ → S → S) (s : S)
    → base + i ≡ j
    → ((k : ℕ) (s : S) → i ≤ k → k < i + n → body k s ≡ body' (base + k) s)
    → for_range n i body s ≡ for_range n j body' s
unfolding for_range
for_range_shift base zero i j body body' s e same = refl
for_range_shift base (suc n) i j body body' s e same =
    let here : body i s ≡ body' (base + i) s = same i s (omega arith) (omega arith) in
    rw (here, e)
      (for_range_shift base n (i + 1) (j + 1) body body' (body' j s) (omega arith)
        (λ k s lo hi. same k s (omega arith) (omega arith)))

-- A property of the counter and the state that every round takes on to the next.
pub for_range_inv {ℓ κ} :
    {S : Type ℓ} (P : ℕ → S → Type κ) (body : ℕ → S → S) (n i j : ℕ) (s : S)
    → i + n ≡ j
    → ((k : ℕ) (s : S) → i ≤ k → k < j → P k s → P (k + 1) (body k s))
    → P i s
    → P j (for_range n i body s)
unfolding for_range
for_range_inv P body zero i j s e keep h = let at : i ≡ j = omega arith in rw (← at) h
for_range_inv P body (suc n) i j s e keep h =
    for_range_inv P body n (i + 1) j (body i s) (omega arith)
      (λ k s lo hi. keep k s (omega arith) hi) (keep i s (omega arith) (omega arith) h)
