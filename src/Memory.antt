-- ===== src/Memory.antt =====
-- The bytes behind `bb->data`, at each offset from it, and the accesses that the blitter makes:
-- single bytes, `memset`, `memcpy`, and whole pixels through an interface.
pub mod Formats
use koreader_base.Prelude.{ℕ, ◌+◌, ◌-◌, ◌≤◌, ◌<◌, ◌≡◌, ◌∙◌, ◌⊎◌, inl, inr, Bool, ◌&&◌, arith}
use koreader_base.Prelude.{if◌then◌else◌, ltb, leb, ◌==◌}

abbrev pub Bytes : Type 0
Bytes = ℕ → ℕ

abbrev pub write : Bytes → ℕ → ℕ → Bytes
write m p v a = if a == p then v else m a

-- `memset(data + p, v, n)`; the C library stores the low byte of `v`.
unfoldable pub memset : Bytes → ℕ → ℕ → ℕ → Bytes
memset m p v n a = if leb p a && ltb a (p + n) then v else m a

-- `memcpy(dst + p, src + q, n)` between two buffers that do not overlap.
unfoldable pub memcpy : Bytes → ℕ → Bytes → ℕ → ℕ → Bytes
memcpy m p src q n a = if leb p a && ltb a (p + n) then src (q + (a - p)) else m a

abbrev pub Apart : ℕ → ℕ → ℕ → Type 0
Apart size p q = (p + size ≤ q) ⊎ (q + size ≤ p)

-- How one pixel type lies in memory: reading and writing through a pointer to its struct.
pub record PixelFormat (C : Type 0) : Type 0 where
  pub size : ℕ
  pub load : Bytes → ℕ → C
  pub store : C → ℕ → Bytes → Bytes
  pub size_pos : 0 < size
  pub size_small : size ≤ 4
  pub load-store : (c : C) (p : ℕ) (m : Bytes) → load (store c p m) p ≡ c
  pub store_outside :
      (c : C) (p : ℕ) (m : Bytes) (a : ℕ) → (a < p) ⊎ (p + size ≤ a) → store c p m a ≡ m a
  pub load_local :
      (m n : Bytes) (p q : ℕ) → ((k : ℕ) → k < size → m (p + k) ≡ n (q + k)) → load m p ≡ load n q

module _ {C : Type 0} (px : PixelFormat C) where
  -- A pixel that does not overlap the written one is unchanged.
  pub load-store-Apart :
      (c : C) (p q : ℕ) (m : Bytes) → Apart px.size p q → px.load (px.store c p m) q ≡ px.load m q
  load-store-Apart c p q m (inl h) =
      px.load_local _ _ q q (λ k hk. px.store_outside c p m (q + k) (inr (omega arith)))
  load-store-Apart c p q m (inr h) =
      px.load_local _ _ q q (λ k hk. px.store_outside c p m (q + k) (inl (omega arith)))
