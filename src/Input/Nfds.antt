-- ===== src/Input/Nfds.antt =====
-- computeNfds, and the descriptors that `select` watches.
use koreader_base.Prelude.{
  ℕ, zero, suc, ◌+◌, ◌≤◌, ◌<◌, ◌≡◌, refl, sym, ◌⊎◌, inl, inr, Option, none, some, arith,
}
use mathlib.Core.Option.{some-injective}
use mathlib.Core.List.{List, [], ◌∷◌}
use koreader_base.Prelude.Loops.{for_range}
use koreader_base.Input.{Slots, Devices, raise, raise_all, compute_nfds}

-- Every number of the list is below `n`.
abbrev pub AllBelow : ℕ → List ℕ → Type 0
AllBelow n [] = 0 ≤ n
AllBelow n (fd ∷ fds) = (fd < n) × AllBelow n fds

-- Every descriptor in `n` slots from `i` on is below `b`.
abbrev pub SlotsBelow : ℕ → Slots → ℕ → ℕ → Type 0
SlotsBelow b slots i n = (k fd : ℕ) → i ≤ k → k < i + n → slots k ≡ some fd → fd < b

pub AllBelow-le : (n m : ℕ) (fds : List ℕ) → AllBelow n fds → n ≤ m → AllBelow m fds
AllBelow-le n m [] h le = omega arith
AllBelow-le n m (fd ∷ fds) h le = (omega arith, AllBelow-le n m fds h.1 le)

raise_ge : (o : Option ℕ) (n : ℕ) → n ≤ raise o n
unfolding raise
raise_ge o n = ground arith

raise_gt : (fd n : ℕ) → fd < raise (some fd) n
unfolding raise
raise_gt fd n = ground arith

raise_le : (o : Option ℕ) (n b : ℕ) → n ≤ b → ((fd : ℕ) → o ≡ some fd → fd < b) → raise o n ≤ b
unfolding raise
raise_le none n b le below = le
raise_le (some fd) n b le below = let h = below fd refl in ground arith

raise_all_ge : (fds : List ℕ) (n : ℕ) → n ≤ raise_all fds n
unfolding raise_all
raise_all_ge [] n = omega arith
raise_all_ge (fd ∷ fds) n =
    omega (arith, raise_ge (some fd) n, raise_all_ge fds (raise (some fd) n))

raise_all-AllBelow : (fds : List ℕ) (n : ℕ) → AllBelow (raise_all fds n) fds
unfolding raise_all
raise_all-AllBelow [] n = omega arith
raise_all-AllBelow (fd ∷ fds) n = (
  omega (arith, raise_gt fd n, raise_all_ge fds (raise (some fd) n)),
  raise_all-AllBelow fds (raise (some fd) n),
)

raise_all_le : (fds : List ℕ) (n b : ℕ) → n ≤ b → AllBelow b fds → raise_all fds n ≤ b
unfolding raise_all
raise_all_le [] n b le below = le
raise_all_le (fd ∷ fds) n b le below =
    raise_all_le fds (raise (some fd) n) b
      (raise_le (some fd) n b le (λ f e. rw (sym (some-injective _ _ e)) below.0)) below.1

scan_ge : (slots : Slots) (n i m : ℕ) → m ≤ for_range n i (λ k. raise (slots k)) m
unfolding for_range
scan_ge slots zero i m = omega arith
scan_ge slots (suc n) i m =
    omega (arith, raise_ge (slots i) m, scan_ge slots n (i + 1) (raise (slots i) m))

scan-SlotsBelow :
    (slots : Slots) (n i m : ℕ) → SlotsBelow (for_range n i (λ k. raise (slots k)) m) slots i n
unfolding for_range
scan-SlotsBelow slots zero i m k fd lo hi e = absurd (omega arith)
scan-SlotsBelow slots (suc n) i m k fd lo hi e = elim (eq_or_lt i k lo) [
  | inl at ↦
      let here : slots i ≡ some fd = rw at e in
      rw here (omega (arith, raise_gt fd m, scan_ge slots n (i + 1) (raise (some fd) m)))
  | inr past ↦
      scan-SlotsBelow slots n (i + 1) (raise (slots i) m) k fd (omega arith) (omega arith) e
]
  where
    eq_or_lt : (i k : ℕ) → i ≤ k → (i ≡ k) ⊎ (i < k)
    eq_or_lt i k h = omega arith

scan_le :
    (slots : Slots) (n i m b : ℕ)
    → m ≤ b
    → SlotsBelow b slots i n
    → for_range n i (λ k. raise (slots k)) m ≤ b
unfolding for_range
scan_le slots zero i m b le below = le
scan_le slots (suc n) i m b le below =
    scan_le slots n (i + 1) (raise (slots i) m) b
      (raise_le (slots i) m b le (λ fd. below i fd (omega arith) (omega arith)))
      (λ k fd lo hi. below k fd (omega arith) (omega arith))

-- `nfds` is above the descriptor of every open device and timer.
abbrev pub CoversAll : ℕ → Devices → Type 0
CoversAll n d = SlotsBelow n d.inputfds 0 d.fd_idx × AllBelow n d.timerfds

pub computed-CoversAll : (d : Devices) → CoversAll (compute_nfds d).nfds d
unfolding compute_nfds
computed-CoversAll d =
    let scanned = for_range d.fd_idx 0 (λ i. raise (d.inputfds i)) 0 in
    (
      λ k fd lo hi e. omega (
        arith,
        scan-SlotsBelow d.inputfds d.fd_idx 0 0 k fd lo hi e,
        raise_all_ge d.timerfds scanned,
      ),
      raise_all-AllBelow d.timerfds scanned,
    )

-- For any number that is above the descriptor of every open input device and of every timer: after
-- computeNfds, `nfds` is such a number too, and at most that one, so the least; the table, the
-- timers and the closed descriptors are as before.
pub compute_nfds-CoversAll :
    (d : Devices) (n : ℕ)
    → CoversAll n d
    → CoversAll (compute_nfds d).nfds d
      × ((compute_nfds d).nfds ≤ n)
      × (compute_nfds d ≡ record d { nfds = (compute_nfds d).nfds })
unfolding compute_nfds
compute_nfds-CoversAll d n covers =
    let scanned = for_range d.fd_idx 0 (λ i. raise (d.inputfds i)) 0 in
    (
      computed-CoversAll d,
      raise_all_le d.timerfds scanned n (scan_le d.inputfds d.fd_idx 0 0 n (omega arith) covers.0)
          covers.1,
      refl,
    )
