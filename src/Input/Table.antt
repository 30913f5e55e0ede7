-- ===== src/Input/Table.antt =====
-- The operations on the table, slot by slot.
use koreader_base.Prelude.{
  ℕ, zero, suc, ◌+◌, ◌-◌, ◌≤◌, ◌<◌, ◌≡◌, ◌≢◌, refl, ◌∙◌, false, ◌⊎◌, inl, inr, ◌&&◌, Option, none,
  some, ltb, leb, ◌==◌, if◌then◌else◌, arith, Bool-cases,
}
use mathlib.Core.List.{◌∷◌}
use koreader_base.Prelude.Loops.{for_range}
use koreader_base.Input.{
  Slots, Devices, slot_count, write, compute_nfds, add_fd, shift_back, repack_fd_array,
  close_input_device, close_by_fd, find_fd, done, not_open, close,
}
use koreader_base.Input.Nfds.{CoversAll, computed-CoversAll}

-- The first `fd_idx` of the eight slots hold descriptors and the others -1, and `nfds` is above
-- every open descriptor.
pub record IsDense (d : Devices) : Type 0 where
  pub room : d.fd_idx ≤ slot_count
  pub below : (i : ℕ) → i < d.fd_idx → (fd : ℕ) × (d.inputfds i ≡ some fd)
  pub above : (i : ℕ) → d.fd_idx ≤ i → d.inputfds i ≡ none
  pub covers : CoversAll d.nfds d

-- A dense table, after computeNfds.
pub compute_nfds-IsDense :
    (d : Devices)
    → d.fd_idx ≤ slot_count
    → ((i : ℕ) → i < d.fd_idx → (fd : ℕ) × (d.inputfds i ≡ some fd))
    → ((i : ℕ) → d.fd_idx ≤ i → d.inputfds i ≡ none)
    → IsDense (compute_nfds d)
unfolding compute_nfds
compute_nfds-IsDense d room below above = record {
  room = room;
  below = below;
  above = above;
  covers = computed-CoversAll d;
}

pub add_fd-IsDense :
    (fd : ℕ) (d : Devices) → IsDense d → d.fd_idx < slot_count → IsDense (add_fd fd d)
unfolding add_fd
add_fd-IsDense fd d dense free =
    compute_nfds-IsDense
      (record d { inputfds = write d.inputfds d.fd_idx (some fd); fd_idx = d.fd_idx + 1 })
      (omega arith)
      (λ i h. elim (Bool-cases (i == d.fd_idx)) [
        | inl e ↦ (fd, rw e refl)
        | inr e ↦ let old = dense.below i (ground arith) in (old.0, rw e old.1)
      ])
      (λ i h. let e : (i == d.fd_idx) ≡ false = ground arith in rw e (dense.above i (omega arith)))

shift_back_lem :
    (n k : ℕ) (slots : Slots) (i : ℕ)
    → shift_back k n slots i ≡ (if leb k i && ltb i (k + n) then slots (i + 1) else slots i)
unfolding shift_back for_range
shift_back_lem zero k slots i = ground arith
shift_back_lem (suc n) k slots i =
    ground (arith, shift_back_lem n (k + 1) (write slots k (slots (k + 1))) i)

-- From `d` to `d'`, the slot `k` is taken out and those after it move up.
abbrev pub Removed : ℕ → Devices → Devices → Type 0
Removed k d d' =
    (d'.fd_idx + 1 ≡ d.fd_idx)
    × ((i : ℕ) → d'.inputfds i ≡ (if ltb i k then d.inputfds i else d.inputfds (i + 1)))

pub repack_fd_array-Removed :
    (k : ℕ) (d : Devices) → IsDense d → k < d.fd_idx → Removed k d (repack_fd_array k d)
unfolding repack_fd_array compute_nfds
repack_fd_array-Removed k d dense h = (
  omega arith,
  λ i.
      ground (
        arith,
        shift_back_lem (d.fd_idx - 1 - k) k d.inputfds i,
        dense.above i,
        dense.above (i + 1),
      ),
)

pub repack_fd_array-IsDense :
    (k : ℕ) (d : Devices) → IsDense d → k < d.fd_idx → IsDense (repack_fd_array k d)
unfolding repack_fd_array
repack_fd_array-IsDense k d dense h =
    let moved = (repack_fd_array-Removed k d dense h).1 in
    compute_nfds-IsDense
      (record d {
        inputfds = write (shift_back k (d.fd_idx - 1 - k) d.inputfds) (d.fd_idx - 1) none;
        fd_idx = d.fd_idx - 1;
      })
      (omega arith)
      (λ i lt. elim (Bool-cases (ltb i k)) [
        | inl e ↦ let old = dense.below i (omega arith) in (old.0, moved i ∙ rw e old.1)
        | inr e ↦ let old = dense.below (i + 1) (omega arith) in (old.0, moved i ∙ rw e old.1)
      ])
      (λ i le.
        let e : ltb i k ≡ false = ground arith in
        moved i ∙ rw e (dense.above (i + 1) (omega arith)))

-- Calling `close` does not touch the table.
pub close-IsDense : (fd : ℕ) (d : Devices) → IsDense d → IsDense (close fd d)
close-IsDense fd d dense = record {
  room = dense.room;
  below = dense.below;
  above = dense.above;
  covers = dense.covers;
}

find_fd_lem :
    (slots : Slots) (fd n i : ℕ)
    → ((find_fd slots fd n i ≡ none) × ((k : ℕ) → i ≤ k → k < i + n → slots k ≢ some fd))
      ⊎ ((k : ℕ) × (find_fd slots fd n i ≡ some k)
          × (i ≤ k)
          × (k < i + n)
          × (slots k ≡ some fd)
          × ((j : ℕ) → i ≤ j → j < k → slots j ≢ some fd))
unfolding find_fd
find_fd_lem slots fd zero i = inl (refl, λ k lo hi. absurd (omega arith))
find_fd_lem slots fd (suc n) i = elim (here_or_not (slots i)) [
  | inl (at, found) ↦ inr (i, found, omega arith, omega arith, at, λ j lo hi. absurd (omega arith))
  | inr (other, on) ↦ elim (find_fd_lem slots fd n (i + 1)) [
    | inl (none_found, absent) ↦ inl (
      on ∙ none_found,
      λ k lo hi. elim (first_or_later i k lo) [
        | inl e ↦ rw (← e) other
        | inr lt ↦ absent k (omega arith) (omega arith)
      ],
    )
    | inr (k, found, lo, hi, at, before) ↦ inr (
      k,
      on ∙ found,
      omega arith,
      omega arith,
      at,
      λ j lo' hi'. elim (first_or_later i j lo') [
        | inl e ↦ rw (← e) other
        | inr lt ↦ before j (omega arith) hi'
      ],
    )
  ]
]
  where
    first_or_later : (i k : ℕ) → i ≤ k → (i ≡ k) ⊎ (i < k)
    first_or_later i k h = omega arith

    here_or_not :
        (o : Option ℕ)
        → ((o ≡ some fd)
            × ((elim o [
              | none ↦ find_fd slots fd n (i + 1)
              | some f ↦ if f == fd then some i else find_fd slots fd n (i + 1)
            ])
                ≡ some i))
          ⊎ ((o ≢ some fd)
              × ((elim o [
                | none ↦ find_fd slots fd n (i + 1)
                | some f ↦ if f == fd then some i else find_fd slots fd n (i + 1)
              ])
                  ≡ find_fd slots fd n (i + 1)))
    here_or_not o = ground arith

-- None of the first `n` slots holds `fd`.
abbrev pub Absent : Slots → ℕ → ℕ → Type 0
Absent slots fd n = (k : ℕ) → k < n → slots k ≢ some fd

-- On a dense table, closeByFd either finds that no open slot holds the descriptor, changes nothing
-- and answers ENODEV; or it takes out the first slot that holds it, moves those after it up,
-- closes the descriptor, and leaves a dense table.
pub close_by_fd-Removed :
    (fd : ℕ) (d : Devices)
    → IsDense d
    → (Absent d.inputfds fd d.fd_idx × (close_by_fd fd d ≡ (not_open, d)))
      ⊎ ((k : ℕ) × (k < d.fd_idx)
          × (d.inputfds k ≡ some fd)
          × Absent d.inputfds fd k
          × ((close_by_fd fd d).0 ≡ done)
          × ((close_by_fd fd d).1.closed ≡ fd ∷ d.closed)
          × Removed k d (close_by_fd fd d).1
          × IsDense (close_by_fd fd d).1)
unfolding close_by_fd close_input_device
close_by_fd-Removed fd d dense = elim (find_fd_lem d.inputfds fd d.fd_idx 0) [
  | inl (missing, absent) ↦
      inl (λ k lt. absent k (omega arith) (omega arith), rw (missing, close_by_fd) refl)
  | inr (k, found, lo, hi, at, before) ↦
      let inside : k < d.fd_idx = omega arith in
      inr (
        k,
        inside,
        at,
        λ j lt. before j (omega arith) lt,
        rw (found, close_by_fd) refl,
        rw (found, close_by_fd) refl,
        rw (found, close_by_fd)
            (repack_fd_array-Removed k (close fd d) (close-IsDense fd d dense) inside),
        rw (found, close_by_fd)
            (repack_fd_array-IsDense k (close fd d) (close-IsDense fd d dense) inside),
      )
]
