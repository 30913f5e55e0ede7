-- ===== src/Input/Reach.antt =====
-- The states of the input module as a step relation, and closing everything.
use koreader_base.Prelude.{
  ℕ, zero, suc, ◌<◌, ◌≡◌, refl, sym, ap, ◌∙◌, inl, inr, Bool, true, false, Option, none, some, ltb,
  leb, arith, Bool-cases,
}
use mathlib.Core.List.{List, [], ◌∷◌, ◌++◌}
use koreader_base.Prelude.Int.{ℤ, pos, negsuc}
use koreader_base.Input.{
  Slots, Devices, Source, fake_events, device, initial, write, close, slot_count, open_input_device,
  open_input_fd, close_input_device, close_by_index, close_by_fd, close_down, close_all,
  clear_all_timers, close_all_input_devices, set_timer, clear_timer, compute_nfds,
}
use koreader_base.Input.Table.{
  IsDense, compute_nfds-IsDense, add_fd-IsDense, close-IsDense, close_by_fd-Removed,
  repack_fd_array-IsDense, repack_fd_array-Removed,
}

open_input_fd-IsDense : (fd : ℤ) (d : Devices) → IsDense d → IsDense (open_input_fd fd d).1
unfolding open_input_fd
open_input_fd-IsDense (negsuc n) d dense = dense
open_input_fd-IsDense (pos fd) d dense = elim (Bool-cases (leb slot_count d.fd_idx)) [
  | inl e ↦ rw (e, open_input_fd) (close-IsDense fd d dense)
  | inr e ↦
      let free : d.fd_idx < slot_count = ground arith in
      rw (e, open_input_fd) (add_fd-IsDense fd d dense free)
]

-- The fields that the table's shape rests on.
keep-IsDense :
    (d : Devices) (pid : Option ℕ) (cs : List ℕ)
    → IsDense d
    → IsDense (record d { fake_ev_generator_pid = pid; closed = cs })
keep-IsDense d pid cs dense = record {
  room = dense.room;
  below = dense.below;
  above = dense.above;
  covers = dense.covers;
}

-- A failed `open` writes the -1 that the slot holds already.
failed-IsDense :
    (d : Devices) → IsDense d → IsDense (record d { inputfds = write d.inputfds d.fd_idx none })
failed-IsDense d dense =
    let same : (i : ℕ) → write d.inputfds d.fd_idx none i ≡ d.inputfds i =
      λ i. ground (arith, dense.above i) in
    record {
      room = dense.room;
      below = λ i lt. let old = dense.below i lt in (old.0, same i ∙ old.1);
      above = λ i le. same i ∙ dense.above i le;
      covers = (λ k fd lo hi e. dense.covers.0 k fd lo hi (sym (same k) ∙ e), dense.covers.1);
    }

open_input_device-IsDense :
    (source : Source) (d : Devices) → IsDense d → IsDense (open_input_device source d).1
unfolding open_input_device
open_input_device-IsDense source d dense = elim (Bool-cases (leb slot_count d.fd_idx)) [
  | inl e ↦ rw (e, open_input_device) dense
  | inr e ↦ let free : d.fd_idx < slot_count = ground arith in by_source source e free
]
  where
    by_source :
        (source : Source)
        → leb slot_count d.fd_idx ≡ false
        → d.fd_idx < slot_count
        → IsDense (open_input_device source d).1
    by_source (fake_events none child) e free = rw e dense
    by_source (fake_events (some ends) none) e free =
        rw e (close-IsDense ends.1 (close ends.0 d) (close-IsDense ends.0 d dense))
    by_source (fake_events (some ends) (some pid)) e free = rw e (
        add_fd-IsDense ends.0 (record (close ends.1 d) { fake_ev_generator_pid = some pid })
          (keep-IsDense d (some pid) (ends.1 ∷ d.closed) dense) free)
    by_source (device none) e free = rw e (failed-IsDense d dense)
    by_source (device (some fd)) e free = rw e (add_fd-IsDense fd d dense free)

timers-IsDense :
    (d : Devices) (fds cs : List ℕ)
    → IsDense d
    → IsDense (compute_nfds (record d { timerfds = fds; closed = cs }))
timers-IsDense d fds cs dense =
    compute_nfds-IsDense (record d { timerfds = fds; closed = cs }) dense.room dense.below
      dense.above

set_timer-IsDense :
    (o : Option ℕ) (armed allocated : Bool) (d : Devices)
    → IsDense d
    → IsDense (set_timer o armed allocated d)
unfolding set_timer
set_timer-IsDense none armed allocated d dense = dense
set_timer-IsDense (some fd) false allocated d dense = close-IsDense fd d dense
set_timer-IsDense (some fd) true false d dense = close-IsDense fd d dense
set_timer-IsDense (some fd) true true d dense = timers-IsDense d _ d.closed dense

clear_timer-IsDense : (fd : ℕ) (d : Devices) → IsDense d → IsDense (clear_timer fd d)
unfolding clear_timer
clear_timer-IsDense fd d dense = timers-IsDense d _ (fd ∷ d.closed) dense

close_by_fd-IsDense : (fd : ℕ) (d : Devices) → IsDense d → IsDense (close_by_fd fd d).1
close_by_fd-IsDense fd d dense = elim (close_by_fd-Removed fd d dense) [
  | inl (absent, e) ↦ rw e dense
  | inr (k, lt, at, first, ok, cs, removed, still) ↦ still
]

-- The descriptors in the first `n` slots, in front of a list.
unfoldable pub open_before : Slots → ℕ → List ℕ → List ℕ
open_before slots zero fds = fds
open_before slots (suc i) fds = elim (slots i) [
  | none ↦ open_before slots i fds
  | some fd ↦ open_before slots i (fd ∷ fds)
]

open_before-same :
    (n : ℕ) (a b : Slots) (fds : List ℕ)
    → ((i : ℕ) → i < n → a i ≡ b i)
    → open_before a n fds ≡ open_before b n fds
unfolding open_before
open_before-same zero a b fds same = refl
open_before-same (suc n) a b fds same =
    rw (same n (omega arith), open_before)
      (elim (b n)
        as (λ o.
          (elim o [ none ↦ open_before a n fds | some fd ↦ open_before a n (fd ∷ fds) ])
          ≡ (elim o [ none ↦ open_before b n fds | some fd ↦ open_before b n (fd ∷ fds) ])) [
            | none ↦ open_before-same n a b fds (λ i lt. same i (omega arith))
            | some fd ↦ open_before-same n a b (fd ∷ fds) (λ i lt. same i (omega arith))
          ])

close_down-empty :
    (n : ℕ) (d : Devices)
    → IsDense d
    → d.fd_idx ≡ n
    → let d' = close_down n d in
      IsDense d'
      × (d'.fd_idx ≡ 0)
      × (d'.timerfds ≡ d.timerfds)
      × (d'.closed ≡ open_before d.inputfds n d.closed)
unfolding close_down open_before close_by_index close_input_device
close_down-empty zero d dense e = (dense, e, refl, refl)
close_down-empty (suc n) d dense e =
    let last = dense.below n (omega arith) in
    let fd = last.0 in
    let next = close_input_device fd n d in
    let removed = repack_fd_array-Removed n (close fd d) (close-IsDense fd d dense) (omega arith) in
    let still = repack_fd_array-IsDense n (close fd d) (close-IsDense fd d dense) (omega arith) in
    let rest = close_down-empty n next still (omega arith) in
    let low : (i : ℕ) → i < n → next.inputfds i ≡ d.inputfds i =
      λ i lt. let below : ltb i n ≡ true = ground arith in removed.1 i ∙ rw below refl in
    let step : close_by_index n d ≡ next = rw (last.1, close_by_index) refl in
    let go : close_down (suc n) d ≡ close_down n next = ap (close_down n) step in
    let listed : open_before d.inputfds (suc n) d.closed
        ≡ open_before d.inputfds n (fd ∷ d.closed) =
      rw (last.1, open_before) refl in
    (
      rw go rest.0,
      ap (λ x. x.fd_idx) go ∙ rest.1,
      ap (λ x. x.timerfds) go ∙ rest.2,
      ap (λ x. x.closed) go
          ∙ rest.3
          ∙ open_before-same n next.inputfds d.inputfds (fd ∷ d.closed) low
          ∙ sym listed,
    )

-- A list from its end to its start.
abbrev pub reversed : List ℕ → List ℕ
reversed [] = []
reversed (fd ∷ fds) = reversed fds ++ (fd ∷ [])

append_assoc : (a b c : List ℕ) → (a ++ b) ++ c ≡ a ++ (b ++ c)
append_assoc [] b c = refl
append_assoc (x ∷ a) b c = ap (λ t. x ∷ t) (append_assoc a b c)

close_all_lem : (fds before : List ℕ) → close_all fds before ≡ reversed fds ++ before
unfolding close_all
close_all_lem [] before = refl
close_all_lem (fd ∷ fds) before =
    close_all_lem fds (fd ∷ before) ∙ sym (append_assoc (reversed fds) (fd ∷ []) before)

-- On a dense table, closeAllInputDevices leaves no device, no timer and no event generator: every
-- slot holds -1, and to the calls of `close`, the latest first, it adds one for each open device, the
-- last slot called first, and after those one for each timer, in the order of the list.
pub close_all_input_devices-empty :
    (d : Devices)
    → IsDense d
    → let d' = close_all_input_devices d in
      (d'.fd_idx ≡ 0)
      × ((i : ℕ) → d'.inputfds i ≡ none)
      × (d'.timerfds ≡ [])
      × (d'.fake_ev_generator_pid ≡ none)
      × (d'.closed ≡ reversed d.timerfds ++ open_before d.inputfds d.fd_idx d.closed)
unfolding close_all_input_devices clear_all_timers
close_all_input_devices-empty d dense =
    let down = close_down-empty d.fd_idx d dense refl in
    (
      down.1,
      λ i. down.0.above i (omega (arith, down.1)),
      refl,
      refl,
      rw (down.2, down.3) (close_all_lem d.timerfds (open_before d.inputfds d.fd_idx d.closed)),
    )

close_all_input_devices-IsDense : (d : Devices) → IsDense d → IsDense (close_all_input_devices d)
unfolding close_all_input_devices clear_all_timers
close_all_input_devices-IsDense d dense =
    let down = (close_down-empty d.fd_idx d dense refl).0 in
    record {
      room = down.room;
      below = down.below;
      above = down.above;
      covers = (down.covers.0, omega arith);
    }

-- One call from Lua, whatever its arguments and the answers of the system.
pub data Step : Devices → Devices → Type 0 where
  open_device : {d : Devices} (source : Source) → Step d (open_input_device source d).1
  open_fd : {d : Devices} (fd : ℤ) → Step d (open_input_fd fd d).1
  close_fd : {d : Devices} (fd : ℕ) → Step d (close_by_fd fd d).1
  close_every : {d : Devices} → Step d (close_all_input_devices d)
  set_a_timer :
      {d : Devices} (o : Option ℕ) (armed allocated : Bool) → Step d (set_timer o armed allocated d)
  clear_a_timer : {d : Devices} (fd : ℕ) → Step d (clear_timer fd d)
  device_removed : {d : Devices} (k : ℕ) → k < d.fd_idx → Step d (close_by_index k d)

pub data Reachable : Devices → Type 0 where
  start : Reachable initial
  then_step : {d d' : Devices} → Reachable d → Step d d' → Reachable d'

close_by_index-IsDense :
    (k : ℕ) (d : Devices) → IsDense d → k < d.fd_idx → IsDense (close_by_index k d)
unfolding close_by_index close_input_device
close_by_index-IsDense k d dense lt =
    let (fd, at) = dense.below k lt in
    rw (at, close_by_index) (repack_fd_array-IsDense k (close fd d) (close-IsDense fd d dense) lt)

initial-IsDense : IsDense initial
initial-IsDense = record {
  room = omega arith;
  below = λ i lt. absurd (omega arith);
  above = λ i le. refl;
  covers = (λ k fd lo hi e. absurd (omega arith), omega arith);
}

Step-IsDense : (d d' : Devices) → IsDense d → Step d d' → IsDense d'
Step-IsDense d _ dense (open_device source) = open_input_device-IsDense source d dense
Step-IsDense d _ dense (open_fd fd) = open_input_fd-IsDense fd d dense
Step-IsDense d _ dense (close_fd fd) = close_by_fd-IsDense fd d dense
Step-IsDense d _ dense close_every = close_all_input_devices-IsDense d dense
Step-IsDense d _ dense (set_a_timer o armed allocated) = set_timer-IsDense o armed allocated d dense
Step-IsDense d _ dense (clear_a_timer fd) = clear_timer-IsDense fd d dense
Step-IsDense d _ dense (device_removed k lt) = close_by_index-IsDense k d dense lt

-- Whatever calls are made from the start of the module on, with whatever answers of the system, the
-- table is dense: the first `fd_idx` of the eight slots hold descriptors and the others -1, and
-- `nfds` is above the descriptor of every open device and timer, as `select` needs it.
pub Reachable-IsDense : (d : Devices) → Reachable d → IsDense d
Reachable-IsDense _ start = initial-IsDense
Reachable-IsDense d (then_step {d = before} reached step) =
    Step-IsDense before d (Reachable-IsDense before reached) step
