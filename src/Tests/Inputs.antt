-- ===== src/Tests/Inputs.antt =====
-- The input module, with two devices and a timer.
use koreader_base.Prelude.{arith, ℕ, ◌<◌, ◌≤◌, ◌≡◌, ◌⊎◌, none, some, true}
use mathlib.Core.List.{List, [], ◌∷◌, ◌++◌}
use koreader_base.Prelude.Int.{pos}
use koreader_base.Input.{
  Devices, initial, device, open_input_device, open_input_fd, set_timer, close_by_fd,
  close_all_input_devices, compute_nfds, done, not_open,
}
use koreader_base.Input.Nfds.{CoversAll, compute_nfds-CoversAll}
use koreader_base.Input.Table.{IsDense, Removed, Absent, close_by_fd-Removed}
use koreader_base.Input.Queue.{
  count, Read, events, interrupted, drained, array, queue_size, wait_for_events,
}
use koreader_base.Input.Queue.Laws.{
  Drains, ends, again, leaves, AllFit, numbered, wait_for_events-Drains,
}
use koreader_base.Input.Reach.{
  Reachable, start, then_step, open_device, open_fd, set_a_timer, open_before, reversed,
  Reachable-IsDense, close_all_input_devices-empty,
}

abbrev two_open : Devices
two_open =
    set_timer (some 9) true true
      (open_input_fd (pos 7) (open_input_device (device (some 5)) initial).1).1

two_open-Reachable : Reachable two_open
two_open-Reachable =
    then_step (then_step (then_step start (open_device (device (some 5)))) (open_fd (pos 7)))
      (set_a_timer (some 9) true true)

two_open-IsDense : IsDense two_open
two_open-IsDense = Reachable-IsDense two_open two_open-Reachable

Reachable-IsDense_example : IsDense two_open
Reachable-IsDense_example = Reachable-IsDense two_open two_open-Reachable

compute_nfds-CoversAll_example :
    CoversAll (compute_nfds two_open).nfds two_open
    × ((compute_nfds two_open).nfds ≤ two_open.nfds)
    × (compute_nfds two_open ≡ record two_open { nfds = (compute_nfds two_open).nfds })
compute_nfds-CoversAll_example =
    compute_nfds-CoversAll two_open two_open.nfds two_open-IsDense.covers

close_by_fd_example :
    (Absent two_open.inputfds 5 two_open.fd_idx × (close_by_fd 5 two_open ≡ (not_open, two_open)))
    ⊎ ((k : ℕ) × (k < two_open.fd_idx)
        × (two_open.inputfds k ≡ some 5)
        × Absent two_open.inputfds 5 k
        × ((close_by_fd 5 two_open).0 ≡ done)
        × ((close_by_fd 5 two_open).1.closed ≡ 5 ∷ two_open.closed)
        × Removed k two_open (close_by_fd 5 two_open).1
        × IsDense (close_by_fd 5 two_open).1)
close_by_fd_example = close_by_fd-Removed 5 two_open two_open-IsDense

close_all_example :
    let d' = close_all_input_devices two_open in
    (d'.fd_idx ≡ 0)
    × ((i : ℕ) → d'.inputfds i ≡ none)
    × (d'.timerfds ≡ [])
    × (d'.fake_ev_generator_pid ≡ none)
    × (d'.closed
        ≡ reversed two_open.timerfds
          ++ open_before two_open.inputfds two_open.fd_idx two_open.closed)
close_all_example = close_all_input_devices-empty two_open two_open-IsDense

-- Three events in two pieces, with an interruption between them; an event is a number here.
abbrev two_pieces : List (Read ℕ)
two_pieces = events (11 ∷ 12 ∷ []) ∷ interrupted ∷ events (13 ∷ []) ∷ drained ∷ []

two_pieces-Drains : Drains queue_size two_pieces (11 ∷ 12 ∷ 13 ∷ [])
unfolding count
two_pieces-Drains = leaves (omega arith) (again (leaves (omega arith) ends))

wait_for_events_example :
    ((wait_for_events two_pieces).0 ≡ array (numbered 0 (11 ∷ 12 ∷ 13 ∷ [])))
    × AllFit (wait_for_events two_pieces).1
wait_for_events_example = wait_for_events-Drains two_pieces (11 ∷ 12 ∷ 13 ∷ []) two_pieces-Drains
