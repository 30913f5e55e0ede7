-- ===== src/Input.antt =====
-- The table of open input devices and timers in input/input.c and input/timerfd-callbacks.h. What
-- a system call answered is an argument of the operation that makes the call.
pub mod Nfds
pub mod Table
pub mod Reach
pub mod Queue
use koreader_base.Prelude.{
  ℕ, zero, suc, ◌+◌, ◌-◌, ◌==◌, Bool, true, false, Option, none, some, ltb, leb, if◌then◌else◌,
}
use mathlib.Core.List.{List, [], ◌∷◌, ◌++◌}
use koreader_base.Prelude.Loops.{for_range}
use koreader_base.Prelude.Int.{ℤ, pos, negsuc}

-- `inputfds`: `none` is -1.
abbrev pub Slots : Type 0
Slots = ℕ → Option ℕ

-- ARRAY_SIZE(inputfds)
abbrev pub slot_count : ℕ
slot_count = 8

-- The variables of the module, with the list of timers as their file descriptors in order, and
-- the descriptors that `close` was called on, the latest first.
pub record Devices : Type 0 where
  pub nfds : ℕ
  pub inputfds : Slots
  pub fd_idx : ℕ
  pub fake_ev_generator_pid : Option ℕ
  pub timerfds : List ℕ
  pub closed : List ℕ

abbrev pub initial : Devices
initial = record {
  nfds = 0;
  inputfds = λ i. none;
  fd_idx = 0;
  fake_ev_generator_pid = none;
  timerfds = [];
  closed = [];
}

abbrev pub write : Slots → ℕ → Option ℕ → Slots
write slots k v i = if i == k then v else slots i

-- `if (fd >= nfds) nfds = fd + 1`
unfoldable pub raise : Option ℕ → ℕ → ℕ
raise none n = n
raise (some fd) n = if leb n fd then fd + 1 else n

unfoldable pub raise_all : List ℕ → ℕ → ℕ
unfolding raise
raise_all [] n = n
raise_all (fd ∷ fds) n = raise_all fds (raise (some fd) n)

unfoldable pub compute_nfds : Devices → Devices
unfolding raise raise_all for_range
compute_nfds d = record d {
  nfds = raise_all d.timerfds (for_range d.fd_idx 0 (λ i. raise (d.inputfds i)) 0);
}

-- `inputfds[fd_idx] = fd; fd_idx++; computeNfds();`
unfoldable pub add_fd : ℕ → Devices → Devices
unfolding compute_nfds
add_fd fd d =
    compute_nfds
      (record d { inputfds = write d.inputfds d.fd_idx (some fd); fd_idx = d.fd_idx + 1 })

abbrev pub close : ℕ → Devices → Devices
close fd d = record d { closed = fd ∷ d.closed }

-- What a call from Lua gives back.
pub data Answer : Type 0 where
  lua_error : Answer
  opened : ℕ → Answer
  done : Answer
  not_open : Answer

-- What `inputdevice` names: "fake_events", with the ends of the pipe and the child's pid if the
-- calls succeed; or a device, with the descriptor if it could be opened.
pub data Source : Type 0 where
  fake_events : Option (ℕ × ℕ) → Option ℕ → Source
  device : Option ℕ → Source

unfoldable pub open_input_device : Source → Devices → Answer × Devices
unfolding add_fd
open_input_device source d = if leb slot_count d.fd_idx then (lua_error, d) else elim source [
  | fake_events none child ↦ (lua_error, d)
  | fake_events (some (reader, writer)) none ↦ (lua_error, close writer (close reader d))
  | fake_events (some (reader, writer)) (some pid) ↦
      (opened reader, add_fd reader (record (close writer d) { fake_ev_generator_pid = some pid }))
  | device none ↦ (lua_error, record d { inputfds = write d.inputfds d.fd_idx none })
  | device (some fd) ↦ (opened fd, add_fd fd d)
]

unfoldable pub open_input_fd : ℤ → Devices → Answer × Devices
unfolding add_fd
open_input_fd (negsuc n) d = (lua_error, d)
open_input_fd (pos fd) d =
    if leb slot_count d.fd_idx then (lua_error, close fd d) else (done, add_fd fd d)

-- `for (i = fd_idx_to_close; i < fd_idx - 1; i++) inputfds[i] = inputfds[i + 1];`
unfoldable pub shift_back : ℕ → ℕ → Slots → Slots
unfolding for_range
shift_back k n = for_range n k (λ i slots. write slots i (slots (i + 1)))

unfoldable pub repack_fd_array : ℕ → Devices → Devices
unfolding shift_back compute_nfds
repack_fd_array k d = compute_nfds (record d {
  inputfds = write (shift_back k (d.fd_idx - 1 - k) d.inputfds) (d.fd_idx - 1) none;
  fd_idx = d.fd_idx - 1;
})

unfoldable pub close_input_device : ℕ → ℕ → Devices → Devices
unfolding repack_fd_array
close_input_device fd k d = repack_fd_array k (close fd d)

unfoldable pub close_by_index : ℕ → Devices → Devices
unfolding close_input_device
close_by_index k d = elim (d.inputfds k) [ none ↦ d | some fd ↦ close_input_device fd k d ]

-- The first index from `i` on, of `n`, whose slot holds `fd`.
unfoldable pub find_fd : Slots → ℕ → ℕ → ℕ → Option ℕ
find_fd slots fd zero i = none
find_fd slots fd (suc n) i =
    let rest = find_fd slots fd n (i + 1) in
    elim (slots i) [ none ↦ rest | some f ↦ if f == fd then some i else rest ]

-- closeByFd; `not_open` is false and ENODEV.
unfoldable pub close_by_fd : ℕ → Devices → Answer × Devices
unfolding find_fd close_input_device
close_by_fd fd d = elim (find_fd d.inputfds fd d.fd_idx 0) [
  | none ↦ (not_open, d)
  | some k ↦ (done, close_input_device fd k d)
]

-- `for (i = fd_idx - 1; i >= 0; i--) closeByIndex(i);`, from `n` indices on down.
unfoldable pub close_down : ℕ → Devices → Devices
unfolding close_by_index
close_down zero d = d
close_down (suc i) d = close_down i (close_by_index i d)

unfoldable pub close_all : List ℕ → List ℕ → List ℕ
close_all [] done_before = done_before
close_all (fd ∷ fds) done_before = close_all fds (fd ∷ done_before)

-- timerfd_list_teardown, through clearAllTimers
unfoldable pub clear_all_timers : Devices → Devices
unfolding close_all
clear_all_timers d = record d { timerfds = []; closed = close_all d.timerfds d.closed }

unfoldable pub close_all_input_devices : Devices → Devices
unfolding close_down clear_all_timers
close_all_input_devices d = record (clear_all_timers (close_down d.fd_idx d)) {
  fake_ev_generator_pid = none;
}

-- setTimer, for the descriptor of timerfd_create, and the success of timerfd_settime and calloc.
unfoldable pub set_timer : Option ℕ → Bool → Bool → Devices → Devices
unfolding compute_nfds
set_timer none armed allocated d = d
set_timer (some fd) false allocated d = close fd d
set_timer (some fd) true false d = close fd d
set_timer (some fd) true true d = compute_nfds (record d { timerfds = d.timerfds ++ fd ∷ [] })

-- timerfd_list_delete_node, of the node with descriptor `fd`; open descriptors differ.
unfoldable pub delete_node : ℕ → List ℕ → List ℕ
delete_node fd [] = []
delete_node fd (f ∷ fds) = if f == fd then fds else f ∷ delete_node fd fds

unfoldable pub clear_timer : ℕ → Devices → Devices
unfolding delete_node compute_nfds
clear_timer fd d = compute_nfds (record (close fd d) { timerfds = delete_node fd d.timerfds })
