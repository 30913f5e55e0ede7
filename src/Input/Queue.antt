-- ===== src/Input/Queue.antt =====
-- The loop of waitForInput in input/input.c that reads the events of one device, and
-- drain_input_queue. What each `read` answered is a list; the codes of `errno` are numbers.
pub mod Laws
use koreader_base.Prelude.{ℕ, ◌+◌, ◌-◌, ◌==◌, leb, true, false}
use mathlib.Core.List.{List, [], ◌∷◌, ◌++◌}

-- The room of `input_queue`.
abbrev pub queue_size : ℕ
queue_size = 256

abbrev pub einval : ℕ
einval = 22

abbrev pub epipe : ℕ
epipe = 32

unfoldable pub count {ℓ} : {A : Type ℓ} → List A → ℕ
count [] = 0
count (x ∷ xs) = count xs + 1

module _ (Event : Type 0) where
  -- An answer of `read`: whole events, or a length that is no multiple of an event's, or -1 with
  -- EINTR, EAGAIN, ENODEV or another `errno`.
  pub data Read : Type 0 where
    events : List Event → Read
    truncated : Read
    interrupted : Read
    drained : Read
    no_device : Read
    failed : ℕ → Read

  -- What the call gives to Lua: the array of events by index, or false with ENODEV, after the
  -- device was closed, or with another code. `waiting` is a loop that still reads, and `overrun` a
  -- write behind the end of `input_queue`, which is undefined.
  pub data ReadEnd : Type 0 where
    array : List (ℕ × Event) → ReadEnd
    device_gone : ReadEnd
    no_events : ℕ → ReadEnd
    waiting : ReadEnd
    overrun : ReadEnd

module _ {Event : Type 0} where
  -- drain_input_queue: `table[++j] = event` for each event of the queue.
  unfoldable pub drain_input_queue : List Event → ℕ → List (ℕ × Event) → List (ℕ × Event)
  drain_input_queue [] j table = table
  drain_input_queue (e ∷ es) j table = drain_input_queue es (j + 1) (table ++ ((j + 1, e) ∷ []))

  -- `for (;;)`, with the events in the queue, the room that is left, the index of the array's tail
  -- and the array. The second part lists, for each `read`, how many events the queue held and the
  -- room that it was called with.
  unfoldable pub read_events :
      List (Read Event) → List Event → ℕ → ℕ → List (ℕ × Event) → ReadEnd Event × List (ℕ × ℕ)
  unfolding drain_input_queue count
  read_events [] queue available j table = (waiting, [])
  read_events (truncated ∷ rs) queue available j table =
      (no_events einval, (count queue, available) ∷ [])
  read_events (interrupted ∷ rs) queue available j table =
      let rest = read_events rs queue available j table in
      (rest.0, (count queue, available) ∷ rest.1)
  read_events (drained ∷ rs) queue available j table =
      (array (drain_input_queue queue j table), (count queue, available) ∷ [])
  read_events (no_device ∷ rs) queue available j table =
      (device_gone, (count queue, available) ∷ [])
  read_events (failed code ∷ rs) queue available j table =
      (no_events code, (count queue, available) ∷ [])
  read_events (events [] ∷ rs) queue available j table =
      (no_events epipe, (count queue, available) ∷ [])
  read_events (events (e ∷ es) ∷ rs) queue available j table =
      let n = count (e ∷ es) in
      elim (leb (count queue + n) queue_size) [
        | false ↦ (overrun, (count queue, available) ∷ [])
        | true ↦ elim (n == available) [
          | true ↦
              let full = queue ++ (e ∷ es) in
              let rest =
                read_events rs [] queue_size (j + count full) (drain_input_queue full j table) in
              (rest.0, (count queue, available) ∷ rest.1)
          | false ↦
              let rest = read_events rs (queue ++ (e ∷ es)) (available - n) j table in
              (rest.0, (count queue, available) ∷ rest.1)
        ]
      ]

-- The loop as waitForInput starts it.
unfoldable pub wait_for_events : {Event : Type 0} → List (Read Event) → ReadEnd Event × List (ℕ × ℕ)
unfolding read_events
wait_for_events rs = read_events rs [] queue_size 0 []
