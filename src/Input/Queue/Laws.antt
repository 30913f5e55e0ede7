-- ===== src/Input/Queue/Laws.antt =====
-- The reading loop of waitForInput, on answers of `read` that come in pieces.
use koreader_base.Prelude.{
  ℕ, ◌+◌, ◌-◌, ◌≤◌, ◌<◌, ◌≡◌, refl, sym, ap, ◌∙◌, true, false, ◌==◌, leb, arith,
}
use mathlib.Core.List.{List, [], ◌∷◌, ◌++◌}
use koreader_base.Input.Queue.{
  queue_size, count, Read, events, interrupted, drained, array, drain_input_queue, read_events,
  wait_for_events,
}

-- The events with their indices, from `j + 1` on.
abbrev pub numbered : {Event : Type 0} → ℕ → List Event → List (ℕ × Event)
numbered j [] = []
numbered j (e ∷ es) = (j + 1, e) ∷ numbered (j + 1) es

-- Answers of a `read` that keeps to its bound, up to the one that finds the device drained: some
-- events, at most the room that is left, or an interruption. `es` are the events of all of them.
pub data Drains {Event : Type 0} : ℕ → List (Read Event) → List Event → Type 0 where
  ends : {room : ℕ} {rs : List (Read Event)} → Drains room (drained ∷ rs) []
  again :
      {room : ℕ} {rs : List (Read Event)} {es : List Event}
      → Drains room rs es
      → Drains room (interrupted ∷ rs) es
  fills :
      {room : ℕ} {rs : List (Read Event)} {e : Event} {got es : List Event}
      → count (e ∷ got) ≡ room
      → Drains queue_size rs es
      → Drains room (events (e ∷ got) ∷ rs) ((e ∷ got) ++ es)
  leaves :
      {room : ℕ} {rs : List (Read Event)} {e : Event} {got es : List Event}
      → count (e ∷ got) < room
      → Drains (room - count (e ∷ got)) rs es
      → Drains room (events (e ∷ got) ∷ rs) ((e ∷ got) ++ es)

-- Each `read` was asked for at least one event, and for no more than fit behind those in the queue.
abbrev pub AllFit : List (ℕ × ℕ) → Type 0
AllFit [] = 0 ≤ queue_size
AllFit ((held, asked) ∷ calls) = (0 < asked) × (held + asked ≤ queue_size) × AllFit calls

append_assoc : {A : Type 0} (a b c : List A) → (a ++ b) ++ c ≡ a ++ (b ++ c)
append_assoc [] b c = refl
append_assoc (x ∷ a) b c = ap (λ t. x ∷ t) (append_assoc a b c)

append_nil : {A : Type 0} (a : List A) → a ++ [] ≡ a
append_nil [] = refl
append_nil (x ∷ a) = ap (λ t. x ∷ t) (append_nil a)

module _ {Event : Type 0} where
  drain_lem :
      (es : List Event) (j : ℕ) (table : List (ℕ × Event))
      → drain_input_queue es j table ≡ table ++ numbered j es
  unfolding drain_input_queue
  drain_lem [] j table = sym (append_nil table)
  drain_lem (e ∷ es) j table =
      drain_lem es (j + 1) (table ++ ((j + 1, e) ∷ []))
      ∙ append_assoc table ((j + 1, e) ∷ []) (numbered (j + 1) es)

  numbered-append :
      (a b : List Event) (j : ℕ) → numbered j (a ++ b) ≡ numbered j a ++ numbered (j + count a) b
  unfolding count
  numbered-append [] b j = ap (λ (k : ℕ). numbered k b) (omega arith)
  numbered-append (e ∷ a) b j =
      ap (λ t. (j + 1, e) ∷ t)
        (numbered-append a b (j + 1)
          ∙ ap (λ (k : ℕ). numbered (j + 1) a ++ numbered k b) (omega arith))

  count-append : (a b : List Event) → count (a ++ b) ≡ count a + count b
  unfolding count
  count-append [] b = omega arith
  count-append (x ∷ a) b = omega (arith, count-append a b)

  read_events-Drains :
      (room : ℕ) (rs : List (Read Event)) (es : List Event)
      → Drains room rs es
      → (queue : List Event) (j : ℕ) (table : List (ℕ × Event)) → 0 < room
      → count queue + room ≡ queue_size
      → ((read_events rs queue room j table).0 ≡ array (table ++ numbered j (queue ++ es)))
        × AllFit (read_events rs queue room j table).1
  unfolding read_events count
  read_events-Drains room _ _ ends queue j table pos small = (
    ap array (drain_lem queue j table ∙ ap (λ q. table ++ numbered j q) (sym (append_nil queue))),
    (pos, omega arith, omega arith),
  )
  read_events-Drains room _ es (again {rs = rs} more) queue j table pos small =
      let rest = read_events-Drains room rs es more queue j table pos small in
      (rest.0, (pos, omega arith, rest.1))
  read_events-Drains room _ _ (fills {rs = rs} {e = e} {got = got} {es = es} full more) queue j
        table pos small =
      let fit : leb (count queue + count (e ∷ got)) queue_size ≡ true = ground arith in
      let test : (count (e ∷ got) == room) ≡ true = ground arith in
      let all = queue ++ (e ∷ got) in
      let rest =
        read_events-Drains queue_size rs es more [] (j + count all) (drain_input_queue all j table)
          (omega arith) refl in
      rw (fit, test, read_events)
        (
          rest.0
              ∙ ap array (
                  ap (λ t. t ++ numbered (j + count all) es) (drain_lem all j table)
                  ∙ append_assoc table (numbered j all) (numbered (j + count all) es)
                  ∙ ap (λ t. table ++ t)
                      (sym (numbered-append all es j)
                        ∙ ap (numbered j) (append_assoc queue (e ∷ got) es))),
          (pos, omega arith, rest.1),
        )
  read_events-Drains room _ _ (leaves {rs = rs} {e = e} {got = got} {es = es} less more) queue j
        table pos small =
      let fit : leb (count queue + count (e ∷ got)) queue_size ≡ true = ground arith in
      let test : (count (e ∷ got) == room) ≡ false = ground arith in
      let rest =
        read_events-Drains (room - count (e ∷ got)) rs es more (queue ++ (e ∷ got)) j table
          (omega arith) (omega (arith, count-append queue (e ∷ got))) in
      rw (fit, test, read_events)
        (
          rest.0 ∙ ap (λ q. array (table ++ numbered j q)) (append_assoc queue (e ∷ got) es),
          (pos, omega arith, rest.1),
        )

  -- For answers of `read` that keep to the room of the queue and end with a drained device, the
  -- reading loop of waitForInput ends, and gives to Lua the array of all their events, each once,
  -- in order, with the indices from 1 on, however they were cut into pieces; and every `read` is
  -- called for at least one event, and for no more than fit in the 256 entries of the queue behind
  -- the events that it holds.
  pub wait_for_events-Drains :
      (rs : List (Read Event)) (es : List Event)
      → Drains queue_size rs es
      → ((wait_for_events rs).0 ≡ array (numbered 0 es)) × AllFit (wait_for_events rs).1
  unfolding wait_for_events
  wait_for_events-Drains rs es reads =
      read_events-Drains queue_size rs es reads [] 0 [] (omega arith) refl
