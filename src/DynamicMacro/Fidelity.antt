-- ===== src/DynamicMacro/Fidelity.antt =====
-- A recording holds the events that were seen, in their order.
use kanata.Base.{
  ℕ, ◌+◌, ◌*◌, ◌≤◌, ◌≡◌, refl, ap, sym, ◌∙◌, arith, List, [], ◌∷◌, ◌++◌, map, Option, none, some,
  sat_add16, length, length-append,
}
use mathlib.Core.Option
use mathlib.Core.List.{append_assoc, append-nil, map-append}
use kanata.DynamicMacro.Record.{
  DynamicMacroItem, end_macro, WaitingEventType, press, release, RecordState, push_pending,
  add_event, tick_record_state, record_press, record_release,
}

-- What the recorder is told: a millisecond has passed, or a key has been pressed or released.
pub data Act : Type 0 where
  tick : Act
  key : ℕ → WaitingEventType → Act

unfoldable pub act : (List ℕ → List ℕ) → ℕ → Option RecordState → Act → Option RecordState
act order max_presses s tick = tick_record_state s
act order max_presses s (key osc press) = (record_press order s osc max_presses).1
act order max_presses s (key osc release) = record_release s osc

unfoldable pub acts : (List ℕ → List ℕ) → ℕ → Option RecordState → List Act → Option RecordState
acts order max_presses s [] = s
acts order max_presses s (a ∷ as') = acts order max_presses (act order max_presses s a) as'

-- The keys of what happened, and of recorded items.
abbrev pub keys : List Act → List (Option (ℕ × WaitingEventType))
keys [] = []
keys (tick ∷ as') = keys as'
keys (key osc t ∷ as') = some (osc, t) ∷ keys as'

abbrev pub item_key : DynamicMacroItem → Option (ℕ × WaitingEventType)
item_key (DynamicMacroItem.press osc delay) = some (osc, press)
item_key (DynamicMacroItem.release osc delay) = some (osc, release)
item_key (end_macro id) = none

-- The recorded items with the event that still waits for its delay.
unfoldable pub recorded_keys : RecordState → List (Option (ℕ × WaitingEventType))
recorded_keys s = map item_key (push_pending s)

-- One event more.
recorded_keys-add_event :
    (w : Option (ℕ × WaitingEventType)) (s : RecordState) (osc : ℕ) (t : WaitingEventType)
    → recorded_keys (add_event s osc t) ≡ recorded_keys s ++ some (osc, t) ∷ []
unfolding recorded_keys add_event push_pending
recorded_keys-add_event w s osc press = map-append item_key (push_pending s) _
recorded_keys-add_event w s osc release = map-append item_key (push_pending s) _

keys-tick :
    (w : Option (ℕ × WaitingEventType)) (s : RecordState) (d : ℕ)
    → s.waiting_event ≡ w
    → recorded_keys (record s { current_delay = d }) ≡ recorded_keys s
unfolding recorded_keys push_pending
keys-tick none s d e = rw (e, push_pending)
keys-tick (some (osc, press)) s d e = rw (e, push_pending) (simp map-append)
keys-tick (some (osc, release)) s d e = rw (e, push_pending) (simp map-append)

pending-le :
    (w : Option (ℕ × WaitingEventType)) (s : RecordState)
    → s.waiting_event ≡ w
    → length (push_pending s) ≤ length s.macro_items + 1
unfolding push_pending
pending-le none s e = rw (e, push_pending) (omega arith)
pending-le (some (osc, press)) s e =
    rw (e, push_pending)
      (omega (arith, length-append s.macro_items (DynamicMacroItem.press osc s.current_delay ∷ [])))
pending-le (some (osc, release)) s e =
    rw (e, push_pending)
      (omega
        (arith, length-append s.macro_items (DynamicMacroItem.release osc s.current_delay ∷ [])))

-- A press within the limit, and a release, are events that join the recording.
act-key :
    (order : List ℕ → List ℕ) (max_presses : ℕ) (s : RecordState) (osc : ℕ) (t : WaitingEventType)
    → length s.macro_items ≤ max_presses * 2
    → act order max_presses (some s) (key osc t) ≡ some (add_event s osc t)
unfolding act record_press record_release
act-key order m s osc press h = ground arith
act-key order m s osc release h = refl

act-tick :
    (order : List ℕ → List ℕ) (max_presses : ℕ) (s : RecordState)
    → act order max_presses (some s) tick
      ≡ some (record s { current_delay = sat_add16 s.current_delay 1 })
unfolding act tick_record_state
act-tick order m s = refl

items-add_event :
    (s : RecordState) (osc : ℕ) (t : WaitingEventType)
    → (add_event s osc t).macro_items ≡ push_pending s
unfolding add_event
items-add_event s osc t = refl

-- A recording that goes on for no more events than twice the limit on presses is not cut off, and
-- then holds, behind what it held, the presses and releases that it was told, all and in order.
pub acts-recorded_keys :
    (order : List ℕ → List ℕ) (max_presses : ℕ) (xs : List Act) (s : RecordState)
    → length s.macro_items + length (keys xs) ≤ max_presses * 2
    → Option.map recorded_keys (acts order max_presses (some s) xs)
      ≡ some (recorded_keys s ++ keys xs)
unfolding acts
acts-recorded_keys order m [] s h = ap some (sym (append-nil (recorded_keys s)))
acts-recorded_keys order m (tick ∷ xs) s h =
    let waited = sat_add16 s.current_delay 1 in
    rw (act-tick order m s) (
      acts-recorded_keys order m xs (record s { current_delay = waited }) h
      ∙ ap (λ before. some (before ++ keys xs)) (keys-tick s.waiting_event s waited refl))
acts-recorded_keys order m (key osc t ∷ xs) s h =
    let grown = pending-le s.waiting_event s refl in
    rw (act-key order m s osc t (omega arith)) (
      acts-recorded_keys order m xs (add_event s osc t) (rw (items-add_event s osc t) (omega arith))
      ∙ ap some (
          rw (recorded_keys-add_event none s osc t)
            (append_assoc (recorded_keys s) (some (osc, t) ∷ []) (keys xs))))
