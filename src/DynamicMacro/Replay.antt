-- ===== src/DynamicMacro/Replay.antt =====
-- src/kanata/dynamic_macro.rs: the replay of a macro, one tick at a time.
use mathlib.Core.Option
use kanata.Base.{ℕ, ◌-◌, List, [], ◌∷◌, ◌++◌, Option, none, some, ◌==◌, if◌then◌else◌}
use kanata.Layout.Event.{Event, press, release}
use kanata.DynamicMacro.Record.{DynamicMacroItem, end_macro, contains, insert, remove}

pub record ReplayState : Type 0 where
  pub active_macros : List ℕ
  pub delay_remaining : ℕ
  pub macro_items : List DynamicMacroItem

pub data ReplayDelayBehaviour : Type 0 where
  constant recorded : ReplayDelayBehaviour

-- The key event and the delay behind it.
abbrev pub ReplayEvent : Type 0
ReplayEvent = Event × ℕ

abbrev pub event_delay : ReplayDelayBehaviour → ℕ → ℕ
event_delay constant delay = 0
event_delay recorded delay = delay

abbrev pub next_delay : ReplayDelayBehaviour → ℕ → ℕ
next_delay constant delay = 5
next_delay recorded delay = delay

-- What is done with the item that is taken, in a state without it.
unfoldable pub replay_item :
    ReplayDelayBehaviour → ReplayState → DynamicMacroItem → Option ReplayEvent × ReplayState
replay_item b s (DynamicMacroItem.press key delay) =
    (some (press (0, key), event_delay b delay), record s { delay_remaining = next_delay b delay })
replay_item b s (DynamicMacroItem.release key delay) = (
  some (release (0, key), event_delay b delay),
  record s { delay_remaining = next_delay b delay },
)
replay_item b s (end_macro macro_id) =
    (none, record s { active_macros = remove s.active_macros macro_id; delay_remaining = 5 })

unfoldable pub replay_next :
    ReplayDelayBehaviour
    → ReplayState
    → List DynamicMacroItem
    → Option ReplayEvent × Option ReplayState
replay_next b s [] = (none, none)
replay_next b s (item ∷ items) =
    let (event, t) = replay_item b (record s { macro_items = items }) item in (event, some t)

unfoldable pub tick_replay_state :
    ReplayDelayBehaviour → Option ReplayState → Option ReplayEvent × Option ReplayState
tick_replay_state b none = (none, none)
tick_replay_state b (some s) =
    let remaining = s.delay_remaining - 1 in
    if remaining == 0
    then replay_next b s s.macro_items
    else (none, some (record s { delay_remaining = remaining }))

-- `recorded_macros.get`.
abbrev pub Recorded : Type 0
Recorded = ℕ → Option (List DynamicMacroItem)

unfoldable pub play_macro : ℕ → Recorded → Option ReplayState → Option ReplayState
play_macro macro_id recorded_macros none =
    Option.map
      (λ items. record { active_macros = macro_id ∷ []; delay_remaining = 0; macro_items = items })
      (recorded_macros macro_id)
play_macro macro_id recorded_macros (some s) =
    if contains s.active_macros macro_id then some s else elim (recorded_macros macro_id) [
      | none ↦ some s
      | some items ↦ some (record s {
        active_macros = insert s.active_macros macro_id;
        macro_items = items ++ end_macro macro_id ∷ s.macro_items;
      })
    ]
