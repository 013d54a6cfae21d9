-- ===== src/DynamicMacro/Emission.antt =====
-- What a replay sends out: the events of its items in their order, each once, and then it ends.
use kanata.Base.{
  ℕ, zero, suc, ◌+◌, ◌-◌, ◌≤◌, ◌≡◌, refl, ap, ◌∙◌, arith, true, false, List, [], ◌∷◌, ◌++◌, Option,
  none, some, max, ◌==◌, Bool-cases, inl, inr,
}
use kanata.Layout.Event.{press, release}
use kanata.DynamicMacro.Record.{DynamicMacroItem, end_macro, contains, insert, remove}
use kanata.DynamicMacro.Replay.{
  ReplayState, ReplayDelayBehaviour, ReplayEvent, event_delay, next_delay, replay_item, replay_next,
  tick_replay_state, Recorded, play_macro,
}

abbrev pub cons_some {ℓ} : {A : Type ℓ} → Option A → List A → List A
cons_some none xs = xs
cons_some (some x) xs = x ∷ xs

-- `k` ticks, with the events that they send.
unfoldable pub replay_ticks :
    ℕ → ReplayDelayBehaviour → Option ReplayState → List ReplayEvent × Option ReplayState
replay_ticks zero b s = ([], s)
replay_ticks (suc k) b s =
    let (event, t) = tick_replay_state b s in
    let (events, u) = replay_ticks k b t in (cons_some event events, u)

abbrev pub item_event : ReplayDelayBehaviour → DynamicMacroItem → Option ReplayEvent
item_event b (DynamicMacroItem.press key delay) = some (press (0, key), event_delay b delay)
item_event b (DynamicMacroItem.release key delay) = some (release (0, key), event_delay b delay)
item_event b (end_macro id) = none

unfoldable pub item_events : ReplayDelayBehaviour → List DynamicMacroItem → List ReplayEvent
item_events b [] = []
item_events b (item ∷ items) = cons_some (item_event b item) (item_events b items)

abbrev delay_after : ReplayDelayBehaviour → DynamicMacroItem → ℕ
delay_after b (DynamicMacroItem.press key delay) = next_delay b delay
delay_after b (DynamicMacroItem.release key delay) = next_delay b delay
delay_after b (end_macro id) = 5

-- How many ticks a replay takes whose next item is `wait` ticks away.
unfoldable pub duration : ReplayDelayBehaviour → ℕ → List DynamicMacroItem → ℕ
duration b wait [] = max wait 1
duration b wait (item ∷ items) = max wait 1 + duration b (delay_after b item) items

tick_waits :
    (b : ReplayDelayBehaviour) (s : ReplayState)
    → (s.delay_remaining - 1 == 0) ≡ false
    → tick_replay_state b (some s)
      ≡ (none, some (record s { delay_remaining = s.delay_remaining - 1 }))
unfolding tick_replay_state
tick_waits b s h = rw h

tick_takes :
    (b : ReplayDelayBehaviour) (active : List ℕ) (wait : ℕ) (item : DynamicMacroItem)
    (items : List DynamicMacroItem)
    → (wait - 1 == 0) ≡ true
    → (active' : List ℕ) × (tick_replay_state b (
          some
            (record { active_macros = active; delay_remaining = wait; macro_items = item ∷ items }))
        ≡ (
          item_event b item,
          some (record {
            active_macros = active';
            delay_remaining = delay_after b item;
            macro_items = items;
          }),
        ))
unfolding tick_replay_state replay_next replay_item
tick_takes b active wait (DynamicMacroItem.press key delay) items h = (active, rw h)
tick_takes b active wait (DynamicMacroItem.release key delay) items h = (active, rw h)
tick_takes b active wait (end_macro id) items h = (remove active id, rw h)

tick_ends :
    (b : ReplayDelayBehaviour) (active : List ℕ) (wait : ℕ)
    → (wait - 1 == 0) ≡ true
    → tick_replay_state b
        (some (record { active_macros = active; delay_remaining = wait; macro_items = [] }))
      ≡ (none, none)
unfolding tick_replay_state replay_next
tick_ends b active wait h = rw h

replay_over : (k : ℕ) (b : ReplayDelayBehaviour) → replay_ticks k b none ≡ ([], none)
unfolding replay_ticks tick_replay_state
replay_over zero b = refl
replay_over (suc k) b = rw (replay_over k b)

replay_ticks-step :
    (k : ℕ) (b : ReplayDelayBehaviour) (s t : Option ReplayState) (event : Option ReplayEvent)
    (events : List ReplayEvent)
    → tick_replay_state b s ≡ (event, t)
    → replay_ticks k b t ≡ (events, none)
    → replay_ticks (suc k) b s ≡ (cons_some event events, none)
unfolding replay_ticks
replay_ticks-step k b s t event events e f = rw (e, f)

duration-pred :
    (b : ReplayDelayBehaviour) (wait : ℕ) (items : List DynamicMacroItem)
    → (wait - 1 == 0) ≡ false
    → duration b wait items ≡ suc (duration b (wait - 1) items)
unfolding duration
duration-pred b wait [] h = ground arith
duration-pred b wait (item ∷ items) h = ground arith

emitted :
    (k : ℕ) (b : ReplayDelayBehaviour) (active : List ℕ) (wait : ℕ) (items : List DynamicMacroItem)
    → duration b wait items ≤ k
    → replay_ticks k b
        (some (record { active_macros = active; delay_remaining = wait; macro_items = items }))
      ≡ (item_events b items, none)
unfolding duration item_events
emitted zero b active wait [] h = absurd (omega arith)
emitted zero b active wait (item ∷ items) h = absurd (omega arith)
emitted (suc k) b active wait [] h = elim (Bool-cases (wait - 1 == 0)) [
  | inl now ↦ replay_ticks-step k b _ _ none _ (tick_ends b active wait now) (replay_over k b)
  | inr later ↦
      replay_ticks-step k b _ _ none _ (tick_waits b _ later)
        (emitted k b active (wait - 1) [] (omega (arith, duration-pred b wait [] later)))
]
emitted (suc k) b active wait (item ∷ items) h = elim (Bool-cases (wait - 1 == 0)) [
  | inl now ↦
      let (active', taken) = tick_takes b active wait item items now in
      replay_ticks-step k b _ _ (item_event b item) _ taken
        (emitted k b active' (delay_after b item) items (omega arith))
  | inr later ↦ replay_ticks-step k b _ _ none _ (tick_waits b _ later) (
      emitted k b active (wait - 1) (item ∷ items)
        (omega (arith, duration-pred b wait (item ∷ items) later)))
]

-- A replay that is given at least as many ticks as its items last sends exactly the events of its
-- items, each once and in their order, and has then ended.
pub replay_ticks-item_events :
    (k : ℕ) (b : ReplayDelayBehaviour) (s : ReplayState)
    → duration b s.delay_remaining s.macro_items ≤ k
    → replay_ticks k b (some s) ≡ (item_events b s.macro_items, none)
replay_ticks-item_events k b s h = emitted k b s.active_macros s.delay_remaining s.macro_items h

item_events-append :
    (b : ReplayDelayBehaviour) (xs ys : List DynamicMacroItem)
    → item_events b (xs ++ ys) ≡ item_events b xs ++ item_events b ys
unfolding item_events
item_events-append b [] ys = refl
item_events-append b (DynamicMacroItem.press key d ∷ xs) ys =
    ap (◌∷◌ (press (0, key), event_delay b d)) (item_events-append b xs ys)
item_events-append b (DynamicMacroItem.release key d ∷ xs) ys =
    ap (◌∷◌ (release (0, key), event_delay b d)) (item_events-append b xs ys)
item_events-append b (end_macro id ∷ xs) ys = item_events-append b xs ys

-- A macro that is played during the replay of another, and is recorded and not being replayed
-- already, comes out whole before the rest of the other, given the ticks for both.
pub play_macro_nested :
    (b : ReplayDelayBehaviour) (s : ReplayState) (id k : ℕ) (recorded_macros : Recorded)
    (items : List DynamicMacroItem)
    → contains s.active_macros id ≡ false
    → recorded_macros id ≡ some items
    → duration b s.delay_remaining (items ++ end_macro id ∷ s.macro_items) ≤ k
    → replay_ticks k b (play_macro id recorded_macros (some s))
      ≡ (item_events b items ++ item_events b s.macro_items, none)
unfolding play_macro
play_macro_nested b s id k recorded_macros items new found long =
    rw (new, found, play_macro, ← nested)
      (emitted k b (insert s.active_macros id) s.delay_remaining
        (items ++ end_macro id ∷ s.macro_items) long)
  where
    nested :
        item_events b (items ++ end_macro id ∷ s.macro_items)
        ≡ item_events b items ++ item_events b s.macro_items
    nested =
        item_events-append b items (end_macro id ∷ s.macro_items) ∙ (unfold item_events in refl)
