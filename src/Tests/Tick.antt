-- ===== src/Tests/Tick.antt =====
-- Ticks of the layout manager with four keys.
use kanata.Base.{ℕ, ◌≡◌, refl, List, [], ◌∷◌, Option, none, some, KCoord}
use kanata.Layout.Event.{press, release}
use kanata.Layout.State.{
  CustomEvent, no_event, pressed, released, normal_key, custom as custom_state,
}
use kanata.Layout.Action.{Action, key_code}
use kanata.Layout.Manager.Parts.{keycodes, keycodes_of}
use kanata.Layout.Manager.Run.{Run}
use kanata.Layout.Manager.Tick.Told.{tick_times, tick_times-released}
use kanata.Layout.Manager.Tick.Typed.{event_and_tick}
use kanata.Layout.Manager.Tick.Text.{typed}
use kanata.Tests.Deques.{deques}
use kanata.Tests.Manager.{start, run, deref, held}

-- Three custom actions are yet to be told, and an action waits behind them.
abbrev untold : Run ℕ ℕ
untold = run (record start {
  custom_event_release_queue = 7 ∷ 8 ∷ 9 ∷ [];
  action_queue = some ((0, 0), 0, key_code 30, []) ∷ [];
})

tick_times-released_example :
    tick_times deques deref 5 3 untold
    ≡ some (
      released 7 ∷ released 8 ∷ released 9 ∷ [],
      record untold { layout = record untold.layout { custom_event_release_queue = [] } },
    )
tick_times-released_example = tick_times-released deques deref 5 untold

-- Keys for a and b; another key and a custom action are held.
abbrev letters : List (Action ℕ ℕ)
letters = key_code 30 ∷ key_code 48 ∷ []

abbrev typing : Run ℕ ℕ
typing = run (record start {
  src_keys = letters;
  layers = (letters ∷ []) ∷ [];
  states = normal_key 42 (0, 2) 0 ∷ custom_state 7 (0, 3) ∷ [];
})

abbrev aba : List KCoord
aba = (0, 0) ∷ (0, 1) ∷ (0, 0) ∷ []

six_ticks :
    typed {T = ℕ} (keycodes typing.layout) (30 ∷ 48 ∷ 30 ∷ [])
    ≡ (no_event, 42 ∷ 30 ∷ [])
      ∷ (no_event, 42 ∷ [])
      ∷ (no_event, 42 ∷ 48 ∷ [])
      ∷ (no_event, 42 ∷ [])
      ∷ (no_event, 42 ∷ 30 ∷ [])
      ∷ (no_event, 42 ∷ [])
      ∷ []
unfolding keycodes_of typed
six_ticks = refl

-- What a tick tells.
abbrev tells : Option (CustomEvent ℕ × Run ℕ ℕ) → List (CustomEvent ℕ)
tells none = []
tells (some (e, s)) = e ∷ []

queued_custom : tells (event_and_tick deques deref 5 (press (0, 3)) (run start)) ≡ pressed 7 ∷ []
unfolding event_and_tick
queued_custom = refl

first_release : tells (event_and_tick deques deref 5 (release (0, 3)) held) ≡ released 7 ∷ []
unfolding event_and_tick
first_release = refl
