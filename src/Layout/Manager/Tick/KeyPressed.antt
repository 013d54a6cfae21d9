-- ===== src/Layout/Manager/Tick/KeyPressed.antt =====
-- What the press of a key code changes in the layout.
use kanata.Base.{
  ℕ, ◌≡◌, refl, arith, Bool, true, not, List, [], ◌∷◌, ◌++◌, KCoord, ap, ◌∙◌, length, ◌<◌, all,
}
use kanata.Layout.State.{normal_key}
use kanata.Layout.Deques.{Deques}
use kanata.Layout.Action.{Action}
use kanata.Layout.Manager.{Layout}
use kanata.Layout.Manager.Layers.{states_capacity, push_within}
use kanata.Layout.Manager.Parts.{is_cleared, keep, clear_states, push_historical_key, track}
use kanata.Layout.Manager.DoAction.{reset_interval}
use kanata.Layout.Manager.Tick.Plain.{is_plain}
use kanata.Layout.Manager.Tick.Quiet.{IsQuiet}
use kanata.Layout.Manager.Tick.Pressed.{key_pressed}
use kanata.Layout.Manager.Tick.Held.{
  is_held, keep-held, count-held, plain-held, plain-typed, push_within-room,
}

-- What decides, with the active states, what each key does.
abbrev pub assignment :
    {R T : Type 0}
    → Layout R T
    → List (List (List (Action R T))) × List (Action R T) × ℕ × Bool × Bool
assignment l = (
  l.layers, l.src_keys, l.default_layer, l.trans_resolution_behavior_v2, l.delegate_to_first_layer,
)

module _ {R T : Type 0} (d : Deques) (deref : R → Action R T) where
  -- The press, before its state is pushed.
  abbrev noted : KCoord → ℕ → Layout R T → Layout R T
  noted c kc l = push_historical_key d kc (track c (clear_states (reset_interval d deref c l)))

  push_historical_key-states :
      (kc : ℕ) (l : Layout R T) → (push_historical_key d kc l).states ≡ l.states
  push_historical_key-states kc l = ground arith

  reset_interval-states :
      (c : KCoord) (l : Layout R T) → (reset_interval d deref c l).states ≡ l.states
  reset_interval-states c l = ground arith

  noted-states :
      (c : KCoord) (kc : ℕ) (l : Layout R T)
      → all (is_held c) l.states ≡ true
      → (noted c kc l).states ≡ l.states
  unfolding clear_states
  noted-states c kc l held =
      push_historical_key-states kc (track c (clear_states (reset_interval d deref c l)))
      ∙ ap (keep (λ s. not (is_cleared s))) (reset_interval-states c l)
      ∙ keep-held c l.states held

  pub key_pressed-states :
      (c : KCoord) (kc : ℕ) (l : Layout R T)
      → all (is_held c) l.states ≡ true
      → length l.states < states_capacity
      → (key_pressed d deref c kc l).states ≡ l.states ++ normal_key kc c 0 ∷ []
  key_pressed-states c kc l held room =
      ap (λ states. push_within states_capacity states (normal_key kc c 0))
        (noted-states c kc l held)
      ∙ push_within-room l.states (normal_key kc c 0) room

  reset_interval-queue :
      (c : KCoord) (l : Layout R T) → (reset_interval d deref c l).queue ≡ l.queue
  reset_interval-queue c l = ground arith

  push_historical_key-queue :
      (kc : ℕ) (l : Layout R T) → (push_historical_key d kc l).queue ≡ l.queue
  push_historical_key-queue kc l = ground arith

  pub key_pressed-queue :
      (c : KCoord) (kc : ℕ) (l : Layout R T) → (key_pressed d deref c kc l).queue ≡ l.queue
  unfolding clear_states
  key_pressed-queue c kc l =
      push_historical_key-queue kc (track c (clear_states (reset_interval d deref c l)))
      ∙ reset_interval-queue c l

  reset_interval-assigned :
      (c : KCoord) (l : Layout R T) → assignment (reset_interval d deref c l) ≡ assignment l
  reset_interval-assigned c l = ground arith

  push_historical_key-assigned :
      (kc : ℕ) (l : Layout R T) → assignment (push_historical_key d kc l) ≡ assignment l
  push_historical_key-assigned kc l = ground arith

  pub key_pressed-assigned :
      (c : KCoord) (kc : ℕ) (l : Layout R T)
      → assignment (key_pressed d deref c kc l) ≡ assignment l
  unfolding clear_states
  key_pressed-assigned c kc l =
      push_historical_key-assigned kc (track c (clear_states (reset_interval d deref c l)))
      ∙ reset_interval-assigned c l

  reset_interval-IsQuiet :
      (c : KCoord) (l : Layout R T) → IsQuiet l → IsQuiet (reset_interval d deref c l)
  reset_interval-IsQuiet c l h = ground arith

  push_historical_key-IsQuiet :
      (kc : ℕ) (l : Layout R T) → IsQuiet l → IsQuiet (push_historical_key d kc l)
  push_historical_key-IsQuiet kc l h = ground arith

  clear_states-IsQuiet :
      (c : KCoord) (l : Layout R T)
      → IsQuiet l
      → all (is_held c) l.states ≡ true
      → IsQuiet (clear_states l)
  unfolding clear_states
  clear_states-IsQuiet c l h held = record {
    no_waiting = h.no_waiting;
    no_extra = h.no_extra;
    no_actions = h.no_actions;
    no_untold = h.no_untold;
    no_eager = h.no_eager;
    no_sequences = h.no_sequences;
    no_one_shot = h.no_one_shot;
    no_pause = rw (h.no_pause, count-held c l.states held) refl;
    plain_states = ap (all is_plain) (keep-held c l.states held) ∙ h.plain_states;
  }

  noted-IsQuiet :
      (c : KCoord) (kc : ℕ) (l : Layout R T)
      → IsQuiet l
      → all (is_held c) l.states ≡ true
      → IsQuiet (noted c kc l)
  noted-IsQuiet c kc l h held =
      let timed = reset_interval d deref c l in
      let held' = ap (all (is_held c)) (reset_interval-states c l) ∙ held in
      let cleared = clear_states-IsQuiet c timed (reset_interval-IsQuiet c l h) held' in
      push_historical_key-IsQuiet kc (track c (clear_states timed)) (ground arith)

  pub key_pressed-IsQuiet :
      (c : KCoord) (kc : ℕ) (l : Layout R T)
      → IsQuiet l
      → all (is_held c) l.states ≡ true
      → length l.states < states_capacity
      → IsQuiet (key_pressed d deref c kc l)
  key_pressed-IsQuiet c kc l h held room =
      let q = noted-IsQuiet c kc l h held in
      let plain = plain-typed l.states kc c (plain-held c l.states held) in
      record {
        no_waiting = q.no_waiting;
        no_extra = q.no_extra;
        no_actions = q.no_actions;
        no_untold = q.no_untold;
        no_eager = q.no_eager;
        no_sequences = q.no_sequences;
        no_one_shot = q.no_one_shot;
        no_pause = q.no_pause;
        plain_states = ap (all is_plain) (key_pressed-states c kc l held room) ∙ plain;
      }
