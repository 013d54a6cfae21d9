-- ===== src/Layout/Manager/Within/Actions.antt =====
-- The actions of `do_action` keep the coordinates of the layout within a set that has theirs, where
-- the actions that they perform do.
use kanata.Base.{ℕ, ◌≡◌, arith, Bool, true, List, [], some, KCoord}
use kanata.Layout.OneShot.{OneShotRetainableState}
use kanata.Layout.State.{State, SequenceEvent, ReleasableState}
use kanata.Layout.Deques.{Deques}
use kanata.Layout.Action.{Action}
use kanata.Layout.Manager.{Layout}
use kanata.Layout.Manager.Parts.{
  keep, release_fake_keys, other_press, note_press, note_or_retain, note_or_retain_all, act_no_op,
  act_key_code, act_multiple_key_codes,
}
use kanata.Layout.Manager.Effects.{
  act_layer, act_default_layer, act_sequence, act_repeatable_sequence, act_cancel_sequences,
  act_release_state, act_one_shot_ignore, count_custom, act_custom,
}
use kanata.Layout.Manager.Within.{IsWithin, state_in, action_in}
use kanata.Layout.Manager.Within.Rules.{Kept, kept_rules}
use kanata.Layout.Manager.Within.Layouts.{
  all-keep, all-release_fake_keys, push_state-IsWithin, set_repeat_keys-IsWithin,
  push_historical_key-IsWithin, press_all-IsWithin, retain_all-IsWithin, set_default_layer-IsWithin,
}

module _ {R T : Type 0} {P : KCoord → Bool} (d : Deques) where
  other_press-Kept : (c : KCoord) → Kept P (other_press {R = R} {T = T} d c)
  unfolding other_press
  other_press-Kept c = search (kept_rules)

  note_press-Kept : (b : Bool) (c : KCoord) → Kept P (note_press {R = R} {T = T} d b c)
  unfolding note_press
  note_press-Kept b c = search (kept_rules, other_press-Kept)

  note_or_retain-Kept :
      (b : Bool) (c : KCoord) (s : OneShotRetainableState)
      → Kept P (note_or_retain {R = R} {T = T} d b c s)
  unfolding note_or_retain
  note_or_retain-Kept b c s = search (kept_rules, other_press-Kept)

  note_or_retain_all-Kept :
      (b : Bool) (c : KCoord) (kcs : List ℕ) → Kept P (note_or_retain_all {R = R} {T = T} d b c kcs)
  unfolding note_or_retain_all
  note_or_retain_all-Kept b c kcs = search (kept_rules, other_press-Kept, retain_all-IsWithin)

  pub act_no_op-Kept :
      (action : Action R T) (c : KCoord) (b : Bool) → P c ≡ true → Kept P (act_no_op d action c b)
  unfolding act_no_op
  act_no_op-Kept action c b here = search (kept_rules, note_press-Kept, push_state-IsWithin)

  pub act_key_code-Kept :
      (action : Action R T) (kc : ℕ) (c : KCoord) (b : Bool)
      → P c ≡ true
      → Kept P (act_key_code d action kc c b)
  unfolding act_key_code
  act_key_code-Kept action kc c b here =
      search
        (
          kept_rules, note_or_retain-Kept, push_state-IsWithin, push_historical_key-IsWithin,
          set_repeat_keys-IsWithin,
        )
        depth 12

  pub act_multiple_key_codes-Kept :
      (action : Action R T) (kcs : List ℕ) (c : KCoord) (b : Bool)
      → P c ≡ true
      → Kept P (act_multiple_key_codes d action kcs c b)
  unfolding act_multiple_key_codes
  act_multiple_key_codes-Kept action kcs c b here =
      search (kept_rules, note_or_retain_all-Kept, press_all-IsWithin, set_repeat_keys-IsWithin)
        depth 12

  pub act_layer-Kept :
      (value : ℕ) (c : KCoord) (b : Bool)
      → P c ≡ true
      → Kept P (act_layer {R = R} {T = T} d value c b)
  unfolding act_layer
  act_layer-Kept value c b here =
      search (kept_rules, note_or_retain-Kept, push_state-IsWithin) depth 12

  pub act_default_layer-Kept :
      (value : ℕ) (c : KCoord) (b : Bool) → Kept P (act_default_layer {R = R} {T = T} d value c b)
  unfolding act_default_layer
  act_default_layer-Kept value c b =
      search (kept_rules, note_press-Kept, set_default_layer-IsWithin) depth 12

  pub act_sequence-Kept :
      (action : Action R T) (events : List (SequenceEvent T)) (c : KCoord) (b : Bool)
      → Kept P (act_sequence d action events c b)
  unfolding act_sequence
  act_sequence-Kept action events c b = search (kept_rules, note_press-Kept) depth 12

  pub act_repeatable_sequence-Kept :
      (action : Action R T) (events : List (SequenceEvent T)) (c : KCoord) (b : Bool)
      → P c ≡ true
      → Kept P (act_repeatable_sequence d action events c b)
  unfolding act_repeatable_sequence
  act_repeatable_sequence-Kept action events c b here =
      search (kept_rules, note_press-Kept, push_state-IsWithin) depth 12

  cancelled-IsWithin :
      (l : Layout R T)
      → IsWithin P l
      → IsWithin P
          (record l { active_sequences = []; states = release_fake_keys l.states l.states })
  cancelled-IsWithin l h = ground (arith, all-release_fake_keys (state_in P) l.states l.states)

  pub act_cancel_sequences-Kept :
      (action : Action R T) (c : KCoord) (b : Bool) → Kept P (act_cancel_sequences d action c b)
  unfolding act_cancel_sequences
  act_cancel_sequences-Kept action c b =
      search (kept_rules, note_press-Kept, cancelled-IsWithin) depth 12

  kept_states-IsWithin :
      (test : State T → Bool) (l : Layout R T)
      → IsWithin P l
      → IsWithin P (record l { states = keep test l.states })
  kept_states-IsWithin test l h = ground (arith, all-keep (state_in P) test l.states)

  pub act_release_state-Kept :
      (action : Action R T) (rs : ReleasableState) (c : KCoord) (b : Bool)
      → Kept P (act_release_state d action rs c b)
  unfolding act_release_state
  act_release_state-Kept action rs c b =
      search (kept_rules, note_press-Kept, kept_states-IsWithin) depth 12

  pub act_one_shot_ignore-Kept :
      (action : Action R T) (ticks : ℕ) (c : KCoord) → Kept P (act_one_shot_ignore d action ticks c)
  unfolding act_one_shot_ignore
  act_one_shot_ignore-Kept action ticks c = search (kept_rules) depth 12

  count_custom-Kept : Kept P (count_custom {R = R} {T = T} d)
  unfolding count_custom
  count_custom-Kept = record { at = λ s h. h }

  queued_action-IsWithin :
      (c : KCoord) (delay : ℕ) (action : Action R T) (stack : List ℕ) (l : Layout R T)
      → P c ≡ true
      → IsWithin P l
      → IsWithin P (record l {
        action_queue = (d.push_back 8 l.action_queue (some (c, delay, action, stack))).0;
      })
  queued_action-IsWithin c delay action stack l here h =
      ground
        (arith, d.push_back_all 8 (action_in P) l.action_queue (some (c, delay, action, stack)))

  pub act_custom-Kept :
      (action : Action R T) (value : T) (c : KCoord) (delay : ℕ) (b : Bool) (stack : List ℕ)
      → P c ≡ true
      → Kept P (act_custom d action value c delay b stack)
  unfolding act_custom
  act_custom-Kept action value c delay b stack here =
      search
        (
          kept_rules, note_press-Kept, count_custom-Kept, push_state-IsWithin,
          queued_action-IsWithin,
        )
        depth 14
