-- ===== src/Layout/Manager/Ends/Tame.antt =====
-- Actions that perform others end where the others do.
use kanata.Base.{
  ℕ, zero, suc, ◌<◌, ◌≡◌, refl, arith, Bool, true, false, List, [], ◌∷◌, KCoord, ltb, if◌then◌else◌,
  all, get_elem?,
}
use kanata.Layout.State.{CustomEvent}
use kanata.Layout.Deques.{Deques}
use kanata.Layout.Action.{
  Action, no_op, trans, repeat, src, cancel_sequences, key_code, multiple_key_codes,
  multiple_actions, layer, default_layer, sequence, repeatable_sequence, release_state, hold_tap,
  custom, one_shot, one_shot_ignore_events_ticks, tap_dance, chords, fork, switch, HoldTapAction,
  TapDance, TapDanceConfig, lazy, eager, ForkConfig,
}
use kanata.Layout.Manager.Run.{Run, Method, pure, or_panic, modify, ◌>>=◌}
use kanata.Layout.Manager.Layers.{is_trans}
use kanata.Layout.Manager.Run.Returns.{is_some, Returns, Returns-bind, return_rules}
use kanata.Layout.Manager.Waits.{Act, act_hold_tap, start_dance, act_tap_dance}
use kanata.Layout.Manager.Perform.{act_each, act_multiple, act_fork}
use kanata.Layout.Manager.DoAction.{dispatch, resolved, reset_interval, act_within, do_action}
use kanata.Layout.Manager.Parts.{clear_states}
use kanata.Layout.Manager.Ends.{
  DanceBelow, FirstBelow, IsTame, Ends, no_op-Ends, key_code-Ends, multiple_key_codes-Ends,
  layer-Ends, default_layer-Ends, sequence-Ends, repeatable_sequence-Ends, cancel_sequences-Ends,
  release_state-Ends, custom-Ends, one_shot_ignore-Ends, chords-Ends,
}

Returns-resolved :
    {R T A B : Type 0} (m : Method R T A) (k : A → Method R T B) (a : A)
    → m ≡ pure a
    → Returns (k a)
    → Returns (m >>= k)
unfolding ◌>>=◌ pure
Returns-resolved m k a e h = rw e (record { at = λ s. h.at s })

not_trans :
    {R T : Type 0} (rank : R → ℕ) (n : ℕ) (action : Action R T)
    → IsTame rank n action
    → is_trans action ≡ false
not_trans rank n trans tame = absurd tame
not_trans rank n action tame = refl

module _ {R T : Type 0} (d : Deques) (deref : R → Action R T) (rank : R → ℕ) (act : Act R T) (n : ℕ)
    (inner : (r : R) (c : KCoord) (delay : ℕ) (b : Bool) (stack : List ℕ)
      → rank r < n
      → Returns (act (deref r) c delay b stack)) where
  hold_tap-Ends :
      (h : HoldTapAction R) (c : KCoord) (delay : ℕ) (b : Bool) (stack : List ℕ)
      → rank h.tap < n
      → Returns (act_hold_tap d deref act h c delay b stack)
  unfolding act_hold_tap
  hold_tap-Ends h c delay b stack below = search (return_rules, inner) depth 14

  each-Ends :
      (rs : List R) (c : KCoord) (delay : ℕ) (b : Bool) (stack : List ℕ) (e : CustomEvent T)
      → all (λ r. ltb (rank r) n) rs ≡ true
      → Returns (act_each d deref (λ r. act (deref r) c delay b stack) rs e)
  unfolding act_each
  each-Ends [] c delay b stack e below = search (return_rules)
  each-Ends (r ∷ rs) c delay b stack e below =
      Returns-bind _ _ (inner r c delay b stack (ground arith))
        (λ e'. each-Ends rs c delay b stack _ (ground arith))

  multiple-Ends :
      (action : Action R T) (rs : List R) (c : KCoord) (delay : ℕ) (b : Bool) (stack : List ℕ)
      → all (λ r. ltb (rank r) n) rs ≡ true
      → Returns (act_multiple d deref act action rs c delay b stack)
  unfolding act_multiple
  multiple-Ends action rs c delay b stack below = search (return_rules, each-Ends) depth 12

  first-Ends :
      (actions : List R) (c : KCoord) (delay : ℕ) (stack : List ℕ)
      → FirstBelow rank n actions
      → Returns (or_panic (get_elem? actions 0) >>= λ first. act (deref first) c delay false stack)
  unfolding ◌>>=◌ or_panic
  first-Ends [] c delay stack below = absurd below
  first-Ends (r ∷ rs) c delay stack below = record {
    at = λ s. (inner r c delay false stack below).at s;
  }

  dance-Ends :
      (td : TapDance R) (c : KCoord) (delay : ℕ) (stack : List ℕ) (config : TapDanceConfig)
      → DanceBelow rank n td.actions config
      → Returns (start_dance d deref act td c delay stack config)
  unfolding start_dance
  dance-Ends td c delay stack lazy below = search (return_rules) depth 12
  dance-Ends td c delay stack eager below = search (return_rules, first-Ends) depth 12

  tap_dance-Ends :
      (td : TapDance R) (c : KCoord) (delay : ℕ) (stack : List ℕ)
      → DanceBelow rank n td.actions td.config
      → Returns (act_tap_dance d deref act td c delay stack)
  unfolding act_tap_dance
  tap_dance-Ends td c delay stack below = search (return_rules, dance-Ends) depth 12

  chosen-Ends :
      (right : Bool) (f : ForkConfig R) (c : KCoord) (delay : ℕ) (stack : List ℕ)
      → rank f.left < n
      → rank f.right < n
      → Returns (act (if right then deref f.right else deref f.left) c delay false stack)
  chosen-Ends true f c delay stack below below' = inner f.right c delay false stack below'
  chosen-Ends false f c delay stack below below' = inner f.left c delay false stack below

  fork-Ends :
      (action : Action R T) (f : ForkConfig R) (c : KCoord) (delay : ℕ) (stack : List ℕ)
      → rank f.left < n
      → rank f.right < n
      → Returns (act_fork d deref act action f c delay stack)
  unfolding act_fork
  fork-Ends action f c delay stack below below' = search (return_rules, chosen-Ends) depth 12

  dispatch-Ends :
      (action : Action R T) (c : KCoord) (delay : ℕ) (b : Bool) (stack : List ℕ)
      → IsTame rank n action
      → Ends d deref act action c delay b stack
  unfolding dispatch
  dispatch-Ends trans c delay b stack tame = absurd tame
  dispatch-Ends repeat c delay b stack tame = absurd tame
  dispatch-Ends src c delay b stack tame = absurd tame
  dispatch-Ends (one_shot o) c delay b stack tame = absurd tame
  dispatch-Ends (switch sw) c delay b stack tame = absurd tame
  dispatch-Ends (hold_tap h) c delay b stack tame = hold_tap-Ends h c delay b stack tame
  dispatch-Ends (multiple_actions rs) c delay b stack tame =
      multiple-Ends (multiple_actions rs) rs c delay b stack tame
  dispatch-Ends (tap_dance td) c delay b stack tame = tap_dance-Ends td c delay stack tame
  dispatch-Ends (fork f) c delay b stack tame = fork-Ends (fork f) f c delay stack tame.0 tame.1
  dispatch-Ends no_op c delay b stack tame = no_op-Ends d deref act c delay b stack
  dispatch-Ends cancel_sequences c delay b stack tame =
      cancel_sequences-Ends d deref act c delay b stack
  dispatch-Ends (key_code kc) c delay b stack tame = key_code-Ends d deref act c delay b stack kc
  dispatch-Ends (multiple_key_codes kcs) c delay b stack tame =
      multiple_key_codes-Ends d deref act c delay b stack kcs
  dispatch-Ends (layer l) c delay b stack tame = layer-Ends d deref act c delay b stack l
  dispatch-Ends (default_layer l) c delay b stack tame =
      default_layer-Ends d deref act c delay b stack l
  dispatch-Ends (sequence events) c delay b stack tame =
      sequence-Ends d deref act c delay b stack events
  dispatch-Ends (repeatable_sequence events) c delay b stack tame =
      repeatable_sequence-Ends d deref act c delay b stack events
  dispatch-Ends (release_state rs) c delay b stack tame =
      release_state-Ends d deref act c delay b stack rs
  dispatch-Ends (custom v) c delay b stack tame = custom-Ends d deref act c delay b stack v
  dispatch-Ends (one_shot_ignore_events_ticks ticks) c delay b stack tame =
      one_shot_ignore-Ends d deref act c delay b stack ticks
  dispatch-Ends (chords group) c delay b stack tame = chords-Ends d deref act c delay b stack group

  resolved-tame :
      (action : Action R T) (c : KCoord) (stack : List ℕ)
      → IsTame rank n action
      → resolved d deref action c stack ≡ pure (action, stack)
  unfolding resolved
  resolved-tame action c stack tame = rw (not_trans rank n action tame)

  within-Ends :
      (action : Action R T) (c : KCoord) (delay : ℕ) (b : Bool) (stack : List ℕ)
      → IsTame rank n action
      → Returns (act_within d deref act action c delay b stack)
  unfolding act_within
  within-Ends action c delay b stack tame =
      Returns-resolved (resolved d deref action c stack)
        (λ found. modify (reset_interval d deref c) >>= λ _.
          modify clear_states >>= λ _. dispatch d deref act found.0 c delay b found.1)
        (action, stack) (resolved-tame action c stack tame)
        (search (return_rules, dispatch-Ends) depth 12)

module _ {R T : Type 0} (d : Deques) (deref : R → Action R T) (rank : R → ℕ)
    (all_tame : (r : R) → IsTame rank (rank r) (deref r)) where
  action-Returns :
      (depth n : ℕ) (action : Action R T) (c : KCoord) (delay : ℕ) (b : Bool) (stack : List ℕ)
      → IsTame rank n action
      → n < depth
      → Returns (do_action d deref depth action c delay b stack)
  unfolding do_action
  action-Returns zero n action c delay b stack tame enough = absurd (omega arith)
  action-Returns (suc depth) n action c delay b stack tame enough =
      within-Ends d deref rank (do_action d deref depth) n
        (λ r c delay b stack below.
          action-Returns depth (rank r) (deref r) c delay b stack (all_tame r) (omega arith))
        action c delay b stack tame

-- Where each nested action has a smaller rank than the action around it, and all are none of `Trans`,
-- `Repeat`, `Src`, `OneShot` and `Switch`, with an action in each eager tap dance: the action is
-- performed to its end, without a panic, in any state of the layout, with room for as many nested
-- calls as its rank and one more.
pub do_action-Returns :
    {R T : Type 0} (d : Deques) (deref : R → Action R T) (rank : R → ℕ) (r : R) (c : KCoord)
    (delay : ℕ) (b : Bool) (stack : List ℕ) (s : Run R T)
    → ((x : R) → IsTame rank (rank x) (deref x))
    → is_some (do_action d deref (suc (rank r)) (deref r) c delay b stack s) ≡ true
do_action-Returns d deref rank r c delay b stack s all_tame =
    (action-Returns d deref rank all_tame (suc (rank r)) (rank r) (deref r) c delay b stack
        (all_tame r) (omega arith)).at
      s
