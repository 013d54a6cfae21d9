-- ===== src/Layout/Manager/Events.antt =====
-- keyberon/src/layout.rs: waiting keys that are decided, and a press taken from the queue. `deref` reads a reference and `act` is `do_action`.
use kanata.Base.{
  ℕ, ◌+◌, Bool, true, false, not, ◌&&◌, ◌||◌, List, [], ◌∷◌, Option, none, some, KCoord, leb, ◌==◌,
  coord_eq, if◌then◌else◌, get_elem?, drop, length, u16,
}
use kanata.Layout.State.{CustomEvent, no_event}
use kanata.Layout.History.{remove_at, find_coord, exclude_hold_or_timeout_from_history}
use kanata.Layout.Action.{
  Action, trans, key_code, multiple_key_codes, multiple_actions, one_shot, layer,
}
use kanata.Layout.Manager.{
  Layout, Waiting, hold_tap_config, tap_dance_config, chord_config, TapDanceEagerState,
  real_key_row,
}
use kanata.Layout.Manager.Layers.{trans_resolution_layer_order}
use kanata.Layout.Manager.Waits.{Act}
use kanata.Layout.Manager.Run.{Method, pure, gets, or_panic, modify, ◌>>=◌, ◌>>◌, counting_anew}

abbrev pub is_expired : {R : Type 0} → TapDanceEagerState R → Bool
is_expired tde = tde.timeout == 0 || leb (length tde.actions) tde.num_taps

-- The key that waits, or the place of one that waits too.
abbrev pub WaitingPlace : Type 0
WaitingPlace = Option ℕ

module _ {R T : Type 0} where
  abbrev pub waiting_at : WaitingPlace → Layout R T → Option (Waiting R T)
  waiting_at none l = l.waiting
  waiting_at (some i) l = get_elem? l.extra_waiting i

  abbrev pub remove_waiting : WaitingPlace → Layout R T → Layout R T
  remove_waiting none l = record l { waiting = none }
  remove_waiting (some i) l = record l { extra_waiting = remove_at l.extra_waiting i }

  -- A sum of two `u16`.
  abbrev pub waiting_delay : Waiting R T → ℕ
  waiting_delay w = elim w.config [
    | hold_tap_config _ ↦ u16 (w.state.delay + w.state.ticks)
    | chord_config _ ↦ u16 (w.state.delay + w.state.ticks)
    | tap_dance_config _ _ _ ↦ 0
  ]

  -- What a hold or a timeout does before its action.
  abbrev pub forget_interval : KCoord → Layout R T → Layout R T
  forget_interval c l =
      if coord_eq c l.last_press_tracker.coord
      then record l { last_press_tracker = record l.last_press_tracker { tap_hold_timeout = 0 } }
      else l

  unfoldable pub leave_waiting : WaitingPlace → Waiting R T → Layout R T → Layout R T
  unfolding remove_at find_coord
  leave_waiting idx w l =
      let l' = remove_waiting idx l in
      forget_interval w.state.coord (record l' {
        historical_inputs_sans_holds_or_timeouts =
            exclude_hold_or_timeout_from_history w.state.coord
              l.historical_inputs_sans_holds_or_timeouts;
      })

  abbrev pub pause_input : Layout R T → Layout R T
  pause_input l = record l {
    oneshot = record l.oneshot {
      pause_input_processing_ticks = l.oneshot.pause_input_processing_delay;
    };
  }

  unfoldable pub into_hold :
      Act R T → WaitingPlace → Option (Waiting R T) → Method R T (CustomEvent T)
  unfolding leave_waiting pure gets modify ◌>>=◌ counting_anew
  into_hold act idx none = pure no_event
  into_hold act idx (some w) = do
    modify (leave_waiting idx w)
    modify pause_input
    counting_anew (act w.hold w.state.coord (waiting_delay w) false w.layer_stack)

  unfoldable pub waiting_into_hold : Act R T → WaitingPlace → Method R T (CustomEvent T)
  unfolding into_hold
  waiting_into_hold act idx = do into_hold act idx (← gets (waiting_at idx))

  unfoldable pub into_timeout :
      Act R T → WaitingPlace → Option (Waiting R T) → Method R T (CustomEvent T)
  unfolding leave_waiting pure gets modify ◌>>=◌ counting_anew
  into_timeout act idx none = pure no_event
  into_timeout act idx (some w) = do
    modify (leave_waiting idx w)
    counting_anew (act w.timeout_action w.state.coord (waiting_delay w) false w.layer_stack)

  unfoldable pub waiting_into_timeout : Act R T → WaitingPlace → Method R T (CustomEvent T)
  unfolding into_timeout
  waiting_into_timeout act idx = do into_timeout act idx (← gets (waiting_at idx))

  -- The actions that are done for each key of a chord.
  abbrev pub is_simple : Action R T → Bool
  is_simple (key_code _) = true
  is_simple (multiple_key_codes _) = true
  is_simple (one_shot _) = true
  is_simple (layer _) = true
  is_simple _ = false

  unfoldable pub act_for_all :
      Act R T → Action R T → ℕ → List ℕ → List KCoord → Method R T (Unit {0})
  unfolding pure ◌>>=◌
  act_for_all act action delay layer_stack [] = pure tt
  act_for_all act action delay layer_stack (c ∷ pq) = do
    act action c delay false layer_stack
    act_for_all act action delay layer_stack pq

  abbrev pub pause_history : Bool → Layout R T → Layout R T
  pause_history b l = record l { pause_historical_keys_updates = b }

module _ {R T : Type 0} (deref : R → Action R T) where
  unfoldable pub act_simple_for_all :
      Act R T → List R → ℕ → List ℕ → List KCoord → Method R T (Unit {0})
  unfolding act_for_all
  act_simple_for_all act [] delay layer_stack pq = pure tt
  act_simple_for_all act (r ∷ acs) delay layer_stack pq = do
    if is_simple (deref r) then act_for_all act (deref r) delay layer_stack pq else pure tt
    act_simple_for_all act acs delay layer_stack pq

  unfoldable pub act_for_others :
      Act R T → Action R T → ℕ → List ℕ → List KCoord → Method R T (Unit {0})
  unfolding act_simple_for_all
  act_for_others act (multiple_actions acs) delay layer_stack pq =
      act_simple_for_all act acs delay layer_stack pq
  act_for_others act action delay layer_stack pq =
      if is_simple action then act_for_all act action delay layer_stack pq else pure tt

  -- `if let Some(pq)`.
  unfoldable pub press_others : Act R T → Waiting R T → Option (List KCoord) → Method R T (Unit {0})
  unfolding act_for_others modify counting_anew
  press_others act w none = pure tt
  press_others act w (some pq) = do
    modify (pause_history true)
    counting_anew (act_for_others act w.tap (waiting_delay w) w.layer_stack pq)
    modify (pause_history false)

  unfoldable pub into_tap :
      Act R T
      → Option (List KCoord)
      → WaitingPlace
      → Option (Waiting R T)
      → Method R T (CustomEvent T)
  unfolding press_others
  into_tap act pq idx none = pure no_event
  into_tap act pq idx (some w) = do
    modify (remove_waiting idx)
    ret ← counting_anew (act w.tap w.state.coord (waiting_delay w) false w.layer_stack)
    press_others act w pq
    modify pause_input
    pure ret

  unfoldable pub waiting_into_tap :
      Act R T → Option (List KCoord) → WaitingPlace → Method R T (CustomEvent T)
  unfolding into_tap gets
  waiting_into_tap act pq idx = do into_tap act pq idx (← gets (waiting_at idx))

  -- A press of the key of an eager dance goes on with it; that of another real key ends it.
  abbrev goes_on : TapDanceEagerState R → KCoord → Layout R T → Bool
  goes_on tde c l = coord_eq c l.last_press_tracker.coord && not (is_expired tde)

  abbrev set_eager : TapDanceEagerState R → Layout R T → Layout R T
  set_eager tde l = record l { tap_dance_eager = some tde }

  abbrev incr_taps : TapDanceEagerState R → TapDanceEagerState R
  incr_taps tde = record tde { num_taps = u16 (tde.num_taps + 1); timeout = tde.orig_timeout }

  abbrev interrupted : KCoord → TapDanceEagerState R → TapDanceEagerState R
  interrupted c tde = if c.0 == real_key_row then record tde { timeout = 0 } else tde

  unfoldable pub press_with :
      Act R T → KCoord → ℕ → List ℕ → Option (TapDanceEagerState R) → Method R T (CustomEvent T)
  unfolding gets or_panic modify ◌>>=◌ counting_anew
  press_with act c since layer_stack none = counting_anew (act trans c since false layer_stack)
  press_with act c since layer_stack (some tde) = do
    live ← gets (goes_on tde c)
    if live
        then (do
          action ← or_panic (get_elem? tde.actions tde.num_taps)
          modify (set_eager (incr_taps tde))
          counting_anew (act (deref action) c since false (drop 1 layer_stack)))
        else (do
          modify (set_eager (interrupted c tde))
          counting_anew (act trans c since false layer_stack))

  unfoldable pub dequeue_press : Act R T → KCoord → ℕ → Method R T (CustomEvent T)
  unfolding trans_resolution_layer_order press_with
  dequeue_press act c since = do
    order ← gets trans_resolution_layer_order
    layer_stack ← or_panic order
    eager ← gets (λ l. l.tap_dance_eager)
    press_with act c since layer_stack eager
