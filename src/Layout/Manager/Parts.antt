-- ===== src/Layout/Manager/Parts.antt =====
-- keyberon/src/layout.rs, `do_action`: what an action does by itself, without performing another.
use kanata.Base.{
  ℕ, ◌+◌, ◌*◌, Bool, false, not, ◌&&◌, ◌||◌, List, [], ◌∷◌, ◌++◌, none, some, KCoord, ◌==◌,
  coord_eq, if◌then◌else◌, any, take, u16,
}
use kanata.Layout.OneShot.{
  OneShotRetainableState, key_code as retained_key, other, handle_press, add_state_to_retain,
  is_empty,
}
use kanata.Layout.State.{
  State, CustomEvent, no_event, keycode, keycode_in_coords, seq_release, nkf_clear_on_next_action,
  normal_key, fake_key, no_op_input, clear_on_next_action_flag,
}
use kanata.Layout.Deques.{Deques, one_shot_deque}
use kanata.Layout.History.{push_front}
use kanata.Layout.Action.{Action, multiple_key_codes}
use kanata.Layout.Manager.{Layout, update_coord}
use kanata.Layout.Manager.Layers.{push_within, states_capacity}
use kanata.Layout.Manager.Run.{Method, pure, gets, modify, ◌>>=◌, ◌>>◌}

-- `KeyCode::is_mod`.
unfoldable pub is_mod : ℕ → Bool
is_mod kc = any (λ k. k == kc) (42 ∷ 54 ∷ 29 ∷ 97 ∷ 56 ∷ 100 ∷ 125 ∷ 126 ∷ [])

module _ {T : Type 0} where
  unfoldable pub keycodes_of : List (State T) → List ℕ
  keycodes_of [] = []
  keycodes_of (s ∷ states) =
      let rest = keycodes_of states in elim (keycode s) [ none ↦ rest | some kc ↦ kc ∷ rest ]

  unfoldable pub keycodes_in : List KCoord → List (State T) → List ℕ
  keycodes_in coords [] = []
  keycodes_in coords (s ∷ states) =
      let rest = keycodes_in coords states in
      elim (keycode_in_coords s coords) [ none ↦ rest | some kc ↦ kc ∷ rest ]

  -- `retain`, with a test that changes nothing.
  unfoldable pub keep : (State T → Bool) → List (State T) → List (State T)
  keep test [] = []
  keep test (s ∷ states) = let rest = keep test states in if test s then s ∷ rest else rest

  abbrev pub is_cleared : State T → Bool
  is_cleared (normal_key kc c flags) = nkf_clear_on_next_action flags
  is_cleared _ = false

  -- The keys to suppress, behind those before. A `Vec` of eight.
  unfoldable pub suppressed : List (State T) → List ℕ → List ℕ
  unfolding is_mod
  suppressed [] keys = keys
  suppressed (normal_key kc c flags ∷ states) keys =
      suppressed states
        (if nkf_clear_on_next_action flags && not (is_mod kc) then push_within 8 keys kc else keys)
  suppressed (_ ∷ states) keys = suppressed states keys

  unfoldable pub count_cleared : List (State T) → ℕ
  count_cleared [] = 0
  count_cleared (s ∷ states) =
      let rest = count_cleared states in if is_cleared s then rest + 1 else rest

  unfoldable pub release_fake_keys : List (State T) → List (State T) → List (State T)
  unfolding keep
  release_fake_keys [] states = states
  release_fake_keys (fake_key kc ∷ fake_keys) states =
      release_fake_keys fake_keys (keep (λ s. seq_release s kc) states)
  release_fake_keys (_ ∷ fake_keys) states = release_fake_keys fake_keys states

-- The capacity of `MultiKeyBuffer`.
abbrev pub bufcap : ℕ
bufcap = 20

module _ {R T : Type 0} where
  abbrev pub keycodes : Layout R T → List ℕ
  keycodes l = keycodes_of l.states

  -- Each cleared state adds 2 to a `u16`.
  unfoldable pub clear_states : Layout R T → Layout R T
  unfolding keep suppressed count_cleared
  clear_states l = record l {
    states = keep (λ s. not (is_cleared s)) l.states;
    keys_to_suppress_for_one_cycle = suppressed l.states l.keys_to_suppress_for_one_cycle;
    oneshot = record l.oneshot {
      pause_input_processing_ticks =
          u16 (l.oneshot.pause_input_processing_ticks + 2 * count_cleared l.states);
    };
  }

  abbrev pub track : KCoord → Layout R T → Layout R T
  track c l = record l { last_press_tracker = update_coord c l.last_press_tracker }

  abbrev pub push_state : State T → Layout R T → Layout R T
  push_state s l = record l { states = push_within states_capacity l.states s }

  abbrev pub set_repeat : Action R T → Layout R T → Layout R T
  set_repeat action l = record l { rpt_action = some action }

  -- With one shot keys, their keys and these stand in the buffer. The buffer is a value here: that
  -- the source's own keys may be a slice of the buffer that it clears is left out.
  unfoldable pub set_repeat_keys : Action R T → List KCoord → List ℕ → Layout R T → Layout R T
  unfolding keycodes_in
  set_repeat_keys action coords kcs l = if is_empty coords then set_repeat action l else record l {
    rpt_action = some (multiple_key_codes (take bufcap (keycodes_in coords l.states ++ kcs)));
  }

module _ {R T : Type 0} (d : Deques) where
  abbrev pub push_historical_key : ℕ → Layout R T → Layout R T
  push_historical_key kc l =
      if l.pause_historical_keys_updates
      then l
      else record l { historical_keys = push_front d l.historical_keys kc }

  abbrev pub retain_state : OneShotRetainableState → Layout R T → Layout R T
  retain_state s l = record l { oneshot = add_state_to_retain (one_shot_deque d) l.oneshot s }

  unfoldable pub other_press : KCoord → Method R T (List KCoord)
  unfolding handle_press gets modify pure ◌>>=◌
  other_press c = do
    coords ← gets (λ l. (handle_press (one_shot_deque d) l.oneshot (other c)).0)
    modify (λ l. record l { oneshot = (handle_press (one_shot_deque d) l.oneshot (other c)).1 })
    pure coords

  -- `if !is_oneshot`.
  unfoldable pub note_press : Bool → KCoord → Method R T (List KCoord)
  unfolding other_press
  note_press is_oneshot c = if is_oneshot then pure [] else other_press c

  -- With an `else` that keeps the state.
  unfoldable pub note_or_retain : Bool → KCoord → OneShotRetainableState → Method R T (List KCoord)
  unfolding other_press add_state_to_retain
  note_or_retain is_oneshot c s =
      if is_oneshot then (do modify (retain_state s); pure []) else other_press c

  -- `Action::NoOp`, at a coordinate that is not the one of chords of version 2.
  unfoldable pub act_no_op : Action R T → KCoord → Bool → Method R T (CustomEvent T)
  unfolding note_press
  act_no_op action c is_oneshot = do
    note_press (is_oneshot || coord_eq c (0, 0)) c
    modify (set_repeat action)
    modify (push_state (no_op_input c))
    pure no_event

  unfoldable pub act_key_code : Action R T → ℕ → KCoord → Bool → Method R T (CustomEvent T)
  unfolding note_or_retain set_repeat_keys
  act_key_code action kc c is_oneshot = do
    modify (track c)
    modify (push_historical_key kc)
    modify (push_state (normal_key kc c 0))
    coords ← note_or_retain is_oneshot c (retained_key c kc)
    modify (set_repeat_keys action coords (kc ∷ []))
    pure no_event

  -- `self.keycodes()` leaves the suppressed keys out.
  abbrev pub suppress_repeated : ℕ → Layout R T → Layout R T
  suppress_repeated kc l =
      if not (is_mod kc)
        && any (λ k. k == kc) (keycodes l)
        && not (any (λ k. k == kc) l.keys_to_suppress_for_one_cycle)
      then record l {
        keys_to_suppress_for_one_cycle = push_within 8 l.keys_to_suppress_for_one_cycle kc;
      }
      else l

  unfoldable pub press_all : List ℕ → KCoord → Bool → Layout R T → Layout R T
  unfolding is_mod keycodes_of
  press_all [] c is_oneshot l = l
  press_all (kc ∷ kcs) c is_oneshot l = press_all kcs c is_oneshot (
      push_state (normal_key kc c (if is_oneshot then 0 else clear_on_next_action_flag))
        (push_historical_key kc (suppress_repeated kc l)))

  unfoldable pub retain_all : List ℕ → KCoord → Layout R T → Layout R T
  unfolding add_state_to_retain
  retain_all [] c l = l
  retain_all (kc ∷ kcs) c l = retain_all kcs c (retain_state (retained_key c kc) l)

  unfoldable pub note_or_retain_all : Bool → KCoord → List ℕ → Method R T (List KCoord)
  unfolding other_press retain_all
  note_or_retain_all is_oneshot c kcs =
      if is_oneshot then (do modify (retain_all kcs c); pure []) else other_press c

  unfoldable pub act_multiple_key_codes :
      Action R T → List ℕ → KCoord → Bool → Method R T (CustomEvent T)
  unfolding note_or_retain_all set_repeat_keys press_all
  act_multiple_key_codes action kcs c is_oneshot = do
    modify (track c)
    modify (press_all kcs c is_oneshot)
    coords ← note_or_retain_all is_oneshot c kcs
    modify (set_repeat_keys action coords kcs)
    pure no_event
