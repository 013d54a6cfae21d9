-- ===== src/Layout/OneShot.antt =====
-- keyberon/src/layout.rs, `OneShotState`, and the branches of `do_action` that set it. The deques
-- are the arraydeque crate's, and only what its documentation says of `push_back` is used.
pub mod Acts
pub mod Expiry
pub mod Triggers
use kanata.Base.{
  ℕ, ◌+◌, ◌-◌, ◌≤◌, ◌<◌, ◌≡◌, arith, Bool, true, false, not, ◌&&◌, ◌||◌, List, [], ◌∷◌, ◌++◌,
  Option, none, some, KCoord, ltb, ◌==◌, coord_eq, if◌then◌else◌, length, any, min,
}

abbrev pub one_shot_max_active : ℕ
one_shot_max_active = 16

-- `push_back` of an `ArrayDeque` with `one_shot_max_active` places that wraps around: of a full one
-- it takes the front away and returns it.
pub record Deque : Type 1 where
  pub push_back : {A : Type 0} → List A → A → List A × Option A
  pub push_back_room :
      {A : Type 0} (xs : List A) (x : A)
      → length xs < one_shot_max_active
      → push_back xs x ≡ (xs ++ x ∷ [], none)
  pub push_back_full :
      {A : Type 0} (y : A) (xs : List A) (x : A)
      → length (y ∷ xs) ≡ one_shot_max_active
      → push_back (y ∷ xs) x ≡ (xs ++ x ∷ [], some y)

-- action.rs.
pub data OneShotEndConfig : Type 0 where
  end_on_first_press end_on_first_press_or_repress : OneShotEndConfig
  end_on_first_release end_on_first_release_or_repress : OneShotEndConfig

pub data OneShotRetainableState : Type 0 where
  key_code : KCoord → ℕ → OneShotRetainableState
  layer : KCoord → ℕ → OneShotRetainableState

abbrev pub retainable_eq : OneShotRetainableState → OneShotRetainableState → Bool
retainable_eq (key_code c kc) (key_code c' kc') = coord_eq c c' && kc == kc'
retainable_eq (layer c l) (layer c' l') = coord_eq c c' && l == l'
retainable_eq (key_code _ _) (layer _ _) = false
retainable_eq (layer _ _) (key_code _ _) = false

pub record OneShotState : Type 0 where
  pub keys : List KCoord
  pub released_keys : List KCoord
  pub state_to_retain_on_release : List OneShotRetainableState
  pub other_pressed_keys : List KCoord
  pub timeout : ℕ
  pub end_config : OneShotEndConfig
  pub release_on_next_tick : Bool
  pub pause_input_processing_delay : ℕ
  pub pause_input_processing_ticks : ℕ
  pub ticks_to_ignore_events : ℕ

pub data OneShotHandlePressKey : Type 0 where
  one_shot_key other : KCoord → OneShotHandlePressKey

abbrev pub has : List KCoord → KCoord → Bool
has cs c = any (λ k. coord_eq k c) cs

abbrev pub is_empty {ℓ} : {A : Type ℓ} → List A → Bool
is_empty [] = true
is_empty (_ ∷ _) = false

abbrev pub on_repress : OneShotEndConfig → Bool
on_repress end_on_first_press_or_repress = true
on_repress end_on_first_release_or_repress = true
on_repress end_on_first_press = false
on_repress end_on_first_release = false

abbrev pub on_press : OneShotEndConfig → Bool
on_press end_on_first_press = true
on_press end_on_first_press_or_repress = true
on_press end_on_first_release = false
on_press end_on_first_release_or_repress = false

abbrev pub on_release : OneShotEndConfig → Bool
on_release end_on_first_release = true
on_release end_on_first_release_or_repress = true
on_release end_on_first_press = false
on_release end_on_first_press_or_repress = false

-- `released_keys.retain(|coord| *coord != c)`.
unfoldable pub without : KCoord → List KCoord → List KCoord
without c [] = []
without c (x ∷ xs) = let rest = without c xs in if coord_eq x c then rest else x ∷ rest

abbrev pub cleared : OneShotState → OneShotState
cleared s = record s {
  release_on_next_tick = false;
  timeout = 0;
  pause_input_processing_ticks = 0;
  ticks_to_ignore_events = 0;
  keys = [];
  other_pressed_keys = [];
  state_to_retain_on_release = [];
  released_keys = [];
}

abbrev ticked : OneShotState → OneShotState
ticked s = record s {
  ticks_to_ignore_events = s.ticks_to_ignore_events - 1;
  timeout = s.timeout - 1;
}

-- The one shot keys that are released by this tick.
unfoldable pub tick_osh : OneShotState → Option (List KCoord) × OneShotState
tick_osh s =
    if is_empty s.keys
    then (none, s)
    else if s.release_on_next_tick || s.timeout - 1 == 0
    then (some s.released_keys, cleared s)
    else (none, ticked s)

abbrev press_one_shot : OneShotState → KCoord → List KCoord × OneShotState
press_one_shot s c =
    let again = on_repress s.end_config && has s.keys c in
    (
      (if again then s.keys else []),
      record s {
        release_on_next_tick = again || s.release_on_next_tick;
        released_keys = without c s.released_keys;
      },
    )

abbrev press_other : Deque → OneShotState → KCoord → List KCoord × OneShotState
press_other d s c =
    if on_press s.end_config
    then (
      s.keys,
      record s {
        timeout = min s.pause_input_processing_delay s.timeout;
        pause_input_processing_ticks = s.pause_input_processing_delay;
      },
    )
    else (s.keys, record s { other_pressed_keys = (d.push_back s.other_pressed_keys c).0 })

-- With the coordinates of the active one shot keys.
unfoldable pub handle_press :
    Deque → OneShotState → OneShotHandlePressKey → List KCoord × OneShotState
unfolding without
handle_press d s key =
    if is_empty s.keys || ltb 0 s.ticks_to_ignore_events
    then ([], s)
    else elim key [ one_shot_key c ↦ press_one_shot s c | other c ↦ press_other d s c ]

-- Whether the caller is to handle the release, and a release that overflowed.
unfoldable pub handle_release :
    Deque → OneShotState → KCoord → (Bool × Option KCoord) × OneShotState
handle_release d s c =
    if is_empty s.keys
    then ((true, none), s)
    else if has s.keys c
    then (let (released, overflow) = d.push_back s.released_keys c in
        ((false, overflow), record s { released_keys = released }))
    else (
      (true, none),
      record s {
        release_on_next_tick =
            (on_release s.end_config && has s.other_pressed_keys c) || s.release_on_next_tick;
      },
    )

unfoldable pub add_state_to_retain : Deque → OneShotState → OneShotRetainableState → OneShotState
add_state_to_retain d s state =
    if any (λ t. retainable_eq t state) s.state_to_retain_on_release then s else record s {
      state_to_retain_on_release = (d.push_back s.state_to_retain_on_release state).0;
    }

-- `do_action` of a one shot action, behind its inner action: the state, and the key whose release
-- is sent because there are too many.
unfoldable pub activate :
    Deque → OneShotState → KCoord → ℕ → OneShotEndConfig → Option KCoord × OneShotState
unfolding handle_press without
activate d s c timeout_ end_config_ =
    let pressed = (handle_press d s (one_shot_key c)).1 in
    let (keys_, overflow) = d.push_back pressed.keys c in
    (overflow, record pressed { timeout = timeout_; end_config = end_config_; keys = keys_ })
