-- ===== src/Layout/TapDance.antt =====
-- keyberon/src/layout.rs, `WaitingState` of a tap-dance key: `tick_wt` and `handle_tap_dance`.
pub mod Taps
use kanata.Base.{
  ℕ, ◌+◌, ◌-◌, Bool, true, false, not, ◌&&◌, ◌||◌, List, [], ◌∷◌, Option, none, some, KCoord, ltb,
  leb, ◌==◌, coord_eq, if◌then◌else◌, u8, sat_add16, length, min,
}
use kanata.Layout.Event.{Event, press, release, is_press, Queued}
use kanata.Layout.HoldTap.{WaitingState, is_corresponding_release}

abbrev pub is_corresponding_press : WaitingState → Event → Bool
is_corresponding_press w (press c) = coord_eq c w.coord
is_corresponding_press w (release c) = false

-- `evict_same_coord_events`: the presses of the key, and this many of its releases, are taken out.
unfoldable pub evict : WaitingState → ℕ → List Queued → List Queued
evict w releases_to_remove [] = []
evict w releases_to_remove (q ∷ qs) = elim (is_corresponding_release w q.event) [
  | true ↦ elim (ltb 0 releases_to_remove) [
    | true ↦ evict w (releases_to_remove - 1) qs
    | false ↦ q ∷ evict w releases_to_remove qs
  ]
  | false ↦ elim (is_corresponding_press w q.event) [
    | true ↦ evict w releases_to_remove qs
    | false ↦ q ∷ evict w releases_to_remove qs
  ]
]

-- The `try_fold`: how many taps, and whether a press of another key ended the count. The queue has
-- 32 places, so the count does not come near the limit of a `u16`.
unfoldable pub count_taps : WaitingState → ℕ → List Queued → ℕ × Bool
count_taps w same_tap_count [] = (same_tap_count, false)
count_taps w same_tap_count (q ∷ qs) = elim (is_corresponding_press w q.event) [
  | true ↦ count_taps w (same_tap_count + 1) qs
  | false ↦ elim (is_press q.event) [
    | true ↦ (same_tap_count, true)
    | false ↦ count_taps w same_tap_count qs
  ]
]

-- What `handle_tap_dance` returns, with the queue. Its only decision is a tap.
pub record Handled : Type 0 where
  pub decided : Bool
  pub num_taps : ℕ
  pub queued : List Queued

abbrev counted : WaitingState → ℕ → List Queued → ℕ × Bool → Handled
counted w max_taps queued (n, ended) =
    if ended || leb max_taps n
    then record { decided = true; num_taps = n; queued = evict w (n - 1) queued }
    else record { decided = false; num_taps = n; queued = queued }

unfoldable pub handle_tap_dance : WaitingState → ℕ → ℕ → List Queued → Handled
unfolding evict count_taps
handle_tap_dance w num_taps max_taps queued =
    if u8 (length queued) == w.prev_queue_len && ltb 0 w.timeout
    then record { decided = false; num_taps = num_taps; queued = queued }
    else if w.timeout == 0
    then record { decided = true; num_taps = num_taps; queued = evict w (num_taps - 1) queued }
    else counted w max_taps queued (count_taps w 1 queued)

-- The waiting state with its `TapDanceState`, whose actions are counted only.
pub record TapDanceState : Type 0 where
  pub waiting : WaitingState
  pub num_actions : ℕ
  pub timeout : ℕ
  pub num_taps : ℕ

-- The arm of `tick_wt`: the place of the action that is taken, if one is,
-- the state and the queue.
abbrev handled : TapDanceState → WaitingState → Handled → Option ℕ × TapDanceState × List Queued
handled s w h = (
  (if h.decided then some (min h.num_taps s.num_actions - 1) else none),
  record s {
    num_taps = h.num_taps;
    waiting = record w {
      prev_queue_len = u8 (length h.queued);
      timeout = if ltb s.num_taps h.num_taps then s.timeout else w.timeout;
    };
  },
  h.queued,
)

abbrev pub ticked : TapDanceState → WaitingState
ticked s = record s.waiting { timeout = s.waiting.timeout - 1; ticks = sat_add16 s.waiting.ticks 1 }

unfoldable pub tick_wt : TapDanceState → List Queued → Option ℕ × TapDanceState × List Queued
unfolding handle_tap_dance
tick_wt s queued =
    handled s (ticked s) (handle_tap_dance (ticked s) s.num_taps s.num_actions queued)
