-- ===== src/Layout/HoldTap.antt =====
-- keyberon/src/layout.rs, `WaitingState` of a hold-tap key: `tick_wt` and `handle_hold_tap`.
pub mod Decision
pub mod FastPath
use kanata.Base.{
  ℕ, ◌-◌, ◌%◌, Bool, true, false, not, ◌&&◌, List, [], ◌∷◌, Option, none, some, KCoord, ltb, leb,
  ◌==◌, coord_eq, if◌then◌else◌, u8, sat_add16, length, any,
}
use kanata.Layout.Event.{Event, press, release, is_press, coord, event_eq, Queued}

pub data WaitingAction : Type 0 where
  hold tap timed_out no_op : WaitingAction

-- action.rs. A custom configuration is the caller's function.
pub data HoldTapConfig : Type 0 where
  default hold_on_other_key_press permissive_hold : HoldTapConfig
  order : ℕ → HoldTapConfig
  custom : (List Queued → KCoord → Option WaitingAction × Bool) → HoldTapConfig

-- What `handle_hold_tap` reads and writes; the actions and the layers wait unchanged.
pub record WaitingState : Type 0 where
  pub coord : KCoord
  pub timeout : ℕ
  pub on_press_reset_timeout_to : Option ℕ
  pub delay : ℕ
  pub ticks : ℕ
  pub prev_queue_len : ℕ

abbrev pub is_corresponding_release : WaitingState → Event → Bool
is_corresponding_release w (press c) = false
is_corresponding_release w (release c) = coord_eq c w.coord

-- The last of the queue is a press.
unfoldable pub ends_in_press : List Queued → Bool
ends_in_press [] = false
ends_in_press (q ∷ []) = is_press q.event
ends_in_press (q ∷ q' ∷ qs) = ends_in_press (q' ∷ qs)

unfoldable pub reset_timeout : Option ℕ → List Queued → WaitingState → WaitingState
unfolding ends_in_press
reset_timeout none queued w = w
reset_timeout (some reset_val) queued w =
    if ends_in_press queued then record w { timeout = reset_val } else w

-- A press that counts, with its release behind it in the queue.
unfoldable pub tapped : (Queued → Bool) → List Queued → Bool
unfolding coord
tapped counts [] = false
tapped counts (q ∷ qs) =
    let later = tapped counts qs in
    if is_press q.event && counts q && any (λ r. event_eq r.event (release (coord q.event))) qs
    then true
    else later

-- `press_tick < buffer` is not so.
abbrev pub outside_buffer : WaitingState → ℕ → Queued → Bool
outside_buffer w buffer q = not (ltb (w.ticks - q.since) buffer)

abbrev hold_if : Bool → Option WaitingAction × Bool
hold_if b = (if b then some hold else none, false)

-- The arms of the `match`: what is returned early, and `skip_timeout`.
unfoldable pub by_queue : HoldTapConfig → WaitingState → List Queued → Option WaitingAction × Bool
unfolding tapped
by_queue default w queued = (none, false)
by_queue hold_on_other_key_press w queued = hold_if (any (λ q. is_press q.event) queued)
by_queue (order buffer) w queued = hold_if (tapped (outside_buffer w buffer) queued)
by_queue permissive_hold w queued = hold_if (tapped (λ q. true) queued)
by_queue (custom f) w queued = f queued w.coord

unfoldable pub find_release : WaitingState → List Queued → Option Queued
find_release w [] = none
find_release w (q ∷ qs) =
    let later = find_release w qs in if is_corresponding_release w q.event then some q else later

-- Behind the `match`.
unfoldable pub by_timeout : WaitingState → Bool → Option Queued → Option WaitingAction
by_timeout w skip_timeout (some q) =
    if leb (w.delay - q.since) w.timeout then some tap else some timed_out
by_timeout w skip_timeout none = if w.timeout == 0 && not skip_timeout then some timed_out else none

abbrev either : Option WaitingAction → Option WaitingAction → Option WaitingAction
either (some a) o = some a
either none o = o

-- All behind the fast path and the reset of the timeout.
unfoldable pub decide : HoldTapConfig → WaitingState → List Queued → Option WaitingAction
unfolding by_queue by_timeout find_release
decide cfg w queued =
    let (early, skip_timeout) = by_queue cfg w queued in
    either early (by_timeout w skip_timeout (find_release w queued))

unfoldable pub handle_hold_tap :
    HoldTapConfig → WaitingState → List Queued → Option WaitingAction × WaitingState
unfolding decide reset_timeout
handle_hold_tap cfg w queued =
    let queue_len = u8 (length queued) in
    if queue_len == w.prev_queue_len && ltb 0 w.timeout
    then (none, w)
    else (let t = record (reset_timeout w.on_press_reset_timeout_to queued w) {
      prev_queue_len = queue_len;
    } in
        (decide cfg t queued, t))

-- `tick_wt` of a hold-tap key.
unfoldable pub tick_wt :
    HoldTapConfig → WaitingState → List Queued → Option WaitingAction × WaitingState
unfolding handle_hold_tap
tick_wt cfg w queued =
    handle_hold_tap cfg (record w { timeout = w.timeout - 1; ticks = sat_add16 w.ticks 1 }) queued
