-- ===== src/CustomTapHold.antt =====
-- parser/src/cfg/custom_tap_hold.rs: the functions that `HoldTapConfig::Custom` is given. A key is
-- its `u16`; a function reads the queue and the waiting key's coordinate.
pub mod Hands
pub mod Release
pub mod Except
use kanata.Base.{
  ℕ, Bool, true, false, ◌&&◌, List, [], ◌∷◌, Option, none, some, KCoord, ◌==◌, if◌then◌else◌, any,
}
use kanata.Layout.Event.{Event, release, is_press, coord, event_eq, Queued}
use kanata.Layout.HoldTap.{WaitingAction, tap, hold}

abbrev pub real_key_row : ℕ
real_key_row = 0

abbrev pub has_key : List ℕ → ℕ → Bool
has_key keys j = any (λ j2. j2 == j) keys

-- `queued.clone().copied().any(|q| q.event() == Event::Release(i, j))`
abbrev pub released : KCoord → List Queued → Bool
released c queued = any (λ q. event_eq q.event (release c)) queued

abbrev pub is_real : KCoord → Bool
is_real c = c.0 == real_key_row

unfoldable pub custom_tap_hold_release : List ℕ → List Queued → KCoord → Option WaitingAction × Bool
unfolding coord
custom_tap_hold_release keys [] waiting = (none, false)
custom_tap_hold_release keys (q ∷ queued) waiting =
    let rest = custom_tap_hold_release keys queued waiting in
    let c = coord q.event in
    if is_press q.event
    then (if is_real c && has_key keys c.1
        then (some tap, false)
        else if released c queued
        then (some hold, false)
        else rest)
    else rest

unfoldable pub custom_tap_hold_release_trigger_tap_release :
    List ℕ → List ℕ → List Queued → KCoord → Option WaitingAction × Bool
unfolding coord
custom_tap_hold_release_trigger_tap_release on_press on_release [] waiting = (none, false)
custom_tap_hold_release_trigger_tap_release on_press on_release (q ∷ queued) waiting =
    let rest = custom_tap_hold_release_trigger_tap_release on_press on_release queued waiting in
    let c = coord q.event in
    if is_press q.event && is_real c
    then (if has_key on_press c.1
        then (some tap, false)
        else if has_key on_release c.1 && released c queued
        then (some tap, false)
        else if released c queued
        then (some hold, false)
        else rest)
    else rest

unfoldable pub custom_tap_hold_keys :
    List ℕ → List ℕ → List ℕ → List Queued → KCoord → Option WaitingAction × Bool
unfolding coord
custom_tap_hold_keys tap_on_press tap_on_press_release hold_on_press [] waiting = (none, false)
custom_tap_hold_keys tap_on_press tap_on_press_release hold_on_press (q ∷ queued) waiting =
    let rest =
      custom_tap_hold_keys tap_on_press tap_on_press_release hold_on_press queued waiting in
    let c = coord q.event in
    if is_press q.event && is_real c
    then (if has_key tap_on_press c.1
        then (some tap, false)
        else if has_key hold_on_press c.1
        then (some hold, false)
        else if has_key tap_on_press_release c.1 && released c queued
        then (some tap, false)
        else if released c queued
        then (some hold, false)
        else rest)
    else rest

unfoldable pub custom_tap_hold_except : List ℕ → List Queued → KCoord → Option WaitingAction × Bool
unfolding coord
custom_tap_hold_except keys [] waiting = (none, true)
custom_tap_hold_except keys (q ∷ queued) waiting =
    let rest = custom_tap_hold_except keys queued waiting in
    if is_press q.event
    then (if has_key keys (coord q.event).1 then (some tap, false) else (none, false))
    else rest

unfoldable pub custom_tap_hold_tap_keys :
    List ℕ → List Queued → KCoord → Option WaitingAction × Bool
unfolding coord
custom_tap_hold_tap_keys keys [] waiting = (none, false)
custom_tap_hold_tap_keys keys (q ∷ queued) waiting =
    let rest = custom_tap_hold_tap_keys keys queued waiting in
    if is_press q.event && has_key keys (coord q.event).1 then (some tap, false) else rest
