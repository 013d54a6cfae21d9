-- ===== src/Layout/OneShot/Triggers.antt =====
-- The press or the release of another key that ends one shot keys early.
use kanata.Base.{◌≤◌, ◌≡◌, arith, true, false, List, ◌∷◌, KCoord, max}
use kanata.Layout.OneShot.{
  Deque, OneShotState, has, is_empty, on_press, on_release, handle_press, handle_release,
}
use kanata.Layout.OneShot.Acts.{Act, press, release, act, acts, IsValid, act-IsValid}
use kanata.Layout.OneShot.Expiry.{quiet, ticks, left, acts-ended}

press-left :
    (d : Deque) (s : OneShotState) (c : KCoord)
    → is_empty s.keys ≡ false
    → s.ticks_to_ignore_events ≡ 0
    → on_press s.end_config ≡ true
    → left (act d s (press c)).1 ≤ max s.pause_input_processing_delay 1
unfolding act handle_press
press-left d s c active heard ends = rw (active, heard, ends) (ground arith)

release-left :
    (d : Deque) (s : OneShotState) (c : KCoord)
    → is_empty s.keys ≡ false
    → has s.keys c ≡ false
    → on_release s.end_config ≡ true
    → has s.other_pressed_keys c ≡ true
    → left (act d s (release c)).1 ≡ 1
unfolding act handle_release
release-left d s c active another ends noted = rw (active, another, ends, noted)

-- In a valid state: a press of another key, while one shot keys that end on the first press are
-- active and events are not ignored, leaves them at most the configured delay, or one tick, unless
-- a one shot key is pressed in that time.
press-ended :
    (d : Deque) (as' : List Act) (s : OneShotState) (c : KCoord)
    → IsValid s
    → quiet as' ≡ true
    → is_empty s.keys ≡ false
    → s.ticks_to_ignore_events ≡ 0
    → on_press s.end_config ≡ true
    → max s.pause_input_processing_delay 1 ≤ ticks as'
    → is_empty (acts d s (press c ∷ as')).1.keys ≡ true
unfolding acts act
press-ended d as' s c h q active heard ends long =
    acts-ended d as' (act d s (press c)).1 (act-IsValid d s (press c) h) q
      (omega (arith, press-left d s c active heard ends))

-- In a valid state: the release of another key that was pressed while they were active ends, with
-- the next tick, one shot keys that end on the first release, unless a one shot key is pressed
-- before that tick.
release-ended :
    (d : Deque) (as' : List Act) (s : OneShotState) (c : KCoord)
    → IsValid s
    → quiet as' ≡ true
    → is_empty s.keys ≡ false
    → has s.keys c ≡ false
    → on_release s.end_config ≡ true
    → has s.other_pressed_keys c ≡ true
    → 1 ≤ ticks as'
    → is_empty (acts d s (release c ∷ as')).1.keys ≡ true
unfolding acts
release-ended d as' s c h q active another ends noted long =
    acts-ended d as' (act d s (release c)).1 (act-IsValid d s (release c) h) q
      (omega (arith, release-left d s c active another ends noted))
