-- ===== src/Layout/Manager/Tick/Told.antt =====
-- The releases of custom actions that wait, over several ticks.
use kanata.Base.{ℕ, zero, suc, ◌≡◌, refl, List, [], ◌∷◌, some, length, map}
use kanata.Layout.State.{CustomEvent, released}
use kanata.Layout.Deques.{Deques}
use kanata.Layout.Action.{Action}
use kanata.Layout.Manager.Run.{Run, Method, pure, gets, modify, ◌>>=◌}
use kanata.Layout.Manager.Tick.{tell_released, tick_layout}

module _ {R T : Type 0} (d : Deques) (deref : R → Action R T) (depth : ℕ) where
  -- What a number of ticks tell.
  unfoldable pub tick_times : ℕ → Method R T (List (CustomEvent T))
  unfolding tick_layout pure ◌>>=◌
  tick_times zero = pure []
  tick_times (suc n) = do e ← tick_layout d deref depth; es ← tick_times n; pure (e ∷ es)

  abbrev pub with_untold : List T → Run R T → Run R T
  with_untold vs s = record s { layout = record s.layout { custom_event_release_queue = vs } }

  untold-told :
      (vs : List T) (s : Run R T)
      → tick_times (length vs) (with_untold vs s) ≡ some (map released vs, with_untold [] s)
  unfolding tick_times ◌>>=◌ pure tick_layout tell_released gets modify
  untold-told [] s = refl
  untold-told (v ∷ vs) s = rw (untold-told vs s, tick_times, ◌>>=◌) refl

-- The releases of custom actions that wait are told first, one on each tick and in order. Whatever
-- else the layout holds, these ticks succeed and change nothing but the queue of these releases, which
-- is empty behind them.
pub tick_times-released :
    {R T : Type 0} (d : Deques) (deref : R → Action R T) (depth : ℕ) (s : Run R T)
    → tick_times d deref depth (length s.layout.custom_event_release_queue) s
      ≡ some (
        map released s.layout.custom_event_release_queue,
        record s { layout = record s.layout { custom_event_release_queue = [] } },
      )
tick_times-released d deref depth s =
    untold-told d deref depth s.layout.custom_event_release_queue s
