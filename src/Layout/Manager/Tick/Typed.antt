-- ===== src/Layout/Manager/Tick/Typed.antt =====
-- A key that is pressed and released, through the events and the ticks of the layout.
use kanata.Base.{
  ◌+◌, ◌-◌, ◌≤◌, ℕ, suc, ◌≡◌, refl, arith, true, List, [], ◌∷◌, ◌++◌, some, KCoord, ap, ◌∙◌, length,
  ◌<◌, all,
}
use kanata.Layout.Event.{Event, press, release}
use kanata.Layout.OneShot.{is_empty}
use kanata.Layout.State.{State, CustomEvent, no_event, normal_key}
use kanata.Layout.Deques.{Deques}
use kanata.Layout.Action.{Action, key_code}
use kanata.Layout.Manager.{Layout}
use kanata.Layout.Manager.Layers.{states_capacity, resolve_coord, trans_resolution_layer_order}
use kanata.Layout.Manager.Parts.{keep, keycodes_of, keycodes}
use kanata.Layout.Manager.Run.{Run, Method, modify, ◌>>=◌, ◌>>◌}
use kanata.Layout.Manager.Run.Steps.{Goes, Goes-modify, Goes-bind}
use kanata.Layout.Manager.Perform.{queued, remember}
use kanata.Layout.Manager.DoAction.{event, dequeued}
use kanata.Layout.Manager.Released.{stays, customs_at, told, behind_release, dequeued-release}
use kanata.Layout.Manager.Release.{custom_event_release_queue_len}
use kanata.Layout.Manager.Tick.{take_queued, tick_layout}
use kanata.Layout.Manager.Tick.Plain.{is_plain}
use kanata.Layout.Manager.Tick.Quiet.{IsQuiet, aged, tick_layout-Quiet}
use kanata.Layout.Manager.Tick.Pressed.{
  resolve_coord-same, key_pressed, dequeued-key_code, event-Goes,
}
use kanata.Layout.Manager.Tick.Held.{is_held, plain-held, customs-held, keep-stays, keycodes-typed}
use kanata.Layout.Manager.Tick.KeyPressed.{
  assignment, key_pressed-states, key_pressed-queue, key_pressed-assigned, key_pressed-IsQuiet,
}

-- The active states are as before, and so is what decides what keys do; the layout is quiet, with an
-- empty queue.
pub record IsRestored {R T : Type 0} (l l' : Layout R T) : Type 0 where
  pub states : l'.states ≡ l.states
  pub assigned : assignment l' ≡ assignment l
  pub queue : l'.queue ≡ []
  pub quiet : IsQuiet l'

module _ {R T : Type 0} (d : Deques) (deref : R → Action R T) (depth : ℕ) where
  -- An event and the next tick.
  unfoldable pub event_and_tick : Event → Method R T (CustomEvent T)
  unfolding event tick_layout ◌>>=◌
  event_and_tick e = do event d deref depth e; tick_layout d deref depth

  -- The layout from which the tick takes the event.
  abbrev at_event : Event → Layout R T → Layout R T
  at_event e l = record (aged (record (remember d deref e l) { queue = queued e ∷ [] })) {
    queue = [];
  }

  abbrev received : Event → Layout R T → Layout R T
  received e l = record (remember d deref e l) { queue = queued e ∷ [] }

  received-IsQuiet : (e : Event) (l : Layout R T) → IsQuiet l → IsQuiet (received e l)
  received-IsQuiet (press c) l h = ground arith
  received-IsQuiet (release c) l h = ground arith

  taken-Goes :
      (e : Event) (s : Run R T) (told : CustomEvent T) (t : Run R T)
      → Goes
          (dequeued d deref depth (record { event = e; since = 1 }))
          (record s { layout = at_event e s.layout })
          told
          t
      → Goes
          (take_queued d deref depth (record { event = e; since = 1 } ∷ []))
          (record s { layout = aged (received e s.layout) })
          told
          t
  unfolding take_queued
  taken-Goes e s told t g =
      Goes-bind (modify (λ l. record l { queue = [] }))
        (λ _. dequeued d deref depth (record { event = e; since = 1 }))
        (Goes-modify (λ l. record l { queue = [] }) _) g

  event_and_tick-Quiet :
      (e : Event) (s : Run R T) (told : CustomEvent T) (t : Run R T)
      → IsQuiet s.layout
      → s.layout.queue ≡ []
      → Goes
          (dequeued d deref depth (record { event = e; since = 1 }))
          (record s { layout = at_event e s.layout })
          told
          t
      → IsQuiet t.layout
      → Goes (event_and_tick e) s told t
  unfolding event_and_tick
  event_and_tick-Quiet e s told t h empty g q =
      Goes-bind (event d deref depth e) (λ _. tick_layout d deref depth)
        (event-Goes d deref depth e s empty)
        (tick_layout-Quiet d deref depth (record s { layout = received e s.layout }) told t
          (received-IsQuiet e s.layout h) (taken-Goes e s told t g) q)

  at_event-IsQuiet : (e : Event) (l : Layout R T) → IsQuiet l → IsQuiet (at_event e l)
  at_event-IsQuiet (press c) l h = ground arith
  at_event-IsQuiet (release c) l h = ground arith

  at_event-assigned : (e : Event) (l : Layout R T) → assignment (at_event e l) ≡ assignment l
  at_event-assigned (press c) l = refl
  at_event-assigned (release c) l = refl

  -- Behind the tick that takes the release.
  abbrev behind_release_of : KCoord → Run R T → Run R T
  behind_release_of c s = record s { layout = behind_release d c (at_event (release c) s.layout) }

  behind-states :
      (c : KCoord) (kc : ℕ) (states : List (State T)) (s : Run R T)
      → s.layout.states ≡ states ++ normal_key kc c 0 ∷ []
      → all (is_held c) states ≡ true
      → (behind_release_of c s).layout.states ≡ states
  behind-states c kc states s e held = ap (keep (stays c)) e ∙ keep-stays c states kc held

  behind-IsQuiet :
      (c : KCoord) (kc : ℕ) (states : List (State T)) (s : Run R T)
      → IsQuiet s.layout
      → s.layout.states ≡ states ++ normal_key kc c 0 ∷ []
      → all (is_held c) states ≡ true
      → IsQuiet (behind_release_of c s).layout
  behind-IsQuiet c kc states s h e held =
      let q = at_event-IsQuiet (release c) s.layout h in
      record {
        no_waiting = q.no_waiting;
        no_extra = q.no_extra;
        no_actions = q.no_actions;
        no_untold = rw (h.no_untold, e, customs-held c states kc held) refl;
        no_eager = q.no_eager;
        no_sequences = q.no_sequences;
        no_one_shot = q.no_one_shot;
        no_pause = q.no_pause;
        plain_states =
            ap (all is_plain) (behind-states c kc states s e held) ∙ plain-held c states held;
      }

  release-Goes :
      (c : KCoord) (kc : ℕ) (states : List (State T)) (s : Run R T)
      → IsQuiet s.layout
      → s.layout.queue ≡ []
      → s.layout.states ≡ states ++ normal_key kc c 0 ∷ []
      → all (is_held c) states ≡ true
      → Goes (event_and_tick (release c)) s no_event (behind_release_of c s)
  release-Goes c kc states s h empty e held =
      let l = at_event (release c) s.layout in
      let none_at : customs_at c l.states ≡ [] =
        ap (customs_at c) e ∙ customs-held c states kc held in
      let room : length l.custom_event_release_queue + (length (customs_at c l.states) - 1)
          ≤ custom_event_release_queue_len =
        rw (h.no_untold, none_at) (omega arith) in
      let taken =
        dequeued-release d deref depth 1 c (record s { layout = l }) (ap is_empty h.no_one_shot)
          room in
      event_and_tick-Quiet (release c) s no_event (behind_release_of c s) h empty
        (record { eq = taken ∙ ap (λ vs. some (told vs, behind_release_of c s)) none_at })
        (behind-IsQuiet c kc states s h e held)

module _ {R T : Type 0} (d : Deques) (deref : R → Action R T) (depth : ℕ) where
  -- Behind the tick that takes the press.
  abbrev behind_press : KCoord → ℕ → Run R T → Run R T
  behind_press c kc s = record s {
    layout = key_pressed d deref c kc (at_event d deref depth (press c) s.layout);
  }

  press-Goes :
      (c : KCoord) (kc : ℕ) (order rest : List ℕ) (s : Run R T)
      → IsQuiet s.layout
      → s.layout.queue ≡ []
      → trans_resolution_layer_order s.layout ≡ some order
      → resolve_coord s.layout c order ≡ some (key_code kc, rest)
      → IsQuiet (behind_press c kc s).layout
      → Goes (event_and_tick d deref (suc depth) (press c)) s no_event (behind_press c kc s)
  unfolding trans_resolution_layer_order
  press-Goes c kc order rest s h empty o r q =
      let l = at_event d deref depth (press c) s.layout in
      let h' = at_event-IsQuiet d deref depth (press c) s.layout h in
      let found = resolve_coord-same s.layout l c order refl refl ∙ r in
      let taken =
        dequeued-key_code d deref depth c kc 1 order rest (record s { layout = l }) h'.no_one_shot
          h'.no_eager o found in
      event_and_tick-Quiet d deref (suc depth) (press c) s no_event (behind_press c kc s) h empty
        taken q

-- In a quiet layout, where the queue of events is empty, every active state is of another coordinate
-- and is not cleared by the next press or release, and there is room for one more state: a press of a
-- key that resolves to a key code, with the tick that follows, makes that key code the last of the
-- pressed ones; the release, with the tick that follows, restores the active states. Both ticks
-- succeed and tell no custom event; the layout is again quiet, with an empty queue, and its layers and
-- its settings for transparent keys are as before.
pub key-typed :
    {R T : Type 0} (d : Deques) (deref : R → Action R T) (depth : ℕ) (c : KCoord) (kc : ℕ)
    (order rest : List ℕ) (s : Run R T)
    → IsQuiet s.layout
    → s.layout.queue ≡ []
    → all (is_held c) s.layout.states ≡ true
    → length s.layout.states < states_capacity
    → trans_resolution_layer_order s.layout ≡ some order
    → resolve_coord s.layout c order ≡ some (key_code kc, rest)
    → (t : Run R T) × (u : Run R T) × (event_and_tick d deref (suc depth) (press c) s
        ≡ some (no_event, t))
      × (keycodes t.layout ≡ keycodes s.layout ++ kc ∷ [])
      × (event_and_tick d deref (suc depth) (release c) t ≡ some (no_event, u))
      × IsRestored s.layout u.layout
key-typed d deref depth c kc order rest s h empty held room o r =
    let l = at_event d deref depth (press c) s.layout in
    let t = behind_press d deref depth c kc s in
    let q =
      key_pressed-IsQuiet d deref c kc l (at_event-IsQuiet d deref depth (press c) s.layout h) held
        room in
    let states = key_pressed-states d deref c kc l held room in
    let typed = press-Goes d deref depth c kc order rest s h empty o r q in
    let ended =
      release-Goes d deref (suc depth) c kc s.layout.states t q (key_pressed-queue d deref c kc l)
        states held in
    (
      t,
      behind_release_of d deref (suc depth) c t,
      typed.eq,
      ap keycodes_of states ∙ keycodes-typed s.layout.states kc c,
      ended.eq,
      record {
        states = behind-states d deref (suc depth) c kc s.layout.states t states held;
        assigned =
            key_pressed-assigned d deref c kc l
            ∙ at_event-assigned d deref depth (press c) s.layout;
        queue = refl;
        quiet = behind-IsQuiet d deref (suc depth) c kc s.layout.states t q states held;
      },
    )
