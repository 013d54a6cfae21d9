-- ===== src/Layout/Manager/Tick/Pressed.antt =====
-- A press of a key with a plain key code, in a layout where no one shot key is active.
use kanata.Base.{
  ℕ, suc, ◌≡◌, refl, arith, false, List, [], ◌∷◌, Option, none, some, KCoord, ap, ◌∙◌,
  if◌then◌else◌, ◌==◌, get_elem?,
}
use kanata.Layout.Event.{Event, press, release}
use kanata.Layout.OneShot.{OneShotState, other, handle_press}
use kanata.Layout.State.{no_event, normal_key}
use kanata.Layout.Deques.{Deques, one_shot_deque}
use kanata.Layout.Action.{Action, trans, key_code, no_op}
use kanata.Layout.Manager.{Layout, TapDanceEagerState}
use kanata.Layout.Manager.Layers.{
  is_trans, fallback, is_on_first_layer, action_at, resolve_in, resolve_coord,
  trans_resolution_layer_order,
}
use kanata.Layout.Manager.Parts.{
  clear_states, track, push_state, push_historical_key, set_repeat, act_key_code, set_repeat_keys,
}
use kanata.Layout.Manager.Run.{Run, pure}
use kanata.Layout.Manager.Run.Steps.{Goes, Goes-bind, Goes-counting_anew}
use kanata.Layout.Manager.Waits.{Act}
use kanata.Layout.Manager.Events.{press_with, dequeue_press}
use kanata.Layout.Manager.Perform.{dequeue, queued, queue_size, remember, overflowing, send_event}
use kanata.Layout.Manager.DoAction.{
  dispatch, resolved, reset_interval, act_within, do_action, event, dequeued,
}

module _ {R T : Type 0} where
  abbrev chosen :
      Option (Option (Action R T) × List ℕ)
      → List ℕ
      → Option (Action R T)
      → Option (Option (Action R T) × List ℕ)
  chosen below stack none = none
  chosen below stack (some action) = if is_trans action then below else some (some action, stack)

  -- Resolving reads the layers and the keys of the source alone.
  resolve_in-same :
      (l l' : Layout R T) (c : KCoord) (stack : List ℕ)
      → l'.layers ≡ l.layers
      → resolve_in l' c stack ≡ resolve_in l c stack
  unfolding resolve_in
  resolve_in-same l l' c [] e = refl
  resolve_in-same l l' c (i ∷ stack) e =
      let here : action_at l' i c ≡ action_at l i c = rw e refl in
      ap (λ below. chosen below stack (action_at l' i c)) (resolve_in-same l l' c stack e)
      ∙ ap (chosen (resolve_in l c stack) stack) here

  abbrev fall :
      Layout R T → KCoord → Option (Option (Action R T) × List ℕ) → Option (Action R T × List ℕ)
  fall l c o = elim o [ none ↦ none | some (found, rest) ↦ fallback l c rest found ]

  fall-same :
      (l l' : Layout R T) (c : KCoord) (o : Option (Option (Action R T) × List ℕ))
      → l'.src_keys ≡ l.src_keys
      → fall l' c o ≡ fall l c o
  fall-same l l' c none e = refl
  fall-same l l' c (some (some a, rest)) e = refl
  fall-same l l' c (some (none, rest)) e =
      ap
        (λ keys.
          if c.0 == 0
          then elim (get_elem? keys c.1) [ none ↦ none | some action ↦ some (action, rest) ]
          else some (no_op, rest))
        e

  pub resolve_coord-same :
      (l l' : Layout R T) (c : KCoord) (stack : List ℕ)
      → l'.layers ≡ l.layers
      → l'.src_keys ≡ l.src_keys
      → resolve_coord l' c stack ≡ resolve_coord l c stack
  unfolding resolve_coord
  resolve_coord-same l l' c stack e f =
      let first : is_on_first_layer l' c ≡ is_on_first_layer l c = rw e refl in
      ap (λ b. if b then fall l' c (resolve_in l' c stack) else none) first
      ∙ ap (λ o. if is_on_first_layer l c then o else none)
          (ap (fall l' c) (resolve_in-same l l' c stack e)
            ∙ fall-same l l' c (resolve_in l c stack) f)

module _ {R T : Type 0} (d : Deques) (deref : R → Action R T) where
  push_historical_key-oneshot :
      (kc : ℕ) (l : Layout R T) → (push_historical_key d kc l).oneshot ≡ l.oneshot
  push_historical_key-oneshot kc l = ground arith

  handle_press-none :
      (c : KCoord) (o : OneShotState)
      → o.keys ≡ []
      → handle_press (one_shot_deque d) o (other c) ≡ ([], o)
  unfolding handle_press
  handle_press-none c o e = ground arith

  -- What the press of the key code does to the layout.
  abbrev pub key_pressed : KCoord → ℕ → Layout R T → Layout R T
  key_pressed c kc l = set_repeat (key_code kc) (
      push_state (normal_key kc c 0)
        (push_historical_key d kc (track c (clear_states (reset_interval d deref c l)))))

  act_key_code-none :
      (c : KCoord) (kc : ℕ) (s : Run R T)
      → s.layout.oneshot.keys ≡ []
      → Goes (act_key_code d (key_code kc) kc c false) s no_event (record s {
        layout =
            set_repeat
              (key_code kc)
              (push_state (normal_key kc c 0) (push_historical_key d kc (track c s.layout)));
      })
  unfolding act_key_code
  act_key_code-none c kc s e =
      let noted : Layout R T = push_historical_key d kc (track c s.layout) in
      let keys : noted.oneshot.keys ≡ [] =
        ap (λ o. o.keys) (push_historical_key-oneshot kc (track c s.layout)) ∙ e in
      record { eq = rw (handle_press-none c noted.oneshot keys, set_repeat_keys) refl }

  clear_states-keys : (l : Layout R T) → (clear_states l).oneshot.keys ≡ l.oneshot.keys
  unfolding clear_states
  clear_states-keys l = refl

  reset_interval-oneshot :
      (c : KCoord) (l : Layout R T) → (reset_interval d deref c l).oneshot ≡ l.oneshot
  reset_interval-oneshot c l = ground arith

  resolved-Goes :
      (c : KCoord) (stack : List ℕ) (found : Action R T × List ℕ) (s : Run R T)
      → resolve_coord s.layout c stack ≡ some found
      → Goes (resolved d deref trans c stack) s found s
  unfolding resolved
  resolved-Goes c stack found s e = record { eq = rw (e, resolved) refl }

  -- A transparent press that resolves to a key code.
  do_action-key_code :
      (depth : ℕ) (c : KCoord) (kc since : ℕ) (stack rest : List ℕ) (s : Run R T)
      → s.layout.oneshot.keys ≡ []
      → resolve_coord s.layout c stack ≡ some (key_code kc, rest)
      → Goes
          (do_action d deref (suc depth) trans c since false stack)
          s
          no_event
          (record s { layout = key_pressed c kc s.layout })
  unfolding do_action act_within dispatch
  do_action-key_code depth c kc since stack rest s e r =
      let cleared : Layout R T = clear_states (reset_interval d deref c s.layout) in
      let keys : cleared.oneshot.keys ≡ [] =
        clear_states-keys (reset_interval d deref c s.layout)
        ∙ ap (λ o. o.keys) (reset_interval-oneshot c s.layout)
        ∙ e in
      let found = resolved-Goes c stack (key_code kc, rest) s r in
      let acted = act_key_code-none c kc (record s { layout = cleared }) keys in
      search (Goes-bind, found, acted) depth 10

  press_with-none :
      (act : Act R T) (c : KCoord) (since : ℕ) (order : List ℕ)
      (eager : Option (TapDanceEagerState R)) (s : Run R T) (t : Run R T)
      → eager ≡ none
      → Goes (act trans c since false order) (record s { custom_activation_count = 0 }) no_event t
      → Goes
          (press_with deref act c since order eager)
          s
          no_event
          (record t { custom_activation_count = s.custom_activation_count })
  unfolding press_with
  press_with-none act c since order none s t e g =
      Goes-counting_anew (act trans c since false order) s no_event t g
  press_with-none act c since order (some tde) s t e g = absurd cc

  -- A press at the front of the queue, of a key that resolves to a key code.
  pub dequeued-key_code :
      (depth : ℕ) (c : KCoord) (kc since : ℕ) (order rest : List ℕ) (s : Run R T)
      → s.layout.oneshot.keys ≡ []
      → s.layout.tap_dance_eager ≡ none
      → trans_resolution_layer_order s.layout ≡ some order
      → resolve_coord s.layout c order ≡ some (key_code kc, rest)
      → Goes
          (dequeued d deref (suc depth) (record { event = press c; since = since }))
          s
          no_event
          (record s { layout = key_pressed c kc s.layout })
  unfolding dequeued dequeue dequeue_press
  dequeued-key_code depth c kc since order rest s e no_eager o r =
      let acted =
        do_action-key_code depth c kc since order rest (record s { custom_activation_count = 0 }) e
          r in
      let pressed =
        press_with-none (do_action d deref (suc depth)) c since order s.layout.tap_dance_eager s _
          no_eager acted in
      search (o, pressed) depth 10

  -- An event that comes in where the queue is empty.
  pub event-Goes :
      (depth : ℕ) (e : Event) (s : Run R T)
      → s.layout.queue ≡ []
      → Goes
          (event d deref depth e)
          s
          tt
          (record s { layout = record (remember d deref e s.layout) { queue = queued e ∷ [] } })
  unfolding event send_event overflowing pure
  event-Goes depth (press c) s h =
      let room = d.push_back_room queue_size [] (queued (press c)) (omega arith) in
      record { eq = rw (h, room) refl }
  event-Goes depth (release c) s h =
      let room = d.push_back_room queue_size [] (queued (release c)) (omega arith) in
      record { eq = rw (h, room) refl }
