-- ===== src/Layout/Manager/Tick/Quiet.antt =====
-- Ticks of a layout in which nothing waits and no macro runs.
use kanata.Base.{ℕ, ◌≡◌, refl, arith, true, List, [], ◌∷◌, none, some, ap, ◌∙◌, length, all}
use kanata.Layout.Event.{Queued}
use kanata.Layout.OneShot.{tick_osh}
use kanata.Layout.State.{CustomEvent, no_event, pressed, released}
use kanata.Layout.Deques.{Deques}
use kanata.Layout.Action.{Action}
use kanata.Layout.Manager.{Layout, Waiting, QueuedAction}
use kanata.Layout.Manager.Run.{Run, gets, modify, changing}
use kanata.Layout.Manager.Run.Steps.{Goes, Goes-pure, Goes-some, Goes-gets, Goes-modify, Goes-bind}
use kanata.Layout.Manager.DoAction.{do_action}
use kanata.Layout.Manager.Sequences.{
  process_each, latest_repeating, start_repeating, process_sequences, process_sequence_custom,
}
use kanata.Layout.Manager.TickWaiting.{
  Extra, put_extra, tick_extra, extra_decided, process_extra_waitings,
}
use kanata.Layout.Manager.Tick.{
  tick_histories, tick_timers, end_one_shot, release_ended, take_queued, take_input, tick_waiting,
  tick_keys, take_action, tell_released, tick_layout,
}
use kanata.Layout.Manager.Tick.Plain.{is_plain, latest_repeating-plain, customs-plain}

-- Nothing waits, no action and no custom release is queued, no tap dance and no one shot key is
-- active, no macro runs, and the input is not paused. Events may be queued.
pub record IsQuiet {R T : Type 0} (l : Layout R T) : Type 0 where
  pub no_waiting : l.waiting ≡ none
  pub no_extra : l.extra_waiting ≡ []
  pub no_actions : l.action_queue ≡ []
  pub no_untold : l.custom_event_release_queue ≡ []
  pub no_eager : l.tap_dance_eager ≡ none
  pub no_sequences : l.active_sequences ≡ []
  pub no_one_shot : l.oneshot.keys ≡ []
  pub no_pause : l.oneshot.pause_input_processing_ticks ≡ 0
  pub plain_states : all is_plain l.states ≡ true

module _ {R T : Type 0} where
  -- What a tick changes at least.
  abbrev pub aged : Layout R T → Layout R T
  aged l = tick_histories (tick_timers (record l { keys_to_suppress_for_one_cycle = [] }))

  pub customs-Quiet :
      (l : Layout R T)
      → all is_plain l.states ≡ true
      → process_sequence_custom no_event l ≡ (no_event, l)
  unfolding process_sequence_custom
  customs-Quiet l h = rw (customs-plain l.states h) (ground arith)

module _ {R T : Type 0} (d : Deques) (deref : R → Action R T) (depth : ℕ) where
  process_each-none :
      (l : Layout R T) → l.active_sequences ≡ [] → process_each d (length l.active_sequences) l ≡ l
  unfolding process_each
  process_each-none l e =
      let none_left : length l.active_sequences ≡ 0 = ap length e in
      ap (λ n. process_each d n l) none_left

  start_repeating-none :
      (l : Layout R T) → latest_repeating l.states ≡ none → start_repeating d l ≡ l
  unfolding start_repeating
  start_repeating-none l e = ground (arith)

  sequences-Quiet : (l : Layout R T) → IsQuiet l → process_sequences d l ≡ l
  unfolding process_sequences
  sequences-Quiet l h =
      ap (start_repeating d) (process_each-none l h.no_sequences)
      ∙ start_repeating-none l (latest_repeating-plain l.states h.plain_states)

  ended-Quiet :
      (s : Run R T)
      → s.layout.oneshot.keys ≡ []
      → Goes (changing (end_one_shot d deref depth)) s none s
  unfolding changing tick_osh
  ended-Quiet s e = record { eq = ground arith }

  ended-none : (s : Run R T) → Goes (release_ended d deref depth none) s no_event s
  unfolding release_ended
  ended-none s = Goes-pure no_event s

  processed-Quiet : (s : Run R T) → IsQuiet s.layout → Goes (modify (process_sequences d)) s tt s
  unfolding modify
  processed-Quiet s h = record {
    eq = ap (λ l. some (tt, record s { layout = l })) (sequences-Quiet s.layout h);
  }

  -- The front of the queue, where there is one.
  waiting-Quiet :
      (l : Layout R T) (s : Run R T) (e : CustomEvent T) (t : Run R T)
      → IsQuiet l
      → Goes (take_queued d deref depth l.queue) s e t
      → Goes (tick_waiting d deref depth l.waiting l) s e t
  unfolding tick_waiting take_input
  waiting-Quiet l s e t h g = record { eq = rw (h.no_waiting, h.no_extra, h.no_pause) g.eq }

  tick_extra-none :
      (ws : List (Waiting R T)) (queue : List Queued) (actions : List (QueuedAction R T))
      → ws ≡ []
      → tick_extra d deref 0 ws queue actions
        ≡ some (record { waiting = ws; queue = queue; action_queue = actions; decided = none })
  unfolding tick_extra
  tick_extra-none [] queue actions e = refl
  tick_extra-none (w ∷ ws) queue actions e = absurd cc

  decided-none :
      (s : Run R T) → Goes (extra_decided d deref (do_action d deref depth) none) s no_event s
  unfolding extra_decided
  decided-none s = Goes-pure no_event s

  extra-none :
      (s : Run R T) (e : CustomEvent T)
      → s.layout.extra_waiting ≡ []
      → Goes (process_extra_waitings d deref (do_action d deref depth) e) s e s
  unfolding process_extra_waitings
  extra-none s (pressed v) h = Goes-pure (pressed v) s
  extra-none s (released v) h = Goes-pure (released v) s
  extra-none s no_event h =
      let l = s.layout in
      let e : Extra d deref = record {
        waiting = l.extra_waiting;
        queue = l.queue;
        action_queue = l.action_queue;
        decided = none;
      } in
      let none_left = tick_extra-none l.extra_waiting l.queue l.action_queue h in
      let read = Goes-gets (λ l. tick_extra d deref 0 l.extra_waiting l.queue l.action_queue) s in
      search
        (
          Goes-bind,
          read,
          Goes-some _ e s none_left,
          Goes-modify (put_extra d deref e) s,
          decided-none s,
        )
        depth 10

  customs-none :
      (s : Run R T) (e : CustomEvent T)
      → all is_plain s.layout.states ≡ true
      → Goes (changing (process_sequence_custom e)) s e s
  unfolding changing process_sequence_custom
  customs-none s (pressed v) h = record { eq = refl }
  customs-none s (released v) h = record { eq = refl }
  customs-none s no_event h = record {
    eq = ap (λ r. some (r.0, record s { layout = r.1 })) (customs-Quiet s.layout h);
  }

  tick_keys-Quiet :
      (s : Run R T) (e : CustomEvent T) (t : Run R T)
      → IsQuiet s.layout
      → let l = tick_histories (tick_timers s.layout) in
        Goes (take_queued d deref depth l.queue) (record s { layout = l }) e t
        → IsQuiet t.layout
        → Goes (tick_keys d deref depth) s e t
  unfolding tick_keys
  tick_keys-Quiet s e t h taken q =
      let l1 = tick_timers s.layout in
      let s1 : Run R T = record s { layout = l1 } in
      let s2 : Run R T = record s { layout = tick_histories l1 } in
      let q1 : IsQuiet l1 = ground arith in
      let q2 : IsQuiet (tick_histories l1) = ground arith in
      let first = processed-Quiet s1 q1 in
      let ended = ended-Quiet s2 h.no_one_shot in
      let front = waiting-Quiet s2.layout s2 e t q2 taken in
      let others = extra-none t e q.no_extra in
      let customs = customs-none t e q.plain_states in
      search
        (
          Goes-bind,
          Goes-modify tick_timers s,
          first,
          Goes-modify tick_histories s1,
          ended,
          ended-none s2,
          Goes-gets (λ l. l) s2,
          front,
          others,
          customs,
        )
        depth 14

  action-none :
      (actions : List (QueuedAction R T)) (s : Run R T) (e : CustomEvent T) (t : Run R T)
      → actions ≡ []
      → Goes (tick_keys d deref depth) s e t
      → Goes (take_action d deref depth actions) s e t
  unfolding take_action
  action-none [] s e t h g = g
  action-none (a ∷ actions) s e t h g = absurd cc

  told-none :
      (vs : List T) (s : Run R T) (e : CustomEvent T) (t : Run R T)
      → vs ≡ []
      → s.layout.action_queue ≡ []
      → Goes
          (tick_keys d deref depth)
          (record s { layout = record s.layout { keys_to_suppress_for_one_cycle = [] } })
          e
          t
      → Goes (tell_released d deref depth vs) s e t
  unfolding tell_released
  told-none [] s e t h a g = record { eq = (action-none s.layout.action_queue _ e t a g).eq }
  told-none (v ∷ vs) s e t h a g = absurd cc

  -- A tick takes the front of the queue, and everything else only ages.
  pub tick_layout-Quiet :
      (s : Run R T) (e : CustomEvent T) (t : Run R T)
      → IsQuiet s.layout
      → Goes
          (take_queued d deref depth (aged s.layout).queue)
          (record s { layout = aged s.layout })
          e
          t
      → IsQuiet t.layout
      → Goes (tick_layout d deref depth) s e t
  unfolding tick_layout
  tick_layout-Quiet s e t h taken q =
      let rested : IsQuiet (record s.layout { keys_to_suppress_for_one_cycle = [] }) =
        ground arith in
      let keys =
        tick_keys-Quiet
          (record s { layout = record s.layout { keys_to_suppress_for_one_cycle = [] } }) e t rested
          taken q in
      Goes-bind (gets (λ l. l.custom_event_release_queue)) (tell_released d deref depth)
        (Goes-gets (λ l. l.custom_event_release_queue) s)
        (told-none s.layout.custom_event_release_queue s e t h.no_untold h.no_actions keys)
