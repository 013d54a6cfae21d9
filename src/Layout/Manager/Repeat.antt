-- ===== src/Layout/Manager/Repeat.antt =====
-- What repeating the last action does where that action is not a plain one.
use kanata.Base.{
  ℕ, zero, suc, ◌≡◌, refl, arith, sym, ◌∙◌, Bool, List, [], ◌∷◌, Option, none, some, KCoord,
  Option-cases, inl, inr,
}
use kanata.Layout.State.{CustomEvent, no_event, update}
use kanata.Layout.Deques.{Deques}
use kanata.Layout.Action.{Action, repeat, multiple_actions}
use kanata.Layout.Manager.{Layout}
use kanata.Layout.Manager.Run.{Run, Method, pure, modify, ◌>>=◌}
use kanata.Layout.Manager.Parts.{clear_states, track, set_repeat}
use kanata.Layout.Manager.Perform.{act_each, act_multiple, repeat_action, act_repeat}
use kanata.Layout.Manager.DoAction.{dispatch, resolved, reset_interval, act_within, do_action}
use kanata.Layout.Manager.Waits.{Act}

module _ {R T A B : Type 0} where
  bind-none :
      (m : Method R T A) (f : A → Method R T B) (s : Run R T) → m s ≡ none → (m >>= f) s ≡ none
  unfolding ◌>>=◌
  bind-none m f s e = rw (e, ◌>>=◌)

  -- What returns has both parts return.
  bind-eq-some :
      (m : Method R T A) (f : A → Method R T B) (s : Run R T) {r : B × Run R T}
      → (m >>= f) s ≡ some r
      → (a : A) × (t : Run R T) × (m s ≡ some (a, t)) × (f a t ≡ some r)
  unfolding ◌>>=◌
  bind-eq-some m f s h = elim (Option-cases (m s)) [
    | inl gone ↦ absurd (cc (rw (gone, ◌>>=◌) at h))
    | inr ((a, t), out) ↦ (a, t, out, rw (out, ◌>>=◌) at h)
  ]

module _ {R T : Type 0} (d : Deques) (deref : R → Action R T) where
  reset_interval-rpt_action :
      (c : KCoord) (l : Layout R T) → (reset_interval d deref c l).rpt_action ≡ l.rpt_action
  reset_interval-rpt_action c l = ground arith

  clear_states-rpt_action : (l : Layout R T) → (clear_states l).rpt_action ≡ l.rpt_action
  unfolding clear_states
  clear_states-rpt_action l = refl

  -- The layout at the `match`.
  abbrev pub entered : KCoord → Run R T → Run R T
  entered c s = record s { layout = clear_states (reset_interval d deref c s.layout) }

  act_repeat-entered :
      (act : Act R T) (c : KCoord) (delay : ℕ) (b : Bool) (stack : List ℕ) (s : Run R T)
      → act_within d deref act repeat c delay b stack s
        ≡ act_repeat d deref act c delay b (entered c s)
  unfolding act_within resolved dispatch
  act_repeat-entered act c delay b stack s = refl

  act_multiple-entered :
      (act : Act R T) (rs : List R) (c : KCoord) (delay : ℕ) (b : Bool) (stack : List ℕ)
      (s : Run R T)
      → act_within d deref act (multiple_actions rs) c delay b stack s
        ≡ act_multiple d deref act (multiple_actions rs) rs c delay b stack (entered c s)
  unfolding act_within resolved dispatch
  act_multiple-entered act rs c delay b stack s = refl

  module _ (r : R) (rs : List R) (at_front : deref r ≡ repeat) (c : KCoord) (delay : ℕ)
      (b : Bool) where
    abbrev Repeats : Run R T → Type 0
    Repeats s = s.layout.rpt_action ≡ some (multiple_actions (r ∷ rs))

    entered-Repeats : (s : Run R T) → Repeats s → Repeats (entered c s)
    entered-Repeats s h =
        clear_states-rpt_action (reset_interval d deref c s.layout)
        ∙ reset_interval-rpt_action c s.layout
        ∙ h

    repeat_action-none :
        (act : Act R T) (o : Option (Action R T)) (s : Run R T)
        → o ≡ some (multiple_actions (r ∷ rs))
        → act (multiple_actions (r ∷ rs)) c delay b [] s ≡ none
        → repeat_action d deref act c delay b o s ≡ none
    unfolding repeat_action
    repeat_action-none act o s h inner =
        rw h (bind-none (act (multiple_actions (r ∷ rs)) c delay b []) (λ _. pure no_event) s inner)

    repeat-none :
        (act : Act R T) (stack : List ℕ) (s : Run R T)
        → Repeats s
        → ((s' : Run R T) → Repeats s' → act (multiple_actions (r ∷ rs)) c delay b [] s' ≡ none)
        → act_within d deref act repeat c delay b stack s ≡ none
    unfolding act_repeat
    repeat-none act stack s h inner =
        let inside = entered-Repeats s h in
        act_repeat-entered act c delay b stack s
        ∙ repeat_action-none act (entered c s).layout.rpt_action (entered c s) inside
            (inner (entered c s) inside)

    each-none :
        (act : Act R T) (stack : List ℕ) (s : Run R T)
        → act repeat c delay b stack s ≡ none
        → (act_each d deref (λ x. act (deref x) c delay b stack) (r ∷ rs) no_event >>= λ event.
              modify (set_repeat (multiple_actions (r ∷ rs))) >>= λ _. pure event)
            s
          ≡ none
    unfolding act_each
    each-none act stack s inner =
        bind-none (act_each d deref (λ x. act (deref x) c delay b stack) (r ∷ rs) no_event)
          (λ event. modify (set_repeat (multiple_actions (r ∷ rs))) >>= λ _. pure event) s
          (bind-none (act (deref r) c delay b stack)
            (λ e. act_each d deref (λ x. act (deref x) c delay b stack) rs (update no_event e)) s
            (rw at_front inner))

    multiple-none :
        (act : Act R T) (stack : List ℕ) (s : Run R T)
        → Repeats s
        → ((s' : Run R T) → Repeats s' → act repeat c delay b stack s' ≡ none)
        → act_within d deref act (multiple_actions (r ∷ rs)) c delay b stack s ≡ none
    unfolding act_multiple
    multiple-none act stack s h inner =
        let inside = entered-Repeats s h in
        act_multiple-entered act (r ∷ rs) c delay b stack s
        ∙ each-none act stack (record (entered c s) { layout = track c (entered c s).layout })
            (inner (record (entered c s) { layout = track c (entered c s).layout }) inside)

    endless :
        (depth : ℕ) (stack : List ℕ) (s : Run R T)
        → Repeats s
        → do_action d deref depth (multiple_actions (r ∷ rs)) c delay b stack s ≡ none
    unfolding do_action
    endless zero stack s h = refl
    endless (suc zero) stack s h = multiple-none (do_action d deref zero) stack s h (λ s' h'. refl)
    endless (suc (suc depth)) stack s h =
        multiple-none (do_action d deref (suc depth)) stack s h (λ s' h'.
          repeat-none (do_action d deref depth) stack s' h' (λ s'' h''. endless depth [] s'' h''))

    -- Behind a multi action that returns, it is the action to repeat.
    finished-Repeats :
        (m : Method R T (CustomEvent T)) (s s' : Run R T) (e : CustomEvent T)
        → (m >>= λ event. modify (set_repeat (multiple_actions (r ∷ rs))) >>= λ _. pure event) s
          ≡ some (e, s')
        → Repeats s'
    unfolding modify pure
    finished-Repeats m s s' e h =
        let (event, t, out, rest) =
          bind-eq-some m
            (λ event. modify (set_repeat (multiple_actions (r ∷ rs))) >>= λ _. pure event) s h in
        let (u, t', set, last) =
          bind-eq-some (modify (set_repeat (multiple_actions (r ∷ rs)))) (λ _. pure event) t rest in
        ground arith

    act_multiple-Repeats :
        (act : Act R T) (stack : List ℕ) (s s' : Run R T) (e : CustomEvent T)
        → act_multiple d deref act (multiple_actions (r ∷ rs)) (r ∷ rs) c delay b stack s
          ≡ some (e, s')
        → Repeats s'
    unfolding act_multiple
    act_multiple-Repeats act stack s s' e h =
        finished-Repeats (act_each d deref (λ x. act (deref x) c delay b stack) (r ∷ rs) no_event)
          (record s { layout = track c s.layout }) s' e h

    performed-Repeats :
        (depth : ℕ) (stack : List ℕ) (s s' : Run R T) (e : CustomEvent T)
        → do_action d deref depth (multiple_actions (r ∷ rs)) c delay b stack s ≡ some (e, s')
        → Repeats s'
    unfolding do_action
    performed-Repeats zero stack s s' e h = cc
    performed-Repeats (suc depth) stack s s' e h =
        act_multiple-Repeats (do_action d deref depth) stack (entered c s) s' e
          (sym (act_multiple-entered (do_action d deref depth) (r ∷ rs) c delay b stack s) ∙ h)

-- A multi action whose first action repeats: where it was performed once, performing it again with no
-- other action between never ends, whatever depth of calls there is room for.
pub do_action-endless :
    {R T : Type 0} (d : Deques) (deref : R → Action R T) (r : R) (rs : List R) (c c' : KCoord)
    (delay delay' : ℕ) (b b' : Bool) (stack stack' : List ℕ) (s s' : Run R T) (e : CustomEvent T)
    (depth depth' : ℕ)
    → deref r ≡ repeat
    → do_action d deref depth (multiple_actions (r ∷ rs)) c delay b stack s ≡ some (e, s')
    → do_action d deref depth' (multiple_actions (r ∷ rs)) c' delay' b' stack' s' ≡ none
do_action-endless d deref r rs c c' delay delay' b b' stack stack' s s' e depth depth' at_front
      first =
    endless d deref r rs at_front c' delay' b' depth' stack' s'
      (performed-Repeats d deref r rs at_front c delay b depth stack s s' e first)

-- The same run with no custom event.
abbrev pub silenced :
    {R T : Type 0} → Option (CustomEvent T × Run R T) → Option (CustomEvent T × Run R T)
silenced none = none
silenced (some (e, s)) = some (no_event, s)

module _ {R T : Type 0} where
  bind-silenced :
      (m : Method R T (CustomEvent T)) (s : Run R T) → (m >>= λ _. pure no_event) s ≡ silenced (m s)
  unfolding ◌>>=◌ pure
  bind-silenced m s = elim (Option-cases (m s)) [
    | inl gone ↦ rw (gone, ◌>>=◌) refl
    | inr ((e, t), out) ↦ rw (out, ◌>>=◌) refl
  ]

module _ {R T : Type 0} (d : Deques) (deref : R → Action R T) where
  repeat_action-silenced :
      (act : Act R T) (ac : Action R T) (c : KCoord) (delay : ℕ) (b : Bool)
      (o : Option (Action R T)) (s : Run R T)
      → o ≡ some ac
      → repeat_action d deref act c delay b o s ≡ silenced (act ac c delay b [] s)
  unfolding repeat_action
  repeat_action-silenced act ac c delay b o s e = rw e (bind-silenced (act ac c delay b []) s)

  act_repeat-silenced :
      (act : Act R T) (ac : Action R T) (c : KCoord) (delay : ℕ) (b : Bool) (s : Run R T)
      → s.layout.rpt_action ≡ some ac
      → act_repeat d deref act c delay b s ≡ silenced (act ac c delay b [] s)
  unfolding act_repeat
  act_repeat-silenced act ac c delay b s e =
      repeat_action-silenced act ac c delay b s.layout.rpt_action s e

  -- Where there is an action to repeat: repeating it is performing it, behind what every action begins
  -- with and with no layers below, one call deeper; but of the custom event that it tells, as a custom
  -- action does, the repetition tells nothing.
  do_action-repeated :
      (depth : ℕ) (ac : Action R T) (c : KCoord) (delay : ℕ) (b : Bool) (stack : List ℕ)
      (s : Run R T)
      → s.layout.rpt_action ≡ some ac
      → do_action d deref (suc depth) repeat c delay b stack s
        ≡ silenced (do_action d deref depth ac c delay b [] (entered d deref c s))
  unfolding do_action
  do_action-repeated depth ac c delay b stack s e =
      act_repeat-entered d deref (do_action d deref depth) c delay b stack s
      ∙ act_repeat-silenced (do_action d deref depth) ac c delay b (entered d deref c s) (
          clear_states-rpt_action d deref (reset_interval d deref c s.layout)
          ∙ reset_interval-rpt_action d deref c s.layout
          ∙ e)
