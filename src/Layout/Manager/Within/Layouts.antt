-- ===== src/Layout/Manager/Within/Layouts.antt =====
-- How the parts of the methods that change the layout keep its coordinates within a set.
use kanata.Base.{
  ℕ, zero, suc, ◌≡◌, refl, arith, Bool, true, List, [], ◌∷◌, ◌++◌, none, some, KCoord, all,
  get_elem?,
}
use kanata.Layout.Event.{Event, press, release}
use kanata.Layout.State.{
  State, normal_key, fake_key, layer_modifier, custom, no_op_input, repeating_sequence,
  seq_custom_pending, seq_custom_active, tombstone, seq_release,
}
use kanata.Layout.Deques.{Deques, all_of}
use kanata.Layout.History.{remove_at}
use kanata.Layout.Action.{Action, HoldTapAction, TapDance}
use kanata.Layout.Manager.{Layout, Waiting}
use kanata.Layout.Manager.Layers.{set_default_layer}
use kanata.Layout.Manager.Parts.{
  keep, release_fake_keys, push_state, set_repeat_keys, push_historical_key, clear_states,
  suppress_repeated, press_all, retain_all,
}
use kanata.Layout.Manager.Waits.{
  extra_waiting_len, hold_tap_waiting, start_waiting, wait_for_hold_tap, start_eager,
}
use kanata.Layout.Manager.Events.{WaitingPlace, waiting_at, remove_waiting, leave_waiting}
use kanata.Layout.Manager.Perform.{remember}
use kanata.Layout.Manager.Within.{IsWithin, state_in, waiting_in}

all-push {ℓ} :
    {A : Type ℓ} (p : A → Bool) (xs : List A) (x : A)
    → all p xs ≡ true
    → p x ≡ true
    → all p (xs ++ x ∷ []) ≡ true
all-push p [] x h k = ground arith
all-push p (y ∷ xs) x h k = ground (arith, all-push p xs x)

pub all-keep :
    {T : Type 0} (p test : State T → Bool) (xs : List (State T))
    → all p xs ≡ true
    → all p (keep test xs) ≡ true
unfolding keep
all-keep p test [] h = refl
all-keep p test (y ∷ xs) h = ground (arith, all-keep p test xs)

pub all-release_fake_keys :
    {T : Type 0} (p : State T → Bool) (fake_keys xs : List (State T))
    → all p xs ≡ true
    → all p (release_fake_keys fake_keys xs) ≡ true
unfolding release_fake_keys
all-release_fake_keys p [] xs h = h
all-release_fake_keys p (fake_key kc ∷ ks) xs h =
    all-release_fake_keys p ks (keep (λ s. seq_release s kc) xs)
      (all-keep p (λ s. seq_release s kc) xs h)
all-release_fake_keys p (normal_key _ _ _ ∷ ks) xs h = all-release_fake_keys p ks xs h
all-release_fake_keys p (layer_modifier _ _ ∷ ks) xs h = all-release_fake_keys p ks xs h
all-release_fake_keys p (custom _ _ ∷ ks) xs h = all-release_fake_keys p ks xs h
all-release_fake_keys p (repeating_sequence _ _ ∷ ks) xs h = all-release_fake_keys p ks xs h
all-release_fake_keys p (seq_custom_pending _ ∷ ks) xs h = all-release_fake_keys p ks xs h
all-release_fake_keys p (seq_custom_active _ ∷ ks) xs h = all-release_fake_keys p ks xs h
all-release_fake_keys p (tombstone ∷ ks) xs h = all-release_fake_keys p ks xs h
all-release_fake_keys p (no_op_input _ ∷ ks) xs h = all-release_fake_keys p ks xs h

all-remove_at :
    {A : Type 0} (p : A → Bool) (xs : List A) (i : ℕ)
    → all p xs ≡ true
    → all p (remove_at xs i) ≡ true
unfolding remove_at
all-remove_at p [] i h = refl
all-remove_at p (x ∷ xs) zero h = ground arith
all-remove_at p (x ∷ xs) (suc i) h = ground (arith, all-remove_at p xs i)

all-get_elem? :
    {A : Type 0} (p : A → Bool) (xs : List A) (i : ℕ)
    → all p xs ≡ true
    → all_of p (get_elem? xs i) ≡ true
all-get_elem? p [] i h = refl
all-get_elem? p (x ∷ xs) zero h = ground arith
all-get_elem? p (x ∷ xs) (suc i) h = all-get_elem? p xs i (ground arith)

module _ {R T : Type 0} {P : KCoord → Bool} where
  pub push_state-IsWithin :
      (s : State T) (l : Layout R T)
      → state_in P s ≡ true
      → IsWithin P l
      → IsWithin P (push_state s l)
  push_state-IsWithin s l p h = ground (arith, all-push (state_in P) l.states s)

  pub set_repeat_keys-IsWithin :
      (action : Action R T) (coords : List KCoord) (kcs : List ℕ) (l : Layout R T)
      → IsWithin P l
      → IsWithin P (set_repeat_keys action coords kcs l)
  unfolding set_repeat_keys
  set_repeat_keys-IsWithin action coords kcs l h = ground arith

  pub clear_states-IsWithin : (l : Layout R T) → IsWithin P l → IsWithin P (clear_states l)
  unfolding clear_states
  clear_states-IsWithin l h = record {
    states_within = all-keep _ _ l.states h.states_within;
    queue_within = h.queue_within;
    waiting_within = h.waiting_within;
    extra_within = h.extra_within;
    actions_within = h.actions_within;
  }

  pub set_default_layer-IsWithin :
      (value : ℕ) (l : Layout R T) → IsWithin P l → IsWithin P (set_default_layer value l)
  set_default_layer-IsWithin value l h = ground arith

  pub start_eager-IsWithin :
      (d : Deques) (deref : R → Action R T) (td : TapDance R) (c : KCoord) (l : Layout R T)
      → IsWithin P l
      → IsWithin P (start_eager d deref td c l)
  start_eager-IsWithin d deref td c l h = ground arith

  pub waiting_at-within :
      (idx : WaitingPlace) (l : Layout R T)
      → IsWithin P l
      → all_of (waiting_in P) (waiting_at idx l) ≡ true
  waiting_at-within none l h = h.waiting_within
  waiting_at-within (some i) l h = all-get_elem? _ l.extra_waiting i h.extra_within

  pub remove_waiting-IsWithin :
      (idx : WaitingPlace) (l : Layout R T) → IsWithin P l → IsWithin P (remove_waiting idx l)
  remove_waiting-IsWithin none l h = ground arith
  remove_waiting-IsWithin (some i) l h =
      ground (arith, all-remove_at (waiting_in P) l.extra_waiting i)

  pub leave_waiting-IsWithin :
      (idx : WaitingPlace) (w : Waiting R T) (l : Layout R T)
      → IsWithin P l
      → IsWithin P (leave_waiting idx w l)
  unfolding leave_waiting
  leave_waiting-IsWithin idx w l h = let removed = remove_waiting-IsWithin idx l h in ground arith

module _ {R T : Type 0} {P : KCoord → Bool} (d : Deques) where
  pub push_historical_key-IsWithin :
      (kc : ℕ) (l : Layout R T) → IsWithin P l → IsWithin P (push_historical_key d kc l)
  push_historical_key-IsWithin kc l h = ground arith

  suppress_repeated-IsWithin :
      (kc : ℕ) (l : Layout R T) → IsWithin P l → IsWithin P (suppress_repeated d kc l)
  suppress_repeated-IsWithin kc l h = ground arith

  pub press_all-IsWithin :
      (kcs : List ℕ) (c : KCoord) (b : Bool) (l : Layout R T)
      → P c ≡ true
      → IsWithin P l
      → IsWithin P (press_all d kcs c b l)
  unfolding press_all
  press_all-IsWithin [] c b l here h = h
  press_all-IsWithin (kc ∷ kcs) c b l here h = press_all-IsWithin kcs c b _ here (
      push_state-IsWithin (normal_key kc c _) (push_historical_key d kc (suppress_repeated d kc l))
        here (push_historical_key-IsWithin kc _ (suppress_repeated-IsWithin kc l h)))

  pub retain_all-IsWithin :
      (kcs : List ℕ) (c : KCoord) (l : Layout R T)
      → IsWithin P l
      → IsWithin P (retain_all d kcs c l)
  unfolding retain_all
  retain_all-IsWithin [] c l h = h
  retain_all-IsWithin (kc ∷ kcs) c l h = retain_all-IsWithin kcs c _ (ground arith)

  start_waiting-IsWithin :
      (deref : R → Action R T) (w : Waiting R T) (l : Layout R T)
      → waiting_in P w ≡ true
      → IsWithin P l
      → IsWithin P (start_waiting d deref w l)
  start_waiting-IsWithin deref w l here h =
      ground (arith, d.push_back_all extra_waiting_len (waiting_in P) l.extra_waiting w)

  pub wait_for_hold_tap-IsWithin :
      (deref : R → Action R T) (a : HoldTapAction R) (c : KCoord) (delay : ℕ) (stack : List ℕ)
      (l : Layout R T)
      → P c ≡ true
      → IsWithin P l
      → IsWithin P (wait_for_hold_tap d deref a c delay stack l)
  unfolding wait_for_hold_tap
  wait_for_hold_tap-IsWithin deref a c delay stack l here h =
      let waits =
        start_waiting-IsWithin deref (hold_tap_waiting d deref a c delay stack l) l here h in
      ground arith

  pub remember-IsWithin :
      (deref : R → Action R T) (e : Event) (l : Layout R T)
      → IsWithin P l
      → IsWithin P (remember d deref e l)
  remember-IsWithin deref (press c) l h = ground arith
  remember-IsWithin deref (release c) l h = h
