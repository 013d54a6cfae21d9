-- ===== src/Layout/Manager/Within/Rules.antt =====
-- The rules for methods that keep the coordinates of the layout within a set.
use kanata.Base.{◌≡◌, arith, Bool, KCoord}
use kanata.Layout.Manager.{Layout}
use kanata.Layout.Manager.Run.{Method, modify}
use kanata.Layout.Manager.Run.Keeps.{
  Keeps, Keeps-pure, Keeps-fail, Keeps-gets, Keeps-or_panic, Keeps-if, Keeps-modify, Keeps-bind,
  Keeps-counting_anew,
}
use kanata.Layout.Manager.Within.{IsWithin}

abbrev pub Kept : {R T A : Type 0} → (KCoord → Bool) → Method R T A → Type 0
Kept P m = Keeps (IsWithin P) m

module _ {R T : Type 0} {P : KCoord → Bool} where
  IsWithin-same :
      (l l' : Layout R T)
      → l'.states ≡ l.states
      → l'.queue ≡ l.queue
      → l'.waiting ≡ l.waiting
      → l'.extra_waiting ≡ l.extra_waiting
      → l'.action_queue ≡ l.action_queue
      → IsWithin P l
      → IsWithin P l'
  IsWithin-same l l' a b c e f h = ground arith

  -- A change beside the keys.
  pub Kept-aside :
      (f : Layout R T → Layout R T)
      → ((l : Layout R T) → (f l).states ≡ l.states)
      → ((l : Layout R T) → (f l).queue ≡ l.queue)
      → ((l : Layout R T) → (f l).waiting ≡ l.waiting)
      → ((l : Layout R T) → (f l).extra_waiting ≡ l.extra_waiting)
      → ((l : Layout R T) → (f l).action_queue ≡ l.action_queue)
      → Kept P (modify f)
  Kept-aside f a b c e g =
      Keeps-modify f (λ l h. IsWithin-same l (f l) (a l) (b l) (c l) (e l) (g l) h)

  pub Kept-modify :
      (f : Layout R T → Layout R T)
      → ((l : Layout R T) → IsWithin P l → IsWithin P (f l))
      → Kept P (modify f)
  Kept-modify f h = Keeps-modify f h

pub ruleset kept_rules = (
  Keeps-pure, Keeps-fail, Keeps-gets, Keeps-or_panic, Keeps-if, Keeps-bind, Keeps-counting_anew,
  Kept-aside, Kept-modify,
)
