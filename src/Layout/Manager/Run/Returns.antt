-- ===== src/Layout/Manager/Run/Returns.antt =====
-- Methods that return in every state, by one rule for each way to build a method.
use kanata.Base.{◌≡◌, refl, Bool, true, false, Option, none, some, if◌then◌else◌}
use kanata.Layout.Manager.{Layout}
use kanata.Layout.Manager.Run.{Run, Method, pure, gets, modify, ◌>>=◌}

abbrev pub is_some : {A : Type 0} → Option A → Bool
is_some none = false
is_some (some a) = true

module _ {R T A : Type 0} where
  pub record Returns (m : Method R T A) : Type 0 where
    pub at : (s : Run R T) → is_some (m s) ≡ true

  pub Returns-pure : (a : A) → Returns (pure a)
  unfolding pure
  Returns-pure a = record { at = λ s. refl }

  pub Returns-gets : (f : Layout R T → A) → Returns (gets f)
  unfolding gets
  Returns-gets f = record { at = λ s. refl }

  pub Returns-if :
      (b : Bool) (m n : Method R T A) → Returns m → Returns n → Returns (if b then m else n)
  Returns-if true m n km kn = km
  Returns-if false m n km kn = kn

module _ {R T : Type 0} where
  pub Returns-modify : (f : Layout R T → Layout R T) → Returns (modify f)
  unfolding modify
  Returns-modify f = record { at = λ s. refl }

module _ {R T A B : Type 0} where
  is_some-bind :
      (o : Option (A × Run R T)) (f : A → Method R T B)
      → ((a : A) → Returns (f a))
      → is_some o ≡ true
      → is_some (elim o [ none ↦ none | some (a, s) ↦ f a s ]) ≡ true
  is_some-bind none f kf h = h
  is_some-bind (some (a, s)) f kf h = (kf a).at s

  pub Returns-bind :
      (m : Method R T A) (f : A → Method R T B)
      → Returns m
      → ((a : A) → Returns (f a))
      → Returns (m >>= f)
  unfolding ◌>>=◌
  Returns-bind m f km kf = record { at = λ s. is_some-bind (m s) f kf (km.at s) }

pub ruleset return_rules = (Returns-pure, Returns-gets, Returns-if, Returns-modify, Returns-bind)
