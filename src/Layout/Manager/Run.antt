-- ===== src/Layout/Manager/Run.antt =====
-- Methods of the layout that may panic. `none` is a panic, or a stack that overflows.
pub mod Keeps
pub mod Returns
pub mod Steps
use kanata.Base.{ℕ, Bool, Option, none, some, if◌then◌else◌}
use kanata.Layout.Manager.{Layout}

-- The layout, and `custom_activation_count`.
pub record Run (R T : Type 0) : Type 0 where
  pub layout : Layout R T
  pub custom_activation_count : ℕ

abbrev pub Method : Type 0 → Type 0 → Type 0 → Type 0
Method R T A = Run R T → Option (A × Run R T)

module _ {R T A : Type 0} where
  unfoldable pub pure : A → Method R T A
  pure a s = some (a, s)

  unfoldable pub fail : Method R T A
  fail s = none

  unfoldable pub gets : (Layout R T → A) → Method R T A
  gets f s = some (f s.layout, s)

  unfoldable pub or_panic : Option A → Method R T A
  or_panic none s = none
  or_panic (some a) s = some (a, s)

module _ {R T : Type 0} where
  unfoldable pub modify : (Layout R T → Layout R T) → Method R T (Unit {0})
  modify f s = some (tt, record s { layout = f s.layout })

module _ {R T A : Type 0} where
  -- A method that returns and changes the layout at once.
  unfoldable pub changing : (Layout R T → A × Layout R T) → Method R T A
  changing f s = let (a, l) = f s.layout in some (a, record s { layout = l })

module _ {R T A B : Type 0} where
  infixl 10 ◌>>=◌ ◌>>◌
  unfoldable pub ◌>>=◌ : Method R T A → (A → Method R T B) → Method R T B
  unfolding pure fail gets or_panic modify
  ◌>>=◌ m f s = elim (m s) [ none ↦ none | some (a, s') ↦ f a s' ]

  abbrev pub ◌>>◌ : Method R T A → Method R T B → Method R T B
  m >> n = m >>= λ _. n

-- The same with a count of custom actions of its own.
unfoldable pub counting_anew : {R T A : Type 0} → Method R T A → Method R T A
counting_anew m s = elim (m (record s { custom_activation_count = 0 })) [
  | none ↦ none
  | some (a, s') ↦ some (a, record s' { custom_activation_count = s.custom_activation_count })
]
