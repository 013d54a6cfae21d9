-- ===== src/Layout/Manager/Run/Keeps.antt =====
-- What methods keep, by one rule for each way to build a method.
use kanata.Base.{ℕ, Bool, true, false, Option, none, some, if◌then◌else◌}
use kanata.Layout.Manager.{Layout}
use kanata.Layout.Manager.Run.{
  Run, Method, pure, fail, gets, or_panic, modify, ◌>>=◌, counting_anew,
}

module _ {R T A : Type 0} where
  -- Where a method returns, the layout has the property.
  abbrev pub Leaves : (Layout R T → Type 0) → Option (A × Run R T) → Type 0
  Leaves P none = Unit {0}
  Leaves P (some (a, s)) = P s.layout

  pub record Keeps (P : Layout R T → Type 0) (m : Method R T A) : Type 0 where
    pub at : (s : Run R T) → P s.layout → Leaves P (m s)

module _ {R T A : Type 0} (P : Layout R T → Type 0) where
  Leaves-or_panic : (o : Option A) (s : Run R T) → P s.layout → Leaves P (or_panic o s)
  unfolding or_panic
  Leaves-or_panic none s h = tt
  Leaves-or_panic (some a) s h = h

  Leaves-counted :
      (o : Option (A × Run R T)) (n : ℕ)
      → Leaves P o
      → Leaves P (elim o [
        | none ↦ none
        | some (a, s') ↦ some (a, record s' { custom_activation_count = n })
      ])
  Leaves-counted none n h = tt
  Leaves-counted (some (a, s)) n h = h

module _ {R T A : Type 0} {P : Layout R T → Type 0} where
  pub Keeps-pure : (a : A) → Keeps P (pure a)
  unfolding pure
  Keeps-pure a = record { at = λ s h. h }

  pub Keeps-fail : Keeps P (fail {A = A})
  unfolding fail
  Keeps-fail = record { at = λ s h. tt }

  pub Keeps-gets : (f : Layout R T → A) → Keeps P (gets f)
  unfolding gets
  Keeps-gets f = record { at = λ s h. h }

  pub Keeps-or_panic : (o : Option A) → Keeps P (or_panic o)
  Keeps-or_panic o = record { at = Leaves-or_panic P o }

  pub Keeps-if :
      (b : Bool) (m n : Method R T A) → Keeps P m → Keeps P n → Keeps P (if b then m else n)
  Keeps-if true m n km kn = km
  Keeps-if false m n km kn = kn

  pub Keeps-counting_anew : (m : Method R T A) → Keeps P m → Keeps P (counting_anew m)
  unfolding counting_anew
  Keeps-counting_anew m km = record {
    at = λ s h.
        Leaves-counted P (m (record s { custom_activation_count = 0 })) s.custom_activation_count
          (km.at _ h);
  }

module _ {R T : Type 0} {P : Layout R T → Type 0} where
  pub Keeps-modify :
      (f : Layout R T → Layout R T) → ((l : Layout R T) → P l → P (f l)) → Keeps P (modify f)
  unfolding modify
  Keeps-modify f kf = record { at = λ s h. kf s.layout h }

module _ {R T A B : Type 0} {P : Layout R T → Type 0} where
  Leaves-bind :
      (o : Option (A × Run R T)) (f : A → Method R T B)
      → ((a : A) → Keeps P (f a))
      → Leaves P o
      → Leaves P (elim o [ none ↦ none | some (a, s) ↦ f a s ])
  Leaves-bind none f kf h = tt
  Leaves-bind (some (a, s)) f kf h = (kf a).at s h

  pub Keeps-bind :
      (m : Method R T A) (f : A → Method R T B)
      → Keeps P m
      → ((a : A) → Keeps P (f a))
      → Keeps P (m >>= f)
  unfolding ◌>>=◌
  Keeps-bind m f km kf = record { at = λ s h. Leaves-bind (m s) f kf (km.at s h) }

  -- The rest of the block may use what is known of a value that was read.
  pub Keeps-gets-bind :
      (f : Layout R T → A) (Q : A → Type 0) (k : A → Method R T B)
      → ((l : Layout R T) → P l → Q (f l))
      → ((a : A) → Q a → Keeps P (k a))
      → Keeps P (gets f >>= k)
  unfolding ◌>>=◌
  Keeps-gets-bind f Q k q kk = record { at = λ s h. (kk (f s.layout) (q s.layout h)).at s h }
