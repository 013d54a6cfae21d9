-- ===== src/Layout/Manager/Run/Steps.antt =====
-- Methods that return, by one rule for each way to build a method.
use kanata.Base.{◌≡◌, refl, Option, some}
use kanata.Layout.Manager.{Layout}
use kanata.Layout.Manager.Run.{
  Run, Method, pure, gets, or_panic, modify, changing, ◌>>=◌, counting_anew,
}

-- The method returns the value, and leaves the second state.
pub record Goes {R T A : Type 0} (m : Method R T A) (s : Run R T) (a : A) (t : Run R T)
    : Type 0 where
  pub eq : m s ≡ some (a, t)

module _ {R T A : Type 0} where
  pub Goes-pure : (a : A) (s : Run R T) → Goes (pure a) s a s
  unfolding pure
  Goes-pure a s = record { eq = refl }

  pub Goes-gets : (f : Layout R T → A) (s : Run R T) → Goes (gets f) s (f s.layout) s
  unfolding gets
  Goes-gets f s = record { eq = refl }

  pub Goes-some : (o : Option A) (a : A) (s : Run R T) → o ≡ some a → Goes (or_panic o) s a s
  unfolding or_panic
  Goes-some o a s e = record { eq = rw (e, or_panic) refl }

  pub Goes-changing :
      (f : Layout R T → A × Layout R T) (s : Run R T)
      → Goes (changing f) s (f s.layout).0 (record s { layout = (f s.layout).1 })
  unfolding changing
  Goes-changing f s = record { eq = refl }

  pub Goes-counting_anew :
      (m : Method R T A) (s : Run R T) (a : A) (t : Run R T)
      → Goes m (record s { custom_activation_count = 0 }) a t
      → Goes
          (counting_anew m)
          s
          a
          (record t { custom_activation_count = s.custom_activation_count })
  unfolding counting_anew
  Goes-counting_anew m s a t g = record { eq = rw (g.eq, counting_anew) refl }

module _ {R T : Type 0} where
  pub Goes-modify :
      (f : Layout R T → Layout R T) (s : Run R T)
      → Goes (modify f) s tt (record s { layout = f s.layout })
  unfolding modify
  Goes-modify f s = record { eq = refl }

module _ {R T A B : Type 0} where
  pub Goes-bind :
      (m : Method R T A) (f : A → Method R T B) {s : Run R T} {a : A} {t : Run R T} {b : B}
      {u : Run R T}
      → Goes m s a t
      → Goes (f a) t b u
      → Goes (m >>= f) s b u
  unfolding ◌>>=◌
  Goes-bind m f g h = record { eq = rw (g.eq, ◌>>=◌) h.eq }
