-- ===== src/Sexpr/Print.antt =====
-- parser/src/cfg/sexpr.rs: how an s-expression is written, by its `Debug`.
pub mod Place
pub mod Words
pub mod Lexed
pub mod RoundTrip
use kanata.Base.{ℕ, List, [], ◌∷◌, ◌++◌}
use kanata.Sexpr.Parser.{SExpr, atom, list, Exprs, nil, cons}

unfoldable mutual
  pub fmt : SExpr → List ℕ
  fmt (atom a span) = a
  fmt (list es span) = b'(' ∷ (join es ++ b')' ∷ [])

  -- The elements with a space between any two.
  pub join : Exprs → List ℕ
  join nil = []
  join (cons e nil) = fmt e
  join (cons e (cons e' es)) = fmt e ++ (b' ' ∷ join (cons e' es))
