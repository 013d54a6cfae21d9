-- ===== src/Layout/Manager/Tick/Text.antt =====
-- Keys that are typed one after the other.
use kanata.Base.{ℕ, ◌≡◌, true, List, [], ◌∷◌, ◌++◌, some, KCoord, all}
use kanata.Layout.Event.{Event, press, release}
use kanata.Layout.State.{CustomEvent, no_event}
use kanata.Layout.Deques.{Deques}
use kanata.Layout.Action.{Action, key_code}
use kanata.Layout.Manager.{Layout}
use kanata.Layout.Manager.Layers.{resolve_coord, trans_resolution_layer_order}
use kanata.Layout.Manager.Parts.{keycodes}
use kanata.Layout.Manager.Run.{Run, Method, pure, gets, ◌>>=◌}
use kanata.Layout.Manager.Tick.Held.{is_held}
use kanata.Layout.Manager.Tick.Typed.{event_and_tick}

module _ {R T : Type 0} (d : Deques) (deref : R → Action R T) (depth : ℕ) where
  -- What the tick behind an event tells, and the key codes that are then pressed.
  unfoldable observed : Event → Method R T (CustomEvent T × List ℕ)
  unfolding event_and_tick gets pure ◌>>=◌
  observed e = do told ← event_and_tick d deref depth e; kcs ← gets keycodes; pure (told, kcs)

  unfoldable pub type_keys : List KCoord → Method R T (List (CustomEvent T × List ℕ))
  unfolding observed
  type_keys [] = pure []
  type_keys (c ∷ cs) = do
    down ← observed (press c)
    up ← observed (release c)
    later ← type_keys cs
    pure (down ∷ up ∷ later)

-- What typing the key codes shows beside the key codes that are held.
unfoldable pub typed : {T : Type 0} → List ℕ → List ℕ → List (CustomEvent T × List ℕ)
typed held [] = []
typed held (kc ∷ kcs) = (no_event, held ++ kc ∷ []) ∷ (no_event, held) ∷ typed held kcs

module _ {R T : Type 0} where
  -- The key has the key code, and nothing that is active is of its coordinate.
  pub record IsKey (l : Layout R T) (c : KCoord) (kc : ℕ) : Type 0 where
    pub order : List ℕ
    pub rest : List ℕ
    pub searched : trans_resolution_layer_order l ≡ some order
    pub found : resolve_coord l c order ≡ some (key_code kc, rest)
    pub held : all (is_held c) l.states ≡ true

  abbrev pub AreKeys : Layout R T → List KCoord → List ℕ → Type 0
  AreKeys l [] [] = Unit
  AreKeys l [] (kc ∷ kcs) = ⊥
  AreKeys l (c ∷ cs) [] = ⊥
  AreKeys l (c ∷ cs) (kc ∷ kcs) = IsKey l c kc × AreKeys l cs kcs
