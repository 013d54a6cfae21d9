-- ===== src/Layout/History.antt =====
-- keyberon/src/layout.rs, `History`: the latest events, the newest first, each with its age.
use kanata.Base.{
  ℕ, zero, suc, List, [], ◌∷◌, map, Option, none, some, KCoord, coord_eq, if◌then◌else◌, sat_add16,
}
use kanata.Switch.Eval.{HistoricalEvent}
use kanata.Layout.Deques.{Deques}

abbrev pub historical_event_len : ℕ
historical_event_len = 8

pub record History (T : Type 0) : Type 0 where
  pub events : List T
  pub ticks_since_occurrences : List ℕ

-- `remove` of an `ArrayDeque`, at a place that it may not have.
unfoldable pub remove_at : {A : Type 0} → List A → ℕ → List A
remove_at [] i = []
remove_at (x ∷ xs) zero = xs
remove_at (x ∷ xs) (suc i) = x ∷ remove_at xs i

-- The first place of a coordinate.
unfoldable pub find_coord : KCoord → List KCoord → Option ℕ
find_coord c [] = none
find_coord c (ev ∷ events) =
    let later = find_coord c events in
    if coord_eq ev c then some 0 else elim later [ none ↦ none | some i ↦ some (suc i) ]

abbrev pub exclude_hold_or_timeout_from_history : KCoord → History KCoord → History KCoord
exclude_hold_or_timeout_from_history c history = elim (find_coord c history.events) [
  | none ↦ history
  | some i ↦ record {
    ticks_since_occurrences = remove_at history.ticks_since_occurrences i;
    events = remove_at history.events i;
  }
]

module _ {T : Type 0} where
  abbrev pub tick_hist : History T → History T
  tick_hist h = record h {
    ticks_since_occurrences = map (λ t. sat_add16 t 1) h.ticks_since_occurrences;
  }

  abbrev pub push_front : Deques → History T → T → History T
  push_front d h event = record {
    ticks_since_occurrences = (d.push_front historical_event_len h.ticks_since_occurrences 0).0;
    events = (d.push_front historical_event_len h.events event).0;
  }

  -- `zip`
  unfoldable pub zip_events : List T → List ℕ → List (HistoricalEvent T)
  zip_events [] ticks = []
  zip_events (e ∷ events) [] = []
  zip_events (e ∷ events) (t ∷ ticks) =
      record { event = e; ticks_since_occurrence = t } ∷ zip_events events ticks

  abbrev pub iter_hevents : History T → List (HistoricalEvent T)
  iter_hevents h = zip_events h.events h.ticks_since_occurrences
