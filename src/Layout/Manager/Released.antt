-- ===== src/Layout/Manager/Released.antt =====
-- What the release of a key leaves, where no one shot key is active.
use mathlib.Core.List.{append_assoc, append-nil}
use kanata.Base.{
  ℕ, ◌+◌, ◌-◌, ◌≤◌, ◌≡◌, refl, arith, Bool, true, false, not, ◌&&◌, List, [], ◌∷◌, ◌++◌, none, some,
  KCoord, coord_eq, if◌then◌else◌, length, length-append, Bool-cases, inl, inr, ◌∙◌,
}
use kanata.Layout.Event.{release}
use kanata.Layout.OneShot.{is_empty, handle_release}
use kanata.Layout.State.{
  State, CustomEvent, no_event, released, normal_key, fake_key, layer_modifier, custom, no_op_input,
  repeating_sequence, seq_custom_pending, seq_custom_active, tombstone, state_coord,
  clear_on_next_release, Releasing, release as release_of, retain, release_or_clear,
}
use kanata.Layout.Deques.{Deques}
use kanata.Layout.Action.{Action}
use kanata.Layout.Manager.{Layout}
use kanata.Layout.Manager.Run.{Run}
use kanata.Layout.Manager.Parts.{keep}
use kanata.Layout.Manager.Release.{
  push_released, custom_event_release_queue_len, release_states, release_coord, dequeue_release,
}
use kanata.Layout.Manager.DoAction.{dequeued}
use kanata.Layout.Manager.Perform.{dequeue}

module _ {T : Type 0} where
  abbrev pub is_at : KCoord → State T → Bool
  is_at c s = elim (state_coord s) [ none ↦ false | some k ↦ coord_eq k c ]

  -- A state that a release at the coordinate leaves.
  abbrev pub stays : KCoord → State T → Bool
  stays c s = not (clear_on_next_release s) && not (is_at c s)

  -- The values of the custom actions at the coordinate.
  unfoldable pub customs_at : KCoord → List (State T) → List T
  customs_at c [] = []
  customs_at c (custom v k ∷ states) =
      let rest = customs_at c states in if coord_eq k c then v ∷ rest else rest
  customs_at c (_ ∷ states) = customs_at c states

  -- The first of them is told at once, the others wait.
  abbrev pub told : List T → CustomEvent T
  told [] = no_event
  told (v ∷ vs) = released v

  abbrev pub untold : List T → List T
  untold [] = []
  untold (v ∷ vs) = vs

module _ {T : Type 0} (d : Deques) where
  retain-keep :
      (c : KCoord) (xs : List (State T)) (r : Releasing T)
      → (retain (push_released d) (release_or_clear (push_released d) c) xs r).0 ≡ keep (stays c) xs
  unfolding retain keep release_of
  retain-keep c [] r = refl
  retain-keep c (x ∷ xs) r =
      ground (arith, retain-keep c xs (release_or_clear (push_released d) c x r).1)

  waiting_releases :
      (c : KCoord) (w : T) (xs : List (State T)) (queue : List T)
      → length queue + length (customs_at c xs) ≤ custom_event_release_queue_len
      → (retain (push_released d) (release_or_clear (push_released d) c) xs (record {
        custom_event = released w;
        custom_release_queue = queue;
        overflowed = false;
      })).1
        ≡ record {
          custom_event = released w;
          custom_release_queue = queue ++ customs_at c xs;
          overflowed = false;
        }
  unfolding retain customs_at release_of
  waiting_releases c w [] queue room = rw append-nil
  waiting_releases c w (custom v k ∷ xs) queue room = elim (Bool-cases (coord_eq k c)) [
    | inl here ↦
        let room' = rw here at room in
        let pushed = d.push_back_room custom_event_release_queue_len queue v (omega arith) in
        rw (here, pushed)
          (waiting_releases c w xs (queue ++ v ∷ [])
              (omega (arith, length-append {0} queue (v ∷ [])))
            ∙ rw append_assoc)
    | inr away ↦ rw away (waiting_releases c w xs queue (rw away at room))
  ]
  waiting_releases c w (normal_key kc k flags ∷ xs) queue room =
      ground (arith, waiting_releases c w xs queue)
  waiting_releases c w (layer_modifier l k ∷ xs) queue room = waiting_releases c w xs queue room
  waiting_releases c w (repeating_sequence l k ∷ xs) queue room = waiting_releases c w xs queue room
  waiting_releases c w (no_op_input k ∷ xs) queue room = waiting_releases c w xs queue room
  waiting_releases c w (fake_key k ∷ xs) queue room = waiting_releases c w xs queue room
  waiting_releases c w (seq_custom_pending k ∷ xs) queue room = waiting_releases c w xs queue room
  waiting_releases c w (seq_custom_active k ∷ xs) queue room = waiting_releases c w xs queue room
  waiting_releases c w (tombstone ∷ xs) queue room = waiting_releases c w xs queue room

  told_releases :
      (c : KCoord) (xs : List (State T)) (queue : List T)
      → length queue + (length (customs_at c xs) - 1) ≤ custom_event_release_queue_len
      → (retain
          (push_released d)
          (release_or_clear (push_released d) c)
          xs
          (record { custom_event = no_event; custom_release_queue = queue; overflowed = false })).1
        ≡ record {
          custom_event = told (customs_at c xs);
          custom_release_queue = queue ++ untold (customs_at c xs);
          overflowed = false;
        }
  unfolding retain customs_at release_of
  told_releases c [] queue room = rw append-nil
  told_releases c (custom v k ∷ xs) queue room = elim (Bool-cases (coord_eq k c)) [
    | inl here ↦
        let room' = rw here at room in rw here (waiting_releases c v xs queue (omega arith))
    | inr away ↦ rw away (told_releases c xs queue (rw away at room))
  ]
  told_releases c (normal_key kc k flags ∷ xs) queue room = ground (arith, told_releases c xs queue)
  told_releases c (layer_modifier l k ∷ xs) queue room = told_releases c xs queue room
  told_releases c (repeating_sequence l k ∷ xs) queue room = told_releases c xs queue room
  told_releases c (no_op_input k ∷ xs) queue room = told_releases c xs queue room
  told_releases c (fake_key k ∷ xs) queue room = told_releases c xs queue room
  told_releases c (seq_custom_pending k ∷ xs) queue room = told_releases c xs queue room
  told_releases c (seq_custom_active k ∷ xs) queue room = told_releases c xs queue room
  told_releases c (tombstone ∷ xs) queue room = told_releases c xs queue room

module _ {R T : Type 0} (d : Deques) where
  release_coord_lem :
      (c : KCoord) (l : Layout R T)
      → is_empty l.oneshot.keys ≡ true
      → length l.custom_event_release_queue + (length (customs_at c l.states) - 1)
        ≤ custom_event_release_queue_len
      → release_coord d c l ≡ (
        record l { states = keep (stays c) l.states },
        record {
          custom_event = told (customs_at c l.states);
          custom_release_queue = l.custom_event_release_queue ++ untold (customs_at c l.states);
          overflowed = false;
        },
      )
  unfolding release_coord release_states handle_release
  release_coord_lem c l e room =
      rw (e, told_releases d c l.states l.custom_event_release_queue room, retain-keep d c l.states)

  -- The layout behind the release: the states at the coordinate are gone, and keys that are cleared by
  -- any release; the other states are as they were.
  abbrev pub behind_release : KCoord → Layout R T → Layout R T
  behind_release c l = record l {
    states = keep (stays c) l.states;
    custom_event_release_queue = l.custom_event_release_queue ++ untold (customs_at c l.states);
  }

-- Where no one shot key is active and the queue of custom releases has room: taking the release of a
-- key from the queue succeeds. It leaves out the states at the key's coordinate and the keys that any
-- release clears, and leaves all else as it was; of the custom actions at the coordinate the first is
-- returned as released, and the others wait in order in the queue of custom releases.
pub dequeued-release :
    {R T : Type 0} (d : Deques) (deref : R → Action R T) (depth since : ℕ) (c : KCoord)
    (s : Run R T)
    → is_empty s.layout.oneshot.keys ≡ true
    → length s.layout.custom_event_release_queue + (length (customs_at c s.layout.states) - 1)
      ≤ custom_event_release_queue_len
    → dequeued d deref depth (record { event = release c; since = since }) s
      ≡ some
          (told (customs_at c s.layout.states), record s { layout = behind_release d c s.layout })
unfolding dequeued dequeue dequeue_release
dequeued-release d deref depth since c s e room = rw (release_coord_lem d c s.layout e room)
