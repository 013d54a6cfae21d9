-- ===== src/DynamicMacro/Record.antt =====
-- src/kanata/dynamic_macro.rs: the recording of a macro. Each function that takes
-- `&mut Option<DynamicMacroRecordState>` returns it with its result.
use kanata.Base.{
  ℕ, ◌-◌, ◌*◌, Bool, List, [], ◌∷◌, ◌++◌, map, Option, none, some, ltb, ◌==◌, if◌then◌else◌,
  sat_add16, length, take, any,
}

pub data DynamicMacroItem : Type 0 where
  press release : ℕ → ℕ → DynamicMacroItem
  end_macro : ℕ → DynamicMacroItem

pub data WaitingEventType : Type 0 where
  press release : WaitingEventType

pub record RecordState : Type 0 where
  pub starting_macro_id : ℕ
  pub waiting_event : Option (ℕ × WaitingEventType)
  pub macro_items : List DynamicMacroItem
  pub current_delay : ℕ

unfoldable pub new : ℕ → RecordState
new macro_id = record {
  starting_macro_id = macro_id;
  waiting_event = none;
  macro_items = [];
  current_delay = 0;
}

abbrev pub contains : List ℕ → ℕ → Bool
contains xs a = any (λ x. x == a) xs

-- `HashSet::insert` and `HashSet::remove`.
unfoldable pub insert : List ℕ → ℕ → List ℕ
insert xs a = if contains xs a then xs else a ∷ xs

unfoldable pub remove : List ℕ → ℕ → List ℕ
remove [] a = []
remove (x ∷ xs) a = let rest = remove xs a in if x == a then rest else x ∷ rest

-- The keys that are down after some items.
unfoldable pub note_item : List ℕ → DynamicMacroItem → List ℕ
unfolding insert
note_item pressed (DynamicMacroItem.press osc delay) = insert pressed osc
note_item pressed (DynamicMacroItem.release osc delay) = remove pressed osc
note_item pressed (end_macro id) = pressed

unfoldable pub pressed_from : List ℕ → List DynamicMacroItem → List ℕ
pressed_from pressed [] = pressed
pressed_from pressed (item ∷ items) = pressed_from (note_item pressed item) items

abbrev pub release_now : ℕ → DynamicMacroItem
release_now osc = DynamicMacroItem.release osc 0

-- `order` is the order in which the set of pressed keys is walked.
unfoldable pub add_release_for_all_unreleased_presses :
    (List ℕ → List ℕ) → List DynamicMacroItem → List DynamicMacroItem
unfolding pressed_from note_item insert
add_release_for_all_unreleased_presses order items =
    items ++ map release_now (order (pressed_from [] items))

-- The event that was waiting for its delay joins the items.
unfoldable pub push_pending : RecordState → List DynamicMacroItem
push_pending s = elim s.waiting_event [
  | none ↦ s.macro_items
  | some (osc, press) ↦ s.macro_items ++ DynamicMacroItem.press osc s.current_delay ∷ []
  | some (osc, release) ↦ s.macro_items ++ DynamicMacroItem.release osc s.current_delay ∷ []
]

unfoldable pub add_event : RecordState → ℕ → WaitingEventType → RecordState
unfolding push_pending
add_event s osc evtype = record s {
  macro_items = push_pending s;
  current_delay = 0;
  waiting_event = some (osc, evtype);
}

unfoldable pub tick_record_state : Option RecordState → Option RecordState
tick_record_state none = none
tick_record_state (some s) = some (record s { current_delay = sat_add16 s.current_delay 1 })

abbrev pub Saved : Type 0
Saved = Option (ℕ × List DynamicMacroItem)

-- `macro_items.remove(macro_items.len() - 1)`: of no items it panics, which is `none`.
unfoldable pub remove_last : List DynamicMacroItem → Option (List DynamicMacroItem)
remove_last [] = none
remove_last (x ∷ xs) = some (take (length xs) (x ∷ xs))

unfoldable pub begin_record_macro :
    (List ℕ → List ℕ) → ℕ → Option RecordState → Option (Saved × Option RecordState)
begin_record_macro order macro_id none = some (none, some (new macro_id))
begin_record_macro order macro_id (some s) = elim (remove_last (push_pending s)) [
  | none ↦ none
  | some items ↦ some (
    some (s.starting_macro_id, add_release_for_all_unreleased_presses order items),
    if s.starting_macro_id == macro_id then none else some (new macro_id),
  )
]

unfoldable pub record_press :
    (List ℕ → List ℕ) → Option RecordState → ℕ → ℕ → Saved × Option RecordState
record_press order none osc max_presses = (none, none)
record_press order (some s) osc max_presses =
    if ltb (max_presses * 2) (length s.macro_items)
    then (
      some (s.starting_macro_id, add_release_for_all_unreleased_presses order s.macro_items),
      none,
    )
    else (none, some (add_event s osc press))

unfoldable pub record_release : Option RecordState → ℕ → Option RecordState
record_release none osc = none
record_release (some s) osc = some (add_event s osc release)

unfoldable pub stop_macro :
    (List ℕ → List ℕ) → Option RecordState → ℕ → Option (Saved × Option RecordState)
stop_macro order none num_actions_to_remove = some (none, none)
stop_macro order (some s) num_actions_to_remove = elim (remove_last (push_pending s)) [
  | none ↦ none
  | some items ↦ some (
    some (
      s.starting_macro_id,
      add_release_for_all_unreleased_presses order
          (take (length items - num_actions_to_remove) items),
    ),
    none,
  )
]
