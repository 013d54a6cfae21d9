-- ===== src/DynamicMacro/Closed.antt =====
-- A saved macro leaves no key pressed, and what is saved is what was recorded.
use kanata.Base.{
  ℕ, ◌≡◌, refl, arith, false, not, ◌&&◌, List, [], ◌∷◌, ◌++◌, map, Option, none, some, ◌==◌, ◌↔◌,
}
use kanata.DynamicMacro.Record.{
  DynamicMacroItem, WaitingEventType, press, release, RecordState, contains, remove, note_item,
  pressed_from, release_now, add_release_for_all_unreleased_presses, push_pending, remove_last,
  begin_record_macro, stop_macro,
}

contains-remove :
    (xs : List ℕ) (a b : ℕ) → contains (remove xs a) b ≡ (contains xs b && not (a == b))
unfolding remove
contains-remove [] a b = refl
contains-remove (x ∷ xs) a b = ground (arith, contains-remove xs a b)

pressed_from-append :
    (p : List ℕ) (xs ys : List DynamicMacroItem)
    → pressed_from p (xs ++ ys) ≡ pressed_from (pressed_from p xs) ys
unfolding pressed_from
pressed_from-append p [] ys = refl
pressed_from-append p (x ∷ xs) ys = pressed_from-append (note_item p x) xs ys

pressed_from-releases :
    (p ks : List ℕ) (a : ℕ)
    → contains (pressed_from p (map release_now ks)) a ≡ (contains p a && not (contains ks a))
unfolding pressed_from note_item
pressed_from-releases p [] a = ground arith
pressed_from-releases p (k ∷ ks) a =
    ground (arith, pressed_from-releases (remove p k) ks a, contains-remove p k a)

-- In whatever order the set of pressed keys is walked: after all items of a recording with the
-- releases that are added to it, no key is down.
pub add_release-none_pressed :
    (order : List ℕ → List ℕ) (items : List DynamicMacroItem) (osc : ℕ)
    → ((keys : List ℕ) (a : ℕ) → contains (order keys) a ≡ contains keys a)
    → contains (pressed_from [] (add_release_for_all_unreleased_presses order items)) osc ≡ false
unfolding add_release_for_all_unreleased_presses
add_release-none_pressed order items osc same =
    let down = pressed_from [] items in
    rw (pressed_from-append [] items (map release_now (order down)))
      (ground (arith, pressed_from-releases down (order down) osc, same down osc))

abbrev pub NoEvent : RecordState → Type 0
NoEvent s = (s.waiting_event ≡ none) × (s.macro_items ≡ [])

append-ne-nil : (xs : List DynamicMacroItem) (x : DynamicMacroItem) → ¬ (xs ++ x ∷ [] ≡ [])
append-ne-nil [] x e = cc
append-ne-nil (y ∷ xs) x e = cc

remove_last-none_iff : (xs : List DynamicMacroItem) → (remove_last xs ≡ none) ↔ (xs ≡ [])
unfolding remove_last
remove_last-none_iff [] = ((λ _. refl), (λ _. refl))
remove_last-none_iff (x ∷ xs) = ((λ e. cc), (λ e. cc))

pending-nil :
    (w : Option (ℕ × WaitingEventType)) (s : RecordState)
    → s.waiting_event ≡ w
    → (push_pending s ≡ []) ↔ NoEvent s
unfolding push_pending
pending-nil none s e = rw (e, push_pending) ((λ p. (refl, p)), (λ p. p.1))
pending-nil (some (osc, press)) s e =
    rw (e, push_pending) ((λ p. absurd (append-ne-nil _ _ p)), (λ p. cc (p.0)))
pending-nil (some (osc, release)) s e =
    rw (e, push_pending) ((λ p. absurd (append-ne-nil _ _ p)), (λ p. cc (p.0)))

last-none_iff : (s : RecordState) → (remove_last (push_pending s) ≡ none) ↔ NoEvent s
last-none_iff s =
    let (a, b) = remove_last-none_iff (push_pending s) in
    let (c, d) = pending-nil s.waiting_event s refl in ((λ e. c (a e)), (λ e. b (d e)))

stop-none_iff :
    (order : List ℕ → List ℕ) (s : RecordState) (n : ℕ)
    → (stop_macro order (some s) n ≡ none) ↔ (remove_last (push_pending s) ≡ none)
unfolding stop_macro
stop-none_iff order s n = ground arith

begin-none_iff :
    (order : List ℕ → List ℕ) (s : RecordState) (id : ℕ)
    → (begin_record_macro order id (some s) ≡ none) ↔ (remove_last (push_pending s) ≡ none)
unfolding begin_record_macro
begin-none_iff order s id = ground arith

-- `stop_macro` and `begin_record_macro` take away the last recorded event of a recording that is
-- going on, and that is a panic exactly when it has recorded none.
pub stop-begin_panic_iff :
    (order : List ℕ → List ℕ) (s : RecordState) (id n : ℕ)
    → ((stop_macro order (some s) n ≡ none) ↔ NoEvent s)
      × ((begin_record_macro order id (some s) ≡ none) ↔ NoEvent s)
stop-begin_panic_iff order s id n =
    let (a, b) = stop-none_iff order s n in
    let (c, d) = begin-none_iff order s id in
    let (e, f) = last-none_iff s in
    (((λ p. e (a p)), (λ p. b (f p))), ((λ p. e (c p)), (λ p. d (f p))))
