-- ===== src/Layout/Manager/Layers.antt =====
-- keyberon/src/layout.rs: which layers are active, and what a transparent key stands for.
use kanata.Base.{
  ℕ, Bool, true, false, not, ◌&&◌, List, [], ◌∷◌, ◌++◌, map, Option, none, some, KCoord, ltb, leb,
  ◌==◌, if◌then◌else◌, length, get_elem?, u16,
}
use kanata.Layout.State.{State, get_layer}
use kanata.Layout.Action.{Action, trans, no_op}
use kanata.Layout.Manager.{Layout}

abbrev pub max_active_layers : ℕ
max_active_layers = 12

abbrev pub states_capacity : ℕ
states_capacity = 64

-- `push` of a heapless `Vec`, whose failure is ignored.
abbrev pub push_within : ℕ → {A : Type 0} → List A → A → List A
push_within capacity xs x = if ltb (length xs) capacity then xs ++ x ∷ [] else xs

-- The layers that are held, the latest first: `filter_map` and `rev`.
unfoldable pub held_layers : {T : Type 0} → List (State T) → List ℕ → List ℕ
held_layers [] later = later
held_layers (s ∷ states) later = elim (get_layer s) [
  | none ↦ held_layers states later
  | some l ↦ held_layers states (l ∷ later)
]

abbrev pub first_or : List ℕ → ℕ → ℕ
first_or [] d = d
first_or (l ∷ ls) d = l

module _ {R T : Type 0} where
  abbrev pub current_layer : Layout R T → ℕ
  current_layer l = first_or (held_layers l.states []) l.default_layer

  abbrev pub active_held_layers : Layout R T → List ℕ
  active_held_layers l = map u16 (held_layers l.states [])

  -- Collecting more layers than a `LayerStack` holds panics.
  unfoldable pub trans_resolution_layer_order : Layout R T → Option (List ℕ)
  unfolding held_layers
  trans_resolution_layer_order l =
      let held = active_held_layers l in
      let v = push_within max_active_layers held (u16 l.default_layer) in
      let w = push_within max_active_layers [] (u16 (current_layer l)) in
      if l.trans_resolution_behavior_v2
      then if leb (length held) max_active_layers
        then some (
            if l.delegate_to_first_layer && not (current_layer l == 0) && not (l.default_layer == 0)
            then push_within max_active_layers v 0
            else v)
        else none
      else some (
          if l.delegate_to_first_layer && not (current_layer l == 0)
          then push_within max_active_layers w 0
          else w)

  abbrev pub set_default_layer : ℕ → Layout R T → Layout R T
  set_default_layer value l =
      if ltb value (length l.layers) then record l { default_layer = value } else l

  -- `layers[layer][x][y]`
  abbrev pub action_at : Layout R T → ℕ → KCoord → Option (Action R T)
  action_at l i c = elim (get_elem? l.layers i) [
    | none ↦ none
    | some rows ↦ elim (get_elem? rows c.0) [ none ↦ none | some row ↦ get_elem? row c.1 ]
  ]

  abbrev pub is_trans : Action R T → Bool
  is_trans trans = true
  is_trans _ = false

  -- The loop, with the layers that it leaves.
  unfoldable pub resolve_in : Layout R T → KCoord → List ℕ → Option (Option (Action R T) × List ℕ)
  resolve_in l c [] = some (none, [])
  resolve_in l c (i ∷ layer_stack) =
      let below = resolve_in l c layer_stack in
      elim (action_at l i c) [
        | none ↦ none
        | some action ↦ if is_trans action then below else some (some action, layer_stack)
      ]

  abbrev pub fallback :
      Layout R T → KCoord → List ℕ → Option (Action R T) → Option (Action R T × List ℕ)
  fallback l c rest (some action) = some (action, rest)
  fallback l c rest none =
      if c.0 == 0
      then elim (get_elem? l.src_keys c.1) [ none ↦ none | some action ↦ some (action, rest) ]
      else some (no_op, rest)

  -- The two asserts, of sizes that the first layer has.
  abbrev pub is_on_first_layer : Layout R T → KCoord → Bool
  is_on_first_layer l c = elim (get_elem? l.layers 0) [
    | none ↦ false
    | some rows ↦
        leb c.0 (length rows)
        && elim (get_elem? rows 0) [ none ↦ false | some row ↦ leb c.1 (length row) ]
  ]

  -- `none` is a panic of an index or an assert.
  unfoldable pub resolve_coord : Layout R T → KCoord → List ℕ → Option (Action R T × List ℕ)
  unfolding resolve_in
  resolve_coord l c layer_stack =
      if is_on_first_layer l c
      then elim (resolve_in l c layer_stack) [
        | none ↦ none
        | some (found, rest) ↦ fallback l c rest found
      ]
      else none
