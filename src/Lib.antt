-- ===== src/Lib.antt =====
-- kanata, a software keyboard remapper. The layout manager of keyberon/ turns key events into key
-- codes, the crate in parser/ reads the configuration, and src/ runs the loop over time and devices.
-- The components modelled here and the files that model them:
--
-- * Switch, of keyberon/src/action/switch.rs and parser/src/cfg/switch.rs. `Switch.Ticks` and
--   `Switch.OpCode` are the encoding of a condition in 16-bit opcodes and its interpretation,
--   `Switch.Condition` and `Switch.Parse` what `parse_switch_case_bool` emits for a case,
--   `Switch.Eval` the loop of `evaluate_boolean` with its stack, `Switch.Actions` the iterator
--   `SwitchActions`. `Switch.Meaning` is what a case says, independent of opcodes, and
--   `Switch.Codec`, `Switch.Slice`, `Switch.Machine`, `Switch.Resume`, `Switch.Correct` and
--   `Switch.ParseCode` relate the two.
-- * KeyOverride, of parser/src/cfg/key_override.rs: `KeyOverride.Mask` the bits of the modifiers,
--   `KeyOverride.Override` one override, `KeyOverride.Apply` the collection and the rewriting of the
--   keys that are down, `KeyOverride.Erase` the marking of overridden keys in the layout, and its child
--   what the next action then clears; `KeyOverride.Fits`, `KeyOverride.Made`, `KeyOverride.Choice` and
--   `KeyOverride.Rewrite` hold the specifications and proofs.
-- * DynamicMacro, of src/kanata/dynamic_macro.rs: `DynamicMacro.Record` and `DynamicMacro.Replay`
--   are its functions, `DynamicMacro.Emission`, `DynamicMacro.Closed` and `DynamicMacro.Fidelity`
--   proofs.
-- * Layout, of keyberon/src/layout.rs: `Layout.Event` the events and the queue's entries,
--   `Layout.OneShot` the one shot keys (`OneShotState`), with sequences of calls in
--   `Layout.OneShot.Acts` and their end in `Layout.OneShot.Expiry` and
--   `Layout.OneShot.Triggers`; `Layout.HoldTap` and
--   `Layout.TapDance` are the waiting states of a hold-tap and of a tap-dance key (`tick_wt`,
--   `handle_hold_tap`, `handle_tap_dance`), their child modules proofs. `Layout.Chords` is that of a
--   chord key: `Layout.Chords.Group` the group with its chords, `Layout.Chords.Decompose` how a chord
--   is broken down, `Layout.Chords.Handle` the decision; `Layout.Chords.Split` and
--   `Layout.Chords.Decomposed` specify and prove the breaking down, `Layout.Chords.Decided` is about
--   the timeout.
-- * The layout manager of keyberon/src/layout.rs, with keyberon/src/action.rs. `Layout.State` has the
--   states of active keys and their release, `Layout.History` the histories, `Layout.Action` the
--   actions, `Layout.Manager` the fields of `Layout` and the states of what waits. A method of
--   `Layout` may panic and changes the layout: `Layout.Manager.Run`. The methods are in
--   `Layout.Manager.Layers` (the active layers, transparent keys), `Layout.Manager.Parts`,
--   `Layout.Manager.Effects`, `Layout.Manager.Waits` and `Layout.Manager.Perform` (the actions of
--   `do_action`: keys, other effects, what waits for a decision, what performs other actions),
--   `Layout.Manager.Events` (waiting keys that are decided, a press that is taken from the queue),
--   `Layout.Manager.Release` (a release that is taken from the queue), and `Layout.Manager.DoAction`,
--   which ties them together: `do_action`, `event` and `dequeue` call each other.
--   `Layout.Manager.Sequences` runs macros (`process_sequences`, `process_sequence_custom`),
--   `Layout.Manager.TickWaiting` the waiting keys (`tick_wt` of any of them,
--   `process_extra_waitings`), and `Layout.Manager.Tick` is `tick_layout`, which calls them all.
--   Proofs: `Layout.Manager.Within` and its children bound the coordinates that the layout holds,
--   `Layout.Manager.Inputs` runs it over inputs in any order,
--   without decisions of chord keys, `Layout.Manager.Released` is about releases,
--   `Layout.Manager.Repeat` about repeating an action, `Layout.Manager.Ends` about
--   termination, `Layout.Manager.Sequences.Performed` and `Layout.Manager.Sequences.Told` about macros,
--   and of `Layout.Manager.Tick` the children `Told` (custom releases over several ticks), `Quiet` (a
--   tick where nothing waits, with `Plain`), and `Pressed`, `Held`, `KeyPressed`, `Typed` and `Text`
--   (keys that are pressed and released). They run methods by the rules of
--   `Layout.Manager.Run.Steps`.
-- * CustomTapHold, of parser/src/cfg/custom_tap_hold.rs: the functions that decide a hold-tap key of
--   a custom configuration; `CustomTapHold.Hands` those that know the hands, the others proofs.
-- * Sexpr, of parser/src/cfg/sexpr.rs, the syntax of the configuration: `Sexpr.Position` has
--   positions, spans, slices and the counting iterator, `Sexpr.Lexer` the lexer, `Sexpr.Parser`
--   `parse_with`, `parse_` and `parse`, `Sexpr.Print` the writing of a tree by its `Debug`. Their
--   child modules are proofs: `Sexpr.Position.Chars` is about texts in UTF-8, `Sexpr.Lexer.Cut` shows
--   that tokens end between their characters, `Sexpr.Lexer.Pieces` cuts a source into the pieces of its
--   tokens, `Sexpr.Parser.Outcome` tells the outcome from the kinds of tokens alone.
-- * SubsetMap, of parser/src/subset.rs: the map that tells a key, a part of a key and neither
--   apart; `SubsetMap.Buckets`, `SubsetMap.Order` and `SubsetMap.History` are proofs about one of its
--   lists, about their order, and about the map after many insertions.
-- * CapsWord, of src/kanata/caps_word.rs: the state of caps word; its course over many ticks stands
--   in `CapsWord.Word`.
-- * MillisecondCounting, of src/kanata/millisecond_counting.rs and `get_ms_elapsed` of
--   src/kanata/mod.rs: how the loop counts its milliseconds; `MillisecondCounting.Paced` is about
--   several readings of the clock.
-- * Base holds what they share: Boolean tests, machine integers, lists, bits. Tests applies the
--   theorems to concrete inputs.
--
-- The layout calls the switch's iterator when it runs a switch action, with its keys, layers and
-- histories, which here are the record `Inputs`; the replay of a macro sends `Layout.Event`s; the
-- loop marks overridden keys in the layout's states, which the next action then clears.
--
-- Conventions. A `u8` or `u16` is a natural number; where the source's arithmetic can wrap or
-- saturate, this is written out. A panic is `none` or a constructor of a result type. A function on
-- `&mut self` returns the new state. A `HashMap` is an association list or a function, a `HashSet` a
-- list without repetition; the order in which one is walked is a parameter. A text is the list of
-- its bytes; a slice of it that cuts a character panics. Of the arraydeque crate the one shot keys
-- take `push_back` as a parameter, with what its documentation says of a deque with and without room;
-- the layout manager takes the pushes at both ends and the push that refuses, for any capacity, in
-- `Layout.Deques`. The evaluator's stack and the lists of the heapless crate refuse a push when they
-- are full. An action that is nested in another is a reference, which a parameter `deref` reads, so
-- that a configuration is one function from references to actions.
--
-- Bounds. `evaluate_boolean` is given two steps for every opcode and one to end with: each
-- opcode is entered at most once and each list left at most once. The iterator's loop runs at
-- most once for each case. The loop that breaks a chord down has a round for every pressed key
-- and one more, and each round but the last uses up a key. The lexer and its `next_token` have
-- a step for every byte and one more, since each token reads a byte. `do_action` has a bound on
-- the depth of nested calls, and is `none` where the stack would be deeper: where every nested action
-- has a smaller rank than the one around it, the rank and one more is enough, and a repetition may
-- need any depth. Other recursion is structural.
--
-- Not modelled: how names and numbers of the configuration are looked up; chords of
-- version 2, which are taken as absent; the tracker that reports tap-holds; the raw pointers of the
-- buffer for a repeated chord, which is the list of its keys; sequences, zippychord; variables and
-- templates of the configuration; devices, network and user interface.
pub mod Base
pub mod Switch
pub mod Layout
pub mod CustomTapHold
pub mod Sexpr
pub mod SubsetMap
pub mod DynamicMacro
pub mod KeyOverride
pub mod CapsWord
pub mod MillisecondCounting
pub mod Tests
