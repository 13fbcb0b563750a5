-- ===== src/Cli/History.antt =====
-- src/bin/cli/state.rs: the history of commands. `none` is a panic: an index out of bounds.
pub mod Walk
use iridium_stomp.Base.{
  ℕ, zero, suc, ◌+◌, ◌-◌, Bool, true, false, List, [], ◌∷◌, ◌++◌, Option, none, some, ltb,
  if◌then◌else◌, length, is_empty,
}
use iridium_stomp.Base.Text.Utf8.{Bytes, bytes_eq, trim}
use iridium_stomp.Cli.State.{AppState}

abbrev pub get_elem? : List Bytes → ℕ → Option Bytes
get_elem? [] i = none
get_elem? (x ∷ xs) zero = some x
get_elem? (x ∷ xs) (suc i) = get_elem? xs i

-- `last() == Some(cmd)`
abbrev pub ends_with : Bytes → List Bytes → Bool
ends_with cmd [] = false
ends_with cmd (x ∷ []) = bytes_eq x cmd
ends_with cmd (x ∷ y ∷ xs) = ends_with cmd (y ∷ xs)

-- A command that is not empty and not the last one again is added.
unfoldable pub push_command : Bytes → List Bytes → List Bytes
push_command cmd history =
    if is_empty cmd then history else if ends_with cmd history then history else history ++ cmd ∷ []

unfoldable pub add_to_history : Bytes → AppState → AppState
unfolding push_command
add_to_history cmd s = record s {
  command_history = push_command (trim cmd) s.command_history;
  history_index = none;
  saved_input = [];
}

-- Show an input, with the cursor behind it.
abbrev pub show_input : Bytes → AppState → AppState
show_input text s = record s { input = text; cursor_pos = length text }

-- Show a command of the history.
unfoldable pub recall : ℕ → AppState → Option AppState
recall idx s = elim (get_elem? s.command_history idx) [
  | none ↦ none
  | some cmd ↦ some (show_input cmd (record s { history_index = some idx }))
]

-- Browsing starts at the newest command, and the input is saved.
unfoldable pub history_prev : AppState → Option AppState
unfolding recall
history_prev s = if is_empty s.command_history then some s else elim s.history_index [
  | none ↦ recall (length s.command_history - 1) (record s { saved_input = s.input })
  | some idx ↦ if ltb 0 idx then recall (idx - 1) s else some s
]

-- Behind the newest command is the saved input.
unfoldable pub history_next : AppState → Option AppState
unfolding recall
history_next s = elim s.history_index [
  | none ↦ some s
  | some idx ↦
      if ltb (idx + 1) (length s.command_history)
      then recall (idx + 1) s
      else some (show_input s.saved_input (record s { history_index = none }))
]
