-- ===== src/Cli/Keys.antt =====
-- src/bin/cli/tui.rs: the handling of a key by `run_app`. A character is its bytes in UTF-8; `none`
-- is a panic.
pub mod Positions
pub mod Editor
pub mod Safety
pub mod Commands
pub mod History
pub mod Panics
pub mod Multibyte
pub mod Screens
pub mod Runs
use iridium_stomp.Base.{
  ℕ, ◌+◌, ◌-◌, min, Bool, true, false, not, ◌&&◌, List, [], ◌∷◌, ◌++◌, Option, none, some, ltb,
  if◌then◌else◌, length, take, drop, is_empty,
}
use iridium_stomp.Base.Text.Search.{is_char_boundary, slice_from}
use iridium_stomp.Base.Text.Utf8.{Bytes, bytes_eq, codes, chars}
use iridium_stomp.Channel.{Mpsc}
use iridium_stomp.Cli.Commands.{
  Session, Surroundings, CommandResult, done, quit, info, error, record_in, execute_command,
}
use iridium_stomp.Cli.History.{add_to_history, history_prev, history_next}
use iridium_stomp.Cli.State.{AppState, toggle_headers}
use iridium_stomp.Client.{Links}
use mathlib.Core.List.{flatten}

-- `String::insert` at a byte position.
unfoldable pub insert_at : ℕ → Bytes → Bytes → Option Bytes
unfolding is_char_boundary
insert_at pos c s = if is_char_boundary pos s then some (take pos s ++ (c ++ drop pos s)) else none

-- `String::remove` at a byte position.
unfoldable pub remove_char_at : ℕ → Bytes → Option Bytes
remove_char_at pos s = elim (slice_from pos s) [
  | none ↦ none
  | some rest ↦ elim (chars rest) [ [] ↦ none | g ∷ gs ↦ some (take pos s ++ flatten gs) ]
]

abbrev pub with_input : AppState → ℕ → Option Bytes → Option AppState
with_input s cursor none = none
with_input s cursor (some text) = some (record s { input = text; cursor_pos = cursor })

-- The position moves by one, however many bytes the character has.
unfoldable pub type_char : Bytes → AppState → Option AppState
unfolding insert_at
type_char c s = with_input s (s.cursor_pos + 1) (insert_at s.cursor_pos c s.input)

unfoldable pub backspace : AppState → Option AppState
unfolding remove_char_at
backspace s =
    if ltb 0 s.cursor_pos
    then with_input s (s.cursor_pos - 1) (remove_char_at (s.cursor_pos - 1) s.input)
    else some s

unfoldable pub delete : AppState → Option AppState
unfolding remove_char_at
delete s =
    if ltb s.cursor_pos (length s.input)
    then with_input s s.cursor_pos (remove_char_at s.cursor_pos s.input)
    else some s

abbrev pub move_to : ℕ → AppState → AppState
move_to pos s = record s { cursor_pos = pos }

unfoldable pub cursor_left : AppState → AppState
cursor_left s = if ltb 0 s.cursor_pos then move_to (s.cursor_pos - 1) s else s

unfoldable pub cursor_right : AppState → AppState
cursor_right s = if ltb s.cursor_pos (length s.input) then move_to (s.cursor_pos + 1) s else s

abbrev pub clear_input : AppState → AppState
clear_input s = record s { input = []; cursor_pos = 0 }

-- One line, or ten, up or down; `count` is the number of messages in the pane.
unfoldable pub scroll_up : ℕ → ℕ
scroll_up offset = if ltb 0 offset then offset - 1 else offset

unfoldable pub scroll_down : ℕ → ℕ → ℕ
scroll_down count offset = if ltb offset (count - 1) then offset + 1 else offset

unfoldable pub page_up : ℕ → ℕ
page_up offset = offset - 10

unfoldable pub page_down : ℕ → ℕ → ℕ
page_down count offset = min (offset + 10) (count - 1)

pub data KeyCode : Type 0 where
  char : Bytes → KeyCode
  up down left_arrow right_arrow page_up_key page_down_key home end_key : KeyCode
  enter backspace_key delete_key esc other : KeyCode

pub record Modifiers : Type 0 where
  pub control : Bool
  pub others : Bool

abbrev pub no_modifiers : Modifiers → Bool
no_modifiers m = not m.control && not m.others

-- A character typed with the control key down, where that means something.
unfoldable pub control_key : Bytes → AppState → Option (AppState × Bool)
unfolding toggle_headers scroll_up scroll_down
control_key c s =
    if bytes_eq c (codes "q")
    then some (s, true)
    else if bytes_eq c (codes "c")
    then some (s, true)
    else if bytes_eq c (codes "h")
    then some (toggle_headers s, false)
    else if bytes_eq c (codes "e")
    then some (record s { error_scroll_offset = scroll_up s.error_scroll_offset }, false)
    else if bytes_eq c (codes "d")
    then some (
      record s { error_scroll_offset = scroll_down (length s.errors) s.error_scroll_offset },
      false,
    )
    else none

abbrev pub stay : Option AppState → Option (AppState × Bool)
stay none = none
stay (some s) = some (s, false)

unfoldable pub on_char : Bytes → Modifiers → AppState → Option (AppState × Bool)
unfolding control_key type_char
on_char c m s = elim (if m.control then control_key c s else none) [
  | some r ↦ some r
  | none ↦ stay (type_char c s)
]

unfoldable pub on_up : Modifiers → AppState → Option AppState
unfolding scroll_up history_prev
on_up m s =
    if m.control
    then some (record s { scroll_offset = scroll_up s.scroll_offset })
    else if no_modifiers m
    then history_prev s
    else some s

unfoldable pub on_down : Modifiers → AppState → Option AppState
unfolding scroll_down history_next
on_down m s =
    if m.control
    then some (record s { scroll_offset = scroll_down (length s.messages) s.scroll_offset })
    else if no_modifiers m
    then history_next s
    else some s

-- Every key but Enter: the state, and whether to quit.
unfoldable pub on_edit_key : KeyCode → Modifiers → AppState → Option (AppState × Bool)
unfolding on_char on_up on_down backspace delete cursor_left cursor_right page_up page_down
on_edit_key (char c) m s = on_char c m s
on_edit_key up m s = stay (on_up m s)
on_edit_key down m s = stay (on_down m s)
on_edit_key left_arrow m s = some (cursor_left s, false)
on_edit_key right_arrow m s = some (cursor_right s, false)
on_edit_key page_up_key m s = some (record s { scroll_offset = page_up s.scroll_offset }, false)
on_edit_key page_down_key m s =
    some (record s { scroll_offset = page_down (length s.messages) s.scroll_offset }, false)
on_edit_key home m s = some (move_to 0 s, false)
on_edit_key end_key m s = some (move_to (length s.input) s, false)
on_edit_key enter m s = some (s, false)
on_edit_key backspace_key m s = stay (backspace s)
on_edit_key delete_key m s = stay (delete s)
on_edit_key esc m s = some (clear_input s, false)
on_edit_key other m s = some (s, false)

module _ (l : Links) (r : Mpsc Bytes) where
  -- What the client does with the result of a command.
  unfoldable pub after_command : ℕ → Session l r × CommandResult → Session l r × Bool
  after_command now (s, done) = (s, false)
  after_command now (s, quit) = (s, true)
  after_command now (s, info text) = (record_in l r now (codes "INFO") text s, false)
  after_command now (s, error text) = (record_in l r now (codes "ERROR") text s, false)

  unfoldable pub on_enter : Surroundings → Session l r → Session l r × Bool
  unfolding after_command add_to_history execute_command
  on_enter w s0 =
      let line = s0.app.input in
      let s1 : Session l r = record s0 { app = clear_input (add_to_history line s0.app) } in
      if is_empty line
      then (s1, false)
      else after_command w.now (execute_command l r true w line s1)

  abbrev pub other_key : Session l r → Option (AppState × Bool) → Option (Session l r × Bool)
  other_key s none = none
  other_key s (some (a, leave)) = some (record s { app = a }, leave)

  unfoldable pub on_key :
      Surroundings → KeyCode → Modifiers → Session l r → Option (Session l r × Bool)
  unfolding on_enter on_edit_key
  on_key w enter m s = some (on_enter w s)
  on_key w code m s = other_key s (on_edit_key code m s.app)
