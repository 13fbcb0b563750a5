-- ===== src/Cli/Keys/Panics.antt =====
-- That no key panics while the line and what is typed are ASCII.
use iridium_stomp.Base.{
  ℕ, Bool, true, false, ◌≡◌, refl, inl, inr, [], ◌∷◌, Option, none, some, Bool-cases, is_empty,
}
use iridium_stomp.Base.Text.Utf8.{Bytes, bytes_eq, codes}
use iridium_stomp.Cli.History.{add_to_history}
use iridium_stomp.Cli.Keys.{
  KeyCode, char, up, down, left_arrow, right_arrow, page_up_key, page_down_key, home, end_key,
  enter, backspace_key, delete_key, esc, other, Modifiers, control_key, on_char, on_edit_key, stay,
  type_char, clear_input, after_command, on_enter, on_key, other_key,
}
use iridium_stomp.Cli.Keys.Editor.{
  type, erase_before, erase_after, go_left, go_right, go_home, go_end, clear,
}
use iridium_stomp.Cli.Keys.Positions.{IsAscii}
use iridium_stomp.Cli.Keys.History.{add_to_history-IsSound}
use iridium_stomp.Cli.Keys.Safety.{
  if_lem, IsSound, IsSafe, edit-IsSafe, on_up-IsSafe, on_down-IsSafe,
}
use iridium_stomp.Channel.{Mpsc}
use iridium_stomp.Client.{Links}
use iridium_stomp.Cli.Commands.{
  Session, Surroundings, CommandResult, done, quit, info, error, execute_command,
}
use iridium_stomp.Cli.Keys.Commands.{editor-IsSound, record_message-editor, execute_command-editor}
use iridium_stomp.Cli.State.{AppState, record_message, toggle_headers}

-- What a key of the control key, or else a typed character, comes to.
abbrev or_typed : Bytes → AppState → Option (AppState × Bool) → Option (AppState × Bool)
or_typed c s (some r) = some r
or_typed c s none = stay (type_char c s)

control_key-IsSafe :
    (c : Bytes) (s : AppState)
    → IsSound s
    → IsSafe (stay (type_char c s))
    → IsSafe (or_typed c s (control_key c s))
unfolding control_key toggle_headers
control_key-IsSafe c s h typed =
    let pick = if_lem (λ o. IsSafe (or_typed c s o)) in
    pick (bytes_eq c (codes "q")) _ _ h (
      pick (bytes_eq c (codes "c")) _ _ h (
        pick (bytes_eq c (codes "h")) _ _ h
          (pick (bytes_eq c (codes "e")) _ _ h (pick (bytes_eq c (codes "d")) _ _ h typed))))

typed-IsSafe : (c : ℕ) (s : AppState) → IsAscii c → IsSound s → IsSafe (stay (type_char (c ∷ []) s))
typed-IsSafe c s a h =
    unfold on_edit_key in
    unfold on_char in
    edit-IsSafe (type c) (record { control = false; others = false }) s (a, refl) h

on_char-IsSafe :
    (c : ℕ) (m : Modifiers) (s : AppState) → IsAscii c → IsSound s → IsSafe (on_char (c ∷ []) m s)
on_char-IsSafe c m s a h = elim (Bool-cases m.control) [
  | inl e ↦ unfold on_char in rw e (control_key-IsSafe (c ∷ []) s h (typed-IsSafe c s a h))
  | inr e ↦ unfold on_char in rw e (typed-IsSafe c s a h)
]

-- A key that types no other than an ASCII character.
abbrev pub IsAsciiKey : KeyCode → Type 0
IsAsciiKey (char c) = (b : ℕ) × (c ≡ b ∷ []) × IsAscii b
IsAsciiKey k = Unit

on_edit_key-IsSafe :
    (k : KeyCode) (m : Modifiers) (s : AppState)
    → IsAsciiKey k
    → IsSound s
    → IsSafe (on_edit_key k m s)
unfolding on_edit_key
on_edit_key-IsSafe (char c) m s (b, e, a) h = rw e (on_char-IsSafe b m s a h)
on_edit_key-IsSafe up m s a h = on_up-IsSafe m s h
on_edit_key-IsSafe down m s a h = on_down-IsSafe m s h
on_edit_key-IsSafe left_arrow m s a h = edit-IsSafe go_left m s tt h
on_edit_key-IsSafe right_arrow m s a h = edit-IsSafe go_right m s tt h
on_edit_key-IsSafe page_up_key m s a h = h
on_edit_key-IsSafe page_down_key m s a h = h
on_edit_key-IsSafe home m s a h = edit-IsSafe go_home m s tt h
on_edit_key-IsSafe end_key m s a h = edit-IsSafe go_end m s tt h
on_edit_key-IsSafe enter m s a h = h
on_edit_key-IsSafe backspace_key m s a h = edit-IsSafe erase_before m s tt h
on_edit_key-IsSafe delete_key m s a h = edit-IsSafe erase_after m s tt h
on_edit_key-IsSafe esc m s a h = edit-IsSafe clear m s tt h
on_edit_key-IsSafe other m s a h = h

module _ (l : Links) (r : Mpsc Bytes) where
  -- A key that does not panic leaves a sound state.
  abbrev pub Survives : Option (Session l r × Bool) → Type 0
  Survives none = ⊥
  Survives (some (s, leave)) = IsSound s.app

  after_command-Survives :
      (now : ℕ) (s : Session l r) (c : CommandResult)
      → IsSound s.app
      → IsSound (after_command l r now (s, c)).0.app
  unfolding after_command
  after_command-Survives now s done h = h
  after_command-Survives now s quit h = h
  after_command-Survives now s (info text) h =
      editor-IsSound s.app (record_message now (codes "INFO") text [] s.app)
        (record_message-editor now (codes "INFO") text [] s.app) h
  after_command-Survives now s (error text) h =
      editor-IsSound s.app (record_message now (codes "ERROR") text [] s.app)
        (record_message-editor now (codes "ERROR") text [] s.app) h

  on_enter-Survives :
      (w : Surroundings) (s : Session l r) → IsSound s.app → IsSound (on_enter l r w s).0.app
  unfolding on_enter
  on_enter-Survives w s h =
      let line = s.app.input in
      let entered = add_to_history-IsSound s.app h in
      let s1 : Session l r = record s { app = clear_input (add_to_history line s.app) } in
      let ran = execute_command l r true w line s1 in
      let left =
        after_command-Survives w.now ran.0 ran.1
          (editor-IsSound s1.app ran.0.app (execute_command-editor l r true w line s1) entered) in
      elim (Bool-cases (is_empty line)) [
        | inl nothing ↦ rw (nothing, on_enter) entered
        | inr something ↦ rw (something, on_enter) left
      ]

  other_key-Survives :
      (s : Session l r) (o : Option (AppState × Bool)) → IsSafe o → Survives (other_key l r s o)
  other_key-Survives s none h = h
  other_key-Survives s (some (a, leave)) h = h

  -- As long as the line, the history and the key that is pressed are ASCII, the key does not panic,
  -- and all of these stay ASCII, with the cursor in the line and the place in the history within
  -- its bounds. This includes Enter, whatever command the line is and whatever becomes of it.
  pub on_key-Survives :
      (w : Surroundings) (k : KeyCode) (m : Modifiers) (s : Session l r)
      → IsAsciiKey k
      → IsSound s.app
      → Survives (on_key l r w k m s)
  unfolding on_key
  on_key-Survives w enter m s a h = on_enter-Survives w s h
  on_key-Survives w (char c) m s a h =
      other_key-Survives s (on_edit_key (char c) m s.app) (on_edit_key-IsSafe (char c) m s.app a h)
  on_key-Survives w up m s a h =
      other_key-Survives s (on_edit_key up m s.app) (on_edit_key-IsSafe up m s.app a h)
  on_key-Survives w down m s a h =
      other_key-Survives s (on_edit_key down m s.app) (on_edit_key-IsSafe down m s.app a h)
  on_key-Survives w left_arrow m s a h =
      other_key-Survives s (on_edit_key left_arrow m s.app)
        (on_edit_key-IsSafe left_arrow m s.app a h)
  on_key-Survives w right_arrow m s a h =
      other_key-Survives s (on_edit_key right_arrow m s.app)
        (on_edit_key-IsSafe right_arrow m s.app a h)
  on_key-Survives w page_up_key m s a h =
      other_key-Survives s (on_edit_key page_up_key m s.app)
        (on_edit_key-IsSafe page_up_key m s.app a h)
  on_key-Survives w page_down_key m s a h =
      other_key-Survives s (on_edit_key page_down_key m s.app)
        (on_edit_key-IsSafe page_down_key m s.app a h)
  on_key-Survives w home m s a h =
      other_key-Survives s (on_edit_key home m s.app) (on_edit_key-IsSafe home m s.app a h)
  on_key-Survives w end_key m s a h =
      other_key-Survives s (on_edit_key end_key m s.app) (on_edit_key-IsSafe end_key m s.app a h)
  on_key-Survives w backspace_key m s a h =
      other_key-Survives s (on_edit_key backspace_key m s.app)
        (on_edit_key-IsSafe backspace_key m s.app a h)
  on_key-Survives w delete_key m s a h =
      other_key-Survives s (on_edit_key delete_key m s.app)
        (on_edit_key-IsSafe delete_key m s.app a h)
  on_key-Survives w esc m s a h =
      other_key-Survives s (on_edit_key esc m s.app) (on_edit_key-IsSafe esc m s.app a h)
  on_key-Survives w other m s a h =
      other_key-Survives s (on_edit_key other m s.app) (on_edit_key-IsSafe other m s.app a h)
