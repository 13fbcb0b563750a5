-- ===== src/Cli/Keys/History.antt =====
-- That the history of ASCII commands stays one.
use iridium_stomp.Base.{ℕ, List, [], ◌∷◌, ◌++◌, arith, if◌then◌else◌, All, All-append, is_empty}
use iridium_stomp.Base.Text.Utf8.{Bytes, cons_char, chars, drop_whitespace, trim, is_whitespace}
use iridium_stomp.Cli.History.{push_command, add_to_history, ends_with}
use iridium_stomp.Cli.Keys.{clear_input}
use iridium_stomp.Cli.Keys.Positions.{IsAscii}
use iridium_stomp.Cli.Keys.Safety.{if_lem, IsAsciiText, IsSound}
use iridium_stomp.Cli.State.{AppState}
use mathlib.Core.List.{flatten, reverse, reverse-cons}

cons_char-All :
    (c : ℕ) (gs : List Bytes) → IsAscii c → All IsAsciiText gs → All IsAsciiText (cons_char c gs)
unfolding cons_char
cons_char-All c [] a h = ((a, tt), tt)
cons_char-All c (g ∷ gs) a h = ground (arith, a, h)

chars-All : (s : Bytes) → IsAsciiText s → All IsAsciiText (chars s)
unfolding chars
chars-All [] h = tt
chars-All (c ∷ s) h = cons_char-All c (chars s) h.0 (chars-All s h.1)

drop_whitespace-All : (gs : List Bytes) → All IsAsciiText gs → All IsAsciiText (drop_whitespace gs)
unfolding drop_whitespace
drop_whitespace-All [] h = tt
drop_whitespace-All (g ∷ gs) h =
    if_lem (All IsAsciiText) (is_whitespace g) (drop_whitespace gs) (g ∷ gs)
      (drop_whitespace-All gs h.1) h

reverse-All : (gs : List Bytes) → All IsAsciiText gs → All IsAsciiText (reverse gs)
reverse-All [] h = tt
reverse-All (g ∷ gs) h =
    rw (reverse-cons g gs)
      (All-append IsAsciiText (reverse gs) (g ∷ []) (reverse-All gs h.1) (h.0, tt))

flatten-All : (gs : List Bytes) → All IsAsciiText gs → IsAsciiText (flatten gs)
unfolding flatten
flatten-All [] h = tt
flatten-All (g ∷ gs) h = All-append IsAscii g (flatten gs) h.0 (flatten-All gs h.1)

trim-All : (s : Bytes) → IsAsciiText s → IsAsciiText (trim s)
unfolding trim
trim-All s h = flatten-All _ (
    reverse-All _
      (drop_whitespace-All _ (reverse-All _ (drop_whitespace-All (chars s) (chars-All s h)))))

push_command-All :
    (cmd : Bytes) (history : List Bytes)
    → IsAsciiText cmd
    → All IsAsciiText history
    → All IsAsciiText (push_command cmd history)
unfolding push_command
push_command-All cmd history a h =
    let longer = history ++ cmd ∷ [] in
    if_lem (All IsAsciiText) (is_empty cmd) history
      (if ends_with cmd history then history else longer) h
      (if_lem (All IsAsciiText) (ends_with cmd history) history longer h
        (All-append IsAsciiText history (cmd ∷ []) h (a, tt)))

-- What Enter makes of the line before it is executed.
pub add_to_history-IsSound :
    (s : AppState) → IsSound s → IsSound (clear_input (add_to_history s.input s))
unfolding add_to_history
add_to_history-IsSound s h = (
  tt,
  omega arith,
  tt,
  push_command-All (trim s.input) s.command_history (trim-All s.input h.0) h.3,
  tt,
)
