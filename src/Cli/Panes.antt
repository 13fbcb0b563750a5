-- ===== src/Cli/Panes.antt =====
-- src/bin/cli/tui.rs: what the panes of the full-screen client show. How ratatui lays the panes out
-- and draws them is not part of the repository: the size of a pane is an argument, and its lines are
-- the result.
pub mod Fits
use iridium_stomp.Base.{
  ℕ, zero, suc, ◌+◌, ◌-◌, ◌/◌, ◌%◌, Bool, true, false, not, ◌&&◌, List, [], ◌∷◌, ◌++◌, Option, none,
  some, ltb, leb, ◌==◌, if◌then◌else◌, length, drop, take, is_empty, map,
}
use iridium_stomp.Base.Maps.{Map}
use iridium_stomp.Base.Text.Decimal.{u64_size, to_string}
use iridium_stomp.Base.Text.Utf8.{Bytes, bytes_eq, codes, chars}
use iridium_stomp.Cli.State.{
  SubStats, DisplayMessage, AppState, Indicator, star, diamond, late, circle, heartbeat_indicator,
  session_duration, total_message_count,
}
use iridium_stomp.Cli.Summary.{Formats}
use iridium_stomp.Cli.Text.{truncate_str, char_wrap, copies}
use iridium_stomp.Frame.{Header}
use mathlib.Core.List.{flatten}

pub data Color : Type 0 where
  green red yellow cyan blue dark_gray : Color

pub record Style : Type 0 where
  pub fg : Option Color
  pub bold : Bool

abbrev pub plain : Style
plain = record { fg = none; bold = false }

abbrev pub colored : Color → Style
colored c = record { fg = some c; bold = false }

abbrev pub bold_colored : Color → Style
bold_colored c = record { fg = some c; bold = true }

pub record Span : Type 0 where
  pub text : Bytes
  pub style : Style

abbrev pub Line : Type 0
Line = List Span

abbrev pub styled : Bytes → Style → Span
styled text style = record { text = text; style = style }

abbrev pub raw : Bytes → Span
raw text = styled text plain

-- The first message that is shown: the pane follows the newest one while the offset is 0.
unfoldable pub first_visible : ℕ → ℕ → ℕ → ℕ
first_visible offset total height =
    if offset == 0 && ltb height total then total - height else offset

-- The styles of the destination and of the body, and how much of the body is shown.
unfoldable pub look : Bytes → Style × Style × ℕ
look d =
    if bytes_eq d (codes "ERROR")
    then (bold_colored red, colored red, 200)
    else if bytes_eq d (codes "BROKER ERROR")
    then (bold_colored red, colored red, 200)
    else if bytes_eq d (codes "WARN")
    then (colored yellow, colored yellow, 120)
    else if bytes_eq d (codes "INFO")
    then (colored cyan, colored dark_gray, 80)
    else if bytes_eq d (codes "SENT")
    then (colored blue, plain, 60)
    else (colored cyan, plain, 60)

-- The end of a destination that is too long.
unfoldable pub short_destination : Bytes → Bytes
short_destination d =
    let n = length (chars d) in
    if ltb 20 n then codes "..." ++ flatten (drop (n - 17) (chars d)) else d

unfoldable pub message_line : Formats → DisplayMessage → Line
unfolding look short_destination
message_line formats m =
    let (dest_style, body_style, max_body_len) = look m.destination in
    styled (formats.clock_time m.timestamp) (colored dark_gray)
    ∷ raw (codes " [")
    ∷ styled (short_destination m.destination) dest_style
    ∷ raw (codes "] ")
    ∷ styled (truncate_str m.body max_body_len) body_style
    ∷ []

-- Lines are added until the pane is full.
unfoldable pub push_lines : ℕ → List Line → List Line → List Line
push_lines height lines [] = lines
push_lines height lines (x ∷ xs) =
    let more = push_lines height (lines ++ x ∷ []) xs in
    if leb height (length lines) then lines else more

abbrev pub header_text : Bytes → Header → Bytes
header_text indent (k, v) = indent ++ (k ++ (codes ": " ++ v))

abbrev pub gray_line : Bytes → Line
gray_line text = styled text (colored dark_gray) ∷ []

abbrev header_line : Header → Line
header_line h = gray_line (truncate_str (header_text (codes "    ") h) 70)

unfoldable pub push_message : Formats → Bool → ℕ → List Line → DisplayMessage → List Line
unfolding message_line
push_message formats show_headers height lines m =
    let shown = lines ++ message_line formats m ∷ [] in
    if show_headers && not (is_empty m.headers)
    then push_lines height shown (map header_line m.headers)
    else shown

-- The loop over the messages from the first visible one.
unfoldable pub push_messages : Formats → Bool → ℕ → List Line → List DisplayMessage → List Line
unfolding push_message push_lines
push_messages formats show_headers height lines [] = lines
push_messages formats show_headers height lines (m ∷ ms) =
    let more =
      push_messages formats show_headers height (push_message formats show_headers height lines m)
        ms in
    if leb height (length lines) then lines else more

unfoldable pub message_lines : Formats → ℕ → AppState → List Line
unfolding first_visible push_messages
message_lines formats height s =
    let skipped = first_visible s.scroll_offset (length s.messages) height in
    push_messages formats s.show_headers height [] (drop skipped s.messages)

abbrev pub red_line : Bytes → Bytes → Line
red_line indent text = raw indent ∷ styled text (colored red) ∷ []

abbrev pub first_chunk : List Bytes → Bytes
first_chunk [] = []
first_chunk (c ∷ cs) = c

-- The lines of the headers of an error, each wrapped at the width of the pane.
abbrev pub wrapped_headers : ℕ → List Header → List Line
wrapped_headers width [] = []
wrapped_headers width (h ∷ hs) =
    map gray_line (char_wrap (header_text (codes "  ") h) width) ++ wrapped_headers width hs

abbrev pub indent : Bytes
indent = codes "         "

abbrev first_len : Formats → ℕ → DisplayMessage → ℕ
first_len formats width e = width - (length (formats.clock_time e.timestamp) + 1)

-- The first line of an error, beside the time.
abbrev pub first_line : Formats → ℕ → DisplayMessage → Line
first_line formats width e =
    styled (formats.clock_time e.timestamp) (colored dark_gray)
    ∷ raw (codes " ")
    ∷ styled (first_chunk (char_wrap e.body (first_len formats width e))) (colored red)
    ∷ []

-- The other lines, which are indented.
abbrev pub rest_lines : Formats → ℕ → DisplayMessage → List Line
rest_lines formats width e =
    let tail = flatten (drop (first_len formats width e) (chars e.body)) in
    map (red_line indent) (char_wrap tail (width - length indent))

-- One error, with a blank line behind it if there is room.
unfoldable pub push_error : Formats → Bool → ℕ → ℕ → List Line → DisplayMessage → List Line
push_error formats show_headers width height lines e =
    let l1 =
      push_lines height (lines ++ first_line formats width e ∷ []) (rest_lines formats width e) in
    let l2 = if show_headers then push_lines height l1 (wrapped_headers width e.headers) else l1 in
    push_lines height l2 ((raw [] ∷ []) ∷ [])

unfoldable pub push_errors : Formats → Bool → ℕ → ℕ → List Line → List DisplayMessage → List Line
unfolding push_error push_lines
push_errors formats show_headers width height lines [] = lines
push_errors formats show_headers width height lines (e ∷ es) =
    let more =
      push_errors formats show_headers width height
        (push_error formats show_headers width height lines e) es in
    if leb height (length lines) then lines else more

unfoldable pub error_lines : Formats → ℕ → ℕ → AppState → List Line
unfolding first_visible push_errors
error_lines formats width height s =
    let skipped = first_visible s.error_scroll_offset (length s.errors) height in
    push_errors formats s.show_headers width height [] (drop skipped s.errors)
