-- ===== src/Cli/Bars.antt =====
-- src/bin/cli/tui.rs: the header bar, the table of counts and the input bar, as what is shown in them.
use iridium_stomp.Base.{
  ℕ, ◌+◌, ◌-◌, ◌/◌, ◌%◌, ◌^◌, Bool, true, false, ◌&&◌, ◌||◌, List, [], ◌∷◌, ◌++◌, map, Option, none,
  some, ltb, ◌==◌, if◌then◌else◌, is_empty,
}
use iridium_stomp.Base.Maps.{Map}
use iridium_stomp.Base.Text.Decimal.{u64_size, to_string}
use iridium_stomp.Base.Text.Utf8.{Bytes, codes}
use iridium_stomp.Cli.Panes.{
  Color, green, red, yellow, cyan, blue, dark_gray, Style, plain, colored, bold_colored, Line,
  styled, raw,
}
use iridium_stomp.Cli.State.{
  SubStats, AppState, Indicator, star, diamond, late, circle, heartbeat_indicator,
  total_message_count,
}
use iridium_stomp.Cli.Text.{copies}
use mathlib.Core.List.{flatten}

-- U+2726, U+25C7, `!` and U+25CB.
abbrev pub indicator_text : Indicator → Bytes
indicator_text star = 0xe2 ∷ 0x9c ∷ 0xa6 ∷ []
indicator_text diamond = 0xe2 ∷ 0x97 ∷ 0x87 ∷ []
indicator_text late = codes "!"
indicator_text circle = 0xe2 ∷ 0x97 ∷ 0x8b ∷ []

abbrev indicator_style : Indicator → Bool → Style
indicator_style i true = bold_colored green
indicator_style late false = colored red
indicator_style i false = colored dark_gray

-- `elapsed` is the time since the last heart-beat, in milliseconds.
unfoldable pub header_line : ℕ → AppState → Line
unfolding heartbeat_indicator
header_line elapsed s =
    let (indicator, is_pulsing) = heartbeat_indicator elapsed s in
    raw (codes " Host: " ++ (s.host ++ (codes "    User: " ++ (s.user ++ codes "    Heartbeat: "))))
    ∷ styled (indicator_text indicator) (indicator_style indicator is_pulsing)
    ∷ raw (codes " (" ++ (to_string (s.heartbeat_interval_ms / 1000) ++ codes "s)"))
    ∷ []

-- A row of the table: what is counted, how often, and its style.
pub record Row : Type 0 where
  pub label : Bytes
  pub value : Bytes
  pub style : Style

abbrev pub row : Bytes → Bytes → Style → Row
row label value style = record { label = label; value = value; style = style }

-- The order of strings, byte by byte.
unfoldable pub str_lt : Bytes → Bytes → Bool
str_lt [] [] = false
str_lt [] (d ∷ t) = true
str_lt (c ∷ s) [] = false
str_lt (c ∷ s) (d ∷ t) = ltb c d || c == d && str_lt s t

unfoldable pub insert_by_name : Bytes × SubStats → Map SubStats → Map SubStats
unfolding str_lt
insert_by_name x [] = x ∷ []
insert_by_name x (y ∷ ys) =
    let later = y ∷ insert_by_name x ys in if str_lt y.0 x.0 then later else x ∷ y ∷ ys

unfoldable pub sort_by_name : Map SubStats → Map SubStats
unfolding insert_by_name
sort_by_name [] = []
sort_by_name (x ∷ xs) = insert_by_name x (sort_by_name xs)

-- A count other than 0 has a row.
abbrev row_if : Bytes → ℕ → Color → List Row
row_if label n color = if ltb 0 n then row label (to_string n) (colored color) ∷ [] else []

-- The sum of all counters, as `u64`.
unfoldable pub total : AppState → ℕ
unfolding total_message_count
total s =
    (total_message_count s + s.sent_count + s.info_count + s.warning_count + s.error_count)
    % u64_size

abbrev rule : Bytes
rule = flatten (copies 9 (0xe2 ∷ 0x94 ∷ 0x80 ∷ []))

unfoldable pub count_rows : AppState → List Row
unfolding sort_by_name total
count_rows s =
    let counted =
      map (λ d. row d.0 (to_string d.1.message_count) (colored green))
        (sort_by_name s.subscriptions)
      ++ (row_if (codes "Sent") s.sent_count blue
          ++ (row_if (codes "Info") s.info_count cyan
              ++ (row_if (codes "Warnings") s.warning_count yellow
                  ++ row_if (codes "Errors") s.error_count red))) in
    if is_empty counted
    then []
    else counted
      ++ (row [] rule plain
          ∷ row (codes "Total") (to_string (total s)) (record { fg = none; bold = true })
          ∷ [])

-- The text of the input bar, and where the cursor is drawn, if it is inside. The bar's place and
-- width are `u16`.
unfoldable pub input_text : AppState → Bytes
input_text s = codes "> " ++ s.input

unfoldable pub cursor_position : ℕ → ℕ → ℕ → AppState → Option (ℕ × ℕ)
cursor_position x y width s =
    let cursor_x = (x + 3 + s.cursor_pos % 2 ^ 16) % 2 ^ 16 in
    if ltb cursor_x ((x + width + 2 ^ 16 - 1) % 2 ^ 16) then some (cursor_x, y + 1) else none
