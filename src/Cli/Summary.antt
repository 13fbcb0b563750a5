-- ===== src/Cli/Summary.antt =====
-- src/bin/cli/state.rs: the session summary and the report. Dates are printed by chrono, which is
-- not part of the repository: its two formats are arguments, as is the end time.
use iridium_stomp.Base.{
  ℕ, ◌+◌, ◌-◌, ◌/◌, ◌%◌, max, min, Bool, false, not, ◌&&◌, List, [], ◌∷◌, ◌++◌, map, ltb,
  if◌then◌else◌, length, is_empty,
}
use iridium_stomp.Base.Maps.{Map}
use iridium_stomp.Base.Text.Decimal.{to_string}
use iridium_stomp.Base.Text.Utf8.{Bytes, codes, chars}
use iridium_stomp.Cli.State.{SubStats, DisplayMessage, AppState, total_message_count}
use iridium_stomp.Cli.Text.{copies, truncate_str}
use mathlib.Core.List.{flatten}

-- `"%Y-%m-%d %H:%M:%S"` and `"%H:%M:%S"` of a reading of the clock.
pub record Formats : Type 0 where
  pub date_time : ℕ → Bytes
  pub clock_time : ℕ → Bytes

-- U+2550 and U+2500, lines of 79.
abbrev pub heavy_line : Bytes
heavy_line = flatten (copies 79 (0xe2 ∷ 0x95 ∷ 0x90 ∷ []))

abbrev pub light_bar : Bytes
light_bar = 0xe2 ∷ 0x94 ∷ 0x80 ∷ []

abbrev pub light_line : Bytes
light_line = flatten (copies 79 light_bar)

-- `{:width$}` and `{:>width$}`, which count characters.
unfoldable pub pad_right : ℕ → Bytes → Bytes
pad_right width s = s ++ flatten (copies (width - length (chars s)) (codes " "))

unfoldable pub pad_left : ℕ → Bytes → Bytes
pad_left width s = flatten (copies (width - length (chars s)) (codes " ")) ++ s

-- `sort_by_key` with the greatest count first, which keeps the order of equal ones.
unfoldable pub insert_by_count : Bytes × SubStats → Map SubStats → Map SubStats
insert_by_count x [] = x ∷ []
insert_by_count x (y ∷ ys) =
    let later = y ∷ insert_by_count x ys in
    if ltb x.1.message_count y.1.message_count then later else x ∷ y ∷ ys

unfoldable pub sort_by_count : Map SubStats → Map SubStats
unfolding insert_by_count
sort_by_count [] = []
sort_by_count (x ∷ xs) = insert_by_count x (sort_by_count xs)

unfoldable pub longest : Map SubStats → ℕ
longest [] = 0
longest ((d, stats) ∷ m) = max (length d) (longest m)

-- `max().unwrap_or(20).min(40)`
unfoldable pub max_dest_len : Map SubStats → ℕ
unfolding longest
max_dest_len m = min (if is_empty m then 20 else longest m) 40

abbrev row : ℕ → Bytes → ℕ → Bytes
row width name n = codes "    " ++ (pad_right width name ++ (b' ' ∷ pad_left 6 (to_string n)))

unfoldable pub subscription_lines : Map SubStats → ℕ → List Bytes
unfolding pad_right pad_left
subscription_lines subs width = map (λ d. row width (truncate_str d.0 width) d.1.message_count) subs

unfoldable pub message_line : Formats → ℕ → DisplayMessage → Bytes
message_line formats max_width m =
    let prefix : Bytes =
      codes "  "
      ++ (formats.clock_time m.timestamp ++ (codes " [" ++ (m.destination ++ codes "] "))) in
    prefix ++ truncate_str m.body (max_width - length prefix)

unfoldable pub history_lines : Formats → ℕ → List DisplayMessage → List Bytes
unfolding message_line
history_lines formats max_width messages =
    []
    ∷ light_line
    ∷ codes "  Message History"
    ∷ light_line
    ∷ map (message_line formats max_width) messages

abbrev pub join : List Bytes → Bytes
join [] = []
join (l ∷ []) = l
join (l ∷ k ∷ ls) = l ++ (b'\n' ∷ join (k ∷ ls))

unfoldable pub summary_lines : Formats → ℕ → Bool → ℕ → AppState → List Bytes
unfolding sort_by_count max_dest_len subscription_lines history_lines total_message_count pad_right
    pad_left
summary_lines formats end_time include_messages max_width s =
    let total_secs = end_time - s.start_time in
    let subs = sort_by_count s.subscriptions in
    let width = max_dest_len subs in
    (heavy_line
      ∷ codes "  iridium-stomp Session Report"
      ∷ heavy_line
      ∷ (codes "  Host:       " ++ s.host)
      ∷ (codes "  User:       " ++ s.user)
      ∷ (codes "  Started:    " ++ formats.date_time s.start_time)
      ∷ (codes "  Ended:      " ++ formats.date_time end_time)
      ∷ (codes "  Duration:   "
          ++ (to_string (total_secs / 60)
              ++ (codes "m " ++ (to_string (total_secs % 60) ++ codes "s"))))
      ∷ []
      ∷ codes "  Subscriptions:"
      ∷ subscription_lines subs width)
    ++ (((codes "    " ++ flatten (copies (width + 7) light_bar))
          ∷ row width (codes "Total") (total_message_count s)
          ∷ []
          ∷ (codes "  Heartbeats received: " ++ to_string s.heartbeat_count)
          ∷ [])
        ++ ((if include_messages && not (is_empty s.messages)
              then history_lines formats max_width s.messages
              else [])
            ++ (heavy_line ∷ [])))

unfoldable pub generate_summary_with_options : Formats → ℕ → Bool → ℕ → AppState → Bytes
unfolding summary_lines
generate_summary_with_options formats end_time include_messages max_width s =
    join (summary_lines formats end_time include_messages max_width s)

unfoldable pub generate_summary : Formats → ℕ → AppState → Bytes
unfolding generate_summary_with_options
generate_summary formats end_time s = generate_summary_with_options formats end_time false 80 s
