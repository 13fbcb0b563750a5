-- ===== src/Parser/Headers.antt =====
-- The parser's loop over the header lines, up to the blank line.
use iridium_stomp.Base.{
  ℕ, ◌+◌, true, false, List, [], ◌∷◌, ◌++◌, Option, none, some, ◌==◌, if◌then◌else◌,
}
use iridium_stomp.Base.Text.Utf8.{Bytes}
use iridium_stomp.Frame.{Header}

-- `position(|b| b == sep)`, as the bytes before and behind the first separator.
unfoldable pub split_once : ℕ → Bytes → Option (Bytes × Bytes)
split_once sep [] = none
split_once sep (c ∷ s) = elim (c == sep) [
  | true ↦ some ([], s)
  | false ↦ elim (split_once sep s) [ none ↦ none | some (p, r) ↦ some (c ∷ p, r) ]
]

-- A line without one CR at its end.
unfoldable pub strip_cr : Bytes → Bytes
strip_cr [] = []
strip_cr (c ∷ []) = if c == b'\r' then [] else c ∷ []
strip_cr (c ∷ d ∷ s) = c ∷ strip_cr (d ∷ s)

-- How the loop ends: more bytes are needed, a line has no colon, or the blank line was read.
pub data HeaderLines : Type 0 where
  incomplete : HeaderLines
  malformed : Bytes → HeaderLines
  complete : List Header → ℕ → Bytes → HeaderLines

-- The scan for the end of a line is part of the loop: `line` holds the bytes since its start, so
-- an LF with `line` empty is the blank line.
unfoldable pub header_lines : Bytes → ℕ → List Header → Bytes → HeaderLines
unfolding split_once strip_cr
header_lines line pos headers [] = incomplete
header_lines line pos headers (c ∷ rest) = elim (c == b'\n') [
  | false ↦ header_lines (line ++ c ∷ []) (pos + 1) headers rest
  | true ↦ elim line [
    | [] ↦ complete headers (pos + 1) rest
    | l ∷ ls ↦ elim (split_once b':' (strip_cr (l ∷ ls))) [
      | none ↦ malformed (strip_cr (l ∷ ls))
      | some (key, val) ↦ header_lines [] (pos + 1) (headers ++ (key, val) ∷ []) rest
    ]
  ]
]
