-- ===== src/Parser.antt =====
-- parser.rs: the slice parser. The slice from `pos` on is a list of its own, so each step carries
-- the position and the bytes that are left, and `len` is the length of the whole input.
pub mod Headers
pub mod Consumed
pub mod Extension
use iridium_stomp.Base.{
  ℕ, suc, ◌+◌, ◌-◌, Bool, true, false, ◌||◌, List, [], ◌∷◌, ◌++◌, Option, none, some, Result, ok,
  err, ◌>>=◌, leb, ltb, ◌==◌, if◌then◌else◌, length, take, drop, is_empty,
}
use iridium_stomp.Base.Text.Utf8.{Bytes, codes, is_utf8, trim}
use iridium_stomp.Base.Text.Ascii.{eq_ignore_ascii_case}
use iridium_stomp.Base.Text.Decimal.{parse_u64, u64_size}
use iridium_stomp.Frame.{Header}
use Headers.{header_lines, HeaderLines, incomplete, malformed, complete, split_once}

-- The messages of the parser's errors, with the values that they print.
pub data ParseError : Type 0 where
  incomplete_escape : ParseError
  invalid_escape : ℕ → ParseError
  content_length_not_utf8 : ParseError
  empty_content_length : ParseError
  invalid_content_length : Bytes → ParseError
  body_exceeds : ℕ → ℕ → ParseError
  malformed_header : Bytes → ParseError
  content_length_exceeds : ℕ → ℕ → ParseError
  content_length_too_large : ParseError
  missing_nul : ParseError

pub record Parsed : Type 0 where
  pub command : Bytes
  pub headers : List Header
  pub body : Option Bytes
  pub consumed : ℕ

abbrev pub ParseResult : Type 0
ParseResult = Result (Option Parsed) ParseError

-- What an escape sequence with this second byte stands for.
unfoldable pub unescape_byte : ℕ → Result ℕ ParseError
unescape_byte c =
    if c == b'\\'
    then ok b'\\'
    else if c == b'n'
    then ok b'\n'
    else if c == b'r'
    then ok b'\r'
    else if c == b'c'
    then ok b':'
    else err (invalid_escape c)

unfoldable pub unescape_onto : Bytes → Bytes → Result Bytes ParseError
unfolding unescape_byte
unescape_onto [] out = ok out
unescape_onto (c ∷ []) out = if c == b'\\' then err incomplete_escape else ok (out ++ c ∷ [])
unescape_onto (c ∷ d ∷ s) out = elim (c == b'\\') [
  | true ↦ unescape_byte d >>= λ e. unescape_onto s (out ++ e ∷ [])
  | false ↦ unescape_onto (d ∷ s) (out ++ c ∷ [])
]

unfoldable pub unescape_header_value : Bytes → Result Bytes ParseError
unfolding unescape_onto
unescape_header_value input = unescape_onto input []

-- The value of a `content-length` header.
unfoldable pub content_length_of : Bytes → Result ℕ ParseError
content_length_of v =
    if is_utf8 v
    then (if is_empty (trim v) then err empty_content_length else elim (parse_u64 (trim v)) [
      | some n ↦ ok n
      | none ↦ err (invalid_content_length (trim v))
    ])
    else err content_length_not_utf8

unfoldable pub get_content_length : List Header → Result (Option ℕ) ParseError
get_content_length [] = ok none
get_content_length ((k, v) ∷ hs) =
    if eq_ignore_ascii_case k (codes "content-length")
    then (content_length_of v >>= λ n. ok (some n))
    else get_content_length hs

abbrev pub default_max_frame_size : ℕ
default_max_frame_size = 16777216

-- `pos < len && input[pos] == b'\n'`, and the step past it.
unfoldable pub skip_one_lf : ℕ → Bytes → ℕ
skip_one_lf pos [] = pos
skip_one_lf pos (c ∷ s) = if c == b'\n' then pos + 1 else pos

unfoldable pub skip_lfs : ℕ → Bytes → ℕ × Bytes
skip_lfs pos [] = (pos, [])
skip_lfs pos (c ∷ s) = elim (c == b'\n') [ true ↦ skip_lfs (pos + 1) s | false ↦ (pos, c ∷ s) ]

-- `checked_add` on `usize`.
abbrev pub checked_add : ℕ → ℕ → Option ℕ
checked_add a b = if ltb (a + b) u64_size then some (a + b) else none

-- A body that ends at the first NUL.
unfoldable pub nul_body : ℕ → Bytes → List Header → ℕ → Bytes → ParseResult
unfolding skip_one_lf
nul_body max_frame_size command headers pos rest = elim (split_once 0 rest) [
  | none ↦ ok none
  | some (body, after) ↦
      if ltb max_frame_size (length body)
      then err (body_exceeds (length body) max_frame_size)
      else ok (
          some (record {
            command = command;
            headers = headers;
            body = if is_empty body then none else some body;
            consumed = skip_one_lf (pos + length body + 1) after;
          }))
]

-- The byte behind a body of announced length must be NUL.
unfoldable pub expect_nul : Bytes → List Header → Bytes → ℕ → Bytes → ParseResult
unfolding skip_one_lf
expect_nul command headers body pos [] = err missing_nul
expect_nul command headers body pos (c ∷ after) =
    if c == 0
    then ok (
        some (record {
          command = command;
          headers = headers;
          body = some body;
          consumed = skip_one_lf (pos + 1) after;
        }))
    else err missing_nul

unfoldable pub sized_body : ℕ → ℕ → Bytes → List Header → ℕ → ℕ → Bytes → ParseResult
unfolding expect_nul
sized_body max_frame_size len command headers content_len pos rest =
    if ltb max_frame_size content_len
    then err (content_length_exceeds content_len max_frame_size)
    else elim (checked_add pos content_len) [
      | none ↦ err content_length_too_large
      | some n ↦ elim (checked_add n 1) [
        | none ↦ err content_length_too_large
        | some needed ↦
            if ltb len needed
            then ok none
            else expect_nul command headers (take content_len rest) (pos + content_len)
                (drop content_len rest)
      ]
    ]

unfoldable pub parse_body : ℕ → ℕ → Bytes → List Header → ℕ → Bytes → ParseResult
unfolding nul_body sized_body
parse_body max_frame_size len command headers pos rest = get_content_length headers >>= λ cl.
    elim cl [
      | some content_len ↦ sized_body max_frame_size len command headers content_len pos rest
      | none ↦ nul_body max_frame_size command headers pos rest
    ]

unfoldable pub after_headers : ℕ → ℕ → Bytes → HeaderLines → ParseResult
unfolding parse_body
after_headers max_frame_size len command incomplete = ok none
after_headers max_frame_size len command (malformed line) = err (malformed_header line)
after_headers max_frame_size len command (complete headers pos rest) =
    parse_body max_frame_size len command headers pos rest

-- The command line, or a bare body where the input holds no LF.
unfoldable pub parse_at : ℕ → ℕ → ℕ → Bytes → ParseResult
unfolding after_headers nul_body header_lines Headers.strip_cr
parse_at max_frame_size len pos input = elim (split_once b'\n' input) [
  | some (line, rest) ↦
      after_headers max_frame_size len (Headers.strip_cr line)
        (header_lines [] (pos + length line + 1) [] rest)
  | none ↦ nul_body max_frame_size [] [] pos input
]

unfoldable pub parse_frame_slice_bounded : Bytes → ℕ → ParseResult
unfolding parse_at skip_lfs
parse_frame_slice_bounded input max_frame_size =
    let (pos, rest) = skip_lfs 0 input in parse_at max_frame_size (length input) pos rest

unfoldable pub parse_frame_slice : Bytes → ParseResult
unfolding parse_frame_slice_bounded
parse_frame_slice input = parse_frame_slice_bounded input default_max_frame_size
