-- ===== src/Codec.antt =====
-- codec.rs: `StompCodec`'s encoder and decoder over a buffer of bytes. A `BytesMut` is the list of
-- its unread bytes, and `advance` drops from its front.
pub mod Escape
pub mod Lines
pub mod Length
pub mod Body
pub mod RoundTrip
pub mod Progress
use iridium_stomp.Base.{
  ℕ, Bool, not, ◌&&◌, ◌||◌, List, [], ◌∷◌, ◌++◌, Option, none, some, Result, ok, err, ◌>>=◌,
  map_err, ltb, ◌==◌, if◌then◌else◌, length, drop, any, unwrap_or,
}
use iridium_stomp.Base.Text.Utf8.{Bytes, codes, is_utf8}
use iridium_stomp.Base.Text.Ascii.{lowercase_is}
use iridium_stomp.Base.Text.Decimal.{to_string}
use iridium_stomp.Frame.{Frame, Header}
use iridium_stomp.Parser.{
  ParseError, Parsed, unescape_header_value, parse_frame_slice_bounded, default_max_frame_size,
}

pub data StompItem : Type 0 where
  frame : Frame → StompItem
  heartbeat : StompItem

-- The `io::Error`s, all of kind `InvalidData`.
pub data CodecError : Type 0 where
  frame_size_exceeds : ℕ → ℕ → CodecError
  frame_exceeds : ℕ → CodecError
  parse_error : ParseError → CodecError
  command_not_utf8 : CodecError
  header_key_escape header_value_escape : ParseError → CodecError
  header_key_not_utf8 header_value_not_utf8 : CodecError

pub record StompCodec : Type 0 where
  pub max_frame_size : ℕ

abbrev pub new : StompCodec
new = record { max_frame_size = default_max_frame_size }

abbrev pub with_max_frame_size : ℕ → StompCodec
with_max_frame_size n = record { max_frame_size = n }

-- The characters that are escaped are ASCII, and in UTF-8 each is a byte of its own, so the loop
-- over the characters is one over the bytes.
unfoldable pub escape_byte : ℕ → Bytes
escape_byte c =
    if c == b'\\'
    then b'\\' ∷ b'\\' ∷ []
    else if c == b'\r'
    then b'\\' ∷ b'r' ∷ []
    else if c == b'\n'
    then b'\\' ∷ b'n' ∷ []
    else if c == b':'
    then b'\\' ∷ b'c' ∷ []
    else c ∷ []

unfoldable pub escape_header_value : Bytes → Bytes
unfolding escape_byte
escape_header_value [] = []
escape_header_value (c ∷ s) = escape_byte c ++ escape_header_value s

-- The header line of `k` and `v`.
unfoldable pub encode_header : Header → Bytes
unfolding escape_header_value
encode_header (k, v) = escape_header_value k ++ (b':' ∷ (escape_header_value v ++ b'\n' ∷ []))

unfoldable pub encode_headers : List Header → Bytes
unfolding encode_header
encode_headers [] = []
encode_headers (h ∷ hs) = encode_header h ++ encode_headers hs

abbrev pub is_content_length : Header → Bool
is_content_length (k, v) = lowercase_is k (codes "content-length")

-- The headers as written: a body that holds a NUL or is no text gets a `content-length`.
unfoldable pub wire_headers : Frame → List Header
wire_headers f =
    if not (any is_content_length f.headers) && (any (λ c. c == 0) f.body || not (is_utf8 f.body))
    then f.headers ++ (codes "content-length", to_string (length f.body)) ∷ []
    else f.headers

-- The bytes that `encode` appends to the destination.
unfoldable pub encode : StompItem → Bytes
unfolding encode_headers wire_headers
encode heartbeat = b'\n' ∷ []
encode (frame f) =
    f.command ++ (b'\n' ∷ (encode_headers (wire_headers f) ++ (b'\n' ∷ (f.body ++ 0 ∷ []))))

-- `String::from_utf8`
abbrev pub from_utf8 : CodecError → Bytes → Result Bytes CodecError
from_utf8 e s = if is_utf8 s then ok s else err e

-- One pass of the loop over the raw headers.
unfoldable pub decode_header : Header → Result Header CodecError
decode_header (k, v) = do
  k_unescaped ← map_err header_key_escape (unescape_header_value k)
  ks ← from_utf8 header_key_not_utf8 k_unescaped
  v_unescaped ← map_err header_value_escape (unescape_header_value v)
  vs ← from_utf8 header_value_not_utf8 v_unescaped
  ok (ks, vs)

unfoldable pub decode_headers : List Header → Result (List Header) CodecError
unfolding decode_header
decode_headers [] = ok []
decode_headers (h ∷ hs) = decode_header h >>= λ d. decode_headers hs >>= λ ds. ok (d ∷ ds)

unfoldable pub frame_of : Parsed → Result Frame CodecError
unfolding decode_headers
frame_of p = do
  command ← from_utf8 command_not_utf8 p.command
  headers ← decode_headers p.headers
  ok (record { command = command; headers = headers; body = unwrap_or p.body [] })

-- The outcome of a call of `decode`, and the buffer that it leaves.
abbrev pub Decoded : Type 0
Decoded = Result (Option StompItem) CodecError × Bytes

-- `source` is the buffer, and `chunk` the same bytes.
unfoldable pub decode_frame : StompCodec → Bytes → Decoded
decode_frame codec source = elim (parse_frame_slice_bounded source codec.max_frame_size) [
  | ok (some p) ↦
      if ltb codec.max_frame_size p.consumed
      then (err (frame_size_exceeds p.consumed codec.max_frame_size), source)
      else ((frame_of p >>= λ f. ok (some (frame f))), drop p.consumed source)
  | ok none ↦
      if ltb codec.max_frame_size (length source)
      then (err (frame_exceeds codec.max_frame_size), source)
      else (ok none, source)
  | err e ↦ (err (parse_error e), source)
]

-- After a CR at the front of the buffer `source`, by the byte behind it.
unfoldable pub decode_cr : StompCodec → Bytes → Bytes → Decoded
unfolding decode_frame
decode_cr codec source [] = (ok none, source)
decode_cr codec source (c ∷ s) =
    if c == b'\n' then (ok (some heartbeat), s) else decode_frame codec source

unfoldable pub decode : StompCodec → Bytes → Decoded
unfolding decode_cr
decode codec [] = decode_frame codec []
decode codec (c ∷ s) =
    if c == b'\n'
    then (ok (some heartbeat), s)
    else if c == b'\r'
    then decode_cr codec (c ∷ s) s
    else decode_frame codec (c ∷ s)
