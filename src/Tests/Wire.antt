-- ===== src/Tests/Wire.antt =====
-- The wire format: parser.rs and codec.rs.
use mathlib.Core.List.{flatten}
use iridium_stomp.Base.Text.Ascii.{lowercase_is, eq_ignore_ascii_case}
use iridium_stomp.Codec.Body.{IsSendable}
use iridium_stomp.Codec.Escape.{unescape-escape}
use iridium_stomp.Codec.RoundTrip.{after_lf, received, decode-encode}
use iridium_stomp.Parser.Headers.{strip_cr, split_once}
use iridium_stomp.Parser.{
  skip_lfs, malformed_header, parse_frame_slice_bounded, get_content_length, content_length_of,
  unescape_header_value,
}
use iridium_stomp.Parser.Extension.{Stays, parse_frame-Stays}
use iridium_stomp.Codec.Progress.{Progress, decode-Progress}
use iridium_stomp.Codec.{
  StompCodec, with_max_frame_size, escape_header_value, frame_of, frame, heartbeat, new,
  parse_error, encode, decode,
}
use iridium_stomp.Base.{inl, arith, true, false, [], ◌∷◌, ◌++◌, none, some, ok, err, ◌≡◌, refl}
use iridium_stomp.Base.Text.Utf8.{Bytes, codes, is_utf8, trim}
use iridium_stomp.Base.Text.Decimal.{parse_u64, to_string}
use iridium_stomp.Frame.{Frame}

parse_u64_runs :
    (parse_u64 (codes "+42") ≡ some 42)
    × (parse_u64 (codes "18446744073709551616") ≡ none)
    × (to_string 1203 ≡ codes "1203")
    × (trim (codes " \t7\n") ≡ codes "7")
unfolding parse_u64 to_string trim flatten
parse_u64_runs = (refl, refl, refl, refl)

is_utf8_runs : (is_utf8 (0xe2 ∷ 0x82 ∷ 0xac ∷ []) ≡ true) × (is_utf8 (0xc0 ∷ 0x80 ∷ []) ≡ false)
unfolding is_utf8
is_utf8_runs = (refl, refl)

abbrev binary : Frame
binary = record {
  command = codes "SEND";
  headers = (codes "destination", codes "/queue/a:b") ∷ [];
  body = 1 ∷ 0 ∷ 2 ∷ [];
}

abbrev binary_bytes : Bytes
binary_bytes = codes "SEND\ndestination:/queue/a\\cb\ncontent-length:3\n\n" ++ 1 ∷ 0 ∷ 2 ∷ 0 ∷ []

encode-binary : encode (frame binary) ≡ binary_bytes
unfolding encode lowercase_is to_string
encode-binary = refl

decode-binary : decode new (binary_bytes ++ b'\n' ∷ b'M' ∷ []) ≡ (
  ok (
      some (
        frame (record binary {
          headers =
              (codes "destination", codes "/queue/a:b") ∷ (codes "content-length", codes "3") ∷ [];
        }))),
  b'M' ∷ [],
)
unfolding decode frame_of parse_frame_slice_bounded get_content_length eq_ignore_ascii_case
    content_length_of is_utf8 trim flatten parse_u64 unescape_header_value
decode-binary = refl

decode_incomplete : decode new (codes "SEND\ndest") ≡ (ok none, codes "SEND\ndest")
unfolding decode parse_frame_slice_bounded
decode_incomplete = refl

decode_heartbeats :
    (decode new (codes "\r\nA") ≡ (ok (some heartbeat), codes "A"))
    × (decode new (codes "\r") ≡ (ok none, codes "\r"))
unfolding decode parse_frame_slice_bounded
decode_heartbeats = (refl, refl)

decode_crlf :
    decode new (codes "CONNECTED\r\nversion:1.2\r\n\r\n" ++ 0 ∷ [])
    ≡ (err (parse_error (malformed_header [])), codes "CONNECTED\r\nversion:1.2\r\n\r\n" ++ 0 ∷ [])
unfolding decode parse_frame_slice_bounded
decode_crlf = refl

binary-IsSendable : IsSendable binary
unfolding strip_cr is_utf8 get_content_length escape_header_value eq_ignore_ascii_case
binary-IsSendable = record {
  command_ne_nil = λ e. cc;
  command_line = omega arith;
  command_no_cr = refl;
  command_utf8 = refl;
  texts = ((refl, refl), tt);
  own_length = inl refl;
}

decode-encode_example :
    decode new (encode (frame binary) ++ b'\n' ∷ b'M' ∷ [])
    ≡ (ok (some (frame (received binary))), after_lf (b'\n' ∷ b'M' ∷ []))
unfolding encode lowercase_is to_string
decode-encode_example =
    decode-encode new binary (b'\n' ∷ b'M' ∷ []) binary-IsSendable (omega arith) (omega arith)

unescape-escape_example :
    unescape_header_value (escape_header_value (codes "a:b\\n\r\n")) ≡ ok (codes "a:b\\n\r\n")
unescape-escape_example = unescape-escape (codes "a:b\\n\r\n")

abbrev small_codec : StompCodec
small_codec = with_max_frame_size 1024

decode-Progress_example :
    Progress 1024 (codes "SEND\ndest") (decode small_codec (codes "SEND\ndest"))
decode-Progress_example = decode-Progress small_codec (codes "SEND\ndest")

abbrev cut : Bytes
cut = codes "SEND\na:b\n\nhi" ++ 0 ∷ []

cut_line : split_once b'\n' (skip_lfs 0 cut).1 ≡ some (codes "SEND", codes "a:b\n\nhi" ++ 0 ∷ [])
unfolding split_once skip_lfs
cut_line = refl

parse_frame-Stays_example :
    Stays
      (parse_frame_slice_bounded cut 1024)
      (parse_frame_slice_bounded (cut ++ codes "\nMES") 1024)
parse_frame-Stays_example =
    parse_frame-Stays cut (codes "\nMES") (codes "SEND") (codes "a:b\n\nhi" ++ 0 ∷ []) 1024 cut_line
