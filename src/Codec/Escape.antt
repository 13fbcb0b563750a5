-- ===== src/Codec/Escape.antt =====
-- Escaping of header text, undone by the parser.
use iridium_stomp.Base.{
  ℕ, [], ◌∷◌, ◌++◌, ◌≡◌, ◌≢◌, refl, ◌∙◌, ok, append_assoc, append-nil, arith, All, All-append,
}
use iridium_stomp.Base.Text.Utf8.{Bytes}
use iridium_stomp.Base.Text.Ascii.{eq_ignore_ascii_case, to_ascii_lowercase}
use iridium_stomp.Parser.{unescape_onto, unescape_header_value}
use iridium_stomp.Codec.{escape_byte, escape_header_value}

unescape_onto-escape_byte :
    (c : ℕ) (rest out : Bytes)
    → unescape_onto (escape_byte c ++ rest) out ≡ unescape_onto rest (out ++ c ∷ [])
unfolding unescape_onto escape_byte
unescape_onto-escape_byte c [] out = ground arith
unescape_onto-escape_byte c (d ∷ s) out = ground arith

unescape_onto-escape : (s out : Bytes) → unescape_onto (escape_header_value s) out ≡ ok (out ++ s)
unfolding escape_header_value
unescape_onto-escape [] out = unfold unescape_onto in rw append-nil
unescape_onto-escape (c ∷ s) out =
    unescape_onto-escape_byte c (escape_header_value s) out
    ∙ unescape_onto-escape s (out ++ c ∷ [])
    ∙ rw append_assoc

-- The parser's unescaping undoes the codec's escaping, whatever bytes the text holds.
pub unescape-escape : (s : Bytes) → unescape_header_value (escape_header_value s) ≡ ok s
unfolding unescape_header_value
unescape-escape s = unescape_onto-escape s []

-- The bytes that would break a header line.
abbrev pub IsPlain : ℕ → Type 0
IsPlain c = (c ≢ b'\n') × (c ≢ b'\r') × (c ≢ b':')

escape_byte-IsPlain : (c : ℕ) → All IsPlain (escape_byte c)
unfolding escape_byte
escape_byte-IsPlain c = ground arith

pub escape-IsPlain : (s : Bytes) → All IsPlain (escape_header_value s)
unfolding escape_header_value
escape-IsPlain [] = tt
escape-IsPlain (c ∷ s) =
    All-append IsPlain (escape_byte c) _ (escape_byte-IsPlain c) (escape-IsPlain s)

-- A byte that escaping leaves alone, and that is no upper case letter.
abbrev pub IsNameByte : ℕ → Type 0
IsNameByte c = IsPlain c × (c ≢ b'\\') × (to_ascii_lowercase c ≡ c)

-- Escaping neither makes nor hides a header of a name that needs no escaping.
pub eq_ignore_ascii_case-escape :
    (s p : Bytes)
    → All IsNameByte p
    → eq_ignore_ascii_case (escape_header_value s) p ≡ eq_ignore_ascii_case s p
unfolding escape_header_value escape_byte eq_ignore_ascii_case
eq_ignore_ascii_case-escape [] p h = refl
eq_ignore_ascii_case-escape (c ∷ s) [] h = ground arith
eq_ignore_ascii_case-escape (c ∷ s) (x ∷ p) h = ground (arith, eq_ignore_ascii_case-escape s p h.1)
