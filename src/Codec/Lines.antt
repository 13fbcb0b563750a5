-- ===== src/Codec/Lines.antt =====
-- The parser's header loop reads the header lines that the encoder writes.
use native.Mathlib.Nat.{add-zero}
use iridium_stomp.Base.{
  ℕ, ◌+◌, List, [], ◌∷◌, ◌++◌, ◌≡◌, ◌≢◌, refl, sym, ap, ◌∙◌, ok, some, true, ap₂, append_assoc,
  append-nil, arith, map, All, All-append, length, length-append,
}
use iridium_stomp.Base.Text.Utf8.{Bytes, is_utf8}
use iridium_stomp.Base.Text.Bytes.{Lacks}
use iridium_stomp.Frame.{Header}
use iridium_stomp.Parser.Headers.{header_lines, split_once, strip_cr, complete}
use iridium_stomp.Codec.Escape.{IsPlain, escape-IsPlain, unescape-escape}
use iridium_stomp.Codec.{
  escape_header_value, encode_header, encode_headers, decode_header, decode_headers,
}

-- A header as the parser sees it, before it is unescaped.
abbrev pub raw : Header → Header
raw (k, v) = (escape_header_value k, escape_header_value v)

pub split_once-append :
    (b : ℕ) (p s : Bytes) → Lacks b p → split_once b (p ++ (b ∷ s)) ≡ some (p, s)
unfolding split_once
split_once-append b [] s h = ground arith
split_once-append b (c ∷ p) s h = ground (arith, split_once-append b p s h.1)

strip_cr-Lacks : (s : Bytes) → Lacks b'\r' s → strip_cr s ≡ s
unfolding strip_cr
strip_cr-Lacks [] h = refl
strip_cr-Lacks (c ∷ []) h = ground arith
strip_cr-Lacks (c ∷ d ∷ s) h = ap (◌∷◌ c) (strip_cr-Lacks (d ∷ s) h.1)

header_lines-append :
    (l line : Bytes) (pos : ℕ) (hs : List Header) (rest : Bytes)
    → Lacks b'\n' l
    → header_lines line pos hs (l ++ rest) ≡ header_lines (line ++ l) (pos + length l) hs rest
unfolding header_lines
header_lines-append [] line pos hs rest h = cc (append-nil line, add-zero pos)
header_lines-append (c ∷ l) line pos hs rest h = ground (
  arith,
  header_lines-append l (line ++ c ∷ []) (pos + 1) hs rest h.1,
  append_assoc line (c ∷ []) l,
)

header_lines-lf :
    (line k v : Bytes) (pos : ℕ) (hs : List Header) (rest : Bytes)
    → line ≢ []
    → split_once b':' (strip_cr line) ≡ some (k, v)
    → header_lines line pos hs (b'\n' ∷ rest) ≡ header_lines [] (pos + 1) (hs ++ (k, v) ∷ []) rest
unfolding header_lines
header_lines-lf [] k v pos hs rest ne h = absurd (ne refl)
header_lines-lf (c ∷ s) k v pos hs rest ne h = ground arith

IsPlain-Lacks : (b : ℕ) (s : Bytes) → ((c : ℕ) → IsPlain c → c ≢ b) → All IsPlain s → Lacks b s
IsPlain-Lacks b [] f h = tt
IsPlain-Lacks b (c ∷ s) f h = (f c h.0, IsPlain-Lacks b s f h.1)

-- The bytes of a header line, up to its LF.
abbrev line_of : Header → Bytes
line_of (k, v) = escape_header_value k ++ (b':' ∷ escape_header_value v)

line_of-Lacks :
    (b : ℕ) (h : Header) → b ≢ b':' → ((c : ℕ) → IsPlain c → c ≢ b) → Lacks b (line_of h)
line_of-Lacks b (k, v) ne f =
    All-append _ (escape_header_value k) _ (IsPlain-Lacks b _ f (escape-IsPlain k))
      ((λ e. ne (sym e)), IsPlain-Lacks b _ f (escape-IsPlain v))

split_line_of : (h : Header) → split_once b':' (strip_cr (line_of h)) ≡ some (raw h)
split_line_of (k, v) =
    rw (strip_cr-Lacks _ (line_of-Lacks b'\r' (k, v) (omega arith) (λ c p. p.1)))
      (split_once-append b':' _ _ (IsPlain-Lacks b':' _ (λ c p. p.2) (escape-IsPlain k)))

line_of-ne-nil : (h : Header) → line_of h ≢ []
line_of-ne-nil (k, v) e = absurd (
    omega
      (arith, ap length e, length-append (escape_header_value k) (b':' ∷ escape_header_value v)))

encode_header-line_of :
    (h : Header) (rest : Bytes) → encode_header h ++ rest ≡ line_of h ++ (b'\n' ∷ rest)
unfolding encode_header
encode_header-line_of (k, v) rest = simp append_assoc

length-encode_header : (h : Header) → length (encode_header h) ≡ length (line_of h) + 1
length-encode_header h = omega (
  arith,
  ap length (encode_header-line_of h []),
  length-append (encode_header h) [],
  length-append (line_of h) (b'\n' ∷ []),
)

header_lines-encode_header :
    (h : Header) (pos : ℕ) (hs : List Header) (rest : Bytes)
    → header_lines [] pos hs (encode_header h ++ rest)
      ≡ header_lines [] (pos + length (encode_header h)) (hs ++ raw h ∷ []) rest
header_lines-encode_header h pos hs rest =
    ap (header_lines [] pos hs) (encode_header-line_of h rest)
    ∙ header_lines-append (line_of h) [] pos hs (b'\n' ∷ rest)
        (line_of-Lacks b'\n' h (omega arith) (λ c p. p.0))
    ∙ header_lines-lf (line_of h) (raw h).0 (raw h).1 (pos + length (line_of h)) hs rest
        (line_of-ne-nil h) (split_line_of h)
    ∙ ap (λ n. header_lines [] n (hs ++ raw h ∷ []) rest) (omega (arith, length-encode_header h))

header_lines-encode_headers :
    (l : List Header) (pos : ℕ) (hs : List Header) (rest : Bytes)
    → header_lines [] pos hs (encode_headers l ++ rest)
      ≡ header_lines [] (pos + length (encode_headers l)) (hs ++ map raw l) rest
unfolding encode_headers
header_lines-encode_headers [] pos hs rest = cc (append-nil hs, add-zero pos)
header_lines-encode_headers (h ∷ l) pos hs rest =
    ap (header_lines [] pos hs) (append_assoc (encode_header h) (encode_headers l) rest)
    ∙ header_lines-encode_header h pos hs (encode_headers l ++ rest)
    ∙ header_lines-encode_headers l (pos + length (encode_header h)) (hs ++ raw h ∷ []) rest
    ∙ ap₂ (λ n m. header_lines [] n m rest)
        (omega (arith, length-append (encode_header h) (encode_headers l)))
        (append_assoc hs (raw h ∷ []) (map raw l))

-- The loop reads the header lines and the blank line.
pub header_lines_complete :
    (l : List Header) (pos : ℕ) (rest : Bytes)
    → header_lines [] pos [] (encode_headers l ++ (b'\n' ∷ rest))
      ≡ complete (map raw l) (pos + length (encode_headers l) + 1) rest
unfolding header_lines
header_lines_complete l pos rest = header_lines-encode_headers l pos [] (b'\n' ∷ rest)

abbrev pub IsText : Header → Type 0
IsText (k, v) = (is_utf8 k ≡ true) × (is_utf8 v ≡ true)

-- Raw headers of texts decode to the headers.
pub decode_headers-raw : (l : List Header) → All IsText l → decode_headers (map raw l) ≡ ok l
unfolding decode_headers decode_header
decode_headers-raw [] h = refl
decode_headers-raw ((k, v) ∷ l) h =
    rw (unescape-escape k, h.0.0, unescape-escape v, h.0.1, decode_headers-raw l h.1)
