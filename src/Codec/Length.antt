-- ===== src/Codec/Length.antt =====
-- The encoder's `content-length` test and the parser's agree, and the length that the encoder
-- writes is the one that the parser reads.
use iridium_stomp.Base.{
  ℕ, ◌<◌, true, false, List, [], ◌∷◌, ◌++◌, ◌≡◌, ◌≢◌, refl, sym, ◌∙◌, none, some, ok, arith, map,
  if◌then◌else◌, All, any, is_empty,
}
use iridium_stomp.Base.Text.Utf8.{Bytes, codes}
use iridium_stomp.Base.Text.Ascii.{to_ascii_lowercase, eq_ignore_ascii_case, lowercase_is}
use iridium_stomp.Base.Text.Bytes.{IsDigit, is_utf8_digits, trim_digits}
use iridium_stomp.Base.Text.Decimal.{u64_size, to_string}
use iridium_stomp.Base.Text.Numerals.{to_string_digits, to_string-ne-nil, parse_u64-to_string}
use iridium_stomp.Frame.{Header}
use iridium_stomp.Parser.{content_length_of, get_content_length}
use iridium_stomp.Codec.Escape.{IsNameByte, eq_ignore_ascii_case-escape}
use iridium_stomp.Codec.Lines.{raw}
use iridium_stomp.Codec.{escape_byte, escape_header_value, is_content_length}

-- Bytes that `to_lowercase` and `to_ascii_lowercase` treat alike, and leave alone.
abbrev IsLower : ℕ → Type 0
IsLower c = (c < 0x80) × (c ≢ b'k') × (to_ascii_lowercase c ≡ c)

lowercase_is-eq_ignore : (s p : Bytes) → All IsLower p → lowercase_is s p ≡ eq_ignore_ascii_case s p
unfolding lowercase_is eq_ignore_ascii_case
lowercase_is-eq_ignore [] [] h = refl
lowercase_is-eq_ignore (a ∷ s) [] h = refl
lowercase_is-eq_ignore [] (x ∷ p) h = refl
lowercase_is-eq_ignore (a ∷ []) (x ∷ p) h = ground (arith, lowercase_is-eq_ignore [] p h.1)
lowercase_is-eq_ignore (a ∷ b ∷ []) (x ∷ p) h =
    ground (arith, lowercase_is-eq_ignore (b ∷ []) p h.1)
lowercase_is-eq_ignore (a ∷ b ∷ c ∷ s) (x ∷ p) h =
    ground (arith, lowercase_is-eq_ignore (b ∷ c ∷ s) p h.1)

abbrev name : Bytes
name = codes "content-length"

name-IsLower : All IsLower name
unfolding to_ascii_lowercase
name-IsLower = ground arith

name-IsNameByte : All IsNameByte name
unfolding to_ascii_lowercase
name-IsNameByte = ground arith

-- The parser's test on the raw header.
is_content_length-raw :
    (k v : Bytes) → eq_ignore_ascii_case (raw (k, v)).0 name ≡ is_content_length (k, v)
is_content_length-raw k v =
    eq_ignore_ascii_case-escape k name name-IsNameByte
    ∙ sym (lowercase_is-eq_ignore k name name-IsLower)

pub any-get_none :
    (hs : List Header)
    → get_content_length (map raw hs) ≡ ok none
    → any is_content_length hs ≡ false
unfolding get_content_length
any-get_none [] h = refl
any-get_none ((k, v) ∷ hs) h = ground (arith, is_content_length-raw k v, any-get_none hs)

pub any-get_some :
    (hs : List Header) (n : ℕ)
    → get_content_length (map raw hs) ≡ ok (some n)
    → any is_content_length hs ≡ true
unfolding get_content_length
any-get_some [] n h = cc
any-get_some ((k, v) ∷ hs) n h = ground (arith, is_content_length-raw k v, any-get_some hs n)

escape_digits : (s : Bytes) → All IsDigit s → escape_header_value s ≡ s
unfolding escape_header_value escape_byte
escape_digits [] h = refl
escape_digits (c ∷ s) h = ground (arith, escape_digits s h.1)

name_found : eq_ignore_ascii_case (escape_header_value name) name ≡ true
unfolding escape_header_value eq_ignore_ascii_case
name_found = refl

unless_empty {ℓ} : {A : Type ℓ} (a b : A) (s : Bytes) → s ≢ [] → (if is_empty s then a else b) ≡ b
unless_empty a b [] ne = absurd (ne refl)
unless_empty a b (c ∷ s) ne = refl

content_length_of-to_string :
    (n : ℕ) → n < u64_size → content_length_of (escape_header_value (to_string n)) ≡ ok n
unfolding content_length_of
content_length_of-to_string n h =
    let digits = to_string_digits n in
    rw
      (
        escape_digits (to_string n) digits,
        is_utf8_digits (to_string n) digits,
        trim_digits (to_string n) digits,
        parse_u64-to_string n h,
      )
      (unless_empty _ _ (to_string n) (to_string-ne-nil n))

-- A length appended by the encoder is read back.
pub get_content_length-append :
    (hs : List Header) (n : ℕ)
    → get_content_length (map raw hs) ≡ ok none
    → n < u64_size
    → get_content_length (map raw (hs ++ (name, to_string n) ∷ [])) ≡ ok (some n)
unfolding get_content_length
get_content_length-append [] n h small = rw (content_length_of-to_string n small, name_found)
get_content_length-append ((k, v) ∷ hs) n h small =
    ground (arith, get_content_length-append hs n _ small)
