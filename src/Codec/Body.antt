-- ===== src/Codec/Body.antt =====
-- What frames survive the wire, and how the parser finds the end of a frame's body.
use iridium_stomp.Base.{
  ℕ, ◌+◌, ◌≤◌, ◌<◌, ◌||◌, not, false, true, List, [], ◌∷◌, ◌++◌, ◌≡◌, ◌≢◌, ◌⊎◌, inl, inr, refl, ◌∙◌,
  ok, Option, some, none, arith, map, ◌==◌, if◌then◌else◌, Bool-cases, All, any, is_empty, length,
  drop, take, unwrap_or, take-append, drop-append, All-append,
}
use iridium_stomp.Base.Text.Utf8.{Bytes, codes, is_utf8}
use iridium_stomp.Base.Text.Bytes.{Lacks, is_utf8_digits}
use iridium_stomp.Base.Text.Decimal.{u64_size, to_string}
use iridium_stomp.Base.Text.Numerals.{to_string_digits}
use iridium_stomp.Frame.{Frame, Header}
use iridium_stomp.Parser.Headers.{strip_cr}
use iridium_stomp.Parser.{
  ParseResult, get_content_length, skip_one_lf, nul_body, parse_body, expect_nul, sized_body,
}
use iridium_stomp.Codec.Length.{any-get_none, any-get_some, get_content_length-append}
use iridium_stomp.Codec.Lines.{raw, IsText, split_once-append}
use iridium_stomp.Codec.{wire_headers}

-- What a frame must satisfy to survive the wire: a command line that is not empty and holds no
-- line ending, texts in UTF-8 (as a `String` is), and a `content-length` header, if the
-- application set one itself, that names the body's length.
pub record IsSendable (f : Frame) : Type 0 where
  pub command_ne_nil : f.command ≢ []
  pub command_line : Lacks b'\n' f.command
  pub command_no_cr : strip_cr f.command ≡ f.command
  pub command_utf8 : is_utf8 f.command ≡ true
  pub texts : All IsText f.headers
  pub own_length :
      (get_content_length (map raw f.headers) ≡ ok none)
      ⊎ (get_content_length (map raw f.headers) ≡ ok (some (length f.body)))

-- How the parser finds the end of the body: by the length that the headers give, or at the
-- first NUL.
abbrev pub Delimited : Frame → Type 0
Delimited f =
    (get_content_length (map raw (wire_headers f)) ≡ ok (some (length f.body)))
    ⊎ ((get_content_length (map raw (wire_headers f)) ≡ ok none) × Lacks 0 f.body)

any_nul-Lacks : (s : Bytes) → any (λ c. c == 0) s ≡ false → Lacks 0 s
any_nul-Lacks [] h = tt
any_nul-Lacks (c ∷ s) h = ground (arith, any_nul-Lacks s)

pub wire_headers-Delimited : (f : Frame) → IsSendable f → length f.body < u64_size → Delimited f
unfolding wire_headers
wire_headers-Delimited f s small = elim s.own_length [
  | inr own ↦ rw (any-get_some f.headers (length f.body) own) (inl own)
  | inl nope ↦
      let unset = any-get_none f.headers nope in
      elim (Bool-cases (any (λ c. c == 0) f.body || not (is_utf8 f.body))) [
        | inl binary ↦
            rw (unset, binary)
              (inl (get_content_length-append f.headers (length f.body) nope small))
        | inr text ↦ rw (unset, text) (inr (nope, any_nul-Lacks f.body (ground arith)))
      ]
]

is_utf8_name : is_utf8 (codes "content-length") ≡ true
unfolding is_utf8
is_utf8_name = refl

pub wire_headers-texts : (f : Frame) → IsSendable f → All IsText (wire_headers f)
unfolding wire_headers
wire_headers-texts f s = ground (
  arith,
  All-append IsText f.headers ((codes "content-length", to_string (length f.body)) ∷ []) s.texts
      ((is_utf8_name, is_utf8_digits _ (to_string_digits (length f.body))), tt),
)

module _ (max_frame_size len : ℕ) (command : Bytes) (headers : List Header)
    (body rest : Bytes) where
  -- The parser returns the body, in either of its two forms, and stops behind the NUL and an LF.
  abbrev pub Reads : ℕ → ParseResult → Type 0
  Reads pos r =
      (b : Option Bytes) × (r
        ≡ ok (
            some (record {
              command = command;
              headers = headers;
              body = b;
              consumed = skip_one_lf (pos + length body + 1) rest;
            })))
      × (unwrap_or b [] ≡ body)

  nul_body-Reads :
      (pos : ℕ)
      → Lacks 0 body
      → length body ≤ max_frame_size
      → Reads pos (nul_body max_frame_size command headers pos (body ++ (0 ∷ rest)))
  unfolding nul_body
  nul_body-Reads pos h fits = (
    (if is_empty body then none else some body),
    rw (split_once-append 0 body rest h, nul_body) (ground arith),
    ground arith,
  )

  sized_body-expect_nul :
      (n pos : ℕ) (r : Bytes)
      → n ≤ max_frame_size
      → pos + n + 1 ≤ len
      → len < u64_size
      → sized_body max_frame_size len command headers n pos r
        ≡ expect_nul command headers (take n r) (pos + n) (drop n r)
  unfolding sized_body
  sized_body-expect_nul n pos r fits within small = ground arith

  sized_body-Reads :
      (pos : ℕ)
      → length body ≤ max_frame_size
      → pos + length body + 1 ≤ len
      → len < u64_size
      → Reads pos
          (sized_body max_frame_size len command headers (length body) pos (body ++ (0 ∷ rest)))
  sized_body-Reads pos fits within small = (
    some body,
    sized_body-expect_nul (length body) pos (body ++ (0 ∷ rest)) fits within small
        ∙ rw (take-append body (0 ∷ rest), drop-append body (0 ∷ rest)) (unfold expect_nul in refl),
    refl,
  )

  pub parse_body-Reads :
      (pos : ℕ)
      → (get_content_length headers ≡ ok (some (length body)))
        ⊎ ((get_content_length headers ≡ ok none) × Lacks 0 body)
      → length body ≤ max_frame_size
      → pos + length body + 1 ≤ len
      → len < u64_size
      → Reads pos (parse_body max_frame_size len command headers pos (body ++ (0 ∷ rest)))
  unfolding parse_body
  parse_body-Reads pos d fits within small = elim d [
    | inl e ↦ rw e (sized_body-Reads pos fits within small)
    | inr (e, lacks) ↦ rw e (nul_body-Reads pos lacks fits)
  ]
