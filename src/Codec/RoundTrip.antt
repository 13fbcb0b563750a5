-- ===== src/Codec/RoundTrip.antt =====
-- Decoding what was encoded.
use native.Mathlib.Numerals.{add-one}
use iridium_stomp.Base.{
  ℕ, suc, ◌+◌, ◌≤◌, ◌<◌, [], ◌∷◌, ◌++◌, ◌≡◌, ◌≢◌, inl, inr, refl, sym, ap, ap₂, ◌∙◌, ok, some,
  append_assoc, arith, map, ◌==◌, if◌then◌else◌, Bool-cases, length, drop, length-append,
  drop-append,
}
use iridium_stomp.Base.Text.Utf8.{Bytes}
use iridium_stomp.Base.Text.Bytes.{Lacks}
use iridium_stomp.Base.Text.Decimal.{u64_size}
use iridium_stomp.Frame.{Frame}
use iridium_stomp.Parser.Headers.{strip_cr}
use iridium_stomp.Parser.{
  Parsed, skip_lfs, skip_one_lf, parse_body, after_headers, parse_at, parse_frame_slice_bounded,
}
use iridium_stomp.Codec.Body.{
  IsSendable, wire_headers-Delimited, wire_headers-texts, Reads, parse_body-Reads,
}
use iridium_stomp.Codec.Lines.{raw, split_once-append, header_lines_complete, decode_headers-raw}
use iridium_stomp.Codec.{
  StompCodec, frame, encode_headers, wire_headers, encode, frame_of, decode_frame, decode,
}

-- The bytes behind one optional LF.
unfoldable pub after_lf : Bytes → Bytes
after_lf [] = []
after_lf (c ∷ s) = if c == b'\n' then s else c ∷ s

-- The frame that the receiver sees: the headers as written.
abbrev pub received : Frame → Frame
received f = record f { headers = wire_headers f }

-- The bytes of a frame with more behind them, bracketed to the right.
abbrev wire : Frame → Bytes → Bytes
wire f rest =
    f.command ++ (b'\n' ∷ (encode_headers (wire_headers f) ++ (b'\n' ∷ (f.body ++ (0 ∷ rest)))))

encode-wire : (f : Frame) (rest : Bytes) → encode (frame f) ++ rest ≡ wire f rest
unfolding encode
encode-wire f rest = simp append_assoc

length-encode :
    (f : Frame)
    → length (encode (frame f))
      ≡ length f.command + 1 + length (encode_headers (wire_headers f)) + 1 + length f.body + 1
unfolding encode
length-encode f = omega (
  arith,
  length-append f.command
      (b'\n' ∷ (encode_headers (wire_headers f) ++ (b'\n' ∷ (f.body ++ 0 ∷ [])))),
  length-append (encode_headers (wire_headers f)) (b'\n' ∷ (f.body ++ 0 ∷ [])),
  length-append f.body (0 ∷ []),
)

length-wire :
    (f : Frame) (rest : Bytes) → length (wire f rest) ≡ length (encode (frame f)) + length rest
length-wire f rest = ap length (sym (encode-wire f rest)) ∙ length-append (encode (frame f)) rest

skip_lfs_command :
    (command rest : Bytes)
    → command ≢ []
    → Lacks b'\n' command
    → skip_lfs 0 (command ++ rest) ≡ (0, command ++ rest)
unfolding skip_lfs
skip_lfs_command [] rest ne h = absurd (ne refl)
skip_lfs_command (c ∷ command) rest ne h = ground arith

skip_one_lf_le : (pos : ℕ) (rest : Bytes) → skip_one_lf pos rest ≤ pos + 1
unfolding skip_one_lf
skip_one_lf_le pos [] = omega arith
skip_one_lf_le pos (c ∷ s) = ground arith

drop_behind : (s : Bytes) (c : ℕ) (rest : Bytes) → drop (suc (length s)) (s ++ (c ∷ rest)) ≡ rest
drop_behind [] c rest = refl
drop_behind (x ∷ s) c rest = drop_behind s c rest

drop-skip_one_lf : (s rest : Bytes) → drop (skip_one_lf (length s) rest) (s ++ rest) ≡ after_lf rest
unfolding skip_one_lf after_lf
drop-skip_one_lf s [] = drop-append s []
drop-skip_one_lf s (c ∷ rest) = elim (Bool-cases (c == b'\n')) [
  | inl lf ↦ rw (lf, add-one) (drop_behind s c rest)
  | inr other ↦ rw other (drop-append s (c ∷ rest))
]

module _ (max_frame_size : ℕ) (f : Frame) (rest : Bytes) (s : IsSendable f) where
  parse_at-wire :
      (len : ℕ)
      → parse_at max_frame_size len 0 (wire f rest)
        ≡ parse_body max_frame_size len f.command
            (map raw (wire_headers f))
            (0 + length f.command + 1 + length (encode_headers (wire_headers f)) + 1)
            (f.body ++ (0 ∷ rest))
  unfolding parse_at
  parse_at-wire len =
      rw (split_once-append b'\n' f.command _ s.command_line, parse_at)
        (rw (s.command_no_cr, header_lines_complete (wire_headers f) _ _)
          (unfold after_headers in refl))

  skip_lfs-wire : skip_lfs 0 (wire f rest) ≡ (0, wire f rest)
  skip_lfs-wire = skip_lfs_command f.command _ s.command_ne_nil s.command_line

  -- The parser reads a sendable frame, and stops behind its NUL and an LF.
  parse_wire :
      length (encode (frame f)) ≤ max_frame_size
      → length (wire f rest) < u64_size
      → (p : Parsed) × (parse_frame_slice_bounded (wire f rest) max_frame_size ≡ ok (some p))
        × (frame_of p ≡ ok (received f))
        × (p.consumed ≡ skip_one_lf (length (encode (frame f))) rest)
  unfolding frame_of parse_frame_slice_bounded
  parse_wire fits small =
      let (b, read, whole) = body_read in
      (
        record {
          command = f.command;
          headers = map raw (wire_headers f);
          body = b;
          consumed = skip_one_lf (start + length f.body + 1) rest;
        },
        rw (skip_lfs-wire, parse_frame_slice_bounded) (parse_at-wire (length (wire f rest)) ∙ read),
        rw (s.command_utf8, decode_headers-raw (wire_headers f) (wire_headers-texts f s), whole),
        ap (λ n. skip_one_lf n rest) (omega (arith, length-encode f)),
      )
    where
      start : ℕ
      start = 0 + length f.command + 1 + length (encode_headers (wire_headers f)) + 1

      body_read :
          Reads max_frame_size
            (length (wire f rest))
            f.command
            (map raw (wire_headers f))
            f.body
            rest
            start
            (parse_body max_frame_size
              (length (wire f rest))
              f.command
              (map raw (wire_headers f))
              start
              (f.body ++ (0 ∷ rest)))
      body_read =
          parse_body-Reads max_frame_size (length (wire f rest)) f.command
            (map raw (wire_headers f)) f.body rest start
            (wire_headers-Delimited f s (omega (arith, length-encode f, length-wire f rest)))
            (omega (arith, length-encode f)) (omega (arith, length-encode f, length-wire f rest))
            small

-- A first byte that is no LF, and no CR with an LF behind it, leaves the buffer to the parser.
decode-decode_frame :
    (codec : StompCodec) (command rest : Bytes)
    → command ≢ []
    → Lacks b'\n' command
    → strip_cr command ≡ command
    → decode codec (command ++ (b'\n' ∷ rest)) ≡ decode_frame codec (command ++ (b'\n' ∷ rest))
unfolding decode strip_cr
decode-decode_frame codec [] rest ne h k = absurd (ne refl)
decode-decode_frame codec (c ∷ []) rest ne h k = ground arith
decode-decode_frame codec (c ∷ d ∷ command) rest ne h k = ground arith

decode_frame-parsed :
    (codec : StompCodec) (source : Bytes) (p : Parsed) (f : Frame)
    → parse_frame_slice_bounded source codec.max_frame_size ≡ ok (some p)
    → frame_of p ≡ ok f
    → p.consumed ≤ codec.max_frame_size
    → decode_frame codec source ≡ (ok (some (frame f)), drop p.consumed source)
unfolding decode_frame
decode_frame-parsed codec source p f parsed framed fits = rw (parsed, decode_frame) (ground arith)

-- Decoding what `encode` wrote gives the frame back, with the `content-length` header if the
-- encoder added one, and leaves the bytes behind the frame, but for one LF. This holds for every
-- sendable frame that is shorter on the wire than the codec's limit, whatever bytes its body holds
-- and whatever follows it in the buffer (whose length is a `usize`).
pub decode-encode :
    (codec : StompCodec) (f : Frame) (rest : Bytes)
    → IsSendable f
    → length (encode (frame f)) < codec.max_frame_size
    → length (encode (frame f) ++ rest) < u64_size
    → decode codec (encode (frame f) ++ rest) ≡ (ok (some (frame (received f))), after_lf rest)
decode-encode codec f rest s fits small =
    let small_wire : length (wire f rest) < u64_size = rw (encode-wire f rest) at small in
    let (p, parsed, framed, used) =
      parse_wire codec.max_frame_size f rest s (omega arith) small_wire in
    ap (decode codec) (encode-wire f rest)
    ∙ decode-decode_frame codec f.command _ s.command_ne_nil s.command_line s.command_no_cr
    ∙ decode_frame-parsed codec (wire f rest) p (received f) parsed framed
        (omega (arith, skip_one_lf_le (length (encode (frame f))) rest))
    ∙ ap (λ b. (ok (some (frame (received f))), b))
        (ap₂ drop used (sym (encode-wire f rest)) ∙ drop-skip_one_lf (encode (frame f)) rest)
