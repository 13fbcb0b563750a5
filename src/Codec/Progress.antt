-- ===== src/Codec/Progress.antt =====
-- What a call of `decode` takes from the buffer.
use iridium_stomp.Base.{
  ℕ, ◌≤◌, ◌<◌, [], ◌∷◌, ◌≡◌, ◌⊎◌, inl, inr, refl, ap, none, some, Result, ok, err, ◌>>=◌, arith,
  ltb, ◌==◌, length, drop, Bool-cases, Result-cases,
}
use iridium_stomp.Base.Text.Utf8.{Bytes}
use iridium_stomp.Frame.{Frame}
use iridium_stomp.Parser.{parse_frame_slice_bounded}
use iridium_stomp.Parser.Consumed.{Consumes, parse_frame-Consumes}
use iridium_stomp.Codec.{
  frame, heartbeat, StompCodec, CodecError, frame_of, Decoded, decode_frame, decode_cr, decode,
}

-- The call took between 1 and `limit` bytes, and no more than there were.
abbrev pub Takes : ℕ → Bytes → Bytes → Type 0
Takes limit source left =
    (n : ℕ) × (0 < n) × (n ≤ length source) × (n ≤ limit) × (left ≡ drop n source)

abbrev pub Progress : ℕ → Bytes → Decoded → Type 0
Progress limit source (ok (some (frame f)), left) = Takes limit source left
Progress limit source (ok (some heartbeat), left) = Takes 2 source left
Progress limit source (ok none, left) =
    (left ≡ source) × ((length source ≤ limit) ⊎ (source ≡ b'\r' ∷ []))
Progress limit source (err e, left) = (left ≡ source) ⊎ Takes limit source left

framed-Progress :
    (limit : ℕ) (source left : Bytes) (r : Result Frame CodecError)
    → Takes limit source left
    → Progress limit source ((r >>= λ f. ok (some (frame f))), left)
framed-Progress limit source left (ok f) h = h
framed-Progress limit source left (err e) h = inr h

decode_frame-Progress :
    (codec : StompCodec) (source : Bytes)
    → Progress codec.max_frame_size source (decode_frame codec source)
unfolding decode_frame
decode_frame-Progress codec source =
    elim (Result-cases (parse_frame_slice_bounded source codec.max_frame_size)) [
      | inl (some p, e) ↦
          let used : Consumes 0 (length source) (ok (some p)) =
            rw e at (parse_frame-Consumes source codec.max_frame_size) in
          elim (Bool-cases (ltb codec.max_frame_size p.consumed)) [
            | inl large ↦ rw (e, large, decode_frame) (inl refl)
            | inr fits ↦
                rw (e, fits, decode_frame)
                  (framed-Progress codec.max_frame_size source _ (frame_of p)
                    (p.consumed, used.0, used.1, ground arith, refl))
          ]
      | inl (none, e) ↦ elim (Bool-cases (ltb codec.max_frame_size (length source))) [
        | inl large ↦ rw (e, large, decode_frame) (inl refl)
        | inr fits ↦ rw (e, fits, decode_frame) (refl, inl (ground arith))
      ]
      | inr (x, e) ↦ rw (e, decode_frame) (inl refl)
    ]

decode_cr-Progress :
    (codec : StompCodec) (c : ℕ) (s : Bytes)
    → c ≡ b'\r'
    → Progress codec.max_frame_size (c ∷ s) (decode_cr codec (c ∷ s) s)
unfolding decode_cr
decode_cr-Progress codec c [] cr = (refl, inr (ap (λ b. b ∷ []) cr))
decode_cr-Progress codec c (d ∷ s) cr = elim (Bool-cases (d == b'\n')) [
  | inl lf ↦ rw (lf, decode_cr) (2, omega arith, omega arith, omega arith, refl)
  | inr other ↦ rw (other, decode_cr) (decode_frame-Progress codec (c ∷ d ∷ s))
]

-- A call of `decode` that yields a frame took at least one byte of the buffer and at most the
-- codec's limit, and a heart-beat at most two, so that a loop over a buffer ends. A call that asks
-- for more bytes left the buffer as it was, and the buffer is within the limit or a lone CR. A call
-- that fails left it, or took no more than the limit.
pub decode-Progress :
    (codec : StompCodec) (source : Bytes)
    → Progress codec.max_frame_size source (decode codec source)
unfolding decode decode_cr
decode-Progress codec [] = decode_frame-Progress codec []
decode-Progress codec (c ∷ s) = elim (Bool-cases (c == b'\n')) [
  | inl lf ↦ rw (lf, decode) (1, omega arith, omega arith, omega arith, refl)
  | inr not_lf ↦ elim (Bool-cases (c == b'\r')) [
    | inr not_cr ↦ rw (not_lf, not_cr, decode) (decode_frame-Progress codec (c ∷ s))
    | inl cr ↦ rw (not_lf, cr, decode) (decode_cr-Progress codec c s (ground arith))
  ]
]
