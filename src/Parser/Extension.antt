-- ===== src/Parser/Extension.antt =====
-- The parser on an input that arrives in pieces.
use iridium_stomp.Base.{
  ℕ, zero, suc, ◌+◌, ◌≤◌, ◌<◌, true, false, List, [], ◌∷◌, ◌++◌, ◌≡◌, refl, ap, inl, inr, Option,
  none, some, ok, err, arith, ltb, ◌==◌, length, length-drop, length-append, take, drop, Bool-cases,
  Option-cases, Result-cases,
}
use iridium_stomp.Base.Text.Utf8.{Bytes}
use iridium_stomp.Base.Text.Decimal.{u64_size}
use iridium_stomp.Frame.{Header}
use iridium_stomp.Parser.Consumed.{
  skip_lfs_bounds, split_once-Splits, Splits, header_lines-Reaches, Reaches,
}
use iridium_stomp.Parser.Headers.{
  split_once, strip_cr, header_lines, HeaderLines, incomplete, malformed, complete,
}
use iridium_stomp.Parser.{
  Parsed, ParseResult, get_content_length, skip_lfs, nul_body, expect_nul, sized_body, parse_body,
  after_headers, parse_at, parse_frame_slice_bounded,
}

-- Where the first outcome is a frame, the second is the same frame, but for the number of bytes
-- consumed; where it is an error, the second is that error.
abbrev pub Stays : ParseResult → ParseResult → Type 0
Stays (ok none) s = Unit
Stays (ok (some p)) s =
    (q : Parsed) × (s ≡ ok (some q))
    × (q.command ≡ p.command)
    × (q.headers ≡ p.headers)
    × (q.body ≡ p.body)
Stays (err e) s = s ≡ err e

abbrev SplitStays : Bytes → Option (Bytes × Bytes) → Option (Bytes × Bytes) → Type 0
SplitStays more none r = Unit
SplitStays more (some (p, rest)) r = r ≡ some (p, rest ++ more)

split_once-SplitStays :
    (sep : ℕ) (s more : Bytes) → SplitStays more (split_once sep s) (split_once sep (s ++ more))
unfolding split_once
split_once-SplitStays sep [] more = tt
split_once-SplitStays sep (c ∷ s) more = ground (arith, split_once-SplitStays sep s more)

split_once-extends :
    (sep : ℕ) (s more p r : Bytes)
    → split_once sep s ≡ some (p, r)
    → split_once sep (s ++ more) ≡ some (p, r ++ more)
split_once-extends sep s more p r h = rw h at (split_once-SplitStays sep s more)

nul_body-Stays :
    (max_frame_size : ℕ) (command : Bytes) (headers : List Header) (pos : ℕ) (rest more : Bytes)
    → Stays
        (nul_body max_frame_size command headers pos rest)
        (nul_body max_frame_size command headers pos (rest ++ more))
unfolding nul_body
nul_body-Stays max_frame_size command headers pos rest more =
    elim (Option-cases (split_once 0 rest)) [
      | inl e ↦ rw (e, nul_body) tt
      | inr ((body, after), e) ↦ elim (Bool-cases (ltb max_frame_size (length body))) [
        | inl large ↦ rw (e, split_once-extends 0 rest more body after e, large, nul_body) refl
        | inr small ↦
            rw (e, split_once-extends 0 rest more body after e, small, nul_body)
              (_, refl, refl, refl, refl)
      ]
    ]

expect_nul-Stays :
    (command : Bytes) (headers : List Header) (body : Bytes) (pos : ℕ) (rest more : Bytes)
    → 0 < length rest
    → Stays
        (expect_nul command headers body pos rest)
        (expect_nul command headers body pos (rest ++ more))
unfolding expect_nul
expect_nul-Stays command headers body pos [] more h = absurd (omega arith)
expect_nul-Stays command headers body pos (c ∷ after) more h = elim (Bool-cases (c == 0)) [
  | inl nul ↦ rw (nul, expect_nul) (_, refl, refl, refl, refl)
  | inr other ↦ rw (other, expect_nul) refl
]

take-extends : (n : ℕ) (s more : Bytes) → n ≤ length s → take n (s ++ more) ≡ take n s
take-extends zero s more h = refl
take-extends (suc n) [] more h = absurd (omega arith)
take-extends (suc n) (c ∷ s) more h = ap (◌∷◌ c) (take-extends n s more (omega arith))

drop-extends : (n : ℕ) (s more : Bytes) → n ≤ length s → drop n (s ++ more) ≡ drop n s ++ more
drop-extends zero s more h = refl
drop-extends (suc n) [] more h = absurd (omega arith)
drop-extends (suc n) (c ∷ s) more h = drop-extends n s more (omega arith)

fits_more :
    (len more_len needed : ℕ)
    → ltb len needed ≡ false
    → len ≤ more_len
    → ltb more_len needed ≡ false
fits_more len more_len needed h k = ground arith

sized_body-Stays :
    (max_frame_size len more_len : ℕ) (command : Bytes) (headers : List Header)
    (content_len pos : ℕ) (rest more : Bytes)
    → pos + length rest ≡ len
    → len ≤ more_len
    → Stays
        (sized_body max_frame_size len command headers content_len pos rest)
        (sized_body max_frame_size more_len command headers content_len pos (rest ++ more))
unfolding sized_body
sized_body-Stays max_frame_size len more_len command headers content_len pos rest more h k =
    elim (Bool-cases (ltb max_frame_size content_len)) [
      | inl large ↦ rw (large, sized_body) refl
      | inr small ↦ elim (Bool-cases (ltb (pos + content_len) u64_size)) [
        | inr wraps ↦ rw (small, wraps, sized_body) refl
        | inl first ↦ elim (Bool-cases (ltb (pos + content_len + 1) u64_size)) [
          | inr wraps ↦ rw (small, first, wraps, sized_body) refl
          | inl second ↦ elim (Bool-cases (ltb len (pos + content_len + 1))) [
            | inl short ↦ rw (small, first, second, short, sized_body) tt
            | inr whole ↦
                let room : content_len < length rest = ground arith in
                rw (small, first, second, whole, sized_body)
                  (rw
                    (
                      fits_more len more_len (pos + content_len + 1) whole k,
                      take-extends content_len rest more (omega arith),
                      drop-extends content_len rest more (omega arith),
                    )
                    (expect_nul-Stays command headers (take content_len rest) (pos + content_len)
                      (drop content_len rest) more (omega (arith, length-drop content_len rest))))
          ]
        ]
      ]
    ]

parse_body-Stays :
    (max_frame_size len more_len : ℕ) (command : Bytes) (headers : List Header) (pos : ℕ)
    (rest more : Bytes)
    → pos + length rest ≡ len
    → len ≤ more_len
    → Stays
        (parse_body max_frame_size len command headers pos rest)
        (parse_body max_frame_size more_len command headers pos (rest ++ more))
unfolding parse_body
parse_body-Stays max_frame_size len more_len command headers pos rest more h k =
    elim (Result-cases (get_content_length headers)) [
      | inl (none, e) ↦
          rw (e, parse_body) (nul_body-Stays max_frame_size command headers pos rest more)
      | inl (some n, e) ↦
          rw (e, parse_body)
            (sized_body-Stays max_frame_size len more_len command headers n pos rest more h k)
      | inr (x, e) ↦ rw (e, parse_body) refl
    ]

abbrev LinesStay : Bytes → HeaderLines → HeaderLines → Type 0
LinesStay more incomplete r = Unit
LinesStay more (malformed line) r = r ≡ malformed line
LinesStay more (complete headers pos rest) r = r ≡ complete headers pos (rest ++ more)

header_lines-Stay :
    (line : Bytes) (pos : ℕ) (headers : List Header) (rest more : Bytes)
    → LinesStay more
        (header_lines line pos headers rest)
        (header_lines line pos headers (rest ++ more))
unfolding header_lines
header_lines-Stay line pos headers [] more = tt
header_lines-Stay [] pos headers (c ∷ rest) more = elim (Bool-cases (c == b'\n')) [
  | inl lf ↦ rw (lf, header_lines) refl
  | inr other ↦ rw (other, header_lines) (header_lines-Stay (c ∷ []) (pos + 1) headers rest more)
]
header_lines-Stay (l ∷ ls) pos headers (c ∷ rest) more = elim (Bool-cases (c == b'\n')) [
  | inr other ↦
      rw (other, header_lines) (header_lines-Stay (l ∷ ls ++ c ∷ []) (pos + 1) headers rest more)
  | inl lf ↦ elim (Option-cases (split_once b':' (strip_cr (l ∷ ls)))) [
    | inl e ↦ rw (lf, e, header_lines) refl
    | inr ((key, val), e) ↦
        rw (lf, e, header_lines)
          (header_lines-Stay [] (pos + 1) (headers ++ (key, val) ∷ []) rest more)
  ]
]

after_headers-Stays :
    (max_frame_size len more_len : ℕ) (command : Bytes) (pos : ℕ) (lines r : HeaderLines)
    (more : Bytes)
    → Reaches pos len lines
    → len ≤ more_len
    → LinesStay more lines r
    → Stays
        (after_headers max_frame_size len command lines)
        (after_headers max_frame_size more_len command r)
unfolding after_headers
after_headers-Stays max_frame_size len more_len command pos incomplete r more reaches k h = tt
after_headers-Stays max_frame_size len more_len command pos (malformed line) r more reaches k h =
    rw h refl
after_headers-Stays max_frame_size len more_len command pos (complete headers q rest) r more reaches
      k h =
    rw h (parse_body-Stays max_frame_size len more_len command headers q rest more reaches.1 k)

parse_at-Stays :
    (max_frame_size pos : ℕ) (input more line rest : Bytes) (len more_len : ℕ)
    → pos + length input ≡ len
    → len ≤ more_len
    → split_once b'\n' input ≡ some (line, rest)
    → Stays
        (parse_at max_frame_size len pos input)
        (parse_at max_frame_size more_len pos (input ++ more))
unfolding parse_at
parse_at-Stays max_frame_size pos input more line rest len more_len h k e =
    let whole : Splits input (some (line, rest)) = rw e at (split_once-Splits b'\n' input) in
    let q : ℕ = pos + length line + 1 in
    rw (e, split_once-extends b'\n' input more line rest e, parse_at)
      (after_headers-Stays max_frame_size len more_len (strip_cr line) q _ _ more
        (header_lines-Reaches [] q [] rest len (omega (arith, whole))) k
        (header_lines-Stay [] q [] rest more))

skip_lfs_lf :
    (pos c : ℕ) (s : Bytes) → (c == b'\n') ≡ true → skip_lfs pos (c ∷ s) ≡ skip_lfs (pos + 1) s
unfolding skip_lfs
skip_lfs_lf pos c s lf = rw (lf, skip_lfs) refl

skip_lfs_other :
    (pos c : ℕ) (s : Bytes) → (c == b'\n') ≡ false → skip_lfs pos (c ∷ s) ≡ (pos, c ∷ s)
unfolding skip_lfs
skip_lfs_other pos c s other = rw (other, skip_lfs) refl

skip_lfs_nil : (pos : ℕ) → skip_lfs pos [] ≡ (pos, [])
unfolding skip_lfs
skip_lfs_nil pos = refl

-- Heart-beats in front are skipped the same way if anything stands behind them.
skip_lfs-extends :
    (pos : ℕ) (s more : Bytes)
    → 0 < length (skip_lfs pos s).1
    → skip_lfs pos (s ++ more) ≡ ((skip_lfs pos s).0, (skip_lfs pos s).1 ++ more)
skip_lfs-extends pos [] more h = absurd (omega (arith, ap (λ r. length r.1) (skip_lfs_nil pos)))
skip_lfs-extends pos (c ∷ s) more h = elim (Bool-cases (c == b'\n')) [
  | inl lf ↦
      rw (skip_lfs_lf pos c s lf, skip_lfs_lf pos c (s ++ more) lf)
        (skip_lfs-extends (pos + 1) s more (rw (skip_lfs_lf pos c s lf) at h))
  | inr other ↦ rw (skip_lfs_other pos c s other, skip_lfs_other pos c (s ++ more) other) refl
]

-- Once the command line is complete, a frame or an error that the parser finds in the part of the
-- input that has arrived is the one that it finds when more has, but for the number of bytes that
-- it consumes: it does not depend on how the input is cut into pieces.
pub parse_frame-Stays :
    (input more line rest : Bytes) (max_frame_size : ℕ)
    → split_once b'\n' (skip_lfs 0 input).1 ≡ some (line, rest)
    → Stays
        (parse_frame_slice_bounded input max_frame_size)
        (parse_frame_slice_bounded (input ++ more) max_frame_size)
unfolding parse_frame_slice_bounded
parse_frame-Stays input more line rest max_frame_size e =
    let whole : Splits (skip_lfs 0 input).1 (some (line, rest)) =
      rw e at (split_once-Splits b'\n' (skip_lfs 0 input).1) in
    rw (skip_lfs-extends 0 input more (omega (arith, whole))) (
      parse_at-Stays max_frame_size (skip_lfs 0 input).0 (skip_lfs 0 input).1 more line rest
        (length input) (length (input ++ more)) (omega (arith, skip_lfs_bounds 0 input))
        (omega (arith, length-append input more)) e)
