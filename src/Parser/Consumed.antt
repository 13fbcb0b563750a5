-- ===== src/Parser/Consumed.antt =====
-- How much of the input the parser consumes.
use iridium_stomp.Base.{
  ℕ, ◌+◌, ◌≤◌, ◌<◌, List, [], ◌∷◌, ◌++◌, ◌≡◌, refl, sym, inl, inr, Option, none, some, ok, err,
  arith, ltb, ◌==◌, length, length-drop, take, drop, Bool-cases, Option-cases, Result-cases,
}
use mathlib.Core.Path.{subst}
use iridium_stomp.Base.Text.Utf8.{Bytes}
use iridium_stomp.Base.Text.Decimal.{u64_size}
use iridium_stomp.Frame.{Header}
use iridium_stomp.Parser.Headers.{
  split_once, strip_cr, header_lines, HeaderLines, incomplete, malformed, complete,
}
use iridium_stomp.Parser.{
  ParseResult, get_content_length, skip_one_lf, skip_lfs, nul_body, expect_nul, sized_body,
  parse_body, after_headers, parse_at, parse_frame_slice_bounded,
}

-- The outcome consumes, if a frame was read, more than `pos` bytes and no more than `len`.
abbrev pub Consumes : ℕ → ℕ → ParseResult → Type 0
Consumes pos len (ok (some p)) = (pos < p.consumed) × (p.consumed ≤ len)
Consumes pos len (ok none) = Unit
Consumes pos len (err e) = Unit

-- The parts of a split have the length of the whole.
abbrev pub Splits : Bytes → Option (Bytes × Bytes) → Type 0
Splits s none = Unit
Splits s (some (p, r)) = length p + 1 + length r ≡ length s

pub split_once-Splits : (sep : ℕ) (s : Bytes) → Splits s (split_once sep s)
unfolding split_once
split_once-Splits sep [] = tt
split_once-Splits sep (c ∷ s) = ground (arith, split_once-Splits sep s)

skip_one_lf_bounds :
    (pos : ℕ) (s : Bytes) → (pos ≤ skip_one_lf pos s) × (skip_one_lf pos s ≤ pos + length s)
unfolding skip_one_lf
skip_one_lf_bounds pos [] = ground arith
skip_one_lf_bounds pos (c ∷ s) = ground arith

pub skip_lfs_bounds :
    (pos : ℕ) (s : Bytes) → (skip_lfs pos s).0 + length (skip_lfs pos s).1 ≡ pos + length s
unfolding skip_lfs
skip_lfs_bounds pos [] = refl
skip_lfs_bounds pos (c ∷ s) = ground (arith, skip_lfs_bounds (pos + 1) s)

nul_body-Consumes :
    (max_frame_size : ℕ) (command : Bytes) (headers : List Header) (pos : ℕ) (rest : Bytes)
    → Consumes pos (pos + length rest) (nul_body max_frame_size command headers pos rest)
unfolding nul_body
nul_body-Consumes max_frame_size command headers pos rest =
    elim (Option-cases (split_once 0 rest)) [
      | inl e ↦ rw (e, nul_body) tt
      | inr ((body, after), e) ↦
          let whole : Splits rest (some (body, after)) = rw e at (split_once-Splits 0 rest) in
          rw (e, nul_body) (ground (arith, whole, skip_one_lf_bounds (pos + length body + 1) after))
    ]

expect_nul-Consumes :
    (command : Bytes) (headers : List Header) (body : Bytes) (pos : ℕ) (rest : Bytes)
    → Consumes pos (pos + length rest) (expect_nul command headers body pos rest)
unfolding expect_nul
expect_nul-Consumes command headers body pos [] = tt
expect_nul-Consumes command headers body pos (c ∷ after) =
    ground (arith, skip_one_lf_bounds (pos + 1) after)

Consumes-le :
    (pos q len m : ℕ) (r : ParseResult) → pos ≤ q → m ≤ len → Consumes q m r → Consumes pos len r
Consumes-le pos q len m (ok (some p)) h k c = omega (arith, c.0, c.1)
Consumes-le pos q len m (ok none) h k c = tt
Consumes-le pos q len m (err e) h k c = tt

sized_body-Consumes :
    (max_frame_size : ℕ) (command : Bytes) (headers : List Header) (content_len pos : ℕ)
    (rest : Bytes)
    → Consumes pos
        (pos + length rest)
        (sized_body max_frame_size (pos + length rest) command headers content_len pos rest)
unfolding sized_body
sized_body-Consumes max_frame_size command headers content_len pos rest =
    let body =
      expect_nul-Consumes command headers (take content_len rest) (pos + content_len)
        (drop content_len rest) in
    elim (Bool-cases (ltb max_frame_size content_len)) [
      | inl large ↦ rw (large, sized_body) tt
      | inr small ↦ elim (Bool-cases (ltb (pos + content_len) u64_size)) [
        | inr wraps ↦ rw (small, wraps, sized_body) tt
        | inl first ↦ elim (Bool-cases (ltb (pos + content_len + 1) u64_size)) [
          | inr wraps ↦ rw (small, first, wraps, sized_body) tt
          | inl second ↦ elim (Bool-cases (ltb (pos + length rest) (pos + content_len + 1))) [
            | inl short ↦ rw (small, first, second, short, sized_body) tt
            | inr whole ↦
                rw (small, first, second, whole, sized_body)
                  (Consumes-le pos (pos + content_len) (pos + length rest) _ _ (omega arith)
                    (ground (arith, length-drop content_len rest)) body)
          ]
        ]
      ]
    ]

parse_body-Consumes :
    (max_frame_size : ℕ) (command : Bytes) (headers : List Header) (pos : ℕ) (rest : Bytes)
    → Consumes pos
        (pos + length rest)
        (parse_body max_frame_size (pos + length rest) command headers pos rest)
unfolding parse_body
parse_body-Consumes max_frame_size command headers pos rest =
    elim (Result-cases (get_content_length headers)) [
      | inl (none, e) ↦
          rw (e, parse_body) (nul_body-Consumes max_frame_size command headers pos rest)
      | inl (some n, e) ↦
          rw (e, parse_body) (sized_body-Consumes max_frame_size command headers n pos rest)
      | inr (x, e) ↦ rw (e, parse_body) tt
    ]

-- The headers end behind `pos`, with the position and the rest of the same input.
abbrev pub Reaches : ℕ → ℕ → HeaderLines → Type 0
Reaches pos len incomplete = Unit
Reaches pos len (malformed line) = Unit
Reaches pos len (complete headers q rest) = (pos < q) × (q + length rest ≡ len)

Reaches-le : (pos len : ℕ) (r : HeaderLines) → Reaches (pos + 1) len r → Reaches pos len r
Reaches-le pos len incomplete h = tt
Reaches-le pos len (malformed line) h = tt
Reaches-le pos len (complete headers q rest) h = omega (arith, h.0, h.1)

pub header_lines-Reaches :
    (line : Bytes) (pos : ℕ) (headers : List Header) (rest : Bytes) (len : ℕ)
    → pos + length rest ≡ len
    → Reaches pos len (header_lines line pos headers rest)
unfolding header_lines
header_lines-Reaches line pos headers [] len h = tt
header_lines-Reaches [] pos headers (c ∷ rest) len h = elim (Bool-cases (c == b'\n')) [
  | inl lf ↦ rw (lf, header_lines) (omega arith, omega arith)
  | inr other ↦
      rw (other, header_lines)
        (Reaches-le pos len _
          (header_lines-Reaches (c ∷ []) (pos + 1) headers rest len (omega arith)))
]
header_lines-Reaches (l ∷ ls) pos headers (c ∷ rest) len h = elim (Bool-cases (c == b'\n')) [
  | inr other ↦
      rw (other, header_lines)
        (Reaches-le pos len _
          (header_lines-Reaches (l ∷ ls ++ c ∷ []) (pos + 1) headers rest len (omega arith)))
  | inl lf ↦ elim (Option-cases (split_once b':' (strip_cr (l ∷ ls)))) [
    | inl e ↦ rw (lf, e, header_lines) tt
    | inr ((key, val), e) ↦
        rw (lf, e, header_lines)
          (Reaches-le pos len _
            (header_lines-Reaches [] (pos + 1) (headers ++ (key, val) ∷ []) rest len (omega arith)))
  ]
]

after_headers-Consumes :
    (max_frame_size : ℕ) (command : Bytes) (pos len : ℕ) (lines : HeaderLines)
    → Reaches pos len lines
    → Consumes pos len (after_headers max_frame_size len command lines)
unfolding after_headers
after_headers-Consumes max_frame_size command pos len incomplete h = tt
after_headers-Consumes max_frame_size command pos len (malformed line) h = tt
after_headers-Consumes max_frame_size command pos len (complete headers q rest) h =
    Consumes-le pos q len len _ (omega (arith, h.0)) (omega arith) (
      subst (λ n. Consumes q n (parse_body max_frame_size n command headers q rest)) h.1
        (parse_body-Consumes max_frame_size command headers q rest))

parse_at-Consumes :
    (max_frame_size pos : ℕ) (input : Bytes) (len : ℕ)
    → pos + length input ≡ len
    → Consumes pos len (parse_at max_frame_size len pos input)
unfolding parse_at
parse_at-Consumes max_frame_size pos input len h = elim (Option-cases (split_once b'\n' input)) [
  | inl e ↦ rw (e, parse_at, sym h) (nul_body-Consumes max_frame_size [] [] pos input)
  | inr ((line, rest), e) ↦
      let whole : Splits input (some (line, rest)) = rw e at (split_once-Splits b'\n' input) in
      let q : ℕ = pos + length line + 1 in
      rw (e, parse_at)
        (Consumes-le pos q len len _ (omega arith) (omega arith) (
          after_headers-Consumes max_frame_size (strip_cr line) q len _
            (header_lines-Reaches [] q [] rest len (omega (arith, whole)))))
]

-- A frame that the parser finds takes at least one byte and no more than the input has.
pub parse_frame-Consumes :
    (input : Bytes) (max_frame_size : ℕ)
    → Consumes 0 (length input) (parse_frame_slice_bounded input max_frame_size)
unfolding parse_frame_slice_bounded
parse_frame-Consumes input max_frame_size =
    Consumes-le 0 (skip_lfs 0 input).0 (length input) _ _ (omega arith) (omega arith) (
      parse_at-Consumes max_frame_size (skip_lfs 0 input).0 (skip_lfs 0 input).1 (length input)
        (omega (arith, skip_lfs_bounds 0 input)))
