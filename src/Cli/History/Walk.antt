-- ===== src/Cli/History/Walk.antt =====
-- Walking back through the history and forth again.
use iridium_stomp.Base.{
  ℕ, zero, suc, ◌+◌, ◌-◌, ◌<◌, true, false, ◌≡◌, refl, ◌∙◌, List, [], ◌∷◌, Option, none, some, ltb,
  length, is_empty, arith,
}
use iridium_stomp.Base.Text.Utf8.{Bytes}
use iridium_stomp.Cli.History.{get_elem?, show_input, recall, history_prev, history_next}
use iridium_stomp.Cli.State.{AppState}

abbrev pub repeat : ℕ → (AppState → Option AppState) → AppState → Option AppState
repeat zero f s = some s
repeat (suc n) f s = elim (f s) [ none ↦ none | some t ↦ repeat n f t ]

repeat-suc :
    (n : ℕ) (f : AppState → Option AppState) (s t : AppState)
    → f s ≡ some t
    → repeat (suc n) f s ≡ repeat n f t
repeat-suc n f s t e = rw (e, repeat) refl

pub get_elem?_lt :
    (xs : List Bytes) (i : ℕ) → i < length xs → (x : Bytes) × (get_elem? xs i ≡ some x)
get_elem?_lt [] i h = elim h [ ]
get_elem?_lt (x ∷ xs) zero h = (x, refl)
get_elem?_lt (x ∷ xs) (suc i) h = get_elem?_lt xs i (omega arith)

-- The state that shows a command.
abbrev pub Recalls : ℕ → AppState → AppState → Type 0
Recalls i s t =
    (cmd : Bytes) × (get_elem? s.command_history i ≡ some cmd)
    × (t ≡ show_input cmd (record s { history_index = some i }))

pub recall_lt :
    (i : ℕ) (s : AppState)
    → i < length s.command_history
    → (t : AppState) × (recall i s ≡ some t) × Recalls i s t
unfolding recall
recall_lt i s h =
    let (cmd, e) = get_elem?_lt s.command_history i h in
    (show_input cmd (record s { history_index = some i }), rw (e, recall) refl, (cmd, e, refl))

-- While browsing from the state `s`, at the command of index `i`.
abbrev pub browsing : AppState → ℕ → Bytes → AppState
browsing s i cmd = show_input cmd (record s { saved_input = s.input; history_index = some i })

-- Back at the input that was saved.
abbrev pub returned : AppState → AppState
returned s = show_input s.input (record s { saved_input = s.input; history_index = none })

module _ (s : AppState) where
  history_prev-first :
      (m : ℕ) (cmd : Bytes)
      → s.history_index ≡ none
      → length s.command_history ≡ suc m
      → get_elem? s.command_history m ≡ some cmd
      → history_prev s ≡ some (browsing s m cmd)
  unfolding history_prev recall
  history_prev-first m cmd e n g =
      let full : is_empty s.command_history ≡ false = ground (arith, n) in
      let last : length s.command_history - 1 ≡ m = omega (arith, n) in
      rw (full, e, history_prev) (rw last (rw (g, recall) refl))

  history_prev-browsing :
      (i : ℕ) (c d : Bytes)
      → i < length s.command_history
      → get_elem? s.command_history i ≡ some d
      → history_prev (browsing s (suc i) c) ≡ some (browsing s i d)
  unfolding history_prev recall
  history_prev-browsing i c d h g =
      let full : is_empty s.command_history ≡ false = ground (arith, h) in
      let moves : ltb 0 (suc i) ≡ true = ground arith in
      let before : suc i - 1 ≡ i = omega arith in rw (full, moves) (rw before (rw (g, recall) refl))

  history_next-browsing :
      (i : ℕ) (c d : Bytes)
      → get_elem? s.command_history (i + 1) ≡ some d
      → i + 1 < length s.command_history
      → history_next (browsing s i c) ≡ some (browsing s (i + 1) d)
  unfolding history_next recall
  history_next-browsing i c d g h =
      let moves : ltb (i + 1) (length s.command_history) ≡ true = ground arith in
      rw moves (rw (g, recall) refl)

  history_next-last :
      (i : ℕ) (c : Bytes)
      → i + 1 ≡ length s.command_history
      → history_next (browsing s i c) ≡ some (returned s)
  unfolding history_next
  history_next-last i c h =
      let stays : ltb (i + 1) (length s.command_history) ≡ false = ground arith in rw stays refl

  back :
      (k i : ℕ) (c d : Bytes)
      → i + k < length s.command_history
      → get_elem? s.command_history i ≡ some d
      → get_elem? s.command_history (i + k) ≡ some c
      → repeat k history_prev (browsing s (i + k) c) ≡ some (browsing s i d)
  back zero i c d h g e =
      let same : i + 0 ≡ i = omega arith in
      let shown : c ≡ d = ground (arith, g, rw same at e) in rw (same, shown) refl
  back (suc k) i c d h g e =
      let (b, f) = get_elem?_lt s.command_history (i + k) (omega arith) in
      let index : i + suc k ≡ suc (i + k) = omega arith in
      rw index (
        repeat-suc k history_prev _ _ (history_prev-browsing (i + k) c b (omega arith) f)
        ∙ back k i b d (omega arith) g f)

  forth :
      (k i : ℕ) (c : Bytes)
      → i + suc k ≡ length s.command_history
      → repeat (suc k) history_next (browsing s i c) ≡ some (returned s)
  forth zero i c h =
      repeat-suc 0 history_next (browsing s i c) (returned s) (history_next-last i c (omega arith))
  forth (suc k) i c h =
      let (d, g) = get_elem?_lt s.command_history (i + 1) (omega arith) in
      repeat-suc (suc k) history_next (browsing s i c) (browsing s (i + 1) d)
        (history_next-browsing i c d g (omega arith))
      ∙ forth k (i + 1) d (omega arith)

  -- From an input that is being typed, any number of steps back through the history shows the
  -- command that many places from its end, and as many steps forth show the input again, with the
  -- cursor behind it. No step fails, as long as the history is long enough.
  pub history-walk :
      (k : ℕ)
      → s.history_index ≡ none
      → k < length s.command_history
      → (cmd : Bytes) × (get_elem? s.command_history (length s.command_history - 1 - k) ≡ some cmd)
        × (repeat (suc k) history_prev s ≡ some (browsing s (length s.command_history - 1 - k) cmd))
        × (repeat (suc k) history_next (browsing s (length s.command_history - 1 - k) cmd)
            ≡ some (returned s))
  history-walk k e h =
      let n = length s.command_history in
      let i = n - 1 - k in
      let (cmd, g) = get_elem?_lt s.command_history i (omega arith) in
      let (newest, f) = get_elem?_lt s.command_history (i + k) (omega arith) in
      let first = history_prev-first (i + k) newest e (omega arith) f in
      (
        cmd,
        g,
        repeat-suc k history_prev s (browsing s (i + k) newest) first
            ∙ back k i newest cmd (omega arith) g f,
        forth k i cmd (omega arith),
      )
