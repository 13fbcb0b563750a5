-- ===== src/Cli/Keys/Safety.antt =====
-- That no key panics while only ASCII is typed, whatever the commands do.
use iridium_stomp.Base.{
  ℕ, zero, suc, ◌+◌, ◌-◌, ◌≤◌, ◌<◌, Bool, true, false, ◌≡◌, refl, sym, ap, ◌∙◌, inl, inr, List, [],
  ◌∷◌, Option, none, some, arith, if◌then◌else◌, length, take, drop, All, Option-cases, Bool-cases,
  is_empty, ltb, take-drop,
}
use iridium_stomp.Base.Maps.Queues.{All-drop}
use iridium_stomp.Base.Text.Utf8.{Bytes}
use iridium_stomp.Cli.History.{get_elem?, show_input, recall, history_prev, history_next}
use iridium_stomp.Cli.History.Walk.{get_elem?_lt}
use iridium_stomp.Cli.Keys.{Modifiers, on_up, on_down, on_edit_key, stay, no_modifiers}
use iridium_stomp.Cli.Keys.Editor.{
  Zipper, Edit, zip, Shows, Keeps, key_of, IsPlain, on_edit_key-Edits,
}
use iridium_stomp.Cli.Keys.Positions.{
  IsAscii, rev_onto, length-rev_onto, rev_onto-rev_onto, rev_onto-All,
}
use iridium_stomp.Cli.State.{AppState}
use mathlib.Core.Path.{subst}

-- Of either branch, of both.
pub if_lem {ℓ κ} :
    {A : Type ℓ} (P : A → Type κ) (b : Bool) (x y : A) → P x → P y → P (if b then x else y)
if_lem P true x y hx hy = hx
if_lem P false x y hx hy = hy

abbrev pub IsAsciiText : Bytes → Type 0
IsAsciiText = All IsAscii

abbrev pub IsIndex : Option ℕ → ℕ → Type 0
IsIndex none n = Unit
IsIndex (some i) n = i < n

-- All texts that can come into the input line are ASCII, the cursor is in it, and the history is
-- browsed within its bounds.
abbrev pub IsSound : AppState → Type 0
IsSound s =
    IsAsciiText s.input
    × (s.cursor_pos ≤ length s.input)
    × IsAsciiText s.saved_input
    × All IsAsciiText s.command_history
    × IsIndex s.history_index (length s.command_history)

take-All : (n : ℕ) (s : Bytes) → IsAsciiText s → IsAsciiText (take n s)
take-All zero s h = tt
take-All (suc n) [] h = tt
take-All (suc n) (c ∷ s) h = (h.0, take-All n s h.1)

pub length-take_le : (n : ℕ) (s : Bytes) → n ≤ length s → length (take n s) ≡ n
length-take_le zero s h = refl
length-take_le (suc n) [] h = elim h [ ]
length-take_le (suc n) (c ∷ s) h = omega (arith, length-take_le n s (omega arith))

-- The editor's view of a state.
abbrev pub view : AppState → Zipper
view s = zip (rev_onto (take s.cursor_pos s.input) []) (drop s.cursor_pos s.input)

view-Shows : (s : AppState) → IsSound s → Shows (view s) s
view-Shows s h =
    let b = take s.cursor_pos s.input in
    let a = drop s.cursor_pos s.input in
    record {
      text = sym (take-drop s.cursor_pos s.input) ∙ sym (rev_onto-rev_onto b [] a);
      cursor = omega (arith, length-rev_onto b [], length-take_le s.cursor_pos s.input h.1);
      ascii_before = rev_onto-All b [] (take-All s.cursor_pos s.input h.0) tt;
      ascii_after = All-drop IsAscii s.cursor_pos s.input h.0;
    }

Shows-IsSound : (z : Zipper) (s t : AppState) → Shows z t → Keeps s t → IsSound s → IsSound t
Shows-IsSound z s t h k i = (
  rw (h.text) (rev_onto-All z.before z.after h.ascii_before h.ascii_after),
  omega (arith, h.cursor, ap length (h.text), length-rev_onto z.before z.after),
  rw (k.2) (i.2),
  rw (k.0) (i.3),
  rw (k.0, k.1) (i.4),
)

-- A key that does not panic leaves a sound state, and says whether to quit.
abbrev pub IsSafe : Option (AppState × Bool) → Type 0
IsSafe none = ⊥
IsSafe (some (t, leave)) = IsSound t

pub edit-IsSafe :
    (e : Edit) (m : Modifiers) (s : AppState)
    → IsPlain e m
    → IsSound s
    → IsSafe (on_edit_key (key_of e) m s)
edit-IsSafe e m s p h =
    let (t, run, shown, kept) = on_edit_key-Edits e m (view s) s p (view-Shows s h) in
    rw run (Shows-IsSound _ s t shown kept h)

get_elem?-All :
    (xs : List Bytes) (i : ℕ) (x : Bytes)
    → All IsAsciiText xs
    → get_elem? xs i ≡ some x
    → IsAsciiText x
get_elem?-All [] i x h e = cc
get_elem?-All (y ∷ xs) zero x h e = ground (arith, h.0)
get_elem?-All (y ∷ xs) (suc i) x h e = get_elem?-All xs i x h.1 e

pub stay-IsSafe : (o : Option AppState) {t : AppState} → o ≡ some t → IsSound t → IsSafe (stay o)
stay-IsSafe o {t} e h = subst (λ p. IsSafe (stay p)) (sym e) h

recall-run :
    (i : ℕ) (s : AppState) (x : Bytes)
    → get_elem? s.command_history i ≡ some x
    → recall i s ≡ some (show_input x (record s { history_index = some i }))
unfolding recall
recall-run i s x e = rw (e, recall) refl

recall-IsSafe :
    (i : ℕ) (s : AppState) → i < length s.command_history → IsSound s → IsSafe (stay (recall i s))
recall-IsSafe i s k h =
    let (x, e) = get_elem?_lt s.command_history i k in
    stay-IsSafe (recall i s) (recall-run i s x e)
      (get_elem?-All s.command_history i x h.3 e, omega arith, h.2, h.3, k)

some-IsSafe : (s : AppState) → IsSound s → IsSafe (stay (some s))
some-IsSafe s h = h

pub history_prev-IsSafe : (s : AppState) → IsSound s → IsSafe (stay (history_prev s))
unfolding history_prev
history_prev-IsSafe s h = elim (Bool-cases (is_empty s.command_history)) [
  | inl nothing ↦ rw (nothing, history_prev) h
  | inr full ↦
      let some_command : 0 < length s.command_history = ground arith in
      elim (Option-cases s.history_index) [
        | inl e ↦
            let saved : IsSound (record s { saved_input = s.input }) = (h.0, h.1, h.0, h.3, h.4) in
            rw (full, e, history_prev)
              (recall-IsSafe (length s.command_history - 1) (record s { saved_input = s.input })
                (omega arith) saved)
        | inr (i, e) ↦
            let inside : i < length s.command_history = rw e at (h.4) in
            rw (full, e, history_prev)
              (if_lem (λ o. IsSafe (stay o)) (ltb 0 i) (recall (i - 1) s) (some s)
                (recall-IsSafe (i - 1) s (omega arith) h) h)
      ]
]

pub history_next-IsSafe : (s : AppState) → IsSound s → IsSafe (stay (history_next s))
unfolding history_next
history_next-IsSafe s h = elim (Option-cases s.history_index) [
  | inl e ↦ rw (e, history_next) h
  | inr (i, e) ↦ elim (Bool-cases (ltb (i + 1) (length s.command_history))) [
    | inl more ↦ rw (e, history_next) (rw more (recall-IsSafe (i + 1) s (ground arith) h))
    | inr last ↦ rw (e, history_next) (rw last (h.2, omega arith, h.2, h.3, tt))
  ]
]

pub on_up-IsSafe : (m : Modifiers) (s : AppState) → IsSound s → IsSafe (stay (on_up m s))
unfolding on_up
on_up-IsSafe m s h =
    if_lem (λ o. IsSafe (stay o)) m.control _ _ h
      (if_lem (λ o. IsSafe (stay o)) (no_modifiers m) (history_prev s) (some s)
        (history_prev-IsSafe s h) h)

pub on_down-IsSafe : (m : Modifiers) (s : AppState) → IsSound s → IsSafe (stay (on_down m s))
unfolding on_down
on_down-IsSafe m s h =
    if_lem (λ o. IsSafe (stay o)) m.control _ _ h
      (if_lem (λ o. IsSafe (stay o)) (no_modifiers m) (history_next s) (some s)
        (history_next-IsSafe s h) h)
