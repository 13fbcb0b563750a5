-- ===== src/Cli/State/Journal.antt =====
-- The state's buffers and counters against a journal that forgets nothing.
use iridium_stomp.Base.{
  ℕ, zero, suc, ◌+◌, ◌-◌, ◌%◌, ◌≤◌, Bool, true, false, ◌≡◌, refl, ap, ◌∙◌, inl, inr, List, [], ◌∷◌,
  ◌++◌, arith, Bool-cases, ltb, ◌||◌, if◌then◌else◌, length, drop, length-append, length-drop,
  unwrap_or,
}
use iridium_stomp.Base.Maps
use iridium_stomp.Base.Maps.Laws.{get-insert}
use iridium_stomp.Base.Text.Bytes.{bytes_eq_iff}
use iridium_stomp.Base.Text.Decimal.{u64_size}
use iridium_stomp.Base.Text.Utf8.{Bytes, bytes_eq, codes}
use iridium_stomp.Frame.{Header}
use iridium_stomp.Cli.State.{
  max_messages, max_errors, DisplayMessage, AppState, default, increment, trim_front, broker_error,
  record_error, count, count_message, show_message, record_message,
}

-- The last members of a list.
abbrev pub latest : ℕ → List DisplayMessage → List DisplayMessage
latest n ms = drop (length ms - n) ms

drop_nil : (n : ℕ) → drop {A = DisplayMessage} n [] ≡ []
drop_nil zero = refl
drop_nil (suc n) = refl

trim_front-eq-latest : (n : ℕ) (ms : List DisplayMessage) → trim_front n ms ≡ latest n ms
unfolding trim_front
trim_front-eq-latest n [] = rw (drop_nil (0 - n)) refl
trim_front-eq-latest n (m ∷ ms) = elim (Bool-cases (ltb n (length (m ∷ ms)))) [
  | inl long ↦
      let e : length (m ∷ ms) - n ≡ suc (length ms - n) = ground arith in
      rw (long, e) (trim_front-eq-latest n ms)
  | inr short ↦ let e : length (m ∷ ms) - n ≡ 0 = ground arith in rw (short, e) refl
]

drop-append_le :
    (k : ℕ) (ms : List DisplayMessage) (m : DisplayMessage)
    → k ≤ length ms
    → drop k ms ++ m ∷ [] ≡ drop k (ms ++ m ∷ [])
drop-append_le zero ms m h = refl
drop-append_le (suc k) [] m h = absurd (omega arith)
drop-append_le (suc k) (x ∷ ms) m h = drop-append_le k ms m (omega arith)

drop-drop : (j k : ℕ) (ms : List DisplayMessage) → drop j (drop k ms) ≡ drop (k + j) ms
drop-drop j zero ms = let e : 0 + j ≡ j = omega arith in rw e refl
drop-drop j (suc k) [] = drop_nil j ∙ (rw (drop_nil (suc k + j)) refl)
drop-drop j (suc k) (x ∷ ms) =
    let e : suc k + j ≡ suc (k + j) = omega arith in rw e (drop-drop j k ms)

-- To append to what is shown of a list shows what the longer list does.
latest-append :
    (n : ℕ) (ms : List DisplayMessage) (m : DisplayMessage)
    → latest n (latest n ms ++ m ∷ []) ≡ latest n (ms ++ m ∷ [])
latest-append n ms m =
    let k = length ms - n in
    let all = ms ++ m ∷ [] in
    let moved = drop-append_le k ms m (omega arith) in
    let size : length all ≡ length ms + 1 = length-append ms (m ∷ []) in
    let e : k + (length (drop k all) - n) ≡ length all - n =
      omega (arith, length-drop k all, size) in
    rw moved (drop-drop (length (drop k all) - n) k all ∙ ap (λ j. drop j all) e)

trim_front-append :
    (n : ℕ) (ms : List DisplayMessage) (m : DisplayMessage)
    → trim_front n (latest n ms ++ m ∷ []) ≡ latest n (ms ++ m ∷ [])
trim_front-append n ms m = trim_front-eq-latest n (latest n ms ++ m ∷ []) ∙ latest-append n ms m

-- The destinations of all messages that were ever recorded, and those of the two panes.
pub record Journal : Type 0 where
  pub seen : List Bytes
  pub messages : List DisplayMessage
  pub errors : List DisplayMessage

abbrev pub blank : Journal
blank = record { seen = []; messages = []; errors = [] }

unfoldable pub note : DisplayMessage → Journal → Journal
note m j =
    if bytes_eq m.destination broker_error
    then record j { seen = m.destination ∷ j.seen; errors = j.errors ++ m ∷ [] }
    else record j { seen = m.destination ∷ j.seen; messages = j.messages ++ m ∷ [] }

abbrev pub occurrences : Bytes → List Bytes → ℕ
occurrences d [] = 0
occurrences d (e ∷ ds) = (if bytes_eq e d then 1 else 0) + occurrences d ds

-- The counter of a destination.
abbrev pub counted : Bytes → AppState → ℕ
counted d s = (unwrap_or (Maps.get d s.subscriptions) default).message_count

-- The words that are no destinations.
abbrev pub is_label : Bytes → Bool
is_label d =
    bytes_eq d (codes "SENT")
    || bytes_eq d (codes "ERROR")
    || bytes_eq d broker_error
    || bytes_eq d (codes "WARN")
    || bytes_eq d (codes "INFO")

-- The panes show the latest messages of the journal, and the counters count all of them.
pub record Shows (s : AppState) (j : Journal) : Type 0 where
  pub messages : s.messages ≡ latest max_messages j.messages
  pub errors : s.errors ≡ latest max_errors j.errors
  pub sent : s.sent_count ≡ occurrences (codes "SENT") j.seen % u64_size
  pub failed :
      s.error_count
      ≡ (occurrences (codes "ERROR") j.seen + occurrences broker_error j.seen) % u64_size
  pub warned : s.warning_count ≡ occurrences (codes "WARN") j.seen % u64_size
  pub informed : s.info_count ≡ occurrences (codes "INFO") j.seen % u64_size
  pub received : (d : Bytes) → is_label d ≡ false → counted d s ≡ occurrences d j.seen % u64_size

label_lem : (d x y : Bytes) → bytes_eq x y ≡ false → bytes_eq d x ≡ true → bytes_eq d y ≡ false
label_lem d x y ne e = rw ((bytes_eq_iff d x).0 e) ne

count-panes :
    (d : Bytes) (s : AppState)
    → ((count d s).messages ≡ s.messages) × ((count d s).errors ≡ s.errors)
unfolding count
count-panes d s = ground arith

module _ (now : ℕ) (d body : Bytes) (headers : List Header) {s : AppState} {j : Journal}
    (h : Shows s j) where
  abbrev entry : DisplayMessage
  entry = record { timestamp = now; destination = d; body = body; headers = headers }

  abbrev entry_of_error : DisplayMessage
  entry_of_error = record entry { destination = broker_error }

  abbrev after : AppState
  after = record_message now d body headers s

  abbrev noted : Journal
  noted = note entry j

  record_message-messages : after.messages ≡ latest max_messages noted.messages
  unfolding record_message record_error show_message note
  record_message-messages = elim (Bool-cases (bytes_eq d broker_error)) [
    | inl e ↦ rw e (h.messages)
    | inr e ↦
        rw (e, (count-panes d s).0, h.messages) (trim_front-append max_messages j.messages entry)
  ]

  record_message-errors : after.errors ≡ latest max_errors noted.errors
  unfolding record_message record_error show_message note
  record_message-errors = elim (Bool-cases (bytes_eq d broker_error)) [
    | inl e ↦
        rw (e, h.errors, (bytes_eq_iff d broker_error).0 e)
          (trim_front-append max_errors j.errors entry_of_error)
    | inr e ↦ rw (e, (count-panes d s).1) (h.errors)
  ]

  record_message-sent : after.sent_count ≡ occurrences (codes "SENT") noted.seen % u64_size
  unfolding record_message record_error show_message count note bytes_eq
  record_message-sent = ground (arith, h.sent, label_lem d broker_error (codes "SENT"))

  record_message-failed :
      after.error_count
      ≡ (occurrences (codes "ERROR") noted.seen + occurrences broker_error noted.seen) % u64_size
  unfolding record_message record_error show_message count note bytes_eq
  record_message-failed = ground (
    arith,
    h.failed,
    label_lem d broker_error (codes "ERROR"),
    label_lem d (codes "SENT") (codes "ERROR"),
  )

  record_message-warned : after.warning_count ≡ occurrences (codes "WARN") noted.seen % u64_size
  unfolding record_message record_error show_message count note bytes_eq
  record_message-warned = ground (
    arith,
    h.warned,
    label_lem d broker_error (codes "WARN"),
    label_lem d (codes "SENT") (codes "WARN"),
    label_lem d (codes "ERROR") (codes "WARN"),
  )

  record_message-informed : after.info_count ≡ occurrences (codes "INFO") noted.seen % u64_size
  unfolding record_message record_error show_message count note bytes_eq
  record_message-informed = ground (
    arith,
    h.informed,
    label_lem d broker_error (codes "INFO"),
    label_lem d (codes "SENT") (codes "INFO"),
    label_lem d (codes "ERROR") (codes "INFO"),
    label_lem d (codes "WARN") (codes "INFO"),
  )

  record_message-received :
      (k : Bytes) → is_label k ≡ false → counted k after ≡ occurrences k noted.seen % u64_size
  unfolding record_message record_error show_message count note count_message
  record_message-received k e = ground (
    arith,
    h.received k e,
    bytes_eq_iff d k,
    get-insert d k (record { message_count = increment (counted d s) }) s.subscriptions,
  )

  -- Recording a message shows it where it belongs and counts it: the panes are then the latest
  -- messages of a journal with that message too, and the counters count all of it.
  pub record_message-Shows : Shows after noted
  record_message-Shows = record {
    messages = record_message-messages;
    errors = record_message-errors;
    sent = record_message-sent;
    failed = record_message-failed;
    warned = record_message-warned;
    informed = record_message-informed;
    received = record_message-received;
  }
