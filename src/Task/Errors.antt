-- ===== src/Task/Errors.antt =====
-- connection.rs: the handling of RECEIPT and ERROR frames. `lowercase` is `str::to_lowercase`.
use iridium_stomp.Base.{
  ℕ, ◌+◌, ◌%◌, ◌^◌, Bool, false, List, [], ◌∷◌, ◌++◌, Option, none, some, Result, ok, err,
  unwrap_or, leb, ltb, if◌then◌else◌, length, is_empty,
}
use iridium_stomp.Base.Maps
use iridium_stomp.Base.Text.Decimal.{to_string}
use iridium_stomp.Base.Text.Search.{from_utf8_lossy, find, word, slice_from}
use iridium_stomp.Base.Text.Utf8.{Bytes, codes}
use iridium_stomp.Client.{Links, Client, settle_receipt}
use iridium_stomp.Delivery.{SubscriptionEntry}
use iridium_stomp.Frame.{Frame, header, get_header}
use iridium_stomp.Frame
use iridium_stomp.Registry.{Ends, end_subscription, lookup_destination_by_sub_id}
use iridium_stomp.ServerError.{from_frame, confirmed, refused}
use iridium_stomp.Subscription.{SubscriptionEnd}
use iridium_stomp.Task.{Task, next, panicked, contains, Turn, forward_inbound}

-- The message and the body of an ERROR as one text.
unfoldable pub error_text : Frame → Bytes
error_text f = unwrap_or (get_header f (codes "message")) [] ++ (b' ' ∷ from_utf8_lossy f.body)

-- The destination that starts with the prefix, at its first occurrence.
unfoldable pub destination_with : Bytes → Bytes → Option Bytes
destination_with prefix text = elim (find prefix text) [
  | none ↦ none
  | some start ↦ elim (slice_from start text) [
    | none ↦ none
    | some rest ↦ if ltb (length prefix) (length (word rest)) then some (word rest) else none
  ]
]

unfoldable pub extract_destination_from_error : Frame → Option Bytes
unfolding destination_with error_text
extract_destination_from_error f = elim (get_header f (codes "destination")) [
  | some dest ↦ some dest
  | none ↦ elim (destination_with (codes "/topic/") (error_text f)) [
    | some dest ↦ some dest
    | none ↦ destination_with (codes "/queue/") (error_text f)
  ]
]

pub data Panic : Type 0 where
  bad_slice : Panic

module _ (lowercase : Bytes → Bytes) where
  -- The position is found in the text in lower case, and used in the text itself.
  unfoldable pub subscription_id_in : Bytes → Result (Option Bytes) Panic
  subscription_id_in text = elim (find (codes "subscription ") (lowercase text)) [
    | none ↦ ok none
    | some start ↦ elim (slice_from (start + 13) text) [
      | none ↦ err bad_slice
      | some rest ↦ if is_empty (word rest) then ok none else ok (some (word rest))
    ]
  ]

  unfoldable pub extract_subscription_id_from_error : Frame → Result (Option Bytes) Panic
  unfolding subscription_id_in error_text
  extract_subscription_id_from_error f = subscription_id_in (error_text f)

abbrev pub subscription_error_threshold : ℕ
subscription_error_threshold = 3

unfoldable pub end_all : {S : Type 0} → List (SubscriptionEntry S) → SubscriptionEnd → Ends → Ends
end_all [] reason ends = ends
end_all (e ∷ es) reason ends = end_all es reason (end_subscription e.id reason ends)

abbrev pub abandon_message : ℕ → Bytes → Bytes
abandon_message count dest =
    codes "Subscription abandoned: " ++ (to_string count ++ (codes " errors for " ++ dest))

abbrev pub abandon_frame : ℕ → Bytes → Frame
abandon_frame count dest =
    header
      (header (header (Frame.new (codes "ERROR")) (codes "message") (abandon_message count dest))
        (codes "destination") dest)
      (codes "x-abandoned") (codes "true")

abbrev pub insert_id : Option Bytes → List Bytes → List Bytes
insert_id none ids = ids
insert_id (some id) ids = id ∷ ids

module _ (l : Links) where
  abbrev pub on_client : (Client l → Client l) → Task l → Task l
  on_client f t = record t { client = f t.client }

  unfoldable pub on_receipt : Frame → Task l → Turn l
  on_receipt f t = (on_client (settle_receipt l f confirmed) t, next)

  -- Give up the subscriptions of a destination that keeps failing.
  unfoldable pub abandon : Frame → Option Bytes → Bytes → ℕ → Task l → Task l
  unfolding end_all
  abandon f sub_id dest count t = elim (Maps.get dest t.client.subscriptions) [
    | none ↦ t
    | some entries ↦
        let reason = SubscriptionEnd.abandoned (unwrap_or (get_header f (codes "message")) []) in
        let c : Client l = record t.client {
          ended = end_all entries reason t.client.ended;
          subscriptions = Maps.remove dest t.client.subscriptions;
        } in
        forward_inbound l (abandon_frame count dest)
          (record t { client = c; abandoned_sub_ids = insert_id sub_id t.abandoned_sub_ids })
  ]

  -- Count an error of a destination; the counter is a `u32`.
  unfoldable pub count_error : Frame → Option Bytes → Bytes → Task l → Task l
  unfolding abandon
  count_error f sub_id dest t0 =
      let count = (unwrap_or (Maps.get dest t0.subscription_errors) 0 + 1) % 2 ^ 32 in
      let t1 : Task l = record t0 {
        subscription_errors = Maps.insert dest count t0.subscription_errors;
      } in
      if leb subscription_error_threshold count then abandon f sub_id dest count t1 else t1

  -- The destination that an ERROR is about, by its text or by the subscription that it names.
  unfoldable pub error_destination : Frame → Option Bytes → Task l → Option Bytes
  unfolding extract_destination_from_error
  error_destination f sub_id t = elim (extract_destination_from_error f) [
    | some dest ↦ some dest
    | none ↦ elim sub_id [
      | none ↦ none
      | some id ↦ lookup_destination_by_sub_id id t.client.subscriptions
    ]
  ]

  unfoldable pub note_error : Frame → Option Bytes → Task l → Task l
  unfolding count_error error_destination
  note_error f sub_id t = elim (error_destination f sub_id t) [
    | none ↦ t
    | some dest ↦ count_error f sub_id dest t
  ]

  abbrev pub is_abandoned : Option Bytes → Task l → Bool
  is_abandoned none t = false
  is_abandoned (some id) t = contains id t.abandoned_sub_ids

  -- After the receipt is settled.
  unfoldable pub after_refusal : Frame → Result (Option Bytes) Panic → Task l → Turn l
  unfolding note_error
  after_refusal f (err p) t = (t, panicked)
  after_refusal f (ok sub_id) t =
      if is_abandoned sub_id t
      then (t, next)
      else (forward_inbound l f (note_error f sub_id t), next)

  unfoldable pub on_error : (Bytes → Bytes) → Frame → Task l → Turn l
  unfolding after_refusal extract_subscription_id_from_error
  on_error lowercase f t =
      after_refusal f (extract_subscription_id_from_error lowercase f)
        (on_client (settle_receipt l f (refused (from_frame f))) t)
