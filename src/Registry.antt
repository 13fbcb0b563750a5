-- ===== src/Registry.antt =====
-- connection.rs: the registry of subscriptions by destination. A handle's `ended` cell is written
-- once; the cells are kept by subscription id.
pub mod Entries
pub mod Endings
pub mod Removal
pub mod Copies
use iridium_stomp.Base.{
  Bool, not, ◌&&◌, List, [], ◌∷◌, ◌++◌, Option, none, some, unwrap_or, if◌then◌else◌, map, any,
  retain, is_empty,
}
use iridium_stomp.Base.Maps
use iridium_stomp.Base.Maps.{Map}
use iridium_stomp.Base.Text.Utf8.{Bytes, codes, bytes_eq}
use iridium_stomp.Delivery.{SubscriptionEntry, reset_warnings}
use iridium_stomp.Frame.{Frame, Header, header}
use iridium_stomp.Frame
use iridium_stomp.Subscription.{AckMode, acknowledges, as_str, SubscriptionEnd}

-- The `ended` cells that have been set.
abbrev pub Ends : Type 0
Ends = Map SubscriptionEnd

-- `OnceLock::set`: the first reason stays.
unfoldable pub end_subscription : Bytes → SubscriptionEnd → Ends → Ends
end_subscription id reason ends = elim (Maps.get id ends) [
  | none ↦ Maps.insert id reason ends
  | some first ↦ ends
]

abbrev pub Subscriptions : Type 0 → Type 0
Subscriptions S = Map (List (SubscriptionEntry S))

unfoldable pub extend_frame : Frame → List Header → Frame
extend_frame f [] = f
extend_frame f ((k, v) ∷ hs) = extend_frame (header f k v) hs

-- The SUBSCRIBE frame, for `subscribe` and for the replay after a reconnect.
unfoldable pub subscribe_frame : Bytes → Bytes → AckMode → List Header → Frame
unfolding extend_frame as_str
subscribe_frame id destination ack headers =
    extend_frame
      (header
        (header (header (Frame.new (codes "SUBSCRIBE")) (codes "id") id) (codes "destination")
          destination)
        (codes "ack") (as_str ack))
      headers

module _ {S : Type 0} where
  -- `entry(destination).or_insert_with(Vec::new).push(e)`
  unfoldable pub add_entry : Bytes → SubscriptionEntry S → Subscriptions S → Subscriptions S
  add_entry destination e m =
      Maps.insert destination (unwrap_or (Maps.get destination m) [] ++ e ∷ []) m

  abbrev pub has_id : Bytes → SubscriptionEntry S → Bool
  has_id id e = bytes_eq e.id id

  -- `values().flatten()`
  unfoldable pub entries : Subscriptions S → List (SubscriptionEntry S)
  entries [] = []
  entries ((dest, vec) ∷ m) = vec ++ entries m

  unfoldable pub find_entry : Bytes → List (SubscriptionEntry S) → Option (SubscriptionEntry S)
  find_entry id [] = none
  find_entry id (e ∷ es) = if has_id id e then some e else find_entry id es

  -- The acknowledgement mode of a subscription that the library manages.
  unfoldable pub managed_mode : Bytes → Subscriptions S → Option AckMode
  unfolding find_entry entries
  managed_mode id m = elim (find_entry id (entries m)) [ none ↦ none | some e ↦ some e.ack ]

  unfoldable pub lookup_destination_by_sub_id : Bytes → Subscriptions S → Option Bytes
  lookup_destination_by_sub_id id [] = none
  lookup_destination_by_sub_id id ((dest, vec) ∷ m) =
      if any (has_id id) vec then some dest else lookup_destination_by_sub_id id m

  -- `map.retain(|_, vec| !vec.is_empty())`
  unfoldable pub drop_empty : Subscriptions S → Subscriptions S
  drop_empty [] = []
  drop_empty ((dest, vec) ∷ m) = if is_empty vec then drop_empty m else (dest, vec) ∷ drop_empty m

  -- The vector without its first entry of the id.
  unfoldable pub remove_first : Bytes → List (SubscriptionEntry S) → List (SubscriptionEntry S)
  remove_first id [] = []
  remove_first id (e ∷ es) = if has_id id e then es else e ∷ remove_first id es

  unfoldable pub remove_in_each : Bytes → Subscriptions S → Subscriptions S
  unfolding remove_first
  remove_in_each id [] = []
  remove_in_each id ((dest, vec) ∷ m) = (dest, remove_first id vec) ∷ remove_in_each id m

  unfoldable pub retain_in_each : Bytes → Subscriptions S → Subscriptions S
  retain_in_each id [] = []
  retain_in_each id ((dest, vec) ∷ m) =
      (dest, retain (λ e. not (has_id id e)) vec) ∷ retain_in_each id m

  unfoldable pub is_registered : Bytes → Subscriptions S → Bool
  unfolding entries
  is_registered id m = any (has_id id) (entries m)

  -- The loop of `unsubscribe`.
  unfoldable pub remove_subscription : Bytes → Subscriptions S → Subscriptions S
  unfolding drop_empty remove_in_each
  remove_subscription id m = drop_empty (remove_in_each id m)

  -- The same in `unsubscribe_best_effort`.
  unfoldable pub retain_others : Bytes → Subscriptions S → Subscriptions S
  unfolding drop_empty retain_in_each
  retain_others id m = drop_empty (retain_in_each id m)

  -- A wake-list item stays while its subscription is registered and has frames parked.
  unfoldable pub prune_parked : List Bytes → Subscriptions S → List Bytes
  unfolding entries
  prune_parked parked m =
      retain (λ id. any (λ e. has_id id e && not (is_empty e.overflow.queue)) (entries m)) parked

  abbrev pub discard : SubscriptionEntry S → SubscriptionEntry S
  discard e =
      if acknowledges e.ack && not (is_empty e.overflow.queue)
      then record e { overflow = reset_warnings (record e.overflow { queue = [] }) }
      else e

  -- What a new connection makes of the frames parked on the old one.
  unfoldable pub discard_parked : Subscriptions S → Subscriptions S
  discard_parked [] = []
  discard_parked ((dest, vec) ∷ m) = (dest, map discard vec) ∷ discard_parked m

  abbrev pub resubscribe : Bytes → SubscriptionEntry S → Frame
  resubscribe dest e = subscribe_frame e.id dest e.ack e.headers

  -- The SUBSCRIBE frames that a reconnect sends.
  unfoldable pub resubscribe_frames : Subscriptions S → List Frame
  unfolding subscribe_frame
  resubscribe_frames [] = []
  resubscribe_frames ((dest, vec) ∷ m) = map (resubscribe dest) vec ++ resubscribe_frames m
