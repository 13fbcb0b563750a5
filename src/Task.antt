-- ===== src/Task.antt =====
-- connection.rs: the background task's state, and its handling of what the application queued. A
-- branch of the task's `select!` is a function from the state to the state and where the loop goes
-- on; which branch runs is the environment's choice.
pub mod Message
pub mod Delivering
pub mod Dispatch
pub mod Errors
pub mod Lifecycle
pub mod Ending
pub mod Abandoning
pub mod Sweeping
pub mod Replaying
pub mod Recovery
pub mod Steps
pub mod Queues
pub mod Registered
pub mod Keeping
pub mod Sessions
pub mod Waiting
use iridium_stomp.Base.{
  ℕ, Bool, true, false, List, [], ◌∷◌, ◌++◌, Option, none, some, if◌then◌else◌, any, ◌≡◌, refl, ◌⊎◌,
  inl, inr,
}
use iridium_stomp.Base.Maps
use iridium_stomp.Base.Maps.{Map}
use iridium_stomp.Base.Text.Utf8.{Bytes, codes, bytes_eq}
use iridium_stomp.Channel.{Mpsc}
use iridium_stomp.Client.{Links, Client}
use iridium_stomp.Codec.{StompItem, heartbeat}
use iridium_stomp.Codec
use iridium_stomp.Frame.{Frame, get_header}
use iridium_stomp.Outbound.{Outbound, writable_in}
use iridium_stomp.Pending.{PendingMap}
use iridium_stomp.ServerError.{has_command}

-- `parked` is the wake list, by subscription id; the sets are lists.
pub record Task (l : Links) : Type 0 where
  pub client : Client l
  pub session : ℕ
  pub subscription_errors : Map ℕ
  pub abandoned_sub_ids : List Bytes
  pub overflowed_sub_ids : List Bytes
  pub parked : List Bytes
  pub inbound : l.frames.Sender
  pub sink : l.sink.Sender
  pub backoff_secs : ℕ

-- The next pass of the connection's loop, the end of this connection (`break 'conn`), or a panic,
-- which ends the task.
pub data Flow : Type 0 where
  next broken panicked : Flow

pub Flow-cases : (f : Flow) → (f ≡ next) ⊎ (f ≡ broken) ⊎ (f ≡ panicked)
Flow-cases next = inl refl
Flow-cases broken = inr (inl refl)
Flow-cases panicked = inr (inr refl)

abbrev pub contains : Bytes → List Bytes → Bool
contains id = any (λ j. bytes_eq j id)

-- The pending queues without the one of a subscription whose UNSUBSCRIBE is written.
unfoldable pub forget_unsubscribed : StompItem → PendingMap → PendingMap
forget_unsubscribed heartbeat p = p
forget_unsubscribed (Codec.frame f) p =
    if has_command f (codes "UNSUBSCRIBE")
    then (elim (get_header f (codes "id")) [ none ↦ p | some id ↦ Maps.remove id p ])
    else p

module _ (l : Links) where
  abbrev pub Turn : Type 0
  Turn = Task l × Flow

  abbrev pub set_pending : PendingMap → Task l → Task l
  set_pending p t = record t { client = record t.client { pending = p } }

  -- `sink.send(…).await`, which ends the connection if it fails.
  unfoldable pub write : StompItem → Task l → Turn
  write i t =
      let (s, accepted) = l.sink.send t.sink i in
      (record t { sink = s }, if accepted then next else broken)

  unfoldable pub on_outbound : Outbound → Task l → Turn
  unfolding write
  on_outbound o t = elim (writable_in o t.session) [
    | none ↦ (t, next)
    | some i ↦ write i (set_pending (forget_unsubscribed i t.client.pending) t)
  ]

  -- `forward_inbound`: a frame that finds the channel full or closed is dropped.
  unfoldable pub forward_inbound : Frame → Task l → Task l
  forward_inbound f t = record t { inbound = (l.frames.try_send t.inbound f).0 }
