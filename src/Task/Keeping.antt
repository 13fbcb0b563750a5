-- ===== src/Task/Keeping.antt =====
-- connection.rs: what the task and the calls, but for `subscribe`, do to the registry.
pub mod Calls
pub mod Messages
pub mod Events
use iridium_stomp.Base.{ℕ, false}
use iridium_stomp.Base.Maps
use iridium_stomp.Base.Text.Utf8.{Bytes}
use iridium_stomp.Client.{Links, Client}
use iridium_stomp.Frame.{Frame}
use iridium_stomp.Registry.{
  Subscriptions, drop_empty, discard_parked, remove_subscription, retain_others,
}
use iridium_stomp.Task.{Task}
use iridium_stomp.Task.Delivering.{Pass, deliver_all}
use iridium_stomp.Task.Lifecycle.{drain_all}
use iridium_stomp.Task.Message.{MessageIds}

-- A property of the registry and of the counter of ids that every operation but `subscribe` keeps.
pub record Stable (l : Links) : Type 1 where
  pub Holds : Subscriptions l.frames.Sender → ℕ → Type 0
  pub delivered :
      (f : Frame) (ids : MessageIds) (m : Subscriptions l.frames.Sender) (p : Pass) (n : ℕ)
      → Holds m n
      → Holds (deliver_all l f ids m p).0 n
  pub drained :
      (id : Bytes) (m : Subscriptions l.frames.Sender) (n : ℕ)
      → Holds m n
      → Holds (drop_empty (drain_all l id m false).0) n
  pub discarded :
      (m : Subscriptions l.frames.Sender) (n : ℕ) → Holds m n → Holds (discard_parked m) n
  pub abandoned :
      (dest : Bytes) (m : Subscriptions l.frames.Sender) (n : ℕ)
      → Holds m n
      → Holds (Maps.remove dest m) n
  pub unsubscribed :
      (id : Bytes) (m : Subscriptions l.frames.Sender) (n : ℕ)
      → Holds m n
      → Holds (remove_subscription id m) n
  pub dropped :
      (id : Bytes) (m : Subscriptions l.frames.Sender) (n : ℕ)
      → Holds m n
      → Holds (retain_others id m) n

module _ (l : Links) (k : Stable l) where
  abbrev pub InClient : Client l → Type 0
  InClient c = k.Holds c.subscriptions c.sub_id_counter

  abbrev pub InTask : Task l → Type 0
  InTask t = InClient t.client
