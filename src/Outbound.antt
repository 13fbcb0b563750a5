-- ===== src/Outbound.antt =====
-- connection.rs: what the application's calls queue for the background task to write.
use iridium_stomp.Base.{ℕ, Option, none, some, ◌==◌, if◌then◌else◌}
use iridium_stomp.Codec.{StompItem, frame}
use iridium_stomp.Frame.{Frame}

pub data Outbound : Type 0 where
  item : StompItem → Outbound
  ack : Frame → ℕ → Outbound

-- What to write on connection `session`: an acknowledgement issued for another one is not.
unfoldable pub writable_in : Outbound → ℕ → Option StompItem
writable_in (item i) session = some i
writable_in (ack f issued) session = if issued == session then some (frame f) else none
