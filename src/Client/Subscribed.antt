-- ===== src/Client/Subscribed.antt =====
-- What subscribing registers and sends.
use iridium_stomp.Base.{List, [], unwrap_or}
use iridium_stomp.Base.Maps
use iridium_stomp.Base.Text.Utf8.{Bytes}
use iridium_stomp.Client.{Links, Client}
use iridium_stomp.Delivery.{SubscriptionEntry}
use iridium_stomp.Outbound.{Outbound}

module _ (l : Links) where
  -- The entries of a destination.
  abbrev pub subscribed : Bytes → Client l → List (SubscriptionEntry l.frames.Sender)
  subscribed destination c = unwrap_or (Maps.get destination c.subscriptions) []
