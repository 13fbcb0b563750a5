-- ===== src/Client/Dropping.antt =====
-- Dropping the handle of a subscription.
use iridium_stomp.Base.Maps
use iridium_stomp.Client.{Client, Subscription}
