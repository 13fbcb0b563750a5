-- ===== src/Subscription.antt =====
-- subscription.rs: the options and the handle of a subscription, and the acknowledgement modes of
-- connection.rs.
use iridium_stomp.Base.{ℕ, Bool, true, false, List, [], ◌∷◌, ◌++◌, Option, none, some}
use iridium_stomp.Base.Text.Utf8.{Bytes, codes}
use iridium_stomp.Frame.{Header}

pub data AckMode : Type 0 where
  auto client client_individual : AckMode

unfoldable pub as_str : AckMode → Bytes
as_str auto = codes "auto"
as_str client = codes "client"
as_str client_individual = codes "client-individual"

-- `ack != AckMode::Auto`
abbrev pub acknowledges : AckMode → Bool
acknowledges auto = false
acknowledges client = true
acknowledges client_individual = true

pub record SubscriptionOptions : Type 0 where
  pub headers : List Header
  pub channel_capacity : Option ℕ
  pub overflow_limit : Option ℕ

abbrev pub default_channel_capacity : ℕ
default_channel_capacity = 16

abbrev pub default_overflow_limit : ℕ
default_overflow_limit = 1024

abbrev pub new : SubscriptionOptions
new = record { headers = []; channel_capacity = none; overflow_limit = none }

abbrev pub header : SubscriptionOptions → Bytes → Bytes → SubscriptionOptions
header o key value = record o { headers = o.headers ++ (key, value) ∷ [] }

abbrev pub set_headers : SubscriptionOptions → List Header → SubscriptionOptions
set_headers o headers = record o { headers = headers }

abbrev pub set_channel_capacity : SubscriptionOptions → ℕ → SubscriptionOptions
set_channel_capacity o capacity = record o { channel_capacity = some capacity }

abbrev pub set_overflow_limit : SubscriptionOptions → ℕ → SubscriptionOptions
set_overflow_limit o limit = record o { overflow_limit = some limit }

-- Why a subscription stopped yielding frames.
pub data SubscriptionEnd : Type 0 where
  abandoned : Bytes → SubscriptionEnd
  overflowed : ℕ → SubscriptionEnd
  unsubscribed : SubscriptionEnd
  connection_closed : SubscriptionEnd
