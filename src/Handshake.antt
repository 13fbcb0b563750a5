-- ===== src/Handshake.antt =====
-- connection.rs: the connect options, the CONNECT frame, the wait for CONNECTED and the retries of
-- the first connection. Times are in milliseconds, but for the back-off, which is in seconds.
pub mod Laws
pub mod Headers
use iridium_stomp.Base.{
  ℕ, ◌+◌, ◌*◌, min, Bool, true, false, not, List, [], ◌∷◌, ◌++◌, Option, none, some, Result, ok,
  err, unwrap_or, if◌then◌else◌, any,
}
use iridium_stomp.Base.Text.Ascii.{lowercase_is}
use iridium_stomp.Base.Text.Utf8.{Bytes, codes}
use iridium_stomp.Codec.{StompItem, heartbeat}
use iridium_stomp.Codec
use iridium_stomp.Frame.{Frame, Header, header, get_header}
use iridium_stomp.Frame
use iridium_stomp.Heartbeat.{parse_heartbeat_header, negotiate_heartbeats}
use iridium_stomp.Parser.{default_max_frame_size}
use iridium_stomp.ServerError.{ConnError, io, protocol, server_rejected, from_frame, has_command}

-- The notification channel is left out: what the application does with it is not modelled.
pub record ConnectOptions : Type 0 where
  pub accept_version : Option Bytes
  pub client_id : Option Bytes
  pub host : Option Bytes
  pub headers : List Header
  pub disconnect_timeout : Option ℕ
  pub connect_timeout : Option ℕ
  pub max_frame_size : Option ℕ

abbrev pub new : ConnectOptions
new = record {
  accept_version = none;
  client_id = none;
  host = none;
  headers = [];
  disconnect_timeout = none;
  connect_timeout = none;
  max_frame_size = none;
}

abbrev pub set_accept_version : ConnectOptions → Bytes → ConnectOptions
set_accept_version o version = record o { accept_version = some version }

abbrev pub set_client_id : ConnectOptions → Bytes → ConnectOptions
set_client_id o id = record o { client_id = some id }

abbrev pub set_host : ConnectOptions → Bytes → ConnectOptions
set_host o name = record o { host = some name }

abbrev pub custom_header : ConnectOptions → Bytes → Bytes → ConnectOptions
custom_header o key value = record o { headers = o.headers ++ (key, value) ∷ [] }

abbrev pub set_disconnect_timeout : ConnectOptions → ℕ → ConnectOptions
set_disconnect_timeout o timeout = record o { disconnect_timeout = some timeout }

abbrev pub set_connect_timeout : ConnectOptions → ℕ → ConnectOptions
set_connect_timeout o timeout = record o { connect_timeout = some timeout }

abbrev pub set_max_frame_size : ConnectOptions → ℕ → ConnectOptions
set_max_frame_size o size = record o { max_frame_size = some size }

abbrev pub frame_limit : ConnectOptions → ℕ
frame_limit o = unwrap_or o.max_frame_size default_max_frame_size

abbrev pub reserved : List Bytes
reserved =
    codes "accept-version"
    ∷ codes "host"
    ∷ codes "login"
    ∷ codes "passcode"
    ∷ codes "heart-beat"
    ∷ codes "client-id"
    ∷ []

unfoldable pub is_reserved : Bytes → Bool
is_reserved key = any (lowercase_is key) reserved

unfoldable pub add_custom : List Header → Frame → Frame
add_custom [] f = f
add_custom ((k, v) ∷ hs) f = add_custom hs (if not (is_reserved k) then header f k v else f)

unfoldable pub build_connect_frame :
    Bytes → Bytes → Bytes → Bytes → Bytes → Option Bytes → List Header → Frame
unfolding add_custom
build_connect_frame accept_version host login passcode heart_beat client_id custom_headers =
    let f0 = Frame.new (codes "CONNECT") in
    let f1 = header f0 (codes "accept-version") accept_version in
    let f2 = header f1 (codes "host") host in
    let f3 = header f2 (codes "login") login in
    let f4 = header f3 (codes "passcode") passcode in
    let f5 = header f4 (codes "heart-beat") heart_beat in
    let f6 : Frame = elim client_id [ none ↦ f5 | some id ↦ header f5 (codes "client-id") id ] in
    add_custom custom_headers f6

-- What the stream yields: an item, or an error. Where the list ends, the peer has closed it.
pub data Incoming : Type 0 where
  item : StompItem → Incoming
  failed : Bytes → Incoming

unfoldable pub await_connected_response : List Incoming → Result Bytes ConnError
await_connected_response [] = err (protocol (codes "connection closed before CONNECTED received"))
await_connected_response (failed e ∷ rest) = err (io e)
await_connected_response (item heartbeat ∷ rest) = await_connected_response rest
await_connected_response (item (Codec.frame f) ∷ rest) =
    if has_command f (codes "CONNECTED")
    then ok (unwrap_or (get_header f (codes "heart-beat")) (codes "0,0"))
    else if has_command f (codes "ERROR")
    then err (server_rejected (from_frame f))
    else await_connected_response rest

-- One attempt: the broker was not reached, the CONNECT frame was not sent, or the stream yielded
-- this much.
pub data Attempt : Type 0 where
  unreached unsent : Bytes → Attempt
  answered : List Incoming → Attempt

unfoldable pub attempt_result : Attempt → Result Bytes ConnError
unfolding await_connected_response
attempt_result (unreached e) = err (io e)
attempt_result (unsent e) = err (io e)
attempt_result (answered items) = await_connected_response items

abbrev pub next_backoff : ℕ → ℕ
next_backoff secs = min (secs * 2) 30

-- `Err(e @ ConnError::ServerRejected(_))`
abbrev pub is_final : ConnError → Bool
is_final (server_rejected e) = true
is_final _ = false

abbrev pub Intervals : Type 0
Intervals = Option ℕ × Option ℕ

-- The intervals that the client's and the server's headers lead to.
unfoldable pub agreed_intervals : Bytes → Bytes → Intervals
agreed_intervals client_hb server_hb =
    let (cx, cy) = parse_heartbeat_header client_hb in
    let (sx, sy) = parse_heartbeat_header server_hb in negotiate_heartbeats cx cy sx sy

-- The retry loop over the attempts that are made until the connect timeout, where there is one;
-- `waits` are the sleeps between them. The last error is returned if the time runs out.
pub record Connecting : Type 0 where
  pub result : Result Intervals ConnError
  pub waits : List ℕ

unfoldable pub connect_loop : Bytes → ℕ → Option ConnError → List Attempt → Connecting
unfolding attempt_result agreed_intervals
connect_loop client_hb backoff_secs last_err [] = record {
  result = err (unwrap_or last_err (io (codes "timed out")));
  waits = [];
}
connect_loop client_hb backoff_secs last_err (a ∷ rest) = elim (attempt_result a) [
  | ok server_hb ↦ record { result = ok (agreed_intervals client_hb server_hb); waits = [] }
  | err e ↦
      let later = connect_loop client_hb (next_backoff backoff_secs) (some e) rest in
      if is_final e
      then record { result = err e; waits = [] }
      else record { result = later.result; waits = backoff_secs ∷ later.waits }
]
