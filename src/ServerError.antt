-- ===== src/ServerError.antt =====
-- connection.rs: the errors of a connection, and what `next_frame` yields.
pub mod Display
use iridium_stomp.Base.{Bool, true, false, Option, none, some, unwrap_or, if◌then◌else◌, is_empty}
use iridium_stomp.Base.Text.Utf8.{Bytes, codes, is_utf8, bytes_eq}
use iridium_stomp.Frame.{Frame, get_header}

pub record ServerError : Type 0 where
  pub message : Bytes
  pub body : Option Bytes
  pub receipt_id : Option Bytes
  pub frame : Frame

-- The body of an ERROR, where it is text.
unfoldable pub body_text : Bytes → Option Bytes
body_text body = if is_empty body then none else if is_utf8 body then some body else none

unfoldable pub from_frame : Frame → ServerError
unfolding body_text
from_frame f = record {
  message = unwrap_or (get_header f (codes "message")) (codes "unknown error");
  body = body_text f.body;
  receipt_id = get_header f (codes "receipt-id");
  frame = f;
}

-- The broker's answer to a frame that asked for a receipt.
pub data ReceiptOutcome : Type 0 where
  confirmed : ReceiptOutcome
  refused : ServerError → ReceiptOutcome

-- An `io::Error` is known by its message.
pub data ConnError : Type 0 where
  io protocol receipt_timeout : Bytes → ConnError
  server_rejected frame_rejected : ServerError → ConnError
  missing_ack_id : ConnError

pub data ReceivedFrame : Type 0 where
  frame : Frame → ReceivedFrame
  error : ServerError → ReceivedFrame

unfoldable pub is_error : ReceivedFrame → Bool
is_error (frame f) = false
is_error (error e) = true

unfoldable pub is_frame : ReceivedFrame → Bool
is_frame (frame f) = true
is_frame (error e) = false

unfoldable pub into_frame : ReceivedFrame → Option Frame
into_frame (frame f) = some f
into_frame (error e) = none

unfoldable pub into_error : ReceivedFrame → Option ServerError
into_error (frame f) = none
into_error (error e) = some e

-- `frame.command == "…"`
abbrev pub has_command : Frame → Bytes → Bool
has_command f command = bytes_eq f.command command

-- The conversion in `next_frame`.
unfoldable pub received_frame : Frame → ReceivedFrame
unfolding from_frame
received_frame f = if has_command f (codes "ERROR") then error (from_frame f) else frame f

-- `next_frame`, on what the inbound channel yields: nothing once it is closed.
unfoldable pub next_frame : Option Frame → Option ReceivedFrame
unfolding received_frame
next_frame none = none
next_frame (some f) = some (received_frame f)
