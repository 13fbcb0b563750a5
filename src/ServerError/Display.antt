-- ===== src/ServerError/Display.antt =====
-- connection.rs: the texts of errors.
use iridium_stomp.Base.{[], ◌++◌, Option, none, some}
use iridium_stomp.Base.Text.Utf8.{Bytes, codes}
use iridium_stomp.ServerError.{
  ServerError, ConnError, io, protocol, receipt_timeout, server_rejected, frame_rejected,
  missing_ack_id,
}

abbrev body_suffix : Option Bytes → Bytes
body_suffix none = []
body_suffix (some body) = codes " - " ++ body

unfoldable pub server_error_text : ServerError → Bytes
server_error_text e = codes "STOMP server error: " ++ (e.message ++ body_suffix e.body)

unfoldable pub conn_error_text : ConnError → Bytes
unfolding server_error_text
conn_error_text (io e) = codes "io error: " ++ e
conn_error_text (protocol e) = codes "protocol error: " ++ e
conn_error_text (receipt_timeout id) =
    codes "receipt timeout: no RECEIPT received for '" ++ (id ++ codes "' within timeout")
conn_error_text (server_rejected e) = codes "server rejected connection: " ++ server_error_text e
conn_error_text (frame_rejected e) = codes "frame rejected: " ++ server_error_text e
conn_error_text missing_ack_id = codes "frame has no `ack` or `message-id` header to acknowledge"
