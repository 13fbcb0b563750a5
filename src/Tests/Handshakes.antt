-- ===== src/Tests/Handshakes.antt =====
-- Heart-beats and the handshake.
use iridium_stomp.Base.{List, [], ◌∷◌, ◌++◌, inr, none, err, All, ◌≡◌, refl, arith}
use iridium_stomp.Base.Text.Utf8.{codes, bytes_eq}
use iridium_stomp.Codec.{frame}
use iridium_stomp.Frame.{Frame, Header, header}
use iridium_stomp.Frame
use iridium_stomp.Handshake.Headers.{values, built, build_connect_frame-reserved}
use iridium_stomp.Handshake.Laws.{IsRetried, outcome_of, connect_loop-decides}
use iridium_stomp.Handshake.{
  Attempt, unreached, unsent, answered, item, attempt_result, connect_loop,
}
use iridium_stomp.Heartbeat.Negotiation.{Agrees, parse-display, negotiate_agreement}
use iridium_stomp.Heartbeat.{default, display, parse_heartbeat_header, negotiate_heartbeats}
use iridium_stomp.ServerError.{io, server_rejected, from_frame}

parse-display_example : parse_heartbeat_header (display default) ≡ (10000, 10000)
parse-display_example = parse-display default (omega arith) (omega arith)

negotiate_agreement_example :
    ((negotiate_heartbeats 5000 0 10000 3000).0 ≡ (negotiate_heartbeats 10000 3000 5000 0).1)
    × ((negotiate_heartbeats 5000 0 10000 3000).1 ≡ (negotiate_heartbeats 10000 3000 5000 0).0)
    × Agrees 5000 3000 (negotiate_heartbeats 5000 0 10000 3000).0
negotiate_agreement_example = negotiate_agreement 5000 0 10000 3000

abbrev refusal : Frame
refusal = header (Frame.new (codes "ERROR")) (codes "message") (codes "bad password")

abbrev attempts : List Attempt
attempts = unreached (codes "refused") ∷ unsent (codes "reset") ∷ []

abbrev refused : Attempt
refused = answered (item (frame refusal) ∷ [])

refused_result : attempt_result refused ≡ err (server_rejected (from_frame refusal))
unfolding attempt_result bytes_eq
refused_result = refl

attempts-IsRetried : All IsRetried attempts
unfolding attempt_result
attempts-IsRetried = ((io (codes "refused"), refl, refl), ((io (codes "reset"), refl, refl), tt))

connect_loop-decides_example :
    ((connect_loop (codes "0,0") 1 none (attempts ++ (refused ∷ []))).result
      ≡ outcome_of (codes "0,0") (attempt_result refused))
    × ((connect_loop (codes "0,0") 1 none (attempts ++ (refused ∷ []))).waits ≡ 1 ∷ 2 ∷ [])
connect_loop-decides_example =
    connect_loop-decides (codes "0,0") 1 none attempts refused [] attempts-IsRetried
      (inr (server_rejected (from_frame refusal), refused_result, refl))

abbrev custom : List Header
custom = (codes "HOST", codes "evil") ∷ (codes "x", codes "y") ∷ []

build_connect_frame-reserved_example :
    let hs = built (codes "1.2") (codes "/") (codes "u") (codes "p") (codes "0,0") none custom in
    (values (codes "accept-version") hs ≡ codes "1.2" ∷ [])
    × (values (codes "host") hs ≡ codes "/" ∷ [])
    × (values (codes "login") hs ≡ codes "u" ∷ [])
    × (values (codes "passcode") hs ≡ codes "p" ∷ [])
    × (values (codes "heart-beat") hs ≡ codes "0,0" ∷ [])
    × (values (codes "client-id") hs ≡ [])
build_connect_frame-reserved_example =
    build_connect_frame-reserved (codes "1.2") (codes "/") (codes "u") (codes "p") (codes "0,0")
      none custom
