-- ===== src/Runs/Requesting.antt =====
-- The requests on the wire, on small concrete inputs.
use moscapsule.Prelude.{◌+◌, ◌≡◌, refl, true, some, [], ◌∷◌, ◌++◌, length, arith}
use moscapsule.Types.{Text}
use moscapsule.Outcome.{After}
use moscapsule.Conn.{Conn}
use moscapsule.Net.Sending.{pending}
use moscapsule.Send.{send_subscribe, send_unsubscribe}
use moscapsule.Send.Requests.{
  header_bytes, subscribe_bytes, unsubscribe_bytes, next_mid, send_subscribe-wire,
  send_unsubscribe-wire,
}
use moscapsule.Client.{Mosquitto}
use moscapsule.Connect.{send_connect}
use moscapsule.Connect.Wire.{MeasuredOptions, connect_packet, send_connect-wire}
use moscapsule.Runs.{start, connection, idle}

abbrev quiet : Conn
quiet = connection start [] []

abbrev filter : Text
filter = b'a' ∷ b'/' ∷ b'#' ∷ []

send_subscribe-wire_example :
    After
      (λ c'.
        c'.sent ++ pending c'
        ≡ (quiet.sent ++ pending quiet)
          ++ (header_bytes 0x82 (5 + length filter) ++ subscribe_bytes (next_mid quiet) filter 1))
      (send_subscribe filter 1 quiet)
send_subscribe-wire_example = send_subscribe-wire filter 1 quiet refl (omega arith)

send_unsubscribe-wire_example :
    After
      (λ c'.
        c'.sent ++ pending c'
        ≡ (quiet.sent ++ pending quiet)
          ++ (header_bytes 0xA2 (4 + length filter) ++ unsubscribe_bytes (next_mid quiet) filter))
      (send_unsubscribe filter quiet)
send_unsubscribe-wire_example = send_unsubscribe-wire filter quiet refl (omega arith)

abbrev me : Text
me = b'm' ∷ b'e' ∷ []

-- A client with a name, a login and a will.
abbrev with_login : Mosquitto
with_login = record idle {
  options = record (idle.options) {
    id = some me;
    username = some (b'u' ∷ []);
    password = some (b'p' ∷ []);
    will = some (record { mid = 0; topic = b'w' ∷ []; payload = 1 ∷ []; qos = 1; retain = true });
  };
}

with_login-MeasuredOptions : MeasuredOptions with_login.options
with_login-MeasuredOptions = record {
  username = omega arith;
  password = omega arith;
  will = (omega arith, omega arith);
}

send_connect-wire_example :
    After
      (λ n.
        n.sent ++ pending n.conn
        ≡ (with_login.sent ++ pending with_login.conn)
          ++ connect_packet 60 true me with_login.options)
      (send_connect 60 true with_login)
send_connect-wire_example =
    send_connect-wire 60 true me with_login refl refl (omega arith) with_login-MeasuredOptions
