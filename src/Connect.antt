-- ===== src/Connect.antt =====
-- Opening and closing the connection: `_mosquitto_send_connect` of mosquitto/lib/send_client_mosq.c
-- and the connect functions of mosquitto/lib/mosquitto.c.
pub mod Wire
use moscapsule.Prelude.{
  ℕ, zero, suc, ◌+◌, ◌*◌, ◌%◌, ℤ, pos, negsuc, Bool, true, false, Option, none, some, List, [], ◌∷◌,
  if◌then◌else◌, ◌==◌, length, is_some,
}
use moscapsule.Types.{
  Rc, inval, no_conn, ClientState, new, disconnecting, connect_async, Protocol, mqtt31, mqtt311,
  Text, Message,
}
use moscapsule.Outcome.{Outcome, H, ok, err, crash, ◌>>=◌, ◌>>◌, pure, modify}
use moscapsule.Packet.{Packet, wrap32, packet_cleanup, write_byte, write_uint16, write_string}
use moscapsule.Dial.{Dial}
use moscapsule.Conn.{Conn, must_malloc, packet_alloc}
use moscapsule.Opening.{Attempt, open_socket}
use moscapsule.Net.{packet_queue, queue_at}
use moscapsule.Send.{request, filled_by, bit, send_disconnect}
use moscapsule.Client.{TlsOptions, Options, Mosquitto, with_conn, on_conn}
use moscapsule.Messages.{messages_reconnect_reset}
use moscapsule.Options.{with_options, must_have}

-- PROTOCOL_NAME_v31 and PROTOCOL_NAME_v311, the version byte, and `headerlen`.
abbrev pub protocol_name : Protocol → Text
protocol_name mqtt31 = b'M' ∷ b'Q' ∷ b'I' ∷ b's' ∷ b'd' ∷ b'p' ∷ []
protocol_name mqtt311 = b'M' ∷ b'Q' ∷ b'T' ∷ b'T' ∷ []

abbrev pub protocol_level : Protocol → ℕ
protocol_level mqtt31 = 3
protocol_level mqtt311 = 4

abbrev pub header_length : Protocol → ℕ
header_length mqtt31 = 12
header_length mqtt311 = 10

abbrev pub will_length : Option Message → ℕ
will_length none = 0
will_length (some w) = 2 + length w.topic + 2 + length w.payload

-- A password counts only beside a username.
abbrev pub login_length : Option Text → Option Text → ℕ
login_length none password = 0
login_length (some username) none = 2 + length username
login_length (some username) (some password) = 2 + length username + (2 + length password)

abbrev pub connect_length : Text → Options → ℕ
connect_length id o =
    header_length o.protocol
    + (2 + length id + will_length o.will + login_length o.username o.password)

abbrev pub will_flags : Option Message → ℕ
will_flags none = 0
will_flags (some w) = bit w.retain * 32 + w.qos % 4 * 8 + 4

abbrev pub login_flags : Option Text → Option Text → ℕ
login_flags none password = 0
login_flags (some username) password = 128 + bit (is_some password) * 64

-- The flag byte; its parts do not share a bit.
abbrev pub connect_flags : Bool → Options → ℕ
connect_flags clean_session o =
    bit clean_session * 2 + will_flags o.will + login_flags o.username o.password

abbrev pub write_will : Option Message → H Packet (Unit {0})
write_will none = pure tt
write_will (some w) = do
  write_string w.topic (length w.topic)
  write_string w.payload (length w.payload)

abbrev pub write_login : Option Text → Option Text → H Packet (Unit {0})
write_login none password = pure tt
write_login (some username) none = write_string username (length username)
write_login (some username) (some password) = do
  write_string username (length username)
  write_string password (length password)

-- The variable header and the payload of a CONNECT.
unfoldable pub write_connect : ℕ → Bool → Text → Options → H Packet (Unit {0})
write_connect keepalive clean_session id o = do
  write_string (protocol_name o.protocol) (length (protocol_name o.protocol))
  write_byte (protocol_level o.protocol)
  write_byte (connect_flags clean_session o)
  write_uint16 keepalive
  write_string id (length id)
  write_will o.will
  write_login o.username o.password

-- `_mosquitto_send_connect` behind its assertion `assert(mosq->id)`, with it, and as a whole.
abbrev pub connect_call : ℕ → Bool → Text → Options → H Conn (Unit {0})
connect_call keepalive clean_session id o = do
  must_malloc
  p ← packet_alloc (request 0 0x10 (wrap32 (connect_length id o)))
  p' ← filled_by (write_connect keepalive clean_session id o) p
  modify (λ c. record c { keepalive = keepalive })
  packet_queue p'

abbrev pub connect_as : Option Text → ℕ → Bool → H Mosquitto (Unit {0})
connect_as none keepalive clean_session m = crash
connect_as (some id) keepalive clean_session m =
    on_conn (connect_call keepalive clean_session id m.options) m

unfoldable pub send_connect : ℕ → Bool → H Mosquitto (Unit {0})
send_connect keepalive clean_session m = connect_as m.options.id keepalive clean_session m

abbrev pub pair_answer : List (Option (ℕ × ℕ)) → Conn → Conn
pair_answer [] c = record c { sockpair_r = none; sockpair_w = none }
pair_answer (none ∷ rest) c = record c {
  sockpair_r = none;
  sockpair_w = none;
  env = record (c.env) { pairs = rest };
}
pair_answer (some (r, w) ∷ rest) c = record c {
  sockpair_r = some r;
  sockpair_w = some w;
  env = record (c.env) { pairs = rest };
}

abbrev pub is_positive : ℤ → Bool
is_positive (pos zero) = false
is_positive (pos (suc n)) = true
is_positive (negsuc n) = false

abbrev pub port_of : ℤ → ℕ
port_of (pos n) = n
port_of (negsuc n) = 0

abbrev pub with_bind : Option Text → Bool → Mosquitto → Mosquitto
with_bind a freed m = with_options (record (m.options) { bind_address = a; bind_freed = freed }) m

-- `if(mosq->bind_address) _mosquitto_free(mosq->bind_address);`, which leaves the pointer.
abbrev pub free_bind_address : H Mosquitto (Unit {0})
free_bind_address m =
    if m.options.bind_freed
    then crash
    else ok tt (with_bind m.bind_address (is_some m.bind_address) m)

abbrev pub copy_bind_address : Option Text → H Mosquitto (Unit {0})
copy_bind_address none m = ok tt m
copy_bind_address (some a) m =
    (do must_have; modify (with_bind (some a) false)) (with_bind none false m)

-- `_mosquitto_connect_init`
unfoldable pub connect_init : Option Text → ℤ → ℕ → Option Text → H Mosquitto (Unit {0})
connect_init none port keepalive bind_address m = err inval m
connect_init (some host) port keepalive bind_address m =
    if is_positive port
    then (do
      modify (λ n. with_options (record (n.options) { host = none }) n)
      must_have
      modify (λ n. with_options (record (n.options) { host = some host; port = port_of port }) n)
      free_bind_address
      copy_bind_address bind_address
      modify (λ n.
          with_conn (pair_answer n.pairs (record (n.conn) { keepalive = keepalive % 65536 })) n))
        m
    else err inval m

abbrev pub with_state : ClientState → H Mosquitto (Unit {0})
with_state s m = ok tt (with_conn (record (m.conn) { state = s }) m)

abbrev pub attempted : Outcome Attempt Bool → Outcome Conn (Unit {0})
attempted (ok pending a) = ok tt a.conn
attempted (err rc a) = err rc a.conn
attempted crash = crash

abbrev pub dialled : List Dial → Conn → Conn
dialled rest c = record c { env = record (c.env) { dials = rest } }

abbrev pub dial_answer : TlsOptions → Option Text → Bool → List Dial → H Conn (Unit {0})
dial_answer tls bind_address blocking [] c = err Rc.eai c
dial_answer tls bind_address blocking (answers ∷ rest) c =
    attempted
      (open_socket tls bind_address blocking answers (record { conn = dialled rest c; calls = [] }))

-- `_mosquitto_socket_connect`; a pending connection is no error to its caller. The port is passed as
-- uint16_t.
unfoldable pub socket_connect :
    TlsOptions → Option Text → Bool → Option Text → ℕ → H Conn (Unit {0})
unfolding open_socket
socket_connect tls bind_address blocking none port c = err inval c
socket_connect tls bind_address blocking (some host) port c =
    if port % 65536 == 0 then err inval c else dial_answer tls bind_address blocking c.dials c

-- The packets that still wait are dropped.
abbrev pub reset_conn : Conn → Conn
reset_conn c = queue_at none [] (record c {
  state = new;
  last_msg_in = c.now;
  last_msg_out = c.now;
  ping_t = 0;
  in_packet = packet_cleanup c.in_packet;
})

-- Handing on a pointer to memory that was given back stops the model.
abbrev pub dial : Bool → H Mosquitto (Unit {0})
dial blocking m =
    if m.options.bind_freed
    then crash
    else on_conn (socket_connect m.options.tls m.options.bind_address blocking m.host m.port) m

-- `_mosquitto_reconnect`
unfoldable pub reconnect : Bool → H Mosquitto (Unit {0})
unfolding socket_connect
reconnect blocking m =
    if is_some m.host
    then if m.port == 0
      then err inval m
      else (do
        modify (λ n. with_conn (reset_conn n.conn) n)
        messages_reconnect_reset
        dial blocking
        λ n. send_connect n.keepalive n.clean_session n)
          m
    else err inval m

-- `mosquitto_connect_bind` and `mosquitto_connect_bind_async`
unfoldable pub connect_bind : Option Text → ℤ → ℕ → Option Text → H Mosquitto (Unit {0})
connect_bind host port keepalive bind_address = do
  connect_init host port keepalive bind_address
  with_state new
  reconnect true

unfoldable pub connect_bind_async : Option Text → ℤ → ℕ → Option Text → H Mosquitto (Unit {0})
connect_bind_async host port keepalive bind_address = do
  connect_init host port keepalive bind_address
  with_state connect_async
  reconnect false

abbrev pub if_connected : H Conn (Unit {0}) → H Mosquitto (Unit {0})
if_connected f m = elim m.sock [ none ↦ err no_conn m | some _ ↦ on_conn f m ]

-- `mosquitto_disconnect`
unfoldable pub disconnect : H Mosquitto (Unit {0})
disconnect = do with_state disconnecting; if_connected send_disconnect
