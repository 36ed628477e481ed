-- ===== src/Send.antt =====
-- mosquitto/lib/send_mosq.c, and the senders of mosquitto/lib/send_client_mosq.c that need the
-- connection only. Log lines are left out.
pub mod Encoding
pub mod Wire
pub mod Calm
pub mod Writing
pub mod Requests
use moscapsule.Prelude.{
  ℕ, ◌+◌, ◌*◌, ◌/◌, ◌%◌, Bool, true, false, none, some, List, [], ◌∷◌, if◌then◌else◌, ltb, length,
}
use moscapsule.Types.{Rc, Text}
use moscapsule.Outcome.{Outcome, H, ok, err, crash, ◌>>=◌, ◌>>◌, pure, modify}
use moscapsule.Packet.{
  Packet, zeroed, wrap32, store_at, msb, lsb, write_byte, write_bytes, write_uint16, write_string,
}
use moscapsule.Conn.{Conn, must_malloc, packet_alloc, mid_generate}
use moscapsule.Net.{packet_queue}

-- A packet as it is when `_mosquitto_packet_alloc` is called: from calloc, with three fields set.
abbrev pub request : ℕ → ℕ → ℕ → Packet
request mid command remaining_length = record zeroed {
  mid = mid;
  command = command;
  remaining_length = remaining_length;
}

-- Writing into a packet that the connection does not hold yet.
abbrev pub filled_by : H Packet (Unit {0}) → Packet → H Conn Packet
filled_by writer p c = elim (writer p) [ ok _ p' ↦ ok p' c | err rc _ ↦ err rc c | crash ↦ crash ]

-- `command | 8`
abbrev pub set_dup : ℕ → ℕ
set_dup command = command / 16 * 16 + 8 + command % 8

-- `_mosquitto_send_command_with_mid`
unfoldable pub send_command_with_mid : ℕ → ℕ → Bool → H Conn (Unit {0})
send_command_with_mid command mid dup = do
  must_malloc
  p ← packet_alloc (request 0 (if dup then set_dup command else command) 2)
  p' ← filled_by (do store_at 0 (msb mid); store_at 1 (lsb mid)) p
  packet_queue p'

-- `_mosquitto_send_simple_command`
unfoldable pub send_simple_command : ℕ → H Conn (Unit {0})
send_simple_command command = do must_malloc; p ← packet_alloc (request 0 command 0); packet_queue p

-- `_mosquitto_send_pingreq`
unfoldable pub send_pingreq : H Conn (Unit {0})
send_pingreq = do send_simple_command 0xC0; modify (λ c. record c { ping_t = c.now })

-- `_mosquitto_send_pingresp`
unfoldable pub send_pingresp : H Conn (Unit {0})
send_pingresp = send_simple_command 0xD0

-- `_mosquitto_send_disconnect`
unfoldable pub send_disconnect : H Conn (Unit {0})
send_disconnect = send_simple_command 0xE0

-- `_mosquitto_send_puback`, `_mosquitto_send_pubcomp`, `_mosquitto_send_pubrec` and
-- `_mosquitto_send_pubrel`
unfoldable pub send_puback : ℕ → H Conn (Unit {0})
send_puback mid = send_command_with_mid 0x40 mid false

unfoldable pub send_pubcomp : ℕ → H Conn (Unit {0})
send_pubcomp mid = send_command_with_mid 0x70 mid false

unfoldable pub send_pubrec : ℕ → H Conn (Unit {0})
send_pubrec mid = send_command_with_mid 0x50 mid false

unfoldable pub send_pubrel : ℕ → H Conn (Unit {0})
send_pubrel mid = send_command_with_mid 0x62 mid false

abbrev pub bit : Bool → ℕ
bit true = 1
bit false = 0

-- `PUBLISH | ((dup&0x1)<<3) | (qos<<1) | retain`; the bits do not meet for a QoS up to 3.
abbrev pub publish_command : Bool → ℕ → Bool → ℕ
publish_command dup qos retain = 0x30 + bit dup * 8 + qos * 2 + bit retain

abbrev pub mid_length : ℕ → ℕ
mid_length qos = if ltb 0 qos then 2 else 0

abbrev pub publish_length : Text → ℕ → List ℕ → ℕ
publish_length topic qos payload = 2 + length topic + length payload + mid_length qos

abbrev pub write_mid : ℕ → ℕ → H Packet (Unit {0})
write_mid mid qos = if ltb 0 qos then write_uint16 mid else pure tt

abbrev pub write_payload : List ℕ → H Packet (Unit {0})
write_payload payload =
    if ltb 0 (length payload) then write_bytes payload (length payload) else pure tt

-- The variable header and the payload of a PUBLISH.
unfoldable pub write_publish : ℕ → Text → List ℕ → ℕ → H Packet (Unit {0})
write_publish mid topic payload qos = do
  write_string topic (length topic)
  write_mid mid qos
  write_payload payload

-- `_mosquitto_send_real_publish`
unfoldable pub send_real_publish : ℕ → Text → List ℕ → ℕ → Bool → Bool → H Conn (Unit {0})
send_real_publish mid topic payload qos retain dup = do
  must_malloc
  p ←
      packet_alloc
        (request mid (publish_command dup qos retain) (wrap32 (publish_length topic qos payload)))
  p' ← filled_by (write_publish mid topic payload qos) p
  packet_queue p'

-- `_mosquitto_send_publish`
unfoldable pub send_publish : ℕ → Text → List ℕ → ℕ → Bool → Bool → H Conn (Unit {0})
send_publish mid topic payload qos retain dup c = elim c.sock [
  | none ↦ err Rc.no_conn c
  | some _ ↦ send_real_publish mid topic payload qos retain dup c
]

unfoldable pub write_subscribe : ℕ → Text → ℕ → H Packet (Unit {0})
write_subscribe mid topic qos = do
  write_uint16 mid
  write_string topic (length topic)
  write_byte qos

-- `_mosquitto_send_subscribe`; `*mid` is `last_mid` afterwards.
unfoldable pub send_subscribe : Text → ℕ → H Conn (Unit {0})
send_subscribe topic qos = do
  must_malloc
  p ← packet_alloc (request 0 0x82 (wrap32 (5 + length topic)))
  mid ← mid_generate
  p' ← filled_by (write_subscribe mid topic qos) p
  packet_queue p'

unfoldable pub write_unsubscribe : ℕ → Text → H Packet (Unit {0})
write_unsubscribe mid topic = do write_uint16 mid; write_string topic (length topic)

-- `_mosquitto_send_unsubscribe`; `*mid` is `last_mid` afterwards.
unfoldable pub send_unsubscribe : Text → H Conn (Unit {0})
send_unsubscribe topic = do
  must_malloc
  p ← packet_alloc (request 0 0xA2 (wrap32 (4 + length topic)))
  mid ← mid_generate
  p' ← filled_by (write_unsubscribe mid topic) p
  packet_queue p'
