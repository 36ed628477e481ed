-- ===== src/Client.antt =====
-- `struct mosquitto` (mosquitto/lib/mosquitto_internal.h) as a whole: the connection, the messages
-- in flight, and the client's options.
use moscapsule.Prelude.{ℕ, ℤ, Bool, Option, List}
use moscapsule.Types.{Protocol, Text, Message, MessageAll}
use moscapsule.Outcome.{Outcome, H, ok, err, crash}
use moscapsule.Conn.{Conn}

-- `max_inflight_messages` holds the 32 bits of an `int`.
-- `out_strays`: `out_messages` is empty, and `out_messages_last` is not NULL but points at a node of
-- `in_messages`, where `_mosquitto_messages_reconnect_reset` can leave it.
pub record Msgs : Type 0 where
  pub in_messages : List MessageAll
  pub out_messages : List MessageAll
  pub out_strays : Bool
  pub in_queue_len : ℤ
  pub out_queue_len : ℤ
  pub inflight_messages : ℤ
  pub max_inflight_messages : ℕ
  pub message_retry : ℕ
  pub last_retry_check : ℕ

-- The `tls_*` fields. `psk_freed` and `bind_freed` say that `tls_psk` and `bind_address` point at
-- memory that was given back. `cert_reqs` is SSL_VERIFY_NONE or SSL_VERIFY_PEER.
pub record TlsOptions : Type 0 where
  pub cafile : Option Text
  pub capath : Option Text
  pub certfile : Option Text
  pub keyfile : Option Text
  pub cert_reqs : ℤ
  pub version : Option Text
  pub ciphers : Option Text
  pub psk : Option Text
  pub psk_freed : Bool
  pub psk_identity : Option Text
  pub insecure : Bool

pub record Options : Type 0 where
  pub tls : TlsOptions
  pub protocol : Protocol
  pub id : Option Text
  pub username : Option Text
  pub password : Option Text
  pub will : Option Message
  pub clean_session : Bool
  pub host : Option Text
  pub port : ℕ
  pub bind_address : Option Text
  pub bind_freed : Bool
  pub reconnect_delay : ℕ
  pub reconnect_delay_max : ℕ
  pub reconnect_exponential_backoff : Bool
  pub reconnect_enabled : Bool

pub record Mosquitto : Type 0 where
  pub conn : Conn
  pub open conn use *
  pub msgs : Msgs
  pub open msgs use *
  pub options : Options
  pub open options use *

abbrev pub with_conn : Conn → Mosquitto → Mosquitto
with_conn c m = record m { conn = c }

abbrev pub with_msgs : Msgs → Mosquitto → Mosquitto
with_msgs ms m = record m { msgs = ms }

abbrev pub lifted : {A : Type 0} → Mosquitto → Outcome Conn A → Outcome Mosquitto A
lifted m (ok a c) = ok a (with_conn c m)
lifted m (err rc c) = err rc (with_conn c m)
lifted m crash = crash

-- A function of the connection, called on the client.
abbrev pub on_conn : {A : Type 0} → H Conn A → H Mosquitto A
on_conn f m = lifted m (f m.conn)

-- A function of the messages, called on the client.
abbrev pub into_msgs : {A : Type 0} → Mosquitto → Outcome Msgs A → Outcome Mosquitto A
into_msgs m (ok a ms) = ok a (with_msgs ms m)
into_msgs m (err rc ms) = err rc (with_msgs ms m)
into_msgs m crash = crash

abbrev pub on_msgs : {A : Type 0} → H Msgs A → H Mosquitto A
on_msgs f m = into_msgs m (f m.msgs)
