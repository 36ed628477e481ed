-- ===== src/Types.antt =====
-- mosquitto/lib/mosquitto_internal.h, mosquitto.h and mqtt3_protocol.h: return codes, enumerations
-- and structures. The build is the client's (no WITH_BROKER, no WITH_SOCKS, POSIX).
use moscapsule.Prelude.{ℕ, Bool, true, false, List}

-- `enum mosq_err_t`.
pub data Rc : Type 0 where
  conn_pending success nomem protocol inval no_conn conn_refused not_found conn_lost : Rc
  tls payload_size not_supported auth acl_denied unknown errno eai proxy : Rc

-- `if(rc)`.
abbrev pub fails : Rc → Bool
fails Rc.success = false
fails Rc.conn_pending = true
fails _ = true

-- `enum mosquitto_msg_direction` and `enum mosquitto_msg_state`.
pub data Direction : Type 0 where
  incoming outgoing : Direction

pub data MsgState : Type 0 where
  invalid publish_qos0 publish_qos1 wait_for_puback publish_qos2 wait_for_pubrec : MsgState
  resend_pubrel wait_for_pubrel resend_pubcomp wait_for_pubcomp send_pubrec queued : MsgState

-- `enum mosquitto_client_state`, without the states of SOCKS and of the broker.
pub data ClientState : Type 0 where
  new connected disconnecting connect_async connect_pending : ClientState

pub data Protocol : Type 0 where
  mqtt31 mqtt311 : Protocol

-- A C string is the list of its bytes, without the closing 0.
abbrev pub Text : Type 0
Text = List ℕ

-- `struct mosquitto_message` and `struct mosquitto_message_all`; `payloadlen` is the payload's length.
pub record Message : Type 0 where
  pub mid : ℕ
  pub topic : Text
  pub payload : List ℕ
  pub qos : ℕ
  pub retain : Bool

pub record MessageAll : Type 0 where
  pub timestamp : ℕ
  pub state : MsgState
  pub dup : Bool
  pub msg : Message

-- The values of `errno` that the library looks at; EWOULDBLOCK is EAGAIN.
pub data Errno : Type 0 where
  clear again conn_reset proto other : Errno
