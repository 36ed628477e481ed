-- ===== src/Session.antt =====
-- A client's life: the calls of mosquitto/lib/mosquitto.c that an application makes one after the
-- other, and the states that they can reach.
pub mod Sound
pub mod Reading
pub mod Timing
pub mod Polling
pub mod Calling
pub mod Setting
pub mod Opening
pub mod Resetting
pub mod Connecting
pub mod Encrypting
pub mod Securing
pub mod Life
use moscapsule.Prelude.{
  ℕ, ◌<◌, ◌^◌, ◌≡◌, ℤ, Bool, true, false, Option, none, some, List, length, is_some, not,
}
use moscapsule.Types.{Rc, Text}
use moscapsule.Outcome.{H, ok, err}
use moscapsule.Conn.{Env, Callbacks}
use moscapsule.Client.{Mosquitto, with_conn}
use moscapsule.Messages.{message_retry_set, max_inflight_messages_set}
use moscapsule.Options.{
  will_set, will_clear, username_pw_set, reconnect_disable, reconnect_delay_set,
  protocol_version_set, callbacks_set,
}
use moscapsule.Connect.{connect_bind, connect_bind_async, reconnect, disconnect}
use moscapsule.Api.{publish, subscribe, unsubscribe, reinitialise}
use moscapsule.Tls.Setters.{tls_set, tls_opts_set, tls_insecure_set, tls_psk_set}
use moscapsule.Loop.Polling.{Selected, loop}
use moscapsule.Loop.{loop_read, loop_write, loop_misc}

pub data Call : Type 0 where
  call_connect call_connect_async : Option Text → ℤ → ℕ → Option Text → Call
  call_reconnect call_reconnect_async call_disconnect call_loop_misc call_will_clear : Call
  call_reconnect_disable : Call
  call_publish : Option Text → ℤ → List ℕ → ℤ → Bool → Call
  call_subscribe : Option Text → ℕ → Call
  call_unsubscribe : Option Text → Call
  call_loop_read call_loop_write call_protocol call_retry call_inflight : ℕ → Call
  call_loop : ℕ → Selected → Call
  call_will_set : Option Text → ℤ → Option (List ℕ) → ℕ → Bool → Call
  call_login : Option Text → Option Text → Call
  call_delay : ℕ → ℕ → Bool → Call
  call_callbacks : Callbacks → Call
  call_tls_set : (Text → Bool) → Option Text → Option Text → Option Text → Option Text → Call
  call_tls_opts : ℤ → Option Text → Option Text → Call
  call_tls_insecure : Bool → Call
  call_tls_psk : Option Text → Option Text → Option Text → Call

abbrev pub perform : Call → H Mosquitto (Unit {0})
perform (call_connect host port keepalive bind_address) =
    connect_bind host port keepalive bind_address
perform (call_connect_async host port keepalive bind_address) =
    connect_bind_async host port keepalive bind_address
perform call_reconnect = reconnect true
perform call_reconnect_async = reconnect false
perform call_disconnect = disconnect
perform call_loop_misc = loop_misc
perform call_will_clear = will_clear
perform call_reconnect_disable = reconnect_disable
perform (call_publish topic payloadlen payload qos retain) =
    publish topic payloadlen payload qos retain
perform (call_subscribe sub qos) = subscribe sub qos
perform (call_unsubscribe sub) = unsubscribe sub
perform (call_loop_read max_packets) = loop_read max_packets
perform (call_loop_write max_packets) = loop_write max_packets
perform (call_loop max_packets selected) = loop max_packets selected
perform (call_protocol version) = protocol_version_set version
perform (call_retry n) = λ m. ok tt (message_retry_set n m)
perform (call_inflight n) = max_inflight_messages_set n
perform (call_will_set topic payloadlen payload qos retain) =
    will_set topic payloadlen payload qos retain
perform (call_login username password) = username_pw_set username password
perform (call_delay delay delay_max exponential) = reconnect_delay_set delay delay_max exponential
perform (call_callbacks callbacks) = λ m. ok tt (callbacks_set callbacks m)
perform (call_tls_set opens cafile capath certfile keyfile) =
    tls_set opens cafile capath certfile keyfile
perform (call_tls_opts cert_reqs version ciphers) = tls_opts_set cert_reqs version ciphers
perform (call_tls_insecure value) = tls_insecure_set value
perform (call_tls_psk psk identity ciphers) = tls_psk_set psk identity ciphers

-- A text of less than 2 ^ 28 bytes, or none.
abbrev pub ShortText : Option Text → Type 0
ShortText none = Unit {0}
ShortText (some t) = length t < 2 ^ 28

-- There is an identifier.
abbrev pub IsNamed : Option Text → Type 0
IsNamed none = ⊥
IsNamed (some id) = length id < 2 ^ 28

-- The library measures a topic and a payload, but not the username and the password.
abbrev pub Fair : Call → Type 0
Fair (call_login username password) = ShortText username × ShortText password
Fair _ = Unit {0}

-- Time passes, bytes arrive, memory becomes scarce.
abbrev pub in_world : Env → Mosquitto → Mosquitto
in_world env m = with_conn (record (m.conn) { env = env }) m

-- `mosquitto_connect_bind` gives an old bind address back, and goes on with the pointer where no new
-- one comes.
abbrev pub keeps_freed : Option Text → Mosquitto → Bool
keeps_freed none m = is_some m.bind_address
keeps_freed (some a) m = false

-- The calls that the library does not survive, or may not: `mosquitto_connect_bind` and its
-- asynchronous twin without a bind address after one with it, `mosquitto_publish` where
-- `out_messages_last` is stray, a subscription that is NULL, and `mosquitto_loop`, whose handshake
-- follows an SSL that may be NULL.
abbrev pub is_hazard : Call → Mosquitto → Bool
is_hazard (call_connect host port keepalive a) m = keeps_freed a m
is_hazard (call_connect_async host port keepalive a) m = keeps_freed a m
is_hazard (call_publish topic payloadlen payload qos retain) m = m.out_strays
is_hazard (call_subscribe sub qos) m = not (is_some sub)
is_hazard (call_unsubscribe sub) m = not (is_some sub)
is_hazard (call_loop max_packets selected) m = true
is_hazard _ m = false

-- A state of a client that `mosquitto_new` has made, with an identifier, between calls.
pub data Reach : Mosquitto → Type 0 where
  starts :
      (id : Option Text) (clean_session : Bool) (random : Text) (m m' : Mosquitto)
      → reinitialise id clean_session random m ≡ ok tt m'
      → IsNamed m'.options.id
      → Reach m'
  meets : (m : Mosquitto) (env : Env) → Reach m → Reach (in_world env m)
  returns :
      (m m' : Mosquitto) (call : Call) → Reach m → Fair call → perform call m ≡ ok tt m' → Reach m'
  refuses :
      (m m' : Mosquitto) (call : Call) (rc : Rc)
      → Reach m
      → Fair call
      → perform call m ≡ err rc m'
      → Reach m'
