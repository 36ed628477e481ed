-- ===== src/Dial.antt =====
-- What the system and OpenSSL answer while a connection is opened: the calls of
-- `_mosquitto_try_connect` and `_mosquitto_socket_connect` of mosquitto/lib/net_mosq.c.
use moscapsule.Prelude.{ℕ, Bool, Option, List}
use moscapsule.Types.{Text}

-- `ai_family`
pub data Family : Type 0 where
  inet inet6 other_family : Family

-- The two calls of fcntl(2) by `_mosquitto_socket_nonblock`.
pub data Fcntl : Type 0 where
  flags_set no_flags not_set : Fcntl

-- What connect(2) brings; the second is EINPROGRESS or EWOULDBLOCK.
pub data Reached : Type 0 where
  at_once in_progress refused : Reached

-- An address of the host. `binds` says of each local address whether bind(2) takes it.
pub record Address : Type 0 where
  pub family : Family
  pub socket : Option ℕ
  pub binds : List Bool
  pub nonblock : Fcntl
  pub reached : Reached

-- SSL_connect, with SSL_get_error behind it.
pub data Handshake : Type 0 where
  done asks_read asks_write fails_for_good : Handshake

-- Do the calls of OpenSSL succeed? `key_fits` is SSL_CTX_check_private_key.
pub record TlsAnswers : Type 0 where
  pub context : Bool
  pub ciphers : Bool
  pub authorities : Bool
  pub certificate : Bool
  pub key : Bool
  pub key_fits : Bool
  pub session : Bool
  pub bio : Bool

-- `addresses` is getaddrinfo(3) of the host, if it succeeds, `local_found` whether that of the
-- bind address does.
pub record Dial : Type 0 where
  pub addresses : Option (List Address)
  pub local_found : Bool
  pub tls : TlsAnswers

-- A call of the system or of OpenSSL that is made. `verifies` says whether SSL_VERIFY_PEER is set,
-- with `_mosquitto_server_certificate_verify`.
pub data TlsVersion : Type 0 where
  tls12 tls11 tls1 : TlsVersion

pub data Sys : Type 0 where
  opens closes : ℕ → Sys
  new_context : TlsVersion → Sys
  limits_ciphers presents signs_with : Text → Sys
  trusts : Option Text → Option Text → Sys
  verifies : Bool → Sys
  offers_psk handshakes : Sys
