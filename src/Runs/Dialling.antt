-- ===== src/Runs/Dialling.antt =====
-- Connections that are opened, with and without TLS.
use moscapsule.Prelude.{◌≡◌, refl, ℕ, pos, true, false, none, some, [], ◌∷◌}
use moscapsule.Outcome.{ok, Leaving}
use moscapsule.Dial.{
  Address, Dial, TlsAnswers, inet, inet6, flags_set, at_once, refused, opens, closes, handshakes,
  verifies, trusts, new_context, tls12,
}
use moscapsule.Conn.{Conn}
use moscapsule.Client.{TlsOptions}
use moscapsule.Api.{blank_options}
use moscapsule.Opening.{open_socket}
use moscapsule.Opening.Descriptors.{open_after, open_socket-descriptors}
use moscapsule.Opening.Verified.{Verified, Secured, open_socket-Secured}
use moscapsule.Runs.{start, connection}

-- OpenSSL refuses nothing.
abbrev willing : TlsAnswers
willing = record {
  context = true;
  ciphers = true;
  authorities = true;
  certificate = true;
  key = true;
  key_fits = true;
  session = true;
  bio = true;
}

abbrev broker_address : Address
broker_address = record {
  family = inet;
  socket = some 5;
  binds = [];
  nonblock = flags_set;
  reached = at_once;
}

abbrev pub reachable_broker : Dial
reachable_broker = record {
  addresses = some (broker_address ∷ []);
  local_found = true;
  tls = willing;
}

-- An address of IPv6 that refuses the connection stands before the other.
abbrev two_addresses : Dial
two_addresses = record reachable_broker {
  addresses = some (
      record broker_address { family = inet6; socket = some 4; reached = refused }
      ∷ broker_address
      ∷ []);
}

abbrev with_ca : TlsOptions
with_ca = record (blank_options true).tls { cafile = some (b'c' ∷ []); cert_reqs = pos 1 }

abbrev before : Conn
before = record (connection start [] []) { sock = none }

-- The calls, the last one first.
two_addresses-calls :
    open_socket with_ca none true two_addresses (record { conn = before; calls = [] })
    ≡ ok false (record {
      conn = record before { sock = some 5; ssl_ctx = true; ssl = true; want_connect = true };
      calls =
          handshakes
          ∷ verifies true
          ∷ trusts (some (b'c' ∷ [])) none
          ∷ new_context tls12
          ∷ opens 5
          ∷ closes 4
          ∷ opens 4
          ∷ [];
    })
unfolding open_socket
two_addresses-calls = refl

open_socket-descriptors_example :
    Leaving
      (λ _ a. (s : ℕ) × (a.conn.sock ≡ some s) × (open_after a.calls ≡ some (s ∷ [])))
      (λ a. open_after a.calls ≡ some [])
      (open_socket with_ca none true two_addresses (record { conn = before; calls = [] }))
open_socket-descriptors_example =
    open_socket-descriptors with_ca none true two_addresses before (refl, (refl, tt))

open_socket-Secured_example :
    Leaving
      (λ _ a. Secured with_ca a)
      (λ a. Verified with_ca a.calls)
      (open_socket with_ca none true two_addresses (record { conn = before; calls = [] }))
open_socket-Secured_example = open_socket-Secured with_ca none true two_addresses before refl refl
