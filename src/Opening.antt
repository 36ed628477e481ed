-- ===== src/Opening.antt =====
-- `_mosquitto_try_connect`, `_mosquitto_socket_nonblock`, `mosquitto__socket_connect_tls` and
-- `_mosquitto_socket_connect` of mosquitto/lib/net_mosq.c, built WITH_TLS and WITH_TLS_PSK with
-- OpenSSL 1.0.1 at least. The password callback and the data kept with the session are not modelled.
mod Trying
mod Securing
pub mod Keeping
pub mod Descriptors
pub mod Verified
pub mod Encrypted
use moscapsule.Prelude.{
  ℕ, zero, suc, ◌%◌, ℤ, pos, negsuc, Bool, true, false, Option, none, some, List, [], ◌∷◌,
  if◌then◌else◌, ◌==◌, ◌||◌, ◌&&◌, not, is_some,
}
use moscapsule.Types.{Rc, inval, Text, success}
use moscapsule.Outcome.{Outcome, H, ok, err, crash, bind, ◌>>=◌, ◌>>◌, pure, raise, modify}
use moscapsule.Dial.{
  Family, inet, inet6, other_family, Fcntl, flags_set, Reached, at_once, in_progress, refused,
  Address, Handshake, done, asks_read, asks_write, fails_for_good, TlsAnswers, Dial, TlsVersion,
  tls12, tls11, tls1, Sys, opens, closes, new_context, limits_ciphers, presents, signs_with, trusts,
  verifies, offers_psk, handshakes,
}
use moscapsule.Conn.{Conn}
use moscapsule.Client.{TlsOptions}
use moscapsule.Tls.{same_bytes}

-- The connection that is opened, and the calls that were made for it, the last one first.
pub record Attempt : Type 0 where
  pub conn : Conn
  pub calls : List Sys

abbrev pub noted : Sys → Attempt → Attempt
noted call a = record a { calls = call ∷ a.calls }

-- How an address ends: `continue`, or `break` with the socket; is the connection pending?
pub data Tried : Type 0 where
  passed_over : Attempt → Tried
  chosen : ℕ → Bool → Attempt → Tried

abbrev pub is_set : Fcntl → Bool
is_set flags_set = true
is_set _ = false

-- `_mosquitto_socket_nonblock`: the socket is closed where it fails.
abbrev pub socket_nonblock : Fcntl → ℕ → Attempt → Bool × Attempt
socket_nonblock answer s a = if is_set answer then (true, a) else (false, noted (closes s) a)

abbrev pub binds_one : List Bool → Bool
binds_one [] = false
binds_one (true ∷ rest) = true
binds_one (false ∷ rest) = binds_one rest

abbrev pub is_inet : Family → Bool
is_inet other_family = false
is_inet _ = true

-- `COMPAT_CLOSE(*sock); continue;`
abbrev pub give_up : ℕ → Attempt → Tried
give_up s a = passed_over (noted (closes s) a)

-- Set the socket non-blocking where that is asked for here, and go on.
abbrev pub when_nonblock : Bool → Fcntl → ℕ → Attempt → (Attempt → Tried) → Tried
when_nonblock asked answer s a next =
    if asked
    then (let (set, b) = socket_nonblock answer s a in if set then next b else give_up s b)
    else next a

abbrev pub reach : Reached → Bool → Fcntl → ℕ → Attempt → Tried
reach refused blocking nonblock s a = give_up s a
reach at_once blocking nonblock s a = when_nonblock blocking nonblock s a (chosen s false)
reach in_progress blocking nonblock s a = when_nonblock blocking nonblock s a (chosen s true)

abbrev pub with_socket : Option ℕ → Bool → Bool → Address → Attempt → Tried
with_socket none bound blocking x a = passed_over a
with_socket (some s) bound blocking x a =
    let b = noted (opens s) a in
    if not (is_inet x.family)
    then give_up s b
    else if bound && not (binds_one x.binds)
    then give_up s b
    else when_nonblock (not blocking) x.nonblock s b (reach x.reached blocking x.nonblock s)

-- The loop over the addresses; the port is set in each of them.
unfoldable pub try_loop : Bool → Bool → List Address → H Attempt (ℕ × Bool)
try_loop bound blocking [] a = err Rc.errno a
try_loop bound blocking (x ∷ rest) a = elim (with_socket x.socket bound blocking x a) [
  | passed_over b ↦ try_loop bound blocking rest b
  | chosen s pending b ↦ ok (s, pending) b
]

abbrev pub try_found : Option (List Address) → Bool → Bool → Bool → H Attempt (ℕ × Bool)
try_found none bound blocking local_found a = err Rc.eai a
try_found (some addresses) bound blocking local_found a =
    if bound && not local_found then err Rc.eai a else try_loop bound blocking addresses a

-- `_mosquitto_try_connect`: the socket, and is MOSQ_ERR_CONN_PENDING the code?
unfoldable pub try_connect : Option Text → Bool → Dial → H Attempt (ℕ × Bool)
unfolding try_loop
try_connect bind_address blocking dial =
    try_found dial.addresses (is_some bind_address) blocking dial.local_found

-- `mosquitto__socket_connect_tls`, with the answer of SSL_connect, which follows `ssl`.
abbrev pub shaken : Handshake → H Conn (Unit {0})
shaken done c = ok tt (record c { want_connect = false })
shaken asks_read c = ok tt (record c { want_connect = true })
shaken asks_write c = ok tt (record c { want_write = true; want_connect = true })
shaken fails_for_good c = err Rc.tls (record c { sock = none })

abbrev pub next_shake : List Handshake → H Conn (Unit {0})
next_shake [] c = shaken asks_read c
next_shake (answer ∷ rest) c = shaken answer (record c { env = record (c.env) { shakes = rest } })

unfoldable pub connect_tls : H Conn (Unit {0})
connect_tls c = if c.ssl then next_shake c.shakes c else crash

-- `COMPAT_CLOSE(sock); return rc;`
abbrev pub close_with : {A : Type 0} → Rc → ℕ → H Attempt A
close_with rc s a = err rc (noted (closes s) a)

abbrev pub demand : Bool → ℕ → H Attempt (Unit {0})
demand true s a = ok tt a
demand false s a = close_with Rc.tls s a

abbrev pub note : Sys → H Attempt (Unit {0})
note call a = ok tt (noted call a)

abbrev pub with_conn_of : (Conn → Conn) → H Attempt (Unit {0})
with_conn_of f a = ok tt (record a { conn = f a.conn })

-- `tlsv1.2`, `tlsv1.1` and `tlsv1`
abbrev pub version_name : TlsVersion → Text
version_name tls12 = b't' ∷ b'l' ∷ b's' ∷ b'v' ∷ b'1' ∷ b'.' ∷ b'2' ∷ []
version_name tls11 = b't' ∷ b'l' ∷ b's' ∷ b'v' ∷ b'1' ∷ b'.' ∷ b'1' ∷ []
version_name tls1 = b't' ∷ b'l' ∷ b's' ∷ b'v' ∷ b'1' ∷ []

abbrev pub version_of : Option Text → Option TlsVersion
version_of none = some tls12
version_of (some t) =
    if same_bytes t (version_name tls12)
    then some tls12
    else if same_bytes t (version_name tls11)
    then some tls11
    else if same_bytes t (version_name tls1)
    then some tls1
    else none

-- SSL_CTX_new
abbrev pub start_context : Option TlsVersion → Bool → ℕ → H Attempt (Unit {0})
start_context none made s = close_with inval s
start_context (some version) made s = do
  note (new_context version)
  with_conn_of (λ c. record c { ssl_ctx = made })
  demand made s

abbrev pub limit_ciphers : Option Text → Bool → ℕ → H Attempt (Unit {0})
limit_ciphers none taken s = pure tt
limit_ciphers (some t) taken s = do note (limits_ciphers t); demand taken s

abbrev pub present_certificate : Option Text → Bool → ℕ → H Attempt (Unit {0})
present_certificate none taken s = pure tt
present_certificate (some t) taken s = do note (presents t); demand taken s

abbrev pub sign_with : Option Text → Bool → Bool → ℕ → H Attempt (Unit {0})
sign_with none taken fits s = pure tt
sign_with (some t) taken fits s = do note (signs_with t); demand taken s; demand fits s

abbrev pub is_zero : ℤ → Bool
is_zero (pos zero) = true
is_zero (pos (suc n)) = false
is_zero (negsuc n) = false

abbrev pub has_ca : TlsOptions → Bool
has_ca o = is_some o.cafile || is_some o.capath

abbrev pub authenticate_ca : TlsOptions → TlsAnswers → ℕ → H Attempt (Unit {0})
authenticate_ca o t s = do
  note (trusts o.cafile o.capath)
  demand t.authorities s
  note (verifies (not (is_zero o.cert_reqs)))
  present_certificate o.certfile t.certificate s
  sign_with o.keyfile t.key t.key_fits s

abbrev pub authenticate : Bool → Option Text → TlsOptions → TlsAnswers → ℕ → H Attempt (Unit {0})
authenticate true psk o t s = authenticate_ca o t s
authenticate false (some psk) o t s = note offers_psk
authenticate false none o t s = pure tt

-- The handshake over the socket; where it fails, the socket is closed.
abbrev pub after_shake : ℕ → Attempt → Outcome Conn (Unit {0}) → Outcome Attempt (Unit {0})
after_shake s a (ok _ c) = ok tt (record a { conn = c })
after_shake s a (err rc c) = close_with Rc.tls s (record a { conn = c })
after_shake s a crash = crash

unfoldable pub shake : ℕ → H Attempt (Unit {0})
unfolding connect_tls
shake s a = after_shake s (noted handshakes a) (connect_tls a.conn)

-- The TLS part of `_mosquitto_socket_connect`.
unfoldable pub secure : TlsOptions → TlsAnswers → ℕ → H Attempt (Unit {0})
unfolding same_bytes shake
secure o t s = do
  start_context (version_of o.version) t.context s
  limit_ciphers o.ciphers t.ciphers s
  authenticate (has_ca o) o.psk o t s
  with_conn_of (λ c. record c { ssl = t.session })
  demand t.session s
  demand t.bio s
  with_conn_of (λ c. record c { sock = some s })
  shake s

-- `mosq->tls_cafile || mosq->tls_capath || mosq->tls_psk`
abbrev pub uses_tls : TlsOptions → Bool
uses_tls o = has_ca o || is_some o.psk

abbrev pub secure_if : Bool → TlsOptions → TlsAnswers → ℕ → H Attempt (Unit {0})
secure_if true o t s = secure o t s
secure_if false o t s = pure tt

-- `_mosquitto_socket_connect` with its host and port; the value says whether MOSQ_ERR_CONN_PENDING
-- is returned.
unfoldable pub open_socket : TlsOptions → Option Text → Bool → Dial → H Attempt Bool
unfolding try_connect secure
open_socket o bind_address blocking dial = do
  found ← try_connect bind_address blocking dial
  secure_if (uses_tls o) o dial.tls found.0
  with_conn_of (λ c. record c { sock = some found.0 })
  pure found.1
