-- ===== src/Tls/Setters.antt =====
-- The TLS options of mosquitto/lib/mosquitto.c, built WITH_TLS and WITH_TLS_PSK with OpenSSL 1.0.1 at
-- least. Which files fopen(3) opens is an argument; the password callback is not modelled.
use moscapsule.Prelude.{
  ℕ, ℤ, Bool, true, false, Option, none, some, [], ◌∷◌, if◌then◌else◌, ◌&&◌, ◌||◌, not, leb,
  is_some,
}
use moscapsule.Types.{inval, nomem, Text}
use moscapsule.Outcome.{H, bind, ok, err, ◌>>◌, modify}
use moscapsule.Conn.{malloc}
use moscapsule.Client.{TlsOptions, Mosquitto, on_conn}
use moscapsule.Options.{with_options, must_have}
use moscapsule.Tls.{same_caseless}

abbrev pub with_tls : (TlsOptions → TlsOptions) → Mosquitto → Mosquitto
with_tls f m = with_options (record (m.options) { tls = f m.options.tls }) m

-- The assignments to the fields.
abbrev pub cafile_set : Option Text → TlsOptions → TlsOptions
cafile_set t o = record o { cafile = t }

abbrev pub capath_set : Option Text → TlsOptions → TlsOptions
capath_set t o = record o { capath = t }

abbrev pub certfile_set : Option Text → TlsOptions → TlsOptions
certfile_set t o = record o { certfile = t }

abbrev pub keyfile_set : Option Text → TlsOptions → TlsOptions
keyfile_set t o = record o { keyfile = t }

abbrev pub version_set : Option Text → TlsOptions → TlsOptions
version_set t o = record o { version = t }

abbrev pub ciphers_set : Option Text → TlsOptions → TlsOptions
ciphers_set t o = record o { ciphers = t }

abbrev pub psk_set : Option Text → TlsOptions → TlsOptions
psk_set t o = record o { psk = t; psk_freed = false }

abbrev pub psk_identity_set : Option Text → TlsOptions → TlsOptions
psk_identity_set t o = record o { psk_identity = t }

-- `field = _mosquitto_strdup(value); if(!field) return MOSQ_ERR_NOMEM;`, or NULL.
abbrev pub store : (Option Text → TlsOptions → TlsOptions) → Option Text → H Mosquitto (Unit {0})
store put none m = ok tt (with_tls (put none) m)
store put (some t) m = (do must_have; modify (with_tls (put (some t)))) (with_tls (put none) m)

-- The file is opened for a try; if it cannot be, `undo` is done.
abbrev pub store_file :
    (Text → Bool)
    → (TlsOptions → TlsOptions)
    → (Option Text → TlsOptions → TlsOptions)
    → Option Text
    → H Mosquitto (Unit {0})
store_file opens undo put none m = store put none m
store_file opens undo put (some t) m =
    if opens t then store put (some t) m else err inval (with_tls undo m)

abbrev pub no_ca : TlsOptions → TlsOptions
no_ca o = capath_set none (cafile_set none o)

abbrev pub no_certificate : TlsOptions → TlsOptions
no_certificate o = certfile_set none (no_ca o)

-- `(!cafile && !capath) || (certfile && !keyfile) || (!certfile && keyfile)`
abbrev pub bad_files : Option Text → Option Text → Option Text → Option Text → Bool
bad_files cafile capath certfile keyfile =
    (not (is_some cafile) && not (is_some capath))
    || ((is_some certfile && not (is_some keyfile)) || (not (is_some certfile) && is_some keyfile))

-- `mosquitto_tls_set` behind its check, and the whole of it.
abbrev pub store_files :
    (Text → Bool) → Option Text → Option Text → Option Text → Option Text → H Mosquitto (Unit {0})
store_files opens cafile capath certfile keyfile = do
  store_file opens (λ o. o) cafile_set cafile
  store capath_set capath
  store_file opens no_ca certfile_set certfile
  store_file opens no_certificate keyfile_set keyfile

unfoldable pub tls_set :
    (Text → Bool) → Option Text → Option Text → Option Text → Option Text → H Mosquitto (Unit {0})
tls_set opens cafile capath certfile keyfile m =
    if bad_files cafile capath certfile keyfile
    then err inval m
    else store_files opens cafile capath certfile keyfile m

abbrev pub tlsv1 : Text
tlsv1 = b't' ∷ b'l' ∷ b's' ∷ b'v' ∷ b'1' ∷ []

abbrev pub tlsv1_1 : Text
tlsv1_1 = b't' ∷ b'l' ∷ b's' ∷ b'v' ∷ b'1' ∷ b'.' ∷ b'1' ∷ []

abbrev pub tlsv1_2 : Text
tlsv1_2 = b't' ∷ b'l' ∷ b's' ∷ b'v' ∷ b'1' ∷ b'.' ∷ b'2' ∷ []

abbrev pub store_version : Option Text → H Mosquitto (Unit {0})
store_version none m = store version_set (some tlsv1_2) m
store_version (some v) m =
    if same_caseless v tlsv1_2 || (same_caseless v tlsv1_1 || same_caseless v tlsv1)
    then store version_set (some v) m
    else err inval m

-- `mosquitto_tls_opts_set`; `cert_reqs` is taken over even where the version is refused.
unfoldable pub tls_opts_set : ℤ → Option Text → Option Text → H Mosquitto (Unit {0})
unfolding same_caseless
tls_opts_set cert_reqs tls_version ciphers = do
  modify (with_tls (λ o. record o { cert_reqs = cert_reqs }))
  store_version tls_version
  store ciphers_set ciphers

-- `mosquitto_tls_insecure_set`
unfoldable pub tls_insecure_set : Bool → H Mosquitto (Unit {0})
tls_insecure_set value m = ok tt (with_tls (λ o. record o { insecure = value }) m)

-- A byte of "0123456789abcdefABCDEF".
abbrev pub is_hex_digit : ℕ → Bool
is_hex_digit b =
    (leb b'0' b && leb b b'9') || ((leb b'a' b && leb b b'f') || (leb b'A' b && leb b b'F'))

-- `strspn(psk, ...) < strlen(psk)` does not hold.
unfoldable pub all_hex : Text → Bool
all_hex [] = true
all_hex (b ∷ bs) = is_hex_digit b && all_hex bs

-- The copy of the identity: without memory the key is given back, and its pointer stays.
abbrev pub store_identity : Text → H Mosquitto (Unit {0})
store_identity identity m = bind (on_conn malloc (with_tls (psk_identity_set none) m)) (λ granted n.
    if granted
    then ok tt (with_tls (psk_identity_set (some identity)) n)
    else err nomem (with_tls (λ o. record o { psk_freed = true }) n))

-- `mosquitto_tls_psk_set`
unfoldable pub tls_psk_set : Option Text → Option Text → Option Text → H Mosquitto (Unit {0})
unfolding all_hex
tls_psk_set none identity ciphers m = err inval m
tls_psk_set (some psk) none ciphers m = err inval m
tls_psk_set (some psk) (some identity) ciphers m =
    if all_hex psk
    then (do store psk_set (some psk); store_identity identity; store ciphers_set ciphers) m
    else err inval m
