-- ===== src/Options.antt =====
-- The options of a client: mosquitto/lib/will_mosq.c and the setters of mosquitto/lib/mosquitto.c.
use moscapsule.Prelude.{
  ℕ, ℤ, pos, negsuc, Bool, true, false, Option, none, some, List, [], ◌∷◌, if◌then◌else◌, ◌==◌,
  ◌&&◌, not, ltb, take, is_some,
}
use moscapsule.Types.{inval, payload_size, fails, mqtt31, mqtt311, Text, Message}
use moscapsule.Outcome.{H, ok, err, ◌>>◌}
use moscapsule.Conn.{Callbacks, must_malloc}
use moscapsule.Client.{Options, Mosquitto, with_conn, on_conn}
use moscapsule.Topic.{pub_topic_check}

abbrev pub with_options : Options → Mosquitto → Mosquitto
with_options o m = record m { options = o }

-- MQTT_MAX_PAYLOAD
abbrev pub max_payload : ℕ
max_payload = 268435455

-- `payloadlen < 0 || payloadlen > MQTT_MAX_PAYLOAD`
abbrev pub bad_length : ℤ → Bool
bad_length (pos n) = ltb max_payload n
bad_length (negsuc n) = true

abbrev pub length_of : ℤ → ℕ
length_of (pos n) = n
length_of (negsuc n) = 0

abbrev pub set_will : Option Message → H Mosquitto (Unit {0})
set_will w m = ok tt (with_options (record (m.options) { will = w }) m)

-- Out of memory after the old will is gone: `goto cleanup`.
abbrev pub must_have : H Mosquitto (Unit {0})
must_have = on_conn must_malloc

-- The copies of the topic and of the payload. The mosquitto_message is allocated before.
abbrev pub copies : List ℕ → H Mosquitto (Unit {0})
copies [] = must_have
copies (b ∷ bs) = do must_have; must_have

-- `_mosquitto_will_set` behind its checks
unfoldable pub replace_will : Text → List ℕ → ℕ → Bool → H Mosquitto (Unit {0})
replace_will topic payload qos retain = do
  set_will none
  must_have
  copies payload
  set_will (some (record { mid = 0; topic = topic; payload = payload; qos = qos; retain = retain }))

-- `memcpy(..., payload, payloadlen)`
abbrev pub payload_bytes : ℤ → Option (List ℕ) → List ℕ
payload_bytes payloadlen none = []
payload_bytes payloadlen (some bs) = take (length_of payloadlen) bs

-- `_mosquitto_will_set`, with `none` for a NULL pointer
unfoldable pub will_set : Option Text → ℤ → Option (List ℕ) → ℕ → Bool → H Mosquitto (Unit {0})
will_set none payloadlen payload qos retain m = err inval m
will_set (some topic) payloadlen payload qos retain m =
    if bad_length payloadlen
    then err payload_size m
    else if ltb 0 (length_of payloadlen) && not (is_some payload)
    then err inval m
    else if fails (pub_topic_check topic)
    then err inval m
    else replace_will topic (payload_bytes payloadlen payload) qos retain m

-- `_mosquitto_will_clear`
unfoldable pub will_clear : H Mosquitto (Unit {0})
will_clear = set_will none

abbrev pub set_login : Option Text → Option Text → H Mosquitto (Unit {0})
set_login username password m =
    ok tt (with_options (record (m.options) { username = username; password = password }) m)

-- `mosquitto_username_pw_set`
unfoldable pub username_pw_set : Option Text → Option Text → H Mosquitto (Unit {0})
username_pw_set none password = set_login none none
username_pw_set (some username) none = do
  set_login none none
  must_have
  set_login (some username) none
username_pw_set (some username) (some password) = do
  set_login none none
  must_have
  must_have
  set_login (some username) (some password)

-- `mosquitto_reconnect_disable` and `mosquitto_reconnect_delay_set`
unfoldable pub reconnect_disable : H Mosquitto (Unit {0})
reconnect_disable m = ok tt (with_options (record (m.options) { reconnect_enabled = false }) m)

unfoldable pub reconnect_delay_set : ℕ → ℕ → Bool → H Mosquitto (Unit {0})
reconnect_delay_set delay delay_max exponential m = ok tt (
    with_options
      (record (m.options) {
        reconnect_enabled = true;
        reconnect_delay = delay;
        reconnect_delay_max = delay_max;
        reconnect_exponential_backoff = exponential;
      })
      m)

-- `mosquitto_opts_set` with MOSQ_OPT_PROTOCOL_VERSION
unfoldable pub protocol_version_set : ℕ → H Mosquitto (Unit {0})
protocol_version_set version m =
    if version == 3
    then ok tt (with_options (record (m.options) { protocol = mqtt31 }) m)
    else if version == 4
    then ok tt (with_options (record (m.options) { protocol = mqtt311 }) m)
    else err inval m

-- The setters of the callbacks.
unfoldable pub callbacks_set : Callbacks → Mosquitto → Mosquitto
callbacks_set callbacks m = with_conn (record (m.conn) { callbacks = callbacks }) m
