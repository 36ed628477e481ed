-- ===== src/Runs/Calls.antt =====
-- The calls of a client's life, and names of certificates, on small concrete inputs.
use moscapsule.Prelude.{◌≡◌, ◌↔◌, refl, inr, pos, Bool, true, none, some, [], ◌∷◌, arith}
use moscapsule.Types.{Text, wait_for_puback, invalid}
use moscapsule.Outcome.{After, Holds}
use moscapsule.Conn.{Env}
use moscapsule.Client.{Mosquitto}
use moscapsule.Api.{initialised, blank}
use moscapsule.Session.{Call}
use moscapsule.Session.Sound.{Sound}
use moscapsule.Connect.{reconnect}
use moscapsule.Session.Encrypting.{NotPlain, reconnect-NotPlain}
use moscapsule.Tls.{cmp_hostname_wildcard}
use moscapsule.Tls.Names.{lowers, cmp_hostname_wildcard-label}
use moscapsule.Tls.Setters.{tls_set}
use moscapsule.Tls.Stored.{in_tls, given, WellGiven, tls_set-stored}
use moscapsule.Runs.Dialling.{reachable_broker}
use moscapsule.Runs.{world, idle, message-FitsMessage, start-Receiving}

abbrev client_id : Text
client_id = b'c' ∷ []

-- What `mosquitto_new` makes, with a broker in reach.
abbrev fresh : Mosquitto
fresh = initialised (some client_id) (blank true idle)

abbrev broker_up : Env
broker_up = record (world [] []) { dials = reachable_broker ∷ [] }

abbrev connecting : Call
connecting = Call.call_connect (some (b'h' ∷ [])) (pos 1883) 60 none

-- A connected client with messages in both directions.
abbrev busy : Mosquitto
busy = record idle { options = record (idle.options) { id = some client_id } }

busy-Sound : Sound busy
busy-Sound = (
  ((refl, refl), tt),
  (message-FitsMessage 1 1 wait_for_puback, (message-FitsMessage 2 1 invalid, tt)),
  record { named = omega arith; username = tt; password = tt; will = tt; kept = refl },
  inr start-Receiving,
)

-- The same client before it connects, with certificates of an authority.
abbrev unconnected : Mosquitto
unconnected = record busy {
  conn = record (busy.conn) { sock = none; env = broker_up };
  options = record (busy.options) {
    host = some (b'h' ∷ []);
    port = 8883;
    tls = record (busy.options.tls) { cafile = some (b'a' ∷ []) };
  };
}

unconnected-Sound : Sound unconnected
unconnected-Sound = (
  busy-Sound.0,
  busy-Sound.1,
  record { named = omega arith; username = tt; password = tt; will = tt; kept = refl },
  inr start-Receiving,
)

reconnect-NotPlain_example : After (λ n. NotPlain n.conn) (reconnect true unconnected)
reconnect-NotPlain_example = reconnect-NotPlain true unconnected unconnected-Sound refl refl

cmp_hostname_wildcard-label_example :
    (cmp_hostname_wildcard (b'*' ∷ b'.' ∷ b'B' ∷ []) (b'a' ∷ b'.' ∷ b'b' ∷ []) ≡ some true)
    ↔ (lowers (b'B' ∷ []) ≡ lowers (b'b' ∷ []))
cmp_hostname_wildcard-label_example =
    cmp_hostname_wildcard-label (b'B' ∷ []) (b'a' ∷ []) b'b' [] (ground arith, tt)

abbrev opens_all : Text → Bool
opens_all t = true

tls_set-stored_example :
    Holds
      (λ _ n.
        WellGiven (some (b'f' ∷ [])) none none none
        × (n.options ≡ in_tls (given (some (b'f' ∷ [])) none none none) idle.options))
      (tls_set opens_all (some (b'f' ∷ [])) none none none idle)
tls_set-stored_example = tls_set-stored opens_all (some (b'f' ∷ [])) none none none idle
