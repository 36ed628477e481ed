-- ===== src/Session/Life.antt =====
-- The states that a client can reach are sound, and no call crashes in them.
use moscapsule.Outcome.{Outcome, ok}
use moscapsule.Conn.{Conn}
use moscapsule.Client.{Mosquitto}
use moscapsule.Session.{IsNamed}
use moscapsule.Session.Sound.{Sound}

-- What `mosquitto_reinitialise` leaves where it succeeds with an identifier.
abbrev Begins : Outcome Mosquitto (Unit {0}) → Type 0
Begins (ok a m) = IsNamed m.options.id → Sound m
Begins _ = Unit {0}
