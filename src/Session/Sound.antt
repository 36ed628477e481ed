-- ===== src/Session/Sound.antt =====
-- What holds of a client between the calls of the library: its messages, options and connection.
use moscapsule.Prelude.{
  refl, ◌<◌, ◌^◌, ◌≡◌, Option, none, some, All, length, Bool, true, false, if◌then◌else◌,
}
use moscapsule.Types.{wait_for_pubrel, Message, MessageAll}
use moscapsule.Outcome.{Outcome, H, ok, err, crash, bind, After, attempt, caught}
use moscapsule.Conn.{Conn, must_malloc}
use moscapsule.Net.Calm.{Receivable, must_malloc-Receivable}
use moscapsule.Client.{Options, Mosquitto, on_conn, lifted}
use moscapsule.Messages.Safety.{FitsMessage}
use moscapsule.Messages.Reset.{IsExactlyOnce}
use moscapsule.Options.{must_have}
use moscapsule.Session.{ShortText, IsNamed}

-- A received message of QoS 2, between PUBLISH and PUBREL.
abbrev pub Waiting : MessageAll → Type 0
Waiting x = IsExactlyOnce x × (x.state ≡ wait_for_pubrel)

abbrev pub FitsWill : Option Message → Type 0
FitsWill none = Unit {0}
FitsWill (some w) = (length w.topic < 2 ^ 16) × (length w.payload < 2 ^ 28)

pub record GoodOptions (o : Options) : Type 0 where
  pub named : IsNamed o.id
  pub username : ShortText o.username
  pub password : ShortText o.password
  pub will : FitsWill o.will
  pub kept : o.bind_freed ≡ false

abbrev pub Sound : Mosquitto → Type 0
Sound m =
    All Waiting m.in_messages
    × All FitsMessage m.out_messages
    × GoodOptions m.options
    × Receivable m.conn

-- What a step that may stop the model keeps.
abbrev pub Keeps : {A : Type 0} → Outcome Mosquitto A → Type 0
Keeps (ok a m) = Sound m
Keeps (err rc m) = Sound m
Keeps crash = Unit {0}

pub After-Keeps : {A : Type 0} (o : Outcome Mosquitto A) → After Sound o → Keeps o
After-Keeps (ok a m) h = h
After-Keeps (err rc m) h = h
After-Keeps crash h = tt

pub Keeps-bind :
    {A B : Type 0} (o : Outcome Mosquitto A) (k : A → Mosquitto → Outcome Mosquitto B)
    → Keeps o
    → ((a : A) (m : Mosquitto) → Sound m → Keeps (k a m))
    → Keeps (bind o k)
Keeps-bind (ok a m) k h g = g a m h
Keeps-bind (err rc m) k h g = h
Keeps-bind crash k h g = tt

pub if-Keeps :
    {A : Type 0} (b : Bool) (x y : Outcome Mosquitto A)
    → (b ≡ true → Keeps x)
    → (b ≡ false → Keeps y)
    → Keeps (if b then x else y)
if-Keeps true x y h k = h refl
if-Keeps false x y h k = k refl

-- The connection's part of a call.
pub conn-Sound :
    {A : Type 0} (f : H Conn A) (m : Mosquitto)
    → Sound m
    → After Receivable (f m.conn)
    → After Sound (on_conn f m)
conn-Sound {A} f m h k = go (f m.conn) k
  where
    go : (o : Outcome Conn A) → After Receivable o → After Sound (lifted m o)
    go (ok a c) r = (h.0, h.1, h.2, r)
    go (err rc c) r = (h.0, h.1, h.2, r)
    go crash r = r

pub must_have-Sound : (m : Mosquitto) → Sound m → After Sound (must_have m)
must_have-Sound m h = conn-Sound must_malloc m h (must_malloc-Receivable m.conn h.3)

pub attempt-After :
    {S : Type 0} (P : S → Type 0) (f : H S (Unit {0})) (s : S)
    → After P (f s)
    → After P (attempt f s)
attempt-After {S} P f s h = go (f s) h
  where
    go : (o : Outcome S (Unit {0})) → After P o → After P (caught o)
    go (ok a t) e = e
    go (err rc t) e = e
    go crash e = e

pub if-After :
    {S A : Type 0} (P : S → Type 0) (b : Bool) (x y : Outcome S A)
    → (b ≡ true → After P x)
    → (b ≡ false → After P y)
    → After P (if b then x else y)
if-After P true x y h k = h refl
if-After P false x y h k = k refl
