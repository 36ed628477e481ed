-- ===== src/Session/Setting.antt =====
-- Subscribing, disconnecting and the setters keep the client sound.
use moscapsule.Prelude.{
  ℕ, ◌<◌, ◌^◌, ◌%◌, ◌≡◌, refl, sym, subst, ◌∙◌, ℤ, pos, negsuc, Bool, true, false, Option, none,
  some, List, length, take, length-take, ltb, ◌==◌, ◌||◌, ◌&&◌, not, is_some, if◌then◌else◌, arith,
}
use moscapsule.Types.{inval, no_conn, fails, Text, Message, disconnecting}
use moscapsule.Outcome.{Outcome, H, ok, err, bind, ◌>>◌, After, After-bind}
use moscapsule.Conn.{Conn}
use moscapsule.Send.{send_subscribe, send_unsubscribe, send_disconnect}
use moscapsule.Send.Calm.{
  send_subscribe-Receivable, send_unsubscribe-Receivable, send_simple_command-Receivable,
}
use moscapsule.Send.Wire.{Fits}
use moscapsule.Client.{Options, Mosquitto, on_conn}
use moscapsule.Topic.{pub_topic_check, sub_topic_check}
use moscapsule.Topic.Checks.{pub_topic_check-short, sub_topic_check-short}
use moscapsule.Options.{
  with_options, bad_length, length_of, must_have, copies, set_will, replace_will, payload_bytes,
  will_set, set_login, username_pw_set,
}
use moscapsule.Connect.{disconnect}
use moscapsule.Api.{
  bad_qos, publish, checked_sub, subscribe_to, unsubscribe_from, subscribe, unsubscribe,
}
use moscapsule.Session.{ShortText, IsNamed}
use moscapsule.Session.Sound.{FitsWill, GoodOptions, Sound, conn-Sound, must_have-Sound, if-After}
use moscapsule.Session.Calling.{Safe, After-Safe, publish_checked-Safe, copies-Sound}

-- A length that passes the check.
length_of-bounded : (n : ℤ) → bad_length n ≡ false → length_of n < 2 ^ 28
length_of-bounded (pos n) e = ground (arith, e)
length_of-bounded (negsuc n) e = omega arith

take-bounded : (n : ℕ) (xs : List ℕ) → n < 2 ^ 28 → length (take n xs) < 2 ^ 28
take-bounded n xs h = omega (arith, h, length-take n xs)

if-Safe :
    (strays : Bool) (b : Bool) (x y : Outcome Mosquitto (Unit {0}))
    → (b ≡ true → Safe strays x)
    → (b ≡ false → Safe strays y)
    → Safe strays (if b then x else y)
if-Safe strays true x y h k = h refl
if-Safe strays false x y h k = k refl

pub publish-Safe :
    (topic : Option Text) (payloadlen : ℤ) (payload : List ℕ) (qos : ℤ) (retain : Bool)
    (m : Mosquitto)
    → Sound m
    → Safe m.out_strays (publish topic payloadlen payload qos retain m)
unfolding publish
publish-Safe none payloadlen payload qos retain m h = h
publish-Safe (some topic) payloadlen payload qos retain m h =
    if-Safe m.out_strays (bad_qos qos || length topic == 0) _ _ (λ _. h)
      λ _.
        if-Safe m.out_strays (bad_length payloadlen) _ _ (λ _. h)
          λ l.
            if-Safe m.out_strays (fails (pub_topic_check topic)) _ _ (λ _. h)
              λ t.
                publish_checked-Safe topic (take (length_of payloadlen) payload) (length_of qos)
                  retain m
                  (record {
                    short = omega (arith, pub_topic_check-short topic t);
                    small =
                        take-bounded (length_of payloadlen) payload
                          (length_of-bounded payloadlen l);
                  })
                  h

-- A request that is sent if the subscription passes.
checked_sub-Sound :
    (sub : Text) (f : H Conn (Unit {0})) (m : Mosquitto)
    → Sound m
    → (length sub < 2 ^ 16 → (n : Mosquitto) → Sound n → After Sound (on_conn f n))
    → After Sound ((do checked_sub sub; on_conn f) m)
checked_sub-Sound sub f m h k = go (fails (sub_topic_check sub)) refl
  where
    go :
        (b : Bool)
        → fails (sub_topic_check sub) ≡ b
        → After Sound (bind (if b then err inval m else ok tt m) (λ _. on_conn f))
    go true e = h
    go false e = k (omega (arith, sub_topic_check-short sub e)) m h

pub subscribe-Sound :
    (sub : Text) (qos : ℕ) (m : Mosquitto) → Sound m → After Sound (subscribe (some sub) qos m)
unfolding subscribe
subscribe-Sound sub qos m h = go m.sock
  where
    go :
        (s : Option ℕ)
        → After Sound (elim s [ none ↦ err no_conn m | some _ ↦ subscribe_to (some sub) qos m ])
    go none = h
    go (some n) = checked_sub-Sound sub (send_subscribe sub (qos % 256)) m h (λ short n k.
        conn-Sound (send_subscribe sub (qos % 256)) n k
          (send_subscribe-Receivable sub (qos % 256) n.conn short k.3))

pub unsubscribe-Sound :
    (sub : Text) (m : Mosquitto) → Sound m → After Sound (unsubscribe (some sub) m)
unfolding unsubscribe
unsubscribe-Sound sub m h = go m.sock
  where
    go :
        (s : Option ℕ)
        → After Sound (elim s [ none ↦ err no_conn m | some _ ↦ unsubscribe_from (some sub) m ])
    go none = h
    go (some n) = checked_sub-Sound sub (send_unsubscribe sub) m h (λ short n k.
        conn-Sound (send_unsubscribe sub) n k (send_unsubscribe-Receivable sub n.conn short k.3))

-- Where there is a topic.
pub subscribe-Safe :
    (sub : Option Text) (qos : ℕ) (m : Mosquitto)
    → Sound m
    → Safe (not (is_some sub)) (subscribe sub qos m)
unfolding subscribe
subscribe-Safe (some sub) qos m h = After-Safe false _ (subscribe-Sound sub qos m h)
subscribe-Safe none qos m h = go m.sock
  where
    go :
        (s : Option ℕ)
        → Safe true (elim s [ none ↦ err no_conn m | some _ ↦ subscribe_to none qos m ])
    go none = h
    go (some n) = refl

pub unsubscribe-Safe :
    (sub : Option Text) (m : Mosquitto) → Sound m → Safe (not (is_some sub)) (unsubscribe sub m)
unfolding unsubscribe
unsubscribe-Safe (some sub) m h = After-Safe false _ (unsubscribe-Sound sub m h)
unsubscribe-Safe none m h = go m.sock
  where
    go :
        (s : Option ℕ)
        → Safe true (elim s [ none ↦ err no_conn m | some _ ↦ unsubscribe_from none m ])
    go none = h
    go (some n) = refl

pub disconnect-Sound : (m : Mosquitto) → Sound m → After Sound (disconnect m)
unfolding disconnect send_disconnect
disconnect-Sound m h = go m.sock
  where
    n : Mosquitto
    n = record m { conn = record (m.conn) { state = disconnecting } }

    go :
        (s : Option ℕ)
        → After Sound (elim s [ none ↦ err no_conn n | some _ ↦ on_conn send_disconnect n ])
    go none = h
    go (some _) = conn-Sound send_disconnect n h (send_simple_command-Receivable 0xE0 n.conn h.3)

payload_bytes-bounded :
    (payloadlen : ℤ) (payload : Option (List ℕ))
    → bad_length payloadlen ≡ false
    → length (payload_bytes payloadlen payload) < 2 ^ 28
payload_bytes-bounded payloadlen none e = omega arith
payload_bytes-bounded payloadlen (some bs) e = take-bounded _ bs (length_of-bounded payloadlen e)

set_will-Good :
    (w : Option Message) (o : Options)
    → FitsWill w
    → GoodOptions o
    → GoodOptions (record o { will = w })
set_will-Good w o f g = record {
  named = g.named;
  username = g.username;
  password = g.password;
  will = f;
  kept = g.kept;
}

replace_will-Sound :
    (topic : Text) (payload : List ℕ) (qos : ℕ) (retain : Bool) (m : Mosquitto)
    → Fits topic payload
    → Sound m
    → After Sound (replace_will topic payload qos retain m)
unfolding replace_will
replace_will-Sound topic payload qos retain m fit h =
    let n : Mosquitto = with_options (record (m.options) { will = none }) m in
    After-bind Sound (must_have n) _
      (must_have-Sound n (h.0, h.1, set_will-Good none m.options tt h.2, h.3))
      λ _ n1 h1.
        After-bind Sound (copies payload n1) _ (copies-Sound payload n1 h1)
          (λ _ n2 h2. (h2.0, h2.1, set_will-Good _ n2.options (fit.short, fit.small) h2.2, h2.3))

pub will_set-Sound :
    (topic : Option Text) (payloadlen : ℤ) (payload : Option (List ℕ)) (qos : ℕ) (retain : Bool)
    (m : Mosquitto)
    → Sound m
    → After Sound (will_set topic payloadlen payload qos retain m)
unfolding will_set
will_set-Sound none payloadlen payload qos retain m h = h
will_set-Sound (some topic) payloadlen payload qos retain m h =
    if-After Sound (bad_length payloadlen) _ _ (λ _. h)
      λ l.
        if-After Sound (ltb 0 (length_of payloadlen) && not (is_some payload)) _ _ (λ _. h)
          λ _.
            if-After Sound (fails (pub_topic_check topic)) _ _ (λ _. h)
              λ t.
                replace_will-Sound topic (payload_bytes payloadlen payload) qos retain m
                  (record {
                    short = omega (arith, pub_topic_check-short topic t);
                    small = payload_bytes-bounded payloadlen payload l;
                  })
                  h

pub will_clear-Sound : (m : Mosquitto) → Sound m → After Sound (set_will none m)
will_clear-Sound m h = (h.0, h.1, set_will-Good none m.options tt h.2, h.3)

abbrev with_login : Option Text → Option Text → Mosquitto → Mosquitto
with_login username password m =
    with_options (record (m.options) { username = username; password = password }) m

set_login-Sound :
    (username password : Option Text) (m : Mosquitto)
    → ShortText username
    → ShortText password
    → Sound m
    → After Sound (set_login username password m)
set_login-Sound username password m u p h = (
  h.0,
  h.1,
  record { named = h.2.named; username = u; password = p; will = h.2.will; kept = h.2.kept },
  h.3,
)

pub username_pw_set-Sound :
    (username password : Option Text) (m : Mosquitto)
    → ShortText username
    → ShortText password
    → Sound m
    → After Sound (username_pw_set username password m)
unfolding username_pw_set
username_pw_set-Sound none password m u p h = set_login-Sound none none m tt tt h
username_pw_set-Sound (some username) none m u p h =
    let n : Mosquitto = with_login none none m in
    After-bind Sound (must_have n) _ (must_have-Sound n (set_login-Sound none none m tt tt h))
      (λ _ n1 h1. set_login-Sound (some username) none n1 u tt h1)
username_pw_set-Sound (some username) (some password) m u p h =
    let n : Mosquitto = with_login none none m in
    After-bind Sound (must_have n) _ (must_have-Sound n (set_login-Sound none none m tt tt h))
      λ _ n1 h1.
        After-bind Sound (must_have n1) _ (must_have-Sound n1 h1)
          (λ _ n2 h2. set_login-Sound (some username) (some password) n2 u p h2)

-- Options in which only numbers and the protocol have changed.
pub same-Good :
    (o o' : Options)
    → o'.id ≡ o.id
    → o'.username ≡ o.username
    → o'.password ≡ o.password
    → o'.will ≡ o.will
    → o'.bind_freed ≡ o.bind_freed
    → GoodOptions o
    → GoodOptions o'
same-Good o o' i u p w b g = record {
  named = subst IsNamed (sym i) g.named;
  username = subst ShortText (sym u) g.username;
  password = subst ShortText (sym p) g.password;
  will = subst FitsWill (sym w) g.will;
  kept = b ∙ g.kept;
}
