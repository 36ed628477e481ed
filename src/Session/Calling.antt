-- ===== src/Session/Calling.antt =====
-- Publishing, subscribing and the setters keep the client sound.
use moscapsule.Prelude.{
  ℕ, ◌≡◌, refl, sym, subst, ap, ◌∙◌, Bool, true, false, List, [], ◌∷◌, ◌++◌, All, ◌==◌,
  if◌then◌else◌,
}
use moscapsule.Types.{outgoing, Text, MessageAll}
use moscapsule.Outcome.{Outcome, H, ok, err, crash, bind, ◌>>◌, pure, After, After-bind}
use moscapsule.Conn.{Conn, mid_generate, must_malloc}
use moscapsule.Net.Calm.{Receivable, must_malloc-Receivable, mid_generate-Receivable}
use moscapsule.Send.{send_publish}
use moscapsule.Send.Calm.{send_publish-Receivable}
use moscapsule.Send.Wire.{Fits}
use moscapsule.Client.{Msgs, Mosquitto, with_msgs, on_conn, into_msgs, lifted}
use moscapsule.Messages.{message_queue, started, publish_again}
use moscapsule.Messages.Safety.{FitsMessage}
use moscapsule.Handle.Keeping.{All-append}
use moscapsule.Options.{must_have, copies}
use moscapsule.Api.{new_message, start_last, start_queued, publish_queued, publish_checked}
use moscapsule.Api.Publish.{message_queue-outgoing, Appended, start_last-append}
use moscapsule.Session.Sound.{Waiting, Sound, conn-Sound, must_have-Sound}

pub copies-Sound : (payload : List ℕ) (m : Mosquitto) → Sound m → After Sound (copies payload m)
copies-Sound [] m h = must_have-Sound m h
copies-Sound (b ∷ bs) m h =
    After-bind Sound (must_have m) _ (must_have-Sound m h) (λ _ n k. must_have-Sound n k)

-- A call that may meet a stray `out_messages_last`, and stops the model only there.
abbrev pub Safe : {A : Type 0} → Bool → Outcome Mosquitto A → Type 0
Safe strays (ok a m) = Sound m
Safe strays (err rc m) = Sound m
Safe strays crash = strays ≡ true

pub After-Safe :
    {A : Type 0} (strays : Bool) (o : Outcome Mosquitto A) → After Sound o → Safe strays o
After-Safe strays (ok a m) h = h
After-Safe strays (err rc m) h = h
After-Safe strays crash h = absurd h

-- What of the client the connection's part does not touch.
abbrev SafeBeside : {A : Type 0} → Bool → Outcome Mosquitto A → Type 0
SafeBeside strays (ok a m) = Sound m × (m.out_strays ≡ strays)
SafeBeside strays (err rc m) = Sound m
SafeBeside strays crash = strays ≡ true

SafeBeside-bind :
    {A B : Type 0} (strays : Bool) (o : Outcome Mosquitto A)
    (k : A → Mosquitto → Outcome Mosquitto B)
    → SafeBeside strays o
    → ((a : A) (m : Mosquitto) → Sound m → m.out_strays ≡ strays → Safe strays (k a m))
    → Safe strays (bind o k)
SafeBeside-bind strays (ok a m) k h g = g a m h.0 h.1
SafeBeside-bind strays (err rc m) k h g = h
SafeBeside-bind strays crash k h g = h

SafeBeside-then :
    {A B : Type 0} (strays : Bool) (o : Outcome Mosquitto A)
    (k : A → Mosquitto → Outcome Mosquitto B)
    → SafeBeside strays o
    → ((a : A) (m : Mosquitto) → Sound m → m.out_strays ≡ strays → SafeBeside strays (k a m))
    → SafeBeside strays (bind o k)
SafeBeside-then strays (ok a m) k h g = g a m h.0 h.1
SafeBeside-then strays (err rc m) k h g = h
SafeBeside-then strays crash k h g = h

conn-SafeBeside :
    {A : Type 0} (f : H Conn A) (m : Mosquitto)
    → Sound m
    → After Receivable (f m.conn)
    → SafeBeside m.out_strays (on_conn f m)
conn-SafeBeside {A} f m h k = go (f m.conn) k
  where
    go : (o : Outcome Conn A) → After Receivable o → SafeBeside m.out_strays (lifted m o)
    go (ok a c) r = ((h.0, h.1, h.2, r), refl)
    go (err rc c) r = (h.0, h.1, h.2, r)
    go crash r = absurd r

must_have-SafeBeside : (m : Mosquitto) → Sound m → SafeBeside m.out_strays (must_have m)
must_have-SafeBeside m h = conn-SafeBeside must_malloc m h (must_malloc-Receivable m.conn h.3)

copies-SafeBeside :
    (payload : List ℕ) (m : Mosquitto) → Sound m → SafeBeside m.out_strays (copies payload m)
copies-SafeBeside [] m h = must_have-SafeBeside m h
copies-SafeBeside (b ∷ bs) m h =
    SafeBeside-then m.out_strays (must_have m) _ (must_have-SafeBeside m h)
      (λ _ n k e. subst (λ s. SafeBeside s (must_have n)) e (must_have-SafeBeside n k))

message_queue-stray :
    (x : MessageAll) (ms : Msgs) → ms.out_strays ≡ true → message_queue x outgoing ms ≡ crash
unfolding message_queue
message_queue-stray x ms e = rw (e, message_queue) refl

abbrev after_queue : MessageAll → Mosquitto → Outcome Msgs ℕ → Outcome Mosquitto (Unit {0})
after_queue x m o = bind (into_msgs m o) (λ status.
    if status == 0 then (do start_queued; on_conn (publish_again (started x))) else pure tt)

after_queue-Sound :
    (x : MessageAll) (m : Mosquitto) (status : ℕ) (ms : Msgs)
    → FitsMessage x
    → Sound m
    → Appended x m.msgs (ok status ms)
    → After Sound (after_queue x m (ok status ms))
after_queue-Sound x m status ms fit h a = go (status == 0)
  where
    both : (y : MessageAll) → FitsMessage y → All FitsMessage (m.out_messages ++ y ∷ [])
    both y f = All-append FitsMessage m.out_messages y h.1 f

    waiting : All Waiting ms.in_messages
    waiting = subst (All Waiting) (sym a.1) h.0

    started_there : All FitsMessage (start_last ms.out_messages)
    started_there =
        subst (All FitsMessage) (sym (ap start_last a.0 ∙ start_last-append m.out_messages x))
          (both (started x) fit)

    go :
        (b : Bool)
        → After Sound (
            (if b then (do start_queued; on_conn (publish_again (started x))) else pure tt)
              (with_msgs ms m))
    go true =
        let n : Mosquitto = with_msgs (record ms { out_messages = start_last ms.out_messages }) m in
        conn-Sound (publish_again (started x)) n (waiting, started_there, h.2, h.3)
          (send_publish-Receivable x.msg.mid x.msg.topic x.msg.payload x.msg.qos x.msg.retain x.dup
            n.conn fit h.3)
    go false = (waiting, subst (All FitsMessage) (sym a.0) (both x fit), h.2, h.3)

publish_queued-Safe :
    (x : MessageAll) (m : Mosquitto)
    → FitsMessage x
    → Sound m
    → Safe m.out_strays (publish_queued x m)
unfolding publish_queued
publish_queued-Safe x m fit h = go m.out_strays refl
  where
    queued : (o : Outcome Msgs ℕ) → Appended x m.msgs o → After Sound (after_queue x m o)
    queued (ok status ms) a = after_queue-Sound x m status ms fit h a
    queued (err rc ms) a = absurd a
    queued crash a = a

    go : (b : Bool) → m.out_strays ≡ b → Safe b (publish_queued x m)
    go true e =
        subst (λ o. Safe true (after_queue x m o)) (sym (message_queue-stray x m.msgs e)) refl
    go false e =
        After-Safe false (publish_queued x m)
          (queued (message_queue x outgoing m.msgs) (message_queue-outgoing x m.msgs e))

pub publish_checked-Safe :
    (topic : Text) (payload : List ℕ) (qos : ℕ) (retain : Bool) (m : Mosquitto)
    → Fits topic payload
    → Sound m
    → Safe m.out_strays (publish_checked topic payload qos retain m)
unfolding publish_checked
publish_checked-Safe topic payload qos retain m fit h =
    SafeBeside-bind m.out_strays (on_conn mid_generate m) _
      (conn-SafeBeside mid_generate m h (mid_generate-Receivable m.conn h.3))
      (λ mid n k e. subst (λ s. Safe s (sending mid (qos == 0) n)) e (go mid (qos == 0) n k))
  where
    sending : ℕ → Bool → H Mosquitto (Unit {0})
    sending mid b = if b then on_conn (send_publish mid topic payload qos retain false) else (do
      must_have
      copies payload
      λ m. publish_queued (new_message m.now mid topic payload qos retain) m)

    go : (mid : ℕ) (b : Bool) (n : Mosquitto) → Sound n → Safe n.out_strays (sending mid b n)
    go mid true n k = After-Safe n.out_strays _ (
        conn-Sound (send_publish mid topic payload qos retain false) n k
          (send_publish-Receivable mid topic payload qos retain false n.conn fit k.3))
    go mid false n k =
        SafeBeside-bind n.out_strays (must_have n) _ (must_have-SafeBeside n k) λ _ n1 k1 e1.
          SafeBeside-bind n.out_strays (copies payload n1) _
            (subst (λ s. SafeBeside s (copies payload n1)) e1 (copies-SafeBeside payload n1 k1))
            λ _ n2 k2 e2.
              subst
                (λ s. Safe s (publish_queued (new_message n2.now mid topic payload qos retain) n2))
                e2 (publish_queued-Safe (new_message n2.now mid topic payload qos retain) n2 fit k2)
