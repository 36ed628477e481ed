-- ===== src/Handle/Inbox.antt =====
-- The receiving side of the protocol as an inbox: messages that are kept until their PUBREL, and
-- messages that were handed over, in their order.
use moscapsule.Prelude.{
  ℕ, ◌≡◌, refl, sym, subst, ap, ◌∙◌, Bool, true, false, Bool-cases, inl, inr, Option, none, some,
  List, [], ◌∷◌, ◌++◌, ◌==◌, if◌then◌else◌,
}
use moscapsule.Types.{Rc, success, Message, MessageAll}
use moscapsule.Outcome.{Outcome, H, ok, err, crash, bind, attempt, After, return_code-After, caught}
use moscapsule.Conn.{Conn, Event, messages, notify}
use moscapsule.Net.Calm.{Quiet, Quiet-refl, delivered}
use moscapsule.Send.{send_command_with_mid, send_puback, send_pubrec, send_pubcomp}
use moscapsule.Send.Calm.{send_command_with_mid-Quiet}
use moscapsule.Client.{Mosquitto, with_conn, with_msgs, on_conn, lifted}
use moscapsule.Messages.{unlink, unlinked_in, message_remove, message_queue}
use moscapsule.Messages.Reset.{contents}
use moscapsule.Handle.{Publish, accept_publish, release, received_message}

-- The messages that are kept, and those handed over.
abbrev pub Inbox : Type 0
Inbox = List Message × List Message

-- The first kept message with the identifier, and the others.
unfoldable pub take_kept : ℕ → List Message → Option (Message × List Message)
take_kept mid [] = none
take_kept mid (x ∷ xs) =
    if x.mid == mid
    then some (x, xs)
    else elim (take_kept mid xs) [ none ↦ none | some (y, ys) ↦ some (y, x ∷ ys) ]

abbrev pub inbox_receive : Message → Inbox → Inbox
inbox_receive x (kept, handed) =
    if x.qos == 0
    then (kept, handed ++ x ∷ [])
    else if x.qos == 1
    then (kept, handed ++ x ∷ [])
    else if x.qos == 2
    then (kept ++ x ∷ [], handed)
    else (kept, handed)

abbrev pub handed_over : List Message → Option (Message × List Message) → List Message → Inbox
handed_over kept none handed = (kept, handed)
handed_over kept (some (x, rest)) handed = (rest, handed ++ x ∷ [])

abbrev pub inbox_release : ℕ → Inbox → Inbox
inbox_release mid (kept, handed) = handed_over kept (take_kept mid kept) handed

-- What a broker sends: a PUBLISH that is parsed, or a PUBREL for an identifier.
pub data Arrival : Type 0 where
  published : Publish → Arrival
  released : ℕ → Arrival

abbrev pub inbox_step : Arrival → Inbox → Inbox
inbox_step (published p) = inbox_receive p.msg
inbox_step (released mid) = inbox_release mid

abbrev pub inbox_after : List Arrival → Inbox → Inbox
inbox_after [] inbox = inbox
inbox_after (a ∷ rest) inbox = inbox_after rest (inbox_step a inbox)

abbrev pub arrive : Arrival → H Mosquitto (Unit {0})
arrive (published p) m = accept_publish p m
arrive (released mid) m = release mid m

-- The handlers one after the other, whatever codes they return.
abbrev pub arrive_all : List Arrival → H Mosquitto (Unit {0})
arrive_all [] m = ok tt m
arrive_all (a ∷ rest) m = bind (attempt (arrive a) m) (λ _ n. arrive_all rest n)

-- The client shows the inbox, and `on_message` is set.
abbrev pub Shows : Inbox → Mosquitto → Type 0
Shows inbox m =
    (contents m.in_messages ≡ inbox.0) × (delivered m.events ≡ inbox.1) × (m.on_message ≡ true)

conn-Shows :
    (inbox : Inbox) (f : H Conn (Unit {0})) (m : Mosquitto)
    → Shows inbox m
    → After (Quiet m.conn) (f m.conn)
    → After (Shows inbox) (on_conn f m)
conn-Shows inbox f m h k = go (f m.conn) k
  where
    go : (o : Outcome Conn (Unit {0})) → After (Quiet m.conn) o → After (Shows inbox) (lifted m o)
    go (ok a c) q = (h.0, q.2 ∙ h.1, ap (λ x. x.on_message) q.3 ∙ h.2)
    go (err rc c) q = (h.0, q.2 ∙ h.1, ap (λ x. x.on_message) q.3 ∙ h.2)
    go crash q = q

sent-Shows :
    (inbox : Inbox) (command mid : ℕ) (m : Mosquitto)
    → Shows inbox m
    → After (Shows inbox) (on_conn (send_command_with_mid command mid false) m)
sent-Shows inbox command mid m h =
    conn-Shows inbox (send_command_with_mid command mid false) m h
      (send_command_with_mid-Quiet m.conn command mid false m.conn (Quiet-refl m.conn))

delivered-message :
    (es : List Event) (x : Message) → delivered (es ++ messages x ∷ []) ≡ delivered es ++ x ∷ []
unfolding delivered
delivered-message [] x = refl
delivered-message (messages y ∷ es) x = ap (◌∷◌ y) (delivered-message es x)
delivered-message (Event.connects n ∷ es) x = delivered-message es x
delivered-message (Event.disconnects rc ∷ es) x = delivered-message es x
delivered-message (Event.publishes n ∷ es) x = delivered-message es x
delivered-message (Event.subscribes n qs ∷ es) x = delivered-message es x
delivered-message (Event.unsubscribes n ∷ es) x = delivered-message es x

abbrev told : Message → Bool → Mosquitto → Mosquitto
told x set m = with_conn (notify set (messages x) m.conn) m

told-Shows :
    (kept handed : List Message) (x : Message) (m : Mosquitto)
    → Shows (kept, handed) m
    → Shows (kept, handed ++ x ∷ []) (told x m.on_message m)
told-Shows kept handed x m h =
    subst (λ b. Shows (kept, handed ++ x ∷ []) (told x b m)) (sym h.2)
      (h.0, delivered-message m.events x ∙ ap (λ es. es ++ x ∷ []) h.1, h.2)

contents-append :
    (xs : List MessageAll) (x : MessageAll) → contents (xs ++ x ∷ []) ≡ contents xs ++ x.msg ∷ []
contents-append [] x = refl
contents-append (y ∷ xs) x = ap (◌∷◌ y.msg) (contents-append xs x)

-- A call whose code is kept for later, and what follows it.
attempt-bind-Shows :
    (P : Mosquitto → Type 0) (inbox : Inbox) (f : H Mosquitto (Unit {0})) (m : Mosquitto)
    (k : Rc → Mosquitto → Outcome Mosquitto (Unit {0}))
    → After (Shows inbox) (f m)
    → ((rc : Rc) (n : Mosquitto) → Shows inbox n → After P (k rc n))
    → After P (bind (attempt f m) k)
attempt-bind-Shows P inbox f m k h g = go (f m) h
  where
    go : (o : Outcome Mosquitto (Unit {0})) → After (Shows inbox) o → After P (bind (caught o) k)
    go (ok a n) q = g success n q
    go (err rc n) q = g rc n q
    go crash q = q

accept_publish-Shows :
    (inbox : Inbox) (p : Publish) (m : Mosquitto)
    → Shows inbox m
    → After (Shows (inbox_receive p.msg inbox)) (accept_publish p m)
unfolding accept_publish send_puback send_pubrec message_queue
accept_publish-Shows (kept, handed) p m h = elim (Bool-cases (p.msg.qos == 0)) [
  | inl t ↦ rw t (told-Shows kept handed p.msg m h)
  | inr t ↦ elim (Bool-cases (p.msg.qos == 1)) [
    | inl u ↦
        rw (t, u)
          (attempt-bind-Shows _ (kept, handed) (on_conn (send_puback p.msg.mid)) m _
            (sent-Shows (kept, handed) 0x40 p.msg.mid m h)
            (λ rc n k. return_code-After _ rc tt _ (told-Shows kept handed p.msg n k)))
    | inr u ↦ elim (Bool-cases (p.msg.qos == 2)) [
      | inl v ↦
          rw (t, u, v)
            (attempt-bind-Shows _ (kept, handed) (on_conn (send_pubrec p.msg.mid)) m _
              (sent-Shows (kept, handed) 0x50 p.msg.mid m h)
              (λ rc n k. return_code-After _ rc tt _ (
                contents-append n.in_messages (received_message m.now p)
                    ∙ ap (λ xs. xs ++ p.msg ∷ []) k.0,
                k.1,
                k.2,
              )))
      | inr v ↦ rw (t, u, v) h
    ]
  ]
]

abbrev kept_of : Option (MessageAll × List MessageAll) → Option (Message × List Message)
kept_of none = none
kept_of (some (x, rest)) = some (x.msg, contents rest)

take_kept-contents :
    (mid : ℕ) (xs : List MessageAll) → take_kept mid (contents xs) ≡ kept_of (unlink mid xs)
unfolding take_kept unlink
take_kept-contents mid [] = refl
take_kept-contents mid (x ∷ xs) = go (unlink mid xs) refl (take_kept-contents mid xs)
  where
    go :
        (o : Option (MessageAll × List MessageAll))
        → unlink mid xs ≡ o
        → take_kept mid (contents xs) ≡ kept_of o
        → take_kept mid (contents (x ∷ xs)) ≡ kept_of (unlink mid (x ∷ xs))
    go none e k = elim (Bool-cases (x.msg.mid == mid)) [
      | inl t ↦ rw (t, unlink, take_kept) refl
      | inr t ↦ rw (t, e, k, unlink, take_kept) refl
    ]
    go (some (y, ys)) e k = elim (Bool-cases (x.msg.mid == mid)) [
      | inl t ↦ rw (t, unlink, take_kept) refl
      | inr t ↦ rw (t, e, k, unlink, take_kept) refl
    ]

-- The result of the removal is handed over if there is one, and PUBCOMP is sent.
release-Shows :
    (inbox : Inbox) (mid : ℕ) (m : Mosquitto)
    → Shows inbox m
    → After (Shows (inbox_release mid inbox)) (release mid m)
unfolding message_remove send_pubcomp
release-Shows (kept, handed) mid m h = go (unlink mid m.in_messages) refl
  where
    found : take_kept mid kept ≡ kept_of (unlink mid m.in_messages)
    found = ap (take_kept mid) (sym h.0) ∙ take_kept-contents mid m.in_messages

    go :
        (o : Option (MessageAll × List MessageAll))
        → unlink mid m.in_messages ≡ o
        → After (Shows (inbox_release mid (kept, handed))) (release mid m)
    go none e =
        subst (λ o. After (Shows (handed_over kept o handed)) (release mid m))
          (sym (found ∙ ap kept_of e))
          (rw (e, message_remove) (sent-Shows (kept, handed) 0x70 mid m h))
    go (some (x, rest)) e =
        let n : Mosquitto = with_msgs (unlinked_in rest m.msgs) m in
        subst (λ o. After (Shows (handed_over kept o handed)) (release mid m))
          (sym (found ∙ ap kept_of e))
          (rw (e, message_remove)
            (sent-Shows (contents rest, handed ++ x.msg ∷ []) 0x70 mid (told x.msg n.on_message n)
              (told-Shows (contents rest) handed x.msg n (refl, h.1, h.2))))

arrive-Shows :
    (a : Arrival) (inbox : Inbox) (m : Mosquitto)
    → Shows inbox m
    → After (Shows (inbox_step a inbox)) (arrive a m)
arrive-Shows (published p) inbox m h = accept_publish-Shows inbox p m h
arrive-Shows (released mid) inbox m h = release-Shows inbox mid m h

-- From a client that shows an inbox and has `on_message` set, the handlers of PUBLISH and PUBREL, one
-- after the other, return, whatever the connection does, and leave the client showing the inbox of the
-- specification: QoS 0 and 1 are handed over at once, QoS 2 at the PUBREL of its identifier, in order.
pub arrive_all-Shows :
    (arrivals : List Arrival) (inbox : Inbox) (m : Mosquitto)
    → Shows inbox m
    → After (Shows (inbox_after arrivals inbox)) (arrive_all arrivals m)
arrive_all-Shows [] inbox m h = h
arrive_all-Shows (a ∷ rest) inbox m h =
    attempt-bind-Shows (Shows (inbox_after rest (inbox_step a inbox))) (inbox_step a inbox)
      (arrive a) m (λ _ n. arrive_all rest n) (arrive-Shows a inbox m h)
      (λ _ n k. arrive_all-Shows rest (inbox_step a inbox) n k)
