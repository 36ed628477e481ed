-- ===== src/Session/Encrypting.antt =====
-- With TLS configured, connecting leaves no connection without a TLS session.
use moscapsule.Prelude.{
  ℕ, ◌%◌, ◌≡◌, refl, sym, subst, ◌∙◌, ◌⊎◌, inl, inr, Bool, true, Option, none, some, List, [], ◌∷◌,
  ◌==◌, is_some, pos,
}
use moscapsule.Types.{Text, MessageAll}
use moscapsule.Outcome.{Outcome, ok, err, crash, After, After-then, Leaving, ◌>>◌}
use moscapsule.Dial.{Dial}
use moscapsule.Conn.{Conn}
use moscapsule.Opening.{Attempt, uses_tls}
use moscapsule.Opening.Encrypted.{open_socket-Encrypted}
use moscapsule.Net.Calm.{Quiet, Quiet-refl}
use moscapsule.Client.{Mosquitto, with_msgs, with_conn, lifted}
use moscapsule.Messages.{reset_in, reset_outgoing, messages_reconnect_reset}
use moscapsule.Handle.Reading.{packet_cleanup-Receiving}
use moscapsule.Connect.{
  connect_as, send_connect, dial_answer, attempted, dialled, socket_connect, reset_conn, dial,
  reconnect,
}
use moscapsule.Session.{IsNamed}
use moscapsule.Session.Sound.{Sound, GoodOptions, if-After}
use moscapsule.Session.Opening.{connect_call-Quiet}
use moscapsule.Session.Resetting.{dial-kept, Fresh, messages_reconnect_reset-Fresh}

-- There is no socket, or it has a TLS session.
abbrev pub NotPlain : Conn → Type 0
NotPlain c = (c.sock ≡ none) ⊎ (c.ssl ≡ true)

Quiet-NotPlain : (base c : Conn) → NotPlain base → Quiet base c → NotPlain c
Quiet-NotPlain base c h q = go q.1 h
  where
    go : ((c.sock ≡ base.sock) × (c.ssl ≡ base.ssl)) ⊎ (c.sock ≡ none) → NotPlain base → NotPlain c
    go (inr s) k = inl s
    go (inl s) (inl e) = inl (s.0 ∙ e)
    go (inl s) (inr e) = inr (s.1 ∙ e)

send_connect-NotPlain :
    (keepalive : ℕ) (clean_session : Bool) (m : Mosquitto)
    → GoodOptions m.options
    → NotPlain m.conn
    → After (λ n. NotPlain n.conn) (send_connect keepalive clean_session m)
unfolding send_connect
send_connect-NotPlain keepalive clean_session m g h = go m.options.id g.named
  where
    lift :
        (o : Outcome Conn (Unit {0}))
        → After (Quiet m.conn) o
        → After (λ n. NotPlain n.conn) (lifted m o)
    lift (ok a c) q = Quiet-NotPlain m.conn c h q
    lift (err rc c) q = Quiet-NotPlain m.conn c h q
    lift crash q = q

    go :
        (i : Option Text)
        → IsNamed i
        → After (λ n. NotPlain n.conn) (connect_as i keepalive clean_session m)
    go none n = absurd n
    go (some id) n = lift _ (
        connect_call-Quiet m.conn keepalive clean_session id m.options m.conn n g
          (Quiet-refl m.conn))

-- What is needed for the CONNECT.
abbrev Opened : Mosquitto → Type 0
Opened m = GoodOptions m.options × NotPlain m.conn

dial-Opened :
    (blocking : Bool) (m : Mosquitto)
    → GoodOptions m.options
    → uses_tls m.options.tls ≡ true
    → m.sock ≡ none
    → After Opened (dial blocking m)
unfolding socket_connect
dial-Opened blocking m g u e =
    subst (After Opened) (sym (dial-kept blocking m g.kept)) (lift _ (go m.host))
  where
    outcome :
        (o : Outcome Attempt Bool)
        → Leaving (λ _ a. a.conn.ssl ≡ true) (λ a. a.conn.sock ≡ none) o
        → After NotPlain (attempted o)
    outcome (ok pending a) k = inr k
    outcome (err rc a) k = inl k
    outcome crash k = k

    answered :
        (l : List Dial)
        → After NotPlain (dial_answer m.options.tls m.options.bind_address blocking l m.conn)
    answered [] = inl e
    answered (answers ∷ rest) = outcome _ (
        open_socket-Encrypted m.options.tls m.options.bind_address blocking answers
          (dialled rest m.conn) u e)

    go :
        (host : Option Text)
        → After NotPlain
            (socket_connect m.options.tls m.options.bind_address blocking host m.port m.conn)
    go none = inl e
    go (some host) =
        if-After NotPlain (m.port % 65536 == 0) _ _ (λ _. inl e) (λ _. answered m.conn.dials)

    lift : (o : Outcome Conn (Unit {0})) → After NotPlain o → After Opened (lifted m o)
    lift (ok a c) k = (g, k)
    lift (err rc c) k = (g, k)
    lift crash k = k

-- The reset changes the messages alone.
abbrev Same : Mosquitto → Mosquitto → Type 0
Same m n = (n.conn ≡ m.conn) × (n.options ≡ m.options)

messages_reconnect_reset-Same :
    (m : Mosquitto) → Fresh m → After (Same m) (messages_reconnect_reset m)
unfolding messages_reconnect_reset
messages_reconnect_reset-Same m h = go (reset_in m.in_messages) (messages_reconnect_reset-Fresh m h)
  where
    go :
        (r : Option (List MessageAll × ℕ))
        → After Fresh (elim r [
          | none ↦ crash
          | some (kept, rounds) ↦ ok tt (
              with_msgs
                (reset_outgoing (record (m.msgs) { in_messages = kept; in_queue_len = pos rounds }))
                m)
        ])
        → After (Same m) (elim r [
          | none ↦ crash
          | some (kept, rounds) ↦ ok tt (
              with_msgs
                (reset_outgoing (record (m.msgs) { in_messages = kept; in_queue_len = pos rounds }))
                m)
        ])
    go none k = k
    go (some (kept, rounds)) k = (refl, refl)

-- On a sound client without a socket, with the certificates of authorities or a pre-shared key
-- configured: `_mosquitto_reconnect` returns, and with every code there is no socket or it has a TLS
-- session.
pub reconnect-NotPlain :
    (blocking : Bool) (m : Mosquitto)
    → Sound m
    → uses_tls m.options.tls ≡ true
    → m.sock ≡ none
    → After (λ n. NotPlain n.conn) (reconnect blocking m)
unfolding reconnect
reconnect-NotPlain blocking m h u e =
    if-After (λ n. NotPlain n.conn) (is_some m.host) _ _
      (λ _. if-After (λ n. NotPlain n.conn) (m.port == 0) _ _ (λ _. inl e) (λ _. tried))
      (λ _. inl e)
  where
    n : Mosquitto
    n = with_conn (reset_conn m.conn) m

    unheld : (x : Mosquitto) → Same n x → x.sock ≡ none
    unheld x s = subst (λ c. c.sock ≡ none) (sym s.0) e

    tried :
        After
          (λ x. NotPlain x.conn)
          ((do
            messages_reconnect_reset
            dial blocking
            λ x. send_connect x.keepalive x.clean_session x)
            n)
    tried =
        After-then (Same n) (λ x. NotPlain x.conn) (messages_reconnect_reset n) _
          (messages_reconnect_reset-Same n (h.0, h.1, h.2, packet_cleanup-Receiving m.in_packet))
          (λ x s. inl (unheld x s))
          λ _ x s.
            After-then Opened (λ y. NotPlain y.conn) (dial blocking x) _
              (dial-Opened blocking x (subst GoodOptions (sym s.1) h.2)
                (subst (λ o. uses_tls o.tls ≡ true) (sym s.1) u) (unheld x s))
              (λ y k. k.1) (λ _ y k. send_connect-NotPlain y.keepalive y.clean_session y k.0 k.1)
