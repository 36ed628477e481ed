-- ===== src/Session/Resetting.antt =====
-- Opening the connection anew keeps the client sound.
use moscapsule.Prelude.{
  Bool, true, false, ℕ, ◌%◌, ◌≡◌, sym, ap, subst, ℤ, pos, increment, Bool-cases, inl, inr, Option,
  none, some, List, [], ◌∷◌, All, ltb, ◌==◌, ◌&&◌, is_some, if◌then◌else◌, arith,
}
use moscapsule.Types.{Text, MessageAll}
use moscapsule.Outcome.{Outcome, ok, err, crash, bind, After, After-bind}
use moscapsule.Dial.{Dial}
use moscapsule.Opening.{Attempt}
use moscapsule.Opening.Keeping.{open_socket-Receiving}
use moscapsule.Net.Receiving.{Receiving}
use moscapsule.Net.Calm.{Receivable}
use moscapsule.Client.{Mosquitto, with_msgs, with_conn, on_conn}
use moscapsule.Messages.{
  has_room, reset_tail, reset_in, reset_out, reset_outgoing, messages_reconnect_reset,
}
use moscapsule.Messages.Safety.{FitsMessage}
use moscapsule.Handle.Reading.{packet_cleanup-Receiving}
use moscapsule.Connect.{
  dial_answer, attempted, dialled, socket_connect, reset_conn, dial, reconnect,
}
use moscapsule.Session.Sound.{Waiting, GoodOptions, Sound, conn-Sound, if-After}
use moscapsule.Session.Opening.{send_connect-Sound}

-- A sound client whose packet is at hand, whether there is a socket or not.
abbrev pub Fresh : Mosquitto → Type 0
Fresh m =
    All Waiting m.in_messages
    × All FitsMessage m.out_messages
    × GoodOptions m.options
    × Receiving m.in_packet

reset_tail-Waiting : (xs : List MessageAll) → All Waiting xs → All Waiting (reset_tail xs)
unfolding reset_tail
reset_tail-Waiting [] h = tt
reset_tail-Waiting (x ∷ xs) h = elim (Bool-cases (x.msg.qos == 2)) [
  | inl t ↦ rw (t, reset_tail) (h.0, reset_tail-Waiting xs h.1)
  | inr t ↦ rw (t, reset_tail) (reset_tail-Waiting xs h.1)
]

abbrev AllKept : Option (List MessageAll × ℕ) → Type 0
AllKept none = ⊥
AllKept (some (xs, n)) = All Waiting xs

reset_in-Waiting : (xs : List MessageAll) → All Waiting xs → AllKept (reset_in xs)
unfolding reset_in
reset_in-Waiting [] h = tt
reset_in-Waiting (x ∷ []) h =
    let t : (x.msg.qos == 2) ≡ true = ground (arith, h.0.0) in rw (t, reset_in) h
reset_in-Waiting (x ∷ y ∷ xs) h =
    let t : (x.msg.qos == 2) ≡ true = ground (arith, h.0.0) in
    rw (t, reset_in) (h.0, reset_tail-Waiting (y ∷ xs) h.1)

reset_out-Fits :
    (max : ℕ) (n : ℤ) (xs : List MessageAll)
    → All FitsMessage xs
    → All FitsMessage (reset_out max n xs).0
unfolding reset_out
reset_out-Fits max n [] h = tt
reset_out-Fits max n (x ∷ xs) h =
    (h.0, reset_out-Fits max (if has_room max n && ltb 0 x.msg.qos then increment n else n) xs h.1)

pub messages_reconnect_reset-Fresh :
    (m : Mosquitto) → Fresh m → After Fresh (messages_reconnect_reset m)
unfolding messages_reconnect_reset
messages_reconnect_reset-Fresh m h =
    go (reset_in m.in_messages) (reset_in-Waiting m.in_messages h.0)
  where
    go :
        (o : Option (List MessageAll × ℕ))
        → AllKept o
        → After Fresh (elim o [
          | none ↦ crash
          | some (kept, rounds) ↦ ok tt (
              with_msgs
                (reset_outgoing (record (m.msgs) { in_messages = kept; in_queue_len = pos rounds }))
                m)
        ])
    go none k = k
    go (some (kept, rounds)) k =
        (k, reset_out-Fits m.max_inflight_messages (pos 0) m.out_messages h.1, h.2, h.3)

-- A bind address that is at hand is handed on.
pub dial-kept :
    (blocking : Bool) (m : Mosquitto)
    → m.options.bind_freed ≡ false
    → dial blocking m
      ≡ on_conn (socket_connect m.options.tls m.options.bind_address blocking m.host m.port) m
dial-kept blocking m e =
    ap
      (λ b.
        if b
        then crash
        else on_conn (socket_connect m.options.tls m.options.bind_address blocking m.host m.port) m)
      e

dial-Sound : (blocking : Bool) (m : Mosquitto) → Fresh m → After Sound (dial blocking m)
unfolding socket_connect
dial-Sound blocking m h = subst (After Sound) (sym (dial-kept blocking m h.2.kept)) (
    conn-Sound (socket_connect m.options.tls m.options.bind_address blocking m.host m.port) m
      (h.0, h.1, h.2, inr h.3) (go m.host))
  where
    outcome :
        (o : Outcome Attempt Bool)
        → After (λ a. Receiving a.conn.in_packet) o
        → After Receivable (attempted o)
    outcome (ok pending a) k = inr k
    outcome (err rc a) k = inr k
    outcome crash k = k

    answered :
        (l : List Dial)
        → After Receivable (dial_answer m.options.tls m.options.bind_address blocking l m.conn)
    answered [] = inr h.3
    answered (answers ∷ rest) = outcome _ (
        open_socket-Receiving m.options.tls m.options.bind_address blocking answers
          (record { conn = dialled rest m.conn; calls = [] }) h.3)

    go :
        (host : Option Text)
        → After Receivable
            (socket_connect m.options.tls m.options.bind_address blocking host m.port m.conn)
    go none = inr h.3
    go (some host) =
        if-After Receivable (m.port % 65536 == 0) _ _ (λ _. inr h.3) (λ _. answered m.conn.dials)

pub reconnect-Sound :
    (blocking : Bool) (m : Mosquitto) → Sound m → After Sound (reconnect blocking m)
unfolding reconnect
reconnect-Sound blocking m h =
    if-After Sound (is_some m.host) _ _
      (λ _.
        if-After Sound (m.port == 0) _ _ (λ _. h)
          (λ _.
            After-Fresh-bind (messages_reconnect_reset n) _
              (messages_reconnect_reset-Fresh n
                (h.0, h.1, h.2, packet_cleanup-Receiving m.in_packet))
              λ _ n1 h1.
                After-bind Sound (dial blocking n1) _ (dial-Sound blocking n1 h1)
                  (λ _ n2 h2. send_connect-Sound n2.keepalive n2.clean_session n2 h2)))
      (λ _. h)
  where
    n : Mosquitto
    n = with_conn (reset_conn m.conn) m

    After-Fresh-bind :
        {A : Type 0} (o : Outcome Mosquitto A) (k : A → Mosquitto → Outcome Mosquitto (Unit {0}))
        → After Fresh o
        → ((a : A) (n : Mosquitto) → Fresh n → After Sound (k a n))
        → After Sound (bind o k)
    After-Fresh-bind (ok a n) k h g = g a n h
    After-Fresh-bind (err rc n) k h g = (h.0, h.1, h.2, inr h.3)
    After-Fresh-bind crash k h g = h
