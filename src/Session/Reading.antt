-- ===== src/Session/Reading.antt =====
-- The reading and the writing calls of the loop keep the client sound.
use moscapsule.Prelude.{
  ℕ, zero, suc, ◌≡◌, refl, sym, subst, ap, Bool, true, false, inl, inr, none, All, ltb, ◌||◌, ◌⊎◌,
  if◌then◌else◌, arith,
}
use moscapsule.Types.{Rc, success, fails}
use moscapsule.Outcome.{
  Outcome, H, ok, err, crash, bind, After, Holds, caught, return_code, return_code-After,
}
use moscapsule.Packet.Reads.{InBlock}
use moscapsule.Conn.{Conn, socket_close}
use moscapsule.Net.{Progress, go_on, wait, read_packet, read_open, is_again, packet_write}
use moscapsule.Net.Filling.{Complete, read_packet-Holds}
use moscapsule.Net.Calm.{Receivable, notify-Receivable, packet_write-Receivable}
use moscapsule.Net.Failing.{Fails, read_packet-Fails}
use moscapsule.Client.{Mosquitto, with_conn, on_conn, lifted}
use moscapsule.Messages.Safety.{FitsMessage}
use moscapsule.Handle.{packet_handle, packet_read, rewound, packet_done, handle_whole, handle_after}
use moscapsule.Handle.Reading.{packet_cleanup-Receiving}
use moscapsule.Handle.Keeping.{Settled}
use moscapsule.Handle.Received.{packet_handle-Settled}
use moscapsule.Loop.{
  drop_connection, is_disconnecting, loop_rc_handle, loop_packets, loop_read, loop_write,
  packets_to_do,
}
use moscapsule.Session.Sound.{Waiting, GoodOptions, Sound, conn-Sound, if-After}

-- What stays of `Sound` while the connection is in trouble.
abbrev Held : Mosquitto → Type 0
Held m = All Waiting m.in_messages × All FitsMessage m.out_messages × GoodOptions m.options

-- After a step of the loop: a client whose connection is in trouble has an error to show.
abbrev Stepped : Outcome Mosquitto (Unit {0}) → Type 0
Stepped (ok a m) = Sound m
Stepped (err rc m) = Held m × ((fails rc ≡ true) ⊎ Receivable m.conn)
Stepped crash = ⊥

After-Stepped : (o : Outcome Mosquitto (Unit {0})) → After Sound o → Stepped o
After-Stepped (ok a m) h = h
After-Stepped (err rc m) h = ((h.0, h.1, h.2), inr h.3)
After-Stepped crash h = h

-- A packet that is there as a whole is handled, and the next one may come.
handle_whole-Sound :
    (m : Mosquitto) → Held m → InBlock (rewound m.conn).in_packet → After Sound (handle_whole m)
handle_whole-Sound m h b =
    go (packet_handle n)
      (packet_handle-Settled Waiting m.options (λ x q s. (q, s)) n b (h.0, h.1, refl))
  where
    n : Mosquitto
    n = with_conn (rewound m.conn) m

    done :
        (rc : Rc) (m' : Mosquitto)
        → Settled Waiting m.options m'
        → After Sound (return_code rc tt (packet_done m'))
    done rc m' k =
        return_code-After Sound rc tt (packet_done m')
          (k.0, k.1, subst GoodOptions (sym k.2) h.2, inr (packet_cleanup-Receiving m'.in_packet))

    go :
        (o : Outcome Mosquitto (Unit {0}))
        → After (Settled Waiting m.options) o
        → After Sound (bind (caught o) (λ rc m'. return_code rc tt (packet_done m')))
    go (ok a m') k = done success m' k
    go (err rc m') k = done rc m' k
    go crash k = k

read_packet-shut : (c : Conn) → c.sock ≡ none → read_packet c ≡ err Rc.no_conn c
unfolding read_packet
read_packet-shut c e = ap (λ s. read_open s c) e

packet_read-Stepped : (m : Mosquitto) → Sound m → Stepped (packet_read m)
unfolding packet_read
packet_read-Stepped m h = elim h.3 [
  | inl shut ↦
      subst (λ o. Stepped (bind (lifted m o) handle_after)) (sym (read_packet-shut m.conn shut))
        ((h.0, h.1, h.2), inl refl)
  | inr r ↦ go (read_packet m.conn) (read_packet-Holds m.conn r) (read_packet-Fails m.conn)
]
  where
    go :
        (o : Outcome Conn Progress)
        → Holds Complete o
        → Fails o
        → Stepped (bind (lifted m o) handle_after)
    go (ok wait c) k f = (h.0, h.1, h.2, inr k)
    go (ok go_on c) k f = After-Stepped (handle_whole (with_conn c m)) (
        handle_whole-Sound (with_conn c m) (h.0, h.1, h.2)
          (record { whole = k.0.filling.whole; within = omega arith; small = k.0.filling.bounded }))
    go (err rc c) k f = ((h.0, h.1, h.2), inl f)
    go crash k f = k

-- A connection that is dropped has no socket.
pub drop_connection-Receivable : (rc : Rc) (c : Conn) → Receivable (drop_connection rc c)
unfolding socket_close
drop_connection-Receivable rc c = notify-Receivable c.on_disconnect _ _ (inl refl)

loop_rc_handle-Sound :
    (rc : Rc) (m : Mosquitto)
    → Held m
    → (fails rc ≡ true) ⊎ Receivable m.conn
    → After Sound (loop_rc_handle rc m)
unfolding loop_rc_handle
loop_rc_handle-Sound rc m h k =
    if-After Sound (fails rc) _ _
      (λ t.
        return_code-After Sound (if is_disconnecting m.conn.state then success else rc) tt
          (with_conn (drop_connection rc m.conn) m)
          (h.0, h.1, h.2, drop_connection-Receivable rc m.conn))
      (λ t. elim k [ inl u ↦ absurd (ground (arith, t, u)) | inr r ↦ (h.0, h.1, h.2, r) ])

loop_packets-Sound :
    (step : H Mosquitto (Unit {0})) (rounds : ℕ) (m : Mosquitto)
    → ((n : Mosquitto) → Sound n → Stepped (step n))
    → Sound m
    → After Sound (loop_packets step rounds m)
unfolding loop_packets
loop_packets-Sound step zero m keeps h = h
loop_packets-Sound step (suc rounds) m keeps h =
    go (step m) (keeps m h) (λ n k. loop_packets-Sound step rounds n keeps k)
  where
    after :
        (rc : Rc) (n : Mosquitto) (b : Bool)
        → (fails rc || is_again n.err_no) ≡ b
        → Held n
        → (fails rc ≡ true) ⊎ Receivable n.conn
        → ((n : Mosquitto) → Sound n → After Sound (loop_packets step rounds n))
        → After Sound (elim b [ true ↦ loop_rc_handle rc n | false ↦ loop_packets step rounds n ])
    after rc n true e k u next = loop_rc_handle-Sound rc n k u
    after rc n false e k (inl u) next = absurd (ground (arith, e, u))
    after rc n false e k (inr r) next = next n (k.0, k.1, k.2, r)

    go :
        (o : Outcome Mosquitto (Unit {0}))
        → Stepped o
        → ((n : Mosquitto) → Sound n → After Sound (loop_packets step rounds n))
        → After Sound (
            bind (caught o) (λ rc n. elim (fails rc || is_again n.err_no) [
              | true ↦ loop_rc_handle rc n
              | false ↦ loop_packets step rounds n
            ]))
    go (ok a n) k next = after success n (is_again n.err_no) refl (k.0, k.1, k.2) (inr k.3) next
    go (err rc n) k next = after rc n (fails rc || is_again n.err_no) refl k.0 k.1 next
    go crash k next = absurd k

pub loop_read-Sound :
    (max_packets : ℕ) (m : Mosquitto) → Sound m → After Sound (loop_read max_packets m)
unfolding loop_read
loop_read-Sound max_packets m h =
    if-After Sound (ltb max_packets 1) _ _ (λ _. h)
      (λ _.
        loop_packets-Sound packet_read (packets_to_do m.out_queue_len m.in_queue_len) m
          packet_read-Stepped h)

pub loop_write-Sound :
    (max_packets : ℕ) (m : Mosquitto) → Sound m → After Sound (loop_write max_packets m)
unfolding loop_write
loop_write-Sound max_packets m h =
    if-After Sound (ltb max_packets 1) _ _ (λ _. h)
      (λ _.
        loop_packets-Sound (on_conn packet_write) (packets_to_do m.out_queue_len m.in_queue_len) m
          (λ n k.
            After-Stepped (on_conn packet_write n)
              (conn-Sound packet_write n k (packet_write-Receivable n.conn k.3)))
          h)
