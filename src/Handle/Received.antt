-- ===== src/Handle/Received.antt =====
-- The messages that wait for PUBREL are of QoS 2, whatever packet comes.
use moscapsule.Prelude.{
  refl, ◌≡◌, Bool-cases, inl, inr, ℕ, ◌≡◌, refl, ◌/◌, ◌%◌, Bool-cases, inl, inr, Option, none, some,
  All, ltb, ◌==◌, ◌!=◌, arith,
}
use moscapsule.Types.{
  wait_for_pubrel, Rc, success, ClientState, new, connected, disconnecting, connect_async,
  connect_pending, incoming, outgoing, Protocol, mqtt31, mqtt311, MessageAll, wait_for_pubcomp,
}
use moscapsule.Outcome.{After-weaken, After, attempt, optional}
use moscapsule.Packet.{read_uint16, read_byte}
use moscapsule.Packet.Reads.{InBlock}
use moscapsule.Conn.{must_malloc}
use moscapsule.Send.{send_pingresp, send_puback, send_pubrec, send_pubrel, send_pubcomp}
use moscapsule.Client.{Options, Mosquitto, on_conn}
use moscapsule.Messages.{message_remove, message_delete, message_out_update}
use moscapsule.Messages.Reset.{IsExactlyOnce}
use moscapsule.Messages.Safety.{FitsMessage}
use moscapsule.Handle.{
  Publish, reading, on_in, parse_publish, accept_publish, handle_publish, handle_pingreq,
  handle_pingresp, publish_done, handle_pubackcomp, handle_pubrec, deliver, check_pubrel_flags,
  flags_for, handle_pubrel, read_all_granted, handle_suback, handle_unsuback, connack_code,
  connect_accepted, handle_connack, queue_incoming, received_message, packet_handle,
}
use moscapsule.Handle.Safety.{packet_handle-Ends}
use moscapsule.Handle.Keeping.{
  Received, Settled, Keeps, Keeps-After, Keeps-bind, conn-Keeps, attempt-Keeps, return_code-Keeps,
  if-Keeps, message_delete-Keeps, remove_incoming-Keeps, message_out_update-Keeps,
  queue_incoming-Keeps,
}

-- What is known of a message of QoS 2 that waits for its PUBREL.
abbrev pub Admits : (MessageAll → Type 0) → Type 0
Admits E = (x : MessageAll) → IsExactlyOnce x → x.state ≡ wait_for_pubrel → E x

accept_publish-Keeps :
    (E : MessageAll → Type 0) (opts : Options) (made : Admits E) (p : Publish) (m : Mosquitto)
    → Settled E opts m
    → Keeps E opts (accept_publish p m)
unfolding accept_publish
accept_publish-Keeps E opts made p m h =
    if-Keeps E opts (p.msg.qos == 0) _ _ m (λ _. h)
      (if-Keeps E opts (p.msg.qos == 1) _ _ m
        (λ _.
          Keeps-bind E opts (attempt (on_conn (send_puback p.msg.mid)) m) _
            (attempt-Keeps E opts (on_conn (send_puback p.msg.mid)) m
              (conn-Keeps E opts (send_puback p.msg.mid) m h))
            (λ rc m' r. return_code-Keeps E opts rc _ r))
        (if-Keeps E opts (p.msg.qos == 2) _ _ m
          (λ t.
            Keeps-bind E opts (attempt (on_conn (send_pubrec p.msg.mid)) m) _
              (attempt-Keeps E opts (on_conn (send_pubrec p.msg.mid)) m
                (conn-Keeps E opts (send_pubrec p.msg.mid) m h))
              (λ rc m' r.
                Keeps-bind E opts (queue_incoming (received_message m.now p) m') _
                  (queue_incoming-Keeps E opts (received_message m.now p) m'
                    (made (received_message m.now p) (ground (arith, t)) refl) r)
                  (λ _ m'' r'. return_code-Keeps E opts rc m'' r')))
          h))

check_pubrel_flags-Keeps :
    (E : MessageAll → Type 0) (opts : Options) (m : Mosquitto)
    → Settled E opts m
    → Keeps E opts (check_pubrel_flags m)
check_pubrel_flags-Keeps E opts m h = go m.options.protocol
  where
    go : (v : Protocol) → Keeps E opts (flags_for v m)
    go mqtt31 = h
    go mqtt311 = elim (Bool-cases (m.in_packet.command % 16 != 2)) [
      | inl t ↦ rw t h
      | inr t ↦ rw t h
    ]

publish_done-Keeps :
    (E : MessageAll → Type 0) (opts : Options) (mid : ℕ) (rc : Rc) (m : Mosquitto)
    → Settled E opts m
    → Keeps E opts (publish_done mid rc m)
publish_done-Keeps E opts mid success m h = h
publish_done-Keeps E opts mid _ m h = h

deliver-Keeps :
    (E : MessageAll → Type 0) (opts : Options) (found : Option MessageAll) (m : Mosquitto)
    → Settled E opts m
    → Keeps E opts (deliver found m)
deliver-Keeps E opts none m h = h
deliver-Keeps E opts (some x) m h = h

connack_code-Keeps :
    (E : MessageAll → Type 0) (opts : Options) (result : ℕ) (m : Mosquitto)
    → Settled E opts m
    → Keeps E opts (connack_code result m)
connack_code-Keeps E opts result m h =
    if-Keeps E opts (result == 0) _ _ m (λ _. accepted m.conn.state refl)
      (if-Keeps E opts (ltb result 6) _ _ m (λ _. h) h)
  where
    accepted : (s : ClientState) → m.conn.state ≡ s → Settled E opts (connect_accepted m)
    accepted disconnecting e = rw e h
    accepted new e = rw e h
    accepted connected e = rw e h
    accepted connect_async e = rw e h
    accepted connect_pending e = rw e h

module _ (E : MessageAll → Type 0) (opts : Options) (made : Admits E) (m : Mosquitto)
    (h : Settled E opts m) where
  handle_pubackcomp-Keeps : Keeps E opts (handle_pubackcomp m)
  unfolding handle_pubackcomp
  handle_pubackcomp-Keeps =
      Keeps-bind E opts (reading read_uint16 m) _ (conn-Keeps E opts (on_in read_uint16) m h)
        λ mid m1 r1.
          Keeps-bind E opts (attempt (message_delete mid outgoing) m1) _
            (attempt-Keeps E opts (message_delete mid outgoing) m1
              (message_delete-Keeps E opts mid m1 r1))
            (λ rc m2 r2. publish_done-Keeps E opts mid rc m2 r2)

  handle_publish-Keeps : Keeps E opts (handle_publish m)
  unfolding handle_publish
  handle_publish-Keeps =
      Keeps-bind E opts (on_conn parse_publish m) _ (conn-Keeps E opts parse_publish m h)
        (λ p m1 r1. accept_publish-Keeps E opts made p m1 r1)

  handle_pubrec-Keeps : Keeps E opts (handle_pubrec m)
  unfolding handle_pubrec
  handle_pubrec-Keeps =
      Keeps-bind E opts (reading read_uint16 m) _ (conn-Keeps E opts (on_in read_uint16) m h)
        λ mid m1 r1.
          Keeps-bind E opts (message_out_update mid wait_for_pubcomp m1) _
            (message_out_update-Keeps E opts mid m1 r1)
            (λ _ m2 r2. conn-Keeps E opts (send_pubrel mid) m2 r2)

  handle_pubrel-Keeps : Keeps E opts (handle_pubrel m)
  unfolding handle_pubrel
  handle_pubrel-Keeps =
      Keeps-bind E opts (check_pubrel_flags m) _ (check_pubrel_flags-Keeps E opts m h) λ _ m1 r1.
        Keeps-bind E opts (reading read_uint16 m1) _ (conn-Keeps E opts (on_in read_uint16) m1 r1)
          λ mid m2 r2.
            Keeps-bind E opts (optional (message_remove mid incoming) m2) _
              (remove_incoming-Keeps E opts mid m2 r2)
              λ found m3 r3.
                Keeps-bind E opts (deliver found m3) _ (deliver-Keeps E opts found m3 r3)
                  (λ _ m4 r4. conn-Keeps E opts (send_pubcomp mid) m4 r4)

  handle_connack-Keeps : Keeps E opts (handle_connack m)
  unfolding handle_connack
  handle_connack-Keeps =
      Keeps-bind E opts (reading read_byte m) _ (conn-Keeps E opts (on_in read_byte) m h) λ _ m1 r1.
        Keeps-bind E opts (reading read_byte m1) _ (conn-Keeps E opts (on_in read_byte) m1 r1)
          λ result m2 r2. connack_code-Keeps E opts result _ r2

  handle_suback-Keeps : Keeps E opts (handle_suback m)
  unfolding handle_suback
  handle_suback-Keeps =
      Keeps-bind E opts (reading read_uint16 m) _ (conn-Keeps E opts (on_in read_uint16) m h)
        λ mid m1 r1.
          Keeps-bind E opts (on_conn must_malloc m1) _ (conn-Keeps E opts must_malloc m1 r1)
            λ _ m2 r2.
              Keeps-bind E opts (reading read_all_granted m2) _
                (conn-Keeps E opts (on_in read_all_granted) m2 r2) (λ granted m3 r3. r3)

  handle_unsuback-Keeps : Keeps E opts (handle_unsuback m)
  unfolding handle_unsuback
  handle_unsuback-Keeps =
      Keeps-bind E opts (reading read_uint16 m) _ (conn-Keeps E opts (on_in read_uint16) m h)
        (λ mid m1 r1. r1)

packet_handle-Keeps :
    (E : MessageAll → Type 0) (opts : Options) (made : Admits E) (m : Mosquitto)
    → Settled E opts m
    → Keeps E opts (packet_handle m)
unfolding packet_handle handle_pingreq handle_pingresp
packet_handle-Keeps E opts made m h =
    let kind = m.in_packet.command / 16 % 16 in
    if-Keeps E opts (kind == 12) _ _ m (λ _. conn-Keeps E opts send_pingresp m h)
      (if-Keeps E opts (kind == 13) _ _ m (λ _. h)
        (if-Keeps E opts (kind == 4) _ _ m (λ _. handle_pubackcomp-Keeps E opts made m h)
          (if-Keeps E opts (kind == 7) _ _ m (λ _. handle_pubackcomp-Keeps E opts made m h)
            (if-Keeps E opts (kind == 3) _ _ m (λ _. handle_publish-Keeps E opts made m h)
              (if-Keeps E opts (kind == 5) _ _ m (λ _. handle_pubrec-Keeps E opts made m h)
                (if-Keeps E opts (kind == 6) _ _ m (λ _. handle_pubrel-Keeps E opts made m h)
                  (if-Keeps E opts (kind == 2) _ _ m (λ _. handle_connack-Keeps E opts made m h)
                    (if-Keeps E opts (kind == 9) _ _ m (λ _. handle_suback-Keeps E opts made m h)
                      (if-Keeps E opts (kind == 11) _ _ m
                        (λ _. handle_unsuback-Keeps E opts made m h) h)))))))))

-- On a packet that is complete in its block: settled messages and options stay so.
pub packet_handle-Settled :
    (E : MessageAll → Type 0) (opts : Options) (made : Admits E) (m : Mosquitto)
    → InBlock m.in_packet
    → Settled E opts m
    → After (Settled E opts) (packet_handle m)
packet_handle-Settled E opts made m b h =
    Keeps-After E opts (packet_handle m) (packet_handle-Ends m b h.1)
      (packet_handle-Keeps E opts made m h)

-- On a packet that is complete in its block, with outgoing messages that fit a packet: where the
-- messages that wait for PUBREL are all of QoS 2, they are so after the packet, with every code.
pub packet_handle-Received :
    (m : Mosquitto)
    → InBlock m.in_packet
    → All FitsMessage m.out_messages
    → Received m
    → After Received (packet_handle m)
packet_handle-Received m b fit h =
    After-weaken (Settled IsExactlyOnce m.options) Received (packet_handle m)
      (packet_handle-Settled IsExactlyOnce m.options (λ x q _. q) m b (h, fit, refl)) (λ m' k. k.0)
