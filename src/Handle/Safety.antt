-- ===== src/Handle/Safety.antt =====
-- No packet that the server sends makes a handler read outside of the packet or trip an assertion.
use moscapsule.Prelude.{
  ℕ, zero, suc, ◌+◌, ◌≤◌, ◌<◌, ◌/◌, ◌%◌, ◌^◌, ◌≡◌, refl, sym, subst, Bool, true, false, Bool-cases,
  inl, inr, Option, none, some, List, [], ◌∷◌, ◌++◌, All, length, ltb, ◌==◌, ◌!=◌, if◌then◌else◌,
  arith,
}
use moscapsule.Types.{
  Rc, success, incoming, outgoing, Protocol, mqtt31, mqtt311, protocol, MessageAll,
  wait_for_pubcomp,
}
use moscapsule.Outcome.{
  Outcome, H, ok, err, crash, bind, Ends, Holds, Ends-bind, Ends-Holds, Holds-bind, Holds-weaken,
  attempt, attempt-Ends, if-Ends, return_code-Ends, optional, raise, pure,
}
use moscapsule.Packet.{Packet, require, copy_out, read_byte, read_uint16}
use moscapsule.Packet.Reads.{
  InBlock, require-Holds, copy_out-Holds, read_byte-Holds, read_bytes-Holds, read_uint16-Holds,
}
use moscapsule.Conn.{Conn, must_malloc}
use moscapsule.Send.{
  send_pingresp, send_puback, send_pubrec, send_pubrel, send_pubcomp, send_command_with_mid,
}
use moscapsule.Send.Wire.{must_malloc-Holds, send_command_with_mid-Ends, send_simple_command-Ends}
use moscapsule.Client.{Mosquitto, on_conn, lifted}
use moscapsule.Messages.{
  message_queue, message_delete, message_remove, message_out_update, update_state, unlink,
}
use moscapsule.Messages.Safety.{FitsMessage, lifted-Ends, message_delete-Ends}
use moscapsule.Handle.{
  into_conn, on_in, read_string, Publish, payload_length, read_rest, parse_publish, accept_publish,
  handle_publish, handle_pingreq, handle_pingresp, handle_pubackcomp, handle_pubrec, handle_pubrel,
  check_pubrel_flags, read_granted, read_all_granted, handle_suback, handle_unsuback,
  handle_connack, packet_handle, publish_done, deliver,
}

abbrev InConn : Conn → Type 0
InConn c = InBlock c.in_packet

into_conn-Holds :
    {A : Type 0} (P : A → Packet → Type 0) (c : Conn) (o : Outcome Packet A)
    → Holds P o
    → Holds (λ a c'. P a c'.in_packet) (into_conn c o)
into_conn-Holds P c (ok a p) h = h
into_conn-Holds P c (err rc p) h = tt
into_conn-Holds P c crash h = h

-- Reading does not touch the messages.
pub lifted-Holds :
    {A : Type 0} (P : A → Conn → Type 0) (m : Mosquitto) (o : Outcome Conn A)
    → Holds P o
    → Holds (λ a m'. P a m'.conn × (m'.out_messages ≡ m.out_messages)) (lifted m o)
lifted-Holds P m (ok a c) h = (h, refl)
lifted-Holds P m (err rc c) h = tt
lifted-Holds P m crash h = h

must_malloc-InConn : (c : Conn) → InConn c → Holds (λ _ c'. InConn c') (must_malloc c)
must_malloc-InConn c b =
    Holds-weaken _ _ (must_malloc c) (must_malloc-Holds c) (λ _ c' e. subst InBlock (sym e) b)

read_string-InConn : (c : Conn) → InConn c → Holds (λ _ c'. InConn c') (read_string c)
unfolding read_string
read_string-InConn c b =
    Holds-bind (λ w c'. InConn c' × (w < 2 ^ 16)) _ (on_in read_uint16 c) _
      (into_conn-Holds (λ w p. InBlock p × (w < 2 ^ 16)) c _ (read_uint16-Holds c.in_packet b))
      λ len c1 h1.
        Holds-bind
          (λ _ c'. InConn c' × (c'.in_packet.position + len ≤ c'.in_packet.remaining_length)) _
          (on_in (require len) c1) _
          (Holds-weaken _ _ (on_in (require len) c1)
            (into_conn-Holds
              (λ _ p.
                (p ≡ c1.in_packet) × (c1.in_packet.position + len ≤ c1.in_packet.remaining_length))
              c1 _ (require-Holds len c1.in_packet h1.0 (omega (arith, h1.1))))
            (λ _ c' e. rw e.0 (h1.0, e.1)))
          λ _ c2 h2.
            Holds-bind
              (λ _ c'. InConn c' × (c'.in_packet.position + len ≤ c'.in_packet.remaining_length)) _
              (must_malloc c2) _
              (Holds-weaken _ _ (must_malloc c2) (must_malloc-Holds c2) (λ _ c' e. rw e h2))
              λ _ c3 h3.
                Holds-bind (λ _ c'. InConn c') _ (on_in (copy_out len) c3) _
                  (into_conn-Holds (λ _ p. InBlock p) c3 _
                    (copy_out-Holds len c3.in_packet h3.0 h3.1))
                  λ bytes c4 h4. h4

payload_length-small : (p : Packet) → InBlock p → payload_length p < 2 ^ 28
payload_length-small p b = ground (arith, b)

read_rest-InConn : (c : Conn) → InConn c → Holds (λ _ c'. InConn c') (read_rest c)
read_rest-InConn c b = elim (Bool-cases (ltb 0 (payload_length c.in_packet))) [
  | inl t ↦ rw t (
      Holds-bind (λ _ c'. c'.in_packet ≡ c.in_packet) _ (must_malloc c) _ (must_malloc-Holds c)
        λ _ c' e.
          into_conn-Holds (λ _ p. InBlock p) c' _
            (read_bytes-Holds (payload_length c.in_packet) c'.in_packet (subst InBlock (sym e) b)
              (payload_length-small c.in_packet b)))
  | inr t ↦ rw t b
]

require_topic :
    (empty : Bool) (c : Conn)
    → InConn c
    → Holds (λ _ c'. InConn c') ((if empty then raise protocol else pure tt) c)
require_topic true c b = tt
require_topic false c b = b

read_mid-InConn :
    (wanted : Bool) (c : Conn)
    → InConn c
    → Holds (λ _ c'. InConn c') ((if wanted then on_in read_uint16 else pure 0) c)
read_mid-InConn true c b =
    into_conn-Holds (λ _ p. InBlock p) c _
      (Holds-weaken _ _ (read_uint16 c.in_packet) (read_uint16-Holds c.in_packet b) (λ _ p h. h.0))
read_mid-InConn false c b = b

parse_publish-InConn : (c : Conn) → InConn c → Holds (λ _ c'. InConn c') (parse_publish c)
unfolding parse_publish
parse_publish-InConn c b =
    Holds-bind (λ _ c'. InConn c') _ (must_malloc c) _ (must_malloc-InConn c b)
      λ _ c1 b1.
        Holds-bind (λ _ c'. InConn c') _ (read_string c1) _ (read_string-InConn c1 b1)
          λ topic c2 b2.
            Holds-bind (λ _ c'. InConn c') _ _ _ (require_topic (length topic == 0) c2 b2)
              λ _ c3 b3.
                Holds-bind (λ _ c'. InConn c') _ _ _
                  (read_mid-InConn (ltb 0 (c.in_packet.command / 2 % 4)) c3 b3)
                  λ mid c4 b4.
                    Holds-bind (λ _ c'. InConn c') _ (read_rest c4) _ (read_rest-InConn c4 b4)
                      λ payload c5 b5. b5

-- A handler that reads through `f` and goes on with `k` ends when both do.
module _ {A : Type 0} (f : H Conn A) (m : Mosquitto) where
  then-Ends :
      {B : Type 0} (k : A → H Mosquitto B)
      → Holds (λ _ c'. InConn c') (f m.conn)
      → ((a : A) (m' : Mosquitto)
          → InConn m'.conn
          → m'.out_messages ≡ m.out_messages
          → Ends (k a m'))
      → Ends (bind (on_conn f m) k)
  then-Ends k h g =
      Ends-bind (λ _ m'. InConn m'.conn × (m'.out_messages ≡ m.out_messages)) (on_conn f m) k
        (lifted-Holds (λ _ c'. InConn c') m (f m.conn) h) (λ a m' e. g a m' e.0 e.1)

reading_mid : (m : Mosquitto) → InConn m.conn → Holds (λ _ c'. InConn c') (on_in read_uint16 m.conn)
reading_mid m b =
    into_conn-Holds (λ _ p. InBlock p) m.conn _
      (Holds-weaken _ _ (read_uint16 m.in_packet) (read_uint16-Holds m.in_packet b) (λ _ p h. h.0))

reading_byte : (m : Mosquitto) → InConn m.conn → Holds (λ _ c'. InConn c') (on_in read_byte m.conn)
reading_byte m b =
    into_conn-Holds (λ _ p. InBlock p) m.conn _
      (Holds-weaken _ _ (read_byte m.in_packet) (read_byte-Holds m.in_packet b) (λ _ p h. h.0))

read_granted-Holds :
    (rounds : ℕ) (granted : List ℕ) (p : Packet)
    → InBlock p
    → Holds (λ _ p'. InBlock p') (read_granted rounds granted p)
unfolding read_granted
read_granted-Holds zero granted p b = b
read_granted-Holds (suc rounds) granted p b =
    elim (Bool-cases (ltb p.position p.remaining_length)) [
      | inl t ↦
          rw (t, read_granted)
            (Holds-bind _ _ (read_byte p) _ (read_byte-Holds p b)
              (λ qos p' h. read_granted-Holds rounds (granted ++ qos ∷ []) p' h.0))
      | inr t ↦ rw (t, read_granted) b
    ]

answer-Ends :
    (command mid : ℕ) (m : Mosquitto) → Ends (on_conn (send_command_with_mid command mid false) m)
answer-Ends command mid m = lifted-Ends m _ (send_command_with_mid-Ends command mid false m.conn)

accept_publish-Ends : (p : Publish) (m : Mosquitto) → Ends (accept_publish p m)
unfolding accept_publish send_puback send_pubrec message_queue
accept_publish-Ends p m = if-Ends (p.msg.qos == 0) _ _ m tt (
    if-Ends (p.msg.qos == 1) _ _ m
      (Ends-bind _ (attempt (on_conn (send_puback p.msg.mid)) m) _
        (Ends-Holds _
          (attempt-Ends (on_conn (send_puback p.msg.mid)) m (answer-Ends 0x40 p.msg.mid m)))
        (λ rc m' _. return_code-Ends rc tt _))
      (if-Ends (p.msg.qos == 2) _ _ m
        (Ends-bind _ (attempt (on_conn (send_pubrec p.msg.mid)) m) _
          (Ends-Holds _
            (attempt-Ends (on_conn (send_pubrec p.msg.mid)) m (answer-Ends 0x50 p.msg.mid m)))
          (λ rc m' _. return_code-Ends rc tt _))
        tt))

handle_publish-Ends : (m : Mosquitto) → InConn m.conn → Ends (handle_publish m)
unfolding handle_publish
handle_publish-Ends m b =
    then-Ends parse_publish m accept_publish (parse_publish-InConn m.conn b)
      (λ p m' _ _. accept_publish-Ends p m')

check_pubrel_flags-Holds : (m : Mosquitto) → Holds (λ _ m'. m' ≡ m) (check_pubrel_flags m)
check_pubrel_flags-Holds m = go m.options.protocol refl
  where
    go : (v : Protocol) → m.options.protocol ≡ v → Holds (λ _ m'. m' ≡ m) (check_pubrel_flags m)
    go mqtt31 h = rw h refl
    go mqtt311 h = elim (Bool-cases (m.in_packet.command % 16 != 2)) [
      | inl e ↦ rw (h, e) tt
      | inr e ↦ rw (h, e) refl
    ]

publish_done-Ends : (mid : ℕ) (rc : Rc) (m : Mosquitto) → Ends (publish_done mid rc m)
publish_done-Ends mid success m = tt
publish_done-Ends mid _ m = tt

deliver-Ends : (found : Option MessageAll) (m : Mosquitto) → Ends (deliver found m)
deliver-Ends none m = tt
deliver-Ends (some x) m = tt

message_out_update-Ends :
    (mid : ℕ) (m : Mosquitto) → Ends (message_out_update mid wait_for_pubcomp m)
unfolding message_out_update
message_out_update-Ends mid m = go (update_state mid wait_for_pubcomp m.now m.out_messages) refl
  where
    go :
        (o : Option (List MessageAll))
        → update_state mid wait_for_pubcomp m.now m.out_messages ≡ o
        → Ends (message_out_update mid wait_for_pubcomp m)
    go none e = rw (e, message_out_update) tt
    go (some out) e = rw (e, message_out_update) tt

remove_incoming-Ends : (mid : ℕ) (m : Mosquitto) → Ends (optional (message_remove mid incoming) m)
unfolding message_remove
remove_incoming-Ends mid m = go (unlink mid m.in_messages) refl
  where
    go :
        (o : Option (MessageAll × List MessageAll))
        → unlink mid m.in_messages ≡ o
        → Ends (optional (message_remove mid incoming) m)
    go none e = rw (e, message_remove) tt
    go (some (x, rest)) e = rw (e, message_remove) tt

module _ (m : Mosquitto) (b : InConn m.conn) where
  handle_pubackcomp-Ends : All FitsMessage m.out_messages → Ends (handle_pubackcomp m)
  unfolding handle_pubackcomp
  handle_pubackcomp-Ends fit = then-Ends (on_in read_uint16) m _ (reading_mid m b) λ mid m' _ e.
      Ends-bind _ (attempt (message_delete mid outgoing) m') _
        (Ends-Holds _
          (attempt-Ends (message_delete mid outgoing) m' (message_delete-Ends mid m' (rw e fit))))
        λ rc m'' _. publish_done-Ends mid rc m''

  handle_pubrec-Ends : Ends (handle_pubrec m)
  unfolding handle_pubrec send_pubrel
  handle_pubrec-Ends = then-Ends (on_in read_uint16) m _ (reading_mid m b) λ mid m' _ _.
      Ends-bind _ (message_out_update mid wait_for_pubcomp m') _
        (Ends-Holds _ (message_out_update-Ends mid m')) (λ _ m'' _. answer-Ends 0x62 mid m'')

  handle_pubrel-Ends : Ends (handle_pubrel m)
  unfolding handle_pubrel send_pubcomp
  handle_pubrel-Ends =
      Ends-bind (λ _ m'. m' ≡ m) (check_pubrel_flags m) _ (check_pubrel_flags-Holds m)
        λ _ m1 e1.
          then-Ends (on_in read_uint16) m1 _
            (reading_mid m1 (subst (λ n. InConn n.conn) (sym e1) b))
            λ mid m' _ _.
              Ends-bind _ (optional (message_remove mid incoming) m') _
                (Ends-Holds _ (remove_incoming-Ends mid m'))
                λ found m'' _.
                  Ends-bind _ (deliver found m'') _ (Ends-Holds _ (deliver-Ends found m''))
                    λ _ m3 _. answer-Ends 0x70 mid m3

  handle_suback-Ends : Ends (handle_suback m)
  unfolding handle_suback
  handle_suback-Ends = then-Ends (on_in read_uint16) m _ (reading_mid m b) λ mid m' b' _.
      then-Ends must_malloc m' _ (must_malloc-InConn m'.conn b') λ _ m'' b'' _.
        then-Ends (on_in read_all_granted) m'' _
          (into_conn-Holds (λ _ p. InBlock p) m''.conn _
            (read_granted-Holds _ [] m''.in_packet b''))
          λ granted m3 _ _. tt

  handle_unsuback-Ends : Ends (handle_unsuback m)
  unfolding handle_unsuback
  handle_unsuback-Ends = then-Ends (on_in read_uint16) m _ (reading_mid m b) λ mid m' _ _. tt

  handle_connack-Ends : Ends (handle_connack m)
  unfolding handle_connack
  handle_connack-Ends = then-Ends (on_in read_byte) m _ (reading_byte m b) λ _ m' b' _.
      then-Ends (on_in read_byte) m' _ (reading_byte m' b')
        λ result m'' _ _. if-Ends (result == 0) _ _ _ tt (if-Ends (ltb result 6) _ _ _ tt tt)

-- On any packet that is complete in its block, and with outgoing messages that fit a packet, the
-- handler does not crash: it returns a code.
pub packet_handle-Ends :
    (m : Mosquitto) → InBlock m.in_packet → All FitsMessage m.out_messages → Ends (packet_handle m)
unfolding packet_handle handle_pingreq handle_pingresp send_pingresp
packet_handle-Ends m b fit =
    let kind = m.in_packet.command / 16 % 16 in
    if-Ends (kind == 12) _ _ m (lifted-Ends m _ (send_simple_command-Ends 0xD0 m.conn)) (
      if-Ends (kind == 13) _ _ m tt (
        if-Ends (kind == 4) _ _ m (handle_pubackcomp-Ends m b fit) (
          if-Ends (kind == 7) _ _ m (handle_pubackcomp-Ends m b fit) (
            if-Ends (kind == 3) _ _ m (handle_publish-Ends m b) (
              if-Ends (kind == 5) _ _ m (handle_pubrec-Ends m b) (
                if-Ends (kind == 6) _ _ m (handle_pubrel-Ends m b) (
                  if-Ends (kind == 2) _ _ m (handle_connack-Ends m b) (
                    if-Ends (kind == 9) _ _ m (handle_suback-Ends m b)
                      (if-Ends (kind == 11) _ _ m (handle_unsuback-Ends m b) tt)))))))))
