-- ===== src/Handle.antt =====
-- mosquitto/lib/read_handle.c, read_handle_shared.c and read_handle_client.c: what a received packet
-- does; and `_mosquitto_packet_read` of net_mosq.c, which calls it. Log lines are left out.
pub mod Safety
pub mod Delivery
pub mod Inbox
pub mod Reading
pub mod Keeping
pub mod Received
pub mod RoundTrip
use moscapsule.Prelude.{
  ℕ, zero, suc, ◌+◌, ◌-◌, ◌*◌, ◌/◌, ◌%◌, ◌^◌, Bool, true, false, Option, none, some, List, [], ◌∷◌,
  ◌++◌, if◌then◌else◌, ◌==◌, ◌!=◌, ltb, length, is_some,
}
use moscapsule.Types.{
  Rc, success, protocol, conn_refused, Direction, incoming, outgoing, MsgState, invalid,
  wait_for_pubrel, wait_for_pubcomp, ClientState, connected, disconnecting, Protocol, mqtt31,
  mqtt311, Text, Message, MessageAll,
}
use moscapsule.Outcome.{
  Outcome, H, bind, ok, err, crash, ◌>>=◌, ◌>>◌, pure, raise, modify, attempt, optional,
  return_code,
}
use moscapsule.Packet.{
  Packet, wrap32, packet_cleanup, require, copy_out, read_byte, read_bytes, read_uint16,
}
use moscapsule.Conn.{
  Conn, Event, connects, publishes, messages, subscribes, unsubscribes, notify, must_malloc,
}
use moscapsule.Net.{Progress, go_on, wait, with_in, read_packet}
use moscapsule.Send.{send_pingresp, send_puback, send_pubrec, send_pubrel, send_pubcomp}
use moscapsule.Client.{Mosquitto, with_conn, with_msgs, on_conn, on_msgs}
use moscapsule.Messages.{message_queue, message_remove, message_delete, message_out_update}

abbrev pub into_conn : {A : Type 0} → Conn → Outcome Packet A → Outcome Conn A
into_conn c (ok a p) = ok a (with_in p c)
into_conn c (err rc p) = err rc (with_in p c)
into_conn c crash = crash

-- A function of `&mosq->in_packet`.
abbrev pub on_in : {A : Type 0} → H Packet A → H Conn A
on_in f c = into_conn c (f c.in_packet)

abbrev pub reading : {A : Type 0} → H Packet A → H Mosquitto A
reading f = on_conn (on_in f)

-- What a `char *` shows of a run of bytes: those before the first 0.
unfoldable pub c_string : List ℕ → Text
c_string [] = []
c_string (b ∷ bs) = if b == 0 then [] else b ∷ c_string bs

-- `_mosquitto_read_string`
unfoldable pub read_string : H Conn Text
read_string = do
  len ← on_in read_uint16
  on_in (require len)
  must_malloc
  bytes ← on_in (copy_out len)
  pure (c_string bytes)

abbrev pub on_callback : (Mosquitto → Bool) → Event → H Mosquitto (Unit {0})
on_callback set event m = ok tt (with_conn (notify (set m) event m.conn) m)

-- `_mosquitto_handle_pingreq` and `_mosquitto_handle_pingresp`
unfoldable pub handle_pingreq : H Mosquitto (Unit {0})
handle_pingreq = on_conn send_pingresp

unfoldable pub handle_pingresp : H Mosquitto (Unit {0})
handle_pingresp m = ok tt (with_conn (record (m.conn) { ping_t = 0 }) m)

-- `if(!rc)`: on_publish is called.
abbrev pub publish_done : ℕ → Rc → H Mosquitto (Unit {0})
publish_done mid success = on_callback (λ m. m.on_publish) (publishes mid)
publish_done mid _ = pure tt

-- `_mosquitto_handle_pubackcomp`
unfoldable pub handle_pubackcomp : H Mosquitto (Unit {0})
handle_pubackcomp = do
  mid ← reading read_uint16
  rc ← attempt (message_delete mid outgoing)
  publish_done mid rc

-- `_mosquitto_handle_pubrec`
unfoldable pub handle_pubrec : H Mosquitto (Unit {0})
handle_pubrec = do
  mid ← reading read_uint16
  message_out_update mid wait_for_pubcomp
  on_conn (send_pubrel mid)

-- MQTT 3.1.1 fixes the flags of a PUBREL.
abbrev pub flags_for : Protocol → H Mosquitto (Unit {0})
flags_for mqtt311 m = if m.in_packet.command % 16 != 2 then err protocol m else ok tt m
flags_for mqtt31 m = ok tt m

abbrev pub check_pubrel_flags : H Mosquitto (Unit {0})
check_pubrel_flags m = flags_for m.options.protocol m

-- Only a message that is found is handed to on_message.
abbrev pub deliver : Option MessageAll → H Mosquitto (Unit {0})
deliver none = pure tt
deliver (some x) = on_callback (λ m. m.on_message) (messages x.msg)

-- What `_mosquitto_handle_pubrel` does with an identifier, and the whole of it.
abbrev pub release : ℕ → H Mosquitto (Unit {0})
release mid = do
  found ← optional (message_remove mid incoming)
  deliver found
  on_conn (send_pubcomp mid)

unfoldable pub handle_pubrel : H Mosquitto (Unit {0})
handle_pubrel = do check_pubrel_flags; mid ← reading read_uint16; release mid

-- The `while` of `_mosquitto_handle_suback`, which reads one byte a round.
unfoldable pub read_granted : ℕ → List ℕ → H Packet (List ℕ)
read_granted zero granted p = ok granted p
read_granted (suc rounds) granted p =
    if ltb p.position p.remaining_length
    then bind (read_byte p) (λ qos p'. read_granted rounds (granted ++ qos ∷ []) p')
    else ok granted p

abbrev pub read_all_granted : H Packet (List ℕ)
read_all_granted p = read_granted (p.remaining_length - p.position) [] p

-- `_mosquitto_handle_suback`
unfoldable pub handle_suback : H Mosquitto (Unit {0})
handle_suback = do
  mid ← reading read_uint16
  on_conn must_malloc
  granted ← reading read_all_granted
  on_callback (λ m. m.on_subscribe) (subscribes mid granted)

-- `_mosquitto_handle_unsuback`
unfoldable pub handle_unsuback : H Mosquitto (Unit {0})
handle_unsuback = do
  mid ← reading read_uint16
  on_callback (λ m. m.on_unsubscribe) (unsubscribes mid)

abbrev pub connect_accepted : Mosquitto → Mosquitto
connect_accepted m = elim m.conn.state [
  | disconnecting ↦ m
  | _ ↦ with_conn (record (m.conn) { state = connected }) m
]

-- `switch(result)`
abbrev pub connack_code : ℕ → H Mosquitto (Unit {0})
connack_code result =
    if result == 0
    then modify connect_accepted
    else if ltb result 6
    then raise conn_refused
    else raise protocol

-- `_mosquitto_handle_connack`
unfoldable pub handle_connack : H Mosquitto (Unit {0})
handle_connack = do
  _ ← reading read_byte
  result ← reading read_byte
  on_callback (λ m. m.on_connect) (connects result)
  connack_code result

-- The fields of a received PUBLISH.
pub record Publish : Type 0 where
  pub dup : Bool
  pub msg : Message

-- `remaining_length - pos`, as uint32_t
abbrev pub payload_length : Packet → ℕ
payload_length p = wrap32 (p.remaining_length + 2 ^ 32 - p.position)

abbrev pub read_rest : H Conn (List ℕ)
read_rest c =
    if ltb 0 (payload_length c.in_packet)
    then (do must_malloc; on_in (read_bytes (payload_length c.in_packet))) c
    else ok [] c

-- `_mosquitto_handle_publish` up to the switch over the QoS.
unfoldable pub parse_publish : H Conn Publish
parse_publish c =
    let header = c.in_packet.command in
    let qos = header / 2 % 4 in
    (do
      must_malloc
      topic ← read_string
      if length topic == 0 then raise protocol else pure tt
      mid ← if ltb 0 qos then on_in read_uint16 else pure 0
      payload ← read_rest
      pure (record {
        dup = header / 8 % 2 == 1;
        msg = record {
          mid = mid;
          topic = topic;
          payload = payload;
          qos = qos;
          retain = header % 2 == 1;
        };
      }))
      c

abbrev pub queue_incoming : MessageAll → H Mosquitto (Unit {0})
queue_incoming x = do _ ← on_msgs (message_queue x incoming); pure tt

abbrev pub received_message : ℕ → Publish → MessageAll
received_message now p = record {
  timestamp = now;
  state = wait_for_pubrel;
  dup = p.dup;
  msg = p.msg;
}

-- The switch over the QoS.
unfoldable pub accept_publish : Publish → H Mosquitto (Unit {0})
accept_publish p m =
    (if p.msg.qos == 0
        then on_callback (λ m'. m'.on_message) (messages p.msg)
        else if p.msg.qos == 1
        then (do
          rc ← attempt (on_conn (send_puback p.msg.mid))
          on_callback (λ m'. m'.on_message) (messages p.msg)
          return_code rc tt)
        else if p.msg.qos == 2
        then (do
          rc ← attempt (on_conn (send_pubrec p.msg.mid))
          queue_incoming (received_message m.now p)
          return_code rc tt)
        else raise protocol)
      m

-- `_mosquitto_handle_publish`
unfoldable pub handle_publish : H Mosquitto (Unit {0})
handle_publish = do p ← on_conn parse_publish; accept_publish p

-- `_mosquitto_packet_handle`
unfoldable pub packet_handle : H Mosquitto (Unit {0})
packet_handle m =
    let kind = m.in_packet.command / 16 % 16 in
    (if kind == 12
        then handle_pingreq
        else if kind == 13
        then handle_pingresp
        else if kind == 4
        then handle_pubackcomp
        else if kind == 7
        then handle_pubackcomp
        else if kind == 3
        then handle_publish
        else if kind == 5
        then handle_pubrec
        else if kind == 6
        then handle_pubrel
        else if kind == 2
        then handle_connack
        else if kind == 9
        then handle_suback
        else if kind == 11
        then handle_unsuback
        else raise protocol)
      m

abbrev pub rewound : Conn → Conn
rewound c = with_in (record (c.in_packet) { position = 0 }) c

-- The packet is given back and the time noted, whatever the handler returned.
abbrev pub packet_done : Mosquitto → Mosquitto
packet_done m =
    with_conn (record (m.conn) { in_packet = packet_cleanup m.in_packet; last_msg_in = m.now }) m

abbrev pub handle_whole : H Mosquitto (Unit {0})
handle_whole = do
  modify (λ m. with_conn (rewound m.conn) m)
  rc ← attempt packet_handle
  modify packet_done
  return_code rc tt

abbrev pub handle_after : Progress → H Mosquitto (Unit {0})
handle_after wait = pure tt
handle_after go_on = handle_whole

-- `_mosquitto_packet_read`
unfoldable pub packet_read : H Mosquitto (Unit {0})
packet_read = do progress ← on_conn read_packet; handle_after progress
