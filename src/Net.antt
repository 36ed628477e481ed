-- ===== src/Net.antt =====
-- mosquitto/lib/net_mosq.c: sending and receiving packets over the socket.
pub mod Sending
pub mod Receiving
pub mod Filling
pub mod Calm
pub mod Failing
pub mod Draining
use moscapsule.Prelude.{
  ℕ, zero, suc, ◌+◌, ◌-◌, ◌*◌, ◌/◌, ◌%◌, ◌^◌, ℤ, pos, negsuc, increment, decrement, Bool, true,
  false, Option, none, some, List, [], ◌∷◌, ◌++◌, if◌then◌else◌, ◌==◌, ◌&&◌, not, leb, ltb, length,
  take, drop, replicate,
}
use Prim.Native.Nat.{min}
use moscapsule.Types.{
  Rc, ClientState, Errno, connect_pending, again, conn_reset, clear, proto, success,
}
use moscapsule.Outcome.{H, bind, ok, err, crash, return_code}
use moscapsule.Packet.{Packet, wrap32, overwrite}
use moscapsule.Conn.{
  Conn, Env, IoFailure, plain, ssl_want_read, ssl_want_write, ssl_other, ReadEvent, received,
  closed, read_fails, WriteEvent, accepts, write_fails, Event, publishes, disconnects, notify,
  socket_close, must_malloc,
}

-- The errno that a failed transfer leaves, and whether the TLS layer asks for a write.
abbrev pub errno_of : IoFailure → Errno
errno_of (plain e) = e
errno_of ssl_want_read = again
errno_of ssl_want_write = again
errno_of ssl_other = proto

abbrev pub asks_write : IoFailure → Bool → Bool
asks_write ssl_want_write before = true
asks_write _ before = before

-- The `switch(errno)` behind a failed transfer.
abbrev pub stopped_code : Errno → Rc
stopped_code again = success
stopped_code conn_reset = Rc.conn_lost
stopped_code _ = Rc.errno

abbrev pub is_again : Errno → Bool
is_again again = true
is_again _ = false

abbrev pub stop : {A : Type 0} → A → H Conn A
stop a c = return_code (stopped_code (c.env.err_no)) a c

-- `_mosquitto_net_write` that took the bytes, with the answers that are left.
abbrev pub wrote : List WriteEvent → List ℕ → Conn → Conn
wrote tape bytes c = record c {
  want_write = if c.ssl then false else c.want_write;
  env = record (c.env) { err_no = clear; writes = tape; sent = c.env.sent ++ bytes };
}

-- `_mosquitto_net_write` that failed.
abbrev pub not_written : List WriteEvent → IoFailure → Conn → Conn
not_written tape failure c = record c {
  want_write = asks_write failure (if c.ssl then false else c.want_write);
  env = record (c.env) { err_no = errno_of failure; writes = tape };
}

-- The bytes of a packet that still have to be sent.
abbrev pub unsent : Packet → List ℕ
unsent p = take p.to_process (drop p.position p.payload)

abbrev pub advance : ℕ → Packet → Packet
advance n p = record p { to_process = p.to_process - n; position = p.position + n }

-- How the inner loop of `_mosquitto_packet_write` ends.
pub data Sent : Type 0 where
  whole : Packet → Conn → Sent
  partial : Packet → Conn → Sent

abbrev pub tape_at : List WriteEvent → Conn → Conn
tape_at tape c = record c { env = record (c.env) { writes = tape } }

-- `while(packet->to_process > 0)`: each round takes an answer of the tape.
unfoldable pub send_loop : List WriteEvent → Packet → Conn → Sent
send_loop [] p c =
    if p.to_process == 0 then whole p (tape_at [] c) else partial p (not_written [] (plain again) c)
send_loop (accepts n ∷ tape) p c =
    let k = min n p.to_process in
    let rest = send_loop tape (advance k p) (wrote tape (take k (unsent p)) c) in
    if p.to_process == 0
    then whole p (tape_at (accepts n ∷ tape) c)
    else if k == 0
    then partial p (wrote tape [] c)
    else rest
send_loop (write_fails failure ∷ tape) p c =
    if p.to_process == 0
    then whole p (tape_at (write_fails failure ∷ tape) c)
    else partial p (not_written tape failure c)

-- `((packet->command)&0xF6) == PUBLISH`: a PUBLISH of QoS 0.
abbrev pub is_publish_qos0 : Packet → Bool
is_publish_qos0 p = p.command / 16 % 16 == 3 && p.command / 2 % 4 == 0

-- `((packet->command)&0xF0) == DISCONNECT`
abbrev pub is_disconnect : Packet → Bool
is_disconnect p = p.command / 16 % 16 == 14

abbrev pub sent_now : Conn → Conn
sent_now c = record c { last_msg_out = c.env.now }

-- `mosq->current_out_packet` and `mosq->out_packet`
abbrev pub queue_at : Option Packet → List Packet → Conn → Conn
queue_at current rest c = record c { current_out_packet = current; out_packet = rest }

-- `mosq->current_out_packet = mosq->out_packet` and the list's step.
abbrev pub next_packet : List Packet → Conn → Conn
next_packet [] c = queue_at none [] c
next_packet (p ∷ rest) c = queue_at (some p) rest c

-- What follows a DISCONNECT that is sent whole.
abbrev pub after_disconnect : List Packet → Conn → Conn
after_disconnect rest c =
    notify c.on_disconnect (disconnects success) (sent_now (next_packet rest (socket_close c)))

abbrev pub after_packet : Packet → Conn → Conn
after_packet p c = if is_publish_qos0 p then notify c.on_publish (publishes p.mid) c else c

-- `while(mosq->current_out_packet)`, over the packet at hand and `mosq->out_packet`.
unfoldable pub write_packets : List Packet → Packet → H Conn (Unit {0})
unfolding send_loop socket_close
write_packets [] p c = elim (send_loop (c.env.writes) p c) [
  | partial p' c' ↦ stop tt (queue_at (some p') [] c')
  | whole p' c' ↦
      if is_disconnect p'
      then ok tt (after_disconnect [] c')
      else ok tt (sent_now (queue_at none [] (after_packet p' c')))
]
write_packets (q ∷ rest) p c = elim (send_loop (c.env.writes) p c) [
  | partial p' c' ↦ stop tt (queue_at (some p') (q ∷ rest) c')
  | whole p' c' ↦
      if is_disconnect p'
      then ok tt (after_disconnect (q ∷ rest) c')
      else write_packets rest q (sent_now (queue_at (some q) rest (after_packet p' c')))
]

-- `if(mosq->out_packet && !mosq->current_out_packet)`
abbrev pub take_first : Option Packet → Conn → Conn
take_first none c = next_packet c.out_packet c
take_first (some p) c = c

abbrev pub take_packet : Conn → Conn
take_packet c = take_first c.current_out_packet c

abbrev pub write_first : Option Packet → H Conn (Unit {0})
write_first none c = ok tt c
write_first (some p) c = write_packets c.out_packet p c

abbrev pub write_current : H Conn (Unit {0})
write_current c = write_first c.current_out_packet c

abbrev pub write_open : Option ℕ → ClientState → H Conn (Unit {0})
write_open none state c = err Rc.no_conn c
write_open (some _) connect_pending c = ok tt (take_packet c)
write_open (some _) _ c = write_current (take_packet c)

-- `_mosquitto_packet_write`
unfoldable pub packet_write : H Conn (Unit {0})
unfolding write_packets
packet_write c = write_open c.sock c.state c

-- `mosq->in_callback == false && mosq->threaded == false`
abbrev pub writes_at_once : Conn → Bool
writes_at_once c = not c.in_callback && not c.threaded

-- `_mosquitto_packet_queue`; the byte for `sockpairW` only wakes another thread.
unfoldable pub packet_queue : Packet → H Conn (Unit {0})
unfolding packet_write
packet_queue p c =
    let fresh : Packet = record p { position = 0; to_process = p.packet_length } in
    let c' : Conn = record c { out_packet = c.out_packet ++ fresh ∷ [] } in
    if writes_at_once c' then packet_write c' else ok tt c'

-- What `_mosquitto_net_read` returns: bytes, 0 or -1.
pub data Got : Type 0 where
  bytes : List ℕ → Conn → Got
  end_of_stream : Conn → Got
  nothing : Conn → Got

-- The part of a segment that did not fit is still there for the next read.
abbrev pub pushed_back : List ℕ → List ReadEvent → List ReadEvent
pushed_back [] tape = tape
pushed_back (b ∷ bs) tape = received b bs ∷ tape

abbrev pub after_read : List ReadEvent → Errno → Conn → Conn
after_read tape e c = record c { env = record (c.env) { err_no = e; reads = tape } }

abbrev pub want_after_read : IoFailure → Conn → Conn
want_after_read failure c = record c { want_write = asks_write failure c.want_write }

unfoldable pub read_event : ℕ → List ReadEvent → Conn → Got
read_event count [] c = nothing (after_read [] again c)
read_event count (received b bs ∷ tape) c =
    bytes (take count (b ∷ bs)) (after_read (pushed_back (drop count (b ∷ bs)) tape) clear c)
read_event count (closed ∷ tape) c =
    end_of_stream (after_read (closed ∷ tape) (if c.ssl then proto else clear) c)
read_event count (read_fails failure ∷ tape) c =
    nothing (want_after_read failure (after_read tape (errno_of failure) c))

-- `_mosquitto_net_read`
unfoldable pub net_read : ℕ → Conn → Got
unfolding read_event
net_read count c = read_event count (c.env.reads) c

abbrev pub with_in : Packet → Conn → Conn
with_in p c = record c { in_packet = p }

-- The result of reading a part of a packet: go on, or return the code at once.
pub data Progress : Type 0 where
  go_on : Progress
  wait : Progress

-- One byte, with the returns that stand behind each of the two reads of single bytes.
abbrev pub one_byte : {A : Type 0} → A → (ℕ → H Conn A) → H Conn A
one_byte a use_byte c = elim (net_read 1 c) [
  | bytes [] c' ↦ err Rc.conn_lost c'
  | bytes (b ∷ _) c' ↦ use_byte b c'
  | end_of_stream c' ↦ err Rc.conn_lost c'
  | nothing c' ↦ stop a c'
]

abbrev pub and_then : H Conn Progress → H Conn Progress → H Conn Progress
and_then m k c = bind (m c) λ progress c'. elim progress [ go_on ↦ k c' | wait ↦ ok wait c' ]

-- `if(!mosq->in_packet.command)`
unfoldable pub read_command : H Conn Progress
unfolding net_read
read_command c =
    if c.in_packet.command == 0
    then one_byte wait (λ b c'. ok go_on (with_in (record (c'.in_packet) { command = b }) c')) c
    else ok go_on c

-- `remaining_count < -4`
abbrev pub too_many : ℤ → Bool
too_many (pos n) = false
too_many (negsuc n) = leb 4 n

abbrev pub counted : Packet → Packet
counted p = record p { remaining_count = decrement p.remaining_count }

abbrev pub add_digit : ℕ → Packet → Packet
add_digit byte p = record p {
  remaining_length = wrap32 (p.remaining_length + byte % 128 * p.remaining_mult);
  remaining_mult = wrap32 (p.remaining_mult * 128);
}

-- A digit that has come, and `more` of them; the fifth digit is refused.
abbrev pub use_digit : H Conn Progress → ℕ → H Conn Progress
use_digit more byte c =
    let p = counted c.in_packet in
    if too_many p.remaining_count
    then err Rc.protocol (with_in p c)
    else elim (byte / 128 % 2 == 1) [
      | true ↦ more (with_in (add_digit byte p) c)
      | false ↦ ok go_on (with_in (add_digit byte p) c)
    ]

-- The `do ... while` over the digits of the remaining length.
unfoldable pub read_digits : ℕ → H Conn Progress
unfolding net_read
read_digits zero c = crash
read_digits (suc rounds) c = one_byte wait (use_digit (read_digits rounds)) c

-- `remaining_count *= -1`
abbrev pub negate : ℤ → ℤ
negate (pos zero) = pos zero
negate (pos (suc n)) = negsuc n
negate (negsuc n) = pos (suc n)

abbrev pub with_block : Conn → Conn
with_block c =
    with_in
      (record (c.in_packet) {
        payload = replicate c.in_packet.remaining_length c.junk;
        to_process = c.in_packet.remaining_length;
      })
      c

unfoldable pub start_payload : H Conn Progress
unfolding must_malloc
start_payload c =
    let p : Packet = record (c.in_packet) {
      remaining_count = negate c.in_packet.remaining_count;
    } in
    if ltb 0 p.remaining_length
    then bind (must_malloc (with_in p c)) (λ _ c'. ok go_on (with_block c'))
    else ok go_on (with_in p c)

-- `remaining_count <= 0`
abbrev pub unfinished : ℤ → Bool
unfinished (pos zero) = true
unfinished (pos (suc n)) = false
unfinished (negsuc n) = true

unfoldable pub read_length : H Conn Progress
unfolding read_digits start_payload
read_length c =
    if unfinished c.in_packet.remaining_count
    then and_then (read_digits 5) start_payload c
    else ok go_on c

abbrev pub store : List ℕ → Packet → Packet
store bs p = record p {
  payload = overwrite p.payload p.position bs;
  to_process = p.to_process - length bs;
  position = p.position + length bs;
}

-- A large packet keeps the connection alive while it comes in.
abbrev pub stop_payload : H Conn Progress
stop_payload c = stop wait (
    if ltb 1000 c.in_packet.to_process && is_again c.err_no
    then record c { last_msg_in = c.now }
    else c)

-- `while(mosq->in_packet.to_process>0)`; each round takes a byte at least.
unfoldable pub read_payload : ℕ → H Conn Progress
unfolding net_read
read_payload zero c = ok go_on c
read_payload (suc rounds) c = elim (c.in_packet.to_process == 0) [
  | true ↦ ok go_on c
  | false ↦ elim (net_read c.in_packet.to_process c) [
    | bytes bs c' ↦ read_payload rounds (with_in (store bs c'.in_packet) c')
    | end_of_stream c' ↦ stop_payload c'
    | nothing c' ↦ stop_payload c'
  ]
]

abbrev pub read_all_payload : H Conn Progress
read_all_payload c = read_payload c.in_packet.to_process c

abbrev pub read_connected : ClientState → H Conn Progress
read_connected connect_pending c = ok wait c
read_connected _ c = and_then read_command (and_then read_length read_all_payload) c

abbrev pub read_open : Option ℕ → H Conn Progress
read_open none c = err Rc.no_conn c
read_open (some _) c = read_connected c.state c

-- `_mosquitto_packet_read` up to the whole packet.
unfoldable pub read_packet : H Conn Progress
unfolding read_command read_length read_payload
read_packet c = read_open c.sock c
