-- ===== src/Runs.antt =====
-- The operations and the theorems on small concrete inputs.
mod Calls
mod Delivering
mod Requesting
mod Topics
mod Dialling
mod Proxying
use moscapsule.Prelude.{
  length, length-replicate, replicate, ℕ, ◌+◌, ◌-◌, ◌%◌, ◌≤◌, ◌^◌, ◌<◌, ◌≡◌, ◌≢◌, ◌↔◌, ◌⊎◌, refl,
  inr, pos, true, false, none, some, List, [], ◌∷◌, ◌++◌, All, take, arith,
}
use moscapsule.Types.{
  Text, payload_size, incoming, outgoing, connected, MessageAll, invalid, wait_for_pubrel,
  wait_for_puback, MsgState, success, again,
}
use moscapsule.Outcome.{err, ok, After, Holds, Ends}
use moscapsule.Packet.{Packet, remaining_bytes}
use moscapsule.Packet.Length.{Digits, remaining_bytes-Digits}
use moscapsule.Packet.Reads.{InBlock}
use moscapsule.Conn.{Conn, Env, ReadEvent, WriteEvent}
use moscapsule.Conn.Mid.{values, values-counted}
use moscapsule.Net.{with_in, packet_write, packet_queue, read_packet}
use moscapsule.Net.Sending.{pending, packet_write-Conserves, packet_queue-Conserves}
use moscapsule.Net.Receiving.{Receiving}
use moscapsule.Net.Filling.{Complete, read_packet-Holds}
use moscapsule.Send.{send_publish, publish_length, publish_command}
use moscapsule.Send.Encoding.{publish_bytes}
use moscapsule.Send.Wire.{publish_wire, send_publish-wire, send_publish-too_large}
use moscapsule.Client.{Mosquitto}
use moscapsule.Messages.{message_queue, message_remove, messages_reconnect_reset}
use moscapsule.Messages.Safety.{FitsMessage}
use moscapsule.Messages.Inflight.{Windowed, message_queue-Windowed, message_remove-Windowed}
use moscapsule.Messages.Reset.{IsReset, messages_reconnect_reset-IsReset}
use moscapsule.Handle.{c_string, parse_publish, packet_handle, packet_read}
use moscapsule.Handle.Keeping.{Received}
use moscapsule.Handle.Received.{packet_handle-Received}
use moscapsule.Handle.Safety.{packet_handle-Ends}
use moscapsule.Handle.Reading.{packet_read-Receiving}
use moscapsule.Handle.RoundTrip.{IsReceived, IsTopic, parse_publish-publish_bytes}
use moscapsule.Handle.Delivery.{Removed, message_remove-Once}
use moscapsule.Topic.Matching.{topic_matches_sub-plain}
use moscapsule.Topic.{topic_matches_sub, match_loop, pub_topic_check}
use moscapsule.Topic.Checks.{IsPlain, pub_topic_check-success}
use moscapsule.Api.{publish_queued, blank_options}
use moscapsule.Api.Publish.{IsQueued, publish_queued-IsQueued}
use moscapsule.Loop.{reconnect_step}
use moscapsule.Loop.Backoff.{reconnect_step-bounded}

abbrev world : List ReadEvent → List WriteEvent → Env
world reads writes = record {
  now = 100;
  err_no = again;
  reads = reads;
  writes = writes;
  dials = [];
  shakes = [];
  pairs = [];
  mem = [];
  junk = 170;
  sent = [];
  events = [];
}

abbrev start : Packet
start = record {
  payload = [];
  remaining_mult = 1;
  remaining_length = 0;
  packet_length = 0;
  to_process = 0;
  position = 0;
  mid = 0;
  command = 0;
  remaining_count = pos 0;
}

-- A connected client with a packet under its hands.
abbrev connection : Packet → List ReadEvent → List WriteEvent → Conn
connection p reads writes = record {
  sock = some 5;
  sockpair_r = none;
  sockpair_w = none;
  state = connected;
  keepalive = 60;
  last_mid = 65535;
  last_msg_in = 100;
  last_msg_out = 100;
  ping_t = 0;
  in_packet = p;
  current_out_packet = none;
  out_packet = [];
  ssl_ctx = false;
  ssl = false;
  want_write = false;
  want_connect = false;
  in_callback = false;
  threaded = false;
  callbacks = record {
    on_connect = true;
    on_disconnect = true;
    on_publish = true;
    on_message = true;
    on_subscribe = true;
    on_unsubscribe = true;
  };
  env = world reads writes;
}

abbrev message : ℕ → ℕ → MsgState → MessageAll
message mid qos state = record {
  timestamp = 90;
  state = state;
  dup = false;
  msg = record { mid = mid; topic = b'a' ∷ []; payload = 1 ∷ 2 ∷ []; qos = qos; retain = false };
}

-- One message flies in a window of one, one waits, and one has been received.
abbrev client : Conn → Mosquitto
client c = record {
  conn = c;
  msgs = record {
    in_messages = message 7 2 wait_for_pubrel ∷ [];
    out_messages = message 1 1 wait_for_puback ∷ message 2 1 invalid ∷ [];
    out_strays = false;
    in_queue_len = pos 1;
    out_queue_len = pos 2;
    inflight_messages = pos 1;
    max_inflight_messages = 1;
    message_retry = 20;
    last_retry_check = 0;
  };
  options = blank_options true;
}

-- A PUBACK in three pieces.
abbrev puback_pieces : List ReadEvent
puback_pieces =
    ReadEvent.received 0x40 [] ∷ ReadEvent.received 2 (0 ∷ []) ∷ ReadEvent.received 1 [] ∷ []

abbrev partly : List WriteEvent
partly = WriteEvent.accepts 3 ∷ []

start-Receiving : Receiving start
start-Receiving = record {
  digits = omega arith;
  mult = refl;
  small = omega arith;
  no_block = refl;
  no_bytes = refl;
  at_start = refl;
}

message-FitsMessage : (mid qos : ℕ) (state : MsgState) → FitsMessage (message mid qos state)
message-FitsMessage mid qos state = record { short = omega arith; small = omega arith }

abbrev idle : Mosquitto
idle = client (connection start puback_pieces partly)

idle-Fits : All FitsMessage idle.out_messages
idle-Fits = (message-FitsMessage 1 1 wait_for_puback, (message-FitsMessage 2 1 invalid, tt))

packet_read-Receiving_example : Holds (λ _ m'. Receiving m'.in_packet) (packet_read idle)
packet_read-Receiving_example = packet_read-Receiving idle start-Receiving idle-Fits

-- A PUBACK and a PUBLISH as they stand when their handler starts.
abbrev puback_packet : Packet
puback_packet = record start { command = 0x40; payload = 0 ∷ 1 ∷ []; remaining_length = 2 }

abbrev publish_packet : Packet
publish_packet = record start {
  command = publish_command false 1 false;
  payload = publish_bytes 9 (b'a' ∷ []) (4 ∷ []) 1;
  remaining_length = 6;
}

puback_packet-InBlock : InBlock puback_packet
puback_packet-InBlock = record { whole = omega arith; within = omega arith; small = omega arith }

packet_handle-Ends_example : Ends (packet_handle (client (connection puback_packet [] partly)))
packet_handle-Ends_example =
    packet_handle-Ends (client (connection puback_packet [] partly)) puback_packet-InBlock idle-Fits

read_packet-Holds_example : Holds Complete (read_packet idle.conn)
read_packet-Holds_example = read_packet-Holds idle.conn start-Receiving

-- Two packets that wait, over a socket that takes three bytes.
abbrev outgoing_packet : Packet
outgoing_packet = record start {
  command = 0x40;
  payload = 0x40 ∷ 2 ∷ 0 ∷ 1 ∷ [];
  packet_length = 4;
  to_process = 4;
}

abbrev busy : Conn
busy = record (connection start [] partly) { out_packet = outgoing_packet ∷ outgoing_packet ∷ [] }

packet_write-Conserves_example :
    After (λ c'. c'.sent ++ pending c' ≡ busy.sent ++ pending busy) (packet_write busy)
packet_write-Conserves_example = packet_write-Conserves busy

packet_queue-Conserves_example :
    After
      (λ c'.
        c'.sent ++ pending c'
        ≡ (busy.sent ++ pending busy) ++ take outgoing_packet.packet_length outgoing_packet.payload)
      (packet_queue outgoing_packet busy)
packet_queue-Conserves_example = packet_queue-Conserves outgoing_packet busy

short_length : publish_length (b'a' ∷ []) 1 (4 ∷ []) < 2 ^ 28
short_length = omega arith

a-IsTopic : IsTopic (b'a' ∷ [])
unfolding c_string
a-IsTopic = record { text = refl; some_byte = omega arith; short = omega arith }

publish_packet-IsReceived :
    IsReceived
      (connection publish_packet [] [])
      (publish_command false 1 false)
      (publish_bytes 9 (b'a' ∷ []) (4 ∷ []) 1)
publish_packet-IsReceived = record {
  same_command = refl;
  whole = refl;
  counted = refl;
  at_start = refl;
  small = omega arith;
}

send_publish-wire_example :
    After
      (λ c'.
        c'.sent ++ pending c'
        ≡ (busy.sent ++ pending busy) ++ publish_wire 9 (b'a' ∷ []) (4 ∷ []) 1 false false)
      (send_publish 9 (b'a' ∷ []) (4 ∷ []) 1 false false busy)
send_publish-wire_example =
    send_publish-wire 9 (b'a' ∷ []) (4 ∷ []) 1 false false busy 5 refl refl
      (record { short = omega arith; small = omega arith }) short_length

parse_publish-publish_bytes_example :
    parse_publish (connection publish_packet [] [])
    ≡ ok
        (record {
          dup = false;
          msg = record { mid = 9; topic = b'a' ∷ []; payload = 4 ∷ []; qos = 1; retain = false };
        })
        (with_in (record publish_packet { position = 6 }) (connection publish_packet [] []))
parse_publish-publish_bytes_example =
    parse_publish-publish_bytes (connection publish_packet [] []) 9 (b'a' ∷ []) (4 ∷ []) 1 false
      false publish_packet-IsReceived refl a-IsTopic (omega arith) (omega arith)

messages_reconnect_reset-IsReset_example :
    (m' : Mosquitto) × (messages_reconnect_reset idle ≡ ok tt m') × IsReset idle m'
messages_reconnect_reset-IsReset_example = messages_reconnect_reset-IsReset idle (refl, tt)

message_remove-Windowed_example : After (λ m'. Windowed m'.msgs) (message_remove 1 outgoing idle)
message_remove-Windowed_example = message_remove-Windowed 1 idle idle-Fits (inr (omega arith))

message_queue-Windowed_example :
    Holds (λ _ ms. Windowed ms) (message_queue (message 3 1 invalid) outgoing idle.msgs)
message_queue-Windowed_example =
    message_queue-Windowed (message 3 1 invalid) outgoing idle.msgs refl (inr (omega arith))

message_remove-Once_example : Removed 7 idle (message_remove 7 incoming idle)
message_remove-Once_example = message_remove-Once 7 idle (tt, tt)

publish_queued-IsQueued_example :
    After
      (λ m'. IsQueued (message 3 1 invalid) idle.out_messages m'.out_messages)
      (publish_queued (message 3 1 invalid) idle)
publish_queued-IsQueued_example =
    publish_queued-IsQueued (message 3 1 invalid) idle refl (message-FitsMessage 3 1 invalid)

values-counted_example : values 3 (record busy { last_mid = 65534 }) ≡ 2 ∷ 1 ∷ 65535 ∷ []
values-counted_example = values-counted 3 (record busy { last_mid = 65534 }) (omega arith)

pub_topic_check-success_example :
    (pub_topic_check (b'a' ∷ b'/' ∷ []) ≡ success) ↔ (All IsPlain (b'a' ∷ b'/' ∷ []) × (2 ≤ 65535))
pub_topic_check-success_example = pub_topic_check-success (b'a' ∷ b'/' ∷ [])

remaining_bytes-Digits_example : Digits 300 (remaining_bytes 5 300)
remaining_bytes-Digits_example = remaining_bytes-Digits 4 300 (omega arith)

abbrev backing_off : Mosquitto
backing_off = record idle {
  options = record (idle.options) {
    reconnect_delay = 2;
    reconnect_delay_max = 30;
    reconnect_exponential_backoff = true;
  };
}

reconnect_step-bounded_example :
    ((reconnect_step backing_off 4).0 ≤ 30)
    × (((reconnect_step backing_off 4).1 ≡ (4 + 1) % 2 ^ 32)
        ⊎ (reconnect_step backing_off (reconnect_step backing_off 4).1 ≡ (30, 4)))
reconnect_step-bounded_example = reconnect_step-bounded backing_off 4

-- The largest payload that the API takes, which no packet holds with its topic.
of_length : (n : ℕ) → (xs : List ℕ) × (length xs ≡ n)
of_length n = (replicate n 0, length-replicate n 0)

send_publish-too_large_example :
    send_publish 9 (b'a' ∷ []) (of_length 268435455).0 1 false false busy ≡ err payload_size busy
send_publish-too_large_example =
    send_publish-too_large 9 (b'a' ∷ []) (of_length 268435455).0 1 false false busy 5 refl refl
      (record { short = omega arith; small = omega (arith, (of_length 268435455).1) })
      (omega (arith, (of_length 268435455).1))

a-IsPlain : IsPlain b'a'
a-IsPlain = (λ e. absurd (omega (arith, e)), λ e. absurd (omega (arith, e)))

topic_matches_sub-plain_example :
    (topic_matches_sub (b'a' ∷ []) (b'a' ∷ b'/' ∷ []) ≡ some true)
    ↔ (◌≡◌ {A = Text} (b'a' ∷ []) (b'a' ∷ b'/' ∷ []))
topic_matches_sub-plain_example = topic_matches_sub-plain b'a' [] (b'a' ∷ b'/' ∷ []) (a-IsPlain, tt)

-- `a/#` against `a`, `a/b` and `a/`.
matches_parent : topic_matches_sub (b'a' ∷ b'/' ∷ b'#' ∷ []) (b'a' ∷ []) ≡ some true
unfolding topic_matches_sub match_loop
matches_parent = refl

matches_child : topic_matches_sub (b'a' ∷ b'/' ∷ b'#' ∷ []) (b'a' ∷ b'/' ∷ b'b' ∷ []) ≡ some true
unfolding topic_matches_sub match_loop
matches_child = refl

misses_empty_level : topic_matches_sub (b'a' ∷ b'/' ∷ b'#' ∷ []) (b'a' ∷ b'/' ∷ []) ≡ some false
unfolding topic_matches_sub match_loop
misses_empty_level = refl

packet_handle-Received_example :
    After Received (packet_handle (client (connection puback_packet [] partly)))
packet_handle-Received_example =
    packet_handle-Received (client (connection puback_packet [] partly)) puback_packet-InBlock
      idle-Fits (refl, tt)
