-- ===== src/Messages.antt =====
-- mosquitto/lib/messages_mosq.c: the messages in flight, in both directions. A linked list is a
-- list; its `*_last` pointer is the list's end. Memory that is given back is not modelled.
pub mod Inflight
pub mod Reset
pub mod Safety
use moscapsule.Prelude.{
  ℕ, zero, suc, ◌+◌, ◌%◌, ◌^◌, ℤ, pos, increment, decrement, below, Bool, true, false, Option, none,
  some, List, [], ◌∷◌, ◌++◌, if◌then◌else◌, ◌==◌, ◌&&◌, ◌||◌, not, not, ltb, length,
}
use moscapsule.Types.{
  Rc, Direction, incoming, outgoing, MsgState, invalid, wait_for_puback, wait_for_pubrec,
  wait_for_pubrel, wait_for_pubcomp, Message, MessageAll,
}
use moscapsule.Outcome.{Outcome, H, bind, ok, err, crash, ◌>>=◌, ◌>>◌, pure, attempt}
use moscapsule.Conn.{Conn}
use moscapsule.Send.{send_publish, send_pubrec, send_pubrel}
use moscapsule.Client.{Msgs, Mosquitto, with_msgs, on_conn}

-- `max_inflight_messages == 0 || inflight_messages < max_inflight_messages`
abbrev pub has_room : ℕ → ℤ → Bool
has_room max inflight = max == 0 || below inflight max

-- `_mosquitto_message_queue`: 1 says that the window is full. An outgoing message that goes behind a
-- stray `out_messages_last` is linked into the other list; the model stops there.
unfoldable pub message_queue : MessageAll → Direction → H Msgs ℕ
message_queue message outgoing ms =
    let grown : Msgs = record ms {
      out_queue_len = increment ms.out_queue_len;
      out_messages = ms.out_messages ++ message ∷ [];
    } in
    if ms.out_strays
    then crash
    else if ltb 0 message.msg.qos
    then if has_room ms.max_inflight_messages ms.inflight_messages
      then ok 0 (record grown { inflight_messages = increment ms.inflight_messages })
      else ok 1 grown
    else ok 0 grown
message_queue message incoming ms = ok 0 (record ms {
  in_queue_len = increment ms.in_queue_len;
  in_messages = ms.in_messages ++ message ∷ [];
})

-- The first loop of `_mosquitto_messages_reconnect_reset` behind a node that is kept: the nodes
-- that are not of QoS 2 go.
unfoldable pub reset_tail : List MessageAll → List MessageAll
reset_tail [] = []
reset_tail (m ∷ rest) =
    if m.msg.qos == 2 then record m { timestamp = 0 } ∷ reset_tail rest else reset_tail rest

-- The same loop at the head. A head that goes leaves `prev` at its successor, which the loop then
-- steps over; without a successor it dereferences NULL. With the list comes the count of rounds.
unfoldable pub reset_in : List MessageAll → Option (List MessageAll × ℕ)
reset_in [] = some ([], 0)
reset_in (m ∷ []) = if m.msg.qos == 2 then some (record m { timestamp = 0 } ∷ [], 1) else none
reset_in (m ∷ n ∷ rest) =
    if m.msg.qos == 2
    then some (record m { timestamp = 0 } ∷ reset_tail (n ∷ rest), suc (suc (length rest)))
    else some (n ∷ reset_tail rest, suc (length rest))

-- The state in which an outgoing message waits once it is sent again.
abbrev pub resent_state : ℕ → MsgState → MsgState
resent_state qos state = if qos == 1 then wait_for_puback else state

-- The second loop: the new list and the new count of messages in flight.
unfoldable pub reset_out : ℕ → ℤ → List MessageAll → List MessageAll × ℤ
reset_out max inflight [] = ([], inflight)
reset_out max inflight (m ∷ rest) =
    let fits = has_room max inflight in
    let next = if fits && ltb 0 m.msg.qos then increment inflight else inflight in
    let (rest', last) = reset_out max next rest in
    (
      record m { timestamp = 0; state = if fits then resent_state m.msg.qos m.state else invalid }
          ∷ rest',
      last,
    )

abbrev pub is_empty : List MessageAll → Bool
is_empty [] = true
is_empty (x ∷ xs) = false

-- `prev` still is the last node of the first loop when the second one starts, and stays so if that
-- has no round.
abbrev pub reset_outgoing : Msgs → Msgs
reset_outgoing ms =
    let (out, inflight) = reset_out ms.max_inflight_messages (pos 0) ms.out_messages in
    record ms {
      out_messages = out;
      inflight_messages = inflight;
      out_queue_len = pos (length ms.out_messages);
      out_strays = is_empty ms.out_messages && not (is_empty ms.in_messages);
    }

-- `_mosquitto_messages_reconnect_reset`
unfoldable pub messages_reconnect_reset : H Mosquitto (Unit {0})
messages_reconnect_reset m = elim (reset_in m.in_messages) [
  | none ↦ crash
  | some (kept, rounds) ↦ ok tt (
      with_msgs (reset_outgoing (record (m.msgs) { in_messages = kept; in_queue_len = pos rounds }))
        m)
]

-- The first message with the identifier, and the list without it.
unfoldable pub unlink : ℕ → List MessageAll → Option (MessageAll × List MessageAll)
unlink mid [] = none
unlink mid (m ∷ rest) =
    let found = unlink mid rest in
    if m.msg.mid == mid
    then some (m, rest)
    else elim found [ none ↦ none | some (x, rest') ↦ some (x, m ∷ rest') ]

-- `_mosquitto_send_publish(mosq, cur->msg.mid, ..., cur->dup)`
abbrev pub publish_again : MessageAll → H Conn (Unit {0})
publish_again x = send_publish x.msg.mid x.msg.topic x.msg.payload x.msg.qos x.msg.retain x.dup

-- The state in which a message waits that is sent for the first time.
abbrev pub started : MessageAll → MessageAll
started x = record x {
  state =
      if x.msg.qos == 1
      then wait_for_puback
      else if x.msg.qos == 2
      then wait_for_pubrec
      else x.state;
}

abbrev pub is_invalid : MsgState → Bool
is_invalid invalid = true
is_invalid _ = false

abbrev pub with_out : List MessageAll → Mosquitto → Mosquitto
with_out out m = with_msgs (record (m.msgs) { out_messages = out }) m

abbrev pub start_message : List MessageAll → MessageAll → List MessageAll → Mosquitto → Mosquitto
start_message done x rest m =
    with_msgs
      (record (m.msgs) {
        out_messages = done ++ started x ∷ rest;
        inflight_messages = increment m.inflight_messages;
      })
      m

-- The loop of `_mosquitto_message_remove` that starts the messages for which there is room now;
-- `done` is the part of `out_messages` that it has passed.
unfoldable pub start_waiting : List MessageAll → List MessageAll → H Mosquitto (Unit {0})
start_waiting done [] m = ok tt m
start_waiting done (x ∷ rest) m = elim (has_room m.max_inflight_messages m.inflight_messages) [
  | false ↦ ok tt m
  | true ↦ elim (ltb 0 x.msg.qos && is_invalid x.state) [
    | false ↦ start_waiting (done ++ x ∷ []) rest m
    | true ↦
        bind (on_conn (publish_again (started x)) (start_message done x rest m))
          (λ _ m'. start_waiting (done ++ started x ∷ []) rest m')
  ]
]

abbrev pub unlinked_out : MessageAll → List MessageAll → Msgs → Msgs
unlinked_out x rest ms = record ms {
  out_messages = rest;
  out_queue_len = decrement ms.out_queue_len;
  inflight_messages =
      if ltb 0 x.msg.qos then decrement ms.inflight_messages else ms.inflight_messages;
}

abbrev pub unlinked_in : List MessageAll → Msgs → Msgs
unlinked_in rest ms = record ms { in_messages = rest; in_queue_len = decrement ms.in_queue_len }

-- `_mosquitto_message_remove`; the message is the result.
unfoldable pub message_remove : ℕ → Direction → H Mosquitto MessageAll
message_remove mid outgoing m = elim (unlink mid m.out_messages) [
  | none ↦ err Rc.not_found m
  | some (x, rest) ↦
      bind (start_waiting [] rest (with_msgs (unlinked_out x rest m.msgs) m)) (λ _ m'. ok x m')
]
message_remove mid incoming m = elim (unlink mid m.in_messages) [
  | none ↦ err Rc.not_found m
  | some (x, rest) ↦ ok x (with_msgs (unlinked_in rest m.msgs) m)
]

-- `_mosquitto_message_delete`
unfoldable pub message_delete : ℕ → Direction → H Mosquitto (Unit {0})
message_delete mid dir m = bind (message_remove mid dir m) (λ _ m'. ok tt m')

-- `_mosquitto_message_out_update` on the list.
unfoldable pub update_state : ℕ → MsgState → ℕ → List MessageAll → Option (List MessageAll)
update_state mid state now [] = none
update_state mid state now (m ∷ rest) =
    let found = update_state mid state now rest in
    if m.msg.mid == mid
    then some (record m { state = state; timestamp = now } ∷ rest)
    else elim found [ none ↦ none | some rest' ↦ some (m ∷ rest') ]

-- `_mosquitto_message_out_update`
unfoldable pub message_out_update : ℕ → MsgState → H Mosquitto (Unit {0})
message_out_update mid state m = elim (update_state mid state m.now m.out_messages) [
  | none ↦ err Rc.not_found m
  | some out ↦ ok tt (with_out out m)
]

-- `mosquitto_message_retry_set` and `mosquitto_max_inflight_messages_set`
unfoldable pub message_retry_set : ℕ → Mosquitto → Mosquitto
message_retry_set n m = with_msgs (record (m.msgs) { message_retry = n }) m

unfoldable pub max_inflight_messages_set : ℕ → H Mosquitto (Unit {0})
max_inflight_messages_set n m =
    ok tt (with_msgs (record (m.msgs) { max_inflight_messages = n % 2 ^ 32 }) m)

-- What a message that waited too long has sent again.
abbrev pub retry_for : MsgState → MessageAll → Option (H Conn (Unit {0}))
retry_for wait_for_puback x = some (publish_again x)
retry_for wait_for_pubrec x = some (publish_again x)
retry_for wait_for_pubrel x = some (send_pubrec x.msg.mid)
retry_for wait_for_pubcomp x = some (send_pubrel x.msg.mid)
retry_for _ x = none

abbrev pub retry_call : MessageAll → Option (H Conn (Unit {0}))
retry_call x = retry_for x.state x

abbrev pub retried : ℕ → MessageAll → MessageAll
retried now x = record x { timestamp = now; dup = true }

abbrev pub with_messages : Direction → List MessageAll → Mosquitto → Mosquitto
with_messages outgoing xs m = with_out xs m
with_messages incoming xs m = with_msgs (record (m.msgs) { in_messages = xs }) m

-- `_mosquitto_message_retry_check_actual`; what the senders return is ignored.
unfoldable pub retry_check_actual :
    Direction → List MessageAll → List MessageAll → H Mosquitto (Unit {0})
retry_check_actual dir done [] m = ok tt m
retry_check_actual dir done (x ∷ rest) m = elim (ltb (x.timestamp + m.message_retry) m.now) [
  | false ↦ retry_check_actual dir (done ++ x ∷ []) rest m
  | true ↦ elim (retry_call (retried m.now x)) [
    | none ↦ retry_check_actual dir (done ++ x ∷ []) rest m
    | some call ↦
        bind (attempt (on_conn call) (with_messages dir (done ++ retried m.now x ∷ rest) m))
          (λ _ m'. retry_check_actual dir (done ++ retried m.now x ∷ []) rest m')
  ]
]

-- `_mosquitto_message_retry_check`
unfoldable pub message_retry_check : H Mosquitto (Unit {0})
message_retry_check m =
    bind (retry_check_actual outgoing [] m.out_messages m)
      (λ _ m'. retry_check_actual incoming [] m'.in_messages m')
