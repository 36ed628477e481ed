-- ===== src/Send/Requests.antt =====
-- The bytes of SUBSCRIBE and UNSUBSCRIBE on the wire.
use moscapsule.Prelude.{
  ℕ, ◌+◌, ◌-◌, ◌<◌, ◌^◌, ◌≡◌, subst, ap, ◌∙◌, List, [], ◌∷◌, ◌++◌, take, length, length-append,
  take-length, arith,
}
use moscapsule.Types.{Text}
use moscapsule.Outcome.{H, ok, After, state_of}
use moscapsule.Send.Writing.{
  Writes, then-Writes, write_byte-Writes, write_uint16-Writes, write_string-Writes,
}
use moscapsule.Packet.{
  write_byte, write_uint16, write_string, Packet, allocated, wrap32, remaining_bytes, msb, lsb,
}
use moscapsule.Packet.Length.{remaining_bytes-short}
use moscapsule.Packet.Writes.{buffer, string_bytes}
use moscapsule.Conn.{Conn, mid_generate}
use moscapsule.Net.{packet_queue}
use moscapsule.Net.Sending.{pending, packet_queue-Conserves}
use moscapsule.Send.{
  request, filled_by, write_subscribe, send_subscribe, write_unsubscribe, send_unsubscribe,
}
use moscapsule.Send.Encoding.{allocated-buffer, allocated-packet_length, buffer-full}
use moscapsule.Send.Wire.{must_malloc-none, packet_alloc-none}

-- The fixed header of a request, and a packet whose block is filled.
abbrev pub header_bytes : ℕ → ℕ → List ℕ
header_bytes command n = command ∷ remaining_bytes 5 n

abbrev pub packed : ℕ → ℕ → List ℕ → Packet
packed junk command body = record (allocated junk (request 0 command (length body))) {
  payload = header_bytes command (length body) ++ body;
  position = length (header_bytes command (length body) ++ body);
}

pub Writes-packed :
    (writer : H Packet (Unit {0})) (body : List ℕ) (junk command : ℕ)
    → Writes writer body
    → length body < 2 ^ 28
    → writer (allocated junk (request 0 command (length body))) ≡ ok tt (packed junk command body)
Writes-packed writer body junk command writes small =
    let q : Packet = request 0 command (length body) in
    let p : Packet = allocated junk q in
    let header : List ℕ = header_bytes command (length body) in
    let none_left : length body - length body ≡ 0 = omega arith in
    ap writer (allocated-buffer junk q)
    ∙ writes p junk header (length body)
        (omega (arith, allocated-packet_length junk q, remaining_bytes-short (length body) small))
        (omega (arith, allocated-packet_length junk q)) (omega arith)
    ∙ ap (λ n. ok tt (buffer p junk (header ++ body) n)) none_left
    ∙ ap (ok tt) (buffer-full p junk (header ++ body))

take-all : (n : ℕ) (xs : List ℕ) → n ≡ length xs → take n xs ≡ xs
take-all n xs h = rw h (take-length xs)

-- A filled packet that is queued is promised to the socket as it is.
pub packed-wire :
    (junk command : ℕ) (body : List ℕ) (c : Conn)
    → After
        (λ c'.
          c'.sent ++ pending c'
          ≡ (c.sent ++ pending c) ++ (header_bytes command (length body) ++ body))
        (packet_queue (packed junk command body) c)
packed-wire junk command body c =
    subst
      (λ bytes.
        After (λ c'. c'.sent ++ pending c' ≡ (c.sent ++ pending c) ++ bytes)
          (packet_queue (packed junk command body) c))
      (take-all _ (header_bytes command (length body) ++ body) (
        omega (
          arith,
          allocated-packet_length junk (request 0 command (length body)),
          length-append (header_bytes command (length body)) body,
        )))
      (packet_queue-Conserves (packed junk command body) c)

abbrev pub mid_bytes : ℕ → List ℕ
mid_bytes mid = msb mid ∷ lsb mid ∷ []

abbrev pub subscribe_bytes : ℕ → Text → ℕ → List ℕ
subscribe_bytes mid topic qos = mid_bytes mid ++ (string_bytes topic ++ qos ∷ [])

abbrev pub unsubscribe_bytes : ℕ → Text → List ℕ
unsubscribe_bytes mid topic = mid_bytes mid ++ string_bytes topic

write_subscribe-Writes :
    (mid : ℕ) (topic : Text) (qos : ℕ)
    → length topic < 2 ^ 16
    → Writes (write_subscribe mid topic qos) (subscribe_bytes mid topic qos)
unfolding write_subscribe
write_subscribe-Writes mid topic qos short =
    then-Writes (write_uint16 mid) _ (mid_bytes mid) (string_bytes topic ++ qos ∷ [])
      (write_uint16-Writes mid)
      (then-Writes (write_string topic (length topic)) (write_byte qos) (string_bytes topic)
        (qos ∷ []) (write_string-Writes topic short) (write_byte-Writes qos))

write_unsubscribe-Writes :
    (mid : ℕ) (topic : Text)
    → length topic < 2 ^ 16
    → Writes (write_unsubscribe mid topic) (unsubscribe_bytes mid topic)
unfolding write_unsubscribe
write_unsubscribe-Writes mid topic short =
    then-Writes (write_uint16 mid) (write_string topic (length topic)) (mid_bytes mid)
      (string_bytes topic) (write_uint16-Writes mid) (write_string-Writes topic short)

-- The identifier that the request takes, and the client then has as its last.
abbrev pub next_mid : Conn → ℕ
next_mid c = (state_of c (mid_generate c)).last_mid

-- While memory does not run out and for a subscription below 2 ^ 16 bytes, `_mosquitto_send_subscribe`
-- promises exactly the bytes of a SUBSCRIBE with the next identifier to the socket, behind all that was
-- promised before, whichever code it returns.
pub send_subscribe-wire :
    (topic : Text) (qos : ℕ) (c : Conn)
    → c.mem ≡ []
    → length topic < 2 ^ 16
    → After
        (λ c'.
          c'.sent ++ pending c'
          ≡ (c.sent ++ pending c)
            ++ (header_bytes 0x82 (5 + length topic) ++ subscribe_bytes (next_mid c) topic qos))
        (send_subscribe topic qos c)
unfolding send_subscribe mid_generate
send_subscribe-wire topic qos c memory short =
    let body : List ℕ = subscribe_bytes (next_mid c) topic qos in
    let size : 5 + length topic ≡ length body = omega (arith, length-append topic (qos ∷ [])) in
    let exact : wrap32 (5 + length topic) ≡ length body = omega (arith, size, short) in
    let small : length body < 2 ^ 28 = omega (arith, size, short) in
    rw
      (
        exact,
        size,
        must_malloc-none c memory,
        packet_alloc-none (request 0 0x82 (length body)) c memory small,
        Writes-packed (write_subscribe (next_mid c) topic qos) body c.junk 0x82
            (write_subscribe-Writes (next_mid c) topic qos short) small,
        filled_by,
      )
      (packed-wire c.junk 0x82 body (state_of c (mid_generate c)))

-- While memory does not run out and for a subscription below 2 ^ 16 bytes,
-- `_mosquitto_send_unsubscribe` promises exactly the bytes of an UNSUBSCRIBE with the next identifier to
-- the socket, behind all that was promised before, whichever code it returns.
pub send_unsubscribe-wire :
    (topic : Text) (c : Conn)
    → c.mem ≡ []
    → length topic < 2 ^ 16
    → After
        (λ c'.
          c'.sent ++ pending c'
          ≡ (c.sent ++ pending c)
            ++ (header_bytes 0xA2 (4 + length topic) ++ unsubscribe_bytes (next_mid c) topic))
        (send_unsubscribe topic c)
unfolding send_unsubscribe mid_generate
send_unsubscribe-wire topic c memory short =
    let body : List ℕ = unsubscribe_bytes (next_mid c) topic in
    let size : 4 + length topic ≡ length body = omega arith in
    let exact : wrap32 (4 + length topic) ≡ length body = omega (arith, size, short) in
    let small : length body < 2 ^ 28 = omega (arith, size, short) in
    rw
      (
        exact,
        size,
        must_malloc-none c memory,
        packet_alloc-none (request 0 0xA2 (length body)) c memory small,
        Writes-packed (write_unsubscribe (next_mid c) topic) body c.junk 0xA2
            (write_unsubscribe-Writes (next_mid c) topic short) small,
        filled_by,
      )
      (packed-wire c.junk 0xA2 body (state_of c (mid_generate c)))
