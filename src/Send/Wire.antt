-- ===== src/Send/Wire.antt =====
-- What the senders put on the wire, and that they end.
use moscapsule.Prelude.{
  ℕ, ◌≤◌, ◌<◌, ◌^◌, ◌≡◌, refl, sym, ap, subst, if◌then◌else◌, ◌∙◌, Bool, true, false, Option, none,
  some, List, [], ◌∷◌, ◌++◌, ◌==◌, length, take, length-append, take-length, arith,
}
use native.Mathlib.Decide.{dec_lt}
use moscapsule.Types.{Text, payload_size, no_conn}
use moscapsule.Outcome.{ok, err, bind, ◌>>◌, Ends, After, Holds, Holds-bind, Ends-bind, After-Ends}
use moscapsule.Packet.{Packet, allocated, remaining_bytes, zeroed, wrap32, store_at, msb, lsb}
use moscapsule.Packet.Length.{remaining_bytes-short, remaining_bytes-full}
use moscapsule.Packet.Writes.{string_bytes}
use moscapsule.Conn.{Conn, must_malloc, packet_alloc}
use moscapsule.Net.{packet_queue}
use moscapsule.Net.Sending.{pending, packet_queue-Conserves}
use moscapsule.Send.{
  request, filled_by, set_dup, publish_command, publish_length, send_real_publish, send_publish,
  send_command_with_mid, send_simple_command,
}
use moscapsule.Send.Encoding.{
  publish_bytes, mid_bytes, publish_packet, write_publish-allocated, allocated-packet_length,
}

pub packet_queue-Ends : (p : Packet) (c : Conn) → Ends (packet_queue p c)
packet_queue-Ends p c = After-Ends _ (packet_queue p c) (packet_queue-Conserves p c)

-- `malloc` takes one answer and changes nothing else.
abbrev pub SameIn : Conn → Conn → Type 0
SameIn c c' = c'.in_packet ≡ c.in_packet

pub must_malloc-Holds : (c : Conn) → Holds (λ _ c'. SameIn c c') (must_malloc c)
unfolding must_malloc
must_malloc-Holds c = go c.mem refl
  where
    go : (l : List Bool) → c.mem ≡ l → Holds (λ _ c'. SameIn c c') (must_malloc c)
    go [] e = rw e refl
    go (true ∷ l) e = rw e refl
    go (false ∷ l) e = rw e tt

pub must_malloc-none : (c : Conn) → c.mem ≡ [] → must_malloc c ≡ ok tt c
unfolding must_malloc
must_malloc-none c h = ground arith

pub packet_alloc-none :
    (p : Packet) (c : Conn)
    → c.mem ≡ []
    → p.remaining_length < 2 ^ 28
    → packet_alloc p c ≡ ok (allocated c.junk p) c
unfolding packet_alloc
packet_alloc-none p c h small =
    let few : (length (remaining_bytes 5 p.remaining_length) == 5) ≡ false =
      ground (arith, remaining_bytes-short p.remaining_length) in
    rw (few, must_malloc-none c h)

pub packet_alloc-large :
    (p : Packet) (c : Conn) → 2 ^ 28 ≤ p.remaining_length → packet_alloc p c ≡ err payload_size c
unfolding packet_alloc
packet_alloc-large p c large =
    let five : (length (remaining_bytes 5 p.remaining_length) == 5) ≡ true =
      ground (arith, remaining_bytes-full p.remaining_length) in
    rw five

-- A packet is allocated for less than 2 ^ 28 bytes, or refused.
pub packet_alloc-Holds :
    (p : Packet) (c : Conn)
    → Holds (λ p' c'. (p' ≡ allocated c'.junk p) × (p.remaining_length < 2 ^ 28)) (packet_alloc p c)
unfolding packet_alloc
packet_alloc-Holds p c = elim (dec_lt p.remaining_length (2 ^ 28)) [
  | yes small ↦
      let few : (length (remaining_bytes 5 p.remaining_length) == 5) ≡ false =
        ground (arith, remaining_bytes-short p.remaining_length) in
      rw few (
        Holds-bind (λ _ c'. SameIn c c') _ (must_malloc c) _ (must_malloc-Holds c)
          (λ _ c' _. (refl, small)))
  | no large ↦
      let five : (length (remaining_bytes 5 p.remaining_length) == 5) ≡ true =
        ground (arith, remaining_bytes-full p.remaining_length) in
      rw five tt
]

-- An acknowledgement: the two bytes are in the block, and they are its last.
pub stored-mid :
    (junk command high low : ℕ)
    → (do store_at 0 high; store_at 1 low) (allocated junk (request 0 command 2))
      ≡ ok tt (record (allocated junk (request 0 command 2)) {
        payload = command ∷ 2 ∷ high ∷ low ∷ [];
      })
unfolding allocated remaining_bytes store_at zeroed
stored-mid junk command high low = refl

-- The senders of commands end, with whatever code.
pub send_command_with_mid-Ends :
    (command mid : ℕ) (dup : Bool) (c : Conn) → Ends (send_command_with_mid command mid dup c)
unfolding send_command_with_mid
send_command_with_mid-Ends command mid dup c =
    Ends-bind _ (must_malloc c) _ (must_malloc-Holds c) λ _ c' _.
      Ends-bind _ (packet_alloc _ c') _ (packet_alloc-Holds _ c') λ p c'' e.
        subst
          (λ q. Ends (
            bind (filled_by (do store_at 0 (msb mid); store_at 1 (lsb mid)) q c'')
              (λ p'. packet_queue p')))
          (sym e.0)
          (rw
            (
              stored-mid c''.junk (if dup then set_dup command else command) (msb mid) (lsb mid),
              filled_by,
            )
            (packet_queue-Ends _ c''))

pub send_simple_command-Ends : (command : ℕ) (c : Conn) → Ends (send_simple_command command c)
unfolding send_simple_command
send_simple_command-Ends command c = Ends-bind _ (must_malloc c) _ (must_malloc-Holds c) λ _ c' _.
    Ends-bind _ (packet_alloc _ c') _ (packet_alloc-Holds _ c') λ p c'' _. packet_queue-Ends p c''

-- A topic that MQTT can carry, and a payload within MQTT_MAX_PAYLOAD.
pub record Fits (topic : Text) (payload : List ℕ) : Type 0 where
  pub short : length topic < 2 ^ 16
  pub small : length payload < 2 ^ 28

pub send_real_publish-Ends :
    (mid : ℕ) (topic : Text) (payload : List ℕ) (qos : ℕ) (retain dup : Bool) (c : Conn)
    → Fits topic payload
    → Ends (send_real_publish mid topic payload qos retain dup c)
unfolding send_real_publish
send_real_publish-Ends mid topic payload qos retain dup c f =
    Ends-bind _ (must_malloc c) _ (must_malloc-Holds c) λ _ c' _.
      Ends-bind _ (packet_alloc (request mid command (wrap32 n)) c') _
        (packet_alloc-Holds (request mid command (wrap32 n)) c')
        λ p c'' h.
          let e : p ≡ allocated c''.junk (request mid command n) =
            h.0 ∙ ap (λ k. allocated c''.junk (request mid command k)) exact in
          rw
            (
              e,
              write_publish-allocated c''.junk command mid topic payload qos f.short
                  (subst (λ k. k < 2 ^ 28) exact h.1),
              filled_by,
            )
            (packet_queue-Ends (publish_packet c''.junk command mid topic payload qos) c'')
  where
    n : ℕ
    n = publish_length topic qos payload

    command : ℕ
    command = publish_command dup qos retain

    exact : wrap32 n ≡ n
    exact = ground arith

pub send_publish-Ends :
    (mid : ℕ) (topic : Text) (payload : List ℕ) (qos : ℕ) (retain dup : Bool) (c : Conn)
    → Fits topic payload
    → Ends (send_publish mid topic payload qos retain dup c)
unfolding send_publish
send_publish-Ends mid topic payload qos retain dup c f = go c.sock refl
  where
    go : (s : Option ℕ) → c.sock ≡ s → Ends (send_publish mid topic payload qos retain dup c)
    go none e = rw e tt
    go (some n) e = rw e (send_real_publish-Ends mid topic payload qos retain dup _ f)

-- The bytes of a PUBLISH on the wire: command, remaining length, variable header, payload.
abbrev pub publish_wire : ℕ → Text → List ℕ → ℕ → Bool → Bool → List ℕ
publish_wire mid topic payload qos retain dup =
    (publish_command dup qos retain ∷ remaining_bytes 5 (publish_length topic qos payload))
    ++ publish_bytes mid topic payload qos

publish_length-exact :
    (topic : Text) (qos : ℕ) (payload : List ℕ)
    → Fits topic payload
    → wrap32 (publish_length topic qos payload) ≡ publish_length topic qos payload
publish_length-exact topic qos payload f = ground arith

-- With memory, the packet that is queued.
send_real_publish-none :
    (mid : ℕ) (topic : Text) (payload : List ℕ) (qos : ℕ) (retain dup : Bool) (c : Conn)
    → c.mem ≡ []
    → Fits topic payload
    → publish_length topic qos payload < 2 ^ 28
    → send_real_publish mid topic payload qos retain dup c
      ≡ packet_queue
          (publish_packet c.junk (publish_command dup qos retain) mid topic payload qos)
          c
unfolding send_real_publish
send_real_publish-none mid topic payload qos retain dup c memory f small =
    let command : ℕ = publish_command dup qos retain in
    rw (
      publish_length-exact topic qos payload f,
      must_malloc-none c memory,
      packet_alloc-none (request mid command (publish_length topic qos payload)) c memory small,
      write_publish-allocated c.junk command mid topic payload qos f.short small,
      filled_by,
    )

send_real_publish-large :
    (mid : ℕ) (topic : Text) (payload : List ℕ) (qos : ℕ) (retain dup : Bool) (c : Conn)
    → c.mem ≡ []
    → Fits topic payload
    → 2 ^ 28 ≤ publish_length topic qos payload
    → send_real_publish mid topic payload qos retain dup c ≡ err payload_size c
unfolding send_real_publish
send_real_publish-large mid topic payload qos retain dup c memory f large =
    let command : ℕ = publish_command dup qos retain in
    rw (
      publish_length-exact topic qos payload f,
      must_malloc-none c memory,
      packet_alloc-large (request mid command (publish_length topic qos payload)) c large,
    )

take-length_eq : (n : ℕ) (xs : List ℕ) → n ≡ length xs → take n xs ≡ xs
take-length_eq n xs h = rw h (take-length xs)

-- The block is written from end to end.
publish_packet-whole :
    (junk command mid : ℕ) (topic : Text) (payload : List ℕ) (qos : ℕ)
    → let p = publish_packet junk command mid topic payload qos in
      take p.packet_length p.payload ≡ p.payload
publish_packet-whole junk command mid topic payload qos =
    let n : ℕ = publish_length topic qos payload in
    let bytes : List ℕ = publish_bytes mid topic payload qos in
    take-length_eq _ ((command ∷ remaining_bytes 5 n) ++ bytes) (
      ground (
        arith,
        allocated-packet_length junk (request mid command n),
        length-append (command ∷ remaining_bytes 5 n) bytes,
        length-append (string_bytes topic) (mid_bytes mid qos ++ payload),
        length-append (mid_bytes mid qos) payload,
      ))

pub send_publish-shut :
    (mid : ℕ) (topic : Text) (payload : List ℕ) (qos : ℕ) (retain dup : Bool) (c : Conn)
    → c.sock ≡ none
    → send_publish mid topic payload qos retain dup c ≡ err no_conn c
unfolding send_publish
send_publish-shut mid topic payload qos retain dup c e = ground arith

pub send_publish-open :
    (mid : ℕ) (topic : Text) (payload : List ℕ) (qos : ℕ) (retain dup : Bool) (c : Conn) (s : ℕ)
    → c.sock ≡ some s
    → send_publish mid topic payload qos retain dup c
      ≡ send_real_publish mid topic payload qos retain dup c
unfolding send_publish
send_publish-open mid topic payload qos retain dup c s e = ground arith

-- On a connected client, while memory does not run out and for a topic below 2 ^ 16 and a payload
-- below 2 ^ 28 bytes: where the packet's length is below 2 ^ 28, `_mosquitto_send_publish` promises
-- exactly the bytes of the PUBLISH to the socket, behind all that was promised before, whichever code
-- it returns.
pub send_publish-wire :
    (mid : ℕ) (topic : Text) (payload : List ℕ) (qos : ℕ) (retain dup : Bool) (c : Conn) (s : ℕ)
    → c.sock ≡ some s
    → c.mem ≡ []
    → Fits topic payload
    → publish_length topic qos payload < 2 ^ 28
    → After
        (λ c'.
          c'.sent ++ pending c'
          ≡ (c.sent ++ pending c) ++ publish_wire mid topic payload qos retain dup)
        (send_publish mid topic payload qos retain dup c)
send_publish-wire mid topic payload qos retain dup c s open_ memory f small =
    let p : Packet = publish_packet c.junk (publish_command dup qos retain) mid topic payload qos in
    rw
      (
        send_publish-open mid topic payload qos retain dup c s open_,
        send_real_publish-none mid topic payload qos retain dup c memory f small,
      )
      (subst
        (λ bytes.
          After (λ c'. c'.sent ++ pending c' ≡ (c.sent ++ pending c) ++ bytes) (packet_queue p c))
        (publish_packet-whole c.junk (publish_command dup qos retain) mid topic payload qos)
        (packet_queue-Conserves p c))

-- On a connected client, while memory does not run out and for a topic below 2 ^ 16 and a payload
-- below 2 ^ 28 bytes: a packet of 2 ^ 28 bytes or more is refused with MOSQ_ERR_PAYLOAD_SIZE, and the
-- connection is what it was.
pub send_publish-too_large :
    (mid : ℕ) (topic : Text) (payload : List ℕ) (qos : ℕ) (retain dup : Bool) (c : Conn) (s : ℕ)
    → c.sock ≡ some s
    → c.mem ≡ []
    → Fits topic payload
    → 2 ^ 28 ≤ publish_length topic qos payload
    → send_publish mid topic payload qos retain dup c ≡ err payload_size c
send_publish-too_large mid topic payload qos retain dup c s open_ memory f large = rw (
  send_publish-open mid topic payload qos retain dup c s open_,
  send_real_publish-large mid topic payload qos retain dup c memory f large,
)
