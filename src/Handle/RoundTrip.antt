-- ===== src/Handle/RoundTrip.antt =====
-- Reading back what `_mosquitto_send_real_publish` writes.
use moscapsule.Prelude.{
  ℕ, suc, ◌+◌, ◌/◌, ◌%◌, ◌≤◌, ◌<◌, ◌^◌, ◌≡◌, refl, sym, ap, subst, ◌∙◌, Bool, true, false,
  Bool-cases, inl, inr, List, [], ◌∷◌, ◌++◌, append_assoc, if◌then◌else◌, ◌==◌, ltb, length, lt→ltb,
  length-append, take-length, take-append, drop-append_more, get_elem?-append_more, arith,
}
use moscapsule.Types.{Text}
use moscapsule.Outcome.{ok, pure}
use moscapsule.Packet.{msb, lsb, require, copy_out, fetch, read_uint16, read_bytes}
use moscapsule.Packet.Writes.{string_bytes}
use moscapsule.Conn.{Conn, must_malloc}
use moscapsule.Net.{with_in}
use moscapsule.Send.{publish_command, mid_length}
use moscapsule.Send.Encoding.{publish_bytes, mid_bytes}
use moscapsule.Handle.{payload_length, on_in, c_string, read_string, read_rest, parse_publish}

-- The connection with the packet's cursor at a position.
seek : ℕ → Conn → Conn
seek n c = with_in (record (c.in_packet) { position = n }) c

seek-command : (n : ℕ) (c : Conn) → (seek n c).in_packet.command ≡ c.in_packet.command
unfolding seek
seek-command n c = refl

module _ (c : Conn) (body : List ℕ) (whole : c.in_packet.payload ≡ body)
    (counted : c.in_packet.remaining_length ≡ length body) (small : length body < 2 ^ 28)
    (memory : c.mem ≡ []) where
  malloc-seek : (a : ℕ) → must_malloc (seek a c) ≡ ok tt (seek a c)
  unfolding must_malloc seek
  malloc-seek a = ground arith

  require-seek : (a n : ℕ) → a + n ≤ length body → on_in (require n) (seek a c) ≡ ok tt (seek a c)
  unfolding require seek
  require-seek a n h = ground arith

  copy_out-seek :
      (a : ℕ) (front xs rest : List ℕ)
      → body ≡ front ++ (xs ++ rest)
      → a ≡ length front
      → on_in (copy_out (length xs)) (seek a c) ≡ ok xs (seek (a + length xs) c)
  unfolding copy_out seek
  copy_out-seek a front xs rest e h = ground (
    arith,
    drop-append_more front (xs ++ rest) a 0,
    take-append (length xs) xs rest refl,
    length-append front (xs ++ rest),
    length-append xs rest,
  )

  uint16-seek :
      (a word : ℕ) (front rest : List ℕ)
      → body ≡ front ++ (msb word ∷ lsb word ∷ rest)
      → a ≡ length front
      → word < 2 ^ 16
      → on_in read_uint16 (seek a c) ≡ ok word (seek (a + 2) c)
  unfolding read_uint16 require fetch seek
  uint16-seek a word front rest e h w = ground (
    arith,
    length-append front (msb word ∷ lsb word ∷ rest),
    get_elem?-append_more front (msb word ∷ lsb word ∷ rest) a 0,
    get_elem?-append_more front (msb word ∷ lsb word ∷ rest) (a + 1) 1,
  )

  read_string-seek :
      (a : ℕ) (front str rest : List ℕ)
      → body ≡ front ++ (string_bytes str ++ rest)
      → a ≡ length front
      → length str < 2 ^ 16
      → read_string (seek a c) ≡ ok (c_string str) (seek (a + 2 + length str) c)
  unfolding read_string
  read_string-seek a front str rest e h short =
      let head : List ℕ = front ++ msb (length str) ∷ lsb (length str) ∷ [] in
      let e' : body ≡ head ++ (str ++ rest) =
        e ∙ sym (append_assoc front (msb (length str) ∷ lsb (length str) ∷ []) (str ++ rest)) in
      let h' : a + 2 ≡ length head =
        omega (arith, length-append front (msb (length str) ∷ lsb (length str) ∷ [])) in
      let fits : a + 2 + length str ≤ length body =
        omega (arith, ap length e', length-append head (str ++ rest), length-append str rest) in
      rw (
        uint16-seek a (length str) front (str ++ rest) e h short,
        require-seek (a + 2) (length str) fits,
        malloc-seek (a + 2),
        copy_out-seek (a + 2) head str rest e' h',
      )

  read_mid-seek :
      (a mid qos : ℕ) (front rest : List ℕ)
      → body ≡ front ++ (mid_bytes mid qos ++ rest)
      → a ≡ length front
      → mid < 2 ^ 16
      → (if ltb 0 qos then on_in read_uint16 else pure 0) (seek a c)
        ≡ ok (if ltb 0 qos then mid else 0) (seek (a + mid_length qos) c)
  read_mid-seek a mid qos front rest e h w = elim (Bool-cases (ltb 0 qos)) [
    | inl t ↦ rw t (uint16-seek a mid front rest (rw t at e) h w)
    | inr t ↦ rw t (ap (λ n. ok 0 (seek n c)) (omega arith))
  ]

  payload_length-seek : (a n : ℕ) → a + n ≡ length body → payload_length (seek a c).in_packet ≡ n
  unfolding seek
  payload_length-seek a n h = omega (arith, counted)

  read_bytes-seek :
      (a : ℕ) (front xs : List ℕ)
      → body ≡ front ++ xs
      → a ≡ length front
      → on_in (read_bytes (length xs)) (seek a c) ≡ ok xs (seek (length body) c)
  unfolding read_bytes require copy_out seek
  read_bytes-seek a front xs e h =
      ground (arith, drop-append_more front xs a 0, take-length xs, length-append front xs)

  read_rest-seek :
      (a : ℕ) (front payload : List ℕ)
      → body ≡ front ++ payload
      → a ≡ length front
      → read_rest (seek a c) ≡ ok payload (seek (length body) c)
  read_rest-seek a front payload e h = go payload refl
    where
      n : payload_length (seek a c).in_packet ≡ length payload
      n =
          payload_length-seek a (length payload)
            (omega (arith, ap length e, length-append front payload))

      go : (xs : List ℕ) → payload ≡ xs → read_rest (seek a c) ≡ ok payload (seek (length body) c)
      go [] e' =
          rw (n, e')
            (ap (λ k. ok [] (seek k c))
              (omega (arith, ap length e, ap length e', length-append front payload)))
      go (x ∷ xs) e' =
          rw (n, e', lt→ltb 0 (suc (length xs)) (omega arith), malloc-seek a)
            (read_bytes-seek a front (x ∷ xs) (rw e' at e) h)

  -- The body of a PUBLISH gives back its fields.
  parse_publish-seek :
      (mid : ℕ) (topic payload : List ℕ) (qos : ℕ)
      → body ≡ publish_bytes mid topic payload qos
      → c.in_packet.command / 2 % 4 ≡ qos
      → length topic < 2 ^ 16
      → c_string topic ≡ topic
      → 0 < length topic
      → mid < 2 ^ 16
      → parse_publish (seek 0 c)
        ≡ ok
            (record {
              dup = c.in_packet.command / 8 % 2 == 1;
              msg = record {
                mid = if ltb 0 qos then mid else 0;
                topic = topic;
                payload = payload;
                qos = qos;
                retain = c.in_packet.command % 2 == 1;
              };
            })
            (seek (length body) c)
  unfolding parse_publish seek
  parse_publish-seek mid topic payload qos e q short text some_topic w =
      let front : List ℕ = string_bytes topic in
      let front' : List ℕ = front ++ mid_bytes mid qos in
      let e' : body ≡ front' ++ payload =
        e ∙ sym (append_assoc front (mid_bytes mid qos) payload) in
      let given : (length topic == 0) ≡ false = ground arith in
      let a : 2 + length topic + mid_length qos ≡ length front' =
        ground (arith, length-append front (mid_bytes mid qos)) in
      rw
        (
          seek-command 0 c,
          q,
          malloc-seek 0,
          read_string-seek 0 [] topic (mid_bytes mid qos ++ payload) e refl short,
          text,
          given,
          read_mid-seek (2 + length topic) mid qos front payload e (omega arith) w,
          read_rest-seek (2 + length topic + mid_length qos) front' payload e' a,
        )
        refl

-- A packet that has come in whole, as `_mosquitto_packet_read` hands it to the handlers.
pub record IsReceived (c : Conn) (command : ℕ) (body : List ℕ) : Type 0 where
  pub same_command : c.in_packet.command ≡ command
  pub whole : c.in_packet.payload ≡ body
  pub counted : c.in_packet.remaining_length ≡ length body
  pub at_start : c.in_packet.position ≡ 0
  pub small : length body < 2 ^ 28

-- A topic that C reads back: not empty, without a 0 byte, at most 65535 bytes long.
pub record IsTopic (topic : Text) : Type 0 where
  pub text : c_string topic ≡ topic
  pub some_byte : 0 < length topic
  pub short : length topic < 2 ^ 16

seek-start : (c : Conn) → c.in_packet.position ≡ 0 → c ≡ seek 0 c
unfolding seek
seek-start c h = ground arith

seek_lem :
    {A : Type 0} {a : A} (n : ℕ) (c : Conn)
    → ok a (seek n c) ≡ ok a (with_in (record (c.in_packet) { position = n }) c)
unfolding seek
seek_lem n c = refl

record Flags (dup : Bool) (qos : ℕ) (retain : Bool) (command : ℕ) : Type 0 where
  is_dup : (command / 8 % 2 == 1) ≡ dup
  is_qos : command / 2 % 4 ≡ qos
  is_retain : (command % 2 == 1) ≡ retain

-- The command byte shows the flags that it is made of.
publish_command-Flags :
    (dup : Bool) (qos : ℕ) (retain : Bool)
    → qos ≤ 2
    → Flags dup qos retain (publish_command dup qos retain)
publish_command-Flags false qos false h = ground arith
publish_command-Flags false qos true h = ground arith
publish_command-Flags true qos false h = ground arith
publish_command-Flags true qos true h = ground arith

-- When the variable header and payload that `_mosquitto_send_real_publish` writes come in behind its
-- command byte, in a body below 2 ^ 28 bytes with a topic that C reads back, an identifier below
-- 2 ^ 16 and a QoS up to 2, and memory does not run out, `_mosquitto_handle_publish` reads the same topic,
-- payload, QoS and flags, the same identifier (0 at QoS 0), and ends at the packet's end.
pub parse_publish-publish_bytes :
    (c : Conn) (mid : ℕ) (topic payload : List ℕ) (qos : ℕ) (dup retain : Bool)
    → IsReceived c (publish_command dup qos retain) (publish_bytes mid topic payload qos)
    → c.mem ≡ []
    → IsTopic topic
    → mid < 2 ^ 16
    → qos ≤ 2
    → parse_publish c
      ≡ ok
          (record {
            dup = dup;
            msg = record {
              mid = if ltb 0 qos then mid else 0;
              topic = topic;
              payload = payload;
              qos = qos;
              retain = retain;
            };
          })
          (with_in
            (record (c.in_packet) { position = length (publish_bytes mid topic payload qos) })
            c)
parse_publish-publish_bytes c mid topic payload qos dup retain r memory t w h =
    let f : Flags dup qos retain c.in_packet.command =
      subst (Flags dup qos retain) (sym r.same_command) (publish_command-Flags dup qos retain h) in
    ap parse_publish (seek-start c r.at_start)
    ∙ parse_publish-seek c _ r.whole r.counted r.small memory mid topic payload qos refl f.is_qos
        t.short t.text t.some_byte w
    ∙ rw (f.is_dup, f.is_retain) (seek_lem _ c)
