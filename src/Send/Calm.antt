-- ===== src/Send/Calm.antt =====
-- The senders end, and leave the packet that comes in alone.
use moscapsule.Prelude.{
  ℕ, ◌+◌, ◌<◌, ◌^◌, ◌≡◌, refl, sym, subst, Bool, Bool-cases, inl, inr, Option, none, some, List,
  length, ltb, if◌then◌else◌, arith,
}
use moscapsule.Types.{Text}
use moscapsule.Outcome.{
  Outcome, H, ok, err, crash, bind, ◌>>◌, After, Holds, After-bind, After-Holds-bind, Holds-bind,
  Holds-weaken,
}
use moscapsule.Packet.{
  Packet, allocated, store_at, msb, lsb, wrap32, write_uint16, write_string, write_byte,
}
use moscapsule.Packet.Room.{
  Room, Room-weaken, write_byte-Room, write_bytes-Room, write_uint16-Room, write_string-Room,
  allocated-Room,
}
use moscapsule.Conn.{Conn, must_malloc, packet_alloc, mid_generate}
use moscapsule.Net.Calm.{
  Receivable, After-Receivable, Quiet-refl, Quiet, packet_queue-Quiet, must_malloc-Quiet,
  packet_alloc-Quiet, mid_generate-Quiet,
}
use moscapsule.Send.{
  request, filled_by, send_command_with_mid, send_simple_command, send_pingreq, send_real_publish,
  send_publish, write_publish, write_mid, write_payload, mid_length, publish_length,
  publish_command, write_subscribe, send_subscribe, write_unsubscribe, send_unsubscribe, set_dup,
}
use moscapsule.Send.Wire.{
  Fits, packet_alloc-Holds, stored-mid, send_publish-open, send_publish-shut,
}

module _ (base : Conn) where
  -- Filling a packet that has room for what is written.
  pub filled_by-Quiet :
      (writer : H Packet (Unit {0})) (p : Packet) (c : Conn)
      → Holds (λ _ _. Unit {0}) (writer p)
      → Quiet base c
      → After (Quiet base) (filled_by writer p c)
  filled_by-Quiet writer p c e h = go (writer p) refl e
    where
      go :
          (o : Outcome Packet (Unit {0}))
          → writer p ≡ o
          → Holds (λ _ _. Unit {0}) o
          → After (Quiet base) (filled_by writer p c)
      go (ok a p') q k = rw (q, filled_by) h
      go (err rc p') q k = rw (q, filled_by) h
      go crash q k = absurd k

  -- A packet is allocated, filled within its room, and queued.
  pub made-Quiet :
      (p : Packet) (k : Packet → H Conn (Unit {0})) (c : Conn)
      → Quiet base c
      → ((p' : Packet) (c' : Conn)
          → Room p.remaining_length p'
          → Quiet base c'
          → After (Quiet base) (k p' c'))
      → After (Quiet base) (bind (packet_alloc p c) k)
  made-Quiet p k c h next =
      After-Holds-bind (Quiet base) (λ p' _. Room p.remaining_length p') (packet_alloc p c) k
        (packet_alloc-Quiet base p c h)
        (Holds-weaken _ _ (packet_alloc p c) (packet_alloc-Holds p c)
          (λ p' c' e. subst (Room p.remaining_length) (sym e.0) (allocated-Room c'.junk p e.1)))
        (λ p' c' r m. next p' c' m r)

  pub send_command_with_mid-Quiet :
      (command mid : ℕ) (dup : Bool) (c : Conn)
      → Quiet base c
      → After (Quiet base) (send_command_with_mid command mid dup c)
  unfolding send_command_with_mid
  send_command_with_mid-Quiet command mid dup c h =
      After-bind (Quiet base) (must_malloc c) _ (must_malloc-Quiet base c h) λ _ c1 h1.
        let p : Packet = request 0 (if dup then set_dup command else command) 2 in
        After-Holds-bind (Quiet base) (λ q c2. q ≡ allocated c2.junk p) (packet_alloc p c1) _
          (packet_alloc-Quiet base p c1 h1)
          (Holds-weaken _ _ (packet_alloc p c1) (packet_alloc-Holds p c1) (λ q c2 e. e.0))
          λ q c2 h2 e.
            After-bind (Quiet base) (filled_by (do store_at 0 (msb mid); store_at 1 (lsb mid)) q c2)
              _
              (filled_by-Quiet (do store_at 0 (msb mid); store_at 1 (lsb mid)) q c2
                (subst
                  (λ q. Holds (λ _ _. Unit {0}) ((do store_at 0 (msb mid); store_at 1 (lsb mid)) q))
                  (sym e) (rw (stored-mid c2.junk p.command (msb mid) (lsb mid)) tt))
                h2)
              (λ p' c3 h3. packet_queue-Quiet base p' c3 h3)

  pub send_simple_command-Quiet :
      (command : ℕ) (c : Conn) → Quiet base c → After (Quiet base) (send_simple_command command c)
  unfolding send_simple_command
  send_simple_command-Quiet command c h =
      After-bind (Quiet base) (must_malloc c) _ (must_malloc-Quiet base c h) λ _ c1 h1.
        made-Quiet (request 0 command 0) _ c1 h1 (λ p c2 _ h2. packet_queue-Quiet base p c2 h2)

  pub send_pingreq-Quiet : (c : Conn) → Quiet base c → After (Quiet base) (send_pingreq c)
  unfolding send_pingreq
  send_pingreq-Quiet c h =
      After-bind (Quiet base) (send_simple_command 0xC0 c) _ (send_simple_command-Quiet 0xC0 c h)
        (λ _ c' k. k)

  write_mid-Room :
      (mid qos n : ℕ) (p : Packet)
      → Room (mid_length qos + n) p
      → Holds (λ _ p'. Room n p') (write_mid mid qos p)
  write_mid-Room mid qos n p r = elim (Bool-cases (ltb 0 qos)) [
    | inl t ↦ rw t (
        write_uint16-Room mid n p
          (Room-weaken (2 + n) (mid_length qos + n) p (ground (arith, t)) r))
    | inr t ↦ rw t (Room-weaken n (mid_length qos + n) p (omega arith) r)
  ]

  write_payload-Room :
      (payload : List ℕ) (p : Packet)
      → Room (length payload + 0) p
      → Holds (λ _ p'. Room 0 p') (write_payload payload p)
  write_payload-Room payload p r = elim (Bool-cases (ltb 0 (length payload))) [
    | inl t ↦ rw t (write_bytes-Room payload (length payload) 0 p r)
    | inr t ↦ rw t (Room-weaken 0 (length payload + 0) p (omega arith) r)
  ]

  write_publish-Ends :
      (mid : ℕ) (topic payload : List ℕ) (qos : ℕ) (p : Packet)
      → Room (publish_length topic qos payload) p
      → Holds (λ _ _. Unit {0}) (write_publish mid topic payload qos p)
  unfolding write_publish
  write_publish-Ends mid topic payload qos p r =
      let n : ℕ = length payload + 0 in
      Holds-bind (λ _ p'. Room (mid_length qos + n) p') _ (write_string topic (length topic) p) _
        (write_string-Room topic (length topic) (mid_length qos + n) p
          (Room-weaken _ (publish_length topic qos payload) p (omega arith) r))
        λ _ p1 r1.
          Holds-bind (λ _ p'. Room n p') _ (write_mid mid qos p1) _ (write_mid-Room mid qos n p1 r1)
            λ _ p2 r2.
              Holds-weaken _ _ (write_payload payload p2) (write_payload-Room payload p2 r2)
                (λ _ _ _. tt)

  send_real_publish-Quiet :
      (mid : ℕ) (topic payload : List ℕ) (qos : ℕ) (retain dup : Bool) (c : Conn)
      → Fits topic payload
      → Quiet base c
      → After (Quiet base) (send_real_publish mid topic payload qos retain dup c)
  unfolding send_real_publish
  send_real_publish-Quiet mid topic payload qos retain dup c f h =
      let n : ℕ = publish_length topic qos payload in
      After-bind (Quiet base) (must_malloc c) _ (must_malloc-Quiet base c h) λ _ c1 h1.
        made-Quiet (request mid (publish_command dup qos retain) (wrap32 n)) _ c1 h1 λ p c2 r h2.
          After-bind (Quiet base) (filled_by (write_publish mid topic payload qos) p c2) _
            (filled_by-Quiet (write_publish mid topic payload qos) p c2
              (write_publish-Ends mid topic payload qos p
                (Room-weaken n (wrap32 n) p (ground (arith, f.short, f.small)) r))
              h2)
            (λ p' c3 h3. packet_queue-Quiet base p' c3 h3)

  pub send_publish-Quiet :
      (mid : ℕ) (topic payload : List ℕ) (qos : ℕ) (retain dup : Bool) (c : Conn)
      → Fits topic payload
      → Quiet base c
      → After (Quiet base) (send_publish mid topic payload qos retain dup c)
  send_publish-Quiet mid topic payload qos retain dup c f h = go c.sock refl
    where
      go :
          (s : Option ℕ)
          → c.sock ≡ s
          → After (Quiet base) (send_publish mid topic payload qos retain dup c)
      go none e =
          subst (After (Quiet base)) (sym (send_publish-shut mid topic payload qos retain dup c e))
            h
      go (some n) e =
          subst (After (Quiet base))
            (sym (send_publish-open mid topic payload qos retain dup c n e))
            (send_real_publish-Quiet mid topic payload qos retain dup c f h)

  write_subscribe-Ends :
      (mid : ℕ) (topic : Text) (qos : ℕ) (p : Packet)
      → Room (5 + length topic) p
      → Holds (λ _ _. Unit {0}) (write_subscribe mid topic qos p)
  unfolding write_subscribe
  write_subscribe-Ends mid topic qos p r =
      Holds-bind (λ _ p'. Room (2 + length topic + 1) p') _ (write_uint16 mid p) _
        (write_uint16-Room mid (2 + length topic + 1) p
          (Room-weaken _ (5 + length topic) p (omega arith) r))
        λ _ p1 r1.
          Holds-bind (λ _ p'. Room 1 p') _ (write_string topic (length topic) p1) _
            (write_string-Room topic (length topic) 1 p1 r1)
            λ _ p2 r2.
              Holds-weaken _ _ (write_byte qos p2)
                (write_byte-Room qos 0 p2 (Room-weaken (1 + 0) 1 p2 (omega arith) r2)) (λ _ _ _. tt)

  pub send_subscribe-Quiet :
      (topic : Text) (qos : ℕ) (c : Conn)
      → length topic < 2 ^ 16
      → Quiet base c
      → After (Quiet base) (send_subscribe topic qos c)
  unfolding send_subscribe
  send_subscribe-Quiet topic qos c f h =
      After-bind (Quiet base) (must_malloc c) _ (must_malloc-Quiet base c h) λ _ c1 h1.
        made-Quiet (request 0 0x82 (wrap32 (5 + length topic))) _ c1 h1 λ p c2 r h2.
          After-bind (Quiet base) (mid_generate c2) _ (mid_generate-Quiet base c2 h2) λ mid c3 h3.
            After-bind (Quiet base) (filled_by (write_subscribe mid topic qos) p c3) _
              (filled_by-Quiet (write_subscribe mid topic qos) p c3
                (write_subscribe-Ends mid topic qos p (
                  Room-weaken (5 + length topic) (wrap32 (5 + length topic)) p (omega (arith, f))
                    r))
                h3)
              (λ p' c4 h4. packet_queue-Quiet base p' c4 h4)

  write_unsubscribe-Ends :
      (mid : ℕ) (topic : Text) (p : Packet)
      → Room (4 + length topic) p
      → Holds (λ _ _. Unit {0}) (write_unsubscribe mid topic p)
  unfolding write_unsubscribe
  write_unsubscribe-Ends mid topic p r =
      Holds-bind (λ _ p'. Room (2 + length topic + 0) p') _ (write_uint16 mid p) _
        (write_uint16-Room mid (2 + length topic + 0) p
          (Room-weaken _ (4 + length topic) p (omega arith) r))
        λ _ p1 r1.
          Holds-weaken _ _ (write_string topic (length topic) p1)
            (write_string-Room topic (length topic) 0 p1 r1) (λ _ _ _. tt)

  pub send_unsubscribe-Quiet :
      (topic : Text) (c : Conn)
      → length topic < 2 ^ 16
      → Quiet base c
      → After (Quiet base) (send_unsubscribe topic c)
  unfolding send_unsubscribe
  send_unsubscribe-Quiet topic c f h =
      After-bind (Quiet base) (must_malloc c) _ (must_malloc-Quiet base c h) λ _ c1 h1.
        made-Quiet (request 0 0xA2 (wrap32 (4 + length topic))) _ c1 h1 λ p c2 r h2.
          After-bind (Quiet base) (mid_generate c2) _ (mid_generate-Quiet base c2 h2) λ mid c3 h3.
            After-bind (Quiet base) (filled_by (write_unsubscribe mid topic) p c3) _
              (filled_by-Quiet (write_unsubscribe mid topic) p c3
                (write_unsubscribe-Ends mid topic p (
                  Room-weaken (4 + length topic) (wrap32 (4 + length topic)) p (omega (arith, f))
                    r))
                h3)
              (λ p' c4 h4. packet_queue-Quiet base p' c4 h4)

-- So the reader may still be called.
pub send_command_with_mid-Receivable :
    (command mid : ℕ) (dup : Bool) (c : Conn)
    → Receivable c
    → After Receivable (send_command_with_mid command mid dup c)
send_command_with_mid-Receivable command mid dup c h =
    After-Receivable c _ h (send_command_with_mid-Quiet c command mid dup c (Quiet-refl c))

pub send_simple_command-Receivable :
    (command : ℕ) (c : Conn) → Receivable c → After Receivable (send_simple_command command c)
send_simple_command-Receivable command c h =
    After-Receivable c _ h (send_simple_command-Quiet c command c (Quiet-refl c))

pub send_pingreq-Receivable : (c : Conn) → Receivable c → After Receivable (send_pingreq c)
send_pingreq-Receivable c h = After-Receivable c _ h (send_pingreq-Quiet c c (Quiet-refl c))

pub send_publish-Receivable :
    (mid : ℕ) (topic payload : List ℕ) (qos : ℕ) (retain dup : Bool) (c : Conn)
    → Fits topic payload
    → Receivable c
    → After Receivable (send_publish mid topic payload qos retain dup c)
send_publish-Receivable mid topic payload qos retain dup c f h =
    After-Receivable c _ h
      (send_publish-Quiet c mid topic payload qos retain dup c f (Quiet-refl c))

pub send_subscribe-Receivable :
    (topic : Text) (qos : ℕ) (c : Conn)
    → length topic < 2 ^ 16
    → Receivable c
    → After Receivable (send_subscribe topic qos c)
send_subscribe-Receivable topic qos c f h =
    After-Receivable c _ h (send_subscribe-Quiet c topic qos c f (Quiet-refl c))

pub send_unsubscribe-Receivable :
    (topic : Text) (c : Conn)
    → length topic < 2 ^ 16
    → Receivable c
    → After Receivable (send_unsubscribe topic c)
send_unsubscribe-Receivable topic c f h =
    After-Receivable c _ h (send_unsubscribe-Quiet c topic c f (Quiet-refl c))
