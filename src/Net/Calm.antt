-- ===== src/Net/Calm.antt =====
-- Sending leaves the packet that comes in alone, and at most closes the socket.
use moscapsule.Prelude.{
  sym, subst, ◌++◌, ap, ◌∙◌, ℕ, ◌≡◌, refl, ◌⊎◌, inl, inr, Bool, true, false, Bool-cases, Option,
  none, some, List, [], ◌∷◌, length, ◌==◌,
}
use Prim.Native.Nat.{min}
use moscapsule.Types.{Message, ClientState, connect_pending}
use moscapsule.Outcome.{Outcome, After, return_code-After, After-bind, After-weaken}
use moscapsule.Packet.{Packet, remaining_bytes}
use moscapsule.Conn.{
  Conn, Event, WriteEvent, accepts, write_fails, socket_close, notify, malloc, must_malloc,
  mid_generate, packet_alloc,
}
use moscapsule.Net.{
  Sent, whole, partial, send_loop, write_packets, take_packet, take_first, write_first, write_open,
  packet_write, packet_queue, writes_at_once, stop, stopped_code, queue_at, is_disconnect,
  is_publish_qos0, after_disconnect, after_packet, next_packet, sent_now, advance,
}
use moscapsule.Net.Receiving.{Receiving}

-- The reader may be called: there is no socket, or the packet is being received.
abbrev pub Receivable : Conn → Type 0
Receivable c = (c.sock ≡ none) ⊎ Receiving c.in_packet

-- The messages among the calls of the callbacks.
unfoldable pub delivered : List Event → List Message
delivered [] = []
delivered (Event.messages x ∷ es) = x ∷ delivered es
delivered (_ ∷ es) = delivered es

-- What the senders leave as it is: the packet that comes in, the socket and its TLS session
-- unless it is closed, and the
-- messages that were delivered, and which callbacks are set.
abbrev pub Quiet : Conn → Conn → Type 0
Quiet base c =
    (c.in_packet ≡ base.in_packet)
    × (((c.sock ≡ base.sock) × (c.ssl ≡ base.ssl)) ⊎ (c.sock ≡ none))
    × (delivered c.events ≡ delivered base.events)
    × (c.callbacks ≡ base.callbacks)

pub Quiet-refl : (c : Conn) → Quiet c c
Quiet-refl c = (refl, inl (refl, refl), refl, refl)

delivered-append :
    (es : List Event) (e : Event)
    → delivered (e ∷ []) ≡ []
    → delivered (es ++ e ∷ []) ≡ delivered es
unfolding delivered
delivered-append [] e h = h
delivered-append (Event.messages x ∷ es) e h = ap (◌∷◌ x) (delivered-append es e h)
delivered-append (Event.connects n ∷ es) e h = delivered-append es e h
delivered-append (Event.disconnects rc ∷ es) e h = delivered-append es e h
delivered-append (Event.publishes n ∷ es) e h = delivered-append es e h
delivered-append (Event.subscribes n qs ∷ es) e h = delivered-append es e h
delivered-append (Event.unsubscribes n ∷ es) e h = delivered-append es e h

module _ (base : Conn) where
  abbrev SentQuiet : Sent → Type 0
  SentQuiet (whole p c) = Quiet base c
  SentQuiet (partial p c) = Quiet base c

  send_loop-Quiet :
      (tape : List WriteEvent) (p : Packet) (c : Conn)
      → Quiet base c
      → SentQuiet (send_loop tape p c)
  unfolding send_loop
  send_loop-Quiet [] p c h = elim (Bool-cases (p.to_process == 0)) [
    | inl t ↦ rw t h
    | inr t ↦ rw t h
  ]
  send_loop-Quiet (accepts n ∷ tape) p c h = elim (Bool-cases (p.to_process == 0)) [
    | inl t ↦ rw (t, send_loop) h
    | inr t ↦ elim (Bool-cases (min n p.to_process == 0)) [
      | inl z ↦ rw (t, z, send_loop) h
      | inr z ↦ rw (t, z, send_loop) (send_loop-Quiet tape (advance (min n p.to_process) p) _ h)
    ]
  ]
  send_loop-Quiet (write_fails failure ∷ tape) p c h = elim (Bool-cases (p.to_process == 0)) [
    | inl t ↦ rw t h
    | inr t ↦ rw t h
  ]

  pub notify-Quiet :
      (set : Bool) (e : Event) (c : Conn)
      → delivered (e ∷ []) ≡ []
      → Quiet base c
      → Quiet base (notify set e c)
  notify-Quiet true e c q h = (h.0, h.1, delivered-append c.events e q ∙ h.2, h.3)
  notify-Quiet false e c q h = h

  after_disconnect-Quiet :
      (rest : List Packet) (c : Conn) → Quiet base c → Quiet base (after_disconnect rest c)
  unfolding socket_close delivered
  after_disconnect-Quiet [] c h = notify-Quiet c.on_disconnect _ _ refl (h.0, inr refl, h.2, h.3)
  after_disconnect-Quiet (p ∷ rest) c h =
      notify-Quiet c.on_disconnect _ _ refl (h.0, inr refl, h.2, h.3)

  after_packet-Quiet : (p : Packet) (c : Conn) → Quiet base c → Quiet base (after_packet p c)
  unfolding delivered
  after_packet-Quiet p c h = elim (Bool-cases (is_publish_qos0 p)) [
    | inl t ↦ rw t (notify-Quiet c.on_publish _ c refl h)
    | inr t ↦ rw t h
  ]

  stop-Quiet : (c : Conn) → Quiet base c → After (Quiet base) (stop tt c)
  stop-Quiet c h = return_code-After (Quiet base) (stopped_code c.err_no) tt c h

  write_packets-Quiet :
      (rest : List Packet) (p : Packet) (c : Conn)
      → Quiet base c
      → After (Quiet base) (write_packets rest p c)
  unfolding write_packets
  write_packets-Quiet [] p c h = go (send_loop c.writes p c) refl (send_loop-Quiet c.writes p c h)
    where
      go :
          (s : Sent)
          → send_loop c.writes p c ≡ s
          → SentQuiet s
          → After (Quiet base) (write_packets [] p c)
      go (partial p' c') e k = rw (e, write_packets) (stop-Quiet (queue_at (some p') [] c') k)
      go (whole p' c') e k = elim (Bool-cases (is_disconnect p')) [
        | inl t ↦ rw (e, t, write_packets) (after_disconnect-Quiet [] c' k)
        | inr t ↦ rw (e, t, write_packets) (after_packet-Quiet p' c' k)
      ]
  write_packets-Quiet (q ∷ rest) p c h =
      go (send_loop c.writes p c) refl (send_loop-Quiet c.writes p c h)
        (λ c' k. write_packets-Quiet rest q c' k)
    where
      go :
          (s : Sent)
          → send_loop c.writes p c ≡ s
          → SentQuiet s
          → ((c' : Conn) → Quiet base c' → After (Quiet base) (write_packets rest q c'))
          → After (Quiet base) (write_packets (q ∷ rest) p c)
      go (partial p' c') e k next =
          rw (e, write_packets) (stop-Quiet (queue_at (some p') (q ∷ rest) c') k)
      go (whole p' c') e k next = elim (Bool-cases (is_disconnect p')) [
        | inl t ↦ rw (e, t, write_packets) (after_disconnect-Quiet (q ∷ rest) c' k)
        | inr t ↦
            rw (e, t, write_packets)
              (next (sent_now (queue_at (some q) rest (after_packet p' c')))
                (after_packet-Quiet p' c' k))
      ]

  next_packet-Quiet :
      (rest : List Packet) (c : Conn) → Quiet base c → Quiet base (next_packet rest c)
  next_packet-Quiet [] c h = h
  next_packet-Quiet (p ∷ rest) c h = h

  pub packet_write-Quiet : (c : Conn) → Quiet base c → After (Quiet base) (packet_write c)
  unfolding packet_write
  packet_write-Quiet c h = opened c.sock c.state
    where
      taken : (o : Option Packet) → Quiet base (take_first o c)
      taken none = next_packet-Quiet c.out_packet c h
      taken (some p) = h

      current :
          (o : Option Packet) (d : Conn) → (Quiet base) d → After (Quiet base) (write_first o d)
      current none d k = k
      current (some p) d k = write_packets-Quiet d.out_packet p d k

      opened : (s : Option ℕ) (st : ClientState) → After (Quiet base) (write_open s st c)
      opened none st = h
      opened (some n) connect_pending = taken c.current_out_packet
      opened (some n) _ =
          current (take_packet c).current_out_packet (take_packet c) (taken c.current_out_packet)

  pub packet_queue-Quiet :
      (p : Packet) (c : Conn) → Quiet base c → After (Quiet base) (packet_queue p c)
  unfolding packet_queue
  packet_queue-Quiet p c h = elim (Bool-cases (writes_at_once c)) [
    | inl t ↦ rw (t, packet_queue) (packet_write-Quiet _ h)
    | inr t ↦ rw (t, packet_queue) h
  ]

  pub must_malloc-Quiet : (c : Conn) → Quiet base c → After (Quiet base) (must_malloc c)
  unfolding must_malloc malloc
  must_malloc-Quiet c h = go c.mem refl
    where
      go : (l : List Bool) → c.mem ≡ l → After (Quiet base) (must_malloc c)
      go [] e = rw (e, must_malloc) h
      go (true ∷ l) e = rw (e, must_malloc) h
      go (false ∷ l) e = rw (e, must_malloc) h

  pub packet_alloc-Quiet :
      (p : Packet) (c : Conn) → Quiet base c → After (Quiet base) (packet_alloc p c)
  unfolding packet_alloc
  packet_alloc-Quiet p c h =
      elim (Bool-cases (length (remaining_bytes 5 p.remaining_length) == 5)) [
        | inl t ↦ rw t h
        | inr t ↦
            rw t (After-bind (Quiet base) (must_malloc c) _ (must_malloc-Quiet c h) (λ _ c' k. k))
      ]

  pub mid_generate-Quiet : (c : Conn) → Quiet base c → After (Quiet base) (mid_generate c)
  unfolding mid_generate
  mid_generate-Quiet c h = h

pub Quiet-Receivable : (base c : Conn) → Receivable base → Quiet base c → Receivable c
Quiet-Receivable base c (inl e) q = elim q.1 [ inl s ↦ inl (s.0 ∙ e) | inr s ↦ inl s ]
Quiet-Receivable base c (inr r) q = inr (subst Receiving (sym q.0) r)

-- A quiet function leaves the reader callable.
pub After-Receivable :
    {A : Type 0} (c : Conn) (o : Outcome Conn A)
    → Receivable c
    → After (Quiet c) o
    → After Receivable o
After-Receivable c o h q = After-weaken (Quiet c) Receivable o q (λ d k. Quiet-Receivable c d h k)

pub notify-Receivable :
    (set : Bool) (e : Event) (c : Conn) → Receivable c → Receivable (notify set e c)
notify-Receivable true e c h = h
notify-Receivable false e c h = h

pub packet_write-Receivable : (c : Conn) → Receivable c → After Receivable (packet_write c)
packet_write-Receivable c h =
    After-Receivable c (packet_write c) h (packet_write-Quiet c c (Quiet-refl c))

pub must_malloc-Receivable : (c : Conn) → Receivable c → After Receivable (must_malloc c)
must_malloc-Receivable c h =
    After-Receivable c (must_malloc c) h (must_malloc-Quiet c c (Quiet-refl c))

pub mid_generate-Receivable : (c : Conn) → Receivable c → After Receivable (mid_generate c)
mid_generate-Receivable c h =
    After-Receivable c (mid_generate c) h (mid_generate-Quiet c c (Quiet-refl c))
