-- ===== src/Net/Draining.antt =====
-- A socket that takes bytes gets all of them.
use moscapsule.Prelude.{
  ℕ, suc, ◌+◌, ◌≤◌, ◌≡◌, refl, sym, subst, Bool, true, false, Bool-cases, inl, inr, Option, none,
  some, List, [], ◌∷◌, ◌++◌, append-nil, All, length, ◌==◌, arith,
}
use Prim.Native.Nat.{min}
use moscapsule.Types.{connected}
use moscapsule.Outcome.{Outcome, ok, err, crash, After}
use moscapsule.Packet.{Packet}
use moscapsule.Conn.{Conn, WriteEvent, accepts, write_fails, publishes, notify}
use moscapsule.Net.{
  Sent, whole, partial, send_loop, write_packets, write_first, write_open, write_current,
  take_packet, take_first, next_packet, packet_write, is_disconnect, is_publish_qos0, after_packet,
  advance, queue_at, sent_now,
}
use moscapsule.Net.Sending.{pending, packet_write-Conserves}

-- A write that takes a byte at least.
abbrev pub Takes : WriteEvent → Type 0
Takes (accepts n) = 1 ≤ n
Takes (write_fails failure) = ⊥

abbrev pub IsOpen : Packet → Type 0
IsOpen p = is_disconnect p ≡ false

abbrev pub total : List Packet → ℕ
total [] = 0
total (p ∷ ps) = p.to_process + total ps

-- The packets that wait, the one at hand first.
abbrev pub packets : Option Packet → List Packet → List Packet
packets none rest = rest
packets (some p) rest = p ∷ rest

-- The packet is sent with as many answers as it has bytes, at most.
abbrev SentWithin : ℕ → Packet → Sent → Type 0
SentWithin n p (partial p' c) = ⊥
SentWithin n p (whole p' c) =
    (p'.command ≡ p.command) × All Takes c.writes × (n ≤ length c.writes + p.to_process)

SentWithin-step :
    (n k : ℕ) (p : Packet) (s : Sent)
    → 1 ≤ k
    → k ≤ p.to_process
    → SentWithin n (advance k p) s
    → SentWithin (suc n) p s
SentWithin-step n k p (partial p' c) h l w = w
SentWithin-step n k p (whole p' c) h l w = (w.0, w.1, omega (arith, h, l, w.2))

send_loop-SentWithin :
    (tape : List WriteEvent) (p : Packet) (c : Conn)
    → All Takes tape
    → p.to_process ≤ length tape
    → SentWithin (length tape) p (send_loop tape p c)
unfolding send_loop
send_loop-SentWithin [] p c h l =
    let t : (p.to_process == 0) ≡ true = ground (arith, l) in rw t (refl, tt, omega arith)
send_loop-SentWithin (write_fails failure ∷ tape) p c h l = absurd h.0
send_loop-SentWithin (accepts n ∷ tape) p c h l = elim (Bool-cases (p.to_process == 0)) [
  | inl t ↦ rw (t, send_loop) (refl, h, omega arith)
  | inr t ↦
      let k : ℕ = min n p.to_process in
      let some_bytes : 1 ≤ k = ground (arith, t, h.0) in
      let z : (k == 0) ≡ false = ground (arith, some_bytes) in
      rw (t, z, send_loop)
        (SentWithin-step (length tape) k p (send_loop tape (advance k p) _) some_bytes (omega arith)
          (send_loop-SentWithin tape (advance k p) _ h.1 (ground (arith, l, some_bytes))))
]

after_packet-writes : (p : Packet) (c : Conn) → (after_packet p c).writes ≡ c.writes
after_packet-writes p c = elim (Bool-cases (is_publish_qos0 p)) [
  | inl t ↦ rw t (told c.on_publish)
  | inr t ↦ rw t refl
]
  where
    told : (b : Bool) → (notify b (publishes p.mid) c).writes ≡ c.writes
    told true = refl
    told false = refl

abbrev IsDrained : Outcome Conn (Unit {0}) → Type 0
IsDrained (ok a c) = (c.current_out_packet ≡ none) × (c.out_packet ≡ [])
IsDrained (err rc c) = ⊥
IsDrained crash = ⊥

IsOpen-sent : (p p' : Packet) → p'.command ≡ p.command → IsOpen p → IsOpen p'
IsOpen-sent p p' e h = ground (arith, e, h)

write_packets-IsDrained :
    (rest : List Packet) (p : Packet) (c : Conn)
    → All Takes c.writes
    → IsOpen p
    → All IsOpen rest
    → p.to_process + total rest ≤ length c.writes
    → IsDrained (write_packets rest p c)
unfolding write_packets
write_packets-IsDrained [] p c h o os l =
    go (send_loop c.writes p c) refl (send_loop-SentWithin c.writes p c h (omega (arith, l)))
  where
    go :
        (s : Sent)
        → send_loop c.writes p c ≡ s
        → SentWithin (length c.writes) p s
        → IsDrained (write_packets [] p c)
    go (partial p' c') e w = absurd w
    go (whole p' c') e w =
        let t : is_disconnect p' ≡ false = IsOpen-sent p p' w.0 o in
        rw (e, t, write_packets) (refl, refl)
write_packets-IsDrained (q ∷ rest) p c h o os l =
    go (send_loop c.writes p c) refl (send_loop-SentWithin c.writes p c h (omega (arith, l)))
      (λ d k m. write_packets-IsDrained rest q d k os.0 os.1 m)
  where
    go :
        (s : Sent)
        → send_loop c.writes p c ≡ s
        → SentWithin (length c.writes) p s
        → ((d : Conn)
            → All Takes d.writes
            → q.to_process + total rest ≤ length d.writes
            → IsDrained (write_packets rest q d))
        → IsDrained (write_packets (q ∷ rest) p c)
    go (partial p' c') e w next = absurd w
    go (whole p' c') e w next =
        let t : is_disconnect p' ≡ false = IsOpen-sent p p' w.0 o in
        let same : (after_packet p' c').writes ≡ c'.writes = after_packet-writes p' c' in
        rw (e, t, write_packets)
          (next (sent_now (queue_at (some q) rest (after_packet p' c')))
            (subst (All Takes) (sym same) w.1)
            (subst (λ ws. q.to_process + total rest ≤ length ws) (sym same)
              (omega (arith, l, w.2))))

-- Everything was sent, and nothing waits.
abbrev pub IsAllSent : Conn → Outcome Conn (Unit {0}) → Type 0
IsAllSent c (ok a c') =
    (c'.current_out_packet ≡ none) × (c'.out_packet ≡ []) × (c'.sent ≡ c.sent ++ pending c)
IsAllSent c (err rc c') = ⊥
IsAllSent c crash = ⊥

IsDrained-IsAllSent :
    (c : Conn) (o : Outcome Conn (Unit {0}))
    → IsDrained o
    → After (λ c'. c'.sent ++ pending c' ≡ c.sent ++ pending c) o
    → IsAllSent c o
IsDrained-IsAllSent c (ok a c') d k = (d.0, d.1, ground (arith, d.0, d.1, k, append-nil c'.sent))
IsDrained-IsAllSent c (err rc c') d k = d
IsDrained-IsAllSent c crash d k = d

-- The packet at hand comes first, or else the first of the queue is taken.
write_current-IsDrained :
    (current : Option Packet) (rest : List Packet) (c : Conn)
    → c.current_out_packet ≡ current
    → c.out_packet ≡ rest
    → All Takes c.writes
    → All IsOpen (packets current rest)
    → total (packets current rest) ≤ length c.writes
    → IsDrained (write_current (take_packet c))
write_current-IsDrained (some p) rest c e f h o l =
    subst (λ x. IsDrained (write_current (take_first x c))) (sym e)
      (subst (λ x. IsDrained (write_first x c)) (sym e)
        (subst (λ ps. IsDrained (write_packets ps p c)) (sym f)
          (write_packets-IsDrained rest p c h o.0 o.1 l)))
write_current-IsDrained none [] c e f h o l =
    subst (λ x. IsDrained (write_current (take_first x c))) (sym e)
      (subst (λ ps. IsDrained (write_current (next_packet ps c))) (sym f) (refl, refl))
write_current-IsDrained none (q ∷ rest) c e f h o l =
    subst (λ x. IsDrained (write_current (take_first x c))) (sym e)
      (subst (λ ps. IsDrained (write_current (next_packet ps c))) (sym f)
        (write_packets-IsDrained rest q (queue_at (some q) rest c) h o.0 o.1 l))

-- On a connected client with no DISCONNECT among its packets: while the socket takes a byte at least at
-- each write, and there are as many answers as bytes that wait, one call of the writer succeeds, sends
-- all of them in their order, and leaves no packet.
pub packet_write-IsAllSent :
    (c : Conn) (socket : ℕ)
    → c.sock ≡ some socket
    → c.state ≡ connected
    → All Takes c.writes
    → All IsOpen (packets c.current_out_packet c.out_packet)
    → total (packets c.current_out_packet c.out_packet) ≤ length c.writes
    → IsAllSent c (packet_write c)
unfolding packet_write
packet_write-IsAllSent c socket s st h o l =
    IsDrained-IsAllSent c (packet_write c)
      (subst (λ x. IsDrained (write_open x c.state c)) (sym s)
        (subst (λ x. IsDrained (write_open (some socket) x c)) (sym st)
          (write_current-IsDrained c.current_out_packet c.out_packet c refl refl h o l)))
      (packet_write-Conserves c)
