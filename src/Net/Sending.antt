-- ===== src/Net/Sending.antt =====
-- The order of the bytes on the wire.
use moscapsule.Prelude.{
  ℕ, zero, suc, ◌+◌, ◌-◌, ◌≤◌, ◌≡◌, refl, sym, ap, subst, ◌∙◌, Bool-cases, inl, inr, Option, none,
  some, List, [], ◌∷◌, ◌++◌, append_assoc, append-nil, take, drop, arith,
}
use Prim.Native.Nat.{min}
use moscapsule.Packet.{Packet}
use moscapsule.Types.{ClientState, connect_pending}
use moscapsule.Outcome.{After, return_code-After}
use moscapsule.Conn.{Conn, WriteEvent, accepts, write_fails, socket_close}
use moscapsule.Net.{
  write_open, Sent, whole, partial, unsent, advance, wrote, after_disconnect, after_packet,
  sent_now, queue_at, is_disconnect, send_loop, take_packet, write_current, write_packets,
  packet_write, packet_queue, writes_at_once,
}

-- The bytes that are promised to the socket and not yet taken by it.
abbrev pub waiting : List Packet → List ℕ
waiting [] = []
waiting (p ∷ ps) = unsent p ++ waiting ps

abbrev pub pending_from : Option Packet → List Packet → List ℕ
pending_from none rest = waiting rest
pending_from (some p) rest = unsent p ++ waiting rest

abbrev pub pending : Conn → List ℕ
pending c = pending_from c.current_out_packet c.out_packet

take-nil : (n : ℕ) → take {A = ℕ} n [] ≡ []
take-nil zero = refl
take-nil (suc n) = refl

drop-nil : (n : ℕ) → drop {A = ℕ} n [] ≡ []
drop-nil zero = refl
drop-nil (suc n) = refl

take-take : (k n : ℕ) (xs : List ℕ) → k ≤ n → take k (take n xs) ≡ take k xs
take-take zero n xs h = refl
take-take (suc k) zero xs h = absurd (omega arith)
take-take (suc k) (suc n) [] h = refl
take-take (suc k) (suc n) (x ∷ xs) h = ap (◌∷◌ x) (take-take k n xs (omega arith))

take-split : (k n : ℕ) (xs : List ℕ) → k ≤ n → take n xs ≡ take k xs ++ take (n - k) (drop k xs)
take-split zero n xs h = ground arith
take-split (suc k) zero xs h = absurd (omega arith)
take-split (suc k) (suc n) [] h = ground (arith, take-nil (suc n - suc k))
take-split (suc k) (suc n) (x ∷ xs) h = ground (arith, take-split k n xs (omega arith))

drop-drop : (i k m : ℕ) (xs : List ℕ) → m ≡ i + k → drop k (drop i xs) ≡ drop m xs
drop-drop zero k m xs h = ground arith
drop-drop (suc i) k m [] h = ground (arith, drop-nil k, drop-nil m)
drop-drop (suc i) k zero (x ∷ xs) h = absurd (omega arith)
drop-drop (suc i) k (suc m) (x ∷ xs) h = drop-drop i k m xs (omega arith)

unsent-advance :
    (k : ℕ) (p : Packet) → k ≤ p.to_process → unsent p ≡ take k (unsent p) ++ unsent (advance k p)
unsent-advance k p h = ground (
  arith,
  take-split k p.to_process (drop p.position p.payload) h,
  take-take k p.to_process (drop p.position p.payload) h,
  drop-drop p.position k (p.position + k) p.payload refl,
)

abbrev conn_of : Sent → Conn
conn_of (whole p c) = c
conn_of (partial p c) = c

abbrev left_of : Sent → List ℕ
left_of (whole p c) = []
left_of (partial p c) = unsent p

-- One packet's loop sends the front of what the packet holds, and leaves the rest in it.
send_loop-sent :
    (tape : List WriteEvent) (p : Packet) (c : Conn)
    → (conn_of (send_loop tape p c)).sent ++ left_of (send_loop tape p c) ≡ c.sent ++ unsent p
unfolding send_loop
send_loop-sent [] p c = ground arith
send_loop-sent (accepts n ∷ tape) p c =
    let k : ℕ = min n p.to_process in
    ground (
      arith,
      send_loop-sent tape (advance k p) (wrote tape (take k (unsent p)) c),
      unsent-advance k p,
      append_assoc (c.sent) (take k (unsent p)) (unsent (advance k p)),
      append-nil c.sent,
    )
send_loop-sent (write_fails f ∷ tape) p c = ground arith

abbrev Conserves : List ℕ → Conn → Type 0
Conserves all c = c.sent ++ pending c ≡ all

regroup :
    (xs ys zs ws rest : List ℕ) → xs ++ ys ≡ zs ++ ws → xs ++ (ys ++ rest) ≡ zs ++ (ws ++ rest)
regroup xs ys zs ws rest h = rw (← append_assoc, h) (append_assoc zs ws rest)

-- The two ways in which one packet's loop ends, before the packets that follow.
module _ (rest : List Packet) (p : Packet) (c : Conn) (p' : Packet) (c' : Conn) where
  partial-sent :
      send_loop (c.env.writes) p c ≡ partial p' c'
      → c'.sent ++ (unsent p' ++ waiting rest) ≡ c.sent ++ (unsent p ++ waiting rest)
  partial-sent e =
      regroup c'.sent (unsent p') c.sent (unsent p) (waiting rest)
        (rw e at (send_loop-sent (c.env.writes) p c))

  whole-sent :
      send_loop (c.env.writes) p c ≡ whole p' c'
      → c'.sent ++ waiting rest ≡ c.sent ++ (unsent p ++ waiting rest)
  whole-sent e =
      regroup c'.sent [] c.sent (unsent p) (waiting rest)
        (rw e at (send_loop-sent (c.env.writes) p c))

after_disconnect-Conserves :
    (all : List ℕ) (rest : List Packet) (c : Conn)
    → c.sent ++ waiting rest ≡ all
    → Conserves all (after_disconnect rest c)
unfolding socket_close
after_disconnect-Conserves all [] c h = ground arith
after_disconnect-Conserves all (q ∷ rest) c h = ground arith

after_packet-sent : (p : Packet) (c : Conn) → (after_packet p c).sent ≡ c.sent
after_packet-sent p c = ground arith

write_packets-Conserves :
    (rest : List Packet) (p : Packet) (c : Conn)
    → After (Conserves (c.sent ++ (unsent p ++ waiting rest))) (write_packets rest p c)
unfolding write_packets
write_packets-Conserves [] p c = go (send_loop (c.env.writes) p c) refl
  where
    all : List ℕ
    all = c.sent ++ (unsent p ++ [])

    go :
        (r : Sent) → send_loop (c.env.writes) p c ≡ r → After (Conserves all) (write_packets [] p c)
    go (partial p' c') e =
        rw (e, write_packets)
          (return_code-After (Conserves all) _ _ _ (partial-sent [] p c p' c' e))
    go (whole p' c') e = elim (Bool-cases (is_disconnect p')) [
      | inl d ↦
          rw (e, write_packets, d)
            (after_disconnect-Conserves all [] c' (whole-sent [] p c p' c' e))
      | inr d ↦
          rw (e, write_packets, d)
            (ground (arith, after_packet-sent p' c', whole-sent [] p c p' c' e))
    ]
write_packets-Conserves (q ∷ rest) p c =
    go (write_packets-Conserves rest q) (send_loop (c.env.writes) p c) refl
  where
    all : List ℕ
    all = c.sent ++ (unsent p ++ waiting (q ∷ rest))

    go :
        ((c' : Conn)
          → After (Conserves (c'.sent ++ (unsent q ++ waiting rest))) (write_packets rest q c'))
        → (r : Sent) → send_loop (c.env.writes) p c ≡ r
        → After (Conserves all) (write_packets (q ∷ rest) p c)
    go ih (partial p' c') e =
        rw (e, write_packets)
          (return_code-After (Conserves all) _ _ _ (partial-sent (q ∷ rest) p c p' c' e))
    go ih (whole p' c') e = elim (Bool-cases (is_disconnect p')) [
      | inl d ↦
          rw (e, write_packets, d)
            (after_disconnect-Conserves all (q ∷ rest) c' (whole-sent (q ∷ rest) p c p' c' e))
      | inr d ↦
          let next : Conn = sent_now (queue_at (some q) rest (after_packet p' c')) in
          rw (e, write_packets, d)
            (subst (λ a. After (Conserves a) (write_packets rest q next))
              (ground (arith, after_packet-sent p' c', whole-sent (q ∷ rest) p c p' c' e))
              (ih next))
    ]

take_packet-Conserves :
    (c : Conn) → (take_packet c).sent ++ pending (take_packet c) ≡ c.sent ++ pending c
take_packet-Conserves c = go c.current_out_packet c.out_packet refl refl
  where
    go :
        (o : Option Packet) (l : List Packet)
        → c.current_out_packet ≡ o
        → c.out_packet ≡ l
        → (take_packet c).sent ++ pending (take_packet c) ≡ c.sent ++ pending c
    go (some p) l e f = rw e
    go none [] e f = rw (e, f)
    go none (q ∷ rest) e f = rw (e, f)

write_current-Conserves : (c : Conn) → After (Conserves (c.sent ++ pending c)) (write_current c)
write_current-Conserves c = go c.current_out_packet refl
  where
    go :
        (o : Option Packet)
        → c.current_out_packet ≡ o
        → After (Conserves (c.sent ++ pending c)) (write_current c)
    go (some p) e = rw e (write_packets-Conserves c.out_packet p _)
    go none e = rw e refl

-- `_mosquitto_packet_write` neither loses, repeats nor reorders a byte: what has gone to the socket
-- and then what still waits are together what they were, whichever way it returns.
pub packet_write-Conserves :
    (c : Conn) → After (λ c'. c'.sent ++ pending c' ≡ c.sent ++ pending c) (packet_write c)
unfolding packet_write
packet_write-Conserves c = go c.sock c.state
  where
    go :
        (s : Option ℕ) (st : ClientState)
        → After (Conserves (c.sent ++ pending c)) (write_open s st c)
    go none st = refl
    go (some n) connect_pending = take_packet-Conserves c
    go (some n) _ =
        subst (λ a. After (Conserves a) (write_current (take_packet c))) (take_packet-Conserves c)
          (write_current-Conserves (take_packet c))

waiting-append : (ps : List Packet) (p : Packet) → waiting (ps ++ p ∷ []) ≡ waiting ps ++ unsent p
waiting-append [] p = append-nil (unsent p)
waiting-append (q ∷ ps) p =
    ap (◌++◌ (unsent q)) (waiting-append ps p)
    ∙ sym (append_assoc (unsent q) (waiting ps) (unsent p))

pending_from-append :
    (o : Option Packet) (ps : List Packet) (p : Packet)
    → pending_from o (ps ++ p ∷ []) ≡ pending_from o ps ++ unsent p
pending_from-append none ps p = waiting-append ps p
pending_from-append (some q) ps p = waiting-append (q ∷ ps) p

-- `_mosquitto_packet_queue` puts a packet's bytes behind all that was promised before, whether it
-- writes at once or leaves that to the loop, and whichever code it returns.
pub packet_queue-Conserves :
    (p : Packet) (c : Conn)
    → After
        (λ c'. c'.sent ++ pending c' ≡ (c.sent ++ pending c) ++ take p.packet_length p.payload)
        (packet_queue p c)
unfolding packet_queue
packet_queue-Conserves p c = elim (Bool-cases (writes_at_once c)) [
  | inl e ↦
      rw (e, packet_queue)
        (subst (λ a. After (Conserves a) (packet_write queued_up)) grown
          (packet_write-Conserves queued_up))
  | inr e ↦ rw (e, packet_queue) grown
]
  where
    fresh : Packet
    fresh = record p { position = 0; to_process = p.packet_length }

    queued_up : Conn
    queued_up = record c { out_packet = c.out_packet ++ fresh ∷ [] }

    grown : c.sent ++ pending queued_up ≡ (c.sent ++ pending c) ++ take p.packet_length p.payload
    grown =
        ap (◌++◌ c.sent) (pending_from-append c.current_out_packet c.out_packet fresh)
        ∙ sym (append_assoc c.sent (pending c) (unsent fresh))
