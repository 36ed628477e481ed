-- ===== src/Socks/Replies.antt =====
-- The replies of the proxy come in by pieces, and the packets to it go out.
use moscapsule.Prelude.{
  ℕ, zero, suc, ◌+◌, ◌≤◌, ◌≡◌, refl, sym, subst, ◌∙◌, true, false, Bool-cases, inl, inr, List, [],
  ◌∷◌, length, ◌==◌, arith,
}
use moscapsule.Types.{Errno, again}
use moscapsule.Outcome.{ok, Holds}
use moscapsule.Packet.{Packet}
use moscapsule.Net.Filling.{overwrite-length}
use moscapsule.Conn.{Conn, ReadEvent, malloc}
use moscapsule.Net.{
  Got, bytes, end_of_stream, nothing, net_read, read_event, with_in, store, Progress, go_on, wait,
}
use moscapsule.Net.Receiving.{GotAtMost, net_read-GotAtMost}
use moscapsule.Socks.{reply_stopped, read_reply, block}

-- A reply of `packet_length` bytes, of which `to_process` have yet to come.
pub record Awaiting (p : Packet) : Type 0 where
  pub whole : length p.payload ≡ p.packet_length
  pub cursor : p.position + p.to_process ≡ p.packet_length

-- The same while memory does not run out, for a reply of `n` bytes.
pub record Reading (n : ℕ) (c : Conn) : Type 0 where
  pub memory : c.mem ≡ []
  pub expected : c.in_packet.packet_length ≡ n
  pub awaiting : Awaiting c.in_packet

store-Awaiting :
    (bs : List ℕ) (p : Packet) → length bs ≤ p.to_process → Awaiting p → Awaiting (store bs p)
store-Awaiting bs p h k = record {
  whole = overwrite-length p.payload p.position bs (omega (arith, h, k.cursor, k.whole)) ∙ k.whole;
  cursor = omega (arith, h, k.cursor);
}

abbrev SameMemory : Conn → Got → Type 0
SameMemory c (bytes bs d) = d.mem ≡ c.mem
SameMemory c (end_of_stream d) = d.mem ≡ c.mem
SameMemory c (nothing d) = d.mem ≡ c.mem

net_read-SameMemory : (count : ℕ) (c : Conn) → SameMemory c (net_read count c)
unfolding net_read read_event
net_read-SameMemory count c = go c.env.reads
  where
    go : (tape : List ReadEvent) → SameMemory c (read_event count tape c)
    go [] = refl
    go (ReadEvent.received b bs ∷ tape) = refl
    go (ReadEvent.closed ∷ tape) = refl
    go (ReadEvent.read_fails failure ∷ tape) = refl

-- All the bytes are there when the loop goes on.
abbrev pub Come : ℕ → Progress → Conn → Type 0
Come n go_on c = Reading n c × (c.in_packet.to_process ≡ 0)
Come n wait c = Reading n c

reply_stopped-Come :
    (n : ℕ) (e : Errno) (c : Conn) → Reading n c → Holds (Come n) (reply_stopped e c)
reply_stopped-Come n again c h = h
reply_stopped-Come n _ c h = tt

Reading-same :
    (n : ℕ) (c d : Conn) → d.mem ≡ c.mem → d.in_packet ≡ c.in_packet → Reading n c → Reading n d
Reading-same n c d m e h = record {
  memory = m ∙ h.memory;
  expected = subst (λ q. q.packet_length ≡ n) (sym e) h.expected;
  awaiting = subst Awaiting (sym e) h.awaiting;
}

pub read_reply-Come :
    (n rounds : ℕ) (c : Conn)
    → c.in_packet.to_process ≤ rounds
    → Reading n c
    → Holds (Come n) (read_reply rounds c)
unfolding read_reply
read_reply-Come n zero c h k = (k, omega (arith, h))
read_reply-Come n (suc rounds) c h k = elim (Bool-cases (c.in_packet.to_process == 0)) [
  | inl t ↦ rw (t, read_reply) (k, ground (arith, t))
  | inr t ↦
      go t (net_read c.in_packet.to_process c) refl
        (net_read-GotAtMost c.in_packet.to_process c (ground (arith, t)))
        (net_read-SameMemory c.in_packet.to_process c)
        (λ c' small known. read_reply-Come n rounds c' small known)
]
  where
    go :
        (c.in_packet.to_process == 0) ≡ false
        → (g : Got) → net_read c.in_packet.to_process c ≡ g
        → GotAtMost c.in_packet.to_process c.in_packet g
        → SameMemory c g
        → ((c' : Conn)
            → c'.in_packet.to_process ≤ rounds
            → Reading n c'
            → Holds (Come n) (read_reply rounds c'))
        → Holds (Come n) (read_reply (suc rounds) c)
    go t (bytes bs c') e (a, b, p) m next =
        let r : Reading n c' = Reading-same n c c' m p k in
        let b' : length bs ≤ c'.in_packet.to_process = rw p b in
        rw (t, e, read_reply)
          (next (with_in (store bs c'.in_packet) c') (rw p (omega (arith, a, h))) (record {
            memory = r.memory;
            expected = r.expected;
            awaiting = store-Awaiting bs c'.in_packet b' r.awaiting;
          }))
    go t (end_of_stream c') e p m next =
        rw (t, e, read_reply) (reply_stopped-Come n c'.err_no c' (Reading-same n c c' m p k))
    go t (nothing c') e p m next =
        rw (t, e, read_reply) (reply_stopped-Come n c'.err_no c' (Reading-same n c c' m p k))

pub malloc-none : (c : Conn) → c.mem ≡ [] → malloc c ≡ ok true c
unfolding malloc
malloc-none c h = ground arith

pub block-none : (c : Conn) → c.mem ≡ [] → block c ≡ ok tt c
block-none c h = rw (malloc-none c h)
