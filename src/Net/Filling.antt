-- ===== src/Net/Filling.antt =====
-- The rest of `_mosquitto_packet_read`: the block for the payload, and its bytes.
use moscapsule.Prelude.{
  ℕ, zero, suc, ◌+◌, ◌≤◌, ◌<◌, ◌^◌, ◌≡◌, refl, sym, subst, ap, ◌∙◌, ℤ, pos, negsuc, Bool, true,
  false, Bool-cases, inl, inr, Option, none, some, List, [], ◌∷◌, ◌++◌, length, ltb, take, drop,
  length-append, length-drop, replicate, length-replicate, length-take, ◌==◌, ◌&&◌, arith,
}
use moscapsule.Types.{ClientState, connect_pending}
use moscapsule.Outcome.{H, ok, Holds, Holds-bind, Holds-weaken}
use moscapsule.Packet.{Packet, overwrite}
use moscapsule.Conn.{Conn, malloc, must_malloc}
use moscapsule.Net.{
  Got, bytes, end_of_stream, nothing, net_read, with_in, Progress, go_on, wait, and_then,
  read_command, read_digits, start_payload, read_length, read_payload, read_packet, read_connected,
  read_open, store, unfinished, negate, stop_payload, read_all_payload, is_again,
}
use moscapsule.Net.Receiving.{
  Phase, Receiving, Counting, phase_of, Filling, Counted, Digits, read_command-Holds,
  read_digits-Holds, net_read-GotAtMost, GotAtMost, stop-Holds,
}

-- A packet whose length is known, in its third phase.
pub record Known (p : Packet) : Type 0 where
  pub count : (k : ℕ) × (p.remaining_count ≡ pos (suc k))
  pub filling : Filling p

Known-Receiving : (p : Packet) → Known p → Receiving p
Known-Receiving p h = subst (λ n. Phase n p) (sym h.count.1) h.filling

abbrev Whole : Progress → Conn → Type 0
Whole go_on c = Known c.in_packet
Whole wait c = Receiving c.in_packet

pub overwrite-length :
    (buffer : List ℕ) (i : ℕ) (xs : List ℕ)
    → i + length xs ≤ length buffer
    → length (overwrite buffer i xs) ≡ length buffer
overwrite-length buffer i xs h = omega (
  arith,
  h,
  length-append (take i buffer) (xs ++ drop (i + length xs) buffer),
  length-append xs (drop (i + length xs) buffer),
  length-take i buffer,
  length-drop (i + length xs) buffer,
)

must_malloc-Same : (c : Conn) → Holds (λ _ c'. c'.in_packet ≡ c.in_packet) (must_malloc c)
unfolding must_malloc malloc
must_malloc-Same c = go c.mem refl
  where
    go :
        (tape : List Bool)
        → c.mem ≡ tape
        → Holds (λ _ c'. c'.in_packet ≡ c.in_packet) (must_malloc c)
    go [] e = rw (e, must_malloc) refl
    go (true ∷ rest) e = rw (e, must_malloc) refl
    go (false ∷ rest) e = rw (e, must_malloc) tt

abbrev blocked : ℕ → Packet → Packet
blocked junk p = record p {
  payload = replicate p.remaining_length junk;
  to_process = p.remaining_length;
}

blocked-Known :
    (junk : ℕ) (p : Packet)
    → ((k : ℕ) × (p.remaining_count ≡ pos (suc k)))
    → p.remaining_length < 2 ^ 28
    → p.position ≡ 0
    → Known (blocked junk p)
blocked-Known junk p count bounded at_start = record {
  count = count;
  filling = record {
    whole = length-replicate p.remaining_length junk;
    cursor = omega (arith, at_start);
    bounded = bounded;
  };
}

start_payload-Holds :
    (c : Conn)
    → Counted c.in_packet
    → Holds (λ progress c'. (progress ≡ go_on) × Known c'.in_packet) (start_payload c)
unfolding start_payload
start_payload-Holds c h = elim (Bool-cases (ltb 0 c.in_packet.remaining_length)) [
  | inl t ↦ rw t (
      Holds-bind (λ _ c'. c'.in_packet ≡ p) _ (must_malloc (with_in p c)) _
        (must_malloc-Same (with_in p c))
        λ _ c' e. (
          refl,
          subst (λ q. Known (blocked c'.junk q)) (sym e)
              (blocked-Known c'.junk p count h.bounded h.at_start),
        ))
  | inr t ↦ rw t (
    refl,
    record {
      count = count;
      filling = record {
        whole = ground (arith, t, h);
        cursor = ground (arith, t, h);
        bounded = h.bounded;
      };
    },
  )
]
  where
    p : Packet
    p = record (c.in_packet) { remaining_count = negate c.in_packet.remaining_count }

    count : (k : ℕ) × (negate c.in_packet.remaining_count ≡ pos (suc k))
    count = (h.some_digits.0, ap negate h.some_digits.1)

store-Known : (bs : List ℕ) (p : Packet) → length bs ≤ p.to_process → Known p → Known (store bs p)
store-Known bs p h k = record {
  count = k.count;
  filling = record {
    whole =
        overwrite-length p.payload p.position bs
          (omega (arith, h, k.filling.cursor, k.filling.whole))
        ∙ k.filling.whole;
    cursor = omega (arith, h, k.filling.cursor);
    bounded = k.filling.bounded;
  };
}

-- The bytes are all there when the loop goes on.
abbrev pub Complete : Progress → Conn → Type 0
Complete go_on c = Known c.in_packet × (c.in_packet.to_process ≡ 0)
Complete wait c = Receiving c.in_packet

stop_payload-Holds : (c : Conn) → Receiving c.in_packet → Holds Complete (stop_payload c)
stop_payload-Holds c r = elim (Bool-cases (ltb 1000 c.in_packet.to_process && is_again c.err_no)) [
  | inl t ↦ rw t (stop-Holds Complete wait _ r)
  | inr t ↦ rw t (stop-Holds Complete wait c r)
]

read_payload-Holds :
    (rounds : ℕ) (c : Conn)
    → c.in_packet.to_process ≤ rounds
    → Known c.in_packet
    → Holds Complete (read_payload rounds c)
unfolding read_payload
read_payload-Holds zero c h k = (k, omega (arith, h))
read_payload-Holds (suc rounds) c h k = elim (Bool-cases (c.in_packet.to_process == 0)) [
  | inl t ↦ rw (t, read_payload) (k, ground (arith, t))
  | inr t ↦
      go t (net_read c.in_packet.to_process c) refl
        (net_read-GotAtMost c.in_packet.to_process c (ground (arith, t)))
        (λ c' small known. read_payload-Holds rounds c' small known)
]
  where
    known : (c' : Conn) → c'.in_packet ≡ c.in_packet → Receiving c'.in_packet
    known c' p = subst Receiving (sym p) (Known-Receiving c.in_packet k)

    go :
        (c.in_packet.to_process == 0) ≡ false
        → (g : Got) → net_read c.in_packet.to_process c ≡ g
        → GotAtMost c.in_packet.to_process c.in_packet g
        → ((c' : Conn)
            → c'.in_packet.to_process ≤ rounds
            → Known c'.in_packet
            → Holds Complete (read_payload rounds c'))
        → Holds Complete (read_payload (suc rounds) c)
    go t (bytes bs c') e (a, b, p) next =
        rw (t, e, read_payload)
          (next (with_in (store bs c'.in_packet) c') (rw p (omega (arith, a, h)))
            (subst (λ q. Known (store bs q)) (sym p) (store-Known bs c.in_packet b k)))
    go t (end_of_stream c') e p next = rw (t, e, read_payload) (stop_payload-Holds c' (known c' p))
    go t (nothing c') e p next = rw (t, e, read_payload) (stop_payload-Holds c' (known c' p))

and_then-Holds :
    (P Q : Progress → Conn → Type 0) (first next : H Conn Progress) (c : Conn)
    → Holds P (first c)
    → ((c' : Conn) → P wait c' → Q wait c')
    → ((c' : Conn) → P go_on c' → Holds Q (next c'))
    → Holds Q (and_then first next c)
and_then-Holds P Q first next c h stay go_with =
    Holds-bind P Q (first c) _ h λ progress c' p. carry progress c' p
  where
    carry :
        (progress : Progress) (c' : Conn)
        → P progress c'
        → Holds Q (elim progress [ go_on ↦ next c' | wait ↦ ok wait c' ])
    carry go_on c' p = go_with c' p
    carry wait c' p = stay c' p

read_length-Holds : (c : Conn) → Receiving c.in_packet → Holds Whole (read_length c)
unfolding read_length phase_of
read_length-Holds c r = go c.in_packet.remaining_count refl r
  where
    digits :
        (k : ℕ)
        → c.in_packet.remaining_count ≡ phase_of k
        → Counting k c.in_packet
        → Holds Whole (and_then (read_digits 5) start_payload c)
    digits k e x =
        and_then-Holds Digits Whole (read_digits 5) start_payload c
          (read_digits-Holds 5 k c (omega arith) e x) (λ c' p. p)
          λ c' p.
            Holds-weaken _ _ (start_payload c') (start_payload-Holds c' p)
              (λ progress c'' h. subst (λ x. Whole x c'') (sym h.0) h.1)

    go :
        (n : ℤ)
        → c.in_packet.remaining_count ≡ n
        → Phase n c.in_packet
        → Holds Whole (read_length c)
    go (pos zero) e x =
        let t : unfinished c.in_packet.remaining_count ≡ true = ap unfinished e in
        rw (t, read_length) (digits 0 e x)
    go (pos (suc k)) e x =
        let t : unfinished c.in_packet.remaining_count ≡ false = ap unfinished e in
        rw (t, read_length) (record { count = (k, e); filling = x })
    go (negsuc k) e x =
        let t : unfinished c.in_packet.remaining_count ≡ true = ap unfinished e in
        rw (t, read_length) (digits (suc k) e x)

read_connected-Holds :
    (s : ClientState) (c : Conn) → Receiving c.in_packet → Holds Complete (read_connected s c)
read_connected-Holds connect_pending c r = r
read_connected-Holds _ c r =
    and_then-Holds (λ _ c'. Receiving c'.in_packet) Complete read_command _ c
      (read_command-Holds c r) (λ c' p. p)
      λ c' p.
        and_then-Holds Whole Complete read_length read_all_payload c' (read_length-Holds c' p)
          (λ c'' q. q) λ c'' q. read_payload-Holds c''.in_packet.to_process c'' (omega arith) q

-- While a packet is being received, the reader does not crash. If it goes on, the length is known,
-- the block has that many bytes and none has yet to come; if it waits, the packet is still being
-- received.
pub read_packet-Holds : (c : Conn) → Receiving c.in_packet → Holds Complete (read_packet c)
unfolding read_packet
read_packet-Holds c r = go c.sock
  where
    go : (s : Option ℕ) → Holds Complete (read_open s c)
    go none = tt
    go (some n) = read_connected-Holds c.state c r
