-- ===== src/Net/Receiving.antt =====
-- A packet that comes in by pieces: what `in_packet` holds between the calls of `_mosquitto_packet_read`.
use moscapsule.Prelude.{
  ℕ, zero, suc, ◌+◌, ◌≤◌, ◌<◌, ◌/◌, ◌%◌, ◌^◌, ◌≡◌, refl, sym, subst, ap, ◌∙◌, decrement, ℤ, pos,
  negsuc, true, false, Bool-cases, inl, inr, List, [], ◌∷◌, length, leb, length-take, ◌==◌, arith,
}
use moscapsule.Types.{Rc}
use moscapsule.Outcome.{H, Holds, return_code}
use moscapsule.Packet.{Packet}
use moscapsule.Conn.{Conn, ReadEvent}
use moscapsule.Net.{
  Got, bytes, end_of_stream, nothing, read_event, net_read, with_in, Progress, go_on, wait,
  one_byte, use_digit, read_command, read_digits, stop, add_digit, counted, too_many, stopped_code,
}

-- What a digit of the remaining length counts, by its place.
abbrev pub scale : ℕ → ℕ
scale zero = 1
scale (suc zero) = 128
scale (suc (suc zero)) = 16384
scale (suc (suc (suc zero))) = 2097152
scale (suc (suc (suc (suc k)))) = 268435456

-- `k` digits of the remaining length have come, and all of them go on.
pub record Counting (k : ℕ) (p : Packet) : Type 0 where
  pub digits : k ≤ 4
  pub mult : p.remaining_mult ≡ scale k
  pub small : p.remaining_length < scale k
  pub no_block : p.payload ≡ []
  pub no_bytes : p.to_process ≡ 0
  pub at_start : p.position ≡ 0

-- The length is known: the block has that many bytes, of which `to_process` have yet to come.
pub record Filling (p : Packet) : Type 0 where
  pub whole : length p.payload ≡ p.remaining_length
  pub cursor : p.position + p.to_process ≡ p.remaining_length
  pub bounded : p.remaining_length < 2 ^ 28

abbrev pub Phase : ℤ → Packet → Type 0
Phase (pos zero) p = Counting 0 p
Phase (negsuc k) p = Counting (suc k) p
Phase (pos (suc k)) p = Filling p

abbrev pub Receiving : Packet → Type 0
Receiving p = Phase p.remaining_count p

-- A read of `count` brings one byte at least and no more than `count`.
abbrev pub GotAtMost : ℕ → Packet → Got → Type 0
GotAtMost count p (bytes bs c) = (1 ≤ length bs) × (length bs ≤ count) × (c.in_packet ≡ p)
GotAtMost count p (end_of_stream c) = c.in_packet ≡ p
GotAtMost count p (nothing c) = c.in_packet ≡ p

pub net_read-GotAtMost :
    (count : ℕ) (c : Conn) → 1 ≤ count → GotAtMost count c.in_packet (net_read count c)
unfolding net_read read_event
net_read-GotAtMost count c h = go c.env.reads
  where
    go : (tape : List ReadEvent) → GotAtMost count c.in_packet (read_event count tape c)
    go [] = refl
    go (ReadEvent.received b bs ∷ tape) = (
      omega (arith, h, length-take count (b ∷ bs)),
      omega (arith, h, length-take count (b ∷ bs)),
      refl,
    )
    go (ReadEvent.closed ∷ tape) = refl
    go (ReadEvent.read_fails failure ∷ tape) = refl

pub stop-Holds :
    {A : Type 0} (P : A → Conn → Type 0) (a : A) (c : Conn) → P a c → Holds P (stop a c)
stop-Holds {A} P a c h = go (stopped_code c.env.err_no)
  where
    go : (rc : Rc) → Holds P (return_code rc a c)
    go Rc.success = h
    go _ = tt

one_byte-Holds :
    {A : Type 0} (P : A → Conn → Type 0) (a : A) (use_byte : ℕ → H Conn A) (c : Conn)
    → ((c' : Conn) → c'.in_packet ≡ c.in_packet → P a c')
    → ((b : ℕ) (c' : Conn) → c'.in_packet ≡ c.in_packet → Holds P (use_byte b c'))
    → Holds P (one_byte a use_byte c)
one_byte-Holds P a use_byte c stay go_with =
    go (net_read 1 c) refl (net_read-GotAtMost 1 c (omega arith))
  where
    go : (g : Got) → net_read 1 c ≡ g → GotAtMost 1 c.in_packet g → Holds P (one_byte a use_byte c)
    go (bytes [] c') e h = absurd (omega (arith, h.0))
    go (bytes (b ∷ bs) c') e h = rw (e, one_byte) (go_with b c' h.2)
    go (end_of_stream c') e h = rw (e, one_byte) tt
    go (nothing c') e h = rw (e, one_byte) (stop-Holds P a c' (stay c' h))

command-Receiving : (b : ℕ) (p : Packet) → Receiving p → Receiving (record p { command = b })
command-Receiving b p r = go p.remaining_count r
  where
    counting : (k : ℕ) → Counting k p → Counting k (record p { command = b })
    counting k x = record {
      digits = x.digits;
      mult = x.mult;
      small = x.small;
      no_block = x.no_block;
      no_bytes = x.no_bytes;
      at_start = x.at_start;
    }

    go : (n : ℤ) → Phase n p → Phase n (record p { command = b })
    go (pos zero) x = counting 0 x
    go (pos (suc k)) x = record { whole = x.whole; cursor = x.cursor; bounded = x.bounded }
    go (negsuc k) x = counting (suc k) x

pub read_command-Holds :
    (c : Conn) → Receiving c.in_packet → Holds (λ _ c'. Receiving c'.in_packet) (read_command c)
unfolding read_command
read_command-Holds c r = elim (Bool-cases (c.in_packet.command == 0)) [
  | inl t ↦ rw t (
      one_byte-Holds (λ _ c'. Receiving c'.in_packet) wait _ c (λ c' e. subst Receiving (sym e) r)
        (λ b c' e. command-Receiving b c'.in_packet (subst Receiving (sym e) r)))
  | inr t ↦ rw t r
]

-- All digits have come.
pub record Counted (p : Packet) : Type 0 where
  pub some_digits : (k : ℕ) × (p.remaining_count ≡ negsuc k)
  pub bounded : p.remaining_length < 2 ^ 28
  pub no_block : p.payload ≡ []
  pub no_bytes : p.to_process ≡ 0
  pub at_start : p.position ≡ 0

abbrev pub Digits : Progress → Conn → Type 0
Digits go_on c = Counted c.in_packet
Digits wait c = Receiving c.in_packet

add_digit-Counting :
    (k : ℕ) (byte : ℕ) (p : Packet)
    → k ≤ 3
    → Counting k p
    → Counting (suc k) (add_digit byte (counted p))
add_digit-Counting zero byte p h r = ground (arith, r)
add_digit-Counting (suc zero) byte p h r = ground (arith, r)
add_digit-Counting (suc (suc zero)) byte p h r = ground (arith, r)
add_digit-Counting (suc (suc (suc zero))) byte p h r = ground (arith, r)
add_digit-Counting (suc (suc (suc (suc k)))) byte p h r = absurd (omega (arith, h))

-- The packet under `counted` and one more digit: still counting, or at its end.
unfoldable pub phase_of : ℕ → ℤ
phase_of zero = pos zero
phase_of (suc k) = negsuc k

Counting-Receiving :
    (k : ℕ) (p : Packet) → p.remaining_count ≡ phase_of k → Counting k p → Receiving p
unfolding phase_of
Counting-Receiving zero p e r = subst (λ n. Phase n p) (sym e) r
Counting-Receiving (suc k) p e r = subst (λ n. Phase n p) (sym e) r

decrement-phase_of : (k : ℕ) → decrement (phase_of k) ≡ negsuc k
unfolding phase_of
decrement-phase_of zero = refl
decrement-phase_of (suc k) = refl

last_digit-Counted :
    (k : ℕ) (p : Packet) → p.remaining_count ≡ negsuc k → Counting (suc k) p → Counted p
last_digit-Counted k p e r = record {
  some_digits = (k, e);
  bounded = scale-bounded (suc k) p r;
  no_block = r.no_block;
  no_bytes = r.no_bytes;
  at_start = r.at_start;
}
  where
    scale-bounded : (i : ℕ) (q : Packet) → Counting i q → q.remaining_length < 2 ^ 28
    scale-bounded zero q x = omega (arith, x.small)
    scale-bounded (suc zero) q x = omega (arith, x.small)
    scale-bounded (suc (suc zero)) q x = omega (arith, x.small)
    scale-bounded (suc (suc (suc zero))) q x = omega (arith, x.small)
    scale-bounded (suc (suc (suc (suc i)))) q x = omega (arith, x.small)

use_digit-Holds :
    (more : H Conn Progress) (k byte : ℕ) (c : Conn)
    → c.in_packet.remaining_count ≡ phase_of k
    → Counting k c.in_packet
    → ((c' : Conn)
        → c'.in_packet.remaining_count ≡ negsuc k
        → Counting (suc k) c'.in_packet
        → Holds Digits (more c'))
    → Holds Digits (use_digit more byte c)
use_digit-Holds more k byte c e r next = elim (Bool-cases (leb 4 k)) [
  | inl t ↦
      let refused : too_many (decrement c.in_packet.remaining_count) ≡ true = ap too_many e' ∙ t in
      rw refused tt
  | inr t ↦
      let passed : too_many (decrement c.in_packet.remaining_count) ≡ false = ap too_many e' ∙ t in
      let grown : Counting (suc k) (add_digit byte (counted c.in_packet)) =
        add_digit-Counting k byte c.in_packet (ground (arith, t)) r in
      elim (Bool-cases (byte / 128 % 2 == 1)) [
        | inl b ↦ rw (passed, b) (next (with_in (add_digit byte (counted c.in_packet)) c) e' grown)
        | inr b ↦
            rw (passed, b) (last_digit-Counted k (add_digit byte (counted c.in_packet)) e' grown)
      ]
]
  where
    e' : decrement c.in_packet.remaining_count ≡ negsuc k
    e' = ap decrement e ∙ decrement-phase_of k

pub read_digits-Holds :
    (rounds k : ℕ) (c : Conn)
    → 5 ≤ rounds + k
    → c.in_packet.remaining_count ≡ phase_of k
    → Counting k c.in_packet
    → Holds Digits (read_digits rounds c)
unfolding read_digits phase_of
read_digits-Holds zero k c f e r = absurd (omega (arith, f, r.digits))
read_digits-Holds (suc rounds) k c f e r =
    one_byte-Holds Digits wait _ c
      (λ c' p. Counting-Receiving k c'.in_packet (rw p e) (subst (Counting k) (sym p) r))
      (λ b c' p.
        use_digit-Holds (read_digits rounds) k b c' (rw p e) (subst (Counting k) (sym p) r)
          (λ c'' e' r'. read_digits-Holds rounds (suc k) c'' (omega (arith, f)) e' r'))
