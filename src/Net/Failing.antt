-- ===== src/Net/Failing.antt =====
-- The codes with which the reader stops are errors.
use moscapsule.Prelude.{
  ℕ, zero, suc, ◌≡◌, refl, Bool, true, false, Bool-cases, inl, inr, Option, none, some, List, [],
  ◌∷◌, ltb, ◌==◌, ◌/◌, ◌%◌,
}
use moscapsule.Types.{Rc, fails, ClientState, connect_pending}
use moscapsule.Outcome.{Outcome, H, ok, err, crash, bind, return_code}
use moscapsule.Conn.{Conn, malloc, must_malloc}
use moscapsule.Net.{
  Got, bytes, end_of_stream, nothing, net_read, with_in, Progress, go_on, wait, one_byte, use_digit,
  and_then, read_command, read_digits, start_payload, read_length, read_payload, read_packet,
  read_connected, read_open, stop_payload, stopped_code, read_all_payload, unfinished, too_many,
  counted, with_block, negate,
}

-- An error that the caller's `if(rc)` sees.
abbrev pub Fails : {S A : Type 0} → Outcome S A → Type 0
Fails (ok a s) = Unit {0}
Fails (err rc s) = fails rc ≡ true
Fails crash = Unit {0}

pub Fails-bind :
    {S A B : Type 0} (o : Outcome S A) (k : A → S → Outcome S B)
    → Fails o
    → ((a : A) (s : S) → Fails (k a s))
    → Fails (bind o k)
Fails-bind (ok a s) k h g = g a s
Fails-bind (err rc s) k h g = h
Fails-bind crash k h g = tt

pub return_code-Fails : {S A : Type 0} (rc : Rc) (a : A) (s : S) → Fails (return_code rc a s)
return_code-Fails Rc.success a s = tt
return_code-Fails _ a s = refl

one_byte-Fails :
    {A : Type 0} (a : A) (k : ℕ → H Conn A) (c : Conn)
    → ((b : ℕ) (c' : Conn) → Fails (k b c'))
    → Fails (one_byte a k c)
one_byte-Fails a k c h = go (net_read 1 c) refl
  where
    go : (g : Got) → net_read 1 c ≡ g → Fails (one_byte a k c)
    go (bytes [] c') e = rw (e, one_byte) refl
    go (bytes (b ∷ bs) c') e = rw (e, one_byte) (h b c')
    go (end_of_stream c') e = rw (e, one_byte) refl
    go (nothing c') e = rw (e, one_byte) (return_code-Fails (stopped_code c'.err_no) a c')

and_then-Fails :
    (f g : H Conn Progress) (c : Conn)
    → Fails (f c)
    → ((c' : Conn) → Fails (g c'))
    → Fails (and_then f g c)
and_then-Fails f g c h k = go (f c) refl h
  where
    go : (o : Outcome Conn Progress) → f c ≡ o → Fails o → Fails (and_then f g c)
    go (ok go_on c') e q = rw (e, and_then) (k c')
    go (ok wait c') e q = rw (e, and_then) tt
    go (err rc c') e q = rw (e, and_then) q
    go crash e q = rw (e, and_then) tt

read_command-Fails : (c : Conn) → Fails (read_command c)
unfolding read_command
read_command-Fails c = elim (Bool-cases (c.in_packet.command == 0)) [
  | inl t ↦ rw t (one_byte-Fails wait _ c (λ b c'. tt))
  | inr t ↦ rw t tt
]

use_digit-Fails :
    (more : H Conn Progress) (byte : ℕ) (c : Conn)
    → ((c' : Conn) → Fails (more c'))
    → Fails (use_digit more byte c)
use_digit-Fails more byte c h = elim (Bool-cases (too_many (counted c.in_packet).remaining_count)) [
  | inl t ↦ rw (t, use_digit) refl
  | inr t ↦ elim (Bool-cases (byte / 128 % 2 == 1)) [
    | inl b ↦ rw (t, b, use_digit) (h _)
    | inr b ↦ rw (t, b, use_digit) tt
  ]
]

read_digits-Fails : (rounds : ℕ) (c : Conn) → Fails (read_digits rounds c)
unfolding read_digits
read_digits-Fails zero c = tt
read_digits-Fails (suc rounds) c =
    one_byte-Fails wait _ c
      (λ b c'. use_digit-Fails (read_digits rounds) b c' (λ c''. read_digits-Fails rounds c''))

must_malloc-Fails : (c : Conn) → Fails (must_malloc c)
unfolding must_malloc malloc
must_malloc-Fails c = go c.mem refl
  where
    go : (l : List Bool) → c.mem ≡ l → Fails (must_malloc c)
    go [] e = rw (e, must_malloc) tt
    go (true ∷ l) e = rw (e, must_malloc) tt
    go (false ∷ l) e = rw (e, must_malloc) refl

start_payload-Fails : (c : Conn) → Fails (start_payload c)
unfolding start_payload
start_payload-Fails c = elim (Bool-cases (ltb 0 c.in_packet.remaining_length)) [
  | inl t ↦ rw t (
      Fails-bind {B = Progress} (must_malloc c') (λ _ d. ok go_on (with_block d))
        (must_malloc-Fails c') (λ _ d. tt))
  | inr t ↦ rw t tt
]
  where
    c' : Conn
    c' = with_in (record (c.in_packet) { remaining_count = negate c.in_packet.remaining_count }) c

read_length-Fails : (c : Conn) → Fails (read_length c)
unfolding read_length
read_length-Fails c = elim (Bool-cases (unfinished c.in_packet.remaining_count)) [
  | inl t ↦
      rw (t, read_length)
        (and_then-Fails (read_digits 5) start_payload c (read_digits-Fails 5 c) start_payload-Fails)
  | inr t ↦ rw (t, read_length) tt
]

stop_payload-Fails : (c : Conn) → Fails (stop_payload c)
stop_payload-Fails c = return_code-Fails _ wait _

read_payload-Fails : (rounds : ℕ) (c : Conn) → Fails (read_payload rounds c)
unfolding read_payload
read_payload-Fails zero c = tt
read_payload-Fails (suc rounds) c = elim (Bool-cases (c.in_packet.to_process == 0)) [
  | inl t ↦ rw (t, read_payload) tt
  | inr t ↦ go t (net_read c.in_packet.to_process c) refl (λ c'. read_payload-Fails rounds c')
]
  where
    go :
        (c.in_packet.to_process == 0) ≡ false
        → (g : Got) → net_read c.in_packet.to_process c ≡ g
        → ((c' : Conn) → Fails (read_payload rounds c'))
        → Fails (read_payload (suc rounds) c)
    go t (bytes bs c') e next = rw (t, e, read_payload) (next _)
    go t (end_of_stream c') e next = rw (t, e, read_payload) (stop_payload-Fails c')
    go t (nothing c') e next = rw (t, e, read_payload) (stop_payload-Fails c')

read_connected-Fails : (s : ClientState) (c : Conn) → Fails (read_connected s c)
read_connected-Fails connect_pending c = tt
read_connected-Fails _ c = and_then-Fails read_command _ c (read_command-Fails c) λ c'.
    and_then-Fails read_length read_all_payload c' (read_length-Fails c')
      (λ c''. read_payload-Fails _ c'')

pub read_packet-Fails : (c : Conn) → Fails (read_packet c)
unfolding read_packet
read_packet-Fails c = go c.sock
  where
    go : (s : Option ℕ) → Fails (read_open s c)
    go none = refl
    go (some n) = read_connected-Fails c.state c
