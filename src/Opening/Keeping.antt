-- ===== src/Opening/Keeping.antt =====
-- Opening a connection leaves the packet that comes in as it is.
use moscapsule.Prelude.{
  ℕ, Bool, true, false, Option, some, List, [], ◌∷◌, ◌≡◌, refl, sym, subst, inl,
}
use moscapsule.Types.{Text}
use moscapsule.Outcome.{Outcome, ok, err, crash, After, Leaving, Leaving-bind}
use moscapsule.Dial.{Dial, TlsAnswers, Handshake, done, asks_read, asks_write, fails_for_good}
use moscapsule.Net.Calm.{Receivable}
use moscapsule.Conn.{Conn}
use moscapsule.Net.Receiving.{Receiving}
use moscapsule.Packet.{Packet}
use moscapsule.Client.{TlsOptions}
use moscapsule.Opening.{
  Attempt, try_connect, has_ca, secure, uses_tls, secure_if, shaken, next_shake, connect_tls,
  open_socket,
}
use moscapsule.Opening.Trying.{AllAnswers-Unit, try_connect-Chosen}
use moscapsule.Opening.Securing.{
  connect_tls-session, authenticate-Goes, Shaken, answered, shake-Leaving, secure-Leaving,
}

module _ (p : Packet) where
  abbrev Keeps : Attempt → Type 0
  Keeps a = a.conn.in_packet ≡ p

  abbrev Kept : {A : Type 0} → Outcome Attempt A → Type 0
  Kept {A} o = Leaving (λ (_ : A) a. Keeps a) Keeps o

  secure-Kept :
      (o : TlsOptions) (t : TlsAnswers) (s : ℕ) (a : Attempt) → Keeps a → Kept (secure o t s a)
  secure-Kept o t s =
      secure-Leaving Keeps Keeps Keeps (λ _ a. Keeps a) o t s (λ _ k. k) (λ _ k. k) (λ _ _ _ k. k)
        (λ _ _ k. k)
        (authenticate-Goes Keeps Keeps s (λ _ k. k) (λ _ _ _ k. k) (has_ca o) o.psk o t)
        (λ _ _ k. k) (λ a k e. shake-Leaving _ Keeps s _ e (kept a k) (kept a k))
    where
      kept :
          (a : Attempt)
          → Keeps a
          → (c : Conn) → Shaken (record (a.conn) { sock = some s }) c
          → c.in_packet ≡ p
      kept a k _ (answered _ _ _) = k

  open_socket-Kept :
      (o : TlsOptions) (bind_address : Option Text) (blocking : Bool) (dial : Dial) (a : Attempt)
      → Keeps a
      → Kept (open_socket o bind_address blocking dial a)
  unfolding open_socket
  open_socket-Kept o bind_address blocking dial a h =
      Leaving-bind _ _ Keeps (try_connect bind_address blocking dial a) _
        (try_connect-Chosen Keeps (λ _. Keeps) (λ _. Unit {0}) (λ _ _ k. k) (λ _ _ k. k)
          (λ _ _ _ _ _ k. k) bind_address blocking dial a (AllAnswers-Unit dial.addresses) h)
        λ found b k.
          Leaving-bind _ _ Keeps (secure_if (uses_tls o) o dial.tls found.0 b) _
            (secured (uses_tls o) found.0 b k) (λ _ c l. l)
    where
      secured : (u : Bool) (s : ℕ) (b : Attempt) → Keeps b → Kept (secure_if u o dial.tls s b)
      secured false s b k = k
      secured true s b k = secure-Kept o dial.tls s b k

pub open_socket-Receiving :
    (o : TlsOptions) (bind_address : Option Text) (blocking : Bool) (dial : Dial) (a : Attempt)
    → Receiving a.conn.in_packet
    → After (λ b. Receiving b.conn.in_packet) (open_socket o bind_address blocking dial a)
open_socket-Receiving o bind_address blocking dial a h =
    go (open_socket o bind_address blocking dial a)
      (open_socket-Kept a.conn.in_packet o bind_address blocking dial a refl)
  where
    go :
        (x : Outcome Attempt Bool)
        → Kept a.conn.in_packet x
        → After (λ b. Receiving b.conn.in_packet) x
    go (ok pending b) e = subst Receiving (sym e) h
    go (err rc b) e = subst Receiving (sym e) h
    go crash e = e

-- The handshake of `mosquitto_loop`, on a connection with a TLS session.
pub connect_tls-Receivable :
    (c : Conn) → c.ssl ≡ true → Receivable c → After Receivable (connect_tls c)
connect_tls-Receivable c e h =
    subst (After Receivable) (sym (connect_tls-session c e)) (go c.shakes)
  where
    with_answer :
        (answer : Handshake) (xs : List Handshake)
        → After Receivable (shaken answer (record c { env = record (c.env) { shakes = xs } }))
    with_answer done xs = h
    with_answer asks_read xs = h
    with_answer asks_write xs = h
    with_answer fails_for_good xs = inl refl

    go : (xs : List Handshake) → After Receivable (next_shake xs c)
    go [] = h
    go (answer ∷ xs) = with_answer answer xs
