-- ===== src/Opening/Encrypted.antt =====
-- With TLS configured, a connection is opened with a TLS session or not at all.
use moscapsule.Prelude.{ℕ, ◌≡◌, refl, subst, sym, Bool, true, none, some, Option, []}
use moscapsule.Types.{Text}
use moscapsule.Outcome.{Leaving, Leaving-bind}
use moscapsule.Dial.{Dial}
use moscapsule.Conn.{Conn}
use moscapsule.Client.{TlsOptions}
use moscapsule.Opening.{Attempt, try_connect, has_ca, secure, uses_tls, secure_if, open_socket}
use moscapsule.Opening.Trying.{AllAnswers-Unit, try_connect-Chosen}
use moscapsule.Opening.Securing.{authenticate-Goes, Shaken, answered, shake-Leaving, secure-Leaving}

-- No socket is held.
abbrev Unheld : Attempt → Type 0
Unheld a = a.conn.sock ≡ none

abbrev Encrypted : Attempt → Type 0
Encrypted a = a.conn.ssl ≡ true

pub open_socket-Encrypted :
    (o : TlsOptions) (bind_address : Option Text) (blocking : Bool) (dial : Dial) (c : Conn)
    → uses_tls o ≡ true
    → c.sock ≡ none
    → Leaving
        (λ _ a. a.conn.ssl ≡ true)
        (λ a. a.conn.sock ≡ none)
        (open_socket o bind_address blocking dial (record { conn = c; calls = [] }))
unfolding open_socket
open_socket-Encrypted o bind_address blocking dial c u e =
    Leaving-bind (λ _ b. Unheld b) _ Unheld
      (try_connect bind_address blocking dial (record { conn = c; calls = [] })) _
      (try_connect-Chosen Unheld (λ _. Unheld) (λ _. Unit {0}) (λ _ _ k. k) (λ _ _ k. k)
        (λ _ _ _ _ _ k. k) bind_address blocking dial (record { conn = c; calls = [] })
        (AllAnswers-Unit dial.addresses) e)
      λ found b k.
        Leaving-bind (λ _ d. Encrypted d) _ Unheld (secure_if (uses_tls o) o dial.tls found.0 b) _
          (subst (λ x. Leaving (λ _ d. Encrypted d) Unheld (secure_if x o dial.tls found.0 b))
            (sym u) (secured found.0 b k))
          (λ _ d l. l)
  where
    encrypted :
        (s : ℕ) (a : Attempt)
        → a.conn.ssl ≡ true
        → (d : Conn) → Shaken (record (a.conn) { sock = some s }) d
        → d.ssl ≡ true
    encrypted s a l _ (answered _ _ _) = l

    secured :
        (s : ℕ) (b : Attempt)
        → b.conn.sock ≡ none
        → Leaving (λ _ d. d.conn.ssl ≡ true) (λ d. d.conn.sock ≡ none) (secure o dial.tls s b)
    secured s b k =
        secure-Leaving Unheld Unheld Unheld (λ _ d. Encrypted d) o dial.tls s (λ _ l. l) (λ _ l. l)
          (λ _ _ _ l. l) (λ _ _ l. l)
          (authenticate-Goes Unheld Unheld s (λ _ l. l) (λ _ _ _ l. l) (has_ca o) o.psk o dial.tls)
          (λ _ _ l. l)
          (λ a _ l. shake-Leaving (λ _ d. Encrypted d) Unheld s _ l (encrypted s a l) (λ _ _. refl))
          b k
