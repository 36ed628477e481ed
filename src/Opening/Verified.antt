-- ===== src/Opening/Verified.antt =====
-- With certificates of an authority, the handshake comes after the check of the server's certificate
-- is set.
use moscapsule.Prelude.{
  ℕ, Bool, true, false, Option, none, some, List, [], ◌∷◌, ◌≡◌, refl, sym, ap, subst, not, arith,
}
use moscapsule.Types.{Text}
use moscapsule.Outcome.{Leaving, Leaving-bind}
use moscapsule.Dial.{Dial, TlsAnswers, Sys, new_context, verifies, trusts, handshakes}
use moscapsule.Conn.{Conn}
use moscapsule.Client.{TlsOptions}
use moscapsule.Opening.{
  Attempt, noted, try_connect, demand, present_certificate, has_ca, authenticate, authenticate_ca,
  secure, uses_tls, secure_if, open_socket, is_zero,
}
use moscapsule.Opening.Trying.{AllAnswers-Unit, try_connect-Chosen}
use moscapsule.Opening.Securing.{
  present_certificate-Goes, sign_with-Goes, Shaken, answered, shake-Leaving, secure-Leaving,
}

-- Does the context ask for the server's certificate, and check it? A new one does not.
abbrev pub checks_peer : List Sys → Bool
checks_peer [] = false
checks_peer (verifies peer ∷ past) = peer
checks_peer (new_context version ∷ past) = false
checks_peer (_ ∷ past) = checks_peer past

-- The authorities that the context trusts: the file and the folder of certificates.
abbrev pub trusted : List Sys → Option Text × Option Text
trusted [] = (none, none)
trusted (trusts cafile capath ∷ past) = (cafile, capath)
trusted (new_context version ∷ past) = (none, none)
trusted (_ ∷ past) = trusted past

-- Every handshake comes when the server's certificate is checked against these authorities.
abbrev pub Verified : TlsOptions → List Sys → Type 0
Verified o [] = Unit {0}
Verified o (handshakes ∷ past) =
    (checks_peer past ≡ true) × (trusted past ≡ (o.cafile, o.capath)) × Verified o past
Verified o (_ ∷ past) = Verified o past

-- The check is set, against the authorities that are given.
abbrev Ready : TlsOptions → Attempt → Type 0
Ready o a =
    (checks_peer a.calls ≡ true) × (trusted a.calls ≡ (o.cafile, o.capath)) × Verified o a.calls

-- Success: the handshake is the last call, and the connection is a TLS one.
abbrev pub Secured : TlsOptions → Attempt → Type 0
Secured o a =
    (past : List Sys) × (a.calls ≡ handshakes ∷ past) × Verified o a.calls × (a.conn.ssl ≡ true)

module _ (o : TlsOptions) (s : ℕ) where
  abbrev Unshaken : Attempt → Type 0
  Unshaken a = Verified o a.calls

  authenticate_ca-Ready :
      (t : TlsAnswers) (a : Attempt)
      → is_zero o.cert_reqs ≡ false
      → Unshaken a
      → Leaving (λ _ b. Ready o b) Unshaken (authenticate_ca o t s a)
  authenticate_ca-Ready t a z h =
      Leaving-bind _ _ Unshaken (demand t.authorities s _) _ (trusting t.authorities) λ _ b k.
        Leaving-bind _ _ Unshaken (present_certificate o.certfile t.certificate s _) _
          (present_certificate-Goes (Ready o) Unshaken s (λ _ l. l.2) o.certfile t.certificate _
            (λ _. (checked, k.0, k.1)) (checked, k.0, k.1))
          (λ _ c l.
            sign_with-Goes (Ready o) Unshaken s (λ _ n. n.2) o.keyfile t.key t.key_fits c (λ _. l)
              l)
    where
      checked : not (is_zero o.cert_reqs) ≡ true
      checked = ap not z

      trusting :
          (b : Bool)
          → Leaving
              (λ _ c. (trusted c.calls ≡ (o.cafile, o.capath)) × Verified o c.calls)
              Unshaken
              (demand b s (noted (trusts o.cafile o.capath) a))
      trusting true = (refl, h)
      trusting false = h

  secure-Secured :
      (t : TlsAnswers) (a : Attempt)
      → has_ca o ≡ true
      → is_zero o.cert_reqs ≡ false
      → Unshaken a
      → Leaving (λ _ b. Secured o b) Unshaken (secure o t s a)
  secure-Secured t a ca z =
      secure-Leaving Unshaken (Ready o) Unshaken (λ _ b. Secured o b) o t s (λ _ k. k) (λ _ k. k.2)
        (λ _ _ _ k. k) (λ _ _ k. k)
        (λ b k.
          subst (λ x. Leaving (λ _ c. Ready o c) Unshaken (authenticate x o.psk o t s b)) (sym ca)
            (authenticate_ca-Ready t b z k))
        (λ _ _ k. k)
        (λ b k e. shake-Leaving (λ _ c. Secured o c) Unshaken s _ e (shaken_well b k e) (λ _ _. k))
        a
    where
      shaken_well :
          (b : Attempt)
          → Ready o b
          → b.conn.ssl ≡ true
          → (c : Conn) → Shaken (record (b.conn) { sock = some s }) c
          → Secured o (record (noted handshakes b) { conn = c })
      shaken_well b k e _ (answered _ _ _) = (b.calls, refl, k, e)

-- With certificates of authorities given and the check of the peer not switched off: every handshake
-- for a connection comes when the check of the server's certificate is set, with
-- `_mosquitto_server_certificate_verify`, against these authorities; and where
-- `_mosquitto_socket_connect` succeeds, or the connection is pending, the handshake was the last call
-- and the connection has a TLS session.
pub open_socket-Secured :
    (o : TlsOptions) (bind_address : Option Text) (blocking : Bool) (dial : Dial) (c : Conn)
    → has_ca o ≡ true
    → is_zero o.cert_reqs ≡ false
    → Leaving
        (λ _ a. Secured o a)
        (λ a. Verified o a.calls)
        (open_socket o bind_address blocking dial (record { conn = c; calls = [] }))
unfolding open_socket
open_socket-Secured o bind_address blocking dial c ca z =
    Leaving-bind (λ _ b. Verified o b.calls) _ (λ a. Verified o a.calls)
      (try_connect bind_address blocking dial (record { conn = c; calls = [] })) _
      (try_connect-Chosen (λ a. Verified o a.calls) (λ _ a. Verified o a.calls) (λ _. Unit {0})
        (λ _ _ k. k) (λ _ _ k. k) (λ _ _ _ _ _ k. k) bind_address blocking dial
        (record { conn = c; calls = [] }) (AllAnswers-Unit dial.addresses) tt)
      λ found b k.
        Leaving-bind (λ _ d. Secured o d) _ (λ a. Verified o a.calls)
          (secure_if (uses_tls o) o dial.tls found.0 b) _ (secured found.0 b k) (λ _ d l. l)
  where
    secured :
        (s : ℕ) (b : Attempt)
        → Verified o b.calls
        → Leaving
            (λ _ d. Secured o d)
            (λ d. Verified o d.calls)
            (secure_if (uses_tls o) o dial.tls s b)
    secured s b k =
        let u : uses_tls o ≡ true = ground (arith, ca) in
        subst
          (λ x. Leaving (λ _ d. Secured o d) (λ d. Verified o d.calls) (secure_if x o dial.tls s b))
          (sym u) (secure-Secured o s dial.tls b ca z k)
