-- ===== src/Opening/Securing.antt =====
-- What holds along the steps of the TLS part of `_mosquitto_socket_connect`, where `Before` holds up
-- to a step, and `Closed` behind the closing of the socket that ends the attempt.
use moscapsule.Prelude.{
  ℕ, Bool, true, false, not, Option, none, some, List, [], ◌∷◌, ◌≡◌, refl, ap, sym, subst, ◌∙◌,
  if◌then◌else◌,
}
use moscapsule.Types.{Text}
use moscapsule.Outcome.{Outcome, crash, Leaving, Leaving-bind}
use moscapsule.Dial.{
  Sys, closes, new_context, limits_ciphers, presents, signs_with, TlsVersion, Handshake, done,
  asks_read, asks_write, fails_for_good, handshakes, TlsAnswers,
}
use moscapsule.Conn.{Conn}
use moscapsule.Client.{TlsOptions}
use moscapsule.Opening.{
  connect_tls, Attempt, noted, demand, start_context, limit_ciphers, present_certificate, sign_with,
  shaken, next_shake, shake, after_shake, secure, authenticate, is_zero, has_ca, version_of,
}

module _ (Before Closed : Attempt → Type 0) (s : ℕ)
    (closed : (a : Attempt) → Before a → Closed (noted (closes s) a)) where
  abbrev Goes : Outcome Attempt (Unit {0}) → Type 0
  Goes o = Leaving (λ _ a. Before a) Closed o

  pub demand-Goes : (b : Bool) (a : Attempt) → Before a → Goes (demand b s a)
  demand-Goes true a h = h
  demand-Goes false a h = closed a h

  demand-granted :
      (b : Bool) (a : Attempt)
      → Before a
      → Leaving (λ _ c. Before c × (b ≡ true)) Closed (demand b s a)
  demand-granted true a h = (h, refl)
  demand-granted false a h = closed a h

  pub start_context-Goes :
      (v : Option TlsVersion) (made : Bool) (a : Attempt)
      → ((w : TlsVersion)
          → Before (record (noted (new_context w) a) { conn = record (a.conn) { ssl_ctx = made } }))
      → Before a
      → Goes (start_context v made s a)
  start_context-Goes none made a k h = closed a h
  start_context-Goes (some v) made a k h = demand-Goes made _ (k v)

  pub limit_ciphers-Goes :
      (t : Option Text) (taken : Bool) (a : Attempt)
      → ((u : Text) → Before (noted (limits_ciphers u) a))
      → Before a
      → Goes (limit_ciphers t taken s a)
  limit_ciphers-Goes none taken a k h = h
  limit_ciphers-Goes (some t) taken a k h = demand-Goes taken _ (k t)

  pub present_certificate-Goes :
      (t : Option Text) (taken : Bool) (a : Attempt)
      → ((u : Text) → Before (noted (presents u) a))
      → Before a
      → Goes (present_certificate t taken s a)
  present_certificate-Goes none taken a k h = h
  present_certificate-Goes (some t) taken a k h = demand-Goes taken _ (k t)

  pub sign_with-Goes :
      (t : Option Text) (taken fits : Bool) (a : Attempt)
      → ((u : Text) → Before (noted (signs_with u) a))
      → Before a
      → Goes (sign_with t taken fits s a)
  sign_with-Goes none taken fits a k h = h
  sign_with-Goes (some t) false fits a k h = closed _ (k t)
  sign_with-Goes (some t) true fits a k h = demand-Goes fits _ (k t)

-- A call that neither opens nor closes a socket.
abbrev pub NoSocket : Sys → Type 0
NoSocket (Sys.opens s) = ⊥
NoSocket (closes s) = ⊥
NoSocket _ = Unit {0}

pub authenticate-Goes :
    (Before Closed : Attempt → Type 0) (s : ℕ)
    → ((a : Attempt) → Before a → Closed (noted (closes s) a))
    → ((call : Sys) (a : Attempt) → NoSocket call → Before a → Before (noted call a))
    → (b : Bool) (psk : Option Text) (o : TlsOptions) (t : TlsAnswers) (a : Attempt) → Before a
    → Leaving (λ _ c. Before c) Closed (authenticate b psk o t s a)
authenticate-Goes Before Closed s closed noting false none o t a h = h
authenticate-Goes Before Closed s closed noting false (some psk) o t a h =
    noting Sys.offers_psk a tt h
authenticate-Goes Before Closed s closed noting true psk o t a h =
    Leaving-bind (λ _ b. Before b) _ Closed (demand t.authorities s _) _
      (demand-Goes Before Closed s closed t.authorities _
        (noting (Sys.trusts o.cafile o.capath) a tt h))
      λ _ b k.
        let v : Before (noted (Sys.verifies (not (is_zero o.cert_reqs))) b) =
          noting (Sys.verifies (not (is_zero o.cert_reqs))) b tt k in
        Leaving-bind (λ _ c. Before c) _ Closed (present_certificate o.certfile t.certificate s _) _
          (present_certificate-Goes Before Closed s closed o.certfile t.certificate _
            (λ u. noting (presents u) _ tt v) v)
          (λ _ c l.
            sign_with-Goes Before Closed s closed o.keyfile t.key t.key_fits c
              (λ u. noting (signs_with u) c tt l) l)

-- What the answer of SSL_connect changes.
pub data Shaken (c : Conn) : Conn → Type 0 where
  answered :
      (shakes : List Handshake) (want_write want_connect : Bool)
      → Shaken c (record c {
        want_write = want_write;
        want_connect = want_connect;
        env = record (c.env) { shakes = shakes };
      })

-- With a TLS session, SSL_connect is called.
pub connect_tls-session : (c : Conn) → c.ssl ≡ true → connect_tls c ≡ next_shake c.shakes c
unfolding connect_tls
connect_tls-session c e = ap (λ b. if b then next_shake c.shakes c else crash) e

pub shake-Leaving :
    (P : Unit {0} → Attempt → Type 0) (Q : Attempt → Type 0) (s : ℕ) (a : Attempt)
    → a.conn.ssl ≡ true
    → ((c : Conn) → Shaken a.conn c → P tt (record (noted handshakes a) { conn = c }))
    → ((c : Conn)
        → Shaken a.conn c
        → Q (noted (closes s) (record (noted handshakes a) { conn = record c { sock = none } })))
    → Leaving P Q (shake s a)
unfolding shake
shake-Leaving P Q s a e h k =
    subst (λ o. Leaving P Q (after_shake s (noted handshakes a) o))
      (sym (connect_tls-session a.conn e)) (go a.conn.shakes)
  where
    with_answer :
        (answer : Handshake) (xs : List Handshake)
        → Leaving P Q (
            after_shake s
              (noted handshakes a)
              (shaken answer (record (a.conn) { env = record (a.conn.env) { shakes = xs } })))
    with_answer done xs = h _ (answered xs a.conn.want_write false)
    with_answer asks_read xs = h _ (answered xs a.conn.want_write true)
    with_answer asks_write xs = h _ (answered xs true true)
    with_answer fails_for_good xs = k _ (answered xs a.conn.want_write a.conn.want_connect)

    go :
        (xs : List Handshake)
        → Leaving P Q (after_shake s (noted handshakes a) (next_shake xs a.conn))
    go [] = h _ (answered a.conn.shakes a.conn.want_write true)
    go (answer ∷ xs) = with_answer answer xs

-- The steps one behind the other: `Ready` holds from the authentication to the handshake.
pub secure-Leaving :
    (Before Ready Closed : Attempt → Type 0) (P : Unit {0} → Attempt → Type 0) (o : TlsOptions)
    (t : TlsAnswers) (s : ℕ)
    → ((a : Attempt) → Before a → Closed (noted (closes s) a))
    → ((a : Attempt) → Ready a → Closed (noted (closes s) a))
    → ((v : TlsVersion) (made : Bool) (a : Attempt)
        → Before a
        → Before (record (noted (new_context v) a) { conn = record (a.conn) { ssl_ctx = made } }))
    → ((u : Text) (a : Attempt) → Before a → Before (noted (limits_ciphers u) a))
    → ((a : Attempt)
        → Before a
        → Leaving (λ _ b. Ready b) Closed (authenticate (has_ca o) o.psk o t s a))
    → ((made : Bool) (a : Attempt)
        → Ready a
        → Ready (record a { conn = record (a.conn) { ssl = made } }))
    → ((a : Attempt)
        → Ready a
        → a.conn.ssl ≡ true
        → Leaving P Closed (shake s (record a { conn = record (a.conn) { sock = some s } })))
    → (a : Attempt) → Before a
    → Leaving P Closed (secure o t s a)
unfolding secure
secure-Leaving Before Ready Closed P o t s closed closed' context ciphers authenticated session
      shakes a h =
    Leaving-bind _ P Closed (start_context (version_of o.version) t.context s a) _
      (start_context-Goes Before Closed s closed (version_of o.version) t.context a
        (λ v. context v t.context a h) h)
      λ _ b k.
        Leaving-bind _ P Closed (limit_ciphers o.ciphers t.ciphers s b) _
          (limit_ciphers-Goes Before Closed s closed o.ciphers t.ciphers b (λ u. ciphers u b k) k)
          λ _ c l.
            Leaving-bind _ P Closed (authenticate (has_ca o) o.psk o t s c) _ (authenticated c l)
              λ _ d m.
                Leaving-bind (λ _ e. ((Ready e × (e.conn.ssl ≡ t.session)) × (t.session ≡ true))) P
                  Closed (demand t.session s _) _
                  (demand-granted (λ e. Ready e × (e.conn.ssl ≡ t.session)) Closed s
                    (λ e n. closed' e n.0) t.session _ (session t.session d m, refl))
                  λ _ e n.
                    Leaving-bind _ P Closed (demand t.bio s e) _
                      (demand-Goes (λ f. Ready f × (f.conn.ssl ≡ true)) Closed s
                        (λ f q. closed' f q.0) t.bio e (n.0.0, n.0.1 ∙ n.1))
                      (λ _ f q. shakes f q.0 q.1)
