-- ===== src/Socks/Negotiating.antt =====
-- The negotiation with the proxy does not crash, and each reply is read into a block of its size.
use moscapsule.Prelude.{
  ℕ, ◌+◌, ◌≤◌, ◌<◌, ◌≡◌, refl, sym, subst, ◌∙◌, Bool, true, false, Bool-cases, inl, inr, Option,
  none, some, [], length, length-append, length-replicate, replicate, get_elem?, get_elem?-some,
  ◌==◌, ◌!=◌, if◌then◌else◌, arith,
}
use moscapsule.Types.{new}
use moscapsule.Outcome.{Outcome, H, ok, err, crash, Holds, Holds-bind, After}
use moscapsule.Conn.{Conn}
use moscapsule.Net.{with_in, Progress, go_on, wait}
use moscapsule.Client.{Mosquitto}
use moscapsule.Session.Sound.{Sound}
use moscapsule.Session.Opening.{send_connect-Sound}
use moscapsule.Handle.Reading.{packet_cleanup-Receiving}
use moscapsule.Socks.{
  SocksState, socks5_new, socks5_start, socks5_request, socks5_auth_ok, socks5_userpass_reply,
  socks5_send_userpass, past_proxy, Proxied, in_client, on_socket, cleaned, read_reply, byte_at,
  next_state, use_start, use_login, grow_reply, extend_reply, use_request, use_request_reply,
  when_read, read_in, socks5_read,
}
use moscapsule.Socks.Replies.{Awaiting, Reading, Come, read_reply-Come, malloc-none}
use moscapsule.Socks.Steady.{
  Steady, Negotiates, Negotiating, Asks, put, on_socket-Holds, socks5_send-Negotiating,
}

put-Steady : (p : Proxied) (c : Conn) → Steady p → Steady (put c p)
put-Steady p c k = record {
  waiting = k.waiting;
  fits = k.fits;
  good = k.good;
  host = k.host;
  login = k.login;
}

if-Holds :
    {S A : Type 0} (P : A → S → Type 0) (b : Bool) (f g : H S A) (s : S)
    → Holds P (f s)
    → Holds P (g s)
    → Holds P ((if b then f else g) s)
if-Holds P true f g s h k = h
if-Holds P false f g s h k = k

byte_at-Holds :
    (P : Unit {0} → Proxied → Type 0) (i : ℕ) (use_byte : ℕ → H Proxied (Unit {0})) (p : Proxied)
    → i < length p.client.in_packet.payload
    → ((b : ℕ) → Holds P (use_byte b p))
    → Holds P (byte_at i use_byte p)
byte_at-Holds P i use_byte p h k =
    let (b, e) = get_elem?-some p.client.in_packet.payload i h in
    go (get_elem? p.client.in_packet.payload i) b e
  where
    go :
        (o : Option ℕ) (b : ℕ)
        → o ≡ some b
        → Holds P (elim o [ none ↦ crash | some d ↦ use_byte d p ])
    go none b e = absurd (ground (arith, e))
    go (some d) b e = k d

abbrev Lasts : Unit {0} → Proxied → Type 0
Lasts _ q = Negotiating q

-- A reply that has come is used, and one that has not is awaited further.
when_read-Lasts :
    (use_reply : H Proxied (Unit {0})) (n : ℕ) (p : Proxied)
    → Reading n p.client.conn
    → ((c : Conn) → Reading n c → Holds Lasts (use_reply (put c p)))
    → ((c : Conn) → Reading n c → Negotiating (put c p))
    → Holds Lasts (when_read use_reply p)
when_read-Lasts use_reply n p r k stay =
    Holds-bind Read Lasts (on_socket (read_reply p.client.in_packet.to_process) p) _
      (on_socket-Holds (Come n) Read (read_reply p.client.in_packet.to_process) p
        (read_reply-Come n p.client.in_packet.to_process p.client.conn (omega arith) r) come)
      (λ progress q h. h)
  where
    Read : Progress → Proxied → Type 0
    Read progress q = Holds Lasts (elim progress [ go_on ↦ use_reply q | wait ↦ ok tt q ])

    come : (progress : Progress) (c : Conn) → Come n progress c → Read progress (put c p)
    come go_on c h = k c h.0
    come wait c h = stay c h

module _ (p : Proxied) (m : p.client.mem ≡ []) (h : Steady p) where
  next_state-Lasts : (phase : SocksState) → Asks phase → Holds Lasts (next_state phase p)
  next_state-Lasts phase a =
      socks5_send-Negotiating (record (put (cleaned p.client.conn) p) { phase = phase }) m
        (record {
          waiting = h.waiting;
          fits = h.fits;
          good = h.good;
          host = h.host;
          login = h.login;
        })
        a

  use_start-Lasts : (version method : ℕ) → Holds Lasts (use_start version method p)
  use_start-Lasts version method = if-Holds Lasts (version != 5) _ _ p tt (
      if-Holds Lasts (method == 0) _ _ p (next_state-Lasts socks5_auth_ok tt)
        (if-Holds Lasts (method == 2) _ _ p (next_state-Lasts socks5_send_userpass tt) tt))

  use_login-Lasts : (version status : ℕ) → Holds Lasts (use_login version status p)
  use_login-Lasts version status =
      if-Holds Lasts (version != 1) _ _ p tt
        (if-Holds Lasts (status == 0) _ _ p (next_state-Lasts socks5_auth_ok tt) tt)

  use_request-Lasts : (version status : ℕ) → Holds Lasts (use_request version status p)
  use_request-Lasts version status = if-Holds Lasts (version != 5) _ _ p tt (
      if-Holds Lasts (status == 0) _ _ p
        (sent _ (
          send_connect-Sound p.client.keepalive p.client.clean_session behind.client
            (h.waiting, h.fits, h.good, inr (packet_cleanup-Receiving p.client.in_packet))))
        tt)
    where
      behind : Proxied
      behind = record (put (record (cleaned p.client.conn) { state = new }) p) {
        phase = past_proxy;
      }

      sent : (o : Outcome Mosquitto (Unit {0})) → After Sound o → Holds Lasts (in_client behind o)
      sent (ok _ n) k = k
      sent (err rc n) k = tt
      sent crash k = k

  -- The five bytes and those that follow are awaited together.
  extend_reply-Lasts :
      (address_type size : ℕ)
      → p.phase ≡ socks5_request
      → Reading 5 p.client.conn
      → Holds Lasts (on_socket (extend_reply address_type size) p)
  extend_reply-Lasts address_type size e r =
      on_socket-Holds Longer Lasts (extend_reply address_type size) p extended
        (λ _ c a. subst (λ x. Negotiates x (put c p)) (sym e) (put-Steady p c h, a.0, a.1))
    where
      Longer : Unit {0} → Conn → Type 0
      Longer _ c = Awaiting c.in_packet × (5 ≤ c.in_packet.packet_length)

      longer : (n : ℕ) → Holds Longer (grow_reply n p.client.conn)
      longer n =
          rw
            (malloc-none
              (with_in
                (record (p.client.in_packet) {
                  to_process = p.client.in_packet.to_process + n;
                  packet_length = p.client.in_packet.packet_length + n;
                })
                p.client.conn)
              m)
            (
              record {
                whole = ground (
                  arith,
                  length-append p.client.in_packet.payload (replicate n p.client.junk),
                  length-replicate n p.client.junk,
                  r.awaiting.whole,
                );
                cursor = omega (arith, r.awaiting.cursor);
              },
              omega (arith, r.expected),
            )

      extended : Holds Longer (extend_reply address_type size p.client.conn)
      extended = if-Holds Longer (address_type == 1) _ _ p.client.conn (longer 5) (
          if-Holds Longer (address_type == 4) _ _ p.client.conn (longer 17)
            (if-Holds Longer (address_type == 3) _ _ p.client.conn (longer size) tt))

-- What `socks5_read` needs: the library waits for the proxy.
abbrev pub WaitsForProxy : SocksState → Type 0
WaitsForProxy socks5_start = Unit {0}
WaitsForProxy socks5_userpass_reply = Unit {0}
WaitsForProxy socks5_request = Unit {0}
WaitsForProxy _ = ⊥

module _ (p : Proxied) (m : p.client.mem ≡ []) where
  start-Lasts :
      (use_reply : ℕ → ℕ → H Proxied (Unit {0}))
      → ((q : Proxied) → q.client.mem ≡ [] → Steady q → (a b : ℕ) → Holds Lasts (use_reply a b q))
      → ((q : Proxied)
          → q.phase ≡ p.phase
          → Steady q
          → Awaiting q.client.in_packet
          → q.client.in_packet.packet_length ≡ 2
          → Negotiating q)
      → Steady p
      → Awaiting p.client.in_packet
      → p.client.in_packet.packet_length ≡ 2
      → Holds Lasts (when_read (byte_at 0 (λ a. byte_at 1 (use_reply a))) p)
  start-Lasts use_reply uses stays h a l =
      when_read-Lasts _ 2 p (record { memory = m; expected = l; awaiting = a })
        (λ c r.
          byte_at-Holds Lasts 0 (λ x. byte_at 1 (use_reply x)) (put c p)
            (omega (arith, r.awaiting.whole, r.expected))
            (λ x.
              byte_at-Holds Lasts 1 (use_reply x) (put c p)
                (omega (arith, r.awaiting.whole, r.expected))
                (λ y. uses (put c p) r.memory (put-Steady p c h) x y)))
        (λ c r. stays (put c p) refl (put-Steady p c h) r.awaiting r.expected)

  request-Lasts :
      p.phase ≡ socks5_request
      → Steady p
      → Awaiting p.client.in_packet
      → 5 ≤ p.client.in_packet.packet_length
      → Holds Lasts (when_read use_request_reply p)
  request-Lasts e h a l =
      when_read-Lasts use_request_reply p.client.in_packet.packet_length p
        (record { memory = m; expected = refl; awaiting = a }) uses
        (λ c r.
          subst (λ x. Negotiates x (put c p)) (sym e)
            (put-Steady p c h, r.awaiting, omega (arith, r.expected, l)))
    where
      uses :
          (c : Conn)
          → Reading p.client.in_packet.packet_length c
          → Holds Lasts (use_request_reply (put c p))
      uses c r = elim (Bool-cases (c.in_packet.packet_length == 5)) [
        | inl t ↦
            let five : c.in_packet.packet_length ≡ 5 = ground (arith, t) in
            rw t (
              byte_at-Holds Lasts 3 (λ x. byte_at 4 (λ y. on_socket (extend_reply x y))) (put c p)
                (omega (arith, r.awaiting.whole, five))
                (λ x.
                  byte_at-Holds Lasts 4 (λ y. on_socket (extend_reply x y)) (put c p)
                    (omega (arith, r.awaiting.whole, five))
                    (λ y.
                      extend_reply-Lasts (put c p) r.memory (put-Steady p c h) x y e
                        (record { memory = r.memory; expected = five; awaiting = r.awaiting }))))
        | inr t ↦ rw t (
            byte_at-Holds Lasts 0 (λ x. byte_at 1 (use_request x)) (put c p)
              (omega (arith, r.awaiting.whole, r.expected, l))
              (λ x.
                byte_at-Holds Lasts 1 (use_request x) (put c p)
                  (omega (arith, r.awaiting.whole, r.expected, l))
                  (λ y. use_request-Lasts (put c p) r.memory (put-Steady p c h) x y)))
      ]

  read_in-Lasts :
      (phase : SocksState)
      → p.phase ≡ phase
      → WaitsForProxy phase
      → Negotiates phase p
      → Holds Lasts (read_in phase p)
  read_in-Lasts socks5_start e w (h, a, l) =
      start-Lasts use_start (λ q k t. use_start-Lasts q k t)
        (λ q f t b n. subst (λ x. Negotiates x q) (sym (f ∙ e)) (t, b, n)) h a l
  read_in-Lasts socks5_userpass_reply e w (h, a, l) =
      start-Lasts use_login (λ q k t. use_login-Lasts q k t)
        (λ q f t b n. subst (λ x. Negotiates x q) (sym (f ∙ e)) (t, b, n)) h a l
  read_in-Lasts socks5_request e w (h, a, l) = request-Lasts e h a l
  read_in-Lasts socks5_new e w n = absurd w
  read_in-Lasts socks5_auth_ok e w n = absurd w
  read_in-Lasts socks5_send_userpass e w n = absurd w
  read_in-Lasts past_proxy e w n = absurd w

-- While memory does not run out, on a client with a host and with the proxy's username and password,
-- while a reply of the proxy is awaited in a block of its size: `mosquitto__socks5_read` returns,
-- whatever the proxy answers, and on success a reply is still awaited in a block of its size, or the
-- negotiation is over and the client is sound.
pub socks5_read-Negotiating :
    (p : Proxied)
    → p.client.mem ≡ []
    → WaitsForProxy p.phase
    → Negotiating p
    → Holds (λ _ q. Negotiating q) (socks5_read p)
unfolding socks5_read
socks5_read-Negotiating p m w h = read_in-Lasts p m p.phase refl w h
