-- ===== src/Socks/Steady.antt =====
-- The packets to the proxy are sent, and each reply is awaited in a block of its size.
use moscapsule.Prelude.{
  ℕ, ◌≤◌, ◌≡◌, refl, sym, subst, ap, ◌∙◌, Option, none, some, List, [], All, length-replicate,
  replicate, arith,
}
use moscapsule.Types.{Text}
use moscapsule.Outcome.{Outcome, H, ok, err, crash, Holds, After, bind}
use moscapsule.Packet.{Packet}
use moscapsule.Conn.{Conn}
use moscapsule.Net.{with_in, packet_queue}
use moscapsule.Net.Calm.{Quiet, Quiet-refl, packet_queue-Quiet}
use moscapsule.Client.{with_conn, lifted}
use moscapsule.Send.Wire.{must_malloc-none}
use moscapsule.Messages.Safety.{FitsMessage}
use moscapsule.Session.Sound.{Sound, Waiting, GoodOptions}
use moscapsule.Socks.{
  SocksState, socks5_new, socks5_start, socks5_request, socks5_auth_ok, socks5_userpass_reply,
  socks5_send_userpass, past_proxy, Proxied, with_client, in_client, on_socket, await_reply,
  send_bytes, greeting, request_bytes, userpass_bytes, send_request, send_login, send_in,
  socks5_send,
}
use moscapsule.Socks.Replies.{Awaiting, block-none}

-- A username and a password are set.
abbrev pub HasLogin : Option Text → Option Text → Type 0
HasLogin none password = ⊥
HasLogin (some username) none = ⊥
HasLogin (some username) (some password) = Unit {0}

abbrev pub HasHost : Option Text → Type 0
HasHost none = ⊥
HasHost (some host) = Unit {0}

-- What the negotiation does not change.
pub record Steady (p : Proxied) : Type 0 where
  pub waiting : All Waiting p.client.in_messages
  pub fits : All FitsMessage p.client.out_messages
  pub good : GoodOptions p.client.options
  pub host : HasHost p.client.options.host
  pub login : HasLogin p.socks5_username p.socks5_password

-- What is awaited in each state in which the library waits for the proxy, and what holds behind it.
abbrev pub Negotiates : SocksState → Proxied → Type 0
Negotiates socks5_start p =
    Steady p × Awaiting p.client.in_packet × (p.client.in_packet.packet_length ≡ 2)
Negotiates socks5_userpass_reply p =
    Steady p × Awaiting p.client.in_packet × (p.client.in_packet.packet_length ≡ 2)
Negotiates socks5_request p =
    Steady p × Awaiting p.client.in_packet × (5 ≤ p.client.in_packet.packet_length)
Negotiates past_proxy p = Sound p.client
Negotiates _ p = ⊥

abbrev pub Negotiating : Proxied → Type 0
Negotiating p = Negotiates p.phase p

abbrev pub put : Conn → Proxied → Proxied
put c p = with_client (with_conn c p.client) p

pub on_socket-Holds :
    {A : Type 0} (Q : A → Conn → Type 0) (R : A → Proxied → Type 0) (f : H Conn A) (p : Proxied)
    → Holds Q (f p.client.conn)
    → ((a : A) (c : Conn) → Q a c → R a (put c p))
    → Holds R (on_socket f p)
on_socket-Holds {A} Q R f p h k = go (f p.client.conn) h
  where
    go : (o : Outcome Conn A) → Holds Q o → Holds R (in_client p (lifted p.client o))
    go (ok a c) q = k a c q
    go (err rc c) q = tt
    go crash q = q

abbrev reply_packet : ℕ → ℕ → Packet → Packet
reply_packet n junk q = record q {
  position = 0;
  packet_length = n;
  to_process = n;
  payload = replicate n junk;
}

pub await_reply-none :
    (n : ℕ) (c : Conn)
    → c.mem ≡ []
    → await_reply n c ≡ ok tt (with_in (reply_packet n c.junk c.in_packet) c)
await_reply-none n c h =
    let d : Conn = with_in (record (reply_packet n c.junk c.in_packet) { payload = [] }) c in
    ap
      (λ o.
        bind o (λ _ e. ok tt (with_in (record (e.in_packet) { payload = replicate n e.junk }) e)))
      (must_malloc-none d h)

-- The packet is queued, and the reply is awaited in a block of its size.
abbrev Sends : SocksState → ℕ → Proxied → Proxied → Type 0
Sends phase n p q =
    (q.phase ≡ phase)
    × Awaiting q.client.in_packet
    × (q.client.in_packet.packet_length ≡ n)
    × (Steady p → Steady q)

Awaiting-reply_packet : (n junk : ℕ) (q : Packet) → Awaiting (reply_packet n junk q)
Awaiting-reply_packet n junk q = record { whole = length-replicate n junk; cursor = omega arith }

queue-Sends :
    (phase : SocksState) (n : ℕ) (x : Packet) (p q : Proxied)
    → q.phase ≡ phase
    → Awaiting q.client.in_packet
    → q.client.in_packet.packet_length ≡ n
    → (Steady p → Steady q)
    → Holds (λ _ r. Sends phase n p r) (on_socket (packet_queue x) q)
queue-Sends phase n x p q e a l s =
    go (packet_queue x q.client.conn)
      (packet_queue-Quiet q.client.conn x q.client.conn (Quiet-refl q.client.conn))
  where
    go :
        (o : Outcome Conn (Unit {0}))
        → After (Quiet q.client.conn) o
        → Holds (λ _ r. Sends phase n p r) (in_client q (lifted q.client o))
    go (ok _ c) h = (
      e,
      subst Awaiting (sym h.0) a,
      ap (λ y. y.packet_length) h.0 ∙ l,
      λ k.
          let t = s k in
          record {
            waiting = t.waiting;
            fits = t.fits;
            good = t.good;
            host = t.host;
            login = t.login;
          },
    )
    go (err rc c) h = tt
    go crash h = h

send_bytes-Sends :
    (phase : SocksState) (n : ℕ) (bs : List ℕ) (p : Proxied)
    → p.client.mem ≡ []
    → Holds (λ _ q. Sends phase n p q) (send_bytes phase n bs p)
send_bytes-Sends phase n bs p m =
    rw (block-none p.client.conn m, await_reply-none n p.client.conn m)
      (queue-Sends phase n _ p
        (record (put (with_in (reply_packet n p.client.junk p.client.in_packet) p.client.conn) p) {
          phase = phase;
        })
        refl (Awaiting-reply_packet n p.client.junk p.client.in_packet) refl
        (λ k. record {
          waiting = k.waiting;
          fits = k.fits;
          good = k.good;
          host = k.host;
          login = k.login;
        }))

Sends-Negotiating :
    (phase : SocksState) (n : ℕ) (p q : Proxied)
    → ((r : Proxied)
        → Steady r
        → Awaiting r.client.in_packet
        → r.client.in_packet.packet_length ≡ n
        → Negotiates phase r)
    → Steady p
    → Sends phase n p q
    → Negotiating q
Sends-Negotiating phase n p q k h (e, a, l, s) = subst (λ x. Negotiates x q) (sym e) (k q (s h) a l)

-- The states in which there is a packet to send.
abbrev pub Asks : SocksState → Type 0
Asks socks5_new = Unit {0}
Asks socks5_auth_ok = Unit {0}
Asks socks5_send_userpass = Unit {0}
Asks _ = ⊥

module _ (p : Proxied) (m : p.client.mem ≡ []) (h : Steady p) where
  sent-Negotiating :
      (phase : SocksState) (n : ℕ) (bs : List ℕ)
      → ((r : Proxied)
          → Steady r
          → Awaiting r.client.in_packet
          → r.client.in_packet.packet_length ≡ n
          → Negotiates phase r)
      → Holds (λ _ q. Negotiating q) (send_bytes phase n bs p)
  sent-Negotiating phase n bs k = go (send_bytes phase n bs p) (send_bytes-Sends phase n bs p m)
    where
      go :
          (o : Outcome Proxied (Unit {0}))
          → Holds (λ _ q. Sends phase n p q) o
          → Holds (λ _ q. Negotiating q) o
      go (ok _ q) s = Sends-Negotiating phase n p q k h s
      go (err rc q) s = tt
      go crash s = s

  send_login-Negotiating :
      (username password : Option Text)
      → HasLogin username password
      → Holds (λ _ q. Negotiating q) (send_login username password p)
  send_login-Negotiating none password l = l
  send_login-Negotiating (some username) none l = l
  send_login-Negotiating (some username) (some password) l =
      sent-Negotiating socks5_userpass_reply 2 (userpass_bytes username password)
        (λ r t a e. (t, a, e))

  send_request-Negotiating :
      (host : Option Text) (port : ℕ)
      → HasHost host
      → Holds (λ _ q. Negotiating q) (send_request host port p)
  send_request-Negotiating none port l = l
  send_request-Negotiating (some host) port l =
      sent-Negotiating socks5_request 5 (request_bytes host port)
        (λ r t a e. (t, a, omega (arith, e)))

  send_in-Negotiating :
      (phase : SocksState) → Asks phase → Holds (λ _ q. Negotiating q) (send_in phase p)
  send_in-Negotiating socks5_new a =
      rw (must_malloc-none p.client.conn m)
        (sent-Negotiating socks5_start 2 (greeting p.socks5_username) (λ r t b e. (t, b, e)))
  send_in-Negotiating socks5_auth_ok a =
      rw (must_malloc-none p.client.conn m)
        (send_request-Negotiating p.client.options.host p.client.options.port h.host)
  send_in-Negotiating socks5_send_userpass a =
      rw (must_malloc-none p.client.conn m)
        (send_login-Negotiating p.socks5_username p.socks5_password h.login)
  send_in-Negotiating socks5_start a = absurd a
  send_in-Negotiating socks5_request a = absurd a
  send_in-Negotiating socks5_userpass_reply a = absurd a
  send_in-Negotiating past_proxy a = absurd a

  -- While memory does not run out, on a client with a host and with the proxy's username and
  -- password: where there is a packet to send to the proxy, it is sent or a code is returned, and on
  -- success its reply is awaited, in a block of its size.
  pub socks5_send-Negotiating : Asks p.phase → Holds (λ _ q. Negotiating q) (socks5_send p)
  unfolding socks5_send
  socks5_send-Negotiating a = send_in-Negotiating p.phase a
