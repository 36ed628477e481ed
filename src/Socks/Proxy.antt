-- ===== src/Socks/Proxy.antt =====
-- What a proxy reads in the packets that are sent to it, by RFC 1928 and RFC 1929.
use moscapsule.Prelude.{
  ℕ, ◌+◌, ◌*◌, ◌%◌, ◌^◌, append-nil, ◌<◌, ◌≡◌, refl, sym, subst, ap, ◌∙◌, true, Option, none, some,
  List, [], ◌∷◌, ◌++◌, length, length-append, take, drop, take-append, drop-append, take-length,
  ◌==◌, ◌&&◌, leb, if◌then◌else◌, arith,
}
use moscapsule.Types.{Text}
use moscapsule.Outcome.{Outcome, ok, err, crash, After, After-weaken}
use moscapsule.Packet.{Packet, zeroed, msb, lsb}
use moscapsule.Conn.{Conn}
use moscapsule.Client.{lifted}
use moscapsule.Net.{packet_queue}
use moscapsule.Net.Sending.{pending, packet_queue-Conserves}
use moscapsule.Send.Wire.{must_malloc-none}
use moscapsule.Socks.{
  SocksState, socks5_auth_ok, socks5_send_userpass, socks5_request, socks5_userpass_reply,
  on_socket, Proxied, in_client, send_bytes, request_bytes, userpass_bytes, send_in, send_request,
  send_login, socks5_send,
}
use moscapsule.Socks.Replies.{block-none}
use moscapsule.Socks.Steady.{await_reply-none}

-- The port behind the name.
abbrev parse_port : Text → List ℕ → Option (Text × ℕ)
parse_port name (high ∷ low ∷ []) = some (name, high * 256 + low)
parse_port name _ = none

-- A request to connect to a host by its name.
abbrev pub parse_request : List ℕ → Option (Text × ℕ)
parse_request (version ∷ command ∷ reserved ∷ address_type ∷ size ∷ rest) =
    if version == 5 && command == 1 && reserved == 0 && address_type == 3
    then parse_port (take size rest) (drop size rest)
    else none
parse_request _ = none

-- A text behind its length.
abbrev parse_text : List ℕ → Option (Text × List ℕ)
parse_text [] = none
parse_text (size ∷ rest) =
    if leb size (length rest) then some (take size rest, drop size rest) else none

abbrev parse_password : Text → Option (Text × List ℕ) → Option (Text × Text)
parse_password username (some (password, [])) = some (username, password)
parse_password username _ = none

abbrev parse_names : Option (Text × List ℕ) → Option (Text × Text)
parse_names none = none
parse_names (some (username, rest)) = parse_password username (parse_text rest)

-- A username and a password.
abbrev pub parse_login : List ℕ → Option (Text × Text)
parse_login [] = none
parse_login (version ∷ rest) = if version == 1 then parse_names (parse_text rest) else none

request_bytes-parse_request :
    (host : Text) (port : ℕ)
    → length host < 256
    → port < 2 ^ 16
    → parse_request (request_bytes host port) ≡ some (host, port)
request_bytes-parse_request host port h k =
    let size : length host % 256 ≡ length host = omega (arith, h) in
    rw
      (
        size,
        take-append (length host) host (msb port ∷ lsb port ∷ []) refl,
        drop-append (length host) host (msb port ∷ lsb port ∷ []) refl,
      )
      (ap (λ n. some (host, n)) (omega (arith, k)))

parse_text-append :
    (t rest : List ℕ) → length t < 256 → parse_text (length t % 256 ∷ (t ++ rest)) ≡ some (t, rest)
parse_text-append t rest h =
    let size : length t % 256 ≡ length t = omega (arith, h) in
    let fits : leb (length t) (length (t ++ rest)) ≡ true = ground (arith, length-append t rest) in
    rw (size, fits, take-append (length t) t rest refl, drop-append (length t) t rest refl)

userpass_bytes-parse_login :
    (username password : Text)
    → length username < 256
    → length password < 256
    → parse_login (userpass_bytes username password) ≡ some (username, password)
userpass_bytes-parse_login username password h k =
    let p : parse_text (length password % 256 ∷ password) ≡ some (password, []) =
      subst (λ t. parse_text (length password % 256 ∷ t) ≡ some (password, []))
        (append-nil password) (parse_text-append password [] k) in
    rw (parse_text-append username (length password % 256 ∷ password) h)
      (ap (parse_password username) p)

-- All that was promised to the socket, sent or not.
abbrev pub promised : Proxied → List ℕ
promised p = p.client.sent ++ pending p.client.conn

queue-promised :
    (bs : List ℕ) (p q : Proxied)
    → promised q ≡ promised p
    → After
        (λ r. promised r ≡ promised p ++ bs)
        (on_socket (packet_queue (record zeroed { payload = bs; packet_length = length bs })) q)
queue-promised bs p q e = go (packet_queue x q.client.conn) (packet_queue-Conserves x q.client.conn)
  where
    x : Packet
    x = record zeroed { payload = bs; packet_length = length bs }

    go :
        (o : Outcome Conn (Unit {0}))
        → After (λ c. c.sent ++ pending c ≡ promised q ++ take (length bs) bs) o
        → After (λ r. promised r ≡ promised p ++ bs) (in_client q (lifted q.client o))
    go (ok _ c) h = h ∙ (ap (◌++◌ (promised q)) (take-length bs) ∙ ap (λ t. t ++ bs) e)
    go (err rc c) h = h ∙ (ap (◌++◌ (promised q)) (take-length bs) ∙ ap (λ t. t ++ bs) e)
    go crash h = h

send_bytes-promised :
    (phase : SocksState) (n : ℕ) (bs : List ℕ) (p : Proxied)
    → p.client.mem ≡ []
    → After (λ q. promised q ≡ promised p ++ bs) (send_bytes phase n bs p)
send_bytes-promised phase n bs p m =
    rw (block-none p.client.conn m, await_reply-none n p.client.conn m) (queue-promised bs p _ refl)

-- While memory does not run out, and once the proxy has accepted the client: for a host name below
-- 256 bytes and a port below 2 ^ 16, what `mosquitto__socks5_send` promises to the socket, behind all
-- that was promised before and whichever code it returns, is read by a proxy as the request for that
-- host and port.
pub socks5_send-parse_request :
    (p : Proxied) (host : Text)
    → p.client.mem ≡ []
    → p.phase ≡ socks5_auth_ok
    → p.client.host ≡ some host
    → length host < 256
    → p.client.port < 2 ^ 16
    → After
        (λ q.
          (bs : List ℕ) × (promised q ≡ promised p ++ bs)
          × (parse_request bs ≡ some (host, p.client.port)))
        (socks5_send p)
unfolding socks5_send
socks5_send-parse_request p host m phase e h k =
    subst (λ x. After Requested (send_in x p)) (sym phase)
      (rw (must_malloc-none p.client.conn m) (
        subst (λ o. After Requested (send_request o p.client.port p)) (sym e)
          (After-weaken (λ q. promised q ≡ promised p ++ bs) Requested
            (send_bytes socks5_request 5 bs p) (send_bytes-promised socks5_request 5 bs p m)
            (λ q r. (bs, r, request_bytes-parse_request host p.client.port h k)))))
  where
    bs : List ℕ
    bs = request_bytes host p.client.port

    Requested : Proxied → Type 0
    Requested q =
        (bs : List ℕ) × (promised q ≡ promised p ++ bs)
        × (parse_request bs ≡ some (host, p.client.port))

-- While memory does not run out, and once the proxy has asked for a login: for a username and a
-- password below 256 bytes, what `mosquitto__socks5_send` promises to the socket, behind all that was
-- promised before and whichever code it returns, is read by a proxy as that login.
pub socks5_send-parse_login :
    (p : Proxied) (username password : Text)
    → p.client.mem ≡ []
    → p.phase ≡ socks5_send_userpass
    → p.socks5_username ≡ some username
    → p.socks5_password ≡ some password
    → length username < 256
    → length password < 256
    → After
        (λ q.
          (bs : List ℕ) × (promised q ≡ promised p ++ bs)
          × (parse_login bs ≡ some (username, password)))
        (socks5_send p)
unfolding socks5_send
socks5_send-parse_login p username password m phase e f h k =
    subst (λ x. After LoggedIn (send_in x p)) (sym phase)
      (rw (must_malloc-none p.client.conn m) (
        subst (λ o. After LoggedIn (send_login o p.socks5_password p)) (sym e)
          (subst (λ o. After LoggedIn (send_login (some username) o p)) (sym f)
            (After-weaken (λ q. promised q ≡ promised p ++ bs) LoggedIn
              (send_bytes socks5_userpass_reply 2 bs p)
              (send_bytes-promised socks5_userpass_reply 2 bs p m)
              (λ q r. (bs, r, userpass_bytes-parse_login username password h k))))))
  where
    bs : List ℕ
    bs = userpass_bytes username password

    LoggedIn : Proxied → Type 0
    LoggedIn q =
        (bs : List ℕ) × (promised q ≡ promised p ++ bs)
        × (parse_login bs ≡ some (username, password))
