-- ===== src/Socks.antt =====
-- mosquitto/lib/socks_mosq.c: the negotiation with a SOCKS 5 proxy, built WITH_SOCKS. It stands
-- before the CONNECT of the client and reads and writes over the same socket and packets.
pub mod Proxy
pub mod Replies
pub mod Steady
pub mod Negotiating
use moscapsule.Prelude.{
  ℕ, zero, suc, ◌+◌, ◌%◌, ℤ, pos, negsuc, Bool, true, false, Option, none, some, List, [], ◌∷◌,
  ◌++◌, if◌then◌else◌, ◌==◌, ◌!=◌, ◌&&◌, ◌||◌, leb, ltb, length, replicate, get_elem?, is_some,
}
use moscapsule.Types.{Rc, inval, Text, Errno, clear, again, conn_reset, new}
use moscapsule.Outcome.{Outcome, H, bind, ok, err, crash, ◌>>=◌, ◌>>◌, pure, modify}
use moscapsule.Packet.{Packet, zeroed, packet_cleanup, msb, lsb}
use moscapsule.Conn.{Conn, malloc, must_malloc}
use moscapsule.Net.{
  bytes, end_of_stream, nothing, net_read, with_in, store, Progress, go_on, wait, packet_queue,
}
use moscapsule.Client.{Mosquitto, with_conn, on_conn}
use moscapsule.Connect.{send_connect}
use moscapsule.Handle.{packet_read}

-- The states of `enum mosquitto_client_state` that the proxy adds; `past_proxy` is any other.
pub data SocksState : Type 0 where
  socks5_new socks5_start socks5_request socks5_auth_ok : SocksState
  socks5_userpass_reply socks5_send_userpass past_proxy : SocksState

-- The fields that the proxy adds to `struct mosquitto`. A text that was given back and is still
-- pointed at is kept.
pub record Proxied : Type 0 where
  pub client : Mosquitto
  pub phase : SocksState
  pub socks5_host : Option Text
  pub socks5_port : ℕ
  pub socks5_username : Option Text
  pub socks5_password : Option Text

abbrev pub with_client : Mosquitto → Proxied → Proxied
with_client m p = record p { client = m }

abbrev pub in_client : {A : Type 0} → Proxied → Outcome Mosquitto A → Outcome Proxied A
in_client p (ok a m) = ok a (with_client m p)
in_client p (err rc m) = err rc (with_client m p)
in_client p crash = crash

abbrev pub on_client : {A : Type 0} → H Mosquitto A → H Proxied A
on_client f p = in_client p (f p.client)

abbrev pub on_socket : {A : Type 0} → H Conn A → H Proxied A
on_socket f = on_client (on_conn f)

abbrev pub in_phase : SocksState → H Proxied (Unit {0})
in_phase phase p = ok tt (record p { phase = phase })

-- `port < 1 || port > 65535`
abbrev pub is_port : ℤ → Bool
is_port (pos n) = leb 1 n && leb n 65535
is_port (negsuc n) = false

abbrev pub port_number : ℤ → ℕ
port_number (pos n) = n
port_number (negsuc n) = 0

abbrev pub set_password : Option Text → H Proxied (Unit {0})
set_password none = pure tt
set_password (some t) = do
  on_socket must_malloc
  modify (λ p. record p { socks5_password = some t })

abbrev pub set_login : Option Text → Option Text → H Proxied (Unit {0})
set_login none password = pure tt
set_login (some t) password = do
  modify (λ p. record p { socks5_username = none })
  on_socket must_malloc
  modify (λ p. record p { socks5_username = some t })
  set_password password

abbrev pub set_host : Text → ℤ → Option Text → Option Text → H Proxied (Unit {0})
set_host host port username password = do
  modify (λ p. record p { socks5_host = none })
  on_socket must_malloc
  modify (λ p. record p { socks5_host = some host; socks5_port = port_number port })
  set_login username password

-- `mosquitto_socks5_set`
unfoldable pub socks5_set : Option Text → ℤ → Option Text → Option Text → H Proxied (Unit {0})
socks5_set none port username password p = err inval p
socks5_set (some host) port username password p =
    if ltb 256 (length host) || (if is_port port then false else true)
    then err inval p
    else set_host host port username password p

-- `packet->payload = _mosquitto_malloc(...)`, written without a test.
abbrev pub block : H Conn (Unit {0})
block c = bind (malloc c) (λ granted c'. if granted then ok tt c' else crash)

-- The reply that is awaited, of so many bytes.
abbrev pub await_reply : ℕ → H Conn (Unit {0})
await_reply n = do
  modify (λ c.
      with_in
        (record (c.in_packet) { position = 0; packet_length = n; to_process = n; payload = [] }) c)
  must_malloc
  modify (λ c. with_in (record (c.in_packet) { payload = replicate n c.junk }) c)

-- The common end of the three branches, over the bytes of the packet.
abbrev pub send_bytes : SocksState → ℕ → List ℕ → H Proxied (Unit {0})
send_bytes phase expected bs = do
  on_socket block
  in_phase phase
  on_socket (await_reply expected)
  on_socket (packet_queue (record zeroed { payload = bs; packet_length = length bs }))

-- SOCKS_AUTH_NONE is 0 and SOCKS_AUTH_USERPASS 2.
abbrev pub greeting : Option Text → List ℕ
greeting none = 5 ∷ 1 ∷ 0 ∷ []
greeting (some username) = 5 ∷ 2 ∷ 0 ∷ 2 ∷ []

-- CONNECT to a host by name, SOCKS_ATYPE_DOMAINNAME. The length is a uint8_t.
abbrev pub request_bytes : Text → ℕ → List ℕ
request_bytes host port = 5 ∷ 1 ∷ 0 ∷ 3 ∷ length host % 256 ∷ (host ++ (msb port ∷ lsb port ∷ []))

abbrev pub userpass_bytes : Text → Text → List ℕ
userpass_bytes username password =
    1 ∷ length username % 256 ∷ (username ++ (length password % 256 ∷ password))

abbrev pub send_request : Option Text → ℕ → H Proxied (Unit {0})
send_request none port p = crash
send_request (some host) port p = send_bytes socks5_request 5 (request_bytes host port) p

abbrev pub send_login : Option Text → Option Text → H Proxied (Unit {0})
send_login none password p = crash
send_login (some username) none p = crash
send_login (some username) (some password) p =
    send_bytes socks5_userpass_reply 2 (userpass_bytes username password) p

abbrev pub send_in : SocksState → H Proxied (Unit {0})
send_in socks5_new = do
  on_socket must_malloc
  λ p. send_bytes socks5_start 2 (greeting p.socks5_username) p
send_in socks5_auth_ok = do on_socket must_malloc; λ p. send_request p.client.host p.client.port p
send_in socks5_send_userpass = do
  on_socket must_malloc
  λ p. send_login p.socks5_username p.socks5_password p
send_in _ = pure tt

-- `mosquitto__socks5_send`
unfoldable pub socks5_send : H Proxied (Unit {0})
socks5_send p = send_in p.phase p

-- The `switch(errno)` of a failed read.
abbrev pub failed_code : Errno → Rc
failed_code clear = Rc.proxy
failed_code conn_reset = Rc.conn_lost
failed_code _ = Rc.errno

abbrev pub cleaned : Conn → Conn
cleaned c = with_in (packet_cleanup c.in_packet) c

-- `_mosquitto_packet_cleanup(&mosq->in_packet); return rc;`
abbrev pub refuse : {A : Type 0} → Rc → H Conn A
refuse rc c = err rc (cleaned c)

abbrev pub reply_stopped : Errno → H Conn Progress
reply_stopped again c = ok wait c
reply_stopped e c = refuse (failed_code e) c

-- `while(mosq->in_packet.to_process > 0)`; each round takes a byte at least.
unfoldable pub read_reply : ℕ → H Conn Progress
unfolding net_read
read_reply zero c = ok go_on c
read_reply (suc rounds) c = elim (c.in_packet.to_process == 0) [
  | true ↦ ok go_on c
  | false ↦ elim (net_read c.in_packet.to_process c) [
    | bytes bs c' ↦ read_reply rounds (with_in (store bs c'.in_packet) c')
    | end_of_stream c' ↦ reply_stopped c'.err_no c'
    | nothing c' ↦ reply_stopped c'.err_no c'
  ]
]

-- `mosq->in_packet.payload[i]`
abbrev pub byte_at : {A : Type 0} → ℕ → (ℕ → H Proxied A) → H Proxied A
byte_at i use_byte p = elim (get_elem? p.client.in_packet.payload i) [
  | none ↦ crash
  | some b ↦ use_byte b p
]

-- What the proxy refuses, by SOCKS_REPLY_*.
abbrev pub refusal : ℕ → Rc
refusal b =
    if b == 2
    then Rc.auth
    else if b == 3 || b == 4 || b == 5
    then Rc.no_conn
    else if b == 1 || b == 6 || b == 7 || b == 8
    then Rc.proxy
    else inval

abbrev pub refuse_reply : Rc → H Proxied (Unit {0})
refuse_reply rc = on_socket (refuse rc)

-- The reply is done with, and the next packet is sent.
abbrev pub next_state : SocksState → H Proxied (Unit {0})
next_state phase = do on_socket (modify cleaned); in_phase phase; socks5_send

abbrev pub use_start : ℕ → ℕ → H Proxied (Unit {0})
use_start version method =
    if version != 5
    then refuse_reply Rc.proxy
    else if method == 0
    then next_state socks5_auth_ok
    else if method == 2
    then next_state socks5_send_userpass
    else refuse_reply Rc.auth

abbrev pub use_login : ℕ → ℕ → H Proxied (Unit {0})
use_login version status =
    if version != 1
    then refuse_reply Rc.proxy
    else if status == 0
    then next_state socks5_auth_ok
    else refuse_reply (refusal status)

-- The reply is longer by `n` bytes: `_mosquitto_realloc`.
abbrev pub grow_reply : ℕ → H Conn (Unit {0})
grow_reply n c =
    let q : Packet = record (c.in_packet) {
      to_process = c.in_packet.to_process + n;
      packet_length = c.in_packet.packet_length + n;
    } in
    bind (malloc (with_in q c)) (λ granted d.
      if granted
      then ok tt
          (with_in (record (d.in_packet) { payload = d.in_packet.payload ++ replicate n d.junk }) d)
      else refuse Rc.nomem d)

-- The first five bytes say how many follow, by the type of the address.
abbrev pub extend_reply : ℕ → ℕ → H Conn (Unit {0})
extend_reply address_type size =
    if address_type == 1
    then grow_reply 5
    else if address_type == 4
    then grow_reply 17
    else if address_type == 3
    then grow_reply size
    else refuse Rc.protocol

abbrev pub use_request : ℕ → ℕ → H Proxied (Unit {0})
use_request version status =
    if version != 5
    then refuse_reply Rc.proxy
    else if status == 0
    then (do
      on_socket (modify (λ c. record (cleaned c) { state = new }))
      in_phase past_proxy
      λ p. on_client (send_connect p.client.keepalive p.client.clean_session) p)
    else (do on_socket (modify cleaned); in_phase socks5_new; λ p. err (refusal status) p)

abbrev pub when_read : H Proxied (Unit {0}) → H Proxied (Unit {0})
when_read use_reply p =
    bind (on_socket (read_reply p.client.in_packet.to_process) p)
      (λ progress q. elim progress [ go_on ↦ use_reply q | wait ↦ ok tt q ])

abbrev pub use_request_reply : H Proxied (Unit {0})
use_request_reply p =
    if p.client.in_packet.packet_length == 5
    then byte_at 3 (λ address_type. byte_at 4 (λ size. on_socket (extend_reply address_type size)))
        p
    else byte_at 0 (λ version. byte_at 1 (use_request version)) p

abbrev pub read_in : SocksState → H Proxied (Unit {0})
read_in socks5_start = when_read (byte_at 0 (λ version. byte_at 1 (use_start version)))
read_in socks5_userpass_reply = when_read (byte_at 0 (λ version. byte_at 1 (use_login version)))
read_in socks5_request = when_read use_request_reply
read_in _ = on_client packet_read

-- `mosquitto__socks5_read`
unfoldable pub socks5_read : H Proxied (Unit {0})
unfolding read_reply socks5_send
socks5_read p = read_in p.phase p
