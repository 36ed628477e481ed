-- ===== src/Session/Opening.antt =====
-- Connecting keeps the client sound: the messages are reset, the socket opened, CONNECT is sent.
use moscapsule.Prelude.{ℕ, ◌+◌, ◌<◌, ◌^◌, ◌≡◌, refl, Bool, Option, none, some, length, arith}
use moscapsule.Types.{Protocol, mqtt31, mqtt311, Text, Message}
use moscapsule.Outcome.{After, After-bind, Holds, Holds-bind, Holds-weaken}
use moscapsule.Packet.{Packet, wrap32, write_byte, write_uint16, write_string}
use moscapsule.Packet.Room.{
  Room, Room-weaken, write_byte-Room, write_uint16-Room, write_string-Room,
}
use moscapsule.Conn.{Conn, must_malloc}
use moscapsule.Net.Calm.{
  Receivable, After-Receivable, Quiet, Quiet-refl, must_malloc-Quiet, packet_queue-Quiet,
}
use moscapsule.Send.{request, filled_by}
use moscapsule.Send.Calm.{filled_by-Quiet, made-Quiet}
use moscapsule.Client.{Options, Mosquitto}
use moscapsule.Connect.{
  protocol_name, protocol_level, header_length, will_length, login_length, connect_length,
  connect_flags, write_will, write_login, write_connect, connect_call, connect_as, send_connect,
}
use moscapsule.Session.{ShortText}
use moscapsule.Session.{IsNamed}
use moscapsule.Session.Sound.{FitsWill, GoodOptions, Sound, conn-Sound}

write_will-Room :
    (w : Option Message) (n : ℕ) (p : Packet)
    → Room (will_length w + n) p
    → Holds (λ _ p'. Room n p') (write_will w p)
write_will-Room none n p r = Room-weaken n (0 + n) p (omega arith) r
write_will-Room (some w) n p r =
    let k : ℕ = 2 + length w.payload + n in
    Holds-bind (λ _ p'. Room k p') _ (write_string w.topic (length w.topic) p) _
      (write_string-Room w.topic (length w.topic) k p
        (Room-weaken (2 + length w.topic + k) (will_length (some w) + n) p (omega arith) r))
      (λ _ p' r'. write_string-Room w.payload (length w.payload) n p' r')

write_login-Room :
    (username password : Option Text) (p : Packet)
    → Room (login_length username password) p
    → Holds (λ _ _. Unit {0}) (write_login username password p)
write_login-Room none password p r = tt
write_login-Room (some username) none p r =
    Holds-weaken _ _ (write_string username (length username) p)
      (write_string-Room username (length username) 0 p
        (Room-weaken (2 + length username + 0) (2 + length username) p (omega arith) r))
      (λ _ _ _. tt)
write_login-Room (some username) (some password) p r =
    let k : ℕ = 2 + length password + 0 in
    Holds-bind (λ _ p'. Room k p') _ (write_string username (length username) p) _
      (write_string-Room username (length username) k p (
        Room-weaken (2 + length username + k) (login_length (some username) (some password)) p
          (omega arith) r))
      λ _ p' r'.
        Holds-weaken _ _ (write_string password (length password) p')
          (write_string-Room password (length password) 0 p' r') (λ _ _ _. tt)

header-exact : (v : Protocol) → header_length v ≡ 2 + length (protocol_name v) + 4
header-exact mqtt31 = refl
header-exact mqtt311 = refl

write_connect-Ends :
    (keepalive : ℕ) (clean_session : Bool) (id : Text) (o : Options) (p : Packet)
    → Room (connect_length id o) p
    → Holds (λ _ _. Unit {0}) (write_connect keepalive clean_session id o p)
unfolding write_connect
write_connect-Ends keepalive clean_session id o p r =
    let login : ℕ = login_length o.username o.password in
    let rest : ℕ = 2 + length id + (will_length o.will + login) in
    let name : Text = protocol_name o.protocol in
    Holds-bind (λ _ p'. Room (1 + (1 + (2 + rest))) p') _ (write_string name (length name) p) _
      (write_string-Room name (length name) (1 + (1 + (2 + rest))) p (
        Room-weaken (2 + length name + (1 + (1 + (2 + rest)))) (connect_length id o) p
          (omega (arith, header-exact o.protocol)) r))
      λ _ p1 r1.
        Holds-bind (λ _ p'. Room (1 + (2 + rest)) p') _ (write_byte (protocol_level o.protocol) p1)
          _ (write_byte-Room _ (1 + (2 + rest)) p1 r1)
          λ _ p2 r2.
            Holds-bind (λ _ p'. Room (2 + rest) p') _
              (write_byte (connect_flags clean_session o) p2) _ (write_byte-Room _ (2 + rest) p2 r2)
              λ _ p3 r3.
                Holds-bind (λ _ p'. Room rest p') _ (write_uint16 keepalive p3) _
                  (write_uint16-Room keepalive rest p3 r3)
                  λ _ p4 r4.
                    Holds-bind (λ _ p'. Room (will_length o.will + login) p') _
                      (write_string id (length id) p4) _
                      (write_string-Room id (length id) (will_length o.will + login) p4 r4)
                      λ _ p5 r5.
                        Holds-bind (λ _ p'. Room login p') _ (write_will o.will p5) _
                          (write_will-Room o.will login p5 r5)
                          (λ _ p6 r6. write_login-Room o.username o.password p6 r6)

-- The length of a CONNECT does not wrap around.
login_length-bounded :
    (username password : Option Text)
    → ShortText username
    → ShortText password
    → login_length username password < 2 ^ 30
login_length-bounded none password u p = omega arith
login_length-bounded (some username) none u p = omega (arith, u)
login_length-bounded (some username) (some password) u p = omega (arith, u, p)

will_length-bounded : (w : Option Message) → FitsWill w → will_length w < 2 ^ 29
will_length-bounded none f = omega arith
will_length-bounded (some w) f = omega (arith, f)

header-bounded : (v : Protocol) → header_length v < 20
header-bounded mqtt31 = omega arith
header-bounded mqtt311 = omega arith

connect_length-bounded :
    (id : Text) (o : Options) → length id < 2 ^ 28 → GoodOptions o → connect_length id o < 2 ^ 32
connect_length-bounded id o i g = omega (
  arith,
  i,
  header-bounded o.protocol,
  will_length-bounded o.will g.will,
  login_length-bounded o.username o.password g.username g.password,
)

pub connect_call-Quiet :
    (base : Conn) (keepalive : ℕ) (clean_session : Bool) (id : Text) (o : Options) (c : Conn)
    → length id < 2 ^ 28
    → GoodOptions o
    → Quiet base c
    → After (Quiet base) (connect_call keepalive clean_session id o c)
connect_call-Quiet base keepalive clean_session id o c i g r =
    let n : ℕ = connect_length id o in
    After-bind (Quiet base) (must_malloc c) _ (must_malloc-Quiet base c r) λ _ c1 r1.
      made-Quiet base (request 0 0x10 (wrap32 n)) _ c1 r1 λ p c2 room r2.
        After-bind (Quiet base) (filled_by (write_connect keepalive clean_session id o) p c2) _
          (filled_by-Quiet base (write_connect keepalive clean_session id o) p c2
            (write_connect-Ends keepalive clean_session id o p
              (Room-weaken n (wrap32 n) p (omega (arith, connect_length-bounded id o i g)) room))
            r2)
          (λ p' c3 r3. packet_queue-Quiet base p' (record c3 { keepalive = keepalive }) r3)

connect_call-Receivable :
    (keepalive : ℕ) (clean_session : Bool) (id : Text) (o : Options) (c : Conn)
    → length id < 2 ^ 28
    → GoodOptions o
    → Receivable c
    → After Receivable (connect_call keepalive clean_session id o c)
connect_call-Receivable keepalive clean_session id o c i g h =
    After-Receivable c _ h (connect_call-Quiet c keepalive clean_session id o c i g (Quiet-refl c))

pub send_connect-Sound :
    (keepalive : ℕ) (clean_session : Bool) (m : Mosquitto)
    → Sound m
    → After Sound (send_connect keepalive clean_session m)
unfolding send_connect
send_connect-Sound keepalive clean_session m h = go m.options.id h.2.named
  where
    go : (i : Option Text) → IsNamed i → After Sound (connect_as i keepalive clean_session m)
    go none n = absurd n
    go (some id) n =
        conn-Sound (connect_call keepalive clean_session id m.options) m h
          (connect_call-Receivable keepalive clean_session id m.options m.conn n h.2 h.3)
