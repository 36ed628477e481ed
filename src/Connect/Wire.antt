-- ===== src/Connect/Wire.antt =====
-- The bytes of CONNECT on the wire.
use moscapsule.Prelude.{
  ℕ, ◌+◌, ◌*◌, ◌/◌, ◌%◌, ◌<◌, ◌^◌, ◌≡◌, refl, sym, ap, subst, ◌∙◌, ◌==◌, ◌&&◌, is_some, Bool, true,
  false, Option, none, some, List, [], ◌∷◌, ◌++◌, length, length-append, arith,
}
use moscapsule.Types.{Protocol, mqtt31, mqtt311, Text, Message}
use moscapsule.Outcome.{Outcome, ok, err, crash, H, After, ◌>>◌}
use moscapsule.Conn.{Conn}
use moscapsule.Packet.{Packet, wrap32, msb, lsb, write_byte, write_uint16, write_string}
use moscapsule.Packet.Writes.{string_bytes}
use moscapsule.Net.Sending.{pending}
use moscapsule.Send.{request, filled_by, bit}
use moscapsule.Send.Wire.{must_malloc-none, packet_alloc-none}
use moscapsule.Send.Writing.{
  Writes, nothing-Writes, then-Writes, write_byte-Writes, write_uint16-Writes, write_string-Writes,
}
use moscapsule.Send.Requests.{header_bytes, Writes-packed, packed-wire}
use moscapsule.Client.{Options, Mosquitto, lifted}
use moscapsule.Connect.{
  protocol_name, protocol_level, header_length, will_length, login_length, connect_length,
  will_flags, login_flags, connect_flags, write_will, write_login, write_connect, connect_call,
  connect_as, send_connect,
}

abbrev pub will_bytes : Option Message → List ℕ
will_bytes none = []
will_bytes (some w) = string_bytes w.topic ++ string_bytes w.payload

abbrev pub login_bytes : Option Text → Option Text → List ℕ
login_bytes none password = []
login_bytes (some username) none = string_bytes username
login_bytes (some username) (some password) = string_bytes username ++ string_bytes password

-- The variable header and the payload of a CONNECT, as MQTT lays them out.
abbrev pub connect_bytes : ℕ → Bool → Text → Options → List ℕ
connect_bytes keepalive clean_session id o =
    string_bytes (protocol_name o.protocol)
    ++ ((protocol_level o.protocol ∷ [])
        ++ ((connect_flags clean_session o ∷ [])
            ++ ((msb keepalive ∷ lsb keepalive ∷ [])
                ++ (string_bytes id ++ (will_bytes o.will ++ login_bytes o.username o.password)))))

-- Texts and a payload of the will that 16 bits can measure.
abbrev pub Measured : Option Text → Type 0
Measured none = Unit {0}
Measured (some t) = length t < 2 ^ 16

abbrev pub MeasuredWill : Option Message → Type 0
MeasuredWill none = Unit {0}
MeasuredWill (some w) = (length w.topic < 2 ^ 16) × (length w.payload < 2 ^ 16)

pub record MeasuredOptions (o : Options) : Type 0 where
  pub username : Measured o.username
  pub password : Measured o.password
  pub will : MeasuredWill o.will

write_will-Writes : (w : Option Message) → MeasuredWill w → Writes (write_will w) (will_bytes w)
write_will-Writes none h = nothing-Writes
write_will-Writes (some w) h =
    then-Writes (write_string w.topic (length w.topic)) (write_string w.payload (length w.payload))
      (string_bytes w.topic) (string_bytes w.payload) (write_string-Writes w.topic h.0)
      (write_string-Writes w.payload h.1)

write_login-Writes :
    (username password : Option Text)
    → Measured username
    → Measured password
    → Writes (write_login username password) (login_bytes username password)
write_login-Writes none password u p = nothing-Writes
write_login-Writes (some username) none u p = write_string-Writes username u
write_login-Writes (some username) (some password) u p =
    then-Writes (write_string username (length username)) (write_string password (length password))
      (string_bytes username) (string_bytes password) (write_string-Writes username u)
      (write_string-Writes password p)

protocol_name-short : (v : Protocol) → length (protocol_name v) < 2 ^ 16
protocol_name-short mqtt31 = omega arith
protocol_name-short mqtt311 = omega arith

write_connect-Writes :
    (keepalive : ℕ) (clean_session : Bool) (id : Text) (o : Options)
    → length id < 2 ^ 16
    → MeasuredOptions o
    → Writes
        (write_connect keepalive clean_session id o)
        (connect_bytes keepalive clean_session id o)
unfolding write_connect
write_connect-Writes keepalive clean_session id o short h =
    let name : Text = protocol_name o.protocol in
    let flags : ℕ = connect_flags clean_session o in
    let from_will : H Packet (Unit {0}) = write_will o.will >> write_login o.username o.password in
    let from_id : H Packet (Unit {0}) = write_string id (length id) >> from_will in
    let from_keepalive : H Packet (Unit {0}) = write_uint16 keepalive >> from_id in
    let from_flags : H Packet (Unit {0}) = write_byte flags >> from_keepalive in
    let from_level : H Packet (Unit {0}) = write_byte (protocol_level o.protocol) >> from_flags in
    then-Writes (write_string name (length name)) from_level (string_bytes name) _
      (write_string-Writes name (protocol_name-short o.protocol))
      (then-Writes (write_byte (protocol_level o.protocol)) from_flags
        (protocol_level o.protocol ∷ []) _ (write_byte-Writes (protocol_level o.protocol))
        (then-Writes (write_byte flags) from_keepalive (flags ∷ []) _ (write_byte-Writes flags) (
          then-Writes (write_uint16 keepalive) from_id (msb keepalive ∷ lsb keepalive ∷ []) _
            (write_uint16-Writes keepalive)
            (then-Writes (write_string id (length id)) from_will (string_bytes id) _
              (write_string-Writes id short)
              (then-Writes (write_will o.will) (write_login o.username o.password)
                (will_bytes o.will) (login_bytes o.username o.password)
                (write_will-Writes o.will h.will)
                (write_login-Writes o.username o.password h.username h.password))))))

will_bytes-length : (w : Option Message) → length (will_bytes w) ≡ will_length w
will_bytes-length none = refl
will_bytes-length (some w) =
    omega (arith, length-append (string_bytes w.topic) (string_bytes w.payload))

login_bytes-length :
    (username password : Option Text)
    → length (login_bytes username password) ≡ login_length username password
login_bytes-length none password = refl
login_bytes-length (some username) none = omega arith
login_bytes-length (some username) (some password) =
    omega (arith, length-append (string_bytes username) (string_bytes password))

name-length : (v : Protocol) → header_length v ≡ 6 + length (protocol_name v)
name-length mqtt31 = refl
name-length mqtt311 = refl

-- `connect_length` is the number of the bytes that follow the fixed header.
connect_bytes-length :
    (keepalive : ℕ) (clean_session : Bool) (id : Text) (o : Options)
    → length (connect_bytes keepalive clean_session id o) ≡ connect_length id o
connect_bytes-length keepalive clean_session id o =
    let tail : List ℕ = will_bytes o.will ++ login_bytes o.username o.password in
    let tail_size : length tail ≡ will_length o.will + login_length o.username o.password = omega (
      arith,
      will_bytes-length o.will,
      login_bytes-length o.username o.password,
      length-append (will_bytes o.will) (login_bytes o.username o.password),
    ) in
    let from_id : List ℕ = string_bytes id ++ tail in
    let id_size : length from_id ≡ 2 + length id + length tail =
      omega (arith, length-append (string_bytes id) tail) in
    let from_level : List ℕ =
      protocol_level o.protocol
      ∷ connect_flags clean_session o
      ∷ msb keepalive
      ∷ lsb keepalive
      ∷ from_id in
    let level_size : length from_level ≡ 4 + length from_id = omega arith in
    let name_size : length (string_bytes (protocol_name o.protocol) ++ from_level)
        ≡ 2 + length (protocol_name o.protocol) + length from_level =
      omega (arith, length-append (string_bytes (protocol_name o.protocol)) from_level) in
    let whole : connect_length id o
        ≡ 6 + length (protocol_name o.protocol) + (2 + length id + length tail) =
      omega (arith, name-length o.protocol, tail_size) in
    name_size ∙ omega (arith, level_size, id_size, whole)

will_length-small : (w : Option Message) → MeasuredWill w → will_length w < 2 ^ 18
will_length-small none h = omega arith
will_length-small (some w) h = omega (arith, h)

login_length-small :
    (username password : Option Text)
    → Measured username
    → Measured password
    → login_length username password < 2 ^ 18
login_length-small none password u p = omega arith
login_length-small (some username) none u p = omega (arith, u)
login_length-small (some username) (some password) u p = omega (arith, u, p)

connect_call-wire :
    (keepalive : ℕ) (clean_session : Bool) (id : Text) (o : Options) (c : Conn)
    → c.mem ≡ []
    → length id < 2 ^ 16
    → MeasuredOptions o
    → After
        (λ d.
          d.sent ++ pending d
          ≡ (c.sent ++ pending c)
            ++ (header_bytes 0x10 (connect_length id o)
                ++ connect_bytes keepalive clean_session id o))
        (connect_call keepalive clean_session id o c)
connect_call-wire keepalive clean_session id o c memory short h =
    let body : List ℕ = connect_bytes keepalive clean_session id o in
    let size : connect_length id o ≡ length body =
      sym (connect_bytes-length keepalive clean_session id o) in
    let small : length body < 2 ^ 28 = omega (
      arith,
      size,
      short,
      name-length o.protocol,
      protocol_name-short o.protocol,
      will_length-small o.will h.will,
      login_length-small o.username o.password h.username h.password,
    ) in
    let exact : wrap32 (connect_length id o) ≡ length body = omega (arith, size, small) in
    rw
      (
        exact,
        size,
        must_malloc-none c memory,
        packet_alloc-none (request 0 0x10 (length body)) c memory small,
        Writes-packed (write_connect keepalive clean_session id o) body c.junk 0x10
            (write_connect-Writes keepalive clean_session id o short h) small,
        filled_by,
      )
      (packed-wire c.junk 0x10 body (record c { keepalive = keepalive }))

-- The head of a CONNECT as MQTT 3.1 and 3.1.1 lay it out: the protocol's name and level.
abbrev pub head_bytes : Protocol → List ℕ
head_bytes mqtt31 = 0 ∷ 6 ∷ b'M' ∷ b'Q' ∷ b'I' ∷ b's' ∷ b'd' ∷ b'p' ∷ 3 ∷ []
head_bytes mqtt311 = 0 ∷ 4 ∷ b'M' ∷ b'Q' ∷ b'T' ∷ b'T' ∷ 4 ∷ []

-- A number by its bits, the lowest one first.
abbrev pub of_bits : List Bool → ℕ
of_bits [] = 0
of_bits (true ∷ bits) = 1 + 2 * of_bits bits
of_bits (false ∷ bits) = 2 * of_bits bits

abbrev pub will_bit : (Message → Bool) → Option Message → Bool
will_bit test none = false
will_bit test (some w) = test w

-- The flags of a CONNECT, from bit 0: reserved, clean session, will, the two bits of the will's QoS,
-- will retain, password, user name. A password goes only with a username.
abbrev pub flag_bits : Bool → Options → List Bool
flag_bits clean_session o =
    false
    ∷ clean_session
    ∷ is_some o.will
    ∷ will_bit (λ w. w.qos % 2 == 1) o.will
    ∷ will_bit (λ w. w.qos / 2 % 2 == 1) o.will
    ∷ will_bit (λ w. w.retain) o.will
    ∷ (is_some o.username && is_some o.password)
    ∷ is_some o.username
    ∷ []

abbrev pub packet_body : ℕ → Bool → Text → Options → List ℕ
packet_body keepalive clean_session id o =
    head_bytes o.protocol
    ++ (of_bits (flag_bits clean_session o)
        ∷ msb keepalive
        ∷ lsb keepalive
        ∷ (string_bytes id ++ (will_bytes o.will ++ login_bytes o.username o.password)))

-- The fixed header counts the bytes that follow it.
abbrev pub connect_packet : ℕ → Bool → Text → Options → List ℕ
connect_packet keepalive clean_session id o =
    let body = packet_body keepalive clean_session id o in header_bytes 0x10 (length body) ++ body

of_bits-cons : (b : Bool) (bits : List Bool) → of_bits (b ∷ bits) ≡ bit b + 2 * of_bits bits
of_bits-cons true bits = refl
of_bits-cons false bits = omega arith

of_bits-byte :
    (c w l h r p u : Bool)
    → of_bits (false ∷ c ∷ w ∷ l ∷ h ∷ r ∷ p ∷ u ∷ [])
      ≡ 2 * bit c + 4 * bit w + 8 * bit l + 16 * bit h + 32 * bit r + 64 * bit p + 128 * bit u
of_bits-byte c w l h r p u = omega (
  arith,
  of_bits-cons c (w ∷ l ∷ h ∷ r ∷ p ∷ u ∷ []),
  of_bits-cons w (l ∷ h ∷ r ∷ p ∷ u ∷ []),
  of_bits-cons l (h ∷ r ∷ p ∷ u ∷ []),
  of_bits-cons h (r ∷ p ∷ u ∷ []),
  of_bits-cons r (p ∷ u ∷ []),
  of_bits-cons p (u ∷ []),
  of_bits-cons u [],
)

qos_bits : (qos : ℕ) → bit (qos % 2 == 1) + 2 * bit (qos / 2 % 2 == 1) ≡ qos % 4
qos_bits qos =
    let low : bit (qos % 2 == 1) ≡ qos % 2 = bit-one (qos % 2) (omega arith) in
    let high : bit (qos / 2 % 2 == 1) ≡ qos / 2 % 2 = bit-one (qos / 2 % 2) (omega arith) in
    omega (arith, low, high)
  where
    bit-one : (n : ℕ) → n < 2 → bit (n == 1) ≡ n
    bit-one n h = ground (arith, h)

will_flags-bits :
    (c p u : Bool) (will : Option Message)
    → of_bits (
        false
        ∷ c
        ∷ is_some will
        ∷ will_bit (λ w. w.qos % 2 == 1) will
        ∷ will_bit (λ w. w.qos / 2 % 2 == 1) will
        ∷ will_bit (λ w. w.retain) will
        ∷ p
        ∷ u
        ∷ [])
      ≡ bit c * 2 + will_flags will + (64 * bit p + 128 * bit u)
will_flags-bits c p u none = omega (arith, of_bits-byte c false false false false p u)
will_flags-bits c p u (some w) =
    omega (
      arith,
      of_bits-byte c true (w.qos % 2 == 1) (w.qos / 2 % 2 == 1) w.retain p u,
      qos_bits w.qos,
    )

login_flags-bits :
    (username password : Option Text)
    → 64 * bit (is_some username && is_some password) + 128 * bit (is_some username)
      ≡ login_flags username password
login_flags-bits none password = refl
login_flags-bits (some username) none = refl
login_flags-bits (some username) (some password) = refl

flag_bits-flags :
    (clean_session : Bool) (o : Options)
    → of_bits (flag_bits clean_session o) ≡ connect_flags clean_session o
flag_bits-flags clean_session o = omega (
  arith,
  will_flags-bits clean_session (is_some o.username && is_some o.password) (is_some o.username)
      o.will,
  login_flags-bits o.username o.password,
)

head_bytes-written :
    (v : Protocol) (flags : ℕ) (rest : List ℕ)
    → string_bytes (protocol_name v) ++ ((protocol_level v ∷ []) ++ ((flags ∷ []) ++ rest))
      ≡ head_bytes v ++ flags ∷ rest
head_bytes-written mqtt31 flags rest = refl
head_bytes-written mqtt311 flags rest = refl

connect_bytes-body :
    (keepalive : ℕ) (clean_session : Bool) (id : Text) (o : Options)
    → connect_bytes keepalive clean_session id o ≡ packet_body keepalive clean_session id o
connect_bytes-body keepalive clean_session id o =
    head_bytes-written o.protocol (connect_flags clean_session o) _
    ∙ ap
        (λ flags.
          head_bytes o.protocol
          ++ (flags
              ∷ msb keepalive
              ∷ lsb keepalive
              ∷ (string_bytes id ++ (will_bytes o.will ++ login_bytes o.username o.password))))
        (sym (flag_bits-flags clean_session o))

-- What is written is the packet of the specification.
connect_bytes-packet :
    (keepalive : ℕ) (clean_session : Bool) (id : Text) (o : Options)
    → header_bytes 0x10 (connect_length id o) ++ connect_bytes keepalive clean_session id o
      ≡ connect_packet keepalive clean_session id o
connect_bytes-packet keepalive clean_session id o =
    ap (λ n. header_bytes 0x10 n ++ connect_bytes keepalive clean_session id o)
      (sym (connect_bytes-length keepalive clean_session id o))
    ∙ ap (λ body. header_bytes 0x10 (length body) ++ body)
        (connect_bytes-body keepalive clean_session id o)

-- While memory does not run out, on a client with an identifier, and where identifier, username,
-- password and the will's topic and payload are below 2 ^ 16 bytes: `_mosquitto_send_connect` promises
-- exactly the bytes of a CONNECT to the socket, behind all that was promised before, whichever code it
-- returns.
pub send_connect-wire :
    (keepalive : ℕ) (clean_session : Bool) (id : Text) (m : Mosquitto)
    → m.conn.mem ≡ []
    → m.options.id ≡ some id
    → length id < 2 ^ 16
    → MeasuredOptions m.options
    → After
        (λ n.
          n.sent ++ pending n.conn
          ≡ (m.sent ++ pending m.conn) ++ connect_packet keepalive clean_session id m.options)
        (send_connect keepalive clean_session m)
unfolding send_connect
send_connect-wire keepalive clean_session id m memory named short h =
    subst
      (λ i.
        After (λ n. n.sent ++ pending n.conn ≡ promised) (connect_as i keepalive clean_session m))
      (sym named)
      (lift (connect_call keepalive clean_session id m.options m.conn) (
        subst
          (λ bytes.
            After (λ d. d.sent ++ pending d ≡ (m.sent ++ pending m.conn) ++ bytes)
              (connect_call keepalive clean_session id m.options m.conn))
          (connect_bytes-packet keepalive clean_session id m.options)
          (connect_call-wire keepalive clean_session id m.options m.conn memory short h)))
  where
    promised : List ℕ
    promised = (m.sent ++ pending m.conn) ++ connect_packet keepalive clean_session id m.options

    lift :
        (o : Outcome Conn (Unit {0}))
        → After (λ d. d.sent ++ pending d ≡ promised) o
        → After (λ n. n.sent ++ pending n.conn ≡ promised) (lifted m o)
    lift (ok a c) k = k
    lift (err rc c) k = k
    lift crash k = k
