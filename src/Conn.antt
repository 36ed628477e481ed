-- ===== src/Conn.antt =====
-- The part of `struct mosquitto` (mosquitto/lib/mosquitto_internal.h) that the connection works on,
-- with what lies outside of the program: the clock, the allocator, the socket and the callbacks.
pub mod Mid
use moscapsule.Prelude.{
  ℕ, ◌+◌, ◌%◌, ◌^◌, Bool, true, false, Option, none, List, [], ◌∷◌, ◌++◌, if◌then◌else◌, ◌==◌,
  length,
}
use moscapsule.Types.{Rc, ClientState, Errno, Message}
use moscapsule.Dial.{Dial, Handshake}
use moscapsule.Outcome.{H, bind, ok, err, ◌>>=◌, ◌>>◌, pure, raise}
use moscapsule.Packet.{Packet, allocated, remaining_bytes}

-- Why a transfer moved no byte: an error of read(2) or write(2), or of the TLS library.
pub data IoFailure : Type 0 where
  plain : Errno → IoFailure
  ssl_want_read ssl_want_write ssl_other : IoFailure

-- What the coming reads of the socket meet: bytes (one at least), the end of the stream, a failure.
pub data ReadEvent : Type 0 where
  received : ℕ → List ℕ → ReadEvent
  closed : ReadEvent
  read_fails : IoFailure → ReadEvent

-- What the coming writes meet: room for so many bytes, or a failure.
pub data WriteEvent : Type 0 where
  accepts : ℕ → WriteEvent
  write_fails : IoFailure → WriteEvent

-- A call of one of the client's callbacks. Where the code hands over the literal 1, that is
-- MOSQ_ERR_NOMEM's number.
pub data Event : Type 0 where
  connects : ℕ → Event
  disconnects : Rc → Event
  publishes : ℕ → Event
  messages : Message → Event
  subscribes : ℕ → List ℕ → Event
  unsubscribes : ℕ → Event

-- `reads`, `writes`, `dials`, `shakes` (of SSL_connect), `pairs` (of `_mosquitto_socketpair`) and
-- `mem` are the answers to come; an empty list answers EAGAIN, an unknown host, SSL_ERROR_WANT_READ,
-- no pair, and memory.
-- `junk` is what a byte of `malloc` holds. `sent` and `events` are the past.
pub record Env : Type 0 where
  pub now : ℕ
  pub err_no : Errno
  pub reads : List ReadEvent
  pub writes : List WriteEvent
  pub dials : List Dial
  pub shakes : List Handshake
  pub pairs : List (Option (ℕ × ℕ))
  pub mem : List Bool
  pub junk : ℕ
  pub sent : List ℕ
  pub events : List Event

-- Which callbacks are set.
pub record Callbacks : Type 0 where
  pub on_connect : Bool
  pub on_disconnect : Bool
  pub on_publish : Bool
  pub on_message : Bool
  pub on_subscribe : Bool
  pub on_unsubscribe : Bool

-- INVALID_SOCKET is `none`. `out_packet` is the linked list, whose last node `out_packet_last` is.
pub record Conn : Type 0 where
  pub sock : Option ℕ
  pub sockpair_r : Option ℕ
  pub sockpair_w : Option ℕ
  pub state : ClientState
  pub keepalive : ℕ
  pub last_mid : ℕ
  pub last_msg_in : ℕ
  pub last_msg_out : ℕ
  pub ping_t : ℕ
  pub in_packet : Packet
  pub current_out_packet : Option Packet
  pub out_packet : List Packet
  pub ssl_ctx : Bool
  pub ssl : Bool
  pub want_write : Bool
  pub want_connect : Bool
  pub in_callback : Bool
  pub threaded : Bool
  pub callbacks : Callbacks
  pub open callbacks use *
  pub env : Env
  pub open env use *

abbrev pub with_mem : List Bool → Conn → Conn
with_mem rest c = record c { env = record (c.env) { mem = rest } }

-- `_mosquitto_malloc`, `_mosquitto_calloc`, `_mosquitto_strdup`: was there memory?
unfoldable pub malloc : H Conn Bool
malloc c = elim (c.env.mem) [ [] ↦ ok true c | answer ∷ rest ↦ ok answer (with_mem rest c) ]

-- `if(!pointer) return MOSQ_ERR_NOMEM;`
unfoldable pub must_malloc : H Conn (Unit {0})
unfolding malloc
must_malloc = do granted ← malloc; if granted then pure tt else raise Rc.nomem

-- A callback that is set is called; it is taken to return without a call into the library.
abbrev pub notify : Bool → Event → Conn → Conn
notify set event c =
    if set
    then record c {
      in_callback = false;
      env = record (c.env) { events = c.env.events ++ event ∷ [] };
    }
    else c

-- `_mosquitto_mid_generate`
unfoldable pub mid_generate : H Conn ℕ
mid_generate c =
    let next = (c.last_mid + 1) % 2 ^ 16 in
    let mid = if next == 0 then (next + 1) % 2 ^ 16 else next in
    ok mid (record c { last_mid = mid })

-- `_mosquitto_packet_alloc`
unfoldable pub packet_alloc : Packet → H Conn Packet
unfolding must_malloc
packet_alloc p c =
    if length (remaining_bytes 5 p.remaining_length) == 5
    then err Rc.payload_size c
    else bind (must_malloc c) (λ _ c'. ok (allocated (c'.env.junk) p) c')

-- `_mosquitto_socket_close`
unfoldable pub socket_close : Conn → Conn
socket_close c = record c { ssl = false; ssl_ctx = false; sock = none }
