-- ===== src/Api.antt =====
-- mosquitto/lib/mosquitto.c: the life of a client, and publishing and subscribing.
pub mod Publish
use moscapsule.Prelude.{
  ℕ, ◌+◌, ◌%◌, ℤ, pos, negsuc, Bool, true, false, Option, none, some, List, [], ◌∷◌, ◌++◌,
  if◌then◌else◌, ◌==◌, ◌&&◌, ◌||◌, not, ltb, length, take, is_some,
}
use moscapsule.Types.{
  Rc, success, inval, nomem, no_conn, payload_size, fails, Direction, outgoing, MsgState, invalid,
  ClientState, new, mqtt31, Text, Message, MessageAll,
}
use moscapsule.Outcome.{Outcome, H, bind, ok, err, crash, ◌>>=◌, ◌>>◌, pure, raise, modify}
use moscapsule.Packet.{Packet, packet_cleanup, zeroed}
use moscapsule.Conn.{Conn, Callbacks, malloc, must_malloc, mid_generate, socket_close}
use moscapsule.Send.{send_publish, send_subscribe, send_unsubscribe}
use moscapsule.Client.{Msgs, TlsOptions, Options, Mosquitto, with_conn, with_msgs, on_conn, on_msgs}
use moscapsule.Messages.{message_queue, started, publish_again}
use moscapsule.Topic.{pub_topic_check, sub_topic_check}
use moscapsule.Options.{bad_length, length_of, must_have, copies}
use moscapsule.Connect.{if_connected}

-- `qos<0 || qos>2`
abbrev pub bad_qos : ℤ → Bool
bad_qos (pos n) = ltb 2 n
bad_qos (negsuc n) = true

-- The message that `mosquitto_publish` builds; its state is that of calloc.
abbrev pub new_message : ℕ → ℕ → Text → List ℕ → ℕ → Bool → MessageAll
new_message now mid topic payload qos retain = record {
  timestamp = now;
  state = invalid;
  dup = false;
  msg = record { mid = mid; topic = topic; payload = payload; qos = qos; retain = retain };
}

-- `message->state` of the message that stands at the end of `out_messages`.
unfoldable pub start_last : List MessageAll → List MessageAll
start_last [] = []
start_last (x ∷ []) = started x ∷ []
start_last (x ∷ y ∷ xs) = x ∷ start_last (y ∷ xs)

abbrev pub start_queued : H Mosquitto (Unit {0})
start_queued m = ok tt (with_msgs (record (m.msgs) { out_messages = start_last m.out_messages }) m)

-- Queue the message, and send it if the window has room.
unfoldable pub publish_queued : MessageAll → H Mosquitto (Unit {0})
publish_queued x = do
  status ← on_msgs (message_queue x outgoing)
  if status == 0 then (do start_queued; on_conn (publish_again (started x))) else pure tt

-- `mosquitto_publish` behind its checks
unfoldable pub publish_checked : Text → List ℕ → ℕ → Bool → H Mosquitto (Unit {0})
publish_checked topic payload qos retain = do
  mid ← on_conn mid_generate
  if qos == 0 then on_conn (send_publish mid topic payload qos retain false) else (do
    must_have
    copies payload
    λ m. publish_queued (new_message m.now mid topic payload qos retain) m)

-- `mosquitto_publish`; `payload` holds `payloadlen` bytes at least. `*mid` is `last_mid` afterwards.
unfoldable pub publish : Option Text → ℤ → List ℕ → ℤ → Bool → H Mosquitto (Unit {0})
publish none payloadlen payload qos retain m = err inval m
publish (some topic) payloadlen payload qos retain m =
    if bad_qos qos || length topic == 0
    then err inval m
    else if bad_length payloadlen
    then err payload_size m
    else if fails (pub_topic_check topic)
    then err inval m
    else publish_checked topic (take (length_of payloadlen) payload) (length_of qos) retain m

abbrev pub checked_sub : Text → H Mosquitto (Unit {0})
checked_sub sub m = if fails (sub_topic_check sub) then err inval m else ok tt m

-- Behind the test of the socket: a topic that is NULL passes the check, and fails `assert(topic)`.
abbrev pub subscribe_to : Option Text → ℕ → H Mosquitto (Unit {0})
subscribe_to none qos m = crash
subscribe_to (some sub) qos m = (do checked_sub sub; on_conn (send_subscribe sub (qos % 256))) m

-- `mosquitto_subscribe`; the QoS is passed on as uint8_t.
unfoldable pub subscribe : Option Text → ℕ → H Mosquitto (Unit {0})
subscribe sub qos m = elim m.sock [ none ↦ err no_conn m | some _ ↦ subscribe_to sub qos m ]

abbrev pub unsubscribe_from : Option Text → H Mosquitto (Unit {0})
unsubscribe_from none m = crash
unsubscribe_from (some sub) m = (do checked_sub sub; on_conn (send_unsubscribe sub)) m

-- `mosquitto_unsubscribe`
unfoldable pub unsubscribe : Option Text → H Mosquitto (Unit {0})
unsubscribe sub m = elim m.sock [ none ↦ err no_conn m | some _ ↦ unsubscribe_from sub m ]

abbrev pub no_callbacks : Callbacks
no_callbacks = record {
  on_connect = false;
  on_disconnect = false;
  on_publish = false;
  on_message = false;
  on_subscribe = false;
  on_unsubscribe = false;
}

-- What the memset of `mosquitto_reinitialise` and the lines up to the identifier leave.
unfoldable pub blank_conn : Conn → Conn
blank_conn c = record {
  sock = none;
  sockpair_r = none;
  sockpair_w = none;
  state = new;
  keepalive = 60;
  last_mid = 0;
  last_msg_in = 0;
  last_msg_out = 0;
  ping_t = 0;
  in_packet = zeroed;
  current_out_packet = none;
  out_packet = [];
  ssl_ctx = false;
  ssl = false;
  want_write = false;
  want_connect = false;
  in_callback = false;
  threaded = false;
  callbacks = no_callbacks;
  env = c.env;
}

abbrev pub blank_msgs : Msgs
blank_msgs = record {
  in_messages = [];
  out_messages = [];
  out_strays = false;
  in_queue_len = pos 0;
  out_queue_len = pos 0;
  inflight_messages = pos 0;
  max_inflight_messages = 0;
  message_retry = 20;
  last_retry_check = 0;
}

abbrev pub blank_tls : TlsOptions
blank_tls = record {
  cafile = none;
  capath = none;
  certfile = none;
  keyfile = none;
  cert_reqs = pos 0;
  version = none;
  ciphers = none;
  psk = none;
  psk_freed = false;
  psk_identity = none;
  insecure = false;
}

abbrev pub blank_options : Bool → Options
blank_options clean_session = record {
  tls = blank_tls;
  protocol = mqtt31;
  id = none;
  username = none;
  password = none;
  will = none;
  clean_session = clean_session;
  host = none;
  port = 0;
  bind_address = none;
  bind_freed = false;
  reconnect_delay = 0;
  reconnect_delay_max = 0;
  reconnect_exponential_backoff = false;
  reconnect_enabled = false;
}

abbrev pub blank : Bool → Mosquitto → Mosquitto
blank clean_session m = record {
  conn = blank_conn m.conn;
  msgs = blank_msgs;
  options = blank_options clean_session;
}

-- The lines behind the identifier. SSL_VERIFY_PEER is 1.
unfoldable pub initialised : Option Text → Mosquitto → Mosquitto
initialised id m = record {
  conn = record (m.conn) {
    in_packet = packet_cleanup m.in_packet;
    last_msg_in = m.now;
    last_msg_out = m.now;
  };
  msgs = record (m.msgs) { max_inflight_messages = 20 };
  options = record (m.options) {
    tls = record (m.options.tls) { cert_reqs = pos 1; insecure = false };
    id = id;
    port = 1883;
    reconnect_delay = 1;
    reconnect_delay_max = 1;
    reconnect_enabled = true;
  };
}

-- `_mosquitto_destroy` gives back what the two pointers point at, a second time where that was done.
abbrev pub frees_twice : Mosquitto → Bool
frees_twice m = m.options.bind_freed || m.options.tls.psk_freed

-- `mosquitto_reinitialise`, with the 23 bytes of the identifier that it would make up. The copy of a
-- given identifier is not tested: without memory the identifier is NULL.
unfoldable pub reinitialise : Option Text → Bool → Text → H Mosquitto (Unit {0})
reinitialise none false random m = err inval m
reinitialise none true random m =
    if frees_twice m
    then crash
    else bind (must_have (blank true m)) (λ _ n. ok tt (initialised (some random) n))
reinitialise (some id) clean_session random m =
    if frees_twice m
    then crash
    else if length id == 0
    then err inval (blank clean_session m)
    else bind (on_conn malloc (blank clean_session m))
        (λ granted n. ok tt (initialised (if granted then some id else none) n))
