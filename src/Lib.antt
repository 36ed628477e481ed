-- ===== src/Lib.antt =====
-- The MQTT client of Moscapsule: libmosquitto 1.4.8 in mosquitto/lib, which the pod compiles as a
-- client (no WITH_BROKER, no WITH_SOCKS, POSIX, WITH_THREADING, WITH_TLS). Paths below are from the
-- repository's root.
--
-- Parts and files.
--   Types, Client and Conn: the codes, enumerations and structures of mosquitto/lib/mosquitto.h and
--     mosquitto_internal.h; `struct mosquitto` is the record Mosquitto, of a connection (Conn), the
--     messages in flight (Msgs) and the options (Options).
--   Outcome: a C function as a function of the state that returns a value, a code, or crashes; a crash
--     is a failed assertion, an access out of bounds, through NULL or to memory that was given back, or
--     a list linked into another.
--   Packet: `struct _mosquitto_packet` and the functions on its cursor (net_mosq.c), and the digits of
--     the remaining length (util_mosq.c).
--   Dial and Opening: the opening of a connection, from the addresses of the host to the TLS handshake
--     (net_mosq.c); Dial is what the system and OpenSSL answer.
--   Net: _mosquitto_packet_queue, _mosquitto_packet_write and _mosquitto_packet_read (net_mosq.c).
--   Send and Connect: the packets of send_mosq.c and send_client_mosq.c, and connecting (mosquitto.c).
--   Messages: messages_mosq.c. Handle: read_handle.c, read_handle_shared.c, read_handle_client.c.
--   Topic: the topic functions of util_mosq.c and mosquitto.c. Options: will_mosq.c and the setters.
--   Api and Loop: publishing, subscribing and the loop functions of mosquitto.c; Loop.Polling is
--     mosquitto_loop and Loop.Forever mosquitto_loop_forever.
--   Tls: the names of a certificate (tls_mosq.c), and the TLS setters of mosquitto.c in Tls.Setters.
--   Socks: the negotiation with a proxy (socks_mosq.c), in a build WITH_SOCKS; a record of its own
--     around Mosquitto, which the other parts do not see.
--   Session: the calls of an application one after the other, and the states that they reach; the calls
--     that the library may not survive are its `is_hazard`.
--   Handle.Inbox: what a broker's messages do, as a specification on two lists.
--   Runs: the operations on small inputs.
-- The API of Api and Connect changes Msgs and Options and calls the senders, which queue packets in
-- Conn; Loop calls the writer and the reader of Net, and the reader calls the handlers.
--
-- The world is a field of the connection: tapes of the answers of read(2), write(2), connecting,
-- SSL_connect, socket pairs and the allocator, the clock, the bytes written so far and the callbacks
-- called so far. An empty tape answers EAGAIN, and memory. The clock stands still during a call. A
-- callback returns without a call into the library. Calls are taken one at a time, so the mutexes have
-- no counterpart. Integers of 16 and 32 bits keep their remainder where they can wrap; the counters of
-- type int are ℤ.
-- Of the memory that is given back, the two pointers are kept that stay behind: bind_address, which the
-- model stops at when it is handed on or given back again, and tls_psk, which only psk_client_callback
-- reads and mosquitto_reinitialise gives back again.
--
-- Loops. Those over lists recur on them. The digits of a remaining length take 5 rounds, since the
-- fifth is refused; the bytes of a payload take one round each at most; SUBACK reads a byte a round.
-- That these rounds are enough is part of what is proved of the reader.
--
-- mosquitto_loop_forever recurs on the answers that its rounds meet: where they end, it still runs.
--
-- Not modelled: what OpenSSL does behind its answers, the password callback and
-- psk_client_callback, SRV (srv_mosq.c), threads, log lines, the functions that only give memory
-- back, and the Swift and Objective-C wrapper in Moscapsule.
pub mod Prelude
pub mod Types
pub mod Tls
pub mod Outcome
pub mod Topic
pub mod Packet
pub mod Dial
pub mod Conn
pub mod Opening
pub mod Net
pub mod Send
pub mod Session
pub mod Client
pub mod Messages
pub mod Handle
pub mod Options
pub mod Connect
pub mod Api
pub mod Loop
pub mod Socks
pub mod Runs
