-- ===== src/Loop/Polling.antt =====
-- `mosquitto_loop` of mosquitto/lib/mosquitto.c: wait for the socket, read, write, and look at the
-- time. What select(2) answers is an argument; no build with c-ares.
use moscapsule.Prelude.{
  ℕ, Bool, true, false, Option, none, some, List, [], ◌∷◌, if◌then◌else◌, ◌&&◌, ◌||◌, ltb, leb,
  is_some,
}
use moscapsule.Types.{Rc, inval, no_conn}
use moscapsule.Outcome.{H, bind, ok, err}
use moscapsule.Conn.{Conn}
use moscapsule.Opening.{connect_tls}
use moscapsule.Client.{Mosquitto, on_conn}
use moscapsule.Loop.{is_nonempty, loop_read, loop_write, loop_misc}

-- FD_SETSIZE
abbrev pub fd_setsize : ℕ
fd_setsize = 1024

-- What `select` or `pselect` brings: EINTR, another failure, or the descriptors that are ready: is
-- the socket readable, is `sockpairR`, and would the socket take bytes? Then come the answers of
-- SSL_pending.
pub data Selected : Type 0 where
  interrupted select_fails : Selected
  ready : Bool → Bool → Bool → List Bool → Selected

-- `fd >= FD_SETSIZE`
abbrev pub too_large : Option ℕ → Bool
too_large none = false
too_large (some fd) = leb fd_setsize fd

-- Is the socket in `writefds` when `select` is called?
abbrev pub asks_for_write : Conn → Bool
asks_for_write c =
    let waits = is_nonempty c.out_packet || is_some c.current_out_packet in
    if c.ssl then c.want_write || (if c.want_connect then false else waits) else waits

-- `do ... while(SSL_DATA_PENDING(mosq))`; is there still a socket afterwards?
unfoldable pub read_all : ℕ → List Bool → H Mosquitto Bool
read_all max_packets [] m = bind (loop_read max_packets m) (λ _ n. ok (is_some n.sock) n)
read_all max_packets (pending ∷ rest) m = bind (loop_read max_packets m) (λ _ n.
    elim (is_some n.sock && n.ssl && pending) [
      | true ↦ read_all max_packets rest n
      | false ↦ ok (is_some n.sock) n
    ])

abbrev pub tls_connected : H Mosquitto Bool
tls_connected m = bind (on_conn connect_tls m) (λ _ n. ok true n)

-- Does the call go on? It ends early where the socket is gone.
abbrev pub read_ready : ℕ → Bool → List Bool → H Mosquitto Bool
read_ready max_packets readable pending m =
    if readable
    then if m.want_connect then tls_connected m else read_all max_packets pending m
    else ok true m

abbrev pub write_ready : ℕ → Bool → H Mosquitto Bool
write_ready max_packets writable m =
    if writable
    then if m.want_connect
      then tls_connected m
      else bind (loop_write max_packets m) (λ _ n. ok (is_some n.sock) n)
    else ok true m

abbrev pub misc_after : Bool → H Mosquitto (Unit {0})
misc_after true m = loop_misc m
misc_after false m = ok tt m

abbrev pub write_after : ℕ → Bool → Bool → H Mosquitto (Unit {0})
write_after max_packets writable true m =
    bind (write_ready max_packets writable m) (λ open_still n. misc_after open_still n)
write_after max_packets writable false m = ok tt m

-- A byte on `sockpairR` counts as room on the socket.
abbrev pub after_select : ℕ → Bool → Selected → H Mosquitto (Unit {0})
after_select max_packets asked interrupted m = ok tt m
after_select max_packets asked select_fails m = err Rc.errno m
after_select max_packets asked (ready readable woken writable pending) m =
    bind (read_ready max_packets readable pending m) (λ open_still n.
      write_after max_packets ((asked && writable) || (is_some n.sockpair_r && woken)) open_still n)

-- `mosquitto_loop`
unfoldable pub loop : ℕ → Selected → H Mosquitto (Unit {0})
unfolding read_all connect_tls
loop max_packets selected m =
    if ltb max_packets 1 || (too_large m.sock || too_large m.sockpair_r)
    then err inval m
    else if is_some m.sock
    then after_select max_packets (asks_for_write m.conn) selected m
    else err no_conn m
