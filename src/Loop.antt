-- ===== src/Loop.antt =====
-- The loop functions of mosquitto/lib/mosquitto.c, and `_mosquitto_check_keepalive` of
-- mosquitto/lib/util_mosq.c. select(2), threads and signals are not modelled.
pub mod Backoff
pub mod Polling
pub mod Forever
use moscapsule.Prelude.{
  ℕ, zero, suc, ◌+◌, ◌-◌, ◌*◌, ◌%◌, ◌^◌, ℤ, pos, negsuc, Bool, true, false, Option, none, some,
  List, [], ◌∷◌, if◌then◌else◌, ◌==◌, ◌!=◌, ◌&&◌, ◌||◌, not, ltb, leb, is_some,
}
use moscapsule.Types.{
  Rc, success, nomem, inval, no_conn, conn_lost, fails, ClientState, connected, disconnecting,
  Errno, again,
}
use moscapsule.Outcome.{
  Outcome, H, bind, ok, err, crash, ◌>>=◌, ◌>>◌, pure, raise, modify, attempt, return_code,
}
use moscapsule.Conn.{Conn, Event, disconnects, notify, socket_close}
use moscapsule.Net.{packet_write, is_again}
use moscapsule.Send.{send_pingreq}
use moscapsule.Client.{Msgs, Mosquitto, with_conn, with_msgs, on_conn}
use moscapsule.Messages.{message_retry_check}
use moscapsule.Handle.{packet_read}

abbrev pub is_disconnecting : ClientState → Bool
is_disconnecting disconnecting = true
is_disconnecting _ = false

abbrev pub is_connected : ClientState → Bool
is_connected connected = true
is_connected _ = false

-- The socket is closed and `on_disconnect` told why: 0 if the client wanted it, else the code.
abbrev pub drop_connection : Rc → Conn → Conn
drop_connection rc c =
    let c' = socket_close c in
    notify c'.on_disconnect (disconnects (if is_disconnecting c'.state then success else rc)) c'

-- `now - t >= keepalive`, where `t` is not after `now`
abbrev pub is_over : ℕ → ℕ → ℕ → Bool
is_over now t keepalive = leb keepalive (now - t)

abbrev pub is_idle : Conn → Bool
is_idle c = is_over c.now c.last_msg_out c.keepalive || is_over c.now c.last_msg_in c.keepalive

-- `_mosquitto_check_keepalive`; the literal 1 that `on_disconnect` gets is MOSQ_ERR_NOMEM's number.
unfoldable pub check_keepalive : H Conn (Unit {0})
check_keepalive c =
    if c.keepalive != 0 && is_some c.sock && is_idle c
    then if is_connected c.state && c.ping_t == 0
      then bind (attempt send_pingreq c)
          (λ _ c'. ok tt (record c' { last_msg_in = c.now; last_msg_out = c.now }))
      else ok tt (drop_connection nomem c)
    else ok tt c

abbrev pub checked_retry : H Mosquitto (Unit {0})
checked_retry m =
    if ltb (m.last_retry_check + 1) m.now
    then bind (message_retry_check m)
        (λ _ n. ok tt (with_msgs (record (n.msgs) { last_retry_check = n.now }) n))
    else ok tt m

-- `mosq->ping_t && now - mosq->ping_t >= mosq->keepalive`
abbrev pub is_ping_lost : Conn → Bool
is_ping_lost c = c.ping_t != 0 && is_over c.now c.ping_t c.keepalive

abbrev pub check_ping : H Mosquitto (Unit {0})
check_ping m =
    if is_ping_lost m.conn
    then err conn_lost (with_conn (drop_connection nomem m.conn) m)
    else ok tt m

-- `mosquitto_loop_misc`
unfoldable pub loop_misc : H Mosquitto (Unit {0})
loop_misc m = elim m.sock [
  | none ↦ err no_conn m
  | some _ ↦ (do on_conn check_keepalive; checked_retry; check_ping) m
]

-- `_mosquitto_loop_rc_handle`
unfoldable pub loop_rc_handle : Rc → H Mosquitto (Unit {0})
loop_rc_handle rc m =
    if fails rc
    then return_code (if is_disconnecting m.conn.state then success else rc) tt
        (with_conn (drop_connection rc m.conn) m)
    else ok tt m

abbrev pub above_zero : ℤ → ℕ
above_zero (pos n) = n
above_zero (negsuc n) = 0

abbrev pub below_zero : ℤ → ℕ
below_zero (pos n) = 0
below_zero (negsuc n) = suc n

-- `out_queue_len + in_queue_len`, and 1 where that is less than 1
unfoldable pub packets_to_do : ℤ → ℤ → ℕ
packets_to_do out in_ =
    let n = above_zero out + above_zero in_ - (below_zero out + below_zero in_) in
    if n == 0 then 1 else n

-- The `for` of `mosquitto_loop_read` and `mosquitto_loop_write` over one step of theirs.
unfoldable pub loop_packets : H Mosquitto (Unit {0}) → ℕ → H Mosquitto (Unit {0})
loop_packets step zero m = ok tt m
loop_packets step (suc rounds) m = bind (attempt step m) (λ rc n.
    elim (fails rc || is_again n.err_no) [
      | true ↦ loop_rc_handle rc n
      | false ↦ loop_packets step rounds n
    ])

-- `mosquitto_loop_read` and `mosquitto_loop_write`
unfoldable pub loop_read : ℕ → H Mosquitto (Unit {0})
loop_read max_packets m =
    if ltb max_packets 1
    then err inval m
    else loop_packets packet_read (packets_to_do m.out_queue_len m.in_queue_len) m

unfoldable pub loop_write : ℕ → H Mosquitto (Unit {0})
loop_write max_packets m =
    if ltb max_packets 1
    then err inval m
    else loop_packets (on_conn packet_write) (packets_to_do m.out_queue_len m.in_queue_len) m

abbrev pub is_nonempty {ℓ} : {A : Type ℓ} → List A → Bool
is_nonempty [] = false
is_nonempty (x ∷ xs) = true

-- `mosquitto_want_write`
unfoldable pub want_write_now : Conn → Bool
want_write_now c =
    is_nonempty c.out_packet || is_some c.current_out_packet || (c.ssl && c.want_write)

-- `mosquitto_loop_forever`: the codes after which it returns at once, whatever the options.
abbrev pub is_fatal : Rc → Bool
is_fatal Rc.nomem = true
is_fatal Rc.protocol = true
is_fatal Rc.inval = true
is_fatal Rc.not_found = true
is_fatal Rc.tls = true
is_fatal Rc.payload_size = true
is_fatal Rc.not_supported = true
is_fatal Rc.auth = true
is_fatal Rc.acl_denied = true
is_fatal Rc.unknown = true
is_fatal Rc.eai = true
is_fatal Rc.proxy = true
is_fatal _ = false

-- The delay before the next attempt and the new count of attempts.
unfoldable pub reconnect_step : Mosquitto → ℕ → ℕ × ℕ
reconnect_step m reconnects =
    let delay =
      if ltb 0 m.reconnect_delay && m.reconnect_exponential_backoff
      then m.reconnect_delay * reconnects * reconnects % 2 ^ 32
      else m.reconnect_delay in
    if ltb m.reconnect_delay_max delay
    then (m.reconnect_delay_max, reconnects)
    else (delay, (reconnects + 1) % 2 ^ 32)
