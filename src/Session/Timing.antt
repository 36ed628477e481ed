-- ===== src/Session/Timing.antt =====
-- `mosquitto_loop_misc` keeps the client sound: the keepalive, the retries and the ping.
use moscapsule.Prelude.{
  ℕ, ◌+◌, sym, subst, Bool, true, false, Option, none, some, List, [], ◌∷◌, ◌++◌, All, ltb, ◌==◌,
  ◌!=◌, ◌&&◌, is_some,
}
use moscapsule.Types.{
  Rc, nomem, Direction, incoming, outgoing, MsgState, wait_for_puback, wait_for_pubrec,
  wait_for_pubrel, wait_for_pubcomp, MessageAll,
}
use moscapsule.Outcome.{H, err, bind, After, After-bind, attempt, ◌>>◌}
use moscapsule.Conn.{Conn}
use moscapsule.Net.Calm.{Receivable}
use moscapsule.Send.{send_pingreq, send_pubrec, send_pubrel}
use moscapsule.Send.Calm.{
  send_pingreq-Receivable, send_publish-Receivable, send_command_with_mid-Receivable,
}
use moscapsule.Client.{Mosquitto, on_conn}
use moscapsule.Messages.{
  publish_again, retry_for, retry_call, retried, with_messages, retry_check_actual,
  message_retry_check,
}
use moscapsule.Messages.Safety.{FitsMessage}
use moscapsule.Handle.Keeping.{All-append, All-join}
use moscapsule.Loop.{
  is_idle, is_connected, check_keepalive, checked_retry, is_ping_lost, check_ping, loop_misc,
}
use moscapsule.Session.Sound.{Waiting, Sound, conn-Sound, attempt-After, if-After}
use moscapsule.Session.Reading.{drop_connection-Receivable}

-- What is known of a message in a list.
abbrev Good : Direction → MessageAll → Type 0
Good outgoing x = FitsMessage x
Good incoming x = Waiting x

abbrev Callable : Option (H Conn (Unit {0})) → Type 0
Callable none = Unit {0}
Callable (some call) = (c : Conn) → Receivable c → After Receivable (call c)

retry_call-Callable : (dir : Direction) (x : MessageAll) → Good dir x → Callable (retry_call x)
unfolding send_pubrec send_pubrel
retry_call-Callable incoming x h =
    subst (λ s. Callable (retry_for s x)) (sym h.1)
      (λ c r. send_command_with_mid-Receivable 0x50 x.msg.mid false c r)
retry_call-Callable outgoing x h = go x.state
  where
    again : (c : Conn) → Receivable c → After Receivable (publish_again x c)
    again c r =
        send_publish-Receivable x.msg.mid x.msg.topic x.msg.payload x.msg.qos x.msg.retain x.dup c h
          r

    go : (s : MsgState) → Callable (retry_for s x)
    go wait_for_puback = again
    go wait_for_pubrec = again
    go wait_for_pubrel = λ c r. send_command_with_mid-Receivable 0x50 x.msg.mid false c r
    go wait_for_pubcomp = λ c r. send_command_with_mid-Receivable 0x62 x.msg.mid false c r
    go _ = tt

retried-Good : (dir : Direction) (now : ℕ) (x : MessageAll) → Good dir x → Good dir (retried now x)
retried-Good outgoing now x h = h
retried-Good incoming now x h = h

with_messages-Sound :
    (dir : Direction) (xs : List MessageAll) (m : Mosquitto)
    → All (Good dir) xs
    → Sound m
    → Sound (with_messages dir xs m)
with_messages-Sound outgoing xs m g h = (h.0, g, h.2, h.3)
with_messages-Sound incoming xs m g h = (g, h.1, h.2, h.3)

retry_check_actual-Sound :
    (dir : Direction) (done rest : List MessageAll) (m : Mosquitto)
    → All (Good dir) done
    → All (Good dir) rest
    → Sound m
    → After Sound (retry_check_actual dir done rest m)
unfolding retry_check_actual
retry_check_actual-Sound dir done [] m d r h = h
retry_check_actual-Sound dir done (x ∷ rest) m d r h =
    due (ltb (x.timestamp + m.message_retry) m.now)
      (retry_check_actual-Sound dir (done ++ x ∷ []) rest m (All-append (Good dir) done x d r.0) r.1
        h)
      (λ n k.
        retry_check_actual-Sound dir (done ++ again ∷ []) rest n
          (All-append (Good dir) done again d good) r.1 k)
  where
    again : MessageAll
    again = retried m.now x

    good : Good dir again
    good = retried-Good dir m.now x r.0

    called :
        (o : Option (H Conn (Unit {0})))
        → Callable o
        → After Sound (retry_check_actual dir (done ++ x ∷ []) rest m)
        → ((n : Mosquitto)
            → Sound n
            → After Sound (retry_check_actual dir (done ++ again ∷ []) rest n))
        → After Sound (elim o [
          | none ↦ retry_check_actual dir (done ++ x ∷ []) rest m
          | some call ↦
              bind
                (attempt (on_conn call) (with_messages dir (done ++ again ∷ rest) m))
                (λ _ m'. retry_check_actual dir (done ++ again ∷ []) rest m')
        ])
    called none c passed next = passed
    called (some call) c passed next =
        let m' : Mosquitto = with_messages dir (done ++ again ∷ rest) m in
        let k : Sound m' =
          with_messages-Sound dir _ m (All-join (Good dir) done (again ∷ rest) d (good, r.1)) h in
        After-bind Sound (attempt (on_conn call) m') _
          (attempt-After Sound (on_conn call) m' (conn-Sound call m' k (c m'.conn k.3)))
          (λ _ n q. next n q)

    due :
        (b : Bool)
        → After Sound (retry_check_actual dir (done ++ x ∷ []) rest m)
        → ((n : Mosquitto)
            → Sound n
            → After Sound (retry_check_actual dir (done ++ again ∷ []) rest n))
        → After Sound (elim b [
          | false ↦ retry_check_actual dir (done ++ x ∷ []) rest m
          | true ↦ elim (retry_call again) [
            | none ↦ retry_check_actual dir (done ++ x ∷ []) rest m
            | some call ↦
                bind
                  (attempt (on_conn call) (with_messages dir (done ++ again ∷ rest) m))
                  (λ _ m'. retry_check_actual dir (done ++ again ∷ []) rest m')
          ]
        ])
    due false passed next = passed
    due true passed next =
        called (retry_call again) (retry_call-Callable dir again good) passed next

message_retry_check-Sound : (m : Mosquitto) → Sound m → After Sound (message_retry_check m)
unfolding message_retry_check
message_retry_check-Sound m h =
    After-bind Sound (retry_check_actual outgoing [] m.out_messages m) _
      (retry_check_actual-Sound outgoing [] m.out_messages m tt h.1 h)
      (λ _ n k. retry_check_actual-Sound incoming [] n.in_messages n tt k.0 k)

check_keepalive-Receivable : (c : Conn) → Receivable c → After Receivable (check_keepalive c)
unfolding check_keepalive
check_keepalive-Receivable c h =
    if-After Receivable (c.keepalive != 0 && is_some c.sock && is_idle c) _ _
      (λ _.
        if-After Receivable (is_connected c.state && c.ping_t == 0) _ _
          (λ _.
            After-bind Receivable (attempt send_pingreq c) _
              (attempt-After Receivable send_pingreq c (send_pingreq-Receivable c h)) (λ _ c' r. r))
          (λ _. drop_connection-Receivable nomem c))
      (λ _. h)

checked_retry-Sound : (m : Mosquitto) → Sound m → After Sound (checked_retry m)
checked_retry-Sound m h =
    if-After Sound (ltb (m.last_retry_check + 1) m.now) _ _
      (λ _. After-bind Sound (message_retry_check m) _ (message_retry_check-Sound m h) (λ _ n k. k))
      (λ _. h)

check_ping-Sound : (m : Mosquitto) → Sound m → After Sound (check_ping m)
check_ping-Sound m h =
    if-After Sound (is_ping_lost m.conn) _ _
      (λ _. (h.0, h.1, h.2, drop_connection-Receivable nomem m.conn)) (λ _. h)

pub loop_misc-Sound : (m : Mosquitto) → Sound m → After Sound (loop_misc m)
unfolding loop_misc
loop_misc-Sound m h = go m.sock
  where
    go :
        (s : Option ℕ)
        → After Sound (elim s [
          | none ↦ err Rc.no_conn m
          | some _ ↦ (do on_conn check_keepalive; checked_retry; check_ping) m
        ])
    go none = h
    go (some n) =
        After-bind Sound (on_conn check_keepalive m) _
          (conn-Sound check_keepalive m h (check_keepalive-Receivable m.conn h.3))
          λ _ m1 h1.
            After-bind Sound (checked_retry m1) _ (checked_retry-Sound m1 h1)
              (λ _ m2 h2. check_ping-Sound m2 h2)
