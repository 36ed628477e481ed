-- ===== src/Session/Connecting.antt =====
-- `mosquitto_connect_bind` and its asynchronous twin keep the client sound.
use moscapsule.Prelude.{
  Bool, true, false, ℕ, zero, suc, ◌%◌, ◌≡◌, refl, sym, subst, ℤ, pos, negsuc, Option, none, some,
  List, [], ◌∷◌, ◌==◌, is_some, if◌then◌else◌, arith,
}
use moscapsule.Types.{ClientState, new, connect_async, Text, MessageAll}
use moscapsule.Outcome.{Outcome, H, ok, err, crash, bind, ◌>>◌, modify, After}
use moscapsule.Conn.{Conn, must_malloc}
use moscapsule.Net.Calm.{Receivable, must_malloc-Receivable}
use moscapsule.Client.{Msgs, Options, Mosquitto, with_msgs, with_conn, lifted}
use moscapsule.Messages.{reset_in, reset_outgoing, messages_reconnect_reset}
use moscapsule.Options.{with_options}
use moscapsule.Connect.{
  pair_answer, with_bind, free_bind_address, copy_bind_address, send_connect, connect_init,
  with_state, reset_conn, dial, reconnect, connect_bind, connect_bind_async,
}
use moscapsule.Session.{keeps_freed}
use moscapsule.Session.Sound.{GoodOptions, Sound}
use moscapsule.Session.Setting.{same-Good}
use moscapsule.Session.Calling.{Safe, After-Safe}
use moscapsule.Session.Resetting.{reconnect-Sound}

pair_answer-Receivable :
    (l : List (Option (ℕ × ℕ))) (c : Conn) → Receivable c → Receivable (pair_answer l c)
pair_answer-Receivable [] c h = h
pair_answer-Receivable (none ∷ rest) c h = h
pair_answer-Receivable (some (r, w) ∷ rest) c h = h

-- With a bind address that was given back, no connection is opened any more.
reconnect-freed :
    (blocking : Bool) (c : Conn) (ms : Msgs) (o : Options) (host : Text) (k : ℕ)
    → reconnect blocking (record {
      conn = c;
      msgs = ms;
      options = record o { host = some host; port = suc k; bind_freed = true };
    })
      ≡ crash
unfolding reconnect messages_reconnect_reset
reconnect-freed blocking c ms o host k =
    let t : (suc k == 0) ≡ false = ground arith in rw t (go (reset_in ms.in_messages))
  where
    m : Mosquitto
    m = record {
      conn = reset_conn c;
      msgs = ms;
      options = record o { host = some host; port = suc k; bind_freed = true };
    }

    go :
        (r : Option (List MessageAll × ℕ))
        → bind
            (elim r as (λ _. Outcome Mosquitto (Unit {0})) [
              | none ↦ crash
              | some (kept, rounds) ↦ ok tt (
                  with_msgs
                    (reset_outgoing (record ms { in_messages = kept; in_queue_len = pos rounds }))
                    m)
            ])
            (λ _. (do dial blocking; λ x. send_connect x.keepalive x.clean_session x))
          ≡ crash
    go none = refl
    go (some r) = refl

module _ (s : ClientState) (blocking : Bool) (host : Text) (k keepalive : ℕ) where
  abbrev paired : Mosquitto → Mosquitto
  paired n = with_conn (pair_answer n.pairs (record (n.conn) { keepalive = keepalive % 65536 })) n

  -- What follows behind `_mosquitto_connect_init`.
  abbrev opened : H Mosquitto (Unit {0})
  opened = do with_state s; reconnect blocking

  opened-Sound : (m : Mosquitto) → Sound m → After Sound (opened (paired m))
  opened-Sound m h =
      reconnect-Sound blocking (with_conn (record ((paired m).conn) { state = s }) (paired m)) (
        h.0,
        h.1,
        h.2,
        pair_answer-Receivable m.pairs (record (m.conn) { keepalive = keepalive % 65536 }) h.3,
      )

  -- What follows behind the copy of the host's name.
  abbrev rebound : Option Text → H Mosquitto (Unit {0})
  rebound a m = bind ((do free_bind_address; copy_bind_address a; modify paired) m) (λ _. opened)

  abbrev hosted : Mosquitto → Mosquitto
  hosted m = with_options (record (m.options) { host = some host; port = suc k }) m

  rebound-Safe :
      (a : Option Text) (m : Mosquitto) → Sound m → Safe (keeps_freed a m) (rebound a (hosted m))
  rebound-Safe a m h =
      subst
        (λ b. Safe (keeps_freed a m) (
          bind
            (bind
              (if b
                then crash
                else ok tt (with_bind m.bind_address (is_some m.bind_address) (hosted m)))
              (λ _. (do copy_bind_address a; modify paired)))
            (λ _. opened)))
        (sym h.2.kept) (go a)
    where
      emptied : Mosquitto
      emptied = with_bind none false (hosted m)

      emptied-Sound : Sound emptied
      emptied-Sound = (
        h.0,
        h.1,
        record {
          named = h.2.named;
          username = h.2.username;
          password = h.2.password;
          will = h.2.will;
          kept = refl;
        },
        h.3,
      )

      freed :
          (x : Option Text)
          → Safe (is_some x) (opened (paired (with_bind x (is_some x) (hosted m))))
      freed none = After-Safe false _ (opened-Sound emptied emptied-Sound)
      freed (some t) =
          subst (Safe true)
            (sym (
              reconnect-freed blocking (record ((paired m).conn) { state = s }) m.msgs
                (with_bind (some t) true m).options host k))
            refl

      copied :
          (t : Text) (o : Outcome Conn (Unit {0}))
          → After Receivable o
          → Safe false (
              bind
                (bind
                  (bind (lifted emptied o) (λ _. modify (with_bind (some t) false)))
                  (λ _. modify paired))
                (λ _. opened))
      copied t (ok x c) r = After-Safe false _ (
          opened-Sound (with_bind (some t) false (with_conn c emptied))
            (h.0, h.1, same-Good emptied.options _ refl refl refl refl refl emptied-Sound.2, r))
      copied t (err rc c) r = (h.0, h.1, emptied-Sound.2, r)
      copied t crash r = absurd r

      go :
          (a : Option Text)
          → Safe (keeps_freed a m) (
              bind
                ((do copy_bind_address a; modify paired)
                  (with_bind m.bind_address (is_some m.bind_address) (hosted m)))
                (λ _. opened))
      go none = freed m.bind_address
      go (some t) = copied t (must_malloc m.conn) (must_malloc-Receivable m.conn h.3)

module _ (s : ClientState) (blocking : Bool) (keepalive : ℕ) (a : Option Text) where
  called-Safe :
      (host : Option Text) (port : ℤ) (m : Mosquitto)
      → Sound m
      → Safe
          (keeps_freed a m)
          ((do connect_init host port keepalive a; with_state s; reconnect blocking) m)
  unfolding connect_init
  called-Safe none port m h = h
  called-Safe (some host) (pos zero) m h = h
  called-Safe (some host) (negsuc n) m h = h
  called-Safe (some host) (pos (suc k)) m h =
      hosting (must_malloc m.conn) (must_malloc-Receivable m.conn h.3)
    where
      hostless : Mosquitto
      hostless = with_options (record (m.options) { host = none }) m

      hostless-Good : GoodOptions hostless.options
      hostless-Good = same-Good m.options _ refl refl refl refl refl h.2

      hosting :
          (o : Outcome Conn (Unit {0}))
          → After Receivable o
          → Safe (keeps_freed a m) (
              bind
                (bind (lifted hostless o) (λ _. (do
                  modify
                      (λ n. with_options (record (n.options) { host = some host; port = suc k }) n)
                  free_bind_address
                  copy_bind_address a
                  modify (paired s blocking host k keepalive))))
                (λ _. (do with_state s; reconnect blocking)))
      hosting (ok x c) r = flagged a (
          rebound-Safe s blocking host k keepalive a (with_conn c hostless)
            (h.0, h.1, hostless-Good, r))
        where
          flagged :
              (a : Option Text)
              → Safe (keeps_freed a (with_conn c hostless)) (
                  rebound s blocking host k keepalive a
                    (hosted s blocking host k keepalive (with_conn c hostless)))
              → Safe (keeps_freed a m) (
                  rebound s blocking host k keepalive a
                    (hosted s blocking host k keepalive (with_conn c hostless)))
          flagged none e = e
          flagged (some t) e = e
      hosting (err rc c) r = (h.0, h.1, hostless-Good, r)
      hosting crash r = absurd r

module _ (host : Option Text) (port : ℤ) (keepalive : ℕ) (bind_address : Option Text)
    (m : Mosquitto) (h : Sound m) where
  pub connect_bind-Safe :
      Safe (keeps_freed bind_address m) (connect_bind host port keepalive bind_address m)
  unfolding connect_bind
  connect_bind-Safe = called-Safe new true keepalive bind_address host port m h

  pub connect_bind_async-Safe :
      Safe (keeps_freed bind_address m) (connect_bind_async host port keepalive bind_address m)
  unfolding connect_bind_async
  connect_bind_async-Safe = called-Safe connect_async false keepalive bind_address host port m h
