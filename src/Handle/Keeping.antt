-- ===== src/Handle/Keeping.antt =====
-- What the message operations and the senders leave of the messages that wait for PUBREL.
use moscapsule.Prelude.{
  ◌==◌, ℕ, ◌≡◌, refl, subst, Bool, true, false, Bool-cases, inl, inr, Option, none, some, List, [],
  ◌∷◌, ◌++◌, All, ltb, ◌&&◌, if◌then◌else◌,
}
use moscapsule.Types.{Rc, success, incoming, outgoing, MessageAll, wait_for_pubcomp}
use moscapsule.Outcome.{
  Outcome, H, ok, err, crash, bind, Ends, After, attempt, caught, optional, return_code,
}
use moscapsule.Conn.{Conn}
use moscapsule.Client.{Options, Mosquitto, with_msgs, on_conn, lifted}
use moscapsule.Messages.{
  message_queue, unlink, started, start_message, start_waiting, publish_again, has_room, is_invalid,
  unlinked_out, message_remove, message_delete, message_out_update, update_state,
}
use moscapsule.Messages.Safety.{FitsMessage, Parts, unlink-Parts}
use moscapsule.Messages.Reset.{IsExactlyOnce}
use moscapsule.Handle.{queue_incoming}

abbrev pub Received : Mosquitto → Type 0
Received m = All IsExactlyOnce m.in_messages

-- What is known of the received messages, outgoing messages that fit a packet, and the options of
-- before.
abbrev pub Settled : (MessageAll → Type 0) → Options → Mosquitto → Type 0
Settled E opts m = All E m.in_messages × All FitsMessage m.out_messages × (m.options ≡ opts)

-- What holds afterwards if the function ends.
abbrev pub Keeps : {A : Type 0} → (MessageAll → Type 0) → Options → Outcome Mosquitto A → Type 0
Keeps E opts (ok a m) = Settled E opts m
Keeps E opts (err rc m) = Settled E opts m
Keeps E opts crash = Unit {0}

pub Keeps-After :
    (E : MessageAll → Type 0) (opts : Options) {A : Type 0} (o : Outcome Mosquitto A)
    → Ends o
    → Keeps E opts o
    → After (Settled E opts) o
Keeps-After E opts (ok a m) e h = h
Keeps-After E opts (err rc m) e h = h
Keeps-After E opts crash e h = e

pub Keeps-bind :
    (E : MessageAll → Type 0) (opts : Options) {A B : Type 0} (o : Outcome Mosquitto A)
    (k : A → Mosquitto → Outcome Mosquitto B)
    → Keeps E opts o
    → ((a : A) (m : Mosquitto) → Settled E opts m → Keeps E opts (k a m))
    → Keeps E opts (bind o k)
Keeps-bind E opts (ok a m) k h g = g a m h
Keeps-bind E opts (err rc m) k h g = h
Keeps-bind E opts crash k h g = tt

pub conn-Keeps :
    (E : MessageAll → Type 0) (opts : Options) {A : Type 0} (f : H Conn A) (m : Mosquitto)
    → Settled E opts m
    → Keeps E opts (on_conn f m)
conn-Keeps E opts {A} f m h = go (f m.conn)
  where
    go : (o : Outcome Conn A) → Keeps E opts (lifted m o)
    go (ok a c) = h
    go (err rc c) = h
    go crash = tt

pub attempt-Keeps :
    (E : MessageAll → Type 0) (opts : Options) (f : H Mosquitto (Unit {0})) (m : Mosquitto)
    → Keeps E opts (f m)
    → Keeps E opts (attempt f m)
attempt-Keeps E opts f m h = go (f m) h
  where
    go : (o : Outcome Mosquitto (Unit {0})) → Keeps E opts o → Keeps E opts (caught o)
    go (ok a n) e = e
    go (err rc n) e = e
    go crash e = tt

pub return_code-Keeps :
    (E : MessageAll → Type 0) (opts : Options) (rc : Rc) (m : Mosquitto)
    → Settled E opts m
    → Keeps E opts (return_code rc tt m)
return_code-Keeps E opts success m h = h
return_code-Keeps E opts _ m h = h

pub if-Keeps :
    (E : MessageAll → Type 0) (opts : Options) {A : Type 0} (b : Bool) (f g : H Mosquitto A)
    (m : Mosquitto)
    → (b ≡ true → Keeps E opts (f m))
    → Keeps E opts (g m)
    → Keeps E opts ((if b then f else g) m)
if-Keeps E opts true f g m h k = h refl
if-Keeps E opts false f g m h k = k

pub All-join :
    (P : MessageAll → Type 0) (xs ys : List MessageAll) → All P xs → All P ys → All P (xs ++ ys)
All-join P [] ys h k = k
All-join P (x ∷ xs) ys h k = (h.0, All-join P xs ys h.1 k)

pub All-append :
    (P : MessageAll → Type 0) (xs : List MessageAll) (x : MessageAll)
    → All P xs
    → P x
    → All P (xs ++ x ∷ [])
All-append P xs x h k = All-join P xs (x ∷ []) h (k, tt)

abbrev OutFits : Option (List MessageAll) → Type 0
OutFits none = Unit {0}
OutFits (some out) = All FitsMessage out

update_state-Fits :
    (mid now : ℕ) (xs : List MessageAll)
    → All FitsMessage xs
    → OutFits (update_state mid wait_for_pubcomp now xs)
unfolding update_state
update_state-Fits mid now [] h = tt
update_state-Fits mid now (x ∷ xs) h =
    go (update_state mid wait_for_pubcomp now xs) refl (update_state-Fits mid now xs h.1)
  where
    go :
        (o : Option (List MessageAll))
        → update_state mid wait_for_pubcomp now xs ≡ o
        → OutFits o
        → OutFits (update_state mid wait_for_pubcomp now (x ∷ xs))
    go none e k = elim (Bool-cases (x.msg.mid == mid)) [
      | inl t ↦ rw (t, update_state) h
      | inr t ↦ rw (t, e, update_state) tt
    ]
    go (some out) e k = elim (Bool-cases (x.msg.mid == mid)) [
      | inl t ↦ rw (t, update_state) h
      | inr t ↦ rw (t, e, update_state) (h.0, k)
    ]

start_waiting-Keeps :
    (E : MessageAll → Type 0) (opts : Options) (done rest : List MessageAll) (m : Mosquitto)
    → All FitsMessage done
    → All FitsMessage rest
    → Settled E opts m
    → Keeps E opts (start_waiting done rest m)
unfolding start_waiting
start_waiting-Keeps E opts done [] m d r h = h
start_waiting-Keeps E opts done (x ∷ rest) m d r h =
    elim (Bool-cases (has_room m.max_inflight_messages m.inflight_messages)) [
      | inr full ↦ rw (full, start_waiting) h
      | inl room ↦ elim (Bool-cases (ltb 0 x.msg.qos && is_invalid x.state)) [
        | inr passed ↦
            rw (room, passed, start_waiting)
              (start_waiting-Keeps E opts (done ++ x ∷ []) rest m
                (All-append FitsMessage done x d r.0) r.1 h)
        | inl waits ↦
            rw (room, waits, start_waiting)
              (Keeps-bind E opts (on_conn (publish_again (started x)) (start_message done x rest m))
                _
                (conn-Keeps E opts (publish_again (started x)) (start_message done x rest m)
                  (h.0, All-join FitsMessage done (started x ∷ rest) d (r.0, r.1), h.2))
                (λ _ m' k.
                  start_waiting-Keeps E opts (done ++ started x ∷ []) rest m'
                    (All-append FitsMessage done (started x) d r.0) r.1 k))
      ]
    ]

pub message_delete-Keeps :
    (E : MessageAll → Type 0) (opts : Options) (mid : ℕ) (m : Mosquitto)
    → Settled E opts m
    → Keeps E opts (message_delete mid outgoing m)
unfolding message_delete message_remove
message_delete-Keeps E opts mid m h =
    Keeps-bind E opts (message_remove mid outgoing m) _ (go (unlink mid m.out_messages) refl)
      (λ _ m' r. r)
  where
    fits :
        (x : MessageAll) (rest : List MessageAll)
        → unlink mid m.out_messages ≡ some (x, rest)
        → All FitsMessage rest
    fits x rest e =
        (subst (Parts FitsMessage) e (unlink-Parts FitsMessage mid m.out_messages h.1)).1

    go :
        (o : Option (MessageAll × List MessageAll))
        → unlink mid m.out_messages ≡ o
        → Keeps E opts (message_remove mid outgoing m)
    go none e = rw (e, message_remove) h
    go (some (x, rest)) e =
        rw (e, message_remove)
          (Keeps-bind E opts (start_waiting [] rest (with_msgs (unlinked_out x rest m.msgs) m)) _
            (start_waiting-Keeps E opts [] rest (with_msgs (unlinked_out x rest m.msgs) m) tt
              (fits x rest e) (h.0, fits x rest e, h.2))
            (λ _ m' r. r))

pub remove_incoming-Keeps :
    (E : MessageAll → Type 0) (opts : Options) (mid : ℕ) (m : Mosquitto)
    → Settled E opts m
    → Keeps E opts (optional (message_remove mid incoming) m)
unfolding message_remove
remove_incoming-Keeps E opts mid m h = go (unlink mid m.in_messages) refl
  where
    go :
        (o : Option (MessageAll × List MessageAll))
        → unlink mid m.in_messages ≡ o
        → Keeps E opts (optional (message_remove mid incoming) m)
    go none e = rw (e, message_remove) h
    go (some (x, rest)) e =
        rw (e, message_remove)
          ((subst (Parts E) e (unlink-Parts E mid m.in_messages h.0)).1, h.1, h.2)

pub message_out_update-Keeps :
    (E : MessageAll → Type 0) (opts : Options) (mid : ℕ) (m : Mosquitto)
    → Settled E opts m
    → Keeps E opts (message_out_update mid wait_for_pubcomp m)
unfolding message_out_update
message_out_update-Keeps E opts mid m h =
    go (update_state mid wait_for_pubcomp m.now m.out_messages) refl
  where
    go :
        (o : Option (List MessageAll))
        → update_state mid wait_for_pubcomp m.now m.out_messages ≡ o
        → Keeps E opts (message_out_update mid wait_for_pubcomp m)
    go none e = rw (e, message_out_update) h
    go (some out) e =
        rw (e, message_out_update)
          (h.0, subst OutFits e (update_state-Fits mid m.now m.out_messages h.1), h.2)

pub queue_incoming-Keeps :
    (E : MessageAll → Type 0) (opts : Options) (x : MessageAll) (m : Mosquitto)
    → E x
    → Settled E opts m
    → Keeps E opts (queue_incoming x m)
unfolding message_queue
queue_incoming-Keeps E opts x m q h = (All-append E m.in_messages x h.0 q, h.1, h.2)
