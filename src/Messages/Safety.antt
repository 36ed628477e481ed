-- ===== src/Messages/Safety.antt =====
-- The functions of messages_mosq.c end on messages that fit a packet.
use moscapsule.Prelude.{
  ℕ, ◌≡◌, refl, subst, ◌==◌, false, Bool-cases, inl, inr, Option, none, some, List, [], ◌∷◌, ◌++◌,
  All, ltb, ◌&&◌,
}
use moscapsule.Types.{MessageAll, outgoing}
use moscapsule.Outcome.{Outcome, ok, err, crash, Ends, Ends-bind, Ends-Holds}
use moscapsule.Conn.{Conn}
use moscapsule.Send.Wire.{Fits, send_publish-Ends}
use moscapsule.Client.{Mosquitto, with_msgs, on_conn, lifted}
use moscapsule.Messages.{
  unlink, started, start_message, start_waiting, publish_again, has_room, is_invalid, unlinked_out,
  message_remove, message_delete,
}

abbrev pub FitsMessage : MessageAll → Type 0
FitsMessage x = Fits x.msg.topic x.msg.payload

pub lifted-Ends : {A : Type 0} (m : Mosquitto) (o : Outcome Conn A) → Ends o → Ends (lifted m o)
lifted-Ends m (ok a c) h = tt
lifted-Ends m (err rc c) h = tt
lifted-Ends m crash h = h

pub start_waiting-Ends :
    (done rest : List MessageAll) (m : Mosquitto)
    → All FitsMessage rest
    → Ends (start_waiting done rest m)
unfolding start_waiting
start_waiting-Ends done [] m h = tt
start_waiting-Ends done (x ∷ rest) m h =
    elim (Bool-cases (has_room m.max_inflight_messages m.inflight_messages)) [
      | inr full ↦ rw (full, start_waiting) tt
      | inl room ↦ elim (Bool-cases (ltb 0 x.msg.qos && is_invalid x.state)) [
        | inr passed ↦
            rw (room, passed, start_waiting) (start_waiting-Ends (done ++ x ∷ []) rest m h.1)
        | inl waits ↦
            rw (room, waits, start_waiting)
              (Ends-bind _ (on_conn (publish_again (started x)) (start_message done x rest m)) _
                (Ends-Holds _ (
                  lifted-Ends (start_message done x rest m) _
                    (send_publish-Ends _ _ _ _ _ _ _ h.0)))
                (λ _ m' _. start_waiting-Ends (done ++ started x ∷ []) rest m' h.1))
      ]
    ]

-- The message that is found, and those that stay.
abbrev pub Parts : (MessageAll → Type 0) → Option (MessageAll × List MessageAll) → Type 0
Parts P none = Unit {0}
Parts P (some (x, rest)) = P x × All P rest

pub unlink-Parts :
    (P : MessageAll → Type 0) (mid : ℕ) (xs : List MessageAll) → All P xs → Parts P (unlink mid xs)
unfolding unlink
unlink-Parts P mid [] h = tt
unlink-Parts P mid (y ∷ ys) h = go (unlink mid ys) refl (unlink-Parts P mid ys h.1)
  where
    go :
        (o : Option (MessageAll × List MessageAll))
        → unlink mid ys ≡ o
        → Parts P o
        → Parts P (unlink mid (y ∷ ys))
    go o e k = elim (Bool-cases (y.msg.mid == mid)) [
      | inl t ↦ rw (t, unlink) h
      | inr t ↦ rest o e k t
    ]
      where
        rest :
            (o : Option (MessageAll × List MessageAll))
            → unlink mid ys ≡ o
            → Parts P o
            → (y.msg.mid == mid) ≡ false
            → Parts P (unlink mid (y ∷ ys))
        rest none e k t = rw (t, e, unlink) tt
        rest (some (x, zs)) e k t = rw (t, e, unlink) (k.0, (h.0, k.1))

pub message_remove-Ends :
    (mid : ℕ) (m : Mosquitto)
    → All FitsMessage m.out_messages
    → Ends (message_remove mid outgoing m)
unfolding message_remove
message_remove-Ends mid m h = go (unlink mid m.out_messages) refl
  where
    go :
        (o : Option (MessageAll × List MessageAll))
        → unlink mid m.out_messages ≡ o
        → Ends (message_remove mid outgoing m)
    go none e = rw (e, message_remove) tt
    go (some (x, rest)) e =
        rw (e, message_remove)
          (Ends-bind _ (start_waiting [] rest (with_msgs (unlinked_out x rest m.msgs) m)) _
            (Ends-Holds _ (
              start_waiting-Ends [] rest _
                (subst (Parts FitsMessage) e (unlink-Parts FitsMessage mid m.out_messages h)).1))
            (λ _ m' _. tt))

pub message_delete-Ends :
    (mid : ℕ) (m : Mosquitto)
    → All FitsMessage m.out_messages
    → Ends (message_delete mid outgoing m)
unfolding message_delete
message_delete-Ends mid m h =
    Ends-bind _ (message_remove mid outgoing m) _ (Ends-Holds _ (message_remove-Ends mid m h))
      (λ _ m' _. tt)
