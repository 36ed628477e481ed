-- ===== src/Api/Publish.antt =====
-- `mosquitto_publish`: what a call at QoS 1 or 2 leaves.
use moscapsule.Prelude.{
  ℕ, ◌≡◌, refl, ap, ◌∙◌, false, Bool-cases, List, [], ◌∷◌, ◌++◌, ◌==◌, inl, inr, ◌⊎◌, ltb,
}
use moscapsule.Types.{outgoing, MessageAll}
use moscapsule.Outcome.{Outcome, ok, err, crash, After}
use moscapsule.Client.{Msgs, Mosquitto, with_msgs, on_conn}
use moscapsule.Send.Wire.{send_publish-Ends}
use moscapsule.Messages.{message_queue, started, publish_again, has_room}
use moscapsule.Messages.Safety.{FitsMessage}
use moscapsule.Messages.Inflight.{lifted-After}
use moscapsule.Api.{publish_queued, start_last}

-- The message stands at the end, waiting or started; nothing else in the list has changed.
abbrev pub IsQueued : MessageAll → List MessageAll → List MessageAll → Type 0
IsQueued x before out = (out ≡ before ++ x ∷ []) ⊎ (out ≡ before ++ started x ∷ [])

pub start_last-append :
    (xs : List MessageAll) (x : MessageAll) → start_last (xs ++ x ∷ []) ≡ xs ++ started x ∷ []
unfolding start_last
start_last-append [] x = refl
start_last-append (y ∷ []) x = refl
start_last-append (y ∷ z ∷ xs) x = ap (◌∷◌ y) (start_last-append (z ∷ xs) x)

-- What queueing leaves, with no other code than success.
abbrev pub Appended : MessageAll → Msgs → Outcome Msgs ℕ → Type 0
Appended x ms (ok status ms') =
    (ms'.out_messages ≡ ms.out_messages ++ x ∷ []) × (ms'.in_messages ≡ ms.in_messages)
Appended x ms (err rc ms') = ⊥
Appended x ms crash = ⊥

pub message_queue-outgoing :
    (x : MessageAll) (ms : Msgs)
    → ms.out_strays ≡ false
    → Appended x ms (message_queue x outgoing ms)
unfolding message_queue
message_queue-outgoing x ms s = elim (Bool-cases (ltb 0 x.msg.qos)) [
  | inr t ↦ rw (s, t, message_queue) (refl, refl)
  | inl t ↦ elim (Bool-cases (has_room ms.max_inflight_messages ms.inflight_messages)) [
    | inl r ↦ rw (s, t, r, message_queue) (refl, refl)
    | inr r ↦ rw (s, t, r, message_queue) (refl, refl)
  ]
]

-- Where `out_messages_last` is in its own list and the message fits a packet, the message stands at
-- the end of `out_messages` afterwards, waiting or started, whatever code the sending returns: an
-- error of the connection does not lose it.
pub publish_queued-IsQueued :
    (x : MessageAll) (m : Mosquitto)
    → m.out_strays ≡ false
    → FitsMessage x
    → After (λ m'. IsQueued x m.out_messages m'.out_messages) (publish_queued x m)
unfolding publish_queued
publish_queued-IsQueued x m s fit =
    go (message_queue x outgoing m.msgs) refl (message_queue-outgoing x m.msgs s)
  where
    send :
        (ms : Msgs)
        → ms.out_messages ≡ m.out_messages ++ x ∷ []
        → After
            (λ m'. IsQueued x m.out_messages m'.out_messages)
            (on_conn
              (publish_again (started x))
              (with_msgs (record ms { out_messages = start_last ms.out_messages }) m))
    send ms e =
        lifted-After (λ ms'. IsQueued x m.out_messages ms'.out_messages)
          (with_msgs (record ms { out_messages = start_last ms.out_messages }) m) _
          (send_publish-Ends _ _ _ _ _ _ _ fit)
          (inr (ap start_last e ∙ start_last-append m.out_messages x))

    go :
        (o : Outcome Msgs ℕ)
        → message_queue x outgoing m.msgs ≡ o
        → Appended x m.msgs o
        → After (λ m'. IsQueued x m.out_messages m'.out_messages) (publish_queued x m)
    go (ok status ms) q e = elim (Bool-cases (status == 0)) [
      | inl t ↦ rw (q, publish_queued, t) (send ms e.0)
      | inr t ↦ rw (q, publish_queued, t) (inl e.0)
    ]
    go (err rc ms) q e = absurd e
    go crash q e = absurd e
