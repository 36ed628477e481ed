-- ===== src/Messages/Inflight.antt =====
-- The window of messages in flight: what `max_inflight_messages` promises of `inflight_messages`.
use moscapsule.Prelude.{
  ℕ, zero, suc, ◌≤◌, ◌≡◌, refl, subst, ◌⊎◌, false, inl, inr, ℤ, pos, negsuc, increment, decrement,
  true, Bool-cases, Option, none, some, List, [], ◌∷◌, ◌++◌, All, ltb, ◌==◌, ◌&&◌, arith,
}
use moscapsule.Types.{Direction, incoming, outgoing, MessageAll}
use moscapsule.Outcome.{After-bind, Outcome, ok, err, crash, After, Holds, Ends}
use moscapsule.Conn.{Conn}
use moscapsule.Send.Wire.{send_publish-Ends}
use moscapsule.Client.{Msgs, Mosquitto, with_msgs, on_conn, lifted}
use moscapsule.Messages.{
  has_room, message_queue, reset_out, reset_outgoing, unlink, started, start_message, start_waiting,
  publish_again, is_invalid, unlinked_out, message_remove,
}
use moscapsule.Messages.Safety.{FitsMessage, Parts, unlink-Parts}

-- A maximum of 0 is no limit.
abbrev pub InWindow : ℕ → ℤ → Type 0
InWindow max (pos n) = (max ≡ 0) ⊎ (n ≤ max)
InWindow max (negsuc n) = Unit {0}

increment-InWindow : (max : ℕ) (n : ℤ) → has_room max n ≡ true → InWindow max (increment n)
increment-InWindow max (pos n) h = elim (Bool-cases (max == 0)) [
  | inl t ↦ inl (ground (arith, t))
  | inr t ↦ inr (ground (arith, t, h))
]
increment-InWindow max (negsuc zero) h = inr (omega arith)
increment-InWindow max (negsuc (suc n)) h = tt

decrement-InWindow : (max : ℕ) (n : ℤ) → InWindow max n → InWindow max (decrement n)
decrement-InWindow max (pos zero) h = tt
decrement-InWindow max (pos (suc n)) (inl e) = inl e
decrement-InWindow max (pos (suc n)) (inr e) = inr (omega (arith, e))
decrement-InWindow max (negsuc n) h = tt

abbrev pub Windowed : Msgs → Type 0
Windowed ms = InWindow ms.max_inflight_messages ms.inflight_messages

-- Where `out_messages_last` is in its own list, queueing a message ends and keeps the window,
-- whatever the message and the direction.
pub message_queue-Windowed :
    (x : MessageAll) (dir : Direction) (ms : Msgs)
    → ms.out_strays ≡ false
    → Windowed ms
    → Holds (λ _ ms'. Windowed ms') (message_queue x dir ms)
unfolding message_queue
message_queue-Windowed x incoming ms s h = h
message_queue-Windowed x outgoing ms s h = elim (Bool-cases (ltb 0 x.msg.qos)) [
  | inr t ↦ rw (s, t, message_queue) h
  | inl t ↦ elim (Bool-cases (has_room ms.max_inflight_messages ms.inflight_messages)) [
    | inl r ↦
        rw (s, t, r, message_queue)
          (increment-InWindow ms.max_inflight_messages ms.inflight_messages r)
    | inr r ↦ rw (s, t, r, message_queue) h
  ]
]

reset_out-InWindow :
    (max : ℕ) (n : ℤ) (xs : List MessageAll) → InWindow max n → InWindow max (reset_out max n xs).1
unfolding reset_out
reset_out-InWindow max n [] h = h
reset_out-InWindow max n (x ∷ xs) h = elim (Bool-cases (has_room max n && ltb 0 x.msg.qos)) [
  | inl t ↦
      rw (t, reset_out)
        (reset_out-InWindow max (increment n) xs (increment-InWindow max n (ground (arith, t))))
  | inr t ↦ rw (t, reset_out) (reset_out-InWindow max n xs h)
]

-- What the connection does leaves the messages.
pub lifted-After :
    {A : Type 0} (P : Msgs → Type 0) (m : Mosquitto) (o : Outcome Conn A)
    → Ends o
    → P m.msgs
    → After (λ m'. P m'.msgs) (lifted m o)
lifted-After P m (ok a c) e h = h
lifted-After P m (err rc c) e h = h
lifted-After P m crash e h = e

start_waiting-Windowed :
    (done rest : List MessageAll) (m : Mosquitto)
    → All FitsMessage rest
    → Windowed m.msgs
    → After (λ m'. Windowed m'.msgs) (start_waiting done rest m)
unfolding start_waiting
start_waiting-Windowed done [] m fit h = h
start_waiting-Windowed done (x ∷ rest) m fit h =
    elim (Bool-cases (has_room m.max_inflight_messages m.inflight_messages)) [
      | inr full ↦ rw (full, start_waiting) h
      | inl room ↦ elim (Bool-cases (ltb 0 x.msg.qos && is_invalid x.state)) [
        | inr passed ↦
            rw (room, passed, start_waiting)
              (start_waiting-Windowed (done ++ x ∷ []) rest m fit.1 h)
        | inl waits ↦
            rw (room, waits, start_waiting)
              (After-bind (λ m'. Windowed m'.msgs)
                (on_conn (publish_again (started x)) (start_message done x rest m)) _
                (lifted-After Windowed (start_message done x rest m) _
                  (send_publish-Ends _ _ _ _ _ _ _ fit.0)
                  (increment-InWindow m.max_inflight_messages m.inflight_messages room))
                (λ _ m' w. start_waiting-Windowed (done ++ started x ∷ []) rest m' fit.1 w))
      ]
    ]

-- Where the outgoing messages fit a packet, removing one of them and starting those that wait ends
-- and keeps the window, with every code.
pub message_remove-Windowed :
    (mid : ℕ) (m : Mosquitto)
    → All FitsMessage m.out_messages
    → Windowed m.msgs
    → After (λ m'. Windowed m'.msgs) (message_remove mid outgoing m)
unfolding message_remove
message_remove-Windowed mid m fit h = go (unlink mid m.out_messages) refl
  where
    go :
        (o : Option (MessageAll × List MessageAll))
        → unlink mid m.out_messages ≡ o
        → After (λ m'. Windowed m'.msgs) (message_remove mid outgoing m)
    go none e = rw (e, message_remove) h
    go (some (x, rest)) e =
        rw (e, message_remove)
          (After-bind (λ m'. Windowed m'.msgs)
            (start_waiting [] rest (with_msgs (unlinked_out x rest m.msgs) m)) _
            (start_waiting-Windowed [] rest _
              (subst (Parts FitsMessage) e (unlink-Parts FitsMessage mid m.out_messages fit)).1
              (unlinked x rest))
            (λ _ m' w. w))
      where
        unlinked : (x : MessageAll) (rest : List MessageAll) → Windowed (unlinked_out x rest m.msgs)
        unlinked x rest = elim (Bool-cases (ltb 0 x.msg.qos)) [
          | inl t ↦ rw t (decrement-InWindow m.max_inflight_messages m.inflight_messages h)
          | inr t ↦ rw t h
        ]

-- The second loop of the reset counts the messages that it lets fly, and no more than fit.
pub reset_outgoing-Windowed : (ms : Msgs) → Windowed (reset_outgoing ms)
reset_outgoing-Windowed ms =
    reset_out-InWindow ms.max_inflight_messages (pos 0) ms.out_messages (inr (omega arith))
