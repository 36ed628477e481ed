-- ===== src/Messages/Reset.antt =====
-- `_mosquitto_messages_reconnect_reset` on the messages that a client has.
use moscapsule.Prelude.{
  ℕ, not, ◌≡◌, refl, ap, ℤ, pos, increment, true, Option, none, some, List, [], ◌∷◌, All, length,
  ltb, ◌==◌, ◌&&◌, if◌then◌else◌, arith,
}
use moscapsule.Types.{Message, MessageAll}
use moscapsule.Outcome.{ok}
use moscapsule.Client.{Msgs, Mosquitto, with_msgs}
use moscapsule.Messages.{
  is_empty, has_room, reset_tail, reset_in, reset_out, reset_outgoing, messages_reconnect_reset,
}
use moscapsule.Messages.Inflight.{Windowed, reset_outgoing-Windowed}

-- A received message that is kept is one of QoS 2.
abbrev pub IsExactlyOnce : MessageAll → Type 0
IsExactlyOnce x = x.msg.qos ≡ 2

-- The messages themselves, without their states.
abbrev pub contents : List MessageAll → List Message
contents [] = []
contents (x ∷ xs) = x.msg ∷ contents xs

abbrev pub AllAtZero : List MessageAll → Type 0
AllAtZero [] = Unit {0}
AllAtZero (x ∷ xs) = (x.timestamp ≡ 0) × AllAtZero xs

reset_tail-contents :
    (xs : List MessageAll)
    → All IsExactlyOnce xs
    → (contents (reset_tail xs) ≡ contents xs) × AllAtZero (reset_tail xs)
unfolding reset_tail
reset_tail-contents [] h = (refl, tt)
reset_tail-contents (x ∷ xs) h =
    let t : (x.msg.qos == 2) ≡ true = ground (arith, h.0) in
    let (c, z) = reset_tail-contents xs h.1 in rw (t, reset_tail) (ap (◌∷◌ x.msg) c, (refl, z))

-- What the first loop leaves: all messages, and their count.
abbrev Rested : List MessageAll → Option (List MessageAll × ℕ) → Type 0
Rested xs none = ⊥
Rested xs (some (ys, n)) = (contents ys ≡ contents xs) × AllAtZero ys × (n ≡ length xs)

reset_in-Rested : (xs : List MessageAll) → All IsExactlyOnce xs → Rested xs (reset_in xs)
unfolding reset_in
reset_in-Rested [] h = (refl, tt, refl)
reset_in-Rested (x ∷ []) h =
    let t : (x.msg.qos == 2) ≡ true = ground (arith, h.0) in
    rw (t, reset_in) (refl, (refl, tt), omega arith)
reset_in-Rested (x ∷ y ∷ xs) h =
    let t : (x.msg.qos == 2) ≡ true = ground (arith, h.0) in
    let (c, z) = reset_tail-contents (y ∷ xs) h.1 in
    rw (t, reset_in) (ap (◌∷◌ x.msg) c, (refl, z), omega arith)

is_empty-contents :
    (xs ys : List MessageAll) → contents xs ≡ contents ys → is_empty xs ≡ is_empty ys
is_empty-contents [] [] e = refl
is_empty-contents [] (y ∷ ys) e = grind (arith, e)
is_empty-contents (x ∷ xs) [] e = grind (arith, e)
is_empty-contents (x ∷ xs) (y ∷ ys) e = refl

reset_out-contents :
    (max : ℕ) (n : ℤ) (xs : List MessageAll)
    → (contents (reset_out max n xs).0 ≡ contents xs) × AllAtZero (reset_out max n xs).0
unfolding reset_out
reset_out-contents max n [] = (refl, tt)
reset_out-contents max n (x ∷ xs) =
    let (c, z) =
      reset_out-contents max (if has_room max n && ltb 0 x.msg.qos then increment n else n) xs in
    (ap (◌∷◌ x.msg) c, (refl, z))

-- The messages are all kept in their order, with their times at 0; both queues are counted, and
-- what flies is in the window.
pub record IsReset (m : Mosquitto) (m' : Mosquitto) : Type 0 where
  in_kept : contents m'.in_messages ≡ contents m.in_messages
  out_kept : contents m'.out_messages ≡ contents m.out_messages
  in_times : AllAtZero m'.in_messages
  out_times : AllAtZero m'.out_messages
  in_counted : m'.in_queue_len ≡ pos (length m.in_messages)
  out_counted : m'.out_queue_len ≡ pos (length m.out_messages)
  windowed : Windowed m'.msgs
  strays : m'.out_strays ≡ (is_empty m.out_messages && not (is_empty m.in_messages))

-- Where the received messages are all of QoS 2, the reset succeeds and loses no message.
pub messages_reconnect_reset-IsReset :
    (m : Mosquitto)
    → All IsExactlyOnce m.in_messages
    → (m' : Mosquitto) × (messages_reconnect_reset m ≡ ok tt m') × IsReset m m'
unfolding messages_reconnect_reset
messages_reconnect_reset-IsReset m h =
    go (reset_in m.in_messages) refl (reset_in-Rested m.in_messages h)
  where
    go :
        (o : Option (List MessageAll × ℕ))
        → reset_in m.in_messages ≡ o
        → Rested m.in_messages o
        → (m' : Mosquitto) × (messages_reconnect_reset m ≡ ok tt m') × IsReset m m'
    go none e r = absurd r
    go (some (ys, n)) e (c, z, l) =
        let ms : Msgs = record (m.msgs) { in_messages = ys; in_queue_len = pos n } in
        let (oc, oz) = reset_out-contents m.max_inflight_messages (pos 0) m.out_messages in
        (
          with_msgs (reset_outgoing ms) m,
          rw (e, messages_reconnect_reset) refl,
          record {
            in_kept = c;
            out_kept = oc;
            in_times = z;
            out_times = oz;
            in_counted = ap pos l;
            out_counted = refl;
            windowed = reset_outgoing-Windowed ms;
            strays =
                ap (λ b. is_empty m.out_messages && not b) (is_empty-contents ys m.in_messages c);
          },
        )
