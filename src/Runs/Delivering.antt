-- ===== src/Runs/Delivering.antt =====
-- Writing what waits, and the inbox, on small concrete inputs.
use moscapsule.Prelude.{ℕ, refl, false, some, List, [], ◌∷◌, arith}
use moscapsule.Types.{Message}
use moscapsule.Outcome.{After}
use moscapsule.Packet.{Packet}
use moscapsule.Conn.{Conn, WriteEvent}
use moscapsule.Net.{packet_write}
use moscapsule.Net.Draining.{IsAllSent, packet_write-IsAllSent}
use moscapsule.Net.Calm.{delivered}
use moscapsule.Handle.{Publish}
use moscapsule.Handle.Inbox.{Inbox, Arrival, Shows, inbox_after, arrive_all, arrive_all-Shows}
use moscapsule.Runs.{start, connection, idle}

-- A PINGREQ of two bytes.
abbrev pingreq : Packet
pingreq = record start {
  command = 0xC0;
  payload = 0xC0 ∷ 0 ∷ [];
  packet_length = 2;
  to_process = 2;
}

-- One packet at hand and one behind it, and a socket that takes a byte or two.
abbrev loaded : Conn
loaded =
    record (connection start [] (
      WriteEvent.accepts 1
      ∷ WriteEvent.accepts 2
      ∷ WriteEvent.accepts 2
      ∷ WriteEvent.accepts 1
      ∷ [])) { current_out_packet = some pingreq; out_packet = pingreq ∷ [] }

packet_write-IsAllSent_example : IsAllSent loaded (packet_write loaded)
packet_write-IsAllSent_example =
    packet_write-IsAllSent loaded 5 refl refl
      (omega arith, (omega arith, (omega arith, (omega arith, tt)))) (refl, (refl, tt))
      (omega arith)

abbrev publish_of : ℕ → ℕ → Publish
publish_of mid qos = record {
  dup = false;
  msg = record { mid = mid; topic = b'a' ∷ []; payload = 9 ∷ []; qos = qos; retain = false };
}

-- The message that is kept already, under identifier 7.
abbrev first_kept : Message
first_kept = record { mid = 7; topic = b'a' ∷ []; payload = 1 ∷ 2 ∷ []; qos = 2; retain = false }

abbrev inbox : Inbox
inbox = (first_kept ∷ [], [])

abbrev arrivals : List Arrival
arrivals =
    Arrival.published (publish_of 8 2)
    ∷ Arrival.published (publish_of 9 1)
    ∷ Arrival.released 7
    ∷ Arrival.released 8
    ∷ []

idle-Shows : Shows inbox idle
unfolding delivered
idle-Shows = (refl, refl, refl)

arrive_all-Shows_example : After (Shows (inbox_after arrivals inbox)) (arrive_all arrivals idle)
arrive_all-Shows_example = arrive_all-Shows arrivals inbox idle idle-Shows
