-- ===== src/Handle/Reading.antt =====
-- `_mosquitto_packet_read` as a whole: the packet is assembled, handled and given back.
use moscapsule.Prelude.{◌≡◌, subst, sym, All, arith}
use moscapsule.Types.{Rc, success}
use moscapsule.Outcome.{Holds, Ends-Holds, Holds-bind, attempt, attempt-Ends, return_code}
use moscapsule.Packet.{Packet, packet_cleanup}
use moscapsule.Packet.Reads.{InBlock}
use moscapsule.Net.{Progress, go_on, wait, read_packet}
use moscapsule.Net.Receiving.{Receiving}
use moscapsule.Net.Filling.{Complete, read_packet-Holds}
use moscapsule.Client.{Mosquitto, with_conn, on_conn}
use moscapsule.Messages.Safety.{FitsMessage}
use moscapsule.Handle.{packet_handle, packet_read, rewound, packet_done, handle_whole, handle_after}
use moscapsule.Handle.Safety.{lifted-Holds, packet_handle-Ends}

-- A packet that is given back is at its start.
pub packet_cleanup-Receiving : (p : Packet) → Receiving (packet_cleanup p)
unfolding packet_cleanup
packet_cleanup-Receiving p = ground arith

return_code-Holds :
    (P : Mosquitto → Type 0) (rc : Rc) (m : Mosquitto)
    → P m
    → Holds (λ _ m'. P m') (return_code rc tt m)
return_code-Holds P success m h = h
return_code-Holds P _ m h = tt

handle_whole-Holds :
    (m : Mosquitto)
    → InBlock (rewound m.conn).in_packet
    → All FitsMessage m.out_messages
    → Holds (λ _ m'. Receiving m'.in_packet) (handle_whole m)
handle_whole-Holds m b fit =
    Holds-bind (λ _ _. Unit {0}) _ (attempt packet_handle (with_conn (rewound m.conn) m)) _
      (Ends-Holds _ (
        attempt-Ends packet_handle (with_conn (rewound m.conn) m)
          (packet_handle-Ends (with_conn (rewound m.conn) m) b fit)))
      (λ rc m' _.
        return_code-Holds (λ m''. Receiving m''.in_packet) rc (packet_done m')
          (packet_cleanup-Receiving m'.in_packet))

-- On a client whose packet is being received, with messages of ours that fit a packet, a call of
-- the reader does not crash, whatever comes; if it returns success, the packet is being received still.
pub packet_read-Receiving :
    (m : Mosquitto)
    → Receiving m.in_packet
    → All FitsMessage m.out_messages
    → Holds (λ _ m'. Receiving m'.in_packet) (packet_read m)
unfolding packet_read
packet_read-Receiving m r fit =
    Holds-bind (λ progress m'. Complete progress m'.conn × (m'.out_messages ≡ m.out_messages)) _
      (on_conn read_packet m) _
      (lifted-Holds Complete m (read_packet m.conn) (read_packet-Holds m.conn r)) go
  where
    go :
        (progress : Progress) (m' : Mosquitto)
        → Complete progress m'.conn × (m'.out_messages ≡ m.out_messages)
        → Holds (λ _ m''. Receiving m''.in_packet) (handle_after progress m')
    go wait m' h = h.0
    go go_on m' h =
        let k = h.0.0 in
        handle_whole-Holds m'
          (record { whole = k.filling.whole; within = omega arith; small = k.filling.bounded })
          (subst (All FitsMessage) (sym h.1) fit)
