-- ===== src/Runs/Proxying.antt =====
-- The negotiation with a proxy at concrete replies.
use moscapsule.Prelude.{ℕ, ◌≡◌, refl, ◌++◌, some, List, [], ◌∷◌, arith}
use moscapsule.Types.{Text, wait_for_puback, invalid}
use moscapsule.Outcome.{Holds, After}
use moscapsule.Packet.{Packet}
use moscapsule.Conn.{ReadEvent, received}
use moscapsule.Socks.{
  SocksState, socks5_start, socks5_request, socks5_auth_ok, Proxied, socks5_read, socks5_send,
}
use moscapsule.Socks.Steady.{Steady, Negotiating}
use moscapsule.Socks.Negotiating.{socks5_read-Negotiating}
use moscapsule.Socks.Proxy.{promised, parse_request, socks5_send-parse_request}
use moscapsule.Runs.{start, connection, idle, message-FitsMessage}

abbrev broker : Text
broker = b'h' ∷ []

-- A client in a state of the negotiation, over a packet that comes in and the coming reads.
abbrev negotiating : SocksState → Packet → List ReadEvent → Proxied
negotiating phase q reads = record {
  client = record idle {
    conn = connection q reads [];
    options = record (idle.options) { id = some (b'c' ∷ []); host = some broker; port = 1883 };
  };
  phase = phase;
  socks5_host = some (b'p' ∷ []);
  socks5_port = 1080;
  socks5_username = some (b'u' ∷ []);
  socks5_password = some (b'w' ∷ []);
}

-- Two bytes are awaited, and the proxy wants no login.
abbrev greeted : Proxied
greeted =
    negotiating socks5_start
      (record start { payload = 170 ∷ 170 ∷ []; packet_length = 2; to_process = 2 })
      (received 5 (0 ∷ []) ∷ [])

greeted-Steady : Steady greeted
greeted-Steady = record {
  waiting = ((refl, refl), tt);
  fits = (message-FitsMessage 1 1 wait_for_puback, (message-FitsMessage 2 1 invalid, tt));
  good = record { named = omega arith; username = tt; password = tt; will = tt; kept = refl };
  host = tt;
  login = tt;
}

socks5_read-Negotiating_example : Holds (λ _ q. Negotiating q) (socks5_read greeted)
socks5_read-Negotiating_example =
    socks5_read-Negotiating greeted refl tt
      (greeted-Steady, record { whole = refl; cursor = refl }, refl)

-- The next state after the reply: the request is sent, and its reply awaited.
greeted-requests :
    Holds
      (λ _ q. (q.phase ≡ socks5_request) × (q.client.in_packet.to_process ≡ 5))
      (socks5_read greeted)
unfolding socks5_read moscapsule.Conn.must_malloc moscapsule.Net.packet_queue
greeted-requests = (refl, refl)

abbrev accepted : Proxied
accepted = negotiating socks5_auth_ok start []

socks5_send-parse_request_example :
    After
      (λ q.
        (bs : List ℕ) × (promised q ≡ promised accepted ++ bs)
        × (parse_request bs ≡ some (broker, 1883)))
      (socks5_send accepted)
socks5_send-parse_request_example =
    socks5_send-parse_request accepted broker refl refl refl (omega arith) (omega arith)
