-- ===== src/Tests/Relay.antt =====
-- A message of two bytes goes through the router.
use proj.Prelude.{◌≡◌, refl, true, some, [], ◌∷◌, arith, replicate, if◌then◌else◌}
use proj.Prelude.Int.{pos}
use proj.Spiffy.{Spiffy, SocketData, Recvd, htonl, spiffy_bytes, spiffy_sendto, spiffy_recvfrom}
use proj.Spiffy.Relay.{Delivered, spiffy_recvfrom-spiffy_sendto}

abbrev sender : Spiffy
sender = record {
  enabled = true;
  node_id = 1;
  src_addr = 16777343;
  src_port = 41231;
  router_addr = 16777343;
  router_port = 5001;
}

abbrev receiver : Spiffy
receiver = record sender { node_id = 2; src_port = 41232 }

abbrev before : Recvd
before = record { ret = pos 0; buffer = replicate 1500 0; addr = 0; port = 0 }

abbrev handed : SocketData
handed = record {
  bytes =
      spiffy_bytes
        (record {
          id = htonl 1;
          src_addr = 16777343;
          dest_addr = 16777343;
          src_port = 41231;
          dest_port = 41232;
        })
        (7 ∷ 8 ∷ []);
  addr = 16777343;
  port = 5001;
}

hands : (spiffy_sendto sender (7 ∷ 8 ∷ []) true 16777343 41232 (pos 18)).1 ≡ some handed
unfolding spiffy_sendto
hands = refl

-- It comes from the router.
abbrev from : SocketData
from = record handed { port = 5001 }

spiffy_recvfrom-spiffy_sendto_example :
    (r : Recvd) × (spiffy_recvfrom (λ n. 165) receiver 1500 before (some from) ≡ some r)
    × Delivered sender (7 ∷ 8 ∷ []) from r
    × (handed.addr ≡ (if sender.enabled then sender.router_addr else 16777343))
    × (handed.port ≡ (if sender.enabled then sender.router_port else 41232))
spiffy_recvfrom-spiffy_sendto_example =
    spiffy_recvfrom-spiffy_sendto (λ n. 165) sender receiver (7 ∷ 8 ∷ []) 16777343 41232 1500
      (pos 18) before (omega arith) (omega arith) (omega arith) refl handed from hands refl
