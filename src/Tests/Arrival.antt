-- ===== src/Tests/Arrival.antt =====
-- A datagram from peer 1, at concrete inputs.
use proj.Prelude.{ℕ, ◌<◌, refl, [], ◌∷◌, arith, replicate, length, length-replicate}
use proj.Prelude.Int.{pos}
use proj.Peer.{Process, Received, header_bytes, process_inbound_udp}
use proj.Peer.Inbound.{Inbound, process_inbound_udp-Inbound}
use proj.Tests.Data.{env, data_header, asked_file, responser, constant_hash}

abbrev pub process : Process
process = record {
  requestor = asked_file;
  responser = responser;
  buf = replicate 1500 0;
  last_time = pos 0;
  env = env;
}

abbrev pub datagram : Received
datagram = record {
  bytes = header_bytes (data_header 3) (1 ∷ 2 ∷ []);
  sin_addr = 2130706433;
  sin_port = 4001;
}

pub datagram-short : length datagram.bytes < 1500
unfolding header_bytes
datagram-short = omega arith

process_inbound_udp-Inbound_example :
    Inbound constant_hash process datagram
      (data_header 3)
      (1 ∷ 2 ∷ [])
      (process_inbound_udp constant_hash process datagram)
process_inbound_udp-Inbound_example =
    process_inbound_udp-Inbound constant_hash process datagram (data_header 3) (1 ∷ 2 ∷ [])
      (omega arith) refl datagram-short (length-replicate {A = ℕ} 1500 0)
