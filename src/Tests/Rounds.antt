-- ===== src/Tests/Rounds.antt =====
-- A round of the process, at concrete inputs: a DATA packet arrives, and a GET is typed.
use proj.Prelude.{
  ℕ, zero, ◌<◌, ◌≤◌, ◌≡◌, refl, inr, Bool, true, false, Option, none, some, List, [], ◌∷◌, ◌++◌,
  arith, replicate, length-replicate,
}
use proj.Prelude.Int.{pos}
use proj.Wire.{Peer}
use proj.Input.{create_userbuf}
use proj.Responser.{Responser}
use proj.Peer.{Process, Received}
use proj.Peer.Round.{Loop, Event, Round, peer_start}
use proj.Peer.Reach.{SoundLoop}
use proj.Scan.Words.{no_byte, one_byte}
use proj.Peer.Start.{master_line, peer_start-SoundLoop}
use proj.Tests.Data.{env, idle, responser, waiting_file}
use proj.Tests.Arrival.{process, datagram}
use proj.Tests.Files.{entries, entries-Short}

-- The responder with its four senders.
abbrev four : Responser
four = record responser { senders = idle ∷ idle ∷ idle ∷ idle ∷ [] }

abbrev running : Process
running = record process { responser = four; last_time = pos 5000000 }

abbrev start : Loop
start = record { process = running; userbuf = create_userbuf; stdin_closed = false }

-- The DATA packet with number 3 arrives, and `GET a b` is typed.
abbrev event : Event
event = record {
  datagram = some datagram;
  typed = some (71 ∷ 69 ∷ 84 ∷ 32 ∷ 97 ∷ 32 ∷ 98 ∷ 10 ∷ []);
}

-- The timer's part changes the clock only.
abbrev ticked : Process
ticked = record running { env = record env { reads = 1 } }

-- The globals as the program starts with them.
abbrev fresh_start : Process
fresh_start = record running { requestor = record waiting_file { in_progress = false } }

-- Every file has the same content; the master chunk file is `F m`.
abbrev contents : List ℕ → Option (List ℕ)
contents name = some (replicate 524288 7)

peer_start-SoundLoop_example :
    (l : Loop) × (peer_start contents fresh_start
        (some entries)
        (some (master_line (70 ∷ []) (109 ∷ []) []))
        true
      ≡ some l)
    × SoundLoop 544 l
    × (l.process.responser.master ≡ some (replicate 524288 7))
peer_start-SoundLoop_example =
    peer_start-SoundLoop contents fresh_start entries (70 ∷ []) (109 ∷ []) [] (replicate 524288 7)
      true refl refl (length-replicate {A = ℕ} 1500 0) entries-Short (one_byte 70 [] refl no_byte)
      (one_byte 109 [] refl no_byte) (λ h. absurd (cc)) (λ h. absurd (cc)) (omega arith)
      (omega arith) refl
