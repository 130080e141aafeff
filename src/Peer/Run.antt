-- ===== src/Peer/Run.antt =====
-- The states that `peer_run` reaches.
use proj.Prelude.{ℕ, suc, ◌≡◌, some, Option, List}
use proj.Requestor.{ChunkStatus}
use proj.Requestor.Init.{Disk}
use proj.Peer.{Process, Received, check_timer}
use proj.Peer.Round.{Loop, Event, Round, goes_on, peer_round}
use proj.Peer.Sound.{Acceptable}

-- The datagram that arrives in a round, if one does, is acceptable when the timer's part is over.
abbrev pub Arrives : Loop → Event → Type 0
Arrives l event =
    (w : Process) (r : Received)
    → check_timer l.process ≡ some w
    → event.datagram ≡ some r
    → Acceptable w r

module _ (shahash : List ℕ → List ℕ) (fresh : ℕ → ChunkStatus)
    (files : List ℕ → Option (List (ℕ × List ℕ))) (disk : Disk) (start : Loop) where
  -- The states after `n` rounds.
  pub data Reach : ℕ → Loop → Type 0 where
    at_start : Reach 0 start
    one_round :
        (n : ℕ) (l l1 : Loop) (event : Event)
        → Reach n l
        → Arrives l event
        → peer_round shahash fresh files disk l event ≡ some (goes_on l1)
        → Reach (suc n) l1
