-- ===== src/Peer/Reach.antt =====
-- The rounds of `peer_run`, one after the other.
use proj.Prelude.{ℕ}
use proj.Input.Lines.{goes_on}
use proj.Input.Shift.{Room}
use proj.Requestor.{Requestor}
use proj.Peer.Round.{Loop, Round, exits}
use proj.Peer.Sound.{Sound}

-- The process is sound, and the buffer for what is typed has its size and its last 0.
pub record SoundLoop (cap : ℕ) (l : Loop) : Type 0 where
  pub process : Sound cap l.process
  pub userbuf : Room l.userbuf

-- The program ends, or goes on in a sound state.
pub data SoundRound (cap : ℕ) : Round → Type 0 where
  ended : SoundRound cap exits
  next : (l : Loop) → SoundLoop cap l → SoundRound cap (Round.goes_on l)
