-- ===== src/Peer/Round.antt =====
-- The rest of peer.c: what is typed, the start of `peer_run`, and a round of its loop.
use proj.Prelude.{
  ℕ, Bool, true, false, not, ◌&&◌, Option, none, some, List, [], ◌∷◌, ltb, ◌==◌, if◌then◌else◌,
  ◌>>=◌, length,
}
use proj.Prelude.Int.{ℤ, pos, negsuc, eqb_ℤ}
use proj.Wire.{my_get_time, init_my_timer}
use proj.Scan.{scan_word}
use proj.Input.{Iobuf, Reading, too_long, at_end, taken, create_userbuf, process_user_input}
use proj.Sender.{Sender}
use proj.Requestor.{ChunkStatus}
use proj.Requestor.Init.{Disk, process_get}
use proj.Responser.{Responser, init_responser}
use proj.Peer.{Process, Received, process_inbound_udp, check_timer}

-- What a directive that consists of a text makes of the input.
pub data Literal : Type 0 where
  matched : List ℕ → Literal
  mismatch : Literal
  ended : Literal

unfoldable pub scan_literal : List ℕ → List ℕ → Literal
scan_literal [] cs = matched cs
scan_literal (x ∷ xs) [] = ended
scan_literal (x ∷ xs) (c ∷ cs) = let rest = scan_literal xs cs in if x == c then rest else mismatch

-- The last directive of the format: the result of `sscanf`, and the two texts.
abbrev pub scan_outf : List ℕ → Option (List ℕ × List ℕ) → ℤ × (List ℕ × List ℕ)
scan_outf chunkf none = (pos 1, (chunkf, []))
scan_outf chunkf (some (outf, rest)) = (pos 2, (chunkf, outf))

abbrev pub scan_chunkf : Option (List ℕ × List ℕ) → ℤ × (List ℕ × List ℕ)
scan_chunkf none = (negsuc 0, ([], []))
scan_chunkf (some (chunkf, rest)) = scan_outf chunkf (scan_word 120 rest)

-- `sscanf(line, "GET %120s %120s", chunkf, outf)`, which is -1 if the line ends before a word was read.
unfoldable pub scan_get : List ℕ → ℤ × (List ℕ × List ℕ)
unfolding scan_literal
scan_get line = elim (scan_literal (71 ∷ 69 ∷ 84 ∷ []) line) [
  | mismatch ↦ (pos 0, ([], []))
  | ended ↦ (negsuc 0, ([], []))
  | matched rest ↦ scan_chunkf (scan_word 120 rest)
]

-- The fresh memory for the chunks, and the pairs that `fscanf` reads from the file with a name, `none`
-- if it cannot be opened, and what `fopen` does with the names of output files.
module _ (fresh : ℕ → ChunkStatus) (files : List ℕ → Option (List (ℕ × List ℕ))) (disk : Disk) where
  unfoldable pub handle_user_input : Process → List ℕ → Option Process
  unfolding scan_get
  handle_user_input w line =
      let (ret, names) = scan_get line in
      let (chunkf, outf) = names in
      if not (eqb_ℤ ret (pos 0)) && ltb 0 (length outf)
      then (process_get fresh disk w.requestor (files chunkf) outf w.env >>= λ (req, e).
          some (record w { requestor = req; env = e }))
      else some w

-- What `peer_run` keeps between two rounds.
pub record Loop : Type 0 where
  pub process : Process
  pub userbuf : Iobuf
  pub stdin_closed : Bool

-- What `select` finds: a datagram that can be received, and bytes that `read` delivers.
pub record Event : Type 0 where
  pub datagram : Option Received
  pub typed : Option (List ℕ)

pub data Round : Type 0 where
  exits : Round
  goes_on : Loop → Round

-- The end of a round, from the result of `process_user_input` on.
unfoldable pub end_round : Loop → Reading Process → Round
end_round l too_long = exits
end_round l (at_end w) = goes_on (record l { process = w; stdin_closed = true })
end_round l (taken b w) = goes_on (record l { process = w; userbuf = b })

unfoldable pub receive_datagram : (List ℕ → List ℕ) → Process → Option Received → Option Process
receive_datagram shahash w none = some w
receive_datagram shahash w (some r) = process_inbound_udp shahash w r

-- The end of the input is not looked at again once it was reached.
unfoldable pub read_stdin :
    (ℕ → ChunkStatus)
    → (List ℕ → Option (List (ℕ × List ℕ)))
    → Disk
    → Loop
    → Option (List ℕ)
    → Process
    → Option Round
unfolding end_round
read_stdin fresh files disk l none w = some (goes_on (record l { process = w }))
read_stdin fresh files disk l (some bytes) w =
    let reads = process_user_input (handle_user_input fresh files disk) l.userbuf bytes w >>= λ r.
    some (end_round l r) in
    if l.stdin_closed then some (goes_on (record l { process = w })) else reads

-- A round of `while (1)`.
unfoldable pub peer_round :
    (List ℕ → List ℕ)
    → (ℕ → ChunkStatus)
    → (List ℕ → Option (List (ℕ × List ℕ)))
    → Disk
    → Loop
    → Event
    → Option Round
unfolding receive_datagram read_stdin
peer_round shahash fresh files disk l event = check_timer l.process >>= λ w1.
    receive_datagram shahash w1 event.datagram >>= λ w2.
    read_stdin fresh files disk l event.typed w2

-- `senders[i].is_idle = 1` for each of them.
unfoldable pub all_idle : List Sender → List Sender
all_idle [] = []
all_idle (s ∷ ss) = record s { is_idle = true } ∷ all_idle ss

-- The state before the first round: the socket is open.
unfoldable pub first_loop : Process → Responser → Bool → Loop
unfolding all_idle
first_loop w res log_open =
    let (now, e) = my_get_time (record (init_my_timer w.env) { log_open = log_open }) in
    record {
      process = record w {
        responser = record res { senders = all_idle res.senders };
        last_time = now;
        env = e;
      };
      userbuf = create_userbuf;
      stdin_closed = false;
    }

-- `peer_run` up to its loop; `w` has the globals as the program starts with them, and `log_open` says
-- whether the window size log can be opened.
unfoldable pub peer_start :
    (List ℕ → Option (List ℕ))
    → Process
    → Option (List (ℕ × List ℕ))
    → Option (List ℕ)
    → Bool
    → Option Loop
unfolding first_loop
peer_start contents w entries chunk_file log_open =
    init_responser contents w.responser entries chunk_file >>= λ res.
    some (first_loop w res log_open)
