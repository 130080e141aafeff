-- ===== src/Responser/Blocks.antt =====
-- `send_blocks`, the loop of `send_chunk` over the blocks of a chunk.
use proj.Prelude.{ℕ, zero, suc, ◌+◌, ◌≡◌, refl, ◌∙◌, some, List, arith, drop}
use proj.Wire.{Env}
use proj.Sender.{Sender}
use proj.Sender.Load.{Filled, ctl_udp_send-Filled}
use proj.Responser.{fread_block, data_packet, send_blocks}

-- A sender holds the packets before `seq_num`, and as many rounds are left as there are packets
-- from there to 1024. Then the loop of `send_chunk` makes no fault, whatever is left of the file,
-- and the sender holds all 1024 packets of a chunk, for the same peer.
pub send_blocks-Filled :
    (rounds seq_num : ℕ) (rest buf : List ℕ) (s : Sender) (e : Env)
    → Filled 528 seq_num s
    → seq_num + rounds ≡ 1024
    → (buf' : List ℕ) × (t : Sender) × (e' : Env) × (send_blocks rounds seq_num rest buf s e
        ≡ some (buf', t, e'))
      × Filled 528 1024 t
      × (t.peer ≡ s.peer)
unfolding send_blocks data_packet
send_blocks-Filled zero seq_num rest buf s e f end =
    let all : seq_num ≡ 1024 = omega arith in (buf, s, e, refl, rw (← all) f, refl)
send_blocks-Filled (suc rounds) seq_num rest buf s e f end =
    let buf1 = fread_block rest buf in
    let (t, e1, sent, f1, same) =
      ctl_udp_send-Filled s (data_packet seq_num buf1 e) e f (omega arith) (omega arith) refl
        (omega arith) in
    let (buf2, u, e2, others, f2, same2) =
      send_blocks-Filled rounds (seq_num + 1) (drop 512 rest) buf1 t e1 f1 (omega arith) in
    (buf2, u, e2, rw sent others, f2, same2 ∙ same)
