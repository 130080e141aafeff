-- ===== src/Peer.antt =====
-- peer.c: what arrives from the network and from the timer, and who handles it. A `none` is a fault
-- of a handler, or a write behind the end of the receive buffer. The bytes of a header are those of
-- a little-endian machine.
pub mod Headers
pub mod Inbound
pub mod Senders
pub mod Turns
pub mod Round
pub mod Asked
pub mod Sound
pub mod Reach
pub mod Start
pub mod Run
pub mod Typed
pub mod Exchange
use proj.Prelude.{
  ℕ, zero, suc, ◌+◌, ◌-◌, ◌*◌, ◌/◌, ◌%◌, Bool, true, false, not, ◌&&◌, ◌||◌, Option, none, some,
  List, [], ◌∷◌, ◌++◌, ltb, ◌==◌, if◌then◌else◌, ◌>>=◌, length, get_elem?, set, drop,
}
use proj.Prelude.Int.{ℤ, pos, ◌-ℤ◌, ltb_ℤ}
use proj.Wire.{
  Header, Packet, Peer, Env, bt_max_pkt_size, bt_magic, header_size, ticks_per_milisecond,
  my_get_time,
}
use proj.Sender.{Sender}
use proj.Sender.Ack.{ctl_udp_ack}
use proj.Sender.Timeout.{ctl_udp_time_out}
use proj.Requestor.{ChunkStatus, Requestor}
use proj.Requestor.Receive.{requestor_packet, requstor_timeout}
use proj.Requestor.Init.{process_get}
use proj.Responser.{Responser, bt_max_upload, responser_connection_closed, responser_packet}

-- The globals of the process; `buf` is the static buffer of `process_inbound_udp`, and `last_time`
-- the local variable of `peer_run`.
pub record Process : Type 0 where
  pub requestor : Requestor
  pub responser : Responser
  pub buf : List ℕ
  pub last_time : ℤ
  pub env : Env

-- What `spiffy_recvfrom` delivers.
pub record Received : Type 0 where
  pub bytes : List ℕ
  pub sin_addr : ℕ
  pub sin_port : ℕ

abbrev pub short_bytes : ℕ → List ℕ → List ℕ
short_bytes x rest = x % 256 ∷ x / 256 % 256 ∷ rest

abbrev pub word_bytes : ℕ → List ℕ → List ℕ
word_bytes x rest = short_bytes (x % 65536) (short_bytes (x / 65536) rest)

-- The memory of a `header_t`, in front of the rest of a packet.
unfoldable pub header_bytes : Header → List ℕ → List ℕ
header_bytes h rest = short_bytes h.magicnum (
    h.version % 256
    ∷ h.packet_type % 256
    ∷ short_bytes h.header_len
        (short_bytes h.packet_len (word_bytes h.seq_num (word_bytes h.ack_num rest))))

-- `*(data_packet_t *) buf`, with the data pointer behind the header.
unfoldable pub read_packet : List ℕ → Option Packet
read_packet (m0 ∷ m1 ∷ v ∷ t ∷ h0 ∷ h1 ∷ p0 ∷ p1 ∷ s0 ∷ s1 ∷ s2 ∷ s3 ∷ a0 ∷ a1 ∷ a2 ∷ a3 ∷ rest) =
    some (record {
      header = record {
        magicnum = m0 + 256 * m1;
        version = v;
        packet_type = t;
        header_len = h0 + 256 * h1;
        packet_len = p0 + 256 * p1;
        seq_num = s0 + 256 * s1 + 65536 * (s2 + 256 * s3);
        ack_num = a0 + 256 * a1 + 65536 * (a2 + 256 * a3);
      };
      payload = rest;
    })
read_packet _ = none

-- The peer with that address and port.
unfoldable pub find_peer : List Peer → ℕ → ℕ → Option Peer
find_peer [] addr port = none
find_peer (p ∷ ps) addr port =
    if p.sin_addr == addr && p.sin_port == port then some p else find_peer ps addr port

-- `connection_closed(sender->peer)` at the end of a sender's function, which has left `s`.
unfoldable pub finish_sender : Responser → ℕ → Bool → Sender → Option Responser
finish_sender res i closes s =
    let res1 = record res { senders = set res.senders i s } in
    if closes then responser_connection_closed res1 s.peer else some res1

-- The loop over the senders for an ACK, with `rounds` rounds left.
unfoldable pub ack_senders : ℕ → ℕ → Responser → ℕ → ℕ → Env → Option (Responser × Env)
ack_senders zero i res peer ack_num e = some (res, e)
ack_senders (suc rounds) i res peer ack_num e = get_elem? res.senders i >>= λ s.
    let handled = ctl_udp_ack s ack_num e >>= λ (closes, s1, e1).
    finish_sender res i closes s1 >>= λ res1. some (res1, e1) in
    (if not s.is_idle && s.peer == peer then handled else some (res, e)) >>= λ (res2, e2).
    ack_senders rounds (i + 1) res2 peer ack_num e2

-- The dispatch of `process_inbound_udp` on the type of the packet.
unfoldable pub dispatch : (List ℕ → List ℕ) → Process → ℕ → Packet → Option Process
dispatch shahash w peer packet =
    let type' = packet.header.packet_type in
    if type' == 1 || (type' == 3 || type' == 5)
    then (requestor_packet shahash w.requestor peer packet w.env >>= λ (req, e).
        some (record w { requestor = req; env = e }))
    else if type' == 0 || type' == 2
    then (responser_packet w.responser peer packet w.env >>= λ (res, e).
        some (record w { responser = res; env = e }))
    else (ack_senders bt_max_upload 0 w.responser peer packet.header.ack_num w.env >>= λ (res, e).
        some (record w { responser = res; env = e }))

-- The bytes go over the old content of the buffer, and a 0 behind them.
unfoldable pub process_inbound_udp : (List ℕ → List ℕ) → Process → Received → Option Process
unfolding dispatch
process_inbound_udp shahash w r =
    let ret = length r.bytes in
    let buf = set (r.bytes ++ drop ret w.buf) ret 0 in
    let w1 = record w { buf = buf } in
    if ltb ret bt_max_pkt_size
    then (read_packet buf >>= λ packet.
        if packet.header.magicnum == bt_magic
        then elim (find_peer w.env.peers r.sin_addr r.sin_port) [
          | none ↦ some w1
          | some p ↦ dispatch shahash w1 p.id packet
        ]
        else some w1)
    else none

-- The loop over the senders for the timer.
unfoldable pub time_out_senders : ℕ → ℕ → Responser → Env → Option (Responser × Env)
time_out_senders zero i res e = some (res, e)
time_out_senders (suc rounds) i res e = get_elem? res.senders i >>= λ s.
    let handled = ctl_udp_time_out s e >>= λ (closes, s1, e1).
    finish_sender res i closes s1 >>= λ res1. some (res1, e1) in
    (if s.is_idle then some (res, e) else handled) >>= λ (res2, e2).
    time_out_senders rounds (i + 1) res2 e2

-- The timer's part of a round of `peer_run`: at most once a second.
unfoldable pub check_timer : Process → Option Process
check_timer w =
    let (now, e1) = my_get_time w.env in
    if ltb_ℤ (pos (ticks_per_milisecond * 1000)) (now -ℤ w.last_time)
    then (requstor_timeout w.requestor e1 >>= λ (req, e2).
        time_out_senders bt_max_upload 0 w.responser e2 >>= λ (res, e3).
        some (record w { requestor = req; responser = res; last_time = now; env = e3 }))
    else some (record w { env = e1 })
