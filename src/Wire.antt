-- ===== src/Wire.antt =====
-- The packets of peer.h, and what peer.c does for the other parts: the clock (`my_get_time`), the
-- list of peers (`bt_peer_info` of bt_parse.c) and the transmission of a packet (`send_packet`).
pub mod Send
use proj.Prelude.{
  ℕ, zero, suc, ◌+◌, ◌-◌, ◌*◌, ◌%◌, ◌^◌, Bool, Option, none, some, List, [], ◌∷◌, ltb, ◌==◌,
  if◌then◌else◌,
}
use proj.Prelude.Int.{ℤ, pos, quot, ◌-ℤ◌}

-- `header_t`. A `short` or a `u_int` is kept as its bit pattern.
pub record Header : Type 0 where
  pub magicnum : ℕ
  pub version : ℕ
  pub packet_type : ℕ
  pub header_len : ℕ
  pub packet_len : ℕ
  pub seq_num : ℕ
  pub ack_num : ℕ

-- `data_packet_t`, with the bytes that its pointer leads to.
pub record Packet : Type 0 where
  pub header : Header
  pub payload : List ℕ

-- `bt_peer_t`, without the link: the list of peers is a list.
pub record Peer : Type 0 where
  pub id : ℕ
  pub sin_addr : ℕ
  pub sin_port : ℕ

-- What `send_packet` hands to `spiffy_sendto`.
pub record Datagram : Type 0 where
  pub dest : Peer
  pub header : Header
  pub payload : List ℕ

-- A line of the window size log: sender, milliseconds, window size.
pub record LogLine : Type 0 where
  pub id : ℕ
  pub ms : ℤ
  pub window_size : ℕ

-- What the operations share with the rest of the process and with its environment.
-- `gettimeofday k` is the answer (seconds, microseconds) to the k-th call of it, and `stray` are
-- the bytes that lie behind the end of an allocation. `sent` and `log` have the newest entry first.
pub record Env : Type 0 where
  pub peers : List Peer
  pub max_conn : ℕ
  pub gettimeofday : ℕ → ℕ × ℕ
  pub stray : ℕ → ℕ
  pub start_time : ℤ
  pub reads : ℕ
  pub log_open : Bool
  pub log : List LogLine
  pub sent : List Datagram

abbrev pub bt_max_pkt_size : ℕ
bt_max_pkt_size = 1500

abbrev pub bt_packet_data_size : ℕ
bt_packet_data_size = 512

abbrev pub bt_chunk_size : ℕ
bt_chunk_size = 512 * 1024

-- Where a file stands after `fseek(f, chunk_id * BT_CHUNK_SIZE, SEEK_SET)` right behind `fopen`.
-- The product is an `int`, which is taken to wrap around, and `fseek` refuses a negative offset, so
-- that the file stays at its begin. `chunk_id` is the bit pattern of an `int`.
unfoldable pub seek_offset : ℕ → ℕ
seek_offset chunk_id =
    let offset = chunk_id * bt_chunk_size % 2 ^ 32 in if ltb offset (2 ^ 31) then offset else 0

abbrev pub bt_magic : ℕ
bt_magic = 15441

abbrev pub ticks_per_milisecond : ℕ
ticks_per_milisecond = 1000

-- `sizeof(header_t)`: four bytes, two shorts and two words, without padding.
abbrev pub header_size : ℕ
header_size = 16

-- `sec * 1000000 + usec - start_time`, and the environment after the call.
unfoldable pub my_get_time : Env → ℤ × Env
my_get_time e =
    let (sec, usec) = e.gettimeofday e.reads in
    (pos (sec * 1000000 + usec) -ℤ e.start_time, record e { reads = e.reads + 1 })

unfoldable pub init_my_timer : Env → Env
unfolding my_get_time
init_my_timer e =
    let (now, e1) = my_get_time (record e { start_time = pos 0 }) in record e1 { start_time = now }

-- `fprintf(window_size_log, …)`, which is skipped while the log is not open.
unfoldable pub log_window : ℕ → ℤ → ℕ → Env → Env
log_window id now size e =
    if e.log_open
    then record e {
      log = record { id = id; ms = quot now ticks_per_milisecond; window_size = size } ∷ e.log;
    }
    else e

unfoldable pub bt_peer_info : List Peer → ℕ → Option Peer
bt_peer_info [] peer = none
bt_peer_info (p ∷ ps) peer = if p.id == peer then some p else bt_peer_info ps peer

-- `memcpy` of n bytes out of an allocation: those behind its end are the stray ones.
unfoldable pub read_bytes : (ℕ → ℕ) → ℕ → List ℕ → List ℕ
read_bytes stray zero bytes = []
read_bytes stray (suc n) [] = stray n ∷ read_bytes stray n []
read_bytes stray (suc n) (x ∷ xs) = x ∷ read_bytes stray n xs

-- The packet is the caller's: its `packet_len` is changed through the pointer. A length that does
-- not fit behind the header in `buf` (a negative one is a huge `size_t`) is a fault. No caller
-- looks at the result, so it is not kept.
unfoldable pub send_packet : ℕ → Packet → Env → Option (Packet × Env)
send_packet peer packet e =
    let len = packet.header.packet_len in
    let bytes = read_bytes e.stray len packet.payload in
    let header = record (packet.header) { packet_len = (len + header_size) % 2 ^ 16 } in
    if ltb (bt_max_pkt_size - header_size) len
    then none
    else some (
      record packet { header = header },
      elim (bt_peer_info e.peers peer) [
        | none ↦ e
        | some p ↦ record e {
          sent = record { dest = p; header = header; payload = bytes } ∷ e.sent;
        }
      ],
    )
