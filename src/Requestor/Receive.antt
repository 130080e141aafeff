-- ===== src/Requestor/Receive.antt =====
-- The rest of requestor.c: what the timer and the packets of the peers do to the download.
use proj.Prelude.{
  ℕ, zero, suc, ◌+◌, ◌-◌, ◌/◌, Bool, true, false, not, ◌||◌, Option, none, some, List, [], ◌∷◌,
  ◌++◌, ltb, ◌==◌, if◌then◌else◌, ◌>>=◌, length, get_elem?, set, drop, replicate,
}
use mathlib.Core.List.{flatten}
use proj.Prelude.Int.{pos, negsuc, ◌-ℤ◌, eqb_ℤ, short_value}
use proj.Wire.{Header, Packet, Env, seek_offset, bt_packet_data_size, read_bytes, send_packet}
use proj.Chunk.{binary2hex}
use proj.Requestor.{
  ChunkStatus, Requestor, packets_per_chunk, bt_data_timeout, bt_max_peers, hash_text_len,
  put_chunk, requested, request_next_chunk,
}

-- `strncmp(xs, ys, n) == 0`; `none` is a read behind the end of an array.
unfoldable pub strncmp_eq : ℕ → List ℕ → List ℕ → Option Bool
strncmp_eq zero xs ys = some true
strncmp_eq (suc n) (x ∷ xs) (y ∷ ys) =
    let rest = strncmp_eq n xs ys in
    if x == y then (if x == 0 then some true else rest) else some false
strncmp_eq (suc n) _ _ = none

-- `send_ack`.
unfoldable pub send_ack : ℕ → Packet → Env → Option (Packet × Env)
send_ack peer packet e =
    send_packet peer
      (record packet {
        header = record (packet.header) {
          ack_num = packet.header.seq_num;
          packet_type = 4;
          packet_len = 0;
        };
      })
      e

-- One round of the first loop of `requstor_timeout`.
unfoldable pub expire : Requestor → ℕ → Option Requestor
expire req i = get_elem? req.chunks i >>= λ c.
    if c.finished || not (ltb 0 c.last_packet) then some req else elim c.cur_provider [
      | none ↦ some req
      | some p ↦
          if c.last_packet == 1
          then (get_elem? req.downloading p >>= λ current.
              some (record (put_chunk req i (record c { last_packet = 0; cur_provider = none })) {
                downloading = set req.downloading p none;
              }))
          else some (put_chunk req i (record c { last_packet = c.last_packet - 1 }))
    ]

unfoldable pub expire_from : ℕ → ℕ → Requestor → Option Requestor
expire_from zero i req = some req
expire_from (suc rounds) i req = expire req i >>= λ req1. expire_from rounds (i + 1) req1

-- `while (ret == 1)`: each round asks for one more chunk. The fuel bounds the rounds.
unfoldable pub request_all : ℕ → Requestor → Env → Option (Requestor × Env)
request_all zero req e = none
request_all (suc fuel) req e = request_next_chunk req e >>= λ (ret, req1, e1). elim ret [
  | requested ↦ request_all fuel req1 e1
  | _ ↦ some (req1, e1)
]

unfoldable pub requstor_timeout : Requestor → Env → Option (Requestor × Env)
requstor_timeout req e =
    if req.in_progress
    then (expire_from req.chunk_cnt 0 req >>= λ req1. request_all (suc req1.chunk_cnt) req1 e)
    else some (req, e)

unfoldable pub contains : List ℕ → ℕ → Bool
contains [] peer = false
contains (p ∷ ps) peer = p == peer || contains ps peer

-- One round of the loop of `add_provider`. A peer that does not fit into the array is a fault.
unfoldable pub add_to_chunk : Requestor → ℕ → List ℕ → ℕ → Option Requestor
add_to_chunk req i hash peer = get_elem? req.chunks i >>= λ c.
    strncmp_eq hash_text_len c.hash hash >>= λ same.
    if not same || contains c.providers peer
    then some req
    else if ltb (length c.providers) bt_max_peers
    then some (put_chunk req i (record c { providers = c.providers ++ peer ∷ [] }))
    else none

unfoldable pub add_from : ℕ → ℕ → Requestor → List ℕ → ℕ → Option Requestor
add_from zero i req hash peer = some req
add_from (suc rounds) i req hash peer =
    add_to_chunk req i hash peer >>= λ req1. add_from rounds (i + 1) req1 hash peer

unfoldable pub add_provider : Requestor → List ℕ → ℕ → Env → Option (Requestor × Env)
add_provider req hash peer e = add_from req.chunk_cnt 0 req hash peer >>= λ req1.
    request_next_chunk req1 e >>= λ (ret, req2, e2). some (req2, e2)

-- `finish_file` frees the chunks.
unfoldable pub finish_file : Requestor → Requestor
finish_file req = record req { chunks = []; in_progress = false }

-- What `finish_chunk` does to a chunk with another hash than the one that was asked for, and to one
-- with that hash, once the output file is open.
unfoldable pub reject_chunk : Requestor → ℕ → ChunkStatus → Requestor
reject_chunk req chunk_id c = put_chunk req chunk_id (record c {
  recved = replicate packets_per_chunk false;
  left = packets_per_chunk;
  cur_provider = none;
  finished = false;
})

unfoldable pub accept_chunk : Requestor → ℕ → ChunkStatus → Requestor
accept_chunk req chunk_id c =
    record (put_chunk req chunk_id
      (record c { finished = true; cur_provider = none; last_packet = 0 })) {
        output = (seek_offset chunk_id, flatten c.data_buf) ∷ req.output;
        left = req.left -ℤ pos 1;
      }

-- `finish_chunk` from the result of the comparison on. It is a fault if the output file cannot be
-- opened: the null pointer is given to `fwrite`.
unfoldable pub settle : Requestor → ℕ → ChunkStatus → Bool → Env → Option (Requestor × Env)
settle req chunk_id c false e =
    request_next_chunk (reject_chunk req chunk_id c) e >>= λ (ret, req1, e1). some (req1, e1)
settle req chunk_id c true e =
    let req1 = accept_chunk req chunk_id c in
    if not req.reopens
    then none
    else if eqb_ℤ req1.left (pos 0)
    then some (finish_file req1, e)
    else (request_next_chunk req1 e >>= λ (ret, req2, e2). some (req2, e2))

unfoldable pub finish_chunk : (List ℕ → List ℕ) → Requestor → ℕ → Env → Option (Requestor × Env)
finish_chunk shahash req chunk_id e = get_elem? req.chunks chunk_id >>= λ c.
    c.cur_provider >>= λ provider. get_elem? req.downloading provider >>= λ current.
    strncmp_eq hash_text_len (binary2hex (shahash (flatten c.data_buf))) c.hash >>= λ same.
    settle (record req { downloading = set req.downloading provider none }) chunk_id c same e

-- The loop that moves the cumulative ACK: `rounds` are left up to the number of packets.
unfoldable pub first_missing : ℕ → ℕ → List Bool → Option ℕ
first_missing zero seq_num recved = some seq_num
first_missing (suc rounds) seq_num recved = get_elem? recved seq_num >>= λ got.
    let rest = first_missing rounds (seq_num + 1) recved in if got then rest else some seq_num

-- A DATA packet is stored and marked. A number behind the last packet of a chunk writes outside
-- `recved`, a fault.
unfoldable pub store_data : ChunkStatus → Packet → Env → Option ChunkStatus
store_data c packet e =
    let seq_num = packet.header.seq_num in
    get_elem? c.data_buf seq_num >>= λ old. get_elem? c.recved seq_num >>= λ got.
    let c1 = record c {
      last_packet = bt_data_timeout;
      data_buf = set c.data_buf seq_num (read_bytes e.stray bt_packet_data_size packet.payload);
    } in
    if got
    then some c1
    else some (record c1 { recved = set c1.recved seq_num true; left = c1.left - 1 })

-- The body of `update_data` for a packet that is not older than the cumulative ACK.
unfoldable pub receive :
    (List ℕ → List ℕ) → Requestor → ℕ → ℕ → ChunkStatus → Packet → Env → Option (Requestor × Env)
receive shahash req peer_id chunk_id c packet e = store_data c packet e >>= λ c1.
    first_missing (packets_per_chunk - c1.cur_ack) c1.cur_ack c1.recved >>= λ seq_num.
    send_ack peer_id (record packet { header = record (packet.header) { seq_num = seq_num } }) e
    >>= λ (packet1, e1).
        let req1 = put_chunk req chunk_id (record c1 { cur_ack = seq_num }) in
        if c1.left == 0 then finish_chunk shahash req1 chunk_id e1 else some (req1, e1)

unfoldable pub update_data :
    (List ℕ → List ℕ) → Requestor → ℕ → Packet → Env → Option (Requestor × Env)
update_data shahash req peer_id packet e = get_elem? req.downloading peer_id >>= λ current.
    elim current [
      | none ↦ some (req, e)
      | some chunk_id ↦ get_elem? req.chunks chunk_id >>= λ c.
          if ltb packet.header.seq_num c.cur_ack
          then some (req, e)
          else receive shahash req peer_id chunk_id c packet e
    ]

-- How often `for(i=0; i<packet_len - header_len; i+=40)` runs.
abbrev pub hash_count : Header → ℕ
hash_count h = elim (short_value h.packet_len -ℤ short_value h.header_len) [
  | pos n ↦ (n + (hash_text_len - 1)) / hash_text_len
  | negsuc n ↦ 0
]

unfoldable pub add_all : ℕ → Requestor → List ℕ → ℕ → Env → Option (Requestor × Env)
add_all zero req hashes peer e = some (req, e)
add_all (suc rounds) req hashes peer e = add_provider req hashes peer e >>= λ (req1, e1).
    add_all rounds req1 (drop hash_text_len hashes) peer e1

unfoldable pub requestor_packet :
    (List ℕ → List ℕ) → Requestor → ℕ → Packet → Env → Option (Requestor × Env)
requestor_packet shahash req peer_id packet e =
    if not req.in_progress
    then some (req, e)
    else if packet.header.packet_type == 1
    then add_all (hash_count packet.header) req packet.payload peer_id e
    else if packet.header.packet_type == 3
    then update_data shahash req peer_id packet e
    else some (req, e)
