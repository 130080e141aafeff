-- ===== src/Responser.antt =====
-- responser.c and responser.h: which chunks this peer has, and the uploads that it serves with the
-- senders. `none` is an access outside an array, or a master file that cannot be opened.
pub mod Blocks
pub mod Content
pub mod Uploads
pub mod Serving
pub mod Start
pub mod Answer
use proj.Prelude.{
  ℕ, zero, suc, ◌+◌, ◌-◌, ◌*◌, Bool, true, false, not, ◌&&◌, Option, none, some, List, [], ◌∷◌,
  ◌++◌, ltb, leb, ◌==◌, if◌then◌else◌, ◌>>=◌, length, get_elem?, set, take, drop, replicate,
}
use proj.Wire.{
  Header, Packet, Env, bt_magic, seek_offset, bt_packet_data_size, header_size, send_packet,
}
use proj.Scan.{scan_word}
use proj.Sender.{Sender, buffer_len, init_sender, ctl_udp_send}
use proj.Requestor.{hash_text_len, hash_packet}
use proj.Requestor.Receive.{strncmp_eq, hash_count}

-- `chunk_data_t`.
pub record ChunkData : Type 0 where
  pub id : ℕ
  pub hash : List ℕ

-- `bt_responser_t`, with the globals that the responser shares: `senders` and `conn_cnt`.
-- `master` is the content of the file that `chunk_file` names, and `buf` the static buffer of
-- `send_chunk`.
pub record Responser : Type 0 where
  pub master : Option (List ℕ)
  pub chunks : List ChunkData
  pub uploading_cnt : ℕ
  pub uploadingto : List Bool
  pub senders : List Sender
  pub conn_cnt : ℕ
  pub buf : List ℕ

abbrev pub bt_max_upload : ℕ
bt_max_upload = 4

-- `init_responser`, from the pairs that `fscanf` reads: a text that is longer than a hash overflows
-- the array that it is read into.
unfoldable pub read_chunks : List (ℕ × List ℕ) → Option (List ChunkData)
read_chunks [] = some []
read_chunks ((id, text) ∷ rest) =
    if ltb hash_text_len (length text)
    then none
    else (read_chunks rest >>= λ chunks. some (record { id = id; hash = text ++ 0 ∷ [] } ∷ chunks))

-- The end of `fscanf(fin, "%s%s", dummy, res->chunk_file)`, from the result of the second directive
-- on: a name of 255 bytes or more overflows `chunk_file`, and without one `chunk_file` stays.
unfoldable pub name_master :
    (List ℕ → Option (List ℕ)) → Responser → Option (List ℕ × List ℕ) → Option Responser
name_master contents res none = some res
name_master contents res (some (name, rest)) =
    if ltb (length name) 255 then some (record res { master = contents name }) else none

-- From the result of the first directive on: 20 bytes or more overflow `dummy`.
unfoldable pub skip_dummy :
    (List ℕ → Option (List ℕ)) → Responser → Option (List ℕ × List ℕ) → Option Responser
unfolding name_master
skip_dummy contents res none = some res
skip_dummy contents res (some (dummy, rest)) =
    let named = name_master contents res (scan_word (length rest) rest) in
    if ltb (length dummy) 20 then named else none

-- `fscanf` of the master chunk file, which is a fault if the file cannot be opened.
unfoldable pub read_master :
    (List ℕ → Option (List ℕ)) → Responser → Option (List ℕ) → Option Responser
unfolding skip_dummy
read_master contents res none = none
read_master contents res (some text) = skip_dummy contents res (scan_word (length text) text)

-- `contents` are the files by their names. Without the chunk list nothing happens.
unfoldable pub init_responser :
    (List ℕ → Option (List ℕ))
    → Responser
    → Option (List (ℕ × List ℕ))
    → Option (List ℕ)
    → Option Responser
unfolding read_chunks read_master
init_responser contents res none chunk_file = some res
init_responser contents res (some entries) chunk_file = read_chunks entries >>= λ chunks.
    read_master contents (record res { chunks = chunks }) chunk_file >>= λ res1.
    some (record res1 { uploading_cnt = 0; uploadingto = replicate 1024 false })

-- The loop of `responser_connection_closed`: the first busy sender to that peer becomes idle.
unfoldable pub stop_sender : List Sender → ℕ → List Sender
stop_sender [] peer = []
stop_sender (s ∷ ss) peer =
    if not s.is_idle && s.peer == peer
    then record s { is_idle = true } ∷ ss
    else s ∷ stop_sender ss peer

unfoldable pub responser_connection_closed : Responser → ℕ → Option Responser
unfolding stop_sender
responser_connection_closed res peer = get_elem? res.uploadingto peer >>= λ busy.
    if busy
    then some (record res {
      uploadingto = set res.uploadingto peer false;
      uploading_cnt = res.uploading_cnt - 1;
      senders = stop_sender res.senders peer;
    })
    else some res

-- `send_ihave`.
unfoldable pub send_ihave : ℕ → List ℕ → Env → Option Env
send_ihave peer hash e = send_packet peer (hash_packet 1 hash e) e >>= λ (packet, e1). some e1

-- `find_sender`: the first idle sender is initialised with the next connection number.
unfoldable pub find_sender : List Sender → ℕ → ℕ → Env → Option (ℕ × List Sender × Env)
find_sender [] i id e = none
find_sender (s ∷ ss) i id e =
    let rest = find_sender ss (i + 1) id e in
    let (s1, e1) = init_sender s id e in
    if s.is_idle then some (i, s1 ∷ ss, e1) else rest >>= λ (k, ss1, e2). some (k, s ∷ ss1, e2)

-- `fread` of one block: what the file still has goes over the old content of the buffer.
unfoldable pub fread_block : List ℕ → List ℕ → List ℕ
fread_block rest buf = let got = take bt_packet_data_size rest in got ++ drop (length got) buf

-- A DATA packet; `ack_num` is left as it is in fresh memory.
unfoldable pub data_packet : ℕ → List ℕ → Env → Packet
data_packet seq_num buf e = record {
  header = record {
    magicnum = bt_magic;
    version = 1;
    packet_type = 3;
    header_len = header_size;
    packet_len = header_size + bt_packet_data_size;
    seq_num = seq_num;
    ack_num = e.stray 0;
  };
  payload = take bt_packet_data_size buf;
}

-- The loop of `send_chunk`: packets `seq_num` on, `rounds` of them, from the rest of the file.
unfoldable pub send_blocks : ℕ → ℕ → List ℕ → List ℕ → Sender → Env → Option (List ℕ × Sender × Env)
send_blocks zero seq_num rest buf s e = some (buf, s, e)
send_blocks (suc rounds) seq_num rest buf s e =
    let buf1 = fread_block rest buf in
    ctl_udp_send s (some (data_packet seq_num buf1 e)) e >>= λ (ok, s1, e1).
    send_blocks rounds (seq_num + 1) (drop bt_packet_data_size rest) buf1 s1 e1

-- `send_chunk`; no caller looks at the result, so it is not kept.
unfoldable pub send_chunk : Responser → ℕ → ℕ → Env → Option (Responser × Env)
send_chunk res peer chunk_id e = get_elem? res.uploadingto peer >>= λ busy.
    if busy
    then some (res, e)
    else if leb e.max_conn res.uploading_cnt
    then some (res, e)
    else elim (find_sender res.senders 0 (res.conn_cnt + 1) e) [
      | none ↦ some (res, e)
      | some (k, senders, e1) ↦ get_elem? senders k >>= λ s. res.master >>= λ master.
          send_blocks buffer_len 0 (drop (seek_offset chunk_id) master) res.buf
            (record s { peer = peer }) e1
          >>= λ (buf, s1, e2). some (
            record res {
              buf = buf;
              conn_cnt = res.conn_cnt + 1;
              senders = set senders k s1;
              uploadingto = set res.uploadingto peer true;
              uploading_cnt = res.uploading_cnt + 1;
            },
            e2,
          )
    ]

-- WHOHAS: the loop over the chunks for one hash of the packet.
unfoldable pub answer_whohas : List ChunkData → List ℕ → ℕ → Env → Option Env
answer_whohas [] hash peer e = some e
answer_whohas (c ∷ cs) hash peer e = strncmp_eq hash_text_len hash c.hash >>= λ same.
    (if same then send_ihave peer hash e else some e) >>= λ e1. answer_whohas cs hash peer e1

unfoldable pub answer_all : ℕ → List ChunkData → List ℕ → ℕ → Env → Option Env
unfolding answer_whohas
answer_all zero chunks hashes peer e = some e
answer_all (suc rounds) chunks hashes peer e = answer_whohas chunks hashes peer e >>= λ e1.
    answer_all rounds chunks (drop hash_text_len hashes) peer e1

-- GET: the first chunk with that hash.
unfoldable pub find_chunk : List ChunkData → List ℕ → Option (Option ℕ)
find_chunk [] hash = some none
find_chunk (c ∷ cs) hash = strncmp_eq hash_text_len hash c.hash >>= λ same.
    let rest = find_chunk cs hash in if same then some (some c.id) else rest

unfoldable pub responser_packet : Responser → ℕ → Packet → Env → Option (Responser × Env)
responser_packet res peer packet e =
    if packet.header.packet_type == 0
    then (answer_all (hash_count packet.header) res.chunks packet.payload peer e >>= λ e1.
        some (res, e1))
    else if packet.header.packet_type == 2
    then (find_chunk res.chunks packet.payload >>= λ found. elim found [
      | none ↦ some (res, e)
      | some id ↦ send_chunk res peer id e
    ])
    else some (res, e)
