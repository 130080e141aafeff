-- ===== src/Requestor.antt =====
-- requestor.c and requestor.h: the download of a file, chunk by chunk, from the peers that have them.
-- A function that updates `*req` takes the requestor and the environment and returns both; `none` is
-- an access outside an array, or to the chunks after `finish_file` has freed them. The value -1 of
-- `downloading[p]` and of `cur_provider` is the `none` of an option. SHA-1 is a parameter.
pub mod Receive
pub mod Init
pub mod Provider
pub mod Progress
pub mod Invariant
pub mod Requests
pub mod Repeat
pub mod Finish
pub mod Overflow
pub mod Data
pub mod Transfer
pub mod Delivery
pub mod Expire
pub mod Distinct
pub mod Offer
pub mod Begin
use proj.Prelude.{
  ℕ, zero, suc, ◌+◌, ◌-◌, ◌*◌, ◌/◌, ◌%◌, Bool, true, false, not, ◌&&◌, Option, none, some, List, [],
  ◌∷◌, ltb, leb, ◌==◌, if◌then◌else◌, ◌>>=◌, is_none, length, get_elem?, set, take, drop, replicate,
}
use proj.Prelude.Int.{ℤ, pos, negsuc, ◌+ℤ◌}
use proj.Wire.{
  Header, Packet, Peer, Env, bt_magic, bt_chunk_size, bt_packet_data_size, header_size, read_bytes,
  send_packet,
}

-- `chunk_status_t`. `data_buf` is kept as its blocks of 512 bytes, the size of every write to it, and
-- `providers` as its first `provider_cnt` entries.
pub record ChunkStatus : Type 0 where
  pub cur_ack : ℕ
  pub last_provider : ℤ
  pub last_packet : ℕ
  pub data_buf : List (List ℕ)
  pub left : ℕ
  pub recved : List Bool
  pub providers : List ℕ
  pub cur_provider : Option ℕ
  pub finished : Bool
  pub hash : List ℕ
  pub id : ℕ

-- `bt_requestor_t`. `output` are the writes to the output file since `init_requestor` emptied it,
-- offset and bytes, newest first, and `reopens` says whether `fopen(req->outputfile, "r+b")` opens
-- that file. `chunkfile`, which nothing uses, is dropped.
pub record Requestor : Type 0 where
  pub in_progress : Bool
  pub downloading : List (Option ℕ)
  pub outputfile : List ℕ
  pub reopens : Bool
  pub output : List (ℕ × List ℕ)
  pub chunk_cnt : ℕ
  pub chunks : List ChunkStatus
  pub left : ℤ

abbrev pub packets_per_chunk : ℕ
packets_per_chunk = bt_chunk_size / bt_packet_data_size

abbrev pub bt_data_timeout : ℕ
bt_data_timeout = 5

abbrev pub bt_max_peers : ℕ
bt_max_peers = 1024

abbrev pub hash_text_len : ℕ
hash_text_len = 40

-- `req->chunks[i] = c`.
abbrev pub put_chunk : Requestor → ℕ → ChunkStatus → Requestor
put_chunk req i c = record req { chunks = set req.chunks i c }

-- The packet that asks for a hash; `seq_num` and `ack_num` are left as they are in fresh memory.
unfoldable pub hash_packet : ℕ → List ℕ → Env → Packet
hash_packet packet_type hash e = record {
  header = record {
    magicnum = bt_magic;
    version = 1;
    packet_type = packet_type;
    header_len = header_size;
    packet_len = hash_text_len;
    seq_num = e.stray 0;
    ack_num = e.stray 1;
  };
  payload = take hash_text_len hash;
}

-- The loop of `send_whohas` over the peers: the length is set anew for each of them.
unfoldable pub flood : List Peer → Packet → Env → Option Env
flood [] packet e = some e
flood (p ∷ ps) packet e =
    let packet1 = record packet {
      header = record (packet.header) { packet_len = hash_text_len };
    } in
    send_packet p.id packet1 e >>= λ (packet2, e1). flood ps packet2 e1

unfoldable pub send_whohas : Requestor → ℕ → Env → Option Env
send_whohas req chunk_id e =
    get_elem? req.chunks chunk_id >>= λ c. flood e.peers (hash_packet 0 c.hash e) e

-- `(i + 1) % n` for n > 0: the remainder of C has the sign of `i + 1`, and a negative one leads
-- outside the array.
unfoldable pub next_index : ℤ → ℕ → Option ℕ
next_index (pos k) n = some ((k + 1) % n)
next_index (negsuc zero) n = some 0
next_index (negsuc (suc k)) n = if suc k % n == 0 then some 0 else none

-- The result of `find_next_provider`: a provider, -2 and -1.
pub data Choice : Type 0 where
  chosen : ℕ → Choice
  all_busy no_provider : Choice

-- The loop of `find_next_provider`, with `rounds` rounds left: index and peer of the first provider
-- from `i` on, round the array, from whom nothing is being downloaded.
unfoldable pub scan_providers : ℕ → ℕ → List ℕ → List (Option ℕ) → Option (Option (ℕ × ℕ))
scan_providers zero i providers downloading = some none
scan_providers (suc rounds) i providers downloading = get_elem? providers i >>= λ p.
    get_elem? downloading p >>= λ current.
    let rest = scan_providers rounds ((i + 1) % length providers) providers downloading in
    elim current [ none ↦ some (some (i, p)) | some other ↦ rest ]

unfoldable pub find_next_provider : Requestor → ℕ → Option (Choice × Requestor)
find_next_provider req chunk_id = get_elem? req.chunks chunk_id >>= λ c.
    if length c.providers == 0
    then some (no_provider, req)
    else (next_index c.last_provider (length c.providers) >>= λ i.
        scan_providers (length c.providers) i c.providers req.downloading >>= λ r. some (elim r [
          | none ↦ (all_busy, req)
          | some (k, p) ↦ (chosen p, put_chunk req chunk_id (record c { last_provider = pos k }))
        ]))

-- What a GET resets in the status of its chunk.
abbrev pub asked : ChunkStatus → ℕ → ChunkStatus
asked c provider = record c {
  cur_provider = some provider;
  left = packets_per_chunk;
  last_packet = bt_data_timeout;
  recved = replicate packets_per_chunk false;
  cur_ack = 0;
}

-- No caller looks at the result, so it is not kept.
unfoldable pub send_get : Requestor → ℕ → ℕ → Env → Option (Requestor × Env)
send_get req provider chunk_id e = get_elem? req.downloading provider >>= λ current. elim current [
  | some other ↦ some (req, e)
  | none ↦ get_elem? req.chunks chunk_id >>= λ c.
      let req1 = record (put_chunk req chunk_id (asked c provider)) {
        downloading = set req.downloading provider (some chunk_id);
      } in
      send_packet provider (hash_packet 2 c.hash e) e >>= λ (packet, e1). some (req1, e1)
]

-- The result of `request_next_chunk`: 1, -1 and 0.
pub data Next : Type 0 where
  requested flooded nothing : Next

-- The body of the loop of `request_next_chunk` for a chunk that waits, once the provider is chosen;
-- `later` is the rest of the loop.
unfoldable pub serve :
    ℕ → Choice → Requestor → Env → Option (Next × Requestor × Env) → Option (Next × Requestor × Env)
serve i (chosen p) req e later = send_get req p i e >>= λ (req2, e2). some (requested, req2, e2)
serve i no_provider req e later = send_whohas req i e >>= λ e2. some (flooded, req, e2)
serve i all_busy req e later = later

-- The loop of `request_next_chunk`, with `rounds` rounds left.
unfoldable pub request_from : ℕ → ℕ → Requestor → Env → Option (Next × Requestor × Env)
request_from zero i req e = some (nothing, req, e)
request_from (suc rounds) i req e = get_elem? req.chunks i >>= λ c.
    let rest = λ (r : Requestor). request_from rounds (i + 1) r e in
    if not c.finished && is_none c.cur_provider
    then (find_next_provider req i >>= λ (choice, req1). serve i choice req1 e (rest req1))
    else rest req

unfoldable pub request_next_chunk : Requestor → Env → Option (Next × Requestor × Env)
request_next_chunk req e = request_from req.chunk_cnt 0 req e
