-- ===== src/Tests/Data.antt =====
-- The concrete data of the tests.
use proj.Prelude.{
  ℕ, zero, suc, ◌+◌, ◌<◌, ◌≡◌, refl, ap, sym, ◌∙◌, true, false, Option, none, some, List, [], ◌∷◌,
  ◌++◌, arith, length, get_elem?, set, replicate, length-replicate, get_elem?-replicate,
  lt_of_get_elem?, some-eq, subst, ◌≢◌,
}
use proj.Prelude.Int.{pos, negsuc}
use proj.Wire.{Header, Packet, Peer, Env}
use proj.Sender.{Slot, Sender, slow_start}
use proj.Sender.Total.{Busy}
use proj.Requestor.{ChunkStatus, Requestor, put_chunk, asked}
use proj.Requestor.Receive.{contains}
use proj.Requestor.Distinct.{distinct}
use proj.Requestor.Progress.{Marks, missing-replicate}
use proj.Requestor.Invariant.{IsChunk, Valid, Valid-assign}
use proj.Responser.{Responser}

abbrev pub peer1 : Peer
peer1 = record { id = 1; sin_addr = 2130706433; sin_port = 4001 }

-- The clock is at 5 seconds after the start.
abbrev pub env : Env
env = record {
  peers = peer1 ∷ [];
  max_conn = 2;
  gettimeofday = λ k. (105, 0);
  stray = λ n. 165;
  start_time = pos 100000000;
  reads = 0;
  log_open = true;
  log = [];
  sent = [];
}

abbrev pub data_header : ℕ → Header
data_header n = record {
  magicnum = 15441;
  version = 1;
  packet_type = 3;
  header_len = 16;
  packet_len = 528;
  seq_num = n;
  ack_num = 0;
}

abbrev pub block : ℕ → Packet
block n = record { header = data_header n; payload = replicate 512 7 }

abbrev pub slot : ℕ → Slot
slot n = record { packet = some (block n); ack = 0; sent_ts = pos 4000000; resend = 0 }

-- The slots of the packets from `i` on.
abbrev slots : ℕ → ℕ → List Slot
slots zero i = []
slots (suc n) i = slot i ∷ slots n (i + 1)

length-slots : (n i : ℕ) → length (slots n i) ≡ n
length-slots zero i = refl
length-slots (suc n) i = ap suc (length-slots n (i + 1))

get_elem?-slots : (n i j : ℕ) → j < n → get_elem? (slots n i) j ≡ some (slot (i + j))
get_elem?-slots zero i j h = absurd (omega arith)
get_elem?-slots (suc n) i zero h =
    let e : i + 0 ≡ i = omega arith in ap (λ m. some (slot m)) (sym e)
get_elem?-slots (suc n) i (suc j) h =
    let e : i + 1 + j ≡ i + suc j = omega arith in
    get_elem?-slots n (i + 1) j (omega arith) ∙ ap (λ m. some (slot m)) e

-- An upload to peer 1: all packets are in the buffer, no ACK has come.
abbrev pub uploading : Sender
uploading = record {
  is_idle = false;
  id = 1;
  peer = 1;
  rtt = pos 0;
  last_tick = pos 0;
  window_state = slow_start;
  window_ssthresh = 64;
  window_size = 1;
  last_window_update_clock = pos 0;
  last_ack_num = 0;
  last_ack_cnt = 0;
  head = 0;
  tail = 1024;
  pkt_buf = slots 1024 0;
}

pub uploading-Busy : Busy 528 uploading
uploading-Busy = record {
  window = record {
    size = length-slots 1024 0;
    ordered = omega arith;
    fits = omega arith;
    window_pos = omega arith;
    threshold = omega arith;
    rtt_nonneg = omega arith;
    loaded = λ j a b.
        let e : 0 + j ≡ j = omega arith in
        (
          slot j,
          block j,
          get_elem?-slots 1024 0 j b ∙ ap (λ m. some (slot m)) e,
          refl,
          refl,
          ground arith,
        );
  };
  running = refl;
  full = refl;
  acked = refl;
  unfinished = omega arith;
  repeats = omega arith;
}

abbrev pub idle : Sender
idle = record uploading { is_idle = true; tail = 0; pkt_buf = [] }

-- A responder with two idle senders.
abbrev pub responser : Responser
responser = record {
  master = some (replicate 524288 7);
  chunks = [];
  uploading_cnt = 0;
  uploadingto = replicate 1024 false;
  senders = idle ∷ idle ∷ [];
  conn_cnt = 0;
  buf = [];
}

-- A chunk that peer 1 has, and that waits for a provider.
abbrev pub waiting_chunk : ChunkStatus
waiting_chunk = record {
  cur_ack = 0;
  last_provider = negsuc 0;
  last_packet = 0;
  data_buf = replicate 1024 [];
  left = 1024;
  recved = replicate 1024 false;
  providers = 1 ∷ [];
  cur_provider = none;
  finished = false;
  hash = replicate 40 97 ++ 0 ∷ [];
  id = 0;
}

abbrev pub waiting_file : Requestor
waiting_file = record {
  in_progress = true;
  downloading = replicate 1024 none;
  outputfile = 98 ∷ [];
  reopens = true;
  output = [];
  chunk_cnt = 1;
  chunks = waiting_chunk ∷ [];
  left = pos 1;
}

pub waiting_chunk-Marks : Marks waiting_chunk
waiting_chunk-Marks = record {
  marks = length-replicate 1024 false;
  blocks = length-replicate {A = List ℕ} 1024 [];
  count = sym (missing-replicate 1024);
}

provides_once : distinct waiting_chunk.providers ≡ true
unfolding distinct contains
provides_once = refl

pub provides : (k p : ℕ) → get_elem? waiting_chunk.providers k ≡ some p → p < 1024
provides zero p h = ground arith
provides (suc k) p h = cc

waiting_chunk-IsChunk : IsChunk waiting_chunk
waiting_chunk-IsChunk = record {
  known = provides;
  distinct = provides_once;
  last = omega arith;
  marks = waiting_chunk-Marks;
  acked = λ p h. cc;
  text = (replicate 40 97, refl);
  idle = λ h. refl;
}

-- Nobody downloads anything.
no_download : (p i : ℕ) → get_elem? waiting_file.downloading p ≡ some (some i) → p ≢ p
no_download p i h =
    let n : p < 1024 = omega (
      arith,
      lt_of_get_elem? waiting_file.downloading p (some i) h,
      length-replicate {A = Option ℕ} 1024 none,
    ) in
    absurd (cc (h, get_elem?-replicate {A = Option ℕ} 1024 p none n))

each : (i : ℕ) (c : ChunkStatus) → get_elem? waiting_file.chunks i ≡ some c → c ≡ waiting_chunk
each zero c h = sym (some-eq waiting_chunk c h)
each (suc i) c h = absurd (cc)

pub waiting_file-Valid : Valid waiting_file
waiting_file-Valid = record {
  reopens = refl;
  count = refl;
  peers = length-replicate {A = Option ℕ} 1024 none;
  each = λ i c h. subst IsChunk (sym (each i c h)) waiting_chunk-IsChunk;
  by_peer = λ p i h. absurd (no_download p i h refl);
  by_chunk = λ i p c h who. absurd (cc (ap (λ (x : ChunkStatus). x.cur_provider) (each i c h)));
}

-- The file while peer 1 provides the chunk.
abbrev pub asked_chunk : ChunkStatus
asked_chunk = asked waiting_chunk 1

abbrev pub asked_file : Requestor
asked_file = record (put_chunk waiting_file 0 asked_chunk) {
  downloading = set waiting_file.downloading 1 (some 0);
}

pub asked_file-Valid : Valid asked_file
asked_file-Valid =
    Valid-assign waiting_file 0 1 waiting_chunk asked_chunk waiting_file-Valid refl refl refl
      (record {
        known = provides;
        distinct = provides_once;
        last = omega arith;
        marks = record {
          marks = length-replicate 1024 false;
          blocks = length-replicate {A = List ℕ} 1024 [];
          count = sym (missing-replicate 1024);
        };
        acked = λ p h j a. absurd (omega arith);
        text = (replicate 40 97, refl);
        idle = λ h. cc;
      })
      refl

-- A hash function for the tests.
abbrev pub constant_hash : List ℕ → List ℕ
constant_hash xs = replicate 20 170
