-- ===== src/Requestor/Init.antt =====
-- `init_requestor` of requestor.c, and `process_get` of peer.c, which calls it.
use proj.Prelude.{
  ℕ, zero, suc, ◌+◌, not, ◌||◌, Bool, true, false, Option, none, some, List, [], ◌∷◌, ◌++◌, ltb,
  if◌then◌else◌, ◌>>=◌, length, replicate,
}
use proj.Prelude.Int.{pos}
use proj.Wire.{Env}
use proj.Requestor.{
  ChunkStatus, Requestor, packets_per_chunk, bt_max_peers, hash_text_len, put_chunk, send_whohas,
}

-- What `fopen` does with the name of an output file: whether `init_requestor`, with mode `w`, and
-- `finish_chunk` later, with mode `r+b`, get a file.
pub record Disk : Type 0 where
  pub creates : List ℕ → Bool
  pub reopens : List ℕ → Bool

-- The chunks as `malloc` returns them: fresh memory.
abbrev pub allocated : (ℕ → ChunkStatus) → ℕ → ℕ → List ChunkStatus
allocated fresh zero i = []
allocated fresh (suc n) i = fresh i ∷ allocated fresh n (i + 1)

-- A chunk that was read from the file. `last_provider` is left as it is in fresh memory, and so are
-- `last_packet`, `cur_ack` and the data.
abbrev pub listed : ChunkStatus → ℕ → List ℕ → ChunkStatus
listed c id text = record c {
  id = id;
  hash = text ++ 0 ∷ [];
  recved = replicate packets_per_chunk false;
  providers = [];
  left = packets_per_chunk;
  cur_provider = none;
  finished = false;
}

-- The second reading of the file, which starts at chunk `i`. A text that is longer than a hash
-- overflows the array that `fscanf` writes to.
unfoldable pub list_from :
    (ℕ → ChunkStatus) → List (ℕ × List ℕ) → ℕ → Requestor → Env → Option (Requestor × Env)
list_from fresh [] i req e = some (req, e)
list_from fresh ((id, text) ∷ rest) i req e =
    if ltb hash_text_len (length text)
    then none
    else (let req1 = put_chunk req i (listed (fresh i) id text) in
        send_whohas req1 i e >>= λ e1. list_from fresh rest (i + 1) req1 e1)

-- `entries` are the pairs that `fscanf` reads from the chunk file, `none` if it cannot be opened.
-- The output file is emptied first; if `fopen` cannot create it, the null pointer is given to
-- `fclose`, a fault. So is a name that `strcpy` writes behind the end of `req->outputfile`.
unfoldable pub init_requestor :
    (ℕ → ChunkStatus)
    → Disk
    → Requestor
    → Option (List (ℕ × List ℕ))
    → List ℕ
    → Env
    → Option (Requestor × Env)
unfolding list_from
init_requestor fresh disk req none outputfile e =
    if not (disk.creates outputfile) then none else some (record req { output = [] }, e)
init_requestor fresh disk req (some entries) outputfile e =
    let n = length entries in
    let begun =
      list_from fresh entries 0
        (record req { output = []; chunks = allocated fresh n 0; chunk_cnt = n }) e
      >>= λ (req1, e1). some (
        record req1 {
          outputfile = outputfile;
          reopens = disk.reopens outputfile;
          left = pos n;
          in_progress = true;
          downloading = replicate bt_max_peers none;
        },
        e1,
      ) in
    if not (disk.creates outputfile) || ltb 254 (length outputfile) then none else begun

-- `process_get`: a download in progress is not disturbed.
unfoldable pub process_get :
    (ℕ → ChunkStatus)
    → Disk
    → Requestor
    → Option (List (ℕ × List ℕ))
    → List ℕ
    → Env
    → Option (Requestor × Env)
unfolding init_requestor
process_get fresh disk req entries outputfile e =
    if req.in_progress then some (req, e) else init_requestor fresh disk req entries outputfile e
