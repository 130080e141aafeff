-- ===== src/Tests/Download.antt =====
-- A download from peer 1, at concrete inputs.
use proj.Prelude.{
  false, [], ◌∷◌, ◌≢◌, List, ◌++◌, replicate, ℕ, ◌≡◌, refl, Bool, true, none, some, List, [], ◌∷◌,
  arith, length, get_elem?,
}
use proj.Prelude.Int.{◌-ℤ◌, negsuc}
use proj.Wire.{Packet, Env, read_bytes}
use proj.Requestor.{ChunkStatus, Requestor, Choice, find_next_provider, request_next_chunk}
use mathlib.Core.List.{flatten}
use proj.Requestor.Receive.{
  settle, add_provider, requestor_packet, store_data, finish_chunk, request_all, requstor_timeout,
  update_data,
}
use proj.Requestor.Provider.{Chose, find_next_provider_lem, find_next_provider_uninitialised}
use proj.Requestor.Progress.{Marks, Acked, SameChunk, store_data-Marks}
use proj.Requestor.Invariant.{Valid, SameFile}
use proj.Requestor.Repeat.{request_all-total}
use proj.Requestor.Requests.{Requests, request_next_chunk-Requests}
use proj.Requestor.Finish.{hash_matches, Finish, finish_chunk-Finish}
use proj.Requestor.Data.{update_data_overflow}
use proj.Requestor.Offer.{add_provider-Valid, Handled, requestor_packet-Handled}
use proj.Requestor.Overflow.{settle_overflow}
use proj.Requestor.Expire.{requstor_timeout-Valid}
use proj.Tests.Data.{
  data_header, env, block, waiting_chunk, waiting_chunk-Marks, waiting_file, waiting_file-Valid,
  asked_chunk, asked_file, asked_file-Valid, constant_hash, provides,
}

hash_size : (xs : List ℕ) → length (constant_hash xs) ≡ 20
hash_size xs = refl

update_data_overflow_example : update_data constant_hash asked_file 1 (block 1024) env ≡ none
update_data_overflow_example =
    update_data_overflow constant_hash asked_file 1 0 (block 1024) env asked_file-Valid refl
      (omega arith)

finish_chunk-Finish_example :
    (r : Requestor) × (e' : Env) × (matches : Bool) × (finish_chunk constant_hash asked_file 0 env
      ≡ some (r, e'))
    × (hash_matches constant_hash asked_chunk ≡ some matches)
    × Finish asked_file 0 asked_chunk r matches
finish_chunk-Finish_example =
    finish_chunk-Finish constant_hash asked_file 0 1 asked_chunk env hash_size asked_file-Valid refl
      refl

request_next_chunk-Requests_example : Requests waiting_file (request_next_chunk waiting_file env)
request_next_chunk-Requests_example =
    request_next_chunk-Requests waiting_file env waiting_file-Valid

request_all-total_example :
    (r : Requestor) × (e' : Env) × (request_all 2 waiting_file env ≡ some (r, e'))
    × Valid r
    × SameFile waiting_file r
request_all-total_example = request_all-total waiting_file env waiting_file-Valid

requstor_timeout-Valid_example :
    (r : Requestor) × (e' : Env) × (requstor_timeout asked_file env ≡ some (r, e'))
    × Valid r
    × SameFile asked_file r
requstor_timeout-Valid_example = requstor_timeout-Valid asked_file env asked_file-Valid

find_next_provider_lem_example :
    (choice : Choice) × (r : Requestor) × (find_next_provider waiting_file 0 ≡ some (choice, r))
    × Chose waiting_file 0 waiting_chunk choice r
find_next_provider_lem_example =
    find_next_provider_lem waiting_file 0 waiting_chunk refl provides (omega arith)

-- Two providers, and -4 in the field that nobody has set.
abbrev stray_chunk : ChunkStatus
stray_chunk = record waiting_chunk { providers = 1 ∷ 2 ∷ []; last_provider = negsuc 3 }

abbrev stray_file : Requestor
stray_file = record waiting_file { chunks = stray_chunk ∷ [] }

find_next_provider_uninitialised_example : find_next_provider stray_file 0 ≡ none
find_next_provider_uninitialised_example =
    find_next_provider_uninitialised stray_file 0 2 stray_chunk refl refl (omega arith)
      (omega arith)

settle_overflow_example :
    (r : Requestor) × (settle waiting_file 4096 waiting_chunk true env ≡ some (r, env))
    × (r.output ≡ (0, flatten waiting_chunk.data_buf) ∷ waiting_file.output)
    × (r.in_progress ≡ false)
settle_overflow_example =
    settle_overflow waiting_file 4096 waiting_chunk env refl refl (omega arith) (omega arith)

store_data-Marks_example :
    (d : ChunkStatus) × (store_data waiting_chunk (block 3) env ≡ some d)
    × Marks d
    × (Acked waiting_chunk → Acked d)
    × SameChunk waiting_chunk d
    × (get_elem? d.recved 3 ≡ some true)
    × (get_elem? d.data_buf 3 ≡ some (read_bytes env.stray 512 (block 3).payload))
    × (d.last_packet ≡ 5)
    × ((j : ℕ) → 3 ≢ j → get_elem? d.data_buf j ≡ get_elem? waiting_chunk.data_buf j)
    × ((j : ℕ) → 3 ≢ j → get_elem? d.recved j ≡ get_elem? waiting_chunk.recved j)
store_data-Marks_example =
    store_data-Marks waiting_chunk (block 3) env waiting_chunk-Marks (omega arith)

-- Peer 2 offers the chunk that is wanted, and one that nobody wants.
abbrev offer : List ℕ
offer = replicate 40 97 ++ replicate 40 98

add_provider-Valid_example :
    (r : Requestor) × (e' : Env) × (add_provider waiting_file offer 2 env ≡ some (r, e'))
    × Valid r
    × SameFile waiting_file r
add_provider-Valid_example =
    add_provider-Valid waiting_file offer 2 env waiting_file-Valid (omega arith) (omega arith)

abbrev ihave : Packet
ihave = record {
  header = record (data_header 0) { packet_type = 1; packet_len = 96 };
  payload = offer;
}

requestor_packet-Handled_example : Handled (requestor_packet constant_hash waiting_file 2 ihave env)
unfolding ◌-ℤ◌
requestor_packet-Handled_example =
    requestor_packet-Handled constant_hash waiting_file 2 ihave env hash_size waiting_file-Valid
      (omega arith) (λ h. omega arith) (λ h. omega arith)

-- A file of two chunks, read from a chunk file.
abbrev entries : List (ℕ × List ℕ)
entries = (0, replicate 40 97) ∷ (1, replicate 40 98) ∷ []

abbrev memory : ℕ → ChunkStatus
memory j = waiting_chunk
