-- ===== src/Requestor/Begin.antt =====
-- `init_requestor`: the start of a download.
use proj.Prelude.{ℕ, ◌≤◌, ◌≡◌, true, false, none, some, List, length, get_elem?}
use proj.Prelude.Int.{negsuc, ◌≤ℤ◌}
use proj.Requestor.{ChunkStatus, Requestor}
use proj.Requestor.Init.{Disk}
use proj.Requestor.Invariant.{IsChunk}

-- Memory for a chunk: an array of the right size, and a `last_provider` that is at least -1.
pub record Fresh (c : ChunkStatus) : Type 0 where
  pub blocks : length c.data_buf ≡ 1024
  pub last : negsuc 0 ≤ℤ c.last_provider

-- `fopen` creates an output file of that name, and opens it again.
pub record Writable (disk : Disk) (outputfile : List ℕ) : Type 0 where
  pub creates : disk.creates outputfile ≡ true
  pub reopens : disk.reopens outputfile ≡ true

-- A chunk that nobody provides yet.
pub record Ready (c : ChunkStatus) : Type 0 where
  pub chunk : IsChunk c
  pub provider : c.cur_provider ≡ none
  pub wanted : c.finished ≡ false

-- What the second reading of the file leaves.
pub record Listed (req r : Requestor) : Type 0 where
  pub size : length r.chunks ≡ length req.chunks
  pub ready : (j : ℕ) (c : ChunkStatus) → get_elem? r.chunks j ≡ some c → Ready c
  pub chunk_cnt : r.chunk_cnt ≡ req.chunk_cnt
  pub output : r.output ≡ req.output

-- The texts are not longer than a hash.
abbrev pub Short : List (ℕ × List ℕ) → Type 0
Short entries = (k : ℕ) (x : ℕ × List ℕ) → get_elem? entries k ≡ some x → length x.1 ≤ 40
