-- ===== src/Tests/Format.antt =====
-- Hashes, at concrete inputs.
use proj.Prelude.{
  ℕ, ◌*◌, ◌<◌, ◌≡◌, some, List, [], ◌∷◌, arith, length, get_elem?, take, drop, replicate,
}
use proj.Wire.{bt_chunk_size}
use proj.Chunk.{binary2hex, hex2binary, make_chunks, get_numchunks}
use proj.Chunk.Hex.{hex2binary-binary2hex}
use proj.Chunk.Count.{make_chunks_lem}
use proj.Tests.Data.{constant_hash}

hex2binary-binary2hex_example : hex2binary (binary2hex (170 ∷ 9 ∷ [])) (2 * 2) ≡ some (170 ∷ 9 ∷ [])
hex2binary-binary2hex_example = hex2binary-binary2hex (170 ∷ 9 ∷ []) (omega arith)

abbrev bytes : List ℕ
bytes = 170 ∷ 9 ∷ []

-- A file of two chunks, the second not full.
abbrev file : List ℕ
file = replicate 600000 7

make_chunks_lem_example :
    (length (make_chunks constant_hash file) ≡ get_numchunks (length file))
    × ((i : ℕ)
        → i * bt_chunk_size < length file
        → get_elem? (make_chunks constant_hash file) i
          ≡ some (constant_hash (take bt_chunk_size (drop (i * bt_chunk_size) file))))
make_chunks_lem_example = make_chunks_lem constant_hash file
