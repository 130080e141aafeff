-- ===== src/Chunk.antt =====
-- chunk.c, and the part of make_chunks.c that counts: files cut into chunks, and hashes as text.
-- SHA-1 (sha.c) is a parameter: a function from the bytes of a chunk to those of its hash.
pub mod Hex
pub mod Count
pub mod Listing
pub mod Reread
use Prim.Native.Nat.{bit_or}
use proj.Prelude.{
  ℕ, zero, suc, ◌+◌, ◌-◌, ◌*◌, ◌/◌, ◌%◌, Bool, ◌&&◌, ◌||◌, Option, none, some, List, [], ◌∷◌, ltb,
  leb, ◌==◌, if◌then◌else◌, ◌>>=◌, length, take, drop,
}
use proj.Wire.{bt_chunk_size}

-- A digit of `sprintf("%.2x")`: lower case.
abbrev pub hex_digit : ℕ → ℕ
hex_digit n = if ltb n 10 then 48 + n else 87 + n

-- `binary2hex` over the first `len` bytes of `buf`, with the 0 at the end.
unfoldable pub binary2hex : List ℕ → List ℕ
binary2hex [] = 0 ∷ []
binary2hex (x ∷ xs) = hex_digit (x / 16) ∷ hex_digit (x % 16) ∷ binary2hex xs

-- `toupper` in the C locale.
abbrev pub toupper : ℕ → ℕ
toupper c = if leb 97 c && leb c 122 then c - 32 else c

-- `_hex2binary`: a `char` from 128 on is negative, so below '9'.
unfoldable pub hex_value : ℕ → ℕ
hex_value hex =
    let c = toupper hex in
    if leb c 57 || leb 128 c then (c + 256 - 48) % 256 else (c + 256 - 55) % 256

-- The loop of `hex2binary`, with that many rounds left: a round reads two characters, and `none` is
-- a read behind the array.
unfoldable pub hex_pairs : ℕ → List ℕ → Option (List ℕ)
unfolding hex_value
hex_pairs zero hex = some []
hex_pairs (suc n) [] = none
hex_pairs (suc n) (a ∷ []) = none
hex_pairs (suc n) (a ∷ b ∷ hex) =
    hex_pairs n hex >>= λ rest. some (bit_or (hex_value a * 16) (hex_value b) % 256 ∷ rest)

-- `i` goes up by 2 while it is below `len`.
unfoldable pub hex2binary : List ℕ → ℕ → Option (List ℕ)
hex2binary hex len = hex_pairs ((len + 1) / 2) hex

-- The loop of `make_chunks`, with chunks of `size` bytes, over what `fread` has still to deliver.
-- The fuel bounds the rounds.
unfoldable pub chunk_hashes : (List ℕ → List ℕ) → ℕ → ℕ → List ℕ → List (List ℕ)
chunk_hashes shahash size zero rest = []
chunk_hashes shahash size (suc fuel) rest =
    let block = take size rest in
    let more = chunk_hashes shahash size fuel (drop size rest) in
    if ltb 0 (length block) then shahash block ∷ more else []

-- `make_chunks`: the hashes that it stores. Each round but the last consumes a byte.
unfoldable pub make_chunks : (List ℕ → List ℕ) → List ℕ → List (List ℕ)
make_chunks shahash file = chunk_hashes shahash bt_chunk_size (suc (length file)) file

-- `get_numchunks` of a file of that many bytes: the quotient, rounded up. A `double` holds both
-- numbers exactly.
unfoldable pub get_numchunks : ℕ → ℕ
get_numchunks st_size = (st_size + (bt_chunk_size - 1)) / bt_chunk_size
