-- ===== src/Tests/Typing.antt =====
-- What is typed, and the list that make_chunks prints, at concrete inputs.
use proj.Prelude.{
  ℕ, zero, suc, ◌^◌, ◌≤◌, ◌≡◌, refl, Option, some, List, [], ◌∷◌, ◌++◌, arith, replicate, ◌>>=◌,
  false, length-replicate,
}
use mathlib.Core.List.{flatten}
use proj.Scan.Words.{no_byte, one_byte}
use proj.Input.{Reading, taken, create_userbuf, process_user_input}
use proj.Input.Lines.{Left, create_userbuf-Room, process_user_input-Left}
use proj.Input.Split.{split, IsText}
use proj.Input.Session.{each_line, reads_lines}
use proj.Input.Pieces.{Pieces, no_piece, one_piece, read_pieces, read_pieces-lines}
use proj.Requestor.Begin.{Short}
use proj.Requestor.Init.{process_get}
use proj.Chunk.{make_chunks, get_numchunks}
use proj.Chunk.Hex.{IsBytes}
use proj.Chunk.Listing.{printed, make_chunks_main, read_entries}
use proj.Chunk.Reread.{numbered, make_chunks_main-read_entries}
use proj.Peer.Round.{handle_user_input}
use proj.Peer.Typed.{get_line, read_pieces-get_line}
use proj.Tests.Data.{constant_hash}
use proj.Tests.Arrival.{process}
use proj.Peer.{Process}
use proj.Tests.Files.{fresh, files, disk}

-- A handler that keeps the lines, the newest first.
abbrev collect : List (List ℕ) → List ℕ → Option (List (List ℕ))
collect lines line = some (line ∷ lines)

process_user_input-Left_example :
    (r : Reading (List (List ℕ))) × (process_user_input collect create_userbuf
        (97 ∷ 10 ∷ 0 ∷ 98 ∷ [])
        []
      ≡ some r)
    × Left (λ lines. Unit {0}) r
process_user_input-Left_example =
    process_user_input-Left (λ lines. Unit {0}) collect (λ s line ok. (line ∷ s, refl, ok))
      create_userbuf (97 ∷ 10 ∷ 0 ∷ 98 ∷ []) [] create_userbuf-Room tt

letters : IsText (97 ∷ 98 ∷ [])
letters = IsText.one_byte 97 _ (omega arith) (IsText.one_byte 98 _ (omega arith) IsText.no_byte)

rest_of_lines : IsText (99 ∷ 10 ∷ 100 ∷ [])
rest_of_lines =
    IsText.one_byte 99 _ (omega arith)
      (IsText.one_byte 10 _ (omega arith) (IsText.one_byte 100 _ (omega arith) IsText.no_byte))

-- `ab`, and then `c`, a line's end and `d`.
abbrev pieces : List (List ℕ)
pieces = (97 ∷ 98 ∷ []) ∷ (99 ∷ 10 ∷ 100 ∷ []) ∷ []

pieces-Pieces : Pieces [] pieces
unfolding split
pieces-Pieces =
    one_piece [] _ _ letters (λ h. absurd (cc)) (omega arith)
      (one_piece (97 ∷ 98 ∷ []) _ _ rest_of_lines (λ h. absurd (cc)) (omega arith)
        (no_piece (100 ∷ [])))

read_pieces-lines_example :
    read_pieces collect pieces create_userbuf []
    ≡ reads_lines collect
        (split (flatten pieces)).1
        (each_line collect (split (flatten pieces)).0 [])
read_pieces-lines_example = read_pieces-lines collect pieces [] pieces-Pieces

-- `GET a b` and a line's end, typed at once.
abbrev typed : List ℕ
typed = get_line (97 ∷ []) (98 ∷ []) ++ 10 ∷ []

typed-IsText : IsText typed
typed-IsText = IsText.one_byte 71 _ (omega arith) (
    IsText.one_byte 69 _ (omega arith) (
      IsText.one_byte 84 _ (omega arith) (
        IsText.one_byte 32 _ (omega arith) (
          IsText.one_byte 97 _ (omega arith) (
            IsText.one_byte 32 _ (omega arith) (
              IsText.one_byte 98 _ (omega arith)
                (IsText.one_byte 10 _ (omega arith) IsText.no_byte)))))))

-- A process that downloads nothing yet.
abbrev resting : Process
resting = record process { requestor = record (process.requestor) { in_progress = false } }

read_pieces-get_line_example :
    read_pieces (handle_user_input fresh files disk) (typed ∷ []) create_userbuf resting ≡ (
      process_get fresh disk resting.requestor (files (97 ∷ [])) (98 ∷ []) resting.env
      >>= λ (req, e). some (taken create_userbuf (record resting { requestor = req; env = e })))
unfolding flatten
read_pieces-get_line_example =
    read_pieces-get_line fresh files disk resting (typed ∷ []) (97 ∷ []) (98 ∷ [])
      (one_byte 97 [] refl no_byte) (one_byte 98 [] refl no_byte) (λ h. absurd (cc))
      (λ h. absurd (cc)) (omega arith) (omega arith)
      (one_piece [] typed [] typed-IsText (λ h. absurd (cc)) (omega arith) (no_piece _)) refl

hash-IsBytes : (xs : List ℕ) → IsBytes (constant_hash xs)
hash-IsBytes xs = bytes 20
  where
    bytes : (n : ℕ) → IsBytes (replicate n 170)
    bytes zero = tt
    bytes (suc n) = (omega arith, bytes n)

one_chunk : get_numchunks 3 ≤ 2 ^ 31
unfolding get_numchunks
one_chunk = omega arith

make_chunks_main-read_entries_example :
    (text : List ℕ) × (make_chunks_main constant_hash 2 (some 3) (some (1 ∷ 2 ∷ 3 ∷ []))
      ≡ some (printed text))
    × (read_entries text ≡ numbered 0 (make_chunks constant_hash (1 ∷ 2 ∷ 3 ∷ [])))
    × Short (read_entries text)
make_chunks_main-read_entries_example =
    make_chunks_main-read_entries constant_hash (1 ∷ 2 ∷ 3 ∷ []) hash-IsBytes
      (λ xs. length-replicate {A = ℕ} 20 170) one_chunk
