-- ===== src/Chunk/Listing.antt =====
-- make_chunks.c, which writes the list of a file's chunks, and how requestor.c and responser.c read
-- such a list. A `none` of the program is a write behind the array that it allocates.
use proj.Prelude.{
  ℕ, zero, suc, ◌+◌, ◌-◌, ◌%◌, ◌^◌, Option, none, some, List, [], ◌∷◌, ltb, leb, ◌==◌,
  if◌then◌else◌, ◌>>=◌, length,
}
use proj.Prelude.Int.{ℤ, pos, negsuc}
use proj.Scan.{scan_int, scan_word, print_nat}
use proj.Chunk.{binary2hex, make_chunks, get_numchunks}

-- `%s` of printf, in front of a text: the bytes up to the 0.
unfoldable pub print_string : List ℕ → List ℕ → List ℕ
print_string [] rest = rest
print_string (c ∷ cs) rest = let more = print_string cs rest in if c == 0 then rest else c ∷ more

-- The loop that prints `"%d %s\n"`, from hash `i` on.
unfoldable pub print_hashes : ℕ → List (List ℕ) → List ℕ
print_hashes i [] = []
print_hashes i (hash ∷ hashes) =
    print_nat i (32 ∷ print_string (binary2hex hash) (10 ∷ print_hashes (i + 1) hashes))

-- The ends of `main`: the usage, the error, or what is printed.
pub data Output : Type 0 where
  usage : Output
  cannot_stat : Output
  printed : List ℕ → Output

-- `main`, from the number of arguments, the size that `stat` gives and the content that `fopen` opens.
unfoldable pub make_chunks_main : (List ℕ → List ℕ) → ℕ → Option ℕ → Option (List ℕ) → Option Output
make_chunks_main shahash argc none file = if ltb argc 2 then some usage else some cannot_stat
make_chunks_main shahash argc (some st_size) none =
    if ltb argc 2 then some usage else some cannot_stat
make_chunks_main shahash argc (some st_size) (some file) =
    let hashes = make_chunks shahash file in
    if ltb argc 2
    then some usage
    else if leb (length hashes) (get_numchunks st_size)
    then some (printed (print_hashes 0 hashes))
    else none

-- The bit pattern of an `int`.
abbrev pub int_pattern : ℤ → ℕ
int_pattern (pos n) = n % 2 ^ 32
int_pattern (negsuc n) = 2 ^ 32 - 1 - n % 2 ^ 32

-- `fscanf(fin, "%d%s", &id, chunk_hash) == 2`: the two values, and what is left of the file.
unfoldable pub scan_entry : List ℕ → Option (ℕ × List ℕ × List ℕ)
scan_entry file = scan_int file >>= λ (id, rest).
    scan_word (length rest) rest >>= λ (text, rest1). some (int_pattern id, text, rest1)

-- A round of the loop, from the result of `fscanf` on; `more` are the next rounds.
abbrev pub one_entry :
    Option (ℕ × List ℕ × List ℕ) → (List ℕ → List (ℕ × List ℕ)) → List (ℕ × List ℕ)
one_entry none more = []
one_entry (some (id, text, rest)) more = (id, text) ∷ more rest

-- The loop over the file; the fuel bounds the rounds.
unfoldable pub scan_entries : ℕ → List ℕ → List (ℕ × List ℕ)
scan_entries zero file = []
scan_entries (suc fuel) file = one_entry (scan_entry file) (λ rest. scan_entries fuel rest)

-- Each round but the last consumes a byte.
unfoldable pub read_entries : List ℕ → List (ℕ × List ℕ)
read_entries file = scan_entries (suc (length file)) file
