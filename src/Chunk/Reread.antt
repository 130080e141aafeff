-- ===== src/Chunk/Reread.antt =====
-- The list that make_chunks prints is read back.
use proj.Prelude.{
  ℕ, zero, suc, ◌+◌, ◌*◌, ◌/◌, ◌%◌, ◌^◌, ◌≤◌, ◌<◌, ◌≡◌, ◌≢◌, refl, ap, sym, ◌∙◌, inl, inr, true,
  false, none, some, List, [], ◌∷◌, ◌++◌, arith, length, some-eq, take, drop, length-append, ltb,
  leb, ◌==◌, Bool-cases, Option-cases,
}
use proj.Scan.{skip_space, scan_signed, scan_int, digits, print_nat}
use proj.Scan.Words.{IsWord, no_byte, one_byte, at_space, scan_word-append, scan_word-space}
use proj.Scan.Numbers.{at_other, scan_int-print_nat}
use proj.Chunk.{hex_digit, binary2hex, make_chunks, get_numchunks, chunk_hashes}
use proj.Chunk.Hex.{IsBytes}
use proj.Chunk.Count.{make_chunks_lem}
use proj.Requestor.Begin.{Short}
use proj.Chunk.Listing.{
  print_string, print_hashes, printed, make_chunks_main, scan_entry, one_entry, scan_entries,
  read_entries,
}

-- The text of a hash, without the 0 at its end.
unfoldable pub hex_text : List ℕ → List ℕ
hex_text [] = []
hex_text (x ∷ xs) = hex_digit (x / 16) ∷ hex_digit (x % 16) ∷ hex_text xs

print_string-binary2hex :
    (hash rest : List ℕ)
    → IsBytes hash
    → print_string (binary2hex hash) rest ≡ hex_text hash ++ rest
unfolding print_string binary2hex hex_text
print_string-binary2hex [] rest h = refl
print_string-binary2hex (x ∷ xs) rest h =
    let high : (hex_digit (x / 16) == 0) ≡ false = ground arith in
    let low : (hex_digit (x % 16) == 0) ≡ false = ground arith in
    rw (high, low, print_string-binary2hex xs rest h.1) refl

hex_text-IsWord : (hash : List ℕ) → IsBytes hash → IsWord (hex_text hash)
unfolding hex_text
hex_text-IsWord [] h = no_byte
hex_text-IsWord (x ∷ xs) h =
    let small = h.0 in
    one_byte (hex_digit (x / 16)) _ (ground arith)
      (one_byte (hex_digit (x % 16)) _ (ground arith) (hex_text-IsWord xs h.1))

length-hex_text : (hash : List ℕ) → length (hex_text hash) ≡ 2 * length hash
unfolding hex_text
length-hex_text [] = refl
length-hex_text (x ∷ xs) = omega (arith, length-hex_text xs)

-- The pairs of a number and a text, from number `i` on.
unfoldable pub numbered : ℕ → List (List ℕ) → List (ℕ × List ℕ)
numbered i [] = []
numbered i (hash ∷ hashes) = (i, hex_text hash) ∷ numbered (i + 1) hashes

-- Hashes of 20 bytes.
data Hashes : List (List ℕ) → Type 0 where
  no_hash : Hashes []
  one_hash :
      (hash : List ℕ) (hashes : List (List ℕ))
      → IsBytes hash
      → length hash ≡ 20
      → Hashes hashes
      → Hashes (hash ∷ hashes)

nonempty : (xs : List ℕ) → 0 < length xs → xs ≢ []
nonempty [] h e = absurd (omega arith)
nonempty (x ∷ xs) h e = absurd (cc)

scan_entry-print_nat :
    (i : ℕ) (w rest : List ℕ)
    → i < 2 ^ 32
    → IsWord w
    → 0 < length w
    → scan_entry (print_nat i (32 ∷ (w ++ 10 ∷ rest))) ≡ some (i, w, 10 ∷ rest)
unfolding scan_entry
scan_entry-print_nat i w rest small word some' =
    let line = w ++ 10 ∷ rest in
    let number = scan_int-print_nat i (32 ∷ line) (at_other 32 line refl) in
    let text =
      scan_word-space (length (32 ∷ line)) 32 line refl
      ∙ scan_word-append (length (32 ∷ line)) w (10 ∷ rest) word (nonempty w some')
          (at_space 10 rest refl) (omega (arith, length-append w (10 ∷ rest))) in
    let pattern : i % 2 ^ 32 ≡ i = omega arith in rw (number, text, pattern) refl

-- The line's end in front of a number is skipped.
scan_entry-newline : (file : List ℕ) → scan_entry (10 ∷ file) ≡ scan_entry file
unfolding scan_entry scan_int skip_space
scan_entry-newline file = refl

scan_entries-none :
    (fuel : ℕ) (file : List ℕ) → scan_entry file ≡ none → scan_entries (suc fuel) file ≡ []
unfolding scan_entries
scan_entries-none fuel file h = ap (λ r. one_entry r (λ more. scan_entries fuel more)) h

scan_entries-some :
    (fuel : ℕ) (file : List ℕ) (id : ℕ) (text rest : List ℕ)
    → scan_entry file ≡ some (id, text, rest)
    → scan_entries (suc fuel) file ≡ (id, text) ∷ scan_entries fuel rest
unfolding scan_entries
scan_entries-some fuel file id text rest h =
    ap (λ r. one_entry r (λ more. scan_entries fuel more)) h

scan_entry-end : scan_entry [] ≡ none
unfolding scan_entry scan_int skip_space scan_signed
scan_entry-end = refl

scan_entries-print_hashes :
    (fuel i : ℕ) (hashes : List (List ℕ))
    → Hashes hashes
    → i + length hashes ≤ 2 ^ 31
    → length hashes < fuel
    → scan_entries fuel (10 ∷ print_hashes i hashes) ≡ numbered i hashes
unfolding print_hashes numbered
scan_entries-print_hashes zero i hashes h small enough = absurd (omega arith)
scan_entries-print_hashes (suc fuel) i _ no_hash small enough =
    scan_entries-none fuel (10 ∷ []) (scan_entry-newline [] ∙ scan_entry-end)
scan_entries-print_hashes (suc fuel) i _ (one_hash hash hashes bytes size more) small enough =
    let rest = print_hashes (i + 1) hashes in
    let text = print_string-binary2hex hash (10 ∷ rest) bytes in
    let entry =
      scan_entry-print_nat i (hex_text hash) rest (omega arith) (hex_text-IsWord hash bytes)
        (omega (arith, length-hex_text hash)) in
    let next = scan_entries-print_hashes fuel (i + 1) hashes more (omega arith) (omega arith) in
    let line = ap (λ xs. scan_entry (print_nat i (32 ∷ xs))) text ∙ entry in
    let shown = print_nat i (32 ∷ print_string (binary2hex hash) (10 ∷ rest)) in
    scan_entries-some fuel (10 ∷ shown) i (hex_text hash) (10 ∷ rest)
      (scan_entry-newline shown ∙ line)
    ∙ ap (λ es. (i, hex_text hash) ∷ es) next

digits-le : (fuel n : ℕ) (rest : List ℕ) → length rest ≤ length (digits fuel n rest)
unfolding digits
digits-le zero n rest = omega arith
digits-le (suc fuel) n rest = ground (arith, digits-le fuel (n / 10) ((48 + n % 10) ∷ rest))

print_string-le : (cs rest : List ℕ) → length rest ≤ length (print_string cs rest)
unfolding print_string
print_string-le [] rest = omega arith
print_string-le (c ∷ cs) rest = ground (arith, print_string-le cs rest)

-- The list is longer than its number of lines.
print_hashes-le : (i : ℕ) (hashes : List (List ℕ)) → length hashes ≤ length (print_hashes i hashes)
unfolding print_hashes print_nat
print_hashes-le i [] = omega arith
print_hashes-le i (hash ∷ hashes) =
    let rest = print_hashes (i + 1) hashes in
    let text = print_string (binary2hex hash) (10 ∷ rest) in
    omega (
      arith,
      digits-le (suc i) i (32 ∷ text),
      print_string-le (binary2hex hash) (10 ∷ rest),
      print_hashes-le (i + 1) hashes,
    )

chunk_hashes-Hashes :
    (shahash : List ℕ → List ℕ) (size fuel : ℕ) (rest : List ℕ)
    → ((xs : List ℕ) → IsBytes (shahash xs))
    → ((xs : List ℕ) → length (shahash xs) ≡ 20)
    → Hashes (chunk_hashes shahash size fuel rest)
unfolding chunk_hashes
chunk_hashes-Hashes shahash size zero rest bytes twenty = no_hash
chunk_hashes-Hashes shahash size (suc fuel) rest bytes twenty =
    elim (Bool-cases (ltb 0 (length (take size rest)))) [
      | inl more ↦ rw more (
          one_hash (shahash (take size rest)) _ (bytes (take size rest)) (twenty (take size rest))
            (chunk_hashes-Hashes shahash size fuel (drop size rest) bytes twenty))
      | inr done ↦ rw done no_hash
    ]

-- No text is longer than a hash.
numbered-Short : (i : ℕ) (hashes : List (List ℕ)) → Hashes hashes → Short (numbered i hashes)
unfolding numbered
numbered-Short i _ no_hash k x h = absurd (cc)
numbered-Short i _ (one_hash hash hashes bytes size more) zero x h =
    let is : (i, hex_text hash) ≡ x = some-eq (i, hex_text hash) x h in
    rw (← is) (omega (arith, length-hex_text hash))
numbered-Short i _ (one_hash hash hashes bytes size more) (suc k) x h =
    numbered-Short (i + 1) hashes more k x h

first_newline : (fuel : ℕ) (file : List ℕ) → scan_entries fuel (10 ∷ file) ≡ scan_entries fuel file
unfolding scan_entries
first_newline zero file = refl
first_newline (suc fuel) file = elim (Option-cases (scan_entry file)) [
  | inl end ↦
      scan_entries-none fuel (10 ∷ file) (scan_entry-newline file ∙ end)
      ∙ sym (scan_entries-none fuel file end)
  | inr ((id, text, rest), more) ↦
      scan_entries-some fuel (10 ∷ file) id text rest (scan_entry-newline file ∙ more)
      ∙ sym (scan_entries-some fuel file id text rest more)
]

-- SHA-1 gives 20 bytes, and the file has at most 2^31 chunks. Then make_chunks prints a list for it
-- without a write behind its array, and what requestor.c and responser.c read from that list are
-- the numbers from 0 on with the texts of the hashes of the file's chunks, in their order. None of
-- the texts is longer than a hash.
pub make_chunks_main-read_entries :
    (shahash : List ℕ → List ℕ) (file : List ℕ)
    → ((xs : List ℕ) → IsBytes (shahash xs))
    → ((xs : List ℕ) → length (shahash xs) ≡ 20)
    → get_numchunks (length file) ≤ 2 ^ 31
    → (text : List ℕ) × (make_chunks_main shahash 2 (some (length file)) (some file)
        ≡ some (printed text))
      × (read_entries text ≡ numbered 0 (make_chunks shahash file))
      × Short (read_entries text)
unfolding make_chunks_main make_chunks read_entries
make_chunks_main-read_entries shahash file bytes twenty few =
    let hashes = make_chunks shahash file in
    let count = (make_chunks_lem shahash file).0 in
    let text = print_hashes 0 hashes in
    let h : Hashes hashes =
      chunk_hashes-Hashes shahash 524288 (suc (length file)) file bytes twenty in
    let room : leb (length hashes) (get_numchunks (length file)) ≡ true = ground (arith, count) in
    let reads : read_entries text ≡ numbered 0 hashes =
      sym (first_newline (suc (length text)) text)
      ∙ scan_entries-print_hashes (suc (length text)) 0 hashes h (omega (arith, count))
          (omega (arith, print_hashes-le 0 hashes)) in
    (text, rw room refl, reads, rw reads (numbered-Short 0 hashes h))
