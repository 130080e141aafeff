-- ===== src/Peer/Typed.antt =====
-- `handle_user_input`: the GET that is typed.
use mathlib.Core.List.{flatten}
use proj.Prelude.{
  ℕ, ◌≤◌, ◌≡◌, ◌≢◌, refl, ap, sym, ◌∙◌, inl, inr, true, false, Option, some, List, [], ◌∷◌, ◌++◌,
  arith, length, append_nil, append_assoc, ltb, ◌==◌, ◌>>=◌, Option-cases,
}
use proj.Prelude.Int.{pos}
use proj.Scan.{scan_word}
use proj.Scan.Words.{IsWord, no_byte, one_byte, at_end, at_space, scan_word-append, scan_word-space}
use proj.Input.{Reading, taken, create_userbuf}
use proj.Input.Split.{split, joined}
use proj.Input.Session.{each_line, reads_lines}
use proj.Input.Pieces.{Pieces, read_pieces, read_pieces-lines, split_nil, split_end, split_more}
use proj.Requestor.{ChunkStatus}
use proj.Requestor.Init.{Disk, process_get}
use proj.Peer.{Process}
use proj.Peer.Round.{scan_literal, scan_chunkf, scan_outf, scan_get, handle_user_input}

-- `GET <chunkf> <outf>`.
abbrev pub get_line : List ℕ → List ℕ → List ℕ
get_line chunkf outf = 71 ∷ 69 ∷ 84 ∷ 32 ∷ (chunkf ++ 32 ∷ outf)

module _ (chunkf outf : List ℕ) (a : IsWord chunkf) (b : IsWord outf) (some_chunkf : chunkf ≢ [])
    (some_outf : outf ≢ []) (short_chunkf : length chunkf ≤ 120)
    (short_outf : length outf ≤ 120) where
  pub scan_get-get_line : scan_get (get_line chunkf outf) ≡ (pos 2, (chunkf, outf))
  unfolding scan_get scan_literal
  scan_get-get_line =
      let first =
        scan_word-space 120 32 (chunkf ++ 32 ∷ outf) refl
        ∙ scan_word-append 120 chunkf (32 ∷ outf) a some_chunkf (at_space 32 outf refl)
            short_chunkf in
      let second =
        scan_word-space 120 32 outf refl
        ∙ (ap (scan_word 120) (sym (append_nil outf))
            ∙ scan_word-append 120 outf [] b some_outf at_end short_outf) in
      ap scan_chunkf first ∙ ap (scan_outf chunkf) second

  -- The line that says GET, and two names without white space that are not empty and at most 120
  -- bytes long, calls `process_get` with what the first file lists and the second name.
  pub handle_user_input-get_line :
      (fresh : ℕ → ChunkStatus) (files : List ℕ → Option (List (ℕ × List ℕ))) (disk : Disk)
      (w : Process)
      → handle_user_input fresh files disk w (get_line chunkf outf) ≡ (
          process_get fresh disk w.requestor (files chunkf) outf w.env >>= λ (req, e).
          some (record w { requestor = req; env = e }))
  unfolding handle_user_input
  handle_user_input-get_line fresh files disk w =
      let there : ltb 0 (length outf) ≡ true = nonempty outf some_outf in
      rw (scan_get-get_line, there) refl
    where
      nonempty : (xs : List ℕ) → xs ≢ [] → ltb 0 (length xs) ≡ true
      nonempty [] h = absurd (h refl)
      nonempty (x ∷ xs) h = ground arith

split-byte :
    (c : ℕ) (rest line : List ℕ) (more : List (List ℕ)) (r : List ℕ)
    → (c == 10) ≡ false
    → split rest ≡ (line ∷ more, r)
    → split (c ∷ rest) ≡ ((c ∷ line) ∷ more, r)
split-byte c rest line more r other h = split_more c rest other ∙ ap (joined c) h

split-word :
    (w rest line : List ℕ) (more : List (List ℕ)) (r : List ℕ)
    → IsWord w
    → split rest ≡ (line ∷ more, r)
    → split (w ++ rest) ≡ ((w ++ line) ∷ more, r)
split-word _ rest line more r no_byte h = h
split-word _ rest line more r (one_byte c cs s w) h =
    split-byte c (cs ++ rest) (cs ++ line) more r (ground arith)
      (split-word cs rest line more r w h)

-- A GET and its line's end are one line.
split-get_line :
    (chunkf outf : List ℕ)
    → IsWord chunkf
    → IsWord outf
    → split (71 ∷ 69 ∷ 84 ∷ 32 ∷ (chunkf ++ 32 ∷ (outf ++ 10 ∷ [])))
      ≡ (get_line chunkf outf ∷ [], [])
split-get_line chunkf outf a b =
    let end : split (10 ∷ []) ≡ ([] ∷ [], []) =
      split_end 10 [] refl ∙ ap (λ (r : List (List ℕ) × List ℕ). ([] ∷ r.0, r.1)) split_nil in
    let second =
      split-word outf (10 ∷ []) [] [] [] b end ∙ ap (λ l. (l ∷ [], [])) (append_nil outf) in
    let between = split_more 32 (outf ++ 10 ∷ []) refl ∙ ap (joined 32) second in
    let first = split-word chunkf (32 ∷ (outf ++ 10 ∷ [])) (32 ∷ outf) [] [] a between in
    split-byte 71 _ _ _ _ refl
      (split-byte 69 _ _ _ _ refl (split-byte 84 _ _ _ _ refl (split-byte 32 _ _ _ _ refl first)))

module _ (fresh : ℕ → ChunkStatus) (files : List ℕ → Option (List (ℕ × List ℕ))) (disk : Disk)
    (w : Process) where
  -- What `process_get` leaves for two typed names.
  abbrev downloads : List ℕ → List ℕ → Option (Reading Process)
  downloads chunkf outf =
      process_get fresh disk w.requestor (files chunkf) outf w.env >>= λ (req, e).
      some (taken create_userbuf (record w { requestor = req; env = e }))

  one-line :
      (line chunkf outf : List ℕ)
      → handle_user_input fresh files disk w line ≡ (
          process_get fresh disk w.requestor (files chunkf) outf w.env >>= λ (req, e).
          some (record w { requestor = req; env = e }))
      → reads_lines
          (handle_user_input fresh files disk)
          []
          (each_line (handle_user_input fresh files disk) (line ∷ []) w)
        ≡ downloads chunkf outf
  unfolding each_line create_userbuf
  one-line line chunkf outf h =
      elim (Option-cases (process_get fresh disk w.requestor (files chunkf) outf w.env)) [
        | inl fault ↦ rw (h, fault) refl
        | inr (r, runs) ↦ rw (h, runs) refl
      ]

  -- `GET`, two names without white space that are not empty and at most 120 bytes long, and the
  -- line's end are typed into the empty buffer, in pieces that are not empty and have no byte 0,
  -- and none of which is longer than 4096 bytes together with what is pending before it. Then the
  -- readings do what one call of `process_get` does, with what the first file lists and the second
  -- name as that of the output file: its fault if it makes one, and if not its state with an empty
  -- buffer.
  pub read_pieces-get_line :
      (pieces : List (List ℕ)) (chunkf outf : List ℕ)
      → IsWord chunkf
      → IsWord outf
      → chunkf ≢ []
      → outf ≢ []
      → length chunkf ≤ 120
      → length outf ≤ 120
      → Pieces [] pieces
      → flatten pieces ≡ get_line chunkf outf ++ 10 ∷ []
      → read_pieces (handle_user_input fresh files disk) pieces create_userbuf w
        ≡ downloads chunkf outf
  read_pieces-get_line pieces chunkf outf a b c d short_chunkf short_outf cut is =
      let handle = handle_user_input fresh files disk in
      let outcome =
        λ (r : List (List ℕ) × List ℕ). reads_lines handle r.1 (each_line handle r.0 w) in
      read_pieces-lines handle pieces w cut
      ∙ (ap (λ xs. outcome (split xs))
            (is ∙ ap (λ xs. 71 ∷ 69 ∷ 84 ∷ 32 ∷ xs) (append_assoc chunkf (32 ∷ outf) (10 ∷ [])))
          ∙ (ap outcome (split-get_line chunkf outf a b)
              ∙ one-line (get_line chunkf outf) chunkf outf (
                  handle_user_input-get_line chunkf outf a b c d short_chunkf short_outf fresh files
                    disk w)))
