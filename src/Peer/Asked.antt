-- ===== src/Peer/Asked.antt =====
-- The names that `handle_user_input` finds in a line.
use proj.Prelude.{
  ℕ, ◌≤◌, ◌≡◌, ◌≢◌, ap, Bool, true, ◌&&◌, Option, none, some, List, [], ◌∷◌, arith, length, ltb,
  refl,
}
use proj.Prelude.Int.{ℤ, pos, negsuc}
use proj.Scan.{scan_word}
use proj.Scan.Words.{scan_word-IsWord}
use proj.Peer.Round.{
  Literal, mismatch, ended, matched, scan_literal, scan_outf, scan_chunkf, scan_get,
}

-- The second name that `scan_get` finds has at most 120 bytes.
scan_outf-short :
    (chunkf : List ℕ) (scanned : Option (List ℕ × List ℕ))
    → ((w rest : List ℕ) → scanned ≡ some (w, rest) → length w ≤ 120)
    → length (scan_outf chunkf scanned).1.1 ≤ 120
scan_outf-short chunkf none h = omega arith
scan_outf-short chunkf (some (outf, rest)) h = h outf rest refl

scan_chunkf-short : (scanned : Option (List ℕ × List ℕ)) → length (scan_chunkf scanned).1.1 ≤ 120
scan_chunkf-short none = omega arith
scan_chunkf-short (some (chunkf, rest)) =
    scan_outf-short chunkf (scan_word 120 rest)
      (λ w more h. let (_, _, few) = scan_word-IsWord 120 rest w more h in few)

pub scan_get-short : (line : List ℕ) → length (scan_get line).1.1 ≤ 120
unfolding scan_get
scan_get-short line = cases (scan_literal (71 ∷ 69 ∷ 84 ∷ []) line)
  where
    cases :
        (l : Literal)
        → length
            (elim l as (λ _. ℤ × (List ℕ × List ℕ)) [
              | mismatch ↦ (pos 0, ([], []))
              | ended ↦ (negsuc 0, ([], []))
              | matched rest ↦ scan_chunkf (scan_word 120 rest)
            ]).1.1
          ≤ 120
    cases mismatch = omega arith
    cases ended = omega arith
    cases (matched rest) = scan_chunkf-short (scan_word 120 rest)

pub named_file : (b : Bool) (outf : List ℕ) → (b && ltb 0 (length outf)) ≡ true → outf ≢ []
named_file b outf h is = absurd (ground (arith, ap length is))
