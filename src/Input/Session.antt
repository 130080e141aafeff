-- ===== src/Input/Session.antt =====
-- The handler gets the lines of the whole text, in their order, however the text is cut into pieces.
use proj.Prelude.{
  ℕ, zero, suc, ◌+◌, ◌-◌, ◌≤◌, ◌<◌, ◌≡◌, ◌≢◌, refl, ap, sym, ◌∙◌, inl, inr, false, Option, none,
  some, List, [], ◌∷◌, ◌++◌, arith, length, take, drop, replicate, length-append, append_assoc,
  take-length, take_all, drop-append, drop-replicate, ◌>>=◌, leb, Option-cases,
}
use proj.Input.{Iobuf, Reading, taken, strchr, take_lines, process_user_input}
use proj.Input.Lines.{filled}
use proj.Input.Split.{
  split, IsText, holding, IsText-append, Cut, no_end, first_end, text-Cut, Iobuf-eq, shift-holding,
}

module _ {ℓ} {A : Type ℓ} (handle_line : A → List ℕ → Option A) where
  -- One line after the other is handled.
  unfoldable pub each_line : List (List ℕ) → A → Option A
  each_line [] s = some s
  each_line (line ∷ lines) s = handle_line s line >>= λ s1. each_line lines s1

  -- What a reading of lines leaves, with `rest` pending.
  abbrev pub left_with : List ℕ → Option A → Option (Iobuf × A)
  left_with rest r = r >>= λ s1. some (holding rest, s1)

  holding-zeros :
      (text : List ℕ)
      → length text ≤ 4096
      → ◌≡◌ {A = List ℕ} (0 ∷ replicate (8191 - length text) 0) (replicate (8192 - length text) 0)
  holding-zeros text small =
      let e : suc (8191 - length text) ≡ 8192 - length text = omega arith in
      ap (λ n. replicate {A = ℕ} n 0) e

  line-found : (line rest zeros : List ℕ) → take (length line) ((line ++ 10 ∷ rest) ++ zeros) ≡ line
  line-found line rest zeros =
      ap (take (length line)) (append_assoc line (10 ∷ rest) zeros)
      ∙ take-length line (10 ∷ rest ++ zeros)

  take_lines-Cut :
      (fuel : ℕ) (text zeros : List ℕ) (s : A)
      → Cut zeros text
      → zeros ≡ replicate (8192 - length text) 0
      → length text ≤ 4096
      → length text < fuel
      → take_lines handle_line fuel (holding text) s
        ≡ left_with (split text).1 (each_line (split text).0 s)
  unfolding take_lines each_line
  take_lines-Cut zero text zeros s c room small enough = absurd (omega arith)
  take_lines-Cut (suc fuel) text zeros s (no_end _ whole found) room small enough =
      let no_line : strchr (text ++ replicate (8192 - length text) 0) 10 ≡ some none =
        ap (λ xs. strchr (text ++ xs) 10) (sym room) ∙ found in
      rw (no_line, whole) refl
  take_lines-Cut (suc fuel) _ zeros s (first_end line rest parts found t) room small enough =
      let text = line ++ 10 ∷ rest in
      let k = length line in
      let len = length-append line (10 ∷ rest) in
      let at_k : strchr (text ++ replicate (8192 - length text) 0) 10 ≡ some (some k) =
        ap (λ xs. strchr (text ++ xs) 10) (sym room) ∙ found in
      let got = line-found line rest (replicate (8192 - length text) 0) in
      let moved = shift-holding line rest small in
      elim (Option-cases (handle_line s line)) [
        | inl fault ↦ rw (at_k, got, parts, fault) refl
        | inr (s1, runs) ↦
            let more =
              take_lines-Cut fuel rest (0 ∷ replicate (8191 - length rest) 0) s1
                (text-Cut (8191 - length rest) t) (holding-zeros rest (omega (arith, len)))
                (omega (arith, len)) (omega (arith, len)) in
            rw (at_k, got, parts, runs, moved) more
      ]

-- What is typed comes behind what is pending.
filled-holding :
    (pending typed : List ℕ)
    → length (pending ++ typed) ≤ 4096
    → filled (holding pending) typed ≡ holding (pending ++ typed)
filled-holding pending typed small =
    let len = length-append pending typed in
    let n = 8192 - length pending in
    let m = 8192 - length (pending ++ typed) in
    let zeros = replicate {A = ℕ} n 0 in
    let parts : n ≡ length typed + m = omega (arith, len) in
    let behind : drop (length pending + length typed) (pending ++ zeros) ≡ replicate m 0 =
      drop-append pending zeros (length typed)
      ∙ (ap (λ i. drop (length typed) (replicate {A = ℕ} i 0)) parts
          ∙ drop-replicate (length typed) m 0) in
    Iobuf-eq
      (ap (λ xs. xs ++ (typed ++ drop (length pending + length typed) (pending ++ zeros)))
          (take-length pending zeros)
        ∙ (ap (λ xs. pending ++ (typed ++ xs)) behind
            ∙ sym (append_assoc pending typed (replicate m 0))))
      (sym len)

module _ {ℓ} {A : Type ℓ} (handle_line : A → List ℕ → Option A) where
  -- What a reading comes to, with `rest` pending.
  abbrev pub reads_lines : List ℕ → Option A → Option (Reading A)
  reads_lines rest r = r >>= λ s1. some (taken (holding rest) s1)

  reads-left :
      (rest : List ℕ) (r : Option A) (result : Option (Iobuf × A))
      → result ≡ left_with handle_line rest r
      → (result >>= λ (b, s). some (taken b s)) ≡ reads_lines rest r
  reads-left rest none result h = rw h refl
  reads-left rest (some s) result h = rw h refl

  -- The buffer holds a text that is not a line yet, and something is typed; neither has a byte 0, and
  -- together they are not longer than 4096 bytes. Then the handler gets exactly the lines of the two
  -- together, in their order, a fault of it is one of the reading, and what is behind the
  -- last line's end is pending.
  pub process_user_input-split :
      (pending bytes : List ℕ) (s : A)
      → IsText pending
      → IsText bytes
      → bytes ≢ []
      → length (pending ++ bytes) ≤ 4096
      → process_user_input handle_line (holding pending) bytes s
        ≡ reads_lines
            (split (pending ++ bytes)).1
            (each_line handle_line (split (pending ++ bytes)).0 s)
  unfolding process_user_input
  process_user_input-split pending [] s t u some' small = absurd (some' refl)
  process_user_input-split pending (c ∷ cs) s t u some' small =
      let bytes = c ∷ cs in
      let text = pending ++ bytes in
      let len = length-append pending bytes in
      let all : take (8191 - length pending) bytes ≡ bytes =
        take_all (8191 - length pending) bytes (omega (arith, len)) in
      let free : leb 8190 (length pending) ≡ false = ground (arith, len) in
      let some_typed : leb (length bytes) 0 ≡ false = ground arith in
      let lines =
        take_lines-Cut handle_line 8193 text (0 ∷ replicate (8191 - length text) 0) s
          (text-Cut (8191 - length text) (IsText-append t u)) (holding-zeros handle_line text small)
          small (omega (arith, small)) in
      rw (free, all, some_typed)
        (reads-left (split text).1 (each_line handle_line (split text).0 s)
          (take_lines handle_line 8193 (filled (holding pending) bytes) s)
          (ap (λ b. take_lines handle_line 8193 b s) (filled-holding pending bytes small) ∙ lines))
