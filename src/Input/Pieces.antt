-- ===== src/Input/Pieces.antt =====
-- A text that is typed piece by piece.
use mathlib.Core.List.{flatten}
use proj.Prelude.{
  ℕ, ◌≤◌, ◌≡◌, ◌≢◌, refl, ap, sym, subst, ◌∙◌, inl, inr, true, false, Option, some, List, [], ◌∷◌,
  ◌++◌, length, append_nil, append_assoc, ◌>>=◌, ◌==◌, if_true, if_false, Option-cases, Bool-cases,
}
use proj.Input.{Iobuf, Reading, too_long, at_end, taken, create_userbuf, process_user_input}
use proj.Input.Split.{split, IsText, no_byte, one_byte, holding, joined, IsText-append}
use proj.Input.Session.{each_line, reads_lines, process_user_input-split}

pub split_nil : split [] ≡ ([], [])
unfolding split
split_nil = refl

pub split_end :
    (c : ℕ) (cs : List ℕ) → (c == 10) ≡ true → split (c ∷ cs) ≡ ([] ∷ (split cs).0, (split cs).1)
unfolding split
split_end c cs h = if_true _ _ h

pub split_more : (c : ℕ) (cs : List ℕ) → (c == 10) ≡ false → split (c ∷ cs) ≡ joined c (split cs)
unfolding split
split_more c cs h = if_false _ _ h

-- The lines of a text behind which another one comes, from its own lines.
abbrev appended : List ℕ → List (List ℕ) × List ℕ → List (List ℕ) × List ℕ
appended ys r = (r.0 ++ (split (r.1 ++ ys)).0, (split (r.1 ++ ys)).1)

joined-appended :
    (c : ℕ) (ys : List ℕ) (lines : List (List ℕ)) (rest : List ℕ)
    → (c == 10) ≡ false
    → joined c (appended ys (lines, rest)) ≡ appended ys (joined c (lines, rest))
joined-appended c ys [] rest h = sym (split_more c (rest ++ ys) h)
joined-appended c ys (line ∷ more) rest h = refl

split-append : (xs ys : List ℕ) → split (xs ++ ys) ≡ appended ys (split xs)
split-append [] ys = ap (appended ys) (sym split_nil)
split-append (c ∷ cs) ys = elim (Bool-cases (c == 10)) [
  | inl end ↦
      split_end c (cs ++ ys) end
      ∙ (ap (λ (r : List (List ℕ) × List ℕ). ([] ∷ r.0, r.1)) (split-append cs ys)
          ∙ ap (appended ys) (sym (split_end c cs end)))
  | inr other ↦
      split_more c (cs ++ ys) other
      ∙ (ap (joined c) (split-append cs ys)
          ∙ (joined-appended c ys (split cs).0 (split cs).1 other
              ∙ ap (appended ys) (sym (split_more c cs other))))
]

-- What is behind the last line's end is a text without a line's end.
pub record Rest (r : List (List ℕ) × List ℕ) : Type 0 where
  pub text : IsText r.1
  pub no_line : split r.1 ≡ ([], r.1)

joined-Rest :
    (c : ℕ) (lines : List (List ℕ)) (rest : List ℕ)
    → c ≢ 0
    → (c == 10) ≡ false
    → Rest (lines, rest)
    → Rest (joined c (lines, rest))
joined-Rest c [] rest h other r = record {
  text = one_byte c rest h r.text;
  no_line = split_more c rest other ∙ ap (joined c) r.no_line;
}
joined-Rest c (line ∷ more) rest h other r = record { text = r.text; no_line = r.no_line }

pub split-Rest : {text : List ℕ} → IsText text → Rest (split text)
unfolding split
split-Rest no_byte = record { text = no_byte; no_line = refl }
split-Rest (one_byte c cs h t) =
    let r = split-Rest t in
    elim (Bool-cases (c == 10)) [
      | inl end ↦
          subst Rest (sym (split_end c cs end)) (record { text = r.text; no_line = r.no_line })
      | inr other ↦
          subst Rest (sym (split_more c cs other))
            (joined-Rest c (split cs).0 (split cs).1 h other r)
    ]

-- The pieces have no byte 0, none is empty, and none is longer than 4096 bytes together with what is
-- pending before it.
pub data Pieces : List ℕ → List (List ℕ) → Type 0 where
  no_piece : (pending : List ℕ) → Pieces pending []
  one_piece :
      (pending bytes : List ℕ) (more : List (List ℕ))
      → IsText bytes
      → bytes ≢ []
      → length (pending ++ bytes) ≤ 4096
      → Pieces (split (pending ++ bytes)).1 more
      → Pieces pending (bytes ∷ more)

module _ {ℓ} {A : Type ℓ} (handle_line : A → List ℕ → Option A) where
  -- One reading after the other, as `peer_run` calls `process_user_input`.
  unfoldable pub read_pieces : List (List ℕ) → Iobuf → A → Option (Reading A)
  read_pieces [] b s = some (taken b s)
  read_pieces (bytes ∷ more) b s = process_user_input handle_line b bytes s >>= λ r. elim r [
    | taken b1 s1 ↦ read_pieces more b1 s1
    | too_long ↦ some too_long
    | at_end s1 ↦ some (at_end s1)
  ]

  each_line-append :
      (xs ys : List (List ℕ)) (s : A)
      → each_line handle_line (xs ++ ys) s
        ≡ (each_line handle_line xs s >>= λ s1. each_line handle_line ys s1)
  unfolding each_line
  each_line-append [] ys s = refl
  each_line-append (x ∷ xs) ys s = elim (Option-cases (handle_line s x)) [
    | inl fault ↦ rw fault refl
    | inr (s1, runs) ↦ rw runs (each_line-append xs ys s1)
  ]

  -- What all the pieces come to, from the lines and the rest.
  abbrev outcome : A → List (List ℕ) × List ℕ → Option (Reading A)
  outcome s r = reads_lines handle_line r.1 (each_line handle_line r.0 s)

  outcome_rest :
      (pending : List ℕ) (s : A) → outcome s ([], pending) ≡ some (taken (holding pending) s)
  unfolding each_line
  outcome_rest pending s = refl

  outcome-append :
      (r : List (List ℕ) × List ℕ) (ys : List ℕ) (s : A)
      → outcome s (appended ys r)
        ≡ (each_line handle_line r.0 s >>= λ s1. outcome s1 (split (r.1 ++ ys)))
  outcome-append r ys s =
      let lines = each_line-append r.0 (split (r.1 ++ ys)).0 s in
      elim (Option-cases (each_line handle_line r.0 s)) [
        | inl fault ↦ rw (lines, fault) refl
        | inr (s1, runs) ↦ rw (lines, runs) refl
      ]

  read_pieces-outcome :
      (pending : List ℕ) (pieces : List (List ℕ)) (s : A)
      → IsText pending
      → split pending ≡ ([], pending)
      → Pieces pending pieces
      → read_pieces pieces (holding pending) s ≡ outcome s (split (pending ++ flatten pieces))
  unfolding read_pieces flatten
  read_pieces-outcome pending _ s t whole (no_piece _) = sym (
      ap (λ xs. outcome s (split xs)) (append_nil pending)
      ∙ (ap (outcome s) whole ∙ outcome_rest pending s))
  read_pieces-outcome pending _ s t whole (one_piece _ bytes more u some' small later) =
      let r = split (pending ++ bytes) in
      let first = process_user_input-split handle_line pending bytes s t u some' small in
      let rest = split-Rest (IsText-append t u) in
      let all : split (pending ++ (bytes ++ flatten more)) ≡ appended (flatten more) r =
        ap split (sym (append_assoc pending bytes (flatten more)))
        ∙ split-append (pending ++ bytes) (flatten more) in
      let ends = ap (outcome s) all ∙ outcome-append r (flatten more) s in
      elim (Option-cases (each_line handle_line r.0 s)) [
        | inl fault ↦ rw (ends, first, fault) refl
        | inr (s1, runs) ↦
            rw (ends, first, runs) (read_pieces-outcome r.1 more s1 rest.text rest.no_line later)
      ]

  -- Bytes are typed into the empty buffer in pieces, none of them a 0, no piece empty, and none
  -- longer than 4096 bytes together with what is pending before it. Then the readings come to what
  -- the lines of the whole text come to, handled one after the other, and what is behind its last
  -- line's end is pending: how the text is cut does not matter.
  pub read_pieces-lines :
      (pieces : List (List ℕ)) (s : A)
      → Pieces [] pieces
      → read_pieces pieces create_userbuf s
        ≡ reads_lines handle_line
            (split (flatten pieces)).1
            (each_line handle_line (split (flatten pieces)).0 s)
  unfolding create_userbuf
  read_pieces-lines pieces s p = read_pieces-outcome [] pieces s no_byte split_nil p
