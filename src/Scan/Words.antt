-- ===== src/Scan/Words.antt =====
-- Words between white space.
use proj.Prelude.{
  ℕ, zero, suc, ◌≤◌, ◌≡◌, refl, subst, ap, ◌∙◌, inl, inr, true, false, Option, some, none, List, [],
  ◌∷◌, ◌++◌, arith, length, Bool-cases, ◌≢◌,
}
use proj.Scan.{is_space, skip_space, take_word, scan_word}

-- No white space in the text.
pub data IsWord : List ℕ → Type 0 where
  no_byte : IsWord []
  one_byte : (c : ℕ) (cs : List ℕ) → is_space c ≡ false → IsWord cs → IsWord (c ∷ cs)

-- What follows a word.
pub data IsEnd : List ℕ → Type 0 where
  at_end : IsEnd []
  at_space : (c : ℕ) (cs : List ℕ) → is_space c ≡ true → IsEnd (c ∷ cs)

pub skip_space-word : (c : ℕ) (cs : List ℕ) → is_space c ≡ false → skip_space (c ∷ cs) ≡ c ∷ cs
unfolding skip_space
skip_space-word c cs h = rw h refl

pub skip_space-space :
    (c : ℕ) (cs : List ℕ) → is_space c ≡ true → skip_space (c ∷ cs) ≡ skip_space cs
unfolding skip_space
skip_space-space c cs h = rw h refl

pub take_word-append :
    (limit : ℕ) (w rest : List ℕ)
    → IsWord w
    → IsEnd rest
    → length w ≤ limit
    → take_word limit (w ++ rest) ≡ (w, rest)
unfolding take_word
take_word-append zero _ rest no_byte e h = refl
take_word-append (suc limit) _ _ no_byte at_end h = refl
take_word-append (suc limit) _ _ no_byte (at_space c cs s) h = rw s refl
take_word-append zero _ rest (one_byte c cs s w) e h = absurd (omega arith)
take_word-append (suc limit) _ rest (one_byte c cs s w) e h =
    rw (s, take_word-append limit cs rest w e (omega arith)) refl

abbrev word_found : List ℕ → List ℕ → Option (List ℕ × List ℕ)
word_found v rest = elim v [ [] ↦ none | c ∷ u ↦ some (c ∷ u, rest) ]

-- A word in front of white space or the end is read as it stands.
pub scan_word-append :
    (limit : ℕ) (w rest : List ℕ)
    → IsWord w
    → w ≢ []
    → IsEnd rest
    → length w ≤ limit
    → scan_word limit (w ++ rest) ≡ some (w, rest)
unfolding scan_word
scan_word-append limit _ rest no_byte ne e h = absurd (ne refl)
scan_word-append limit _ rest (one_byte c cs s w) ne e h =
    ap (λ xs. word_found (take_word limit xs).0 (take_word limit xs).1)
      (skip_space-word c (cs ++ rest) s)
    ∙ ap (λ (r : List ℕ × List ℕ). word_found r.0 r.1)
        (take_word-append limit (c ∷ cs) rest (one_byte c cs s w) e h)

pub scan_word-space :
    (limit c : ℕ) (cs : List ℕ) → is_space c ≡ true → scan_word limit (c ∷ cs) ≡ scan_word limit cs
unfolding scan_word
scan_word-space limit c cs s =
    ap (λ xs. word_found (take_word limit xs).0 (take_word limit xs).1) (skip_space-space c cs s)

-- What is taken is a word of at most that length.
pub take_word-IsWord :
    (limit : ℕ) (cs : List ℕ)
    → IsWord (take_word limit cs).0 × (length (take_word limit cs).0 ≤ limit)
unfolding take_word
take_word-IsWord zero cs = (no_byte, omega arith)
take_word-IsWord (suc limit) [] = (no_byte, omega arith)
take_word-IsWord (suc limit) (c ∷ cs) =
    let (w, l) = take_word-IsWord limit cs in
    elim (Bool-cases (is_space c)) [
      | inl s ↦ rw s (no_byte, omega arith)
      | inr s ↦ rw s (one_byte c (take_word limit cs).0 s w, omega arith)
    ]

word_found-IsWord :
    (limit : ℕ) (v rest w r : List ℕ)
    → IsWord v
    → length v ≤ limit
    → word_found v rest ≡ some (w, r)
    → IsWord w × (w ≢ []) × (length w ≤ limit)
word_found-IsWord limit [] rest w r v l h = absurd (cc)
word_found-IsWord limit (c ∷ u) rest w r v l h =
    let is : c ∷ u ≡ w = ground arith in
    subst (λ x. IsWord x × (x ≢ []) × (length x ≤ limit)) is (v, (λ n. absurd (cc)), l)

pub scan_word-IsWord :
    (limit : ℕ) (cs w rest : List ℕ)
    → scan_word limit cs ≡ some (w, rest)
    → IsWord w × (w ≢ []) × (length w ≤ limit)
unfolding scan_word
scan_word-IsWord limit cs w rest h =
    let (v, l) = take_word-IsWord limit (skip_space cs) in
    word_found-IsWord limit (take_word limit (skip_space cs)).0 (take_word limit (skip_space cs)).1
      w rest v l h
