-- ===== src/Input/Split.antt =====
-- What is typed arrives in pieces; the handler gets the lines of the whole text.
use proj.Prelude.{
  ℕ, ◌+◌, ◌-◌, ◌≤◌, ◌≡◌, ◌≢◌, refl, ap, sym, ◌∙◌, inl, inr, false, none, some, List, [], ◌∷◌, ◌++◌,
  arith, length, set, take, drop, replicate, length-append, length-replicate, append_assoc,
  take_all, drop-append, set-append, drop-replicate, replicate_add, ◌==◌, if◌then◌else◌, if_false,
  Bool-cases,
}
use proj.Input.{Iobuf, strchr, shift}

-- The lines of a text, without their ends, and what is behind the last end.
unfoldable pub split : List ℕ → List (List ℕ) × List ℕ
split [] = ([], [])
split (c ∷ cs) =
    let (lines, rest) = split cs in
    if c == 10
    then ([] ∷ lines, rest)
    else elim lines [ [] ↦ ([], c ∷ rest) | line ∷ more ↦ ((c ∷ line) ∷ more, rest) ]

-- A text without a 0.
pub data IsText : List ℕ → Type 0 where
  no_byte : IsText []
  one_byte : (c : ℕ) (cs : List ℕ) → c ≢ 0 → IsText cs → IsText (c ∷ cs)

-- The buffer while it holds a text that is not a line yet.
abbrev pub holding : List ℕ → Iobuf
holding text = record { buf = text ++ replicate (8192 - length text) 0; cur = length text }

pub IsText-append : {xs ys : List ℕ} → IsText xs → IsText ys → IsText (xs ++ ys)
IsText-append no_byte t = t
IsText-append (one_byte c cs h u) t = one_byte c (cs ++ _) h (IsText-append u t)

-- A text has no line's end, or it has a first one.
pub data Cut (zeros : List ℕ) : List ℕ → Type 0 where
  no_end :
      (text : List ℕ)
      → split text ≡ ([], text)
      → strchr (text ++ zeros) 10 ≡ some none
      → Cut zeros text
  first_end :
      (line rest : List ℕ)
      → split (line ++ 10 ∷ rest) ≡ (line ∷ (split rest).0, (split rest).1)
      → strchr ((line ++ 10 ∷ rest) ++ zeros) 10 ≡ some (some (length line))
      → IsText rest
      → Cut zeros (line ++ 10 ∷ rest)

abbrev pub joined : ℕ → List (List ℕ) × List ℕ → List (List ℕ) × List ℕ
joined c r = elim r.0 [ [] ↦ ([], c ∷ r.1) | line ∷ more ↦ ((c ∷ line) ∷ more, r.1) ]

Cut-more :
    (c : ℕ) (cs zeros : List ℕ)
    → (c == 10) ≡ false
    → (c == 0) ≡ false
    → Cut zeros cs
    → Cut zeros (c ∷ cs)
unfolding split strchr
Cut-more c _ zeros other nonzero (no_end text whole found) =
    no_end (c ∷ text) (if_false _ _ other ∙ ap (joined c) whole) (rw (other, nonzero, found) refl)
Cut-more c _ zeros other nonzero (first_end line rest parts found t) =
    first_end (c ∷ line) rest (if_false _ _ other ∙ ap (joined c) parts)
      (rw (other, nonzero, found) refl) t

pub text-Cut : {text : List ℕ} (n : ℕ) → IsText text → Cut (0 ∷ replicate n 0) text
unfolding split strchr
text-Cut n no_byte = no_end [] refl refl
text-Cut n (one_byte c cs h t) = elim (Bool-cases (c == 10)) [
  | inl end ↦ let is : c ≡ 10 = ground arith in rw is (first_end [] cs refl refl t)
  | inr other ↦ Cut-more c cs (0 ∷ replicate n 0) other (ground arith) (text-Cut n t)
]

pub Iobuf-eq : {b c : Iobuf} → b.buf ≡ c.buf → b.cur ≡ c.cur → b ≡ c
Iobuf-eq e f = cc (e, f)

-- The shift in a buffer that holds a line, its end and a text.
pub shift-holding :
    (line rest : List ℕ)
    → length (line ++ 10 ∷ rest) ≤ 4096
    → shift (holding (line ++ 10 ∷ rest)) (length line) ≡ holding rest
unfolding shift
shift-holding line rest small =
    let len = length-append line (10 ∷ rest) in
    let n = 8192 - length (line ++ 10 ∷ rest) in
    let k = length line in
    let zeros = replicate {A = ℕ} n 0 in
    let cut : set ((line ++ 10 ∷ rest) ++ zeros) k 0 ≡ line ++ (0 ∷ (rest ++ zeros)) =
      ap (λ xs. set xs k 0) (append_assoc line (10 ∷ rest) zeros)
      ∙ set-append line 10 0 (rest ++ zeros) in
    let front : take (8191 - k) (drop (k + 1) (line ++ (0 ∷ (rest ++ zeros)))) ≡ rest ++ zeros =
      ap (take (8191 - k)) (drop-append line (0 ∷ (rest ++ zeros)) 1)
      ∙ take_all (8191 - k) (rest ++ zeros)
          (omega (arith, length-append rest zeros, length-replicate {A = ℕ} n 0, len)) in
    let back : drop (8191 - k) (line ++ (0 ∷ (rest ++ zeros))) ≡ replicate (k + 1) 0 =
      let m = 8191 - k - length (line ++ 0 ∷ rest) in
      let len' = length-append line (0 ∷ rest) in
      let from : 8191 - k ≡ length (line ++ 0 ∷ rest) + m = omega (arith, len, len') in
      let parts : n ≡ m + (k + 1) = omega (arith, len, len') in
      ap (λ xs. drop (8191 - k) xs) (sym (append_assoc line (0 ∷ rest) zeros))
      ∙ (ap (λ i. drop i ((line ++ 0 ∷ rest) ++ zeros)) from
          ∙ (drop-append (line ++ 0 ∷ rest) zeros m
              ∙ (ap (λ i. drop m (replicate {A = ℕ} i 0)) parts ∙ drop-replicate m (k + 1) 0))) in
    let all : take (8191 - k) (drop (k + 1) (line ++ (0 ∷ (rest ++ zeros))))
          ++ drop (8191 - k) (line ++ (0 ∷ (rest ++ zeros)))
        ≡ rest ++ replicate (8192 - length rest) 0 =
      let sum : n + (k + 1) ≡ 8192 - length rest = omega (arith, len) in
      rw (front, back)
        (append_assoc rest zeros (replicate (k + 1) 0)
          ∙ ap (λ xs. rest ++ xs)
              (replicate_add n (k + 1) 0 ∙ ap (λ i. replicate {A = ℕ} i 0) sum)) in
    Iobuf-eq (ap (λ xs. take (8191 - k) (drop (k + 1) xs) ++ drop (8191 - k) xs) cut ∙ all)
      (omega (arith, len))
