-- ===== src/Scan/Numbers.antt =====
-- Decimal numbers: what is printed is read back.
use proj.Prelude.{
  ℕ, zero, suc, ◌+◌, ◌-◌, ◌*◌, ◌/◌, ◌%◌, ◌<◌, ◌≡◌, refl, sym, ap, ◌∙◌, inl, inr, true, false, some,
  List, [], ◌∷◌, ◌++◌, arith, Bool-cases, ltb, ◌==◌,
}
use proj.Prelude.Int.{pos}
use proj.Scan.Words.{IsWord, no_byte, one_byte}
use proj.Scan.{is_space, is_digit, skip_space, scan_digits, scan_nat, scan_int, digits, print_nat}

-- The text begins with a digit.
pub data Digit : List ℕ → Type 0 where
  digit : (c : ℕ) (cs : List ℕ) → is_digit c ≡ true → Digit (c ∷ cs)

-- After the number comes no further digit.
pub data Stops : List ℕ → Type 0 where
  at_end : Stops []
  at_other : (c : ℕ) (cs : List ℕ) → is_digit c ≡ false → Stops (c ∷ cs)

pub digits-Digit : (fuel n : ℕ) (rest : List ℕ) → n < fuel → Digit (digits fuel n rest)
unfolding digits
digits-Digit zero n rest h = absurd (omega arith)
digits-Digit (suc fuel) n rest h = elim (Bool-cases (ltb n 10)) [
  | inl small ↦ rw small (digit (48 + n) rest (ground arith))
  | inr large ↦ rw large (digits-Digit fuel (n / 10) ((48 + n % 10) ∷ rest) (ground arith))
]

scan_digits-digits :
    (fuel n : ℕ) (rest : List ℕ)
    → n < fuel
    → scan_digits 0 (digits fuel n rest) ≡ scan_digits n rest
unfolding scan_digits digits
scan_digits-digits zero n rest h = absurd (omega arith)
scan_digits-digits (suc fuel) n rest h = elim (Bool-cases (ltb n 10)) [
  | inl small ↦
      let d : is_digit (48 + n) ≡ true = ground arith in
      let v : 0 * 10 + (48 + n - 48) ≡ n = omega arith in rw (small, d, v) refl
  | inr large ↦
      let d : is_digit (48 + n % 10) ≡ true = ground arith in
      let v : n / 10 * 10 + (48 + n % 10 - 48) ≡ n = omega arith in
      rw (large, scan_digits-digits fuel (n / 10) ((48 + n % 10) ∷ rest) (ground arith), d, v) refl
]

scan_digits-Stops : (n : ℕ) (rest : List ℕ) → Stops rest → scan_digits n rest ≡ (n, rest)
unfolding scan_digits
scan_digits-Stops n _ at_end = refl
scan_digits-Stops n _ (at_other c cs h) = rw h refl

scan_int-Digit :
    (cs : List ℕ) → Digit cs → scan_int cs ≡ some (pos (scan_digits 0 cs).0, (scan_digits 0 cs).1)
unfolding scan_int scan_nat
scan_int-Digit _ (digit c cs d) =
    let s : is_space c ≡ false = ground arith in
    let minus : (c == 45) ≡ false = ground arith in
    let plus : (c == 43) ≡ false = ground arith in rw (s, minus, plus, d) refl

-- A number that was printed in front of something else than a digit is read back.
pub scan_int-print_nat :
    (n : ℕ) (rest : List ℕ) → Stops rest → scan_int (print_nat n rest) ≡ some (pos n, rest)
unfolding print_nat
scan_int-print_nat n rest h =
    scan_int-Digit (digits (suc n) n rest) (digits-Digit (suc n) n rest (omega arith))
    ∙ ap (λ (r : ℕ × List ℕ). some (pos r.0, r.1))
        (scan_digits-digits (suc n) n rest (omega arith) ∙ scan_digits-Stops n rest h)

-- Printing in front of a text.
digits-append : (fuel n : ℕ) (xs ys : List ℕ) → digits fuel n (xs ++ ys) ≡ digits fuel n xs ++ ys
unfolding digits
digits-append zero n xs ys = refl
digits-append (suc fuel) n xs ys = elim (Bool-cases (ltb n 10)) [
  | inl small ↦ rw small refl
  | inr large ↦ rw large (digits-append fuel (n / 10) ((48 + n % 10) ∷ xs) ys)
]

pub print_nat-append : (n : ℕ) (ys : List ℕ) → print_nat n [] ++ ys ≡ print_nat n ys
unfolding print_nat
print_nat-append n ys = sym (digits-append (suc n) n [] ys)

digits-IsWord : (fuel n : ℕ) (w : List ℕ) → IsWord w → IsWord (digits fuel n w)
unfolding digits
digits-IsWord zero n w h = h
digits-IsWord (suc fuel) n w h = elim (Bool-cases (ltb n 10)) [
  | inl small ↦ rw small (one_byte (48 + n) w (ground arith) h)
  | inr large ↦
      rw large (
        digits-IsWord fuel (n / 10) ((48 + n % 10) ∷ w) (one_byte (48 + n % 10) w (ground arith) h))
]

pub print_nat-IsWord : (n : ℕ) → IsWord (print_nat n [])
unfolding print_nat
print_nat-IsWord n = digits-IsWord (suc n) n [] no_byte

pub print_nat-Digit : (n : ℕ) (rest : List ℕ) → Digit (print_nat n rest)
unfolding print_nat
print_nat-Digit n rest = digits-Digit (suc n) n rest (omega arith)

pub scan_int-space : (cs : List ℕ) → scan_int (32 ∷ cs) ≡ scan_int cs
unfolding scan_int skip_space
scan_int-space cs = refl
