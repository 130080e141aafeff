-- ===== src/Scan.antt =====
-- What the program uses of scanf, atoi and printf: white space, words and decimal numbers. A text is a
-- list of bytes without a 0. `int`s are read without overflow.
pub mod Words
pub mod Numbers
use proj.Prelude.{
  ℕ, zero, suc, ◌+◌, ◌-◌, ◌*◌, ◌/◌, ◌%◌, Bool, true, false, not, ◌&&◌, ◌||◌, Option, none, some,
  List, [], ◌∷◌, ◌++◌, ltb, leb, ◌==◌, if◌then◌else◌, ◌>>=◌,
}
use proj.Prelude.Int.{ℤ, pos, negsuc}

-- `isspace` in the C locale.
abbrev pub is_space : ℕ → Bool
is_space c = leb 9 c && leb c 13 || c == 32

abbrev pub is_digit : ℕ → Bool
is_digit c = leb 48 c && leb c 57

-- The white space that a directive skips.
unfoldable pub skip_space : List ℕ → List ℕ
skip_space [] = []
skip_space (c ∷ cs) = let rest = skip_space cs in if is_space c then rest else c ∷ cs

-- The bytes that `%s` takes, at most `limit` of them, and what is left.
unfoldable pub take_word : ℕ → List ℕ → List ℕ × List ℕ
take_word zero cs = ([], cs)
take_word (suc limit) [] = ([], [])
take_word (suc limit) (c ∷ cs) =
    let (word, rest) = take_word limit cs in if is_space c then ([], c ∷ cs) else (c ∷ word, rest)

-- `%<limit>s`: `none` if there is no word.
unfoldable pub scan_word : ℕ → List ℕ → Option (List ℕ × List ℕ)
unfolding skip_space take_word
scan_word limit cs =
    let (word, rest) = take_word limit (skip_space cs) in
    elim word [ [] ↦ none | c ∷ w ↦ some (c ∷ w, rest) ]

-- The digits of a number, after those with the value `n`.
unfoldable pub scan_digits : ℕ → List ℕ → ℕ × List ℕ
scan_digits n [] = (n, [])
scan_digits n (c ∷ cs) =
    let more = scan_digits (n * 10 + (c - 48)) cs in if is_digit c then more else (n, c ∷ cs)

unfoldable pub scan_nat : List ℕ → Option (ℕ × List ℕ)
unfolding scan_digits
scan_nat [] = none
scan_nat (c ∷ cs) = if is_digit c then some (scan_digits 0 (c ∷ cs)) else none

abbrev pub negated : ℕ → ℤ
negated zero = pos 0
negated (suc n) = negsuc n

unfoldable pub scan_signed : List ℕ → Option (ℤ × List ℕ)
unfolding scan_nat
scan_signed [] = none
scan_signed (c ∷ cs) =
    if c == 45
    then (scan_nat cs >>= λ (n, rest). some (negated n, rest))
    else if c == 43
    then (scan_nat cs >>= λ (n, rest). some (pos n, rest))
    else (scan_nat (c ∷ cs) >>= λ (n, rest). some (pos n, rest))

-- `%d`.
unfoldable pub scan_int : List ℕ → Option (ℤ × List ℕ)
unfolding skip_space scan_signed
scan_int cs = scan_signed (skip_space cs)

unfoldable pub atoi : List ℕ → ℤ
unfolding scan_int
atoi cs = elim (scan_int cs) [ none ↦ pos 0 | some (n, rest) ↦ n ]

-- The digits of `n` in front of a text; the fuel bounds their number.
unfoldable pub digits : ℕ → ℕ → List ℕ → List ℕ
digits zero n rest = rest
digits (suc fuel) n rest =
    let more = digits fuel (n / 10) ((48 + n % 10) ∷ rest) in
    if ltb n 10 then (48 + n) ∷ rest else more

-- `%d` of printf, in front of a text.
unfoldable pub print_nat : ℕ → List ℕ → List ℕ
unfolding digits
print_nat n rest = digits (suc n) n rest
