-- ===== src/Chunk/Hex.antt =====
-- Hashes as text: `binary2hex` and `hex2binary` of chunk.c.
use Prim.Native.Nat.{bit_or}
use proj.Prelude.{
  ℕ, zero, suc, ◌+◌, ◌*◌, ◌/◌, ◌%◌, ◌<◌, ◌≡◌, refl, ap, ◌∙◌, some, Bool, true, ◌&&◌, List, [], ◌∷◌,
  arith, ◌==◌, length,
}
use proj.Chunk.{hex_digit, binary2hex, hex_value, hex_pairs, hex2binary}
use mathlib.Core.Path.{ap₂}

all_below : ℕ → (ℕ → Bool) → Bool
all_below zero p = true
all_below (suc n) p = p n && all_below n p

all_below-at : (n : ℕ) (p : ℕ → Bool) (x : ℕ) → all_below n p ≡ true → x < n → p x ≡ true
unfolding all_below
all_below-at zero p x h lt = absurd (omega arith)
all_below-at (suc n) p x h lt = ground (arith, all_below-at n p x)

pair_table :
    all_below 256 (λ x.
      bit_or (hex_value (hex_digit (x / 16)) * 16) (hex_value (hex_digit (x % 16))) % 256 == x)
    ≡ true
unfolding all_below hex_value
pair_table = refl

pair_value :
    (x : ℕ)
    → x < 256
    → bit_or (hex_value (hex_digit (x / 16)) * 16) (hex_value (hex_digit (x % 16))) % 256 ≡ x
pair_value x h = ground (arith, all_below-at 256 _ x pair_table h)

-- All entries are bytes.
abbrev pub IsBytes : List ℕ → Type 0
IsBytes [] = Unit {0}
IsBytes (x ∷ xs) = (x < 256) × IsBytes xs

hex_pairs-binary2hex :
    (buf : List ℕ) → IsBytes buf → hex_pairs (length buf) (binary2hex buf) ≡ some buf
unfolding hex_pairs binary2hex
hex_pairs-binary2hex [] h = refl
hex_pairs-binary2hex (x ∷ xs) h =
    rw (hex_pairs-binary2hex xs h.1) (ap (λ y. some (y ∷ xs)) (pair_value x h.0))

-- The text of n bytes, read over its 2n digits, gives the bytes back.
pub hex2binary-binary2hex :
    (buf : List ℕ) → IsBytes buf → hex2binary (binary2hex buf) (2 * length buf) ≡ some buf
unfolding hex2binary
hex2binary-binary2hex buf h =
    ap (λ n. hex_pairs n (binary2hex buf)) (omega arith) ∙ hex_pairs-binary2hex buf h

-- The text has two characters for each byte, and a 0.
pub length-binary2hex : (buf : List ℕ) → length (binary2hex buf) ≡ 2 * length buf + 1
unfolding binary2hex
length-binary2hex [] = refl
length-binary2hex (x ∷ xs) = omega (arith, length-binary2hex xs)

-- Two strings of bytes of the same length with the same text are the same.
pub binary2hex-injective :
    (xs ys : List ℕ)
    → IsBytes xs
    → IsBytes ys
    → binary2hex xs ≡ binary2hex ys
    → length xs ≡ length ys
    → xs ≡ ys
binary2hex-injective xs ys h k e l =
    cc (hex_pairs-binary2hex xs h, hex_pairs-binary2hex ys k, ap₂ hex_pairs l e)
