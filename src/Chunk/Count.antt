-- ===== src/Chunk/Count.antt =====
-- `make_chunks`, and the size of the array that make_chunks.c allocates for it.
use proj.Prelude.{
  ℕ, zero, suc, ◌+◌, ◌-◌, ◌*◌, ◌/◌, ◌<◌, ◌≡◌, refl, inl, inr, List, [], ◌∷◌, arith, ltb, length,
  take, drop, min, length-drop, lt→ltb, Bool-cases, get_elem?, some, ◌∙◌, ap, sym,
}
use native.Mathlib.Nat.{zero-add, zero-mul, suc-mul, div-eq_of_lt}
use proj.Wire.{bt_chunk_size}
use proj.Chunk.{chunk_hashes, make_chunks, get_numchunks}

length-take : (n : ℕ) (xs : List ℕ) → length (take n xs) ≡ min n (length xs)
length-take zero xs = omega arith
length-take (suc n) [] = omega arith
length-take (suc n) (x ∷ xs) = omega (arith, length-take n xs)

-- One more block of `size` bytes makes one more chunk.
ceil-step :
    (n size : ℕ) → 0 < size → 0 < n → (n + (size - 1)) / size ≡ suc ((n - size + (size - 1)) / size)
ceil-step n size h k = grind arith

-- With fuel above the length of the rest, the loop makes as many hashes as the rest has chunks.
length-chunk_hashes :
    (shahash : List ℕ → List ℕ) (size fuel : ℕ) (rest : List ℕ)
    → 0 < size
    → length rest < fuel
    → length (chunk_hashes shahash size fuel rest) ≡ (length rest + (size - 1)) / size
unfolding chunk_hashes
length-chunk_hashes shahash size zero rest pos' enough = absurd (omega arith)
length-chunk_hashes shahash size (suc fuel) rest pos' enough =
    let taken = length-take size rest in
    elim (Bool-cases (ltb 0 (length (take size rest)))) [
      | inl more ↦
          let some' : 0 < length rest = ground (arith, taken) in
          rw more (
            ap suc (
              length-chunk_hashes shahash size fuel (drop size rest) pos'
                (omega (arith, length-drop size rest))
              ∙ ap (λ n. (n + (size - 1)) / size) (length-drop size rest))
            ∙ sym (ceil-step (length rest) size pos' some'))
      | inr done ↦
          let none' : length rest ≡ 0 = ground (arith, taken) in
          rw (done, none')
            (omega (arith, div-eq_of_lt {n = 0 + (size - 1)} {m = size} (omega arith)))
    ]

drop-nil : (n : ℕ) → drop {A = ℕ} n [] ≡ []
drop-nil zero = refl
drop-nil (suc n) = refl

pub drop-drop : (m n : ℕ) (xs : List ℕ) → drop n (drop m xs) ≡ drop (m + n) xs
drop-drop zero n xs = rw zero-add refl
drop-drop (suc m) n [] = rw (drop-nil n, drop-nil (suc m + n)) refl
drop-drop (suc m) n (x ∷ xs) =
    let on : suc (m + n) ≡ suc m + n = omega arith in
    drop-drop m n xs ∙ ap (λ k. drop k (x ∷ xs)) on

-- Hash number i is that of the i-th block of the file.
get_elem?-chunk_hashes :
    (shahash : List ℕ → List ℕ) (size fuel i : ℕ) (rest : List ℕ)
    → 0 < size
    → length rest < fuel
    → i * size < length rest
    → get_elem? (chunk_hashes shahash size fuel rest) i
      ≡ some (shahash (take size (drop (i * size) rest)))
unfolding chunk_hashes
get_elem?-chunk_hashes shahash size zero i rest pos' enough inside = absurd (omega arith)
get_elem?-chunk_hashes shahash size (suc fuel) zero rest pos' enough inside =
    rw (lt→ltb 0 (length (take size rest)) (omega (arith, length-take size rest)), zero-mul) refl
get_elem?-chunk_hashes shahash size (suc fuel) (suc i) rest pos' enough inside =
    let left : i * size < length (drop size rest) =
      omega (arith, length-drop size rest, suc-mul i size) in
    let on : size + i * size ≡ suc i * size = omega (arith, suc-mul i size) in
    rw (lt→ltb 0 (length (take size rest)) (omega (arith, length-take size rest, suc-mul i size))) (
      get_elem?-chunk_hashes shahash size fuel i (drop size rest) pos'
        (omega (arith, length-drop size rest)) left
      ∙ ap (λ xs. some (shahash (take size xs)))
          (drop-drop size (i * size) rest ∙ ap (λ k. drop k rest) on))

-- `make_chunks` stores as many hashes as `get_numchunks` says for a file of that length, and the
-- i-th of them is the hash of the file's i-th chunk.
pub make_chunks_lem :
    (shahash : List ℕ → List ℕ) (file : List ℕ)
    → (length (make_chunks shahash file) ≡ get_numchunks (length file))
      × ((i : ℕ)
          → i * bt_chunk_size < length file
          → get_elem? (make_chunks shahash file) i
            ≡ some (shahash (take bt_chunk_size (drop (i * bt_chunk_size) file))))
unfolding make_chunks get_numchunks
make_chunks_lem shahash file = (
  length-chunk_hashes shahash bt_chunk_size (suc (length file)) file (omega arith) (omega arith),
  λ i h.
      get_elem?-chunk_hashes shahash bt_chunk_size (suc (length file)) i file (omega arith)
        (omega arith) h,
)
