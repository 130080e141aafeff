-- ===== src/Requestor/Distinct.antt =====
-- Lists of different peers, as the array of providers of a chunk.
use proj.Prelude.{
  ℕ, zero, suc, ◌≤◌, ◌<◌, ◌≡◌, refl, inl, inr, Bool, true, false, not, ◌&&◌, some, List, [], ◌∷◌,
  ◌++◌, arith, length, get_elem?, Bool-cases, ltb, ◌==◌, if◌then◌else◌,
}
use proj.Requestor.Receive.{contains}

-- No peer is twice in the list.
unfoldable pub distinct : List ℕ → Bool
distinct [] = true
distinct (p ∷ ps) = not (contains ps p) && distinct ps

unfoldable below : ℕ → List ℕ → Bool
below n [] = true
below n (p ∷ ps) = ltb p n && below n ps

unfoldable remove : ℕ → List ℕ → List ℕ
remove n [] = []
remove n (p ∷ ps) = if p == n then remove n ps else p ∷ remove n ps

remove-absent : (n : ℕ) (ps : List ℕ) → contains ps n ≡ false → remove n ps ≡ ps
unfolding remove contains
remove-absent n [] h = refl
remove-absent n (p ∷ ps) h = ground (arith, remove-absent n ps)

contains-remove : (n q : ℕ) (ps : List ℕ) → contains ps q ≡ false → contains (remove n ps) q ≡ false
unfolding remove contains
contains-remove n q [] h = refl
contains-remove n q (p ∷ ps) h = ground (arith, contains-remove n q ps)

distinct-remove : (n : ℕ) (ps : List ℕ) → distinct ps ≡ true → distinct (remove n ps) ≡ true
unfolding remove distinct
distinct-remove n [] h = refl
distinct-remove n (p ∷ ps) h = ground (arith, distinct-remove n ps, contains-remove n p ps)

below-remove : (n : ℕ) (ps : List ℕ) → below (suc n) ps ≡ true → below n (remove n ps) ≡ true
unfolding remove below
below-remove n [] h = refl
below-remove n (p ∷ ps) h = ground (arith, below-remove n ps)

length-remove : (n : ℕ) (ps : List ℕ) → distinct ps ≡ true → length ps ≤ suc (length (remove n ps))
unfolding remove distinct
length-remove n [] h = omega arith
length-remove n (p ∷ ps) h = elim (Bool-cases (p == n)) [
  | inl here ↦ ground (arith, remove-absent n ps)
  | inr there ↦ ground (arith, length-remove n ps)
]

distinct-below : (n : ℕ) (ps : List ℕ) → distinct ps ≡ true → below n ps ≡ true → length ps ≤ n
unfolding below
distinct-below zero [] d b = omega arith
distinct-below zero (p ∷ ps) d b = ground arith
distinct-below (suc n) ps d b = omega (
  arith,
  length-remove n ps d,
  distinct-below n (remove n ps) (distinct-remove n ps d) (below-remove n ps b),
)

below-known :
    (n : ℕ) (ps : List ℕ) → ((k p : ℕ) → get_elem? ps k ≡ some p → p < n) → below n ps ≡ true
unfolding below
below-known n [] h = refl
below-known n (p ∷ ps) h = ground (arith, h 0 p refl, below-known n ps (λ k. h (suc k)))

-- Another peer always has a place in an array for n peers.
pub distinct-room :
    (n peer : ℕ) (ps : List ℕ)
    → distinct ps ≡ true
    → ((k p : ℕ) → get_elem? ps k ≡ some p → p < n)
    → contains ps peer ≡ false
    → peer < n
    → length ps < n
unfolding distinct below
distinct-room n peer ps d h new inside =
    distinct-below n (peer ∷ ps) (ground arith) (ground (arith, below-known n ps h))

contains-snoc :
    (ps : List ℕ) (peer q : ℕ)
    → contains ps q ≡ false
    → (peer == q) ≡ false
    → contains (ps ++ peer ∷ []) q ≡ false
unfolding contains
contains-snoc [] peer q h ne = ground arith
contains-snoc (p ∷ ps) peer q h ne = ground (arith, contains-snoc ps peer q)

pub distinct-snoc :
    (ps : List ℕ) (peer : ℕ)
    → distinct ps ≡ true
    → contains ps peer ≡ false
    → distinct (ps ++ peer ∷ []) ≡ true
unfolding distinct contains
distinct-snoc [] peer d h = refl
distinct-snoc (p ∷ ps) peer d h =
    let other : (peer == p) ≡ false = ground arith in
    let once : contains ps p ≡ false = ground arith in
    ground (arith, distinct-snoc ps peer, contains-snoc ps peer p once other)

pub get_elem?-snoc :
    (n : ℕ) (ps : List ℕ) (peer : ℕ)
    → ((k p : ℕ) → get_elem? ps k ≡ some p → p < n)
    → peer < n
    → (k p : ℕ) → get_elem? (ps ++ peer ∷ []) k ≡ some p
    → p < n
get_elem?-snoc n [] peer known inside zero p h = ground arith
get_elem?-snoc n [] peer known inside (suc k) p h = cc
get_elem?-snoc n (x ∷ ps) peer known inside zero p h = known 0 p h
get_elem?-snoc n (x ∷ ps) peer known inside (suc k) p h =
    get_elem?-snoc n ps peer (λ j. known (suc j)) inside k p h
