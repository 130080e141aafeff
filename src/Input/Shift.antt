-- ===== src/Input/Shift.antt =====
-- The search for a line's end and the shift, in a buffer whose last byte is 0.
use proj.Prelude.{
  ℕ, zero, suc, ◌+◌, ◌-◌, ◌≤◌, ◌<◌, ◌≡◌, refl, ap, ◌∙◌, inl, inr, ◌⊎◌, none, some, List, [], ◌∷◌,
  ◌++◌, arith, length, get_elem?, set, take, drop, length-append, length-set, length-drop,
  length-take_le, get_elem?-set_ne, get_elem?-take, get_elem?-drop, get_elem?-append_left,
  get_elem?-append_right, ◌==◌, Bool-cases, true, false,
}
use proj.Input.{Iobuf, strchr, shift}

-- The buffer has its size, and its last byte is 0.
pub record Room (b : Iobuf) : Type 0 where
  pub size : length b.buf ≡ 8192
  pub last : get_elem? b.buf 8191 ≡ some 0

-- With a 0 at `z` the search ends, and what it finds is before `z`.
pub strchr_ends :
    (xs : List ℕ) (z : ℕ)
    → get_elem? xs z ≡ some 0
    → (strchr xs 10 ≡ some none) ⊎ ((k : ℕ) × (strchr xs 10 ≡ some (some k)) × (k < z))
unfolding strchr
strchr_ends [] z h = cc
strchr_ends (x ∷ xs) zero h =
    let nul : x ≡ 0 = ground arith in
    let other : (x == 10) ≡ false = ground arith in
    let end : (x == 0) ≡ true = ground arith in inl (rw (other, end) refl)
strchr_ends (x ∷ xs) (suc z) h = elim (Bool-cases (x == 10)) [
  | inl here ↦ inr (0, rw here refl, omega arith)
  | inr other ↦ elim (Bool-cases (x == 0)) [
    | inl end ↦ inl (rw (other, end) refl)
    | inr more ↦ elim (strchr_ends xs z h) [
      | inl no_line ↦ inl (rw (other, more, no_line) refl)
      | inr (k, found, before) ↦ inr (suc k, rw (other, more, found) refl, omega arith)
    ]
  ]
]

module _ (b : Iobuf) (room : Room b) (k : ℕ) (inside : k < 8191) where
  abbrev written : List ℕ
  written = set b.buf k 0

  length_front : length (take (8191 - k) (drop (k + 1) written)) ≡ 8191 - k
  length_front =
      length-take_le (8191 - k) (drop (k + 1) written)
        (omega (arith, length-drop (k + 1) written, length-set b.buf k 0, room.size))

  zero_stays : (z : ℕ) → get_elem? b.buf z ≡ some 0 → k < z → get_elem? written z ≡ some 0
  zero_stays z h before = get_elem?-set_ne b.buf k z 0 (omega arith) ∙ h

  -- A 0 behind the line's end moves with the bytes.
  pub shift-zero :
      (z : ℕ)
      → get_elem? b.buf z ≡ some 0
      → k < z
      → z ≤ 8191
      → get_elem? (shift b k).buf (z - (k + 1)) ≡ some 0
  unfolding shift
  shift-zero z h before last =
      let e : k + 1 + (z - (k + 1)) ≡ z = omega arith in
      get_elem?-append_left (take (8191 - k) (drop (k + 1) written)) (drop (8191 - k) written)
        (z - (k + 1)) (omega (arith, length_front))
      ∙ (get_elem?-take (8191 - k) (z - (k + 1)) (drop (k + 1) written) (omega arith)
          ∙ (get_elem?-drop (k + 1) (z - (k + 1)) written
              ∙ (ap (get_elem? written) e ∙ zero_stays z h before)))

  pub shift-Room : Room (shift b k)
  unfolding shift
  shift-Room = record {
    size = omega (
      arith,
      length-append (take (8191 - k) (drop (k + 1) written)) (drop (8191 - k) written),
      length_front,
      length-drop (8191 - k) written,
      length-set b.buf k 0,
      room.size,
    );
    last =
        let at : 8191 ≡ length (take (8191 - k) (drop (k + 1) written)) + k =
          omega (arith, length_front) in
        let e : 8191 - k + k ≡ 8191 = omega arith in
        ap (get_elem? (take (8191 - k) (drop (k + 1) written) ++ drop (8191 - k) written)) at
        ∙ (get_elem?-append_right (take (8191 - k) (drop (k + 1) written)) (drop (8191 - k) written)
              k
            ∙ (get_elem?-drop (8191 - k) k written
                ∙ (ap (get_elem? written) e ∙ zero_stays 8191 room.last inside)));
  }
