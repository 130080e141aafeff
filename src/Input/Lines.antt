-- ===== src/Input/Lines.antt =====
-- `process_user_input` makes no fault and its loop ends, whatever is typed.
use proj.Prelude.{
  ℕ, zero, suc, ◌+◌, ◌-◌, ◌≤◌, ◌<◌, ◌≡◌, refl, ap, ◌∙◌, inl, inr, Option, some, List, [], ◌∷◌, ◌++◌,
  arith, length, get_elem?, take, drop, length-append, length-drop, length-take_le,
  length-replicate, get_elem?-replicate, get_elem?-drop, get_elem?-append_right, leb, leb→lt,
  Bool-cases,
}
use proj.Input.{
  Iobuf, Reading, too_long, at_end, taken, create_userbuf, shift, take_lines, process_user_input,
}
use proj.Input.Shift.{Room, strchr_ends, shift-zero, shift-Room}

pub create_userbuf-Room : Room create_userbuf
unfolding create_userbuf
create_userbuf-Room = record {
  size = length-replicate {A = ℕ} 8192 0;
  last = get_elem?-replicate {A = ℕ} 8192 8191 0 (omega arith);
}

-- What is typed goes over the bytes from `cur` on.
abbrev pub filled : Iobuf → List ℕ → Iobuf
filled b typed = record {
  buf = take b.cur b.buf ++ (typed ++ drop (b.cur + length typed) b.buf);
  cur = b.cur + length typed;
}

pub filled-Room :
    (b : Iobuf) (typed : List ℕ) → Room b → b.cur + length typed ≤ 8191 → Room (filled b typed)
filled-Room b typed room fits =
    let front = take b.cur b.buf in
    let rest = drop (b.cur + length typed) b.buf in
    let front_len : length front ≡ b.cur = length-take_le b.cur b.buf (omega (arith, room.size)) in
    let rest_len = length-drop (b.cur + length typed) b.buf in
    record {
      size = omega (
        arith,
        length-append front (typed ++ rest),
        length-append typed rest,
        front_len,
        rest_len,
        room.size,
      );
      last =
          let i = 8191 - (b.cur + length typed) in
          let outer : 8191 ≡ length front + (length typed + i) = omega (arith, front_len) in
          let inner : b.cur + length typed + i ≡ 8191 = omega arith in
          ap (get_elem? (front ++ (typed ++ rest))) outer
          ∙ (get_elem?-append_right front (typed ++ rest) (length typed + i)
              ∙ (get_elem?-append_right typed rest i
                  ∙ (get_elem?-drop (b.cur + length typed) i b.buf
                      ∙ (ap (get_elem? b.buf) inner ∙ room.last))));
    }

length-take-lim : (n : ℕ) (xs : List ℕ) → length (take n xs) ≤ n
length-take-lim zero xs = omega arith
length-take-lim (suc n) [] = omega arith
length-take-lim (suc n) (x ∷ xs) = omega (arith, length-take-lim n xs)

-- What is left after a reading.
pub data Left {ℓ ℓ'} {A : Type ℓ} (Ok : A → Type ℓ') : Reading A → Type (ℓ ⊔ ℓ') where
  gives_up : Left Ok too_long
  closed : (s : A) → Ok s → Left Ok (at_end s)
  goes_on : (b : Iobuf) (s : A) → Room b → Ok s → Left Ok (taken b s)

module _ {ℓ ℓ'} {A : Type ℓ} (Ok : A → Type ℓ') (handle_line : A → List ℕ → Option A)
    (handles : (s : A) (line : List ℕ)
      → Ok s
      → (s1 : A) × (handle_line s line ≡ some s1) × Ok s1) where
  -- With a 0 at `z` there are at most `z` lines.
  take_lines-total :
      (fuel z : ℕ) (b : Iobuf) (s : A)
      → Room b
      → get_elem? b.buf z ≡ some 0
      → z < fuel
      → z ≤ 8191
      → Ok s
      → (b' : Iobuf) × (s' : A) × (take_lines handle_line fuel b s ≡ some (b', s'))
        × Room b'
        × Ok s'
  unfolding take_lines
  take_lines-total zero z b s room nul enough inside ok = absurd (omega arith)
  take_lines-total (suc fuel) z b s room nul enough inside ok = elim (strchr_ends b.buf z nul) [
    | inl no_line ↦ (b, s, rw no_line refl, room, ok)
    | inr (k, found, before) ↦
        let (s1, runs, ok1) = handles s (take k b.buf) ok in
        let (b', s', more, room', ok') =
          take_lines-total fuel (z - (k + 1)) (shift b k) s1 (shift-Room b room k (omega arith))
            (shift-zero b room k (omega arith) z nul before inside) (omega arith) (omega arith)
            ok1 in
        (b', s', rw (found, runs) more, room', ok')
  ]

  -- The buffer has 8192 bytes, the last of which is 0, and what the handler of a line asks for holds;
  -- the handler makes no fault then, and keeps it. Then, whatever bytes are typed, `process_user_input`
  -- makes no fault and its loop ends. If it does not end the program, what the handler asks for holds
  -- again, and the buffer has its size and its last 0 again.
  pub process_user_input-Left :
      (b : Iobuf) (bytes : List ℕ) (s : A)
      → Room b
      → Ok s
      → (r : Reading A) × (process_user_input handle_line b bytes s ≡ some r) × Left Ok r
  unfolding process_user_input
  process_user_input-Left b bytes s room ok =
      let typed = take (8191 - b.cur) bytes in
      elim (Bool-cases (leb 8190 b.cur)) [
        | inl full ↦ (too_long, rw full refl, gives_up)
        | inr free ↦ elim (Bool-cases (leb (length typed) 0)) [
          | inl none' ↦ (at_end s, rw (free, none') refl, closed s ok)
          | inr some' ↦
              let inside : b.cur + length typed ≤ 8191 =
                omega (arith, leb→lt 8190 b.cur free, length-take-lim (8191 - b.cur) bytes) in
              let room1 = filled-Room b typed room inside in
              let (b', s', all, room', ok') =
                take_lines-total 8193 8191 (filled b typed) s room1 room1.last (omega arith)
                  (omega arith) ok in
              (taken b' s', rw (free, some', all) refl, goes_on b' s' room' ok')
        ]
      ]
