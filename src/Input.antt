-- ===== src/Input.antt =====
-- input_buffer.c: the buffer that gathers what is typed until a line is complete. What a handler of a
-- line does is a parameter; a `none` is its fault, or a search behind the end of the buffer.
pub mod Shift
pub mod Lines
pub mod Split
pub mod Session
pub mod Pieces
use proj.Prelude.{
  ℕ, zero, suc, ◌+◌, ◌-◌, ◌%◌, ◌^◌, Bool, Option, none, some, List, [], ◌∷◌, ◌++◌, leb, ◌==◌,
  if◌then◌else◌, ◌>>=◌, length, set, take, drop, replicate,
}

abbrev pub userbuf_size : ℕ
userbuf_size = 8191

-- `struct user_iobuf`. The buffer has one byte more than `userbuf_size`.
pub record Iobuf : Type 0 where
  pub buf : List ℕ
  pub cur : ℕ

-- There is memory for it.
unfoldable pub create_userbuf : Iobuf
create_userbuf = record { buf = replicate (userbuf_size + 1) 0; cur = 0 }

-- `strchr`: the index of the first `c` in the text that a 0 ends. The outer `none` is a search that
-- runs behind the end of the array.
unfoldable pub strchr : List ℕ → ℕ → Option (Option ℕ)
strchr [] c = none
strchr (x ∷ xs) c =
    let rest = strchr xs c in
    if x == c
    then some (some 0)
    else if x == 0
    then some none
    else (rest >>= λ found. some (elim found [ none ↦ none | some k ↦ some (suc k) ]))

-- The line end at `k` is overwritten, and what is behind it moves to the front: the last bytes of the
-- buffer stay where they are as well.
unfoldable pub shift : Iobuf → ℕ → Iobuf
shift b k =
    let buf = set b.buf k 0 in
    let count = userbuf_size - k in
    record {
      buf = take count (drop (k + 1) buf) ++ drop count buf;
      cur = (b.cur + (2 ^ 32 - (k + 1))) % 2 ^ 32;
    }

-- What `process_user_input` comes to: it ends the program, or returns -1, or 0.
pub data Reading {ℓ} (A : Type ℓ) : Type ℓ where
  too_long : Reading A
  at_end : A → Reading A
  taken : Iobuf → A → Reading A

module _ {ℓ} {A : Type ℓ} (handle_line : A → List ℕ → Option A) where
  -- The loop over the lines; the fuel bounds the rounds.
  unfoldable pub take_lines : ℕ → Iobuf → A → Option (Iobuf × A)
  take_lines zero b s = none
  take_lines (suc fuel) b s = strchr b.buf 10 >>= λ found. elim found [
    | none ↦ some (b, s)
    | some k ↦ handle_line s (take k b.buf) >>= λ s1. take_lines fuel (shift b k) s1
  ]

  -- `bytes` are what `read` delivers, at most as many as were asked for: none at the end of the input
  -- or after an error.
  unfoldable pub process_user_input : Iobuf → List ℕ → A → Option (Reading A)
  process_user_input b bytes s =
      let typed = take (userbuf_size - b.cur) bytes in
      let b1 : Iobuf = record {
        buf = take b.cur b.buf ++ (typed ++ drop (b.cur + length typed) b.buf);
        cur = b.cur + length typed;
      } in
      let handled = take_lines (userbuf_size + 2) b1 s >>= λ (b2, s1). some (taken b2 s1) in
      if leb (userbuf_size - 1) b.cur
      then some too_long
      else if leb (length typed) 0
      then some (at_end s)
      else handled
