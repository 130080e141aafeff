-- ===== src/Requestor/Overflow.antt =====
-- `finish_chunk` for a chunk whose offset in the output file is not an `int`.
use mathlib.Core.List.{flatten}
use native.Mathlib.Nat.{mod-eq_of_lt}
use proj.Prelude.{
  ℕ, ◌*◌, ◌%◌, ◌^◌, ◌≤◌, ◌<◌, ◌≡◌, refl, ap, ◌∙◌, not, true, false, some, ◌∷◌, arith, ltb, if_true,
  if_false,
}
use proj.Prelude.Int.{pos, eqb_ℤ, ◌-ℤ◌}
use proj.Wire.{Env, seek_offset}
use proj.Requestor.{ChunkStatus, Requestor}
use proj.Requestor.Receive.{accept_chunk, finish_file, settle}

-- A negative `int`, at which `fseek` fails.
seek_offset-zero : (i : ℕ) → 4096 ≤ i → i < 8192 → seek_offset i ≡ 0
unfolding seek_offset
seek_offset-zero i low high =
    let small : i * 524288 % 2 ^ 32 ≡ i * 524288 = mod-eq_of_lt (omega arith) in
    let large : ltb (i * 524288 % 2 ^ 32) (2 ^ 31) ≡ false = ground (arith, small) in
    if_false _ _ large

-- The output file can be opened again, and one chunk is left, with an index from 4096 to 8191 and the
-- right hash. Then `finish_chunk`, from the comparison of the hashes on, ends the download as complete,
-- although it has written the data of this chunk at the begin of the output file, over chunk 0.
pub settle_overflow :
    (req : Requestor) (i : ℕ) (c : ChunkStatus) (e : Env)
    → req.reopens ≡ true
    → req.left ≡ pos 1
    → 4096 ≤ i
    → i < 8192
    → (r : Requestor) × (settle req i c true e ≡ some (r, e))
      × (r.output ≡ (0, flatten c.data_buf) ∷ req.output)
      × (r.in_progress ≡ false)
unfolding settle accept_chunk finish_file ◌-ℤ◌
settle_overflow req i c e opens last low high =
    let none_left : eqb_ℤ (req.left -ℤ pos 1) (pos 0) ≡ true =
      ap (λ z. eqb_ℤ (z -ℤ pos 1) (pos 0)) last in
    (
      finish_file (accept_chunk req i c),
      if_false _ _ (ap not opens) ∙ if_true _ _ none_left,
      ap (λ at. (at, flatten c.data_buf) ∷ req.output) (seek_offset-zero i low high),
      refl,
    )
