-- ===== src/Sender/Clock.antt =====
-- `check_too_near` keeps the clock, a `long`, in an `int`.
use native.Mathlib.Decide.{ℕ_discrete}
use proj.Prelude.{
  ℕ, zero, suc, ◌+◌, ◌-◌, ◌%◌, ◌^◌, ◌≤◌, ◌<◌, ◌≡◌, refl, sym, ap, ◌∙◌, ◌⊎◌, inl, inr, true, false,
  some, arith, ltb, ◌==◌, get_elem?, lt→ltb, eq→==, ne→==, some-eq, subst,
}
use proj.Prelude.Int.{ℤ, pos, negsuc, ◌-ℤ◌, ◌≤ℤ◌, ltb_ℤ, to_int, pos_part, neg_part, -ℤ_parts}
use proj.Wire.{Env, my_get_time}
use proj.Sender.{Slot, Sender, check_from, check_too_near}
use proj.Sender.Invariant.{Window}

-- One of the two parts of a number is 0.
part : (a : ℤ) → (pos_part a ≡ 0) ⊎ (neg_part a ≡ 0)
part (pos n) = inr refl
part (negsuc n) = inl refl

-- A clock between 2^31 and 2^32 microseconds is negative as an `int`, and so earlier than any time
-- stamp.
to_int-overflow : (n : ℕ) → 2 ^ 31 ≤ n → n < 2 ^ 32 → to_int (pos n) ≡ negsuc (2 ^ 32 - n - 1)
unfolding to_int
to_int-overflow n low high =
    let small : n % 2 ^ 32 ≡ n = omega arith in
    let big : ltb n (2 ^ 31) ≡ false = ground arith in simp (small, big)

overflow :
    (n : ℕ) (sent_ts rtt : ℤ)
    → 2 ^ 31 ≤ n
    → n < 2 ^ 32
    → pos 0 ≤ℤ sent_ts
    → pos 0 ≤ℤ rtt
    → ltb_ℤ (to_int (pos n) -ℤ sent_ts) rtt ≡ true
overflow n sent_ts rtt low high ts r =
    let now = negsuc (2 ^ 32 - n - 1) in
    rw (to_int-overflow n low high) (
      lt→ltb _ _
        (omega (arith, -ℤ_parts now sent_ts, part (now -ℤ sent_ts), part sent_ts, part rtt)))

check_from-overflow :
    {cap : ℕ} (rounds i : ℕ) (s : Sender) (ack_num n : ℕ) (slot : Slot) (e : Env)
    → Window cap 0 s
    → s.head ≤ i
    → i ≤ ack_num
    → ack_num < i + rounds
    → i + rounds ≡ s.tail
    → get_elem? s.pkt_buf ack_num ≡ some slot
    → pos 0 ≤ℤ slot.sent_ts
    → (my_get_time e).0 ≡ pos n
    → 2 ^ 31 ≤ n
    → n < 2 ^ 32
    → check_from rounds i s ack_num e ≡ some (true, (my_get_time e).1)
unfolding check_from
check_from-overflow zero i s ack_num n slot e w head low high end at ts now big small =
    absurd (omega arith)
check_from-overflow {cap} (suc rounds) i s ack_num n slot e w head low high end at ts now big
      small =
    let (x, p, found, holds, seq, len) = w.loaded i head (omega arith) in
    elim (ℕ_discrete i ack_num) [
      | yes here ↦
          let one : slot ≡ x =
            some-eq slot x (sym at ∙ (ap (get_elem? s.pkt_buf) (sym here) ∙ found)) in
          let hit : (p.header.seq_num == ack_num) ≡ true = eq→== _ _ (seq ∙ here) in
          let near =
            overflow n x.sent_ts s.rtt big small (subst (λ (y : Slot). pos 0 ≤ℤ y.sent_ts) one ts)
              w.rtt_nonneg in
          rw found (simp (holds, hit, now, near))
      | no there ↦
          let miss : (p.header.seq_num == ack_num) ≡ false = ne→== _ _ (λ h. there (sym seq ∙ h)) in
          let rest =
            check_from-overflow rounds (i + 1) s ack_num n slot e w (omega arith) (omega arith)
              (omega arith) (omega arith) at ts now big small in
          rw found (simp (holds, miss, rest))
    ]

-- The clock is between 2^31 and 2^32 microseconds (35 to 71 minutes after the start), and a packet
-- in the window of a well-formed sender was sent at a time that is not negative. Then it counts as
-- sent too recently to be sent again, however long ago that was.
pub check_too_near-overflow :
    {cap : ℕ} (s : Sender) (ack_num n : ℕ) (slot : Slot) (e : Env)
    → Window cap 0 s
    → s.head ≤ ack_num
    → ack_num < s.tail
    → get_elem? s.pkt_buf ack_num ≡ some slot
    → pos 0 ≤ℤ slot.sent_ts
    → (my_get_time e).0 ≡ pos n
    → 2 ^ 31 ≤ n
    → n < 2 ^ 32
    → check_too_near s ack_num e ≡ some (true, (my_get_time e).1)
unfolding check_too_near
check_too_near-overflow s ack_num n slot e w low high at ts now big small =
    check_from-overflow (s.tail - s.head) s.head s ack_num n slot e w (omega arith) low
      (omega arith) (omega arith) at ts now big small
