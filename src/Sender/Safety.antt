-- ===== src/Sender/Safety.antt =====
-- The first part of `ctl_udp_ack`, which counts an ACK, on a loaded sender.
use proj.Prelude.{
  ℕ, zero, suc, ◌+◌, ◌-◌, ◌≤◌, ◌<◌, ◌≡◌, refl, ◌∙◌, inl, inr, Bool, true, false, some, arith, leb,
  ◌==◌, ◌&&◌, if◌then◌else◌, lt→ltb, Bool-cases, max,
}
use proj.Prelude.Int.{◌-ℤ◌, ltb_ℤ, to_int}
use proj.Wire.{Env, my_get_time}
use proj.Sender.{Sender, wd_lost, wd_ack, check_from, check_too_near}
use proj.Sender.Ack.{resend_lost, count_duplicate, count_ack}
use proj.Sender.Invariant.{
  Window, Keeps, Keeps-trans, Window-later, Window-same, wd_lost-Window, wd_ack-Window,
  ctl_send-Window,
}

-- `check_too_near` reads loaded slots only.
check_from-total :
    {cap k : ℕ} {s : Sender} (n i ack_num : ℕ) (e : Env)
    → Window cap k s
    → s.head ≤ i
    → i + n ≡ s.tail
    → (near : Bool) × (e' : Env) × (check_from n i s ack_num e ≡ some (near, e'))
unfolding check_from
check_from-total zero i ack_num e w low end = (false, e, refl)
check_from-total {s = s} (suc n) i ack_num e w low end =
    let (slot, p, found, holds, seq, len) = w.loaded i low (omega arith) in
    let hit = p.header.seq_num == ack_num in
    let now = my_get_time e in
    let near = hit && ltb_ℤ (to_int now.0 -ℤ slot.sent_ts) s.rtt in
    elim (Bool-cases near) [
      | inl yes' ↦ (true, now.1, rw (found, holds, yes') refl)
      | inr no' ↦
          let (r, e', later) =
            check_from-total n (i + 1) ack_num (if hit then now.1 else e) w (omega arith)
              (omega arith) in
          (r, e', rw (found, holds, no') later)
    ]

-- The packet at the head is sent again in a window of one packet.
resend_lost-Window :
    {cap : ℕ} (s : Sender) (e : Env)
    → Window cap 0 s
    → cap ≤ 1484
    → s.last_ack_num ≡ s.head
    → s.head < s.tail
    → (t : Sender) × (e' : Env) × (resend_lost s e ≡ some (t, e'))
      × Window cap (s.head + 1) t
      × Keeps s t
      × (t.window_size ≡ 1)
unfolding resend_lost
resend_lost-Window {cap} s e w c acked busy =
    let (w1, k1, one) = wd_lost-Window e w in
    let s1 = (wd_lost s e).0 in
    let at = s1.last_ack_num in
    let here : at ≡ s.head = k1.last_ack_num ∙ acked in
    let (t, e', sent, w2, k2, same) =
      ctl_send-Window s1 at (wd_lost s e).1 (Window-later 0 at (omega arith) w1) c
        (omega (arith, k1.head)) (omega (arith, k1.tail)) in
    (
      t,
      e',
      sent,
      Window-later (at + 1) (s.head + 1) (omega arith) w2,
      Keeps-trans k1 k2,
      same ∙ one,
    )

-- What a sender looks like after the count of an ACK: the head may have been sent once more.
pub record Counted (cap : ℕ) (s t : Sender) (ack_num : ℕ) : Type 0 where
  pub window : Window cap (s.head + 1) t
  pub is_idle : t.is_idle ≡ s.is_idle
  pub peer : t.peer ≡ s.peer
  pub head : t.head ≡ s.head
  pub tail : t.tail ≡ s.tail
  pub acked : t.last_ack_num ≡ max s.last_ack_num ack_num
  pub repeats : t.last_ack_cnt < 3

Counted-same :
    {cap : ℕ} (s : Sender) (n : ℕ)
    → Window cap 0 s
    → n < 3
    → Counted cap s (record s { last_ack_cnt = n }) s.last_ack_num
Counted-same s n w few = record {
  window = Window-later 0 (s.head + 1) (omega arith) (
      Window-same (record s { last_ack_cnt = n }) w refl (omega arith) w.ordered refl w.window_pos
        w.threshold w.rtt_nonneg);
  is_idle = refl;
  peer = refl;
  head = refl;
  tail = refl;
  acked = omega arith;
  repeats = few;
}

-- A duplicate ACK, on all its branches.
count_duplicate-Counted :
    {cap : ℕ} (s : Sender) (e : Env)
    → Window cap 0 s
    → cap ≤ 1484
    → s.last_ack_num ≡ s.head
    → s.head < s.tail
    → s.last_ack_cnt < 3
    → (t : Sender) × (e' : Env) × (count_duplicate s s.last_ack_num e ≡ some (t, e'))
      × Counted cap s t s.last_ack_num
unfolding count_duplicate check_too_near
count_duplicate-Counted {cap} s e w c acked busy few =
    let w1 =
      Window-same (record s { last_ack_cnt = s.last_ack_cnt + 1 }) w refl (omega arith) w.ordered
        refl w.window_pos w.threshold w.rtt_nonneg in
    let w2 =
      Window-same (record s { last_ack_cnt = 0 }) w refl (omega arith) w.ordered refl w.window_pos
        w.threshold w.rtt_nonneg in
    let (near, e1, checked) =
      check_from-total (s.tail - s.head) s.head s.last_ack_num e w1 (omega arith) (omega arith) in
    elim (Bool-cases (leb 3 (s.last_ack_cnt + 1))) [
      | inr fewer ↦ (
        record s { last_ack_cnt = s.last_ack_cnt + 1 },
        e,
        rw fewer refl,
        Counted-same s (s.last_ack_cnt + 1) w (ground arith),
      )
      | inl third ↦ elim (Bool-cases near) [
        | inl soon ↦ (
          record s { last_ack_cnt = s.last_ack_cnt + 1 - 1 },
          e1,
          rw (third, checked, soon) refl,
          Counted-same s (s.last_ack_cnt + 1 - 1) w (omega arith),
        )
        | inr lost ↦
            let (t, e', sent, w3, k, one) = resend_lost-Window _ e1 w2 c acked busy in
            let room =
              lt→ltb s.last_ack_num (s.head + s.window_size) (omega (arith, w.window_pos)) in
            (
              t,
              e',
              rw (third, checked, lost, room) sent,
              record {
                window = w3;
                is_idle = k.is_idle;
                peer = k.peer;
                head = k.head;
                tail = k.tail;
                acked = omega (arith, k.last_ack_num);
                repeats = omega (arith, k.last_ack_cnt);
              },
            )
      ]
    ]

-- An ACK that counts: it is not older than the newest one.
pub count_ack-Counted :
    {cap : ℕ} (s : Sender) (ack_num : ℕ) (e : Env)
    → Window cap 0 s
    → cap ≤ 1484
    → s.last_ack_num ≡ s.head
    → s.head < s.tail
    → s.last_ack_cnt < 3
    → s.last_ack_num ≤ ack_num
    → (t : Sender) × (e' : Env) × (count_ack s ack_num e ≡ some (true, t, e'))
      × Counted cap s t ack_num
unfolding count_ack
count_ack-Counted {cap} s ack_num e w c acked busy few fresh =
    elim (Bool-cases (ack_num == s.last_ack_num)) [
      | inl again ↦
          let (t, e', counted, k) = count_duplicate-Counted s e w c acked busy few in
          let same : ack_num ≡ s.last_ack_num = ground arith in
          (t, e', rw (again, same, counted) refl, rw same k)
      | inr other ↦
          let s1 : Sender = record s { last_ack_num = ack_num; last_ack_cnt = 1 } in
          let w1 =
            Window-same s1 w refl (omega arith) w.ordered refl w.window_pos w.threshold
              w.rtt_nonneg in
          let (w2, k, _) = wd_ack-Window e w1 in
          let newer : s.last_ack_num < ack_num = ground arith in
          (
            (wd_ack s1 e).0,
            (wd_ack s1 e).1,
            rw (other, lt→ltb _ _ newer) refl,
            record {
              window = Window-later 0 (s.head + 1) (omega arith) w2;
              is_idle = k.is_idle;
              peer = k.peer;
              head = k.head;
              tail = k.tail;
              acked = omega (arith, k.last_ack_num);
              repeats = omega (arith, k.last_ack_cnt);
            },
          )
    ]
