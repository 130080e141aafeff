-- ===== src/Sender/Shift.antt =====
-- The two loops of `ctl_udp_ack`: the one that moves the head and the one that sends.
use proj.Prelude.{
  ℕ, zero, suc, ◌+◌, ◌-◌, ◌≤◌, ◌<◌, ◌≡◌, refl, ap, ◌∙◌, inl, inr, some, arith, ltb, ◌==◌, set,
  length-set, get_elem?-set_ne, Bool-cases, min, max,
}
use proj.Wire.{Env}
use proj.Sender.{Slot, Sender, update_rtt}
use proj.Sender.Ack.{release, shift_from, fill_from}
use proj.Sender.Invariant.{
  Window, Keeps, Keeps-refl, Keeps-trans, update_rtt-Window, ctl_send-Window,
}

-- The slot at the head may be emptied when the head moves on.
Window-drop :
    {cap k : ℕ} (s : Sender) (i : ℕ) (slot : Slot)
    → Window cap k (record s { head = i })
    → i < s.tail
    → Window cap k (record s { pkt_buf = set s.pkt_buf i slot; head = i + 1 })
Window-drop s i slot w h = record {
  size = length-set s.pkt_buf i slot ∙ w.size;
  ordered = omega arith;
  fits = w.fits;
  window_pos = w.window_pos;
  threshold = w.threshold;
  rtt_nonneg = w.rtt_nonneg;
  loaded =
      λ j a b. rw (get_elem?-set_ne s.pkt_buf i j slot (omega arith)) (w.loaded j (omega arith) b);
}

release-Window :
    {cap k : ℕ} (s : Sender) (i : ℕ) (slot : Slot) (e : Env)
    → Window cap k (record s { head = i })
    → i < s.tail
    → let t = (release s i slot e).0 in
      Window cap k (record t { head = i + 1 }) × Keeps s t × (t.window_size ≡ s.window_size)
unfolding release update_rtt
release-Window s i slot e w h = elim (Bool-cases (slot.ack + 1 == 1)) [
  | inl first ↦ rw first (
    Window-drop (update_rtt s slot.sent_ts e).0 i _ (update_rtt-Window slot.sent_ts e w) h,
    ground arith,
    refl,
  )
  | inr again ↦ rw again (Window-drop s i _ w h, ground arith, refl)
]

-- The head moves to the first packet that the ACK does not cover.
pub shift_from-Window :
    {cap k : ℕ} (n i : ℕ) (s : Sender) (ack_num : ℕ) (e : Env)
    → Window cap k (record s { head = i })
    → i + n ≡ s.tail
    → (t : Sender) × (e' : Env) × (shift_from n i s ack_num e
        ≡ some (max i (min ack_num s.tail), t, e'))
      × Window cap k (record t { head = max i (min ack_num s.tail) })
      × Keeps s t
      × (t.window_size ≡ s.window_size)
unfolding shift_from
shift_from-Window zero i s ack_num e w end =
    let here : max i (min ack_num s.tail) ≡ i = omega arith in
    (s, e, rw here refl, rw here w, Keeps-refl s, refl)
shift_from-Window {k = k} (suc n) i s ack_num e w end =
    let (slot, p, found, holds, seq, len) = w.loaded i (omega arith) (omega arith) in
    let (w1, k1, same1) = release-Window s i slot e w (omega arith) in
    elim (Bool-cases (ltb p.header.seq_num ack_num)) [
      | inl covered ↦
          let below : i < ack_num = ground arith in
          let (t, e', shifted, w2, k2, same2) =
            shift_from-Window n (i + 1) (release s i slot e).0 ack_num (release s i slot e).1 w1
              (omega (arith, k1.tail)) in
          let there : max (i + 1) (min ack_num (release s i slot e).0.tail)
              ≡ max i (min ack_num s.tail) =
            omega (arith, k1.tail) in
          (
            t,
            e',
            rw found (simp (holds, covered) (shifted ∙ ap (λ m. some (m, t, e')) there)),
            rw (← there) w2,
            Keeps-trans k1 k2,
            same2 ∙ same1,
          )
      | inr open' ↦
          let here : max i (min ack_num s.tail) ≡ i = ground arith in
          (s, e, rw (found, holds, open', here) refl, rw here w, Keeps-refl s, refl)
    ]

-- The packets that the new window reaches are sent.
pub fill_from-Window :
    {cap : ℕ} (n i : ℕ) (s : Sender) (e : Env)
    → Window cap i s
    → cap ≤ 1484
    → s.head ≤ i
    → n ≤ s.tail - i
    → (m : ℕ) × (t : Sender) × (e' : Env) × (fill_from n i s e ≡ some (t, e'))
      × Window cap m t
      × Keeps s t
      × (t.window_size ≡ s.window_size)
unfolding fill_from
fill_from-Window zero i s e w c low rounds = (i, s, e, refl, w, Keeps-refl s, refl)
fill_from-Window (suc n) i s e w c low rounds =
    let (slot, p, found, holds, seq, len) = w.loaded i low (omega arith) in
    let (s1, e1, sent, w1, k1, same1) = ctl_send-Window s i e w c low (omega arith) in
    let (m, t, e', filled, w2, k2, same2) =
      fill_from-Window n (i + 1) s1 e1 w1 c (omega (arith, k1.head)) (omega (arith, k1.tail)) in
    elim (Bool-cases (ltb i (s.head + s.window_size))) [
      | inl within ↦
          (m, t, e', rw (found, within, holds, sent) filled, w2, Keeps-trans k1 k2, same2 ∙ same1)
      | inr beyond ↦ (i, s, e, rw beyond refl, w, Keeps-refl s, refl)
    ]
