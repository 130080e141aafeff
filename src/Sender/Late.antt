-- ===== src/Sender/Late.antt =====
-- `ctl_udp_time_out` on a sender that is in the middle of an upload.
use proj.Prelude.{
  ℕ, zero, suc, ◌+◌, ◌-◌, ◌≤◌, ◌<◌, ◌≡◌, refl, sym, ◌∙◌, inl, inr, Bool, true, false, Option, some,
  arith, ltb, get_elem?, set, length-set, get_elem?-set_self, get_elem?-set_ne, Bool-cases, ◌==◌,
  ap,
}
use proj.Prelude.Int.{ℤ, pos, negsuc, ◌-ℤ◌, ◌*ℤ◌, ltb_ℤ, eqb_ℤ}
use proj.Wire.{Env, my_get_time, header_size}
use proj.Sender.{Slot, Sender, wd_lost, ack_timeout, resend_thres}
use proj.Sender.Timeout.{retry, scan_from, check_clock, ctl_udp_time_out}
use proj.Sender.Invariant.{
  Window, Keeps, Keeps-refl, Window-later, Window-next, Window-same, wd_lost-Window,
  ctl_send-Window,
}
use proj.Sender.Total.{Busy, Busy-next}

-- The counter of a loaded slot may go up.
Window-count :
    {cap : ℕ} (s : Sender) (i n : ℕ) (slot : Slot)
    → Window cap 0 s
    → get_elem? s.pkt_buf i ≡ some slot
    → i < s.tail
    → Window cap 0 (record s { pkt_buf = set s.pkt_buf i (record slot { resend = n }) })
Window-count {cap} s i n slot w found high = record {
  size = length-set s.pkt_buf i _ ∙ w.size;
  ordered = w.ordered;
  fits = w.fits;
  window_pos = w.window_pos;
  threshold = w.threshold;
  rtt_nonneg = w.rtt_nonneg;
  loaded = λ j a b. elim (Bool-cases (j == i)) [
    | inl here ↦
        let e : j ≡ i = ground arith in
        let (old, p, at, holds, seq, len) = w.loaded j a b in
        let one : slot ≡ old = cc in
        (
          record slot { resend = n },
          p,
          rw e (get_elem?-set_self s.pkt_buf i _ (omega (arith, w.size, w.fits))),
          ap (λ (x : Slot). x.packet) one ∙ holds,
          seq,
          len,
        )
    | inr there ↦ rw (get_elem?-set_ne s.pkt_buf i j _ (ground arith)) (w.loaded j a b)
  ];
}

-- What the loop of `ctl_udp_time_out` leaves, whether or not it gives up.
abbrev Tried : ℕ → Sender → Option (Bool × Sender × Env) → Type 0
Tried cap s r =
    (gives_up : Bool) × (t : Sender) × (e' : Env) × (m : ℕ) × (r ≡ some (gives_up, t, e'))
    × Window cap m t
    × Keeps s t

retry-Tried :
    {cap : ℕ} (s : Sender) (i : ℕ) (slot : Slot) (e : Env)
    → Window cap 0 s
    → cap ≤ 1484
    → get_elem? s.pkt_buf i ≡ some slot
    → s.head ≤ i
    → i < s.tail
    → Tried cap s (retry s i slot e)
unfolding retry
retry-Tried {cap} s i slot e w c found low high =
    let s1 : Sender = record s {
      pkt_buf = set s.pkt_buf i (record slot { resend = slot.resend + 1 });
    } in
    let w1 = Window-count s i (slot.resend + 1) slot w found high in
    let (w2, k2, _) = wd_lost-Window e w1 in
    let (t, e', sent, w3, k3, _) =
      ctl_send-Window (wd_lost s1 e).0 i (wd_lost s1 e).1 (Window-later 0 i (omega arith) w2) c
        (omega (arith, k2.head)) (omega (arith, k2.tail)) in
    elim (Bool-cases (ltb resend_thres (slot.resend + 1))) [
      | inl over ↦ (true, s1, e, 0, rw over refl, w1, ground arith)
      | inr more ↦ (false, t, e', i + 1, rw (more, sent) refl, w3, ground (arith, k2, k3))
    ]

scan_from-Tried :
    {cap : ℕ} (n i : ℕ) (s : Sender) (now : ℤ) (e : Env)
    → Window cap 0 s
    → cap ≤ 1484
    → s.head ≤ i
    → i + n ≡ s.tail
    → Tried cap s (scan_from n i s now e)
unfolding scan_from
scan_from-Tried zero i s now e w c low end = (false, s, e, 0, refl, w, Keeps-refl s)
scan_from-Tried (suc n) i s now e w c low end =
    let (slot, p, found, holds, seq, len) = w.loaded i low (omega arith) in
    elim (Bool-cases (eqb_ℤ slot.sent_ts (negsuc 0))) [
      | inl waits ↦ (false, s, e, 0, rw (found, waits) refl, w, Keeps-refl s)
      | inr sent ↦ elim (Bool-cases (ltb_ℤ (pos ack_timeout) (now -ℤ slot.sent_ts))) [
        | inl late ↦ rw (found, sent, late) (retry-Tried s i slot e w c found low (omega arith))
        | inr fresh ↦
            rw (found, sent, fresh)
              (scan_from-Tried n (i + 1) s now e w c (omega arith) (omega arith))
      ]
    ]

Tried-Busy :
    {cap : ℕ} {s : Sender} (tick : ℤ) {r : Option (Bool × Sender × Env)}
    → Busy cap s
    → Tried cap (record s { last_tick = tick }) r
    → (gives_up : Bool) × (t : Sender) × (e' : Env) × (r ≡ some (gives_up, t, e'))
      × Busy (cap + header_size) t
      × (t.head ≡ s.head)
      × (t.peer ≡ s.peer)
Tried-Busy tick b (gives_up, t, e', m, is, w, k) = (
  gives_up,
  t,
  e',
  is,
  record {
    window = Window-next m w;
    running = k.is_idle ∙ b.running;
    full = k.tail ∙ b.full;
    acked = k.last_ack_num ∙ (b.acked ∙ sym k.head);
    unfinished = omega (arith, k.head, b.unfinished);
    repeats = omega (arith, k.last_ack_cnt, b.repeats);
  },
  k.head,
  k.peer,
)

check_clock-Busy :
    {cap : ℕ} (s : Sender) (e : Env)
    → Busy cap s
    → cap ≤ 1484
    → (gives_up : Bool) × (t : Sender) × (e' : Env) × (check_clock s e ≡ some (gives_up, t, e'))
      × Busy (cap + header_size) t
      × (t.head ≡ s.head)
      × (t.peer ≡ s.peer)
unfolding check_clock
check_clock-Busy {cap} s e b c =
    let now = my_get_time e in
    let s1 : Sender = record s { last_tick = now.0 } in
    let w = b.window in
    let w1 =
      Window-same s1 w refl (omega arith) w.ordered refl w.window_pos w.threshold w.rtt_nonneg in
    elim (Bool-cases (ltb_ℤ (now.0 -ℤ s.last_tick) (2 *ℤ s.rtt))) [
      | inl soon ↦ (false, s, now.1, rw soon refl, Busy-next b, refl, refl)
      | inr due ↦ rw due (
          Tried-Busy now.0 b (
            scan_from-Tried (s.tail - s.head) s.head s1 now.0 now.1 w1 c (omega arith)
              (omega (arith, w.ordered))))
    ]

-- A sender is in the middle of an upload, and no packet in its window has a `packet_len` above
-- `cap`, which is at most 1484. Then a timer tick is handled without a fault, whatever the clock
-- says. The sender stays in the middle of its upload with the same head and peer, whether or not
-- the function ends in `connection_closed`, and no packet has a `packet_len` above `cap` + 16.
pub ctl_udp_time_out-Busy :
    {cap : ℕ} (s : Sender) (e : Env)
    → Busy cap s
    → cap ≤ 1484
    → (gives_up : Bool) × (t : Sender) × (e' : Env) × (ctl_udp_time_out s e
        ≡ some (gives_up, t, e'))
      × Busy (cap + header_size) t
      × (t.head ≡ s.head)
      × (t.peer ≡ s.peer)
unfolding ctl_udp_time_out
ctl_udp_time_out-Busy s e b c = simp b.running (check_clock-Busy s e b c)
