-- ===== src/Sender/Total.antt =====
-- `ctl_udp_ack` on a sender that is in the middle of an upload.
use proj.Prelude.{
  ℕ, ◌+◌, ◌-◌, ◌≤◌, ◌<◌, ◌≡◌, refl, ◌∙◌, inl, inr, Bool, false, Option, some, arith, leb, lt→leb,
  leb→lt, leb→le, Bool-cases, min, max,
}
use proj.Wire.{Env, header_size}
use proj.Sender.{Sender}
use proj.Sender.Ack.{count_ack, shift_from, advance, ctl_udp_ack}
use proj.Sender.Invariant.{
  Loaded-mono, allowance, Window, Keeps, Keeps-trans, Window-later, Window-next,
}
use proj.Sender.Safety.{count_ack-Counted}
use proj.Sender.Shift.{shift_from-Window, fill_from-Window}

-- The result of `advance` on a sender that the ACK was counted in.
abbrev Advanced : ℕ → Sender → ℕ → Option (Bool × Sender × Env) → Type 0
Advanced cap s ack_num r =
    (t : Sender) × (e' : Env) × (m : ℕ) × (r ≡ some (leb 1024 ack_num, t, e'))
    × Window cap m t
    × Keeps (record s { head = max s.head (min ack_num s.tail) }) t

Keeps-head :
    (s t : Sender) (i j : ℕ)
    → j ≡ i
    → Keeps s t
    → Keeps (record s { head = i }) (record t { head = j })
Keeps-head s t i j e k = ground arith

-- Once the head has moved to `i`.
fill-Advanced :
    {cap : ℕ} (s t : Sender) (last_sent i ack_num : ℕ) (e e' : Env)
    → shift_from (s.tail - s.head) s.head s ack_num e ≡ some (i, t, e')
    → i ≡ max s.head (min ack_num s.tail)
    → Window cap last_sent (record t { head = i })
    → Keeps s t
    → cap ≤ 1484
    → Advanced cap s ack_num (advance s last_sent ack_num e)
unfolding advance
fill-Advanced {cap} s t last_sent i ack_num e e' shifted there w k c =
    let start = max last_sent i in
    let t' : Sender = record t { head = i } in
    let (m, u, e2, filled, w2, k2, _) =
      fill_from-Window (t.tail - start) start t' e' (Window-later last_sent start (omega arith) w) c
        (omega arith) (omega arith) in
    elim (Bool-cases (leb 1024 ack_num)) [
      | inl last ↦ (t', e', last_sent, rw (shifted, last) refl, w, Keeps-head s t _ i there k)
      | inr more ↦ (
        u,
        e2,
        m,
        rw (shifted, more, filled) refl,
        w2,
        Keeps-trans (Keeps-head s t _ i there k) k2,
      )
    ]

advance-Advanced :
    {cap : ℕ} (s : Sender) (last_sent ack_num : ℕ) (e : Env)
    → Window cap last_sent s
    → cap ≤ 1484
    → Advanced cap s ack_num (advance s last_sent ack_num e)
advance-Advanced s last_sent ack_num e w c =
    let (t, e', shifted, w1, k, _) =
      shift_from-Window (s.tail - s.head) s.head s ack_num e w (omega (arith, w.ordered)) in
    fill-Advanced s t last_sent (max s.head (min ack_num s.tail)) ack_num e e' shifted refl w1 k c

-- A sender in the middle of an upload: all packets of the chunk are in the buffer, those from the
-- head on still to be acknowledged, none with a `packet_len` above `cap`.
pub record Busy (cap : ℕ) (s : Sender) : Type 0 where
  pub window : Window cap 0 s
  pub running : s.is_idle ≡ false
  pub full : s.tail ≡ 1024
  pub acked : s.last_ack_num ≡ s.head
  pub unfinished : s.head < 1024
  pub repeats : s.last_ack_cnt < 3

-- An ACK that is older than the newest one is ignored.
old_ack :
    (s : Sender) (ack_num : ℕ) (e : Env)
    → ack_num < s.last_ack_num
    → count_ack s ack_num e ≡ some (false, s, e)
unfolding count_ack
old_ack s ack_num e h = ground arith

pub Busy-next : {cap : ℕ} {s : Sender} → Busy cap s → Busy (cap + header_size) s
Busy-next b = record {
  window = Window-next 0 b.window;
  running = b.running;
  full = b.full;
  acked = b.acked;
  unfinished = b.unfinished;
  repeats = b.repeats;
}

pub Busy-mono : (cap cap' : ℕ) (s : Sender) → cap ≤ cap' → Busy cap s → Busy cap' s
Busy-mono cap cap' s h b = record {
  window = record {
    size = b.window.size;
    ordered = b.window.ordered;
    fits = b.window.fits;
    window_pos = b.window.window_pos;
    threshold = b.window.threshold;
    rtt_nonneg = b.window.rtt_nonneg;
    loaded = λ j low high.
        Loaded-mono (allowance cap 0 j) (allowance cap' 0 j) j s.pkt_buf (ground arith)
          (b.window.loaded j low high);
  };
  running = b.running;
  full = b.full;
  acked = b.acked;
  unfinished = b.unfinished;
  repeats = b.repeats;
}

-- A sender is in the middle of an upload, and no packet in its window has a `packet_len` above
-- `cap`, which is at most 1484. Then an ACK, whatever its number, is handled without a fault. The
-- head moves to the ACK's number, or to 1024 if that is less, but never back, and the function ends
-- in `connection_closed` exactly if the number is at least 1024; the sender has the same peer and
-- is not idle. If it does not end so, the sender is still in the middle of an upload, and no packet
-- has a `packet_len` above `cap` + 16.
pub ctl_udp_ack-Busy :
    {cap : ℕ} (s : Sender) (ack_num : ℕ) (e : Env)
    → Busy cap s
    → cap ≤ 1484
    → (t : Sender) × (e' : Env) × (ctl_udp_ack s ack_num e ≡ some (leb 1024 ack_num, t, e'))
      × (t.head ≡ max s.head (min ack_num 1024))
      × (t.peer ≡ s.peer)
      × (t.is_idle ≡ false)
      × (ack_num < 1024 → Busy (cap + header_size) t)
unfolding ctl_udp_ack
ctl_udp_ack-Busy {cap} s ack_num e b c = elim (Bool-cases (leb s.last_ack_num ack_num)) [
  | inr old ↦
      let older = leb→lt s.last_ack_num ack_num old in
      let early : ack_num < 1024 = omega (arith, older, b.acked, b.unfinished) in
      (
        s,
        e,
        rw (old_ack s ack_num e older, lt→leb 1024 ack_num early) refl,
        omega (arith, older, b.acked),
        refl,
        b.running,
        λ _. Busy-next b,
      )
  | inl fresh ↦
      let (t, e1, counted, k) =
        count_ack-Counted s ack_num e b.window c b.acked (omega (arith, b.full, b.unfinished))
          b.repeats (leb→le s.last_ack_num ack_num fresh) in
      let (u, e2, m, moved, w, l) =
        advance-Advanced t (s.head + s.window_size) ack_num e1
          (Window-later (s.head + 1) (s.head + s.window_size) (omega (arith, b.window.window_pos))
            k.window)
          c in
      (
        u,
        e2,
        rw counted moved,
        omega (arith, l.head, k.head, k.tail, b.full),
        l.peer ∙ k.peer,
        l.is_idle ∙ k.is_idle ∙ b.running,
        λ early. record {
          window = Window-next m w;
          running = l.is_idle ∙ k.is_idle ∙ b.running;
          full = l.tail ∙ k.tail ∙ b.full;
          acked = omega (
            arith,
            l.head,
            l.last_ack_num,
            k.acked,
            k.head,
            k.tail,
            b.full,
            b.acked,
            leb→le s.last_ack_num ack_num fresh,
          );
          unfinished = omega (arith, l.head, k.head, k.tail, b.full, b.unfinished);
          repeats = omega (arith, l.last_ack_cnt, k.repeats);
        },
      )
]
