-- ===== src/Sender/Invariant.antt =====
-- The invariant of a sender with packets to send, for the parts of send.c that touch the window.
use proj.Prelude.{
  ℕ, ◌+◌, ◌≤◌, ◌<◌, ◌≡◌, refl, ap, ◌∙◌, inl, inr, false, some, List, arith, length, ltb, ◌==◌,
  if◌then◌else◌, get_elem?, set, length-set, get_elem?-set_self, get_elem?-set_ne, Bool-cases,
}
use proj.Prelude.Int.{
  ℤ, pos, negsuc, ◌+ℤ◌, ◌*ℤ◌, ◌≤ℤ◌, quot, ltb_ℤ, +ℤ_nonneg, *ℤ_nonneg, quot_nonneg,
}
use proj.Wire.{Packet, Env, my_get_time, header_size}
use proj.Wire.Send.{send_packet_total, grown, outgoing}
use proj.Sender.{Slot, Sender, wd_lost, wd_ack, ctl_send, update_rtt, next_rtt}

-- Slot i holds the packet with sequence number i, whose `packet_len` is at most `cap`.
abbrev pub Loaded : ℕ → ℕ → List Slot → Type 0
Loaded cap i buf =
    (slot : Slot) × (p : Packet) × (get_elem? buf i ≡ some slot)
    × (slot.packet ≡ some p)
    × (p.header.seq_num ≡ i)
    × (p.header.packet_len ≤ cap)

-- A transmission adds the size of a header to `packet_len`: the slots below `i` may have been sent
-- once more than the others.
abbrev pub allowance : ℕ → ℕ → ℕ → ℕ
allowance cap i j = if ltb j i then cap + header_size else cap

pub record Window (cap i : ℕ) (s : Sender) : Type 0 where
  pub size : length s.pkt_buf ≡ 1024
  pub ordered : s.head ≤ s.tail
  pub fits : s.tail ≤ 1024
  pub window_pos : 1 ≤ s.window_size
  pub threshold : 2 ≤ s.window_ssthresh
  pub rtt_nonneg : pos 0 ≤ℤ s.rtt
  pub loaded : (j : ℕ) → s.head ≤ j → j < s.tail → Loaded (allowance cap i j) j s.pkt_buf

-- What the window operations leave alone.
pub record Keeps (s t : Sender) : Type 0 where
  pub is_idle : t.is_idle ≡ s.is_idle
  pub id : t.id ≡ s.id
  pub peer : t.peer ≡ s.peer
  pub last_ack_num : t.last_ack_num ≡ s.last_ack_num
  pub last_ack_cnt : t.last_ack_cnt ≡ s.last_ack_cnt
  pub head : t.head ≡ s.head
  pub tail : t.tail ≡ s.tail

pub Keeps-refl : (s : Sender) → Keeps s s
Keeps-refl s = ground arith

pub Keeps-trans : {s t u : Sender} → Keeps s t → Keeps t u → Keeps s u
Keeps-trans a b = ground arith

pub Loaded-mono :
    (cap cap' i : ℕ) (buf : List Slot) → cap ≤ cap' → Loaded cap i buf → Loaded cap' i buf
Loaded-mono cap cap' i buf h (slot, p, at, holds, seq, len) = (slot, p, at, holds, seq, omega arith)

pub allowance_mono : (cap i i' j : ℕ) → i ≤ i' → allowance cap i j ≤ allowance cap i' j
allowance_mono cap i i' j h = ground arith

pub allowance-le : (cap i j : ℕ) → allowance cap i j ≤ cap + header_size
allowance-le cap i j = ground arith

pub Window-later : {cap : ℕ} (i i' : ℕ) {s : Sender} → i ≤ i' → Window cap i s → Window cap i' s
Window-later {cap} i i' {s} h w = record {
  size = w.size;
  ordered = w.ordered;
  fits = w.fits;
  window_pos = w.window_pos;
  threshold = w.threshold;
  rtt_nonneg = w.rtt_nonneg;
  loaded = λ j a b.
      Loaded-mono (allowance cap i j) (allowance cap i' j) j s.pkt_buf (allowance_mono cap i i' j h)
        (w.loaded j a b);
}

-- Between two events the allowance is the same for all slots.
pub Window-next : {cap : ℕ} (i : ℕ) {s : Sender} → Window cap i s → Window (cap + header_size) 0 s
Window-next {cap} i {s} w = record {
  size = w.size;
  ordered = w.ordered;
  fits = w.fits;
  window_pos = w.window_pos;
  threshold = w.threshold;
  rtt_nonneg = w.rtt_nonneg;
  loaded = λ j a b.
      Loaded-mono (allowance cap i j) (allowance (cap + header_size) 0 j) j s.pkt_buf (ground arith)
        (w.loaded j a b);
}

-- The invariant looks at the buffer, the indices and three more fields.
pub Window-same :
    {cap i : ℕ} {s : Sender} (t : Sender)
    → Window cap i s
    → t.pkt_buf ≡ s.pkt_buf
    → s.head ≤ t.head
    → t.head ≤ t.tail
    → t.tail ≡ s.tail
    → 1 ≤ t.window_size
    → 2 ≤ t.window_ssthresh
    → pos 0 ≤ℤ t.rtt
    → Window cap i t
Window-same {cap} {i} {s} t w buf head ordered tail size threshold rtt = record {
  size = ap length buf ∙ w.size;
  ordered = ordered;
  fits = omega (arith, w.fits);
  window_pos = size;
  threshold = threshold;
  rtt_nonneg = rtt;
  loaded = λ j a b. rw buf (w.loaded j (omega arith) (omega arith));
}

-- `wd_lost` keeps the invariant and leaves a window of one packet.
pub wd_lost-Window :
    {cap i : ℕ} {s : Sender} (e : Env)
    → Window cap i s
    → Window cap i (wd_lost s e).0 × Keeps s (wd_lost s e).0 × ((wd_lost s e).0.window_size ≡ 1)
unfolding wd_lost
wd_lost-Window {s = s} e w = (
  Window-same _ w refl (omega arith) w.ordered refl (omega arith) (ground arith) w.rtt_nonneg,
  ground arith,
  refl,
)

-- `wd_ack` keeps the invariant, and the window does not shrink.
pub wd_ack-Window :
    {cap i : ℕ} {s : Sender} (e : Env)
    → Window cap i s
    → Window cap i (wd_ack s e).0
      × Keeps s (wd_ack s e).0
      × (s.window_size ≤ (wd_ack s e).0.window_size)
unfolding wd_ack
wd_ack-Window {s = s} e w = (
  Window-same (wd_ack s e).0 w (ground arith) (ground arith) (ground arith) (ground arith)
      (ground arith) (ground arith) (ground arith),
  ground arith,
  ground arith,
)

-- The weighted mean of the old estimate and a new one is not negative.
smoothed_nonneg :
    (rtt new : ℤ) → pos 0 ≤ℤ rtt → pos 0 ≤ℤ new → pos 0 ≤ℤ quot (8 *ℤ rtt +ℤ 2 *ℤ new) 10
smoothed_nonneg rtt new h k =
    quot_nonneg _ 10 (+ℤ_nonneg _ _ (*ℤ_nonneg 8 rtt h) (*ℤ_nonneg 2 new k))

-- What is not below a number that is not negative is itself not negative.
kept_nonneg : (rtt new : ℤ) → pos 0 ≤ℤ rtt → ltb_ℤ (5 *ℤ new) rtt ≡ false → pos 0 ≤ℤ new
unfolding ◌*ℤ◌
kept_nonneg rtt (pos n) h k = omega arith
kept_nonneg rtt (negsuc n) h k = ground arith

-- An estimate of the round trip time that is not negative stays so, whatever is measured, also when
-- the clock went back.
pub next_rtt-nonneg : (rtt new : ℤ) → pos 0 ≤ℤ rtt → pos 0 ≤ℤ next_rtt rtt new
unfolding next_rtt
next_rtt-nonneg rtt new h = elim (Bool-cases (ltb_ℤ (5 *ℤ new) rtt)) [
  | inl early ↦ rw early h
  | inr late ↦
      let k = kept_nonneg rtt new h late in
      rw late (ground (arith, k, h, smoothed_nonneg rtt new h k))
]

pub update_rtt-Window :
    {cap i : ℕ} {s : Sender} (sent_ts : ℤ) (e : Env)
    → Window cap i s
    → Window cap i (update_rtt s sent_ts e).0
unfolding update_rtt
update_rtt-Window {s = s} sent_ts e w =
    Window-same _ w refl (omega arith) w.ordered refl w.window_pos w.threshold
      (next_rtt-nonneg s.rtt _ w.rtt_nonneg)

-- The packet in slot `at` may have been sent once more.
Window-set :
    {cap : ℕ} (s : Sender) (at : ℕ) (slot : Slot) (p : Packet)
    → Window cap at s
    → at < s.tail
    → slot.packet ≡ some p
    → p.header.seq_num ≡ at
    → p.header.packet_len ≤ cap + header_size
    → Window cap (at + 1) (record s { pkt_buf = set s.pkt_buf at slot })
Window-set {cap} s at slot p w high holds seq len = record {
  size = length-set s.pkt_buf at slot ∙ w.size;
  ordered = w.ordered;
  fits = w.fits;
  window_pos = w.window_pos;
  threshold = w.threshold;
  rtt_nonneg = w.rtt_nonneg;
  loaded = λ j a b. elim (Bool-cases (j == at)) [
    | inl here ↦
        let e : j ≡ at = ground arith in
        rw e (
          slot,
          p,
          get_elem?-set_self s.pkt_buf at slot (omega (arith, w.size, w.fits)),
          holds,
          seq,
          ground arith,
        )
    | inr there ↦ rw (get_elem?-set_ne s.pkt_buf at j slot (ground arith)) (
        Loaded-mono (allowance cap at j) (allowance cap (at + 1) j) j s.pkt_buf
          (allowance_mono cap at (at + 1) j (omega arith)) (w.loaded j a b))
  ];
}

-- Packet `at` of the window is sent, or marked as waiting, without a fault.
pub ctl_send-Window :
    {cap : ℕ} (s : Sender) (at : ℕ) (e : Env)
    → Window cap at s
    → cap ≤ 1484
    → s.head ≤ at
    → at < s.tail
    → (t : Sender) × (e' : Env) × (ctl_send s at e ≡ some (t, e'))
      × Window cap (at + 1) t
      × Keeps s t
      × (t.window_size ≡ s.window_size)
unfolding ctl_send
ctl_send-Window {cap} s at e w c low high =
    let (slot, p, found, holds, seq, len) = w.loaded at low high in
    let short : p.header.packet_len ≤ cap = ground (arith, len) in
    let out = send_packet_total s.peer p (my_get_time e).1 (omega arith) in
    let p' : Packet = record p { header = grown p } in
    let now = my_get_time e in
    let sent : Slot = record slot { packet = some p'; ack = 0; sent_ts = now.0 } in
    let waits : Slot = record slot { ack = 0; sent_ts = negsuc 0 } in
    elim (Bool-cases (ltb at (s.head + s.window_size))) [
      | inl within ↦ (
        record s { pkt_buf = set s.pkt_buf at sent },
        record (now.1) { sent = outgoing s.peer p now.1 },
        rw (found, within, holds, out) refl,
        Window-set s at sent p' w high refl seq (omega arith),
        ground arith,
        refl,
      )
      | inr beyond ↦ (
        record s { pkt_buf = set s.pkt_buf at waits },
        e,
        rw (found, beyond) refl,
        Window-set s at waits p w high holds seq (omega arith),
        ground arith,
        refl,
      )
    ]
