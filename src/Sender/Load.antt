-- ===== src/Sender/Load.antt =====
-- A sender that is loaded with the packets of a chunk, one `ctl_udp_send` after the other.
use proj.Prelude.{
  ℕ, ◌+◌, ◌≤◌, ◌<◌, ◌≡◌, refl, sym, ap, ◌∙◌, inl, inr, true, false, some, arith, ltb, ◌==◌, set,
  length-set, length-replicate, get_elem?-lt, get_elem?-set_self, get_elem?-set_ne, Bool-cases,
}
use proj.Prelude.Int.{negsuc}
use proj.Wire.{Packet, Env, header_size}
use proj.Sender.{Sender, buffer_len, blank, init_sender, ctl_send, ctl_udp_send}
use proj.Sender.Invariant.{Window, Keeps, Keeps-refl, Window-later, Window-next, ctl_send-Window}
use proj.Sender.Total.{Busy}

-- A sender that holds its first `n` packets, none of them acknowledged; each was sent at most once.
pub record Filled (cap n : ℕ) (s : Sender) : Type 0 where
  pub window : Window cap n s
  pub running : s.is_idle ≡ false
  pub count : s.tail ≡ n
  pub head : s.head ≡ 0
  pub acked : s.last_ack_num ≡ 0
  pub repeats : s.last_ack_cnt ≡ 0

-- `init_sender` makes any sender an empty one that is not idle, with the given number, and leaves
-- its peer.
pub init_sender-Filled :
    (cap : ℕ) (s : Sender) (id : ℕ) (e : Env)
    → Filled cap 0 (init_sender s id e).0
      × ((init_sender s id e).0.peer ≡ s.peer)
      × ((init_sender s id e).0.id ≡ id)
unfolding init_sender
init_sender-Filled cap s id e = (
  record {
    window = record {
      size = length-replicate buffer_len blank;
      ordered = omega arith;
      fits = omega arith;
      window_pos = omega arith;
      threshold = omega arith;
      rtt_nonneg = omega arith;
      loaded = λ j a b. absurd (omega arith);
    };
    running = refl;
    count = refl;
    head = refl;
    acked = refl;
    repeats = refl;
  },
  refl,
  refl,
)

-- The sender after its next packet was put into the buffer, and before that is sent.
abbrev queued : Sender → Packet → Sender
queued s p = record s {
  pkt_buf =
      set s.pkt_buf s.tail (record { packet = some p; ack = 0; sent_ts = negsuc 0; resend = 0 });
  tail = s.tail + 1;
}

queued-Window :
    {cap : ℕ} (s : Sender) (p : Packet)
    → Window cap s.tail s
    → s.tail < 1024
    → p.header.seq_num ≡ s.tail
    → p.header.packet_len ≤ cap
    → Window cap s.tail (queued s p)
queued-Window {cap} s p w room seq len = record {
  size = length-set s.pkt_buf s.tail _ ∙ w.size;
  ordered = omega (arith, w.ordered);
  fits = omega arith;
  window_pos = w.window_pos;
  threshold = w.threshold;
  rtt_nonneg = w.rtt_nonneg;
  loaded = λ j a b. elim (Bool-cases (j == s.tail)) [
    | inl here ↦
        let e : j ≡ s.tail = ground arith in
        rw e (
          _,
          p,
          get_elem?-set_self s.pkt_buf s.tail _ (omega (arith, w.size)),
          refl,
          seq,
          ground arith,
        )
    | inr there ↦
        let ne : ¬ (j ≡ s.tail) = ground arith in
        rw (get_elem?-set_ne s.pkt_buf s.tail j _ (λ x. ne (sym x)))
          (w.loaded j a (omega (arith, ne)))
  ];
}

-- `ctl_send` does not look at `tail`.
ctl_send-tail :
    (s t : Sender) (at n : ℕ) (e e' : Env)
    → ctl_send (record s { tail = n }) at e ≡ some (t, e')
    → ctl_send s at e ≡ some (record t { tail = s.tail }, e')
unfolding ctl_send
ctl_send-tail s t at n e e' h = ground arith

queued-Filled :
    {cap n : ℕ} (s t : Sender) (p : Packet)
    → Filled cap n s
    → Window cap (s.tail + 1) t
    → Keeps (queued s p) t
    → Filled cap (n + 1) t
queued-Filled s t p f w k = record {
  window = Window-later (s.tail + 1) _ (omega (arith, f.count)) w;
  running = k.is_idle ∙ f.running;
  count = omega (arith, k.tail, f.count);
  head = k.head ∙ f.head;
  acked = k.last_ack_num ∙ f.acked;
  repeats = k.last_ack_cnt ∙ f.repeats;
}

-- A sender holds its first `n` packets, n below 1024, with a `packet_len` of at most `cap`, which
-- is at most 1484, besides what one transmission adds. Then packet number `n`, with such a length
-- too, is put into the buffer, and sent if the window reaches it, without a fault: the sender holds
-- its first n + 1 packets, and its peer is the same.
pub ctl_udp_send-Filled :
    {cap n : ℕ} (s : Sender) (p : Packet) (e : Env)
    → Filled cap n s
    → cap ≤ 1484
    → n < 1024
    → p.header.seq_num ≡ n
    → p.header.packet_len ≤ cap
    → (t : Sender) × (e' : Env) × (ctl_udp_send s (some p) e ≡ some (true, t, e'))
      × Filled cap (n + 1) t
      × (t.peer ≡ s.peer)
unfolding ctl_udp_send
ctl_udp_send-Filled {cap} {n} s p e f c room seq len =
    let (old, found) = get_elem?-lt s.pkt_buf s.tail (omega (arith, f.window.size, f.count)) in
    let w = Window-later n s.tail (omega (arith, f.count)) f.window in
    let q = queued-Window s p w (omega (arith, f.count)) (seq ∙ sym f.count) len in
    let (t, e', sent, w1, k, _) =
      ctl_send-Window (queued s p) s.tail e q c (w.ordered) (omega arith) in
    elim (Bool-cases (ltb s.tail (s.head + s.window_size))) [
      | inl within ↦ (
        t,
        e',
        rw
            (
              found,
              within,
              ctl_send-tail (record (queued s p) { tail = s.tail }) t s.tail (s.tail + 1) e e' sent,
            )
            (ap (λ m. some (true, record t { tail = m }, e')) (sym k.tail)),
        queued-Filled s t p f w1 k,
        k.peer,
      )
      | inr beyond ↦ (
        queued s p,
        e,
        rw (found, beyond) refl,
        queued-Filled s (queued s p) p f (Window-later s.tail (s.tail + 1) (omega arith) q)
            (Keeps-refl (queued s p)),
        refl,
      )
    ]

-- A sender with all packets of a chunk is in the middle of an upload.
pub Filled-Busy : {cap : ℕ} (s : Sender) → Filled cap 1024 s → Busy (cap + header_size) s
Filled-Busy s f = record {
  window = Window-next 1024 f.window;
  running = f.running;
  full = f.count;
  acked = f.acked ∙ sym f.head;
  unfinished = omega (arith, f.head);
  repeats = omega (arith, f.repeats);
}
