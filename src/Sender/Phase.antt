-- ===== src/Sender/Phase.antt =====
-- Congestion control: the window and the phase of a sender after any run of ACKs and losses.
use proj.Prelude.{
  ℕ, zero, suc, ◌+◌, ◌≤◌, ◌<◌, ◌≡◌, refl, ◌∙◌, ◌⊎◌, subst, inl, inr, false, arith, ltb,
  if◌then◌else◌, Bool-cases,
}
use proj.Prelude.Int.{ltb_ℤ, ◌-ℤ◌}
use proj.Wire.{Env, my_get_time}
use proj.Sender.{Sender, WindowState, slow_start, cong_ctl, init_sender, wd_lost, wd_ack}

-- A sender that was initialised and has then counted ACKs and losses, whatever the clock said.
pub data Runs (start : Sender) : Sender → Type 0 where
  initialised : (id : ℕ) (e : Env) → Runs start (init_sender start id e).0
  acked : (s : Sender) (e : Env) → Runs start s → Runs start (wd_ack s e).0
  lost : (s : Sender) (e : Env) → Runs start s → Runs start (wd_lost s e).0

-- Slow start exactly as long as the window is not larger than the threshold.
abbrev pub Phase : WindowState → ℕ → ℕ → Type 0
Phase slow_start size ssthresh = size ≤ ssthresh
Phase cong_ctl size ssthresh = ssthresh < size

abbrev pub InPhase : Sender → Type 0
InPhase s = Phase s.window_state s.window_size s.window_ssthresh

WindowState-cases : (w : WindowState) → (w ≡ slow_start) ⊎ (w ≡ cong_ctl)
WindowState-cases slow_start = inl refl
WindowState-cases cong_ctl = inr refl

wd_ack-slow_start :
    (s : Sender) (e : Env)
    → s.window_state ≡ slow_start
    → ((wd_ack s e).0.window_size ≡ s.window_size + 1)
      × ((wd_ack s e).0.window_ssthresh ≡ s.window_ssthresh)
      × ((wd_ack s e).0.window_state
          ≡ (if ltb s.window_ssthresh (s.window_size + 1) then cong_ctl else slow_start))
unfolding wd_ack
wd_ack-slow_start s e h = rw h (refl, refl, refl)

wd_ack-cong_ctl :
    (s : Sender) (e : Env)
    → s.window_state ≡ cong_ctl
    → (s.window_size ≤ (wd_ack s e).0.window_size)
      × ((wd_ack s e).0.window_ssthresh ≡ s.window_ssthresh)
      × ((wd_ack s e).0.window_state ≡ cong_ctl)
unfolding wd_ack
wd_ack-cong_ctl s e h =
    let now = (my_get_time e).0 in
    elim (Bool-cases (ltb_ℤ (now -ℤ s.last_window_update_clock) s.rtt)) [
      | inl soon ↦ rw (h, soon) (omega arith, refl, refl)
      | inr later ↦ rw (h, later) (omega arith, refl, refl)
    ]

-- The three facts about a sender, as one predicate.
abbrev Sound : Sender → Type 0
Sound s = InPhase s × (1 ≤ s.window_size) × (2 ≤ s.window_ssthresh)

Phase-slow :
    (size ssthresh : ℕ) → Phase (if ltb ssthresh size then cong_ctl else slow_start) size ssthresh
Phase-slow size ssthresh = elim (Bool-cases (ltb ssthresh size)) [
  | inl over ↦ rw over (ground arith)
  | inr under ↦ rw under (ground arith)
]

wd_ack-Sound : (s : Sender) (e : Env) → Sound s → Sound (wd_ack s e).0
wd_ack-Sound s e (phase, size, ssthresh) = elim (WindowState-cases s.window_state) [
  | inl slow ↦
      let (grows, same, next) = wd_ack-slow_start s e slow in
      (
        rw (grows, same, next) (Phase-slow (s.window_size + 1) s.window_ssthresh),
        omega arith,
        omega arith,
      )
  | inr fast ↦
      let (grows, same, next) = wd_ack-cong_ctl s e fast in
      let old : Phase cong_ctl s.window_size s.window_ssthresh =
        subst (λ w. Phase w s.window_size s.window_ssthresh) fast phase in
      (rw (next, same) (omega (arith, old, grows)), omega arith, omega arith)
]

-- A sender was initialised and has then counted any ACKs and losses. Then its window is at least 1
-- and its threshold at least 2, and it is in slow start exactly as long as the window is not larger
-- than the threshold.
pub Runs-InPhase :
    (start s : Sender) → Runs start s → InPhase s × (1 ≤ s.window_size) × (2 ≤ s.window_ssthresh)
unfolding init_sender wd_lost
Runs-InPhase start _ (initialised id e) = (omega arith, omega arith, omega arith)
Runs-InPhase start _ (acked s e r) = wd_ack-Sound s e (Runs-InPhase start s r)
Runs-InPhase start _ (lost s e r) = (ground arith, ground arith, ground arith)

-- ACKs in a row.
abbrev pub acks : ℕ → Sender → Env → Sender × Env
acks zero s e = (s, e)
acks (suc n) s e = let (s1, e1) = acks n s e in wd_ack s1 e1

-- A sender is in slow start, and gets n + 1 ACKs in a row, where its window plus n is at most the
-- threshold. Then its window is larger by n + 1, without regard to the clock, and the threshold is
-- the same; it has gone on to congestion avoidance exactly if the window is now larger than the
-- threshold.
pub acks-slow_start :
    (n : ℕ) (s : Sender) (e : Env)
    → s.window_state ≡ slow_start
    → s.window_size + n ≤ s.window_ssthresh
    → let t = (acks (suc n) s e).0 in
      (t.window_size ≡ s.window_size + suc n)
      × (t.window_ssthresh ≡ s.window_ssthresh)
      × (t.window_state
          ≡ (if ltb s.window_ssthresh (s.window_size + suc n) then cong_ctl else slow_start))
acks-slow_start zero s e slow fits = wd_ack-slow_start s e slow
acks-slow_start (suc n) s e slow fits =
    let (grows, same, next) = acks-slow_start n s e slow (omega arith) in
    let t = (acks (suc n) s e).0 in
    let under : ltb s.window_ssthresh (s.window_size + suc n) ≡ false = ground arith in
    let still : t.window_state ≡ slow_start = rw (next, under) refl in
    let (grows2, same2, next2) = wd_ack-slow_start t (acks (suc n) s e).1 still in
    let more : s.window_size + suc n + 1 ≡ s.window_size + suc (suc n) = omega arith in
    (omega arith, same2 ∙ same, rw (next2, grows, same, more) refl)
