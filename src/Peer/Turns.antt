-- ===== src/Peer/Turns.antt =====
-- `ack_senders` and `time_out_senders`: each sender in its turn.
use proj.Prelude.{
  ℕ, zero, suc, ◌+◌, ◌≤◌, ◌≡◌, refl, inl, inr, false, not, ◌&&◌, some, arith, length, get_elem?,
  Bool-cases, get_elem?-lt, leb, leb→lt, ◌==◌, ◌>>=◌,
}
use proj.Wire.{Env}
use proj.Sender.{Sender}
use proj.Sender.Ack.{ctl_udp_ack}
use proj.Sender.Timeout.{ctl_udp_time_out}
use proj.Sender.Invariant.{allowance}
use proj.Sender.Total.{Busy, Busy-mono, ctl_udp_ack-Busy}
use proj.Sender.Late.{ctl_udp_time_out-Busy}
use proj.Responser.{Responser}
use proj.Responser.Serving.{Serving, SameLibrary-refl, SameLibrary-trans}
use proj.Peer.{finish_sender, ack_senders, time_out_senders}
use proj.Peer.Senders.{Serving-skip, Turn, finish_sender-Serving}

module _ {cap i : ℕ} (res : Responser) (s : Sender) (e : Env) (v : Serving cap i res)
    (small : cap ≤ 1484) (found : get_elem? res.senders i ≡ some s) (runs : s.is_idle ≡ false) where
  upload-Busy : Busy cap s
  upload-Busy = Busy-mono (allowance cap i i) cap s (ground arith) (v.upload i s found runs)

  ack-Turn :
      (ack_num : ℕ)
      → Turn cap (i + 1) res (
          ctl_udp_ack s ack_num e >>= λ (closes, s1, e1).
          finish_sender res i closes s1 >>= λ res1. some (res1, e1))
  ack-Turn ack_num =
      let (t, e1, acks, _, same, goes_on, still) = ctl_udp_ack-Busy s ack_num e upload-Busy small in
      let (r, ends, w, l) =
        finish_sender-Serving res s t v found runs goes_on same (leb 1024 ack_num)
          (λ h. still (leb→lt 1024 ack_num h)) in
      (r, e1, rw (acks, ends) refl, w, l)

  time_out-Turn : Turn cap (i + 1) res (
      ctl_udp_time_out s e >>= λ (closes, s1, e1).
      finish_sender res i closes s1 >>= λ res1. some (res1, e1))
  time_out-Turn =
      let (closes, t, e1, ticks, b, _, same) = ctl_udp_time_out-Busy s e upload-Busy small in
      let (r, ends, w, l) =
        finish_sender-Serving res s t v found runs b.running same closes (λ _. b) in
      (r, e1, rw (ticks, ends) refl, w, l)

pub ack_senders-Turn :
    {cap : ℕ} (rounds i : ℕ) (res : Responser) (peer ack_num : ℕ) (e : Env)
    → Serving cap i res
    → cap ≤ 1484
    → i + rounds ≡ length res.senders
    → Turn cap (i + rounds) res (ack_senders rounds i res peer ack_num e)
unfolding ack_senders
ack_senders-Turn zero i res peer ack_num e v small end =
    let last : i + 0 ≡ i = omega arith in (res, e, refl, rw last v, SameLibrary-refl res)
ack_senders-Turn {cap} (suc rounds) i res peer ack_num e v small end =
    let last : i + 1 + rounds ≡ i + suc rounds = omega arith in
    let (s, found) = get_elem?-lt res.senders i (omega arith) in
    elim (Bool-cases (not s.is_idle && s.peer == peer)) [
      | inr other ↦
          rw (found, other, ← last)
            (ack_senders-Turn rounds (i + 1) res peer ack_num e (Serving-skip v) small
              (omega arith))
      | inl mine ↦
          let (r, e1, turn, w, l) = ack-Turn res s e v small found (ground arith) ack_num in
          let (r2, e2, rest, w2, l2) =
            ack_senders-Turn rounds (i + 1) r peer ack_num e1 w small (omega (arith, l.slots)) in
          (r2, e2, rw (found, mine, turn) rest, rw (← last) w2, SameLibrary-trans l l2)
    ]

pub time_out_senders-Turn :
    {cap : ℕ} (rounds i : ℕ) (res : Responser) (e : Env)
    → Serving cap i res
    → cap ≤ 1484
    → i + rounds ≡ length res.senders
    → Turn cap (i + rounds) res (time_out_senders rounds i res e)
unfolding time_out_senders
time_out_senders-Turn zero i res e v small end =
    let last : i + 0 ≡ i = omega arith in (res, e, refl, rw last v, SameLibrary-refl res)
time_out_senders-Turn {cap} (suc rounds) i res e v small end =
    let last : i + 1 + rounds ≡ i + suc rounds = omega arith in
    let (s, found) = get_elem?-lt res.senders i (omega arith) in
    elim (Bool-cases s.is_idle) [
      | inl idle ↦
          rw (found, idle, ← last)
            (time_out_senders-Turn rounds (i + 1) res e (Serving-skip v) small (omega arith))
      | inr mine ↦
          let (r, e1, turn, w, l) = time_out-Turn res s e v small found mine in
          let (r2, e2, rest, w2, l2) =
            time_out_senders-Turn rounds (i + 1) r e1 w small (omega (arith, l.slots)) in
          (r2, e2, rw (found, mine, turn) rest, rw (← last) w2, SameLibrary-trans l l2)
    ]
