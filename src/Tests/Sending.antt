-- ===== src/Tests/Sending.antt =====
-- The transmission of packets and the congestion control, at concrete inputs.
use proj.Prelude.{
  false, ◌+◌, ◌*◌, ◌≤◌, ◌<◌, ◌≡◌, refl, Bool, true, none, some, ◌∷◌, arith, length, leb, min, max,
  take, none,
}
use proj.Prelude.Int.{pos, negsuc, ◌≤ℤ◌, ◌-ℤ◌}
use proj.Wire.{Datagram, Env, my_get_time, bt_peer_info, send_packet}
use proj.Wire.Send.{grown, send_packet-datagram, transmissions, transmissions_lem}
use proj.Sender.{Sender, cong_ctl, init_sender, next_rtt, check_too_near, wd_ack, wd_lost}
use proj.Sender.Ack.{ctl_udp_ack}
use proj.Sender.Timeout.{ctl_udp_time_out}
use proj.Sender.Invariant.{next_rtt-nonneg}
use proj.Sender.Total.{Busy, ctl_udp_ack-Busy}
use proj.Sender.Late.{ctl_udp_time_out-Busy}
use proj.Sender.Phase.{initialised, acked, lost, InPhase, Runs-InPhase, acks, acks-slow_start}
use proj.Sender.Clock.{check_too_near-overflow}
use proj.Tests.Data.{peer1, env, data_header, block, slot, uploading, uploading-Busy, idle}

ctl_udp_ack-Busy_example :
    (t : Sender) × (e' : Env) × (ctl_udp_ack uploading 1 env ≡ some (leb 1024 1, t, e'))
    × (t.head ≡ max 0 (min 1 1024))
    × (t.peer ≡ 1)
    × (t.is_idle ≡ false)
    × (1 < 1024 → Busy 544 t)
ctl_udp_ack-Busy_example = ctl_udp_ack-Busy uploading 1 env uploading-Busy (omega arith)

-- The packet at the head was sent a second ago.
ctl_udp_time_out-Busy_example :
    (gives_up : Bool) × (t : Sender) × (e' : Env) × (ctl_udp_time_out uploading env
      ≡ some (gives_up, t, e'))
    × Busy 544 t
    × (t.head ≡ 0)
    × (t.peer ≡ 1)
ctl_udp_time_out-Busy_example = ctl_udp_time_out-Busy uploading env uploading-Busy (omega arith)

send_packet-datagram_example :
    (d : Datagram) × (send_packet 1 (block 0) env
      ≡ some (record (block 0) { header = grown (block 0) }, record env { sent = d ∷ env.sent }))
    × (d.dest.id ≡ 1)
    × (d.header ≡ grown (block 0))
    × (length d.payload ≡ 528)
    × (take (length (block 0).payload) d.payload ≡ (block 0).payload)
unfolding bt_peer_info
send_packet-datagram_example =
    send_packet-datagram 1 (block 0) env peer1 (omega arith) (omega arith) refl

-- A DATA packet bears 60 transmissions, and not 61.
transmissions_lem_example :
    (528 + 16 * 61 ≤ 1500
      → (e' : Env) × (transmissions 61 1 (block 0) env
          ≡ some (
            record (block 0) { header = record (data_header 0) { packet_len = 528 + 16 * 61 } },
            e',
          )))
    × (1500 < 528 + 16 * 61 → transmissions 61 1 (block 0) env ≡ none)
transmissions_lem_example = transmissions_lem 61 1 (block 0) env (omega arith)

-- A sender that is to be loaded, and the first packet of a chunk in it.
abbrev empty_sender : Sender
empty_sender = (init_sender idle 1 env).0

-- An ACK, and then a loss.
abbrev after_loss : Sender
after_loss = (wd_lost (wd_ack empty_sender env).0 env).0

Runs-InPhase_example :
    InPhase after_loss × (1 ≤ after_loss.window_size) × (2 ≤ after_loss.window_ssthresh)
Runs-InPhase_example =
    Runs-InPhase idle after_loss
      (lost (wd_ack empty_sender env).0 env (acked empty_sender env (initialised 1 env)))

-- The 64th ACK ends the slow start.
acks-slow_start_example :
    let t = (acks 64 uploading env).0 in
    (t.window_size ≡ 65) × (t.window_ssthresh ≡ 64) × (t.window_state ≡ cong_ctl)
acks-slow_start_example = acks-slow_start 63 uploading env refl (omega arith)

-- The clock went back.
next_rtt-nonneg_example : pos 0 ≤ℤ next_rtt (pos 0) (negsuc 99)
next_rtt-nonneg_example = next_rtt-nonneg (pos 0) (negsuc 99) (omega arith)

-- 40 minutes after the start.
abbrev late_env : Env
late_env = record env { gettimeofday = λ k. (2500, 0) }

check_too_near-overflow_example :
    check_too_near uploading 0 late_env ≡ some (true, (my_get_time late_env).1)
unfolding my_get_time ◌-ℤ◌
check_too_near-overflow_example =
    check_too_near-overflow uploading 0 2400000000 (slot 0) late_env uploading-Busy.window
      (omega arith) (omega arith) refl (omega arith) refl (omega arith) (omega arith)
