-- ===== src/Sender/Timeout.antt =====
-- `ctl_udp_time_out` of send.c.
use proj.Prelude.{
  ℕ, zero, suc, ◌+◌, ◌-◌, Bool, true, false, Option, some, ltb, if◌then◌else◌, ◌>>=◌, get_elem?,
  set,
}
use proj.Prelude.Int.{ℤ, pos, negsuc, ◌-ℤ◌, ◌*ℤ◌, ltb_ℤ, eqb_ℤ}
use proj.Wire.{Env, my_get_time}
use proj.Sender.{Slot, Sender, ack_timeout, resend_thres, wd_lost, ctl_send}

-- The packet at `i` was not acknowledged in time: it counts as lost, and after too many times the
-- connection is closed (`true`).
unfoldable pub retry : Sender → ℕ → Slot → Env → Option (Bool × Sender × Env)
retry s i slot e =
    let s1 = record s { pkt_buf = set s.pkt_buf i (record slot { resend = slot.resend + 1 }) } in
    if ltb resend_thres (slot.resend + 1)
    then some (true, s1, e)
    else (let (s2, e2) = wd_lost s1 e in ctl_send s2 i e2 >>= λ (s3, e3). some (false, s3, e3))

-- The loop over [head, tail), with `n` rounds left.
unfoldable pub scan_from : ℕ → ℕ → Sender → ℤ → Env → Option (Bool × Sender × Env)
unfolding retry
scan_from zero i s now e = some (false, s, e)
scan_from (suc n) i s now e = get_elem? s.pkt_buf i >>= λ slot.
    let rest = scan_from n (i + 1) s now e in
    if eqb_ℤ slot.sent_ts (negsuc 0)
    then some (false, s, e)
    else if ltb_ℤ (pos ack_timeout) (now -ℤ slot.sent_ts)
    then retry s i slot e
    else rest

-- What follows the test of `is_idle`. `true` says that the function ends in
-- `connection_closed(sender->peer)`.
unfoldable pub check_clock : Sender → Env → Option (Bool × Sender × Env)
check_clock s e =
    let (now, e1) = my_get_time e in
    if ltb_ℤ (now -ℤ s.last_tick) (2 *ℤ s.rtt)
    then some (false, s, e1)
    else scan_from (s.tail - s.head) s.head (record s { last_tick = now }) now e1

-- No caller looks at the result of the source, so it is not kept.
unfoldable pub ctl_udp_time_out : Sender → Env → Option (Bool × Sender × Env)
ctl_udp_time_out s e = if s.is_idle then some (false, s, e) else check_clock s e
