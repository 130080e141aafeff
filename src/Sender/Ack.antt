-- ===== src/Sender/Ack.antt =====
-- `ctl_udp_ack` of send.c, by its parts. The loops over [head, tail) recur on the rounds that are
-- left: neither loop changes the bound that it reads.
use proj.Prelude.{
  ℕ, zero, suc, ◌+◌, ◌-◌, Bool, true, false, Option, none, some, ltb, leb, ◌==◌, if◌then◌else◌,
  ◌>>=◌, get_elem?, set, max,
}
use proj.Prelude.Int.{pattern_lt}
use proj.Wire.{Env}
use proj.Sender.{
  Slot, Sender, buffer_len, dup_ack_thres, wd_lost, wd_ack, ctl_send, update_rtt, check_too_near,
}

-- The packet at `last_ack_num` was asked for once more: it counts as lost.
unfoldable pub resend_lost : Sender → Env → Option (Sender × Env)
resend_lost s e = let (s1, e1) = wd_lost s e in ctl_send s1 s1.last_ack_num e1

-- A duplicate ACK.
unfoldable pub count_duplicate : Sender → ℕ → Env → Option (Sender × Env)
unfolding resend_lost
count_duplicate s ack_num e =
    let s1 = record s { last_ack_cnt = s.last_ack_cnt + 1 } in
    if leb dup_ack_thres s1.last_ack_cnt
    then (check_too_near s1 ack_num e >>= λ (near, e1).
        if near
        then some (record s1 { last_ack_cnt = s1.last_ack_cnt - 1 }, e1)
        else (let s2 = record s1 { last_ack_cnt = 0 } in
            if pattern_lt s2.last_ack_num (s2.head + s2.window_size)
            then resend_lost s2 e1
            else some (s2, e1)))
    else some (s1, e)

-- The first `if` of the function; `false` is its early return.
unfoldable pub count_ack : Sender → ℕ → Env → Option (Bool × Sender × Env)
unfolding count_duplicate
count_ack s ack_num e =
    if ack_num == s.last_ack_num
    then (count_duplicate s ack_num e >>= λ (s1, e1). some (true, s1, e1))
    else if ltb s.last_ack_num ack_num
    then (let (s1, e1) = wd_ack (record s { last_ack_num = ack_num; last_ack_cnt = 1 }) e in
        some (true, s1, e1))
    else some (false, s, e)

-- One slot that the ACK covers: the first ACK of a packet gives a round trip time, and the packet
-- is freed.
unfoldable pub release : Sender → ℕ → Slot → Env → Sender × Env
release s i slot e =
    let slot1 = record slot { ack = slot.ack + 1 } in
    let (s1, e1) = if slot1.ack == 1 then update_rtt s slot1.sent_ts e else (s, e) in
    (record s1 { pkt_buf = set s1.pkt_buf i (record slot1 { packet = none }) }, e1)

-- The loop that shifts the window head; the last component of the result is the loop's `i`.
unfoldable pub shift_from : ℕ → ℕ → Sender → ℕ → Env → Option (ℕ × Sender × Env)
shift_from zero i s ack_num e = some (i, s, e)
shift_from (suc n) i s ack_num e = get_elem? s.pkt_buf i >>= λ slot. slot.packet >>= λ packet.
    let (s1, e1) = release s i slot e in
    let rest = shift_from n (i + 1) s1 ack_num e1 in
    if ltb packet.header.seq_num ack_num then rest else some (i, s, e)

-- The loop that sends what the new window reaches.
unfoldable pub fill_from : ℕ → ℕ → Sender → Env → Option (Sender × Env)
fill_from zero i s e = some (s, e)
fill_from (suc n) i s e =
    let next = get_elem? s.pkt_buf i >>= λ slot. elim slot.packet [
      | none ↦ some (s, e)
      | some packet ↦ ctl_send s i e
    ] in
    let rest = next >>= λ (s1, e1). fill_from n (i + 1) s1 e1 in
    if ltb i (s.head + s.window_size) then rest else some (s, e)

-- What follows the count of an ACK that counts, where `last_sent` is the end of the old window.
-- The first component says that the function ends in `connection_closed(sender->peer)`, which the
-- caller carries out.
unfoldable pub advance : Sender → ℕ → ℕ → Env → Option (Bool × Sender × Env)
advance s last_sent ack_num e = shift_from (s.tail - s.head) s.head s ack_num e >>= λ (i, s1, e1).
    let s2 = record s1 { head = i } in
    let start = max last_sent i in
    if leb buffer_len ack_num
    then some (true, s2, e1)
    else (fill_from (s2.tail - start) start s2 e1 >>= λ (s3, e3). some (false, s3, e3))

unfoldable pub ctl_udp_ack : Sender → ℕ → Env → Option (Bool × Sender × Env)
ctl_udp_ack s ack_num e = count_ack s ack_num e >>= λ (goes_on, s1, e1).
    if goes_on then advance s1 (s.head + s.window_size) ack_num e1 else some (false, s1, e1)
