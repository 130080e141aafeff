-- ===== src/Sender.antt =====
-- send.c and send.h: the sender of one upload, with its congestion window. A function of the source
-- that updates `*sender` takes the sender and the environment and returns both; `none` is an
-- access outside `pkt_buf` or through a null packet pointer. The times are `long`s that do not
-- overflow, and the counters and indices are `int`s that are never negative.
pub mod Ack
pub mod Timeout
pub mod Invariant
pub mod Safety
pub mod Shift
pub mod Total
pub mod Late
pub mod Load
pub mod Phase
pub mod Clock
use proj.Prelude.{
  ℕ, zero, suc, ◌+◌, ◌-◌, ◌*◌, ◌/◌, Bool, true, false, not, ◌&&◌, Option, none, some, List, ltb,
  ◌==◌, if◌then◌else◌, ◌>>=◌, get_elem?, set, replicate,
}
use proj.Prelude.Int.{ℤ, pos, negsuc, ◌+ℤ◌, ◌-ℤ◌, ◌*ℤ◌, quot, ltb_ℤ, eqb_ℤ, to_int}
use proj.Wire.{
  Packet, Env, bt_chunk_size, bt_packet_data_size, ticks_per_milisecond, my_get_time, log_window,
  send_packet,
}

-- `packet_pointer_t`. `packet` is the source's `data`: `none` is a null pointer.
pub record Slot : Type 0 where
  pub packet : Option Packet
  pub ack : ℕ
  pub sent_ts : ℤ
  pub resend : ℕ

pub data WindowState : Type 0 where
  slow_start cong_ctl : WindowState

-- `bt_sender_t`. `last_ack_num` is kept as its 32-bit pattern.
pub record Sender : Type 0 where
  pub is_idle : Bool
  pub id : ℕ
  pub peer : ℕ
  pub rtt : ℤ
  pub last_tick : ℤ
  pub window_state : WindowState
  pub window_ssthresh : ℕ
  pub window_size : ℕ
  pub last_window_update_clock : ℤ
  pub last_ack_num : ℕ
  pub last_ack_cnt : ℕ
  pub head : ℕ
  pub tail : ℕ
  pub pkt_buf : List Slot

abbrev pub buffer_len : ℕ
buffer_len = bt_chunk_size / bt_packet_data_size

abbrev pub dup_ack_thres : ℕ
dup_ack_thres = 3

abbrev pub ack_timeout : ℕ
ack_timeout = ticks_per_milisecond * 2

abbrev pub bt_rtt_alpha : ℕ
bt_rtt_alpha = 8

abbrev pub resend_thres : ℕ
resend_thres = 5

abbrev pub blank : Slot
blank = record { packet = none; ack = 0; sent_ts = pos 0; resend = 0 }

unfoldable pub init_sender : Sender → ℕ → Env → Sender × Env
unfolding my_get_time
init_sender s id e =
    let (now, e1) = my_get_time e in
    (
      record s {
        tail = 0;
        head = 0;
        window_size = 1;
        pkt_buf = replicate buffer_len blank;
        window_state = slow_start;
        window_ssthresh = 64;
        last_window_update_clock = now;
        id = id;
        last_ack_num = 0;
        last_ack_cnt = 0;
        is_idle = false;
        rtt = pos 0;
        last_tick = pos 0;
      },
      e1,
    )

-- `(old_size/2 > 2)? (old_size/2):2`
abbrev pub halved : ℕ → ℕ
halved old_size = if ltb 2 (old_size / 2) then old_size / 2 else 2

-- A packet got lost: both cases of the `switch`, the second of which also changes the state.
unfoldable pub wd_lost : Sender → Env → Sender × Env
unfolding my_get_time log_window
wd_lost s e =
    let (now, e1) = my_get_time e in
    (
      record s {
        window_size = 1;
        window_ssthresh = halved s.window_size;
        window_state = slow_start;
      },
      log_window s.id now 1 e1,
    )

unfoldable pub wd_ack : Sender → Env → Sender × Env
unfolding my_get_time log_window
wd_ack s e =
    let (now, e1) = my_get_time e in
    let grown = log_window s.id now (s.window_size + 1) e1 in
    elim s.window_state [
      | slow_start ↦ (
        record s {
          window_size = s.window_size + 1;
          window_state = if ltb s.window_ssthresh (s.window_size + 1) then cong_ctl else slow_start;
          last_window_update_clock = now;
        },
        grown,
      )
      | cong_ctl ↦
          if ltb_ℤ (now -ℤ s.last_window_update_clock) s.rtt
          then (s, e1)
          else (record s { window_size = s.window_size + 1; last_window_update_clock = now }, grown)
    ]

-- Sends the packet at `pos` if the window reaches it, and makes a time stamp. No caller looks at
-- the result, so it is not kept.
unfoldable pub ctl_send : Sender → ℕ → Env → Option (Sender × Env)
ctl_send s at e = get_elem? s.pkt_buf at >>= λ slot.
    let (now, e1) = my_get_time e in
    if ltb at (s.head + s.window_size)
    then (slot.packet >>= λ packet. send_packet s.peer packet e1 >>= λ (packet', e2). some (
      record s {
        pkt_buf = set s.pkt_buf at (record slot { packet = some packet'; ack = 0; sent_ts = now });
      },
      e2,
    ))
    else some
        (record s { pkt_buf = set s.pkt_buf at (record slot { ack = 0; sent_ts = negsuc 0 }) }, e)

-- Appends a packet, a null pointer (`none`) is refused with -1 (`false`).
unfoldable pub ctl_udp_send : Sender → Option Packet → Env → Option (Bool × Sender × Env)
ctl_udp_send s none e = some (false, s, e)
ctl_udp_send s (some packet) e = get_elem? s.pkt_buf s.tail >>= λ old.
    let s1 = record s {
      pkt_buf =
          set s.pkt_buf s.tail
            (record { packet = some packet; ack = 0; sent_ts = negsuc 0; resend = 0 });
    } in
    (if ltb s1.tail (s1.head + s1.window_size) then ctl_send s1 s1.tail e else some (s1, e))
    >>= λ (s2, e2). some (true, record s2 { tail = s2.tail + 1 }, e2)

-- The estimate after one more measurement: a delayed ACK and jitter are ignored.
unfoldable pub next_rtt : ℤ → ℤ → ℤ
next_rtt rtt new_rtt =
    if ltb_ℤ (5 *ℤ new_rtt) rtt
    then rtt
    else if not (eqb_ℤ rtt (pos 0)) && ltb_ℤ rtt (quot new_rtt 5)
    then rtt
    else if eqb_ℤ rtt (pos 0)
    then new_rtt
    else quot (bt_rtt_alpha *ℤ rtt +ℤ (10 - bt_rtt_alpha) *ℤ new_rtt) 10

unfoldable pub update_rtt : Sender → ℤ → Env → Sender × Env
unfolding my_get_time
update_rtt s sent_ts e =
    let (now, e1) = my_get_time e in (record s { rtt = next_rtt s.rtt (now -ℤ sent_ts) }, e1)

-- The loop of `check_too_near`: `n` rounds are left, and `i` is the next index.
unfoldable pub check_from : ℕ → ℕ → Sender → ℕ → Env → Option (Bool × Env)
check_from zero i s ack_num e = some (false, e)
check_from (suc n) i s ack_num e = get_elem? s.pkt_buf i >>= λ slot. slot.packet >>= λ packet.
    let hit = packet.header.seq_num == ack_num in
    let (now, e1) = my_get_time e in
    let near = hit && ltb_ℤ (to_int now -ℤ slot.sent_ts) s.rtt in
    let rest = check_from n (i + 1) s ack_num (if hit then e1 else e) in
    if near then some (true, e1) else rest

unfoldable pub check_too_near : Sender → ℕ → Env → Option (Bool × Env)
unfolding check_from
check_too_near s ack_num e = check_from (s.tail - s.head) s.head s ack_num e
