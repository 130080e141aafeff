-- ===== src/Peer/Sound.antt =====
-- What holds of the process between two events, and that the timer and a datagram keep it.
use proj.Prelude.{
  ℕ, ◌+◌, ◌*◌, ◌≤◌, ◌<◌, ◌≡◌, refl, ap, sym, subst, ◌∙◌, inl, inr, ◌⊎◌, false, not, ◌||◌, some,
  List, ◌∷◌, ◌++◌, arith, length, drop, Bool-cases, length-append, length-set, length-drop, ◌==◌,
  if_true, if_false,
}
use proj.Prelude.Int.{pos, ltb_ℤ, ◌-ℤ◌}
use proj.Wire.{Packet, Peer, Env, bt_magic, my_get_time}
use proj.Requestor.{Requestor}
use proj.Requestor.Invariant.{Valid}
use proj.Requestor.Receive.{requestor_packet, requstor_timeout, hash_count}
use proj.Requestor.Expire.{requstor_timeout-Valid}
use proj.Requestor.Offer.{Handled, requestor_packet-Handled}
use proj.Responser.{Responser}
use proj.Responser.Serving.{Serving, SameLibrary, SameLibrary-refl}
use proj.Responser.Answer.{Texts, responser_packet-Answered}
use proj.Peer.{Process, Received, read_packet, find_peer, dispatch, check_timer}
use proj.Peer.Inbound.{received}
use proj.Peer.Senders.{Serving-next}
use proj.Peer.Turns.{ack_senders-Turn, time_out_senders-Turn}

-- A download satisfies its invariant, or none is in progress; the bookkeeping of the uploads is
-- right, and no packet in a window has a `packet_len` above `cap`; there are the four senders; the
-- hashes of the served chunks end in a 0, the master file can be opened, and the receive buffer has
-- its size.
pub record Sound (cap : ℕ) (w : Process) : Type 0 where
  pub download : Valid w.requestor ⊎ (w.requestor.in_progress ≡ false)
  pub uploads : Serving cap 0 w.responser
  pub slots : length w.responser.senders ≡ 4
  pub texts : Texts w.responser.chunks
  pub master : (m : List ℕ) × (w.responser.master ≡ some m)
  pub room : length w.buf ≡ 1500

-- What a datagram must be like: shorter than the buffer; and the packet that is read from the
-- buffer, if it comes from a known peer, must have a number inside the chunk if it is a DATA
-- packet, and announce no more hashes than the buffer has room for if it is an IHAVE or a WHOHAS.
-- `downloading` and `uploadingto` have a place for the peer.
pub record Acceptable (w : Process) (r : Received) : Type 0 where
  pub short : length r.bytes < 1500
  pub sane :
      (p : Packet) (q : Peer)
      → read_packet (received w r) ≡ some p
      → p.header.magicnum ≡ bt_magic
      → find_peer w.env.peers r.sin_addr r.sin_port ≡ some q
      → (q.id < 1024)
        × (p.header.packet_type ≡ 3 → p.header.seq_num < 1024)
        × (p.header.packet_type ≡ 0 → 40 * hash_count p.header ≤ 1484)
        × (p.header.packet_type ≡ 1 → 40 * hash_count p.header ≤ 1484)

module _ {cap : ℕ} (w : Process) (v : Sound cap w) where
  -- The library of chunks is as before.
  pub kept :
      {n : ℕ} (req : Requestor) (res : Responser) (w' : Process)
      → w'.requestor ≡ req
      → w'.responser ≡ res
      → w'.buf ≡ w.buf
      → Valid req ⊎ (req.in_progress ≡ false)
      → Serving n 0 res
      → SameLibrary w.responser res
      → Sound n w'
  kept req res w' a b c d u l =
      let (m, opens) = v.master in
      record {
        download = subst (λ (x : Requestor). Valid x ⊎ (x.in_progress ≡ false)) (sym a) d;
        uploads = subst (Serving _ 0) (sym b) u;
        slots = ap (λ (x : Responser). length x.senders) b ∙ (l.slots ∙ v.slots);
        texts =
            subst (λ (x : Responser). Texts x.chunks) (sym b) (subst Texts (sym l.chunks) v.texts);
        master = (m, ap (λ (x : Responser). x.master) b ∙ (l.master ∙ opens));
        room = ap length c ∙ v.room;
      }

-- The packet that is read from the receive buffer, and the place behind its header.
pub read_packet-room :
    (xs : List ℕ)
    → 16 ≤ length xs
    → (p : Packet) × (read_packet xs ≡ some p) × (16 + length p.payload ≡ length xs)
unfolding read_packet
read_packet-room
      (m0 ∷ m1 ∷ v ∷ t ∷ h0 ∷ h1 ∷ p0 ∷ p1 ∷ s0 ∷ s1 ∷ s2 ∷ s3 ∷ a0 ∷ a1 ∷ a2 ∷ a3 ∷ rest) h =
    (_, refl, omega arith)
read_packet-room _ h = absurd (omega arith)

pub length-received :
    (w : Process) (r : Received)
    → length r.bytes < 1500
    → length w.buf ≡ 1500
    → length (received w r) ≡ 1500
length-received w r short room = omega (
  arith,
  length-set (r.bytes ++ drop (length r.bytes) w.buf) (length r.bytes) 0,
  length-append r.bytes (drop (length r.bytes) w.buf),
  length-drop (length r.bytes) w.buf,
)

timed :
    (req : Requestor) (e : Env)
    → Valid req ⊎ (req.in_progress ≡ false)
    → Handled (requstor_timeout req e)
unfolding requstor_timeout
timed req e (inl v) =
    let (r, e', runs, v', same) = requstor_timeout-Valid req e v in (r, e', runs, inl v')
timed req e (inr idle) = (req, e, if_false _ _ idle, inr idle)

taken_in :
    (shahash : List ℕ → List ℕ) (req : Requestor) (peer : ℕ) (p : Packet) (e : Env)
    → ((xs : List ℕ) → length (shahash xs) ≡ 20)
    → Valid req ⊎ (req.in_progress ≡ false)
    → peer < 1024
    → (p.header.packet_type ≡ 1 → 40 * hash_count p.header ≤ length p.payload)
    → (p.header.packet_type ≡ 3 → p.header.seq_num < 1024)
    → Handled (requestor_packet shahash req peer p e)
unfolding requestor_packet
taken_in shahash req peer p e size (inl v) known offers numbered =
    requestor_packet-Handled shahash req peer p e size v known offers numbered
taken_in shahash req peer p e size (inr idle) known offers numbered =
    (req, e, if_true _ _ (ap not idle), inr idle)

module _ {cap : ℕ} (w : Process) (v : Sound cap w) (small : cap ≤ 1484) where
  -- The part of a round that the timer has.
  pub check_timer-Sound : (w1 : Process) × (check_timer w ≡ some w1) × Sound (cap + 16) w1
  unfolding check_timer
  check_timer-Sound =
      let now = (my_get_time w.env).0 in
      let e1 = (my_get_time w.env).1 in
      let (req, e2, expires, d) = timed w.requestor e1 v.download in
      let (res, e3, ticks, u, l) =
        time_out_senders-Turn 4 0 w.responser e2 v.uploads small (sym v.slots) in
      elim (Bool-cases (ltb_ℤ (pos 1000000) (now -ℤ w.last_time))) [
        | inl late ↦ (
          record w { requestor = req; responser = res; last_time = now; env = e3 },
          rw (late, expires, ticks) refl,
          kept w v req res
              (record w { requestor = req; responser = res; last_time = now; env = e3 }) refl refl
              refl d (Serving-next u) l,
        )
        | inr early ↦ (
          record w { env = e1 },
          rw early refl,
          kept w v w.requestor w.responser (record w { env = e1 }) refl refl refl v.download
              (Serving-next v.uploads) (SameLibrary-refl w.responser),
        )
      ]

  pub dispatch-Sound :
      (shahash : List ℕ → List ℕ) (peer : ℕ) (p : Packet)
      → 544 ≤ cap
      → ((xs : List ℕ) → length (shahash xs) ≡ 20)
      → length p.payload ≡ 1484
      → peer < 1024
      → (p.header.packet_type ≡ 3 → p.header.seq_num < 1024)
      → (p.header.packet_type ≡ 0 → 40 * hash_count p.header ≤ 1484)
      → (p.header.packet_type ≡ 1 → 40 * hash_count p.header ≤ 1484)
      → (w1 : Process) × (dispatch shahash w peer p ≡ some w1) × Sound (cap + 16) w1
  unfolding dispatch
  dispatch-Sound shahash peer p large size room known numbered asks offers =
      let t = p.header.packet_type in
      let lib = SameLibrary-refl w.responser in
      elim (Bool-cases (t == 1 || (t == 3 || t == 5))) [
        | inl to_requestor ↦
            let (req, e, runs, d) =
              taken_in shahash w.requestor peer p w.env size v.download known
                (λ h. omega (arith, offers h)) numbered in
            (
              record w { requestor = req; env = e },
              rw (to_requestor, runs) refl,
              kept w v req w.responser (record w { requestor = req; env = e }) refl refl refl d
                  (Serving-next v.uploads) lib,
            )
        | inr other ↦ elim (Bool-cases (t == 0 || t == 2)) [
          | inl to_responser ↦
              let (m, opens) = v.master in
              let (res, e, runs, u, l) =
                responser_packet-Answered w.responser peer p m w.env v.uploads large v.texts opens
                  known (λ h. omega (arith, asks h)) (λ h. omega arith) in
              (
                record w { responser = res; env = e },
                rw (other, to_responser, runs) refl,
                kept w v w.requestor res (record w { responser = res; env = e }) refl refl refl
                    v.download (Serving-next u) l,
              )
          | inr neither ↦
              let (res, e, runs, u, l) =
                ack_senders-Turn 4 0 w.responser peer p.header.ack_num w.env v.uploads small
                  (sym v.slots) in
              (
                record w { responser = res; env = e },
                rw (other, neither, runs) refl,
                kept w v w.requestor res (record w { responser = res; env = e }) refl refl refl
                    v.download (Serving-next u) l,
              )
        ]
      ]
