-- ===== src/Responser/Content.antt =====
-- What the packets of an upload carry.
use native.Mathlib.Decide.{ℕ_discrete}
use proj.Prelude.{
  ℕ, zero, suc, ◌+◌, ◌*◌, ◌≤◌, ◌<◌, ◌≡◌, ◌≢◌, refl, ap, sym, ◌∙◌, inl, inr, Bool, true, none, some,
  List, ◌++◌, arith, length, take, drop, get_elem?, set, length-set, length-drop, length-take_le,
  take-length, get_elem?-set_self, get_elem?-set_ne, get_elem?-lt, some-eq, Option-cases,
  Bool-cases, ltb,
}
use proj.Prelude.Int.{negsuc}
use proj.Wire.{Packet, Env, send_packet, my_get_time}
use proj.Chunk.Count.{drop-drop}
use proj.Sender.{Slot, Sender, ctl_send, ctl_udp_send}
use proj.Sender.Load.{Filled, ctl_udp_send-Filled}
use proj.Responser.{fread_block, data_packet, send_blocks}

-- The first `n` slots hold packets with the given contents.
abbrev pub Holds : (ℕ → List ℕ) → ℕ → Sender → Type 0
Holds content n s =
    (j : ℕ)
    → j < n
    → (slot : Slot) × (p : Packet) × (get_elem? s.pkt_buf j ≡ some slot)
      × (slot.packet ≡ some p)
      × (p.payload ≡ content j)

send_packet-payload :
    (peer : ℕ) (p p' : Packet) (e e' : Env)
    → send_packet peer p e ≡ some (p', e')
    → p'.payload ≡ p.payload
unfolding send_packet
send_packet-payload peer p p' e e' h = ground arith

-- A slot is replaced by one with a packet with the same content.
Holds-set :
    (content : ℕ → List ℕ) (n at : ℕ) (s t : Sender) (new : Slot) (p : Packet)
    → t.pkt_buf ≡ set s.pkt_buf at new
    → at < length s.pkt_buf
    → new.packet ≡ some p
    → p.payload ≡ content at
    → ((j : ℕ)
        → j < n
        → at ≢ j
        → (slot : Slot) × (q : Packet) × (get_elem? s.pkt_buf j ≡ some slot)
          × (slot.packet ≡ some q)
          × (q.payload ≡ content j))
    → Holds content n t
Holds-set content n at s t new p buf inside packet here others j below = elim (ℕ_discrete at j) [
  | yes same ↦ (
    new,
    p,
    ap (λ b. get_elem? b j) buf
        ∙ (ap (get_elem? (set s.pkt_buf at new)) (sym same)
            ∙ get_elem?-set_self s.pkt_buf at new inside),
    packet,
    here ∙ ap content same,
  )
  | no other ↦
      let (slot', q, found, held, is) = others j below other in
      (
        slot',
        q,
        ap (λ b. get_elem? b j) buf ∙ (get_elem?-set_ne s.pkt_buf at j new other ∙ found),
        held,
        is,
      )
]

-- `ctl_send` replaces one slot, and the packet in it keeps its content.
ctl_send-slot :
    (s t : Sender) (at : ℕ) (slot : Slot) (p : Packet) (e e' : Env)
    → get_elem? s.pkt_buf at ≡ some slot
    → slot.packet ≡ some p
    → ctl_send s at e ≡ some (t, e')
    → (new : Slot) × (q : Packet) × (t.pkt_buf ≡ set s.pkt_buf at new)
      × (new.packet ≡ some q)
      × (q.payload ≡ p.payload)
unfolding ctl_send
ctl_send-slot s t at slot p e e' found packet runs =
    let now = (my_get_time e).0 in
    let e1 = (my_get_time e).1 in
    elim (Bool-cases (ltb at (s.head + s.window_size))) [
      | inr beyond ↦
          let new : Slot = record slot { ack = 0; sent_ts = negsuc 0 } in
          let does : ctl_send s at e ≡ some (record s { pkt_buf = set s.pkt_buf at new }, e) =
            rw (found, beyond) refl in
          let same = some-eq _ _ (sym runs ∙ does) in
          (new, p, ap (λ (r : Sender × Env). r.0.pkt_buf) same, packet, refl)
      | inl within ↦ elim (Option-cases (send_packet s.peer p e1)) [
        | inl fault ↦
            let does : ctl_send s at e ≡ none = rw (found, within) (simp (packet, fault)) in
            absurd (cc (runs, does))
        | inr ((q, e2), sends) ↦
            let new : Slot = record slot { packet = some q; ack = 0; sent_ts = now } in
            let does : ctl_send s at e ≡ some (record s { pkt_buf = set s.pkt_buf at new }, e2) =
              rw (found, within) (simp (packet, sends)) in
            let same = some-eq _ _ (sym runs ∙ does) in
            (
              new,
              q,
              ap (λ (r : Sender × Env). r.0.pkt_buf) same,
              refl,
              send_packet-payload s.peer p q e1 e2 sends,
            )
      ]
    ]

-- A sender with one more packet in its buffer.
abbrev put : Sender → Packet → Sender
put s p = record s {
  pkt_buf =
      set s.pkt_buf s.tail (record { packet = some p; ack = 0; sent_ts = negsuc 0; resend = 0 });
}

put-others :
    (content : ℕ → List ℕ) (s : Sender) (p : Packet) (j : ℕ)
    → Holds content s.tail s
    → j < s.tail + 1
    → s.tail ≢ j
    → (slot : Slot) × (q : Packet) × (get_elem? (put s p).pkt_buf j ≡ some slot)
      × (slot.packet ≡ some q)
      × (q.payload ≡ content j)
put-others content s p j holds below other =
    let (slot, q, found, held, is) = holds j (omega (arith, other)) in
    (slot, q, get_elem?-set_ne s.pkt_buf s.tail j _ other ∙ found, held, is)

ctl_udp_send-Holds :
    (content : ℕ → List ℕ) (s t : Sender) (p : Packet) (e e' : Env)
    → Holds content s.tail s
    → s.tail < length s.pkt_buf
    → p.payload ≡ content s.tail
    → ctl_udp_send s (some p) e ≡ some (true, t, e')
    → Holds content (s.tail + 1) t
unfolding ctl_udp_send
ctl_udp_send-Holds content s t p e e' holds room is runs =
    let n = s.tail in
    let (old, found) = get_elem?-lt s.pkt_buf n room in
    let size =
      length-set s.pkt_buf n
        (record { packet = some p; ack = 0; sent_ts = negsuc 0; resend = 0 }) in
    let self =
      get_elem?-set_self s.pkt_buf n
        (record { packet = some p; ack = 0; sent_ts = negsuc 0; resend = 0 }) room in
    elim (Bool-cases (ltb n (s.head + s.window_size))) [
      | inr beyond ↦
          let does : ctl_udp_send s (some p) e ≡ some (true, record (put s p) { tail = n + 1 }, e) =
            rw (found, beyond) refl in
          let same = some-eq _ _ (sym runs ∙ does) in
          Holds-set content (n + 1) n s t _ p (ap (λ (r : Bool × Sender × Env). r.1.pkt_buf) same)
            room refl is (λ j below other. holds j (omega (arith, other)))
      | inl within ↦ elim (Option-cases (ctl_send (put s p) n e)) [
        | inl fault ↦
            let does : ctl_udp_send s (some p) e ≡ none = rw (found, within, fault) refl in
            absurd (cc (runs, does))
        | inr ((u, e1), sends) ↦
            let does : ctl_udp_send s (some p) e ≡ some (true, record u { tail = u.tail + 1 }, e1) =
              rw (found, within, sends) refl in
            let same = some-eq _ _ (sym runs ∙ does) in
            let (new, q, buf, packet, payload) =
              ctl_send-slot (put s p) u n _ p e e1 self refl sends in
            Holds-set content (n + 1) n (put s p) t new q
              (ap (λ (r : Bool × Sender × Env). r.1.pkt_buf) same ∙ buf) (omega (arith, size))
              packet (payload ∙ is) (λ j below other. put-others content s p j holds below other)
      ]
    ]

-- Block `i` of what is left of a file.
abbrev pub block_of : List ℕ → ℕ → List ℕ
block_of rest i = take 512 (drop (512 * i) rest)

data_packet-payload :
    (seq_num : ℕ) (rest buf : List ℕ) (e : Env)
    → 512 ≤ length rest
    → (data_packet seq_num (fread_block rest buf) e).payload ≡ block_of rest 0
unfolding data_packet fread_block
data_packet-payload seq_num rest buf e full =
    let got = take 512 rest in
    let size : length got ≡ 512 = length-take_le 512 rest full in
    ap (λ n. take n (got ++ drop (length got) buf)) (sym size)
    ∙ take-length got (drop (length got) buf)

data_packet-seq_num :
    (seq_num : ℕ) (buf : List ℕ) (e : Env) → (data_packet seq_num buf e).header.seq_num ≡ seq_num
unfolding data_packet
data_packet-seq_num seq_num buf e = refl

data_packet-packet_len :
    (seq_num : ℕ) (buf : List ℕ) (e : Env) → (data_packet seq_num buf e).header.packet_len ≤ 528
unfolding data_packet
data_packet-packet_len seq_num buf e = omega arith

send_blocks-Holds :
    (content : ℕ → List ℕ) (rounds seq_num : ℕ) (rest buf : List ℕ) (s : Sender) (e : Env)
    → Filled 528 seq_num s
    → seq_num + rounds ≡ 1024
    → Holds content seq_num s
    → 512 * rounds ≤ length rest
    → ((i : ℕ) → i < rounds → block_of rest i ≡ content (seq_num + i))
    → (buf' : List ℕ) × (t : Sender) × (e' : Env) × (send_blocks rounds seq_num rest buf s e
        ≡ some (buf', t, e'))
      × Filled 528 1024 t
      × (t.peer ≡ s.peer)
      × Holds content 1024 t
unfolding send_blocks
send_blocks-Holds content zero seq_num rest buf s e f end holds full blocks =
    let all : seq_num ≡ 1024 = omega arith in
    (buf, s, e, refl, rw (← all) f, refl, rw (← all) holds)
send_blocks-Holds content (suc rounds) seq_num rest buf s e f end holds full blocks =
    let buf1 = fread_block rest buf in
    let p = data_packet seq_num buf1 e in
    let (t, e1, sent, f1, same) =
      ctl_udp_send-Filled s p e f (omega arith) (omega arith) (data_packet-seq_num seq_num buf1 e)
        (data_packet-packet_len seq_num buf1 e) in
    let first : seq_num + 0 ≡ seq_num = omega arith in
    let payload : p.payload ≡ content s.tail =
      data_packet-payload seq_num rest buf e (omega arith)
      ∙ (blocks 0 (omega arith) ∙ ap content (first ∙ sym f.count)) in
    let more : Holds content (seq_num + 1) t = λ j below.
      ctl_udp_send-Holds content s t p e e1 (λ i h. holds i (omega (arith, f.count)))
        (omega (arith, f.count, f.window.size)) payload sent j (omega (arith, f.count)) in
    let (buf2, u, e2, others, f2, same2, holds2) =
      send_blocks-Holds content rounds (seq_num + 1) (drop 512 rest) buf1 t e1 f1 (omega arith) more
        (omega (arith, length-drop 512 rest))
        (λ i h.
          let on : 512 + 512 * i ≡ 512 * suc i = omega arith in
          let next : seq_num + suc i ≡ seq_num + 1 + i = omega arith in
          ap (take 512) (drop-drop 512 (512 * i) rest ∙ ap (λ k. drop k rest) on)
          ∙ (blocks (suc i) (omega arith) ∙ ap content next)) in
    (buf2, u, e2, rw sent others, f2, same2 ∙ same, holds2)

-- A sender was initialised, and the file has a whole chunk left. Then the loop of `send_chunk`
-- makes no fault, and the sender holds 1024 packets for the same peer, of which number j carries
-- the j-th block of 512 bytes of the chunk.
pub send_blocks-block_of :
    (rest buf : List ℕ) (s : Sender) (e : Env)
    → Filled 528 0 s
    → 524288 ≤ length rest
    → (buf' : List ℕ) × (t : Sender) × (e' : Env) × (send_blocks 1024 0 rest buf s e
        ≡ some (buf', t, e'))
      × Filled 528 1024 t
      × (t.peer ≡ s.peer)
      × Holds (block_of rest) 1024 t
send_blocks-block_of rest buf s e f full =
    send_blocks-Holds (block_of rest) 1024 0 rest buf s e f (omega arith)
      (λ j h. absurd (omega arith)) (omega arith)
      (λ i h. let same : i ≡ 0 + i = omega arith in ap (block_of rest) same)
