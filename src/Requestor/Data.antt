-- ===== src/Requestor/Data.antt =====
-- `update_data`: a DATA packet.
use native.Mathlib.Decide.{dec_lt}
use proj.Prelude.{
  ℕ, ◌-◌, ◌≤◌, ◌<◌, ◌≡◌, refl, ap, sym, subst, ◌∙◌, inl, inr, ◌≢◌, Bool, true, false, Option, none,
  some, List, arith, length, get_elem?, get_elem?-lt, lt_of_get_elem?, get_elem?-set_self,
  Bool-cases, Option-cases, ◌==◌, if◌then◌else◌, ltb,
}
use proj.Prelude.Int.{negsuc, ◌≤ℤ◌}
use proj.Wire.{Header, Packet, Env, read_bytes}
use proj.Wire.Send.{send_packet_total, grown, outgoing}
use proj.Requestor.{ChunkStatus, Requestor, put_chunk}
use proj.Requestor.Receive.{finish_chunk, send_ack, receive, update_data}
use proj.Requestor.Distinct.{distinct}
use proj.Requestor.Progress.{Marks, Acked, first_missing_lem, store_data-Marks, store_data_overflow}
use proj.Requestor.Invariant.{IsChunk, Valid, Valid-put}
use proj.Requestor.Finish.{Finish, finish_chunk-Finish, hash_matches}

-- The ACK that `send_ack` puts on the wire.
abbrev pub ack_header : Header → ℕ → Header
ack_header h n = record h { seq_num = n; ack_num = n; packet_type = 4; packet_len = 0 }

abbrev ack_for : Packet → ℕ → Packet
ack_for p n = record p { header = ack_header p.header n }

send_ack-total :
    (peer n : ℕ) (p : Packet) (e : Env)
    → send_ack peer (record p { header = record (p.header) { seq_num = n } }) e
      ≡ some (
        record p { header = grown (ack_for p n) },
        record e { sent = outgoing peer (ack_for p n) e },
      )
unfolding send_ack
send_ack-total peer n p e = send_packet_total peer (ack_for p n) e (omega arith)

-- The cumulative ACK is a number of packets.
Acked-le : (c : ChunkStatus) → Marks c → Acked c → c.cur_ack ≤ 1024
Acked-le c m a = elim (dec_lt 1024 c.cur_ack) [
  | yes over ↦ absurd (omega (arith, lt_of_get_elem? c.recved 1024 true (a 1024 over), m.marks))
  | no fits ↦ omega arith
]

-- The status of a chunk after a packet of it was stored: `n` is the first packet that is missing.
pub record Stored (c : ChunkStatus) (p : Packet) (e : Env) (d : ChunkStatus) : Type 0 where
  pub chunk : IsChunk d
  pub who : d.cur_provider ≡ c.cur_provider
  pub low : c.cur_ack ≤ d.cur_ack
  pub next : d.cur_ack < 1024 → get_elem? d.recved d.cur_ack ≡ some false
  pub mark : get_elem? d.recved p.header.seq_num ≡ some true
  pub block : get_elem? d.data_buf p.header.seq_num ≡ some (read_bytes e.stray 512 p.payload)
  pub others : (j : ℕ) → p.header.seq_num ≢ j → get_elem? d.data_buf j ≡ get_elem? c.data_buf j
  pub marks : (j : ℕ) → p.header.seq_num ≢ j → get_elem? d.recved j ≡ get_elem? c.recved j
  pub hash : d.hash ≡ c.hash

-- The end of `receive`.
abbrev ending : (List ℕ → List ℕ) → Requestor → ℕ → ChunkStatus → Env → Option (Requestor × Env)
ending shahash req i d e =
    if d.left == 0
    then finish_chunk shahash (put_chunk req i d) i e
    else some (put_chunk req i d, e)

receive-Stored :
    (shahash : List ℕ → List ℕ) (req : Requestor) (peer i : ℕ) (c : ChunkStatus) (p : Packet)
    (e : Env)
    → IsChunk c
    → c.cur_provider ≡ some peer
    → p.header.seq_num < 1024
    → (d : ChunkStatus) × (receive shahash req peer i c p e
        ≡ ending shahash req i d (record e { sent = outgoing peer (ack_for p d.cur_ack) e }))
      × Stored c p e d
unfolding receive
receive-Stored shahash req peer i c p e o who inside =
    let (c1, kept, marks, keeps, same, mark, block, _, others, unmarked) =
      store_data-Marks c p e o.marks inside in
    let acked1 = keeps (o.acked peer who) in
    let fits = Acked-le c1 marks acked1 in
    let (n, from, low, high, all, stop) =
      first_missing_lem (1024 - c1.cur_ack) c1.cur_ack c1.recved
        (omega (arith, marks.marks, fits)) in
    let d : ChunkStatus = record c1 { cur_ack = n } in
    (
      d,
      rw (kept, from, send_ack-total peer n p e) refl,
      record {
        chunk = record {
          distinct = ap distinct same.providers ∙ o.distinct;
          known = λ k q h. o.known k q (ap (λ ps. get_elem? ps k) (sym same.providers) ∙ h);
          last = subst (λ z. negsuc 0 ≤ℤ z) (sym same.last_provider) o.last;
          marks = record { marks = marks.marks; blocks = marks.blocks; count = marks.count };
          acked = λ q h j a. elim (dec_lt j c1.cur_ack) [
            | yes before ↦ acked1 j before
            | no after ↦ all j (omega arith) a
          ];
          text = (o.text.0, same.hash ∙ o.text.1);
          idle = λ h. same.cur_provider ∙ o.idle (sym same.finished ∙ h);
        };
        who = same.cur_provider;
        low = omega (arith, same.cur_ack);
        next = λ h. stop (omega arith);
        mark = mark;
        block = block;
        others = others;
        marks = unmarked;
        hash = same.hash;
      },
    )

-- What a DATA packet from `peer` does to the download.
pub data Update (shahash : List ℕ → List ℕ) (req : Requestor) (peer : ℕ) (p : Packet) (e : Env)
    : Option (Requestor × Env) → Type 0 where
  uncalled :
      get_elem? req.downloading peer ≡ some none → Update shahash req peer p e (some (req, e))
  outdated :
      (i : ℕ) (c : ChunkStatus)
      → get_elem? req.downloading peer ≡ some (some i)
      → get_elem? req.chunks i ≡ some c
      → p.header.seq_num < c.cur_ack
      → Update shahash req peer p e (some (req, e))
  stored :
      (i : ℕ) (c d : ChunkStatus)
      → get_elem? req.downloading peer ≡ some (some i)
      → get_elem? req.chunks i ≡ some c
      → Stored c p e d
      → d.left ≢ 0
      → Valid (put_chunk req i d)
      → Update shahash req peer p e
          (some (put_chunk req i d, record e { sent = outgoing peer (ack_for p d.cur_ack) e }))
  finished :
      (i : ℕ) (c d : ChunkStatus) (r : Requestor) (e' : Env) (matches : Bool)
      → get_elem? req.downloading peer ≡ some (some i)
      → get_elem? req.chunks i ≡ some c
      → Stored c p e d
      → d.left ≡ 0
      → hash_matches shahash d ≡ some matches
      → Finish (put_chunk req i d) i d r matches
      → Update shahash req peer p e (some (r, e'))

ending-Update :
    (shahash : List ℕ → List ℕ) (req : Requestor) (peer i : ℕ) (c d : ChunkStatus) (p : Packet)
    (e : Env)
    → ((xs : List ℕ) → length (shahash xs) ≡ 20)
    → Valid req
    → get_elem? req.downloading peer ≡ some (some i)
    → get_elem? req.chunks i ≡ some c
    → c.cur_provider ≡ some peer
    → Stored c p e d
    → Update shahash req peer p e
        (ending shahash req i d (record e { sent = outgoing peer (ack_for p d.cur_ack) e }))
ending-Update shahash req peer i c d p e size v busy found who s =
    let req1 = put_chunk req i d in
    let e1 = record e { sent = outgoing peer (ack_for p d.cur_ack) e } in
    let v1 : Valid req1 = Valid-put req i c d v found s.chunk s.who in
    let (r, e', matches, ends, same, how) =
      finish_chunk-Finish shahash req1 i peer d e1 size v1
        (get_elem?-set_self req.chunks i d (lt_of_get_elem? req.chunks i c found)) (s.who ∙ who) in
    elim (Bool-cases (d.left == 0)) [
      | inl last ↦
          rw (last, ends) (finished i c d r e' matches busy found s (ground arith) same how)
      | inr more ↦ rw more (stored i c d busy found s (ground arith) v1)
    ]

pub update_data-Update :
    (shahash : List ℕ → List ℕ) (req : Requestor) (peer : ℕ) (p : Packet) (e : Env)
    → ((xs : List ℕ) → length (shahash xs) ≡ 20)
    → Valid req
    → peer < 1024
    → p.header.seq_num < 1024
    → Update shahash req peer p e (update_data shahash req peer p e)
unfolding update_data
update_data-Update shahash req peer p e size v known inside =
    let (current, busy) = get_elem?-lt req.downloading peer (omega (arith, v.peers)) in
    elim (Option-cases current) [
      | inl free ↦ rw (busy, free) (uncalled (busy ∙ ap some free))
      | inr (i, is) ↦
          let busy' = busy ∙ ap some is in
          let (c, found, who) = v.by_peer peer i busy' in
          let (d, ends, s) =
            receive-Stored shahash req peer i c p e (v.each i c found) who inside in
          elim (Bool-cases (ltb p.header.seq_num c.cur_ack)) [
            | inl old ↦ rw (busy', found, old) (outdated i c busy' found (ground arith))
            | inr new ↦
                rw (busy', found, new, ends)
                  (ending-Update shahash req peer i c d p e size v busy' found who s)
          ]
    ]

-- On a download that satisfies the invariant, a DATA packet from a peer that is asked for a chunk,
-- whose number is behind the last packet of a chunk, is written behind the end of the arrays: there
-- is no check of the number.
pub update_data_overflow :
    (shahash : List ℕ → List ℕ) (req : Requestor) (peer i : ℕ) (p : Packet) (e : Env)
    → Valid req
    → get_elem? req.downloading peer ≡ some (some i)
    → 1024 ≤ p.header.seq_num
    → update_data shahash req peer p e ≡ none
unfolding update_data receive
update_data_overflow shahash req peer i p e v busy over =
    let (c, found, who) = v.by_peer peer i busy in
    let o = v.each i c found in
    let new : ltb p.header.seq_num c.cur_ack ≡ false =
      ground (arith, Acked-le c o.marks (o.acked peer who)) in
    rw (busy, found, new, store_data_overflow c p e o.marks.blocks over) refl
