-- ===== src/Wire/Send.antt =====
-- What a call of `send_packet` puts on the wire, and what it leaves in the caller's packet.
use native.Mathlib.Decide.{dec_le}
use proj.Prelude.{
  ℕ, zero, suc, ◌+◌, ◌≤◌, ◌<◌, ◌≡◌, refl, ap, none, some, List, [], ◌∷◌, arith, length, take,
  le→ltb, lt→ltb, Option-cases, inl, inr, ◌∙◌, ◌*◌, ◌>>=◌, Option,
}
use proj.Wire.{
  Header, Packet, Peer, Datagram, Env, header_size, bt_peer_info, read_bytes, send_packet,
}

pub length-read_bytes : (stray : ℕ → ℕ) (n : ℕ) (xs : List ℕ) → length (read_bytes stray n xs) ≡ n
unfolding read_bytes
length-read_bytes stray zero xs = refl
length-read_bytes stray (suc n) [] = ap suc (length-read_bytes stray n [])
length-read_bytes stray (suc n) (x ∷ xs) = ap suc (length-read_bytes stray n xs)

pub take-read_bytes :
    (stray : ℕ → ℕ) (n : ℕ) (xs : List ℕ)
    → length xs ≤ n
    → take (length xs) (read_bytes stray n xs) ≡ xs
unfolding read_bytes
take-read_bytes stray n [] h = refl
take-read_bytes stray zero (x ∷ xs) h = absurd (omega arith)
take-read_bytes stray (suc n) (x ∷ xs) h =
    ap (λ ys. x ∷ ys) (take-read_bytes stray n xs (omega arith))

-- The header after the call.
abbrev pub grown : Packet → Header
grown p = record (p.header) { packet_len = p.header.packet_len + header_size }

-- What is on the wire after the call.
abbrev pub outgoing : ℕ → Packet → Env → List Datagram
outgoing peer p e = elim (bt_peer_info e.peers peer) [
  | none ↦ e.sent
  | some q ↦
      record {
        dest = q;
        header = grown p;
        payload = read_bytes e.stray p.header.packet_len p.payload;
      }
      ∷ e.sent
]

-- A packet of at most 1484 bytes is sent without a fault: the caller's packet keeps its payload
-- and has grown by the size of a header, and of the environment only `sent` changes.
pub send_packet_total :
    (peer : ℕ) (p : Packet) (e : Env)
    → p.header.packet_len ≤ 1484
    → send_packet peer p e
      ≡ some (record p { header = grown p }, record e { sent = outgoing peer p e })
unfolding send_packet
send_packet_total peer p e h = elim (Option-cases (bt_peer_info e.peers peer)) [
  | inl missing ↦ rw (le→ltb _ _ h, missing) (ground arith)
  | inr (q, found) ↦ rw (le→ltb _ _ h, found) (ground arith)
]

-- Any longer packet is a fault.
pub send_packet_overflow :
    (peer : ℕ) (p : Packet) (e : Env) → 1484 < p.header.packet_len → send_packet peer p e ≡ none
unfolding send_packet
send_packet_overflow peer p e h = rw (lt→ltb _ _ h)

pub bt_peer_info-id :
    (ps : List Peer) (peer : ℕ) (q : Peer) → bt_peer_info ps peer ≡ some q → q.id ≡ peer
unfolding bt_peer_info
bt_peer_info-id [] peer q h = cc
bt_peer_info-id (p ∷ ps) peer q h = ground (arith, bt_peer_info-id ps peer q)

-- A packet whose `packet_len` is at least the length of its payload and at most 1484, sent to a
-- peer that is in the list of peers, puts one datagram on the wire. It goes to an entry with that
-- peer's id, announces the packet's length plus that of the header, and carries as many bytes as
-- `packet_len` says, of which the first are the payload.
pub send_packet-datagram :
    (peer : ℕ) (p : Packet) (e : Env) (q : Peer)
    → length p.payload ≤ p.header.packet_len
    → p.header.packet_len ≤ 1484
    → bt_peer_info e.peers peer ≡ some q
    → (d : Datagram) × (send_packet peer p e
        ≡ some (record p { header = grown p }, record e { sent = d ∷ e.sent }))
      × (d.dest.id ≡ peer)
      × (d.header ≡ grown p)
      × (length d.payload ≡ p.header.packet_len)
      × (take (length p.payload) d.payload ≡ p.payload)
send_packet-datagram peer p e q long short found = (
  record { dest = q; header = grown p; payload = read_bytes e.stray p.header.packet_len p.payload },
  send_packet_total peer p e short ∙ rw (found, outgoing),
  bt_peer_info-id e.peers peer q found,
  refl,
  length-read_bytes e.stray p.header.packet_len p.payload,
  take-read_bytes e.stray p.header.packet_len p.payload long,
)

-- The same packet sent n times, as for its retransmissions.
pub transmissions : ℕ → ℕ → Packet → Env → Option (Packet × Env)
transmissions zero peer p e = some (p, e)
transmissions (suc n) peer p e = transmissions n peer p e >>= λ (p1, e1). send_packet peer p1 e1

transmissions-total :
    (n peer : ℕ) (p : Packet) (e : Env)
    → p.header.packet_len + 16 * n ≤ 1500
    → (e' : Env) × (transmissions n peer p e
        ≡ some (
          record p { header = record (p.header) { packet_len = p.header.packet_len + 16 * n } },
          e',
        ))
unfolding transmissions
transmissions-total zero peer p e h =
    let same : p.header.packet_len + 16 * 0 ≡ p.header.packet_len = omega arith in (e, rw same refl)
transmissions-total (suc n) peer p e h =
    let (e1, before) = transmissions-total n peer p e (omega arith) in
    let p1 = record p {
      header = record (p.header) { packet_len = p.header.packet_len + 16 * n };
    } in
    let more : p.header.packet_len + 16 * n + 16 ≡ p.header.packet_len + 16 * suc n = omega arith in
    (
      record e1 { sent = outgoing peer p1 e1 },
      ap (λ r. r >>= λ (p2, e2). send_packet peer p2 e2) before
          ∙ (send_packet_total peer p1 e1 (omega arith) ∙ rw more refl),
    )

transmissions-overflow :
    (n peer : ℕ) (p : Packet) (e : Env)
    → 1500 < p.header.packet_len + 16 * suc n
    → transmissions (suc n) peer p e ≡ none
unfolding transmissions
transmissions-overflow zero peer p e h = send_packet_overflow peer p e (omega arith)
transmissions-overflow (suc n) peer p e h = elim (dec_le (p.header.packet_len + 16 * suc n) 1500) [
  | yes fits ↦
      let (e1, before) = transmissions-total (suc n) peer p e fits in
      let p1 = record p {
        header = record (p.header) { packet_len = p.header.packet_len + 16 * suc n };
      } in
      ap (λ r. r >>= λ (p2, e2). send_packet peer p2 e2) before
      ∙ send_packet_overflow peer p1 e1 (omega arith)
  | no over ↦
      ap (λ r. r >>= λ (p2, e2). send_packet peer p2 e2)
        (transmissions-overflow n peer p e (omega (arith, over)))
]

-- A packet is sent n times, n at least 1. If its `packet_len` plus 16 n is at most 1500, this makes no
-- fault, and the `packet_len` of the caller's packet has grown by 16 n. If it is more, one of the
-- transmissions writes behind the end of the buffer.
pub transmissions_lem :
    (n peer : ℕ) (p : Packet) (e : Env)
    → 1 ≤ n
    → (p.header.packet_len + 16 * n ≤ 1500
        → (e' : Env) × (transmissions n peer p e
            ≡ some (
              record p { header = record (p.header) { packet_len = p.header.packet_len + 16 * n } },
              e',
            )))
      × (1500 < p.header.packet_len + 16 * n → transmissions n peer p e ≡ none)
transmissions_lem zero peer p e some' = absurd (omega arith)
transmissions_lem (suc n) peer p e some' =
    (transmissions-total (suc n) peer p e, transmissions-overflow n peer p e)
