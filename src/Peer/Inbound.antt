-- ===== src/Peer/Inbound.antt =====
-- `process_inbound_udp`: what becomes of a datagram.
use proj.Prelude.{
  ℕ, zero, suc, ◌+◌, ◌<◌, ◌≡◌, ◌≢◌, refl, ap, ◌∙◌, inl, inr, true, Option, none, some, List, [],
  ◌∷◌, ◌++◌, arith, length, set, drop, set-append, Bool-cases, Option-cases, ◌==◌, lt→ltb, ltb,
}
use proj.Wire.{Header, Peer, bt_magic}
use proj.Peer.{
  Process, Received, header_bytes, read_packet, find_peer, dispatch, process_inbound_udp,
}
use proj.Peer.Headers.{Fits, read_packet-header_bytes}

drop-rest : (n : ℕ) (xs : List ℕ) → n < length xs → (y : ℕ) × (ys : List ℕ) × (drop n xs ≡ y ∷ ys)
drop-rest zero [] h = absurd (omega arith)
drop-rest zero (x ∷ xs) h = (x, xs, refl)
drop-rest (suc n) [] h = absurd (omega arith)
drop-rest (suc n) (x ∷ xs) h = drop-rest n xs (omega arith)

header_bytes-append :
    (h : Header) (xs ys : List ℕ) → header_bytes h xs ++ ys ≡ header_bytes h (xs ++ ys)
unfolding header_bytes
header_bytes-append h xs ys = refl

length-header_bytes : (h : Header) (xs : List ℕ) → length (header_bytes h xs) ≡ 16 + length xs
unfolding header_bytes
length-header_bytes h xs = omega arith

-- The peer that is found has the address and the port of the datagram.
find_peer-address :
    (ps : List Peer) (addr port : ℕ) (q : Peer)
    → find_peer ps addr port ≡ some q
    → (q.sin_addr ≡ addr) × (q.sin_port ≡ port)
unfolding find_peer
find_peer-address [] addr port q h = absurd (cc)
find_peer-address (p ∷ ps) addr port q h = ground (arith, find_peer-address ps addr port q)

-- The datagram is ignored, or goes with its header and its bytes, behind which there is a 0, to the
-- handlers for its type. In each case only the receive buffer has changed before that.
pub data Inbound (shahash : List ℕ → List ℕ) (w : Process) (r : Received) (h : Header)
    (bytes : List ℕ) : Option Process → Type 0 where
  unrecognizable :
      (buf : List ℕ)
      → h.magicnum ≢ bt_magic
      → Inbound shahash w r h bytes (some (record w { buf = buf }))
  unknown_peer :
      (buf : List ℕ)
      → find_peer w.env.peers r.sin_addr r.sin_port ≡ none
      → Inbound shahash w r h bytes (some (record w { buf = buf }))
  handed_on :
      (buf rest : List ℕ) (q : Peer)
      → h.magicnum ≡ bt_magic
      → find_peer w.env.peers r.sin_addr r.sin_port ≡ some q
      → q.sin_addr ≡ r.sin_addr
      → q.sin_port ≡ r.sin_port
      → Inbound shahash w r h bytes (
          dispatch shahash
            (record w { buf = buf })
            q.id
            (record { header = h; payload = bytes ++ 0 ∷ rest }))

-- The receive buffer with the datagram in it.
abbrev pub received : Process → Received → List ℕ
received w r = set (r.bytes ++ drop (length r.bytes) w.buf) (length r.bytes) 0

received-Inbound :
    (shahash : List ℕ → List ℕ) (w : Process) (r : Received) (h : Header) (bytes rest : List ℕ)
    → ltb (length r.bytes) 1500 ≡ true
    → read_packet (received w r) ≡ some (record { header = h; payload = bytes ++ 0 ∷ rest })
    → Inbound shahash w r h bytes (process_inbound_udp shahash w r)
unfolding process_inbound_udp
received-Inbound shahash w r h bytes rest fits reads = elim (Bool-cases (h.magicnum == bt_magic)) [
  | inr other ↦ rw (fits, reads, other) (unrecognizable (received w r) (ground arith))
  | inl magic ↦ elim (Option-cases (find_peer w.env.peers r.sin_addr r.sin_port)) [
    | inl unknown ↦ rw (fits, reads, magic, unknown) (unknown_peer (received w r) unknown)
    | inr (q, known) ↦
        let (addr, port) = find_peer-address w.env.peers r.sin_addr r.sin_port q known in
        rw (fits, reads, magic, known)
          (handed_on (received w r) rest q (ground arith) known addr port)
  ]
]

-- A datagram arrives that consists of the bytes of a header whose fields fit their types, and of
-- further bytes, fewer than 1500 in all, and the receive buffer has 1500 bytes. It is ignored only if
-- the magic number is wrong, or if no peer has the address and port of its sender. If not, that peer's
-- id and a packet with the same header and the same bytes, with a 0 behind them, are handed on.
pub process_inbound_udp-Inbound :
    (shahash : List ℕ → List ℕ) (w : Process) (r : Received) (h : Header) (bytes : List ℕ)
    → Fits h
    → r.bytes ≡ header_bytes h bytes
    → length r.bytes < 1500
    → length w.buf ≡ 1500
    → Inbound shahash w r h bytes (process_inbound_udp shahash w r)
process_inbound_udp-Inbound shahash w r h bytes fit is short room =
    let (y, rest, tail) = drop-rest (length r.bytes) w.buf (omega arith) in
    let written : set (r.bytes ++ drop (length r.bytes) w.buf) (length r.bytes) 0
        ≡ header_bytes h (bytes ++ 0 ∷ rest) =
      ap (λ xs. set (r.bytes ++ xs) (length r.bytes) 0) tail
      ∙ (set-append r.bytes y 0 rest
          ∙ (ap (λ xs. xs ++ 0 ∷ rest) is ∙ header_bytes-append h bytes (0 ∷ rest))) in
    received-Inbound shahash w r h bytes rest (lt→ltb _ _ short)
      (ap read_packet written ∙ read_packet-header_bytes h (bytes ++ 0 ∷ rest) fit)
