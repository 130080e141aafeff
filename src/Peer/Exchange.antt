-- ===== src/Peer/Exchange.antt =====
-- One peer uploads a chunk, and another one downloads it.
use native.Mathlib.Nat.{mod-eq_of_lt}
use proj.Prelude.{
  ℕ, ◌%◌, ◌^◌, true, ltb, if_true, zero, suc, ◌*◌, ◌≤◌, ◌<◌, ◌≡◌, refl, ap, sym, subst, ◌∙◌, some,
  List, [], ◌∷◌, ◌++◌, arith, length, take, drop, get_elem?, some-eq, append_assoc, length-take_le,
  length-drop,
}
use proj.Wire.{Header, Packet, Env, read_bytes, bt_chunk_size, seek_offset}
use proj.Wire.Send.{take-read_bytes}
use proj.Sender.{Slot, Sender}
use proj.Sender.Load.{Filled}
use proj.Responser.{send_blocks}
use proj.Responser.Content.{Holds, block_of, send_blocks-block_of}
use proj.Requestor.{ChunkStatus, Requestor}
use proj.Requestor.Invariant.{Valid}
use proj.Requestor.Transfer.{Carries, no_packet, one_packet, Downloaded, Loading}
use proj.Requestor.Delivery.{update_data-Downloaded}

-- The packets that arrive from a sender with these slots: each is a packet in one of them, with the
-- bytes that a transmission reads, at least a block, and what lies behind them in the receive
-- buffer. The other fields of the header do not matter.
pub data Arriving (s : Sender) : List Packet → Type 0 where
  no_arrival : Arriving s []
  one_arrival :
      (j : ℕ) (slot : Slot) (p : Packet) (h : Header) (stray : ℕ → ℕ) (len : ℕ) (behind : List ℕ)
      (qs : List Packet)
      → j < 1024
      → get_elem? s.pkt_buf j ≡ some slot
      → slot.packet ≡ some p
      → h.seq_num ≡ p.header.seq_num
      → 512 ≤ len
      → Arriving s qs
      → Arriving s (record { header = h; payload = read_bytes stray len p.payload ++ behind } ∷ qs)

take-drop : (n : ℕ) (xs : List ℕ) → take n xs ++ drop n xs ≡ xs
take-drop zero xs = refl
take-drop (suc n) [] = refl
take-drop (suc n) (x ∷ xs) = ap (λ ys. x ∷ ys) (take-drop n xs)

-- The bytes of a transmission begin with the payload.
transmitted :
    (stray : ℕ → ℕ) (len : ℕ) (xs behind : List ℕ)
    → length xs ≤ len
    → read_bytes stray len xs ++ behind
      ≡ xs ++ (drop (length xs) (read_bytes stray len xs) ++ behind)
transmitted stray len xs behind h =
    let bytes = read_bytes stray len xs in
    ap (λ ys. ys ++ behind) (sym (take-drop (length xs) bytes))
    ∙ (ap (λ ys. (ys ++ drop (length xs) bytes) ++ behind) (take-read_bytes stray len xs h)
        ∙ append_assoc xs (drop (length xs) bytes) behind)

Arriving-Carries :
    (content : ℕ → List ℕ) (s : Sender) (qs : List Packet)
    → ((j : ℕ) → j < 1024 → length (content j) ≡ 512)
    → Filled 528 1024 s
    → Holds content 1024 s
    → Arriving s qs
    → Carries content qs
Arriving-Carries content s _ size f holds no_arrival = no_packet
Arriving-Carries content s _ size f holds
      (one_arrival j slot p h stray len behind qs inside found packet seq enough more) =
    let (slot1, p1, found1, packet1, seq1, small) =
      f.window.loaded j (omega (arith, f.head)) (omega (arith, f.count)) in
    let (slot2, p2, found2, packet2, payload) = holds j inside in
    let same1 : p1 ≡ p = some-eq p1 p (
      sym packet1
      ∙ (ap (λ (x : Slot). x.packet) (some-eq slot1 slot (sym found1 ∙ found)) ∙ packet)) in
    let same2 : p2 ≡ p = some-eq p2 p (
      sym packet2
      ∙ (ap (λ (x : Slot). x.packet) (some-eq slot2 slot (sym found2 ∙ found)) ∙ packet)) in
    let number : h.seq_num ≡ j = seq ∙ (ap (λ (x : Packet). x.header.seq_num) (sym same1) ∙ seq1) in
    let block : p.payload ≡ content j = ap (λ (x : Packet). x.payload) (sym same2) ∙ payload in
    let long : length p.payload ≤ len = omega (arith, ap length block, size j inside) in
    one_packet (record { header = h; payload = read_bytes stray len p.payload ++ behind }) qs
      (drop (length p.payload) (read_bytes stray len p.payload) ++ behind)
      (omega (arith, number, inside))
      (transmitted stray len p.payload behind long
        ∙ ap (λ xs. xs ++ (drop (length p.payload) (read_bytes stray len p.payload) ++ behind))
            (block ∙ ap content (sym number)))
      (Arriving-Carries content s qs size f holds more)

-- `block_of` gives whole blocks inside the chunk.
length-block_of :
    (rest : List ℕ) → 524288 ≤ length rest → (j : ℕ) → j < 1024 → length (block_of rest j) ≡ 512
length-block_of rest full j h =
    length-take_le 512 (drop (512 * j) rest) (omega (arith, length-drop (512 * j) rest))

-- Below chunk 4096 the offset is what is meant.
seek_offset-exact : (i : ℕ) → i < 4096 → seek_offset i ≡ i * bt_chunk_size
unfolding seek_offset
seek_offset-exact i h =
    let small : i * 524288 % 2 ^ 32 ≡ i * 524288 = mod-eq_of_lt (omega arith) in
    let fits : ltb (i * 524288 % 2 ^ 32) (2 ^ 31) ≡ true = ground (arith, small) in
    if_true _ _ fits ∙ small

-- A peer loads an initialised sender with a chunk that its file has wholly. Packets arrive at
-- another peer that are transmissions of the sender's packets, in whatever order and however often.
-- That peer satisfies the invariant, which includes that its output file can be opened again, and
-- is downloading this chunk, of which each packet that is not marked yet arrives, its hash function
-- gives 20 bytes, the hash that it asked for is that of the chunk, and the chunk has an index below
-- 4096, so that its offset is an `int`. Then one of the packets ends the chunk, and up to that one
-- they are taken in without a fault: with it the chunk's bytes in the uploader's file are written
-- in the output file at 524288 times the chunk's index, and nothing is written before.
pub send_blocks-Downloaded :
    (shahash : List ℕ → List ℕ) (rest buf buf' : List ℕ) (s t : Sender) (e e' : Env) (peer i : ℕ)
    (qs : List Packet) (req : Requestor) (c : ChunkStatus) (e2 : Env)
    → Filled 528 0 s
    → 524288 ≤ length rest
    → send_blocks 1024 0 rest buf s e ≡ some (buf', t, e')
    → Arriving t qs
    → ((xs : List ℕ) → length (shahash xs) ≡ 20)
    → peer < 1024
    → i < 4096
    → Valid req
    → Loading shahash (block_of rest) peer i req qs c
    → Downloaded shahash (block_of rest) peer (i * bt_chunk_size) req qs e2
send_blocks-Downloaded shahash rest buf buf' s t e e' peer i qs req c e2 f full loads arriving
      twenty known low v l =
    let (buf1, t1, e1, loads1, f1, same, holds) = send_blocks-block_of rest buf s e f full in
    let is : t1 ≡ t =
      ap (λ (r : List ℕ × Sender × Env). r.1)
        (some-eq (buf1, t1, e1) (buf', t, e') (sym loads1 ∙ loads)) in
    let size = length-block_of rest full in
    subst (λ at. Downloaded shahash (block_of rest) peer at req qs e2) (seek_offset-exact i low)
      (update_data-Downloaded shahash (block_of rest) peer i size qs req e2 c twenty known
        (Arriving-Carries (block_of rest) t qs size (subst (Filled 528 1024) is f1)
          (subst (Holds (block_of rest) 1024) is holds) arriving)
        v l)
