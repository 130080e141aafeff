-- ===== src/Tests/Exchange.antt =====
-- A chunk goes from an uploader to peer 1's downloader; each packet arrives once.
use proj.Prelude.{
  ℕ, zero, suc, ◌+◌, ◌<◌, ◌≤◌, ◌≡◌, refl, ap, sym, ◌∙◌, inl, inr, some, List, [], ◌∷◌, ◌++◌, arith,
  length, replicate, length-replicate, some-eq, Bool-cases, true, ◌==◌,
}
use proj.Wire.{Packet, Env, read_bytes}
use proj.Sender.{Slot, Sender, init_sender}
use proj.Sender.Load.{Filled, init_sender-Filled}
use proj.Responser.{send_blocks}
use proj.Responser.Content.{Holds, block_of, send_blocks-block_of}
use proj.Chunk.{binary2hex}
use proj.Requestor.Receive.{strncmp_eq}
use proj.Requestor.Transfer.{arrives, HashOf, Downloaded, Loading}
use proj.Peer.Exchange.{Arriving, no_arrival, one_arrival, send_blocks-Downloaded}
use proj.Tests.Data.{
  data_header, env, idle, asked_chunk, asked_file, asked_file-Valid, constant_hash,
}
use proj.Tests.Whole.{unmarked}

here_below : (i n : ℕ) → i + suc n ≤ 1024 → i < 1024
here_below i n h = omega arith

next_below : (i n : ℕ) → i + suc n ≤ 1024 → i + 1 + n ≤ 1024
next_below i n h = omega arith

module _ (content : ℕ → List ℕ) (t : Sender) (f : Filled 528 1024 t)
    (holds : Holds content 1024 t) where
  abbrev packet_at : (j : ℕ) → j < 1024 → Packet
  packet_at j h = (holds j h).1

  packet_at-seq_num : (j : ℕ) (h : j < 1024) → (packet_at j h).header.seq_num ≡ j
  packet_at-seq_num j h =
      let (slot1, p1, found1, packet1, seq1, small) =
        f.window.loaded j (omega (arith, f.head)) (omega (arith, f.count)) in
      let (slot2, p2, found2, packet2, payload) = holds j h in
      let same : p1 ≡ p2 = some-eq p1 p2 (
        sym packet1
        ∙ (ap (λ (x : Slot). x.packet) (some-eq slot1 slot2 (sym found1 ∙ found2)) ∙ packet2)) in
      ap (λ (x : Packet). x.header.seq_num) (sym same) ∙ seq1

  abbrev arriving : (n i : ℕ) → i + n ≤ 1024 → List Packet
  arriving zero i h = []
  arriving (suc n) i h =
      record {
        header = data_header i;
        payload = read_bytes env.stray 528 (packet_at i (here_below i n h)).payload ++ 0 ∷ [];
      }
      ∷ arriving n (i + 1) (next_below i n h)

  arriving-Arriving : (n i : ℕ) (h : i + n ≤ 1024) → Arriving t (arriving n i h)
  arriving-Arriving zero i h = no_arrival
  arriving-Arriving (suc n) i h =
      let (slot, p, found, packet, payload) = holds i (here_below i n h) in
      one_arrival i slot p (data_header i) env.stray 528 (0 ∷ []) _ (omega arith) found packet
        (sym (packet_at-seq_num i (here_below i n h))) (omega arith)
        (arriving-Arriving n (i + 1) (next_below i n h))

  arrives-arriving :
      (n i : ℕ) (h : i + n ≤ 1024) (j : ℕ) → i ≤ j → j < i + n → arrives (arriving n i h) j ≡ true
  unfolding arrives
  arrives-arriving zero i h j a b = absurd (omega arith)
  arrives-arriving (suc n) i h j a b = elim (Bool-cases (i == j)) [
    | inl here ↦ rw here refl
    | inr other ↦
        rw other (arrives-arriving n (i + 1) (next_below i n h) j (ground arith) (omega arith))
  ]

abbrev file : List ℕ
file = replicate 524288 7

-- As many bytes as are asked for.
replicate-full : (n a : ℕ) → n ≤ length (replicate n a)
replicate-full n a = omega (arith, length-replicate {A = ℕ} n a)

abbrev empty : Sender
empty = (init_sender idle 1 env).0

empty-Filled : Filled 528 0 empty
empty-Filled = (init_sender-Filled 528 idle 1 env).0

send_blocks-block_of_example :
    (buf' : List ℕ) × (t : Sender) × (e' : Env) × (send_blocks 1024 0 file [] empty env
      ≡ some (buf', t, e'))
    × Filled 528 1024 t
    × (t.peer ≡ empty.peer)
    × Holds (block_of file) 1024 t
send_blocks-block_of_example =
    send_blocks-block_of file [] empty env empty-Filled (replicate-full 524288 7)

abbrev loaded :
    (buf' : List ℕ) × (t : Sender) × (e' : Env) × (send_blocks 1024 0 file [] empty env
      ≡ some (buf', t, e'))
    × Filled 528 1024 t
    × (t.peer ≡ empty.peer)
    × Holds (block_of file) 1024 t
loaded = send_blocks-block_of file [] empty env empty-Filled (replicate-full 524288 7)

all_packets : 0 + 1024 ≤ 1024
all_packets = omega arith

abbrev received : List Packet
received = arriving (block_of file) loaded.1 loaded.4 loaded.6 1024 0 all_packets

asked_chunk-HashOf : HashOf constant_hash (block_of file) asked_chunk.hash
unfolding strncmp_eq binary2hex
asked_chunk-HashOf = refl

asked_file-Loading : Loading constant_hash (block_of file) 1 0 asked_file received asked_chunk
asked_file-Loading = record {
  busy = refl;
  found = refl;
  genuine = λ j h. absurd (unmarked 1024 j h);
  hash = asked_chunk-HashOf;
  unfinished = λ h. absurd (omega (arith, h));
  rest = λ j h. inr (
      arrives-arriving (block_of file) loaded.1 loaded.4 loaded.6 1024 0 all_packets j (omega arith)
        (omega arith));
}

send_blocks-Downloaded_example :
    Downloaded constant_hash (block_of file) 1 0 asked_file received env
send_blocks-Downloaded_example =
    send_blocks-Downloaded constant_hash file [] loaded.0 empty loaded.1 env loaded.2 1 0 received
      asked_file asked_chunk env empty-Filled (replicate-full 524288 7) loaded.3
      (arriving-Arriving (block_of file) loaded.1 loaded.4 loaded.6 1024 0 all_packets)
      (λ xs. length-replicate {A = ℕ} 20 170) (omega arith) (omega arith) asked_file-Valid
      asked_file-Loading
