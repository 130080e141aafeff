-- ===== src/Tests/Whole.antt =====
-- All packets of a chunk arrive from peer 1.
use proj.Prelude.{
  ℕ, zero, suc, ◌+◌, ◌<◌, ◌≤◌, ◌≡◌, ◌≢◌, refl, sym, inl, inr, true, false, ◌==◌, some, List, [],
  ◌∷◌, arith, replicate, length-replicate, get_elem?, append_nil, Bool-cases,
}
use proj.Wire.{Packet}
use proj.Chunk.{binary2hex}
use proj.Requestor.Receive.{strncmp_eq}
use proj.Requestor.Transfer.{
  Carries, no_packet, one_packet, arrives, Genuine, HashOf, Downloaded, Loading,
}
use proj.Requestor.Delivery.{update_data-Downloaded}
use proj.Tests.Data.{env, block, asked_chunk, asked_file, asked_file-Valid, constant_hash}

-- Every block of the file is the same.
abbrev content : ℕ → List ℕ
content j = replicate 512 7

abbrev packets : ℕ → ℕ → List Packet
packets zero i = []
packets (suc n) i = block i ∷ packets n (i + 1)

packets-Carries : (n i : ℕ) → i + n ≤ 1024 → Carries content (packets n i)
packets-Carries zero i h = no_packet
packets-Carries (suc n) i h =
    one_packet (block i) (packets n (i + 1)) [] (omega arith)
      (sym (append_nil (replicate {A = ℕ} 512 7))) (packets-Carries n (i + 1) (omega arith))

arrives-packets : (n i j : ℕ) → i ≤ j → j < i + n → arrives (packets n i) j ≡ true
unfolding arrives
arrives-packets zero i j a b = absurd (omega arith)
arrives-packets (suc n) i j a b = elim (Bool-cases (i == j)) [
  | inl here ↦ rw here refl
  | inr other ↦ rw other (arrives-packets n (i + 1) j (ground arith) (omega arith))
]

asked_chunk-HashOf : HashOf constant_hash content asked_chunk.hash
unfolding strncmp_eq binary2hex
asked_chunk-HashOf = refl

pub unmarked : (n j : ℕ) → get_elem? (replicate n false) j ≢ some true
unmarked zero j h = absurd (cc)
unmarked (suc n) zero h = absurd (cc)
unmarked (suc n) (suc j) h = unmarked n j h

asked_chunk-Genuine : Genuine content asked_chunk
asked_chunk-Genuine j h = absurd (unmarked 1024 j h)

asked_file-Loading : Loading constant_hash content 1 0 asked_file (packets 1024 0) asked_chunk
asked_file-Loading = record {
  busy = refl;
  found = refl;
  genuine = asked_chunk-Genuine;
  hash = asked_chunk-HashOf;
  unfinished = λ h. absurd (omega (arith, h));
  rest = λ j h. inr (arrives-packets 1024 0 j (omega arith) (omega arith));
}

update_data-Downloaded_example :
    Downloaded constant_hash content 1 0 asked_file (packets 1024 0) env
unfolding proj.Wire.seek_offset
update_data-Downloaded_example =
    update_data-Downloaded constant_hash content 1 0 (λ j h. length-replicate {A = ℕ} 512 7)
      (packets 1024 0) asked_file env asked_chunk (λ xs. length-replicate {A = ℕ} 20 170)
      (omega arith) (packets-Carries 1024 0 (omega arith)) asked_file-Valid asked_file-Loading
