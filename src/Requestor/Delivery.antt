-- ===== src/Requestor/Delivery.antt =====
-- `update_data` over all packets of a chunk: the chunk is downloaded.
use native.Mathlib.Decide.{ℕ_discrete}
use mathlib.Core.List.{flatten}
use proj.Prelude.{
  ℕ, ◌<◌, ◌≡◌, refl, ap, sym, subst, ◌∙◌, inl, inr, true, Option, some, List, [], ◌∷◌, ◌++◌, arith,
  length, get_elem?, set, some-eq, get_elem?-set_self, lt_of_get_elem?,
}
use proj.Wire.{Packet, Env, seek_offset}
use proj.Requestor.{ChunkStatus, Requestor, put_chunk}
use proj.Chunk.{binary2hex}
use proj.Requestor.Receive.{strncmp_eq, update_data}
use proj.Requestor.Invariant.{Valid}
use proj.Requestor.Data.{Stored, Update, uncalled, outdated, stored, finished, update_data-Update}
use proj.Requestor.Transfer.{
  Carries, no_packet, one_packet, arrives, whole, Downloaded, last_packet, next_packet, Loading,
  none_missing, Finish-output, Stored-Genuine, Stored-rest, whole-data_buf,
}

module _ (shahash : List ℕ → List ℕ) (content : ℕ → List ℕ) (peer i : ℕ)
    (size : (j : ℕ) → j < 1024 → length (content j) ≡ 512) where
  same-place :
      (req : Requestor) (ps : List Packet) (c c' : ChunkStatus) (i' : ℕ)
      → Loading shahash content peer i req ps c
      → get_elem? req.downloading peer ≡ some (some i')
      → get_elem? req.chunks i' ≡ some c'
      → (i ≡ i') × (c' ≡ c)
  same-place req ps c c' i' l busy found =
      let same_i : i ≡ i' = some-eq i i' (some-eq (some i) (some i') (sym l.busy ∙ busy)) in
      (same_i, some-eq c' c (sym found ∙ (ap (get_elem? req.chunks) (sym same_i) ∙ l.found)))

  -- One packet, when the rest of them ends the chunk.
  advance :
      (req : Requestor) (p : Packet) (ps : List Packet) (e : Env) (c : ChunkStatus) (rest : List ℕ)
      (result : Option (Requestor × Env))
      → ((r : Requestor) (e' : Env) (d : ChunkStatus)
          → Valid r
          → Loading shahash content peer i r ps d
          → Downloaded shahash content peer (seek_offset i) r ps e')
      → Valid req
      → Loading shahash content peer i req (p ∷ ps) c
      → p.header.seq_num < 1024
      → p.payload ≡ content p.header.seq_num ++ rest
      → Update shahash req peer p e result
      → update_data shahash req peer p e ≡ result
      → Downloaded shahash content peer (seek_offset i) req (p ∷ ps) e
  unfolding arrives
  advance req p ps e c rest _ on v l inside carries (uncalled free) is = absurd (cc (l.busy, free))
  advance req p ps e c rest _ on v l inside carries (outdated i' c' busy found old) is =
      let (same_i, same_c) = same-place req (p ∷ ps) c c' i' l busy found in
      let (x, at, who) = v.by_peer peer i l.busy in
      let one : x ≡ c = some-eq x c (sym at ∙ l.found) in
      let acked =
        (v.each i c l.found).acked peer
          (ap (λ (y : ChunkStatus). y.cur_provider) (sym one) ∙ who) in
      let before : p.header.seq_num < c.cur_ack =
        omega (arith, old, ap (λ (y : ChunkStatus). y.cur_ack) same_c) in
      next_packet req req p ps e e is refl v (
        on req e c v (record {
          busy = l.busy;
          found = l.found;
          genuine = l.genuine;
          hash = l.hash;
          unfinished = l.unfinished;
          rest = λ j h. elim (ℕ_discrete p.header.seq_num j) [
            | yes here ↦ inl (rw (← here) (acked p.header.seq_num before))
            | no other ↦ elim (l.rest j h) [
              | inl marked ↦ inl marked
              | inr to_come ↦ inr (ground arith)
            ]
          ];
        }))
  advance req p ps e c rest _ on v l inside carries (stored i' c' d busy found s more ok) is =
      let (same_i, same_c) = same-place req (p ∷ ps) c c' i' l busy found in
      let s' = subst (λ (x : ChunkStatus). Stored x p e d) same_c s in
      next_packet req _ p ps e _ is refl ok (
        on _ _ d ok (record {
          busy = l.busy;
          found =
              ap (get_elem? (set req.chunks i' d)) same_i
              ∙ get_elem?-set_self req.chunks i' d (lt_of_get_elem? req.chunks i' c' found);
          genuine =
              Stored-Genuine shahash content peer i size c d p rest e s' l.genuine inside carries;
          hash = rw s'.hash l.hash;
          unfinished = more;
          rest = λ j h. Stored-rest shahash content peer i size c d p ps e s' j (l.rest j h);
        }))
  advance req p ps e c rest _ on v l inside carries
        (finished i' c' d r e' matches busy found s none' same how) is =
      let (same_i, same_c) = same-place req (p ∷ ps) c c' i' l busy found in
      let s' = subst (λ (x : ChunkStatus). Stored x p e d) same_c s in
      let g = Stored-Genuine shahash content peer i size c d p rest e s' l.genuine inside carries in
      let all = whole-data_buf shahash content peer i size c d e p s' g none' in
      let compared = λ (xs hash : List ℕ). strncmp_eq 40 (binary2hex (shahash xs)) hash in
      let matching : matches ≡ true = some-eq matches true (
        sym same
        ∙ (ap (λ xs. compared xs d.hash) all ∙ (ap (compared (whole content)) s'.hash ∙ l.hash))) in
      let (out, ends) = Finish-output (put_chunk req i' d) r i' d matches how matching in
      last_packet req r p ps e e' is
        (out
          ∙ (ap (λ k. (seek_offset k, flatten d.data_buf) ∷ req.output) (sym same_i)
              ∙ ap (λ xs. (seek_offset i, xs) ∷ req.output) all))
        ends

  nothing_left :
      (req : Requestor) (c : ChunkStatus)
      → Valid req
      → Loading shahash content peer i req [] c
      → c.left ≡ 0
  unfolding arrives
  nothing_left req c v l =
      let m = (v.each i c l.found).marks in
      m.count
      ∙ none_missing c.recved (λ j h. elim (l.rest j (omega (arith, m.marks))) [
        | inl marked ↦ marked
        | inr to_come ↦ absurd (cc)
      ])

  -- A download satisfies the invariant, which includes that the output file can be opened again,
  -- the hash function gives 20 bytes, chunk `i` is being downloaded from a peer that `downloading`
  -- has a place for, some packet of it is not marked yet, and the marked ones have the content's
  -- blocks, each of 512 bytes. The hash that was asked for is that of the content. Then, if DATA
  -- packets with blocks of the content arrive from that peer and each packet that is not marked yet
  -- is among them, in whatever order and however often, one of them ends the chunk, and no packet
  -- up to that one makes a fault: with it the content is written at `seek_offset i`, the offset
  -- that C's `int` product gives for the chunk, nothing is written before, and the invariant holds
  -- or the download is over.
  pub update_data-Downloaded :
      (ps : List Packet) (req : Requestor) (e : Env) (c : ChunkStatus)
      → ((xs : List ℕ) → length (shahash xs) ≡ 20)
      → peer < 1024
      → Carries content ps
      → Valid req
      → Loading shahash content peer i req ps c
      → Downloaded shahash content peer (seek_offset i) req ps e
  update_data-Downloaded _ req e c twenty known no_packet v l =
      absurd (l.unfinished (nothing_left req c v l))
  update_data-Downloaded _ req e c twenty known (one_packet p ps rest inside carries more) v l =
      advance req p ps e c rest (update_data shahash req peer p e)
        (λ r e' d w m. update_data-Downloaded ps r e' d twenty known more w m) v l inside carries
        (update_data-Update shahash req peer p e twenty v known inside) refl
