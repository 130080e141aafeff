-- ===== src/Requestor/Offer.antt =====
-- `add_provider` (IHAVE), and with it `requestor_packet` as a whole.
use proj.Prelude.{
  if_true, if_false, ℕ, zero, suc, ◌+◌, ◌*◌, ◌≤◌, ◌<◌, ◌≡◌, refl, ap, sym, ◌∙◌, ◌⊎◌, inl, inr, Bool,
  true, false, not, ◌||◌, Option, some, List, [], ◌∷◌, ◌++◌, arith, length, drop, Bool-cases, ◌==◌,
  get_elem?-lt, lt→ltb, length-drop, subst,
}
use proj.Wire.{Packet, Env}
use proj.Requestor.{ChunkStatus, Requestor, put_chunk}
use proj.Requestor.Receive.{
  strncmp_eq, contains, add_to_chunk, add_from, add_provider, update_data, hash_count, add_all,
  requestor_packet,
}
use proj.Requestor.Distinct.{distinct-room, distinct-snoc, get_elem?-snoc}
use proj.Requestor.Invariant.{IsChunk, Valid, SameFile, SameFile-refl, SameFile-trans, Valid-put}
use proj.Requestor.Requests.{request_next_chunk-Requests}
use proj.Requestor.Finish.{Finish, rejected, accepted, completed}
use proj.Requestor.Data.{Update, uncalled, outdated, stored, finished, update_data-Update}

-- A text that ends in a 0 is compared inside both arrays.
strncmp_eq-text :
    (n : ℕ) (t ys : List ℕ) → n ≤ length ys → (b : Bool) × (strncmp_eq n (t ++ 0 ∷ []) ys ≡ some b)
unfolding strncmp_eq
strncmp_eq-text zero t ys h = (true, refl)
strncmp_eq-text (suc n) t [] h = absurd (omega arith)
strncmp_eq-text (suc n) [] (y ∷ ys) h = elim (Bool-cases (0 == y)) [
  | inl e ↦ (true, rw e refl)
  | inr e ↦ (false, rw e refl)
]
strncmp_eq-text (suc n) (x ∷ t) (y ∷ ys) h =
    let (b, later) = strncmp_eq-text n t ys (omega arith) in
    elim (Bool-cases (x == y)) [
      | inr e ↦ (false, rw e refl)
      | inl e ↦ elim (Bool-cases (x == 0)) [
        | inl z ↦ (true, rw (e, z) refl)
        | inr z ↦ (b, rw (e, z) later)
      ]
    ]

-- A chunk with one provider more.
abbrev offered : ChunkStatus → ℕ → ChunkStatus
offered c peer = record c { providers = c.providers ++ peer ∷ [] }

offered-IsChunk :
    (c : ChunkStatus) (peer : ℕ)
    → IsChunk c
    → contains c.providers peer ≡ false
    → peer < 1024
    → IsChunk (offered c peer)
offered-IsChunk c peer o new inside = record {
  known = get_elem?-snoc 1024 c.providers peer o.known inside;
  distinct = distinct-snoc c.providers peer o.distinct new;
  last = o.last;
  marks = record { marks = o.marks.marks; blocks = o.marks.blocks; count = o.marks.count };
  acked = o.acked;
  text = o.text;
  idle = o.idle;
}

add_to_chunk-Valid :
    (req : Requestor) (i peer : ℕ) (hash : List ℕ)
    → Valid req
    → i < req.chunk_cnt
    → 40 ≤ length hash
    → peer < 1024
    → (r : Requestor) × (add_to_chunk req i hash peer ≡ some r) × Valid r × SameFile req r
unfolding add_to_chunk
add_to_chunk-Valid req i peer hash v h long inside =
    let (c, found) = get_elem?-lt req.chunks i (omega (arith, v.count)) in
    let o = v.each i c found in
    let (t, text) = o.text in
    let (same, compared) = strncmp_eq-text 40 t hash long in
    let compared' : strncmp_eq 40 c.hash hash ≡ some same =
      ap (λ xs. strncmp_eq 40 xs hash) text ∙ compared in
    elim (Bool-cases (not same || contains c.providers peer)) [
      | inl there ↦ (req, rw (found, compared', there) refl, v, SameFile-refl req)
      | inr new ↦
          let fresh : contains c.providers peer ≡ false = ground arith in
          let room : length c.providers < 1024 =
            distinct-room 1024 peer c.providers o.distinct o.known fresh inside in
          (
            put_chunk req i (offered c peer),
            rw (found, compared', new, lt→ltb _ _ room) refl,
            Valid-put req i c (offered c peer) v found (offered-IsChunk c peer o fresh inside) refl,
            ground arith,
          )
    ]

add_from-Valid :
    (rounds i : ℕ) (req : Requestor) (peer : ℕ) (hash : List ℕ)
    → Valid req
    → i + rounds ≡ req.chunk_cnt
    → 40 ≤ length hash
    → peer < 1024
    → (r : Requestor) × (add_from rounds i req hash peer ≡ some r) × Valid r × SameFile req r
unfolding add_from
add_from-Valid zero i req peer hash v h long inside = (req, refl, v, SameFile-refl req)
add_from-Valid (suc rounds) i req peer hash v h long inside =
    let (r, step, v1, same) = add_to_chunk-Valid req i peer hash v (omega arith) long inside in
    let (t, rest, v2, same2) =
      add_from-Valid rounds (i + 1) r peer hash v1 (omega (arith, same.chunk_cnt)) long inside in
    (t, rw step rest, v2, SameFile-trans same same2)

-- A peer that `downloading` has a place for offers a chunk, with a hash of at least 40 characters: this
-- is handled without a fault, in particular the array of providers has a place for the peer. The
-- invariant holds again, and what was written to the output file and what is left stay.
pub add_provider-Valid :
    (req : Requestor) (hash : List ℕ) (peer : ℕ) (e : Env)
    → Valid req
    → 40 ≤ length hash
    → peer < 1024
    → (r : Requestor) × (e' : Env) × (add_provider req hash peer e ≡ some (r, e'))
      × Valid r
      × SameFile req r
unfolding add_provider
add_provider-Valid req hash peer e v long inside =
    let (r, adds, v1, same) =
      add_from-Valid req.chunk_cnt 0 req peer hash v (omega arith) long inside in
    let (next, t, e', asks, v2, same2, _) = request_next_chunk-Requests r e v1 in
    (t, e', rw (adds, asks) refl, v2, SameFile-trans same same2)

add_all-Valid :
    (rounds : ℕ) (req : Requestor) (hashes : List ℕ) (peer : ℕ) (e : Env)
    → Valid req
    → 40 * rounds ≤ length hashes
    → peer < 1024
    → (r : Requestor) × (e' : Env) × (add_all rounds req hashes peer e ≡ some (r, e')) × Valid r
unfolding add_all
add_all-Valid zero req hashes peer e v long inside = (req, e, refl, v)
add_all-Valid (suc rounds) req hashes peer e v long inside =
    let (r, e1, adds, v1, _) = add_provider-Valid req hashes peer e v (omega arith) inside in
    let (t, e2, rest, v2) =
      add_all-Valid rounds r (drop 40 hashes) peer e1 v1 (omega (arith, length-drop 40 hashes))
        inside in
    (t, e2, rw adds rest, v2)

-- What a packet leaves: the invariant, or a download that is over.
abbrev pub Handled : Option (Requestor × Env) → Type 0
Handled result =
    (r : Requestor) × (e' : Env) × (result ≡ some (r, e')) × (Valid r ⊎ (r.in_progress ≡ false))

Finish-ends :
    (req r : Requestor) (i : ℕ) (d : ChunkStatus) (matches : Bool)
    → Finish req i d r matches
    → Valid r ⊎ (r.in_progress ≡ false)
Finish-ends req r i d _ (rejected v _ _ _) = inl v
Finish-ends req r i d _ (accepted v _ _ _ _) = inl v
Finish-ends req r i d _ (completed over _ _) = inr over

Update-Handled :
    (shahash : List ℕ → List ℕ) (req : Requestor) (peer : ℕ) (p : Packet) (e : Env)
    (result : Option (Requestor × Env))
    → Valid req
    → Update shahash req peer p e result
    → Handled result
Update-Handled shahash req peer p e _ v (uncalled free) = (req, e, refl, inl v)
Update-Handled shahash req peer p e _ v (outdated i c busy found old) = (req, e, refl, inl v)
Update-Handled shahash req peer p e _ v (stored i c d busy found s more ok) = (_, _, refl, inl ok)
Update-Handled shahash req peer p e _ v (finished i c d r e' matches busy found s last same how) =
    (r, e', refl, Finish-ends (put_chunk req i d) r i d matches how)

-- A download that satisfies the invariant, which includes that the output file can be opened again,
-- a hash function whose values have 20 bytes, and a packet from a peer that `downloading` has a
-- place for; if it is an IHAVE, its payload has 40 characters for each hash that its header
-- announces, and if it is a DATA packet, its number is in range. It is handled without a fault, and
-- afterwards the download is over or satisfies the invariant again.
pub requestor_packet-Handled :
    (shahash : List ℕ → List ℕ) (req : Requestor) (peer : ℕ) (p : Packet) (e : Env)
    → ((xs : List ℕ) → length (shahash xs) ≡ 20)
    → Valid req
    → peer < 1024
    → (p.header.packet_type ≡ 1 → 40 * hash_count p.header ≤ length p.payload)
    → (p.header.packet_type ≡ 3 → p.header.seq_num < 1024)
    → Handled (requestor_packet shahash req peer p e)
unfolding requestor_packet
requestor_packet-Handled shahash req peer p e size v inside offers numbered =
    elim (Bool-cases (not req.in_progress)) [
      | inl over ↦ subst Handled (sym (if_true _ _ over)) (req, e, refl, inl v)
      | inr runs ↦
          subst Handled (sym (if_false _ _ runs)) (elim (Bool-cases (p.header.packet_type == 1)) [
            | inl ihave ↦
                let (r, e', adds, v1) =
                  add_all-Valid (hash_count p.header) req p.payload peer e v (offers (ground arith))
                    inside in
                subst Handled (sym (if_true _ _ ihave)) (r, e', adds, inl v1)
            | inr other ↦
                subst Handled (sym (if_false _ _ other))
                  (elim (Bool-cases (p.header.packet_type == 3)) [
                    | inl data' ↦ subst Handled (sym (if_true _ _ data')) (
                        Update-Handled shahash req peer p e (update_data shahash req peer p e) v (
                          update_data-Update shahash req peer p e size v inside
                            (numbered (ground arith))))
                    | inr neither ↦ subst Handled (sym (if_false _ _ neither)) (req, e, refl, inl v)
                  ])
          ])
    ]
