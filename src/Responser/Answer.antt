-- ===== src/Responser/Answer.antt =====
-- `responser_packet`: the answers to WHOHAS and GET.
use proj.Prelude.{
  ℕ, zero, suc, ◌*◌, ◌≤◌, ◌<◌, ◌≡◌, refl, ap, ◌∙◌, inl, inr, Bool, Option, none, some, List, [],
  ◌∷◌, ◌++◌, arith, length, drop, Bool-cases, Option-cases, ◌==◌, ◌>>=◌, length-drop,
}
use proj.Wire.{Packet, Env}
use proj.Wire.Send.{send_packet_total}
use proj.Requestor.{hash_packet}
use proj.Requestor.Receive.{strncmp_eq, hash_count}
use proj.Requestor.Finish.{strncmp_eq-total}
use proj.Responser.{
  ChunkData, Responser, send_ihave, answer_whohas, answer_all, find_chunk, send_chunk,
  responser_packet,
}
use proj.Responser.Serving.{Serving, SameLibrary, SameLibrary-refl}
use proj.Responser.Start.{Upload, under_way, too_many, no_sender, begun, send_chunk-Upload}

-- The hashes of the served chunks end in a 0.
pub data Texts : List ChunkData → Type 0 where
  no_text : Texts []
  one_text :
      (c : ChunkData) (cs : List ChunkData) (t : List ℕ)
      → c.hash ≡ t ++ 0 ∷ []
      → Texts cs
      → Texts (c ∷ cs)

send_ihave-total :
    (peer : ℕ) (hash : List ℕ) (e : Env) → (e' : Env) × (send_ihave peer hash e ≡ some e')
unfolding send_ihave hash_packet
send_ihave-total peer hash e = (
  _,
  ap (λ r. r >>= λ (packet, e1). some e1)
      (send_packet_total peer (hash_packet 1 hash e) e (omega arith)),
)

compared :
    (hash : List ℕ) (c : ChunkData) (t : List ℕ)
    → 40 ≤ length hash
    → c.hash ≡ t ++ 0 ∷ []
    → (b : Bool) × (strncmp_eq 40 hash c.hash ≡ some b)
compared hash c t long text =
    let (b, same) = strncmp_eq-total 40 hash t long in (b, ap (strncmp_eq 40 hash) text ∙ same)

answer_whohas-total :
    (cs : List ChunkData) (hash : List ℕ) (peer : ℕ) (e : Env)
    → Texts cs
    → 40 ≤ length hash
    → (e' : Env) × (answer_whohas cs hash peer e ≡ some e')
unfolding answer_whohas
answer_whohas-total _ hash peer e no_text long = (e, refl)
answer_whohas-total _ hash peer e (one_text c cs t text others) long =
    let (same, found) = compared hash c t long text in
    let (e1, sent) = send_ihave-total peer hash e in
    elim (Bool-cases same) [
      | inl yes' ↦
          let (e2, rest) = answer_whohas-total cs hash peer e1 others long in
          (e2, rw (found, yes', sent) rest)
      | inr no' ↦
          let (e2, rest) = answer_whohas-total cs hash peer e others long in
          (e2, rw (found, no') rest)
    ]

answer_all-total :
    (rounds : ℕ) (cs : List ChunkData) (hashes : List ℕ) (peer : ℕ) (e : Env)
    → Texts cs
    → 40 * rounds ≤ length hashes
    → (e' : Env) × (answer_all rounds cs hashes peer e ≡ some e')
unfolding answer_all
answer_all-total zero cs hashes peer e texts long = (e, refl)
answer_all-total (suc rounds) cs hashes peer e texts long =
    let (e1, first) = answer_whohas-total cs hashes peer e texts (omega arith) in
    let (e2, rest) =
      answer_all-total rounds cs (drop 40 hashes) peer e1 texts
        (omega (arith, length-drop 40 hashes)) in
    (e2, rw first rest)

find_chunk-total :
    (cs : List ChunkData) (hash : List ℕ)
    → Texts cs
    → 40 ≤ length hash
    → (r : Option ℕ) × (find_chunk cs hash ≡ some r)
unfolding find_chunk
find_chunk-total _ hash no_text long = (none, refl)
find_chunk-total _ hash (one_text c cs t text others) long =
    let (same, found) = compared hash c t long text in
    let (r, rest) = find_chunk-total cs hash others long in
    elim (Bool-cases same) [
      | inl yes' ↦ (some c.id, rw (found, yes') refl)
      | inr no' ↦ (r, rw (found, no') rest)
    ]

-- What an answer leaves.
abbrev pub Answered : ℕ → Responser → Option (Responser × Env) → Type 0
Answered cap res result =
    (r : Responser) × (e' : Env) × (result ≡ some (r, e')) × Serving cap 0 r × SameLibrary res r

Upload-Answered :
    (cap : ℕ) (res : Responser) (peer max_conn : ℕ) (e : Env) (result : Option (Responser × Env))
    → Serving cap 0 res
    → Upload cap res peer max_conn e result
    → Answered cap res result
Upload-Answered cap res peer max_conn e _ v (under_way h) = (res, e, refl, v, SameLibrary-refl res)
Upload-Answered cap res peer max_conn e _ v (too_many h) = (res, e, refl, v, SameLibrary-refl res)
Upload-Answered cap res peer max_conn e _ v (no_sender h) = (res, e, refl, v, SameLibrary-refl res)
Upload-Answered cap res peer max_conn e _ v (begun r k t e' a b c d f g h i w l) =
    (r, e', refl, w, l)

-- The bookkeeping of the uploads is right, no packet in a window has a `packet_len` above `cap`, which
-- is at least 544, the hashes of the served chunks end in a 0, the master file
-- can be opened and `uploadingto` has a place for the peer. If the packet is a WHOHAS, its payload has
-- 40 characters for each hash that its header announces, and if it is a GET, at least 40. Then it is
-- answered without a fault, the bookkeeping is right again, and the chunks, the
-- master file and the number of senders stay.
pub responser_packet-Answered :
    {cap : ℕ} (res : Responser) (peer : ℕ) (p : Packet) (master : List ℕ) (e : Env)
    → Serving cap 0 res
    → 544 ≤ cap
    → Texts res.chunks
    → res.master ≡ some master
    → peer < 1024
    → (p.header.packet_type ≡ 0 → 40 * hash_count p.header ≤ length p.payload)
    → (p.header.packet_type ≡ 2 → 40 ≤ length p.payload)
    → Answered cap res (responser_packet res peer p e)
unfolding responser_packet
responser_packet-Answered {cap} res peer p master e v large texts opens inside asks wants =
    elim (Bool-cases (p.header.packet_type == 0)) [
      | inl whohas ↦
          let (e', answers) =
            answer_all-total (hash_count p.header) res.chunks p.payload peer e texts
              (asks (ground arith)) in
          (res, e', rw (whohas, answers) refl, v, SameLibrary-refl res)
      | inr other ↦ elim (Bool-cases (p.header.packet_type == 2)) [
        | inr neither ↦ (res, e, rw (other, neither) refl, v, SameLibrary-refl res)
        | inl get ↦
            let (found, search) =
              find_chunk-total res.chunks p.payload texts (wants (ground arith)) in
            elim (Option-cases found) [
              | inl unknown ↦
                  (res, e, rw (other, get, search, unknown) refl, v, SameLibrary-refl res)
              | inr (id, known) ↦
                  let (r, e', sends, w, l) =
                    Upload-Answered cap res peer e.max_conn e (send_chunk res peer id e) v
                      (send_chunk-Upload res peer id master e v large inside opens) in
                  (r, e', rw (other, get, search, known) sends, w, l)
            ]
      ]
    ]
