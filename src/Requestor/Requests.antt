-- ===== src/Requestor/Requests.antt =====
-- `send_get` and `request_next_chunk`.
use proj.Prelude.{
  ℕ, zero, suc, ◌+◌, ◌≤◌, ◌<◌, ◌≡◌, refl, ap, sym, subst, ◌∙◌, inl, inr, Bool, true, false, not,
  ◌&&◌, Option, none, some, List, [], ◌∷◌, arith, is_none, length, get_elem?, set, length-replicate,
  get_elem?-lt, lt_of_get_elem?, get_elem?-set_self, Bool-cases, some-eq, if◌then◌else◌,
}
use proj.Prelude.Int.{pos}
use proj.Wire.{Packet, Peer, Env}
use proj.Wire.Send.{send_packet_total, grown, outgoing}
use proj.Requestor.{
  ChunkStatus, Requestor, Choice, chosen, all_busy, no_provider, Next, requested, flooded, nothing,
  hash_packet, packets_per_chunk, flood, send_whohas, put_chunk, asked, send_get, serve,
  request_from, request_next_chunk,
}
use proj.Requestor.Progress.{missing-replicate}
use proj.Requestor.Provider.{Chose, find_next_provider_lem}
use proj.Requestor.Invariant.{IsChunk, Valid, SameFile, SameFile-refl, Valid-put, Valid-assign}

flood-total : (ps : List Peer) (p : Packet) (e : Env) → (e' : Env) × (flood ps p e ≡ some e')
unfolding flood
flood-total [] p e = (e, refl)
flood-total (q ∷ ps) p e =
    let p1 : Packet = record p { header = record (p.header) { packet_len = 40 } } in
    let p2 : Packet = record p1 { header = grown p1 } in
    let e1 : Env = record e { sent = outgoing q.id p1 e } in
    let (e', later) = flood-total ps p2 e1 in
    (e', rw (send_packet_total q.id p1 e (omega arith)) later)

pub send_whohas-total :
    (req : Requestor) (i : ℕ) (c : ChunkStatus) (e : Env)
    → get_elem? req.chunks i ≡ some c
    → (e' : Env) × (send_whohas req i e ≡ some e')
unfolding send_whohas
send_whohas-total req i c e found =
    let (e', sent) = flood-total e.peers (hash_packet 0 c.hash e) e in (e', rw found sent)

-- Waits for a provider.
abbrev pub waits : ChunkStatus → Bool
waits c = not c.finished && is_none c.cur_provider

abbrev pub waiting : List ChunkStatus → ℕ
waiting [] = 0
waiting (c ∷ cs) = if waits c then suc (waiting cs) else waiting cs

pub waiting-le : (cs : List ChunkStatus) → waiting cs ≤ length cs
waiting-le [] = omega arith
waiting-le (c ∷ cs) = ground (arith, waiting-le cs)

waiting-same :
    (cs : List ChunkStatus) (i : ℕ) (c d : ChunkStatus)
    → get_elem? cs i ≡ some c
    → waits d ≡ waits c
    → waiting (set cs i d) ≡ waiting cs
waiting-same [] i c d h e = cc
waiting-same (x ∷ cs) zero c d h e =
    ap (λ b. if b then suc (waiting cs) else waiting cs) (e ∙ ap waits (sym (some-eq x c h)))
waiting-same (x ∷ cs) (suc i) c d h e = ground (arith, waiting-same cs i c d h e)

waiting-less :
    (cs : List ChunkStatus) (i : ℕ) (c d : ChunkStatus)
    → get_elem? cs i ≡ some c
    → waits c ≡ true
    → waits d ≡ false
    → suc (waiting (set cs i d)) ≡ waiting cs
waiting-less [] i c d h w e = cc
waiting-less (x ∷ cs) zero c d h w e =
    let w' : waits x ≡ true = ap waits (some-eq x c h) ∙ w in rw (e, w') refl
waiting-less (x ∷ cs) (suc i) c d h w e = ground (arith, waiting-less cs i c d h w e)

asked-IsChunk : (c : ChunkStatus) (p : ℕ) → IsChunk c → c.finished ≡ false → IsChunk (asked c p)
asked-IsChunk c p k open' = record {
  known = k.known;
  distinct = k.distinct;
  last = k.last;
  marks = record {
    marks = length-replicate packets_per_chunk false;
    blocks = k.marks.blocks;
    count = sym (missing-replicate packets_per_chunk);
  };
  acked = λ q h j l. absurd (omega arith);
  text = k.text;
  idle = λ h. cc;
}

hash_packet-len : (t : ℕ) (hash : List ℕ) (e : Env) → (hash_packet t hash e).header.packet_len ≡ 40
unfolding hash_packet
hash_packet-len t hash e = refl

-- On a download that satisfies the invariant a GET for a chunk that waits goes to a peer from whom
-- nothing is being downloaded. This makes no fault and keeps the invariant: the chunk is reset and
-- has that provider, the peer has that chunk, one chunk less waits, and what was written and what
-- is left stay.
pub send_get-Valid :
    (req : Requestor) (p i : ℕ) (c : ChunkStatus) (e : Env)
    → Valid req
    → get_elem? req.chunks i ≡ some c
    → waits c ≡ true
    → get_elem? req.downloading p ≡ some none
    → (r : Requestor) × (e' : Env) × (send_get req p i e ≡ some (r, e'))
      × Valid r
      × SameFile req r
      × (get_elem? r.chunks i ≡ some (asked c p))
      × (get_elem? r.downloading p ≡ some (some i))
      × (suc (waiting r.chunks) ≡ waiting req.chunks)
unfolding send_get
send_get-Valid req p i c e v found w free =
    let open' : c.finished ≡ false = ground arith in
    let none' : c.cur_provider ≡ none = ground arith in
    let packet = hash_packet 2 c.hash e in
    (
      record (put_chunk req i (asked c p)) { downloading = set req.downloading p (some i) },
      record e { sent = outgoing p packet e },
      rw (free, found, send_packet_total p packet e (omega (arith, hash_packet-len 2 c.hash e)))
          refl,
      Valid-assign req i p c (asked c p) v found none' free
          (asked-IsChunk c p (v.each i c found) open') refl,
      ground arith,
      get_elem?-set_self req.chunks i (asked c p) (lt_of_get_elem? req.chunks i c found),
      get_elem?-set_self req.downloading p (some i) (lt_of_get_elem? req.downloading p none free),
      waiting-less req.chunks i c (asked c p) found w (ground arith),
    )

-- What a search for the next chunk comes to.
abbrev pub Requests : Requestor → Option (Next × Requestor × Env) → Type 0
Requests req result =
    (next : Next) × (r : Requestor) × (e' : Env) × (result ≡ some (next, r, e'))
    × Valid r
    × SameFile req r
    × (next ≡ requested → suc (waiting r.chunks) ≡ waiting req.chunks)

chosen-Valid :
    (req : Requestor) (i k : ℕ) (c : ChunkStatus)
    → Valid req
    → get_elem? req.chunks i ≡ some c
    → Valid (put_chunk req i (record c { last_provider = pos k }))
chosen-Valid req i k c v found =
    let o = v.each i c found in
    Valid-put req i c (record c { last_provider = pos k }) v found
      (record {
        known = o.known;
        distinct = o.distinct;
        last = omega arith;
        marks = record { marks = o.marks.marks; blocks = o.marks.blocks; count = o.marks.count };
        acked = o.acked;
        text = o.text;
        idle = o.idle;
      })
      refl

serve-Requests :
    (i : ℕ) (choice : Choice) (req r : Requestor) (c : ChunkStatus) (e : Env)
    (later : Option (Next × Requestor × Env))
    → Valid req
    → get_elem? req.chunks i ≡ some c
    → waits c ≡ true
    → Chose req i c choice r
    → (r ≡ req → Requests req later)
    → Requests req (serve i choice r e later)
unfolding serve
serve-Requests i (chosen p) req r c e later v found w (k, free, is) l =
    let c1 : ChunkStatus = record c { last_provider = pos k } in
    let req1 : Requestor = put_chunk req i c1 in
    let at = get_elem?-set_self req.chunks i c1 (lt_of_get_elem? req.chunks i c found) in
    let (t, e', sent, v', same, _, _, less) =
      send_get-Valid req1 p i c1 e (chosen-Valid req i k c v found) at w free.1 in
    (
      requested,
      t,
      e',
      rw (is, sent) refl,
      v',
      ground (arith, same),
      λ _. less ∙ waiting-same req.chunks i c c1 found refl,
    )
serve-Requests i no_provider req r c e later v found w (is, empty) l =
    let (e', sent) = send_whohas-total req i c e found in
    (flooded, req, e', rw (is, sent) refl, v, SameFile-refl req, λ h. cc)
serve-Requests i all_busy req r c e later v found w h l = l h.0

request_from-Requests :
    (rounds i : ℕ) (req : Requestor) (e : Env)
    → Valid req
    → i + rounds ≡ req.chunk_cnt
    → Requests req (request_from rounds i req e)
unfolding request_from
request_from-Requests zero i req e v h = (nothing, req, e, refl, v, SameFile-refl req, λ h. cc)
request_from-Requests (suc rounds) i req e v h =
    let (c, found) = get_elem?-lt req.chunks i (omega (arith, v.count)) in
    let later = request_from-Requests rounds (i + 1) req e v (omega arith) in
    elim (Bool-cases (waits c)) [
      | inr busy ↦ rw (found, busy) later
      | inl w ↦
          let o = v.each i c found in
          let (choice, r, chose, how) =
            find_next_provider_lem req i c found
              (λ k p a. subst (λ n. p < n) (sym v.peers) (o.known k p a)) o.last in
          rw (found, w, chose)
            (serve-Requests i choice req r c e (request_from rounds (i + 1) r e) v found w how
              (λ is. rw is later))
    ]

-- On a download that satisfies the invariant the search for the next chunk is made without a fault.
-- It keeps the invariant and leaves alone what was written to the output file and what is left; if
-- it says that it made a request, one chunk less waits for a provider.
pub request_next_chunk-Requests :
    (req : Requestor) (e : Env) → Valid req → Requests req (request_next_chunk req e)
unfolding request_next_chunk
request_next_chunk-Requests req e v = request_from-Requests req.chunk_cnt 0 req e v (omega arith)
