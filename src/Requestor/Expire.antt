-- ===== src/Requestor/Expire.antt =====
-- `requstor_timeout`: chunks whose provider is silent are taken from it and asked for elsewhere.
use proj.Prelude.{
  ℕ, zero, suc, ◌+◌, ◌-◌, ◌<◌, ◌≡◌, refl, ◌∙◌, inl, inr, true, not, ◌||◌, none, some, arith, set,
  Bool-cases, Option-cases, ◌==◌, ltb, get_elem?-lt,
}
use proj.Wire.{Env}
use proj.Requestor.{ChunkStatus, Requestor, put_chunk}
use proj.Requestor.Receive.{expire, expire_from, request_all, requstor_timeout}
use proj.Requestor.Invariant.{
  IsChunk, Valid, SameFile, SameFile-refl, SameFile-trans, Valid-put, Valid-release,
}
use proj.Requestor.Repeat.{request_all-total}

-- A chunk that is taken from its provider.
abbrev dropped : ChunkStatus → ChunkStatus
dropped c = record c { last_packet = 0; cur_provider = none }

dropped-IsChunk : (c : ChunkStatus) → IsChunk c → IsChunk (dropped c)
dropped-IsChunk c o = record {
  known = o.known;
  distinct = o.distinct;
  last = o.last;
  marks = record { marks = o.marks.marks; blocks = o.marks.blocks; count = o.marks.count };
  acked = λ p h. cc;
  text = o.text;
  idle = λ h. refl;
}

-- A chunk that waits a second less for its provider.
abbrev later : ChunkStatus → ChunkStatus
later c = record c { last_packet = c.last_packet - 1 }

later-IsChunk : (c : ChunkStatus) → IsChunk c → IsChunk (later c)
later-IsChunk c o = record {
  known = o.known;
  distinct = o.distinct;
  last = o.last;
  marks = record { marks = o.marks.marks; blocks = o.marks.blocks; count = o.marks.count };
  acked = o.acked;
  text = o.text;
  idle = o.idle;
}

expire-Valid :
    (req : Requestor) (i : ℕ)
    → Valid req
    → i < req.chunk_cnt
    → (r : Requestor) × (expire req i ≡ some r) × Valid r × SameFile req r
unfolding expire
expire-Valid req i v h =
    let (c, found) = get_elem?-lt req.chunks i (omega (arith, v.count)) in
    let o = v.each i c found in
    elim (Bool-cases (c.finished || not (ltb 0 c.last_packet))) [
      | inl quiet ↦ (req, rw (found, quiet) refl, v, SameFile-refl req)
      | inr waits ↦ elim (Option-cases c.cur_provider) [
        | inl none' ↦ (req, rw (found, waits, none') refl, v, SameFile-refl req)
        | inr (p, who) ↦ elim (Bool-cases (c.last_packet == 1)) [
          | inl over ↦ (
            record (put_chunk req i (dropped c)) { downloading = set req.downloading p none },
            rw found (simp (waits, who, over, v.by_chunk i p c found who)),
            Valid-release req i p c (dropped c) v found who (dropped-IsChunk c o) refl,
            ground arith,
          )
          | inr more ↦ (
            put_chunk req i (later c),
            rw found (simp (waits, who, more)),
            Valid-put req i c (later c) v found (later-IsChunk c o) refl,
            ground arith,
          )
        ]
      ]
    ]

expire_from-Valid :
    (rounds i : ℕ) (req : Requestor)
    → Valid req
    → i + rounds ≡ req.chunk_cnt
    → (r : Requestor) × (expire_from rounds i req ≡ some r) × Valid r × SameFile req r
unfolding expire_from
expire_from-Valid zero i req v h = (req, refl, v, SameFile-refl req)
expire_from-Valid (suc rounds) i req v h =
    let (r, step, v1, same) = expire-Valid req i v (omega arith) in
    let (t, rest, v2, same2) =
      expire_from-Valid rounds (i + 1) r v1 (omega (arith, same.chunk_cnt)) in
    (t, rw step rest, v2, SameFile-trans same same2)

-- The function on a download that is in progress, and on one that is not.
requstor_timeout-busy :
    (req r : Requestor) (e : Env)
    → req.in_progress ≡ true
    → expire_from req.chunk_cnt 0 req ≡ some r
    → requstor_timeout req e ≡ request_all (suc r.chunk_cnt) r e
unfolding requstor_timeout
requstor_timeout-busy req r e busy old = simp (busy, old)

-- On a download that satisfies the invariant the second that passes makes no fault and its loops
-- end. The invariant holds again, and what was written to the output file and what is left stay.
pub requstor_timeout-Valid :
    (req : Requestor) (e : Env)
    → Valid req
    → (r : Requestor) × (e' : Env) × (requstor_timeout req e ≡ some (r, e'))
      × Valid r
      × SameFile req r
unfolding requstor_timeout
requstor_timeout-Valid req e v =
    let (r, old, v1, same) = expire_from-Valid req.chunk_cnt 0 req v (omega arith) in
    let (t, e', asks, v2, same2) = request_all-total r e v1 in
    elim (Bool-cases req.in_progress) [
      | inl busy ↦
          (t, e', requstor_timeout-busy req r e busy old ∙ asks, v2, SameFile-trans same same2)
      | inr idle ↦ (req, e, simp idle, v, SameFile-refl req)
    ]
