-- ===== src/Requestor/Finish.antt =====
-- `finish_chunk`: all packets of a chunk are there.
use mathlib.Core.List.{flatten}
use proj.Prelude.{
  ℕ, zero, suc, ◌≤◌, ◌≡◌, refl, ap, sym, ◌∙◌, not, if_true, if_false, inl, inr, ◌≢◌, Bool, true,
  false, Option, none, some, List, [], ◌∷◌, ◌++◌, arith, length, get_elem?, set, length-replicate,
  Bool-cases, ◌==◌,
}
use proj.Prelude.Int.{pos, ◌-ℤ◌, eqb_ℤ, eqb_ℤ-zero, eqb_ℤ-nonzero}
use proj.Wire.{Env, seek_offset}
use proj.Chunk.{binary2hex}
use proj.Chunk.Hex.{length-binary2hex}
use proj.Requestor.{ChunkStatus, Requestor, hash_text_len, packets_per_chunk}
use proj.Requestor.Receive.{
  strncmp_eq, finish_file, reject_chunk, accept_chunk, settle, finish_chunk,
}
use proj.Requestor.Progress.{missing-replicate}
use proj.Requestor.Invariant.{Valid, Valid-release}
use proj.Requestor.Requests.{request_next_chunk-Requests}

-- A comparison with a text that ends in a 0 stays inside both arrays.
pub strncmp_eq-total :
    (n : ℕ) (xs t : List ℕ) → n ≤ length xs → (b : Bool) × (strncmp_eq n xs (t ++ 0 ∷ []) ≡ some b)
unfolding strncmp_eq
strncmp_eq-total zero xs t h = (true, refl)
strncmp_eq-total (suc n) [] t h = absurd (omega arith)
strncmp_eq-total (suc n) (x ∷ xs) [] h = elim (Bool-cases (x == 0)) [
  | inl e ↦ (true, rw e refl)
  | inr e ↦ (false, rw e refl)
]
strncmp_eq-total (suc n) (x ∷ xs) (y ∷ t) h =
    let (b, later) = strncmp_eq-total n xs t (omega arith) in
    elim (Bool-cases (x == y)) [
      | inr e ↦ (false, rw e refl)
      | inl e ↦ elim (Bool-cases (x == 0)) [
        | inl z ↦ (true, rw (e, z) refl)
        | inr z ↦ (b, rw (e, z) later)
      ]
    ]

-- The comparison that `finish_chunk` makes.
abbrev pub hash_matches : (List ℕ → List ℕ) → ChunkStatus → Option Bool
hash_matches shahash c = strncmp_eq hash_text_len (binary2hex (shahash (flatten c.data_buf))) c.hash

-- The requestor after a chunk was rejected, or accepted as one of several that were left, keeps the
-- invariant.
reject_chunk-Valid :
    (req : Requestor) (i p : ℕ) (c : ChunkStatus)
    → Valid req
    → get_elem? req.chunks i ≡ some c
    → c.cur_provider ≡ some p
    → Valid (reject_chunk (record req { downloading = set req.downloading p none }) i c)
unfolding reject_chunk
reject_chunk-Valid req i p c v found who =
    let o = v.each i c found in
    Valid-release req i p c _ v found who
      (record {
        known = o.known;
        distinct = o.distinct;
        last = o.last;
        marks = record {
          marks = length-replicate packets_per_chunk false;
          blocks = o.marks.blocks;
          count = sym (missing-replicate packets_per_chunk);
        };
        acked = λ q h. cc;
        text = o.text;
        idle = λ h. refl;
      })
      refl

accept_chunk-Valid :
    (req : Requestor) (i p : ℕ) (c : ChunkStatus)
    → Valid req
    → get_elem? req.chunks i ≡ some c
    → c.cur_provider ≡ some p
    → Valid (accept_chunk (record req { downloading = set req.downloading p none }) i c)
unfolding accept_chunk
accept_chunk-Valid req i p c v found who =
    let o = v.each i c found in
    let d : ChunkStatus = record c { finished = true; cur_provider = none; last_packet = 0 } in
    let w =
      Valid-release req i p c d v found who
        (record {
          known = o.known;
          distinct = o.distinct;
          last = o.last;
          marks = record { marks = o.marks.marks; blocks = o.marks.blocks; count = o.marks.count };
          acked = λ q h. cc;
          text = o.text;
          idle = λ h. refl;
        })
        refl in
    record {
      reopens = w.reopens;
      count = w.count;
      peers = w.peers;
      each = w.each;
      by_peer = w.by_peer;
      by_chunk = w.by_chunk;
    }

-- The three ends of `finish_chunk`.
pub data Finish (req : Requestor) (i : ℕ) (c : ChunkStatus) (r : Requestor) : Bool → Type 0 where
  rejected :
      Valid r
      → r.in_progress ≡ req.in_progress
      → r.output ≡ req.output
      → r.left ≡ req.left
      → Finish req i c r false
  accepted :
      Valid r
      → r.in_progress ≡ req.in_progress
      → r.output ≡ (seek_offset i, flatten c.data_buf) ∷ req.output
      → r.left ≡ req.left -ℤ pos 1
      → r.left ≢ pos 0
      → Finish req i c r true
  completed :
      r.in_progress ≡ false
      → r.output ≡ (seek_offset i, flatten c.data_buf) ∷ req.output
      → req.left -ℤ pos 1 ≡ pos 0
      → Finish req i c r true

-- The download without the provider `p`, which is free now.
abbrev freed : Requestor → ℕ → Requestor
freed req p = record req { downloading = set req.downloading p none }

settle-Finish :
    (req : Requestor) (i p : ℕ) (c : ChunkStatus) (matches : Bool) (e : Env)
    → Valid req
    → get_elem? req.chunks i ≡ some c
    → c.cur_provider ≡ some p
    → (r : Requestor) × (e' : Env) × (settle (freed req p) i c matches e ≡ some (r, e'))
      × Finish req i c r matches
unfolding settle
settle-Finish req i p c false e v found who =
    let (next, r, e1, asks, v1, same, _) =
      request_next_chunk-Requests (reject_chunk (freed req p) i c) e
        (reject_chunk-Valid req i p c v found who) in
    (
      r,
      e1,
      rw asks refl,
      rejected v1 (same.in_progress ∙ unfold reject_chunk in refl)
          (same.output ∙ unfold reject_chunk in refl) (same.left ∙ unfold reject_chunk in refl),
    )
settle-Finish req i p c true e v found who =
    let q = accept_chunk (freed req p) i c in
    let (next, r, e1, asks, v1, same, _) =
      request_next_chunk-Requests q e (accept_chunk-Valid req i p c v found who) in
    let opens : not req.reopens ≡ false = ap not v.reopens in
    elim (Bool-cases (eqb_ℤ q.left (pos 0))) [
      | inl none' ↦ (
        finish_file q,
        e,
        if_false _ _ opens ∙ if_true _ _ none',
        completed (unfold finish_file in refl) (unfold finish_file accept_chunk in refl)
            (unfold accept_chunk in eqb_ℤ-zero q.left none'),
      )
      | inr more ↦ (
        r,
        e1,
        if_false _ _ opens ∙ (if_false _ _ more ∙ rw asks refl),
        accepted v1 (same.in_progress ∙ unfold accept_chunk in refl)
            (same.output ∙ unfold accept_chunk in refl) (same.left ∙ unfold accept_chunk in refl)
            (λ is. eqb_ℤ-nonzero q.left more (sym same.left ∙ is)),
      )
    ]

finish_chunk-settle :
    (shahash : List ℕ → List ℕ) (req : Requestor) (i p : ℕ) (c : ChunkStatus) (current : Option ℕ)
    (matches : Bool) (e : Env)
    → get_elem? req.chunks i ≡ some c
    → c.cur_provider ≡ some p
    → get_elem? req.downloading p ≡ some current
    → hash_matches shahash c ≡ some matches
    → finish_chunk shahash req i e ≡ settle (freed req p) i c matches e
unfolding finish_chunk
finish_chunk-settle shahash req i p c current matches e found who busy same =
    rw found (simp (who, busy, same))

-- A download that satisfies the invariant, which includes that the output file can be opened again,
-- a chunk that somebody provides, and a hash function whose values have 20 bytes: `finish_chunk`
-- makes no fault. If the text of the hash of the data differs from the one that was asked for,
-- nothing is written and as many chunks are left as before; if not, the data is written at
-- `seek_offset i`, the offset that C's `int` product gives for chunk `i`, `left` is one less, and
-- the download is over exactly if `left` is 0 then. Unless it is over, the invariant holds again.
pub finish_chunk-Finish :
    (shahash : List ℕ → List ℕ) (req : Requestor) (i p : ℕ) (c : ChunkStatus) (e : Env)
    → ((xs : List ℕ) → length (shahash xs) ≡ 20)
    → Valid req
    → get_elem? req.chunks i ≡ some c
    → c.cur_provider ≡ some p
    → (r : Requestor) × (e' : Env) × (matches : Bool) × (finish_chunk shahash req i e
        ≡ some (r, e'))
      × (hash_matches shahash c ≡ some matches)
      × Finish req i c r matches
finish_chunk-Finish shahash req i p c e size v found who =
    let busy = v.by_chunk i p c found who in
    let data' = flatten c.data_buf in
    let (t, text) = (v.each i c found).text in
    let (matches, compared) =
      strncmp_eq-total 40 (binary2hex (shahash data')) t
        (omega (arith, length-binary2hex (shahash data'), size data')) in
    let same : hash_matches shahash c ≡ some matches = rw text compared in
    let (r, e', settled, how) = settle-Finish req i p c matches e v found who in
    (
      r,
      e',
      matches,
      finish_chunk-settle shahash req i p c (some i) matches e found who busy same ∙ settled,
      same,
      how,
    )
