-- ===== src/Requestor/Invariant.antt =====
-- The invariant of a download: who downloads what is recorded twice, in `downloading` by peer and
-- in `cur_provider` by chunk, and the two records agree.
use native.Mathlib.Decide.{ℕ_discrete}
use proj.Prelude.{
  ℕ, ◌<◌, ◌≡◌, ap, sym, subst, ◌∙◌, inl, inr, true, none, some, List, [], ◌∷◌, ◌++◌, arith, length,
  get_elem?, set, length-set, lt_of_get_elem?, get_elem?-set_self, get_elem?-set_ne,
  get_elem?-set_cases, some-eq,
}
use proj.Prelude.Int.{negsuc, ◌≤ℤ◌}
use proj.Requestor.{ChunkStatus, Requestor, put_chunk}
use proj.Requestor.Distinct.{distinct}
use proj.Requestor.Progress.{Marks, Acked}

-- The providers of a chunk are different peers that `downloading` has a place for, the last one
-- asked has an index that is at least -1, its marks are in order, the packets before the ACK of a
-- chunk that is being downloaded are marked, its hash ends in a 0, and nobody provides a finished
-- chunk.
pub record IsChunk (c : ChunkStatus) : Type 0 where
  pub known : (k p : ℕ) → get_elem? c.providers k ≡ some p → p < 1024
  pub distinct : distinct c.providers ≡ true
  pub last : negsuc 0 ≤ℤ c.last_provider
  pub marks : Marks c
  pub acked : (p : ℕ) → c.cur_provider ≡ some p → Acked c
  pub text : (t : List ℕ) × (c.hash ≡ t ++ 0 ∷ [])
  pub idle : c.finished ≡ true → c.cur_provider ≡ none

-- The output file can be opened again, and the two records agree.
pub record Valid (req : Requestor) : Type 0 where
  pub reopens : req.reopens ≡ true
  pub count : length req.chunks ≡ req.chunk_cnt
  pub peers : length req.downloading ≡ 1024
  pub each : (i : ℕ) (c : ChunkStatus) → get_elem? req.chunks i ≡ some c → IsChunk c
  pub by_peer :
      (p i : ℕ)
      → get_elem? req.downloading p ≡ some (some i)
      → (c : ChunkStatus) × (get_elem? req.chunks i ≡ some c) × (c.cur_provider ≡ some p)
  pub by_chunk :
      (i p : ℕ) (c : ChunkStatus)
      → get_elem? req.chunks i ≡ some c
      → c.cur_provider ≡ some p
      → get_elem? req.downloading p ≡ some (some i)

-- What a request for the next chunk leaves alone.
pub record SameFile (req r : Requestor) : Type 0 where
  pub in_progress : r.in_progress ≡ req.in_progress
  pub output : r.output ≡ req.output
  pub left : r.left ≡ req.left
  pub chunk_cnt : r.chunk_cnt ≡ req.chunk_cnt

pub SameFile-refl : (req : Requestor) → SameFile req req
SameFile-refl req = ground arith

pub SameFile-trans : {req r t : Requestor} → SameFile req r → SameFile r t → SameFile req t
SameFile-trans a b = ground arith

-- A chunk's status may change as long as its provider stays.
pub Valid-put :
    (req : Requestor) (i : ℕ) (c d : ChunkStatus)
    → Valid req
    → get_elem? req.chunks i ≡ some c
    → IsChunk d
    → d.cur_provider ≡ c.cur_provider
    → Valid (put_chunk req i d)
Valid-put req i c d v found ok same =
    let inside = lt_of_get_elem? req.chunks i c found in
    record {
      reopens = v.reopens;
      count = length-set req.chunks i d ∙ v.count;
      peers = v.peers;
      each = λ j x h. elim (get_elem?-set_cases req.chunks i j d x h) [
        | inl (here, is) ↦ subst IsChunk (sym is) ok
        | inr (there, old) ↦ v.each j x old
      ];
      by_peer = λ p j h.
          let (x, at, who) = v.by_peer p j h in
          elim (ℕ_discrete i j) [
            | yes e ↦
                let one : c ≡ x = some-eq c x (sym found ∙ (ap (get_elem? req.chunks) e ∙ at)) in
                (
                  d,
                  rw (← e) (get_elem?-set_self req.chunks i d inside),
                  same ∙ (ap (λ (y : ChunkStatus). y.cur_provider) one ∙ who),
                )
            | no ne ↦ (x, get_elem?-set_ne req.chunks i j d ne ∙ at, who)
          ];
      by_chunk = λ j p x h who. elim (get_elem?-set_cases req.chunks i j d x h) [
        | inl (here, is) ↦ rw here (
            v.by_chunk i p c found
              (sym same ∙ (ap (λ (y : ChunkStatus). y.cur_provider) (sym is) ∙ who)))
        | inr (there, old) ↦ v.by_chunk j p x old who
      ];
    }

-- A free peer may be given a chunk that has no provider.
pub Valid-assign :
    (req : Requestor) (i p : ℕ) (c d : ChunkStatus)
    → Valid req
    → get_elem? req.chunks i ≡ some c
    → c.cur_provider ≡ none
    → get_elem? req.downloading p ≡ some none
    → IsChunk d
    → d.cur_provider ≡ some p
    → Valid (record (put_chunk req i d) { downloading = set req.downloading p (some i) })
Valid-assign req i p c d v found none' free ok who =
    let inside = lt_of_get_elem? req.chunks i c found in
    let room = lt_of_get_elem? req.downloading p none free in
    record {
      reopens = v.reopens;
      count = length-set req.chunks i d ∙ v.count;
      peers = length-set req.downloading p (some i) ∙ v.peers;
      each = λ j x h. elim (get_elem?-set_cases req.chunks i j d x h) [
        | inl (here, is) ↦ subst IsChunk (sym is) ok
        | inr (there, old) ↦ v.each j x old
      ];
      by_peer = λ q j h. elim (get_elem?-set_cases req.downloading p q (some i) (some j) h) [
        | inl (here, is) ↦ (
          d,
          ap (get_elem? (set req.chunks i d)) (some-eq j i is)
              ∙ get_elem?-set_self req.chunks i d inside,
          who ∙ ap some (sym here),
        )
        | inr (there, old) ↦
            let (x, at, by) = v.by_peer q j old in
            (x, get_elem?-set_ne req.chunks i j d (λ e. cc (ap (get_elem? req.chunks) e)) ∙ at, by)
      ];
      by_chunk = λ j q x h by. elim (get_elem?-set_cases req.chunks i j d x h) [
        | inl (here, is) ↦
            let one : q ≡ p =
              some-eq q p (sym by ∙ (ap (λ (y : ChunkStatus). y.cur_provider) is ∙ who)) in
            ap (get_elem? (set req.downloading p (some i))) one
            ∙ (get_elem?-set_self req.downloading p (some i) room
                ∙ ap (λ n. some (some n)) (sym here))
        | inr (there, old) ↦
            get_elem?-set_ne req.downloading p q (some i)
              (λ e. cc (ap (get_elem? req.downloading) e, v.by_chunk j q x old by))
            ∙ v.by_chunk j q x old by
      ];
    }

-- A chunk may be taken from its provider, who is free then.
pub Valid-release :
    (req : Requestor) (i p : ℕ) (c d : ChunkStatus)
    → Valid req
    → get_elem? req.chunks i ≡ some c
    → c.cur_provider ≡ some p
    → IsChunk d
    → d.cur_provider ≡ none
    → Valid (record (put_chunk req i d) { downloading = set req.downloading p none })
Valid-release req i p c d v found who ok none' =
    let busy = v.by_chunk i p c found who in
    record {
      reopens = v.reopens;
      count = length-set req.chunks i d ∙ v.count;
      peers = length-set req.downloading p none ∙ v.peers;
      each = λ j x h. elim (get_elem?-set_cases req.chunks i j d x h) [
        | inl (here, is) ↦ subst IsChunk (sym is) ok
        | inr (there, old) ↦ v.each j x old
      ];
      by_peer = λ q j h. elim (get_elem?-set_cases req.downloading p q none (some j) h) [
        | inl (here, is) ↦ absurd (cc)
        | inr (there, old) ↦
            let (x, at, by) = v.by_peer q j old in
            (
              x,
              get_elem?-set_ne req.chunks i j d (λ e. there (
                    some-eq p q (
                      sym who
                      ∙ (ap (λ (y : ChunkStatus). y.cur_provider)
                            (some-eq c x (sym found ∙ (ap (get_elem? req.chunks) e ∙ at)))
                          ∙ by))))
                  ∙ at,
              by,
            )
      ];
      by_chunk = λ j q x h by. elim (get_elem?-set_cases req.chunks i j d x h) [
        | inl (here, is) ↦ absurd (cc)
        | inr (there, old) ↦
            get_elem?-set_ne req.downloading p q none (λ e. there (
              some-eq i j (
                some-eq (some i) (some j)
                  (sym busy ∙ (ap (get_elem? req.downloading) e ∙ v.by_chunk j q x old by)))))
            ∙ v.by_chunk j q x old by
      ];
    }
