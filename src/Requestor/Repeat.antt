-- ===== src/Requestor/Repeat.antt =====
-- The `while` loop of `requstor_timeout`.
use proj.Prelude.{ℕ, zero, suc, ◌<◌, ◌≡◌, refl, ◌⊎◌, inl, inr, some, arith}
use proj.Wire.{Env}
use proj.Requestor.{Requestor, Next, requested, flooded, nothing}
use proj.Requestor.Receive.{request_all}
use proj.Requestor.Invariant.{Valid, SameFile, SameFile-trans}
use proj.Requestor.Requests.{waiting, waiting-le, request_next_chunk-Requests}

Next-cases : (n : Next) → (n ≡ requested) ⊎ ((n ≡ flooded) ⊎ (n ≡ nothing))
Next-cases requested = inl refl
Next-cases flooded = inr (inl refl)
Next-cases nothing = inr (inr refl)

-- With more fuel than chunks wait the loop ends.
request_all-Valid :
    (fuel : ℕ) (req : Requestor) (e : Env)
    → Valid req
    → waiting req.chunks < fuel
    → (r : Requestor) × (e' : Env) × (request_all fuel req e ≡ some (r, e'))
      × Valid r
      × SameFile req r
unfolding request_all
request_all-Valid zero req e v h = absurd (omega arith)
request_all-Valid (suc fuel) req e v h =
    let (next, r, e1, asks, v1, same, less) = request_next_chunk-Requests req e v in
    elim (Next-cases next) [
      | inl more ↦
          let (t, e2, ends, v2, same2) =
            request_all-Valid fuel r e1 v1 (omega (arith, less more)) in
          (t, e2, rw (asks, more) ends, v2, SameFile-trans same same2)
      | inr (inl stop) ↦ (r, e1, rw (asks, stop) refl, v1, same)
      | inr (inr stop) ↦ (r, e1, rw (asks, stop) refl, v1, same)
    ]

-- On a download that satisfies the invariant the `while` loop of `requstor_timeout` ends within one
-- round more than there are chunks, without a fault; it keeps the invariant and leaves alone what
-- was written to the output file and what is left.
pub request_all-total :
    (req : Requestor) (e : Env)
    → Valid req
    → (r : Requestor) × (e' : Env) × (request_all (suc req.chunk_cnt) req e ≡ some (r, e'))
      × Valid r
      × SameFile req r
request_all-total req e v =
    request_all-Valid (suc req.chunk_cnt) req e v (omega (arith, waiting-le req.chunks, v.count))
