-- ===== src/Peer/Senders.antt =====
-- The loops over the senders, for an ACK and for the timer.
use proj.Prelude.{
  ℕ, ◌+◌, ◌≤◌, ◌≡◌, refl, ap, sym, subst, ◌∙◌, inl, inr, Bool, true, false, Option, some, arith,
  get_elem?, set, length-set, get_elem?-set_cases,
}
use proj.Wire.{Env, header_size}
use proj.Sender.{Sender}
use proj.Sender.Invariant.{allowance}
use proj.Sender.Total.{Busy, Busy-mono}
use proj.Responser.{Responser}
use proj.Responser.Uploads.{serving-at, busy-replace, serving-replace}
use proj.Responser.Serving.{Counts, Serving, SameLibrary, responser_connection_closed-Stopped}
use proj.Peer.{finish_sender}

allowance-next : (cap i k : ℕ) → allowance cap i k ≤ allowance cap (i + 1) k
allowance-next cap i k = ground arith

-- The next sender's turn, if this one has nothing to do.
pub Serving-skip : {cap i : ℕ} {res : Responser} → Serving cap i res → Serving cap (i + 1) res
Serving-skip {cap} {i} v = record {
  counts = v.counts;
  upload = λ k s h b.
      Busy-mono (allowance cap i k) (allowance cap (i + 1) k) s (allowance-next cap i k)
        (v.upload k s h b);
  known = v.known;
}

-- Between two events all senders are treated alike.
pub Serving-next : {cap i : ℕ} {res : Responser} → Serving cap i res → Serving (cap + 16) 0 res
Serving-next {cap} {i} v = record {
  counts = v.counts;
  upload = λ k s h b.
      Busy-mono (allowance cap i k) (allowance (cap + 16) 0 k) s (ground arith) (v.upload k s h b);
  known = v.known;
}

-- What the turn of sender `i` comes to.
abbrev pub Turn : ℕ → ℕ → Responser → Option (Responser × Env) → Type 0
Turn cap i res result =
    (r : Responser) × (e' : Env) × (result ≡ some (r, e')) × Serving cap i r × SameLibrary res r

-- The responder with sender `i` as its function has left it.
abbrev replaced : Responser → ℕ → Sender → Responser
replaced res i t = record res { senders = set res.senders i t }

module _ {cap i : ℕ} (res : Responser) (s t : Sender) (v : Serving cap i res)
    (found : get_elem? res.senders i ≡ some s) (runs : s.is_idle ≡ false)
    (goes_on : t.is_idle ≡ false) (same : t.peer ≡ s.peer) where
  replaced-Counts : Counts (replaced res i t)
  replaced-Counts = record {
    places = v.counts.places;
    count = v.counts.count ∙ sym (busy-replace res.senders i s t found runs goes_on);
    agree =
        λ q m h. serving-replace res.senders i q s t found runs goes_on same ∙ v.counts.agree q m h;
  }

  replaced-Serving : Busy (cap + header_size) t → Serving cap (i + 1) (replaced res i t)
  replaced-Serving b = record {
    counts = replaced-Counts;
    upload = λ k x h runs'. elim (get_elem?-set_cases res.senders i k t x h) [
      | inl (here, is) ↦
          subst (Busy (allowance cap (i + 1) k)) (sym is)
            (Busy-mono (cap + header_size) (allowance cap (i + 1) k) t (ground arith) b)
      | inr (there, old) ↦
          Busy-mono (allowance cap i k) (allowance cap (i + 1) k) x (allowance-next cap i k)
            (v.upload k x old runs')
    ];
    known = λ k x h runs'. elim (get_elem?-set_cases res.senders i k t x h) [
      | inl (here, is) ↦
          let to = ap (λ (y : Sender). y.peer) is in omega (arith, to, same, v.known i s found runs)
      | inr (there, old) ↦ v.known k x old runs'
    ];
  }

  -- `connection_closed` makes the sender idle, so nothing is asked of it.
  closed-Serving :
      (r : Responser) × (finish_sender res i true t ≡ some r)
      × Serving cap (i + 1) r
      × SameLibrary res r
  unfolding finish_sender
  closed-Serving =
      let (r, c) =
        responser_connection_closed-Stopped (replaced res i t) t.peer replaced-Counts
          (omega (arith, same, v.known i s found runs)) in
      (
        r,
        c.runs,
        record {
          counts = c.counts;
          upload = λ k x h runs'.
              elim (get_elem?-set_cases res.senders i k t x (c.kept k x h runs')) [
                | inl (here, is) ↦ absurd (
                    omega (
                      arith,
                      c.none_left,
                      serving-at r.senders k t.peer x h runs' (ap (λ (y : Sender). y.peer) is),
                    ))
                | inr (there, old) ↦
                    Busy-mono (allowance cap i k) (allowance cap (i + 1) k) x
                      (allowance-next cap i k) (v.upload k x old runs')
              ];
          known = λ k x h runs'.
              elim (get_elem?-set_cases res.senders i k t x (c.kept k x h runs')) [
                | inl (here, is) ↦
                    let to = ap (λ (y : Sender). y.peer) is in
                    omega (arith, to, same, v.known i s found runs)
                | inr (there, old) ↦ v.known k x old runs'
              ];
        },
        record {
          master = c.library.master;
          chunks = c.library.chunks;
          slots = c.library.slots ∙ length-set res.senders i t;
        },
      )

  pub finish_sender-Serving :
      (closes : Bool)
      → (closes ≡ false → Busy (cap + header_size) t)
      → (r : Responser) × (finish_sender res i closes t ≡ some r)
        × Serving cap (i + 1) r
        × SameLibrary res r
  unfolding finish_sender
  finish_sender-Serving true b = closed-Serving
  finish_sender-Serving false b = (
    replaced res i t,
    refl,
    replaced-Serving (b refl),
    record { master = refl; chunks = refl; slots = length-set res.senders i t },
  )
