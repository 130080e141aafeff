-- ===== src/Responser/Serving.antt =====
-- The bookkeeping of uploads in `uploading_cnt`, `uploadingto` and the senders.
use proj.Prelude.{
  ℕ, ◌+◌, ◌-◌, ◌≤◌, ◌<◌, ◌≡◌, refl, ap, sym, subst, ◌∙◌, inl, inr, ◌≢◌, Bool, true, false, some,
  List, [], ◌∷◌, arith, if◌then◌else◌, length, get_elem?, set, Bool-cases, length-set, get_elem?-lt,
  lt_of_get_elem?, get_elem?-set_cases,
}
use proj.Sender.{Sender}
use proj.Sender.Invariant.{allowance}
use proj.Sender.Total.{Busy, Busy-mono}
use proj.Responser.{Responser, stop_sender, responser_connection_closed}
use proj.Responser.Uploads.{
  busy, serving, busy-stop_sender, serving-stop_sender, serving-stop_other, get_elem?-stop_sender,
  length-stop_sender, busy-set, serving-set,
}

-- `uploading_cnt` counts the busy senders, and a peer is marked in `uploadingto` exactly if one sender
-- is busy for it; there is never more than one.
pub record Counts (res : Responser) : Type 0 where
  pub places : length res.uploadingto ≡ 1024
  pub count : res.uploading_cnt ≡ busy res.senders
  pub agree :
      (peer : ℕ) (marked : Bool)
      → get_elem? res.uploadingto peer ≡ some marked
      → serving res.senders peer ≡ (if marked then 1 else 0)

-- The bookkeeping is right, and a busy sender is in the middle of an upload to a peer that
-- `uploadingto` has a place for. The senders below `i`
-- have already handled the event that is going on, and may have sent each packet once more.
pub record Serving (cap i : ℕ) (res : Responser) : Type 0 where
  pub counts : Counts res
  pub upload :
      (k : ℕ) (s : Sender)
      → get_elem? res.senders k ≡ some s
      → s.is_idle ≡ false
      → Busy (allowance cap i k) s
  pub known :
      (k : ℕ) (s : Sender) → get_elem? res.senders k ≡ some s → s.is_idle ≡ false → s.peer < 1024

-- What no packet and no timer changes.
pub record SameLibrary (res r : Responser) : Type 0 where
  pub master : r.master ≡ res.master
  pub chunks : r.chunks ≡ res.chunks
  pub slots : length r.senders ≡ length res.senders

pub SameLibrary-refl : (res : Responser) → SameLibrary res res
SameLibrary-refl res = ground arith

pub SameLibrary-trans :
    {res r t : Responser} → SameLibrary res r → SameLibrary r t → SameLibrary res t
SameLibrary-trans a b = ground arith

serving-busy : (ss : List Sender) (peer : ℕ) → serving ss peer ≤ busy ss
unfolding serving busy
serving-busy [] peer = omega arith
serving-busy (s ∷ ss) peer = ground (arith, serving-busy ss peer)

-- The end of an upload.
abbrev stopped : Responser → ℕ → Responser
stopped res peer = record res {
  uploadingto = set res.uploadingto peer false;
  uploading_cnt = res.uploading_cnt - 1;
  senders = stop_sender res.senders peer;
}

stopped-Counts :
    (res : Responser) (peer : ℕ)
    → Counts res
    → get_elem? res.uploadingto peer ≡ some true
    → Counts (stopped res peer)
stopped-Counts res peer v marked =
    let one = v.agree peer true marked in
    let less = busy-stop_sender res.senders peer (omega arith) in
    record {
      places = length-set res.uploadingto peer false ∙ v.places;
      count = omega (arith, v.count, less);
      agree = λ q m h. elim (get_elem?-set_cases res.uploadingto peer q false m h) [
        | inl (here, is) ↦
            rw (here, is) (omega (arith, serving-stop_sender res.senders peer (omega arith)))
        | inr (there, old) ↦ serving-stop_other res.senders peer q there ∙ v.agree q m old
      ];
    }

-- The part of `responser_connection_closed` that looks at the marks only.
pub record Stopped (res : Responser) (peer : ℕ) (r : Responser) : Type 0 where
  pub runs : responser_connection_closed res peer ≡ some r
  pub counts : Counts r
  pub none_left : serving r.senders peer ≡ 0
  pub fewer : r.uploading_cnt + serving res.senders peer ≡ res.uploading_cnt
  pub others : (other : ℕ) → peer ≢ other → serving r.senders other ≡ serving res.senders other
  pub kept :
      (k : ℕ) (s : Sender)
      → get_elem? r.senders k ≡ some s
      → s.is_idle ≡ false
      → get_elem? res.senders k ≡ some s
  pub library : SameLibrary res r

pub responser_connection_closed-Stopped :
    (res : Responser) (peer : ℕ) → Counts res → peer < 1024 → (r : Responser) × Stopped res peer r
unfolding responser_connection_closed
responser_connection_closed-Stopped res peer v known =
    let (marked, found) = get_elem?-lt res.uploadingto peer (omega (arith, v.places)) in
    elim (Bool-cases marked) [
      | inl yes' ↦
          let at = found ∙ ap some yes' in
          let one = v.agree peer true at in
          (
            stopped res peer,
            record {
              runs = rw (found, yes') refl;
              counts = stopped-Counts res peer v at;
              none_left = omega (arith, serving-stop_sender res.senders peer (omega arith));
              fewer = omega (arith, v.count, serving-busy res.senders peer);
              others = serving-stop_other res.senders peer;
              kept = get_elem?-stop_sender res.senders peer;
              library = record {
                master = refl;
                chunks = refl;
                slots = length-stop_sender res.senders peer;
              };
            },
          )
      | inr no' ↦
          let none' = v.agree peer false (found ∙ ap some no') in
          (
            res,
            record {
              runs = rw (found, no') refl;
              counts = v;
              none_left = none';
              fewer = omega arith;
              others = λ other ne. refl;
              kept = λ k s h b. h;
              library = SameLibrary-refl res;
            },
          )
    ]

-- The bookkeeping of the uploads is right, and `uploadingto` has a place for the peer. Then the end
-- of a connection to it is handled without a fault, and the bookkeeping stays right. Afterwards no
-- sender is busy for that peer; the number of uploads goes down by the number of those that were,
-- and the senders of all other peers stay busy.
pub responser_connection_closed-Serving :
    {cap i : ℕ} (res : Responser) (peer : ℕ)
    → Serving cap i res
    → peer < 1024
    → (r : Responser) × (responser_connection_closed res peer ≡ some r)
      × Serving cap i r
      × (serving r.senders peer ≡ 0)
      × (r.uploading_cnt + serving res.senders peer ≡ res.uploading_cnt)
      × ((other : ℕ) → peer ≢ other → serving r.senders other ≡ serving res.senders other)
responser_connection_closed-Serving res peer v known =
    let (r, c) = responser_connection_closed-Stopped res peer v.counts known in
    (
      r,
      c.runs,
      record {
        counts = c.counts;
        upload = λ k s h b. v.upload k s (c.kept k s h b) b;
        known = λ k s h b. v.known k s (c.kept k s h b) b;
      },
      c.none_left,
      c.fewer,
      c.others,
    )

-- The start of an upload with sender `k`.
abbrev pub started : Responser → ℕ → ℕ → Sender → List ℕ → Responser
started res peer k t buf = record res {
  buf = buf;
  conn_cnt = res.conn_cnt + 1;
  senders = set res.senders k t;
  uploadingto = set res.uploadingto peer true;
  uploading_cnt = res.uploading_cnt + 1;
}

pub started-Serving :
    {cap : ℕ} (res : Responser) (peer k : ℕ) (s t : Sender) (buf : List ℕ)
    → Serving cap 0 res
    → 544 ≤ cap
    → get_elem? res.uploadingto peer ≡ some false
    → get_elem? res.senders k ≡ some s
    → s.is_idle ≡ true
    → t.peer ≡ peer
    → Busy 544 t
    → Serving cap 0 (started res peer k t buf)
started-Serving {cap} res peer k s t buf v large free found idle to b =
    let runs = b.running in
    let c = v.counts in
    let zero' = c.agree peer false free in
    record {
      counts = record {
        places = length-set res.uploadingto peer true ∙ c.places;
        count = omega (arith, c.count, busy-set res.senders k s t found idle runs);
        agree = λ q m h.
            let new = serving-set res.senders k q s t found idle runs in
            elim (get_elem?-set_cases res.uploadingto peer q true m h) [
              | inl (here, is) ↦ rw (here, is) (ground (arith, new, zero', here, to))
              | inr (there, old) ↦ ground (arith, new, c.agree q m old, to)
            ];
      };
      upload = λ j x h runs'. elim (get_elem?-set_cases res.senders k j t x h) [
        | inl (here, is) ↦
            subst (Busy (allowance cap 0 j)) (sym is)
              (Busy-mono 544 (allowance cap 0 j) t (ground arith) b)
        | inr (there, old) ↦ v.upload j x old runs'
      ];
      known = λ j x h runs'. elim (get_elem?-set_cases res.senders k j t x h) [
        | inl (here, is) ↦
            let inside = lt_of_get_elem? res.uploadingto peer false free in
            let to' = ap (λ (y : Sender). y.peer) is ∙ to in omega (arith, c.places, inside, to')
        | inr (there, old) ↦ v.known j x old runs'
      ];
    }
