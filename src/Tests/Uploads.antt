-- ===== src/Tests/Uploads.antt =====
-- The uploads to peer 1, at concrete inputs.
use proj.Prelude.{
  subst, set, ◌∙◌, inl, inr, get_elem?-set_cases, length-set, [], ◌∷◌, ◌++◌, ℕ, zero, suc, ◌+◌, ◌≡◌,
  ◌≢◌, refl, Bool, true, false, some, arith, length-replicate, get_elem?, get_elem?-replicate,
  replicate, if◌then◌else◌, lt_of_get_elem?, ◌<◌, sym, ap, some-eq,
}
use proj.Sender.{Sender}
use proj.Sender.Total.{Busy, Busy-mono}
use proj.Sender.Invariant.{allowance}
use proj.Responser.{ChunkData, responser_packet, Responser, responser_connection_closed, send_chunk}
use proj.Responser.Uploads.{serving}
use proj.Responser.Serving.{Serving, responser_connection_closed-Serving}
use proj.Responser.Start.{Upload, send_chunk-Upload}
use proj.Responser.Answer.{no_text, one_text, Answered, responser_packet-Answered}
use proj.Wire.{Packet}
use proj.Tests.Data.{data_header, env, idle, responser, uploading, uploading-Busy}

unmarked :
    (peer : ℕ) (marked : Bool)
    → get_elem? responser.uploadingto peer ≡ some marked
    → serving responser.senders peer ≡ (if marked then 1 else 0)
unfolding serving
unmarked peer true h =
    let n : peer < 1024 =
      omega
        (arith, lt_of_get_elem? responser.uploadingto peer true h, length-replicate 1024 false) in
    absurd (cc (h, get_elem?-replicate 1024 peer false n))
unmarked peer false h = refl

all_idle : (k : ℕ) (s : Sender) → get_elem? responser.senders k ≡ some s → s.is_idle ≡ true
all_idle zero s h = ap (λ (x : Sender). x.is_idle) (sym (some-eq idle s h))
all_idle (suc zero) s h = ap (λ (x : Sender). x.is_idle) (sym (some-eq idle s h))
all_idle (suc (suc k)) s h = absurd (cc)

pub responser-Serving : (cap : ℕ) → Serving cap 0 responser
unfolding proj.Responser.Uploads.busy
responser-Serving cap = record {
  counts = record { places = length-replicate 1024 false; count = refl; agree = unmarked };
  upload = λ k s h runs. absurd (cc (runs, all_idle k s h));
  known = λ k s h runs. absurd (cc (runs, all_idle k s h));
}

send_chunk-Upload_example : Upload 544 responser 1 2 env (send_chunk responser 1 0 env)
send_chunk-Upload_example =
    send_chunk-Upload responser 1 0 (replicate 524288 7) env (responser-Serving 544) (omega arith)
      (omega arith) refl

-- The first sender is in the middle of an upload to peer 1.
abbrev busy_responser : Responser
busy_responser = record responser {
  senders = uploading ∷ idle ∷ [];
  uploading_cnt = 1;
  uploadingto = set (replicate 1024 false) 1 true;
}

only_first :
    (k : ℕ) (s : Sender)
    → get_elem? busy_responser.senders k ≡ some s
    → s.is_idle ≡ false
    → s ≡ uploading
only_first zero s h runs = sym (some-eq uploading s h)
only_first (suc zero) s h runs =
    absurd (cc (runs, ap (λ (x : Sender). x.is_idle) (sym (some-eq idle s h))))
only_first (suc (suc k)) s h runs = absurd (cc)

serving-other : (peer : ℕ) → 1 ≢ peer → serving busy_responser.senders peer ≡ 0
unfolding serving
serving-other peer other = ground arith

serving-first : serving busy_responser.senders 1 ≡ 1
unfolding serving
serving-first = refl

marked_first :
    (peer : ℕ) (marked : Bool)
    → get_elem? busy_responser.uploadingto peer ≡ some marked
    → serving busy_responser.senders peer ≡ (if marked then 1 else 0)
marked_first peer marked h =
    elim (get_elem?-set_cases (replicate 1024 false) 1 peer true marked h) [
      | inl (here, is) ↦
          subst (λ q. serving busy_responser.senders q ≡ (if marked then 1 else 0)) (sym here)
            (subst (λ m. ◌≡◌ {A = ℕ} (serving busy_responser.senders 1) (if m then 1 else 0))
              (sym is) serving-first)
      | inr (there, old) ↦
          let n : peer < 1024 = omega (
            arith,
            lt_of_get_elem? (replicate 1024 false) peer marked old,
            length-replicate 1024 false,
          ) in
          let off = some-eq marked false (sym old ∙ get_elem?-replicate 1024 peer false n) in
          subst (λ m. ◌≡◌ {A = ℕ} (serving busy_responser.senders peer) (if m then 1 else 0))
            (sym off) (serving-other peer there)
    ]

busy_responser-Serving : Serving 528 0 busy_responser
unfolding proj.Responser.Uploads.busy
busy_responser-Serving = record {
  counts = record {
    places = length-set (replicate 1024 false) 1 true ∙ length-replicate 1024 false;
    count = refl;
    agree = marked_first;
  };
  upload = λ k s h runs.
      Busy-mono 528 (allowance 528 0 k) s (ground arith)
        (subst (Busy 528) (sym (only_first k s h runs)) uploading-Busy);
  known = λ k s h runs.
      subst (λ (x : Sender). x.peer < 1024) (sym (only_first k s h runs)) (omega arith);
}

responser_connection_closed-Serving_example :
    (r : Responser) × (responser_connection_closed busy_responser 1 ≡ some r)
    × Serving 528 0 r
    × (serving r.senders 1 ≡ 0)
    × (r.uploading_cnt + serving busy_responser.senders 1 ≡ 1)
    × ((other : ℕ) → 1 ≢ other → serving r.senders other ≡ serving busy_responser.senders other)
responser_connection_closed-Serving_example =
    responser_connection_closed-Serving busy_responser 1 busy_responser-Serving (omega arith)

-- The responser has one chunk, and peer 1 sends a GET for it.
abbrev served : ChunkData
served = record { id = 0; hash = replicate 40 97 ++ 0 ∷ [] }

abbrev library : Responser
library = record responser { chunks = served ∷ [] }

library-Serving : Serving 544 0 library
library-Serving =
    let v = responser-Serving 544 in
    record {
      counts = record { places = v.counts.places; count = v.counts.count; agree = v.counts.agree };
      upload = v.upload;
      known = v.known;
    }

abbrev get : Packet
get = record {
  header = record (data_header 0) { packet_type = 2; packet_len = 56 };
  payload = replicate 40 97;
}

responser_packet-Answered_example : Answered 544 library (responser_packet library 1 get env)
responser_packet-Answered_example =
    responser_packet-Answered library 1 get (replicate 524288 7) env library-Serving (omega arith)
      (one_text served [] (replicate 40 97) refl no_text) refl (omega arith) (λ h. omega arith)
      (λ h. omega arith)
