-- ===== src/Peer/Start.antt =====
-- The state in which the loop of `peer_run` begins.
use proj.Prelude.{
  ℕ, zero, suc, ◌<◌, ◌≡◌, refl, ap, sym, ◌∙◌, inr, Bool, true, false, some, List, [], ◌∷◌, ◌++◌,
  arith, length, get_elem?, replicate, length-replicate, get_elem?-replicate, lt_of_get_elem?,
  some-eq, ltb, if◌then◌else◌, ◌≢◌, Option, length-append, lt→ltb, if_true,
}
use proj.Sender.{Sender}
use proj.Requestor.Begin.{Short}
use proj.Responser.{
  ChunkData, Responser, read_chunks, name_master, skip_dummy, read_master, init_responser,
}
use proj.Scan.Words.{IsWord, at_space, scan_word-append, scan_word-space}
use proj.Responser.Uploads.{busy, serving}
use proj.Responser.Serving.{Serving}
use proj.Responser.Answer.{Texts, no_text, one_text}
use proj.Input.Lines.{create_userbuf-Room}
use proj.Peer.{Process}
use proj.Peer.Round.{Loop, all_idle, first_loop, peer_start}
use proj.Peer.Reach.{SoundLoop}

read_chunks-Texts :
    (entries : List (ℕ × List ℕ))
    → Short entries
    → (cs : List ChunkData) × (read_chunks entries ≡ some cs) × Texts cs
unfolding read_chunks
read_chunks-Texts [] short = ([], refl, no_text)
read_chunks-Texts ((id, text) ∷ rest) short =
    let fits : ltb 40 (length text) ≡ false = ground (arith, short 0 (id, text) refl) in
    let (cs, reads, t) = read_chunks-Texts rest (λ k. short (suc k)) in
    let c : ChunkData = record { id = id; hash = text ++ 0 ∷ [] } in
    (c ∷ cs, rw (fits, reads) refl, one_text c cs text refl t)

busy-all_idle : (ss : List Sender) → busy (all_idle ss) ≡ 0
unfolding busy all_idle
busy-all_idle [] = refl
busy-all_idle (s ∷ ss) = busy-all_idle ss

serving-all_idle : (ss : List Sender) (peer : ℕ) → serving (all_idle ss) peer ≡ 0
unfolding serving all_idle
serving-all_idle [] peer = refl
serving-all_idle (s ∷ ss) peer = serving-all_idle ss peer

length-all_idle : (ss : List Sender) → length (all_idle ss) ≡ length ss
unfolding all_idle
length-all_idle [] = refl
length-all_idle (s ∷ ss) = ap suc (length-all_idle ss)

get_elem?-all_idle :
    (ss : List Sender) (k : ℕ) (s : Sender) → get_elem? (all_idle ss) k ≡ some s → s.is_idle ≡ true
unfolding all_idle
get_elem?-all_idle [] k s h = absurd (cc)
get_elem?-all_idle (x ∷ ss) zero s h =
    ap (λ (y : Sender). y.is_idle) (sym (some-eq (record x { is_idle = true }) s h))
get_elem?-all_idle (x ∷ ss) (suc k) s h = get_elem?-all_idle ss k s h

unmarked :
    (peer : ℕ) (m : Bool)
    → get_elem? (replicate 1024 false) peer ≡ some m
    → ◌≡◌ {A = ℕ} 0 (if m then 1 else 0)
unmarked peer m h =
    let n : peer < 1024 =
      omega (arith, lt_of_get_elem? (replicate 1024 false) peer m h, length-replicate 1024 false) in
    let off = some-eq m false (sym h ∙ get_elem?-replicate 1024 peer false n) in rw off refl

pub idle-Serving :
    (cap : ℕ) (res : Responser) (ss : List Sender)
    → res.senders ≡ all_idle ss
    → res.uploading_cnt ≡ 0
    → res.uploadingto ≡ replicate 1024 false
    → Serving cap 0 res
idle-Serving cap res ss idle none' free =
    let quiet : (k : ℕ) (s : Sender) → get_elem? res.senders k ≡ some s → s.is_idle ≡ true =
      λ k s h. get_elem?-all_idle ss k s (ap (λ xs. get_elem? xs k) (sym idle) ∙ h) in
    record {
      counts = record {
        places = ap length free ∙ length-replicate 1024 false;
        count = none' ∙ (sym (busy-all_idle ss) ∙ ap busy (sym idle));
        agree = λ q m h.
            ap (λ xs. serving xs q) idle
            ∙ (serving-all_idle ss q ∙ unmarked q m (ap (λ xs. get_elem? xs q) (sym free) ∙ h));
      };
      upload = λ k s h runs. absurd (cc (runs, quiet k s h));
      known = λ k s h runs. absurd (cc (runs, quiet k s h));
    }

-- The first line of a master chunk file: a word, and the name of the master file.
abbrev pub master_line : List ℕ → List ℕ → List ℕ → List ℕ
master_line heading name more = heading ++ 32 ∷ (name ++ 10 ∷ more)

read_master-master_line :
    (contents : List ℕ → Option (List ℕ)) (res : Responser) (heading name more : List ℕ)
    → IsWord heading
    → IsWord name
    → heading ≢ []
    → name ≢ []
    → length heading < 20
    → length name < 255
    → read_master contents res (some (master_line heading name more))
      ≡ some (record res { master = contents name })
unfolding read_master skip_dummy name_master
read_master-master_line contents res heading name more h n some_heading some_name short_heading
      short_name =
    let rest = name ++ 10 ∷ more in
    let text = master_line heading name more in
    let first =
      scan_word-append (length text) heading (32 ∷ rest) h some_heading (at_space 32 rest refl)
        (omega (arith, length-append heading (32 ∷ rest))) in
    let limit = suc (length rest) in
    let second =
      scan_word-space limit 32 rest refl
      ∙ scan_word-append limit name (10 ∷ more) n some_name (at_space 10 more refl)
          (omega (arith, length-append name (10 ∷ more))) in
    ap (skip_dummy contents res) first
    ∙ (if_true _ _ (lt→ltb (length heading) 20 short_heading)
        ∙ (ap (name_master contents res) second
            ∙ if_true _ _ (lt→ltb (length name) 255 short_name)))

-- No download is in progress, there are the four senders, the receive buffer has its size, the list
-- of served chunks can be opened, and no
-- text in the list of served chunks is longer than a hash. The master chunk file can be opened and
-- begins with a word of less than 20 bytes, a space, a name of less than 255 bytes without white
-- space, and a line's end, and the file of that name can be opened. Then `peer_run` comes to its
-- loop without a fault, in a sound state, with no packet of more than 544 bytes, and the file that
-- it serves is the one of that name.
pub peer_start-SoundLoop :
    (contents : List ℕ → Option (List ℕ)) (w : Process) (entries : List (ℕ × List ℕ))
    (heading name more m : List ℕ) (log_open : Bool)
    → w.requestor.in_progress ≡ false
    → length w.responser.senders ≡ 4
    → length w.buf ≡ 1500
    → Short entries
    → IsWord heading
    → IsWord name
    → heading ≢ []
    → name ≢ []
    → length heading < 20
    → length name < 255
    → contents name ≡ some m
    → (l : Loop) × (peer_start contents w
          (some entries)
          (some (master_line heading name more))
          log_open
        ≡ some l)
      × SoundLoop 544 l
      × (l.process.responser.master ≡ some m)
unfolding peer_start first_loop init_responser
peer_start-SoundLoop contents w entries heading name more m log_open idle four room short h n
      some_heading some_name short_heading short_name opens =
    let (cs, reads, t) = read_chunks-Texts entries short in
    let res : Responser = record (w.responser) {
      chunks = cs;
      master = contents name;
      uploading_cnt = 0;
      uploadingto = replicate 1024 false;
    } in
    let named =
      read_master-master_line contents (record (w.responser) { chunks = cs }) heading name more h n
        some_heading some_name short_heading short_name in
    (
      first_loop w res log_open,
      rw (reads, named) refl,
      record {
        process = record {
          download = inr idle;
          uploads =
              idle-Serving 544 (record res { senders = all_idle res.senders }) res.senders refl refl
                refl;
          slots = length-all_idle res.senders ∙ four;
          texts = t;
          master = (m, opens);
          room = room;
        };
        userbuf = create_userbuf-Room;
      },
      opens,
    )
