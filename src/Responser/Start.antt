-- ===== src/Responser/Start.antt =====
-- `send_chunk`: the start of an upload.
use native.Mathlib.Decide.{dec_lt}
use proj.Prelude.{
  ℕ, zero, suc, ◌+◌, ◌≤◌, ◌<◌, ◌≡◌, refl, ap, sym, subst, ◌∙◌, inl, inr, true, false, Option, some,
  List, [], ◌∷◌, arith, leb, length, get_elem?, set, drop, Bool-cases, get_elem?-lt,
  lt_of_get_elem?, get_elem?-set_self, length-set,
}
use proj.Wire.{Env, seek_offset}
use proj.Sender.{Sender, init_sender, buffer_len}
use proj.Sender.Total.{Busy}
use proj.Sender.Load.{Filled, init_sender-Filled, Filled-Busy}
use proj.Responser.{Responser, find_sender, send_blocks, send_chunk}
use proj.Responser.Blocks.{send_blocks-Filled}
use proj.Responser.Uploads.{busy, serving, serving-set, find_sender_lem, find_sender-none, busy-le}
use proj.Responser.Serving.{Serving, SameLibrary, started, started-Serving}

-- What `send_chunk` does: nothing, if an upload to the peer is under way, if there are too many, or if
-- no sender is idle; or an idle sender is loaded with the chunk.
pub data Upload (cap : ℕ) (res : Responser) (peer max_conn : ℕ) (e : Env)
    : Option (Responser × Env) → Type 0 where
  under_way :
      get_elem? res.uploadingto peer ≡ some true → Upload cap res peer max_conn e (some (res, e))
  too_many : max_conn ≤ res.uploading_cnt → Upload cap res peer max_conn e (some (res, e))
  no_sender :
      res.uploading_cnt ≡ length res.senders → Upload cap res peer max_conn e (some (res, e))
  begun :
      (r : Responser) (k : ℕ) (t : Sender) (e' : Env)
      → res.uploading_cnt < max_conn
      → serving res.senders peer ≡ 0
      → get_elem? r.senders k ≡ some t
      → t.peer ≡ peer
      → Busy 544 t
      → serving r.senders peer ≡ 1
      → r.uploading_cnt ≡ res.uploading_cnt + 1
      → r.conn_cnt ≡ res.conn_cnt + 1
      → Serving cap 0 r
      → SameLibrary res r
      → Upload cap res peer max_conn e (some (r, e'))

-- A sender may be given another peer.
Filled-peer :
    (cap n peer : ℕ) (s : Sender) → Filled cap n s → Filled cap n (record s { peer = peer })
Filled-peer cap n peer s f = record {
  window = record {
    size = f.window.size;
    ordered = f.window.ordered;
    fits = f.window.fits;
    window_pos = f.window.window_pos;
    threshold = f.window.threshold;
    rtt_nonneg = f.window.rtt_nonneg;
    loaded = f.window.loaded;
  };
  running = f.running;
  count = f.count;
  head = f.head;
  acked = f.acked;
  repeats = f.repeats;
}

-- The blocks go to the sender that `find_sender` has started.
load-Busy :
    (s : Sender) (id peer : ℕ) (rest buf : List ℕ) (e e1 : Env)
    → (buf' : List ℕ) × (t : Sender) × (e' : Env) × (send_blocks buffer_len 0 rest buf
          (record (init_sender s id e).0 { peer = peer })
          e1
        ≡ some (buf', t, e'))
      × Busy 544 t
      × (t.peer ≡ peer)
load-Busy s id peer rest buf e e1 =
    let (f, _, _) = init_sender-Filled 528 s id e in
    let (buf', t, e', sent, filled, to) =
      send_blocks-Filled 1024 0 rest buf (record (init_sender s id e).0 { peer = peer }) e1
        (Filled-peer 528 0 peer (init_sender s id e).0 f) (omega arith) in
    (buf', t, e', sent, Filled-Busy t filled, to)

begun-Upload :
    {cap : ℕ} (res : Responser) (peer k : ℕ) (s t : Sender) (buf : List ℕ) (e e' : Env)
    → Serving cap 0 res
    → 544 ≤ cap
    → get_elem? res.uploadingto peer ≡ some false
    → res.uploading_cnt < e.max_conn
    → get_elem? res.senders k ≡ some s
    → s.is_idle ≡ true
    → t.peer ≡ peer
    → Busy 544 t
    → Upload cap res peer e.max_conn e (some (started res peer k t buf, e'))
begun-Upload res peer k s t buf e e' v large free room found idle to b =
    let zero' = v.counts.agree peer false free in
    let new = serving-set res.senders k peer s t found idle b.running in
    begun (started res peer k t buf) k t e' room zero'
      (get_elem?-set_self res.senders k t (lt_of_get_elem? res.senders k s found)) to b
      (ground (arith, new, zero', to)) refl refl
      (started-Serving res peer k s t buf v large free found idle to b)
      (record { master = refl; chunks = refl; slots = length-set res.senders k t })

set-set : (ss : List Sender) (k : ℕ) (s t : Sender) → set (set ss k s) k t ≡ set ss k t
set-set [] k s t = refl
set-set (x ∷ ss) zero s t = refl
set-set (x ∷ ss) (suc k) s t = ap (λ ys. x ∷ ys) (set-set ss k s t)

-- All calls of `send_chunk` in a row.
send_chunk-started :
    (res : Responser) (peer chunk_id k : ℕ) (s new t : Sender) (master buf' : List ℕ)
    (e e1 e2 : Env)
    → get_elem? res.uploadingto peer ≡ some false
    → leb e.max_conn res.uploading_cnt ≡ false
    → find_sender res.senders 0 (res.conn_cnt + 1) e ≡ some (0 + k, set res.senders k new, e1)
    → get_elem? res.senders k ≡ some s
    → res.master ≡ some master
    → send_blocks buffer_len 0
        (drop (seek_offset chunk_id) master)
        res.buf
        (record new { peer = peer })
        e1
      ≡ some (buf', t, e2)
    → send_chunk res peer chunk_id e ≡ some (started res peer k t buf', e2)
unfolding send_chunk
send_chunk-started res peer chunk_id k s new t master buf' e e1 e2 free room finds at opens loads =
    let first : 0 + k ≡ k = omega arith in
    let held = get_elem?-set_self res.senders k new (lt_of_get_elem? res.senders k s at) in
    simp (free, room, finds, first, held, opens, loads, set-set res.senders k new t)

-- The bookkeeping of the uploads is right, no packet in a window has a `packet_len` above `cap`,
-- which is at least 544, `uploadingto` has a place for the peer, and the master file can be opened.
-- Then `send_chunk` makes no fault. Nothing happens only if an upload to the peer is under way, or
-- the greatest number of uploads is reached, or all senders are busy. Otherwise the peer had no
-- upload and the greatest number was not reached; some sender is now in the middle of an upload to
-- the peer, the peer is served by exactly one sender, there is one upload more, and the bookkeeping
-- is right.
pub send_chunk-Upload :
    {cap : ℕ} (res : Responser) (peer chunk_id : ℕ) (master : List ℕ) (e : Env)
    → Serving cap 0 res
    → 544 ≤ cap
    → peer < 1024
    → res.master ≡ some master
    → Upload cap res peer e.max_conn e (send_chunk res peer chunk_id e)
unfolding send_chunk
send_chunk-Upload {cap} res peer chunk_id master e v large known opens =
    let (marked, found) = get_elem?-lt res.uploadingto peer (omega (arith, v.counts.places)) in
    elim (Bool-cases marked) [
      | inl yes' ↦ rw (found, yes') (under_way (found ∙ ap some yes'))
      | inr no' ↦ elim (Bool-cases (leb e.max_conn res.uploading_cnt)) [
        | inl full ↦ rw (found, no', full) (too_many (ground arith))
        | inr room ↦ elim (dec_lt (busy res.senders) (length res.senders)) [
          | no all ↦
              let last : res.uploading_cnt ≡ length res.senders =
                omega (arith, v.counts.count, busy-le res.senders, all) in
              rw
                (
                  found,
                  no',
                  room,
                  find_sender-none res.senders 0 (res.conn_cnt + 1) e (omega (arith, all)),
                )
                (no_sender last)
          | yes spare ↦
              let less : res.uploading_cnt < e.max_conn = ground arith in
              let (k, s, e1, finds, at, idle) =
                find_sender_lem res.senders 0 (res.conn_cnt + 1) e (omega (arith, spare)) in
              let (buf', t, e2, loads, b, to) =
                load-Busy s (res.conn_cnt + 1) peer (drop (seek_offset chunk_id) master) res.buf e
                  e1 in
              let runs =
                send_chunk-started res peer chunk_id k s (init_sender s (res.conn_cnt + 1) e).0 t
                  master buf' e e1 e2 (found ∙ ap some no') room finds at opens loads in
              subst (Upload cap res peer e.max_conn e) (sym runs) (
                begun-Upload res peer k s t buf' e e2 v large (found ∙ ap some no') less at idle to
                  b)
        ]
      ]
    ]
