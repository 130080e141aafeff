-- ===== src/Responser/Uploads.antt =====
-- The senders of all uploads: how many are busy, and which peers they serve.
use proj.Prelude.{
  ℕ, zero, suc, ◌+◌, ◌≤◌, ◌<◌, ◌≡◌, refl, inl, inr, ◌≢◌, true, false, not, ◌&&◌, none, some, List,
  [], ◌∷◌, arith, ◌==◌, if◌then◌else◌, length, get_elem?, set, Bool-cases,
}
use proj.Wire.{Env}
use proj.Sender.{Sender, init_sender}
use proj.Responser.{stop_sender, find_sender}

-- How many senders are busy.
unfoldable pub busy : List Sender → ℕ
busy [] = 0
busy (s ∷ ss) = if s.is_idle then busy ss else suc (busy ss)

pub busy-le : (ss : List Sender) → busy ss ≤ length ss
unfolding busy
busy-le [] = omega arith
busy-le (s ∷ ss) = ground (arith, busy-le ss)

-- How many busy senders serve that peer.
unfoldable pub serving : List Sender → ℕ → ℕ
serving [] peer = 0
serving (s ∷ ss) peer =
    if not s.is_idle && s.peer == peer then suc (serving ss peer) else serving ss peer

-- A sender of a served peer is stopped: one busy sender less, and nobody else is concerned.
pub busy-stop_sender :
    (ss : List Sender) (peer : ℕ) → 1 ≤ serving ss peer → suc (busy (stop_sender ss peer)) ≡ busy ss
unfolding busy serving stop_sender
busy-stop_sender [] peer h = absurd (omega arith)
busy-stop_sender (s ∷ ss) peer h = ground (arith, busy-stop_sender ss peer)

pub serving-stop_sender :
    (ss : List Sender) (peer : ℕ)
    → 1 ≤ serving ss peer
    → suc (serving (stop_sender ss peer) peer) ≡ serving ss peer
unfolding serving stop_sender
serving-stop_sender [] peer h = absurd (omega arith)
serving-stop_sender (s ∷ ss) peer h = ground (arith, serving-stop_sender ss peer)

pub serving-stop_other :
    (ss : List Sender) (peer other : ℕ)
    → peer ≢ other
    → serving (stop_sender ss peer) other ≡ serving ss other
unfolding serving stop_sender
serving-stop_other [] peer other ne = refl
serving-stop_other (s ∷ ss) peer other ne = ground (arith, serving-stop_other ss peer other ne)

pub length-stop_sender : (ss : List Sender) (peer : ℕ) → length (stop_sender ss peer) ≡ length ss
unfolding stop_sender
length-stop_sender [] peer = refl
length-stop_sender (s ∷ ss) peer = ground (arith, length-stop_sender ss peer)

-- A sender that is busy afterwards was there before.
pub get_elem?-stop_sender :
    (ss : List Sender) (peer k : ℕ) (s : Sender)
    → get_elem? (stop_sender ss peer) k ≡ some s
    → s.is_idle ≡ false
    → get_elem? ss k ≡ some s
unfolding stop_sender
get_elem?-stop_sender [] peer k s h b = h
get_elem?-stop_sender (x ∷ ss) peer zero s h b = ground arith
get_elem?-stop_sender (x ∷ ss) peer (suc k) s h b =
    elim (Bool-cases (not x.is_idle && x.peer == peer)) [
      | inl here ↦ ground arith
      | inr there ↦ ground (arith, get_elem?-stop_sender ss peer k s)
    ]

-- An idle sender is replaced by a busy one.
pub busy-set :
    (ss : List Sender) (k : ℕ) (s t : Sender)
    → get_elem? ss k ≡ some s
    → s.is_idle ≡ true
    → t.is_idle ≡ false
    → busy (set ss k t) ≡ suc (busy ss)
unfolding busy
busy-set [] k s t h i b = cc
busy-set (x ∷ ss) zero s t h i b = ground arith
busy-set (x ∷ ss) (suc k) s t h i b = ground (arith, busy-set ss k s t h i b)

pub serving-set :
    (ss : List Sender) (k peer : ℕ) (s t : Sender)
    → get_elem? ss k ≡ some s
    → s.is_idle ≡ true
    → t.is_idle ≡ false
    → serving (set ss k t) peer
      ≡ (if t.peer == peer then suc (serving ss peer) else serving ss peer)
unfolding serving
serving-set [] k peer s t h i b = cc
serving-set (x ∷ ss) zero peer s t h i b = ground arith
serving-set (x ∷ ss) (suc k) peer s t h i b = ground (arith, serving-set ss k peer s t h i b)

-- If not all senders are busy, `find_sender` starts an idle one.
pub find_sender_lem :
    (ss : List Sender) (i id : ℕ) (e : Env)
    → busy ss < length ss
    → (k : ℕ) × (s : Sender) × (e' : Env) × (find_sender ss i id e
        ≡ some (i + k, set ss k (init_sender s id e).0, e'))
      × (get_elem? ss k ≡ some s)
      × (s.is_idle ≡ true)
unfolding busy find_sender
find_sender_lem [] i id e h = absurd (omega arith)
find_sender_lem (s ∷ ss) i id e h = elim (Bool-cases s.is_idle) [
  | inl idle ↦ (0, s, (init_sender s id e).1, ground arith, refl, idle)
  | inr runs ↦
      let (k, t, e', found, at, idle) = find_sender_lem ss (i + 1) id e (ground arith) in
      (suc k, t, e', ground (arith, found), at, idle)
]

-- If all are busy, it finds none.
pub find_sender-none :
    (ss : List Sender) (i id : ℕ) (e : Env) → length ss ≤ busy ss → find_sender ss i id e ≡ none
unfolding busy find_sender
find_sender-none [] i id e h = refl
find_sender-none (s ∷ ss) i id e h = elim (Bool-cases s.is_idle) [
  | inl idle ↦ absurd (ground (arith, busy-le ss))
  | inr runs ↦ ground (arith, find_sender-none ss (i + 1) id e)
]

-- A busy sender counts for its peer.
pub serving-at :
    (ss : List Sender) (k peer : ℕ) (s : Sender)
    → get_elem? ss k ≡ some s
    → s.is_idle ≡ false
    → s.peer ≡ peer
    → 1 ≤ serving ss peer
unfolding serving
serving-at [] k peer s h b to = cc
serving-at (x ∷ ss) zero peer s h b to = ground arith
serving-at (x ∷ ss) (suc k) peer s h b to = ground (arith, serving-at ss k peer s h b to)

-- A busy sender is replaced by a busy one for the same peer.
pub busy-replace :
    (ss : List Sender) (k : ℕ) (s t : Sender)
    → get_elem? ss k ≡ some s
    → s.is_idle ≡ false
    → t.is_idle ≡ false
    → busy (set ss k t) ≡ busy ss
unfolding busy
busy-replace [] k s t h b c = refl
busy-replace (x ∷ ss) zero s t h b c = ground arith
busy-replace (x ∷ ss) (suc k) s t h b c = ground (arith, busy-replace ss k s t h b c)

pub serving-replace :
    (ss : List Sender) (k peer : ℕ) (s t : Sender)
    → get_elem? ss k ≡ some s
    → s.is_idle ≡ false
    → t.is_idle ≡ false
    → t.peer ≡ s.peer
    → serving (set ss k t) peer ≡ serving ss peer
unfolding serving
serving-replace [] k peer s t h b c to = refl
serving-replace (x ∷ ss) zero peer s t h b c to = ground arith
serving-replace (x ∷ ss) (suc k) peer s t h b c to =
    ground (arith, serving-replace ss k peer s t h b c to)
