-- ===== src/Requestor/Progress.antt =====
-- What a DATA packet does to the status of its chunk: the marks, the count of what is left and the
-- cumulative ACK.
use native.Mathlib.Decide.{ℕ_discrete}
use proj.Prelude.{
  ◌≢◌, get_elem?-set_ne, ℕ, zero, suc, ◌+◌, ◌-◌, ◌≤◌, ◌<◌, ◌≡◌, refl, ap, ◌∙◌, inl, inr, Bool, true,
  false, none, some, List, [], ◌∷◌, arith, length, get_elem?, set, replicate, Bool-cases,
  Option-cases, length-set, get_elem?-set_self, get_elem?-lt, lt_of_get_elem?,
}
use proj.Wire.{Packet, Env, read_bytes}
use proj.Requestor.{ChunkStatus}
use proj.Requestor.Receive.{first_missing, store_data}

-- How many packets are not marked.
abbrev pub missing : List Bool → ℕ
missing [] = 0
missing (true ∷ bs) = missing bs
missing (false ∷ bs) = suc (missing bs)

pub missing-replicate : (n : ℕ) → missing (replicate n false) ≡ n
missing-replicate zero = refl
missing-replicate (suc n) = ap suc (missing-replicate n)

missing-set :
    (bs : List Bool) (i : ℕ)
    → get_elem? bs i ≡ some false
    → suc (missing (set bs i true)) ≡ missing bs
missing-set [] i h = cc
missing-set (true ∷ bs) zero h = cc
missing-set (false ∷ bs) zero h = refl
missing-set (true ∷ bs) (suc i) h = missing-set bs i h
missing-set (false ∷ bs) (suc i) h = ap suc (missing-set bs i h)

-- The loop stops at the first packet from `seq_num` on that is not marked, or at the end.
pub first_missing_lem :
    (rounds seq_num : ℕ) (recved : List Bool)
    → seq_num + rounds ≤ length recved
    → (r : ℕ) × (first_missing rounds seq_num recved ≡ some r)
      × (seq_num ≤ r)
      × (r ≤ seq_num + rounds)
      × ((j : ℕ) → seq_num ≤ j → j < r → get_elem? recved j ≡ some true)
      × (r < seq_num + rounds → get_elem? recved r ≡ some false)
unfolding first_missing
first_missing_lem zero seq_num recved fits = (
  seq_num,
  refl,
  omega arith,
  omega arith,
  λ j a b. absurd (omega arith),
  λ h. absurd (omega arith),
)
first_missing_lem (suc rounds) seq_num recved fits =
    let (got, found) = get_elem?-lt recved seq_num (omega arith) in
    elim (Bool-cases got) [
      | inl here ↦
          let (r, found', low, high, all, stop) =
            first_missing_lem rounds (seq_num + 1) recved (omega arith) in
          (
            r,
            rw (found, here) found',
            omega arith,
            omega arith,
            λ j a b. elim (ℕ_discrete j seq_num) [
              | yes e ↦ rw e (found ∙ ap some here)
              | no ne ↦ all j (omega arith) b
            ],
            λ h. stop (omega arith),
          )
      | inr gap ↦ (
        seq_num,
        rw (found, gap) refl,
        omega arith,
        omega arith,
        λ j a b. absurd (omega arith),
        λ h. found ∙ ap some gap,
      )
    ]

-- `left` counts the packets of the chunk that are not marked.
pub record Marks (c : ChunkStatus) : Type 0 where
  pub marks : length c.recved ≡ 1024
  pub blocks : length c.data_buf ≡ 1024
  pub count : c.left ≡ missing c.recved

-- All packets before the cumulative ACK are marked.
abbrev pub Acked : ChunkStatus → Type 0
Acked c = (j : ℕ) → j < c.cur_ack → get_elem? c.recved j ≡ some true

-- The rest of the status, which a packet leaves alone.
pub record SameChunk (c d : ChunkStatus) : Type 0 where
  pub cur_ack : d.cur_ack ≡ c.cur_ack
  pub last_provider : d.last_provider ≡ c.last_provider
  pub providers : d.providers ≡ c.providers
  pub cur_provider : d.cur_provider ≡ c.cur_provider
  pub finished : d.finished ≡ c.finished
  pub hash : d.hash ≡ c.hash

-- A mark that is set stays set.
set-keeps :
    (bs : List Bool) (i j : ℕ)
    → get_elem? bs j ≡ some true
    → get_elem? (set bs i true) j ≡ some true
set-keeps [] i j h = cc
set-keeps (b ∷ bs) zero zero h = refl
set-keeps (b ∷ bs) zero (suc j) h = h
set-keeps (b ∷ bs) (suc i) zero h = h
set-keeps (b ∷ bs) (suc i) (suc j) h = set-keeps bs i j h

-- The arrays of a chunk have 1024 entries, and `left` counts the packets that are not marked. Then
-- a DATA packet with a number below 1024 is stored and marked without a fault, whether or not it
-- came before. The count stays exact, all packets before the cumulative ACK are marked if they
-- were, the block holds what the packet carries, no other block and no other
-- mark changes, the time-out starts anew,
-- and the rest of the status stays.
pub store_data-Marks :
    (c : ChunkStatus) (p : Packet) (e : Env)
    → Marks c
    → p.header.seq_num < 1024
    → (d : ChunkStatus) × (store_data c p e ≡ some d)
      × Marks d
      × (Acked c → Acked d)
      × SameChunk c d
      × (get_elem? d.recved p.header.seq_num ≡ some true)
      × (get_elem? d.data_buf p.header.seq_num ≡ some (read_bytes e.stray 512 p.payload))
      × (d.last_packet ≡ 5)
      × ((j : ℕ) → p.header.seq_num ≢ j → get_elem? d.data_buf j ≡ get_elem? c.data_buf j)
      × ((j : ℕ) → p.header.seq_num ≢ j → get_elem? d.recved j ≡ get_elem? c.recved j)
unfolding store_data
store_data-Marks c p e m inside =
    let n = p.header.seq_num in
    let (old, block) = get_elem?-lt c.data_buf n (omega (arith, m.blocks)) in
    let (got, mark) = get_elem?-lt c.recved n (omega (arith, m.marks)) in
    let stored = set c.data_buf n (read_bytes e.stray 512 p.payload) in
    let held =
      get_elem?-set_self c.data_buf n (read_bytes e.stray 512 p.payload)
        (omega (arith, m.blocks)) in
    let others = λ (j : ℕ) (ne : n ≢ j).
      get_elem?-set_ne c.data_buf n j (read_bytes e.stray 512 p.payload) ne in
    let size = length-set c.data_buf n (read_bytes e.stray 512 p.payload) ∙ m.blocks in
    elim (Bool-cases got) [
      | inl again ↦ (
        record c { last_packet = 5; data_buf = stored },
        rw (block, mark, again) refl,
        record { marks = m.marks; blocks = size; count = m.count },
        λ a. a,
        ground arith,
        mark ∙ ap some again,
        held,
        refl,
        others,
        λ j ne. refl,
      )
      | inr first ↦ (
        record c {
          last_packet = 5;
          data_buf = stored;
          recved = set c.recved n true;
          left = c.left - 1;
        },
        rw (block, mark, first) refl,
        record {
          marks = length-set c.recved n true ∙ m.marks;
          blocks = size;
          count = omega (arith, missing-set c.recved n (mark ∙ ap some first), m.count);
        },
        λ a j h. set-keeps c.recved n j (a j h),
        ground arith,
        get_elem?-set_self c.recved n true (omega (arith, m.marks)),
        held,
        refl,
        others,
        λ j ne. get_elem?-set_ne c.recved n j true ne,
      )
    ]

-- A DATA packet with a number behind the last packet of a chunk is written behind the arrays: there
-- is no check of the number.
pub store_data_overflow :
    (c : ChunkStatus) (p : Packet) (e : Env)
    → length c.data_buf ≡ 1024
    → 1024 ≤ p.header.seq_num
    → store_data c p e ≡ none
unfolding store_data
store_data_overflow c p e blocks over =
    elim (Option-cases (get_elem? c.data_buf p.header.seq_num)) [
      | inl outside ↦ rw outside refl
      | inr (b, inside) ↦
          absurd (omega (arith, lt_of_get_elem? c.data_buf p.header.seq_num b inside))
    ]
