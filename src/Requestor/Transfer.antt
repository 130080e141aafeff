-- ===== src/Requestor/Transfer.antt =====
-- A whole chunk: its packets arrive in any order, some of them more than once.
use native.Mathlib.Decide.{ℕ_discrete}
use mathlib.Core.List.{flatten}
use proj.Prelude.{
  ℕ, zero, suc, ◌+◌, ◌<◌, ◌≡◌, ◌≢◌, refl, ap, sym, ◌∙◌, inl, inr, ◌⊎◌, Bool, true, false, ◌||◌,
  some, List, [], ◌∷◌, ◌++◌, arith, length, get_elem?, some-eq, ◌==◌,
}
use proj.Wire.{Packet, Env, read_bytes, seek_offset}
use proj.Requestor.{ChunkStatus, Requestor}
use proj.Chunk.{binary2hex}
use proj.Requestor.Receive.{strncmp_eq, update_data}
use proj.Requestor.Progress.{missing}
use proj.Requestor.Invariant.{Valid}
use proj.Requestor.Finish.{Finish, rejected, accepted, completed}
use proj.Requestor.Data.{Stored}

-- Blocks `i` to `i + n - 1` of a content.
unfoldable pub blocks_from : (ℕ → List ℕ) → ℕ → ℕ → List (List ℕ)
blocks_from content zero i = []
blocks_from content (suc n) i = content i ∷ blocks_from content n (i + 1)

-- DATA packets that carry blocks of the content.
pub data Carries (content : ℕ → List ℕ) : List Packet → Type 0 where
  no_packet : Carries content []
  one_packet :
      (p : Packet) (ps : List Packet) (rest : List ℕ)
      → p.header.seq_num < 1024
      → p.payload ≡ content p.header.seq_num ++ rest
      → Carries content ps
      → Carries content (p ∷ ps)

-- Whether the packet with that number is among them.
unfoldable pub arrives : List Packet → ℕ → Bool
arrives [] n = false
arrives (p ∷ ps) n = p.header.seq_num == n || arrives ps n

-- What is marked has the right content.
abbrev pub Genuine : (ℕ → List ℕ) → ChunkStatus → Type 0
Genuine content c =
    (j : ℕ) → get_elem? c.recved j ≡ some true → get_elem? c.data_buf j ≡ some (content j)

read_bytes-append : (stray : ℕ → ℕ) (xs ys : List ℕ) → read_bytes stray (length xs) (xs ++ ys) ≡ xs
unfolding read_bytes
read_bytes-append stray [] ys = refl
read_bytes-append stray (x ∷ xs) ys = ap (λ zs. x ∷ zs) (read_bytes-append stray xs ys)

pub none_missing :
    (bs : List Bool) → ((j : ℕ) → j < length bs → get_elem? bs j ≡ some true) → missing bs ≡ 0
none_missing [] all = refl
none_missing (true ∷ bs) all = none_missing bs (λ j h. all (suc j) (omega arith))
none_missing (false ∷ bs) all = absurd (cc (all 0 (omega arith)))

blocks_from-all :
    (content : ℕ → List ℕ) (xs : List (List ℕ)) (n i : ℕ)
    → length xs ≡ n
    → ((j : ℕ) → j < n → get_elem? xs j ≡ some (content (i + j)))
    → xs ≡ blocks_from content n i
unfolding blocks_from
blocks_from-all content [] zero i size all = refl
blocks_from-all content [] (suc n) i size all = absurd (omega arith)
blocks_from-all content (x ∷ xs) zero i size all = absurd (omega arith)
blocks_from-all content (x ∷ xs) (suc n) i size all =
    let here : i + 0 ≡ i = omega arith in
    let first : x ≡ content i =
      some-eq x (content i) (all 0 (omega arith) ∙ ap (λ k. some (content k)) here) in
    let rest = blocks_from-all content xs n (i + 1) (omega arith) (λ j h.
      let on : i + suc j ≡ i + 1 + j = omega arith in
      all (suc j) (omega arith) ∙ ap (λ k. some (content k)) on) in
    rw (first, rest) refl

all_marked : (bs : List Bool) (j : ℕ) → missing bs ≡ 0 → j < length bs → get_elem? bs j ≡ some true
all_marked [] j h inside = absurd (omega arith)
all_marked (true ∷ bs) zero h inside = refl
all_marked (true ∷ bs) (suc j) h inside = all_marked bs j h (omega arith)
all_marked (false ∷ bs) j h inside = absurd (omega arith)

-- The bytes of the whole content.
abbrev pub whole : (ℕ → List ℕ) → List ℕ
whole content = flatten (blocks_from content 1024 0)

-- The packets are taken in one after the other, the download goes on with each of them, and one of
-- them is the last: with it, and not before, the content is written at the offset `at`, and the
-- invariant holds or the download is over.
pub data Downloaded (shahash : List ℕ → List ℕ) (content : ℕ → List ℕ) (peer at : ℕ)
    : Requestor → List Packet → Env → Type 0 where
  last_packet :
      (req r : Requestor) (p : Packet) (ps : List Packet) (e e' : Env)
      → update_data shahash req peer p e ≡ some (r, e')
      → r.output ≡ (at, whole content) ∷ req.output
      → Valid r ⊎ (r.in_progress ≡ false)
      → Downloaded shahash content peer at req (p ∷ ps) e
  next_packet :
      (req r : Requestor) (p : Packet) (ps : List Packet) (e e' : Env)
      → update_data shahash req peer p e ≡ some (r, e')
      → r.output ≡ req.output
      → Valid r
      → Downloaded shahash content peer at r ps e'
      → Downloaded shahash content peer at req (p ∷ ps) e

-- A hash text is that of the content.
abbrev pub HashOf : (List ℕ → List ℕ) → (ℕ → List ℕ) → List ℕ → Type 0
HashOf shahash content hash = strncmp_eq 40 (binary2hex (shahash (whole content))) hash ≡ some true

-- Chunk `i` is downloaded from the peer, with the content that its hash says, as far as it goes; and
-- the packets that are not marked are among the `ps`.
pub record Loading (shahash : List ℕ → List ℕ) (content : ℕ → List ℕ) (peer i : ℕ) (req : Requestor)
    (ps : List Packet) (c : ChunkStatus) : Type 0 where
  pub busy : get_elem? req.downloading peer ≡ some (some i)
  pub found : get_elem? req.chunks i ≡ some c
  pub genuine : Genuine content c
  pub hash : HashOf shahash content c.hash
  pub unfinished : c.left ≢ 0
  pub rest : (j : ℕ) → j < 1024 → (get_elem? c.recved j ≡ some true) ⊎ (arrives ps j ≡ true)

pub Finish-output :
    (req r : Requestor) (i : ℕ) (c : ChunkStatus) (matches : Bool)
    → Finish req i c r matches
    → matches ≡ true
    → (r.output ≡ (seek_offset i, flatten c.data_buf) ∷ req.output)
      × (Valid r ⊎ (r.in_progress ≡ false))
Finish-output req r i c _ (rejected v _ _ _) yes' = absurd (cc)
Finish-output req r i c _ (accepted v _ out _ _) yes' = (out, inl v)
Finish-output req r i c _ (completed over out _) yes' = (out, inr over)

module _ (shahash : List ℕ → List ℕ) (content : ℕ → List ℕ) (peer i : ℕ)
    (size : (j : ℕ) → j < 1024 → length (content j) ≡ 512) where
  -- The stored packet fits.
  pub Stored-Genuine :
      (c d : ChunkStatus) (p : Packet) (rest : List ℕ) (e : Env)
      → Stored c p e d
      → Genuine content c
      → p.header.seq_num < 1024
      → p.payload ≡ content p.header.seq_num ++ rest
      → Genuine content d
  Stored-Genuine c d p rest e s g inside carries j marked =
      let n = p.header.seq_num in
      elim (ℕ_discrete n j) [
        | yes here ↦
            let block : read_bytes e.stray 512 p.payload ≡ content n =
              ap (read_bytes e.stray 512) carries
              ∙ (ap (λ k. read_bytes e.stray k (content n ++ rest)) (sym (size n inside))
                  ∙ read_bytes-append e.stray (content n) rest) in
            rw (← here) (s.block ∙ ap some block)
        | no other ↦ s.others j other ∙ g j (sym (s.marks j other) ∙ marked)
      ]

  -- A packet less is to come.
  pub Stored-rest :
      (c d : ChunkStatus) (p : Packet) (ps : List Packet) (e : Env)
      → Stored c p e d
      → (j : ℕ) → (get_elem? c.recved j ≡ some true) ⊎ (arrives (p ∷ ps) j ≡ true)
      → (get_elem? d.recved j ≡ some true) ⊎ (arrives ps j ≡ true)
  unfolding arrives
  Stored-rest c d p ps e s j before = elim (ℕ_discrete p.header.seq_num j) [
    | yes here ↦ inl (rw (← here) s.mark)
    | no other ↦ elim before [
      | inl marked ↦ inl (s.marks j other ∙ marked)
      | inr to_come ↦ inr (ground arith)
    ]
  ]

  -- With the last packet all blocks are there.
  pub whole-data_buf :
      (c d : ChunkStatus) (e : Env) (p : Packet)
      → Stored c p e d
      → Genuine content d
      → d.left ≡ 0
      → flatten d.data_buf ≡ whole content
  whole-data_buf c d e p s g none' =
      let m = s.chunk.marks in
      ap flatten (
        blocks_from-all content d.data_buf 1024 0 m.blocks (λ j h.
          let same : 0 + j ≡ j = omega arith in
          g j (all_marked d.recved j (sym m.count ∙ none') (omega (arith, m.marks)))
          ∙ ap (λ k. some (content k)) (sym same)))
