-- ===== src/Requestor/Provider.antt =====
-- `find_next_provider`: the choice of a provider.
use native.Mathlib.Nat.{add-zero, mod-lt, mod-eq_of_lt, mod-add-mod, add-mod_right}
use native.Mathlib.Decide.{dec_le}
use proj.Prelude.{
  ℕ, zero, suc, ◌+◌, ◌-◌, ◌%◌, ◌<◌, ◌≡◌, refl, ap, sym, ◌∙◌, inl, inr, Option, none, some, List, [],
  ◌∷◌, ◌≢◌, ◌==◌, Bool-cases, ne→==, subst, arith, length, get_elem?, Option-cases, >>=-eq-some,
  get_elem?-lt,
}
use proj.Prelude.Int.{ℤ, pos, negsuc, ◌≤ℤ◌}
use proj.Requestor.{
  ChunkStatus, Requestor, Choice, chosen, all_busy, no_provider, put_chunk, next_index,
  scan_providers, find_next_provider,
}

-- The index that the loop looks at after `k` further rounds.
abbrev pub after_rounds : ℕ → ℕ → ℕ → ℕ
after_rounds zero i n = i
after_rounds (suc k) i n = after_rounds k ((i + 1) % n) n

after_rounds-eq : (k i n : ℕ) → i < n → after_rounds k i n ≡ (i + k) % n
after_rounds-eq zero i n h = rw add-zero (sym (mod-eq_of_lt h))
after_rounds-eq (suc k) i n h =
    let on : i + 1 + k ≡ i + suc k = omega arith in
    after_rounds-eq k ((i + 1) % n) n (mod-lt (i + 1) (omega arith))
    ∙ (mod-add-mod (i + 1) n k ∙ ap (λ m. m % n) on)

-- A provider that is in the array and from whom nothing is being downloaded.
abbrev pub IsFree : List ℕ → List (Option ℕ) → ℕ → ℕ → Type 0
IsFree providers downloading k p =
    (get_elem? providers k ≡ some p) × (get_elem? downloading p ≡ some none)

-- What the loop returns is free.
scan_providers-IsFree :
    (rounds i k p : ℕ) (providers : List ℕ) (downloading : List (Option ℕ))
    → scan_providers rounds i providers downloading ≡ some (some (k, p))
    → IsFree providers downloading k p
unfolding scan_providers
scan_providers-IsFree zero i k p providers downloading h = absurd (cc)
scan_providers-IsFree (suc rounds) i k p providers downloading h =
    ground
      (arith, scan_providers-IsFree rounds ((i + 1) % length providers) k p providers downloading)

-- A provider who is busy with another chunk.
abbrev pub IsBusy : List ℕ → List (Option ℕ) → ℕ → Type 0
IsBusy providers downloading k =
    (p : ℕ) × (c : ℕ) × (get_elem? providers k ≡ some p) × (get_elem? downloading p ≡ some (some c))

-- If it returns none, each of the entries that it looked at is busy.
scan_providers-IsBusy :
    (rounds i j : ℕ) (providers : List ℕ) (downloading : List (Option ℕ))
    → scan_providers rounds i providers downloading ≡ some none
    → j < rounds
    → IsBusy providers downloading (after_rounds j i (length providers))
unfolding scan_providers
scan_providers-IsBusy zero i j providers downloading h lt = absurd (omega arith)
scan_providers-IsBusy (suc rounds) i j providers downloading h lt =
    let (p, found, h1) = >>=-eq-some (get_elem? providers i) _ h in
    let (current, at, h2) = >>=-eq-some (get_elem? downloading p) _ h1 in
    elim (Option-cases current) [
      | inl free ↦ absurd (ground arith)
      | inr (c, busy) ↦ first p c found (at ∙ ap some busy) j lt (λ k m.
          scan_providers-IsBusy rounds ((i + 1) % length providers) k providers downloading
            (rw busy at h2) m)
    ]
  where
    first :
        (p c : ℕ)
        → get_elem? providers i ≡ some p
        → get_elem? downloading p ≡ some (some c)
        → (j : ℕ) → j < suc rounds
        → ((k : ℕ)
            → k < rounds
            → IsBusy providers downloading
                (after_rounds k ((i + 1) % length providers) (length providers)))
        → IsBusy providers downloading (after_rounds j i (length providers))
    first p c found at zero lt later = (p, c, found, at)
    first p c found at (suc k) lt later = later k (omega arith)

-- The loop cannot leave the arrays.
scan_providers-total :
    (rounds i : ℕ) (providers : List ℕ) (downloading : List (Option ℕ))
    → ((k p : ℕ) → get_elem? providers k ≡ some p → p < length downloading)
    → i < length providers
    → (r : Option (ℕ × ℕ)) × (scan_providers rounds i providers downloading ≡ some r)
unfolding scan_providers
scan_providers-total zero i providers downloading known h = (none, refl)
scan_providers-total (suc rounds) i providers downloading known h =
    let (p, found) = get_elem?-lt providers i h in
    let (current, at) = get_elem?-lt downloading p (known i p found) in
    let (r, later) =
      scan_providers-total rounds ((i + 1) % length providers) providers downloading known
        (mod-lt (i + 1) (omega arith)) in
    elim (Option-cases current) [
      | inl free ↦ (some (i, p), rw (found, at, free) refl)
      | inr (c, busy) ↦ (r, rw (found, at, busy) later)
    ]

-- In as many rounds as there are entries the loop comes to each of them.
reached : (i k n : ℕ) → i < n → k < n → (j : ℕ) × (j < n) × (after_rounds j i n ≡ k)
reached i k n h l = elim (dec_le i k) [
  | yes up ↦
      let there : i + (k - i) ≡ k = omega arith in
      (k - i, omega arith, after_rounds-eq (k - i) i n h ∙ (ap (λ m. m % n) there ∙ mod-eq_of_lt l))
  | no down ↦
      let there : i + (k + n - i) ≡ k + n = omega arith in
      (
        k + n - i,
        omega arith,
        after_rounds-eq (k + n - i) i n h
            ∙ (ap (λ m. m % n) there ∙ (add-mod_right k n ∙ mod-eq_of_lt l)),
      )
]

-- What `find_next_provider` returns, by its choice.
abbrev pub Chose : Requestor → ℕ → ChunkStatus → Choice → Requestor → Type 0
Chose req i c (chosen p) r =
    (k : ℕ) × IsFree c.providers req.downloading k p
    × (r ≡ put_chunk req i (record c { last_provider = pos k }))
Chose req i c all_busy r =
    (r ≡ req) × ((k : ℕ) → k < length c.providers → IsBusy c.providers req.downloading k)
Chose req i c no_provider r = (r ≡ req) × (c.providers ≡ [])

-- The choice that is made of what the loop returns.
abbrev outcome : Requestor → ℕ → ChunkStatus → Option (ℕ × ℕ) → Choice × Requestor
outcome req i c none = (all_busy, req)
outcome req i c (some (k, p)) = (chosen p, put_chunk req i (record c { last_provider = pos k }))

length-zero : (xs : List ℕ) → length xs ≡ 0 → xs ≡ []
length-zero [] h = refl
length-zero (x ∷ xs) h = absurd (omega arith)

next_index-total :
    (i : ℤ) (n : ℕ) → negsuc 0 ≤ℤ i → 0 < n → (k : ℕ) × (next_index i n ≡ some k) × (k < n)
unfolding next_index
next_index-total (pos k) n h l = ((k + 1) % n, refl, mod-lt (k + 1) l)
next_index-total (negsuc zero) n h l = (0, refl, l)
next_index-total (negsuc (suc k)) n h l = absurd (omega arith)

Chose-from :
    (req : Requestor) (i start : ℕ) (c : ChunkStatus) (r : Option (ℕ × ℕ))
    → start < length c.providers
    → scan_providers (length c.providers) start c.providers req.downloading ≡ some r
    → Chose req i c (outcome req i c r).0 (outcome req i c r).1
Chose-from req i start c none h e = (
  refl,
  λ k l.
      let (j, m, there) = reached start k (length c.providers) h l in
      subst (IsBusy c.providers req.downloading) there
        (scan_providers-IsBusy (length c.providers) start j c.providers req.downloading e m),
)
Chose-from req i start c (some (k, p)) h e =
    (k, scan_providers-IsFree (length c.providers) start k p c.providers req.downloading e, refl)

-- The chunk's providers are peers that `downloading` has a place for, and the last one asked has an
-- index that is at least -1. Then the search makes no fault. It chooses a provider from whom
-- nothing is being downloaded, and remembers its index; or there is no provider, or each of them is
-- busy, and then nothing changes.
pub find_next_provider_lem :
    (req : Requestor) (i : ℕ) (c : ChunkStatus)
    → get_elem? req.chunks i ≡ some c
    → ((k p : ℕ) → get_elem? c.providers k ≡ some p → p < length req.downloading)
    → negsuc 0 ≤ℤ c.last_provider
    → (choice : Choice) × (r : Requestor) × (find_next_provider req i ≡ some (choice, r))
      × Chose req i c choice r
unfolding find_next_provider
find_next_provider_lem req i c found known last = elim (Bool-cases (length c.providers == 0)) [
  | inl empty ↦
      (no_provider, req, rw (found, empty) refl, (refl, length-zero c.providers (ground arith)))
  | inr some' ↦
      let (start, from, low) =
        next_index-total c.last_provider (length c.providers) last (ground arith) in
      let (r, scanned) =
        scan_providers-total (length c.providers) start c.providers req.downloading known low in
      (
        (outcome req i c r).0,
        (outcome req i c r).1,
        rw (found, some', from, scanned) refl,
        Chose-from req i start c r low scanned,
      )
]

-- If `last_provider` of a chunk with providers is a negative value -(m + 2), and m + 1 is not a
-- multiple of the number of providers, the search for a provider reads in front of the array.
pub find_next_provider_uninitialised :
    (req : Requestor) (i m : ℕ) (c : ChunkStatus)
    → get_elem? req.chunks i ≡ some c
    → c.last_provider ≡ negsuc (suc m)
    → suc m % length c.providers ≢ 0
    → 0 < length c.providers
    → find_next_provider req i ≡ none
unfolding find_next_provider next_index
find_next_provider_uninitialised req i m c found last odd some' =
    rw (found, ne→== (length c.providers) 0 (omega arith), last, ne→== _ 0 odd) refl
