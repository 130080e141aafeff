-- ===== src/Tests/Files.antt =====
-- The files and the memory of the tests.
use proj.Prelude.{
  ℕ, zero, suc, true, refl, ◌≡◌, Option, some, List, [], ◌∷◌, arith, replicate, length-replicate,
  some-eq, subst,
}
use proj.Requestor.{ChunkStatus}
use proj.Requestor.Init.{Disk}
use proj.Requestor.Begin.{Fresh, Short, Writable}
use proj.Tests.Data.{waiting_chunk}

abbrev pub fresh : ℕ → ChunkStatus
fresh j = waiting_chunk

pub fresh-Fresh : (j : ℕ) → Fresh (fresh j)
fresh-Fresh j = record { blocks = length-replicate {A = List ℕ} 1024 []; last = omega arith }

-- A list of one chunk.
abbrev pub entries : List (ℕ × List ℕ)
entries = (0, replicate 40 97) ∷ []

pub entries-Short : Short entries
entries-Short zero x h =
    rw (← some-eq (0, replicate 40 97) x h) (omega (arith, length-replicate {A = ℕ} 40 97))
entries-Short (suc k) x h = absurd (cc)

-- Every output file can be created.
abbrev pub disk : Disk
disk = record { creates = λ name. true; reopens = λ name. true }

pub disk-Writable : (name : List ℕ) → Writable disk name
disk-Writable name = record { creates = refl; reopens = refl }

-- Every name is that of the same file.
abbrev pub files : List ℕ → Option (List (ℕ × List ℕ))
files name = some entries

pub files-Short : (name : List ℕ) (es : List (ℕ × List ℕ)) → files name ≡ some es → Short es
files-Short name es h = subst Short (some-eq entries es h) entries-Short
