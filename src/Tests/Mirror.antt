-- ===== src/Tests/Mirror.antt =====
-- A code with one data block and one parity block, its mirror, for the tests of cmd/erasure-readfile.go
-- and cmd/erasure-healfile.go.
use minio.Base.{
  ℕ, ◌≤◌, ◌≡◌, refl, ap, true, List, [], ◌∷◌, ◌++◌, Option, none, some, arith, map, length,
}
use minio.Erasure.{Bytes, get_chunk_size}
use minio.Erasure.Disks.{available}
use minio.Erasure.Read.{Coder}
use minio.Erasure.Read.Lists.{Agrees}
use minio.Erasure.Read.Decoding.{Codes}
use minio.Erasure.Shards.{Sizes}

-- A code that mirrors its one data block.
abbrev mirror : List (Option Bytes) → Option (List (Option Bytes))
mirror [] = none
mirror (none ∷ en) = mirror en
mirror (some b ∷ en) = some (some b ∷ some b ∷ [])

abbrev pub coder : Coder
coder = record {
  new_ok = λ d p. true;
  reconstruct = λ d p en. mirror en;
  verify = λ d p en. some true;
}

abbrev pub shards : Bytes → List Bytes
shards b = b ∷ b ∷ []

append_nil : (b : Bytes) → b ++ [] ≡ b
append_nil [] = refl
append_nil (x ∷ b) = ap (◌∷◌ x) (append_nil b)

mirror-Agrees :
    (b : Bytes) (en : List (Option Bytes))
    → Agrees en (shards b)
    → 1 ≤ available en
    → mirror en ≡ some (map some (shards b))
mirror-Agrees b [] h k = absurd h
mirror-Agrees b (none ∷ []) h k = absurd h
mirror-Agrees b (some x ∷ en) h k = ap (λ y. some (some y ∷ some y ∷ [])) h.0
mirror-Agrees b (none ∷ some x ∷ en) h k = ap (λ y. some (some y ∷ some y ∷ [])) h.0
mirror-Agrees b (none ∷ none ∷ []) h k = absurd (omega arith)
mirror-Agrees b (none ∷ none ∷ none ∷ en) h k = absurd h
mirror-Agrees b (none ∷ none ∷ some x ∷ en) h k = absurd h

pub codes : Codes coder 1 1 shards
codes = record {
  is_new = refl;
  padding = λ b. [];
  data_first = λ b. refl;
  shard_count = λ b. refl;
  reconstructs = λ b en s h k. mirror-Agrees b en h k;
  verifies = λ b s. refl;
}

chunk_of_one : (n : ℕ) → n ≡ get_chunk_size n 1
unfolding get_chunk_size
chunk_of_one n = grind arith

pub sizes : Sizes shards 1 2
sizes = record {
  count = λ b. refl;
  size = λ b. (chunk_of_one (length b), (chunk_of_one (length b), tt));
}
