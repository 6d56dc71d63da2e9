-- ===== src/Tests/ErasureCreate.antt =====
-- cmd/erasure-createfile.go: streams written to two disks that mirror each block.
use minio.Base.{
  ℕ, ◌≡◌, refl, true, ◌&&◌, ltb, ◌==◌, if◌then◌else◌, [], ◌∷◌, Option, none, some, arith,
  ℕ_discrete,
}
use minio.Base.Assoc.{get, put}
use minio.Quorum.{
  error_cause, errors_cause, is_err_ignored, error_counts, max_count, reduce_errs,
  reduce_quorum_errs, count_not_ignored, is_disk_quorum,
}
use minio.Erasure.{Bytes}
use minio.Erasure.Create.{
  at_eof, Files, Created, Environment, encode_data, append_all, append_file, at_end, create_blocks,
  erasure_create_file, finish,
}
use minio.Erasure.Create.Hashes.{Matches, erasure_create_file-Matches}

unfoldable same_failure : Discrete (Option ℕ)
unfolding ℕ_discrete
same_failure = hlevel ℕ_discrete

program : Unit {0}
unfolding encode_data append_all append_file at_end create_blocks erasure_create_file error_cause
    errors_cause is_err_ignored error_counts max_count reduce_errs reduce_quorum_errs
    count_not_ignored is_disk_quorum get put same_failure ℕ_discrete
program = tt

abbrev first : Bytes → ℕ
first [] = 0
first (x ∷ b) = x

-- The disk at index 1 has no room for a block that begins with 1.
abbrev environment : Environment ℕ
environment = record {
  append_fails = λ i f b. if i == 1 && ltb (first b) 2 then some (5, f) else none;
  new_ok = true;
  split = λ b. some (b ∷ []);
  encode = λ blocks. elim blocks [ [] ↦ none | b ∷ _ ↦ some (b ∷ b ∷ b ∷ []) ];
  same_error = same_failure;
  shuffle = λ l. l;
  quorum_ignored_errs = [];
  object_op_ignored_errs = [];
  err_xl_write_quorum = 9;
}

abbrev empty_files : Files
empty_files = some [] ∷ some [] ∷ some [] ∷ []

abbrev stream : Bytes
stream = 1 ∷ 2 ∷ 3 ∷ 4 ∷ []

-- A disk that missed the first block gets the second one, and a checksum of just that.
missed_block_test :
    erasure_create_file environment empty_files stream at_eof 2 2
    ≡ some (record {
      files = some stream ∷ some (3 ∷ 4 ∷ []) ∷ some stream ∷ [];
      hashed = stream ∷ (3 ∷ 4 ∷ []) ∷ stream ∷ [];
      bytes_written = 4;
      error = none;
    })
unfolding program
missed_block_test = refl

-- Disks that are nil count for the write quorum.
nil_disks_test :
    erasure_create_file environment (none ∷ none ∷ none ∷ []) stream at_eof 2 2
    ≡ some (finish environment (none ∷ none ∷ none ∷ []) ([] ∷ [] ∷ [] ∷ []) 4)
unfolding program
nil_disks_test = refl

atomic : (i : ℕ) (f b : Bytes) (r : ℕ × Bytes) → environment.append_fails i f b ≡ some r → r.1 ≡ f
atomic i f b r h = ground arith

erasure_create_file-Matches_example :
    (c : Created ℕ) × (erasure_create_file environment empty_files stream at_eof 2 2 ≡ some c)
    × Matches c.files c.hashed
erasure_create_file-Matches_example =
    erasure_create_file-Matches environment atomic empty_files stream at_eof 2 2 (omega arith)
      (refl, (refl, (refl, tt)))
