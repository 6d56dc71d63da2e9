-- ===== src/Tests/ErasureRoundTrip.antt =====
-- cmd/erasure-createfile.go, cmd/erasure-readfile.go and cmd/erasure-healfile.go together: five bytes in
-- blocks of two are written to two disks that mirror each other.
use minio.Base.{
  ℕ, zero, suc, ◌<◌, ◌≡◌, refl, true, List, [], ◌∷◌, Option, none, some, arith, ℕ_discrete, length,
}
use minio.Base.Int.{pos}
use minio.Base.Assoc.{get, put}
use minio.Base.Text.{Text, text_discrete}
use minio.Quorum.{
  error_cause, errors_cause, is_err_ignored, error_counts, max_count, reduce_errs,
  reduce_quorum_errs, count_not_ignored, is_disk_quorum,
}
use minio.Quorum.Majority.{IsShuffle}
use minio.Erasure.{Bytes, get_chunk_size}
use minio.Erasure.Blocks.{append_to}
use minio.Erasure.Create.{
  at_eof, Files, Created, Environment, encode_data, append_all, append_file, at_end, create_blocks,
  erasure_create_file, finish,
}
use minio.Erasure.Create.Hashes.{Matches}
use minio.Erasure.Create.Stored.{erasure_create_file-shard_files}
use minio.Erasure.Read.{is_valid_block, Request, finished, decode_data, erasure_read_file}
use minio.Erasure.Shards.{grow, shard_files}
use minio.Erasure.Heal.{
  OutDated, append_outdated, healed, heal_blocks, erasure_heal_file, decode_failed,
}
use minio.Erasure.Heal.Restored.{contents, present, Latest, erasure_heal_file-shard_files}
use minio.Erasure.RoundTrip.{read_at, storage_of}
use minio.Erasure.RoundTrip.WriteRead.{erasure_read_file-erasure_create_file}
use minio.Erasure.RoundTrip.WriteHeal.{erasure_heal_file-erasure_create_file}
use minio.Tests.Mirror.{coder, shards, codes, sizes}

unfoldable same_failure : Discrete (Option ℕ)
unfolding ℕ_discrete
same_failure = hlevel ℕ_discrete

program : Unit {0}
unfolding encode_data append_all append_file at_end create_blocks erasure_create_file error_cause
    errors_cause is_err_ignored error_counts max_count reduce_errs reduce_quorum_errs
    count_not_ignored is_disk_quorum get put same_failure ℕ_discrete get_chunk_size append_outdated
    heal_blocks erasure_heal_file decode_data is_valid_block text_discrete
program = tt

abbrev environment : Environment ℕ
environment = record {
  append_fails = λ i f b. none;
  new_ok = true;
  split = λ b. some (b ∷ []);
  encode = λ blocks. elim blocks [ [] ↦ none | b ∷ _ ↦ some (b ∷ b ∷ []) ];
  same_error = same_failure;
  shuffle = λ l. l;
  quorum_ignored_errs = [];
  object_op_ignored_errs = [];
  err_xl_write_quorum = 9;
}

abbrev empty_files : Files
empty_files = some [] ∷ some [] ∷ []

abbrev stream : Bytes
stream = 1 ∷ 2 ∷ 3 ∷ 4 ∷ 5 ∷ []

abbrev created : Created ℕ
created = finish environment (some stream ∷ some stream ∷ []) (stream ∷ stream ∷ []) 5

created_test : erasure_create_file environment empty_files stream at_eof 2 2 ≡ some created
unfolding program
created_test = refl

fair : IsShuffle environment.same_error environment.shuffle
fair l e n = (λ h. h, λ h. h)

encodes : (b : Bytes) → 0 < length b → encode_data environment b ≡ some (shards b)
unfolding program
encodes b h = refl

erasure_create_file-shard_files_example :
    (hashed : List Bytes) × (erasure_create_file environment empty_files stream at_eof 2 2
      ≡ some (finish environment (grow empty_files (shard_files shards 2 2 stream)) hashed 5))
erasure_create_file-shard_files_example =
    erasure_create_file-shard_files environment (λ i f b. refl) fair 2 2 (omega arith) (omega arith)
      shards 1 2 (omega arith) sizes (omega arith) encodes empty_files stream refl

abbrev request : Request
request = record {
  offset = 1;
  len = 3;
  total_length = 5;
  block_size = 2;
  data_blocks = 1;
  parity_blocks = 1;
}

-- The checksum tells how many bytes there are.
abbrev sum : Bytes → Text
sum b = length b ∷ []

-- The first disk has lost a byte, the second one is as it was.
abbrev disks : List (Option (Bytes × Text))
disks = some (1 ∷ 2 ∷ 3 ∷ 4 ∷ [], 5 ∷ []) ∷ some (stream, 5 ∷ []) ∷ []

erasure_read_file-erasure_create_file_example :
    (left : List (Option (Bytes × Text))) × (erasure_read_file
        (storage_of sum)
        coder
        append_to
        []
        disks
        (pos 1)
        (pos 3)
        5
        2
        1
        1
      ≡ finished (2 ∷ 3 ∷ 4 ∷ []) 3 left)
unfolding program
erasure_read_file-erasure_create_file_example =
    erasure_read_file-erasure_create_file sum coder request stream shards codes sizes refl
      (omega arith) (omega arith) (omega arith) (omega arith) environment 2 empty_files created
      disks [] encodes (λ i f b. refl) fair (omega arith) (omega arith) refl (refl, (refl, tt))
      created_test (refl, (λ h. absurd (cc)), (refl, (λ h. refl), tt)) (omega arith)

-- Only the second disk has the file; the first one is healed.
abbrev latest : List (Option Bytes)
latest = none ∷ some stream ∷ []

abbrev out_dated : List OutDated
out_dated = some none ∷ none ∷ []

erasure_heal_file-erasure_create_file_example :
    (created.files ≡ grow empty_files (shard_files shards 2 2 stream))
    × ((hashed : List Bytes) × (erasure_heal_file {E = ℕ} read_at coder
            (λ i f b. none)
            1
            1
            latest
            out_dated
            5
            2
          ≡ some (
              healed
                (present (grow (contents out_dated) (shard_files shards 2 2 stream)))
                hashed
                none))
        × Matches (grow (contents out_dated) (shard_files shards 2 2 stream)) hashed)
erasure_heal_file-erasure_create_file_example =
    erasure_heal_file-erasure_create_file coder 1 1 2 stream shards codes sizes (omega arith)
      (omega arith) environment 2 empty_files created latest (λ i f b. none) out_dated (omega arith)
      encodes (λ i f b. refl) fair (omega arith) (omega arith) refl (refl, (refl, tt)) created_test
      (refl, tt) (omega arith) (λ i f b. refl) refl (refl, (tt, tt))

-- With no disk left, healing fails and writes nothing.
nothing_left_test :
    erasure_heal_file {E = ℕ} read_at coder (λ i f b. none) 1 1 (none ∷ none ∷ []) out_dated 5 2
    ≡ some (healed out_dated ([] ∷ [] ∷ []) (some decode_failed))
unfolding program
nothing_left_test = refl

-- Healing nothing succeeds, and leaves a disk without a file as it is.
empty_test :
    erasure_heal_file {E = ℕ} read_at coder (λ i f b. none) 1 1 latest out_dated 0 2
    ≡ some (healed out_dated ([] ∷ [] ∷ []) none)
unfolding program
empty_test = refl

served :
    Latest {E = ℕ} read_at coder
      (λ i f b. none)
      1
      1
      (λ i f b. refl)
      latest
      shards
      2
      (omega arith)
      (omega arith)
      codes
      sizes
      0
      stream
unfolding program
served zero h = ((refl, tt), omega arith)
served (suc zero) h = ((refl, tt), omega arith)
served (suc (suc zero)) h = ((refl, tt), omega arith)
served (suc (suc (suc k))) h = absurd (omega (arith, h))

erasure_heal_file-shard_files_example :
    (hashed : List Bytes) × (erasure_heal_file {E = ℕ} read_at coder
        (λ i f b. none)
        1
        1
        latest
        out_dated
        5
        2
      ≡ some (
          healed (present (grow (contents out_dated) (shard_files shards 2 2 stream))) hashed none))
    × Matches (grow (contents out_dated) (shard_files shards 2 2 stream)) hashed
erasure_heal_file-shard_files_example =
    erasure_heal_file-shard_files read_at coder (λ i f b. none) 1 1 (λ i f b. refl) latest shards 2
      (omega arith) (omega arith) codes sizes out_dated stream (omega arith) refl (refl, (tt, tt))
      served
