-- ===== src/Tests/ErasureRead.antt =====
-- Runs of `erasureReadFile` on a file of five bytes in blocks of two, which two disks hold whole: the
-- first is damaged.
use minio.Base.{
  ℕ, zero, suc, ◌≤◌, ◌≡◌, refl, Bool, true, false, List, [], ◌∷◌, ◌*◌, Option, some, arith, take,
  drop, map, if◌then◌else◌,
}
use minio.Base.Int.{pos}
use minio.Base.Text.{text_discrete}
use minio.Erasure.{Bytes, get_chunk_size}
use minio.Erasure.Blocks.{append_to}
use minio.Erasure.Read.Range.{chunk_at, Serves, Reads}
use minio.Tests.Mirror.{coder, shards, codes}
use minio.Erasure.Read.{is_valid_block, Storage, Request, finished, read_chunk, erasure_read_file}
use minio.Erasure.Read.Amounts.{chunk_size, chunk_len}
use minio.Erasure.Read.Steady.{keep, Part}
use minio.Erasure.Read.Whole.{erasure_read_file-range, erasure_read_file-succeeds}

program : Unit {0}
unfolding read_chunk is_valid_block text_discrete get_chunk_size
program = tt

abbrev file : Bytes
file = 1 ∷ 2 ∷ 3 ∷ 4 ∷ 5 ∷ []

-- A disk that is `true` is intact; the hash of the other one is wrong.
abbrev storage : Storage Bool
storage = record {
  check_sum = λ disk. 7 ∷ [];
  hash_sum = λ disk. some (if disk then 7 ∷ [] else 8 ∷ []);
  pooled = λ disk. true;
  read_file = λ disk offset size. some (take size (drop offset file));
}

abbrev request : Request
request = record {
  offset = 1;
  len = 3;
  total_length = 5;
  block_size = 2;
  data_blocks = 1;
  parity_blocks = 1;
}

abbrev disks : List (Option Bool)
disks = some false ∷ some true ∷ []

serving :
    (disk : Bool) (k : ℕ)
    → disk ≡ true
    → k ≤ 2
    → (b : Bytes) × (chunk_at storage request file shards k (some disk) ≡ some b)
unfolding program
serving false k h m = absurd (ground (arith, h))
serving true k h m =
    (take (chunk_len request file k) (drop (k * chunk_size request file) file), refl)

serves : Serves storage request file shards disks
unfolding program
serves zero h = (refl, tt)
serves (suc zero) h = (refl, tt)
serves (suc (suc zero)) h = (refl, tt)
serves (suc (suc (suc k))) h = absurd (omega (arith, h))

erasure_read_file-succeeds_example :
    (left : List (Option Bool)) × (erasure_read_file storage coder append_to [] disks
        (pos 1)
        (pos 3)
        5
        2
        1
        1
      ≡ finished (2 ∷ 3 ∷ 4 ∷ []) 3 left)
    × (map (keep storage (λ disk. disk)) left ≡ map (keep storage (λ disk. disk)) disks)
    × Part left disks
erasure_read_file-succeeds_example =
    erasure_read_file-succeeds storage coder request file shards codes refl (omega arith)
      (omega arith) (omega arith) (omega arith) (λ disk. disk) serving disks [] serves (omega arith)

erasure_read_file-range_example :
    Reads storage request file shards
      (λ disk. disk)
      0
      disks
      []
      (erasure_read_file storage coder append_to [] disks (pos 1) (pos 3) 5 2 1 1)
erasure_read_file-range_example =
    erasure_read_file-range storage coder request file shards codes refl (omega arith) (omega arith)
      (omega arith) (omega arith) (λ disk. disk) serving disks [] serves
