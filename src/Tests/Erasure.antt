-- ===== src/Tests/Erasure.antt =====
-- cmd/erasure-utils.go and cmd/erasure-readfile.go on a few blocks and disks.
use minio.Base.{
  ℕ, ◌+◌, ◌-◌, ◌*◌, ◌/◌, ◌≤◌, ◌<◌, ◌≡◌, ◌⊎◌, refl, List, [], ◌∷◌, ◌++◌, Option, some, none, arith,
  length, take,
}
use minio.Base.Int.{pos}
use minio.Erasure.{
  Bytes, get_chunk_size, size_on_disk, sum_lengths, get_data_block_len, write_blocks,
  write_data_blocks, wrote, count_blocks, is_success_decode_blocks, is_success_data_blocks, pick,
  get_read_disks, picked, read_quorum,
}
use minio.Erasure.Chunks.{size_on_disk_bounds}
use minio.Erasure.Blocks.{append_to, range, joined, write_data_blocks-range}
use minio.Erasure.Disks.{available, Keeps, get_read_disks-outcome}

program : Unit {0}
unfolding get_chunk_size size_on_disk sum_lengths get_data_block_len write_blocks write_data_blocks
    count_blocks is_success_decode_blocks is_success_data_blocks pick get_read_disks
program = tt

abbrev blocks : List (Option Bytes)
blocks = some (1 ∷ 2 ∷ []) ∷ some (3 ∷ 4 ∷ []) ∷ none ∷ []

abbrev disks : List (Option ℕ)
disks = some 10 ∷ none ∷ some 12 ∷ some 13 ∷ []

size_on_disk_test : size_on_disk 25 10 4 ≡ 8
unfolding program
size_on_disk_test = refl

get_read_disks_test : get_read_disks 2 disks 0 ≡ picked (some 10 ∷ none ∷ some 12 ∷ none ∷ []) 3
unfolding program
get_read_disks_test = refl

size_on_disk_bounds_example :
    (25 ≤ size_on_disk 25 10 4 * 4) × (size_on_disk 25 10 4 * 4 ≤ 25 + (25 / 10 + 1) * (4 - 1))
size_on_disk_bounds_example = size_on_disk_bounds 25 10 4 (omega arith) (omega arith)

write_data_blocks-range_example : write_data_blocks append_to blocks 2 (pos 1) (pos 2) [] ≡ (
  [] ++ range 1 2 (joined (take 2 blocks)),
  wrote (length (range 1 2 (joined (take 2 blocks)))),
)
unfolding program
write_data_blocks-range_example =
    write_data_blocks-range blocks 2 1 2 [] (omega arith) (omega arith)

get_read_disks-outcome_example :
    ((chosen : List (Option ℕ)) × (next : ℕ) × (get_read_disks 2 disks 1 ≡ picked chosen next)
      × Keeps chosen disks
      × (available (take 1 disks) + available chosen ≡ 2)
      × (1 < next)
      × (next ≤ length disks))
    ⊎ ((get_read_disks 2 disks 1 ≡ read_quorum) × (available disks < 2))
get_read_disks-outcome_example = get_read_disks-outcome 2 disks 1 (omega arith) (omega arith)
