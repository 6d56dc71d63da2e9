-- ===== src/Erasure.antt =====
-- Erasure-coded files: cmd/erasure-utils.go, the block and disk selection of
-- cmd/erasure-readfile.go, and `sizeOnDisk` of cmd/xl-v1-common.go.
pub mod Chunks
pub mod Blocks
pub mod Disks
pub mod Read
pub mod Create
pub mod Shards
pub mod Heal
pub mod RoundTrip
use minio.Base.{
  ℕ, suc, zero, ◌+◌, ◌-◌, ◌*◌, ◌/◌, ◌%◌, Bool, true, false, ◌&&◌, ◌||◌, List, [], ◌∷◌, ◌++◌, Option,
  none, some, ltb, leb, ◌==◌, if◌then◌else◌, length, take, drop, replicate,
}
use minio.Base.Int.{ℤ, pos, negsuc}

abbrev pub Bytes : Type 0
Bytes = List ℕ

-- `getChunkSize`.
unfoldable pub get_chunk_size : ℕ → ℕ → ℕ
get_chunk_size block_size data_blocks = (block_size + data_blocks - 1) / data_blocks

-- `sizeOnDisk`.
unfoldable pub size_on_disk : ℕ → ℕ → ℕ → ℕ
unfolding get_chunk_size
size_on_disk file_size block_size data_blocks =
    let num_blocks = file_size / block_size in
    let chunk_size = get_chunk_size block_size data_blocks in
    let remaining = file_size % block_size in
    num_blocks * chunk_size + (if ltb 0 remaining then get_chunk_size remaining data_blocks else 0)

-- A block that was not read is nil, which has length 0.
abbrev pub bytes_of : Option Bytes → Bytes
bytes_of none = []
bytes_of (some b) = b

-- The loop of `getDataBlockLen` over the data blocks.
unfoldable pub sum_lengths : List (Option Bytes) → ℕ
sum_lengths [] = 0
sum_lengths (b ∷ bs) = length (bytes_of b) + sum_lengths bs

unfoldable pub get_data_block_len : List (Option Bytes) → ℕ → ℕ
unfolding sum_lengths
get_data_block_len en_blocks data_blocks = sum_lengths (take data_blocks en_blocks)

pub data WriteError : Type 0 where
  unexpected too_few_shards short_data copy_failed : WriteError

-- The number of bytes written, or the error.
pub data Written : Type 0 where
  wrote : ℕ → Written
  failed : WriteError → Written

-- `dst` is a state of type `W`; `copy` is `io.Copy` of some bytes to it, `none` when it fails. What a copy
-- that fails has written before is not kept.
module _ {W : Type 0} (copy : W → Bytes → Option W) where
  -- The loop of `writeDataBlocks`.
  unfoldable pub write_blocks : List (Option Bytes) → ℕ → ℕ → ℕ → W → W × Written
  write_blocks [] offset write total_written dst = (dst, wrote total_written)
  write_blocks (b ∷ rest) offset write total_written dst =
      let block = bytes_of b in
      let tail = drop offset block in
      let skip = write_blocks rest (offset - length block) write total_written dst in
      let part : W × Written = elim (copy dst (take write tail)) [
        | none ↦ (dst, failed copy_failed)
        | some dst' ↦ (dst', wrote (total_written + write))
      ] in
      let whole : W × Written = elim (copy dst tail) [
        | none ↦ (dst, failed copy_failed)
        | some dst' ↦ write_blocks rest 0 (write - length tail) (total_written + length tail) dst'
      ] in
      if leb (length block) offset then skip else if ltb write (length tail) then part else whole

  -- `writeDataBlocks`. Where an error returns, the count is 0.
  unfoldable pub write_data_blocks : List (Option Bytes) → ℕ → ℤ → ℤ → W → W × Written
  unfolding get_data_block_len
  write_data_blocks en_blocks data_blocks (pos offset) (pos len) dst =
      if ltb (length en_blocks) data_blocks
      then (dst, failed too_few_shards)
      else if ltb (get_data_block_len en_blocks data_blocks) len
      then (dst, failed short_data)
      else write_blocks (take data_blocks en_blocks) offset len 0 dst
  write_data_blocks en_blocks data_blocks offset len dst = (dst, failed unexpected)

-- The loop of `isSuccessDecodeBlocks` from an index on: the data blocks and the parity blocks
-- that were read.
unfoldable pub count_blocks {ℓ} : {A : Type ℓ} → List (Option A) → ℕ → ℕ → ℕ → ℕ → ℕ × ℕ
count_blocks [] index data_blocks d p = (d, p)
count_blocks (none ∷ rest) index data_blocks d p = count_blocks rest (index + 1) data_blocks d p
count_blocks (some _ ∷ rest) index data_blocks d p =
    count_blocks rest (index + 1) data_blocks (if ltb index data_blocks then d + 1 else d)
      (if ltb index data_blocks then p else p + 1)

unfoldable pub is_success_decode_blocks : List (Option Bytes) → ℕ → Bool
unfolding count_blocks
is_success_decode_blocks en_blocks data_blocks =
    let (d, p) = count_blocks en_blocks 0 data_blocks 0 0 in
    d == data_blocks || leb data_blocks (d + p)

unfoldable pub is_success_data_blocks : List (Option Bytes) → ℕ → Bool
unfolding count_blocks
is_success_data_blocks en_blocks data_blocks =
    let (d, _) = count_blocks (take data_blocks en_blocks) 0 data_blocks 0 0 in leb data_blocks d

-- The outcomes of `getReadDisks`; `out_of_range` is the panic for an index beyond the disks.
pub data ReadDisks (D : Type 0) : Type 0 where
  picked : List (Option D) → ℕ → ReadDisks D
  unexpected_error : ReadDisks D
  read_quorum : ReadDisks D
  out_of_range : ReadDisks D

module _ {D : Type 0} (data_blocks : ℕ) where
  -- The second loop of `getReadDisks`, from index `i` on, with the disks picked so far to its left.
  unfoldable pub pick : List (Option D) → ℕ → ℕ → ℕ → Option (List (Option D) × ℕ)
  pick [] i d p = none
  pick (none ∷ rest) i d p = elim (pick rest (i + 1) d p) [
    | none ↦ none
    | some (chosen, next) ↦ some (none ∷ chosen, next)
  ]
  pick (some disk ∷ rest) i d p =
      let d' = if ltb i data_blocks then d + 1 else d in
      let p' = if ltb i data_blocks then p else p + 1 in
      let more : Option (List (Option D) × ℕ) = elim (pick rest (i + 1) d' p') [
        | none ↦ none
        | some (chosen, next) ↦ some (some disk ∷ chosen, next)
      ] in
      if d' == data_blocks || d' + p' == data_blocks
      then some (some disk ∷ replicate (length rest) none, i + 1)
      else more

  -- `getReadDisks`.
  unfoldable pub get_read_disks : List (Option D) → ℕ → ReadDisks D
  unfolding pick count_blocks
  get_read_disks ordered_disks index =
      let (d, p) = count_blocks (take index ordered_disks) 0 data_blocks 0 0 in
      if ltb (length ordered_disks) index
      then out_of_range
      else if d == data_blocks
      then unexpected_error
      else if leb data_blocks (d + p)
      then unexpected_error
      else elim (pick (drop index ordered_disks) index d p) [
        | none ↦ read_quorum
        | some (chosen, next) ↦ picked (replicate index none ++ chosen) next
      ]
