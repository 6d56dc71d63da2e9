-- ===== src/Erasure/Read.antt =====
-- `erasureReadFile` of cmd/erasure-readfile.go: the blocks of a file are read from the disks, decoded
-- where data is missing, trimmed, and written.
pub mod Lists
pub mod Picks
pub mod Chunks
pub mod Decoding
pub mod Slices
pub mod Steady
pub mod Amounts
pub mod Whole
pub mod Range
use minio.Base.{
  ℕ, zero, suc, ◌+◌, ◌-◌, ◌*◌, ◌/◌, ◌%◌, Bool, true, false, not, ◌&&◌, List, [], ◌∷◌, ◌++◌, Option,
  none, some, ltb, leb, ◌==◌, if◌then◌else◌, length, take, drop, replicate, map,
}
use minio.Base.Int.{ℤ, pos, negsuc}
use minio.Base.Text.{Text, same}
use minio.Erasure.{
  Bytes, get_chunk_size, Written, wrote, failed, WriteError, write_data_blocks,
  is_success_decode_blocks, is_success_data_blocks, ReadDisks, picked, unexpected_error,
  read_quorum, out_of_range, get_read_disks,
}

-- A disk with the file: the checksum that xl.json holds for it, the hash of what is on the disk in
-- hexadecimal (`none` is an error), whether the pool gives a buffer for it, and `ReadFile`, which
-- fills a buffer of a size from an offset.
pub record Storage (D : Type 0) : Type 0 where
  pub check_sum : D → Text
  pub hash_sum : D → Option Text
  pub pooled : D → Bool
  pub read_file : D → ℕ → ℕ → Option Bytes

-- What reedsolomon offers for some numbers of data and parity blocks; `none` is an error.
pub record Coder : Type 0 where
  pub new_ok : ℕ → ℕ → Bool
  pub reconstruct : ℕ → ℕ → List (Option Bytes) → Option (List (Option Bytes))
  pub verify : ℕ → ℕ → List (Option Bytes) → Option Bool

-- The errors of `erasureReadFile`, and the panic of `getReadDisks`.
pub data ReadError : Type 0 where
  unexpected no_read_quorum decode_failed disk_panic out_of_fuel : ReadError
  write_failed : WriteError → ReadError

-- What is read of a block: the disks that are left and the blocks, or an error.
pub data BlockRead (D : Type 0) : Type 0 where
  enough : List (Option D) → List (Option Bytes) → BlockRead D
  lacking : ReadError → BlockRead D

module _ {D : Type 0} (storage : Storage D) where
  unfoldable pub is_valid_block : Option D → Bool
  is_valid_block none = false
  is_valid_block (some disk) =
      if same (storage.check_sum disk) [] then false else elim (storage.hash_sum disk) [
        | none ↦ false
        | some hash_bytes ↦ same hash_bytes (storage.check_sum disk)
      ]

  -- One goroutine of `parallelRead`; `none` takes the disk out of the ordered disks.
  unfoldable pub read_chunk : ℕ → ℕ → D → Option Bytes
  read_chunk block_offset cur_chunk_size disk =
      if not (is_valid_block (some disk))
      then none
      else if not (storage.pooled disk)
      then none
      else storage.read_file disk block_offset cur_chunk_size

  -- `parallelRead`: the ordered disks and the blocks afterwards. The goroutines write to their own
  -- indices alone.
  unfoldable pub parallel_read :
      ℕ
      → ℕ
      → List (Option D)
      → List (Option D)
      → List (Option Bytes)
      → List (Option D) × List (Option Bytes)
  parallel_read block_offset size (none ∷ read_disks) (o ∷ ordered) (b ∷ en_blocks) =
      let rest = parallel_read block_offset size read_disks ordered en_blocks in
      (o ∷ rest.0, b ∷ rest.1)
  parallel_read block_offset size (some disk ∷ read_disks) (o ∷ ordered) (b ∷ en_blocks) =
      let rest = parallel_read block_offset size read_disks ordered en_blocks in
      elim (read_chunk block_offset size disk) [
        | none ↦ (none ∷ rest.0, b ∷ rest.1)
        | some buf ↦ (o ∷ rest.0, some buf ∷ rest.1)
      ]
  parallel_read block_offset size read_disks ordered en_blocks = (ordered, en_blocks)

  -- The inner loop: more disks are read until the block can be decoded. Every round moves the index
  -- on, so that fuel for one round more than there are disks is enough.
  unfoldable pub read_block :
      ℕ → ℕ → ℕ → ℕ → List (Option D) → List (Option Bytes) → ℕ → BlockRead D
  read_block zero data_blocks block_offset size disks en_blocks next_index = lacking out_of_fuel
  read_block (suc fuel) data_blocks block_offset size disks en_blocks next_index =
      elim (get_read_disks data_blocks disks next_index) [
        | unexpected_error ↦ lacking unexpected
        | read_quorum ↦ lacking no_read_quorum
        | out_of_range ↦ lacking disk_panic
        | picked read_disks next ↦
            let r = parallel_read block_offset size read_disks disks en_blocks in
            let rest = read_block fuel data_blocks block_offset size r.0 r.1 next in
            if is_success_decode_blocks r.1 data_blocks
            then enough r.0 r.1
            else if next == length disks
            then lacking no_read_quorum
            else rest
      ]

module _ (coder : Coder) where
  -- `decodeData`: the blocks afterwards; `none` is an error, the failed verification among them.
  unfoldable pub decode_data : List (Option Bytes) → ℕ → ℕ → Option (List (Option Bytes))
  decode_data en_blocks data_blocks parity_blocks =
      if not (coder.new_ok data_blocks parity_blocks)
      then none
      else elim (coder.reconstruct data_blocks parity_blocks en_blocks) [
        | none ↦ none
        | some blocks ↦ elim (coder.verify data_blocks parity_blocks blocks) [
          | none ↦ none
          | some ok ↦ if ok then some blocks else none
        ]
      ]

  -- The blocks that are written: decoded only where a data block is missing.
  unfoldable pub complete : List (Option Bytes) → ℕ → ℕ → Option (List (Option Bytes))
  complete en_blocks data_blocks parity_blocks =
      if is_success_data_blocks en_blocks data_blocks
      then some en_blocks
      else decode_data en_blocks data_blocks parity_blocks

-- The arguments of one call that stay as they are.
pub record Request : Type 0 where
  pub offset : ℕ
  pub len : ℕ
  pub total_length : ℕ
  pub block_size : ℕ
  pub data_blocks : ℕ
  pub parity_blocks : ℕ

-- How a call ends: with nil, and the disks that are left in the slice of its caller, from which those
-- that failed are taken out, or with an error.
pub data Status (D : Type 0) : Type 0 where
  done : List (Option D) → Status D
  gave_up : ReadError → Status D

-- What was written, the number of bytes, and how the call ends.
pub record ReadResult (D W : Type 0) : Type 0 where
  pub dst : W
  pub bytes_written : ℕ
  pub status : Status D

abbrev pub stopped : {D W : Type 0} → W → ℕ → ReadError → ReadResult D W
stopped dst n e = record { dst = dst; bytes_written = n; status = gave_up e }

abbrev pub finished : {D W : Type 0} → W → ℕ → List (Option D) → ReadResult D W
finished dst n disks = record { dst = dst; bytes_written = n; status = done disks }

module _ (q : Request) where
  abbrev pub start_block : ℕ
  start_block = q.offset / q.block_size

  -- The block that may be shorter than the others.
  abbrev pub is_last : ℕ → Bool
  is_last bytes_written = (q.offset + bytes_written) / q.block_size == q.total_length / q.block_size

  abbrev pub blocks_offset : ℕ → ℕ
  blocks_offset block = if block == start_block then q.offset % q.block_size else 0

  abbrev pub blocks_length : ℕ → ℕ → ℕ → ℕ
  blocks_length block bytes_written cur_block_size =
      if ltb (q.len - bytes_written) (cur_block_size - blocks_offset block)
      then q.len - bytes_written
      else cur_block_size - blocks_offset block

module _ {D W : Type 0} (storage : Storage D) (coder : Coder) (copy : W → Bytes → Option W)
    (q : Request) where
  -- The loop over the blocks, for as many as are left up to the last one of the range.
  unfoldable pub read_blocks : ℕ → ℕ → List (Option D) → ℕ → W → ℕ → ℕ → ReadResult D W
  read_blocks zero block disks bytes_written dst chunk_size block_size =
      finished dst bytes_written disks
  read_blocks (suc left) block disks bytes_written dst chunk_size block_size =
      let cur_block_size =
        if is_last q bytes_written then q.total_length % q.block_size else block_size in
      let cur_chunk_size =
        if is_last q bytes_written
        then get_chunk_size cur_block_size q.data_blocks
        else chunk_size in
      elim (read_block storage (suc (length disks)) q.data_blocks
        (block * get_chunk_size q.block_size q.data_blocks) cur_chunk_size disks
        (replicate (length disks) none) 0) [
          | lacking e ↦ stopped dst bytes_written e
          | enough disks' en_blocks ↦
              elim (complete coder en_blocks q.data_blocks q.parity_blocks) [
                | none ↦ stopped dst bytes_written decode_failed
                | some blocks ↦
                    let w =
                      write_data_blocks copy blocks q.data_blocks (pos (blocks_offset q block))
                        (pos (blocks_length q block bytes_written cur_block_size)) dst in
                    elim w.1 [
                      | failed e ↦ stopped w.0 bytes_written (write_failed e)
                      | wrote n ↦
                          let rest =
                            read_blocks left (block + 1) disks' (bytes_written + n) w.0
                              cur_chunk_size cur_block_size in
                          if bytes_written + n == q.len
                          then finished w.0 (bytes_written + n) disks'
                          else rest
                    ]
              ]
        ]

-- `erasureReadFile`. The offset and the length are below 2^62, so that their sum does not wrap.
unfoldable pub erasure_read_file :
    {D W : Type 0} (storage : Storage D) (coder : Coder) (copy : W → Bytes → Option W)
    → W
    → List (Option D)
    → ℤ
    → ℤ
    → ℕ
    → ℕ
    → ℕ
    → ℕ
    → ReadResult D W
erasure_read_file storage coder copy writer disks (pos offset) (pos len) total_length block_size
      data_blocks parity_blocks =
    let q : Request = record {
      offset = offset;
      len = len;
      total_length = total_length;
      block_size = block_size;
      data_blocks = data_blocks;
      parity_blocks = parity_blocks;
    } in
    if ltb total_length (offset + len)
    then stopped writer 0 unexpected
    else read_blocks storage coder copy q (suc ((offset + len) / block_size) - offset / block_size)
        (offset / block_size) disks 0 writer (get_chunk_size block_size data_blocks) block_size
erasure_read_file storage coder copy writer disks offset len total_length block_size data_blocks
      parity_blocks =
    stopped writer 0 unexpected
