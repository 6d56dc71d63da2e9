-- ===== src/Erasure/RoundTrip/WriteRead.antt =====
-- `erasureCreateFile` of cmd/erasure-createfile.go, then `erasureReadFile` of cmd/erasure-readfile.go.
use mathlib.Core.Path.{subst}
use minio.Base.{
  ℕ, ◌+◌, ◌*◌, ◌/◌, ◌≤◌, ◌<◌, ◌≡◌, sym, ◌∙◌, List, ◌++◌, Option, none, some, arith, length, map,
  All,
}
use minio.Base.Int.{pos}
use minio.Base.Text.{Text}
use minio.Quorum.Majority.{IsShuffle}
use minio.Erasure.{Bytes, get_chunk_size}
use minio.Erasure.Disks.{available}
use minio.Erasure.Blocks.{range, append_to}
use minio.Erasure.Create.{at_eof, Files, Created, Environment, encode_data, erasure_create_file}
use minio.Erasure.Create.Hashes.{Matches, Fresh}
use minio.Erasure.Create.Stored.{created_files}
use minio.Erasure.Read.{Coder, Request, finished, erasure_read_file}
use minio.Erasure.Read.Lists.{Agrees}
use minio.Erasure.Read.Slices.{block_of, parts}
use minio.Erasure.Read.Decoding.{Codes}
use minio.Erasure.Read.Range.{Serves}
use minio.Erasure.Read.Whole.{erasure_read_file-succeeds}
use minio.Erasure.Shards.{
  Sizes, shard_files, shard_files-Fills, length-shard_files_of, map-range-shard_files_of,
}
use minio.Erasure.RoundTrip.{
  storage_of, intact, Survive, Survive-Agrees, chunks_of-intact, sound, sound-served,
  available-sound, given, given-Agrees, members,
}

module _ (sum : Bytes → Text) (coder : Coder) (q : Request) (stream : Bytes)
    (shards : Bytes → List Bytes) (codes : Codes coder q.data_blocks q.parity_blocks shards)
    (sizes : Sizes shards q.data_blocks (q.data_blocks + q.parity_blocks))
    (full : length stream ≡ q.total_length) (some_size : 0 < q.block_size)
    (some_data : 0 < q.data_blocks) where
  -- The files of all disks.
  abbrev whole : List Bytes
  whole = shard_files shards q.block_size (q.data_blocks + q.parity_blocks) stream

  -- At the place of a block they hold its shards.
  chunks_of_whole :
      (k : ℕ)
      → k ≤ q.total_length / q.block_size
      → map
          (range
            (k * get_chunk_size q.block_size q.data_blocks)
            (get_chunk_size (length (block_of q.block_size stream k)) q.data_blocks))
          whole
        ≡ shards (block_of q.block_size stream k)
  chunks_of_whole k h =
      let p = parts q.block_size q.total_length some_size in
      let m : k * q.block_size ≤ q.total_length / q.block_size * q.block_size = grind arith in
      map-range-shard_files_of shards q.block_size (q.data_blocks + q.parity_blocks) q.data_blocks
        some_data sizes (get_chunk_size (length stream) q.block_size) k stream some_size
        (shard_files-Fills shards q.block_size (q.data_blocks + q.parity_blocks) stream some_size)
        (omega arith)

  module _ (some_len : 0 < q.len) (within : q.offset + q.len ≤ q.total_length) where
    -- Disks whose files, where they pass their checksum, are those of the stream.
    read_from_intact :
        (disks : List (Option (Bytes × Text))) (dst : Bytes)
        → Agrees (map (intact sum) disks) whole
        → q.data_blocks ≤ available (map (intact sum) disks)
        → (left : List (Option (Bytes × Text))) × (erasure_read_file
              (storage_of sum)
              coder
              append_to
              dst
              disks
              (pos q.offset)
              (pos q.len)
              q.total_length
              q.block_size
              q.data_blocks
              q.parity_blocks
            ≡ finished (dst ++ range q.offset q.len stream) q.len left)
    read_from_intact disks dst agrees enough =
        let sized : (k : ℕ)
            → k ≤ q.total_length / q.block_size
            → All
                (λ s.
                  length s ≡ get_chunk_size (length (block_of q.block_size stream k)) q.data_blocks)
                (map
                  (range (k * get_chunk_size q.block_size q.data_blocks)
                    (get_chunk_size (length (block_of q.block_size stream k)) q.data_blocks))
                  whole) =
          λ k h. rw (chunks_of_whole k h) (sizes.size (block_of q.block_size stream k)) in
        let serves : Serves (storage_of sum) q stream shards disks = λ k h.
          let o = k * get_chunk_size q.block_size q.data_blocks in
          let n = get_chunk_size (length (block_of q.block_size stream k)) q.data_blocks in
          subst (λ l. Agrees l (shards (block_of q.block_size stream k)))
            (sym (chunks_of-intact sum o n disks))
            (subst (Agrees (map (given o n) (map (intact sum) disks))) (chunks_of_whole k h)
              (given-Agrees o n (map (intact sum) disks) whole agrees (sized k h)).0) in
        let (left, e, _, _) =
          erasure_read_file-succeeds (storage_of sum) coder q stream shards codes full some_size
            some_data some_len within (sound sum whole)
            (λ disk k t h.
              sound-served sum whole (k * get_chunk_size q.block_size q.data_blocks)
                (get_chunk_size (length (block_of q.block_size stream k)) q.data_blocks) disk
                (sized k h) t)
            disks dst serves
            (omega (
              arith,
              available-sound sum whole whole disks (members whole whole (λ w t. t)) agrees,
            )) in
        (left, e)

    -- Let blocks have a size and there be data blocks, reedsolomon keep its laws and encodeData give the
    -- shards of every block, each of the size of a chunk; let every append succeed on files that begin
    -- empty, one for each shard, with a write quorum of more than half of them and at most all, and the
    -- order of a map keep its entries. A stream was then written with erasureCreateFile. Whatever
    -- happens to the disks, as long as no file changes into another one with the same checksum, and as
    -- many disks as there are data blocks still hold a file that passes its checksum: erasureReadFile
    -- gives back exactly any range of at least a byte of the stream.
    pub erasure_read_file-erasure_create_file :
        {E : Type 0} (env : Environment E) (quorum : ℕ) (files : Files) (created : Created E)
        (disks : List (Option (Bytes × Text))) (dst : Bytes)
        → ((b : Bytes) → 0 < length b → encode_data env b ≡ some (shards b))
        → ((i : ℕ) (f b : Bytes) → env.append_fails i f b ≡ none)
        → IsShuffle env.same_error env.shuffle
        → q.data_blocks + q.parity_blocks < quorum + quorum
        → quorum ≤ q.data_blocks + q.parity_blocks
        → length files ≡ q.data_blocks + q.parity_blocks
        → Fresh files
        → erasure_create_file env files stream at_eof q.block_size quorum ≡ some created
        → Survive sum disks created.files created.hashed
        → q.data_blocks ≤ available (map (intact sum) disks)
        → (left : List (Option (Bytes × Text))) × (erasure_read_file
              (storage_of sum)
              coder
              append_to
              dst
              disks
              (pos q.offset)
              (pos q.len)
              q.total_length
              q.block_size
              q.data_blocks
              q.parity_blocks
            ≡ finished (dst ++ range q.offset q.len stream) q.len left)
    erasure_read_file-erasure_create_file env quorum files created disks dst encodes lasting fair
          most all count fresh done survive enough =
        let n = q.data_blocks + q.parity_blocks in
        let (grown, hashes) =
          created_files env lasting fair n quorum most all shards q.data_blocks q.block_size
            some_data sizes some_size encodes files stream created count fresh done in
        read_from_intact disks dst
          (Survive-Agrees sum disks files whole created.hashed
            (subst (λ fs. Survive sum disks fs created.hashed) grown survive)
            (subst (λ fs. Matches fs created.hashed) grown hashes) fresh
            (length-shard_files_of shards q.block_size n q.data_blocks some_data sizes
                (get_chunk_size (length stream) q.block_size) stream
              ∙ sym count))
          enough
