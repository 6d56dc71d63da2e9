-- ===== src/Erasure/Read/Whole.antt =====
-- `erasureReadFile` of cmd/erasure-readfile.go: from its call to the bytes that are written.
use minio.Base.{
  ℕ, ◌+◌, ◌/◌, ◌≤◌, ◌<◌, ◌≡◌, refl, ap₂, ◌∙◌, Bool, true, false, List, ◌++◌, Option, some, arith,
  ltb, length, map, inl, inr,
}
use minio.Base.Int.{pos}
use minio.Erasure.{Bytes}
use minio.Erasure.Disks.{available}
use minio.Erasure.Blocks.{range, append_to}
use minio.Erasure.Read.Steady.{Part, keep}
use minio.Erasure.Read.Decoding.{Codes}
use minio.Erasure.Read.Slices.{div_le}
use minio.Erasure.Read.Range.{chunk_at, Serves, Reads, read_blocks-Reads}
use minio.Erasure.Read.{Storage, Coder, Request, finished, erasure_read_file}

module _ {D : Type 0} (storage : Storage D) (coder : Coder) (q : Request) (file : Bytes)
    (shards : Bytes → List Bytes) (codes : Codes coder q.data_blocks q.parity_blocks shards)
    (full : length file ≡ q.total_length) (some_size : 0 < q.block_size)
    (some_data : 0 < q.data_blocks) (some_len : 0 < q.len)
    (within : q.offset + q.len ≤ q.total_length) (steady : D → Bool)
    (serving : (disk : D) (k : ℕ)
      → steady disk ≡ true
      → k ≤ q.total_length / q.block_size
      → (b : Bytes) × (chunk_at storage q file shards k (some disk) ≡ some b)) where
  -- Blocks have a size, there are data blocks, the range holds a byte and lies in the file, which
  -- has the total length, and reedsolomon keeps the laws of Codes. Then, if all that the disks
  -- give of a block are its shards, a call writes exactly the bytes of the range and succeeds, or
  -- it writes a first part of them, reports their number and fails with the read quorum; and this
  -- only where fewer disks than there are data blocks give every chunk.
  pub erasure_read_file-range :
      (disks : List (Option D)) (dst : Bytes)
      → Serves storage q file shards disks
      → Reads storage q file shards steady 0 disks dst (
          erasure_read_file storage coder append_to dst disks
            (pos q.offset)
            (pos q.len)
            q.total_length
            q.block_size
            q.data_blocks
            q.parity_blocks)
  unfolding erasure_read_file
  erasure_read_file-range disks dst serves =
      let fits : ltb q.total_length (q.offset + q.len) ≡ false = ground arith in
      let below = div_le q.block_size q.offset (q.offset + q.len) some_size (omega arith) in
      rw fits (
        read_blocks-Reads storage coder q file shards codes full some_size some_data within steady
          serving _ (q.offset / q.block_size) 0 disks dst (inl (refl, refl)) some_len
          (omega (arith, below)) serves)

  -- Under the same conditions, if at least as many disks as there are data blocks give every
  -- chunk, the call succeeds with the whole range, whatever the other disks do, as long as all
  -- that they give are shards; and of the disks it leaves its caller at least those that give
  -- every chunk.
  pub erasure_read_file-succeeds :
      (disks : List (Option D)) (dst : Bytes)
      → Serves storage q file shards disks
      → q.data_blocks ≤ available (map (keep storage steady) disks)
      → (left : List (Option D)) × (erasure_read_file storage coder append_to dst disks
            (pos q.offset)
            (pos q.len)
            q.total_length
            q.block_size
            q.data_blocks
            q.parity_blocks
          ≡ finished (dst ++ range q.offset q.len file) q.len left)
        × (map (keep storage steady) left ≡ map (keep storage steady) disks)
        × Part left disks
  erasure_read_file-succeeds disks dst serves many =
      elim (erasure_read_file-range disks dst serves) [
        | inl (left, e, k, part) ↦ (
          left,
          e ∙ ap₂ (λ o n. finished (dst ++ range o n file) q.len left) (omega arith) (omega arith),
          k,
          part,
        )
        | inr (n, e, m, few) ↦ absurd (omega arith)
      ]
