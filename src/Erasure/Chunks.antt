-- ===== src/Erasure/Chunks.antt =====
-- The geometry of an erasure-coded file: cmd/erasure-utils.go and cmd/xl-v1-common.go.
use minio.Base.{
  ℕ, ◌+◌, ◌-◌, ◌*◌, ◌/◌, ◌%◌, ◌≤◌, ◌<◌, ltb, Bool-cases, inl, inr, arith, if◌then◌else◌,
}
use native.Mathlib.Nat.{mul-le-mul_left, div-add-mod'}
use minio.Erasure.{get_chunk_size, size_on_disk}

-- A chunk is large enough for the block to fit into its data chunks, and no chunk byte is wasted
-- beyond the padding of one stripe: one chunk byte less would not do.
pub get_chunk_size_bounds :
    (block_size data_blocks : ℕ)
    → 0 < data_blocks
    → (block_size ≤ get_chunk_size block_size data_blocks * data_blocks)
      × (get_chunk_size block_size data_blocks * data_blocks < block_size + data_blocks)
unfolding get_chunk_size
get_chunk_size_bounds b d h = (grind arith, grind arith)

last_chunk_bounds :
    (r d : ℕ)
    → 0 < d
    → (r ≤ (if ltb 0 r then get_chunk_size r d else 0) * d)
      × ((if ltb 0 r then get_chunk_size r d else 0) * d < r + d)
last_chunk_bounds r d h =
    let c = get_chunk_size_bounds r d h in
    elim (Bool-cases (ltb 0 r)) [ inl p ↦ rw p c | inr p ↦ rw p (ground arith, omega arith) ]

-- `q` stripes of `c` bytes a disk and one of `e`, on `d` disks.
stripes :
    (q b r c e d slack : ℕ)
    → b ≤ c * d
    → c * d ≤ b + slack
    → r ≤ e * d
    → e * d ≤ r + slack
    → (q * b + r ≤ (q * c + e) * d) × ((q * c + e) * d ≤ q * b + r + (q + 1) * slack)
stripes q b r c e d slack h k m n =
    (omega (arith, mul-le-mul_left q h), omega (arith, mul-le-mul_left q k))

-- The data disks together hold the whole file, with at most `data_blocks - 1` bytes of padding for
-- each full block and for the last one.
pub size_on_disk_bounds :
    (file_size block_size data_blocks : ℕ)
    → 0 < data_blocks
    → 0 < block_size
    → (file_size ≤ size_on_disk file_size block_size data_blocks * data_blocks)
      × (size_on_disk file_size block_size data_blocks * data_blocks
          ≤ file_size + (file_size / block_size + 1) * (data_blocks - 1))
unfolding size_on_disk
size_on_disk_bounds f b d hd hb =
    let c = get_chunk_size_bounds b d hd in
    let r = last_chunk_bounds (f % b) d hd in
    let t =
      stripes (f / b) b (f % b) (get_chunk_size b d)
        (if ltb 0 (f % b) then get_chunk_size (f % b) d else 0) d (d - 1) c.0 (omega (arith, c.1))
        r.0 (omega (arith, r.1)) in
    (omega (arith, t.0, div-add-mod' f b), omega (arith, t.1, div-add-mod' f b))
