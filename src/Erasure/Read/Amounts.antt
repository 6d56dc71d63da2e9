-- ===== src/Erasure/Read/Amounts.antt =====
-- The blocks of a file that `erasureReadFile` goes through and how many bytes of each are written, in cmd/erasure-readfile.go.
use minio.Base.{
  ℕ, ◌+◌, ◌-◌, ◌*◌, ◌/◌, ◌%◌, ◌≤◌, ◌<◌, ◌≡◌, ◌⊎◌, ap, ap₂, ◌∙◌, List, ◌++◌, Option, arith, ltb,
  ◌==◌, if◌then◌else◌, length, take, drop, inl, inr, Bool-cases, length-append, length-take,
  length-drop,
}
use minio.Base.Int.{pos}
use minio.Erasure.{Bytes, get_chunk_size, get_data_block_len, sum_lengths, wrote, write_data_blocks}
use minio.Erasure.Blocks.{joined, range, append_to, write_data_blocks-range}
use minio.Erasure.Read.{Request, start_block, is_last, blocks_offset, blocks_length}
use minio.Erasure.Read.Slices.{
  range-append, sum_lengths-joined, block_of, range-block_of, quotient, parts, next_multiple,
  suc_multiple, div_le,
}

le_cases : (a b : ℕ) → a ≤ b → (a ≡ b) ⊎ (a < b)
le_cases a b h = omega arith

module _ (q : Request) (file : Bytes) where
  abbrev pub chunk_size : ℕ
  chunk_size = get_chunk_size q.block_size q.data_blocks

  abbrev pub block : ℕ → Bytes
  block k = block_of q.block_size file k

  abbrev pub chunk_len : ℕ → ℕ
  chunk_len k = get_chunk_size (length (block k)) q.data_blocks

  -- The block that is read next holds the next byte to be written.
  abbrev pub Entry : ℕ → ℕ → Type 0
  Entry k bw =
      ((k ≡ start_block q) × (bw ≡ 0)) ⊎ ((start_block q < k) × (q.offset + bw ≡ k * q.block_size))

  abbrev pub amount : ℕ → ℕ → ℕ
  amount k bw = blocks_length q k bw (length (block k))

  -- The bytes of a block that are written: they are there, and they are the last ones asked for, or
  -- the block is a full one and the next block follows.
  abbrev pub Amount : ℕ → ℕ → ℕ → Type 0
  Amount k bw n =
      (q.offset + bw - k * q.block_size + n ≤ length (block k))
      × (n ≤ q.len - bw)
      × ((bw + n ≡ q.len)
          ⊎ ((bw + n < q.len)
              × Entry (k + 1) (bw + n)
              × (k < q.total_length / q.block_size)
              × (length (block k) ≡ q.block_size)))

  module _ (full : length file ≡ q.total_length) (some_size : 0 < q.block_size)
      (within : q.offset + q.len ≤ q.total_length) where
    pub length-block :
        (k : ℕ)
        → k ≤ q.total_length / q.block_size
        → length (block k) ≡ (
            if k == q.total_length / q.block_size
            then q.total_length % q.block_size
            else q.block_size)
    length-block k h =
        let bs = q.block_size in
        let p = parts bs q.total_length some_size in
        let t = length-take bs (drop (k * bs) file) in
        let d = length-drop (k * bs) file in
        elim (Bool-cases (k == q.total_length / bs)) [
          | inl e ↦
              let e' : k ≡ q.total_length / bs = ground arith in
              let m = ap (λ n. n * bs) e' in rw e (ground (arith, full))
          | inr e ↦
              let m = next_multiple bs k (q.total_length / bs) (ground arith) in
              rw e (ground (arith, full))
        ]

    pub Entry-bounds :
        (k bw : ℕ)
        → Entry k bw
        → (k * q.block_size ≤ q.offset + bw)
          × (q.offset + bw < k * q.block_size + q.block_size)
          × (blocks_offset q k ≡ q.offset + bw - k * q.block_size)
    Entry-bounds k bw (inl (e, z)) =
        let p = parts q.block_size q.offset some_size in
        let m = ap (λ n. n * q.block_size) e in (omega arith, omega arith, ground (arith, p, m))
    Entry-bounds k bw (inr (h, e)) = (omega arith, omega arith, ground arith)

    -- What the loop makes of a block: its size, and how many bytes of it are written.
    pub block_facts :
        (k bw : ℕ)
        → Entry k bw
        → k ≤ q.total_length / q.block_size
        → (is_last q bw ≡ (k == q.total_length / q.block_size))
          × (q.offset + bw - k * q.block_size + (q.len - bw) ≤ length (block k)
              ⊎ ((k < q.total_length / q.block_size) × (length (block k) ≡ q.block_size)))
    block_facts k bw e h =
        let b = Entry-bounds k bw e in
        let j = quotient q.block_size (q.offset + bw) k b.0 b.1 in
        let l = length-block k h in
        let p = parts q.block_size q.total_length some_size in
        (
          ap (λ n. n == q.total_length / q.block_size) j,
          elim (Bool-cases (k == q.total_length / q.block_size)) [
            | inl t ↦
                let e' : k ≡ q.total_length / q.block_size = ground arith in
                let m = ap (λ n. n * q.block_size) e' in inl (ground (arith, p, m, l))
            | inr t ↦ inr (ground arith, ground (arith, l))
          ],
        )

    pub blocks_length-Amount :
        (k bw : ℕ)
        → Entry k bw
        → k ≤ q.total_length / q.block_size
        → bw < q.len
        → Amount k bw (amount k bw)
    blocks_length-Amount k bw e h w =
        let (low, high, off) = Entry-bounds k bw e in
        let o = q.offset + bw - k * q.block_size in
        let facts = (block_facts k bw e h).1 in
        let m = suc_multiple q.block_size k in
        let start = div_le q.block_size q.offset (q.offset + bw) some_size (omega arith) in
        let here = quotient q.block_size (q.offset + bw) k low high in
        rw off (elim (Bool-cases (ltb (q.len - bw) (length (block k) - o))) [
          | inl t ↦
              let less : q.len - bw < length (block k) - o = ground arith in
              rw t (omega (arith, less), omega arith, inl (omega arith))
          | inr t ↦
              let rest : length (block k) - o ≤ q.len - bw = ground arith in
              elim facts [
                | inl all ↦ rw t (omega (arith, all), rest, inl (omega (arith, all, rest, w)))
                | inr (before, whole) ↦
                    let room : o < length (block k) = omega (arith, whole, high, low) in
                    rw t (
                      omega (arith, room),
                      rest,
                      elim (le_cases (length (block k) - o) (q.len - bw) rest) [
                        | inl all ↦ inl (omega (arith, all, w))
                        | inr less ↦ inr (
                          omega (arith, less),
                          inr (omega (arith, start, here), omega (arith, m, whole, room, low)),
                          before,
                          whole,
                        )
                      ],
                    )
              ]
        ])

    -- The bytes of the block are those of the range.
    pub write_data_blocks-block :
        (k bw : ℕ) (blocks : List (Option Bytes)) (dst padding : Bytes)
        → Entry k bw
        → k ≤ q.total_length / q.block_size
        → bw < q.len
        → q.data_blocks ≤ length blocks
        → joined (take q.data_blocks blocks) ≡ block k ++ padding
        → write_data_blocks append_to blocks q.data_blocks
            (pos (blocks_offset q k))
            (pos (amount k bw))
            dst
          ≡ (dst ++ range (q.offset + bw) (amount k bw) file, wrote (amount k bw))
    unfolding get_data_block_len
    write_data_blocks-block k bw blocks dst padding e h w there whole =
        let n = amount k bw in
        let o = q.offset + bw - k * q.block_size in
        let (low, high, off) = Entry-bounds k bw e in
        let (inside, asked, then') = blocks_length-Amount k bw e h w in
        let short = length-take q.block_size (drop (k * q.block_size) file) in
        let same_bytes : range (blocks_offset q k) n (joined (take q.data_blocks blocks))
            ≡ range (q.offset + bw) n file =
          ap₂ (λ x y. range x n y) off whole
          ∙ (range-append o n (block k) padding inside
              ∙ (range-block_of q.block_size k o n file (omega (arith, inside, short))
                  ∙ ap (λ x. range x n file) (omega (arith, low)))) in
        let size : length (range (q.offset + bw) n file) ≡ n = omega (
          arith,
          length-take n (drop (q.offset + bw) file),
          length-drop (q.offset + bw) file,
          asked,
          w,
        ) in
        let enough_data : n ≤ sum_lengths (take q.data_blocks blocks) = omega (
          arith,
          sum_lengths-joined (take q.data_blocks blocks),
          ap length whole,
          length-append (block k) padding,
          inside,
        ) in
        write_data_blocks-range blocks q.data_blocks (blocks_offset q k) n dst there enough_data
        ∙ ap₂ (λ x y. (dst ++ x, wrote y)) same_bytes (ap length same_bytes ∙ size)
