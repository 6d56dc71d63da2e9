-- ===== src/Erasure/Read/Range.antt =====
-- The loop of `erasureReadFile` over the blocks of a file, in cmd/erasure-readfile.go.
use mathlib.Core.List.{append-nil}
use mathlib.Core.Path.{subst}
use minio.Base.{
  ℕ, zero, suc, ◌+◌, ◌-◌, ◌*◌, ◌/◌, ◌%◌, ◌≤◌, ◌<◌, ◌≡◌, ◌⊎◌, sym, ap, ap₂, ◌∙◌, Bool, true, false,
  List, [], ◌++◌, Option, none, some, arith, ◌==◌, if◌then◌else◌, length, drop, replicate, map, inl,
  inr, Bool-cases, length-take, length-drop,
}
use minio.Base.Int.{pos}
use minio.Erasure.{Bytes, get_chunk_size, Written, wrote, failed, write_data_blocks}
use minio.Erasure.Disks.{available, available-nones}
use minio.Erasure.Blocks.{range, append_to}
use minio.Erasure.Read.Lists.{available-append, Agrees, Agrees-cut, map-append, length-map}
use minio.Erasure.Read.Picks.{nones}
use minio.Erasure.Read.Chunks.{chunk_of, BlockOutcome, read_block-BlockOutcome}
use minio.Erasure.Read.Steady.{
  Part, Part-trans, alive-Part, keep, map-keep-left, available-keep, Agrees-alive,
}
use minio.Erasure.Read.Decoding.{Codes, complete-joined}
use minio.Erasure.Read.{
  Storage, Coder, Request, ReadResult, stopped, finished, BlockRead, enough, lacking,
  no_read_quorum, decode_failed, write_failed, read_block, complete, read_blocks, blocks_offset,
  blocks_length,
}
use minio.Erasure.Read.Amounts.{
  chunk_size, block, chunk_len, Entry, amount, length-block, Entry-bounds, block_facts,
  blocks_length-Amount, write_data_blocks-block,
}
use minio.Erasure.Read.Slices.{range-range, quotient, parts, suc_multiple, div_le}

module _ {D : Type 0} (storage : Storage D) (q : Request) (file : Bytes)
    (shards : Bytes → List Bytes) where
  -- What one disk gives for a block of the file.
  abbrev pub chunk_at : ℕ → Option D → Option Bytes
  chunk_at k = chunk_of storage (k * chunk_size q file) (chunk_len q file k)

  -- Whatever the disks give of a block is its shard at their place.
  abbrev pub Serves : List (Option D) → Type 0
  Serves disks =
      (k : ℕ)
      → k ≤ q.total_length / q.block_size
      → Agrees (map (chunk_at k) disks) (shards (block q file k))

  -- The loop writes the rest of the range, or stops for lack of steady disks with a part of it.
  abbrev pub Reads : (D → Bool) → ℕ → List (Option D) → Bytes → ReadResult D Bytes → Type 0
  Reads steady bw disks dst r =
      ((left : List (Option D)) × (r
          ≡ finished (dst ++ range (q.offset + bw) (q.len - bw) file) q.len left)
        × (map (keep storage steady) left ≡ map (keep storage steady) disks)
        × Part left disks)
      ⊎ ((n : ℕ) × (r ≡ stopped (dst ++ range (q.offset + bw) n file) (bw + n) no_read_quorum)
          × (n ≤ q.len - bw)
          × (available (map (keep storage steady) disks) < q.data_blocks))

module _ {D : Type 0} (storage : Storage D) (coder : Coder) (q : Request) (file : Bytes)
    (shards : Bytes → List Bytes) (codes : Codes coder q.data_blocks q.parity_blocks shards)
    (full : length file ≡ q.total_length) (some_size : 0 < q.block_size)
    (some_data : 0 < q.data_blocks) (within : q.offset + q.len ≤ q.total_length) (steady : D → Bool)
    (serving : (disk : D) (k : ℕ)
      → steady disk ≡ true
      → k ≤ q.total_length / q.block_size
      → (b : Bytes) × (chunk_at storage q file shards k (some disk) ≡ some b)) where
  -- What the loop does after a block was written, with the blocks to write, and with what was read.
  abbrev go_on : ℕ → ℕ → ℕ → ℕ → ℕ → List (Option D) → Bytes × Written → ReadResult D Bytes
  go_on left k bw size chunk disks' w = elim w.1 [
    | failed e ↦ stopped w.0 bw (write_failed e)
    | wrote n ↦
        let rest =
          read_blocks storage coder append_to q left (k + 1) disks' (bw + n) w.0 chunk size in
        if bw + n == q.len then finished w.0 (bw + n) disks' else rest
  ]

  abbrev put :
      ℕ
      → ℕ
      → ℕ
      → Bytes
      → ℕ
      → ℕ
      → List (Option D)
      → Option (List (Option Bytes))
      → ReadResult D Bytes
  put left k bw dst size chunk disks' none = stopped dst bw decode_failed
  put left k bw dst size chunk disks' (some blocks) = go_on left k bw size chunk disks' (
      write_data_blocks append_to blocks q.data_blocks (pos (blocks_offset q k))
        (pos (blocks_length q k bw size)) dst)

  abbrev after : ℕ → ℕ → ℕ → Bytes → ℕ → ℕ → BlockRead D → ReadResult D Bytes
  after left k bw dst size chunk (lacking e) = stopped dst bw e
  after left k bw dst size chunk (enough disks' en_blocks) =
      put left k bw dst size chunk disks' (complete coder en_blocks q.data_blocks q.parity_blocks)

  -- One round of the loop, at the sizes that the block has.
  read_blocks-after :
      (left k bw : ℕ) (disks : List (Option D)) (dst : Bytes)
      → Entry q file k bw
      → k ≤ q.total_length / q.block_size
      → read_blocks storage coder append_to q
          (suc left)
          k
          disks
          bw
          dst
          (chunk_size q file)
          q.block_size
        ≡ after left k bw dst (length (block q file k)) (chunk_len q file k) (
            read_block storage
              (suc (length disks))
              q.data_blocks
              (k * chunk_size q file)
              (chunk_len q file k)
              disks
              (replicate (length disks) none)
              0)
  unfolding read_blocks
  read_blocks-after left k bw disks dst e h =
      let f = (block_facts q file full some_size within k bw e h).0 in
      let l = length-block q file full some_size within k h in
      let round : ℕ → ℕ → ReadResult D Bytes = λ size chunk. after left k bw dst size chunk (
        read_block storage (suc (length disks)) q.data_blocks (k * chunk_size q file) chunk disks
          (replicate (length disks) none) 0) in
      let at_end : Bool → ReadResult D Bytes = λ last.
        let size = if last then q.total_length % q.block_size else q.block_size in
        round size (if last then get_chunk_size size q.data_blocks else chunk_size q file) in
      elim (Bool-cases (k == q.total_length / q.block_size)) [
        | inl t ↦
            let size = rw t at l in
            ap at_end (f ∙ t) ∙ ap (λ n. round n (get_chunk_size n q.data_blocks)) (sym size)
        | inr t ↦
            let size = rw t at l in
            ap at_end (f ∙ t) ∙ ap (λ n. round n (get_chunk_size n q.data_blocks)) (sym size)
      ]

  range_after :
      (bw n m : ℕ) (dst : Bytes)
      → (dst ++ range (q.offset + bw) n file) ++ range (q.offset + (bw + n)) m file
        ≡ dst ++ range (q.offset + bw) (n + m) file
  range_after bw n m dst =
      ap (λ o. (dst ++ range (q.offset + bw) n file) ++ range o m file) (omega arith)
      ∙ range-range dst (q.offset + bw) n m file

  -- What is read after some bytes of the range is the rest of the range.
  Reads-add :
      (bw n : ℕ) (disks disks' : List (Option D)) (dst : Bytes) (r : ReadResult D Bytes)
      → n ≤ q.len - bw
      → map (keep storage steady) disks' ≡ map (keep storage steady) disks
      → Part disks' disks
      → Reads storage q file shards steady (bw + n) disks' (dst ++ range (q.offset + bw) n file) r
      → Reads storage q file shards steady bw disks dst r
  Reads-add bw n disks disks' dst r h still some_left (inl (left, e, same_keep, part)) = inl (
    left,
    e
        ∙ ap (λ x. finished x q.len left)
            (range_after bw n (q.len - (bw + n)) dst
              ∙ ap (λ m. dst ++ range (q.offset + bw) m file) (omega arith)),
    same_keep ∙ still,
    Part-trans left disks' disks part some_left,
  )
  Reads-add bw n disks disks' dst r h still some_left (inr (m, e, k, few)) = inr (
    n + m,
    e ∙ ap₂ (λ x l. stopped x l no_read_quorum) (range_after bw n m dst) (omega arith),
    omega arith,
    subst (λ m. m < q.data_blocks) (ap available still) few,
  )

  pub read_blocks-Reads :
      (left k bw : ℕ) (disks : List (Option D)) (dst : Bytes)
      → Entry q file k bw
      → bw < q.len
      → left + k ≡ suc ((q.offset + q.len) / q.block_size)
      → Serves storage q file shards disks
      → Reads storage q file shards steady bw disks dst (
          read_blocks storage coder append_to q left k disks bw dst
            (chunk_size q file)
            q.block_size)
  read_blocks-Reads zero k bw disks dst e w c s =
      let p = parts q.block_size (q.offset + q.len) some_size in
      let m = suc_multiple q.block_size ((q.offset + q.len) / q.block_size) in
      let k' = ap (λ n. n * q.block_size) c in
      absurd (omega (arith, Entry-bounds q file full some_size within k bw e, p, m, k'))
  read_blocks-Reads (suc left) k bw disks dst e w c s =
      let inside = Entry-bounds q file full some_size within k bw e in
      let k' = quotient q.block_size (q.offset + bw) k inside.0 inside.1 in
      let h : k ≤ q.total_length / q.block_size =
        omega
          (arith, k', div_le q.block_size (q.offset + bw) q.total_length some_size (omega arith)) in
      rw (read_blocks-after left k bw disks dst e h) (
        elim (read_block storage (suc (length disks)) q.data_blocks (k * chunk_size q file)
              (chunk_len q file k) disks (replicate (length disks) none) 0)
            as (λ r.
              BlockOutcome storage (k * chunk_size q file) (chunk_len q file k) q.data_blocks disks
                r
              → Reads storage q file shards steady bw disks dst
                  (after left k bw dst (length (block q file k)) (chunk_len q file k) r)) [
                    | lacking e ↦ λ (e', few). inr (
                      0,
                      ap (stopped dst bw) e'
                          ∙ (ap (λ x. stopped x bw no_read_quorum) (sym (append-nil dst))
                              ∙ ap (λ n. stopped (dst ++ []) n no_read_quorum) (omega arith)),
                      omega arith,
                      omega (
                        arith,
                        few,
                        available-keep storage steady (k * chunk_size q file) (chunk_len q file k)
                            (λ disk t. serving disk k t h) disks,
                      ),
                    )
                    | enough disks' en ↦ λ (a, b, f, g, chunks, there).
                        let short = length-take q.block_size (drop (k * q.block_size) file) in
                        let few_bytes : 0 < length (block q file k) =
                          omega (arith, short, length-drop (k * q.block_size) file, full, inside) in
                        let agrees : Agrees en (shards (block q file k)) =
                          rw (chunks, ← length-map (chunk_at storage q file shards k) b)
                            (Agrees-cut (map (chunk_at storage q file shards k) a)
                              (map (chunk_at storage q file shards k) b) (shards (block q file k))
                              (rw (← map-append (chunk_at storage q file shards k) a b, ← f)
                                (s k h))) in
                        let (blocks, e1, many, e2) =
                          complete-joined coder q.data_blocks q.parity_blocks shards
                            (block q file k) en codes few_bytes agrees
                            (omega (
                              arith,
                              there,
                              ap available chunks,
                              available-append (map (chunk_at storage q file shards k) a) (nones b),
                              available-nones Bytes (length b),
                            )) in
                        let written =
                          write_data_blocks-block q file full some_size within k bw blocks dst
                            (codes.padding (block q file k)) e h w many e2 in
                        let n = amount q file k bw in
                        let whole : after left k bw dst (length (block q file k))
                              (chunk_len q file k) (enough disks' en)
                            ≡ go_on left k bw (length (block q file k)) (chunk_len q file k) disks'
                                (dst ++ range (q.offset + bw) n file, wrote n) =
                          ap
                            (put left k bw dst (length (block q file k)) (chunk_len q file k)
                              disks')
                            e1
                          ∙ ap
                              (go_on left k bw (length (block q file k)) (chunk_len q file k)
                                disks')
                              written in
                        let (_, asked, next) =
                          blocks_length-Amount q file full some_size within k bw e h w in
                        let still : map (keep storage steady) disks'
                            ≡ map (keep storage steady) disks =
                          ap (map (keep storage steady)) g
                          ∙ (map-keep-left storage steady (k * chunk_size q file)
                                (chunk_len q file k) (λ disk t. serving disk k t h) a b
                              ∙ ap (map (keep storage steady)) (sym f)) in
                        let some_left : Part disks' disks = subst (Part disks') (sym f) (
                          subst (λ x. Part x (a ++ b)) (sym g)
                            (alive-Part storage steady (k * chunk_size q file) (chunk_len q file k)
                              a b)) in
                        subst (Reads storage q file shards steady bw disks dst) (sym whole)
                          (elim next [
                            | inl all ↦
                                let t : (bw + n == q.len) ≡ true = ground arith in
                                inl (
                                  disks',
                                  rw t (
                                      ap₂
                                        (λ m l.
                                          finished (dst ++ range (q.offset + bw) m file) l disks')
                                        (omega arith) all),
                                  still,
                                  some_left,
                                )
                            | inr (more, e', kl, full_block) ↦
                                let t : (bw + n == q.len) ≡ false = ground arith in
                                let ih =
                                  read_blocks-Reads left (k + 1) (bw + n) disks'
                                    (dst ++ range (q.offset + bw) n file) e' more (omega arith)
                                    (λ j hj.
                                      subst
                                        (λ x.
                                          Agrees (map (chunk_at storage q file shards j) x)
                                            (shards (block q file j)))
                                        (sym g)
                                        (Agrees-alive storage steady (k * chunk_size q file)
                                          (chunk_len q file k) (j * chunk_size q file)
                                          (chunk_len q file j) a b (shards (block q file j))
                                          (subst
                                            (λ x.
                                              Agrees (map (chunk_at storage q file shards j) x)
                                                (shards (block q file j)))
                                            f (s j hj)))) in
                                rw t (
                                  subst
                                    (λ size. Reads storage q file shards steady bw disks dst (
                                      read_blocks storage coder append_to q left (k + 1) disks'
                                        (bw + n) (dst ++ range (q.offset + bw) n file)
                                        (get_chunk_size size q.data_blocks) size))
                                    (sym full_block)
                                    (Reads-add bw n disks disks' dst _ asked still some_left ih))
                          ])
                  ]
          (read_block-BlockOutcome storage (k * chunk_size q file) (chunk_len q file k)
            q.data_blocks (suc (length disks)) [] disks some_data (omega arith)))
