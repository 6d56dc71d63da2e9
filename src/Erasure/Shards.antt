-- ===== src/Erasure/Shards.antt =====
-- What a stream is on the disks: block after block, the shards of `encodeData` in
-- cmd/erasure-createfile.go, one file for each of them.
use mathlib.Core.Path.{subst}
use mathlib.Core.List.{append-nil, append_assoc}
use minio.Base.{
  ℕ, zero, suc, ◌+◌, ◌*◌, ◌≤◌, ◌<◌, ◌≡◌, refl, sym, ap, ap₂, ◌∙◌, List, [], ◌∷◌, ◌++◌, Option, none,
  some, arith, length, take, drop, replicate, map, All, length-take, length-drop, length-replicate,
  take-append_self, drop-append_self,
}
use minio.Erasure.{Bytes, get_chunk_size}
use minio.Erasure.Blocks.{range, range-nil}
use minio.Erasure.Chunks.{get_chunk_size_bounds}
use minio.Erasure.Read.Slices.{take-nil, block_of, drop-drop}

-- Lists joined place by place.
abbrev pub zip_append : List Bytes → List Bytes → List Bytes
zip_append [] b = []
zip_append (x ∷ a) [] = x ∷ a
zip_append (x ∷ a) (y ∷ b) = (x ++ y) ∷ zip_append a b

-- What appending one part to each file makes of the files; a disk that is nil has none.
abbrev pub grow : List (Option Bytes) → List Bytes → List (Option Bytes)
grow (none ∷ files) (b ∷ parts) = none ∷ grow files parts
grow (some f ∷ files) (b ∷ parts) = some (f ++ b) ∷ grow files parts
grow files parts = files

pub length-grow :
    (files : List (Option Bytes)) (a : List Bytes) → length (grow files a) ≡ length files
length-grow [] a = refl
length-grow (none ∷ files) [] = refl
length-grow (some f ∷ files) [] = refl
length-grow (none ∷ files) (x ∷ a) = ap suc (length-grow files a)
length-grow (some f ∷ files) (x ∷ a) = ap suc (length-grow files a)

pub grow-zip_append :
    (files : List (Option Bytes)) (a b : List Bytes)
    → length a ≡ length b
    → grow (grow files a) b ≡ grow files (zip_append a b)
grow-zip_append [] a b h = refl
grow-zip_append (none ∷ files) [] [] h = refl
grow-zip_append (some f ∷ files) [] [] h = refl
grow-zip_append (x ∷ files) [] (y ∷ b) h = absurd (omega arith)
grow-zip_append (x ∷ files) (y ∷ a) [] h = absurd (omega arith)
grow-zip_append (none ∷ files) (x ∷ a) (y ∷ b) h =
    ap (◌∷◌ none) (grow-zip_append files a b (omega arith))
grow-zip_append (some f ∷ files) (x ∷ a) (y ∷ b) h =
    ap₂ (λ g l. some g ∷ l) (append_assoc f x y) (grow-zip_append files a b (omega arith))

pub grow-replicate :
    (files : List (Option Bytes)) (n : ℕ) → length files ≡ n → grow files (replicate n []) ≡ files
grow-replicate [] n h = refl
grow-replicate (x ∷ files) zero h = absurd (omega arith)
grow-replicate (none ∷ files) (suc n) h = ap (◌∷◌ none) (grow-replicate files n (omega arith))
grow-replicate (some f ∷ files) (suc n) h =
    ap₂ (λ g l. some g ∷ l) (append-nil f) (grow-replicate files n (omega arith))

-- What is read of the joined files before and behind a place where the parts are.
map-range-left :
    (n : ℕ) (a b : List Bytes)
    → length a ≡ length b
    → All (λ s. length s ≡ n) a
    → map (range 0 n) (zip_append a b) ≡ a
map-range-left n [] b h s = refl
map-range-left n (x ∷ a) [] h s = absurd (omega arith)
map-range-left n (x ∷ a) (y ∷ b) h s =
    ap₂ ◌∷◌ (ap (λ m. take m (x ++ y)) (sym s.0) ∙ take-append_self x y)
      (map-range-left n a b (omega arith) s.1)

map-range-right :
    (c o n : ℕ) (a b : List Bytes)
    → length a ≡ length b
    → All (λ s. length s ≡ c) a
    → map (range (c + o) n) (zip_append a b) ≡ map (range o n) b
map-range-right c o n [] [] h s = refl
map-range-right c o n [] (y ∷ b) h s = absurd (omega arith)
map-range-right c o n (x ∷ a) [] h s = absurd (omega arith)
map-range-right c o n (x ∷ a) (y ∷ b) h s =
    let one : drop (c + o) (x ++ y) ≡ drop o y =
      sym (drop-drop o c (x ++ y))
      ∙ (ap (λ m. drop o (drop m (x ++ y))) (sym s.0) ∙ ap (drop o) (drop-append_self x y)) in
    ap₂ ◌∷◌ (ap (take n) one) (map-range-right c o n a b (omega arith) s.1)

pub length-zip_append :
    (a b : List Bytes) → length a ≡ length b → length (zip_append a b) ≡ length a
length-zip_append [] b h = refl
length-zip_append (x ∷ a) [] h = refl
length-zip_append (x ∷ a) (y ∷ b) h = ap suc (length-zip_append a b (omega arith))

replicate-All-length :
    (n : ℕ) (a : List Bytes) → length a ≡ n → All (λ s. length s ≡ 0) a → a ≡ replicate n []
replicate-All-length zero [] h s = refl
replicate-All-length zero (x ∷ a) h s = absurd (omega arith)
replicate-All-length (suc n) [] h s = absurd (omega arith)
replicate-All-length (suc n) ([] ∷ a) h s = ap (◌∷◌ []) (replicate-All-length n a (omega arith) s.1)
replicate-All-length (suc n) ((x ∷ y) ∷ a) h s = absurd (omega (arith, s.0))

map-range-replicate : (o m n : ℕ) → map (range o m) (replicate n []) ≡ replicate n []
map-range-replicate o m zero = refl
map-range-replicate o m (suc n) = ap₂ ◌∷◌ (range-nil o m) (map-range-replicate o m n)

product_lt : (c d : ℕ) → c * d < d → c ≡ 0
product_lt zero d h = refl
product_lt (suc c) d h = absurd (omega arith)

get_chunk_size-nil : (d : ℕ) → 0 < d → get_chunk_size 0 d ≡ 0
get_chunk_size-nil d p =
    product_lt (get_chunk_size 0 d) d (omega (arith, (get_chunk_size_bounds 0 d p).1))

-- What is relied on of the shards of some bytes: there are `n` of them, each of the size of a chunk for
-- `d` data blocks.
pub record Sizes (shards : Bytes → List Bytes) (d n : ℕ) : Type 0 where
  pub count : (b : Bytes) → length (shards b) ≡ n
  pub size : (b : Bytes) → All (λ s. length s ≡ get_chunk_size (length b) d) (shards b)

module _ (shards : Bytes → List Bytes) (bs n : ℕ) where
  -- The files of the first blocks of a stream.
  abbrev pub shard_files_of : ℕ → Bytes → List Bytes
  shard_files_of zero stream = replicate n []
  shard_files_of (suc blocks) stream =
      zip_append (shards (take bs stream)) (shard_files_of blocks (drop bs stream))

  -- The files of a whole stream.
  abbrev pub shard_files : Bytes → List Bytes
  shard_files stream = shard_files_of (get_chunk_size (length stream) bs) stream

  -- So many blocks are what the bytes need.
  abbrev pub Fills : ℕ → Bytes → Type 0
  Fills blocks stream = (length stream ≤ blocks * bs) × (blocks * bs < length stream + bs)

  pub shard_files-Fills :
      (stream : Bytes) → 0 < bs → Fills (get_chunk_size (length stream) bs) stream
  shard_files-Fills stream p = get_chunk_size_bounds (length stream) bs p

  -- One block of `bs` fewer is one block fewer.
  pub Fills-drop :
      (blocks : ℕ) (stream : Bytes)
      → 0 < bs
      → Fills (suc blocks) stream
      → Fills blocks (drop bs stream)
  Fills-drop zero stream p h = omega (arith, h, length-drop bs stream)
  Fills-drop (suc blocks) stream p h = omega (arith, h, length-drop bs stream)

  module _ (d : ℕ) (some_data : 0 < d) (sizes : Sizes shards d n) where
    zero_times : (m : ℕ) → 0 * m ≡ 0
    zero_times m = omega arith

    pub length-shard_files_of :
        (blocks : ℕ) (stream : Bytes) → length (shard_files_of blocks stream) ≡ n
    length-shard_files_of zero stream = length-replicate n []
    length-shard_files_of (suc blocks) stream =
        let rest = length-shard_files_of blocks (drop bs stream) in
        let first = sizes.count (take bs stream) in
        omega (
          arith,
          rest,
          first,
          length-zip_append (shards (take bs stream)) (shard_files_of blocks (drop bs stream))
              (first ∙ sym rest),
        )

    -- What is read of the files at the place of a block of the stream is the shards of the block, also
    -- where the stream ends before it.
    pub map-range-shard_files_of :
        (blocks k : ℕ) (stream : Bytes)
        → 0 < bs
        → Fills blocks stream
        → k * bs ≤ length stream
        → map
            (range (k * get_chunk_size bs d) (get_chunk_size (length (block_of bs stream k)) d))
            (shard_files_of blocks stream)
          ≡ shards (block_of bs stream k)
    map-range-shard_files_of zero zero [] p f h =
        rw (zero_times (get_chunk_size bs d), zero_times bs, take-nil bs)
          (map-range-replicate 0 (get_chunk_size 0 d) n
            ∙ sym (
                replicate-All-length n (shards []) (sizes.count []) (
                  subst (λ m. All (λ s. length s ≡ m) (shards [])) (get_chunk_size-nil d some_data)
                    (sizes.size []))))
    map-range-shard_files_of zero zero (x ∷ s) p f h = absurd (omega (arith, f.0))
    map-range-shard_files_of zero (suc k) stream p f h = absurd (omega (arith, f.0, h, p))
    map-range-shard_files_of (suc blocks) zero stream p f h =
        rw (zero_times (get_chunk_size bs d), zero_times bs)
          (map-range-left (get_chunk_size (length (take bs stream)) d) (shards (take bs stream))
            (shard_files_of blocks (drop bs stream))
            (sizes.count (take bs stream) ∙ sym (length-shard_files_of blocks (drop bs stream)))
            (sizes.size (take bs stream)))
    map-range-shard_files_of (suc blocks) (suc k) stream p f h =
        let c = get_chunk_size bs d in
        let full : length (take bs stream) ≡ bs = omega (arith, length-take bs stream, h) in
        let next : block_of bs (drop bs stream) k ≡ block_of bs stream (suc k) =
          ap (take bs) (drop-drop (k * bs) bs stream ∙ ap (λ m. drop m stream) (omega arith)) in
        let right =
          map-range-right c (k * c) (get_chunk_size (length (block_of bs stream (suc k))) d)
            (shards (take bs stream)) (shard_files_of blocks (drop bs stream))
            (sizes.count (take bs stream) ∙ sym (length-shard_files_of blocks (drop bs stream)))
            (subst (λ m. All (λ s. length s ≡ get_chunk_size m d) (shards (take bs stream))) full
              (sizes.size (take bs stream))) in
        let ih =
          map-range-shard_files_of blocks k (drop bs stream) p (Fills-drop blocks stream p f)
            (omega (arith, length-drop bs stream, h)) in
        let place : suc k * c ≡ c + k * c = omega arith in
        ap
          (λ o.
            map (range o (get_chunk_size (length (block_of bs stream (suc k))) d))
              (shard_files_of (suc blocks) stream))
          place
        ∙ (right
            ∙ subst
                (λ b.
                  map (range (k * c) (get_chunk_size (length b) d))
                    (shard_files_of blocks (drop bs stream))
                  ≡ shards b)
                next ih)
