-- ===== src/Erasure/RoundTrip/WriteHeal.antt =====
-- `erasureCreateFile` of cmd/erasure-createfile.go, then `erasureHealFile` of cmd/erasure-healfile.go.
use mathlib.Core.Path.{subst}
use minio.Base.{
  ℕ, ◌+◌, ◌*◌, ◌≤◌, ◌<◌, ◌≡◌, refl, sym, ap, ◌∙◌, List, [], ◌∷◌, ◌++◌, Option, none, some, arith,
  length, map,
}
use minio.Quorum.Majority.{IsShuffle}
use minio.Erasure.{Bytes, get_chunk_size}
use minio.Erasure.Disks.{available}
use minio.Erasure.Blocks.{range}
use minio.Erasure.Create.{at_eof, Files, Created, Environment, encode_data, erasure_create_file}
use minio.Erasure.Create.Hashes.{Matches, Fresh}
use minio.Erasure.Create.Stored.{created_files}
use minio.Erasure.Read.{Coder}
use minio.Erasure.Read.Lists.{Agrees}
use minio.Erasure.Read.Slices.{block_of}
use minio.Erasure.Read.Decoding.{Codes}
use minio.Erasure.Heal.{OutDated, read_latest, healed, erasure_heal_file}
use minio.Erasure.Heal.Restored.{contents, present, erasure_heal_file-shard_files}
use minio.Erasure.Shards.{
  grow, Sizes, shard_files, shard_files-Fills, length-shard_files_of, map-range-shard_files_of,
}
use minio.Erasure.RoundTrip.{read_at, given, given-Agrees}

-- The latest disks: each is lost, or has its file as it was written.
abbrev pub Keep : List (Option Bytes) → Files → Type 0
Keep [] [] = Unit
Keep (none ∷ latest) (_ ∷ files) = Keep latest files
Keep (some f ∷ latest) (some g ∷ files) = (f ≡ g) × Keep latest files
Keep _ _ = ⊥

Keep-Agrees :
    (latest : List (Option Bytes)) (files : Files) (parts : List Bytes)
    → Keep latest (grow files parts)
    → Fresh files
    → length parts ≡ length files
    → Agrees latest parts
Keep-Agrees [] [] [] k f l = tt
Keep-Agrees latest [] (_ ∷ parts) k f l = absurd (omega arith)
Keep-Agrees latest (_ ∷ files) [] k f l = absurd (omega arith)
Keep-Agrees (none ∷ latest) [] [] k f l = absurd k
Keep-Agrees (some x ∷ latest) [] [] k f l = absurd k
Keep-Agrees [] (none ∷ files) (b ∷ parts) k f l = absurd k
Keep-Agrees [] (some x ∷ files) (b ∷ parts) k f l = absurd k
Keep-Agrees (none ∷ latest) (none ∷ files) (b ∷ parts) k f l =
    Keep-Agrees latest files parts k f.1 (omega arith)
Keep-Agrees (none ∷ latest) (some x ∷ files) (b ∷ parts) k f l =
    Keep-Agrees latest files parts k f.1 (omega arith)
Keep-Agrees (some y ∷ latest) (none ∷ files) (b ∷ parts) k f l = absurd k
Keep-Agrees (some y ∷ latest) (some x ∷ files) (b ∷ parts) k f l =
    (k.0 ∙ ap (λ z. z ++ b) f.0, Keep-Agrees latest files parts k.1 f.1 (omega arith))

-- Disks are read with what they have of their files.
reads_of_given :
    (o n : ℕ) (latest : List (Option Bytes))
    → map (read_latest read_at o n) latest ≡ map (given o n) latest
reads_of_given o n [] = refl
reads_of_given o n (none ∷ latest) = ap (◌∷◌ none) (reads_of_given o n latest)
reads_of_given o n (some f ∷ latest) = ap (◌∷◌ (read_at f o n)) (reads_of_given o n latest)

module _ (coder : Coder) (d p bs : ℕ) (stream : Bytes) (shards : Bytes → List Bytes)
    (codes : Codes coder d p shards) (sizes : Sizes shards d (d + p)) (some_size : 0 < bs)
    (some_data : 0 < d) where
  -- The files of all disks.
  abbrev whole : List Bytes
  whole = shard_files shards bs (d + p) stream

  -- What the latest disks give of a block: enough shards, and no wrong ones.
  reads_of_latest :
      (latest : List (Option Bytes)) (k : ℕ)
      → Agrees latest whole
      → d ≤ available latest
      → k * bs < length stream
      → Agrees
          (map
            (read_latest read_at
              (k * get_chunk_size bs d)
              (get_chunk_size (length (block_of bs stream k)) d))
            latest)
          (shards (block_of bs stream k))
        × (d
            ≤ available (
                map
                  (read_latest read_at
                    (k * get_chunk_size bs d)
                    (get_chunk_size (length (block_of bs stream k)) d))
                  latest))
  reads_of_latest latest k agrees there h =
      let o = k * get_chunk_size bs d in
      let n = get_chunk_size (length (block_of bs stream k)) d in
      let at : map (range o n) whole ≡ shards (block_of bs stream k) =
        map-range-shard_files_of shards bs (d + p) d some_data sizes
          (get_chunk_size (length stream) bs) k stream some_size
          (shard_files-Fills shards bs (d + p) stream some_size) (omega arith) in
      let (a, m) =
        given-Agrees o n latest whole agrees (rw at (sizes.size (block_of bs stream k))) in
      rw (reads_of_given o n latest) (subst (Agrees (map (given o n) latest)) at a, omega arith)

  -- Let blocks have a size and there be data blocks, reedsolomon keep its laws and encodeData give
  -- the shards of every block, each of the size of a chunk; let every append succeed on files that
  -- begin empty, one for each shard, with a write quorum of more than half of them and at most all,
  -- and the order of a map keep its entries. A stream that is not empty was then written with
  -- erasureCreateFile. From as many of its files as there are data blocks, whichever they are,
  -- erasureHealFile then appends on every outdated disk, where every append succeeds and there is
  -- no file or an empty one, just what erasureCreateFile appended to the file at its place, and
  -- succeeds with checksums of what the healed files hold.
  pub erasure_heal_file-erasure_create_file :
      {E F : Type 0} (env : Environment E) (quorum : ℕ) (files : Files) (created : Created E)
      (latest : List (Option Bytes))
      (append_fails : ℕ → Option Bytes → Bytes → Option (F × Option Bytes))
      (out_dated : List OutDated)
      → 0 < length stream
      → ((b : Bytes) → 0 < length b → encode_data env b ≡ some (shards b))
      → ((i : ℕ) (f b : Bytes) → env.append_fails i f b ≡ none)
      → IsShuffle env.same_error env.shuffle
      → d + p < quorum + quorum
      → quorum ≤ d + p
      → length files ≡ d + p
      → Fresh files
      → erasure_create_file env files stream at_eof bs quorum ≡ some created
      → Keep latest created.files
      → d ≤ available latest
      → ((i : ℕ) (f : Option Bytes) (b : Bytes) → append_fails i f b ≡ none)
      → length out_dated ≡ d + p
      → Fresh (contents out_dated)
      → (created.files ≡ grow files (shard_files shards bs (d + p) stream))
        × ((hashed : List Bytes) × (erasure_heal_file read_at coder append_fails d p latest
                out_dated
                (length stream)
                bs
              ≡ some (
                  healed
                    (present (grow (contents out_dated) (shard_files shards bs (d + p) stream)))
                    hashed
                    none))
            × Matches (grow (contents out_dated) (shard_files shards bs (d + p) stream)) hashed)
  erasure_heal_file-erasure_create_file env quorum files created latest append_fails out_dated
        filled encodes lasting fair most all count fresh done kept there lasting' count' fresh' =
      let (grown, hashes) =
        created_files env lasting fair (d + p) quorum most all shards d bs some_data sizes some_size
          encodes files stream created count fresh done in
      let agrees = Keep-Agrees latest files whole (subst (Keep latest) grown kept) fresh (
        length-shard_files_of shards bs (d + p) d some_data sizes
          (get_chunk_size (length stream) bs) stream
        ∙ sym count) in
      (
        grown,
        erasure_heal_file-shard_files read_at coder append_fails d p lasting' latest shards bs
            some_data some_size codes sizes out_dated stream filled count' fresh'
            (λ k h.
              let place : 0 + k * get_chunk_size bs d ≡ k * get_chunk_size bs d = omega arith in
              rw place (reads_of_latest latest k agrees there h)),
      )
