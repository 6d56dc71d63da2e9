-- ===== src/Erasure/Heal/Restored.antt =====
-- What `erasureHealFile` of cmd/erasure-healfile.go appends to the outdated disks.
use mathlib.Core.Path.{subst}
use minio.Base.{
  ℕ, zero, suc, ◌+◌, ◌-◌, ◌*◌, ◌≤◌, ◌<◌, ◌≡◌, refl, sym, ap, ◌∙◌, List, [], ◌∷◌, ◌++◌, Option, none,
  some, arith, ltb, if◌then◌else◌, length, take, drop, replicate, map, length-drop, length-take,
}
use minio.Erasure.{Bytes, get_chunk_size}
use minio.Erasure.Disks.{available}
use minio.Erasure.Create.Hashes.{Matches, Fresh, Fresh-Matches}
use minio.Erasure.Read.Lists.{Agrees}
use minio.Erasure.Read.Slices.{block_of, drop-drop}
use minio.Erasure.Read.Decoding.{Codes, decode_data-shards}
use minio.Erasure.Read.{Coder, decode_data}
use minio.Erasure.Shards.{
  grow, length-grow, grow-zip_append, grow-replicate, Sizes, shard_files_of, shard_files, Fills,
  shard_files-Fills, Fills-drop, length-shard_files_of,
}
use minio.Erasure.Heal.{
  HealError, decode_failed, Healed, OutDated, content, read_latest, append_outdated, healed,
  heal_blocks, erasure_heal_file,
}

-- What the disks hold, where no file is an empty one, and disks with these files.
abbrev pub contents : List OutDated → List (Option Bytes)
contents [] = []
contents (none ∷ files) = none ∷ contents files
contents (some f ∷ files) = some (content f) ∷ contents files

abbrev pub present : List (Option Bytes) → List OutDated
present [] = []
present (none ∷ files) = none ∷ present files
present (some f ∷ files) = some (some f) ∷ present files

contents-present : (files : List (Option Bytes)) → contents (present files) ≡ files
contents-present [] = refl
contents-present (none ∷ files) = ap (◌∷◌ none) (contents-present files)
contents-present (some f ∷ files) = ap (◌∷◌ (some f)) (contents-present files)

length-contents : (files : List OutDated) → length (contents files) ≡ length files
length-contents [] = refl
length-contents (none ∷ files) = ap suc (length-contents files)
length-contents (some f ∷ files) = ap suc (length-contents files)

module _ {D E : Type 0} (read_file : D → ℕ → ℕ → Option Bytes) (coder : Coder)
    (append_fails : ℕ → Option Bytes → Bytes → Option (E × Option Bytes)) (d p : ℕ)
    (lasting : (i : ℕ) (f : Option Bytes) (b : Bytes) → append_fails i f b ≡ none) where
  append_outdated-grow :
      (i : ℕ) (files : List OutDated) (hashed parts : List Bytes)
      → length parts ≡ length files
      → Matches (contents files) hashed
      → (hs : List Bytes) × (append_outdated read_file coder append_fails d p i files hashed
            (map some parts)
          ≡ (present (grow (contents files) parts), hs, none))
        × Matches (grow (contents files) parts) hs
  unfolding append_outdated
  append_outdated-grow i [] [] [] e m = ([], refl, tt)
  append_outdated-grow i [] [] (_ ∷ parts) e m = absurd (omega arith)
  append_outdated-grow i [] (_ ∷ hashed) parts e m = absurd m
  append_outdated-grow i (none ∷ files) [] parts e m = absurd m
  append_outdated-grow i (some f ∷ files) [] parts e m = absurd m
  append_outdated-grow i (_ ∷ files) (h ∷ hashed) [] e m = absurd (omega arith)
  append_outdated-grow i (none ∷ files) (h ∷ hashed) (b ∷ parts) e m =
      let (hs, r, k) = append_outdated-grow (suc i) files hashed parts (omega arith) m in
      (h ∷ hs, ap (λ t. (none ∷ t.0, h ∷ t.1, t.2)) r, k)
  append_outdated-grow i (some f ∷ files) (h ∷ hashed) (b ∷ parts) e m =
      let (hs, r, k) = append_outdated-grow (suc i) files hashed parts (omega arith) m.1 in
      (
        (h ++ b) ∷ hs,
        rw (lasting i f b, append_outdated)
            (ap (λ t. (some (some (content f ++ b)) ∷ t.0, (h ++ b) ∷ t.1, t.2)) r),
        (ap (λ x. x ++ b) m.0, k),
      )

  module _ (latest : List (Option D)) (shards : Bytes → List Bytes) (bs : ℕ) (some_data : 0 < d)
      (some_size : 0 < bs) (codes : Codes coder d p shards) (sizes : Sizes shards d (d + p)) where
    -- What the latest disks give of a block of some bytes that begin at an offset of the files.
    abbrev pub latest_at : ℕ → Bytes → ℕ → List (Option Bytes)
    latest_at o s j =
        map
          (read_latest read_file (o + j * get_chunk_size bs d)
            (get_chunk_size (length (block_of bs s j)) d))
          latest

    -- For every block, they give enough shards of it, and no wrong ones.
    abbrev pub Latest : ℕ → Bytes → Type 0
    Latest o s =
        (j : ℕ)
        → j * bs < length s
        → Agrees (latest_at o s j) (shards (block_of bs s j)) × (d ≤ available (latest_at o s j))

    Latest-drop :
        (o : ℕ) (s : Bytes)
        → Latest o s
        → Latest (o + get_chunk_size (length (take bs s)) d) (drop bs s)
    Latest-drop o s g j h =
        let full : length (take bs s) ≡ bs = omega (arith, length-drop bs s, length-take bs s) in
        let next : block_of bs (drop bs s) j ≡ block_of bs s (suc j) =
          ap (take bs) (drop-drop (j * bs) bs s ∙ ap (λ m. drop m s) (omega arith)) in
        let here = ap (λ m. get_chunk_size m d) full in
        let place : o + get_chunk_size (length (take bs s)) d + j * get_chunk_size bs d
            ≡ o + suc j * get_chunk_size bs d =
          omega arith in
        let at : ℕ → Bytes → Type 0 = λ q b.
          Agrees (map (read_latest read_file q (get_chunk_size (length b) d)) latest) (shards b)
          × (d ≤ available (map (read_latest read_file q (get_chunk_size (length b) d)) latest)) in
        subst (at (o + get_chunk_size (length (take bs s)) d + j * get_chunk_size bs d)) (sym next)
          (subst (λ q. at q (block_of bs s (suc j))) (sym place)
            (g (suc j) (omega (arith, length-drop bs s))))

    abbrev Heals : ℕ → Bytes → List OutDated → Option (Healed E) → Type 0
    Heals blocks s files r =
        (hs : List Bytes) × (r
          ≡ some (
              healed (present (grow (contents files) (shard_files_of shards bs (d + p) blocks s)))
                hs none))
        × Matches (grow (contents files) (shard_files_of shards bs (d + p) blocks s)) hs

    -- One round, with the size of its block and what remains afterwards: what follows the appends, and
    -- what follows the decoding.
    abbrev appended :
        ℕ → ℕ → ℕ → List OutDated × List Bytes × Option (HealError E) → Option (Healed E)
    appended fuel o remaining (files, hashed, some e) = some (healed files hashed (some e))
    appended fuel o remaining (files, hashed, none) =
        heal_blocks read_file coder append_fails d p fuel latest bs o remaining files hashed

    abbrev decoded :
        ℕ → ℕ → ℕ → List OutDated → List Bytes → Option (List (Option Bytes)) → Option (Healed E)
    decoded fuel o remaining files hashed none = some (healed files hashed (some decode_failed))
    decoded fuel o remaining files hashed (some en_blocks) =
        appended fuel o remaining
          (append_outdated read_file coder append_fails d p 0 files hashed en_blocks)

    abbrev round : ℕ → ℕ → List OutDated → List Bytes → ℕ → ℕ → Option (Healed E)
    round fuel o files hashed cur remaining =
        decoded fuel (o + get_chunk_size cur d) (remaining - cur) files hashed
          (decode_data coder (map (read_latest read_file o (get_chunk_size cur d)) latest) d p)

    heal_blocks-round :
        (fuel o x : ℕ) (s : Bytes) (files : List OutDated) (hashed : List Bytes)
        → heal_blocks read_file coder append_fails d p
            (suc fuel)
            latest
            bs
            o
            (length (x ∷ s))
            files
            hashed
          ≡ round fuel o files hashed (length (take bs (x ∷ s))) (length (x ∷ s))
    unfolding heal_blocks
    heal_blocks-round fuel o x s files hashed =
        let cur : (if ltb (length (x ∷ s)) bs then length (x ∷ s) else bs)
            ≡ length (take bs (x ∷ s)) =
          ground (arith, length-take bs (x ∷ s)) in
        ap (λ c. round fuel o files hashed c (length (x ∷ s))) cur

    heal_blocks-end :
        (fuel o : ℕ) (files : List OutDated) (hashed : List Bytes)
        → heal_blocks read_file coder append_fails d p (suc fuel) latest bs o 0 files hashed
          ≡ some (healed files hashed none)
    unfolding heal_blocks
    heal_blocks-end fuel o files hashed = refl

    heal_blocks-grow :
        (fuel blocks o : ℕ) (s : Bytes) (files : List OutDated) (hashed : List Bytes)
        → length s < fuel
        → Fills shards bs (d + p) blocks s
        → length (contents files) ≡ d + p
        → Matches (contents files) hashed
        → Latest o s
        → (length s ≡ 0 → present (contents files) ≡ files)
        → Heals blocks s files
            (heal_blocks read_file coder append_fails d p fuel latest bs o (length s) files hashed)
    heal_blocks-grow zero blocks o s files hashed l b f m g r = absurd (omega arith)
    heal_blocks-grow (suc fuel) (suc blocks) o [] files hashed l b f m g r =
        absurd (omega (arith, b.1))
    heal_blocks-grow (suc fuel) zero o (x ∷ s) files hashed l b f m g r =
        absurd (omega (arith, b.0))
    heal_blocks-grow (suc fuel) zero o [] files hashed l b f m g r =
        let e = grow-replicate (contents files) (d + p) f in
        (
          hashed,
          heal_blocks-end fuel o files hashed
              ∙ ap (λ t. some (healed t hashed none)) (sym (ap present e ∙ r refl)),
          subst (λ t. Matches t hashed) (sym e) m,
        )
    heal_blocks-grow (suc fuel) (suc blocks) o (x ∷ s) files hashed l b f m g r =
        let stream = x ∷ s in
        let first = take bs stream in
        let count = sizes.count first in
        let rest_of = shard_files_of shards bs (d + p) blocks (drop bs stream) in
        let at : ℕ → Bytes → Type 0 = λ q b.
          Agrees (map (read_latest read_file q (get_chunk_size (length b) d)) latest) (shards b)
          × (d ≤ available (map (read_latest read_file q (get_chunk_size (length b) d)) latest)) in
        let start : o + 0 * get_chunk_size bs d ≡ o = omega arith in
        let origin : 0 * bs ≡ 0 = omega arith in
        let begin : block_of bs stream 0 ≡ first = ap (λ m. take bs (drop m stream)) origin in
        let now : at o first =
          subst (λ b. at o b) begin
            (subst (λ q. at q (block_of bs stream 0)) start (g 0 (omega arith))) in
        let all =
          decode_data-shards coder d p shards first
            (map (read_latest read_file o (get_chunk_size (length first) d)) latest) codes
            (omega (arith, length-take bs stream)) now.0 now.1 in
        let (k, grown, m') =
          append_outdated-grow 0 files hashed (shards first) (omega (arith, length-contents files))
            m in
        let next = grow (contents files) (shards first) in
        let same_next = contents-present next in
        let left : length stream - length first ≡ length (drop bs stream) =
          omega (arith, length-take bs stream, length-drop bs stream) in
        let (hs, rest, done) =
          heal_blocks-grow fuel blocks (o + get_chunk_size (length first) d) (drop bs stream)
            (present next) k (omega (arith, length-drop bs stream))
            (Fills-drop shards bs (d + p) blocks stream some_size b)
            (ap length same_next ∙ (length-grow (contents files) (shards first) ∙ f))
            (subst (λ t. Matches t k) (sym same_next) m') (Latest-drop o stream g)
            (λ _. ap present same_next) in
        let joined = grow-zip_append (contents files) (shards first) rest_of (
          count
          ∙ sym (
              length-shard_files_of shards bs (d + p) d some_data sizes blocks (drop bs stream))) in
        let o' = o + get_chunk_size (length first) d in
        let path =
          heal_blocks-round fuel o x s files hashed
          ∙ (ap (decoded fuel o' (length stream - length first) files hashed) all
              ∙ (ap (appended fuel o' (length stream - length first)) grown
                  ∙ ap (λ l. appended fuel o' l (present next, k, none)) left)) in
        let grown_on = ap (λ t. grow t rest_of) same_next ∙ joined in
        (
          hs,
          path ∙ (rest ∙ ap (λ t. some (healed (present t) hs none)) grown_on),
          subst (λ t. Matches t hs) grown_on done,
        )

    -- Where blocks have a size and there are data blocks, reedsolomon keeps its laws and every
    -- shard has the size of a chunk, the latest disks give enough shards of every block of the data
    -- and no wrong ones, every append succeeds, the outdated disks, as many as there are shards,
    -- begin with no file or an empty one, and the data is not empty: then erasureHealFile succeeds,
    -- every outdated disk that is not nil has a file, with its shards of all blocks in order, and it
    -- is what its checksum is of.
    pub erasure_heal_file-shard_files :
        (files : List OutDated) (stream : Bytes)
        → 0 < length stream
        → length files ≡ d + p
        → Fresh (contents files)
        → Latest 0 stream
        → (hashed : List Bytes) × (erasure_heal_file read_file coder append_fails d p latest files
              (length stream)
              bs
            ≡ some (
                healed
                  (present (grow (contents files) (shard_files shards bs (d + p) stream)))
                  hashed
                  none))
          × Matches (grow (contents files) (shard_files shards bs (d + p) stream)) hashed
    unfolding erasure_heal_file
    erasure_heal_file-shard_files files stream filled f fresh g =
        heal_blocks-grow (suc (length stream)) (get_chunk_size (length stream) bs) 0 stream files
          (replicate (length files) []) (omega arith)
          (shard_files-Fills shards bs (d + p) stream some_size) (length-contents files ∙ f)
          (subst (λ n. Matches (contents files) (replicate n [])) (length-contents files)
            (Fresh-Matches (contents files) fresh))
          g (λ e. absurd (omega (arith, e, filled)))
