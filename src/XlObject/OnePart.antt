-- ===== src/XlObject/OnePart.antt =====
-- One part of an object, which `GetObject` of cmd/xl-v1-object.go reads.
use mathlib.Core.Path.{subst}
use mathlib.Core.List.{append-nil, append_assoc}
use minio.Base.{
  ℕ, ◌+◌, ◌-◌, ◌*◌, ◌/◌, ◌≤◌, ◌<◌, ◌≡◌, ◌⊎◌, refl, sym, ap, ◌∙◌, Bool, true, List, [], ◌∷◌, ◌++◌,
  Option, some, arith, ltb, if◌then◌else◌, length, take, drop, map, Bool-cases, inl, inr,
  length-drop, take_of_length-le,
}
use minio.Base.Int.{pos}
use minio.Base.Text.{Text}
use minio.XlMeta.{ObjectPartInfo, XlMetaV1}
use minio.Erasure.{Bytes, get_chunk_size}
use minio.Erasure.Disks.{available}
use minio.Erasure.Blocks.{range, append_to, drop-append_le, take-append_ge}
use minio.Erasure.Read.{Coder, Request, finished, is_valid_block, read_chunk, erasure_read_file}
use minio.Erasure.Read.Steady.{Part, keep}
use minio.Erasure.Read.Slices.{block_of, range-append}
use minio.Erasure.Read.Decoding.{Codes}
use minio.Erasure.Read.Range.{chunk_at, Serves}
use minio.Erasure.Read.Whole.{erasure_read_file-succeeds}
use minio.XlObject.{PartFiles, check_sums_of, part_storage, strip}
use minio.XlObject.Parts.{
  Part-All, Part-Agrees, check_sums_of-Part, check_sums_of-algo, strip-Part, strip-check_sums_of,
  Sound, steady_valid, steady_disk, available-steady,
}

-- The bytes of all parts.
abbrev pub flat : List Bytes → Bytes
flat [] = []
flat (c ∷ cs) = c ++ flat cs

-- The offset lies in the first part.
abbrev pub Starts : List ObjectPartInfo → ℕ → Type 0
Starts [] o = Unit
Starts (part ∷ parts) o = o < part.size

-- The rest of one part and the beginning of the next ones.
pub range_whole :
    (dst : Bytes) (o n m : ℕ) (c f : Bytes)
    → o + n ≤ length c
    → (m ≡ 0) ⊎ (o + n ≡ length c)
    → (dst ++ range o n c) ++ range 0 m f ≡ dst ++ range o (n + m) (c ++ f)
range_whole dst o n m c f h (inl e) = rw e (
    append-nil (dst ++ range o n c)
    ∙ ap (◌++◌ dst) (sym (range-append o n c f h) ∙ ap (λ k. range o k (c ++ f)) (omega arith)))
range_whole dst o n m c f h (inr e) =
    let l : length (drop o c) ≡ n = omega (arith, length-drop o c) in
    append_assoc dst (range o n c) (range 0 m f)
    ∙ ap (◌++◌ dst) (
        ap (λ x. x ++ take m f) (take_of_length-le n (drop o c) (omega arith))
        ∙ (ap (λ k. drop o c ++ take k f) (omega arith)
            ∙ (sym (take-append_ge (n + m) (drop o c) f (omega arith))
                ∙ ap (take (n + m)) (sym (drop-append_le o c f (omega arith))))))

-- As much of a part is read as is left to read, or the rest of it.
pub read_size :
    (m size o : ℕ)
    → 0 < m
    → o < size
    → (o + (if ltb m (size - o) then m else size - o) ≤ size)
      × (0 < (if ltb m (size - o) then m else size - o))
      × ((if ltb m (size - o) then m else size - o) ≤ m)
      × ((m - (if ltb m (size - o) then m else size - o) ≡ 0)
          ⊎ (o + (if ltb m (size - o) then m else size - o) ≡ size))
read_size m size o h k = elim (Bool-cases (ltb m (size - o))) [
  | inl t ↦ rw t (ground arith, h, omega arith, inl (omega arith))
  | inr t ↦ rw t (omega arith, omega arith, ground arith, inr (omega arith))
]

module _ {D : Type 0} (bit_rot_algo : Text) (files : PartFiles D) (coder : Coder) (meta : XlMetaV1)
    (metas : List XlMetaV1) (online : List (Option D)) (shards : Bytes → List Bytes)
    (codes : Codes coder meta.erasure.data_blocks meta.erasure.parity_blocks shards)
    (some_size : 0 < meta.erasure.block_size) (some_data : 0 < meta.erasure.data_blocks)
    (same_length : length online ≡ length metas) (steady : D → Bool) where
  abbrev pub request : ObjectPartInfo → ℕ → ℕ → Request
  request part o n = record {
    offset = o;
    len = n;
    total_length = part.size;
    block_size = meta.erasure.block_size;
    data_blocks = meta.erasure.data_blocks;
    parity_blocks = meta.erasure.parity_blocks;
  }

  -- The disks with their checksums for a part.
  abbrev pub summed : ObjectPartInfo → List (Option D) → List (Option (D × Text))
  summed part disks = (check_sums_of bit_rot_algo part.name disks metas []).0

  -- A part holds some bytes: it has their length and is not empty, all that the disks give of it are
  -- shards, and the steady disks pass their checksum and give every chunk.
  abbrev pub Holds : ObjectPartInfo → Bytes → Type 0
  Holds part content =
      (length content ≡ part.size)
      × (0 < part.size)
      × Serves (part_storage files part.name []) (request part 0 0) content shards
          (summed part online)
      × Sound (part_storage files part.name []) steady (summed part online)
      × ((disk : D) (k : ℕ)
          → steady disk ≡ true
          → k ≤ part.size / meta.erasure.block_size
          → (files.pooled disk ≡ true)
            × ((b : Bytes) × (files.read_file part.name disk
                    (k * get_chunk_size meta.erasure.block_size meta.erasure.data_blocks)
                    (get_chunk_size (length (block_of meta.erasure.block_size content k))
                      meta.erasure.data_blocks)
                  ≡ some b)))

  -- One part is read from what is left of the disks, which loses no steady disk.
  pub one_read :
      (part : ObjectPartInfo) (content : Bytes) (disks : List (Option D)) (o n : ℕ) (dst : Bytes)
      → Holds part content
      → Part disks online
      → length disks ≡ length metas
      → meta.erasure.data_blocks ≤ available (map (steady_disk steady) disks)
      → 0 < n
      → o + n ≤ part.size
      → (left : List (Option (D × Text))) × (erasure_read_file
            (part_storage files part.name (check_sums_of bit_rot_algo part.name disks metas []).1)
            coder
            append_to
            dst
            (summed part disks)
            (pos o)
            (pos n)
            part.size
            meta.erasure.block_size
            meta.erasure.data_blocks
            meta.erasure.parity_blocks
          ≡ finished (dst ++ range o n content) n left)
        × Part (strip left) disks
        × (meta.erasure.data_blocks ≤ available (map (steady_disk steady) (strip left)))
  unfolding read_chunk
  one_read part content disks o n dst (full, some_bytes, serves, sound, reads) part_of l many p w =
      let storage = part_storage files part.name [] in
      let cs = summed part disks in
      let sub = check_sums_of-Part bit_rot_algo part.name disks online metas part_of in
      let sound_here : Sound storage steady cs =
        Part-All (λ x. steady x.0 ≡ true → is_valid_block storage (some x) ≡ true) cs
          (summed part online) sub sound in
      let count = available-steady storage steady cs sound_here in
      let stripped = strip-check_sums_of bit_rot_algo part.name disks metas l in
      let enough : meta.erasure.data_blocks
          ≤ available (map (keep storage (steady_valid storage steady)) cs) =
        subst (λ m. meta.erasure.data_blocks ≤ m)
          (sym (count ∙ ap (λ x. available (map (steady_disk steady) x)) stripped)) many in
      let (left, e, kept, some_left) =
        erasure_read_file-succeeds storage coder (request part o n) content shards codes full
          some_size some_data p w (steady_valid storage steady)
          (λ disk k t h.
            let valid : is_valid_block storage (some disk) ≡ true = ground arith in
            let (pooled, (b, r)) = reads disk.0 k (ground arith) h in
            (b, rw (valid, pooled, read_chunk) r))
          cs dst
          (λ k h.
            Part-Agrees (chunk_at storage (request part o n) content shards k) refl cs
              (summed part online) (shards (block_of meta.erasure.block_size content k)) sub
              (serves k h))
          enough in
      let sound_left : Sound storage steady left =
        Part-All (λ x. steady x.0 ≡ true → is_valid_block storage (some x) ≡ true) left cs some_left
          sound_here in
      (
        left,
        rw (check_sums_of-algo bit_rot_algo part.name disks metas) e,
        strip-Part bit_rot_algo part.name left disks metas l some_left,
        subst (λ m. meta.erasure.data_blocks ≤ m)
            (sym (ap available kept) ∙ available-steady storage steady left sound_left) enough,
      )
