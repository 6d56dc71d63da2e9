-- ===== src/XlObject/Range.antt =====
-- The range of an object that `GetObject` of cmd/xl-v1-object.go writes, part after part.
use mathlib.Core.List.{append-nil}
use minio.Base.{
  ℕ, zero, suc, ◌+◌, ◌-◌, ◌≤◌, ◌<◌, ◌≡◌, ◌≢◌, ◌⊎◌, refl, sym, ap, ◌∙◌, Bool, true, false, List, [],
  ◌∷◌, ◌++◌, Option, arith, ltb, ◌==◌, if◌then◌else◌, length, take, map, Bool-cases, inl, inr,
}
use minio.Base.Int.{pos}
use minio.Base.Text.{Text}
use minio.XlMeta.{ObjectPartInfo, XlMetaV1}
use minio.XlMeta.Offsets.{size_of}
use minio.Erasure.{Bytes}
use minio.Erasure.Disks.{available}
use minio.Erasure.Blocks.{range, append_to}
use minio.Erasure.Read.{Coder, ReadResult, gave_up, done, finished, erasure_read_file}
use minio.Erasure.Read.Steady.{Part, Part-trans, length-Part}
use minio.Erasure.Read.Decoding.{Codes}
use minio.XlObject.{
  PartFiles, GetResult, got, failed_with, part_failed, check_sums_of, part_storage, strip,
  read_parts,
}
use minio.XlObject.Parts.{steady_disk}
use minio.XlObject.OnePart.{flat, Starts, range_whole, read_size, summed, Holds, one_read}

module _ {D : Type 0} (bit_rot_algo : Text) (files : PartFiles D) (coder : Coder) (meta : XlMetaV1)
    (metas : List XlMetaV1) (online : List (Option D)) (shards : Bytes → List Bytes)
    (codes : Codes coder meta.erasure.data_blocks meta.erasure.parity_blocks shards)
    (some_size : 0 < meta.erasure.block_size) (some_data : 0 < meta.erasure.data_blocks)
    (same_length : length online ≡ length metas) (steady : D → Bool) where
  abbrev pub AllHold : List ObjectPartInfo → List Bytes → Type 0
  AllHold [] [] = Unit
  AllHold (part ∷ parts) (c ∷ contents) =
      Holds bit_rot_algo files coder meta metas online shards codes some_size some_data same_length
        steady part c
      × AllHold parts contents
  AllHold _ _ = ⊥

  pub AllHold-Starts :
      (parts : List ObjectPartInfo) (contents : List Bytes)
      → AllHold parts contents
      → Starts parts 0
  AllHold-Starts [] contents h = tt
  AllHold-Starts (part ∷ parts) [] h = absurd h
  AllHold-Starts (part ∷ parts) (c ∷ contents) h = let (_, some_bytes, _, _, _) = h.0 in some_bytes

  -- The call that reads a part.
  abbrev call : ObjectPartInfo → ℕ → Bytes → List (Option D) → ℕ → ReadResult (D × Text) Bytes
  call part o dst disks n =
      erasure_read_file
        (part_storage files part.name (check_sums_of bit_rot_algo part.name disks metas []).1) coder
        append_to dst
        (summed bit_rot_algo files coder meta metas online shards codes some_size some_data
          same_length steady part disks)
        (pos o) (pos n) part.size meta.erasure.block_size meta.erasure.data_blocks
        meta.erasure.parity_blocks

  module _ {E : Type 0} (len : ℕ) where
    abbrev reading : ℕ → List ObjectPartInfo → ℕ → ℕ → Bytes → List (Option D) → GetResult E Bytes
    reading = read_parts bit_rot_algo files coder append_to meta metas len

    nothing_left :
        (left : ℕ) (parts : List ObjectPartInfo) (o total : ℕ) (dst : Bytes)
        (disks : List (Option D))
        → total ≡ len
        → reading left parts o total dst disks ≡ got dst
    unfolding read_parts
    nothing_left zero parts o total dst disks h = refl
    nothing_left (suc left) [] o total dst disks h =
        let t : (len == total) ≡ true = ground arith in rw t refl
    nothing_left (suc left) (part ∷ parts) o total dst disks h =
        let t : (len == total) ≡ true = ground arith in rw (t, read_parts) refl

    abbrev after : ℕ → List ObjectPartInfo → ℕ → ReadResult (D × Text) Bytes → GetResult E Bytes
    after left parts total r = elim r.status [
      | gave_up e ↦ failed_with r.dst (part_failed e)
      | done disks' ↦ reading left parts 0 (total + r.bytes_written) r.dst (strip disks')
    ]

    one_round :
        (left : ℕ) (part : ObjectPartInfo) (parts : List ObjectPartInfo) (o total n : ℕ)
        (dst dst' : Bytes) (disks : List (Option D)) (disks' : List (Option (D × Text)))
        → (len == total) ≡ false
        → (if ltb (len - total) (part.size - o) then len - total else part.size - o) ≡ n
        → call part o dst disks n ≡ finished dst' n disks'
        → reading (suc left) (part ∷ parts) o total dst disks
          ≡ reading left parts 0 (total + n) dst' (strip disks')
    unfolding read_parts
    one_round left part parts o total n dst dst' disks disks' t s e =
        let size = if ltb (len - total) (part.size - o) then len - total else part.size - o in
        ap (λ b. if b then got dst else after left parts total (call part o dst disks size)) t
        ∙ (ap (λ m. after left parts total (call part o dst disks m)) s
            ∙ ap (after left parts total) e)

    pub read_parts-range :
        (left : ℕ) (parts : List ObjectPartInfo) (contents : List Bytes) (o total : ℕ) (dst : Bytes)
        (disks : List (Option D))
        → AllHold parts contents
        → Starts parts o
        → Part disks online
        → length disks ≡ length metas
        → meta.erasure.data_blocks ≤ available (map (steady_disk steady) disks)
        → total ≤ len
        → o + (len - total) ≤ size_of (take left parts)
        → reading left parts o total dst disks ≡ got (dst ++ range o (len - total) (flat contents))
    unfolding size_of
    read_parts-range zero parts contents o total dst disks h s part_of l many b fits =
        let z : len - total ≡ 0 = omega arith in
        nothing_left zero parts o total dst disks (omega arith)
        ∙ rw z (ap got (sym (append-nil dst)))
    read_parts-range (suc left) [] contents o total dst disks h s part_of l many b fits =
        let z : len - total ≡ 0 = omega arith in
        nothing_left (suc left) [] o total dst disks (omega arith)
        ∙ rw z (ap got (sym (append-nil dst)))
    read_parts-range (suc left) (part ∷ parts) [] o total dst disks h s part_of l many b fits =
        absurd h
    read_parts-range (suc left) (part ∷ parts) (c ∷ contents) o total dst disks h s part_of l many b
          fits =
        elim (Bool-cases (len == total)) [
          | inl t ↦
              let z : len - total ≡ 0 = ground arith in
              nothing_left (suc left) (part ∷ parts) o total dst disks (ground arith)
              ∙ rw z (ap got (sym (append-nil dst)))
          | inr t ↦
              let (full, _, _, _, _) = h.0 in
              let n = if ltb (len - total) (part.size - o) then len - total else part.size - o in
              let some_left : total ≢ len = ground arith in
              let some_of : 0 < len - total = omega (arith, some_left) in
              let (inside, some_bytes, most, split) : (o + n ≤ part.size)
                  × (0 < n)
                  × (n ≤ len - total)
                  × ((len - total - n ≡ 0) ⊎ (o + n ≡ part.size)) =
                read_size (len - total) part.size o some_of s in
              let (disks', e, sub, enough) =
                one_read bit_rot_algo files coder meta metas online shards codes some_size some_data
                  same_length steady part c disks o n dst h.0 part_of l many some_bytes inside in
              one_round left part parts o total n dst (dst ++ range o n c) disks disks' t refl e
              ∙ (read_parts-range left parts contents 0 (total + n) (dst ++ range o n c)
                    (strip disks') h.1 (AllHold-Starts parts contents h.1)
                    (Part-trans (strip disks') disks online sub part_of)
                    (length-Part (strip disks') disks sub ∙ l) enough (omega arith)
                    (elim split [ inl z ↦ omega arith | inr z ↦ omega arith ])
                  ∙ ap got (
                      ap (λ m. (dst ++ range o n c) ++ range 0 m (flat contents)) (omega arith)
                      ∙ (range_whole dst o n (len - total - n) c (flat contents) (omega arith)
                            (elim split [ inl z ↦ inl (omega arith) | inr z ↦ inr (omega arith) ])
                          ∙ ap (λ m. dst ++ range o m (flat (c ∷ contents))) (omega arith))))
        ]
