-- ===== src/XlObject/Whole.antt =====
-- `GetObject` of cmd/xl-v1-object.go, from the metadata that was chosen to the bytes of the range.
use minio.Base.{
  ℕ, zero, suc, ◌+◌, ◌-◌, ◌≤◌, ◌<◌, ◌≡◌, ◌⊎◌, refl, sym, ap, ◌∙◌, Bool, false, ◌||◌, List, [], ◌∷◌,
  ◌++◌, Option, none, some, arith, ltb, ◌==◌, length, take, drop, get_elem?, map, Bool-cases, inl,
  inr, length-append, drop-append_self,
}
use minio.XlMeta.{ObjectPartInfo, XlMetaV1, object_to_part_offset}
use minio.XlMeta.Offsets.{size_of, LiesAt, object_to_part_offset-found}
use minio.Base.Int.{pos, negsuc}
use minio.Quorum.{Error}
use minio.Base.Text.{Text}
use minio.Erasure.{Bytes}
use minio.Erasure.Disks.{available}
use minio.Erasure.Blocks.{range, append_to}
use minio.Erasure.Read.{Coder}
use minio.Erasure.Read.Steady.{Part-refl}
use minio.Erasure.Read.Slices.{drop-drop}
use minio.Erasure.Read.Decoding.{Codes}
use minio.XlObject.{
  Layer, PartFiles, got, read_parts, last_part_index, get_range, choose_meta, chosen, get_object,
}
use minio.XlObject.Parts.{steady_disk}
use minio.XlObject.OnePart.{flat, Starts}
use minio.XlObject.Range.{AllHold, read_parts-range}

-- The sizes of the first parts.
size_of-take-suc :
    (i : ℕ) (parts : List ObjectPartInfo) (part : ObjectPartInfo)
    → get_elem? parts i ≡ some part
    → size_of (take (suc i) parts) ≡ size_of (take i parts) + part.size
unfolding size_of
size_of-take-suc i [] part h = absurd (cc)
size_of-take-suc zero (x ∷ parts) part h =
    let e : x.size ≡ part.size = ap (λ o. elim o [ none ↦ 0 | some p ↦ p.size ]) h in omega arith
size_of-take-suc (suc i) (x ∷ parts) part h = omega (arith, size_of-take-suc i parts part h)

size_of-take_nil : (m : ℕ) → size_of (take m []) ≡ 0
unfolding size_of
size_of-take_nil zero = refl
size_of-take_nil (suc m) = refl

size_of-take_add :
    (i m : ℕ) (parts : List ObjectPartInfo)
    → size_of (take (i + m) parts) ≡ size_of (take i parts) + size_of (take m (drop i parts))
unfolding size_of
size_of-take_add zero m parts = let e : 0 + m ≡ m = omega arith in rw e (omega arith)
size_of-take_add (suc i) m [] =
    let e : suc i + m ≡ suc (i + m) = omega arith in rw e (omega (arith, size_of-take_nil m))
size_of-take_add (suc i) m (x ∷ parts) =
    let e : suc i + m ≡ suc (i + m) = omega arith in
    rw e (omega (arith, size_of-take_add i m parts))

Starts-drop :
    (i o : ℕ) (parts : List ObjectPartInfo) (part : ObjectPartInfo)
    → get_elem? parts i ≡ some part
    → o < part.size
    → Starts (drop i parts) o
Starts-drop i o [] part h k = absurd (cc)
Starts-drop zero o (x ∷ parts) part h k =
    let e : x.size ≡ part.size = ap (λ o. elim o [ none ↦ 0 | some p ↦ p.size ]) h in omega arith
Starts-drop (suc i) o (x ∷ parts) part h k = Starts-drop i o parts part h k

-- The parts up to the one with the last byte hold a range that begins in an earlier one.
range_fits :
    (parts : List ObjectPartInfo) (i j o p n : ℕ) (part : ObjectPartInfo)
    → get_elem? parts j ≡ some part
    → p < part.size
    → 0 < n
    → size_of (take i parts) + o + n ≡ suc (size_of (take j parts) + p)
    → o + n ≤ size_of (take (suc j - i) (drop i parts))
range_fits parts i j o p n part g k some_bytes e =
    let last = size_of-take-suc j parts part g in
    let ahead : (i ≤ j) ⊎ ((m : ℕ) × (i ≡ suc j + m)) = elim (Bool-cases (ltb j i)) [
      | inl t ↦ inr (i - suc j, ground arith)
      | inr t ↦ inl (ground arith)
    ] in
    elim ahead [
      | inl le ↦
          let f : i + (suc j - i) ≡ suc j = omega arith in
          let whole = size_of-take_add i (suc j - i) parts in
          let same = ap (λ m. size_of (take m parts)) f in omega arith
      | inr (m, f) ↦
          let whole = size_of-take_add (suc j) m parts in
          let same = ap (λ m. size_of (take m parts)) f in absurd (omega arith)
    ]

module _ {D : Type 0} (bit_rot_algo : Text) (files : PartFiles D) (coder : Coder) (meta : XlMetaV1)
    (metas : List XlMetaV1) (online : List (Option D)) (shards : Bytes → List Bytes)
    (codes : Codes coder meta.erasure.data_blocks meta.erasure.parity_blocks shards)
    (some_size : 0 < meta.erasure.block_size) (some_data : 0 < meta.erasure.data_blocks)
    (same_length : length online ≡ length metas) (steady : D → Bool) where
  abbrev Held : List ObjectPartInfo → List Bytes → Type 0
  Held =
      AllHold bit_rot_algo files coder meta metas online shards codes some_size some_data
        same_length steady

  Held-drop :
      (i : ℕ) (parts : List ObjectPartInfo) (contents : List Bytes)
      → Held parts contents
      → Held (drop i parts) (drop i contents)
        × (flat (drop i contents) ≡ drop (size_of (take i parts)) (flat contents))
        × (size_of parts ≡ length (flat contents))
  unfolding size_of
  Held-drop zero [] [] h = (tt, refl, refl)
  Held-drop (suc i) [] [] h = (tt, refl, refl)
  Held-drop i [] (_ ∷ contents) h = absurd h
  Held-drop i (_ ∷ parts) [] h = absurd h
  Held-drop zero (x ∷ parts) (c ∷ contents) h =
      let (full, _, _, _, _) = h.0 in
      let (_, _, rest) = Held-drop zero parts contents h.1 in
      (h, refl, omega (arith, length-append c (flat contents)))
  Held-drop (suc i) (x ∷ parts) (c ∷ contents) h =
      let (full, _, _, _, _) = h.0 in
      let (held, e, rest) = Held-drop i parts contents h.1 in
      let o = size_of (take i parts) in
      (
        held,
        e
            ∙ (sym (ap (drop o) (drop-append_self c (flat contents)))
                ∙ (drop-drop o (length c) (c ++ flat contents)
                    ∙ ap (λ n. drop n (c ++ flat contents)) (omega arith))),
        omega (arith, length-append c (flat contents)),
      )

  first_part :
      (parts : List ObjectPartInfo) (contents : List Bytes)
      → Held parts contents
      → 0 < size_of parts
      → LiesAt 0 parts 0 (0, 0)
  unfolding size_of
  first_part [] contents h k = absurd (omega arith)
  first_part (x ∷ parts) [] h k = absurd h
  first_part (x ∷ parts) (c ∷ contents) h k =
      let (_, some_bytes, _, _, _) = h.0 in (0, x, refl, omega arith, some_bytes, refl)

  -- Every offset inside the object, also 0, is found in its part.
  found :
      (contents : List Bytes) (offset : ℕ)
      → Held meta.parts contents
      → offset < size_of meta.parts
      → (at : ℕ × ℕ) × (object_to_part_offset meta offset ≡ some at) × LiesAt 0 meta.parts offset at
  unfolding object_to_part_offset
  found contents zero h k = ((0, 0), refl, first_part meta.parts contents h k)
  found contents (suc offset) h k = object_to_part_offset-found meta (suc offset) (omega arith) k

  last_found :
      (end : ℕ) (at : ℕ × ℕ)
      → 0 < end
      → object_to_part_offset meta (end - 1) ≡ some at
      → last_part_index meta end ≡ some at.0
  unfolding last_part_index
  last_found end at h e = let t : (end == 0) ≡ false = ground arith in rw (t, e) refl

  -- The parts from the one with the first byte to the one with the last byte.
  parts_read :
      {E : Type 0} (contents : List Bytes) (start len : ℕ) (dst : Bytes) (at last : ℕ × ℕ)
      → Held meta.parts contents
      → meta.erasure.data_blocks ≤ available (map (steady_disk steady) online)
      → 0 < len
      → LiesAt 0 meta.parts start at
      → LiesAt 0 meta.parts (start + len - 1) last
      → read_parts {E = E} bit_rot_algo files coder append_to meta metas len
          (suc last.0 - at.0)
          (drop at.0 meta.parts)
          at.1
          0
          dst
          online
        ≡ got (dst ++ range start len (flat contents))
  parts_read contents start len dst at last h many some_len (i, part, g, a, b, c)
        (j, part', g', a', b', c') =
      let i' : at.0 ≡ i = omega arith in
      let j' : last.0 ≡ j = omega arith in
      let (held, flat_drop, _) = Held-drop i meta.parts contents h in
      let fits = range_fits meta.parts i j at.1 last.1 len part' g' b' some_len (omega arith) in
      rw (i', j')
        (read_parts-range bit_rot_algo files coder meta metas online shards codes some_size
            some_data same_length steady len (suc j - i) (drop i meta.parts) (drop i contents) at.1
            0 dst online held (Starts-drop i at.1 meta.parts part g b) (Part-refl online)
            same_length many (omega arith) (omega arith)
          ∙ ap (λ x. got (dst ++ x))
              (ap (λ n. range at.1 n (flat (drop i contents))) (omega arith)
                ∙ ap (take len) (
                    ap (drop at.1) flat_drop
                    ∙ (drop-drop at.1 (size_of (take i meta.parts)) (flat contents)
                        ∙ ap (λ n. drop n (flat contents)) (sym c)))))

module _ {D E : Type 0} (layer : Layer E) (files : PartFiles D) (coder : Coder) (meta : XlMetaV1)
    (metas : List XlMetaV1) (online : List (Option D)) (shards : Bytes → List Bytes)
    (codes : Codes coder meta.erasure.data_blocks meta.erasure.parity_blocks shards)
    (some_size : 0 < meta.erasure.block_size) (some_data : 0 < meta.erasure.data_blocks)
    (same_length : length online ≡ length metas) (steady : D → Bool) where
  get_range-range :
      (contents : List Bytes) (start len : ℕ) (dst : Bytes)
      → AllHold layer.bit_rot_algo files coder meta metas online shards codes some_size some_data
          same_length steady meta.parts contents
      → meta.stat.size ≡ size_of meta.parts
      → meta.erasure.data_blocks ≤ available (map (steady_disk steady) online)
      → 0 < len
      → start + len ≤ meta.stat.size
      → get_range layer files coder append_to meta online metas start len dst
        ≡ got (dst ++ range start len (flat contents))
  unfolding get_range
  get_range-range contents start len dst h size many p w =
      let inside : (ltb meta.stat.size start || ltb meta.stat.size (start + len)) ≡ false =
        ground arith in
      let (at, e, lies) =
        found layer.bit_rot_algo files coder meta metas online shards codes some_size some_data
          same_length steady contents start h (omega arith) in
      let (last, e', lies') =
        found layer.bit_rot_algo files coder meta metas online shards codes some_size some_data
          same_length steady contents (start + len - 1) h (omega arith) in
      let l =
        last_found layer.bit_rot_algo files coder meta metas online shards codes some_size some_data
          same_length steady (start + len) last (omega arith) e' in
      rw (inside, e, l)
        (parts_read layer.bit_rot_algo files coder meta metas online shards codes some_size
          some_data same_length steady contents start len dst at last h many p lies lies')

  -- Let the metadata of an object and its online disks be chosen, with as many metadata as disks,
  -- blocks have a size, there be data blocks, and reedsolomon keep the laws of Codes; let the
  -- parts have the size of the object together, none be empty, all that the disks give of a part
  -- be shards of its bytes, and as many disks as there are data blocks pass the checksum of every
  -- part and give every chunk. Then GetObject with a range of at least a byte in the object writes
  -- exactly these bytes of the joined parts, over the borders of parts, whatever fails on the
  -- other disks; and with a negative length all bytes from the offset on.
  pub get_object-range :
      (storage_disks : List (Option D)) (meta_arr : List XlMetaV1) (errs : List (Option (Error E)))
      (contents : List Bytes) (start len m : ℕ) (dst : Bytes)
      → choose_meta layer storage_disks meta_arr errs ≡ chosen meta online metas
      → AllHold layer.bit_rot_algo files coder meta metas online shards codes some_size some_data
          same_length steady meta.parts contents
      → meta.stat.size ≡ size_of meta.parts
      → meta.erasure.data_blocks ≤ available (map (steady_disk steady) online)
      → 0 < len
      → start + len ≤ meta.stat.size
      → (get_object layer files coder append_to storage_disks meta_arr errs
            (pos start)
            (pos len)
            dst
          ≡ got (dst ++ range start len (flat contents)))
        × (get_object layer files coder append_to storage_disks meta_arr errs
              (pos start)
              (negsuc m)
              dst
            ≡ got (dst ++ range start (meta.stat.size - start) (flat contents)))
  unfolding get_object
  get_object-range storage_disks meta_arr errs contents start len m dst e h size many p w =
      let inside : ltb meta.stat.size start ≡ false = ground arith in
      (
        rw (e, get_object) (get_range-range contents start len dst h size many p w),
        rw (e, inside, get_object)
            (get_range-range contents start (meta.stat.size - start) dst h size many (omega arith)
              (omega arith)),
      )
