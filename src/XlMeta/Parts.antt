-- ===== src/XlMeta/Parts.antt =====
-- The parts and the checksums of cmd/xl-v1-metadata.go: what adding one does to the others.
use minio.Base.{
  ℕ, ◌+◌, ◌≤◌, ◌<◌, ◌≡◌, ◌∙◌, refl, List, [], ◌∷◌, ◌++◌, Option, none, some, arith, ◌==◌,
  if◌then◌else◌, Option-cases, Bool-cases, inl, inr,
}
use minio.Base.Text.{Text, same}
use minio.XlMeta.{
  ObjectPartInfo, CheckSumInfo, ErasureInfo, XlMetaV1, add_check_sums, add_check_sum_info,
  find_check_sum, get_check_sum_info, update_part, insert_part, sort_parts, add_part,
  add_object_part,
}

-- The part with this number.
unfoldable pub find_part : List ObjectPartInfo → ℕ → Option ObjectPartInfo
find_part [] k = none
find_part (part ∷ parts) k = if part.number == k then some part else find_part parts k

-- The numbers ascend, from at least this one.
abbrev pub AscendFrom : ℕ → List ObjectPartInfo → Type 0
AscendFrom n [] = Unit
AscendFrom n (part ∷ parts) = (n ≤ part.number) × AscendFrom (part.number + 1) parts

-- No number twice.
abbrev Nodup : List ObjectPartInfo → Type 0
Nodup [] = Unit
Nodup (part ∷ parts) = (find_part parts part.number ≡ none) × Nodup parts

find_part-below :
    (n k : ℕ) (parts : List ObjectPartInfo) → AscendFrom n parts → k < n → find_part parts k ≡ none
unfolding find_part
find_part-below n k [] a h = refl
find_part-below n k (part ∷ parts) a h = ground (arith, find_part-below (part.number + 1) k parts)

find_part-insert_part :
    (info : ObjectPartInfo) (parts : List ObjectPartInfo) (k : ℕ)
    → find_part (insert_part info parts) k
      ≡ (if info.number == k then some info else find_part parts k)
unfolding find_part insert_part
find_part-insert_part info [] k = refl
find_part-insert_part info (part ∷ parts) k = ground (arith, find_part-insert_part info parts k)

insert_part-AscendFrom :
    (n : ℕ) (info : ObjectPartInfo) (parts : List ObjectPartInfo)
    → AscendFrom n parts
    → n ≤ info.number
    → find_part parts info.number ≡ none
    → AscendFrom n (insert_part info parts)
unfolding find_part insert_part
insert_part-AscendFrom n info [] a h f = (h, tt)
insert_part-AscendFrom n info (part ∷ parts) a h f =
    ground (arith, insert_part-AscendFrom (part.number + 1) info parts)

find_part-sort_parts :
    (parts : List ObjectPartInfo) (k : ℕ) → find_part (sort_parts parts) k ≡ find_part parts k
unfolding find_part sort_parts
find_part-sort_parts [] k = refl
find_part-sort_parts (part ∷ parts) k =
    let a = find_part-insert_part part (sort_parts parts) k in
    let b = find_part-sort_parts parts k in ground arith

sort_parts-AscendFrom :
    (parts : List ObjectPartInfo) → Nodup parts → AscendFrom 0 (sort_parts parts)
unfolding sort_parts
sort_parts-AscendFrom [] d = tt
sort_parts-AscendFrom (part ∷ parts) d =
    insert_part-AscendFrom 0 part (sort_parts parts) (sort_parts-AscendFrom parts d.1) (omega arith)
      (find_part-sort_parts parts part.number ∙ d.0)

find_part-append :
    (parts : List ObjectPartInfo) (info : ObjectPartInfo) (k : ℕ)
    → find_part parts info.number ≡ none
    → find_part (parts ++ (info ∷ [])) k
      ≡ (if info.number == k then some info else find_part parts k)
unfolding find_part
find_part-append [] info k h = refl
find_part-append (part ∷ parts) info k h = ground (arith, find_part-append parts info k)

append-Nodup :
    (n : ℕ) (parts : List ObjectPartInfo) (info : ObjectPartInfo)
    → AscendFrom n parts
    → find_part parts info.number ≡ none
    → Nodup (parts ++ (info ∷ []))
unfolding find_part
append-Nodup n [] info a h = (refl, tt)
append-Nodup n (part ∷ parts) info a h =
    let f : find_part parts info.number ≡ none = ground arith in
    let g = find_part-append parts info part.number f in
    let b = find_part-below (part.number + 1) part.number parts a.1 (omega arith) in
    (ground arith, append-Nodup (part.number + 1) parts info a.1 f)

update_part-none :
    (parts : List ObjectPartInfo) (info : ObjectPartInfo)
    → update_part parts info ≡ none
    → find_part parts info.number ≡ none
unfolding find_part update_part
update_part-none [] info h = refl
update_part-none (part ∷ parts) info h = ground (arith, update_part-none parts info)

update_part-some :
    (n : ℕ) (parts updated : List ObjectPartInfo) (info : ObjectPartInfo)
    → AscendFrom n parts
    → update_part parts info ≡ some updated
    → AscendFrom n updated
      × ((k : ℕ)
          → find_part updated k ≡ (if info.number == k then some info else find_part parts k))
unfolding find_part update_part
update_part-some n [] updated info a h = absurd (cc)
update_part-some n (part ∷ parts) updated info a h =
    elim (Bool-cases (info.number == part.number)) [
      | inl t ↦
          let q : updated ≡ info ∷ parts = ground arith in rw q (ground arith, λ k. ground arith)
      | inr t ↦ elim (Option-cases (update_part parts info)) [
        | inl e ↦ absurd (ground arith)
        | inr (u, e) ↦
            let q : updated ≡ part ∷ u = ground arith in
            let ih = update_part-some (part.number + 1) parts u info a.1 e in
            rw q ((a.0, ih.0), λ k. let f = ih.1 k in ground arith)
      ]
    ]

-- Adding a part to parts with ascending numbers leaves them ascending, and under every number
-- there is what was there, except for the number of the part, which has the new part.
pub add_object_part_lem :
    (m : XlMetaV1) (part_number : ℕ) (part_name part_etag : Text) (part_size : ℕ)
    → AscendFrom 0 m.parts
    → AscendFrom 0 (add_object_part m part_number part_name part_etag part_size).parts
      × ((k : ℕ)
          → find_part (add_object_part m part_number part_name part_etag part_size).parts k ≡ (
              if part_number == k
              then some (record {
                number = part_number;
                name = part_name;
                etag = part_etag;
                size = part_size;
              })
              else find_part m.parts k))
unfolding add_object_part add_part
add_object_part_lem m part_number part_name part_etag part_size a =
    let info : ObjectPartInfo = record {
      number = part_number;
      name = part_name;
      etag = part_etag;
      size = part_size;
    } in
    elim (Option-cases (update_part m.parts info)) [
      | inl e ↦
          let f = update_part-none m.parts info e in
          rw (e, add_part)
            (
              sort_parts-AscendFrom (m.parts ++ (info ∷ [])) (append-Nodup 0 m.parts info a f),
              λ k.
                  find_part-sort_parts (m.parts ++ (info ∷ [])) k
                  ∙ find_part-append m.parts info k f,
            )
      | inr (u, e) ↦ rw (e, add_part) (update_part-some 0 m.parts u info a e)
    ]

find_check_sum-add_check_sums :
    (sums : List CheckSumInfo) (info : CheckSumInfo) (bit_rot_algo name : Text)
    → find_check_sum (add_check_sums sums info) bit_rot_algo name
      ≡ (if same info.name name then info else find_check_sum sums bit_rot_algo name)
unfolding find_check_sum add_check_sums
find_check_sum-add_check_sums [] info bit_rot_algo name = refl
find_check_sum-add_check_sums (sum ∷ sums) info bit_rot_algo name =
    ground (arith, find_check_sum-add_check_sums sums info bit_rot_algo name)

-- After `AddCheckSumInfo`, `GetCheckSumInfo` returns the new checksum for its part and what it
-- returned before for every other part.
pub get_check_sum_info-add_check_sum_info :
    (e : ErasureInfo) (info : CheckSumInfo) (bit_rot_algo name : Text)
    → get_check_sum_info (add_check_sum_info e info) bit_rot_algo name
      ≡ (if same info.name name then info else get_check_sum_info e bit_rot_algo name)
unfolding get_check_sum_info add_check_sum_info
get_check_sum_info-add_check_sum_info e info bit_rot_algo name =
    find_check_sum-add_check_sums e.checksum info bit_rot_algo name
