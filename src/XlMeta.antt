-- ===== src/XlMeta.antt =====
-- cmd/xl-v1-metadata.go: the metadata of an object, its parts and their checksums, and from
-- cmd/xl-v1-utils.go the order of the disks.
pub mod Parts
pub mod Offsets
use minio.Base.{
  ℕ, zero, suc, ◌+◌, ◌-◌, ◌%◌, Bool, true, false, ◌&&◌, List, [], ◌∷◌, ◌++◌, Option, none, some,
  ltb, leb, ◌==◌, if◌then◌else◌, length, get_elem?,
}
use minio.Base.Text.{Text, codes, same}

-- `objectPartInfo`; part numbers and sizes are not negative.
pub record ObjectPartInfo : Type 0 where
  pub number : ℕ
  pub name : Text
  pub etag : Text
  pub size : ℕ

pub record CheckSumInfo : Type 0 where
  pub name : Text
  pub algorithm : Text
  pub hash : Text

abbrev pub sha256_algo : Text
sha256_algo = codes "sha256"

abbrev pub blake2b_algo : Text
blake2b_algo = codes "blake2b"

-- The argument is `runtime.GOARCH`.
unfoldable pub get_default_bit_rot_algo : Text → Text
get_default_bit_rot_algo goarch = if same goarch (codes "arm64") then sha256_algo else blake2b_algo

pub record ErasureInfo : Type 0 where
  pub algorithm : Text
  pub data_blocks : ℕ
  pub parity_blocks : ℕ
  pub block_size : ℕ
  pub index : ℕ
  pub distribution : List ℕ
  pub checksum : List CheckSumInfo

unfoldable pub add_check_sums : List CheckSumInfo → CheckSumInfo → List CheckSumInfo
add_check_sums [] info = info ∷ []
add_check_sums (sum ∷ sums) info =
    let rest = add_check_sums sums info in
    if same sum.name info.name then info ∷ sums else sum ∷ rest

unfoldable pub add_check_sum_info : ErasureInfo → CheckSumInfo → ErasureInfo
add_check_sum_info e info = record e { checksum = add_check_sums e.checksum info }

unfoldable pub find_check_sum : List CheckSumInfo → Text → Text → CheckSumInfo
find_check_sum [] bit_rot_algo part_name = record { name = []; algorithm = bit_rot_algo; hash = [] }
find_check_sum (sum ∷ sums) bit_rot_algo part_name =
    let rest = find_check_sum sums bit_rot_algo part_name in
    if same sum.name part_name then sum else rest

unfoldable pub get_check_sum_info : ErasureInfo → Text → Text → CheckSumInfo
get_check_sum_info e bit_rot_algo part_name = find_check_sum e.checksum bit_rot_algo part_name

pub record StatInfo : Type 0 where
  pub size : ℕ
  pub mod_time : ℕ

pub record XlMetaV1 : Type 0 where
  pub version : Text
  pub format : Text
  pub stat : StatInfo
  pub erasure : ErasureInfo
  pub release : Text
  pub meta : List (Text × Text)
  pub parts : List ObjectPartInfo

abbrev pub xl_meta_version : Text
xl_meta_version = codes "1.0.0"

abbrev pub xl_meta_format : Text
xl_meta_format = codes "xl"

abbrev pub erasure_algorithm : Text
erasure_algorithm = codes "klauspost/reedsolomon/vandermonde"

-- 10 MiB.
abbrev pub block_size_v1 : ℕ
block_size_v1 = 10485760

-- The order of the disks from a start on: `1 + (start + i) % cardinality`.
unfoldable pub order_from : ℕ → ℕ → ℕ → ℕ → List ℕ
order_from start cardinality i zero = []
order_from start cardinality i (suc left) =
    (1 + (start + i) % cardinality) ∷ order_from start cardinality (i + 1) left

-- `n | 1`.
abbrev pub with_low_bit : ℕ → ℕ
with_low_bit n = if n % 2 == 0 then n + 1 else n

module _ (crc32 : Text → ℕ) where
  -- `hashOrder`, over the checksum of the key. The cardinality of 0 divides by zero.
  unfoldable pub hash_order : Text → ℕ → Option (List ℕ)
  hash_order key cardinality =
      if cardinality == 0
      then none
      else some (order_from (with_low_bit (crc32 key % cardinality)) cardinality 1 cardinality)

  unfoldable pub new_xl_meta_v1 : Text → Text → ℕ → ℕ → Option XlMetaV1
  new_xl_meta_v1 release object data_blocks parity_blocks =
      elim (hash_order object (data_blocks + parity_blocks)) [
        | none ↦ none
        | some distribution ↦ some (record {
          version = xl_meta_version;
          format = xl_meta_format;
          stat = record { size = 0; mod_time = 0 };
          erasure = record {
            algorithm = erasure_algorithm;
            data_blocks = data_blocks;
            parity_blocks = parity_blocks;
            block_size = block_size_v1;
            index = 0;
            distribution = distribution;
            checksum = [];
          };
          release = release;
          meta = [];
          parts = [];
        })
      ]

unfoldable pub is_valid : XlMetaV1 → Bool
is_valid m = same m.version xl_meta_version && same m.format xl_meta_format

-- `none` is -1.
unfoldable pub object_part_index_from : ℕ → List ObjectPartInfo → ℕ → Option ℕ
object_part_index_from i [] part_number = none
object_part_index_from i (part ∷ parts) part_number =
    let rest = object_part_index_from (i + 1) parts part_number in
    if part_number == part.number then some i else rest

unfoldable pub object_part_index : List ObjectPartInfo → ℕ → Option ℕ
object_part_index parts part_number = object_part_index_from 0 parts part_number

-- The loop that updates a part which is there.
unfoldable pub update_part : List ObjectPartInfo → ObjectPartInfo → Option (List ObjectPartInfo)
update_part [] info = none
update_part (part ∷ parts) info =
    let rest = update_part parts info in
    if info.number == part.number
    then some (info ∷ parts)
    else elim rest [ none ↦ none | some updated ↦ some (part ∷ updated) ]

-- `sort.Sort` by part number.
unfoldable pub insert_part : ObjectPartInfo → List ObjectPartInfo → List ObjectPartInfo
insert_part info [] = info ∷ []
insert_part info (part ∷ parts) =
    let rest = insert_part info parts in
    if ltb part.number info.number then part ∷ rest else info ∷ (part ∷ parts)

unfoldable pub sort_parts : List ObjectPartInfo → List ObjectPartInfo
sort_parts [] = []
sort_parts (part ∷ parts) = insert_part part (sort_parts parts)

unfoldable pub add_part : List ObjectPartInfo → ObjectPartInfo → List ObjectPartInfo
add_part parts info = elim (update_part parts info) [
  | some updated ↦ updated
  | none ↦ sort_parts (parts ++ (info ∷ []))
]

unfoldable pub add_object_part : XlMetaV1 → ℕ → Text → Text → ℕ → XlMetaV1
add_object_part m part_number part_name part_etag part_size = record m {
  parts =
      add_part m.parts
        (record { number = part_number; name = part_name; etag = part_etag; size = part_size });
}

unfoldable pub seek_part : ℕ → List ObjectPartInfo → ℕ → Option (ℕ × ℕ)
seek_part i [] part_offset = none
seek_part i (part ∷ parts) part_offset =
    let rest = seek_part (i + 1) parts (part_offset - part.size) in
    if ltb part_offset part.size then some (i, part_offset) else rest

-- `none` is `InvalidRange`; the offset is not negative.
unfoldable pub object_to_part_offset : XlMetaV1 → ℕ → Option (ℕ × ℕ)
object_to_part_offset m offset = if offset == 0 then some (0, 0) else seek_part 0 m.parts offset

-- `none` is the error that no valid xl.json is present.
unfoldable pub pick_valid_xl_meta : List XlMetaV1 → ℕ → Option XlMetaV1
pick_valid_xl_meta [] mod_time = none
pick_valid_xl_meta (meta ∷ metas) mod_time =
    let rest = pick_valid_xl_meta metas mod_time in
    if is_valid meta && (meta.stat.mod_time == mod_time) then some meta else rest
