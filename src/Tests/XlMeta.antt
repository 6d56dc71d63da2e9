-- ===== src/Tests/XlMeta.antt =====
-- cmd/xl-v1-metadata.go on an object of two parts.
use minio.Base.{ℕ, ◌≡◌, refl, [], ◌∷◌, some, arith, if◌then◌else◌, ◌==◌}
use minio.Base.Text.{codes, text_discrete}
use minio.XlMeta.{
  ObjectPartInfo, CheckSumInfo, ErasureInfo, XlMetaV1, xl_meta_version, xl_meta_format,
  blake2b_algo, add_check_sums, add_check_sum_info, find_check_sum, get_check_sum_info, update_part,
  insert_part, sort_parts, add_part, add_object_part, seek_part, object_to_part_offset, hash_order,
  order_from,
}
use minio.XlMeta.Parts.{find_part, AscendFrom, add_object_part_lem}
use minio.XlMeta.Offsets.{size_of}

program : Unit {0}
unfolding add_check_sums add_check_sum_info find_check_sum get_check_sum_info update_part
    insert_part sort_parts add_part add_object_part seek_part object_to_part_offset find_part
    size_of text_discrete hash_order order_from
program = tt

abbrev erasure : ErasureInfo
erasure = record {
  algorithm = [];
  data_blocks = 2;
  parity_blocks = 2;
  block_size = 10;
  index = 1;
  distribution = [];
  checksum = [];
}

abbrev part : ℕ → ℕ → ObjectPartInfo
part number size = record { number = number; name = []; etag = []; size = size }

abbrev meta : XlMetaV1
meta = record {
  version = xl_meta_version;
  format = xl_meta_format;
  stat = record { size = 8; mod_time = 1 };
  erasure = erasure;
  release = [];
  meta = [];
  parts = part 1 5 ∷ part 3 3 ∷ [];
}

abbrev sum : CheckSumInfo
sum = record { name = codes "part.1"; algorithm = blake2b_algo; hash = [] }

hash_order_test : hash_order (λ key. 6) [] 4 ≡ some (1 ∷ 2 ∷ 3 ∷ 4 ∷ [])
unfolding program
hash_order_test = refl

add_object_part_test : (add_object_part meta 2 [] [] 4).parts ≡ part 1 5 ∷ part 2 4 ∷ part 3 3 ∷ []
unfolding program
add_object_part_test = refl

add_object_part_lem_example :
    AscendFrom 0 (add_object_part meta 2 [] [] 4).parts
    × ((k : ℕ)
        → find_part (add_object_part meta 2 [] [] 4).parts k
          ≡ (if 2 == k then some (part 2 4) else find_part meta.parts k))
add_object_part_lem_example = add_object_part_lem meta 2 [] [] 4 (omega arith, (omega arith, tt))
