-- ===== src/Tests/XlObject.antt =====
-- `GetObject` of cmd/xl-v1-object.go on an object of two parts, over two disks that mirror each other, of
-- which the first one is damaged.
use minio.Base.{
  ℕ, zero, suc, ◌*◌, ◌≤◌, ◌≡◌, refl, Bool, true, false, List, [], ◌∷◌, Option, none, some, arith,
  ◌==◌, if◌then◌else◌, length, take, drop, ℕ_discrete,
}
use minio.Base.Int.{pos, negsuc}
use minio.Base.Assoc.{get, put}
use minio.Base.Text.{Text, text_discrete}
use minio.Quorum.{
  Error, error_cause, errors_cause, is_err_ignored, error_counts, max_count, reduce_errs,
  reduce_quorum_errs, count_not_ignored, is_disk_quorum,
}
use minio.Distribution.{place, get_ordered_disks, get_ordered_parts_metadata}
use minio.XlMeta.{
  ObjectPartInfo, CheckSumInfo, XlMetaV1, xl_meta_version, xl_meta_format, is_valid,
  pick_valid_xl_meta, find_check_sum, get_check_sum_info, seek_part, object_to_part_offset,
}
use minio.XlMeta.Offsets.{size_of}
use minio.XlHealing.{
  other_error, time_counts, later, latest, common_time, boot_modtimes, set_modtimes,
  list_object_modtimes, disks_at, list_online_disks,
}
use minio.Erasure.{
  Bytes, get_chunk_size, get_read_disks, pick, count_blocks, is_success_decode_blocks,
  is_success_data_blocks, write_data_blocks, write_blocks, get_data_block_len, sum_lengths,
}
use minio.Erasure.Blocks.{append_to}
use minio.Erasure.Read.Slices.{block_of}
use minio.Erasure.Read.{
  is_valid_block, read_chunk, erasure_read_file, read_blocks, read_block, parallel_read, complete,
  decode_data, no_read_quorum,
}
use minio.XlObject.{
  Layer, PartFiles, check_sums_of, choose_meta, chosen, get_object, got, get_range, last_part_index,
  read_parts, failed_with, part_failed,
}
use minio.XlObject.OnePart.{Holds}
use minio.XlObject.Whole.{get_object-range}
use minio.Tests.Mirror.{coder, shards, codes}

unfoldable same_failure : Discrete (Option ℕ)
unfolding ℕ_discrete
same_failure = hlevel ℕ_discrete

program : Unit {0}
unfolding error_cause errors_cause is_err_ignored error_counts max_count reduce_errs
    reduce_quorum_errs count_not_ignored is_disk_quorum place get_ordered_disks
    get_ordered_parts_metadata is_valid pick_valid_xl_meta find_check_sum get_check_sum_info
    time_counts later latest common_time boot_modtimes set_modtimes list_object_modtimes disks_at
    list_online_disks get_chunk_size is_valid_block read_chunk check_sums_of choose_meta
    same_failure ℕ_discrete text_discrete get put size_of
program = tt

whole_program : Unit {0}
unfolding program get_object get_range last_part_index read_parts object_to_part_offset seek_part
    erasure_read_file read_blocks read_block parallel_read complete decode_data get_read_disks pick
    count_blocks is_success_decode_blocks is_success_data_blocks write_data_blocks write_blocks
    get_data_block_len sum_lengths
whole_program = tt

abbrev part_1 : ObjectPartInfo
part_1 = record { number = 1; name = 1 ∷ []; etag = []; size = 3 }

abbrev part_2 : ObjectPartInfo
part_2 = record { number = 2; name = 2 ∷ []; etag = []; size = 2 }

abbrev content_of : Text → Bytes
content_of [] = []
content_of (x ∷ name) = if x == 1 then 1 ∷ 2 ∷ 3 ∷ [] else 4 ∷ 5 ∷ []

abbrev sum_of : ObjectPartInfo → CheckSumInfo
sum_of part = record { name = part.name; algorithm = []; hash = part.name }

abbrev meta : XlMetaV1
meta = record {
  version = xl_meta_version;
  format = xl_meta_format;
  stat = record { size = 5; mod_time = 7 };
  erasure = record {
    algorithm = [];
    data_blocks = 1;
    parity_blocks = 1;
    block_size = 2;
    index = 1;
    distribution = 1 ∷ 2 ∷ [];
    checksum = sum_of part_1 ∷ sum_of part_2 ∷ [];
  };
  release = [];
  meta = [];
  parts = part_1 ∷ part_2 ∷ [];
}

abbrev layer : Layer ℕ
layer = record {
  read_quorum = 1;
  same_error = same_failure;
  kind = λ e. other_error;
  quorum_ignored_errs = [];
  object_op_ignored_errs = [];
  err_xl_read_quorum = 9;
  shuffle_errors = λ l. l;
  shuffle_times = λ l. l;
  now = 8;
  bit_rot_algo = [];
  zero_meta = meta;
}

-- The hash of a file is the name of its part, where the disk is intact.
abbrev files : PartFiles Bool
files = record {
  hash_sum = λ algo part disk. some (if disk then part else []);
  pooled = λ disk. true;
  read_file = λ part disk o n. some (take n (drop o (content_of part)));
}

abbrev disks : List (Option Bool)
disks = some false ∷ some true ∷ []

abbrev metas : List XlMetaV1
metas = meta ∷ meta ∷ []

abbrev errs : List (Option (Error ℕ))
errs = none ∷ none ∷ []

chosen_test : choose_meta layer disks metas errs ≡ chosen meta disks metas
unfolding program
chosen_test = refl

serve_1 :
    (k : ℕ)
    → k ≤ 1
    → (take
          (get_chunk_size (length (block_of 2 (content_of part_1.name) k)) 1)
          (drop (k * 2) (content_of part_1.name))
        ≡ block_of 2 (content_of part_1.name) k)
      × Unit {0}
unfolding program
serve_1 zero h = (refl, tt)
serve_1 (suc zero) h = (refl, tt)
serve_1 (suc (suc k)) h = absurd (omega (arith, h))

first_kept :
    Holds [] files coder meta metas disks shards codes
      (omega arith)
      (omega arith)
      refl
      (λ disk. disk)
      part_1
      (content_of part_1.name)
unfolding program
first_kept = (
  refl,
  omega arith,
  serve_1,
  (λ h. h, (λ h. h, tt)),
  λ disk k t h. (
    refl,
    (
      take (get_chunk_size (length (block_of 2 (content_of part_1.name) k)) 1)
          (drop (k * 2) (content_of part_1.name)),
      refl,
    ),
  ),
)

serve_2 :
    (k : ℕ)
    → k ≤ 1
    → (take
          (get_chunk_size (length (block_of 2 (content_of part_2.name) k)) 1)
          (drop (k * 2) (content_of part_2.name))
        ≡ block_of 2 (content_of part_2.name) k)
      × Unit {0}
unfolding program
serve_2 zero h = (refl, tt)
serve_2 (suc zero) h = (refl, tt)
serve_2 (suc (suc k)) h = absurd (omega (arith, h))

second_kept :
    Holds [] files coder meta metas disks shards codes
      (omega arith)
      (omega arith)
      refl
      (λ disk. disk)
      part_2
      (content_of part_2.name)
unfolding program
second_kept = (
  refl,
  omega arith,
  serve_2,
  (λ h. h, (λ h. h, tt)),
  λ disk k t h. (
    refl,
    (
      take (get_chunk_size (length (block_of 2 (content_of part_2.name) k)) 1)
          (drop (k * 2) (content_of part_2.name)),
      refl,
    ),
  ),
)

get_object-range_example :
    (get_object {E = ℕ} layer files coder append_to disks metas errs (pos 2) (pos 2) []
      ≡ got (3 ∷ 4 ∷ []))
    × (get_object {E = ℕ} layer files coder append_to disks metas errs (pos 2) (negsuc 0) []
        ≡ got (3 ∷ 4 ∷ 5 ∷ []))
unfolding program
get_object-range_example =
    get_object-range layer files coder meta metas disks shards codes (omega arith) (omega arith)
      refl (λ disk. disk) disks metas errs ((1 ∷ 2 ∷ 3 ∷ []) ∷ (4 ∷ 5 ∷ []) ∷ []) 2 2 0 []
      chosen_test (first_kept, (second_kept, tt)) refl (omega arith) (omega arith) (omega arith)

-- The first disk has an intact second part alone, and the other one an intact first part alone.
abbrev spread_hash : Bool → Text → Text
spread_hash disk [] = []
spread_hash true (x ∷ part) = if x == 1 then x ∷ part else []
spread_hash false (x ∷ part) = if x == 1 then [] else x ∷ part

abbrev spread : PartFiles Bool
spread = record {
  hash_sum = λ algo part disk. some (spread_hash disk part);
  pooled = λ disk. true;
  read_file = λ part disk o n. some (take n (drop o (content_of part)));
}

-- Every part can be read, but a disk that failed on the first part is not asked for the second one.
spread_damage_test :
    (get_object {E = ℕ} layer spread coder append_to disks metas errs (pos 0) (pos 5) []
      ≡ failed_with (1 ∷ 2 ∷ 3 ∷ []) (part_failed no_read_quorum))
    × (get_object {E = ℕ} layer spread coder append_to disks metas errs (pos 0) (pos 3) []
        ≡ got (1 ∷ 2 ∷ 3 ∷ []))
    × (get_object {E = ℕ} layer spread coder append_to disks metas errs (pos 3) (pos 2) []
        ≡ got (4 ∷ 5 ∷ []))
unfolding whole_program
spread_damage_test = (refl, refl, refl)
