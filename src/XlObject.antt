-- ===== src/XlObject.antt =====
-- `GetObject` of cmd/xl-v1-object.go, where the object cache is not enabled: the metadata is chosen by
-- quorum, the disks are put in order, and the parts that hold the range are read one after the other.
pub mod Parts
pub mod Rename
pub mod OnePart
pub mod Range
pub mod Whole
use minio.Base.{
  ℕ, zero, suc, ◌+◌, ◌-◌, Bool, true, false, not, ◌||◌, List, [], ◌∷◌, Option, none, some, ltb,
  ◌==◌, if◌then◌else◌, drop, map,
}
use minio.Base.Int.{ℤ, pos, negsuc}
use minio.Base.Text.{Text, same}
use minio.Quorum.{Error, plain, traced, is_disk_quorum, reduce_quorum_errs}
use minio.Distribution.{get_ordered_disks, get_ordered_parts_metadata}
use minio.XlMeta.{
  ObjectPartInfo, XlMetaV1, get_check_sum_info, object_to_part_offset, pick_valid_xl_meta,
}
use minio.XlHealing.{StorageError, list_online_disks}
use minio.Erasure.{Bytes}
use minio.Erasure.Read.{Storage, Coder, ReadError, ReadResult, done, gave_up, erasure_read_file}

-- What the object layer is given: the read quorum, the errors of the package with the kinds that
-- listOnlineDisks tells apart, the orders in which maps are walked, the current time, the default
-- checksum algorithm, and the zero value of the metadata.
pub record Layer (E : Type 0) : Type 0 where
  pub read_quorum : ℕ
  pub same_error : Discrete (Option E)
  pub kind : E → StorageError
  pub quorum_ignored_errs : List E
  pub object_op_ignored_errs : List E
  pub err_xl_read_quorum : E
  pub shuffle_errors : List (Option E × ℕ) → List (Option E × ℕ)
  pub shuffle_times : List (ℕ × ℕ) → List (ℕ × ℕ)
  pub now : ℕ
  pub bit_rot_algo : Text
  pub zero_meta : XlMetaV1

-- What a disk gives of a part: the hash of its file under an algorithm in hexadecimal, whether the pool
-- has a buffer for it, and a chunk of the file.
pub record PartFiles (D : Type 0) : Type 0 where
  pub hash_sum : Text → Text → D → Option Text
  pub pooled : D → Bool
  pub read_file : Text → D → ℕ → ℕ → Option Bytes

-- The errors of `GetObject`; `index_panic` is the panic for a part or a distribution out of range.
pub data GetError (E : Type 0) : Type 0 where
  unexpected insufficient_read_quorum no_valid_meta invalid_range index_panic : GetError E
  meta_failed : Error E → GetError E
  part_failed : ReadError → GetError E

-- The metadata, the disks and the metadata of all disks in order, or an error.
pub data Chosen (D E : Type 0) : Type 0 where
  chosen : XlMetaV1 → List (Option D) → List XlMetaV1 → Chosen D E
  refused : GetError E → Chosen D E

-- What was written, and nil or the error.
pub record GetResult (E W : Type 0) : Type 0 where
  pub dst : W
  pub error : Option (GetError E)

abbrev pub got : {E W : Type 0} → W → GetResult E W
got dst = record { dst = dst; error = none }

abbrev pub failed_with : {E W : Type 0} → W → GetError E → GetResult E W
failed_with dst e = record { dst = dst; error = some e }

abbrev pub storage_error :
    {E : Type 0} → (E → StorageError) → Option (Error E) → Option (Error StorageError)
storage_error kind none = none
storage_error kind (some (plain e)) = some (plain (kind e))
storage_error kind (some (traced e)) = some (traced (kind e))

module _ {D E : Type 0} (layer : Layer E) where
  -- From the metadata of all disks and their errors to the disks in the order of the distribution.
  unfoldable pub choose_meta :
      List (Option D) → List XlMetaV1 → List (Option (Error E)) → Chosen D E
  choose_meta storage_disks meta_arr errs =
      let (online_disks, mod_time) =
        list_online_disks layer.shuffle_times layer.now storage_disks meta_arr
          (map (storage_error layer.kind) errs) in
      if not (is_disk_quorum layer.same_error errs layer.quorum_ignored_errs layer.read_quorum)
      then refused insufficient_read_quorum
      else elim (reduce_quorum_errs layer.same_error layer.shuffle_errors errs
          layer.object_op_ignored_errs layer.read_quorum layer.err_xl_read_quorum) [
            | some e ↦ refused (meta_failed e)
            | none ↦ elim (pick_valid_xl_meta meta_arr mod_time) [
              | none ↦ refused no_valid_meta
              | some meta ↦ elim (get_ordered_disks meta.erasure.distribution online_disks) [
                | none ↦ refused index_panic
                | some disks ↦
                    elim (get_ordered_parts_metadata layer.zero_meta meta.erasure.distribution
                      meta_arr) [
                        | none ↦ refused index_panic
                        | some metas ↦ chosen meta disks metas
                      ]
              ]
            ]
          ]

-- The loop over the disks that collects the checksums of a part, with the disks that they are of, and
-- the algorithm.
unfoldable pub check_sums_of :
    {D : Type 0}
    → Text
    → Text
    → List (Option D)
    → List XlMetaV1
    → Text
    → List (Option (D × Text)) × Text
check_sums_of bit_rot_algo part_name (none ∷ disks) (meta ∷ metas) ck_sum_algo =
    let rest = check_sums_of bit_rot_algo part_name disks metas ck_sum_algo in
    (none ∷ rest.0, rest.1)
check_sums_of bit_rot_algo part_name (some disk ∷ disks) (meta ∷ metas) ck_sum_algo =
    let info = get_check_sum_info meta.erasure bit_rot_algo part_name in
    let rest =
      check_sums_of bit_rot_algo part_name disks metas
        (if not (same ck_sum_algo []) then info.algorithm else ck_sum_algo) in
    (some (disk, info.hash) ∷ rest.0, rest.1)
check_sums_of bit_rot_algo part_name disks metas ck_sum_algo = ([], ck_sum_algo)

-- The file of a part on a disk, with its checksum, as `erasureReadFile` sees it.
abbrev pub part_storage : {D : Type 0} → PartFiles D → Text → Text → Storage (D × Text)
part_storage files part_name algo = record {
  check_sum = λ disk. disk.1;
  hash_sum = λ disk. files.hash_sum algo part_name disk.0;
  pooled = λ disk. files.pooled disk.0;
  read_file = λ disk. files.read_file part_name disk.0;
}

-- Without the checksums.
abbrev pub strip : {D : Type 0} → List (Option (D × Text)) → List (Option D)
strip [] = []
strip (none ∷ disks) = none ∷ strip disks
strip (some disk ∷ disks) = some disk.0 ∷ strip disks

module _ {D E W : Type 0} (bit_rot_algo : Text) (files : PartFiles D) (coder : Coder)
    (copy : W → Bytes → Option W) (meta : XlMetaV1) (metas : List XlMetaV1) (len : ℕ) where
  -- The loop over the parts from the first one on, for as many as there are up to the last one. The
  -- disks that fail are taken out of the slice for all parts that follow.
  unfoldable pub read_parts : ℕ → List ObjectPartInfo → ℕ → ℕ → W → List (Option D) → GetResult E W
  read_parts zero parts part_offset total_bytes_read dst disks = got dst
  read_parts (suc left) [] part_offset total_bytes_read dst disks =
      if len == total_bytes_read then got dst else failed_with dst index_panic
  read_parts (suc left) (part ∷ parts) part_offset total_bytes_read dst disks =
      let read_size =
        if ltb (len - total_bytes_read) (part.size - part_offset)
        then len - total_bytes_read
        else part.size - part_offset in
      let check_sums = check_sums_of bit_rot_algo part.name disks metas [] in
      let r =
        erasure_read_file (part_storage files part.name check_sums.1) coder copy dst check_sums.0
          (pos part_offset) (pos read_size) part.size meta.erasure.block_size
          meta.erasure.data_blocks meta.erasure.parity_blocks in
      let next : GetResult E W = elim r.status [
        | gave_up e ↦ failed_with r.dst (part_failed e)
        | done disks' ↦
            read_parts left parts 0 (total_bytes_read + r.bytes_written) r.dst (strip disks')
      ] in
      if len == total_bytes_read then got dst else next

-- The index of the part that holds the last byte in front of an end; before the first byte, that is
-- the first part.
unfoldable pub last_part_index : XlMetaV1 → ℕ → Option ℕ
last_part_index meta end =
    if end == 0
    then (elim meta.parts [ [] ↦ none | _ ∷ _ ↦ some 0 ])
    else elim (object_to_part_offset meta (end - 1)) [ none ↦ none | some at ↦ some at.0 ]

module _ {D E W : Type 0} (layer : Layer E) (files : PartFiles D) (coder : Coder)
    (copy : W → Bytes → Option W) where
  -- From the metadata on, for an offset and a length that are not negative.
  unfoldable pub get_range : XlMetaV1 → List (Option D) → List XlMetaV1 → ℕ → ℕ → W → GetResult E W
  get_range meta disks metas start_offset len writer =
      if ltb meta.stat.size start_offset || ltb meta.stat.size (start_offset + len)
      then failed_with writer invalid_range
      else elim (object_to_part_offset meta start_offset) [
        | none ↦ failed_with writer invalid_range
        | some (part_index, part_offset) ↦ elim (last_part_index meta (start_offset + len)) [
          | none ↦ failed_with writer invalid_range
          | some last ↦
              read_parts layer.bit_rot_algo files coder copy meta metas len (suc last - part_index)
                (drop part_index meta.parts) part_offset 0 writer disks
        ]
      ]

  -- `GetObject`, with the metadata that was read from all disks. A negative length asks for the rest of
  -- the object. Offsets and lengths are below 2^62, so that their sum does not wrap.
  unfoldable pub get_object :
      List (Option D) → List XlMetaV1 → List (Option (Error E)) → ℤ → ℤ → W → GetResult E W
  get_object storage_disks meta_arr errs (negsuc n) len writer = failed_with writer unexpected
  get_object storage_disks meta_arr errs (pos start_offset) len writer =
      elim (choose_meta layer storage_disks meta_arr errs) [
        | refused e ↦ failed_with writer e
        | chosen meta disks metas ↦ elim len [
          | pos n ↦ get_range meta disks metas start_offset n writer
          | negsuc n ↦
              if ltb meta.stat.size start_offset
              then failed_with writer invalid_range
              else get_range meta disks metas start_offset (meta.stat.size - start_offset) writer
        ]
      ]
