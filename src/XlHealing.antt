-- ===== src/XlHealing.antt =====
-- cmd/xl-v1-healing-common.go: the common modification time of the copies of an object, the disks that
-- have it, and what is to be healed. Times are nanoseconds from 1 January of the year 1, the zero of
-- Go's `time.Time`. The slices that run over the disks have the same length.
pub mod CommonTime
pub mod Outdated
use minio.Base.{
  ℕ, zero, suc, ◌+◌, ◌-◌, Bool, true, false, not, ◌&&◌, ◌||◌, List, [], ◌∷◌, Option, none, some,
  ltb, leb, ◌==◌, if◌then◌else◌, length, replicate, ℕ_discrete,
}
use minio.Base.Assoc.{get, put}
use minio.Quorum.{Error, plain, traced, error_cause}
use minio.XlMeta.{XlMetaV1, StatInfo, ErasureInfo, pick_valid_xl_meta}

-- The errors that the code tells apart.
pub data StorageError : Type 0 where
  file_not_found disk_not_found other_error : StorageError

-- `timeSentinel`, the beginning of Unix time.
abbrev pub time_sentinel : ℕ
time_sentinel = 62135596800000000000

-- The first loop of `commonTime`: how often each time but the sentinel occurs.
unfoldable pub time_counts : List ℕ → List (ℕ × ℕ) → List (ℕ × ℕ)
time_counts [] counts = counts
time_counts (t ∷ times) counts = time_counts times (
    if t == time_sentinel
    then counts
    else put ℕ_discrete t (elim (get ℕ_discrete t counts) [ none ↦ 1 | some n ↦ n + 1 ]) counts)

-- One round of the second loop.
unfoldable pub later : ℕ × ℕ → ℕ × ℕ → ℕ × ℕ
later (t, count) (mod_time, maxima) =
    if count == maxima && ltb mod_time t
    then (t, maxima)
    else if ltb maxima count
    then (t, count)
    else (mod_time, maxima)

unfoldable pub latest : List (ℕ × ℕ) → ℕ × ℕ → ℕ × ℕ
latest [] best = best
latest (entry ∷ rest) best = latest rest (later entry best)

-- `commonTime`; `shuffle` is the order in which Go walks the map.
unfoldable pub common_time : (List (ℕ × ℕ) → List (ℕ × ℕ)) → List ℕ → ℕ × ℕ
common_time shuffle mod_times = latest (shuffle (time_counts mod_times [])) (0, 0)

-- `bootModtimes`.
unfoldable pub boot_modtimes : ℕ → List ℕ
boot_modtimes disk_count = replicate disk_count time_sentinel

abbrev pub Errors : Type 0
Errors = List (Option (Error StorageError))

-- The loop of `listObjectModtimes`. The comparison is with the error itself, not with its cause.
unfoldable pub set_modtimes : ℕ → List XlMetaV1 → Errors → List ℕ → List ℕ
set_modtimes now (meta ∷ metas) (none ∷ errs) (t ∷ times) =
    meta.stat.mod_time ∷ set_modtimes now metas errs times
set_modtimes now (meta ∷ metas) (some (plain file_not_found) ∷ errs) (t ∷ times) =
    now ∷ set_modtimes now metas errs times
set_modtimes now (meta ∷ metas) (some e ∷ errs) (t ∷ times) = t ∷ set_modtimes now metas errs times
set_modtimes now metas errs times = times

unfoldable pub list_object_modtimes : ℕ → List XlMetaV1 → Errors → List ℕ
list_object_modtimes now metas errs = set_modtimes now metas errs (boot_modtimes (length metas))

abbrev pub is_none : {D : Type 0} → Option D → Bool
is_none none = true
is_none (some d) = false

abbrev pub is_file_not_found : Error StorageError → Bool
is_file_not_found e = elim (error_cause e) [ file_not_found ↦ true | _ ↦ false ]

module _ {D : Type 0} (shuffle : List (ℕ × ℕ) → List (ℕ × ℕ)) (now : ℕ) where
  -- The loop of `listOnlineDisks`.
  unfoldable pub disks_at : ℕ → List ℕ → List (Option D) → List (Option D)
  disks_at mod_time (t ∷ times) (disk ∷ disks) =
      (if t == mod_time then disk else none) ∷ disks_at mod_time times disks
  disks_at mod_time times disks = []

  unfoldable pub list_online_disks : List (Option D) → List XlMetaV1 → Errors → List (Option D) × ℕ
  list_online_disks disks metas errs =
      let mod_times = list_object_modtimes now metas errs in
      let mod_time = (common_time shuffle mod_times).0 in
      (disks_at mod_time mod_times disks, mod_time)

  -- The loop of `outDatedDisks`.
  unfoldable pub collect_out_dated : List (Option D) → List (Option D) → Errors → List (Option D)
  collect_out_dated (latest_disk ∷ latest_disks) (disk ∷ disks) (err ∷ errs) =
      (elim err [
        | some e ↦ if is_file_not_found e then disk else none
        | none ↦ if is_none latest_disk then disk else none
      ])
      ∷ collect_out_dated latest_disks disks errs
  collect_out_dated latest_disks disks errs = []

  unfoldable pub out_dated_disks : List (Option D) → List XlMetaV1 → Errors → List (Option D)
  out_dated_disks disks metas errs =
      collect_out_dated (list_online_disks disks metas errs).0 disks errs

-- The loop of `xlShouldHeal`.
unfoldable pub any_to_heal : ℕ → List XlMetaV1 → Errors → Bool
any_to_heal mod_time (meta ∷ metas) (err ∷ errs) =
    let rest = any_to_heal mod_time metas errs in
    elim err [
      | some (plain disk_not_found) ↦ rest
      | some e ↦ true
      | none ↦ if not (mod_time == meta.stat.mod_time) then true else rest
    ]
any_to_heal mod_time metas errs = false

unfoldable pub xl_should_heal : (List (ℕ × ℕ) → List (ℕ × ℕ)) → ℕ → List XlMetaV1 → Errors → Bool
xl_should_heal shuffle now metas errs =
    any_to_heal (common_time shuffle (list_object_modtimes now metas errs)).0 metas errs

pub data HealStatus : Type 0 where
  can_heal corrupted quorum_unavailable : HealStatus

pub record HealInfo : Type 0 where
  pub status : HealStatus
  pub missing_data_count : ℕ
  pub missing_parity_count : ℕ

abbrev pub is_missing : Option (Error StorageError) → Bool
is_missing none = false
is_missing (some e) = elim (error_cause e) [
  | file_not_found ↦ true
  | disk_not_found ↦ true
  | _ ↦ false
]

-- The loop of `xlHealStat` over the errors and the distribution.
unfoldable pub count_missing : ℕ → List ℕ → Errors → ℕ → ℕ → ℕ × ℕ
count_missing data_blocks (block ∷ distribution) (err ∷ errs) d p =
    let is_data = ltb (block - 1) data_blocks in
    if is_missing err
    then count_missing data_blocks distribution errs (if is_data then d + 1 else d)
        (if is_data then p else p + 1)
    else count_missing data_blocks distribution errs d p
count_missing data_blocks distribution errs d p = (d, p)

-- `xlHealStat`, with the read quorum and the number of data blocks of the object layer.
unfoldable pub xl_heal_stat :
    (List (ℕ × ℕ) → List (ℕ × ℕ)) → ℕ → ℕ → ℕ → List XlMetaV1 → Errors → HealInfo
xl_heal_stat shuffle now read_quorum data_blocks metas errs =
    let (mod_time, count) = common_time shuffle (list_object_modtimes now metas errs) in
    if ltb count read_quorum
    then record { status = quorum_unavailable; missing_data_count = 0; missing_parity_count = 0 }
    else elim (pick_valid_xl_meta metas mod_time) [
      | none ↦ record { status = corrupted; missing_data_count = 0; missing_parity_count = 0 }
      | some meta ↦
          let (d, p) = count_missing data_blocks meta.erasure.distribution errs 0 0 in
          record { status = can_heal; missing_data_count = d; missing_parity_count = p }
    ]
