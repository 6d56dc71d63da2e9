-- ===== src/Tests/XlHealing.antt =====
-- cmd/xl-v1-healing-common.go on four disks.
use minio.Base.{
  ℕ, ◌≡◌, ◌⊎◌, ◌↔◌, refl, inl, inr, List, [], ◌∷◌, ◌++◌, Option, none, some, All, ℕ_discrete,
}
use minio.Base.Text.{codes, text_discrete}
use minio.Base.Assoc.{get, put}
use minio.Quorum.{plain, traced, error_cause}
use minio.XlMeta.{XlMetaV1, is_valid, pick_valid_xl_meta}
use minio.XlHealing.{
  file_not_found, disk_not_found, time_sentinel, time_counts, later, latest, common_time,
  boot_modtimes, set_modtimes, list_object_modtimes, disks_at, list_online_disks, collect_out_dated,
  out_dated_disks, any_to_heal, xl_should_heal, Errors, xl_heal_stat, count_missing, can_heal,
}
use minio.XlHealing.CommonTime.{Has, IsShuffle, IsCommon, common_time-IsCommon}
use minio.XlHealing.Outdated.{out_dated_disks-Empty}

program : Unit {0}
unfolding time_counts later latest common_time boot_modtimes set_modtimes list_object_modtimes
    disks_at list_online_disks collect_out_dated out_dated_disks any_to_heal xl_should_heal
    xl_heal_stat count_missing get put error_cause ℕ_discrete text_discrete is_valid
    pick_valid_xl_meta
program = tt

abbrev as_it_is : List (ℕ × ℕ) → List (ℕ × ℕ)
as_it_is l = l

-- The last entry first.
abbrev backwards : List (ℕ × ℕ) → List (ℕ × ℕ)
backwards [] = []
backwards (e ∷ l) = backwards l ++ (e ∷ [])

Has-append : (t n : ℕ) (l k : List (ℕ × ℕ)) → Has t n (l ++ k) ↔ (Has t n l ⊎ Has t n k)
Has-append t n [] k = (λ h. inr h, λ h. elim h [ inl x ↦ absurd x | inr y ↦ y ])
Has-append t n ((u, c) ∷ l) k =
    let (to, of) = Has-append t n l k in
    (
      λ h. elim h [
        | inl e ↦ inl (inl e)
        | inr r ↦ elim (to r) [ inl x ↦ inl (inr x) | inr y ↦ inr y ]
      ],
      λ h. elim h [
        | inl x ↦ elim x [ inl e ↦ inl e | inr r ↦ inr (of (inl r)) ]
        | inr y ↦ inr (of (inr y))
      ],
    )

backwards-IsShuffle : IsShuffle backwards
backwards-IsShuffle [] t n = (λ h. h, λ h. h)
backwards-IsShuffle ((u, c) ∷ l) t n =
    let (to, of) = Has-append t n (backwards l) ((u, c) ∷ []) in
    let (into, back) = backwards-IsShuffle l t n in
    (
      λ h. elim (to h) [
        | inl x ↦ inr (into x)
        | inr y ↦ elim y [ inl e ↦ inl e | inr z ↦ absurd z ]
      ],
      λ h. elim h [ inl e ↦ of (inr (inl e)) | inr x ↦ of (inl (back x)) ],
    )

-- Two times occur twice; the later one is taken.
abbrev times : List ℕ
times = 7 ∷ 9 ∷ 7 ∷ time_sentinel ∷ 9 ∷ []

common_time_test : common_time backwards times ≡ (9, 2)
unfolding program
common_time_test = refl

common_time-IsCommon_example : IsCommon times (common_time backwards times)
common_time-IsCommon_example = common_time-IsCommon backwards times backwards-IsShuffle

abbrev meta_at : ℕ → XlMetaV1
meta_at t = record {
  version = codes "1.0.0";
  format = codes "xl";
  stat = record { size = 8; mod_time = t };
  erasure = record {
    algorithm = codes "klauspost/reedsolomon/vandermonde";
    data_blocks = 2;
    parity_blocks = 1;
    block_size = 4;
    index = 1;
    distribution = 1 ∷ 2 ∷ 3 ∷ [];
    checksum = [];
  };
  release = [];
  meta = [];
  parts = [];
}

abbrev metas : List XlMetaV1
metas = meta_at 5 ∷ meta_at 5 ∷ meta_at 0 ∷ []

abbrev errs : Errors
errs = none ∷ none ∷ some (plain disk_not_found) ∷ []

abbrev disks : List (Option ℕ)
disks = some 1 ∷ some 2 ∷ none ∷ []

-- The error of a file that is not there comes in a trace, and the time stays the sentinel.
list_object_modtimes_test :
    list_object_modtimes 99 (meta_at 0 ∷ []) (some (traced file_not_found) ∷ [])
    ≡ time_sentinel ∷ []
unfolding program
list_object_modtimes_test = refl

-- A disk with an older copy is outdated.
out_dated_disks_test :
    out_dated_disks {D = ℕ} as_it_is 99
      (some 1 ∷ some 2 ∷ some 3 ∷ [])
      (meta_at 5 ∷ meta_at 5 ∷ meta_at 4 ∷ [])
      (none ∷ none ∷ none ∷ [])
    ≡ none ∷ none ∷ some 3 ∷ []
unfolding program
out_dated_disks_test = refl

xl_heal_stat_test :
    xl_heal_stat as_it_is 99 2 2 metas errs
    ≡ record { status = can_heal; missing_data_count = 0; missing_parity_count = 1 }
unfolding program
xl_heal_stat_test = refl

-- The two calls walk their maps in different orders, at different times.
out_dated_disks-Empty_example : All (λ d. d ≡ none) (out_dated_disks backwards 120 disks metas errs)
unfolding program
out_dated_disks-Empty_example =
    out_dated_disks-Empty (λ l. l) backwards 99 120 metas errs disks (λ l t n. (λ h. h, λ h. h))
      backwards-IsShuffle refl
