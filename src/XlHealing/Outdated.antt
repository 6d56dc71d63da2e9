-- ===== src/XlHealing/Outdated.antt =====
-- Where `xlShouldHeal` of cmd/xl-v1-healing-common.go finds nothing to heal, no disk is outdated.
use mathlib.Core.Path.{subst}
use minio.Base.{
  ℕ, zero, suc, ◌<◌, ◌≡◌, ◌≢◌, ◌⊎◌, refl, true, false, List, [], ◌∷◌, Option, none, some, arith,
  ◌==◌, if◌then◌else◌, length, replicate, All, inl, inr, Bool-cases,
}
use minio.Quorum.{plain, traced, error_cause}
use minio.XlMeta.{XlMetaV1}
use minio.XlHealing.{
  file_not_found, disk_not_found, other_error, Errors, time_sentinel, common_time, boot_modtimes,
  set_modtimes, list_object_modtimes, disks_at, list_online_disks, collect_out_dated,
  out_dated_disks, any_to_heal, xl_should_heal, is_none,
}
use minio.XlHealing.CommonTime.{occurrences, IsShuffle, common_time-IsCommon, no_times}

-- Every time is the sentinel or this one.
abbrev pub Only : ℕ → List ℕ → Type 0
Only m times = All (λ t. (t ≡ time_sentinel) ⊎ (t ≡ m)) times

Only-replicate : (m n : ℕ) → Only m (replicate n time_sentinel)
Only-replicate m zero = tt
Only-replicate m (suc n) = (inl refl, Only-replicate m n)

-- Where no copy is to be healed, no other time than the common one is among the times.
Only-set_modtimes :
    (now m : ℕ) (metas : List XlMetaV1) (errs : Errors)
    → any_to_heal m metas errs ≡ false
    → Only m (set_modtimes now metas errs (replicate (length metas) time_sentinel))
unfolding any_to_heal set_modtimes
Only-set_modtimes now m [] errs h = tt
Only-set_modtimes now m (meta ∷ metas) [] h = (inl refl, Only-replicate m (length metas))
Only-set_modtimes now m (meta ∷ metas) (some (traced e) ∷ errs) h = absurd (ground arith)
Only-set_modtimes now m (meta ∷ metas) (some (plain file_not_found) ∷ errs) h =
    absurd (ground arith)
Only-set_modtimes now m (meta ∷ metas) (some (plain other_error) ∷ errs) h = absurd (ground arith)
Only-set_modtimes now m (meta ∷ metas) (some (plain disk_not_found) ∷ errs) h =
    (inl refl, Only-set_modtimes now m metas errs h)
Only-set_modtimes now m (meta ∷ metas) (none ∷ errs) h =
    elim (Bool-cases (m == meta.stat.mod_time)) [
      | inl t ↦ (inr (ground arith), Only-set_modtimes now m metas errs (rw t at h))
      | inr t ↦ let bad : true ≡ false = rw t at h in absurd (ground arith)
    ]

none_else : (m u : ℕ) (times : List ℕ) → Only m times → 0 < occurrences u times → u ≡ m
none_else m u [] h p = absurd (omega arith)
none_else m u (t ∷ times) (inl e, h) p = none_else m u times h (ground arith)
none_else m u (t ∷ times) (inr e, h) p = elim (Bool-cases (t == u)) [
  | inl i ↦ ground arith
  | inr i ↦ none_else m u times h (ground arith)
]

no_occurrence : (times : List ℕ) → Only time_sentinel times → (u : ℕ) → occurrences u times ≡ 0
no_occurrence [] h u = refl
no_occurrence (t ∷ times) (inl e, h) u = let r = no_occurrence times h u in ground arith
no_occurrence (t ∷ times) (inr e, h) u = let r = no_occurrence times h u in ground arith

-- In every order of the map, the common time of such times is that time, if it occurs.
common_time-Only :
    (shuffle : List (ℕ × ℕ) → List (ℕ × ℕ)) (m : ℕ) (times : List ℕ)
    → IsShuffle shuffle
    → Only m times
    → 0 < occurrences m times
    → (common_time shuffle times).0 ≡ m
common_time-Only shuffle m times fair h p =
    let r = common_time shuffle times in
    let (n, below) = common_time-IsCommon shuffle times fair in
    let up = below m p in none_else m r.0 times h (omega (arith, n, up))

module _ {D : Type 0} (shuffle shuffle' : List (ℕ × ℕ) → List (ℕ × ℕ)) (now now' : ℕ) where
  abbrev Empty : List (Option D) → Type 0
  Empty l = All (λ d. d ≡ none) l

  present : (disk : Option D) → (if is_none disk then disk else none) ≡ none
  present none = refl
  present (some d) = refl

  no_disks :
      (l : List (Option D)) (errs : Errors) → Empty (collect_out_dated shuffle' now' l [] errs)
  unfolding collect_out_dated
  no_disks [] errs = tt
  no_disks (x ∷ l) errs = tt

  collect_out_dated-Empty :
      (m m' : ℕ) (metas : List XlMetaV1) (errs : Errors) (disks : List (Option D))
      → m ≢ time_sentinel
      → any_to_heal m metas errs ≡ false
      → (0 < occurrences m (set_modtimes now' metas errs (replicate (length metas) time_sentinel))
          → m' ≡ m)
      → Empty (
          collect_out_dated shuffle' now'
            (disks_at shuffle' now' m'
              (set_modtimes now' metas errs (replicate (length metas) time_sentinel))
              disks)
            disks
            errs)
  unfolding any_to_heal collect_out_dated disks_at set_modtimes error_cause
  collect_out_dated-Empty m m' [] errs disks s h w = tt
  collect_out_dated-Empty m m' (meta ∷ metas) [] [] s h w = tt
  collect_out_dated-Empty m m' (meta ∷ metas) [] (disk ∷ disks) s h w = tt
  collect_out_dated-Empty m m' (meta ∷ metas) (e ∷ errs) [] s h w = no_disks _ (e ∷ errs)
  collect_out_dated-Empty m m' (meta ∷ metas) (some (traced e) ∷ errs) (disk ∷ disks) s h w =
      absurd (ground arith)
  collect_out_dated-Empty m m' (meta ∷ metas) (some (plain file_not_found) ∷ errs) (disk ∷ disks) s
        h w =
      absurd (ground arith)
  collect_out_dated-Empty m m' (meta ∷ metas) (some (plain other_error) ∷ errs) (disk ∷ disks) s h
        w =
      absurd (ground arith)
  collect_out_dated-Empty m m' (meta ∷ metas) (some (plain disk_not_found) ∷ errs) (disk ∷ disks) s
        h w =
      (refl, collect_out_dated-Empty m m' metas errs disks s h (λ p. w (omega (arith, p))))
  collect_out_dated-Empty m m' (meta ∷ metas) (none ∷ errs) (disk ∷ disks) s h w =
      elim (Bool-cases (m == meta.stat.mod_time)) [
        | inl t ↦
            let times = set_modtimes now' metas errs (replicate (length metas) time_sentinel) in
            let here : 0 < occurrences m (meta.stat.mod_time ∷ times) = ground arith in
            let common = w here in
            let t' : (meta.stat.mod_time == m') ≡ true = ground arith in
            let rest : any_to_heal m metas errs ≡ false = rw t at h in
            rw t' (present disk, collect_out_dated-Empty m m' metas errs disks s rest (λ p. common))
        | inr t ↦ let bad : true ≡ false = rw t at h in absurd (ground arith)
      ]

  -- If `xlShouldHeal` finds no copy that is to be healed, `outDatedDisks` finds no disk that is outdated,
  -- whatever the time is and the order of the map in either call.
  pub out_dated_disks-Empty :
      (metas : List XlMetaV1) (errs : Errors) (disks : List (Option D))
      → IsShuffle shuffle
      → IsShuffle shuffle'
      → xl_should_heal shuffle now metas errs ≡ false
      → Empty (out_dated_disks shuffle' now' disks metas errs)
  unfolding xl_should_heal out_dated_disks list_online_disks list_object_modtimes boot_modtimes
  out_dated_disks-Empty metas errs disks fair fair' h =
      let times = set_modtimes now metas errs (replicate (length metas) time_sentinel) in
      let times' = set_modtimes now' metas errs (replicate (length metas) time_sentinel) in
      let m = (common_time shuffle times).0 in
      let proper : m ≢ time_sentinel = λ e.
        let only = Only-set_modtimes now m metas errs h in
        let zero =
          no_times shuffle times fair (no_occurrence times (subst (λ t. Only t times) e only)) in
        ground arith in
      collect_out_dated-Empty m _ metas errs disks proper h
        (common_time-Only shuffle' m times' fair' (Only-set_modtimes now' m metas errs h))
