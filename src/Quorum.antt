-- ===== src/Quorum.antt =====
-- Votes over the errors of several disks: `reduceErrs` and its callers in cmd/xl-v1-utils.go, and
-- the helpers of cmd/errors.go.
pub mod Majority
use minio.Base.{
  ℕ, ◌+◌, Bool, true, false, not, List, [], ◌∷◌, map, Option, none, some, ltb, leb, if◌then◌else◌,
  ite,
}
use minio.Base.Assoc.{get, put}

-- An error value: one of the package's errors, alone or in the trace that `traceError` puts round
-- it.
pub data Error (E : Type 0) : Type 0 where
  plain : E → Error E
  traced : E → Error E

module _ {E : Type 0} where
  -- `errorCause`.
  unfoldable pub error_cause : Error E → E
  error_cause (plain e) = e
  error_cause (traced e) = e

  -- `errorsCause`: nil stays nil.
  unfoldable pub errors_cause : List (Option (Error E)) → List (Option E)
  unfolding error_cause
  errors_cause [] = []
  errors_cause (none ∷ errs) = none ∷ errors_cause errs
  errors_cause (some e ∷ errs) = some (error_cause e) ∷ errors_cause errs

module _ {E : Type 0} (dec : Discrete (Option E)) where
  -- The loop of `isErrIgnored`, on a cause.
  unfoldable pub is_err_ignored : Option E → List E → Bool
  is_err_ignored err [] = false
  is_err_ignored err (e ∷ ignored) = ite (dec (some e) err) true (is_err_ignored err ignored)

  -- The first loop of `reduceErrs`: how often each error that is not ignored occurs.
  unfoldable pub error_counts : List (Option E) → List E → List (Option E × ℕ) → List (Option E × ℕ)
  unfolding is_err_ignored
  error_counts [] ignored counts = counts
  error_counts (err ∷ errs) ignored counts = error_counts errs ignored (
      if is_err_ignored err ignored
      then counts
      else put dec err (elim (get dec err counts) [ none ↦ 1 | some n ↦ n + 1 ]) counts)

  -- The second loop of `reduceErrs`, over the counts in the order in which the map yields them.
  unfoldable pub max_count : List (Option E × ℕ) → ℕ → Option E → ℕ × Option E
  max_count [] max max_err = (max, max_err)
  max_count ((err, count) ∷ rest) max max_err =
      max_count rest (if ltb max count then count else max) (if ltb max count then err else max_err)

  -- `reduceErrs`; `shuffle` is the order of the map's iteration.
  unfoldable pub reduce_errs :
      (List (Option E × ℕ) → List (Option E × ℕ)) → List (Option (Error E)) → List E → ℕ × Option E
  unfolding error_counts max_count errors_cause
  reduce_errs shuffle errs ignored =
      max_count (shuffle (error_counts (errors_cause errs) ignored [])) 0 none

  -- `reduceQuorumErrs`: nil, or the error that it returns.
  unfoldable pub reduce_quorum_errs :
      (List (Option E × ℕ) → List (Option E × ℕ))
      → List (Option (Error E))
      → List E
      → ℕ
      → E
      → Option (Error E)
  reduce_quorum_errs shuffle errs ignored quorum quorum_err =
      let (count, err) = reduce_errs shuffle errs ignored in
      if leb quorum count
      then (elim err [ none ↦ none | some e ↦ some (traced e) ])
      else some (traced quorum_err)

  -- The loop of `isDiskQuorum`.
  unfoldable pub count_not_ignored : List (Option E) → List E → ℕ → ℕ
  unfolding is_err_ignored
  count_not_ignored [] ignored count = count
  count_not_ignored (err ∷ errs) ignored count =
      count_not_ignored errs ignored (if not (is_err_ignored err ignored) then count + 1 else count)

  unfoldable pub is_disk_quorum : List (Option (Error E)) → List E → ℕ → Bool
  unfolding count_not_ignored errors_cause
  is_disk_quorum errs quorum_ignored min_quorum_count =
      leb min_quorum_count (count_not_ignored (errors_cause errs) quorum_ignored 0)
