-- ===== src/Tests/Quorum.antt =====
-- Votes of cmd/xl-v1-utils.go over four disks.
use minio.Base.{ℕ, ◌<◌, ◌≡◌, refl, List, [], ◌∷◌, Option, some, none, arith, ℕ_discrete}
use minio.Base.Assoc.{get, put}
use minio.Quorum.{
  Error, plain, traced, error_cause, errors_cause, is_err_ignored, error_counts, max_count,
  reduce_errs, reduce_quorum_errs, count_not_ignored, is_disk_quorum,
}
use minio.Quorum.Majority.{votes, voters, reduce_errs-majority, reduce_quorum_errs-agreed}

unfoldable error_discrete : Discrete (Option ℕ)
unfolding ℕ_discrete
error_discrete = hlevel ℕ_discrete

program : Unit {0}
unfolding error_discrete error_cause errors_cause is_err_ignored error_counts max_count reduce_errs
    reduce_quorum_errs count_not_ignored is_disk_quorum get put votes voters
program = tt

-- Two successes, an error 7 and an error 9 that is ignored.
abbrev errs : List (Option (Error ℕ))
errs = none ∷ some (plain 7) ∷ none ∷ some (traced 9) ∷ []

-- No two alike.
abbrev split : List (Option (Error ℕ))
split = none ∷ some (plain 7) ∷ some (traced 8) ∷ []

abbrev order : List (Option ℕ × ℕ) → List (Option ℕ × ℕ)
order l = l

reduce_errs_test : reduce_errs error_discrete order errs (9 ∷ []) ≡ (2, none)
unfolding program
reduce_errs_test = refl

reduce_errs-majority_example :
    reduce_errs error_discrete order errs (9 ∷ [])
    ≡ (votes error_discrete none (errors_cause errs) (9 ∷ []), none)
unfolding program
reduce_errs-majority_example =
    reduce_errs-majority error_discrete order (λ l e n. (λ h. h, λ h. h)) errs (9 ∷ []) none
      (omega arith)

reduce_quorum_errs-agreed_example :
    reduce_quorum_errs error_discrete order errs (9 ∷ []) 2 100 ≡ none
unfolding program
reduce_quorum_errs-agreed_example =
    reduce_quorum_errs-agreed error_discrete order (λ l e n. (λ h. h, λ h. h)) errs (9 ∷ []) none 2
      100 (omega arith) (omega arith)

few_votes : (e : Option ℕ) → votes error_discrete e (errors_cause split) [] < 2
unfolding error_cause errors_cause is_err_ignored votes
few_votes e = ground arith
