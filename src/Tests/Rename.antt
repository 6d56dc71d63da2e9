-- ===== src/Tests/Rename.antt =====
-- `rename` of cmd/xl-v1-object.go on disks that hold one entry each.
use minio.Base.{ℕ, ◌≡◌, refl, List, [], ◌∷◌, Option, none, some, if◌then◌else◌, ℕ_discrete}
use minio.Base.Assoc.{get, put}
use minio.Base.Text.{Text, text_discrete, same}
use minio.Quorum.{
  traced, error_cause, errors_cause, is_err_ignored, error_counts, max_count, reduce_errs,
  reduce_quorum_errs, count_not_ignored, is_disk_quorum,
}
use minio.XlObject.Rename.{
  RenameLayer, retain_slash, rename_disks, undo_disks, undo_rename, rename, rename_object,
}

unfoldable same_failure : Discrete (Option ℕ)
unfolding ℕ_discrete
same_failure = hlevel ℕ_discrete

program : Unit {0}
unfolding retain_slash rename_disks undo_disks undo_rename rename rename_object error_cause
    errors_cause is_err_ignored error_counts max_count reduce_errs reduce_quorum_errs
    count_not_ignored is_disk_quorum same_failure ℕ_discrete text_discrete get put
program = tt

-- A disk is the entry that it holds.
abbrev layer : RenameLayer Text ℕ
layer = record {
  rename_file = λ a b c d s. if same s b then (d, none) else (s, some 0);
  same_error = same_failure;
  shuffle = λ l. l;
  err_disk_not_found = 1;
  err_file_not_found = 0;
  err_xl_write_quorum = 2;
  quorum_ignored_errs = 1 ∷ [];
  object_op_ignored_errs = 1 ∷ [];
}

abbrev entry : Text
entry = 1 ∷ []

abbrev target : Text
target = 2 ∷ []

-- A disk with the object, and one that is away.
abbrev disks : List (Option Text)
disks = some (1 ∷ 47 ∷ []) ∷ none ∷ []

undone_test : rename_object layer disks [] entry [] target 2 ≡ (disks, some (traced 2))
unfolding program
undone_test = refl

done_test : rename_object layer disks [] entry [] target 1 ≡ (some (2 ∷ 47 ∷ []) ∷ none ∷ [], none)
unfolding program
done_test = refl

-- A disk without the object counts for the rename, and what it has at the target is moved back to a
-- place where it never was.
stray_test :
    rename_object layer (some (2 ∷ 47 ∷ []) ∷ none ∷ []) [] entry [] target 2
    ≡ (some (1 ∷ 47 ∷ []) ∷ none ∷ [], some (traced 2))
unfolding program
stray_test = refl
